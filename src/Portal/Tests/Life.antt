-- ===== src/Portal/Tests/Life.antt =====
-- A portal with two sessions of one environment: one that a user has, and one in reserve.
use mathlib.Core.List.{Memᴰ}
use educates_training_platfo.Prelude.{
  ℕ, ◌*◌, ◌≤◌, String, Bool, true, false, ◌≡◌, refl, ◌⊎◌, inr, none, some, List, [], ◌∷◌, arith,
  count,
}
use educates_training_platfo.Glob.{codes}
use educates_training_platfo.Portal.Models.{
  EnvironmentState, SessionState, Environment, Session, TrainingPortal, second, is_available,
  ready_sessions_count, all_sessions_count_in, active_sessions_count, mark_as_running,
  mark_as_stopping,
}
use educates_training_platfo.Portal.Reserved.{running_environments}
use educates_training_platfo.Portal.Sessions.{Request, first, change_first, change_sessions}
use educates_training_platfo.Portal.Sessions.Counts.{Within, held}
use educates_training_platfo.Portal.Termination.{
  stop_first, trim, trim_environment, trim_environments, stop_oldest_of, trim_portal,
  terminate_reserved_sessions,
}
use educates_training_platfo.Portal.Termination.Stops.{Stops, terminate_reserved_sessions-Stops}
use educates_training_platfo.Portal.Termination.Room.{terminate_reserved_sessions_room}
use educates_training_platfo.Portal.Lifecycle.{
  Requester, terminate, served, refused, allocated_session, stopped_session, gone, permitted,
  session_activate, session_terminate, handle, find_environment,
}
use educates_training_platfo.Portal.Cleanup.{purge_reason, present, idle_for, orphaned_session}
use educates_training_platfo.Portal.Lifecycle.Permitted.{Changes, handle-Moves}
use educates_training_platfo.Portal.Lifecycle.Revival.{session_activate_revives}
use educates_training_platfo.Portal.Environments.{
  environment_for_workshop, find_current, replacement_of, place_environment,
  process_workshop_environment, refresh_workshop_environments, refresh_each, stop_environment,
  stop_each, leaving,
}
use educates_training_platfo.Portal.Environments.Refreshed.{
  IsRegular, renewed, refresh_keeps_settings, refresh_loses_labelled,
}
use educates_training_platfo.Portal.Reserved.{save_environment}
use educates_training_platfo.Portal.History.{
  Operation, retrieve, view, deploy, delete_session, terminate_reserved, initiate_reserved, cleanup,
  refresh, process, activate_environment, delete_environments, perform_all,
}
use educates_training_platfo.Portal.History.Within.{perform_all-Within}

abbrev lab : Environment
lab = record {
  name = "lab";
  workshop_name = "git";
  resource_name = "lab-git";
  labels = [];
  created_at = 0;
  position = 1;
  refresh = 0;
  workshop_params = [];
  state = EnvironmentState.running;
  capacity = 4;
  initial = 0;
  reserved = 0;
  expires = 3600 * second;
  overtime = 0;
  deadline = 0;
  orphaned = 600 * second;
  tally = 2;
}

abbrev reserve : Session
reserve = record {
  name = codes "lab-s002";
  environment = "lab";
  state = SessionState.waiting;
  owner = none;
  created = 10;
  started = none;
  expires = none;
  token = none;
  params = [];
  index_url = none;
  analytics_url = none;
}

-- It waits to be activated.
abbrev joes : Session
joes = record reserve {
  name = codes "lab-s001";
  owner = some "joe";
  token = some "t0k";
  started = some 10;
  expires = some (60 * second);
}

abbrev portal : TrainingPortal
portal = record {
  sessions_maximum = 2;
  sessions_registered = 1;
  sessions_anonymous = 1;
  environments = lab ∷ [];
  sessions = joes ∷ reserve ∷ [];
}

abbrev joe : Requester
joe = record { username = some "joe"; is_staff = false; is_robot = false }

abbrev nobody : Requester
nobody = record { username = none; is_staff = false; is_robot = false }

abbrev everyone : String → Bool
everyone name = true

abbrev no_random : String → String
no_random pattern = ""

-- Joe deletes the session, and the deletion has not run yet.
abbrev departing : TrainingPortal
departing = record portal { sessions = mark_as_stopping 100 joes ∷ reserve ∷ [] }

joe_terminates : session_terminate 100 joe (codes "lab-s001") portal ≡ (served, departing)
unfolding session_terminate allocated_session first permitted change_sessions change_first
joe_terminates = refl

nobody_terminates : session_terminate 100 nobody (codes "lab-s001") portal ≡ (refused 403, portal)
unfolding session_terminate allocated_session first permitted
nobody_terminates = refl

trims :
    terminate_reserved_sessions 100 portal
    ≡ record portal { sessions = joes ∷ mark_as_stopping 100 reserve ∷ [] }
unfolding terminate_reserved_sessions trim_environments trim_environment trim stop_first trim_portal
    running_environments ready_sessions_count all_sessions_count_in active_sessions_count
    stop_oldest_of mark_as_stopping
trims = refl

purges :
    purge_reason 100 lab present
      (idle_for (700 * second) 0)
      (record joes { state = SessionState.running })
    ≡ some orphaned_session
unfolding purge_reason
purges = refl

terminate_reserved_sessions-Stops_example :
    Stops 100 portal.sessions (terminate_reserved_sessions 100 portal).sessions
terminate_reserved_sessions-Stops_example = terminate_reserved_sessions-Stops 100 portal

terminate_reserved_sessions_room_example :
    (((portal.sessions_maximum ≡ 0)
      ⊎ (count is_available (terminate_reserved_sessions 100 portal).sessions ≡ 0)
      ⊎ (held (terminate_reserved_sessions 100 portal).sessions ≤ portal.sessions_maximum)))
    × ((e : Environment)
        → Memᴰ e (running_environments portal.environments)
        → e.initial ≤ e.reserved
        → ready_sessions_count e (terminate_reserved_sessions 100 portal) ≤ e.reserved)
terminate_reserved_sessions_room_example = terminate_reserved_sessions_room 100 portal

handle-Moves_example :
    Changes joe
      (codes "lab-s001")
      terminate
      portal
      (handle 100 everyone none joe (codes "lab-s001") terminate portal).1
handle-Moves_example = handle-Moves 100 joe (codes "lab-s001") portal everyone none terminate

session_activate_revives_example :
    allocated_session
      (codes "lab-s001")
      (session_activate 200 everyone (some "t0k") nobody (codes "lab-s001") departing).1
    ≡ some (mark_as_running 200 lab none (mark_as_stopping 100 joes))
unfolding gone stopped_session allocated_session first find_environment mark_as_stopping
session_activate_revives_example =
    session_activate_revives 200 everyone nobody (codes "lab-s001") departing
      (mark_as_stopping 100 joes) lab "t0k" "joe" refl refl refl refl refl refl refl refl

-- A user asks for a session, joe's is ended, and the tasks run.
abbrev ann : Request
ann = record {
  user = record { username = "ann"; is_staff = false; anonymous = false };
  token = none;
  timeout = none;
  params = [];
  index_url = none;
  analytics_url = none;
}

abbrev day : List (ℕ × Operation)
day =
    (50, retrieve lab none ann)
    ∷ (100, view joe (codes "lab-s001") terminate)
    ∷ (110, delete_session (mark_as_stopping 100 joes) lab)
    ∷ (120, initiate_reserved)
    ∷ (130, deploy (codes "lab-s003"))
    ∷ (140, terminate_reserved)
    ∷ (150, cleanup)
    ∷ (160, refresh)
    ∷ (170, process "lab-w02" (replacement_of lab) 1)
    ∷ (180, activate_environment "lab-w02" true [])
    ∷ (190, delete_environments)
    ∷ []

perform_all-Within_example : Within (perform_all no_random everyone none day portal)
perform_all-Within_example =
    perform_all-Within no_random everyone none day portal (inr (ground arith))

-- An environment that is replaced every day, and the portal after it was stopped.
abbrev daily : Environment
daily = record lab { refresh = 86400 * second; deadline = 7200 * second }

abbrev two_days : ℕ
two_days = 172800 * second

abbrev ended : TrainingPortal
ended = record portal {
  environments = leaving daily ∷ [];
  sessions = joes ∷ mark_as_stopping two_days reserve ∷ [];
}

refreshes :
    refresh_workshop_environments two_days (record portal { environments = daily ∷ [] })
    ≡ ((replacement_of daily, 1) ∷ [], ended)
unfolding refresh_workshop_environments refresh_each running_environments stop_environment stop_each
    leaving save_environment replacement_of mark_as_stopping
refreshes = refl

daily-IsRegular : IsRegular daily
daily-IsRegular = record {
  expires_whole = refl;
  overtime_whole = refl;
  deadline_whole = refl;
  orphaned_whole = refl;
  refresh_whole = refl;
  named = refl;
  in_order = omega arith;
}

refresh_keeps_settings_example :
    process_workshop_environment two_days "lab-w02" (replacement_of daily) 1 ended
    ≡ some (record ended {
      environments = place_environment (renewed two_days "lab-w02" 1 daily) ended.environments;
    })
unfolding environment_for_workshop find_current leaving
refresh_keeps_settings_example =
    refresh_keeps_settings two_days "lab-w02" daily ended daily-IsRegular refl refl

refresh_loses_labelled_example :
    process_workshop_environment two_days "lab-w02"
      (replacement_of (record daily { labels = ("level", "easy") ∷ [] }))
      1
      ended
    ≡ none
unfolding environment_for_workshop find_current leaving
refresh_loses_labelled_example =
    refresh_loses_labelled two_days "lab-w02" (record daily { labels = ("level", "easy") ∷ [] })
      ended refl refl
