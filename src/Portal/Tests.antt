-- ===== src/Portal/Tests.antt =====
-- A portal with room for two sessions, of which one is a user's and one is in reserve.
mod Life
mod Setup
use mathlib.Core.List.{Memᴰ}
use educates_training_platfo.Prelude.{
  ◌*◌, ◌≤◌, String, true, false, ◌≡◌, refl, Option, none, some, [], ◌∷◌, arith, is_some,
}
use educates_training_platfo.Glob.{codes}
use educates_training_platfo.Dict.{get, put}
use educates_training_platfo.Decimal.{decimal}
use educates_training_platfo.Portal.Models.{
  second, EnvironmentState, SessionState, WorkshopParam, Environment, Session, TrainingPortal,
  active_sessions_count, active_sessions_count_in, mark_as_pending, ready_sessions_count,
  session_permitted_for_user, sessions_count_of,
}
use educates_training_platfo.Portal.Sessions.{
  Request, retrieve_new_session, allocate_session_for_user, allocate, first, change_sessions,
  change_first, take_over, retrieve_session_for_user,
}
use educates_training_platfo.Portal.Expiry.{
  remaining_time, extension_threshold, extension_duration, extension_due, is_extension_permitted,
  extended_to, extended, extend_time_remaining,
}
use educates_training_platfo.Portal.Expiry.Bounds.{IsExtended, extend_time_remaining-IsExtended}
use educates_training_platfo.Portal.Params.{
  default_params, default_value, supplied, resolve_request_params,
}
use educates_training_platfo.Portal.Reserved.{
  replace_reserved_session, create_new_session, setup_workshop_session, new_session,
  session_name_of, save_environment, initiate_reserved_sessions,
}
use educates_training_platfo.Portal.Sessions.Places.{retrieve_session_for_user-capacity}
use educates_training_platfo.Portal.Sessions.Ownership.{IsGiven, retrieve_session_for_user-IsGiven}
use educates_training_platfo.Portal.Reserved.Capacity.{initiate_reserved_sessions-capacity}
use educates_training_platfo.Portal.Params.Declared.{declares, resolve_request_params-declared}

abbrev size_param : WorkshopParam
size_param = record { name = some "SIZE"; value = some "small"; generate = none; pattern = none }

abbrev git_environment : Environment
git_environment = record {
  name = "lab-git";
  workshop_name = "git";
  resource_name = "lab-git";
  labels = [];
  created_at = 0;
  position = 1;
  refresh = 0;
  workshop_params = size_param ∷ [];
  state = EnvironmentState.running;
  capacity = 3;
  initial = 1;
  reserved = 2;
  expires = 3600;
  overtime = 0;
  deadline = 7200;
  orphaned = 0;
  tally = 2;
}

abbrev row : String → SessionState → Option String → Session
row name state owner = record {
  name = codes name;
  environment = "lab-git";
  state = state;
  owner = owner;
  created = 10;
  started = none;
  expires = none;
  token = none;
  params = [];
  index_url = none;
  analytics_url = none;
}

abbrev busy_portal : TrainingPortal
busy_portal = record {
  sessions_maximum = 3;
  sessions_registered = 1;
  sessions_anonymous = 1;
  environments = git_environment ∷ [];
  sessions =
      row "lab-git-s001" SessionState.running (some "jo")
      ∷ row "lab-git-s002" SessionState.waiting none
      ∷ [];
}

abbrev ann : Request
ann = record {
  user = record { username = "ann"; is_staff = false; anonymous = true };
  token = some "t0k";
  timeout = none;
  params = (some "SIZE", some "large") ∷ (some "COLOUR", some "red") ∷ [];
  index_url = none;
  analytics_url = none;
}

abbrev no_random : String → String
no_random pattern = ""

retrieve_session_for_user-capacity_example :
    active_sessions_count_in git_environment
      (retrieve_session_for_user no_random 100 git_environment none ann busy_portal).1
    ≤ 3
unfolding active_sessions_count_in
retrieve_session_for_user-capacity_example =
    retrieve_session_for_user-capacity git_environment no_random 100 ann none busy_portal
      (ground arith)

initiate_reserved_sessions-capacity_example :
    active_sessions_count_in git_environment (initiate_reserved_sessions 100 busy_portal) ≤ 3
unfolding active_sessions_count_in
initiate_reserved_sessions-capacity_example =
    initiate_reserved_sessions-capacity 100 git_environment busy_portal (refl, tt) (Memᴰ.head refl)
      (ground arith)

resolve_request_params-declared_example :
    is_some (get (resolve_request_params no_random (size_param ∷ []) ann.params) "COLOUR")
    ≡ declares "COLOUR" (size_param ∷ [])
resolve_request_params-declared_example =
    resolve_request_params-declared no_random (size_param ∷ []) ann.params "COLOUR"

-- The session of the portal that the request has waited for, and what is left of the portal.
abbrev ann_session : Session
ann_session = record (row "lab-git-s002" SessionState.waiting none) {
  owner = some "ann";
  started = some 100;
  expires = some 60_000_100;
  token = some "t0k";
  params = ("SIZE", "large") ∷ [];
}

abbrev after_ann : TrainingPortal
after_ann = record busy_portal {
  environments = record git_environment { tally = 3 } ∷ [];
  sessions =
      row "lab-git-s001" SessionState.running (some "jo")
      ∷ ann_session
      ∷ record (row "lab-git-s003" SessionState.starting none) { created = 100 }
      ∷ [];
}

ann_retrieves :
    retrieve_session_for_user no_random 100 git_environment none ann busy_portal
    ≡ (some ann_session, after_ann)
unfolding retrieve_session_for_user retrieve_new_session allocate_session_for_user allocate first
    change_sessions change_first mark_as_pending take_over resolve_request_params default_params
    default_value supplied get put replace_reserved_session ready_sessions_count
    active_sessions_count_in active_sessions_count create_new_session setup_workshop_session
    new_session session_name_of save_environment session_permitted_for_user sessions_count_of
    decimal
ann_retrieves = refl

retrieve_session_for_user-IsGiven_example : IsGiven git_environment ann.user ann_session after_ann
retrieve_session_for_user-IsGiven_example =
    retrieve_session_for_user-IsGiven no_random 100 git_environment ann none busy_portal after_ann
      ann_session ann_retrieves

-- A session of an hour, with four minutes left, of an environment that lets it run for two.
abbrev hour : Environment
hour = record git_environment { expires = 3600 * second; overtime = 0; deadline = 7200 * second }

abbrev late : Session
late = record ann_session {
  state = SessionState.running;
  started = some 0;
  expires = some (3600 * second);
}

late_extended :
    extend_time_remaining (3360 * second) hour late
    ≡ some (true, record late { expires = some (4500 * second) })
unfolding extend_time_remaining is_extension_permitted extension_due remaining_time
    extension_duration extension_threshold extended extended_to
late_extended = refl

extend_time_remaining-IsExtended_example :
    IsExtended hour late (record late { expires = some (4500 * second) })
extend_time_remaining-IsExtended_example =
    extend_time_remaining-IsExtended (3360 * second) hour late
      (record late { expires = some (4500 * second) }) late_extended
