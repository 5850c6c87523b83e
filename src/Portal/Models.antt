-- ===== src/Portal/Models.antt =====
-- models.py of the training portal: the rows of the database that the session manager reads and
-- changes, and its queries. The database's own order of rows is the order of the lists. Times and
-- durations are whole microseconds, and the clock is an argument. A row that points to another one holds
-- that one's name. Fields that only say how a session is deployed are left out.
use educates_training_platfo.Prelude.{
  ℕ, ◌+◌, ◌*◌, String, Bool, true, false, not, ◌&&◌, Option, none, some, List, [], ◌∷◌, ◌==◌, leb,
  ltb, count, given, or_else, if◌then◌else◌, is, is_some, str_eq, default,
}
use educates_training_platfo.Dict.{Dict}

-- In microseconds.
abbrev pub second : ℕ
second = 1_000_000

pub data EnvironmentState : Type 0 where
  starting running stopping stopped : EnvironmentState

pub data SessionState : Type 0 where
  starting waiting running stopping stopped : SessionState

-- A parameter of a workshop, where a missing property is `none`.
pub record WorkshopParam : Type 0 where
  pub name : Option String
  pub value : Option String
  pub generate : Option String
  pub pattern : Option String

pub record Environment : Type 0 where
  pub name : String
  pub workshop_name : String
  pub resource_name : String
  pub labels : Dict String
  pub created_at : ℕ
  pub position : ℕ
  pub refresh : ℕ
  pub workshop_params : List WorkshopParam
  pub state : EnvironmentState
  pub capacity : ℕ
  pub initial : ℕ
  pub reserved : ℕ
  pub expires : ℕ
  pub overtime : ℕ
  pub deadline : ℕ
  pub orphaned : ℕ
  pub tally : ℕ

pub record Session : Type 0 where
  pub name : List ℕ
  pub environment : String
  pub state : SessionState
  pub owner : Option String
  pub created : ℕ
  pub started : Option ℕ
  pub expires : Option ℕ
  pub token : Option String
  pub params : Dict String
  pub index_url : Option String
  pub analytics_url : Option String

pub record User : Type 0 where
  pub username : String
  pub is_staff : Bool
  pub anonymous : Bool

-- The environments stand in the order of their positions.
pub record TrainingPortal : Type 0 where
  pub sessions_maximum : ℕ
  pub sessions_registered : ℕ
  pub sessions_anonymous : ℕ
  pub environments : List Environment
  pub sessions : List Session

abbrev pub same_name : List ℕ → List ℕ → Bool
same_name [] [] = true
same_name (a ∷ as') (b ∷ bs) = a == b && same_name as' bs
same_name _ _ = false

abbrev pub is_running : Environment → Bool
is_running e = elim e.state [ EnvironmentState.running ↦ true | _ ↦ false ]

abbrev pub is_stopped : Session → Bool
is_stopped s = elim s.state [ SessionState.stopped ↦ true | _ ↦ false ]

abbrev pub is_stopping : Session → Bool
is_stopping s = elim s.state [ SessionState.stopping ↦ true | _ ↦ false ]

abbrev pub is_waiting : Session → Bool
is_waiting s = elim s.state [ SessionState.waiting ↦ true | _ ↦ false ]

-- Starting or waiting.
abbrev pub is_fresh : Session → Bool
is_fresh s = elim s.state [ SessionState.starting ↦ true | SessionState.waiting ↦ true | _ ↦ false ]

abbrev pub is_available : Session → Bool
is_available s = not (is_some s.owner) && is_fresh s

abbrev pub is_pending : Session → Bool
is_pending s = is_some s.owner && is_fresh s

abbrev pub is_allocated : Session → Bool
is_allocated s = is_some s.owner && not (is_stopped s)

abbrev pub is_active : Session → Bool
is_active s = not (is_stopped s)

abbrev pub of_environment : Environment → Session → Bool
of_environment e s = str_eq s.environment e.name

-- The counts over the whole portal.
unfoldable pub available_sessions_count : TrainingPortal → ℕ
available_sessions_count p = count is_available p.sessions

unfoldable pub allocated_sessions_count : TrainingPortal → ℕ
allocated_sessions_count p = count is_allocated p.sessions

unfoldable pub active_sessions_count : TrainingPortal → ℕ
active_sessions_count p = count is_active p.sessions

unfoldable pub capacity_available : TrainingPortal → Bool
capacity_available p =
    if p.sessions_maximum == 0 then true else ltb (allocated_sessions_count p) p.sessions_maximum

-- The sessions that a user has on the portal.
unfoldable pub sessions_count_of : User → TrainingPortal → ℕ
sessions_count_of user p = count (λ s. is s.owner user.username && is_active s) p.sessions

unfoldable pub session_permitted_for_user : TrainingPortal → User → Bool
session_permitted_for_user p user =
    let maximum = if user.anonymous then p.sessions_anonymous else p.sessions_registered in
    if user.is_staff
    then true
    else if maximum == 0
    then true
    else not (leb maximum (sessions_count_of user p))

-- The queries of one environment. A session that is still starting is not available here.
abbrev pub is_ready : Environment → Session → Bool
is_ready e s = of_environment e s && not (is_some s.owner) && is_waiting s

abbrev pub is_active_in : Environment → Session → Bool
is_active_in e s = of_environment e s && is_active s

abbrev pub is_owned_in : Environment → User → Session → Bool
is_owned_in e user s =
    of_environment e s && is s.owner user.username && not (is_stopping s) && not (is_stopped s)

unfoldable pub ready_sessions_count : Environment → TrainingPortal → ℕ
ready_sessions_count e p = count (is_ready e) p.sessions

unfoldable pub active_sessions_count_in : Environment → TrainingPortal → ℕ
active_sessions_count_in e p = count (is_active_in e) p.sessions

unfoldable pub all_sessions_count_in : Environment → TrainingPortal → ℕ
all_sessions_count_in e p = count (of_environment e) p.sessions

-- The changes of one session. The environment is the one of the session.
unfoldable pub mark_as_pending :
    ℕ → Environment → User → Option String → Option ℕ → Session → Session
mark_as_pending now e user token timeout s =
    let seconds = default 60 timeout in
    record s {
      owner = some user.username;
      started = some now;
      token = or_else s.token token;
      expires =
          if given token && not (seconds == 0)
          then some (now + seconds * second)
          else if e.expires == 0
          then s.expires
          else some (now + e.expires);
    }

unfoldable pub mark_as_waiting : Session → Session
mark_as_waiting s = record s { state = SessionState.waiting }

abbrev owner_of : Option User → Option String → Option String
owner_of none owner = owner
owner_of (some user) owner = some user.username

unfoldable pub mark_as_running : ℕ → Environment → Option User → Session → Session
mark_as_running now e user s = record s {
  owner = owner_of user s.owner;
  state = SessionState.running;
  started = some now;
  expires = if e.expires == 0 then none else some (now + e.expires);
}

unfoldable pub mark_as_stopping : ℕ → Session → Session
mark_as_stopping now s = record s { state = SessionState.stopping; expires = some now }

-- The OAuth application of the session, which goes with it, is left out.
unfoldable pub mark_as_stopped : ℕ → Session → Session
mark_as_stopped now s = record s { state = SessionState.stopped; expires = some now }
