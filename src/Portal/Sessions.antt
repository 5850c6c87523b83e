-- ===== src/Portal/Sessions.antt =====
-- manager/sessions.py of the training portal: how users get sessions. Each function runs under the
-- global lock and in one transaction. The calls of the Kubernetes API and the reports to the
-- analytics service are left out: they do not change the database.
pub mod Counts
pub mod Room
pub mod Bounds
pub mod Ownership
pub mod Places
use educates_training_platfo.Prelude.{
  ℕ, ◌+◌, ◌-◌, min, String, Bool, true, false, not, ◌&&◌, Option, none, some, List, [], ◌∷◌, ◌++◌,
  ◌==◌, leb, ltb, given, if◌then◌else◌,
}
use educates_training_platfo.Portal.Models.{
  same_name, Environment, Session, User, TrainingPortal, is_available, is_pending, is_ready,
  is_owned_in, allocated_sessions_count, active_sessions_count, session_permitted_for_user,
  active_sessions_count_in, mark_as_pending, mark_as_running, mark_as_stopping,
}
use educates_training_platfo.Portal.Params.{resolve_request_params}
use educates_training_platfo.Portal.Reserved.{
  save_environment, new_session, replace_reserved_session,
}

-- The first row that a query gives, and what happens to it.
unfoldable pub first : (Session → Bool) → List Session → Option Session
first q [] = none
first q (s ∷ ss) = if q s then some s else first q ss

unfoldable pub change_first : (Session → Bool) → (Session → Session) → List Session → List Session
change_first q f [] = []
change_first q f (s ∷ ss) = if q s then f s ∷ ss else s ∷ change_first q f ss

pub record Request : Type 0 where
  pub user : User
  pub token : Option String
  pub timeout : Option ℕ
  pub params : List (Option String × Option String)
  pub index_url : Option String
  pub analytics_url : Option String

-- What a request leaves on the session that it gets.
unfoldable pub take_over : (String → String) → Environment → Request → Session → Session
take_over xeger e r s = record s {
  params = resolve_request_params xeger e.workshop_params r.params;
  index_url = r.index_url;
  analytics_url = r.analytics_url;
}

unfoldable pub allocate : (String → String) → ℕ → Environment → Request → Session → Session
allocate xeger now e r s =
    if given r.token
    then mark_as_pending now e r.user r.token r.timeout (take_over xeger e r s)
    else mark_as_running now e (some r.user) (take_over xeger e r s)

unfoldable pub change_sessions :
    (Session → Bool) → (Session → Session) → TrainingPortal → TrainingPortal
change_sessions q f p = record p { sessions = change_first q f p.sessions }

allocate_found :
    (String → String)
    → ℕ
    → Environment
    → Request
    → TrainingPortal
    → Option Session
    → Option Session × TrainingPortal
allocate_found xeger now e r p none = (none, p)
allocate_found xeger now e r p (some s) = (
  some (allocate xeger now e r s),
  replace_reserved_session now e (change_sessions (is_ready e) (allocate xeger now e r) p),
)

unfoldable pub allocate_session_for_user :
    (String → String) → ℕ → Environment → Request → TrainingPortal → Option Session × TrainingPortal
unfolding allocate_found
allocate_session_for_user xeger now e r p =
    allocate_found xeger now e r p (first (is_ready e) p.sessions)

-- The new session is saved as a row that already belongs to the user.
unfoldable pub owned_session : (String → String) → ℕ → Environment → Request → Session
owned_session xeger now e r =
    mark_as_pending now e r.user r.token r.timeout
      (take_over xeger e r (new_session now (record e { tally = e.tally + 1 })))

unfoldable pub create_owned_session :
    (String → String) → ℕ → Environment → Request → TrainingPortal → Option Session × TrainingPortal
create_owned_session xeger now e r p = (
  some (owned_session xeger now e r),
  record p {
    environments = save_environment (record e { tally = e.tally + 1 }) p.environments;
    sessions = p.sessions ++ owned_session xeger now e r ∷ [];
  },
)

-- When the oldest reserved session of the portal was created.
unfoldable pub first_created : List Session → Option ℕ
first_created [] = none
first_created (s ∷ ss) =
    let rest = first_created ss in
    if is_available s
    then (elim rest [ none ↦ some s.created | some m ↦ some (min s.created m) ])
    else rest

abbrev pub created_at : ℕ → Session → Bool
created_at m s = is_available s && s.created == m

-- Of sessions that were created at the same time the first row is taken.
unfoldable pub stop_created_at : ℕ → TrainingPortal → Option ℕ → TrainingPortal
stop_created_at now p none = p
stop_created_at now p (some m) = change_sessions (created_at m) (mark_as_stopping now) p

unfoldable pub stop_oldest : ℕ → TrainingPortal → TrainingPortal
unfolding stop_created_at
stop_oldest now p = stop_created_at now p (first_created p.sessions)

unfoldable pub create_session_for_user :
    (String → String) → ℕ → Environment → Request → TrainingPortal → Option Session × TrainingPortal
create_session_for_user xeger now e r p =
    if leb e.capacity (active_sessions_count_in e p)
    then (none, p)
    else if p.sessions_maximum == 0
    then create_owned_session xeger now e r p
    else if leb p.sessions_maximum (allocated_sessions_count p)
    then (none, p)
    else if ltb (active_sessions_count p) p.sessions_maximum
    then create_owned_session xeger now e r p
    else create_owned_session xeger now e r (stop_oldest now p)

create_if_none :
    (String → String)
    → ℕ
    → Environment
    → Request
    → Option Session × TrainingPortal
    → Option Session × TrainingPortal
create_if_none xeger now e r (some s, p) = (some s, p)
create_if_none xeger now e r (none, p) = create_session_for_user xeger now e r p

unfoldable pub retrieve_new_session :
    (String → String) → ℕ → Environment → Request → TrainingPortal → Option Session × TrainingPortal
unfolding create_if_none
retrieve_new_session xeger now e r p =
    create_if_none xeger now e r (allocate_session_for_user xeger now e r p)

-- With a token, the session that the user has is renewed while it has not been accessed.
unfoldable pub renewed : ℕ → Environment → Request → Session → Session
renewed now e r s =
    if given r.token && is_pending s then mark_as_pending now e r.user r.token r.timeout s else s

-- `session_name` is the code points of the name that is asked for.
abbrev differs : Option (List ℕ) → Session → Bool
differs none s = false
differs (some []) s = false
differs (some (c ∷ cs)) s = not (same_name s.name (c ∷ cs))

abbrev asked : Option (List ℕ) → Bool
asked none = false
asked (some []) = false
asked (some (c ∷ cs)) = true

retrieve_found :
    (String → String)
    → ℕ
    → Environment
    → Option (List ℕ)
    → Request
    → TrainingPortal
    → Option Session
    → Option Session × TrainingPortal
retrieve_found xeger now e session_name r p (some s) = (
  if differs session_name s then none else some (renewed now e r s),
  change_sessions (is_owned_in e r.user) (renewed now e r) p,
)
retrieve_found xeger now e session_name r p none =
    if asked session_name
    then (none, p)
    else if not (session_permitted_for_user p r.user)
    then (none, p)
    else retrieve_new_session xeger now e r p

unfoldable pub retrieve_session_for_user :
    (String → String)
    → ℕ
    → Environment
    → Option (List ℕ)
    → Request
    → TrainingPortal
    → Option Session × TrainingPortal
unfolding retrieve_found
retrieve_session_for_user xeger now e session_name r p =
    retrieve_found xeger now e session_name r p (first (is_owned_in e r.user) p.sessions)
