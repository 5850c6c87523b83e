-- ===== src/Portal/Lifecycle.antt =====
-- The views of one session of the training portal: views/session.py. Rendering, the reports to the
-- analytics service, the OAuth application and the calls of the Kubernetes API are left out. A view
-- that changes a row without the lock is taken as one step.
pub mod Revival
pub mod Moves
pub mod Permitted
use educates_training_platfo.Prelude.{
  ℕ, ◌+◌, ◌-◌, ◌*◌, String, Bool, false, not, ◌&&◌, ◌||◌, Option, none, some, List, [], ◌∷◌, ◌==◌,
  if◌then◌else◌, given, is, is_some, str_eq, default,
}
use educates_training_platfo.Portal.Models.{
  Environment, Session, TrainingPortal, same_name, is_stopped, is_allocated, mark_as_running,
  mark_as_stopping,
}
use educates_training_platfo.Portal.Expiry.{is_running_session, extend_time_remaining}
use educates_training_platfo.Portal.Sessions.{first, change_sessions}

-- Who asks: `username` is `none` for a request that is not logged in.
pub record Requester : Type 0 where
  pub username : Option String
  pub is_staff : Bool
  pub is_robot : Bool

pub data Destination : Type 0 where
  index_page : String → Destination
  portal_index : String → Destination
  catalog session_page : Destination

-- A redirect carries the notification, if there is one.
pub data Answer : Type 0 where
  served : Answer
  redirected : Destination → Option String → Answer
  refused : ℕ → Answer

-- `session.owner == user`
abbrev pub owned_by : Option String → Session → Bool
owned_by none s = false
owned_by (some name) s = is s.owner name

abbrev pub live : List ℕ → Session → Bool
live name s = same_name s.name name && not (is_stopped s)

-- `allocated_session(name)` and `allocated_session(name, user)`
unfoldable pub allocated_session : List ℕ → TrainingPortal → Option Session
allocated_session name p = first (live name) p.sessions

if_owned : Option String → Option Session → Option Session
if_owned user none = none
if_owned user (some s) = if owned_by user s then some s else none

unfoldable pub allocated_session_of : Option String → List ℕ → TrainingPortal → Option Session
unfolding if_owned
allocated_session_of user name p = if_owned user (allocated_session name p)

unfoldable pub stopped_session : Option String → List ℕ → TrainingPortal → Option Session
unfolding if_owned
stopped_session user name p =
    if_owned user (first (λ s. same_name s.name name && is_stopped s) p.sessions)

-- The page that a session which has stopped sends its user to.
index_of : Option Session → Option String
index_of none = none
index_of (some s) = if given s.index_url then s.index_url else none

unfoldable pub gone : Option String → List ℕ → TrainingPortal → Option String
unfolding index_of
gone user name p = index_of (stopped_session user name p)

unfoldable pub leave : Option String → Bool → String → Answer
leave index staff notification =
    if not staff && given index
    then redirected (portal_index (default "" index)) (some notification)
    else redirected catalog (some notification)

-- The environment of a session, which the foreign key finds.
unfoldable pub find_environment : String → List Environment → Option Environment
find_environment name [] = none
find_environment name (e ∷ es) = if str_eq e.name name then some e else find_environment name es

unfoldable pub run_in : ℕ → Option Environment → Session → Session
run_in now none s = s
run_in now (some e) s = mark_as_running now e none s

unfoldable pub running : ℕ → TrainingPortal → Session → Session
unfolding run_in
running now p s = run_in now (find_environment s.environment p.environments) s

-- The view `session`.
unfoldable pub session_view : Option String → Requester → List ℕ → TrainingPortal → Answer
session_view index r name p = elim (gone r.username name p) [
  | some url ↦ redirected (index_page url) (some "session-deleted")
  | none ↦
      if is_some (allocated_session_of r.username name p)
      then served
      else leave index r.is_staff "session-invalid"
]

-- The session that `session_activate` has found, with the token that is not empty. `active` says
-- whether a user is active.
activate_found :
    ℕ
    → (String → Bool)
    → String
    → List ℕ
    → TrainingPortal
    → Option Session
    → Answer × TrainingPortal
activate_found now active token name p none = (refused 400, p)
activate_found now active token name p (some s) =
    if not (is s.token token)
    then (refused 400, p)
    else if not (is_some s.owner)
    then (refused 500, p)
    else if not (active (default "" s.owner))
    then (refused 500, p)
    else if is_running_session s
    then (redirected session_page none, p)
    else (redirected session_page none, change_sessions (live name) (running now p) p)

unfoldable pub session_activate :
    ℕ
    → (String → Bool)
    → Option String
    → Requester
    → List ℕ
    → TrainingPortal
    → Answer × TrainingPortal
unfolding activate_found
session_activate now active token r name p =
    if not (given token) then (refused 400, p) else elim (gone r.username name p) [
      | some url ↦ (redirected (index_page url) (some "session-deleted"), p)
      | none ↦ activate_found now active (default "" token) name p (allocated_session name p)
    ]

-- Staff, robots and the owner.
unfoldable pub permitted : Requester → Session → Bool
permitted r s = r.is_staff || (r.is_robot || owned_by r.username s)

stop_live : ℕ → List ℕ → TrainingPortal → TrainingPortal
stop_live now name p = change_sessions (live name) (mark_as_stopping now) p

terminate_found : ℕ → Requester → List ℕ → TrainingPortal → Option Session → Answer × TrainingPortal
unfolding stop_live
terminate_found now r name p none = (refused 404, p)
terminate_found now r name p (some s) =
    if not (is_allocated s)
    then (refused 400, p)
    else if not (permitted r s)
    then (refused 403, p)
    else (served, stop_live now name p)

unfoldable pub session_terminate : ℕ → Requester → List ℕ → TrainingPortal → Answer × TrainingPortal
unfolding terminate_found
session_terminate now r name p = terminate_found now r name p (allocated_session name p)

delete_found :
    ℕ
    → Option String
    → Requester
    → List ℕ
    → Option String
    → TrainingPortal
    → Option Session
    → Answer × TrainingPortal
unfolding stop_live
delete_found now index r name notification p none = (leave index r.is_staff "session-invalid", p)
delete_found now index r name notification p (some s) =
    let text = if given notification then default "" notification else "session-deleted" in
    (
      if given s.index_url
          then redirected (index_page (default "" s.index_url)) (some text)
          else leave index r.is_staff text,
      stop_live now name p,
    )

unfoldable pub session_delete :
    ℕ
    → Option String
    → Requester
    → List ℕ
    → Option String
    → TrainingPortal
    → Answer × TrainingPortal
unfolding delete_found
session_delete now index r name notification p = elim (gone r.username name p) [
  | some url ↦ (redirected (index_page url) (some "session-deleted"), p)
  | none ↦ delete_found now index r name notification p (allocated_session_of r.username name p)
]

authorize_found : Requester → Option Session → Answer
authorize_found r none = refused 404
authorize_found r (some s) =
    if not (is_allocated s)
    then refused 400
    else if not (permitted r s)
    then refused 403
    else served

unfoldable pub session_authorize : Requester → List ℕ → TrainingPortal → Answer
unfolding authorize_found
session_authorize r name p = authorize_found r (allocated_session name p)

-- `session_config`, which does not ask whether the session is in use.
config_found : Requester → Option Session → Answer
config_found r none = refused 404
config_found r (some s) = if not (permitted r s) then refused 403 else served

unfoldable pub session_config : Requester → List ℕ → TrainingPortal → Answer
unfolding config_found
session_config r name p = config_found r (allocated_session name p)

-- `event` is the name of the event in the body of the request, if that is JSON.
event_found : Requester → Option String → Option Session → Answer
event_found r event none = refused 404
event_found r event (some s) =
    if not (is_some s.owner)
    then refused 400
    else if not (permitted r s)
    then refused 403
    else if not (given event)
    then refused 400
    else served

unfoldable pub session_event : Requester → List ℕ → Option String → TrainingPortal → Answer
unfolding event_found
session_event r name event p = event_found r event (allocated_session name p)

extension_in : ℕ → Option Environment → Session → Option (Bool × Session)
extension_in now none s = none
extension_in now (some e) s = extend_time_remaining now e s

-- An extension that cannot be computed raises.
unfoldable pub extension : ℕ → TrainingPortal → Session → Option (Bool × Session)
unfolding extension_in
extension now p s = extension_in now (find_environment s.environment p.environments) s

extended_row : Option (Bool × Session) → Session → Session
extended_row none s = s
extended_row (some (b, t)) s = t

unfoldable pub extend_session : ℕ → TrainingPortal → Session → Session
unfolding extended_row
extend_session now p s = extended_row (extension now p s) s

extend_found : ℕ → Requester → List ℕ → TrainingPortal → Option Session → Answer × TrainingPortal
extend_found now r name p none = (refused 404, p)
extend_found now r name p (some s) =
    if not (is_allocated s)
    then (refused 400, p)
    else if not (permitted r s)
    then (refused 403, p)
    else (
      if is_some (extension now p s) then served else refused 500,
      change_sessions (live name) (extend_session now p) p,
    )

unfoldable pub session_extend : ℕ → Requester → List ℕ → TrainingPortal → Answer × TrainingPortal
unfolding extend_found
session_extend now r name p = extend_found now r name p (allocated_session name p)

-- The views that may change a row.
pub data View : Type 0 where
  activate : Option String → View
  terminate extend : View
  delete : Option String → View

unfoldable pub handle :
    ℕ
    → (String → Bool)
    → Option String
    → Requester
    → List ℕ
    → View
    → TrainingPortal
    → Answer × TrainingPortal
handle now active index r name (activate token) p = session_activate now active token r name p
handle now active index r name terminate p = session_terminate now r name p
handle now active index r name extend p = session_extend now r name p
handle now active index r name (delete notification) p =
    session_delete now index r name notification p
