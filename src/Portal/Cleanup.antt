-- ===== src/Portal/Cleanup.antt =====
-- How the sessions of the training portal end: manager/cleanup.py, and what create_workshop_session of
-- manager/sessions.py does to the row of a session. The calls of the Kubernetes API are left out.
use educates_training_platfo.Prelude.{
  ℕ, ◌+◌, ◌*◌, Bool, true, false, not, ◌&&◌, ◌||◌, Option, none, some, List, ◌==◌, leb,
  if◌then◌else◌, given, is_some, keep,
}
use educates_training_platfo.Portal.Models.{
  SessionState, Environment, Session, TrainingPortal, second, same_name, is_stopped, is_stopping,
  is_allocated, is_pending, mark_as_waiting, mark_as_stopped,
}
use educates_training_platfo.Portal.Reserved.{replace_reserved_session}
use educates_training_platfo.Portal.Sessions.{change_sessions}
use educates_training_platfo.Portal.Lifecycle.{running}

-- What `create_workshop_session` leaves of the session when the resource has been made.
unfoldable pub deployed : ℕ → TrainingPortal → Session → Session
deployed now p s =
    if is_some s.owner && not (given s.token) then running now p s else mark_as_waiting s

abbrev pub is_starting : Session → Bool
is_starting s = elim s.state [ SessionState.starting ↦ true | _ ↦ false ]

-- The end of the task, where the row is still starting. The source saves the row as the task read it,
-- whatever became of the row since; a task that runs after its session was stopped is not covered.
unfoldable pub create_workshop_session : ℕ → List ℕ → TrainingPortal → TrainingPortal
create_workshop_session now name p =
    change_sessions (λ s. same_name s.name name && is_starting s) (deployed now p) p

-- The task holds the row as it was when it was scheduled, and saves all of it. The environment is
-- the one that goes with that row.
unfoldable pub delete_workshop_session : ℕ → Session → Environment → TrainingPortal → TrainingPortal
delete_workshop_session now s e p =
    replace_reserved_session now e
      (change_sessions (λ t. same_name t.name s.name) (λ _. mark_as_stopped now s) p)

-- 36 hours
abbrev pub history : ℕ
history = 129600 * second

-- `expires__lte=cutoff`
abbrev pub is_old : ℕ → Session → Bool
is_old now s = is_stopped s && elim s.expires [ none ↦ false | some t ↦ leb (t + history) now ]

-- The part of cleanup_old_sessions_and_users that deletes sessions.
unfoldable pub cleanup_old_sessions : ℕ → TrainingPortal → TrainingPortal
cleanup_old_sessions now p = record p { sessions = keep (λ s. not (is_old now s)) p.sessions }

-- What the cluster and the session itself reply to the purge. Times are microseconds.
pub data Resource : Type 0 where
  present absent unreadable : Resource

pub data Activity : Type 0 where
  idle_for : ℕ → ℕ → Activity
  no_reply : Activity

pub data Reason : Type 0 where
  vanished expired_session orphaned_session inactive : Reason

abbrev is_absent : Resource → Bool
is_absent r = elim r [ absent ↦ true | _ ↦ false ]

idle_reason : ℕ → Activity → Option Reason
idle_reason limit no_reply = none
idle_reason limit (idle_for idle view) =
    if leb limit idle
    then some orphaned_session
    else if leb (3 * limit) view
    then some inactive
    else none

has_expired : ℕ → Option ℕ → Bool
has_expired now none = false
has_expired now (some t) = leb t now

-- Why `purge_expired_workshop_sessions` schedules the deletion of a session, if it does.
unfoldable pub purge_reason : ℕ → Environment → Resource → Activity → Session → Option Reason
unfolding idle_reason has_expired
purge_reason now e resource activity s =
    if not (is_starting s) && not (is_stopped s) && is_absent resource
    then some vanished
    else if is_allocated s || is_stopping s
    then if has_expired now s.expires
      then some expired_session
      else if not (e.orphaned == 0) && not (is_pending s)
      then idle_reason e.orphaned activity
      else none
    else none
