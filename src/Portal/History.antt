-- ===== src/Portal/History.antt =====
-- Everything that changes the sessions or the environments of a training portal, in any order: the requests
-- of users, the views, and the tasks. Each step is one hold of the global lock, or one view. An
-- exception undoes its step.
pub mod Lighter
pub mod Environments
pub mod Within
use educates_training_platfo.Prelude.{ℕ, String, Bool, Option, List, [], ◌∷◌, default}
use educates_training_platfo.Portal.Models.{WorkshopParam, Environment, Session, TrainingPortal}
use educates_training_platfo.Portal.Reserved.{initiate_reserved_sessions, replace_reserved_session}
use educates_training_platfo.Portal.Sessions.{Request, retrieve_session_for_user}
use educates_training_platfo.Portal.Termination.{terminate_reserved_sessions}
use educates_training_platfo.Portal.Environments.{
  Workshop, activate_workshop_environment, shutdown_workshop_environments,
  refresh_workshop_environments, delete_workshop_environments, update_workshop_environments,
  process_workshop_environment,
}
use educates_training_platfo.Portal.Updates.{Definition, workshop_event}
use educates_training_platfo.Portal.Lifecycle.{Requester, View, handle}
use educates_training_platfo.Portal.Cleanup.{
  create_workshop_session, delete_workshop_session, cleanup_old_sessions,
}

-- The environment of a step is the row that it holds.
pub data Operation : Type 0 where
  retrieve : Environment → Option (List ℕ) → Request → Operation
  view : Requester → List ℕ → View → Operation
  deploy : List ℕ → Operation
  delete_session : Session → Environment → Operation
  replace_reserved : Environment → Operation
  initiate_reserved terminate_reserved cleanup : Operation
  activate_environment : String → Bool → List WorkshopParam → Operation
  shutdown update_environments : List Workshop → Operation
  refresh delete_environments : Operation
  process : String → Workshop → ℕ → Operation
  change_workshop : (Environment → Option (String × ℕ)) → Definition → Bool → Operation

module _ (xeger : String → String) (active : String → Bool) (index : Option String) where
  unfoldable pub perform : ℕ → Operation → TrainingPortal → TrainingPortal
  perform now (retrieve e session_name r) p =
      (retrieve_session_for_user xeger now e session_name r p).1
  perform now (view r name v) p = (handle now active index r name v p).1
  perform now (deploy name) p = create_workshop_session now name p
  perform now (delete_session s e) p = delete_workshop_session now s e p
  perform now (replace_reserved e) p = replace_reserved_session now e p
  perform now initiate_reserved p = initiate_reserved_sessions now p
  perform now terminate_reserved p = terminate_reserved_sessions now p
  perform now cleanup p = cleanup_old_sessions now p
  perform now (activate_environment name same_uid params) p =
      activate_workshop_environment now name same_uid params p
  perform now (shutdown workshops) p = shutdown_workshop_environments now workshops p
  perform now refresh p = (refresh_workshop_environments now p).1
  perform now delete_environments p = delete_workshop_environments p
  perform now (update_environments workshops) p =
      default p (update_workshop_environments workshops p)
  perform now (process name w position) p =
      default p (process_workshop_environment now name w position p)
  perform now (change_workshop linked d update_workshop) p =
      (workshop_event now linked d update_workshop p).1

  -- Each operation with its time.
  unfoldable pub perform_all : List (ℕ × Operation) → TrainingPortal → TrainingPortal
  perform_all [] p = p
  perform_all ((now, o) ∷ os) p = perform_all os (perform now o p)
