-- ===== src/Lookup/Caches/Portals.antt =====
-- lookup-service/service/caches/portals.py: the cached state of a training portal.
use educates_training_platfo.Prelude.{
  ℕ, String, Bool, ◌&&◌, Option, none, some, List, [], ◌∷◌, is, if◌then◌else◌, keep, any, sum_by,
}
use educates_training_platfo.Dict.{Dict, get, put, pop, values}
use educates_training_platfo.Lookup.Caches.Sessions.{Label, WorkshopSession}
use educates_training_platfo.Lookup.Caches.Environments
use educates_training_platfo.Lookup.Caches.Environments.{WorkshopEnvironment}

pub record PortalCredentials : Type 0 where
  pub client_id : Option String
  pub client_secret : Option String
  pub username : Option String
  pub password : Option String

pub record TrainingPortal : Type 0 where
  pub name : String
  pub uid : Option String
  pub generation : Option ℕ
  pub labels : List Label
  pub url : Option String
  pub credentials : PortalCredentials
  pub phase : Option String
  pub capacity : ℕ
  pub allocated : ℕ
  pub environments : Dict WorkshopEnvironment

unfoldable pub get_environments : TrainingPortal → List WorkshopEnvironment
get_environments p = values p.environments

unfoldable pub get_running_environments : TrainingPortal → List WorkshopEnvironment
get_running_environments p = keep (λ e. is e.phase "Running") (values p.environments)

unfoldable pub get_environment : TrainingPortal → String → Option WorkshopEnvironment
get_environment p environment_name = get p.environments environment_name

unfoldable pub add_environment : TrainingPortal → WorkshopEnvironment → TrainingPortal
add_environment p e = record p { environments = put p.environments e.name e }

unfoldable pub remove_environment : TrainingPortal → String → TrainingPortal
remove_environment p environment_name = record p {
  environments = pop p.environments environment_name;
}

unfoldable pub hosts_workshop : TrainingPortal → String → Bool
hosts_workshop p workshop_name = any (λ e. is e.workshop workshop_name) (values p.environments)

-- Each environment of the dict is updated where it stands.
unfoldable pub recalculate_each : Dict WorkshopEnvironment → Dict WorkshopEnvironment
recalculate_each [] = []
recalculate_each ((j, e) ∷ d) = (j, Environments.recalculate_capacity e) ∷ recalculate_each d

unfoldable pub recalculate_capacity : TrainingPortal → TrainingPortal
recalculate_capacity p =
    let environments = recalculate_each p.environments in
    record p {
      environments = environments;
      allocated = sum_by (λ (e : WorkshopEnvironment). e.allocated) (values environments);
    }

-- The inner loop over one environment's sessions, which all belong to the same workshop.
unfoldable pub session_of :
    String → String → Option String → List WorkshopSession → Option WorkshopSession
session_of user_id workshop_name workshop [] = none
session_of user_id workshop_name workshop (s ∷ ss) =
    if is s.user user_id && is workshop workshop_name
    then some s
    else session_of user_id workshop_name workshop ss

-- The outer loop. The session comes with the environment that it points back to.
unfoldable pub find_in :
    String → String → List WorkshopEnvironment → Option (WorkshopEnvironment × WorkshopSession)
find_in user_id workshop_name [] = none
find_in user_id workshop_name (e ∷ es) =
    elim (session_of user_id workshop_name e.workshop (Environments.get_sessions e)) [
      | none ↦ find_in user_id workshop_name es
      | some s ↦ some (e, s)
    ]

unfoldable pub find_existing_workshop_session_for_user :
    TrainingPortal → String → String → Option (WorkshopEnvironment × WorkshopSession)
find_existing_workshop_session_for_user p user_id workshop_name =
    find_in user_id workshop_name (values p.environments)
