-- ===== src/Manager/Allocation.antt =====
-- workshopallocation.py of the session manager: the request objects of a session that a user was given. The
-- indexes of the operator are what they hold for a name. A run that raises keeps what it created,
-- and the operator (kopf) runs the handler again, later, unless the error is a permanent one.
pub mod State
pub mod Waiting
pub mod Objects
pub mod Missing
pub mod Labels
pub mod Copies
pub mod Created
use Prim.Native.String.{◌++◌ as str_append}
use educates_training_platfo.Prelude.{
  ℕ, ◌+◌, ◌*◌, String, Bool, true, false, not, ◌&&◌, Option, none, some, List, [], ◌∷◌, ◌++◌,
  if◌then◌else◌, default, ◌==◌,
}
use educates_training_platfo.Dict.{Dict}
use educates_training_platfo.Manager.Allocation.State.{
  Metadata, RequestObject, EnvironmentInstance, Allocation, Indexes, AllocationResult, concat,
  allocated, failed, done, permanent_error, raised,
}
use educates_training_platfo.Manager.Allocation.Waiting.{
  session_secret, request_secret, user_secret, no_environment, no_session, no_session_secret,
  no_request_secret,
}
use educates_training_platfo.Manager.Allocation.Objects.{
  and_then, all_data_variables, substitute_object, labelled, finished,
}

-- `b64encode` and `b64decode` are Python's, `adopt` is kopf's, and `accepts` is the reply of the
-- Kubernetes API to the creation of an object after others of this run.
module _ (b64encode : String → String) (b64decode : String → Option String)
    (adopt : Metadata → Metadata) (accepts : List RequestObject → RequestObject → Bool) where
  unfoldable pub prepared :
      Allocation → Option String → Dict String → RequestObject → Option RequestObject
  prepared a workshop_name variables o =
      let o' = substitute_object b64encode variables o in
      elim o'.metadata [ none ↦ none | some m ↦ finished o' (adopt (labelled a workshop_name m)) ]

  unfoldable pub creation_failure : Allocation → RequestObject → String
  creation_failure a o = concat (
      "Unable to create workshop request objects for workshop session, failed on creating workshop request object "
      ∷ default "" (and_then o.metadata (λ (m : Metadata). m.name))
      ∷ " of type "
      ∷ default "" o.kind
      ∷ " in namespace "
      ∷ default "" (and_then o.metadata (λ (m : Metadata). m.namespace))
      ∷ " for workshop session "
      ∷ a.session_name
      ∷ "."
      ∷ [])

  unfoldable pub create_objects :
      Allocation
      → Option String
      → Dict String
      → List RequestObject
      → List RequestObject
      → AllocationResult
  create_objects a workshop_name variables made [] = record {
    status = some allocated;
    outcome = done;
    created = made;
  }
  create_objects a workshop_name variables made (o ∷ os) =
      elim (prepared a workshop_name variables o) [
        | none ↦ record { status = none; outcome = raised; created = made }
        | some q ↦ elim (accepts made q) [
          | true ↦ create_objects a workshop_name variables (made ++ q ∷ []) os
          | false ↦ record {
            status = some (failed (creation_failure a q));
            outcome = permanent_error (creation_failure a q);
            created = made;
          }
        ]
      ]

  unfoldable pub create_all :
      Allocation → EnvironmentInstance → Option (Dict String) → AllocationResult
  create_all a e none = record { status = none; outcome = raised; created = [] }
  create_all a e (some variables) = elim e.objects [
    | none ↦ record { status = none; outcome = raised; created = [] }
    | some objects ↦ create_objects a e.workshop_name variables [] objects
  ]

  unfoldable pub workshop_allocation_create : ℕ → Indexes → Allocation → AllocationResult
  workshop_allocation_create runtime x a =
      let namespace = a.environment_name in
      elim (x.environment a.environment_name) [
        | none ↦ no_environment runtime a
        | some e ↦
            if not (x.session a.session_name)
            then no_session runtime a
            else elim (x.session_variables namespace (session_secret a)) [
              | none ↦ no_session_secret runtime a
              | some session ↦ elim (x.request_variables namespace (request_secret a)) [
                | none ↦ no_request_secret runtime a (request_secret a)
                | some request ↦ elim (x.request_variables namespace (user_secret a)) [
                  | none ↦ no_request_secret runtime a (user_secret a)
                  | some user ↦ create_all a e (all_data_variables b64decode request user session)
                ]
              ]
            ]
      ]
