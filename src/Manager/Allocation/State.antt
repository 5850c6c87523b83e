-- ===== src/Manager/Allocation/State.antt =====
-- What workshop_allocation_create of workshopallocation.py reads, and what comes of it.
use Prim.Native.String.{◌++◌ as str_append}
use educates_training_platfo.Prelude.{ℕ, String, Bool, Option, List, [], ◌∷◌}
use educates_training_platfo.Dict.{Dict}
use educates_training_platfo.Manager.Variables.{Json}

-- The metadata of an object that is to be made; a label may be given no value.
pub record Metadata : Type 0 where
  pub name : Option String
  pub namespace : Option String
  pub labels : Option (Dict (Option String))
  pub annotations : Option (Dict String)

-- A request object, where a missing property is `none`.
pub record RequestObject : Type 0 where
  pub api_version : Option String
  pub kind : Option String
  pub metadata : Option Metadata
  pub rest : Json

-- `status.educates.workshop` of an environment: the name, and the request objects of its
-- specification, if that is there.
pub record EnvironmentInstance : Type 0 where
  pub workshop_name : Option String
  pub objects : Option (List RequestObject)

pub record Allocation : Type 0 where
  pub name : String
  pub portal_name : String
  pub portal_uid : String
  pub environment_name : String
  pub environment_uid : String
  pub session_name : String

pub data Phase : Type 0 where
  pending allocated : Phase
  failed : String → Phase

pub data Outcome : Type 0 where
  done : Outcome
  permanent_error : String → Outcome
  -- With the seconds to wait.
  temporary_error : String → ℕ → Outcome
  raised : Outcome

-- The operator's indexes: by name, and by namespace and name.
pub record Indexes : Type 0 where
  pub environment : String → Option EnvironmentInstance
  pub session : String → Bool
  pub session_variables : String → String → Option (Dict String)
  pub request_variables : String → String → Option (Dict String)

-- The status is `none` where the run did not set it.
pub record AllocationResult : Type 0 where
  pub status : Option Phase
  pub outcome : Outcome
  pub created : List RequestObject

abbrev pub concat : List String → String
concat [] = ""
concat (s ∷ ss) = str_append s (concat ss)
