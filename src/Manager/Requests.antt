-- ===== src/Manager/Requests.antt =====
-- workshoprequest.py of the session manager: sessions that are asked for by a custom resource. The
-- Kubernetes API is a store of sessions: a name that is taken is a conflict (status 409), and
-- `refuses` says which creations it answers with another error. The random identifiers are a list
-- of draws. How a session is deployed is left out.
pub mod Deleted
pub mod Refused
use Prim.Native.String.{◌++◌ as str_append}
use educates_training_platfo.Prelude.{
  ◌+◌, String, Bool, false, not, ◌&&◌, ◌||◌, Option, none, some, List, [], ◌∷◌, if◌then◌else◌,
  default, given, is_empty, contains, str_eq, opt_eq,
}
use educates_training_platfo.Dict.{Dict, get, put, pop}
use educates_training_platfo.Manager.Variables.{occurs_in}

-- `spec.request` of an environment.
pub record RequestPolicy : Type 0 where
  pub enabled : Bool
  pub namespaces : List String
  pub token : Option String

-- The policy is `none` where `spec.request` is missing or empty.
pub record RequestEnvironment : Type 0 where
  pub name : String
  pub policy : Option RequestPolicy
  pub username : Option String
  pub password : Option String

-- The custom resource.
pub record RequestResource : Type 0 where
  pub name : String
  pub uid : String
  pub namespace : String
  pub token : Option String

-- `spec.request` of a session.
pub record RequestDetails : Type 0 where
  pub namespace : String
  pub name : String
  pub uid : String

pub record SessionInstance : Type 0 where
  pub uid : String
  pub request : Option RequestDetails

-- What goes into the status of the request.
pub record SessionDetails : Type 0 where
  pub name : String
  pub uid : String
  pub username : String
  pub password : String

pub data RequestResult : Type 0 where
  -- The phase is "Pending", and the handler is run again.
  waiting : RequestResult
  -- The phase is "Failed".
  given_up : RequestResult
  serving : SessionDetails → RequestResult
  -- Another exception.
  broken : RequestResult

abbrev pub Sessions : Type 0
Sessions = Dict SessionInstance

-- `list(map(substitute_variables, namespaces, environment_variables))`: `map` ends with the shorter
-- of its lists, and the dictionary has one key. That key, a text, is taken for the variables, which
-- raises where the namespace has a "$(".
unfoldable pub permitted_namespaces : List String → Option (List String)
permitted_namespaces [] = some []
permitted_namespaces (n ∷ ns) = if occurs_in "$(" n then none else some (n ∷ [])

-- `none` lets the request pass.
unfoldable pub policy_refuses :
    RequestResource → RequestPolicy → Option (List String) → Option RequestResult
policy_refuses r policy none = if not policy.enabled then some waiting else some broken
policy_refuses r policy (some namespaces) =
    if not policy.enabled
    then some waiting
    else if not (is_empty namespaces) && not (contains r.namespace namespaces)
    then some waiting
    else if given policy.token && not (opt_eq r.token policy.token)
    then some waiting
    else none

unfoldable pub refused_by : RequestResource → Option RequestPolicy → Option RequestResult
refused_by r none = none
refused_by r (some policy) = policy_refuses r policy (permitted_namespaces policy.namespaces)

unfoldable pub details_of : RequestResource → RequestDetails
details_of r = record { namespace = r.namespace; name = r.name; uid = r.uid }

abbrev pub session_name_from : RequestEnvironment → String → String
session_name_from e id = str_append e.name (str_append "-" id)

-- `new_uid` gives the identity that the API assigns.
unfoldable pub created_instance : (String → String) → RequestResource → String → SessionInstance
created_instance new_uid r name = record { uid = new_uid name; request = some (details_of r) }

unfoldable pub session_details :
    (String → String) → String → RequestEnvironment → String → SessionDetails
session_details new_uid generated e name = record {
  name = name;
  uid = new_uid name;
  username = default "educates" e.username;
  password = default generated e.password;
}

module _ (refuses : String → Bool) (new_uid : String → String) (generated : String) where
  -- One turn for each draw. After the last one there is no further turn.
  unfoldable pub try_names :
      RequestEnvironment → RequestResource → List String → Sessions → RequestResult × Sessions
  try_names e r [] sessions = (given_up, sessions)
  try_names e r (id ∷ ids) sessions =
      let name = session_name_from e id in
      elim (get sessions name) [
        | some taken ↦ try_names e r ids sessions
        | none ↦ if refuses name then (given_up, sessions) else (
          serving (session_details new_uid generated e name),
          put sessions name (created_instance new_uid r name),
        )
      ]

  -- `ids` are the 20 draws of an identifier.
  unfoldable pub workshop_request_create :
      Option RequestEnvironment
      → RequestResource
      → List String
      → Sessions
      → RequestResult × Sessions
  workshop_request_create none r ids sessions = (waiting, sessions)
  workshop_request_create (some e) r ids sessions = elim (refused_by r e.policy) [
    | some refusal ↦ (refusal, sessions)
    | none ↦ try_names e r ids sessions
  ]

unfoldable pub is_of_request : RequestResource → Option RequestDetails → Bool
is_of_request r none = false
is_of_request r (some d) =
    str_eq d.namespace r.namespace && str_eq d.name r.name && str_eq d.uid r.uid

-- `status` is the name of the session of the request's status.
unfoldable pub workshop_request_delete : RequestResource → Option String → Sessions → Sessions
workshop_request_delete r none sessions = sessions
workshop_request_delete r (some name) sessions = elim (get sessions name) [
  | none ↦ sessions
  | some s ↦ if is_of_request r s.request then pop sessions name else sessions
]
