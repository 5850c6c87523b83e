-- ===== src/Manager/Allocation/Objects.antt =====
-- The variables of a session and the object that is made of a request object: workshopallocation.py.
use educates_training_platfo.Prelude.{
  ℕ, ◌+◌, String, Bool, true, false, not, ◌&&◌, Option, none, some, List, [], ◌∷◌, map,
  if◌then◌else◌, default, given, is, is_some, leb, ◌==◌,
}
use educates_training_platfo.Dict.{Dict, put}
use educates_training_platfo.Glob.{codes}
use educates_training_platfo.Manager.Variables.{substitute_text, substitute_variables}
use educates_training_platfo.Manager.Allocation.State.{Metadata, RequestObject, Allocation}

-- The values of a secret, decoded into the variables so far.
unfoldable pub decoded : (String → Option String) → Dict String → Dict String → Option (Dict String)
decoded b64decode variables [] = some variables
decoded b64decode variables ((k, v) ∷ d) = elim (b64decode v) [
  | none ↦ none
  | some t ↦ decoded b64decode (put variables k t) d
]

abbrev pub and_then {ℓ κ} : {A : Type ℓ} {B : Type κ} → Option A → (A → Option B) → Option B
and_then none f = none
and_then (some a) f = f a

-- Those of the request, then of the user, then of the session: the last one stands.
unfoldable pub all_data_variables :
    (String → Option String) → Dict String → Dict String → Dict String → Option (Dict String)
all_data_variables b64decode request user session =
    and_then (decoded b64decode [] request)
      λ a. and_then (decoded b64decode a user) λ b. decoded b64decode b session

abbrev map_option : (String → String) → Option String → Option String
map_option f none = none
map_option f (some s) = some (f s)

-- A label's value is a text before it is set here.
abbrev map_labels : (String → String) → Dict (Option String) → Dict (Option String)
map_labels f [] = []
map_labels f ((k, v) ∷ d) = (k, map_option f v) ∷ map_labels f d

abbrev map_values : (String → String) → Dict String → Dict String
map_values f [] = []
map_values f ((k, v) ∷ d) = (k, f v) ∷ map_values f d

abbrev within {ℓ κ} : {A : Type ℓ} {B : Type κ} → (A → B) → Option A → Option B
within f none = none
within f (some a) = some (f a)

unfoldable pub substitute_metadata : (String → String) → Metadata → Metadata
substitute_metadata f m = record {
  name = map_option f m.name;
  namespace = map_option f m.namespace;
  labels = within (map_labels f) m.labels;
  annotations = within (map_values f) m.annotations;
}

unfoldable pub substitute_object : (String → String) → Dict String → RequestObject → RequestObject
substitute_object b64encode variables o =
    let f = substitute_text b64encode variables in
    record {
      api_version = map_option f o.api_version;
      kind = map_option f o.kind;
      metadata = within (substitute_metadata f) o.metadata;
      rest = substitute_variables b64encode variables o.rest;
    }

unfoldable pub put_all : List (String × Option String) → Dict (Option String) → Dict (Option String)
put_all [] d = d
put_all ((k, v) ∷ kvs) d = put_all kvs (put d k v)

abbrev pub session_labels : Allocation → Option String → List (String × Option String)
session_labels a workshop_name =
    ("training.educates.dev/component", some "request")
    ∷ ("training.educates.dev/component.group", some "objects")
    ∷ ("training.educates.dev/workshop.name", workshop_name)
    ∷ ("training.educates.dev/portal.name", some a.portal_name)
    ∷ ("training.educates.dev/portal.uid", some a.portal_uid)
    ∷ ("training.educates.dev/environment.name", some a.environment_name)
    ∷ ("training.educates.dev/environment.uid", some a.environment_uid)
    ∷ ("training.educates.dev/session.name", some a.session_name)
    ∷ ("training.educates.dev/session.objects", some "true")
    ∷ []

unfoldable pub labelled : Allocation → Option String → Metadata → Metadata
labelled a workshop_name m = record m {
  namespace = if not (given m.namespace) then some a.session_name else m.namespace;
  labels = some (put_all (session_labels a workshop_name) (default [] m.labels));
}

abbrev to_lower : ℕ → ℕ
to_lower c = if leb b'A' c && leb c b'Z' then c + 32 else c

abbrev same_codes : List ℕ → List ℕ → Bool
same_codes [] [] = true
same_codes (a ∷ as') (b ∷ bs) = a == b && same_codes as' bs
same_codes _ _ = false

-- `object_type.lower() == "namespace"`; only the letters of ASCII become those.
unfoldable pub is_namespace : RequestObject → Bool
is_namespace o =
    is o.api_version "v1"
    && same_codes (map to_lower (codes (default "" o.kind))) (codes "namespace")

unfoldable pub excluded : Metadata → Metadata
excluded m = record m {
  annotations =
      some
        (put (default [] m.annotations) "secretgen.carvel.dev/excluded-from-wildcard-matching" "");
}

-- What the handler reads of an object before it is created; without one of them it raises.
abbrev pub is_complete : RequestObject → Metadata → Bool
is_complete o m = is_some m.name && is_some m.namespace && is_some o.kind && is_some o.api_version

unfoldable pub finished : RequestObject → Metadata → Option RequestObject
finished o m =
    if not (is_complete o m)
    then none
    else some (record o { metadata = some (if is_namespace o then excluded m else m) })
