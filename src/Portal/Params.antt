-- ===== src/Portal/Params.antt =====
-- `resolve_request_params` of manager/sessions.py of the training portal. Random texts come from
-- `xeger`, a parameter (rstr).
pub mod Declared
use educates_training_platfo.Prelude.{
  ◌+◌, ◌-◌, String, ◌&&◌, Option, none, some, List, [], ◌∷◌, ◌++◌, ◌==◌, truthy, if◌then◌else◌, is,
  is_some, default,
}
use educates_training_platfo.Dict.{Dict, get, put}
use educates_training_platfo.Portal.Models.{WorkshopParam}

unfoldable pub default_value : (String → String) → WorkshopParam → String
default_value xeger param = elim param.value [
  | some value ↦ value
  | none ↦ if is param.generate "expression" then xeger (default "" param.pattern) else ""
]

unfoldable pub default_params : (String → String) → Dict String → List WorkshopParam → Dict String
default_params xeger d [] = d
default_params xeger d (item ∷ items) =
    let name = default "" item.name in
    default_params xeger (if truthy name then put d name (default_value xeger item) else d) items

-- The items of a request, each a name and a value, either of which may be missing.
unfoldable pub supplied : Dict String → List (Option String × Option String) → Dict String
supplied d [] = d
supplied d ((name', value') ∷ items) =
    let name = default "" name' in
    let known = truthy name && is_some (get d name) in
    supplied (if known then put d name (default "" value') else d) items

unfoldable pub resolve_request_params :
    (String → String) → List WorkshopParam → List (Option String × Option String) → Dict String
resolve_request_params xeger declared params = supplied (default_params xeger [] declared) params
