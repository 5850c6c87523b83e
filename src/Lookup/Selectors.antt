-- ===== src/Lookup/Selectors.antt =====
-- lookup-service/service/helpers/selectors.py
-- The only resources that are matched are those that tenants.py makes up, with a name and labels.
-- `values` of a requirement may be `None`, and then `in` and `not in` raise a `TypeError`: a match
-- that raises is `none`.
pub mod Meaning
use educates_training_platfo.Prelude.{
  String, Bool, true, false, not, Option, none, some, List, [], ◌∷◌, default, is, is_some,
  if◌then◌else◌, contains, str_eq,
}
use educates_training_platfo.Dict.{Dict, get}
use educates_training_platfo.Glob.{fnmatch}

pub record Resource : Type 0 where
  pub name : String
  pub labels : Dict String

pub record NameSelector : Type 0 where
  pub match_names : List String

pub data Operator : Type 0 where
  in_values not_in_values exists does_not_exist : Operator

pub record LabelSelectorRequirement : Type 0 where
  pub key : String
  pub operator : Operator
  pub values : Option (List String)

pub record LabelSelector : Type 0 where
  pub match_labels : Dict String
  pub match_expressions : List LabelSelectorRequirement

-- `value in xs`, where the value may be `None` and the entries are texts.
abbrev pub value_in : Option String → List String → Bool
value_in none xs = false
value_in (some v) xs = contains v xs

-- The `for` loop over the patterns.
unfoldable pub match_any : String → List String → Bool
match_any name [] = false
match_any name (pattern ∷ patterns) = if fnmatch name pattern then true else match_any name patterns

unfoldable pub match_name : NameSelector → Resource → Bool
unfolding match_any
match_name sel r = name_case sel.match_names r.name
  where
    name_case : List String → String → Bool
    name_case [] name = true
    name_case (p ∷ ps) name = match_any name (p ∷ ps)

unfoldable pub match_operator : Operator → Option (List String) → Option String → Option Bool
match_operator in_values none value = none
match_operator in_values (some values) value = some (value_in value values)
match_operator not_in_values none value = none
match_operator not_in_values (some values) value = some (not (value_in value values))
match_operator exists values value = some (is_some value)
match_operator does_not_exist values value = some (not (is_some value))

unfoldable pub match_requirement : LabelSelectorRequirement → Resource → Option Bool
match_requirement req r = match_operator req.operator req.values (get r.labels req.key)

-- `all(labels.get(key) == value for …)`
unfoldable pub match_all_labels : Dict String → Resource → Bool
match_all_labels [] r = true
match_all_labels ((key, value) ∷ rest) r =
    if is (get r.labels key) value then match_all_labels rest r else false

-- `all(…)` over the requirements, which stops at the first that fails or raises.
unfoldable pub match_all_requirements : List LabelSelectorRequirement → Resource → Option Bool
match_all_requirements [] r = some true
match_all_requirements (req ∷ reqs) r = elim (match_requirement req r) [
  | none ↦ none
  | some false ↦ some false
  | some true ↦ match_all_requirements reqs r
]

unfoldable pub match_labels : LabelSelector → Resource → Option Bool
match_labels sel r =
    if match_all_labels sel.match_labels r
    then match_all_requirements sel.match_expressions r
    else some false

pub record ResourceSelector : Type 0 where
  pub name_selector : NameSelector
  pub label_selector : LabelSelector

unfoldable pub match_resource : ResourceSelector → Resource → Option Bool
match_resource sel r =
    if match_name sel.name_selector r then match_labels sel.label_selector r else some false

-- The dictionaries of a tenant's configuration, as they are read. A field may be missing.
pub record RequirementDict : Type 0 where
  pub key : String
  pub operator : String
  pub values : Option (List String)

pub record LabelSelectorDict : Type 0 where
  pub match_labels : Option (Dict String)
  pub match_expressions : Option (List RequirementDict)

pub record SelectorDict : Type 0 where
  pub match_names : Option (List String)
  pub label_selector : Option LabelSelectorDict

-- `Operator(text)`, which raises a `ValueError` on any other text.
unfoldable pub operator_of : String → Option Operator
operator_of text =
    if str_eq text "In"
    then some in_values
    else if str_eq text "NotIn"
    then some not_in_values
    else if str_eq text "Exists"
    then some exists
    else if str_eq text "DoesNotExist"
    then some does_not_exist
    else none

unfoldable pub requirement_of : RequirementDict → Option LabelSelectorRequirement
requirement_of d = elim (operator_of d.operator) [
  | none ↦ none
  | some op ↦ some (record { key = d.key; operator = op; values = d.values })
]

unfoldable pub requirements_of : List RequirementDict → Option (List LabelSelectorRequirement)
requirements_of [] = some []
requirements_of (d ∷ ds) = elim (requirement_of d) [
  | none ↦ none
  | some req ↦ elim (requirements_of ds) [ none ↦ none | some reqs ↦ some (req ∷ reqs) ]
]

unfoldable pub convert_to_name_selector : SelectorDict → NameSelector
convert_to_name_selector d = record { match_names = default [] d.match_names }

unfoldable pub convert_to_label_selector : Option LabelSelectorDict → Option LabelSelector
convert_to_label_selector none = some (record { match_labels = []; match_expressions = [] })
convert_to_label_selector (some d) = elim (requirements_of (default [] d.match_expressions)) [
  | none ↦ none
  | some reqs ↦ some (record { match_labels = default [] d.match_labels; match_expressions = reqs })
]

unfoldable pub resource_selector : SelectorDict → Option ResourceSelector
resource_selector d = elim (convert_to_label_selector d.label_selector) [
  | none ↦ none
  | some labels ↦
      some (record { name_selector = convert_to_name_selector d; label_selector = labels })
]
