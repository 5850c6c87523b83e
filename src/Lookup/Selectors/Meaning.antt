-- ===== src/Lookup/Selectors/Meaning.antt =====
-- What the selectors of selectors.py select.
use educates_training_platfo.Prelude.{
  String, ◌≡◌, refl, ◌↔◌, ◌⊎◌, inl, inr, Bool, true, false, Option, none, some, List, [], ◌∷◌,
  arith, is, is_iff, Bool-cases, All, contains,
}
use educates_training_platfo.Dict.{Dict, get}
use educates_training_platfo.Glob.{fnmatch}
use educates_training_platfo.Lookup.Selectors.{
  Resource, NameSelector, Operator, in_values, not_in_values, exists, does_not_exist,
  LabelSelectorRequirement, ResourceSelector, match_any, match_name, match_operator,
  match_requirement, match_all_labels, match_all_requirements, match_labels, match_resource,
}

-- A pattern of the list fits the name.
abbrev pub Fits : String → List String → Type 0
Fits name [] = ⊥
Fits name (p ∷ ps) = (fnmatch name p ≡ true) ⊎ Fits name ps

abbrev pub NameSelected : List String → String → Type 0
NameSelected [] name = Unit
NameSelected (p ∷ ps) name = Fits name (p ∷ ps)

-- What a requirement asks of the label's value, which may be missing.
abbrev pub Requires : Operator → Option (List String) → Option String → Type 0
Requires in_values (some vs) (some v) = contains v vs ≡ true
Requires in_values none value = ⊥
Requires in_values (some vs) none = ⊥
Requires not_in_values none value = ⊥
Requires not_in_values (some vs) none = Unit
Requires not_in_values (some vs) (some v) = contains v vs ≡ false
Requires exists vs none = ⊥
Requires exists vs (some v) = Unit
Requires does_not_exist vs none = Unit
Requires does_not_exist vs (some v) = ⊥

abbrev pub Satisfies : Resource → LabelSelectorRequirement → Type 0
Satisfies r req = Requires req.operator req.values (get r.labels req.key)

abbrev pub Selected : ResourceSelector → Resource → Type 0
Selected sel r =
    NameSelected sel.name_selector.match_names r.name
    × All (λ e. get r.labels e.0 ≡ some e.1) sel.label_selector.match_labels
    × All (Satisfies r) sel.label_selector.match_expressions

match_any_iff : (name : String) (ps : List String) → (match_any name ps ≡ true) ↔ Fits name ps
unfolding match_any
match_any_iff name [] = ((λ h. ground arith), (λ h. elim h [ ]))
match_any_iff name (p ∷ ps) = elim (Bool-cases (fnmatch name p)) [
  | inl t ↦ ((λ _. inl t), (λ _. rw t))
  | inr f ↦ (
    (λ h. inr ((match_any_iff name ps).0 (rw f at h))),
    λ h. rw f (elim h [ inl t ↦ absurd (ground arith) | inr k ↦ (match_any_iff name ps).1 k ]),
  )
]

match_name_iff :
    (sel : NameSelector) (r : Resource)
    → (match_name sel r ≡ true) ↔ NameSelected sel.match_names r.name
unfolding match_name
match_name_iff sel r = go sel.match_names
  where
    go :
        (ps : List String)
        → (match_name (record { match_names = ps }) r ≡ true) ↔ NameSelected ps r.name
    go [] = ((λ _. tt), (λ _. refl))
    go (p ∷ ps) = match_any_iff r.name (p ∷ ps)

match_all_labels_iff :
    (d : Dict String) (r : Resource)
    → (match_all_labels d r ≡ true) ↔ All (λ e. get r.labels e.0 ≡ some e.1) d
unfolding match_all_labels
match_all_labels_iff [] r = ((λ _. tt), (λ _. refl))
match_all_labels_iff ((k, v) ∷ d) r = elim (Bool-cases (is (get r.labels k) v)) [
  | inl t ↦ (
    (λ h. ((is_iff _ v).0 t, (match_all_labels_iff d r).0 (rw t at h))),
    (λ h. rw t ((match_all_labels_iff d r).1 h.1)),
  )
  | inr f ↦ (
    (λ h. absurd (ground arith)),
    λ h. absurd (ground (arith, (is_iff (get r.labels k) v).1 h.0)),
  )
]

operator_iff :
    (op : Operator) (vs : Option (List String)) (value : Option String)
    → (match_operator op vs value ≡ some true) ↔ Requires op vs value
unfolding match_operator
operator_iff in_values none value = ((λ h. cc), (λ h. elim h [ ]))
operator_iff in_values (some vs) none = ((λ h. cc), (λ h. elim h [ ]))
operator_iff in_values (some vs) (some v) = ((λ h. ground arith), (λ h. ground arith))
operator_iff not_in_values none value = ((λ h. cc), (λ h. elim h [ ]))
operator_iff not_in_values (some vs) none = ((λ h. tt), (λ h. refl))
operator_iff not_in_values (some vs) (some v) = ((λ h. ground arith), (λ h. ground arith))
operator_iff exists vs none = ((λ h. cc), (λ h. elim h [ ]))
operator_iff exists vs (some v) = ((λ h. tt), (λ h. refl))
operator_iff does_not_exist vs none = ((λ h. tt), (λ h. refl))
operator_iff does_not_exist vs (some v) = ((λ h. cc), (λ h. elim h [ ]))

step_iff :
    (m rest : Option Bool)
    → (elim m [ none ↦ none | some false ↦ some false | some true ↦ rest ] ≡ some true)
      ↔ ((m ≡ some true) × (rest ≡ some true))
step_iff none rest = ((λ h. cc), (λ h. cc))
step_iff (some false) rest = ((λ h. cc), (λ h. cc))
step_iff (some true) rest = ((λ h. (refl, h)), (λ h. h.1))

match_all_requirements_iff :
    (reqs : List LabelSelectorRequirement) (r : Resource)
    → (match_all_requirements reqs r ≡ some true) ↔ All (Satisfies r) reqs
unfolding match_all_requirements match_requirement
match_all_requirements_iff [] r = ((λ _. tt), (λ _. refl))
match_all_requirements_iff (req ∷ reqs) r =
    let one = operator_iff req.operator req.values (get r.labels req.key) in
    let rest = match_all_requirements_iff reqs r in
    let step =
      step_iff (match_operator req.operator req.values (get r.labels req.key))
        (match_all_requirements reqs r) in
    ((λ h. (one.0 (step.0 h).0, rest.0 (step.0 h).1)), (λ h. step.1 (one.1 h.0, rest.1 h.1)))

-- A selector matches a resource, and the match does not raise, exactly when a pattern of its name
-- list fits the name or the list is empty, every label that it gives is on the resource with that
-- value, and every requirement holds of the resource's labels.
pub match_resource_iff :
    (sel : ResourceSelector) (r : Resource) → (match_resource sel r ≡ some true) ↔ Selected sel r
unfolding match_resource match_labels
match_resource_iff sel r =
    let names = match_name_iff sel.name_selector r in
    let labels = match_all_labels_iff sel.label_selector.match_labels r in
    let reqs = match_all_requirements_iff sel.label_selector.match_expressions r in
    elim (Bool-cases (match_name sel.name_selector r)) [
      | inr f ↦ ((λ h. absurd (ground arith)), (λ h. absurd (ground (arith, names.1 h.0))))
      | inl t ↦ elim (Bool-cases (match_all_labels sel.label_selector.match_labels r)) [
        | inr f ↦ ((λ h. absurd (ground arith)), (λ h. absurd (ground (arith, labels.1 h.1))))
        | inl u ↦
            ((λ h. (names.0 t, labels.0 u, reqs.0 (rw (t, u) at h))), (λ h. rw (t, u) (reqs.1 h.2)))
      ]
    ]
