-- ===== src/Secrets/Matching/Expressions.antt =====
-- Labels against the expressions of a rule: secretcopier_funcs.py, matches_target_namespace.
use educates_training_platfo.Prelude.{
  String, true, false, not, ◌||◌, ◌≡◌, refl, ◌↔◌, ◌⊎◌, inl, inr, Option, none, some, List, [], ◌∷◌,
  if◌then◌else◌, is_empty, is_some, arith, Bool-cases, str_eq, eq_iff, contains, All,
}
use educates_training_platfo.Dict.{Dict, get}
use educates_training_platfo.Secrets.{Expression, is_among, expression_holds, expressions_selected}

-- What an expression asks of the labels of a namespace, for each operator.
abbrev pub Holds : Dict String → Expression → Type 0
Holds labels e =
    (e.operator ≡ "In"
      → (e.values ≡ [])
        ⊎ ((v : String) × (get labels e.key ≡ some v) × (contains v e.values ≡ true)))
    × (e.operator ≡ "NotIn"
        → (v : String) → get labels e.key ≡ some v
        → contains v e.values ≡ false)
    × (e.operator ≡ "Exists" → (v : String) × (get labels e.key ≡ some v))
    × (e.operator ≡ "DoesNotExist" → get labels e.key ≡ none)

in_iff :
    (vs : List String) (value : Option String)
    → ((is_empty vs || is_among value vs) ≡ true)
      ↔ ((vs ≡ []) ⊎ ((v : String) × (value ≡ some v) × (contains v vs ≡ true)))
in_iff [] value = ((λ _. inl refl), (λ _. refl))
in_iff (w ∷ vs) none = (
  (λ h. cc),
  (λ h. elim h [ inl e ↦ absurd (ground arith) | inr k ↦ absurd (ground (arith, k.1)) ]),
)
in_iff (w ∷ vs) (some v) = (
  (λ h. inr (v, refl, h)),
  λ h. elim h [ inl e ↦ absurd (ground arith) | inr k ↦ ground (arith, k.1, k.2) ],
)

not_in_iff :
    (vs : List String) (value : Option String)
    → ((is_empty vs || not (is_among value vs)) ≡ true)
      ↔ ((v : String) → value ≡ some v → contains v vs ≡ false)
not_in_iff [] value = ((λ _ v e. refl), (λ _. refl))
not_in_iff (w ∷ vs) none = ((λ _ v e. absurd (ground arith)), (λ _. refl))
not_in_iff (w ∷ vs) (some v) = ((λ h u e. ground arith), (λ h. rw (h v refl)))

exists_iff : (value : Option String) → (is_some value ≡ true) ↔ ((v : String) × (value ≡ some v))
exists_iff none = ((λ h. cc), (λ h. absurd (ground (arith, h.1))))
exists_iff (some v) = ((λ _. (v, refl)), (λ _. refl))

absent_iff : (value : Option String) → (not (is_some value) ≡ true) ↔ (value ≡ none)
absent_iff none = ((λ _. refl), (λ _. refl))
absent_iff (some v) = ((λ h. cc), (λ h. absurd (ground arith)))

holds_by :
    (op : String) (vs : List String) (value : Option String)
    → ((if str_eq op "In"
          then is_empty vs || is_among value vs
          else if str_eq op "NotIn"
          then is_empty vs || not (is_among value vs)
          else if str_eq op "Exists"
          then is_some value
          else if str_eq op "DoesNotExist"
          then not (is_some value)
          else true)
        ≡ true)
      ↔ ((op ≡ "In" → (vs ≡ []) ⊎ ((v : String) × (value ≡ some v) × (contains v vs ≡ true)))
          × (op ≡ "NotIn" → (v : String) → value ≡ some v → contains v vs ≡ false)
          × (op ≡ "Exists" → (v : String) × (value ≡ some v))
          × (op ≡ "DoesNotExist" → value ≡ none))
holds_by op vs value = (
  λ h. (
    (λ e. (in_iff vs value).0 (rw e at h)),
    (λ e. (not_in_iff vs value).0 (rw e at h)),
    (λ e. (exists_iff value).0 (rw e at h)),
    (λ e. (absent_iff value).0 (rw e at h)),
  ),
  λ h. elim (Bool-cases (str_eq op "In")) [
    | inl a ↦ rw a ((in_iff vs value).1 (h.0 ((eq_iff op "In").0 a)))
    | inr na ↦ rw na (elim (Bool-cases (str_eq op "NotIn")) [
      | inl b ↦ rw b ((not_in_iff vs value).1 (h.1 ((eq_iff op "NotIn").0 b)))
      | inr nb ↦ rw nb (elim (Bool-cases (str_eq op "Exists")) [
        | inl c ↦ rw c ((exists_iff value).1 (h.2 ((eq_iff op "Exists").0 c)))
        | inr nc ↦ rw nc (elim (Bool-cases (str_eq op "DoesNotExist")) [
          | inl d ↦ rw d ((absent_iff value).1 (h.3 ((eq_iff op "DoesNotExist").0 d)))
          | inr nd ↦ rw nd refl
        ])
      ])
    ])
  ],
)

pub expressions_selected_iff :
    (es : List Expression) (labels : Dict String)
    → (expressions_selected es labels ≡ true) ↔ All (Holds labels) es
unfolding expressions_selected expression_holds
expressions_selected_iff [] labels = ((λ _. tt), (λ _. refl))
expressions_selected_iff (e ∷ es) labels =
    let one = holds_by e.operator e.values (get labels e.key) in
    let rest = expressions_selected_iff es labels in
    elim (Bool-cases (expression_holds labels e)) [
      | inl t ↦ ((λ h. (one.0 t, rest.0 (rw t at h))), (λ h. rw t (rest.1 h.1)))
      | inr f ↦ ((λ h. absurd (ground (arith, f))), (λ h. absurd (ground (arith, f, one.1 h.0))))
    ]
