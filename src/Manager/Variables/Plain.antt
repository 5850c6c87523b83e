-- ===== src/Manager/Variables/Plain.antt =====
-- Objects that name no variables, under substitute_variables of helpers.py.
use Prim.Native.Char.{code}
use educates_training_platfo.Prelude.{
  ℕ, zero, suc, inl, inr, String, true, false, ◌≡◌, refl, ap, none, is_some, ◌==◌, arith,
  Bool-cases, Option-cases,
}
use educates_training_platfo.Dict.{Dict}
use educates_training_platfo.Manager.Variables.{
  Json, null, boolean, number, text, array, object, Items, nil, cons, Fields, end, field, behind,
  occurs_in, rounds, encoded, substitute_text, substitute_variables, substitute_items,
  substitute_fields,
}

-- No text of the object has a "$(".
unfoldable mutual
  pub IsPlain : Json → Type 0
  IsPlain null = Unit
  IsPlain (boolean b) = Unit
  IsPlain (number n) = Unit
  IsPlain (text s) = occurs_in "$(" s ≡ false
  IsPlain (array xs) = PlainItems xs
  IsPlain (object fs) = PlainFields fs

  pub PlainItems : Items → Type 0
  PlainItems nil = Unit
  PlainItems (cons x xs) = IsPlain x × PlainItems xs

  pub PlainFields : Fields → Type 0
  PlainFields end = Unit
  PlainFields (field k v fs) = IsPlain v × PlainFields fs

behind_trans :
    (p r s : String)
    → is_some (behind p r) ≡ true
    → is_some (behind r s) ≡ true
    → is_some (behind p s) ≡ true
unfolding behind
behind_trans String.[] r s h k = refl
behind_trans (String.◌∷◌ c p) String.[] s h k = cc
behind_trans (String.◌∷◌ c p) (String.◌∷◌ d r) String.[] h k = cc
behind_trans (String.◌∷◌ c p) (String.◌∷◌ d r) (String.◌∷◌ e s) h k =
    elim (Bool-cases (code c == code d)) [
      | inr n ↦ absurd (ground (arith, h, n))
      | inl t ↦ elim (Bool-cases (code d == code e)) [
        | inr n ↦ absurd (ground (arith, k, n))
        | inl u ↦
            let v : (code c == code e) ≡ true = ground (arith, t, u) in
            rw v (behind_trans p r s (rw t at h) (rw u at k))
      ]
    ]

occurs_at_start : (p s : String) → occurs_in p s ≡ false → is_some (behind p s) ≡ false
unfolding occurs_in
occurs_at_start p String.[] h = h
occurs_at_start p (String.◌∷◌ c s) h = ground (arith, h)

not_encoded : (s : String) → occurs_in "$(" s ≡ false → behind "$(base64(" s ≡ none
not_encoded s h = elim (Option-cases (behind "$(base64(" s)) [
  | inl n ↦ n
  | inr (rest, e) ↦ absurd (
      ground (
        arith,
        occurs_at_start "$(" s h,
        behind_trans "$(" "$(base64(" s (unfold behind in refl) (rw e refl),
      ))
]

module _ (b64encode : String → String) (variables : Dict String) where
  rounds_plain : (n : ℕ) (t s : String) → occurs_in "$(" s ≡ false → rounds n variables t s ≡ s
  unfolding rounds
  rounds_plain zero t s h = refl
  rounds_plain (suc n) t s h = rw h refl

  substitute_text-plain :
      (s : String) → occurs_in "$(" s ≡ false → substitute_text b64encode variables s ≡ s
  unfolding substitute_text encoded
  substitute_text-plain s h = rw (rounds_plain 6 s s h) (rw (not_encoded s h, encoded) refl)

  mutual
    unfolding substitute_variables IsPlain

    plain : (j : Json) → IsPlain j → substitute_variables b64encode variables j ≡ j
    plain null h = refl
    plain (boolean b) h = refl
    plain (number n) h = refl
    plain (text s) h = ap (λ (t : String). text t) (substitute_text-plain s h)
    plain (array xs) h = ap (λ (t : Items). array t) (plain_items xs h)
    plain (object fs) h = ap (λ (t : Fields). object t) (plain_fields fs h)

    plain_items : (xs : Items) → PlainItems xs → substitute_items b64encode variables xs ≡ xs
    plain_items nil h = refl
    plain_items (cons x xs) h = cc (plain x h.0, plain_items xs h.1)

    plain_fields : (fs : Fields) → PlainFields fs → substitute_fields b64encode variables fs ≡ fs
    plain_fields end h = refl
    plain_fields (field k v fs) h = cc (plain v h.0, plain_fields fs h.1)

  -- An object none of whose texts has a "$(" is left as it is.
  pub substitute_variables-plain :
      (j : Json) → IsPlain j → substitute_variables b64encode variables j ≡ j
  substitute_variables-plain j h = plain j h
