-- ===== src/Secrets/Matching/Names.antt =====
-- Names against the patterns of a rule: secretcopier_funcs.py, matches_target_namespace.
use mathlib.Core.List.{Memᴰ}
use mathlib.Core.List.Memᴰ
use educates_training_platfo.Prelude.{
  String, Bool, true, false, not, ◌&&◌, ◌≡◌, refl, ◌↔◌, ◌⊎◌, inl, inr, List, [], ◌∷◌, if◌then◌else◌,
  is, is_empty, keep, keep-member, arith, Bool-cases, member-keep, nil_of_is_empty,
}
use educates_training_platfo.Glob.{fnmatch}
use educates_training_platfo.Secrets.{
  negated, behind_bang, glob_match_name, included_names, excluded_names, name_selected,
}

-- A pattern of the list that does not begin with `!` fits the name, or there is none of these, and
-- what stands behind the `!` of the others never fits it.
abbrev pub NameAllowed : List String → String → Type 0
NameAllowed patterns name =
    (((p : String) → Memᴰ p patterns → negated p ≡ true)
      ⊎ ((p : String) × Memᴰ p patterns × (negated p ≡ false) × (fnmatch name p ≡ true)))
    × ((p : String) → Memᴰ p patterns → negated p ≡ true → fnmatch name (behind_bang p) ≡ false)

glob_found :
    (name : String) (items : List String)
    → glob_match_name name items ≡ true
    → (p : String) × Memᴰ p items × (fnmatch name p ≡ true)
unfolding glob_match_name
glob_found name [] h = absurd (ground arith)
glob_found name (i ∷ is) h = elim (Bool-cases (fnmatch name i)) [
  | inl t ↦ (i, Memᴰ.head refl, t)
  | inr f ↦ let (p, m, t) = glob_found name is (rw f at h) in (p, Memᴰ.tail m, t)
]

glob_finds :
    (name p : String) (items : List String)
    → Memᴰ p items
    → fnmatch name p ≡ true
    → glob_match_name name items ≡ true
unfolding glob_match_name
glob_finds name p [] m t = absurd (Memᴰ.not-nil m)
glob_finds name p (i ∷ is) (Memᴰ.head e) t = rw (← e) (rw t refl)
glob_finds name p (i ∷ is) (Memᴰ.tail m) t = elim (Bool-cases (fnmatch name i)) [
  | inl u ↦ rw u refl
  | inr f ↦ rw f (glob_finds name p is m t)
]

abbrev plain : String → Bool
plain p = not (negated p)

plain_of : (p : String) → negated p ≡ false → plain p ≡ true
plain_of p h = rw h

negated_of : (p : String) → plain p ≡ false → negated p ≡ true
negated_of p h = ground arith

checks_iff :
    (a b c d : Bool)
    → ((if not a && not b then false else if not c && d then false else true) ≡ true)
      ↔ (((a ≡ true) ⊎ (b ≡ true)) × ((c ≡ true) ⊎ (d ≡ false)))
checks_iff true b true d = ((λ _. (inl refl, inl refl)), (λ _. refl))
checks_iff true b false true = ((λ h. cc), (λ h. absurd (ground (arith, h.1))))
checks_iff true b false false = ((λ _. (inl refl, inr refl)), (λ _. refl))
checks_iff false true true d = ((λ _. (inr refl, inl refl)), (λ _. refl))
checks_iff false true false true = ((λ h. cc), (λ h. absurd (ground (arith, h.1))))
checks_iff false true false false = ((λ _. (inr refl, inr refl)), (λ _. refl))
checks_iff false false c d = ((λ h. cc), (λ h. absurd (ground (arith, h.0))))

no_glob :
    (name : String) (items : List String)
    → is_empty items ≡ true
    → glob_match_name name items ≡ false
unfolding glob_match_name
no_glob name [] h = refl
no_glob name (i ∷ is) h = absurd (ground arith)

module _ (name : String) (ps : List String) where
  no_plain_iff :
      (is_empty (included_names ps) ≡ true) ↔ ((p : String) → Memᴰ p ps → negated p ≡ true)
  no_plain_iff = (
    λ h p m. elim (Bool-cases (negated p)) [
      | inl t ↦ t
      | inr f ↦ absurd (
          Memᴰ.not-nil (
            rw (nil_of_is_empty (included_names ps) h) at
              (member-keep plain p ps m (plain_of p f))))
    ],
    λ h. no_plain_empty ps h,
  )
    where
      no_plain_empty :
          (qs : List String)
          → ((p : String) → Memᴰ p qs → negated p ≡ true)
          → is_empty (included_names qs) ≡ true
      no_plain_empty [] h = refl
      no_plain_empty (q ∷ qs) h =
          rw (h q (Memᴰ.head refl)) (no_plain_empty qs (λ p m. h p (Memᴰ.tail m)))

  excluded_iff :
      (glob_match_name name (excluded_names ps) ≡ false)
      ↔ ((p : String) → Memᴰ p ps → negated p ≡ true → fnmatch name (behind_bang p) ≡ false)
  excluded_iff = (
    λ h p m n. elim (Bool-cases (fnmatch name (behind_bang p))) [
      | inl t ↦ absurd (
          ground (
            arith,
            h,
            glob_finds name (behind_bang p) (excluded_names ps)
                (Memᴰ.map behind_bang (member-keep negated p ps m n)) t,
          ))
      | inr f ↦ f
    ],
    λ h. elim (Bool-cases (glob_match_name name (excluded_names ps))) [
      | inl t ↦
          let (q, m, u) = glob_found name (excluded_names ps) t in
          let (p, k, e) = Memᴰ.of_map behind_bang (keep negated ps) m in
          let (a, b) = keep-member negated p ps k in absurd (ground (arith, h p a b, e, u))
      | inr f ↦ f
    ],
  )

  included_iff :
      (glob_match_name name (included_names ps) ≡ true)
      ↔ ((p : String) × Memᴰ p ps × (negated p ≡ false) × (fnmatch name p ≡ true))
  included_iff = (
    λ h.
        let (p, m, t) = glob_found name (included_names ps) h in
        let (a, b) = keep-member plain p ps m in (p, a, ground (arith, b), t),
    λ h.
        glob_finds name h.0 (included_names ps) (member-keep plain h.0 ps h.1 (plain_of h.0 h.2))
          h.3,
  )

  -- A name passes a list of patterns exactly when one of the plain ones fits it, or there is none
  -- of these, and no negated one fits.
  pub name_selected_iff : (name_selected ps name ≡ true) ↔ NameAllowed ps name
  unfolding name_selected
  name_selected_iff =
      let checks =
        checks_iff (is_empty (included_names ps)) (glob_match_name name (included_names ps))
          (is_empty (excluded_names ps)) (glob_match_name name (excluded_names ps)) in
      (
        λ h. (
          elim (checks.0 h).0 [ inl e ↦ inl (no_plain_iff.0 e) | inr g ↦ inr (included_iff.0 g) ],
          excluded_iff.0
              (elim (checks.0 h).1 [ inl e ↦ no_glob name (excluded_names ps) e | inr g ↦ g ]),
        ),
        λ h. checks.1 (
          elim h.0 [ inl k ↦ inl (no_plain_iff.1 k) | inr k ↦ inr (included_iff.1 k) ],
          inr (excluded_iff.1 h.1),
        ),
      )
