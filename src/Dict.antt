-- ===== src/Dict.antt =====
-- Python's `dict` with text keys, as the caches use it. `values()` walks a dict in the order in
-- which its keys were first inserted, and the handlers depend on that order, so it is kept.
use educates_training_platfo.Prelude.{
  String, ◌≡◌, refl, subst, Option, none, some, List, [], ◌∷◌, arith, str_eq, eq_iff, str_eq_refl,
  if◌then◌else◌, Bool-cases, inl, inr, ℕ, sum_by, is_empty, false,
}

abbrev pub Dict {ℓ} : Type ℓ → Type ℓ
Dict V = List (String × V)

module _ {ℓ} {V : Type ℓ} where
  -- d.get(k)
  unfoldable pub get : Dict V → String → Option V
  get [] k = none
  get ((j, v) ∷ d) k = if str_eq j k then some v else get d k

  -- d[k] = v: a known key keeps its place.
  unfoldable pub put : Dict V → String → V → Dict V
  put [] k v = (k, v) ∷ []
  put ((j, w) ∷ d) k v = if str_eq j k then (j, v) ∷ d else (j, w) ∷ put d k v

  -- d.pop(k, None)
  unfoldable pub pop : Dict V → String → Dict V
  pop [] k = []
  pop ((j, w) ∷ d) k = let rest = pop d k in if str_eq j k then rest else (j, w) ∷ rest

  -- list(d.values())
  unfoldable pub values : Dict V → List V
  values [] = []
  values ((j, v) ∷ d) = v ∷ values d

  pub get-put :
      (d : Dict V) (k j : String) (v : V)
      → get (put d k v) j ≡ (if str_eq k j then some v else get d j)
  unfolding get put
  get-put [] k j v = refl
  get-put ((i, w) ∷ d) k j v = ground (arith, eq_iff k j, eq_iff i k, eq_iff i j, get-put d k j v)

  pub get-pop :
      (d : Dict V) (k j : String) → get (pop d k) j ≡ (if str_eq k j then none else get d j)
  unfolding get pop
  get-pop [] k j = ground arith
  get-pop ((i, w) ∷ d) k j = ground (arith, eq_iff k j, eq_iff i k, eq_iff i j, get-pop d k j)

  pub get-put_self : (d : Dict V) (k : String) (v : V) → get (put d k v) k ≡ some v
  get-put_self d k v = rw (get-put d k k v, str_eq_refl k)

  -- A key that is not there: `put` adds at the end, and `pop` takes that away again.
  pub pop_absent : (d : Dict V) (k : String) → get d k ≡ none → pop d k ≡ d
  unfolding get pop
  pop_absent [] k h = refl
  pop_absent ((i, w) ∷ d) k h = ground (arith, pop_absent d k)

  pub pop-put_absent : (d : Dict V) (k : String) (v : V) → get d k ≡ none → pop (put d k v) k ≡ d
  unfolding get put pop
  pop-put_absent [] k v h = ground (arith, str_eq_refl k)
  pop-put_absent ((i, w) ∷ d) k v h = ground (arith, pop-put_absent d k v)

  pub put-put : (d : Dict V) (k : String) (v w : V) → put (put d k v) k w ≡ put d k w
  unfolding put
  put-put [] k v w = ground (arith, str_eq_refl k)
  put-put ((i, u) ∷ d) k v w = ground (arith, put-put d k v w)

  pub get_empty : (d : Dict V) (k : String) → values d ≡ [] → get d k ≡ none
  unfolding values get
  get_empty [] k e = refl
  get_empty ((i, w) ∷ d) k e = absurd (ground arith)

  pub put-ne-nil : (d : Dict V) (k : String) (v : V) → is_empty (values (put d k v)) ≡ false
  unfolding values put
  put-ne-nil [] k v = refl
  put-ne-nil ((i, w) ∷ d) k v = ground arith

  -- No key stands twice, as in every Python dict.
  abbrev pub Unique : Dict V → Type ℓ
  Unique [] = Unit
  Unique ((j, v) ∷ d) = (get d j ≡ none) × Unique d

  pub put-Unique : (d : Dict V) (k : String) (v : V) → Unique d → Unique (put d k v)
  unfolding put get
  put-Unique [] k v u = (refl, tt)
  put-Unique ((i, w) ∷ d) k v u = elim (Bool-cases (str_eq i k)) [
    | inl e ↦ rw e u
    | inr e ↦ rw e (ground (arith, get-put d k i v, eq_iff i k, eq_iff k i), put-Unique d k v u.1)
  ]

  pub pop-Unique : (d : Dict V) (k : String) → Unique d → Unique (pop d k)
  unfolding pop get
  pop-Unique [] k u = tt
  pop-Unique ((i, w) ∷ d) k u = elim (Bool-cases (str_eq i k)) [
    | inl e ↦ rw e (pop-Unique d k u.1)
    | inr e ↦ rw e (ground (arith, get-pop d k i), pop-Unique d k u.1)
  ]

  -- Taking away an entry that counts for nothing does not change a total.
  pub sum_by-pop :
      (f : V → ℕ) (d : Dict V) (k : String) (v : V)
      → Unique d
      → get d k ≡ some v
      → f v ≡ 0
      → sum_by f (values (pop d k)) ≡ sum_by f (values d)
  unfolding get pop values
  sum_by-pop f [] k v u e z = refl
  sum_by-pop f ((i, w) ∷ d) k v u e z =
      ground (arith, pop_absent d k, eq_iff i k, sum_by-pop f d k v u.1)

  -- A property of every entry, its key included.
  abbrev pub Entries {κ} : (String → V → Type κ) → Dict V → Type κ
  Entries P [] = Unit
  Entries P ((j, v) ∷ d) = P j v × Entries P d

module _ {ℓ κ} {V : Type ℓ} (P : String → V → Type κ) where
  weaken : (d : Dict V) (k : String) → Entries P d → Entries (λ j v. str_eq j k ≡ false → P j v) d
  weaken [] k h = tt
  weaken ((i, w) ∷ d) k h = ((λ _. h.0), weaken d k h.1)

  pub put-Entries : (d : Dict V) (k : String) (v : V) → P k v → Entries P d → Entries P (put d k v)
  unfolding put
  put-Entries [] k v p h = (p, tt)
  put-Entries ((i, w) ∷ d) k v p h = elim (Bool-cases (str_eq i k)) [
    | inl e ↦ rw e (rw ((eq_iff i k).0 e) p, h.1)
    | inr e ↦ rw e (h.0, put-Entries d k v p h.1)
  ]

  pub pop-Entries : (d : Dict V) (k : String) → Entries P d → Entries P (pop d k)
  unfolding pop
  pop-Entries [] k h = tt
  pop-Entries ((i, w) ∷ d) k h = elim (Bool-cases (str_eq i k)) [
    | inl e ↦ rw e (pop-Entries d k h.1)
    | inr e ↦ rw e (h.0, pop-Entries d k h.1)
  ]

  -- What holds of the entries under other keys holds of all that are left.
  pub pop-Entries_others :
      (d : Dict V) (k : String)
      → Entries (λ j v. str_eq j k ≡ false → P j v) d
      → Entries P (pop d k)
  unfolding pop
  pop-Entries_others [] k h = tt
  pop-Entries_others ((i, w) ∷ d) k h = elim (Bool-cases (str_eq i k)) [
    | inl e ↦ rw e (pop-Entries_others d k h.1)
    | inr e ↦ rw e (h.0 e, pop-Entries_others d k h.1)
  ]

  pub put-Entries_others :
      (d : Dict V) (k : String) (v : V)
      → Entries P d
      → Entries (λ j v. str_eq j k ≡ false → P j v) (put d k v)
  unfolding put
  put-Entries_others [] k v h = ((λ f. absurd (ground (arith, str_eq_refl k))), tt)
  put-Entries_others ((i, w) ∷ d) k v h = elim (Bool-cases (str_eq i k)) [
    | inl e ↦ rw e ((λ f. absurd (ground arith)), weaken d k h.1)
    | inr e ↦ rw e ((λ _. h.0), put-Entries_others d k v h.1)
  ]

  pub get-Entries : (d : Dict V) (k : String) (v : V) → Entries P d → get d k ≡ some v → P k v
  unfolding get
  get-Entries [] k v h e = absurd (ground arith)
  get-Entries ((i, w) ∷ d) k v h e = elim (Bool-cases (str_eq i k)) [
    | inl f ↦ subst (λ x. P x v) ((eq_iff i k).0 f) (subst (P i) (ground arith) h.0)
    | inr f ↦ get-Entries d k v h.1 (ground arith)
  ]

pub ruleset dict_laws = (get-put, get-pop, get-put_self, str_eq_refl)
