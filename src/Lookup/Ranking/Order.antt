-- ===== src/Lookup/Ranking/Order.antt =====
-- The order that `sort_workshop_environments` of workshops.py puts the candidates in.
use mathlib.Core.List.Perm
use mathlib.Core.List.{Perm, append-nil, append_assoc, perm_middle}
use educates_training_platfo.Prelude.{
  ℕ, ◌≤◌, ◌<◌, ◌≡◌, refl, Bool, true, false, List, [], ◌∷◌, ◌++◌, arith, All, if◌then◌else◌,
  Bool-cases, inl, inr, ◌⊎◌, keep, not, ◌&&◌,
}
use educates_training_platfo.Prelude.Int.{ℤ, pos}
use educates_training_platfo.Lookup.Ranking.{
  Candidate, score, less, insert, insert_all, sort_workshop_environments,
  score_based_on_portal_availability,
}

less-asymm : (xs ys : List ℤ) → less xs ys ≡ true → less ys xs ≡ false
unfolding less
less-asymm [] [] h = refl
less-asymm [] (y ∷ ys) h = refl
less-asymm (x ∷ xs) [] h = absurd (ground arith)
less-asymm (x ∷ xs) (y ∷ ys) h = ground (arith, less-asymm xs ys)

-- Not less, and not less again.
not_less_trans : (xs ys zs : List ℤ) → less xs ys ≡ false → less ys zs ≡ false → less xs zs ≡ false
unfolding less
not_less_trans xs ys [] h k = refl
not_less_trans xs [] (z ∷ zs) h k = absurd (ground arith)
not_less_trans [] (y ∷ ys) (z ∷ zs) h k = absurd (ground arith)
not_less_trans (x ∷ xs) (y ∷ ys) (z ∷ zs) h k = ground (arith, not_less_trans xs ys zs)

-- The score of `c` is at least that of `d`.
abbrev pub AtLeast : Candidate → Candidate → Type 0
AtLeast c d = less (score c) (score d) ≡ false

abbrev pub Descending : List Candidate → Type 0
Descending [] = Unit
Descending (c ∷ cs) = All (AtLeast c) cs × Descending cs

AtLeast-All :
    (c d : Candidate) (ds : List Candidate) → AtLeast c d → All (AtLeast d) ds → All (AtLeast c) ds
AtLeast-All c d [] h k = tt
AtLeast-All c d (x ∷ xs) h k =
    (not_less_trans (score c) (score d) (score x) h k.0, AtLeast-All c d xs h k.1)

insert-All {κ} :
    (P : Candidate → Type κ) (c : Candidate) (ds : List Candidate)
    → P c
    → All P ds
    → All P (insert c ds)
unfolding insert
insert-All P c [] p h = (p, tt)
insert-All P c (d ∷ ds) p h = elim (Bool-cases (less (score d) (score c))) [
  | inl t ↦ rw t (p, (h.0, h.1))
  | inr f ↦ rw f (h.0, insert-All P c ds p h.1)
]

insert-Descending : (c : Candidate) (ds : List Candidate) → Descending ds → Descending (insert c ds)
unfolding insert
insert-Descending c [] h = (tt, tt)
insert-Descending c (d ∷ ds) h = elim (Bool-cases (less (score d) (score c))) [
  | inl t ↦
      let above = less-asymm (score d) (score c) t in
      rw t ((above, AtLeast-All c d ds above h.0), (h.0, h.1))
  | inr f ↦ rw f (insert-All (AtLeast d) c ds f h.0, insert-Descending c ds h.1)
]

insert-perm : (c : Candidate) (ds : List Candidate) → Perm (insert c ds) (c ∷ ds)
unfolding insert
insert-perm c [] = Perm.refl (c ∷ [])
insert-perm c (d ∷ ds) = elim (Bool-cases (less (score d) (score c))) [
  | inl t ↦ rw t (Perm.refl (c ∷ d ∷ ds))
  | inr f ↦ rw f (Perm.trans (Perm.cons d (insert-perm c ds)) (Perm.swap c d ds))
]

insert_all-Descending :
    (done cs : List Candidate) → Descending done → Descending (insert_all done cs)
unfolding insert_all
insert_all-Descending done [] h = h
insert_all-Descending done (c ∷ cs) h =
    insert_all-Descending (insert c done) cs (insert-Descending c done h)

insert_all-perm : (done cs : List Candidate) → Perm (insert_all done cs) (done ++ cs)
unfolding insert_all
insert_all-perm done [] = rw append-nil (Perm.refl done)
insert_all-perm done (c ∷ cs) =
    Perm.trans (insert_all-perm (insert c done) cs) (
      Perm.trans (Perm.append (insert-perm c done) (Perm.refl cs))
        (Perm.symm (perm_middle done cs)))

-- The same score as `s`.
abbrev pub has_score : List ℤ → Candidate → Bool
has_score s c = not (less s (score c)) && not (less (score c) s)

not_less_self : (xs : List ℤ) → less xs xs ≡ false
unfolding less
not_less_self [] = refl
not_less_self (x ∷ xs) = ground (arith, not_less_self xs)

-- Below a score that is less than that of `c`, nothing has the score of `c`.
other_score :
    (s : List ℤ) (c d x : Candidate)
    → has_score s c ≡ true
    → less (score d) (score c) ≡ true
    → AtLeast d x
    → has_score s x ≡ false
other_score s c d x h l a = elim (Bool-cases (has_score s x)) [
  | inr f ↦ f
  | inl t ↦
      let from_x = not_less_trans (score x) s (score c) (ground arith) (ground arith) in
      absurd (ground (arith, not_less_trans (score d) (score x) (score c) a from_x))
]

none_left :
    (s : List ℤ) (c d : Candidate) (ds : List Candidate)
    → has_score s c ≡ true
    → less (score d) (score c) ≡ true
    → All (AtLeast d) ds
    → keep (has_score s) ds ≡ []
none_left s c d [] h l a = refl
none_left s c d (x ∷ xs) h l a = rw (other_score s c d x h l a.0) (none_left s c d xs h l a.1)

insert-keep :
    (s : List ℤ) (c : Candidate) (ds : List Candidate)
    → Descending ds
    → keep (has_score s) (insert c ds)
      ≡ keep (has_score s) ds ++ (if has_score s c then c ∷ [] else [])
unfolding insert
insert-keep s c [] h = refl
insert-keep s c (d ∷ ds) h = elim (Bool-cases (less (score d) (score c))) [
  | inr f ↦
      rw (f, insert-keep s c ds h.1)
        (elim (Bool-cases (has_score s d)) [ inl u ↦ rw u | inr u ↦ rw u ])
  | inl t ↦ rw t (elim (Bool-cases (has_score s c)) [
    | inr g ↦ rw (g, append-nil)
    | inl g ↦ rw (g, none_left s c d (d ∷ ds) g t (not_less_self (score d), h.0))
  ])
]

insert_all-keep :
    (s : List ℤ) (done cs : List Candidate)
    → Descending done
    → keep (has_score s) (insert_all done cs) ≡ keep (has_score s) done ++ keep (has_score s) cs
unfolding insert_all
insert_all-keep s done [] h = rw append-nil
insert_all-keep s done (c ∷ cs) h =
    rw
      (
        insert_all-keep s (insert c done) cs (insert-Descending c done h),
        insert-keep s c done h,
        append_assoc,
      )
      (elim (Bool-cases (has_score s c)) [ inl u ↦ rw u | inr u ↦ rw u ])

-- The candidates come out with falling scores, each as often as it went in, and those of one score
-- in the order in which they went in.
pub sort_workshop_environments_correct :
    (cs : List Candidate)
    → Descending (sort_workshop_environments cs)
      × Perm (sort_workshop_environments cs) cs
      × ((s : List ℤ) → keep (has_score s) (sort_workshop_environments cs) ≡ keep (has_score s) cs)
unfolding sort_workshop_environments
sort_workshop_environments_correct cs =
    (insert_all-Descending [] cs tt, insert_all-perm [] cs, λ s. insert_all-keep s [] cs tt)

less-head : (a b : ℕ) (xs ys : List ℤ) → less (pos a ∷ xs) (pos b ∷ ys) ≡ false → b ≤ a
unfolding less
less-head a b xs ys h = ground arith

-- The portal of the candidate has no maximum, or fewer sessions than its maximum.
abbrev pub HasRoom : Candidate → Type 0
HasRoom c = (c.portal.capacity ≡ 0) ⊎ (c.portal.allocated < c.portal.capacity)

AtLeast-HasRoom : (c d : Candidate) → AtLeast c d → HasRoom d → HasRoom c
unfolding score
AtLeast-HasRoom c d h r =
    let le =
      less-head (score_based_on_portal_availability c) (score_based_on_portal_availability d) _ _
        h in
    unfold score_based_on_portal_availability in ground (arith, le)

abbrev pub RoomFirst : List Candidate → Type 0
RoomFirst [] = Unit
RoomFirst (c ∷ cs) = All (λ d. HasRoom d → HasRoom c) cs × RoomFirst cs

room_first : (cs : List Candidate) → Descending cs → RoomFirst cs
room_first [] h = tt
room_first (c ∷ cs) h = (weaken cs h.0, room_first cs h.1)
  where
    weaken : (ds : List Candidate) → All (AtLeast c) ds → All (λ d. HasRoom d → HasRoom c) ds
    weaken [] a = tt
    weaken (d ∷ ds) a = (AtLeast-HasRoom c d a.0, weaken ds a.1)

-- In the list that is tried, no candidate of a portal with room stands behind one of a portal that
-- is at its maximum.
pub sort_workshop_environments-RoomFirst :
    (cs : List Candidate) → RoomFirst (sort_workshop_environments cs)
sort_workshop_environments-RoomFirst cs = room_first _ (sort_workshop_environments_correct cs).0
