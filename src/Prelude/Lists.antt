-- ===== src/Prelude/Lists.antt =====
-- Lists measured by native numbers, Boolean searches over lists, and predicates by recursion.
use Prim.Native.Nat.{ℕ, zero, suc, ◌+◌}
use Prim.Native.String.{String}
use mathlib.Core.Path.{◌≡◌, refl, subst, sym}
use mathlib.Core.Logic.{inl, inr}
use mathlib.Core.Bool.{Bool, true, false, ◌&&◌, ◌||◌}
use mathlib.Core.List.Memᴰ
use mathlib.Core.List.{List, [], ◌∷◌, ◌++◌, Memᴰ}
use native.Mathlib.Omega.{arith}
use text.Mathlib.Text.{◌==◌ as str_eq}
use text.Mathlib.TextEquality.{eq_iff}
use educates_training_platfo.Prelude.Tests.{if◌then◌else◌, Bool-cases}

module _ {ℓ} {A : Type ℓ} where
  abbrev pub length : List A → ℕ
  length [] = 0
  length (x ∷ xs) = suc (length xs)

  -- `not xs` for a list.
  abbrev pub is_empty : List A → Bool
  is_empty [] = true
  is_empty (x ∷ xs) = false

  pub nil_of_is_empty : (xs : List A) → is_empty xs ≡ true → xs ≡ []
  nil_of_is_empty [] h = refl
  nil_of_is_empty (x ∷ xs) h = absurd (ground arith)

  -- A list comprehension with a condition.
  abbrev pub keep : (A → Bool) → List A → List A
  keep p [] = []
  keep p (x ∷ xs) = if p x then x ∷ keep p xs else keep p xs

  abbrev pub any : (A → Bool) → List A → Bool
  any p [] = false
  any p (x ∷ xs) = p x || any p xs

  abbrev pub all : (A → Bool) → List A → Bool
  all p [] = true
  all p (x ∷ xs) = p x && all p xs

  -- How many entries pass a test.
  abbrev pub count : (A → Bool) → List A → ℕ
  count p [] = 0
  count p (x ∷ xs) = (if p x then 1 else 0) + count p xs

  abbrev pub sum_by : (A → ℕ) → List A → ℕ
  sum_by f [] = 0
  sum_by f (x ∷ xs) = f x + sum_by f xs

  abbrev pub take : ℕ → List A → List A
  take zero xs = []
  take (suc n) [] = []
  take (suc n) (x ∷ xs) = x ∷ take n xs

  -- Every entry satisfies a predicate.
  abbrev pub All {κ} : (A → Type κ) → List A → Type κ
  All P [] = Unit
  All P (x ∷ xs) = P x × All P xs

abbrev pub contains : String → List String → Bool
contains s xs = any (str_eq s) xs

pub mem-contains : (s : String) (xs : List String) → contains s xs ≡ true → Memᴰ s xs
mem-contains s [] h = absurd (ground arith)
mem-contains s (x ∷ xs) h = elim (Bool-cases (str_eq s x)) [
  | inl e ↦ Memᴰ.head ((eq_iff s x).0 e)
  | inr e ↦ Memᴰ.tail (mem-contains s xs (ground arith))
]

pub keep-member {ℓ} :
    {A : Type ℓ} (p : A → Bool) (x : A) (xs : List A)
    → Memᴰ x (keep p xs)
    → Memᴰ x xs × (p x ≡ true)
keep-member p x [] m = absurd (Memᴰ.not-nil m)
keep-member p x (y ∷ ys) m = elim (Bool-cases (p y)) [
  | inl t ↦ elim (rw t at m) [
    | Memᴰ.head e ↦ (Memᴰ.head e, rw e t)
    | Memᴰ.tail k ↦ (Memᴰ.tail (keep-member p x ys k).0, (keep-member p x ys k).1)
  ]
  | inr f ↦ let (a, b) = keep-member p x ys (rw f at m) in (Memᴰ.tail a, b)
]

pub contains-mem : (s : String) (xs : List String) → Memᴰ s xs → contains s xs ≡ true
contains-mem s [] m = absurd (Memᴰ.not-nil m)
contains-mem s (x ∷ xs) (Memᴰ.head e) = ground (arith, (eq_iff s x).1 e)
contains-mem s (x ∷ xs) (Memᴰ.tail m) = ground (arith, contains-mem s xs m)

-- `any` finds an entry that passes.
pub any-member {ℓ} :
    {A : Type ℓ} (p : A → Bool) (xs : List A) → any p xs ≡ true → (x : A) × Memᴰ x xs × (p x ≡ true)
any-member p [] h = absurd (ground arith)
any-member p (x ∷ xs) h = elim (Bool-cases (p x)) [
  | inl t ↦ (x, Memᴰ.head refl, t)
  | inr f ↦ let (y, m, t) = any-member p xs (rw f at h) in (y, Memᴰ.tail m, t)
]

pub any_of_member {ℓ} :
    {A : Type ℓ} (p : A → Bool) (x : A) (xs : List A) → Memᴰ x xs → p x ≡ true → any p xs ≡ true
any_of_member p x [] m h = absurd (Memᴰ.not-nil m)
any_of_member p x (y ∷ ys) (Memᴰ.head e) h = rw (← e) (rw h refl)
any_of_member p x (y ∷ ys) (Memᴰ.tail m) h = elim (Bool-cases (p y)) [
  | inl t ↦ rw t refl
  | inr f ↦ rw f (any_of_member p x ys m h)
]

pub member-keep {ℓ} :
    {A : Type ℓ} (p : A → Bool) (x : A) (xs : List A) → Memᴰ x xs → p x ≡ true → Memᴰ x (keep p xs)
member-keep p x [] m h = m
member-keep p x (y ∷ ys) (Memᴰ.head e) h = rw (← e) (rw h (Memᴰ.head refl))
member-keep p x (y ∷ ys) (Memᴰ.tail m) h = elim (Bool-cases (p y)) [
  | inl t ↦ rw t (Memᴰ.tail (member-keep p x ys m h))
  | inr f ↦ rw f (member-keep p x ys m h)
]

pub not-member-nil {ℓ} : {A : Type ℓ} (x : A) (xs : List A) → Memᴰ x xs → is_empty xs ≡ false
not-member-nil x [] m = absurd (Memᴰ.not-nil m)
not-member-nil x (y ∷ ys) m = refl

module _ {ℓ κ} {A : Type ℓ} (P : A → Type κ) where
  pub All-append : (xs ys : List A) → All P xs → All P ys → All P (xs ++ ys)
  All-append [] ys p q = q
  All-append (x ∷ xs) ys p q = (p.0, All-append xs ys p.1 q)

  pub All-parts : (xs ys : List A) → All P (xs ++ ys) → All P xs × All P ys
  All-parts [] ys p = (tt, p)
  All-parts (x ∷ xs) ys p = let (a, b) = All-parts xs ys p.1 in ((p.0, a), b)

  pub All-member : (x : A) (xs : List A) → All P xs → Memᴰ x xs → P x
  All-member x [] p m = absurd (Memᴰ.not-nil m)
  All-member x (y ∷ ys) p (Memᴰ.head e) = subst P (sym e) p.0
  All-member x (y ∷ ys) p (Memᴰ.tail m) = All-member x ys p.1 m

  pub All-intro : (xs : List A) → ((x : A) → Memᴰ x xs → P x) → All P xs
  All-intro [] f = tt
  All-intro (x ∷ xs) f = (f x (Memᴰ.head refl), All-intro xs (λ y m. f y (Memᴰ.tail m)))

  pub All-keep : (q : A → Bool) (xs : List A) → All P xs → All P (keep q xs)
  All-keep q [] p = tt
  All-keep q (x ∷ xs) p = elim (Bool-cases (q x)) [
    | inl t ↦ rw t (p.0, All-keep q xs p.1)
    | inr f ↦ rw f (All-keep q xs p.1)
  ]

module _ {ℓ κ μ} {A : Type ℓ} (P : A → Type κ) (Q : A → Type μ) where
  pub All-map : ((x : A) → P x → Q x) → (xs : List A) → All P xs → All Q xs
  All-map f [] p = tt
  All-map f (x ∷ xs) p = (f x p.0, All-map f xs p.1)
