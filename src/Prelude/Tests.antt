-- ===== src/Prelude/Tests.antt =====
-- Boolean tests, on the native numbers and on texts that may be missing, and the conditional.
use Prim.Native.Nat.{ℕ, ◌≤◌, ◌<◌, compare, Ordering}
use Prim.Native.String.{String}
use mathlib.Core.Path.{◌≡◌, refl, ap}
use mathlib.Core.Logic.{◌↔◌, ◌⊎◌, inl, inr}
use mathlib.Core.Bool.{Bool, true, false, ◌&&◌}
use mathlib.Core.Option.{Option, none, some}
use native.Mathlib.Omega.{arith}
use text.Mathlib.Text.{◌==◌ as str_eq}
use text.Mathlib.TextEquality.{eq_iff}

abbrev pub ltb : ℕ → ℕ → Bool
ltb a b = elim (compare a b) [ Ordering.lt ↦ true | _ ↦ false ]

abbrev pub leb : ℕ → ℕ → Bool
leb a b = elim (compare a b) [ Ordering.gt ↦ false | _ ↦ true ]

infix 50 ◌==◌
abbrev pub ◌==◌ : ℕ → ℕ → Bool
a == b = elim (compare a b) [ Ordering.eq ↦ true | _ ↦ false ]

infix 1 if◌then◌else◌
abbrev pub if◌then◌else◌ {ℓ} : {A : Type ℓ} → Bool → A → A → A
if true then x else y = x
if false then x else y = y

-- `x == "text"` for a value that may be `None`.
abbrev pub is : Option String → String → Bool
is none t = false
is (some s) t = str_eq s t

-- `==` of two values that may be `None`.
abbrev pub opt_eq : Option String → Option String → Bool
opt_eq none none = true
opt_eq (some s) (some t) = str_eq s t
opt_eq _ _ = false

-- The truth value of a text, of one that may be missing, and of an object that may be missing.
abbrev pub truthy : String → Bool
truthy s = if str_eq s "" then false else true

abbrev pub given : Option String → Bool
given none = false
given (some s) = truthy s

abbrev pub is_some {ℓ} : {A : Type ℓ} → Option A → Bool
is_some none = false
is_some (some a) = true

-- `a or b` for texts that may be missing.
abbrev pub or_else : Option String → Option String → Option String
or_else a b = if given a then a else b

abbrev pub default {ℓ} : {A : Type ℓ} → A → Option A → A
default d none = d
default d (some a) = a

pub Bool-cases : (b : Bool) → (b ≡ true) ⊎ (b ≡ false)
Bool-cases true = inl refl
Bool-cases false = inr refl

pub Option-cases {ℓ} : {A : Type ℓ} (o : Option A) → (o ≡ none) ⊎ ((a : A) × (o ≡ some a))
Option-cases none = inl refl
Option-cases (some a) = inr (a, refl)

pub ltb→lt : (a b : ℕ) → ltb a b ≡ true → a < b
ltb→lt a b h = ground arith

pub leb→le : (a b : ℕ) → leb a b ≡ true → a ≤ b
leb→le a b h = ground arith

pub str_eq_refl : (s : String) → str_eq s s ≡ true
str_eq_refl s = (eq_iff s s).1 refl

pub is_iff : (o : Option String) (t : String) → (is o t ≡ true) ↔ (o ≡ some t)
is_iff none t = ((λ h. cc), (λ h. cc))
is_iff (some s) t =
    ((λ h. ap (λ (x : String). some x) ((eq_iff s t).0 h)), (λ h. (eq_iff s t).1 (ground arith)))

pub opt_eq→eq : (o : Option String) (t : String) → opt_eq o (some t) ≡ true → o ≡ some t
opt_eq→eq none t h = absurd (ground arith)
opt_eq→eq (some s) t h = ap (λ (x : String). some x) ((eq_iff s t).0 h)

-- The halves of a conjunction that holds.
pub both : (a b : Bool) → (a && b) ≡ true → (a ≡ true) × (b ≡ true)
both true b h = (refl, h)
both false b h = (cc, cc)
