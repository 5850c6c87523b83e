-- ===== src/Decimal.antt =====
-- Python's `str` of a natural number, as code points, and that no two numbers share it.
use educates_training_platfo.Prelude.{
  ℕ, zero, suc, ◌+◌, ◌-◌, ◌*◌, ◌/◌, ◌%◌, ◌<◌, ◌≡◌, refl, sym, ap, ◌∙◌, List, [], ◌∷◌, ◌++◌, arith,
  ltb, if◌then◌else◌, Bool-cases, inl, inr, ◌≤◌, All, All-append, is_empty, false,
}

-- With more fuel than the number there is always enough.
digits : ℕ → ℕ → List ℕ
digits zero n = []
digits (suc f) n =
    let more = digits f (n / 10) ++ (b'0' + n % 10) ∷ [] in
    if ltb n 10 then (b'0' + n) ∷ [] else more

unfoldable pub decimal : ℕ → List ℕ
unfolding digits
decimal n = digits (suc n) n

unfoldable pub read : ℕ → List ℕ → ℕ
read acc [] = acc
read acc (c ∷ cs) = read (acc * 10 + (c - b'0')) cs

read-append : (acc c : ℕ) (xs : List ℕ) → read acc (xs ++ c ∷ []) ≡ read acc xs * 10 + (c - b'0')
unfolding read
read-append acc c [] = refl
read-append acc c (x ∷ xs) = read-append (acc * 10 + (x - b'0')) c xs

read-digits : (f n : ℕ) → n < f → read 0 (digits f n) ≡ n
unfolding digits
read-digits zero n h = elim h [ ]
read-digits (suc f) n h = elim (Bool-cases (ltb n 10)) [
  | inl t ↦ rw t (unfold read in omega arith)
  | inr t ↦
      rw
        (
          t,
          read-append 0 (b'0' + n % 10) (digits f (n / 10)),
          read-digits f (n / 10) (ground arith),
        )
        (omega arith)
]

pub decimal-injective : (m n : ℕ) → decimal m ≡ decimal n → m ≡ n
unfolding decimal
decimal-injective m n e =
    sym (read-digits (suc m) m (omega arith)) ∙ ap (read 0) e ∙ read-digits (suc n) n (omega arith)

decimal_example : decimal 405 ≡ b'4' ∷ b'0' ∷ b'5' ∷ []
unfolding decimal
decimal_example = refl

abbrev pub IsDigit : ℕ → Type 0
IsDigit c = (b'0' ≤ c) × (c ≤ b'9')

digits-IsDigit : (f n : ℕ) → All IsDigit (digits f n)
unfolding digits
digits-IsDigit zero n = tt
digits-IsDigit (suc f) n = elim (Bool-cases (ltb n 10)) [
  | inl t ↦ rw t ((omega arith, ground (arith, t)), tt)
  | inr t ↦ rw t (
      All-append IsDigit (digits f (n / 10)) ((b'0' + n % 10) ∷ []) (digits-IsDigit f (n / 10))
        ((omega arith, omega arith), tt))
]

pub decimal-IsDigit : (n : ℕ) → All IsDigit (decimal n)
unfolding decimal
decimal-IsDigit n = digits-IsDigit (suc n) n

not_nil : (xs : List ℕ) (c : ℕ) → is_empty (xs ++ c ∷ []) ≡ false
not_nil [] c = refl
not_nil (x ∷ xs) c = refl

pub decimal-ne-nil : (n : ℕ) → is_empty (decimal n) ≡ false
unfolding decimal digits
decimal-ne-nil n = elim (Bool-cases (ltb n 10)) [
  | inl t ↦ rw t refl
  | inr t ↦ rw t (not_nil (digits n (n / 10)) (b'0' + n % 10))
]

pub read-decimal : (n : ℕ) → read 0 (decimal n) ≡ n
unfolding decimal
read-decimal n = read-digits (suc n) n (omega arith)
