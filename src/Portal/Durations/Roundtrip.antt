-- ===== src/Portal/Durations/Roundtrip.antt =====
-- A duration of whole seconds is read back from the digits of its seconds.
use educates_training_platfo.Prelude.{
  ℕ, ◌+◌, ◌-◌, ◌*◌, ◌/◌, true, false, ◌≡◌, refl, ◌∙◌, ap, none, some, List, [], ◌∷◌, is_empty, All,
  arith,
}
use educates_training_platfo.Decimal.{
  decimal, read, IsDigit, decimal-IsDigit, decimal-ne-nil, read-decimal,
}
use educates_training_platfo.Portal.Models.{second}
use educates_training_platfo.Portal.Durations.{
  int_from, int_of, multiplier, last_or, with_suffix, times, convert_duration_to_seconds,
  duration_as_timedelta, is_digit,
}

int_from-read : (acc : ℕ) (cs : List ℕ) → All IsDigit cs → int_from acc cs ≡ some (read acc cs)
unfolding int_from read
int_from-read acc [] h = refl
int_from-read acc (c ∷ cs) h =
    let digit : is_digit c ≡ true = ground (arith, h.0) in
    rw digit (int_from-read (acc * 10 + (c - b'0')) cs h.1)

int_of-read : (cs : List ℕ) → All IsDigit cs → is_empty cs ≡ false → int_of cs ≡ some (read 0 cs)
unfolding int_of
int_of-read [] h k = absurd (ground (arith, k))
int_of-read (c ∷ cs) h k = int_from-read 0 (c ∷ cs) h

last-IsDigit : (d : ℕ) (cs : List ℕ) → IsDigit d → All IsDigit cs → IsDigit (last_or d cs)
last-IsDigit d [] h k = h
last-IsDigit d (c ∷ cs) h k = last-IsDigit c cs k.0 k.1

last_or-IsDigit : (cs : List ℕ) → All IsDigit cs → is_empty cs ≡ false → IsDigit (last_or 0 cs)
last_or-IsDigit [] h k = absurd (ground (arith, k))
last_or-IsDigit (c ∷ cs) h k = last-IsDigit c cs h.0 h.1

multiplier-digit : (c : ℕ) → IsDigit c → multiplier c ≡ none
unfolding multiplier
multiplier-digit c h = ground (arith, h.0, h.1)

convert-decimal : (n : ℕ) → convert_duration_to_seconds (decimal n) ≡ some n
unfolding convert_duration_to_seconds with_suffix
convert-decimal n =
    let digits = decimal-IsDigit n in
    let some_digit = decimal-ne-nil n in
    rw (multiplier-digit (last_or 0 (decimal n)) (last_or-IsDigit (decimal n) digits some_digit))
      (int_of-read (decimal n) digits some_digit ∙ ap (λ (k : ℕ). some k) (read-decimal n))

-- The durations of an environment are whole seconds, as the portal's resource gives them.
abbrev pub IsWhole : ℕ → Type 0
IsWhole t = t / second * second ≡ t

pub duration-whole : (t : ℕ) → IsWhole t → duration_as_timedelta (decimal (t / second)) ≡ some t
unfolding duration_as_timedelta times
duration-whole t h = rw (convert-decimal (t / second)) (ap (λ (k : ℕ). some k) h)
