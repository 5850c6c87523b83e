-- ===== src/Portal/Durations.antt =====
-- The durations of manager/environments.py of the training portal. The schema of a training portal lets
-- a duration be digits before a suffix; of `int` no more than the digits is modelled.
pub mod Roundtrip
use educates_training_platfo.Prelude.{
  ℕ, ◌+◌, ◌-◌, ◌*◌, ◌/◌, ◌%◌, ◌<◌, Bool, ◌&&◌, ◌||◌, ◌≡◌, ◌∙◌, Option, none, some, List, [], ◌∷◌,
  ◌++◌, ◌==◌, leb, if◌then◌else◌,
}
use educates_training_platfo.Portal.Models.{second}

abbrev is_digit : ℕ → Bool
is_digit c = leb b'0' c && leb c b'9'

-- The digits behind those that gave `acc`.
unfoldable pub int_from : ℕ → List ℕ → Option ℕ
int_from acc [] = some acc
int_from acc (c ∷ cs) = if is_digit c then int_from (acc * 10 + (c - b'0')) cs else none

-- `int(text)`, which raises where there is no number.
unfoldable pub int_of : List ℕ → Option ℕ
int_of [] = none
int_of (c ∷ cs) = int_from 0 (c ∷ cs)

-- The suffixes, in either case, and what they stand for.
unfoldable pub multiplier : ℕ → Option ℕ
multiplier c =
    if c == b's' || c == b'S'
    then some 1
    else if c == b'm' || c == b'M'
    then some 60
    else if c == b'h' || c == b'H'
    then some 3600
    else none

abbrev last_or : ℕ → List ℕ → ℕ
last_or d [] = d
last_or d (c ∷ cs) = last_or c cs

-- `size[0:-1]`
abbrev but_last : List ℕ → List ℕ
but_last [] = []
but_last (c ∷ []) = []
but_last (c ∷ d ∷ cs) = c ∷ but_last (d ∷ cs)

times : ℕ → Option ℕ → Option ℕ
times m none = none
times m (some n) = some (n * m)

with_suffix : List ℕ → Option ℕ → Option ℕ
unfolding times
with_suffix size none = int_of size
with_suffix size (some m) = times m (int_of (but_last size))

unfoldable pub convert_duration_to_seconds : List ℕ → Option ℕ
unfolding with_suffix
convert_duration_to_seconds size = with_suffix size (multiplier (last_or 0 size))

unfoldable pub duration_as_timedelta : List ℕ → Option ℕ
unfolding times
duration_as_timedelta duration = times second (convert_duration_to_seconds duration)
