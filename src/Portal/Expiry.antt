-- ===== src/Portal/Expiry.antt =====
-- The time that a session has left, and its extension, in models.py of the training portal. The
-- quarter of a duration is exact, since durations are whole seconds. Comparing or adding to a date
-- that is missing raises, which is `none` here.
pub mod Bounds
use educates_training_platfo.Prelude.{
  ℕ, ◌+◌, ◌-◌, ◌*◌, ◌/◌, min, Bool, true, false, Option, none, some, ◌==◌, leb, ltb, if◌then◌else◌,
}
use educates_training_platfo.Portal.Models.{
  SessionState, Environment, Session, is_allocated, second,
}

abbrev pub larger : ℕ → ℕ → ℕ
larger a b = if leb a b then b else a

-- `none` is the value `None`.
unfoldable pub remaining_time : ℕ → Session → Option ℕ
remaining_time now s = elim s.expires [
  | none ↦ none
  | some t ↦ if is_allocated s then some (t - now) else none
]

-- In whole seconds.
unfoldable pub time_remaining : ℕ → Session → Option ℕ
time_remaining now s = elim s.expires [ none ↦ none | some t ↦ some ((t - now) / second) ]

unfoldable pub extension_threshold : Environment → ℕ
extension_threshold e = larger (300 * second) (min e.expires (4 * 3600 * second) / 4)

unfoldable pub extension_duration : Environment → ℕ
extension_duration e =
    if e.overtime == 0 then extension_threshold e else larger (300 * second) e.overtime

-- The countdown in whole seconds against a threshold that may be a fraction.
unfoldable pub is_expiring : ℕ → Environment → Session → Bool
is_expiring now e s = elim (time_remaining now s) [
  | none ↦ false
  | some left ↦ ltb (left * second) (extension_threshold e)
]

abbrev short : Option ℕ → ℕ → Option Bool
short none d = none
short (some left) d = some (ltb left d)

-- The comparisons of a session that has a time of expiry.
unfoldable pub extension_due : ℕ → Environment → Session → ℕ → Option Bool
extension_due now e s expires = elim s.started [
  | none ↦ none
  | some started ↦
      if leb (started + e.deadline) expires
      then some false
      else short (remaining_time now s) (extension_duration e)
]

abbrev pub is_running_session : Session → Bool
is_running_session s = elim s.state [ SessionState.running ↦ true | _ ↦ false ]

unfoldable pub is_extension_permitted : ℕ → Environment → Session → Option Bool
is_extension_permitted now e s =
    if is_running_session s
    then (elim s.expires [ none ↦ some false | some t ↦ extension_due now e s t ])
    else some false

-- The later time, which the deadline cuts off.
unfoldable pub extended_to : Environment → ℕ → ℕ → ℕ
extended_to e started expires = min (expires + extension_duration e) (started + e.deadline)

unfoldable pub extended : Environment → Session → Option Session
extended e s = elim s.expires [
  | none ↦ none
  | some t ↦ elim s.started [
    | none ↦ none
    | some started ↦ some (record s { expires = some (extended_to e started t) })
  ]
]

-- The answer and the row that is saved.
unfoldable pub extend_time_remaining : ℕ → Environment → Session → Option (Bool × Session)
extend_time_remaining now e s = elim (is_extension_permitted now e s) [
  | none ↦ none
  | some false ↦ some (false, s)
  | some true ↦ elim (extended e s) [ none ↦ none | some s' ↦ some (true, s') ]
]
