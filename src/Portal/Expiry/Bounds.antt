-- ===== src/Portal/Expiry/Bounds.antt =====
-- What an extension of a session of models.py does to its time of expiry.
use educates_training_platfo.Prelude.{
  ℕ, ◌+◌, ◌*◌, ◌≤◌, ◌<◌, min, true, ◌≡◌, some, leb, arith, Bool-cases, Option-cases, inl, inr,
}
use educates_training_platfo.Portal.Models.{Environment, Session, second}
use educates_training_platfo.Portal.Expiry.{
  extension_threshold, extension_duration, extension_due, is_extension_permitted, extended_to,
  extended, extend_time_remaining,
}

-- The time of expiry, where there is one.
abbrev pub ExpiresAt : Session → ℕ → Type 0
ExpiresAt s t = s.expires ≡ some t

extension_duration-positive : (e : Environment) → 300 * second ≤ extension_duration e
unfolding extension_duration extension_threshold
extension_duration-positive e = ground arith

-- What an extension that is granted says of the session before it.
pub record IsExtended (e : Environment) (s s' : Session) : Type 0 where
  pub started : ℕ
  pub before : ℕ
  pub after : ℕ
  pub has_started : s.started ≡ some started
  pub had : ExpiresAt s before
  pub has : s' ≡ record s { expires = some after }
  pub later : before < after
  pub limit : after ≤ started + e.deadline
  pub step : after ≤ before + extension_duration e

-- An extension that is granted moves the time of expiry later, by at most the environment's
-- extension, and not past its deadline, and changes nothing else of the session.
pub extend_time_remaining-IsExtended :
    (now : ℕ) (e : Environment) (s s' : Session)
    → extend_time_remaining now e s ≡ some (true, s')
    → IsExtended e s s'
unfolding extend_time_remaining is_extension_permitted extension_due extended extended_to
extend_time_remaining-IsExtended now e s s' h = elim (Option-cases s.expires) [
  | inl f ↦ absurd (ground (arith, h, f))
  | inr (t, f) ↦ elim (Option-cases s.started) [
    | inl g ↦ absurd (ground (arith, h, f, g))
    | inr (b, g) ↦ elim (Bool-cases (leb (b + e.deadline) t)) [
      | inl y ↦ absurd (ground (arith, h, f, g, y))
      | inr n ↦ record {
        started = b;
        before = t;
        after = min (t + extension_duration e) (b + e.deadline);
        has_started = g;
        had = f;
        has = ground (arith, h, f, g, n);
        later = ground (arith, n, extension_duration-positive e);
        limit = ground arith;
        step = ground arith;
      }
    ]
  ]
]
