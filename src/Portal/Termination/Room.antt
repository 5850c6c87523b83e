-- ===== src/Portal/Termination/Room.antt =====
-- What terminate_reserved_sessions of manager/sessions.py achieves.
use mathlib.Core.List.{Memᴰ}
use mathlib.Core.List.Memᴰ
use educates_training_platfo.Prelude.{
  ℕ, zero, suc, ◌+◌, ◌-◌, ◌≤◌, Bool, true, false, ◌≡◌, refl, ◌⊎◌, inl, inr, Option, none, some,
  List, [], ◌∷◌, ◌==◌, ltb, count, arith, Bool-cases, both, sym, ◌∙◌, subst, ap,
}
use educates_training_platfo.Portal.Models.{
  Environment, Session, TrainingPortal, is_available, is_allocated, is_active, is_ready,
  ready_sessions_count, active_sessions_count, mark_as_stopping,
}
use educates_training_platfo.Portal.Reserved.{running_environments}
use educates_training_platfo.Portal.Sessions.{
  change_sessions, created_at, first_created, stop_created_at, stop_oldest,
}
use educates_training_platfo.Portal.Sessions.Counts.{
  change_first-count, first_passes, kinds-count, held, held_one, one_if,
}
use educates_training_platfo.Portal.Sessions.Bounds.{
  first_created-first, first_created-none, stopping_weightless, stop_created_at-maximum,
}
use educates_training_platfo.Portal.Termination.{
  stop_first, trim, trim_environment, trim_environments, stop_oldest_of, trim_portal,
  terminate_reserved_sessions,
}
use educates_training_platfo.Portal.Termination.Stops.{
  Stops, stop_oldest_of-Stops, stopping-available, trim_environments-Stops, trim_portal-Stops,
}

-- Stopping the oldest reserved session makes one less, where there is one.
stop_created_at-held :
    (now : ℕ) (p : TrainingPortal) (m : Option ℕ)
    → first_created p.sessions ≡ m
    → ((count is_available p.sessions ≡ 0) × (stop_created_at now p m ≡ p))
      ⊎ (held (stop_created_at now p m).sessions + 1 ≡ held p.sessions)
unfolding stop_created_at change_sessions
stop_created_at-held now p none e = inl (first_created-none p.sessions e, refl)
stop_created_at-held now p (some m) e =
    let (s, f) = first_created-first p.sessions m e in
    let (a, b) =
      both (is_available s) (s.created == m) (first_passes (created_at m) p.sessions s f) in
    inr (
      omega (
        arith,
        change_first-count (created_at m) is_allocated (mark_as_stopping now) p.sessions s f,
        change_first-count (created_at m) is_available (mark_as_stopping now) p.sessions s f,
        stopping_weightless now s a,
        available_weight s a,
      ))
  where
    available_weight : (s : Session) → is_available s ≡ true → held_one s ≡ 1
    available_weight s a = ground (arith, a)

-- A count of rows that none is among which is stopping does not grow.
Stops-count :
    (now : ℕ) (q : Session → Bool)
    → ((s : Session) → q (mark_as_stopping now s) ≡ false)
    → (ss ts : List Session) → Stops now ss ts
    → count q ts ≤ count q ss
Stops-count now q never [] [] h = omega arith
Stops-count now q never [] (t ∷ ts) h = elim h [ ]
Stops-count now q never (s ∷ ss) [] h = elim h [ ]
Stops-count now q never (s ∷ ss) (t ∷ ts) (inl e, h) =
    rw e (omega (arith, Stops-count now q never ss ts h))
Stops-count now q never (s ∷ ss) (t ∷ ts) (inr (a, e), h) =
    rw (e, never s) (omega (arith, Stops-count now q never ss ts h))

stop_oldest_of-held :
    (now n : ℕ) (p : TrainingPortal)
    → (count is_available (stop_oldest_of now n p).sessions ≡ 0)
      ⊎ (held (stop_oldest_of now n p).sessions + n ≡ held p.sessions)
unfolding stop_oldest_of stop_oldest
stop_oldest_of-held now zero p = inr (omega arith)
stop_oldest_of-held now (suc n) p =
    let p' = stop_created_at now p (first_created p.sessions) in
    elim (stop_oldest_of-held now n p') [
      | inl z ↦ inl z
      | inr k ↦ elim (stop_created_at-held now p (first_created p.sessions) refl) [
        | inl (z, same) ↦ inl (
            omega (
              arith,
              z,
              ap (λ (d : TrainingPortal). count is_available d.sessions) same,
              Stops-count now is_available (stopping-available now) p'.sessions
                  (stop_oldest_of now n p').sessions (stop_oldest_of-Stops now n p'),
            ))
        | inr h ↦ inr (omega (arith, k, h))
      ]
    ]

trim_portal-held :
    (now : ℕ) (p : TrainingPortal)
    → (p.sessions_maximum ≡ 0)
      ⊎ (count is_available (trim_portal now p).sessions ≡ 0)
      ⊎ (held (trim_portal now p).sessions ≤ p.sessions_maximum)
unfolding trim_portal active_sessions_count
trim_portal-held now p = elim (Bool-cases (p.sessions_maximum == 0)) [
  | inl z ↦ inl (ground (arith, z))
  | inr k ↦
      let n = count is_active p.sessions - p.sessions_maximum in
      elim (stop_oldest_of-held now n p) [
        | inl z ↦ inr (inl (rw k z))
        | inr h ↦ inr (inr (rw k (omega (arith, h, kinds-count p.sessions))))
      ]
]

stopping-ready :
    (now : ℕ) (e : Environment) (s : Session) → is_ready e (mark_as_stopping now s) ≡ false
unfolding mark_as_stopping
stopping-ready now e s = ground arith

stopping-one :
    (now : ℕ) (e : Environment) (s : Session) → one_if (is_ready e (mark_as_stopping now s)) ≡ 0
stopping-one now e s = rw (stopping-ready now e s) refl

-- The first rows of a query, once stopped, are not among it.
stop_first-count :
    (now n : ℕ) (e : Environment) (ss : List Session)
    → count (is_ready e) (stop_first now (is_ready e) n ss) ≤ count (is_ready e) ss - n
unfolding stop_first
stop_first-count now zero e ss = omega arith
stop_first-count now (suc n) e [] = omega arith
stop_first-count now (suc n) e (s ∷ ss) = elim (Bool-cases (is_ready e s)) [
  | inl y ↦ rw y (omega (arith, stopping-one now e s, stop_first-count now n e ss))
  | inr k ↦ rw k (rw k (omega (arith, stop_first-count now (suc n) e ss)))
]

trim_environment-ready :
    (now : ℕ) (e : Environment) (p : TrainingPortal)
    → e.initial ≤ e.reserved
    → count (is_ready e) (trim_environment now e p).sessions ≤ e.reserved
unfolding trim_environment trim ready_sessions_count
trim_environment-ready now e p h =
    let n = count (is_ready e) p.sessions - e.reserved in
    let fits : ltb e.reserved e.initial ≡ false = ground arith in
    rw fits (omega (arith, stop_first-count now n e p.sessions))

trim_environments-ready :
    (now : ℕ) (e : Environment) (es : List Environment) (p : TrainingPortal)
    → Memᴰ e es
    → e.initial ≤ e.reserved
    → count (is_ready e) (trim_environments now es p).sessions ≤ e.reserved
unfolding trim_environments
trim_environments-ready now e [] p m h = absurd (Memᴰ.not-nil m)
trim_environments-ready now e (f ∷ es) p (Memᴰ.head same) h =
    let p' = trim_environment now f p in
    omega (
      arith,
      subst
          (λ (g : Environment). count (is_ready e) (trim_environment now g p).sessions ≤ e.reserved)
          same (trim_environment-ready now e p h),
      Stops-count now (is_ready e) (stopping-ready now e) p'.sessions
          (trim_environments now es p').sessions (trim_environments-Stops now es p'),
    )
trim_environments-ready now e (f ∷ es) p (Memᴰ.tail m) h =
    trim_environments-ready now e es (trim_environment now f p) m h

-- The portal keeps its maximum.
trim_environment-maximum :
    (now : ℕ) (e : Environment) (p : TrainingPortal)
    → (trim_environment now e p).sessions_maximum ≡ p.sessions_maximum
unfolding trim_environment trim
trim_environment-maximum now e p = ground arith

pub trim_environments-maximum :
    (now : ℕ) (es : List Environment) (p : TrainingPortal)
    → (trim_environments now es p).sessions_maximum ≡ p.sessions_maximum
unfolding trim_environments
trim_environments-maximum now [] p = refl
trim_environments-maximum now (e ∷ es) p =
    trim_environments-maximum now es (trim_environment now e p) ∙ trim_environment-maximum now e p

stop_oldest_of-maximum :
    (now n : ℕ) (p : TrainingPortal)
    → (stop_oldest_of now n p).sessions_maximum ≡ p.sessions_maximum
unfolding stop_oldest_of stop_oldest
stop_oldest_of-maximum now zero p = refl
stop_oldest_of-maximum now (suc n) p =
    let m = first_created p.sessions in
    stop_oldest_of-maximum now n (stop_created_at now p m) ∙ stop_created_at-maximum now p m

pub terminate_reserved_sessions-maximum :
    (now : ℕ) (p : TrainingPortal)
    → (terminate_reserved_sessions now p).sessions_maximum ≡ p.sessions_maximum
unfolding terminate_reserved_sessions trim_portal
terminate_reserved_sessions-maximum now p =
    let es = running_environments p.environments in
    let p' = trim_environments now es p in
    ground (
      arith,
      trim_environments-maximum now es p,
      stop_oldest_of-maximum now (active_sessions_count p' - p'.sessions_maximum) p',
    )

-- After reserved sessions are given up, the portal has no maximum, or nothing in reserve, or the
-- sessions that are a user's and those in reserve are within the maximum. And a running environment
-- whose initial sessions are not more than its reserved ones has no more waiting than these.
pub terminate_reserved_sessions_room :
    (now : ℕ) (p : TrainingPortal)
    → ((p.sessions_maximum ≡ 0)
        ⊎ (count is_available (terminate_reserved_sessions now p).sessions ≡ 0)
        ⊎ (held (terminate_reserved_sessions now p).sessions ≤ p.sessions_maximum))
      × ((e : Environment)
          → Memᴰ e (running_environments p.environments)
          → e.initial ≤ e.reserved
          → ready_sessions_count e (terminate_reserved_sessions now p) ≤ e.reserved)
unfolding terminate_reserved_sessions ready_sessions_count
terminate_reserved_sessions_room now p =
    let es = running_environments p.environments in
    let p' = trim_environments now es p in
    let same = trim_environments-maximum now es p in
    (
      elim (trim_portal-held now p') [
        | inl z ↦ inl (sym same ∙ z)
        | inr (inl z) ↦ inr (inl z)
        | inr (inr h) ↦ inr (inr (omega (arith, h, same)))
      ],
      λ e m h. omega (
        arith,
        trim_environments-ready now e es p m h,
        Stops-count now (is_ready e) (stopping-ready now e) p'.sessions
            (trim_portal now p').sessions (trim_portal-Stops now p'),
      ),
    )
