-- ===== src/Portal/Termination/Stops.antt =====
-- What terminate_reserved_sessions of manager/sessions.py may change.
use educates_training_platfo.Prelude.{
  ℕ, zero, suc, ◌-◌, Bool, true, false, ◌≡◌, refl, ◌∙◌, ◌⊎◌, inl, inr, Option, none, some, List, [],
  ◌∷◌, ◌==◌, ltb, if◌then◌else◌, arith, Bool-cases, ap, both,
}
use educates_training_platfo.Portal.Models.{
  Environment, Session, TrainingPortal, is_available, is_ready, ready_sessions_count,
  all_sessions_count_in, active_sessions_count, mark_as_stopping,
}
use educates_training_platfo.Portal.Reserved.{running_environments}
use educates_training_platfo.Portal.Sessions.{
  change_first, change_sessions, created_at, first_created, stop_created_at, stop_oldest,
}
use educates_training_platfo.Portal.Sessions.Room.{ready_available}
use educates_training_platfo.Portal.Termination.{
  stop_first, trim, trim_environment, trim_environments, stop_oldest_of, trim_portal,
  terminate_reserved_sessions,
}

-- The row is as it was, or it was a reserved session and is marked as stopping.
abbrev pub KeptOrStopped : ℕ → Session → Session → Type 0
KeptOrStopped now s t = (t ≡ s) ⊎ ((is_available s ≡ true) × (t ≡ mark_as_stopping now s))

abbrev pub Stops : ℕ → List Session → List Session → Type 0
Stops now [] [] = Unit
Stops now (s ∷ ss) (t ∷ ts) = KeptOrStopped now s t × Stops now ss ts
Stops now _ _ = ⊥

Stops-refl : (now : ℕ) (ss : List Session) → Stops now ss ss
Stops-refl now [] = tt
Stops-refl now (s ∷ ss) = (inl refl, Stops-refl now ss)

-- A session that is stopped is no longer in reserve.
pub stopping-available : (now : ℕ) (s : Session) → is_available (mark_as_stopping now s) ≡ false
unfolding mark_as_stopping
stopping-available now s = ground arith

KeptOrStopped-trans :
    (now : ℕ) (s t u : Session)
    → KeptOrStopped now s t
    → KeptOrStopped now t u
    → KeptOrStopped now s u
KeptOrStopped-trans now s t u (inl e) (inl f) = inl (f ∙ e)
KeptOrStopped-trans now s t u (inl e) (inr (a, f)) =
    inr (rw (← e) a, f ∙ ap (λ (x : Session). mark_as_stopping now x) e)
KeptOrStopped-trans now s t u (inr (a, e)) (inl f) = inr (a, f ∙ e)
KeptOrStopped-trans now s t u (inr (a, e)) (inr (b, f)) =
    absurd (ground (arith, b, e, stopping-available now s))

Stops-trans :
    (now : ℕ) (ss ts us : List Session) → Stops now ss ts → Stops now ts us → Stops now ss us
Stops-trans now [] [] [] h k = tt
Stops-trans now [] [] (u ∷ us) h k = elim k [ ]
Stops-trans now [] (t ∷ ts) us h k = elim h [ ]
Stops-trans now (s ∷ ss) [] us h k = elim h [ ]
Stops-trans now (s ∷ ss) (t ∷ ts) [] h k = elim k [ ]
Stops-trans now (s ∷ ss) (t ∷ ts) (u ∷ us) h k =
    (KeptOrStopped-trans now s t u h.0 k.0, Stops-trans now ss ts us h.1 k.1)

module _ (now : ℕ) (q : Session → Bool)
    (only : (s : Session) → q s ≡ true → is_available s ≡ true) where
  stop_first-Stops : (n : ℕ) (ss : List Session) → Stops now ss (stop_first now q n ss)
  unfolding stop_first
  stop_first-Stops zero ss = Stops-refl now ss
  stop_first-Stops (suc n) [] = tt
  stop_first-Stops (suc n) (s ∷ ss) = elim (Bool-cases (q s)) [
    | inl y ↦ rw y (inr (only s y, refl), stop_first-Stops n ss)
    | inr k ↦ rw k (inl refl, stop_first-Stops (suc n) ss)
  ]

  change_first-Stops : (ss : List Session) → Stops now ss (change_first q (mark_as_stopping now) ss)
  unfolding change_first
  change_first-Stops [] = tt
  change_first-Stops (s ∷ ss) = elim (Bool-cases (q s)) [
    | inl y ↦ rw y (inr (only s y, refl), Stops-refl now ss)
    | inr k ↦ rw k (inl refl, change_first-Stops ss)
  ]

if-Stops :
    (now : ℕ) (b : Bool) (p x y : TrainingPortal)
    → Stops now p.sessions x.sessions
    → Stops now p.sessions y.sessions
    → Stops now p.sessions (if b then x else y).sessions
if-Stops now true p x y h k = h
if-Stops now false p x y h k = k

pub trim_environment-Stops :
    (now : ℕ) (e : Environment) (p : TrainingPortal)
    → Stops now p.sessions (trim_environment now e p).sessions
unfolding trim_environment trim
trim_environment-Stops now e p =
    let same = Stops-refl now p.sessions in
    let trimmed =
      stop_first-Stops now (is_ready e) (ready_available e) (ready_sessions_count e p - e.reserved)
        p.sessions in
    let inner = if ltb e.reserved (ready_sessions_count e p) then p else trim now e p in
    if-Stops now (ltb e.reserved e.initial) p _ _
      (if-Stops now (ltb (all_sessions_count_in e p) (e.initial - e.reserved)) p p inner same
        (if-Stops now (ltb e.reserved (ready_sessions_count e p)) p p (trim now e p) same trimmed))
      trimmed

pub trim_environments-Stops :
    (now : ℕ) (es : List Environment) (p : TrainingPortal)
    → Stops now p.sessions (trim_environments now es p).sessions
unfolding trim_environments
trim_environments-Stops now [] p = Stops-refl now p.sessions
trim_environments-Stops now (e ∷ es) p =
    let p' = trim_environment now e p in
    Stops-trans now p.sessions p'.sessions (trim_environments now es p').sessions
      (trim_environment-Stops now e p) (trim_environments-Stops now es p')

created_available : (m : ℕ) (s : Session) → created_at m s ≡ true → is_available s ≡ true
created_available m s h = (both (is_available s) (s.created == m) h).0

stop_created_at-Stops :
    (now : ℕ) (p : TrainingPortal) (m : Option ℕ)
    → Stops now p.sessions (stop_created_at now p m).sessions
unfolding stop_created_at change_sessions
stop_created_at-Stops now p none = Stops-refl now p.sessions
stop_created_at-Stops now p (some m) =
    change_first-Stops now (created_at m) (created_available m) p.sessions

pub stop_oldest_of-Stops :
    (now n : ℕ) (p : TrainingPortal) → Stops now p.sessions (stop_oldest_of now n p).sessions
unfolding stop_oldest_of stop_oldest
stop_oldest_of-Stops now zero p = Stops-refl now p.sessions
stop_oldest_of-Stops now (suc n) p =
    let p' = stop_oldest now p in
    Stops-trans now p.sessions p'.sessions (stop_oldest_of now n p').sessions
      (stop_created_at-Stops now p (first_created p.sessions)) (stop_oldest_of-Stops now n p')

pub trim_portal-Stops :
    (now : ℕ) (p : TrainingPortal) → Stops now p.sessions (trim_portal now p).sessions
unfolding trim_portal
trim_portal-Stops now p =
    if-Stops now (p.sessions_maximum == 0) p p _ (Stops-refl now p.sessions)
      (stop_oldest_of-Stops now (active_sessions_count p - p.sessions_maximum) p)

-- Giving up reserved sessions leaves every session as it is, save that some of those that are in
-- reserve, starting or waiting without an owner, are marked as stopping.
pub terminate_reserved_sessions-Stops :
    (now : ℕ) (p : TrainingPortal)
    → Stops now p.sessions (terminate_reserved_sessions now p).sessions
unfolding terminate_reserved_sessions
terminate_reserved_sessions-Stops now p =
    let p' = trim_environments now (running_environments p.environments) p in
    Stops-trans now p.sessions p'.sessions (trim_portal now p').sessions
      (trim_environments-Stops now (running_environments p.environments) p)
      (trim_portal-Stops now p')
