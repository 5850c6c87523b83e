-- ===== src/Portal/Reserved/Maximum.antt =====
-- How many sessions `initiate_reserved_sessions` of manager/sessions.py makes.
use educates_training_platfo.Prelude.{
  ℕ, zero, suc, ◌+◌, ◌-◌, ◌≤◌, min, false, ◌≡◌, refl, inl, inr, List, [], ◌∷◌, ◌==◌, leb,
  if◌then◌else◌, count, arith, Bool-cases, str_eq, ◌∙◌,
}
use educates_training_platfo.Portal.Models.{
  Environment, TrainingPortal, is_active, is_active_in, active_sessions_count,
}
use educates_training_platfo.Portal.Reserved.{
  new_session, setup_workshop_session, setup_many, spare_in, running_environments, initiate_limited,
  initiate_reserved_sessions,
}
use educates_training_platfo.Portal.Sessions.Counts.{count-append}

pub setup_many-active :
    (now n : ℕ) (e : Environment) (p : TrainingPortal)
    → count is_active (setup_many now n e p).sessions ≡ count is_active p.sessions + n
unfolding setup_many setup_workshop_session new_session
setup_many-active now zero e p = omega arith
setup_many-active now (suc n) e p =
    let e' = record e { tally = e.tally + 1 } in
    omega (
      arith,
      setup_many-active now n e' (setup_workshop_session now e p).1,
      count-append is_active p.sessions (new_session now e'),
    )

pub setup_many-maximum :
    (now n : ℕ) (e : Environment) (p : TrainingPortal)
    → (setup_many now n e p).sessions_maximum ≡ p.sessions_maximum
unfolding setup_many setup_workshop_session
setup_many-maximum now zero e p = refl
setup_many-maximum now (suc n) e p =
    setup_many-maximum now n (record e { tally = e.tally + 1 }) (setup_workshop_session now e p).1

pub setup_many-active_in :
    (now n : ℕ) (e f : Environment) (p : TrainingPortal)
    → count (is_active_in f) (setup_many now n e p).sessions
      ≡ count (is_active_in f) p.sessions + (if str_eq e.name f.name then n else 0)
unfolding setup_many setup_workshop_session new_session
setup_many-active_in now zero e f p = ground arith
setup_many-active_in now (suc n) e f p =
    let e' = record e { tally = e.tally + 1 } in
    ground (
      arith,
      setup_many-active_in now n e' f (setup_workshop_session now e p).1,
      count-append (is_active_in f) p.sessions (new_session now e'),
    )

initiate_limited-active :
    (now spare : ℕ) (es : List Environment) (p : TrainingPortal)
    → count is_active (initiate_limited now spare es p).sessions
      ≤ count is_active p.sessions + spare
unfolding initiate_limited
initiate_limited-active now spare [] p = omega arith
initiate_limited-active now spare (e ∷ es) p =
    let n = min (spare_in e p) spare in
    let p' = setup_many now n e p in
    let made = setup_many-active now n e p in
    elim (Bool-cases ((spare - n) == 0)) [
      | inl t ↦ rw t (omega (arith, made))
      | inr f ↦ rw f (omega (arith, made, initiate_limited-active now (spare - n) es p'))
    ]

initiate_limited-maximum :
    (now spare : ℕ) (es : List Environment) (p : TrainingPortal)
    → (initiate_limited now spare es p).sessions_maximum ≡ p.sessions_maximum
unfolding initiate_limited
initiate_limited-maximum now spare [] p = refl
initiate_limited-maximum now spare (e ∷ es) p =
    let n = min (spare_in e p) spare in
    let made = setup_many-maximum now n e p in
    elim (Bool-cases ((spare - n) == 0)) [
      | inl t ↦ rw t made
      | inr f ↦ rw f (initiate_limited-maximum now (spare - n) es (setup_many now n e p) ∙ made)
    ]

-- The maximum of the portal is not exceeded by making reserved sessions, if it has one and it was
-- not exceeded before.
pub initiate_reserved_sessions-maximum :
    (now : ℕ) (p : TrainingPortal)
    → (p.sessions_maximum == 0) ≡ false
    → active_sessions_count p ≤ p.sessions_maximum
    → ((initiate_reserved_sessions now p).sessions_maximum ≡ p.sessions_maximum)
      × (active_sessions_count (initiate_reserved_sessions now p) ≤ p.sessions_maximum)
unfolding initiate_reserved_sessions active_sessions_count
initiate_reserved_sessions-maximum now p z h =
    let es = running_environments p.environments in
    let spare = p.sessions_maximum - count is_active p.sessions in
    elim (Bool-cases (leb p.sessions_maximum (count is_active p.sessions))) [
      | inl t ↦ rw (z, t) (refl, h)
      | inr f ↦
          rw (z, f)
            (
              initiate_limited-maximum now spare es p,
              omega (arith, h, initiate_limited-active now spare es p),
            )
    ]
