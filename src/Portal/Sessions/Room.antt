-- ===== src/Portal/Sessions/Room.antt =====
-- Room for one more session in a portal, and the replacement of a reserved session of
-- manager/sessions.py.
use educates_training_platfo.Prelude.{
  ℕ, ◌+◌, ◌≤◌, Bool, true, false, not, ◌&&◌, ◌≡◌, refl, ◌⊎◌, inl, inr, Option, List, [], ◌∷◌, ◌++◌,
  ◌==◌, leb, if◌then◌else◌, is_some, arith, Bool-cases, Option-cases, both,
}
use educates_training_platfo.Portal.Models.{
  SessionState, Environment, Session, User, TrainingPortal, of_environment, is_available,
  is_allocated, is_ready, is_owned_in, is_fresh, is_waiting, active_sessions_count,
  ready_sessions_count, active_sessions_count_in,
}
use educates_training_platfo.Portal.Reserved.{
  new_session, setup_workshop_session, create_new_session, replace_reserved_session,
  save_environment,
}
use educates_training_platfo.Portal.Sessions.Counts.{
  count-append, kinds-count, Within, held_one-bound,
}

waiting_fresh : (s : Session) → is_waiting s ≡ true → is_fresh s ≡ true
waiting_fresh s h = by_state s.state h
  where
    by_state :
        (state : SessionState)
        → elim state [ SessionState.waiting ↦ true | _ ↦ false ] ≡ true
        → elim state [ SessionState.starting ↦ true | SessionState.waiting ↦ true | _ ↦ false ]
          ≡ true
    by_state SessionState.starting e = refl
    by_state SessionState.waiting e = refl
    by_state SessionState.running e = e
    by_state SessionState.stopping e = e
    by_state SessionState.stopped e = e

pub ready_available : (e : Environment) (s : Session) → is_ready e s ≡ true → is_available s ≡ true
ready_available e s h =
    let (a, d) = both (of_environment e s && not (is_some s.owner)) (is_waiting s) h in
    let (b, c) = both (of_environment e s) (not (is_some s.owner)) a in
    ground (arith, c, waiting_fresh s d)

pub owned_allocated :
    (e : Environment) (user : User) (s : Session)
    → is_owned_in e user s ≡ true
    → is_allocated s ≡ true
owned_allocated e user s h = elim (Option-cases s.owner) [
  | inl f ↦ absurd (ground (arith, h, f))
  | inr (o, f) ↦ ground (arith, h, f)
]

-- One more session fits where the sessions that are not stopped are fewer than the maximum.
one_more :
    (p : TrainingPortal) (s : Session) (es : List Environment)
    → active_sessions_count p + 1 ≤ p.sessions_maximum
    → Within (record p { environments = es; sessions = p.sessions ++ s ∷ [] })
unfolding active_sessions_count
one_more p s es h = inr (
    omega (
      arith,
      h,
      kinds-count p.sessions,
      held_one-bound s,
      count-append is_allocated p.sessions s,
      count-append is_available p.sessions s,
    ))

if-Within :
    (b : Bool) (x y : TrainingPortal)
    → (b ≡ true → Within x)
    → (b ≡ false → Within y)
    → Within (if b then x else y)
if-Within true x y left right = left refl
if-Within false x y left right = right refl

pub if-Within_after :
    (b : Bool) (x y : Option Session × TrainingPortal)
    → (b ≡ true → Within x.1)
    → (b ≡ false → Within y.1)
    → Within (if b then x else y).1
if-Within_after true x y left right = left refl
if-Within_after false x y left right = right refl

create_new_session-Within :
    (now : ℕ) (e : Environment) (p : TrainingPortal)
    → (p.sessions_maximum ≡ 0) ⊎ (active_sessions_count p + 1 ≤ p.sessions_maximum)
    → Within (create_new_session now e p)
unfolding create_new_session setup_workshop_session
create_new_session-Within now e p (inl h) = inl h
create_new_session-Within now e p (inr h) =
    let e' = record e { tally = e.tally + 1 } in
    one_more p (new_session now e') (save_environment e' p.environments) h

pub room :
    (p : TrainingPortal)
    → (not (p.sessions_maximum == 0) && leb p.sessions_maximum (active_sessions_count p)) ≡ false
    → (p.sessions_maximum ≡ 0) ⊎ (active_sessions_count p + 1 ≤ p.sessions_maximum)
room p h = elim (Bool-cases (p.sessions_maximum == 0)) [
  | inl t ↦ inl (ground (arith, t))
  | inr f ↦ inr (ground (arith, f, h))
]

pub replace_reserved_session-Within :
    (now : ℕ) (e : Environment) (p : TrainingPortal)
    → Within p
    → Within (replace_reserved_session now e p)
unfolding replace_reserved_session
replace_reserved_session-Within now e p h =
    let full = not (p.sessions_maximum == 0) && leb p.sessions_maximum (active_sessions_count p) in
    let one = if full then p else create_new_session now e p in
    let two = if leb e.capacity (active_sessions_count_in e p) then p else one in
    let three = if leb e.reserved (ready_sessions_count e p) then p else two in
    if-Within (e.reserved == 0) p three (λ _. h)
      (λ _.
        if-Within (leb e.reserved (ready_sessions_count e p)) p two (λ _. h)
          (λ _.
            if-Within (leb e.capacity (active_sessions_count_in e p)) p one (λ _. h)
              (λ _.
                if-Within full p (create_new_session now e p) (λ _. h)
                  (λ t. create_new_session-Within now e p (room p t)))))
