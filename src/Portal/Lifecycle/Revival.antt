-- ===== src/Portal/Lifecycle/Revival.antt =====
-- A session that is being deleted can be activated, by session_activate of views/session.py.
use educates_training_platfo.Prelude.{
  ℕ, String, Bool, true, false, not, ◌≡◌, refl, none, some, List, [], ◌∷◌, inl, inr, truthy, is_iff,
  arith, Bool-cases, both,
}
use educates_training_platfo.Portal.Models.{
  SessionState, Environment, Session, TrainingPortal, same_name, is_stopped, is_stopping,
  mark_as_running,
}
use educates_training_platfo.Portal.Expiry.{is_running_session}
use educates_training_platfo.Portal.Sessions.{first, change_first, change_sessions}
use educates_training_platfo.Portal.Sessions.Counts.{first_passes}
use educates_training_platfo.Portal.Lifecycle.{
  Requester, live, allocated_session, gone, running, run_in, activate_found, session_activate,
  find_environment,
}

-- The row that was found first is found again, if it still passes.
pub first-change_first :
    (q : Session → Bool) (f : Session → Session) (ss : List Session) (s : Session)
    → first q ss ≡ some s
    → q (f s) ≡ true
    → first q (change_first q f ss) ≡ some (f s)
unfolding first change_first
first-change_first q f [] s h k = absurd (ground (arith, h))
first-change_first q f (t ∷ ss) s h k = elim (Bool-cases (q t)) [
  | inl y ↦ let same : t ≡ s = ground (arith, h, y) in rw (y, same) (rw k refl)
  | inr n ↦ rw n (rw n (first-change_first q f ss s (rw n at h) k))
]

stopping_idle : (s : Session) → is_stopping s ≡ true → is_running_session s ≡ false
stopping_idle s h = by_state s.state h
  where
    by_state :
        (state : SessionState)
        → elim state [ SessionState.stopping ↦ true | _ ↦ false ] ≡ true
        → elim state [ SessionState.running ↦ true | _ ↦ false ] ≡ false
    by_state SessionState.running h = absurd (ground (arith, h))
    by_state SessionState.starting h = refl
    by_state SessionState.waiting h = refl
    by_state SessionState.stopping h = refl
    by_state SessionState.stopped h = refl

-- With its token, a session of an active user that is already marked as stopping, and so is about
-- to be deleted, is made to run again.
pub session_activate_revives :
    (now : ℕ) (active : String → Bool) (r : Requester) (name : List ℕ) (p : TrainingPortal)
    (s : Session) (e : Environment) (token owner : String)
    → truthy token ≡ true
    → gone r.username name p ≡ none
    → allocated_session name p ≡ some s
    → is_stopping s ≡ true
    → s.token ≡ some token
    → s.owner ≡ some owner
    → active owner ≡ true
    → find_environment s.environment p.environments ≡ some e
    → allocated_session name (session_activate now active (some token) r name p).1
      ≡ some (mark_as_running now e none s)
unfolding session_activate activate_found allocated_session change_sessions running run_in
    mark_as_running
session_activate_revives now active r name p s e token owner g k found stopping h o a env =
    let (named, alive) =
      both (same_name s.name name) (not (is_stopped s))
        (first_passes (live name) p.sessions s found) in
    let again =
      first-change_first (live name) (running now p) p.sessions s found
        (rw (running, env) (rw named refl)) in
    ground (
      arith,
      g,
      k,
      found,
      stopping,
      stopping_idle s stopping,
      (is_iff s.token token).1 h,
      o,
      a,
      env,
      again,
    )
