-- ===== src/Portal/History/Within.antt =====
-- The maximum number of sessions of a portal, under everything that changes its sessions.
use educates_training_platfo.Prelude.{
  default, ℕ, ◌+◌, ◌≤◌, String, Bool, true, false, not, ◌&&◌, ◌≡◌, refl, ◌⊎◌, inl, inr, Option,
  none, some, List, [], ◌∷◌, ◌==◌, leb, is_some, count, keep, arith, Bool-cases, Option-cases, both,
  ◌∙◌, sym, ap, subst,
}
use educates_training_platfo.Portal.Models.{
  SessionState, Environment, Session, TrainingPortal, is_available, is_allocated, is_stopped,
  same_name, active_sessions_count, mark_as_stopped,
}
use educates_training_platfo.Portal.Reserved.{
  initiate_reserved_sessions, initiate_unlimited, setup_many, spare_in, running_environments,
}
use educates_training_platfo.Portal.Reserved.Maximum.{
  setup_many-maximum, initiate_reserved_sessions-maximum,
}
use educates_training_platfo.Portal.Sessions.Counts.{
  one_if, kinds-count, held, held_one, held_one-bound, Within, change_sessions-Within,
}
use educates_training_platfo.Portal.Sessions.Room.{replace_reserved_session-Within}
use educates_training_platfo.Portal.Sessions.Bounds.{retrieve_session_for_user-Within}
use educates_training_platfo.Portal.Termination.{terminate_reserved_sessions}
use educates_training_platfo.Portal.Termination.Room.{terminate_reserved_sessions-maximum}
use educates_training_platfo.Portal.Termination.Stops.{terminate_reserved_sessions-Stops}
use educates_training_platfo.Portal.Lifecycle.{Requester, View, handle}
use educates_training_platfo.Portal.Cleanup.{
  deployed, is_starting, create_workshop_session, delete_workshop_session, is_old,
  cleanup_old_sessions,
}
use educates_training_platfo.Portal.Lifecycle.Moves.{IsMoved, Moves}
use educates_training_platfo.Portal.Lifecycle.Permitted.{handle-Moves}
use educates_training_platfo.Portal.Environments.{
  update_workshop_environments, process_workshop_environment,
}
use educates_training_platfo.Portal.History.Lighter.{
  Lighter, Lighter-held, held-Within, Stops-Lighter,
}
use educates_training_platfo.Portal.History.Environments.{
  activate_workshop_environment-Within, shutdown_workshop_environments-Within,
  refresh_workshop_environments-Within, delete_workshop_environments-Within,
  update_workshop_environments-Within, process_workshop_environment-Within, workshop_event-Within,
}
use educates_training_platfo.Portal.History.{
  Operation, retrieve, view, deploy, delete_session, replace_reserved, initiate_reserved,
  terminate_reserved, cleanup, activate_environment, shutdown, refresh, delete_environments,
  update_environments, process, change_workshop, perform, perform_all,
}

-- A row that is stopping weighs no more than its owner does, and a row with an owner at most one.
moved_lighter :
    (r : Requester) (name : List ℕ) (v : View) (s t : Session)
    → (t ≡ s) ⊎ IsMoved r name v s t
    → held_one t ≤ held_one s
moved_lighter r name v s t (inl e) = rw e (omega arith)
moved_lighter r name v s t (inr m) = elim (Option-cases s.owner) [
  | inr (o, f) ↦ omega (arith, held_one-bound t, owned_heavy s o f m.alive)
  | inl f ↦ elim m.next [
    | inl e ↦ same_weight s t f (m.same_owner ∙ f) e
    | inr (inl e) ↦ omega (arith, no_weight t (m.same_owner ∙ f) e)
    | inr (inr (e, w)) ↦ absurd (ground (arith, f, w))
  ]
]
  where
    owned_heavy :
        (s : Session) (o : String) → s.owner ≡ some o → is_stopped s ≡ false → 1 ≤ held_one s
    owned_heavy s o f a = ground (arith, f, a)

    same_weight :
        (s t : Session)
        → s.owner ≡ none
        → t.owner ≡ none
        → t.state ≡ s.state
        → held_one t ≤ held_one s
    same_weight s t f g e = rw (f, g, e) (omega arith)

    no_weight : (t : Session) → t.owner ≡ none → t.state ≡ SessionState.stopping → held_one t ≡ 0
    no_weight t f e = rw (f, e) refl

Moves-Lighter :
    (r : Requester) (name : List ℕ) (v : View) (ss ts : List Session)
    → Moves r name v ss ts
    → Lighter ss ts
Moves-Lighter r name v [] [] h = tt
Moves-Lighter r name v [] (t ∷ ts) h = elim h [ ]
Moves-Lighter r name v (s ∷ ss) [] h = elim h [ ]
Moves-Lighter r name v (s ∷ ss) (t ∷ ts) h =
    (moved_lighter r name v s t h.0, Moves-Lighter r name v ss ts h.1)

keep-count : (q r : Session → Bool) (ss : List Session) → count q (keep r ss) ≤ count q ss
keep-count q r [] = omega arith
keep-count q r (s ∷ ss) = elim (Bool-cases (r s)) [
  | inl y ↦ rw y (omega (arith, keep-count q r ss))
  | inr n ↦ rw n (omega (arith, keep-count q r ss))
]

starting_heavy : (s : Session) → is_starting s ≡ true → 1 ≤ held_one s
starting_heavy s h = by_state s.state s.owner h
  where
    by_state :
        (state : SessionState) (owner : Option String)
        → elim state [ SessionState.starting ↦ true | _ ↦ false ] ≡ true
        → 1
          ≤ one_if (is_some owner && not (elim state [ SessionState.stopped ↦ true | _ ↦ false ]))
            + one_if (
                not (is_some owner) && elim state [
                  | SessionState.starting ↦ true
                  | SessionState.waiting ↦ true
                  | _ ↦ false
                ])
    by_state SessionState.starting none h = omega arith
    by_state SessionState.starting (some o) h = omega arith
    by_state SessionState.waiting o h = absurd (ground (arith, h))
    by_state SessionState.running o h = absurd (ground (arith, h))
    by_state SessionState.stopping o h = absurd (ground (arith, h))
    by_state SessionState.stopped o h = absurd (ground (arith, h))

stopped_weightless : (now : ℕ) (s : Session) → held_one (mark_as_stopped now s) ≡ 0
unfolding mark_as_stopped
stopped_weightless now s = ground arith

initiate_unlimited-maximum :
    (now : ℕ) (es : List Environment) (p : TrainingPortal)
    → (initiate_unlimited now es p).sessions_maximum ≡ p.sessions_maximum
unfolding initiate_unlimited
initiate_unlimited-maximum now [] p = refl
initiate_unlimited-maximum now (e ∷ es) p =
    initiate_unlimited-maximum now es (setup_many now (spare_in e p) e p)
    ∙ setup_many-maximum now (spare_in e p) e p

initiate-unlimited :
    (now : ℕ) (p : TrainingPortal)
    → (p.sessions_maximum == 0) ≡ true
    → (initiate_reserved_sessions now p).sessions_maximum ≡ 0
unfolding initiate_reserved_sessions
initiate-unlimited now p z =
    ground (arith, z, initiate_unlimited-maximum now (running_environments p.environments) p)

initiate-full :
    (now : ℕ) (p : TrainingPortal)
    → (p.sessions_maximum == 0) ≡ false
    → leb p.sessions_maximum (active_sessions_count p) ≡ true
    → initiate_reserved_sessions now p ≡ p
unfolding initiate_reserved_sessions
initiate-full now p n full = rw (n, full) refl

held-active : (p : TrainingPortal) → held p.sessions ≤ active_sessions_count p
unfolding active_sessions_count
held-active p = kinds-count p.sessions

initiate_reserved_sessions-Within :
    (now : ℕ) (p : TrainingPortal) → Within p → Within (initiate_reserved_sessions now p)
initiate_reserved_sessions-Within now p h = elim (Bool-cases (p.sessions_maximum == 0)) [
  | inl z ↦ inl (initiate-unlimited now p z)
  | inr n ↦ elim (Bool-cases (leb p.sessions_maximum (active_sessions_count p))) [
    | inl full ↦ subst (λ (d : TrainingPortal). Within d) (sym (initiate-full now p n full)) h
    | inr room ↦
        let (same, below) = initiate_reserved_sessions-maximum now p n (ground (arith, room)) in
        inr (omega (arith, same, below, held-active (initiate_reserved_sessions now p)))
  ]
]

create_workshop_session-Within :
    (now : ℕ) (name : List ℕ) (p : TrainingPortal)
    → Within p
    → Within (create_workshop_session now name p)
unfolding create_workshop_session
create_workshop_session-Within now name p =
    change_sessions-Within (λ s. same_name s.name name && is_starting s) (deployed now p) p
      (λ s k. omega (
        arith,
        held_one-bound (deployed now p s),
        starting_heavy s (both (same_name s.name name) (is_starting s) k).1,
      ))

delete_workshop_session-Within :
    (now : ℕ) (s : Session) (e : Environment) (p : TrainingPortal)
    → Within p
    → Within (delete_workshop_session now s e p)
unfolding delete_workshop_session
delete_workshop_session-Within now s e p h = replace_reserved_session-Within now e _ (
    change_sessions-Within (λ t. same_name t.name s.name) (λ _. mark_as_stopped now s) p
      (λ t k. omega (arith, stopped_weightless now s)) h)

terminate_reserved_sessions-Within :
    (now : ℕ) (p : TrainingPortal) → Within p → Within (terminate_reserved_sessions now p)
terminate_reserved_sessions-Within now p =
    let p' = terminate_reserved_sessions now p in
    held-Within p p' (terminate_reserved_sessions-maximum now p) (
      Lighter-held p.sessions p'.sessions
        (Stops-Lighter now p.sessions p'.sessions (terminate_reserved_sessions-Stops now p)))

cleanup_old_sessions-Within :
    (now : ℕ) (p : TrainingPortal) → Within p → Within (cleanup_old_sessions now p)
unfolding cleanup_old_sessions
cleanup_old_sessions-Within now p = held-Within p (cleanup_old_sessions now p) refl (
    omega (
      arith,
      keep-count is_allocated (λ s. not (is_old now s)) p.sessions,
      keep-count is_available (λ s. not (is_old now s)) p.sessions,
    ))

unless_raised-Within :
    (p : TrainingPortal) (r : Option TrainingPortal)
    → (Within p → (p' : TrainingPortal) → r ≡ some p' → Within p')
    → Within p
    → Within (default p r)
unless_raised-Within p none h k = k
unless_raised-Within p (some p') h k = h k p' refl

module _ (xeger : String → String) (active : String → Bool) (index : Option String) where
  handle-Within :
      (now : ℕ) (r : Requester) (name : List ℕ) (v : View) (p : TrainingPortal)
      → Within p
      → Within (handle now active index r name v p).1
  handle-Within now r name v p =
      let p' = (handle now active index r name v p).1 in
      let (same, moves) = handle-Moves now r name p active index v in
      held-Within p p' (ap (λ (d : TrainingPortal). d.sessions_maximum) same)
        (Lighter-held p.sessions p'.sessions (Moves-Lighter r name v p.sessions p'.sessions moves))

  perform-Within :
      (now : ℕ) (o : Operation) (p : TrainingPortal)
      → Within p
      → Within (perform xeger active index now o p)
  unfolding perform
  perform-Within now (retrieve e session_name r) p =
      retrieve_session_for_user-Within xeger now e r session_name p
  perform-Within now (view r name v) p = handle-Within now r name v p
  perform-Within now (deploy name) p = create_workshop_session-Within now name p
  perform-Within now (delete_session s e) p = delete_workshop_session-Within now s e p
  perform-Within now (replace_reserved e) p = replace_reserved_session-Within now e p
  perform-Within now initiate_reserved p = initiate_reserved_sessions-Within now p
  perform-Within now terminate_reserved p = terminate_reserved_sessions-Within now p
  perform-Within now cleanup p = cleanup_old_sessions-Within now p
  perform-Within now (activate_environment name same_uid params) p =
      activate_workshop_environment-Within now name same_uid params p
  perform-Within now (shutdown workshops) p = shutdown_workshop_environments-Within now workshops p
  perform-Within now refresh p = refresh_workshop_environments-Within now p
  perform-Within now delete_environments p = delete_workshop_environments-Within p
  perform-Within now (update_environments workshops) p =
      unless_raised-Within p (update_workshop_environments workshops p)
        (update_workshop_environments-Within workshops p)
  perform-Within now (process name w position) p =
      unless_raised-Within p (process_workshop_environment now name w position p)
        (process_workshop_environment-Within now name w position p)
  perform-Within now (change_workshop linked d b) p = workshop_event-Within now linked d b p

  -- Whatever users ask for, whatever the views and the tasks do, in any order and at any times: if the
  -- sessions that belong to users and those in reserve are within the portal's maximum, or there
  -- is none, then they are afterwards.
  pub perform_all-Within :
      (os : List (ℕ × Operation)) (p : TrainingPortal)
      → Within p
      → Within (perform_all xeger active index os p)
  unfolding perform_all
  perform_all-Within [] p h = h
  perform_all-Within ((now, o) ∷ os) p h =
      perform_all-Within os (perform xeger active index now o p) (perform-Within now o p h)
