-- ===== src/Portal/Sessions/Places.antt =====
-- The capacity of an environment, under the requests of users in manager/sessions.py.
use educates_training_platfo.Prelude.{
  ℕ, ◌+◌, ◌≤◌, String, Bool, true, false, not, ◌&&◌, ◌≡◌, refl, inl, inr, Option, none, some, List,
  ◌==◌, leb, ltb, is, is_some, if◌then◌else◌, count, arith, Option-cases, both,
}
use educates_training_platfo.Portal.Models.{
  SessionState, Environment, Session, User, TrainingPortal, of_environment, is_available, is_active,
  is_stopped, is_stopping, is_waiting, is_ready, is_owned_in, is_active_in,
  allocated_sessions_count, active_sessions_count, session_permitted_for_user, mark_as_stopping,
  ready_sessions_count, active_sessions_count_in,
}
use educates_training_platfo.Portal.Sessions.{
  Request, asked, first, change_sessions, created_at, allocate, allocate_found,
  allocate_session_for_user, owned_session, create_owned_session, stop_created_at, stop_oldest,
  create_session_for_user, create_if_none, retrieve_new_session, renewed, retrieve_found,
  retrieve_session_for_user, first_created,
}
use educates_training_platfo.Portal.Reserved.{
  new_session, setup_workshop_session, create_new_session, replace_reserved_session,
}
use educates_training_platfo.Portal.Sessions.Counts.{
  one_if, count-append, first_passes, change_first-none, change_first-count, kinds,
}

waiting_active : (s : Session) → is_waiting s ≡ true → is_active s ≡ true
waiting_active s h = by_state s.state h
  where
    by_state :
        (state : SessionState)
        → elim state [ SessionState.waiting ↦ true | _ ↦ false ] ≡ true
        → not (elim state [ SessionState.stopped ↦ true | _ ↦ false ]) ≡ true
    by_state SessionState.starting e = refl
    by_state SessionState.waiting e = refl
    by_state SessionState.running e = refl
    by_state SessionState.stopping e = refl
    by_state SessionState.stopped e = e

one_if-bound : (b : Bool) → one_if b ≤ 1
one_if-bound b = ground arith

module _ (e : Environment) where
  ready_active : (s : Session) → is_ready e s ≡ true → is_active_in e s ≡ true
  ready_active s h =
      let (a, d) = both (of_environment e s && not (is_some s.owner)) (is_waiting s) h in
      let (b, c) = both (of_environment e s) (not (is_some s.owner)) a in
      ground (arith, b, waiting_active s d)

  owned_active : (user : User) (s : Session) → is_owned_in e user s ≡ true → is_active_in e s ≡ true
  owned_active user s h =
      let mine = of_environment e s && is s.owner user.username in
      let (a, d) = both (mine && not (is_stopping s)) (not (is_stopped s)) h in
      let (b, _) = both mine (not (is_stopping s)) a in
      let (c, _) = both (of_environment e s) (is s.owner user.username) b in ground (arith, c, d)

  available_active : (s : Session) → is_available s ≡ true → is_active s ≡ true
  available_active s h = ground (arith, h, kinds s)

  -- The environment is within its capacity.
  abbrev Fits : TrainingPortal → Type 0
  Fits p = count (is_active_in e) p.sessions ≤ e.capacity

  change_sessions-Fits :
      (q : Session → Bool) (f : Session → Session) (p : TrainingPortal)
      → ((s : Session) → q s ≡ true → one_if (is_active_in e (f s)) ≤ one_if (is_active_in e s))
      → count (is_active_in e) (change_sessions q f p).sessions ≤ count (is_active_in e) p.sessions
  unfolding change_sessions
  change_sessions-Fits q f p lighter = elim (Option-cases (first q p.sessions)) [
    | inl g ↦ rw (change_first-none q f p.sessions g) (omega arith)
    | inr (s, g) ↦ omega (
      arith,
      change_first-count q (is_active_in e) f p.sessions s g,
      lighter s (first_passes q p.sessions s g),
    )
  ]

  if-Fits :
      (b : Bool) (x y : TrainingPortal)
      → (b ≡ true → Fits x)
      → (b ≡ false → Fits y)
      → Fits (if b then x else y)
  if-Fits true x y left right = left refl
  if-Fits false x y left right = right refl

  if-Fits_after :
      (b : Bool) (x y : Option Session × TrainingPortal)
      → (b ≡ true → Fits x.1)
      → (b ≡ false → Fits y.1)
      → Fits (if b then x else y).1
  if-Fits_after true x y left right = left refl
  if-Fits_after false x y left right = right refl

  replace_reserved_session-Fits :
      (now : ℕ) (p : TrainingPortal) → Fits p → Fits (replace_reserved_session now e p)
  unfolding replace_reserved_session create_new_session setup_workshop_session
      active_sessions_count_in
  replace_reserved_session-Fits now p h =
      let new = create_new_session now e p in
      let full =
        not (p.sessions_maximum == 0) && leb p.sessions_maximum (active_sessions_count p) in
      let one = if full then p else new in
      let two = if leb e.capacity (count (is_active_in e) p.sessions) then p else one in
      let three = if leb e.reserved (ready_sessions_count e p) then p else two in
      let s = new_session now (record e { tally = e.tally + 1 }) in
      if-Fits (e.reserved == 0) p three (λ _. h)
        (λ _.
          if-Fits (leb e.reserved (ready_sessions_count e p)) p two (λ _. h)
            (λ _.
              if-Fits (leb e.capacity (count (is_active_in e) p.sessions)) p one (λ _. h)
                (λ k.
                  if-Fits full p new (λ _. h)
                    (λ _. ground (
                      arith,
                      k,
                      count-append (is_active_in e) p.sessions s,
                      one_if-bound (is_active_in e s),
                    )))))

  module _ (xeger : String → String) (now : ℕ) (r : Request) where
    allocate_found-Fits :
        (p : TrainingPortal) (found : Option Session)
        → Fits p
        → Fits (allocate_found xeger now e r p found).1
    unfolding allocate_found
    allocate_found-Fits p none h = h
    allocate_found-Fits p (some s) h =
        let fewer = change_sessions-Fits (is_ready e) (allocate xeger now e r) p (λ t k.
          ground
            (arith, ready_active t k, one_if-bound (is_active_in e (allocate xeger now e r t)))) in
        replace_reserved_session-Fits now _ (omega (arith, h, fewer))

    created-Fits :
        (p : TrainingPortal)
        → count (is_active_in e) p.sessions + 1 ≤ e.capacity
        → Fits (create_owned_session xeger now e r p).1
    unfolding create_owned_session
    created-Fits p h =
        let s = owned_session xeger now e r in
        omega
          (arith, h, count-append (is_active_in e) p.sessions s, one_if-bound (is_active_in e s))

    stopped-Fits :
        (p : TrainingPortal) (m : Option ℕ)
        → count (is_active_in e) (stop_created_at now p m).sessions
          ≤ count (is_active_in e) p.sessions
    unfolding stop_created_at mark_as_stopping
    stopped-Fits p none = omega arith
    stopped-Fits p (some m) = change_sessions-Fits (created_at m) (mark_as_stopping now) p (λ t k.
        let (a, _) = both (is_available t) (t.created == m) k in
        ground (arith, available_active t a))

    create_session_for_user-Fits :
        (p : TrainingPortal) → Fits p → Fits (create_session_for_user xeger now e r p).1
    unfolding create_session_for_user stop_oldest active_sessions_count_in
    create_session_for_user-Fits p h =
        let made = create_owned_session xeger now e r p in
        let stopped = stop_created_at now p (first_created p.sessions) in
        let replaced = create_owned_session xeger now e r stopped in
        let roomy = ltb (active_sessions_count p) p.sessions_maximum in
        let full = leb p.sessions_maximum (allocated_sessions_count p) in
        let one = if roomy then made else replaced in
        let two = if full then (none, p) else one in
        let three = if p.sessions_maximum == 0 then made else two in
        if-Fits_after (leb e.capacity (count (is_active_in e) p.sessions)) (none, p) three (λ _. h)
          (λ k.
            let room : count (is_active_in e) p.sessions + 1 ≤ e.capacity = ground (arith, k) in
            if-Fits_after (p.sessions_maximum == 0) made two (λ _. created-Fits p room)
              (λ _.
                if-Fits_after full (none, p) one (λ _. h)
                  (λ _.
                    if-Fits_after roomy made replaced (λ _. created-Fits p room)
                      (λ _.
                        created-Fits stopped
                          (omega (arith, room, stopped-Fits p (first_created p.sessions)))))))

    create_if_none-Fits :
        (found : Option Session × TrainingPortal)
        → Fits found.1
        → Fits (create_if_none xeger now e r found).1
    unfolding create_if_none
    create_if_none-Fits (some s, p) h = h
    create_if_none-Fits (none, p) h = create_session_for_user-Fits p h

    retrieve_found-Fits :
        (session_name : Option (List ℕ)) (p : TrainingPortal) (found : Option Session)
        → Fits p
        → Fits (retrieve_found xeger now e session_name r p found).1
    unfolding retrieve_found retrieve_new_session allocate_session_for_user
    retrieve_found-Fits session_name p (some s) h =
        let fewer = change_sessions-Fits (is_owned_in e r.user) (renewed now e r) p (λ t k.
          ground
            (arith, owned_active r.user t k, one_if-bound (is_active_in e (renewed now e r t)))) in
        omega (arith, h, fewer)
    retrieve_found-Fits session_name p none h =
        let made = retrieve_new_session xeger now e r p in
        let barred = not (session_permitted_for_user p r.user) in
        if-Fits_after (asked session_name) (none, p) (if barred then (none, p) else made) (λ _. h)
          (λ _.
            if-Fits_after barred (none, p) made (λ _. h)
              (λ _.
                create_if_none-Fits _ (allocate_found-Fits p (first (is_ready e) p.sessions) h)))

    -- No request takes its environment over the environment's capacity, if it was within it before.
    pub retrieve_session_for_user-capacity :
        (session_name : Option (List ℕ)) (p : TrainingPortal)
        → active_sessions_count_in e p ≤ e.capacity
        → active_sessions_count_in e (retrieve_session_for_user xeger now e session_name r p).1
          ≤ e.capacity
    unfolding retrieve_session_for_user active_sessions_count_in
    retrieve_session_for_user-capacity session_name p h =
        retrieve_found-Fits session_name p (first (is_owned_in e r.user) p.sessions) h
