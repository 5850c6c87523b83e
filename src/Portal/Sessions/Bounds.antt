-- ===== src/Portal/Sessions/Bounds.antt =====
-- The maximum number of sessions of a portal, under the requests of users in manager/sessions.py.
use educates_training_platfo.Prelude.{
  ℕ, ◌+◌, ◌≤◌, String, true, false, not, ◌≡◌, refl, ◌⊎◌, inl, inr, Option, none, some, List, [],
  ◌∷◌, ◌==◌, leb, ltb, if◌then◌else◌, count, arith, Bool-cases, ltb→lt, Option-cases, both,
}
use educates_training_platfo.Portal.Models.{
  Environment, Session, TrainingPortal, is_available, is_allocated, is_active, is_ready,
  is_owned_in, allocated_sessions_count, active_sessions_count, session_permitted_for_user,
  mark_as_stopping, active_sessions_count_in,
}
use educates_training_platfo.Portal.Sessions.{
  Request, asked, first, change_sessions, allocate, allocate_session_for_user, allocate_found,
  create_if_none, retrieve_found, stop_created_at, owned_session, create_owned_session,
  first_created, created_at, stop_oldest, create_session_for_user, retrieve_new_session, renewed,
  retrieve_session_for_user,
}
use educates_training_platfo.Portal.Sessions.Counts.{
  count-append, first_passes, change_first-count, kinds-count, held, held_one, Within,
  change_sessions-Within, held_one-bound,
}
use educates_training_platfo.Portal.Sessions.Room.{
  ready_available, owned_allocated, if-Within_after, replace_reserved_session-Within,
}

-- Stopping the oldest reserved session makes room, if there is one.
pub first_created-first :
    (ss : List Session) (m : ℕ)
    → first_created ss ≡ some m
    → (s : Session) × (first (created_at m) ss ≡ some s)
unfolding first_created first
first_created-first [] m h = absurd (ground arith)
first_created-first (t ∷ ss) m h = elim (Bool-cases (created_at m t)) [
  | inl y ↦ (t, rw y refl)
  | inr n ↦ elim (Option-cases (first_created ss)) [
    | inl f ↦ absurd (ground (arith, n, f, h))
    | inr (k, f) ↦ let (s, g) = first_created-first ss m (ground (arith, n, f, h)) in (s, rw n g)
  ]
]

pub first_created-none : (ss : List Session) → first_created ss ≡ none → count is_available ss ≡ 0
unfolding first_created
first_created-none [] h = refl
first_created-none (t ∷ ss) h = elim (Bool-cases (is_available t)) [
  | inl y ↦ elim (Option-cases (first_created ss)) [
    | inl f ↦ absurd (ground (arith, y, f, h))
    | inr (k, f) ↦ absurd (ground (arith, y, f, h))
  ]
  | inr n ↦ rw n (ground (arith, first_created-none ss (rw n at h)))
]

pub heavy : (s : Session) → is_available s ≡ true → 1 ≤ held_one s
heavy s h = ground (arith, h)

owned_heavy : (s : Session) → is_allocated s ≡ true → 1 ≤ held_one s
owned_heavy s h = ground (arith, h)

module _ (xeger : String → String) (now : ℕ) (e : Environment) (r : Request) where
  allocate_found-Within :
      (p : TrainingPortal) (found : Option Session)
      → Within p
      → Within (allocate_found xeger now e r p found).1
  unfolding allocate_found
  allocate_found-Within p none h = h
  allocate_found-Within p (some s) h = replace_reserved_session-Within now e _ (
      change_sessions-Within (is_ready e) (allocate xeger now e r) p
        (λ t k.
          omega (arith, held_one-bound (allocate xeger now e r t), heavy t (ready_available e t k)))
        h)

  created-Within :
      (p : TrainingPortal)
      → (p.sessions_maximum ≡ 0) ⊎ (held p.sessions + 1 ≤ p.sessions_maximum)
      → Within (create_owned_session xeger now e r p).1
  unfolding create_owned_session
  created-Within p (inl h) = inl h
  created-Within p (inr h) =
      let s = owned_session xeger now e r in
      inr (
        omega (
          arith,
          h,
          held_one-bound s,
          count-append is_allocated p.sessions s,
          count-append is_available p.sessions s,
        ))

pub stopping_weightless :
    (now : ℕ) (s : Session) → is_available s ≡ true → held_one (mark_as_stopping now s) ≡ 0
unfolding mark_as_stopping
stopping_weightless now s h = elim (Option-cases s.owner) [
  | inl f ↦ ground (arith, f)
  | inr (o, f) ↦ absurd (ground (arith, f, h))
]

-- After the oldest reserved session is stopped, one more fits.
stop_created_at-room :
    (now : ℕ) (p : TrainingPortal) (m : Option ℕ)
    → first_created p.sessions ≡ m
    → held p.sessions ≤ p.sessions_maximum
    → count is_allocated p.sessions + 1 ≤ p.sessions_maximum
    → held (stop_created_at now p m).sessions + 1 ≤ p.sessions_maximum
unfolding stop_created_at change_sessions
stop_created_at-room now p none e h k = omega (arith, k, first_created-none p.sessions e)
stop_created_at-room now p (some m) e h k =
    let (s, f) = first_created-first p.sessions m e in
    let (a, b) =
      both (is_available s) (s.created == m) (first_passes (created_at m) p.sessions s f) in
    omega (
      arith,
      h,
      change_first-count (created_at m) is_allocated (mark_as_stopping now) p.sessions s f,
      change_first-count (created_at m) is_available (mark_as_stopping now) p.sessions s f,
      stopping_weightless now s a,
      heavy s a,
    )

pub stop_created_at-maximum :
    (now : ℕ) (p : TrainingPortal) (m : Option ℕ)
    → (stop_created_at now p m).sessions_maximum ≡ p.sessions_maximum
unfolding stop_created_at change_sessions
stop_created_at-maximum now p none = refl
stop_created_at-maximum now p (some m) = refl

module _ (xeger : String → String) (now : ℕ) (e : Environment) (r : Request) where
  -- The new session takes the room of the oldest reserved one.
  replaced-Within :
      (p : TrainingPortal)
      → held p.sessions ≤ p.sessions_maximum
      → leb p.sessions_maximum (allocated_sessions_count p) ≡ false
      → Within (create_owned_session xeger now e r (stop_oldest now p)).1
  unfolding stop_oldest allocated_sessions_count
  replaced-Within p h k =
      let m = first_created p.sessions in
      let stopped = stop_created_at now p m in
      created-Within xeger now e r stopped (
        inr (
          rw (stop_created_at-maximum now p m)
            (stop_created_at-room now p m refl h (ground (arith, k)))))

  roomy-held :
      (p : TrainingPortal)
      → ltb (active_sessions_count p) p.sessions_maximum ≡ true
      → held p.sessions + 1 ≤ p.sessions_maximum
  unfolding active_sessions_count
  roomy-held p t =
      omega
        (arith, ltb→lt (count is_active p.sessions) p.sessions_maximum t, kinds-count p.sessions)

  limited :
      (p : TrainingPortal)
      → Within p
      → (p.sessions_maximum == 0) ≡ false
      → held p.sessions ≤ p.sessions_maximum
  limited p (inl h) z = absurd (ground (arith, h, z))
  limited p (inr h) z = h

  create_session_for_user-Within :
      (p : TrainingPortal) → Within p → Within (create_session_for_user xeger now e r p).1
  unfolding create_session_for_user
  create_session_for_user-Within p h =
      let made = create_owned_session xeger now e r p in
      let replaced = create_owned_session xeger now e r (stop_oldest now p) in
      let roomy = ltb (active_sessions_count p) p.sessions_maximum in
      let full = leb p.sessions_maximum (allocated_sessions_count p) in
      let one = if roomy then made else replaced in
      let two = if full then (none, p) else one in
      let three = if p.sessions_maximum == 0 then made else two in
      if-Within_after (leb e.capacity (active_sessions_count_in e p)) (none, p) three (λ _. h)
        (λ _.
          if-Within_after (p.sessions_maximum == 0) made two
            (λ z. created-Within xeger now e r p (inl (ground (arith, z))))
            (λ z.
              if-Within_after full (none, p) one (λ _. h)
                (λ k.
                  if-Within_after roomy made replaced
                    (λ t. created-Within xeger now e r p (inr (roomy-held p t)))
                    (λ _. replaced-Within p (limited p h z) k))))

  create_if_none-Within :
      (found : Option Session × TrainingPortal)
      → Within found.1
      → Within (create_if_none xeger now e r found).1
  unfolding create_if_none
  create_if_none-Within (some s, p) h = h
  create_if_none-Within (none, p) h = create_session_for_user-Within p h

  retrieve_found-Within :
      (session_name : Option (List ℕ)) (p : TrainingPortal) (found : Option Session)
      → Within p
      → Within (retrieve_found xeger now e session_name r p found).1
  unfolding retrieve_found retrieve_new_session allocate_session_for_user
  retrieve_found-Within session_name p (some s) h =
      change_sessions-Within (is_owned_in e r.user) (renewed now e r) p
        (λ t k.
          omega (
            arith,
            held_one-bound (renewed now e r t),
            owned_heavy t (owned_allocated e r.user t k),
          ))
        h
  retrieve_found-Within session_name p none h =
      let made = retrieve_new_session xeger now e r p in
      let barred = not (session_permitted_for_user p r.user) in
      if-Within_after (asked session_name) (none, p) (if barred then (none, p) else made) (λ _. h)
        (λ _.
          if-Within_after barred (none, p) made (λ _. h)
            (λ _.
              create_if_none-Within _
                (allocate_found-Within xeger now e r p (first (is_ready e) p.sessions) h)))

  -- Whatever a user asks for, if the sessions that belong to users and those in reserve are within
  -- the portal's maximum, or there is none, then they still are after the request.
  pub retrieve_session_for_user-Within :
      (session_name : Option (List ℕ)) (p : TrainingPortal)
      → Within p
      → Within (retrieve_session_for_user xeger now e session_name r p).1
  unfolding retrieve_session_for_user
  retrieve_session_for_user-Within session_name p h =
      retrieve_found-Within session_name p (first (is_owned_in e r.user) p.sessions) h
