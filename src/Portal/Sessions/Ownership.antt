-- ===== src/Portal/Sessions/Ownership.antt =====
-- Which session a request gets from manager/sessions.py.
use mathlib.Core.List.Memᴰ
use mathlib.Core.List.{Memᴰ}
use educates_training_platfo.Prelude.{
  ℕ, String, Bool, true, false, not, ◌&&◌, ◌≡◌, refl, Option, none, some, List, [], ◌∷◌, ◌==◌, leb,
  ltb, given, if◌then◌else◌, arith, Bool-cases, inl, inr, both, is, is_iff, eq_iff, is_some,
}
use educates_training_platfo.Portal.Models.{
  Environment, Session, User, TrainingPortal, of_environment, is_ready, is_waiting, is_stopping,
  is_stopped, is_owned_in, is_pending, allocated_sessions_count, active_sessions_count,
  active_sessions_count_in, ready_sessions_count, session_permitted_for_user, mark_as_pending,
  mark_as_running,
}
use educates_training_platfo.Portal.Sessions.{
  Request, asked, differs, first, change_first, change_sessions, take_over, allocate,
  allocate_found, allocate_session_for_user, owned_session, create_owned_session, stop_oldest,
  create_session_for_user, create_if_none, retrieve_new_session, renewed, retrieve_found,
  retrieve_session_for_user,
}
use educates_training_platfo.Portal.Reserved.{
  create_new_session, setup_workshop_session, new_session, replace_reserved_session,
}
use educates_training_platfo.Portal.Sessions.Counts.{first_passes}

-- A session of the user in the environment, as the database has it.
pub record IsGiven (e : Environment) (user : User) (s : Session) (p : TrainingPortal) : Type 0 where
  pub owned : s.owner ≡ some user.username
  pub placed : s.environment ≡ e.name
  pub saved : Memᴰ s p.sessions

change_first-member :
    (q : Session → Bool) (f : Session → Session) (ss : List Session) (s : Session)
    → first q ss ≡ some s
    → Memᴰ (f s) (change_first q f ss)
unfolding first change_first
change_first-member q f [] s h = absurd (ground arith)
change_first-member q f (t ∷ ss) s h = elim (Bool-cases (q t)) [
  | inl y ↦ let same : t ≡ s = ground arith in rw (y, same) (Memᴰ.head refl)
  | inr n ↦ rw n (Memᴰ.tail (change_first-member q f ss s (rw n at h)))
]

added :
    (now : ℕ) (e : Environment) (p : TrainingPortal) (s : Session)
    → Memᴰ s p.sessions
    → Memᴰ s (create_new_session now e p).sessions
unfolding create_new_session setup_workshop_session
added now e p s m = Memᴰ.append_left _ m

-- A replacement is added behind the rows that there are.
replace_reserved_session-member :
    (now : ℕ) (e : Environment) (p : TrainingPortal) (s : Session)
    → Memᴰ s p.sessions
    → Memᴰ s (replace_reserved_session now e p).sessions
unfolding replace_reserved_session
replace_reserved_session-member now e p s m =
    let full = not (p.sessions_maximum == 0) && leb p.sessions_maximum (active_sessions_count p) in
    let new = create_new_session now e p in
    let one = if full then p else new in
    let two = if leb e.capacity (active_sessions_count_in e p) then p else one in
    let three = if leb e.reserved (ready_sessions_count e p) then p else two in
    keeps (e.reserved == 0) p three m (
      keeps (leb e.reserved (ready_sessions_count e p)) p two m (
        keeps (leb e.capacity (active_sessions_count_in e p)) p one m
          (keeps full p new m (added now e p s m))))
  where
    keeps :
        (b : Bool) (x y : TrainingPortal)
        → Memᴰ s x.sessions
        → Memᴰ s y.sessions
        → Memᴰ s (if b then x else y).sessions
    keeps true x y a b = a
    keeps false x y a b = b

owned_by :
    (e : Environment) (user : User) (s : Session)
    → is_owned_in e user s ≡ true
    → (s.environment ≡ e.name) × (s.owner ≡ some user.username)
owned_by e user s h =
    let mine = of_environment e s && is s.owner user.username in
    let (a, _) = both (mine && not (is_stopping s)) (not (is_stopped s)) h in
    let (b, _) = both mine (not (is_stopping s)) a in
    let (c, d) = both (of_environment e s) (is s.owner user.username) b in
    ((eq_iff s.environment e.name).0 c, (is_iff s.owner user.username).0 d)

module _ (xeger : String → String) (now : ℕ) (e : Environment) (r : Request) where
  allocate-owner : (s : Session) → (allocate xeger now e r s).owner ≡ some r.user.username
  unfolding allocate mark_as_pending mark_as_running take_over
  allocate-owner s = ground arith

  allocate-environment : (s : Session) → (allocate xeger now e r s).environment ≡ s.environment
  unfolding allocate mark_as_pending mark_as_running take_over
  allocate-environment s = ground arith

  abbrev Given : Option Session × TrainingPortal → Type 0
  Given result = elim result.0 [ none ↦ Unit | some s ↦ IsGiven e r.user s result.1 ]

  Given-if :
      (b : Bool) (x y : Option Session × TrainingPortal)
      → Given x
      → Given y
      → Given (if b then x else y)
  Given-if true x y g h = g
  Given-if false x y g h = h

  allocate_found-Given :
      (p : TrainingPortal) (found : Option Session)
      → first (is_ready e) p.sessions ≡ found
      → Given (allocate_found xeger now e r p found)
  unfolding allocate_found change_sessions
  allocate_found-Given p none f = tt
  allocate_found-Given p (some s) f =
      let (a, d) =
        both (of_environment e s && not (is_some s.owner)) (is_waiting s)
          (first_passes (is_ready e) p.sessions s f) in
      record {
        owned = allocate-owner s;
        placed = rw (allocate-environment s) (
            (eq_iff s.environment e.name).0
              (both (of_environment e s) (not (is_some s.owner)) a).0);
        saved =
            replace_reserved_session-member now e _ _
              (change_first-member (is_ready e) (allocate xeger now e r) p.sessions s f);
      }

  create_owned_session-Given : (p : TrainingPortal) → Given (create_owned_session xeger now e r p)
  unfolding create_owned_session owned_session mark_as_pending take_over new_session
  create_owned_session-Given p = record {
    owned = refl;
    placed = refl;
    saved = Memᴰ.append_right p.sessions (Memᴰ.head refl);
  }

  create_session_for_user-Given :
      (p : TrainingPortal) → Given (create_session_for_user xeger now e r p)
  unfolding create_session_for_user
  create_session_for_user-Given p =
      let made = create_owned_session xeger now e r p in
      let replaced = create_owned_session xeger now e r (stop_oldest now p) in
      let roomy = ltb (active_sessions_count p) p.sessions_maximum in
      let full = leb p.sessions_maximum (allocated_sessions_count p) in
      let one = if roomy then made else replaced in
      let two = if full then (none, p) else one in
      let three = if p.sessions_maximum == 0 then made else two in
      let own = create_owned_session-Given p in
      Given-if (leb e.capacity (active_sessions_count_in e p)) (none, p) three tt
        (Given-if (p.sessions_maximum == 0) made two own (
          Given-if full (none, p) one tt
            (Given-if roomy made replaced own (create_owned_session-Given (stop_oldest now p)))))

  create_if_none-Given :
      (found : Option Session × TrainingPortal)
      → Given found
      → Given (create_if_none xeger now e r found)
  unfolding create_if_none
  create_if_none-Given (some s, p) g = g
  create_if_none-Given (none, p) g = create_session_for_user-Given p

  renewed-same :
      (s : Session)
      → s.owner ≡ some r.user.username
      → ((renewed now e r s).owner ≡ some r.user.username)
        × ((renewed now e r s).environment ≡ s.environment)
  unfolding renewed mark_as_pending
  renewed-same s h = elim (Bool-cases (given r.token && is_pending s)) [
    | inl t ↦ rw t (refl, refl)
    | inr f ↦ rw f (h, refl)
  ]

  retrieve_found-Given :
      (session_name : Option (List ℕ)) (p : TrainingPortal) (found : Option Session)
      → first (is_owned_in e r.user) p.sessions ≡ found
      → Given (retrieve_found xeger now e session_name r p found)
  unfolding retrieve_found retrieve_new_session allocate_session_for_user change_sessions
  retrieve_found-Given session_name p (some s) f =
      let (a, b) = owned_by e r.user s (first_passes (is_owned_in e r.user) p.sessions s f) in
      let (c, d) = renewed-same s b in
      elim (Bool-cases (differs session_name s)) [
        | inl t ↦ rw t tt
        | inr n ↦ rw n (record {
          owned = c;
          placed = rw d a;
          saved = change_first-member (is_owned_in e r.user) (renewed now e r) p.sessions s f;
        })
      ]
  retrieve_found-Given session_name p none f =
      let made = retrieve_new_session xeger now e r p in
      let barred = not (session_permitted_for_user p r.user) in
      Given-if (asked session_name) (none, p) (if barred then (none, p) else made) tt
        (Given-if barred (none, p) made tt
          (create_if_none-Given _ (allocate_found-Given p (first (is_ready e) p.sessions) refl)))

  -- A session that a request gets is one of the database after the request, in the environment that
  -- was asked for, and belongs to the user.
  pub retrieve_session_for_user-IsGiven :
      (session_name : Option (List ℕ)) (p p' : TrainingPortal) (s : Session)
      → retrieve_session_for_user xeger now e session_name r p ≡ (some s, p')
      → IsGiven e r.user s p'
  unfolding retrieve_session_for_user
  retrieve_session_for_user-IsGiven session_name p p' s h =
      rw h at (retrieve_found-Given session_name p (first (is_owned_in e r.user) p.sessions) refl)
