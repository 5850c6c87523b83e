-- ===== src/Portal/Lifecycle/Permitted.antt =====
-- The effect of each view of views/session.py on the rows of the sessions.
use educates_training_platfo.Prelude.{
  ℕ, String, Bool, true, false, not, ◌≡◌, refl, ◌⊎◌, inl, inr, Option, none, some, List,
  if◌then◌else◌, given, is, is_iff, is_some, default, arith, Bool-cases, Option-cases, ap, subst,
}
use educates_training_platfo.Portal.Models.{
  Environment, Session, TrainingPortal, is_allocated, mark_as_stopping,
}
use educates_training_platfo.Portal.Expiry.{extend_time_remaining, is_running_session}
use educates_training_platfo.Portal.Sessions.{change_sessions}
use educates_training_platfo.Portal.Lifecycle.{
  extension_in, extended_row, Requester, Answer, View, activate, terminate, extend, delete,
  owned_by, live, allocated_session, allocated_session_of, if_owned, gone, running, activate_found,
  session_activate, permitted, stop_live, terminate_found, session_terminate, delete_found,
  session_delete, extension, extend_session, extend_found, session_extend, handle, find_environment,
}
use educates_training_platfo.Portal.Lifecycle.Moves.{
  IsMoved, Moves, Moves-refl, change_first-Moves, live_parts, stopping-IsMoved, running-IsMoved,
  SameRow, extension-SameRow,
}

extension_in-SameRow :
    (now : ℕ) (e : Option Environment) (s : Session)
    → SameRow s (extended_row (extension_in now e s) s)
unfolding extended_row extension_in
extension_in-SameRow now none s = (refl, refl, refl, refl)
extension_in-SameRow now (some e) s = elim (Option-cases (extend_time_remaining now e s)) [
  | inl f ↦ rw f (refl, refl, refl, refl)
  | inr ((b, t), f) ↦ rw f (extension-SameRow now e s t b f)
]

-- Nothing but the sessions changes, and these as above.
abbrev pub Changes : Requester → List ℕ → View → TrainingPortal → TrainingPortal → Type 0
Changes r name v p p' =
    (p' ≡ record p { sessions = p'.sessions }) × Moves r name v p.sessions p'.sessions

module _ (now : ℕ) (r : Requester) (name : List ℕ) (p : TrainingPortal) where
  unchanged : (v : View) → Changes r name v p p
  unchanged v = (refl, Moves-refl r name v p.sessions)

  if-Moves :
      (v : View) (b : Bool) (x y : Answer × TrainingPortal)
      → (b ≡ true → Changes r name v p x.1)
      → (b ≡ false → Changes r name v p y.1)
      → Changes r name v p (if b then x else y).1
  if-Moves v true x y h k = h refl
  if-Moves v false x y h k = k refl

  Changes-Moves :
      (v : View) (f : Session → Session) (s : Session)
      → allocated_session name p ≡ some s
      → (f s ≡ s) ⊎ IsMoved r name v s (f s)
      → Changes r name v p (change_sessions (live name) f p)
  unfolding change_sessions allocated_session
  Changes-Moves v f s e h = (
    refl,
    change_first-Moves r name v (live name) f p.sessions (λ t k.
        let same : s ≡ t = ground (arith, e, k) in
        subst (λ (u : Session). (f u ≡ u) ⊎ IsMoved r name v u (f u)) same h),
  )

  terminate_found-Moves :
      (found : Option Session)
      → allocated_session name p ≡ found
      → Changes r name terminate p (terminate_found now r name p found).1
  unfolding terminate_found stop_live
  terminate_found-Moves none e = unchanged terminate
  terminate_found-Moves (some s) e =
      let same = unchanged terminate in
      if-Moves terminate (not (is_allocated s)) _ _ (λ _. same)
        (λ _.
          if-Moves terminate (not (permitted r s)) _ _ (λ _. same)
            (λ k. Changes-Moves terminate (mark_as_stopping now) s e (
              inr (
                stopping-IsMoved now r name terminate s (inl (ground (arith, k)))
                  (live_parts name p s e)))))

  extend_found-Moves :
      (found : Option Session)
      → allocated_session name p ≡ found
      → Changes r name extend p (extend_found now r name p found).1
  unfolding extend_found extend_session extension
  extend_found-Moves none e = unchanged extend
  extend_found-Moves (some s) e =
      let same = unchanged extend in
      let row = extension_in-SameRow now (find_environment s.environment p.environments) s in
      let (named, alive) = live_parts name p s e in
      if-Moves extend (not (is_allocated s)) _ _ (λ _. same)
        (λ _.
          if-Moves extend (not (permitted r s)) _ _ (λ _. same)
            (λ k. Changes-Moves extend (extend_session now p) s e (
              inr (record {
                allowed = inl (ground (arith, k));
                named = named;
                alive = alive;
                same_session = row.0;
                same_environment = row.1;
                same_owner = row.2;
                next = inl row.3;
              }))))

  if_owned-some :
      (user : Option String) (found : Option Session) (s : Session)
      → if_owned user found ≡ some s
      → (found ≡ some s) × (owned_by user s ≡ true)
  unfolding if_owned
  if_owned-some user none s h = absurd (ground (arith, h))
  if_owned-some user (some t) s h = elim (Bool-cases (owned_by user t)) [
    | inl y ↦
        let same : t ≡ s = ground (arith, h, y) in
        (ap (λ (x : Session). some x) same, rw (← same) y)
    | inr n ↦ absurd (ground (arith, h, n))
  ]

  owner_permitted : (s : Session) → owned_by r.username s ≡ true → permitted r s ≡ true
  unfolding permitted
  owner_permitted s h = ground (arith, h)

  delete_found-Moves :
      (index notification : Option String) (found : Option Session)
      → allocated_session_of r.username name p ≡ found
      → Changes r name
          (delete notification)
          p
          (delete_found now index r name notification p found).1
  unfolding delete_found stop_live allocated_session_of
  delete_found-Moves index notification none e = unchanged (delete notification)
  delete_found-Moves index notification (some s) e =
      let (found, owned) = if_owned-some r.username (allocated_session name p) s e in
      Changes-Moves (delete notification) (mark_as_stopping now) s found (
        inr (
          stopping-IsMoved now r name (delete notification) s (inl (owner_permitted s owned))
            (live_parts name p s found)))

  activate_found-Moves :
      (active : String → Bool) (token : String) (found : Option Session)
      → allocated_session name p ≡ found
      → Changes r name (activate (some token)) p (activate_found now active token name p found).1
  unfolding activate_found running
  activate_found-Moves active token none e = unchanged (activate (some token))
  activate_found-Moves active token (some s) e =
      let v = activate (some token) in
      let same = unchanged v in
      if-Moves v (not (is s.token token)) _ _ (λ _. same)
        (λ a.
          if-Moves v (not (is_some s.owner)) _ _ (λ _. same)
            (λ o.
              if-Moves v (not (active (default "" s.owner))) _ _ (λ _. same)
                (λ _.
                  if-Moves v (is_running_session s) _ _ (λ _. same)
                    (λ _. Changes-Moves v (running now p) s e (
                      running-IsMoved now (find_environment s.environment p.environments) r name v s
                        (inr (token, refl, (is_iff s.token token).0 (ground (arith, a))))
                        (live_parts name p s e) (ground (arith, o)))))))

  session_activate-Moves :
      (active : String → Bool) (token : Option String)
      → Changes r name (activate token) p (session_activate now active token r name p).1
  unfolding session_activate
  session_activate-Moves active none = unchanged (activate none)
  session_activate-Moves active (some token) =
      let v = activate (some token) in
      let same = unchanged v in
      if-Moves v (not (given (some token))) _ _ (λ _. same)
        (λ _. elim (Option-cases (gone r.username name p)) [
          | inl f ↦ rw f (activate_found-Moves active token (allocated_session name p) refl)
          | inr (url, f) ↦ rw f same
        ])

  session_delete-Moves :
      (index notification : Option String)
      → Changes r name (delete notification) p (session_delete now index r name notification p).1
  unfolding session_delete
  session_delete-Moves index notification = elim (Option-cases (gone r.username name p)) [
    | inl f ↦
        rw (f, session_delete)
          (delete_found-Moves index notification (allocated_session_of r.username name p) refl)
    | inr (url, f) ↦ rw (f, session_delete) (unchanged (delete notification))
  ]

  -- A view changes nothing but sessions. It leaves every row as it is, but for one of the session's name that has not stopped; that
  -- one it changes only for staff, a robot or the owner, or for whoever has the token that
  -- activates it. The row keeps its name, environment and owner, and its state, or it is
  -- stopping, or, if it has an owner, running.
  pub handle-Moves :
      (active : String → Bool) (index : Option String) (v : View)
      → Changes r name v p (handle now active index r name v p).1
  unfolding handle session_terminate session_extend
  handle-Moves active index (activate token) = session_activate-Moves active token
  handle-Moves active index terminate = terminate_found-Moves (allocated_session name p) refl
  handle-Moves active index extend = extend_found-Moves (allocated_session name p) refl
  handle-Moves active index (delete notification) = session_delete-Moves index notification
