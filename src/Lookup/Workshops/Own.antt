-- ===== src/Lookup/Workshops/Own.antt =====
-- Which session portals.py finds for a user.
use mathlib.Core.List.{Memᴰ}
use educates_training_platfo.Prelude.{
  ◌≡◌, sym, String, Option, some, List, [], ◌∷◌, arith, Bool-cases, Option-cases, inl, inr, is,
  is_iff, ◌&&◌, both,
}
use educates_training_platfo.Dict.{values}
use educates_training_platfo.Lookup.Caches.Sessions.{WorkshopSession}
use educates_training_platfo.Lookup.Caches.Environments
use educates_training_platfo.Lookup.Caches.Environments.{WorkshopEnvironment}
use educates_training_platfo.Lookup.Caches.Portals.{
  TrainingPortal, session_of, find_in, find_existing_workshop_session_for_user,
}

-- A session of the environment, which is one of the workshop, that belongs to the user.
pub record IsOwn (user_id workshop_name : String) (e : WorkshopEnvironment) (s : WorkshopSession)
    : Type 0 where
  pub session_known : Memᴰ s (Environments.get_sessions e)
  pub of_workshop : e.workshop ≡ some workshop_name
  pub of_user : s.user ≡ some user_id

session_of_lem :
    (user_id workshop_name : String) (workshop : Option String) (ss : List WorkshopSession)
    (s : WorkshopSession)
    → session_of user_id workshop_name workshop ss ≡ some s
    → Memᴰ s ss × (workshop ≡ some workshop_name) × (s.user ≡ some user_id)
unfolding session_of
session_of_lem user_id workshop_name workshop [] s h = absurd (ground arith)
session_of_lem user_id workshop_name workshop (x ∷ ss) s h =
    elim (Bool-cases (is x.user user_id && is workshop workshop_name)) [
      | inl t ↦
          let (u, v) = both (is x.user user_id) (is workshop workshop_name) t in
          let same : x ≡ s = ground (arith, t, h) in
          (
            Memᴰ.head (sym same),
            (is_iff workshop workshop_name).0 v,
            rw (← same) ((is_iff x.user user_id).0 u),
          )
      | inr f ↦
          let (m, w, u) =
            session_of_lem user_id workshop_name workshop ss s (ground (arith, f, h)) in
          (Memᴰ.tail m, w, u)
    ]

find_in_lem :
    (user_id workshop_name : String) (es : List WorkshopEnvironment) (e : WorkshopEnvironment)
    (s : WorkshopSession)
    → find_in user_id workshop_name es ≡ some (e, s)
    → Memᴰ e es × IsOwn user_id workshop_name e s
unfolding find_in
find_in_lem user_id workshop_name [] e s h = absurd (ground arith)
find_in_lem user_id workshop_name (x ∷ es) e s h =
    elim (Option-cases
      (session_of user_id workshop_name x.workshop (Environments.get_sessions x))) [
        | inl n ↦
            let (m, own) = find_in_lem user_id workshop_name es e s (ground (arith, n, h)) in
            (Memᴰ.tail m, own)
        | inr (y, k) ↦
            let same : x ≡ e = ground (arith, k, h) in
            let found : y ≡ s = ground (arith, k, h) in
            let (m, w, u) =
              session_of_lem user_id workshop_name x.workshop (Environments.get_sessions x) y k in
            (
              Memᴰ.head (sym same),
              rw (← same, ← found) (record { session_known = m; of_workshop = w; of_user = u }),
            )
      ]

-- A session that a portal finds for a user is one of the portal's, for the workshop, and the user's.
pub find_existing-IsOwn :
    (p : TrainingPortal) (user_id workshop_name : String) (e : WorkshopEnvironment)
    (s : WorkshopSession)
    → find_existing_workshop_session_for_user p user_id workshop_name ≡ some (e, s)
    → Memᴰ e (values p.environments) × IsOwn user_id workshop_name e s
unfolding find_existing_workshop_session_for_user
find_existing-IsOwn p user_id workshop_name e s h =
    find_in_lem user_id workshop_name (values p.environments) e s h
