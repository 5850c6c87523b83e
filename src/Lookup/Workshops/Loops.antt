-- ===== src/Lookup/Workshops/Loops.antt =====
-- Which session the two loops of workshops.py give.
use mathlib.Core.List.{Memᴰ}
use educates_training_platfo.Prelude.{
  ◌≡◌, refl, String, Option, none, some, List, [], ◌∷◌, arith, inl, inr, ◌⊎◌,
}
use educates_training_platfo.Lookup.Caches.Sessions.{WorkshopSession}
use educates_training_platfo.Lookup.Caches.Environments.{WorkshopEnvironment}
use educates_training_platfo.Lookup.Caches.Portals
use educates_training_platfo.Lookup.Ranking.{Candidate}
use educates_training_platfo.Lookup.Remote.{
  Http, Outcome, returned, raised, Query, SessionData, request_workshop_session,
}
use educates_training_platfo.Lookup.Remote.Provenance.{
  Names, IsFor, IsAnswer, request_workshop_session-Names, reacquire_workshop_session-Names,
}
use educates_training_platfo.Lookup.Workshops.{
  Place, Caches, try_each, find_existing, existing_at, or_next,
}

module _ {W : Type 0} (http : Http W) (caches : Caches W) where
  -- Data comes from this step of a loop or from the rest of the loop.
  or_next-cases :
      (next : W → Outcome (Option SessionData) × W) (start : Outcome (Option SessionData) × W)
      (d : SessionData)
      → (or_next http caches next start).0 ≡ returned (some d)
      → (start.0 ≡ returned (some d)) ⊎ ((next start.1).0 ≡ returned (some d))
  unfolding or_next
  or_next-cases next (raised, w) d h = inl h
  or_next-cases next (returned (some a), w) d h = inl h
  or_next-cases next (returned none, w) d h = inr h

  -- A session that the loop over the environments gives is one of an environment of the list.
  pub try_each-Names :
      (query : Query) (cs : List Candidate) (w : W) (d : SessionData)
      → (try_each http caches query cs w).0 ≡ returned (some d)
      → (c : Candidate) × Memᴰ c cs × Names d c × IsAnswer http c query d
  unfolding try_each
  try_each-Names query [] w d h = absurd (ground arith)
  try_each-Names query (c ∷ cs) w d h =
      let first = request_workshop_session http c query w in
      elim (or_next-cases (try_each http caches query cs) first d h) [
        | inl e ↦
            let (named, asked) = request_workshop_session-Names http c query w d e in
            (c, Memᴰ.head refl, named, asked)
        | inr e ↦
            let (x, m, named, asked) = try_each-Names query cs first.1 d e in
            (x, Memᴰ.tail m, named, asked)
      ]

  -- Data at a place is that of the session that the user has there.
  existing_at-Names :
      (index_url : String) (x : Place) (own : Option (WorkshopEnvironment × WorkshopSession))
      (w : W) (d : SessionData)
      → (existing_at http caches index_url x own w).0 ≡ returned (some d)
      → (e : WorkshopEnvironment) × (s : WorkshopSession) × (own ≡ some (e, s))
        × Names d (record { cluster = x.0; portal = x.1; environment = e })
        × IsFor d (some s.name) s.user
  unfolding existing_at
  existing_at-Names index_url x none w d h = absurd (ground arith)
  existing_at-Names index_url x (some (e, s)) w d h =
      let (named, mine) = reacquire_workshop_session-Names http _ s index_url w d h in
      (e, s, refl, named, mine)

  pub find_existing-Names :
      (user_id workshop_name index_url : String) (xs : List Place) (w : W) (d : SessionData)
      → (find_existing http caches user_id workshop_name index_url xs w).0 ≡ returned (some d)
      → (x : Place) × (e : WorkshopEnvironment) × (s : WorkshopSession) × Memᴰ x xs
        × (Portals.find_existing_workshop_session_for_user x.1 user_id workshop_name ≡ some (e, s))
        × Names d (record { cluster = x.0; portal = x.1; environment = e })
        × IsFor d (some s.name) s.user
  unfolding find_existing
  find_existing-Names user_id workshop_name index_url [] w d h = absurd (ground arith)
  find_existing-Names user_id workshop_name index_url (x ∷ xs) w d h =
      let own = Portals.find_existing_workshop_session_for_user x.1 user_id workshop_name in
      let first = existing_at http caches index_url x own w in
      elim (or_next-cases (find_existing http caches user_id workshop_name index_url xs) first d
        h) [
          | inl k ↦
              let (e, s, f, named, mine) = existing_at-Names index_url x own w d k in
              (x, e, s, Memᴰ.head refl, f, named, mine)
          | inr k ↦
              let (y, e, s, m, f, named, mine) =
                find_existing-Names user_id workshop_name index_url xs first.1 d k in
              (y, e, s, Memᴰ.tail m, f, named, mine)
        ]
