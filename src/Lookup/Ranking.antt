-- ===== src/Lookup/Ranking.antt =====
-- `sort_workshop_environments` of lookup-service/service/routes/workshops.py. A candidate is an
-- environment with the portal and the cluster that it points back to. Python's `sorted` with
-- `reverse=True` is stable: here it is an insertion sort, largest score first.
pub mod Order
pub mod Rooms
use educates_training_platfo.Prelude.{ℕ, ◌==◌, Bool, true, false, List, [], ◌∷◌, leb, if◌then◌else◌}
use educates_training_platfo.Prelude.Int.{ℤ, pos, sub_ℕ, ltb_ℤ}
use educates_training_platfo.Lookup.Caches.Environments.{WorkshopEnvironment}
use educates_training_platfo.Lookup.Caches.Portals.{TrainingPortal}
use educates_training_platfo.Lookup.Caches.Clusters.{ClusterConfig}

pub record Candidate : Type 0 where
  pub cluster : ClusterConfig
  pub portal : TrainingPortal
  pub environment : WorkshopEnvironment

-- `capacity - allocated <= 0` is a comparison of the two.
unfoldable pub score_based_on_portal_availability : Candidate → ℕ
score_based_on_portal_availability c =
    if c.portal.capacity == 0 then 1 else if leb c.portal.capacity c.portal.allocated then 0 else 1

unfoldable pub score_based_on_environment_availability : Candidate → ℕ
score_based_on_environment_availability c =
    if c.environment.capacity == 0
    then 1
    else if leb c.environment.capacity c.environment.allocated
    then 0
    else 1

-- What the portal has left, or one place where it has no maximum.
unfoldable pub portal_capacity : Candidate → ℤ
portal_capacity c =
    if c.portal.capacity == 0 then pos 1 else sub_ℕ c.portal.capacity c.portal.allocated

unfoldable pub score_based_on_reserved_sessions : Candidate → ℤ × ℤ
score_based_on_reserved_sessions c = (portal_capacity c, pos c.environment.available)

unfoldable pub score_based_on_available_capacity : Candidate → ℤ × ℤ
score_based_on_available_capacity c =
    if c.environment.capacity == 0
    then (portal_capacity c, pos 1)
    else (portal_capacity c, sub_ℕ c.environment.capacity c.environment.allocated)

-- The key of the sort. Nested tuples of one shape compare as their entries in a row.
unfoldable pub score : Candidate → List ℤ
unfolding score_based_on_portal_availability score_based_on_environment_availability
    score_based_on_reserved_sessions score_based_on_available_capacity portal_capacity
score c =
    let (a, b) = score_based_on_reserved_sessions c in
    let (d, e) = score_based_on_available_capacity c in
    pos (score_based_on_portal_availability c)
    ∷ pos (score_based_on_environment_availability c)
    ∷ a
    ∷ b
    ∷ d
    ∷ e
    ∷ []

-- `<` on tuples.
unfoldable pub less : List ℤ → List ℤ → Bool
less xs [] = false
less [] (y ∷ ys) = true
less (x ∷ xs) (y ∷ ys) = if ltb_ℤ x y then true else if ltb_ℤ y x then false else less xs ys

-- Behind the entries with at least the same score, so that equals keep their order.
unfoldable pub insert : Candidate → List Candidate → List Candidate
insert c [] = c ∷ []
insert c (d ∷ ds) = if less (score d) (score c) then c ∷ d ∷ ds else d ∷ insert c ds

unfoldable pub insert_all : List Candidate → List Candidate → List Candidate
insert_all done [] = done
insert_all done (c ∷ cs) = insert_all (insert c done) cs

unfoldable pub sort_workshop_environments : List Candidate → List Candidate
sort_workshop_environments cs = insert_all [] cs
