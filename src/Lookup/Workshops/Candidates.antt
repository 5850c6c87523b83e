-- ===== src/Lookup/Workshops/Candidates.antt =====
-- Which environments workshops.py asks for a session: those of the accessible portals.
use mathlib.Core.List.Memᴰ
use mathlib.Core.List.{Memᴰ}
use educates_training_platfo.Prelude.{
  keep-member, ◌≡◌, ap, String, true, List, [], ◌∷◌, arith, Bool-cases, inl, inr, ◌⊎◌, map, is,
}
use educates_training_platfo.Lookup.Caches.Environments.{WorkshopEnvironment}
use educates_training_platfo.Lookup.Caches.Portals
use educates_training_platfo.Lookup.Caches.Portals.{TrainingPortal}
use educates_training_platfo.Lookup.Caches.Clusters
use educates_training_platfo.Lookup.Caches.Clusters.{ClusterConfig}
use educates_training_platfo.Lookup.Ranking.{
  Candidate, less, score, insert, insert_all, sort_workshop_environments,
}
use educates_training_platfo.Lookup.Workshops.{
  Place, environments_of, candidates, selected_portals, portals_of,
}

swapped :
    (x c d : Candidate) (rest ds : List Candidate)
    → (Memᴰ x rest → Memᴰ x (c ∷ ds))
    → Memᴰ x (d ∷ rest)
    → Memᴰ x (c ∷ d ∷ ds)
swapped x c d rest ds ih (Memᴰ.head e) = Memᴰ.tail (Memᴰ.head e)
swapped x c d rest ds ih (Memᴰ.tail k) = elim (ih k) [
  | Memᴰ.head e ↦ Memᴰ.head e
  | Memᴰ.tail l ↦ Memᴰ.tail (Memᴰ.tail l)
]

insert-member : (x c : Candidate) (ds : List Candidate) → Memᴰ x (insert c ds) → Memᴰ x (c ∷ ds)
unfolding insert
insert-member x c [] m = m
insert-member x c (d ∷ ds) m = elim (Bool-cases (less (score d) (score c))) [
  | inl t ↦ rw t at m
  | inr f ↦ swapped x c d (insert c ds) ds (λ k. insert-member x c ds k) (rw f at m)
]

insert_all-member :
    (x : Candidate) (done cs : List Candidate)
    → Memᴰ x (insert_all done cs)
    → Memᴰ x done ⊎ Memᴰ x cs
unfolding insert_all
insert_all-member x done [] m = inl m
insert_all-member x done (c ∷ cs) m = elim (insert_all-member x (insert c done) cs m) [
  | inr k ↦ inr (Memᴰ.tail k)
  | inl k ↦ elim (insert-member x c done k) [
    | Memᴰ.head e ↦ inr (Memᴰ.head e)
    | Memᴰ.tail l ↦ inl l
  ]
]

pub sort-member :
    (x : Candidate) (cs : List Candidate) → Memᴰ x (sort_workshop_environments cs) → Memᴰ x cs
unfolding sort_workshop_environments
sort-member x cs m = elim (insert_all-member x [] cs m) [
  | inl k ↦ absurd (Memᴰ.not-nil k)
  | inr k ↦ k
]

-- A candidate of a place is an environment of its portal, for the workshop.
pub record IsOffered (workshop_name : String) (c : Candidate) (x : Place)
    (es : List WorkshopEnvironment) : Type 0 where
  pub cluster_of : c.cluster ≡ x.0
  pub portal_of : c.portal ≡ x.1
  pub listed : Memᴰ c.environment es
  pub workshop_of : is c.environment.workshop workshop_name ≡ true

IsOffered-cons :
    (workshop_name : String) (c : Candidate) (x : Place) (e : WorkshopEnvironment)
    (es : List WorkshopEnvironment)
    → IsOffered workshop_name c x es
    → IsOffered workshop_name c x (e ∷ es)
IsOffered-cons workshop_name c x e es o = record {
  cluster_of = o.cluster_of;
  portal_of = o.portal_of;
  listed = Memᴰ.tail o.listed;
  workshop_of = o.workshop_of;
}

environments_of-IsOffered :
    (workshop_name : String) (c : Candidate) (x : Place) (es : List WorkshopEnvironment)
    → Memᴰ c (environments_of workshop_name x es)
    → IsOffered workshop_name c x es
unfolding environments_of
environments_of-IsOffered workshop_name c x [] m = absurd (Memᴰ.not-nil m)
environments_of-IsOffered workshop_name c x (e ∷ es) m =
    elim (Bool-cases (is e.workshop workshop_name)) [
      | inl t ↦ elim (rw t at m) [
        | Memᴰ.head h ↦ record {
          cluster_of = ap (λ (y : Candidate). y.cluster) h;
          portal_of = ap (λ (y : Candidate). y.portal) h;
          listed = Memᴰ.head (ap (λ (y : Candidate). y.environment) h);
          workshop_of = rw (ap (λ (y : Candidate). y.environment) h) t;
        }
        | Memᴰ.tail k ↦
            IsOffered-cons workshop_name c x e es (environments_of-IsOffered workshop_name c x es k)
      ]
      | inr f ↦
          IsOffered-cons workshop_name c x e es
            (environments_of-IsOffered workshop_name c x es (rw f at m))
    ]

-- A candidate of some places belongs to one of them.
pub candidates-IsOffered :
    (workshop_name : String) (c : Candidate) (xs : List Place)
    → Memᴰ c (candidates workshop_name xs)
    → Memᴰ (c.cluster, c.portal) xs
      × Memᴰ c.environment (Portals.get_running_environments c.portal)
      × (is c.environment.workshop workshop_name ≡ true)
unfolding candidates
candidates-IsOffered workshop_name c [] m = absurd (Memᴰ.not-nil m)
candidates-IsOffered workshop_name c (x ∷ xs) m =
    elim (Memᴰ.append_cases (environments_of workshop_name x (Portals.get_running_environments x.1))
      m) [
        | inl k ↦
            let o = environments_of-IsOffered workshop_name c x _ k in
            (
              Memᴰ.head (ground (arith, o.cluster_of, o.portal_of)),
              rw o.portal_of o.listed,
              o.workshop_of,
            )
        | inr k ↦ let (a, b, d) = candidates-IsOffered workshop_name c xs k in (Memᴰ.tail a, b, d)
      ]

-- Only portals that host the workshop are asked.
pub selected_portals-member :
    (workshop_name : String) (x : Place) (xs : List Place)
    → Memᴰ x (selected_portals workshop_name xs)
    → Memᴰ x xs
unfolding selected_portals
selected_portals-member workshop_name x xs m = (keep-member _ x xs m).0

-- A place of the list of all places belongs to one of the clusters.
pub portals_of-member :
    (x : Place) (cs : List ClusterConfig)
    → Memᴰ x (portals_of cs)
    → Memᴰ x.0 cs × Memᴰ x.1 (Clusters.get_portals x.0)
unfolding portals_of
portals_of-member x [] m = absurd (Memᴰ.not-nil m)
portals_of-member x (c ∷ cs) m =
    elim (Memᴰ.append_cases (map (λ p. (c, p)) (Clusters.get_portals c)) m) [
      | inl k ↦ let (e, h) = paired c (Clusters.get_portals c) k in (Memᴰ.head e, rw e h)
      | inr k ↦ let (a, b) = portals_of-member x cs k in (Memᴰ.tail a, b)
    ]
  where
    paired :
        (c : ClusterConfig) (ps : List TrainingPortal)
        → Memᴰ x (map (λ p. (c, p)) ps)
        → (x.0 ≡ c) × Memᴰ x.1 ps
    paired c [] k = absurd (Memᴰ.not-nil k)
    paired c (p ∷ ps) (Memᴰ.head e) =
        (ap (λ (y : Place). y.0) e, Memᴰ.head (ap (λ (y : Place). y.1) e))
    paired c (p ∷ ps) (Memᴰ.tail l) = let (a, b) = paired c ps l in (a, Memᴰ.tail b)
