-- ===== src/Lookup/Workshops/Exhausted.antt =====
-- A refusal of workshops.py comes after every environment has been asked.
use mathlib.Core.List.Memᴰ
use mathlib.Core.List.{Memᴰ}
use educates_training_platfo.Prelude.{
  ◌≡◌, refl, String, ℕ, Option, none, some, List, [], ◌∷◌, arith, Bool-cases, inl, inr, is_empty,
  nil_of_is_empty,
}
use educates_training_platfo.Lookup.Tenants.{TenantConfig, get_tenant, portals_which_are_accessible}
use educates_training_platfo.Lookup.Ranking.{
  Candidate, less, score, insert, insert_all, sort_workshop_environments,
}
use educates_training_platfo.Lookup.Remote.{
  Http, Outcome, returned, raised, Query, SessionData, request_workshop_session,
}
use educates_training_platfo.Lookup.Workshops.{
  Place, refused, Caches, or_next, try_each, candidates, selected_portals, respond, allocate_from,
  allocate_accessible, allocate_for, allocate,
}

insert-keeps : (x c : Candidate) (ds : List Candidate) → Memᴰ x (c ∷ ds) → Memᴰ x (insert c ds)
unfolding insert
insert-keeps x c [] m = m
insert-keeps x c (d ∷ ds) m = elim (Bool-cases (less (score d) (score c))) [
  | inl t ↦ rw t m
  | inr f ↦ rw f (elim m [
    | Memᴰ.head e ↦ Memᴰ.tail (insert-keeps x c ds (Memᴰ.head e))
    | Memᴰ.tail (Memᴰ.head e) ↦ Memᴰ.head e
    | Memᴰ.tail (Memᴰ.tail k) ↦ Memᴰ.tail (insert-keeps x c ds (Memᴰ.tail k))
  ])
]

insert_all-done :
    (x : Candidate) (done cs : List Candidate) → Memᴰ x done → Memᴰ x (insert_all done cs)
unfolding insert_all
insert_all-done x done [] m = m
insert_all-done x done (c ∷ cs) m =
    insert_all-done x (insert c done) cs (insert-keeps x c done (Memᴰ.tail m))

insert_all-keeps :
    (x : Candidate) (done cs : List Candidate) → Memᴰ x cs → Memᴰ x (insert_all done cs)
unfolding insert_all
insert_all-keeps x done [] m = absurd (Memᴰ.not-nil m)
insert_all-keeps x done (c ∷ cs) (Memᴰ.head e) =
    insert_all-done x (insert c done) cs (insert-keeps x c done (Memᴰ.head e))
insert_all-keeps x done (c ∷ cs) (Memᴰ.tail m) = insert_all-keeps x (insert c done) cs m

no_places :
    (workshop_name : String) (c : Candidate) → Memᴰ c (candidates workshop_name []) → Memᴰ c []
unfolding candidates
no_places workshop_name c m = m

module _ {W : Type 0} (http : Http W) (caches : Caches W) where
  or_next-none :
      (next : W → Outcome (Option SessionData) × W) (start : Outcome (Option SessionData) × W)
      → (or_next http caches next start).0 ≡ returned none
      → (start.0 ≡ returned none) × ((next start.1).0 ≡ returned none)
  unfolding or_next
  or_next-none next (raised, w) h = absurd (ground arith)
  or_next-none next (returned (some a), w) h = absurd (ground arith)
  or_next-none next (returned none, w) h = (refl, h)

  -- A loop that ends without a session has asked every environment of its list.
  try_each-asked :
      (query : Query) (cs : List Candidate) (w : W) (c : Candidate)
      → (try_each http caches query cs w).0 ≡ returned none
      → Memᴰ c cs
      → (v : W) × ((request_workshop_session http c query v).0 ≡ returned none)
  unfolding try_each
  try_each-asked query [] w c h m = absurd (Memᴰ.not-nil m)
  try_each-asked query (d ∷ cs) w c h m =
      let first = request_workshop_session http d query w in
      let (a, b) = or_next-none (try_each http caches query cs) first h in
      elim m [ Memᴰ.head e ↦ (w, rw e a) | Memᴰ.tail k ↦ try_each-asked query cs first.1 c b k ]

  respond-refused :
      (tenant_name : String) (o : Outcome (Option SessionData)) (status : ℕ)
      → respond http caches tenant_name o ≡ returned (refused status)
      → o ≡ returned none
  unfolding respond
  respond-refused tenant_name raised status h = absurd (ground arith)
  respond-refused tenant_name (returned none) status h = refl
  respond-refused tenant_name (returned (some d)) status h = absurd (ground arith)

  allocate_from-asked :
      (tenant_name workshop_name : String) (query : Query) (places : List Place) (w : W)
      (c : Candidate) (status : ℕ)
      → Memᴰ c (candidates workshop_name (selected_portals workshop_name places))
      → (allocate_from http caches tenant_name workshop_name query places w).0
        ≡ returned (refused status)
      → (v : W) × ((request_workshop_session http c query v).0 ≡ returned none)
  unfolding allocate_from sort_workshop_environments
  allocate_from-asked tenant_name workshop_name query places w c status m h =
      let selected = selected_portals workshop_name places in
      let found = candidates workshop_name selected in
      let tried = try_each http caches query (insert_all [] found) w in
      elim (Bool-cases (is_empty found)) [
        | inl t ↦ absurd (Memᴰ.not-nil (rw (nil_of_is_empty found t) at m))
        | inr g ↦ elim (Bool-cases (is_empty selected)) [
          | inl t ↦
              absurd
                (Memᴰ.not-nil (no_places workshop_name c (rw (nil_of_is_empty selected t) at m)))
          | inr f ↦
              try_each-asked query (insert_all [] found) w c
                (respond-refused tenant_name tried.0 status (ground (arith, f, g, h)))
                (insert_all-keeps c [] found m)
        ]
      ]

  -- Where the tenant is known and none of its rules raises, an allocation that ends in a refusal has
  -- asked each running environment of the workshop on the tenant's portals, and got no session.
  pub allocate-asked :
      (tenant_name workshop_name : String) (query : Query) (w : W) (t : TenantConfig)
      (places : List Place) (c : Candidate) (status : ℕ)
      → get_tenant (caches.tenant_database w) tenant_name ≡ some t
      → portals_which_are_accessible t (caches.cluster_database w) ≡ some places
      → Memᴰ c (candidates workshop_name (selected_portals workshop_name places))
      → (allocate http caches tenant_name workshop_name query w).0 ≡ returned (refused status)
      → (v : W) × ((request_workshop_session http c query v).0 ≡ returned none)
  unfolding allocate allocate_for allocate_accessible
  allocate-asked tenant_name workshop_name query w t places c status e f m h =
      allocate_from-asked tenant_name workshop_name query places w c status m (rw (e, f) at h)
