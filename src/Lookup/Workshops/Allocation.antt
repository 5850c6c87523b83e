-- ===== src/Lookup/Workshops/Allocation.antt =====
-- Where the session that workshops.py answers with comes from.
use mathlib.Core.List.{Memᴰ}
use educates_training_platfo.Prelude.{
  ◌≡◌, refl, ◌∙◌, String, true, Option, none, some, List, arith, Bool-cases, inl, inr, ◌⊎◌, is,
  truthy, is_empty,
}
use educates_training_platfo.Lookup.Caches.Sessions.{WorkshopSession}
use educates_training_platfo.Lookup.Caches.Environments.{WorkshopEnvironment}
use educates_training_platfo.Lookup.Caches.Portals
use educates_training_platfo.Lookup.Caches.Clusters
use educates_training_platfo.Lookup.Caches.Clients.{ClientConfig, allowed_access_to_tenant}
use educates_training_platfo.Lookup.Tenants.{
  TenantConfig, get_clusters, get_tenant, portals_which_are_accessible,
}
use educates_training_platfo.Lookup.Tenants.Accessible.{
  IsAccessible, portals_which_are_accessible_iff,
}
use educates_training_platfo.Lookup.Ranking.{Candidate, sort_workshop_environments}
use educates_training_platfo.Lookup.Workshops.Candidates.{
  sort-member, candidates-IsOffered, selected_portals-member, portals_of-member,
}
use educates_training_platfo.Lookup.Remote.{Http, Outcome, returned, raised, Query, SessionData}
use educates_training_platfo.Lookup.Remote.Provenance.{Names, IsFor, IsAnswer}
use educates_training_platfo.Dict.{values}
use educates_training_platfo.Lookup.Workshops.Own.{IsOwn, find_existing-IsOwn}
use educates_training_platfo.Lookup.Workshops.Loops.{try_each-Names, find_existing-Names}
use educates_training_platfo.Lookup.Workshops.{
  Place, session, WorkshopRequest, Caches, text_or_empty, query_of, user_of, candidates,
  selected_portals, try_each, respond, allocate_from, allocate_accessible, allocate_for, allocate,
  after_existing, serve, api_post_v1_workshops, find_existing, portals_of,
}

-- A workshop session that the user has on a portal of the clusters that the service knows.
pub record IsReacquired {W : Type 0} (caches : Caches W) (user_id workshop_name : String) (w : W)
    (d : SessionData) : Type 0 where
  pub place : Place
  pub environment : WorkshopEnvironment
  pub own : WorkshopSession
  pub cluster_known : Memᴰ place.0 (get_clusters (caches.cluster_database w))
  pub portal_known : Memᴰ place.1 (Clusters.get_portals place.0)
  pub environment_known : Memᴰ environment (values place.1.environments)
  pub is_own : IsOwn user_id workshop_name environment own
  pub named : Names d (record { cluster = place.0; portal = place.1; environment = environment })
  pub names_own : IsFor d (some own.name) (some user_id)

-- A session with which the portal answered the query, in a running environment of the workshop, on a
-- portal that the tenant may use, at the time `w`.
pub record IsAllocated {W : Type 0} (http : Http W) (caches : Caches W)
    (tenant_name workshop_name : String) (query : Query) (w : W) (d : SessionData) : Type 0 where
  pub tenant : TenantConfig
  pub chosen : Candidate
  pub tenant_known : get_tenant (caches.tenant_database w) tenant_name ≡ some tenant
  pub accessible :
      IsAccessible tenant (get_clusters (caches.cluster_database w)) (chosen.cluster, chosen.portal)
  pub running : Memᴰ chosen.environment (Portals.get_running_environments chosen.portal)
  pub workshop_of : is chosen.environment.workshop workshop_name ≡ true
  pub named : Names d chosen
  pub answer : IsAnswer http chosen query d

module _ {W : Type 0} (http : Http W) (caches : Caches W) where
  respond-session :
      (tenant_name : String) (o : Outcome (Option SessionData)) (d : SessionData) (tn : String)
      → respond http caches tenant_name o ≡ returned (session d tn)
      → (o ≡ returned (some d)) × (tn ≡ tenant_name)
  unfolding respond
  respond-session tenant_name raised d tn h = absurd (ground arith)
  respond-session tenant_name (returned none) d tn h = absurd (ground arith)
  respond-session tenant_name (returned (some a)) d tn h = (ground arith, ground arith)

  allocate_from-Names :
      (tenant_name workshop_name : String) (query : Query) (places : List Place) (w : W)
      (d : SessionData) (tn : String)
      → (allocate_from http caches tenant_name workshop_name query places w).0
        ≡ returned (session d tn)
      → (tn ≡ tenant_name)
        × (c : Candidate) × Memᴰ c
            (candidates workshop_name (selected_portals workshop_name places))
        × Names d c
        × IsAnswer http c query d
  unfolding allocate_from
  allocate_from-Names tenant_name workshop_name query places w d tn h =
      let found = candidates workshop_name (selected_portals workshop_name places) in
      let sorted = sort_workshop_environments found in
      let tried = try_each http caches query sorted w in
      elim (Bool-cases (is_empty (selected_portals workshop_name places))) [
        | inl t ↦ absurd (ground (arith, t, h))
        | inr f ↦ elim (Bool-cases (is_empty found)) [
          | inl t ↦ absurd (ground (arith, f, t, h))
          | inr g ↦
              let (e, same) = respond-session tenant_name tried.0 d tn (ground (arith, f, g, h)) in
              let (c, m, named, asked) = try_each-Names http caches query sorted w d e in
              (same, c, sort-member c found m, named, asked)
        ]
      ]

  allocate_accessible-IsAllocated :
      (tenant_name workshop_name : String) (query : Query) (w : W) (d : SessionData) (tn : String)
      (t : TenantConfig) (places : Option (List Place))
      → get_tenant (caches.tenant_database w) tenant_name ≡ some t
      → portals_which_are_accessible t (caches.cluster_database w) ≡ places
      → (allocate_accessible http caches tenant_name workshop_name query places w).0
        ≡ returned (session d tn)
      → (tn ≡ tenant_name) × IsAllocated http caches tenant_name workshop_name query w d
  unfolding allocate_accessible
  allocate_accessible-IsAllocated tenant_name workshop_name query w d tn t none e f h =
      absurd (ground arith)
  allocate_accessible-IsAllocated tenant_name workshop_name query w d tn t (some places) e f h =
      let (same, c, m, named, asked) =
        allocate_from-Names tenant_name workshop_name query places w d tn h in
      let (n, running, workshop_of) = candidates-IsOffered workshop_name c _ m in
      (
        same,
        record {
          tenant = t;
          chosen = c;
          tenant_known = e;
          accessible =
              (portals_which_are_accessible_iff t (caches.cluster_database w) places _ f).0
                (selected_portals-member workshop_name _ places n);
          running = running;
          workshop_of = workshop_of;
          named = named;
          answer = asked;
        },
      )

  allocate_for-IsAllocated :
      (tenant_name workshop_name : String) (query : Query) (w : W) (d : SessionData) (tn : String)
      (t : Option TenantConfig)
      → get_tenant (caches.tenant_database w) tenant_name ≡ t
      → (allocate_for http caches tenant_name workshop_name query t w).0 ≡ returned (session d tn)
      → (tn ≡ tenant_name) × IsAllocated http caches tenant_name workshop_name query w d
  unfolding allocate_for
  allocate_for-IsAllocated tenant_name workshop_name query w d tn none e h = absurd (ground arith)
  allocate_for-IsAllocated tenant_name workshop_name query w d tn (some t) e h =
      allocate_accessible-IsAllocated tenant_name workshop_name query w d tn t _ e refl h

  -- Where a session that is given to a request comes from.
  abbrev Origin : String → String → String → Query → W → SessionData → Type 0
  Origin tenant_name workshop_name user_id query w d =
      IsReacquired caches user_id workshop_name w d
      ⊎ ((v : W) × IsAllocated http caches tenant_name workshop_name query v d)

  allocate-Origin :
      (tenant_name workshop_name : String) (query : Query) (user_id : String) (w v : W)
      (d : SessionData) (tn : String)
      → (allocate http caches tenant_name workshop_name query v).0 ≡ returned (session d tn)
      → (tn ≡ tenant_name) × Origin tenant_name workshop_name user_id query w d
  unfolding allocate
  allocate-Origin tenant_name workshop_name query user_id w v d tn h =
      let (same, a) = allocate_for-IsAllocated tenant_name workshop_name query v d tn _ refl h in
      (same, inr (v, a))

  after_existing-Origin :
      (tenant_name workshop_name : String) (query : Query) (user_id : String) (w : W)
      (start : Outcome (Option SessionData) × W) (d : SessionData) (tn : String)
      → ((a : SessionData)
          → start.0 ≡ returned (some a)
          → IsReacquired caches user_id workshop_name w a)
      → (after_existing http caches tenant_name workshop_name query start).0
        ≡ returned (session d tn)
      → (tn ≡ tenant_name) × Origin tenant_name workshop_name user_id query w d
  unfolding after_existing
  after_existing-Origin tenant_name workshop_name query user_id w (raised, v) d tn own h =
      absurd (ground arith)
  after_existing-Origin tenant_name workshop_name query user_id w (returned (some a), v) d tn own
        h =
      let same : a ≡ d = ground arith in (ground arith, inl (own d (rw same refl)))
  after_existing-Origin tenant_name workshop_name query user_id w (returned none, v) d tn own h =
      allocate-Origin tenant_name workshop_name query user_id w v d tn h

  serve-Origin :
      (tenant_name workshop_name : String) (query : Query) (user_id : String) (w : W)
      (d : SessionData) (tn : String)
      → (serve http caches tenant_name workshop_name query user_id w).0 ≡ returned (session d tn)
      → (tn ≡ tenant_name) × Origin tenant_name workshop_name user_id query w d
  unfolding serve
  serve-Origin tenant_name workshop_name query user_id w d tn h =
      let places = portals_of (get_clusters (caches.cluster_database w)) in
      elim (Bool-cases (truthy user_id)) [
        | inr f ↦
            allocate-Origin tenant_name workshop_name query user_id w w d tn (ground (arith, f, h))
        | inl t ↦
            let start = find_existing http caches user_id workshop_name query.index_url places w in
            after_existing-Origin tenant_name workshop_name query user_id w start d tn own
              (ground (arith, t, h))
      ]
    where
      own :
          (a : SessionData)
          → (find_existing http caches user_id workshop_name query.index_url
              (portals_of (get_clusters (caches.cluster_database w)))
              w).0
            ≡ returned (some a)
          → IsReacquired caches user_id workshop_name w a
      own a e =
          let (x, en, s, m, f, named, mine) =
            find_existing-Names http caches user_id workshop_name query.index_url _ w a e in
          let (known, hosted) = portals_of-member x _ m in
          let (there, is_own) = find_existing-IsOwn x.1 user_id workshop_name en s f in
          record {
            place = x;
            environment = en;
            own = s;
            cluster_known = known;
            portal_known = hosted;
            environment_known = there;
            is_own = is_own;
            named = named;
            names_own = (mine.0, mine.1 ∙ is_own.of_user);
          }

  -- A request that is answered with a session comes from a client that may use the tenant. The
  -- answer names a session that the user has already in an environment of the workshop, on a portal
  -- of the known clusters, and the user; or it names a running environment of the workshop, on a
  -- portal that the tenant's rules allow, and the session and the address with which that portal
  -- answered the request for a session there.
  pub api_post_v1_workshops_sound :
      (client : ClientConfig) (data' : WorkshopRequest) (w : W) (d : SessionData) (tn : String)
      → (api_post_v1_workshops http caches client data' w).0 ≡ returned (session d tn)
      → (allowed_access_to_tenant client (text_or_empty data'.tenant_name) ≡ true)
        × (tn ≡ text_or_empty data'.tenant_name)
        × (IsReacquired caches (user_of client data') (text_or_empty data'.workshop_name) w d
            ⊎ ((v : W) × IsAllocated http caches
                  (text_or_empty data'.tenant_name)
                  (text_or_empty data'.workshop_name)
                  (query_of client data')
                  v
                  d))
  unfolding api_post_v1_workshops
  api_post_v1_workshops_sound client data' w d tn h =
      let tenant_name = text_or_empty data'.tenant_name in
      let workshop_name = text_or_empty data'.workshop_name in
      elim (Bool-cases (truthy tenant_name)) [
        | inr f ↦ absurd (ground (arith, f, h))
        | inl t ↦ elim (Bool-cases (truthy workshop_name)) [
          | inr f ↦ absurd (ground (arith, t, f, h))
          | inl u ↦ elim (Bool-cases (allowed_access_to_tenant client tenant_name)) [
            | inr f ↦ absurd (ground (arith, t, u, f, h))
            | inl v ↦
                let (same, origin) =
                  serve-Origin tenant_name workshop_name (query_of client data')
                    (user_of client data') w d tn (ground (arith, t, u, v, h)) in
                (v, same, origin)
          ]
        ]
      ]
