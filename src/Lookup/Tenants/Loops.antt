-- ===== src/Lookup/Tenants/Loops.antt =====
-- The loops of tenants.py over clusters and portals.
use mathlib.Core.List.Memᴰ
use mathlib.Core.List.{Memᴰ}
use educates_training_platfo.Prelude.{
  ◌≡◌, ◌↔◌, ap, true, false, some, List, [], ◌∷◌, ◌++◌, arith, Option-cases, Bool-cases, inl, inr,
}
use educates_training_platfo.Lookup.Caches.Portals.{TrainingPortal}
use educates_training_platfo.Lookup.Caches.Clusters
use educates_training_platfo.Lookup.Caches.Clusters.{ClusterConfig}
use educates_training_platfo.Lookup.Tenants.{
  TenantConfig, allowed_access_to_cluster, allowed_access_to_portal, allowed_portals, allowed_in,
}

-- A portal of a cluster of the list, where the tests of both say yes.
pub record IsAllowed (t : TenantConfig) (cs : List ClusterConfig)
    (place : ClusterConfig × TrainingPortal) : Type 0 where
  pub known : Memᴰ place.0 cs
  pub hosted : Memᴰ place.1 (Clusters.get_portals place.0)
  pub cluster_allowed : allowed_access_to_cluster t place.0 ≡ some true
  pub portal_allowed : allowed_access_to_portal t place.1 ≡ some true

module _ (t : TenantConfig) (c : ClusterConfig) where
  abbrev HostedBy : List TrainingPortal → ClusterConfig × TrainingPortal → Type 0
  HostedBy ps x = (x.0 ≡ c) × Memᴰ x.1 ps × (allowed_access_to_portal t x.1 ≡ some true)

  HostedBy-cons :
      (p : TrainingPortal) (ps : List TrainingPortal) (x : ClusterConfig × TrainingPortal)
      → HostedBy ps x
      → HostedBy (p ∷ ps) x
  HostedBy-cons p ps x h = (h.0, Memᴰ.tail h.1, h.2)

  kept_iff :
      (p : TrainingPortal) (ps : List TrainingPortal) (rest : List (ClusterConfig × TrainingPortal))
      → allowed_access_to_portal t p ≡ some true
      → (x : ClusterConfig × TrainingPortal) → Memᴰ x rest ↔ HostedBy ps x
      → Memᴰ x ((c, p) ∷ rest) ↔ HostedBy (p ∷ ps) x
  kept_iff p ps rest ok x ih = (there, back)
    where
      there : Memᴰ x ((c, p) ∷ rest) → HostedBy (p ∷ ps) x
      there (Memᴰ.head e) = (
        ap (λ y. y.0) e,
        Memᴰ.head (ap (λ y. y.1) e),
        rw (ap (λ (y : ClusterConfig × TrainingPortal). y.1) e) ok,
      )
      there (Memᴰ.tail m) = HostedBy-cons p ps x (ih.0 m)

      back : HostedBy (p ∷ ps) x → Memᴰ x ((c, p) ∷ rest)
      back (a, Memᴰ.head e, b) = Memᴰ.head (ground arith)
      back (a, Memᴰ.tail m, b) = Memᴰ.tail (ih.1 (a, m, b))

  skipped_iff :
      (p : TrainingPortal) (ps : List TrainingPortal) (rest : List (ClusterConfig × TrainingPortal))
      → allowed_access_to_portal t p ≡ some false
      → (x : ClusterConfig × TrainingPortal) → Memᴰ x rest ↔ HostedBy ps x
      → Memᴰ x rest ↔ HostedBy (p ∷ ps) x
  skipped_iff p ps rest ok x ih = ((λ m. HostedBy-cons p ps x (ih.0 m)), back)
    where
      back : HostedBy (p ∷ ps) x → Memᴰ x rest
      back (a, Memᴰ.head e, b) = absurd (ground (arith, ap (allowed_access_to_portal t) e))
      back (a, Memᴰ.tail m, b) = ih.1 (a, m, b)

  allowed_portals_iff :
      (ps : List TrainingPortal) (qs : List (ClusterConfig × TrainingPortal))
      → allowed_portals t c ps ≡ some qs
      → (x : ClusterConfig × TrainingPortal) → Memᴰ x qs ↔ HostedBy ps x
  unfolding allowed_portals
  allowed_portals_iff [] qs e x =
      let none_left : [] ≡ qs = ground arith in
      ((λ m. absurd (Memᴰ.not-nil (rw (← none_left) at m))), (λ h. absurd (Memᴰ.not-nil h.1)))
  allowed_portals_iff (p ∷ ps) qs e x = elim (Option-cases (allowed_access_to_portal t p)) [
    | inl f ↦ absurd (ground arith)
    | inr (ok, f) ↦ elim (Option-cases (allowed_portals t c ps)) [
      | inl g ↦ absurd (ground arith)
      | inr (rest, g) ↦
          let ih = allowed_portals_iff ps rest g x in
          elim (Bool-cases ok) [
            | inl y ↦
                let all : (c, p) ∷ rest ≡ qs = ground arith in
                rw (← all) (kept_iff p ps rest (rw f (rw y)) x ih)
            | inr n ↦
                let all : rest ≡ qs = ground arith in
                rw (← all) (skipped_iff p ps rest (rw f (rw n)) x ih)
          ]
    ]
  ]

module _ (t : TenantConfig) where
  IsAllowed-cons :
      (c : ClusterConfig) (cs : List ClusterConfig) (x : ClusterConfig × TrainingPortal)
      → IsAllowed t cs x
      → IsAllowed t (c ∷ cs) x
  IsAllowed-cons c cs x h = record {
    known = Memᴰ.tail h.known;
    hosted = h.hosted;
    cluster_allowed = h.cluster_allowed;
    portal_allowed = h.portal_allowed;
  }

  barred_iff :
      (c : ClusterConfig) (cs : List ClusterConfig) (qs : List (ClusterConfig × TrainingPortal))
      → allowed_access_to_cluster t c ≡ some false
      → (x : ClusterConfig × TrainingPortal) → Memᴰ x qs ↔ IsAllowed t cs x
      → Memᴰ x qs ↔ IsAllowed t (c ∷ cs) x
  barred_iff c cs qs barred x ih = ((λ m. IsAllowed-cons c cs x (ih.0 m)), λ h. back h h.known)
    where
      back : IsAllowed t (c ∷ cs) x → Memᴰ x.0 (c ∷ cs) → Memᴰ x qs
      back h (Memᴰ.head e) =
          absurd (ground (arith, ap (allowed_access_to_cluster t) e, h.cluster_allowed))
      back h (Memᴰ.tail m) = ih.1 (record {
        known = m;
        hosted = h.hosted;
        cluster_allowed = h.cluster_allowed;
        portal_allowed = h.portal_allowed;
      })

  open_iff :
      (c : ClusterConfig) (cs : List ClusterConfig)
      (first rest : List (ClusterConfig × TrainingPortal))
      → allowed_access_to_cluster t c ≡ some true
      → (x : ClusterConfig × TrainingPortal)
      → Memᴰ x first ↔ HostedBy t c (Clusters.get_portals c) x
      → Memᴰ x rest ↔ IsAllowed t cs x
      → Memᴰ x (first ++ rest) ↔ IsAllowed t (c ∷ cs) x
  open_iff c cs first rest ok x here ih = (there, λ h. back h h.known)
    where
      own : HostedBy t c (Clusters.get_portals c) x → IsAllowed t (c ∷ cs) x
      own (a, b, d) = record {
        known = Memᴰ.head a;
        hosted = rw a b;
        cluster_allowed = rw a ok;
        portal_allowed = d;
      }

      there : Memᴰ x (first ++ rest) → IsAllowed t (c ∷ cs) x
      there m = elim (Memᴰ.append_cases first m) [
        | inl l ↦ own (here.0 l)
        | inr r ↦ IsAllowed-cons c cs x (ih.0 r)
      ]

      back : IsAllowed t (c ∷ cs) x → Memᴰ x.0 (c ∷ cs) → Memᴰ x (first ++ rest)
      back h (Memᴰ.head e) = Memᴰ.append_left rest (here.1 (e, rw (← e) h.hosted, h.portal_allowed))
      back h (Memᴰ.tail m) = Memᴰ.append_right first (
          ih.1 (record {
            known = m;
            hosted = h.hosted;
            cluster_allowed = h.cluster_allowed;
            portal_allowed = h.portal_allowed;
          }))

  pub allowed_in_iff :
      (cs : List ClusterConfig) (qs : List (ClusterConfig × TrainingPortal))
      → allowed_in t cs ≡ some qs
      → (x : ClusterConfig × TrainingPortal) → Memᴰ x qs ↔ IsAllowed t cs x
  unfolding allowed_in
  allowed_in_iff [] qs e x =
      let none_left : [] ≡ qs = ground arith in
      ((λ m. absurd (Memᴰ.not-nil (rw (← none_left) at m))), (λ h. absurd (Memᴰ.not-nil h.known)))
  allowed_in_iff (c ∷ cs) qs e x = elim (Option-cases (allowed_access_to_cluster t c)) [
    | inl f ↦ absurd (ground arith)
    | inr (ok, f) ↦ elim (Bool-cases ok) [
      | inr n ↦ barred_iff c cs qs (rw f (rw n)) x (allowed_in_iff cs qs (ground arith) x)
      | inl y ↦ elim (Option-cases (allowed_portals t c (Clusters.get_portals c))) [
        | inl g ↦ absurd (ground arith)
        | inr (first, g) ↦ elim (Option-cases (allowed_in t cs)) [
          | inl k ↦ absurd (ground arith)
          | inr (rest, k) ↦
              let all : first ++ rest ≡ qs = ground arith in
              rw (← all) (
                open_iff c cs first rest (rw f (rw y)) x
                  (allowed_portals_iff t c (Clusters.get_portals c) first g x)
                  (allowed_in_iff cs rest k x))
        ]
      ]
    ]
  ]
