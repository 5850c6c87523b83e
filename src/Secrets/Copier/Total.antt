-- ===== src/Secrets/Copier/Total.antt =====
-- The loops of secretcopier_funcs.py are not broken off by an exception.
use educates_training_platfo.Prelude.{
  ℕ, ◌+◌, String, Bool, true, false, ◌≡◌, ◌≢◌, refl, ◌⊎◌, inl, inr, Option, none, some, List, [],
  ◌∷◌, ◌++◌, if◌then◌else◌, arith, Bool-cases, All, All-append, is_some, str_eq,
}
use educates_training_platfo.Secrets.{Namespace, namespace_selected, is_active_phase}
use educates_training_platfo.Secrets.Copier.{
  OwnerReference, ConfigKind, secret_copier, secret_exporter, Config, Rule, BoundRule, Secret,
  Importer, Reply, found, missing, failed, Action, nothing, raises, create, update, bound_rule,
  bound_rule_of, rules_from, matches_target_namespace, authorized, source_allowed,
  owner_reference_of, place, place_owned, permit, of_importer, of_source, decide_secret,
  target_name_of, matches_source_secret,
}
use educates_training_platfo.Secrets.Copier.Cluster.{
  Writes, Cluster, read_secret, read_namespace, action_in, perform, update_secret, update_secrets,
  reconcile_namespace, reconcile_all, reconcile_config, reconcile_configs, reconcile_secret,
  is_present, namespace_event, reconcile_found, secretimporters_event,
}

-- A copier's rule says who owns the copies, and an exporter's asks for a shared secret.
abbrev pub IsOwned : BoundRule → Type 0
IsOwned b = (is_some b.owner_reference ≡ true) ⊎ (is_some b.rule.shared_secret ≡ true)

bound_rule-IsOwned : (c : Config) (r : Rule) (index : ℕ) → IsOwned (bound_rule c r index)
unfolding bound_rule
bound_rule-IsOwned c r index = by_kind c.kind
  where
    by_kind : (k : ConfigKind) → IsOwned (bound_rule_of k c r index)
    by_kind secret_copier = inl refl
    by_kind secret_exporter = inr refl

rules_from-IsOwned :
    (n : Namespace) (c : Config) (index : ℕ) (rs : List Rule)
    → All IsOwned (rules_from n c index rs)
unfolding rules_from
rules_from-IsOwned n c index [] = tt
rules_from-IsOwned n c index (r ∷ rs) =
    elim (Bool-cases (namespace_selected r.target_namespaces n)) [
      | inl t ↦ rw t (bound_rule-IsOwned c r index, rules_from-IsOwned n c (index + 1) rs)
      | inr f ↦ rw f (rules_from-IsOwned n c (index + 1) rs)
    ]

pub matches_target_namespace-IsOwned :
    (n : Namespace) (cs : List Config) → All IsOwned (matches_target_namespace n cs)
unfolding matches_target_namespace
matches_target_namespace-IsOwned n [] = tt
matches_target_namespace-IsOwned n (c ∷ cs) =
    All-append IsOwned (rules_from n c 1 c.rules) (matches_target_namespace n cs)
      (rules_from-IsOwned n c 1 c.rules) (matches_target_namespace-IsOwned n cs)

place-ne-raises :
    (namespace : String) (b : BoundRule) (o : OwnerReference) (source : Secret) (rt : Reply Secret)
    → rt ≢ failed
    → place namespace b o source rt ≢ raises
unfolding place
place-ne-raises namespace b o source missing k h = ground (arith, h)
place-ne-raises namespace b o source failed k h = k refl
place-ne-raises namespace b o source (found t) k h = ground (arith, h)

owned_by :
    (b : BoundRule) (importer : Option Importer)
    → IsOwned b
    → authorized b.rule.shared_secret importer ≡ true
    → owner_reference_of b.owner_reference importer ≢ none
unfolding authorized owner_reference_of
owned_by b importer w t h = by_parts b.owner_reference b.rule.shared_secret importer w t h
  where
    by_parts :
        (reference : Option OwnerReference) (shared : Option String) (i : Option Importer)
        → (is_some reference ≡ true) ⊎ (is_some shared ≡ true)
        → authorized shared i ≡ true
        → owner_reference_of reference i ≢ none
    by_parts (some o) shared i w t h = cc
    by_parts none none i (inl e) t h = cc
    by_parts none none i (inr e) t h = cc
    by_parts none (some s) none w t h = cc
    by_parts none (some s) (some i) w t h = cc

place_owned-ne-raises :
    (namespace : String) (b : BoundRule) (source : Secret) (rt : Reply Secret)
    (o : Option OwnerReference)
    → rt ≢ failed
    → o ≢ none
    → place_owned namespace b source rt o ≢ raises
unfolding place_owned
place_owned-ne-raises namespace b source rt none k e h = e refl
place_owned-ne-raises namespace b source rt (some o) k e h =
    place-ne-raises namespace b o source rt k h

permit-ne-raises :
    (namespace : String) (b : BoundRule) (source : Secret) (importer : Option Importer)
    (rt : Reply Secret)
    → IsOwned b
    → rt ≢ failed
    → permit namespace b source importer rt ≢ raises
unfolding permit
permit-ne-raises namespace b source importer rt w k h =
    elim (Bool-cases (authorized b.rule.shared_secret importer)) [
      | inr f ↦ ground (arith, h, f)
      | inl t ↦ elim (Bool-cases (source_allowed importer source.namespace)) [
        | inr f ↦ ground (arith, h, t, f)
        | inl u ↦
            place_owned-ne-raises namespace b source rt
              (owner_reference_of b.owner_reference importer) k (owned_by b importer w t)
              (ground (arith, h, t, u))
      ]
    ]

of_source-ne-raises :
    (namespace : String) (b : BoundRule) (rs : Reply Secret) (ri : Reply Importer)
    (rt : Reply Secret)
    → IsOwned b
    → rt ≢ failed
    → of_source namespace b rs ri rt ≢ raises
unfolding of_source of_importer
of_source-ne-raises namespace b missing ri rt w k h = ground (arith, h)
of_source-ne-raises namespace b failed ri rt w k h = ground (arith, h)
of_source-ne-raises namespace b (found s) failed rt w k h = ground (arith, h)
of_source-ne-raises namespace b (found s) missing rt w k h =
    permit-ne-raises namespace b s none rt w k h
of_source-ne-raises namespace b (found s) (found i) rt w k h =
    permit-ne-raises namespace b s (some i) rt w k h

-- Only an error in reading the target is not caught.
pub decide_secret-ne-raises :
    (namespace : String) (b : BoundRule) (rs : Reply Secret) (ri : Reply Importer)
    (rt : Reply Secret)
    → IsOwned b
    → rt ≢ failed
    → decide_secret namespace b rs ri rt ≢ raises
unfolding decide_secret
decide_secret-ne-raises namespace b rs ri rt w k h =
    elim (Bool-cases (str_eq b.rule.source_secret.namespace namespace)) [
      | inl t ↦ ground (arith, h, t)
      | inr f ↦ of_source-ne-raises namespace b rs ri rt w k (rw f at h)
    ]

read_secret-ne-failed :
    (namespace name : String) (ss : List Secret) → read_secret namespace name ss ≢ failed
unfolding read_secret
read_secret-ne-failed namespace name [] h = ground (arith, h)
read_secret-ne-failed namespace name (s ∷ ss) h =
    ground (arith, h, read_secret-ne-failed namespace name ss)

abbrev pub Returns : Option Cluster → Type 0
Returns r = (c : Cluster) × (r ≡ some c)

-- A loop whose steps return.
next-Returns :
    (r : Option Cluster) (rest : Cluster → Option Cluster)
    → Returns r
    → ((c : Cluster) → Returns (rest c))
    → Returns (elim r [ none ↦ none | some c ↦ rest c ])
next-Returns none rest h k = absurd (ground (arith, h.1))
next-Returns (some c) rest h k = k c

if-Returns :
    (b : Bool) (x y : Option Cluster) → Returns x → Returns y → Returns (if b then x else y)
if-Returns true x y h k = h
if-Returns false x y h k = k

module _ (writes : Writes) (accepted : (s : Secret) → writes.refuses_update s ≡ false) where
  perform-Returns : (a : Action) (c : Cluster) → a ≢ raises → Returns (perform writes a c)
  unfolding perform
  perform-Returns nothing c h = (c, refl)
  perform-Returns raises c h = absurd (h refl)
  perform-Returns (create s) c h = if-Returns (writes.refuses_create s) _ _ (c, refl) (_, refl)
  perform-Returns (update s) c h = rw (accepted s) (_, refl)

  update_secret-Returns :
      (namespace : String) (b : BoundRule) (c : Cluster)
      → IsOwned b
      → Returns (update_secret writes namespace b c)
  unfolding update_secret action_in
  update_secret-Returns namespace b c w = perform-Returns (action_in namespace b c) c (
      decide_secret-ne-raises namespace b _ _ _ w
        (read_secret-ne-failed namespace (target_name_of b) c.secrets))

  update_secrets-Returns :
      (namespace : String) (bs : List BoundRule) (c : Cluster)
      → All IsOwned bs
      → Returns (update_secrets writes namespace bs c)
  unfolding update_secrets
  update_secrets-Returns namespace [] c w = (c, refl)
  update_secrets-Returns namespace (b ∷ bs) c w =
      next-Returns (update_secret writes namespace b c) (update_secrets writes namespace bs)
        (update_secret-Returns namespace b c w.0) (λ c'. update_secrets-Returns namespace bs c' w.1)

  reconcile_namespace-Returns :
      (n : Namespace) (configs : List Config) (c : Cluster)
      → Returns (reconcile_namespace writes n configs c)
  unfolding reconcile_namespace
  reconcile_namespace-Returns n configs c =
      if-Returns (is_active_phase n) _ _
        (update_secrets-Returns n.name _ c (matches_target_namespace-IsOwned n configs)) (c, refl)

  reconcile_all-Returns :
      (ns : List Namespace) (config : Config) (c : Cluster)
      → Returns (reconcile_all writes ns config c)
  unfolding reconcile_all
  reconcile_all-Returns [] config c = (c, refl)
  reconcile_all-Returns (n ∷ ns) config c =
      next-Returns (reconcile_namespace writes n (config ∷ []) c) (reconcile_all writes ns config)
        (reconcile_namespace-Returns n (config ∷ []) c) (reconcile_all-Returns ns config)

  reconcile_configs-Returns :
      (configs : List Config) (c : Cluster) → Returns (reconcile_configs writes configs c)
  unfolding reconcile_configs reconcile_config
  reconcile_configs-Returns [] c = (c, refl)
  reconcile_configs-Returns (config ∷ configs) c =
      next-Returns (reconcile_config writes config c) (reconcile_configs writes configs)
        (reconcile_all-Returns c.namespaces config c) (reconcile_configs-Returns configs)

  reconcile_found-Returns :
      (found_namespace : Option Namespace) (configs : List Config) (c : Cluster)
      → Returns (reconcile_found writes found_namespace configs c)
  unfolding reconcile_found
  reconcile_found-Returns none configs c = (c, refl)
  reconcile_found-Returns (some n) configs c = reconcile_namespace-Returns n configs c

  -- Where the reads of the API succeed and it refuses no update, whether or not it refuses to create:
  -- every event of a namespace and of an importer is handled to its end, and so is what the copier does
  -- for an event of a secret, whatever the copiers, the exporters, the namespaces and the secrets are.
  pub events-return :
      (event_type : Option String) (n : Namespace) (i : Importer) (name namespace : String)
      (copiers exporters : List Config) (c : Cluster)
      → Returns (namespace_event writes event_type n copiers exporters c)
        × Returns (secretimporters_event writes event_type i copiers exporters c)
        × Returns (reconcile_secret writes name namespace (copiers ++ exporters) c)
  unfolding namespace_event secretimporters_event reconcile_secret
  events-return event_type n i name namespace copiers exporters c = (
    if-Returns (is_present event_type) _ _ (reconcile_namespace-Returns n (copiers ++ exporters) c)
        (c, refl),
    if-Returns (is_present event_type) _ _
        (reconcile_found-Returns (read_namespace i.namespace c.namespaces) (copiers ++ exporters) c)
        (c, refl),
    reconcile_configs-Returns (matches_source_secret name namespace (copiers ++ exporters)) c,
  )
