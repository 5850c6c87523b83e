-- ===== src/Secrets/Copier/Cluster.antt =====
-- The loops of secretcopier_funcs.py over namespaces and rules, and the events that start them, on a
-- cluster whose reads succeed. Which of its writes the API refuses is a parameter.
use educates_training_platfo.Prelude.{
  String, Bool, true, false, ◌&&◌, ◌||◌, Option, none, some, List, [], ◌∷◌, ◌++◌, if◌then◌else◌, is,
  str_eq,
}
use educates_training_platfo.Secrets.{Namespace, is_active_phase}
use educates_training_platfo.Secrets.Copier.{
  Config, BoundRule, Secret, Importer, Reply, found, missing, Action, nothing, raises, create,
  update, matches_target_namespace, matches_source_secret, target_name_of, decide_secret,
}

-- What the copier reads and writes. The configurations are those of the indexes.
pub record Cluster : Type 0 where
  pub namespaces : List Namespace
  pub secrets : List Secret
  pub importers : List Importer

abbrev pub is_secret : String → String → Secret → Bool
is_secret namespace name s = str_eq s.namespace namespace && str_eq s.name name

unfoldable pub read_secret : String → String → List Secret → Reply Secret
read_secret namespace name [] = missing
read_secret namespace name (s ∷ ss) =
    if is_secret namespace name s then found s else read_secret namespace name ss

unfoldable pub read_importer : String → String → List Importer → Reply Importer
read_importer namespace name [] = missing
read_importer namespace name (i ∷ is) =
    if str_eq i.namespace namespace && str_eq i.name name
    then found i
    else read_importer namespace name is

-- A secret takes the place of the one of its name, or is a new one.
unfoldable pub write_secret : Secret → List Secret → List Secret
write_secret s [] = s ∷ []
write_secret s (t ∷ ss) = if is_secret s.namespace s.name t then s ∷ ss else t ∷ write_secret s ss

unfoldable pub action_in : String → BoundRule → Cluster → Action
action_in namespace b c =
    decide_secret namespace b
      (read_secret b.rule.source_secret.namespace b.rule.source_secret.name c.secrets)
      (read_importer namespace (target_name_of b) c.importers)
      (read_secret namespace (target_name_of b) c.secrets)

-- `type not in (None, "ADDED", "MODIFIED")` leaves an event alone.
unfoldable pub is_present : Option String → Bool
is_present none = true
is_present (some t) = str_eq t "ADDED" || str_eq t "MODIFIED"

unfoldable pub read_namespace : String → List Namespace → Option Namespace
read_namespace name [] = none
read_namespace name (n ∷ ns) = if str_eq n.name name then some n else read_namespace name ns

-- What the Kubernetes API refuses to write.
pub record Writes : Type 0 where
  pub refuses_create : Secret → Bool
  pub refuses_update : Secret → Bool

abbrev pub accepting : Writes
accepting = record { refuses_create = λ _. false; refuses_update = λ _. false }

module _ (writes : Writes) where
  -- `none` is an exception. A creation that the API refuses is caught and logged; an update is not in
  -- a `try`.
  unfoldable pub perform : Action → Cluster → Option Cluster
  perform nothing c = some c
  perform raises c = none
  perform (create s) c =
      if writes.refuses_create s
      then some c
      else some (record c { secrets = write_secret s c.secrets })
  perform (update s) c =
      if writes.refuses_update s
      then none
      else some (record c { secrets = write_secret s c.secrets })

  unfoldable pub update_secret : String → BoundRule → Cluster → Option Cluster
  unfolding perform
  update_secret namespace b c = perform (action_in namespace b c) c

  unfoldable pub update_secrets : String → List BoundRule → Cluster → Option Cluster
  update_secrets namespace [] c = some c
  update_secrets namespace (b ∷ bs) c = elim (update_secret namespace b c) [
    | none ↦ none
    | some c' ↦ update_secrets namespace bs c'
  ]

  unfoldable pub reconcile_namespace : Namespace → List Config → Cluster → Option Cluster
  reconcile_namespace n configs c =
      if is_active_phase n
      then update_secrets n.name (matches_target_namespace n configs) c
      else some c

  -- The loop over the namespaces that the API lists.
  unfoldable pub reconcile_all : List Namespace → Config → Cluster → Option Cluster
  reconcile_all [] config c = some c
  reconcile_all (n ∷ ns) config c = elim (reconcile_namespace n (config ∷ []) c) [
    | none ↦ none
    | some c' ↦ reconcile_all ns config c'
  ]

  unfoldable pub reconcile_config : Config → Cluster → Option Cluster
  reconcile_config config c = reconcile_all c.namespaces config c

  unfoldable pub reconcile_configs : List Config → Cluster → Option Cluster
  reconcile_configs [] c = some c
  reconcile_configs (config ∷ configs) c = elim (reconcile_config config c) [
    | none ↦ none
    | some c' ↦ reconcile_configs configs c'
  ]

  unfoldable pub reconcile_secret : String → String → List Config → Cluster → Option Cluster
  reconcile_secret name namespace configs c =
      reconcile_configs (matches_source_secret name namespace configs) c

  unfoldable pub namespace_event :
      Option String → Namespace → List Config → List Config → Cluster → Option Cluster
  namespace_event event_type n copiers exporters c =
      if is_present event_type then reconcile_namespace n (copiers ++ exporters) c else some c

  unfoldable pub reconcile_found : Option Namespace → List Config → Cluster → Option Cluster
  reconcile_found none configs c = some c
  reconcile_found (some n) configs c = reconcile_namespace n configs c

  unfoldable pub secretimporters_event :
      Option String → Importer → List Config → List Config → Cluster → Option Cluster
  unfolding reconcile_found
  secretimporters_event event_type i copiers exporters c =
      if is_present event_type
      then reconcile_found (read_namespace i.namespace c.namespaces) (copiers ++ exporters) c
      else some c
