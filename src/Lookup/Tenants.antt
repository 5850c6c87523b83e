-- ===== src/Lookup/Tenants.antt =====
-- lookup-service/service/caches/tenants.py, with the tenants' and clusters' parts of databases.py
-- and lookup-service/service/handlers/tenants.py. A portal points back to its cluster, so a portal
-- that is found comes with the cluster that holds it. `none` is a match that raises.
pub mod Loops
pub mod Accessible
use educates_training_platfo.Prelude.{
  String, Bool, true, false, Option, none, some, List, [], ◌∷◌, ◌++◌, default, if◌then◌else◌,
}
use educates_training_platfo.Dict.{Dict, get, put, pop, values}
use educates_training_platfo.Lookup.Caches.Sessions.{Label}
use educates_training_platfo.Lookup.Caches.Portals.{TrainingPortal}
use educates_training_platfo.Lookup.Caches.Clusters
use educates_training_platfo.Lookup.Caches.Clusters.{ClusterConfig}
use educates_training_platfo.Lookup.Selectors.{
  ResourceSelector, SelectorDict, resource_selector, match_resource,
}

pub record TenantConfig : Type 0 where
  pub name : String
  pub clusters : ResourceSelector
  pub portals : ResourceSelector

pub record ClusterDatabase : Type 0 where
  pub clusters : Dict ClusterConfig

unfoldable pub add_cluster : ClusterDatabase → ClusterConfig → ClusterDatabase
add_cluster db c = record { clusters = put db.clusters c.name c }

unfoldable pub remove_cluster : ClusterDatabase → String → ClusterDatabase
remove_cluster db name = record { clusters = pop db.clusters name }

unfoldable pub get_clusters : ClusterDatabase → List ClusterConfig
get_clusters db = values db.clusters

unfoldable pub get_cluster : ClusterDatabase → String → Option ClusterConfig
get_cluster db name = get db.clusters name

pub record TenantDatabase : Type 0 where
  pub tenants : Dict TenantConfig

unfoldable pub update_tenant : TenantDatabase → TenantConfig → TenantDatabase
update_tenant db t = record { tenants = put db.tenants t.name t }

unfoldable pub remove_tenant : TenantDatabase → String → TenantDatabase
remove_tenant db name = record { tenants = pop db.tenants name }

unfoldable pub get_tenants : TenantDatabase → List TenantConfig
get_tenants db = values db.tenants

unfoldable pub get_tenant : TenantDatabase → String → Option TenantConfig
get_tenant db name = get db.tenants name

-- The tenant of a resource, unless one of its selectors raises.
unfoldable pub tenant_config : String → SelectorDict → SelectorDict → Option TenantConfig
tenant_config name clusters portals = elim (resource_selector clusters) [
  | none ↦ none
  | some cs ↦ elim (resource_selector portals) [
    | none ↦ none
    | some ps ↦ some (record { name = name; clusters = cs; portals = ps })
  ]
]

abbrev empty_selector : SelectorDict
empty_selector = record { match_names = none; label_selector = none }

-- A handler that raises leaves the database as it was.
unfoldable pub tenantconfigs_update :
    String → Option SelectorDict → Option SelectorDict → TenantDatabase → TenantDatabase
tenantconfigs_update name clusters portals db =
    elim (tenant_config name (default empty_selector clusters) (default empty_selector portals)) [
      | none ↦ db
      | some t ↦ update_tenant db t
    ]

unfoldable pub tenantconfigs_delete : String → TenantDatabase → TenantDatabase
tenantconfigs_delete name db = remove_tenant db name

-- {item["name"]: item["value"] for item in labels}: the last of two equal names counts. A label
-- without a value, for which the source raises, is not modelled.
unfoldable pub labels_from : Dict String → List Label → Dict String
labels_from d [] = d
labels_from d (l ∷ ls) = labels_from (put d l.name l.value) ls

unfoldable pub allowed_access_to_cluster : TenantConfig → ClusterConfig → Option Bool
allowed_access_to_cluster t c =
    match_resource t.clusters (record { name = c.name; labels = labels_from [] c.labels })

unfoldable pub allowed_access_to_portal : TenantConfig → TrainingPortal → Option Bool
allowed_access_to_portal t p =
    match_resource t.portals (record { name = p.name; labels = labels_from [] p.labels })

-- The inner loop over the portals of one cluster.
unfoldable pub allowed_portals :
    TenantConfig
    → ClusterConfig
    → List TrainingPortal
    → Option (List (ClusterConfig × TrainingPortal))
allowed_portals t c [] = some []
allowed_portals t c (p ∷ ps) = elim (allowed_access_to_portal t p) [
  | none ↦ none
  | some ok ↦ elim (allowed_portals t c ps) [
    | none ↦ none
    | some rest ↦ some (if ok then (c, p) ∷ rest else rest)
  ]
]

-- The outer loop over the clusters.
unfoldable pub allowed_in :
    TenantConfig → List ClusterConfig → Option (List (ClusterConfig × TrainingPortal))
allowed_in t [] = some []
allowed_in t (c ∷ cs) = elim (allowed_access_to_cluster t c) [
  | none ↦ none
  | some false ↦ allowed_in t cs
  | some true ↦ elim (allowed_portals t c (Clusters.get_portals c)) [
    | none ↦ none
    | some here ↦ elim (allowed_in t cs) [ none ↦ none | some rest ↦ some (here ++ rest) ]
  ]
]

unfoldable pub portals_which_are_accessible :
    TenantConfig → ClusterDatabase → Option (List (ClusterConfig × TrainingPortal))
portals_which_are_accessible t db = allowed_in t (get_clusters db)
