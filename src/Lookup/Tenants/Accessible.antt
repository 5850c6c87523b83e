-- ===== src/Lookup/Tenants/Accessible.antt =====
-- Which portals tenants.py gives to a tenant.
use std.Path.{fun_ext}
use mathlib.Core.List.{Memᴰ}
use educates_training_platfo.Prelude.{
  ◌≡◌, ◌↔◌, ◌∙◌, refl, String, true, Option, none, some, List, [], ◌∷◌, arith, All, str_eq,
  if◌then◌else◌, subst, inl, inr, Option-cases,
}
use educates_training_platfo.Dict.{Dict, get, put, get-put}
use educates_training_platfo.Lookup.Caches.Sessions.{Label}
use educates_training_platfo.Lookup.Caches.Portals.{TrainingPortal}
use educates_training_platfo.Lookup.Caches.Clusters
use educates_training_platfo.Lookup.Caches.Clusters.{ClusterConfig}
use educates_training_platfo.Lookup.Selectors.{ResourceSelector, match_resource}
use educates_training_platfo.Lookup.Selectors.Meaning.{NameSelected, Requires, match_resource_iff}
use educates_training_platfo.Lookup.Tenants.{
  TenantConfig, ClusterDatabase, get_clusters, allowed_access_to_cluster, allowed_access_to_portal,
  labels_from, portals_which_are_accessible,
}
use educates_training_platfo.Lookup.Tenants.Loops.{IsAllowed, allowed_in_iff}

abbrev pub or_before : Option String → Option String → Option String
or_before (some later) before = some later
or_before none before = before

-- The value of the last label of a name.
abbrev pub last_value : String → List Label → Option String
last_value name [] = none
last_value name (l ∷ ls) =
    or_before (last_value name ls) (if str_eq l.name name then some l.value else none)

-- A selector, of clusters or of portals, selects what has this name and these values of labels.
abbrev pub SelectedBy : ResourceSelector → String → (String → Option String) → Type 0
SelectedBy sel name value =
    NameSelected sel.name_selector.match_names name
    × All (λ e. value e.0 ≡ some e.1) sel.label_selector.match_labels
    × All (λ req. Requires req.operator req.values (value req.key))
        sel.label_selector.match_expressions

-- A portal of a cluster of the list, where the tenant's selector of clusters selects the cluster by its
-- name and labels, and the one of portals the portal.
pub record IsAccessible (t : TenantConfig) (cs : List ClusterConfig)
    (place : ClusterConfig × TrainingPortal) : Type 0 where
  pub known : Memᴰ place.0 cs
  pub hosted : Memᴰ place.1 (Clusters.get_portals place.0)
  pub cluster_selected : SelectedBy t.clusters place.0.name (λ name. last_value name place.0.labels)
  pub portal_selected : SelectedBy t.portals place.1.name (λ name. last_value name place.1.labels)

get-labels_from :
    (ls : List Label) (d : Dict String) (name : String)
    → get (labels_from d ls) name ≡ or_before (last_value name ls) (get d name)
unfolding labels_from
get-labels_from [] d name = refl
get-labels_from (l ∷ ls) d name =
    let before = get-put d l.name name l.value in
    get-labels_from ls (put d l.name l.value) name ∙ elim (Option-cases (last_value name ls)) [
      | inl n ↦ rw n (ground (arith, before, n))
      | inr (v, k) ↦ rw k (ground (arith, k))
    ]

-- The selectors say of the dictionary of the labels what they say of the labels.
match-SelectedBy :
    (sel : ResourceSelector) (name : String) (ls : List Label)
    → (match_resource sel (record { name = name; labels = labels_from [] ls }) ≡ some true)
      ↔ SelectedBy sel name (λ key. last_value key ls)
unfolding get
match-SelectedBy sel name ls =
    subst
      (λ (value : String → Option String).
        (match_resource sel (record { name = name; labels = labels_from [] ls }) ≡ some true)
        ↔ SelectedBy sel name value)
      (fun_ext (λ key. get-labels_from ls [] key ∙ last key))
      (match_resource_iff sel (record { name = name; labels = labels_from [] ls }))
  where
    last : (key : String) → or_before (last_value key ls) none ≡ last_value key ls
    last key = elim (Option-cases (last_value key ls)) [
      | inl n ↦ rw n refl
      | inr (v, k) ↦ rw k refl
    ]

IsAllowed-IsAccessible :
    (t : TenantConfig) (cs : List ClusterConfig) (x : ClusterConfig × TrainingPortal)
    → IsAllowed t cs x ↔ IsAccessible t cs x
unfolding allowed_access_to_cluster allowed_access_to_portal
IsAllowed-IsAccessible t cs x =
    let cluster = match-SelectedBy t.clusters x.0.name x.0.labels in
    let portal = match-SelectedBy t.portals x.1.name x.1.labels in
    (
      (λ h. record {
        known = h.known;
        hosted = h.hosted;
        cluster_selected = cluster.0 h.cluster_allowed;
        portal_selected = portal.0 h.portal_allowed;
      }),
      λ h. record {
        known = h.known;
        hosted = h.hosted;
        cluster_allowed = cluster.1 h.cluster_selected;
        portal_allowed = portal.1 h.portal_selected;
      },
    )

-- If no rule raises, the portals that a tenant is given are exactly those of the clusters of the
-- database where the tenant's selector of clusters selects the cluster, by its name and the last
-- label of each name, and its selector of portals the portal. A selector that states nothing
-- selects everything, also where neither is stated.
pub portals_which_are_accessible_iff :
    (t : TenantConfig) (db : ClusterDatabase) (qs : List (ClusterConfig × TrainingPortal))
    (x : ClusterConfig × TrainingPortal)
    → portals_which_are_accessible t db ≡ some qs
    → Memᴰ x qs ↔ IsAccessible t (get_clusters db) x
unfolding portals_which_are_accessible
portals_which_are_accessible_iff t db qs x e =
    let allowed = allowed_in_iff t (get_clusters db) qs e x in
    let accessible = IsAllowed-IsAccessible t (get_clusters db) x in
    ((λ m. accessible.0 (allowed.0 m)), (λ h. allowed.1 (accessible.1 h)))
