-- ===== src/Lookup/Tests/Access.antt =====
-- A tenant that may use one of two portals, and a request for a workshop of it.
use mathlib.Core.List.{Memᴰ}
use educates_training_platfo.Prelude.{
  ℕ, ◌+◌, String, ◌≡◌, refl, ◌↔◌, ◌⊎◌, true, none, some, List, [], ◌∷◌,
}
use educates_training_platfo.Dict.{get, values}
use educates_training_platfo.Glob.{codes, fnmatch}
use educates_training_platfo.Lookup.Tests.{cluster_with, lab_portal, lab_environment}
use educates_training_platfo.Lookup.Caches.Clusters
use educates_training_platfo.Lookup.Caches.Clusters.{ClusterConfig}
use educates_training_platfo.Lookup.Caches.Portals
use educates_training_platfo.Lookup.Caches.Portals.{TrainingPortal, session_of, find_in}
use educates_training_platfo.Lookup.Caches.Environments
use educates_training_platfo.Lookup.Caches.Clients.{
  ClientConfig, allowed_access_to_tenant, some_pattern,
}
use educates_training_platfo.Lookup.Selectors.{
  Resource, LabelSelector, in_values, ResourceSelector, match_name, match_any, match_labels,
  match_all_labels, match_all_requirements, match_resource,
}
use educates_training_platfo.Lookup.Selectors.Meaning.{Selected, match_resource_iff}
use educates_training_platfo.Lookup.Tenants.{
  TenantConfig, ClusterDatabase, TenantDatabase, get_clusters, get_tenant, labels_from,
  allowed_access_to_cluster, allowed_access_to_portal, allowed_portals, allowed_in,
  portals_which_are_accessible,
}
use educates_training_platfo.Lookup.Tenants.Accessible.{
  IsAccessible, portals_which_are_accessible_iff,
}
use educates_training_platfo.Lookup.Ranking.{
  Candidate, insert, insert_all, less, score, sort_workshop_environments,
}
use educates_training_platfo.Lookup.Ranking.Rooms.{
  OwnRoomFirst, sort_workshop_environments-OwnRoomFirst,
}
use educates_training_platfo.Lookup.Ranking.Order.{RoomFirst, sort_workshop_environments-RoomFirst}
use educates_training_platfo.Lookup.Remote.{
  Http, returned, TokenReply, RevokeReply, SessionReply, SessionData, request_workshop_session,
  request_body, client_session, login, logout,
}
use educates_training_platfo.Lookup.Workshops.{
  refused, Caches, WorkshopRequest, session, api_post_v1_workshops, serve, allocate, find_existing,
  try_each, candidates, environments_of, selected_portals, portals_of, query_of,
}
use educates_training_platfo.Lookup.Workshops.Exhausted.{allocate-asked}
use educates_training_platfo.Lookup.Workshops.Allocation.{
  IsReacquired, IsAllocated, api_post_v1_workshops_sound,
}

abbrev spare_portal : TrainingPortal
spare_portal = record lab_portal { name = "p9"; uid = some "u9" }

abbrev cluster : ClusterConfig
cluster = cluster_with (("p1", lab_portal) ∷ ("p9", spare_portal) ∷ [])

abbrev clusters : ClusterDatabase
clusters = record { clusters = ("eu-1", cluster) ∷ [] }

abbrev any_label : LabelSelector
any_label = record { match_labels = []; match_expressions = [] }

abbrev tenant : TenantConfig
tenant = record {
  name = "acme";
  clusters = record {
    name_selector = record { match_names = "eu-*" ∷ [] };
    label_selector = any_label;
  };
  portals = record {
    name_selector = record { match_names = "p1" ∷ [] };
    label_selector = any_label;
  };
}

abbrev zone_selector : ResourceSelector
zone_selector = record {
  name_selector = record { match_names = [] };
  label_selector = record {
    match_labels = ("env", "prod") ∷ [];
    match_expressions =
        record { key = "zone"; operator = in_values; values = some ("a" ∷ "b" ∷ []) } ∷ [];
  };
}

abbrev zone_resource : Resource
zone_resource = record { name = "p1"; labels = ("zone", "b") ∷ ("env", "prod") ∷ [] }

match_resource_iff_example :
    (match_resource zone_selector zone_resource ≡ some true) ↔ Selected zone_selector zone_resource
match_resource_iff_example = match_resource_iff zone_selector zone_resource

abbrev first_place : ClusterConfig × TrainingPortal
first_place = (cluster, lab_portal)

acme_portals : portals_which_are_accessible tenant clusters ≡ some ((cluster, lab_portal) ∷ [])
unfolding portals_which_are_accessible allowed_in allowed_portals allowed_access_to_cluster
    allowed_access_to_portal labels_from get_clusters values Clusters.get_portals match_resource
    match_name match_any match_labels match_all_labels match_all_requirements fnmatch
acme_portals = refl

portals_which_are_accessible_iff_example :
    Memᴰ first_place (first_place ∷ []) ↔ IsAccessible tenant (get_clusters clusters) first_place
portals_which_are_accessible_iff_example =
    portals_which_are_accessible_iff tenant clusters (first_place ∷ []) first_place acme_portals

abbrev two_candidates : List Candidate
two_candidates =
    record {
      cluster = cluster;
      portal = record lab_portal { capacity = 1 };
      environment = lab_environment;
    }
    ∷ record { cluster = cluster; portal = spare_portal; environment = lab_environment }
    ∷ []

sort_workshop_environments-RoomFirst_example : RoomFirst (sort_workshop_environments two_candidates)
sort_workshop_environments-RoomFirst_example = sort_workshop_environments-RoomFirst two_candidates

-- The first environment is at its maximum.
abbrev two_environments : List Candidate
two_environments =
    record {
      cluster = cluster;
      portal = spare_portal;
      environment = record lab_environment { capacity = 1; allocated = 1 };
    }
    ∷ record { cluster = cluster; portal = spare_portal; environment = lab_environment }
    ∷ []

sort_workshop_environments-OwnRoomFirst_example :
    OwnRoomFirst (sort_workshop_environments two_environments)
sort_workshop_environments-OwnRoomFirst_example =
    sort_workshop_environments-OwnRoomFirst two_environments

abbrev client : ClientConfig
client = record {
  name = "robot";
  uid = some "u7";
  issue = 1;
  password = some "pw";
  user = none;
  tenants = "ac*" ∷ [];
  roles = "tenant" ∷ [];
}

abbrev tenants : TenantDatabase
tenants = record { tenants = ("acme", tenant) ∷ [] }

abbrev fixed_caches : Caches ℕ
fixed_caches = record { cluster_database = λ w. clusters; tenant_database = λ w. tenants }

-- Every portal grants what it is asked for. The world counts the calls.
abbrev granting : Http ℕ
granting = record {
  post_token = λ p w. (TokenReply.response 200 (some "tok"), w + 1);
  post_revoke_token = λ p t w. (RevokeReply.response 200, w + 1);
  get_request = λ p t e q w. (SessionReply.response 200 (some "/go") (some "s7"), w + 1);
}

abbrev request : WorkshopRequest
request = record {
  tenant_name = some "acme";
  client_user_id = some "ann";
  client_index_url = none;
  user_email_address = none;
  user_first_name = none;
  user_last_name = none;
  workshop_name = some "lab-git";
  workshop_params = [];
  analytics_webhook_url = none;
}

abbrev ann_session : SessionData
ann_session = record {
  cluster_name = "eu-1";
  portal_name = "p1";
  environment_name = "e1";
  session_name = some "s7";
  client_user_id = some "ann";
  session_activation_url = codes "https://p1/go";
}

ann_served :
    (api_post_v1_workshops granting fixed_caches client request 0).0
    ≡ returned (session ann_session "acme")
unfolding api_post_v1_workshops serve allocate find_existing try_each candidates environments_of
    selected_portals portals_of query_of sort_workshop_environments insert_all insert less score
    request_workshop_session request_body client_session login logout allowed_access_to_tenant
    some_pattern get_tenant get_clusters portals_which_are_accessible allowed_in allowed_portals
    allowed_access_to_cluster allowed_access_to_portal labels_from get values Clusters.get_portals
    Portals.find_existing_workshop_session_for_user find_in session_of Portals.hosts_workshop
    Portals.get_running_environments Environments.get_sessions match_resource match_name match_any
    match_labels match_all_labels match_all_requirements fnmatch
ann_served = refl

api_post_v1_workshops_sound_example :
    (allowed_access_to_tenant client "acme" ≡ true)
    × ◌≡◌ {A = String} "acme" "acme"
    × (IsReacquired fixed_caches "ann" "lab-git" 0 ann_session
        ⊎ ((v : ℕ) × IsAllocated granting fixed_caches "acme" "lab-git"
              (query_of client request)
              v
              ann_session))
api_post_v1_workshops_sound_example =
    api_post_v1_workshops_sound granting fixed_caches client request 0 ann_session "acme" ann_served

-- Every portal is full.
abbrev full : Http ℕ
full = record {
  post_token = λ p w. (TokenReply.response 200 (some "tok"), w + 1);
  post_revoke_token = λ p t w. (RevokeReply.response 200, w + 1);
  get_request = λ p t e q w. (SessionReply.response 503 none none, w + 1);
}

abbrev lab_candidate : Candidate
lab_candidate = record { cluster = cluster; portal = lab_portal; environment = lab_environment }

lab_found :
    Memᴰ lab_candidate (candidates "lab-git" (selected_portals "lab-git" (first_place ∷ [])))
unfolding candidates environments_of selected_portals Portals.hosts_workshop
    Portals.get_running_environments values
lab_found = Memᴰ.head refl

ann_refused :
    (allocate full fixed_caches "acme" "lab-git" (query_of client request) 0).0
    ≡ returned (refused 503)
unfolding allocate try_each candidates environments_of selected_portals query_of
    sort_workshop_environments insert_all insert request_workshop_session request_body
    client_session login logout get_tenant get get_clusters portals_which_are_accessible allowed_in
    allowed_portals allowed_access_to_cluster allowed_access_to_portal labels_from values
    Clusters.get_portals Portals.hosts_workshop Portals.get_running_environments match_resource
    match_name match_any match_labels match_all_labels match_all_requirements fnmatch
ann_refused = refl

acme_known : get_tenant tenants "acme" ≡ some tenant
unfolding get_tenant get
acme_known = refl

allocate-asked_example :
    (v : ℕ) × ((request_workshop_session full lab_candidate (query_of client request) v).0
      ≡ returned none)
allocate-asked_example =
    allocate-asked full fixed_caches "acme" "lab-git" (query_of client request) 0 tenant
      (first_place ∷ []) lab_candidate 503 acme_known acme_portals lab_found ann_refused
