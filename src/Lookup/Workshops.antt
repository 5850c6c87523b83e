-- ===== src/Lookup/Workshops.antt =====
-- lookup-service/service/routes/workshops.py: the handlers behind the decorators of authnz.py.
-- `Caches` reads the databases from the state of the world, so that they may change while a request
-- to a portal waits. The objects of a list are as they were when the list was taken.
pub mod Candidates
pub mod Own
pub mod Loops
pub mod Allocation
pub mod Exhausted
use educates_training_platfo.Prelude.{
  ℕ, String, not, ◌&&◌, Option, none, some, List, [], ◌∷◌, ◌++◌, ◌==◌, default, or_else, is,
  if◌then◌else◌, is_empty, keep, map, truthy,
}
use educates_training_platfo.Lookup.Caches.Sessions.{Label, WorkshopSession}
use educates_training_platfo.Lookup.Caches.Environments.{WorkshopEnvironment}
use educates_training_platfo.Lookup.Caches.Portals
use educates_training_platfo.Lookup.Caches.Portals.{TrainingPortal}
use educates_training_platfo.Lookup.Caches.Clusters
use educates_training_platfo.Lookup.Caches.Clusters.{ClusterConfig}
use educates_training_platfo.Lookup.Caches.Clients.{ClientConfig, allowed_access_to_tenant}
use educates_training_platfo.Lookup.Tenants.{
  TenantConfig, TenantDatabase, ClusterDatabase, get_clusters, get_tenant,
  portals_which_are_accessible,
}
use educates_training_platfo.Lookup.Ranking.{Candidate, sort_workshop_environments}
use educates_training_platfo.Lookup.Remote.{
  Http, Outcome, returned, raised, Io, Query, SessionData, reacquire_workshop_session,
  request_workshop_session,
}

abbrev pub Place : Type 0
Place = ClusterConfig × TrainingPortal

-- `for cluster in get_clusters(): extend(cluster.get_portals())`
unfoldable pub portals_of : List ClusterConfig → List Place
portals_of [] = []
portals_of (c ∷ cs) = map (λ p. (c, p)) (Clusters.get_portals c) ++ portals_of cs

-- An entry of the list of workshops.
pub record Workshop : Type 0 where
  pub name : Option String
  pub title : Option String
  pub description : Option String
  pub labels : List Label

-- The dict of workshops has `None` for a key too, where an environment names no workshop.
abbrev workshop_key : Option String → String
workshop_key none = ""
workshop_key (some name) = name

pub data Response : Type 0 where
  refused : (status : ℕ) → Response
  session : SessionData → (tenant_name : String) → Response

-- The JSON body of a request.
pub record WorkshopRequest : Type 0 where
  pub tenant_name : Option String
  pub client_user_id : Option String
  pub client_index_url : Option String
  pub user_email_address : Option String
  pub user_first_name : Option String
  pub user_last_name : Option String
  pub workshop_name : Option String
  pub workshop_params : List (String × String)
  pub analytics_webhook_url : Option String

pub record Caches (W : Type 0) : Type 0 where
  pub cluster_database : W → ClusterDatabase
  pub tenant_database : W → TenantDatabase

-- `x or ""`
abbrev pub text_or_empty : Option String → String
text_or_empty o = default "" (or_else o (some ""))

-- `client.user or data.get("clientUserId") or ""`
abbrev pub user_of : ClientConfig → WorkshopRequest → String
user_of client data' = text_or_empty (or_else client.user data'.client_user_id)

unfoldable pub query_of : ClientConfig → WorkshopRequest → Query
query_of client data' = record {
  index_url = text_or_empty data'.client_index_url;
  user = some (user_of client data');
  session = none;
  email = text_or_empty data'.user_email_address;
  first_name = text_or_empty data'.user_first_name;
  last_name = text_or_empty data'.user_last_name;
  analytics_url = text_or_empty data'.analytics_webhook_url;
  parameters = data'.workshop_params;
}

-- The portals that host the workshop.
unfoldable pub selected_portals : String → List Place → List Place
selected_portals workshop_name = keep (λ x. Portals.hosts_workshop x.1 workshop_name)

-- The running environments of one portal that are for the workshop.
unfoldable pub environments_of : String → Place → List WorkshopEnvironment → List Candidate
environments_of workshop_name x [] = []
environments_of workshop_name x (e ∷ es) =
    let rest = environments_of workshop_name x es in
    if is e.workshop workshop_name
    then record { cluster = x.0; portal = x.1; environment = e } ∷ rest
    else rest

unfoldable pub candidates : String → List Place → List Candidate
candidates workshop_name [] = []
candidates workshop_name (x ∷ xs) =
    environments_of workshop_name x (Portals.get_running_environments x.1)
    ++ candidates workshop_name xs

module _ {W : Type 0} (http : Http W) (caches : Caches W) where
  existing_at :
      String → Place → Option (WorkshopEnvironment × WorkshopSession) → Io W (Option SessionData)
  existing_at index_url x none w = (returned none, w)
  existing_at index_url x (some (e, s)) w =
      reacquire_workshop_session http (record { cluster = x.0; portal = x.1; environment = e }) s
        index_url w

  -- `if data: return …` in a loop: the rest runs if there is no data.
  or_next :
      (W → Outcome (Option SessionData) × W)
      → Outcome (Option SessionData) × W
      → Outcome (Option SessionData) × W
  or_next next (raised, w) = (raised, w)
  or_next next (returned (some d), w) = (returned (some d), w)
  or_next next (returned none, w) = next w

  -- The loop over all portals for a session that the user has already.
  unfoldable pub find_existing : String → String → String → List Place → Io W (Option SessionData)
  unfolding existing_at or_next
  find_existing user_id workshop_name index_url [] w = (returned none, w)
  find_existing user_id workshop_name index_url (x ∷ xs) w =
      or_next (find_existing user_id workshop_name index_url xs) (
        existing_at index_url x
          (Portals.find_existing_workshop_session_for_user x.1 user_id workshop_name) w)

  -- The loop that asks one environment after the other.
  unfoldable pub try_each : Query → List Candidate → Io W (Option SessionData)
  unfolding or_next
  try_each query [] w = (returned none, w)
  try_each query (c ∷ cs) w = or_next (try_each query cs) (request_workshop_session http c query w)

  respond : String → Outcome (Option SessionData) → Outcome Response
  respond tenant_name raised = raised
  respond tenant_name (returned none) = returned (refused 503)
  respond tenant_name (returned (some d)) = returned (session d tenant_name)

  allocate_from : String → String → Query → List Place → Io W Response
  unfolding respond
  allocate_from tenant_name workshop_name query places w =
      let found = candidates workshop_name (selected_portals workshop_name places) in
      let (data', w') = try_each query (sort_workshop_environments found) w in
      if is_empty (selected_portals workshop_name places)
      then (returned (refused 503), w)
      else if is_empty found
      then (returned (refused 503), w)
      else (respond tenant_name data', w')

  allocate_accessible : String → String → Query → Option (List Place) → Io W Response
  unfolding allocate_from
  allocate_accessible tenant_name workshop_name query none w = (raised, w)
  allocate_accessible tenant_name workshop_name query (some places) w =
      allocate_from tenant_name workshop_name query places w

  allocate_for : String → String → Query → Option TenantConfig → Io W Response
  unfolding allocate_accessible
  allocate_for tenant_name workshop_name query none w = (returned (refused 503), w)
  allocate_for tenant_name workshop_name query (some t) w =
      allocate_accessible tenant_name workshop_name query
        (portals_which_are_accessible t (caches.cluster_database w)) w

  -- From "Get the list of portals hosting the workshop" on.
  unfoldable pub allocate : String → String → Query → Io W Response
  unfolding allocate_for
  allocate tenant_name workshop_name query w =
      allocate_for tenant_name workshop_name query
        (get_tenant (caches.tenant_database w) tenant_name) w

  after_existing : String → String → Query → Outcome (Option SessionData) × W → Outcome Response × W
  after_existing tenant_name workshop_name query (raised, w) = (raised, w)
  after_existing tenant_name workshop_name query (returned (some d), w) =
      (returned (session d tenant_name), w)
  after_existing tenant_name workshop_name query (returned none, w) =
      allocate tenant_name workshop_name query w

  unfoldable pub serve : String → String → Query → String → Io W Response
  unfolding after_existing
  serve tenant_name workshop_name query user_id w =
      let places = portals_of (get_clusters (caches.cluster_database w)) in
      if truthy user_id
      then after_existing tenant_name workshop_name query
          (find_existing user_id workshop_name query.index_url places w)
      else allocate tenant_name workshop_name query w

  unfoldable pub api_post_v1_workshops : ClientConfig → WorkshopRequest → Io W Response
  api_post_v1_workshops client data' w =
      let tenant_name = text_or_empty data'.tenant_name in
      let workshop_name = text_or_empty data'.workshop_name in
      if not (truthy tenant_name)
      then (returned (refused 400), w)
      else if not (truthy workshop_name)
      then (returned (refused 400), w)
      else if not (allowed_access_to_tenant client tenant_name)
      then (returned (refused 403), w)
      else serve tenant_name workshop_name (query_of client data') (user_of client data') w
