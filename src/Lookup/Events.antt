-- ===== src/Lookup/Events.antt =====
-- lookup-service/service/handlers/clusters.py: the three handlers of `ClusterOperator` that follow
-- the training portals, workshop environments and workshop sessions of one cluster.
-- An event is the values that its handler reads from the resource by `xgetattr`, where `none` is
-- an absent property. Each handler runs under the cluster's lock, so it is one step on the cluster.
-- A handler changes the objects of the cache in place: `store_portal` and `store_environment`
-- stand for that, and write the changed object at the key under which it was found or added.
mod Cases
pub mod Counters
pub mod Placeholders
pub mod View
use educates_training_platfo.Prelude.{
  ℕ, String, ◌&&◌, Option, none, some, List, [], ◌∷◌, is, or_else, if◌then◌else◌, is_empty,
}
use educates_training_platfo.Dict.{put}
use educates_training_platfo.Lookup.Caches.Sessions.{Label, WorkshopSession}
use educates_training_platfo.Lookup.Caches.Environments
use educates_training_platfo.Lookup.Caches.Environments.{WorkshopEnvironment}
use educates_training_platfo.Lookup.Caches.Portals
use educates_training_platfo.Lookup.Caches.Portals.{TrainingPortal, PortalCredentials}
use educates_training_platfo.Lookup.Caches.Clusters
use educates_training_platfo.Lookup.Caches.Clusters.{ClusterConfig}

pub record PortalEvent : Type 0 where
  pub type : Option String
  pub portal_name : String
  pub portal_uid : Option String
  pub generation : Option ℕ
  pub labels : List Label
  pub url : Option String
  pub phase : Option String
  pub credentials : PortalCredentials
  pub sessions_maximum : ℕ

pub record EnvironmentEvent : Type 0 where
  pub type : Option String
  pub portal_name : String
  pub portal_uid : Option String
  pub environment_name : String
  pub environment_uid : Option String
  pub portal_workshop : Option String
  pub spec_workshop_name : Option String
  pub workshop_generation : ℕ
  pub title : Option String
  pub description : Option String
  pub labels : List Label
  pub phase : Option String
  pub capacity : ℕ
  pub reserved : ℕ

pub record SessionEvent : Type 0 where
  pub type : Option String
  pub portal_name : String
  pub portal_uid : Option String
  pub environment_name : String
  pub environment_uid : Option String
  pub workshop_name : Option String
  pub session_name : String
  pub generation : Option ℕ
  pub phase : Option String
  pub user : Option String

unfoldable pub store_portal : ClusterConfig → String → TrainingPortal → ClusterConfig
store_portal c portal_name p = record c { portals = put c.portals portal_name p }

unfoldable pub store_environment : TrainingPortal → String → WorkshopEnvironment → TrainingPortal
store_environment p environment_name e = record p {
  environments = put p.environments environment_name e;
}

-- A portal that is seen first through one of its environments or sessions.
unfoldable pub unknown_portal : String → Option String → TrainingPortal
unknown_portal portal_name portal_uid = record {
  name = portal_name;
  uid = portal_uid;
  generation = some 0;
  labels = [];
  url = some "";
  credentials = record {
    client_id = some "";
    client_secret = some "";
    username = some "";
    password = some "";
  };
  phase = some "Unknown";
  capacity = 0;
  allocated = 0;
  environments = [];
}

new_portal : PortalEvent → TrainingPortal
new_portal ev = record {
  name = ev.portal_name;
  uid = ev.portal_uid;
  generation = ev.generation;
  labels = ev.labels;
  url = ev.url;
  credentials = ev.credentials;
  phase = ev.phase;
  capacity = ev.sessions_maximum;
  allocated = 0;
  environments = [];
}

updated_portal : PortalEvent → TrainingPortal → TrainingPortal
updated_portal ev p = record p {
  uid = ev.portal_uid;
  generation = ev.generation;
  labels = ev.labels;
  url = ev.url;
  phase = ev.phase;
  credentials = ev.credentials;
  capacity = ev.sessions_maximum;
}

unfoldable pub portal_state : PortalEvent → Option TrainingPortal → TrainingPortal
unfolding new_portal updated_portal
portal_state ev none = new_portal ev
portal_state ev (some p) = updated_portal ev p

-- The second part is the object that leaves the cache, marked as stopped for those who hold it.
unfoldable pub trainingportals_event :
    PortalEvent → ClusterConfig → ClusterConfig × Option TrainingPortal
trainingportals_event ev c =
    let found = Clusters.get_portal c ev.portal_name in
    if is ev.type "DELETED"
    then (elim found [
      | none ↦ (c, none)
      | some p ↦
          (Clusters.remove_portal c ev.portal_name, some (record p { phase = some "Stopped" }))
    ])
    else (
      store_portal c ev.portal_name (Portals.recalculate_capacity (portal_state ev found)),
      none,
    )

-- The check that ends each removal: a placeholder with nothing left in it goes too.
unfoldable pub discard_if_unknown : ClusterConfig → String → TrainingPortal → ClusterConfig
discard_if_unknown c portal_name p =
    if is p.phase "Unknown" && is_empty (Portals.get_environments p)
    then Clusters.remove_portal c portal_name
    else store_portal c portal_name p

abbrev workshop_of : EnvironmentEvent → Option String
workshop_of ev = or_else ev.portal_workshop ev.spec_workshop_name

new_environment : EnvironmentEvent → WorkshopEnvironment
new_environment ev = record {
  name = ev.environment_name;
  uid = ev.environment_uid;
  generation = ev.workshop_generation;
  workshop = workshop_of ev;
  title = ev.title;
  description = ev.description;
  labels = ev.labels;
  capacity = ev.capacity;
  reserved = ev.reserved;
  allocated = 0;
  available = 0;
  phase = ev.phase;
  sessions = [];
}

updated_environment : EnvironmentEvent → WorkshopEnvironment → WorkshopEnvironment
updated_environment ev e = record e {
  generation = ev.workshop_generation;
  title = ev.title;
  description = ev.description;
  labels = ev.labels;
  phase = ev.phase;
  capacity = ev.capacity;
  reserved = ev.reserved;
}

unfoldable pub environment_state :
    EnvironmentEvent → Option WorkshopEnvironment → WorkshopEnvironment
unfolding new_environment updated_environment
environment_state ev none = new_environment ev
environment_state ev (some e) = updated_environment ev e

unfoldable pub portal_or_unknown : String → Option String → Option TrainingPortal → TrainingPortal
portal_or_unknown portal_name portal_uid none = unknown_portal portal_name portal_uid
portal_or_unknown portal_name portal_uid (some p) = p

unfoldable pub environment_deleted :
    EnvironmentEvent → Option TrainingPortal → ClusterConfig → ClusterConfig
environment_deleted ev none c = c
environment_deleted ev (some portal) c =
    discard_if_unknown c ev.portal_name
      (Portals.recalculate_capacity (Portals.remove_environment portal ev.environment_name))

unfoldable pub workshopenvironments_event : EnvironmentEvent → ClusterConfig → ClusterConfig
workshopenvironments_event ev c =
    let found = Clusters.get_portal c ev.portal_name in
    let portal = portal_or_unknown ev.portal_name ev.portal_uid found in
    let environment = environment_state ev (Portals.get_environment portal ev.environment_name) in
    if is ev.type "DELETED"
    then environment_deleted ev found c
    else store_portal c ev.portal_name
        (Portals.recalculate_capacity (store_environment portal ev.environment_name environment))

-- An environment that is seen first through one of its sessions.
unfoldable pub unknown_environment : SessionEvent → WorkshopEnvironment
unknown_environment ev = record {
  name = ev.environment_name;
  uid = ev.environment_uid;
  generation = 0;
  workshop = ev.workshop_name;
  title = some "";
  description = some "";
  labels = [];
  capacity = 0;
  reserved = 0;
  allocated = 0;
  available = 0;
  phase = some "Unknown";
  sessions = [];
}

unfoldable pub environment_or_unknown :
    SessionEvent → Option WorkshopEnvironment → WorkshopEnvironment
environment_or_unknown ev none = unknown_environment ev
environment_or_unknown ev (some e) = e

unfoldable pub session_state : SessionEvent → Option WorkshopSession → WorkshopSession
session_state ev none = record {
  name = ev.session_name;
  generation = ev.generation;
  phase = ev.phase;
  user = ev.user;
}
session_state ev (some s) = record s {
  generation = ev.generation;
  phase = ev.phase;
  user = ev.user;
}

-- `environment` is the changed object, and `portal` the recalculated portal that holds it.
unfoldable pub discard_environment_if_unknown :
    SessionEvent → WorkshopEnvironment → TrainingPortal → ClusterConfig → ClusterConfig
discard_environment_if_unknown ev environment portal c =
    if is environment.phase "Unknown" && is_empty (Environments.get_sessions environment)
    then discard_if_unknown c ev.portal_name (Portals.remove_environment portal ev.environment_name)
    else store_portal c ev.portal_name portal

unfoldable pub session_deleted_in :
    SessionEvent → TrainingPortal → Option WorkshopEnvironment → ClusterConfig → ClusterConfig
session_deleted_in ev portal none c = c
session_deleted_in ev portal (some e) c =
    let environment = Environments.remove_session e ev.session_name in
    discard_environment_if_unknown ev environment
      (Portals.recalculate_capacity (store_environment portal ev.environment_name environment)) c

unfoldable pub session_deleted :
    SessionEvent → Option TrainingPortal → ClusterConfig → ClusterConfig
session_deleted ev none c = c
session_deleted ev (some portal) c =
    session_deleted_in ev portal (Portals.get_environment portal ev.environment_name) c

-- The environment with the session of the event in it.
unfoldable pub with_session : SessionEvent → WorkshopEnvironment → WorkshopEnvironment
with_session ev e = record e {
  sessions =
      put e.sessions ev.session_name
        (session_state ev (Environments.get_session e ev.session_name));
}

unfoldable pub workshopsessions_event : SessionEvent → ClusterConfig → ClusterConfig
workshopsessions_event ev c =
    let found = Clusters.get_portal c ev.portal_name in
    let portal = portal_or_unknown ev.portal_name ev.portal_uid found in
    let environment =
      environment_or_unknown ev (Portals.get_environment portal ev.environment_name) in
    if is ev.type "DELETED"
    then session_deleted ev found c
    else store_portal c ev.portal_name (
        Portals.recalculate_capacity
          (store_environment portal ev.environment_name (with_session ev environment)))

pub data Event : Type 0 where
  portal : PortalEvent → Event
  environment : EnvironmentEvent → Event
  session : SessionEvent → Event

unfoldable pub handle : Event → ClusterConfig → ClusterConfig
handle (portal ev) c = (trainingportals_event ev c).0
handle (environment ev) c = workshopenvironments_event ev c
handle (session ev) c = workshopsessions_event ev c

-- Everything that the operator of one cluster sees, in order.
unfoldable pub watch : List Event → ClusterConfig → ClusterConfig
watch [] c = c
watch (ev ∷ evs) c = watch evs (handle ev c)
