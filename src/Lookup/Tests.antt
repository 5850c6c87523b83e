-- ===== src/Lookup/Tests.antt =====
-- Runs of the lookup service's models at small concrete states.
mod Events
mod Auth
mod Access
use educates_training_platfo.Prelude.{String, some, List, [], ◌∷◌}
use educates_training_platfo.Lookup.Caches.Clusters.{ClusterConfig}
use educates_training_platfo.Lookup.Caches.Portals.{TrainingPortal}
use educates_training_platfo.Lookup.Caches.Environments.{WorkshopEnvironment}
use educates_training_platfo.Lookup.Caches.Sessions.{WorkshopSession}

abbrev cluster_with : List (String × TrainingPortal) → ClusterConfig
cluster_with portals = record { name = "eu-1"; uid = some "c1"; labels = []; portals = portals }

abbrev lab_session : WorkshopSession
lab_session = record {
  name = "s1";
  generation = some 1;
  phase = some "Allocated";
  user = some "jo";
}

abbrev lab_environment : WorkshopEnvironment
lab_environment = record {
  name = "e1";
  uid = some "ue";
  generation = 1;
  workshop = some "lab-git";
  title = some "Git";
  description = some "Learn git";
  labels = [];
  capacity = 2;
  reserved = 1;
  allocated = 1;
  available = 0;
  phase = some "Running";
  sessions = ("s1", lab_session) ∷ [];
}

abbrev lab_portal : TrainingPortal
lab_portal = record {
  name = "p1";
  uid = some "up";
  generation = some 1;
  labels = [];
  url = some "https://p1";
  credentials = record {
    client_id = some "id";
    client_secret = some "secret";
    username = some "robot";
    password = some "pw";
  };
  phase = some "Running";
  capacity = 4;
  allocated = 1;
  environments = ("e1", lab_environment) ∷ [];
}
