-- ===== src/Lookup/Caches/Clusters.antt =====
-- lookup-service/service/caches/clusters.py
use educates_training_platfo.Prelude.{String, Option, List}
use educates_training_platfo.Dict.{Dict, get, put, pop, values}
use educates_training_platfo.Lookup.Caches.Sessions.{Label}
use educates_training_platfo.Lookup.Caches.Portals.{TrainingPortal}

pub record ClusterConfig : Type 0 where
  pub name : String
  pub uid : Option String
  pub labels : List Label
  pub portals : Dict TrainingPortal

unfoldable pub add_portal : ClusterConfig → TrainingPortal → ClusterConfig
add_portal c p = record c { portals = put c.portals p.name p }

unfoldable pub remove_portal : ClusterConfig → String → ClusterConfig
remove_portal c name = record c { portals = pop c.portals name }

unfoldable pub get_portals : ClusterConfig → List TrainingPortal
get_portals c = values c.portals

unfoldable pub get_portal : ClusterConfig → String → Option TrainingPortal
get_portal c name = get c.portals name
