-- ===== src/Lookup/Tests/Events.antt =====
-- The handlers of clusters.py on events that arrive in the wrong order.
use educates_training_platfo.Prelude.{String, ◌≡◌, refl, Option, none, some, List, [], ◌∷◌}
use educates_training_platfo.Lookup.Tests.{cluster_with, lab_portal}
use educates_training_platfo.Lookup.Caches.Clusters
use educates_training_platfo.Lookup.Caches.Clusters.{ClusterConfig}
use educates_training_platfo.Dict.{get}
use educates_training_platfo.Lookup.Events.{
  Event, portal, environment, session, PortalEvent, EnvironmentEvent, SessionEvent,
  workshopsessions_event, watch,
}
use educates_training_platfo.Lookup.Events.Counters.{Counters, watch-Counters}
use educates_training_platfo.Lookup.Events.Placeholders.{Anchored}
use educates_training_platfo.Lookup.Events.Placeholders.Watch.{watch-Anchored}
use educates_training_platfo.Lookup.Events.Placeholders.Roundtrip.{placeholder_roundtrip}
use educates_training_platfo.Lookup.Events.View.{view}
use educates_training_platfo.Lookup.Events.View.Watched.{after_all, watch-view}

abbrev session_event : Option String → SessionEvent
session_event type = record {
  type = type;
  portal_name = "p2";
  portal_uid = some "u2";
  environment_name = "e2";
  environment_uid = some "ue2";
  workshop_name = some "lab-k8s";
  session_name = "s2";
  generation = some 1;
  phase = some "Available";
  user = none;
}

abbrev environment_event : Option String → EnvironmentEvent
environment_event type = record {
  type = type;
  portal_name = "p1";
  portal_uid = some "up";
  environment_name = "e1";
  environment_uid = some "ue";
  portal_workshop = none;
  spec_workshop_name = some "lab-git";
  workshop_generation = 2;
  title = some "Git";
  description = some "Learn git";
  labels = [];
  phase = some "Running";
  capacity = 3;
  reserved = 1;
}

abbrev portal_event : Option String → PortalEvent
portal_event type = record {
  type = type;
  portal_name = "p1";
  portal_uid = some "up";
  generation = some 2;
  labels = [];
  url = some "https://p1";
  phase = some "Running";
  credentials = lab_portal.credentials;
  sessions_maximum = 5;
}

abbrev late_events : List Event
late_events =
    session (session_event (some "ADDED"))
    ∷ environment (environment_event (some "ADDED"))
    ∷ portal (portal_event (some "ADDED"))
    ∷ session (session_event (some "DELETED"))
    ∷ []

watch-Counters_example : Counters (watch late_events (cluster_with []))
watch-Counters_example = watch-Counters late_events (cluster_with []) tt

watch-Anchored_example : Anchored (watch late_events (cluster_with []))
watch-Anchored_example =
    watch-Anchored late_events (cluster_with []) (tt, (refl, (refl, (tt, tt)))) tt

placeholder_roundtrip_example :
    workshopsessions_event
      (session_event (some "DELETED"))
      (workshopsessions_event (session_event (some "ADDED")) (cluster_with []))
    ≡ cluster_with []
unfolding Clusters.get_portal get
placeholder_roundtrip_example =
    placeholder_roundtrip (session_event (some "ADDED")) (cluster_with []) refl refl

abbrev known : ClusterConfig
known = cluster_with (("p1", lab_portal) ∷ [])

watch-view_example :
    view (watch late_events known) "p1" "e1" "s1"
    ≡ after_all late_events "p1" "e1" "s1" (view known "p1" "e1" "s1")
watch-view_example = watch-view late_events known "p1" "e1" "s1"
