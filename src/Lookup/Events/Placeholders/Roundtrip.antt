-- ===== src/Lookup/Events/Placeholders/Roundtrip.antt =====
-- The placeholders of clusters.py, made by a session and dropped with it.
use educates_training_platfo.Prelude.{◌≡◌, ap, none, some, is, false, str_eq_refl}
use educates_training_platfo.Dict.{Dict, get, put, pop, values, get-put_self, pop-put_absent}
use educates_training_platfo.Lookup.Caches.Environments
use educates_training_platfo.Lookup.Caches.Portals
use educates_training_platfo.Lookup.Caches.Portals.{TrainingPortal, recalculate_each}
use educates_training_platfo.Lookup.Caches.Clusters
use educates_training_platfo.Lookup.Caches.Clusters.{ClusterConfig}
use educates_training_platfo.Lookup.Events.{
  SessionEvent, store_portal, store_environment, discard_if_unknown, portal_or_unknown,
  environment_or_unknown, discard_environment_if_unknown, with_session, workshopsessions_event,
  unknown_portal, unknown_environment, session_deleted, session_deleted_in,
}

-- Created and deleted again, a session of a portal that the cache does not know leaves no trace.
pub placeholder_roundtrip :
    (ev : SessionEvent) (c : ClusterConfig)
    → is ev.type "DELETED" ≡ false
    → Clusters.get_portal c ev.portal_name ≡ none
    → workshopsessions_event (record ev { type = some "DELETED" }) (workshopsessions_event ev c) ≡ c
unfolding workshopsessions_event session_deleted session_deleted_in discard_environment_if_unknown
    discard_if_unknown store_portal store_environment with_session portal_or_unknown unknown_portal
    environment_or_unknown unknown_environment Clusters.get_portal Clusters.remove_portal
    Portals.get_environment Portals.remove_environment Portals.recalculate_capacity recalculate_each
    Portals.get_environments Environments.recalculate_capacity Environments.remove_session
    Environments.get_sessions get put pop values
placeholder_roundtrip ev c d e =
    rw (d, e)
      (simp (get-put_self, str_eq_refl)
        (ap (λ (x : Dict TrainingPortal). record c { portals = x })
          (pop-put_absent c.portals ev.portal_name _ e)))
