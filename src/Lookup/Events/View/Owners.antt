-- ===== src/Lookup/Events/View/Owners.antt =====
-- The handlers of clusters.py for portals and environments as changes of the flat map.
use educates_training_platfo.Prelude.{
  String, ◌≡◌, none, arith, is, ◌&&◌, if◌then◌else◌, str_eq, true,
}
use educates_training_platfo.Lookup.Caches.Portals
use educates_training_platfo.Lookup.Caches.Clusters
use educates_training_platfo.Lookup.Caches.Clusters.{ClusterConfig}
use educates_training_platfo.Lookup.Events.Cases.{trainingportals_cases, workshopenvironments_cases}
use educates_training_platfo.Lookup.Events.{
  PortalEvent, EnvironmentEvent, trainingportals_event, workshopenvironments_event,
}
use educates_training_platfo.Lookup.Events.View.{
  view, recalculate-view, store_environment-view, remove_environment-view, same_environment-view,
  portal_state-view, or_unknown-view, environment_state-view, absent-view, found_portal-view,
  store_portal-view, remove_portal-view, discard-view, same_name-view,
}

-- An environment event never changes a session, but deleting the environment takes all of its
-- sessions out.
pub workshopenvironments_event-view :
    (ev : EnvironmentEvent) (c : ClusterConfig) (k j i : String)
    → view (workshopenvironments_event ev c) k j i ≡ (
        if is ev.type "DELETED" && str_eq ev.portal_name k && str_eq ev.environment_name j
        then none
        else view c k j i)
workshopenvironments_event-view ev c k j i =
    workshopenvironments_cases
      (λ d. view d k j i ≡ (
        if is ev.type "DELETED" && str_eq ev.portal_name k && str_eq ev.environment_name j
        then none
        else view c k j i))
      c ev
      (λ d e. rw d (
        ground
          (arith, λ (t : str_eq ev.portal_name k ≡ true). absent-view c ev.portal_name k j i t e)))
      (λ d p e.
        rw
          (
            d,
            discard-view k j i c ev.portal_name,
            recalculate-view j i,
            remove_environment-view j i p ev.environment_name,
          )
          (ground (
            arith,
            λ (t : str_eq ev.portal_name k ≡ true). found_portal-view c ev.portal_name k j i t p e,
          )))
      λ d p e.
        rw
          (
            d,
            store_portal-view k j i c ev.portal_name,
            recalculate-view j i,
            store_environment-view j i p ev.environment_name,
            environment_state-view ev,
          )
          (unfold Portals.get_environment in
            rw
              (
                same_environment-view p ev.environment_name j i,
                e,
                or_unknown-view ev.portal_name ev.portal_uid,
              )
              (unfold Clusters.get_portal in same_name-view k j i c ev.portal_name))

-- A portal event never changes a session, but deleting the portal takes all of its sessions out.
pub trainingportals_event-view :
    (ev : PortalEvent) (c : ClusterConfig) (k j i : String)
    → view (trainingportals_event ev c).0 k j i
      ≡ (if is ev.type "DELETED" && str_eq ev.portal_name k then none else view c k j i)
trainingportals_event-view ev c k j i =
    trainingportals_cases
      (λ d.
        view d k j i
        ≡ (if is ev.type "DELETED" && str_eq ev.portal_name k then none else view c k j i))
      c ev
      (λ d e. rw d (
        ground
          (arith, λ (t : str_eq ev.portal_name k ≡ true). absent-view c ev.portal_name k j i t e)))
      (λ d p e. rw (d, remove_portal-view k j i c ev.portal_name))
      λ d.
        rw (d, store_portal-view k j i c ev.portal_name, recalculate-view j i, portal_state-view ev)
          (unfold Clusters.get_portal in same_name-view k j i c ev.portal_name)
