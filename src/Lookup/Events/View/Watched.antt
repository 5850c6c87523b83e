-- ===== src/Lookup/Events/View/Watched.antt =====
-- All that the operator of a cluster sees, as changes of the flat map from the names of portals,
-- environments and sessions to sessions.
use educates_training_platfo.Prelude.{
  String, ◌≡◌, refl, ◌∙◌, ap, Option, none, some, List, [], ◌∷◌, is, ◌&&◌, if◌then◌else◌, str_eq,
}
use educates_training_platfo.Lookup.Caches.Sessions.{WorkshopSession}
use educates_training_platfo.Lookup.Caches.Clusters.{ClusterConfig}
use educates_training_platfo.Lookup.Events.{
  Event, portal, environment, session, session_state, handle, watch,
}
use educates_training_platfo.Lookup.Events.View.{view}
use educates_training_platfo.Lookup.Events.View.Owners.{
  workshopenvironments_event-view, trainingportals_event-view,
}
use educates_training_platfo.Lookup.Events.View.Sessions.{names, workshopsessions_event-view}

-- What an event makes of the session under the names `k`, `j` and `i`: a session event sets or clears
-- the session that it names, and a deletion clears the sessions of what is deleted.
abbrev pub after :
    Event → String → String → String → Option WorkshopSession → Option WorkshopSession
after (portal ev) k j i s = if is ev.type "DELETED" && str_eq ev.portal_name k then none else s
after (environment ev) k j i s =
    if is ev.type "DELETED" && str_eq ev.portal_name k && str_eq ev.environment_name j
    then none
    else s
after (session ev) k j i s =
    if names ev k j i then (if is ev.type "DELETED" then none else some (session_state ev s)) else s

abbrev pub after_all :
    List Event → String → String → String → Option WorkshopSession → Option WorkshopSession
after_all [] k j i s = s
after_all (ev ∷ evs) k j i s = after_all evs k j i (after ev k j i s)

handle-view :
    (ev : Event) (c : ClusterConfig) (k j i : String)
    → view (handle ev c) k j i ≡ after ev k j i (view c k j i)
unfolding handle
handle-view (portal ev) c k j i = trainingportals_event-view ev c k j i
handle-view (environment ev) c k j i = workshopenvironments_event-view ev c k j i
handle-view (session ev) c k j i = workshopsessions_event-view ev c k j i

-- After any sequence of events, the session that the cache has under any three names is the one that
-- the events lead to on a flat map, where a session event sets or clears the session that it
-- names, an event that deletes an environment or a portal clears its sessions, and no event does
-- anything else.
pub watch-view :
    (evs : List Event) (c : ClusterConfig) (k j i : String)
    → view (watch evs c) k j i ≡ after_all evs k j i (view c k j i)
unfolding watch
watch-view [] c k j i = refl
watch-view (ev ∷ evs) c k j i =
    watch-view evs (handle ev c) k j i ∙ ap (after_all evs k j i) (handle-view ev c k j i)
