-- ===== src/Lookup/Events/Placeholders/Watch.antt =====
-- No placeholder of clusters.py stays behind empty.
use educates_training_platfo.Prelude.{
  String, ◌≡◌, refl, Option, none, some, List, [], ◌∷◌, arith, is, Bool-cases, inl, inr, ◌&&◌,
  is_empty, false, str_eq,
}
use educates_training_platfo.Dict.{
  Dict, get, values, Entries, get-Entries, put-ne-nil, pop-Entries_others, put-Entries_others,
}
use educates_training_platfo.Lookup.Caches.Environments
use educates_training_platfo.Lookup.Caches.Environments.{WorkshopEnvironment}
use educates_training_platfo.Lookup.Caches.Portals
use educates_training_platfo.Lookup.Caches.Portals.{TrainingPortal, recalculate_each}
use educates_training_platfo.Lookup.Caches.Clusters
use educates_training_platfo.Lookup.Caches.Clusters.{ClusterConfig}
use educates_training_platfo.Lookup.Events.Cases.{
  trainingportals_cases, workshopenvironments_cases, workshopsessions_cases,
}
use educates_training_platfo.Lookup.Events.{
  Event, portal, environment, session, PortalEvent, EnvironmentEvent, SessionEvent,
  store_environment, portal_state, trainingportals_event, environment_state,
  workshopenvironments_event, discard_environment_if_unknown, with_session, workshopsessions_event,
  handle, watch,
}
use educates_training_platfo.Lookup.Events.Placeholders.{
  HasSession, HasSessions, IsAnchored, Anchored, IsKnown, AllKnown, recalculate-HasSessions,
  recalculate-IsAnchored, remove_environment-HasSessions, store_environment-IsAnchored,
  store_portal-Anchored, remove_portal-Anchored, discard-Anchored, found, found-HasSessions,
}

portal_state-HasSessions :
    (ev : PortalEvent) (c : ClusterConfig)
    → Anchored c
    → HasSessions (portal_state ev (Clusters.get_portal c ev.portal_name))
unfolding Clusters.get_portal portal_state
portal_state-HasSessions ev c h = go (get c.portals ev.portal_name) refl
  where
    go :
        (o : Option TrainingPortal)
        → get c.portals ev.portal_name ≡ o
        → HasSessions (portal_state ev o)
    go none e = tt
    go (some p) e = (get-Entries (λ _ p. IsAnchored p) c.portals ev.portal_name p h e).environments

-- A portal event brings the portal's phase with it.
portal_state-IsAnchored :
    (ev : PortalEvent) (o : Option TrainingPortal)
    → is ev.phase "Unknown" ≡ false
    → HasSessions (portal_state ev o)
    → IsAnchored (portal_state ev o)
unfolding portal_state
portal_state-IsAnchored ev none k h = record { inhabited = λ u. ground arith; environments = h }
portal_state-IsAnchored ev (some p) k h = record { inhabited = λ u. ground arith; environments = h }

environment_state-HasSession :
    (ev : EnvironmentEvent) (o : Option WorkshopEnvironment)
    → is ev.phase "Unknown" ≡ false
    → HasSession (environment_state ev o)
unfolding environment_state
environment_state-HasSession ev none k u = ground arith
environment_state-HasSession ev (some e) k u = ground arith

with_session-HasSession :
    (ev : SessionEvent) (e : WorkshopEnvironment) → HasSession (with_session ev e)
unfolding with_session
with_session-HasSession ev e u = put-ne-nil e.sessions ev.session_name _

-- The sessions of the environments other than the one that is written and taken out again.
others-HasSession :
    (d : Dict WorkshopEnvironment) (k : String)
    → Entries (λ j e. str_eq j k ≡ false → HasSession e) d
    → Entries (λ j e. str_eq j k ≡ false → HasSession e) (recalculate_each d)
unfolding recalculate_each Environments.recalculate_capacity
others-HasSession [] k h = tt
others-HasSession ((j, e) ∷ d) k h = (h.0, others-HasSession d k h.1)

replaced-HasSessions :
    (p : TrainingPortal) (k : String) (e : WorkshopEnvironment)
    → HasSessions p
    → HasSessions
        (Portals.remove_environment (Portals.recalculate_capacity (store_environment p k e)) k)
unfolding Portals.remove_environment Portals.recalculate_capacity store_environment
replaced-HasSessions p k e h =
    pop-Entries_others (λ _ e. HasSession e) _ k
      (others-HasSession _ k (put-Entries_others (λ _ e. HasSession e) p.environments k e h))

discard_environment-Anchored :
    (ev : SessionEvent) (c : ClusterConfig) (p : TrainingPortal) (e : WorkshopEnvironment)
    → HasSessions p
    → Anchored c
    → Anchored (
        discard_environment_if_unknown ev e
          (Portals.recalculate_capacity (store_environment p ev.environment_name e))
          c)
unfolding discard_environment_if_unknown Environments.get_sessions
discard_environment-Anchored ev c p e s h =
    elim (Bool-cases (is e.phase "Unknown" && is_empty (values e.sessions))) [
      | inl t ↦
          rw t
            (discard-Anchored c ev.portal_name _ (replaced-HasSessions p ev.environment_name e s) h)
      | inr f ↦ rw f (
          store_portal-Anchored c ev.portal_name _
            (recalculate-IsAnchored _
              (store_environment-IsAnchored p ev.environment_name e (λ u. ground arith) s))
            h)
    ]

trainingportals-Anchored :
    (ev : PortalEvent) (c : ClusterConfig)
    → is ev.phase "Unknown" ≡ false
    → Anchored c
    → Anchored (trainingportals_event ev c).0
trainingportals-Anchored ev c k h =
    trainingportals_cases Anchored c ev (λ _ _. h)
      (λ _ _ _. remove_portal-Anchored c ev.portal_name h)
      λ _.
        store_portal-Anchored c ev.portal_name _
          (recalculate-IsAnchored _
            (portal_state-IsAnchored ev _ k (portal_state-HasSessions ev c h)))
          h

workshopenvironments-Anchored :
    (ev : EnvironmentEvent) (c : ClusterConfig)
    → is ev.phase "Unknown" ≡ false
    → Anchored c
    → Anchored (workshopenvironments_event ev c)
workshopenvironments-Anchored ev c k h =
    workshopenvironments_cases Anchored c ev (λ _ _. h)
      (λ _ p e.
        discard-Anchored c ev.portal_name _
          (recalculate-HasSessions _
            (remove_environment-HasSessions p ev.environment_name (found c ev.portal_name p h e)))
          h)
      λ _ p e.
        store_portal-Anchored c ev.portal_name _
          (recalculate-IsAnchored _ (
            store_environment-IsAnchored p ev.environment_name _
              (environment_state-HasSession ev _ k)
              (rw e (found-HasSessions c ev.portal_name ev.portal_uid h))))
          h

workshopsessions-Anchored :
    (ev : SessionEvent) (c : ClusterConfig) → Anchored c → Anchored (workshopsessions_event ev c)
workshopsessions-Anchored ev c h =
    workshopsessions_cases Anchored c ev (λ _ _. h) (λ _ _ _ _. h)
      (λ _ p e f _.
        discard_environment-Anchored ev c p (Environments.remove_session e ev.session_name)
          (found c ev.portal_name p h f) h)
      λ _ p e f _.
        store_portal-Anchored c ev.portal_name _
          (recalculate-IsAnchored _ (
            store_environment-IsAnchored p ev.environment_name _ (with_session-HasSession ev e)
              (rw f (found-HasSessions c ev.portal_name ev.portal_uid h))))
          h

handle-Anchored :
    (ev : Event) (c : ClusterConfig) → IsKnown ev → Anchored c → Anchored (handle ev c)
unfolding handle
handle-Anchored (portal ev) c k h = trainingportals-Anchored ev c k h
handle-Anchored (environment ev) c k h = workshopenvironments-Anchored ev c k h
handle-Anchored (session ev) c k h = workshopsessions-Anchored ev c h

-- As long as no portal's or environment's own event gives the phase "Unknown", a placeholder
-- portal always has an environment and a placeholder environment a session, whatever the order of
-- events: none of them stays behind empty.
pub watch-Anchored :
    (evs : List Event) (c : ClusterConfig) → AllKnown evs → Anchored c → Anchored (watch evs c)
unfolding watch
watch-Anchored [] c k h = h
watch-Anchored (ev ∷ evs) c k h = watch-Anchored evs (handle ev c) k.1 (handle-Anchored ev c k.0 h)
