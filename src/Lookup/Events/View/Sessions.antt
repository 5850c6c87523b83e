-- ===== src/Lookup/Events/View/Sessions.antt =====
-- The sessions' handler of clusters.py as a change of the flat map.
use educates_training_platfo.Prelude.{
  String, ◌≡◌, ap, Option, none, some, arith, is, Bool, ◌&&◌, if◌then◌else◌, str_eq, eq_iff, true,
  false,
}
use educates_training_platfo.Dict.{get, get-put, get-pop}
use educates_training_platfo.Lookup.Caches.Sessions.{WorkshopSession}
use educates_training_platfo.Lookup.Caches.Environments
use educates_training_platfo.Lookup.Caches.Environments.{WorkshopEnvironment}
use educates_training_platfo.Lookup.Caches.Portals
use educates_training_platfo.Lookup.Caches.Portals.{TrainingPortal}
use educates_training_platfo.Lookup.Caches.Clusters
use educates_training_platfo.Lookup.Caches.Clusters.{ClusterConfig}
use educates_training_platfo.Lookup.Events.Cases.{workshopsessions_cases}
use educates_training_platfo.Lookup.Events.{
  SessionEvent, store_portal, store_environment, portal_or_unknown, environment_or_unknown,
  discard_environment_if_unknown, session_state, with_session, workshopsessions_event,
}
use educates_training_platfo.Lookup.Events.View.{
  view, recalculate-view, store_environment-view, absent-view, found_portal-view, environment_at,
  environment_or_unknown_at, or_unknown_at, stored_environment, store_portal-view,
  discard_environment-view,
}

-- The names of an event are the names that are asked for.
abbrev pub names : SessionEvent → String → String → String → Bool
names ev k j i = str_eq ev.portal_name k && str_eq ev.environment_name j && str_eq ev.session_name i

module _ (ev : SessionEvent) (c : ClusterConfig) (k j i : String) where
  -- The session that an event leaves under the names that are asked for.
  abbrev expected : Option WorkshopSession
  expected =
      if names ev k j i
      then (if is ev.type "DELETED" then none else some (session_state ev (view c k j i)))
      else view c k j i

  missing_environment-view :
      (p : TrainingPortal)
      → is ev.type "DELETED" ≡ true
      → Clusters.get_portal c ev.portal_name ≡ some p
      → Portals.get_environment p ev.environment_name ≡ none
      → view c k j i ≡ expected
  missing_environment-view p d e f = ground (
    arith,
    λ (t : str_eq ev.portal_name k ≡ true). found_portal-view c ev.portal_name k j i t p e,
    λ (t : str_eq ev.environment_name j ≡ true). environment_at p ev.environment_name j i t none f,
  )

  removed-view :
      (p : TrainingPortal) (e : WorkshopEnvironment)
      → is ev.type "DELETED" ≡ true
      → Clusters.get_portal c ev.portal_name ≡ some p
      → Portals.get_environment p ev.environment_name ≡ some e
      → view
          (discard_environment_if_unknown ev
            (Environments.remove_session e ev.session_name)
            (Portals.recalculate_capacity (
              store_environment p ev.environment_name
                (Environments.remove_session e ev.session_name)))
            c)
          k
          j
          i
        ≡ expected
  removed-view p e d f g =
      let v = Environments.remove_session e ev.session_name in
      let q = Portals.recalculate_capacity (store_environment p ev.environment_name v) in
      rw
        (
          discard_environment-view k j i ev v q c (stored_environment p ev.environment_name v),
          recalculate-view j i,
          store_environment-view j i p ev.environment_name,
        )
        (unfold Environments.remove_session in
          ground (
            arith,
            get-pop e.sessions ev.session_name i,
            λ (t : str_eq ev.portal_name k ≡ true). found_portal-view c ev.portal_name k j i t p f,
            λ (t : str_eq ev.environment_name j ≡ true).
                environment_at p ev.environment_name j i t (some e) g,
          ))

  stored-view :
      (p : TrainingPortal) (e : WorkshopEnvironment)
      → is ev.type "DELETED" ≡ false
      → p ≡ portal_or_unknown ev.portal_name ev.portal_uid (Clusters.get_portal c ev.portal_name)
      → e ≡ environment_or_unknown ev (Portals.get_environment p ev.environment_name)
      → view
          (store_portal c ev.portal_name (
            Portals.recalculate_capacity
              (store_environment p ev.environment_name (with_session ev e))))
          k
          j
          i
        ≡ expected
  stored-view p e d f g =
      rw
        (
          store_portal-view k j i c ev.portal_name,
          recalculate-view j i,
          store_environment-view j i p ev.environment_name,
        )
        (unfold with_session Environments.get_session in
          ground (
            arith,
            get-put e.sessions ev.session_name i
                (session_state ev (get e.sessions ev.session_name)),
            λ (t : str_eq ev.portal_name k ≡ true). or_unknown_at c ev k j i t p f,
            λ (t : str_eq ev.environment_name j ≡ true). environment_or_unknown_at p ev j i t e g,
            λ (t : str_eq ev.session_name i ≡ true).
                ap (get e.sessions) ((eq_iff ev.session_name i).0 t),
          ))

-- A session event sets, or on deletion clears, the session that it names, and leaves every other
-- session of the cluster as it was, also where it makes or drops a placeholder.
pub workshopsessions_event-view :
    (ev : SessionEvent) (c : ClusterConfig) (k j i : String)
    → view (workshopsessions_event ev c) k j i ≡ (
        if names ev k j i
        then (if is ev.type "DELETED" then none else some (session_state ev (view c k j i)))
        else view c k j i)
workshopsessions_event-view ev c k j i =
    workshopsessions_cases (λ d. view d k j i ≡ expected ev c k j i) c ev
      (λ d e.
        ground
          (arith, λ (t : str_eq ev.portal_name k ≡ true). absent-view c ev.portal_name k j i t e))
      (λ d p e f. missing_environment-view ev c k j i p d e f)
      (λ d p e f g. removed-view ev c k j i p e d f g) λ d p e f g. stored-view ev c k j i p e d f g
