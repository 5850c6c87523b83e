-- ===== src/Lookup/Events/Counters.antt =====
-- The capacity counters that the requests read, under the events of clusters.py.
use educates_training_platfo.Prelude.{
  String, ◌≡◌, refl, sym, ◌∙◌, Option, none, some, List, [], ◌∷◌, arith, is, Bool-cases, inl, inr,
  ◌&&◌, both, is_empty, nil_of_is_empty,
}
use educates_training_platfo.Dict.{
  get, put, Entries, put-Entries, pop-Entries, get-Entries, Unique, put-Unique, pop-Unique,
  sum_by-pop, get-put_self,
}
use educates_training_platfo.Lookup.Caches.Environments
use educates_training_platfo.Lookup.Caches.Environments.{WorkshopEnvironment, tally}
use educates_training_platfo.Lookup.Caches.Portals
use educates_training_platfo.Lookup.Caches.Portals.{TrainingPortal}
use educates_training_platfo.Lookup.Caches.Clusters
use educates_training_platfo.Lookup.Caches.Clusters.{ClusterConfig}
use educates_training_platfo.Lookup.Caches.Capacity.{
  IsCounted, IsConsistent, recalculate-IsConsistent, recalculate_each-Unique, get-recalculate_each,
}
use educates_training_platfo.Lookup.Events.Cases.{
  trainingportals_cases, workshopenvironments_cases, workshopsessions_cases,
}
use educates_training_platfo.Lookup.Events.{
  Event, portal, environment, session, PortalEvent, EnvironmentEvent, SessionEvent, store_portal,
  store_environment, portal_state, trainingportals_event, discard_if_unknown,
  workshopenvironments_event, portal_or_unknown, discard_environment_if_unknown,
  workshopsessions_event, unknown_portal, handle, watch,
}

-- A portal whose environments have distinct names and whose counters agree.
pub record IsSound (p : TrainingPortal) : Type 0 where
  pub unique : Unique p.environments
  pub consistent : IsConsistent p

-- The counters of every portal and environment of the cluster agree with its sessions.
abbrev pub Counters : ClusterConfig → Type 0
Counters c = Entries (λ _ p. IsSound p) c.portals

store_portal-Counters :
    (c : ClusterConfig) (k : String) (p : TrainingPortal)
    → IsSound p
    → Counters c
    → Counters (store_portal c k p)
unfolding store_portal
store_portal-Counters c k p s h = put-Entries (λ _ p. IsSound p) c.portals k p s h

remove_portal-Counters :
    (c : ClusterConfig) (k : String) → Counters c → Counters (Clusters.remove_portal c k)
unfolding Clusters.remove_portal
remove_portal-Counters c k h = pop-Entries (λ _ p. IsSound p) c.portals k h

recalculate-IsSound :
    (p : TrainingPortal) → Unique p.environments → IsSound (Portals.recalculate_capacity p)
recalculate-IsSound p u = record {
  unique = unfold Portals.recalculate_capacity in recalculate_each-Unique p.environments u;
  consistent = recalculate-IsConsistent p;
}

discard-Counters :
    (c : ClusterConfig) (k : String) (p : TrainingPortal)
    → IsSound p
    → Counters c
    → Counters (discard_if_unknown c k p)
unfolding discard_if_unknown
discard-Counters c k p s h =
    ground (arith, store_portal-Counters c k p s h, remove_portal-Counters c k h)

-- Removing an environment that counts nothing keeps the portal's total.
remove_environment-IsSound :
    (p : TrainingPortal) (k : String) (e : WorkshopEnvironment)
    → get p.environments k ≡ some e
    → e.allocated ≡ 0
    → IsSound p
    → IsSound (Portals.remove_environment p k)
unfolding Portals.remove_environment
remove_environment-IsSound p k e g z s = record {
  unique = pop-Unique p.environments k s.unique;
  consistent = record {
    total =
        s.consistent.total ∙ sym (sum_by-pop (λ e. e.allocated) p.environments k e s.unique g z);
    counted = pop-Entries (λ _ e. IsCounted e) p.environments k s.consistent.counted;
  };
}

found-IsSound :
    (c : ClusterConfig) (k : String) (p : TrainingPortal)
    → Counters c
    → Clusters.get_portal c k ≡ some p
    → IsSound p
unfolding Clusters.get_portal
found-IsSound c k p h e = get-Entries (λ _ p. IsSound p) c.portals k p h e

-- A portal that is found, or made as a placeholder, has distinct environment names.
or_unknown-Unique :
    (k : String) (uid : Option String) (o : Option TrainingPortal)
    → ((p : TrainingPortal) → o ≡ some p → IsSound p)
    → Unique (portal_or_unknown k uid o).environments
unfolding portal_or_unknown unknown_portal
or_unknown-Unique k uid none h = tt
or_unknown-Unique k uid (some p) h = (h p refl).unique

portal_state-Unique :
    (ev : PortalEvent) (o : Option TrainingPortal)
    → ((p : TrainingPortal) → o ≡ some p → IsSound p)
    → Unique (portal_state ev o).environments
unfolding portal_state
portal_state-Unique ev none h = tt
portal_state-Unique ev (some p) h = (h p refl).unique

store_environment-IsSound :
    (p : TrainingPortal) (k : String) (e : WorkshopEnvironment)
    → Unique p.environments
    → IsSound (Portals.recalculate_capacity (store_environment p k e))
unfolding store_environment
store_environment-IsSound p k e u = recalculate-IsSound _ (put-Unique p.environments k e u)

trainingportals-Counters :
    (ev : PortalEvent) (c : ClusterConfig) → Counters c → Counters (trainingportals_event ev c).0
trainingportals-Counters ev c h =
    trainingportals_cases Counters c ev (λ _ _. h)
      (λ _ _ _. remove_portal-Counters c ev.portal_name h)
      λ _.
        store_portal-Counters c ev.portal_name _
          (recalculate-IsSound _
            (portal_state-Unique ev _ (λ p. found-IsSound c ev.portal_name p h)))
          h

workshopenvironments-Counters :
    (ev : EnvironmentEvent) (c : ClusterConfig)
    → Counters c
    → Counters (workshopenvironments_event ev c)
unfolding Portals.remove_environment
workshopenvironments-Counters ev c h =
    workshopenvironments_cases Counters c ev (λ _ _. h)
      (λ _ p e.
        discard-Counters c ev.portal_name _
          (recalculate-IsSound _ (
            pop-Unique p.environments ev.environment_name
              (found-IsSound c ev.portal_name p h e).unique))
          h)
      λ _ p e.
        store_portal-Counters c ev.portal_name _
          (store_environment-IsSound p ev.environment_name _ (
            rw e (
              or_unknown-Unique ev.portal_name ev.portal_uid _
                (λ q. found-IsSound c ev.portal_name q h))))
          h

-- An environment with no session left counts nothing once the portal is recalculated.
emptied-IsSound :
    (p : TrainingPortal) (k : String) (e : WorkshopEnvironment)
    → Environments.get_sessions e ≡ []
    → Unique p.environments
    → IsSound
        (Portals.remove_environment (Portals.recalculate_capacity (store_environment p k e)) k)
emptied-IsSound p k e empty u =
    remove_environment-IsSound _ k (Environments.recalculate_capacity e)
      (unfold Portals.recalculate_capacity store_environment in
        rw (get-recalculate_each (put p.environments k e) k, get-put_self p.environments k e))
      (unfold Environments.recalculate_capacity Environments.get_sessions tally in rw empty)
      (store_environment-IsSound p k e u)

discard_environment-Counters :
    (ev : SessionEvent) (c : ClusterConfig) (p : TrainingPortal) (e : WorkshopEnvironment)
    → Unique p.environments
    → Counters c
    → Counters (
        discard_environment_if_unknown ev e
          (Portals.recalculate_capacity (store_environment p ev.environment_name e))
          c)
unfolding discard_environment_if_unknown
discard_environment-Counters ev c p e u h =
    elim (Bool-cases (is e.phase "Unknown" && is_empty (Environments.get_sessions e))) [
      | inl t ↦ rw t (
          discard-Counters c ev.portal_name _
            (emptied-IsSound p ev.environment_name e
              (nil_of_is_empty _ (both (is e.phase "Unknown") _ t).1) u)
            h)
      | inr f ↦ rw f (
          store_portal-Counters c ev.portal_name _
            (store_environment-IsSound p ev.environment_name e u) h)
    ]

workshopsessions-Counters :
    (ev : SessionEvent) (c : ClusterConfig) → Counters c → Counters (workshopsessions_event ev c)
workshopsessions-Counters ev c h =
    workshopsessions_cases Counters c ev (λ _ _. h) (λ _ _ _ _. h)
      (λ _ p e f _.
        discard_environment-Counters ev c p (Environments.remove_session e ev.session_name)
          (found-IsSound c ev.portal_name p h f).unique h)
      λ _ p e f _.
        store_portal-Counters c ev.portal_name _
          (store_environment-IsSound p ev.environment_name _ (
            rw f (
              or_unknown-Unique ev.portal_name ev.portal_uid _
                (λ q. found-IsSound c ev.portal_name q h))))
          h

handle-Counters : (ev : Event) (c : ClusterConfig) → Counters c → Counters (handle ev c)
unfolding handle
handle-Counters (portal ev) c h = trainingportals-Counters ev c h
handle-Counters (environment ev) c h = workshopenvironments-Counters ev c h
handle-Counters (session ev) c h = workshopsessions-Counters ev c h

-- From a cluster whose counters agree with its sessions, whatever events arrive, in whatever
-- order, the counters of every portal and every environment agree with their sessions.
pub watch-Counters : (evs : List Event) (c : ClusterConfig) → Counters c → Counters (watch evs c)
unfolding watch
watch-Counters [] c h = h
watch-Counters (ev ∷ evs) c h = watch-Counters evs (handle ev c) (handle-Counters ev c h)
