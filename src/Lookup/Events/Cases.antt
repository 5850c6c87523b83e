-- ===== src/Lookup/Events/Cases.antt =====
-- The ways through each handler of clusters.py, for a statement about the cluster that it leaves.
use educates_training_platfo.Prelude.{
  ◌≡◌, refl, none, some, is, Bool-cases, inl, inr, true, false, Option-cases,
}
use educates_training_platfo.Lookup.Caches.Environments
use educates_training_platfo.Lookup.Caches.Environments.{WorkshopEnvironment}
use educates_training_platfo.Lookup.Caches.Portals
use educates_training_platfo.Lookup.Caches.Portals.{TrainingPortal}
use educates_training_platfo.Lookup.Caches.Clusters
use educates_training_platfo.Lookup.Caches.Clusters.{ClusterConfig}
use educates_training_platfo.Lookup.Events.{
  PortalEvent, EnvironmentEvent, SessionEvent, store_portal, store_environment, portal_state,
  trainingportals_event, discard_if_unknown, environment_state, environment_deleted,
  workshopenvironments_event, portal_or_unknown, environment_or_unknown,
  discard_environment_if_unknown, session_deleted_in, session_deleted, with_session,
  workshopsessions_event,
}

module _ {ℓ} (Q : ClusterConfig → Type ℓ) (c : ClusterConfig) where
  pub trainingportals_cases :
      (ev : PortalEvent)
      → (is ev.type "DELETED" ≡ true → Clusters.get_portal c ev.portal_name ≡ none → Q c)
      → (is ev.type "DELETED" ≡ true
          → (p : TrainingPortal) → Clusters.get_portal c ev.portal_name ≡ some p
          → Q (Clusters.remove_portal c ev.portal_name))
      → (is ev.type "DELETED" ≡ false
          → Q (
              store_portal c ev.portal_name (
                Portals.recalculate_capacity
                  (portal_state ev (Clusters.get_portal c ev.portal_name)))))
      → Q (trainingportals_event ev c).0
  unfolding trainingportals_event
  trainingportals_cases ev absent removed stored = elim (Bool-cases (is ev.type "DELETED")) [
    | inl d ↦ rw d (elim (Option-cases (Clusters.get_portal c ev.portal_name)) [
      | inl e ↦ rw e (absent d e)
      | inr (p, e) ↦ rw e (removed d p e)
    ])
    | inr d ↦ rw d (stored d)
  ]

  pub workshopenvironments_cases :
      (ev : EnvironmentEvent)
      → (is ev.type "DELETED" ≡ true → Clusters.get_portal c ev.portal_name ≡ none → Q c)
      → (is ev.type "DELETED" ≡ true
          → (p : TrainingPortal) → Clusters.get_portal c ev.portal_name ≡ some p
          → Q (
              discard_if_unknown c ev.portal_name
                (Portals.recalculate_capacity (Portals.remove_environment p ev.environment_name))))
      → (is ev.type "DELETED" ≡ false
          → (p : TrainingPortal)
          → p
            ≡ portal_or_unknown ev.portal_name ev.portal_uid (Clusters.get_portal c ev.portal_name)
          → Q (
              store_portal c ev.portal_name (
                Portals.recalculate_capacity (
                  store_environment p ev.environment_name
                    (environment_state ev (Portals.get_environment p ev.environment_name))))))
      → Q (workshopenvironments_event ev c)
  unfolding workshopenvironments_event environment_deleted
  workshopenvironments_cases ev absent removed stored = elim (Bool-cases (is ev.type "DELETED")) [
    | inl d ↦ rw d (elim (Option-cases (Clusters.get_portal c ev.portal_name)) [
      | inl e ↦ rw e (absent d e)
      | inr (p, e) ↦ rw e (removed d p e)
    ])
    | inr d ↦ rw d (stored d _ refl)
  ]

  pub workshopsessions_cases :
      (ev : SessionEvent)
      → (is ev.type "DELETED" ≡ true → Clusters.get_portal c ev.portal_name ≡ none → Q c)
      → (is ev.type "DELETED" ≡ true
          → (p : TrainingPortal) → Clusters.get_portal c ev.portal_name ≡ some p
          → Portals.get_environment p ev.environment_name ≡ none
          → Q c)
      → (is ev.type "DELETED" ≡ true
          → (p : TrainingPortal) (e : WorkshopEnvironment)
          → Clusters.get_portal c ev.portal_name ≡ some p
          → Portals.get_environment p ev.environment_name ≡ some e
          → Q (
              discard_environment_if_unknown ev
                (Environments.remove_session e ev.session_name)
                (Portals.recalculate_capacity (
                  store_environment p ev.environment_name
                    (Environments.remove_session e ev.session_name)))
                c))
      → (is ev.type "DELETED" ≡ false
          → (p : TrainingPortal) (e : WorkshopEnvironment)
          → p
            ≡ portal_or_unknown ev.portal_name ev.portal_uid (Clusters.get_portal c ev.portal_name)
          → e ≡ environment_or_unknown ev (Portals.get_environment p ev.environment_name)
          → Q (
              store_portal c ev.portal_name (
                Portals.recalculate_capacity
                  (store_environment p ev.environment_name (with_session ev e)))))
      → Q (workshopsessions_event ev c)
  unfolding workshopsessions_event session_deleted session_deleted_in
  workshopsessions_cases ev absent homeless removed stored =
      elim (Bool-cases (is ev.type "DELETED")) [
        | inl d ↦ rw d (elim (Option-cases (Clusters.get_portal c ev.portal_name)) [
          | inl e ↦ rw e (absent d e)
          | inr (p, e) ↦ rw e (elim (Option-cases (Portals.get_environment p ev.environment_name)) [
            | inl f ↦ rw f (homeless d p e f)
            | inr (v, f) ↦ rw f (removed d p v e f)
          ])
        ])
        | inr d ↦ rw d (stored d _ _ refl refl)
      ]
