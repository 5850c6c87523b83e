-- ===== src/Lookup/Events/View.antt =====
-- The cluster's cache as one flat map from portal, environment and session names to sessions, and
-- the handlers of clusters.py as changes of that map.
pub mod Sessions
pub mod Owners
pub mod Watched
use educates_training_platfo.Prelude.{
  String, ◌≡◌, refl, sym, ap, ◌∙◌, subst, Option, none, some, [], arith, is, Bool-cases, inl, inr,
  ◌&&◌, both, is_empty, nil_of_is_empty, if◌then◌else◌, str_eq, eq_iff, true,
}
use educates_training_platfo.Dict.{get, put, get-put, get-pop, get_empty, get-put_self}
use educates_training_platfo.Lookup.Caches.Sessions.{WorkshopSession}
use educates_training_platfo.Lookup.Caches.Environments
use educates_training_platfo.Lookup.Caches.Environments.{WorkshopEnvironment}
use educates_training_platfo.Lookup.Caches.Portals
use educates_training_platfo.Lookup.Caches.Portals.{TrainingPortal}
use educates_training_platfo.Lookup.Caches.Clusters
use educates_training_platfo.Lookup.Caches.Clusters.{ClusterConfig}
use educates_training_platfo.Lookup.Caches.Capacity.{get-recalculate_each}
use educates_training_platfo.Lookup.Events.{
  PortalEvent, EnvironmentEvent, SessionEvent, store_portal, store_environment, portal_state,
  discard_if_unknown, environment_state, portal_or_unknown, environment_or_unknown,
  discard_environment_if_unknown, unknown_portal, unknown_environment,
}

abbrev pub session_in : Option WorkshopEnvironment → String → Option WorkshopSession
session_in none i = none
session_in (some e) i = get e.sessions i

abbrev pub portal_view : TrainingPortal → String → String → Option WorkshopSession
portal_view p j i = session_in (get p.environments j) i

abbrev pub found_view : Option TrainingPortal → String → String → Option WorkshopSession
found_view none j i = none
found_view (some p) j i = portal_view p j i

-- The session that a cluster's cache holds under the three names.
abbrev pub view : ClusterConfig → String → String → String → Option WorkshopSession
view c k j i = found_view (get c.portals k) j i

module _ (j i : String) where
  pub recalculate-view :
      (p : TrainingPortal) → portal_view (Portals.recalculate_capacity p) j i ≡ portal_view p j i
  unfolding Portals.recalculate_capacity Environments.recalculate_capacity
  recalculate-view p = ground (arith, get-recalculate_each p.environments j)

  pub store_environment-view :
      (p : TrainingPortal) (k : String) (e : WorkshopEnvironment)
      → portal_view (store_environment p k e) j i
        ≡ (if str_eq k j then get e.sessions i else portal_view p j i)
  unfolding store_environment
  store_environment-view p k e = ground (arith, get-put p.environments k j e)

  pub remove_environment-view :
      (p : TrainingPortal) (k : String)
      → portal_view (Portals.remove_environment p k) j i
        ≡ (if str_eq k j then none else portal_view p j i)
  unfolding Portals.remove_environment
  remove_environment-view p k = ground (arith, get-pop p.environments k j)

  pub empty_portal-view :
      (p : TrainingPortal) → Portals.get_environments p ≡ [] → portal_view p j i ≡ none
  unfolding Portals.get_environments
  empty_portal-view p e = rw (get_empty p.environments j e)

pub same_environment-view :
    (p : TrainingPortal) (k j i : String)
    → (if str_eq k j then portal_view p k i else portal_view p j i) ≡ portal_view p j i
same_environment-view p k j i = elim (Bool-cases (str_eq k j)) [
  | inl t ↦ rw ((eq_iff k j).0 t) (ground arith)
  | inr f ↦ rw f
]

pub portal_state-view :
    (ev : PortalEvent) (o : Option TrainingPortal) (j i : String)
    → portal_view (portal_state ev o) j i ≡ found_view o j i
unfolding portal_state get
portal_state-view ev none j i = refl
portal_state-view ev (some p) j i = refl

pub or_unknown-view :
    (k : String) (uid : Option String) (o : Option TrainingPortal) (j i : String)
    → portal_view (portal_or_unknown k uid o) j i ≡ found_view o j i
unfolding portal_or_unknown unknown_portal get
or_unknown-view k uid none j i = refl
or_unknown-view k uid (some p) j i = refl

pub environment_state-view :
    (ev : EnvironmentEvent) (o : Option WorkshopEnvironment) (i : String)
    → get (environment_state ev o).sessions i ≡ session_in o i
unfolding environment_state get
environment_state-view ev none i = refl
environment_state-view ev (some e) i = refl

pub environment_or_unknown-view :
    (ev : SessionEvent) (o : Option WorkshopEnvironment) (i : String)
    → get (environment_or_unknown ev o).sessions i ≡ session_in o i
unfolding environment_or_unknown unknown_environment get
environment_or_unknown-view ev none i = refl
environment_or_unknown-view ev (some e) i = refl

-- A name that is asked for, and the same name in an event.
module _ (c : ClusterConfig) (n k j i : String) (same : str_eq n k ≡ true) where
  pub absent-view : Clusters.get_portal c n ≡ none → view c k j i ≡ none
  unfolding Clusters.get_portal
  absent-view e = rw (subst (λ m. get c.portals m ≡ none) ((eq_iff n k).0 same) e)

  pub found_portal-view :
      (p : TrainingPortal) → Clusters.get_portal c n ≡ some p → view c k j i ≡ portal_view p j i
  unfolding Clusters.get_portal
  found_portal-view p e = rw (subst (λ m. get c.portals m ≡ some p) ((eq_iff n k).0 same) e)

-- The same for an environment's name.
pub environment_at :
    (p : TrainingPortal) (n j i : String)
    → str_eq n j ≡ true
    → (o : Option WorkshopEnvironment) → Portals.get_environment p n ≡ o
    → portal_view p j i ≡ session_in o i
unfolding Portals.get_environment
environment_at p n j i same o e = rw (subst (λ m. get p.environments m ≡ o) ((eq_iff n j).0 same) e)

pub environment_or_unknown_at :
    (p : TrainingPortal) (ev : SessionEvent) (j i : String)
    → str_eq ev.environment_name j ≡ true
    → (e : WorkshopEnvironment)
    → e ≡ environment_or_unknown ev (Portals.get_environment p ev.environment_name)
    → portal_view p j i ≡ get e.sessions i
environment_or_unknown_at p ev j i same e f =
    environment_at p ev.environment_name j i same _ refl
    ∙ sym (rw f (environment_or_unknown-view ev _ i))

pub or_unknown_at :
    (c : ClusterConfig) (ev : SessionEvent) (k j i : String)
    → str_eq ev.portal_name k ≡ true
    → (p : TrainingPortal)
    → p ≡ portal_or_unknown ev.portal_name ev.portal_uid (Clusters.get_portal c ev.portal_name)
    → view c k j i ≡ portal_view p j i
unfolding Clusters.get_portal
or_unknown_at c ev k j i same p f =
    ap (λ m. found_view (get c.portals m) j i) (sym ((eq_iff ev.portal_name k).0 same))
    ∙ sym (rw f (or_unknown-view ev.portal_name ev.portal_uid _ j i))

-- The environment that a recalculated portal holds under a name.
pub stored_environment :
    (p : TrainingPortal) (k : String) (e : WorkshopEnvironment)
    → get (Portals.recalculate_capacity (store_environment p k e)).environments k
      ≡ some (Environments.recalculate_capacity e)
unfolding Portals.recalculate_capacity store_environment
stored_environment p k e =
    rw (get-recalculate_each (put p.environments k e) k, get-put_self p.environments k e)

module _ (k' j i : String) where
  pub store_portal-view :
      (c : ClusterConfig) (k : String) (p : TrainingPortal)
      → view (store_portal c k p) k' j i
        ≡ (if str_eq k k' then portal_view p j i else view c k' j i)
  unfolding store_portal
  store_portal-view c k p = ground (arith, get-put c.portals k k' p)

  pub remove_portal-view :
      (c : ClusterConfig) (k : String)
      → view (Clusters.remove_portal c k) k' j i ≡ (if str_eq k k' then none else view c k' j i)
  unfolding Clusters.remove_portal
  remove_portal-view c k = ground (arith, get-pop c.portals k k')

  -- Dropping an empty placeholder shows nothing.
  pub discard-view :
      (c : ClusterConfig) (k : String) (p : TrainingPortal)
      → view (discard_if_unknown c k p) k' j i
        ≡ (if str_eq k k' then portal_view p j i else view c k' j i)
  unfolding discard_if_unknown
  discard-view c k p =
      elim (Bool-cases (is p.phase "Unknown" && is_empty (Portals.get_environments p))) [
        | inl t ↦ rw (
          t,
          remove_portal-view c k,
          empty_portal-view j i p (nil_of_is_empty _ (both (is p.phase "Unknown") _ t).1),
        )
        | inr f ↦ rw (f, store_portal-view c k p)
      ]

  -- What is written back at the name under which it was read.
  pub same_name-view :
      (c : ClusterConfig) (k : String)
      → (if str_eq k k' then view c k j i else view c k' j i) ≡ view c k' j i
  same_name-view c k = elim (Bool-cases (str_eq k k')) [
    | inl t ↦ rw ((eq_iff k k').0 t) (ground arith)
    | inr f ↦ rw f
  ]

  pub discard_environment-view :
      (ev : SessionEvent) (e : WorkshopEnvironment) (p : TrainingPortal) (c : ClusterConfig)
      → get p.environments ev.environment_name ≡ some (Environments.recalculate_capacity e)
      → view (discard_environment_if_unknown ev e p c) k' j i
        ≡ (if str_eq ev.portal_name k' then portal_view p j i else view c k' j i)
  unfolding discard_environment_if_unknown
  discard_environment-view ev e p c h =
      elim (Bool-cases (is e.phase "Unknown" && is_empty (Environments.get_sessions e))) [
        | inl t ↦
            rw
              (
                t,
                discard-view c ev.portal_name (Portals.remove_environment p ev.environment_name),
                remove_environment-view j i p ev.environment_name,
              )
              (rw (vacant (nil_of_is_empty _ (both (is e.phase "Unknown") _ t).1)))
        | inr f ↦ rw (f, store_portal-view c ev.portal_name p)
      ]
    where
      gone :
          Environments.get_sessions e ≡ []
          → get (Environments.recalculate_capacity e).sessions i ≡ none
      gone empty =
          unfold Environments.recalculate_capacity Environments.get_sessions in
          get_empty e.sessions i empty

      vacant :
          Environments.get_sessions e ≡ []
          → (if str_eq ev.environment_name j then none else portal_view p j i) ≡ portal_view p j i
      vacant empty = elim (Bool-cases (str_eq ev.environment_name j)) [
        | inl t ↦
            rw
              (
                t,
                subst (λ m. get p.environments m ≡ some (Environments.recalculate_capacity e))
                    ((eq_iff ev.environment_name j).0 t) h,
              )
              (sym (gone empty))
        | inr f ↦ rw f
      ]
