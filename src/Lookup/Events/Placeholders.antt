-- ===== src/Lookup/Events/Placeholders.antt =====
-- The placeholders of clusters.py: a portal or an environment whose own event has not come yet
-- stands in the cache with the phase "Unknown", and goes with the last thing that is in it.
pub mod Watch
pub mod Roundtrip
use educates_training_platfo.Prelude.{
  String, ◌≡◌, refl, Option, none, some, List, [], ◌∷◌, arith, is, Bool-cases, inl, inr, ◌&&◌,
  is_empty, true, false,
}
use educates_training_platfo.Dict.{
  Dict, get, values, Entries, put-Entries, pop-Entries, get-Entries, put-ne-nil,
}
use educates_training_platfo.Lookup.Caches.Environments
use educates_training_platfo.Lookup.Caches.Environments.{WorkshopEnvironment}
use educates_training_platfo.Lookup.Caches.Portals
use educates_training_platfo.Lookup.Caches.Portals.{TrainingPortal, recalculate_each}
use educates_training_platfo.Lookup.Caches.Clusters
use educates_training_platfo.Lookup.Caches.Clusters.{ClusterConfig}
use educates_training_platfo.Lookup.Events.{
  Event, portal, environment, session, store_portal, store_environment, discard_if_unknown,
  portal_or_unknown, unknown_portal,
}

-- An environment with the phase "Unknown" has a session.
abbrev pub HasSession : WorkshopEnvironment → Type 0
HasSession e = is e.phase "Unknown" ≡ true → is_empty (values e.sessions) ≡ false

abbrev pub HasSessions : TrainingPortal → Type 0
HasSessions p = Entries (λ _ e. HasSession e) p.environments

-- A portal with the phase "Unknown" has an environment, and its environments are as above.
pub record IsAnchored (p : TrainingPortal) : Type 0 where
  pub inhabited : is p.phase "Unknown" ≡ true → is_empty (values p.environments) ≡ false
  pub environments : HasSessions p

abbrev pub Anchored : ClusterConfig → Type 0
Anchored c = Entries (λ _ p. IsAnchored p) c.portals

-- The phase that an event gives is not the placeholders' own. A session's phase does not matter.
abbrev pub IsKnown : Event → Type 0
IsKnown (portal ev) = is ev.phase "Unknown" ≡ false
IsKnown (environment ev) = is ev.phase "Unknown" ≡ false
IsKnown (session ev) = Unit

abbrev pub AllKnown : List Event → Type 0
AllKnown [] = Unit
AllKnown (ev ∷ evs) = IsKnown ev × AllKnown evs

pub recalculate_each-HasSession :
    (d : Dict WorkshopEnvironment)
    → Entries (λ _ e. HasSession e) d
    → Entries (λ _ e. HasSession e) (recalculate_each d)
unfolding recalculate_each Environments.recalculate_capacity
recalculate_each-HasSession [] h = tt
recalculate_each-HasSession ((j, e) ∷ d) h = (h.0, recalculate_each-HasSession d h.1)

pub recalculate_each-is_empty :
    (d : Dict WorkshopEnvironment) → is_empty (values (recalculate_each d)) ≡ is_empty (values d)
unfolding recalculate_each values
recalculate_each-is_empty [] = refl
recalculate_each-is_empty ((j, e) ∷ d) = refl

pub recalculate-HasSessions :
    (p : TrainingPortal) → HasSessions p → HasSessions (Portals.recalculate_capacity p)
unfolding Portals.recalculate_capacity
recalculate-HasSessions p h = recalculate_each-HasSession p.environments h

pub recalculate-IsAnchored :
    (p : TrainingPortal) → IsAnchored p → IsAnchored (Portals.recalculate_capacity p)
unfolding Portals.recalculate_capacity
recalculate-IsAnchored p h = record {
  inhabited = λ u. rw (recalculate_each-is_empty p.environments) (h.inhabited u);
  environments = recalculate_each-HasSession p.environments h.environments;
}

pub remove_environment-HasSessions :
    (p : TrainingPortal) (k : String) → HasSessions p → HasSessions (Portals.remove_environment p k)
unfolding Portals.remove_environment
remove_environment-HasSessions p k h = pop-Entries (λ _ e. HasSession e) p.environments k h

pub store_environment-IsAnchored :
    (p : TrainingPortal) (k : String) (e : WorkshopEnvironment)
    → HasSession e
    → HasSessions p
    → IsAnchored (store_environment p k e)
unfolding store_environment
store_environment-IsAnchored p k e s h = record {
  inhabited = λ _. put-ne-nil p.environments k e;
  environments = put-Entries (λ _ e. HasSession e) p.environments k e s h;
}

pub store_portal-Anchored :
    (c : ClusterConfig) (k : String) (p : TrainingPortal)
    → IsAnchored p
    → Anchored c
    → Anchored (store_portal c k p)
unfolding store_portal
store_portal-Anchored c k p s h = put-Entries (λ _ p. IsAnchored p) c.portals k p s h

pub remove_portal-Anchored :
    (c : ClusterConfig) (k : String) → Anchored c → Anchored (Clusters.remove_portal c k)
unfolding Clusters.remove_portal
remove_portal-Anchored c k h = pop-Entries (λ _ p. IsAnchored p) c.portals k h

pub discard-Anchored :
    (c : ClusterConfig) (k : String) (p : TrainingPortal)
    → HasSessions p
    → Anchored c
    → Anchored (discard_if_unknown c k p)
unfolding discard_if_unknown Portals.get_environments
discard-Anchored c k p s h =
    elim (Bool-cases (is p.phase "Unknown" && is_empty (values p.environments))) [
      | inl t ↦ rw t (remove_portal-Anchored c k h)
      | inr f ↦ rw f (
          store_portal-Anchored c k p (record { inhabited = λ u. ground arith; environments = s })
            h)
    ]

pub found :
    (c : ClusterConfig) (k : String) (p : TrainingPortal)
    → Anchored c
    → Clusters.get_portal c k ≡ some p
    → HasSessions p
unfolding Clusters.get_portal
found c k p h e = (get-Entries (λ _ p. IsAnchored p) c.portals k p h e).environments

pub found-HasSessions :
    (c : ClusterConfig) (k : String) (uid : Option String)
    → Anchored c
    → HasSessions (portal_or_unknown k uid (Clusters.get_portal c k))
unfolding Clusters.get_portal portal_or_unknown unknown_portal
found-HasSessions c k uid h = go (get c.portals k) refl
  where
    go : (o : Option TrainingPortal) → get c.portals k ≡ o → HasSessions (portal_or_unknown k uid o)
    go none e = tt
    go (some p) e = (get-Entries (λ _ p. IsAnchored p) c.portals k p h e).environments
