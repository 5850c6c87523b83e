-- ===== src/Lookup/Caches/Capacity.antt =====
-- The capacity counters of environments.py and portals.py, against counts that are taken afresh.
use mathlib.Core.Option
use educates_training_platfo.Prelude.{
  ℕ, ◌+◌, String, ◌≡◌, refl, List, [], ◌∷◌, arith, eq_iff, count, sum_by, some, none, is, Option,
  true, false, Bool-cases, inl, inr,
}
use educates_training_platfo.Dict.{Dict, get, values, Entries, Unique}
use educates_training_platfo.Lookup.Caches.Sessions.{WorkshopSession}
use educates_training_platfo.Lookup.Caches.Environments
use educates_training_platfo.Lookup.Caches.Environments.{WorkshopEnvironment, tally}
use educates_training_platfo.Lookup.Caches.Portals
use educates_training_platfo.Lookup.Caches.Portals.{TrainingPortal, recalculate_each}

-- How many sessions stand in a phase.
abbrev pub in_phase : String → List WorkshopSession → ℕ
in_phase phase = count (λ s. is s.phase phase)

-- The two counters agree with the sessions.
pub record IsCounted (e : WorkshopEnvironment) : Type 0 where
  pub allocated : e.allocated ≡ in_phase "Allocated" (values e.sessions)
  pub available : e.available ≡ in_phase "Available" (values e.sessions)

-- The portal's counter is the sum over its environments, and theirs agree with their sessions.
pub record IsConsistent (p : TrainingPortal) : Type 0 where
  pub total : p.allocated ≡ sum_by (λ e. e.allocated) (values p.environments)
  pub counted : Entries (λ _ e. IsCounted e) p.environments

phases_differ : (o : Option String) → is o "Allocated" ≡ true → is o "Available" ≡ false
phases_differ none h = refl
phases_differ (some t) h =
    ground (arith, eq_iff t "Allocated", eq_iff t "Available", eq_iff "Allocated" "Available")

tally-eq :
    (ss : List WorkshopSession) (a v : ℕ)
    → tally ss a v ≡ (a + in_phase "Allocated" ss, v + in_phase "Available" ss)
unfolding tally
tally-eq [] a v = ground arith
tally-eq (s ∷ ss) a v = elim (Bool-cases (is s.phase "Allocated")) [
  | inl e ↦ rw (e, phases_differ s.phase e) (ground (arith, tally-eq ss (a + 1) v))
  | inr e ↦ rw e (elim (Bool-cases (is s.phase "Available")) [
    | inl f ↦ rw f (ground (arith, tally-eq ss a (v + 1)))
    | inr f ↦ rw f (ground (arith, tally-eq ss a v))
  ])
]

pub recalculate-IsCounted :
    (e : WorkshopEnvironment) → IsCounted (Environments.recalculate_capacity e)
unfolding Environments.recalculate_capacity
recalculate-IsCounted e = ground (arith, tally-eq (values e.sessions) 0 0)

recalculate_each-Entries :
    (d : Dict WorkshopEnvironment) → Entries (λ _ e. IsCounted e) (recalculate_each d)
unfolding recalculate_each
recalculate_each-Entries [] = tt
recalculate_each-Entries ((j, e) ∷ d) = (recalculate-IsCounted e, recalculate_each-Entries d)

-- Whatever the counters were, recalculating a portal makes all of them agree.
pub recalculate-IsConsistent : (p : TrainingPortal) → IsConsistent (Portals.recalculate_capacity p)
unfolding Portals.recalculate_capacity
recalculate-IsConsistent p = record {
  total = refl;
  counted = recalculate_each-Entries p.environments;
}

-- Recalculating leaves the keys, and each environment but for its counters.
pub get-recalculate_each :
    (d : Dict WorkshopEnvironment) (k : String)
    → get (recalculate_each d) k ≡ Option.map Environments.recalculate_capacity (get d k)
unfolding recalculate_each get
get-recalculate_each [] k = refl
get-recalculate_each ((j, e) ∷ d) k = ground (arith, get-recalculate_each d k)

pub recalculate_each-Unique :
    (d : Dict WorkshopEnvironment) → Unique d → Unique (recalculate_each d)
unfolding recalculate_each
recalculate_each-Unique [] u = tt
recalculate_each-Unique ((j, e) ∷ d) u =
    (rw (get-recalculate_each d j, u.0), recalculate_each-Unique d u.1)
