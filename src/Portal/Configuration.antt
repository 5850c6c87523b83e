-- ===== src/Portal/Configuration.antt =====
-- manager/portal.py of the training portal: how its resource becomes the settings of the portal and of its
-- workshops, and what is scheduled for them. Numbers of a workshop may be negative there. The
-- registry, the robot's account and the fields that no modelled code reads are left out.
pub mod Bounds
pub mod Listed
pub mod Tasks
pub mod Converged
use educates_training_platfo.Prelude.{
  ℕ, ◌+◌, min, String, Bool, true, false, not, ◌&&◌, Option, none, some, List, [], ◌∷◌, ◌++◌, ◌==◌,
  ltb, if◌then◌else◌, default, is_some, any, str_eq, map,
}
use educates_training_platfo.Prelude.Int.{ℤ, pos, negsuc, pos_part}
use educates_training_platfo.Portal.Models.{Environment, TrainingPortal, same_name}
use educates_training_platfo.Portal.Environments.{
  Labels, items, dictionary, Workshop, settings_of, shutdown_workshop_environments,
  update_workshop_environments, process_workshop_environment,
}

-- A value that a workshop of the resource, or the portal for all of them, may state.
pub record Options : Type 0 where
  pub capacity : Option ℤ
  pub reserved : Option ℤ
  pub initial : Option ℤ
  pub expires : Option (List ℕ)
  pub overtime : Option (List ℕ)
  pub deadline : Option (List ℕ)
  pub orphaned : Option (List ℕ)
  pub refresh : Option (List ℕ)

-- A variable of the environment: its name and its value.
abbrev pub Variable : Type 0
Variable = String × Option String

pub record WorkshopEntry : Type 0 where
  pub name : String
  pub alias : Option String
  pub labels : Option Labels
  pub options : Options
  pub env : List Variable

pub record PortalSpec : Type 0 where
  pub maximum : Option ℕ
  pub registered : Option ℕ
  pub anonymous : Option ℕ
  pub options : Options
  pub workshop_defaults : Options
  pub env : List Variable
  pub workshops : List WorkshopEntry

-- `portal.default_…`
pub record Defaults : Type 0 where
  pub capacity : ℤ
  pub reserved : Option ℤ
  pub initial : Option ℤ
  pub expires : List ℕ
  pub overtime : List ℕ
  pub deadline : List ℕ
  pub orphaned : List ℕ
  pub refresh : List ℕ
  pub env : List Variable

abbrev pub no_time : List ℕ
no_time = b'0' ∷ []

-- `spec.get(new, spec.get(old, fallback))`
abbrev either {ℓ} : {A : Type ℓ} → Option A → Option A → Option A
either none old = old
either (some new) old = some new

-- The overtime and the deadline have no older name.
unfoldable pub defaults_of : PortalSpec → Defaults
defaults_of s =
    let new = s.workshop_defaults in
    let old = s.options in
    record {
      capacity = default (pos (default 0 s.maximum)) (either new.capacity old.capacity);
      reserved = either new.reserved old.reserved;
      initial = either new.initial old.initial;
      expires = default no_time (either new.expires old.expires);
      overtime = default no_time new.overtime;
      deadline = default no_time new.deadline;
      orphaned = default no_time (either new.orphaned old.orphaned);
      refresh = default no_time (either new.refresh old.refresh);
      env = map (λ (v : Variable). (v.0, some (default "" v.1))) s.env;
    }

-- `max(0, min(n, capacity))`, where the capacity is not negative.
unfoldable pub clamp : ℤ → ℕ → ℕ
clamp n capacity = min (pos_part n) capacity

-- An initial number of 0 leaves the reserved sessions until the first session is asked for.
unfoldable pub initial_of : ℕ → ℕ → ℕ
initial_of initial reserved =
    if initial == 0 then 0 else if ltb initial reserved then reserved else initial

unfoldable pub reserved_option : Defaults → Options → ℤ
reserved_option d o = default (default (pos 1) d.reserved) o.reserved

unfoldable pub initial_option : Defaults → Options → ℤ
initial_option d o = default (default (reserved_option d o) d.initial) o.initial

unfoldable pub deadline_of : List ℕ → List ℕ → List ℕ
deadline_of expires deadline = if same_name deadline no_time then expires else deadline

unfoldable pub workshop_configuration : Defaults → WorkshopEntry → Workshop
unfolding clamp initial_of reserved_option initial_option deadline_of
workshop_configuration d w =
    let o = w.options in
    let capacity = pos_part (default d.capacity o.capacity) in
    let reserved = clamp (reserved_option d o) capacity in
    let expires = default d.expires o.expires in
    record {
      name = w.name;
      alias = w.alias;
      labels = default (dictionary []) w.labels;
      capacity = capacity;
      initial = initial_of (clamp (initial_option d o) capacity) reserved;
      reserved = reserved;
      expires = expires;
      overtime = default d.overtime o.overtime;
      deadline = deadline_of expires (default d.deadline o.deadline);
      orphaned = default d.orphaned o.orphaned;
      refresh = default d.refresh o.refresh;
    }

-- The variables of a workshop, and the portal's that it does not state itself.
unfoldable pub unstated : List Variable → List Variable → List Variable
unstated env [] = []
unstated env (v ∷ vs) =
    let rest = unstated env vs in
    if any (λ (e : Variable). str_eq e.0 v.0) env then rest else (v.0, some (default "" v.1)) ∷ rest

unfoldable pub workshop_env : Defaults → WorkshopEntry → List Variable
workshop_env d w = w.env ++ unstated w.env d.env

unfoldable pub workshops_configuration : Defaults → List WorkshopEntry → List Workshop
workshops_configuration d entries = map (workshop_configuration d) entries

unfoldable pub portal_settings : PortalSpec → TrainingPortal → TrainingPortal
portal_settings s p =
    let registered = default 0 s.registered in
    record p {
      sessions_maximum = default 0 s.maximum;
      sessions_registered = registered;
      sessions_anonymous = default registered s.anonymous;
    }

-- `for position, workshop in enumerate(workshops, 1)`
unfoldable pub initiate_from : ℕ → List Workshop → List (Workshop × ℕ)
initiate_from position [] = []
initiate_from position (w ∷ ws) = (w, position) ∷ initiate_from (position + 1) ws

unfoldable pub initiate_workshop_environments : List Workshop → List (Workshop × ℕ)
initiate_workshop_environments workshops = initiate_from 1 workshops

-- What is scheduled, with the portal. `same_uid` says that the portal's row is new or is that of
-- the resource. `none` is an exception, which undoes the transaction.
unfoldable pub process_training_portal :
    ℕ → Bool → PortalSpec → TrainingPortal → Option (List (Workshop × ℕ) × TrainingPortal)
process_training_portal now same_uid s p =
    let workshops = workshops_configuration (defaults_of s) s.workshops in
    let stopped = shutdown_workshop_environments now workshops (portal_settings s p) in
    if not same_uid then some ([], p) else elim (update_workshop_environments workshops stopped) [
      | none ↦ none
      | some p' ↦ some (initiate_workshop_environments workshops, p')
    ]

-- The tasks that were scheduled, one after the other, each with its time and the name that the next
-- identifier of the database gives. `none` is a run in which a task raises.
unfoldable pub run_tasks :
    List (Workshop × ℕ) → (ℕ → ℕ × String) → TrainingPortal → Option TrainingPortal
run_tasks [] next p = some p
run_tasks ((w, position) ∷ tasks) next p =
    elim (process_workshop_environment (next position).0 (next position).1 w position p) [
      | none ↦ none
      | some p' ↦ run_tasks tasks next p'
    ]
