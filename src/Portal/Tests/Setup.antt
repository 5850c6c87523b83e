-- ===== src/Portal/Tests/Setup.antt =====
-- A portal whose resource states one workshop, in place of another one.
use educates_training_platfo.Prelude.{
  ℕ, ◌≤◌, ◌⊎◌, String, true, ◌≡◌, refl, Option, none, some, List, [], ◌∷◌, All, is_some,
}
use educates_training_platfo.Prelude.Int.{pos, negsuc}
use educates_training_platfo.Portal.Models.{EnvironmentState, Environment, TrainingPortal}
use educates_training_platfo.Portal.Durations.{
  duration_as_timedelta, convert_duration_to_seconds, int_of, int_from, multiplier,
}
use educates_training_platfo.Portal.Environments.{
  Workshop, settings_of, labels_of, workshop_name_of, dictionary, replacement_of,
}
use educates_training_platfo.Portal.Configuration.{
  Options, WorkshopEntry, PortalSpec, defaults_of, workshop_configuration, workshops_configuration,
  process_training_portal, run_tasks, unstated, workshop_env,
}
use educates_training_platfo.Portal.Configuration.Bounds.{workshop_configuration_bounds}
use educates_training_platfo.Portal.Configuration.Listed.{IsListed, keys_of}
use educates_training_platfo.Portal.Configuration.Tasks.{IsServed}
use educates_training_platfo.Portal.Configuration.Converged.{process_training_portal-converges}
use educates_training_platfo.Portal.Updates.{
  Definition, environments_for_resource, replace_each, workshop_event,
}

abbrev no_options : Options
no_options = record {
  capacity = none;
  reserved = none;
  initial = none;
  expires = none;
  overtime = none;
  deadline = none;
  orphaned = none;
  refresh = none;
}

abbrev hour : List ℕ
hour = b'1' ∷ b'h' ∷ []

abbrev lab : WorkshopEntry
lab = record {
  name = "lab-git";
  alias = some "git";
  labels = none;
  options = record no_options {
    reserved = some (pos 5);
    initial = some (negsuc 2);
    expires = some hour;
  };
  env = ("MODE", some "fast") ∷ [];
}

abbrev spec : PortalSpec
spec = record {
  maximum = some 4;
  registered = some 2;
  anonymous = none;
  options = record no_options { capacity = some (pos 8) };
  workshop_defaults = record no_options { capacity = some (pos 3) };
  env = ("MODE", some "slow") ∷ ("SITE", none) ∷ [];
  workshops = lab ∷ [];
}

abbrev configured : Workshop
configured = record {
  name = "lab-git";
  alias = some "git";
  labels = dictionary [];
  capacity = 3;
  initial = 0;
  reserved = 3;
  expires = hour;
  overtime = b'0' ∷ [];
  deadline = hour;
  orphaned = b'0' ∷ [];
  refresh = b'0' ∷ [];
}

-- The newer place for the defaults goes first, and what the workshop states is cut to its capacity.
lab_in_bounds : workshop_configuration (defaults_of spec) lab ≡ configured
unfolding workshop_configuration defaults_of
lab_in_bounds = refl

lab_env : workshop_env (defaults_of spec) lab ≡ ("MODE", some "fast") ∷ ("SITE", some "") ∷ []
unfolding workshop_env unstated defaults_of
lab_env = refl

abbrev old_lab : Environment
old_lab = record {
  name = "lab-w01";
  workshop_name = "java";
  resource_name = "lab-java";
  labels = [];
  created_at = 0;
  position = 1;
  refresh = 0;
  workshop_params = [];
  state = EnvironmentState.running;
  capacity = 2;
  initial = 1;
  reserved = 1;
  expires = 0;
  overtime = 0;
  deadline = 0;
  orphaned = 0;
  tally = 0;
}

abbrev old_portal : TrainingPortal
old_portal = record {
  sessions_maximum = 0;
  sessions_registered = 0;
  sessions_anonymous = 0;
  environments = old_lab ∷ [];
  sessions = [];
}

workshop_configuration_bounds_example :
    let w = workshop_configuration (defaults_of spec) lab in
    (w.reserved ≤ w.capacity)
    × (w.initial ≤ w.capacity)
    × ((w.initial ≡ 0) ⊎ (w.reserved ≤ w.initial))
workshop_configuration_bounds_example = workshop_configuration_bounds (defaults_of spec) lab

abbrev next : ℕ → ℕ × String
next position = (7, "lab-w02")

settings_lab : is_some (settings_of configured) ≡ true
unfolding settings_of duration_as_timedelta convert_duration_to_seconds int_of int_from multiplier
    labels_of
settings_lab = refl

process_training_portal-converges_example :
    (tasks : List (Workshop × ℕ)) × (p1 : TrainingPortal) × (p2 : TrainingPortal)
    × (process_training_portal 5 true spec old_portal ≡ some (tasks, p1))
    × (run_tasks tasks next p1 ≡ some p2)
    × All
        (IsListed (keys_of (workshops_configuration (defaults_of spec) spec.workshops)))
        p2.environments
    × All
        (λ (w : Workshop). IsServed p2 (workshop_name_of w))
        (workshops_configuration (defaults_of spec) spec.workshops)
unfolding workshops_configuration workshop_configuration defaults_of settings_of
    duration_as_timedelta convert_duration_to_seconds int_of int_from multiplier labels_of
process_training_portal-converges_example =
    process_training_portal-converges 5 spec next old_portal (refl, tt) ((_, refl), tt)

-- An environment that is not linked to its workshop yet keeps those behind it from being replaced.
abbrev unlinked : Environment → Option (String × ℕ)
unlinked e = none

abbrev java : Definition
java = record { name = "lab-java"; uid = "u-1"; generation = 2 }

not_replaced : workshop_event 9 unlinked java true old_portal ≡ ([], old_portal)
unfolding workshop_event environments_for_resource replace_each
not_replaced = refl

replaced :
    (workshop_event 9 (λ _. some ("u-1", 1)) java true old_portal).0
    ≡ (replacement_of old_lab, 1) ∷ []
unfolding workshop_event environments_for_resource replace_each
replaced = refl
