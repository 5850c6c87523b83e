-- ===== src/Portal/Environments/Refreshed.antt =====
-- What becomes of the settings of an environment that is refreshed, by replace_workshop_environment and
-- process_workshop_environment of manager/environments.py.
use educates_training_platfo.Prelude.{
  ℕ, ◌≤◌, String, true, false, ◌≡◌, refl, ◌∙◌, ap, none, some, [], ◌∷◌, ltb, truthy, is_empty,
  arith,
}
use educates_training_platfo.Dict.{Dict}
use educates_training_platfo.Portal.Models.{EnvironmentState, Environment, TrainingPortal}
use educates_training_platfo.Portal.Durations.Roundtrip.{IsWhole, duration-whole}
use educates_training_platfo.Portal.Environments.{
  dictionary, Workshop, labels_of, workshop_name_of, environment_for_workshop, Settings,
  settings_of, starting_environment, place_environment, process_workshop_environment,
  replacement_of,
}

-- What the refresh needs of an environment to make its like.
pub record IsRegular (e : Environment) : Type 0 where
  pub expires_whole : IsWhole e.expires
  pub overtime_whole : IsWhole e.overtime
  pub deadline_whole : IsWhole e.deadline
  pub orphaned_whole : IsWhole e.orphaned
  pub refresh_whole : IsWhole e.refresh
  pub named : truthy e.workshop_name ≡ true
  pub in_order : e.expires ≤ e.deadline

abbrev kept_settings : Environment → Dict String → Settings
kept_settings e labels = record {
  labels = labels;
  expires = e.expires;
  overtime = e.overtime;
  deadline = e.deadline;
  orphaned = e.orphaned;
  refresh = e.refresh;
}

settings-replacement :
    (e : Environment)
    → IsRegular e
    → e.labels ≡ []
    → settings_of (replacement_of e) ≡ some (kept_settings e [])
unfolding settings_of replacement_of labels_of
settings-replacement e r h = ground (
  arith,
  h,
  duration-whole e.expires r.expires_whole,
  duration-whole e.overtime r.overtime_whole,
  duration-whole e.deadline r.deadline_whole,
  duration-whole e.orphaned r.orphaned_whole,
  duration-whole e.refresh r.refresh_whole,
)

-- The environment that comes in the place of another one.
abbrev pub renewed : ℕ → String → ℕ → Environment → Environment
renewed now name position e = record e {
  name = name;
  created_at = now;
  position = position;
  state = EnvironmentState.starting;
  workshop_params = [];
  tally = 0;
}

starting_environment-renewed :
    (now : ℕ) (name : String) (position : ℕ) (e : Environment)
    → IsRegular e
    → e.labels ≡ []
    → starting_environment now name (replacement_of e) position (kept_settings e [])
      ≡ renewed now name position e
unfolding starting_environment replacement_of workshop_name_of
starting_environment-renewed now name position e r h =
    let order : ltb e.deadline e.expires ≡ false = ground (arith, r.in_order) in
    ground (arith, h, order, r.named)

process-none :
    (now : ℕ) (name : String) (w : Workshop) (position : ℕ) (p : TrainingPortal) (x : Settings)
    → environment_for_workshop (workshop_name_of w) p ≡ none
    → settings_of w ≡ some x
    → process_workshop_environment now name w position p
      ≡ some (record p {
        environments =
            place_environment (starting_environment now name w position x) p.environments;
      })
unfolding process_workshop_environment
process-none now name w position p x h k = ground (arith, h, k)

-- An environment without labels, with durations of whole seconds and a deadline not before its time of
-- expiry, is replaced by one with the same settings, where no other one is current.
pub refresh_keeps_settings :
    (now : ℕ) (name : String) (e : Environment) (p : TrainingPortal)
    → IsRegular e
    → e.labels ≡ []
    → environment_for_workshop (workshop_name_of (replacement_of e)) p ≡ none
    → process_workshop_environment now name (replacement_of e) e.position p
      ≡ some (record p {
        environments = place_environment (renewed now name e.position e) p.environments;
      })
refresh_keeps_settings now name e p r h k =
    process-none now name (replacement_of e) e.position p (kept_settings e []) k
      (settings-replacement e r h)
    ∙ ap
        (λ (f : Environment). some (record p { environments = place_environment f p.environments }))
        (starting_environment-renewed now name e.position e r h)

labels-lost : (d : Dict String) → is_empty d ≡ false → labels_of (dictionary d) ≡ none
unfolding labels_of
labels-lost [] h = absurd (ground (arith, h))
labels-lost (x ∷ xs) h = refl

settings-lost :
    (e : Environment) → is_empty e.labels ≡ false → settings_of (replacement_of e) ≡ none
unfolding settings_of replacement_of
settings-lost e h = let l = labels-lost e.labels h in ground (arith, l)

-- An environment with labels is never replaced when it is refreshed: making its like raises.
pub refresh_loses_labelled :
    (now : ℕ) (name : String) (e : Environment) (p : TrainingPortal)
    → is_empty e.labels ≡ false
    → environment_for_workshop (workshop_name_of (replacement_of e)) p ≡ none
    → process_workshop_environment now name (replacement_of e) e.position p ≡ none
unfolding process_workshop_environment
refresh_loses_labelled now name e p h k = ground (arith, k, settings-lost e h)
