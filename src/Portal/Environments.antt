-- ===== src/Portal/Environments.antt =====
-- manager/environments.py of the training portal: how workshop environments come and go. The calls of the
-- Kubernetes API, the reports to the analytics service and the fields that only say how an
-- environment is deployed are left out. A name is the one that the database's next identifier gives.
pub mod Refreshed
use Prim.Native.String.{◌++◌ as str_append}
use educates_training_platfo.Prelude.{
  ℕ, ◌+◌, ◌-◌, ◌*◌, ◌/◌, min, String, Bool, true, false, not, ◌&&◌, Option, none, some, List, [],
  ◌∷◌, ◌++◌, ◌==◌, ltb, if◌then◌else◌, given, default, contains, str_eq, keep, map,
}
use educates_training_platfo.Dict.{Dict, put}
use educates_training_platfo.Decimal.{decimal}
use educates_training_platfo.Portal.Models.{
  EnvironmentState, WorkshopParam, Environment, Session, TrainingPortal, second, is_ready,
  active_sessions_count, active_sessions_count_in, mark_as_stopping,
}
use educates_training_platfo.Portal.Reserved.{save_environment, setup_many, running_environments}
use educates_training_platfo.Portal.Durations.{duration_as_timedelta}

-- `labels` of a workshop: the list of the training portal's resource, or the dictionary of an
-- environment that is replaced.
pub data Labels : Type 0 where
  items : List (String × Option String) → Labels
  dictionary : Dict String → Labels

-- A workshop of a training portal. The durations are what `str` gives for them.
pub record Workshop : Type 0 where
  pub name : String
  pub alias : Option String
  pub labels : Labels
  pub capacity : ℕ
  pub initial : ℕ
  pub reserved : ℕ
  pub expires : List ℕ
  pub overtime : List ℕ
  pub deadline : List ℕ
  pub orphaned : List ℕ
  pub refresh : List ℕ

unfoldable pub merged_labels : Dict String → List (String × Option String) → Dict String
merged_labels d [] = d
merged_labels d ((name, value) ∷ rest) = merged_labels (put d name (default "" value)) rest

-- `for item in workshop["labels"]: labels[item["name"]] = …`, where the items of a dictionary are
-- texts, which have no `name`: that raises.
unfoldable pub labels_of : Labels → Option (Dict String)
labels_of (items xs) = some (merged_labels [] xs)
labels_of (dictionary []) = some []
labels_of (dictionary (x ∷ xs)) = none

unfoldable pub workshop_name_of : Workshop → String
workshop_name_of w = if given w.alias then default "" w.alias else w.name

abbrev pub workshop_key : String → String → String
workshop_key workshop_name resource_name = str_append workshop_name (str_append ":" resource_name)

-- Starting or running.
abbrev pub is_counted : Environment → Bool
is_counted e = elim e.state [
  | EnvironmentState.starting ↦ true
  | EnvironmentState.running ↦ true
  | _ ↦ false
]

abbrev pub is_new : Environment → Bool
is_new e = elim e.state [ EnvironmentState.starting ↦ true | _ ↦ false ]

abbrev pub is_leaving : Environment → Bool
is_leaving e = elim e.state [ EnvironmentState.stopping ↦ true | _ ↦ false ]

unfoldable pub find_current : (Environment → Bool) → List Environment → Option Environment
find_current q [] = none
find_current q (e ∷ es) = if is_counted e && q e then some e else find_current q es

-- `.get()` of the source raises where there are two; here the first is taken. The source makes no
-- second one, under its lock.
unfoldable pub environment_for_workshop : String → TrainingPortal → Option Environment
environment_for_workshop name p = find_current (λ e. str_eq e.workshop_name name) p.environments

unfoldable pub workshop_environment : String → TrainingPortal → Option Environment
workshop_environment name p = find_current (λ e. str_eq e.name name) p.environments

-- `environment.mark_as_stopping()` and `environment.mark_as_stopped()`
unfoldable pub leaving : Environment → Environment
leaving e = record e { state = EnvironmentState.stopping; capacity = 0; reserved = 0 }

unfoldable pub left : Environment → Environment
left e = record e { state = EnvironmentState.stopped; capacity = 0; reserved = 0 }

unfoldable pub stop_each : ℕ → Environment → List Session → List Session
stop_each now e [] = []
stop_each now e (s ∷ ss) = (if is_ready e s then mark_as_stopping now s else s) ∷ stop_each now e ss

unfoldable pub stop_environment : ℕ → Environment → TrainingPortal → TrainingPortal
stop_environment now e p = record p {
  environments = save_environment (leaving e) p.environments;
  sessions = stop_each now e p.sessions;
}

unfoldable pub stop_unlisted : ℕ → List String → List Environment → TrainingPortal → TrainingPortal
stop_unlisted now keys [] p = p
stop_unlisted now keys (e ∷ es) p = stop_unlisted now keys es (
    if contains (workshop_key e.workshop_name e.resource_name) keys
    then p
    else stop_environment now e p)

unfoldable pub shutdown_workshop_environments : ℕ → List Workshop → TrainingPortal → TrainingPortal
shutdown_workshop_environments now workshops p =
    stop_unlisted now (map (λ (w : Workshop). workshop_key (workshop_name_of w) w.name) workshops)
      (keep is_counted p.environments) p

-- An environment keeps its place among those of its position.
unfoldable pub place_environment : Environment → List Environment → List Environment
place_environment e [] = e ∷ []
place_environment e (f ∷ fs) =
    if ltb e.position f.position then e ∷ f ∷ fs else f ∷ place_environment e fs

unfoldable pub without_environment : String → List Environment → List Environment
without_environment name es = keep (λ e. not (str_eq e.name name)) es

-- What the durations and labels of a workshop are, if none of them raises.
pub record Settings : Type 0 where
  pub labels : Dict String
  pub expires : ℕ
  pub overtime : ℕ
  pub deadline : ℕ
  pub orphaned : ℕ
  pub refresh : ℕ

infixl 5 ◌>>=◌
abbrev ◌>>=◌ {ℓ κ} : {A : Type ℓ} {B : Type κ} → Option A → (A → Option B) → Option B
none >>= f = none
some a >>= f = f a

-- `overdue` is left out: nothing of what is modelled reads it. For a text that is no duration the source
-- would raise there too; the pattern of the resource's schema rules that out.
unfoldable pub settings_of : Workshop → Option Settings
settings_of w = do
  expires ← duration_as_timedelta w.expires
  overtime ← duration_as_timedelta w.overtime
  deadline ← duration_as_timedelta w.deadline
  orphaned ← duration_as_timedelta w.orphaned
  refresh ← duration_as_timedelta w.refresh
  labels ← labels_of w.labels
  some (record {
    labels = labels;
    expires = expires;
    overtime = overtime;
    deadline = deadline;
    orphaned = orphaned;
    refresh = refresh;
  })

-- A deadline before the time of expiry is moved there.
unfoldable pub starting_environment : ℕ → String → Workshop → ℕ → Settings → Environment
starting_environment now name w position x = record {
  name = name;
  workshop_name = workshop_name_of w;
  resource_name = w.name;
  labels = x.labels;
  created_at = now;
  position = position;
  refresh = x.refresh;
  workshop_params = [];
  state = EnvironmentState.starting;
  capacity = w.capacity;
  initial = w.initial;
  reserved = w.reserved;
  expires = x.expires;
  overtime = x.overtime;
  deadline = if ltb x.deadline x.expires then x.expires else x.deadline;
  orphaned = x.orphaned;
  tally = 0;
}

-- `none` is an exception, which undoes the transaction.
unfoldable pub process_workshop_environment :
    ℕ → String → Workshop → ℕ → TrainingPortal → Option TrainingPortal
process_workshop_environment now name w position p =
    elim (environment_for_workshop (workshop_name_of w) p) [
      | some e ↦ some p
      | none ↦ settings_of w >>= λ x. some (record p {
        environments =
            place_environment (starting_environment now name w position x) p.environments;
      })
    ]

-- The deadline is not compared with the time of expiry here.
unfoldable pub changed_environment : Workshop → ℕ → Settings → Environment → Environment
changed_environment w position x e = record e {
  labels = x.labels;
  capacity = w.capacity;
  reserved = w.reserved;
  expires = x.expires;
  overtime = x.overtime;
  deadline = x.deadline;
  orphaned = x.orphaned;
  refresh = x.refresh;
  initial = if is_new e then w.initial else e.initial;
  position = position;
}

unfoldable pub update_from : ℕ → List Workshop → TrainingPortal → Option TrainingPortal
update_from position [] p = some p
update_from position (w ∷ ws) p = elim (environment_for_workshop (workshop_name_of w) p) [
  | none ↦ update_from (position + 1) ws p
  | some e ↦ settings_of w >>= λ x. update_from (position + 1) ws (record p {
    environments =
        place_environment (changed_environment w position x e)
          (without_environment e.name p.environments);
  })
]

unfoldable pub update_workshop_environments : List Workshop → TrainingPortal → Option TrainingPortal
update_workshop_environments workshops p = update_from 1 workshops p

-- `int(….total_seconds())`, as `str` gives it.
abbrev seconds_text : ℕ → List ℕ
seconds_text t = decimal (t / second)

unfoldable pub replacement_of : Environment → Workshop
replacement_of e = record {
  name = e.resource_name;
  alias = some e.workshop_name;
  labels = dictionary e.labels;
  capacity = e.capacity;
  initial = e.initial;
  reserved = e.reserved;
  expires = seconds_text e.expires;
  overtime = seconds_text e.overtime;
  deadline = seconds_text e.deadline;
  orphaned = seconds_text e.orphaned;
  refresh = seconds_text e.refresh;
}

abbrev pub is_due : ℕ → Environment → Bool
is_due now e = not (e.refresh == 0) && ltb (e.created_at + e.refresh) now

-- What is scheduled: a workshop and its position, for process_workshop_environment.
unfoldable pub refresh_each :
    ℕ → List Environment → TrainingPortal → List (Workshop × ℕ) × TrainingPortal
refresh_each now [] p = ([], p)
refresh_each now (e ∷ es) p =
    let (scheduled, p') = refresh_each now es (stop_environment now e p) in
    let rest = refresh_each now es p in
    if is_due now e then ((replacement_of e, e.position) ∷ scheduled, p') else rest

unfoldable pub refresh_workshop_environments :
    ℕ → TrainingPortal → List (Workshop × ℕ) × TrainingPortal
refresh_workshop_environments now p = refresh_each now (running_environments p.environments) p

unfoldable pub finish_each : List Environment → TrainingPortal → TrainingPortal
finish_each [] p = p
finish_each (e ∷ es) p = finish_each es (
    if active_sessions_count_in e p == 0
    then record p { environments = save_environment (left e) p.environments }
    else p)

unfoldable pub delete_workshop_environments : TrainingPortal → TrainingPortal
delete_workshop_environments p = finish_each (keep is_leaving p.environments) p

-- How many sessions a new environment starts with.
unfoldable pub required : Environment → TrainingPortal → ℕ
required e p =
    min e.initial
      (if p.sessions_maximum == 0 then e.initial else p.sessions_maximum - active_sessions_count p)

unfoldable pub activate_waiting :
    ℕ → List WorkshopParam → Bool → TrainingPortal → Option Environment → TrainingPortal
activate_waiting now params same_uid p none = p
activate_waiting now params same_uid p (some e) =
    let e' = record e { state = EnvironmentState.running; workshop_params = params } in
    if not same_uid
    then p
    else if not (is_new e)
    then p
    else setup_many now (required e' p) e'
        (record p { environments = save_environment e' p.environments })

-- `params` are those of the workshop that the event's resource names.
unfoldable pub activate_workshop_environment :
    ℕ → String → Bool → List WorkshopParam → TrainingPortal → TrainingPortal
unfolding activate_waiting
activate_workshop_environment now name same_uid params p =
    activate_waiting now params same_uid p (workshop_environment name p)
