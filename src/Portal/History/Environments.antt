-- ===== src/Portal/History/Environments.antt =====
-- The maximum number of sessions of a portal, under the changes of its environments.
use educates_training_platfo.Prelude.{
  ℕ, ◌+◌, ◌≤◌, String, Bool, true, false, not, ◌&&◌, str_eq, ◌≡◌, refl, inl, inr, Option, none,
  some, List, [], ◌∷◌, ◌==◌, leb, if◌then◌else◌, contains, keep, arith, Bool-cases, Option-cases,
  ◌∙◌, subst,
}
use educates_training_platfo.Portal.Models.{
  EnvironmentState, WorkshopParam, Environment, Session, TrainingPortal, is_ready,
  active_sessions_count, active_sessions_count_in,
}
use educates_training_platfo.Portal.Reserved.{setup_many, save_environment, running_environments}
use educates_training_platfo.Portal.Reserved.Maximum.{setup_many-active, setup_many-maximum}
use educates_training_platfo.Portal.Sessions.Counts.{Within, kinds-count}
use educates_training_platfo.Portal.Sessions.Room.{ready_available}
use educates_training_platfo.Portal.Termination.Stops.{Stops}
use educates_training_platfo.Portal.Environments.{
  Workshop, settings_of, environment_for_workshop, workshop_name_of, workshop_key, is_counted,
  is_new, is_leaving, is_due, stop_each, stop_environment, stop_unlisted,
  shutdown_workshop_environments, refresh_each, refresh_workshop_environments, finish_each,
  delete_workshop_environments, update_from, update_workshop_environments,
  process_workshop_environment, required, activate_waiting, activate_workshop_environment,
  workshop_environment, place_environment, without_environment, starting_environment,
  changed_environment,
}
use educates_training_platfo.Portal.Updates.{
  Definition, environments_for_resource, replace_each, workshop_event,
}
use educates_training_platfo.Portal.History.Lighter.{Lighter-held, held-Within, Stops-Lighter}

stop_each-Stops :
    (now : ℕ) (e : Environment) (ss : List Session) → Stops now ss (stop_each now e ss)
unfolding stop_each
stop_each-Stops now e [] = tt
stop_each-Stops now e (s ∷ ss) = elim (Bool-cases (is_ready e s)) [
  | inl y ↦ rw y (inr (ready_available e s y, refl), stop_each-Stops now e ss)
  | inr n ↦ rw n (inl refl, stop_each-Stops now e ss)
]

stop_environment-Within :
    (now : ℕ) (e : Environment) (p : TrainingPortal) → Within p → Within (stop_environment now e p)
unfolding stop_environment
stop_environment-Within now e p = held-Within p (stop_environment now e p) refl (
    Lighter-held p.sessions (stop_each now e p.sessions) (
      Stops-Lighter now p.sessions (stop_each now e p.sessions) (stop_each-Stops now e p.sessions)))

if-Within : (b : Bool) (x y : TrainingPortal) → Within x → Within y → Within (if b then x else y)
if-Within true x y h k = h
if-Within false x y h k = k

stop_unlisted-Within :
    (now : ℕ) (keys : List String) (es : List Environment) (p : TrainingPortal)
    → Within p
    → Within (stop_unlisted now keys es p)
unfolding stop_unlisted
stop_unlisted-Within now keys [] p h = h
stop_unlisted-Within now keys (e ∷ es) p h = stop_unlisted-Within now keys es _ (
    if-Within (contains (workshop_key e.workshop_name e.resource_name) keys) p _ h
      (stop_environment-Within now e p h))

pub shutdown_workshop_environments-Within :
    (now : ℕ) (workshops : List Workshop) (p : TrainingPortal)
    → Within p
    → Within (shutdown_workshop_environments now workshops p)
unfolding shutdown_workshop_environments
shutdown_workshop_environments-Within now workshops p =
    stop_unlisted-Within now _ (keep is_counted p.environments) p

refresh_each-Within :
    (now : ℕ) (es : List Environment) (p : TrainingPortal)
    → Within p
    → Within (refresh_each now es p).1
unfolding refresh_each
refresh_each-Within now [] p h = h
refresh_each-Within now (e ∷ es) p h = elim (Bool-cases (is_due now e)) [
  | inl y ↦
      rw y
        (refresh_each-Within now es (stop_environment now e p) (stop_environment-Within now e p h))
  | inr n ↦ rw n (refresh_each-Within now es p h)
]

pub refresh_workshop_environments-Within :
    (now : ℕ) (p : TrainingPortal) → Within p → Within (refresh_workshop_environments now p).1
unfolding refresh_workshop_environments
refresh_workshop_environments-Within now p =
    refresh_each-Within now (running_environments p.environments) p

replace_each-Within :
    (now : ℕ) (linked : Environment → Option (String × ℕ)) (d : Definition) (es : List Environment)
    (p : TrainingPortal)
    → Within p
    → Within (replace_each now linked d es p).1
unfolding replace_each
replace_each-Within now linked d [] p h = h
replace_each-Within now linked d (e ∷ es) p h = elim (Option-cases (linked e)) [
  | inl k ↦ rw (k, replace_each) h
  | inr ((uid, generation), k) ↦
      elim (Bool-cases (str_eq uid d.uid && generation == d.generation)) [
        | inl y ↦ rw (k, replace_each) (rw y h)
        | inr n ↦
            rw (k, replace_each)
              (rw n (
                replace_each-Within now linked d es (stop_environment now e p)
                  (stop_environment-Within now e p h)))
      ]
]

pub workshop_event-Within :
    (now : ℕ) (linked : Environment → Option (String × ℕ)) (d : Definition) (b : Bool)
    (p : TrainingPortal)
    → Within p
    → Within (workshop_event now linked d b p).1
unfolding workshop_event
workshop_event-Within now linked d false p h = h
workshop_event-Within now linked d true p h =
    replace_each-Within now linked d (environments_for_resource d.name p) p h

finish_each-Within :
    (es : List Environment) (p : TrainingPortal) → Within p → Within (finish_each es p)
unfolding finish_each
finish_each-Within [] p h = h
finish_each-Within (e ∷ es) p h =
    finish_each-Within es _ (if-Within (active_sessions_count_in e p == 0) _ p h h)

pub delete_workshop_environments-Within :
    (p : TrainingPortal) → Within p → Within (delete_workshop_environments p)
unfolding delete_workshop_environments
delete_workshop_environments-Within p = finish_each-Within (keep is_leaving p.environments) p

-- Where the environments change only.
others-Within :
    (p p' : TrainingPortal) (es : List Environment)
    → some (record p { environments = es }) ≡ some p'
    → Within p
    → Within p'
others-Within p p' es e h =
    let same : record p { environments = es } ≡ p' = cc in
    subst (λ (d : TrainingPortal). Within d) same h

pub process_workshop_environment-Within :
    (now : ℕ) (name : String) (w : Workshop) (position : ℕ) (p : TrainingPortal)
    → Within p
    → (p' : TrainingPortal) → process_workshop_environment now name w position p ≡ some p'
    → Within p'
unfolding process_workshop_environment
process_workshop_environment-Within now name w position p h p' e =
    elim (Option-cases (environment_for_workshop (workshop_name_of w) p)) [
      | inr (f, k) ↦
          let same : p ≡ p' = ground (arith, e, k) in
          subst (λ (d : TrainingPortal). Within d) same h
      | inl k ↦ elim (Option-cases (settings_of w)) [
        | inl g ↦ absurd (ground (arith, e, k, g))
        | inr (x, g) ↦
            others-Within p p'
              (place_environment (starting_environment now name w position x) p.environments)
              (ground (arith, e, k, g)) h
      ]
    ]

update_from-Within :
    (position : ℕ) (ws : List Workshop) (p : TrainingPortal)
    → Within p
    → (p' : TrainingPortal) → update_from position ws p ≡ some p'
    → Within p'
unfolding update_from
update_from-Within position [] p h p' e =
    let same : p ≡ p' = cc in subst (λ (d : TrainingPortal). Within d) same h
update_from-Within position (w ∷ ws) p h p' e =
    elim (Option-cases (environment_for_workshop (workshop_name_of w) p)) [
      | inl k ↦ update_from-Within (position + 1) ws p h p' (ground (arith, e, k))
      | inr (f, k) ↦ elim (Option-cases (settings_of w)) [
        | inl g ↦ absurd (ground (arith, e, k, g))
        | inr (x, g) ↦
            update_from-Within (position + 1) ws
              (record p {
                environments =
                    place_environment (changed_environment w position x f)
                      (without_environment f.name p.environments);
              })
              h p' (ground (arith, e, k, g))
      ]
    ]

pub update_workshop_environments-Within :
    (workshops : List Workshop) (p : TrainingPortal)
    → Within p
    → (p' : TrainingPortal) → update_workshop_environments workshops p ≡ some p'
    → Within p'
unfolding update_workshop_environments
update_workshop_environments-Within workshops p = update_from-Within 1 workshops p

required-full :
    (e : Environment) (p : TrainingPortal)
    → (p.sessions_maximum == 0) ≡ false
    → leb p.sessions_maximum (active_sessions_count p) ≡ true
    → required e p ≡ 0
unfolding required
required-full e p z full = ground (arith, z, full)

required-fits :
    (e : Environment) (p : TrainingPortal)
    → (p.sessions_maximum == 0) ≡ false
    → leb p.sessions_maximum (active_sessions_count p) ≡ false
    → active_sessions_count p + required e p ≤ p.sessions_maximum
unfolding required
required-fits e p z room = ground (arith, z, room)

-- The initial sessions of an environment.
initial-Within :
    (now : ℕ) (e : Environment) (p : TrainingPortal)
    → Within p
    → Within (setup_many now (required e p) e p)
unfolding active_sessions_count setup_many
initial-Within now e p h =
    let n = required e p in
    let p' = setup_many now n e p in
    let same = setup_many-maximum now n e p in
    elim (Bool-cases (p.sessions_maximum == 0)) [
      | inl z ↦ inl (same ∙ ground (arith, z))
      | inr z ↦ elim (Bool-cases (leb p.sessions_maximum (active_sessions_count p))) [
        | inl full ↦ rw (required-full e p z full) h
        | inr room ↦ inr (
            omega (
              arith,
              same,
              required-fits e p z room,
              setup_many-active now n e p,
              kinds-count p'.sessions,
            ))
      ]
    ]

activate_waiting-Within :
    (now : ℕ) (params : List WorkshopParam) (same_uid : Bool) (p : TrainingPortal)
    (found : Option Environment)
    → Within p
    → Within (activate_waiting now params same_uid p found)
unfolding activate_waiting required active_sessions_count
activate_waiting-Within now params same_uid p none h = h
activate_waiting-Within now params same_uid p (some e) h =
    let e' = record e { state = EnvironmentState.running; workshop_params = params } in
    let q = record p { environments = save_environment e' p.environments } in
    let started = setup_many now (required e' p) e' q in
    if-Within (not same_uid) p (if not (is_new e) then p else started) h
      (if-Within (not (is_new e)) p started h (initial-Within now e' q h))

pub activate_workshop_environment-Within :
    (now : ℕ) (name : String) (same_uid : Bool) (params : List WorkshopParam) (p : TrainingPortal)
    → Within p
    → Within (activate_workshop_environment now name same_uid params p)
unfolding activate_workshop_environment
activate_workshop_environment-Within now name same_uid params p =
    activate_waiting-Within now params same_uid p (workshop_environment name p)
