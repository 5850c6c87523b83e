-- ===== src/Portal/Configuration/Tasks.antt =====
-- The tasks that process_training_portal schedules, and the environments that they make.
use educates_training_platfo.Prelude.{
  ℕ, String, Bool, true, ◌&&◌, ◌≡◌, refl, inl, inr, some, List, [], ◌∷◌, is_some, contains, str_eq,
  str_eq_refl, All, Bool-cases, Option-cases, arith, ltb, subst,
}
use educates_training_platfo.Portal.Models.{Environment, TrainingPortal}
use educates_training_platfo.Portal.Environments.{
  Workshop, settings_of, workshop_name_of, workshop_key, is_counted, find_current,
  environment_for_workshop, place_environment, starting_environment, process_workshop_environment,
}
use educates_training_platfo.Portal.Configuration.{run_tasks}
use educates_training_platfo.Portal.Configuration.Listed.{IsListed, All-place, HasSettings}

-- A starting or running environment of the name.
abbrev pub IsServed : TrainingPortal → String → Type 0
IsServed p name = is_some (environment_for_workshop name p) ≡ true

placed_found :
    (q : Environment → Bool) (e : Environment) (es : List Environment)
    → (is_counted e && q e) ≡ true
    → is_some (find_current q (place_environment e es)) ≡ true
unfolding place_environment find_current
placed_found q e [] h = rw h refl
placed_found q e (f ∷ fs) h = elim (Bool-cases (ltb e.position f.position)) [
  | inl t ↦ rw t (rw h refl)
  | inr n ↦ rw n (elim (Bool-cases (is_counted f && q f)) [
    | inl y ↦ rw y refl
    | inr z ↦ rw z (placed_found q e fs h)
  ])
]

place_found :
    (q : Environment → Bool) (e : Environment) (es : List Environment)
    → is_some (find_current q es) ≡ true
    → is_some (find_current q (place_environment e es)) ≡ true
unfolding place_environment find_current
place_found q e [] h = absurd (ground (arith, h))
place_found q e (f ∷ fs) h = elim (Bool-cases (ltb e.position f.position)) [
  | inl t ↦ rw t (elim (Bool-cases (is_counted e && q e)) [ inl y ↦ rw y refl | inr z ↦ rw z h ])
  | inr n ↦ rw n (elim (Bool-cases (is_counted f && q f)) [
    | inl y ↦ rw y refl
    | inr z ↦ rw z (place_found q e fs (rw z at h))
  ])
]

-- What one task does: an environment of the workshop is there, no other one goes away, and a new
-- one is of the workshop.
record Done (keys : List String) (w : Workshop) (p p' : TrainingPortal) : Type 0 where
  served : IsServed p' (workshop_name_of w)
  keeps : (name : String) → IsServed p name → IsServed p' name
  listed :
      contains (workshop_key (workshop_name_of w) w.name) keys ≡ true
      → All (IsListed keys) p.environments
      → All (IsListed keys) p'.environments

process-Done :
    (keys : List String) (now : ℕ) (name : String) (w : Workshop) (position : ℕ)
    (p p' : TrainingPortal)
    → process_workshop_environment now name w position p ≡ some p'
    → Done keys w p p'
unfolding process_workshop_environment environment_for_workshop starting_environment
process-Done keys now name w position p p' e =
    elim (Option-cases (environment_for_workshop (workshop_name_of w) p)) [
      | inr (f, k) ↦
          let same : p ≡ p' = ground (arith, e, k) in
          rw (← same) (record { served = rw k; keeps = λ n h. h; listed = λ c h. h })
      | inl k ↦ elim (Option-cases (settings_of w)) [
        | inl g ↦ absurd (ground (arith, e, k, g))
        | inr (x, g) ↦
            let fresh = starting_environment now name w position x in
            let same : record p { environments = place_environment fresh p.environments } ≡ p' =
              ground (arith, e, k, g) in
            subst (Done keys w p) same (record {
              served =
                  placed_found (λ f. str_eq f.workshop_name (workshop_name_of w)) fresh
                    p.environments (str_eq_refl (workshop_name_of w));
              keeps = λ n h. place_found (λ f. str_eq f.workshop_name n) fresh p.environments h;
              listed = λ c h. All-place (IsListed keys) fresh p.environments (λ _. c) h;
            })
      ]
    ]

abbrev Task : Type 0
Task = Workshop × ℕ

module _ (keys : List String) (next : ℕ → ℕ × String) where
  run_tasks-keeps :
      (ts : List Task) (p p' : TrainingPortal)
      → run_tasks ts next p ≡ some p'
      → (name : String) → IsServed p name
      → IsServed p' name
  unfolding run_tasks
  run_tasks-keeps [] p p' e name h =
      let same : p ≡ p' = cc in subst (λ (d : TrainingPortal). IsServed d name) same h
  run_tasks-keeps ((w, position) ∷ ts) p p' e name h =
      let (now, fresh) = next position in
      elim (Option-cases (process_workshop_environment now fresh w position p)) [
        | inl k ↦ absurd (ground (arith, e, k))
        | inr (q, k) ↦
            run_tasks-keeps ts q p' (ground (arith, e, k)) name
              ((process-Done keys now fresh w position p q k).keeps name h)
      ]

  pub run_tasks-IsServed :
      (ts : List Task) (p p' : TrainingPortal)
      → run_tasks ts next p ≡ some p'
      → All (λ (t : Task). IsServed p' (workshop_name_of t.0)) ts
  unfolding run_tasks
  run_tasks-IsServed [] p p' e = tt
  run_tasks-IsServed ((w, position) ∷ ts) p p' e =
      let (now, fresh) = next position in
      elim (Option-cases (process_workshop_environment now fresh w position p)) [
        | inl k ↦ absurd (ground (arith, e, k))
        | inr (q, k) ↦
            let rest : run_tasks ts next q ≡ some p' = ground (arith, e, k) in
            (
              run_tasks-keeps ts q p' rest (workshop_name_of w)
                  (process-Done keys now fresh w position p q k).served,
              run_tasks-IsServed ts q p' rest,
            )
      ]

  pub run_tasks-IsListed :
      (ts : List Task) (p p' : TrainingPortal)
      → run_tasks ts next p ≡ some p'
      → All (λ (t : Task). contains (workshop_key (workshop_name_of t.0) t.0.name) keys ≡ true) ts
      → All (IsListed keys) p.environments
      → All (IsListed keys) p'.environments
  unfolding run_tasks
  run_tasks-IsListed [] p p' e c h =
      let same : p ≡ p' = cc in
      subst (λ (d : TrainingPortal). All (IsListed keys) d.environments) same h
  run_tasks-IsListed ((w, position) ∷ ts) p p' e c h =
      let (now, fresh) = next position in
      elim (Option-cases (process_workshop_environment now fresh w position p)) [
        | inl k ↦ absurd (ground (arith, e, k))
        | inr (q, k) ↦
            run_tasks-IsListed ts q p' (ground (arith, e, k)) c.1
              ((process-Done keys now fresh w position p q k).listed c.0 h)
      ]

process-Returns :
    (now : ℕ) (name : String) (w : Workshop) (position : ℕ) (p : TrainingPortal)
    → HasSettings w
    → (p' : TrainingPortal) × (process_workshop_environment now name w position p ≡ some p')
unfolding process_workshop_environment
process-Returns now name w position p h =
    elim (Option-cases (environment_for_workshop (workshop_name_of w) p)) [
      | inr (f, k) ↦ (p, ground (arith, k))
      | inl k ↦
          let (x, g) = h in
          (
            record p {
              environments =
                  place_environment (starting_environment now name w position x) p.environments;
            },
            ground (arith, k, g),
          )
    ]

pub run_tasks-Returns :
    (next : ℕ → ℕ × String) (ts : List Task) (p : TrainingPortal)
    → All (λ (t : Task). HasSettings t.0) ts
    → (p' : TrainingPortal) × (run_tasks ts next p ≡ some p')
unfolding run_tasks
run_tasks-Returns next [] p h = (p, refl)
run_tasks-Returns next ((w, position) ∷ ts) p h =
    let (now, fresh) = next position in
    let (q, k) = process-Returns now fresh w position p h.0 in
    let (r, e) = run_tasks-Returns next ts q h.1 in (r, ground (arith, k, e))
