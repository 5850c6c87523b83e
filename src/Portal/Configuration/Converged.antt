-- ===== src/Portal/Configuration/Converged.antt =====
-- The environments of a portal once process_training_portal of manager/portal.py, and the tasks that it
-- schedules, are done.
use mathlib.Core.List.{Memᴰ}
use mathlib.Core.List.Memᴰ
use educates_training_platfo.Prelude.{
  ℕ, ◌+◌, String, true, ◌≡◌, some, List, [], ◌∷◌, contains, All, All-intro, contains-mem, arith,
}
use educates_training_platfo.Portal.Models.{TrainingPortal}
use educates_training_platfo.Portal.Reserved.Capacity.{Distinct}
use educates_training_platfo.Portal.Environments.{
  Workshop, workshop_name_of, workshop_key, shutdown_workshop_environments,
  update_workshop_environments,
}
use educates_training_platfo.Portal.Configuration.{
  PortalSpec, defaults_of, workshops_configuration, portal_settings, initiate_from,
  initiate_workshop_environments, process_training_portal, run_tasks,
}
use educates_training_platfo.Portal.Configuration.Listed.{
  IsListed, HasSettings, update_from-Returns, keys_of, shutdown-IsListed, update_from-IsListed,
}
use educates_training_platfo.Portal.Configuration.Tasks.{
  run_tasks-Returns, IsServed, run_tasks-IsServed, run_tasks-IsListed,
}

All-initiate :
    (P : Workshop → Type 0) (position : ℕ) (ws : List Workshop)
    → All P ws
    → All (λ (t : Workshop × ℕ). P t.0) (initiate_from position ws)
unfolding initiate_from
All-initiate P position [] p = tt
All-initiate P position (w ∷ ws) p = (p.0, All-initiate P (position + 1) ws p.1)

All-initiated :
    (P : Workshop → Type 0) (position : ℕ) (ws : List Workshop)
    → All (λ (t : Workshop × ℕ). P t.0) (initiate_from position ws)
    → All P ws
unfolding initiate_from
All-initiated P position [] p = tt
All-initiated P position (w ∷ ws) p = (p.0, All-initiated P (position + 1) ws p.1)

own_key :
    (w : Workshop) (ws : List Workshop)
    → Memᴰ w ws
    → contains (workshop_key (workshop_name_of w) w.name) (keys_of ws) ≡ true
own_key w ws m =
    contains-mem _ (keys_of ws)
      (Memᴰ.map (λ (v : Workshop). workshop_key (workshop_name_of v) v.name) m)

-- Where no two environments share a name, the portal's row is the resource's, and the durations and
-- labels of the resource's workshops can be read: the resource is processed, and each task that was scheduled runs, to its end. Then every
-- environment that is starting or running is one of a workshop of the resource, and every workshop
-- of the resource has one.
pub process_training_portal-converges :
    (now : ℕ) (s : PortalSpec) (next : ℕ → ℕ × String) (p : TrainingPortal)
    → Distinct p.environments
    → All HasSettings (workshops_configuration (defaults_of s) s.workshops)
    → (tasks : List (Workshop × ℕ)) × (p1 : TrainingPortal) × (p2 : TrainingPortal)
      × (process_training_portal now true s p ≡ some (tasks, p1))
      × (run_tasks tasks next p1 ≡ some p2)
      × All
          (IsListed (keys_of (workshops_configuration (defaults_of s) s.workshops)))
          p2.environments
      × All
          (λ (w : Workshop). IsServed p2 (workshop_name_of w))
          (workshops_configuration (defaults_of s) s.workshops)
unfolding process_training_portal initiate_workshop_environments shutdown_workshop_environments
    update_workshop_environments portal_settings
process_training_portal-converges now s next p d h =
    let ws = workshops_configuration (defaults_of s) s.workshops in
    let keys = keys_of ws in
    let tasks = initiate_from 1 ws in
    let stopped = shutdown_workshop_environments now ws (portal_settings s p) in
    let (p1, k) = update_from-Returns 1 ws stopped h in
    let (p2, run) = run_tasks-Returns next tasks p1 (All-initiate HasSettings 1 ws h) in
    (
      tasks,
      p1,
      p2,
      ground (arith, k),
      run,
      run_tasks-IsListed keys next tasks p1 p2 run
          (All-initiate
            (λ (w : Workshop). contains (workshop_key (workshop_name_of w) w.name) keys ≡ true) 1 ws
            (All-intro _ ws (λ w. own_key w ws)))
          (update_from-IsListed keys 1 ws stopped p1
            (shutdown-IsListed keys now (portal_settings s p) d) k),
      All-initiated (λ (w : Workshop). IsServed p2 (workshop_name_of w)) 1 ws
          (run_tasks-IsServed keys next tasks p1 p2 run),
    )
