-- ===== src/Portal/Configuration/Bounds.antt =====
-- The numbers of a workshop, after workshop_configuration of manager/portal.py.
use educates_training_platfo.Prelude.{
  ℕ, ◌≤◌, ◌≡◌, ◌⊎◌, ◌==◌, Bool-cases, inl, inr, refl, default, arith,
}
use educates_training_platfo.Prelude.Int.{ℤ, pos_part}
use educates_training_platfo.Portal.Configuration.{
  Defaults, WorkshopEntry, clamp, initial_of, reserved_option, initial_option,
  workshop_configuration,
}

clamp_bound : (n : ℤ) (capacity : ℕ) → clamp n capacity ≤ capacity
unfolding clamp
clamp_bound n capacity = ground arith

initial_of_bounds :
    (initial reserved capacity : ℕ)
    → initial ≤ capacity
    → reserved ≤ capacity
    → (initial_of initial reserved ≤ capacity)
      × ((initial_of initial reserved ≡ 0) ⊎ (reserved ≤ initial_of initial reserved))
unfolding initial_of
initial_of_bounds initial reserved capacity h k = elim (Bool-cases (initial == 0)) [
  | inl z ↦ rw z (omega arith, inl refl)
  | inr z ↦ rw z (ground arith, inr (ground arith))
]

-- Whatever the resource and the portal state, negative numbers included, the reserved sessions of a
-- workshop and its initial ones are within its capacity, and there are no initial ones or at
-- least as many as are reserved.
pub workshop_configuration_bounds :
    (d : Defaults) (entry : WorkshopEntry)
    → let w = workshop_configuration d entry in
      (w.reserved ≤ w.capacity)
      × (w.initial ≤ w.capacity)
      × ((w.initial ≡ 0) ⊎ (w.reserved ≤ w.initial))
unfolding workshop_configuration
workshop_configuration_bounds d entry =
    let o = entry.options in
    let capacity = pos_part (default d.capacity o.capacity) in
    let reserved = clamp_bound (reserved_option d o) capacity in
    let initial = clamp_bound (initial_option d o) capacity in
    let (a, b) =
      initial_of_bounds (clamp (initial_option d o) capacity) (clamp (reserved_option d o) capacity)
        capacity initial reserved in
    (reserved, a, b)
