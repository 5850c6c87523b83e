-- ===== src/Portal/Updates.antt =====
-- workshop_event of manager/portal.py of the training portal: what follows a change of the definition of a
-- workshop.
use educates_training_platfo.Prelude.{
  ℕ, String, Bool, not, ◌&&◌, Option, none, some, List, [], ◌∷◌, ◌==◌, if◌then◌else◌, str_eq, keep,
}
use educates_training_platfo.Portal.Models.{Environment, TrainingPortal}
use educates_training_platfo.Portal.Environments.{
  Workshop, is_counted, stop_environment, replacement_of,
}

unfoldable pub environments_for_resource : String → TrainingPortal → List Environment
environments_for_resource name p =
    keep (λ e. str_eq e.resource_name name && is_counted e) p.environments

-- The changed definition of a workshop.
pub record Definition : Type 0 where
  pub name : String
  pub uid : String
  pub generation : ℕ

-- `linked` is the identity and the generation of the row `environment.workshop`, if it is there.
-- The loop ends, by `return`, at an environment that has none, or that has the definition.
module _ (now : ℕ) (linked : Environment → Option (String × ℕ)) (d : Definition) where
  unfoldable pub replace_each :
      List Environment → TrainingPortal → List (Workshop × ℕ) × TrainingPortal
  replace_each [] p = ([], p)
  replace_each (e ∷ es) p =
      let (scheduled, p') = replace_each es (stop_environment now e p) in
      elim (linked e) [
        | none ↦ ([], p)
        | some (uid, generation) ↦
            if str_eq uid d.uid && generation == d.generation
            then ([], p)
            else ((replacement_of e, e.position) ∷ scheduled, p')
      ]

  unfoldable pub workshop_event : Bool → TrainingPortal → List (Workshop × ℕ) × TrainingPortal
  workshop_event update_workshop p =
      if not update_workshop then ([], p) else replace_each (environments_for_resource d.name p) p
