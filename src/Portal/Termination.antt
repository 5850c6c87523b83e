-- ===== src/Portal/Termination.antt =====
-- manager/sessions.py of the training portal: how reserved sessions are given up. The function runs under
-- the global lock and in one transaction. The reports to the analytics service are left out.
pub mod Stops
pub mod Room
use educates_training_platfo.Prelude.{
  ℕ, zero, suc, ◌-◌, Bool, List, [], ◌∷◌, ◌==◌, ltb, if◌then◌else◌,
}
use educates_training_platfo.Portal.Models.{
  Environment, Session, TrainingPortal, is_ready, ready_sessions_count, all_sessions_count_in,
  active_sessions_count, mark_as_stopping,
}
use educates_training_platfo.Portal.Reserved.{running_environments}
use educates_training_platfo.Portal.Sessions.{stop_oldest}

-- The first `n` rows that a query gives.
unfoldable pub stop_first : ℕ → (Session → Bool) → ℕ → List Session → List Session
stop_first now q zero ss = ss
stop_first now q (suc n) [] = []
stop_first now q (suc n) (s ∷ ss) =
    let stopped = mark_as_stopping now s ∷ stop_first now q n ss in
    let kept = s ∷ stop_first now q (suc n) ss in if q s then stopped else kept

unfoldable pub trim : ℕ → Environment → TrainingPortal → TrainingPortal
trim now e p = record p {
  sessions = stop_first now (is_ready e) (ready_sessions_count e p - e.reserved) p.sessions;
}

unfoldable pub trim_environment : ℕ → Environment → TrainingPortal → TrainingPortal
trim_environment now e p =
    if ltb e.reserved e.initial
    then if ltb (all_sessions_count_in e p) (e.initial - e.reserved)
      then p
      else if ltb e.reserved (ready_sessions_count e p)
      then p
      else trim now e p
    else trim now e p

unfoldable pub trim_environments : ℕ → List Environment → TrainingPortal → TrainingPortal
trim_environments now [] p = p
trim_environments now (e ∷ es) p = trim_environments now es (trim_environment now e p)

-- The `n` oldest reserved sessions of the portal.
unfoldable pub stop_oldest_of : ℕ → ℕ → TrainingPortal → TrainingPortal
stop_oldest_of now zero p = p
stop_oldest_of now (suc n) p = stop_oldest_of now n (stop_oldest now p)

unfoldable pub trim_portal : ℕ → TrainingPortal → TrainingPortal
trim_portal now p =
    if p.sessions_maximum == 0
    then p
    else stop_oldest_of now (active_sessions_count p - p.sessions_maximum) p

unfoldable pub terminate_reserved_sessions : ℕ → TrainingPortal → TrainingPortal
terminate_reserved_sessions now p =
    trim_portal now (trim_environments now (running_environments p.environments) p)
