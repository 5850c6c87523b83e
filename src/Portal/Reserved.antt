-- ===== src/Portal/Reserved.antt =====
-- The reserved sessions of manager/sessions.py of the training portal: how sessions are made ahead of
-- the users. Each function runs under the global lock and in one transaction. The deployments that
-- it schedules run after it, and the OAuth application of a session is left out.
pub mod Maximum
pub mod Capacity
use educates_training_platfo.Prelude.{
  ℕ, zero, suc, ◌+◌, ◌-◌, min, String, not, ◌&&◌, none, List, [], ◌∷◌, ◌++◌, ◌==◌, leb, ltb,
  if◌then◌else◌, str_eq, length, keep,
}
use educates_training_platfo.Glob.{codes}
use educates_training_platfo.Decimal.{decimal}
use educates_training_platfo.Portal.Models.{
  SessionState, Environment, Session, TrainingPortal, is_running, active_sessions_count,
  ready_sessions_count, active_sessions_count_in, all_sessions_count_in,
}

-- f"s{tally:03}"
abbrev pad : List ℕ → List ℕ
pad ds = if ltb (length ds) 2 then b'0' ∷ b'0' ∷ ds else if ltb (length ds) 3 then b'0' ∷ ds else ds

unfoldable pub session_name_of : String → ℕ → List ℕ
session_name_of environment_name tally = codes environment_name ++ codes "-s" ++ pad (decimal tally)

-- `environment.save()`
unfoldable pub save_environment : Environment → List Environment → List Environment
save_environment e [] = []
save_environment e (f ∷ fs) = if str_eq f.name e.name then e ∷ fs else f ∷ save_environment e fs

unfoldable pub new_session : ℕ → Environment → Session
new_session now e = record {
  name = session_name_of e.name e.tally;
  environment = e.name;
  state = SessionState.starting;
  owner = none;
  created = now;
  started = none;
  expires = none;
  token = none;
  params = [];
  index_url = none;
  analytics_url = none;
}

-- The environment object, with its tally raised, goes on being used.
unfoldable pub setup_workshop_session :
    ℕ → Environment → TrainingPortal → Environment × TrainingPortal
setup_workshop_session now e p =
    let e' = record e { tally = e.tally + 1 } in
    (
      e',
      record p {
        environments = save_environment e' p.environments;
        sessions = p.sessions ++ new_session now e' ∷ [];
      },
    )

unfoldable pub create_new_session : ℕ → Environment → TrainingPortal → TrainingPortal
create_new_session now e p = (setup_workshop_session now e p).1

unfoldable pub replace_reserved_session : ℕ → Environment → TrainingPortal → TrainingPortal
replace_reserved_session now e p =
    if e.reserved == 0
    then p
    else if leb e.reserved (ready_sessions_count e p)
    then p
    else if leb e.capacity (active_sessions_count_in e p)
    then p
    else if not (p.sessions_maximum == 0) && leb p.sessions_maximum (active_sessions_count p)
    then p
    else create_new_session now e p

-- `for _ in range(n)`
unfoldable pub setup_many : ℕ → ℕ → Environment → TrainingPortal → TrainingPortal
setup_many now zero e p = p
setup_many now (suc n) e p = let (e', p') = setup_workshop_session now e p in setup_many now n e' p'

-- How many reserved sessions an environment lacks, or 0 where none are made yet.
unfoldable pub spare_reserved : Environment → TrainingPortal → ℕ
spare_reserved e p =
    if e.reserved == 0
    then 0
    else if e.initial == 0 && all_sessions_count_in e p == 0
    then 0
    else e.reserved - ready_sessions_count e p

unfoldable pub spare_in : Environment → TrainingPortal → ℕ
spare_in e p = min (spare_reserved e p) (e.capacity - active_sessions_count_in e p)

unfoldable pub running_environments : List Environment → List Environment
running_environments = keep is_running

-- Without a maximum for the portal.
unfoldable pub initiate_unlimited : ℕ → List Environment → TrainingPortal → TrainingPortal
initiate_unlimited now [] p = p
initiate_unlimited now (e ∷ es) p = initiate_unlimited now es (setup_many now (spare_in e p) e p)

-- With `spare` sessions left for the whole portal.
unfoldable pub initiate_limited : ℕ → ℕ → List Environment → TrainingPortal → TrainingPortal
initiate_limited now spare [] p = p
initiate_limited now spare (e ∷ es) p =
    let n = min (spare_in e p) spare in
    let p' = setup_many now n e p in
    let rest = initiate_limited now (spare - n) es p' in if (spare - n) == 0 then p' else rest

unfoldable pub initiate_reserved_sessions : ℕ → TrainingPortal → TrainingPortal
initiate_reserved_sessions now p =
    let es = running_environments p.environments in
    if p.sessions_maximum == 0
    then initiate_unlimited now es p
    else if leb p.sessions_maximum (active_sessions_count p)
    then p
    else initiate_limited now (p.sessions_maximum - active_sessions_count p) es p
