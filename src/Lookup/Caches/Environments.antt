-- ===== src/Lookup/Caches/Environments.antt =====
-- lookup-service/service/caches/environments.py
use educates_training_platfo.Prelude.{ℕ, ◌+◌, String, Option, List, [], ◌∷◌, is, if◌then◌else◌}
use educates_training_platfo.Dict.{Dict, get, put, pop, values}
use educates_training_platfo.Lookup.Caches.Sessions.{Label, WorkshopSession}

pub record WorkshopEnvironment : Type 0 where
  pub name : String
  pub uid : Option String
  pub generation : ℕ
  pub workshop : Option String
  pub title : Option String
  pub description : Option String
  pub labels : List Label
  pub capacity : ℕ
  pub reserved : ℕ
  pub allocated : ℕ
  pub available : ℕ
  pub phase : Option String
  pub sessions : Dict WorkshopSession

unfoldable pub get_sessions : WorkshopEnvironment → List WorkshopSession
get_sessions e = values e.sessions

unfoldable pub get_session : WorkshopEnvironment → String → Option WorkshopSession
get_session e session_name = get e.sessions session_name

unfoldable pub add_session : WorkshopEnvironment → WorkshopSession → WorkshopEnvironment
add_session e s = record e { sessions = put e.sessions s.name s }

unfoldable pub remove_session : WorkshopEnvironment → String → WorkshopEnvironment
remove_session e session_name = record e { sessions = pop e.sessions session_name }

-- The `for` loop of `recalculate_capacity` over its two counters.
unfoldable pub tally : List WorkshopSession → ℕ → ℕ → ℕ × ℕ
tally [] allocated available = (allocated, available)
tally (s ∷ ss) allocated available =
    let is_allocated = is s.phase "Allocated" in
    let is_available = is s.phase "Available" in
    tally ss (if is_allocated then allocated + 1 else allocated)
      (if is_allocated then available else if is_available then available + 1 else available)

unfoldable pub recalculate_capacity : WorkshopEnvironment → WorkshopEnvironment
recalculate_capacity e =
    let (allocated, available) = tally (values e.sessions) 0 0 in
    record e { allocated = allocated; available = available }
