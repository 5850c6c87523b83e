-- ===== src/Manager/Allocation/Waiting.antt =====
-- What workshop_allocation_create of workshopallocation.py does where something is not there.
use Prim.Native.String.{◌++◌ as str_append}
use educates_training_platfo.Prelude.{ℕ, String, some, List, [], ◌∷◌, if◌then◌else◌, leb}
use educates_training_platfo.Manager.Allocation.State.{
  Allocation, AllocationResult, concat, pending, failed, permanent_error, temporary_error,
}

-- 45 seconds, in microseconds.
abbrev pub patience : ℕ
patience = 45_000_000

-- What an item that is missing leads to: `message` is for the status, `fault` and `wait` are raised.
unfoldable pub unavailable : ℕ → String → String → String → AllocationResult
unavailable runtime message fault wait =
    if leb patience runtime
    then record { status = some (failed message); outcome = permanent_error fault; created = [] }
    else record { status = some pending; outcome = temporary_error wait 5; created = [] }

abbrev pub session_secret : Allocation → String
session_secret a = str_append a.session_name "-session"

abbrev pub request_secret : Allocation → String
request_secret a = str_append a.session_name "-request"

abbrev pub user_secret : Allocation → String
user_secret a = str_append a.session_name "-user"

abbrev in_processing : Allocation → List String → String
in_processing a ss = concat ("In processing workshop allocation request " ∷ a.name ∷ ss)

unfoldable pub no_environment : ℕ → Allocation → AllocationResult
no_environment runtime a =
    unavailable runtime
      (concat ("Workshop environment " ∷ a.environment_name ∷ " is not available." ∷ []))
      (in_processing a
        (", the workshop environment " ∷ a.environment_name ∷ " is not available." ∷ []))
      (in_processing a
        (", no record of workshop environment " ∷ a.environment_name ∷ " currently exists." ∷ []))

unfoldable pub no_session : ℕ → Allocation → AllocationResult
no_session runtime a =
    unavailable runtime (concat ("Workshop session " ∷ a.session_name ∷ " is not available." ∷ []))
      (in_processing a (", the workshop session " ∷ a.session_name ∷ " is not available." ∷ []))
      (in_processing a
        (", no record of workshop session " ∷ a.session_name ∷ " currently exists." ∷ []))

unfoldable pub no_session_secret : ℕ → Allocation → AllocationResult
no_session_secret runtime a =
    unavailable runtime
      (concat ("Session variables secret " ∷ session_secret a ∷ " is not available." ∷ []))
      (concat (
        "Session variables secret "
        ∷ session_secret a
        ∷ " is not available for workshop allocation request "
        ∷ a.name
        ∷ "."
        ∷ []))
      (concat (
        "No record of variables secret "
        ∷ session_secret a
        ∷ " required for workshop allocation request "
        ∷ a.name
        ∷ "."
        ∷ []))

-- For the secret of the request, or else that of the user.
unfoldable pub no_request_secret : ℕ → Allocation → String → AllocationResult
no_request_secret runtime a secret =
    let message = concat ("Request variables secret " ∷ secret ∷ " is not available." ∷ []) in
    unavailable runtime message message (
      concat (
        "No record of parameters secret " ∷ secret ∷ " required for workshop allocation request "
        ∷ a.name ∷ "." ∷ []))
