-- ===== src/Manager/Tests/Requests.antt =====
-- An environment that lists two namespaces, and a request from each.
use educates_training_platfo.Prelude.{
  String, Bool, true, false, ◌≡◌, refl, none, some, List, [], ◌∷◌,
}
use educates_training_platfo.Dict.{get, put}
use educates_training_platfo.Manager.Variables.{occurs_in, behind}
use educates_training_platfo.Manager.Requests.{
  RequestPolicy, RequestEnvironment, RequestResource, SessionDetails, waiting, serving, given_up,
  Sessions, created_instance, session_details, try_names, policy_refuses, refused_by,
  permitted_namespaces, workshop_request_create, workshop_request_delete,
}
use educates_training_platfo.Manager.Requests.Deleted.{workshop_request_delete-create}
use educates_training_platfo.Manager.Requests.Refused.{
  Passes, workshop_request_create-IsPermitted, other_namespace_waits,
}

abbrev policy : RequestPolicy
policy = record { enabled = true; namespaces = "team-a" ∷ "team-b" ∷ []; token = some "xyzzy" }

abbrev environment : RequestEnvironment
environment = record { name = "lab"; policy = some policy; username = none; password = some "pw" }

abbrev request_a : RequestResource
request_a = record { name = "one"; uid = "r-1"; namespace = "team-a"; token = some "xyzzy" }

abbrev request_b : RequestResource
request_b = record request_a { namespace = "team-b" }

abbrev taken : Sessions
taken = ("lab-bcdfg", record { uid = "s-1"; request = none }) ∷ []

abbrev draws : List String
draws = "bcdfg" ∷ "hjklm" ∷ []

abbrev no_refusal : String → Bool
no_refusal name = false

abbrev new_uid : String → String
new_uid name = "s-2"

abbrev details : SessionDetails
details = record { name = "lab-hjklm"; uid = "s-2"; username = "educates"; password = "pw" }

-- The first name that is drawn is taken, and the next one is used.
served :
    workshop_request_create no_refusal new_uid "random" (some environment) request_a draws taken
    ≡ (serving details, put taken "lab-hjklm" (created_instance new_uid request_a "lab-hjklm"))
unfolding workshop_request_create refused_by policy_refuses permitted_namespaces occurs_in behind
    try_names get session_details
served = refl

-- Every name that is drawn is taken.
exhausted :
    workshop_request_create no_refusal new_uid "random"
      (some environment)
      request_a
      ("bcdfg" ∷ [])
      taken
    ≡ (given_up, taken)
unfolding workshop_request_create refused_by policy_refuses permitted_namespaces occurs_in behind
    try_names get
exhausted = refl

workshop_request_delete-create_example :
    workshop_request_delete request_a
      (some "lab-hjklm")
      (put taken "lab-hjklm" (created_instance new_uid request_a "lab-hjklm"))
    ≡ taken
workshop_request_delete-create_example =
    workshop_request_delete-create no_refusal new_uid "random" (some environment) request_a draws
      taken (put taken "lab-hjklm" (created_instance new_uid request_a "lab-hjklm")) details served

workshop_request_create-IsPermitted_example :
    (known : RequestEnvironment) × (some environment ≡ some known) × Passes request_a known.policy
workshop_request_create-IsPermitted_example =
    workshop_request_create-IsPermitted no_refusal new_uid "random" (some environment) request_a
      draws taken (put taken "lab-hjklm" (created_instance new_uid request_a "lab-hjklm")) details
      served

other_namespace_waits_example :
    workshop_request_create no_refusal new_uid "random" (some environment) request_b draws taken
    ≡ (waiting, taken)
unfolding occurs_in behind
other_namespace_waits_example =
    other_namespace_waits no_refusal new_uid "random" environment policy "team-a" ("team-b" ∷ [])
      request_b draws taken refl refl refl refl refl
