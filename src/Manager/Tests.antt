-- ===== src/Manager/Tests.antt =====
-- A session that was allocated, with one request object.
mod Requests
use educates_training_platfo.Prelude.{
  String, Bool, true, ◌≡◌, refl, Option, none, some, List, [], ◌∷◌, length,
}
use educates_training_platfo.Dict.{Dict, put}
use educates_training_platfo.Manager.Variables.{
  null, behind, occurs_in, count_of, replace_from, replace_each_variable, rounds, before_close,
  encoded, substitute_text,
}
use educates_training_platfo.Manager.Allocation.{
  workshop_allocation_create, create_all, create_objects, prepared,
}
use educates_training_platfo.Manager.Allocation.State.{
  Metadata, RequestObject, EnvironmentInstance, Allocation, Indexes, pending,
}
use educates_training_platfo.Manager.Allocation.Waiting.{patience, no_environment, unavailable}
use educates_training_platfo.Manager.Allocation.Objects.{
  all_data_variables, decoded, substitute_object, substitute_metadata, labelled, put_all, finished,
  is_namespace,
}
use educates_training_platfo.Manager.Allocation.Missing.{Waits, workshop_allocation_create-Waits}
use educates_training_platfo.Manager.Allocation.Labels.{Keeps}
use educates_training_platfo.Manager.Allocation.Created.{
  IsMade, CopiesOf, variables_of, workshop_allocation_create-IsMade,
}

abbrev same_text : String → String
same_text s = s

abbrev readable : String → Option String
readable s = some s

abbrev variables : Dict String
variables = ("session_name", "lab-s001") ∷ ("host", "$(session_name).test") ∷ []

-- A value may name a variable that stands before it: that takes another round.
replaced_twice : substitute_text same_text variables "https://$(host)/" ≡ "https://lab-s001.test/"
unfolding substitute_text encoded rounds occurs_in behind replace_each_variable replace_from
    count_of
replaced_twice = refl

encoded_text : substitute_text (λ s. "abc") variables "$(base64($(session_name)))" ≡ "abc"
unfolding substitute_text encoded rounds occurs_in behind replace_each_variable replace_from
    count_of before_close
encoded_text = refl

abbrev namespace_object : RequestObject
namespace_object = record {
  api_version = some "v1";
  kind = some "Namespace";
  metadata = some (record {
    name = some "$(session_name)-extra";
    namespace = none;
    labels = none;
    annotations = none;
  });
  rest = null;
}

abbrev lab : EnvironmentInstance
lab = record { workshop_name = some "lab"; objects = some (namespace_object ∷ []) }

abbrev request : Allocation
request = record {
  name = "lab-s001";
  portal_name = "portal";
  portal_uid = "p-1";
  environment_name = "portal-w01";
  environment_uid = "e-1";
  session_name = "lab-s001";
}

abbrev known : Indexes
known = record {
  environment = λ _. some lab;
  session = λ _. true;
  session_variables = λ _ _. some (("session_name", "lab-s001") ∷ []);
  request_variables = λ _ _. some [];
}

abbrev unknown : Indexes
unknown = record known { environment = λ _. none }

abbrev adopt : Metadata → Metadata
adopt m = m

abbrev accepts : List RequestObject → RequestObject → Bool
accepts made q = true

waiting :
    (workshop_allocation_create same_text readable adopt accepts 3 unknown request).status
    ≡ some pending
unfolding workshop_allocation_create no_environment unavailable
waiting = refl

created_one :
    length (workshop_allocation_create same_text readable adopt accepts 3 known request).created ≡ 1
unfolding workshop_allocation_create create_all all_data_variables decoded create_objects prepared
    substitute_object substitute_metadata labelled finished substitute_text encoded rounds occurs_in
    behind replace_each_variable replace_from count_of put put_all is_namespace
created_one = refl

adopt-Keeps : Keeps adopt
adopt-Keeps = record {
  keeps_name = λ m h. refl;
  keeps_namespace = λ m h. refl;
  keeps_labels = λ m d e. (d, e, λ k v g. g);
}

workshop_allocation_create-Waits_example :
    Waits patience
      (workshop_allocation_create same_text readable adopt accepts patience unknown request)
workshop_allocation_create-Waits_example =
    workshop_allocation_create-Waits same_text readable adopt accepts patience unknown request refl

workshop_allocation_create-IsMade_example :
    IsMade request
      (some "lab")
      (CopiesOf same_text (variables_of readable known request) (some (namespace_object ∷ [])))
      (workshop_allocation_create same_text readable adopt accepts 3 known request)
workshop_allocation_create-IsMade_example =
    workshop_allocation_create-IsMade same_text readable adopt accepts 3 known request lab
      adopt-Keeps refl refl
