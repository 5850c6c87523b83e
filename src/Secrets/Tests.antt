-- ===== src/Secrets/Tests.antt =====
-- Runs of the secret copier and the secret injector on a small cluster.
use mathlib.Core.List.Memᴰ
use educates_training_platfo.Prelude.{true, false, ◌≡◌, refl, ◌↔◌, none, some, [], ◌∷◌}
use educates_training_platfo.Dict.{get, put}
use educates_training_platfo.Glob.{fnmatch}
use educates_training_platfo.Secrets.{
  Namespace, TargetNamespaces, glob_match_name, name_selected, labels_selected, expression_holds,
  expressions_selected, uid_selected, namespace_selected,
}
use educates_training_platfo.Secrets.Matching.{Selected, namespace_selected_iff}
use educates_training_platfo.Secrets.Copier
use educates_training_platfo.Secrets.Copier.{
  secret_copier, found, missing, nothing, bound_rule, rules_from, matches_target_namespace,
  api_group, update_dict, same_dict, authorized, source_allowed, owner_reference_of,
  reclaim_policy_of, annotated, new_copy, is_foreign, is_current, new_version, place, permit,
  decide_secret, BoundRule,
}
use educates_training_platfo.Secrets.Copier.Cluster
use educates_training_platfo.Secrets.Copier.Cluster.{
  read_secret, read_importer, write_secret, action_in, perform, update_secret, namespace_event,
  secretimporters_event, Writes, accepting,
}
use educates_training_platfo.Secrets.Copier.Permission.{
  written, IsPermitted, decide_secret-IsPermitted,
}
use educates_training_platfo.Secrets.Copier.Converged.{update_secret-converged}
use educates_training_platfo.Secrets.Copier.Total.{Returns, events-return}
use educates_training_platfo.Secrets.Injector
use educates_training_platfo.Secrets.Injector.{
  object_selected, matches_source_secret, matches_service_account, rules_of, names_for,
  inject_secret, inject_into, inject_selected, inject_all, reconcile_namespace, reconcile_rules,
  reconcile_namespaces, reconcile_config,
}
use educates_training_platfo.Secrets.Injector.Complete.{
  IsListed, reconcile_config-idempotent, reconcile_config_complete,
}

abbrev labs : TargetNamespaces
labs = record {
  match_names = some ("lab-*" ∷ "!lab-old" ∷ []);
  match_uids = [];
  match_owners = [];
  match_labels = [];
  match_expressions = record { key = "tier"; operator = "NotIn"; values = "gold" ∷ [] } ∷ [];
}

abbrev lab : Namespace
lab = record {
  name = "lab-1";
  uid = "u1";
  phase = some "Active";
  owner_references = [];
  labels = ("tier", "silver") ∷ [];
}

abbrev old_lab : Namespace
old_lab = record lab { name = "lab-old" }

lab_selected : namespace_selected labs lab ≡ true
unfolding namespace_selected name_selected glob_match_name fnmatch uid_selected labels_selected
    expressions_selected expression_holds get
lab_selected = refl

old_lab_selected : namespace_selected labs old_lab ≡ false
unfolding namespace_selected name_selected glob_match_name fnmatch
old_lab_selected = refl

namespace_selected_iff_example : (namespace_selected labs lab ≡ true) ↔ Selected labs lab
namespace_selected_iff_example = namespace_selected_iff labs lab

abbrev copy_rule : Copier.Rule
copy_rule = record {
  source_secret = record { name = "registry"; namespace = "images" };
  target_namespaces = labs;
  target_name = none;
  target_labels = ("copied", "yes") ∷ [];
  shared_secret = none;
  reclaim_policy = none;
}

abbrev copier : Copier.Config
copier = record {
  kind = secret_copier;
  api_version = "secrets.educates.dev/v1beta1";
  name = "pull";
  namespace = "";
  uid = "c1";
  rules = copy_rule ∷ [];
}

abbrev bound : BoundRule
bound = record {
  rule = copy_rule;
  owner_source = "secretcopier/pull";
  rule_number = 1;
  owner_reference = some (record {
    api_version = "secrets.educates.dev/v1beta1";
    kind = "SecretCopier";
    name = "pull";
    uid = "c1";
  });
}

lab_rules : matches_target_namespace lab (copier ∷ []) ≡ bound ∷ []
unfolding matches_target_namespace rules_from bound_rule namespace_selected name_selected
    glob_match_name fnmatch uid_selected labels_selected expressions_selected expression_holds get
lab_rules = refl

abbrev registry : Copier.Secret
registry = record {
  name = "registry";
  namespace = "images";
  secret_type = "kubernetes.io/dockerconfigjson";
  contents = (".dockerconfigjson", "e30=") ∷ [];
  labels = ("team", "docs") ∷ [];
  annotations = [];
  owner_references = [];
}

abbrev before : Cluster.Cluster
before = record { namespaces = lab ∷ []; secrets = registry ∷ []; importers = [] }

abbrev first_copy : Copier.Secret
first_copy = record {
  name = "registry";
  namespace = "lab-1";
  secret_type = "kubernetes.io/dockerconfigjson";
  contents = (".dockerconfigjson", "e30=") ∷ [];
  labels = ("copied", "yes") ∷ [];
  annotations =
      ("secrets.educates.dev/copier-rule", "secretcopier/pull")
      ∷ ("secrets.educates.dev/secret-name", "images/registry")
      ∷ [];
  owner_references =
      record {
        api_version = "secrets.educates.dev/v1beta1";
        kind = "SecretCopier";
        name = "pull";
        uid = "c1";
      }
      ∷ [];
}

abbrev after_one : Cluster.Cluster
after_one = record before { secrets = registry ∷ first_copy ∷ [] }

-- The second pass adds the labels of the source.
abbrev after_two : Cluster.Cluster
after_two = record before {
  secrets =
      registry ∷ record first_copy { labels = ("team", "docs") ∷ ("copied", "yes") ∷ [] } ∷ [];
}

first_pass : update_secret accepting "lab-1" bound before ≡ some after_one
unfolding update_secret perform action_in decide_secret read_secret read_importer permit authorized
    source_allowed owner_reference_of place new_copy annotated reclaim_policy_of api_group put
    write_secret
first_pass = refl

second_pass : update_secret accepting "lab-1" bound after_one ≡ some after_two
unfolding update_secret perform action_in decide_secret read_secret read_importer permit authorized
    source_allowed owner_reference_of place is_foreign is_current same_dict update_dict new_version
    annotated api_group put get write_secret
second_pass = refl

update_secret-converged_example : update_secret accepting "lab-1" bound after_two ≡ some after_two
unfolding get
update_secret-converged_example =
    update_secret-converged "lab-1" bound before after_one after_two (((refl, tt), (refl, tt)), tt)
      first_pass second_pass

-- A rule of an exporter, and the importer that accepts it.
abbrev exported : BoundRule
exported = record {
  rule = record copy_rule { shared_secret = some "key" };
  owner_source = "secretexporter/registry";
  rule_number = 1;
  owner_reference = none;
}

abbrev importer : Copier.Importer
importer = record {
  name = "registry";
  namespace = "lab-1";
  api_version = "secrets.educates.dev/v1beta1";
  kind = "SecretImporter";
  uid = "i1";
  shared_secret = some "key";
  source_names = some ("im*" ∷ []);
  source_secret_name = some "credentials";
}

abbrev imported : Copier.Secret
imported = record first_copy {
  annotations =
      ("secrets.educates.dev/copier-rule", "secretexporter/registry")
      ∷ ("secrets.educates.dev/secret-name", "images/registry")
      ∷ [];
  owner_references =
      record {
        api_version = "secrets.educates.dev/v1beta1";
        kind = "SecretImporter";
        name = "registry";
        uid = "i1";
      }
      ∷ [];
}

imports :
    written (decide_secret "lab-1" exported (found registry) (found importer) missing)
    ≡ some imported
unfolding decide_secret permit authorized source_allowed name_selected glob_match_name fnmatch
    owner_reference_of place new_copy annotated reclaim_policy_of api_group put
imports = refl

decide_secret-IsPermitted_example :
    IsPermitted "lab-1" exported (found registry) (found importer) missing imported
decide_secret-IsPermitted_example =
    decide_secret-IsPermitted "lab-1" exported (found registry) (found importer) missing imported
      imports

not_imported :
    decide_secret "lab-1" exported
      (found registry)
      (found (record importer { shared_secret = some "lock" }))
      missing
    ≡ nothing
unfolding decide_secret permit authorized
not_imported = refl

-- A cluster whose quota of secrets is used up.
abbrev full : Writes
full = record { refuses_create = λ _. true; refuses_update = λ _. false }

events-return_example :
    Returns (namespace_event full none lab (copier ∷ []) [] before)
    × Returns (secretimporters_event full none importer (copier ∷ []) [] before)
    × Returns (Cluster.reconcile_secret full "registry" "images" (copier ∷ []) before)
events-return_example =
    events-return full (λ s. refl) none lab importer "registry" "images" (copier ∷ []) [] before

abbrev every : Injector.ObjectSelector
every = record { match_names = []; match_labels = []; match_expressions = [] }

abbrev pull_rule : Injector.Rule
pull_rule = record {
  target_namespaces = labs;
  source_secrets = record every { match_names = "registry" ∷ [] };
  service_accounts = every;
}

abbrev pull_secret : Injector.Secret
pull_secret = record {
  name = "registry";
  namespace = "lab-1";
  secret_type = some "kubernetes.io/dockerconfigjson";
  labels = [];
}

abbrev account : Injector.ServiceAccount
account = record {
  name = "default";
  namespace = "lab-1";
  labels = [];
  image_pull_secrets = "other" ∷ [];
  secrets = [];
}

abbrev accounts : Injector.Cluster
accounts = record {
  namespaces = lab ∷ [];
  secrets = pull_secret ∷ [];
  service_accounts = account ∷ [];
}

abbrev injected : Injector.ServiceAccount
injected = record account { image_pull_secrets = "other" ∷ "registry" ∷ [] }

injects :
    reconcile_config (pull_rule ∷ []) accounts
    ≡ record accounts { service_accounts = injected ∷ [] }
unfolding reconcile_config reconcile_namespaces reconcile_rules reconcile_namespace inject_all
    inject_selected inject_into inject_secret matches_source_secret matches_service_account
    object_selected Injector.matches_target_namespace rules_of namespace_selected name_selected
    glob_match_name fnmatch uid_selected labels_selected expressions_selected expression_holds get
injects = refl

reconcile_config-idempotent_example :
    reconcile_config (pull_rule ∷ []) (reconcile_config (pull_rule ∷ []) accounts)
    ≡ reconcile_config (pull_rule ∷ []) accounts
reconcile_config-idempotent_example = reconcile_config-idempotent (pull_rule ∷ []) accounts

reconcile_config_complete_example : IsListed pull_secret injected
unfolding reconcile_config reconcile_namespaces reconcile_rules reconcile_namespace inject_all
    inject_selected inject_into inject_secret matches_source_secret matches_service_account
    object_selected Injector.matches_target_namespace rules_of namespace_selected name_selected
    glob_match_name fnmatch uid_selected labels_selected expressions_selected expression_holds get
reconcile_config_complete_example =
    reconcile_config_complete (pull_rule ∷ []) accounts lab pull_rule pull_secret injected
      (Memᴰ.head refl) refl (Memᴰ.head refl) (Memᴰ.head refl) refl refl (Memᴰ.head refl) refl refl
