-- ===== src/Secrets/Copier.antt =====
-- secrets-manager/handlers/secretcopier_funcs.py, with the index of secretexporter.py and the events
-- of namespace.py, secretimporter.py and secret.py that start it. The Kubernetes API is a reply to
-- each read. An object that is read has the name and namespace that were asked for.
pub mod Cluster
pub mod Decision
pub mod Permission
pub mod Replayed
pub mod Total
pub mod Converged
use Prim.Native.Char.{code}
use Prim.Native.String.{◌++◌ as str_append}
use educates_training_platfo.Prelude.{
  ℕ, ◌+◌, String, Bool, true, false, not, ◌&&◌, ◌||◌, Option, none, some, List, [], ◌∷◌, ◌++◌, ◌==◌,
  if◌then◌else◌, given, is, opt_eq, all, str_eq, default,
}
use educates_training_platfo.Dict.{Dict, get, put}
use educates_training_platfo.Secrets.{
  Namespace, TargetNamespaces, name_selected, namespace_selected,
}

pub record SecretRef : Type 0 where
  pub name : String
  pub namespace : String

-- The references always block the deletion of their owner, and are its controller.
pub record OwnerReference : Type 0 where
  pub api_version : String
  pub kind : String
  pub name : String
  pub uid : String

-- The rules of an exporter have the source that its index puts in.
pub record Rule : Type 0 where
  pub source_secret : SecretRef
  pub target_namespaces : TargetNamespaces
  pub target_name : Option String
  pub target_labels : Dict String
  pub shared_secret : Option String
  pub reclaim_policy : Option String

pub data ConfigKind : Type 0 where
  secret_copier secret_exporter : ConfigKind

-- A copier has no namespace of its own.
pub record Config : Type 0 where
  pub kind : ConfigKind
  pub api_version : String
  pub name : String
  pub namespace : String
  pub uid : String
  pub rules : List Rule

pub record BoundRule : Type 0 where
  pub rule : Rule
  pub owner_source : String
  pub rule_number : ℕ
  pub owner_reference : Option OwnerReference

pub record Secret : Type 0 where
  pub name : String
  pub namespace : String
  pub secret_type : String
  pub contents : Dict String
  pub labels : Dict String
  pub annotations : Dict String
  pub owner_references : List OwnerReference

pub record Importer : Type 0 where
  pub name : String
  pub namespace : String
  pub api_version : String
  pub kind : String
  pub uid : String
  pub shared_secret : Option String
  pub source_names : Option (List String)
  -- `sourceSecret.name`: nothing of the program reads it.
  pub source_secret_name : Option String

bound_rule_of : ConfigKind → Config → Rule → ℕ → BoundRule
bound_rule_of secret_exporter c r index = record {
  rule = record r {
    source_secret = record { name = c.name; namespace = c.namespace };
    shared_secret = some (default c.uid r.shared_secret);
  };
  owner_source = str_append "secretexporter/" c.name;
  rule_number = index;
  owner_reference = none;
}
bound_rule_of secret_copier c r index = record {
  rule = r;
  owner_source = str_append "secretcopier/" c.name;
  rule_number = index;
  owner_reference =
      some
        (record { api_version = c.api_version; kind = "SecretCopier"; name = c.name; uid = c.uid });
}

unfoldable pub bound_rule : Config → Rule → ℕ → BoundRule
unfolding bound_rule_of
bound_rule c r index = bound_rule_of c.kind c r index

-- The rules of one configuration, counted from `index`.
unfoldable pub rules_from : Namespace → Config → ℕ → List Rule → List BoundRule
rules_from n c index [] = []
rules_from n c index (r ∷ rs) =
    if namespace_selected r.target_namespaces n
    then bound_rule c r index ∷ rules_from n c (index + 1) rs
    else rules_from n c (index + 1) rs

unfoldable pub matches_target_namespace : Namespace → List Config → List BoundRule
matches_target_namespace n [] = []
matches_target_namespace n (c ∷ cs) = rules_from n c 1 c.rules ++ matches_target_namespace n cs

-- A configuration is given once for each rule that has the secret as its source.
unfoldable pub configs_of_rules : String → String → Config → List Rule → List Config
configs_of_rules name namespace c [] = []
configs_of_rules name namespace c (r ∷ rs) =
    if str_eq name r.source_secret.name && str_eq namespace r.source_secret.namespace
    then c ∷ configs_of_rules name namespace c rs
    else configs_of_rules name namespace c rs

unfoldable pub matches_source_secret : String → String → List Config → List Config
matches_source_secret name namespace [] = []
matches_source_secret name namespace (c ∷ cs) =
    configs_of_rules name namespace c c.rules ++ matches_source_secret name namespace cs

-- What a read of the API gives.
pub data Reply (A : Type 0) : Type 0 where
  found : A → Reply A
  missing failed : Reply A

-- What becomes of a secret. An exception that is not caught is `raises`.
pub data Action : Type 0 where
  nothing raises : Action
  create update : Secret → Action

-- `api_version.split("/")[0]`
unfoldable pub api_group : String → String
api_group String.[] = String.[]
api_group (String.◌∷◌ c s) =
    let rest = api_group s in if code c == b'/' then String.[] else String.◌∷◌ c rest

abbrev pub copier_rule_key : OwnerReference → String
copier_rule_key o = str_append (api_group o.api_version) "/copier-rule"

abbrev pub secret_name_key : OwnerReference → String
secret_name_key o = str_append (api_group o.api_version) "/secret-name"

abbrev pub full_name : Secret → String
full_name s = str_append s.namespace (str_append "/" s.name)

abbrev pub target_name_of : BoundRule → String
target_name_of b = default b.rule.source_secret.name b.rule.target_name

-- `d.update(changes)`
unfoldable pub update_dict : Dict String → Dict String → Dict String
update_dict d [] = d
update_dict d ((k, v) ∷ changes) = update_dict (put d k v) changes

-- `==` of two dictionaries, whose order does not matter.
abbrev pub within_dict : Dict String → Dict String → Bool
within_dict d e = all (λ (entry : String × String). is (get e entry.0) entry.1) d

unfoldable pub same_dict : Dict String → Dict String → Bool
same_dict d e = within_dict d e && within_dict e d

unfoldable pub authorized : Option String → Option Importer → Bool
authorized none importer = true
authorized (some shared) none = false
authorized (some shared) (some i) = opt_eq i.shared_secret (some shared)

unfoldable pub source_allowed : Option Importer → String → Bool
source_allowed none namespace = true
source_allowed (some i) namespace = name_selected (default ("*" ∷ []) i.source_names) namespace

-- Without a reference the importer becomes the owner. If there is none either, that raises.
unfoldable pub owner_reference_of : Option OwnerReference → Option Importer → Option OwnerReference
owner_reference_of (some o) importer = some o
owner_reference_of none none = none
owner_reference_of none (some i) =
    some (record { api_version = i.api_version; kind = i.kind; name = i.name; uid = i.uid })

unfoldable pub reclaim_policy_of : BoundRule → String
reclaim_policy_of b = elim b.owner_reference [
  | none ↦ "Delete"
  | some o ↦ default "Delete" b.rule.reclaim_policy
]

unfoldable pub annotated : BoundRule → OwnerReference → Secret → Dict String → Dict String
annotated b o source annotations =
    put (put annotations (copier_rule_key o) b.owner_source) (secret_name_key o) (full_name source)

unfoldable pub new_copy : String → BoundRule → OwnerReference → Secret → Secret
new_copy namespace b o source = record {
  name = target_name_of b;
  namespace = namespace;
  secret_type = source.secret_type;
  contents = source.contents;
  labels = b.rule.target_labels;
  annotations = annotated b o source [];
  owner_references = if str_eq (reclaim_policy_of b) "Delete" then o ∷ [] else [];
}

abbrev pub other_than : Option String → String → Bool
other_than value expected = given value && not (is value expected)

-- The secret was placed by another rule or from another secret.
unfoldable pub is_foreign : BoundRule → OwnerReference → Secret → Secret → Bool
is_foreign b o source target =
    other_than (get target.annotations (copier_rule_key o)) b.owner_source
    || other_than (get target.annotations (secret_name_key o)) (full_name source)

abbrev pub wanted_labels : BoundRule → Secret → Dict String
wanted_labels b source = update_dict source.labels b.rule.target_labels

unfoldable pub is_current : BoundRule → Secret → Secret → Bool
is_current b source target =
    str_eq source.secret_type target.secret_type
    && same_dict source.contents target.contents
    && same_dict (wanted_labels b source) target.labels

unfoldable pub new_version : BoundRule → OwnerReference → Secret → Secret → Secret
new_version b o source target = record target {
  secret_type = source.secret_type;
  contents = source.contents;
  labels = wanted_labels b source;
  annotations = annotated b o source target.annotations;
}

unfoldable pub place : String → BoundRule → OwnerReference → Secret → Reply Secret → Action
place namespace b o source missing = create (new_copy namespace b o source)
place namespace b o source failed = raises
place namespace b o source (found target) =
    if is_foreign b o source target
    then nothing
    else if is_current b source target
    then nothing
    else update (new_version b o source target)

place_owned : String → BoundRule → Secret → Reply Secret → Option OwnerReference → Action
place_owned namespace b source target none = raises
place_owned namespace b source target (some o) = place namespace b o source target

-- What an importer of the target's name permits, if there is one.
unfoldable pub permit : String → BoundRule → Secret → Option Importer → Reply Secret → Action
unfolding place_owned
permit namespace b source importer target =
    if not (authorized b.rule.shared_secret importer)
    then nothing
    else if not (source_allowed importer source.namespace)
    then nothing
    else place_owned namespace b source target (owner_reference_of b.owner_reference importer)

of_importer : String → BoundRule → Secret → Reply Importer → Reply Secret → Action
of_importer namespace b source (found i) target = permit namespace b source (some i) target
of_importer namespace b source missing target = permit namespace b source none target
of_importer namespace b source failed target = nothing

of_source : String → BoundRule → Reply Secret → Reply Importer → Reply Secret → Action
unfolding of_importer
of_source namespace b (found source) importer target =
    of_importer namespace b source importer target
of_source namespace b missing importer target = nothing
of_source namespace b failed importer target = nothing

-- `update_secret`, up to the call that writes, from the replies for the source, the importer and the
-- target. A read that an early return skips changes nothing.
unfoldable pub decide_secret :
    String → BoundRule → Reply Secret → Reply Importer → Reply Secret → Action
unfolding of_source
decide_secret namespace b source importer target =
    if str_eq b.rule.source_secret.namespace namespace
    then nothing
    else of_source namespace b source importer target
