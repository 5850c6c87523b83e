-- ===== src/Secrets/Injector.antt =====
-- secrets-manager/handlers/secretinjector_funcs.py, on a cluster whose reads and writes succeed. A list of
-- a service account holds objects with a name only, and is the list of the names. Of the rules of
-- a configuration nothing but their order matters here.
pub mod Passes
pub mod Complete
use educates_training_platfo.Prelude.{
  String, Bool, false, not, ◌&&◌, ◌||◌, Option, none, some, List, [], ◌∷◌, ◌++◌, if◌then◌else◌, is,
  is_empty, contains, str_eq,
}
use educates_training_platfo.Dict.{Dict}
use educates_training_platfo.Secrets.{
  Namespace, Expression, TargetNamespaces, labels_selected, expressions_selected,
  namespace_selected, is_active_phase,
}

-- `sourceSecrets` or `serviceAccounts` of a rule.
pub record ObjectSelector : Type 0 where
  pub match_names : List String
  pub match_labels : Dict String
  pub match_expressions : List Expression

pub record Rule : Type 0 where
  pub target_namespaces : TargetNamespaces
  pub source_secrets : ObjectSelector
  pub service_accounts : ObjectSelector

pub record Secret : Type 0 where
  pub name : String
  pub namespace : String
  pub secret_type : Option String
  pub labels : Dict String

pub record ServiceAccount : Type 0 where
  pub name : String
  pub namespace : String
  pub labels : Dict String
  pub image_pull_secrets : List String
  pub secrets : List String

pub record Cluster : Type 0 where
  pub namespaces : List Namespace
  pub secrets : List Secret
  pub service_accounts : List ServiceAccount

unfoldable pub object_selected : ObjectSelector → String → Dict String → Bool
object_selected sel name labels =
    if not (is_empty sel.match_names) && not (contains name sel.match_names)
    then false
    else if not (labels_selected sel.match_labels labels)
    then false
    else expressions_selected sel.match_expressions labels

unfoldable pub matches_source_secret : Secret → Rule → Bool
matches_source_secret s r = object_selected r.source_secrets s.name s.labels

unfoldable pub matches_service_account : ServiceAccount → Rule → Bool
matches_service_account a r = object_selected r.service_accounts a.name a.labels

unfoldable pub rules_of : Namespace → List Rule → List Rule
rules_of n [] = []
rules_of n (r ∷ rs) =
    if namespace_selected r.target_namespaces n then r ∷ rules_of n rs else rules_of n rs

-- Of several configurations, each given by its rules.
unfoldable pub matches_target_namespace : Namespace → List (List Rule) → List Rule
matches_target_namespace n [] = []
matches_target_namespace n (rules ∷ configs) =
    rules_of n rules ++ matches_target_namespace n configs

abbrev pub is_pull_secret : Secret → Bool
is_pull_secret s = is s.secret_type "kubernetes.io/dockerconfigjson"

-- The list that a secret belongs in.
abbrev pub names_for : Secret → ServiceAccount → List String
names_for s a = if is_pull_secret s then a.image_pull_secrets else a.secrets

unfoldable pub inject_secret : Secret → ServiceAccount → ServiceAccount
inject_secret s a =
    if contains s.name (names_for s a)
    then a
    else if is_pull_secret s
    then record a { image_pull_secrets = a.image_pull_secrets ++ s.name ∷ [] }
    else record a { secrets = a.secrets ++ s.name ∷ [] }

-- The loop over the service accounts of a namespace.
unfoldable pub inject_into : String → Rule → Secret → List ServiceAccount → List ServiceAccount
inject_into namespace r s [] = []
inject_into namespace r s (a ∷ accounts) =
    (if str_eq a.namespace namespace && matches_service_account a r then inject_secret s a else a)
    ∷ inject_into namespace r s accounts

-- One secret of a list, which is looked at for one rule and one namespace.
unfoldable pub inject_selected : String → Rule → Secret → List ServiceAccount → List ServiceAccount
inject_selected namespace r s accounts =
    if str_eq s.namespace namespace && matches_source_secret s r
    then inject_into namespace r s accounts
    else accounts

-- The loop over the secrets of a namespace.
unfoldable pub inject_all : String → Rule → List Secret → List ServiceAccount → List ServiceAccount
inject_all namespace r [] accounts = accounts
inject_all namespace r (s ∷ ss) accounts =
    inject_all namespace r ss (inject_selected namespace r s accounts)

unfoldable pub reconcile_namespace : String → Rule → Cluster → Cluster
reconcile_namespace namespace r c = record c {
  service_accounts = inject_all namespace r c.secrets c.service_accounts;
}

unfoldable pub reconcile_rules : String → List Rule → Cluster → Cluster
reconcile_rules namespace [] c = c
reconcile_rules namespace (r ∷ rs) c =
    reconcile_rules namespace rs (reconcile_namespace namespace r c)

-- The loop over the namespaces, for one configuration.
unfoldable pub reconcile_namespaces : List Namespace → List Rule → Cluster → Cluster
reconcile_namespaces [] rules c = c
reconcile_namespaces (n ∷ ns) rules c = reconcile_namespaces ns rules (
    if is_active_phase n
    then reconcile_rules n.name (matches_target_namespace n (rules ∷ [])) c
    else c)

unfoldable pub reconcile_config : List Rule → Cluster → Cluster
reconcile_config rules c = reconcile_namespaces c.namespaces rules c

unfoldable pub read_namespace : String → List Namespace → Option Namespace
read_namespace name [] = none
read_namespace name (n ∷ ns) = if str_eq n.name name then some n else read_namespace name ns

-- The rules that hold for a namespace, if it is there and active.
rules_for : List (List Rule) → Option Namespace → List Rule
rules_for configs none = []
rules_for configs (some n) = if is_active_phase n then matches_target_namespace n configs else []

unfoldable pub secret_rules : Secret → List Rule → Cluster → Cluster
secret_rules s [] c = c
secret_rules s (r ∷ rs) c =
    secret_rules s rs
      (record c { service_accounts = inject_selected s.namespace r s c.service_accounts })

unfoldable pub reconcile_secret : Secret → List (List Rule) → Cluster → Cluster
unfolding rules_for
reconcile_secret s configs c =
    secret_rules s (rules_for configs (read_namespace s.namespace c.namespaces)) c

abbrev pub is_account : ServiceAccount → ServiceAccount → Bool
is_account a b = str_eq b.namespace a.namespace && str_eq b.name a.name

-- The secrets of the namespace, for one service account.
unfoldable pub account_secrets : Rule → List Secret → ServiceAccount → ServiceAccount
account_secrets r [] a = a
account_secrets r (s ∷ ss) a =
    account_secrets r ss
      (if str_eq s.namespace a.namespace && matches_source_secret s r then inject_secret s a else a)

-- Whether a rule matches is asked of the object of the event.
unfoldable pub account_rules :
    ServiceAccount → List Secret → List Rule → ServiceAccount → ServiceAccount
account_rules event ss [] a = a
account_rules event ss (r ∷ rs) a =
    account_rules event ss rs
      (if matches_service_account event r then account_secrets r ss a else a)

change_account :
    ServiceAccount → (ServiceAccount → ServiceAccount) → List ServiceAccount → List ServiceAccount
change_account event f [] = []
change_account event f (a ∷ accounts) =
    if is_account event a then f a ∷ accounts else a ∷ change_account event f accounts

unfoldable pub reconcile_service_account : ServiceAccount → List (List Rule) → Cluster → Cluster
unfolding change_account rules_for
reconcile_service_account event configs c =
    let rules = rules_for configs (read_namespace event.namespace c.namespaces) in
    record c {
      service_accounts =
          change_account event (account_rules event c.secrets rules) c.service_accounts;
    }
