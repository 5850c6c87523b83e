-- ===== src/Secrets.antt =====
-- secrets-manager/handlers: the selectors of namespaces and objects that the secret copier and the
-- secret injector share. The Kubernetes objects are records of the fields that are read, a
-- property that is missing is `none` or the default that the code takes for it, and the
-- resources' schemas are assumed. Log calls are left out.
pub mod Matching
pub mod Copier
pub mod Injector
mod Tests
use Prim.Native.Char.{code}
use educates_training_platfo.Prelude.{
  String, Bool, true, false, not, ◌&&◌, ◌||◌, Option, none, some, List, [], ◌∷◌, ◌==◌, map,
  if◌then◌else◌, is, is_some, is_empty, keep, any, contains, str_eq, default,
}
use educates_training_platfo.Dict.{Dict, get}
use educates_training_platfo.Glob.{fnmatch}

pub record OwnerDetails : Type 0 where
  pub api_version : String
  pub kind : String
  pub name : String
  pub uid : String

pub record Namespace : Type 0 where
  pub name : String
  pub uid : String
  pub phase : Option String
  pub owner_references : List OwnerDetails
  pub labels : Dict String

-- One of `matchExpressions`, where `values` may be missing or empty.
pub record Expression : Type 0 where
  pub key : String
  pub operator : String
  pub values : List String

-- `targetNamespaces` of a rule. The rules of the injector have no owners.
pub record TargetNamespaces : Type 0 where
  pub match_names : Option (List String)
  pub match_uids : List String
  pub match_owners : List OwnerDetails
  pub match_labels : Dict String
  pub match_expressions : List Expression

-- `_.startswith("!")` and `_[1:]`
abbrev pub negated : String → Bool
negated String.[] = false
negated (String.◌∷◌ c s) = code c == b'!'

abbrev pub behind_bang : String → String
behind_bang String.[] = String.[]
behind_bang (String.◌∷◌ c s) = s

unfoldable pub glob_match_name : String → List String → Bool
glob_match_name name [] = false
glob_match_name name (item ∷ items) = if fnmatch name item then true else glob_match_name name items

abbrev pub included_names : List String → List String
included_names patterns = keep (λ p. not (negated p)) patterns

abbrev pub excluded_names : List String → List String
excluded_names patterns = map behind_bang (keep negated patterns)

unfoldable pub name_selected : List String → String → Bool
name_selected patterns name =
    if not (is_empty (included_names patterns))
      && not (glob_match_name name (included_names patterns))
    then false
    else if not (is_empty (excluded_names patterns))
        && glob_match_name name (excluded_names patterns)
    then false
    else true

-- `for key, value in match_labels.items()`
unfoldable pub labels_selected : Dict String → Dict String → Bool
labels_selected [] labels = true
labels_selected ((key, value) ∷ rest) labels =
    if is (get labels key) value then labels_selected rest labels else false

abbrev pub is_among : Option String → List String → Bool
is_among none values = false
is_among (some value) values = contains value values

-- An operator that is not known, and one of values where there are none, hold.
unfoldable pub expression_holds : Dict String → Expression → Bool
expression_holds labels e =
    if str_eq e.operator "In"
    then is_empty e.values || is_among (get labels e.key) e.values
    else if str_eq e.operator "NotIn"
    then is_empty e.values || not (is_among (get labels e.key) e.values)
    else if str_eq e.operator "Exists"
    then is_some (get labels e.key)
    else if str_eq e.operator "DoesNotExist"
    then not (is_some (get labels e.key))
    else true

unfoldable pub expressions_selected : List Expression → Dict String → Bool
expressions_selected [] labels = true
expressions_selected (e ∷ es) labels =
    if expression_holds labels e then expressions_selected es labels else false

abbrev pub same_owner : OwnerDetails → OwnerDetails → Bool
same_owner a b =
    str_eq a.api_version b.api_version
    && str_eq a.kind b.kind
    && str_eq a.name b.name
    && str_eq a.uid b.uid

-- The loop over the owners of the namespace.
unfoldable pub owner_selected : List OwnerDetails → List OwnerDetails → Bool
owner_selected match_owners [] = false
owner_selected match_owners (owner ∷ owners) =
    if any (same_owner owner) match_owners then true else owner_selected match_owners owners

unfoldable pub uid_selected : List String → String → Bool
uid_selected match_uids uid = is_empty match_uids || contains uid match_uids

-- The conditions of a rule on a namespace, each of which skips the rule when it fails.
unfoldable pub namespace_selected : TargetNamespaces → Namespace → Bool
namespace_selected t n =
    if not (name_selected (default ("!kube-*" ∷ []) t.match_names) n.name)
    then false
    else if not (uid_selected t.match_uids n.uid)
    then false
    else if not (is_empty t.match_owners || owner_selected t.match_owners n.owner_references)
    then false
    else if not (labels_selected t.match_labels n.labels)
    then false
    else expressions_selected t.match_expressions n.labels

-- `lookup(…, "status.phase") != "Active"`
abbrev pub is_active_phase : Namespace → Bool
is_active_phase n = is n.phase "Active"
