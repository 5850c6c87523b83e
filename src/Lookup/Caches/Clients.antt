-- ===== src/Lookup/Caches/Clients.antt =====
-- lookup-service/service/caches/clients.py, and the clients' part of databases.py and of
-- lookup-service/service/handlers/clients.py.
use educates_training_platfo.Prelude.{
  ℕ, ◌+◌, String, Bool, true, false, Option, none, some, List, [], ◌∷◌, ◌++◌, default, contains,
  opt_eq, if◌then◌else◌,
}
use educates_training_platfo.Dict.{Dict, get, put, pop, values}
use educates_training_platfo.Glob.{codes, fnmatch}
use educates_training_platfo.Decimal.{decimal}

pub record ClientConfig : Type 0 where
  pub name : String
  pub uid : Option String
  pub issue : ℕ
  pub password : Option String
  pub user : Option String
  pub tenants : List String
  pub roles : List String

-- f"client@educates:{self.uid}#{self.issue}", as code points.
unfoldable pub identity : ClientConfig → List ℕ
identity c = codes "client@educates:" ++ (codes (default "None" c.uid) ++ b'#' ∷ decimal c.issue)

unfoldable pub revoke_tokens : ClientConfig → ClientConfig
revoke_tokens c = record c { issue = c.issue + 1 }

unfoldable pub check_password : ClientConfig → String → Bool
check_password c password = opt_eq c.password (some password)

abbrev pub insert_new : String → List String → List String
insert_new role matched = if contains role matched then matched else role ∷ matched

-- The `for` loop over the roles that are asked for. The set is a list without repetitions.
unfoldable pub matched_from : List String → List String → List String → List String
matched_from matched has [] = matched
matched_from matched has (role ∷ rest) =
    matched_from (if contains role has then insert_new role matched else matched) has rest

unfoldable pub has_required_role : ClientConfig → List String → List String
has_required_role c required = matched_from [] c.roles required

unfoldable pub some_pattern : String → List String → Bool
some_pattern tenant [] = false
some_pattern tenant (pattern ∷ patterns) =
    if fnmatch tenant pattern then true else some_pattern tenant patterns

unfoldable pub allowed_access_to_tenant : ClientConfig → String → Bool
allowed_access_to_tenant c tenant = some_pattern tenant c.tenants

pub record ClientDatabase : Type 0 where
  pub clients : Dict ClientConfig

unfoldable pub update_client : ClientDatabase → ClientConfig → ClientDatabase
update_client db c = record { clients = put db.clients c.name c }

unfoldable pub remove_client : ClientDatabase → String → ClientDatabase
remove_client db name = record { clients = pop db.clients name }

unfoldable pub get_clients : ClientDatabase → List ClientConfig
get_clients db = values db.clients

unfoldable pub get_client : ClientDatabase → String → Option ClientConfig
get_client db name = get db.clients name

unfoldable pub authenticate_client : ClientDatabase → String → String → Option ClientConfig
authenticate_client db name password = elim (get_client db name) [
  | none ↦ none
  | some client ↦ if check_password client password then some client else none
]

-- The properties of a client's resource that its handler reads.
pub record ClientSpec : Type 0 where
  pub name : String
  pub uid : Option String
  pub password : Option String
  pub user : Option String
  pub tenants : Option (List String)
  pub roles : Option (List String)

-- Called when a resource is seen again after a restart, created or updated.
unfoldable pub clientconfigs_update : ClientSpec → ClientDatabase → ClientDatabase
clientconfigs_update spec db = update_client db (record {
  name = spec.name;
  uid = spec.uid;
  issue = 1;
  password = spec.password;
  user = spec.user;
  tenants = default [] spec.tenants;
  roles = default [] spec.roles;
})

unfoldable pub clientconfigs_delete : String → ClientDatabase → ClientDatabase
clientconfigs_delete name db = remove_client db name
