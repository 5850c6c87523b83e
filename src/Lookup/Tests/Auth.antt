-- ===== src/Lookup/Tests/Auth.antt =====
-- Logins, logouts and the decorators of authnz.py for one client.
use educates_training_platfo.Prelude.{
  String, ◌≡◌, ◌≢◌, refl, none, some, List, [], ◌∷◌, All, arith, eq_iff,
}
use educates_training_platfo.Dict.{get, put}
use educates_training_platfo.Glob.{codes}
use educates_training_platfo.Decimal.{decimal}
use educates_training_platfo.Lookup.Caches.Clients.{
  ClientConfig, ClientDatabase, ClientSpec, identity, get_client, authenticate_client,
  check_password, revoke_tokens, clientconfigs_update, has_required_role, matched_from,
}
use educates_training_platfo.Lookup.Auth.{
  pass, refuse, Claims, Jwt, claims, login_claims, jwt_token_middleware, validate_identity,
  login_required, roles_accepted, authorize, api_auth_login, api_auth_logout,
}
use educates_training_platfo.Lookup.Auth.Tokens.{
  login_accepted, logout_revokes, logout_others, revoked_token_revived,
}
use educates_training_platfo.Lookup.Auth.Access.{Granted, authorize_sound}

abbrev robot : ClientConfig
robot = record {
  name = "robot";
  uid = some "u7";
  issue = 1;
  password = some "pw";
  user = none;
  tenants = "*" ∷ [];
  roles = "tenant" ∷ [];
}

abbrev guest : ClientConfig
guest = record {
  name = "guest";
  uid = some "u8";
  issue = 1;
  password = some "pw2";
  user = none;
  tenants = [];
  roles = [];
}

abbrev database : ClientDatabase
database = record { clients = ("robot", robot) ∷ ("guest", guest) ∷ [] }

abbrev robot_token : Claims
robot_token = record { sub = "robot"; jti = codes "client@educates:u7#1"; exp = 260200 }

abbrev guest_token : Claims
guest_token = record { sub = "guest"; jti = codes "client@educates:u8#1"; exp = 260200 }

abbrev after_logout : ClientDatabase
after_logout = record { clients = ("robot", record robot { issue = 2 }) ∷ ("guest", guest) ∷ [] }

abbrev robot_spec : ClientSpec
robot_spec = record {
  name = "robot";
  uid = some "u7";
  password = some "pw";
  user = none;
  tenants = some ("*" ∷ []);
  roles = some ("tenant" ∷ []);
}

-- A codec that knows the robot's token only.
abbrev one_token : Jwt
one_token = record { encode = λ c. codes "abc"; decode = λ now text. claims robot_token }

robot_logged_in : login_required database (some robot_token) ≡ pass robot
unfolding login_required get_client get validate_identity identity decimal
robot_logged_in = refl

guest_logged_in : login_required database (some guest_token) ≡ pass guest
unfolding login_required get_client get validate_identity identity decimal
guest_logged_in = refl

robot_logged_out : api_auth_logout database (some robot_token) ≡ pass after_logout
unfolding api_auth_logout login_required get_client get validate_identity identity decimal put
    revoke_tokens
robot_logged_out = refl

robot_login : api_auth_login database 1000 (some "robot") (some "pw") ≡ pass robot_token
unfolding api_auth_login authenticate_client check_password get_client get login_claims identity
    decimal
robot_login = refl

robot_authorized :
    authorize one_token 1000 database ("admin" ∷ "tenant" ∷ []) (some (codes "Bearer abc"))
    ≡ pass (robot, "tenant" ∷ [])
unfolding authorize jwt_token_middleware roles_accepted has_required_role matched_from
    login_required get_client get validate_identity identity decimal
robot_authorized = refl

login_accepted_example :
    (c : ClientConfig) × (get_client database "robot" ≡ some c)
    × (c.password ≡ some "pw")
    × (login_required database (some robot_token) ≡ pass c)
login_accepted_example =
    login_accepted database 1000 "robot" "pw" robot_token (refl, (refl, tt)) robot_login

logout_revokes_example : login_required after_logout (some robot_token) ≡ refuse 401
logout_revokes_example =
    logout_revokes database after_logout robot_token robot_token robot robot_logged_out refl
      robot_logged_in

guest_not_robot : guest_token.sub ≢ robot_token.sub
guest_not_robot e = absurd (ground (arith, (eq_iff "guest" "robot").1 e))

logout_others_example :
    login_required after_logout (some guest_token) ≡ login_required database (some guest_token)
logout_others_example =
    logout_others database after_logout robot_token guest_token robot_logged_out guest_not_robot

revoked_token_revived_example :
    (d : ClientConfig) × (login_required
        (clientconfigs_update robot_spec after_logout)
        (some robot_token)
      ≡ pass d)
revoked_token_revived_example =
    revoked_token_revived database after_logout robot_token robot robot_spec robot_logged_in refl
      robot_logged_out refl refl

authorize_sound_example :
    (t : Claims) × (jwt_token_middleware one_token 1000 (some (codes "Bearer abc")) ≡ pass (some t))
    × (get_client database t.sub ≡ some robot)
    × (identity robot ≡ t.jti)
    × (◌≢◌ {A = List String} ("tenant" ∷ []) [])
    × All (Granted ("tenant" ∷ []) ("admin" ∷ "tenant" ∷ [])) ("tenant" ∷ [])
authorize_sound_example =
    authorize_sound one_token 1000 database ("admin" ∷ "tenant" ∷ []) (some (codes "Bearer abc"))
      robot ("tenant" ∷ []) robot_authorized
