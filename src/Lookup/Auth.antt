-- ===== src/Lookup/Auth.antt =====
-- lookup-service/service/routes/authnz.py. A handler goes on with `pass`, or ends the request with
-- `refuse` and the status of its response. PyJWT is a parameter: how it encodes a set of claims,
-- and what decoding a text at some time gives. Times are whole seconds.
pub mod Access
pub mod Tokens
use educates_training_platfo.Prelude.{
  ℕ, ◌+◌, ◌*◌, ◌-◌, String, Bool, true, false, ◌&&◌, ◌||◌, Option, none, some, List, [], ◌∷◌, ◌++◌,
  ◌==◌, leb, if◌then◌else◌, is_empty,
}
use educates_training_platfo.Dict.{put}
use educates_training_platfo.Glob.{codes}
use educates_training_platfo.Lookup.Caches.Clients.{
  ClientConfig, ClientDatabase, identity, get_client, authenticate_client, has_required_role,
  revoke_tokens,
}

pub data Reply {ℓ} (A : Type ℓ) : Type ℓ where
  pass : A → Reply A
  refuse : ℕ → Reply A

infixl 5 ◌>>=◌
abbrev pub ◌>>=◌ {ℓ κ} : {A : Type ℓ} {B : Type κ} → Reply A → (A → Reply B) → Reply B
pass a >>= f = f a
refuse status >>= f = refuse status

pub record Claims : Type 0 where
  pub sub : String
  pub jti : List ℕ
  pub exp : ℕ

pub data Decoded : Type 0 where
  expired invalid : Decoded
  claims : Claims → Decoded

pub record Jwt : Type 0 where
  pub encode : Claims → List ℕ
  pub decode : ℕ → List ℕ → Decoded

abbrev pub token_expiration : ℕ
token_expiration = 72

unfoldable pub login_claims : ℕ → ClientConfig → Claims
login_claims now c = record { sub = c.name; jti = identity c; exp = now + token_expiration * 3600 }

-- `str.split()` and `str.lower()` on code points.
is_space : ℕ → Bool
is_space c =
    (leb 9 c && leb c 13)
    || (leb 28 c && leb c 32)
    || c == 0x85
    || c == 0xa0
    || c == 0x1680
    || (leb 0x2000 c && leb c 0x200a)
    || c == 0x2028
    || c == 0x2029
    || c == 0x202f
    || c == 0x205f
    || c == 0x3000

add_word : List ℕ → List (List ℕ) → List (List ℕ)
add_word [] words = words
add_word (c ∷ cs) words = (c ∷ cs) ∷ words

-- `word` is what has been read of the current word.
split_from : List ℕ → List ℕ → List (List ℕ)
unfolding is_space add_word
split_from word [] = add_word word []
split_from word (c ∷ cs) =
    let ended = add_word word (split_from [] cs) in
    let longer = split_from (word ++ c ∷ []) cs in if is_space c then ended else longer

lower : List ℕ → List ℕ
lower [] = []
lower (c ∷ cs) = (if leb b'A' c && leb c b'Z' then c + 32 else c) ∷ lower cs

pub same_text : List ℕ → List ℕ → Bool
same_text [] [] = true
same_text (a ∷ as') (b ∷ bs) = a == b && same_text as' bs
same_text _ _ = false

bearer_token : List (List ℕ) → Reply (List ℕ)
unfolding lower same_text
bearer_token (scheme ∷ token ∷ []) =
    if same_text (lower scheme) (codes "bearer") then pass token else refuse 400
bearer_token _ = refuse 400

decoded_claims : Decoded → Reply (Option Claims)
decoded_claims expired = refuse 401
decoded_claims invalid = refuse 401
decoded_claims (claims c) = pass (some c)

-- The claims that the middleware leaves in the request, if there is an authorization header.
unfoldable pub jwt_token_middleware : Jwt → ℕ → Option (List ℕ) → Reply (Option Claims)
unfolding split_from bearer_token decoded_claims
jwt_token_middleware jwt now none = pass none
jwt_token_middleware jwt now (some []) = pass none
jwt_token_middleware jwt now (some (c ∷ cs)) = do
  token ← bearer_token (split_from [] (c ∷ cs))
  decoded_claims (jwt.decode now token)

unfoldable pub validate_identity : ClientConfig → List ℕ → Bool
unfolding same_text
validate_identity c text = same_text (identity c) text

known_client : Claims → Option ClientConfig → Reply ClientConfig
known_client token none = refuse 401
known_client token (some client) =
    if validate_identity client token.jti then pass client else refuse 401

unfoldable pub login_required : ClientDatabase → Option Claims → Reply ClientConfig
unfolding known_client
login_required db none = refuse 400
login_required db (some token) = known_client token (get_client db token.sub)

unfoldable pub roles_accepted : List String → ClientConfig → Reply (List String)
roles_accepted roles client =
    let matched = has_required_role client roles in
    if is_empty matched then refuse 403 else pass matched

-- The middleware and the two decorators in front of a handler, which gets the client and its roles.
unfoldable pub authorize :
    Jwt → ℕ → ClientDatabase → List String → Option (List ℕ) → Reply (ClientConfig × List String)
authorize jwt now db roles header = do
  token ← jwt_token_middleware jwt now header
  client ← login_required db token
  matched ← roles_accepted roles client
  pass (client, matched)

-- What the JSON body of a login gives: `none` is a missing property.
unfoldable pub api_auth_login : ClientDatabase → ℕ → Option String → Option String → Reply Claims
api_auth_login db now none password = refuse 400
api_auth_login db now (some username) none = refuse 400
api_auth_login db now (some username) (some password) =
    elim (authenticate_client db username password) [
      | none ↦ refuse 401
      | some client ↦ pass (login_claims now client)
    ]

-- The client object of the database is changed where it stands.
unfoldable pub api_auth_logout : ClientDatabase → Option Claims → Reply ClientDatabase
api_auth_logout db none = refuse 400
api_auth_logout db (some token) = do
  client ← login_required db (some token)
  pass (record { clients = put db.clients token.sub (revoke_tokens client) })
