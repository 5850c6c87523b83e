-- ===== src/Lookup/Remote.antt =====
-- `TrainingPortalClientSession` of lookup-service/service/caches/portals.py, and the two methods of
-- environments.py and sessions.py that use it. The HTTP client (aiohttp) and all that happens while
-- a request waits are a parameter: each call takes the state of the world and gives a reply and the
-- state after it. `raised` is an exception that the code does not catch.
pub mod Provenance
use educates_training_platfo.Prelude.{
  ℕ, String, ◌==◌, Option, none, some, List, [], ◌∷◌, ◌++◌, default, given, if◌then◌else◌,
}
use educates_training_platfo.Glob.{codes}
use educates_training_platfo.Lookup.Caches.Sessions.{WorkshopSession}
use educates_training_platfo.Lookup.Caches.Portals.{TrainingPortal}
use educates_training_platfo.Lookup.Caches.Clusters.{ClusterConfig}
use educates_training_platfo.Lookup.Ranking.{Candidate}

-- The replies to the calls. `unreachable` is aiohttp's `ClientConnectorError`, `client_error` any
-- other `ClientError` and `failure` any other exception.
pub data TokenReply : Type 0 where
  unreachable client_error failure : TokenReply
  response : (status : ℕ) (access_token : Option String) → TokenReply

pub data SessionReply : Type 0 where
  unreachable client_error failure : SessionReply
  response : (status : ℕ) (url name : Option String) → SessionReply

pub data RevokeReply : Type 0 where
  unreachable client_error failure : RevokeReply
  response : (status : ℕ) → RevokeReply

-- The query of a request for a session. `session` is set to get an existing one back.
pub record Query : Type 0 where
  pub index_url : String
  pub user : Option String
  pub session : Option String
  pub email : String
  pub first_name : String
  pub last_name : String
  pub analytics_url : String
  pub parameters : List (String × String)

pub record Http (W : Type 0) : Type 0 where
  pub post_token : TrainingPortal → W → TokenReply × W
  pub post_revoke_token : TrainingPortal → Option String → W → RevokeReply × W
  pub get_request : TrainingPortal → Option String → String → Query → W → SessionReply × W

pub data Outcome {ℓ} (A : Type ℓ) : Type ℓ where
  returned : A → Outcome A
  raised : Outcome A

abbrev pub Io : Type 0 → Type 0 → Type 0
Io W A = W → Outcome A × W

-- The data of a session, as it is sent to the client. The address is made of two texts.
pub record SessionData : Type 0 where
  pub cluster_name : String
  pub portal_name : String
  pub environment_name : String
  pub session_name : Option String
  pub client_user_id : Option String
  pub session_activation_url : List ℕ

module _ {W : Type 0} (http : Http W) where
  token_of : TokenReply → Outcome (Option String)
  token_of TokenReply.unreachable = returned none
  token_of TokenReply.client_error = raised
  token_of TokenReply.failure = raised
  token_of (TokenReply.response status access_token) =
      if status == 200 then returned access_token else returned none

  -- The access token that is left in the session, if any.
  unfoldable pub login : TrainingPortal → Io W (Option String)
  unfolding token_of
  login portal w = let (reply, w') = http.post_token portal w in (token_of reply, w')

  revoked : RevokeReply → Outcome (Unit {0})
  revoked RevokeReply.unreachable = returned tt
  revoked RevokeReply.client_error = raised
  revoked RevokeReply.failure = raised
  revoked (RevokeReply.response status) = returned tt

  unfoldable pub logout : TrainingPortal → Option String → Io W (Unit {0})
  unfolding revoked
  logout portal token w =
      let (reply, w') = http.post_revoke_token portal token w in
      if given token then (revoked reply, w') else (returned tt, w)

  after_logout {ℓ} : {A : Type ℓ} → Outcome (Unit {0}) → Outcome A → Outcome A
  after_logout (returned _) result = result
  after_logout raised result = raised

  entered :
      {A : Type 0}
      → TrainingPortal
      → (Option String → Io W A)
      → Outcome (Option String) × W
      → Outcome A × W
  unfolding after_logout
  entered portal body (raised, w) = (raised, w)
  entered portal body (returned token, w) =
      let (result, w') = body token w in
      let (left, w'') = logout portal token w' in (after_logout left result, w'')

  -- `async with portal.client_session(…) as portal_client`: the body gets the access token, and the
  -- logout follows however the body ends.
  unfoldable pub client_session : {A : Type 0} → TrainingPortal → (Option String → Io W A) → Io W A
  unfolding entered
  client_session portal body w = entered portal body (login portal w)

  session_data :
      ClusterConfig → TrainingPortal → String → Option String → Option String → String → SessionData
  session_data cluster portal environment_name session_name user_id url = record {
    cluster_name = cluster.name;
    portal_name = portal.name;
    environment_name = environment_name;
    session_name = session_name;
    client_user_id = user_id;
    session_activation_url = codes (default "None" portal.url) ++ codes url;
  }

  activation :
      ClusterConfig
      → TrainingPortal
      → String
      → Option String
      → Option String
      → Option String
      → Option SessionData
  unfolding session_data
  activation cluster portal environment_name session_name user_id none = none
  activation cluster portal environment_name session_name user_id (some url) =
      if given (some url)
      then some (session_data cluster portal environment_name session_name user_id url)
      else none

  reacquired : Candidate → WorkshopSession → SessionReply → Outcome (Option SessionData)
  unfolding activation
  reacquired c s SessionReply.unreachable = returned none
  reacquired c s SessionReply.client_error = raised
  reacquired c s SessionReply.failure = raised
  reacquired c s (SessionReply.response status url name) =
      if status == 200
      then returned (activation c.cluster c.portal c.environment.name (some s.name) s.user url)
      else returned none

  -- With a token, and a session name that is not empty.
  unfoldable pub reacquire_body :
      Candidate → WorkshopSession → Query → Option String → Io W (Option SessionData)
  unfolding reacquired
  reacquire_body c s query token w =
      let (reply, w') = http.get_request c.portal token c.environment.name query w in
      if given token
      then (if given (some s.name) then (reacquired c s reply, w') else (returned none, w))
      else (returned none, w)

  unfoldable pub reacquire_workshop_session :
      Candidate → WorkshopSession → String → Io W (Option SessionData)
  reacquire_workshop_session c s index_url = client_session c.portal (
      reacquire_body c s (record {
        index_url = index_url;
        user = s.user;
        session = some s.name;
        email = "";
        first_name = "";
        last_name = "";
        analytics_url = "";
        parameters = [];
      }))

  -- Every exception is caught here.
  requested : Candidate → Option String → SessionReply → Outcome (Option SessionData)
  unfolding activation
  requested c user (SessionReply.response status url name) =
      if status == 200
      then returned (activation c.cluster c.portal c.environment.name name user url)
      else returned none
  requested c user _ = returned none

  unfoldable pub request_body : Candidate → Query → Option String → Io W (Option SessionData)
  unfolding requested
  request_body c query token w =
      let (reply, w') = http.get_request c.portal token c.environment.name query w in
      if given token then (requested c query.user reply, w') else (returned none, w)

  unfoldable pub request_workshop_session : Candidate → Query → Io W (Option SessionData)
  request_workshop_session c query = client_session c.portal (request_body c query)
