-- ===== src/Lookup/Remote/Provenance.antt =====
-- What the data of a session, as portals.py, environments.py and sessions.py give it, is about.
use educates_training_platfo.Prelude.{
  ◌≡◌, refl, ap, sym, ◌++◌, default, String, Option, none, some, arith, Bool-cases, inl, inr, given,
  ◌==◌,
}
use educates_training_platfo.Glob.{codes}
use educates_training_platfo.Lookup.Caches.Sessions.{WorkshopSession}
use educates_training_platfo.Lookup.Caches.Portals.{TrainingPortal}
use educates_training_platfo.Lookup.Ranking.{Candidate}
use educates_training_platfo.Lookup.Remote.{
  Http, Outcome, returned, raised, Io, Query, SessionData, SessionReply, logout, login, entered,
  after_logout, activation, session_data, requested, request_body, reacquired, reacquire_body,
  client_session, reacquire_workshop_session, request_workshop_session,
}

-- The data names the cluster, the portal and the environment of a candidate.
abbrev pub Names : SessionData → Candidate → Type 0
Names d c =
    (d.cluster_name ≡ c.cluster.name)
    × (d.portal_name ≡ c.portal.name)
    × (d.environment_name ≡ c.environment.name)

-- The data names the session and the user.
abbrev pub IsFor : SessionData → Option String → Option String → Type 0
IsFor d name user = (d.session_name ≡ name) × (d.client_user_id ≡ user)

-- The address that a portal's answer leads to.
abbrev Leads : SessionData → Candidate → String → Type 0
Leads d c url = d.session_activation_url ≡ codes (default "None" c.portal.url) ++ codes url

-- The candidate's portal, when it was asked for a session in the candidate's environment, answered with
-- the name and the address that are given, which are given to the user of the query.
pub record IsAnswer {W : Type 0} (http : Http W) (c : Candidate) (query : Query) (d : SessionData)
    : Type 0 where
  pub token : Option String
  pub asked_at : W
  pub url : String
  pub answered :
      (http.get_request c.portal token c.environment.name query asked_at).0
      ≡ SessionReply.response 200 (some url) d.session_name
  pub address : Leads d c url
  pub for_user : d.client_user_id ≡ query.user

module _ {W : Type 0} (http : Http W) where
  entered-returned :
      {A : Type 0} (portal : TrainingPortal) (body : Option String → Io W A)
      (start : Outcome (Option String) × W) (a : A)
      → (entered http portal body start).0 ≡ returned a
      → (token : Option String) × (v : W) × ((body token v).0 ≡ returned a)
  unfolding entered after_logout
  entered-returned portal body (raised, w) a h = absurd (ground arith)
  entered-returned portal body (returned token, w) a h =
      (token, w, elim-left (logout http portal token (body token w).1).0 h)
    where
      elim-left :
          (left : Outcome (Unit {0}))
          → after_logout http left (body token w).0 ≡ returned a
          → (body token w).0 ≡ returned a
      elim-left (returned _) e = e
      elim-left raised e = absurd (ground arith)

  -- A session with a portal returns what its body returns.
  client_session-returned :
      {A : Type 0} (portal : TrainingPortal) (body : Option String → Io W A) (w : W) (a : A)
      → (client_session http portal body w).0 ≡ returned a
      → (token : Option String) × (v : W) × ((body token v).0 ≡ returned a)
  unfolding client_session
  client_session-returned portal body w a h = entered-returned portal body (login http portal w) a h

  activation-Names :
      (c : Candidate) (name user url : Option String) (d : SessionData)
      → activation http c.cluster c.portal c.environment.name name user url ≡ some d
      → Names d c × IsFor d name user
  unfolding activation session_data
  activation-Names c name user none d h = absurd (ground arith)
  activation-Names c name user (some url) d h = elim (Bool-cases (given (some url))) [
    | inl t ↦
        let e : session_data http c.cluster c.portal c.environment.name name user url ≡ d =
          ground (arith, t) in
        (
          (
            ap (λ (x : SessionData). x.cluster_name) (sym e),
            ap (λ (x : SessionData). x.portal_name) (sym e),
            ap (λ (x : SessionData). x.environment_name) (sym e),
          ),
          (
            ap (λ (x : SessionData). x.session_name) (sym e),
            ap (λ (x : SessionData). x.client_user_id) (sym e),
          ),
        )
    | inr f ↦ absurd (ground arith)
  ]

  activation-Leads :
      (c : Candidate) (name user url : Option String) (d : SessionData)
      → activation http c.cluster c.portal c.environment.name name user url ≡ some d
      → (u : String) × (url ≡ some u) × Leads d c u
  unfolding activation session_data
  activation-Leads c name user none d h = absurd (ground arith)
  activation-Leads c name user (some url) d h = elim (Bool-cases (given (some url))) [
    | inl t ↦
        let e : session_data http c.cluster c.portal c.environment.name name user url ≡ d =
          ground (arith, t) in
        (url, refl, ap (λ (x : SessionData). x.session_activation_url) (sym e))
    | inr f ↦ absurd (ground arith)
  ]

  requested-Names :
      (c : Candidate) (user : Option String) (reply : SessionReply) (d : SessionData)
      → requested http c user reply ≡ returned (some d)
      → Names d c
        × (d.client_user_id ≡ user)
        × ((url : String) × (reply ≡ SessionReply.response 200 (some url) d.session_name)
            × Leads d c url)
  unfolding requested
  requested-Names c user SessionReply.unreachable d h = absurd (ground arith)
  requested-Names c user SessionReply.client_error d h = absurd (ground arith)
  requested-Names c user SessionReply.failure d h = absurd (ground arith)
  requested-Names c user (SessionReply.response status url name) d h =
      elim (Bool-cases (status == 200)) [
        | inl t ↦
            let (named, own) = activation-Names c name user url d (ground (arith, t)) in
            let (u, is, leads) = activation-Leads c name user url d (ground (arith, t)) in
            let ok : status ≡ 200 = ground (arith, t) in
            (named, own.1, (u, ground (arith, ok, is, own.0), leads))
        | inr f ↦ absurd (ground (arith, f))
      ]

  reacquired-Names :
      (c : Candidate) (s : WorkshopSession) (reply : SessionReply) (d : SessionData)
      → reacquired http c s reply ≡ returned (some d)
      → Names d c × IsFor d (some s.name) s.user
  unfolding reacquired
  reacquired-Names c s SessionReply.unreachable d h = absurd (ground arith)
  reacquired-Names c s SessionReply.client_error d h = absurd (ground arith)
  reacquired-Names c s SessionReply.failure d h = absurd (ground arith)
  reacquired-Names c s (SessionReply.response status url name) d h =
      elim (Bool-cases (status == 200)) [
        | inl t ↦ activation-Names c (some s.name) s.user url d (ground (arith, t))
        | inr f ↦ absurd (ground (arith, f))
      ]

  pub request_workshop_session-Names :
      (c : Candidate) (query : Query) (w : W) (d : SessionData)
      → (request_workshop_session http c query w).0 ≡ returned (some d)
      → Names d c × IsAnswer http c query d
  unfolding request_workshop_session request_body
  request_workshop_session-Names c query w d h =
      let (token, v, e) = client_session-returned c.portal (request_body http c query) w _ h in
      let reply = (http.get_request c.portal token c.environment.name query v).0 in
      elim (Bool-cases (given token)) [
        | inl t ↦
            let (named, user, (url, answered, leads)) =
              requested-Names c query.user reply d (ground (arith, t, e)) in
            (
              named,
              record {
                token = token;
                asked_at = v;
                url = url;
                answered = answered;
                address = leads;
                for_user = user;
              },
            )
        | inr f ↦ absurd (ground (arith, f, e))
      ]

  reacquire_body-Names :
      (c : Candidate) (s : WorkshopSession) (query : Query) (token : Option String) (v : W)
      (d : SessionData)
      → (reacquire_body http c s query token v).0 ≡ returned (some d)
      → Names d c × IsFor d (some s.name) s.user
  unfolding reacquire_body
  reacquire_body-Names c s query token v d e =
      let reply = (http.get_request c.portal token c.environment.name query v).0 in
      elim (Bool-cases (given token)) [
        | inr f ↦ absurd (ground (arith, f, e))
        | inl t ↦ elim (Bool-cases (given (some s.name))) [
          | inl u ↦ reacquired-Names c s reply d (ground (arith, t, u, e))
          | inr f ↦ absurd (ground (arith, t, f, e))
        ]
      ]

  pub reacquire_workshop_session-Names :
      (c : Candidate) (s : WorkshopSession) (index_url : String) (w : W) (d : SessionData)
      → (reacquire_workshop_session http c s index_url w).0 ≡ returned (some d)
      → Names d c × IsFor d (some s.name) s.user
  unfolding reacquire_workshop_session
  reacquire_workshop_session-Names c s index_url w d h =
      let (token, v, e) = client_session-returned c.portal _ w _ h in
      reacquire_body-Names c s _ token v d e
