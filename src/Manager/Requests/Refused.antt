-- ===== src/Manager/Requests/Refused.antt =====
-- Which requests workshoprequest.py lets pass.
use educates_training_platfo.Prelude.{
  String, Bool, true, false, ◌≡◌, refl, ◌⊎◌, inl, inr, Option, none, some, List, [], ◌∷◌, given,
  contains, opt_eq, str_eq, Bool-cases, Option-cases, arith, take,
}
use educates_training_platfo.Manager.Requests.Deleted.{serving_refusal}
use educates_training_platfo.Manager.Variables.{occurs_in}
use educates_training_platfo.Manager.Requests.{
  RequestPolicy, RequestEnvironment, RequestResource, SessionDetails, waiting, serving, Sessions,
  permitted_namespaces, policy_refuses, refused_by, workshop_request_create,
}

-- What a policy asks of a request that gets a session.
pub record IsPermitted (r : RequestResource) (policy : RequestPolicy) : Type 0 where
  pub is_enabled : policy.enabled ≡ true
  pub from_first :
      (policy.namespaces ≡ []) ⊎ (contains r.namespace (take 1 policy.namespaces) ≡ true)
  pub has_token : given policy.token ≡ true → opt_eq r.token policy.token ≡ true

passed_parts :
    (r : RequestResource) (enabled : Bool) (ns : List String) (token : Option String)
    → let policy : RequestPolicy = record { enabled = enabled; namespaces = ns; token = token } in
      policy_refuses r policy (permitted_namespaces ns) ≡ none → IsPermitted r policy
unfolding policy_refuses permitted_namespaces
passed_parts r false [] token h = absurd (ground (arith, h))
passed_parts r true [] token h = record {
  is_enabled = refl;
  from_first = inl refl;
  has_token = λ g. ground (arith, h, g);
}
passed_parts r enabled (n ∷ ns) token h = elim (Bool-cases (occurs_in "$(" n)) [
  | inl t ↦ absurd (ground (arith, h, t))
  | inr k ↦ record {
    is_enabled = ground (arith, h, k);
    from_first = inr (ground (arith, h, k));
    has_token = λ g. ground (arith, h, k, g);
  }
]

passed-IsPermitted :
    (r : RequestResource) (policy : RequestPolicy)
    → refused_by r (some policy) ≡ none
    → IsPermitted r policy
unfolding refused_by
passed-IsPermitted r policy h = passed_parts r policy.enabled policy.namespaces policy.token h

-- There is no policy, or the request is one that it permits.
abbrev pub Passes : RequestResource → Option RequestPolicy → Type 0
Passes r stated =
    (stated ≡ none) ⊎ ((policy : RequestPolicy) × (stated ≡ some policy) × IsPermitted r policy)

refused_by-Passes :
    (r : RequestResource) (stated : Option RequestPolicy)
    → refused_by r stated ≡ none
    → Passes r stated
refused_by-Passes r none h = inl refl
refused_by-Passes r (some policy) h = inr (policy, refl, passed-IsPermitted r policy h)

module _ (refuses : String → Bool) (new_uid : String → String) (generated : String) where
  -- A request gets a session only of an environment that is there, and that has no policy for
  -- requests at all, or one where requests are enabled, the request is from the first of the
  -- namespaces that are listed, or none is listed, and it has the token, if there is one.
  pub workshop_request_create-IsPermitted :
      (e : Option RequestEnvironment) (r : RequestResource) (ids : List String)
      (sessions sessions' : Sessions) (d : SessionDetails)
      → workshop_request_create refuses new_uid generated e r ids sessions ≡ (serving d, sessions')
      → (known : RequestEnvironment) × (e ≡ some known) × Passes r known.policy
  unfolding workshop_request_create
  workshop_request_create-IsPermitted none r ids sessions sessions' d h = absurd (ground arith)
  workshop_request_create-IsPermitted (some e) r ids sessions sessions' d h =
      elim (Option-cases (refused_by r e.policy)) [
        | inr (refusal, k) ↦ absurd (serving_refusal r e.policy refusal d k (ground (arith, h, k)))
        | inl k ↦ (e, refl, refused_by-Passes r e.policy k)
      ]

  -- Where requests are enabled and the first namespace that is listed names no variable, a request from
  -- any other namespace, one that is listed further on included, gets no session and is left waiting.
  pub other_namespace_waits :
      (e : RequestEnvironment) (policy : RequestPolicy) (n : String) (ns : List String)
      (r : RequestResource) (ids : List String) (sessions : Sessions)
      → e.policy ≡ some policy
      → policy.enabled ≡ true
      → policy.namespaces ≡ n ∷ ns
      → occurs_in "$(" n ≡ false
      → str_eq r.namespace n ≡ false
      → workshop_request_create refuses new_uid generated (some e) r ids sessions
        ≡ (waiting, sessions)
  unfolding workshop_request_create refused_by policy_refuses permitted_namespaces
  other_namespace_waits e policy n ns r ids sessions p enabled listed k other =
      ground (arith, p, enabled, listed, k, other)
