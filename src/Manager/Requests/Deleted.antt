-- ===== src/Manager/Requests/Deleted.antt =====
-- A request that gets a session, and its deletion.
use educates_training_platfo.Prelude.{
  String, Bool, true, ◌≡◌, inl, inr, Option, none, some, List, [], ◌∷◌, str_eq_refl, Bool-cases,
  Option-cases, arith, subst, sym,
}
use educates_training_platfo.Dict.{get, put, get-put_self, pop-put_absent}
use educates_training_platfo.Manager.Requests.{
  RequestPolicy, RequestEnvironment, RequestResource, SessionDetails, RequestResult, serving,
  Sessions, details_of, session_name_from, created_instance, session_details, try_names, refused_by,
  policy_refuses, permitted_namespaces, workshop_request_create, is_of_request,
  workshop_request_delete,
}

-- The session of the details is new, and is the only change.
pub record IsNew (new_uid : String → String) (r : RequestResource) (sessions sessions' : Sessions)
    (d : SessionDetails) : Type 0 where
  pub absent : get sessions d.name ≡ none
  pub added : sessions' ≡ put sessions d.name (created_instance new_uid r d.name)

pub serving_refusal :
    (r : RequestResource) (policy : Option RequestPolicy) (refusal : RequestResult)
    (d : SessionDetails)
    → refused_by r policy ≡ some refusal
    → refusal ≡ serving d
    → ⊥
unfolding refused_by policy_refuses
serving_refusal r none refusal d h k = ground (arith, h)
serving_refusal r (some p) refusal d h k = elim (Option-cases (permitted_namespaces p.namespaces)) [
  | inl n ↦ ground (arith, h, k, n)
  | inr (ns, n) ↦ ground (arith, h, k, n)
]

of_request : (r : RequestResource) → is_of_request r (some (details_of r)) ≡ true
unfolding is_of_request details_of
of_request r = ground (arith, str_eq_refl r.namespace, str_eq_refl r.name, str_eq_refl r.uid)

module _ (refuses : String → Bool) (new_uid : String → String) (generated : String) where
  try_names-IsNew :
      (e : RequestEnvironment) (r : RequestResource) (ids : List String)
      (sessions sessions' : Sessions) (d : SessionDetails)
      → try_names refuses new_uid generated e r ids sessions ≡ (serving d, sessions')
      → IsNew new_uid r sessions sessions' d
  unfolding try_names session_details created_instance
  try_names-IsNew e r [] sessions sessions' d h = absurd (ground (arith, h))
  try_names-IsNew e r (id ∷ ids) sessions sessions' d h =
      let name = session_name_from e id in
      elim (Option-cases (get sessions name)) [
        | inr (s, k) ↦ try_names-IsNew e r ids sessions sessions' d (ground (arith, h, k))
        | inl k ↦ elim (Bool-cases (refuses name)) [
          | inl t ↦ absurd (ground (arith, h, k, t))
          | inr n ↦
              let same : session_details new_uid generated e name ≡ d = ground (arith, h, k, n) in
              rw (← same) (record { absent = k; added = ground (arith, h, k, n) })
        ]
      ]

  -- A request that gets a session and is then deleted leaves the sessions of the cluster as they
  -- were before.
  pub workshop_request_delete-create :
      (e : Option RequestEnvironment) (r : RequestResource) (ids : List String)
      (sessions sessions' : Sessions) (d : SessionDetails)
      → workshop_request_create refuses new_uid generated e r ids sessions ≡ (serving d, sessions')
      → workshop_request_delete r (some d.name) sessions' ≡ sessions
  unfolding workshop_request_create workshop_request_delete created_instance
  workshop_request_delete-create none r ids sessions sessions' d h = absurd (ground (arith, h))
  workshop_request_delete-create (some e) r ids sessions sessions' d h =
      elim (Option-cases (refused_by r e.policy)) [
        | inr (refusal, k) ↦ absurd (serving_refusal r e.policy refusal d k (ground (arith, h, k)))
        | inl k ↦
            let fresh = try_names-IsNew e r ids sessions sessions' d (ground (arith, h, k)) in
            let made = created_instance new_uid r d.name in
            subst (λ (v : Sessions). workshop_request_delete r (some d.name) v ≡ sessions)
              (sym fresh.added)
              (rw (get-put_self sessions d.name made, workshop_request_delete)
                (rw (of_request r) (pop-put_absent sessions d.name made fresh.absent)))
      ]
