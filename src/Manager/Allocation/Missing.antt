-- ===== src/Manager/Allocation/Missing.antt =====
-- What workshop_allocation_create does while something that it needs is not there yet.
use educates_training_platfo.Prelude.{
  ℕ, String, Bool, true, false, ◌&&◌, ◌≡◌, refl, Option, some, List, [], leb, is_some, inl, inr,
  Bool-cases, Option-cases, arith,
}
use educates_training_platfo.Manager.Allocation.{workshop_allocation_create}
use educates_training_platfo.Manager.Allocation.State.{
  Metadata, RequestObject, Allocation, Phase, pending, failed, Outcome, permanent_error,
  temporary_error, Indexes, AllocationResult,
}
use educates_training_platfo.Manager.Allocation.Waiting.{
  patience, unavailable, session_secret, request_secret, user_secret, no_environment, no_session,
  no_session_secret, no_request_secret,
}

-- Everything that an allocation needs is known to the operator.
abbrev pub present : Indexes → Allocation → Bool
present x a =
    is_some (x.environment a.environment_name)
    && x.session a.session_name
    && is_some (x.session_variables a.environment_name (session_secret a))
    && is_some (x.request_variables a.environment_name (request_secret a))
    && is_some (x.request_variables a.environment_name (user_secret a))

abbrev pub IsTemporary : Outcome → Type 0
IsTemporary (temporary_error s n) = Unit
IsTemporary _ = ⊥

abbrev pub IsPermanent : Outcome → Type 0
IsPermanent (permanent_error s) = Unit
IsPermanent _ = ⊥

abbrev pub IsFailed : Option Phase → Type 0
IsFailed (some (failed s)) = Unit
IsFailed _ = ⊥

-- What comes of a run for which something is missing.
pub record Waits (runtime : ℕ) (r : AllocationResult) : Type 0 where
  pub nothing_created : r.created ≡ []
  pub in_time : leb patience runtime ≡ false → (r.status ≡ some pending) × IsTemporary r.outcome
  pub too_late : leb patience runtime ≡ true → IsFailed r.status × IsPermanent r.outcome

unavailable-Waits : (runtime : ℕ) (m f w : String) → Waits runtime (unavailable runtime m f w)
unfolding unavailable
unavailable-Waits runtime m f w = elim (Bool-cases (leb patience runtime)) [
  | inl t ↦ rw t (record {
    nothing_created = refl;
    in_time = λ h. absurd (ground (arith, h));
    too_late = λ h. (tt, tt);
  })
  | inr n ↦ rw n (record {
    nothing_created = refl;
    in_time = λ h. (refl, tt);
    too_late = λ h. absurd (ground (arith, h));
  })
]

module _ (b64encode : String → String) (b64decode : String → Option String)
    (adopt : Metadata → Metadata) (accepts : List RequestObject → RequestObject → Bool) where
  -- While the operator does not know the environment, the session or one of the three secrets of
  -- variables, an allocation creates nothing: for 45 seconds it is pending and is tried again, and
  -- then it has failed and is not tried again.
  pub workshop_allocation_create-Waits :
      (runtime : ℕ) (x : Indexes) (a : Allocation)
      → present x a ≡ false
      → Waits runtime (workshop_allocation_create b64encode b64decode adopt accepts runtime x a)
  unfolding workshop_allocation_create no_environment no_session no_session_secret no_request_secret
  workshop_allocation_create-Waits runtime x a h =
      elim (Option-cases (x.environment a.environment_name)) [
        | inl e ↦ rw (e, workshop_allocation_create) (unavailable-Waits runtime _ _ _)
        | inr (e, ee) ↦ elim (Bool-cases (x.session a.session_name)) [
          | inr s ↦ rw (ee, s, workshop_allocation_create) (unavailable-Waits runtime _ _ _)
          | inl s ↦
              elim (Option-cases (x.session_variables a.environment_name (session_secret a))) [
                | inl v ↦
                    rw (ee, s, v, workshop_allocation_create) (unavailable-Waits runtime _ _ _)
                | inr (v, ev) ↦
                    elim (Option-cases
                      (x.request_variables a.environment_name (request_secret a))) [
                        | inl q ↦
                            rw (ee, s, ev, q, workshop_allocation_create)
                              (unavailable-Waits runtime _ _ _)
                        | inr (q, eq) ↦
                            elim (Option-cases
                              (x.request_variables a.environment_name (user_secret a))) [
                                | inl u ↦
                                    rw (ee, s, ev, eq, u, workshop_allocation_create)
                                      (unavailable-Waits runtime _ _ _)
                                | inr (u, eu) ↦ absurd (ground (arith, h, ee, s, ev, eq, eu))
                              ]
                      ]
              ]
        ]
      ]
