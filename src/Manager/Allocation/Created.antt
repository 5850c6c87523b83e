-- ===== src/Manager/Allocation/Created.antt =====
-- The objects that workshop_allocation_create creates.
use mathlib.Core.List.{append-nil, append_assoc}
use educates_training_platfo.Manager.Allocation.Copies.{AreCopies, AreCopies-snoc, prepared-IsCopy}
use educates_training_platfo.Manager.Allocation.Labels.{
  Keeps, IsOfSession, labelled-HasLabels, adopted-HasLabels, finished-IsOfSession,
}
use educates_training_platfo.Prelude.{
  ℕ, String, Bool, true, ◌≡◌, refl, Option, none, some, List, [], ◌∷◌, ◌++◌, truthy, inl, inr,
  Bool-cases, Option-cases, arith, leb, All, All-append, subst,
}
use educates_training_platfo.Dict.{Dict}
use educates_training_platfo.Manager.Allocation.{
  create_objects, create_all, workshop_allocation_create, prepared,
}
use educates_training_platfo.Manager.Allocation.State.{
  Metadata, RequestObject, EnvironmentInstance, Allocation, Phase, allocated, Outcome, done, raised,
  Indexes, AllocationResult,
}
use educates_training_platfo.Manager.Allocation.Waiting.{
  patience, session_secret, request_secret, user_secret, unavailable, no_session, no_session_secret,
  no_request_secret,
}
use educates_training_platfo.Manager.Allocation.Objects.{
  labelled, substitute_object, all_data_variables, and_then,
}

abbrev pub IsDone : Outcome → Type 0
IsDone done = Unit
IsDone _ = ⊥

-- `Whole` is what is said of the objects of a run that was not broken off.
pub record IsMade (a : Allocation) (workshop_name : Option String)
    (Whole : List RequestObject → Type 0) (r : AllocationResult) : Type 0 where
  pub of_session : All (IsOfSession a workshop_name) r.created
  pub whole : IsDone r.outcome → (r.status ≡ some allocated) × Whole r.created
  pub only_whole : r.status ≡ some allocated → IsDone r.outcome

-- The objects are copies of the environment's, and the variables and the objects could be read.
abbrev pub CopiesOf :
    (String → String)
    → Option (Dict String)
    → Option (List RequestObject)
    → List RequestObject
    → Type 0
CopiesOf b64encode variables objects created =
    (vs : Dict String) × (os : List RequestObject) × (variables ≡ some vs)
    × (objects ≡ some os)
    × AreCopies b64encode vs os created

module _ (a : Allocation) (named : truthy a.session_name ≡ true)
    (workshop_name : Option String) where
  -- Where a run ends before its last object.
  stopped :
      {Whole : List RequestObject → Type 0} {made : List RequestObject}
      → All (IsOfSession a workshop_name) made
      → (status : Option Phase) (outcome : Outcome) → (IsDone outcome → ⊥)
      → (status ≡ some allocated → ⊥)
      → IsMade a workshop_name Whole (record { status = status; outcome = outcome; created = made })
  stopped h status outcome p q = record {
    of_session = h;
    whole = λ d. absurd (p d);
    only_whole = λ e. absurd (q e);
  }

  unavailable-IsMade :
      (runtime : ℕ) (Whole : List RequestObject → Type 0) (m f w : String)
      → IsMade a workshop_name Whole (unavailable runtime m f w)
  unfolding unavailable
  unavailable-IsMade runtime Whole m f w = elim (Bool-cases (leb patience runtime)) [
    | inl t ↦ rw t (stopped tt _ _ (λ p. p) (λ e. ground (arith, e)))
    | inr k ↦ rw k (stopped tt _ _ (λ p. p) (λ e. ground (arith, e)))
  ]

  module _ (b64encode : String → String) (b64decode : String → Option String)
      (adopt : Metadata → Metadata) (accepts : List RequestObject → RequestObject → Bool)
      (keeps : Keeps adopt) where
    prepared-IsOfSession :
        (variables : Dict String) (o q : RequestObject)
        → prepared b64encode b64decode adopt accepts a workshop_name variables o ≡ some q
        → IsOfSession a workshop_name q
    unfolding prepared
    prepared-IsOfSession variables o q e =
        let o' = substitute_object b64encode variables o in
        elim (Option-cases o'.metadata) [
          | inl n ↦ absurd (ground (arith, e, n))
          | inr (m, k) ↦
              finished-IsOfSession a named workshop_name o' q (adopt (labelled a workshop_name m))
                (adopted-HasLabels a named workshop_name adopt keeps (labelled a workshop_name m)
                  (labelled-HasLabels a named workshop_name m))
                (ground (arith, e, k))
        ]

    create_objects-IsMade :
        (variables : Dict String) (before made os : List RequestObject)
        → AreCopies b64encode variables before made
        → All (IsOfSession a workshop_name) made
        → IsMade a workshop_name
            (AreCopies b64encode variables (before ++ os))
            (create_objects b64encode b64decode adopt accepts a workshop_name variables made os)
    unfolding create_objects
    create_objects-IsMade variables before made [] same h = record {
      of_session = h;
      whole = λ _. (refl, rw append-nil same);
      only_whole = λ _. tt;
    }
    create_objects-IsMade variables before made (o ∷ os) same h =
        let prepare = prepared b64encode b64decode adopt accepts a workshop_name variables in
        elim (Option-cases (prepare o)) [
          | inl n ↦ rw (n, create_objects) (stopped h none raised (λ p. p) (λ e. ground (arith, e)))
          | inr (q, k) ↦ elim (Bool-cases (accepts made q)) [
            | inr n ↦
                rw (k, create_objects)
                  (rw (n, create_objects) (stopped h _ _ (λ p. p) (λ e. ground (arith, e))))
            | inl t ↦
                rw (k, create_objects)
                  (rw (t, create_objects)
                    (subst
                      (λ (all_of : List RequestObject).
                        IsMade a workshop_name (AreCopies b64encode variables all_of) (
                          create_objects b64encode b64decode adopt accepts a workshop_name variables
                            (made ++ q ∷ []) os))
                      (append_assoc before (o ∷ []) os)
                      (create_objects-IsMade variables (before ++ o ∷ []) (made ++ q ∷ []) os
                        (AreCopies-snoc b64encode variables before made o q same (
                          prepared-IsCopy b64encode b64decode adopt accepts keeps.keeps_name a
                            workshop_name variables o q k))
                        (All-append (IsOfSession a workshop_name) made (q ∷ []) h
                          (prepared-IsOfSession variables o q k, tt)))))
          ]
        ]

    create_all-IsMade :
        (e : EnvironmentInstance) (variables : Option (Dict String))
        → e.workshop_name ≡ workshop_name
        → IsMade a workshop_name
            (CopiesOf b64encode variables e.objects)
            (create_all b64encode b64decode adopt accepts a e variables)
    unfolding create_all
    create_all-IsMade e none same = stopped tt none raised (λ p. p) (λ h. ground (arith, h))
    create_all-IsMade e (some variables) same = elim (Option-cases e.objects) [
      | inl n ↦ rw (n, create_all) (stopped tt none raised (λ p. p) (λ h. ground (arith, h)))
      | inr (os, k) ↦
          let made = create_objects-IsMade variables [] [] os tt tt in
          rw (k, same, create_all)
            (record {
              of_session = made.of_session;
              whole = λ d. ((made.whole d).0, (variables, os, refl, refl, (made.whole d).1));
              only_whole = made.only_whole;
            })
    ]

-- The variables of a session: those of the three secrets that the operator knows.
abbrev pub variables_of : (String → Option String) → Indexes → Allocation → Option (Dict String)
variables_of b64decode x a =
    and_then (x.session_variables a.environment_name (session_secret a)) λ session.
      and_then (x.request_variables a.environment_name (request_secret a)) λ request.
        and_then (x.request_variables a.environment_name (user_secret a))
          λ user. all_data_variables b64decode request user session

-- Where `adopt` keeps what is there, the session has a name, and the operator knows the environment:
-- every object that an allocation creates has a namespace and the labels of the session; the
-- allocation is allocated exactly when the run ends without an error, and then what was created is, in
-- order and one for one, the request objects of the environment, each with its version, kind, name (if
-- it has one) and contents, in which the variables of the session's three secrets are replaced.
pub workshop_allocation_create-IsMade :
    (b64encode : String → String) (b64decode : String → Option String) (adopt : Metadata → Metadata)
    (accepts : List RequestObject → RequestObject → Bool) (runtime : ℕ) (x : Indexes)
    (a : Allocation) (e : EnvironmentInstance)
    → Keeps adopt
    → truthy a.session_name ≡ true
    → x.environment a.environment_name ≡ some e
    → IsMade a e.workshop_name
        (CopiesOf b64encode (variables_of b64decode x a) e.objects)
        (workshop_allocation_create b64encode b64decode adopt accepts runtime x a)
unfolding workshop_allocation_create
workshop_allocation_create-IsMade b64encode b64decode adopt accepts runtime x a e keeps named ee =
    let late = unavailable-IsMade a named e.workshop_name runtime in
    elim (Bool-cases (x.session a.session_name)) [
      | inr s ↦ rw (ee, s, workshop_allocation_create) (unfold no_session in late _ _ _ _)
      | inl s ↦ elim (Option-cases (x.session_variables a.environment_name (session_secret a))) [
        | inl v ↦
            rw (ee, s, v, workshop_allocation_create) (unfold no_session_secret in late _ _ _ _)
        | inr (v, ev) ↦
            elim (Option-cases (x.request_variables a.environment_name (request_secret a))) [
              | inl q ↦
                  rw (ee, s, ev, q, workshop_allocation_create)
                    (unfold no_request_secret in late _ _ _ _)
              | inr (q, eq) ↦
                  elim (Option-cases (x.request_variables a.environment_name (user_secret a))) [
                    | inl u ↦
                        rw (ee, s, ev, eq, u, workshop_allocation_create)
                          (unfold no_request_secret in late _ _ _ _)
                    | inr (u, eu) ↦
                        rw (ee, s, ev, eq, eu, workshop_allocation_create)
                          (create_all-IsMade a named e.workshop_name b64encode b64decode adopt
                            accepts keeps e (all_data_variables b64decode q u v) refl)
                  ]
            ]
      ]
    ]
