-- ===== src/Manager/Allocation/Copies.antt =====
-- What workshopallocation.py keeps of a request object in the object that it creates.
use educates_training_platfo.Prelude.{
  Bool, String, ◌≡◌, refl, ◌∙◌, ◌⊎◌, inl, inr, true, Option, none, some, List, [], ◌∷◌, ◌++◌,
  Bool-cases, Option-cases, arith, is_some,
}
use educates_training_platfo.Dict.{Dict}
use educates_training_platfo.Manager.Variables.{substitute_text, substitute_variables}
use educates_training_platfo.Manager.Allocation.{prepared}
use educates_training_platfo.Manager.Allocation.State.{Metadata, RequestObject, Allocation}
use educates_training_platfo.Manager.Allocation.Objects.{
  labelled, is_namespace, excluded, finished, is_complete, substitute_object, substitute_metadata,
}

-- Of a text that may be missing.
abbrev pub IsReplaced : (String → String) → Option String → Option String → Type 0
IsReplaced f none none = Unit
IsReplaced f (some s) (some t) = t ≡ f s
IsReplaced f _ _ = ⊥

-- The object `q` has the version, the kind, the name and the contents of `o`, with the variables
-- replaced. Only a missing name is left to `adopt`.
pub record IsCopy (b64encode : String → String) (variables : Dict String) (o q : RequestObject)
    : Type 0 where
  pub same_version : IsReplaced (substitute_text b64encode variables) o.api_version q.api_version
  pub same_kind : IsReplaced (substitute_text b64encode variables) o.kind q.kind
  pub same_rest : q.rest ≡ substitute_variables b64encode variables o.rest
  pub original : Metadata
  pub is_original : o.metadata ≡ some original
  pub created : Metadata
  pub is_created : q.metadata ≡ some created
  pub same_name :
      (original.name ≡ none)
      ⊎ IsReplaced (substitute_text b64encode variables) original.name created.name

-- One for one, in the same order.
abbrev pub AreCopies :
    (String → String) → Dict String → List RequestObject → List RequestObject → Type 0
AreCopies b64encode variables [] [] = Unit
AreCopies b64encode variables (o ∷ os) (q ∷ qs) =
    IsCopy b64encode variables o q × AreCopies b64encode variables os qs
AreCopies b64encode variables _ _ = ⊥

pub AreCopies-snoc :
    (b64encode : String → String) (variables : Dict String) (os qs : List RequestObject)
    (o q : RequestObject)
    → AreCopies b64encode variables os qs
    → IsCopy b64encode variables o q
    → AreCopies b64encode variables (os ++ o ∷ []) (qs ++ q ∷ [])
AreCopies-snoc b64encode variables [] [] o q h k = (k, tt)
AreCopies-snoc b64encode variables [] (q' ∷ qs) o q h k = absurd h
AreCopies-snoc b64encode variables (o' ∷ os) [] o q h k = absurd h
AreCopies-snoc b64encode variables (o' ∷ os) (q' ∷ qs) o q h k =
    (h.0, AreCopies-snoc b64encode variables os qs o q h.1 k)

IsReplaced-map :
    (f : String → String) (o : Option String)
    → IsReplaced f o (elim o [ none ↦ none | some s ↦ some (f s) ])
IsReplaced-map f none = tt
IsReplaced-map f (some s) = refl

-- What `adopt` does to a name.
abbrev pub KeepsName : (Metadata → Metadata) → Type 0
KeepsName adopt = (m : Metadata) → is_some m.name ≡ true → (adopt m).name ≡ m.name

adopted_name :
    (adopt : Metadata → Metadata)
    → KeepsName adopt
    → (f : String → String) (original : Option String) (m : Metadata)
    → m.name ≡ elim original [ none ↦ none | some s ↦ some (f s) ]
    → (original ≡ none) ⊎ IsReplaced f original (adopt m).name
adopted_name adopt keeps f none m h = inl refl
adopted_name adopt keeps f (some s) m h = inr (rw (keeps m (rw h refl) ∙ h) refl)

labelled_name :
    (f : String → String) (a : Allocation) (workshop_name : Option String) (m : Metadata)
    → (labelled a workshop_name (substitute_metadata f m)).name
      ≡ elim m.name [ none ↦ none | some s ↦ some (f s) ]
unfolding labelled substitute_metadata
labelled_name f a workshop_name m = elim (Option-cases m.name) [
  | inl n ↦ rw n refl
  | inr (s, k) ↦ rw k refl
]

module _ (b64encode : String → String) (b64decode : String → Option String)
    (adopt : Metadata → Metadata) (accepts : List RequestObject → RequestObject → Bool)
    (keeps : KeepsName adopt) where
  finished_metadata :
      (o q : RequestObject) (m : Metadata)
      → finished o m ≡ some q
      → (m' : Metadata) × (q.metadata ≡ some m')
        × (m'.name ≡ m.name)
        × (q.api_version ≡ o.api_version)
        × (q.kind ≡ o.kind)
        × (q.rest ≡ o.rest)
  unfolding finished excluded
  finished_metadata o q m e = elim (Bool-cases (is_complete o m)) [
    | inr n ↦ absurd (ground (arith, e, n))
    | inl c ↦ elim (Bool-cases (is_namespace o)) [
      | inl t ↦
          let same : record o { metadata = some (excluded m) } ≡ q = ground (arith, e, c, t) in
          rw (← same) (excluded m, refl, refl, refl, refl, refl)
      | inr n ↦
          let same : record o { metadata = some m } ≡ q = ground (arith, e, c, n) in
          rw (← same) (m, refl, refl, refl, refl, refl)
    ]
  ]

  pub prepared-IsCopy :
      (a : Allocation) (workshop_name : Option String) (variables : Dict String)
      (o q : RequestObject)
      → prepared b64encode b64decode adopt accepts a workshop_name variables o ≡ some q
      → IsCopy b64encode variables o q
  unfolding prepared substitute_object
  prepared-IsCopy a workshop_name variables o q e =
      let f = substitute_text b64encode variables in
      elim (Option-cases o.metadata) [
        | inl n ↦ absurd (ground (arith, e, n))
        | inr (m, k) ↦
            let (m', is, name, version, kind, rest) =
              finished_metadata (substitute_object b64encode variables o) q
                (adopt (labelled a workshop_name (substitute_metadata f m)))
                (ground (arith, e, k)) in
            record {
              same_version = rw version (IsReplaced-map f o.api_version);
              same_kind = rw kind (IsReplaced-map f o.kind);
              same_rest = rest;
              original = m;
              is_original = k;
              created = m';
              is_created = is;
              same_name = rw name (
                  adopted_name adopt keeps f m.name
                    (labelled a workshop_name (substitute_metadata f m))
                    (labelled_name f a workshop_name m));
            }
      ]
