-- ===== src/Manager/Allocation/Labels.antt =====
-- The namespace and the labels that workshopallocation.py gives to each object.
use educates_training_platfo.Manager.Allocation.Copies.{KeepsName}
use educates_training_platfo.Prelude.{
  String, Bool, true, not, ◌&&◌, ◌≡◌, refl, ◌∙◌, Option, some, List, [], ◌∷◌, given, truthy,
  default, inl, inr, Bool-cases, arith, str_eq, all, All, both, ap,
}
use educates_training_platfo.Dict.{Dict, get, put, get-put, get-put_self}
use educates_training_platfo.Manager.Allocation.State.{Metadata, RequestObject, Allocation}
use educates_training_platfo.Manager.Allocation.Objects.{
  session_labels, put_all, labelled, is_namespace, excluded, finished, is_complete,
}

-- What kopf documents of `adopt`: it adds, and does not change the name, the namespace or the labels
-- that are there.
pub record Keeps (adopt : Metadata → Metadata) : Type 0 where
  pub keeps_name : KeepsName adopt
  pub keeps_namespace :
      (m : Metadata) → given m.namespace ≡ true → (adopt m).namespace ≡ m.namespace
  pub keeps_labels :
      (m : Metadata) (d : Dict (Option String))
      → m.labels ≡ some d
      → (d' : Dict (Option String)) × ((adopt m).labels ≡ some d')
        × ((k : String) (v : Option String) → get d k ≡ some v → get d' k ≡ some v)

-- The object has a namespace, and the labels that name the session, its environment and its portal.
pub record HasLabels (a : Allocation) (workshop_name : Option String) (m : Metadata) : Type 0 where
  pub has_namespace : given m.namespace ≡ true
  pub labels : Dict (Option String)
  pub is_labels : m.labels ≡ some labels
  pub has_labels : All (λ l. get labels l.0 ≡ some l.1) (session_labels a workshop_name)

abbrev pub IsOfSession : Allocation → Option String → RequestObject → Type 0
IsOfSession a workshop_name q = (m : Metadata) × (q.metadata ≡ some m) × HasLabels a workshop_name m

abbrev distinct_keys : List (String × Option String) → Bool
distinct_keys [] = true
distinct_keys ((k, v) ∷ ls) =
    all (λ (l : String × Option String). not (str_eq l.0 k)) ls && distinct_keys ls

put_all-other :
    (ls : List (String × Option String)) (d : Dict (Option String)) (k : String)
    → all (λ (l : String × Option String). not (str_eq l.0 k)) ls ≡ true
    → get (put_all ls d) k ≡ get d k
unfolding put_all
put_all-other [] d k h = refl
put_all-other ((j, v) ∷ ls) d k h =
    let (a, b) = both (not (str_eq j k)) _ h in
    put_all-other ls (put d j v) k b ∙ ground (arith, get-put d j k v, a)

put_all-All :
    (ls : List (String × Option String)) (d : Dict (Option String))
    → distinct_keys ls ≡ true
    → All (λ l. get (put_all ls d) l.0 ≡ some l.1) ls
unfolding put_all
put_all-All [] d h = tt
put_all-All ((k, v) ∷ ls) d h =
    let (a, b) = both _ (distinct_keys ls) h in
    (put_all-other ls (put d k v) k a ∙ get-put_self d k v, put_all-All ls (put d k v) b)

All-weaken :
    (ls : List (String × Option String)) (d d' : Dict (Option String))
    → ((k : String) (v : Option String) → get d k ≡ some v → get d' k ≡ some v)
    → All (λ l. get d l.0 ≡ some l.1) ls
    → All (λ l. get d' l.0 ≡ some l.1) ls
All-weaken [] d d' f p = tt
All-weaken ((k, v) ∷ ls) d d' f p = (f k v p.0, All-weaken ls d d' f p.1)

module _ (a : Allocation) (named : truthy a.session_name ≡ true)
    (workshop_name : Option String) where
  pub labelled-HasLabels : (m : Metadata) → HasLabels a workshop_name (labelled a workshop_name m)
  unfolding labelled
  labelled-HasLabels m = record {
    has_namespace = ground (arith, named);
    labels = put_all (session_labels a workshop_name) (default [] m.labels);
    is_labels = refl;
    has_labels = put_all-All (session_labels a workshop_name) (default [] m.labels) refl;
  }

  pub adopted-HasLabels :
      (adopt : Metadata → Metadata)
      → Keeps adopt
      → (m : Metadata) → HasLabels a workshop_name m
      → HasLabels a workshop_name (adopt m)
  adopted-HasLabels adopt keeps m h =
      let (d', e', f) = keeps.keeps_labels m h.labels h.is_labels in
      record {
        has_namespace = ap given (keeps.keeps_namespace m h.has_namespace) ∙ h.has_namespace;
        labels = d';
        is_labels = e';
        has_labels = All-weaken (session_labels a workshop_name) h.labels d' f h.has_labels;
      }

  excluded-HasLabels :
      (m : Metadata) → HasLabels a workshop_name m → HasLabels a workshop_name (excluded m)
  unfolding excluded
  excluded-HasLabels m h = record {
    has_namespace = h.has_namespace;
    labels = h.labels;
    is_labels = h.is_labels;
    has_labels = h.has_labels;
  }

  pub finished-IsOfSession :
      (o q : RequestObject) (m : Metadata)
      → HasLabels a workshop_name m
      → finished o m ≡ some q
      → IsOfSession a workshop_name q
  unfolding finished
  finished-IsOfSession o q m h e = elim (Bool-cases (is_complete o m)) [
    | inr n ↦ absurd (ground (arith, e, n))
    | inl c ↦ elim (Bool-cases (is_namespace o)) [
      | inl t ↦ (excluded m, ground (arith, e, c, t), excluded-HasLabels m h)
      | inr n ↦ (m, ground (arith, e, c, n), h)
    ]
  ]
