-- ===== src/Secrets/Matching.antt =====
-- What the selectors of a namespace select.
pub mod Names
pub mod Expressions
use mathlib.Core.List.{Memᴰ}
use mathlib.Core.List.Memᴰ
use educates_training_platfo.Prelude.{
  String, Bool, true, false, not, ◌&&◌, ◌||◌, ◌≡◌, refl, ◌↔◌, ◌⊎◌, inl, inr, some, List, [], ◌∷◌,
  if◌then◌else◌, is, is_iff, is_empty, any, arith, Bool-cases, default, contains, All,
  nil_of_is_empty,
}
use educates_training_platfo.Dict.{Dict, get}
use educates_training_platfo.Secrets.{
  OwnerDetails, Namespace, TargetNamespaces, name_selected, labels_selected, expressions_selected,
  same_owner, owner_selected, uid_selected, namespace_selected,
}
use educates_training_platfo.Secrets.Matching.Names.{NameAllowed, name_selected_iff}
use educates_training_platfo.Secrets.Matching.Expressions.{Holds, expressions_selected_iff}

-- The conditions of a rule on a namespace.
abbrev pub Selected : TargetNamespaces → Namespace → Type 0
Selected t n =
    NameAllowed (default ("!kube-*" ∷ []) t.match_names) n.name
    × ((t.match_uids ≡ []) ⊎ (contains n.uid t.match_uids ≡ true))
    × ((t.match_owners ≡ [])
        ⊎ ((o : OwnerDetails) × Memᴰ o n.owner_references
            × (any (same_owner o) t.match_owners ≡ true)))
    × All (λ l. get n.labels l.0 ≡ some l.1) t.match_labels
    × All (Holds n.labels) t.match_expressions

labels_selected_iff :
    (d labels : Dict String)
    → (labels_selected d labels ≡ true) ↔ All (λ l. get labels l.0 ≡ some l.1) d
unfolding labels_selected
labels_selected_iff [] labels = ((λ _. tt), (λ _. refl))
labels_selected_iff ((k, v) ∷ d) labels = elim (Bool-cases (is (get labels k) v)) [
  | inl t ↦ (
    (λ h. ((is_iff _ v).0 t, (labels_selected_iff d labels).0 (rw t at h))),
    (λ h. rw t ((labels_selected_iff d labels).1 h.1)),
  )
  | inr f ↦ (
    (λ h. absurd (ground (arith, f))),
    (λ h. absurd (ground (arith, f, (is_iff (get labels k) v).1 h.0))),
  )
]

owner_selected_iff :
    (match_owners owners : List OwnerDetails)
    → (owner_selected match_owners owners ≡ true)
      ↔ ((o : OwnerDetails) × Memᴰ o owners × (any (same_owner o) match_owners ≡ true))
unfolding owner_selected
owner_selected_iff match_owners [] =
    ((λ h. absurd (ground arith)), (λ h. absurd (Memᴰ.not-nil h.1)))
owner_selected_iff match_owners (o ∷ os) = elim (Bool-cases (any (same_owner o) match_owners)) [
  | inl t ↦ ((λ _. (o, Memᴰ.head refl, t)), (λ _. rw t refl))
  | inr f ↦ (
    λ h. let (u, m, t) = (owner_selected_iff match_owners os).0 (rw f at h) in (u, Memᴰ.tail m, t),
    λ h. rw f (
        (owner_selected_iff match_owners os).1 (elim (Memᴰ.cases_cons h.1) [
          | inl e ↦ absurd (ground (arith, f, h.2, e))
          | inr m ↦ (h.0, m, h.2)
        ])),
  )
]

or_iff : (a b : Bool) → ((a || b) ≡ true) ↔ ((a ≡ true) ⊎ (b ≡ true))
or_iff true b = ((λ _. inl refl), (λ _. refl))
or_iff false b = ((λ h. inr h), (λ h. elim h [ inl e ↦ absurd (ground arith) | inr e ↦ e ]))

chain_iff :
    (a b c d e : Bool)
    → ((if not a
          then false
          else if not b
          then false
          else if not c
          then false
          else if not d
          then false
          else e)
        ≡ true)
      ↔ ((a ≡ true) × (b ≡ true) × (c ≡ true) × (d ≡ true) × (e ≡ true))
chain_iff false b c d e = ((λ h. cc), (λ h. absurd (ground (arith, h.0))))
chain_iff true false c d e = ((λ h. cc), (λ h. absurd (ground (arith, h.1))))
chain_iff true true false d e = ((λ h. cc), (λ h. absurd (ground (arith, h.2))))
chain_iff true true true false e = ((λ h. cc), (λ h. absurd (ground (arith, h.3))))
chain_iff true true true true e = ((λ h. (refl, refl, refl, refl, h)), (λ h. h.4))

empty_of : {A : Type 0} (xs : List A) → xs ≡ [] → is_empty xs ≡ true
empty_of xs e = rw e refl

-- A rule of the secret manager selects a namespace exactly when each of its conditions that is
-- stated holds: names, uids, owners, labels, expressions. Where no names are stated those that
-- begin with kube- are refused.
pub namespace_selected_iff :
    (t : TargetNamespaces) (n : Namespace) → (namespace_selected t n ≡ true) ↔ Selected t n
unfolding namespace_selected uid_selected
namespace_selected_iff t n =
    let names = name_selected_iff n.name (default ("!kube-*" ∷ []) t.match_names) in
    let uids = or_iff (is_empty t.match_uids) (contains n.uid t.match_uids) in
    let by_owner = owner_selected t.match_owners n.owner_references in
    let owners = or_iff (is_empty t.match_owners) by_owner in
    let owner = owner_selected_iff t.match_owners n.owner_references in
    let labels = labels_selected_iff t.match_labels n.labels in
    let expressions = expressions_selected_iff t.match_expressions n.labels in
    let chain =
      chain_iff (name_selected (default ("!kube-*" ∷ []) t.match_names) n.name)
        (uid_selected t.match_uids n.uid) (is_empty t.match_owners || by_owner)
        (labels_selected t.match_labels n.labels)
        (expressions_selected t.match_expressions n.labels) in
    (
      λ h.
          let c = chain.0 h in
          (
            names.0 c.0,
            elim (uids.0 c.1) [ inl e ↦ inl (nil_of_is_empty t.match_uids e) | inr k ↦ inr k ],
            elim (owners.0 c.2) [
              | inl e ↦ inl (nil_of_is_empty t.match_owners e)
              | inr k ↦ inr (owner.0 k)
            ],
            labels.0 c.3,
            expressions.0 c.4,
          ),
      λ h. chain.1 (
        names.1 h.0,
        uids.1 (elim h.1 [ inl e ↦ inl (empty_of t.match_uids e) | inr k ↦ inr k ]),
        owners.1 (elim h.2 [ inl e ↦ inl (empty_of t.match_owners e) | inr k ↦ inr (owner.1 k) ]),
        labels.1 h.3,
        expressions.1 h.4,
      ),
    )
