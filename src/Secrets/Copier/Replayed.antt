-- ===== src/Secrets/Copier/Replayed.antt =====
-- What `update_secret` of secretcopier_funcs.py decides about a secret that it has just written.
use educates_training_platfo.Prelude.{
  String, true, ◌≡◌, refl, sym, ◌∙◌, ◌≢◌, inl, inr, some, [], ◌∷◌, arith, Bool-cases, is, is_iff,
  str_eq, eq_iff, str_eq_refl,
}
use educates_training_platfo.Dict.{Dict, get, put, Unique, put-Unique}
use educates_training_platfo.Secrets.Copier.{
  OwnerReference, BoundRule, Secret, Importer, Reply, found, missing, failed, nothing, create,
  update, update_dict, within_dict, same_dict, wanted_labels, is_foreign, is_current, new_version,
  place, decide_secret,
}
use educates_training_platfo.Secrets.Copier.Decision.{decide_secret-IsSettled}

-- A dictionary is found within itself.
within_dict-lem :
    (d e : Dict String)
    → Unique d
    → ((k v : String) → get d k ≡ some v → get e k ≡ some v)
    → within_dict d e ≡ true
unfolding get
within_dict-lem [] e u h = refl
within_dict-lem ((j, v) ∷ d) e u h =
    let head : is (get e j) v ≡ true =
      (is_iff (get e j) v).1 (h j v (ground (arith, str_eq_refl j))) in
    rw head (
      within_dict-lem d e u.1 (λ k w g. elim (Bool-cases (str_eq j k)) [
        | inl t ↦ let same : j ≡ k = (eq_iff j k).0 t in absurd (ground (arith, u.0, g, same))
        | inr f ↦ h k w (rw f g)
      ]))

pub same_dict_refl : (d : Dict String) → Unique d → same_dict d d ≡ true
unfolding same_dict
same_dict_refl d u = let w = within_dict-lem d d u (λ k v g. g) in ground (arith, w)

update_dict-Unique : (d changes : Dict String) → Unique d → Unique (update_dict d changes)
unfolding update_dict
update_dict-Unique d [] u = u
update_dict-Unique d ((k, v) ∷ changes) u =
    update_dict-Unique (put d k v) changes (put-Unique d k v u)

-- The dictionaries of a secret, as every dictionary, have no key twice.
abbrev pub IsProper : Secret → Type 0
IsProper s = Unique s.contents × Unique s.labels

new_version-current :
    (b : BoundRule) (o : OwnerReference) (source target : Secret)
    → IsProper source
    → is_current b source (new_version b o source target) ≡ true
unfolding is_current new_version
new_version-current b o source target u = ground (
  arith,
  str_eq_refl source.secret_type,
  same_dict_refl source.contents u.0,
  same_dict_refl (wanted_labels b source)
      (update_dict-Unique source.labels b.rule.target_labels u.1),
)

place-update :
    (namespace : String) (b : BoundRule) (o : OwnerReference) (source s : Secret)
    (rt : Reply Secret)
    → IsProper source
    → place namespace b o source rt ≡ update s
    → place namespace b o source (found s) ≡ nothing
unfolding place
place-update namespace b o source s missing u h = absurd (ground arith)
place-update namespace b o source s failed u h = absurd (ground arith)
place-update namespace b o source s (found t) u h = elim (Bool-cases (is_foreign b o source t)) [
  | inl y ↦ absurd (ground (arith, h, y))
  | inr n ↦ elim (Bool-cases (is_current b source t)) [
    | inl y ↦ absurd (ground (arith, h, n, y))
    | inr k ↦
        let same : new_version b o source t ≡ s = ground (arith, h, n, k) in
        rw (← same) (ground (arith, new_version-current b o source t u))
  ]
]

place-found :
    (namespace : String) (b : BoundRule) (o : OwnerReference) (source t s : Secret)
    → place namespace b o source (found t) ≡ create s
    → ⊥
unfolding place
place-found namespace b o source t s h = ground (arith, h)

-- The replies but for the target stay the same from pass to pass.
module _ (namespace : String) (b : BoundRule) (rs : Reply Secret) (ri : Reply Importer)
    (u : (source : Secret) → rs ≡ found source → IsProper source) where
  pub decide_secret-update :
      (rt : Reply Secret) (s : Secret)
      → decide_secret namespace b rs ri rt ≡ update s
      → decide_secret namespace b rs ri (found s) ≡ nothing
  decide_secret-update rt s h = elim (decide_secret-IsSettled namespace b rs ri) [
    | inl k ↦ k (found s)
    | inr (inl k) ↦ absurd (ground (arith, h, k rt))
    | inr (inr p) ↦
        p.same (found s)
        ∙ place-update namespace b p.owner p.source s rt (u p.source p.read) (sym (p.same rt) ∙ h)
  ]

  pub decide_secret-found : (t s : Secret) → decide_secret namespace b rs ri (found t) ≢ create s
  decide_secret-found t s h = elim (decide_secret-IsSettled namespace b rs ri) [
    | inl k ↦ ground (arith, h, k (found t))
    | inr (inl k) ↦ ground (arith, h, k (found t))
    | inr (inr p) ↦ place-found namespace b p.owner p.source t s (sym (p.same (found t)) ∙ h)
  ]
