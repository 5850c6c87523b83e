-- ===== src/Secrets/Copier/Decision.antt =====
-- How a decision of `update_secret` of secretcopier_funcs.py depends on the secret that stands at the
-- target.
use mathlib.Core.Path.{fun_ext}
use educates_training_platfo.Prelude.{
  String, ◌≡◌, refl, ◌⊎◌, inl, inr, Option, none, some, arith, Bool-cases, Option-cases, str_eq,
  subst,
}
use educates_training_platfo.Secrets.Copier.{
  OwnerReference, BoundRule, Secret, Importer, Reply, found, missing, failed, Action, nothing,
  raises, place, place_owned, permit, of_importer, of_source, owner_reference_of, decide_secret,
  authorized, source_allowed,
}

-- For given replies for the source and the importer.
pub record IsPlacing (namespace : String) (b : BoundRule) (rs : Reply Secret)
    (decision : Reply Secret → Action) : Type 0 where
  pub source : Secret
  pub owner : OwnerReference
  pub read : rs ≡ found source
  pub same : (rt : Reply Secret) → decision rt ≡ place namespace b owner source rt

-- Either the target does not matter, and the decision is to do nothing or, where nobody can own the
-- secret, an exception; or it is that of `place`.
abbrev pub IsSettled : String → BoundRule → Reply Secret → (Reply Secret → Action) → Type 0
IsSettled namespace b rs decision =
    ((rt : Reply Secret) → decision rt ≡ nothing)
    ⊎ ((rt : Reply Secret) → decision rt ≡ raises)
    ⊎ IsPlacing namespace b rs decision

permit-IsSettled :
    (namespace : String) (b : BoundRule) (source : Secret) (importer : Option Importer)
    → IsSettled namespace b (found source) (permit namespace b source importer)
unfolding permit place_owned
permit-IsSettled namespace b source importer =
    elim (Bool-cases (authorized b.rule.shared_secret importer)) [
      | inr f ↦ inl (λ rt. ground (arith, f))
      | inl t ↦ elim (Bool-cases (source_allowed importer source.namespace)) [
        | inr f ↦ inl (λ rt. ground (arith, t, f))
        | inl u ↦ elim (Option-cases (owner_reference_of b.owner_reference importer)) [
          | inl f ↦ inr (inl (λ rt. ground (arith, t, u, f)))
          | inr (o, e) ↦ inr (
              inr (record {
                source = source;
                owner = o;
                read = refl;
                same = λ rt. ground (arith, t, u, e);
              }))
        ]
      ]
    ]

of_source-IsSettled :
    (namespace : String) (b : BoundRule) (rs : Reply Secret) (ri : Reply Importer)
    → IsSettled namespace b rs (of_source namespace b rs ri)
unfolding of_source of_importer
of_source-IsSettled namespace b missing ri = inl (λ rt. refl)
of_source-IsSettled namespace b failed ri = inl (λ rt. refl)
of_source-IsSettled namespace b (found source) failed = inl (λ rt. refl)
of_source-IsSettled namespace b (found source) missing = permit-IsSettled namespace b source none
of_source-IsSettled namespace b (found source) (found i) =
    permit-IsSettled namespace b source (some i)

pub decide_secret-IsSettled :
    (namespace : String) (b : BoundRule) (rs : Reply Secret) (ri : Reply Importer)
    → IsSettled namespace b rs (decide_secret namespace b rs ri)
unfolding decide_secret
decide_secret-IsSettled namespace b rs ri =
    elim (Bool-cases (str_eq b.rule.source_secret.namespace namespace)) [
      | inl t ↦ inl (λ rt. ground (arith, t))
      | inr f ↦
          subst (λ d. IsSettled namespace b rs d) (fun_ext (λ (rt : Reply Secret). rw f refl))
            (of_source-IsSettled namespace b rs ri)
    ]
