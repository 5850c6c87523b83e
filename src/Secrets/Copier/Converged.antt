-- ===== src/Secrets/Copier/Converged.antt =====
-- Repeated passes of `update_secret` of secretcopier_funcs.py for one rule and one namespace.
use educates_training_platfo.Prelude.{
  String, true, false, ◌≡◌, refl, sym, ◌∙◌, ◌⊎◌, inl, inr, some, List, [], ◌∷◌, arith, Bool-cases,
  both, All, str_eq, eq_iff, str_eq_refl, subst, ap,
}
use educates_training_platfo.Secrets.Copier.{
  BoundRule, Secret, Reply, found, missing, Action, nothing, raises, create, update, target_name_of,
  decide_secret,
}
use educates_training_platfo.Secrets.Copier.Cluster.{
  Cluster, is_secret, read_secret, read_importer, write_secret, action_in, perform, update_secret,
  accepting,
}
use educates_training_platfo.Secrets.Copier.Permission.{written, decide_secret-IsPermitted}
use educates_training_platfo.Secrets.Copier.Replayed.{
  IsProper, decide_secret-update, decide_secret-found,
}

-- Reads after a write.
read-write :
    (namespace name : String) (s : Secret) (ss : List Secret)
    → is_secret namespace name s ≡ true
    → read_secret namespace name (write_secret s ss) ≡ found s
unfolding read_secret write_secret
read-write namespace name s [] h = rw h
read-write namespace name s (t ∷ ss) h =
    let (a, c) = both (str_eq s.namespace namespace) (str_eq s.name name) h in
    let at_namespace : s.namespace ≡ namespace = (eq_iff s.namespace namespace).0 a in
    let at_name : s.name ≡ name = (eq_iff s.name name).0 c in
    elim (Bool-cases (is_secret namespace name t)) [
      | inl y ↦ ground (arith, h, y, at_namespace, at_name)
      | inr n ↦ ground (arith, h, n, at_namespace, at_name, read-write namespace name s ss h)
    ]

read-write_elsewhere :
    (namespace name : String) (s : Secret) (ss : List Secret)
    → str_eq s.namespace namespace ≡ false
    → read_secret namespace name (write_secret s ss) ≡ read_secret namespace name ss
unfolding read_secret write_secret
read-write_elsewhere namespace name s [] h = ground (arith, h)
read-write_elsewhere namespace name s (t ∷ ss) h = ground (
  arith,
  h,
  eq_iff s.namespace namespace,
  eq_iff t.namespace s.namespace,
  eq_iff t.namespace namespace,
  read-write_elsewhere namespace name s ss h,
)

read-cases :
    (namespace name : String) (ss : List Secret)
    → (read_secret namespace name ss ≡ missing)
      ⊎ ((t : Secret) × (read_secret namespace name ss ≡ found t)
          × (is_secret namespace name t ≡ true))
unfolding read_secret
read-cases namespace name [] = inl refl
read-cases namespace name (s ∷ ss) = elim (Bool-cases (is_secret namespace name s)) [
  | inl y ↦ inr (s, rw y refl, y)
  | inr n ↦ rw n (read-cases namespace name ss)
]

read-IsProper :
    (namespace name : String) (ss : List Secret)
    → All IsProper ss
    → (s : Secret) → read_secret namespace name ss ≡ found s
    → IsProper s
unfolding read_secret
read-IsProper namespace name [] u s h = absurd (ground arith)
read-IsProper namespace name (t ∷ ss) u s h = elim (Bool-cases (is_secret namespace name t)) [
  | inl y ↦ let same : t ≡ s = ground (arith, h, y) in subst IsProper same u.0
  | inr n ↦ read-IsProper namespace name ss u.1 s (rw n at h)
]

abbrev writes : Secret → Cluster → Cluster
writes s c = record c { secrets = write_secret s c.secrets }

-- The secret that a pass writes is the one that the next pass reads.
module _ (namespace : String) (b : BoundRule) where
  abbrev decision : Cluster → Reply Secret → Action
  decision c =
      decide_secret namespace b
        (read_secret b.rule.source_secret.namespace b.rule.source_secret.name c.secrets)
        (read_importer namespace (target_name_of b) c.importers)

  written-is_secret :
      (c : Cluster) (s : Secret)
      → written (action_in namespace b c) ≡ some s
      → (is_secret namespace (target_name_of b) s ≡ true)
        × (str_eq s.namespace b.rule.source_secret.namespace ≡ false)
  unfolding action_in
  written-is_secret c s h =
      let permitted = decide_secret-IsPermitted namespace b _ _ _ s h in
      let placing = permitted.placing in
      elim (read-cases namespace (target_name_of b) c.secrets) [
        | inl m ↦
            let (x, y) = placing.placed m in
            ground (
              arith,
              x,
              y,
              permitted.elsewhere,
              str_eq_refl namespace,
              str_eq_refl (target_name_of b),
              eq_iff namespace b.rule.source_secret.namespace,
              eq_iff b.rule.source_secret.namespace namespace,
            )
        | inr (t, f, k) ↦
            let (x, y) = placing.kept t f in
            ground (
              arith,
              x,
              y,
              k,
              permitted.elsewhere,
              eq_iff t.namespace namespace,
              eq_iff t.namespace b.rule.source_secret.namespace,
              eq_iff b.rule.source_secret.namespace namespace,
            )
      ]

  action-write :
      (c : Cluster) (s : Secret)
      → written (action_in namespace b c) ≡ some s
      → action_in namespace b (writes s c) ≡ decision c (found s)
  unfolding action_in
  action-write c s h =
      let (here, away) = written-is_secret c s h in
      ground (
        arith,
        read-write namespace (target_name_of b) s c.secrets here,
        read-write_elsewhere b.rule.source_secret.namespace b.rule.source_secret.name s c.secrets
            away,
      )

  decision-write :
      (c : Cluster) (s : Secret) (rt : Reply Secret)
      → written (action_in namespace b c) ≡ some s
      → decision (writes s c) rt ≡ decision c rt
  decision-write c s rt h =
      let away = (written-is_secret c s h).1 in
      rw
        (read-write_elsewhere b.rule.source_secret.namespace b.rule.source_secret.name s c.secrets
          away)
        refl

  quiet :
      (c : Cluster)
      → action_in namespace b c ≡ nothing
      → update_secret accepting namespace b c ≡ some c
  unfolding update_secret perform
  quiet c h = rw h refl

  action-cases :
      (a : Action)
      → (a ≡ nothing)
        ⊎ (a ≡ raises)
        ⊎ ((s : Secret) × (a ≡ create s))
        ⊎ ((s : Secret) × (a ≡ update s))
  action-cases nothing = inl refl
  action-cases raises = inr (inl refl)
  action-cases (create s) = inr (inr (inl (s, refl)))
  action-cases (update s) = inr (inr (inr (s, refl)))

  -- A pass that does something and returns writes a secret.
  after_write :
      (c c' : Cluster) (s : Secret)
      → written (action_in namespace b c) ≡ some s
      → update_secret accepting namespace b c ≡ some c'
      → writes s c ≡ c'
  unfolding update_secret perform
  after_write c c' s h e = elim (action-cases (action_in namespace b c)) [
    | inl k ↦ absurd (ground (arith, h, k))
    | inr (inl k) ↦ absurd (ground (arith, h, k))
    | inr (inr (inl (t, k))) ↦ ground (arith, h, k, e)
    | inr (inr (inr (t, k))) ↦ ground (arith, h, k, e)
  ]

  not_raised :
      (c c' : Cluster)
      → update_secret accepting namespace b c ≡ some c'
      → action_in namespace b c ≡ raises
      → ⊥
  unfolding update_secret perform
  not_raised c c' e k = ground (arith, e, k)

  -- Once nothing is left to do, nothing changes.
  stays :
      (c c' : Cluster)
      → action_in namespace b c ≡ nothing
      → update_secret accepting namespace b c ≡ some c'
      → update_secret accepting namespace b c' ≡ some c'
  stays c c' k e =
      let same : c ≡ c' = ground (arith, quiet c k, e) in
      subst (λ d. update_secret accepting namespace b d ≡ some d) same (quiet c k)

  module _ (c c1 c2 : Cluster) (u : All IsProper c.secrets)
      (first_pass : update_secret accepting namespace b c ≡ some c1)
      (second_pass : update_secret accepting namespace b c1 ≡ some c2) where
    proper :
        (source : Secret)
        → read_secret b.rule.source_secret.namespace b.rule.source_secret.name c.secrets
          ≡ found source
        → IsProper source
    proper = read-IsProper b.rule.source_secret.namespace b.rule.source_secret.name c.secrets u

    after_update :
        (s : Secret)
        → action_in namespace b c ≡ update s
        → update_secret accepting namespace b c2 ≡ some c2
    unfolding action_in
    after_update s k =
        let w : written (action_in namespace b c) ≡ some s = rw k refl in
        let here = after_write c c1 s w first_pass in
        let idle : action_in namespace b c1 ≡ nothing =
          ap (λ d. action_in namespace b d) (sym here)
          ∙ action-write c s w
          ∙ decide_secret-update namespace b _ _ proper _ s k in
        stays c1 c2 idle second_pass

    after_create :
        (s : Secret)
        → action_in namespace b c ≡ create s
        → update_secret accepting namespace b c2 ≡ some c2
    after_create s k =
        let w : written (action_in namespace b c) ≡ some s = rw k refl in
        let here = after_write c c1 s w first_pass in
        let next : action_in namespace b c1 ≡ decision c (found s) =
          ap (λ d. action_in namespace b d) (sym here) ∙ action-write c s w in
        elim (action-cases (action_in namespace b c1)) [
          | inl idle ↦ stays c1 c2 idle second_pass
          | inr (inl r) ↦ absurd (not_raised c1 c2 second_pass r)
          | inr (inr (inl (t, r))) ↦
              absurd (decide_secret-found namespace b _ _ proper s t (sym next ∙ r))
          | inr (inr (inr (t, r))) ↦
              let v : written (action_in namespace b c1) ≡ some t = rw r refl in
              let there = after_write c1 c2 t v second_pass in
              let idle : action_in namespace b c2 ≡ nothing =
                ap (λ d. action_in namespace b d) (sym there)
                ∙ action-write c1 t v
                ∙ ap (λ d. decision d (found t)) (sym here)
                ∙ decision-write c s (found t) w
                ∙ decide_secret-update namespace b _ _ proper (found s) t (sym next ∙ r) in
              quiet c2 idle
        ]

    -- After two passes of a rule over a namespace a third one changes nothing, in a cluster that
    -- refuses no write and whose secrets are dictionaries without double keys: the copy that the
    -- first pass makes is brought up to date at most once.
    pub update_secret-converged : update_secret accepting namespace b c2 ≡ some c2
    update_secret-converged = elim (action-cases (action_in namespace b c)) [
      | inl idle ↦
          let same : c ≡ c1 = ground (arith, quiet c idle, first_pass) in
          stays c1 c2 (subst (λ d. action_in namespace b d ≡ nothing) same idle) second_pass
      | inr (inl r) ↦ absurd (not_raised c c1 first_pass r)
      | inr (inr (inl (s, k))) ↦ after_create s k
      | inr (inr (inr (s, k))) ↦ after_update s k
    ]
