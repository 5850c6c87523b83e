-- ===== src/Secrets/Injector/Complete.antt =====
-- What reconciling an injector's configuration achieves, by secretinjector_funcs.py.
use mathlib.Core.List.{Memᴰ}
use mathlib.Core.List.Memᴰ
use educates_training_platfo.Prelude.{
  String, Bool, inl, inr, true, false, ◌≡◌, refl, sym, ap, ◌∙◌, List, [], ◌∷◌, ◌++◌, if◌then◌else◌,
  Bool-cases, All, All-parts, All-member, contains, str_eq, subst, is, is_iff, ◌≢◌, ◌⊎◌, some,
  arith,
}
use educates_training_platfo.Secrets.{Namespace, is_active_phase}
use educates_training_platfo.Secrets.Injector.{
  Rule, Secret, ServiceAccount, Cluster, matches_source_secret, matches_service_account,
  matches_target_namespace, names_for, inject_selected, inject_all, reconcile_namespace,
  reconcile_rules, reconcile_namespaces, reconcile_config,
}
use educates_training_platfo.Secrets.Injector.Passes.{
  Step, HasSecret, Done, IsPass, no_step, run-IsPass, IsPass-after, IsPass-idempotent,
}

step : String → Rule → Secret → Step
step namespace r s = record { namespace = namespace; rule = r; secret = s }

-- The steps of each loop, and the loop on the service accounts alone.
secret_steps : String → Rule → List Secret → List Step
secret_steps namespace r [] = []
secret_steps namespace r (s ∷ ss) = (step namespace r s ∷ []) ++ secret_steps namespace r ss

inject_all-IsPass :
    (namespace : String) (r : Rule) (ss : List Secret)
    → IsPass (secret_steps namespace r ss) (inject_all namespace r ss)
unfolding secret_steps inject_all step
inject_all-IsPass namespace r [] = no_step
inject_all-IsPass namespace r (s ∷ ss) =
    IsPass-after (step namespace r s ∷ []) (secret_steps namespace r ss)
      (inject_selected namespace r s) (inject_all namespace r ss) (run-IsPass (step namespace r s))
      (inject_all-IsPass namespace r ss)

rule_steps : String → List Secret → List Rule → List Step
rule_steps namespace ss [] = []
rule_steps namespace ss (r ∷ rs) = secret_steps namespace r ss ++ rule_steps namespace ss rs

over_rules : String → List Secret → List Rule → List ServiceAccount → List ServiceAccount
over_rules namespace ss [] accounts = accounts
over_rules namespace ss (r ∷ rs) accounts =
    over_rules namespace ss rs (inject_all namespace r ss accounts)

over_rules-IsPass :
    (namespace : String) (ss : List Secret) (rs : List Rule)
    → IsPass (rule_steps namespace ss rs) (over_rules namespace ss rs)
unfolding rule_steps over_rules
over_rules-IsPass namespace ss [] = no_step
over_rules-IsPass namespace ss (r ∷ rs) =
    IsPass-after (secret_steps namespace r ss) (rule_steps namespace ss rs)
      (inject_all namespace r ss) (over_rules namespace ss rs) (inject_all-IsPass namespace r ss)
      (over_rules-IsPass namespace ss rs)

-- For one namespace, which must be active.
active_steps : List Secret → List Rule → Namespace → List Step
active_steps ss rules n =
    if is_active_phase n then rule_steps n.name ss (matches_target_namespace n (rules ∷ [])) else []

over_active : List Secret → List Rule → Namespace → List ServiceAccount → List ServiceAccount
over_active ss rules n accounts =
    if is_active_phase n
    then over_rules n.name ss (matches_target_namespace n (rules ∷ [])) accounts
    else accounts

over_active-IsPass :
    (ss : List Secret) (rules : List Rule) (n : Namespace)
    → IsPass (active_steps ss rules n) (over_active ss rules n)
unfolding active_steps over_active
over_active-IsPass ss rules n = by_test (is_active_phase n)
  where
    by_test :
        (b : Bool)
        → IsPass
            (if b then rule_steps n.name ss (matches_target_namespace n (rules ∷ [])) else [])
            (λ accounts.
              if b
              then over_rules n.name ss (matches_target_namespace n (rules ∷ [])) accounts
              else accounts)
    by_test true = over_rules-IsPass n.name ss (matches_target_namespace n (rules ∷ []))
    by_test false = no_step

namespace_steps : List Secret → List Rule → List Namespace → List Step
namespace_steps ss rules [] = []
namespace_steps ss rules (n ∷ ns) = active_steps ss rules n ++ namespace_steps ss rules ns

over_namespaces :
    List Secret → List Rule → List Namespace → List ServiceAccount → List ServiceAccount
over_namespaces ss rules [] accounts = accounts
over_namespaces ss rules (n ∷ ns) accounts =
    over_namespaces ss rules ns (over_active ss rules n accounts)

over_namespaces-IsPass :
    (ss : List Secret) (rules : List Rule) (ns : List Namespace)
    → IsPass (namespace_steps ss rules ns) (over_namespaces ss rules ns)
unfolding namespace_steps over_namespaces
over_namespaces-IsPass ss rules [] = no_step
over_namespaces-IsPass ss rules (n ∷ ns) =
    IsPass-after (active_steps ss rules n) (namespace_steps ss rules ns) (over_active ss rules n)
      (over_namespaces ss rules ns) (over_active-IsPass ss rules n)
      (over_namespaces-IsPass ss rules ns)

-- The loops of the program change the service accounts only.
reconcile_rules_lem :
    (namespace : String) (rs : List Rule) (c : Cluster)
    → reconcile_rules namespace rs c
      ≡ record c { service_accounts = over_rules namespace c.secrets rs c.service_accounts }
unfolding reconcile_rules over_rules reconcile_namespace
reconcile_rules_lem namespace [] c = refl
reconcile_rules_lem namespace (r ∷ rs) c =
    reconcile_rules_lem namespace rs (reconcile_namespace namespace r c)

active_lem :
    (n : Namespace) (rules : List Rule) (c : Cluster)
    → (if is_active_phase n
        then reconcile_rules n.name (matches_target_namespace n (rules ∷ [])) c
        else c)
      ≡ record c { service_accounts = over_active c.secrets rules n c.service_accounts }
unfolding over_active
active_lem n rules c = elim (Bool-cases (is_active_phase n)) [
  | inl y ↦ rw y (reconcile_rules_lem n.name (matches_target_namespace n (rules ∷ [])) c)
  | inr f ↦ rw f refl
]

reconcile_namespaces_lem :
    (ns : List Namespace) (rules : List Rule) (c : Cluster)
    → reconcile_namespaces ns rules c
      ≡ record c { service_accounts = over_namespaces c.secrets rules ns c.service_accounts }
unfolding reconcile_namespaces over_namespaces
reconcile_namespaces_lem [] rules c = refl
reconcile_namespaces_lem (n ∷ ns) rules c = rw (active_lem n rules c) (
    reconcile_namespaces_lem ns rules
      (record c { service_accounts = over_active c.secrets rules n c.service_accounts }))

abbrev accounts_after : List Rule → Cluster → List ServiceAccount
accounts_after rules c = over_namespaces c.secrets rules c.namespaces c.service_accounts

reconcile_config_lem :
    (rules : List Rule) (c : Cluster)
    → reconcile_config rules c ≡ record c { service_accounts = accounts_after rules c }
unfolding reconcile_config
reconcile_config_lem rules c = reconcile_namespaces_lem c.namespaces rules c

-- Reconciling an injector's configuration a second time changes nothing.
pub reconcile_config-idempotent :
    (rules : List Rule) (c : Cluster)
    → reconcile_config rules (reconcile_config rules c) ≡ reconcile_config rules c
reconcile_config-idempotent rules c =
    let c' = record c { service_accounts = accounts_after rules c } in
    ap (λ (d : Cluster). reconcile_config rules d) (reconcile_config_lem rules c)
    ∙ reconcile_config_lem rules c'
    ∙ ap (λ accounts. record c { service_accounts = accounts })
        (IsPass-idempotent (namespace_steps c.secrets rules c.namespaces)
          (over_namespaces c.secrets rules c.namespaces)
          (over_namespaces-IsPass c.secrets rules c.namespaces) c.service_accounts)
    ∙ sym (reconcile_config_lem rules c)

secret_step-found :
    (P : Step → Type 0) (namespace : String) (r : Rule) (s : Secret) (ss : List Secret)
    → All P (secret_steps namespace r ss)
    → Memᴰ s ss
    → P (step namespace r s)
unfolding secret_steps
secret_step-found P namespace r s [] h m = absurd (Memᴰ.not-nil m)
secret_step-found P namespace r s (t ∷ ss) h (Memᴰ.head e) =
    subst (λ u. P (step namespace r u)) (sym e) h.0
secret_step-found P namespace r s (t ∷ ss) h (Memᴰ.tail m) =
    secret_step-found P namespace r s ss h.1 m

rule_step-found :
    (P : Step → Type 0) (namespace : String) (r : Rule) (s : Secret) (ss : List Secret)
    (rs : List Rule)
    → All P (rule_steps namespace ss rs)
    → Memᴰ r rs
    → Memᴰ s ss
    → P (step namespace r s)
unfolding rule_steps
rule_step-found P namespace r s ss [] h k m = absurd (Memᴰ.not-nil k)
rule_step-found P namespace r s ss (q ∷ rs) h (Memᴰ.head e) m =
    secret_step-found P namespace r s ss
      (subst (λ u. All P (secret_steps namespace u ss)) (sym e)
        (All-parts P (secret_steps namespace q ss) (rule_steps namespace ss rs) h).0)
      m
rule_step-found P namespace r s ss (q ∷ rs) h (Memᴰ.tail k) m =
    rule_step-found P namespace r s ss rs
      (All-parts P (secret_steps namespace q ss) (rule_steps namespace ss rs) h).1 k m

namespace_step-found :
    (P : Step → Type 0) (n : Namespace) (r : Rule) (s : Secret) (ss : List Secret)
    (rules : List Rule) (ns : List Namespace)
    → All P (namespace_steps ss rules ns)
    → Memᴰ n ns
    → is_active_phase n ≡ true
    → Memᴰ r (matches_target_namespace n (rules ∷ []))
    → Memᴰ s ss
    → P (step n.name r s)
unfolding namespace_steps active_steps
namespace_step-found P n r s ss rules [] h k a m w = absurd (Memᴰ.not-nil k)
namespace_step-found P n r s ss rules (q ∷ ns) h (Memᴰ.head e) a m w =
    let here =
      subst (λ u. All P (active_steps ss rules u)) (sym e)
        (All-parts P (active_steps ss rules q) (namespace_steps ss rules ns) h).0 in
    rule_step-found P n.name r s ss (matches_target_namespace n (rules ∷ [])) (rw a at here) m w
namespace_step-found P n r s ss rules (q ∷ ns) h (Memᴰ.tail k) a m w =
    namespace_step-found P n r s ss rules ns
      (All-parts P (active_steps ss rules q) (namespace_steps ss rules ns) h).1 k a m w

-- A service account lists a secret in the place for the secret's type.
abbrev pub IsListed : Secret → ServiceAccount → Type 0
IsListed s a =
    ((s.secret_type ≡ some "kubernetes.io/dockerconfigjson")
      × (contains s.name a.image_pull_secrets ≡ true))
    ⊎ ((s.secret_type ≢ some "kubernetes.io/dockerconfigjson") × (contains s.name a.secrets ≡ true))

IsListed-found :
    (s : Secret) (a : ServiceAccount) → contains s.name (names_for s a) ≡ true → IsListed s a
IsListed-found s a h = elim (Bool-cases (is s.secret_type "kubernetes.io/dockerconfigjson")) [
  | inl t ↦ inl ((is_iff s.secret_type "kubernetes.io/dockerconfigjson").0 t, rw t at h)
  | inr f ↦ inr (
    (λ e. absurd (ground (arith, f, (is_iff s.secret_type "kubernetes.io/dockerconfigjson").1 e))),
    rw f at h,
  )
]

-- After an injector's configuration is reconciled, every service account that a rule selects names
-- every secret that the rule selects, in each active namespace that the rule matches: among its
-- image pull secrets, if the secret has the type of these, and else among its secrets.
pub reconcile_config_complete :
    (rules : List Rule) (c : Cluster) (n : Namespace) (r : Rule) (s : Secret) (a : ServiceAccount)
    → Memᴰ n c.namespaces
    → is_active_phase n ≡ true
    → Memᴰ r (matches_target_namespace n (rules ∷ []))
    → Memᴰ s c.secrets
    → str_eq s.namespace n.name ≡ true
    → matches_source_secret s r ≡ true
    → Memᴰ a (reconcile_config rules c).service_accounts
    → str_eq a.namespace n.name ≡ true
    → matches_service_account a r ≡ true
    → IsListed s a
unfolding step
reconcile_config_complete rules c n r s a mn active mr ms sn sr ma an ar =
    let accounts = accounts_after rules c in
    let pass = over_namespaces-IsPass c.secrets rules c.namespaces in
    let done =
      namespace_step-found (Done accounts) n r s c.secrets rules c.namespaces
        (pass.done c.service_accounts) mn active mr ms in
    let every = done (rw (sn, sr) refl) in
    let here : Memᴰ a accounts =
      subst (λ (d : Cluster). Memᴰ a d.service_accounts) (reconcile_config_lem rules c) ma in
    IsListed-found s a
      (All-member (HasSecret (step n.name r s)) a accounts every here (rw (an, ar) refl))
