-- ===== src/Secrets/Copier/Permission.antt =====
-- What the copier may write: `update_secret` of secretcopier_funcs.py on any replies of the API.
use educates_training_platfo.Prelude.{
  String, Bool, true, false, ◌≡◌, refl, ◌⊎◌, inl, inr, Option, none, some, [], ◌∷◌, arith,
  Bool-cases, Option-cases, default, str_eq, opt_eq→eq, subst, ◌||◌, ◌∙◌,
}
use educates_training_platfo.Dict.{Dict, get, put, get-put_self}
use educates_training_platfo.Secrets.Matching.Names.{NameAllowed, name_selected_iff}
use educates_training_platfo.Secrets.Copier.{
  OwnerReference, BoundRule, Secret, Importer, Reply, found, missing, failed, Action, nothing,
  raises, create, update, copier_rule_key, secret_name_key, full_name, target_name_of, other_than,
  authorized, source_allowed, owner_reference_of, annotated, new_copy, is_foreign, is_current,
  new_version, place, place_owned, permit, of_importer, of_source, decide_secret,
}

abbrev pub written : Action → Option Secret
written nothing = none
written raises = none
written (create s) = some s
written (update s) = some s

-- The secret that stands there was not placed by another rule, nor from another secret.
abbrev pub IsOwn : BoundRule → OwnerReference → Secret → Secret → Type 0
IsOwn b o source old =
    (other_than (get old.annotations (copier_rule_key o)) b.owner_source ≡ false)
    × (other_than (get old.annotations (secret_name_key o)) (full_name source) ≡ false)

-- What `place` writes.
pub record IsPlaced (namespace : String) (b : BoundRule) (o : OwnerReference) (source : Secret)
    (rt : Reply Secret) (s : Secret) : Type 0 where
  pub own : (old : Secret) → rt ≡ found old → IsOwn b o source old
  pub kept : (old : Secret) → rt ≡ found old → (s.namespace ≡ old.namespace) × (s.name ≡ old.name)
  pub placed : rt ≡ missing → (s.namespace ≡ namespace) × (s.name ≡ target_name_of b)
  pub copied : (s.secret_type ≡ source.secret_type) × (s.contents ≡ source.contents)
  pub named : get s.annotations (secret_name_key o) ≡ some (full_name source)

annotated_lem :
    (b : BoundRule) (o : OwnerReference) (source : Secret) (a : Dict String)
    → get (annotated b o source a) (secret_name_key o) ≡ some (full_name source)
unfolding annotated
annotated_lem b o source a =
    get-put_self (put a (copier_rule_key o) b.owner_source) (secret_name_key o) (full_name source)

neither : (a b : Bool) → (a || b) ≡ false → (a ≡ false) × (b ≡ false)
neither true b h = absurd (ground arith)
neither false b h = (refl, h)

version-IsPlaced :
    (namespace : String) (b : BoundRule) (o : OwnerReference) (source t : Secret)
    → is_foreign b o source t ≡ false
    → IsPlaced namespace b o source (found t) (new_version b o source t)
unfolding new_version is_foreign
version-IsPlaced namespace b o source t h = record {
  own = λ old e. let same : t ≡ old = cc in rw (← same) (neither _ _ h);
  kept = λ old e. let same : t ≡ old = cc in rw (← same) (refl, refl);
  placed = λ e. absurd (ground arith);
  copied = (refl, refl);
  named = annotated_lem b o source t.annotations;
}

place-IsPlaced :
    (namespace : String) (b : BoundRule) (o : OwnerReference) (source s : Secret)
    (rt : Reply Secret)
    → written (place namespace b o source rt) ≡ some s
    → IsPlaced namespace b o source rt s
unfolding place new_copy new_version is_foreign
place-IsPlaced namespace b o source s missing h = record {
  own = λ old e. absurd (ground arith);
  kept = λ old e. absurd (ground arith);
  placed = λ _. (ground arith, ground arith);
  copied = (ground arith, ground arith);
  named = ground (arith, annotated_lem b o source []);
}
place-IsPlaced namespace b o source s failed h = absurd (ground arith)
place-IsPlaced namespace b o source s (found t) h = elim (Bool-cases (is_foreign b o source t)) [
  | inl y ↦ absurd (ground (arith, h, y))
  | inr n ↦ elim (Bool-cases (is_current b source t)) [
    | inl y ↦ absurd (ground (arith, h, n, y))
    | inr k ↦
        let same : new_version b o source t ≡ s = ground (arith, h, n, k) in
        subst (λ u. IsPlaced namespace b o source (found t) u) same
          (version-IsPlaced namespace b o source t n)
  ]
]

-- What a write `s` says of the replies that it follows.
pub record IsPermitted (namespace : String) (b : BoundRule) (rs : Reply Secret)
    (ri : Reply Importer) (rt : Reply Secret) (s : Secret) : Type 0 where
  pub source : Secret
  pub owner : OwnerReference
  pub read : rs ≡ found source
  pub elsewhere : str_eq b.rule.source_secret.namespace namespace ≡ false
  pub readable : (ri ≡ missing) ⊎ ((i : Importer) × (ri ≡ found i))
  pub shared :
      (text : String)
      → b.rule.shared_secret ≡ some text
      → (i : Importer) × (ri ≡ found i) × (i.shared_secret ≡ some text)
  pub allowed :
      (i : Importer)
      → ri ≡ found i
      → NameAllowed (default ("*" ∷ []) i.source_names) source.namespace
  pub placing : IsPlaced namespace b owner source rt s

abbrev reply_of : Option Importer → Reply Importer
reply_of none = missing
reply_of (some i) = found i

reply-readable :
    (importer : Option Importer)
    → (reply_of importer ≡ missing) ⊎ ((i : Importer) × (reply_of importer ≡ found i))
reply-readable none = inl refl
reply-readable (some i) = inr (i, refl)

authorized_lem :
    (importer : Option Importer) (shared : Option String) (text : String)
    → authorized shared importer ≡ true
    → shared ≡ some text
    → (i : Importer) × (reply_of importer ≡ found i) × (i.shared_secret ≡ some text)
unfolding authorized
authorized_lem importer none text h e = absurd (ground arith)
authorized_lem none (some t) text h e = absurd (ground arith)
authorized_lem (some i) (some t) text h e = (i, refl, opt_eq→eq i.shared_secret t h ∙ e)

allowed_lem :
    (importer : Option Importer) (namespace : String)
    → source_allowed importer namespace ≡ true
    → (i : Importer) → reply_of importer ≡ found i
    → NameAllowed (default ("*" ∷ []) i.source_names) namespace
unfolding source_allowed
allowed_lem none namespace h i e = absurd (ground arith)
allowed_lem (some j) namespace h i e =
    let same : j ≡ i = cc in
    (name_selected_iff namespace (default ("*" ∷ []) i.source_names)).0 (rw same at h)

permit-IsPermitted :
    (namespace : String) (b : BoundRule) (source s : Secret) (importer : Option Importer)
    (rt : Reply Secret)
    → str_eq b.rule.source_secret.namespace namespace ≡ false
    → written (permit namespace b source importer rt) ≡ some s
    → IsPermitted namespace b (found source) (reply_of importer) rt s
unfolding permit place_owned
permit-IsPermitted namespace b source s importer rt away h =
    elim (Bool-cases (authorized b.rule.shared_secret importer)) [
      | inr f ↦ absurd (ground (arith, h, f))
      | inl t ↦ elim (Bool-cases (source_allowed importer source.namespace)) [
        | inr f ↦ absurd (ground (arith, h, t, f))
        | inl u ↦ elim (Option-cases (owner_reference_of b.owner_reference importer)) [
          | inl f ↦ absurd (ground (arith, h, t, u, f))
          | inr (o, e) ↦ record {
            source = source;
            owner = o;
            read = refl;
            elsewhere = away;
            readable = reply-readable importer;
            shared = λ text k. authorized_lem importer b.rule.shared_secret text t k;
            allowed = allowed_lem importer source.namespace u;
            placing = place-IsPlaced namespace b o source s rt (ground (arith, h, t, u, e));
          }
        ]
      ]
    ]

of_source-IsPermitted :
    (namespace : String) (b : BoundRule) (rs : Reply Secret) (ri : Reply Importer)
    (rt : Reply Secret) (s : Secret)
    → str_eq b.rule.source_secret.namespace namespace ≡ false
    → written (of_source namespace b rs ri rt) ≡ some s
    → IsPermitted namespace b rs ri rt s
unfolding of_source of_importer
of_source-IsPermitted namespace b missing ri rt s away h = absurd (ground arith)
of_source-IsPermitted namespace b failed ri rt s away h = absurd (ground arith)
of_source-IsPermitted namespace b (found source) failed rt s away h = absurd (ground arith)
of_source-IsPermitted namespace b (found source) missing rt s away h =
    permit-IsPermitted namespace b source s none rt away h
of_source-IsPermitted namespace b (found source) (found i) rt s away h =
    permit-IsPermitted namespace b source s (some i) rt away h

-- Whatever the API replies, a secret is written only if: its source was read, in another namespace;
-- the importer could be read or there is none; an importer holds the shared secret that the rule
-- asks for; the importer, if there is one, allows the source's namespace (the name of the source,
-- which an importer can state as well, is not compared by the program); and the secret that
-- stands there was not placed by another rule or from another secret. The write keeps the place
-- of that secret or takes the rule's, and has the source's type and contents and its name.
pub decide_secret-IsPermitted :
    (namespace : String) (b : BoundRule) (rs : Reply Secret) (ri : Reply Importer)
    (rt : Reply Secret) (s : Secret)
    → written (decide_secret namespace b rs ri rt) ≡ some s
    → IsPermitted namespace b rs ri rt s
unfolding decide_secret
decide_secret-IsPermitted namespace b rs ri rt s h =
    elim (Bool-cases (str_eq b.rule.source_secret.namespace namespace)) [
      | inl t ↦ absurd (ground (arith, h, t))
      | inr f ↦ of_source-IsPermitted namespace b rs ri rt s f (rw f at h)
    ]
