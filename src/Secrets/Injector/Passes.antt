-- ===== src/Secrets/Injector/Passes.antt =====
-- Injections of secrets into service accounts, and what runs of them leave in place.
use educates_training_platfo.Prelude.{
  String, Bool, true, ◌&&◌, ◌||◌, ◌≡◌, refl, inl, inr, List, [], ◌∷◌, ◌++◌, arith, Bool-cases, All,
  All-append, All-parts, All-map, contains, str_eq, str_eq_refl, ap, ◌∙◌,
}
use educates_training_platfo.Secrets.Injector.{
  Rule, Secret, ServiceAccount, matches_source_secret, matches_service_account, names_for,
  inject_secret, inject_into, inject_selected,
}

contains-append :
    (s t : String) (xs : List String) → contains s (xs ++ t ∷ []) ≡ (contains s xs || str_eq s t)
contains-append s t [] = ground arith
contains-append s t (x ∷ xs) = ground (arith, contains-append s t xs)

-- The secret stands in the account, and stays there.
inject-has :
    (s : Secret) (a : ServiceAccount) → contains s.name (names_for s (inject_secret s a)) ≡ true
unfolding inject_secret
inject-has s a = ground (
  arith,
  contains-append s.name s.name a.image_pull_secrets,
  contains-append s.name s.name a.secrets,
  str_eq_refl s.name,
)

inject-keeps :
    (s t : Secret) (a : ServiceAccount)
    → contains s.name (names_for s a) ≡ true
    → contains s.name (names_for s (inject_secret t a)) ≡ true
unfolding inject_secret
inject-keeps s t a h = ground (
  arith,
  h,
  contains-append s.name t.name a.image_pull_secrets,
  contains-append s.name t.name a.secrets,
)

pub inject-done :
    (s : Secret) (a : ServiceAccount)
    → contains s.name (names_for s a) ≡ true
    → inject_secret s a ≡ a
unfolding inject_secret
inject-done s a h = rw h refl

-- A secret that is looked at for one rule and one namespace.
pub record Step : Type 0 where
  pub namespace : String
  pub rule : Rule
  pub secret : Secret

abbrev pub is_source : Step → Bool
is_source t = str_eq t.secret.namespace t.namespace && matches_source_secret t.secret t.rule

abbrev pub is_target : Step → ServiceAccount → Bool
is_target t a = str_eq a.namespace t.namespace && matches_service_account a t.rule

abbrev pub HasSecret : Step → ServiceAccount → Type 0
HasSecret t a = is_target t a ≡ true → contains t.secret.name (names_for t.secret a) ≡ true

-- Every account that the rule selects has the secret, if the rule selects the secret.
abbrev pub Done : List ServiceAccount → Step → Type 0
Done accounts t = is_source t ≡ true → All (HasSecret t) accounts

inject-is_target :
    (t : Step) (s : Secret) (a : ServiceAccount) → is_target t (inject_secret s a) ≡ is_target t a
unfolding inject_secret matches_service_account
inject-is_target t s a = ground arith

inject-HasSecret :
    (t : Step) (s : Secret) (a : ServiceAccount) → HasSecret t a → HasSecret t (inject_secret s a)
inject-HasSecret t s a h k = inject-keeps t.secret s a (h (rw (inject-is_target t s a) at k))

into-done :
    (t : Step) (accounts : List ServiceAccount)
    → All (HasSecret t) (inject_into t.namespace t.rule t.secret accounts)
unfolding inject_into
into-done t [] = tt
into-done t (a ∷ accounts) = (
  elim (Bool-cases (is_target t a)) [
    | inl y ↦ rw y (λ k. inject-has t.secret a)
    | inr n ↦ rw n (λ k. absurd (ground (arith, k, n)))
  ],
  into-done t accounts,
)

into-keeps :
    (t u : Step) (accounts : List ServiceAccount)
    → All (HasSecret u) accounts
    → All (HasSecret u) (inject_into t.namespace t.rule t.secret accounts)
unfolding inject_into
into-keeps t u [] h = tt
into-keeps t u (a ∷ accounts) h = (
  elim (Bool-cases (is_target t a)) [
    | inl y ↦ rw y (inject-HasSecret u t.secret a h.0)
    | inr n ↦ rw n h.0
  ],
  into-keeps t u accounts h.1,
)

into-idle :
    (t : Step) (accounts : List ServiceAccount)
    → All (HasSecret t) accounts
    → inject_into t.namespace t.rule t.secret accounts ≡ accounts
unfolding inject_into
into-idle t [] h = refl
into-idle t (a ∷ accounts) h = elim (Bool-cases (is_target t a)) [
  | inl y ↦ rw (y, inject-done t.secret a (h.0 y), into-idle t accounts h.1) refl
  | inr n ↦ rw (n, into-idle t accounts h.1) refl
]

-- A run that does the steps of a list, undoes none, and is idle where all of them are done.
pub record IsPass (steps : List Step) (f : List ServiceAccount → List ServiceAccount) : Type 0 where
  pub done : (accounts : List ServiceAccount) → All (Done (f accounts)) steps
  pub keeps : (accounts : List ServiceAccount) (t : Step) → Done accounts t → Done (f accounts) t
  pub idle : (accounts : List ServiceAccount) → All (Done accounts) steps → f accounts ≡ accounts

pub no_step : IsPass [] (λ accounts. accounts)
no_step = record { done = λ accounts. tt; keeps = λ accounts t h. h; idle = λ accounts h. refl }

pub run-IsPass : (t : Step) → IsPass (t ∷ []) (inject_selected t.namespace t.rule t.secret)
unfolding inject_selected
run-IsPass t = record {
  done = λ accounts. ((λ y. rw y (into-done t accounts)), tt);
  keeps = λ accounts u h. elim (Bool-cases (is_source t)) [
    | inl y ↦ rw y (λ k. into-keeps t u accounts (h k))
    | inr n ↦ rw n h
  ];
  idle = λ accounts h. elim (Bool-cases (is_source t)) [
    | inl y ↦ rw y (into-idle t accounts (h.0 y))
    | inr n ↦ rw n refl
  ];
}

module _ (ts us : List Step) (f g : List ServiceAccount → List ServiceAccount) where
  pub IsPass-after : IsPass ts f → IsPass us g → IsPass (ts ++ us) (λ accounts. g (f accounts))
  IsPass-after p q = record {
    done = λ accounts.
        All-append (Done (g (f accounts))) ts us
          (All-map (Done (f accounts)) (Done (g (f accounts))) (λ t h. q.keeps (f accounts) t h) ts
            (p.done accounts))
          (q.done (f accounts));
    keeps = λ accounts t h. q.keeps (f accounts) t (p.keeps accounts t h);
    idle = λ accounts h.
        let (a, b) = All-parts (Done accounts) ts us h in
        ap g (p.idle accounts a) ∙ q.idle accounts b;
  }

pub IsPass-idempotent :
    (ts : List Step) (f : List ServiceAccount → List ServiceAccount)
    → IsPass ts f
    → (accounts : List ServiceAccount) → f (f accounts) ≡ f accounts
IsPass-idempotent ts f p accounts = p.idle (f accounts) (p.done accounts)
