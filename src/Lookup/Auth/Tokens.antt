-- ===== src/Lookup/Auth/Tokens.antt =====
-- How long a token of authnz.py is good: login, logout, and an update of the client's resource.
use educates_training_platfo.Prelude.{
  ℕ, ◌+◌, String, ◌≡◌, refl, sym, ap, ◌∙◌, ◌≢◌, true, false, some, List, [], ◌∷◌, ◌++◌, arith,
  str_eq, eq_iff, Bool-cases, Option-cases, inl, inr, opt_eq→eq, default,
}
use educates_training_platfo.Dict.{
  put, get-put, get-put_self, Entries, get-Entries, put-Entries, pop-Entries,
}
use educates_training_platfo.Glob.{codes}
use educates_training_platfo.Decimal.{decimal-injective}
use educates_training_platfo.Lookup.Caches.Clients
use educates_training_platfo.Lookup.Caches.Clients.{
  ClientConfig, ClientDatabase, ClientSpec, identity, get_client, authenticate_client,
  check_password, revoke_tokens, update_client, clientconfigs_update, clientconfigs_delete,
}
use educates_training_platfo.Lookup.Auth.{
  Reply, pass, refuse, ◌>>=◌, Claims, login_claims, same_text, validate_identity, known_client,
  login_required, api_auth_login, api_auth_logout,
}

same_text_refl : (xs : List ℕ) → same_text xs xs ≡ true
unfolding same_text
same_text_refl [] = refl
same_text_refl (x ∷ xs) = ground (arith, same_text_refl xs)

pub same_text-eq : (xs ys : List ℕ) → same_text xs ys ≡ true → xs ≡ ys
unfolding same_text
same_text-eq [] [] h = refl
same_text-eq [] (y ∷ ys) h = absurd (ground arith)
same_text-eq (x ∷ xs) [] h = absurd (ground arith)
same_text-eq (x ∷ xs) (y ∷ ys) h = ground (arith, same_text-eq xs ys)

append-cancel {ℓ} : {A : Type ℓ} (xs : List A) {ys zs : List A} → xs ++ ys ≡ xs ++ zs → ys ≡ zs
append-cancel [] h = h
append-cancel (x ∷ xs) h = append-cancel xs (cc)

-- Two issues of one client never have the same identity.
issue-injective :
    (c : ClientConfig) (n : ℕ) → identity c ≡ identity (record c { issue = n }) → c.issue ≡ n
unfolding identity
issue-injective c n e =
    decimal-injective c.issue n (
      cc
        (append-cancel (codes (default "None" c.uid)) (append-cancel (codes "client@educates:") e)))

revoked-validate :
    (c : ClientConfig) (text : List ℕ)
    → validate_identity c text ≡ true
    → validate_identity (revoke_tokens c) text ≡ false
unfolding validate_identity revoke_tokens
revoked-validate c text h =
    elim (Bool-cases (same_text (identity (record c { issue = c.issue + 1 })) text)) [
      | inr f ↦ f
      | inl t ↦
          let e =
            issue-injective c (c.issue + 1)
              (same_text-eq (identity c) text h ∙ sym (same_text-eq _ text t)) in
          absurd (omega (arith, e))
    ]

-- What a token that is accepted says about the database.
pub accepted :
    (db : ClientDatabase) (t : Claims) (c : ClientConfig)
    → login_required db (some t) ≡ pass c
    → (get_client db t.sub ≡ some c) × (validate_identity c t.jti ≡ true)
unfolding login_required
accepted db t c h = elim (Option-cases (get_client db t.sub)) [
  | inl e ↦ absurd (ground arith)
  | inr (d, e) ↦ ground arith
]

-- Each client stands under its own name.
abbrev pub Named : ClientDatabase → Type 0
Named db = Entries (λ k c. c.name ≡ k) db.clients

-- Both handlers of the clients' resources keep every client under its own name.
pub clientconfigs-Named :
    (db : ClientDatabase)
    → Named db
    → ((spec : ClientSpec) → Named (clientconfigs_update spec db))
      × ((name : String) → Named (clientconfigs_delete name db))
unfolding clientconfigs_update clientconfigs_delete update_client Clients.remove_client
clientconfigs-Named db h = (
  (λ spec. put-Entries (λ k c. c.name ≡ k) db.clients spec.name _ refl h),
  (λ name. pop-Entries (λ k c. c.name ≡ k) db.clients name h),
)

login-authenticated :
    (db : ClientDatabase) (now : ℕ) (username password : String) (t : Claims)
    → api_auth_login db now (some username) (some password) ≡ pass t
    → (c : ClientConfig) × (get_client db username ≡ some c)
      × (c.password ≡ some password)
      × (t ≡ login_claims now c)
unfolding api_auth_login authenticate_client check_password
login-authenticated db now username password t h = elim (Option-cases (get_client db username)) [
  | inl e ↦ absurd (ground arith)
  | inr (c, e) ↦ (c, e, opt_eq→eq c.password password (ground arith), ground arith)
]

login_claims-accepted :
    (db : ClientDatabase) (now : ℕ) (c : ClientConfig)
    → get_client db c.name ≡ some c
    → login_required db (some (login_claims now c)) ≡ pass c
unfolding login_required login_claims validate_identity
login_claims-accepted db now c e = rw (e, known_client, same_text_refl (identity c))

-- A login that succeeds is with the password of the client of that name, and the token that it
-- gives is accepted as that client's as long as the database stays as it is.
pub login_accepted :
    (db : ClientDatabase) (now : ℕ) (username password : String) (t : Claims)
    → Named db
    → api_auth_login db now (some username) (some password) ≡ pass t
    → (c : ClientConfig) × (get_client db username ≡ some c)
      × (c.password ≡ some password)
      × (login_required db (some t) ≡ pass c)
login_accepted db now username password t named h =
    let (c, e, p, f) = login-authenticated db now username password t h in
    let own : c.name ≡ username =
      get-Entries (λ k c. c.name ≡ k) db.clients username c named (unfold get_client in e) in
    (c, e, p, rw f (login_claims-accepted db now c (rw own e)))

pub bind-pass {ℓ κ} :
    {A : Type ℓ} {B : Type κ} (m : Reply A) (f : A → Reply B) {b : B}
    → (m >>= f) ≡ pass b
    → (a : A) × (m ≡ pass a) × (f a ≡ pass b)
bind-pass (pass a) f h = (a, refl, h)
bind-pass (refuse n) f h = absurd (ground arith)

logged_out :
    (db db' : ClientDatabase) (t : Claims)
    → api_auth_logout db (some t) ≡ pass db'
    → (c : ClientConfig) × (login_required db (some t) ≡ pass c)
      × (db' ≡ record { clients = put db.clients t.sub (revoke_tokens c) })
unfolding api_auth_logout
logged_out db db' t h =
    let (c, e, f) = bind-pass (login_required db (some t)) _ h in (c, e, ground arith)

refused :
    (db : ClientDatabase) (t : Claims) (c : ClientConfig)
    → get_client db t.sub ≡ some c
    → validate_identity c t.jti ≡ false
    → login_required db (some t) ≡ refuse 401
unfolding login_required
refused db t c e v = rw (e, known_client, v)

owner :
    (db : ClientDatabase) (t s : Claims) (c d : ClientConfig)
    → login_required db (some t) ≡ pass c
    → s.sub ≡ t.sub
    → get_client db s.sub ≡ some d
    → c ≡ d
owner db t s c d e same g =
    let found : some c ≡ some d = sym (accepted db t c e).0 ∙ ap (get_client db) (sym same) ∙ g in
    cc

other_token :
    (db : ClientDatabase) (t s : Claims) (c : ClientConfig)
    → s.sub ≢ t.sub
    → login_required (record { clients = put db.clients t.sub c }) (some s)
      ≡ login_required db (some s)
unfolding login_required get_client
other_token db t s c ne = elim (Bool-cases (str_eq t.sub s.sub)) [
  | inl e ↦ absurd (ne (sym ((eq_iff t.sub s.sub).0 e)))
  | inr e ↦ rw (get-put db.clients t.sub s.sub c, e)
]

-- After a logout that succeeds, no token of the same client is accepted any more that was accepted
-- before it.
pub logout_revokes :
    (db db' : ClientDatabase) (t s : Claims) (d : ClientConfig)
    → api_auth_logout db (some t) ≡ pass db'
    → s.sub ≡ t.sub
    → login_required db (some s) ≡ pass d
    → login_required db' (some s) ≡ refuse 401
logout_revokes db db' t s d h same ok =
    let (c, e, f) = logged_out db db' t h in
    let (g, v) = accepted db s d ok in
    rw f (
      refused _ s (revoke_tokens c)
        (unfold get_client in rw same (get-put_self db.clients t.sub (revoke_tokens c)))
        (revoked-validate c s.jti (rw (owner db t s c d e same g) v)))

-- A logout that succeeds changes nothing for the tokens of other clients, good or bad.
pub logout_others :
    (db db' : ClientDatabase) (t s : Claims)
    → api_auth_logout db (some t) ≡ pass db'
    → s.sub ≢ t.sub
    → login_required db' (some s) ≡ login_required db (some s)
logout_others db db' t s h ne =
    let (c, e, f) = logged_out db db' t h in rw f (other_token db t s (revoke_tokens c) ne)

-- The client that an update of its resource puts in place.
renewed : ClientSpec → ClientConfig
renewed spec = record {
  name = spec.name;
  uid = spec.uid;
  issue = 1;
  password = spec.password;
  user = spec.user;
  tenants = default [] spec.tenants;
  roles = default [] spec.roles;
}

same_identity :
    (c : ClientConfig) (spec : ClientSpec)
    → c.issue ≡ 1
    → spec.uid ≡ c.uid
    → identity (renewed spec) ≡ identity c
unfolding identity renewed
same_identity c spec first uid = rw (first, uid)

known_token :
    (db : ClientDatabase) (t : Claims) (c : ClientConfig)
    → get_client db t.sub ≡ some c
    → validate_identity c t.jti ≡ true
    → login_required db (some t) ≡ pass c
unfolding login_required
known_token db t c e v = rw (e, known_client, v)

-- A token that was good before a logout is good again once the client's resource is updated, or
-- seen again, after it: the handler starts the issues over from 1.
pub revoked_token_revived :
    (db db' : ClientDatabase) (t : Claims) (c : ClientConfig) (spec : ClientSpec)
    → login_required db (some t) ≡ pass c
    → c.issue ≡ 1
    → api_auth_logout db (some t) ≡ pass db'
    → spec.name ≡ t.sub
    → spec.uid ≡ c.uid
    → (d : ClientConfig) × (login_required (clientconfigs_update spec db') (some t) ≡ pass d)
revoked_token_revived db db' t c spec ok first out name uid =
    let (g, v) = accepted db t c ok in
    let d = renewed spec in
    (
      d,
      known_token _ t d
          (unfold clientconfigs_update update_client get_client renewed in
            rw name (get-put_self db'.clients t.sub _))
          (unfold validate_identity in
            rw (same_identity c spec first uid) (unfold validate_identity in v)),
    )
