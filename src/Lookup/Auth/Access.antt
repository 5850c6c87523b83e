-- ===== src/Lookup/Auth/Access.antt =====
-- Who gets past the decorators of authnz.py.
use educates_training_platfo.Prelude.{
  ℕ, String, ◌≡◌, ◌≢◌, refl, ap, true, Option, none, some, List, [], ◌∷◌, arith, contains, All,
  Bool-cases, inl, inr, is_empty, str_eq_refl,
}
use educates_training_platfo.Lookup.Caches.Clients.{
  ClientConfig, ClientDatabase, identity, get_client, has_required_role, matched_from, insert_new,
}
use educates_training_platfo.Lookup.Auth.{
  pass, Claims, Jwt, jwt_token_middleware, validate_identity, login_required, roles_accepted,
  authorize,
}
use educates_training_platfo.Lookup.Auth.Tokens.{bind-pass, accepted, same_text-eq}

-- A role that the client has and the endpoint asks for.
abbrev pub Granted : List String → List String → String → Type 0
Granted has required role = (contains role has ≡ true) × (contains role required ≡ true)

Granted-cons :
    (has required : List String) (x : String) (matched : List String)
    → All (Granted has required) matched
    → All (Granted has (x ∷ required)) matched
Granted-cons has required x [] h = tt
Granted-cons has required x (m ∷ ms) h =
    ((h.0.0, ground (arith, h.0.1)), Granted-cons has required x ms h.1)

contains_refl : (x : String) (xs : List String) → contains x (x ∷ xs) ≡ true
contains_refl x xs = rw (str_eq_refl x)

insert_new-All {κ} :
    (P : String → Type κ) (x : String) (xs : List String) → P x → All P xs → All P (insert_new x xs)
insert_new-All P x xs p h = elim (Bool-cases (contains x xs)) [
  | inl t ↦ rw t h
  | inr f ↦ rw f (p, h)
]

-- The loop reads `rest` of the roles that are asked for.
matched_from-Granted :
    (has rest required matched : List String)
    → All (λ r. contains r required ≡ true) rest
    → All (Granted has required) matched
    → All (Granted has required) (matched_from matched has rest)
unfolding matched_from
matched_from-Granted has [] required matched a h = h
matched_from-Granted has (x ∷ rest) required matched a h = elim (Bool-cases (contains x has)) [
  | inl t ↦ rw t (
      matched_from-Granted has rest required _ a.1
        (insert_new-All (Granted has required) x matched (t, a.0) h))
  | inr f ↦ rw f (matched_from-Granted has rest required matched a.1 h)
]

contains-cons :
    (r x : String) (xs : List String) → contains r xs ≡ true → contains r (x ∷ xs) ≡ true
contains-cons r x xs h = ground arith

All-contained :
    (xs ys : List String)
    → ((r : String) → contains r xs ≡ true → contains r ys ≡ true)
    → All (λ r. contains r ys ≡ true) xs
All-contained [] ys h = tt
All-contained (x ∷ xs) ys h =
    (h x (contains_refl x xs), All-contained xs ys (λ r k. h r (contains-cons r x xs k)))

accepted_roles :
    (roles : List String) (c : ClientConfig) (matched : List String)
    → roles_accepted roles c ≡ pass matched
    → (matched ≢ []) × All (Granted c.roles roles) matched
unfolding roles_accepted has_required_role
accepted_roles roles c matched h = elim (Bool-cases (is_empty (matched_from [] c.roles roles))) [
  | inl t ↦ absurd (ground arith)
  | inr f ↦
      let e : matched_from [] c.roles roles ≡ matched = ground arith in
      (
        (λ k. absurd (ground (arith, ap is_empty e, ap is_empty k))),
        rw (← e)
            (matched_from-Granted c.roles roles roles [] (All-contained roles roles (λ r k. k)) tt),
      )
]

logged_in :
    (db : ClientDatabase) (token : Option Claims) (c : ClientConfig)
    → login_required db token ≡ pass c
    → (t : Claims) × (token ≡ some t)
unfolding login_required
logged_in db none c h = absurd (ground arith)
logged_in db (some t) c h = (t, refl)

-- A handler behind the decorators runs only for a request whose token decodes to the claims of a
-- client of the database with exactly that identity, and the roles that it is told are some that
-- the client has and the endpoint accepts, at least one.
pub authorize_sound :
    (jwt : Jwt) (now : ℕ) (db : ClientDatabase) (roles : List String) (header : Option (List ℕ))
    (c : ClientConfig) (matched : List String)
    → authorize jwt now db roles header ≡ pass (c, matched)
    → (t : Claims) × (jwt_token_middleware jwt now header ≡ pass (some t))
      × (get_client db t.sub ≡ some c)
      × (identity c ≡ t.jti)
      × (matched ≢ [])
      × All (Granted c.roles roles) matched
unfolding authorize
authorize_sound jwt now db roles header c matched h =
    let (token, e, k) = bind-pass (jwt_token_middleware jwt now header) _ h in
    let (client, f, k') = bind-pass (login_required db token) _ k in
    let (roles', g, k'') = bind-pass (roles_accepted roles client) _ k' in
    let who : client ≡ c = ground arith in
    let what : roles' ≡ matched = ground arith in
    let (t, same) = logged_in db token client f in
    let (known, valid) = accepted db t c (rw (← who) (rw same at f)) in
    let (some_role, granted) = accepted_roles roles c matched (rw (← who, ← what) g) in
    (
      t,
      rw (← same) e,
      known,
      unfold validate_identity in same_text-eq (identity c) t.jti valid,
      some_role,
      granted,
    )
