-- ===== src/Portal/Lifecycle/Moves.antt =====
-- The changes of a row that the views of views/session.py may make.
use educates_training_platfo.Prelude.{
  ℕ, String, Bool, true, false, not, ◌≡◌, refl, ◌⊎◌, inl, inr, Option, none, some, List, [], ◌∷◌,
  is_some, arith, Bool-cases, Option-cases, both,
}
use educates_training_platfo.Portal.Models.{
  SessionState, Environment, Session, TrainingPortal, same_name, is_stopped, mark_as_running,
  mark_as_stopping,
}
use educates_training_platfo.Portal.Expiry.{extend_time_remaining, is_extension_permitted, extended}
use educates_training_platfo.Portal.Sessions.{first, change_first}
use educates_training_platfo.Portal.Sessions.Counts.{first_passes}
use educates_training_platfo.Portal.Lifecycle.{
  Requester, View, activate, live, allocated_session, run_in, permitted,
}

-- Staff, robots, the owner, and whoever has the token that activates the session.
abbrev pub IsAllowed : Requester → View → Session → Type 0
IsAllowed r v s =
    (permitted r s ≡ true)
    ⊎ ((token : String) × (v ≡ activate (some token)) × (s.token ≡ some token))

-- The row is that of the name, has not stopped, and keeps its name, environment and owner. Only an
-- activation makes it run, and only for a session that has an owner.
pub record IsMoved (r : Requester) (name : List ℕ) (v : View) (s t : Session) : Type 0 where
  pub allowed : IsAllowed r v s
  pub named : same_name s.name name ≡ true
  pub alive : is_stopped s ≡ false
  pub same_session : t.name ≡ s.name
  pub same_environment : t.environment ≡ s.environment
  pub same_owner : t.owner ≡ s.owner
  pub next :
      (t.state ≡ s.state)
      ⊎ (t.state ≡ SessionState.stopping)
      ⊎ ((t.state ≡ SessionState.running) × (is_some s.owner ≡ true))

abbrev pub Moves : Requester → List ℕ → View → List Session → List Session → Type 0
Moves r name v [] [] = Unit
Moves r name v (s ∷ ss) (t ∷ ts) = ((t ≡ s) ⊎ IsMoved r name v s t) × Moves r name v ss ts
Moves r name v _ _ = ⊥

module _ (r : Requester) (name : List ℕ) (v : View) where
  pub Moves-refl : (ss : List Session) → Moves r name v ss ss
  Moves-refl [] = tt
  Moves-refl (s ∷ ss) = (inl refl, Moves-refl ss)

  pub change_first-Moves :
      (q : Session → Bool) (f : Session → Session) (ss : List Session)
      → ((s : Session) → first q ss ≡ some s → (f s ≡ s) ⊎ IsMoved r name v s (f s))
      → Moves r name v ss (change_first q f ss)
  unfolding first change_first
  change_first-Moves q f [] h = tt
  change_first-Moves q f (s ∷ ss) h = elim (Bool-cases (q s)) [
    | inl y ↦ rw y (h s (rw y refl), Moves-refl ss)
    | inr k ↦ rw k (inl refl, change_first-Moves q f ss (λ t e. h t (rw k e)))
  ]

pub live_parts :
    (name : List ℕ) (p : TrainingPortal) (s : Session)
    → allocated_session name p ≡ some s
    → (same_name s.name name ≡ true) × (is_stopped s ≡ false)
unfolding allocated_session
live_parts name p s h =
    let (a, b) =
      both (same_name s.name name) (not (is_stopped s)) (first_passes (live name) p.sessions s h) in
    (a, ground (arith, b))

pub stopping-IsMoved :
    (now : ℕ) (r : Requester) (name : List ℕ) (v : View) (s : Session)
    → IsAllowed r v s
    → (same_name s.name name ≡ true) × (is_stopped s ≡ false)
    → IsMoved r name v s (mark_as_stopping now s)
unfolding mark_as_stopping
stopping-IsMoved now r name v s a h = record {
  allowed = a;
  named = h.0;
  alive = h.1;
  same_session = refl;
  same_environment = refl;
  same_owner = refl;
  next = inr (inl refl);
}

pub running-IsMoved :
    (now : ℕ) (e : Option Environment) (r : Requester) (name : List ℕ) (v : View) (s : Session)
    → IsAllowed r v s
    → (same_name s.name name ≡ true) × (is_stopped s ≡ false)
    → is_some s.owner ≡ true
    → (run_in now e s ≡ s) ⊎ IsMoved r name v s (run_in now e s)
unfolding run_in mark_as_running
running-IsMoved now none r name v s a h o = inl refl
running-IsMoved now (some e) r name v s a h o = inr (record {
  allowed = a;
  named = h.0;
  alive = h.1;
  same_session = refl;
  same_environment = refl;
  same_owner = refl;
  next = inr (inr (refl, o));
})

abbrev pub SameRow : Session → Session → Type 0
SameRow s t =
    (t.name ≡ s.name) × (t.environment ≡ s.environment) × (t.owner ≡ s.owner) × (t.state ≡ s.state)

extended-SameRow : (e : Environment) (s t : Session) → extended e s ≡ some t → SameRow s t
unfolding extended
extended-SameRow e s t h = elim (Option-cases s.expires) [
  | inl f ↦ absurd (ground (arith, h, f))
  | inr (x, f) ↦ elim (Option-cases s.started) [
    | inl g ↦ absurd (ground (arith, h, f, g))
    | inr (y, g) ↦ (
      ground (arith, h, f, g),
      ground (arith, h, f, g),
      ground (arith, h, f, g),
      ground (arith, h, f, g),
    )
  ]
]

-- An extension changes the time of expiry only.
pub extension-SameRow :
    (now : ℕ) (e : Environment) (s t : Session) (b : Bool)
    → extend_time_remaining now e s ≡ some (b, t)
    → SameRow s t
unfolding extend_time_remaining
extension-SameRow now e s t b h = elim (Option-cases (is_extension_permitted now e s)) [
  | inl f ↦ absurd (ground (arith, h, f))
  | inr (false, f) ↦ let same : s ≡ t = ground (arith, h, f) in rw (← same) (refl, refl, refl, refl)
  | inr (true, f) ↦ elim (Option-cases (extended e s)) [
    | inl g ↦ absurd (ground (arith, h, f, g))
    | inr (u, g) ↦
        let same : u ≡ t = ground (arith, h, f, g) in rw (← same) (extended-SameRow e s u g)
  ]
]
