-- ===== src/Portal/Reserved/Capacity.antt =====
-- The capacity of each environment, under `initiate_reserved_sessions` of manager/sessions.py.
use mathlib.Core.List.Memᴰ
use mathlib.Core.List.{Memᴰ}
use educates_training_platfo.Prelude.{
  ℕ, ◌+◌, ◌-◌, ◌≤◌, min, true, false, ◌≡◌, refl, ap, inl, inr, List, [], ◌∷◌, ◌==◌, leb, count, any,
  arith, Bool-cases, str_eq, str_eq_refl, eq_iff, keep-member, sym, ◌∙◌,
}
use educates_training_platfo.Portal.Models.{
  is_running, Environment, TrainingPortal, is_active_in, active_sessions_count,
  active_sessions_count_in,
}
use educates_training_platfo.Portal.Reserved.{
  setup_many, spare_in, running_environments, initiate_unlimited, initiate_limited,
  initiate_reserved_sessions,
}
use educates_training_platfo.Portal.Reserved.Maximum.{setup_many-active_in}

-- No two environments have the same name.
abbrev pub Distinct : List Environment → Type 0
Distinct [] = Unit
Distinct (e ∷ es) = (any (λ g. str_eq e.name g.name) es ≡ false) × Distinct es

not_named :
    (e f : Environment) (es : List Environment)
    → any (λ g. str_eq e.name g.name) es ≡ false
    → Memᴰ f es
    → str_eq e.name f.name ≡ false
not_named e f [] h m = absurd (Memᴰ.not-nil m)
not_named e f (g ∷ gs) h (Memᴰ.head same) = rw same (ground arith)
not_named e f (g ∷ gs) h (Memᴰ.tail m) = not_named e f gs (ground arith) m

Distinct-same :
    (es : List Environment) (e f : Environment)
    → Distinct es
    → Memᴰ e es
    → Memᴰ f es
    → str_eq e.name f.name ≡ true
    → e ≡ f
Distinct-same [] e f d m n h = absurd (Memᴰ.not-nil m)
Distinct-same (g ∷ gs) e f d (Memᴰ.head a) (Memᴰ.head b) h = a ∙ sym b
Distinct-same (g ∷ gs) e f d (Memᴰ.head a) (Memᴰ.tail m) h =
    absurd (ground (arith, h, ap (λ (x : Environment). x.name) a, not_named g f gs d.0 m))
Distinct-same (g ∷ gs) e f d (Memᴰ.tail m) (Memᴰ.head b) h = absurd (
    ground (
      arith,
      eq_iff e.name f.name,
      h,
      ap (λ (x : Environment). x.name) b,
      str_eq_refl g.name,
      not_named g e gs d.0 m,
    ))
Distinct-same (g ∷ gs) e f d (Memᴰ.tail m) (Memᴰ.tail n) h = Distinct-same gs e f d.1 m n h

running_environments-member :
    (e : Environment) (es : List Environment) → Memᴰ e (running_environments es) → Memᴰ e es
unfolding running_environments
running_environments-member e es m = (keep-member is_running e es m).0

-- Where every environment of the list that has the name of `f` is `f`.
module _ (now : ℕ) (f : Environment) where
  abbrev OnlyAs : List Environment → Type 0
  OnlyAs es = (e : Environment) → Memᴰ e es → str_eq e.name f.name ≡ true → e ≡ f

  least :
      (n : ℕ) (e : Environment) (p : TrainingPortal)
      → e ≡ f
      → n ≤ spare_in e p
      → n ≤ f.capacity - count (is_active_in f) p.sessions
  unfolding spare_in active_sessions_count_in
  least n e p same small =
      let small' : n ≤ spare_in f p = rw (← same) small in omega (arith, small')

  one_step :
      (e : Environment) (n : ℕ) (p : TrainingPortal)
      → (str_eq e.name f.name ≡ true → e ≡ f)
      → n ≤ spare_in e p
      → count (is_active_in f) p.sessions ≤ f.capacity
      → count (is_active_in f) (setup_many now n e p).sessions ≤ f.capacity
  unfolding spare_in active_sessions_count_in
  one_step e n p only small h = elim (Bool-cases (str_eq e.name f.name)) [
    | inl t ↦
        let made : count (is_active_in f) (setup_many now n e p).sessions
            ≡ count (is_active_in f) p.sessions + n =
          ground (arith, t, setup_many-active_in now n e f p) in
        let room : n ≤ f.capacity - count (is_active_in f) p.sessions =
          least n e p (only t) small in
        omega (arith, h, made, room)
    | inr g ↦
        let made : count (is_active_in f) (setup_many now n e p).sessions
            ≡ count (is_active_in f) p.sessions =
          ground (arith, g, setup_many-active_in now n e f p) in
        omega (arith, h, made)
  ]

  initiate_unlimited-capacity :
      (es : List Environment) (p : TrainingPortal)
      → OnlyAs es
      → count (is_active_in f) p.sessions ≤ f.capacity
      → count (is_active_in f) (initiate_unlimited now es p).sessions ≤ f.capacity
  unfolding initiate_unlimited
  initiate_unlimited-capacity [] p only h = h
  initiate_unlimited-capacity (e ∷ es) p only h =
      initiate_unlimited-capacity es _ (λ g m. only g (Memᴰ.tail m))
        (one_step e (spare_in e p) p (only e (Memᴰ.head refl)) (omega arith) h)

  initiate_limited-capacity :
      (spare : ℕ) (es : List Environment) (p : TrainingPortal)
      → OnlyAs es
      → count (is_active_in f) p.sessions ≤ f.capacity
      → count (is_active_in f) (initiate_limited now spare es p).sessions ≤ f.capacity
  unfolding initiate_limited
  initiate_limited-capacity spare [] p only h = h
  initiate_limited-capacity spare (e ∷ es) p only h =
      let n = min (spare_in e p) spare in
      let made = one_step e n p (only e (Memᴰ.head refl)) (omega arith) h in
      elim (Bool-cases ((spare - n) == 0)) [
        | inl t ↦ rw t made
        | inr g ↦ rw g (
            initiate_limited-capacity (spare - n) es (setup_many now n e p)
              (λ k m. only k (Memᴰ.tail m)) made)
      ]

  -- Making reserved sessions does not put an environment of the portal over its capacity, if the
  -- names of the environments are distinct.
  pub initiate_reserved_sessions-capacity :
      (p : TrainingPortal)
      → Distinct p.environments
      → Memᴰ f p.environments
      → active_sessions_count_in f p ≤ f.capacity
      → active_sessions_count_in f (initiate_reserved_sessions now p) ≤ f.capacity
  unfolding initiate_reserved_sessions active_sessions_count_in
  initiate_reserved_sessions-capacity p d m h =
      let es = running_environments p.environments in
      let only = λ (e : Environment) (k : Memᴰ e es).
        Distinct-same p.environments e f d (running_environments-member e p.environments k) m in
      elim (Bool-cases (p.sessions_maximum == 0)) [
        | inl t ↦ rw t (initiate_unlimited-capacity es p only h)
        | inr z ↦ elim (Bool-cases (leb p.sessions_maximum (active_sessions_count p))) [
          | inl t ↦ rw (z, t) h
          | inr g ↦ rw (z, g) (initiate_limited-capacity _ es p only h)
        ]
      ]
