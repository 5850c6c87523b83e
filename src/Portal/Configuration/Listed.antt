-- ===== src/Portal/Configuration/Listed.antt =====
-- The environments that shutdown_workshop_environments and update_workshop_environments leave starting or
-- running.
use mathlib.Core.List.{Memᴰ}
use mathlib.Core.List.Memᴰ
use educates_training_platfo.Prelude.{
  ℕ, ◌+◌, String, Bool, true, false, not, ◌&&◌, ◌≡◌, refl, ◌⊎◌, inl, inr, some, List, [], ◌∷◌,
  if◌then◌else◌, any, contains, keep, map, str_eq, str_eq_refl, eq_iff, All, All-intro, All-keep,
  All-map, member-keep, Bool-cases, Option-cases, arith, ltb, subst, ap,
}
use educates_training_platfo.Portal.Models.{Environment, TrainingPortal}
use educates_training_platfo.Portal.Reserved.{save_environment}
use educates_training_platfo.Portal.Reserved.Capacity.{Distinct}
use educates_training_platfo.Portal.Environments.{
  Workshop, Settings, settings_of, workshop_name_of, workshop_key, is_counted, leaving,
  find_current, environment_for_workshop, stop_environment, stop_unlisted, place_environment,
  without_environment, changed_environment, update_from,
}

abbrev pub key_of : Environment → String
key_of e = workshop_key e.workshop_name e.resource_name

abbrev pub keys_of : List Workshop → List String
keys_of ws = map (λ (w : Workshop). workshop_key (workshop_name_of w) w.name) ws

-- Starting or running only for a workshop of the list.
abbrev pub IsListed : List String → Environment → Type 0
IsListed keys e = is_counted e ≡ true → contains (key_of e) keys ≡ true

abbrev Named : Environment → Environment → Type 0
Named e g = str_eq e.name g.name ≡ false

others-Named :
    (e : Environment) (es : List Environment)
    → any (λ g. str_eq e.name g.name) es ≡ false
    → All (Named e) es
others-Named e [] h = tt
others-Named e (g ∷ gs) h = (ground (arith, h), others-Named e gs (ground (arith, h)))

any-save :
    (e x : Environment) (es : List Environment)
    → any (λ g. str_eq e.name g.name) (save_environment x es) ≡ any (λ g. str_eq e.name g.name) es
unfolding save_environment
any-save e x [] = refl
any-save e x (f ∷ fs) = ground (arith, any-save e x fs, eq_iff f.name x.name)

Distinct-save :
    (x : Environment) (es : List Environment) → Distinct es → Distinct (save_environment x es)
unfolding save_environment
Distinct-save x [] d = tt
Distinct-save x (f ∷ fs) d = elim (Bool-cases (str_eq f.name x.name)) [
  | inl t ↦ rw t (ground (arith, eq_iff f.name x.name, d.0), d.1)
  | inr n ↦ rw n (ground (arith, any-save f x fs, d.0), Distinct-save x fs d.1)
]

module _ (P Q : Environment → Type 0) (x : Environment) (q : Q x)
    (keeps : (f : Environment) → P f → str_eq f.name x.name ≡ false → Q f) where
  others :
      (f : Environment) (gs : List Environment)
      → str_eq f.name x.name ≡ true
      → All (Named f) gs
      → All P gs
      → All Q gs
  others f [] e n p = tt
  others f (g ∷ gs) e n p = (
    keeps g p.0
        (ground (arith, eq_iff f.name x.name, eq_iff g.name x.name, eq_iff f.name g.name, e, n.0)),
    others f gs e n.1 p.1,
  )

  All-save : (es : List Environment) → Distinct es → All P es → All Q (save_environment x es)
  unfolding save_environment
  All-save [] d p = tt
  All-save (f ∷ fs) d p = elim (Bool-cases (str_eq f.name x.name)) [
    | inl t ↦ rw t (q, others f fs t (others-Named f fs d.0) p.1)
    | inr n ↦ rw n (keeps f p.0 n, All-save fs d.1 p.1)
  ]

by_test :
    (P : TrainingPortal → Type 0) (b : Bool) (x y : TrainingPortal)
    → (b ≡ true → P x)
    → (b ≡ false → P y)
    → P (if b then x else y)
by_test P true x y h k = h refl
by_test P false x y h k = k refl

module _ (keys : List String) where
  -- Listed, or among those that are still to be looked at.
  abbrev Pending : List Environment → Environment → Type 0
  Pending es f = is_counted f ≡ true → (contains (key_of f) keys ≡ true) ⊎ Memᴰ f es

  passed :
      (e : Environment) (es : List Environment) (f : Environment)
      → contains (key_of e) keys ≡ true
      → Pending (e ∷ es) f
      → Pending es f
  passed e es f h p c = elim (p c) [
    | inl l ↦ inl l
    | inr m ↦ elim (Memᴰ.cases_cons m) [ inl same ↦ inl (rw same h) | inr k ↦ inr k ]
  ]

  renamed :
      (e : Environment) (es : List Environment) (f : Environment)
      → Pending (e ∷ es) f
      → str_eq f.name e.name ≡ false
      → Pending es f
  renamed e es f p n c = elim (p c) [
    | inl l ↦ inl l
    | inr m ↦ elim (Memᴰ.cases_cons m) [
      | inl same ↦ absurd (
          ground (
            arith,
            n,
            ap (λ (x : Environment). x.name) same,
            str_eq_refl e.name,
            eq_iff f.name e.name,
          ))
      | inr k ↦ inr k
    ]
  ]

  stop_unlisted-IsListed :
      (now : ℕ) (es : List Environment) (p : TrainingPortal)
      → Distinct p.environments
      → All (Pending es) p.environments
      → All (IsListed keys) (stop_unlisted now keys es p).environments
  unfolding stop_unlisted stop_environment leaving
  stop_unlisted-IsListed now [] p d h =
      All-map (Pending []) (IsListed keys)
        (λ f g c. elim (g c) [ inl l ↦ l | inr m ↦ absurd (Memᴰ.not-nil m) ]) p.environments h
  stop_unlisted-IsListed now (e ∷ es) p d h =
      by_test
        (λ (r : TrainingPortal). All (IsListed keys) (stop_unlisted now keys es r).environments)
        (contains (key_of e) keys) p (stop_environment now e p)
        (λ l.
          stop_unlisted-IsListed now es p d
            (All-map (Pending (e ∷ es)) (Pending es) (λ f. passed e es f l) p.environments h))
        (λ u.
          stop_unlisted-IsListed now es (stop_environment now e p)
            (Distinct-save (leaving e) p.environments d)
            (All-save (Pending (e ∷ es)) (Pending es) (leaving e) (λ c. cc) (renamed e es)
              p.environments d h))

  pub shutdown-IsListed :
      (now : ℕ) (p : TrainingPortal)
      → Distinct p.environments
      → All (IsListed keys) (stop_unlisted now keys (keep is_counted p.environments) p).environments
  shutdown-IsListed now p d = stop_unlisted-IsListed now (keep is_counted p.environments) p d (
      All-intro (Pending (keep is_counted p.environments)) p.environments
        (λ f m c. inr (member-keep is_counted f p.environments m c)))

found_in :
    (q : Environment → Bool) (P : Environment → Type 0) (es : List Environment) (e : Environment)
    → find_current q es ≡ some e
    → All P es
    → P e
unfolding find_current
found_in q P [] e h p = absurd (ground (arith, h))
found_in q P (f ∷ fs) e h p = elim (Bool-cases (is_counted f && q f)) [
  | inl t ↦ let same : f ≡ e = ground (arith, h, t) in subst P same p.0
  | inr n ↦ found_in q P fs e (ground (arith, h, n)) p.1
]

pub All-place :
    (P : Environment → Type 0) (e : Environment) (es : List Environment)
    → P e
    → All P es
    → All P (place_environment e es)
unfolding place_environment
All-place P e [] a p = (a, tt)
All-place P e (f ∷ fs) a p = elim (Bool-cases (ltb e.position f.position)) [
  | inl t ↦ rw t (a, p)
  | inr n ↦ rw n (p.0, All-place P e fs a p.1)
]

pub update_from-IsListed :
    (keys : List String) (position : ℕ) (ws : List Workshop) (p p' : TrainingPortal)
    → All (IsListed keys) p.environments
    → update_from position ws p ≡ some p'
    → All (IsListed keys) p'.environments
unfolding update_from environment_for_workshop changed_environment without_environment
update_from-IsListed keys position [] p p' h e =
    let same : p ≡ p' = cc in
    subst (λ (d : TrainingPortal). All (IsListed keys) d.environments) same h
update_from-IsListed keys position (w ∷ ws) p p' h e =
    elim (Option-cases (environment_for_workshop (workshop_name_of w) p)) [
      | inl k ↦ update_from-IsListed keys (position + 1) ws p p' h (ground (arith, e, k))
      | inr (f, k) ↦ elim (Option-cases (settings_of w)) [
        | inl g ↦ absurd (ground (arith, e, k, g))
        | inr (x, g) ↦
            let changed = changed_environment w position x f in
            let kept = without_environment f.name p.environments in
            update_from-IsListed keys (position + 1) ws
              (record p { environments = place_environment changed kept }) p'
              (All-place (IsListed keys) changed kept
                (found_in (λ g. str_eq g.workshop_name (workshop_name_of w)) (IsListed keys)
                  p.environments f k h)
                (All-keep (IsListed keys) (λ g. not (str_eq g.name f.name)) p.environments h))
              (ground (arith, e, k, g))
      ]
    ]

-- The durations and labels of the workshop can be read.
abbrev pub HasSettings : Workshop → Type 0
HasSettings w = (x : Settings) × (settings_of w ≡ some x)

pub update_from-Returns :
    (position : ℕ) (ws : List Workshop) (p : TrainingPortal)
    → All HasSettings ws
    → (p' : TrainingPortal) × (update_from position ws p ≡ some p')
unfolding update_from
update_from-Returns position [] p h = (p, refl)
update_from-Returns position (w ∷ ws) p h =
    elim (Option-cases (environment_for_workshop (workshop_name_of w) p)) [
      | inl k ↦
          let (q, e) = update_from-Returns (position + 1) ws p h.1 in (q, ground (arith, k, e))
      | inr (f, k) ↦
          let (x, g) = h.0 in
          let (q, e) =
            update_from-Returns (position + 1) ws
              (record p {
                environments =
                    place_environment (changed_environment w position x f)
                      (without_environment f.name p.environments);
              })
              h.1 in
          (q, ground (arith, k, g, e))
    ]
