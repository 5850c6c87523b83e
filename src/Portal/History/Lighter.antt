-- ===== src/Portal/History/Lighter.antt =====
-- The weight of the sessions of a portal: those that count for its maximum.
use educates_training_platfo.Prelude.{
  ℕ, ◌≤◌, ◌≡◌, inl, inr, List, [], ◌∷◌, arith, Option-cases, ◌∙◌,
}
use educates_training_platfo.Portal.Models.{Session, TrainingPortal, mark_as_stopping}
use educates_training_platfo.Portal.Sessions.Counts.{held, held_one, Within}
use educates_training_platfo.Portal.Termination.Stops.{KeptOrStopped, Stops}

-- No row weighs more than it did.
abbrev pub Lighter : List Session → List Session → Type 0
Lighter [] [] = Unit
Lighter (s ∷ ss) (t ∷ ts) = (held_one t ≤ held_one s) × Lighter ss ts
Lighter _ _ = ⊥

pub Lighter-held : (ss ts : List Session) → Lighter ss ts → held ts ≤ held ss
Lighter-held [] [] h = omega arith
Lighter-held [] (t ∷ ts) h = elim h [ ]
Lighter-held (s ∷ ss) [] h = elim h [ ]
Lighter-held (s ∷ ss) (t ∷ ts) h = omega (arith, h.0, Lighter-held ss ts h.1)

pub held-Within :
    (p p' : TrainingPortal)
    → p'.sessions_maximum ≡ p.sessions_maximum
    → held p'.sessions ≤ held p.sessions
    → Within p
    → Within p'
held-Within p p' same h (inl z) = inl (same ∙ z)
held-Within p p' same h (inr k) = inr (omega (arith, same, h, k))

pub stopped_lighter : (now : ℕ) (s t : Session) → KeptOrStopped now s t → held_one t ≤ held_one s
unfolding mark_as_stopping
stopped_lighter now s t (inl e) = rw e (omega arith)
stopped_lighter now s t (inr (a, e)) = elim (Option-cases s.owner) [
  | inl f ↦ rw (e, f) (omega arith)
  | inr (o, f) ↦ absurd (ground (arith, a, f))
]

pub Stops-Lighter : (now : ℕ) (ss ts : List Session) → Stops now ss ts → Lighter ss ts
Stops-Lighter now [] [] h = tt
Stops-Lighter now [] (t ∷ ts) h = elim h [ ]
Stops-Lighter now (s ∷ ss) [] h = elim h [ ]
Stops-Lighter now (s ∷ ss) (t ∷ ts) h = (stopped_lighter now s t h.0, Stops-Lighter now ss ts h.1)
