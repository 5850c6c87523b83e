-- ===== src/Portal/Sessions/Counts.antt =====
-- Counts of sessions of the training portal, where one row is added or changed.
use educates_training_platfo.Prelude.{
  ℕ, ◌+◌, ◌≤◌, String, Bool, true, false, not, ◌&&◌, ◌≡◌, refl, ◌⊎◌, inl, inr, Option, none, some,
  List, [], ◌∷◌, ◌++◌, if◌then◌else◌, is_some, count, arith, Bool-cases, Option-cases,
}
use educates_training_platfo.Portal.Models.{
  SessionState, Session, TrainingPortal, is_available, is_allocated, is_active,
}
use educates_training_platfo.Portal.Sessions.{first, change_first, change_sessions}

-- 1 where the test holds.
abbrev pub one_if : Bool → ℕ
one_if b = if b then 1 else 0

pub count-append :
    (q : Session → Bool) (ss : List Session) (s : Session)
    → count q (ss ++ s ∷ []) ≡ count q ss + one_if (q s)
count-append q [] s = ground arith
count-append q (t ∷ ss) s = ground (arith, count-append q ss s)

pub first_passes :
    (q : Session → Bool) (ss : List Session) (s : Session) → first q ss ≡ some s → q s ≡ true
unfolding first
first_passes q [] s h = absurd (ground arith)
first_passes q (t ∷ ss) s h = elim (Bool-cases (q t)) [
  | inl y ↦ ground arith
  | inr n ↦ first_passes q ss s (rw n at h)
]

pub change_first-none :
    (q : Session → Bool) (f : Session → Session) (ss : List Session)
    → first q ss ≡ none
    → change_first q f ss ≡ ss
unfolding first change_first
change_first-none q f [] h = refl
change_first-none q f (t ∷ ss) h = elim (Bool-cases (q t)) [
  | inl y ↦ absurd (ground arith)
  | inr n ↦ rw (n, change_first-none q f ss (rw n at h))
]

-- Changing one row changes a count by that row only.
pub change_first-count :
    (q r : Session → Bool) (f : Session → Session) (ss : List Session) (s : Session)
    → first q ss ≡ some s
    → count r (change_first q f ss) + one_if (r s) ≡ count r ss + one_if (r (f s))
unfolding first change_first
change_first-count q r f [] s h = absurd (ground arith)
change_first-count q r f (t ∷ ss) s h = elim (Bool-cases (q t)) [
  | inl y ↦ let same : t ≡ s = ground arith in rw (y, same) (omega arith)
  | inr n ↦ rw n (omega (arith, change_first-count q r f ss s (rw n at h)))
]

pub kinds : (s : Session) → one_if (is_allocated s) + one_if (is_available s) ≤ one_if (is_active s)
kinds s = by_state s.state s.owner
  where
    by_state :
        (state : SessionState) (owner : Option String)
        → one_if (is_some owner && not (elim state [ SessionState.stopped ↦ true | _ ↦ false ]))
            + one_if (
                not (is_some owner) && elim state [
                  | SessionState.starting ↦ true
                  | SessionState.waiting ↦ true
                  | _ ↦ false
                ])
          ≤ one_if (not (elim state [ SessionState.stopped ↦ true | _ ↦ false ]))
    by_state SessionState.starting none = omega arith
    by_state SessionState.starting (some _) = omega arith
    by_state SessionState.waiting none = omega arith
    by_state SessionState.waiting (some _) = omega arith
    by_state SessionState.running none = omega arith
    by_state SessionState.running (some _) = omega arith
    by_state SessionState.stopping none = omega arith
    by_state SessionState.stopping (some _) = omega arith
    by_state SessionState.stopped none = omega arith
    by_state SessionState.stopped (some _) = omega arith

pub kinds-count :
    (ss : List Session) → count is_allocated ss + count is_available ss ≤ count is_active ss
kinds-count [] = omega arith
kinds-count (s ∷ ss) = omega (arith, kinds s, kinds-count ss)

-- The sessions that are a user's, or may be given to one, as far as they count.
abbrev pub held : List Session → ℕ
held ss = count is_allocated ss + count is_available ss

-- The portal has no maximum, or the sessions that are a user's and those in reserve are within it.
abbrev pub Within : TrainingPortal → Type 0
Within p = (p.sessions_maximum ≡ 0) ⊎ (held p.sessions ≤ p.sessions_maximum)

abbrev pub held_one : Session → ℕ
held_one s = one_if (is_allocated s) + one_if (is_available s)

-- A row that is changed without weighing more keeps the portal within its maximum.
pub change_sessions-Within :
    (q : Session → Bool) (f : Session → Session) (p : TrainingPortal)
    → ((s : Session) → q s ≡ true → held_one (f s) ≤ held_one s)
    → Within p
    → Within (change_sessions q f p)
unfolding change_sessions
change_sessions-Within q f p lighter (inl none_set) = inl none_set
change_sessions-Within q f p lighter (inr h) = elim (Option-cases (first q p.sessions)) [
  | inl e ↦ inr (rw (change_first-none q f p.sessions e) h)
  | inr (s, e) ↦ inr (
      omega (
        arith,
        h,
        change_first-count q is_allocated f p.sessions s e,
        change_first-count q is_available f p.sessions s e,
        lighter s (first_passes q p.sessions s e),
      ))
]

pub held_one-bound : (s : Session) → held_one s ≤ 1
held_one-bound s = ground (arith, kinds s)
