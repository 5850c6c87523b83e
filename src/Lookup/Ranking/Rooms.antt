-- ===== src/Lookup/Ranking/Rooms.antt =====
-- What the second part of the score of workshops.py, that of an environment's room, decides.
use educates_training_platfo.Prelude.{
  ℕ, ◌≤◌, ◌<◌, ◌≡◌, ◌↔◌, ◌⊎◌, inl, inr, false, List, [], ◌∷◌, arith, All, Bool-cases, ◌==◌,
}
use educates_training_platfo.Prelude.Int.{ℤ, pos}
use educates_training_platfo.Lookup.Ranking.{
  Candidate, score, less, sort_workshop_environments, score_based_on_portal_availability,
  score_based_on_environment_availability,
}
use educates_training_platfo.Lookup.Ranking.Order.{
  AtLeast, Descending, HasRoom, sort_workshop_environments_correct,
}

-- The environment of the candidate has no maximum, or fewer sessions than its maximum.
abbrev pub HasOwnRoom : Candidate → Type 0
HasOwnRoom c = (c.environment.capacity ≡ 0) ⊎ (c.environment.allocated < c.environment.capacity)

-- Of one candidate's portal and the other's, both have room or neither has.
abbrev pub SameRoom : Candidate → Candidate → Type 0
SameRoom c d = HasRoom c ↔ HasRoom d

abbrev pub OwnRoomFirst : List Candidate → Type 0
OwnRoomFirst [] = Unit
OwnRoomFirst (c ∷ cs) = All (λ d. SameRoom c d → HasOwnRoom d → HasOwnRoom c) cs × OwnRoomFirst cs

room_score : (c : Candidate) → (score_based_on_portal_availability c ≡ 1) ↔ HasRoom c
unfolding score_based_on_portal_availability
room_score c = ((λ h. ground (arith, h)), (λ h. ground (arith, h)))

room_bound : (c : Candidate) → score_based_on_portal_availability c ≤ 1
unfolding score_based_on_portal_availability
room_bound c = ground arith

same_score :
    (c d : Candidate)
    → SameRoom c d
    → score_based_on_portal_availability c ≡ score_based_on_portal_availability d
same_score c d s = elim (Bool-cases (score_based_on_portal_availability c == 1)) [
  | inl t ↦
      let one : score_based_on_portal_availability c ≡ 1 = ground (arith, t) in
      ground (arith, one, (room_score d).1 (s.0 ((room_score c).0 one)))
  | inr f ↦ elim (Bool-cases (score_based_on_portal_availability d == 1)) [
    | inl u ↦
        let one : score_based_on_portal_availability d ≡ 1 = ground (arith, u) in
        ground (arith, one, (room_score c).1 (s.1 ((room_score d).0 one)))
    | inr g ↦ ground (arith, f, g, room_bound c, room_bound d)
  ]
]

less-second :
    (a b c d : ℕ) (xs ys : List ℤ)
    → less (pos a ∷ pos b ∷ xs) (pos c ∷ pos d ∷ ys) ≡ false
    → a ≡ c
    → d ≤ b
unfolding less
less-second a b c d xs ys h e = ground arith

AtLeast-HasOwnRoom : (c d : Candidate) → AtLeast c d → SameRoom c d → HasOwnRoom d → HasOwnRoom c
unfolding score
AtLeast-HasOwnRoom c d h s r =
    let le =
      less-second (score_based_on_portal_availability c) (score_based_on_environment_availability c)
        (score_based_on_portal_availability d) (score_based_on_environment_availability d) _ _ h
        (same_score c d s) in
    unfold score_based_on_environment_availability in ground (arith, le)

own_room_first : (cs : List Candidate) → Descending cs → OwnRoomFirst cs
own_room_first [] h = tt
own_room_first (c ∷ cs) h = (weaken cs h.0, own_room_first cs h.1)
  where
    weaken :
        (ds : List Candidate)
        → All (AtLeast c) ds
        → All (λ d. SameRoom c d → HasOwnRoom d → HasOwnRoom c) ds
    weaken [] a = tt
    weaken (d ∷ ds) a = (AtLeast-HasOwnRoom c d a.0, weaken ds a.1)

-- In the list that is tried, of two candidates whose portals both have room or both have none, no one
-- whose environment has room stands behind one whose environment is at its maximum.
pub sort_workshop_environments-OwnRoomFirst :
    (cs : List Candidate) → OwnRoomFirst (sort_workshop_environments cs)
sort_workshop_environments-OwnRoomFirst cs =
    own_room_first _ (sort_workshop_environments_correct cs).0
