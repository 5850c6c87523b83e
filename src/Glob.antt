-- ===== src/Glob.antt =====
-- Python's `fnmatch.fnmatch`, by which the selectors compare names with patterns. On the systems
-- where the program runs, file names are compared as they are, so case matters.
use Prim.Native.Char.{code}
use educates_training_platfo.Prelude.{
  ℕ, zero, suc, ◌+◌, String, ◌≡◌, refl, Bool, true, false, not, ◌&&◌, ◌||◌, Option, none, some,
  List, [], ◌∷◌, ◌++◌, ◌==◌, leb, if◌then◌else◌, length,
}

abbrev pub codes : String → List ℕ
codes String.[] = []
codes (String.◌∷◌ c s) = code c ∷ codes s

-- A part of a pattern: `*`, `?`, one character, or a set of ranges, perhaps negated.
pub data Part : Type 0 where
  star any_char : Part
  char : ℕ → Part
  set : Bool → List (ℕ × ℕ) → Part

-- The text of a set up to its closing bracket, which may also stand first.
close : List ℕ → List ℕ → Option (List ℕ)
close seen [] = none
close seen (c ∷ cs) = if c == b']' then some seen else close (seen ++ c ∷ []) cs

set_text : List ℕ → Option (List ℕ)
set_text [] = none
set_text (c ∷ cs) = close (c ∷ []) cs

-- Between brackets, `a-z` is a range where there is something on both sides.
ranges : List ℕ → List (ℕ × ℕ)
ranges [] = []
ranges (a ∷ []) = (a, a) ∷ []
ranges (a ∷ d ∷ []) = (a, a) ∷ (d, d) ∷ []
ranges (a ∷ d ∷ b ∷ cs) =
    let range = (a, b) ∷ ranges cs in
    let single = (a, a) ∷ ranges (d ∷ b ∷ cs) in if d == b'-' then range else single

starts_with_bang : List ℕ → Bool
starts_with_bang [] = false
starts_with_bang (c ∷ cs) = c == b'!'

tail_of : List ℕ → List ℕ
tail_of [] = []
tail_of (c ∷ cs) = cs

-- The set that an opening bracket begins, and how many characters behind the bracket it takes.
bracket : List ℕ → Option (Part × ℕ)
unfolding set_text close ranges starts_with_bang tail_of
bracket cs =
    let negated = starts_with_bang cs in
    let body = if negated then tail_of cs else cs in
    let lead : ℕ = if negated then 1 else 0 in
    elim (set_text body) [
      | none ↦ none
      | some text ↦ some (set negated (ranges text), lead + length text + 1)
    ]

part : ℕ → Part
part c = if c == b'*' then star else if c == b'?' then any_char else char c

-- `skip` characters belong to a set that has been read.
parts : ℕ → List ℕ → List Part
unfolding bracket part
parts skip [] = []
parts (suc skip) (c ∷ cs) = parts skip cs
parts zero (c ∷ cs) = elim (c == b'[') [
  | false ↦ part c ∷ parts 0 cs
  | true ↦ elim (bracket cs) [ none ↦ char c ∷ parts 0 cs | some (s, taken) ↦ s ∷ parts taken cs ]
]

in_ranges : ℕ → List (ℕ × ℕ) → Bool
in_ranges c [] = false
in_ranges c ((lo, hi) ∷ rs) = (leb lo c && leb c hi) || in_ranges c rs

-- Some tail of the text passes.
some_tail : (List ℕ → Bool) → List ℕ → Bool
some_tail f [] = f []
some_tail f (c ∷ cs) = f (c ∷ cs) || some_tail f cs

part_matches : Part → ℕ → Bool
unfolding in_ranges
part_matches star c = false
part_matches any_char c = true
part_matches (char d) c = c == d
part_matches (set negated rs) c = if negated then not (in_ranges c rs) else in_ranges c rs

parts_match : List Part → List ℕ → Bool
unfolding some_tail part_matches
parts_match [] [] = true
parts_match [] (c ∷ cs) = false
parts_match (star ∷ ps) cs = some_tail (parts_match ps) cs
parts_match (p ∷ ps) [] = false
parts_match (p ∷ ps) (c ∷ cs) = part_matches p c && parts_match ps cs

unfoldable pub fnmatch : String → String → Bool
unfolding parts parts_match
fnmatch name pattern = parts_match (parts 0 (codes pattern)) (codes name)

fnmatch_system : fnmatch "kube-system" "kube-*" ≡ true
unfolding fnmatch
fnmatch_system = refl

fnmatch_set : fnmatch "lab-7" "l[!b-z]?-[0-9]" ≡ true
unfolding fnmatch
fnmatch_set = refl

fnmatch_open : fnmatch "a[b" "a[b" ≡ true
unfolding fnmatch
fnmatch_open = refl
