-- ===== src/Manager/Variables.antt =====
-- substitute_variables of helpers.py of the session manager: the variables of a session, put into the
-- texts of an object. An object is what JSON can say, a number as it is written; Python's base64 is a
-- parameter.
pub mod Plain
use Prim.Native.Char.{code}
use Prim.Native.String.{◌++◌ as str_append}
use educates_training_platfo.Prelude.{
  ℕ, zero, suc, ◌-◌, String, Bool, not, ◌||◌, Option, none, some, [], ◌∷◌, ◌==◌, if◌then◌else◌,
  is_some, str_eq,
}
use educates_training_platfo.Dict.{Dict}

mutual
  pub data Json : Type 0 where
    null : Json
    boolean : Bool → Json
    number : String → Json
    text : String → Json
    array : Items → Json
    object : Fields → Json

  pub data Items : Type 0 where
    nil : Items
    cons : Json → Items → Items

  pub data Fields : Type 0 where
    end : Fields
    field : String → Json → Fields → Fields

-- What is behind a prefix.
unfoldable pub behind : String → String → Option String
behind String.[] s = some s
behind (String.◌∷◌ c p) String.[] = none
behind (String.◌∷◌ c p) (String.◌∷◌ d s) = if code c == code d then behind p s else none

-- `p in s`
unfoldable pub occurs_in : String → String → Bool
occurs_in p String.[] = is_some (behind p "")
occurs_in p (String.◌∷◌ c s) = is_some (behind p (String.◌∷◌ c s)) || occurs_in p s

unfoldable pub count_of : String → ℕ
count_of String.[] = 0
count_of (String.◌∷◌ c s) = suc (count_of s)

-- `s.replace(old, new)`, with the number of characters that are still to be passed over.
unfoldable pub replace_from : ℕ → String → String → String → String
replace_from n old new String.[] = ""
replace_from (suc n) old new (String.◌∷◌ c s) = replace_from n old new s
replace_from zero old new (String.◌∷◌ c s) = elim (behind old (String.◌∷◌ c s)) [
  | none ↦ String.◌∷◌ c (replace_from 0 old new s)
  | some rest ↦ str_append new (replace_from (count_of old - 1) old new s)
]

unfoldable pub replace_each_variable : Dict String → String → String
replace_each_variable [] s = s
replace_each_variable ((k, v) ∷ variables) s =
    replace_each_variable variables (replace_from 0 (str_append "$(" (str_append k ")")) v s)

-- The rounds that are left. The text is compared with the one of the start.
unfoldable pub rounds : ℕ → Dict String → String → String → String
rounds zero variables original s = s
rounds (suc n) variables original s =
    let s' = replace_each_variable variables s in
    let rest = rounds n variables original s' in
    if not (occurs_in "$(" s) then s else if str_eq s' original then s' else rest

-- What is before a final "))".
unfoldable pub before_close : String → Option String
before_close String.[] = none
before_close (String.◌∷◌ c s) =
    if str_eq (String.◌∷◌ c s) "))"
    then some ""
    else elim (before_close s) [ none ↦ none | some t ↦ some (String.◌∷◌ c t) ]

module _ (b64encode : String → String) (variables : Dict String) where
  unfoldable pub encoded : String → String
  encoded s = elim (behind "$(base64(" s) [
    | none ↦ s
    | some rest ↦ elim (before_close rest) [ none ↦ s | some inner ↦ b64encode inner ]
  ]

  unfoldable pub substitute_text : String → String
  substitute_text s = encoded (rounds 6 variables s s)

  -- With `encode`, and 6 rounds.
  unfoldable mutual
    pub substitute_variables : Json → Json
    substitute_variables null = null
    substitute_variables (boolean b) = boolean b
    substitute_variables (number n) = number n
    substitute_variables (text s) = text (substitute_text s)
    substitute_variables (array xs) = array (substitute_items xs)
    substitute_variables (object fs) = object (substitute_fields fs)

    pub substitute_items : Items → Items
    substitute_items nil = nil
    substitute_items (cons x xs) = cons (substitute_variables x) (substitute_items xs)

    pub substitute_fields : Fields → Fields
    substitute_fields end = end
    substitute_fields (field k v fs) = field k (substitute_variables v) (substitute_fields fs)
