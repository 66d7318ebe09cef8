-- ===== src/Json/Value.antt =====
-- A JSON value, and the tests and conversions that the code makes. Numbers are integers.
use slurm_web_plus.Prelude.{
  String, Bool, true, false, not, List, [], ◌∷◌, ◌==◌, ◌=ᵇ◌, Option, none, some, ◌≡◌, refl, ap,
}
use slurm_web_plus.Prelude.Dict.{Dict, get}
use slurm_web_plus.Prelude.Int.{ℤ, pos, negsuc}

mutual
  pub data Json : Type 0 where
    null : Json
    bool : Bool → Json
    number : ℤ → Json
    text : String → Json
    array : Elements → Json
    object : Members → Json

  pub data Elements : Type 0 where
    no_elements : Elements
    element : Json → Elements → Elements

  pub data Members : Type 0 where
    no_members : Members
    member : String → Json → Members → Members

unfoldable pub elements : Elements → List Json
elements no_elements = []
elements (element j js) = j ∷ elements js

unfoldable pub of_list : List Json → Elements
of_list [] = no_elements
of_list (j ∷ js) = element j (of_list js)

unfoldable pub members : Members → Dict Json
members no_members = []
members (member k j ms) = (k, j) ∷ members ms

unfoldable pub of_dict : Dict Json → Members
of_dict [] = no_members
of_dict ((k, j) ∷ d) = member k j (of_dict d)

-- A list and a dictionary as values.
unfoldable pub list : List Json → Json
unfolding of_list
list js = array (of_list js)

unfoldable pub dict : Dict Json → Json
unfolding of_dict
dict d = object (of_dict d)

-- `isinstance(value, list)` and `isinstance(value, dict)`, with the value.
unfoldable pub as_list : Json → Option (List Json)
unfolding elements
as_list (array js) = some (elements js)
as_list j = none

unfoldable pub as_dict : Json → Option (Dict Json)
unfolding members
as_dict (object ms) = some (members ms)
as_dict j = none

elements-of_list : (js : List Json) → elements (of_list js) ≡ js
unfolding elements of_list
elements-of_list [] = refl
elements-of_list (j ∷ js) = ap (λ l. j ∷ l) (elements-of_list js)

members-of_dict : (d : Dict Json) → members (of_dict d) ≡ d
unfolding members of_dict
members-of_dict [] = refl
members-of_dict ((k, j) ∷ d) = ap (λ l. (k, j) ∷ l) (members-of_dict d)

pub as_list-list : (js : List Json) → as_list (list js) ≡ some js
unfolding as_list list
as_list-list js = ap some (elements-of_list js)

pub as_dict-dict : (d : Dict Json) → as_dict (dict d) ≡ some d
unfolding as_dict dict
as_dict-dict d = ap some (members-of_dict d)

abbrev is_zero : ℤ → Bool
is_zero (pos n) = n =ᵇ 0
is_zero (negsuc n) = false

-- `bool(value)`.
unfoldable pub truthy : Json → Bool
truthy null = false
truthy (bool b) = b
truthy (number n) = not (is_zero n)
truthy (text s) = not (s == "")
truthy (array no_elements) = false
truthy (array (element j js)) = true
truthy (object no_members) = false
truthy (object (member k j ms)) = true

-- `value in ("", None)`.
unfoldable pub is_blank : Json → Bool
is_blank null = true
is_blank (text s) = s == ""
is_blank j = false

-- `d.get(key)`, which is `None` for a missing key.
unfoldable pub get_or_null : String → Dict Json → Json
unfolding get
get_or_null k d = elim (get k d) [ none ↦ null | some j ↦ j ]

-- `value or other`.
abbrev pub or_other : Json → Json → Json
or_other v other = elim (truthy v) [ true ↦ v | false ↦ other ]

-- `d.get(key) or other`.
unfoldable pub get_or : String → Json → Dict Json → Json
unfolding get_or_null truthy
get_or k other d = or_other (get_or_null k d) other

-- `str(value)`, which is a parameter where the value is no text.
abbrev pub text_of : (Json → String) → Json → String
text_of str (text s) = s
text_of str j = str j

-- `d.get(key, default)`.
unfoldable pub get_default : String → Json → Dict Json → Json
unfolding get
get_default k default d = elim (get k d) [ none ↦ default | some j ↦ j ]
