-- ===== src/Adapters/Number.antt =====
-- `_optional_number` of slurmweb/slurmrestd/adapters/v0_0_39.py.
use slurm_web_plus.Prelude.{Bool, true, false, [], ◌∷◌, Option, none, some, ◌≡◌, sym, ap, ◌∙◌}
use slurm_web_plus.Prelude.Dict.{Dict, get}
use slurm_web_plus.Prelude.Int.{ℤ, pos}
use slurm_web_plus.Prelude.Parse.{int}
use slurm_web_plus.Json.Value.{
  Json, null, bool, number, text, array, object, dict, as_dict, as_dict-dict, get_or_null,
  get_default,
}

-- `int(value)`; `none` is an exception.
unfoldable pub int_of : Json → Option ℤ
unfolding int
int_of null = none
int_of (bool b) = elim b [ true ↦ some (pos 1) | false ↦ some (pos 0) ]
int_of (number n) = some n
int_of (text s) = int s
int_of (array js) = none
int_of (object ms) = none

abbrev pub optional : Json → Json → Json → Json
optional set infinite value = dict (("set", set) ∷ ("infinite", infinite) ∷ ("number", value) ∷ [])

-- `value is not None`.
abbrev pub is_given : Json → Bool
is_given null = false
is_given j = true

abbrev pub of_fields : Dict Json → Json
of_fields d =
    optional (get_default "set" (bool (is_given (get_or_null "number" d))) d)
      (get_default "infinite" (bool false) d) (get_default "number" (number (pos 0)) d)

abbrev pub of_value : Json → Option Json
of_value null = some (optional (bool false) (bool false) (number (pos 0)))
of_value value = elim (int_of value) [
  | none ↦ none
  | some n ↦ some (optional (bool true) (bool false) (number n))
]

unfoldable pub optional_number : Json → Option Json
unfolding as_dict dict int_of get_default get_or_null
optional_number value = elim (as_dict value) [ none ↦ of_value value | some d ↦ some (of_fields d) ]

-- A number that is already in the new form is left as it is.
optional_number-optional : (s i n : Json) → optional_number (optional s i n) ≡ some (optional s i n)
unfolding optional_number get
optional_number-optional s i n =
    ap
      (λ (o : Option (Dict Json)). elim o [
        | none ↦ of_value (optional s i n)
        | some d ↦ some (of_fields d)
      ])
      (as_dict-dict (("set", s) ∷ ("infinite", i) ∷ ("number", n) ∷ []))

-- What `_optional_number` returns.
optional_number_form :
    (v w : Json)
    → optional_number v ≡ some w
    → (s : Json) × (i : Json) × (n : Json) × (w ≡ optional s i n)
unfolding optional_number
optional_number_form v w h = from_dict (as_dict v) h
  where
    json_injective : {a b : Json} → some a ≡ some b → b ≡ a
    json_injective e = cc

    from_int :
        (o : Option ℤ)
        → elim o as (λ x. Option Json) [
          | none ↦ none
          | some n ↦ some (optional (bool true) (bool false) (number n))
        ]
          ≡ some w
        → (s : Json) × (i : Json) × (n : Json) × (w ≡ optional s i n)
    from_int none e = cc (e)
    from_int (some n) e = (bool true, bool false, number n, json_injective e)

    from_value :
        (u : Json)
        → of_value u ≡ some w
        → (s : Json) × (i : Json) × (n : Json) × (w ≡ optional s i n)
    from_value null e = (bool false, bool false, number (pos 0), json_injective e)
    from_value u e = from_int (int_of u) e

    from_dict :
        (o : Option (Dict Json))
        → elim o as (λ x. Option Json) [ none ↦ of_value v | some d ↦ some (of_fields d) ] ≡ some w
        → (s : Json) × (i : Json) × (n : Json) × (w ≡ optional s i n)
    from_dict none e = from_value v e
    from_dict (some d) e = (_, _, _, json_injective e)

-- What `_optional_number` returns is left as it is by it.
pub optional_number_idem : (v w : Json) → optional_number v ≡ some w → optional_number w ≡ some w
optional_number_idem v w h =
    let (s, i, n, e) = optional_number_form v w h in
    ap optional_number e ∙ optional_number-optional s i n ∙ ap some (sym e)
