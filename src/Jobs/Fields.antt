-- ===== src/Jobs/Fields.antt =====
-- The conversions of single fields in slurmweb/persistence/jobs_store.py.
use Prim.Native.String
use Prim.Native.String.{String}
use slurm_web_plus.Prelude.{
  ℕ, Bool, true, false, not, ◌&&◌, ◌||◌, Option, none, some, List, [], ◌∷◌, ltb, leb, if◌then◌else◌,
  map, filter, elem,
}
use slurm_web_plus.Prelude.Dict.{Dict}
use slurm_web_plus.Prelude.Int.{ℤ, pos, negsuc}
use slurm_web_plus.Prelude.Maybe.{◌>>=◌}
use slurm_web_plus.Prelude.Text.{split, strip, join}
use slurm_web_plus.Json.Value.{
  Json, null, bool, text, array, object, as_list, as_dict, truthy, is_blank, get_or_null,
  get_default, text_of,
}
use slurm_web_plus.Adapters.Number.{int_of}

-- What Python does on values: `str`, `json.dumps`, `float` and `str.upper`, and the arithmetic of its
-- floating point numbers. `none` is a `TypeError` or a `ValueError`.
pub record Python (F : Type 0) : Type 0 where
  pub str : Json → String
  pub dumps : Json → String
  pub float : Json → Option F
  pub upper : String → String
  pub of_int : ℤ → F
  pub zero_float : F
  pub plus : F → F → F
  pub over : F → F → F
  pub exceeds : F → F → Bool

-- `",".join(values)` raises on a value that is no text.
unfoldable pub texts_of : List Json → Option (List String)
texts_of [] = some []
texts_of (text s ∷ values) = do rest ← texts_of values; some (s ∷ rest)
texts_of (value ∷ values) = none

abbrev pub joined_texts : List Json → Option String
unfolding texts_of
joined_texts values = do ts ← texts_of values; some (join "," ts)

abbrev pub as_some : Option String → Option (Option String)
as_some none = none
as_some (some s) = some (some s)

abbrev is_nil {ℓ} : {A : Type ℓ} → List A → Bool
is_nil [] = true
is_nil (x ∷ xs) = false

-- `value.get("set", True)`, `value.get("infinite", False)` and `value.get("number")`.
abbrev pub number_of : Dict Json → Json
unfolding get_default get_or_null truthy
number_of d =
    if not (truthy (get_default "set" (bool true) d))
      || truthy (get_default "infinite" (bool false) d)
    then null
    else get_or_null "number" d

abbrev pub unwrapped : Json → Json
unfolding number_of as_dict
unwrapped value = elim (as_dict value) [ none ↦ value | some d ↦ number_of d ]

-- `_int_field`: `int(value)`, and `None` where that raises.
unfoldable pub int_field : Json → Option ℤ
unfolding unwrapped int_of
int_field value = int_of (unwrapped value)

abbrev pub last_second : ℕ
last_second = 253402300799

-- `datetime.fromtimestamp(value)` for a positive value, which ends with the year 9999.
abbrev pub instant : Option ℤ → Option ℕ
instant none = none
instant (some (negsuc n)) = none
instant (some (pos n)) = if ltb 0 n && leb n last_second then some n else none

abbrev pub time_number : Dict Json → Json
unfolding get_default get_or_null truthy
time_number d = if truthy (get_default "set" (bool true) d) then get_or_null "number" d else null

-- `_ts`.
unfoldable pub ts : Json → Option ℕ
unfolding time_number as_dict is_blank int_of
ts value =
    let v : Json = elim (as_dict value) [ none ↦ value | some d ↦ time_number d ] in
    if is_blank v then none else instant (int_of v)

-- `_tres_json`.
unfoldable pub tres_json : Json → Option (List Json)
unfolding as_list
tres_json value = as_list value

-- `_time_value`.
unfoldable pub time_value : Json → String → Json → Json
unfolding as_dict get_default
time_value time_data key fallback = elim (as_dict time_data) [
  | none ↦ fallback
  | some d ↦ get_default key fallback d
]

module _ {F : Type 0} (py : Python F) where
  -- `_state_str`. The outer `none` is an exception.
  unfoldable pub state_str : Json → Option (Option String)
  unfolding texts_of truthy is_blank as_list filter
  state_str value = elim (as_list value) [
    | none ↦ some (if is_blank value then none else some (text_of py.str value))
    | some values ↦
        let states = filter truthy values in
        elim (is_nil states) [ true ↦ some none | false ↦ as_some (joined_texts states) ]
  ]

  -- `f"{key}={val}"` for each item.
  abbrev assignments : Dict Json → List String
  assignments [] = []
  assignments ((key, value) ∷ d) =
      String.◌++◌ key (String.◌++◌ "=" (text_of py.str value)) ∷ assignments d

  -- `str(value) if value else None`.
  abbrev pub truthy_text : Json → Option String
  unfolding truthy
  truthy_text value = if truthy value then some (text_of py.str value) else none

  -- `_tres_str`.
  unfoldable pub tres_str : Json → Option String
  unfolding as_dict truthy_text
  tres_str value = elim (as_dict value) [
    | none ↦ truthy_text value
    | some d ↦ some (join "," (assignments d))
  ]

  -- `_gres_str`.
  unfoldable pub gres_str : Json → Option (Option String)
  unfolding as_list texts_of truthy_text
  gres_str value = elim (as_list value) [
    | none ↦ some (truthy_text value)
    | some values ↦ elim (is_nil values) [
      | true ↦ some none
      | false ↦ as_some (joined_texts values)
    ]
  ]

  abbrev pub is_container : Json → Bool
  is_container (array js) = true
  is_container (object ms) = true
  is_container j = false

  -- `_exit_str`.
  unfoldable pub exit_str : Json → Option String
  unfolding truthy_text
  exit_str value = if is_container value then some (py.dumps value) else truthy_text value

  -- `_float_field`.
  unfoldable pub float_field : Json → Option F
  unfolding unwrapped
  float_field value = elim (unwrapped value) [ null ↦ none | v ↦ py.float v ]

  -- `_is_completed_state` and `_is_failed_state`.
  unfoldable pub is_state : String → Json → Option Bool
  unfolding state_str split strip elem
  is_state name value = do
    normalized ← state_str value
    some (elim normalized [
      | none ↦ false
      | some s ↦ elem name (map (λ part. py.upper (strip part)) (split b',' s))
    ])

  -- `_is_usage_backfill_state`.
  unfoldable pub is_usage_backfill_state : Json → Option Bool
  unfolding is_state
  is_usage_backfill_state value = do
    completed ← is_state "COMPLETED" value
    failed ← is_state "FAILED" value
    some (completed || failed)
