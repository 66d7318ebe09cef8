-- ===== src/Adapters/Exit.antt =====
-- `_normalize_status`, `_normalize_exit_code` and `_normalize_step_id` of
-- slurmweb/slurmrestd/adapters/v0_0_39.py. `str` is Python's, on values that are no text.
use slurm_web_plus.Prelude.{
  String, Bool, false, not, ◌=ᵇ◌, List, [], ◌∷◌, if◌then◌else◌, Option, none, some,
}
use slurm_web_plus.Prelude.Dict.{Dict}
use slurm_web_plus.Prelude.Int.{pos, negsuc}
use slurm_web_plus.Prelude.Maybe.{◌>>=◌}
use slurm_web_plus.Json.Value.{
  Json, null, bool, number, text, array, object, list, dict, as_list, as_dict, is_blank,
  get_or_null, get_default, text_of,
}
use slurm_web_plus.Adapters.Number.{optional_number}
use Prim.Native.String

module _ (str : Json → String) where
  -- `[str(item) for item in value if item not in (None, "")]`.
  unfoldable pub texts : List Json → List Json
  unfolding is_blank
  texts [] = []
  texts (item ∷ items) =
      let rest = texts items in if is_blank item then rest else text (text_of str item) ∷ rest

  unfoldable pub normalize_status : Json → List Json
  unfolding texts as_list is_blank
  normalize_status value = elim (as_list value) [
    | some items ↦ texts items
    | none ↦ if is_blank value then [] else text (text_of str value) ∷ []
  ]

  -- `f"{value.get('job_id', 0)}.{value.get('step_id', 0)}"`.
  unfoldable pub normalize_step_id : Json → Json
  unfolding as_dict get_default
  normalize_step_id value = elim (as_dict value) [
    | none ↦ value
    | some d ↦ text (
        String.◌++◌ (text_of str (get_default "job_id" (number (pos 0)) d))
          (String.◌++◌ "." (text_of str (get_default "step_id" (number (pos 0)) d))))
  ]

  -- The name and the identifier of a signal.
  abbrev pub signal_parts : Json → Json × Json
  signal_parts signal = elim (as_dict signal) [
    | none ↦ (text "", signal)
    | some d ↦ (get_default "name" (text "") d, get_default "id" (get_or_null "signal_id" d) d)
  ]

  -- `value == 0`, which holds of `False` too.
  abbrev pub is_zero_value : Json → Bool
  is_zero_value (number (pos n)) = n =ᵇ 0
  is_zero_value (number (negsuc n)) = false
  is_zero_value (bool b) = not b
  is_zero_value null = false
  is_zero_value (text s) = false
  is_zero_value (array js) = false
  is_zero_value (object ms) = false

  -- The status of an exit code that has none.
  abbrev pub status_of : Json → Json
  status_of return_code = elim (as_dict return_code) [
    | none ↦ text "FAILED"
    | some d ↦
        if is_zero_value (get_default "number" (number (pos 0)) d)
        then text "SUCCESS"
        else text "FAILED"
  ]

  abbrev pub status_or : List Json → Json → List Json
  status_or [] return_code = status_of return_code ∷ []
  status_or (s ∷ ss) return_code = s ∷ ss

  abbrev pub exit_fields : Dict Json → Option Json
  exit_fields d = do
    return_code ← optional_number (get_or_null "return_code" d)
    signal_id ← optional_number (signal_parts (get_or_null "signal" d)).1
    some (
        dict (
          ("status", list (status_or (normalize_status (get_or_null "status" d)) return_code))
          ∷ ("return_code", return_code)
          ∷ (
            "signal",
            dict (("id", signal_id) ∷ ("name", (signal_parts (get_or_null "signal" d)).0) ∷ []),
          )
          ∷ []))

  unfoldable pub normalize_exit_code : Json → Option Json
  unfolding as_dict optional_number normalize_status get_or_null get_default list dict
  normalize_exit_code value = elim (as_dict value) [ none ↦ some value | some d ↦ exit_fields d ]
