-- ===== src/Payload/Qos.antt =====
-- `_normalize_qos_payload` and what it calls. The nested dictionaries of the payload are changed in
-- place, so the caller's payload has the limits too; the definitions give the result.
pub mod Limits
pub mod Aliases
pub mod Outcome
use slurm_web_plus.Prelude.{
  String, Bool, true, false, ◌||◌, List, [], ◌∷◌, ◌++◌, map, if◌then◌else◌, Option, none, some,
}
use slurm_web_plus.Prelude.Dict.{Dict, get, has, assign, remove}
use slurm_web_plus.Prelude.Int.{ℤ, pos}
use slurm_web_plus.Json.Value.{Json, null, bool, number, list, dict, as_list, as_dict, is_blank}
use slurm_web_plus.Json.Path.{dict_or_empty, in_nested}

unfoldable pub qos_limit : Json → Json
unfolding as_dict dict
qos_limit value = elim (as_dict value) [
  | some d ↦ value
  | none ↦ dict (("set", bool true) ∷ ("infinite", bool false) ∷ ("number", value) ∷ [])
]

-- `isinstance(current, dict) and ("set" in current or ...)`.
unfoldable pub is_limit : Json → Bool
unfolding as_dict has
is_limit current = elim (as_dict current) [
  | none ↦ false
  | some d ↦ has "set" d || has "infinite" d || has "number" d
]

unfoldable pub has_limit : Json → List String → Bool
unfolding is_limit as_dict get
has_limit current [] = is_limit current
has_limit current (key ∷ keys) = elim (as_dict current) [
  | none ↦ false
  | some d ↦ elim (get key d) [ none ↦ false | some value ↦ has_limit value keys ]
]

-- The value of the first alias that is there and not blank, and the entry without the aliases up to
-- that one.
unfoldable pub pop_first : Dict Json → List String → Json × Dict Json
unfolding get remove is_blank
pop_first qos [] = (null, qos)
pop_first qos (alias ∷ aliases) = elim (get alias qos) [
  | none ↦ pop_first qos aliases
  | some value ↦ elim (is_blank value) [
    | true ↦ pop_first (remove alias qos) aliases
    | false ↦ (value, remove alias qos)
  ]
]

-- `path[:-1]` and `path[-1]` are given apart.
abbrev pub limit_value : Json → ℤ → Json
limit_value null default = qos_limit (number default)
limit_value value default = qos_limit value

abbrev pub limit_if_missing : Json → ℤ → List String → String → Dict Json → Dict Json
limit_if_missing value default path key limits =
    if has_limit (dict limits) (path ++ (key ∷ []))
    then limits
    else in_nested path (assign key (limit_value value default)) limits

unfoldable pub set_qos_limit_if_missing : Dict Json → Json → ℤ → List String → String → Dict Json
set_qos_limit_if_missing qos value default path key =
    in_nested ("limits" ∷ []) (limit_if_missing value default path key) qos

abbrev pub max_submit_jobs_aliases : List String
max_submit_jobs_aliases =
    "max_submit_jobs_per_user" ∷ "MaxSubmitJobsPerUser" ∷ "maxSubmitJobsPerUser" ∷ []

abbrev pub max_jobs_aliases : List String
max_jobs_aliases = "max_jobs_per_user" ∷ "MaxJobsPerUser" ∷ "maxJobsPerUser" ∷ []

abbrev pub max_wall_aliases : List String
max_wall_aliases =
    "max_wall_duration_per_job" ∷ "MaxWallDurationPerJob" ∷ "maxWallDurationPerJob" ∷ []

-- The three calls of `_set_qos_limit_if_missing`.
abbrev pub with_submit : Json → Dict Json → Dict Json
with_submit value qos =
    set_qos_limit_if_missing qos value (pos 100) ("max" ∷ "jobs" ∷ "per" ∷ []) "user"

abbrev pub with_active : Json → Dict Json → Dict Json
with_active value qos =
    set_qos_limit_if_missing qos value (pos 10) ("max" ∷ "jobs" ∷ "active_jobs" ∷ "per" ∷ []) "user"

abbrev pub with_wall : Json → Dict Json → Dict Json
with_wall value qos =
    set_qos_limit_if_missing qos value (pos 8640) ("max" ∷ "wall_clock" ∷ "per" ∷ []) "job"

-- An entry that is a dictionary.
unfoldable pub normalize_qos_entry : Dict Json → Dict Json
unfolding pop_first
normalize_qos_entry qos =
    let (submit, rest₁) = pop_first qos max_submit_jobs_aliases in
    let (active, rest₂) = pop_first rest₁ max_jobs_aliases in
    let (wall, rest₃) = pop_first rest₂ max_wall_aliases in
    with_wall wall (with_active active (with_submit submit rest₃))

unfoldable pub normalize_single_qos : Json → Json
unfolding as_dict dict
normalize_single_qos qos = elim (as_dict qos) [ none ↦ qos | some d ↦ dict (normalize_qos_entry d) ]
