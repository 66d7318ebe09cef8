-- ===== src/Jobs/Steps.antt =====
-- The steps of a job in slurmweb/persistence/jobs_store.py. `none` around a result is an
-- exception.
use Prim.Native.String.{String}
use slurm_web_plus.Prelude.{
  Bool, false, not, Option, none, some, List, [], ◌∷◌, ◌==◌, if◌then◌else◌,
}
use slurm_web_plus.Prelude.Affix.{ends_with}
use slurm_web_plus.Prelude.Dict.{Dict}
use slurm_web_plus.Prelude.Int.{ℤ, pos, leb_ℤ, ◌-ℤ◌}
use slurm_web_plus.Prelude.Maybe.{◌>>=◌}
use slurm_web_plus.Json.Value.{
  Json, null, text, array, object, no_elements, no_members, elements, as_list, as_dict, truthy,
  get_or_null, get_default,
}
use slurm_web_plus.Jobs.Fields.{Python, int_field, float_field, time_value}

abbrev pub empty_dict : Json
empty_dict = object no_members

-- `d if isinstance(d, dict) else {}`.
abbrev pub dict_or_nothing : Json → Dict Json
unfolding as_dict
dict_or_nothing value = elim (as_dict value) [ none ↦ [] | some d ↦ d ]

abbrev pub list_or_nothing : Json → List Json
unfolding as_list
list_or_nothing value = elim (as_list value) [ none ↦ [] | some js ↦ js ]

-- `_step_tres_values`.
unfoldable pub step_tres_values : Json → String → String → List Json
unfolding dict_or_nothing list_or_nothing get_default
step_tres_values step section bucket =
    let step_tres = dict_or_nothing (get_default "tres" empty_dict (dict_or_nothing step)) in
    let tres_section = dict_or_nothing (get_default section empty_dict step_tres) in
    list_or_nothing (get_default bucket (array no_elements) tres_section)

abbrev pub is_text : String → Json → Bool
is_text s (text t) = t == s
is_text s j = false

-- `job.get("steps", [])` as a `for` loop reads it; a text or a dictionary that is not empty fails later.
abbrev pub iterated : Json → Option (List Json)
unfolding elements
iterated (array js) = some (elements js)
iterated (object no_members) = some []
iterated (text s) = if s == "" then some [] else none
iterated j = none

unfoldable pub steps_of : Dict Json → Option (List Json)
unfolding iterated get_default
steps_of job = iterated (get_default "steps" (array no_elements) job)

-- `value or ""`, whose `endswith` raises on what is no text.
abbrev pub id_ends_with : String → Json → Option Bool
unfolding truthy ends_with
id_ends_with suffix (text s) = some (ends_with s suffix)
id_ends_with suffix j = if truthy j then none else some false

-- `_step_identifier` and `_step_name`: a field of `step["step"]`.
unfoldable pub step_info : String → Json → Option Json
unfolding as_dict get_default get_or_null
step_info key step = do
  d ← as_dict step
  some (elim (as_dict (get_default "step" empty_dict d)) [
    | none ↦ null
    | some info ↦ get_or_null key info
  ])

-- `_include_cpu_step`.
unfoldable pub include_cpu_step : Json → Option Bool
unfolding step_info id_ends_with
include_cpu_step step = do
  step_id ← step_info "id" step
  step_name ← step_info "name" step
  let ends = id_ends_with ".extern" step_id
  if is_text "extern" step_name then some false else do e ← ends; some (not e)

module _ {F : Type 0} (py : Python F) where
  -- `count >= 0`.
  abbrev pub not_negative : F → Bool
  not_negative count = not (py.exceeds py.zero_float count)

  abbrev pub count_of : Option F → Option F
  count_of none = none
  count_of (some count) = if not_negative count then some count else none

  -- The count of one entry, if it has the type and a count.
  abbrev pub entry_count : String → Json → Option F
  unfolding dict_or_nothing get_or_null float_field
  entry_count tres_type tres =
      let d = dict_or_nothing tres in
      if is_text tres_type (get_or_null "type" d)
      then count_of (float_field py (get_or_null "count" d))
      else none

  abbrev pub first_count : String → List Json → Option F
  unfolding entry_count
  first_count tres_type [] = none
  first_count tres_type (tres ∷ values) = elim (entry_count tres_type tres) [
    | none ↦ first_count tres_type values
    | some count ↦ some count
  ]

  -- `_extract_step_tres_count`.
  unfoldable pub extract_step_tres_count : Json → String → String → String → Option F
  unfolding step_tres_values first_count
  extract_step_tres_count step section bucket tres_type =
      first_count tres_type (step_tres_values step section bucket)

  -- `if max is None or count > max`.
  abbrev pub larger : Option F → Option F → Option F
  larger best none = best
  larger none (some count) = some count
  larger (some best) (some count) = if py.exceeds count best then some count else some best

  abbrev pub max_count : String → Option F → List Json → Option F
  unfolding extract_step_tres_count
  max_count section best [] = best
  max_count section best (step ∷ steps) =
      max_count section (larger best (extract_step_tres_count step section "max" "mem")) steps

  -- 1024 ** 3.
  abbrev pub gigabyte : F
  gigabyte = py.of_int (pos 1073741824)

  abbrev pub requested_memory : Option F → Option F × Option String
  requested_memory none = (none, none)
  requested_memory (some count) = (some (py.over count gigabyte), some "requested.max.mem")

  abbrev pub consumed_memory : List Json → Option F → Option F × Option String
  unfolding max_count
  consumed_memory steps none = requested_memory (max_count "requested" none steps)
  consumed_memory steps (some count) = (some (py.over count gigabyte), some "consumed.max.mem")

  -- `_max_memory_gb`.
  unfoldable pub max_memory_gb : List Json → Option F × Option String
  unfolding consumed_memory
  max_memory_gb steps = consumed_memory steps (max_count "consumed" none steps)

  abbrev pub or_zero : Option F → F
  or_zero none = py.zero_float
  or_zero (some x) = x

  -- Seconds and microseconds, of which one may be missing.
  abbrev pub cpu_seconds : Option F → Option F → Option F
  cpu_seconds none none = none
  cpu_seconds seconds microseconds =
      some (py.plus (or_zero seconds) (py.over (or_zero microseconds) (py.of_int (pos 1000000))))

  -- `_step_total_cpu_seconds`.
  unfoldable pub step_total_cpu_seconds : Json → Option F
  unfolding dict_or_nothing get_default get_or_null float_field
  step_total_cpu_seconds step =
      let time_data = dict_or_nothing (get_default "time" empty_dict (dict_or_nothing step)) in
      let total = dict_or_nothing (get_default "total" empty_dict time_data) in
      cpu_seconds (float_field py (get_or_null "seconds" total))
        (float_field py (get_or_null "microseconds" total))

  abbrev pub if_positive : Option F → Option F
  if_positive none = none
  if_positive (some x) = if py.exceeds x py.zero_float then some x else none

  -- `_step_elapsed_seconds`, which raises where the time of a step is no dictionary.
  unfoldable pub step_elapsed_seconds : Json → Option (Option F)
  unfolding as_dict get_default get_or_null float_field
  step_elapsed_seconds step = elim (as_dict step) [
    | none ↦ some none
    | some d ↦ do
      time_data ← as_dict (get_default "time" empty_dict d)
      some (if_positive (float_field py (get_or_null "elapsed" time_data)))
  ]

  abbrev pub elapsed_between : Option ℤ → Option ℤ → Option F
  elapsed_between (some start) (some end) =
      if leb_ℤ end start then none else some (py.of_int (end -ℤ start))
  elapsed_between start end = none

  abbrev pub or_else_elapsed : Json → Option F → Option F
  unfolding time_value float_field
  or_else_elapsed time_data none =
      if_positive (float_field py (time_value time_data "elapsed" null))
  or_else_elapsed time_data (some seconds) = some seconds

  -- `_job_elapsed_seconds`.
  unfoldable pub job_elapsed_seconds : Dict Json → Option F
  unfolding get_default time_value int_field or_else_elapsed
  job_elapsed_seconds job =
      let time_data = get_default "time" empty_dict job in
      or_else_elapsed time_data (
        elapsed_between (int_field (time_value time_data "start" null))
          (int_field (time_value time_data "end" null)))
