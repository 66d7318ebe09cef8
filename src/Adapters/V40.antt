-- ===== src/Adapters/V40.antt =====
-- `AdapterV0_0_40`: from version 0.0.40 to 0.0.41.
use slurm_web_plus.Prelude.{String, false, List, [], ◌∷◌, Option, none, some}
use slurm_web_plus.Prelude.Dict.{Dict, assign}
use slurm_web_plus.Prelude.Int.{pos}
use slurm_web_plus.Json.Value.{
  Json, null, bool, number, text, dict, as_dict, get_or_null, get_default,
}
use slurm_web_plus.Adapters.Fields.{set_default}

abbrev pub unset_optional_number : Json
unset_optional_number =
    dict (("set", bool false) ∷ ("infinite", bool false) ∷ ("number", number (pos 0)) ∷ [])

abbrev pub output_fields : List String
output_fields =
    "stdin" ∷ "stdout" ∷ "stderr" ∷ "stdin_expanded" ∷ "stdout_expanded" ∷ "stderr_expanded" ∷ []

unfoldable pub set_defaults : List String → Dict Json → Dict Json
unfolding set_default
set_defaults [] job = job
set_defaults (field ∷ fields) job = set_defaults fields (set_default field (text "") job)

abbrev pub time_of : Dict Json → Dict Json
time_of job = elim (as_dict (get_or_null "time" job)) [ none ↦ [] | some time ↦ time ]

unfoldable pub adapt_finished_job : Dict Json → Option (Dict Json)
unfolding set_defaults set_default as_dict get_or_null assign dict
adapt_finished_job job =
    let completed = set_defaults output_fields job in
    some (
      assign "time" (dict (set_default "planned" unset_optional_number (time_of completed)))
        completed)

abbrev pub flat_id : Json → Json
flat_id null = number (pos 0)
flat_id id = elim (as_dict id) [ none ↦ id | some d ↦ get_default "id" (number (pos 0)) d ]

-- A missing identifier reads as `None`; one that is no dictionary stays.
unfoldable pub flatten_association : Dict Json → Option (Dict Json)
unfolding as_dict get_or_null get_default assign
flatten_association association =
    some (assign "id" (flat_id (get_or_null "id" association)) association)
