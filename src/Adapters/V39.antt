-- ===== src/Adapters/V39.antt =====
-- `AdapterV0_0_39`: from version 0.0.39 to 0.0.40.
use slurm_web_plus.Prelude.{String, List, [], ◌∷◌, Option, none, some}
use slurm_web_plus.Prelude.Dict.{Dict, get, assign}
use slurm_web_plus.Prelude.Int.{pos}
use slurm_web_plus.Prelude.Maybe.{◌>>=◌}
use slurm_web_plus.Json.Value.{Json, number, text, list, dict, as_dict, get_or_null, get_default}
use slurm_web_plus.Slurmrestd.Discovery.{hint_or_unknown}
use slurm_web_plus.Adapters.Fields.{on_each, on_field, on_fields}
use slurm_web_plus.Adapters.Number.{optional_number}
use slurm_web_plus.Adapters.Exit.{normalize_status, normalize_exit_code, normalize_step_id}

abbrev pub job_time_fields : List String
job_time_fields =
    "submit_time" ∷ "start_time" ∷ "end_time" ∷ "accrue_time" ∷ "eligible_time"
    ∷ "last_sched_evaluation" ∷ "preempt_time" ∷ "preemptable_time" ∷ "pre_sus_time" ∷ "resize_time"
    ∷ "suspend_time" ∷ "deadline" ∷ []

abbrev pub node_time_fields : List String
node_time_fields = "boot_time" ∷ "last_busy" ∷ "slurmd_start_time" ∷ "reason_changed_at" ∷ []

abbrev pub exit_code_fields : List String
exit_code_fields = "exit_code" ∷ "derived_exit_code" ∷ []

unfoldable pub adapt_node : Dict Json → Option (Dict Json)
unfolding on_fields optional_number
adapt_node node = on_fields optional_number node_time_fields node

unfoldable pub adapt_reservation : Dict Json → Option (Dict Json)
unfolding on_fields optional_number
adapt_reservation reservation =
    on_fields optional_number ("start_time" ∷ "end_time" ∷ []) reservation

unfoldable pub adapt_association : Option String → Dict Json → Option (Dict Json)
unfolding assign dict get_default
adapt_association hint association = some (
    assign "id"
      (dict (
        ("account", get_default "account" (text "") association)
        ∷ ("cluster", text (hint_or_unknown hint))
        ∷ ("partition", text "")
        ∷ ("user", get_default "user" (text "") association)
        ∷ ("id", number (pos 0))
        ∷ []))
      association)

module _ (str : Json → String) where
  unfoldable pub adapt_job : Dict Json → Option (Dict Json)
  unfolding on_fields optional_number normalize_status normalize_exit_code assign get_or_null list
  adapt_job job = do
    timed ←
        on_fields optional_number job_time_fields
          (assign "job_state" (list (normalize_status str (get_or_null "job_state" job))) job)
    on_fields (normalize_exit_code str) exit_code_fields timed

  -- `step["step"]["id"] = ...`, where there is one.
  abbrev pub adapt_inner_step : Dict Json → Dict Json
  adapt_inner_step inner = elim (get "id" inner) [
    | none ↦ inner
    | some v ↦ assign "id" (normalize_step_id str v) inner
  ]

  abbrev pub adapt_step_id : Dict Json → Dict Json
  adapt_step_id step = elim (as_dict (get_or_null "step" step)) [
    | none ↦ step
    | some inner ↦ assign "step" (dict (adapt_inner_step inner)) step
  ]

  unfoldable pub adapt_step : Dict Json → Option (Dict Json)
  unfolding on_field normalize_status normalize_exit_code assign get_or_null list dict as_dict
      normalize_step_id
  adapt_step step = do
    coded ←
        on_field (normalize_exit_code str) "exit_code"
          (assign "state" (list (normalize_status str (get_or_null "state" step))) step)
    some (adapt_step_id coded)

  -- `for step in job.get("steps", [])`.
  unfoldable pub adapt_account_job : Dict Json → Option (Dict Json)
  unfolding on_field on_fields on_each adapt_step normalize_exit_code
  adapt_account_job job = do
    coded ← on_fields (normalize_exit_code str) exit_code_fields job
    on_field (on_each adapt_step) "steps" coded
