-- ===== src/Adapters/V42.antt =====
-- `AdapterV0_0_42`: from version 0.0.42 to 0.0.43.
use slurm_web_plus.Prelude.{String, true, false, List, [], ◌∷◌, Option, some}
use slurm_web_plus.Prelude.Dict.{Dict, get, assign}
use slurm_web_plus.Prelude.Int.{pos}
use slurm_web_plus.Prelude.Maybe.{◌>>=◌}
use slurm_web_plus.Json.Value.{Json, bool, number, text, dict}
use slurm_web_plus.Adapters.Fields.{item, set_at, on_each}

unfoldable pub expand_outputs : Dict Json → Option (Dict Json)
unfolding get assign
expand_outputs job = do
  error ← item "standard_error" job
  let job₁ = assign "stderr_expanded" error job
  input ← item "standard_input" job₁
  let job₂ = assign "stdin_expanded" input job₁
  output ← item "standard_output" job₂
  some (assign "stdout_expanded" output job₂)

abbrev pub step_outputs : List String
step_outputs =
    "stderr" ∷ "stderr_expanded" ∷ "stdin" ∷ "stdin_expanded" ∷ "stdout" ∷ "stdout_expanded" ∷ []

unfoldable pub set_empty : List String → Dict Json → Option (Dict Json)
unfolding set_at
set_empty [] step = some step
set_empty (field ∷ fields) step = do
  changed ← set_at ("step" ∷ []) field (text "") step
  set_empty fields changed

unfoldable pub complete_step : Dict Json → Option (Dict Json)
unfolding set_empty set_at dict
complete_step step = do
  changed ← set_empty step_outputs step
  set_at ("time" ∷ []) "limit"
      (dict (("set", bool false) ∷ ("infinite", bool true) ∷ ("number", number (pos 0)) ∷ []))
      changed

-- `for step in job["steps"]`.
unfoldable pub complete_steps : Dict Json → Option (Dict Json)
unfolding on_each complete_step get assign
complete_steps job = do
  steps ← item "steps" job
  changed ← on_each complete_step steps
  some (assign "steps" changed job)
