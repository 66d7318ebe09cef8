-- ===== src/Jobs/Usage.antt =====
-- The usage statistics of a job in slurmweb/persistence/jobs_store.py. `none` around a result is an
-- exception.
use slurm_web_plus.Prelude.{
  Bool, true, false, Option, none, some, List, [], ◌∷◌, ◌++◌, if◌then◌else◌,
}
use slurm_web_plus.Prelude.Dict.{Dict}
use slurm_web_plus.Prelude.Maybe.{◌>>=◌}
use slurm_web_plus.Json.Value.{Json}
use slurm_web_plus.Jobs.{StepSummary, UsageStats}
use slurm_web_plus.Jobs.Fields.{Python}
use slurm_web_plus.Jobs.Steps.{
  include_cpu_step, job_elapsed_seconds, max_memory_gb, step_elapsed_seconds, step_info,
  step_total_cpu_seconds, steps_of,
}

-- What the loop over the steps has gathered.
pub record Gathered (F : Type 0) : Type 0 where
  pub included : List (StepSummary F)
  pub excluded : List (StepSummary F)
  pub cpu_total : F

module _ {F : Type 0} (py : Python F) where
  abbrev pub summary_of : Json → Option (StepSummary F)
  unfolding step_info step_elapsed_seconds step_total_cpu_seconds
  summary_of step = do
    step_id ← step_info "id" step
    step_name ← step_info "name" step
    elapsed ← step_elapsed_seconds py step
    some (record {
      step_id = step_id;
      step_name = step_name;
      elapsed_seconds = elapsed;
      total_cpu_seconds = step_total_cpu_seconds py step;
    })

  abbrev pub add_seconds : F → Option F → F
  add_seconds total none = total
  add_seconds total (some seconds) = py.plus total seconds

  -- One step, counted or left out.
  abbrev pub gather : Bool → StepSummary F → Gathered F → Gathered F
  gather true s g = record g {
    included = g.included ++ s ∷ [];
    cpu_total = add_seconds g.cpu_total s.total_cpu_seconds;
  }
  gather false s g = record g { excluded = g.excluded ++ s ∷ [] }

  unfoldable pub gather_all : List Json → Gathered F → Option (Gathered F)
  unfolding summary_of include_cpu_step
  gather_all [] g = some g
  gather_all (step ∷ steps) g = do
    s ← summary_of step
    included ← include_cpu_step step
    gather_all steps (gather included s g)

  abbrev pub average : F → Option F → Option F
  average total none = none
  average total (some elapsed) =
      if py.exceeds elapsed py.zero_float then some (py.over total elapsed) else none

  -- `_usage_stats`: the statistics; the memory and the cores stand in them too.
  unfoldable pub usage_stats : Dict Json → Option (UsageStats F)
  unfolding steps_of gather_all job_elapsed_seconds max_memory_gb
  usage_stats job = do
    steps ← steps_of job
    g ← gather_all steps (record { included = []; excluded = []; cpu_total = py.zero_float })
    let elapsed = job_elapsed_seconds py job
    let (memory, source) = max_memory_gb py steps
    some (record {
      value_gb = memory;
      source = source;
      total_seconds = g.cpu_total;
      job_elapsed_seconds = elapsed;
      estimated_cores_avg = average g.cpu_total elapsed;
      included_steps = g.included;
      excluded_steps = g.excluded;
    })
