-- ===== src/Jobs/Extract.antt =====
-- `_extract`, `_extract_detail` and `_prepare_rows` of slurmweb/persistence/jobs_store.py.
use Prim.Native.String.{String}
use slurm_web_plus.Prelude.{
  ℕ, Bool, true, false, ◌&&◌, Option, none, some, List, [], ◌∷◌, ltb, if◌then◌else◌,
}
use slurm_web_plus.Prelude.Dict.{Dict}
use slurm_web_plus.Prelude.Int.{pos}
use slurm_web_plus.Prelude.Maybe.{◌>>=◌}
use slurm_web_plus.Json.Value.{Json, number, truthy, get_or_null, or_other}
use slurm_web_plus.Jobs.{Row}
use slurm_web_plus.Jobs.Fields.{Python, int_field, ts, state_str, tres_str, gres_str, exit_str}

-- A job id is a number that is not negative in slurmrestd's answers; any other value is read as none.
abbrev pub job_id_of : Json → Option ℕ
job_id_of (number (pos n)) = some n
job_id_of j = none

abbrev pub either : {A : Type 0} → Option A → Option A → Option A
either none o = o
either (some a) o = some a

-- `not row["job_id"] or not row["submit_time"]` fails: both are there, and the id is not 0.
abbrev pub is_id : Option ℕ → Bool
is_id none = false
is_id (some n) = ltb 0 n

abbrev pub is_time : Option ℕ → Bool
is_time none = false
is_time (some n) = true

abbrev pub has_full_key : {F : Type 0} → Row F → Bool
has_full_key row = is_id row.job_id && is_time row.submit_time

module _ {F : Type 0} (py : Python F) where
  -- `_extract`.
  unfoldable pub extract : Dict Json → Option (Row F)
  unfolding get_or_null truthy state_str gres_str
  extract job = do
    let field = λ (key : String). get_or_null key job
    job_state ← state_str py (field "job_state")
    gres_detail ← gres_str py (field "gres_detail")
    some (record {
      job_id = job_id_of (field "job_id");
      job_name = field "name";
      job_state = job_state;
      state_reason = field "state_reason";
      user_name = field "user_name";
      user_id = none;
      account = field "account";
      group = field "group";
      partition = field "partition";
      qos = field "qos";
      nodes = field "nodes";
      node_count = int_field (field "node_count");
      cpus = int_field (field "cpus");
      priority = int_field (field "priority");
      tres_req_str = tres_str py (or_other (field "tres_req_str") (field "tres_per_job"));
      tres_per_job = tres_str py (field "tres_per_job");
      tres_per_node = tres_str py (field "tres_per_node");
      gres_detail = gres_detail;
      tres_requested = none;
      tres_allocated = none;
      submit_time = ts (field "submit_time");
      start_time = ts (field "start_time");
      end_time = ts (field "end_time");
      eligible_time = ts (field "eligible_time");
      last_sched_evaluation_time = ts (field "last_sched_evaluation");
      time_limit_minutes = int_field (field "time_limit");
      used_memory_gb = none;
      usage_stats = none;
      used_cpu_cores_avg = none;
      exit_code = exit_str py (field "exit_code");
      working_directory = field "current_working_directory";
      command = field "command";
    })

  -- `_prepare_rows`; an exception ends it.
  unfoldable pub prepare_rows : List (Dict Json) → Option (List (Row F))
  unfolding extract
  prepare_rows [] = some []
  prepare_rows (job ∷ jobs) = do
    row ← extract job
    rows ← prepare_rows jobs
    some (if has_full_key row then row ∷ rows else rows)
