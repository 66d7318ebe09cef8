-- ===== src/Jobs/Fixtures.antt =====
-- A few jobs, for the tests of slurmweb/persistence/jobs_store.py.
use Prim.Native.String.{String}
use slurm_web_plus.Prelude.{ℕ, Option, none, some, [], ◌∷◌, ◌+◌, ltb}
use slurm_web_plus.Prelude.Int.{ℤ, pos, negsuc}
use slurm_web_plus.Prelude.Dict.{Dict}
use slurm_web_plus.Json.Value.{Json, null, number, text}
use slurm_web_plus.Jobs.{Row, JobKey}
use slurm_web_plus.Jobs.Fields.{Python}
use slurm_web_plus.Jobs.Upsert.{Snapshot}

abbrev float : Json → Option ℕ
float (number (pos n)) = some n
float j = none

abbrev of_int : ℤ → ℕ
of_int (pos n) = n
of_int (negsuc n) = 0

-- Floating point numbers that are natural numbers.
abbrev pub py : Python ℕ
py = record {
  str = λ j. "";
  dumps = λ j. "{}";
  float = float;
  upper = λ s. s;
  of_int = of_int;
  zero_float = 0;
  plus = λ m n. m + n;
  over = λ m n. m;
  exceeds = λ m n. ltb n m;
}

-- slurmrestd's answer about a running job.
abbrev pub answer : ℕ → String → Dict Json
answer job_id user =
    ("job_id", number (pos job_id))
    ∷ ("submit_time", number (pos 100))
    ∷ ("user_name", text user)
    ∷ ("job_state", text "RUNNING")
    ∷ ("node_count", number (pos 2))
    ∷ []

abbrev pub row_of : ℕ → String → Row ℕ
row_of job_id user = record {
  job_id = some job_id;
  job_name = null;
  job_state = some "RUNNING";
  state_reason = null;
  user_name = text user;
  user_id = none;
  account = null;
  group = null;
  partition = null;
  qos = null;
  nodes = null;
  node_count = some (pos 2);
  cpus = none;
  priority = none;
  tres_req_str = none;
  tres_per_job = none;
  tres_per_node = none;
  gres_detail = none;
  tres_requested = none;
  tres_allocated = none;
  submit_time = some 100;
  start_time = none;
  end_time = none;
  eligible_time = none;
  last_sched_evaluation_time = none;
  time_limit_minutes = none;
  used_memory_gb = none;
  usage_stats = none;
  used_cpu_cores_avg = none;
  exit_code = none;
  working_directory = null;
  command = null;
}

abbrev pub key : ℕ → JobKey
key job_id = record { job_id = some job_id; submit_time = some 100 }

abbrev pub stored : ℕ → Snapshot ℕ
stored job_id = record { row = row_of job_id "carol"; first_seen = 3; snapshot_time = 4 }
