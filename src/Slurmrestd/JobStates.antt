-- ===== src/Slurmrestd/JobStates.antt =====
-- `jobs_states` of slurmweb/slurmrestd/__init__.py: the jobs of a partition, counted by their state.
pub mod Count
use slurm_web_plus.Prelude.{
  ℕ, suc, ◌+◌, String, Bool, true, false, List, [], ◌∷◌, ◌==◌, if◌then◌else◌, elem, Option, none,
  some,
}
use slurm_web_plus.Prelude.Dict.{Dict}
use slurm_web_plus.Slurmrestd.Partition.{Field, in_partition}

-- The fields of a job that the counting reads.
pub record Job : Type 0 where
  pub partition : Field
  pub job_state : List String

-- The base states in the order of the dictionary, each with its `upper()`.
abbrev pub base_states : List (String × String)
base_states =
    ("running", "RUNNING")
    ∷ ("pending", "PENDING")
    ∷ ("completing", "COMPLETING")
    ∷ ("completed", "COMPLETED")
    ∷ ("cancelled", "CANCELLED")
    ∷ ("suspended", "SUSPENDED")
    ∷ ("preempted", "PREEMPTED")
    ∷ ("failed", "FAILED")
    ∷ ("timeout", "TIMEOUT")
    ∷ ("node_fail", "NODE_FAIL")
    ∷ ("boot_fail", "BOOT_FAIL")
    ∷ ("deadline", "DEADLINE")
    ∷ ("out_of_memory", "OUT_OF_MEMORY")
    ∷ ("unknown", "UNKNOWN")
    ∷ []

abbrev pub zero_counts : List (String × String) → Dict ℕ
zero_counts [] = []
zero_counts ((state, upper) ∷ states) = (state, 0) ∷ zero_counts states

-- The first state of the dictionary that the job has, and "unknown" when none is found.
unfoldable pub find_state : List (String × String) → List String → String
unfolding elem
find_state [] job_state = "unknown"
find_state ((state, upper) ∷ states) job_state =
    let rest = find_state states job_state in if elem upper job_state then state else rest

-- `counts[state] += 1`.
unfoldable pub bump : String → Dict ℕ → Dict ℕ
bump state [] = []
bump state ((k, n) ∷ counts) =
    let rest = bump state counts in if k == state then (k, suc n) ∷ counts else (k, n) ∷ rest

-- The counts and the total.
pub record Counts : Type 0 where
  pub jobs : Dict ℕ
  pub total : ℕ

unfoldable pub count_job : Job → Counts → Counts
unfolding find_state bump
count_job job c = record {
  jobs = bump (find_state base_states job.job_state) c.jobs;
  total = c.total + 1;
}

unfoldable pub count_jobs : Option String → List Job → Counts → Counts
count_jobs partition [] c = c
count_jobs partition (job ∷ jobs) c =
    count_jobs partition jobs (if in_partition partition job.partition then count_job job c else c)

unfoldable pub jobs_states : Option String → List Job → Counts
unfolding count_jobs count_job in_partition
jobs_states partition jobs =
    count_jobs partition jobs (record { jobs = zero_counts base_states; total = 0 })
