-- ===== src/Jobs.antt =====
-- slurmweb/persistence/jobs_store.py: the history of jobs, from what slurmrestd answers to the rows of
-- the database. Times are seconds of the epoch; floating point numbers are any type.
pub mod Fields
pub mod Usage
pub mod Steps
pub mod Extract
pub mod Detail
pub mod Queue
pub mod Upsert
pub mod Flush
pub mod Delivery
pub mod Delivered
pub mod Chunks
pub mod NoLoss
pub mod Remembered
pub mod Reconcile
pub mod Settled
pub mod Ready
pub mod Backfill
pub mod Candidates
pub mod Gaps
pub mod Report
pub mod Filled
pub mod History
pub mod HistoryOrder
pub mod Paging
mod Fixtures
mod Tests
mod BackfillTests
use slurm_web_plus.Prelude.{
  ℕ, String, Bool, true, false, ◌&&◌, Option, none, some, List, [], ◌∷◌, ◌=ᵇ◌, ◌≡◌, refl, arith,
  =ᵇ_iff, Option-cases,
}
use slurm_web_plus.Prelude.Int.{ℤ}
use slurm_web_plus.Json.Value.{Json}

-- A member of `included_steps` and `excluded_steps`.
pub record StepSummary (F : Type 0) : Type 0 where
  pub step_id : Json
  pub step_name : Json
  pub elapsed_seconds : Option F
  pub total_cpu_seconds : Option F

-- `usage_stats`, without its constant texts.
pub record UsageStats (F : Type 0) : Type 0 where
  pub value_gb : Option F
  pub source : Option String
  pub total_seconds : F
  pub job_elapsed_seconds : Option F
  pub estimated_cores_avg : Option F
  pub included_steps : List (StepSummary F)
  pub excluded_steps : List (StepSummary F)

-- A row: the dictionary that `_extract` and `_extract_detail` return.
pub record Row (F : Type 0) : Type 0 where
  pub job_id : Option ℕ
  pub job_name : Json
  pub job_state : Option String
  pub state_reason : Json
  pub user_name : Json
  pub user_id : Option ℕ
  pub account : Json
  pub group : Json
  pub partition : Json
  pub qos : Json
  pub nodes : Json
  pub node_count : Option ℤ
  pub cpus : Option ℤ
  pub priority : Option ℤ
  pub tres_req_str : Option String
  pub tres_per_job : Option String
  pub tres_per_node : Option String
  pub gres_detail : Option String
  pub tres_requested : Option (List Json)
  pub tres_allocated : Option (List Json)
  pub submit_time : Option ℕ
  pub start_time : Option ℕ
  pub end_time : Option ℕ
  pub eligible_time : Option ℕ
  pub last_sched_evaluation_time : Option ℕ
  pub time_limit_minutes : Option ℤ
  pub used_memory_gb : Option F
  pub usage_stats : Option (UsageStats F)
  pub used_cpu_cores_avg : Option F
  pub exit_code : Option String
  pub working_directory : Json
  pub command : Json

-- `_row_key`.
pub record JobKey : Type 0 where
  pub job_id : Option ℕ
  pub submit_time : Option ℕ

abbrev pub row_key : {F : Type 0} → Row F → JobKey
row_key row = record { job_id = row.job_id; submit_time = row.submit_time }

abbrev pub same_number : Option ℕ → Option ℕ → Bool
same_number none none = true
same_number none (some n) = false
same_number (some m) none = false
same_number (some m) (some n) = m =ᵇ n

abbrev pub same_key : JobKey → JobKey → Bool
same_key a b = same_number a.job_id b.job_id && same_number a.submit_time b.submit_time

same_number-eq : (a b : Option ℕ) → same_number a b ≡ true → a ≡ b
same_number-eq none none h = refl
same_number-eq none (some n) h = cc
same_number-eq (some m) none h = cc
same_number-eq (some m) (some n) h = ground (arith, h)

pub same_number_self : (a : Option ℕ) → same_number a a ≡ true
same_number_self none = refl
same_number_self (some n) = (=ᵇ_iff n n).1 refl

pub same_key_self : (k : JobKey) → same_key k k ≡ true
same_key_self k = ground (arith, same_number_self k.job_id, same_number_self k.submit_time)

pub same_key-eq : (j k : JobKey) → same_key j k ≡ true → j ≡ k
same_key-eq j k h =
    ground (arith, same_number-eq j.job_id k.job_id, same_number-eq j.submit_time k.submit_time)

same_number_comm : (a b : Option ℕ) → same_number a b ≡ same_number b a
same_number_comm none none = refl
same_number_comm none (some n) = refl
same_number_comm (some m) none = refl
same_number_comm (some m) (some n) = ground arith

pub same_key_comm : (j k : JobKey) → same_key j k ≡ same_key k j
same_key_comm j k =
    ground (arith, same_number_comm j.job_id k.job_id, same_number_comm j.submit_time k.submit_time)
