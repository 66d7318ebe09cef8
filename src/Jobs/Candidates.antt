-- ===== src/Jobs/Candidates.antt =====
-- The rows that the backfill of slurmweb/persistence/jobs_store.py goes through.
use Prim.Native.String.{String}
use slurm_web_plus.Prelude.{
  ℕ, Bool, true, false, not, ◌&&◌, ◌||◌, Option, none, some, List, ltb, leb, ◌=ᵇ◌, ◌==◌,
  if◌then◌else◌, filter, take,
}
use slurm_web_plus.Prelude.SortBy.{sort_by}
use slurm_web_plus.Json.Value.{Json, text}
use slurm_web_plus.Jobs.{Row, same_number}
use slurm_web_plus.Jobs.Fields.{Python}
use slurm_web_plus.Jobs.Upsert.{Snapshot}
use slurm_web_plus.Jobs.Reconcile.{contains}

abbrev pub is_missing : {A : Type 0} → Option A → Bool
is_missing none = true
is_missing (some a) = false

-- The arguments of `usage_backfill_rows_query`.
pub record Scope : Type 0 where
  pub start_time : Option ℕ
  pub end_time : Option ℕ
  pub username : Option String
  pub user_id : Option ℕ
  pub job_id : Option ℕ
  pub limit : Option ℕ
  pub missing_only : Bool

-- A test on a column, which NULL does not pass, or no test.
abbrev pub passes : (ℕ → ℕ → Bool) → Option ℕ → Option ℕ → Bool
passes test none column = true
passes test (some bound) none = false
passes test (some bound) (some n) = test bound n

-- `if username:`.
abbrev pub passes_name : Option String → Json → Bool
passes_name none column = true
passes_name (some name) (text s) = name == "" || s == name
passes_name (some name) column = name == ""

-- `ORDER BY` on columns where NULL comes last.
abbrev pub before : Option ℕ → Option ℕ → Bool
before none none = true
before none (some n) = false
before (some m) none = true
before (some m) (some n) = leb m n

abbrev pub at_most : {A : Type 0} → Option ℕ → List A → List A
at_most none xs = xs
at_most (some n) xs = take n xs

module _ {F : Type 0} where
  abbrev pub in_order : Snapshot F → Snapshot F → Bool
  in_order s t =
      if same_number s.row.submit_time t.row.submit_time
      then before s.row.job_id t.row.job_id
      else before s.row.submit_time t.row.submit_time

  abbrev pub lacks_usage : Row F → Bool
  lacks_usage row = is_missing row.used_memory_gb || is_missing row.used_cpu_cores_avg

  abbrev pub has_ended : Python F → Row F → Bool
  unfolding contains
  has_ended py row = elim row.job_state [
    | none ↦ false
    | some s ↦ contains (py.upper s) "COMPLETED" || contains (py.upper s) "FAILED"
  ]

  -- The conditions of the query.
  unfoldable pub is_candidate : Python F → Scope → Snapshot F → Bool
  unfolding has_ended
  is_candidate py scope s =
      has_ended py s.row
      && (not scope.missing_only || lacks_usage s.row)
      && passes leb scope.start_time s.row.submit_time
      && passes (λ bound n. ltb n bound) scope.end_time s.row.submit_time
      && passes_name scope.username s.row.user_name
      && passes (λ bound n. bound =ᵇ n) scope.user_id s.row.user_id
      && passes (λ bound n. bound =ᵇ n) scope.job_id s.row.job_id

  -- `usage_backfill_rows_query` and `usage_backfill_candidates`.
  unfoldable pub usage_backfill_candidates :
      Python F → Scope → List (Snapshot F) → List (Snapshot F)
  unfolding is_candidate filter sort_by
  usage_backfill_candidates py scope table =
      at_most scope.limit (sort_by in_order (filter (is_candidate py scope) table))
