-- ===== src/Jobs/Backfill.antt =====
-- The backfill of usage fields in slurmweb/persistence/jobs_store.py.
use Prim.Native.String.{String}
use slurm_web_plus.Prelude.{
  ℕ, ◌+◌, Bool, false, not, ◌&&◌, ◌||◌, Option, none, some, List, [], ◌∷◌, ◌++◌, if◌then◌else◌,
}
use slurm_web_plus.Prelude.Maybe.{◌>>=◌}
use slurm_web_plus.Prelude.Dict.{Dict}
use slurm_web_plus.Json.Value.{Json}
use slurm_web_plus.Jobs.{Row, JobKey, row_key, same_number}
use slurm_web_plus.Jobs.Fields.{Python}
use slurm_web_plus.Jobs.Extract.{either, has_full_key}
use slurm_web_plus.Jobs.Detail.{extract_detail}
use slurm_web_plus.Jobs.Queue.{has_key}
use slurm_web_plus.Jobs.Upsert.{Snapshot}
use slurm_web_plus.Jobs.Flush.{map_option}
use slurm_web_plus.Jobs.Reconcile.{Lookup, found, not_found, unavailable}
use slurm_web_plus.Jobs.Candidates.{Scope, is_missing, usage_backfill_candidates}

-- What `_apply_usage_detail` returns.
pub record Decision (F : Type 0) : Type 0 where
  pub can_update : Bool
  pub reason : String
  pub new_memory : Option F
  pub new_cpu : Option F

abbrev pub refused : {F : Type 0} → String → Decision F
refused reason = record { can_update = false; reason = reason; new_memory = none; new_cpu = none }

module _ {F : Type 0} where
  abbrev pub reason_of : Row F → Option F → Option F → String
  reason_of stored memory cpu =
      if is_missing stored.used_memory_gb && is_missing memory
      then "missing_used_memory_gb"
      else if is_missing stored.used_cpu_cores_avg && is_missing cpu
      then "missing_used_cpu_cores_avg"
      else "no_usage_updates"

  abbrev pub fills : Option F → Option F → Bool
  fills old new = is_missing old && not (is_missing new)

  unfoldable pub decide_usage : Row F → Option F → Option F → Decision F
  decide_usage stored memory cpu =
      let can_update = fills stored.used_memory_gb memory || fills stored.used_cpu_cores_avg cpu in
      record {
        can_update = can_update;
        reason = if can_update then "ok" else reason_of stored memory cpu;
        new_memory = memory;
        new_cpu = cpu;
      }

  abbrev pub checked : Row F → Row F → Decision F → Decision F
  checked stored row d =
      if not (has_full_key row)
      then refused "missing_detail_key"
      else if not (same_number row.submit_time stored.submit_time)
      then refused "submit_time_mismatch"
      else d

  -- `_apply_usage_detail`; `none` is an exception.
  unfoldable pub apply_usage_detail : Python F → (F → F) → Row F → Dict Json → Option (Decision F)
  unfolding extract_detail decide_usage
  apply_usage_detail py round_metric stored detail = do
    row ← extract_detail py detail stored
    some (
        checked stored row (
          decide_usage stored (map_option round_metric row.used_memory_gb)
            (map_option round_metric row.used_cpu_cores_avg)))

  -- The decision on one row of the loop.
  unfoldable pub decide : Python F → (F → F) → Lookup → Row F → Option (Decision F)
  unfolding apply_usage_detail
  decide py round_metric not_found stored = some (refused "not_found")
  decide py round_metric unavailable stored = some (refused "detail_error")
  decide py round_metric (found job) stored = apply_usage_detail py round_metric stored job

  -- `if snapshot.used_memory_gb is None: ...`, and the cores.
  abbrev pub fill_row : Decision F → Row F → Row F
  fill_row d row = record row {
    used_memory_gb = either row.used_memory_gb d.new_memory;
    used_cpu_cores_avg = either row.used_cpu_cores_avg d.new_cpu;
  }

  -- The object that the session holds for a row is that of its key.
  unfoldable pub fill : JobKey → Decision F → List (Snapshot F) → List (Snapshot F)
  fill k d [] = []
  fill k d (s ∷ table) =
      let rest = fill k d table in
      (if has_key k s.row then record s { row = fill_row d s.row } else s) ∷ rest

-- The arguments of `logger_fn`.
pub record LogEntry (F : Type 0) : Type 0 where
  pub key : JobKey
  pub old_memory : Option F
  pub new_memory : Option F
  pub old_cpu : Option F
  pub new_cpu : Option F
  pub updated : Bool
  pub reason : String

-- The counts, what was logged, and the rows as the session holds them.
pub record Tally (F : Type 0) : Type 0 where
  pub scanned : ℕ
  pub updated : ℕ
  pub skipped : ℕ
  pub log : List (LogEntry F)
  pub rows : List (Snapshot F)

module _ {F : Type 0} where
  abbrev pub entry_of : Row F → Decision F → LogEntry F
  entry_of stored d = record {
    key = row_key stored;
    old_memory = stored.used_memory_gb;
    new_memory = if d.can_update then either stored.used_memory_gb d.new_memory else d.new_memory;
    old_cpu = stored.used_cpu_cores_avg;
    new_cpu = if d.can_update then either stored.used_cpu_cores_avg d.new_cpu else d.new_cpu;
    updated = d.can_update;
    reason = d.reason;
  }

  -- A candidate and its decision.
  unfoldable pub tally : Bool → Row F → Decision F → Tally F → Tally F
  unfolding fill
  tally dry_run stored d t = record {
    scanned = t.scanned + 1;
    updated = if d.can_update then t.updated + 1 else t.updated;
    skipped = if d.can_update then t.skipped else t.skipped + 1;
    log = t.log ++ entry_of stored d ∷ [];
    rows = if d.can_update && not dry_run then fill (row_key stored) d t.rows else t.rows;
  }

  -- The loop over the candidates.
  unfoldable pub backfill_loop :
      Python F
      → (F → F)
      → (Option ℕ → Lookup)
      → Bool
      → List (Snapshot F)
      → Tally F
      → Option (Tally F)
  unfolding decide tally
  backfill_loop py round_metric job dry_run [] t = some t
  backfill_loop py round_metric job dry_run (s ∷ candidates) t = do
    d ← decide py round_metric (job s.row.job_id) s.row
    backfill_loop py round_metric job dry_run candidates (tally dry_run s.row d t)

  abbrev pub nothing_done : List (Snapshot F) → Tally F
  nothing_done table = record { scanned = 0; updated = 0; skipped = 0; log = []; rows = table }

  -- `backfill_usage_fields`, with or without slurmrestd; the result holds the table as it is
  -- committed. An exception ends it, and no commit has been made.
  unfoldable pub backfill_usage_fields :
      Python F
      → (F → F)
      → Option (Option ℕ → Lookup)
      → Scope
      → Bool
      → List (Snapshot F)
      → Option (Tally F)
  unfolding usage_backfill_candidates backfill_loop
  backfill_usage_fields py round_metric none scope dry_run table = some (nothing_done table)
  backfill_usage_fields py round_metric (some job) scope dry_run table =
      backfill_loop py round_metric job dry_run (usage_backfill_candidates py scope table)
        (nothing_done table)
