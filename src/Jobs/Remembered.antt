-- ===== src/Jobs/Remembered.antt =====
-- What a flush of slurmweb/persistence/jobs_store.py keeps of the stored jobs.
use slurm_web_plus.Prelude.{
  ℕ, Option, none, some, List, ◌≡◌, ◌≢◌, refl, subst, inl, inr, length, arith,
}
use slurm_web_plus.Jobs.{Row, JobKey, row_key}
use slurm_web_plus.Jobs.Queue.{newer, find, IsKeyed}
use slurm_web_plus.Jobs.Upsert.{Snapshot, merge_row, write_row, find_snapshot}
use slurm_web_plus.Jobs.Flush.{Database, stored_row, flush_chunks, Writer, flush}
use slurm_web_plus.Jobs.Chunks.{IsTold, flush_chunks-IsTold}

newer_known : {A : Type 0} (old new : Option A) → old ≢ none → newer old new ≢ none
newer_known old none h = h
newer_known old (some a) h = λ e. cc (e)

module _ {F : Type 0} where
  -- The same job, first seen at the same time, with a value wherever there was one that the
  -- statement coalesces.
  abbrev pub Remembers : Snapshot F → Snapshot F → Type 0
  Remembers s s' =
      (row_key s'.row ≡ row_key s.row)
      × (s'.first_seen ≡ s.first_seen)
      × (s.row.used_memory_gb ≢ none → s'.row.used_memory_gb ≢ none)
      × (s.row.used_cpu_cores_avg ≢ none → s'.row.used_cpu_cores_avg ≢ none)
      × (s.row.usage_stats ≢ none → s'.row.usage_stats ≢ none)
      × (s.row.tres_requested ≢ none → s'.row.tres_requested ≢ none)
      × (s.row.tres_allocated ≢ none → s'.row.tres_allocated ≢ none)
      × (s.row.eligible_time ≢ none → s'.row.eligible_time ≢ none)
      × (s.row.last_sched_evaluation_time ≢ none → s'.row.last_sched_evaluation_time ≢ none)

  Remembers-self : (s : Snapshot F) → Remembers s s
  Remembers-self s = (refl, refl, λ h. h, λ h. h, λ h. h, λ h. h, λ h. h, λ h. h, λ h. h)

  write_row-Remembers :
      (now : ℕ) (s : Snapshot F) (new : Row F) → Remembers s (write_row now (some s) new)
  unfolding write_row merge_row
  write_row-Remembers now s new = (
    refl,
    refl,
    newer_known s.row.used_memory_gb new.used_memory_gb,
    newer_known s.row.used_cpu_cores_avg new.used_cpu_cores_avg,
    newer_known s.row.usage_stats new.usage_stats,
    newer_known s.row.tres_requested new.tres_requested,
    newer_known s.row.tres_allocated new.tres_allocated,
    newer_known s.row.eligible_time new.eligible_time,
    newer_known s.row.last_sched_evaluation_time new.last_sched_evaluation_time,
  )

  -- What a flush leaves of a stored row.
  IsTold-Remembers :
      (db : Database F) (now : ℕ) (o : Option (Row F)) (s : Snapshot F)
      (after : Option (Snapshot F))
      → IsTold db now o (some s) after
      → (s' : Snapshot F) × (after ≡ some s') × Remembers s s'
  IsTold-Remembers db now none s after same = (s, same, Remembers-self s)
  IsTold-Remembers db now (some r) s after (inl same) = (s, same, Remembers-self s)
  IsTold-Remembers db now (some r) s after (inr (r', _, written)) = (
    write_row now (some s) (stored_row db r'),
    written,
    write_row-Remembers now s (stored_row db r'),
  )

  -- If no key waits twice, then after a flush, also one that raises, and whatever is queued meanwhile,
  -- each stored job is still stored under its key with the time it was first seen, and each of the
  -- seven columns that the statement coalesces (memory, cores, statistics, requested and allocated
  -- resources, eligible time, last scheduling) has a value if it had one. The other columns may have
  -- been overwritten.
  pub flush-Remembers :
      (db : Database F) (now : ℕ) (submitted : List (Row F)) (w : Writer F)
      → IsKeyed w.pending
      → (k : JobKey) (s : Snapshot F) → find_snapshot k w.table ≡ some s
      → (s' : Snapshot F) × (find_snapshot k (flush db now submitted w).table ≡ some s')
        × Remembers s s'
  unfolding flush
  flush-Remembers db now submitted w keyed k s stored =
      let r = flush_chunks db now (length w.pending) w.pending w.table in
      IsTold-Remembers db now (find k w.pending) s (find_snapshot k r.table) (
        subst
          (λ (before : Option (Snapshot F)).
            IsTold db now (find k w.pending) before (find_snapshot k r.table))
          stored
          (flush_chunks-IsTold db now k (length w.pending) w.pending w.table (omega arith) keyed))
