-- ===== src/Jobs/Reconcile.antt =====
-- The jobs that slurmweb/persistence/jobs_store.py holds active and the scheduler no longer lists.
use Prim.Native.String.{String}
use slurm_web_plus.Prelude.{
  ℕ, Bool, true, false, not, ◌&&◌, ◌||◌, Option, none, some, List, [], ◌∷◌, ◌++◌, if◌then◌else◌,
  code, ◌=ᵇ◌, any, filter,
}
use slurm_web_plus.Prelude.Dict.{Dict}
use slurm_web_plus.Prelude.Maybe.{◌>>=◌}
use slurm_web_plus.Json.Value.{Json, text, truthy, or_other}
use slurm_web_plus.Jobs.{Row, row_key, same_key, same_number}
use slurm_web_plus.Jobs.Fields.{Python}
use slurm_web_plus.Jobs.Extract.{either, has_full_key, is_time, prepare_rows}
use slurm_web_plus.Jobs.Detail.{extract_detail}
use slurm_web_plus.Jobs.Queue.{queue_rows}
use slurm_web_plus.Jobs.Upsert.{Snapshot}
use slurm_web_plus.Jobs.Flush.{Writer}

abbrev pub terminal_states : List String
terminal_states =
    "COMPLETED" ∷ "FAILED" ∷ "CANCELLED" ∷ "TIMEOUT" ∷ "NODE_FAIL" ∷ "DEADLINE" ∷ "OUT_OF_MEMORY"
    ∷ "PREEMPTED" ∷ "BOOT_FAIL" ∷ []

-- `s LIKE 't%'`, for a pattern without `%`: an underscore fits every character.
unfoldable pub like_prefix : String → String → Bool
like_prefix s String.[] = true
like_prefix String.[] (String.◌∷◌ d t) = false
like_prefix (String.◌∷◌ c s) (String.◌∷◌ d t) =
    (code d =ᵇ b'_' || code c =ᵇ code d) && like_prefix s t

-- `s LIKE '%t%'`.
unfoldable pub contains : String → String → Bool
unfolding like_prefix
contains String.[] t = like_prefix String.[] t
contains (String.◌∷◌ c s) t = like_prefix (String.◌∷◌ c s) t || contains s t

abbrev pub is_active_state : Option String → Bool
unfolding contains any
is_active_state none = true
is_active_state (some s) = not (any (contains s) terminal_states)

-- What `slurmrestd.job(job_id)` does.
pub data Lookup : Type 0 where
  found : Dict Json → Lookup
  not_found unavailable : Lookup

-- What `_refresh_missing_active_job` returns: a row, `None`, or `_LOOKUP_FAILED`.
pub data Refreshed (F : Type 0) : Type 0 where
  refreshed : Row F → Refreshed F
  gone lookup_failed : Refreshed F

module _ {F : Type 0} where
  abbrev pub is_active : Snapshot F → Bool
  unfolding is_active_state
  is_active s = is_active_state s.row.job_state

  -- `_active_records`, in the order in which the database gives them.
  unfoldable pub active_records : List (Snapshot F) → List (Snapshot F)
  unfolding filter is_active
  active_records table = filter is_active table

  -- `record_submit_time is not None and ... !=`: another job under the same number.
  abbrev pub is_other_job : Row F → Row F → Bool
  is_other_job row stored =
      is_time stored.submit_time
      && is_time row.submit_time
      && not (same_number row.submit_time stored.submit_time)

  -- The answer about a job that was found; `none` is an exception.
  abbrev pub accept_detail : Row F → Row F → Refreshed F
  accept_detail stored row =
      if not (has_full_key row)
      then lookup_failed
      else if is_other_job row stored
      then gone
      else refreshed row

  unfoldable pub refresh_missing_active_job : Python F → Lookup → Row F → Option (Refreshed F)
  unfolding extract_detail
  refresh_missing_active_job py not_found stored = some gone
  refresh_missing_active_job py unavailable stored = some lookup_failed
  refresh_missing_active_job py (found job) stored = do
    row ← extract_detail py job stored
    some (accept_detail stored row)

  -- `_complete_missing_job`.
  unfoldable pub complete_missing_job : Row F → ℕ → Row F
  unfolding truthy
  complete_missing_job stored observed_at = record stored {
    job_state = some "COMPLETED";
    state_reason =
        or_other stored.state_reason (text "Job missing from active queue and detail lookup");
    end_time = either stored.end_time (some observed_at);
  }

  unfoldable pub is_listed : List (Row F) → Row F → Bool
  unfolding any
  is_listed current stored = any (λ row. same_key (row_key row) (row_key stored)) current

  -- The row that is queued for a record, if there is one.
  abbrev pub settled : ℕ → Row F → Refreshed F → List (Row F)
  unfolding complete_missing_job
  settled observed_at stored (refreshed row) = row ∷ []
  settled observed_at stored gone = complete_missing_job stored observed_at ∷ []
  settled observed_at stored lookup_failed = []

  -- The loop of `_reconcile_missing_active_jobs`, with the rows that it queues.
  unfoldable pub reconciled :
      Python F → (Option ℕ → Lookup) → ℕ → List (Row F) → List (Snapshot F) → Option (List (Row F))
  unfolding is_listed refresh_missing_active_job settled
  reconciled py job observed_at current [] = some []
  reconciled py job observed_at current (s ∷ records) =
      let rest = reconciled py job observed_at current records in
      let looked_up = do
        outcome ← refresh_missing_active_job py (job s.row.job_id) s.row
        rows ← rest
        some (settled observed_at s.row outcome ++ rows)
      in if is_listed current s.row then rest else looked_up

-- What the scheduled snapshot meets: slurmrestd's list of jobs and its answer about one job, where
-- `none` is an exception, the time, and whether the database can be read.
pub record Surroundings : Type 0 where
  pub listed_jobs : Option (List (Dict Json))
  pub job : Option ℕ → Lookup
  pub observed_at : ℕ
  pub readable : Bool

module _ {F : Type 0} (py : Python F) where
  -- `_reconcile_missing_active_jobs`, up to the queueing.
  unfoldable pub reconcile : Surroundings → List (Row F) → List (Snapshot F) → Option (List (Row F))
  unfolding active_records reconciled
  reconcile env current table =
      if env.readable
      then reconciled py env.job env.observed_at current (active_records table)
      else none

  unfoldable pub queue_if : Option (List (Row F)) → List (Row F) → List (Row F)
  unfolding queue_rows
  queue_if none pending = pending
  queue_if (some rows) pending = queue_rows rows pending

  unfoldable pub snapshot_rows : Surroundings → Option (List (Row F)) → Writer F → Writer F
  unfolding queue_if reconcile
  snapshot_rows env none w = w
  snapshot_rows env (some rows) w = record w {
    pending = queue_if (reconcile env rows w.table) (queue_rows rows w.pending);
  }

  -- `_scheduled_snapshot`: an exception ends it, and what was queued before stays queued.
  unfoldable pub scheduled_snapshot : Surroundings → Writer F → Writer F
  unfolding prepare_rows snapshot_rows
  scheduled_snapshot env w = snapshot_rows env (do jobs ← env.listed_jobs; prepare_rows py jobs) w
