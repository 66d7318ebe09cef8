-- ===== src/Jobs/Flush.antt =====
-- `_flush` and `_flush_chunk` of slurmweb/persistence/jobs_store.py.
use slurm_web_plus.Prelude.{
  true, false, ℕ, zero, suc, Bool, Option, none, some, List, [], ◌∷◌, ◌++◌, map, if◌then◌else◌,
  length, take, drop, any,
}
use slurm_web_plus.Json.Value.{null, Json, truthy}
use slurm_web_plus.Jobs.{Row}
use slurm_web_plus.Jobs.Queue.{queue_rows}
use slurm_web_plus.Jobs.Upsert.{Snapshot, upsert}

-- How a `try` block of the writer ends: it commits, it raises before the rows have their users' ids,
-- or after.
pub data Attempt : Type 0 where
  committed raised_early raised_late : Attempt

-- The database during one flush: the id of a user's name and the name of an id, whether `_get_conn` and
-- `_release_conn` return for a chunk, how the block of a chunk and that of a row end, and `_round_metric`.
pub record Database (F : Type 0) : Type 0 where
  pub user_id_of : Json → Option ℕ
  pub connects : List (Row F) → Bool
  pub releases : List (Row F) → Bool
  pub bulk : List (Row F) → Attempt
  pub single : Row F → Attempt
  pub name_of : ℕ → Json
  pub round_metric : F → F

abbrev pub map_option : {A B : Type 0} → (A → B) → Option A → Option B
map_option f none = none
map_option f (some a) = some (f a)

abbrev pub names_user : {F : Type 0} → Row F → Bool
names_user row = truthy row.user_name

-- The rows that could not be written, and the table.
abbrev pub Outcome : Type 0 → Type 0
Outcome F = List (Row F) × List (Snapshot F)

abbrev pub batch_chunk : ℕ
batch_chunk = 500

module _ {F : Type 0} where
  -- `row["user_id"] = mapping.get(row.get("user_name"))`.
  unfoldable pub identify : Database F → Row F → Row F
  unfolding truthy
  identify db row = record row {
    user_id = if names_user row then db.user_id_of row.user_name else none;
  }

  -- `_ensure_users`: rows without any name keep their ids.
  unfoldable pub ensure_users : Database F → List (Row F) → List (Row F)
  unfolding identify any
  ensure_users db rows = if any names_user rows then map (identify db) rows else rows

  -- `LEFT JOIN users u ON u.id = js.user_id`.
  abbrev pub name_at : Database F → Option ℕ → Json
  name_at db none = null
  name_at db (some user_id) = db.name_of user_id

  -- `_prepare_db_row`; the wrapping for JSON columns has no counterpart.
  unfoldable pub prepare_db_row : Database F → Row F → Row F
  prepare_db_row db row = record row {
    used_memory_gb = map_option db.round_metric row.used_memory_gb;
    used_cpu_cores_avg = map_option db.round_metric row.used_cpu_cores_avg;
  }

  -- What a row is in the table. It has no names: they come from `users` by `user_id`.
  unfoldable pub stored_row : Database F → Row F → Row F
  unfolding prepare_db_row
  stored_row db row = record (prepare_db_row db row) { user_name = name_at db row.user_id }

  unfoldable pub upsert_all : Database F → ℕ → List (Row F) → List (Snapshot F) → List (Snapshot F)
  unfolding upsert stored_row
  upsert_all db now [] table = table
  upsert_all db now (row ∷ rows) table =
      upsert_all db now rows (upsert now (stored_row db row) table)

  -- One row, with the rows that failed.
  unfoldable pub flush_row : Database F → ℕ → Row F → List (Snapshot F) → Attempt → Outcome F
  unfolding upsert_all ensure_users
  flush_row db now row table committed = ([], upsert_all db now (ensure_users db (row ∷ [])) table)
  flush_row db now row table raised_early = (row ∷ [], table)
  flush_row db now row table raised_late = (ensure_users db (row ∷ []), table)

  -- The rows one by one, after the block of the chunk has failed.
  unfoldable pub flush_rows : Database F → ℕ → List (Row F) → List (Snapshot F) → Outcome F
  unfolding flush_row
  flush_rows db now [] table = ([], table)
  flush_rows db now (row ∷ rows) table =
      let (failed, table') = flush_row db now row table (db.single row) in
      let (more, table'') = flush_rows db now rows table' in (failed ++ more, table'')

  unfoldable pub flush_bulk :
      Database F → ℕ → List (Row F) → List (Snapshot F) → Attempt → Outcome F
  unfolding flush_rows upsert_all ensure_users
  flush_bulk db now chunk table committed = ([], upsert_all db now (ensure_users db chunk) table)
  flush_bulk db now chunk table raised_early = flush_rows db now chunk table
  flush_bulk db now chunk table raised_late = flush_rows db now (ensure_users db chunk) table

  -- `_flush_chunk`, once `_get_conn` has given a connection.
  unfoldable pub flush_chunk : Database F → ℕ → List (Row F) → List (Snapshot F) → Outcome F
  unfolding flush_bulk
  flush_chunk db now chunk table = flush_bulk db now chunk table (db.bulk chunk)

-- How the loop over the chunks ends: whether `_get_conn` or `_release_conn` has raised, which no `except`
-- catches, the rows that could not be written, and the table.
pub record Flushed (F : Type 0) : Type 0 where
  pub raised : Bool
  pub failed : List (Row F)
  pub table : List (Snapshot F)

abbrev pub add_failed : {F : Type 0} → List (Row F) → Flushed F → Flushed F
add_failed failed r = record r { failed = failed ++ r.failed }

abbrev pub interrupted : {F : Type 0} → List (Snapshot F) → Flushed F
interrupted table = record { raised = true; failed = []; table = table }

abbrev pub all_done : {F : Type 0} → List (Snapshot F) → Flushed F
all_done table = record { raised = false; failed = []; table = table }

module _ {F : Type 0} where
  -- The loop over `range(0, len(batch), BATCH_CHUNK)`, on fuel: `len(batch)` rounds are enough.
  unfoldable pub flush_chunks : Database F → ℕ → ℕ → List (Row F) → List (Snapshot F) → Flushed F
  unfolding flush_chunk
  flush_chunks db now fuel [] table = all_done table
  flush_chunks db now zero (row ∷ rows) table = all_done table
  flush_chunks db now (suc fuel) (row ∷ rows) table =
      let (failed, table') = flush_chunk db now (take batch_chunk (row ∷ rows)) table in
      let rest = flush_chunks db now fuel (drop batch_chunk (row ∷ rows)) table' in
      if db.connects (take batch_chunk (row ∷ rows))
      then if db.releases (take batch_chunk (row ∷ rows))
        then add_failed failed rest
        else interrupted table'
      else interrupted table

-- The pending rows and the table.
pub record Writer (F : Type 0) : Type 0 where
  pub pending : List (Row F)
  pub table : List (Snapshot F)

module _ {F : Type 0} where
  -- `_pending` is empty since the first locked block. An exception leaves `_flush` before the failed
  -- rows come back; otherwise the rows submitted meanwhile go over them.
  unfoldable pub pending_after : List (Row F) → Flushed F → List (Row F)
  unfolding queue_rows
  pending_after submitted r =
      if r.raised
      then queue_rows submitted []
      else queue_rows (queue_rows submitted []) (queue_rows r.failed [])

  unfoldable pub loop_of : Database F → ℕ → Writer F → Flushed F
  unfolding flush_chunks
  loop_of db now w = flush_chunks db now (length w.pending) w.pending w.table

  -- `_flush`, while other threads queue the rows `submitted` between the two locked blocks.
  unfoldable pub flush : Database F → ℕ → List (Row F) → Writer F → Writer F
  unfolding loop_of pending_after
  flush db now submitted w =
      let r = loop_of db now w in record { pending = pending_after submitted r; table = r.table }

  -- Whether `_flush` ends by an exception.
  unfoldable pub flush_raises : Database F → ℕ → Writer F → Bool
  unfolding loop_of
  flush_raises db now w = (loop_of db now w).raised
