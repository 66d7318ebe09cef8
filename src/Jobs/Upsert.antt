-- ===== src/Jobs/Upsert.antt =====
-- The UPSERT statement of slurmweb/persistence/jobs_store.py on the table `job_snapshots`.
use slurm_web_plus.Prelude.{
  ℕ, Option, none, some, List, [], ◌∷◌, if◌then◌else◌, ◌≡◌, refl, inl, inr, arith, Bool-cases,
}
use slurm_web_plus.Jobs.{Row, JobKey, row_key}
use slurm_web_plus.Jobs.Queue.{newer, has_key, has_key-same, has_key-other}

-- A row of the table. `snapshot_time` is the column `last_seen`.
pub record Snapshot (F : Type 0) : Type 0 where
  pub row : Row F
  pub first_seen : ℕ
  pub snapshot_time : ℕ

module _ {F : Type 0} where
  -- `COALESCE(EXCLUDED.c, job_snapshots.c)` is `newer old new`. The columns that are not named in the
  -- statement keep their first value; the user's name is no column and comes with `user_id`.
  unfoldable pub merge_row : Row F → Row F → Row F
  merge_row old new = record old {
    job_state = new.job_state;
    state_reason = new.state_reason;
    nodes = new.nodes;
    node_count = new.node_count;
    cpus = new.cpus;
    priority = new.priority;
    start_time = new.start_time;
    end_time = new.end_time;
    eligible_time = newer old.eligible_time new.eligible_time;
    last_sched_evaluation_time =
        newer old.last_sched_evaluation_time new.last_sched_evaluation_time;
    tres_requested = newer old.tres_requested new.tres_requested;
    tres_allocated = newer old.tres_allocated new.tres_allocated;
    used_memory_gb = newer old.used_memory_gb new.used_memory_gb;
    usage_stats = newer old.usage_stats new.usage_stats;
    used_cpu_cores_avg = newer old.used_cpu_cores_avg new.used_cpu_cores_avg;
    exit_code = new.exit_code;
    gres_detail = new.gres_detail;
    partition = new.partition;
    qos = new.qos;
    time_limit_minutes = new.time_limit_minutes;
    working_directory = new.working_directory;
    command = new.command;
    user_id = new.user_id;
    user_name = new.user_name;
  }

  -- What the statement makes of the row of the key, if there is one.
  unfoldable pub write_row : ℕ → Option (Snapshot F) → Row F → Snapshot F
  unfolding merge_row
  write_row now none new = record { row = new; first_seen = now; snapshot_time = now }
  write_row now (some old) new = record old { row = merge_row old.row new; snapshot_time = now }

  unfoldable pub find_snapshot : JobKey → List (Snapshot F) → Option (Snapshot F)
  find_snapshot k [] = none
  find_snapshot k (s ∷ table) =
      let rest = find_snapshot k table in if has_key k s.row then some s else rest

  -- `INSERT ... ON CONFLICT (job_id, submit_time) DO UPDATE`.
  unfoldable pub upsert : ℕ → Row F → List (Snapshot F) → List (Snapshot F)
  unfolding write_row
  upsert now new [] = write_row now none new ∷ []
  upsert now new (s ∷ table) =
      let rest = upsert now new table in
      if has_key (row_key new) s.row then write_row now (some s) new ∷ table else s ∷ rest

  -- The table holds at each key what was written there last.
  pub find_snapshot-upsert :
      (k : JobKey) (now : ℕ) (new : Row F) (table : List (Snapshot F))
      → find_snapshot k (upsert now new table) ≡ (
          if has_key k new
          then some (write_row now (find_snapshot k table) new)
          else find_snapshot k table)
  unfolding find_snapshot upsert
  find_snapshot-upsert k now new [] = ground arith
  find_snapshot-upsert k now new (s ∷ table) = elim (Bool-cases (has_key (row_key new) s.row)) [
    | inl e ↦ rw e (ground (arith, has_key-same k s.row new e))
    | inr other ↦ rw other (elim (Bool-cases (has_key k s.row)) [
      | inl mine ↦ rw (mine, has_key-other k s.row new other mine) refl
      | inr not_mine ↦ rw not_mine (find_snapshot-upsert k now new table)
    ])
  ]
