-- ===== src/Jobs/Tests.antt =====
-- The theorems on slurmweb/persistence/jobs_store.py with a few jobs.
use slurm_web_plus.Prelude.{
  ℕ, true, false, Option, none, some, List, [], ◌∷◌, if◌then◌else◌, ◌=ᵇ◌, ◌≡◌, ◌≢◌, refl, inl, inr,
}
use slurm_web_plus.Prelude.Int.{pos}
use slurm_web_plus.Json.Value.{text, Json, number}
use slurm_web_plus.Jobs.{Row, row_key, UsageStats}
use slurm_web_plus.Jobs.Fields.{ts, int_field, tres_str, tres_json, exit_str}
use slurm_web_plus.Jobs.Extract.{prepare_rows}
use slurm_web_plus.Jobs.Queue.{find, IsKeyed}
use slurm_web_plus.Jobs.Upsert.{Snapshot, find_snapshot, write_row}
use slurm_web_plus.Jobs.Flush.{
  Attempt, committed, raised_early, raised_late, Database, Writer, flush, flush_raises, stored_row,
}
use slurm_web_plus.Jobs.NoLoss.{IsKept, IsDropped, flush-Fate}
use slurm_web_plus.Jobs.Remembered.{Remembers, flush-Remembers}
use slurm_web_plus.Jobs.Reconcile.{
  Lookup, found, not_found, unavailable, is_listed, is_active, complete_missing_job, reconciled,
  Surroundings, scheduled_snapshot,
}
use slurm_web_plus.Jobs.Settled.{In, gone_job_settles}
use slurm_web_plus.Jobs.Ready.{IsReady, scheduled_snapshot-IsReady}
use slurm_web_plus.Jobs.Fixtures.{py, answer, row_of, key, stored}

-- An answer without a submit time gives no row.
prepare_rows_test :
    prepare_rows py (answer 1 "alice" ∷ (("job_id", number (pos 9)) ∷ []) ∷ answer 2 "bob" ∷ [])
    ≡ some (row_of 1 "alice" ∷ row_of 2 "bob" ∷ [])
unfolding prepare_rows ts int_field tres_str exit_str
prepare_rows_test = refl

abbrev user_id_of : Json → Option ℕ
user_id_of name = some 7

abbrev bulk : List (Row ℕ) → Attempt
bulk rows = raised_late

abbrev single : Row ℕ → Attempt
single row = elim row.job_id [
  | none ↦ raised_early
  | some n ↦ if n =ᵇ 2 then raised_early else committed
]

-- A database that takes no chunk, and every row but that of job 2.
abbrev database : Database ℕ
database = record {
  user_id_of = user_id_of;
  connects = λ rows. true;
  releases = λ rows. true;
  name_of = λ user_id. text "known";
  bulk = bulk;
  single = single;
  round_metric = λ n. n;
}

abbrev writer : Writer ℕ
writer = record {
  pending = row_of 1 "alice" ∷ row_of 2 "bob" ∷ [];
  table = stored 1 ∷ stored 5 ∷ [];
}

-- Job 2 comes back, with the id of its user, before job 3.
flush_test :
    (flush database 9 (row_of 3 "dave" ∷ []) writer).pending
    ≡ record (row_of 2 "bob") { user_id = some 7 } ∷ row_of 3 "dave" ∷ []
unfolding flush
flush_test = refl

writer-IsKeyed : IsKeyed writer.pending
unfolding find
writer-IsKeyed = (refl, (refl, tt))

-- Without a connection the rows that waited are gone.
flush_unconnected_test :
    (flush (record database { connects = λ rows. false }) 9 (row_of 3 "dave" ∷ []) writer).pending
    ≡ row_of 3 "dave" ∷ []
unfolding flush
flush_unconnected_test = refl

flush-Fate_example :
    let w' = flush database 9 (row_of 3 "dave" ∷ []) writer in
    IsKeyed w'.pending
    × (((chunk : List (Row ℕ)) → (true ≡ true) × (true ≡ true))
        → flush_raises database 9 writer ≡ false)
    × (flush_raises database 9 writer ≡ false → IsKept database 9 (row_of 3 "dave" ∷ []) writer w')
    × (flush_raises database 9 writer ≡ true
        → IsDropped database 9 (row_of 3 "dave" ∷ []) writer w')
flush-Fate_example = flush-Fate database 9 (row_of 3 "dave" ∷ []) writer writer-IsKeyed

stored_found : find_snapshot (key 1) writer.table ≡ some (stored 1)
unfolding find_snapshot
stored_found = refl

flush-Remembers_example :
    (s' : Snapshot ℕ) × (find_snapshot
        (key 1)
        (flush database 9 (row_of 3 "dave" ∷ []) writer).table
      ≡ some s')
    × Remembers (stored 1) s'
flush-Remembers_example =
    flush-Remembers database 9 (row_of 3 "dave" ∷ []) writer writer-IsKeyed (key 1) (stored 1)
      stored_found

abbrev lookup : Option ℕ → Lookup
lookup none = unavailable
lookup (some n) = if n =ᵇ 5 then not_found else found (answer n "carol")

abbrev no_usage : UsageStats ℕ
no_usage = record {
  value_gb = none;
  source = none;
  total_seconds = 0;
  job_elapsed_seconds = none;
  estimated_cores_avg = none;
  included_steps = [];
  excluded_steps = [];
}

abbrev settled_rows : List (Row ℕ)
unfolding complete_missing_job
settled_rows =
    record (row_of 1 "carol") { usage_stats = some no_usage }
    ∷ complete_missing_job (row_of 5 "carol") 500
    ∷ []

-- Job 1 still runs, job 5 is gone.
reconciled_test : reconciled py lookup 500 [] writer.table ≡ some settled_rows
unfolding reconciled settled_rows ts tres_str exit_str tres_json
reconciled_test = refl

gone_job_settles_example :
    let row = complete_missing_job (row_of 5 "carol") 500 in
    In row settled_rows
    × (row.job_state ≡ some "COMPLETED")
    × (row.end_time ≢ none)
    × (row_key row ≡ key 5)
    × ((db : Database ℕ) (now : ℕ) (user_id : Option ℕ)
        → is_active
            (write_row now (some (stored 5)) (stored_row db (record row { user_id = user_id })))
          ≡ false)
unfolding is_listed
gone_job_settles_example =
    gone_job_settles py lookup 500 [] (stored 5) writer.table settled_rows (inr (inl refl)) refl
      refl reconciled_test

abbrev surroundings : Surroundings
surroundings = record {
  listed_jobs = some (answer 1 "alice" ∷ answer 3 "dave" ∷ []);
  job = lookup;
  observed_at = 500;
  readable = true;
}

scheduled_snapshot-IsReady_example : IsReady (scheduled_snapshot py surroundings writer).pending
scheduled_snapshot-IsReady_example =
    scheduled_snapshot-IsReady py surroundings writer (refl, (refl, tt))
      (writer-IsKeyed, (refl, (refl, tt)))
