-- ===== src/Jobs/BackfillTests.antt =====
-- The backfill and the history of slurmweb/persistence/jobs_store.py with a few jobs.
use Prim.Native.String.{String}
use slurm_web_plus.Prelude.{
  ◌==◌, arith, ℕ, Bool, true, false, Option, none, some, List, [], ◌∷◌, ◌+◌, if◌then◌else◌, ◌=ᵇ◌,
  ◌≡◌, refl, All, length,
}
use slurm_web_plus.Prelude.Int.{pos}
use slurm_web_plus.Prelude.Dict.{Dict}
use slurm_web_plus.Json.Value.{
  Json, number, text, array, object, element, no_elements, member, no_members,
}
use slurm_web_plus.Jobs.{row_key}
use slurm_web_plus.Jobs.Fields.{ts}
use slurm_web_plus.Jobs.Upsert.{Snapshot}
use slurm_web_plus.Jobs.Reconcile.{Lookup, found, not_found, unavailable}
use slurm_web_plus.Jobs.Settled.{In}
use slurm_web_plus.Jobs.Backfill.{Decision, Tally, LogEntry, decide, backfill_usage_fields}
use slurm_web_plus.Jobs.Candidates.{Scope, usage_backfill_candidates}
use slurm_web_plus.Jobs.Report.{IsCounted, AllSourced, IsLog, Updates}
use slurm_web_plus.Jobs.Gaps.{AllFills, IsStored}
use slurm_web_plus.Jobs.Filled.{backfill_usage_fields-AllFills}
use slurm_web_plus.Jobs.Fixtures.{py, row_of, key, stored}
use slurm_web_plus.Jobs.History.{Sql, query, HistoryPage}
use slurm_web_plus.Jobs.HistoryOrder.{IsPreorder}
use slurm_web_plus.Jobs.Paging.{IsPaged, query-IsPaged}

abbrev object_of : String → Json → Json
object_of key value = object (member key value no_members)

-- The answer about a job with one step, whose memory is known.
abbrev usage_answer : Dict Json
usage_answer =
    (
      "steps",
      array (
          element
            (object (
              member "tres"
                (object_of "consumed" (
                  object_of "max" (
                    array (
                      element
                        (object
                          (member "type" (text "mem") (member "count" (number (pos 3)) no_members)))
                        no_elements))))
                no_members))
            no_elements),
    )
    ∷ []

abbrev everything : Scope
everything = record {
  start_time = none;
  end_time = none;
  username = none;
  user_id = none;
  job_id = none;
  limit = some 5;
  missing_only = true;
}

abbrev ended : ℕ → Snapshot ℕ
ended job_id = record (stored job_id) {
  row = record (row_of job_id "carol") { job_state = some "COMPLETED" };
}

abbrev details : Option ℕ → Lookup
details none = unavailable
details (some n) = if n =ᵇ 6 then not_found else found usage_answer

abbrev filled : Snapshot ℕ
filled = record (ended 5) { row = record (ended 5).row { used_memory_gb = some 3 } }

abbrev entry : ℕ → Option ℕ → Bool → String → LogEntry ℕ
entry job_id memory updated reason = record {
  key = key job_id;
  old_memory = none;
  new_memory = memory;
  old_cpu = none;
  new_cpu = none;
  updated = updated;
  reason = reason;
}

abbrev report : Tally ℕ
report = record {
  scanned = 2;
  updated = 1;
  skipped = 1;
  log = entry 5 (some 3) true "ok" ∷ entry 6 none false "not_found" ∷ [];
  rows = ended 6 ∷ filled ∷ stored 7 ∷ [];
}

abbrev history : List (Snapshot ℕ)
history = ended 6 ∷ ended 5 ∷ stored 7 ∷ []

-- Job 5 gets its memory, slurmrestd has forgotten job 6, and job 7 still runs.
backfill_test :
    backfill_usage_fields py (λ n. n) (some details) everything false history ≡ some report
unfolding backfill_usage_fields ts
backfill_test = refl

backfill_usage_fields-AllFills_example :
    (2 ≡ length (usage_backfill_candidates py everything history))
    × (1 + 1 ≡ 2)
    × IsLog py (λ n. n) details (usage_backfill_candidates py everything history) report.log
    × IsCounted report
    × AllFills history report.rows
    × AllSourced
        (Updates py (λ n. n) details (usage_backfill_candidates py everything history))
        history
        report.rows
    × (false ≡ true → report.rows ≡ history)
    × ((s : Snapshot ℕ) (d : Decision ℕ)
        → false ≡ false
        → In s (usage_backfill_candidates py everything history)
        → decide py (λ n. n) (details s.row.job_id) s.row ≡ some d
        → d.can_update ≡ true
        → All (IsStored (row_key s.row) d) report.rows)
backfill_usage_fields-AllFills_example =
    backfill_usage_fields-AllFills py (λ n. n) details everything false history report backfill_test

-- A database to which all texts are alike.
abbrev sql : Sql
sql = record {
  time_of = λ v. none;
  text_le = λ a b. true;
  like = λ s pattern. s == "COMPLETED";
  ilike = λ s pattern. false;
  str = λ j. "";
}

-- The second page of the jobs that have completed, with one job on a page.
abbrev filters : Dict Json
filters =
    ("state", text "COMPLETED")
    ∷ ("sort", text "id")
    ∷ ("page_size", number (pos 0))
    ∷ ("page", text "2")
    ∷ []

abbrev second_page : HistoryPage ℕ
second_page = record { total = 2; page = 2; page_size = 1; jobs = ended 5 ∷ [] }

query_test : query sql filters history ≡ some second_page
unfolding query
query_test = refl

texts_alike : IsPreorder sql.text_le
texts_alike = (λ a b h. refl, λ a b c h k. refl)

query-IsPaged_example : IsPaged sql filters history 2 second_page
query-IsPaged_example =
    query-IsPaged sql filters history second_page 2 texts_alike query_test (omega arith)
