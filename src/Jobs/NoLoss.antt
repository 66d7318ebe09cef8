-- ===== src/Jobs/NoLoss.antt =====
-- What a flush of slurmweb/persistence/jobs_store.py does with the rows that wait, while other threads
-- queue rows.
use slurm_web_plus.Prelude.{
  Bool, true, false, ℕ, Option, none, List, [], length, ◌≡◌, refl, ◌∙◌, sym, ap, arith,
}
use slurm_web_plus.Jobs.{Row, JobKey}
use slurm_web_plus.Jobs.Queue.{
  newer, newer-none_left, find, newest, queue_rows, find-queue_rows, newest-eq-find, IsKeyed,
  queue_rows-IsKeyed,
}
use slurm_web_plus.Jobs.Upsert.{find_snapshot}
use slurm_web_plus.Jobs.Flush.{Database, flush_chunks, Writer, pending_after, flush, flush_raises}
use slurm_web_plus.Jobs.Delivery.{Fate}
use slurm_web_plus.Jobs.Chunks.{
  IsTold, flush_chunks-IsTold, flush_chunks-Fate, flush_chunks-connected,
}

module _ {F : Type 0} where
  find-nothing : (k : JobKey) → find {F = F} k [] ≡ none
  unfolding find
  find-nothing k = refl

  -- Rows that are queued from nothing.
  fresh-newest : (k : JobKey) (rows : List (Row F)) → newest k (queue_rows rows []) ≡ newest k rows
  fresh-newest k rows =
      newest-eq-find k (queue_rows rows []) (queue_rows-IsKeyed rows [] tt)
      ∙ find-queue_rows k rows []
      ∙ ap (λ (o : Option (Row F)). newer o (newest k rows)) (find-nothing k)
      ∙ newer-none_left (newest k rows)

  fresh-find : (k : JobKey) (rows : List (Row F)) → find k (queue_rows rows []) ≡ newest k rows
  fresh-find k rows =
      sym (newest-eq-find k (queue_rows rows []) (queue_rows-IsKeyed rows [] tt))
      ∙ fresh-newest k rows

  requeued :
      (k : JobKey) (submitted failed : List (Row F))
      → find k (queue_rows (queue_rows submitted []) (queue_rows failed []))
        ≡ newer (newest k failed) (newest k submitted)
  requeued k submitted failed =
      find-queue_rows k (queue_rows submitted []) (queue_rows failed [])
      ∙ ap (newer (find k (queue_rows failed []))) (fresh-newest k submitted)
      ∙ ap (λ (o : Option (Row F)). newer o (newest k submitted)) (fresh-find k failed)

  -- Where `_flush` does not raise: the row that waited is in the table as the statement makes it of
  -- the stored row, or it comes back and the table is at its key as before, in both cases with no
  -- change but the id of its user.
  abbrev pub IsKept : Database F → ℕ → List (Row F) → Writer F → Writer F → Type 0
  IsKept db now submitted w w' =
      (k : JobKey)
      → (back : Option (Row F)) × Fate db now (find k w.pending) (find_snapshot k w.table) back
          (find_snapshot k w'.table)
        × (find k w'.pending ≡ newer back (newest k submitted))

  -- Where it raises: only what was submitted waits, and the table is at each key as before or holds
  -- the row that waited.
  abbrev pub IsDropped : Database F → ℕ → List (Row F) → Writer F → Writer F → Type 0
  IsDropped db now submitted w w' =
      (k : JobKey)
      → (find k w'.pending ≡ newest k submitted)
        × IsTold db now (find k w.pending) (find_snapshot k w.table) (find_snapshot k w'.table)

  pending-IsKeyed :
      (submitted failed : List (Row F)) (b : Bool)
      → IsKeyed (pending_after submitted (record { raised = b; failed = failed; table = [] }))
  unfolding pending_after
  pending-IsKeyed submitted failed true = queue_rows-IsKeyed submitted [] tt
  pending-IsKeyed submitted failed false =
      queue_rows-IsKeyed (queue_rows submitted []) (queue_rows failed [])
        (queue_rows-IsKeyed failed [] tt)

  -- If no key waits twice, that is so after a flush too. If every chunk gets a connection and gives it
  -- back, `_flush` does not raise. If it does not raise, whatever the statements do and whatever is queued meanwhile, for
  -- every key the row that waited is written or comes back, with no change but the id of its user,
  -- and the newest row that was queued meanwhile waits, or else the row that came back. If it raises,
  -- no row that waited comes back: at every key only what was queued meanwhile waits, while the
  -- table is as before or holds the row that waited.
  pub flush-Fate :
      (db : Database F) (now : ℕ) (submitted : List (Row F)) (w : Writer F)
      → IsKeyed w.pending
      → let w' = flush db now submitted w in
        IsKeyed w'.pending
        × (((chunk : List (Row F)) → (db.connects chunk ≡ true) × (db.releases chunk ≡ true))
            → flush_raises db now w ≡ false)
        × (flush_raises db now w ≡ false → IsKept db now submitted w w')
        × (flush_raises db now w ≡ true → IsDropped db now submitted w w')
  unfolding flush flush_raises
  flush-Fate db now submitted w h =
      let r = flush_chunks db now (length w.pending) w.pending w.table in
      (
        pending-IsKeyed submitted r.failed r.raised,
        flush_chunks-connected db now (length w.pending) w.pending w.table,
        λ done k. (
          newest k r.failed,
          flush_chunks-Fate db now k (length w.pending) w.pending w.table (omega arith) h done,
          rw done (requeued k submitted r.failed),
        ),
        λ raised k. (
          rw raised (fresh-find k submitted),
          flush_chunks-IsTold db now k (length w.pending) w.pending w.table (omega arith) h,
        ),
      )
