-- ===== src/Jobs/Delivered.antt =====
-- The fate of every row of a flush of slurmweb/persistence/jobs_store.py, chunk by chunk.
use slurm_web_plus.Prelude.{
  ℕ, Option, none, some, List, [], ◌∷◌, ◌++◌, if◌then◌else◌, ◌≡◌, ◌⊎◌, refl, ◌∙◌, sym, ap, inl, inr,
  arith, Bool-cases,
}
use slurm_web_plus.Jobs.{Row, JobKey, row_key, same_key-eq}
use slurm_web_plus.Jobs.Queue.{
  newer, has_key, find, newest, newest-append, newest-eq-find, IsKeyed, find-append, append-IsKeyed,
}
use slurm_web_plus.Jobs.Upsert.{Snapshot, find_snapshot, upsert, find_snapshot-upsert}
use slurm_web_plus.Jobs.Flush.{
  Attempt, committed, raised_early, raised_late, Database, ensure_users, stored_row, upsert_all,
  flush_row, flush_rows, flush_bulk,
}
use slurm_web_plus.Jobs.Delivery.{
  Fate, Fate-append, find-ensure_users, ensure_users-IsKeyed, Fate-Like, Fate-back,
}

module _ {F : Type 0} (db : Database F) (now : ℕ) where
  abbrev alone : JobKey → Row F → Option (Row F)
  alone k r = if has_key k r then some r else none

  upsert-Fate :
      (k : JobKey) (r : Row F) (table : List (Snapshot F))
      → Fate db now
          (alone k r)
          (find_snapshot k table)
          none
          (find_snapshot k (upsert now (stored_row db r) table))
  unfolding stored_row
  upsert-Fate k r table = elim (Bool-cases (has_key k r)) [
    | inl e ↦
        rw e (inl (r, refl, find_snapshot-upsert k now (stored_row db r) table ∙ rw e refl, refl))
    | inr e ↦ rw e (refl, find_snapshot-upsert k now (stored_row db r) table ∙ rw e refl)
  ]

  -- The first row has the key, or one of the others, or none.
  find_first :
      (k : JobKey) (r : Row F) (rows : List (Row F))
      → find k (r ∷ rows) ≡ newer (find k rows) (alone k r)
  unfolding find
  find_first k r rows = ground arith

  first_apart :
      (k : JobKey) (r : Row F) (rows : List (Row F))
      → IsKeyed (r ∷ rows)
      → (alone k r ≡ none) ⊎ (find k rows ≡ none)
  first_apart k r rows h = elim (Bool-cases (has_key k r)) [
    | inl e ↦ inr (ap (λ (j : JobKey). find j rows) (sym (same_key-eq (row_key r) k e)) ∙ h.0)
    | inr e ↦ inl (rw e refl)
  ]

  pub no_row-Fate :
      (k : JobKey) (before : Option (Snapshot F)) → Fate db now (find k []) before none before
  unfolding find
  no_row-Fate k before = (refl, refl)

  pub no_back : (k : JobKey) → newest {F = F} k [] ≡ none
  unfolding newest
  no_back k = refl

  upsert_all-Fate :
      (k : JobKey) (rows : List (Row F)) (table : List (Snapshot F))
      → IsKeyed rows
      → Fate db now
          (find k rows)
          (find_snapshot k table)
          none
          (find_snapshot k (upsert_all db now rows table))
  unfolding upsert_all
  upsert_all-Fate k [] table h = no_row-Fate k (find_snapshot k table)
  upsert_all-Fate k (r ∷ rows) table h =
      let table' : List (Snapshot F) = upsert now (stored_row db r) table in
      rw (find_first k r rows) (
        Fate-append db now (alone k r) (find k rows) (find_snapshot k table)
          (find_snapshot k table') (find_snapshot k (upsert_all db now rows table')) none none
          (first_apart k r rows h) (upsert-Fate k r table) (upsert_all-Fate k rows table' h.1))

  -- Rows that are written with the ids of their users.
  written-Fate :
      (k : JobKey) (rows : List (Row F)) (table : List (Snapshot F))
      → IsKeyed rows
      → Fate db now
          (find k rows)
          (find_snapshot k table)
          (newest k [])
          (find_snapshot k (upsert_all db now (ensure_users db rows) table))
  written-Fate k rows table h = rw (no_back k) (
      Fate-Like db now (find k rows) (find k (ensure_users db rows)) (find_snapshot k table)
        (find_snapshot k (upsert_all db now (ensure_users db rows) table)) none
        (find-ensure_users db now k rows)
        (upsert_all-Fate k (ensure_users db rows) table (ensure_users-IsKeyed db now rows h)))

  single-IsKeyed : (r : Row F) → IsKeyed (r ∷ [])
  unfolding find
  single-IsKeyed r = (refl, tt)

  back_again :
      (k : JobKey) (rows : List (Row F)) (table : List (Snapshot F))
      → IsKeyed rows
      → Fate db now (find k rows) (find_snapshot k table) (newest k rows) (find_snapshot k table)
  back_again k rows table h =
      rw (newest-eq-find k rows h) (Fate-back db now (find k rows) (find_snapshot k table))

  flush_row-Fate :
      (k : JobKey) (r : Row F) (table : List (Snapshot F)) (a : Attempt)
      → let (failed, table') = flush_row db now r table a in
        Fate db now
          (find k (r ∷ []))
          (find_snapshot k table)
          (newest k failed)
          (find_snapshot k table')
  unfolding flush_row
  flush_row-Fate k r table committed = written-Fate k (r ∷ []) table (single-IsKeyed r)
  flush_row-Fate k r table raised_early = back_again k (r ∷ []) table (single-IsKeyed r)
  flush_row-Fate k r table raised_late =
      Fate-Like db now (find k (r ∷ [])) (find k (ensure_users db (r ∷ []))) (find_snapshot k table)
        (find_snapshot k table) (newest k (ensure_users db (r ∷ [])))
        (find-ensure_users db now k (r ∷ []))
        (back_again k (ensure_users db (r ∷ [])) table
          (ensure_users-IsKeyed db now (r ∷ []) (single-IsKeyed r)))

  -- Two lists of rows that are handled one after the other.
  pub both-Fate :
      (k : JobKey) (xs ys failed more : List (Row F)) (before middle after : Option (Snapshot F))
      → (find k xs ≡ none) ⊎ (find k ys ≡ none)
      → Fate db now (find k xs) before (newest k failed) middle
      → Fate db now (find k ys) middle (newest k more) after
      → Fate db now (find k (xs ++ ys)) before (newest k (failed ++ more)) after
  both-Fate k xs ys failed more before middle after apart h h' =
      rw (find-append k xs ys, newest-append k failed more)
        (Fate-append db now (find k xs) (find k ys) before middle after (newest k failed)
          (newest k more) apart h h')

  flush_rows-Fate :
      (k : JobKey) (rows : List (Row F)) (table : List (Snapshot F))
      → IsKeyed rows
      → let (failed, table') = flush_rows db now rows table in
        Fate db now (find k rows) (find_snapshot k table) (newest k failed) (find_snapshot k table')
  unfolding flush_rows
  flush_rows-Fate k [] table h = rw (no_back k) (no_row-Fate k (find_snapshot k table))
  flush_rows-Fate k (r ∷ rows) table h =
      let (failed, table') = flush_row db now r table (db.single r) in
      let (more, table'') = flush_rows db now rows table' in
      both-Fate k (r ∷ []) rows failed more (find_snapshot k table) (find_snapshot k table')
        (find_snapshot k table'') ((append-IsKeyed (r ∷ []) rows h).2 k)
        (flush_row-Fate k r table (db.single r)) (flush_rows-Fate k rows table' h.1)

  pub flush_bulk-Fate :
      (k : JobKey) (rows : List (Row F)) (table : List (Snapshot F)) (a : Attempt)
      → IsKeyed rows
      → let (failed, table') = flush_bulk db now rows table a in
        Fate db now (find k rows) (find_snapshot k table) (newest k failed) (find_snapshot k table')
  unfolding flush_bulk
  flush_bulk-Fate k rows table committed h = written-Fate k rows table h
  flush_bulk-Fate k rows table raised_early h = flush_rows-Fate k rows table h
  flush_bulk-Fate k rows table raised_late h =
      let (failed, table') = flush_rows db now (ensure_users db rows) table in
      Fate-Like db now (find k rows) (find k (ensure_users db rows)) (find_snapshot k table)
        (find_snapshot k table') (newest k failed) (find-ensure_users db now k rows)
        (flush_rows-Fate k (ensure_users db rows) table (ensure_users-IsKeyed db now rows h))
