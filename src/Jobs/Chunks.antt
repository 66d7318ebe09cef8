-- ===== src/Jobs/Chunks.antt =====
-- The loop over the chunks of a flush of slurmweb/persistence/jobs_store.py.
use slurm_web_plus.Prelude.{
  ℕ, zero, suc, ◌≤◌, Option, none, some, List, [], ◌∷◌, ◌++◌, length, take, drop, take-append-drop,
  length-drop, ◌≡◌, ◌⊎◌, refl, ◌∙◌, sym, subst, inl, inr, arith, Bool-cases,
}
use slurm_web_plus.Jobs.{Row, JobKey}
use slurm_web_plus.Jobs.Queue.{newer, find, newest, IsKeyed, find-append, append-IsKeyed}
use slurm_web_plus.Jobs.Upsert.{Snapshot, find_snapshot}
use slurm_web_plus.Jobs.Flush.{Database, stored_row, flush_chunk, flush_chunks, batch_chunk}
use slurm_web_plus.Jobs.Delivery.{Fate}
use slurm_web_plus.Prelude.{true, false}
use slurm_web_plus.Jobs.Flush.{stored_row}
use slurm_web_plus.Jobs.Upsert.{write_row}
use slurm_web_plus.Jobs.Delivery.{Like}
use slurm_web_plus.Jobs.Delivered.{both-Fate, flush_bulk-Fate, no_row-Fate, no_back}

module _ {F : Type 0} (db : Database F) (now : ℕ) where
  -- The table at a key is as before, or holds the row that waited there as the statement makes it.
  abbrev pub IsTold : Option (Row F) → Option (Snapshot F) → Option (Snapshot F) → Type 0
  IsTold none before after = after ≡ before
  IsTold (some r) before after =
      (after ≡ before)
      ⊎ ((r' : Row F) × Like r r' × (after ≡ some (write_row now before (stored_row db r'))))

  Fate-IsTold :
      (o : Option (Row F)) (before after : Option (Snapshot F)) (back : Option (Row F))
      → Fate db now o before back after
      → IsTold o before after
  Fate-IsTold none before after back (_, same) = same
  Fate-IsTold (some r) before after back (inl (r', like, written, _)) = inr (r', like, written)
  Fate-IsTold (some r) before after back (inr (_, _, _, same)) = inl same

  same-IsTold : (o : Option (Row F)) (before : Option (Snapshot F)) → IsTold o before before
  same-IsTold none before = refl
  same-IsTold (some r) before = inl refl

  IsTold-append :
      (o o' : Option (Row F)) (before middle after : Option (Snapshot F))
      → (o ≡ none) ⊎ (o' ≡ none)
      → IsTold o before middle
      → IsTold o' middle after
      → IsTold (newer o' o) before after
  IsTold-append none none before middle after apart h k = k ∙ h
  IsTold-append none (some r) before middle after apart h k = rw h at k
  IsTold-append (some r) none before middle after apart (inl same) k = inl (k ∙ same)
  IsTold-append (some r) none before middle after apart (inr (r', like, w)) k =
      inr (r', like, k ∙ w)
  IsTold-append (some r) (some r') before middle after apart h k = elim apart [
    | inl e ↦ cc (e)
    | inr e ↦ cc (e)
  ]

  -- What a chunk and the others do at a key, put together.
  module _ (k : JobKey) (r : Row F) (rows : List (Row F)) (h : IsKeyed (r ∷ rows)) where
    abbrev first : List (Row F)
    first = take batch_chunk (r ∷ rows)

    abbrev others : List (Row F)
    others = drop batch_chunk (r ∷ rows)

    split : first ++ others ≡ r ∷ rows
    split = take-append-drop batch_chunk (r ∷ rows)

    parts :
        IsKeyed first
        × IsKeyed others
        × ((j : JobKey) → (find j first ≡ none) ⊎ (find j others ≡ none))
    parts = append-IsKeyed first others (subst IsKeyed (sym split) h)

    chunk-Fate :
        (table : List (Snapshot F))
        → let (failed, table') = flush_chunk db now first table in
          Fate db now
            (find k first)
            (find_snapshot k table)
            (newest k failed)
            (find_snapshot k table')
    unfolding flush_chunk
    chunk-Fate table = flush_bulk-Fate db now k first table (db.bulk first) parts.0

    both-IsTold :
        (before middle after : Option (Snapshot F))
        → IsTold (find k first) before middle
        → IsTold (find k others) middle after
        → IsTold (find k (r ∷ rows)) before after
    both-IsTold before middle after t t' =
        subst (λ (rs : List (Row F)). IsTold (find k rs) before after) split
          (rw (find-append k first others)
            (IsTold-append (find k first) (find k others) before middle after (parts.2 k) t t'))

    both_fates :
        (failed more : List (Row F)) (before middle after : Option (Snapshot F))
        → Fate db now (find k first) before (newest k failed) middle
        → Fate db now (find k others) middle (newest k more) after
        → Fate db now (find k (r ∷ rows)) before (newest k (failed ++ more)) after
    both_fates failed more before middle after f f' =
        subst
          (λ (rs : List (Row F)). Fate db now (find k rs) before (newest k (failed ++ more)) after)
          split (both-Fate db now k first others failed more before middle after (parts.2 k) f f')

  -- At every key the table is as before or holds the row that waited, however the loop ends.
  pub flush_chunks-IsTold :
      (k : JobKey) (fuel : ℕ) (rows : List (Row F)) (table : List (Snapshot F))
      → length rows ≤ fuel
      → IsKeyed rows
      → IsTold
          (find k rows)
          (find_snapshot k table)
          (find_snapshot k (flush_chunks db now fuel rows table).table)
  unfolding flush_chunks
  flush_chunks-IsTold k zero [] table le h = same-IsTold (find k []) (find_snapshot k table)
  flush_chunks-IsTold k (suc fuel) [] table le h = same-IsTold (find k []) (find_snapshot k table)
  flush_chunks-IsTold k zero (r ∷ rows) table le h = absurd (omega arith)
  flush_chunks-IsTold k (suc fuel) (r ∷ rows) table le h =
      let (failed, table') = flush_chunk db now (first k r rows h) table in
      elim (Bool-cases (db.connects (first k r rows h))) [
        | inr refused ↦ rw refused (same-IsTold (find k (r ∷ rows)) (find_snapshot k table))
        | inl connected ↦ elim (Bool-cases (db.releases (first k r rows h))) [
          | inr lost ↦
              rw (connected, lost)
                (both-IsTold k r rows h (find_snapshot k table) (find_snapshot k table')
                  (find_snapshot k table')
                  (Fate-IsTold (find k (first k r rows h)) (find_snapshot k table)
                    (find_snapshot k table') (newest k failed) (chunk-Fate k r rows h table))
                  (same-IsTold (find k (others k r rows h)) (find_snapshot k table')))
          | inl released ↦
              rw (connected, released)
                (both-IsTold k r rows h (find_snapshot k table) (find_snapshot k table') _
                  (Fate-IsTold (find k (first k r rows h)) (find_snapshot k table)
                    (find_snapshot k table') (newest k failed) (chunk-Fate k r rows h table))
                  (flush_chunks-IsTold k fuel (others k r rows h) table'
                    (omega (arith, length-drop 499 rows)) (parts k r rows h).1))
        ]
      ]

  -- As many rounds as there are rows are enough; where nothing has been raised, every row is
  -- written or comes back.
  pub flush_chunks-Fate :
      (k : JobKey) (fuel : ℕ) (rows : List (Row F)) (table : List (Snapshot F))
      → length rows ≤ fuel
      → IsKeyed rows
      → (flush_chunks db now fuel rows table).raised ≡ false
      → let r = flush_chunks db now fuel rows table in
        Fate db now
          (find k rows)
          (find_snapshot k table)
          (newest k r.failed)
          (find_snapshot k r.table)
  unfolding flush_chunks
  flush_chunks-Fate k zero [] table le h done =
      rw (no_back db now k) (no_row-Fate db now k (find_snapshot k table))
  flush_chunks-Fate k (suc fuel) [] table le h done =
      rw (no_back db now k) (no_row-Fate db now k (find_snapshot k table))
  flush_chunks-Fate k zero (r ∷ rows) table le h done = absurd (omega arith)
  flush_chunks-Fate k (suc fuel) (r ∷ rows) table le h done =
      let (failed, table') = flush_chunk db now (first k r rows h) table in
      elim (Bool-cases (db.connects (first k r rows h))) [
        | inr refused ↦ cc (rw refused at done)
        | inl connected ↦ elim (Bool-cases (db.releases (first k r rows h))) [
          | inr lost ↦ cc (rw (connected, lost) at done)
          | inl released ↦
              rw (connected, released)
                (both_fates k r rows h failed
                  (flush_chunks db now fuel (others k r rows h) table').failed
                  (find_snapshot k table) (find_snapshot k table') _ (chunk-Fate k r rows h table)
                  (flush_chunks-Fate k fuel (others k r rows h) table'
                    (omega (arith, length-drop 499 rows)) (parts k r rows h).1
                    (rw (connected, released) at done)))
        ]
      ]

  pub flush_chunks-connected :
      (fuel : ℕ) (rows : List (Row F)) (table : List (Snapshot F))
      → ((chunk : List (Row F)) → (db.connects chunk ≡ true) × (db.releases chunk ≡ true))
      → (flush_chunks db now fuel rows table).raised ≡ false
  unfolding flush_chunks
  flush_chunks-connected zero [] table h = refl
  flush_chunks-connected (suc fuel) [] table h = refl
  flush_chunks-connected zero (r ∷ rows) table h = refl
  flush_chunks-connected (suc fuel) (r ∷ rows) table h =
      rw ((h (take batch_chunk (r ∷ rows))).0, (h (take batch_chunk (r ∷ rows))).1)
        (flush_chunks-connected fuel (drop batch_chunk (r ∷ rows))
          (flush_chunk db now (take batch_chunk (r ∷ rows)) table).1 h)
