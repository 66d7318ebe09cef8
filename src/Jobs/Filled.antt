-- ===== src/Jobs/Filled.antt =====
-- What the backfill of slurmweb/persistence/jobs_store.py counts, logs and writes.
use slurm_web_plus.Prelude.{
  ℕ, suc, ◌+◌, Bool, true, false, Option, some, List, [], ◌∷◌, length, All, ◌≡◌, refl, ◌∙◌, sym, ap,
  subst, inl, inr, arith,
}
use slurm_web_plus.Prelude.Maybe.{>>=-eq-some, some-inj}
use slurm_web_plus.Jobs.{Row, row_key}
use slurm_web_plus.Jobs.Fields.{Python}
use slurm_web_plus.Jobs.Upsert.{Snapshot}
use slurm_web_plus.Jobs.Reconcile.{Lookup}
use slurm_web_plus.Jobs.Settled.{In}
use slurm_web_plus.Jobs.Backfill.{
  Decision, decide, Tally, tally, backfill_loop, backfill_usage_fields, nothing_done,
}
use slurm_web_plus.Jobs.Candidates.{Scope, usage_backfill_candidates}
use slurm_web_plus.Jobs.Report.{
  IsCounted, AllSourced, IsLog, Updates, backfill_loop-IsLog, backfill_loop-AllSourced,
}
use slurm_web_plus.Jobs.Gaps.{
  AllFills, AllFills-self, AllFills-trans, tally-AllFills, IsStored, AllFills-AllSet,
  same_candidate,
}

module _ {F : Type 0} where
  -- A tally that has gone on from another over so many candidates.
  abbrev Follows : Bool → ℕ → Tally F → Tally F → Type 0
  Follows dry_run n t t' =
      (t'.scanned ≡ t.scanned + n)
      × (t'.updated + t'.skipped ≡ t.updated + t.skipped + n)
      × AllFills t.rows t'.rows
      × (dry_run ≡ true → t'.rows ≡ t.rows)

  tally-Follows :
      (dry_run : Bool) (stored : Row F) (d : Decision F) (t : Tally F)
      → Follows dry_run 1 t (tally dry_run stored d t)
  unfolding tally
  tally-Follows dry_run stored d t =
      (refl, ground arith, tally-AllFills dry_run stored d t, λ e. ground (arith, e))

  Follows-trans :
      (dry_run : Bool) (n : ℕ) (t t' t'' : Tally F)
      → Follows dry_run 1 t t'
      → Follows dry_run n t' t''
      → Follows dry_run (suc n) t t''
  Follows-trans dry_run n t t' t'' (s, c, f, d) (s', c', f', d') = (
    omega (arith, s, s'),
    omega (arith, c, c'),
    AllFills-trans t.rows t'.rows t''.rows f f',
    λ e. d' e ∙ d e,
  )

  module _ (py : Python F) (round_metric : F → F) where
    backfill_loop-Follows :
        (job : Option ℕ → Lookup) (dry_run : Bool) (candidates : List (Snapshot F)) (t t' : Tally F)
        → backfill_loop py round_metric job dry_run candidates t ≡ some t'
        → Follows dry_run (length candidates) t t'
    unfolding backfill_loop
    backfill_loop-Follows job dry_run [] t t' h =
        subst (Follows dry_run 0 t) (some-inj t t' h)
          (omega arith, omega arith, AllFills-self t.rows, λ e. refl)
    backfill_loop-Follows job dry_run (s ∷ candidates) t t' h =
        let (d, _, e) = >>=-eq-some (decide py round_metric (job s.row.job_id) s.row) _ h in
        Follows-trans dry_run (length candidates) t (tally dry_run s.row d t) t'
          (tally-Follows dry_run s.row d t)
          (backfill_loop-Follows job dry_run candidates (tally dry_run s.row d t) t' e)

    backfill_loop-AllSet :
        (job : Option ℕ → Lookup) (dry_run : Bool) (s : Snapshot F) (d : Decision F)
        → dry_run ≡ false
        → decide py round_metric (job s.row.job_id) s.row ≡ some d
        → d.can_update ≡ true
        → (candidates : List (Snapshot F)) (t t' : Tally F) → In s candidates
        → backfill_loop py round_metric job dry_run candidates t ≡ some t'
        → All (IsStored (row_key s.row) d) t'.rows
    unfolding backfill_loop
    backfill_loop-AllSet job dry_run s d real e u [] t t' i h = elim i [ ]
    backfill_loop-AllSet job dry_run s d real e u (c ∷ candidates) t t' (inr i) h =
        let (d', _, h') = >>=-eq-some (decide py round_metric (job c.row.job_id) c.row) _ h in
        backfill_loop-AllSet job dry_run s d real e u candidates (tally dry_run c.row d' t) t' i h'
    backfill_loop-AllSet job dry_run s d real e u (c ∷ candidates) t t' (inl same) h =
        let (d', e', h') = >>=-eq-some (decide py round_metric (job c.row.job_id) c.row) _ h in
        let (_, _, f, _) =
          backfill_loop-Follows job dry_run candidates (tally dry_run c.row d' t) t' h' in
        AllFills-AllSet (row_key s.row) d (tally dry_run c.row d' t).rows t'.rows f (
          same_candidate s c d d' dry_run t real u same (
            some-inj d d' (
              sym e
              ∙ ap (λ (x : Snapshot F). decide py round_metric (job x.row.job_id) x.row) same
              ∙ e')))

    -- When a backfill ends without an exception, each row of the query has been scanned, and the log
    -- has one entry for each, in order, with the row's key, its values, the decision on it, and the
    -- values that it has or would have. The updated rows are counted, and the others are the skipped
    -- ones. Row by row, the table differs from the one before at most in the two usage fields, and
    -- there only where the field was empty and by the value of a decision to update a row of the same
    -- key. A dry run leaves the table as it was; after any other run, no row with the key of a row
    -- that was to be updated lacks a value that the answer about its job has.
    pub backfill_usage_fields-AllFills :
        (job : Option ℕ → Lookup) (scope : Scope) (dry_run : Bool) (table : List (Snapshot F))
        (t : Tally F)
        → backfill_usage_fields py round_metric (some job) scope dry_run table ≡ some t
        → let candidates = usage_backfill_candidates py scope table in
          (t.scanned ≡ length candidates)
          × (t.updated + t.skipped ≡ t.scanned)
          × IsLog py round_metric job candidates t.log
          × IsCounted t
          × AllFills table t.rows
          × AllSourced (Updates py round_metric job candidates) table t.rows
          × (dry_run ≡ true → t.rows ≡ table)
          × ((s : Snapshot F) (d : Decision F)
              → dry_run ≡ false
              → In s candidates
              → decide py round_metric (job s.row.job_id) s.row ≡ some d
              → d.can_update ≡ true
              → All (IsStored (row_key s.row) d) t.rows)
    unfolding backfill_usage_fields
    backfill_usage_fields-AllFills job scope dry_run table t h =
        let candidates : List (Snapshot F) = usage_backfill_candidates py scope table in
        let before : Tally F = nothing_done table in
        let (s, c, f, d) = backfill_loop-Follows job dry_run candidates before t h in
        let (counted, (_, same, entries)) =
          backfill_loop-IsLog py round_metric job dry_run candidates before t h (refl, refl) in
        (
          omega (arith, s),
          omega (arith, s, c),
          subst (IsLog py round_metric job candidates) (sym same) entries,
          counted,
          f,
          (backfill_loop-AllSourced py round_metric job dry_run candidates candidates before t
              (λ x i. i) h).1,
          d,
          λ s' d' real i e u.
              backfill_loop-AllSet job dry_run s' d' real e u candidates before t i h,
        )
