-- ===== src/Jobs/Report.antt =====
-- What the backfill of slurmweb/persistence/jobs_store.py reports, and where the values that it writes
-- come from.
use slurm_web_plus.Prelude.{
  ℕ, ◌+◌, Bool, true, false, not, ◌&&◌, Option, none, some, List, [], ◌∷◌, ◌++◌, if◌then◌else◌, ◌≡◌,
  refl, ◌∙◌, sym, ap, subst, inl, inr, ◌⊎◌, arith, Bool-cases,
}
use slurm_web_plus.Prelude.Maybe.{>>=-eq-some, some-inj}
use slurm_web_plus.Jobs.{Row, JobKey, row_key}
use slurm_web_plus.Jobs.Extract.{either}
use slurm_web_plus.Jobs.Fields.{Python}
use slurm_web_plus.Jobs.Queue.{has_key}
use slurm_web_plus.Jobs.Upsert.{Snapshot}
use slurm_web_plus.Jobs.Reconcile.{Lookup}
use slurm_web_plus.Jobs.Settled.{In}
use slurm_web_plus.Jobs.Backfill.{
  Decision, decide, fill, LogEntry, entry_of, Tally, tally, backfill_loop,
}
use slurm_web_plus.Jobs.Gaps.{Fills, AllFills, AllFills-self, AllFills-trans, tally-AllFills}

module _ {F : Type 0} where
  abbrev pub entries_with : Bool → List (LogEntry F) → ℕ
  entries_with updated [] = 0
  entries_with true (e ∷ log) = (if e.updated then 1 else 0) + entries_with true log
  entries_with false (e ∷ log) = (if e.updated then 0 else 1) + entries_with false log

  entries_with-append :
      (b : Bool) (log : List (LogEntry F)) (e : LogEntry F)
      → entries_with b (log ++ e ∷ []) ≡ entries_with b log + entries_with b (e ∷ [])
  entries_with-append true [] e = omega arith
  entries_with-append false [] e = omega arith
  entries_with-append true (x ∷ log) e = omega (arith, entries_with-append true log e)
  entries_with-append false (x ∷ log) e = omega (arith, entries_with-append false log e)

  append_assoc :
      (log later : List (LogEntry F)) (e : LogEntry F) → (log ++ e ∷ []) ++ later ≡ log ++ e ∷ later
  append_assoc [] later e = refl
  append_assoc (x ∷ log) later e = ap (λ l. x ∷ l) (append_assoc log later e)

  append-nil : (log : List (LogEntry F)) → log ≡ log ++ []
  append-nil [] = refl
  append-nil (x ∷ log) = ap (λ l. x ∷ l) (append-nil log)

  -- The counts are those of the log.
  abbrev pub IsCounted : Tally F → Type 0
  IsCounted t = (t.updated ≡ entries_with true t.log) × (t.skipped ≡ entries_with false t.log)

  tally-IsCounted :
      (dry_run : Bool) (stored : Row F) (d : Decision F) (t : Tally F)
      → IsCounted t
      → IsCounted (tally dry_run stored d t)
  unfolding tally
  tally-IsCounted dry_run stored d t (u, s) =
      let e = entry_of stored d in
      let more = entries_with-append true t.log e in
      let less = entries_with-append false t.log e in
      elim (Bool-cases d.can_update) [
        | inl c ↦ rw c (omega (arith, u, rw c at more), omega (arith, s, rw c at less))
        | inr c ↦ rw c (omega (arith, u, rw c at more), omega (arith, s, rw c at less))
      ]

  -- A value of a row: as before, or that of a decision on a row with the same key.
  abbrev pub Sourced :
      (JobKey → Decision F → Type 0)
      → (Decision F → Option F)
      → Snapshot F
      → Option F
      → Option F
      → Type 0
  Sourced W value s old new =
      (new ≡ old)
      ⊎ ((k : JobKey) × (d : Decision F) × W k d × (has_key k s.row ≡ true) × (new ≡ value d))

  abbrev pub BothSourced : (JobKey → Decision F → Type 0) → Snapshot F → Snapshot F → Type 0
  BothSourced W s s' =
      Sourced W (λ d. d.new_memory) s s.row.used_memory_gb s'.row.used_memory_gb
      × Sourced W (λ d. d.new_cpu) s s.row.used_cpu_cores_avg s'.row.used_cpu_cores_avg

  abbrev pub AllSourced :
      (JobKey → Decision F → Type 0) → List (Snapshot F) → List (Snapshot F) → Type 0
  AllSourced W [] [] = Unit
  AllSourced W [] (t ∷ ts) = ⊥
  AllSourced W (s ∷ ss) [] = ⊥
  AllSourced W (s ∷ ss) (t ∷ ts) = BothSourced W s t × AllSourced W ss ts

  module _ (W : JobKey → Decision F → Type 0) where
    Sourced-trans :
        (value : Decision F → Option F) (s t : Snapshot F) (a b c : Option F)
        → Fills s t
        → Sourced W value s a b
        → Sourced W value t b c
        → Sourced W value s a c
    Sourced-trans value s t a b c f (inl e) (inl e') = inl (e' ∙ e)
    Sourced-trans value s t a b c f (inr (k, d, w, h, e)) (inl e') = inr (k, d, w, h, e' ∙ e)
    Sourced-trans value s t a b c f p (inr (k, d, w, h, e)) =
        inr (k, d, w, ap (λ (u : Snapshot F). has_key k u.row) (sym f.0) ∙ h, e)

    AllSourced-self : (table : List (Snapshot F)) → AllSourced W table table
    AllSourced-self [] = tt
    AllSourced-self (s ∷ table) = ((inl refl, inl refl), AllSourced-self table)

    AllSourced-trans :
        (ss ts us : List (Snapshot F))
        → AllFills ss ts
        → AllSourced W ss ts
        → AllSourced W ts us
        → AllSourced W ss us
    AllSourced-trans [] [] us f h k = k
    AllSourced-trans [] (t ∷ ts) us f h k = elim h [ ]
    AllSourced-trans (s ∷ ss) [] us f h k = elim h [ ]
    AllSourced-trans (s ∷ ss) (t ∷ ts) [] f h k = elim k [ ]
    AllSourced-trans (s ∷ ss) (t ∷ ts) (u ∷ us) f h k = (
      (
        Sourced-trans (λ d. d.new_memory) s t s.row.used_memory_gb t.row.used_memory_gb
            u.row.used_memory_gb f.0 h.0.0 k.0.0,
        Sourced-trans (λ d. d.new_cpu) s t s.row.used_cpu_cores_avg t.row.used_cpu_cores_avg
            u.row.used_cpu_cores_avg f.0 h.0.1 k.0.1,
      ),
      AllSourced-trans ss ts us f.1 h.1 k.1,
    )

    Sourced-either :
        (value : Decision F → Option F) (k : JobKey) (d : Decision F) (s : Snapshot F)
        (old : Option F)
        → W k d
        → has_key k s.row ≡ true
        → Sourced W value s old (either old (value d))
    Sourced-either value k d s none w h = inr (k, d, w, h, refl)
    Sourced-either value k d s (some x) w h = inl refl

    fill-AllSourced :
        (k : JobKey) (d : Decision F) (table : List (Snapshot F))
        → W k d
        → AllSourced W table (fill k d table)
    unfolding fill
    fill-AllSourced k d [] w = tt
    fill-AllSourced k d (s ∷ table) w = elim (Bool-cases (has_key k s.row)) [
      | inl e ↦ rw e (
        (
          Sourced-either (λ d. d.new_memory) k d s s.row.used_memory_gb w e,
          Sourced-either (λ d. d.new_cpu) k d s s.row.used_cpu_cores_avg w e,
        ),
        fill-AllSourced k d table w,
      )
      | inr e ↦ rw e ((inl refl, inl refl), fill-AllSourced k d table w)
    ]

    tally-AllSourced :
        (dry_run : Bool) (stored : Row F) (d : Decision F) (t : Tally F)
        → (d.can_update ≡ true → W (row_key stored) d)
        → AllSourced W t.rows (tally dry_run stored d t).rows
    unfolding tally
    tally-AllSourced dry_run stored d t w = elim (Bool-cases (d.can_update && not dry_run)) [
      | inl e ↦ rw e (fill-AllSourced (row_key stored) d t.rows (w (ground (arith, e))))
      | inr e ↦ rw e (AllSourced-self t.rows)
    ]

  module _ (py : Python F) (round_metric : F → F) (job : Option ℕ → Lookup) where
    -- The entry of a candidate: its key, its values and the decision on it.
    abbrev pub IsEntry : Snapshot F → LogEntry F → Type 0
    IsEntry c e =
        (d : Decision F) × (decide py round_metric (job c.row.job_id) c.row ≡ some d)
        × (e.key ≡ row_key c.row)
        × (e.updated ≡ d.can_update)
        × (e.reason ≡ d.reason)
        × (e.old_memory ≡ c.row.used_memory_gb)
        × (e.old_cpu ≡ c.row.used_cpu_cores_avg)
        × (e.new_memory
            ≡ (if d.can_update then either c.row.used_memory_gb d.new_memory else d.new_memory))
        × (e.new_cpu
            ≡ (if d.can_update then either c.row.used_cpu_cores_avg d.new_cpu else d.new_cpu))

    -- One entry for each candidate, in their order.
    abbrev pub IsLog : List (Snapshot F) → List (LogEntry F) → Type 0
    IsLog [] [] = Unit
    IsLog [] (e ∷ log) = ⊥
    IsLog (c ∷ candidates) [] = ⊥
    IsLog (c ∷ candidates) (e ∷ log) = IsEntry c e × IsLog candidates log

    -- A candidate has this key, and the decision on it is to update.
    abbrev pub Updates : List (Snapshot F) → JobKey → Decision F → Type 0
    Updates candidates k d =
        (c : Snapshot F) × In c candidates
        × (row_key c.row ≡ k)
        × (decide py round_metric (job c.row.job_id) c.row ≡ some d)
        × (d.can_update ≡ true)

    pub backfill_loop-IsLog :
        (dry_run : Bool) (candidates : List (Snapshot F)) (t t' : Tally F)
        → backfill_loop py round_metric job dry_run candidates t ≡ some t'
        → IsCounted t
        → IsCounted t'
          × ((log : List (LogEntry F)) × (t'.log ≡ t.log ++ log) × IsLog candidates log)
    unfolding backfill_loop tally
    backfill_loop-IsLog dry_run [] t t' h n =
        let same = some-inj t t' h in
        (
          subst IsCounted same n,
          ([], ap (λ (u : Tally F). u.log) (sym same) ∙ append-nil t.log, tt),
        )
    backfill_loop-IsLog dry_run (c ∷ candidates) t t' h n =
        let (d, e, h') = >>=-eq-some (decide py round_metric (job c.row.job_id) c.row) _ h in
        let (counted, (log, same, entries)) =
          backfill_loop-IsLog dry_run candidates (tally dry_run c.row d t) t' h'
            (tally-IsCounted dry_run c.row d t n) in
        (
          counted,
          (
            entry_of c.row d ∷ log,
            same ∙ append_assoc t.log log (entry_of c.row d),
            ((d, e, refl, refl, refl, refl, refl, refl, refl), entries),
          ),
        )

    pub backfill_loop-AllSourced :
        (dry_run : Bool) (all candidates : List (Snapshot F)) (t t' : Tally F)
        → ((c : Snapshot F) → In c candidates → In c all)
        → backfill_loop py round_metric job dry_run candidates t ≡ some t'
        → AllFills t.rows t'.rows × AllSourced (Updates all) t.rows t'.rows
    unfolding backfill_loop
    backfill_loop-AllSourced dry_run all [] t t' i h =
        subst (λ (u : Tally F). AllFills t.rows u.rows × AllSourced (Updates all) t.rows u.rows)
          (some-inj t t' h) (AllFills-self t.rows, AllSourced-self (Updates all) t.rows)
    backfill_loop-AllSourced dry_run all (c ∷ candidates) t t' i h =
        let (d, e, h') = >>=-eq-some (decide py round_metric (job c.row.job_id) c.row) _ h in
        let u : Tally F = tally dry_run c.row d t in
        let (fills, sourced) =
          backfill_loop-AllSourced dry_run all candidates u t' (λ x j. i x (inr j)) h' in
        let first = tally-AllFills dry_run c.row d t in
        (
          AllFills-trans t.rows u.rows t'.rows first fills,
          AllSourced-trans (Updates all) t.rows u.rows t'.rows first
              (tally-AllSourced (Updates all) dry_run c.row d t
                (λ can. (c, i c (inl refl), refl, e, can)))
              sourced,
        )
