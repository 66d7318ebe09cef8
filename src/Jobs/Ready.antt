-- ===== src/Jobs/Ready.antt =====
-- What waits to be written in slurmweb/persistence/jobs_store.py always has a key of its own.
use slurm_web_plus.Prelude.{
  ℕ, true, Option, none, some, List, [], ◌∷◌, All, All-append, ◌≡◌, refl, subst, inl, inr,
  Bool-cases, Option-cases,
}
use slurm_web_plus.Prelude.Maybe.{◌>>=◌, >>=-eq-some, some-inj}
use slurm_web_plus.Prelude.Dict.{Dict}
use slurm_web_plus.Json.Value.{Json}
use slurm_web_plus.Jobs.{Row, row_key}
use slurm_web_plus.Jobs.Fields.{Python}
use slurm_web_plus.Jobs.Extract.{extract, has_full_key, prepare_rows}
use slurm_web_plus.Jobs.Detail.{extract_detail}
use slurm_web_plus.Jobs.Queue.{has_key, put, queue_rows, IsKeyed, queue_rows-IsKeyed}
use slurm_web_plus.Jobs.Upsert.{Snapshot}
use slurm_web_plus.Jobs.Flush.{Writer}
use slurm_web_plus.Jobs.Reconcile.{
  Lookup, found, not_found, unavailable, Refreshed, is_active, is_listed, is_other_job,
  accept_detail, refresh_missing_active_job, complete_missing_job, settled, reconciled,
  active_records, Surroundings, reconcile, queue_if, snapshot_rows, scheduled_snapshot,
}

module _ {F : Type 0} where
  -- Every row has a job id that is not 0 and a submit time.
  abbrev pub AllFull : List (Row F) → Type 0
  AllFull = All (λ row. has_full_key row ≡ true)

  -- The stored rows have a full key, as the columns of the primary key require.
  abbrev pub TableFull : List (Snapshot F) → Type 0
  TableFull = All (λ s. has_full_key s.row ≡ true)

  -- Each pending row has a full key, and no key waits twice.
  abbrev pub IsReady : List (Row F) → Type 0
  IsReady pending = IsKeyed pending × AllFull pending

  put-AllFull :
      (row : Row F) (rows : List (Row F))
      → has_full_key row ≡ true
      → AllFull rows
      → AllFull (put row rows)
  unfolding put
  put-AllFull row [] h k = (h, tt)
  put-AllFull row (old ∷ rows) h k = elim (Bool-cases (has_key (row_key row) old)) [
    | inl e ↦ rw e (h, k.1)
    | inr e ↦ rw e (k.0, put-AllFull row rows h k.1)
  ]

  queue_rows-AllFull :
      (rows pending : List (Row F))
      → AllFull rows
      → AllFull pending
      → AllFull (queue_rows rows pending)
  unfolding queue_rows
  queue_rows-AllFull [] pending h k = k
  queue_rows-AllFull (row ∷ rows) pending h k =
      queue_rows-AllFull rows (put row pending) h.1 (put-AllFull row pending h.0 k)

  module _ (py : Python F) where
    prepare_rows-AllFull :
        (jobs : List (Dict Json)) (rows : List (Row F))
        → prepare_rows py jobs ≡ some rows
        → AllFull rows
    unfolding prepare_rows
    prepare_rows-AllFull [] rows h = subst AllFull (some-inj _ rows h) tt
    prepare_rows-AllFull (job ∷ jobs) rows h =
        let (row, _, h₁) = >>=-eq-some (extract py job) _ h in
        let (rest, e, h₂) = >>=-eq-some (prepare_rows py jobs) _ h₁ in
        let full : AllFull rest = prepare_rows-AllFull jobs rest e in
        elim (Bool-cases (has_full_key row)) [
          | inl k ↦ subst AllFull (some-inj _ _ (rw k at h₂)) (k, full)
          | inr k ↦ subst AllFull (some-inj _ _ (rw k at h₂)) full
        ]

    accept_detail-AllFull :
        (observed_at : ℕ) (stored row : Row F)
        → has_full_key stored ≡ true
        → AllFull (settled observed_at stored (accept_detail stored row))
    unfolding complete_missing_job
    accept_detail-AllFull observed_at stored row k = elim (Bool-cases (has_full_key row)) [
      | inl full ↦ elim (Bool-cases (is_other_job row stored)) [
        | inl other ↦ rw (full, other) (k, tt)
        | inr same ↦ rw (full, same) (full, tt)
      ]
      | inr not_full ↦ rw not_full tt
    ]

    settled-AllFull :
        (observed_at : ℕ) (stored : Row F) (lookup : Lookup) (outcome : Refreshed F)
        → has_full_key stored ≡ true
        → refresh_missing_active_job py lookup stored ≡ some outcome
        → AllFull (settled observed_at stored outcome)
    unfolding refresh_missing_active_job complete_missing_job
    settled-AllFull observed_at stored not_found outcome k h =
        subst (λ (o : Refreshed F). AllFull (settled observed_at stored o)) (some-inj _ _ h) (k, tt)
    settled-AllFull observed_at stored unavailable outcome k h =
        subst (λ (o : Refreshed F). AllFull (settled observed_at stored o)) (some-inj _ _ h) tt
    settled-AllFull observed_at stored (found job) outcome k h =
        let (row, _, h') = >>=-eq-some (extract_detail py job stored) _ h in
        subst (λ (o : Refreshed F). AllFull (settled observed_at stored o)) (some-inj _ _ h')
          (accept_detail-AllFull observed_at stored row k)

    reconciled-AllFull :
        (job : Option ℕ → Lookup) (observed_at : ℕ) (current : List (Row F))
        (records : List (Snapshot F)) (rows : List (Row F))
        → TableFull records
        → reconciled py job observed_at current records ≡ some rows
        → AllFull rows
    unfolding reconciled
    reconciled-AllFull job observed_at current [] rows t h = subst AllFull (some-inj _ _ h) tt
    reconciled-AllFull job observed_at current (s ∷ records) rows t h =
        elim (Bool-cases (is_listed current s.row)) [
          | inl e ↦ reconciled-AllFull job observed_at current records rows t.1 (rw e at h)
          | inr e ↦
              let (outcome, f, h₁) =
                >>=-eq-some (refresh_missing_active_job py (job s.row.job_id) s.row) _
                  (rw e at h) in
              let (rest, g, h₂) =
                >>=-eq-some (reconciled py job observed_at current records) _ h₁ in
              subst AllFull (some-inj _ _ h₂) (
                All-append _ (settled observed_at s.row outcome) rest
                  (settled-AllFull observed_at s.row (job s.row.job_id) outcome t.0 f)
                  (reconciled-AllFull job observed_at current records rest t.1 g))
        ]

    active-TableFull :
        (table : List (Snapshot F)) → TableFull table → TableFull (active_records table)
    unfolding active_records
    active-TableFull [] h = tt
    active-TableFull (s ∷ table) h = elim (Bool-cases (is_active s)) [
      | inl e ↦ rw e (h.0, active-TableFull table h.1)
      | inr e ↦ rw e (active-TableFull table h.1)
    ]

    queue_if-IsReady :
        (rows : Option (List (Row F))) (pending : List (Row F))
        → ((rs : List (Row F)) → rows ≡ some rs → AllFull rs)
        → IsReady pending
        → IsReady (queue_if py rows pending)
    unfolding queue_if
    queue_if-IsReady none pending f h = h
    queue_if-IsReady (some rows) pending f h =
        (queue_rows-IsKeyed rows pending h.0, queue_rows-AllFull rows pending (f rows refl) h.1)

    reconcile-AllFull :
        (env : Surroundings) (current : List (Row F)) (table : List (Snapshot F))
        (rows : List (Row F))
        → TableFull table
        → reconcile py env current table ≡ some rows
        → AllFull rows
    unfolding reconcile
    reconcile-AllFull env current table rows t h = elim (Bool-cases env.readable) [
      | inl e ↦
          reconciled-AllFull env.job env.observed_at current (active_records table) rows
            (active-TableFull table t) (rw e at h)
      | inr e ↦ cc (e, h)
    ]

    snapshot_rows-IsReady :
        (env : Surroundings) (w : Writer F) (rows : List (Row F))
        → TableFull w.table
        → IsReady w.pending
        → AllFull rows
        → IsReady (snapshot_rows py env (some rows) w).pending
    unfolding snapshot_rows
    snapshot_rows-IsReady env w rows t h full =
        queue_if-IsReady (reconcile py env rows w.table) (queue_rows rows w.pending)
          (λ rs. reconcile-AllFull env rows w.table rs t)
          (queue_rows-IsKeyed rows w.pending h.0, queue_rows-AllFull rows w.pending full h.1)

    listed-AllFull :
        (jobs : Option (List (Dict Json))) (rows : List (Row F))
        → (do js ← jobs; prepare_rows py js) ≡ some rows
        → AllFull rows
    listed-AllFull jobs rows h =
        let (js, _, e) = >>=-eq-some jobs _ h in prepare_rows-AllFull js rows e

    -- After a scheduled snapshot, also one that an exception ends halfway, every pending row has a job
    -- id that is not 0 and a submit time, and no two have the same, if that held before and the stored
    -- rows have full keys.
    pub scheduled_snapshot-IsReady :
        (env : Surroundings) (w : Writer F)
        → TableFull w.table
        → IsReady w.pending
        → IsReady (scheduled_snapshot py env w).pending
    unfolding scheduled_snapshot snapshot_rows
    scheduled_snapshot-IsReady env w t h =
        elim (Option-cases (do jobs ← env.listed_jobs; prepare_rows py jobs)) [
          | inl e ↦ rw e h
          | inr (rows, e) ↦
              rw e (snapshot_rows-IsReady env w rows t h (listed-AllFull env.listed_jobs rows e))
        ]
