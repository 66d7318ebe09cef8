-- ===== src/Jobs/Settled.antt =====
-- A job that has left the scheduler does not stay active in the history of
-- slurmweb/persistence/jobs_store.py.
use slurm_web_plus.Prelude.{
  ℕ, false, Option, none, some, List, [], ◌∷◌, ◌++◌, any, ◌≡◌, ◌≢◌, ◌⊎◌, refl, sym, ap, subst, inl,
  inr, Bool-cases,
}
use slurm_web_plus.Prelude.Maybe.{>>=-eq-some, some-inj}
use slurm_web_plus.Jobs.{Row, row_key}
use slurm_web_plus.Jobs.Fields.{Python}
use slurm_web_plus.Jobs.Extract.{either}
use slurm_web_plus.Jobs.Flush.{Database, stored_row}
use slurm_web_plus.Jobs.Upsert.{Snapshot, write_row}
use slurm_web_plus.Jobs.Reconcile.{
  Lookup, not_found, gone, is_active, is_listed, complete_missing_job, settled, reconciled,
  refresh_missing_active_job, contains,
}

-- The list has the item.
abbrev pub In : {A : Type 0} → A → List A → Type 0
In x [] = ⊥
In x (y ∷ ys) = (x ≡ y) ⊎ In x ys

In-append_left : {A : Type 0} (x : A) (xs ys : List A) → In x xs → In x (xs ++ ys)
In-append_left x [] ys h = elim h [ ]
In-append_left x (y ∷ xs) ys (inl e) = inl e
In-append_left x (y ∷ xs) ys (inr h) = inr (In-append_left x xs ys h)

In-append_right : {A : Type 0} (x : A) (xs ys : List A) → In x ys → In x (xs ++ ys)
In-append_right x [] ys h = h
In-append_right x (y ∷ xs) ys h = inr (In-append_right x xs ys h)

ended : (end_time : Option ℕ) (observed_at : ℕ) → either end_time (some observed_at) ≢ none
ended none observed_at h = cc (h)
ended (some n) observed_at h = cc (h)

module _ {F : Type 0} (py : Python F) (job : Option ℕ → Lookup) (observed_at : ℕ)
    (current : List (Row F)) where
  -- The rows of the other records stay.
  rest_rows :
      (s : Snapshot F) (records : List (Snapshot F)) (rows : List (Row F))
      → reconciled py job observed_at current (s ∷ records) ≡ some rows
      → (rest : List (Row F)) × (reconciled py job observed_at current records ≡ some rest)
        × ((row : Row F) → In row rest → In row rows)
  unfolding reconciled
  rest_rows s records rows h = elim (Bool-cases (is_listed current s.row)) [
    | inl e ↦ (rows, rw e at h, λ row i. i)
    | inr e ↦
        let (outcome, _, h₁) =
          >>=-eq-some (refresh_missing_active_job py (job s.row.job_id) s.row) _ (rw e at h) in
        let (rest, f, h₂) = >>=-eq-some (reconciled py job observed_at current records) _ h₁ in
        (
          rest,
          f,
          λ row i.
              subst (In row) (some-inj _ rows h₂)
                (In-append_right row (settled observed_at s.row outcome) rest i),
        )
  ]

  completed_row :
      (s : Snapshot F) (records : List (Snapshot F)) (rows : List (Row F))
      → is_listed current s.row ≡ false
      → job s.row.job_id ≡ not_found
      → reconciled py job observed_at current (s ∷ records) ≡ some rows
      → In (complete_missing_job s.row observed_at) rows
  unfolding reconciled
  completed_row s records rows unlisted missing h =
      let (outcome, e, h₁) =
        >>=-eq-some (refresh_missing_active_job py (job s.row.job_id) s.row) _ (rw unlisted at h) in
      let (rest, _, h₂) = >>=-eq-some (reconciled py job observed_at current records) _ h₁ in
      let is_gone : outcome ≡ gone =
        cc (e, ap (λ (l : Lookup). refresh_missing_active_job py l s.row) missing) in
      subst (In (complete_missing_job s.row observed_at)) (some-inj _ rows h₂)
        (rw is_gone (inl refl))

  queued_row :
      (s : Snapshot F) (records : List (Snapshot F)) (rows : List (Row F))
      → In s records
      → is_listed current s.row ≡ false
      → job s.row.job_id ≡ not_found
      → reconciled py job observed_at current records ≡ some rows
      → In (complete_missing_job s.row observed_at) rows
  queued_row s [] rows i unlisted missing h = elim i [ ]
  queued_row s (t ∷ records) rows (inl e) unlisted missing h =
      completed_row s records rows unlisted missing (
        subst (λ (u : Snapshot F). reconciled py job observed_at current (u ∷ records) ≡ some rows)
          (sym e) h)
  queued_row s (t ∷ records) rows (inr i) unlisted missing h =
      let (rest, e, keeps) = rest_rows t records rows h in
      keeps (complete_missing_job s.row observed_at)
        (queued_row s records rest i unlisted missing e)

  written-inactive :
      (db : Database F) (now : ℕ) (user_id : Option ℕ) (s : Snapshot F)
      → let row = complete_missing_job s.row observed_at in
        is_active (write_row now (some s) (stored_row db (record row { user_id = user_id })))
        ≡ false
  unfolding write_row stored_row complete_missing_job contains any
  written-inactive db now user_id s = refl

  -- A stored job that is not listed any more and that slurmrestd does not find is queued, whenever the
  -- reconciliation gets through, as its stored row with the state COMPLETED and an end time. Its key
  -- is that of the stored row, so the next write goes there, and then it is active
  -- no more, whatever id of a user the write sets.
  pub gone_job_settles :
      (s : Snapshot F) (records : List (Snapshot F)) (rows : List (Row F))
      → In s records
      → is_listed current s.row ≡ false
      → job s.row.job_id ≡ not_found
      → reconciled py job observed_at current records ≡ some rows
      → let row = complete_missing_job s.row observed_at in
        In row rows
        × (row.job_state ≡ some "COMPLETED")
        × (row.end_time ≢ none)
        × (row_key row ≡ row_key s.row)
        × ((db : Database F) (now : ℕ) (user_id : Option ℕ)
            → is_active (write_row now (some s) (stored_row db (record row { user_id = user_id })))
              ≡ false)
  unfolding complete_missing_job
  gone_job_settles s records rows i unlisted missing h = (
    queued_row s records rows i unlisted missing h,
    refl,
    ended s.row.end_time observed_at,
    refl,
    λ db now user_id. written-inactive db now user_id s,
  )
