-- ===== src/Jobs/Queue.antt =====
-- `_pending` of slurmweb/persistence/jobs_store.py: the newest row of each key that waits to be
-- written. Each row stands under its own key.
use slurm_web_plus.Prelude.{
  Bool, true, false, Option, none, some, List, [], ◌∷◌, ◌++◌, if◌then◌else◌, ◌≡◌, ◌⊎◌, refl, ◌∙◌,
  sym, ap, inl, inr, arith, Bool-cases,
}
use slurm_web_plus.Jobs.{Row, JobKey, row_key, same_key, same_key-eq, same_key_comm}

-- The second value, or the first where there is none.
abbrev pub newer {ℓ} : {A : Type ℓ} → Option A → Option A → Option A
newer old none = old
newer old (some new) = some new

pub newer-none_left {ℓ} : {A : Type ℓ} (o : Option A) → newer none o ≡ o
newer-none_left none = refl
newer-none_left (some a) = refl

pub newer_assoc {ℓ} : {A : Type ℓ} (a b c : Option A) → newer (newer a b) c ≡ newer a (newer b c)
newer_assoc a b none = refl
newer_assoc a b (some c) = refl

pub newer-none {ℓ} :
    {A : Type ℓ} (old new : Option A) → newer old new ≡ none → (old ≡ none) × (new ≡ none)
newer-none old none h = (h, refl)
newer-none old (some new) h = cc (h)

module _ {F : Type 0} where
  abbrev pub has_key : JobKey → Row F → Bool
  has_key k row = same_key (row_key row) k

  -- `self._pending.get(key)`.
  unfoldable pub find : JobKey → List (Row F) → Option (Row F)
  find k [] = none
  find k (row ∷ rows) = let rest = find k rows in if has_key k row then some row else rest

  -- `self._pending[_row_key(row)] = row`.
  unfoldable pub put : Row F → List (Row F) → List (Row F)
  put row [] = row ∷ []
  put row (old ∷ rows) =
      let rest = put row rows in if has_key (row_key row) old then row ∷ rows else old ∷ rest

  -- `_queue_rows`, and `requeued.update(self._pending)`.
  unfoldable pub queue_rows : List (Row F) → List (Row F) → List (Row F)
  unfolding put
  queue_rows [] pending = pending
  queue_rows (row ∷ rows) pending = queue_rows rows (put row pending)

  -- The last of the rows that has the key.
  unfoldable pub newest : JobKey → List (Row F) → Option (Row F)
  newest k [] = none
  newest k (row ∷ rows) = newer (if has_key k row then some row else none) (newest k rows)

  pub has_key-same :
      (k : JobKey) (old new : Row F)
      → has_key (row_key new) old ≡ true
      → has_key k old ≡ has_key k new
  has_key-same k old new e =
      ap (λ (j : JobKey). same_key j k) (same_key-eq (row_key old) (row_key new) e)

  pub has_key-other :
      (k : JobKey) (old new : Row F)
      → has_key (row_key new) old ≡ false
      → has_key k old ≡ true
      → has_key k new ≡ false
  has_key-other k old new other mine =
      same_key_comm (row_key new) k
      ∙ ap (λ (j : JobKey). same_key j (row_key new)) (sym (same_key-eq (row_key old) k mine))
      ∙ other

  pub find-put :
      (k : JobKey) (row : Row F) (rows : List (Row F))
      → find k (put row rows) ≡ (if has_key k row then some row else find k rows)
  unfolding find put
  find-put k row [] = ground arith
  find-put k row (old ∷ rows) = elim (Bool-cases (has_key (row_key row) old)) [
    | inl e ↦ rw e (ground (arith, has_key-same k old row e))
    | inr other ↦ rw other (elim (Bool-cases (has_key k old)) [
      | inl mine ↦ rw (mine, has_key-other k old row other mine) refl
      | inr not_mine ↦ rw not_mine (find-put k row rows)
    ])
  ]

  -- After rows are queued, each key has the last row queued for it, or the row that it had.
  pub find-queue_rows :
      (k : JobKey) (rows pending : List (Row F))
      → find k (queue_rows rows pending) ≡ newer (find k pending) (newest k rows)
  unfolding queue_rows newest
  find-queue_rows k [] pending = refl
  find-queue_rows k (row ∷ rows) pending =
      find-queue_rows k rows (put row pending)
      ∙ ap (λ (o : Option (Row F)). newer o (newest k rows)) (find-put k row pending)
      ∙ regroup (has_key k row) (newest k rows)
    where
      regroup :
          (b : Bool) (o : Option (Row F))
          → newer (if b then some row else find k pending) o
            ≡ newer (find k pending) (newer (if b then some row else none) o)
      regroup true none = refl
      regroup true (some r) = refl
      regroup false none = refl
      regroup false (some r) = refl

  -- Each key stands once.
  abbrev pub IsKeyed : List (Row F) → Type 0
  IsKeyed [] = Unit
  IsKeyed (row ∷ rows) = (find (row_key row) rows ≡ none) × IsKeyed rows

  pub put-IsKeyed : (row : Row F) (rows : List (Row F)) → IsKeyed rows → IsKeyed (put row rows)
  unfolding find put
  put-IsKeyed row [] h = (refl, tt)
  put-IsKeyed row (old ∷ rows) h = elim (Bool-cases (has_key (row_key row) old)) [
    | inl e ↦ rw e (
      ap (λ (k : JobKey). find k rows) (sym (same_key-eq (row_key old) (row_key row) e)) ∙ h.0,
      h.1,
    )
    | inr other ↦ rw other (
      find-put (row_key old) row rows ∙ rw (same_key_comm (row_key row) (row_key old), other) h.0,
      put-IsKeyed row rows h.1,
    )
  ]

  pub queue_rows-IsKeyed :
      (rows pending : List (Row F)) → IsKeyed pending → IsKeyed (queue_rows rows pending)
  unfolding queue_rows
  queue_rows-IsKeyed [] pending h = h
  queue_rows-IsKeyed (row ∷ rows) pending h =
      queue_rows-IsKeyed rows (put row pending) (put-IsKeyed row pending h)

  pub find-append :
      (k : JobKey) (xs ys : List (Row F)) → find k (xs ++ ys) ≡ newer (find k ys) (find k xs)
  unfolding find
  find-append k [] ys = refl
  find-append k (x ∷ xs) ys = ground (arith, find-append k xs ys)

  pub append-IsKeyed :
      (xs ys : List (Row F))
      → IsKeyed (xs ++ ys)
      → IsKeyed xs × IsKeyed ys × ((k : JobKey) → (find k xs ≡ none) ⊎ (find k ys ≡ none))
  unfolding find
  append-IsKeyed [] ys h = (tt, h, λ k. inl refl)
  append-IsKeyed (x ∷ xs) ys h =
      let (keyed, keyed', apart) = append-IsKeyed xs ys h.1 in
      let (free', free) =
        newer-none (find (row_key x) ys) (find (row_key x) xs)
          (sym (find-append (row_key x) xs ys) ∙ h.0) in
      (
        (free, keyed),
        keyed',
        λ k. elim (Bool-cases (has_key k x)) [
          | inl e ↦ inr (ap (λ (j : JobKey). find j ys) (sym (same_key-eq (row_key x) k e)) ∙ free')
          | inr e ↦ elim (apart k) [ inl n ↦ inl (rw e n) | inr n ↦ inr n ]
        ],
      )

  pub newest-append :
      (k : JobKey) (xs ys : List (Row F)) → newest k (xs ++ ys) ≡ newer (newest k xs) (newest k ys)
  unfolding newest
  newest-append k [] ys = sym (newer-none_left (newest k ys))
  newest-append k (x ∷ xs) ys =
      ap (newer (if has_key k x then some x else none)) (newest-append k xs ys)
      ∙ sym (newer_assoc (if has_key k x then some x else none) (newest k xs) (newest k ys))

  -- Where each key stands once, the first row of a key is the last.
  pub newest-eq-find :
      (k : JobKey) (rows : List (Row F)) → IsKeyed rows → newest k rows ≡ find k rows
  unfolding newest find
  newest-eq-find k [] h = refl
  newest-eq-find k (r ∷ rows) h = elim (Bool-cases (has_key k r)) [
    | inl e ↦ rw e (
        ap (newer (some r)) (
          newest-eq-find k rows h.1
          ∙ ap (λ (j : JobKey). find j rows) (sym (same_key-eq (row_key r) k e))
          ∙ h.0))
    | inr e ↦ rw e (newer-none_left (newest k rows) ∙ newest-eq-find k rows h.1)
  ]
