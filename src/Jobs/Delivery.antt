-- ===== src/Jobs/Delivery.antt =====
-- Every pending row of slurmweb/persistence/jobs_store.py is written or comes back.
use slurm_web_plus.Prelude.{
  ℕ, Option, none, some, List, [], ◌∷◌, map, any, ◌≡◌, ◌⊎◌, refl, ◌∙◌, ap, inl, inr, arith,
  Bool-cases,
}
use slurm_web_plus.Jobs.{Row, JobKey, row_key}
use slurm_web_plus.Jobs.Queue.{newer, newer-none_left, find, IsKeyed}
use slurm_web_plus.Jobs.Upsert.{Snapshot, write_row}
use slurm_web_plus.Jobs.Flush.{Database, names_user, identify, ensure_users, stored_row, map_option}

module _ {F : Type 0} where
  -- The same row, but for the id of its user.
  abbrev pub Like : Row F → Row F → Type 0
  Like r r' = r' ≡ record r { user_id = r'.user_id }

  Like-trans : (a b c : Row F) → Like a b → Like b c → Like a c
  Like-trans a b c h k = ground (arith, h, k)

  module _ (db : Database F) (now : ℕ) where
    -- The row is in the table as the statement makes it, and does not come back.
    abbrev pub IsWritten :
        Row F → Option (Snapshot F) → Option (Row F) → Option (Snapshot F) → Type 0
    IsWritten r before back after =
        (r' : Row F) × Like r r'
        × (after ≡ some (write_row now before (stored_row db r')))
        × (back ≡ none)

    -- The row comes back, and the table is at its key as it was.
    abbrev pub IsBack : Row F → Option (Snapshot F) → Option (Row F) → Option (Snapshot F) → Type 0
    IsBack r before back after = (r' : Row F) × Like r r' × (back ≡ some r') × (after ≡ before)

    -- What becomes of the row of a key, if there is one.
    abbrev pub Fate :
        Option (Row F) → Option (Snapshot F) → Option (Row F) → Option (Snapshot F) → Type 0
    Fate none before back after = (back ≡ none) × (after ≡ before)
    Fate (some r) before back after = IsWritten r before back after ⊎ IsBack r before back after

    -- Two lists of rows one after the other, with no key in both.
    pub Fate-append :
        (o o' : Option (Row F)) (before middle after : Option (Snapshot F))
        (back back' : Option (Row F))
        → (o ≡ none) ⊎ (o' ≡ none)
        → Fate o before back middle
        → Fate o' middle back' after
        → Fate (newer o' o) before (newer back back') after
    Fate-append none none before middle after back back' apart (b, m) (b', a) =
        (rw (b, b') refl, a ∙ m)
    Fate-append none (some r) before middle after back back' apart (b, m) h =
        rw (b, newer-none_left back') (rw m at h)
    Fate-append (some r) none before middle after back back' apart h (b', a) = elim h [
      | inl (r', like, w, k) ↦ inl (r', like, a ∙ w, rw (b', k) refl)
      | inr (r', like, k, same) ↦ inr (r', like, rw (b', k) refl, a ∙ same)
    ]
    Fate-append (some r) (some r') before middle after back back' apart h h' = elim apart [
      | inl e ↦ cc (e)
      | inr e ↦ cc (e)
    ]

    -- The rows with the ids of their users.
    identify-Like : (r : Row F) → Like r (identify db r)
    unfolding identify
    identify-Like r = refl

    abbrev pub FoundLike : Option (Row F) → Option (Row F) → Type 0
    FoundLike none o = o ≡ none
    FoundLike (some r) o = (r' : Row F) × Like r r' × (o ≡ some r')

    find-identify :
        (k : JobKey) (rows : List (Row F))
        → find k (map (identify db) rows) ≡ map_option (identify db) (find k rows)
    unfolding find identify
    find-identify k [] = refl
    find-identify k (r ∷ rows) = ground (arith, find-identify k rows)

    FoundLike-identify : (o : Option (Row F)) → FoundLike o (map_option (identify db) o)
    FoundLike-identify none = refl
    FoundLike-identify (some r) = (identify db r, identify-Like r, refl)

    FoundLike-self : (o : Option (Row F)) → FoundLike o o
    FoundLike-self none = refl
    FoundLike-self (some r) = (r, refl, refl)

    pub find-ensure_users :
        (k : JobKey) (rows : List (Row F)) → FoundLike (find k rows) (find k (ensure_users db rows))
    unfolding ensure_users
    find-ensure_users k rows = elim (Bool-cases (any names_user rows)) [
      | inl e ↦ rw (e, find-identify k rows) (FoundLike-identify (find k rows))
      | inr e ↦ rw e (FoundLike-self (find k rows))
    ]

    identify-IsKeyed : (rows : List (Row F)) → IsKeyed rows → IsKeyed (map (identify db) rows)
    unfolding identify
    identify-IsKeyed [] h = tt
    identify-IsKeyed (r ∷ rows) h = (
      find-identify (row_key r) rows ∙ ap (map_option (identify db)) h.0,
      identify-IsKeyed rows h.1,
    )

    pub ensure_users-IsKeyed : (rows : List (Row F)) → IsKeyed rows → IsKeyed (ensure_users db rows)
    unfolding ensure_users
    ensure_users-IsKeyed rows h = elim (Bool-cases (any names_user rows)) [
      | inl e ↦ rw e (identify-IsKeyed rows h)
      | inr e ↦ rw e h
    ]

    -- What happens to a row that is like it happens to the row.
    pub Fate-Like :
        (o o' : Option (Row F)) (before after : Option (Snapshot F)) (back : Option (Row F))
        → FoundLike o o'
        → Fate o' before back after
        → Fate o before back after
    Fate-Like none o' before after back f h = rw f at h
    Fate-Like (some r) o' before after back (r', like, e) h =
        Like-Fate r r' before after back like (rw e at h)
      where
        Like-Fate :
            (r r' : Row F) (before after : Option (Snapshot F)) (back : Option (Row F))
            → Like r r'
            → Fate (some r') before back after
            → Fate (some r) before back after
        Like-Fate r r' before after back like (inl (r'', like', w, k)) =
            inl (r'', Like-trans r r' r'' like like', w, k)
        Like-Fate r r' before after back like (inr (r'', like', k, same)) =
            inr (r'', Like-trans r r' r'' like like', k, same)

    pub Fate-back : (o : Option (Row F)) (before : Option (Snapshot F)) → Fate o before o before
    Fate-back none before = (refl, refl)
    Fate-back (some r) before = inr (r, refl, refl, refl)
