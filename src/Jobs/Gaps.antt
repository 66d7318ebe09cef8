-- ===== src/Jobs/Gaps.antt =====
-- What it means that the backfill of slurmweb/persistence/jobs_store.py only fills gaps.
use slurm_web_plus.Prelude.{
  not, ◌&&◌, Bool, true, false, Option, none, some, List, [], ◌∷◌, All, ◌≡◌, ◌≢◌, ◌⊎◌, refl, ◌∙◌,
  sym, ap, subst, inl, inr, Bool-cases,
}
use slurm_web_plus.Jobs.{Row, JobKey, row_key}
use slurm_web_plus.Jobs.Extract.{either}
use slurm_web_plus.Jobs.Queue.{has_key}
use slurm_web_plus.Jobs.Upsert.{Snapshot}
use slurm_web_plus.Jobs.Backfill.{Decision, fill, Tally, tally}

module _ {F : Type 0} where
  -- A value that was there stays.
  abbrev pub Keeps : Option F → Option F → Type 0
  Keeps old new = (old ≡ none) ⊎ (new ≡ old)

  -- The rows differ at most in the two usage fields, and only where these were empty.
  abbrev pub Fills : Snapshot F → Snapshot F → Type 0
  Fills s s' =
      (s' ≡ record s {
        row = record s.row {
          used_memory_gb = s'.row.used_memory_gb;
          used_cpu_cores_avg = s'.row.used_cpu_cores_avg;
        };
      })
      × Keeps s.row.used_memory_gb s'.row.used_memory_gb
      × Keeps s.row.used_cpu_cores_avg s'.row.used_cpu_cores_avg

  -- Row by row.
  abbrev pub AllFills : List (Snapshot F) → List (Snapshot F) → Type 0
  AllFills [] [] = Unit
  AllFills [] (t ∷ ts) = ⊥
  AllFills (s ∷ ss) [] = ⊥
  AllFills (s ∷ ss) (t ∷ ts) = Fills s t × AllFills ss ts

  Keeps-trans : (a b c : Option F) → Keeps a b → Keeps b c → Keeps a c
  Keeps-trans a b c (inl e) k = inl e
  Keeps-trans a b c (inr e) (inl f) = inl (sym e ∙ f)
  Keeps-trans a b c (inr e) (inr f) = inr (f ∙ e)

  Keeps-either : (old new : Option F) → Keeps old (either old new)
  Keeps-either none new = inl refl
  Keeps-either (some x) new = inr refl

  Fills-self : (s : Snapshot F) → Fills s s
  Fills-self s = (refl, inr refl, inr refl)

  Fills-trans : (s t u : Snapshot F) → Fills s t → Fills t u → Fills s u
  Fills-trans s t u (e, m, c) (e', m', c') = (
    cc (e, e'),
    Keeps-trans s.row.used_memory_gb t.row.used_memory_gb u.row.used_memory_gb m m',
    Keeps-trans s.row.used_cpu_cores_avg t.row.used_cpu_cores_avg u.row.used_cpu_cores_avg c c',
  )

  pub AllFills-self : (table : List (Snapshot F)) → AllFills table table
  AllFills-self [] = tt
  AllFills-self (s ∷ table) = (Fills-self s, AllFills-self table)

  pub AllFills-trans :
      (ss ts us : List (Snapshot F)) → AllFills ss ts → AllFills ts us → AllFills ss us
  AllFills-trans [] [] us h k = k
  AllFills-trans [] (t ∷ ts) us h k = elim h [ ]
  AllFills-trans (s ∷ ss) [] us h k = elim h [ ]
  AllFills-trans (s ∷ ss) (t ∷ ts) [] h k = elim k [ ]
  AllFills-trans (s ∷ ss) (t ∷ ts) (u ∷ us) h k =
      (Fills-trans s t u h.0 k.0, AllFills-trans ss ts us h.1 k.1)

  pub fill-AllFills :
      (k : JobKey) (d : Decision F) (table : List (Snapshot F)) → AllFills table (fill k d table)
  unfolding fill
  fill-AllFills k d [] = tt
  fill-AllFills k d (s ∷ table) = elim (Bool-cases (has_key k s.row)) [
    | inl e ↦ rw e (
      (
        refl,
        Keeps-either s.row.used_memory_gb d.new_memory,
        Keeps-either s.row.used_cpu_cores_avg d.new_cpu,
      ),
      fill-AllFills k d table,
    )
    | inr e ↦ rw e (Fills-self s, fill-AllFills k d table)
  ]

  pub tally-AllFills :
      (dry_run : Bool) (stored : Row F) (d : Decision F) (t : Tally F)
      → AllFills t.rows (tally dry_run stored d t).rows
  unfolding tally
  tally-AllFills dry_run stored d t = elim (Bool-cases (d.can_update && not dry_run)) [
    | inl e ↦ rw e (fill-AllFills (row_key stored) d t.rows)
    | inr e ↦ rw e (AllFills-self t.rows)
  ]

  -- A row of the key has the values that the decision has.
  abbrev pub IsStored : JobKey → Decision F → Snapshot F → Type 0
  IsStored k d s =
      has_key k s.row ≡ true
      → (d.new_memory ≢ none → s.row.used_memory_gb ≢ none)
        × (d.new_cpu ≢ none → s.row.used_cpu_cores_avg ≢ none)

  Keeps-set : (old new : Option F) → Keeps old new → old ≢ none → new ≢ none
  Keeps-set old new (inl e) h k = h e
  Keeps-set old new (inr e) h k = h (sym e ∙ k)

  either-set : (old new : Option F) → new ≢ none → either old new ≢ none
  either-set none new h k = h k
  either-set (some x) new h k = cc (k)

  Fills-IsStored :
      (k : JobKey) (d : Decision F) (s t : Snapshot F) → Fills s t → IsStored k d s → IsStored k d t
  Fills-IsStored k d s t (e, m, c) h i =
      let set = h (ap (λ (u : Snapshot F). has_key k u.row) (sym e) ∙ i) in
      (
        λ n. Keeps-set s.row.used_memory_gb t.row.used_memory_gb m (set.0 n),
        λ n. Keeps-set s.row.used_cpu_cores_avg t.row.used_cpu_cores_avg c (set.1 n),
      )

  pub AllFills-AllSet :
      (k : JobKey) (d : Decision F) (ss ts : List (Snapshot F))
      → AllFills ss ts
      → All (IsStored k d) ss
      → All (IsStored k d) ts
  AllFills-AllSet k d [] [] f h = tt
  AllFills-AllSet k d [] (t ∷ ts) f h = elim f [ ]
  AllFills-AllSet k d (s ∷ ss) [] f h = elim f [ ]
  AllFills-AllSet k d (s ∷ ss) (t ∷ ts) f h =
      (Fills-IsStored k d s t f.0 h.0, AllFills-AllSet k d ss ts f.1 h.1)

  fill-AllSet :
      (k : JobKey) (d : Decision F) (table : List (Snapshot F))
      → All (IsStored k d) (fill k d table)
  unfolding fill
  fill-AllSet k d [] = tt
  fill-AllSet k d (s ∷ table) = elim (Bool-cases (has_key k s.row)) [
    | inl e ↦ rw e (
      λ i. (
        either-set s.row.used_memory_gb d.new_memory,
        either-set s.row.used_cpu_cores_avg d.new_cpu,
      ),
      fill-AllSet k d table,
    )
    | inr e ↦ rw e (λ i. cc (i, e), fill-AllSet k d table)
  ]

  tally-AllSet :
      (dry_run : Bool) (stored : Row F) (d : Decision F) (t : Tally F)
      → dry_run ≡ false
      → d.can_update ≡ true
      → All (IsStored (row_key stored) d) (tally dry_run stored d t).rows
  unfolding tally
  tally-AllSet dry_run stored d t real e = rw (e, real) (fill-AllSet (row_key stored) d t.rows)

  pub same_candidate :
      (s c : Snapshot F) (d d' : Decision F) (dry_run : Bool) (t : Tally F)
      → dry_run ≡ false
      → d.can_update ≡ true
      → s ≡ c
      → d ≡ d'
      → All (IsStored (row_key s.row) d) (tally dry_run c.row d' t).rows
  same_candidate s c d d' dry_run t real u e e' =
      subst (λ (x : Snapshot F). All (IsStored (row_key s.row) d) (tally dry_run x.row d' t).rows) e
        (subst (λ (x : Decision F). All (IsStored (row_key s.row) d) (tally dry_run s.row x t).rows)
          e' (tally-AllSet dry_run s.row d t real u))
