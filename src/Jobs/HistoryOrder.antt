-- ===== src/Jobs/HistoryOrder.antt =====
-- The order of the history of slurmweb/persistence/jobs_store.py is an order.
use slurm_web_plus.Prelude.{
  ℕ, Bool, true, false, Option, none, some, List, [], ◌∷◌, ◌++◌, map, leb, All, All-append, ◌≡◌,
  refl, arith,
}
use slurm_web_plus.Prelude.Int.{leb_ℤ}
use slurm_web_plus.Json.Value.{Json}
use slurm_web_plus.Jobs.Upsert.{Snapshot}
use slurm_web_plus.Jobs.Candidates.{before}
use slurm_web_plus.Jobs.History.{
  Sql, SortField, by_submit_time, by_id, by_state, by_user, by_priority, by_resources, sort_field,
  is_ascending, Column, nulls_first, column_text, directed, columns, job_id_column, tie_break,
  lexical, history_order,
}

-- A total and transitive order.
abbrev pub IsPreorder : {A : Type 0} → (A → A → Bool) → Type 0
IsPreorder {A = A} le =
    ((a b : A) → le a b ≡ false → le b a ≡ true)
    × ((a b c : A) → le a b ≡ true → le b c ≡ true → le a c ≡ true)

nulls_first-IsPreorder :
    {A : Type 0} (le : A → A → Bool) → IsPreorder le → IsPreorder (nulls_first le)
nulls_first-IsPreorder {A = A} le (total, transitive) = (total', transitive')
  where
    total' : (a b : Option A) → nulls_first le a b ≡ false → nulls_first le b a ≡ true
    total' none b h = cc (h)
    total' (some a) none h = refl
    total' (some a) (some b) h = total a b h

    transitive' :
        (a b c : Option A)
        → nulls_first le a b ≡ true
        → nulls_first le b c ≡ true
        → nulls_first le a c ≡ true
    transitive' none b c h k = refl
    transitive' (some a) none c h k = cc (h)
    transitive' (some a) (some b) none h k = cc (k)
    transitive' (some a) (some b) (some c) h k = transitive a b c h k

before-IsPreorder : IsPreorder before
before-IsPreorder = (total, transitive)
  where
    total : (a b : Option ℕ) → before a b ≡ false → before b a ≡ true
    total none none h = refl
    total none (some n) h = refl
    total (some m) none h = cc (h)
    total (some m) (some n) h = ground (arith, h)

    transitive : (a b c : Option ℕ) → before a b ≡ true → before b c ≡ true → before a c ≡ true
    transitive none none c h k = k
    transitive none (some n) c h k = cc (h)
    transitive (some m) b none h k = refl
    transitive (some m) none (some n) h k = cc (k)
    transitive (some l) (some m) (some n) h k = ground (arith, h, k)

leb-IsPreorder : IsPreorder leb
leb-IsPreorder = (λ a b h. ground (arith, h), λ a b c h k. ground (arith, h, k))

leb_ℤ-IsPreorder : IsPreorder leb_ℤ
leb_ℤ-IsPreorder = (λ a b h. ground (arith, h), λ a b c h k. ground (arith, h, k))

-- An order on what a row has is an order on rows.
on-IsPreorder :
    {A B : Type 0} (f : A → B) (le : B → B → Bool)
    → IsPreorder le
    → IsPreorder (λ (s t : A). le (f s) (f t))
on-IsPreorder f le (total, transitive) =
    (λ s t h. total (f s) (f t) h, λ s t u h k. transitive (f s) (f t) (f u) h k)

columns-All :
    (F : Type 0) (sql : Sql) (field : SortField)
    → IsPreorder sql.text_le
    → All (λ (column : Column F). IsPreorder column) (columns sql field)
columns-All F sql by_submit_time h = (
  on-IsPreorder (λ (s : Snapshot F). s.row.submit_time) _
      (nulls_first-IsPreorder leb leb-IsPreorder),
  tt,
)
columns-All F sql by_id h = (
  on-IsPreorder (λ (s : Snapshot F). s.row.job_id) _ (nulls_first-IsPreorder leb leb-IsPreorder),
  tt,
)
columns-All F sql by_state h = (
  on-IsPreorder (λ (s : Snapshot F). s.row.job_state) _ (nulls_first-IsPreorder sql.text_le h),
  tt,
)
columns-All F sql by_user h = (
  on-IsPreorder (λ (s : Snapshot F). column_text s.row.user_name) _
      (nulls_first-IsPreorder sql.text_le h),
  tt,
)
columns-All F sql by_priority h = (
  on-IsPreorder (λ (s : Snapshot F). s.row.priority) _
      (nulls_first-IsPreorder leb_ℤ leb_ℤ-IsPreorder),
  tt,
)
columns-All F sql by_resources h = (
  on-IsPreorder (λ (s : Snapshot F). s.row.node_count) _
      (nulls_first-IsPreorder leb_ℤ leb_ℤ-IsPreorder),
  (
    on-IsPreorder (λ (s : Snapshot F). s.row.cpus) _
        (nulls_first-IsPreorder leb_ℤ leb_ℤ-IsPreorder),
    tt,
  ),
)

job_id-IsPreorder : (F : Type 0) → IsPreorder {A = Snapshot F} job_id_column
job_id-IsPreorder F = on-IsPreorder (λ (s : Snapshot F). s.row.job_id) before before-IsPreorder

tie_break-All :
    (F : Type 0) (field : SortField)
    → All (λ (column : Column F). IsPreorder column) (tie_break field)
tie_break-All F by_id = tt
tie_break-All F by_submit_time = (job_id-IsPreorder F, tt)
tie_break-All F by_state = (job_id-IsPreorder F, tt)
tie_break-All F by_user = (job_id-IsPreorder F, tt)
tie_break-All F by_priority = (job_id-IsPreorder F, tt)
tie_break-All F by_resources = (job_id-IsPreorder F, tt)

module _ {F : Type 0} where
  directed-IsPreorder :
      (ascending : Bool) (column : Column F)
      → IsPreorder column
      → IsPreorder (directed ascending column)
  directed-IsPreorder true column h = h
  directed-IsPreorder false column (total, transitive) =
      (λ s t h. total t s h, λ s t u h k. transitive u t s k h)

  lexical-IsPreorder :
      (list : List (Column F)) → All (λ column. IsPreorder column) list → IsPreorder (lexical list)
  lexical-IsPreorder [] h = (λ s t k. refl, λ s t u k l. refl)
  lexical-IsPreorder (column ∷ more) ((total, transitive), h) =
      let (total', transitive') = lexical-IsPreorder more h in
      (
        λ s t k. ground (arith, k, total s t, total' s t),
        λ s t u k l.
            ground (
              arith,
              k,
              l,
              transitive s t u,
              transitive u s t,
              transitive t u s,
              transitive' s t u,
            ),
      )

  map-All :
      (ascending : Bool) (list : List (Column F))
      → All (λ column. IsPreorder column) list
      → All (λ column. IsPreorder column) (map (directed ascending) list)
  map-All ascending [] h = tt
  map-All ascending (column ∷ list) h =
      (directed-IsPreorder ascending column h.0, map-All ascending list h.1)

  pub history_order-IsPreorder :
      (sql : Sql)
      → IsPreorder sql.text_le
      → (sort order : Json) → IsPreorder {A = Snapshot F} (history_order sql sort order)
  unfolding history_order
  history_order-IsPreorder sql h sort order =
      let field = sort_field sort in
      lexical-IsPreorder
        (map (directed (is_ascending order)) (columns sql field ++ tie_break field))
        (map-All (is_ascending order) (columns sql field ++ tie_break field) (
          All-append _ (columns sql field) (tie_break field) (columns-All F sql field h)
            (tie_break-All F field)))
