-- ===== src/Jobs/Paging.antt =====
-- The pages of the history of slurmweb/persistence/jobs_store.py, put together.
use slurm_web_plus.Prelude.{
  ℕ, zero, suc, ◌-◌, ◌*◌, ◌≤◌, max, min, Bool, true, Option, some, List, [], ◌∷◌, ◌++◌, take, drop,
  length, filter, All, ◌≡◌, refl, ◌∙◌, sym, ap, subst, inl, inr, arith, Bool-cases, length-take,
  take-append_take, take_all,
}
use native.Mathlib.Nat.{suc-mul}
use slurm_web_plus.Prelude.Maybe.{◌>>=◌, >>=-eq-some, some-inj}
use slurm_web_plus.Prelude.SortBy.{length-sort_by, IsOrdered, sort_by-IsOrdered, All-sort_by}
use slurm_web_plus.Prelude.Dict.{Dict, get}
use slurm_web_plus.Prelude.Int.{pos, pos_part}
use slurm_web_plus.Json.Value.{Json, number, get_or_null, get_default}
use slurm_web_plus.Adapters.Number.{int_of}
use slurm_web_plus.Jobs.Upsert.{Snapshot}
use slurm_web_plus.Jobs.HistoryOrder.{IsPreorder, history_order-IsPreorder}
use slurm_web_plus.Jobs.History.{
  Sql, history_order, where_clauses, matches, selected, HistoryPage, history_page, page_number,
  page_size_of, query,
}

times_zero : (n : ℕ) → 0 ≡ 0 * n
times_zero n = omega arith

max_one : (i : ℕ) → max 1 (suc i) ≡ suc i
max_one i = omega arith

-- The filters with the number of a page, which counts from 1.
abbrev pub on_page : ℕ → Dict Json → Dict Json
on_page i filters = ("page", number (pos (suc i))) ∷ filters

module _ {F : Type 0} (sql : Sql) (filters : Dict Json) (table : List (Snapshot F)) where
  -- The jobs of the first n pages, one page after the other.
  abbrev pub pages : ℕ → Option (List (Snapshot F))
  pages zero = some []
  pages (suc n) = do
    former ← pages n
    h ← query sql (on_page n filters) table
    some (former ++ h.jobs)

  size_on_page : (i : ℕ) → page_size_of (on_page i filters) ≡ page_size_of filters
  unfolding page_size_of get_default get
  size_on_page i = refl

  clauses_on_page :
      (i : ℕ) → where_clauses {F = F} sql (on_page i filters) ≡ where_clauses sql filters
  unfolding where_clauses get_or_null get
  clauses_on_page i = refl

  selected-on_page :
      (i : ℕ) (tests : List (Snapshot F → Bool))
      → selected sql (on_page i filters) tests table ≡ selected sql filters tests table
  unfolding selected get_or_null get
  selected-on_page i tests = refl

  query-on_page :
      (i page_size : ℕ) (tests : List (Snapshot F → Bool))
      → page_size_of filters ≡ some page_size
      → where_clauses sql filters ≡ some tests
      → query sql (on_page i filters) table
        ≡ some (history_page sql (on_page i filters) tests (suc i) page_size table)
  unfolding query
  query-on_page i page_size tests e f =
      rw (size_on_page i ∙ e, clauses_on_page i ∙ f, max_one i) refl

  jobs_on_page :
      (i page_size : ℕ) (tests : List (Snapshot F → Bool))
      → (history_page sql (on_page i filters) tests (suc i) page_size table).jobs
        ≡ take page_size (drop (i * page_size) (selected sql filters tests table))
  unfolding history_page
  jobs_on_page i page_size tests = rw (selected-on_page i tests, less_one) refl
    where
      less_one : suc i - 1 ≡ i
      less_one = omega arith

  pages-take :
      (n page_size : ℕ) (tests : List (Snapshot F → Bool))
      → page_size_of filters ≡ some page_size
      → where_clauses sql filters ≡ some tests
      → pages n ≡ some (take (n * page_size) (selected sql filters tests table))
  pages-take zero page_size tests e f =
      ap (λ (m : ℕ). some (take m (selected sql filters tests table))) (times_zero page_size)
  pages-take (suc n) page_size tests e f =
      rw (pages-take n page_size tests e f, query-on_page n page_size tests e f)
        (ap some (
          ap
            (λ (js : List (Snapshot F)).
              take (n * page_size) (selected sql filters tests table) ++ js)
            (jobs_on_page n page_size tests)
          ∙ take-append_take (n * page_size) page_size (selected sql filters tests table)
          ∙ ap (λ (m : ℕ). take m (selected sql filters tests table)) (sym (suc-mul n page_size))))

  filtered-All :
      (tests : List (Snapshot F → Bool)) (rows : List (Snapshot F))
      → All (λ s. matches tests s ≡ true) (filter (matches tests) rows)
  unfolding filter
  filtered-All tests [] = tt
  filtered-All tests (s ∷ rows) = elim (Bool-cases (matches tests s)) [
    | inl e ↦ rw e (e, filtered-All tests rows)
    | inr e ↦ rw e (filtered-All tests rows)
  ]

  selected-All :
      (tests : List (Snapshot F → Bool))
      → All (λ s. matches tests s ≡ true) (selected sql filters tests table)
  unfolding selected
  selected-All tests =
      All-sort_by (λ s. matches tests s ≡ true)
        (history_order sql (get_or_null "sort" filters) (get_or_null "order" filters))
        (filter (matches tests) table) (filtered-All tests table)

  length-selected :
      (tests : List (Snapshot F → Bool))
      → length (selected sql filters tests table) ≡ length (filter (matches tests) table)
  unfolding selected
  length-selected tests =
      length-sort_by (history_order sql (get_or_null "sort" filters) (get_or_null "order" filters))
        (filter (matches tests) table)

  page_size-Within :
      (page_size : ℕ) → page_size_of filters ≡ some page_size → (1 ≤ page_size) × (page_size ≤ 500)
  unfolding page_size_of
  page_size-Within page_size e =
      let (n, _, f) =
        >>=-eq-some (int_of (get_default "page_size" (number (pos 100)) filters)) _ e in
      let g : min 500 (max 1 (pos_part n)) ≡ page_size = some-inj _ _ f in
      (omega (arith, g), omega (arith, g))

  -- The order of the rows, which compares texts as the database does.
  abbrev pub IsListed : List (Snapshot F) → Type 0
  IsListed =
      IsOrdered (history_order sql (get_or_null "sort" filters) (get_or_null "order" filters))

  selected-IsListed :
      IsPreorder sql.text_le
      → (tests : List (Snapshot F → Bool)) → IsListed (selected sql filters tests table)
  unfolding selected
  selected-IsListed text tests =
      sort_by-IsOrdered
        (history_order sql (get_or_null "sort" filters) (get_or_null "order" filters))
        (history_order-IsPreorder sql text (get_or_null "sort" filters)
          (get_or_null "order" filters)).0
        (history_order-IsPreorder sql text (get_or_null "sort" filters)
          (get_or_null "order" filters)).1
        (filter (matches tests) table)

  -- The page has at most as many rows as it may have, of which there are 1 to 500, and its total is
  -- the number of rows that pass the conditions of the filters. The first n pages give, one after the
  -- other, as many rows as the total, each of which passes the conditions, in the order that was asked
  -- for.
  abbrev pub IsPaged : ℕ → HistoryPage F → Type 0
  IsPaged n h =
      (1 ≤ h.page_size)
      × (h.page_size ≤ 500)
      × (length h.jobs ≤ h.page_size)
      × (tests : List (Snapshot F → Bool)) × (where_clauses sql filters ≡ some tests)
      × (h.total ≡ length (filter (matches tests) table))
      × (rows : List (Snapshot F)) × (pages n ≡ some rows)
      × (length rows ≡ h.total)
      × All (λ s. matches tests s ≡ true) rows
      × IsListed rows

  all_pages :
      (n page_size : ℕ) (tests : List (Snapshot F → Bool))
      → page_size_of filters ≡ some page_size
      → where_clauses sql filters ≡ some tests
      → length (filter (matches tests) table) ≤ n * page_size
      → pages n ≡ some (selected sql filters tests table)
  all_pages n page_size tests size clauses room =
      pages-take n page_size tests size clauses
      ∙ ap some (
          take_all (n * page_size) (selected sql filters tests table)
            (omega (arith, room, length-selected tests)))

  history_page-IsPaged :
      (n page page_size : ℕ) (tests : List (Snapshot F → Bool))
      → IsPreorder sql.text_le
      → page_size_of filters ≡ some page_size
      → where_clauses sql filters ≡ some tests
      → length (filter (matches tests) table) ≤ n * page_size
      → IsPaged n (history_page sql filters tests page page_size table)
  unfolding history_page
  history_page-IsPaged n page page_size tests text size clauses room =
      let (low, high) = page_size-Within page_size size in
      (
        low,
        high,
        length-take page_size (drop ((page - 1) * page_size) (selected sql filters tests table)),
        tests,
        clauses,
        refl,
        selected sql filters tests table,
        all_pages n page_size tests size clauses room,
        length-selected tests,
        selected-All tests,
        selected-IsListed text tests,
      )

  -- When a query of the history succeeds, the database's order of texts is total and transitive, and n
  -- pages have room for the total: the page has at most as many rows as it may have, of which there
  -- are 1 to 500, and its total is the number of rows that pass the conditions of the filters. The
  -- first n pages give, one after the other, as many rows as the total, each of which passes the
  -- conditions, in the order that was asked for.
  pub query-IsPaged :
      (h : HistoryPage F) (n : ℕ)
      → IsPreorder sql.text_le
      → query sql filters table ≡ some h
      → h.total ≤ n * h.page_size
      → IsPaged n h
  unfolding query history_page
  query-IsPaged h n text e room =
      let (page, _, e₁) = >>=-eq-some (page_number filters) _ e in
      let (page_size, size, e₂) = >>=-eq-some (page_size_of filters) _ e₁ in
      let (tests, clauses, e₃) = >>=-eq-some (where_clauses sql filters) _ e₂ in
      let same : history_page sql filters tests page page_size table ≡ h = some-inj _ h e₃ in
      subst (IsPaged n) same (
        history_page-IsPaged n page page_size tests text size clauses
          (subst (λ (g : HistoryPage F). g.total ≤ n * g.page_size) (sym same) room))
