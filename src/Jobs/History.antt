-- ===== src/Jobs/History.antt =====
-- The history query of slurmweb/persistence/jobs_store.py: the conditions, the order and the page.
use Prim.Native.String
use Prim.Native.String.{String}
use slurm_web_plus.Prelude.{
  ℕ, ◌-◌, ◌*◌, max, min, Bool, true, false, ◌&&◌, ◌||◌, Option, none, some, List, [], ◌∷◌, ◌++◌,
  leb, ◌=ᵇ◌, ◌==◌, if◌then◌else◌, filter, map, take, drop, length,
}
use slurm_web_plus.Prelude.Maybe.{◌>>=◌}
use slurm_web_plus.Prelude.SortBy.{sort_by}
use slurm_web_plus.Prelude.Dict.{Dict}
use slurm_web_plus.Prelude.Int.{ℤ, pos, pos_part, leb_ℤ}
use slurm_web_plus.Json.Value.{Json, number, text, get_or_null, get_default, truthy, text_of}
use slurm_web_plus.Adapters.Number.{int_of}
use slurm_web_plus.Jobs.Upsert.{Snapshot}
use slurm_web_plus.Jobs.Candidates.{passes, before}

-- What the database does on values: it reads a time, and compares texts by its collation and by `LIKE`
-- and `ILIKE`; `str` is the interpreter's.
pub record Sql : Type 0 where
  pub time_of : Json → Option ℕ
  pub text_le : String → String → Bool
  pub like : String → String → Bool
  pub ilike : String → String → Bool
  pub str : Json → String

-- The keys of `_HISTORY_SORT_FIELDS`.
pub data SortField : Type 0 where
  by_submit_time by_id by_state by_user by_priority by_resources : SortField

abbrev pub field_named : String → SortField
field_named s =
    if s == "id"
    then by_id
    else if s == "state"
    then by_state
    else if s == "user"
    then by_user
    else if s == "priority"
    then by_priority
    else if s == "resources"
    then by_resources
    else by_submit_time

unfoldable pub sort_field : Json → SortField
sort_field (text s) = field_named s
sort_field j = by_submit_time

abbrev pub is_ascending : Json → Bool
is_ascending (text s) = s == "asc"
is_ascending j = false

abbrev pub Column : Type 0 → Type 0
Column F = Snapshot F → Snapshot F → Bool

-- Ascending order with `NULLS FIRST`.
abbrev pub nulls_first : {A : Type 0} → (A → A → Bool) → Option A → Option A → Bool
nulls_first le none o = true
nulls_first le (some a) none = false
nulls_first le (some a) (some b) = le a b

-- A text column.
abbrev pub column_text : Json → Option String
column_text (text s) = some s
column_text j = none

module _ {F : Type 0} where
  -- Descending order turns an order around, with `NULLS LAST`.
  abbrev pub directed : Bool → Column F → Column F
  directed true column s t = column s t
  directed false column s t = column t s

  abbrev pub columns : Sql → SortField → List (Column F)
  columns sql by_submit_time = (λ s t. nulls_first leb s.row.submit_time t.row.submit_time) ∷ []
  columns sql by_id = (λ s t. nulls_first leb s.row.job_id t.row.job_id) ∷ []
  columns sql by_state = (λ s t. nulls_first sql.text_le s.row.job_state t.row.job_state) ∷ []
  columns sql by_user =
      (λ s t. nulls_first sql.text_le (column_text s.row.user_name) (column_text t.row.user_name))
      ∷ []
  columns sql by_priority = (λ s t. nulls_first leb_ℤ s.row.priority t.row.priority) ∷ []
  columns sql by_resources =
      (λ s t. nulls_first leb_ℤ s.row.node_count t.row.node_count)
      ∷ (λ s t. nulls_first leb_ℤ s.row.cpus t.row.cpus)
      ∷ []

  abbrev pub job_id_column : Column F
  job_id_column s t = before s.row.job_id t.row.job_id

  abbrev pub tie_break : SortField → List (Column F)
  tie_break by_id = []
  tie_break field = job_id_column ∷ []

  -- The columns of `ORDER BY`, the first first.
  abbrev pub lexical : List (Column F) → Column F
  lexical [] s t = true
  lexical (column ∷ more) s t =
      let rest = lexical more s t in
      if column s t then (if column t s then rest else true) else false

  -- `_history_sort_clause`.
  unfoldable pub history_order : Sql → Json → Json → Column F
  unfolding sort_field
  history_order sql sort order =
      let field = sort_field sort in
      lexical (map (directed (is_ascending order)) (columns sql field ++ tie_break field))

-- `column = %s` on texts, which are what the filters give.
abbrev pub is_same_text : Json → Json → Bool
is_same_text (text a) (text b) = a == b
is_same_text value column = false

abbrev pub is_same_id : ℤ → Option ℕ → Bool
is_same_id (pos n) (some m) = n =ᵇ m
is_same_id n id = false

-- `f"%{value}%"`.
abbrev pub pattern_of : Sql → Json → String
pattern_of sql value = String.◌++◌ "%" (String.◌++◌ (text_of sql.str value) "%")

-- `COALESCE(column, '')`.
abbrev pub or_empty : Json → String
or_empty (text s) = s
or_empty j = ""

abbrev pub state_matches : Sql → String → Option String → Bool
state_matches sql pattern none = false
state_matches sql pattern (some state) = sql.like state pattern

-- A page of the history, before `_serialize_datetimes`.
pub record HistoryPage (F : Type 0) : Type 0 where
  pub total : ℕ
  pub page : ℕ
  pub page_size : ℕ
  pub jobs : List (Snapshot F)

module _ {F : Type 0} where
  -- `if filters.get(key): where_clauses.append(...)`; `none` is an exception.
  abbrev pub clause :
      String → Dict Json → (Json → Option (Snapshot F → Bool)) → Option (List (Snapshot F → Bool))
  unfolding get_or_null truthy
  clause key filters make =
      let made = make (get_or_null key filters) in
      if truthy (get_or_null key filters) then (do test ← made; some (test ∷ [])) else some []

  unfoldable pub where_clauses : Sql → Dict Json → Option (List (Snapshot F → Bool))
  unfolding clause int_of
  where_clauses sql filters = do
    start ←
        clause "start" filters
          λ v. do t ← sql.time_of v; some (λ s. passes leb (some t) s.row.submit_time)
    end ← clause "end" filters λ v. do
      t ← sql.time_of v
      some (λ s. passes (λ bound n. leb n bound) (some t) s.row.submit_time)
    user ← clause "user" filters λ v. some (λ s. is_same_text v s.row.user_name)
    account ← clause "account" filters λ v. some (λ s. is_same_text v s.row.account)
    partition ← clause "partition" filters λ v. some (λ s. is_same_text v s.row.partition)
    qos ← clause "qos" filters λ v. some (λ s. is_same_text v s.row.qos)
    state ←
        clause "state" filters λ v. some (λ s. state_matches sql (pattern_of sql v) s.row.job_state)
    keyword ← clause "keyword" filters λ v. some (λ s.
        sql.ilike (or_empty s.row.working_directory) (pattern_of sql v)
        || sql.ilike (or_empty s.row.command) (pattern_of sql v))
    job_id ← clause "job_id" filters λ v. do n ← int_of v; some (λ s. is_same_id n s.row.job_id)
    some (start ++ end ++ user ++ account ++ partition ++ qos ++ state ++ keyword ++ job_id)

  -- `" AND ".join(where_clauses)`.
  abbrev pub matches : List (Snapshot F → Bool) → Snapshot F → Bool
  matches [] s = true
  matches (test ∷ tests) s = test s && matches tests s

  -- The rows that pass, in order.
  unfoldable pub selected :
      Sql → Dict Json → List (Snapshot F → Bool) → List (Snapshot F) → List (Snapshot F)
  unfolding filter sort_by history_order get_or_null
  selected sql filters tests table =
      sort_by (history_order sql (get_or_null "sort" filters) (get_or_null "order" filters))
        (filter (matches tests) table)

-- `max(1, int(filters.get("page", 1)))`.
unfoldable pub page_number : Dict Json → Option ℕ
unfolding int_of get_default
page_number filters = do
  n ← int_of (get_default "page" (number (pos 1)) filters)
  some (max 1 (pos_part n))

-- `min(500, max(1, int(filters.get("page_size", 100))))`.
unfoldable pub page_size_of : Dict Json → Option ℕ
unfolding int_of get_default
page_size_of filters = do
  n ← int_of (get_default "page_size" (number (pos 100)) filters)
  some (min 500 (max 1 (pos_part n)))

module _ {F : Type 0} where
  -- The two statements.
  unfoldable pub history_page :
      Sql → Dict Json → List (Snapshot F → Bool) → ℕ → ℕ → List (Snapshot F) → HistoryPage F
  unfolding selected
  history_page sql filters tests page page_size table = record {
    total = length (filter (matches tests) table);
    page = page;
    page_size = page_size;
    jobs = take page_size (drop ((page - 1) * page_size) (selected sql filters tests table));
  }

  -- `query`; `none` is an exception.
  unfoldable pub query : Sql → Dict Json → List (Snapshot F) → Option (HistoryPage F)
  unfolding where_clauses history_page page_number page_size_of
  query sql filters table = do
    page ← page_number filters
    page_size ← page_size_of filters
    tests ← where_clauses sql filters
    some (history_page sql filters tests page page_size table)
