-- ===== src/Adapters/Chain.antt =====
-- `BaseAdapter.adapt`, the registry of adapters, `build_adaptation_chain` and the loop of
-- `SlurmrestdAdapter._request` over the chain.
use slurm_web_plus.Prelude.{
  ℕ, suc, ◌-◌, String, List, [], ◌∷◌, ◌++◌, ◌==◌, leb, take, drop, if◌then◌else◌, Option, none,
  some,
}
use slurm_web_plus.Prelude.Dict.{Dict}
use slurm_web_plus.Prelude.Maybe.{◌>>=◌}
use slurm_web_plus.Json.Value.{Json}
use slurm_web_plus.Adapters.Fields.{on_each}
use slurm_web_plus.Adapters.V39.{
  adapt_node, adapt_reservation, adapt_association, adapt_job, adapt_account_job,
}
use slurm_web_plus.Adapters.V40.{adapt_finished_job, flatten_association}
use slurm_web_plus.Adapters.V41.{adapt_qos}
use slurm_web_plus.Adapters.V42.{expand_outputs, complete_steps}
use Prim.Native.String

pub data Adapter : Type 0 where
  v39 v40 v41 v42 v43 : Adapter

abbrev pub adapter_of : String → Option Adapter
adapter_of version =
    if version == "0.0.39"
    then some v39
    else if version == "0.0.40"
    then some v40
    else if version == "0.0.41"
    then some v41
    else if version == "0.0.42"
    then some v42
    else if version == "0.0.43"
    then some v43
    else none

-- The name of the method, `f"adapt_{component}_{key}"`.
abbrev pub method_name : String → String → String
method_name component key = String.◌++◌ "adapt_" (String.◌++◌ component (String.◌++◌ "_" key))

-- The function that the adapter runs on each item; `none` where it has no method of that name, or one
-- that returns the data.
abbrev pub method_of :
    (Json → String) → Option String → Adapter → String → Option (Dict Json → Option (Dict Json))
method_of str hint v39 method =
    if method == "adapt_slurm_jobs"
    then some (adapt_job str)
    else if method == "adapt_slurm_nodes"
    then some adapt_node
    else if method == "adapt_slurm_reservations"
    then some adapt_reservation
    else if method == "adapt_slurmdb_jobs"
    then some (adapt_account_job str)
    else if method == "adapt_slurmdb_associations"
    then some (adapt_association hint)
    else none
method_of str hint v40 method =
    if method == "adapt_slurmdb_jobs"
    then some adapt_finished_job
    else if method == "adapt_slurmdb_associations"
    then some flatten_association
    else none
method_of str hint v41 method = if method == "adapt_slurmdb_qos" then some adapt_qos else none
method_of str hint v42 method =
    if method == "adapt_slurm_jobs"
    then some expand_outputs
    else if method == "adapt_slurmdb_jobs"
    then some complete_steps
    else none
method_of str hint v43 method = none

abbrev pub run : Option (Dict Json → Option (Dict Json)) → Json → Option Json
run none result = some result
run (some f) result = on_each f result

unfoldable pub adapt :
    (Json → String) → Option String → Adapter → String → String → Json → Option Json
unfolding on_each
adapt str hint adapter component key result =
    run (method_of str hint adapter (method_name component key)) result

-- The loop of `_request` over the chain.
unfoldable pub apply_chain :
    (Json → String) → Option String → List Adapter → String → String → Json → Option Json
unfolding adapt
apply_chain str hint [] component key result = some result
apply_chain str hint (adapter ∷ adapters) component key result = do
  adapted ← adapt str hint adapter component key result
  apply_chain str hint adapters component key adapted

-- `list(reversed(versions))`.
unfoldable pub reversed : List String → List String
reversed [] = []
reversed (v ∷ vs) = reversed vs ++ (v ∷ [])

-- `versions.index(version)`.
unfoldable pub index : String → List String → Option ℕ
index version [] = none
index version (v ∷ vs) =
    let rest = index version vs in
    if v == version then some 0 else elim rest [ none ↦ none | some i ↦ some (suc i) ]

-- The adapters of the versions, those without one left out.
unfoldable pub adapters_of : List String → List Adapter
adapters_of [] = []
adapters_of (version ∷ versions) = elim (adapter_of version) [
  | none ↦ adapters_of versions
  | some a ↦ a ∷ adapters_of versions
]

-- `range(from_idx, to_idx)` over the versions, empty where the bounds are not in order.
abbrev pub slice : ℕ → ℕ → List String → List String
slice i j versions = take (j - i) (drop i versions)

abbrev pub chain_between : List String → Option ℕ → Option ℕ → List Adapter
chain_between versions none j = []
chain_between versions (some i) none = []
chain_between versions (some i) (some j) = if leb j i then [] else adapters_of (slice i j versions)

unfoldable pub build_adaptation_chain : String → String → List String → List Adapter
unfolding reversed index adapters_of
build_adaptation_chain from_version to_version supported_versions =
    let versions = reversed supported_versions in
    chain_between versions (index from_version versions) (index to_version versions)
