-- ===== src/Slurmrestd/NodeStates.antt =====
-- `resources_states` of slurmweb/slurmrestd/__init__.py: nodes, cores, GPUs and memory by state.
-- Memory is counted in MB, where the code adds numbers of MB that it has divided by 1024.
pub mod Balance
pub mod Total
use slurm_web_plus.Prelude.{
  ℕ, suc, ◌+◌, ◌-◌, max, String, Bool, true, false, List, [], ◌∷◌, if◌then◌else◌, elem, Option,
  none, some,
}
use slurm_web_plus.Prelude.Int.{ℤ, pos, pos_part, ◌+ℤ◌, ◌-ℤ◌, min_ℤ}
use slurm_web_plus.Prelude.Maybe.{◌>>=◌}
use slurm_web_plus.Slurmrestd.Partition.{Field, in_partition}
use slurm_web_plus.Slurmrestd.Gres.{node_gres_extract_gpus}

-- `node.get(key, 0)`: the default stands for a missing key only.
pub data Memory : Type 0 where
  missing : Memory
  null : Memory
  given : ℤ → Memory

-- A node as slurmrestd sends it. `none` is a key that is missing or null: the code raises when it
-- reads it.
pub record RawNode : Type 0 where
  pub partitions : Field
  pub state : Option (List String)
  pub cpus : Option ℕ
  pub alloc_cpus : Option ℕ
  pub alloc_idle_cpus : Option ℕ
  pub gres : Option String
  pub gres_used : Option String
  pub real_memory : Memory
  pub alloc_memory : Memory

-- What the counting has read of a node; the keys that its state does not need are 0 and empty.
pub record Node : Type 0 where
  pub state : List String
  pub cpus : ℕ
  pub alloc_cpus : ℕ
  pub alloc_idle_cpus : ℕ
  pub gres : String
  pub gres_used : String
  pub real_memory : ℤ
  pub alloc_memory : ℤ

-- A dictionary with the eight states for keys.
pub record ByState (A : Type 0) : Type 0 where
  pub idle : A
  pub mixed : A
  pub allocated : A
  pub drain : A
  pub down : A
  pub error : A
  pub fail : A
  pub unknown : A

abbrev pub all_states : {A : Type 0} → A → ByState A
all_states a = record {
  idle = a;
  mixed = a;
  allocated = a;
  drain = a;
  down = a;
  error = a;
  fail = a;
  unknown = a;
}

pub record Totals : Type 0 where
  pub nodes_states : ByState ℕ
  pub cores_states : ByState ℕ
  pub gpus_states : ByState ℤ
  pub memory_idle : ℕ
  pub memory_allocated : ℕ
  pub nodes_total : ℕ
  pub cores_total : ℕ
  pub gpus_total : ℤ
  pub memory_total : ℕ

abbrev pub no_totals : Totals
no_totals = record {
  nodes_states = all_states 0;
  cores_states = all_states 0;
  gpus_states = all_states (pos 0);
  memory_idle = 0;
  memory_allocated = 0;
  nodes_total = 0;
  cores_total = 0;
  gpus_total = pos 0;
  memory_total = 0;
}

pub data Kind : Type 0 where
  error fail mixed allocated down drain idle unknown : Kind

-- The chain of tests on the node's state.
unfoldable pub kind_of : List String → Kind
unfolding elem
kind_of state =
    if elem "ERROR" state
    then Kind.error
    else if elem "FAIL" state
    then Kind.fail
    else if elem "MIXED" state
    then Kind.mixed
    else if elem "ALLOCATED" state
    then Kind.allocated
    else if elem "DOWN" state
    then Kind.down
    else if elem "DRAIN" state
    then Kind.drain
    else if elem "IDLE" state
    then Kind.idle
    else Kind.unknown

-- `max` and `min` raise on null.
unfoldable pub read_memory : Memory → Option ℤ
read_memory missing = some (pos 0)
read_memory null = none
read_memory (given n) = some n

-- The keys that only the branches of mixed and of allocated nodes read.
unfoldable pub read_counts : Kind → RawNode → Option (ℕ × ℕ × String)
read_counts Kind.mixed raw = do
  alloc_cpus ← raw.alloc_cpus
  alloc_idle_cpus ← raw.alloc_idle_cpus
  gres_used ← raw.gres_used
  some (alloc_cpus, alloc_idle_cpus, gres_used)
read_counts Kind.allocated raw = do gres_used ← raw.gres_used; some (0, 0, gres_used)
read_counts kind raw = some (0, 0, "")

unfoldable pub read_node : RawNode → Option Node
unfolding kind_of
read_node raw = do
  cpus ← raw.cpus
  gres ← raw.gres
  real_memory ← read_memory raw.real_memory
  alloc_memory ← read_memory raw.alloc_memory
  state ← raw.state
  counts ← read_counts (kind_of state) raw
  some (record {
    state = state;
    cpus = cpus;
    alloc_cpus = counts.0;
    alloc_idle_cpus = counts.1;
    gres = gres;
    gres_used = counts.2;
    real_memory = real_memory;
    alloc_memory = alloc_memory;
  })

-- `states[kind] += n` for the eight keys, in `nodes_states` and `cores_states`.
pub add_nodes : Kind → ℕ → ByState ℕ → ByState ℕ
add_nodes Kind.error n s = record s { error = s.error + n }
add_nodes Kind.fail n s = record s { fail = s.fail + n }
add_nodes Kind.mixed n s = record s { mixed = s.mixed + n }
add_nodes Kind.allocated n s = record s { allocated = s.allocated + n }
add_nodes Kind.down n s = record s { down = s.down + n }
add_nodes Kind.drain n s = record s { drain = s.drain + n }
add_nodes Kind.idle n s = record s { idle = s.idle + n }
add_nodes Kind.unknown n s = record s { unknown = s.unknown + n }

-- The cores of a mixed node go to the allocated and idle ones by its own numbers.
pub add_cores : Kind → Node → ByState ℕ → ByState ℕ
unfolding add_nodes
add_cores Kind.mixed node s = record s {
  allocated = s.allocated + node.alloc_cpus;
  idle = s.idle + node.alloc_idle_cpus;
}
add_cores kind node s = add_nodes kind node.cpus s

-- The GPUs of a mixed or an allocated node are split by the GPUs in use.
pub split_gpus : ℤ → ℤ → ByState ℤ → ByState ℤ
split_gpus node_gpus allocated_gpus s = record s {
  allocated = s.allocated +ℤ allocated_gpus;
  idle = s.idle +ℤ (node_gpus -ℤ allocated_gpus);
}

pub split_used : Option ℤ → ℤ → ByState ℤ → Option (ByState ℤ)
unfolding split_gpus
split_used none node_gpus s = none
split_used (some used) node_gpus s = some (split_gpus node_gpus used s)

-- `none` is the `ValueError` of a GRES text in use; the other states do not read it.
pub add_gpus : Kind → Node → ℤ → ByState ℤ → Option (ByState ℤ)
unfolding split_used
add_gpus Kind.error node n s = some (record s { error = s.error +ℤ n })
add_gpus Kind.fail node n s = some (record s { fail = s.fail +ℤ n })
add_gpus Kind.mixed node n s = split_used (node_gres_extract_gpus node.gres_used) n s
add_gpus Kind.allocated node n s = split_used (node_gres_extract_gpus node.gres_used) n s
add_gpus Kind.down node n s = some (record s { down = s.down +ℤ n })
add_gpus Kind.drain node n s = some (record s { drain = s.drain +ℤ n })
add_gpus Kind.idle node n s = some (record s { idle = s.idle +ℤ n })
add_gpus Kind.unknown node n s = some (record s { unknown = s.unknown +ℤ n })

-- `max(0, node.get("real_memory", 0))`.
abbrev pub real_memory : Node → ℕ
real_memory node = pos_part node.real_memory

-- `max(0, min(real_memory, node.get("alloc_memory", 0)))`.
abbrev pub alloc_memory : Node → ℕ
alloc_memory node = pos_part (min_ℤ (pos (real_memory node)) node.alloc_memory)

-- `max(real_memory - alloc_memory, 0)`: subtraction of natural numbers stops at 0.
abbrev pub idle_memory : Node → ℕ
idle_memory node = real_memory node - alloc_memory node

-- The new totals, once the GPUs are known.
abbrev pub add_totals : Kind → Node → ℤ → ByState ℤ → Totals → Totals
add_totals kind node node_gpus gpus_states t = record {
  nodes_states = add_nodes kind 1 t.nodes_states;
  cores_states = add_cores kind node t.cores_states;
  gpus_states = gpus_states;
  memory_idle = t.memory_idle + idle_memory node;
  memory_allocated = t.memory_allocated + alloc_memory node;
  nodes_total = t.nodes_total + 1;
  cores_total = t.cores_total + node.cpus;
  gpus_total = t.gpus_total +ℤ node_gpus;
  memory_total = t.memory_total + real_memory node;
}

-- The body of the loop.
unfoldable pub add_node : Node → Totals → Option Totals
add_node node t = do
  node_gpus ← node_gres_extract_gpus node.gres
  gpus_states ← add_gpus (kind_of node.state) node node_gpus t.gpus_states
  some (add_totals (kind_of node.state) node node_gpus gpus_states t)

unfoldable pub read_and_add : RawNode → Totals → Option Totals
unfolding read_node add_node
read_and_add raw t = do node ← read_node raw; add_node node t

unfoldable pub add_all : Option String → List RawNode → Totals → Option Totals
unfolding in_partition read_and_add
add_all partition [] t = some t
add_all partition (raw ∷ nodes) t =
    let rest = add_all partition nodes t in
    if in_partition partition raw.partitions
    then (do t' ← read_and_add raw t; add_all partition nodes t')
    else rest

unfoldable pub resources_states : Option String → List RawNode → Option Totals
unfolding add_all read_and_add read_node read_counts read_memory add_node add_gpus add_cores kind_of
    in_partition node_gres_extract_gpus ◌+ℤ◌ ◌-ℤ◌
resources_states partition nodes = add_all partition nodes no_totals
