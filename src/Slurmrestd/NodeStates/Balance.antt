-- ===== src/Slurmrestd/NodeStates/Balance.antt =====
-- The numbers by state add up to the totals.
use slurm_web_plus.Prelude.{
  ℕ, ◌+◌, ◌≤◌, String, List, [], ◌∷◌, if◌then◌else◌, Option, none, some, ◌≡◌, refl, sym, ap, ◌∙◌,
  arith, inl, inr, Bool-cases, subst, All,
}
use slurm_web_plus.Prelude.Int.{ℤ, ◌+ℤ◌, int_laws}
use slurm_web_plus.Prelude.Maybe.{>>=-eq-some}
use mathlib.Core.List.{Memᴰ}
use slurm_web_plus.Slurmrestd.Partition.{in_partition}
use slurm_web_plus.Slurmrestd.Gres.{node_gres_extract_gpus}
use slurm_web_plus.Slurmrestd.NodeStates.{
  RawNode, read_node, read_and_add, Node, ByState, Totals, no_totals, Kind, kind_of, add_nodes,
  add_cores, add_gpus, split_gpus, split_used, real_memory, alloc_memory, add_totals, add_node,
  add_all, resources_states,
}

abbrev pub sum_ℕ : ByState ℕ → ℕ
sum_ℕ s = s.idle + s.mixed + s.allocated + s.drain + s.down + s.error + s.fail + s.unknown

abbrev pub sum_ℤ : ByState ℤ → ℤ
sum_ℤ s = s.idle +ℤ s.mixed +ℤ s.allocated +ℤ s.drain +ℤ s.down +ℤ s.error +ℤ s.fail +ℤ s.unknown

-- The cores of a mixed node are its allocated and its idle ones.
abbrev pub SplitsCores : RawNode → Type 0
SplitsCores raw =
    (node : Node)
    → read_node raw ≡ some node
    → kind_of node.state ≡ Kind.mixed
    → node.alloc_cpus + node.alloc_idle_cpus ≡ node.cpus

-- The nodes of the partition.
abbrev pub selected : Option String → List RawNode → ℕ
selected partition [] = 0
selected partition (raw ∷ nodes) =
    (if in_partition partition raw.partitions then 1 else 0) + selected partition nodes

totals_injective : {s t : Totals} → some s ≡ some t → s ≡ t
totals_injective h = cc

sum-add_nodes : (kind : Kind) (n : ℕ) (s : ByState ℕ) → sum_ℕ (add_nodes kind n s) ≡ sum_ℕ s + n
unfolding add_nodes
sum-add_nodes Kind.error n s = omega arith
sum-add_nodes _ n s = omega arith

sum-add_cores :
    (kind : Kind) (node : Node) (s : ByState ℕ)
    → (kind ≡ Kind.mixed → node.alloc_cpus + node.alloc_idle_cpus ≡ node.cpus)
    → sum_ℕ (add_cores kind node s) ≡ sum_ℕ s + node.cpus
unfolding add_cores
sum-add_cores Kind.mixed node s h = omega (arith, h refl)
sum-add_cores Kind.error node s h = omega arith
sum-add_cores _ node s h = omega arith

sum-split_gpus : (n used : ℤ) (s : ByState ℤ) → sum_ℤ (split_gpus n used s) ≡ sum_ℤ s +ℤ n
unfolding split_gpus
sum-split_gpus n used s = omega int_laws

some_injective : {s t : ByState ℤ} → some s ≡ some t → s ≡ t
some_injective h = cc

sum-split_used :
    (used : Option ℤ) (n : ℤ) (s t : ByState ℤ)
    → split_used used n s ≡ some t
    → sum_ℤ t ≡ sum_ℤ s +ℤ n
unfolding split_used
sum-split_used none n s t h = cc
sum-split_used (some u) n s t h = ap sum_ℤ (sym (some_injective h)) ∙ sum-split_gpus n u s

sum-add_gpus :
    (kind : Kind) (node : Node) (n : ℤ) (s t : ByState ℤ)
    → add_gpus kind node n s ≡ some t
    → sum_ℤ t ≡ sum_ℤ s +ℤ n
unfolding add_gpus
sum-add_gpus Kind.mixed node n s t h =
    sum-split_used (node_gres_extract_gpus node.gres_used) n s t h
sum-add_gpus Kind.allocated node n s t h =
    sum-split_used (node_gres_extract_gpus node.gres_used) n s t h
sum-add_gpus _ node n s t h = ap sum_ℤ (sym (some_injective h)) ∙ omega int_laws

alloc-le-real : (node : Node) → alloc_memory node ≤ real_memory node
alloc-le-real node = ground arith

-- The sums agree with the totals.
pub record IsBalanced (t : Totals) : Type 0 where
  pub nodes : sum_ℕ t.nodes_states ≡ t.nodes_total
  pub gpus : sum_ℤ t.gpus_states ≡ t.gpus_total
  pub memory : t.memory_idle + t.memory_allocated ≡ t.memory_total

abbrev pub CoresBalance : Totals → Type 0
CoresBalance t = sum_ℕ t.cores_states ≡ t.cores_total

-- What a node that is added was made of.
add_node_parts :
    (node : Node) (t t' : Totals)
    → add_node node t ≡ some t'
    → (n : ℤ) × (g : ByState ℤ) × (add_gpus (kind_of node.state) node n t.gpus_states ≡ some g)
      × (add_totals (kind_of node.state) node n g t ≡ t')
unfolding add_node
add_node_parts node t t' h =
    let (n, _, h₁) = >>=-eq-some (node_gres_extract_gpus node.gres) _ h in
    let (g, f, h₂) = >>=-eq-some (add_gpus (kind_of node.state) node n t.gpus_states) _ h₁ in
    (n, g, f, totals_injective h₂)

add_totals-IsBalanced :
    (node : Node) (n : ℤ) (g : ByState ℤ) (t : Totals)
    → IsBalanced t
    → sum_ℤ g ≡ sum_ℤ t.gpus_states +ℤ n
    → IsBalanced (add_totals (kind_of node.state) node n g t)
add_totals-IsBalanced node n g t h e = record {
  nodes = omega (arith, sum-add_nodes (kind_of node.state) 1 t.nodes_states, h.nodes);
  gpus = e ∙ ap (λ a. a +ℤ n) h.gpus;
  memory = omega (arith, alloc-le-real node, h.memory);
}

pub add_node-IsBalanced :
    (node : Node) (t t' : Totals) → IsBalanced t → add_node node t ≡ some t' → IsBalanced t'
add_node-IsBalanced node t t' h e =
    let (n, g, f, same) = add_node_parts node t t' e in
    subst IsBalanced same (
      add_totals-IsBalanced node n g t h
        (sum-add_gpus (kind_of node.state) node n t.gpus_states g f))

add_node-CoresBalance :
    (node : Node) (t t' : Totals)
    → (kind_of node.state ≡ Kind.mixed → node.alloc_cpus + node.alloc_idle_cpus ≡ node.cpus)
    → CoresBalance t
    → add_node node t ≡ some t'
    → CoresBalance t'
add_node-CoresBalance node t t' split h e =
    let (n, g, _, same) = add_node_parts node t t' e in
    subst CoresBalance same
      (omega (arith, sum-add_cores (kind_of node.state) node t.cores_states split, h))

add_node_total :
    (node : Node) (t t' : Totals) → add_node node t ≡ some t' → t'.nodes_total ≡ t.nodes_total + 1
add_node_total node t t' e =
    let (n, g, _, same) = add_node_parts node t t' e in
    ap (λ (u : Totals). u.nodes_total) (sym same)

read_and_add_parts :
    (raw : RawNode) (t t' : Totals)
    → read_and_add raw t ≡ some t'
    → (node : Node) × (read_node raw ≡ some node) × (add_node node t ≡ some t')
unfolding read_and_add
read_and_add_parts raw t t' e = >>=-eq-some (read_node raw) _ e

read_and_add-IsBalanced :
    (raw : RawNode) (t t' : Totals) → IsBalanced t → read_and_add raw t ≡ some t' → IsBalanced t'
read_and_add-IsBalanced raw t t' h e =
    let (node, _, added) = read_and_add_parts raw t t' e in add_node-IsBalanced node t t' h added

read_and_add-CoresBalance :
    (raw : RawNode) (t t' : Totals)
    → SplitsCores raw
    → CoresBalance t
    → read_and_add raw t ≡ some t'
    → CoresBalance t'
read_and_add-CoresBalance raw t t' split h e =
    let (node, read, added) = read_and_add_parts raw t t' e in
    add_node-CoresBalance node t t' (split node read) h added

read_and_add_total :
    (raw : RawNode) (t t' : Totals)
    → read_and_add raw t ≡ some t'
    → t'.nodes_total ≡ t.nodes_total + 1
read_and_add_total raw t t' e =
    let (node, _, added) = read_and_add_parts raw t t' e in add_node_total node t t' added

-- One round of the loop keeps a property that adding a node keeps.
module _ (P : Totals → Type 0) (partition : Option String) where
  add_all_induction :
      (nodes : List RawNode) (t t' : Totals)
      → ((raw : RawNode) (u u' : Totals)
          → Memᴰ raw nodes
          → P u
          → read_and_add raw u ≡ some u'
          → P u')
      → P t
      → add_all partition nodes t ≡ some t'
      → P t'
  unfolding add_all
  add_all_induction [] t t' keep h e = subst P (totals_injective e) h
  add_all_induction (raw ∷ nodes) t t' keep h e =
      elim (Bool-cases (in_partition partition raw.partitions)) [
        | inr out ↦
            add_all_induction nodes t t' (λ n u u' m. keep n u u' (Memᴰ.tail m)) h
              (rw (out, add_all) at e)
        | inl inside ↦
            let (u, added, rest) = >>=-eq-some (read_and_add raw t) _ (rw (inside, add_all) at e) in
            add_all_induction nodes u t' (λ n v v' m. keep n v v' (Memᴰ.tail m))
              (keep raw t u (Memᴰ.head refl) h added) rest
      ]

All-Memᴰ :
    (raw : RawNode) (nodes : List RawNode)
    → All SplitsCores nodes
    → Memᴰ raw nodes
    → SplitsCores raw
All-Memᴰ raw [] h m = elim m [ ]
All-Memᴰ raw (n ∷ nodes) h (Memᴰ.head e) = subst SplitsCores (sym e) h.0
All-Memᴰ raw (n ∷ nodes) h (Memᴰ.tail m) = All-Memᴰ raw nodes h.1 m

add_all_total :
    (partition : Option String) (nodes : List RawNode) (t t' : Totals)
    → add_all partition nodes t ≡ some t'
    → t'.nodes_total ≡ t.nodes_total + selected partition nodes
unfolding add_all
add_all_total partition [] t t' e =
    omega (arith, ap (λ (u : Totals). u.nodes_total) (totals_injective e))
add_all_total partition (raw ∷ nodes) t t' e =
    elim (Bool-cases (in_partition partition raw.partitions)) [
      | inr out ↦
          rw out (omega (arith, add_all_total partition nodes t t' (rw (out, add_all) at e)))
      | inl inside ↦
          let (u, added, rest) = >>=-eq-some (read_and_add raw t) _ (rw (inside, add_all) at e) in
          rw inside (
            omega
              (arith, add_all_total partition nodes u t' rest, read_and_add_total raw t u added))
    ]

-- When the counting succeeds, every node of the partition is counted once, and the nodes, the GPUs
-- and the memory by state add up to the totals.
pub resources_states_balance :
    (partition : Option String) (nodes : List RawNode) (t : Totals)
    → resources_states partition nodes ≡ some t
    → IsBalanced t × (t.nodes_total ≡ selected partition nodes)
unfolding resources_states
resources_states_balance partition nodes t e = (
  add_all_induction IsBalanced partition nodes no_totals t
      (λ n u u' _ h added. read_and_add-IsBalanced n u u' h added)
      (record { nodes = refl; gpus = refl; memory = refl }) e,
  omega (arith, add_all_total partition nodes no_totals t e),
)

-- When the counting succeeds and each mixed node's allocated and idle cores add up to its cores, the
-- cores by state add up to the total.
pub resources_states-CoresBalance :
    (partition : Option String) (nodes : List RawNode) (t : Totals)
    → All SplitsCores nodes
    → resources_states partition nodes ≡ some t
    → CoresBalance t
unfolding resources_states
resources_states-CoresBalance partition nodes t split e =
    add_all_induction CoresBalance partition nodes no_totals t
      (λ n u u' m h added. read_and_add-CoresBalance n u u' (All-Memᴰ n nodes split m) h added) refl
      e
