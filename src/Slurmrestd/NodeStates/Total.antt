-- ===== src/Slurmrestd/NodeStates/Total.antt =====
-- When the counting of the nodes succeeds: which keys of which nodes the code needs.
use slurm_web_plus.Prelude.{
  ℕ, String, List, [], ◌∷◌, true, Option, some, ◌≡◌, refl, sym, ap, ◌∙◌, subst, none, inl, inr,
  Bool-cases, All, ◌↔◌,
}
use slurm_web_plus.Prelude.Int.{ℤ}
use slurm_web_plus.Prelude.Maybe.{◌>>=◌, >>=-eq-some, some-inj}
use slurm_web_plus.Slurmrestd.Partition.{in_partition}
use slurm_web_plus.Slurmrestd.Gres.{node_gres_extract_gpus}
use slurm_web_plus.Slurmrestd.NodeStates.{
  Memory, missing, null, given, RawNode, Node, read_memory, read_counts, read_node, read_and_add,
  ByState, Totals, no_totals, Kind, kind_of, add_gpus, split_used, add_totals, add_node, add_all,
  resources_states,
}

abbrev pub Given : {A : Type 0} → Option A → Type 0
Given {A} o = (a : A) × (o ≡ some a)

-- The key is there, and its text has its numbers.
abbrev pub HasGpus : Option String → Type 0
HasGpus o = (text : String) × (o ≡ some text) × Given (node_gres_extract_gpus text)

abbrev pub IsNumber : Memory → Type 0
IsNumber missing = Unit
IsNumber null = ⊥
IsNumber (given n) = Unit

-- What the branch of the state needs besides.
abbrev pub Needs : Kind → RawNode → Type 0
Needs Kind.mixed raw = Given raw.alloc_cpus × Given raw.alloc_idle_cpus × HasGpus raw.gres_used
Needs Kind.allocated raw = HasGpus raw.gres_used
Needs kind raw = Unit

-- The node has its cores, its GRES and its state, its memory is not null, and it has the keys of the
-- branch of its state.
abbrev pub IsReadable : RawNode → Type 0
IsReadable raw =
    Given raw.cpus
    × HasGpus raw.gres
    × IsNumber raw.real_memory
    × IsNumber raw.alloc_memory
    × ((state : List String) × (raw.state ≡ some state) × Needs (kind_of state) raw)

read_memory_iff : (m : Memory) → IsNumber m ↔ Given (read_memory m)
unfolding read_memory
read_memory_iff missing = (λ h. (_, refl), λ h. tt)
read_memory_iff null = (λ h. elim h [ ], λ h. cc (h.1))
read_memory_iff (given n) = (λ h. (n, refl), λ h. tt)

abbrev UsesGpus : Kind → String → Type 0
UsesGpus Kind.mixed text = Given (node_gres_extract_gpus text)
UsesGpus Kind.allocated text = Given (node_gres_extract_gpus text)
UsesGpus kind text = Unit

split_used_iff :
    (used : Option ℤ) (n : ℤ) (s : ByState ℤ) → Given used ↔ Given (split_used used n s)
unfolding split_used
split_used_iff none n s = (λ h. cc (h.1), λ h. cc (h.1))
split_used_iff (some used) n s = (λ h. (_, refl), λ h. (used, refl))

add_gpus_iff :
    (kind : Kind) (node : Node) (n : ℤ) (s : ByState ℤ)
    → UsesGpus kind node.gres_used ↔ Given (add_gpus kind node n s)
unfolding add_gpus
add_gpus_iff Kind.mixed node n s = split_used_iff (node_gres_extract_gpus node.gres_used) n s
add_gpus_iff Kind.allocated node n s = split_used_iff (node_gres_extract_gpus node.gres_used) n s
add_gpus_iff _ node n s = (λ h. (_, refl), λ h. tt)

-- The counts that a node of this state has.
abbrev Counts : Kind → RawNode → Type 0
Counts kind raw =
    (counts : ℕ × ℕ × String) × (read_counts kind raw ≡ some counts) × UsesGpus kind counts.2

Needs-Counts : (kind : Kind) (raw : RawNode) → Needs kind raw → Counts kind raw
unfolding read_counts
Needs-Counts Kind.mixed raw ((a, e), (i, f), (u, g, gpus)) = ((a, i, u), rw (e, f, g) refl, gpus)
Needs-Counts Kind.allocated raw (u, g, gpus) = ((0, 0, u), rw g refl, gpus)
Needs-Counts _ raw h = (_, refl, tt)

Counts-Needs :
    (kind : Kind) (raw : RawNode) (counts : ℕ × ℕ × String)
    → read_counts kind raw ≡ some counts
    → UsesGpus kind counts.2
    → Needs kind raw
unfolding read_counts
Counts-Needs Kind.mixed raw counts h k =
    let (a, e, h₁) = >>=-eq-some raw.alloc_cpus _ h in
    let (i, f, h₂) = >>=-eq-some raw.alloc_idle_cpus _ h₁ in
    let (u, g, h₃) = >>=-eq-some raw.gres_used _ h₂ in
    (
      (a, e),
      (i, f),
      (
        u,
        g,
        subst (λ (c : ℕ × ℕ × String). Given (node_gres_extract_gpus c.2))
            (sym (some-inj (a, i, u) counts h₃)) k,
      ),
    )
Counts-Needs Kind.allocated raw counts h k =
    let (u, g, h₁) = >>=-eq-some raw.gres_used _ h in
    (
      u,
      g,
      subst (λ (c : ℕ × ℕ × String). Given (node_gres_extract_gpus c.2))
          (sym (some-inj (0, 0, u) counts h₁)) k,
    )
Counts-Needs _ raw counts h k = tt

>>=-some :
    {A B : Type 0} {o : Option A} {a : A} {b : Option B} (f : A → Option B)
    → o ≡ some a
    → f a ≡ b
    → (o >>= f) ≡ b
>>=-some f e h = ap (λ o. o >>= f) e ∙ h

read_and_add_total : (raw : RawNode) (t : Totals) → IsReadable raw → Given (read_and_add raw t)
unfolding read_and_add read_node add_node
read_and_add_total raw t ((cpus, c), (gres, g, (gpus, p)), real, alloc, (state, s, needs)) =
    let (r, rs) = (read_memory_iff raw.real_memory).0 real in
    let (a, al) = (read_memory_iff raw.alloc_memory).0 alloc in
    let (counts, k, uses) = Needs-Counts (kind_of state) raw needs in
    let node : Node = record {
      state = state;
      cpus = cpus;
      alloc_cpus = counts.0;
      alloc_idle_cpus = counts.1;
      gres = gres;
      gres_used = counts.2;
      real_memory = r;
      alloc_memory = a;
    } in
    let (b, bs) = (add_gpus_iff (kind_of state) node gpus t.gpus_states).0 uses in
    let read : read_node raw ≡ some node =
      >>=-some _ c
        (>>=-some _ g (>>=-some _ rs (>>=-some _ al (>>=-some _ s (>>=-some _ k refl))))) in
    let added : add_node node t ≡ some (add_totals (kind_of state) node gpus b t) =
      >>=-some _ p (>>=-some _ bs refl) in
    (add_totals (kind_of state) node gpus b t, >>=-some _ read added)

read_and_add-IsReadable :
    (raw : RawNode) (t t' : Totals) → read_and_add raw t ≡ some t' → IsReadable raw
unfolding read_and_add read_node add_node
read_and_add-IsReadable raw t t' h =
    let (node, read, added) = >>=-eq-some (read_node raw) _ h in
    let (cpus, c, h₁) = >>=-eq-some raw.cpus _ read in
    let (gres, g, h₂) = >>=-eq-some raw.gres _ h₁ in
    let (r, rs, h₃) = >>=-eq-some (read_memory raw.real_memory) _ h₂ in
    let (a, al, h₄) = >>=-eq-some (read_memory raw.alloc_memory) _ h₃ in
    let (state, s, h₅) = >>=-eq-some raw.state _ h₄ in
    let (counts, k, h₆) = >>=-eq-some (read_counts (kind_of state) raw) _ h₅ in
    let (gpus, p, added₁) = >>=-eq-some (node_gres_extract_gpus node.gres) _ added in
    let (b, bs, _) = >>=-eq-some (add_gpus (kind_of node.state) node gpus t.gpus_states) _ added₁ in
    let same : _ ≡ node = some-inj _ node h₆ in
    let uses = (add_gpus_iff (kind_of node.state) node gpus t.gpus_states).1 (b, bs) in
    (
      (cpus, c),
      (gres, g, (gpus, ap (λ (n : Node). node_gres_extract_gpus n.gres) same ∙ p)),
      (read_memory_iff raw.real_memory).1 (r, rs),
      (read_memory_iff raw.alloc_memory).1 (a, al),
      (
        state,
        s,
        Counts-Needs (kind_of state) raw counts k
            (subst (λ (n : Node). UsesGpus (kind_of n.state) n.gres_used) (sym same) uses),
      ),
    )

-- Every node of the partition can be read.
abbrev pub AllReadable : Option String → List RawNode → Type 0
AllReadable partition nodes =
    All (λ raw. in_partition partition raw.partitions ≡ true → IsReadable raw) nodes

add_all_total :
    (partition : Option String) (nodes : List RawNode) (t : Totals)
    → AllReadable partition nodes
    → Given (add_all partition nodes t)
unfolding add_all
add_all_total partition [] t h = (t, refl)
add_all_total partition (raw ∷ nodes) t h =
    elim (Bool-cases (in_partition partition raw.partitions)) [
      | inr out ↦ let (t', e) = add_all_total partition nodes t h.1 in (t', rw (out, add_all) e)
      | inl inside ↦
          let (u, added) = read_and_add_total raw t (h.0 inside) in
          let (t', e) = add_all_total partition nodes u h.1 in
          (t', rw (inside, add_all) (rw added e))
    ]

add_all-AllReadable :
    (partition : Option String) (nodes : List RawNode) (t t' : Totals)
    → add_all partition nodes t ≡ some t'
    → AllReadable partition nodes
unfolding add_all
add_all-AllReadable partition [] t t' e = tt
add_all-AllReadable partition (raw ∷ nodes) t t' e =
    elim (Bool-cases (in_partition partition raw.partitions)) [
      | inr out ↦
          (λ i. cc (i, out), add_all-AllReadable partition nodes t t' (rw (out, add_all) at e))
      | inl inside ↦
          let (u, added, rest) = >>=-eq-some (read_and_add raw t) _ (rw (inside, add_all) at e) in
          (
            λ i. read_and_add-IsReadable raw t u added,
            add_all-AllReadable partition nodes u t' rest,
          )
    ]

-- The counting succeeds exactly when each node of the partition has cores, a GRES text with its
-- numbers and a state, its memory is not null, and, if it is mixed, it has its allocated and idle
-- cores, and, if it is mixed or allocated, a GRES text in use with its numbers. Nothing is asked of
-- the nodes of other partitions.
pub resources_states_iff :
    (partition : Option String) (nodes : List RawNode)
    → AllReadable partition nodes ↔ ((t : Totals) × (resources_states partition nodes ≡ some t))
unfolding resources_states
resources_states_iff partition nodes = (
  add_all_total partition nodes no_totals,
  λ (t, e). add_all-AllReadable partition nodes no_totals t e,
)
