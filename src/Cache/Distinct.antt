-- ===== src/Cache/Distinct.antt =====
-- The keys of the cache: no two reads share one, and none is a key of the statistics.
use slurm_web_plus.Prelude.{
  ℕ, String, Char, code, ◌==◌, if◌then◌else◌, ◌≡◌, ◌≢◌, refl, sym, ap, ◌∙◌, arith,
}
use slurm_web_plus.Prelude.Affix.{starts_with}
use slurm_web_plus.Cache.Keys.{
  Read, jobs, jobs_unfiltered, nodes, nodes_unfiltered, partitions, accounts, associations,
  reservations, qos, job, node, key_of,
}
use Prim.Native.String
use text.Mathlib.TextLemmas.{cons-append, nil-append}

-- The text without its first five characters.
abbrev after_five : String → String
after_five (String.◌∷◌ a (String.◌∷◌ b (String.◌∷◌ c (String.◌∷◌ d (String.◌∷◌ e t))))) = t
after_five t = ""

abbrev after_four : String → String
after_four (String.◌∷◌ a (String.◌∷◌ b (String.◌∷◌ c (String.◌∷◌ d t)))) = t
after_four t = ""

-- The read that a main key stands for.
abbrev read_of : String → Read
read_of k =
    if starts_with k "job-"
    then job (after_four k)
    else if starts_with k "node-"
    then node (after_five k)
    else if k == "jobs"
    then jobs
    else if k == "jobs-unfiltered"
    then jobs_unfiltered
    else if k == "nodes"
    then nodes
    else if k == "nodes-unfiltered"
    then nodes_unfiltered
    else if k == "partitions"
    then partitions
    else if k == "accounts"
    then accounts
    else if k == "associations"
    then associations
    else if k == "reservations"
    then reservations
    else qos

-- Concatenation, which computes on a literal.
abbrev push : String → String → String
push String.[] t = t
push (String.◌∷◌ c s) t = String.◌∷◌ c (push s t)

append-eq-push : (s t : String) → String.◌++◌ s t ≡ push s t
append-eq-push String.[] t = nil-append t
append-eq-push (String.◌∷◌ c s) t =
    cons-append c s t ∙ ap (λ (u : String). String.◌∷◌ c u) (append-eq-push s t)

job_text : (t : String) → String.◌++◌ "job-" t ≡ push "job-" t
job_text t = append-eq-push "job-" t

node_text : (t : String) → String.◌++◌ "node-" t ≡ push "node-" t
node_text t = append-eq-push "node-" t

read_of-key_of : (r : Read) → read_of (key_of r).main ≡ r
unfolding starts_with
read_of-key_of jobs = refl
read_of-key_of jobs_unfiltered = refl
read_of-key_of nodes = refl
read_of-key_of nodes_unfiltered = refl
read_of-key_of partitions = refl
read_of-key_of accounts = refl
read_of-key_of associations = refl
read_of-key_of reservations = refl
read_of-key_of qos = refl
read_of-key_of (job job_id) = rw job_text refl
read_of-key_of (node node_name) = rw node_text refl

-- Two reads whose keys have the same main text are the same read.
pub key_of-injective : (r q : Read) → (key_of r).main ≡ (key_of q).main → r ≡ q
key_of-injective r q h = sym (read_of-key_of r) ∙ ap read_of h ∙ read_of-key_of q

abbrev pub first_code : String → ℕ
first_code String.[] = 0
first_code (String.◌∷◌ c s) = code c

pub first_code-append :
    (c : Char) (s t : String) → first_code (String.◌++◌ (String.◌∷◌ c s) t) ≡ code c
first_code-append c s t = ap first_code (cons-append c s t)

main_code : (r : Read) → first_code (key_of r).main ≢ 99
main_code jobs h = omega (arith, h)
main_code jobs_unfiltered h = omega (arith, h)
main_code nodes h = omega (arith, h)
main_code nodes_unfiltered h = omega (arith, h)
main_code partitions h = omega (arith, h)
main_code accounts h = omega (arith, h)
main_code associations h = omega (arith, h)
main_code reservations h = omega (arith, h)
main_code qos h = omega (arith, h)
main_code (job job_id) h = omega (arith, ap first_code (job_text job_id), h)
main_code (node node_name) h = omega (arith, ap first_code (node_text node_name), h)

-- A key of the statistics, which starts with a `c`, is none of a read.
pub counter-ne-main : (k : String) (r : Read) → first_code k ≡ 99 → k ≢ (key_of r).main
counter-ne-main k r h e = main_code r (sym (ap first_code e) ∙ h)
