-- ===== src/Slurmrestd/Tests.antt =====
-- The theorems on slurmweb/slurmrestd/__init__.py at concrete answers, jobs and nodes.
use slurm_web_plus.Prelude.Maybe.{some-inj}
use slurm_web_plus.Prelude.{
  sym, subst, ◌+◌, ℕ, String, false, none, some, List, [], ◌∷◌, ◌≡◌, ◌↔◌, refl, All, ◌==◌,
  if◌then◌else◌,
}
use slurm_web_plus.Prelude.Int.{pos, ◌+ℤ◌}
use slurm_web_plus.Prelude.Result.{ok}
use slurm_web_plus.Slurmrestd.Response.{
  Response, Reply, answered, execute_request, validate_response, validate_status,
  denies_authentication, validate_json, check_errors,
}
use slurm_web_plus.Slurmrestd.Response.Outcome.{Succeeds, execute_request_iff}
use slurm_web_plus.Slurmrestd.Discovery.{
  MetaField, object, Ping, Client, slurm_meta, keep, try_version, try_versions, is_skipped, known,
  discover,
}
use slurm_web_plus.Slurmrestd.Discovery.First.{Ends, discover-Ends}
use slurm_web_plus.Slurmrestd.Gres.{node_gres_extract_gpus}
use slurm_web_plus.Slurmrestd.Partition.{text}
use slurm_web_plus.Slurmrestd.JobStates.{Job, jobs_states}
use slurm_web_plus.Slurmrestd.JobStates.Count.{IsCount, jobs_states-IsCount}
use slurm_web_plus.Slurmrestd.NodeStates.{
  Node, Kind, kind_of, read_memory, read_counts, RawNode, Memory, given, read_node, Totals,
  resources_states,
}
use slurm_web_plus.Slurmrestd.NodeStates.Balance.{
  IsBalanced, SplitsCores, CoresBalance, selected, resources_states_balance,
  resources_states-CoresBalance,
}
use slurm_web_plus.Slurmrestd.NodeStates.Total.{AllReadable, resources_states_iff}

abbrev json_answer : {A : Type 0} → A → Response A
json_answer a = record {
  url = "/slurm";
  status_code = 200;
  text = "";
  content_type = some "application/json";
  body = some (record { errors = some []; content = a });
}

execute_request_iff_example :
    (execute_request {A = ℕ} (answered (json_answer 7)) false ≡ ok 7)
    ↔ Succeeds {A = ℕ} (answered (json_answer 7)) false 7
execute_request_iff_example = execute_request_iff {A = ℕ} (answered (json_answer 7)) false 7

abbrev missing : Response Ping
missing = record {
  url = "/slurm";
  status_code = 404;
  text = "";
  content_type = some "text/html";
  body = none;
}

abbrev pong : Ping
pong = some (record {
  slurm = object (record { cluster = some "hpc"; release = some "24.11.1" });
  capital_slurm = MetaField.falsy;
})

-- Only version 0.0.42 is there.
abbrev ask : String → Reply Ping
ask version = if version == "0.0.42" then answered (json_answer pong) else answered missing

abbrev fresh : Client
fresh = record {
  supported_versions = "0.0.44" ∷ "0.0.42" ∷ [];
  cluster_name_hint = none;
  cluster_name = none;
  slurm_version = none;
  api_version = none;
}

fresh_unknown : known fresh ≡ none
fresh_unknown = refl

discover-Ends_example :
    Ends ask none
      ("0.0.44" ∷ "0.0.42" ∷ [])
      ("0.0.44" ∷ "0.0.42" ∷ [])
      (discover ask fresh).0
      (discover ask fresh).1
discover-Ends_example = discover-Ends ask fresh fresh_unknown

fresh_found : (discover ask fresh).0 ≡ ok ("hpc", "24.11.1", "0.0.42")
unfolding discover try_versions try_version keep slurm_meta is_skipped execute_request
    validate_response validate_status denies_authentication validate_json check_errors
fresh_found = refl

gpus_read : node_gres_extract_gpus "gpu:tesla:2(S:0),gpu:3" ≡ some (pos 5)
unfolding node_gres_extract_gpus ◌+ℤ◌
gpus_read = refl

abbrev jobs : List Job
jobs =
    record { partition = text "gpu"; job_state = "RUNNING" ∷ [] }
    ∷ record { partition = text "cpu, gpu"; job_state = "CANCELLED" ∷ "COMPLETING" ∷ [] }
    ∷ record { partition = text "cpu"; job_state = "PENDING" ∷ [] }
    ∷ []

jobs_counted : (jobs_states (some "gpu") jobs).total ≡ 2
unfolding jobs_states
jobs_counted = refl

jobs_states-IsCount_example : IsCount (some "gpu") jobs (jobs_states (some "gpu") jobs)
jobs_states-IsCount_example = jobs_states-IsCount (some "gpu") jobs

abbrev mixed_node : RawNode
mixed_node = record {
  partitions = text "gpu";
  state = some ("MIXED" ∷ []);
  cpus = some 8;
  alloc_cpus = some 3;
  alloc_idle_cpus = some 5;
  gres = some "gpu:2";
  gres_used = some "gpu:1";
  real_memory = given (pos 4096);
  alloc_memory = given (pos 1024);
}

abbrev drained_node : RawNode
drained_node = record {
  partitions = text "gpu";
  state = some ("IDLE" ∷ "DRAIN" ∷ []);
  cpus = some 4;
  alloc_cpus = none;
  alloc_idle_cpus = none;
  gres = some "";
  gres_used = none;
  real_memory = given (pos 2048);
  alloc_memory = Memory.missing;
}

abbrev nodes : List RawNode
nodes = mixed_node ∷ drained_node ∷ []

nodes_counted : (t : Totals) × (resources_states (some "gpu") nodes ≡ some t)
unfolding resources_states
nodes_counted = (_, refl)

resources_states_balance_example :
    IsBalanced nodes_counted.0 × (nodes_counted.0.nodes_total ≡ selected (some "gpu") nodes)
resources_states_balance_example =
    resources_states_balance (some "gpu") nodes nodes_counted.0 nodes_counted.1

nodes_split : All SplitsCores nodes
unfolding read_node read_memory read_counts kind_of
nodes_split = (
  λ node read e.
      subst (λ (n : Node). n.alloc_cpus + n.alloc_idle_cpus ≡ n.cpus) (some-inj _ node read) refl,
  (
    λ node read e.
        absurd
          (cc (subst (λ (n : Node). kind_of n.state ≡ Kind.mixed) (sym (some-inj _ node read)) e)),
    tt,
  ),
)

resources_states-CoresBalance_example : CoresBalance nodes_counted.0
resources_states-CoresBalance_example =
    resources_states-CoresBalance (some "gpu") nodes nodes_counted.0 nodes_split nodes_counted.1

resources_states_iff_example :
    AllReadable (some "gpu") nodes ↔ ((t : Totals) × (resources_states (some "gpu") nodes ≡ some t))
resources_states_iff_example = resources_states_iff (some "gpu") nodes
