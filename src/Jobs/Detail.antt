-- ===== src/Jobs/Detail.antt =====
-- `_extract_detail` of slurmweb/persistence/jobs_store.py: a row from the merged answers about a job,
-- with the stored row for what they do not say.
use Prim.Native.String.{String}
use slurm_web_plus.Prelude.{ℕ, Option, none, some, ◌==◌, if◌then◌else◌}
use slurm_web_plus.Prelude.Dict.{Dict, get}
use slurm_web_plus.Prelude.Maybe.{◌>>=◌}
use slurm_web_plus.Json.Value.{Json, null, as_dict, truthy, get_or_null, get_default, or_other}
use slurm_web_plus.Jobs.{Row}
use slurm_web_plus.Jobs.Fields.{
  Python, int_field, ts, tres_json, time_value, state_str, tres_str, gres_str, exit_str,
}
use slurm_web_plus.Jobs.Usage.{usage_stats}
use slurm_web_plus.Jobs.Steps.{empty_dict}
use slurm_web_plus.Jobs.Extract.{job_id_of, either}

-- `a or b` on texts.
abbrev pub or_text : Option String → Option String → Option String
or_text none o = o
or_text (some s) o = if s == "" then o else some s

-- `d.get(key, default) if isinstance(d, dict) else other`.
abbrev pub dict_field : Json → String → Json → Json → Json
unfolding as_dict get_default
dict_field d key default other = elim (as_dict d) [
  | none ↦ other
  | some fields ↦ get_default key default fields
]

-- `if row[key] is None: row[key] = fallback.get(key)`.
abbrev pub if_null : Json → Json → Json
if_null value other = elim value [ null ↦ other | v ↦ v ]

-- `job.get("job_id", fallback.get("job_id"))`.
abbrev pub detail_id : Option Json → Option ℕ → Option ℕ
detail_id none fallback = fallback
detail_id (some value) fallback = job_id_of value

module _ {F : Type 0} (py : Python F) where
  -- The row before the loop over the keys that fall back.
  unfoldable pub detail_row : Dict Json → Row F → Option (Row F)
  unfolding dict_field get get_or_null get_default truthy state_str gres_str usage_stats
  detail_row job fallback = do
    let field = λ (key : String). get_or_null key job
    let association = get_default "association" empty_dict job
    let state = get_default "state" empty_dict job
    let time_data = get_default "time" empty_dict job
    let tres = get_default "tres" empty_dict job
    job_state ← state_str py (dict_field state "current" (field "job_state") (field "job_state"))
    usage ← usage_stats py job
    gres_detail ← gres_str py (field "gres_detail")
    some (record {
      job_id = detail_id (get "job_id" job) fallback.job_id;
      job_name = get_default "name" fallback.job_name job;
      job_state = or_text job_state fallback.job_state;
      state_reason =
          or_other (dict_field state "reason" null (field "state_reason")) fallback.state_reason;
      user_name = or_other (field "user") (
          or_other (field "user_name")
            (or_other (dict_field association "user" null null) fallback.user_name));
      user_id = fallback.user_id;
      account = dict_field association "account" (field "account") (field "account");
      group = or_other (field "group") (or_other (field "group_name") fallback.group);
      partition = get_default "partition" fallback.partition job;
      qos = get_default "qos" fallback.qos job;
      nodes = get_default "nodes" fallback.nodes job;
      node_count = int_field (field "node_count");
      cpus = int_field (field "cpus");
      priority = int_field (field "priority");
      tres_req_str = tres_str py (or_other (field "tres_req_str") (field "tres_per_job"));
      tres_per_job = tres_str py (field "tres_per_job");
      tres_per_node = tres_str py (field "tres_per_node");
      gres_detail = gres_detail;
      submit_time = ts (time_value time_data "submission" (field "submit_time"));
      start_time = ts (time_value time_data "start" (field "start_time"));
      end_time = ts (time_value time_data "end" (field "end_time"));
      eligible_time = ts (time_value time_data "eligible" (field "eligible_time"));
      last_sched_evaluation_time = ts (field "last_sched_evaluation");
      tres_requested = tres_json (dict_field tres "requested" null null);
      tres_allocated = tres_json (dict_field tres "allocated" null null);
      time_limit_minutes = int_field (time_value time_data "limit" (field "time_limit"));
      used_memory_gb = usage.value_gb;
      usage_stats = some usage;
      used_cpu_cores_avg = usage.estimated_cores_avg;
      exit_code = exit_str py (or_other (field "exit_code") (field "derived_exit_code"));
      working_directory =
          or_other (field "current_working_directory")
            (or_other (field "working_directory") fallback.working_directory);
      command = or_other (field "command") (or_other (field "submit_line") fallback.command);
    })

  -- The loop over the keys, and the submit time.
  unfoldable pub fall_back : Row F → Row F → Row F
  fall_back fallback row = record row {
    account = if_null row.account fallback.account;
    partition = if_null row.partition fallback.partition;
    qos = if_null row.qos fallback.qos;
    nodes = if_null row.nodes fallback.nodes;
    node_count = either row.node_count fallback.node_count;
    cpus = either row.cpus fallback.cpus;
    priority = either row.priority fallback.priority;
    tres_req_str = either row.tres_req_str fallback.tres_req_str;
    tres_per_job = either row.tres_per_job fallback.tres_per_job;
    tres_per_node = either row.tres_per_node fallback.tres_per_node;
    gres_detail = either row.gres_detail fallback.gres_detail;
    eligible_time = either row.eligible_time fallback.eligible_time;
    last_sched_evaluation_time =
        either row.last_sched_evaluation_time fallback.last_sched_evaluation_time;
    tres_requested = either row.tres_requested fallback.tres_requested;
    tres_allocated = either row.tres_allocated fallback.tres_allocated;
    time_limit_minutes = either row.time_limit_minutes fallback.time_limit_minutes;
    submit_time = either row.submit_time fallback.submit_time;
  }

  -- `_extract_detail`.
  unfoldable pub extract_detail : Dict Json → Row F → Option (Row F)
  unfolding detail_row fall_back
  extract_detail job fallback = do row ← detail_row job fallback; some (fall_back fallback row)
