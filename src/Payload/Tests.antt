-- ===== src/Payload/Tests.antt =====
-- The theorems on payloads at concrete ones.
use slurm_web_plus.Prelude.{true, false, [], ◌∷◌, some, ◌≡◌, ◌↔◌, refl}
use slurm_web_plus.Prelude.Dict.{Dict, get, has, assign, remove, IsDict}
use slurm_web_plus.Prelude.Int.{pos}
use slurm_web_plus.Prelude.Result.{ok}
use slurm_web_plus.Prelude.Text.{split, strip}
use slurm_web_plus.Json.Value.{
  Json, bool, number, text, list, dict, as_dict, members, of_dict, truthy, is_blank, get_or_null,
  get_or,
}
use slurm_web_plus.Json.Path.{path_in, at_path, in_nested, dict_or_empty}
use slurm_web_plus.Slurmrestd.Partition.{stripped}
use slurm_web_plus.Payload.Qos.{
  limit_value, qos_limit, has_limit, is_limit, pop_first, set_qos_limit_if_missing,
  normalize_qos_entry, max_submit_jobs_aliases, max_jobs_aliases, max_wall_aliases,
}
use slurm_web_plus.Payload.Qos.Limits.{kept_or_set}
use slurm_web_plus.Payload.Qos.Aliases.{first_given}
use slurm_web_plus.Payload.Qos.Outcome.{
  submit_path, active_path, wall_path, normalize_qos_entry_lem,
}
use slurm_web_plus.Payload.Entries.{normalize_account}
use slurm_web_plus.Payload.Association.{association_delete_query}
use slurm_web_plus.Payload.Association.Deletion.{Deletes, association_delete_query_iff}
use slurm_web_plus.Payload.Reservation.{reservation_csv}

abbrev qos : Dict Json
qos =
    ("name", text "normal")
    ∷ ("MaxJobsPerUser", number (pos 4))
    ∷ ("max_jobs_per_user", text "")
    ∷ []

-- The blank alias is passed over for the next one.
active_limit_set :
    path_in active_path (normalize_qos_entry qos)
    ≡ some (dict (("set", bool true) ∷ ("infinite", bool false) ∷ ("number", number (pos 4)) ∷ []))
unfolding normalize_qos_entry pop_first set_qos_limit_if_missing has_limit is_limit qos_limit
    at_path in_nested dict_or_empty dict as_dict members of_dict get assign remove is_blank
active_limit_set = refl

normalize_qos_entry_lem_example :
    (path_in submit_path (normalize_qos_entry qos)
      ≡ kept_or_set
          (path_in submit_path qos)
          (limit_value (first_given qos max_submit_jobs_aliases) (pos 100)))
    × (path_in active_path (normalize_qos_entry qos)
        ≡ kept_or_set
            (path_in active_path qos)
            (limit_value (first_given qos max_jobs_aliases) (pos 10)))
    × (path_in wall_path (normalize_qos_entry qos)
        ≡ kept_or_set
            (path_in wall_path qos)
            (limit_value (first_given qos max_wall_aliases) (pos 8640)))
normalize_qos_entry_lem_example = normalize_qos_entry_lem qos

abbrev account : Dict Json
account = ("name", text "physics") ∷ ("organization", text "") ∷ []

account_named : get_or_null "organization" (normalize_account account) ≡ text "physics"
unfolding normalize_account get_or_null get_or truthy assign get
account_named = refl

abbrev user : Dict Json
user = ("name", text "alice") ∷ ("comment", text "") ∷ []

user-IsDict : IsDict user
unfolding has get
user-IsDict = (refl, (refl, tt))

abbrev deletion : Json
deletion = dict (
    ("associations", list (dict (("account", text "physics") ∷ ("user", text "alice") ∷ []) ∷ []))
    ∷ [])

abbrev deletion_query : Dict Json
deletion_query = ("account", text "physics") ∷ ("user", text "alice") ∷ ("cluster", text "hpc") ∷ []

association_delete_query_iff_example :
    (association_delete_query (some "hpc") deletion ≡ ok deletion_query)
    ↔ Deletes (some "hpc") deletion deletion_query
association_delete_query_iff_example =
    association_delete_query_iff (some "hpc") deletion deletion_query

csv_of_text : reservation_csv (λ j. "") (text " a, b ,, c") ≡ some "a,b,c"
unfolding reservation_csv stripped split strip is_blank
csv_of_text = refl
