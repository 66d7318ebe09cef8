-- ===== src/Access/Tests.antt =====
-- The theorems on slurmweb/access_control.py at concrete managers, with the database and without it.
use slurm_web_plus.Prelude.{
  String, true, false, none, some, List, [], ◌∷◌, elem, ◌≡◌, ◌⊎◌, ◌↔◌, refl, All,
}
use slurm_web_plus.Prelude.Dict.{get}
use slurm_web_plus.Prelude.Result.{ok}
use slurm_web_plus.Permission.Rule.{normalize_permission_rule, sort_permission_rules}
use slurm_web_plus.Permission.Matching.{permission_rules_allow}
use slurm_web_plus.Permission.RuleSet.{IsAccepted, Granted, permission_rules_allow_iff}
use slurm_web_plus.Permission.Legacy.{
  LegacyMap, legacy_actions_to_rules, permission_rules_to_legacy_actions,
}
use slurm_web_plus.Permission.Legacy.Actions.{IsAcceptedMap}
use slurm_web_plus.Access.{
  User, FilePolicy, roles_actions_rules, Store, Manager, Sources, access_control_available,
  file_rules, custom_roles_actions_rules, roles_actions_sources, allowed_user_permission,
}
use slurm_web_plus.Access.Fallback.{IsUnion, roles_actions_sources-IsUnion}
use slurm_web_plus.Access.Decision.{Lists, allowed_with_database_iff, allowed_without_database_iff}
use slurm_web_plus.Access.Escalation.{shared_rule_escalates}

abbrev legacy_map : LegacyMap
legacy_map =
    ("view-jobs", "jobs:view:*" ∷ [])
    ∷ ("cache-view", "admin/cache:view:*" ∷ "admin/ldap-users:view:*" ∷ [])
    ∷ ("ldap-view", "admin/ldap-users:view:*" ∷ [])
    ∷ []

abbrev policy : FilePolicy
policy = record {
  roles_actions = λ user. ("user" ∷ [], "ldap-view" ∷ []);
  allowed_anonymous_action = λ action. false;
}

abbrev alice : User
alice = record { login = "alice"; anonymous = false }

abbrev grants_jobs : Store
grants_jobs login = some (roles_actions_rules ("custom" ∷ []) [] ("jobs:edit:self" ∷ []))

abbrev failing : Store
failing login = none

abbrev with_store : Store → Manager
with_store store = record {
  file_policy = policy;
  access_control_enabled = true;
  access_control_store = some store;
  legacy_permission_map = legacy_map;
}

abbrev without_store : Manager
without_store = record {
  file_policy = policy;
  access_control_enabled = false;
  access_control_store = none;
  legacy_permission_map = legacy_map;
}

legacy_map-IsAcceptedMap : IsAcceptedMap legacy_map
unfolding normalize_permission_rule
legacy_map-IsAcceptedMap = (((_, refl), tt), (((_, refl), ((_, refl), tt)), (((_, refl), tt), tt)))

sources_with : (s : Sources) × (roles_actions_sources (with_store grants_jobs) alice ≡ ok s)
unfolding roles_actions_sources file_rules custom_roles_actions_rules
    permission_rules_to_legacy_actions legacy_actions_to_rules sort_permission_rules
    normalize_permission_rule
sources_with = (_, refl)

sources_without : (s : Sources) × (roles_actions_sources without_store alice ≡ ok s)
unfolding roles_actions_sources file_rules custom_roles_actions_rules
    permission_rules_to_legacy_actions legacy_actions_to_rules sort_permission_rules
    normalize_permission_rule
sources_without = (_, refl)

custom-IsAccepted : All IsAccepted sources_with.0.custom.rules
unfolding sources_with normalize_permission_rule
custom-IsAccepted = ((_, refl), tt)

with_available : access_control_available (with_store grants_jobs) ≡ true
unfolding access_control_available
with_available = refl

without_unavailable : access_control_available without_store ≡ false
unfolding access_control_available
without_unavailable = refl

allowed_with_database_iff_example :
    (allowed_user_permission (with_store grants_jobs) alice "jobs" "view" "self" ≡ ok true) ↔ (
      Granted "jobs" "view" "self" sources_with.0.policy.rules
      ⊎ Granted "jobs" "view" "self" sources_with.0.custom.rules)
allowed_with_database_iff_example =
    allowed_with_database_iff "jobs" "view" "self" (with_store grants_jobs) alice sources_with.0
      with_available refl sources_with.1 custom-IsAccepted

allowed_without_database_iff_example :
    (allowed_user_permission without_store alice "admin/cache" "view" "*" ≡ ok true) ↔ (
      (action : String) × (rules : List String) × Lists legacy_map action rules
      × Granted "admin/cache" "view" "*" rules
      × (elem action sources_without.0.merged.actions ≡ true))
allowed_without_database_iff_example =
    allowed_without_database_iff "admin/cache" "view" "*" without_store alice sources_without.0
      without_unavailable refl sources_without.1 legacy_map-IsAcceptedMap

roles_actions_sources-IsUnion_example : IsUnion (with_store grants_jobs) sources_with.0
roles_actions_sources-IsUnion_example =
    roles_actions_sources-IsUnion (with_store grants_jobs) alice sources_with.0 sources_with.1

abbrev cache_rules : List String
cache_rules = "admin/cache:view:*" ∷ "admin/ldap-users:view:*" ∷ []

cache-Granted : Granted "admin/cache" "view" "*" cache_rules
unfolding permission_rules_allow normalize_permission_rule
cache-Granted =
    (permission_rules_allow_iff "admin/cache" "view" "*" cache_rules ((_, refl), ((_, refl), tt))).0
      refl

shared_rule_escalates_example :
    allowed_user_permission without_store alice "admin/cache" "view" "*" ≡ ok true
unfolding elem get
shared_rule_escalates_example =
    shared_rule_escalates without_store alice "ldap-view" "cache-view" "admin/ldap-users:view:*"
      ("admin/ldap-users:view:*" ∷ []) cache_rules "admin/cache" "view" "*" without_unavailable refl
      legacy_map-IsAcceptedMap refl refl refl refl refl cache-Granted
