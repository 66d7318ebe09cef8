-- ===== src/Access.antt =====
-- slurmweb/access_control.py: the file policy and the roles of the database, merged.
pub mod Fallback
pub mod Decision
pub mod Escalation
mod Tests
use slurm_web_plus.Prelude.{
  String, Bool, true, false, Option, none, some, List, [], ◌∷◌, ◌++◌, ◌&&◌, not, elem,
  if◌then◌else◌,
}
use slurm_web_plus.Prelude.Result.{Result, ok, err, ◌>>=◌}
use slurm_web_plus.Permission.Rule.{Error}
use slurm_web_plus.Permission.Matching.{permission_rules_allow}
use slurm_web_plus.Permission.Legacy.{
  LegacyMap, legacy_actions_to_rules, permission_rules_to_legacy_actions,
}

pub record User : Type 0 where
  pub login : String
  pub anonymous : Bool

-- The file policy of the RFL library: the roles and actions of a user, and the actions that
-- anonymous users have.
pub record FilePolicy : Type 0 where
  pub roles_actions : User → List String × List String
  pub allowed_anonymous_action : String → Bool

-- What the store answers: with the rules, or without them.
pub data StoredPermissions : Type 0 where
  roles_and_actions : List String → List String → StoredPermissions
  roles_actions_rules : List String → List String → List String → StoredPermissions

-- `user_permissions` of the store; `none` is an exception.
abbrev pub Store : Type 0
Store = String → Option StoredPermissions

pub record Manager : Type 0 where
  pub file_policy : FilePolicy
  pub access_control_enabled : Bool
  pub access_control_store : Option Store
  pub legacy_permission_map : LegacyMap

-- Roles, actions and rules. A set is a list of its members, in some order.
pub record Rights : Type 0 where
  pub roles : List String
  pub actions : List String
  pub rules : List String

abbrev pub no_rights : Rights
no_rights = record { roles = []; actions = []; rules = [] }

pub record Sources : Type 0 where
  pub policy : Rights
  pub custom : Rights
  pub merged : Rights

-- `set_access_control_store`.
pub set_access_control_store : Option Store → Manager → Manager
set_access_control_store store m = record m { access_control_store = store }

is_some : Option Store → Bool
is_some none = false
is_some (some store) = true

unfoldable pub access_control_available : Manager → Bool
unfolding is_some
access_control_available m = m.access_control_enabled && is_some m.access_control_store

unfoldable pub file_rules : Manager → User → Result Error (List String)
unfolding legacy_actions_to_rules
file_rules m user =
    legacy_actions_to_rules (m.file_policy.roles_actions user).1 m.legacy_permission_map

-- The store's answer with the rules of its actions added to its rules.
pub custom_rights : Manager → StoredPermissions → Result Error Rights
custom_rights m (roles_and_actions roles actions) = do
  rules ← legacy_actions_to_rules actions m.legacy_permission_map
  ok (record { roles = roles; actions = actions; rules = rules })
custom_rights m (roles_actions_rules roles actions rules) = do
  mapped ← legacy_actions_to_rules actions m.legacy_permission_map
  ok (record { roles = roles; actions = actions; rules = mapped ++ rules })

-- `except Exception`: a store that raises gives nothing.
pub stored_rights : Manager → Option StoredPermissions → Result Error Rights
unfolding custom_rights
stored_rights m none = ok no_rights
stored_rights m (some result) = custom_rights m result

pub ask_store : Manager → User → Option Store → Result Error Rights
unfolding stored_rights
ask_store m user none = ok no_rights
ask_store m user (some store) = stored_rights m (store user.login)

unfoldable pub custom_roles_actions_rules : Manager → User → Result Error Rights
unfolding access_control_available ask_store
custom_roles_actions_rules m user =
    if user.anonymous
    then ok no_rights
    else if access_control_available m
    then ask_store m user m.access_control_store
    else ok no_rights

-- The dictionary that `roles_actions_sources` returns.
abbrev pub merge_rights : Rights → Rights → List String → Sources
merge_rights policy custom derived = record {
  policy = policy;
  custom = custom;
  merged = record {
    roles = policy.roles ++ custom.roles;
    actions = (policy.actions ++ custom.actions) ++ derived;
    rules = policy.rules ++ custom.rules;
  };
}

abbrev pub policy_rights : Manager → User → List String → Rights
policy_rights m user policy_rules =
    let (policy_roles, policy_actions) = m.file_policy.roles_actions user in
    record { roles = policy_roles; actions = policy_actions; rules = policy_rules }

unfoldable pub roles_actions_sources : Manager → User → Result Error Sources
roles_actions_sources m user = do
  policy_rules ← file_rules m user
  custom ← custom_roles_actions_rules m user
  derived ←
      permission_rules_to_legacy_actions (policy_rules ++ custom.rules) m.legacy_permission_map
  ok (merge_rights (policy_rights m user policy_rules) custom derived)

unfoldable pub allowed_user_action : Manager → User → String → Result Error Bool
allowed_user_action m user action =
    if user.anonymous
    then ok (m.file_policy.allowed_anonymous_action action)
    else do sources ← roles_actions_sources m user; ok (elem action sources.merged.actions)

-- The loop over the map: an action counts if its rules allow the request and the user has it.
-- `m.allowed_user_action` covers anonymous users too.
unfoldable pub allowed_by_actions :
    Manager → User → String → String → String → LegacyMap → Result Error Bool
allowed_by_actions m user resource operation scope [] = ok false
allowed_by_actions m user resource operation scope ((action, rules) ∷ legacy_map) = do
  let rest = allowed_by_actions m user resource operation scope legacy_map
  matching ← permission_rules_allow rules resource operation scope
  if not matching
      then rest
      else do allowed ← allowed_user_action m user action; if allowed then ok true else rest

unfoldable pub allowed_user_permission :
    Manager → User → String → String → String → Result Error Bool
allowed_user_permission m user resource operation scope =
    if access_control_available m
    then (if user.anonymous then ok false else do
      sources ← roles_actions_sources m user
      permission_rules_allow sources.merged.rules resource operation scope)
    else allowed_by_actions m user resource operation scope m.legacy_permission_map
