-- ===== src/RoleStore/Tests.antt =====
-- The theorems on slurmweb/persistence/access_control_store.py after a few calls.
use slurm_web_plus.Prelude.{
  String, Bool, true, false, some, List, [], ◌∷◌, elem, All, ◌≡◌, ◌↔◌, refl,
}
use slurm_web_plus.Prelude.Order.{sorted_set}
use slurm_web_plus.Prelude.Result.{ok, err}
use slurm_web_plus.Permission.Rule.{normalize_permission_rule, sort_permission_rules}
use slurm_web_plus.Permission.Matching.{permission_rules_allow}
use slurm_web_plus.Permission.RuleSet.{IsAccepted, Granted, permission_rules_allow_iff}
use slurm_web_plus.Permission.Legacy.{
  LegacyMap, mapped_rules, legacy_actions_to_rules, permission_rules_to_legacy_actions,
}
use slurm_web_plus.Access.{
  User, Manager, Sources, access_control_available, file_rules, custom_roles_actions_rules,
  roles_actions_sources, allowed_user_permission,
}
use slurm_web_plus.RoleStore.{RoleRow, Tables, settle, role_exists, roles_not_found}
use slurm_web_plus.RoleStore.Roles.{RoleFields, create_role, delete_role, find_role}
use slurm_web_plus.RoleStore.Members.{user_permissions, rules_of}
use slurm_web_plus.RoleStore.Assigning.{set_user_roles}
use slurm_web_plus.RoleStore.Assigned.{assigned}
use slurm_web_plus.RoleStore.Valid.{IsValid}
use slurm_web_plus.RoleStore.View.{view}
use slurm_web_plus.RoleStore.Simulation.{Refines, apply-Refines}
use slurm_web_plus.RoleStore.Permissions.{HasRule, user_permissions_iff, store_of, role_rule_allows}
use slurm_web_plus.RoleStore.Run.{
  Command, create, delete, assign, apply, empty, Reach, here, next, Reach-IsValid,
}

abbrev legacy_map : LegacyMap
legacy_map = ("view-jobs", "jobs:view:*" ∷ []) ∷ []

abbrev name_le : String → String → Bool
name_le a b = true

abbrev fields : String → List String → List String → RoleFields
fields name actions permissions = record {
  name = name;
  description = "";
  actions = actions;
  permissions = permissions;
}

abbrev viewer : Command
viewer = create 10 (fields "viewer" ("view-jobs" ∷ []) [])

abbrev editor : Command
editor = create 11 (fields "editor" [] ("jobs:edit:self" ∷ []))

abbrev to_alice : Command
to_alice = assign 12 "alice" (2 ∷ 1 ∷ 2 ∷ [])

abbrev run : Command → Tables → Tables
unfolding apply
run = apply legacy_map name_le

abbrev two_roles : Tables
unfolding run
two_roles = run editor (run viewer empty)

abbrev granted : Tables
unfolding two_roles
granted = run to_alice two_roles

two_roles-Reach :
    Reach legacy_map name_le
      (apply legacy_map name_le editor (apply legacy_map name_le viewer empty))
two_roles-Reach = next (next here viewer) editor

name_taken :
    (create_role legacy_map 13 (fields "viewer" [] []) two_roles).0 ≡ err (role_exists "viewer")
unfolding create_role two_roles settle
name_taken = refl

id_unknown :
    (set_user_roles legacy_map name_le 13 "bob" (1 ∷ 9 ∷ []) two_roles).0 ≡ err roles_not_found
unfolding set_user_roles two_roles settle create_role
id_unknown = refl

alice_has : assigned granted "alice" 1 ≡ true
unfolding assigned granted settle create_role
alice_has = refl

after_delete : assigned (run (delete 1) granted) "alice" 1 ≡ false
unfolding assigned granted settle create_role delete_role
after_delete = refl

alice_rules :
    user_permissions legacy_map name_le "alice" granted
    ≡ ("viewer" ∷ "editor" ∷ [], "view-jobs" ∷ [], "jobs:view:*" ∷ "jobs:edit:self" ∷ [])
unfolding user_permissions granted settle create_role sorted_set mapped_rules
alice_rules = refl

Reach-IsValid_example :
    IsValid (apply legacy_map name_le editor (apply legacy_map name_le viewer empty))
Reach-IsValid_example = Reach-IsValid legacy_map name_le two_roles-Reach

apply-Refines_example :
    Refines legacy_map to_alice
      (view (apply legacy_map name_le editor (apply legacy_map name_le viewer empty)))
      (view (
        apply legacy_map name_le to_alice
          (apply legacy_map name_le editor (apply legacy_map name_le viewer empty))))
apply-Refines_example = apply-Refines legacy_map name_le to_alice two_roles-Reach

user_permissions_iff_example :
    (elem "jobs:view:*" (user_permissions legacy_map name_le "alice" granted).2 ≡ true)
    ↔ HasRule legacy_map name_le granted "alice" "jobs:view:*"
user_permissions_iff_example = user_permissions_iff legacy_map name_le granted "alice" "jobs:view:*"

abbrev alice : User
alice = record { login = "alice"; anonymous = false }

abbrev manager : Manager
manager = record {
  file_policy = record {
    roles_actions = λ user. ([], []);
    allowed_anonymous_action = λ action. false;
  };
  access_control_enabled = true;
  access_control_store = some (store_of legacy_map name_le granted);
  legacy_permission_map = legacy_map;
}

alice_sources : (s : Sources) × (roles_actions_sources manager alice ≡ ok s)
unfolding roles_actions_sources file_rules custom_roles_actions_rules
    permission_rules_to_legacy_actions legacy_actions_to_rules sort_permission_rules
    normalize_permission_rule store_of user_permissions granted settle create_role sorted_set
    mapped_rules
alice_sources = (_, refl)

alice-IsAccepted : All IsAccepted alice_sources.0.custom.rules
unfolding alice_sources normalize_permission_rule
alice-IsAccepted = ((_, refl), ((_, refl), ((_, refl), tt)))

manager_available : access_control_available manager ≡ true
unfolding access_control_available
manager_available = refl

abbrev editor_row : RoleRow
editor_row = record {
  id = 2;
  name = "editor";
  description = "";
  actions = [];
  permissions = "jobs:edit:self" ∷ [];
  created_at = 11;
  updated_at = 11;
}

alice_rule : HasRule legacy_map name_le granted "alice" "jobs:edit:self"
unfolding assigned granted settle create_role find_role rules_of elem
alice_rule = (editor_row, refl, refl, refl)

edit-Granted : Granted "jobs" "edit" "self" ("jobs:edit:self" ∷ [])
unfolding permission_rules_allow normalize_permission_rule
edit-Granted =
    (permission_rules_allow_iff "jobs" "edit" "self" ("jobs:edit:self" ∷ []) ((_, refl), tt)).0 refl

role_rule_allows_example : allowed_user_permission manager alice "jobs" "edit" "self" ≡ ok true
role_rule_allows_example =
    role_rule_allows legacy_map name_le manager alice alice_sources.0 granted "jobs:edit:self"
      "jobs" "edit" "self" refl manager_available refl alice_sources.1 alice-IsAccepted alice_rule
      edit-Granted
