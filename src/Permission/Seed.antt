-- ===== src/Permission/Seed.antt =====
-- `default_seed_roles` of slurmweb/permission_rules.py.
pub mod Reach
use slurm_web_plus.Prelude.{String, List, [], ◌∷◌}
use slurm_web_plus.Prelude.Result.{Result, ok, err, ◌>>=◌}
use slurm_web_plus.Permission.Rule.{Error, sort_permission_rules}

pub record SeedRole : Type 0 where
  pub name : String
  pub description : String
  pub permissions : List String

abbrev pub user_rules : List String
user_rules =
    "dashboard:view:*" ∷ "analysis:view:*" ∷ "ai:view:*" ∷ "jobs:view:self" ∷ "jobs:edit:self"
    ∷ "jobs:delete:self" ∷ "jobs-history:view:*" ∷ "resources:view:*" ∷ "qos:view:*"
    ∷ "reservations:view:*" ∷ "accounts:view:*" ∷ "user/profile:view:self"
    ∷ "user/analysis:view:self" ∷ "jobs/filter-accounts:view:*" ∷ "jobs/filter-partitions:view:*"
    ∷ "jobs/filter-qos:view:*" ∷ "resources/filter-partitions:view:*" ∷ "settings/general:view:*"
    ∷ "settings/errors:view:*" ∷ "settings/account:view:*" ∷ []

abbrev pub admin_rules : List String
admin_rules = "*:view:*" ∷ "*:edit:*" ∷ []

abbrev pub seed_user : List String → SeedRole
seed_user permissions = record {
  name = "user";
  description = "Read-only access to available routes and settings.";
  permissions = permissions;
}

abbrev pub seed_admin : List String → SeedRole
seed_admin permissions = record {
  name = "admin";
  description = "Global read and edit access across routes and settings.";
  permissions = permissions;
}

abbrev pub seed_super_admin : SeedRole
seed_super_admin = record {
  name = "super-admin";
  description = "Full access to all resources and operations.";
  permissions = "*:*:*" ∷ [];
}

unfoldable pub default_seed_roles : Result Error (List SeedRole)
unfolding sort_permission_rules
default_seed_roles = do
  user_permissions ← sort_permission_rules user_rules
  admin_permissions ← sort_permission_rules admin_rules
  ok (seed_user user_permissions ∷ seed_admin admin_permissions ∷ seed_super_admin ∷ [])
