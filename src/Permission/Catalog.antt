-- ===== src/Permission/Catalog.antt =====
-- `PERMISSION_CATALOG` and `access_control_catalog` of slurmweb/permission_rules.py.
use slurm_web_plus.Prelude.{String, Bool, true, false, List, [], ◌∷◌, take}
use slurm_web_plus.Permission.Rule.{permission_operations, permission_scopes}
use slurm_web_plus.Permission.Legacy.{LegacyMap, default_legacy_permission_map}

-- `owner_aware` is false where the entry does not have it.
pub record Resource : Type 0 where
  pub resource : String
  pub label : String
  pub operations : List String
  pub scopes : List String
  pub owner_aware : Bool

pub record Group : Type 0 where
  pub group : String
  pub label : String
  pub resources : List Resource

abbrev view_only : String → String → Resource
view_only resource label = record {
  resource = resource;
  label = label;
  operations = "view" ∷ [];
  scopes = "*" ∷ [];
  owner_aware = false;
}

abbrev pub main_routes : Group
main_routes = record {
  group = "main-routes";
  label = "Main Routes";
  resources =
      view_only "dashboard" "Dashboard"
      ∷ view_only "analysis" "Analysis"
      ∷ view_only "ai" "AI Workspace"
      ∷ record {
        resource = "jobs";
        label = "Jobs";
        operations = "view" ∷ "edit" ∷ "delete" ∷ [];
        scopes = "*" ∷ "self" ∷ [];
        owner_aware = true;
      }
      ∷ view_only "jobs-history" "Jobs History"
      ∷ record {
        resource = "resources";
        label = "Resources";
        operations = "view" ∷ "edit" ∷ "delete" ∷ [];
        scopes = "*" ∷ [];
        owner_aware = false;
      }
      ∷ record {
        resource = "qos";
        label = "QOS";
        operations = "view" ∷ "edit" ∷ "delete" ∷ [];
        scopes = "*" ∷ [];
        owner_aware = false;
      }
      ∷ record {
        resource = "reservations";
        label = "Reservations";
        operations = "view" ∷ "edit" ∷ "delete" ∷ [];
        scopes = "*" ∷ [];
        owner_aware = false;
      }
      ∷ record {
        resource = "accounts";
        label = "Accounts";
        operations = "view" ∷ "edit" ∷ "delete" ∷ [];
        scopes = "*" ∷ [];
        owner_aware = false;
      }
      ∷ record {
        resource = "users-admin";
        label = "Users Admin";
        operations = "view" ∷ "edit" ∷ "delete" ∷ [];
        scopes = "*" ∷ [];
        owner_aware = false;
      }
      ∷ [];
}

abbrev pub settings : Group
settings = record {
  group = "settings";
  label = "Settings";
  resources =
      view_only "settings/general" "Settings / General"
      ∷ view_only "settings/errors" "Settings / Errors"
      ∷ view_only "settings/account" "Settings / Account"
      ∷ record {
        resource = "admin/ai";
        label = "Admin / AI";
        operations = "view" ∷ "edit" ∷ "delete" ∷ [];
        scopes = "*" ∷ [];
        owner_aware = false;
      }
      ∷ record {
        resource = "admin/access-control";
        label = "Admin / Access Control";
        operations = "view" ∷ "edit" ∷ "delete" ∷ [];
        scopes = "*" ∷ [];
        owner_aware = false;
      }
      ∷ record {
        resource = "admin/cache";
        label = "Admin / Cache";
        operations = "view" ∷ "edit" ∷ [];
        scopes = "*" ∷ [];
        owner_aware = false;
      }
      ∷ record {
        resource = "admin/ldap-users";
        label = "Admin / Users";
        operations = "view" ∷ "edit" ∷ [];
        scopes = "*" ∷ [];
        owner_aware = false;
      }
      ∷ [];
}

abbrev pub user_workspace : Group
user_workspace = record {
  group = "user-workspace";
  label = "User Workspace";
  resources =
      record {
        resource = "user/profile";
        label = "User Profile";
        operations = "view" ∷ [];
        scopes = "*" ∷ "self" ∷ [];
        owner_aware = true;
      }
      ∷ record {
        resource = "user/analysis";
        label = "User Analysis";
        operations = "view" ∷ [];
        scopes = "*" ∷ "self" ∷ [];
        owner_aware = true;
      }
      ∷ [];
}

abbrev pub filters : Group
filters = record {
  group = "filters";
  label = "Shared Filters";
  resources =
      view_only "jobs/filter-accounts" "Jobs Filter / Accounts"
      ∷ view_only "jobs/filter-partitions" "Jobs Filter / Partitions"
      ∷ view_only "jobs/filter-qos" "Jobs Filter / QOS"
      ∷ view_only "resources/filter-partitions" "Resources Filter / Partitions"
      ∷ [];
}

abbrev pub permission_catalog : List Group
permission_catalog = main_routes ∷ settings ∷ user_workspace ∷ filters ∷ []

pub record Catalog : Type 0 where
  pub operations : List String
  pub scopes : List String
  pub groups : List Group
  pub legacy_map : LegacyMap

-- `PERMISSION_OPERATIONS[:-1]` leaves out the last operation, `*`.
abbrev pub access_control_catalog : Catalog
access_control_catalog = record {
  operations = take 3 permission_operations;
  scopes = permission_scopes;
  groups = permission_catalog;
  legacy_map = default_legacy_permission_map;
}
