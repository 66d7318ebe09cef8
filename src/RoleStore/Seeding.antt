-- ===== src/RoleStore/Seeding.antt =====
-- `seed_default_roles`: the default roles, in an empty table.
use slurm_web_plus.Prelude.{ℕ, String, List, [], ◌∷◌, map}
use slurm_web_plus.Prelude.Result.{Result, ok, err}
use slurm_web_plus.Permission.Rule as Rule
use slurm_web_plus.Permission.Legacy.{LegacyMap, permission_rules_to_legacy_actions}
use slurm_web_plus.Permission.Seed.{SeedRole, default_seed_roles}
use slurm_web_plus.RoleStore.{RoleRow, Error, invalid, Call, pure, ◌>>=◌, transaction, role_details}
use slurm_web_plus.RoleStore.Roles.{RoleFields, insert_role}

abbrev pub seed_fields : SeedRole → List String → RoleFields
seed_fields role actions = record {
  name = role.name;
  description = role.description;
  actions = actions;
  permissions = role.permissions;
}

-- One default role, with the actions that its rules allow.
unfoldable pub insert_first : ℕ → SeedRole → Result Rule.Error (List String) → Call RoleRow
unfolding insert_role
insert_first now role (ok actions) t =
    let (row, t') = insert_role now (seed_fields role actions) t in (ok row, t')
insert_first now role (err e) t = (err (invalid e), t)

-- The loop over the default roles, with the rows that it has inserted.
unfoldable pub insert_seeds : LegacyMap → ℕ → List SeedRole → Call (List RoleRow)
unfolding insert_first
insert_seeds legacy_map now [] = pure []
insert_seeds legacy_map now (role ∷ roles) = do
  row ← insert_first now role (permission_rules_to_legacy_actions role.permissions legacy_map)
  rows ← insert_seeds legacy_map now roles
  pure (row ∷ rows)

abbrev pub seed_table :
    LegacyMap → ℕ → Result Rule.Error (List SeedRole) → List RoleRow → Call (List RoleRow)
seed_table legacy_map now (err e) [] t = (err (invalid e), t)
seed_table legacy_map now (ok seeds) [] t = insert_seeds legacy_map now seeds t
seed_table legacy_map now seeds (r ∷ rs) t = (ok [], t)

-- The rows as dictionaries.
abbrev pub details_all : LegacyMap → Result Error (List RoleRow) → Result Error (List RoleRow)
unfolding role_details
details_all legacy_map (ok rows) = ok (map (role_details legacy_map) rows)
details_all legacy_map (err e) = err e

unfoldable pub seed_default_roles : LegacyMap → ℕ → Call (List RoleRow)
unfolding insert_seeds details_all
seed_default_roles legacy_map now t =
    let (rows, t') = transaction (λ s. seed_table legacy_map now default_seed_roles s.roles s) t in
    (details_all legacy_map rows, t')
