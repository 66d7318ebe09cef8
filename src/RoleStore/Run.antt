-- ===== src/RoleStore/Run.antt =====
-- Any sequence of calls of the store of slurmweb/persistence/access_control_store.py, each at its
-- time, from empty tables.
use slurm_web_plus.Prelude.{ℕ, String, Bool, List, []}
use slurm_web_plus.Permission.Legacy.{LegacyMap}
use slurm_web_plus.RoleStore.{Tables}
use slurm_web_plus.RoleStore.Roles.{
  RoleFields, create_role, update_role, delete_role, normalize_legacy_role_actions,
}
use slurm_web_plus.RoleStore.Assigning.{set_user_roles}
use slurm_web_plus.RoleStore.Seeding.{seed_default_roles}
use slurm_web_plus.RoleStore.Valid.{IsValid, Kept}
use slurm_web_plus.RoleStore.Editing.{
  create_role-Keeps, update_role-Keeps, delete_role-Keeps, normalize_legacy_role_actions-Keeps,
}
use slurm_web_plus.RoleStore.Granting.{set_memberships-Keeps}
use slurm_web_plus.RoleStore.Seeded.{seed_default_roles-Keeps}

pub data Command : Type 0 where
  create : ℕ → RoleFields → Command
  update : ℕ → ℕ → RoleFields → Command
  delete : ℕ → Command
  assign : ℕ → String → List ℕ → Command
  seed : ℕ → Command
  normalize : ℕ → Command

-- The tables after a call, whether it raised or not.
unfoldable pub apply : LegacyMap → (String → String → Bool) → Command → Tables → Tables
unfolding set_user_roles
apply legacy_map name_le (create now f) t = (create_role legacy_map now f t).1
apply legacy_map name_le (update now role_id f) t = (update_role legacy_map now role_id f t).1
apply legacy_map name_le (delete role_id) t = (delete_role role_id t).1
apply legacy_map name_le (assign now username role_ids) t =
    (set_user_roles legacy_map name_le now username role_ids t).1
apply legacy_map name_le (seed now) t = (seed_default_roles legacy_map now t).1
apply legacy_map name_le (normalize now) t = (normalize_legacy_role_actions legacy_map now t).1

abbrev pub empty : Tables
empty = record { roles = []; users = []; user_roles = []; next_role_id = 1; next_user_id = 1 }

-- The tables that calls of the store can lead to.
pub data Reach (legacy_map : LegacyMap) (name_le : String → String → Bool) : Tables → Type 0 where
  here : Reach legacy_map name_le empty
  next :
      {t : Tables}
      → Reach legacy_map name_le t
      → (c : Command) → Reach legacy_map name_le (apply legacy_map name_le c t)

pub apply-Kept :
    (legacy_map : LegacyMap) (name_le : String → String → Bool) (c : Command) (t : Tables)
    → IsValid t
    → Kept t (apply legacy_map name_le c t)
unfolding apply
apply-Kept legacy_map name_le (create now f) t v = create_role-Keeps legacy_map now f t v
apply-Kept legacy_map name_le (update now i f) t v = update_role-Keeps legacy_map now i f t v
apply-Kept legacy_map name_le (delete i) t v = delete_role-Keeps i t v
apply-Kept legacy_map name_le (assign now username ids) t v =
    set_memberships-Keeps now username ids t v
apply-Kept legacy_map name_le (seed now) t v = seed_default_roles-Keeps legacy_map now t v
apply-Kept legacy_map name_le (normalize now) t v =
    normalize_legacy_role_actions-Keeps legacy_map now t v

empty-IsValid : IsValid empty
empty-IsValid = record { roles_valid = tt; users_valid = tt; members_valid = tt }

-- After any sequence of calls from empty tables, those that raised included, no two roles share an id
-- or a name, no two users share an id or a name, no assignment stands twice, and every assignment is
-- of an existing role to an existing user.
pub Reach-IsValid :
    (legacy_map : LegacyMap) (name_le : String → String → Bool) {t : Tables}
    → Reach legacy_map name_le t
    → IsValid t
Reach-IsValid legacy_map name_le here = empty-IsValid
Reach-IsValid legacy_map name_le (next r c) =
    (apply-Kept legacy_map name_le c _ (Reach-IsValid legacy_map name_le r)).0
