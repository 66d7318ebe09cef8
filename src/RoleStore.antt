-- ===== src/RoleStore.antt =====
-- slurmweb/persistence/access_control_store.py: the tables of roles, users and the roles of users,
-- with the constraints of slurmweb/alembic, and the transactions on them. The rows of a table have
-- no order. `NOW()` and the collation of the database are arguments.
pub mod Roles
pub mod Members
pub mod Assigning
pub mod Seeding
pub mod Permissions
pub mod Rows
pub mod Valid
pub mod Editing
pub mod Contents
pub mod Rewrites
pub mod Counting
pub mod Granting
pub mod Seeded
pub mod Run
pub mod Assigned
pub mod View
pub mod Refines
pub mod Simulation
mod Tests
use slurm_web_plus.Prelude.{
  ℕ, suc, String, Bool, true, false, Option, none, some, List, [], ◌∷◌, ◌=ᵇ◌, if◌then◌else◌,
}
use slurm_web_plus.Prelude.Order.{sorted_set}
use slurm_web_plus.Prelude.Result.{Result, ok, err}
use slurm_web_plus.Permission.Rule as Rule
use slurm_web_plus.Permission.Legacy.{LegacyMap, mapped_rules}

-- A row of `roles`.
pub record RoleRow : Type 0 where
  pub id : ℕ
  pub name : String
  pub description : String
  pub actions : List String
  pub permissions : List String
  pub created_at : ℕ
  pub updated_at : ℕ

-- A row of `users`, without the columns that this store neither reads nor writes.
pub record UserRow : Type 0 where
  pub id : ℕ
  pub username : String
  pub fullname : Option String
  pub groups : List String
  pub policy_roles : List String
  pub policy_actions : List String
  pub created_at : ℕ
  pub updated_at : ℕ

-- A row of `user_roles`.
pub record Membership : Type 0 where
  pub user_id : ℕ
  pub role_id : ℕ
  pub created_at : ℕ

-- The tables, and the sequences that give the ids.
pub record Tables : Type 0 where
  pub roles : List RoleRow
  pub users : List UserRow
  pub user_roles : List Membership
  pub next_role_id : ℕ
  pub next_user_id : ℕ

pub data Error : Type 0 where
  role_exists : String → Error
  roles_not_found : Error
  negative_offset : Error
  invalid : Rule.Error → Error

-- What a statement or a block of statements gives, and the tables that it leaves.
abbrev pub Call : Type 0 → Type 0
Call A = Tables → Result Error A × Tables

module _ {A : Type 0} where
  abbrev pub pure : A → Call A
  pure a t = (ok a, t)

  abbrev pub resume :
      {B : Type 0} → Result Error A × Tables → (A → Call B) → Result Error B × Tables
  resume (ok a, t) f = f a t
  resume (err e, t) f = (err e, t)

-- An exception ends a block, and what was written stays written until the rollback.
infixl 5 ◌>>=◌
abbrev pub ◌>>=◌ : {A B : Type 0} → Call A → (A → Call B) → Call B
◌>>=◌ m f t = resume (m t) f

-- A rollback restores the tables; the sequences do not go back.
unfoldable pub rollback : Tables → Tables → Tables
rollback before after = record before {
  next_role_id = after.next_role_id;
  next_user_id = after.next_user_id;
}

abbrev pub settle : {A : Type 0} → Tables → Result Error A × Tables → Result Error A × Tables
unfolding rollback
settle before (ok a, after) = (ok a, after)
settle before (err e, after) = (err e, rollback before after)

-- `try: ...; conn.commit()`, `except: conn.rollback(); raise`.
abbrev pub transaction : {A : Type 0} → Call A → Call A
transaction body t = settle t (body t)

-- `_derive_permissions`.
unfoldable pub derive_permissions : LegacyMap → List String → List String → List String
derive_permissions legacy_map actions [] = sorted_set (mapped_rules legacy_map actions)
derive_permissions legacy_map actions (p ∷ permissions) = p ∷ permissions

-- The dictionary that the operations return for a row.
unfoldable pub role_details : LegacyMap → RoleRow → RoleRow
unfolding derive_permissions
role_details legacy_map r = record r {
  permissions = derive_permissions legacy_map r.actions r.permissions;
}
