-- ===== src/RoleStore/Roles.antt =====
-- The operations on the table of roles.
use slurm_web_plus.Prelude.{
  ℕ, suc, ◌+◌, String, Bool, true, false, not, ◌&&◌, ◌||◌, Option, none, some, List, [], ◌∷◌, ◌++◌,
  map, ◌==◌, ◌=ᵇ◌, if◌then◌else◌, any, filter, elem,
}
use slurm_web_plus.Prelude.Order.{sorted_set}
use slurm_web_plus.Prelude.Dict.{get, or_else}
use slurm_web_plus.Prelude.Result.{ok, err}
use slurm_web_plus.Prelude.SortBy.{sort_by}
use slurm_web_plus.Permission.Legacy.{LegacyMap}
use slurm_web_plus.RoleStore.{RoleRow, Tables, role_exists, Call, transaction, role_details}

abbrev pub has_id : ℕ → RoleRow → Bool
has_id role_id r = r.id =ᵇ role_id

abbrev pub has_name : String → RoleRow → Bool
has_name name r = r.name == name

-- `name = %s AND id != %s`, the second part only where an id is given.
abbrev pub clashes : String → Option ℕ → RoleRow → Bool
clashes name none r = has_name name r
clashes name (some role_id) r = has_name name r && not (has_id role_id r)

-- `_role_name_exists`.
unfoldable pub role_name_exists : String → Option ℕ → List RoleRow → Bool
unfolding any
role_name_exists name exclude_role_id roles = any (clashes name exclude_role_id) roles

-- `list_roles`: `ORDER BY name ASC` by the collation `name_le`.
unfoldable pub list_roles : LegacyMap → (String → String → Bool) → Tables → List RoleRow
unfolding sort_by role_details
list_roles legacy_map name_le t =
    map (role_details legacy_map) (sort_by (λ r s. name_le r.name s.name) t.roles)

-- What the caller gives for a role.
pub record RoleFields : Type 0 where
  pub name : String
  pub description : String
  pub actions : List String
  pub permissions : List String

-- `INSERT INTO roles ... RETURNING ...`.
unfoldable pub insert_role : ℕ → RoleFields → Tables → RoleRow × Tables
insert_role now f t =
    let row : RoleRow = record {
      id = t.next_role_id;
      name = f.name;
      description = f.description;
      actions = f.actions;
      permissions = f.permissions;
      created_at = now;
      updated_at = now;
    } in
    (row, record t { roles = row ∷ t.roles; next_role_id = suc t.next_role_id })

unfoldable pub create_role : LegacyMap → ℕ → RoleFields → Call RoleRow
unfolding role_name_exists insert_role role_details
create_role legacy_map now f = transaction λ t.
    if role_name_exists f.name none t.roles
    then (err (role_exists f.name), t)
    else let (row, t') = insert_role now f t in (ok (role_details legacy_map row), t')

-- `UPDATE roles SET ... WHERE id = %s`.
unfoldable pub update_row : ℕ → ℕ → RoleFields → RoleRow → RoleRow
update_row now role_id f r =
    if has_id role_id r
    then record r {
      name = f.name;
      description = f.description;
      actions = f.actions;
      permissions = f.permissions;
      updated_at = now;
    }
    else r

-- `RETURNING`: the row that has the id, if there is one.
unfoldable pub find_role : ℕ → List RoleRow → Option RoleRow
find_role role_id [] = none
find_role role_id (r ∷ rs) =
    let rest = find_role role_id rs in if has_id role_id r then some r else rest

abbrev pub map_option : {A B : Type 0} → (A → B) → Option A → Option B
map_option f none = none
map_option f (some a) = some (f a)

unfoldable pub update_role : LegacyMap → ℕ → ℕ → RoleFields → Call (Option RoleRow)
unfolding role_name_exists update_row find_role role_details
update_role legacy_map now role_id f = transaction λ t.
    if role_name_exists f.name (some role_id) t.roles
    then (err (role_exists f.name), t)
    else let roles = map (update_row now role_id f) t.roles in
      (
        ok (map_option (role_details legacy_map) (find_role role_id roles)),
        record t { roles = roles },
      )

-- `DELETE FROM roles WHERE id = %s`; `ON DELETE CASCADE` takes the rows of `user_roles` with it.
unfoldable pub delete_role : ℕ → Call Bool
unfolding any filter
delete_role role_id = transaction λ t. (
  ok (any (has_id role_id) t.roles),
  record t {
    roles = filter (λ r. not (has_id role_id r)) t.roles;
    user_roles = filter (λ m. not (m.role_id =ᵇ role_id)) t.user_roles;
  },
)

abbrev pub removed_role_actions : List String
removed_role_actions =
    "view-own-jobs" ∷ "edit-own-jobs" ∷ "cancel-own-jobs" ∷ "roles-view" ∷ "roles-manage"
    ∷ "manage-ai" ∷ []

-- The rules that `admin-manage` and `view-ai` add.
unfoldable pub kept_rules : LegacyMap → List String → List String
unfolding get
kept_rules legacy_map [] = []
kept_rules legacy_map (action ∷ actions) =
    let rest = kept_rules legacy_map actions in
    if action == "admin-manage" || action == "view-ai"
    then or_else [] (get action legacy_map) ++ rest
    else rest

-- `_normalized_role_actions_permissions`.
unfoldable pub normalized_role_actions_permissions :
    LegacyMap → List String → List String → List String × List String
unfolding filter elem kept_rules
normalized_role_actions_permissions legacy_map actions permissions = (
  sorted_set (filter (λ action. not (elem action removed_role_actions)) actions),
  sorted_set (permissions ++ kept_rules legacy_map actions),
)

abbrev pub eq_texts : List String → List String → Bool
eq_texts [] [] = true
eq_texts [] (y ∷ ys) = false
eq_texts (x ∷ xs) [] = false
eq_texts (x ∷ xs) (y ∷ ys) = x == y && eq_texts xs ys

-- One row of the migration: whether it is written, and the row then.
unfoldable pub normalize_row : LegacyMap → ℕ → RoleRow → Bool × RoleRow
unfolding normalized_role_actions_permissions
normalize_row legacy_map now r =
    let (actions, permissions) =
      normalized_role_actions_permissions legacy_map r.actions r.permissions in
    if eq_texts r.actions actions && eq_texts r.permissions permissions
    then (false, r)
    else (true, record r { actions = actions; permissions = permissions; updated_at = now })

unfoldable pub normalize_rows : LegacyMap → ℕ → List RoleRow → ℕ × List RoleRow
unfolding normalize_row
normalize_rows legacy_map now [] = (0, [])
normalize_rows legacy_map now (r ∷ rs) =
    let (written, r') = normalize_row legacy_map now r in
    let (updated, rs') = normalize_rows legacy_map now rs in
    (if written then updated + 1 else updated, r' ∷ rs')

unfoldable pub normalize_legacy_role_actions : LegacyMap → ℕ → Call ℕ
unfolding normalize_rows
normalize_legacy_role_actions legacy_map now = transaction λ t.
    let (updated, roles) = normalize_rows legacy_map now t.roles in
    (ok updated, record t { roles = roles })
