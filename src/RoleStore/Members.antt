-- ===== src/RoleStore/Members.antt =====
-- The roles, actions and rules of users, in slurmweb/persistence/access_control_store.py.
use Prim.Native.String
use Prim.Native.String.{String}
use slurm_web_plus.Prelude.{
  ℕ, zero, suc, ◌*◌, Bool, ◌||◌, Option, none, some, List, [], ◌∷◌, ◌++◌, map, ◌==◌, ◌=ᵇ◌,
  if◌then◌else◌, filter, length, take, drop,
}
use slurm_web_plus.Prelude.Order.{sorted_set}
use slurm_web_plus.Prelude.Result.{Result, ok, err}
use slurm_web_plus.Prelude.SortBy.{sort_by}
use slurm_web_plus.Permission.Legacy.{LegacyMap}
use slurm_web_plus.RoleStore.{
  RoleRow, UserRow, Membership, Tables, Error, negative_offset, derive_permissions,
}
use slurm_web_plus.RoleStore.Roles.{find_role}

-- A member of the JSON array `custom_roles`.
pub record RoleSummary : Type 0 where
  pub id : ℕ
  pub name : String
  pub description : String
  pub actions : List String
  pub permissions : List String

-- The dictionary that `get_user_roles` and `list_users` give for a user.
pub record UserRoles : Type 0 where
  pub username : String
  pub fullname : Option String
  pub policy_roles : List String
  pub policy_actions : List String
  pub custom_roles : List RoleSummary
  pub custom_actions : List String

abbrev pub has_username : String → UserRow → Bool
has_username username u = u.username == username

unfoldable pub find_user : String → List UserRow → Option UserRow
find_user username [] = none
find_user username (u ∷ us) =
    let rest = find_user username us in if has_username username u then some u else rest

abbrev pub add_some {ℓ} : {A : Type ℓ} → Option A → List A → List A
add_some none xs = xs
add_some (some x) xs = x ∷ xs

-- `user_roles ur JOIN roles r ON r.id = ur.role_id`, for one user.
unfoldable pub joined : List RoleRow → ℕ → List Membership → List RoleRow
unfolding find_role
joined roles user_id [] = []
joined roles user_id (m ∷ ms) =
    let rest = joined roles user_id ms in
    if m.user_id =ᵇ user_id then add_some (find_role m.role_id roles) rest else rest

-- `set.update(...)` for each row. A set is a list of its members, in some order.
abbrev pub all_of : (RoleRow → List String) → List RoleRow → List String
all_of f [] = []
all_of f (r ∷ rs) = f r ++ all_of f rs

unfoldable pub rules_of : LegacyMap → RoleRow → List String
unfolding derive_permissions
rules_of legacy_map r = derive_permissions legacy_map r.actions r.permissions

-- The rows of the query, `ORDER BY r.name ASC` by the collation `name_le`.
unfoldable pub roles_of : (String → String → Bool) → Tables → Option UserRow → List RoleRow
unfolding sort_by joined
roles_of name_le t none = []
roles_of name_le t (some u) =
    sort_by (λ r s. name_le r.name s.name) (joined t.roles u.id t.user_roles)

-- `user_permissions`: the names, the actions and the rules of a user's roles.
unfoldable pub user_permissions :
    LegacyMap → (String → String → Bool) → String → Tables → List String × List String × List String
unfolding find_user roles_of rules_of
user_permissions legacy_map name_le username t =
    let rows = roles_of name_le t (find_user username t.users) in
    (map (λ r. r.name) rows, all_of (λ r. r.actions) rows, all_of (rules_of legacy_map) rows)

unfoldable pub summary : LegacyMap → RoleRow → RoleSummary
unfolding rules_of
summary legacy_map r = record {
  id = r.id;
  name = r.name;
  description = r.description;
  actions = r.actions;
  permissions = rules_of legacy_map r;
}

-- The dictionary of a user, as both queries build it.
unfoldable pub user_details : LegacyMap → (String → String → Bool) → Tables → UserRow → UserRoles
unfolding roles_of summary
user_details legacy_map name_le t u =
    let rows = roles_of name_le t (some u) in
    record {
      username = u.username;
      fullname = u.fullname;
      policy_roles = u.policy_roles;
      policy_actions = u.policy_actions;
      custom_roles = map (summary legacy_map) rows;
      custom_actions = sorted_set (all_of (λ r. r.actions) rows);
    }

unfoldable pub details_of :
    LegacyMap → (String → String → Bool) → Tables → Option UserRow → Option UserRoles
unfolding user_details
details_of legacy_map name_le t none = none
details_of legacy_map name_le t (some u) = some (user_details legacy_map name_le t u)

-- `get_user_roles`, with the query of `_user_roles_detail`.
unfoldable pub get_user_roles :
    LegacyMap → (String → String → Bool) → String → Tables → Option UserRoles
unfolding find_user details_of
get_user_roles legacy_map name_le username t =
    details_of legacy_map name_le t (find_user username t.users)

-- What `list_users` returns.
pub record UserPage : Type 0 where
  pub items : List UserRoles
  pub total : ℕ
  pub page : ℕ
  pub page_size : ℕ

-- `(page - 1) * page_size`, which the database refuses when it is negative.
abbrev pub offset_of : ℕ → ℕ → Option ℕ
offset_of zero zero = some 0
offset_of zero (suc n) = none
offset_of (suc p) n = some (p * n)

-- `if username: filters.append("u.username ILIKE %s")`, where `ilike` is the operator of the
-- database, and a name that is not given is the empty text.
abbrev pub user_filter : (String → String → Bool) → String → UserRow → Bool
user_filter ilike username u =
    username == "" || ilike u.username (String.◌++◌ (String.◌++◌ "%" username) "%")

unfoldable pub page_of :
    LegacyMap
    → (String → String → Bool)
    → Tables
    → List UserRow
    → ℕ
    → ℕ
    → Option ℕ
    → Result Error UserPage
unfolding user_details sort_by
page_of legacy_map name_le t found page page_size none = err negative_offset
page_of legacy_map name_le t found page page_size (some offset) = ok (record {
  items =
      map (user_details legacy_map name_le t)
        (take page_size (drop offset (sort_by (λ u v. name_le u.username v.username) found)));
  total = length found;
  page = page;
  page_size = page_size;
})

unfoldable pub list_users :
    LegacyMap
    → (String → String → Bool)
    → (String → String → Bool)
    → String
    → ℕ
    → ℕ
    → Tables
    → Result Error UserPage
unfolding filter page_of
list_users legacy_map name_le ilike username page page_size t =
    page_of legacy_map name_le t (filter (user_filter ilike username) t.users) page page_size
      (offset_of page page_size)
