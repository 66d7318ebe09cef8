-- ===== src/RoleStore/Assigning.antt =====
-- `set_user_roles` of slurmweb/persistence/access_control_store.py.
use Prim.Native.String.{String}
use slurm_web_plus.Prelude.{
  ℕ, suc, Bool, true, false, not, ◌||◌, Option, none, some, List, [], ◌∷◌, ◌++◌, map, ◌=ᵇ◌, ltb,
  if◌then◌else◌, filter, length,
}
use slurm_web_plus.Prelude.Result.{Result, ok, err}
use slurm_web_plus.Permission.Legacy.{LegacyMap}
use slurm_web_plus.RoleStore.{
  RoleRow, UserRow, Membership, Tables, Error, roles_not_found, Call, transaction,
}
use slurm_web_plus.RoleStore.Members.{UserRoles, find_user, get_user_roles, has_username}

abbrev pub touch_user : ℕ → String → UserRow → UserRow
touch_user now username u = if has_username username u then record u { updated_at = now } else u

abbrev pub new_user : ℕ → ℕ → String → UserRow
new_user now user_id username = record {
  id = user_id;
  username = username;
  fullname = none;
  groups = [];
  policy_roles = [];
  policy_actions = [];
  created_at = now;
  updated_at = now;
}

-- `INSERT ... ON CONFLICT (username) DO UPDATE ... RETURNING id`: the attempt takes an id from the
-- sequence on both branches.
abbrev pub upsert_user : ℕ → String → Tables → Option UserRow → ℕ × Tables
upsert_user now username t none = (
  t.next_user_id,
  record t {
    users = new_user now t.next_user_id username ∷ t.users;
    next_user_id = suc t.next_user_id;
  },
)
upsert_user now username t (some u) = (
  u.id,
  record t { users = map (touch_user now username) t.users; next_user_id = suc t.next_user_id },
)

-- `_ensure_user`.
unfoldable pub ensure_user : ℕ → String → Tables → ℕ × Tables
unfolding find_user
ensure_user now username t = upsert_user now username t (find_user username t.users)

unfoldable pub elem_id : ℕ → List ℕ → Bool
elem_id i [] = false
elem_id i (j ∷ js) = i =ᵇ j || elem_id i js

unfoldable pub insert_id : ℕ → List ℕ → List ℕ
insert_id i [] = i ∷ []
insert_id i (j ∷ js) =
    let rest = insert_id i js in if i =ᵇ j then j ∷ js else if ltb i j then i ∷ j ∷ js else j ∷ rest

-- `sorted(set(role_ids))`.
unfoldable pub sorted_ids : List ℕ → List ℕ
unfolding insert_id
sorted_ids [] = []
sorted_ids (i ∷ is) = insert_id i (sorted_ids is)

-- `_role_ids_exist`: `COUNT(*) ... WHERE id = ANY(...)` against the number of different ids.
unfoldable pub role_ids_exist : List ℕ → List RoleRow → Bool
unfolding filter elem_id sorted_ids
role_ids_exist [] roles = true
role_ids_exist (i ∷ is) roles =
    length (filter (λ r. elem_id r.id (i ∷ is)) roles) =ᵇ length (sorted_ids (i ∷ is))

abbrev pub memberships : ℕ → ℕ → List ℕ → List Membership
memberships now user_id [] = []
memberships now user_id (i ∷ is) =
    record { user_id = user_id; role_id = i; created_at = now } ∷ memberships now user_id is

-- `DELETE FROM user_roles WHERE user_id = %s`, then the rows of the ids.
unfoldable pub assign_roles : ℕ → ℕ → List ℕ → List Membership → List Membership
unfolding filter sorted_ids
assign_roles now user_id role_ids ms =
    memberships now user_id (sorted_ids role_ids) ++ filter (λ m. not (m.user_id =ᵇ user_id)) ms

unfoldable pub set_memberships : ℕ → String → List ℕ → Call (Unit {0})
unfolding ensure_user role_ids_exist assign_roles
set_memberships now username role_ids = transaction λ t.
    let (user_id, t') = ensure_user now username t in
    if role_ids_exist role_ids t'.roles
    then (ok tt, record t' { user_roles = assign_roles now user_id role_ids t'.user_roles })
    else (err roles_not_found, t')

-- What the call returns: the roles of the user after the commit.
unfoldable pub answer_roles :
    LegacyMap
    → (String → String → Bool)
    → String
    → Result Error (Unit {0})
    → Tables
    → Result Error (Option UserRoles)
unfolding get_user_roles
answer_roles legacy_map name_le username (ok done) t =
    ok (get_user_roles legacy_map name_le username t)
answer_roles legacy_map name_le username (err e) t = err e

unfoldable pub set_user_roles :
    LegacyMap → (String → String → Bool) → ℕ → String → List ℕ → Call (Option UserRoles)
unfolding set_memberships answer_roles
set_user_roles legacy_map name_le now username role_ids t =
    let (done, t') = set_memberships now username role_ids t in
    (answer_roles legacy_map name_le username done t', t')
