-- ===== src/RoleStore/Valid.antt =====
-- The invariant of the tables of slurmweb/persistence/access_control_store.py.
use slurm_web_plus.Prelude.{◌≤◌}
use slurm_web_plus.Prelude.Result.{Result, ok, err}
use slurm_web_plus.RoleStore.{Tables, Error, rollback, settle}
use slurm_web_plus.RoleStore.Rows.{
  RolesValid, UsersValid, MembersValid, RolesValid-mono, UsersValid-mono,
}

-- Ids and names of roles are unique, ids and names of users too, no assignment stands twice, and every
-- assignment is of a role that exists to a user that exists.
pub record IsValid (t : Tables) : Type 0 where
  pub roles_valid : RolesValid t.next_role_id t.roles
  pub users_valid : UsersValid t.next_user_id t.users
  pub members_valid : MembersValid t.roles t.users t.user_roles

-- What a block of statements does to valid tables: they stay valid, and the sequences do not go back.
abbrev pub Kept : Tables → Tables → Type 0
Kept t t' = IsValid t' × (t.next_role_id ≤ t'.next_role_id) × (t.next_user_id ≤ t'.next_user_id)

abbrev pub Keeps : {A : Type 0} → Tables → Result Error A × Tables → Type 0
Keeps t (r, t') = Kept t t'

rollback-IsValid :
    (t t' : Tables)
    → IsValid t
    → t.next_role_id ≤ t'.next_role_id
    → t.next_user_id ≤ t'.next_user_id
    → IsValid (rollback t t')
unfolding rollback
rollback-IsValid t t' v r u = record {
  roles_valid = RolesValid-mono t.next_role_id t'.next_role_id t.roles r v.roles_valid;
  users_valid = UsersValid-mono t.next_user_id t'.next_user_id t.users u v.users_valid;
  members_valid = v.members_valid;
}

-- A commit and a rollback keep the tables valid.
pub settle-Keeps :
    {A : Type 0} (t : Tables) (c : Result Error A × Tables)
    → IsValid t
    → Keeps t c
    → Keeps t (settle t c)
unfolding settle
settle-Keeps t (ok a, t') v k = k
settle-Keeps t (err e, t') v k = (rollback-IsValid t t' v k.1 k.2, k.1, k.2)
