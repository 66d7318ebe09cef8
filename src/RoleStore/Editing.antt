-- ===== src/RoleStore/Editing.antt =====
-- The operations on roles of slurmweb/persistence/access_control_store.py keep the tables valid.
use slurm_web_plus.Prelude.{
  ℕ, suc, ◌<◌, ◌≤◌, String, true, false, not, Option, none, some, List, [], ◌∷◌, map, ◌=ᵇ◌, any,
  filter, All, ◌≡◌, refl, ◌∙◌, sym, inl, inr, arith, eq_iff, Bool-cases,
}
use slurm_web_plus.Permission.Legacy.{LegacyMap}
use slurm_web_plus.RoleStore.{RoleRow, UserRow, Membership, Tables, settle}
use slurm_web_plus.RoleStore.Roles.{
  has_id, role_name_exists, RoleFields, insert_role, create_role, update_row, update_role,
  delete_role, normalize_row, normalize_rows, normalize_legacy_role_actions,
}
use slurm_web_plus.RoleStore.Rows.{
  Differs, RolesValid, MembersValid, SameRoles, SameRoles-RolesValid, SameRoles-has_id,
  RolesValid-mono, MembersValid-mono, All-filter, filter-RolesValid,
}
use slurm_web_plus.RoleStore.Valid.{IsValid, Keeps, settle-Keeps}

below_differ :
    (f : RoleFields) (next now : ℕ) (r : RoleRow) (rs : List RoleRow)
    → r.id ≡ next
    → r.name ≡ f.name
    → RolesValid next rs
    → role_name_exists f.name none rs ≡ false
    → All (Differs r) rs
unfolding role_name_exists
below_differ f next now r [] e n v free = tt
below_differ f next now r (s ∷ rs) e n v free = (
  ground (arith, e, n, v.0, free, eq_iff r.name s.name, eq_iff s.name f.name),
  below_differ f next now r rs e n v.2 (ground (arith, free)),
)

more_roles :
    (r : RoleRow) (rs : List RoleRow) (i : ℕ)
    → any (has_id i) rs ≡ true
    → any (has_id i) (r ∷ rs) ≡ true
unfolding any
more_roles r rs i h = ground (arith, h)

-- A role with a new name is inserted.
pub insert_role-IsValid :
    (now : ℕ) (f : RoleFields) (t : Tables)
    → IsValid t
    → role_name_exists f.name none t.roles ≡ false
    → IsValid (insert_role now f t).1
unfolding insert_role
insert_role-IsValid now f t v free = record {
  roles_valid = (
    omega arith,
    below_differ f t.next_role_id now (insert_role now f t).0 t.roles refl refl v.roles_valid free,
    RolesValid-mono t.next_role_id (suc t.next_role_id) t.roles (omega arith) v.roles_valid,
  );
  users_valid = v.users_valid;
  members_valid =
      MembersValid-mono t.roles ((insert_role now f t).0 ∷ t.roles) t.users t.users t.user_roles
        (more_roles (insert_role now f t).0 t.roles) (λ i h. h) v.members_valid;
}

pub insert_role-next :
    (now : ℕ) (f : RoleFields) (t : Tables)
    → (t.next_role_id ≤ (insert_role now f t).1.next_role_id)
      × (t.next_user_id ≤ (insert_role now f t).1.next_user_id)
unfolding insert_role
insert_role-next now f t = omega arith

pub create_role-Keeps :
    (legacy_map : LegacyMap) (now : ℕ) (f : RoleFields) (t : Tables)
    → IsValid t
    → Keeps t (create_role legacy_map now f t)
unfolding create_role
create_role-Keeps legacy_map now f t v =
    settle-Keeps t _ v (elim (Bool-cases (role_name_exists f.name none t.roles)) [
      | inl taken ↦ rw taken (v, omega arith, omega arith)
      | inr free ↦ rw free (insert_role-IsValid now f t v free, omega arith, omega arith)
    ])

update_row-Differs :
    (now role_id : ℕ) (f : RoleFields) (r : RoleRow) (rs : List RoleRow)
    → role_name_exists f.name (some role_id) (r ∷ rs) ≡ false
    → All (Differs r) rs
    → All (Differs (update_row now role_id f r)) (map (update_row now role_id f) rs)
unfolding role_name_exists update_row
update_row-Differs now role_id f r [] free h = tt
update_row-Differs now role_id f r (s ∷ rs) free h = (
  ground (arith, free, h.0, eq_iff f.name s.name, eq_iff s.name f.name, eq_iff r.name f.name),
  update_row-Differs now role_id f r rs (ground (arith, free)) h.1,
)

update_row-below :
    (now role_id next : ℕ) (f : RoleFields) (r : RoleRow)
    → r.id < next
    → (update_row now role_id f r).id < next
unfolding update_row
update_row-below now role_id next f r h = ground arith

exists-tail :
    (name : String) (exclude : Option ℕ) (r : RoleRow) (rs : List RoleRow)
    → role_name_exists name exclude (r ∷ rs) ≡ false
    → role_name_exists name exclude rs ≡ false
unfolding role_name_exists
exists-tail name exclude r rs h = ground arith

update_row-RolesValid :
    (now role_id next : ℕ) (f : RoleFields) (rs : List RoleRow)
    → role_name_exists f.name (some role_id) rs ≡ false
    → RolesValid next rs
    → RolesValid next (map (update_row now role_id f) rs)
update_row-RolesValid now role_id next f [] free h = tt
update_row-RolesValid now role_id next f (r ∷ rs) free h = (
  update_row-below now role_id next f r h.0,
  update_row-Differs now role_id f r rs free h.1,
  update_row-RolesValid now role_id next f rs (exists-tail f.name (some role_id) r rs free) h.2,
)

pub update_row-has_id :
    (now role_id i : ℕ) (f : RoleFields) (rs : List RoleRow)
    → any (has_id i) (map (update_row now role_id f) rs) ≡ any (has_id i) rs
unfolding any update_row
update_row-has_id now role_id i f [] = refl
update_row-has_id now role_id i f (r ∷ rs) = ground (arith, update_row-has_id now role_id i f rs)

pub update_role-Keeps :
    (legacy_map : LegacyMap) (now role_id : ℕ) (f : RoleFields) (t : Tables)
    → IsValid t
    → Keeps t (update_role legacy_map now role_id f t)
unfolding update_role
update_role-Keeps legacy_map now role_id f t v =
    settle-Keeps t _ v (elim (Bool-cases (role_name_exists f.name (some role_id) t.roles)) [
      | inl taken ↦ rw taken (v, omega arith, omega arith)
      | inr free ↦ rw free (
        record {
          roles_valid =
              update_row-RolesValid now role_id t.next_role_id f t.roles free v.roles_valid;
          users_valid = v.users_valid;
          members_valid =
              MembersValid-mono t.roles (map (update_row now role_id f) t.roles) t.users t.users
                t.user_roles (λ i h. update_row-has_id now role_id i f t.roles ∙ h) (λ i h. h)
                v.members_valid;
        },
        omega arith,
        omega arith,
      )
    ])

-- A role that is not deleted stays.
filter-has_id :
    (role_id i : ℕ) (rs : List RoleRow)
    → (i =ᵇ role_id) ≡ false
    → any (has_id i) (filter (λ r. not (has_id role_id r)) rs) ≡ any (has_id i) rs
unfolding any filter
filter-has_id role_id i [] ne = refl
filter-has_id role_id i (r ∷ rs) ne = ground (arith, filter-has_id role_id i rs ne)

-- The assignments that are left refer to roles that are left.
delete-MembersValid :
    (role_id : ℕ) (roles : List RoleRow) (users : List UserRow) (ms : List Membership)
    → MembersValid roles users ms
    → MembersValid
        (filter (λ r. not (has_id role_id r)) roles)
        users
        (filter (λ m. not (m.role_id =ᵇ role_id)) ms)
unfolding filter
delete-MembersValid role_id roles users [] h = tt
delete-MembersValid role_id roles users (m ∷ ms) h = elim (Bool-cases (m.role_id =ᵇ role_id)) [
  | inl e ↦ rw e (delete-MembersValid role_id roles users ms h.3)
  | inr e ↦ rw e (
    filter-has_id role_id m.role_id roles e ∙ h.0,
    h.1,
    All-filter _ (λ n. not (n.role_id =ᵇ role_id)) ms h.2,
    delete-MembersValid role_id roles users ms h.3,
  )
]

pub delete_role-Keeps : (role_id : ℕ) (t : Tables) → IsValid t → Keeps t (delete_role role_id t)
unfolding delete_role settle
delete_role-Keeps role_id t v = (
  record {
    roles_valid =
        filter-RolesValid (λ r. not (has_id role_id r)) t.next_role_id t.roles v.roles_valid;
    users_valid = v.users_valid;
    members_valid = delete-MembersValid role_id t.roles t.users t.user_roles v.members_valid;
  },
  omega arith,
  omega arith,
)

normalize_row-same :
    (legacy_map : LegacyMap) (now : ℕ) (r : RoleRow)
    → let r' = (normalize_row legacy_map now r).1 in (r.id ≡ r'.id) × (r.name ≡ r'.name)
unfolding normalize_row
normalize_row-same legacy_map now r = ground arith

pub normalize_rows-same :
    (legacy_map : LegacyMap) (now : ℕ) (rs : List RoleRow)
    → SameRoles rs (normalize_rows legacy_map now rs).1
unfolding normalize_rows
normalize_rows-same legacy_map now [] = tt
normalize_rows-same legacy_map now (r ∷ rs) = (
  (normalize_row-same legacy_map now r).0,
  (normalize_row-same legacy_map now r).1,
  normalize_rows-same legacy_map now rs,
)

pub normalize_legacy_role_actions-Keeps :
    (legacy_map : LegacyMap) (now : ℕ) (t : Tables)
    → IsValid t
    → Keeps t (normalize_legacy_role_actions legacy_map now t)
unfolding normalize_legacy_role_actions settle
normalize_legacy_role_actions-Keeps legacy_map now t v =
    let rows : List RoleRow = (normalize_rows legacy_map now t.roles).1 in
    let same : SameRoles t.roles rows = normalize_rows-same legacy_map now t.roles in
    (
      record {
        roles_valid = SameRoles-RolesValid t.next_role_id t.roles rows same v.roles_valid;
        users_valid = v.users_valid;
        members_valid =
            MembersValid-mono t.roles rows t.users t.users t.user_roles
              (λ i h. sym (SameRoles-has_id i t.roles rows same) ∙ h) (λ i h. h) v.members_valid;
      },
      omega arith,
      omega arith,
    )
