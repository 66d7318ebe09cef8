-- ===== src/RoleStore/Simulation.antt =====
-- Every call of the store of slurmweb/persistence/access_control_store.py against the specification.
use slurm_web_plus.Prelude.{
  ℕ, String, Bool, none, some, List, [], ◌∷◌, any, ◌⊎◌, refl, ◌∙◌, sym, inl, inr, arith, Bool-cases,
}
use slurm_web_plus.Prelude.Result.{Result, ok, err}
use slurm_web_plus.Permission.Rule as Rule
use slurm_web_plus.Permission.Legacy.{LegacyMap, permission_rules_to_legacy_actions}
use slurm_web_plus.Permission.Seed.{SeedRole, default_seed_roles}
use slurm_web_plus.RoleStore.{RoleRow, Tables, Error, Call, resume, rollback, settle}
use slurm_web_plus.RoleStore.Roles.{
  role_name_exists, RoleFields, insert_role, create_role, update_role, normalize_rows,
  normalize_legacy_role_actions,
}
use slurm_web_plus.RoleStore.Assigning.{set_memberships}
use slurm_web_plus.RoleStore.Seeding.{
  seed_fields, insert_first, insert_seeds, seed_table, seed_default_roles,
}
use slurm_web_plus.RoleStore.Rows.{SameRoles-has_id}
use slurm_web_plus.RoleStore.Valid.{IsValid}
use slurm_web_plus.RoleStore.Editing.{update_row-has_id, normalize_rows-same}
use slurm_web_plus.RoleStore.View.{View, view, Known, Granted, Removed, Extended, Unchanged}
use slurm_web_plus.RoleStore.Refines.{delete-Removed, set_memberships-Refines, rollback-Unchanged}
use slurm_web_plus.RoleStore.Rewrites.{Rewrites, apply-Rewrites}
use slurm_web_plus.RoleStore.Run.{
  Command, create, update, delete, assign, seed, normalize, apply, Reach, Reach-IsValid,
}

-- What the calls do to the sets of roles.
abbrev pub HasSets : Command → View → View → Type 0
HasSets (create now f) v w = Extended v w
HasSets (update now role_id f) v w = Unchanged v w
HasSets (delete role_id) v w = Removed role_id v w
HasSets (assign now name ids) v w =
    (Known ids v × Granted name ids v w) ⊎ ((Known ids v → ⊥) × Unchanged v w)
HasSets (seed now) v w = Extended v w
HasSets (normalize now) v w = Unchanged v w

-- The specification of the calls.
abbrev pub Refines : LegacyMap → Command → View → View → Type 0
Refines legacy_map c v w = HasSets c v w × Rewrites legacy_map c v w

insert_role-Extended :
    (now : ℕ) (f : RoleFields) (t : Tables) → Extended (view t) (view (insert_role now f t).1)
unfolding view insert_role any
insert_role-Extended now f t = (λ i h. ground (arith, h), λ username i. refl)

create_role-Extended :
    (legacy_map : LegacyMap) (now : ℕ) (f : RoleFields) (t : Tables)
    → Extended (view t) (view (create_role legacy_map now f t).1)
unfolding create_role settle
create_role-Extended legacy_map now f t = elim (Bool-cases (role_name_exists f.name none t.roles)) [
  | inl taken ↦ rw taken (refused t)
  | inr free ↦ rw free (insert_role-Extended now f t)
]
  where
    refused : (t : Tables) → Extended (view t) (view (rollback t t))
    refused t =
        let (same_known, same_held) = rollback-Unchanged t t in (λ i h. same_known i ∙ h, same_held)

update_role-Unchanged :
    (legacy_map : LegacyMap) (now role_id : ℕ) (f : RoleFields) (t : Tables)
    → Unchanged (view t) (view (update_role legacy_map now role_id f t).1)
unfolding view update_role settle
update_role-Unchanged legacy_map now role_id f t =
    elim (Bool-cases (role_name_exists f.name (some role_id) t.roles)) [
      | inl taken ↦ rw taken (rollback-Unchanged t t)
      | inr free ↦ rw free (λ i. update_row-has_id now role_id i f t.roles, λ username i. refl)
    ]

normalize-Unchanged :
    (legacy_map : LegacyMap) (now : ℕ) (t : Tables)
    → Unchanged (view t) (view (normalize_legacy_role_actions legacy_map now t).1)
unfolding view normalize_legacy_role_actions settle
normalize-Unchanged legacy_map now t = (
  λ i. sym (
      SameRoles-has_id i t.roles (normalize_rows legacy_map now t.roles).1
        (normalize_rows-same legacy_map now t.roles)),
  λ username i. refl,
)

Extended-trans : (u v w : View) → Extended u v → Extended v w → Extended u w
Extended-trans u v w h k = (λ i m. k.0 i (h.0 i m), λ username i. k.1 username i ∙ h.1 username i)

Extended-self : (v : View) → Extended v v
Extended-self v = (λ i h. h, λ username i. refl)

resume-Extended :
    {A B : Type 0} (t : Tables) (c : Result Error A × Tables) (f : A → Call B)
    → Extended (view t) (view c.1)
    → ((a : A) → Extended (view c.1) (view (f a c.1).1))
    → Extended (view t) (view (resume c f).1)
resume-Extended t (ok a, t') f k h = Extended-trans (view t) (view t') (view (f a t').1) k (h a)
resume-Extended t (err e, t') f k h = k

insert_first-Extended :
    (now : ℕ) (s : SeedRole) (actions : Result Rule.Error (List String)) (t : Tables)
    → Extended (view t) (view (insert_first now s actions t).1)
unfolding insert_first
insert_first-Extended now s (ok actions) t = insert_role-Extended now (seed_fields s actions) t
insert_first-Extended now s (err e) t = Extended-self (view t)

insert_seeds-Extended :
    (legacy_map : LegacyMap) (now : ℕ) (seeds : List SeedRole) (t : Tables)
    → Extended (view t) (view (insert_seeds legacy_map now seeds t).1)
unfolding insert_seeds
insert_seeds-Extended legacy_map now [] t = Extended-self (view t)
insert_seeds-Extended legacy_map now (s ∷ seeds) t =
    let actions : Result Rule.Error (List String) =
      permission_rules_to_legacy_actions s.permissions legacy_map in
    let t' : Tables = (insert_first now s actions t).1 in
    resume-Extended t (insert_first now s actions t) _ (insert_first-Extended now s actions t)
      λ row.
        resume-Extended t' (insert_seeds legacy_map now seeds t') _
          (insert_seeds-Extended legacy_map now seeds t')
          λ rows. Extended-self (view (insert_seeds legacy_map now seeds t').1)

seed_table-Extended :
    (legacy_map : LegacyMap) (now : ℕ) (seeds : Result Rule.Error (List SeedRole))
    (rows : List RoleRow) (t : Tables)
    → Extended (view t) (view (seed_table legacy_map now seeds rows t).1)
seed_table-Extended legacy_map now (err e) [] t = Extended-self (view t)
seed_table-Extended legacy_map now (ok seeds) [] t = insert_seeds-Extended legacy_map now seeds t
seed_table-Extended legacy_map now (err e) (r ∷ rows) t = Extended-self (view t)
seed_table-Extended legacy_map now (ok seeds) (r ∷ rows) t = Extended-self (view t)

settle-Extended :
    {A : Type 0} (t : Tables) (c : Result Error A × Tables)
    → Extended (view t) (view c.1)
    → Extended (view t) (view (settle t c).1)
unfolding settle
settle-Extended t (ok a, t') h = h
settle-Extended t (err e, t') h =
    let (same_known, same_held) = rollback-Unchanged t t' in (λ i m. same_known i ∙ m, same_held)

seed_default_roles-Extended :
    (legacy_map : LegacyMap) (now : ℕ) (t : Tables)
    → Extended (view t) (view (seed_default_roles legacy_map now t).1)
unfolding seed_default_roles
seed_default_roles-Extended legacy_map now t =
    settle-Extended t (seed_table legacy_map now default_seed_roles t.roles t)
      (seed_table-Extended legacy_map now default_seed_roles t.roles t)

granted :
    (now : ℕ) (name : String) (ids : List ℕ) (t : Tables)
    → IsValid t
    → let w = view (set_memberships now name ids t).1 in
      (Known ids (view t) × Granted name ids (view t) w)
      ⊎ ((Known ids (view t) → ⊥) × Unchanged (view t) w)
granted now name ids t v = elim (set_memberships-Refines now name ids t v) [
  | inl (_, known, g) ↦ inl (known, g)
  | inr (_, unknown, u) ↦ inr (unknown, u)
]

apply-HasSets :
    (legacy_map : LegacyMap) (name_le : String → String → Bool) (c : Command) {t : Tables}
    → Reach legacy_map name_le t
    → HasSets c (view t) (view (apply legacy_map name_le c t))
unfolding apply
apply-HasSets legacy_map name_le (create now f) {t} r = create_role-Extended legacy_map now f t
apply-HasSets legacy_map name_le (update now role_id f) {t} r =
    update_role-Unchanged legacy_map now role_id f t
apply-HasSets legacy_map name_le (delete role_id) {t} r = delete-Removed role_id t
apply-HasSets legacy_map name_le (assign now name ids) {t} r =
    granted now name ids t (Reach-IsValid legacy_map name_le r)
apply-HasSets legacy_map name_le (seed now) {t} r = seed_default_roles-Extended legacy_map now t
apply-HasSets legacy_map name_le (normalize now) {t} r = normalize-Unchanged legacy_map now t

-- Every call on tables that calls can lead to does what it is for. On the sets: creating and seeding
-- may add roles and change no user's roles; updating and normalising change neither; deleting takes
-- the one role from the table and from every user; assigning gives the user exactly the roles of the
-- call and leaves the others alone if all these roles exist, and otherwise changes nothing. On the
-- name, description, actions and permissions of the roles: creating adds one new role with those of
-- the call, and updating gives those of the call to the one role if it exists, unless the name is
-- taken, and then no role changes; deleting removes those of the one role; assigning changes none;
-- seeding changes none when there is a role; normalising normalises those of each role.
pub apply-Refines :
    (legacy_map : LegacyMap) (name_le : String → String → Bool) (c : Command) {t : Tables}
    → Reach legacy_map name_le t
    → Refines legacy_map c (view t) (view (apply legacy_map name_le c t))
apply-Refines legacy_map name_le c r =
    (apply-HasSets legacy_map name_le c r, apply-Rewrites legacy_map name_le c r)
