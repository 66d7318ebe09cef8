-- ===== src/RoleStore/Rewrites.antt =====
-- What each call of slurmweb/persistence/access_control_store.py does to the columns of the roles.
use slurm_web_plus.Prelude.{
  ℕ, String, Bool, true, false, ◌&&◌, none, some, List, [], ◌∷◌, ◌=ᵇ◌, if◌then◌else◌, any, ◌≡◌,
  refl, inl, inr, ◌⊎◌, arith, Bool-cases,
}
use slurm_web_plus.Prelude.Result.{Result, ok, err}
use slurm_web_plus.Permission.Rule as Rule
use slurm_web_plus.Permission.Legacy.{LegacyMap}
use slurm_web_plus.Permission.Seed.{SeedRole, default_seed_roles}
use slurm_web_plus.RoleStore.{RoleRow, Tables, settle, rollback}
use slurm_web_plus.RoleStore.Roles.{
  has_id, map_option, role_name_exists, RoleFields, insert_role, create_role, update_role,
  delete_role, normalize_legacy_role_actions,
}
use slurm_web_plus.RoleStore.Assigning.{role_ids_exist, ensure_user, set_memberships}
use slurm_web_plus.RoleStore.Seeding.{seed_table, seed_default_roles}
use slurm_web_plus.RoleStore.Valid.{IsValid}
use slurm_web_plus.RoleStore.Contents.{
  content_of, updated-content, deleted-content, normalized, normalized-content, next_unknown,
}
use slurm_web_plus.RoleStore.Refines.{ensure_user-rest}
use slurm_web_plus.RoleStore.View.{View, view}
use slurm_web_plus.RoleStore.Run.{
  Command, create, update, delete, assign, seed, normalize, apply, Reach, Reach-IsValid,
}

abbrev pub SameContent : View → View → Type 0
SameContent v w = (i : ℕ) → w.content i ≡ v.content i

-- One new role, with the fields of the call.
abbrev pub Created : RoleFields → View → View → Type 0
Created f v w =
    (new : ℕ) × (v.known new ≡ false)
    × (w.known new ≡ true)
    × ((i : ℕ) → w.content i ≡ (if i =ᵇ new then some f else v.content i))

-- A call with a name that is taken changes no role.
abbrev pub Rewrites : LegacyMap → Command → View → View → Type 0
Rewrites legacy_map (create now f) v w =
    ((v.taken f.name none ≡ true) × SameContent v w)
    ⊎ ((v.taken f.name none ≡ false) × Created f v w)
Rewrites legacy_map (update now role_id f) v w =
    ((v.taken f.name (some role_id) ≡ true) × SameContent v w)
    ⊎ ((v.taken f.name (some role_id) ≡ false)
        × ((i : ℕ) → w.content i ≡ (if i =ᵇ role_id && v.known i then some f else v.content i)))
Rewrites legacy_map (delete role_id) v w =
    (i : ℕ) → w.content i ≡ (if i =ᵇ role_id then none else v.content i)
Rewrites legacy_map (assign now name ids) v w = SameContent v w
Rewrites legacy_map (seed now) v w = (i : ℕ) → v.known i ≡ true → SameContent v w
Rewrites legacy_map (normalize now) v w =
    (i : ℕ) → w.content i ≡ map_option (normalized legacy_map) (v.content i)

rollback-SameContent : (t t' : Tables) → SameContent (view t) (view (rollback t t'))
unfolding view rollback
rollback-SameContent t t' i = refl

inserted-Created :
    (now : ℕ) (f : RoleFields) (t : Tables)
    → IsValid t
    → Created f (view t) (view (insert_role now f t).1)
unfolding view insert_role any content_of
inserted-Created now f t valid = (
  t.next_role_id,
  unknown,
  ground arith,
  λ i. elim (Bool-cases (i =ᵇ t.next_role_id)) [
    | inl e ↦ ground (arith, e)
    | inr e ↦ ground (arith, e)
  ],
)
  where
    unknown : any (has_id t.next_role_id) t.roles ≡ false
    unknown = elim (Bool-cases (any (has_id t.next_role_id) t.roles)) [
      | inl e ↦
          ground (arith, next_unknown t.next_role_id t.roles t.next_role_id valid.roles_valid e)
      | inr e ↦ e
    ]

create_role-Rewrites :
    (legacy_map : LegacyMap) (now : ℕ) (f : RoleFields) (t : Tables)
    → IsValid t
    → Rewrites legacy_map (create now f) (view t) (view (create_role legacy_map now f t).1)
unfolding view create_role settle
create_role-Rewrites legacy_map now f t valid =
    elim (Bool-cases (role_name_exists f.name none t.roles)) [
      | inl e ↦ rw e (inl (refl, rollback-SameContent t t))
      | inr e ↦ rw e (inr (refl, inserted-Created now f t valid))
    ]

update_role-Rewrites :
    (legacy_map : LegacyMap) (now role_id : ℕ) (f : RoleFields) (t : Tables)
    → Rewrites legacy_map
        (update now role_id f)
        (view t)
        (view (update_role legacy_map now role_id f t).1)
unfolding view update_role settle
update_role-Rewrites legacy_map now role_id f t =
    elim (Bool-cases (role_name_exists f.name (some role_id) t.roles)) [
      | inl e ↦ rw e (inl (refl, rollback-SameContent t t))
      | inr e ↦ rw e (inr (refl, λ i. updated-content now role_id i f t.roles))
    ]

assign-SameContent :
    (now : ℕ) (name : String) (ids : List ℕ) (t : Tables)
    → SameContent (view t) (view (set_memberships now name ids t).1)
unfolding view set_memberships settle
assign-SameContent now name ids t i =
    elim (Bool-cases (role_ids_exist ids (ensure_user now name t).1.roles)) [
      | inl e ↦ rw e (rw ((ensure_user-rest now name t).0) refl)
      | inr e ↦ rw e (rollback-SameContent t (ensure_user now name t).1 i)
    ]

seed_table-SameContent :
    (legacy_map : LegacyMap) (now : ℕ) (seeds : Result Rule.Error (List SeedRole)) (i : ℕ)
    (rows : List RoleRow) (t : Tables)
    → any (has_id i) rows ≡ true
    → SameContent (view t) (view (settle t (seed_table legacy_map now seeds rows t)).1)
unfolding any settle
seed_table-SameContent legacy_map now (err e) i [] t h = cc
seed_table-SameContent legacy_map now (ok seeds) i [] t h = cc
seed_table-SameContent legacy_map now (err e) i (r ∷ rows) t h = rollback-SameContent t t
seed_table-SameContent legacy_map now (ok seeds) i (r ∷ rows) t h = λ j. refl

seed-Rewrites :
    (legacy_map : LegacyMap) (now : ℕ) (t : Tables)
    → Rewrites legacy_map (seed now) (view t) (view (seed_default_roles legacy_map now t).1)
unfolding view seed_default_roles
seed-Rewrites legacy_map now t i h =
    seed_table-SameContent legacy_map now default_seed_roles i t.roles t h

delete_role-Rewrites :
    (legacy_map : LegacyMap) (role_id : ℕ) (t : Tables)
    → Rewrites legacy_map (delete role_id) (view t) (view (delete_role role_id t).1)
unfolding view delete_role settle
delete_role-Rewrites legacy_map role_id t i = deleted-content role_id i t.roles

normalize-Rewrites :
    (legacy_map : LegacyMap) (now : ℕ) (t : Tables)
    → Rewrites legacy_map
        (normalize now)
        (view t)
        (view (normalize_legacy_role_actions legacy_map now t).1)
unfolding view normalize_legacy_role_actions settle
normalize-Rewrites legacy_map now t i = normalized-content legacy_map now i t.roles

pub apply-Rewrites :
    (legacy_map : LegacyMap) (name_le : String → String → Bool) (c : Command) {t : Tables}
    → Reach legacy_map name_le t
    → Rewrites legacy_map c (view t) (view (apply legacy_map name_le c t))
unfolding apply
apply-Rewrites legacy_map name_le (create now f) {t} r =
    create_role-Rewrites legacy_map now f t (Reach-IsValid legacy_map name_le r)
apply-Rewrites legacy_map name_le (update now role_id f) {t} r =
    update_role-Rewrites legacy_map now role_id f t
apply-Rewrites legacy_map name_le (delete role_id) {t} r = delete_role-Rewrites legacy_map role_id t
apply-Rewrites legacy_map name_le (assign now name ids) {t} r = assign-SameContent now name ids t
apply-Rewrites legacy_map name_le (seed now) {t} r = seed-Rewrites legacy_map now t
apply-Rewrites legacy_map name_le (normalize now) {t} r = normalize-Rewrites legacy_map now t
