-- ===== src/RoleStore/Contents.antt =====
-- What the calls of slurmweb/persistence/access_control_store.py write into the roles.
use slurm_web_plus.Prelude.{
  ℕ, ◌<◌, String, true, not, ◌&&◌, Option, none, some, List, [], ◌∷◌, ◌==◌, ◌=ᵇ◌, if◌then◌else◌,
  any, filter, map, ◌≡◌, refl, ap, inl, inr, arith, eq_iff, Bool-cases,
}
use slurm_web_plus.Permission.Legacy.{LegacyMap}
use slurm_web_plus.RoleStore.{RoleRow}
use slurm_web_plus.RoleStore.Roles.{
  has_id, RoleFields, update_row, eq_texts, normalized_role_actions_permissions, normalize_row,
  normalize_rows, map_option,
}
use slurm_web_plus.RoleStore.Rows.{RolesValid}

-- The columns that a caller gives.
abbrev pub fields_of : RoleRow → RoleFields
fields_of r = record {
  name = r.name;
  description = r.description;
  actions = r.actions;
  permissions = r.permissions;
}

unfoldable pub content_of : ℕ → List RoleRow → Option RoleFields
content_of i [] = none
content_of i (r ∷ rs) = let rest = content_of i rs in if r.id =ᵇ i then some (fields_of r) else rest

pub updated-content :
    (now role_id i : ℕ) (f : RoleFields) (rs : List RoleRow)
    → content_of i (map (update_row now role_id f) rs)
      ≡ (if i =ᵇ role_id && any (has_id i) rs then some f else content_of i rs)
unfolding content_of update_row any
updated-content now role_id i f [] = ground arith
updated-content now role_id i f (r ∷ rs) = elim (Bool-cases (r.id =ᵇ role_id)) [
  | inl e ↦ ground (arith, e, updated-content now role_id i f rs)
  | inr e ↦ ground (arith, e, updated-content now role_id i f rs)
]

pub deleted-content :
    (role_id i : ℕ) (rs : List RoleRow)
    → content_of i (filter (λ r. not (has_id role_id r)) rs)
      ≡ (if i =ᵇ role_id then none else content_of i rs)
unfolding content_of filter
deleted-content role_id i [] = ground arith
deleted-content role_id i (r ∷ rs) = elim (Bool-cases (r.id =ᵇ role_id)) [
  | inl e ↦ rw e (ground (arith, e, deleted-content role_id i rs))
  | inr e ↦ rw e (ground (arith, e, deleted-content role_id i rs))
]

-- `_normalized_role_actions_permissions` on what a role has.
abbrev pub normalized : LegacyMap → RoleFields → RoleFields
normalized legacy_map f = record f {
  actions = (normalized_role_actions_permissions legacy_map f.actions f.permissions).0;
  permissions = (normalized_role_actions_permissions legacy_map f.actions f.permissions).1;
}

eq_texts-eq : (xs ys : List String) → eq_texts xs ys ≡ true → xs ≡ ys
eq_texts-eq [] [] h = refl
eq_texts-eq [] (y ∷ ys) h = cc (h)
eq_texts-eq (x ∷ xs) [] h = cc (h)
eq_texts-eq (x ∷ xs) (y ∷ ys) h = elim (Bool-cases (x == y)) [
  | inl e ↦ cc ((eq_iff x y).0 e, eq_texts-eq xs ys (rw e at h))
  | inr e ↦ cc (rw e at h)
]

normalize_row-fields :
    (legacy_map : LegacyMap) (now : ℕ) (r : RoleRow)
    → let r' = (normalize_row legacy_map now r).1 in
      (r'.id ≡ r.id) × (fields_of r' ≡ normalized legacy_map (fields_of r))
unfolding normalize_row
normalize_row-fields legacy_map now r =
    let (actions, permissions) =
      normalized_role_actions_permissions legacy_map r.actions r.permissions in
    elim (Bool-cases (eq_texts r.actions actions)) [
      | inr e ↦ rw e (refl, refl)
      | inl e ↦ elim (Bool-cases (eq_texts r.permissions permissions)) [
        | inr f ↦ rw (e, f) (refl, refl)
        | inl f ↦
            rw (e, f)
              (refl, cc (eq_texts-eq r.actions actions e, eq_texts-eq r.permissions permissions f))
      ]
    ]

pub normalized-content :
    (legacy_map : LegacyMap) (now i : ℕ) (rs : List RoleRow)
    → content_of i (normalize_rows legacy_map now rs).1
      ≡ map_option (normalized legacy_map) (content_of i rs)
unfolding content_of normalize_rows
normalized-content legacy_map now i [] = refl
normalized-content legacy_map now i (r ∷ rs) =
    let r' : RoleRow = (normalize_row legacy_map now r).1 in
    let (same_id, same) = normalize_row-fields legacy_map now r in
    elim (Bool-cases (r.id =ᵇ i)) [
      | inl e ↦ rw (same_id, e) (ap some same)
      | inr e ↦ rw (same_id, e) (normalized-content legacy_map now i rs)
    ]

-- The next id is not taken.
pub next_unknown :
    (next : ℕ) (rs : List RoleRow) (i : ℕ)
    → RolesValid next rs
    → any (has_id i) rs ≡ true
    → i < next
unfolding any
next_unknown next [] i v h = cc (h)
next_unknown next (r ∷ rs) i v h = elim (Bool-cases (r.id =ᵇ i)) [
  | inl e ↦ ground (arith, e, v.0)
  | inr e ↦ next_unknown next rs i v.2 (ground (arith, e, h))
]
