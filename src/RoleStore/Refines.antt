-- ===== src/RoleStore/Refines.antt =====
-- `set_user_roles` and `delete_role` of slurmweb/persistence/access_control_store.py against what
-- they are for.
use slurm_web_plus.Prelude.{
  ℕ, String, true, false, not, ◌&&◌, Option, none, some, List, [], ◌∷◌, ◌==◌, ◌=ᵇ◌, any, filter,
  ◌≡◌, ◌⊎◌, ◌↔◌, refl, ◌∙◌, ap, inl, inr, arith, eq_refl, Bool-cases, Option-cases, =ᵇ_iff,
}
use slurm_web_plus.Prelude.Result.{ok, err}
use slurm_web_plus.RoleStore.{
  RoleRow, UserRow, Membership, Tables, roles_not_found, rollback, settle,
}
use slurm_web_plus.RoleStore.Roles.{has_id, delete_role}
use slurm_web_plus.RoleStore.Members.{find_user}
use slurm_web_plus.RoleStore.Assigning.{
  ensure_user, elem_id, role_ids_exist, assign_roles, set_memberships,
}
use slurm_web_plus.RoleStore.Valid.{IsValid}
use slurm_web_plus.RoleStore.Counting.{role_ids_exist_iff}
use slurm_web_plus.RoleStore.Granting.{ensure_user-IsValid}
use slurm_web_plus.RoleStore.Assigned.{
  id_of, holds, is_of-assign_roles, is_of-deleted, id_of-ensure_user, ids_differ,
}
use slurm_web_plus.RoleStore.View.{view, Known, Granted, Removed, Unchanged}

filter-known :
    (role_id i : ℕ) (rs : List RoleRow)
    → any (has_id i) (filter (λ r. not (has_id role_id r)) rs)
      ≡ (not (i =ᵇ role_id) && any (has_id i) rs)
unfolding any filter
filter-known role_id i [] = ground arith
filter-known role_id i (r ∷ rs) = ground (arith, filter-known role_id i rs)

holds-deleted :
    (user : Option ℕ) (role_id i : ℕ) (ms : List Membership)
    → holds user i (filter (λ m. not (m.role_id =ᵇ role_id)) ms)
      ≡ (not (i =ᵇ role_id) && holds user i ms)
unfolding holds
holds-deleted none role_id i ms = ground arith
holds-deleted (some user_id) role_id i ms = is_of-deleted role_id user_id i ms

pub delete-Removed :
    (role_id : ℕ) (t : Tables) → Removed role_id (view t) (view (delete_role role_id t).1)
unfolding view delete_role settle
delete-Removed role_id t = (
  λ i. filter-known role_id i t.roles,
  λ username i. holds-deleted (id_of (find_user username t.users)) role_id i t.user_roles,
)

-- What one user has after the rows of another, or the same, are replaced.
holds-assign_roles :
    (now user_id i : ℕ) (ids : List ℕ) (ms : List Membership) (user : Option ℕ)
    → ((v : ℕ) → user ≡ some v → (user_id =ᵇ v) ≡ false)
    → holds user i (assign_roles now user_id ids ms) ≡ holds user i ms
unfolding holds
holds-assign_roles now user_id i ids ms none apart = refl
holds-assign_roles now user_id i ids ms (some v) apart =
    is_of-assign_roles now user_id v i ids ms ∙ rw (apart v refl) refl

holds-assign_roles_self :
    (now user_id i : ℕ) (ids : List ℕ) (ms : List Membership)
    → holds (some user_id) i (assign_roles now user_id ids ms) ≡ elem_id i ids
unfolding holds
holds-assign_roles_self now user_id i ids ms =
    is_of-assign_roles now user_id user_id i ids ms ∙ rw ((=ᵇ_iff user_id user_id).1 refl) refl

-- `_ensure_user` touches neither roles nor assignments.
pub ensure_user-rest :
    (now : ℕ) (name : String) (t : Tables)
    → let t' = (ensure_user now name t).1 in (t'.roles ≡ t.roles) × (t'.user_roles ≡ t.user_roles)
unfolding ensure_user
ensure_user-rest now name t = elim (Option-cases (find_user name t.users)) [
  | inl e ↦ rw e (refl, refl)
  | inr (u, e) ↦ rw e (refl, refl)
]

found_id :
    (us : List UserRow) (username : String) (i : ℕ)
    → id_of (find_user username us) ≡ some i
    → (u : UserRow) × (find_user username us ≡ some u) × (u.id ≡ i)
found_id us username i h = elim (Option-cases (find_user username us)) [
  | inl e ↦ absurd (cc (h, ap id_of e))
  | inr (u, e) ↦ (u, e, found (find_user username us) u e h)
]
  where
    found : (o : Option UserRow) (u : UserRow) → o ≡ some u → id_of o ≡ some i → u.id ≡ i
    found none u e h = cc
    found (some v) u e h = cc

ensured_same :
    (now : ℕ) (name username : String) (t : Tables)
    → (name == username) ≡ true
    → let (user_id, t') = ensure_user now name t in
      id_of (find_user username t'.users) ≡ some user_id
ensured_same now name username t e = id_of-ensure_user now name username t ∙ rw e refl

ensured_other :
    (now : ℕ) (name username : String) (t : Tables)
    → (name == username) ≡ false
    → let (user_id, t') = ensure_user now name t in
      id_of (find_user username t'.users) ≡ id_of (find_user username t.users)
ensured_other now name username t e = id_of-ensure_user now name username t ∙ rw e refl

others_apart :
    (now : ℕ) (name username : String) (t : Tables)
    → IsValid t
    → (name == username) ≡ false
    → let (user_id, t') = ensure_user now name t in
      (v : ℕ) → id_of (find_user username t'.users) ≡ some v → (user_id =ᵇ v) ≡ false
others_apart now name username t valid ne v h =
    let (user_id, t') = ensure_user now name t in
    let (valid', _, _) = (ensure_user-IsValid now name t valid).0 in
    let mine : id_of (find_user name t'.users) ≡ some user_id =
      ensured_same now name name t (eq_refl name) in
    let (u, e, same) = found_id t'.users name user_id mine in
    let (w, f, same') = found_id t'.users username v h in
    rw (← same, ← same')
      (ids_differ t'.next_user_id t'.users u w name username valid'.users_valid e f ne)

assign-Granted :
    (now : ℕ) (name : String) (ids : List ℕ) (t : Tables)
    → IsValid t
    → let (user_id, t') = ensure_user now name t in
      Granted name ids
        (view t)
        (view (record t' { user_roles = assign_roles now user_id ids t'.user_roles }))
unfolding view
assign-Granted now name ids t valid =
    let (user_id, t') = ensure_user now name t in
    let (same_roles, same_held) = ensure_user-rest now name t in
    (
      λ i. ap (any (has_id i)) same_roles,
      λ username i. elim (Bool-cases (name == username)) [
        | inl e ↦ rw e (
            ap (λ (user : Option ℕ). holds user i (assign_roles now user_id ids t'.user_roles))
              (ensured_same now name username t e)
            ∙ holds-assign_roles_self now user_id i ids t'.user_roles)
        | inr ne ↦ rw ne (
            holds-assign_roles now user_id i ids t'.user_roles (id_of (find_user username t'.users))
              (others_apart now name username t valid ne)
            ∙ ap (λ (ms : List Membership). holds (id_of (find_user username t'.users)) i ms)
                same_held
            ∙ ap (λ (user : Option ℕ). holds user i t.user_roles)
                (ensured_other now name username t ne))
      ],
    )

-- A call that raises leaves the roles, the users and the assignments as they were.
pub rollback-Unchanged : (t t' : Tables) → Unchanged (view t) (view (rollback t t'))
unfolding view rollback
rollback-Unchanged t t' = (λ i. refl, λ username i. refl)

Known_iff :
    (now : ℕ) (name : String) (ids : List ℕ) (t : Tables)
    → IsValid t
    → (role_ids_exist ids (ensure_user now name t).1.roles ≡ true) ↔ Known ids (view t)
unfolding view
Known_iff now name ids t valid =
    rw ((ensure_user-rest now name t).0)
      (role_ids_exist_iff t.next_role_id ids t.roles valid.roles_valid)

-- On valid tables the call grants the roles exactly when all of them exist; otherwise it raises and
-- nothing changes.
pub set_memberships-Refines :
    (now : ℕ) (name : String) (ids : List ℕ) (t : Tables)
    → IsValid t
    → let (r, t') = set_memberships now name ids t in
      ((r ≡ ok tt) × Known ids (view t) × Granted name ids (view t) (view t'))
      ⊎ ((r ≡ err roles_not_found) × (Known ids (view t) → ⊥) × Unchanged (view t) (view t'))
unfolding set_memberships settle
set_memberships-Refines now name ids t valid =
    elim (Bool-cases (role_ids_exist ids (ensure_user now name t).1.roles)) [
      | inl e ↦
          rw e
            (inl (refl, (Known_iff now name ids t valid).0 e, assign-Granted now name ids t valid))
      | inr e ↦ rw e (
          inr (
            refl,
            λ h. cc (e, (Known_iff now name ids t valid).1 h),
            rollback-Unchanged t (ensure_user now name t).1,
          ))
    ]
