-- ===== src/RoleStore/Assigned.antt =====
-- Who has which role: a map from user names to sets of role ids, which `set_user_roles` and
-- `delete_role` of slurmweb/persistence/access_control_store.py change, and no other operation.
use slurm_web_plus.Prelude.{
  ℕ, String, Bool, false, not, ◌&&◌, ◌||◌, Option, none, some, List, [], ◌∷◌, ◌++◌, map, ◌==◌, ◌=ᵇ◌,
  if◌then◌else◌, any, filter, All, ◌≡◌, refl, ◌∙◌, inl, inr, arith, eq_iff, Bool-cases,
  Option-cases,
}
use slurm_web_plus.RoleStore.{UserRow, Membership, Tables}
use slurm_web_plus.RoleStore.Members.{has_username, find_user}
use slurm_web_plus.RoleStore.Assigning.{
  touch_user, ensure_user, elem_id, sorted_ids, memberships, assign_roles,
}
use slurm_web_plus.RoleStore.Rows.{UserDiffers, UsersValid}
use slurm_web_plus.RoleStore.Counting.{elem_id-sorted_ids}

abbrev pub id_of : Option UserRow → Option ℕ
id_of none = none
id_of (some u) = some u.id

abbrev pub is_of : ℕ → ℕ → Membership → Bool
is_of user_id role_id m = m.user_id =ᵇ user_id && m.role_id =ᵇ role_id

unfoldable pub holds : Option ℕ → ℕ → List Membership → Bool
unfolding any
holds none role_id ms = false
holds (some user_id) role_id ms = any (is_of user_id role_id) ms

-- The user has the role.
unfoldable pub assigned : Tables → String → ℕ → Bool
unfolding holds find_user
assigned t username role_id = holds (id_of (find_user username t.users)) role_id t.user_roles

any-append :
    {A : Type 0} (p : A → Bool) (xs ys : List A) → any p (xs ++ ys) ≡ (any p xs || any p ys)
unfolding any
any-append p [] ys = refl
any-append p (x ∷ xs) ys = ground (arith, any-append p xs ys)

is_of-memberships :
    (now user_id i j : ℕ) (ids : List ℕ)
    → any (is_of i j) (memberships now user_id ids) ≡ (user_id =ᵇ i && elem_id j ids)
unfolding any elem_id
is_of-memberships now user_id i j [] = ground arith
is_of-memberships now user_id i j (k ∷ ids) = ground (arith, is_of-memberships now user_id i j ids)

is_of-others :
    (user_id i j : ℕ) (ms : List Membership)
    → any (is_of i j) (filter (λ m. not (m.user_id =ᵇ user_id)) ms)
      ≡ (not (user_id =ᵇ i) && any (is_of i j) ms)
unfolding any filter
is_of-others user_id i j [] = ground arith
is_of-others user_id i j (m ∷ ms) = ground (arith, is_of-others user_id i j ms)

-- The assignments after the rows of one user are replaced.
pub is_of-assign_roles :
    (now user_id i j : ℕ) (role_ids : List ℕ) (ms : List Membership)
    → any (is_of i j) (assign_roles now user_id role_ids ms)
      ≡ (if user_id =ᵇ i then elem_id j role_ids else any (is_of i j) ms)
unfolding assign_roles
is_of-assign_roles now user_id i j role_ids ms =
    any-append (is_of i j) (memberships now user_id (sorted_ids role_ids))
      (filter (λ m. not (m.user_id =ᵇ user_id)) ms)
    ∙ ground (
      arith,
      is_of-memberships now user_id i j (sorted_ids role_ids),
      is_of-others user_id i j ms,
      elem_id-sorted_ids j role_ids,
    )

-- The assignments after the rows of one role are deleted.
pub is_of-deleted :
    (role_id i j : ℕ) (ms : List Membership)
    → any (is_of i j) (filter (λ m. not (m.role_id =ᵇ role_id)) ms)
      ≡ (not (j =ᵇ role_id) && any (is_of i j) ms)
unfolding any filter
is_of-deleted role_id i j [] = ground arith
is_of-deleted role_id i j (m ∷ ms) = ground (arith, is_of-deleted role_id i j ms)

id_of-touch_user :
    (now : ℕ) (name username : String) (us : List UserRow)
    → id_of (find_user username (map (touch_user now name) us)) ≡ id_of (find_user username us)
unfolding find_user
id_of-touch_user now name username [] = refl
id_of-touch_user now name username (u ∷ us) = ground (arith, id_of-touch_user now name username us)

-- The user who is inserted or touched is found under the id that is returned, the others as before.
pub id_of-ensure_user :
    (now : ℕ) (name username : String) (t : Tables)
    → let (user_id, t') = ensure_user now name t in
      id_of (find_user username t'.users)
      ≡ (if name == username then some user_id else id_of (find_user username t.users))
unfolding ensure_user
id_of-ensure_user now name username t = elim (Option-cases (find_user name t.users)) [
  | inl e ↦ rw e (ground (arith, find_user))
  | inr (u, e) ↦ rw e (
      id_of-touch_user now name username t.users ∙ elim (Bool-cases (name == username)) [
        | inl same ↦ rw (same, ← (eq_iff name username).0 same, e) refl
        | inr other ↦ rw other refl
      ])
]

not_found_id :
    (us : List UserRow) (u v : UserRow) (username : String)
    → All (UserDiffers u) us
    → find_user username us ≡ some v
    → (u.id =ᵇ v.id) ≡ false
unfolding find_user
not_found_id [] u v username h e = cc
not_found_id (w ∷ us) u v username h e = elim (Bool-cases (has_username username w)) [
  | inl same ↦ ground (arith, same, e, h.0)
  | inr other ↦ not_found_id us u v username h.1 (ground (arith, e, other))
]

-- Users of different names have different ids.
pub ids_differ :
    (next : ℕ) (us : List UserRow) (u v : UserRow) (name username : String)
    → UsersValid next us
    → find_user name us ≡ some u
    → find_user username us ≡ some v
    → (name == username) ≡ false
    → (u.id =ᵇ v.id) ≡ false
unfolding find_user
ids_differ next [] u v name username valid e f ne = cc
ids_differ next (w ∷ us) u v name username valid e f ne = elim (Bool-cases (has_username name w)) [
  | inl first ↦
      let other : has_username username w ≡ false =
        ground (arith, first, ne, eq_iff w.username name, eq_iff name username) in
      ground
        (arith, first, other, e, f, not_found_id us w v username valid.1 (ground (arith, f, other)))
  | inr later ↦ elim (Bool-cases (has_username username w)) [
    | inl first ↦
        ground
          (arith, first, later, e, f, not_found_id us w u name valid.1 (ground (arith, e, later)))
    | inr neither ↦
        ids_differ next us u v name username valid.2 (ground (arith, e, later))
          (ground (arith, f, neither)) ne
  ]
]
