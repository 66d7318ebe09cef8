-- ===== src/RoleStore/Granting.antt =====
-- `set_user_roles` and `seed_default_roles` keep the tables valid.
use slurm_web_plus.Prelude.{
  ℕ, suc, ◌<◌, String, true, false, not, none, some, List, [], ◌∷◌, ◌++◌, map, ◌=ᵇ◌, any, filter,
  All, All-append, ◌≡◌, refl, ◌∙◌, sym, inl, inr, arith, eq_iff, Bool-cases, Option-cases,
}
use slurm_web_plus.RoleStore.{RoleRow, UserRow, Membership, Tables}
use slurm_web_plus.RoleStore.Members.{has_username, find_user}
use slurm_web_plus.RoleStore.Assigning.{
  touch_user, new_user, ensure_user, elem_id, sorted_ids, role_ids_exist, memberships, assign_roles,
  set_memberships,
}
use slurm_web_plus.RoleStore.Rows.{
  UserDiffers, UsersValid, has_user_id, same_membership, MembersValid, UsersValid-mono,
  MembersValid-mono, filter-MembersValid,
}
use slurm_web_plus.RoleStore.Valid.{IsValid, Kept, Keeps, settle-Keeps}
use slurm_web_plus.RoleStore.Counting.{
  IsIncreasing, AllKnown, role_ids_exist_iff, elem_id-sorted_ids, sorted_ids-IsIncreasing,
}

-- A user that is found is in the table, under the name that was asked for.
pub find_user-some :
    (username : String) (us : List UserRow) (u : UserRow)
    → find_user username us ≡ some u
    → (any (has_user_id u.id) us ≡ true) × (u.username ≡ username)
unfolding find_user any
find_user-some username [] u h = cc
find_user-some username (v ∷ us) u h = elim (Bool-cases (has_username username v)) [
  | inl e ↦ ground (arith, e, h, eq_iff v.username username)
  | inr e ↦ ground (arith, e, find_user-some username us u (ground (arith, h, e)))
]

new_user-differs :
    (now next : ℕ) (username : String) (us : List UserRow)
    → UsersValid next us
    → find_user username us ≡ none
    → All (UserDiffers (new_user now next username)) us
unfolding find_user
new_user-differs now next username [] v free = tt
new_user-differs now next username (u ∷ us) v free = (
  ground (arith, v.0, free, eq_iff username u.username, eq_iff u.username username),
  new_user-differs now next username us v.2 (ground (arith, free)),
)

touch_user-differs :
    (now : ℕ) (username : String) (u : UserRow) (us : List UserRow)
    → All (UserDiffers u) us
    → All (UserDiffers (touch_user now username u)) (map (touch_user now username) us)
touch_user-differs now username u [] h = tt
touch_user-differs now username u (v ∷ us) h =
    (ground (arith, h.0), touch_user-differs now username u us h.1)

touch_user-UsersValid :
    (now next : ℕ) (username : String) (us : List UserRow)
    → UsersValid next us
    → UsersValid next (map (touch_user now username) us)
touch_user-UsersValid now next username [] v = tt
touch_user-UsersValid now next username (u ∷ us) v = (
  ground (arith, v.0),
  touch_user-differs now username u us v.1,
  touch_user-UsersValid now next username us v.2,
)

pub touch_user-has_user_id :
    (now i : ℕ) (username : String) (us : List UserRow)
    → any (has_user_id i) (map (touch_user now username) us) ≡ any (has_user_id i) us
unfolding any
touch_user-has_user_id now i username [] = refl
touch_user-has_user_id now i username (u ∷ us) =
    ground (arith, touch_user-has_user_id now i username us)

more_users :
    (u : UserRow) (us : List UserRow) (i : ℕ)
    → any (has_user_id i) us ≡ true
    → any (has_user_id i) (u ∷ us) ≡ true
unfolding any
more_users u us i h = ground (arith, h)

first_user : (u : UserRow) (us : List UserRow) → any (has_user_id u.id) (u ∷ us) ≡ true
unfolding any
first_user u us = ground arith

-- The user is in the table then.
pub ensure_user-IsValid :
    (now : ℕ) (username : String) (t : Tables)
    → IsValid t
    → let (user_id, t') = ensure_user now username t in
      Kept t t' × (any (has_user_id user_id) t'.users ≡ true)
unfolding ensure_user
ensure_user-IsValid now username t v = elim (Option-cases (find_user username t.users)) [
  | inl e ↦ rw e (
    (
      record {
        roles_valid = v.roles_valid;
        users_valid = (
          omega arith,
          new_user-differs now t.next_user_id username t.users v.users_valid e,
          UsersValid-mono t.next_user_id (suc t.next_user_id) t.users (omega arith) v.users_valid,
        );
        members_valid =
            MembersValid-mono t.roles t.roles t.users
              (new_user now t.next_user_id username ∷ t.users) t.user_roles (λ i h. h)
              (more_users (new_user now t.next_user_id username) t.users) v.members_valid;
      },
      omega arith,
      omega arith,
    ),
    first_user (new_user now t.next_user_id username) t.users,
  )
  | inr (u, e) ↦ rw e (
    (
      record {
        roles_valid = v.roles_valid;
        users_valid =
            UsersValid-mono t.next_user_id (suc t.next_user_id)
              (map (touch_user now username) t.users) (omega arith)
              (touch_user-UsersValid now t.next_user_id username t.users v.users_valid);
        members_valid =
            MembersValid-mono t.roles t.roles t.users (map (touch_user now username) t.users)
              t.user_roles (λ i h. h) (λ i h. touch_user-has_user_id now i username t.users ∙ h)
              v.members_valid;
      },
      omega arith,
      omega arith,
    ),
    touch_user-has_user_id now u.id username t.users ∙ (find_user-some username t.users u e).0,
  )
]

memberships-apart :
    (now user_id i : ℕ) (ids : List ℕ)
    → All (λ j. i < j) ids
    → All
        (λ n.
          same_membership (record { user_id = user_id; role_id = i; created_at = now }) n ≡ false)
        (memberships now user_id ids)
memberships-apart now user_id i [] h = tt
memberships-apart now user_id i (j ∷ ids) h =
    (ground (arith, h.0), memberships-apart now user_id i ids h.1)

others-apart :
    (now user_id i : ℕ) (ms : List Membership)
    → All
        (λ n.
          same_membership (record { user_id = user_id; role_id = i; created_at = now }) n ≡ false)
        (filter (λ m. not (m.user_id =ᵇ user_id)) ms)
unfolding filter
others-apart now user_id i [] = tt
others-apart now user_id i (m ∷ ms) = elim (Bool-cases (m.user_id =ᵇ user_id)) [
  | inl e ↦ rw e (others-apart now user_id i ms)
  | inr e ↦ rw e (ground (arith, e), others-apart now user_id i ms)
]

memberships-MembersValid :
    (now user_id : ℕ) (ids : List ℕ) (roles : List RoleRow) (users : List UserRow)
    (ms : List Membership)
    → IsIncreasing ids
    → AllKnown ids roles
    → any (has_user_id user_id) users ≡ true
    → MembersValid roles users ms
    → MembersValid roles users
        (memberships now user_id ids ++ filter (λ m. not (m.user_id =ᵇ user_id)) ms)
unfolding elem_id
memberships-MembersValid now user_id [] roles users ms inc known user v =
    filter-MembersValid (λ m. not (m.user_id =ᵇ user_id)) roles users ms v
memberships-MembersValid now user_id (i ∷ ids) roles users ms inc known user v = (
  known i (ground arith),
  user,
  All-append _ (memberships now user_id ids) (filter (λ m. not (m.user_id =ᵇ user_id)) ms)
      (memberships-apart now user_id i ids inc.0) (others-apart now user_id i ms),
  memberships-MembersValid now user_id ids roles users ms inc.1 (λ j h. known j (ground (arith, h)))
      user v,
)

assign-Kept :
    (now user_id : ℕ) (role_ids : List ℕ) (t : Tables)
    → IsValid t
    → any (has_user_id user_id) t.users ≡ true
    → role_ids_exist role_ids t.roles ≡ true
    → IsValid (record t { user_roles = assign_roles now user_id role_ids t.user_roles })
unfolding assign_roles
assign-Kept now user_id role_ids t v user exist =
    let known : AllKnown role_ids t.roles =
      (role_ids_exist_iff t.next_role_id role_ids t.roles v.roles_valid).0 exist in
    record {
      roles_valid = v.roles_valid;
      users_valid = v.users_valid;
      members_valid =
          memberships-MembersValid now user_id (sorted_ids role_ids) t.roles t.users t.user_roles
            (sorted_ids-IsIncreasing role_ids)
            (λ i h. known i (sym (elem_id-sorted_ids i role_ids) ∙ h)) user v.members_valid;
    }

pub set_memberships-Keeps :
    (now : ℕ) (username : String) (role_ids : List ℕ) (t : Tables)
    → IsValid t
    → Keeps t (set_memberships now username role_ids t)
unfolding set_memberships
set_memberships-Keeps now username role_ids t v =
    let (user_id, t') = ensure_user now username t in
    let (kept, user) = ensure_user-IsValid now username t v in
    settle-Keeps t _ v (elim (Bool-cases (role_ids_exist role_ids t'.roles)) [
      | inl exist ↦ rw exist (assign-Kept now user_id role_ids t' kept.0 user exist, kept.1, kept.2)
      | inr missing ↦ rw missing kept
    ])
