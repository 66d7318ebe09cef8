-- ===== src/RoleStore/View.antt =====
-- The store of slurmweb/persistence/access_control_store.py as a client sees it: the ids of the roles
-- that exist, what the columns of each say, which names are taken, and the roles that each user has.
-- What a call may do to the sets of roles.
use slurm_web_plus.Prelude.{
  Option, ℕ, String, Bool, true, not, ◌&&◌, List, ◌==◌, ◌=ᵇ◌, if◌then◌else◌, any, ◌≡◌,
}
use slurm_web_plus.RoleStore.{Tables}
use slurm_web_plus.RoleStore.Roles.{has_id, RoleFields, role_name_exists}
use slurm_web_plus.RoleStore.Contents.{content_of}
use slurm_web_plus.RoleStore.Assigning.{elem_id}
use slurm_web_plus.RoleStore.Assigned.{assigned}

-- What a client of the store can observe.
pub record View : Type 0 where
  pub known : ℕ → Bool
  pub has_role : String → ℕ → Bool
  pub content : ℕ → Option RoleFields
  -- A role other than the excluded one has the name.
  pub taken : String → Option ℕ → Bool

unfoldable pub view : Tables → View
unfolding any assigned content_of role_name_exists
view t = record {
  known = λ i. any (has_id i) t.roles;
  has_role = assigned t;
  content = λ i. content_of i t.roles;
  taken = λ name exclude_role_id. role_name_exists name exclude_role_id t.roles;
}

abbrev pub SameKnown : View → View → Type 0
SameKnown v w = (i : ℕ) → w.known i ≡ v.known i

abbrev pub SameHeld : View → View → Type 0
SameHeld v w = (username : String) (i : ℕ) → w.has_role username i ≡ v.has_role username i

abbrev pub Known : List ℕ → View → Type 0
Known ids v = (i : ℕ) → elem_id i ids ≡ true → v.known i ≡ true

-- The call gives the user these roles, and takes every other from the user.
abbrev pub Granted : String → List ℕ → View → View → Type 0
Granted name ids v w =
    SameKnown v w
    × ((username : String) (i : ℕ)
        → w.has_role username i
          ≡ (if name == username then elem_id i ids else v.has_role username i))

-- The role is gone, from the table and from every user.
abbrev pub Removed : ℕ → View → View → Type 0
Removed role_id v w =
    ((i : ℕ) → w.known i ≡ (not (i =ᵇ role_id) && v.known i))
    × ((username : String) (i : ℕ)
        → w.has_role username i ≡ (not (i =ᵇ role_id) && v.has_role username i))

-- There may be new roles; what the users have is as before.
abbrev pub Extended : View → View → Type 0
Extended v w = ((i : ℕ) → v.known i ≡ true → w.known i ≡ true) × SameHeld v w

abbrev pub Unchanged : View → View → Type 0
Unchanged v w = SameKnown v w × SameHeld v w
