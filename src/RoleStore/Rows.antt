-- ===== src/RoleStore/Rows.antt =====
-- Rows of the tables of slurmweb/persistence/access_control_store.py: which differ, and what the
-- updates of a table keep.
use slurm_web_plus.Prelude.{
  ℕ, ◌<◌, ◌≤◌, Bool, true, false, ◌&&◌, List, [], ◌∷◌, ◌==◌, ◌=ᵇ◌, any, filter, All, ◌≡◌, refl, inl,
  inr, arith, Bool-cases,
}
use slurm_web_plus.RoleStore.{RoleRow, UserRow, Membership}
use slurm_web_plus.RoleStore.Roles.{has_id}

abbrev pub Differs : RoleRow → RoleRow → Type 0
Differs r s = ((r.id =ᵇ s.id) ≡ false) × ((r.name == s.name) ≡ false)

-- The ids are below the next one, and no two rows share an id or a name.
abbrev pub RolesValid : ℕ → List RoleRow → Type 0
RolesValid next [] = Unit
RolesValid next (r ∷ rs) = (r.id < next) × All (Differs r) rs × RolesValid next rs

abbrev pub UserDiffers : UserRow → UserRow → Type 0
UserDiffers u v = ((u.id =ᵇ v.id) ≡ false) × ((u.username == v.username) ≡ false)

abbrev pub UsersValid : ℕ → List UserRow → Type 0
UsersValid next [] = Unit
UsersValid next (u ∷ us) = (u.id < next) × All (UserDiffers u) us × UsersValid next us

abbrev pub has_user_id : ℕ → UserRow → Bool
has_user_id user_id u = u.id =ᵇ user_id

abbrev pub same_membership : Membership → Membership → Bool
same_membership m n = m.user_id =ᵇ n.user_id && m.role_id =ᵇ n.role_id

-- The foreign keys and the primary key of `user_roles`.
abbrev pub MembersValid : List RoleRow → List UserRow → List Membership → Type 0
MembersValid roles users [] = Unit
MembersValid roles users (m ∷ ms) =
    (any (has_id m.role_id) roles ≡ true)
    × (any (has_user_id m.user_id) users ≡ true)
    × All (λ n. same_membership m n ≡ false) ms
    × MembersValid roles users ms

-- Two lists of the same keys.
abbrev pub SameRoles : List RoleRow → List RoleRow → Type 0
SameRoles [] [] = Unit
SameRoles [] (s ∷ ss) = ⊥
SameRoles (r ∷ rs) [] = ⊥
SameRoles (r ∷ rs) (s ∷ ss) = (r.id ≡ s.id) × (r.name ≡ s.name) × SameRoles rs ss

Differs-same :
    (r r' : RoleRow) (ss ss' : List RoleRow)
    → r.id ≡ r'.id
    → r.name ≡ r'.name
    → SameRoles ss ss'
    → All (Differs r) ss
    → All (Differs r') ss'
Differs-same r r' [] [] e n k h = tt
Differs-same r r' [] (s ∷ ss') e n k h = elim k [ ]
Differs-same r r' (s ∷ ss) [] e n k h = elim k [ ]
Differs-same r r' (s ∷ ss) (s' ∷ ss') e n k h =
    (ground (arith, e, n, k.0, k.1, h.0), Differs-same r r' ss ss' e n k.2 h.1)

-- Rows that keep their keys keep the table valid.
pub SameRoles-RolesValid :
    (next : ℕ) (rs ss : List RoleRow) → SameRoles rs ss → RolesValid next rs → RolesValid next ss
SameRoles-RolesValid next [] [] k h = tt
SameRoles-RolesValid next [] (s ∷ ss) k h = elim k [ ]
SameRoles-RolesValid next (r ∷ rs) [] k h = elim k [ ]
SameRoles-RolesValid next (r ∷ rs) (s ∷ ss) k h = (
  ground (arith, k.0, h.0),
  Differs-same r s rs ss k.0 k.1 k.2 h.1,
  SameRoles-RolesValid next rs ss k.2 h.2,
)

pub SameRoles-has_id :
    (i : ℕ) (rs ss : List RoleRow) → SameRoles rs ss → any (has_id i) rs ≡ any (has_id i) ss
unfolding any
SameRoles-has_id i [] [] k = refl
SameRoles-has_id i [] (s ∷ ss) k = elim k [ ]
SameRoles-has_id i (r ∷ rs) [] k = elim k [ ]
SameRoles-has_id i (r ∷ rs) (s ∷ ss) k = ground (arith, k.0, SameRoles-has_id i rs ss k.2)

pub RolesValid-mono : (n m : ℕ) (rs : List RoleRow) → n ≤ m → RolesValid n rs → RolesValid m rs
RolesValid-mono n m [] le h = tt
RolesValid-mono n m (r ∷ rs) le h = (omega arith, h.1, RolesValid-mono n m rs le h.2)

pub UsersValid-mono : (n m : ℕ) (us : List UserRow) → n ≤ m → UsersValid n us → UsersValid m us
UsersValid-mono n m [] le h = tt
UsersValid-mono n m (u ∷ us) le h = (omega arith, h.1, UsersValid-mono n m us le h.2)

-- The keys that a row may refer to may grow.
pub MembersValid-mono :
    (roles roles' : List RoleRow) (users users' : List UserRow) (ms : List Membership)
    → ((i : ℕ) → any (has_id i) roles ≡ true → any (has_id i) roles' ≡ true)
    → ((i : ℕ) → any (has_user_id i) users ≡ true → any (has_user_id i) users' ≡ true)
    → MembersValid roles users ms
    → MembersValid roles' users' ms
MembersValid-mono roles roles' users users' [] f g h = tt
MembersValid-mono roles roles' users users' (m ∷ ms) f g h =
    (f m.role_id h.0, g m.user_id h.1, h.2, MembersValid-mono roles roles' users users' ms f g h.3)

pub All-filter {ℓ κ} :
    {A : Type ℓ} (P : A → Type κ) (p : A → Bool) (xs : List A) → All P xs → All P (filter p xs)
unfolding filter
All-filter P p [] h = tt
All-filter P p (x ∷ xs) h = elim (Bool-cases (p x)) [
  | inl e ↦ rw e (h.0, All-filter P p xs h.1)
  | inr e ↦ rw e (All-filter P p xs h.1)
]

pub filter-RolesValid :
    (p : RoleRow → Bool) (next : ℕ) (rs : List RoleRow)
    → RolesValid next rs
    → RolesValid next (filter p rs)
unfolding filter
filter-RolesValid p next [] h = tt
filter-RolesValid p next (r ∷ rs) h = elim (Bool-cases (p r)) [
  | inl e ↦ rw e (h.0, All-filter (Differs r) p rs h.1, filter-RolesValid p next rs h.2)
  | inr e ↦ rw e (filter-RolesValid p next rs h.2)
]

-- A table of `user_roles` from which rows are deleted.
pub filter-MembersValid :
    (p : Membership → Bool) (roles : List RoleRow) (users : List UserRow) (ms : List Membership)
    → MembersValid roles users ms
    → MembersValid roles users (filter p ms)
unfolding filter
filter-MembersValid p roles users [] h = tt
filter-MembersValid p roles users (m ∷ ms) h = elim (Bool-cases (p m)) [
  | inl e ↦ rw e (
    h.0,
    h.1,
    All-filter (λ n. same_membership m n ≡ false) p ms h.2,
    filter-MembersValid p roles users ms h.3,
  )
  | inr e ↦ rw e (filter-MembersValid p roles users ms h.3)
]
