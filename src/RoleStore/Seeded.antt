-- ===== src/RoleStore/Seeded.antt =====
-- `seed_default_roles` keeps the tables valid.
use slurm_web_plus.Prelude.{
  ℕ, String, false, none, List, [], ◌∷◌, ◌==◌, All, ◌≡◌, refl, subst, arith,
}
use slurm_web_plus.Prelude.Result.{Result, ok, err, ◌>>=◌}
use slurm_web_plus.Permission.Rule as Rule
use slurm_web_plus.Permission.Rule.{sort_permission_rules}
use slurm_web_plus.Permission.Legacy.{LegacyMap, permission_rules_to_legacy_actions}
use slurm_web_plus.Permission.Seed.{
  SeedRole, default_seed_roles, user_rules, admin_rules, seed_user, seed_admin, seed_super_admin,
}
use slurm_web_plus.RoleStore.{RoleRow, Tables, Error, Call, resume}
use slurm_web_plus.RoleStore.Roles.{role_name_exists, RoleFields, insert_role}
use slurm_web_plus.RoleStore.Seeding.{
  seed_fields, insert_first, insert_seeds, seed_table, seed_default_roles,
}
use slurm_web_plus.RoleStore.Valid.{IsValid, Kept, Keeps, settle-Keeps}
use slurm_web_plus.RoleStore.Editing.{insert_role-IsValid, insert_role-next}

abbrev NamesApart : List SeedRole → Type 0
NamesApart [] = Unit
NamesApart (s ∷ ss) = All (λ s'. (s.name == s'.name) ≡ false) ss × NamesApart ss

abbrev AllFree : List SeedRole → List RoleRow → Type 0
AllFree seeds roles = All (λ s. role_name_exists s.name none roles ≡ false) seeds

still_free :
    (now : ℕ) (f : RoleFields) (t : Tables) (seeds : List SeedRole)
    → All (λ s. (f.name == s.name) ≡ false) seeds
    → AllFree seeds t.roles
    → AllFree seeds (insert_role now f t).1.roles
unfolding role_name_exists insert_role
still_free now f t [] h k = tt
still_free now f t (s ∷ seeds) h k = (ground (arith, h.0, k.0), still_free now f t seeds h.1 k.1)

resume-Kept :
    {A B : Type 0} (t : Tables) (c : Result Error A × Tables) (f : A → Call B)
    → Kept t c.1
    → ((a : A) → Kept c.1 (f a c.1).1)
    → Kept t (resume c f).1
resume-Kept t (ok a, t') f k h =
    let (valid, role_next, user_next) = h a in (valid, omega arith, omega arith)
resume-Kept t (err e, t') f k h = k

insert_first-Kept :
    (now : ℕ) (s : SeedRole) (actions : Result Rule.Error (List String)) (seeds : List SeedRole)
    (t : Tables)
    → NamesApart (s ∷ seeds)
    → AllFree (s ∷ seeds) t.roles
    → IsValid t
    → let t' = (insert_first now s actions t).1 in Kept t t' × AllFree seeds t'.roles
unfolding insert_first
insert_first-Kept now s (ok actions) seeds t apart free v =
    let f : RoleFields = seed_fields s actions in
    (
      (
        insert_role-IsValid now f t v free.0,
        (insert_role-next now f t).0,
        (insert_role-next now f t).1,
      ),
      still_free now f t seeds apart.0 free.1,
    )
insert_first-Kept now s (err e) seeds t apart free v = ((v, omega arith, omega arith), free.1)

insert_seeds-Kept :
    (legacy_map : LegacyMap) (now : ℕ) (seeds : List SeedRole) (t : Tables)
    → NamesApart seeds
    → AllFree seeds t.roles
    → IsValid t
    → Keeps t (insert_seeds legacy_map now seeds t)
unfolding insert_seeds
insert_seeds-Kept legacy_map now [] t apart free v = (v, omega arith, omega arith)
insert_seeds-Kept legacy_map now (s ∷ seeds) t apart free v =
    let actions : Result Rule.Error (List String) =
      permission_rules_to_legacy_actions s.permissions legacy_map in
    let (kept, free') = insert_first-Kept now s actions seeds t apart free v in
    resume-Kept t (insert_first now s actions t) _ kept λ row.
      resume-Kept (insert_first now s actions t).1
        (insert_seeds legacy_map now seeds (insert_first now s actions t).1) _
        (insert_seeds-Kept legacy_map now seeds (insert_first now s actions t).1 apart.1 free'
          kept.0)
        λ rows. (
          (insert_seeds-Kept legacy_map now seeds (insert_first now s actions t).1 apart.1 free'
              kept.0).0,
          omega arith,
          omega arith,
        )

seeds-NamesApart :
    (user admin : Result Rule.Error (List String)) (seeds : List SeedRole)
    → (user >>= λ u. admin >>= λ a. ok (seed_user u ∷ seed_admin a ∷ seed_super_admin ∷ []))
      ≡ ok seeds
    → NamesApart seeds
seeds-NamesApart (err e) admin seeds h = cc (h)
seeds-NamesApart (ok u) (err e) seeds h = cc (h)
seeds-NamesApart (ok u) (ok a) seeds h =
    subst NamesApart (ok-inj _ _ h) ((refl, (refl, tt)), ((refl, tt), (tt, tt)))
  where
    ok-inj :
        (x y : List SeedRole) → ◌≡◌ {A = Result Rule.Error (List SeedRole)} (ok x) (ok y) → x ≡ y
    ok-inj x y h = cc (h)

default_seed_roles-NamesApart :
    (seeds : List SeedRole) → default_seed_roles ≡ ok seeds → NamesApart seeds
unfolding default_seed_roles
default_seed_roles-NamesApart seeds h =
    seeds-NamesApart (sort_permission_rules user_rules) (sort_permission_rules admin_rules) seeds h

all_free : (seeds : List SeedRole) → AllFree seeds []
unfolding role_name_exists
all_free [] = tt
all_free (s ∷ seeds) = (refl, all_free seeds)

seed_table-Keeps :
    (legacy_map : LegacyMap) (now : ℕ) (seeds : Result Rule.Error (List SeedRole)) (t : Tables)
    → ((ss : List SeedRole) → seeds ≡ ok ss → NamesApart ss)
    → IsValid t
    → (rows : List RoleRow) → rows ≡ t.roles
    → Keeps t (seed_table legacy_map now seeds rows t)
seed_table-Keeps legacy_map now (err e) t apart v [] empty = (v, omega arith, omega arith)
seed_table-Keeps legacy_map now (ok seeds) t apart v [] empty =
    insert_seeds-Kept legacy_map now seeds t (apart seeds refl)
      (subst (AllFree seeds) empty (all_free seeds)) v
seed_table-Keeps legacy_map now (err e) t apart v (r ∷ rows) full = (v, omega arith, omega arith)
seed_table-Keeps legacy_map now (ok seeds) t apart v (r ∷ rows) full = (v, omega arith, omega arith)

pub seed_default_roles-Keeps :
    (legacy_map : LegacyMap) (now : ℕ) (t : Tables)
    → IsValid t
    → Keeps t (seed_default_roles legacy_map now t)
unfolding seed_default_roles
seed_default_roles-Keeps legacy_map now t v =
    settle-Keeps t (seed_table legacy_map now default_seed_roles t.roles t) v (
      seed_table-Keeps legacy_map now default_seed_roles t default_seed_roles-NamesApart v t.roles
        refl)
