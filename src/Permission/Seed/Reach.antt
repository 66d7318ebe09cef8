-- ===== src/Permission/Seed/Reach.antt =====
-- What the seed roles may do.
use slurm_web_plus.Prelude.{
  String, Bool, true, false, List, [], ◌∷◌, ◌≡◌, ◌≢◌, ◌⊎◌, inl, inr, refl, arith, eq_iff, ◌==◌,
  ◌||◌, ◌&&◌, ◌∙◌, Bool-cases,
}
use slurm_web_plus.Prelude.Result.{ok}
use slurm_web_plus.Permission.Rule.{sort_permission_rules, normalize_permission_rule}
use slurm_web_plus.Permission.Matching.{permission_rules_allow}
use slurm_web_plus.Permission.Sorted.{permission_rules_allow-sorted}
use slurm_web_plus.Permission.Seed.{
  SeedRole, seed_user, seed_admin, seed_super_admin, user_rules, admin_rules, default_seed_roles,
}

and_false : (a : Bool) → (a && false) ≡ false
and_false a = ground arith

view_ne : (o : String) → o ≢ "view" → ((o == "view") ≡ false) × (("view" == o) ≡ false)
view_ne o h = ground (arith, eq_iff o "view", eq_iff "view" o)

user_answer :
    (r o s : String)
    → o ≢ "view"
    → permission_rules_allow user_rules r o s
      ≡ ok ("jobs" == r && ("edit" == o || "delete" == o) && "self" == s)
unfolding permission_rules_allow
user_answer r o s h = rw ((view_ne o h).0, (view_ne o h).1) (simp and_false (ground arith))

admin_answer :
    (r o s : String) → permission_rules_allow admin_rules r o s ≡ ok (o == "view" || "edit" == o)
unfolding permission_rules_allow
admin_answer r o s = ground (arith, eq_iff o "view", eq_iff "view" o)

sorted_user : (out : List String) × (sort_permission_rules user_rules ≡ ok out)
unfolding sort_permission_rules normalize_permission_rule
sorted_user = (_, refl)

sorted_admin : (out : List String) × (sort_permission_rules admin_rules ≡ ok out)
unfolding sort_permission_rules normalize_permission_rule
sorted_admin = (_, refl)

-- Beyond views, the user role may edit and delete the user's own jobs, and nothing else.
pub record IsUserRole (role : SeedRole) : Type 0 where
  pub beyond_views :
      (r o s : String)
      → (o ≡ "view")
        ⊎ (permission_rules_allow role.permissions r o s
            ≡ ok ("jobs" == r && ("edit" == o || "delete" == o) && "self" == s))

-- The admin role may view and edit everything, and do nothing else.
pub record IsAdminRole (role : SeedRole) : Type 0 where
  pub everywhere :
      (r o s : String)
      → permission_rules_allow role.permissions r o s ≡ ok (o == "view" || "edit" == o)

-- The super-admin role may do everything.
pub record IsSuperAdminRole (role : SeedRole) : Type 0 where
  pub everything : (r o s : String) → permission_rules_allow role.permissions r o s ≡ ok true

-- The seed roles can be built. Beyond views, the user role allows editing and deleting the user's own
-- jobs and nothing else; the admin role allows views and edits everywhere and nothing else; the
-- super-admin role allows everything.
pub default_seed_roles_reach :
    (user : SeedRole) × (admin : SeedRole) × (super_admin : SeedRole) × (default_seed_roles
      ≡ ok (user ∷ admin ∷ super_admin ∷ []))
    × IsUserRole user
    × IsAdminRole admin
    × IsSuperAdminRole super_admin
unfolding default_seed_roles permission_rules_allow sorted_user sorted_admin
default_seed_roles_reach =
    let (user_out, user_sorted) = sorted_user in
    let (admin_out, admin_sorted) = sorted_admin in
    (
      seed_user user_out,
      seed_admin admin_out,
      seed_super_admin,
      refl,
      record {
        beyond_views = λ r o s. elim (Bool-cases (o == "view")) [
          | inl e ↦ inl ((eq_iff o "view").0 e)
          | inr e ↦ inr (
              permission_rules_allow-sorted r o s user_rules user_out user_sorted
              ∙ user_answer r o s (λ p. cc (e, (eq_iff o "view").1 p)))
        ];
      },
      record {
        everywhere = λ r o s.
            permission_rules_allow-sorted r o s admin_rules admin_out admin_sorted
            ∙ admin_answer r o s;
      },
      record { everything = λ r o s. refl },
    )
