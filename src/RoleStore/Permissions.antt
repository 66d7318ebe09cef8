-- ===== src/RoleStore/Permissions.antt =====
-- `user_permissions` of slurmweb/persistence/access_control_store.py, and what it means for the policy
-- manager of slurmweb/access_control.py that asks it.
use slurm_web_plus.Prelude.{
  ℕ, String, Bool, true, false, Option, none, some, List, [], ◌∷◌, ◌++◌, ◌=ᵇ◌, if◌then◌else◌, any,
  elem, elem-append, All, ◌≡◌, ◌↔◌, refl, ◌∙◌, sym, ap, subst, inl, inr, arith, Bool-cases,
  Option-cases, eq_iff,
}
use slurm_web_plus.Prelude.Result.{ok, >>=-eq-ok}
use slurm_web_plus.Prelude.SortBy.{any-sort_by}
use slurm_web_plus.Permission.RuleSet.{IsAccepted, Granted}
use slurm_web_plus.Permission.Legacy.{LegacyMap, legacy_actions_to_rules}
use slurm_web_plus.Access.{
  User, roles_actions_rules, Store, Manager, Rights, Sources, access_control_available,
  custom_roles_actions_rules, roles_actions_sources, allowed_user_permission,
}
use slurm_web_plus.Access.Fallback.{sources_parts}
use slurm_web_plus.Access.Decision.{allowed_with_database_iff}
use slurm_web_plus.RoleStore.{RoleRow, UserRow, Membership, Tables}
use slurm_web_plus.RoleStore.Roles.{has_id, find_role}
use slurm_web_plus.RoleStore.Members.{
  find_user, add_some, joined, all_of, rules_of, roles_of, user_permissions,
}
use slurm_web_plus.RoleStore.Assigned.{id_of, is_of, holds, assigned}

find_role-id : (i : ℕ) (rs : List RoleRow) (r : RoleRow) → find_role i rs ≡ some r → r.id ≡ i
unfolding find_role
find_role-id i [] r h = cc
find_role-id i (s ∷ rs) r h = elim (Bool-cases (has_id i s)) [
  | inl e ↦ ground (arith, e, h)
  | inr e ↦ find_role-id i rs r (ground (arith, e, h))
]

-- A role of the user that passes the test.
abbrev Found : (RoleRow → Bool) → List RoleRow → ℕ → List Membership → Type 0
Found p roles user_id ms =
    (r : RoleRow) × (find_role r.id roles ≡ some r)
    × (any (is_of user_id r.id) ms ≡ true)
    × (p r ≡ true)

joined-Found :
    (p : RoleRow → Bool) (roles : List RoleRow) (user_id : ℕ) (ms : List Membership)
    → any p (joined roles user_id ms) ≡ true
    → Found p roles user_id ms
unfolding joined any
joined-Found p roles user_id [] h = cc
joined-Found p roles user_id (m ∷ ms) h = elim (Bool-cases (m.user_id =ᵇ user_id)) [
  | inl mine ↦ elim (Option-cases (find_role m.role_id roles)) [
    | inl e ↦
        let (r, f, a, q) = joined-Found p roles user_id ms (rw (mine, e) at h) in
        (r, f, ground (arith, a), q)
    | inr (r, e) ↦ elim (Bool-cases (p r)) [
      | inl yes_r ↦
          let same : r.id ≡ m.role_id = find_role-id m.role_id roles r e in
          (r, ap (λ (i : ℕ). find_role i roles) same ∙ e, ground (arith, mine, same), yes_r)
      | inr no_r ↦
          let (r', f, a, q) =
            joined-Found p roles user_id ms (ground (arith, rw (mine, e) at h, no_r)) in
          (r', f, ground (arith, a), q)
    ]
  ]
  | inr other ↦
      let (r, f, a, q) = joined-Found p roles user_id ms (rw other at h) in
      (r, f, ground (arith, a), q)
]

any-more :
    (p : RoleRow → Bool) (b : Bool) (o : Option RoleRow) (rs : List RoleRow)
    → any p rs ≡ true
    → any p (if b then add_some o rs else rs) ≡ true
unfolding any
any-more p false o rs h = h
any-more p true none rs h = h
any-more p true (some r) rs h = ground (arith, h)

Found-joined :
    (p : RoleRow → Bool) (roles : List RoleRow) (user_id : ℕ) (ms : List Membership) (r : RoleRow)
    → find_role r.id roles ≡ some r
    → any (is_of user_id r.id) ms ≡ true
    → p r ≡ true
    → any p (joined roles user_id ms) ≡ true
unfolding joined any
Found-joined p roles user_id [] r f a q = cc
Found-joined p roles user_id (m ∷ ms) r f a q = elim (Bool-cases (is_of user_id r.id m)) [
  | inl e ↦
      let mine : (m.user_id =ᵇ user_id) ≡ true = ground (arith, e) in
      let same : m.role_id ≡ r.id = ground (arith, e) in rw (mine, same, f) (ground (arith, q))
  | inr e ↦
      any-more p (m.user_id =ᵇ user_id) (find_role m.role_id roles) (joined roles user_id ms)
        (Found-joined p roles user_id ms r f (ground (arith, a, e)) q)
]

elem-all_of :
    (k : String) (f : RoleRow → List String) (rs : List RoleRow)
    → elem k (all_of f rs) ≡ any (λ r. elem k (f r)) rs
unfolding elem any
elem-all_of k f [] = refl
elem-all_of k f (r ∷ rs) = elem-append k (f r) (all_of f rs) ∙ ground (arith, elem-all_of k f rs)

assigned_of :
    (t : Tables) (username : String) (i : ℕ) (user : Option UserRow)
    → find_user username t.users ≡ user
    → assigned t username i ≡ holds (id_of user) i t.user_roles
unfolding assigned
assigned_of t username i user e = ap (λ (v : Option UserRow). holds (id_of v) i t.user_roles) e

holds-none : (i : ℕ) (ms : List Membership) → holds none i ms ≡ false
unfolding holds
holds-none i ms = refl

holds-some :
    (user_id i : ℕ) (ms : List Membership) → holds (some user_id) i ms ≡ any (is_of user_id i) ms
unfolding holds
holds-some user_id i ms = refl

elem-nothing : (k : String) → elem k [] ≡ false
unfolding elem
elem-nothing k = refl

Granted-single :
    (resource operation scope rule : String) (rules : List String)
    → elem rule rules ≡ true
    → Granted resource operation scope (rule ∷ [])
    → Granted resource operation scope rules
unfolding elem
Granted-single resource operation scope rule rules here (found, there, g) =
    let same : found ≡ rule = (eq_iff found rule).0 (ground (arith, there)) in
    (found, rw same here, g)

module _ (legacy_map : LegacyMap) (name_le : String → String → Bool) where
  -- A role that exists, that the user has, and that has the rule itself or by its actions.
  abbrev pub HasRule : Tables → String → String → Type 0
  HasRule t username rule =
      (r : RoleRow) × (find_role r.id t.roles ≡ some r)
      × (assigned t username r.id ≡ true)
      × (elem rule (rules_of legacy_map r) ≡ true)

  rules_of_user :
      (t : Tables) (username rule : String) (user : Option UserRow)
      → find_user username t.users ≡ user
      → (elem rule (all_of (rules_of legacy_map) (roles_of name_le t user)) ≡ true)
        ↔ HasRule t username rule
  unfolding roles_of
  rules_of_user t username rule none e = (
    λ h. absurd (cc (h, elem-nothing rule)),
    λ (r, f, a, q).
        absurd (cc (a, assigned_of t username r.id none e, holds-none r.id t.user_roles)),
  )
  rules_of_user t username rule (some u) e =
      let p : RoleRow → Bool = λ r. elem rule (rules_of legacy_map r) in
      let sorted_rows : List RoleRow = roles_of name_le t (some u) in
      let same : elem rule (all_of (rules_of legacy_map) sorted_rows)
          ≡ any p (joined t.roles u.id t.user_roles) =
        elem-all_of rule (rules_of legacy_map) sorted_rows
        ∙ any-sort_by p (λ r s. name_le r.name s.name) (joined t.roles u.id t.user_roles) in
      (
        λ h.
            let (r, f, a, q) = joined-Found p t.roles u.id t.user_roles (sym same ∙ h) in
            (
              r,
              f,
              assigned_of t username r.id (some u) e ∙ holds-some u.id r.id t.user_roles ∙ a,
              q,
            ),
        λ (r, f, a, q).
            same
            ∙ Found-joined p t.roles u.id t.user_roles r f
                (sym (assigned_of t username r.id (some u) e ∙ holds-some u.id r.id t.user_roles)
                  ∙ a)
                q,
      )

  -- A rule is among those of a user exactly when a role that exists and that the user has gives it.
  pub user_permissions_iff :
      (t : Tables) (username rule : String)
      → (elem rule (user_permissions legacy_map name_le username t).2 ≡ true)
        ↔ HasRule t username rule
  unfolding user_permissions
  user_permissions_iff t username rule =
      rules_of_user t username rule (find_user username t.users) refl

  -- The store of the application, as the policy manager asks it.
  unfoldable pub store_of : Tables → Store
  unfolding user_permissions
  store_of t login =
      let (names, actions, permissions) = user_permissions legacy_map name_le login t in
      some (roles_actions_rules names actions permissions)

  custom_rules :
      (m : Manager) (user : User) (t : Tables) (c : Rights) (rule : String)
      → m.access_control_store ≡ some (store_of t)
      → access_control_available m ≡ true
      → user.anonymous ≡ false
      → custom_roles_actions_rules m user ≡ ok c
      → elem rule (user_permissions legacy_map name_le user.login t).2 ≡ true
      → elem rule c.rules ≡ true
  unfolding custom_roles_actions_rules store_of
  custom_rules m user t c rule stored available named h here =
      let (names, actions, permissions) = user_permissions legacy_map name_le user.login t in
      let (mapped, e, f) =
        >>=-eq-ok (legacy_actions_to_rules actions m.legacy_permission_map) _
          (rw (available, named, stored) at h) in
      let same : mapped ++ permissions ≡ c.rules = cc (f) in
      rw (← same) (elem-append rule mapped permissions ∙ ground (arith, here))

  -- With the database, a user with a name, whose rights can be merged and whose custom rules are all
  -- accepted, is allowed what a rule grants that one of the user's roles gives.
  pub role_rule_allows :
      (m : Manager) (user : User) (s : Sources) (t : Tables)
      (rule resource operation scope : String)
      → m.access_control_store ≡ some (store_of t)
      → access_control_available m ≡ true
      → user.anonymous ≡ false
      → roles_actions_sources m user ≡ ok s
      → All IsAccepted s.custom.rules
      → HasRule t user.login rule
      → Granted resource operation scope (rule ∷ [])
      → allowed_user_permission m user resource operation scope ≡ ok true
  role_rule_allows m user s t rule resource operation scope stored available named h accepted has
        g =
      let (policy_rules, custom, derived, _, f, _, same) = sources_parts m user s h in
      let here : elem rule custom.rules ≡ true =
        custom_rules m user t custom rule stored available named f
          ((user_permissions_iff t user.login rule).1 has) in
      let here' : elem rule s.custom.rules ≡ true =
        subst (λ (u : Sources). elem rule u.custom.rules ≡ true) same here in
      (allowed_with_database_iff resource operation scope m user s available named h accepted).1
        (inr (Granted-single resource operation scope rule s.custom.rules here' g))
