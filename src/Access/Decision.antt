-- ===== src/Access/Decision.antt =====
-- When a user is allowed an operation, with the database and without it.
use slurm_web_plus.Prelude.{
  String, Bool, true, false, List, [], ◌∷◌, ◌++◌, elem, elem-append, ◌≡◌, ◌⊎◌, ◌↔◌, refl, sym, ap,
  subst, ◌∙◌, arith, Bool-cases, inl, inr, All, All-append,
}
use slurm_web_plus.Prelude.Result.{Result, ok}
use slurm_web_plus.Permission.Rule.{Error}
use slurm_web_plus.Permission.Matching.{permission_rules_allow}
use slurm_web_plus.Permission.RuleSet.{
  IsAccepted, Granted, permission_rules_allow_iff, permission_rules_allow_total,
}
use slurm_web_plus.Permission.Sorted.{sorted-IsAccepted}
use slurm_web_plus.Permission.Legacy.{LegacyMap, mapped_rules}
use slurm_web_plus.Permission.Legacy.Actions.{IsAcceptedMap}
use slurm_web_plus.Access.{
  User, Manager, Sources, access_control_available, file_rules, roles_actions_sources,
  allowed_user_action, allowed_by_actions, allowed_user_permission,
}
use slurm_web_plus.Access.Fallback.{sources_parts}

file_rules-IsAccepted :
    (m : Manager) (user : User) (rules : List String)
    → file_rules m user ≡ ok rules
    → All IsAccepted rules
unfolding file_rules
file_rules-IsAccepted m user rules h =
    sorted-IsAccepted (mapped_rules m.legacy_permission_map (m.file_policy.roles_actions user).1)
      rules h

bool_injective : {a b : Bool} → ◌≡◌ {A = Result Error Bool} (ok a) (ok b) → a ≡ b
bool_injective h = cc

-- The map has the entry.
abbrev pub Lists : LegacyMap → String → List String → Type 0
Lists [] action rules = ⊥
Lists ((a, r) ∷ m) action rules = ((a ≡ action) × (r ≡ rules)) ⊎ Lists m action rules

module _ (resource operation scope : String) where
  Granted-append_iff :
      (xs ys : List String)
      → Granted resource operation scope (xs ++ ys)
        ↔ (Granted resource operation scope xs ⊎ Granted resource operation scope ys)
  Granted-append_iff xs ys = (
    λ (rule, here, g). elim (Bool-cases (elem rule xs)) [
      | inl e ↦ inl (rule, e, g)
      | inr e ↦ inr (rule, ground (arith, here, e, elem-append rule xs ys), g)
    ],
    λ h. elim h [
      | inl (rule, here, g) ↦ (rule, elem-append rule xs ys ∙ ground (arith, here), g)
      | inr (rule, here, g) ↦ (rule, elem-append rule xs ys ∙ ground (arith, here), g)
    ],
  )

  -- With the database, when the rights of a user who is not anonymous can be merged and the custom
  -- rules are all accepted, the user is allowed exactly what a rule of the file policy or a custom
  -- rule grants.
  pub allowed_with_database_iff :
      (m : Manager) (user : User) (s : Sources)
      → access_control_available m ≡ true
      → user.anonymous ≡ false
      → roles_actions_sources m user ≡ ok s
      → All IsAccepted s.custom.rules
      → (allowed_user_permission m user resource operation scope ≡ ok true) ↔ (
          Granted resource operation scope s.policy.rules
          ⊎ Granted resource operation scope s.custom.rules)
  unfolding allowed_user_permission
  allowed_with_database_iff m user s available named sources accepted =
      let (policy_rules, custom, derived, e, _, _, same) = sources_parts m user s sources in
      let policy_accepted : All IsAccepted s.policy.rules =
        subst (λ (t : Sources). All IsAccepted t.policy.rules) same
          (file_rules-IsAccepted m user policy_rules e) in
      let merged : s.merged.rules ≡ s.policy.rules ++ s.custom.rules =
        subst (λ (t : Sources). t.merged.rules ≡ t.policy.rules ++ t.custom.rules) same refl in
      let decides =
        permission_rules_allow_iff resource operation scope (s.policy.rules ++ s.custom.rules)
          (All-append IsAccepted s.policy.rules s.custom.rules policy_accepted accepted) in
      rw (available, sources, merged, named)
        (
          λ h. (Granted-append_iff s.policy.rules s.custom.rules).0 (decides.0 h),
          λ h. decides.1 ((Granted-append_iff s.policy.rules s.custom.rules).1 h),
        )

  -- An action of the map whose rules grant the request and that the user has.
  abbrev pub HasAction : Manager → User → LegacyMap → Type 0
  HasAction m user legacy_map =
      (action : String) × (rules : List String) × Lists legacy_map action rules
      × Granted resource operation scope rules
      × (allowed_user_action m user action ≡ ok true)

  pub allowed_by_actions_iff :
      (m : Manager) (user : User) (legacy_map : LegacyMap)
      → ((action : String) → (b : Bool) × (allowed_user_action m user action ≡ ok b))
      → IsAcceptedMap legacy_map
      → (allowed_by_actions m user resource operation scope legacy_map ≡ ok true)
        ↔ HasAction m user legacy_map
  unfolding allowed_by_actions
  allowed_by_actions_iff m user [] total h = (λ e. cc, λ has. absurd has.2)
  allowed_by_actions_iff m user ((a, r) ∷ legacy_map) total h =
      step (permission_rules_allow_total resource operation scope r h.0) (total a)
        (allowed_by_actions_iff m user legacy_map total h.1)
    where
      decides :
          (permission_rules_allow r resource operation scope ≡ ok true)
          ↔ Granted resource operation scope r
      decides = permission_rules_allow_iff resource operation scope r h.0

      in_rest :
          ((action : String) × (rules : List String) × ((a ≡ action) × (r ≡ rules))
              × Granted resource operation scope rules
              × (allowed_user_action m user action ≡ ok true)
            → ⊥)
          → HasAction m user ((a, r) ∷ legacy_map)
          → HasAction m user legacy_map
      in_rest no_head (action, rules, inl here, granted, mine) =
          absurd (no_head (action, rules, here, granted, mine))
      in_rest no_head (action, rules, inr listed, granted, mine) =
          (action, rules, listed, granted, mine)

      later : HasAction m user legacy_map → HasAction m user ((a, r) ∷ legacy_map)
      later (action, rules, listed, granted, mine) = (action, rules, inr listed, granted, mine)

      step :
          ((b : Bool) × (permission_rules_allow r resource operation scope ≡ ok b))
          → ((b : Bool) × (allowed_user_action m user a ≡ ok b))
          → (allowed_by_actions m user resource operation scope legacy_map ≡ ok true)
            ↔ HasAction m user legacy_map
          → (allowed_by_actions m user resource operation scope ((a, r) ∷ legacy_map) ≡ ok true)
            ↔ HasAction m user ((a, r) ∷ legacy_map)
      step (true, e) (true, f) ih = (λ _. (a, r, inl (refl, refl), decides.0 e, f), λ _. rw (e, f))
      step (true, e) (false, f) ih = (
        λ g. later (ih.0 (rw (e, f) at g)),
        λ has.
            rw (e, f)
              (ih.1 (in_rest (λ (action, rules, (pa, pr), granted, mine). cc (mine, f, pa)) has)),
      )
      step (false, e) _ ih =
          (λ g. later (ih.0 (rw e at g)), λ has. rw e (ih.1 (in_rest refused has)))
        where
          refused :
              (action : String) × (rules : List String) × ((a ≡ action) × (r ≡ rules))
                × Granted resource operation scope rules
                × (allowed_user_action m user action ≡ ok true)
              → ⊥
          refused (action, rules, (pa, pr), granted, mine) =
              cc (e, decides.1 (subst (Granted resource operation scope) (sym pr) granted))

  action_total :
      (m : Manager) (user : User) (s : Sources)
      → user.anonymous ≡ false
      → roles_actions_sources m user ≡ ok s
      → (action : String) → allowed_user_action m user action ≡ ok (elem action s.merged.actions)
  unfolding allowed_user_action
  action_total m user s named sources action = rw (sources, named)

  -- Without the database, when the rights of a user who is not anonymous can be merged and the rules of
  -- the map are all accepted, the user is allowed exactly what a rule grants that the map gives to one
  -- of the user's merged actions.
  pub allowed_without_database_iff :
      (m : Manager) (user : User) (s : Sources)
      → access_control_available m ≡ false
      → user.anonymous ≡ false
      → roles_actions_sources m user ≡ ok s
      → IsAcceptedMap m.legacy_permission_map
      → (allowed_user_permission m user resource operation scope ≡ ok true) ↔ (
          (action : String) × (rules : List String) × Lists m.legacy_permission_map action rules
          × Granted resource operation scope rules
          × (elem action s.merged.actions ≡ true))
  unfolding allowed_user_permission
  allowed_without_database_iff m user s unavailable named sources accepted =
      let total = action_total m user s named sources in
      let decides =
        allowed_by_actions_iff m user m.legacy_permission_map (λ action. (_, total action))
          accepted in
      rw unavailable (
        λ h.
            let (action, rules, listed, granted, mine) = decides.0 h in
            (action, rules, listed, granted, bool_injective (sym (total action) ∙ mine)),
        λ (action, rules, listed, granted, mine).
            decides.1 (action, rules, listed, granted, total action ∙ ap ok mine),
      )
