-- ===== src/Access/Escalation.antt =====
-- Without the database, an action that shares one rule with an action of the user is the user's too.
use slurm_web_plus.Prelude.{
  String, Bool, true, false, some, List, [], ◌∷◌, ◌++◌, ◌||◌, elem, elem-append, ◌≡◌, refl, ap, ◌∙◌,
  arith, Bool-cases, inl, inr, ◌==◌, eq_iff,
}
use mathlib.Core.List.{append-nil}
use slurm_web_plus.Prelude.Dict.{get}
use slurm_web_plus.Prelude.Result.{ok}
use slurm_web_plus.Permission.RuleSet.{Granted}
use slurm_web_plus.Permission.Legacy.{LegacyMap, permission_rules_to_legacy_actions}
use slurm_web_plus.Permission.Legacy.Actions.{
  IsAcceptedMap, derived_actions, allow_rule_of_mapped, legacy_rules-IsAccepted,
  legacy_actions_to_rules_total,
}
use slurm_web_plus.Access.{
  User, Manager, Sources, access_control_available, file_rules, custom_roles_actions_rules,
  roles_actions_sources, allowed_user_permission, merge_rights, policy_rights, no_rights,
}
use slurm_web_plus.Access.Decision.{Lists, allowed_without_database_iff}

Lists-of_get :
    (legacy_map : LegacyMap) (action : String) (rules : List String)
    → get action legacy_map ≡ some rules
    → Lists legacy_map action rules
unfolding get
Lists-of_get [] action rules h = cc
Lists-of_get ((a, r) ∷ legacy_map) action rules h = elim (Bool-cases (a == action)) [
  | inl e ↦ inl ((eq_iff a action).0 e, ground (arith, h, e))
  | inr e ↦ inr (Lists-of_get legacy_map action rules (ground (arith, h, e)))
]

no_custom :
    (m : Manager) (user : User)
    → access_control_available m ≡ false
    → custom_roles_actions_rules m user ≡ ok no_rights
unfolding custom_roles_actions_rules
no_custom m user h = rw h (ground arith)

-- Without the database the merging succeeds, and its actions have the user's own and every action
-- of the map that shares a rule with one of these.
pub sources_without_database :
    (m : Manager) (user : User)
    → access_control_available m ≡ false
    → IsAcceptedMap m.legacy_permission_map
    → (s : Sources) × (roles_actions_sources m user ≡ ok s)
      × ((mine other rule : String) (my_rules other_rules : List String)
          → elem mine (m.file_policy.roles_actions user).1 ≡ true
          → get mine m.legacy_permission_map ≡ some my_rules
          → elem rule my_rules ≡ true
          → get other m.legacy_permission_map ≡ some other_rules
          → elem rule other_rules ≡ true
          → elem other s.merged.actions ≡ true)
unfolding roles_actions_sources file_rules
sources_without_database m user unavailable accepted =
    let actions = (m.file_policy.roles_actions user).1 in
    let (rules, to_rules) =
      legacy_actions_to_rules_total m.legacy_permission_map actions accepted in
    let (back, translated, has_all) =
      derived_actions m.legacy_permission_map rules accepted
        (legacy_rules-IsAccepted m.legacy_permission_map actions rules to_rules) in
    (
      merge_rights (policy_rights m user rules) no_rights back,
      rw (to_rules, no_custom m user unavailable) (rw (derive rules ∙ translated) refl),
      λ mine other rule my_rules other_rules here my_entry shared other_entry shared_too.
          elem-append other (actions ++ []) back
          ∙ or_right (elem other (actions ++ [])) (
              has_all other rule other_rules other_entry shared_too (
                allow_rule_of_mapped m.legacy_permission_map actions rules mine rule my_rules
                  to_rules here my_entry shared)),
    )
  where
    derive :
        (rules : List String)
        → permission_rules_to_legacy_actions (rules ++ []) m.legacy_permission_map
          ≡ permission_rules_to_legacy_actions rules m.legacy_permission_map
    derive rules =
        ap (λ r. permission_rules_to_legacy_actions r m.legacy_permission_map) (append-nil rules)

    or_right : (a : Bool) {b : Bool} → b ≡ true → (a || b) ≡ true
    or_right a h = ground arith

-- Without the database, and with a map whose rules are all accepted, a user who is not anonymous and
-- whom the file policy gives an action is allowed everything that the rules of another action grant,
-- if the map gives the two actions a common rule.
pub shared_rule_escalates :
    (m : Manager) (user : User) (mine other rule : String) (my_rules other_rules : List String)
    (resource operation scope : String)
    → access_control_available m ≡ false
    → user.anonymous ≡ false
    → IsAcceptedMap m.legacy_permission_map
    → elem mine (m.file_policy.roles_actions user).1 ≡ true
    → get mine m.legacy_permission_map ≡ some my_rules
    → elem rule my_rules ≡ true
    → get other m.legacy_permission_map ≡ some other_rules
    → elem rule other_rules ≡ true
    → Granted resource operation scope other_rules
    → allowed_user_permission m user resource operation scope ≡ ok true
shared_rule_escalates m user mine other rule my_rules other_rules resource operation scope
      unavailable named accepted here my_entry shared other_entry shared_too granted =
    let (s, sources, has_other) = sources_without_database m user unavailable accepted in
    (allowed_without_database_iff resource operation scope m user s unavailable named sources
        accepted).1
      (
        other,
        other_rules,
        Lists-of_get m.legacy_permission_map other other_rules other_entry,
        granted,
        has_other mine other rule my_rules other_rules here my_entry shared other_entry shared_too,
      )
