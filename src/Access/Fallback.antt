-- ===== src/Access/Fallback.antt =====
-- What the merging keeps, and what is left when the store fails.
use slurm_web_plus.Prelude.{
  String, none, some, List, ◌++◌, ◌||◌, elem, elem-append, ◌≡◌, refl, arith, ap, subst, ◌∙◌,
}
use slurm_web_plus.Prelude.Result.{Result, ok, >>=-eq-ok}
use slurm_web_plus.Permission.Rule.{Error}
use slurm_web_plus.Permission.Legacy.{permission_rules_to_legacy_actions}
use slurm_web_plus.Access.{
  User, Store, Manager, Rights, no_rights, Sources, set_access_control_store, merge_rights,
  policy_rights, ask_store, file_rules, custom_roles_actions_rules, roles_actions_sources,
}

custom_of_failure :
    (m : Manager) (user : User) (store : Store)
    → m.access_control_store ≡ some store
    → store user.login ≡ none
    → custom_roles_actions_rules m user ≡ ok no_rights
unfolding custom_roles_actions_rules
custom_of_failure m user store h e = ground (arith, ap (ask_store m user) h)

custom_of_no_store :
    (m : Manager) (user : User)
    → custom_roles_actions_rules (set_access_control_store none m) user ≡ ok no_rights
unfolding custom_roles_actions_rules set_access_control_store
custom_of_no_store m user = ground arith

-- A store that raises for the user gives the user the rights, or the failure, of the manager without a
-- store.
pub store_failure :
    (m : Manager) (user : User) (store : Store)
    → m.access_control_store ≡ some store
    → store user.login ≡ none
    → roles_actions_sources m user ≡ roles_actions_sources (set_access_control_store none m) user
unfolding roles_actions_sources
store_failure m user store h e =
    rw (custom_of_failure m user store h e, custom_of_no_store m user)
      (unfold file_rules set_access_control_store in refl)

-- The merged rights are the union of the policy's and the custom ones, and the merged actions have
-- those derived from the merged rules too.
pub record IsUnion (m : Manager) (s : Sources) : Type 0 where
  pub derived : List String
  pub translated :
      permission_rules_to_legacy_actions s.merged.rules m.legacy_permission_map ≡ ok derived
  pub roles :
      (k : String) → elem k s.merged.roles ≡ (elem k s.policy.roles || elem k s.custom.roles)
  pub rules :
      (k : String) → elem k s.merged.rules ≡ (elem k s.policy.rules || elem k s.custom.rules)
  pub actions :
      (k : String)
      → elem k s.merged.actions
        ≡ (elem k s.policy.actions || elem k s.custom.actions || elem k derived)

merge_rights-IsUnion :
    (m : Manager) (policy custom : Rights) (derived : List String)
    → permission_rules_to_legacy_actions (policy.rules ++ custom.rules) m.legacy_permission_map
      ≡ ok derived
    → IsUnion m (merge_rights policy custom derived)
merge_rights-IsUnion m policy custom derived h = record {
  derived = derived;
  translated = h;
  roles = λ k. elem-append k policy.roles custom.roles;
  rules = λ k. elem-append k policy.rules custom.rules;
  actions = λ k.
      elem-append k (policy.actions ++ custom.actions) derived
      ∙ ground (arith, elem-append k policy.actions custom.actions);
}

sources_injective : {s t : Sources} → ◌≡◌ {A = Result Error Sources} (ok s) (ok t) → s ≡ t
sources_injective h = cc

-- What a successful merging is made of.
pub sources_parts :
    (m : Manager) (user : User) (s : Sources)
    → roles_actions_sources m user ≡ ok s
    → (policy_rules : List String) × (custom : Rights) × (derived : List String) × (file_rules m
          user
        ≡ ok policy_rules)
      × (custom_roles_actions_rules m user ≡ ok custom)
      × (permission_rules_to_legacy_actions (policy_rules ++ custom.rules) m.legacy_permission_map
          ≡ ok derived)
      × (merge_rights (policy_rights m user policy_rules) custom derived ≡ s)
unfolding roles_actions_sources
sources_parts m user s h =
    let (policy_rules, e, h₁) = >>=-eq-ok (file_rules m user) _ h in
    let (custom, f, h₂) = >>=-eq-ok (custom_roles_actions_rules m user) _ h₁ in
    let (derived, g, h₃) =
      >>=-eq-ok
        (permission_rules_to_legacy_actions (policy_rules ++ custom.rules) m.legacy_permission_map)
        _ h₂ in
    (policy_rules, custom, derived, e, f, g, sources_injective h₃)

-- When the merging succeeds, its roles and rules are the union of those of the file policy and of the
-- store, and its actions are the union of theirs and of the actions derived from the merged rules.
pub roles_actions_sources-IsUnion :
    (m : Manager) (user : User) (s : Sources) → roles_actions_sources m user ≡ ok s → IsUnion m s
roles_actions_sources-IsUnion m user s h =
    let (policy_rules, custom, derived, _, _, translated, same) = sources_parts m user s h in
    subst (IsUnion m) same
      (merge_rights-IsUnion m (policy_rights m user policy_rules) custom derived translated)
