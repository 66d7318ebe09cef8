-- ===== src/Permission/Tests.antt =====
-- Runs of slurmweb/permission_rules.py at concrete rules, and the theorems at concrete inputs.
use slurm_web_plus.Prelude.{
  Bool, String, true, false, Option, some, List, [], ◌∷◌, elem, ◌++◌, ◌&&◌, ◌≡◌, ◌↔◌, refl, All,
}
use slurm_web_plus.Prelude.Dict.{get}
use slurm_web_plus.Prelude.Result.{ok, err}
use slurm_web_plus.Permission.Rule.{
  invalid_scope, invalid_operation, canonical_resource, rule_text, normalize_permission_rule,
  sort_permission_rules,
}
use slurm_web_plus.Permission.Normal.{IsRule, normalize_iff}
use slurm_web_plus.Permission.Matching.{permission_rule_allows, permission_rules_allow}
use slurm_web_plus.Permission.Grant.{Grants, permission_rule_allows_iff}
use slurm_web_plus.Permission.RuleSet.{IsAccepted, Granted, permission_rules_allow_iff}
use slurm_web_plus.Permission.Sorted.{
  IsSortedForm, sort_permission_rules_sound, permission_rules_allow-sorted,
}
use slurm_web_plus.Permission.Legacy.{
  LegacyMap, Document, text, items, mapping, default_legacy_permission_map,
  merged_legacy_permission_map, legacy_actions_to_rules, permission_rules_to_legacy_actions,
}
use slurm_web_plus.Permission.Catalog.{Resource, Group, permission_catalog}
use slurm_web_plus.Permission.Seed.{user_rules}
use slurm_web_plus.Permission.Legacy.Actions.{IsAcceptedMap, actions_round_trip}
use slurm_web_plus.Permission.Legacy.Merged.{merged-IsAcceptedMap}
use slurm_web_plus.Permission.Legacy.Overrides.{entries_of, last_entry, Merges, merged_overrides}

alias_normal : normalize_permission_rule " admin/ldap-cache:view:* " ≡ ok "admin/ldap-users:view:*"
unfolding normalize_permission_rule
alias_normal = refl

unknown_scope : normalize_permission_rule "jobs:view:other" ≡ err (invalid_scope "other")
unfolding normalize_permission_rule
unknown_scope = refl

unknown_operation : normalize_permission_rule "jobs:create:*" ≡ err (invalid_operation "create")
unfolding normalize_permission_rule
unknown_operation = refl

below_allowed : permission_rule_allows "jobs/*:edit:*" "jobs/filter-qos" "view" "self" ≡ ok true
unfolding permission_rule_allows
below_allowed = refl

other_scope_refused : permission_rule_allows "jobs:view:self" "jobs" "view" "*" ≡ ok false
unfolding permission_rule_allows
other_scope_refused = refl

abbrev two_rules : List String
two_rules = "jobs:edit:self" ∷ "admin/ldap-cache:view:*" ∷ []

abbrev two_sorted : List String
two_sorted = "admin/ldap-users:view:*" ∷ "jobs:edit:self" ∷ []

two_sorted_eq : sort_permission_rules two_rules ≡ ok two_sorted
unfolding sort_permission_rules normalize_permission_rule
two_sorted_eq = refl

two-IsAccepted : All IsAccepted two_rules
unfolding normalize_permission_rule
two-IsAccepted = ((_, refl), ((_, refl), tt))

permission_rule_allows_iff_example :
    (permission_rule_allows "jobs/*:edit:*" "jobs/filter-qos" "view" "self" ≡ ok true)
    ↔ Grants "jobs/*:edit:*" "jobs/filter-qos" "view" "self"
permission_rule_allows_iff_example =
    permission_rule_allows_iff "jobs/*:edit:*" "jobs/filter-qos" "view" "self"

permission_rules_allow_iff_example :
    (permission_rules_allow two_rules "admin/ldap-users" "view" "*" ≡ ok true)
    ↔ Granted "admin/ldap-users" "view" "*" two_rules
permission_rules_allow_iff_example =
    permission_rules_allow_iff "admin/ldap-users" "view" "*" two_rules two-IsAccepted

normalize_iff_example :
    (normalize_permission_rule " admin/ldap-cache:view:* " ≡ ok "admin/ldap-users:view:*") ↔ (
      (r : String) × (o : String) × (s : String) × IsRule " admin/ldap-cache:view:* " r o s
      × ("admin/ldap-users:view:*" ≡ rule_text (canonical_resource r) o s))
normalize_iff_example = normalize_iff " admin/ldap-cache:view:* " "admin/ldap-users:view:*"

sort_permission_rules_sound_example : IsSortedForm two_rules two_sorted
sort_permission_rules_sound_example = sort_permission_rules_sound two_rules two_sorted two_sorted_eq

permission_rules_allow-sorted_example :
    permission_rules_allow two_sorted "jobs" "view" "self"
    ≡ permission_rules_allow two_rules "jobs" "view" "self"
permission_rules_allow-sorted_example =
    permission_rules_allow-sorted "jobs" "view" "self" two_rules two_sorted two_sorted_eq

abbrev small_map : LegacyMap
small_map = ("view-jobs", "jobs:view:*" ∷ []) ∷ ("cache-view", "admin/cache:view:*" ∷ []) ∷ []

small_map-IsAcceptedMap : IsAcceptedMap small_map
unfolding normalize_permission_rule
small_map-IsAcceptedMap = (((_, refl), tt), (((_, refl), tt), tt))

actions_round_trip_example :
    (back : List String) × (permission_rules_to_legacy_actions ("jobs:view:*" ∷ []) small_map
      ≡ ok back)
    × (elem "view-jobs" back ≡ true)
unfolding legacy_actions_to_rules normalize_permission_rule sort_permission_rules get elem
actions_round_trip_example =
    actions_round_trip small_map ("view-jobs" ∷ []) ("jobs:view:*" ∷ []) "view-jobs" "jobs:view:*"
      ("jobs:view:*" ∷ []) small_map-IsAcceptedMap refl refl refl refl

abbrev document : Option Document
document = some (mapping (("view-jobs", items (text "jobs:*:*" ∷ [])) ∷ []))

document_merged : (m : LegacyMap) × (merged_legacy_permission_map document ≡ ok m)
unfolding merged_legacy_permission_map normalize_permission_rule sort_permission_rules
document_merged = (_, refl)

merged-IsAcceptedMap_example : IsAcceptedMap document_merged.0
merged-IsAcceptedMap_example = merged-IsAcceptedMap document document_merged.0 document_merged.1

merged_overrides_example :
    Merges
      (last_entry "view-jobs" (entries_of document))
      (get "view-jobs" default_legacy_permission_map)
      (get "view-jobs" document_merged.0)
merged_overrides_example = merged_overrides document document_merged.0 "view-jobs" document_merged.1

abbrev rules_of_scopes : String → String → List String → List String
rules_of_scopes resource operation [] = []
rules_of_scopes resource operation (scope ∷ scopes) =
    rule_text resource operation scope ∷ rules_of_scopes resource operation scopes

abbrev rules_of_operations : String → List String → List String → List String
rules_of_operations resource scopes [] = []
rules_of_operations resource scopes (operation ∷ operations) =
    rules_of_scopes resource operation scopes ++ rules_of_operations resource scopes operations

abbrev rules_of_resources : List Resource → List String
rules_of_resources [] = []
rules_of_resources (r ∷ rs) =
    rules_of_operations r.resource r.scopes r.operations ++ rules_of_resources rs

abbrev rules_of_groups : List Group → List String
rules_of_groups [] = []
rules_of_groups (g ∷ gs) = rules_of_resources g.resources ++ rules_of_groups gs

abbrev all_elem : List String → List String → Bool
all_elem [] ys = true
all_elem (x ∷ xs) ys = elem x ys && all_elem xs ys

-- The rules of the user role are rules of the catalogue.
user_rules_in_catalog : all_elem user_rules (rules_of_groups permission_catalog) ≡ true
unfolding elem
user_rules_in_catalog = refl
