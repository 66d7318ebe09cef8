-- ===== src/Permission/Matching.antt =====
-- `_resource_matches`, `permission_rule_allows` and `permission_rules_allow` of
-- slurmweb/permission_rules.py.
use slurm_web_plus.Prelude.{
  String, Bool, true, false, List, [], ◌∷◌, ◌==◌, ◌||◌, ◌&&◌, elem, if◌then◌else◌,
}
use slurm_web_plus.Prelude.Text.{split}
use slurm_web_plus.Prelude.Affix.{starts_with, ends_with, drop_last}
use slurm_web_plus.Prelude.Result.{Result, ok, err, ◌>>=◌}
use slurm_web_plus.Permission.Rule.{Error, invalid_rule, normalize_permission_rule}

unfoldable pub resource_matches : String → String → Bool
unfolding starts_with ends_with drop_last
resource_matches granted requested =
    if granted == "*"
    then true
    else if granted == requested
    then true
    else if ends_with granted "/*"
    then starts_with requested (drop_last granted)
    else false

unfoldable pub operation_matches : String → String → Bool
unfolding elem
operation_matches granted operation =
    if granted == "*"
    then true
    else if operation == "view"
    then elem granted ("view" ∷ "edit" ∷ "delete" ∷ [])
    else granted == operation

-- The rule's three parts against the request. Another number of parts cannot be unpacked.
unfoldable pub granted_parts_allow : List String → String → String → String → Result Error Bool
unfolding resource_matches operation_matches
granted_parts_allow (granted_resource ∷ granted_operation ∷ granted_scope ∷ []) resource operation
      scope =
    ok (
      resource_matches granted_resource resource
      && operation_matches granted_operation operation
      && (granted_scope == "*" || granted_scope == scope))
granted_parts_allow parts resource operation scope = err (invalid_rule resource)

unfoldable pub permission_rule_allows : String → String → String → String → Result Error Bool
unfolding granted_parts_allow normalize_permission_rule split
permission_rule_allows rule resource operation scope = do
  normalized ← normalize_permission_rule rule
  granted_parts_allow (split b':' normalized) resource operation scope

unfoldable pub permission_rules_allow : List String → String → String → String → Result Error Bool
unfolding permission_rule_allows
permission_rules_allow [] resource operation scope = ok false
permission_rules_allow (rule ∷ rules) resource operation scope = do
  allowed ← permission_rule_allows rule resource operation scope
  let rest = permission_rules_allow rules resource operation scope
  if allowed then ok true else rest
