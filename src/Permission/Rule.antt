-- ===== src/Permission/Rule.antt =====
-- `normalize_permission_rule` and `sort_permission_rules` of slurmweb/permission_rules.py. A rule is
-- the text `resource:operation:scope`.
use slurm_web_plus.Prelude.{String, List, [], ◌∷◌, ◌==◌, not, elem}
use slurm_web_plus.Prelude.Text.{split, strip}
use slurm_web_plus.Prelude.Order.{sorted_set}
use slurm_web_plus.Prelude.Dict.{Dict, get, or_else}
use slurm_web_plus.Prelude.Result.{Result, ok, err, ◌>>=◌, ◌>>◌, require, traverse}
use Prim.Native.String

-- The messages of the `ValueError` that is raised.
pub data Error : Type 0 where
  not_a_string : Error
  invalid_rule invalid_operation invalid_scope : String → Error
  not_a_mapping : Error
  not_a_list : String → Error

abbrev pub permission_scopes : List String
permission_scopes = "*" ∷ "self" ∷ []

abbrev pub permission_operations : List String
permission_operations = "view" ∷ "edit" ∷ "delete" ∷ "*" ∷ []

abbrev pub permission_resource_aliases : Dict String
permission_resource_aliases = ("admin/ldap-cache", "admin/ldap-users") ∷ []

-- The resource that an alias stands for.
unfoldable pub canonical_resource : String → String
unfolding get
canonical_resource resource = or_else resource (get resource permission_resource_aliases)

-- `f"{resource}:{operation}:{scope}"`.
abbrev pub rule_text : String → String → String → String
rule_text resource operation scope =
    String.◌++◌ resource (String.◌∷◌ ":" (String.◌++◌ operation (String.◌∷◌ ":" scope)))

-- The checks on the three parts, in the code's order.
unfoldable pub check_parts : String → List String → Result Error String
unfolding elem canonical_resource
check_parts rule (resource ∷ operation ∷ scope ∷ []) = do
  require (not (resource == "")) (invalid_rule rule)
  require (elem operation permission_operations) (invalid_operation operation)
  require (elem scope permission_scopes) (invalid_scope scope)
  ok (rule_text (canonical_resource resource) operation scope)
check_parts rule _ = err (invalid_rule rule)

unfoldable pub normalize_permission_rule : String → Result Error String
unfolding check_parts strip split
normalize_permission_rule rule = check_parts rule (split b':' (strip rule))

unfoldable pub sort_permission_rules : List String → Result Error (List String)
unfolding traverse sorted_set
sort_permission_rules rules = do
  normalized ← traverse normalize_permission_rule rules
  ok (sorted_set normalized)
