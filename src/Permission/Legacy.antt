-- ===== src/Permission/Legacy.antt =====
-- The map from the actions of the file policy to rules, of slurmweb/permission_rules.py: its default,
-- the file that overrides it, and the translations in both directions. The file is given as the
-- document that the YAML parser returns.
pub mod Allowed
pub mod Actions
pub mod Merged
pub mod Overrides
use slurm_web_plus.Prelude.{
  String, Bool, true, false, Option, none, some, List, [], ◌∷◌, ◌++◌, if◌then◌else◌,
}
use slurm_web_plus.Prelude.Text.{split}
use slurm_web_plus.Prelude.Order.{sorted_set, sorted}
use slurm_web_plus.Prelude.Dict.{Dict, get, assign, update, or_else}
use slurm_web_plus.Prelude.Result.{Result, ok, err, ◌>>=◌, traverse}
use slurm_web_plus.Permission.Rule.{
  Error, invalid_rule, not_a_string, not_a_mapping, not_a_list, normalize_permission_rule,
  sort_permission_rules,
}
use slurm_web_plus.Permission.Matching.{permission_rules_allow}

abbrev pub LegacyMap : Type 0
LegacyMap = Dict (List String)

abbrev pub default_legacy_permission_map : LegacyMap
default_legacy_permission_map =
    ("view-stats", "dashboard:view:*" ∷ "analysis:view:*" ∷ [])
    ∷ ("view-ai", "ai:view:*" ∷ [])
    ∷ ("view-jobs", "jobs:view:*" ∷ [])
    ∷ ("view-history-jobs", "jobs-history:view:*" ∷ [])
    ∷ ("view-nodes", "resources:view:*" ∷ [])
    ∷ ("view-qos", "qos:view:*" ∷ "jobs/filter-qos:view:*" ∷ [])
    ∷ ("view-reservations", "reservations:view:*" ∷ [])
    ∷ ("associations-view", "accounts:view:*" ∷ "user/profile:view:*" ∷ [])
    ∷ ("view-accounts", "jobs/filter-accounts:view:*" ∷ [])
    ∷ (
      "view-partitions",
      "jobs/filter-partitions:view:*" ∷ "resources/filter-partitions:view:*" ∷ [],
    )
    ∷ ("cache-view", "admin/cache:view:*" ∷ "admin/ldap-users:view:*" ∷ [])
    ∷ ("cache-reset", "admin/cache:edit:*" ∷ [])
    ∷ ("admin-manage", "*:*:*" ∷ [])
    ∷ []

-- What the parser returns, as far as the code looks at it. `nothing` is every value that Python
-- takes for false.
pub data Item : Type 0 where
  text : String → Item
  other : Item

pub data Entry : Type 0 where
  items : List Item → Entry
  other : Entry

pub data Document : Type 0 where
  nothing : Document
  mapping : List (String × Entry) → Document
  other : Document

-- The test `isinstance(rule, str)`.
pub normalize_item : Item → Result Error String
normalize_item (text rule) = normalize_permission_rule rule
normalize_item Item.other = err not_a_string

pub sort_items : List Item → Result Error (List String)
unfolding normalize_item traverse
sort_items rules = do normalized ← traverse normalize_item rules; ok (sorted_set normalized)

pub load_entry : String → Entry → Result Error (List String)
unfolding sort_items
load_entry action (items rules) = sort_items rules
load_entry action Entry.other = err (not_a_list action)

pub load_entries : LegacyMap → List (String × Entry) → Result Error LegacyMap
unfolding load_entry
load_entries normalized [] = ok normalized
load_entries normalized ((action, rules) ∷ raw) = do
  loaded ← load_entry action rules
  load_entries (assign action loaded normalized) raw

-- `none` is a path that is not given or does not exist.
pub load_legacy_permission_map : Option Document → Result Error LegacyMap
unfolding load_entries
load_legacy_permission_map none = ok []
load_legacy_permission_map (some nothing) = ok []
load_legacy_permission_map (some (mapping raw)) = load_entries [] raw
load_legacy_permission_map (some Document.other) = err not_a_mapping

pub sort_map : LegacyMap → Result Error LegacyMap
unfolding sort_permission_rules
sort_map [] = ok []
sort_map ((action, rules) ∷ actions) = do
  rules' ← sort_permission_rules rules
  rest ← sort_map actions
  ok ((action, rules') ∷ rest)

unfoldable pub merged_legacy_permission_map : Option Document → Result Error LegacyMap
unfolding load_legacy_permission_map sort_map
merged_legacy_permission_map document = do
  merged ← sort_map default_legacy_permission_map
  loaded ← load_legacy_permission_map document
  ok (update merged loaded)

-- The rules of the actions that the map has, `legacy_map.get(action, [])` for each.
unfoldable pub mapped_rules : LegacyMap → List String → List String
unfolding get
mapped_rules legacy_map [] = []
mapped_rules legacy_map (action ∷ actions) =
    or_else [] (get action legacy_map) ++ mapped_rules legacy_map actions

unfoldable pub legacy_actions_to_rules : List String → LegacyMap → Result Error (List String)
unfolding mapped_rules
legacy_actions_to_rules actions legacy_map = sort_permission_rules (mapped_rules legacy_map actions)

-- The request that a normalised rule stands for: its three parts.
pub allow_parts : List String → List String → Result Error Bool
unfolding permission_rules_allow
allow_parts rules (resource ∷ operation ∷ scope ∷ []) =
    permission_rules_allow rules resource operation scope
allow_parts rules _ = err (invalid_rule "")

pub allow_rule : List String → String → Result Error Bool
unfolding allow_parts
allow_rule rules required_rule = do
  normalized ← normalize_permission_rule required_rule
  allow_parts rules (split b':' normalized)

-- `any(...)` over the required rules of an action.
pub any_allowed : List String → List String → Result Error Bool
unfolding allow_rule
any_allowed rules [] = ok false
any_allowed rules (required_rule ∷ required_rules) = do
  allowed ← allow_rule rules required_rule
  let rest = any_allowed rules required_rules
  if allowed then ok true else rest

pub collect_actions : List String → LegacyMap → Result Error (List String)
unfolding any_allowed
collect_actions rules [] = ok []
collect_actions rules ((action, required_rules) ∷ legacy_map) = do
  allowed ← any_allowed rules required_rules
  actions ← collect_actions rules legacy_map
  ok (if allowed then action ∷ actions else actions)

unfoldable pub permission_rules_to_legacy_actions :
    List String → LegacyMap → Result Error (List String)
unfolding collect_actions
permission_rules_to_legacy_actions rules legacy_map = do
  normalized_rules ← sort_permission_rules rules
  actions ← collect_actions normalized_rules legacy_map
  ok (sorted actions)
