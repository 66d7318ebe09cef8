-- ===== src/Permission/Legacy/Actions.antt =====
-- From actions to rules and back.
use slurm_web_plus.Prelude.{
  String, Bool, true, false, some, List, [], ◌∷◌, ◌==◌, if◌then◌else◌, elem, ◌≡◌, inl, inr, refl,
  subst, ◌∙◌, arith, eq_iff, Bool-cases, Option-cases, All, All-append,
}
use slurm_web_plus.Prelude.Order.{sorted, elem-sorted}
use slurm_web_plus.Prelude.Dict.{get, or_else}
use slurm_web_plus.Prelude.Result.{ok}
use slurm_web_plus.Permission.RuleSet.{IsAccepted}
use slurm_web_plus.Permission.Sorted.{
  sort_permission_rules_iff, IsAccepted-of_All, sorted-IsAccepted,
}
use slurm_web_plus.Permission.Legacy.{
  LegacyMap, mapped_rules, legacy_actions_to_rules, allow_rule, any_allowed, collect_actions,
  permission_rules_to_legacy_actions,
}
use slurm_web_plus.Permission.Legacy.Allowed.{
  mapped_rules_iff, allow_rule_of_elem, allow_rule-sorted, allow_rule_total, any_allowed_total,
}

-- Every rule that the map holds is accepted.
abbrev pub IsAcceptedMap : LegacyMap → Type 0
IsAcceptedMap = All (λ entry. All IsAccepted entry.1)

-- An action of the map is collected when one of its rules is allowed.
collect_actions_lem :
    (rules : List String) (legacy_map : LegacyMap)
    → All IsAccepted rules
    → IsAcceptedMap legacy_map
    → (actions : List String) × (collect_actions rules legacy_map ≡ ok actions)
      × ((a : String) (required : List String)
          → get a legacy_map ≡ some required
          → any_allowed rules required ≡ ok true
          → elem a actions ≡ true)
unfolding collect_actions get elem
collect_actions_lem rules [] h k = ([], refl, λ a required e f. cc)
collect_actions_lem rules ((action, required_rules) ∷ legacy_map) h k =
    let (b, answer) = any_allowed_total rules required_rules h k.0 in
    let (actions, collected, has_all) = collect_actions_lem rules legacy_map h k.1 in
    (
      if b then action ∷ actions else actions,
      rw (answer, collected),
      λ a required e f. elim (Bool-cases (action == a)) [
        | inl same ↦ ground (arith, answer, e, f, eq_iff action a, eq_iff a action)
        | inr other ↦ ground (arith, has_all a required (ground (arith, e, other)) f)
      ],
    )

-- One required rule that is allowed is enough.
any_allowed_of_elem :
    (rules required : List String) (rule : String)
    → All IsAccepted rules
    → All IsAccepted required
    → elem rule required ≡ true
    → allow_rule rules rule ≡ ok true
    → any_allowed rules required ≡ ok true
unfolding any_allowed elem
any_allowed_of_elem rules [] rule h k m e = ground arith
any_allowed_of_elem rules (r ∷ rs) rule h k m e = elim (Bool-cases (rule == r)) [
  | inl same ↦ rw (← (eq_iff rule r).0 same) (rw e)
  | inr other ↦
      step (allow_rule_total rules r h k.0)
        (any_allowed_of_elem rules rs rule h k.1 (ground (arith, m, other)) e)
]
  where
    step :
        ((b : Bool) × (allow_rule rules r ≡ ok b))
        → any_allowed rules rs ≡ ok true
        → any_allowed rules (r ∷ rs) ≡ ok true
    step (true, f) ih = rw f
    step (false, f) ih = rw f ih

IsAccepted-entry :
    (legacy_map : LegacyMap) (action : String) (required : List String)
    → IsAcceptedMap legacy_map
    → get action legacy_map ≡ some required
    → All IsAccepted required
unfolding get
IsAccepted-entry [] action required h e = cc
IsAccepted-entry ((k, v) ∷ legacy_map) action required h e = elim (Bool-cases (k == action)) [
  | inl same ↦ subst (All IsAccepted) (ground (arith, e, same)) h.0
  | inr other ↦ IsAccepted-entry legacy_map action required h.1 (ground (arith, e, other))
]

-- From accepted rules the translation back succeeds, and finds every action of the map one of
-- whose rules is among them.
pub derived_actions :
    (legacy_map : LegacyMap) (rules : List String)
    → IsAcceptedMap legacy_map
    → All IsAccepted rules
    → (back : List String) × (permission_rules_to_legacy_actions rules legacy_map ≡ ok back)
      × ((action rule : String) (required : List String)
          → get action legacy_map ≡ some required
          → elem rule required ≡ true
          → allow_rule rules rule ≡ ok true
          → elem action back ≡ true)
unfolding permission_rules_to_legacy_actions
derived_actions legacy_map rules h accepted =
    let (out, sorted_again) = (sort_permission_rules_iff rules).1 accepted in
    let out_accepted = sorted-IsAccepted rules out sorted_again in
    let (found, collected, has_all) = collect_actions_lem out legacy_map out_accepted h in
    (
      sorted found,
      rw (sorted_again, collected),
      λ action rule required entry m allowed.
          let required_accepted = IsAccepted-entry legacy_map action required h entry in
          elem-sorted action found
          ∙ has_all action required entry (
              any_allowed_of_elem out required rule out_accepted required_accepted m (
                allow_rule-sorted rules out rule sorted_again
                  (IsAccepted-of_All rule required required_accepted m)
                ∙ allowed)),
    )

-- The rules of an action of the map are allowed by the rules that the actions give.
pub allow_rule_of_mapped :
    (legacy_map : LegacyMap) (actions rules : List String) (action rule : String)
    (required : List String)
    → legacy_actions_to_rules actions legacy_map ≡ ok rules
    → elem action actions ≡ true
    → get action legacy_map ≡ some required
    → elem rule required ≡ true
    → allow_rule rules rule ≡ ok true
unfolding legacy_actions_to_rules
allow_rule_of_mapped legacy_map actions rules action rule required to_rules here entry m =
    let mapped = mapped_rules legacy_map actions in
    let mapped_accepted : All IsAccepted mapped =
      (sort_permission_rules_iff mapped).0 (rules, to_rules) in
    let among : elem rule mapped ≡ true =
      (mapped_rules_iff legacy_map actions rule).1 (action, here, rw entry m) in
    allow_rule-sorted mapped rules rule to_rules
      (IsAccepted-of_All rule mapped mapped_accepted among)
    ∙ allow_rule_of_elem mapped rule mapped_accepted among

pub legacy_rules-IsAccepted :
    (legacy_map : LegacyMap) (actions rules : List String)
    → legacy_actions_to_rules actions legacy_map ≡ ok rules
    → All IsAccepted rules
unfolding legacy_actions_to_rules
legacy_rules-IsAccepted legacy_map actions rules h =
    sorted-IsAccepted (mapped_rules legacy_map actions) rules h

-- If the rules of the map are all accepted and some actions give rules, the translation of these back
-- to actions succeeds, and finds each of the actions that has a rule in the map.
pub actions_round_trip :
    (legacy_map : LegacyMap) (actions rules : List String) (action rule : String)
    (required : List String)
    → IsAcceptedMap legacy_map
    → legacy_actions_to_rules actions legacy_map ≡ ok rules
    → elem action actions ≡ true
    → get action legacy_map ≡ some required
    → elem rule required ≡ true
    → (back : List String) × (permission_rules_to_legacy_actions rules legacy_map ≡ ok back)
      × (elem action back ≡ true)
actions_round_trip legacy_map actions rules action rule required h to_rules here entry m =
    let (back, translated, has_all) =
      derived_actions legacy_map rules h
        (legacy_rules-IsAccepted legacy_map actions rules to_rules) in
    (
      back,
      translated,
      has_all action rule required entry m (
          allow_rule_of_mapped legacy_map actions rules action rule required to_rules here entry m),
    )

mapped_rules-IsAccepted :
    (legacy_map : LegacyMap) (actions : List String)
    → IsAcceptedMap legacy_map
    → All IsAccepted (mapped_rules legacy_map actions)
unfolding mapped_rules
mapped_rules-IsAccepted legacy_map [] h = tt
mapped_rules-IsAccepted legacy_map (a ∷ actions) h =
    All-append IsAccepted _ _ entry (mapped_rules-IsAccepted legacy_map actions h)
  where
    entry : All IsAccepted (or_else [] (get a legacy_map))
    entry = elim (Option-cases (get a legacy_map)) [
      | inl e ↦ rw e tt
      | inr (required, e) ↦ rw e (IsAccepted-entry legacy_map a required h e)
    ]

-- With a map of accepted rules the translation to rules succeeds.
pub legacy_actions_to_rules_total :
    (legacy_map : LegacyMap) (actions : List String)
    → IsAcceptedMap legacy_map
    → (rules : List String) × (legacy_actions_to_rules actions legacy_map ≡ ok rules)
unfolding legacy_actions_to_rules
legacy_actions_to_rules_total legacy_map actions h =
    (sort_permission_rules_iff (mapped_rules legacy_map actions)).1
      (mapped_rules-IsAccepted legacy_map actions h)
