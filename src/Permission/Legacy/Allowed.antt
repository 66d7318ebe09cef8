-- ===== src/Permission/Legacy/Allowed.antt =====
-- The rules of the actions of a map, and the requests that rules spell.
use slurm_web_plus.Prelude.{
  String, Bool, true, false, List, [], ◌∷◌, ◌++◌, ◌==◌, elem, ◌≡◌, ◌↔◌, inl, inr, refl, subst, ◌∙◌,
  arith, eq_iff, eq_refl, Bool-cases, All, elem-append,
}
use slurm_web_plus.Prelude.Dict.{get, or_else}
use slurm_web_plus.Prelude.Result.{ok}
use slurm_web_plus.Permission.Rule.{canonical_resource, sort_permission_rules}
use slurm_web_plus.Permission.Normal.{IsRule, normalize_sound, split-canonical, operation_cases}
use slurm_web_plus.Permission.Grant.{Grants}
use slurm_web_plus.Permission.RuleSet.{
  IsAccepted, permission_rules_allow_iff, permission_rules_allow_total,
}
use slurm_web_plus.Permission.Sorted.{IsAccepted-of_All, permission_rules_allow-sorted}
use slurm_web_plus.Permission.Legacy.{LegacyMap, mapped_rules, allow_rule, any_allowed}

-- The rule is one of those that the map gives to one of the actions.
abbrev pub IsMapped : LegacyMap → List String → String → Type 0
IsMapped legacy_map actions rule =
    (action : String) × (elem action actions ≡ true)
    × (elem rule (or_else [] (get action legacy_map)) ≡ true)

pub mapped_rules_iff :
    (legacy_map : LegacyMap) (actions : List String) (rule : String)
    → (elem rule (mapped_rules legacy_map actions) ≡ true) ↔ IsMapped legacy_map actions rule
unfolding mapped_rules elem
mapped_rules_iff legacy_map [] rule = (λ h. ground arith, λ h. ground arith)
mapped_rules_iff legacy_map (a ∷ actions) rule = step (mapped_rules_iff legacy_map actions rule)
  where
    step :
        (elem rule (mapped_rules legacy_map actions) ≡ true) ↔ IsMapped legacy_map actions rule
        → (elem rule (or_else [] (get a legacy_map) ++ mapped_rules legacy_map actions) ≡ true)
          ↔ IsMapped legacy_map (a ∷ actions) rule
    step ih = (
      λ h. elim (Bool-cases (elem rule (or_else [] (get a legacy_map)))) [
        | inl e ↦ (a, ground (arith, eq_refl a), e)
        | inr e ↦
            let (action, here, there) = ih.0 (
              ground (
                arith,
                h,
                e,
                elem-append rule (or_else [] (get a legacy_map)) (mapped_rules legacy_map actions),
              )) in
            (action, ground (arith, here), there)
      ],
      λ (action, here, there). elim (Bool-cases (action == a)) [
        | inl e ↦
            elem-append rule (or_else [] (get a legacy_map)) (mapped_rules legacy_map actions)
            ∙ ground (
              arith,
              subst (λ k. elem rule (or_else [] (get k legacy_map)) ≡ true) ((eq_iff action a).0 e)
                  there,
            )
        | inr e ↦
            elem-append rule (or_else [] (get a legacy_map)) (mapped_rules legacy_map actions)
            ∙ ground (arith, ih.1 (action, ground (arith, here, e), there))
      ],
    )

-- A rule grants the request that it spells.
Grants-self :
    (rule : String) (r o s : String) → IsRule rule r o s → Grants rule (canonical_resource r) o s
Grants-self rule r o s h = record {
  on = r;
  to = o;
  within = s;
  is_rule = h;
  covers = inr (inl refl);
  permits = ground (arith, operation_cases o h.operation_known, eq_iff o "view");
  reaches = inr refl;
}

-- An accepted rule that is among the rules is allowed by them.
pub allow_rule_of_elem :
    (rules : List String) (rule : String)
    → All IsAccepted rules
    → elem rule rules ≡ true
    → allow_rule rules rule ≡ ok true
unfolding allow_rule
allow_rule_of_elem rules rule h m =
    let (n, accepted) = IsAccepted-of_All rule rules h m in
    let (r, o, s, is_rule, text) = normalize_sound rule n accepted in
    rw (accepted, text, split-canonical rule r o s is_rule)
      ((permission_rules_allow_iff (canonical_resource r) o s rules h).1
        (rule, m, Grants-self rule r o s is_rule))

-- Sorted rules answer as the rules do.
pub allow_rule-sorted :
    (rules out : List String) (rule : String)
    → sort_permission_rules rules ≡ ok out
    → IsAccepted rule
    → allow_rule out rule ≡ allow_rule rules rule
unfolding allow_rule
allow_rule-sorted rules out rule h (n, accepted) =
    let (r, o, s, is_rule, text) = normalize_sound rule n accepted in
    rw (accepted, text, split-canonical rule r o s is_rule)
      (permission_rules_allow-sorted (canonical_resource r) o s rules out h)

pub allow_rule_total :
    (rules : List String) (rule : String)
    → All IsAccepted rules
    → IsAccepted rule
    → (b : Bool) × (allow_rule rules rule ≡ ok b)
unfolding allow_rule
allow_rule_total rules rule h (n, accepted) =
    let (r, o, s, is_rule, text) = normalize_sound rule n accepted in
    let (b, answer) = permission_rules_allow_total (canonical_resource r) o s rules h in
    (b, rw (accepted, text, split-canonical rule r o s is_rule) answer)

pub any_allowed_total :
    (rules required : List String)
    → All IsAccepted rules
    → All IsAccepted required
    → (b : Bool) × (any_allowed rules required ≡ ok b)
unfolding any_allowed
any_allowed_total rules [] h k = (false, refl)
any_allowed_total rules (r ∷ rs) h k =
    step (allow_rule_total rules r h k.0) (any_allowed_total rules rs h k.1)
  where
    step :
        ((b : Bool) × (allow_rule rules r ≡ ok b))
        → ((b : Bool) × (any_allowed rules rs ≡ ok b))
        → (b : Bool) × (any_allowed rules (r ∷ rs) ≡ ok b)
    step (true, e) ih = (true, rw e)
    step (false, e) ih = (ih.0, rw e ih.1)
