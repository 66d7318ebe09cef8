-- ===== src/Permission/RuleSet.antt =====
-- What a set of rules allows, and that sorting the rules keeps it.
use slurm_web_plus.Prelude.{
  String, Bool, true, false, List, [], ◌∷◌, ◌++◌, ◌==◌, elem, if◌then◌else◌, ◌≡◌, ◌↔◌, inl, inr,
  refl, arith, eq_iff, eq_refl, Bool-cases, All,
}
use slurm_web_plus.Prelude.Result.{ok, ◌>>=◌}
use slurm_web_plus.Permission.Rule.{normalize_permission_rule}
use slurm_web_plus.Permission.Normal.{normalize_sound, normalize_idempotent}
use slurm_web_plus.Permission.Matching.{permission_rule_allows, permission_rules_allow}
use slurm_web_plus.Permission.Grant.{Grants, permission_rule_allows_iff, allows_of_IsRule}

-- The code accepts the rule.
abbrev pub IsAccepted : String → Type 0
IsAccepted rule = (n : String) × (normalize_permission_rule rule ≡ ok n)

module _ (resource operation scope : String) where
  -- An accepted rule always has an answer.
  pub allows_total :
      (rule : String)
      → IsAccepted rule
      → (b : Bool) × (permission_rule_allows rule resource operation scope ≡ ok b)
  allows_total rule (n, h) =
      let (r, o, s, is_rule, _) = normalize_sound rule n h in
      (_, allows_of_IsRule rule r o s resource operation scope is_rule)

  -- The rule's normal form gives the same answer.
  pub allows-normal :
      (rule n : String)
      → normalize_permission_rule rule ≡ ok n
      → permission_rule_allows n resource operation scope
        ≡ permission_rule_allows rule resource operation scope
  unfolding permission_rule_allows
  allows-normal rule n h = rw (h, normalize_idempotent rule n h)

  -- One of the rules grants what is asked.
  abbrev pub Granted : List String → Type 0
  Granted rules = (rule : String) × (elem rule rules ≡ true) × Grants rule resource operation scope

  Granted-cons : (rule : String) (rules : List String) → Granted rules → Granted (rule ∷ rules)
  unfolding elem
  Granted-cons rule rules (found, here, g) = (found, ground arith, g)

  Granted-tail :
      (rule : String) (rules : List String)
      → permission_rule_allows rule resource operation scope ≡ ok false
      → Granted (rule ∷ rules)
      → Granted rules
  unfolding elem
  Granted-tail rule rules no_rule (found, here, g) = elim (Bool-cases (found == rule)) [
    | inl e ↦ absurd (
        cc (
          no_rule,
          (eq_iff found rule).0 e,
          (permission_rule_allows_iff found resource operation scope).1 g,
        ))
    | inr e ↦ (found, ground arith, g)
  ]

  -- Rules that are all accepted allow a request exactly when one of them grants it.
  pub permission_rules_allow_iff :
      (rules : List String)
      → All IsAccepted rules
      → (permission_rules_allow rules resource operation scope ≡ ok true) ↔ Granted rules
  unfolding permission_rules_allow elem
  permission_rules_allow_iff [] h = (λ e. cc, λ g. cc)
  permission_rules_allow_iff (rule ∷ rules) h =
      step (allows_total rule h.0) (permission_rules_allow_iff rules h.1)
    where
      step :
          ((b : Bool) × (permission_rule_allows rule resource operation scope ≡ ok b))
          → (permission_rules_allow rules resource operation scope ≡ ok true) ↔ Granted rules
          → (permission_rules_allow (rule ∷ rules) resource operation scope ≡ ok true)
            ↔ Granted (rule ∷ rules)
      step (true, e) ih = (
        λ _. (
          rule,
          ground (arith, eq_refl rule),
          (permission_rule_allows_iff rule resource operation scope).0 e,
        ),
        λ _. rw e,
      )
      step (false, e) ih = (
        λ h'. Granted-cons rule rules (ih.0 (rw e at h')),
        λ g. rw e (ih.1 (Granted-tail rule rules e g)),
      )

  -- Rules that are all accepted have an answer.
  pub permission_rules_allow_total :
      (rules : List String)
      → All IsAccepted rules
      → (b : Bool) × (permission_rules_allow rules resource operation scope ≡ ok b)
  unfolding permission_rules_allow
  permission_rules_allow_total [] h = (false, refl)
  permission_rules_allow_total (rule ∷ rules) h =
      step (allows_total rule h.0) (permission_rules_allow_total rules h.1)
    where
      step :
          ((b : Bool) × (permission_rule_allows rule resource operation scope ≡ ok b))
          → ((b : Bool) × (permission_rules_allow rules resource operation scope ≡ ok b))
          → (b : Bool) × (permission_rules_allow (rule ∷ rules) resource operation scope ≡ ok b)
      step (true, e) ih = (true, rw e)
      step (false, e) ih = (ih.0, rw e ih.1)

  -- The rules are tried in turn: an answer yes ends the search, whatever stands behind.
  pub permission_rules_allow-append :
      (rules others : List String)
      → permission_rules_allow (rules ++ others) resource operation scope ≡ (do
        allowed ← permission_rules_allow rules resource operation scope
        if allowed then ok true else permission_rules_allow others resource operation scope)
  unfolding permission_rules_allow
  permission_rules_allow-append [] others = refl
  permission_rules_allow-append (rule ∷ rules) others =
      ground (arith, permission_rules_allow-append rules others)
