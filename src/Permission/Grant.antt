-- ===== src/Permission/Grant.antt =====
-- What a rule grants, stated without the code's tests, and that the code decides it.
use slurm_web_plus.Prelude.{
  String, Bool, true, ◌==◌, ◌||◌, ◌&&◌, ◌≡◌, ◌≢◌, ◌⊎◌, ◌↔◌, inl, inr, sym, ap, ◌∙◌, arith, eq_iff,
  Bool-cases,
}
use slurm_web_plus.Prelude.Text.{split}
use slurm_web_plus.Prelude.Affix.{
  starts_with, ends_with, drop_last, starts_with_sound, starts_with_complete, ends_with_sound,
  ends_with_complete, drop_last-append,
}
use slurm_web_plus.Prelude.Result.{Result, ok, ◌>>=◌, >>=-eq-ok}
use slurm_web_plus.Permission.Rule.{Error, canonical_resource, normalize_permission_rule}
use slurm_web_plus.Permission.Normal.{IsRule, normalize_sound, normalize_complete, split-canonical}
use slurm_web_plus.Permission.Matching.{
  resource_matches, operation_matches, granted_parts_allow, permission_rule_allows,
}
use Prim.Native.String

-- Everything, the resource itself, or what stands below a resource.
abbrev pub Covers : String → String → Type 0
Covers granted requested =
    (granted ≡ "*")
    ⊎ (granted ≡ requested)
    ⊎ ((p : String) × (u : String) × (granted ≡ String.◌++◌ p "/*")
        × (requested ≡ String.◌++◌ (String.◌++◌ p "/") u))

-- Every operation, any operation for a view, or the operation itself.
abbrev pub Permits : String → String → Type 0
Permits granted operation =
    (granted ≡ "*")
    ⊎ ((operation ≡ "view") × ((granted ≡ "view") ⊎ (granted ≡ "edit") ⊎ (granted ≡ "delete")))
    ⊎ ((operation ≢ "view") × (granted ≡ operation))

abbrev pub Reaches : String → String → Type 0
Reaches granted scope = (granted ≡ "*") ⊎ (granted ≡ scope)

-- The rule grants the operation on the resource in the scope.
pub record Grants (rule resource operation scope : String) : Type 0 where
  pub on : String
  pub to : String
  pub within : String
  pub is_rule : IsRule rule on to within
  pub covers : Covers (canonical_resource on) resource
  pub permits : Permits to operation
  pub reaches : Reaches within scope

below_sound :
    (g r : String) → ends_with g "/*" ≡ true → starts_with r (drop_last g) ≡ true → Covers g r
below_sound g r he hs =
    let (p, e) = ends_with_sound g "/*" he in
    let (u, f) = starts_with_sound r (drop_last g) hs in
    inr (
      inr (
        p,
        u,
        e,
        f ∙ ap (λ (t : String). String.◌++◌ t u) (ap drop_last e ∙ drop_last-append p "/" "*"),
      ))

resource_matches_sound : (g r : String) → resource_matches g r ≡ true → Covers g r
unfolding resource_matches
resource_matches_sound g r h = elim (Bool-cases (g == "*")) [
  | inl e ↦ inl ((eq_iff g "*").0 e)
  | inr e ↦ elim (Bool-cases (g == r)) [
    | inl f ↦ inr (inl ((eq_iff g r).0 f))
    | inr f ↦ below_sound g r (ground (arith, h, e, f)) (ground (arith, h, e, f))
  ]
]

below_complete :
    (p u : String)
    → (ends_with (String.◌++◌ p "/*") "/*" ≡ true)
      × (starts_with (String.◌++◌ (String.◌++◌ p "/") u) (drop_last (String.◌++◌ p "/*")) ≡ true)
below_complete p u = (
  ends_with_complete p "/*",
  rw (drop_last-append p "/" "*") (starts_with_complete (String.◌++◌ p "/") u),
)

resource_matches_complete : (g r : String) → Covers g r → resource_matches g r ≡ true
unfolding resource_matches
resource_matches_complete g r (inl e) = ground (arith, eq_iff g "*")
resource_matches_complete g r (inr (inl e)) = ground (arith, eq_iff g r)
resource_matches_complete g r (inr (inr (p, u, e, f))) =
    rw (e, f) (ground (arith, below_complete p u))

operation_matches_sound : (g o : String) → operation_matches g o ≡ true → Permits g o
unfolding operation_matches
operation_matches_sound g o h = ground (
  arith,
  eq_iff g "*",
  eq_iff o "view",
  eq_iff g "view",
  eq_iff g "edit",
  eq_iff g "delete",
  eq_iff g o,
)

operation_matches_complete : (g o : String) → Permits g o → operation_matches g o ≡ true
unfolding operation_matches
operation_matches_complete g o h = ground (
  arith,
  eq_iff g "*",
  eq_iff o "view",
  eq_iff g "view",
  eq_iff g "edit",
  eq_iff g "delete",
  eq_iff g o,
)

-- A valid rule answers with the three tests on its parts.
pub allows_of_IsRule :
    (rule r o s resource operation scope : String)
    → IsRule rule r o s
    → permission_rule_allows rule resource operation scope
      ≡ ok (
          resource_matches (canonical_resource r) resource
          && operation_matches o operation
          && (s == "*" || s == scope))
unfolding permission_rule_allows
allows_of_IsRule rule r o s resource operation scope h =
    ap (λ m. m >>= λ n. granted_parts_allow (split b':' n) resource operation scope)
      (normalize_complete rule r o s h)
    ∙ ap (λ ps. granted_parts_allow ps resource operation scope) (split-canonical rule r o s h)

-- The code answers yes exactly when the text is a rule whose resource, its alias replaced, covers the
-- requested one, whose operation permits the requested one, and whose scope reaches the requested one.
pub permission_rule_allows_iff :
    (rule resource operation scope : String)
    → (permission_rule_allows rule resource operation scope ≡ ok true)
      ↔ Grants rule resource operation scope
unfolding permission_rule_allows
permission_rule_allows_iff rule resource operation scope = (sound, complete)
  where
    tests :
        (a b c : Bool)
        → ◌≡◌ {A = Result Error Bool} (ok (a && b && c)) (ok true)
        → (a ≡ true) × (b ≡ true) × (c ≡ true)
    tests a b c h = ground arith

    sound :
        permission_rule_allows rule resource operation scope ≡ ok true
        → Grants rule resource operation scope
    sound h =
        let (n, accepted, _) = >>=-eq-ok (normalize_permission_rule rule) _ h in
        let (r, o, s, is_rule, text) = normalize_sound rule n accepted in
        let (ha, hb, hc) =
          tests _ _ _ (sym (allows_of_IsRule rule r o s resource operation scope is_rule) ∙ h) in
        record {
          on = r;
          to = o;
          within = s;
          is_rule = is_rule;
          covers = resource_matches_sound _ _ ha;
          permits = operation_matches_sound _ _ hb;
          reaches = ground (arith, hc, eq_iff s "*", eq_iff s scope);
        }

    complete :
        Grants rule resource operation scope
        → permission_rule_allows rule resource operation scope ≡ ok true
    complete g =
        allows_of_IsRule rule g.on g.to g.within resource operation scope g.is_rule
        ∙ ground (
          arith,
          resource_matches_complete _ _ g.covers,
          operation_matches_complete _ _ g.permits,
          g.reaches,
          eq_iff g.within "*",
          eq_iff g.within scope,
        )
