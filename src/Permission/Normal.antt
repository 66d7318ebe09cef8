-- ===== src/Permission/Normal.antt =====
-- What the normalisation of a rule accepts, and what it returns.
use slurm_web_plus.Prelude.{
  String, List, [], ◌∷◌, ◌≡◌, ◌≢◌, ◌⊎◌, ◌↔◌, refl, sym, ap, subst, ◌∙◌, true, elem, arith, eq_iff,
  inl, inr,
}
use slurm_web_plus.Prelude.Text.{
  split, strip, join, join-split, IsFree, split-AllFree, AllFree, split-append, split_of_IsFree,
  StartsSolid, is_space, EndsSolid, EndsSolid-append, EndsSolid-cons, strip-StartsSolid,
  strip_of_solid,
}
use slurm_web_plus.Prelude.Result.{ok}
use slurm_web_plus.Permission.Rule.{
  permission_operations, permission_scopes, canonical_resource, rule_text, check_parts,
  normalize_permission_rule,
}
use Prim.Native.String
use text.Mathlib.TextLemmas.{cons-append, cons≢nil, append-ne-nil_of_right_ne-nil}

-- The text is the rule of a resource, an operation and a scope, white space around it aside.
pub record IsRule (rule resource operation scope : String) : Type 0 where
  pub text : strip rule ≡ rule_text resource operation scope
  pub whole : IsFree b':' resource
  pub named : resource ≢ ""
  pub operation_known : elem operation permission_operations ≡ true
  pub scope_known : elem scope permission_scopes ≡ true

pub operation_cases :
    (o : String)
    → elem o permission_operations ≡ true
    → (o ≡ "view") ⊎ (o ≡ "edit") ⊎ (o ≡ "delete") ⊎ (o ≡ "*")
unfolding elem
operation_cases o h =
    ground (arith, eq_iff o "view", eq_iff o "edit", eq_iff o "delete", eq_iff o "*")

pub scope_cases : (s : String) → elem s permission_scopes ≡ true → (s ≡ "*") ⊎ (s ≡ "self")
unfolding elem
scope_cases s h = ground (arith, eq_iff s "*", eq_iff s "self")

operation-IsFree : (o : String) → elem o permission_operations ≡ true → IsFree b':' o
operation-IsFree o h = elim (operation_cases o h) [
  | inl e ↦ rw e (omega arith)
  | inr (inl e) ↦ rw e (omega arith)
  | inr (inr (inl e)) ↦ rw e (omega arith)
  | inr (inr (inr e)) ↦ rw e (omega arith)
]

scope-IsFree : (s : String) → elem s permission_scopes ≡ true → IsFree b':' s
scope-IsFree s h = elim (scope_cases s h) [
  | inl e ↦ rw e (omega arith)
  | inr e ↦ rw e (omega arith)
]

scope-EndsSolid : (s : String) → elem s permission_scopes ≡ true → EndsSolid s
unfolding strip
scope-EndsSolid s h = elim (scope_cases s h) [
  | inl e ↦ rw e (refl, refl)
  | inr e ↦ rw e (refl, refl)
]

canonical_cases :
    (r : String) → (canonical_resource r ≡ "admin/ldap-users") ⊎ (canonical_resource r ≡ r)
unfolding canonical_resource
canonical_cases r = ground arith

canonical-IsFree : (r : String) → IsFree b':' r → IsFree b':' (canonical_resource r)
unfolding canonical_resource
canonical-IsFree r h = elim (canonical_cases r) [ inl e ↦ rw e (omega arith) | inr e ↦ rw e h ]

pub canonical_idem : (r : String) → canonical_resource (canonical_resource r) ≡ canonical_resource r
unfolding canonical_resource
canonical_idem r = ground arith

pub split-rule_text :
    (r o s : String)
    → IsFree b':' r
    → IsFree b':' o
    → IsFree b':' s
    → split b':' (rule_text r o s) ≡ r ∷ o ∷ s ∷ []
split-rule_text r o s hr ho hs =
    split-append b':' r ":" (String.◌++◌ o (String.◌∷◌ ":" s)) hr refl
    ∙ ap (λ ps. r ∷ ps)
        (split-append b':' o ":" s ho refl ∙ ap (λ ps. o ∷ ps) (split_of_IsFree b':' s hs))

-- What has passed the checks on the parts.
record IsChecked (parts : List String) (n resource operation scope : String) : Type 0 where
  parts_eq : parts ≡ resource ∷ operation ∷ scope ∷ []
  named : resource ≢ ""
  operation_known : elem operation permission_operations ≡ true
  scope_known : elem scope permission_scopes ≡ true
  text : n ≡ rule_text (canonical_resource resource) operation scope

check_parts_sound :
    (rule : String) (parts : List String) (n : String)
    → check_parts rule parts ≡ ok n
    → (r : String) × (o : String) × (s : String) × IsChecked parts n r o s
unfolding check_parts
check_parts_sound rule (r ∷ o ∷ s ∷ []) n h = (
  r,
  o,
  s,
  record {
    parts_eq = refl;
    named = λ e. ground (arith, eq_iff r "");
    operation_known = ground arith;
    scope_known = ground arith;
    text = ground arith;
  },
)
check_parts_sound rule [] n h = cc
check_parts_sound rule (_ ∷ []) n h = cc
check_parts_sound rule (_ ∷ _ ∷ []) n h = cc
check_parts_sound rule (_ ∷ _ ∷ _ ∷ _ ∷ _) n h = cc

check_parts_complete :
    (rule r o s : String)
    → r ≢ ""
    → elem o permission_operations ≡ true
    → elem s permission_scopes ≡ true
    → check_parts rule (r ∷ o ∷ s ∷ []) ≡ ok (rule_text (canonical_resource r) o s)
unfolding check_parts
check_parts_complete rule r o s hr ho hs = ground (arith, eq_iff r "")

-- An accepted text is a rule, and the result is its text with the resource made canonical.
pub normalize_sound :
    (rule n : String)
    → normalize_permission_rule rule ≡ ok n
    → (r : String) × (o : String) × (s : String) × IsRule rule r o s
      × (n ≡ rule_text (canonical_resource r) o s)
unfolding normalize_permission_rule
normalize_sound rule n h =
    let (r, o, s, c) = check_parts_sound rule (split b':' (strip rule)) n h in
    let free : AllFree b':' (r ∷ o ∷ s ∷ []) =
      subst (AllFree b':') c.parts_eq (split-AllFree b':' (strip rule)) in
    (
      r,
      o,
      s,
      record {
        text = sym (join-split ":" (strip rule)) ∙ ap (join ":") c.parts_eq;
        whole = free.0;
        named = c.named;
        operation_known = c.operation_known;
        scope_known = c.scope_known;
      },
      c.text,
    )

-- Every rule is accepted.
pub normalize_complete :
    (rule r o s : String)
    → IsRule rule r o s
    → normalize_permission_rule rule ≡ ok (rule_text (canonical_resource r) o s)
unfolding normalize_permission_rule
normalize_complete rule r o s h =
    ap (λ t. check_parts rule (split b':' t)) h.text
    ∙ ap (check_parts rule) (
        split-rule_text r o s h.whole (operation-IsFree o h.operation_known)
          (scope-IsFree s h.scope_known))
    ∙ check_parts_complete rule r o s h.named h.operation_known h.scope_known

-- A text is accepted, with the result n, exactly when it is the rule of a resource, an operation and a
-- scope, and n is that rule's text with the resource made canonical.
pub normalize_iff :
    (rule n : String)
    → (normalize_permission_rule rule ≡ ok n) ↔ (
        (r : String) × (o : String) × (s : String) × IsRule rule r o s
        × (n ≡ rule_text (canonical_resource r) o s))
normalize_iff rule n =
    (normalize_sound rule n, λ (r, o, s, h, e). normalize_complete rule r o s h ∙ ap ok (sym e))

StartsSolid-of_append :
    (r t : String)
    → r ≢ ""
    → StartsSolid (String.◌++◌ r t)
    → (u : String) → StartsSolid (String.◌++◌ r u)
StartsSolid-of_append String.[] t n h u = absurd (n refl)
StartsSolid-of_append (String.◌∷◌ c r) t n h u =
    rw cons-append (subst StartsSolid (cons-append c r t) h)

canonical-ne-nil : (r : String) → r ≢ "" → canonical_resource r ≢ ""
canonical-ne-nil r h = elim (canonical_cases r) [ inl e ↦ rw e (λ p. cons≢nil p) | inr e ↦ rw e h ]

rule_text-ne-nil : (r o s : String) → rule_text r o s ≢ ""
rule_text-ne-nil r o s = append-ne-nil_of_right_ne-nil r (λ p. cons≢nil p)

stripped-StartsSolid : (rule r o s : String) → IsRule rule r o s → StartsSolid (rule_text r o s)
stripped-StartsSolid rule r o s h = elim (strip-StartsSolid rule) [
  | inl e ↦ absurd (rule_text-ne-nil r o s (sym h.text ∙ e))
  | inr k ↦ subst StartsSolid h.text k
]

-- The canonical text of a rule starts with a character that is no white space.
canonical-StartsSolid :
    (rule r o s t : String) → IsRule rule r o s → StartsSolid (String.◌++◌ (canonical_resource r) t)
unfolding is_space
canonical-StartsSolid rule r o s t h = elim (canonical_cases r) [
  | inl e ↦ rw e (rw cons-append refl)
  | inr e ↦ rw e (StartsSolid-of_append r _ h.named (stripped-StartsSolid rule r o s h) t)
]

-- The canonical text of a rule is left as it is by `strip`.
strip-rule_text :
    (rule r o s : String)
    → IsRule rule r o s
    → strip (rule_text (canonical_resource r) o s) ≡ rule_text (canonical_resource r) o s
strip-rule_text rule r o s h = strip_of_solid _ (canonical-StartsSolid rule r o s _ h) (
    EndsSolid-append (canonical_resource r) _ (
      EndsSolid-cons ":" _
        (EndsSolid-append o _ (EndsSolid-cons ":" s (scope-EndsSolid s h.scope_known)))))

pub canonical-IsRule :
    (rule r o s : String)
    → IsRule rule r o s
    → IsRule (rule_text (canonical_resource r) o s) (canonical_resource r) o s
canonical-IsRule rule r o s h = record {
  text = strip-rule_text rule r o s h;
  whole = canonical-IsFree r h.whole;
  named = canonical-ne-nil r h.named;
  operation_known = h.operation_known;
  scope_known = h.scope_known;
}

-- The result of a normalisation is its own normal form.
pub normalize_idempotent :
    (rule n : String) → normalize_permission_rule rule ≡ ok n → normalize_permission_rule n ≡ ok n
normalize_idempotent rule n h =
    let (r, o, s, is_rule, text) = normalize_sound rule n h in
    ap normalize_permission_rule text
    ∙ normalize_complete _ (canonical_resource r) o s (canonical-IsRule rule r o s is_rule)
    ∙ ap (λ t. ok (rule_text t o s)) (canonical_idem r)
    ∙ ap ok (sym text)

-- The canonical text of a rule splits into its three parts.
pub split-canonical :
    (rule r o s : String)
    → IsRule rule r o s
    → split b':' (rule_text (canonical_resource r) o s) ≡ canonical_resource r ∷ o ∷ s ∷ []
split-canonical rule r o s h =
    split-rule_text (canonical_resource r) o s (canonical-IsFree r h.whole)
      (operation-IsFree o h.operation_known) (scope-IsFree s h.scope_known)
