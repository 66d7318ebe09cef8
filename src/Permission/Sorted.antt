-- ===== src/Permission/Sorted.antt =====
-- `sort_permission_rules`: what it returns, and that it keeps what the rules allow.
use slurm_web_plus.Prelude.{
  String, Bool, true, false, List, [], ◌∷◌, ◌==◌, elem, ◌≡◌, ◌↔◌, refl, sym, ap, subst, ◌∙◌, arith,
  eq_iff, eq_refl, Bool-cases, All, inl, inr,
}
use slurm_web_plus.Prelude.Order.{sorted_set, elem-sorted_set, sorted_set-IsAscending, IsAscending}
use slurm_web_plus.Prelude.Result.{Result, ok, traverse, >>=-eq-ok}
use slurm_web_plus.Permission.Rule.{Error, normalize_permission_rule, sort_permission_rules}
use slurm_web_plus.Permission.Normal.{normalize_idempotent}
use slurm_web_plus.Permission.Matching.{permission_rules_allow}
use slurm_web_plus.Permission.Grant.{permission_rule_allows_iff}
use slurm_web_plus.Permission.RuleSet.{
  IsAccepted, allows-normal, Granted, permission_rules_allow_iff, permission_rules_allow_total,
}

ok_injective :
    {xs ys : List String} → ◌≡◌ {A = Result Error (List String)} (ok xs) (ok ys) → xs ≡ ys
ok_injective h = cc

All-traverse :
    (rules ns : List String)
    → traverse normalize_permission_rule rules ≡ ok ns
    → All IsAccepted rules
unfolding traverse
All-traverse [] ns h = tt
All-traverse (rule ∷ rules) ns h =
    let (n, accepted, rest) = >>=-eq-ok (normalize_permission_rule rule) _ h in
    let (ms, later, _) = >>=-eq-ok (traverse normalize_permission_rule rules) _ rest in
    ((n, accepted), All-traverse rules ms later)

traverse_total :
    (rules : List String)
    → All IsAccepted rules
    → (ns : List String) × (traverse normalize_permission_rule rules ≡ ok ns)
unfolding traverse
traverse_total [] h = ([], refl)
traverse_total (rule ∷ rules) ((n, e), h) =
    let (ns, later) = traverse_total rules h in (n ∷ ns, rw (e, later))

-- Each member of the result is the normal form of a rule, and each rule's normal form is there.
elem_of_traverse :
    (k : String) (rules ns : List String)
    → traverse normalize_permission_rule rules ≡ ok ns
    → elem k ns ≡ true
    → (rule : String) × (elem rule rules ≡ true) × (normalize_permission_rule rule ≡ ok k)
unfolding traverse elem
elem_of_traverse k [] ns h m = ground arith
elem_of_traverse k (rule ∷ rules) ns h m =
    let (n, accepted, rest) = >>=-eq-ok (normalize_permission_rule rule) _ h in
    let (ms, later, same) = >>=-eq-ok (traverse normalize_permission_rule rules) _ rest in
    let m' : elem k (n ∷ ms) ≡ true = subst (λ l. elem k l ≡ true) (sym (ok_injective same)) m in
    elim (Bool-cases (k == n)) [
      | inl e ↦ (rule, ground (arith, eq_refl rule), accepted ∙ ap ok (sym ((eq_iff k n).0 e)))
      | inr e ↦
          let (found, here, f) = elem_of_traverse k rules ms later (ground (arith, m')) in
          (found, ground arith, f)
    ]

text_injective : {a b : String} → ◌≡◌ {A = Result Error String} (ok a) (ok b) → a ≡ b
text_injective h = cc

elem-traverse :
    (rule n : String) (rules ns : List String)
    → traverse normalize_permission_rule rules ≡ ok ns
    → elem rule rules ≡ true
    → normalize_permission_rule rule ≡ ok n
    → elem n ns ≡ true
unfolding traverse elem
elem-traverse rule n [] ns h m e = ground arith
elem-traverse rule n (r ∷ rules) ns h m e =
    let (k, accepted, rest) = >>=-eq-ok (normalize_permission_rule r) _ h in
    let (ms, later, same) = >>=-eq-ok (traverse normalize_permission_rule rules) _ rest in
    subst (λ l. elem n l ≡ true) (ok_injective same)
      (elim (Bool-cases (rule == r)) [
        | inl f ↦
            let is_k : n ≡ k =
              text_injective
                (sym e ∙ ap normalize_permission_rule ((eq_iff rule r).0 f) ∙ accepted) in
            ground (arith, (eq_iff n k).1 is_k)
        | inr f ↦ ground (arith, elem-traverse rule n rules ms later (ground (arith, m, f)) e)
      ])

pub IsAccepted-of_All :
    (r : String) (rules : List String) → All IsAccepted rules → elem r rules ≡ true → IsAccepted r
unfolding elem
IsAccepted-of_All r [] h m = ground arith
IsAccepted-of_All r (x ∷ rules) h m = elim (Bool-cases (r == x)) [
  | inl e ↦ subst IsAccepted (sym ((eq_iff r x).0 e)) h.0
  | inr e ↦ IsAccepted-of_All r rules h.1 (ground (arith, m, e))
]

All-IsAccepted_of_normal :
    (ns : List String) → ((k : String) → elem k ns ≡ true → IsAccepted k) → All IsAccepted ns
unfolding elem
All-IsAccepted_of_normal [] h = tt
All-IsAccepted_of_normal (n ∷ ns) h =
    (h n (ground (arith, eq_refl n)), All-IsAccepted_of_normal ns (λ k m. h k (ground (arith, m))))

-- The sorting succeeds exactly when every rule is accepted.
pub sort_permission_rules_iff :
    (rules : List String)
    → ((out : List String) × (sort_permission_rules rules ≡ ok out)) ↔ All IsAccepted rules
unfolding sort_permission_rules
sort_permission_rules_iff rules = (
  λ (out, h).
      let (ns, e, _) = >>=-eq-ok (traverse normalize_permission_rule rules) _ h in
      All-traverse rules ns e,
  λ h. let (ns, e) = traverse_total rules h in (sorted_set ns, rw e),
)

-- What the sorting returns: ascending, and the normal forms of the rules.
pub record IsSortedForm (rules out : List String) : Type 0 where
  pub ascending : IsAscending out
  pub from_rules :
      (k : String)
      → elem k out ≡ true
      → (rule : String) × (elem rule rules ≡ true) × (normalize_permission_rule rule ≡ ok k)
  pub of_rules :
      (rule k : String)
      → elem rule rules ≡ true
      → normalize_permission_rule rule ≡ ok k
      → elem k out ≡ true

-- When the sorting succeeds, its result is strictly ascending, each of its members is the normal form of
-- one of the rules, and the normal form of each rule is among them.
pub sort_permission_rules_sound :
    (rules out : List String) → sort_permission_rules rules ≡ ok out → IsSortedForm rules out
unfolding sort_permission_rules
sort_permission_rules_sound rules out h =
    let (ns, e, same) = >>=-eq-ok (traverse normalize_permission_rule rules) _ h in
    subst (IsSortedForm rules) (ok_injective same) (record {
      ascending = sorted_set-IsAscending ns;
      from_rules = λ k m. elem_of_traverse k rules ns e (sym (elem-sorted_set k ns) ∙ m);
      of_rules = λ rule k m f. elem-sorted_set k ns ∙ elem-traverse rule k rules ns e m f;
    })

-- What the sorting returns is accepted.
pub sorted-IsAccepted :
    (rules out : List String) → sort_permission_rules rules ≡ ok out → All IsAccepted out
sorted-IsAccepted rules out sorted = All-IsAccepted_of_normal out λ k m.
    let (rule, _, f) = (sort_permission_rules_sound rules out sorted).from_rules k m in
    (k, normalize_idempotent rule k f)

module _ (resource operation scope : String) (rules out : List String)
    (sorted : sort_permission_rules rules ≡ ok out) where
  Granted-of_sorted : Granted resource operation scope out → Granted resource operation scope rules
  Granted-of_sorted (k, m, g) =
      let (rule, here, f) = (sort_permission_rules_sound rules out sorted).from_rules k m in
      (
        rule,
        here,
        (permission_rule_allows_iff rule resource operation scope).0 (
            sym (allows-normal resource operation scope rule k f)
            ∙ (permission_rule_allows_iff k resource operation scope).1 g),
      )

  Granted-sorted : Granted resource operation scope rules → Granted resource operation scope out
  Granted-sorted (rule, m, g) =
      let (n, f) = accepted rule m in
      (
        n,
        (sort_permission_rules_sound rules out sorted).of_rules rule n m f,
        (permission_rule_allows_iff n resource operation scope).0 (
            allows-normal resource operation scope rule n f
            ∙ (permission_rule_allows_iff rule resource operation scope).1 g),
      )
    where
      accepted : (r : String) → elem r rules ≡ true → IsAccepted r
      accepted r m = IsAccepted-of_All r rules ((sort_permission_rules_iff rules).0 (out, sorted)) m

  -- When the sorting succeeds, its result gives every request the answer that the rules give.
  pub permission_rules_allow-sorted :
      permission_rules_allow out resource operation scope
      ≡ permission_rules_allow rules resource operation scope
  permission_rules_allow-sorted =
      agree (permission_rules_allow_total resource operation scope out out_accepted)
        (permission_rules_allow_total resource operation scope rules rules_accepted)
    where
      rules_accepted : All IsAccepted rules
      rules_accepted = (sort_permission_rules_iff rules).0 (out, sorted)

      out_accepted : All IsAccepted out
      out_accepted = sorted-IsAccepted rules out sorted

      forth :
          permission_rules_allow out resource operation scope ≡ ok true
          → permission_rules_allow rules resource operation scope ≡ ok true
      forth h = (permission_rules_allow_iff resource operation scope rules rules_accepted).1 (
          Granted-of_sorted
            ((permission_rules_allow_iff resource operation scope out out_accepted).0 h))

      back :
          permission_rules_allow rules resource operation scope ≡ ok true
          → permission_rules_allow out resource operation scope ≡ ok true
      back h = (permission_rules_allow_iff resource operation scope out out_accepted).1 (
          Granted-sorted
            ((permission_rules_allow_iff resource operation scope rules rules_accepted).0 h))

      agree :
          ((b : Bool) × (permission_rules_allow out resource operation scope ≡ ok b))
          → ((b : Bool) × (permission_rules_allow rules resource operation scope ≡ ok b))
          → permission_rules_allow out resource operation scope
            ≡ permission_rules_allow rules resource operation scope
      agree (true, e) p = e ∙ sym (forth e)
      agree (false, e) (true, f) = back f ∙ sym f
      agree (false, e) (false, f) = e ∙ sym f
