-- ===== src/Adapters/Laws.antt =====
-- How chains of adapters compose, and what a loop over fields changes.
use slurm_web_plus.Prelude.{
  String, Bool, true, false, List, [], ◌∷◌, ◌++◌, ◌==◌, elem, IsDistinct, ◌⊎◌, Option, none, some,
  ◌≡◌, refl, sym, ap, subst, ◌∙◌, arith, inl, inr, Bool-cases, Option-cases, eq_iff, eq_refl,
}
use slurm_web_plus.Prelude.Dict.{Dict, get, assign, get-assign}
use slurm_web_plus.Prelude.Maybe.{◌>>=◌, >>=-eq-some}
use slurm_web_plus.Json.Value.{Json}
use slurm_web_plus.Adapters.Fields.{on_field, on_fields}
use slurm_web_plus.Adapters.Chain.{Adapter, apply_chain, adapt}

-- A chain in two parts is the second after the first.
pub apply_chain-append :
    (str : Json → String) (hint : Option String) (xs ys : List Adapter) (component key : String)
    (result : Json)
    → apply_chain str hint (xs ++ ys) component key result
      ≡ (apply_chain str hint xs component key result >>= apply_chain str hint ys component key)
unfolding apply_chain
apply_chain-append str hint [] ys component key result = refl
apply_chain-append str hint (x ∷ xs) ys component key result =
    elim (Option-cases (adapt str hint x component key result)) [
      | inl e ↦ rw (e, apply_chain) refl
      | inr (r, e) ↦ rw (e, apply_chain) (apply_chain-append str hint xs ys component key r)
    ]

-- The value of a field after the loop over the fields.
abbrev pub Changed : (Json → Option Json) → Bool → Option Json → Option Json → Type 0
Changed f false old new = new ≡ old
Changed f true none new = new ≡ none
Changed f true (some v) new = (w : Json) × (f v ≡ some w) × (new ≡ some w)

-- What a loop's round did: nothing, or the change of a field that was there.
IsRound : (Json → Option Json) → String → Dict Json → Dict Json → Type 0
IsRound f field d e =
    ((get field d ≡ none) × (d ≡ e))
    ⊎ ((v : Json) × (w : Json) × (get field d ≡ some v) × (f v ≡ some w) × (assign field w d ≡ e))

dict_injective : {a b : Dict Json} → some a ≡ some b → a ≡ b
dict_injective h = cc

on_field-IsRound :
    (f : Json → Option Json) (field : String) (d e : Dict Json)
    → on_field f field d ≡ some e
    → IsRound f field d e
unfolding on_field IsRound
on_field-IsRound f field d e h = elim (Option-cases (get field d)) [
  | inl p ↦ inl (p, dict_injective (rw (p, on_field) at h))
  | inr (v, p) ↦ elim (Option-cases (f v)) [
    | inl q ↦ absurd (cc (rw q at (rw (p, on_field) at h)))
    | inr (w, q) ↦ inr (v, w, p, q, dict_injective (rw q at (rw (p, on_field) at h)))
  ]
]

IsRound-ne :
    (f : Json → Option Json) (field k : String) (d e : Dict Json)
    → (k == field) ≡ false
    → IsRound f field d e
    → get k e ≡ get k d
unfolding IsRound
IsRound-ne f field k d e h (inl (p, q)) = ap (get k) (sym q)
IsRound-ne f field k d e h (inr (v, w, p, q, r)) =
    ap (get k) (sym r) ∙ get-assign field k w d ∙ ground (arith, h, eq_iff field k, eq_iff k field)

IsRound-self :
    (f : Json → Option Json) (field : String) (d e : Dict Json)
    → IsRound f field d e
    → Changed f true (get field d) (get field e)
unfolding IsRound
IsRound-self f field d e (inl (p, q)) = rw p (ap (get field) (sym q) ∙ p)
IsRound-self f field d e (inr (v, w, p, q, r)) =
    rw p (w, q, ap (get field) (sym r) ∙ get-assign field field w d ∙ ground (arith, eq_refl field))

-- Where the loop over distinct fields succeeds, each of the fields that is there has its new value, and
-- every other key is as it was.
pub on_fields-Changed :
    (f : Json → Option Json) (fields : List String) (d e : Dict Json) (k : String)
    → IsDistinct fields
    → on_fields f fields d ≡ some e
    → Changed f (elem k fields) (get k d) (get k e)
unfolding on_fields elem
on_fields-Changed f [] d e k distinct h = ap (get k) (dict_injective (sym h))
on_fields-Changed f (field ∷ fields) d e k distinct h =
    let (d', first, rest) = >>=-eq-some (on_field f field d) _ h in
    let ih = on_fields-Changed f fields d' e k distinct.1 rest in
    let round = on_field-IsRound f field d d' first in
    elim (Bool-cases (k == field)) [
      | inl p ↦
          let same = (eq_iff k field).0 p in
          let last : Changed f false (get k d') (get k e) =
            subst (λ b. Changed f b (get k d') (get k e))
              (ap (λ j. elem j fields) same ∙ distinct.0) ih in
          rw p (
            subst (λ o. Changed f true (get k d) o) (sym last)
              (subst (λ j. Changed f true (get j d) (get j d')) (sym same)
                (IsRound-self f field d d' round)))
      | inr p ↦ rw p (
          subst (λ o. Changed f (elem k fields) o (get k e)) (IsRound-ne f field k d d' p round) ih)
    ]
