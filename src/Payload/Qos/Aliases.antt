-- ===== src/Payload/Qos/Aliases.antt =====
-- The values that are taken out of a QOS entry by their aliases.
use slurm_web_plus.Prelude.{
  String, true, false, ◌==◌, List, [], ◌∷◌, elem, IsDistinct, Option, none, some, ◌≡◌, refl, ap,
  ◌∙◌, arith, eq_iff, eq_refl, Bool-cases, Option-cases, inl, inr, All,
}
use slurm_web_plus.Prelude.Dict.{Dict, get, remove, get-remove}
use slurm_web_plus.Json.Value.{Json, null, is_blank}
use slurm_web_plus.Payload.Qos.{pop_first}

-- The value of the first alias that the entry gives and that is not blank.
abbrev pub given_or : Option Json → Json → Json
given_or none other = other
given_or (some v) other = elim (is_blank v) [ true ↦ other | false ↦ v ]

unfoldable pub first_given : Dict Json → List String → Json
unfolding get is_blank
first_given qos [] = null
first_given qos (alias ∷ aliases) = given_or (get alias qos) (first_given qos aliases)

pub first_given_congr :
    (d e : Dict Json) (aliases : List String)
    → ((b : String) → elem b aliases ≡ true → get b d ≡ get b e)
    → first_given d aliases ≡ first_given e aliases
unfolding first_given elem
first_given_congr d e [] h = refl
first_given_congr d e (a ∷ aliases) h =
    ap (λ o. given_or o (first_given d aliases)) (h a (ground (arith, eq_refl a)))
    ∙ ap (given_or (get a e)) (first_given_congr d e aliases (λ b m. h b (ground (arith, m))))

get-remove_ne : (k j : String) (d : Dict Json) → (k == j) ≡ false → get j (remove k d) ≡ get j d
get-remove_ne k j d h = get-remove k j d ∙ ground (arith, h)

-- A key that is no alias is left.
pub pop_first_other :
    (k : String) (qos : Dict Json) (aliases : List String)
    → elem k aliases ≡ false
    → get k (pop_first qos aliases).1 ≡ get k qos
unfolding pop_first elem
pop_first_other k qos [] h = refl
pop_first_other k qos (a ∷ aliases) h = elim (Option-cases (get a qos)) [
  | inl e ↦ rw (e, pop_first) (pop_first_other k qos aliases (ground (arith, h)))
  | inr (v, e) ↦
      let other : get k (remove a qos) ≡ get k qos =
        get-remove_ne a k qos (ground (arith, h, eq_iff a k, eq_iff k a)) in
      rw (e, pop_first)
        (elim (Bool-cases (is_blank v)) [
          | inl t ↦ rw t (pop_first_other k (remove a qos) aliases (ground (arith, h)) ∙ other)
          | inr f ↦ rw f other
        ])
]

pub pop_first_value :
    (qos : Dict Json) (aliases : List String)
    → IsDistinct aliases
    → (pop_first qos aliases).0 ≡ first_given qos aliases
unfolding pop_first first_given
pop_first_value qos [] h = refl
pop_first_value qos (a ∷ aliases) h = elim (Option-cases (get a qos)) [
  | inl e ↦ rw (e, pop_first) (pop_first_value qos aliases h.1)
  | inr (v, e) ↦
      rw (e, pop_first)
        (elim (Bool-cases (is_blank v)) [
          | inl t ↦
              rw (t, given_or)
                (pop_first_value (remove a qos) aliases h.1
                  ∙ first_given_congr (remove a qos) qos aliases
                      (λ b m. get-remove_ne a b qos (absent a b aliases h.0 m)))
          | inr f ↦ rw (f, given_or) refl
        ])
]
  where
    absent :
        (a b : String) (aliases : List String)
        → elem a aliases ≡ false
        → elem b aliases ≡ true
        → (a == b) ≡ false
    absent a b aliases h m = ground (arith, h, m, eq_iff a b)

-- Where no text of the first list is in the second, none of the second is in the first.
pub elem_apart :
    (b : String) (xs ys : List String)
    → All (λ a. elem a ys ≡ false) xs
    → elem b xs ≡ true
    → elem b ys ≡ false
unfolding elem
elem_apart b [] ys h m = ground arith
elem_apart b (x ∷ xs) ys h m = elim (Bool-cases (b == x)) [
  | inl e ↦ ap (λ a. elem a ys) ((eq_iff b x).0 e) ∙ h.0
  | inr e ↦ elem_apart b xs ys h.1 (ground (arith, m, e))
]
