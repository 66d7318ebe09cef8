-- ===== src/Payload/Qos/Limits.antt =====
-- The limits of a normalised QOS entry.
use slurm_web_plus.Prelude.{
  String, true, false, List, [], ◌∷◌, ◌++◌, if◌then◌else◌, Option, none, some, ◌≡◌, refl, sym, ap,
  ◌∙◌, Bool-cases, Option-cases, inl, inr,
}
use slurm_web_plus.Prelude.Dict.{Dict, get, get-assign}
use slurm_web_plus.Prelude.Int.{ℤ}
use slurm_web_plus.Json.Value.{Json, dict, as_dict}
use slurm_web_plus.Json.Path.{
  dict_or_empty, in_nested, at_path, path_in, path_in-cons, under, under-dict_or_empty, Diverge,
  at_path-in_nested_ne, at_path-in_nested_self,
}
use slurm_web_plus.Payload.Qos.{
  is_limit, has_limit, limit_value, limit_if_missing, set_qos_limit_if_missing,
}

-- A limit is there when the value at its path is one.
has_limit-at_path :
    (keys : List String) (j : Json)
    → has_limit j keys ≡ elim (at_path keys j) [ none ↦ false | some v ↦ is_limit v ]
unfolding has_limit at_path
has_limit-at_path [] j = refl
has_limit-at_path (key ∷ keys) j = elim (Option-cases (as_dict j)) [
  | inl e ↦ rw (e, has_limit, at_path)
  | inr (d, e) ↦
      rw (e, has_limit, at_path)
        (elim (Option-cases (get key d)) [
          | inl f ↦ rw f
          | inr (v, f) ↦ rw f (has_limit-at_path keys v)
        ])
]

-- The specification: a limit that is there is kept, another value or none is replaced.
abbrev pub kept_or_set : Option Json → Json → Option Json
kept_or_set none limit = some limit
kept_or_set (some v) limit = if is_limit v then some v else some limit

module _ (value : Json) (default : ℤ) (path : List String) (key : String) (limits : Dict Json) where
  present :
      has_limit (dict limits) (path ++ (key ∷ [])) ≡ true
      → path_in (path ++ (key ∷ [])) (limit_if_missing value default path key limits)
        ≡ path_in (path ++ (key ∷ [])) limits
  present e = rw e refl

  missing :
      has_limit (dict limits) (path ++ (key ∷ [])) ≡ false
      → path_in (path ++ (key ∷ [])) (limit_if_missing value default path key limits)
        ≡ some (limit_value value default)
  missing e = rw e (at_path-in_nested_self path key (limit_value value default) limits)

  kept_of : Option Json → Option Json
  kept_of o = kept_or_set o (limit_value value default)

  limit_if_missing_self :
      path_in (path ++ (key ∷ [])) (limit_if_missing value default path key limits)
      ≡ kept_or_set (path_in (path ++ (key ∷ [])) limits) (limit_value value default)
  unfolding kept_of
  limit_if_missing_self = elim (Option-cases (path_in (path ++ (key ∷ [])) limits)) [
    | inl e ↦
        missing (has_limit-at_path (path ++ (key ∷ [])) (dict limits) ∙ rw e refl)
        ∙ sym (ap kept_of e)
    | inr (v, e) ↦ elim (Bool-cases (is_limit v)) [
      | inl t ↦
          present (has_limit-at_path (path ++ (key ∷ [])) (dict limits) ∙ rw e t)
          ∙ e
          ∙ sym (ap kept_of e ∙ rw t refl)
      | inr f ↦
          missing (has_limit-at_path (path ++ (key ∷ [])) (dict limits) ∙ rw e f)
          ∙ sym (ap kept_of e ∙ rw f refl)
    ]
  ]

limit_if_missing_ne :
    (value : Json) (default : ℤ) (path : List String) (key : String) (limits : Dict Json)
    (p : List String)
    → Diverge p path
    → path_in p (limit_if_missing value default path key limits) ≡ path_in p limits
limit_if_missing_ne value default path key limits p h =
    elim (Bool-cases (has_limit (dict limits) (path ++ (key ∷ [])))) [
      | inl e ↦ rw e
      | inr e ↦ rw e (at_path-in_nested_ne p path _ limits h)
    ]

limits_path :
    (f : Dict Json → Dict Json) (ks : List String) (d : Dict Json)
    → path_in ("limits" ∷ ks) (in_nested ("limits" ∷ []) f d)
      ≡ path_in ks (f (dict_or_empty (get "limits" d)))
unfolding in_nested
limits_path f ks d =
    path_in-cons "limits" ks _
    ∙ ap (under ks) (get-assign "limits" "limits" (dict (f (dict_or_empty (get "limits" d)))) d)

-- What a call of `_set_qos_limit_if_missing` leaves at its own path and at those that part from it.
pub set_limit_self :
    (value : Json) (default : ℤ) (k : String) (ks : List String) (key : String) (d : Dict Json)
    → path_in
        ("limits" ∷ k ∷ (ks ++ (key ∷ [])))
        (set_qos_limit_if_missing d value default (k ∷ ks) key)
      ≡ kept_or_set (path_in ("limits" ∷ k ∷ (ks ++ (key ∷ []))) d) (limit_value value default)
unfolding set_qos_limit_if_missing
set_limit_self value default k ks key d =
    limits_path (limit_if_missing value default (k ∷ ks) key) (k ∷ (ks ++ (key ∷ []))) d
    ∙ limit_if_missing_self value default (k ∷ ks) key (dict_or_empty (get "limits" d))
    ∙ ap (λ o. kept_or_set o (limit_value value default))
        (under-dict_or_empty k (ks ++ (key ∷ [])) (get "limits" d)
          ∙ sym (path_in-cons "limits" (k ∷ (ks ++ (key ∷ []))) d))

pub set_limit_ne :
    (value : Json) (default : ℤ) (path : List String) (key j : String) (js : List String)
    (d : Dict Json)
    → Diverge (j ∷ js) path
    → path_in ("limits" ∷ j ∷ js) (set_qos_limit_if_missing d value default path key)
      ≡ path_in ("limits" ∷ j ∷ js) d
unfolding set_qos_limit_if_missing
set_limit_ne value default path key j js d h =
    limits_path (limit_if_missing value default path key) (j ∷ js) d
    ∙ limit_if_missing_ne value default path key (dict_or_empty (get "limits" d)) (j ∷ js) h
    ∙ under-dict_or_empty j js (get "limits" d)
    ∙ sym (path_in-cons "limits" (j ∷ js) d)
