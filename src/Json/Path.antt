-- ===== src/Json/Path.antt =====
-- Values at a path of keys.
use slurm_web_plus.Prelude.{
  String, List, [], ◌∷◌, ◌++◌, Option, none, some, ◌≡◌, ◌≢◌, ◌⊎◌, inl, inr, refl, sym, ap, ◌∙◌,
  arith, eq_iff, eq_refl, Option-cases,
}
use slurm_web_plus.Prelude.Dict.{Dict, get, assign, get-assign}
use slurm_web_plus.Json.Value.{Json, dict, as_dict, as_dict-dict}

-- The dictionary, or a new one where the value is none.
unfoldable pub dict_or_empty : Option Json → Dict Json
unfolding as_dict
dict_or_empty none = []
dict_or_empty (some j) = elim (as_dict j) [ none ↦ [] | some d ↦ d ]

-- What `_nested_dict(root, *keys)` reaches is changed by a function, in place: the dictionaries of the
-- path are made where they are missing.
unfoldable pub in_nested : List String → (Dict Json → Dict Json) → Dict Json → Dict Json
unfolding assign dict_or_empty dict get
in_nested [] f d = f d
in_nested (k ∷ ks) f d = assign k (dict (in_nested ks f (dict_or_empty (get k d)))) d

-- The value at the path, if there is one.
unfoldable pub at_path : List String → Json → Option Json
unfolding as_dict get
at_path [] j = some j
at_path (k ∷ ks) j = elim (as_dict j) [
  | none ↦ none
  | some d ↦ elim (get k d) [ none ↦ none | some v ↦ at_path ks v ]
]

abbrev pub path_in : List String → Dict Json → Option Json
path_in ks d = at_path ks (dict d)

-- The paths part at some key.
abbrev pub Diverge : List String → List String → Type 0
Diverge [] q = ⊥
Diverge (k ∷ ks) [] = ⊥
Diverge (k ∷ ks) (j ∷ js) = (k ≢ j) ⊎ ((k ≡ j) × Diverge ks js)

-- The value at a path in a dictionary.
abbrev pub under : List String → Option Json → Option Json
under ks none = none
under ks (some v) = at_path ks v

pub path_in-cons :
    (k : String) (ks : List String) (d : Dict Json) → path_in (k ∷ ks) d ≡ under ks (get k d)
unfolding at_path
path_in-cons k ks d = rw (as_dict-dict d, at_path) (ground arith)

pub under-dict_or_empty :
    (k : String) (ks : List String) (o : Option Json)
    → path_in (k ∷ ks) (dict_or_empty o) ≡ under (k ∷ ks) o
unfolding dict_or_empty at_path
under-dict_or_empty k ks none = rw (path_in-cons k ks []) (unfold get in refl)
under-dict_or_empty k ks (some j) = elim (Option-cases (as_dict j)) [
  | inl e ↦ rw (e, dict_or_empty, at_path) (path_in-cons k ks [] ∙ unfold get in refl)
  | inr (d, e) ↦ rw (e, dict_or_empty, at_path) (path_in-cons k ks d ∙ ground arith)
]

get-assign_self : (k : String) (v : Json) (d : Dict Json) → get k (assign k v d) ≡ some v
get-assign_self k v d = get-assign k k v d ∙ ground (arith, eq_refl k)

get-assign_ne : (k j : String) (v : Json) (d : Dict Json) → k ≢ j → get k (assign j v d) ≡ get k d
get-assign_ne k j v d h = get-assign j k v d ∙ ground (arith, eq_iff j k)

-- A change at one path leaves what stands at a path that parts from it.
pub at_path-in_nested_ne :
    (p q : List String) (f : Dict Json → Dict Json) (d : Dict Json)
    → Diverge p q
    → path_in p (in_nested q f d) ≡ path_in p d
unfolding in_nested
at_path-in_nested_ne [] q f d h = absurd h
at_path-in_nested_ne (k ∷ ks) [] f d h = absurd h
at_path-in_nested_ne (k ∷ ks) (j ∷ js) f d (inl ne) =
    path_in-cons k ks _ ∙ ap (under ks) (get-assign_ne k j _ d ne) ∙ sym (path_in-cons k ks d)
at_path-in_nested_ne (k ∷ []) (j ∷ js) f d (inr (e, h)) = absurd h
at_path-in_nested_ne (k ∷ l ∷ ks) (j ∷ js) f d (inr (e, h)) =
    path_in-cons k (l ∷ ks) _
    ∙ ap (under (l ∷ ks)) (ap (λ i. get i (in_nested (j ∷ js) f d)) e ∙ get-assign_self j _ d)
    ∙ at_path-in_nested_ne (l ∷ ks) js f (dict_or_empty (get j d)) h
    ∙ under-dict_or_empty l ks (get j d)
    ∙ ap (λ i. under (l ∷ ks) (get i d)) (sym e)
    ∙ sym (path_in-cons k (l ∷ ks) d)

-- A value that is put at a path is found there.
pub at_path-in_nested_self :
    (q : List String) (k : String) (v : Json) (d : Dict Json)
    → path_in (q ++ (k ∷ [])) (in_nested q (assign k v) d) ≡ some v
unfolding in_nested at_path
at_path-in_nested_self [] k v d = path_in-cons k [] _ ∙ ap (under []) (get-assign_self k v d)
at_path-in_nested_self (j ∷ js) k v d =
    path_in-cons j (js ++ (k ∷ [])) _
    ∙ ap (under (js ++ (k ∷ []))) (get-assign_self j _ d)
    ∙ at_path-in_nested_self js k v (dict_or_empty (get j d))
