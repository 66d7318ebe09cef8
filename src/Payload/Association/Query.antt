-- ===== src/Payload/Association/Query.antt =====
-- The query of a payload is that of its association, which the normalisation does not change.
use slurm_web_plus.Prelude.{
  String, true, false, ◌==◌, List, [], ◌∷◌, map, Option, none, some, ◌≡◌, refl, sym, ap, ◌∙◌, arith,
  eq_refl, Option-cases, Bool-cases, inl, inr,
}
use slurm_web_plus.Prelude.Dict.{Dict, get, assign, get-assign}
use slurm_web_plus.Prelude.Result.{Result, ok, err, ◌>>=◌}
use slurm_web_plus.Json.Value.{
  Json, list, dict, as_dict, as_list-list, as_dict-dict, truthy, get_or_null, get_or, or_other,
}
use slurm_web_plus.Payload.Entries.{listed}
use slurm_web_plus.Payload.Association.{
  name, with_cluster, normalize_association, normalize_associations_payload, dict_or, the_only,
  delete_query, entry_query, association_delete_query,
}

get_or_null-assign_ne :
    (k j : String) (v : Json) (d : Dict Json)
    → (k == j) ≡ false
    → get_or_null j (assign k v d) ≡ get_or_null j d
unfolding get_or_null
get_or_null-assign_ne k j v d h = ground (arith, h, get-assign k j v d)

get_or_null-assign_self : (k : String) (v : Json) (d : Dict Json) → get_or_null k (assign k v d) ≡ v
unfolding get_or_null
get_or_null-assign_self k v d = ground (arith, eq_refl k, get-assign k k v d)

-- The cluster that is filled in is the one that is found.
get_or-with_cluster :
    (c : Json) (a : Dict Json) → get_or "cluster" c (with_cluster c a) ≡ get_or "cluster" c a
unfolding get_or
get_or-with_cluster c a =
    ap (λ v. or_other v c) (get_or_null-assign_self "cluster" (get_or "cluster" c a) a)
    ∙ chosen (get_or_null "cluster" a) c
  where
    chosen : (v w : Json) → or_other (or_other v w) w ≡ or_other v w
    chosen v w = ground arith

delete_query-with_cluster :
    (c : Json) (a : Dict Json) → delete_query c (with_cluster c a) ≡ delete_query c a
unfolding delete_query
delete_query-with_cluster c a =
    rw
      (
        get_or-with_cluster c a,
        get_or_null-assign_ne "cluster" "account" (get_or "cluster" c a) a refl,
        get_or_null-assign_ne "cluster" "user" (get_or "cluster" c a) a refl,
      )
      refl

-- The query of a list of associations.
abbrev pub list_query : Json → Option (List Json) → Result String (Dict Json)
list_query c l = do
  entry ← the_only l
  association ← dict_or "Association delete entry must be a dictionary" entry
  delete_query c association

pub list_query_dict :
    (c x : Json) (a : Dict Json)
    → as_dict x ≡ some a
    → list_query c (some (x ∷ [])) ≡ delete_query c a
list_query_dict c x a e = ap (λ o. of_option o >>= delete_query c) e
  where
    of_option : Option (Dict Json) → Result String (Dict Json)
    of_option o = elim o [
      | none ↦ err "Association delete entry must be a dictionary"
      | some d ↦ ok d
    ]

single_query :
    (c x : Json)
    → list_query c (some (normalize_association c x ∷ [])) ≡ list_query c (some (x ∷ []))
unfolding normalize_association
single_query c x = elim (Option-cases (as_dict x)) [
  | inl e ↦ ap (λ y. list_query c (some (y ∷ []))) (left e)
  | inr (a, e) ↦
      ap (λ y. list_query c (some (y ∷ []))) (filled a e)
      ∙ list_query_dict c (dict (with_cluster c a)) (with_cluster c a)
          (as_dict-dict (with_cluster c a))
      ∙ delete_query-with_cluster c a
      ∙ sym (list_query_dict c x a e)
]
  where
    left : as_dict x ≡ none → normalize_association c x ≡ x
    left e = rw (e, normalize_association) refl

    filled :
        (a : Dict Json) → as_dict x ≡ some a → normalize_association c x ≡ dict (with_cluster c a)
    filled a e = rw (e, normalize_association) refl

list_query-map :
    (c : Json) (l : List Json)
    → list_query c (some (map (normalize_association c) l)) ≡ list_query c (some l)
list_query-map c [] = refl
list_query-map c (x ∷ []) = single_query c x
list_query-map c (x ∷ y ∷ l) = refl

-- The query of a payload that is a dictionary.
pub dict_query :
    (c j : Json) (d : Dict Json)
    → as_dict j ≡ some d
    → entry_query c j ≡ list_query c (listed (get "associations" d))
dict_query c j d e = ap (λ o. of_option o >>= λ f. list_query c (listed (get "associations" f))) e
  where
    of_option : Option (Dict Json) → Result String (Dict Json)
    of_option o = elim o [
      | none ↦ err "Association delete payload must be a dictionary"
      | some f ↦ ok f
    ]

-- What the normalisation of a payload is, case by case.
module _ (cluster : Option String) (payload : Json) where
  abbrev with_list : Dict Json → List Json → Dict Json
  with_list d l = assign "associations" (list (map (normalize_association (name cluster)) l)) d

  not_dict : as_dict payload ≡ none → normalize_associations_payload cluster payload ≡ payload
  unfolding normalize_associations_payload
  not_dict e = rw (e, normalize_associations_payload) refl

  unlisted :
      (d : Dict Json)
      → as_dict payload ≡ some d
      → listed (get "associations" d) ≡ none
      → normalize_associations_payload cluster payload ≡ payload
  unfolding normalize_associations_payload
  unlisted d e f = rw (e, normalize_associations_payload) (rw f refl)

  unnamed :
      (d : Dict Json) (l : List Json)
      → as_dict payload ≡ some d
      → listed (get "associations" d) ≡ some l
      → truthy (name cluster) ≡ false
      → normalize_associations_payload cluster payload ≡ payload
  unfolding normalize_associations_payload
  unnamed d l e f g = rw (e, normalize_associations_payload) (rw f (rw g refl))

  filled :
      (d : Dict Json) (l : List Json)
      → as_dict payload ≡ some d
      → listed (get "associations" d) ≡ some l
      → truthy (name cluster) ≡ true
      → normalize_associations_payload cluster payload ≡ dict (with_list d l)
  unfolding normalize_associations_payload
  filled d l e f g = rw (e, normalize_associations_payload) (rw f (rw g refl))

  relisted :
      (d : Dict Json) (l : List Json)
      → listed (get "associations" (with_list d l))
        ≡ some (map (normalize_association (name cluster)) l)
  relisted d l =
      ap listed (
        get-assign "associations" "associations"
          (list (map (normalize_association (name cluster)) l)) d)
      ∙ as_list-list (map (normalize_association (name cluster)) l)

  query_of_filled :
      (d : Dict Json) (l : List Json)
      → as_dict payload ≡ some d
      → listed (get "associations" d) ≡ some l
      → truthy (name cluster) ≡ true
      → entry_query (name cluster) (normalize_associations_payload cluster payload)
        ≡ entry_query (name cluster) payload
  query_of_filled d l e f g =
      ap (entry_query (name cluster)) (filled d l e f g)
      ∙ dict_query (name cluster) (dict (with_list d l)) (with_list d l)
          (as_dict-dict (with_list d l))
      ∙ ap (list_query (name cluster)) (relisted d l)
      ∙ list_query-map (name cluster) l
      ∙ sym (dict_query (name cluster) payload d e ∙ ap (list_query (name cluster)) f)

  -- The query is that of the payload as it was given: the normalisation fills in nothing that the
  -- query does not find by itself.
  pub query_of_payload :
      association_delete_query cluster payload ≡ entry_query (name cluster) payload
  unfolding association_delete_query
  query_of_payload = elim (Option-cases (as_dict payload)) [
    | inl e ↦ ap (entry_query (name cluster)) (not_dict e)
    | inr (d, e) ↦ elim (Option-cases (listed (get "associations" d))) [
      | inl f ↦ ap (entry_query (name cluster)) (unlisted d e f)
      | inr (l, f) ↦ elim (Bool-cases (truthy (name cluster))) [
        | inr g ↦ ap (entry_query (name cluster)) (unnamed d l e f g)
        | inl g ↦ query_of_filled d l e f g
      ]
    ]
  ]
