-- ===== src/Payload/Association.antt =====
-- `_normalize_associations_payload` and `_association_delete_query`. The name of the cluster is what
-- `_current_cluster_name` returns.
pub mod Query
pub mod Deletion
use slurm_web_plus.Prelude.{
  String, Bool, true, false, ◌&&◌, not, List, [], ◌∷◌, map, if◌then◌else◌, Option, none, some, ◌≡◌,
  ◌↔◌, refl, sym, ap, ◌∙◌, arith, Option-cases, Bool-cases, inl, inr,
}
use slurm_web_plus.Prelude.Dict.{Dict, get, assign, get-assign}
use slurm_web_plus.Prelude.Result.{Result, ok, err, ◌>>=◌, ◌>>◌, require}
use slurm_web_plus.Json.Value.{
  Json, null, text, list, dict, as_list, as_dict, as_list-list, as_dict-dict, truthy, get_or_null,
  get_or,
}
use slurm_web_plus.Payload.Entries.{listed}

abbrev pub name : Option String → Json
name none = null
name (some s) = text s

-- `{**association, "cluster": association.get("cluster") or cluster}`.
abbrev pub with_cluster : Json → Dict Json → Dict Json
with_cluster cluster association =
    assign "cluster" (get_or "cluster" cluster association) association

unfoldable pub normalize_association : Json → Json → Json
unfolding as_dict dict
normalize_association cluster association = elim (as_dict association) [
  | none ↦ association
  | some d ↦ dict (with_cluster cluster d)
]

unfoldable pub normalize_associations_payload : Option String → Json → Json
unfolding as_dict as_list get dict list assign truthy normalize_association
normalize_associations_payload cluster payload = elim (as_dict payload) [
  | none ↦ payload
  | some d ↦ elim (listed (get "associations" d)) [
    | none ↦ payload
    | some associations ↦
        if truthy (name cluster)
        then dict (
            assign "associations" (list (map (normalize_association (name cluster)) associations))
              d)
        else payload
  ]
]

abbrev pub dict_or : String → Json → Result String (Dict Json)
dict_or message j = elim (as_dict j) [ none ↦ err message | some d ↦ ok d ]

abbrev pub the_only : Option (List Json) → Result String Json
the_only (some (j ∷ [])) = ok j
the_only _ = err "Association delete requires exactly one association"

abbrev pub needs : String
needs = "Association delete requires account, user and cluster"

-- The query of an association, which must name an account, a user and a cluster.
unfoldable pub delete_query : Json → Dict Json → Result String (Dict Json)
unfolding get_or get_or_null truthy
delete_query cluster association = do
  let account = get_or_null "account" association
  let user = get_or_null "user" association
  let found = get_or "cluster" cluster association
  require (truthy account && truthy user && truthy found) needs
  ok (("account", account) ∷ ("user", user) ∷ ("cluster", found) ∷ [])

abbrev pub entry_query : Json → Json → Result String (Dict Json)
entry_query cluster normalized = do
  d ← dict_or "Association delete payload must be a dictionary" normalized
  entry ← the_only (listed (get "associations" d))
  association ← dict_or "Association delete entry must be a dictionary" entry
  delete_query cluster association

-- The messages are those of the `ValueError` that is raised.
unfoldable pub association_delete_query : Option String → Json → Result String (Dict Json)
association_delete_query cluster payload =
    entry_query (name cluster) (normalize_associations_payload cluster payload)
