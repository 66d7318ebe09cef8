-- ===== src/Adapters/Fields.antt =====
-- Loops over the items of an answer and over the fields of an item.
use slurm_web_plus.Prelude.{String, List, [], ◌∷◌, Option, none, some}
use slurm_web_plus.Prelude.Dict.{Dict, get, assign}
use slurm_web_plus.Prelude.Maybe.{◌>>=◌}
use slurm_web_plus.Json.Value.{Json, list, dict, as_list, as_dict}

-- `for item in data`, where each item is changed in place.
abbrev pub on_items : (Dict Json → Option (Dict Json)) → List Json → Option (List Json)
on_items f [] = some []
on_items f (item ∷ items) = do
  d ← as_dict item
  e ← f d
  rest ← on_items f items
  some (dict e ∷ rest)

unfoldable pub on_each : (Dict Json → Option (Dict Json)) → Json → Option Json
unfolding as_list as_dict list dict
on_each f j = do items ← as_list j; changed ← on_items f items; some (list changed)

-- `if field in d: d[field] = f(d.get(field))`.
unfoldable pub on_field : (Json → Option Json) → String → Dict Json → Option (Dict Json)
unfolding get assign
on_field f field d = elim (get field d) [
  | none ↦ some d
  | some v ↦ elim (f v) [ none ↦ none | some w ↦ some (assign field w d) ]
]

unfoldable pub on_fields : (Json → Option Json) → List String → Dict Json → Option (Dict Json)
unfolding on_field
on_fields f [] d = some d
on_fields f (field ∷ fields) d = do e ← on_field f field d; on_fields f fields e

-- `d[k1][k2]...[key] = value`: a dictionary that is not there raises.
unfoldable pub set_at : List String → String → Json → Dict Json → Option (Dict Json)
unfolding get as_dict dict assign
set_at [] key value d = some (assign key value d)
set_at (k ∷ ks) key value d = do
  j ← get k d
  inner ← as_dict j
  changed ← set_at ks key value inner
  some (assign k (dict changed) d)

-- `d.setdefault(key, value)`.
unfoldable pub set_default : String → Json → Dict Json → Dict Json
unfolding get assign
set_default key value d = elim (get key d) [ none ↦ assign key value d | some v ↦ d ]

-- `d[key]`.
abbrev pub item : String → Dict Json → Option Json
item key d = get key d
