-- ===== src/Permission/Legacy/Merged.antt =====
-- The merged map: its rules are all accepted.
use slurm_web_plus.Prelude.{
  String, Option, none, some, List, [], ◌∷◌, ◌≡◌, All, ◌==◌, Bool-cases, inl, inr,
}
use slurm_web_plus.Prelude.Dict.{assign, update, IsDict, assign-IsDict}
use slurm_web_plus.Prelude.Result.{Result, ok, >>=-eq-ok, traverse}
use slurm_web_plus.Permission.Rule.{Error, normalize_permission_rule, sort_permission_rules}
use slurm_web_plus.Permission.RuleSet.{IsAccepted}
use slurm_web_plus.Permission.Sorted.{sorted-IsAccepted}
use slurm_web_plus.Permission.Legacy.{
  LegacyMap, Document, Entry, Item, text, items, nothing, mapping, default_legacy_permission_map,
  normalize_item, load_entry, load_entries, load_legacy_permission_map, sort_map,
  merged_legacy_permission_map,
}
use slurm_web_plus.Permission.Legacy.Actions.{IsAcceptedMap}

pub map_injective : {a b : LegacyMap} → ◌≡◌ {A = Result Error LegacyMap} (ok a) (ok b) → a ≡ b
map_injective h = cc

assign-IsAcceptedMap :
    (k : String) (rules : List String) (m : LegacyMap)
    → All IsAccepted rules
    → IsAcceptedMap m
    → IsAcceptedMap (assign k rules m)
unfolding assign
assign-IsAcceptedMap k rules [] h hm = (h, tt)
assign-IsAcceptedMap k rules ((j, v) ∷ m) h hm = elim (Bool-cases (j == k)) [
  | inl e ↦ rw e (h, hm.1)
  | inr e ↦ rw e (hm.0, assign-IsAcceptedMap k rules m h hm.1)
]

update-IsAcceptedMap :
    (m loaded : LegacyMap)
    → IsAcceptedMap m
    → IsAcceptedMap loaded
    → IsAcceptedMap (update m loaded)
unfolding update
update-IsAcceptedMap m [] h k = h
update-IsAcceptedMap m ((j, v) ∷ loaded) h k =
    update-IsAcceptedMap (assign j v m) loaded (assign-IsAcceptedMap j v m k.0 h) k.1

-- The texts of a list whose items are all texts.
texts_of :
    (rules : List Item) (ns : List String)
    → traverse normalize_item rules ≡ ok ns
    → (ts : List String) × (traverse normalize_permission_rule ts ≡ ok ns)
unfolding traverse normalize_item
texts_of [] ns h = ([], h)
texts_of (text rule ∷ rules) ns h =
    let (n, e, rest) = >>=-eq-ok (normalize_permission_rule rule) _ h in
    let (ms, later, same) = >>=-eq-ok (traverse normalize_item rules) _ rest in
    let (ts, f) = texts_of rules ms later in (rule ∷ ts, rw (e, f) same)
texts_of (Item.other ∷ rules) ns h = cc

load_entry-IsAccepted :
    (action : String) (rules : Entry) (out : List String)
    → load_entry action rules ≡ ok out
    → All IsAccepted out
unfolding load_entry sort_permission_rules
load_entry-IsAccepted action (items rules) out h =
    let (ns, e, same) = >>=-eq-ok (traverse normalize_item rules) _ h in
    let (ts, f) = texts_of rules ns e in sorted-IsAccepted ts out (rw f same)
load_entry-IsAccepted action Entry.other out h = cc

load_entries_lem :
    (acc : LegacyMap) (raw : List (String × Entry)) (out : LegacyMap)
    → load_entries acc raw ≡ ok out
    → IsAcceptedMap acc
    → IsDict acc
    → IsAcceptedMap out × IsDict out
unfolding load_entries
load_entries_lem acc [] out h ha hd = rw (← map_injective h) (ha, hd)
load_entries_lem acc ((action, rules) ∷ raw) out h ha hd =
    let (loaded, e, rest) = >>=-eq-ok (load_entry action rules) _ h in
    load_entries_lem (assign action loaded acc) raw out rest
      (assign-IsAcceptedMap action loaded acc (load_entry-IsAccepted action rules loaded e) ha)
      (assign-IsDict action loaded acc hd)

pub load_lem :
    (document : Option Document) (out : LegacyMap)
    → load_legacy_permission_map document ≡ ok out
    → IsAcceptedMap out × IsDict out
unfolding load_legacy_permission_map
load_lem none out h = rw (← map_injective h) (tt, tt)
load_lem (some nothing) out h = rw (← map_injective h) (tt, tt)
load_lem (some (mapping raw)) out h = load_entries_lem [] raw out h tt tt
load_lem (some Document.other) out h = cc

sort_map-IsAcceptedMap : (m out : LegacyMap) → sort_map m ≡ ok out → IsAcceptedMap out
unfolding sort_map
sort_map-IsAcceptedMap [] out h = rw (← map_injective h) tt
sort_map-IsAcceptedMap ((action, rules) ∷ m) out h =
    let (rules', e, rest) = >>=-eq-ok (sort_permission_rules rules) _ h in
    let (ms, later, same) = >>=-eq-ok (sort_map m) _ rest in
    rw (← map_injective same) (sorted-IsAccepted rules rules' e, sort_map-IsAcceptedMap m ms later)

-- When the merging succeeds, whatever the file holds, the rules of the merged map are all accepted.
pub merged-IsAcceptedMap :
    (document : Option Document) (m : LegacyMap)
    → merged_legacy_permission_map document ≡ ok m
    → IsAcceptedMap m
unfolding merged_legacy_permission_map
merged-IsAcceptedMap document m h =
    let (defaults, e, rest) = >>=-eq-ok (sort_map default_legacy_permission_map) _ h in
    let (loaded, later, same) = >>=-eq-ok (load_legacy_permission_map document) _ rest in
    rw (← map_injective same) (
      update-IsAcceptedMap defaults loaded
        (sort_map-IsAcceptedMap default_legacy_permission_map defaults e)
        (load_lem document loaded later).0)
