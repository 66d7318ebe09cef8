-- ===== src/Permission/Legacy/Overrides.antt =====
-- Which rules the merged map has for an action: those of the file or the default ones.
use slurm_web_plus.Prelude.{
  refl, subst, if◌then◌else◌, String, Option, none, some, List, [], ◌∷◌, ◌≡◌, sym, ap, ◌∙◌, ◌==◌,
  Bool-cases, inl, inr,
}
use slurm_web_plus.Prelude.Order.{sorted_set}
use slurm_web_plus.Prelude.Dict.{get, assign, get-update, get-assign}
use slurm_web_plus.Prelude.Result.{Result, ok, >>=-eq-ok, traverse}
use slurm_web_plus.Permission.Rule.{Error, normalize_permission_rule, sort_permission_rules}
use slurm_web_plus.Permission.Legacy.{
  LegacyMap, Document, Entry, items, nothing, mapping, default_legacy_permission_map,
  normalize_item, load_entry, load_entries, load_legacy_permission_map, sort_map,
  merged_legacy_permission_map,
}
use slurm_web_plus.Permission.Legacy.Merged.{map_injective, load_lem}

rules_injective : {a b : List String} → ◌≡◌ {A = Result Error (List String)} (ok a) (ok b) → a ≡ b
rules_injective h = cc

-- What the file says, as far as it is read.
abbrev pub entries_of : Option Document → List (String × Entry)
entries_of (some (mapping raw)) = raw
entries_of document = []

-- The file's entry for an action; of two, the later one.
abbrev pub last_entry : String → List (String × Entry) → Option Entry
last_entry action [] = none
last_entry action ((name, entry) ∷ raw) = elim (last_entry action raw) [
  | some later ↦ some later
  | none ↦ if name == action then some entry else none
]

-- The rules of an action when the file does not name it: those before.
abbrev Loads : Option Entry → Option (List String) → Option (List String) → Type 0
Loads none before after = after ≡ before
Loads (some (items rules)) before after =
    (ns : List String) × (traverse normalize_item rules ≡ ok ns) × (after ≡ some (sorted_set ns))
Loads (some Entry.other) before after = ⊥

Loads-trans :
    (later entry : Option Entry) (a b c : Option (List String))
    → Loads entry a b
    → Loads later b c
    → Loads (elim later [ some e ↦ some e | none ↦ entry ]) a c
Loads-trans none none a b c h k = k ∙ h
Loads-trans none (some (items rules)) a b c (ns, e, f) k = (ns, e, k ∙ f)
Loads-trans none (some Entry.other) a b c h k = h
Loads-trans (some (items rules)) entry a b c h k = k
Loads-trans (some Entry.other) entry a b c h k = k

load_entry-Loads :
    (action : String) (entry : Entry) (out : List String) (before : Option (List String))
    → load_entry action entry ≡ ok out
    → Loads (some entry) before (some out)
unfolding load_entry
load_entry-Loads action (items rules) out before h =
    let (ns, e, same) = >>=-eq-ok (traverse normalize_item rules) _ h in
    (ns, e, ap some (sym (rules_injective same)))
load_entry-Loads action Entry.other out before h = cc

assign-Loads :
    (action name : String) (entry : Entry) (loaded : List String) (acc : LegacyMap)
    → load_entry name entry ≡ ok loaded
    → Loads
        (if name == action then some entry else none)
        (get action acc)
        (get action (assign name loaded acc))
assign-Loads action name entry loaded acc h = elim (Bool-cases (name == action)) [
  | inl e ↦ rw e (
      subst (λ o. Loads (some entry) (get action acc) o)
        (sym (get-assign name action loaded acc ∙ (rw e refl)))
        (load_entry-Loads name entry loaded (get action acc) h))
  | inr e ↦ rw e (get-assign name action loaded acc ∙ (rw e refl))
]

load_entries-Loads :
    (action : String) (acc : LegacyMap) (raw : List (String × Entry)) (out : LegacyMap)
    → load_entries acc raw ≡ ok out
    → Loads (last_entry action raw) (get action acc) (get action out)
unfolding load_entries
load_entries-Loads action acc [] out h = ap (get action) (sym (map_injective h))
load_entries-Loads action acc ((name, entry) ∷ raw) out h =
    let (loaded, e, rest) = >>=-eq-ok (load_entry name entry) _ h in
    Loads-trans (last_entry action raw) (if name == action then some entry else none)
      (get action acc) (get action (assign name loaded acc)) (get action out)
      (assign-Loads action name entry loaded acc e)
      (load_entries-Loads action (assign name loaded acc) raw out rest)

load-Loads :
    (action : String) (document : Option Document) (out : LegacyMap)
    → load_legacy_permission_map document ≡ ok out
    → Loads (last_entry action (entries_of document)) none (get action out)
unfolding load_legacy_permission_map get
load-Loads action none out h = ap (get action) (sym (map_injective h))
load-Loads action (some nothing) out h = ap (get action) (sym (map_injective h))
load-Loads action (some (mapping raw)) out h = load_entries-Loads action [] raw out h
load-Loads action (some Document.other) out h = cc

-- The default rules of an action, in normal form.
abbrev pub IsDefault : Option (List String) → Option (List String) → Type 0
IsDefault none after = after ≡ none
IsDefault (some rules) after =
    (ns : List String) × (traverse normalize_permission_rule rules ≡ ok ns)
    × (after ≡ some (sorted_set ns))

sort_map-IsDefault :
    (action : String) (m out : LegacyMap)
    → sort_map m ≡ ok out
    → IsDefault (get action m) (get action out)
unfolding sort_map get sort_permission_rules
sort_map-IsDefault action [] out h = ap (get action) (sym (map_injective h))
sort_map-IsDefault action ((name, rules) ∷ m) out h =
    let (rules', e, rest) = >>=-eq-ok (sort_permission_rules rules) _ h in
    let (ms, later, same) = >>=-eq-ok (sort_map m) _ rest in
    let (ns, f, sorted) = >>=-eq-ok (traverse normalize_permission_rule rules) _ e in
    subst (λ (o : LegacyMap). IsDefault (get action ((name, rules) ∷ m)) (get action o))
      (map_injective same)
      (elim (Bool-cases (name == action)) [
        | inl p ↦ rw p (ns, f, ap some (sym (rules_injective sorted)))
        | inr p ↦ rw p (sort_map-IsDefault action m ms later)
      ])

-- The rules that the merged map has for an action.
abbrev pub Merges : Option Entry → Option (List String) → Option (List String) → Type 0
Merges none default after = IsDefault default after
Merges (some (items rules)) default after =
    (ns : List String) × (traverse normalize_item rules ≡ ok ns) × (after ≡ some (sorted_set ns))
Merges (some Entry.other) default after = ⊥

update-Merges :
    (entry : Option Entry) (default sorted loaded : Option (List String))
    → IsDefault default sorted
    → Loads entry none loaded
    → Merges entry default (elim loaded [ none ↦ sorted | some rules ↦ some rules ])
update-Merges none default sorted loaded h k = rw k h
update-Merges (some (items rules)) default sorted loaded h (ns, e, f) = (ns, e, rw f refl)
update-Merges (some Entry.other) default sorted loaded h k = k

-- When the maps can be merged, the merged map has for every action that the file names the normalised
-- rules of the file, sorted, and for every other action the normalised default rules, sorted, if it
-- has default rules, and else none. What the file names for an action is then a list.
pub merged_overrides :
    (document : Option Document) (m : LegacyMap) (action : String)
    → merged_legacy_permission_map document ≡ ok m
    → Merges
        (last_entry action (entries_of document))
        (get action default_legacy_permission_map)
        (get action m)
unfolding merged_legacy_permission_map
merged_overrides document m action h =
    let (defaults, e, rest) = >>=-eq-ok (sort_map default_legacy_permission_map) _ h in
    let (loaded, later, same) = >>=-eq-ok (load_legacy_permission_map document) _ rest in
    let entry : Option Entry = last_entry action (entries_of document) in
    subst (λ o. Merges entry (get action default_legacy_permission_map) o)
      (sym (
        ap (get action) (sym (map_injective same))
        ∙ get-update action defaults loaded (load_lem document loaded later).1))
      (update-Merges entry (get action default_legacy_permission_map) (get action defaults)
        (get action loaded) (sort_map-IsDefault action default_legacy_permission_map defaults e)
        (load-Loads action document loaded later))
