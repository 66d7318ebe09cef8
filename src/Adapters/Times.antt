-- ===== src/Adapters/Times.antt =====
-- What the adapter of version 0.0.39 makes of the times of a node.
use slurm_web_plus.Prelude.{
  String, Bool, true, false, [], ◌∷◌, elem, Option, none, some, ◌≡◌, refl, sym, subst, ◌∙◌,
}
use slurm_web_plus.Prelude.Dict.{Dict, get}
use slurm_web_plus.Prelude.Int.{ℤ, pos}
use slurm_web_plus.Prelude.Parse.{int}
use slurm_web_plus.Json.Value.{
  Members, Json, null, bool, number, text, array, object, dict, as_dict, get_default, get_or_null,
}
use slurm_web_plus.Adapters.Number.{of_value, of_fields, is_given, int_of, optional_number}
use slurm_web_plus.Adapters.V39.{node_time_fields, adapt_node}
use slurm_web_plus.Adapters.Laws.{Changed, on_fields-Changed}

abbrev pub written : Bool → ℤ → Json
written set n = dict (("set", bool set) ∷ ("infinite", bool false) ∷ ("number", number n) ∷ [])

-- A time of version 0.0.40 for the one of version 0.0.39. A list is an exception.
abbrev pub IsTimed : Option Json → Option Json → Type 0
IsTimed none new = new ≡ none
IsTimed (some null) new = new ≡ some (written false (pos 0))
IsTimed (some (number n)) new = new ≡ some (written true n)
IsTimed (some (bool b)) new = new ≡ some (written true (elim b [ true ↦ pos 1 | false ↦ pos 0 ]))
IsTimed (some (text s)) new = (n : ℤ) × (int s ≡ some n) × (new ≡ some (written true n))
IsTimed (some (array js)) new = ⊥
IsTimed (some (object ms)) new =
    (d : Dict Json) × (as_dict (object ms) ≡ some d)
    × (new
        ≡ some (
            dict (
              ("set", get_default "set" (bool (is_given (get_or_null "number" d))) d)
              ∷ ("infinite", get_default "infinite" (bool false) d)
              ∷ ("number", get_default "number" (number (pos 0)) d)
              ∷ [])))

json_injective : {a b : Json} → some a ≡ some b → a ≡ b
json_injective h = cc

from_text :
    (o : Option ℤ) (w : Json) (new : Option Json)
    → elim o as (λ x. Option Json) [ none ↦ none | some n ↦ some (written true n) ] ≡ some w
    → new ≡ some w
    → (n : ℤ) × (o ≡ some n) × (new ≡ some (written true n))
from_text none w new e f = cc (e)
from_text (some n) w new e f = (n, refl, f ∙ sym e)

from_object :
    (ms : Members) (o : Option (Dict Json)) (w : Json) (new : Option Json)
    → as_dict (object ms) ≡ o
    → elim o as (λ x. Option Json) [ none ↦ of_value (object ms) | some d ↦ some (of_fields d) ]
      ≡ some w
    → new ≡ some w
    → IsTimed (some (object ms)) new
unfolding int_of
from_object ms none w new same e f = cc (e)
from_object ms (some d) w new same e f = (d, same, f ∙ sym e)

Changed-IsTimed : (old new : Option Json) → Changed optional_number true old new → IsTimed old new
unfolding optional_number int_of as_dict
Changed-IsTimed none new h = h
Changed-IsTimed (some null) new (w, e, f) = f ∙ sym e
Changed-IsTimed (some (number n)) new (w, e, f) = f ∙ sym e
Changed-IsTimed (some (bool true)) new (w, e, f) = f ∙ sym e
Changed-IsTimed (some (bool false)) new (w, e, f) = f ∙ sym e
Changed-IsTimed (some (text s)) new (w, e, f) = from_text (int s) w new e f
Changed-IsTimed (some (array js)) new (w, e, f) = cc (e)
Changed-IsTimed (some (object ms)) new (w, e, f) =
    from_object ms (as_dict (object ms)) w new refl e f

-- What a node that is adapted from version 0.0.39 has for a key: for `boot_time`, `last_busy`,
-- `slurmd_start_time` and `reason_changed_at` the time of version 0.0.40, if it has the key, and for
-- every other key what the node had. A number n becomes one that is set and not infinite, null becomes
-- 0 that is not set, a text is read as a number, and an object gives its `set`, `infinite` and
-- `number`, with defaults for those that it does not have.
pub adapt_node-IsTimed :
    (node adapted : Dict Json) (k : String)
    → adapt_node node ≡ some adapted
    → IsTimed (get "boot_time" node) (get "boot_time" adapted)
      × IsTimed (get "last_busy" node) (get "last_busy" adapted)
      × IsTimed (get "slurmd_start_time" node) (get "slurmd_start_time" adapted)
      × IsTimed (get "reason_changed_at" node) (get "reason_changed_at" adapted)
      × (elem k ("boot_time" ∷ "last_busy" ∷ "slurmd_start_time" ∷ "reason_changed_at" ∷ []) ≡ false
          → get k adapted ≡ get k node)
unfolding adapt_node elem
adapt_node-IsTimed node adapted k h = (
  timed "boot_time" refl,
  timed "last_busy" refl,
  timed "slurmd_start_time" refl,
  timed "reason_changed_at" refl,
  λ e. subst (λ b. Changed optional_number b (get k node) (get k adapted)) e (changed k),
)
  where
    changed :
        (j : String)
        → Changed optional_number (elem j node_time_fields) (get j node) (get j adapted)
    changed j =
        on_fields-Changed optional_number node_time_fields node adapted j
          (refl, (refl, (refl, (refl, tt)))) h

    timed : (j : String) → elem j node_time_fields ≡ true → IsTimed (get j node) (get j adapted)
    timed j e =
        Changed-IsTimed (get j node) (get j adapted)
          (subst (λ b. Changed optional_number b (get j node) (get j adapted)) e (changed j))
