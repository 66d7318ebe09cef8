-- ===== src/Prelude/Dict.antt =====
-- Python dictionaries with text keys: association lists in the order of insertion.
use Prim.Native.String.{String}
use mathlib.Core.Path.{◌≡◌, refl, ◌∙◌}
use mathlib.Core.Logic.{inl, inr}
use mathlib.Core.Bool.{Bool, true, false, ◌||◌}
use mathlib.Core.Option.{Option, none, some}
use mathlib.Core.List.{List, [], ◌∷◌}
use native.Mathlib.Omega.{arith}
use text.Mathlib.TextEquality.{eq_iff}
use package.slurm_web_plus.Prelude.Tests.{◌==◌, if◌then◌else◌, Bool-cases}
use package.slurm_web_plus.Prelude.Lists.{elem}

abbrev pub Dict {ℓ} : Type ℓ → Type ℓ
Dict V = List (String × V)

module _ {ℓ} {V : Type ℓ} where
  -- `d.get(k)`.
  unfoldable pub get : String → Dict V → Option V
  get k [] = none
  get k ((j, v) ∷ d) = if j == k then some v else get k d

  -- `k in d`.
  unfoldable pub has : String → Dict V → Bool
  unfolding get
  has k d = elim (get k d) [ none ↦ false | some v ↦ true ]

  -- `d[k] = v`: a key that is there keeps its place, a new one goes to the end.
  unfoldable pub assign : String → V → Dict V → Dict V
  assign k v [] = (k, v) ∷ []
  assign k v ((j, w) ∷ d) = let rest = assign k v d in if j == k then (j, v) ∷ d else (j, w) ∷ rest

  -- The dictionary without a key.
  unfoldable pub remove : String → Dict V → Dict V
  remove k [] = []
  remove k ((j, v) ∷ d) = let rest = remove k d in if j == k then rest else (j, v) ∷ rest

  -- `d.update(e)`.
  unfoldable pub update : Dict V → Dict V → Dict V
  unfolding assign
  update d [] = d
  update d ((k, v) ∷ e) = update (assign k v d) e

  -- `d.get(k, default)`.
  abbrev pub or_else : V → Option V → V
  or_else v none = v
  or_else v (some w) = w

  abbrev pub keys : Dict V → List String
  keys [] = []
  keys ((k, v) ∷ d) = k ∷ keys d

  pub get-assign :
      (k j : String) (v : V) (d : Dict V)
      → get j (assign k v d) ≡ (if k == j then some v else get j d)
  unfolding get assign
  get-assign k j v [] = refl
  get-assign k j v ((i, w) ∷ d) =
      ground (arith, eq_iff k j, eq_iff i k, eq_iff i j, get-assign k j v d)

  pub get-remove :
      (k j : String) (d : Dict V) → get j (remove k d) ≡ (if k == j then none else get j d)
  unfolding get remove
  get-remove k j [] = ground arith
  get-remove k j ((i, w) ∷ d) = ground (arith, eq_iff k j, eq_iff i k, eq_iff i j, get-remove k j d)

pub ruleset dict_laws = (get-assign, get-remove)

-- Every key stands once, as in every Python dictionary.
abbrev pub IsDict {ℓ} : {V : Type ℓ} → Dict V → Type 0
IsDict [] = Unit
IsDict ((k, v) ∷ d) = (has k d ≡ false) × IsDict d

module _ {ℓ} {V : Type ℓ} where
  pub has-assign : (j k : String) (v : V) (d : Dict V) → has j (assign k v d) ≡ (k == j || has j d)
  unfolding has
  has-assign j k v d = ground (arith, get-assign k j v d)

  pub assign-IsDict : (k : String) (v : V) (d : Dict V) → IsDict d → IsDict (assign k v d)
  unfolding assign has
  assign-IsDict k v [] h = (refl, tt)
  assign-IsDict k v ((j, w) ∷ d) h = elim (Bool-cases (j == k)) [
    | inl e ↦ rw e h
    | inr e ↦ rw e (has-assign j k v d ∙ rejoin e h.0, assign-IsDict k v d h.1)
  ]
    where
      rejoin : j == k ≡ false → has j d ≡ false → (k == j || has j d) ≡ false
      rejoin e h = ground (arith, eq_iff j k, eq_iff k j)

  pub get-eq-none : (k : String) (d : Dict V) → has k d ≡ false → get k d ≡ none
  unfolding has
  get-eq-none k d h = ground arith

  -- The second dictionary's value wins where it has one.
  pub get-update :
      (k : String) (d e : Dict V)
      → IsDict e
      → get k (update d e) ≡ elim (get k e) [ none ↦ get k d | some v ↦ some v ]
  unfolding get update
  get-update k d [] h = refl
  get-update k d ((j, v) ∷ e) h = ground (
    arith,
    get-update k (assign j v d) e h.1,
    get-assign j k v d,
    eq_iff j k,
    get-eq-none j e h.0,
  )

  -- `k in d`, by the keys.
  pub elem-keys : (k : String) (d : Dict V) → elem k (keys d) ≡ has k d
  unfolding elem has
  elem-keys k [] = refl
  elem-keys k ((j, v) ∷ d) = ground (arith, elem-keys k d, eq_iff k j, eq_iff j k)
