-- ===== src/RoleStore/Counting.antt =====
-- `_role_ids_exist` of slurmweb/persistence/access_control_store.py compares two counts: they agree
-- exactly when every id has a row.
use slurm_web_plus.Prelude.{
  ℕ, ◌+◌, ◌<◌, ◌≤◌, Bool, true, false, ◌||◌, List, [], ◌∷◌, ◌=ᵇ◌, if◌then◌else◌, any, filter,
  length, All, ◌≡◌, ◌↔◌, refl, ◌∙◌, sym, inl, inr, arith, Bool-cases, =ᵇ_iff,
}
use slurm_web_plus.RoleStore.{RoleRow}
use slurm_web_plus.RoleStore.Roles.{has_id}
use slurm_web_plus.RoleStore.Rows.{Differs, RolesValid}
use slurm_web_plus.RoleStore.Assigning.{elem_id, insert_id, sorted_ids, role_ids_exist}

elem_id-insert_id : (k i : ℕ) (js : List ℕ) → elem_id k (insert_id i js) ≡ (k =ᵇ i || elem_id k js)
unfolding insert_id elem_id
elem_id-insert_id k i [] = refl
elem_id-insert_id k i (j ∷ js) = ground (arith, elem_id-insert_id k i js)

-- `sorted(set(ids))` has the ids.
pub elem_id-sorted_ids : (k : ℕ) (ids : List ℕ) → elem_id k (sorted_ids ids) ≡ elem_id k ids
unfolding sorted_ids elem_id
elem_id-sorted_ids k [] = refl
elem_id-sorted_ids k (i ∷ ids) =
    ground (arith, elem_id-insert_id k i (sorted_ids ids), elem_id-sorted_ids k ids)

abbrev pub IsIncreasing : List ℕ → Type 0
IsIncreasing [] = Unit
IsIncreasing (i ∷ is) = All (λ j. i < j) is × IsIncreasing is

All-insert_id :
    (z i : ℕ) (js : List ℕ) → z < i → All (λ j. z < j) js → All (λ j. z < j) (insert_id i js)
unfolding insert_id
All-insert_id z i [] h k = (h, tt)
All-insert_id z i (j ∷ js) h k = ground (arith, All-insert_id z i js h k.1)

All-above : (i j : ℕ) (js : List ℕ) → i < j → All (λ k. j < k) js → All (λ k. i < k) js
All-above i j [] h k = tt
All-above i j (x ∷ js) h k = (omega arith, All-above i j js h k.1)

insert_id-IsIncreasing : (i : ℕ) (js : List ℕ) → IsIncreasing js → IsIncreasing (insert_id i js)
unfolding insert_id
insert_id-IsIncreasing i [] h = (tt, tt)
insert_id-IsIncreasing i (j ∷ js) h =
    ground (arith, insert_id-IsIncreasing i js h.1, All-above i j js, All-insert_id j i js, h.0)

pub sorted_ids-IsIncreasing : (ids : List ℕ) → IsIncreasing (sorted_ids ids)
unfolding sorted_ids
sorted_ids-IsIncreasing [] = tt
sorted_ids-IsIncreasing (i ∷ ids) =
    insert_id-IsIncreasing i (sorted_ids ids) (sorted_ids-IsIncreasing ids)

-- The ids that have a row among `rs`.
abbrev known_ids : List RoleRow → List ℕ → List ℕ
unfolding filter any
known_ids rs ids = filter (λ i. any (has_id i) rs) ids

not_above : (i : ℕ) (js : List ℕ) → All (λ j. i < j) js → elem_id i js ≡ false
unfolding elem_id
not_above i [] h = refl
not_above i (j ∷ js) h = ground (arith, h.0, not_above i js h.1)

-- One more row counts once, when its id is asked for.
known_ids-add :
    (r : RoleRow) (rs : List RoleRow) (ids : List ℕ)
    → any (has_id r.id) rs ≡ false
    → IsIncreasing ids
    → length (known_ids (r ∷ rs) ids)
      ≡ (if elem_id r.id ids then 1 else 0) + length (known_ids rs ids)
unfolding known_ids elem_id
known_ids-add r rs [] free inc = omega arith
known_ids-add r rs (i ∷ ids) free inc = elim (Bool-cases (r.id =ᵇ i)) [
  | inl e ↦
      let same : r.id ≡ i = (=ᵇ_iff r.id i).0 e in
      let free' : any (has_id i) rs ≡ false = rw (← same) free in
      ground
        (arith, e, free', not_above r.id ids (rw same inc.0), known_ids-add r rs ids free inc.1)
  | inr ne ↦ ground (arith, ne, known_ids-add r rs ids free inc.1)
]

Differs-has_id :
    (r : RoleRow) (rs : List RoleRow) → All (Differs r) rs → any (has_id r.id) rs ≡ false
unfolding any
Differs-has_id r [] h = refl
Differs-has_id r (s ∷ rs) h = ground (arith, h.0, Differs-has_id r rs h.1)

known_ids-none : (ids : List ℕ) → length (known_ids [] ids) ≡ 0
unfolding known_ids
known_ids-none [] = refl
known_ids-none (i ∷ ids) = known_ids-none ids

-- The rows that are asked for and the ids that have a row are equally many.
count_lem :
    (next : ℕ) (rs : List RoleRow) (ids asked : List ℕ)
    → IsIncreasing ids
    → ((k : ℕ) → elem_id k asked ≡ elem_id k ids)
    → RolesValid next rs
    → length (filter (λ r. elem_id r.id asked) rs) ≡ length (known_ids rs ids)
unfolding filter
count_lem next [] ids asked inc same v = sym (known_ids-none ids)
count_lem next (r ∷ rs) ids asked inc same v = ground (
  arith,
  same r.id,
  known_ids-add r rs ids (Differs-has_id r rs v.1) inc,
  count_lem next rs ids asked inc same v.2,
)

length-filter-le : (p : ℕ → Bool) (xs : List ℕ) → length (filter p xs) ≤ length xs
unfolding filter
length-filter-le p [] = omega arith
length-filter-le p (x ∷ xs) = ground (arith, length-filter-le p xs)

all_pass :
    (p : ℕ → Bool) (xs : List ℕ) (i : ℕ)
    → length (filter p xs) ≡ length xs
    → elem_id i xs ≡ true
    → p i ≡ true
unfolding filter elem_id
all_pass p [] i h m = cc
all_pass p (x ∷ xs) i h m = elim (Bool-cases (i =ᵇ x)) [
  | inl e ↦ let same : i ≡ x = (=ᵇ_iff i x).0 e in rw same (ground (arith, length-filter-le p xs))
  | inr ne ↦ all_pass p xs i (ground (arith, length-filter-le p xs)) (ground (arith, ne))
]

pass_all :
    (p : ℕ → Bool) (xs : List ℕ)
    → ((i : ℕ) → elem_id i xs ≡ true → p i ≡ true)
    → length (filter p xs) ≡ length xs
unfolding filter elem_id
pass_all p [] h = refl
pass_all p (x ∷ xs) h =
    let first : p x ≡ true = h x (ground arith) in
    ground (arith, first, pass_all p xs (λ i m. h i (ground (arith, m))))

nothing_asked : (i : ℕ) → elem_id i [] ≡ true → ⊥
unfolding elem_id
nothing_asked i m = cc

-- Every id has a row.
abbrev pub AllKnown : List ℕ → List RoleRow → Type 0
AllKnown ids rs = (i : ℕ) → elem_id i ids ≡ true → any (has_id i) rs ≡ true

-- Where ids are unique, the count of rows is the number of different ids exactly when every id of the
-- call has a row.
pub role_ids_exist_iff :
    (next : ℕ) (ids : List ℕ) (rs : List RoleRow)
    → RolesValid next rs
    → (role_ids_exist ids rs ≡ true) ↔ AllKnown ids rs
unfolding role_ids_exist known_ids
role_ids_exist_iff next [] rs v = (λ h i m. absurd (nothing_asked i m), λ h. refl)
role_ids_exist_iff next (i ∷ ids) rs v =
    let asked : List ℕ = i ∷ ids in
    let different : List ℕ = sorted_ids asked in
    let counted : length (filter (λ r. elem_id r.id asked) rs) ≡ length (known_ids rs different) =
      count_lem next rs different asked (sorted_ids-IsIncreasing asked)
        (λ k. sym (elem_id-sorted_ids k asked)) v in
    (
      λ h k m.
          all_pass (λ j. any (has_id j) rs) different k (sym counted ∙ (=ᵇ_iff _ _).0 h)
            (elem_id-sorted_ids k asked ∙ m),
      λ h. (=ᵇ_iff _ _).1 (
          counted
          ∙ pass_all (λ j. any (has_id j) rs) different
              (λ k m. h k (sym (elem_id-sorted_ids k asked) ∙ m))),
    )
