-- ===== src/Prelude/Order.antt =====
-- The order of texts by code points, and `sorted(set(...))` of texts.
use Prim.Native.Char.{code}
use Prim.Native.String.{String}
use mathlib.Core.Path.{◌≡◌, refl, sym, ap₂, ◌∙◌}
use mathlib.Core.Logic.{◌≢◌, inl, inr}
use mathlib.Core.Bool.{Bool, true, false, ◌||◌, ◌&&◌}
use mathlib.Core.List.{List, [], ◌∷◌}
use native.Mathlib.Omega.{arith}
use text.Mathlib.TextEquality.{eq_iff, Char-path}
use package.slurm_web_plus.Prelude.Tests.{◌==◌, ltb, ◌=ᵇ◌, if◌then◌else◌, Bool-cases}
use package.slurm_web_plus.Prelude.Lists.{elem, All}

-- `s < t` on texts.
pub str_lt : String → String → Bool
str_lt s String.[] = false
str_lt String.[] (String.◌∷◌ d t) = true
str_lt (String.◌∷◌ c s) (String.◌∷◌ d t) = ltb (code c) (code d) || (code c =ᵇ code d && str_lt s t)

pub str_lt_irrefl : (s : String) → str_lt s s ≡ false
unfolding str_lt
str_lt_irrefl String.[] = refl
str_lt_irrefl (String.◌∷◌ c s) = ground (arith, str_lt_irrefl s)

pub str_lt_trans : (s t u : String) → str_lt s t ≡ true → str_lt t u ≡ true → str_lt s u ≡ true
unfolding str_lt
str_lt_trans s String.[] u h k = cc
str_lt_trans s (String.◌∷◌ d t) String.[] h k = cc
str_lt_trans String.[] (String.◌∷◌ d t) (String.◌∷◌ e u) h k = refl
str_lt_trans (String.◌∷◌ c s) (String.◌∷◌ d t) (String.◌∷◌ e u) h k =
    ground (arith, str_lt_trans s t u)

pub str_lt_total : (s t : String) → s ≢ t → str_lt s t ≡ false → str_lt t s ≡ true
unfolding str_lt
str_lt_total String.[] String.[] n h = absurd (n refl)
str_lt_total (String.◌∷◌ c s) String.[] n h = refl
str_lt_total String.[] (String.◌∷◌ d t) n h = cc
str_lt_total (String.◌∷◌ c s) (String.◌∷◌ d t) n h = elim (Bool-cases (code c =ᵇ code d)) [
  | inl e ↦
      let same : c ≡ d = Char-path c d (ground (arith, e)) in
      ground (arith, e, str_lt_total s t (λ p. n (ap₂ String.◌∷◌ same p)))
  | inr e ↦ ground arith
]

-- One more member of a set, in its place.
pub insert_sorted : String → List String → List String
insert_sorted x [] = x ∷ []
insert_sorted x (y ∷ ys) =
    let rest = insert_sorted x ys in
    if x == y then y ∷ ys else if str_lt x y then x ∷ y ∷ ys else y ∷ rest

-- `sorted(set(xs))`.
unfoldable pub sorted_set : List String → List String
unfolding insert_sorted str_lt
sorted_set [] = []
sorted_set (x ∷ xs) = insert_sorted x (sorted_set xs)

elem-insert_sorted :
    (k x : String) (ys : List String) → elem k (insert_sorted x ys) ≡ (k == x || elem k ys)
unfolding insert_sorted elem
elem-insert_sorted k x [] = refl
elem-insert_sorted k x (y ∷ ys) =
    ground (arith, elem-insert_sorted k x ys, eq_iff x y, eq_iff k x, eq_iff k y)

-- `sorted(set(xs))` has the members of `xs`.
pub elem-sorted_set : (k : String) (xs : List String) → elem k (sorted_set xs) ≡ elem k xs
unfolding sorted_set elem
elem-sorted_set k [] = refl
elem-sorted_set k (x ∷ xs) =
    ground (arith, elem-insert_sorted k x (sorted_set xs), elem-sorted_set k xs)

-- Strictly ascending, so without repetition.
abbrev pub IsAscending : List String → Type 0
IsAscending [] = Unit
IsAscending (x ∷ xs) = All (λ y. str_lt x y ≡ true) xs × IsAscending xs

All-insert_sorted :
    (z x : String) (ys : List String)
    → str_lt z x ≡ true
    → All (λ y. str_lt z y ≡ true) ys
    → All (λ y. str_lt z y ≡ true) (insert_sorted x ys)
unfolding insert_sorted
All-insert_sorted z x [] h k = (h, tt)
All-insert_sorted z x (y ∷ ys) h k = ground (arith, All-insert_sorted z x ys h k.1)

All-trans :
    (z x : String) (ys : List String)
    → str_lt z x ≡ true
    → All (λ y. str_lt x y ≡ true) ys
    → All (λ y. str_lt z y ≡ true) ys
All-trans z x [] h k = tt
All-trans z x (y ∷ ys) h k = (str_lt_trans z x y h k.0, All-trans z x ys h k.1)

insert_sorted-IsAscending :
    (x : String) (ys : List String) → IsAscending ys → IsAscending (insert_sorted x ys)
unfolding insert_sorted
insert_sorted-IsAscending x [] h = (tt, tt)
insert_sorted-IsAscending x (y ∷ ys) h = elim (Bool-cases (x == y)) [
  | inl e ↦ rw e h
  | inr e ↦ elim (Bool-cases (str_lt x y)) [
    | inl lt ↦ rw e (rw lt ((lt, All-trans x y ys lt h.0), h))
    | inr nl ↦ rw e (
        rw nl (
          All-insert_sorted y x ys (str_lt_total x y (λ p. cc (e, (eq_iff x y).1 p)) nl) h.0,
          insert_sorted-IsAscending x ys h.1,
        ))
  ]
]

pub sorted_set-IsAscending : (xs : List String) → IsAscending (sorted_set xs)
unfolding sorted_set
sorted_set-IsAscending [] = tt
sorted_set-IsAscending (x ∷ xs) =
    insert_sorted-IsAscending x (sorted_set xs) (sorted_set-IsAscending xs)

-- A text below every member is no member.
elem-above : (x : String) (ys : List String) → All (λ y. str_lt x y ≡ true) ys → elem x ys ≡ false
unfolding elem
elem-above x [] h = refl
elem-above x (y ∷ ys) h = elim (Bool-cases (x == y)) [
  | inl e ↦ let same : x ≡ y = (eq_iff x y).0 e in absurd (cc (h.0, same, str_lt_irrefl x))
  | inr e ↦ rw e (elem-above x ys h.1)
]

lt_of_elem :
    (x k : String) (ys : List String)
    → All (λ y. str_lt x y ≡ true) ys
    → elem k ys ≡ true
    → str_lt x k ≡ true
unfolding elem
lt_of_elem x k [] h m = cc
lt_of_elem x k (y ∷ ys) h m = ground (arith, eq_iff k y, lt_of_elem x k ys h.1)

heads_agree :
    (x y : String) (xs ys : List String)
    → IsAscending (x ∷ xs)
    → IsAscending (y ∷ ys)
    → ((k : String) → elem k (x ∷ xs) ≡ elem k (y ∷ ys))
    → x ≡ y
unfolding elem
heads_agree x y xs ys hx hy same = elim (Bool-cases (x == y)) [
  | inl e ↦ (eq_iff x y).0 e
  | inr e ↦
      let y_below_x : str_lt y x ≡ true =
        lt_of_elem y x ys hy.0 (ground (arith, same x, eq_iff x x, eq_iff x y)) in
      let x_below_y : str_lt x y ≡ true =
        lt_of_elem x y xs hx.0 (ground (arith, same y, eq_iff y y, eq_iff x y, eq_iff y x)) in
      absurd (cc (str_lt_trans x y x x_below_y y_below_x, str_lt_irrefl x))
]

-- Ascending lists with the same members are equal.
pub IsAscending-ext :
    (xs ys : List String)
    → IsAscending xs
    → IsAscending ys
    → ((k : String) → elem k xs ≡ elem k ys)
    → xs ≡ ys
unfolding elem
IsAscending-ext [] [] hx hy same = refl
IsAscending-ext [] (y ∷ ys) hx hy same = absurd (ground (arith, same y, eq_iff y y))
IsAscending-ext (x ∷ xs) [] hx hy same = absurd (ground (arith, same x, eq_iff x x))
IsAscending-ext (x ∷ xs) (y ∷ ys) hx hy same =
    let head : x ≡ y = heads_agree x y xs ys hx hy same in
    ap₂ ◌∷◌ head (IsAscending-ext xs ys hx.1 hy.1 λ k. tails k head)
  where
    tails : (k : String) → x ≡ y → elem k xs ≡ elem k ys
    tails k head =
        ground (arith, same k, eq_iff k x, eq_iff k y, elem-above x xs hx.0, elem-above y ys hy.0)

-- The result depends on the members alone, not on their order or number.
pub sorted_set_canonical :
    (xs ys : List String) → ((k : String) → elem k xs ≡ elem k ys) → sorted_set xs ≡ sorted_set ys
sorted_set_canonical xs ys same =
    IsAscending-ext (sorted_set xs) (sorted_set ys) (sorted_set-IsAscending xs)
      (sorted_set-IsAscending ys) λ k. elem-sorted_set k xs ∙ same k ∙ sym (elem-sorted_set k ys)

-- `sorted(xs)`: a text that occurs twice stays twice.
pub insert_list : String → List String → List String
insert_list x [] = x ∷ []
insert_list x (y ∷ ys) = let rest = insert_list x ys in if str_lt y x then y ∷ rest else x ∷ y ∷ ys

unfoldable pub sorted : List String → List String
unfolding insert_list str_lt
sorted [] = []
sorted (x ∷ xs) = insert_list x (sorted xs)

elem-insert_list :
    (k x : String) (ys : List String) → elem k (insert_list x ys) ≡ (k == x || elem k ys)
unfolding insert_list elem
elem-insert_list k x [] = refl
elem-insert_list k x (y ∷ ys) = ground (arith, elem-insert_list k x ys)

pub elem-sorted : (k : String) (xs : List String) → elem k (sorted xs) ≡ elem k xs
unfolding sorted elem
elem-sorted k [] = refl
elem-sorted k (x ∷ xs) = ground (arith, elem-insert_list k x (sorted xs), elem-sorted k xs)
