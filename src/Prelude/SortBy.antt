-- ===== src/Prelude/SortBy.antt =====
-- Python's stable sort of any items, by a test `stays x y`: x may stand before y.
use Prim.Native.Nat.{ℕ, ◌+◌, zero, suc}
use mathlib.Core.Path.{◌≡◌, refl}
use mathlib.Core.Logic.{inl, inr}
use mathlib.Core.Bool.{Bool, true, false, ◌||◌}
use mathlib.Core.List.{List, [], ◌∷◌}
use native.Mathlib.Omega.{arith}
use package.slurm_web_plus.Prelude.Tests.{if◌then◌else◌, Bool-cases}
use package.slurm_web_plus.Prelude.Lists.{length, All, any, take}

module _ {ℓ} {A : Type ℓ} where
  pub insert_by : (A → A → Bool) → A → List A → List A
  insert_by stays x [] = x ∷ []
  insert_by stays x (y ∷ ys) =
      let rest = insert_by stays x ys in if stays x y then x ∷ y ∷ ys else y ∷ rest

  unfoldable pub sort_by : (A → A → Bool) → List A → List A
  unfolding insert_by
  sort_by stays [] = []
  sort_by stays (x ∷ xs) = insert_by stays x (sort_by stays xs)

  length-insert_by :
      (stays : A → A → Bool) (x : A) (ys : List A) → length (insert_by stays x ys) ≡ suc (length ys)
  unfolding insert_by
  length-insert_by stays x [] = refl
  length-insert_by stays x (y ∷ ys) = ground (arith, length-insert_by stays x ys)

  pub length-sort_by : (stays : A → A → Bool) (xs : List A) → length (sort_by stays xs) ≡ length xs
  unfolding sort_by
  length-sort_by stays [] = refl
  length-sort_by stays (x ∷ xs) =
      omega (arith, length-insert_by stays x (sort_by stays xs), length-sort_by stays xs)

  All-insert_by {κ} :
      (P : A → Type κ) (stays : A → A → Bool) (x : A) (ys : List A)
      → P x
      → All P ys
      → All P (insert_by stays x ys)
  unfolding insert_by
  All-insert_by P stays x [] h k = (h, tt)
  All-insert_by P stays x (y ∷ ys) h k = elim (Bool-cases (stays x y)) [
    | inl e ↦ rw e (h, k)
    | inr e ↦ rw e (k.0, All-insert_by P stays x ys h k.1)
  ]

  -- What holds of every item holds of every item of the sorted list.
  pub All-sort_by {κ} :
      (P : A → Type κ) (stays : A → A → Bool) (xs : List A) → All P xs → All P (sort_by stays xs)
  unfolding sort_by
  All-sort_by P stays [] h = tt
  All-sort_by P stays (x ∷ xs) h =
      All-insert_by P stays x (sort_by stays xs) h.0 (All-sort_by P stays xs h.1)

  any-insert_by :
      (p : A → Bool) (stays : A → A → Bool) (x : A) (ys : List A)
      → any p (insert_by stays x ys) ≡ (p x || any p ys)
  unfolding insert_by any
  any-insert_by p stays x [] = refl
  any-insert_by p stays x (y ∷ ys) = ground (arith, any-insert_by p stays x ys)

  -- Sorting keeps what some item passes.
  pub any-sort_by :
      (p : A → Bool) (stays : A → A → Bool) (xs : List A) → any p (sort_by stays xs) ≡ any p xs
  unfolding sort_by any
  any-sort_by p stays [] = refl
  any-sort_by p stays (x ∷ xs) =
      ground (arith, any-insert_by p stays x (sort_by stays xs), any-sort_by p stays xs)

  abbrev pub count : (A → Bool) → List A → ℕ
  count p [] = 0
  count p (x ∷ xs) = (if p x then 1 else 0) + count p xs

  count-insert_by :
      (p : A → Bool) (stays : A → A → Bool) (x : A) (ys : List A)
      → count p (insert_by stays x ys) ≡ count p (x ∷ ys)
  unfolding insert_by
  count-insert_by p stays x [] = refl
  count-insert_by p stays x (y ∷ ys) = elim (Bool-cases (stays x y)) [
    | inl e ↦ rw e refl
    | inr e ↦ rw e (omega (arith, count-insert_by p stays x ys))
  ]

  pub count-sort_by :
      (p : A → Bool) (stays : A → A → Bool) (xs : List A) → count p (sort_by stays xs) ≡ count p xs
  unfolding sort_by
  count-sort_by p stays [] = refl
  count-sort_by p stays (x ∷ xs) =
      omega (arith, count-insert_by p stays x (sort_by stays xs), count-sort_by p stays xs)

  -- Each item may stand before every later one.
  abbrev pub IsOrdered : (A → A → Bool) → List A → Type 0
  IsOrdered stays [] = Unit
  IsOrdered stays (x ∷ xs) = All (λ y. stays x y ≡ true) xs × IsOrdered stays xs

  pub All-take {κ} : (P : A → Type κ) (n : ℕ) (xs : List A) → All P xs → All P (take n xs)
  All-take P zero xs h = tt
  All-take P (suc n) [] h = tt
  All-take P (suc n) (x ∷ xs) h = (h.0, All-take P n xs h.1)

  pub take-IsOrdered :
      (stays : A → A → Bool) (n : ℕ) (xs : List A)
      → IsOrdered stays xs
      → IsOrdered stays (take n xs)
  take-IsOrdered stays zero xs h = tt
  take-IsOrdered stays (suc n) [] h = tt
  take-IsOrdered stays (suc n) (x ∷ xs) h = (All-take _ n xs h.0, take-IsOrdered stays n xs h.1)

  module _ (stays : A → A → Bool) (total : (a b : A) → stays a b ≡ false → stays b a ≡ true)
      (transitive : (a b c : A) → stays a b ≡ true → stays b c ≡ true → stays a c ≡ true) where
    All-after :
        (x y : A) (ys : List A)
        → stays x y ≡ true
        → All (λ z. stays y z ≡ true) ys
        → All (λ z. stays x z ≡ true) ys
    All-after x y [] h k = tt
    All-after x y (z ∷ ys) h k = (transitive x y z h k.0, All-after x y ys h k.1)

    insert_by-IsOrdered :
        (x : A) (ys : List A) → IsOrdered stays ys → IsOrdered stays (insert_by stays x ys)
    unfolding insert_by
    insert_by-IsOrdered x [] h = (tt, tt)
    insert_by-IsOrdered x (y ∷ ys) h = elim (Bool-cases (stays x y)) [
      | inl e ↦ rw e ((e, All-after x y ys e h.0), h)
      | inr e ↦ rw e (All-insert_by _ stays x ys (total x y e) h.0, insert_by-IsOrdered x ys h.1)
    ]

    pub sort_by-IsOrdered : (xs : List A) → IsOrdered stays (sort_by stays xs)
    unfolding sort_by
    sort_by-IsOrdered [] = tt
    sort_by-IsOrdered (x ∷ xs) = insert_by-IsOrdered x (sort_by stays xs) (sort_by-IsOrdered xs)
