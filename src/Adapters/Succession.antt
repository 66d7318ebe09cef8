-- ===== src/Adapters/Succession.antt =====
-- The chain of adapters that `build_adaptation_chain` makes.
use slurm_web_plus.Prelude.{
  ℕ, zero, suc, ◌-◌, ◌≤◌, String, true, List, [], ◌∷◌, ◌==◌, leb, take, drop, Option, none, some,
  ◌≡◌, refl, sym, ap, subst, ◌∙◌, arith, inl, inr, Bool-cases, Option-cases, eq_iff,
}
use slurm_web_plus.Prelude.Maybe.{some-inj}
use slurm_web_plus.Adapters.Chain.{
  Adapter, v39, v40, v41, v42, v43, adapter_of, reversed, index, adapters_of, slice, chain_between,
  build_adaptation_chain,
}

chain_of_slice :
    (versions : List String) (i j : ℕ)
    → i ≤ j
    → chain_between versions (some i) (some j) ≡ adapters_of (slice i j versions)
unfolding adapters_of
chain_of_slice versions i j h = elim (Bool-cases (leb j i)) [
  | inr e ↦ rw e refl
  | inl e ↦ rw e (ap (λ n. adapters_of (take n (drop i versions))) (none_left e))
]
  where
    none_left : leb j i ≡ true → 0 ≡ j - i
    none_left e = ground arith

-- The version that an adapter reads, and the one that it writes.
abbrev pub from_version : Adapter → String
from_version v39 = "0.0.39"
from_version v40 = "0.0.40"
from_version v41 = "0.0.41"
from_version v42 = "0.0.42"
from_version v43 = "0.0.43"

abbrev pub to_version : Adapter → String
to_version v39 = "0.0.40"
to_version v40 = "0.0.41"
to_version v41 = "0.0.42"
to_version v42 = "0.0.43"
to_version v43 = "0.0.44"

-- Each adapter reads the version that the one before it writes, from the first to the last version.
abbrev pub Leads : String → List Adapter → String → Type 0
Leads a [] b = a ≡ b
Leads a (x ∷ xs) b = (from_version x ≡ a) × Leads (to_version x) xs b

-- From each version to the next there is an adapter.
abbrev pub IsSuccession : List String → Type 0
IsSuccession [] = Unit
IsSuccession (v ∷ []) = Unit
IsSuccession (v ∷ w ∷ versions) =
    ((x : Adapter) × (from_version x ≡ v) × (to_version x ≡ w)) × IsSuccession (w ∷ versions)

abbrev nth : ℕ → List String → Option String
nth n [] = none
nth zero (v ∷ versions) = some v
nth (suc n) (v ∷ versions) = nth n versions

nth-index :
    (b : String) (versions : List String) (j : ℕ)
    → index b versions ≡ some j
    → nth j versions ≡ some b
unfolding index
nth-index b [] j h = cc (h)
nth-index b (v ∷ versions) j h = elim (Bool-cases (v == b)) [
  | inl e ↦
      ap (λ n. nth n (v ∷ versions)) (sym (some-inj 0 j (rw e at h))) ∙ ap some ((eq_iff v b).0 e)
  | inr e ↦ elim (Option-cases (index b versions)) [
    | inl none_there ↦ absurd (cc (rw none_there at (rw (e, index) at h)))
    | inr (i, p) ↦
        ap (λ n. nth n (v ∷ versions)) (sym (some-inj (suc i) j (rw p at (rw (e, index) at h))))
        ∙ nth-index b versions i p
  ]
]

minus_zero : (j : ℕ) → j - 0 ≡ j
minus_zero j = omega arith

suc_minus : (i j : ℕ) → suc j - suc i ≡ j - i
suc_minus i j = omega arith

nth-drop :
    (i j : ℕ) (versions : List String) → i ≤ j → nth (j - i) (drop i versions) ≡ nth j versions
nth-drop zero j versions h = ap (λ n. nth n versions) (minus_zero j)
nth-drop (suc i) j [] h = refl
nth-drop (suc i) zero (v ∷ versions) h = absurd (omega arith)
nth-drop (suc i) (suc j) (v ∷ versions) h =
    ap (λ n. nth n (drop i versions)) (suc_minus i j) ∙ nth-drop i j versions (omega arith)

drop-IsSuccession :
    (i : ℕ) (versions : List String) → IsSuccession versions → IsSuccession (drop i versions)
drop-IsSuccession zero versions h = h
drop-IsSuccession (suc i) [] h = tt
drop-IsSuccession (suc zero) (v ∷ []) h = tt
drop-IsSuccession (suc (suc i)) (v ∷ []) h = tt
drop-IsSuccession (suc i) (v ∷ w ∷ versions) h = drop-IsSuccession i (w ∷ versions) h.1

adapter_of-from_version : (x : Adapter) → adapter_of (from_version x) ≡ some x
adapter_of-from_version v39 = refl
adapter_of-from_version v40 = refl
adapter_of-from_version v41 = refl
adapter_of-from_version v42 = refl
adapter_of-from_version v43 = refl

take-Leads :
    (n : ℕ) (a b : String) (versions : List String)
    → IsSuccession versions
    → nth 0 versions ≡ some a
    → nth n versions ≡ some b
    → Leads a (adapters_of (take n versions)) b
unfolding adapters_of
take-Leads n a b [] h first last = cc (first)
take-Leads zero a b (v ∷ versions) h first last = some-inj a b (sym first ∙ last)
take-Leads (suc n) a b (v ∷ []) h first last = cc (last)
take-Leads (suc n) a b (v ∷ w ∷ versions) ((x, reads, writes), h) first last =
    let known : adapter_of v ≡ some x = ap adapter_of (sym reads) ∙ adapter_of-from_version x in
    rw (known, adapters_of)
      (
        reads ∙ some-inj v a first,
        take-Leads n (to_version x) b (w ∷ versions) h (ap some (sym writes)) last,
      )

-- If from each of the supported versions to the next newer one there is an adapter, and version b is
-- supported and no older than version a, the chain from a to b leads from a to b: its first adapter
-- reads version a, each next one reads the version that the one before it writes, and the last writes
-- version b; for the same version it is empty.
pub build_adaptation_chain-Leads :
    (a b : String) (supported : List String) (i j : ℕ)
    → IsSuccession (reversed supported)
    → index a (reversed supported) ≡ some i
    → index b (reversed supported) ≡ some j
    → i ≤ j
    → Leads a (build_adaptation_chain a b supported) b
unfolding build_adaptation_chain
build_adaptation_chain-Leads a b supported i j h ha hb hij =
    let versions : List String = reversed supported in
    rw (ha, hb)
      (subst (λ chain. Leads a chain b) (sym (chain_of_slice versions i j hij))
        (take-Leads (j - i) a b (drop i versions) (drop-IsSuccession i versions h)
          (ap (λ n. nth n (drop i versions)) same
            ∙ nth-drop i i versions (omega arith)
            ∙ nth-index a versions i ha)
          (nth-drop i j versions hij ∙ nth-index b versions j hb)))
  where
    same : 0 ≡ i - i
    same = omega arith
