-- ===== src/Slurmrestd/Gres.antt =====
-- `node_gres_extract_gpus` of slurmweb/slurmrestd/__init__.py: the number of GPUs in a GRES text.
use slurm_web_plus.Prelude.{
  String, Option, none, some, List, [], ◌∷◌, ◌++◌, ◌==◌, if◌then◌else◌, ◌≡◌, refl, sym, ap, ◌∙◌,
  Option-cases, inl, inr,
}
use slurm_web_plus.Prelude.Text.{split, split-append_sep}
use slurm_web_plus.Prelude.Int.{ℤ, pos, ◌+ℤ◌, int_laws}
use slurm_web_plus.Prelude.Parse.{int}
use Prim.Native.String

-- `parts[0]` of a split text, which has a part always.
abbrev pub first : List String → String
first [] = ""
first (p ∷ ps) = p

abbrev pub last : List String → String
last [] = ""
last (p ∷ []) = p
last (p ∷ q ∷ ps) = last (q ∷ ps)

-- The number of an entry: 0 for an empty one and for another resource. `none` is the `ValueError`
-- of `int`.
unfoldable pub entry_gpus : String → Option ℤ
unfolding split int
entry_gpus gres_s =
    if gres_s == ""
    then some (pos 0)
    else let gres = split b':' (first (split b'(' gres_s)) in
      if first gres == "gpu" then int (last gres) else some (pos 0)

-- `result += n`, where the number may have failed.
abbrev pub add_option : Option ℤ → Option ℤ → Option ℤ
add_option none m = none
add_option (some a) none = none
add_option (some a) (some b) = some (a +ℤ b)

unfoldable pub sum_gpus : ℤ → List String → Option ℤ
sum_gpus result [] = some result
sum_gpus result (gres_s ∷ entries) = elim (entry_gpus gres_s) [
  | none ↦ none
  | some n ↦ sum_gpus (result +ℤ n) entries
]

unfoldable pub node_gres_extract_gpus : String → Option ℤ
unfolding sum_gpus entry_gpus split
node_gres_extract_gpus gres_full = sum_gpus (pos 0) (split b',' gres_full)

+ℤ_zero : (a : ℤ) → a +ℤ pos 0 ≡ a
+ℤ_zero a = omega int_laws

regroup :
    (a n : ℤ) (o : Option ℤ)
    → add_option (some (a +ℤ n)) o ≡ add_option (some a) (add_option (some (pos 0 +ℤ n)) o)
regroup a n none = refl
regroup a n (some b) = ap some (omega int_laws)

-- The accumulator can be added at the end.
sum_gpus-add :
    (a : ℤ) (entries : List String)
    → sum_gpus a entries ≡ add_option (some a) (sum_gpus (pos 0) entries)
unfolding sum_gpus
sum_gpus-add a [] = ap some (sym (+ℤ_zero a))
sum_gpus-add a (e ∷ entries) = elim (Option-cases (entry_gpus e)) [
  | inl h ↦ rw (h, sum_gpus)
  | inr (n, h) ↦
      rw (h, sum_gpus)
        (sum_gpus-add (a +ℤ n) entries
          ∙ regroup a n (sum_gpus (pos 0) entries)
          ∙ ap (add_option (some a)) (sym (sum_gpus-add (pos 0 +ℤ n) entries)))
]

sum_gpus-append :
    (a : ℤ) (xs ys : List String)
    → sum_gpus a (xs ++ ys) ≡ add_option (sum_gpus a xs) (sum_gpus (pos 0) ys)
unfolding sum_gpus
sum_gpus-append a [] ys = sum_gpus-add a ys
sum_gpus-append a (x ∷ xs) ys = elim (Option-cases (entry_gpus x)) [
  | inl h ↦ rw (h, sum_gpus)
  | inr (n, h) ↦ rw (h, sum_gpus) (sum_gpus-append (a +ℤ n) xs ys)
]

-- The GPUs of two GRES texts that are joined by a comma are the sum of those of both, and reading the
-- joined text fails exactly when reading one of the two does.
pub gpus-append :
    (s t : String)
    → node_gres_extract_gpus (String.◌++◌ s (String.◌∷◌ "," t))
      ≡ add_option (node_gres_extract_gpus s) (node_gres_extract_gpus t)
unfolding node_gres_extract_gpus
gpus-append s t =
    ap (sum_gpus (pos 0)) (split-append_sep "," s t)
    ∙ sum_gpus-append (pos 0) (split b',' s) (split b',' t)
