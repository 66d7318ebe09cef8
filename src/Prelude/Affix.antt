-- ===== src/Prelude/Affix.antt =====
-- Python's `startswith`, `endswith` and `s[:-1]` on texts.
use Prim.Native.Char.{Char, code}
use Prim.Native.String
use Prim.Native.String.{String, [], ◌∷◌}
use mathlib.Core.Path.{◌≡◌, refl, sym, ap, ap₂, ◌∙◌}
use mathlib.Core.Logic.{inl, inr}
use mathlib.Core.Bool.{Bool, true, false, ◌&&◌, ◌||◌}
use native.Mathlib.Omega.{arith}
use text.Mathlib.TextEquality.{eq_iff, Char-path}
use text.Mathlib.TextPositions.{eq_refl}
use text.Mathlib.TextLemmas.{nil-append, cons-append}
use package.slurm_web_plus.Prelude.Tests.{◌==◌, ◌=ᵇ◌, =ᵇ_iff, Bool-cases}

unfoldable pub starts_with : String → String → Bool
starts_with s [] = true
starts_with [] (d ∷ t) = false
starts_with (c ∷ s) (d ∷ t) = code c =ᵇ code d && starts_with s t

unfoldable pub ends_with : String → String → Bool
ends_with [] t = [] == t
ends_with (c ∷ s) t = (c ∷ s) == t || ends_with s t

-- `s[:-1]`.
unfoldable pub drop_last : String → String
drop_last [] = []
drop_last (c ∷ []) = []
drop_last (c ∷ d ∷ s) = c ∷ drop_last (d ∷ s)

pub starts_with_sound :
    (s t : String) → starts_with s t ≡ true → (u : String) × (s ≡ String.◌++◌ t u)
unfolding starts_with
starts_with_sound s [] h = (s, sym (nil-append s))
starts_with_sound [] (d ∷ t) h = cc
starts_with_sound (c ∷ s) (d ∷ t) h =
    let (u, e) = starts_with_sound s t (ground (arith, h)) in
    let same : c ≡ d = Char-path c d ((=ᵇ_iff (code c) (code d)).0 (ground (arith, h))) in
    (u, ap₂ ◌∷◌ same e ∙ sym (cons-append d t u))

pub starts_with_complete : (t u : String) → starts_with (String.◌++◌ t u) t ≡ true
unfolding starts_with
starts_with_complete [] u = refl
starts_with_complete (d ∷ t) u = rw cons-append (ground (arith, starts_with_complete t u))

pub ends_with_sound : (s t : String) → ends_with s t ≡ true → (u : String) × (s ≡ String.◌++◌ u t)
unfolding ends_with
ends_with_sound [] t h = ([], (eq_iff [] t).0 h ∙ sym (nil-append t))
ends_with_sound (c ∷ s) t h = elim (Bool-cases ((c ∷ s) == t)) [
  | inl e ↦ ([], (eq_iff (c ∷ s) t).0 e ∙ sym (nil-append t))
  | inr e ↦
      let (u, p) = ends_with_sound s t (ground (arith, h, e)) in
      (c ∷ u, ap (λ (v : String). c ∷ v) p ∙ sym (cons-append c u t))
]

pub ends_with_self : (t : String) → ends_with t t ≡ true
unfolding ends_with
ends_with_self [] = eq_refl []
ends_with_self (c ∷ t) = ground (arith, eq_refl (c ∷ t))

pub ends_with_complete : (u t : String) → ends_with (String.◌++◌ u t) t ≡ true
unfolding ends_with
ends_with_complete [] t = rw nil-append (ends_with_self t)
ends_with_complete (c ∷ u) t = rw cons-append (ground (arith, ends_with_complete u t))

-- `(u + c + d)[:-1]` is `u + c`.
pub drop_last-append :
    (u : String) (c d : Char) → drop_last (String.◌++◌ u (c ∷ d ∷ [])) ≡ String.◌++◌ u (c ∷ [])
unfolding drop_last
drop_last-append [] c d = rw nil-append (rw nil-append)
drop_last-append (b ∷ []) c d = simp (cons-append, nil-append)
drop_last-append (b ∷ a ∷ u) c d =
    ap drop_last (
      cons-append b (a ∷ u) (c ∷ d ∷ [])
      ∙ ap (λ (v : String). b ∷ v) (cons-append a u (c ∷ d ∷ [])))
    ∙ ap (λ (v : String). b ∷ v)
        (ap drop_last (sym (cons-append a u (c ∷ d ∷ []))) ∙ drop_last-append (a ∷ u) c d)
    ∙ sym (cons-append b (a ∷ u) (c ∷ []))
