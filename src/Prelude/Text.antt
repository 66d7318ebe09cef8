-- ===== src/Prelude/Text.antt =====
-- Python's `str.strip` and `str.split` on texts, with the laws by which a joined text is split.
use Prim.Native.Nat.{ℕ}
use Prim.Native.Char.{Char, code}
use Prim.Native.String
use Prim.Native.String.{String, [], ◌∷◌}
use mathlib.Core.Path.{◌≡◌, refl, sym, ap, ap₂, ◌∙◌}
use mathlib.Core.Logic.{◌≢◌, ◌⊎◌, inl, inr}
use mathlib.Core.Bool.{Bool, true, false, ◌||◌, ◌&&◌}
use mathlib.Core.List.{List, [], ◌∷◌, ◌++◌}
use native.Mathlib.Omega.{arith}
use text.Mathlib.TextEquality.{Char-path}
use text.Mathlib.TextLemmas.{nil-append, cons-append}
use package.slurm_web_plus.Prelude.Tests.{leb, ◌=ᵇ◌, if◌then◌else◌, Bool-cases, =ᵇ_iff}

-- What `str.isspace` accepts, which `str.strip` removes.
unfoldable pub is_space : Char → Bool
is_space ch =
    let c = code ch in
    (leb 9 c && leb c 13)
    || (leb 28 c && leb c 32)
    || c =ᵇ 133
    || c =ᵇ 160
    || c =ᵇ 5760
    || (leb 8192 c && leb c 8202)
    || c =ᵇ 8232
    || c =ᵇ 8233
    || c =ᵇ 8239
    || c =ᵇ 8287
    || c =ᵇ 12288

abbrev is_empty : String → Bool
is_empty [] = true
is_empty (c ∷ s) = false

pub lstrip : String → String
lstrip [] = []
lstrip (c ∷ s) = let rest = lstrip s in if is_space c then rest else c ∷ s

pub rstrip : String → String
rstrip [] = []
rstrip (c ∷ s) = let rest = rstrip s in if is_empty rest && is_space c then [] else c ∷ rest

unfoldable pub strip : String → String
unfolding lstrip rstrip is_space
strip s = rstrip (lstrip s)

-- A character in front of the first part of a split text.
abbrev push_head : Char → List String → List String
push_head c [] = (c ∷ []) ∷ []
push_head c (p ∷ ps) = (c ∷ p) ∷ ps

-- `s.split(sep)` for a separator of one character.
unfoldable pub split : ℕ → String → List String
split sep [] = [] ∷ []
split sep (c ∷ s) = let rest = split sep s in if code c =ᵇ sep then [] ∷ rest else push_head c rest

-- No character of the text is the separator.
abbrev pub IsFree : ℕ → String → Type 0
IsFree sep [] = Unit
IsFree sep (c ∷ s) = (code c ≢ sep) × IsFree sep s

abbrev pub AllFree : ℕ → List String → Type 0
AllFree sep [] = Unit
AllFree sep (p ∷ ps) = IsFree sep p × AllFree sep ps

AllFree-push_head :
    (sep : ℕ) (c : Char) (ps : List String)
    → code c ≢ sep
    → AllFree sep ps
    → AllFree sep (push_head c ps)
AllFree-push_head sep c [] h k = ((h, tt), tt)
AllFree-push_head sep c (p ∷ ps) h k = ((h, k.0), k.1)

-- The parts of a split text hold no separator.
pub split-AllFree : (sep : ℕ) (s : String) → AllFree sep (split sep s)
unfolding split
split-AllFree sep [] = (tt, tt)
split-AllFree sep (c ∷ s) =
    ground (arith, split-AllFree sep s, AllFree-push_head sep c (split sep s))

pub split_of_IsFree : (sep : ℕ) (p : String) → IsFree sep p → split sep p ≡ p ∷ []
unfolding split
split_of_IsFree sep [] h = refl
split_of_IsFree sep (c ∷ p) h = ground (arith, split_of_IsFree sep p h.1)

pub split-append :
    (sep : ℕ) (p : String) (d : Char) (rest : String)
    → IsFree sep p
    → code d ≡ sep
    → split sep (String.◌++◌ p (d ∷ rest)) ≡ p ∷ split sep rest
unfolding split
split-append sep [] d rest h e = rw nil-append (ground arith)
split-append sep (c ∷ p) d rest h e =
    rw cons-append (ground (arith, split-append sep p d rest h.1 e))

-- The first character, or the last one, is no white space.
abbrev pub StartsSolid : String → Type 0
StartsSolid [] = ⊥
StartsSolid (c ∷ s) = is_space c ≡ false

abbrev pub EndsSolid : String → Type 0
EndsSolid s = (rstrip s ≡ s) × (is_empty s ≡ false)

lstrip-StartsSolid : (s : String) → (is_empty (lstrip s) ≡ false) → StartsSolid (lstrip s)
unfolding lstrip
lstrip-StartsSolid [] h = cc
lstrip-StartsSolid (c ∷ s) h = ground (arith, lstrip-StartsSolid s)

rstrip-StartsSolid : (s : String) → StartsSolid s → StartsSolid (rstrip s)
unfolding rstrip
rstrip-StartsSolid [] h = h
rstrip-StartsSolid (c ∷ s) h = ground arith

rstrip_of_empty : (s : String) → is_empty s ≡ true → rstrip s ≡ []
unfolding rstrip
rstrip_of_empty [] h = refl
rstrip_of_empty (c ∷ s) h = cc

-- A stripped text that is not empty starts with a character that is no white space.
pub strip-StartsSolid : (s : String) → (strip s ≡ []) ⊎ StartsSolid (strip s)
unfolding strip rstrip
strip-StartsSolid s = elim (Bool-cases (is_empty (lstrip s))) [
  | inl e ↦ inl (rstrip_of_empty (lstrip s) e)
  | inr e ↦ inr (rstrip-StartsSolid (lstrip s) (lstrip-StartsSolid s e))
]

lstrip_of_StartsSolid : (s : String) → StartsSolid s → lstrip s ≡ s
unfolding lstrip
lstrip_of_StartsSolid [] h = refl
lstrip_of_StartsSolid (c ∷ s) h = rw h

is_empty-append : (s t : String) → is_empty t ≡ false → is_empty (String.◌++◌ s t) ≡ false
is_empty-append [] t h = rw nil-append h
is_empty-append (c ∷ s) t h = rw cons-append

pub EndsSolid-append : (s t : String) → EndsSolid t → EndsSolid (String.◌++◌ s t)
unfolding rstrip
EndsSolid-append [] t h = rw nil-append h
EndsSolid-append (c ∷ s) t h =
    let (k, full) = EndsSolid-append s t h in rw cons-append (rw k (rw full refl), refl)

pub EndsSolid-cons : (c : Char) (t : String) → EndsSolid t → EndsSolid (c ∷ t)
unfolding rstrip
EndsSolid-cons c t h = ground arith

-- A text that is solid at both ends is left as it is.
pub strip_of_solid : (s : String) → StartsSolid s → EndsSolid s → strip s ≡ s
unfolding strip
strip_of_solid s h k = rw (lstrip_of_StartsSolid s h) k.0

-- `sep.join(parts)` for a separator of one character.
abbrev pub join : Char → List String → String
join d [] = []
join d (p ∷ []) = p
join d (p ∷ q ∷ ps) = String.◌++◌ p (d ∷ join d (q ∷ ps))

join-push_head : (d c : Char) (ps : List String) → join d (push_head c ps) ≡ c ∷ join d ps
join-push_head d c [] = refl
join-push_head d c (p ∷ []) = refl
join-push_head d c (p ∷ q ∷ ps) = rw cons-append

IsFull : List String → Type 0
IsFull [] = ⊥
IsFull (p ∷ ps) = Unit

split-IsFull : (sep : ℕ) (s : String) → IsFull (split sep s)
unfolding split IsFull
split-IsFull sep [] = tt
split-IsFull sep (c ∷ s) = elim (Bool-cases (code c =ᵇ sep)) [
  | inl e ↦ rw e tt
  | inr e ↦ rw e (push_head-IsFull c (split sep s))
]
  where
    push_head-IsFull : (c : Char) (ps : List String) → IsFull (push_head c ps)
    push_head-IsFull c [] = tt
    push_head-IsFull c (p ∷ ps) = tt

join_nil_head : (d : Char) (ps : List String) → IsFull ps → join d ([] ∷ ps) ≡ d ∷ join d ps
unfolding IsFull
join_nil_head d [] h = elim h [ ]
join_nil_head d (p ∷ ps) h = rw nil-append

-- Joining the parts of a text gives the text back.
pub join-split : (d : Char) (s : String) → join d (split (code d) s) ≡ s
unfolding split
join-split d [] = refl
join-split d (c ∷ s) = elim (Bool-cases (code c =ᵇ code d)) [
  | inl e ↦
      let same : d ≡ c = Char-path d c (sym ((=ᵇ_iff (code c) (code d)).0 e)) in
      rw e (
        join_nil_head d (split (code d) s) (split-IsFull (code d) s)
        ∙ ap₂ ◌∷◌ same (join-split d s))
  | inr e ↦
      rw e (join-push_head d c (split (code d) s) ∙ ap (λ (t : String). c ∷ t) (join-split d s))
]

push_head-append :
    (c : Char) (ps qs : List String) → IsFull ps → push_head c (ps ++ qs) ≡ push_head c ps ++ qs
unfolding IsFull
push_head-append c [] qs h = elim h [ ]
push_head-append c (p ∷ ps) qs h = refl

-- A text that is joined at a separator splits into the parts of both sides.
pub split-append_sep :
    (d : Char) (s t : String)
    → split (code d) (String.◌++◌ s (d ∷ t)) ≡ split (code d) s ++ split (code d) t
unfolding split
split-append_sep d [] t = rw nil-append (ground arith)
split-append_sep d (c ∷ s) t = elim (Bool-cases (code c =ᵇ code d)) [
  | inl e ↦ rw cons-append (rw e (ap (λ ps. [] ∷ ps) (split-append_sep d s t)))
  | inr e ↦ rw cons-append (
      rw e (
        ap (push_head c) (split-append_sep d s t)
        ∙ push_head-append c (split (code d) s) (split (code d) t) (split-IsFull (code d) s)))
]
