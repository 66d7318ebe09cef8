-- ===== src/Prelude/Parse.antt =====
-- Python's `int(s)` on a text: white space around it, a sign, and decimal digits with single
-- underscores between them. Digits outside ASCII, which Python takes too, are refused.
use Prim.Native.Nat.{ℕ, ◌+◌, ◌-◌, ◌*◌}
use Prim.Native.Char.{code}
use Prim.Native.String.{String, [], ◌∷◌}
use mathlib.Core.Bool.{Bool, true, false, ◌&&◌}
use mathlib.Core.Option
use mathlib.Core.Option.{Option, none, some}
use package.slurm_web_plus.Prelude.Tests.{leb, ◌=ᵇ◌, if◌then◌else◌}
use package.slurm_web_plus.Prelude.Text.{strip}
use package.slurm_web_plus.Prelude.Int.{ℤ, pos, sub_ℕ}

-- The number read so far, and whether the last character was a digit.
pub digits : ℕ → Bool → String → Option ℕ
digits n after [] = if after then some n else none
digits n after (c ∷ s) =
    let next = digits (n * 10 + (code c - 48)) true s in
    let skipped = digits n false s in
    if leb 48 (code c) && leb (code c) 57
    then next
    else if code c =ᵇ b'_' && after
    then skipped
    else none

pub signed : String → Option ℤ
unfolding digits
signed [] = none
signed (c ∷ s) =
    if code c =ᵇ b'-'
    then Option.map (λ n. sub_ℕ 0 n) (digits 0 false s)
    else if code c =ᵇ b'+'
    then Option.map pos (digits 0 false s)
    else Option.map pos (digits 0 false (c ∷ s))

unfoldable pub int : String → Option ℤ
unfolding signed strip
int s = signed (strip s)
