-- ===== src/Prelude/Text/Search.antt =====
-- Prefixes, suffixes and positions.
use Prim.Native.Nat.{ℕ}
use mathlib.Core.Path.{◌≡◌, refl}
use mathlib.Core.Bool.{Bool, true, false, ◌&&◌, ◌||◌}
use mathlib.Core.Option
use mathlib.Core.Option.{Option, none, some}
use mathlib.Core.List.{[], ◌∷◌, ◌++◌, reverse}
use native.Mathlib.Omega.{arith}
use opencode_go_cliproxyapi.Prelude.Tests.{◌==◌, if◌then◌else◌, or_default}
use opencode_go_cliproxyapi.Prelude.Text.Equality.{Text}

-- `strings.CutPrefix s prefix`: what follows the prefix.
unfoldable pub cut_prefix : Text → Text → Option Text
cut_prefix s [] = some s
cut_prefix [] (p ∷ ps) = none
cut_prefix (c ∷ s) (p ∷ ps) = if c == p then cut_prefix s ps else none

unfoldable pub has_prefix : Text → Text → Bool
has_prefix s [] = true
has_prefix [] (p ∷ ps) = false
has_prefix (c ∷ s) (p ∷ ps) = (c == p) && has_prefix s ps

-- `strings.TrimPrefix` and `strings.TrimSuffix`.
unfoldable pub trim_prefix : Text → Text → Text
unfolding cut_prefix
trim_prefix s p = or_default (cut_prefix s p) s

unfoldable pub trim_suffix : Text → Text → Text
unfolding trim_prefix
trim_suffix s p = reverse (trim_prefix (reverse s) (reverse p))

unfoldable pub has_suffix : Text → Text → Bool
unfolding has_prefix
has_suffix s p = has_prefix (reverse s) (reverse p)

-- `strings.Contains`.
unfoldable pub contains : Text → Text → Bool
unfolding has_prefix
contains [] p = has_prefix [] p
contains (c ∷ s) p = has_prefix (c ∷ s) p || contains s p

-- `bytes.IndexByte`, as the parts before and after the first such byte.
unfoldable pub cut_byte : ℕ → Text → Option (Text × Text)
cut_byte b [] = none
cut_byte b (c ∷ s) =
    let later = cut_byte b s in
    if c == b then some ([], s) else Option.map (λ p. (c ∷ p.0, p.1)) later

drop_byte : ℕ → Text → Text
drop_byte b [] = []
drop_byte b (c ∷ s) = let rest = drop_byte b s in if c == b then rest else c ∷ s

-- `strings.TrimRight` with a cutset of one byte.
unfoldable pub trim_right_byte : ℕ → Text → Text
unfolding drop_byte
trim_right_byte b s = reverse (drop_byte b (reverse s))

pub has_prefix-append : (p s : Text) → has_prefix (p ++ s) p ≡ true
unfolding has_prefix
has_prefix-append [] s = refl
has_prefix-append (c ∷ p) s = ground (arith, has_prefix-append p s)
