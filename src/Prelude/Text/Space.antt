-- ===== src/Prelude/Text/Space.antt =====
-- `strings.TrimSpace` and `strings.ToLower`, over UTF-8 bytes.
use Prim.Native.Nat.{ℕ, ◌+◌}
use mathlib.Core.Bool.{Bool, ◌&&◌, ◌||◌}
use mathlib.Core.List.{[], ◌∷◌, reverse}
use opencode_go_cliproxyapi.Prelude.Tests.{◌==◌, leb, if◌then◌else◌}
use opencode_go_cliproxyapi.Prelude.Text.Equality.{Text}

-- The white space of `unicode.IsSpace`, by the number of its bytes.
unfoldable pub is_space : ℕ → Bool
is_space c = (leb 9 c && leb c 13) || (c == 32)

unfoldable pub is_space_pair : ℕ → ℕ → Bool
is_space_pair a b = a == 0xC2 && (b == 0x85 || b == 0xA0)

unfoldable pub is_space_triple : ℕ → ℕ → ℕ → Bool
is_space_triple a b c =
    (a == 0xE1 && b == 0x9A && c == 0x80)
    || (a == 0xE2
        && b == 0x80
        && ((leb 0x80 c && leb c 0x8A) || c == 0xA8 || c == 0xA9 || c == 0xAF))
    || (a == 0xE2 && b == 0x81 && c == 0x9F)
    || (a == 0xE3 && b == 0x80 && c == 0x80)

-- Drops the white space at the head, for given tests on two and on three bytes.
unfoldable pub drop_spaces : (ℕ → ℕ → Bool) → (ℕ → ℕ → ℕ → Bool) → Text → Text
drop_spaces two three [] = []
drop_spaces two three (a ∷ []) = if is_space a then [] else a ∷ []
drop_spaces two three (a ∷ b ∷ []) =
    let one = drop_spaces two three (b ∷ []) in
    if is_space a then one else if two a b then [] else a ∷ b ∷ []
drop_spaces two three (a ∷ b ∷ c ∷ s) =
    let after_one = drop_spaces two three (b ∷ c ∷ s) in
    let after_two = drop_spaces two three (c ∷ s) in
    let after_three = drop_spaces two three s in
    if is_space a
    then after_one
    else if two a b
    then after_two
    else if three a b c
    then after_three
    else a ∷ b ∷ c ∷ s

-- `strings.TrimSpace`: from the left, and from the right on the reversed bytes.
unfoldable pub trim_space : Text → Text
unfolding drop_spaces is_space is_space_pair is_space_triple
trim_space s = reverse (
    drop_spaces (λ a b. is_space_pair b a) (λ a b c. is_space_triple c b a)
      (reverse (drop_spaces is_space_pair is_space_triple s)))

abbrev pub lower_byte : ℕ → ℕ
lower_byte c = if leb b'A' c && leb c b'Z' then c + 32 else c

-- `strings.ToLower`, as far as a comparison with ASCII text can tell: the two characters outside
-- ASCII whose lower case is ASCII are U+0130 (`i`) and U+212A (`k`).
unfoldable pub to_lower : Text → Text
to_lower [] = []
to_lower (a ∷ []) = lower_byte a ∷ []
to_lower (a ∷ b ∷ []) =
    let rest = lower_byte a ∷ to_lower (b ∷ []) in
    if a == 0xC4 && b == 0xB0 then b'i' ∷ [] else rest
to_lower (a ∷ b ∷ c ∷ s) =
    let plain = lower_byte a ∷ to_lower (b ∷ c ∷ s) in
    let dotted = b'i' ∷ to_lower (c ∷ s) in
    let kelvin = b'k' ∷ to_lower s in
    if a == 0xC4 && b == 0xB0
    then dotted
    else if a == 0xE2 && b == 0x84 && c == 0xAA
    then kelvin
    else plain
