-- ===== src/Prelude/Text/Trim.antt =====
-- What `strings.TrimSpace` leaves and what it takes off.
use Prim.Native.Nat.{ℕ}
use mathlib.Core.Path.{◌≡◌, refl, sym, ap, ◌∙◌, subst}
use mathlib.Core.Bool.{Bool, true, false, not, ◌&&◌}
use mathlib.Core.List.{[], ◌∷◌, ◌++◌, reverse, reverse-append, reverse-cons, reverse-reverse}
use native.Mathlib.Omega.{arith}
use opencode_go_cliproxyapi.Prelude.Tests.{ltb, if_split, if_true, if_false}
use opencode_go_cliproxyapi.Prelude.Lists.{All, All-append}
use opencode_go_cliproxyapi.Prelude.Text.Equality.{Text}
use opencode_go_cliproxyapi.Prelude.Text.Space.{
  is_space, is_space_pair, is_space_triple, drop_spaces, trim_space,
}

-- White space of one, two or three bytes each, by given tests on two and on three bytes.
pub data Blank (two : ℕ → ℕ → Bool) (three : ℕ → ℕ → ℕ → Bool) : Text → Type 0 where
  empty : Blank two three []
  one : {s : Text} (a : ℕ) → is_space a ≡ true → Blank two three s → Blank two three (a ∷ s)
  pair : {s : Text} (a b : ℕ) → two a b ≡ true → Blank two three s → Blank two three (a ∷ b ∷ s)
  triple :
      {s : Text} (a b c : ℕ)
      → three a b c ≡ true
      → Blank two three s
      → Blank two three (a ∷ b ∷ c ∷ s)

abbrev flip_two : (ℕ → ℕ → Bool) → ℕ → ℕ → Bool
flip_two two a b = two b a

abbrev flip_three : (ℕ → ℕ → ℕ → Bool) → ℕ → ℕ → ℕ → Bool
flip_three three a b c = three c b a

module _ (two : ℕ → ℕ → Bool) (three : ℕ → ℕ → ℕ → Bool) where
  Blank-append : {s t : Text} → Blank two three s → Blank two three t → Blank two three (s ++ t)
  Blank-append empty k = k
  Blank-append (one a h s) k = one a h (Blank-append s k)
  Blank-append (pair a b h s) k = pair a b h (Blank-append s k)
  Blank-append (triple a b c h s) k = triple a b c h (Blank-append s k)

  Cut : Text → Text → Type 0
  Cut s rest = (before : Text) × Blank two three before × (s ≡ before ++ rest)

  drop_spaces-Cut : (s : Text) → Cut s (drop_spaces two three s)
  unfolding drop_spaces Cut
  drop_spaces-Cut [] = ([], empty, refl)
  drop_spaces-Cut (a ∷ []) =
      if_split (Cut (a ∷ [])) (is_space a) [] (a ∷ []) (λ h. (a ∷ [], one a h empty, refl))
        (λ _. ([], empty, refl))
  drop_spaces-Cut (a ∷ b ∷ []) =
      if_split (Cut (a ∷ b ∷ [])) (is_space a) _ _
        (λ h. let (p, k, e) = drop_spaces-Cut (b ∷ []) in (a ∷ p, one a h k, ap (λ r. a ∷ r) e))
        (λ _.
          if_split (Cut (a ∷ b ∷ [])) (two a b) [] (a ∷ b ∷ [])
            (λ h. (a ∷ b ∷ [], pair a b h empty, refl)) (λ _. ([], empty, refl)))
  drop_spaces-Cut (a ∷ b ∷ c ∷ s) =
      if_split (Cut (a ∷ b ∷ c ∷ s)) (is_space a) _ _
        (λ h. let (p, k, e) = drop_spaces-Cut (b ∷ c ∷ s) in (a ∷ p, one a h k, ap (λ r. a ∷ r) e))
        (λ _.
          if_split (Cut (a ∷ b ∷ c ∷ s)) (two a b) _ _
            (λ h.
              let (p, k, e) = drop_spaces-Cut (c ∷ s) in
              (a ∷ b ∷ p, pair a b h k, ap (λ r. a ∷ b ∷ r) e))
            (λ _.
              if_split (Cut (a ∷ b ∷ c ∷ s)) (three a b c) _ (a ∷ b ∷ c ∷ s)
                (λ h.
                  let (p, k, e) = drop_spaces-Cut s in
                  (a ∷ b ∷ c ∷ p, triple a b c h k, ap (λ r. a ∷ b ∷ c ∷ r) e))
                (λ _. ([], empty, refl))))

  drop_one :
      (a : ℕ) (s : Text)
      → is_space a ≡ true
      → drop_spaces two three (a ∷ s) ≡ drop_spaces two three s
  unfolding drop_spaces
  drop_one a [] h = rw h refl
  drop_one a (b ∷ []) h = if_true _ _ _ h
  drop_one a (b ∷ c ∷ s) h = if_true _ _ _ h

  drop_two :
      (a b : ℕ) (s : Text)
      → is_space a ≡ false
      → two a b ≡ true
      → drop_spaces two three (a ∷ b ∷ s) ≡ drop_spaces two three s
  unfolding drop_spaces
  drop_two a b [] h k = if_false _ _ _ h ∙ if_true _ _ _ k
  drop_two a b (c ∷ s) h k = if_false _ _ _ h ∙ if_true _ _ _ k

  drop_three :
      (a b c : ℕ) (s : Text)
      → is_space a ≡ false
      → two a b ≡ false
      → three a b c ≡ true
      → drop_spaces two three (a ∷ b ∷ c ∷ s) ≡ drop_spaces two three s
  unfolding drop_spaces
  drop_three a b c s h k l = if_false _ _ _ h ∙ if_false _ _ _ k ∙ if_true _ _ _ l

  -- A byte that starts no white space.
  abbrev Solid : ℕ → Type 0
  Solid w = (is_space w ≡ false) × ((b : ℕ) → two w b ≡ false) × ((b c : ℕ) → three w b c ≡ false)

  drop_none : (w : ℕ) (s : Text) → Solid w → drop_spaces two three (w ∷ s) ≡ w ∷ s
  unfolding drop_spaces
  drop_none w [] h = if_false _ _ _ h.0
  drop_none w (b ∷ []) h = if_false _ _ _ h.0 ∙ if_false _ _ _ (h.1 b)
  drop_none w (b ∷ c ∷ s) h = if_false _ _ _ h.0 ∙ if_false _ _ _ (h.1 b) ∙ if_false _ _ _ (h.2 b c)

  drop_spaces-append :
      ((a b : ℕ) → two a b ≡ true → is_space a ≡ false)
      → ((a b c : ℕ) → three a b c ≡ true → (is_space a ≡ false) × (two a b ≡ false))
      → {before : Text} (w : ℕ) (s : Text) → Blank two three before
      → Solid w
      → drop_spaces two three (before ++ w ∷ s) ≡ w ∷ s
  drop_spaces-append f g w s empty h = drop_none w s h
  drop_spaces-append f g w s (one a k r) h = drop_one a _ k ∙ drop_spaces-append f g w s r h
  drop_spaces-append f g w s (pair a b k r) h =
      drop_two a b _ (f a b k) k ∙ drop_spaces-append f g w s r h
  drop_spaces-append f g w s (triple a b c k r) h =
      drop_three a b c _ (g a b c k).0 (g a b c k).1 k ∙ drop_spaces-append f g w s r h

Blank-reverse :
    {two : ℕ → ℕ → Bool} {three : ℕ → ℕ → ℕ → Bool} {s : Text}
    → Blank two three s
    → Blank (flip_two two) (flip_three three) (reverse s)
Blank-reverse empty = empty
Blank-reverse {two} {three} (one {s} a h r) =
    subst (Blank (flip_two two) (flip_three three)) (sym (reverse-cons a s))
      (Blank-append (flip_two two) (flip_three three) (Blank-reverse r) (one a h empty))
Blank-reverse {two} {three} (pair {s} a b h r) =
    subst (Blank (flip_two two) (flip_three three)) (sym (reverse-append (a ∷ b ∷ []) s))
      (Blank-append (flip_two two) (flip_three three) (Blank-reverse r) (pair b a h empty))
Blank-reverse {two} {three} (triple {s} a b c h r) =
    subst (Blank (flip_two two) (flip_three three)) (sym (reverse-append (a ∷ b ∷ c ∷ []) s))
      (Blank-append (flip_two two) (flip_three three) (Blank-reverse r) (triple c b a h empty))

-- White space in UTF-8.
abbrev pub IsSpaces : Text → Type 0
IsSpaces s = Blank is_space_pair is_space_triple s

-- A text is what `trim_space` leaves, between white space.
pub trim_space-IsSpaces :
    (s : Text)
    → (before after : Text) × IsSpaces before
      × IsSpaces after
      × (s ≡ before ++ (trim_space s ++ after))
unfolding trim_space Cut
trim_space-IsSpaces s =
    let inner = drop_spaces is_space_pair is_space_triple s in
    let back_two = flip_two is_space_pair in
    let back_three = flip_three is_space_triple in
    let rest = drop_spaces back_two back_three (reverse inner) in
    let (before, h, e) = drop_spaces-Cut is_space_pair is_space_triple s in
    let (behind, k, f) = drop_spaces-Cut back_two back_three (reverse inner) in
    let whole : inner ≡ reverse rest ++ reverse behind =
      sym (reverse-reverse inner) ∙ ap reverse f ∙ reverse-append behind rest in
    (before, reverse behind, h, Blank-reverse k, e ∙ ap (λ r. before ++ r) whole)

-- A byte of ASCII that is no white space.
abbrev pub IsPlain : ℕ → Type 0
IsPlain c = (ltb c 128 && not (is_space c)) ≡ true

plain-Solid : (w : ℕ) → IsPlain w → Solid is_space_pair is_space_triple w
unfolding is_space is_space_pair is_space_triple
plain-Solid w h = (ground arith, λ b. ground arith, λ b c. ground arith)

plain-Solid_back :
    (w : ℕ) → IsPlain w → Solid (flip_two is_space_pair) (flip_three is_space_triple) w
unfolding is_space is_space_pair is_space_triple
plain-Solid_back w h = (ground arith, λ b. ground arith, λ b c. ground arith)

pair_first : (a b : ℕ) → is_space_pair a b ≡ true → is_space a ≡ false
unfolding is_space is_space_pair
pair_first a b h = ground arith

triple_first :
    (a b c : ℕ) → is_space_triple a b c ≡ true → (is_space a ≡ false) × (is_space_pair a b ≡ false)
unfolding is_space is_space_pair is_space_triple
triple_first a b c h = (ground arith, ground arith)

pair_last : (a b : ℕ) → is_space_pair b a ≡ true → is_space a ≡ false
unfolding is_space is_space_pair
pair_last a b h = ground arith

triple_last :
    (a b c : ℕ) → is_space_triple c b a ≡ true → (is_space a ≡ false) × (is_space_pair b a ≡ false)
unfolding is_space is_space_pair is_space_triple
triple_last a b c h = (ground arith, ground arith)

All-reverse : (s : Text) → All IsPlain s → All IsPlain (reverse s)
All-reverse [] h = tt
All-reverse (c ∷ s) h =
    subst (All IsPlain) (sym (reverse-cons c s))
      (All-append IsPlain (reverse s) (c ∷ []) (All-reverse s h.1) (h.0, tt))

trim_back :
    (w : ℕ) (ws back after : Text)
    → reverse (w ∷ ws) ≡ back
    → All IsPlain back
    → IsSpaces after
    → reverse (
        drop_spaces
          (flip_two is_space_pair)
          (flip_three is_space_triple)
          (reverse ((w ∷ ws) ++ after)))
      ≡ w ∷ ws
trim_back w ws [] after e h k = let f = sym (reverse-reverse (w ∷ ws)) ∙ ap reverse e in cc
trim_back w ws (z ∷ zs) after e h k =
    let trim = drop_spaces (flip_two is_space_pair) (flip_three is_space_triple) in
    ap (λ r. reverse (trim r)) (reverse-append (w ∷ ws) after ∙ ap (λ r. reverse after ++ r) e)
    ∙ ap reverse (
        drop_spaces-append (flip_two is_space_pair) (flip_three is_space_triple) pair_last
          triple_last z zs (Blank-reverse k) (plain-Solid_back z h.0))
    ∙ ap reverse (sym e)
    ∙ reverse-reverse (w ∷ ws)

-- White space around a word of plain bytes is taken off.
pub trim_space-append :
    (before after : Text) (w : ℕ) (ws : Text)
    → IsSpaces before
    → IsSpaces after
    → All IsPlain (w ∷ ws)
    → trim_space (before ++ ((w ∷ ws) ++ after)) ≡ w ∷ ws
unfolding trim_space
trim_space-append before after w ws h k plain =
    ap
      (λ r. reverse (drop_spaces (flip_two is_space_pair) (flip_three is_space_triple) (reverse r)))
      (drop_spaces-append is_space_pair is_space_triple pair_first triple_first w (ws ++ after) h
        (plain-Solid w plain.0))
    ∙ trim_back w ws (reverse (w ∷ ws)) after refl (All-reverse (w ∷ ws) plain) k
