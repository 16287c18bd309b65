-- ===== src/Messages/Announce/Opening.antt =====
-- The positions of a block that is put behind the others.
use opencode_go_cliproxyapi.Prelude.{
  All-append_right, Bool, List, Option, [], ap, append-nil, arith, false, is_some, length,
  length-append, refl, suc, sym, true, ℕ, ◌++◌, ◌+◌, ◌||◌, ◌∙◌, ◌∷◌, ◌≡◌,
}
use opencode_go_cliproxyapi.Prelude.Int.{ℤ}
use opencode_go_cliproxyapi.Messages.{BlockState, Conversion, put_block}
use opencode_go_cliproxyapi.Messages.Announce.{
  Ascending, Shape, Slot, has_text, is_text, keys, number_from, shape, slots,
}

-- What has been announced is what the blocks take, in order from 0, and the counters agree with it.
unfoldable pub PlacesAgree : Shape → List (ℕ × Slot) → Type 0
unfolding number_from
PlacesAgree s announced =
    (announced ≡ number_from 0 s.taken)
    × (s.next_position ≡ length s.taken)
    × (is_some s.message_position ≡ s.with_text)

put_block-new :
    (i : ℤ) (b : BlockState) (blocks : List (ℤ × BlockState)) (later : List ℤ)
    → Ascending (keys blocks ++ i ∷ later)
    → put_block i b blocks ≡ blocks ++ (i, b) ∷ []
unfolding put_block keys Ascending
put_block-new i b [] later h = refl
put_block-new i b ((j, c) ∷ blocks) later h =
    let below = (All-append_right _ (keys blocks) (i ∷ later) h.0).0 in
    ground (arith, below, put_block-new i b blocks later h.1)

keys-append :
    (blocks others : List (ℤ × BlockState)) → keys (blocks ++ others) ≡ keys blocks ++ keys others
unfolding keys
keys-append [] others = refl
keys-append ((i, b) ∷ blocks) others = ap (λ ks. i ∷ ks) (keys-append blocks others)

has_text-append :
    (blocks others : List (ℤ × BlockState))
    → has_text (blocks ++ others) ≡ (has_text blocks || has_text others)
unfolding has_text
has_text-append [] others = refl
has_text-append ((i, b) ∷ blocks) others = ground (arith, has_text-append blocks others)

slots-append :
    (blocks others : List (ℤ × BlockState)) (seen : Bool)
    → slots seen (blocks ++ others) ≡ slots seen blocks ++ slots (seen || has_text blocks) others
unfolding slots has_text
slots-append [] others seen = ground arith
slots-append ((i, b) ∷ blocks) others seen =
    ground (arith, slots-append blocks others true, slots-append blocks others seen)

number_from-append :
    (n : ℕ) (xs ys : List Slot)
    → number_from n (xs ++ ys) ≡ number_from n xs ++ number_from (n + length xs) ys
unfolding number_from
number_from-append n [] ys = ap (λ m. number_from m ys) (omega arith)
number_from-append n (x ∷ xs) ys =
    ap (λ rest. (n, x) ∷ rest)
      (number_from-append (suc n) xs ys
        ∙ ap (λ m. number_from (suc n) xs ++ number_from m ys) (omega arith))

-- The next slot is announced at the next position.
announce_next :
    (taken : List Slot) (n : ℕ) (announced : List (ℕ × Slot)) (x : Slot)
    → announced ≡ number_from 0 taken
    → n ≡ length taken
    → announced ++ (n, x) ∷ [] ≡ number_from 0 (taken ++ x ∷ [])
unfolding number_from
announce_next taken n announced x h e =
    ap (λ a. a ++ (n, x) ∷ []) h
    ∙ ap (λ m. number_from 0 taken ++ (m, x) ∷ []) (omega (arith, e))
    ∙ sym (number_from-append 0 taken (x ∷ []))

length_next :
    (taken : List Slot) (n : ℕ) (x : Slot) → n ≡ length taken → suc n ≡ length (taken ++ x ∷ [])
length_next taken n x e = omega (arith, e, length-append taken (x ∷ []))

abbrev pub opened_with : ℤ → BlockState → Conversion → Conversion
opened_with i b sc = record sc { blocks = put_block i b sc.blocks }

module _ (i : ℤ) (b : BlockState) (sc : Conversion) (later : List ℤ)
    (h : Ascending (keys sc.blocks ++ i ∷ later)) where
  pub opened-keys : keys (put_block i b sc.blocks) ≡ keys sc.blocks ++ i ∷ []
  unfolding keys
  opened-keys = ap keys (put_block-new i b sc.blocks later h) ∙ keys-append sc.blocks ((i, b) ∷ [])

  opened-slots :
      slots false (put_block i b sc.blocks)
      ≡ slots false sc.blocks ++ slots (has_text sc.blocks) ((i, b) ∷ [])
  opened-slots =
      ap (slots false) (put_block-new i b sc.blocks later h)
      ∙ slots-append sc.blocks ((i, b) ∷ []) false

  opened-has_text : has_text (put_block i b sc.blocks) ≡ (has_text sc.blocks || is_text b)
  unfolding has_text
  opened-has_text =
      ap has_text (put_block-new i b sc.blocks later h)
      ∙ has_text-append sc.blocks ((i, b) ∷ [])
      ∙ ground arith

  -- A block that takes no position, and one that takes the next.
  pub opened_silently :
      (announced : List (ℕ × Slot))
      → PlacesAgree (shape sc) announced
      → slots (has_text sc.blocks) ((i, b) ∷ []) ≡ []
      → (has_text sc.blocks || is_text b) ≡ has_text sc.blocks
      → PlacesAgree (shape (opened_with i b sc)) (announced ++ [])
  unfolding shape PlacesAgree
  opened_silently announced a e t = (
    append-nil announced ∙ a.0 ∙ ap (number_from 0) (sym unchanged),
    a.1 ∙ ap length (sym unchanged),
    a.2 ∙ sym (opened-has_text ∙ t),
  )
    where
      unchanged : slots false (put_block i b sc.blocks) ≡ slots false sc.blocks
      unchanged =
          opened-slots
          ∙ ap (λ more. slots false sc.blocks ++ more) e
          ∙ append-nil (slots false sc.blocks)

  pub opened_next :
      (announced : List (ℕ × Slot)) (x : Slot) (place : Option ℕ)
      → PlacesAgree (shape sc) announced
      → slots (has_text sc.blocks) ((i, b) ∷ []) ≡ x ∷ []
      → is_some place ≡ (has_text sc.blocks || is_text b)
      → PlacesAgree
          (shape (record (opened_with i b sc) { msg_idx = place; out_count = suc sc.out_count }))
          (announced ++ (sc.out_count, x) ∷ [])
  unfolding shape PlacesAgree
  opened_next announced x place a e p = (
    announce_next (slots false sc.blocks) sc.out_count announced x a.0 a.1
        ∙ ap (number_from 0) (sym grown),
    length_next (slots false sc.blocks) sc.out_count x a.1 ∙ ap length (sym grown),
    p ∙ sym opened-has_text,
  )
    where
      grown : slots false (put_block i b sc.blocks) ≡ slots false sc.blocks ++ x ∷ []
      grown = opened-slots ∙ ap (λ more. slots false sc.blocks ++ more) e
