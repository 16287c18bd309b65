-- ===== src/Sse/Raw.antt =====
-- The verbatim blocks that `SSEFramer` of internal/adapter/shared/shared.go captures.
use opencode_go_cliproxyapi.Prelude.{
  Bool-cases, List, Option, [], ap, append-nil, append_assoc, arith, inl, inr, none, refl, some,
  sym, true, ℕ, ◌++◌, ◌==◌, ◌∙◌, ◌∷◌, ◌≡◌,
}
use opencode_go_cliproxyapi.Prelude.Text.{Text, cut_byte, trim_suffix}
use opencode_go_cliproxyapi.Sse.{
  Frame, Framer, add_data, capture, classify_line, end_frame, new_framer, take_line,
}
use opencode_go_cliproxyapi.Sse.Lines.{consume, consume_newline, consume_other, listed, put_frames}
use opencode_go_cliproxyapi.Sse.Chunks.{feed_all, feed_all_lem, joined}

-- The blocks of frames, joined.
abbrev pub blocks : List Frame → Text
blocks [] = []
blocks (frame ∷ frames) = frame.raw ++ blocks frames

-- Every byte that a framer took and has kept or given back.
abbrev pub bytes_of : Framer × List Frame → Text
bytes_of (f, frames) = blocks frames ++ (f.raw ++ f.buf)

blocks-append : (xs ys : List Frame) → blocks (xs ++ ys) ≡ blocks xs ++ blocks ys
blocks-append [] ys = refl
blocks-append (x ∷ xs) ys =
    ap (λ (t : Text). x.raw ++ t) (blocks-append xs ys)
    ∙ sym (append_assoc x.raw (blocks xs) (blocks ys))

-- A framer that captures has the text `t` in its blocks, and nothing in its buffer.
abbrev Holds : Text → Framer × Option Frame → Type 0
Holds t p = (p.0.want_raw ≡ true) × (bytes_of (listed p) ≡ t)

end_frame-Holds :
    (f : Framer) (t : Text) → f.want_raw ≡ true → f.buf ≡ [] → f.raw ≡ t → Holds t (end_frame f)
unfolding end_frame
end_frame-Holds f t w b h = elim (Bool-cases f.saw_frame) [
  | inl e ↦ ground (arith, append-nil f.raw)
  | inr e ↦ ground (arith, append-nil f.raw)
]

classify_line-Holds :
    (text : Text) (f : Framer) (t : Text)
    → f.want_raw ≡ true
    → f.buf ≡ []
    → f.raw ≡ t
    → Holds t (classify_line text f)
unfolding classify_line add_data
classify_line-Holds text f t w b h = grind (arith, end_frame-Holds f t w b h, append-nil f.raw)

take_line-Holds :
    (line : Text) (f : Framer)
    → f.want_raw ≡ true
    → Holds (f.raw ++ (line ++ 10 ∷ [])) (take_line line (record f { buf = [] }))
unfolding take_line
take_line-Holds line f w =
    classify_line-Holds (trim_suffix line (13 ∷ [])) (capture line (record f { buf = [] })) _
      (ground arith) (ground arith) (ground arith)

listed_want : (p : Framer × Option Frame) → (listed p).0.want_raw ≡ p.0.want_raw
listed_want (f, none) = refl
listed_want (f, some frame) = refl

bytes_of-put_frames :
    (xs : List Frame) (p : Framer × List Frame)
    → bytes_of (put_frames xs p) ≡ blocks xs ++ bytes_of p
bytes_of-put_frames xs (f, later) =
    ap (λ (t : Text). t ++ (f.raw ++ f.buf)) (blocks-append xs later)
    ∙ append_assoc (blocks xs) (blocks later) (f.raw ++ f.buf)

byte_eq : (c : ℕ) → (c == 10) ≡ true → 10 ≡ c
byte_eq c h = ground arith

consume-bytes_of :
    (s : Text) (f : Framer) → f.want_raw ≡ true → bytes_of (consume s f) ≡ (f.raw ++ f.buf) ++ s
consume-bytes_of [] f w = unfold consume in sym (append-nil (f.raw ++ f.buf))
consume-bytes_of (c ∷ s) f w = elim (Bool-cases (c == 10)) [
  | inl e ↦
      let p = take_line f.buf (record f { buf = [] }) in
      let (w', held) = take_line-Holds f.buf f w in
      let ih = consume-bytes_of s (listed p).0 (listed_want p ∙ w') in
      let q = listed p in
      ap bytes_of (consume_newline c s f e)
      ∙ bytes_of-put_frames q.1 (consume s q.0)
      ∙ ap (λ (t : Text). blocks q.1 ++ t) ih
      ∙ sym (append_assoc (blocks q.1) (q.0.raw ++ q.0.buf) s)
      ∙ ap (λ (t : Text). t ++ s) held
      ∙ rejoin f.raw f.buf
      ∙ ap (λ (b : ℕ). (f.raw ++ f.buf) ++ b ∷ s) (byte_eq c e)
  | inr e ↦
      ap bytes_of (consume_other c s f e)
      ∙ consume-bytes_of s (record f { buf = f.buf ++ c ∷ [] }) w
      ∙ ap (λ (t : Text). t ++ s) (sym (append_assoc f.raw f.buf (c ∷ [])))
      ∙ append_assoc (f.raw ++ f.buf) (c ∷ []) s
]
  where
    rejoin : (a b : Text) → (a ++ (b ++ 10 ∷ [])) ++ s ≡ (a ++ b) ++ 10 ∷ s
    rejoin a b =
        ap (λ (t : Text). t ++ s) (sym (append_assoc a b (10 ∷ [])))
        ∙ append_assoc (a ++ b) (10 ∷ []) s

-- A framer that captures loses and adds nothing: the blocks of the frames, what it has captured of
-- the frame to come, and the bytes of the unfinished line are, in this order, the bytes of the chunks.
pub feed_all-bytes_of :
    (chunks : List Text) → bytes_of (feed_all chunks (new_framer true)) ≡ joined chunks
unfolding new_framer
feed_all-bytes_of chunks =
    ap bytes_of (feed_all_lem chunks (new_framer true) (unfold cut_byte in refl))
    ∙ consume-bytes_of (joined chunks) (new_framer true) refl
