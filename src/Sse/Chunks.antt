-- ===== src/Sse/Chunks.antt =====
-- The frames of a stream do not depend on its chunks: `Push` and `Next` of
-- internal/adapter/shared/shared.go against the automaton that reads byte by byte.
use opencode_go_cliproxyapi.Prelude.{
  Bool, Bool-cases, List, Option, Option-cases, [], ap, arith, false, inl, inr, length, none, refl,
  some, suc, sym, zero, ℕ, ◌++◌, ◌<◌, ◌==◌, ◌∙◌, ◌∷◌, ◌≡◌,
}
use opencode_go_cliproxyapi.Prelude.Text.{Text, cut_byte}
use opencode_go_cliproxyapi.Sse.{
  Frame, Framer, drain_within, feed, new_framer, next, next_within, or_go_on, or_stop, push,
  put_first, take_line,
}
use opencode_go_cliproxyapi.Sse.Lines.{
  IsLineFree, consume, consume-append, consume_free, consume_line, consume_newline, consume_other,
  cut_byte-append_none, cut_byte-length, listed, put_frames, take_line-buf, take_line-empty,
}

abbrev with_buf : Text → Framer → Framer
with_buf s f = record f { buf = s }

with_buf_self : (f : Framer) → f.buf ≡ [] → with_buf [] f ≡ f
with_buf_self f h = ap (λ (t : Text). with_buf t f) (sym h)

-- What `Next` makes of a buffer `s`: it needs more input, or it gives the first frame and leaves the
-- bytes behind it.
data NextOutcome (s : Text) (f : Framer) (result : Framer × Option Frame) : Type 0 where
  dry :
      (g : Framer)
      → result ≡ (g, none)
      → IsLineFree g.buf
      → consume s (with_buf [] f) ≡ (g, [])
      → NextOutcome s f result
  framed :
      (g : Framer) (frame : Frame) (rest : Text)
      → result ≡ (with_buf rest g, some frame)
      → length rest < length s
      → consume s (with_buf [] f) ≡ put_first frame (consume rest (with_buf [] g))
      → NextOutcome s f result

next_within-some :
    (n : ℕ) (s line rest : Text) (f : Framer)
    → cut_byte 10 s ≡ some (line, rest)
    → next_within (suc n) (with_buf s f) ≡ (
        let p = take_line line (with_buf [] f) in or_go_on (next_within n) (with_buf rest p.0, p.1))
unfolding next_within
next_within-some n s line rest f h =
    rw (h, next_within) (ap (or_go_on (next_within n)) (take_line-buf line rest f))

next_within-none :
    (n : ℕ) (s : Text) (f : Framer)
    → IsLineFree s
    → next_within (suc n) (with_buf s f) ≡ (with_buf s f, none)
unfolding next_within
next_within-none n s f h = rw (h, next_within) refl

abbrev Outcomes : ℕ → Type 0
Outcomes n = (s : Text) (f : Framer) → length s < n → NextOutcome s f (next_within n (with_buf s f))

module _ (n : ℕ) (s line rest : Text) (f g : Framer) (later : Outcomes n) (fits : length s < suc n)
    (e : cut_byte 10 s ≡ some (line, rest)) where
  shorter : length rest < length s
  shorter = cut_byte-length s line rest e

  emptied : (o : Option Frame) → take_line line (with_buf [] f) ≡ (g, o) → with_buf [] g ≡ g
  emptied o t =
      with_buf_self g (ap (λ (p : Framer × Option Frame). p.0.buf) (sym t) ∙ take_line-empty line f)

  next_after :
      (o : Option Frame)
      → take_line line (with_buf [] f) ≡ (g, o)
      → next_within (suc n) (with_buf s f) ≡ or_go_on (next_within n) (with_buf rest g, o)
  next_after o t =
      next_within-some n s line rest f e
      ∙ ap (λ (p : Framer × Option Frame). or_go_on (next_within n) (with_buf rest p.0, p.1)) t

  consume_after :
      (o : Option Frame)
      → take_line line (with_buf [] f) ≡ (g, o)
      → consume s (with_buf [] f) ≡ (let p = listed (g, o) in put_frames p.1 (consume rest p.0))
  consume_after o t =
      consume_line s line rest (with_buf [] f) e
      ∙ ap (λ (q : Framer × Option Frame). let p = listed q in put_frames p.1 (consume rest p.0)) t

  go_on :
      (r : Framer × Option Frame)
      → consume s (with_buf [] f) ≡ consume rest (with_buf [] g)
      → NextOutcome rest g r
      → NextOutcome s f r
  go_on r c (dry h eq free all) = dry h eq free (c ∙ all)
  go_on r c (framed h frame tail eq lt all) =
      framed h frame tail eq (omega (arith, lt, shorter)) (c ∙ all)

  line_outcome :
      (o : Option Frame)
      → take_line line (with_buf [] f) ≡ (g, o)
      → NextOutcome s f (next_within (suc n) (with_buf s f))
  line_outcome none t = rw (next_after none t) (
      go_on _ (consume_after none t ∙ ap (consume rest) (sym (emptied none t)))
        (later rest g (omega (arith, shorter, fits))))
  line_outcome (some frame) t = framed g frame rest (next_after (some frame) t) shorter (
      consume_after (some frame) t
      ∙ ap (λ (h : Framer). put_first frame (consume rest h)) (sym (emptied (some frame) t)))

¬lt_zero : (s : Text) → ¬ (length s < 0)
¬lt_zero s = omega arith

next_outcome : (n : ℕ) → Outcomes n
next_outcome zero s f lt = absurd (¬lt_zero s lt)
next_outcome (suc n) s f lt = elim (Option-cases (cut_byte 10 s)) [
  | inl e ↦ dry (with_buf s f) (next_within-none n s f e) e (consume_free s (with_buf [] f) e)
  | inr ((line, rest), e) ↦
      line_outcome n s line rest f (take_line line (with_buf [] f)).0 (next_outcome n) lt e
        (take_line line (with_buf [] f)).1 refl
]

drained_dry :
    (n : ℕ) (f : Framer) {g : Framer}
    → next_within (suc (length f.buf)) f ≡ (g, none)
    → drain_within (suc n) f ≡ (g, [])
unfolding drain_within next
drained_dry n f eq = ap (or_stop (drain_within n)) eq

drained_framed :
    (n : ℕ) (f : Framer) {g : Framer} {frame : Frame}
    → next_within (suc (length f.buf)) f ≡ (g, some frame)
    → drain_within (suc n) f ≡ put_first frame (drain_within n g)
unfolding drain_within next
drained_framed n f eq = ap (or_stop (drain_within n)) eq

-- What is drained of a buffer is what the automaton makes of it.
drain_lem :
    (n : ℕ) (f : Framer) → length f.buf < n → drain_within n f ≡ consume f.buf (with_buf [] f)
drain_lem zero f lt = absurd (¬lt_zero f.buf lt)
drain_lem (suc n) f lt = elim (next_outcome (suc (length f.buf)) f.buf f (omega arith)) [
  | dry g eq free all ↦ drained_dry n f eq ∙ sym all
  | framed g frame rest eq fewer all ↦
      drained_framed n f eq
      ∙ ap (put_first frame) (drain_lem n (with_buf rest g) (omega (arith, fewer, lt)))
      ∙ sym all
]

take_line-IsLineFree :
    (line : Text) (f : Framer) → IsLineFree (take_line line (with_buf [] f)).0.buf
take_line-IsLineFree line f = rw (take_line-empty line f) (unfold cut_byte in refl)

listed-buf : (p : Framer × Option Frame) → (listed p).0 ≡ p.0
listed-buf (f, none) = refl
listed-buf (f, some frame) = refl

cut_byte-one : (c : ℕ) → (c == 10) ≡ false → IsLineFree (c ∷ [])
unfolding cut_byte
cut_byte-one c h = ground arith

consume-IsLineFree : (s : Text) (f : Framer) → IsLineFree f.buf → IsLineFree (consume s f).0.buf
consume-IsLineFree [] f h = unfold consume in h
consume-IsLineFree (c ∷ s) f h = elim (Bool-cases (c == 10)) [
  | inl e ↦
      let p = take_line f.buf (with_buf [] f) in
      rw (consume_newline c s f e)
        (consume-IsLineFree s (listed p).0 (rw (listed-buf p) (take_line-IsLineFree f.buf f)))
  | inr e ↦ rw (consume_other c s f e) (
      consume-IsLineFree s (with_buf (f.buf ++ c ∷ []) f)
        (cut_byte-append_none f.buf (c ∷ []) h (cut_byte-one c e)))
]

-- A chunk pushed on a framer whose buffer holds no complete line gives the frames, and leaves the
-- framer, that reading its bytes one by one gives.
pub feed_lem : (chunk : Text) (f : Framer) → IsLineFree f.buf → feed chunk f ≡ consume chunk f
unfolding feed push
feed_lem chunk f h =
    drain_lem (suc (length (f.buf ++ chunk))) (push chunk f) (omega arith)
    ∙ consume-append f.buf chunk (with_buf [] f)
    ∙ ap (λ (p : Framer × List Frame). put_frames p.1 (consume chunk p.0))
        (consume_free f.buf (with_buf [] f) h)

-- The chunks of a stream, one after another.
abbrev pub feed_all : List Text → Framer → Framer × List Frame
feed_all [] f = (f, [])
feed_all (chunk ∷ chunks) f = let p = feed chunk f in put_frames p.1 (feed_all chunks p.0)

abbrev pub joined : List Text → Text
joined [] = []
joined (chunk ∷ chunks) = chunk ++ joined chunks

pub feed_all_lem :
    (chunks : List Text) (f : Framer)
    → IsLineFree f.buf
    → feed_all chunks f ≡ consume (joined chunks) f
feed_all_lem [] f h = unfold consume in refl
feed_all_lem (chunk ∷ chunks) f h = rw (feed_lem chunk f h) (
    ap (put_frames (consume chunk f).1)
      (feed_all_lem chunks (consume chunk f).0 (consume-IsLineFree chunk f h))
    ∙ sym (consume-append chunk (joined chunks) f))

-- However a stream is cut into chunks, inside lines, frames or line ends, the frames and the state
-- of the framer are those of the whole stream pushed at once.
pub feed_all-joined :
    (want_raw : Bool) (chunks : List Text)
    → feed_all chunks (new_framer want_raw) ≡ feed (joined chunks) (new_framer want_raw)
unfolding new_framer
feed_all-joined want_raw chunks =
    feed_all_lem chunks (new_framer want_raw) (unfold cut_byte in refl)
    ∙ sym (feed_lem (joined chunks) (new_framer want_raw) (unfold cut_byte in refl))
