-- ===== src/Sse/Lines.antt =====
-- `Next` of internal/adapter/shared/shared.go, against an automaton that reads one byte at a time.
use opencode_go_cliproxyapi.Prelude.{
  Bool-cases, List, Option, Option-cases, [], ap, append-nil, append_assoc, arith, false,
  if◌then◌else◌, inl, inr, length, none, refl, some, sym, true, ℕ, ◌++◌, ◌<◌, ◌==◌, ◌∙◌, ◌∷◌, ◌≡◌,
}
use opencode_go_cliproxyapi.Prelude.Text.{Text, cut_byte}
use opencode_go_cliproxyapi.Sse.{Frame, Framer, add_data, classify_line, end_frame, take_line}

-- A text with no newline.
abbrev pub IsLineFree : Text → Type 0
IsLineFree t = cut_byte 10 t ≡ none

abbrev pub listed : Framer × Option Frame → Framer × List Frame
listed (f, none) = (f, [])
listed (f, some frame) = (f, frame ∷ [])

-- The automaton: a newline completes the line in the buffer, any other byte goes to the buffer.
unfoldable pub consume_byte : ℕ → Framer → Framer × List Frame
unfolding take_line
consume_byte c f =
    if c == 10
    then listed (take_line f.buf (record f { buf = [] }))
    else (record f { buf = f.buf ++ c ∷ [] }, [])

abbrev pub put_frames : List Frame → Framer × List Frame → Framer × List Frame
put_frames frames (f, later) = (f, frames ++ later)

unfoldable pub consume : Text → Framer → Framer × List Frame
unfolding consume_byte
consume [] f = (f, [])
consume (c ∷ s) f = let p = consume_byte c f in put_frames p.1 (consume s p.0)

put_frames-append :
    (xs ys : List Frame) (p : Framer × List Frame)
    → put_frames (xs ++ ys) p ≡ put_frames xs (put_frames ys p)
put_frames-append xs ys (f, later) = ap (λ (zs : List Frame). (f, zs)) (append_assoc xs ys later)

-- The automaton takes a text in parts as it takes the whole.
pub consume-append :
    (s t : Text) (f : Framer)
    → consume (s ++ t) f ≡ (let p = consume s f in put_frames p.1 (consume t p.0))
unfolding consume
consume-append [] t f = refl
consume-append (c ∷ s) t f =
    let p = consume_byte c f in
    ap (put_frames p.1) (consume-append s t p.0)
    ∙ sym (put_frames-append p.1 (consume s p.0).1 (consume t (consume s p.0).0))

-- A line does not look at the bytes behind it.
pub take_line-buf :
    (line rest : Text) (f : Framer)
    → take_line line (record f { buf = rest }) ≡ (
      record (take_line line (record f { buf = [] })).0 { buf = rest },
      (take_line line (record f { buf = [] })).1,
    )
unfolding take_line classify_line end_frame add_data
take_line-buf line rest f = ground arith

-- A line leaves an empty buffer empty.
pub take_line-empty :
    (line : Text) (f : Framer) → (take_line line (record f { buf = [] })).0.buf ≡ []
unfolding take_line classify_line end_frame add_data
take_line-empty line f = ground arith

pub cut_byte-append_none : (t s : Text) → IsLineFree t → IsLineFree s → IsLineFree (t ++ s)
unfolding cut_byte
cut_byte-append_none [] s h k = k
cut_byte-append_none (c ∷ t) s h k = ground (arith, cut_byte-append_none t s)

cut_byte-append :
    (t s line rest : Text)
    → IsLineFree t
    → cut_byte 10 s ≡ some (line, rest)
    → cut_byte 10 (t ++ s) ≡ some (t ++ line, rest)
unfolding cut_byte
cut_byte-append [] s line rest h k = k
cut_byte-append (c ∷ t) s line rest h k = ground (arith, cut_byte-append t s line rest)

pub cut_byte-length :
    (s line rest : Text) → cut_byte 10 s ≡ some (line, rest) → length rest < length s
unfolding cut_byte
cut_byte-length [] line rest h = cc
cut_byte-length (c ∷ s) line rest h = elim (Option-cases (cut_byte 10 s)) [
  | inl e ↦ ground arith
  | inr ((l, r), e) ↦ ground (arith, cut_byte-length s l r)
]

pub consume_newline :
    (c : ℕ) (s : Text) (f : Framer)
    → (c == 10) ≡ true
    → consume (c ∷ s) f
      ≡ (let p = listed (take_line f.buf (record f { buf = [] })) in put_frames p.1 (consume s p.0))
unfolding consume consume_byte
consume_newline c s f h = rw h refl

pub consume_other :
    (c : ℕ) (s : Text) (f : Framer)
    → (c == 10) ≡ false
    → consume (c ∷ s) f ≡ consume s (record f { buf = f.buf ++ c ∷ [] })
unfolding consume consume_byte
consume_other c s f h = rw h refl

cut_byte-other :
    (c : ℕ) (s line rest : Text)
    → (c == 10) ≡ false
    → cut_byte 10 (c ∷ s) ≡ some (line, rest)
    → (tail : Text) × (line ≡ c ∷ tail) × (cut_byte 10 s ≡ some (tail, rest))
unfolding cut_byte
cut_byte-other c s line rest h k = elim (Option-cases (cut_byte 10 s)) [
  | inl e ↦ ground arith
  | inr ((l, r), e) ↦ (l, ground arith, ground arith)
]

cut_byte-newline :
    (c : ℕ) (s line rest : Text)
    → (c == 10) ≡ true
    → cut_byte 10 (c ∷ s) ≡ some (line, rest)
    → (line ≡ []) × (rest ≡ s)
unfolding cut_byte
cut_byte-newline c s line rest h k = ground arith

cut_byte_free : (c : ℕ) (s : Text) → IsLineFree (c ∷ s) → ((c == 10) ≡ false) × IsLineFree s
unfolding cut_byte
cut_byte_free c s h = (ground arith, ground arith)

-- Without a newline the automaton only fills the buffer.
pub consume_free :
    (s : Text) (f : Framer) → IsLineFree s → consume s f ≡ (record f { buf = f.buf ++ s }, [])
consume_free [] f h =
    unfold consume in ap (λ (t : Text). (record f { buf = t }, [])) (sym (append-nil f.buf))
consume_free (c ∷ s) f h =
    let (e, free) = cut_byte_free c s h in
    consume_other c s f e
    ∙ consume_free s (record f { buf = f.buf ++ c ∷ [] }) free
    ∙ ap (λ (t : Text). (record f { buf = t }, [])) (append_assoc f.buf (c ∷ []) s)

-- The automaton after a line, and what follows the line.
abbrev pub after_line : Text → Text → Framer → Framer × List Frame
after_line line rest f =
    let p = listed (take_line line (record f { buf = [] })) in put_frames p.1 (consume rest p.0)

-- Up to a newline it takes one line.
pub consume_line :
    (s line rest : Text) (f : Framer)
    → cut_byte 10 s ≡ some (line, rest)
    → consume s f ≡ after_line (f.buf ++ line) rest f
consume_line [] line rest f h = unfold cut_byte in cc
consume_line (c ∷ s) line rest f h = elim (Bool-cases (c == 10)) [
  | inl e ↦
      let (e1, e2) = cut_byte-newline c s line rest e h in
      consume_newline c s f e
      ∙ ap (λ (t : Text). after_line t s f) (sym (append-nil f.buf))
      ∙ rw⁻¹ (e1, e2) refl
  | inr e ↦
      let (tail, e1, e2) = cut_byte-other c s line rest e h in
      consume_other c s f e
      ∙ consume_line s tail rest (record f { buf = f.buf ++ c ∷ [] }) e2
      ∙ ap (λ (t : Text). after_line t rest f) (append_assoc f.buf (c ∷ []) tail)
      ∙ rw⁻¹ e1 refl
]
