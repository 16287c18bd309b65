-- ===== src/Sse.antt =====
-- `SSEFramer` of internal/adapter/shared/shared.go: the frames of a stream of bytes that arrives in
-- chunks. The Go methods change the framer; here they return the changed one.
pub mod Lines
pub mod Chunks
pub mod Raw
mod Samples
use opencode_go_cliproxyapi.Prelude.{
  Bool, List, Option, [], false, if◌then◌else◌, is_empty, length, none, not, some, suc, true, zero,
  ℕ, ◌++◌, ◌∷◌,
}
use opencode_go_cliproxyapi.Prelude.Text.{
  Text, codes, cut_byte, has_prefix, trim_prefix, trim_space, trim_suffix,
}

-- `data` is what the string builder holds.
pub record Framer : Type 0 where
  pub buf : Text
  pub event_type : Text
  pub data_text : Text
  pub saw_frame : Bool
  pub want_raw : Bool
  pub raw : Text

pub record Frame : Type 0 where
  pub event_type : Text
  pub data_text : Text
  pub raw : Text

unfoldable pub new_framer : Bool → Framer
new_framer want_raw = record {
  buf = [];
  event_type = [];
  data_text = [];
  saw_frame = false;
  want_raw = want_raw;
  raw = [];
}

-- `Push`.
unfoldable pub push : Text → Framer → Framer
push chunk f = record f { buf = f.buf ++ chunk }

-- A line that ends a frame, or a stray empty line.
unfoldable pub end_frame : Framer → Framer × Option Frame
end_frame f = if not f.saw_frame then (f, none) else (
  record f { event_type = []; data_text = []; saw_frame = false; raw = [] },
  some (record { event_type = f.event_type; data_text = f.data_text; raw = f.raw }),
)

-- A line `data:`, after the colon; a payload is joined to what is there by a newline.
unfoldable pub add_data : Text → Framer → Framer
add_data payload f = record f {
  data_text = (if is_empty f.data_text then [] else f.data_text ++ 10 ∷ []) ++ payload;
  saw_frame = true;
}

-- The `switch` over the text of a line.
unfoldable pub classify_line : Text → Framer → Framer × Option Frame
unfolding end_frame add_data
classify_line text f =
    if is_empty text
    then end_frame f
    else if has_prefix text (codes ":")
    then (f, none)
    else if has_prefix text (codes "event:")
    then (
      record f { event_type = trim_space (trim_prefix text (codes "event:")); saw_frame = true },
      none,
    )
    else if has_prefix text (codes "data:")
    then (add_data (trim_prefix (trim_prefix text (codes "data:")) (codes " ")) f, none)
    else (f, none)

abbrev pub capture : Text → Framer → Framer
capture line f = if f.want_raw then record f { raw = f.raw ++ (line ++ 10 ∷ []) } else f

-- One round of the loop of `Next`, for a line that has been cut off the buffer.
unfoldable pub take_line : Text → Framer → Framer × Option Frame
unfolding classify_line
take_line line f = classify_line (trim_suffix line (13 ∷ [])) (capture line f)

-- A frame ends the loop; otherwise it goes on.
abbrev pub or_go_on :
    (Framer → Framer × Option Frame) → Framer × Option Frame → Framer × Option Frame
or_go_on go_on (f, some frame) = (f, some frame)
or_go_on go_on (f, none) = go_on f

-- The loop of `Next`, on fuel.
unfoldable pub next_within : ℕ → Framer → Framer × Option Frame
unfolding take_line
next_within zero f = (f, none)
next_within (suc n) f = elim (cut_byte 10 f.buf) [
  | none ↦ (f, none)
  | some (line, rest) ↦ or_go_on (next_within n) (take_line line (record f { buf = rest }))
]

-- `Next`: each round takes a byte of the buffer at least.
unfoldable pub next : Framer → Framer × Option Frame
unfolding next_within
next f = next_within (suc (length f.buf)) f

abbrev pub put_first : Frame → Framer × List Frame → Framer × List Frame
put_first frame (f, frames) = (f, frame ∷ frames)

abbrev pub or_stop : (Framer → Framer × List Frame) → Framer × Option Frame → Framer × List Frame
or_stop go_on (f, none) = (f, [])
or_stop go_on (f, some frame) = put_first frame (go_on f)

-- A converter's loop over `Next` until there is no frame, on fuel.
unfoldable pub drain_within : ℕ → Framer → Framer × List Frame
unfolding next
drain_within zero f = (f, [])
drain_within (suc n) f = or_stop (drain_within n) (next f)

-- What a converter's `Feed` reads of a chunk: `Push`, and then every complete frame.
unfoldable pub feed : Text → Framer → Framer × List Frame
unfolding drain_within push
feed chunk f = let g = push chunk f in drain_within (suc (length g.buf)) g
