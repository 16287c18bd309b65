-- ===== src/Prelude/Json.antt =====
-- JSON values, as far as the program builds them. The members of an object stand in the order in which
-- the source writes them: Go sorts the keys of a map when it encodes it, so the order means nothing.
use mathlib.Core.Bool.{Bool}
use mathlib.Core.List.{List, [], ◌∷◌}
use mathlib.Core.Option.{Option, none, some}
use opencode_go_cliproxyapi.Prelude.Text.{Text}
use opencode_go_cliproxyapi.Prelude.Int.{ℤ}

-- `raw_message` is a `json.RawMessage`, which the encoder copies.
mutual
  pub data Json : Type 0 where
    null : Json
    boolean : Bool → Json
    number : ℤ → Json
    string : Text → Json
    raw_message : Text → Json
    array : Elements → Json
    object : Members → Json

  pub data Elements : Type 0 where
    no_element : Elements
    element : Json → Elements → Elements

  pub data Members : Type 0 where
    no_member : Members
    member : Text → Json → Members → Members

abbrev pub elements : List Json → Elements
elements [] = no_element
elements (j ∷ js) = element j (elements js)

-- A member whose value may be absent: `omitempty` on a pointer, or an assignment under `!= nil`.
abbrev pub optional_member {ℓ} : {A : Type ℓ} → Text → (A → Json) → Option A → Members → Members
optional_member key f none rest = rest
optional_member key f (some a) rest = member key (f a) rest

-- `omitempty` on a string.
abbrev pub nonempty_member : Text → Text → Members → Members
nonempty_member key [] rest = rest
nonempty_member key (c ∷ t) rest = member key (string (c ∷ t)) rest
