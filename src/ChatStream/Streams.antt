-- ===== src/ChatStream/Streams.antt =====
-- Whole streams of internal/adapter/chatcompletions/stream.go for a Messages client.
use opencode_go_cliproxyapi.Prelude.{
  List, Option, [], ap, arith, if_ind, if_split, is_empty, is_some, none, not, refl, some, subst,
  sym, true, ℕ, ◌&&◌, ◌++◌, ◌<◌, ◌∙◌, ◌∷◌, ◌≡◌,
}
use opencode_go_cliproxyapi.Prelude.Text.{Text}
use opencode_go_cliproxyapi.Prelude.Int.{ℤ}
use opencode_go_cliproxyapi.ChatStream.{
  ChatStream, Chunk, ChunkChoice, StreamTool, ToolCallDelta, Written, keep_usage, new_chat_stream,
  tool_at, ◌then_write◌,
}
use opencode_go_cliproxyapi.ChatStream.ClaudeTarget.{
  add_content, add_tool_call, add_tool_calls, claude_choice, claude_chunk, claude_done,
  claude_terminal, hold_finish, open_message, open_text, open_tool, said, say_arguments, say_text,
  start_text_block, start_tool_block, stop_blocks,
}
use opencode_go_cliproxyapi.ChatStream.Blocks.{
  BlocksBelow, Brackets, Brackets-append, Closed, InOrder, Keeps, OpenBlock, Stopped, no_block,
  nothing-Keeps, reopen-Keeps, start_text_block-Keeps, start_tool_block-Keeps, stop_blocks-Closed,
  stop_blocks-Keeps, text_block, then_write-Keeps, tool_block,
}
use opencode_go_cliproxyapi.Frames.{message_stop}

-- Fields that the order does not depend on may change.
InOrder-same :
    (sc other : ChatStream) (o : Option ℕ)
    → other.text_open ≡ sc.text_open
    → other.text_index ≡ sc.text_index
    → other.next_index ≡ sc.next_index
    → other.tools ≡ sc.tools
    → InOrder sc o
    → InOrder other o
InOrder-same sc other o a b c d k = record {
  open_block = moved o k.open_block;
  below =
      subst (λ n. BlocksBelow n other.tools) (sym c)
        (subst (BlocksBelow sc.next_index) (sym d) k.below);
}
  where
    moved : (x : Option ℕ) → OpenBlock sc x → OpenBlock other x
    moved x (no_block f s) = no_block (a ∙ f) (subst Stopped (sym d) s)
    moved x (text_block f l s) =
        subst (OpenBlock other) (ap some b)
          (text_block (a ∙ f) (omega (arith, l, b, c)) (subst Stopped (sym d) s))
    moved x (tool_block before i t f e s r) = tool_block before i t (a ∙ f) (d ∙ e) s r

say_text-Keeps :
    (content : Text) (sc : ChatStream) (o : Option ℕ)
    → sc.text_index < sc.next_index
    → InOrder sc o
    → Keeps sc o (say_text content sc)
unfolding Keeps say_text Brackets
say_text-Keeps content sc o l k = (o, k, ((sc.text_index, refl, l), (refl, refl)))

open_text-Keeps : (sc : ChatStream) (o : Option ℕ) → InOrder sc o → Keeps sc o (open_text sc)
unfolding open_text
open_text-Keeps sc o k =
    if_ind (Keeps sc o) sc.text_open (nothing-Keeps sc o k)
      (reopen-Keeps start_text_block sc o start_text_block-Keeps k)

in_text :
    (sc : ChatStream) (o : Option ℕ)
    → OpenBlock sc o
    → sc.text_open ≡ true
    → sc.text_index < sc.next_index
in_text sc o (no_block f s) t = cc
in_text sc o (text_block f l s) t = l
in_text sc o (tool_block before i t' f e s r) t = cc

open_text-text_index :
    (sc : ChatStream) (o : Option ℕ)
    → InOrder sc o
    → (open_text sc).0.text_index < (open_text sc).0.next_index
unfolding open_text start_text_block
open_text-text_index sc o k =
    if_split (λ (w : Written). w.0.text_index < w.0.next_index) sc.text_open _ _
      (λ t. in_text sc o k.open_block t) (λ t. omega arith)

add_content-Keeps :
    (content : Text) (sc : ChatStream) (o : Option ℕ)
    → InOrder sc o
    → Keeps sc o (add_content content sc)
unfolding add_content
add_content-Keeps content sc o k = if_ind (Keeps sc o) (is_empty content) (nothing-Keeps sc o k) (
    then_write-Keeps sc o (open_text sc) (say_text content) (open_text-Keeps sc o k)
      (λ o' k'. say_text-Keeps content (open_text sc).0 o' (open_text-text_index sc o k) k'))

tool_at-BlocksBelow :
    (i : ℤ) (n : ℕ) (tools : List (ℤ × StreamTool)) (t : StreamTool)
    → tool_at i tools ≡ some t
    → BlocksBelow n tools
    → t.block_index < n
unfolding tool_at
tool_at-BlocksBelow i n [] t h below = cc
tool_at-BlocksBelow i n ((j, u) ∷ tools) t h (b, below) =
    let later : tool_at i tools ≡ some t → t.block_index < n =
      λ e. tool_at-BlocksBelow i n tools t e below in
    ground (arith, h, b, later)

say_arguments-Keeps :
    (found : Option StreamTool) (arguments : Text) (sc : ChatStream) (o : Option ℕ)
    → ((t : StreamTool) → found ≡ some t → t.block_index < sc.next_index)
    → InOrder sc o
    → Keeps sc o (say_arguments found arguments sc)
unfolding say_arguments Keeps Brackets
say_arguments-Keeps none arguments sc o l k = nothing-Keeps sc o k
say_arguments-Keeps (some t) arguments sc o l k =
    if_split (Keeps sc o) (is_empty arguments) _ _ (λ e. nothing-Keeps sc o k)
      (λ e. (o, k, ((t.block_index, refl, l t refl), (refl, refl))))

open_tool-Keeps :
    (tc : ToolCallDelta) (sc : ChatStream) (o : Option ℕ)
    → InOrder sc o
    → Keeps sc o (open_tool tc sc)
unfolding open_tool
open_tool-Keeps tc sc o k =
    if_ind (Keeps sc o) (is_some (tool_at tc.index sc.tools)) (nothing-Keeps sc o k)
      (reopen-Keeps (start_tool_block tc) sc o (start_tool_block-Keeps tc) k)

add_tool_call-Keeps :
    (tc : ToolCallDelta) (sc : ChatStream) (o : Option ℕ)
    → InOrder sc o
    → Keeps sc o (add_tool_call tc sc)
unfolding add_tool_call
add_tool_call-Keeps tc sc o k =
    then_write-Keeps sc o (open_tool tc sc)
      (λ s. say_arguments (tool_at tc.index s.tools) tc.arguments s) (open_tool-Keeps tc sc o k)
      (λ o' k'.
        let s = (open_tool tc sc).0 in
        say_arguments-Keeps (tool_at tc.index s.tools) tc.arguments s o'
          (λ t h. tool_at-BlocksBelow tc.index s.next_index s.tools t h k'.below) k')

add_tool_calls-Keeps :
    (tcs : List ToolCallDelta) (sc : ChatStream) (o : Option ℕ)
    → InOrder sc o
    → Keeps sc o (add_tool_calls tcs sc)
unfolding add_tool_calls
add_tool_calls-Keeps [] sc o k = nothing-Keeps sc o k
add_tool_calls-Keeps (tc ∷ tcs) sc o k =
    then_write-Keeps sc o (add_tool_call tc sc) (add_tool_calls tcs) (add_tool_call-Keeps tc sc o k)
      (λ o' k'. add_tool_calls-Keeps tcs (add_tool_call tc sc).0 o' k')

hold_finish-Keeps :
    (reason : Text) (sc : ChatStream) (o : Option ℕ)
    → InOrder sc o
    → Keeps sc o (hold_finish reason sc)
unfolding hold_finish Keeps
hold_finish-Keeps reason sc o k =
    let held = record sc { finished = true; held_finish = reason } in
    if_split (Keeps sc o) (not (is_empty reason) && not sc.finished) _ _
      (λ e. stop_blocks-Keeps held o (InOrder-same sc held o refl refl refl refl k))
      (λ e. nothing-Keeps sc o k)

claude_choice-Keeps :
    (choices : List ChunkChoice) (sc : ChatStream) (o : Option ℕ)
    → InOrder sc o
    → Keeps sc o (claude_choice choices sc)
unfolding claude_choice
claude_choice-Keeps [] sc o k = nothing-Keeps sc o k
claude_choice-Keeps (choice ∷ choices) sc o k =
    then_write-Keeps sc o
      (add_content choice.content sc then_write add_tool_calls choice.tool_calls)
      (hold_finish choice.finish_reason)
      (then_write-Keeps sc o (add_content choice.content sc) (add_tool_calls choice.tool_calls)
        (add_content-Keeps choice.content sc o k)
        (λ o' k'. add_tool_calls-Keeps choice.tool_calls (add_content choice.content sc).0 o' k'))
      (λ o' k'. hold_finish-Keeps choice.finish_reason _ o' k')

-- The end of a message, and its beginning, are outside of all blocks.
claude_terminal-Keeps :
    (sc : ChatStream) (o : Option ℕ) → InOrder sc o → Keeps sc o (claude_terminal sc)
unfolding claude_terminal Keeps Brackets
claude_terminal-Keeps sc o k =
    if_split (Keeps sc o) (is_empty sc.held_finish) _ _ (λ e. nothing-Keeps sc o k)
      (λ e. (o, InOrder-same sc _ o refl refl refl refl k, (refl, refl)))

open_message-Keeps :
    (chunk : Chunk) (sc : ChatStream) (o : Option ℕ)
    → InOrder sc o
    → Keeps sc o (open_message chunk sc)
unfolding open_message Keeps Brackets
open_message-Keeps chunk sc o k =
    if_split (Keeps sc o) (not sc.started && not (is_empty chunk.choices)) _ _
      (λ e. (o, InOrder-same sc _ o refl refl refl refl k, (refl, refl)))
      (λ e. nothing-Keeps sc o k)

claude_chunk-Keeps :
    (chunk : Chunk) (sc : ChatStream) (o : Option ℕ)
    → InOrder sc o
    → Keeps sc o (claude_chunk chunk sc)
unfolding claude_chunk Keeps
claude_chunk-Keeps chunk sc o k =
    let kept = keep_usage chunk sc in
    let begun = claude_terminal kept then_write open_message chunk in
    then_write-Keeps kept o begun (claude_choice chunk.choices)
      (then_write-Keeps kept o (claude_terminal kept) (open_message chunk)
        (claude_terminal-Keeps kept o (InOrder-same sc kept o refl refl refl refl k))
        (λ o' k'. open_message-Keeps chunk (claude_terminal kept).0 o' k'))
      (λ o' k'. claude_choice-Keeps chunk.choices begun.0 o' k')

-- The chunks of a stream, one after another.
unfoldable pub claude_chunks : List Chunk → ChatStream → Written
unfolding claude_chunk
claude_chunks [] sc = (sc, [])
claude_chunks (chunk ∷ chunks) sc = claude_chunk chunk sc then_write claude_chunks chunks

claude_chunks-Keeps :
    (chunks : List Chunk) (sc : ChatStream) (o : Option ℕ)
    → InOrder sc o
    → Keeps sc o (claude_chunks chunks sc)
unfolding claude_chunks
claude_chunks-Keeps [] sc o k = nothing-Keeps sc o k
claude_chunks-Keeps (chunk ∷ chunks) sc o k =
    then_write-Keeps sc o (claude_chunk chunk sc) (claude_chunks chunks)
      (claude_chunk-Keeps chunk sc o k)
      (λ o' k'. claude_chunks-Keeps chunks (claude_chunk chunk sc).0 o' k')

-- The end: what is open is closed first.
claude_terminal-Brackets :
    (sc : ChatStream) (o : Option ℕ)
    → Brackets o sc.next_index (claude_terminal sc).1 o (claude_terminal sc).0.next_index
unfolding claude_terminal Brackets
claude_terminal-Brackets sc o =
    if_ind (λ (w : Written). Brackets o sc.next_index w.1 o w.0.next_index)
      (is_empty sc.held_finish) (refl, refl) (refl, refl)

claude_done-Brackets :
    (sc : ChatStream) (o : Option ℕ)
    → InOrder sc o
    → Brackets o sc.next_index (claude_done sc).1 none (claude_done sc).0.next_index
unfolding claude_done claude_terminal Closed Brackets
claude_done-Brackets sc o k =
    let last = record sc { done = true } in
    let same = InOrder-same sc last o refl refl refl refl k in
    let (f, s, below, b) = stop_blocks-Closed last o same.open_block same.below in
    let mid = stop_blocks last in
    let term = claude_terminal mid.0 in
    Brackets-append (mid.1 ++ term.1) (said term.0 message_stop ∷ []) o none none sc.next_index
      term.0.next_index term.0.next_index
      (Brackets-append mid.1 term.1 o none none sc.next_index mid.0.next_index term.0.next_index b
        (claude_terminal-Brackets mid.0 none))
      (refl, refl)

new_chat_stream-InOrder : (format : Text) → InOrder (new_chat_stream format) none
unfolding new_chat_stream
new_chat_stream-InOrder format = record { open_block = no_block refl tt; below = tt }

-- Of the chunks of a whole stream and its end marker, a new converter makes events for a Messages client that
-- open the content blocks under the numbers 0, 1, 2 and so on, each only when no other is open, that close
-- only the block that is open, that send no delta for a block which was not opened before, and that leave no
-- block open in the end.
pub claude_stream-Brackets :
    (format : Text) (chunks : List Chunk)
    → let whole = claude_chunks chunks (new_chat_stream format) then_write claude_done in
      Brackets none 0 whole.1 none whole.0.next_index
unfolding Keeps new_chat_stream
claude_stream-Brackets format chunks =
    let sc = new_chat_stream format in
    let fed = claude_chunks chunks sc in
    let (o, k, b) = claude_chunks-Keeps chunks sc none (new_chat_stream-InOrder format) in
    Brackets-append fed.1 (claude_done fed.0).1 none o none 0 fed.0.next_index _ b
      (claude_done-Brackets fed.0 o k)
