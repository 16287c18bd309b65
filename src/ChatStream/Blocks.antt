-- ===== src/ChatStream/Blocks.antt =====
-- The content blocks that internal/adapter/chatcompletions/stream.go opens for a Messages client.
use opencode_go_cliproxyapi.Prelude.{
  All, All-append, All-append_left, All-append_right, All-imp, List, Option, [], ap, arith, false,
  if_false, if_true, map, none, not, refl, some, subst, suc, sym, true, ℕ, ◌++◌, ◌<◌, ◌∙◌, ◌∷◌, ◌≡◌,
}
use opencode_go_cliproxyapi.Prelude.Int.{pos, ℤ}
use opencode_go_cliproxyapi.Frames.{
  ClaudeEvent, content_block_delta, content_block_start, content_block_stop, message_delta,
  message_start, message_stop,
}
use opencode_go_cliproxyapi.ChatStream.{
  ChatStream, ChatStreamEvent, StreamTool, ToolCallDelta, Written, claude_said, passed,
  responses_said, ◌then_write◌,
}
use opencode_go_cliproxyapi.ChatStream.ClaudeTarget.{
  put_tool, said, start_text_block, start_tool_block, stop_all_tools, stop_blocks, stop_text,
  stop_tools,
}

-- Events that open and close blocks one at a time: from a block that is open, or none, and the number of
-- the next, to the same behind them. A block is opened under the next number when none is open, only the open
-- block is closed, and a delta is for a block that has been opened.
unfoldable pub Brackets : Option ℕ → ℕ → List ChatStreamEvent → Option ℕ → ℕ → Type 0
Brackets o n [] o' n' = (o ≡ o') × (n ≡ n')
Brackets o n (passed line ∷ events) o' n' = Brackets o n events o' n'
Brackets o n (responses_said em event ∷ events) o' n' = Brackets o n events o' n'
Brackets o n (claude_said em (content_block_start i kind extra) ∷ events) o' n' =
    (o ≡ none) × (i ≡ pos n) × Brackets (some n) (suc n) events o' n'
Brackets o n (claude_said em (content_block_stop i) ∷ events) o' n' =
    ((k : ℕ) × (o ≡ some k) × (i ≡ pos k)) × Brackets none n events o' n'
Brackets o n (claude_said em (content_block_delta i delta) ∷ events) o' n' =
    ((k : ℕ) × (i ≡ pos k) × (k < n)) × Brackets o n events o' n'
Brackets o n (claude_said em (message_start input) ∷ events) o' n' = Brackets o n events o' n'
Brackets o n (claude_said em (message_delta reason usage) ∷ events) o' n' =
    Brackets o n events o' n'
Brackets o n (claude_said em message_stop ∷ events) o' n' = Brackets o n events o' n'

pub Brackets-append :
    (events others : List ChatStreamEvent) (o o' o'' : Option ℕ) (n n' n'' : ℕ)
    → Brackets o n events o' n'
    → Brackets o' n' others o'' n''
    → Brackets o n (events ++ others) o'' n''
unfolding Brackets
Brackets-append [] others o o' o'' n n' n'' (h, e) k =
    subst (λ x. Brackets x n others o'' n'') (sym h)
      (subst (λ x. Brackets o' x others o'' n'') (sym e) k)
Brackets-append (passed line ∷ events) others o o' o'' n n' n'' h k =
    Brackets-append events others o o' o'' n n' n'' h k
Brackets-append (responses_said em event ∷ events) others o o' o'' n n' n'' h k =
    Brackets-append events others o o' o'' n n' n'' h k
Brackets-append (claude_said em (content_block_start i kind extra) ∷ events) others o o' o'' n n'
      n'' (a, b, h) k =
    (a, b, Brackets-append events others (some n) o' o'' (suc n) n' n'' h k)
Brackets-append (claude_said em (content_block_stop i) ∷ events) others o o' o'' n n' n'' (a, h) k =
    (a, Brackets-append events others none o' o'' n n' n'' h k)
Brackets-append (claude_said em (content_block_delta i delta) ∷ events) others o o' o'' n n' n''
      (a, h) k =
    (a, Brackets-append events others o o' o'' n n' n'' h k)
Brackets-append (claude_said em (message_start input) ∷ events) others o o' o'' n n' n'' h k =
    Brackets-append events others o o' o'' n n' n'' h k
Brackets-append (claude_said em (message_delta reason usage) ∷ events) others o o' o'' n n' n'' h
      k =
    Brackets-append events others o o' o'' n n' n'' h k
Brackets-append (claude_said em message_stop ∷ events) others o o' o'' n n' n'' h k =
    Brackets-append events others o o' o'' n n' n'' h k

-- The tools are over; their blocks are below a number.
abbrev pub Stopped : List (ℤ × StreamTool) → Type 0
Stopped tools = All (λ (p : ℤ × StreamTool). p.1.stopped ≡ true) tools

abbrev pub BlocksBelow : ℕ → List (ℤ × StreamTool) → Type 0
BlocksBelow n tools = All (λ (p : ℤ × StreamTool). p.1.block_index < n) tools

-- Which block is open in a converter.
pub data OpenBlock (sc : ChatStream) : Option ℕ → Type 0 where
  no_block : sc.text_open ≡ false → Stopped sc.tools → OpenBlock sc none
  text_block :
      sc.text_open ≡ true
      → sc.text_index < sc.next_index
      → Stopped sc.tools
      → OpenBlock sc (some sc.text_index)
  tool_block :
      (before : List (ℤ × StreamTool)) (i : ℤ) (t : StreamTool)
      → sc.text_open ≡ false
      → sc.tools ≡ before ++ (i, t) ∷ []
      → Stopped before
      → t.stopped ≡ false
      → OpenBlock sc (some t.block_index)

pub record InOrder (sc : ChatStream) (o : Option ℕ) : Type 0 where
  pub open_block : OpenBlock sc o
  pub below : BlocksBelow sc.next_index sc.tools

-- A part of the converter: it keeps the order, and its events open and close blocks one at a time.
unfoldable pub Keeps : ChatStream → Option ℕ → Written → Type 0
Keeps sc o (after, events) =
    (o' : Option ℕ) × InOrder after o' × Brackets o sc.next_index events o' after.next_index

pub then_write-Keeps :
    (sc : ChatStream) (o : Option ℕ) (first : Written) (go : ChatStream → Written)
    → Keeps sc o first
    → ((o' : Option ℕ) → InOrder first.0 o' → Keeps first.0 o' (go first.0))
    → Keeps sc o (first then_write go)
unfolding Keeps
then_write-Keeps sc o (mid, events) go (o', k, b) next =
    let (o'', k', b') = next o' k in
    (
      o'',
      k',
      Brackets-append events (go mid).1 o o' o'' sc.next_index mid.next_index (go mid).0.next_index
          b b',
    )

-- Tools that are over stay so, and say nothing.
stop_tools-Stopped :
    (tools : List (ℤ × StreamTool)) → Stopped tools → stop_tools tools ≡ (tools, [])
unfolding stop_tools
stop_tools-Stopped [] h = refl
stop_tools-Stopped ((i, t) ∷ tools) (e, h) =
    if_true _ _ _ e ∙ ap (put_tool (i, t) []) (stop_tools-Stopped tools h)

stop_tools-last :
    (before : List (ℤ × StreamTool)) (i : ℤ) (t : StreamTool)
    → Stopped before
    → t.stopped ≡ false
    → stop_tools (before ++ (i, t) ∷ []) ≡ (
      before ++ (i, record t { stopped = true }) ∷ [],
      content_block_stop (pos t.block_index) ∷ [],
    )
unfolding stop_tools
stop_tools-last [] i t h e = if_false _ _ _ e
stop_tools-last ((j, u) ∷ before) i t (k, h) e =
    if_true _ _ _ k ∙ ap (put_tool (j, u) []) (stop_tools-last before i t h e)

stop_blocks-eq :
    (sc mid : ChatStream) (events : List ChatStreamEvent) (tools : List (ℤ × StreamTool))
    (stops : List ClaudeEvent)
    → stop_text sc ≡ (mid, events)
    → stop_tools mid.tools ≡ (tools, stops)
    → stop_blocks sc ≡ (record mid { tools = tools }, events ++ map (said mid) stops)
unfolding stop_blocks stop_all_tools
stop_blocks-eq sc mid events tools stops h k =
    ap (λ (w : Written). w then_write stop_all_tools) h
    ∙ ap
        (λ (r : List (ℤ × StreamTool) × List ClaudeEvent).
          (record mid { tools = r.0 }, events ++ map (said mid) r.1))
        k

-- Everything is closed, and the next number is the same.
unfoldable pub Closed : ChatStream → Option ℕ → Written → Type 0
unfolding Brackets
Closed sc o (after, events) =
    (after.text_open ≡ false)
    × Stopped after.tools
    × BlocksBelow after.next_index after.tools
    × Brackets o sc.next_index events none after.next_index

stop_text_closed : (sc : ChatStream) → sc.text_open ≡ false → stop_text sc ≡ (sc, [])
unfolding stop_text
stop_text_closed sc f = if_true _ _ _ (ap not f)

stop_text_open :
    (sc : ChatStream)
    → sc.text_open ≡ true
    → stop_text sc
      ≡ (record sc { text_open = false }, said sc (content_block_stop (pos sc.text_index)) ∷ [])
unfolding stop_text
stop_text_open sc f = if_false _ _ _ (ap not f)

pub stop_blocks-Closed :
    (sc : ChatStream) (o : Option ℕ)
    → OpenBlock sc o
    → BlocksBelow sc.next_index sc.tools
    → Closed sc o (stop_blocks sc)
unfolding Closed Brackets
stop_blocks-Closed sc o (no_block f s) below =
    subst (Closed sc none)
      (sym (
        stop_blocks-eq sc sc [] sc.tools [] (stop_text_closed sc f)
          (stop_tools-Stopped sc.tools s)))
      (f, s, below, (refl, refl))
stop_blocks-Closed sc o (text_block f l s) below =
    subst (Closed sc (some sc.text_index))
      (sym (
        stop_blocks-eq sc (record sc { text_open = false })
          (said sc (content_block_stop (pos sc.text_index)) ∷ []) sc.tools [] (stop_text_open sc f)
          (stop_tools-Stopped sc.tools s)))
      (refl, s, below, ((sc.text_index, refl, refl), (refl, refl)))
stop_blocks-Closed sc o (tool_block before i t f e s r) below =
    let over = record t { stopped = true } in
    let old = subst (BlocksBelow sc.next_index) e below in
    subst (Closed sc (some t.block_index))
      (sym (
        stop_blocks-eq sc sc [] (before ++ (i, over) ∷ [])
          (content_block_stop (pos t.block_index) ∷ []) (stop_text_closed sc f)
          (ap stop_tools e ∙ stop_tools-last before i t s r)))
      (
        f,
        All-append _ before ((i, over) ∷ []) s (refl, tt),
        All-append _ before ((i, over) ∷ []) (All-append_left _ before ((i, t) ∷ []) old)
            (All-append_right _ before ((i, t) ∷ []) old),
        ((t.block_index, refl, refl), (refl, refl)),
      )

lt_suc : (k n : ℕ) → k < n → k < suc n
lt_suc k n h = omega (arith, h)

BlocksBelow-suc :
    (n : ℕ) (tools : List (ℤ × StreamTool)) → BlocksBelow n tools → BlocksBelow (suc n) tools
BlocksBelow-suc n tools h = All-imp _ _ tools (λ p k. lt_suc p.1.block_index n k) h

pub start_text_block-Keeps :
    (sc : ChatStream)
    → sc.text_open ≡ false
    → Stopped sc.tools
    → BlocksBelow sc.next_index sc.tools
    → Keeps sc none (start_text_block sc)
unfolding Keeps start_text_block Brackets
start_text_block-Keeps sc f s below = (
  some sc.next_index,
  record {
    open_block = text_block refl (omega arith) s;
    below = BlocksBelow-suc sc.next_index sc.tools below;
  },
  (refl, refl, (refl, refl)),
)

pub start_tool_block-Keeps :
    (tc : ToolCallDelta) (sc : ChatStream)
    → sc.text_open ≡ false
    → Stopped sc.tools
    → BlocksBelow sc.next_index sc.tools
    → Keeps sc none (start_tool_block tc sc)
unfolding Keeps start_tool_block Brackets
start_tool_block-Keeps tc sc f s below = (
  some sc.next_index,
  record {
    open_block = tool_block sc.tools tc.index _ f refl s refl;
    below =
        All-append _ sc.tools _ (BlocksBelow-suc sc.next_index sc.tools below) (omega arith, tt);
  },
  (refl, refl, (refl, refl)),
)

-- The end of all blocks, and the start of one.
pub reopen-Keeps :
    (start : ChatStream → Written) (sc : ChatStream) (o : Option ℕ)
    → ((s : ChatStream)
        → s.text_open ≡ false
        → Stopped s.tools
        → BlocksBelow s.next_index s.tools
        → Keeps s none (start s))
    → InOrder sc o
    → Keeps sc o (stop_blocks sc then_write start)
unfolding Closed Keeps
reopen-Keeps start sc o go k =
    let (f, s, below, b) = stop_blocks-Closed sc o k.open_block k.below in
    let mid = stop_blocks sc in
    let (o'', k', b') = go mid.0 f s below in
    (
      o'',
      k',
      Brackets-append mid.1 (start mid.0).1 o none o'' sc.next_index mid.0.next_index
          (start mid.0).0.next_index b b',
    )

pub nothing-Keeps : (sc : ChatStream) (o : Option ℕ) → InOrder sc o → Keeps sc o (sc, [])
unfolding Keeps Brackets
nothing-Keeps sc o k = (o, k, (refl, refl))

pub stop_blocks-Keeps :
    (sc : ChatStream) (o : Option ℕ) → InOrder sc o → Keeps sc o (stop_blocks sc)
unfolding Closed Keeps
stop_blocks-Keeps sc o k =
    let (f, s, below, b) = stop_blocks-Closed sc o k.open_block k.below in
    (none, record { open_block = no_block f s; below = below }, b)
