-- ===== src/Terminal.antt =====
-- client.c: the terminal client. What ncurses and the C library say of a key is given.
pub mod Reader
pub mod Queue
pub mod Cursor
pub mod View
pub mod Render
use linux_class.Common.{
  ℕ, ◌+◌, ◌-◌, ◌%◌, ◌^◌, Bool, true, false, ◌&&◌, ◌||◌, List, [], ◌∷◌, ◌++◌, Option, none, some,
  ◌>>=◌, Bytes, codes, fit, ltb, ◌==◌, if◌then◌else◌,
}
use linux_class.Common.Int.{ℤ, pos, negsuc, pos_part, ◌+ℤ◌}
use linux_class.Utf8.{char_count}
use linux_class.Operation.{OpKind, invalid, insert, delete, noop, Operation, operation_init}
use linux_class.Message.{Message, message_init}
use linux_class.Document.Transform.{inc_size}
use linux_class.ClientState.{Pending, ClientState, queue_operation, handle_message}

-- `incoming` holds the messages of the queue, oldest first (Terminal/Queue).
pub record TerminalClient : Type 0 where
  pub state : ClientState
  pub incoming : List Message
  pub running : Bool
  pub cursor_pos : ℕ
  pub scroll_line : ℕ

-- The constants of curses.h, `iswprint`, and `wcrtomb`, whose failure is `none`.
pub record Keyboard : Type 0 where
  pub key_code_yes : ℕ
  pub err : ℕ
  pub key_left : ℕ
  pub key_right : ℕ
  pub key_backspace : ℕ
  pub iswprint : ℕ → Bool
  pub wcrtomb : ℕ → Option Bytes

unfoldable pub pending_operation_delta : OpKind → ℤ
pending_operation_delta insert = pos 1
pending_operation_delta delete = negsuc 0
pending_operation_delta _ = pos 0

-- The loop of `projected_content_length` over the queue.
unfoldable pub queue_delta : List Pending → ℤ → ℤ
queue_delta [] len = len
queue_delta (p ∷ ps) len = queue_delta ps (len +ℤ pending_operation_delta p.op.kind)

-- Its `len`, before it is cut off at 0.
unfoldable pub projected_sum : ClientState → ℤ
projected_sum s =
    let len = pos (char_count s.content) in
    queue_delta s.queue
      (if s.has_inflight then len +ℤ pending_operation_delta s.inflight.op.kind else len)

unfoldable pub projected_content_length : TerminalClient → ℕ
unfolding projected_sum
projected_content_length t = pos_part (projected_sum t.state)

unfoldable pub clamp_cursor : TerminalClient → TerminalClient
clamp_cursor t =
    let len = projected_content_length t in
    if ltb len t.cursor_pos then record t { cursor_pos = len } else t

-- The loop of `drain_messages` over the messages of the queue, with what the state sends.
unfoldable pub drain : List Message → TerminalClient → Option (TerminalClient × List Message)
drain [] t = some (t, [])
drain (m ∷ ms) t = do
  (state, sent) ← handle_message t.state m
  (t', later) ← drain ms (clamp_cursor (record t { state = state }))
  some (t', sent ++ later)

unfoldable pub drain_messages : TerminalClient → Option (TerminalClient × List Message)
drain_messages t = drain t.incoming (record t { incoming = [] })

-- Queue an operation, and put the cursor where it leads.
unfoldable pub queue_at : TerminalClient → Operation → ℕ → TerminalClient × List Message
queue_at t op cursor =
    let (state, sent) = queue_operation t.state op in
    (record t { state = state; cursor_pos = cursor }, sent)

unfoldable pub queue_insert : TerminalClient → Bytes → TerminalClient × List Message
queue_insert t utf8 =
    queue_at t (operation_init insert t.cursor_pos (some utf8)) (inc_size t.cursor_pos)

unfoldable pub delete_before_cursor : TerminalClient → TerminalClient × List Message
delete_before_cursor t =
    if t.cursor_pos == 0
    then (t, [])
    else queue_at t (operation_init delete (t.cursor_pos - 1) none) (t.cursor_pos - 1)

unfoldable pub handle_code : Keyboard → TerminalClient → ℕ → TerminalClient × List Message
handle_code k t key =
    if (key == k.key_left) && ltb 0 t.cursor_pos
    then (record t { cursor_pos = t.cursor_pos - 1 }, [])
    else if key == k.key_right
    then (
      (if ltb t.cursor_pos (projected_content_length t)
          then record t { cursor_pos = inc_size t.cursor_pos }
          else t),
      [],
    )
    else if (key == k.key_backspace) || (key == 127) || (key == 8)
    then delete_before_cursor t
    else (t, [])

-- `buffer` is inserted up to its first zero byte; a wide zero is no printable character.
unfoldable pub insert_encoded : TerminalClient → Option Bytes → TerminalClient × List Message
insert_encoded t none = (t, [])
insert_encoded t (some buffer) = queue_insert t buffer

unfoldable pub handle_key : Keyboard → TerminalClient → ℕ → ℕ → TerminalClient × List Message
handle_key k t key key_result =
    if key_result == k.key_code_yes
    then handle_code k t key
    else if key == 17
    then (record t { running = false }, [])
    else if key == 19
    then (t, record message_init { type = codes "SAVE" } ∷ [])
    else if (key == b'\n') || (key == b'\r')
    then queue_insert t (b'\n' ∷ [])
    else if (key == 127) || (key == 8)
    then delete_before_cursor t
    else if k.iswprint key
    then insert_encoded t (k.wcrtomb key)
    else (t, [])

-- One turn of the main loop, the drawing aside: `get_wch` gave the key and the result.
unfoldable pub press : Keyboard → ℕ → ℕ → TerminalClient → TerminalClient × List Message
press k key rc t = if rc == k.err then (t, []) else handle_key k t key rc

unfoldable pub turn : Keyboard → TerminalClient → ℕ → ℕ → Option (TerminalClient × List Message)
turn k t key rc = do
  (t', sent) ← drain_messages t
  let (u, more) = press k key rc t'
  some (u, sent ++ more)
