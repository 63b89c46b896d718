-- ===== src/Tests/Terminals.antt =====
-- The terminal client, at concrete inputs.
use linux_class.Common.{ℕ}
use linux_class.Common.{
  ◌+◌, ◌≤◌, ◌<◌, ◌≡◌, refl, List, [], ◌∷◌, some, none, true, Bytes, codes, take, arith, get_elem?,
  flatten, leb, ltb, ◌&&◌, if◌then◌else◌, str_eq,
}
use linux_class.Common.Int.{pos}
use linux_class.Utf8.{char_count, char_bytes, byte_offset, is_utf8_continuation}
use linux_class.Utf8.Char.{one, three, AllChars}
use linux_class.Message.{Message, message_init}
use linux_class.ClientState.{state_init, set_document, handle_message, state_pump, pump_queue}
use linux_class.Terminal.{
  TerminalClient, Keyboard, projected_content_length, projected_sum, handle_key, drain,
  clamp_cursor, queue_delta,
}
use linux_class.Terminal.Cursor.{InBounds, handle_key-InBounds}
use linux_class.Terminal.Queue.{
  Cells, queue_init, link, push_behind, queue_push, tail_behind, pop_at, queue_pop,
}
use linux_class.Terminal.Queue.Fifo.{
  Call, push, pop, run_list, run_linked, Fresh, run_linked-eq-run_list,
}
use linux_class.Terminal.View.{
  Locale, Converted, failed, wide, render_loop, render_lines, scrolled, line_for_pos, line_loop,
  col_for_pos,
}
use linux_class.Common.{All, ◌++◌}
use linux_class.Terminal.View.{Draw, cursor_at, cut_to}
use linux_class.Terminal.Render.{Screen, status_line, render, InBody, render-InBody}
use linux_class.Terminal.View.Rows.{draw_rows, lines_of}
use linux_class.Terminal.View.Scroll.{window, render_lines-window}
use linux_class.Terminal.View.Column.{newlines, column, position-flatten}

abbrev keyboard : Keyboard
keyboard = record {
  key_code_yes = 256;
  err = 4294967295;
  key_left = 260;
  key_right = 261;
  key_backspace = 263;
  iswprint = λ c. leb 32 c && ltb c 127;
  wcrtomb = λ c. some (c ∷ []);
}

-- Two characters, and the cursor behind them.
abbrev typing : TerminalClient
typing = record {
  state = record (state_init (some (codes "u")) true) {
    content = codes "ab";
    version = 2;
    can_send = true;
  };
  incoming = [];
  running = true;
  cursor_pos = 2;
  scroll_line = 0;
}

-- A letter is typed while nothing is in flight.
typing-InBounds : InBounds typing
unfolding projected_sum queue_delta char_count state_init is_utf8_continuation
typing-InBounds = omega arith

handle_key-InBounds_example : InBounds (handle_key keyboard typing 120 0).0
handle_key-InBounds_example = handle_key-InBounds keyboard typing 120 0 typing-InBounds

-- The server sends a shorter text.
abbrev shorter : Message
shorter = record message_init {
  type = codes "DOC_STATE";
  version = pos 3;
  content = some (codes "a");
}

abbrev shown : TerminalClient
shown = record typing {
  state = (set_document typing.state (some (codes "a")) 3 0).0;
  cursor_pos = 1;
}

drained : drain (shorter ∷ []) typing ≡ some (shown, [])
unfolding drain clamp_cursor projected_content_length projected_sum queue_delta handle_message
    set_document str_eq state_pump pump_queue state_init char_count is_utf8_continuation
drained = refl

-- Two messages go in, one comes out, its address is used again, and the rest comes out.
abbrev hello : Bytes → Message
hello type = record message_init { type = type }

abbrev empty : Cells
empty = λ p. none

abbrev calls : List Call
calls =
    push 7 (hello (codes "ACK"))
    ∷ push 9 (hello (codes "PONG"))
    ∷ pop
    ∷ push 7 (hello (codes "ERROR"))
    ∷ pop
    ∷ pop
    ∷ pop
    ∷ []

calls-Fresh : Fresh calls (queue_init empty)
unfolding Fresh queue_init queue_push push_behind link queue_pop pop_at tail_behind
calls-Fresh = (refl, (refl, (refl, tt)))

run_linked-eq-run_list_example : run_linked calls (queue_init empty) ≡ some (run_list calls [])
run_linked-eq-run_list_example = run_linked-eq-run_list calls empty calls-Fresh

-- A locale in which the bytes from 0xE0 on begin a character of two columns.
abbrev converted : Bytes → Converted
converted [] = failed
converted (c ∷ cs) = wide c

abbrev locale : Locale
locale = record { mbrtowc = converted; wcwidth = λ wc. if leb 0xE0 wc then pos 2 else pos 1 }

abbrev text : Bytes
text = codes "a\nbc\n\nd"

-- The cursor is on the last line, and the window shows one line.
at_line : line_for_pos text 6 ≡ some 3
unfolding line_for_pos line_loop byte_offset char_bytes
at_line = refl

rendered : render_lines locale 3 20 text 6 0 ≡ some (3, render_loop locale 3 20 3 text [] 0 1)
unfolding render_lines line_for_pos line_loop byte_offset char_bytes scrolled
rendered = refl

render_lines-window_example :
    (render_loop locale 3 20 3 text [] 0 1 ≡ draw_rows locale 20 3 1 (window 3 3 text))
    × (3 ≤ 3)
    × (3 + 2 < 3 + 3)
    × (get_elem? (window 3 3 text) 0 ≡ get_elem? (lines_of text) 3)
render_lines-window_example =
    render_lines-window locale 3 20 text 6 0 3 (render_loop locale 3 20 3 text [] 0 1) 3
      (omega arith) at_line rendered

-- A letter, a newline, and a character of three bytes.
abbrev letters : List Bytes
letters = (0x61 ∷ []) ∷ (b'\n' ∷ []) ∷ (0xE6 ∷ 0x97 ∷ 0xA5 ∷ []) ∷ []

letters-AllChars : AllChars letters
letters-AllChars = (
  one (omega arith) (omega arith),
  (
    one (omega arith) (omega arith),
    (three (omega arith) (omega arith) (omega arith, omega arith) (omega arith, omega arith), tt),
  ),
)

position-flatten_example :
    (line_for_pos (flatten letters) 3 ≡ some (newlines (take 3 letters)))
    × (col_for_pos locale (flatten letters) 3 ≡ some (column locale (take 3 letters) 0))
position-flatten_example = position-flatten locale letters 3 letters-AllChars

typing_screen : (screen : Screen) × (render locale 10 40 typing ≡ some screen)
unfolding render render_lines cursor_at line_for_pos col_for_pos byte_offset char_bytes
typing_screen = (_, refl)

render-InBody_example :
    ((body : List Draw) × (typing_screen.0.draws
        ≡ record { row = 0; col = 0; text = cut_to 40 (status_line typing.state) }
          ∷ (body
              ++ record { row = 9; col = 0; text = cut_to 40 (codes "Ctrl-S save | Ctrl-Q quit") }
                ∷ []))
      × All (InBody 10) body)
    × ((row col : ℕ)
        → typing_screen.0.cursor ≡ some (row, col)
        → (0 < row) × (row + 1 < 10) × (col < 40))
render-InBody_example = render-InBody locale 10 40 typing typing_screen.0 typing_screen.1
