-- ===== src/Terminal/View.antt =====
-- client.c: lines, columns, and what is drawn. A call of `mvaddnstr` is a `Draw`. What `mbrtowc` and
-- `wcwidth` say of the bytes of one character is given.
pub mod Scroll
pub mod Column
pub mod Rows
use linux_class.Common.{
  ℕ, zero, suc, ◌+◌, ◌-◌, ◌≤◌, Bool, true, false, ◌&&◌, ◌||◌, List, [], ◌∷◌, ◌++◌, Option, none,
  some, ◌>>=◌, Bytes, codes, fit, print_nat, length, take, drop, ltb, leb, ◌==◌, if◌then◌else◌,
}
use linux_class.Common.Int.{ℤ, pos, pos_part, negsuc, ltb_ℤ}
use linux_class.Utf8.{char_bytes, byte_offset}

-- The loop of `line_for_pos`, for `limit` bytes at most.
unfoldable pub line_loop : ℕ → Bytes → ℕ → ℕ
line_loop zero content line = line
line_loop (suc limit) [] line = line
line_loop (suc limit) (c ∷ cs) line = line_loop limit cs (if c == b'\n' then line + 1 else line)

-- `none` is a read outside the text.
unfoldable pub line_for_pos : Bytes → ℕ → Option ℕ
line_for_pos content at = do
  byte_limit ← byte_offset content at
  some (line_loop byte_limit content 0)

-- `start` has the bytes up to `end`; only its first byte is read.
unfoldable pub bounded_char_bytes : Bytes → ℕ
bounded_char_bytes start =
    let bytes = char_bytes start in if (bytes == 0) || ltb (length start) bytes then 1 else bytes

-- What `mbrtowc` makes of some bytes: an error or a piece of a character, the null character, or a wide character.
pub data Converted : Type 0 where
  failed : Converted
  null : Converted
  wide : ℕ → Converted

pub record Locale : Type 0 where
  pub mbrtowc : Bytes → Converted
  pub wcwidth : ℕ → ℤ

unfoldable pub width_of : Locale → Converted → ℕ
width_of l failed = 1
width_of l null = 0
width_of l (wide wc) = if ltb_ℤ (l.wcwidth wc) (pos 0) then 1 else pos_part (l.wcwidth wc)

-- `utf8_display_width`, of the bytes of one character.
unfoldable pub display_width : Locale → Bytes → ℕ
display_width l bytes = width_of l (l.mbrtowc bytes)

-- The loop of `col_for_pos` over the bytes before `byte_limit`; `skip` of them belong to a character that is counted.
unfoldable pub col_loop : Locale → Bytes → ℕ → ℕ → ℕ
col_loop l [] skip col = col
col_loop l (c ∷ cs) (suc skip) col = col_loop l cs skip col
col_loop l (c ∷ cs) zero col =
    let bytes = bounded_char_bytes (c ∷ cs) in
    let next = col_loop l cs (bytes - 1) (col + display_width l (take bytes (c ∷ cs))) in
    let newline = col_loop l cs 0 0 in if c == b'\n' then newline else next

unfoldable pub col_for_pos : Locale → Bytes → ℕ → Option ℕ
col_for_pos l content at = do
  byte_limit ← byte_offset content at
  some (col_loop l (take byte_limit content) 0 0)

pub record Draw : Type 0 where
  pub row : ℕ
  pub col : ℕ
  pub text : Bytes

-- `render_line_segment` over the bytes of a line; it stops at the first character that does not fit.
unfoldable pub segment_loop : Locale → ℕ → ℕ → Bytes → ℕ → ℕ → ℕ → List Draw
segment_loop l row col [] skip used max_cols = []
segment_loop l row col (c ∷ cs) (suc skip) used max_cols =
    segment_loop l row col cs skip used max_cols
segment_loop l row col (c ∷ cs) zero used max_cols =
    let bytes = bounded_char_bytes (c ∷ cs) in
    let width = display_width l (take bytes (c ∷ cs)) in
    let more =
      record { row = row; col = col + used; text = take bytes (c ∷ cs) }
      ∷ segment_loop l row col cs (bytes - 1) (used + width) max_cols in
    if leb max_cols used || ltb max_cols (used + width) then [] else more

unfoldable pub render_line_segment : Locale → ℕ → ℕ → Bytes → ℕ → List Draw
render_line_segment l row col line max_cols = segment_loop l row col line 0 0 max_cols

-- `%4d `, in a buffer of 16 bytes.
unfoldable pub line_prefix : ℕ → Bytes
line_prefix line =
    let digits = print_nat (line + 1) in
    let blanks = if ltb (length digits) 4 then take (4 - length digits) (codes "    ") else [] in
    fit 16 (blanks ++ (digits ++ codes " "))

-- The first `width - 1` bytes; all of them when the window has no column.
unfoldable pub cut_to : ℕ → Bytes → Bytes
cut_to zero text = text
cut_to (suc n) text = take n text

-- One line of the document in its row.
unfoldable pub render_line : Locale → ℕ → ℕ → ℕ → Bytes → List Draw
render_line l width row line text =
    let prefix = line_prefix line in
    record { row = row; col = 0; text = cut_to width prefix }
    ∷ render_line_segment l row (length prefix) text (width - length prefix - 1)

-- The scrolling of `render_lines`, with the terms of `cursor_line - height + 3` on the other side.
unfoldable pub scrolled : ℕ → ℕ → ℕ → ℕ
scrolled height cursor_line scroll_line =
    let up = if ltb cursor_line scroll_line then cursor_line else scroll_line in
    if leb (up + height) (cursor_line + 2) then cursor_line + 3 - height else up

-- What is drawn for a line that ends, if it is in the window.
unfoldable pub draw_if : Bool → List Draw → List Draw
draw_if true draws = draws
draw_if false draws = []

-- The loop of `render_lines`: `start` has the bytes of the line so far.
unfoldable pub render_loop : Locale → ℕ → ℕ → ℕ → Bytes → Bytes → ℕ → ℕ → List Draw
render_loop l height width scroll [] start line row =
    draw_if (leb scroll line && ltb (row + 1) height) (render_line l width row line start)
render_loop l height width scroll (c ∷ cs) start line row =
    let shown = leb scroll line && ltb (row + 1) height in
    let ended =
      draw_if shown (render_line l width row line start)
      ++ render_loop l height width scroll cs [] (line + 1) (if shown then row + 1 else row) in
    let goes_on = render_loop l height width scroll cs (start ++ c ∷ []) line row in
    if c == b'\n' then ended else goes_on

-- `render_lines`: the new `scroll_line`, and what is drawn.
unfoldable pub render_lines : Locale → ℕ → ℕ → Bytes → ℕ → ℕ → Option (ℕ × List Draw)
render_lines l height width content cursor_pos scroll_line = do
  cursor_line ← line_for_pos content cursor_pos
  let scroll = scrolled height cursor_line scroll_line
  some (scroll, render_loop l height width scroll content [] 0 1)

-- The end of `render`: where the cursor is put, if it is in the window.
unfoldable pub cursor_at : Locale → ℕ → ℕ → Bytes → ℕ → ℕ → Option (Option (ℕ × ℕ))
cursor_at l height width content cursor_pos scroll_line = do
  line ← line_for_pos content cursor_pos
  col ← col_for_pos l content cursor_pos
  let screen_row = line + 1 - scroll_line
  let screen_col = col + 5
  some (
      if ltb 0 screen_row && ltb (screen_row + 1) height && ltb screen_col width
      then some (screen_row, screen_col)
      else none)
