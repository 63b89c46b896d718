-- ===== src/Terminal/Render.antt =====
-- client.c: `render`, the whole window. The attributes of the bars and the refresh are left out.
use linux_class.Common.{
  ℕ, ◌+◌, ◌-◌, ◌<◌, ◌≡◌, refl, sym, ap, ◌∙◌, Bool, true, false, ◌&&◌, List, [], ◌∷◌, ◌++◌, Option,
  none, some, ◌>>=◌, >>=-eq-some, arith, Bytes, codes, fit, print_nat, length, take, ltb, ◌==◌,
  zero, suc, some_inj, subst, if◌then◌else◌, All,
}
use linux_class.ClientState.{ClientState}
use linux_class.Terminal.{TerminalClient}
use linux_class.Terminal.View.{
  Locale, Draw, bounded_char_bytes, cut_to, segment_loop, render_line_segment, render_line, draw_if,
  render_loop, render_lines, cursor_at, line_for_pos, col_for_pos,
}

-- The text of the upper bar.
unfoldable pub status_line : ClientState → Bytes
status_line s = fit 256 (
    s.client_id
    ++ (codes " | v"
        ++ (print_nat s.version
            ++ (codes " | pending=" ++ (print_nat (length s.queue) ++ (codes " | " ++ s.status))))))

pub record Screen : Type 0 where
  pub scroll : ℕ
  pub draws : List Draw
  pub cursor : Option (ℕ × ℕ)

-- `render`, in a window of `height` rows and `width` columns; `scroll` is the client's new `scroll_line`.
unfoldable pub render : Locale → ℕ → ℕ → TerminalClient → Option Screen
render l height width t = do
  (scroll, lines) ← render_lines l height width t.state.content t.cursor_pos t.scroll_line
  cursor ← cursor_at l height width t.state.content t.cursor_pos scroll
  some (record {
    scroll = scroll;
    draws =
        record { row = 0; col = 0; text = cut_to width (status_line t.state) }
        ∷ (lines
            ++ record {
              row = height - 1;
              col = 0;
              text = cut_to width (codes "Ctrl-S save | Ctrl-Q quit");
            }
              ∷ []);
    cursor = cursor;
  })

-- The rows between the two bars.
abbrev pub InBody : ℕ → Draw → Type 0
InBody height d = (0 < d.row) × (d.row + 1 < height)

module _ (l : Locale) (height : ℕ) where
  append-InBody :
      (xs ys : List Draw)
      → All (InBody height) xs
      → All (InBody height) ys
      → All (InBody height) (xs ++ ys)
  append-InBody [] ys h k = k
  append-InBody (x ∷ xs) ys (p, h) k = (p, append-InBody xs ys h k)

  if-InBody :
      (b : Bool) (xs ys : List Draw)
      → All (InBody height) xs
      → All (InBody height) ys
      → All (InBody height) (if b then xs else ys)
  if-InBody true xs ys h k = h
  if-InBody false xs ys h k = k

  segment-InBody :
      (row col : ℕ) (line : Bytes) (skip used max_cols : ℕ)
      → (0 < row) × (row + 1 < height)
      → All (InBody height) (segment_loop l row col line skip used max_cols)
  unfolding segment_loop
  segment-InBody row col [] skip used max_cols h = tt
  segment-InBody row col (c ∷ cs) (suc skip) used max_cols h =
      segment-InBody row col cs skip used max_cols h
  segment-InBody row col (c ∷ cs) zero used max_cols h =
      if-InBody _ []
        (record { row = row; col = col + used; text = take (bounded_char_bytes (c ∷ cs)) (c ∷ cs) }
          ∷ _)
        tt (h, segment-InBody row col cs _ _ max_cols h)

  line-InBody :
      (shown : Bool) (width row line : ℕ) (text : Bytes)
      → 0 < row
      → (shown ≡ true → row + 1 < height)
      → All (InBody height) (draw_if shown (render_line l width row line text))
  unfolding draw_if render_line render_line_segment
  line-InBody false width row line text p h = tt
  line-InBody true width row line text p h =
      ((p, h refl), segment-InBody row _ text 0 0 _ (p, h refl))

  loop-InBody :
      (width scroll : ℕ) (text start : Bytes) (line row : ℕ)
      → 0 < row
      → All (InBody height) (render_loop l height width scroll text start line row)
  unfolding render_loop
  loop-InBody width scroll [] start line row p =
      line-InBody _ width row line start p (λ e. ground (arith, e))
  loop-InBody width scroll (c ∷ cs) start line row p =
      if-InBody (c == b'\n') _ _
        (append-InBody _ _ (line-InBody _ width row line start p (λ e. ground (arith, e)))
          (loop-InBody width scroll cs [] (line + 1) _ (ground (arith, p))))
        (loop-InBody width scroll cs (start ++ c ∷ []) line row p)

lines-InBody :
    (l : Locale) (height width : ℕ) (content : Bytes) (cursor_pos scroll_line : ℕ)
    (r : ℕ × List Draw)
    → render_lines l height width content cursor_pos scroll_line ≡ some r
    → All (InBody height) r.1
unfolding render_lines
lines-InBody l height width content cursor_pos scroll_line r e =
    let (line, found, rest) = >>=-eq-some (line_for_pos content cursor_pos) _ e in
    subst (λ (q : ℕ × List Draw). All (InBody height) q.1) (some_inj rest)
      (loop-InBody l height width _ content [] 0 1 (omega arith))

cursor-within :
    (l : Locale) (height width : ℕ) (content : Bytes) (cursor_pos scroll_line row col : ℕ)
    → cursor_at l height width content cursor_pos scroll_line ≡ some (some (row, col))
    → (0 < row) × (row + 1 < height) × (col < width)
unfolding cursor_at
cursor-within l height width content cursor_pos scroll_line row col e =
    let (line, found, more) = >>=-eq-some (line_for_pos content cursor_pos) _ e in
    let (column, at, rest) = >>=-eq-some (col_for_pos l content cursor_pos) _ more in
    placed (line + 1 - scroll_line) (column + 5) (some_inj rest)
  where
    placed :
        (r k : ℕ)
        → ◌≡◌ {A = Option (ℕ × ℕ)}
            (if◌then◌else◌ {A = Option (ℕ × ℕ)}
              (ltb 0 r && ltb (r + 1) height && ltb k width)
              (some (r, k))
              none)
            (some (row, col))
        → (0 < row) × (row + 1 < height) × (col < width)
    placed r k d = ground (arith, d)

-- Between the bars in the first and in the last row, every line is drawn between them; nothing else is drawn over a
-- bar or outside the window's rows, and the cursor is only put between the bars and within the columns.
pub render-InBody :
    (l : Locale) (height width : ℕ) (t : TerminalClient) (screen : Screen)
    → render l height width t ≡ some screen
    → ((body : List Draw) × (screen.draws
          ≡ record { row = 0; col = 0; text = cut_to width (status_line t.state) }
            ∷ (body
                ++ record {
                  row = height - 1;
                  col = 0;
                  text = cut_to width (codes "Ctrl-S save | Ctrl-Q quit");
                }
                  ∷ []))
        × All (InBody height) body)
      × ((row col : ℕ)
          → screen.cursor ≡ some (row, col)
          → (0 < row) × (row + 1 < height) × (col < width))
unfolding render
render-InBody l height width t screen e =
    let ((scroll, lines), drawn, rest) =
      >>=-eq-some (render_lines l height width t.state.content t.cursor_pos t.scroll_line) _ e in
    let (cursor, placed, done) =
      >>=-eq-some (cursor_at l height width t.state.content t.cursor_pos scroll) _ rest in
    let same = some_inj done in
    (
      (
        lines,
        sym (ap (λ (x : Screen). x.draws) same),
        lines-InBody l height width t.state.content t.cursor_pos t.scroll_line (scroll, lines)
            drawn,
      ),
      λ row col at.
          cursor-within l height width t.state.content t.cursor_pos scroll row col
            (placed ∙ ap some (ap (λ (x : Screen). x.cursor) same ∙ at)),
    )
