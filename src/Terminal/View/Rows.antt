-- ===== src/Terminal/View/Rows.antt =====
-- The rows of the window against the lines of the document.
use mathlib.Core.List.{append-nil}
use linux_class.Common.{
  ℕ, zero, suc, ◌+◌, ◌-◌, ◌≤◌, ◌≡◌, refl, sym, ap, ◌∙◌, Bool-cases, inl, inr, true, false, Bool,
  ◌&&◌, List, [], ◌∷◌, ◌++◌, arith, Bytes, take, drop, ltb, leb, ◌==◌, if◌then◌else◌,
}
use linux_class.Terminal.View.{Locale, Draw, render_line, draw_if, render_loop}

-- The lines of a text whose first line goes on behind `start`.
abbrev pub lines_from : Bytes → Bytes → List Bytes
lines_from start [] = start ∷ []
lines_from start (c ∷ cs) =
    if c == b'\n' then start ∷ lines_from [] cs else lines_from (start ++ c ∷ []) cs

abbrev pub lines_of : Bytes → List Bytes
lines_of = lines_from []

-- Lines in consecutive rows.
unfoldable pub draw_rows : Locale → ℕ → ℕ → ℕ → List Bytes → List Draw
draw_rows l width line row [] = []
draw_rows l width line row (text ∷ texts) =
    render_line l width row line text ++ draw_rows l width (line + 1) (row + 1) texts

module _ (l : Locale) (height width scroll : ℕ) where
  shown : ℕ → ℕ → Bool
  shown line row = leb scroll line && ltb (row + 1) height

  -- The loop over the lines.
  rows : List Bytes → ℕ → ℕ → List Draw
  unfolding shown
  rows [] line row = []
  rows (text ∷ texts) line row =
      draw_if (shown line row) (render_line l width row line text)
      ++ rows texts (line + 1) (if shown line row then row + 1 else row)

  loop-rows :
      (cs start : Bytes) (line row : ℕ)
      → render_loop l height width scroll cs start line row ≡ rows (lines_from start cs) line row
  unfolding render_loop rows shown
  loop-rows [] start line row = sym (append-nil _)
  loop-rows (c ∷ cs) start line row = elim (Bool-cases (c == b'\n')) [
    | inl e ↦ rw e (
        rw
          (loop-rows cs [] (line + 1)
            (if leb scroll line && ltb (row + 1) height then row + 1 else row))
          refl)
    | inr e ↦ rw e (loop-rows cs (start ++ c ∷ []) line row)
  ]

  -- Above the window nothing is drawn, and in it one line a row, down to its end.
  rows-above :
      (texts : List Bytes) (d line row : ℕ)
      → line + d ≡ scroll
      → rows texts line row ≡ rows (drop d texts) scroll row
  unfolding rows shown draw_if
  rows-above texts zero line row e = ap (λ n. rows texts n row) (omega (arith, e))
  rows-above [] (suc d) line row e = refl
  rows-above (text ∷ texts) (suc d) line row e =
      let above : leb scroll line ≡ false = ground (arith, e) in
      rw above (rows-above texts d (line + 1) row (omega (arith, e)))

  rows-full : (texts : List Bytes) (line row : ℕ) → height ≤ row + 1 → rows texts line row ≡ []
  unfolding rows shown draw_if
  rows-full [] line row e = refl
  rows-full (text ∷ texts) line row e =
      let full : shown line row ≡ false = ground (arith, e) in
      rw full (rows-full texts (line + 1) row e)

  rows-window :
      (texts : List Bytes) (n line row : ℕ)
      → scroll ≤ line
      → row + 1 + n ≡ height
      → rows texts line row ≡ draw_rows l width line row (take n texts)
  unfolding rows shown draw_if draw_rows
  rows-window texts zero line row a e = rows-full texts line row (omega (arith, e))
  rows-window [] (suc n) line row a e = refl
  rows-window (text ∷ texts) (suc n) line row a e =
      let in_window : shown line row ≡ true = ground (arith, a, e) in
      rw in_window (
        ap (λ ds. render_line l width row line text ++ ds)
          (rows-window texts n (line + 1) (row + 1) (omega (arith, a)) (omega (arith, e))))

  -- The rows 1 to `height - 2` of the window show the lines of the document from `scroll` on, one line a
  -- row and in order, as many as there are, and nothing else is drawn.
  pub render_loop-eq-draw_rows :
      (content : Bytes)
      → 2 ≤ height
      → render_loop l height width scroll content [] 0 1
        ≡ draw_rows l width scroll 1 (take (height - 2) (drop scroll (lines_of content)))
  render_loop-eq-draw_rows content h =
      loop-rows content [] 0 1
      ∙ rows-above (lines_of content) scroll 0 1 (omega arith)
      ∙ rows-window (drop scroll (lines_of content)) (height - 2) scroll 1 (omega arith)
          (omega (arith, h))
