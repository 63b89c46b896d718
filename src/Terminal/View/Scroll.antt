-- ===== src/Terminal/View/Scroll.antt =====
-- The cursor's line is in the window.
use linux_class.Common.{
  ℕ, zero, suc, ◌+◌, ◌-◌, ◌≤◌, ◌<◌, ◌≡◌, refl, sym, ap, ◌∙◌, some, some_pair, List, [], ◌∷◌, arith,
  Bytes, take, drop, get_elem?,
}
use linux_class.Terminal.View.{Locale, Draw, line_for_pos, scrolled, render_loop, render_lines}
use linux_class.Terminal.View.Rows.{lines_of, draw_rows, render_loop-eq-draw_rows}

scrolled_bounds :
    (height line scroll : ℕ)
    → 3 ≤ height
    → (scrolled height line scroll ≤ line) × (line + 2 < scrolled height line scroll + height)
unfolding scrolled
scrolled_bounds height line scroll h = ground arith

get_elem?-drop {ℓ} :
    {A : Type ℓ} (n i : ℕ) (xs : List A) → get_elem? (drop n xs) i ≡ get_elem? xs (n + i)
get_elem?-drop zero i xs = let e : i ≡ 0 + i = omega arith in ap (get_elem? xs) e
get_elem?-drop (suc n) i [] = refl
get_elem?-drop (suc n) i (x ∷ xs) =
    let e : suc (n + i) ≡ suc n + i = omega arith in
    get_elem?-drop n i xs ∙ ap (get_elem? (x ∷ xs)) e

get_elem?-take {ℓ} :
    {A : Type ℓ} (n i : ℕ) (xs : List A) → i < n → get_elem? (take n xs) i ≡ get_elem? xs i
get_elem?-take zero i xs h = absurd (omega arith)
get_elem?-take (suc n) i [] h = refl
get_elem?-take (suc n) zero (x ∷ xs) h = refl
get_elem?-take (suc n) (suc i) (x ∷ xs) h = get_elem?-take n i xs (omega arith)

-- The lines that the window shows.
abbrev pub window : ℕ → ℕ → Bytes → List Bytes
window height scroll content = take (height - 2) (drop scroll (lines_of content))

-- In a window of three rows or more, whatever the scrolling was before, the rows behind the first show
-- consecutive lines of the document, and the cursor's line is one of them.
pub render_lines-window :
    (l : Locale) (height width : ℕ) (content : Bytes) (cursor_pos scroll_line : ℕ) (scroll : ℕ)
    (draws : List Draw) (line : ℕ)
    → 3 ≤ height
    → line_for_pos content cursor_pos ≡ some line
    → render_lines l height width content cursor_pos scroll_line ≡ some (scroll, draws)
    → (draws ≡ draw_rows l width scroll 1 (window height scroll content))
      × (scroll ≤ line)
      × (line + 2 < scroll + height)
      × (get_elem? (window height scroll content) (line - scroll)
          ≡ get_elem? (lines_of content) line)
unfolding render_lines
render_lines-window l height width content cursor_pos scroll_line scroll draws line h at e =
    let (above, below) = scrolled_bounds height line scroll_line h in
    let (s, d) = some_pair (rw at at e) in
    let top : scroll ≤ line = omega (arith, above, s) in
    let bottom : line + 2 < scroll + height = omega (arith, below, s) in
    (
      sym d
          ∙ ap (λ n. render_loop l height width n content [] 0 1) s
          ∙ render_loop-eq-draw_rows l height width scroll content (omega (arith, h)),
      top,
      bottom,
      get_elem?-take (height - 2) (line - scroll) (drop scroll (lines_of content))
            (omega (arith, top, bottom))
          ∙ get_elem?-drop scroll (line - scroll) (lines_of content)
          ∙ ap (get_elem? (lines_of content)) (omega (arith, top)),
    )
