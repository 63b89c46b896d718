-- ===== src/Terminal/View/Column.antt =====
-- Lines and columns by characters.

use linux_class.Common.{
  ℕ, zero, suc, ◌+◌, ◌-◌, ◌<◌, ◌≡◌, refl, sym, ap, ◌∙◌, Bool-cases, inl, inr, true, false, Bool,
  List, [], ◌∷◌, ◌++◌, some, arith, All-take, Bytes, length, length-append, take, take_prefix,
  flatten, ◌==◌, if◌then◌else◌,
}
use linux_class.Utf8.Char.{IsChar, one, two, three, four, AllChars, char_bytes-char}
use linux_class.Utf8.Offset.{byte_offset-flatten}
use linux_class.Terminal.View.{
  Locale, display_width, bounded_char_bytes, col_loop, col_for_pos, line_loop, line_for_pos,
}

abbrev pub is_newline : Bytes → Bool
is_newline [] = false
is_newline (c ∷ cs) = c == b'\n'

-- The column behind some characters: the widths since the last newline.
abbrev pub column : Locale → List Bytes → ℕ → ℕ
column l [] col = col
column l (c ∷ cs) col = column l cs (if is_newline c then 0 else col + display_width l c)

-- The line is the number of newlines.
abbrev pub newlines : List Bytes → ℕ
newlines [] = 0
newlines (c ∷ cs) = (if is_newline c then 1 else 0) + newlines cs

skip_bytes :
    (l : Locale) (c rest : Bytes) (col : ℕ)
    → col_loop l (c ++ rest) (length c) col ≡ col_loop l rest 0 col
unfolding col_loop
skip_bytes l [] rest col = refl
skip_bytes l (b ∷ c) rest col = skip_bytes l c rest col

bounded-char : (c rest : Bytes) → IsChar c → bounded_char_bytes (c ++ rest) ≡ length c
unfolding bounded_char_bytes
bounded-char c rest h =
    ground (arith, char_bytes-char rest h, length-append c rest, length-char c h)
  where
    length-char : (c : Bytes) → IsChar c → 0 < length c
    length-char _ (one p q) = omega arith
    length-char _ (two p q t) = omega arith
    length-char _ (three p q t u) = omega arith
    length-char _ (four p q t u v) = omega arith

col_loop-plain :
    (l : Locale) (b : ℕ) (c rest : Bytes) (col : ℕ)
    → IsChar (b ∷ c)
    → (b == b'\n') ≡ false
    → col_loop l (b ∷ (c ++ rest)) 0 col ≡ col_loop l rest 0 (col + display_width l (b ∷ c))
unfolding col_loop
col_loop-plain l b c rest col h n =
    let less : suc (length c) - 1 ≡ length c = omega arith in
    rw (n, bounded-char (b ∷ c) rest h, less, take_prefix c rest)
      (skip_bytes l c rest (col + display_width l (b ∷ c)))

col_loop-newline :
    (l : Locale) (b : ℕ) (rest : Bytes) (col : ℕ)
    → (b == b'\n') ≡ true
    → col_loop l (b ∷ rest) 0 col ≡ col_loop l rest 0 0
unfolding col_loop
col_loop-newline l b rest col e = rw e refl

-- A character that starts with a newline is one.
newline_alone : (b : ℕ) (c : Bytes) → IsChar (b ∷ c) → (b == b'\n') ≡ true → c ≡ []
newline_alone _ _ (one p q) e = refl
newline_alone _ _ (two p q t) e = absurd (ground (arith, p, e))
newline_alone _ _ (three p q t u) e = absurd (ground (arith, p, e))
newline_alone _ _ (four p q t u v) e = absurd (ground (arith, p, e))

-- One character of the loop.
col_loop-char :
    (l : Locale) (c rest : Bytes) (col : ℕ)
    → IsChar c
    → col_loop l (c ++ rest) 0 col
      ≡ col_loop l rest 0 (if is_newline c then 0 else col + display_width l c)
col_loop-char l [] rest col h = elim h [ ]
col_loop-char l (b ∷ c) rest col h = elim (Bool-cases (b == b'\n')) [
  | inl e ↦
      ap (λ x. col_loop l (b ∷ (x ++ rest)) 0 col) (newline_alone b c h e)
      ∙ col_loop-newline l b rest col e
      ∙ ap (λ (x : Bool). col_loop l rest 0 (if x then 0 else col + display_width l (b ∷ c)))
          (sym e)
  | inr e ↦
      col_loop-plain l b c rest col h e
      ∙ ap (λ (x : Bool). col_loop l rest 0 (if x then 0 else col + display_width l (b ∷ c)))
          (sym e)
]

col_loop-flatten :
    (l : Locale) (cs : List Bytes) (col : ℕ)
    → AllChars cs
    → col_loop l (flatten cs) 0 col ≡ column l cs col
unfolding col_loop
col_loop-flatten l [] col h = refl
col_loop-flatten l (c ∷ cs) col (p, h) =
    col_loop-char l c (flatten cs) col p
    ∙ col_loop-flatten l cs (if is_newline c then 0 else col + display_width l c) h

take_behind : (xs : Bytes) (n : ℕ) (ys : Bytes) → take (length xs + n) (xs ++ ys) ≡ xs ++ take n ys
take_behind [] n ys = let e : 0 + n ≡ n = omega arith in ap (λ k. take k ys) e
take_behind (x ∷ xs) n ys =
    let e : suc (length xs) + n ≡ suc (length xs + n) = omega arith in
    ap (λ k. take k (x ∷ (xs ++ ys))) e ∙ ap (◌∷◌ x) (take_behind xs n ys)

flatten-take :
    (cs : List Bytes) (k : ℕ)
    → take (length (flatten (take k cs))) (flatten cs) ≡ flatten (take k cs)
flatten-take [] zero = refl
flatten-take [] (suc k) = refl
flatten-take (c ∷ cs) zero = refl
flatten-take (c ∷ cs) (suc k) = rw length-append (
    take_behind c (length (flatten (take k cs))) (flatten cs)
    ∙ ap (λ x. c ++ x) (flatten-take cs k))

byte_newlines : Bytes → ℕ
byte_newlines [] = 0
byte_newlines (b ∷ bs) = (if b == b'\n' then 1 else 0) + byte_newlines bs

byte_newlines-append :
    (xs ys : Bytes) → byte_newlines (xs ++ ys) ≡ byte_newlines xs + byte_newlines ys
unfolding byte_newlines
byte_newlines-append [] ys = omega arith
byte_newlines-append (x ∷ xs) ys = omega (arith, byte_newlines-append xs ys)

byte_newlines-char : (c : Bytes) → IsChar c → byte_newlines c ≡ (if is_newline c then 1 else 0)
unfolding byte_newlines
byte_newlines-char _ (one p q) = omega arith
byte_newlines-char _ (two p q t) = ground arith
byte_newlines-char _ (three p q t u) = ground arith
byte_newlines-char _ (four p q t u v) = ground arith

byte_newlines-flatten : (cs : List Bytes) → AllChars cs → byte_newlines (flatten cs) ≡ newlines cs
unfolding byte_newlines
byte_newlines-flatten [] h = refl
byte_newlines-flatten (c ∷ cs) (p, h) =
    byte_newlines-append c (flatten cs)
    ∙ omega (arith, byte_newlines-char c p, byte_newlines-flatten cs h)

line_loop-newlines :
    (n : ℕ) (xs : Bytes) (line : ℕ) → line_loop n xs line ≡ line + byte_newlines (take n xs)
unfolding line_loop byte_newlines
line_loop-newlines zero xs line = omega arith
line_loop-newlines (suc n) [] line = omega arith
line_loop-newlines (suc n) (x ∷ xs) line =
    ground (arith, line_loop-newlines n xs (if x == b'\n' then line + 1 else line))

-- On a well-formed text the line of a position is the number of newlines before it, and its column is
-- the sum of the display widths of the characters before it on that line.
pub position-flatten :
    (l : Locale) (cs : List Bytes) (k : ℕ)
    → AllChars cs
    → (line_for_pos (flatten cs) k ≡ some (newlines (take k cs)))
      × (col_for_pos l (flatten cs) k ≡ some (column l (take k cs) 0))
unfolding col_for_pos line_for_pos
position-flatten l cs k h =
    let before = All-take IsChar k cs h in
    (
      rw (byte_offset-flatten cs k h) (
          ap some (
            line_loop-newlines (length (flatten (take k cs))) (flatten cs) 0
            ∙ ap (λ x. 0 + byte_newlines x) (flatten-take cs k)
            ∙ omega (arith, byte_newlines-flatten (take k cs) before))),
      rw (byte_offset-flatten cs k h, flatten-take cs k)
          (ap some (col_loop-flatten l (take k cs) 0 before)),
    )
