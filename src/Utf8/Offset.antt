-- ===== src/Utf8/Offset.antt =====
-- `ts_utf8_byte_offset` on a well-formed text.
use linux_class.Common.{
  ℕ, zero, suc, ◌+◌, ◌≡◌, refl, List, [], ◌∷◌, ◌++◌, some, arith, ◌==◌, if◌then◌else◌, Bytes,
  length, length-append, take, flatten,
}
use linux_class.Utf8.Char.{IsChar, one, two, three, four, AllChars, char_bytes-char}
use linux_class.Utf8.{char_bytes, offset_loop, byte_offset}

-- The bytes of a character behind the first are stepped over.
skip_tail :
    (tail rest : Bytes) (i chars p : ℕ)
    → offset_loop (tail ++ rest) (length tail) i chars p ≡ offset_loop rest 0 i chars p
unfolding offset_loop
skip_tail [] rest i chars p = refl
skip_tail (c ∷ cs) rest i chars p = skip_tail cs rest i chars p

-- One round of the loop.
offset_loop-lead :
    (a : ℕ) (tail rest : Bytes) (i chars p : ℕ)
    → char_bytes (a ∷ (tail ++ rest)) ≡ suc (length tail)
    → offset_loop (a ∷ (tail ++ rest)) 0 i chars p
      ≡ (if chars == p then some i else offset_loop rest 0 (i + suc (length tail)) (chars + 1) p)
unfolding offset_loop
offset_loop-lead a tail rest i chars p e =
    ground (arith, skip_tail tail rest (i + suc (length tail)) (chars + 1) p)

pub offset_loop-char :
    {c : Bytes} (rest : Bytes) (i chars p : ℕ)
    → IsChar c
    → offset_loop (c ++ rest) 0 i chars p
      ≡ (if chars == p then some i else offset_loop rest 0 (i + length c) (chars + 1) p)
offset_loop-char rest i chars p (one {a} q r) =
    offset_loop-lead a [] rest i chars p (char_bytes-char rest (one q r))
offset_loop-char rest i chars p (two {a} {b} q r t) =
    offset_loop-lead a (b ∷ []) rest i chars p (char_bytes-char rest (two q r t))
offset_loop-char rest i chars p (three {a} {b} {c} q r t u) =
    offset_loop-lead a (b ∷ c ∷ []) rest i chars p (char_bytes-char rest (three q r t u))
offset_loop-char rest i chars p (four {a} {b} {c} {d} q r t u v) =
    offset_loop-lead a (b ∷ c ∷ d ∷ []) rest i chars p (char_bytes-char rest (four q r t u v))

offset_loop-flatten :
    (cs : List Bytes) (i chars k : ℕ)
    → AllChars cs
    → offset_loop (flatten cs) 0 i chars (chars + k) ≡ some (i + length (flatten (take k cs)))
unfolding offset_loop
offset_loop-flatten [] i chars zero h = ground arith
offset_loop-flatten [] i chars (suc k) h = ground arith
offset_loop-flatten (c ∷ cs) i chars zero (p, h) =
    ground (arith, offset_loop-char (flatten cs) i chars (chars + 0) p)
offset_loop-flatten (c ∷ cs) i chars (suc k) (p, h) = ground (
  arith,
  offset_loop-char (flatten cs) i chars (chars + suc k) p,
  offset_loop-flatten cs (i + length c) (chars + 1) k h,
  length-append c (flatten (take k cs)),
)

-- On a well-formed text the loop stays inside the buffer, and the position of a character, or of the
-- end, is found.
pub byte_offset-flatten :
    (cs : List Bytes) (k : ℕ)
    → AllChars cs
    → byte_offset (flatten cs) k ≡ some (length (flatten (take k cs)))
unfolding byte_offset
byte_offset-flatten cs k h = ground (arith, offset_loop-flatten cs 0 0 k h)
