-- ===== src/Utf8.antt =====
-- util.c, the UTF-8 functions: positions are counted in characters, texts are bytes.
pub mod Char
pub mod Offset
use Prim.Native.Nat.{bit_and}
use linux_class.Common.{
  ℕ, zero, suc, ◌+◌, ◌-◌, Bool, true, false, List, [], ◌∷◌, Option, none, some, Bytes, ltb, ◌==◌,
  if◌then◌else◌,
}

-- A continuation byte is 10xxxxxx.
unfoldable pub is_utf8_continuation : ℕ → Bool
is_utf8_continuation value = bit_and value 0xC0 == 0x80

unfoldable pub char_count : Bytes → ℕ
char_count [] = 0
char_count (c ∷ cs) = (if is_utf8_continuation c then 0 else 1) + char_count cs

-- How many bytes the first byte announces; 0 at the terminator, 1 for an unexpected byte.
unfoldable pub char_bytes : Bytes → ℕ
char_bytes [] = 0
char_bytes (first ∷ _) =
    if ltb first 0x80
    then 1
    else if bit_and first 0xE0 == 0xC0
    then 2
    else if bit_and first 0xF0 == 0xE0
    then 3
    else if bit_and first 0xF8 == 0xF0
    then 4
    else 1

-- The loop of `ts_utf8_byte_offset` at `text + i`: `skip` bytes are still to be stepped over. A jump
-- past the terminator makes the next read of `text[i]` leave the buffer: that fault is `none`.
unfoldable pub offset_loop : Bytes → ℕ → ℕ → ℕ → ℕ → Option ℕ
offset_loop [] zero i chars char_pos = some i
offset_loop [] (suc skip) i chars char_pos = none
offset_loop (c ∷ cs) (suc skip) i chars char_pos = offset_loop cs skip i chars char_pos
offset_loop (c ∷ cs) zero i chars char_pos =
    let bytes = char_bytes (c ∷ cs) in
    let rest = offset_loop cs (bytes - 1) (i + bytes) (chars + 1) char_pos in
    if chars == char_pos then some i else rest

unfoldable pub byte_offset : Bytes → ℕ → Option ℕ
unfolding offset_loop
byte_offset text char_pos = offset_loop text 0 0 0 char_pos
