-- ===== src/Protocol/Json.antt =====
-- The JSON strings of protocol.c.
pub mod RoundTrip
pub mod Shape
use linux_class.Common.{
  ℕ, zero, suc, ◌+◌, ◌-◌, ◌*◌, ◌/◌, ◌%◌, Bool, true, false, ◌&&◌, ◌||◌, List, [], ◌∷◌, ◌++◌, Option,
  none, some, ◌>>=◌, Bytes, codes, ltb, leb, ◌==◌, if◌then◌else◌,
}

-- A digit of `%04x`.
hex_digit : ℕ → ℕ
hex_digit d = if ltb d 10 then b'0' + d else b'a' + (d - 10)

-- What `json_escape` appends for one byte; below 0x20 the two leading digits of `%04x` are 0.
unfoldable pub escape_byte : ℕ → Bytes
unfolding hex_digit
escape_byte ch =
    if ch == b'\\'
    then codes "\\\\"
    else if ch == b'"'
    then codes "\\\""
    else if ch == b'\n'
    then codes "\\n"
    else if ch == b'\r'
    then codes "\\r"
    else if ch == b'\t'
    then codes "\\t"
    else if ltb ch 0x20
    then codes "\\u00" ++ (hex_digit (ch / 16) ∷ hex_digit (ch % 16) ∷ [])
    else ch ∷ []

unfoldable pub json_escape : Bytes → Bytes
json_escape [] = []
json_escape (ch ∷ rest) = escape_byte ch ++ json_escape rest

-- -1 is `none`.
hex_value : ℕ → Option ℕ
hex_value ch =
    if leb b'0' ch && leb ch b'9'
    then some (ch - b'0')
    else if leb b'a' ch && leb ch b'f'
    then some (10 + (ch - b'a'))
    else if leb b'A' ch && leb ch b'F'
    then some (10 + (ch - b'A'))
    else none

-- The shifted digits have no bit in common, so their `|` is a sum. Other code points become `?`.
decoded : ℕ → ℕ
decoded code = if ltb 0 code && ltb code 0x80 then code else b'?'

-- `case 'u'`. Where the line ends within the digits, the terminator is no digit.
unicode : Bytes → Option ℕ
unfolding hex_value decoded
unicode (d1 ∷ d2 ∷ d3 ∷ d4 ∷ _) = do
  h1 ← hex_value d1
  h2 ← hex_value d2
  h3 ← hex_value d3
  h4 ← hex_value d4
  some (decoded (h1 * 4096 + h2 * 256 + h3 * 16 + h4))
unicode _ = none

-- Behind a backslash: the byte that is meant, and how many bytes of the text it takes.
unescape : Bytes → Option (ℕ × ℕ)
unfolding unicode
unescape [] = none
unescape (esc ∷ rest) =
    if esc == b'"' || esc == b'\\' || esc == b'/'
    then some (esc, 1)
    else if esc == b'n'
    then some (b'\n', 1)
    else if esc == b'r'
    then some (b'\r', 1)
    else if esc == b't'
    then some (b'\t', 1)
    else if esc == b'u'
    then (do c ← unicode rest; some (c, 5))
    else none

unfoldable pub next_byte : ℕ → Bytes → Option (ℕ × ℕ)
unfolding unescape
next_byte ch rest = if ch == b'\\' then unescape rest else some (ch, 0)

-- The loop of `parse_json_string_alloc`: `skip` bytes of an escape are still to be stepped over. The
-- result has the text behind the closing quote, `*end_out`.
unfoldable pub string_loop : Bytes → ℕ → Bytes → Option (Bytes × Bytes)
string_loop [] skip sb = none
string_loop (ch ∷ rest) (suc skip) sb = string_loop rest skip sb
string_loop (ch ∷ rest) zero sb =
    let more : Option (Bytes × Bytes) = elim (next_byte ch rest) [
      | none ↦ none
      | some (b, skip) ↦ string_loop rest skip (sb ++ b ∷ [])
    ] in
    if ch == b'"' then some (sb, rest) else more

unfoldable pub parse_json_string : Bytes → Option (Bytes × Bytes)
parse_json_string [] = none
parse_json_string (start ∷ rest) = if start == b'"' then string_loop rest 0 [] else none
