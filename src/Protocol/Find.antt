-- ===== src/Protocol/Find.antt =====
-- How protocol.c finds the value of a key, and reads the numbers and objects there.
pub mod Numbers
use linux_class.Common.{
  ℕ, zero, suc, ◌+◌, ◌-◌, ◌*◌, ◌%◌, ◌^◌, Bool, true, false, not, ◌&&◌, ◌||◌, [], ◌∷◌, ◌++◌, Option,
  none, some, ◌>>=◌, Bytes, fit, ltb, leb, ◌==◌, if◌then◌else◌, length,
}
use linux_class.Common.Int.{ℤ, pos, negsuc}
use linux_class.Protocol.Json.{parse_json_string}

-- `isspace` in the C locale.
unfoldable pub is_space : ℕ → Bool
is_space c = c == b' ' || (leb 9 c && leb c 13)

unfoldable pub skip_ws : Bytes → Bytes
unfolding is_space
skip_ws [] = []
skip_ws (c ∷ cs) = if is_space c then skip_ws cs else c ∷ cs

-- The text behind a prefix.
unfoldable pub strip_prefix : Bytes → Bytes → Option Bytes
strip_prefix [] text = some text
strip_prefix (p ∷ pattern) [] = none
strip_prefix (p ∷ pattern) (c ∷ text) = if p == c then strip_prefix pattern text else none

-- Behind the quoted name: the value, or what the rest of the search finds.
unfoldable pub after_name : Bytes → Option Bytes → Option Bytes
after_name [] rest = rest
after_name (c ∷ after) rest = if c == b':' then some (skip_ws after) else rest

-- `strstr` and the loop around it; a match that is no key is stepped over.
unfoldable pub find_loop : Bytes → Bytes → ℕ → Option Bytes
unfolding strip_prefix after_name skip_ws
find_loop pattern [] skip = none
find_loop pattern (c ∷ p) (suc skip) = find_loop pattern p skip
find_loop pattern (c ∷ p) zero = elim (strip_prefix pattern (c ∷ p)) [
  | none ↦ find_loop pattern p 0
  | some after ↦
      let rest = find_loop pattern p (length pattern - 1) in after_name (skip_ws after) rest
]

unfoldable pub find_key : Bytes → Bytes → Option Bytes
unfolding find_loop
find_key json key = find_loop (fit 96 (b'"' ∷ (key ++ (b'"' ∷ [])))) json 0

-- `json_get_string`, into a buffer of `out_size` bytes; `none` is false.
unfoldable pub json_get_string : Bytes → Bytes → ℕ → Option Bytes
unfolding find_key parse_json_string
json_get_string json key out_size = do
  value ← find_key json key
  parsed ← parse_json_string value
  some (fit out_size parsed.0)

unfoldable pub json_get_content : Bytes → Bytes → Option Bytes
unfolding find_key parse_json_string
json_get_content json key = do
  value ← find_key json key
  parsed ← parse_json_string value
  some parsed.0

-- `strtol` in base 10; `none` is "no digits", or a number out of the range of `long`.
unfoldable pub digits_loop : Bytes → ℕ → Bool → Option ℕ
digits_loop [] n seen = if seen then some n else none
digits_loop (c ∷ cs) n seen =
    let rest = digits_loop cs (n * 10 + (c - b'0')) true in
    if leb b'0' c && leb c b'9' then rest else if seen then some n else none

unfoldable pub positive : ℕ → Option ℤ
positive n = if ltb n (2 ^ 63) then some (pos n) else none

unfoldable pub negative : ℕ → Option ℤ
negative n = if n == 0 then some (pos 0) else if leb n (2 ^ 63) then some (negsuc (n - 1)) else none

unfoldable pub signed : Bytes → Option ℤ
unfolding digits_loop positive negative
signed [] = none
signed (c ∷ cs) =
    if c == b'-'
    then digits_loop cs 0 false >>= negative
    else if c == b'+'
    then digits_loop cs 0 false >>= positive
    else digits_loop (c ∷ cs) 0 false >>= positive

unfoldable pub strtol : Bytes → Option ℤ
unfolding signed skip_ws
strtol value = signed (skip_ws value)

-- `(int)parsed`, modulo 2^32.
unfoldable pub word_int : ℕ → ℤ
word_int u = if ltb u (2 ^ 31) then pos u else negsuc (2 ^ 32 - u - 1)

unfoldable pub to_int : ℤ → ℤ
unfolding word_int
to_int (pos n) = word_int (n % 2 ^ 32)
to_int (negsuc n) = word_int ((2 ^ 32 - (n + 1) % 2 ^ 32) % 2 ^ 32)

unfoldable pub json_get_int : Bytes → Bytes → Option ℤ
unfolding find_key strtol to_int
json_get_int json key = do value ← find_key json key; parsed ← strtol value; some (to_int parsed)

-- The scan of `json_get_object`.
pub record Scan : Type 0 where
  pub in_string : Bool
  pub escape : Bool
  pub depth : ℕ

unfoldable pub scan_string : Scan → ℕ → Scan
scan_string s ch =
    if s.escape
    then record s { escape = false }
    else if ch == b'\\'
    then record s { escape = true }
    else if ch == b'"'
    then record s { in_string = false }
    else s

unfoldable pub scan_outside : Scan → ℕ → Scan
scan_outside s ch =
    if ch == b'"'
    then record s { in_string = true }
    else if ch == b'{'
    then record s { depth = s.depth + 1 }
    else if ch == b'}'
    then record s { depth = s.depth - 1 }
    else s

-- `copy` is the object so far. It is complete at a brace that brings the depth to 0.
unfoldable pub object_loop : Bytes → Scan → Bytes → Option Bytes
unfolding scan_string scan_outside
object_loop [] s copy = none
object_loop (ch ∷ value) s copy =
    let s' = if s.in_string then scan_string s ch else scan_outside s ch in
    let copy' = copy ++ ch ∷ [] in
    let rest = object_loop value s' copy' in
    if not s.in_string && ch == b'}' && s'.depth == 0 then some copy' else rest

unfoldable pub object_at : Bytes → Option Bytes
unfolding object_loop
object_at [] = none
object_at (ch ∷ value) =
    if ch == b'{'
    then object_loop (ch ∷ value) (record { in_string = false; escape = false; depth = 0 }) []
    else none

unfoldable pub json_get_object : Bytes → Bytes → Option Bytes
unfolding find_key object_at
json_get_object json key = do value ← find_key json key; object_at value
