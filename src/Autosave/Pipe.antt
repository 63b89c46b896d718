-- ===== src/Autosave/Pipe.antt =====
-- autosave.c: events in the pipe, a header line and then the payload. The pipe is the bytes that are
-- still to be read; it ends where the server closed it. Interrupted reads are made again.
pub mod Scan
pub mod Framing
use linux_class.Common.{
  ℕ, zero, suc, ◌+◌, ◌-◌, ◌*◌, Bool, true, false, ◌&&◌, List, [], ◌∷◌, ◌++◌, Option, none, some,
  ◌>>=◌, Bytes, codes, str_eq, fit, print_nat, length, take, drop, leb, ltb, ◌==◌, if◌then◌else◌,
}
use linux_class.Common.Int.{ℤ, pos, negsuc}
use linux_class.Protocol.Find.{is_space, skip_ws}
use linux_class.Protocol.Transport.{c_string}
use linux_class.Autosave.{Event, snapshot, save_now, log}

-- `%s %d %zu\n` into a buffer of 128 bytes.
unfoldable pub header : Bytes → ℕ → ℕ → Bytes
header name version len =
    fit 128 (name ++ (b' ' ∷ (print_nat version ++ (b' ' ∷ (print_nat len ++ b'\n' ∷ [])))))

-- `send_payload_event`.
unfoldable pub payload_event : Bytes → Bytes → ℕ → Bytes
payload_event name content version = header name version (length content) ++ content

-- `ts_autosave_send_snapshot`, `ts_autosave_send_save_now`, `ts_autosave_send_log`.
unfoldable pub event_bytes : Event → Bytes
event_bytes (snapshot content version) = payload_event (codes "SNAPSHOT") content version
event_bytes (save_now content version) = payload_event (codes "SAVE_NOW") content version
event_bytes (log entry) = payload_event (codes "LOG") entry 0

-- `ts_autosave_send_stop`.
unfoldable pub stop_bytes : Bytes
stop_bytes = codes "STOP\n"

-- The results of `read_line_fd`: 1, 0 and -1.
pub data Line : Type 0 where
  line : Bytes → Bytes → Line
  end : Line
  too_long : Line

-- Its loop, with room for so many more bytes.
unfoldable pub line_bytes : ℕ → Bytes → Bytes → Line
line_bytes zero pipe acc = too_long
line_bytes (suc room) [] acc = end
line_bytes (suc room) (c ∷ pipe) acc =
    let more = line_bytes room pipe (acc ++ c ∷ []) in if c == b'\n' then line acc pipe else more

unfoldable pub read_line_fd : Bytes → ℕ → Line
read_line_fd pipe line_size = line_bytes (line_size - 1) pipe []

-- `read_exact_alloc`: the payload and the rest of the pipe.
unfoldable pub read_exact : Bytes → ℕ → Option (Bytes × Bytes)
read_exact pipe len = if leb len (length pipe) then some (take len pipe, drop len pipe) else none

-- `%31s` behind white space.
unfoldable pub scan_word : ℕ → Bytes → Bytes × Bytes
scan_word zero text = ([], text)
scan_word (suc n) [] = ([], [])
scan_word (suc n) (c ∷ text) =
    let (word, rest) = scan_word n text in if is_space c then ([], c ∷ text) else (c ∷ word, rest)

-- The digits of a number, at least one. A number out of the range of its type is undefined in C.
unfoldable pub scan_digits : Bytes → ℕ → Bool → Option (ℕ × Bytes)
scan_digits [] n seen = if seen then some (n, []) else none
scan_digits (c ∷ text) n seen =
    let more = scan_digits text (n * 10 + (c - b'0')) true in
    if leb b'0' c && leb c b'9' then more else if seen then some (n, c ∷ text) else none

unfoldable pub minus : ℕ → ℤ
minus n = if n == 0 then pos 0 else negsuc (n - 1)

unfoldable pub scan_signed : Bytes → Option (ℤ × Bytes)
scan_signed [] = none
scan_signed (c ∷ text) =
    if c == b'-'
    then (do (n, rest) ← scan_digits text 0 false; some (minus n, rest))
    else if c == b'+'
    then (do (n, rest) ← scan_digits text 0 false; some (pos n, rest))
    else (do (n, rest) ← scan_digits (c ∷ text) 0 false; some (pos n, rest))

-- `%zu`; a `-` before it is not what the server writes.
unfoldable pub scan_size : Bytes → Option ℕ
scan_size text = do (n, rest) ← scan_digits text 0 false; some n

-- `sscanf(header, "%31s %d %zu", ...) == 3`.
unfoldable pub scan_numbers : Bytes → Bytes → Option (Bytes × ℤ × ℕ)
scan_numbers event text = do
  (version, rest) ← scan_signed (skip_ws text)
  len ← scan_size (skip_ws rest)
  some (event, version, len)

unfoldable pub scan_header : Bytes → Option (Bytes × ℤ × ℕ)
scan_header text = let (event, rest) = scan_word 31 (skip_ws text) in scan_numbers event rest

-- What the loop of `autosave_loop` reads: an event with the rest of the pipe; `STOP`; a header that is
-- passed over; or the end, which a short payload is, too.
pub data Next : Type 0 where
  event : Bytes → ℤ → Bytes → Bytes → Next
  stop : Next
  bad_header : Bytes → Next
  ended : Next

unfoldable pub read_payload : Bytes → Option (Bytes × ℤ × ℕ) → Next
read_payload pipe none = bad_header pipe
read_payload pipe (some (name, version, len)) = elim (read_exact pipe len) [
  | none ↦ ended
  | some (payload, rest) ↦ event name version payload rest
]

unfoldable pub after_line : Line → Next
after_line (line text pipe) =
    if str_eq (c_string text) (codes "STOP")
    then stop
    else read_payload pipe (scan_header (c_string text))
after_line end = ended
after_line too_long = ended

unfoldable pub next_event : Bytes → Next
next_event pipe = after_line (read_line_fd pipe 128)
