-- ===== src/Protocol/Transport/Link.antt =====
-- The two ends of a connection: `ts_transport_send` at the one, `ts_transport_recv` at the other.
use mathlib.Core.List.{append_assoc, append-nil}
use linux_class.Common.{
  ◌≤◌, ◌<◌, ◌≡◌, refl, ap, ◌∙◌, List, [], ◌∷◌, ◌++◌, arith, All, length, length-append, Bytes,
  false, ◌==◌,
}
use linux_class.Output.{Written, Outcome, done, failed, writing, taken, write_all-Sends}
use linux_class.Message.{Message}
use linux_class.Protocol.Decode.{decode_message}
use linux_class.Protocol.Encode.{encode_message}
use linux_class.Protocol.Encode.OneLine.{IsPrintable, encode_message_line}
use linux_class.Protocol.Json.RoundTrip.{IsText}
use linux_class.Protocol.Transport.{max_line_bytes, Read, received, c_string, recv, transport_send}
use linux_class.Protocol.Transport.Chunks.{stream, Delivers, NoNewline, recv-Receives}

pub c_string-text : (s : Bytes) → IsText s → c_string s ≡ s
unfolding c_string
c_string-text [] h = refl
c_string-text (c ∷ s) (p, h) =
    let some_byte : (c == 0) ≡ false = ground (arith, p) in
    rw some_byte (ap (◌∷◌ c) (c_string-text s h))

printable-IsText : (s : Bytes) → IsPrintable s → IsText s
printable-IsText [] h = tt
printable-IsText (c ∷ s) (p, h) = (omega (arith, p), printable-IsText s h)

printable-NoNewline : (s : Bytes) → IsPrintable s → NoNewline s
printable-NoNewline [] h = tt
printable-NoNewline (c ∷ s) (p, h) = (omega (arith, p), printable-NoNewline s h)

unfoldable pub if_done : Outcome × Bytes → (Bytes → Outcome × Bytes) → Outcome × Bytes
if_done (done, out) next = next out
if_done (failed, out) next = (failed, out)
if_done (writing, out) next = (writing, out)

-- Messages, each with what `write` does, until a call fails.
unfoldable pub send_each : List (Message × List Written) → Bytes → Outcome × Bytes
send_each [] out = (done, out)
send_each ((m, writes) ∷ xs) out = if_done (transport_send m writes out) (send_each xs)

-- Calls of `ts_transport_recv` give the lines of these messages, and nothing is left behind them.
abbrev pub Gets : List (Message × List Written) → Bytes → List Read → Type 0
Gets [] buffer reads = buffer ++ stream reads ≡ []
Gets ((m, writes) ∷ xs) buffer reads =
    (line : Bytes) × (later : Bytes) × (rest : List Read) × (encode_message m ≡ line ++ b'\n' ∷ [])
    × (recv buffer reads ≡ received (decode_message line) later rest)
    × Gets xs later rest

-- `write` takes the whole message in the end, and the message is within the limit for a line.
abbrev pub Passes : Message × List Written → Type 0
Passes (m, writes) =
    (length (encode_message m) ≤ taken writes) × (length (encode_message m) ≤ max_line_bytes)

abbrev lines : List (Message × List Written) → Bytes
lines [] = []
lines ((m, writes) ∷ xs) = encode_message m ++ lines xs

send-done :
    (m : Message) (writes : List Written) (out : Bytes)
    → length (encode_message m) ≤ taken writes
    → transport_send m writes out ≡ (done, out ++ encode_message m)
unfolding transport_send
send-done m writes out l =
    let h = write_all-Sends writes (encode_message m) out in let d = h.enough l in cc (d, h.whole d)

send_each-lines :
    (xs : List (Message × List Written)) (out : Bytes)
    → All Passes xs
    → send_each xs out ≡ (done, out ++ lines xs)
unfolding send_each if_done
send_each-lines [] out h = rw (append-nil out) refl
send_each-lines ((m, writes) ∷ xs) out ((l, _), h) =
    rw
      (
        send-done m writes out l,
        send_each-lines xs (out ++ encode_message m) h,
        append_assoc out (encode_message m) (lines xs),
      )
      refl

lines-Gets :
    (xs : List (Message × List Written)) (buffer : Bytes) (reads : List Read)
    → All Passes xs
    → All Delivers reads
    → buffer ++ stream reads ≡ lines xs
    → Gets xs buffer reads
lines-Gets [] buffer reads h d e = e
lines-Gets ((m, writes) ∷ xs) buffer reads ((_, l), h) d e =
    let (line, encoded, printable) = encode_message_line m in
    let short : length line < max_line_bytes =
      omega (arith, l, ap length encoded, length-append line (b'\n' ∷ [])) in
    let (later, rest, got, left, delivers) =
      recv-Receives reads buffer line (lines xs) d (printable-NoNewline line printable) short
        (e ∙ ap (λ x. x ++ lines xs) encoded ∙ append_assoc line (b'\n' ∷ []) (lines xs)) in
    (
      line,
      later,
      rest,
      encoded,
      got
          ∙ ap (λ x. received (decode_message x) later rest)
              (c_string-text line (printable-IsText line printable)),
      lines-Gets xs later rest h delivers left,
    )

-- Messages within the limit for a line are sent over a connection whose writes are cut and interrupted in any way, but
-- take all bytes in the end. Then, however the bytes are cut into chunks and the reads are interrupted, the other end
-- receives the encoded line of each message, in order, and nothing else, and decodes it.
pub send_each-Gets :
    (xs : List (Message × List Written)) (reads : List Read)
    → All Passes xs
    → All Delivers reads
    → stream reads ≡ (send_each xs []).1
    → ((send_each xs []).0 ≡ done) × Gets xs [] reads
send_each-Gets xs reads h d e =
    let sent = send_each-lines xs [] h in
    (
      ap (λ (r : Outcome × Bytes). r.0) sent,
      lines-Gets xs [] reads h d (e ∙ ap (λ (r : Outcome × Bytes). r.1) sent),
    )
