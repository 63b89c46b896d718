-- ===== src/Protocol/Transport/Arrival.antt =====
-- Messages go over a connection and are the same at its other end.
use linux_class.Common.{◌≡◌, ap, ◌∙◌, List, [], ◌∷◌, ◌++◌, All, Bytes}
use linux_class.Message.{Message}
use linux_class.Output.{Written, done}
use linux_class.Protocol.Decode.{ok}
use linux_class.Protocol.Transport.{Read, recv, received}
use linux_class.Protocol.Transport.Chunks.{stream, Delivers}
use linux_class.Protocol.Transport.Link.{Gets, Passes, send_each, send_each-Gets}
use linux_class.Protocol.Wire.Whole.{Fitting}
use linux_class.Protocol.Wire.RoundTrip.{message_received, decode-encode_message}

-- Each call of `recv` gets the next message, and behind the last one there is nothing.
abbrev pub Arrives : List (Message × List Written) → Bytes → List Read → Type 0
Arrives [] buffer reads = buffer ++ stream reads ≡ []
Arrives ((m, writes) ∷ xs) buffer reads =
    (later : Bytes) × (rest : List Read) × (recv buffer reads
      ≡ received (ok (message_received m)) later rest)
    × Arrives xs later rest

Gets-Arrives :
    (xs : List (Message × List Written)) (buffer : Bytes) (reads : List Read)
    → All (λ (x : Message × List Written). Fitting x.0) xs
    → Gets xs buffer reads
    → Arrives xs buffer reads
Gets-Arrives [] buffer reads h e = e
Gets-Arrives ((m, writes) ∷ xs) buffer reads (f, h) (line, later, rest, encoded, got, more) = (
  later,
  rest,
  got ∙ ap (λ r. received r later rest) (decode-encode_message m line f encoded),
  Gets-Arrives xs later rest h more,
)

-- Messages whose parts fit, and which are within the limit for a line, are sent over a connection whose writes are cut and
-- interrupted in any way, but take all bytes in the end. Then, however the bytes are cut into chunks and the reads are
-- interrupted, the other end receives these messages, in order, as they are after one round trip, and nothing else.
pub send_each-Arrives :
    (xs : List (Message × List Written)) (reads : List Read)
    → All Passes xs
    → All (λ (x : Message × List Written). Fitting x.0) xs
    → All Delivers reads
    → stream reads ≡ (send_each xs []).1
    → ((send_each xs []).0 ≡ done) × Arrives xs [] reads
send_each-Arrives xs reads h f d e =
    let (sent, got) = send_each-Gets xs reads h d e in (sent, Gets-Arrives xs [] reads f got)
