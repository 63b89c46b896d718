-- ===== src/Protocol/Transport.antt =====
-- The transport of protocol.c: messages out, and messages in from a stream that arrives in chunks.
-- What `read` and `write` do is given; a chunk is no longer than the room that `read` was given.
pub mod Chunks
pub mod Link
pub mod Arrival
use linux_class.Common.{
  ℕ, suc, ◌+◌, ◌*◌, ◌≤◌, Bool, true, false, List, [], ◌∷◌, ◌++◌, Option, none, some, Bytes, codes,
  leb, ◌==◌, if◌then◌else◌, length, fit,
}
use linux_class.Output.{Written, Outcome, write_all}
use linux_class.Message.{Message}
use linux_class.Protocol.Encode.{encode_message}
use linux_class.Protocol.Decode.{Result, ok, err, decode_message}

abbrev pub max_line_bytes : ℕ
max_line_bytes = 1024 * 1024

-- What one call of `read` returns: bytes, or none at the end of the stream; -1 with EINTR; -1 with
-- another error, whose text it is.
pub data Read : Type 0 where
  chunk : Bytes → Read
  interrupted : Read
  failed : Bytes → Read

-- `received` has the decoder's result, the buffer, and the reads that are left. `broken` is a return of -1
-- with its text. `blocked` waits for more.
pub data Received : Type 0 where
  received : Result Message → Bytes → List Read → Received
  broken : Bytes → Received
  blocked : Bytes → Received

-- The line before the first newline, and what stands behind it.
unfoldable pub split_line : Bytes → Option (Bytes × Bytes)
split_line [] = none
split_line (c ∷ cs) =
    if c == b'\n'
    then some ([], cs)
    else elim (split_line cs) [ none ↦ none | some (line, rest) ↦ some (c ∷ line, rest) ]

-- A line is decoded as a C string.
unfoldable pub c_string : Bytes → Bytes
c_string [] = []
c_string (c ∷ cs) = let rest = c ∷ c_string cs in if c == 0 then [] else rest

-- `ts_transport_recv` after its loop over the buffer: a line, or else the next read, whose result
-- `more` is.
unfoldable pub recv_step : Bytes → List Read → Received → Received
recv_step buffer reads more = elim (split_line buffer) [
  | some (line, rest) ↦ received (decode_message (c_string line)) rest reads
  | none ↦
      if leb max_line_bytes (length buffer)
      then broken (codes "protocol message exceeds maximum line length")
      else more
]

unfoldable pub recv : Bytes → List Read → Received
unfolding recv_step
recv buffer [] = recv_step buffer [] (blocked buffer)
recv buffer (chunk [] ∷ reads) =
    recv_step buffer (chunk [] ∷ reads) (broken (codes "connection closed"))
recv buffer (chunk (c ∷ cs) ∷ reads) =
    let more = recv (buffer ++ c ∷ cs) reads in recv_step buffer (chunk (c ∷ cs) ∷ reads) more
recv buffer (interrupted ∷ reads) =
    let more = recv buffer reads in recv_step buffer (interrupted ∷ reads) more
recv buffer (failed text ∷ reads) =
    recv_step buffer (failed text ∷ reads) (broken (codes "socket read failed: " ++ text))

-- `ts_transport_send`, in one step under the send lock: what `write` does is given, and `out` is what went out before.
unfoldable pub transport_send : Message → List Written → Bytes → Outcome × Bytes
transport_send m writes out = write_all writes (encode_message m) out
