-- ===== src/Terminal/Reader.antt =====
-- client.c: `reader_main`, the thread that receives the server's messages and pushes them.
use linux_class.Common.{
  ℕ, zero, suc, ◌+◌, ◌≡◌, refl, ap, ◌∙◌, List, [], ◌∷◌, ◌++◌, arith, length, All, Bytes, codes, fit,
  take,
}
use linux_class.Message.{Message, message_init}
use linux_class.Output.{Written}
use linux_class.Protocol.Decode.{ok, err}
use linux_class.Protocol.Transport.{Read, received, broken, blocked, recv}
use linux_class.Protocol.Transport.Chunks.{stream, Delivers}
use linux_class.Protocol.Transport.Link.{Passes, send_each}
use linux_class.Protocol.Transport.Arrival.{Arrives, send_each-Arrives}
use linux_class.Protocol.Wire.Whole.{Fitting}
use linux_class.Protocol.Wire.RoundTrip.{message_received}

-- A failure, in the buffer of 256 bytes, as a message to the main thread.
unfoldable pub failure_message : Bytes → Message
failure_message error = record message_init {
  type = codes "ERROR";
  message = take 150 (fit 256 error);
}

-- The messages that are pushed, in order; `turns` is how often `running` is seen true. A thread that
-- waits for more bytes pushes nothing.
unfoldable pub reader_main : ℕ → Bytes → List Read → List Message
unfolding failure_message
reader_main zero buffer reads = []
reader_main (suc turns) buffer reads = elim (recv buffer reads) [
  | received result buffer' reads' ↦ elim result [
    | ok m ↦ m ∷ reader_main turns buffer' reads'
    | err error ↦ failure_message error ∷ []
  ]
  | broken error ↦ failure_message error ∷ []
  | blocked buffer' ↦ []
]

abbrev pub received_messages : List (Message × List Written) → List Message
received_messages [] = []
received_messages ((m, writes) ∷ xs) = message_received m ∷ received_messages xs

Arrives-reader_main :
    (xs : List (Message × List Written)) (n : ℕ) (buffer : Bytes) (reads : List Read)
    → Arrives xs buffer reads
    → (behind : List Message) × (reader_main (length xs + n) buffer reads
        ≡ received_messages xs ++ behind)
unfolding reader_main
Arrives-reader_main [] n buffer reads h = (reader_main (0 + n) buffer reads, refl)
Arrives-reader_main ((m, writes) ∷ xs) n buffer reads (later, rest, got, more) =
    let (behind, e) = Arrives-reader_main xs n later rest more in
    let turn : suc (length xs) + n ≡ suc (length xs + n) = omega arith in
    (
      behind,
      ap (λ turns. reader_main turns buffer reads) turn
          ∙ rw (got, reader_main) (ap (◌∷◌ (message_received m)) e),
    )

-- Messages whose parts fit, and which are within the limit for a line, are sent over a connection whose writes are cut and
-- interrupted in any way, but take all bytes in the end. Then, however the bytes are cut into chunks and the reads are
-- interrupted, the reader thread that runs for as many turns pushes these messages first, in order, as they are after one round trip.
pub reader_main-send_each :
    (xs : List (Message × List Written)) (reads : List Read) (n : ℕ)
    → All Passes xs
    → All (λ (x : Message × List Written). Fitting x.0) xs
    → All Delivers reads
    → stream reads ≡ (send_each xs []).1
    → (behind : List Message) × (reader_main (length xs + n) [] reads
        ≡ received_messages xs ++ behind)
reader_main-send_each xs reads n passes fits delivers e =
    Arrives-reader_main xs n [] reads (send_each-Arrives xs reads passes fits delivers e).1
