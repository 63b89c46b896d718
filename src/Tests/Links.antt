-- ===== src/Tests/Links.antt =====
-- Writing to a descriptor, and a connection, at concrete inputs.
use linux_class.Common.{length, ◌+◌, ◌++◌, ◌≡◌, refl, List, [], ◌∷◌, codes, arith, All}
use linux_class.Message.{Message, message_init}
use linux_class.Output.{Written, wrote, interrupted, done, write_all}
use linux_class.Protocol.Json.{escape_byte}
use linux_class.Protocol.Encode.{encode_message}
use linux_class.Protocol.Transport.{Read, chunk, transport_send}
use linux_class.Protocol.Transport.Chunks.{stream, Delivers}
use linux_class.Protocol.Transport.Link.{if_done, send_each, Passes}
use linux_class.Protocol.Transport.Arrival.{Arrives, send_each-Arrives}
use linux_class.Terminal.Reader.{reader_main, received_messages, reader_main-send_each}
use linux_class.Protocol.Wire.Whole.{Fitting}

-- Two pings; the first takes three calls of `write`.
abbrev ping : Message
ping = record message_init { type = codes "PING" }

abbrev pings : List (Message × List Written)
pings = (ping, wrote 4 ∷ interrupted ∷ wrote 100 ∷ []) ∷ (ping, wrote 100 ∷ []) ∷ []

pings-Passes : All Passes pings
unfolding encode_message escape_byte
pings-Passes = ((omega arith, omega arith), ((omega arith, omega arith), tt))

-- The reads cut the first line.
abbrev reads : List Read
reads = chunk (codes "{\"ty") ∷ chunk (codes "pe\":\"PING\"}\n{\"type\":\"PING\"}\n") ∷ []

reads-Delivers : All Delivers reads
reads-Delivers = ((λ e. cc), ((λ e. cc), tt))

pings_sent : stream reads ≡ (send_each pings []).1
unfolding send_each if_done transport_send write_all encode_message escape_byte
pings_sent = refl

ping-Fitting : Fitting ping
ping-Fitting = record {
  typed = λ e. cc;
  type = ground arith;
  client_id = ground arith;
  op_id = ground arith;
  message = ground arith;
  reason = ground arith;
  base_version = omega arith;
  server_version = omega arith;
  version = omega arith;
  history_start_version = omega arith;
  op = λ e. cc;
  original_op = λ e. cc;
  content = λ s e. cc;
}

send_each-Arrives_example : ((send_each pings []).0 ≡ done) × Arrives pings [] reads
send_each-Arrives_example =
    send_each-Arrives pings reads pings-Passes (ping-Fitting, (ping-Fitting, tt)) reads-Delivers
      pings_sent

reader_main-send_each_example :
    (behind : List Message) × (reader_main (length pings + 1) [] reads
      ≡ received_messages pings ++ behind)
reader_main-send_each_example =
    reader_main-send_each pings reads 1 pings-Passes (ping-Fitting, (ping-Fitting, tt))
      reads-Delivers pings_sent
