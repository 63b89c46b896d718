-- ===== src/Tests/Lines.antt =====
-- The two ends of a connection, at concrete inputs.
use linux_class.Common.{◌≡◌, refl, [], ◌∷◌, ◌++◌, Bytes, codes, arith}
use linux_class.Utf8.{char_count, is_utf8_continuation}
use linux_class.Message.{Message}
use linux_class.ClientState.{handle_message}
use linux_class.ClientState.Mirror.{Follows}
use linux_class.Server.Dispatch.{dispatch_message}
use linux_class.Protocol.Json.{escape_byte}
use linux_class.Protocol.Encode.{encode_message}
use linux_class.Protocol.Decode.{ok, decode_message}
use linux_class.Protocol.Wire.Whole.{Fitting}
use linux_class.EndToEnd.{Plain, handle_message-decode_message, sent_line-Follows}
use linux_class.Tests.Protocols.{typed_newline, typed_line, typed_newline-Fitting, typed_sent}
use linux_class.Tests.Clients.{growing, waiting, acked, one_client, one_client-Truthful}
use linux_class.Tests.Dispatches.{empty_server, caller}

typed_newline-Plain : Plain typed_newline
typed_newline-Plain = record {
  base_version = omega arith;
  server_version = omega arith;
  version = omega arith;
  history_start_version = omega arith;
  char = λ e n. absurd (n refl);
}

handle_message-decode_message_example :
    (m' : Message) × (decode_message typed_line ≡ ok m')
    × (handle_message waiting m' ≡ handle_message waiting typed_newline)
    × (dispatch_message empty_server caller m' ≡ dispatch_message empty_server caller typed_newline)
handle_message-decode_message_example =
    handle_message-decode_message typed_newline typed_line waiting empty_server caller
      typed_newline-Fitting typed_newline-Plain typed_sent

acked-Fitting : Fitting (acked 3)
unfolding char_count is_utf8_continuation
acked-Fitting = record {
  typed = λ e. cc;
  type = ground arith;
  client_id = ground arith;
  op_id = ground arith;
  message = ground arith;
  reason = ground arith;
  base_version = omega arith;
  server_version = omega arith;
  version = omega arith;
  history_start_version = omega arith;
  op = λ e. record {
    known = λ d. cc;
    near = omega arith;
    one_char = λ d. refl;
    char = ground arith;
    reason = ground arith;
  };
  original_op = λ e. cc;
  content = λ s e. cc;
}

acked-Plain : Plain (acked 3)
acked-Plain = record {
  base_version = omega arith;
  server_version = omega arith;
  version = omega arith;
  history_start_version = omega arith;
  char = λ e n. absurd (n refl);
}

abbrev acked_line : Bytes
acked_line =
    codes
      "{\"type\":\"ACK\",\"op_id\":\"u-1\",\"version\":3,\"op\":{\"kind\":\"insert\",\"pos\":0,\"char\":\"x\"}}"

acked_sent : encode_message (acked 3) ≡ acked_line ++ b'\n' ∷ []
unfolding encode_message escape_byte
acked_sent = refl

sent_line-Follows_example :
    (m' : Message) × (decode_message acked_line ≡ ok m')
    × Follows growing (handle_message waiting m')
sent_line-Follows_example =
    sent_line-Follows growing one_client 0 0
      (record { fd = 4; client_id = codes "u"; address = []; outbox = acked 3 ∷ [] }) (acked 3)
      acked_line waiting one_client-Truthful refl refl acked-Fitting acked-Plain acked_sent
      (record { same = refl; can = refl }) (λ e i o. refl)
