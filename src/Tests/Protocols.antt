-- ===== src/Tests/Protocols.antt =====
-- The wire format, at concrete inputs.
use linux_class.Common.{◌≡◌, refl, [], ◌∷◌, ◌++◌, Bytes, codes, true, arith}
use linux_class.Common.Int.{pos}
use linux_class.Operation.{insert}
use linux_class.Message.{Message, message_init}
use linux_class.Protocol.Json.{escape_byte}
use linux_class.Protocol.Decode.{ok, decode_message}
use linux_class.Protocol.Wire.Whole.{Fitting}
use linux_class.Protocol.Wire.RoundTrip.{message_received, decode-encode_message}
use linux_class.Utf8.{char_count, is_utf8_continuation}
use linux_class.Protocol.Encode.{encode_message}

abbrev pub typed_newline : Message
typed_newline = record message_init {
  type = codes "OP";
  op_id = codes "u1-1";
  base_version = pos 12;
  has_op = true;
  op = record { kind = insert; pos = 7; ch = b'\n' ∷ []; reason = [] };
}

abbrev pub typed_line : Bytes
typed_line =
    codes
      "{\"type\":\"OP\",\"op_id\":\"u1-1\",\"base_version\":12,\"op\":{\"kind\":\"insert\",\"pos\":7,\"char\":\"\\n\"}}"

pub typed_newline-Fitting : Fitting typed_newline
unfolding char_count is_utf8_continuation
typed_newline-Fitting = record {
  typed = λ e. cc;
  type = ground arith;
  client_id = ground arith;
  op_id = ground arith;
  message = ground arith;
  reason = ground arith;
  base_version = omega arith;
  server_version = omega arith;
  version = omega arith;
  history_start_version = omega arith;
  op = λ e. record {
    known = λ d. cc;
    near = omega arith;
    one_char = λ d. refl;
    char = ground arith;
    reason = ground arith;
  };
  original_op = λ e. cc;
  content = λ s e. cc;
}

pub typed_sent : encode_message typed_newline ≡ typed_line ++ b'\n' ∷ []
unfolding encode_message escape_byte
typed_sent = refl

decode-encode_message_example : decode_message typed_line ≡ ok (message_received typed_newline)
decode-encode_message_example =
    decode-encode_message typed_newline typed_line typed_newline-Fitting typed_sent
