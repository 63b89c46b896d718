-- ===== src/Protocol/Decode.antt =====
-- The decoder of protocol.c. The error texts are shorter than the callers' buffers of 256 bytes.
use linux_class.Common.{true, [], ◌∷◌, ◌++◌, Option, none, some, Bytes, codes, ◌==◌, if◌then◌else◌}
use linux_class.Common.Int.{pos, pos_part, unset}
use linux_class.Utf8.{char_count}
use linux_class.Operation.{OpKind, invalid, insert, Operation, kind_from_name}
use linux_class.Message.{Message, message_init}
use linux_class.Protocol.Find.{
  skip_ws, json_get_string, json_get_content, json_get_int, json_get_object,
}

-- A return of -1 comes with the error's text.
pub data Result {ℓ} (A : Type ℓ) : Type ℓ where
  ok : A → Result A
  err : Bytes → Result A

abbrev pub or_default {ℓ} : {A : Type ℓ} → A → Option A → A
or_default d none = d
or_default d (some a) = a

unfoldable pub operation_insert : Operation → Option Bytes → Result Operation
unfolding char_count
operation_insert op none = err (codes "insert operation requires one UTF-8 character")
operation_insert op (some ch) =
    if char_count ch == 1
    then ok (record op { ch = ch })
    else err (codes "insert operation requires one UTF-8 character")

unfoldable pub operation_kind : OpKind → Bytes → Bytes → Operation → Result Operation
unfolding operation_insert json_get_string
operation_kind invalid kind json op = err (codes "unsupported operation kind: " ++ kind)
operation_kind insert kind json op = operation_insert op (json_get_string json (codes "char") 8)
operation_kind _ kind json op = ok op

unfoldable pub operation_named : Bytes → Option Bytes → Result Operation
unfolding operation_kind kind_from_name json_get_int json_get_string
operation_named json none = err (codes "operation kind is required")
operation_named json (some kind) = operation_kind (kind_from_name (some kind)) kind json (record {
  kind = kind_from_name (some kind);
  pos = pos_part (or_default (pos 0) (json_get_int json (codes "pos")));
  ch = [];
  reason = or_default [] (json_get_string json (codes "reason") 160);
})

unfoldable pub parse_operation_object : Bytes → Result Operation
unfolding operation_named json_get_string
parse_operation_object json = operation_named json (json_get_string json (codes "kind") 32)

-- A bad `original_op` is passed over: the flag stays false, and nothing reads the field then.
unfoldable pub with_original : Message → Option Bytes → Message
unfolding parse_operation_object
with_original m none = m
with_original m (some json) = elim (parse_operation_object json) [
  | ok op ↦ record m { original_op = op; has_original_op = true }
  | err _ ↦ m
]

unfoldable pub with_op : Message → Option Bytes → Result Message
unfolding parse_operation_object
with_op m none = ok m
with_op m (some json) = elim (parse_operation_object json) [
  | ok op ↦ ok (record m { op = op; has_op = true })
  | err text ↦ err text
]

unfoldable pub decode_fields : Bytes → Bytes → Message
unfolding json_get_string json_get_int json_get_content
decode_fields json type = record message_init {
  type = type;
  client_id = or_default [] (json_get_string json (codes "client_id") 64);
  op_id = or_default [] (json_get_string json (codes "op_id") 64);
  message = or_default [] (json_get_string json (codes "message") 160);
  reason = or_default [] (json_get_string json (codes "reason") 160);
  base_version = or_default unset (json_get_int json (codes "base_version"));
  server_version = or_default unset (json_get_int json (codes "server_version"));
  version = or_default unset (json_get_int json (codes "version"));
  history_start_version = or_default unset (json_get_int json (codes "history_start_version"));
  content = json_get_content json (codes "content");
}

unfoldable pub decode_typed : Bytes → Option Bytes → Result Message
unfolding decode_fields with_op with_original json_get_object
decode_typed json none = err (codes "message type is required")
decode_typed json (some type) =
    elim (with_op (decode_fields json type) (json_get_object json (codes "op"))) [
      | ok m ↦ ok (with_original m (json_get_object json (codes "original_op")))
      | err text ↦ err text
    ]

unfoldable pub decode_object : Bytes → Result Message
unfolding decode_typed json_get_string
decode_object [] = err (codes "protocol message must be a JSON object")
decode_object (c ∷ json) =
    if c == b'{'
    then decode_typed (c ∷ json) (json_get_string (c ∷ json) (codes "type") 32)
    else err (codes "protocol message must be a JSON object")

unfoldable pub decode_message : Bytes → Result Message
unfolding decode_object skip_ws
decode_message line = decode_object (skip_ws line)
