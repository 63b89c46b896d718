-- ===== src/Protocol/Encode.antt =====
-- The encoder of protocol.c. A string builder is the bytes that it holds; growing it succeeds.
pub mod OneLine
use linux_class.Common.{
  ℕ, Bool, true, false, List, [], ◌∷◌, ◌++◌, Option, none, some, Bytes, codes, str_eq, print_nat,
  if◌then◌else◌,
}
use linux_class.Common.Int.{ℤ, pos, ltb_ℤ, print_int}
use linux_class.Operation.{OpKind, invalid, insert, delete, noop, Operation, kind_name}
use linux_class.Message.{Message}
use linux_class.Protocol.Json.{json_escape}

-- The text so far, and `first`.
pub record Builder : Type 0 where
  pub sb : Bytes
  pub first : Bool

unfoldable pub append : Builder → Bytes → Builder
append b text = record b { sb = b.sb ++ text }

unfoldable pub quoted : Bytes → Bytes
unfolding json_escape
quoted value = b'"' ∷ (json_escape value ++ (b'"' ∷ []))

unfoldable pub append_json_field_prefix : Builder → Bytes → Builder
append_json_field_prefix b name = record {
  sb = b.sb ++ ((if b.first then [] else codes ",") ++ (b'"' ∷ (name ++ codes "\":")));
  first = false;
}

unfoldable pub append_string_field : Bytes → Bytes → Builder → Builder
unfolding append quoted append_json_field_prefix
append_string_field name [] b = b
append_string_field name (c ∷ value) b =
    append (append_json_field_prefix b name) (quoted (c ∷ value))

unfoldable pub append_int_field : Bytes → ℤ → Builder → Builder
unfolding append append_json_field_prefix print_int
append_int_field name value b =
    if ltb_ℤ value (pos 0) then b else append (append_json_field_prefix b name) (print_int value)

unfoldable pub char_member : OpKind → Bytes → Bytes
unfolding quoted
char_member insert ch = codes ",\"char\":" ++ quoted ch
char_member _ ch = []

unfoldable pub reason_member : Bytes → Bytes
unfolding quoted
reason_member [] = []
reason_member (c ∷ reason) = codes ",\"reason\":" ++ quoted (c ∷ reason)

unfoldable pub append_operation_field : Bytes → Operation → Builder → Builder
unfolding append append_json_field_prefix char_member reason_member kind_name print_nat
append_operation_field name op b = append (append_json_field_prefix b name) (
    codes "{\"kind\":\""
    ++ (kind_name op.kind
        ++ (codes "\",\"pos\":"
            ++ (print_nat op.pos
                ++ (char_member op.kind op.ch ++ (reason_member op.reason ++ codes "}"))))))

unfoldable pub append_content_field : Option Bytes → Builder → Builder
unfolding append append_json_field_prefix quoted
append_content_field none b = b
append_content_field (some content) b =
    append (append_json_field_prefix b (codes "content")) (quoted content)

-- `ts_encode_message`, up to its `}\n`.
unfoldable pub message_fields : Message → Builder
unfolding append_string_field append_int_field append_operation_field append_content_field
message_fields m =
    let b1 = append_string_field (codes "type") m.type (record { sb = codes "{"; first = true }) in
    let b2 = append_string_field (codes "client_id") m.client_id b1 in
    let b3 = append_string_field (codes "op_id") m.op_id b2 in
    let b4 = append_int_field (codes "base_version") m.base_version b3 in
    let b5 = append_int_field (codes "server_version") m.server_version b4 in
    let b6 = append_int_field (codes "version") m.version b5 in
    let b7 = append_int_field (codes "history_start_version") m.history_start_version b6 in
    let b8 = if m.has_op then append_operation_field (codes "op") m.op b7 else b7 in
    let b9 =
      if m.has_original_op
      then append_operation_field (codes "original_op") m.original_op b8
      else b8 in
    let b10 = append_string_field (codes "message") m.message b9 in
    let b11 = append_string_field (codes "reason") m.reason b10 in
    append_content_field m.content b11

unfoldable pub encode_message : Message → Bytes
unfolding message_fields
encode_message m = (message_fields m).sb ++ codes "}\n"
