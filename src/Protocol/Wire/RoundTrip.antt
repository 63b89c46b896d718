-- ===== src/Protocol/Wire/RoundTrip.antt =====
-- A message is decoded as it was encoded.
use mathlib.Core.List.{append_cancel_right, append_assoc}
use linux_class.Common.{
  ℕ, ◌≡◌, ◌≢◌, refl, sym, ap, ◌∙◌, Bool, true, false, [], ◌∷◌, ◌++◌, Option, none, some, Bytes,
  codes, drop, if◌then◌else◌,
}
use linux_class.Common.Int.{ℤ, pos, negsuc, unset}
use linux_class.Operation.{Operation}
use linux_class.Message.{Message, operation_zero}
use linux_class.Protocol.Find.{json_get_object, json_get_string, skip_ws, is_space}
use linux_class.Protocol.Encode.{message_fields, encode_message}
use linux_class.Protocol.Decode.{
  Result, ok, err, or_default, with_original, with_op, decode_fields, decode_typed, decode_object,
  decode_message,
}
use linux_class.Protocol.Wire.{text_member, Members, members_text, members, op_value, value_text}
use linux_class.Protocol.Wire.Written.{message_fields-members}
use linux_class.Protocol.Wire.Seek.{object_text}
use linux_class.Protocol.Wire.Read.{int_found}
use linux_class.Protocol.Wire.Nested.{
  Sendable, op_received, parse-op_value, or_default-text_found, text_found-some, fit-FitsText,
}
use linux_class.Protocol.Wire.Whole.{
  Fitting, first_reason, first_reason-FitsText, reads_type, reads_client_id, reads_op_id,
  reads_base_version, reads_server_version, reads_version, reads_history_start_version, reads_op,
  reads_original_op, reads_message, reads_reason, reads_content,
}

abbrev pub int_received : ℤ → ℤ
int_received (pos n) = pos n
int_received (negsuc n) = unset

abbrev pub nested_received : Bool → Operation → Operation
nested_received has o = if has then op_received o else operation_zero

-- What the other end gets: a negative number is not sent, and the reason is the first one in the text.
abbrev pub message_received : Message → Message
message_received m = record m {
  base_version = int_received m.base_version;
  server_version = int_received m.server_version;
  version = int_received m.version;
  history_start_version = int_received m.history_start_version;
  op = nested_received m.has_op m.op;
  original_op = nested_received m.has_original_op m.original_op;
  reason = first_reason m;
}

or_default-int_found : (n : ℤ) → or_default unset (int_found n) ≡ int_received n
or_default-int_found (pos n) = refl
or_default-int_found (negsuc n) = refl

module _ (m : Message) (o : Operation) where
  with_op_read :
      (has : Bool)
      → (has ≡ true → Sendable o)
      → with_op
          (record m { op = operation_zero; has_op = false })
          (if has then some (value_text (op_value o) []) else none)
        ≡ ok (record m { op = nested_received has o; has_op = has })
  unfolding with_op
  with_op_read false h = refl
  with_op_read true h = rw (parse-op_value o (h refl), with_op) refl

  with_original_read :
      (has : Bool)
      → (has ≡ true → Sendable o)
      → with_original
          (record m { original_op = operation_zero; has_original_op = false })
          (if has then some (value_text (op_value o) []) else none)
        ≡ record m { original_op = nested_received has o; has_original_op = has }
  unfolding with_original
  with_original_read false h = refl
  with_original_read true h = rw (parse-op_value o (h refl), with_original) refl

abbrev finish : Option Bytes → Result Message → Result Message
finish o (ok m) = ok (with_original m o)
finish o (err text) = err text

decode_typed_steps :
    (json type : Bytes) (m m' : Message) (o o' : Option Bytes)
    → decode_fields json type ≡ m
    → json_get_object json (codes "op") ≡ o
    → with_op m o ≡ ok m'
    → json_get_object json (codes "original_op") ≡ o'
    → decode_typed json (some type) ≡ ok (with_original m' o')
unfolding decode_typed
decode_typed_steps json type m m' o o' a b c d =
    let original = json_get_object json (codes "original_op") in
    ap (λ x. finish original (with_op x (json_get_object json (codes "op")))) a
    ∙ ap (λ x. finish original (with_op m x)) b
    ∙ ap (finish original) c
    ∙ ap (λ x. ok (with_original m' x)) d

decode_message_steps :
    (rest type : Bytes)
    → json_get_string (b'{' ∷ rest) (codes "type") 32 ≡ some type
    → decode_message (b'{' ∷ rest) ≡ decode_typed (b'{' ∷ rest) (some type)
unfolding decode_message decode_object skip_ws is_space
decode_message_steps rest type e = ap (decode_typed (b'{' ∷ rest)) e

nonempty : (s : Bytes) → s ≢ [] → (c : ℕ) × (r : Bytes) × (s ≡ c ∷ r)
nonempty [] h = absurd (h refl)
nonempty (c ∷ r) h = (c, r, refl)

abbrev braced : Members → Bytes
braced ms = b'{' ∷ drop 1 (members_text ms (b'}' ∷ []))

object_text-braced :
    (s : Bytes) (ms : Members)
    → s ≢ []
    → object_text (text_member (codes "type") s ++ ms) ≡ braced (text_member (codes "type") s ++ ms)
object_text-braced [] ms h = absurd (h refl)
object_text-braced (c ∷ s) ms h = refl

-- What the text has outside of its operations.
abbrev outer : Message → Message
outer m = record (message_received m) {
  op = operation_zero;
  has_op = false;
  original_op = operation_zero;
  has_original_op = false;
}

module _ (m : Message) (h : Fitting m) where
  abbrev whole : Bytes
  whole = object_text (members m)

  decode_fields_read : decode_fields whole m.type ≡ outer m
  unfolding decode_fields
  decode_fields_read =
      rw
        (
          reads_client_id m h,
          reads_op_id m h,
          reads_base_version m h,
          reads_server_version m h,
          reads_version m h,
          reads_history_start_version m h,
          reads_message m h,
          reads_reason m h,
          reads_content m h,
        )
        (rw
          (
            or_default-text_found 64 m.client_id (fit-FitsText 64 m.client_id h.client_id),
            or_default-text_found 64 m.op_id (fit-FitsText 64 m.op_id h.op_id),
            or_default-text_found 160 m.message (fit-FitsText 160 m.message h.message),
            or_default-text_found 160 (first_reason m)
                (fit-FitsText 160 (first_reason m) (first_reason-FitsText m h)),
            or_default-int_found m.base_version,
            or_default-int_found m.server_version,
            or_default-int_found m.version,
            or_default-int_found m.history_start_version,
          )
          refl)

  decode_typed_read : decode_typed whole (some m.type) ≡ ok (message_received m)
  decode_typed_read =
      decode_typed_steps whole m.type (outer m)
        (record (outer m) { op = nested_received m.has_op m.op; has_op = m.has_op }) _ _
        decode_fields_read (reads_op m h) (with_op_read (outer m) m.op m.has_op h.op)
        (reads_original_op m h)
      ∙ ap ok (
          with_original_read
            (record (message_received m) { original_op = operation_zero; has_original_op = false })
            m.original_op m.has_original_op h.original_op)

  same_text : whole ≡ braced (members m)
  same_text = object_text-braced m.type _ h.typed

  decode_braced : decode_message (braced (members m)) ≡ ok (message_received m)
  decode_braced =
      decode_message_steps _ m.type (
        ap (λ xs. json_get_string xs (codes "type") 32) (sym same_text)
        ∙ reads_type m h
        ∙ text_found-some 32 m.type (fit-FitsText 32 m.type h.type) h.typed)
      ∙ ap (λ xs. decode_typed xs (some m.type)) (sym same_text)
      ∙ decode_typed_read

-- The line of an encoded message is decoded as that message, where its type is not empty, its texts have no zero byte and fit into
-- their buffers, its numbers and positions are below 2^31, and its operations are of a known kind, an insertion with one
-- character. Only a negative number comes back as -1, an operation that is not sent as the initial one, one that is no
-- insertion without its character, and the reason is that of an operation, if one has a reason, and else its own.
pub decode-encode_message :
    (m : Message) (line : Bytes)
    → Fitting m
    → encode_message m ≡ line ++ b'\n' ∷ []
    → decode_message line ≡ ok (message_received m)
unfolding encode_message
decode-encode_message m line h e =
    let (c, s, typed) = nonempty m.type h.typed in
    let ends = append_assoc (message_fields m).sb (codes "}") (b'\n' ∷ []) ∙ e in
    let text =
      sym (append_cancel_right _ line (b'\n' ∷ []) ends)
      ∙ message_fields-members m c s (codes "}") typed in
    ap decode_message text ∙ decode_braced m h
