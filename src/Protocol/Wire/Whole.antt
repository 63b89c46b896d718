-- ===== src/Protocol/Wire/Whole.antt =====
-- The readers on the text of a whole message.
use linux_class.Common.{
  ◌^◌, ◌<◌, ◌≡◌, ◌≢◌, refl, sym, subst, Bool, true, false, [], ◌∷◌, ◌++◌, Option, none, some, arith,
  Bytes, codes, str_eq, drop, if◌then◌else◌,
}
use linux_class.Common.Int.{pos_part}
use linux_class.Operation.{Operation, OpKind, invalid, insert, delete, noop}
use linux_class.Message.{Message}
use linux_class.Protocol.Json.RoundTrip.{IsText}
use linux_class.Protocol.Find.{json_get_string, json_get_int, json_get_content, json_get_object}
use linux_class.Protocol.Wire.{
  Members, members_text, or_else, field_at, inside, op_value, value_text, char_fields,
  reason_fields, op_member, filled, slots, members,
}
use linux_class.Protocol.Wire.Lookup.{Named}
use linux_class.Protocol.Wire.Names.{filled-Named, slots-NamedSlot}
use linux_class.Protocol.Wire.Seek.{object_text, found, member_at-seek}
use linux_class.Protocol.Wire.Read.{
  Reads, text_found, int_found, text-Reads, json_get_string_read, json_get_int_read,
  json_get_content_read, json_get_object_read,
}
use linux_class.Protocol.Wire.Nested.{FitsText, Sendable}

-- A message of the program: its texts fit into their buffers, and its numbers into an `int`.
pub record Fitting (m : Message) : Type 0 where
  pub typed : m.type ≢ []
  pub type : FitsText 32 m.type
  pub client_id : FitsText 64 m.client_id
  pub op_id : FitsText 64 m.op_id
  pub message : FitsText 160 m.message
  pub reason : FitsText 160 m.reason
  pub base_version : pos_part m.base_version < 2 ^ 31
  pub server_version : pos_part m.server_version < 2 ^ 31
  pub version : pos_part m.version < 2 ^ 31
  pub history_start_version : pos_part m.history_start_version < 2 ^ 31
  pub op : m.has_op ≡ true → Sendable m.op
  pub original_op : m.has_original_op ≡ true → Sendable m.original_op
  pub content : (s : Bytes) → m.content ≡ some s → IsText s

-- The first of two reasons.
abbrev pub first_of : Bytes → Bytes → Bytes
first_of [] r = r
first_of (c ∷ s) r = c ∷ s

abbrev pub reason_within : Bool → Operation → Bytes
reason_within false o = []
reason_within true o = o.reason

or_else-Reads :
    (a b : Option Bytes) (s r : Bytes) → Reads a s → Reads b r → Reads (or_else a b) (first_of s r)
or_else-Reads a b [] r e h = rw e h
or_else-Reads a b (c ∷ s) r (rest, e) h = (rest, rw e refl)

inside-Reads :
    (o : Operation) (rest : Bytes) → Reads (inside (codes "reason") (op_value o) rest) o.reason
unfolding str_eq
inside-Reads o rest = at_kind o.kind o.reason
  where
    at_kind :
        (kind : OpKind) (r : Bytes)
        → Reads
            (field_at (codes "reason") (char_fields kind o.ch ++ reason_fields r) (b'}' ∷ rest))
            r
    at_kind insert [] = refl
    at_kind insert (c ∷ s) = (b'}' ∷ rest, refl)
    at_kind invalid [] = refl
    at_kind invalid (c ∷ s) = (b'}' ∷ rest, refl)
    at_kind delete [] = refl
    at_kind delete (c ∷ s) = (b'}' ∷ rest, refl)
    at_kind noop [] = refl
    at_kind noop (c ∷ s) = (b'}' ∷ rest, refl)

within-Reads :
    (k : Bytes) (has : Bool) (o : Operation) (ms : Members) (r : Bytes)
    → str_eq k (codes "reason") ≡ false
    → Reads (found (codes "reason") ms) r
    → Reads (found (codes "reason") (op_member k has o ++ ms)) (first_of (reason_within has o) r)
within-Reads k false o ms r e h = h
within-Reads k true o ms r e h =
    let rest = members_text ms (b'}' ∷ []) in
    rw e (
      or_else-Reads (inside (codes "reason") (op_value o) rest) (found (codes "reason") ms) o.reason
        r (inside-Reads o rest) h)

within-FitsText :
    (has : Bool) (o : Operation) → (has ≡ true → Sendable o) → FitsText 160 (reason_within has o)
within-FitsText false o h = (omega arith, tt)
within-FitsText true o h = (h refl).reason

first_of-FitsText : (s r : Bytes) → FitsText 160 s → FitsText 160 r → FitsText 160 (first_of s r)
first_of-FitsText [] r a b = b
first_of-FitsText (c ∷ s) r a b = a

abbrev pub first_reason : Message → Bytes
first_reason m =
    first_of (reason_within m.has_op m.op)
      (first_of (reason_within m.has_original_op m.original_op) m.reason)

module _ (m : Message) (h : Fitting m) where
  abbrev whole : Bytes
  whole = object_text (members m)

  named : Named (members m)
  named = filled-Named (slots m) (slots-NamedSlot m)

  pub reads_type : json_get_string whole (codes "type") 32 ≡ text_found 32 m.type
  unfolding str_eq
  reads_type =
      json_get_string_read (codes "type") (slots m) [] (ground arith, refl) named m.type 32 h.type.1
        (text-Reads (codes "type") m.type (drop 1 (slots m)) refl)

  pub reads_client_id : json_get_string whole (codes "client_id") 64 ≡ text_found 64 m.client_id
  unfolding str_eq
  reads_client_id =
      json_get_string_read (codes "client_id") (slots m) [] (ground arith, refl) named m.client_id
        64 h.client_id.1 (text-Reads (codes "client_id") m.client_id (drop 2 (slots m)) refl)

  pub reads_op_id : json_get_string whole (codes "op_id") 64 ≡ text_found 64 m.op_id
  unfolding str_eq
  reads_op_id =
      json_get_string_read (codes "op_id") (slots m) [] (ground arith, refl) named m.op_id 64
        h.op_id.1 (text-Reads (codes "op_id") m.op_id (drop 3 (slots m)) refl)

  pub reads_base_version : json_get_int whole (codes "base_version") ≡ int_found m.base_version
  unfolding str_eq
  reads_base_version =
      json_get_int_read (codes "base_version") (slots m) (drop 4 (slots m)) (ground arith, refl)
        named m.base_version refl h.base_version refl

  pub reads_server_version :
      json_get_int whole (codes "server_version") ≡ int_found m.server_version
  unfolding str_eq
  reads_server_version =
      json_get_int_read (codes "server_version") (slots m) (drop 5 (slots m)) (ground arith, refl)
        named m.server_version refl h.server_version refl

  pub reads_version : json_get_int whole (codes "version") ≡ int_found m.version
  unfolding str_eq
  reads_version =
      json_get_int_read (codes "version") (slots m) (drop 6 (slots m)) (ground arith, refl) named
        m.version refl h.version refl

  pub reads_history_start_version :
      json_get_int whole (codes "history_start_version") ≡ int_found m.history_start_version
  unfolding str_eq
  reads_history_start_version =
      json_get_int_read (codes "history_start_version") (slots m) (drop 7 (slots m))
        (ground arith, refl) named m.history_start_version refl h.history_start_version refl

  pub reads_op :
      json_get_object whole (codes "op")
      ≡ (if m.has_op then some (value_text (op_value m.op) []) else none)
  unfolding str_eq
  reads_op =
      json_get_object_read (codes "op") (slots m) (drop 8 (slots m)) (ground arith, refl) named
        m.has_op m.op refl refl

  pub reads_original_op :
      json_get_object whole (codes "original_op")
      ≡ (if m.has_original_op then some (value_text (op_value m.original_op) []) else none)
  unfolding str_eq
  reads_original_op =
      json_get_object_read (codes "original_op") (slots m) (drop 9 (slots m)) (ground arith, refl)
        named m.has_original_op m.original_op refl refl

  pub reads_message : json_get_string whole (codes "message") 160 ≡ text_found 160 m.message
  unfolding str_eq
  reads_message =
      json_get_string_read (codes "message") (slots m) [] (ground arith, refl) named m.message 160
        h.message.1 (text-Reads (codes "message") m.message (drop 10 (slots m)) refl)

  pub reads_content : json_get_content whole (codes "content") ≡ m.content
  unfolding str_eq
  reads_content =
      json_get_content_read (codes "content") (slots m) [] (ground arith, refl) named m.content refl
        refl h.content refl

  pub first_reason-FitsText : FitsText 160 (first_reason m)
  first_reason-FitsText = first_of-FitsText _ _ (within-FitsText m.has_op m.op h.op) (
      first_of-FitsText _ _ (within-FitsText m.has_original_op m.original_op h.original_op)
        h.reason)

  -- The search finds the reason of an operation first.
  pub reads_reason : json_get_string whole (codes "reason") 160 ≡ text_found 160 (first_reason m)
  unfolding str_eq
  reads_reason =
      json_get_string_read (codes "reason") (slots m) [] (ground arith, refl) named (first_reason m)
        160 first_reason-FitsText.1
        (within-Reads (codes "op") m.has_op m.op (filled (drop 8 (slots m))) _ refl (
          within-Reads (codes "original_op") m.has_original_op m.original_op
            (filled (drop 9 (slots m))) m.reason refl
            (subst (λ o. Reads o m.reason)
              (sym (member_at-seek (codes "reason") (drop 9 (slots m)) (b'}' ∷ [])))
              (text-Reads (codes "reason") m.reason (drop 11 (slots m)) refl))))
