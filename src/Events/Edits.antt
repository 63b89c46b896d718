-- ===== src/Events/Edits.antt =====
-- What the terminal shows of an operation that the document commits.

use linux_class.Common.{
  ℕ, ◌≤◌, ◌<◌, ◌^◌, ◌≡◌, ◌≢◌, refl, ap, ◌∙◌, ◌++◌, Option, some, Bytes, codes, str_eq, fit, length,
  take_all, print_nat,
}
use linux_class.Common.Int.{pos, print_int}
use linux_class.Operation.{OpKind, invalid, insert, delete, noop, Operation, kind_name}
use linux_class.Document.Log.{log_line, build_operation_log}
use linux_class.Protocol.Find.{strip_prefix}
use linux_class.Events.{
  source, strstr, behind_match, copy_value, value_or_empty, json_get_for_format,
  json_int_for_format, or_entry, format_operation_event, format_server_event,
}
use linux_class.Events.Search.{NoQuote}
use linux_class.Events.Entry.{
  op_text, name, kind_found, pos_found, char_found, entry, log_line-entry, version_found, id_found,
  base_found, transformed_found,
}

-- What the line says of the transformed operation.
abbrev pub edit_line : ℕ → Bytes → ℕ → OpKind → ℕ → Bytes → Bytes
edit_line version id base insert at ch =
    codes "OP v"
    ++ (print_nat version
        ++ (codes " client="
            ++ (id
                ++ (codes " insert pos="
                    ++ (print_nat at
                        ++ (codes " char='" ++ (ch ++ (codes "' base=" ++ print_nat base))))))))
edit_line version id base kind at ch =
    codes "OP v"
    ++ (print_nat version
        ++ (codes " client="
            ++ (id
                ++ (codes " "
                    ++ (kind_name kind
                        ++ (codes " pos="
                            ++ (print_nat at ++ (codes " base=" ++ print_nat base))))))))

-- No string holds a quotation mark or is the name of the key, and all fit into their buffers.
pub record Plain (id op_id : Bytes) (original transformed : Operation) : Type 0 where
  pub id_plain : NoQuote id
  pub id_fits : length id ≤ 63
  pub id_other : id ≢ name
  pub op_id_plain : NoQuote op_id
  pub op_id_other : op_id ≢ name
  pub original_plain : NoQuote original.ch
  pub original_other : original.ch ≢ name
  pub ch_plain : NoQuote transformed.ch
  pub ch_fits : length transformed.ch ≤ 7

line-edit :
    (kind : OpKind) (version : ℕ) (id : Bytes) (base at : ℕ) (ch rest : Bytes) (out_size : ℕ)
    (full : Option Bytes)
    → NoQuote ch
    → length ch ≤ 7
    → at < 2 ^ 31
    → strstr (source full) (codes "\"transformed_op\"")
      ≡ some (codes "\"transformed_op\":" ++ op_text kind at ch rest)
    → json_get_for_format full (codes "client_id") 64 ≡ id
    → json_int_for_format full (codes "server_version") (pos 0) ≡ pos version
    → json_int_for_format full (codes "base_version") (pos 0) ≡ pos base
    → format_operation_event full out_size ≡ fit out_size (edit_line version id base kind at ch)
unfolding format_operation_event or_entry print_int str_eq kind_name
line-edit insert version id base at ch rest out_size full h l m t i v b =
    rw
      (
        t,
        i,
        v,
        b,
        kind_found insert at ch rest,
        char_found at ch rest h l,
        pos_found insert at ch rest m,
      )
      refl
line-edit delete version id base at ch rest out_size full h l m t i v b =
    rw (t, i, v, b, kind_found delete at ch rest, pos_found delete at ch rest m) refl
line-edit noop version id base at ch rest out_size full h l m t i v b =
    rw (t, i, v, b, kind_found noop at ch rest, pos_found noop at ch rest m) refl
line-edit invalid version id base at ch rest out_size full h l m t i v b =
    rw (t, i, v, b, kind_found invalid at ch rest, pos_found invalid at ch rest m) refl

event_found :
    (version : ℕ) (id op_id : Bytes) (base : ℕ) (original transformed : Operation) (n : ℕ)
    → json_get_for_format
        (some (entry version id op_id base original transformed n))
        (codes "event")
        32
      ≡ codes "operation"
unfolding json_get_for_format value_or_empty behind_match strstr strip_prefix copy_value
event_found version id op_id base original transformed n = refl

-- The log entry of a committed operation is printed as a line with the version, the client, the base version and the
-- transformed operation, where no string holds a quotation mark, no identifier is `transformed_op`, all fit into their
-- buffers, and the numbers fit into an `int`.
pub edits-printed :
    (version : ℕ) (id op_id : Bytes) (base : ℕ) (original transformed : Operation) (n out_size : ℕ)
    → Plain id op_id original transformed
    → version < 2 ^ 31
    → base < 2 ^ 31
    → transformed.pos < 2 ^ 31
    → length (log_line version id op_id (pos base) original transformed n) ≤ 4095
    → format_server_event
        (some (build_operation_log version id op_id (pos base) original transformed n))
        out_size
      ≡ fit out_size (edit_line version id base transformed.kind transformed.pos transformed.ch)
unfolding build_operation_log format_server_event str_eq
edits-printed version id op_id base original transformed n out_size h v b p l =
    let whole =
      take_all 4095 (log_line version id op_id (pos base) original transformed n) l
      ∙ log_line-entry version id op_id base original transformed n in
    ap (λ x. format_server_event (some x) out_size) whole
    ∙ rw (event_found version id op_id base original transformed n) (
        line-edit transformed.kind version id base transformed.pos transformed.ch _ out_size
          (some (entry version id op_id base original transformed n)) h.ch_plain h.ch_fits p
          (transformed_found version id op_id base original transformed n h.id_plain h.op_id_plain
            h.original_plain h.id_other h.op_id_other h.original_other)
          (id_found version id op_id base original transformed n h.id_plain h.id_fits)
          (version_found version id op_id base original transformed n v)
          (base_found version id op_id base original transformed n h.id_plain h.op_id_plain b))
