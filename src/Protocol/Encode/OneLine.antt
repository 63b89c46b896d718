-- ===== src/Protocol/Encode/OneLine.antt =====
-- An encoded message is one line.
use mathlib.Core.List.{append_assoc}
use linux_class.Common.{
  sym, ℕ, zero, suc, ◌+◌, ◌/◌, ◌%◌, ◌≤◌, ◌≡◌, [], ◌∷◌, ◌++◌, Bool, true, false, Option, none, some,
  arith, All, Bool-cases, inl, inr, Bytes, codes, print_nat, print_loop, ltb, if◌then◌else◌,
}
use linux_class.Common.Int.{ℤ, pos, negsuc, ltb_ℤ, print_int}
use linux_class.Operation.{OpKind, invalid, insert, delete, noop, Operation, kind_name}
use linux_class.Message.{Message}
use linux_class.Protocol.Json.{json_escape}
use linux_class.Protocol.Json.RoundTrip.{escape_byte-printable}
use linux_class.Protocol.Encode.{
  Builder, append, quoted, append_json_field_prefix, append_string_field, append_int_field,
  char_member, reason_member, append_operation_field, append_content_field, message_fields,
  encode_message,
}

-- No byte below a space, so no newline.
abbrev pub IsPrintable : Bytes → Type 0
IsPrintable = All (λ c. 0x20 ≤ c)

join : (xs ys : Bytes) → IsPrintable xs → IsPrintable ys → IsPrintable (xs ++ ys)
join [] ys p q = q
join (x ∷ xs) ys (h, p) q = (h, join xs ys p q)

print_loop-IsPrintable :
    (fuel n : ℕ) (acc : Bytes) → IsPrintable acc → IsPrintable (print_loop fuel n acc)
unfolding print_loop
print_loop-IsPrintable zero n acc p = p
print_loop-IsPrintable (suc fuel) n acc p = elim (Bool-cases (ltb n 10)) [
  | inl last ↦ rw last (omega arith, p)
  | inr more ↦
      rw more (print_loop-IsPrintable fuel (n / 10) ((b'0' + n % 10) ∷ acc) (omega arith, p))
]

print_nat-IsPrintable : (n : ℕ) → IsPrintable (print_nat n)
unfolding print_nat
print_nat-IsPrintable n = print_loop-IsPrintable (suc n) n [] tt

print_int-IsPrintable : (v : ℤ) → IsPrintable (print_int v)
unfolding print_int
print_int-IsPrintable (pos n) = print_nat-IsPrintable n
print_int-IsPrintable (negsuc n) = (omega arith, print_nat-IsPrintable (suc n))

kind_name-IsPrintable : (k : OpKind) → IsPrintable (kind_name k)
unfolding kind_name
kind_name-IsPrintable insert = omega arith
kind_name-IsPrintable delete = omega arith
kind_name-IsPrintable noop = omega arith
kind_name-IsPrintable invalid = omega arith

escape-IsPrintable : (s : Bytes) → IsPrintable (json_escape s)
unfolding json_escape
escape-IsPrintable [] = tt
escape-IsPrintable (b ∷ s) = join _ _ (escape_byte-printable b) (escape-IsPrintable s)

record Printable (b : Builder) : Type 0 where
  line : IsPrintable b.sb

quoted-IsPrintable : (s : Bytes) → IsPrintable (quoted s)
unfolding quoted
quoted-IsPrintable s = (omega arith, join (json_escape s) _ (escape-IsPrintable s) (omega arith))

-- Each field keeps the line printable.
prefix-Printable :
    (b : Builder) (name : Bytes)
    → IsPrintable name
    → Printable b
    → Printable (append_json_field_prefix b name)
unfolding append_json_field_prefix
prefix-Printable b name n p = record {
  line = join b.sb _ p.line (join _ _ (comma b.first) (omega arith, join name _ n (omega arith)));
}
  where
    comma : (f : Bool) → IsPrintable (if f then [] else codes ",")
    comma true = tt
    comma false = omega arith

append-Printable :
    (b : Builder) (text : Bytes) → Printable b → IsPrintable text → Printable (append b text)
unfolding append
append-Printable b text p q = record { line = join b.sb text p.line q }

string-Printable :
    (name value : Bytes) (b : Builder)
    → IsPrintable name
    → Printable b
    → Printable (append_string_field name value b)
unfolding append_string_field
string-Printable name [] b n p = p
string-Printable name (c ∷ value) b n p =
    append-Printable _ (quoted (c ∷ value)) (prefix-Printable b name n p)
      (quoted-IsPrintable (c ∷ value))

int-Printable :
    (name : Bytes) (value : ℤ) (b : Builder)
    → IsPrintable name
    → Printable b
    → Printable (append_int_field name value b)
unfolding append_int_field
int-Printable name value b n p = elim (Bool-cases (ltb_ℤ value (pos 0))) [
  | inl unset ↦ rw unset p
  | inr set ↦ rw set (
      append-Printable _ (print_int value) (prefix-Printable b name n p)
        (print_int-IsPrintable value))
]

char_member-IsPrintable : (k : OpKind) (ch : Bytes) → IsPrintable (char_member k ch)
unfolding char_member
char_member-IsPrintable insert ch =
    join (codes ",\"char\":") (quoted ch) (omega arith) (quoted-IsPrintable ch)
char_member-IsPrintable _ ch = tt

reason_member-IsPrintable : (reason : Bytes) → IsPrintable (reason_member reason)
unfolding reason_member
reason_member-IsPrintable [] = tt
reason_member-IsPrintable (c ∷ r) =
    join (codes ",\"reason\":") (quoted (c ∷ r)) (omega arith) (quoted-IsPrintable (c ∷ r))

operation-Printable :
    (name : Bytes) (op : Operation) (b : Builder)
    → IsPrintable name
    → Printable b
    → Printable (append_operation_field name op b)
unfolding append_operation_field
operation-Printable name op b n p = append-Printable _ _ (prefix-Printable b name n p) (
    join (codes "{\"kind\":\"") (kind_name op.kind ++ positioned) (omega arith) (
      join (kind_name op.kind) positioned (kind_name-IsPrintable op.kind) (
        join (codes "\",\"pos\":") (print_nat op.pos ++ members) (omega arith) (
          join (print_nat op.pos) members (print_nat-IsPrintable op.pos) (
            join (char_member op.kind op.ch) (reason_member op.reason ++ codes "}")
              (char_member-IsPrintable op.kind op.ch)
              (join (reason_member op.reason) (codes "}") (reason_member-IsPrintable op.reason)
                (omega arith)))))))
  where
    members : Bytes
    members = char_member op.kind op.ch ++ (reason_member op.reason ++ codes "}")

    positioned : Bytes
    positioned = codes "\",\"pos\":" ++ (print_nat op.pos ++ members)

optional-Printable :
    (has : Bool) (x y : Builder) → Printable x → Printable y → Printable (if has then x else y)
optional-Printable true x y p q = p
optional-Printable false x y p q = q

content-Printable :
    (content : Option Bytes) (b : Builder)
    → Printable b
    → Printable (append_content_field content b)
unfolding append_content_field
content-Printable none b p = p
content-Printable (some c) b p =
    append-Printable _ (quoted c) (prefix-Printable b (codes "content") (omega arith) p)
      (quoted-IsPrintable c)

fields-Printable : (m : Message) → Printable (message_fields m)
unfolding message_fields
fields-Printable m = content-Printable m.content _ (
    string-Printable (codes "reason") m.reason _ (omega arith) (
      string-Printable (codes "message") m.message _ (omega arith) (
        with_op m.has_original_op (codes "original_op") m.original_op _ (omega arith) (
          with_op m.has_op (codes "op") m.op _ (omega arith) (
            int-Printable (codes "history_start_version") m.history_start_version _ (omega arith) (
              int-Printable (codes "version") m.version _ (omega arith) (
                int-Printable (codes "server_version") m.server_version _ (omega arith) (
                  int-Printable (codes "base_version") m.base_version _ (omega arith) (
                    string-Printable (codes "op_id") m.op_id _ (omega arith) (
                      string-Printable (codes "client_id") m.client_id _ (omega arith) (
                        string-Printable (codes "type") m.type _ (omega arith)
                          (record { line = omega arith }))))))))))))
  where
    with_op :
        (has : Bool) (name : Bytes) (op : Operation) (b : Builder)
        → IsPrintable name
        → Printable b
        → Printable (if has then append_operation_field name op b else b)
    with_op has name op b n p = optional-Printable has _ b (operation-Printable name op b n p) p

-- Whatever bytes its strings hold, a message is encoded as one line: its only newline, and its only byte
-- below a space, is the last one.
pub encode_message_line :
    (m : Message) → (line : Bytes) × (encode_message m ≡ line ++ b'\n' ∷ []) × IsPrintable line
unfolding encode_message
encode_message_line m = (
  (message_fields m).sb ++ codes "}",
  sym (append_assoc (message_fields m).sb (codes "}") (b'\n' ∷ [])),
  join (message_fields m).sb (codes "}") (fields-Printable m).line (omega arith),
)
