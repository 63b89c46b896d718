-- ===== src/Protocol/Wire/Written.antt =====
-- The encoder writes the members of a message.
use mathlib.Core.List.{append_assoc}
use linux_class.Common.{
  ℕ, ◌≡◌, refl, sym, ap, ◌∙◌, Bool, true, false, [], ◌∷◌, ◌++◌, Option, none, some, Bytes, codes,
  print_nat, if◌then◌else◌, drop, arith,
}
use linux_class.Common.Int.{ℤ, pos, negsuc, ltb_ℤ, print_int}
use linux_class.Operation.{OpKind, invalid, insert, delete, noop, Operation, kind_name}
use linux_class.Message.{Message}
use linux_class.Protocol.Json.{escape_byte, json_escape}
use linux_class.Protocol.Encode.{
  Builder, append, quoted, append_json_field_prefix, append_string_field, append_int_field,
  char_member, reason_member, append_operation_field, append_content_field, message_fields,
}
use linux_class.Protocol.Wire.{
  Members, key_text, value_text, members_text, text_member, int_member, op_member, content_member,
  slots_behind, filled, members,
}

-- Behind a builder that holds some members, these members are written.
record Writes (b b' : Builder) (ms : Members) : Type 0 where
  text : (end : Bytes) → b'.sb ++ end ≡ b.sb ++ members_text ms end
  first : b'.first ≡ false

members-append :
    (xs ys : Members) (end : Bytes)
    → members_text (xs ++ ys) end ≡ members_text xs (members_text ys end)
members-append [] ys end = refl
members-append ((k, v) ∷ xs) ys end =
    ap (λ t. b',' ∷ key_text k (value_text v t)) (members-append xs ys end)

then-Writes :
    (a b c : Builder) (xs ys : Members) → Writes a b xs → Writes b c ys → Writes a c (xs ++ ys)
then-Writes a b c xs ys h k = record {
  text = λ end.
      k.text end
      ∙ h.text (members_text ys end)
      ∙ ap (λ t. a.sb ++ t) (sym (members-append xs ys end));
  first = k.first;
}

module _ (b : Builder) (h : b.first ≡ false) where
  nothing-Writes : Writes b b []
  nothing-Writes = record { text = λ end. refl; first = h }

  text-Writes : (k s : Bytes) → Writes b (append_string_field k s b) (text_member k s)
  unfolding append_string_field append quoted append_json_field_prefix
  text-Writes k [] = nothing-Writes
  text-Writes k (c ∷ s) = record { text = λ end. rw h (simp append_assoc); first = refl }

  int-Writes : (k : Bytes) (n : ℤ) → Writes b (append_int_field k n b) (int_member k n)
  unfolding append_int_field append append_json_field_prefix print_int
  int-Writes k (pos n) =
      let shown : ltb_ℤ (pos n) (pos 0) ≡ false = ground arith in
      let whole : append_int_field k (pos n) b
          ≡ append (append_json_field_prefix b k) (print_nat n) =
        ap (λ x. if x then b else append (append_json_field_prefix b k) (print_nat n)) shown in
      record {
        text = λ end. ap (λ (x : Builder). x.sb ++ end) whole ∙ rw h (simp append_assoc);
        first = ap (λ (x : Builder). x.first) whole;
      }
  int-Writes k (negsuc n) =
      let hidden : ltb_ℤ (negsuc n) (pos 0) ≡ true = ground arith in
      let whole : append_int_field k (negsuc n) b ≡ b =
        ap (λ x. if x then b else append (append_json_field_prefix b k) (print_int (negsuc n)))
          hidden in
      record {
        text = λ end. ap (λ (x : Builder). x.sb ++ end) whole;
        first = ap (λ (x : Builder). x.first) whole ∙ h;
      }

  op-Writes :
      (k : Bytes) (op : Operation) → Writes b (append_operation_field k op b) (op_member k true op)
  unfolding append_operation_field append append_json_field_prefix char_member reason_member quoted
      kind_name json_escape escape_byte
  op-Writes k op = go op.kind op.pos op.ch op.reason
    where
      go :
          (kind : OpKind) (at : ℕ) (ch reason : Bytes)
          → Writes b
              (append_operation_field k
                (record { kind = kind; pos = at; ch = ch; reason = reason })
                b)
              (op_member k true (record { kind = kind; pos = at; ch = ch; reason = reason }))
      go insert at ch [] = record { text = λ end. rw h (simp append_assoc); first = refl }
      go insert at ch (c ∷ reason) = record { text = λ end. rw h (simp append_assoc); first = refl }
      go delete at ch [] = record { text = λ end. rw h (simp append_assoc); first = refl }
      go delete at ch (c ∷ reason) = record { text = λ end. rw h (simp append_assoc); first = refl }
      go noop at ch [] = record { text = λ end. rw h (simp append_assoc); first = refl }
      go noop at ch (c ∷ reason) = record { text = λ end. rw h (simp append_assoc); first = refl }
      go invalid at ch [] = record { text = λ end. rw h (simp append_assoc); first = refl }
      go invalid at ch (c ∷ reason) = record {
        text = λ end. rw h (simp append_assoc);
        first = refl;
      }

  if-Writes :
      (k : Bytes) (has : Bool) (op : Operation)
      → Writes b (if has then append_operation_field k op b else b) (op_member k has op)
  if-Writes k true op = op-Writes k op
  if-Writes k false op = nothing-Writes

  content-Writes :
      (content : Option Bytes) → Writes b (append_content_field content b) (content_member content)
  unfolding append_content_field append append_json_field_prefix quoted
  content-Writes none = nothing-Writes
  content-Writes (some s) = record { text = λ end. rw h (simp append_assoc); first = refl }

-- The first member has no comma.
start-Writes :
    (c : ℕ) (s end : Bytes)
    → ((append_string_field (codes "type") (c ∷ s) (record { sb = codes "{"; first = true })).sb
          ++ end
        ≡ b'{' ∷ drop 1 (members_text (text_member (codes "type") (c ∷ s)) end))
      × ((append_string_field
            (codes "type")
            (c ∷ s)
            (record { sb = codes "{"; first = true })).first
          ≡ false)
unfolding append_string_field append quoted append_json_field_prefix
start-Writes c s end = (simp append_assoc, refl)

-- What is written behind the type.
abbrev others : Message → Members
others m = filled (slots_behind m)

abbrev opened : Bytes → Builder
opened type = append_string_field (codes "type") type (record { sb = codes "{"; first = true })

-- The text of a whole message.
pub message_fields-members :
    (m : Message) (c : ℕ) (s end : Bytes)
    → m.type ≡ c ∷ s
    → (message_fields m).sb ++ end ≡ b'{' ∷ drop 1 (members_text (members m) end)
unfolding message_fields
message_fields-members m c s end e =
    let first = start-Writes c s (members_text (others m) end) in
    let b1 = opened m.type in
    let f1 : b1.first ≡ false = ap (λ t. (opened t).first) e ∙ first.1 in
    let b2 = append_string_field (codes "client_id") m.client_id b1 in
    let h2 = text-Writes b1 f1 (codes "client_id") m.client_id in
    let b3 = append_string_field (codes "op_id") m.op_id b2 in
    let h3 = text-Writes b2 h2.first (codes "op_id") m.op_id in
    let b4 = append_int_field (codes "base_version") m.base_version b3 in
    let h4 = int-Writes b3 h3.first (codes "base_version") m.base_version in
    let b5 = append_int_field (codes "server_version") m.server_version b4 in
    let h5 = int-Writes b4 h4.first (codes "server_version") m.server_version in
    let b6 = append_int_field (codes "version") m.version b5 in
    let h6 = int-Writes b5 h5.first (codes "version") m.version in
    let b7 = append_int_field (codes "history_start_version") m.history_start_version b6 in
    let h7 = int-Writes b6 h6.first (codes "history_start_version") m.history_start_version in
    let b8 = if m.has_op then append_operation_field (codes "op") m.op b7 else b7 in
    let h8 = if-Writes b7 h7.first (codes "op") m.has_op m.op in
    let b9 =
      if m.has_original_op
      then append_operation_field (codes "original_op") m.original_op b8
      else b8 in
    let h9 = if-Writes b8 h8.first (codes "original_op") m.has_original_op m.original_op in
    let b10 = append_string_field (codes "message") m.message b9 in
    let h10 = text-Writes b9 h9.first (codes "message") m.message in
    let b11 = append_string_field (codes "reason") m.reason b10 in
    let h11 = text-Writes b10 h10.first (codes "reason") m.reason in
    let b12 = append_content_field m.content b11 in
    let h12 = content-Writes b11 h11.first m.content in
    let rest : Writes b1 b12 (others m) = then-Writes b1 b2 b12 _ _ h2 (
      then-Writes b2 b3 b12 _ _ h3 (
        then-Writes b3 b4 b12 _ _ h4 (
          then-Writes b4 b5 b12 _ _ h5 (
            then-Writes b5 b6 b12 _ _ h6 (
              then-Writes b6 b7 b12 _ _ h7 (
                then-Writes b7 b8 b12 _ _ h8 (
                  then-Writes b8 b9 b12 _ _ h9 (
                    then-Writes b9 b10 b12 _ _ h10 (
                      then-Writes b10 b11 b12 _ _ h11
                        (then-Writes b11 b12 b12 _ _ h12 (nothing-Writes b12 h12.first))))))))))) in
    rest.text end
    ∙ ap (λ t. (opened t).sb ++ members_text (others m) end) e
    ∙ first.0
    ∙ sym (ap (λ t. b'{' ∷ drop 1 (members_text (text_member (codes "type") t ++ others m) end)) e)
