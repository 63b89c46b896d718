-- ===== src/Document/Total.antt =====
-- On well-formed text the critical section never reads outside a buffer.
use linux_class.Common.{
  ◌+◌, ◌≡◌, inl, inr, refl, Bool-cases, Option, some, none, flatten, Bytes, ◌==◌,
}
use linux_class.Common.Int.{ℤ}
use linux_class.Utf8.{char_count}
use linux_class.Operation.{OpKind, invalid, insert, delete, noop, Operation, apply_operation}
use linux_class.Operation.Apply.{apply_operation-edit}
use linux_class.Document.{
  Doc, ProcessResult, resync_result, append_history, new_entry, ok_result, transformed_op, commit,
  is_stale, locked, checked, process_operation,
}
use linux_class.Document.History.{Inv, append-Inv}
use linux_class.Document.Replay.{
  ValidOp, run_edit, IsReplay, chars_of, chars-ok, transformed_op-ValidOp, append-IsReplay,
}

-- A document in good order, and a result.
abbrev pub Answers : Option (Doc × ProcessResult) → Type 0
Answers o = (doc' : Doc) × (r : ProcessResult) × (o ≡ some (doc', r)) × Inv doc' × IsReplay doc'

-- The operation that is committed is applied to the characters of the text.
pub apply-chars :
    (doc : Doc) (w : IsReplay doc) (op : Operation)
    → apply_operation doc.text op ≡ some (flatten (run_edit op (chars_of doc w)))
apply-chars doc w op = rw (w.text_is) (apply_operation-edit (chars_of doc w) op (chars-ok doc w))

commit-Answers :
    (doc : Doc) (client_id op_id : Bytes) (base : ℤ) (op : Operation)
    → Inv doc
    → IsReplay doc
    → ValidOp op
    → Answers (commit doc client_id op_id base op)
unfolding commit new_entry
commit-Answers doc client_id op_id base op v w p =
    let t = transformed_op doc base op in
    let text = flatten (run_edit t (chars_of doc w)) in
    let entry = new_entry client_id op_id base op t (doc.version + 1) in
    let doc' = append_history (record doc { text = text; version = doc.version + 1 }) entry in
    (
      doc',
      ok_result doc' client_id op_id base op t,
      rw (apply-chars doc w t) refl,
      append-Inv doc text entry v refl,
      append-IsReplay doc text entry v w (transformed_op-ValidOp doc base op p) refl,
    )

locked-Answers :
    (doc : Doc) (client_id op_id : Bytes) (base : ℤ) (op : Operation)
    → Inv doc
    → IsReplay doc
    → ValidOp op
    → Answers (locked doc client_id op_id base op)
unfolding locked
locked-Answers doc client_id op_id base op v w p = elim (Bool-cases (is_stale doc base)) [
  | inl stale ↦ rw stale (doc, resync_result doc op_id base, refl, v, w)
  | inr fresh ↦ rw fresh (commit-Answers doc client_id op_id base op v w p)
]

checked-Answers :
    (k : OpKind) (doc : Doc) (client_id op_id : Bytes) (base : ℤ) (op : Operation)
    → Inv doc
    → IsReplay doc
    → ValidOp op
    → Answers (checked k doc client_id op_id base op)
unfolding checked
checked-Answers invalid doc client_id op_id base op v w p = (doc, _, refl, v, w)
checked-Answers insert doc client_id op_id base op v w p =
    elim (Bool-cases (char_count op.ch == 1)) [
      | inl one ↦ rw one (locked-Answers doc client_id op_id base op v w p)
      | inr other ↦ rw other (doc, _, refl, v, w)
    ]
checked-Answers delete doc client_id op_id base op v w p =
    locked-Answers doc client_id op_id base op v w p
checked-Answers noop doc client_id op_id base op v w p =
    locked-Answers doc client_id op_id base op v w p

-- With a well-formed text and, for an insertion, one encoded character, every call returns a result,
-- whatever the identifiers and the version, and leaves a document whose text is well-formed and is
-- the replay of its numbered history.
pub process_operation-Answers :
    (doc : Doc) (client_id op_id : Bytes) (base : ℤ) (op : Option Operation)
    → Inv doc
    → IsReplay doc
    → ((o : Operation) → op ≡ some o → ValidOp o)
    → Answers (process_operation doc client_id op_id base op)
unfolding process_operation
process_operation-Answers doc client_id op_id base none v w p = (doc, _, refl, v, w)
process_operation-Answers doc client_id op_id base (some o) v w p =
    checked-Answers o.kind doc client_id op_id base o v w (p o refl)
