-- ===== src/Document/Answer.antt =====
-- What a result of `ts_document_process_operation` says of the document.
use linux_class.Common.{
  ◌+◌, ◌≡◌, ◌≢◌, ◌⊎◌, inl, inr, refl, sym, ap, subst, ◌∙◌, Bool-cases, true, false, [], ◌∷◌, Option,
  some, some_pair, arith, Bytes, codes,
}
use linux_class.Common.Int.{ℤ, pos, ◌≤ℤ◌}
use linux_class.Utf8.{char_count}
use linux_class.Operation.{OpKind, invalid, insert, delete, noop, Operation, apply_operation}
use linux_class.Message.{Message}
use linux_class.Document.{
  HistoryEntry, Doc, process_ok, process_resync, ProcessResult, resync_result, document_snapshot,
  append_history, ok_result, transformed_op, commit, is_stale, locked, checked, process_operation,
}
use linux_class.Document.Outcome.{Notices, Outcome, refused, committed, commit_cases, process_cases}

-- The acknowledgement and the broadcast carry the operation that was applied, and its version.
pub record Committed (doc doc' : Doc) (r : ProcessResult) : Type 0 where
  pub status : r.status ≡ process_ok
  pub acks : (r.has_ack ≡ true) × (r.has_remote ≡ true)
  pub next_version : doc'.version ≡ doc.version + 1
  pub applied : apply_operation doc.text r.remote.op ≡ some doc'.text
  pub same_op : (r.ack.op ≡ r.remote.op) × (r.ack.has_op ≡ true) × (r.remote.has_op ≡ true)
  pub same_version : (r.ack.version ≡ pos doc'.version) × (r.remote.version ≡ pos doc'.version)
  pub types : (r.ack.type ≡ codes "ACK") × (r.remote.type ≡ codes "REMOTE_OP")
  pub snapshot : (r.snapshot_content ≡ some doc'.text) × (r.snapshot_version ≡ doc'.version)

-- Nothing changed, and there is nothing to acknowledge or broadcast.
pub record Refused (doc doc' : Doc) (r : ProcessResult) : Type 0 where
  pub unchanged : doc' ≡ doc
  pub status : r.status ≢ process_ok
  pub no_ack : r.has_ack ≡ false
  pub no_remote : r.has_remote ≡ false
  pub notices : Notices doc r.messages

append-version : (doc : Doc) (e : HistoryEntry) → (append_history doc e).version ≡ doc.version
unfolding append_history
append-version doc e = refl

append-text : (doc : Doc) (e : HistoryEntry) → (append_history doc e).text ≡ doc.text
unfolding append_history
append-text doc e = refl

ok-Committed :
    (doc doc' : Doc) (client_id op_id : Bytes) (base : ℤ) (op t : Operation) (r : ProcessResult)
    → doc'.version ≡ doc.version + 1
    → apply_operation doc.text t ≡ some doc'.text
    → r ≡ ok_result doc' client_id op_id base op t
    → Committed doc doc' r
unfolding ok_result
ok-Committed doc doc' client_id op_id base op t r n a e =
    subst (Committed doc doc') (sym e) (record {
      status = refl;
      acks = (refl, refl);
      next_version = n;
      applied = a;
      same_op = (refl, refl, refl);
      same_version = (refl, refl);
      types = (refl, refl);
      snapshot = (refl, refl);
    })

commit-Committed :
    (doc : Doc) (client_id op_id : Bytes) (base : ℤ) (o : Operation) (doc' : Doc)
    (r : ProcessResult)
    → commit doc client_id op_id base o ≡ some (doc', r)
    → Committed doc doc' r
commit-Committed doc client_id op_id base o doc' r h =
    let (text, applied, e, f) = commit_cases doc client_id op_id base o doc' r h in
    ok-Committed doc doc' client_id op_id base o (transformed_op doc base o) r
      (ap (λ (d : Doc). d.version) e ∙ append-version _ _)
      (applied ∙ ap some (sym (ap (λ (d : Doc). d.text) e ∙ append-text _ _))) f

Outcome-Answer :
    {doc : Doc} {client_id op_id : Bytes} {base : ℤ} {op : Option Operation} {doc' : Doc}
    {r : ProcessResult}
    → Outcome doc client_id op_id base op doc' r
    → Refused doc doc' r ⊎ Committed doc doc' r
Outcome-Answer (refused e s a b n) =
    inl (record { unchanged = e; status = s; no_ack = a; no_remote = b; notices = n })
Outcome-Answer {doc} {client_id} {op_id} {base} {doc' = doc'} {r} (committed o _ _ _ _ h) =
    inr (commit-Committed doc client_id op_id base o doc' r h)

-- A call either changes nothing, has nothing to acknowledge or broadcast, and answers with errors, a call for
-- a resynchronisation or a snapshot, or it makes the next
-- version, whose text is that of the old one with the broadcast operation applied; then the
-- acknowledgement and the snapshot say the same.
pub process_operation-Answer :
    (doc : Doc) (client_id op_id : Bytes) (base : ℤ) (op : Option Operation) (doc' : Doc)
    (r : ProcessResult)
    → process_operation doc client_id op_id base op ≡ some (doc', r)
    → Refused doc doc' r ⊎ Committed doc doc' r
process_operation-Answer doc client_id op_id base op doc' r h =
    Outcome-Answer (process_cases doc client_id op_id base op doc' r h)

-- When a well-formed request is sent back for a resynchronisation.
abbrev pub Accepts : Operation → Type 0
Accepts o = (o.kind ≢ invalid) × (o.kind ≡ insert → char_count o.ch ≡ 1)

abbrev pub Supported : Doc → ℤ → Type 0
Supported doc base = (pos doc.history_start_version ≤ℤ base) × (base ≤ℤ pos doc.version)

-- The document as it was, with a `RESYNC_REQUIRED` and its whole text.
abbrev pub Resyncs : Doc → Doc → ProcessResult → Type 0
Resyncs doc doc' r =
    (r.status ≡ process_resync)
    × (doc' ≡ doc)
    × (m : Message) × (r.messages ≡ m ∷ document_snapshot doc ∷ [])
    × (m.type ≡ codes "RESYNC_REQUIRED")

resync_lem :
    (doc : Doc) (op_id : Bytes) (base : ℤ) (doc' : Doc) (r : ProcessResult)
    → ◌≡◌ {A = Option (Doc × ProcessResult)}
        (some (doc, resync_result doc op_id base))
        (some (doc', r))
    → Resyncs doc doc' r
unfolding resync_result
resync_lem doc op_id base doc' r h =
    let (e, f) = some_pair h in subst (Resyncs doc doc') f (refl, sym e, _, refl, refl)

stale_outside : (doc : Doc) (base : ℤ) → is_stale doc base ≡ true → ¬ Supported doc base
stale_outside doc base h = ground arith

stale_guard : (doc : Doc) (base : ℤ) → is_stale doc base ≡ false → Supported doc base
stale_guard doc base h = ground arith

checked-locked :
    (doc : Doc) (client_id op_id : Bytes) (base : ℤ) (o : Operation)
    → Accepts o
    → process_operation doc client_id op_id base (some o) ≡ locked doc client_id op_id base o
unfolding process_operation checked
checked-locked doc client_id op_id base o a = go o.kind refl
  where
    go :
        (k : OpKind)
        → o.kind ≡ k
        → checked k doc client_id op_id base o ≡ locked doc client_id op_id base o
    go invalid e = absurd (a.0 e)
    go insert e = rw (a.1 e)
    go delete e = refl
    go noop e = refl

-- An operation that passes the document's checks is committed when its version lies in the history,
-- between the start and the current version. Otherwise the document stays as it was, and the answer
-- is a resynchronisation with a snapshot of it.
pub process_operation_resync :
    (doc : Doc) (client_id op_id : Bytes) (base : ℤ) (o : Operation) (doc' : Doc)
    (r : ProcessResult)
    → Accepts o
    → process_operation doc client_id op_id base (some o) ≡ some (doc', r)
    → (Supported doc base × (r.status ≡ process_ok)) ⊎ (¬ Supported doc base × Resyncs doc doc' r)
unfolding locked
process_operation_resync doc client_id op_id base o doc' r a h =
    let l = sym (checked-locked doc client_id op_id base o a) ∙ h in
    elim (Bool-cases (is_stale doc base)) [
      | inl stale ↦
          inr (stale_outside doc base stale, resync_lem doc op_id base doc' r (rw stale at l))
      | inr fresh ↦ inl (
        stale_guard doc base fresh,
        Committed.status (commit-Committed doc client_id op_id base o doc' r (rw fresh at l)),
      )
    ]
