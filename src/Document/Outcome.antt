-- ===== src/Document/Outcome.antt =====
-- The ways through `ts_document_process_operation`.
use linux_class.Common.{
  List, ◌⊎◌, All, codes, ◌+◌, ◌≡◌, ◌≢◌, inl, inr, refl, sym, ap, ◌∙◌, Bool-cases, false, Option,
  some, none, >>=-eq-some, some_pair, Bytes, ◌==◌, ==_iff,
}
use linux_class.Common.Int.{ℤ}
use linux_class.Utf8.{char_count}
use linux_class.Operation.{OpKind, invalid, insert, delete, noop, Operation, apply_operation}
use linux_class.Message.{Message}
use linux_class.Document.{
  document_snapshot, message_error, Doc, process_ok, ProcessResult, append_history, transformed_op,
  new_entry, ok_result, error_result, resync_result, commit, is_stale, locked, checked,
  process_operation,
}

-- What a commit leaves behind.
pub commit_cases :
    (doc : Doc) (client_id op_id : Bytes) (base : ℤ) (op : Operation) (doc' : Doc)
    (r : ProcessResult)
    → commit doc client_id op_id base op ≡ some (doc', r)
    → (text : Bytes) × (apply_operation doc.text (transformed_op doc base op) ≡ some text)
      × (doc'
          ≡ append_history
              (record doc { text = text; version = doc.version + 1 })
              (new_entry client_id op_id base op (transformed_op doc base op) (doc.version + 1)))
      × (r ≡ ok_result doc' client_id op_id base op (transformed_op doc base op))
unfolding commit
commit_cases doc client_id op_id base op doc' r h =
    let (text, applied, done) =
      >>=-eq-some (apply_operation doc.text (transformed_op doc base op)) _ h in
    let (kept, result) = some_pair done in
    (
      text,
      applied,
      sym kept,
      sym result
          ∙ ap (λ (d : Doc). ok_result d client_id op_id base op (transformed_op doc base op)) kept,
    )

-- What is answered when the document is left alone: a snapshot of it, an error, a call for a
-- resynchronisation.
abbrev pub Notices : Doc → List Message → Type 0
Notices doc = All (λ m.
    (m ≡ document_snapshot doc) ⊎ ((m.type ≡ codes "ERROR") ⊎ (m.type ≡ codes "RESYNC_REQUIRED")))

-- Every way through the function: the document is left alone, or the operation is committed under
-- a supported version.
pub data Outcome (doc : Doc) (client_id op_id : Bytes) (base : ℤ) (op : Option Operation)
    (doc' : Doc) (r : ProcessResult) : Type 0 where
  refused :
      doc' ≡ doc
      → r.status ≢ process_ok
      → r.has_ack ≡ false
      → r.has_remote ≡ false
      → Notices doc r.messages
      → Outcome doc client_id op_id base op doc' r
  committed :
      (o : Operation)
      → op ≡ some o
      → o.kind ≢ invalid
      → (o.kind ≡ insert → char_count o.ch ≡ 1)
      → is_stale doc base ≡ false
      → commit doc client_id op_id base o ≡ some (doc', r)
      → Outcome doc client_id op_id base op doc' r

refused_lem :
    {doc doc' : Doc} {r r' : ProcessResult} {client_id op_id : Bytes} {base : ℤ}
    {op : Option Operation}
    → r'.status ≢ process_ok
    → r'.has_ack ≡ false
    → r'.has_remote ≡ false
    → Notices doc r'.messages
    → ◌≡◌ {A = Option (Doc × ProcessResult)} (some (doc, r')) (some (doc', r))
    → Outcome doc client_id op_id base op doc' r
refused_lem s a b n h =
    let (e, f) = some_pair h in refused (sym e) (rw (← f) s) (rw (← f) a) (rw (← f) b) (rw (← f) n)

locked_cases :
    (doc : Doc) (client_id op_id : Bytes) (base : ℤ) (o : Operation) (doc' : Doc)
    (r : ProcessResult)
    → o.kind ≢ invalid
    → (o.kind ≡ insert → char_count o.ch ≡ 1)
    → locked doc client_id op_id base o ≡ some (doc', r)
    → Outcome doc client_id op_id base (some o) doc' r
unfolding locked resync_result
locked_cases doc client_id op_id base o doc' r v c h = elim (Bool-cases (is_stale doc base)) [
  | inl stale ↦ refused_lem (λ x. cc) refl refl (inr (inr refl), (inl refl, tt)) (rw stale at h)
  | inr fresh ↦ committed o refl v c fresh (rw fresh at h)
]

-- A result either leaves the document as it was, with nothing to acknowledge or broadcast, or
-- stems from a commit of a valid operation under a version of the history.
pub process_cases :
    (doc : Doc) (client_id op_id : Bytes) (base : ℤ) (op : Option Operation) (doc' : Doc)
    (r : ProcessResult)
    → process_operation doc client_id op_id base op ≡ some (doc', r)
    → Outcome doc client_id op_id base op doc' r
unfolding process_operation error_result checked message_error
process_cases doc client_id op_id base none doc' r h =
    refused_lem (λ x. cc) refl refl (inr (inl refl), tt) h
process_cases doc client_id op_id base (some o) doc' r h = go o.kind refl h
  where
    go :
        (k : OpKind)
        → o.kind ≡ k
        → checked k doc client_id op_id base o ≡ some (doc', r)
        → Outcome doc client_id op_id base (some o) doc' r
    go invalid e g = refused_lem (λ x. cc) refl refl (inr (inl refl), tt) g
    go insert e g = elim (Bool-cases (char_count o.ch == 1)) [
      | inl h ↦
          locked_cases doc client_id op_id base o doc' r (λ x. cc) (λ _. (==_iff _ _).0 h)
            (rw h at g)
      | inr h ↦ refused_lem (λ x. cc) refl refl (inr (inl refl), tt) (rw h at g)
    ]
    go delete e g = locked_cases doc client_id op_id base o doc' r (λ x. cc) (λ x. cc) g
    go noop e g = locked_cases doc client_id op_id base o doc' r (λ x. cc) (λ x. cc) g
