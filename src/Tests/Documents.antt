-- ===== src/Tests/Documents.antt =====
-- The document, at concrete inputs.
use linux_class.Common.{
  ℕ, ◌+◌, ◌<◌, ◌≡◌, ◌⊎◌, refl, List, [], ◌∷◌, some, Bytes, codes, get_elem?, arith,
}
use linux_class.Common.Int.{pos}
use linux_class.Utf8.{char_count, char_bytes, byte_offset, is_utf8_continuation}
use linux_class.Utf8.Char.{one, AllChars}
use linux_class.Operation.{insert, delete, noop, Operation, apply_operation, apply_delete}
use linux_class.Document.{
  HistoryEntry, Doc, process_ok, ProcessResult, normalize_for_apply, transform_loop, transformed_op,
  append_history, new_entry, ok_result, commit, locked, checked, process_operation, resync_result,
}
use linux_class.Document.Transform.{transform_against}
use linux_class.Document.Transform.Target.{Deletes}
use linux_class.Document.History.{Inv}
use linux_class.Document.Invariant.{process_operation-Inv}
use linux_class.Document.Replay.{IsReplay, chars_of}
use linux_class.Document.Total.{Answers, process_operation-Answers}
use linux_class.Document.Sync.{since, chars_at, transformed_op-StillAims}
use linux_class.Document.Since.{apply_all, Calls, start, next, apply_all-Calls}
use linux_class.Document.Answer.{
  Committed, Refused, Resyncs, Supported, process_operation-Answer, process_operation_resync,
}

abbrev put : ℕ → Operation
put p = record { kind = insert; pos = p; ch = 0x78 ∷ []; reason = [] }

abbrev cut : ℕ → Operation
cut p = record { kind = delete; pos = p; ch = []; reason = [] }

abbrev abc : List Bytes
abc = (0x61 ∷ []) ∷ (0x62 ∷ []) ∷ (0x63 ∷ []) ∷ []

abbrev abc-ok : AllChars abc
abc-ok = (
  one (omega arith) (omega arith),
  (one (omega arith) (omega arith), (one (omega arith) (omega arith), tt)),
)

-- The text "xabc" of version 1, with room for two entries.
abbrev first_entry : HistoryEntry
first_entry = record {
  server_version = 1;
  client_id = codes "A";
  op_id = codes "A-1";
  base_version = pos 0;
  original_op = put 0;
  op = put 0;
}

abbrev doc1 : Doc
doc1 = record {
  text = codes "xabc";
  version = 1;
  history_start_version = 0;
  history_limit = 2;
  history = first_entry ∷ [];
}

doc1-Inv : Inv doc1
doc1-Inv = omega arith

abbrev doc1-IsReplay : IsReplay doc1
doc1-IsReplay = record {
  start_chars = abc;
  start_ok = abc-ok;
  ops_ok = (λ _. one (omega arith) (omega arith), tt);
  text_is = refl;
}

-- The deletion of "b" of version 0 deletes it from version 1.
abbrev doc2 : Doc
doc2 = record {
  text = codes "xac";
  version = 2;
  history_start_version = 0;
  history_limit = 2;
  history =
      first_entry
      ∷ record {
        server_version = 2;
        client_id = codes "B";
        op_id = codes "B-1";
        base_version = pos 0;
        original_op = cut 1;
        op = cut 2;
      }
      ∷ [];
}

abbrev cut_result : ProcessResult
cut_result = ok_result doc2 (codes "B") (codes "B-1") (pos 0) (cut 1) (cut 2)

process_cut :
    process_operation doc1 (codes "B") (codes "B-1") (pos 0) (some (cut 1))
    ≡ some (doc2, cut_result)
unfolding process_operation checked locked commit transformed_op normalize_for_apply transform_loop
    transform_against append_history new_entry apply_operation apply_delete char_count byte_offset
    char_bytes is_utf8_continuation
process_cut = refl

process_operation-Answers_example :
    Answers (process_operation doc1 (codes "B") (codes "B-1") (pos 0) (some (cut 1)))
process_operation-Answers_example =
    process_operation-Answers doc1 (codes "B") (codes "B-1") (pos 0) (some (cut 1)) doc1-Inv
      doc1-IsReplay (λ o e k. ground arith)

process_operation-Inv_example : Inv doc2
process_operation-Inv_example =
    process_operation-Inv doc1 (codes "B") (codes "B-1") (pos 0) (some (cut 1)) doc2 cut_result
      doc1-Inv process_cut

process_operation-Answer_example : Refused doc1 doc2 cut_result ⊎ Committed doc1 doc2 cut_result
process_operation-Answer_example =
    process_operation-Answer doc1 (codes "B") (codes "B-1") (pos 0) (some (cut 1)) doc2 cut_result
      process_cut

deleted : Calls doc1 (cut 2 ∷ []) doc2
unfolding ok_result
deleted =
    next [] doc1 doc2 (codes "B") (codes "B-1") (pos 0) (some (cut 1)) cut_result start process_cut

apply_all-Calls_example :
    (apply_all (codes "xabc") (cut 2 ∷ []) ≡ some (codes "xac"))
    × (2 ≡ 1 + 1)
    × ((1 < 0) ⊎ (since doc2 1 ≡ cut 2 ∷ []))
apply_all-Calls_example = apply_all-Calls doc1 doc2 (cut 2 ∷ []) doc1-Inv deleted

transformed_op-StillAims_example :
    (((transformed_op doc1 (pos 0) (cut 1)).kind ≡ delete)
      × (get_elem? (chars_of doc1 doc1-IsReplay) (transformed_op doc1 (pos 0) (cut 1)).pos
          ≡ some (0x62 ∷ [])))
    ⊎ (((transformed_op doc1 (pos 0) (cut 1)).kind ≡ noop)
        × Deletes (λ x. x) (0x62 ∷ []) (since doc1 0) (chars_at doc1 doc1-IsReplay 0))
transformed_op-StillAims_example =
    transformed_op-StillAims doc1 doc1-IsReplay 0 (cut 1) (0x62 ∷ []) doc1-Inv (omega arith) refl
      refl (omega arith)

process_ahead :
    process_operation doc1 (codes "B") (codes "B-1") (pos 7) (some (cut 1))
    ≡ some (doc1, resync_result doc1 (codes "B-1") (pos 7))
unfolding process_operation checked locked
process_ahead = refl

process_operation_resync_example :
    (Supported doc1 (pos 7) × ((resync_result doc1 (codes "B-1") (pos 7)).status ≡ process_ok))
    ⊎ (¬ Supported doc1 (pos 7) × Resyncs doc1 doc1 (resync_result doc1 (codes "B-1") (pos 7)))
process_operation_resync_example =
    process_operation_resync doc1 (codes "B") (codes "B-1") (pos 7) (cut 1) doc1
      (resync_result doc1 (codes "B-1") (pos 7)) (λ e. cc, λ e. cc) process_ahead
