-- ===== src/Document.antt =====
-- document.c: the authoritative document, its history, and the processing of a client's operation.
-- The lock makes each call one step. Allocation succeeds. Versions count up from 0 and are numbers;
-- a client's `base_version` is any `int`.
pub mod Transform
pub mod Log
pub mod History
pub mod Outcome
pub mod Invariant
pub mod Replay
pub mod Total
pub mod Sync
pub mod Since
pub mod Answer
use linux_class.Common.{
  ℕ, zero, suc, ◌+◌, ◌-◌, ◌≡◌, Bool, true, false, ◌||◌, List, [], ◌∷◌, ◌++◌, Option, none, some,
  ◌>>=◌, Bytes, codes, fit, ltb, leb, ◌==◌, if◌then◌else◌, length, drop,
}
use linux_class.Common.Int.{ℤ, pos, ltb_ℤ}
use linux_class.Utf8.{char_count}
use linux_class.Operation.{
  OpKind, invalid, insert, delete, noop, Operation, operation_noop, apply_operation,
}
use linux_class.Message.{Message, message_init}
use Transform.{transform_against}
use Log.{build_operation_log}

pub record HistoryEntry : Type 0 where
  pub server_version : ℕ
  pub client_id : Bytes
  pub op_id : Bytes
  pub base_version : ℤ
  pub original_op : Operation
  pub op : Operation

-- `history` holds the first `history_count` entries, oldest first.
pub record Doc : Type 0 where
  pub text : Bytes
  pub version : ℕ
  pub history_start_version : ℕ
  pub history_limit : ℕ
  pub history : List HistoryEntry

pub data ProcessStatus : Type 0 where
  process_ok process_error process_resync : ProcessStatus

-- `messages` holds the first `message_count` entries.
pub record ProcessResult : Type 0 where
  pub status : ProcessStatus
  pub messages : List Message
  pub ack : Message
  pub remote : Message
  pub has_ack : Bool
  pub has_remote : Bool
  pub snapshot_content : Option Bytes
  pub snapshot_version : ℕ
  pub log_json : Bytes

unfoldable pub document_init : Option Bytes → ℕ → Doc
document_init initial_text history_limit = record {
  text = elim initial_text [ none ↦ [] | some t ↦ t ];
  version = 0;
  history_start_version = 0;
  history_limit = if history_limit == 0 then 1000 else history_limit;
  history = [];
}

unfoldable pub document_snapshot : Doc → Message
document_snapshot doc = record message_init {
  type = codes "DOC_STATE";
  version = pos doc.version;
  history_start_version = pos doc.history_start_version;
  content = some doc.text;
}

unfoldable pub process_result_init : ProcessResult
process_result_init = record {
  status = process_ok;
  messages = [];
  ack = message_init;
  remote = message_init;
  has_ack = false;
  has_remote = false;
  snapshot_content = none;
  snapshot_version = 0;
  log_json = [];
}

-- `set_message_error`.
unfoldable pub message_error : Bytes → Bytes → Message
message_error op_id text = record message_init {
  type = codes "ERROR";
  op_id = fit 64 op_id;
  message = fit 160 text;
}

normalize_kind : OpKind → ℕ → Operation → Operation
normalize_kind noop text_len op = op
normalize_kind insert text_len op = if ltb text_len op.pos then record op { pos = text_len } else op
normalize_kind delete text_len op =
    if ltb op.pos text_len then op else operation_noop op (codes "delete position out of range")
normalize_kind invalid text_len op = operation_noop op (codes "invalid operation")

unfoldable pub normalize_for_apply : Doc → Operation → Operation
unfolding normalize_kind operation_noop
normalize_for_apply doc op = normalize_kind op.kind (char_count doc.text) op

-- The `if` of `append_history`: the oldest entry goes when the array is full.
unfoldable pub trim_history : ℕ → List HistoryEntry → List HistoryEntry
trim_history limit history = if length history == limit then drop 1 history else history

-- `history[0].server_version - 1`, or 0 if that is below 0; `version` if there is no entry.
unfoldable pub history_start : ℕ → List HistoryEntry → ℕ
history_start version [] = version
history_start version (h ∷ _) = h.server_version - 1

unfoldable pub append_history : Doc → HistoryEntry → Doc
unfolding trim_history history_start
append_history doc entry =
    let history = trim_history doc.history_limit doc.history ++ (entry ∷ []) in
    record doc { history = history; history_start_version = history_start doc.version history }

-- The loop over the history.
unfoldable pub transform_loop : ℤ → Operation → List HistoryEntry → Operation
transform_loop base_version transformed [] = transformed
transform_loop base_version transformed (h ∷ hs) =
    transform_loop base_version
      (if ltb_ℤ base_version (pos h.server_version)
        then transform_against transformed h.op
        else transformed)
      hs

unfoldable pub error_result : Bytes → Bytes → ProcessResult
unfolding process_result_init message_error
error_result op_id text = record process_result_init {
  status = process_error;
  messages = message_error op_id text ∷ [];
}

unfoldable pub resync_result : Doc → Bytes → ℤ → ProcessResult
unfolding process_result_init document_snapshot
resync_result doc op_id base_version = record process_result_init {
  status = process_resync;
  messages = required ∷ document_snapshot doc ∷ [];
}
  where
    required : Message
    required = record message_init {
      type = codes "RESYNC_REQUIRED";
      op_id = fit 64 op_id;
      reason =
          if ltb_ℤ base_version (pos doc.history_start_version)
          then codes "operation history expired"
          else codes "client version is ahead of server";
      server_version = pos doc.version;
      history_start_version = pos doc.history_start_version;
    }

-- The entry that is appended, and the result, for the document `doc` after the change.
unfoldable pub new_entry : Bytes → Bytes → ℤ → Operation → Operation → ℕ → HistoryEntry
new_entry client_id op_id base_version op transformed server_version = record {
  server_version = server_version;
  client_id = fit 64 client_id;
  op_id = fit 64 op_id;
  base_version = base_version;
  original_op = op;
  op = transformed;
}

unfoldable pub ok_result : Doc → Bytes → Bytes → ℤ → Operation → Operation → ProcessResult
unfolding process_result_init build_operation_log char_count
ok_result doc client_id op_id base_version op transformed = record process_result_init {
  status = process_ok;
  has_ack = true;
  ack = record message_init {
    type = codes "ACK";
    client_id = fit 64 client_id;
    op_id = fit 64 op_id;
    base_version = base_version;
    server_version = pos doc.version;
    version = pos doc.version;
    op = transformed;
    has_op = true;
    original_op = op;
    has_original_op = true;
  };
  has_remote = true;
  remote = record message_init {
    type = codes "REMOTE_OP";
    client_id = fit 64 client_id;
    op_id = fit 64 op_id;
    server_version = pos doc.version;
    version = pos doc.version;
    op = transformed;
    has_op = true;
  };
  snapshot_content = some doc.text;
  snapshot_version = doc.version;
  log_json =
      build_operation_log doc.version client_id op_id base_version op transformed
        (char_count doc.text);
}

-- The critical section behind the version check.
unfoldable pub transformed_op : Doc → ℤ → Operation → Operation
transformed_op doc base_version op =
    normalize_for_apply doc (transform_loop base_version op doc.history)

unfoldable pub commit : Doc → Bytes → Bytes → ℤ → Operation → Option (Doc × ProcessResult)
commit doc client_id op_id base_version op = do
  let transformed = transformed_op doc base_version op
  updated ← apply_operation doc.text transformed
  let applied = record doc { text = updated; version = doc.version + 1 }
  let entry = new_entry client_id op_id base_version op transformed (doc.version + 1)
  let doc' = append_history applied entry
  some (doc', ok_result doc' client_id op_id base_version op transformed)

abbrev pub is_stale : Doc → ℤ → Bool
is_stale doc base_version =
    ltb_ℤ base_version (pos doc.history_start_version) || ltb_ℤ (pos doc.version) base_version

unfoldable pub locked : Doc → Bytes → Bytes → ℤ → Operation → Option (Doc × ProcessResult)
locked doc client_id op_id base_version op =
    if is_stale doc base_version
    then some (doc, resync_result doc op_id base_version)
    else commit doc client_id op_id base_version op

unfoldable pub checked : OpKind → Doc → Bytes → Bytes → ℤ → Operation → Option (Doc × ProcessResult)
checked invalid doc client_id op_id base_version op =
    some (doc, error_result op_id (codes "invalid operation"))
checked insert doc client_id op_id base_version op =
    if char_count op.ch == 1
    then locked doc client_id op_id base_version op
    else some (doc, error_result op_id (codes "insert operation requires one UTF-8 character"))
checked delete doc client_id op_id base_version op = locked doc client_id op_id base_version op
checked noop doc client_id op_id base_version op = locked doc client_id op_id base_version op

-- `ts_document_process_operation`. A null `op` is `none`; a result of `none` is a read outside the
-- text's buffer.
unfoldable pub process_operation :
    Doc → Bytes → Bytes → ℤ → Option Operation → Option (Doc × ProcessResult)
process_operation doc client_id op_id base_version none =
    some (doc, error_result op_id (codes "invalid operation"))
process_operation doc client_id op_id base_version (some op) =
    checked op.kind doc client_id op_id base_version op
