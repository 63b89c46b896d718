-- ===== src/Tests/Dispatches.antt =====
-- The server's runs, at concrete inputs.
use linux_class.Common.{
  arith, subst, some_inj, ◌∷◌, ◌++◌, Bytes, get_elem?, ◌≡◌, refl, [], codes, str_eq, some, true,
}
use linux_class.Common.Int.{pos}
use linux_class.Operation.{insert, apply_operation, apply_insert}
use linux_class.Message.{Message, message_init}
use linux_class.Utf8.{char_count, char_bytes, byte_offset, is_utf8_continuation}
use linux_class.Document.{
  Doc, ProcessResult, process_ok, ok_result, document_init, normalize_for_apply, transform_loop,
  transformed_op, append_history, new_entry, commit, locked, checked, process_operation,
}
use linux_class.Server.{Connection, choose_client_id, client_id_exists}
use linux_class.Server.Dispatch.{
  dispatch_save, Server, send_to, send_event, welcome_client, dispatch_message, dispatch_op,
  leave_client,
}
use linux_class.Server.Dispatch.Delivery.{dispatch_message-delivers}
use linux_class.Server.Dispatch.Safe.{Handled, dispatch_message-Handled}
use linux_class.Document.History.{Inv, document_init-Inv}
use linux_class.Document.Replay.{IsReplay, document_init-IsReplay, ValidOp}
use linux_class.Utf8.Char.{one}
use linux_class.Autosave.{log}
use linux_class.Events.{format_server_event}
use linux_class.Events.Sessions.{sessions-printed}
use linux_class.Server.Thread.{left, serve, dispatch_loop, client_thread_main}
use linux_class.Server.Thread.Life.{Served, client_thread_main-Served, client_thread_main-Ends}

abbrev pub empty_server : Server
empty_server = record {
  registry = record { clients = []; next_client_number = 1 };
  document = document_init (some (codes "ab")) 10;
  events = [];
}

abbrev pub caller : Connection
caller = record { fd = 5; client_id = []; address = codes "host"; outbox = [] }

abbrev pub join_as_ann : Message
join_as_ann = record message_init { type = codes "JOIN"; client_id = codes "ann" }

abbrev type_x : Message
type_x = record message_init {
  type = codes "OP";
  op_id = codes "ann-1";
  base_version = pos 0;
  has_op = true;
  op = record { kind = insert; pos = 1; ch = codes "x"; reason = [] };
}

abbrev ann : Connection
ann = record caller { client_id = codes "ann" }

-- "ann" and "bob" are there; the operation of "ann" is acknowledged to her and broadcast to "bob".
abbrev pub bob : Connection
bob = record { fd = 6; client_id = codes "bob"; address = []; outbox = [] }

abbrev both : Server
both = record empty_server {
  registry = record { clients = ann ∷ bob ∷ []; next_client_number = 1 };
}

x_done :
    (d : Doc) × (r : ProcessResult) × (process_operation both.document
        (codes "ann")
        (codes "ann-1")
        (pos 0)
        (some type_x.op)
      ≡ some (d, r))
unfolding process_operation checked locked commit transformed_op normalize_for_apply transform_loop
    append_history new_entry apply_operation apply_insert char_count byte_offset char_bytes
    is_utf8_continuation document_init
x_done = (_, _, refl)

x_done_ok : x_done.1.status ≡ process_ok
unfolding x_done ok_result
x_done_ok = refl

dispatch_message-delivers_example :
    (t : Server) × (dispatch_message both ann type_x ≡ some t)
    × (t.document ≡ x_done.0)
    × (get_elem? t.registry.clients 1 ≡ some (record bob { outbox = x_done.1.remote ∷ [] }))
unfolding str_eq
dispatch_message-delivers_example =
    dispatch_message-delivers both ann type_x x_done.0 x_done.1 1 bob refl x_done.2 x_done_ok refl
      refl

dispatch_message-Handled_example : Handled (dispatch_message both ann type_x)
dispatch_message-Handled_example =
    dispatch_message-Handled both ann type_x (document_init-Inv (some (codes "ab")) 10)
      (document_init-IsReplay ((0x61 ∷ []) ∷ (0x62 ∷ []) ∷ []) 10
        (one (omega arith) (omega arith), (one (omega arith) (omega arith), tt)))
      (λ o e. subst ValidOp (some_inj e) (λ _. one (omega arith) (omega arith)))

sessions-printed_example :
    ((joined : Bytes) × ((welcome_client both caller (codes "ann")).events
        ≡ both.events ++ log joined ∷ [])
      × (format_server_event (some joined) 512
          ≡ codes "JOIN client=" ++ (codes "ann" ++ (codes " address=" ++ caller.address))))
    × ((left : Bytes) × ((leave_client both (record caller { client_id = codes "ann" })).events
          ≡ both.events ++ log left ∷ [])
        × (format_server_event (some left) 512 ≡ codes "LEAVE client=" ++ codes "ann"))
sessions-printed_example =
    sessions-printed both caller (codes "ann") (omega arith) (omega arith) (omega arith)
      (omega arith)

abbrev save_it : Message
save_it = record message_init { type = codes "SAVE" }

-- "ann" joins, types, saves, and leaves, in one run of her thread.
ann_served :
    (t : Server) × (client_thread_main empty_server caller
        (some join_as_ann)
        (type_x ∷ save_it ∷ [])
      ≡ some (left t))
unfolding client_thread_main serve dispatch_loop choose_client_id client_id_exists dispatch_message
    dispatch_op dispatch_save str_eq process_operation checked locked commit transformed_op
    normalize_for_apply transform_loop append_history new_entry apply_operation apply_insert
    char_count byte_offset char_bytes is_utf8_continuation document_init welcome_client send_to
    send_event
ann_served = (_, refl)

client_thread_main-Served_example :
    (join_as_ann.type ≡ codes "JOIN")
    × Served empty_server ann_served.0 caller (type_x ∷ save_it ∷ [])
client_thread_main-Served_example =
    client_thread_main-Served empty_server ann_served.0 caller join_as_ann (type_x ∷ save_it ∷ [])
      (omega arith) ann_served.1

client_thread_main-Ends_example :
    (t : Server) × (client_thread_main empty_server caller
        (some join_as_ann)
        (type_x ∷ save_it ∷ [])
      ≡ some (left t))
    × Inv t.document
    × IsReplay t.document
    × Served empty_server t caller (type_x ∷ save_it ∷ [])
client_thread_main-Ends_example =
    client_thread_main-Ends empty_server caller join_as_ann (type_x ∷ save_it ∷ []) refl
      (omega arith) (document_init-Inv (some (codes "ab")) 10)
      (document_init-IsReplay ((0x61 ∷ []) ∷ (0x62 ∷ []) ∷ []) 10
        (one (omega arith) (omega arith), (one (omega arith) (omega arith), tt)))
      (
        (λ o e. subst ValidOp (some_inj e) (λ _. one (omega arith) (omega arith))),
        ((λ o e. cc), tt),
      )
