-- ===== src/Server/Dispatch.antt =====
-- server.c: what a client's thread does with the messages it receives, one message at a time. The
-- lines printed on the server's terminal are left out.
pub mod Extend
pub mod Stream
pub mod Answers
pub mod Run
pub mod Clients
pub mod Delivery
pub mod Safe
use linux_class.Common.{
  ℕ, ◌+◌, Bool, true, false, not, List, [], ◌∷◌, ◌++◌, Option, none, some, ◌>>=◌, Bytes, codes,
  str_eq, fit, ◌==◌, if◌then◌else◌,
}
use linux_class.Common.Int.{pos}
use linux_class.Message.{Message, message_init}
use linux_class.Autosave.{Event, snapshot, save_now, log, payload}
use linux_class.Document.{
  Doc, ProcessStatus, process_ok, process_error, process_resync, ProcessResult, document_snapshot,
  process_operation,
}
use linux_class.Server.{
  Connection, Registry, choose_client_id, register_client, unregister_client, broadcast_message,
}

pub record Server : Type 0 where
  pub registry : Registry
  pub document : Doc
  pub events : List Event

unfoldable pub send_event : Server → Event → Server
send_event s e = record s { events = s.events ++ e ∷ [] }

-- `ts_transport_send` over one connection.
unfoldable pub send_over : List Connection → ℕ → Message → List Connection
send_over [] fd m = []
send_over (c ∷ cs) fd m =
    (if c.fd == fd then record c { outbox = c.outbox ++ m ∷ [] } else c) ∷ send_over cs fd m

unfoldable pub send_to : Server → ℕ → Message → Server
send_to s fd m = record s {
  registry = record s.registry { clients = send_over s.registry.clients fd m };
}

unfoldable pub send_messages : Server → ℕ → List Message → Server
send_messages s fd [] = s
send_messages s fd (m ∷ ms) = send_messages (send_to s fd m) fd ms

unfoldable pub broadcast_to : Server → Bytes → Message → Server
broadcast_to s exclude m = record s { registry = broadcast_message s.registry m (some exclude) }

-- What `dispatch_message` does with the result of an operation.
unfoldable pub publish_ok : Server → Connection → ProcessResult → Server
publish_ok s c r =
    let s1 = send_event s (snapshot (payload r.snapshot_content) r.snapshot_version) in
    let s2 = send_event s1 (log r.log_json) in
    let s3 = if r.has_ack then send_to s2 c.fd r.ack else s2 in
    if r.has_remote then broadcast_to s3 c.client_id r.remote else s3

unfoldable pub publish : ProcessStatus → Server → Connection → ProcessResult → Server
publish process_ok s c r = publish_ok s c r
publish _ s c r = send_messages s c.fd r.messages

unfoldable pub dispatch_op : Server → Connection → Message → Option Server
dispatch_op s c m = do
  (doc, r) ←
      process_operation s.document c.client_id m.op_id m.base_version
        (if m.has_op then some m.op else none)
  some (publish r.status (record s { document = doc }) c r)

unfoldable pub dispatch_save : Server → Connection → Server
dispatch_save s c =
    send_to (send_event s (save_now s.document.text s.document.version)) c.fd
      (record message_init { type = codes "SAVE_QUEUED"; version = pos s.document.version })

abbrev pub pong : Message
pong = record message_init { type = codes "PONG" }

abbrev pub unsupported : Message → Message
unsupported m = record message_init {
  type = codes "ERROR";
  message = fit 160 (codes "unsupported message type: " ++ m.type);
}

-- `dispatch_message`; `none` is a read outside a text's buffer.
unfoldable pub dispatch_message : Server → Connection → Message → Option Server
dispatch_message s c m =
    if str_eq m.type (codes "OP")
    then dispatch_op s c m
    else if str_eq m.type (codes "SAVE")
    then some (dispatch_save s c)
    else if str_eq m.type (codes "REQUEST_DOC")
    then some (send_to s c.fd (document_snapshot s.document))
    else if str_eq m.type (codes "PING")
    then some (send_to s c.fd (record message_init { type = codes "PONG" }))
    else some (
        send_to s c.fd (record message_init {
          type = codes "ERROR";
          message = fit 160 (codes "unsupported message type: " ++ m.type);
        }))

-- `client_thread_main` from the JOIN up to its loop.
unfoldable pub welcome_client : Server → Connection → Bytes → Server
welcome_client s c id =
    let s1 = record s { registry = register_client s.registry (record c { client_id = id }) } in
    let s2 =
      send_to s1 c.fd (record message_init { type = codes "WELCOME"; client_id = fit 64 id }) in
    let s3 = send_to s2 c.fd (document_snapshot s2.document) in
    send_event s3 (
      log (
        fit 512 (
          codes "{\"event\":\"join\",\"client_id\":\""
          ++ (id ++ (codes "\",\"address\":\"" ++ (c.address ++ codes "\"}"))))))

unfoldable pub join_client : Server → Connection → Message → Option Server
join_client s c m = do
  (id, registry) ← choose_client_id s.registry m.client_id
  some (welcome_client (record s { registry = registry }) c id)

-- The end of `client_thread_main`.
unfoldable pub leave_client : Server → Connection → Server
leave_client s c =
    send_event (record s { registry = unregister_client s.registry c.client_id })
      (log
        (fit 512 (codes "{\"event\":\"leave\",\"client_id\":\"" ++ (c.client_id ++ codes "\"}"))))
