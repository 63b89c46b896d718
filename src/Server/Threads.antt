-- ===== src/Server/Threads.antt =====
-- server.c: the threads of the clients, step by step. A step is what happens under one lock, or one call of
-- `ts_transport_send` or of `ts_autosave_send_*`; between two steps of a thread any other thread may run.
pub mod Pending
pub mod Interleave
use linux_class.Common.{
  ℕ, Bool, true, false, List, [], ◌∷◌, ◌++◌, Option, none, some, ◌>>=◌, Bytes, codes, str_eq, fit,
  ◌≡◌, if◌then◌else◌,
}
use linux_class.Common.Int.{pos}
use linux_class.Message.{Message, message_init}
use linux_class.Document.{
  ProcessStatus, process_ok, ProcessResult, document_snapshot, process_operation,
}
use linux_class.Autosave.{Event, snapshot, save_now, log, payload}
use linux_class.Server.{Connection, register_client, unregister_client, choose_client_id}
use linux_class.Server.Dispatch.{Server, send_event, send_to, broadcast_to, pong, unsupported}

-- What a thread still has to do. The connection is the thread's own.
pub data Task : Type 0 where
  chooses : Connection → Bytes → Task
  registers : Connection → Task
  unregisters : Bytes → Task
  processes : Connection → Message → Task
  snapshots : ℕ → Task
  saves : ℕ → Task
  emits : Event → Task
  sends : ℕ → Message → Task
  broadcasts : Bytes → Message → Task

unfoldable pub send_each_task : ℕ → List Message → List Task
send_each_task fd [] = []
send_each_task fd (m ∷ ms) = sends fd m ∷ send_each_task fd ms

-- `dispatch_message`, once the document has answered an operation.
unfoldable pub publish_tasks : ProcessStatus → Connection → ProcessResult → List Task
publish_tasks process_ok c r =
    emits (snapshot (payload r.snapshot_content) r.snapshot_version)
    ∷ emits (log r.log_json)
    ∷ ((if r.has_ack then sends c.fd r.ack ∷ [] else [])
        ++ (if r.has_remote then broadcasts c.client_id r.remote ∷ [] else []))
publish_tasks _ c r = send_each_task c.fd r.messages

-- `dispatch_message`, up to its first step.
unfoldable pub dispatch_tasks : Connection → Message → List Task
dispatch_tasks c m =
    if str_eq m.type (codes "OP")
    then processes c m ∷ []
    else if str_eq m.type (codes "SAVE")
    then saves c.fd ∷ []
    else if str_eq m.type (codes "REQUEST_DOC")
    then snapshots c.fd ∷ []
    else if str_eq m.type (codes "PING")
    then sends c.fd pong ∷ []
    else sends c.fd (unsupported m) ∷ []

-- `client_thread_main` behind the choice of the identifier, up to its loop.
unfoldable pub welcome_tasks : Connection → Bytes → List Task
welcome_tasks c id =
    registers (record c { client_id = id })
    ∷ sends c.fd (record message_init { type = codes "WELCOME"; client_id = fit 64 id })
    ∷ snapshots c.fd
    ∷ emits (
        log (
          fit 512 (
            codes "{\"event\":\"join\",\"client_id\":\""
            ++ (id ++ (codes "\",\"address\":\"" ++ (c.address ++ codes "\"}"))))))
    ∷ []

unfoldable pub join_tasks : Connection → Message → List Task
join_tasks c m = chooses c m.client_id ∷ []

-- The end of `client_thread_main`.
unfoldable pub leave_tasks : Connection → List Task
leave_tasks c =
    unregisters c.client_id
    ∷ emits (
        log
          (fit 512 (codes "{\"event\":\"leave\",\"client_id\":\"" ++ (c.client_id ++ codes "\"}"))))
    ∷ []

-- One step: the server behind it, and what the thread has to do next, before the rest. `none` is a read outside a text.
unfoldable pub perform : Task → Server → Option (Server × List Task)
perform (chooses c requested) s = do
  (id, registry) ← choose_client_id s.registry requested
  some (record s { registry = registry }, welcome_tasks c id)
perform (registers c) s = some (record s { registry = register_client s.registry c }, [])
perform (unregisters id) s = some (record s { registry = unregister_client s.registry id }, [])
perform (processes c m) s = do
  (doc, r) ←
      process_operation s.document c.client_id m.op_id m.base_version
        (if m.has_op then some m.op else none)
  some (record s { document = doc }, publish_tasks r.status c r)
perform (snapshots fd) s = some (s, sends fd (document_snapshot s.document) ∷ [])
perform (saves fd) s = some (
  s,
  emits (save_now s.document.text s.document.version)
      ∷ sends fd
          (record message_init { type = codes "SAVE_QUEUED"; version = pos s.document.version })
      ∷ [],
)
perform (emits e) s = some (send_event s e, [])
perform (sends fd m) s = some (send_to s fd m, [])
perform (broadcasts exclude m) s = some (broadcast_to s exclude m, [])

-- The server, and what each of its threads has to do.
pub record System : Type 0 where
  pub server : Server
  pub threads : List (List Task)

-- A step of one of the threads, between the others. A new thread joins; an idle one handles a message, or leaves.
pub data Moves : System → System → Type 0 where
  accepts :
      (s : Server) (threads : List (List Task)) (c : Connection) (m : Message)
      → c.outbox ≡ []
      → Moves
          (record { server = s; threads = threads })
          (record { server = s; threads = join_tasks c m ∷ threads })
  handles :
      (s : Server) (before after : List (List Task)) (c : Connection) (m : Message)
      → Moves
          (record { server = s; threads = before ++ ([] ∷ after) })
          (record { server = s; threads = before ++ (dispatch_tasks c m ∷ after) })
  leaves :
      (s : Server) (before after : List (List Task)) (c : Connection)
      → Moves
          (record { server = s; threads = before ++ ([] ∷ after) })
          (record { server = s; threads = before ++ (leave_tasks c ∷ after) })
  acts :
      (s t : Server) (before after : List (List Task)) (task : Task) (rest more : List Task)
      → perform task s ≡ some (t, more)
      → Moves
          (record { server = s; threads = before ++ ((task ∷ rest) ∷ after) })
          (record { server = t; threads = before ++ ((more ++ rest) ∷ after) })

pub data Schedule : System → System → Type 0 where
  start : (x : System) → Schedule x x
  next : (x y z : System) → Schedule x y → Moves y z → Schedule x z
