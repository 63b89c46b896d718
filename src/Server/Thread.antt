-- ===== src/Server/Thread.antt =====
-- server.c: a whole run of `client_thread_main` that no other thread interrupts, and `server_shutdown`.
pub mod Told
pub mod Worked
pub mod Served
pub mod Life
use linux_class.Common.{
  Bool, false, List, [], ◌∷◌, ◌++◌, Option, none, some, ◌>>=◌, codes, str_eq, if◌then◌else◌,
}
use linux_class.Message.{Message, message_init}
use linux_class.Autosave.{Event, save_now}
use linux_class.Server.{Connection, choose_client_id}
use linux_class.Server.Dispatch.{Server, send_event, dispatch_message, welcome_client, leave_client}

-- The first message is not accepted, or the client has joined and left.
pub data Session : Type 0 where
  refused : Connection → Session
  left : Server → Session

-- The answer to a first message that is no JOIN; the connection is on no list.
unfoldable pub refuse : Connection → Connection
refuse c = record c {
  outbox =
      c.outbox
      ++ record message_init { type = codes "ERROR"; message = codes "first message must be JOIN" }
        ∷ [];
}

-- The loop over the messages that are received before the connection fails or the server stops.
unfoldable pub dispatch_loop : List Message → Server → Connection → Option Server
dispatch_loop [] s c = some s
dispatch_loop (m ∷ ms) s c = do s' ← dispatch_message s c m; dispatch_loop ms s' c

unfoldable pub serve : Server → Connection → Message → List Message → Option Session
serve s c m ms = do
  (id, registry) ← choose_client_id s.registry m.client_id
  let named = record c { client_id = id }
  s' ← dispatch_loop ms (welcome_client (record s { registry = registry }) c id) named
  some (left (leave_client s' named))

-- `none` in the place of the first message is a failure of receiving it.
unfoldable pub client_thread_main :
    Server → Connection → Option Message → List Message → Option Session
client_thread_main s c none ms = some (refused (refuse c))
client_thread_main s c (some m) ms =
    let served = serve s c m ms in
    if str_eq m.type (codes "JOIN") then served else some (refused (refuse c))

-- The last save, before the STOP, when the server was not stopping already.
unfoldable pub server_shutdown : Bool → Server → Server
server_shutdown stopping s =
    if stopping then s else send_event s (save_now s.document.text s.document.version)
