-- ===== src/Server/Start.antt =====
-- server.c: `main` up to its loop, and the loop, where the process that saves starts and the socket listens; util.c:
-- `ts_read_file_text`.
use linux_class.Common.{
  ℕ, print_nat, ◌+◌, ◌-◌, ◌^◌, refl, List, [], ◌∷◌, ◌++◌, Option, none, some, Bytes, codes, str_eq,
  fit, drop, if◌then◌else◌,
}
use linux_class.Common.Int.{ℤ, pos, negsuc}
use linux_class.Events.{atoi}
use linux_class.Document.{document_init}
use linux_class.Autosave.{snapshot}
use linux_class.Protocol.Transport.{c_string}
use linux_class.Server.{Connection}
use linux_class.Server.Dispatch.{Server, send_event}
use linux_class.Server.Threads.{System, Schedule}
use linux_class.Server.Threads.Interleave.{Steady, schedule-Steady}

-- The argument behind the first one that is `name`.
unfoldable pub arg_loop : List Bytes → Bytes → Option Bytes
arg_loop [] name = none
arg_loop (a ∷ []) name = none
arg_loop (a ∷ (b ∷ rest)) name =
    let later = arg_loop (b ∷ rest) name in if str_eq a name then some b else later

unfoldable pub parse_str_arg : List Bytes → Bytes → Bytes → Bytes
parse_str_arg argv name fallback = elim (arg_loop (drop 1 argv) name) [
  | none ↦ fallback
  | some value ↦ value
]

unfoldable pub parse_int_arg : List Bytes → Bytes → ℤ → ℤ
parse_int_arg argv name fallback = elim (arg_loop (drop 1 argv) name) [
  | none ↦ fallback
  | some value ↦ atoi value
]

-- How far the calls of stdio and `malloc` get, and the bytes that `fread` returns.
pub data Opened : Type 0 where
  no_file : Opened
  no_seek : Opened
  no_size : Opened
  no_memory : Opened
  contents : Bytes → Opened

-- `none` is null.
unfoldable pub read_file_text : Opened → Option Bytes
read_file_text no_file = some []
read_file_text no_seek = some []
read_file_text no_size = some []
read_file_text no_memory = none
read_file_text (contents bytes) = some bytes

-- `(size_t)` of an `int`.
unfoldable pub size_of_int : ℤ → ℕ
size_of_int (pos n) = n
size_of_int (negsuc n) = 2 ^ 64 - (n + 1)

-- What `main` takes from its arguments.
pub record Options : Type 0 where
  pub host : Bytes
  pub port : ℤ
  pub document_path : Bytes
  pub log_path : Bytes
  pub history_limit : ℤ
  pub autosave_interval_ms : ℤ

unfoldable pub parse_options : List Bytes → Options
parse_options argv =
    let document_path = fit 512 (parse_str_arg argv (codes "--file") (codes "shared.c")) in
    record {
      host = fit 128 (parse_str_arg argv (codes "--host") (codes "127.0.0.1"));
      port = parse_int_arg argv (codes "--port") (pos 8765);
      document_path = document_path;
      log_path = fit 1024 (document_path ++ codes ".edit.log");
      history_limit = parse_int_arg argv (codes "--history") (pos 1000);
      autosave_interval_ms = parse_int_arg argv (codes "--autosave-interval-ms") (pos 5000);
    }

abbrev text_or_empty : Option Bytes → Bytes
text_or_empty none = []
text_or_empty (some text) = text

-- The server before it listens: the text of the file, and the first snapshot for the process that saves.
unfoldable pub start_server : List Bytes → Opened → Server
start_server argv file =
    let text = c_string (text_or_empty (read_file_text file)) in
    let limit = size_of_int (parse_options argv).history_limit in
    send_event
      (record {
        registry = record { clients = []; next_client_number = 1 };
        document = document_init (some text) limit;
        events = [];
      })
      (snapshot text 0)

-- A turn of the loop: nothing comes (no client within 200 ms, an interruption, no memory), a connection is accepted,
-- or `select` or `accept` fails.
pub data Turn : Type 0 where
  idle : Turn
  accepted : ℕ → Bytes → ℕ → Turn
  fails : Turn

unfoldable pub new_connection : ℕ → Bytes → ℕ → Connection
new_connection fd host port = record {
  fd = fd;
  client_id = [];
  address = fit 128 (host ++ (b':' ∷ print_nat port));
  outbox = [];
}

-- The connections whose threads are created, until the loop is stopped or fails.
unfoldable pub accept_loop : List Turn → List Connection
unfolding new_connection
accept_loop [] = []
accept_loop (idle ∷ turns) = accept_loop turns
accept_loop (accepted fd host port ∷ turns) = new_connection fd host port ∷ accept_loop turns
accept_loop (fails ∷ turns) = []

-- Whatever the arguments and the file are, however many clients come, and however the steps of their threads are interleaved,
-- there is one history of texts, each made from the one before by one operation, such that every snapshot, acknowledgement and
-- broadcast, in a connection or still to be sent by a thread, holds one of its texts or carries one of its operations under
-- the right version, and the document holds its last text.
pub start_server-Steady :
    (argv : List Bytes) (file : Opened) (y : System)
    → Schedule (record { server = start_server argv file; threads = [] }) y
    → Steady y
unfolding start_server send_event
start_server-Steady argv file y h =
    schedule-Steady (record { server = start_server argv file; threads = [] }) y h refl refl
