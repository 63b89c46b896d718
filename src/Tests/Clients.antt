-- ===== src/Tests/Clients.antt =====
-- The client's state, at concrete inputs.
use linux_class.Common.{
  ℕ, zero, suc, ◌≡◌, refl, List, [], ◌∷◌, ◌++◌, some, ◌>>=◌, Bytes, codes, str_eq, print_nat, true,
  false, Bool, flatten, arith,
}
use linux_class.Common.Int.{pos, negsuc}
use linux_class.Utf8.{char_count, char_bytes, byte_offset, is_utf8_continuation}
use linux_class.Utf8.Char.{one, AllChars}
use linux_class.Operation.{insert, Operation, apply_operation, apply_insert}
use linux_class.Operation.Apply.{apply_operation-edit}
use linux_class.Message.{Message, message_init}
use linux_class.ClientState.{
  ClientState, state_init, pump_queue, state_pump, next_op_id, enqueue, queue_operation,
  apply_authoritative_op, handle_ack, handle_remote, handle_message,
}
use linux_class.Server.Dispatch.{Server}
use linux_class.Server.Dispatch.Stream.{Truthful}
use linux_class.ClientState.Order.{
  Event, typed, received, run, react, sent_ops, queued_ops, run-in_order,
}
use linux_class.ClientState.Mirror.{Timeline, Follows, handle_message-Follows}
use linux_class.ClientState.Drain.{follow, Drained, follow-Drained}
use linux_class.ClientState.Early.{Shows, ack_overtakes}

abbrev pub put : Operation
put = record { kind = insert; pos = 0; ch = 0x78 ∷ []; reason = [] }

-- Version `v` is a text of `v` times "x".
abbrev pub xs : ℕ → List Bytes
xs zero = []
xs (suc v) = (0x78 ∷ []) ∷ xs v

pub xs-ok : (v : ℕ) → AllChars (xs v)
xs-ok zero = tt
xs-ok (suc v) = (one (omega arith) (omega arith), xs-ok v)

abbrev pub growing : Timeline
growing = record {
  texts = λ v. flatten (xs v);
  log = λ v. put;
  next = λ v. apply_operation-edit (xs v) put (xs-ok v);
}

-- A client at version 2 that waits for the acknowledgement of "u-1", with one more operation queued.
abbrev pub waiting : ClientState
waiting = record (state_init (some (codes "u")) true) {
  content = codes "xx";
  version = 2;
  queue = record { op_id = codes "u-2"; op = put; base_version = negsuc 0 } ∷ [];
  has_inflight = true;
  inflight = record { op_id = codes "u-1"; op = put; base_version = pos 2 };
  can_send = true;
}

abbrev pub acked : ℕ → Message
acked v = record message_init {
  type = codes "ACK";
  op_id = codes "u-1";
  version = pos v;
  op = put;
  has_op = true;
}

abbrev broadcast : ℕ → Message
broadcast v = record message_init {
  type = codes "REMOTE_OP";
  version = pos v;
  op = put;
  has_op = true;
}

handle_message-Follows_example : Follows growing (handle_message waiting (acked 3))
handle_message-Follows_example =
    handle_message-Follows growing waiting (acked 3) (record { same = refl; can = refl })
      (record {
        snapshot = λ e. cc;
        remote = λ e. cc;
        ack = λ e. λ i. λ o. record { has_op = refl; op = refl; version = refl };
      })

-- Version 4 is acknowledged before the broadcast of version 3: the text has three characters.
ack_overtakes_example :
    Shows (codes "xxx") 4 (handle_ack waiting (acked 4) >>= λ r. handle_remote r.0 (broadcast 3))
ack_overtakes_example =
    ack_overtakes waiting (acked 4) (broadcast 3) 4 3 (codes "xxx") refl refl refl refl
      (growing.next 2) refl (omega arith)

abbrev busy : List Event
busy = typed put ∷ received (acked 3) ∷ received (acked 3) ∷ []

busy_run : (t : ClientState) × (out : List Message) × (run waiting busy ≡ some (t, out))
unfolding run react queue_operation enqueue next_op_id print_nat state_pump pump_queue
    handle_message handle_ack apply_authoritative_op str_eq apply_operation apply_insert char_count
    byte_offset char_bytes is_utf8_continuation
busy_run = (_, _, refl)

run-in_order_example :
    sent_ops busy_run.1 ++ queued_ops busy_run.0.queue ≡ queued_ops waiting.queue ++ put ∷ []
run-in_order_example = run-in_order busy waiting busy_run.0 busy_run.1 busy_run.2

-- A server at version 3 has acknowledged "u-1" to its one client.
abbrev pub one_client : Server
one_client = record {
  registry = record {
    clients = record { fd = 4; client_id = codes "u"; address = []; outbox = acked 3 ∷ [] } ∷ [];
    next_client_number = 1;
  };
  document = record {
    text = codes "xxx";
    version = 3;
    history_start_version = 3;
    history_limit = 5;
    history = [];
  };
  events = [];
}

pub one_client-Truthful : Truthful growing one_client
one_client-Truthful = record {
  now = refl;
  sent = (
    (
      record {
        snapshot = λ e. cc;
        change = λ e. (2, omega arith, record { has_op = refl; op = refl; version = refl });
      },
      tt,
    ),
    tt,
  );
}

-- A broadcast, and the answers to the two operations.
abbrev drained : List Bool
drained = false ∷ true ∷ true ∷ []

follow-Drained_example :
    (t : ClientState) × (out : List Message) × (follow growing drained waiting ≡ some (t, out))
    × Drained growing waiting drained t out
follow-Drained_example =
    follow-Drained growing drained waiting (record { same = refl; can = refl }) (λ e. cc)
      (omega arith)
