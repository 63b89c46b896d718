-- ===== src/ClientState.antt =====
-- client_state.c: the queue of local operations, the one in flight, and the messages of the server.
-- A step returns the new state and the messages handed to `send_fn`, in order. `none` is a fault: a
-- call of a null `send_fn`, or a read outside the text. Growing the queue's array succeeds. Versions
-- are numbers, since every assignment keeps them from being negative.
pub mod Order
pub mod Mirror
pub mod Early
pub mod Drain
use linux_class.Common.{
  ℕ, zero, suc, ◌+◌, ◌-◌, ◌*◌, Bool, true, false, not, ◌&&◌, ◌||◌, List, [], ◌∷◌, ◌++◌, Option,
  none, some, ◌>>=◌, Bytes, codes, str_eq, fit, print_nat, ltb, leb, ◌==◌, if◌then◌else◌, length,
  take,
}
use linux_class.Common.Int.{
  ℤ, pos, negsuc, pos_part, neg_part, ltb_ℤ, leb_ℤ, eq_ℤ, unset, print_int,
}
use linux_class.Operation.{Operation, apply_operation}
use linux_class.Message.{Message, operation_zero, message_init}

pub record Pending : Type 0 where
  pub op_id : Bytes
  pub op : Operation
  pub base_version : ℤ

-- `queue` holds the first `queue_len` entries; `can_send` says that `send_fn` is not null.
pub record ClientState : Type 0 where
  pub client_id : Bytes
  pub content : Bytes
  pub version : ℕ
  pub history_start_version : ℕ
  pub queue : List Pending
  pub queue_cap : ℕ
  pub has_inflight : Bool
  pub inflight : Pending
  pub next_op_number : ℕ
  pub status : Bytes
  pub can_send : Bool

abbrev pub Step : Type 0
Step = Option (ClientState × List Message)

unfoldable pub state_init : Option Bytes → Bool → ClientState
state_init client_id can_send = record {
  client_id = fit 64 (elim client_id [ none ↦ codes "u1" | some name ↦ name ]);
  content = [];
  version = 0;
  history_start_version = 0;
  queue = [];
  queue_cap = 0;
  has_inflight = false;
  inflight = record { op_id = []; op = operation_zero; base_version = pos 0 };
  next_op_number = 1;
  status = codes "disconnected";
  can_send = can_send;
}

-- `state_pump` and `pop_queue`, on the queue of the state.
op_message : ClientState → Pending → Message
op_message s next = record message_init {
  type = codes "OP";
  client_id = fit 64 s.client_id;
  op_id = fit 64 next.op_id;
  base_version = pos s.version;
  op = next.op;
  has_op = true;
}

unfoldable pub pump_queue : List Pending → ClientState → ClientState × List Message
unfolding op_message
pump_queue [] s = (s, [])
pump_queue (next ∷ rest) s = if s.has_inflight || not s.can_send then (s, []) else (
  record s {
    queue = rest;
    inflight = record next { base_version = pos s.version };
    has_inflight = true;
  },
  op_message s next ∷ [],
)

unfoldable pub state_pump : ClientState → ClientState × List Message
state_pump s = pump_queue s.queue s

-- `ensure_queue_capacity`.
unfoldable pub grown_capacity : ℕ → ℕ → ℕ
grown_capacity queue_len queue_cap =
    if ltb queue_len queue_cap then queue_cap else if queue_cap == 0 then 8 else queue_cap * 2

unfoldable pub next_op_id : ClientState → Bytes
next_op_id s = fit 64 (take 48 s.client_id ++ (b'-' ∷ print_nat s.next_op_number))

-- The entry that `ts_client_state_queue_operation` appends, and the state before the pump.
unfoldable pub enqueue : ClientState → Operation → ClientState
enqueue s op = record s {
  queue = s.queue ++ (record { op_id = next_op_id s; op = op; base_version = unset } ∷ []);
  queue_cap = grown_capacity (length s.queue) s.queue_cap;
  next_op_number = s.next_op_number + 1;
  status = fit 160 (codes "queued " ++ (print_nat (length s.queue + 1) ++ codes " operation(s)"));
}

unfoldable pub queue_operation : ClientState → Operation → ClientState × List Message
queue_operation s op = state_pump (enqueue s op)

unfoldable pub set_document : ClientState → Option Bytes → ℕ → ℕ → ClientState × List Message
set_document s content version history_start_version = state_pump (record s {
  content = elim content [ none ↦ [] | some t ↦ t ];
  version = version;
  history_start_version = history_start_version;
  has_inflight = false;
  status = fit 160 (codes "synced at version " ++ print_nat version);
})

unfoldable pub apply_authoritative_op : ClientState → Message → Option ClientState
apply_authoritative_op s m = if not m.has_op then some s else do
  updated ← apply_operation s.content m.op
  some (record s {
    content = updated;
    version = if ltb_ℤ m.version (pos 0) then s.version else pos_part m.version;
  })

unfoldable pub handle_ack : ClientState → Message → Step
handle_ack s m =
    if not s.has_inflight || not (str_eq s.inflight.op_id m.op_id)
    then some (record s { status = fit 160 (codes "ignored stale ACK " ++ m.op_id) }, [])
    else do
      s' ← apply_authoritative_op s m
      some (
          state_pump (record s' {
            has_inflight = false;
            status =
                fit 160
                  (codes "ACK " ++ (m.op_id ++ (codes " at version " ++ print_nat s'.version)));
          }))

-- `send_fn(&request)` with a `REQUEST_DOC`.
unfoldable pub request_doc : ClientState → Step
request_doc s =
    if s.can_send then some (s, record message_init { type = codes "REQUEST_DOC" } ∷ []) else none

unfoldable pub handle_remote : ClientState → Message → Step
handle_remote s m =
    if leb_ℤ m.version (pos s.version)
    then some (s, [])
    else if not (eq_ℤ m.version (pos (s.version + 1)))
    then request_doc (record s { status = codes "missed remote operation; requesting document" })
    else do
      s' ← apply_authoritative_op s m
      some (
        record s' { status = fit 160 (codes "remote op at version " ++ print_nat s'.version) },
        [],
      )

-- A negative version counts as 0.
welcome : ClientState → Message → ClientState
welcome s m =
    let named = if str_eq m.client_id [] then s.client_id else fit 64 m.client_id in
    record s { client_id = named; status = fit 160 (codes "connected as " ++ named) }

unfoldable pub handle_message : ClientState → Message → Step
unfolding welcome
handle_message s m =
    if str_eq m.type (codes "DOC_STATE")
    then some (set_document s m.content (pos_part m.version) (pos_part m.history_start_version))
    else if str_eq m.type (codes "WELCOME")
    then some (welcome s m, [])
    else if str_eq m.type (codes "ACK")
    then handle_ack s m
    else if str_eq m.type (codes "REMOTE_OP")
    then handle_remote s m
    else if str_eq m.type (codes "RESYNC_REQUIRED")
    then request_doc (record s { has_inflight = false; status = codes "server requested resync" })
    else if str_eq m.type (codes "SAVE_QUEUED")
    then some
        (record s { status = fit 160 (codes "save queued at version " ++ print_int m.version) }, [])
    else if str_eq m.type (codes "ERROR")
    then some (record s { status = fit 160 (codes "error: " ++ take 140 m.message) }, [])
    else some (s, [])
