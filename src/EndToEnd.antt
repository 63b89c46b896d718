-- ===== src/EndToEnd.antt =====
-- The two ends of a connection: client_state.c and server.c on the messages that protocol.c decodes.
use linux_class.Common.{
  ℕ, suc, ◌≤◌, ◌≡◌, ◌≢◌, refl, sym, ap, subst, ◌∙◌, Bool, true, false, some, [], ◌∷◌, ◌++◌, arith,
  Bytes, codes, get_elem?,
}
use linux_class.Common.Int.{ℤ, pos, negsuc, neg_part}
use linux_class.Operation.{Operation, OpKind, invalid, insert, delete, noop, apply_operation}
use linux_class.Message.{Message}
use linux_class.ClientState.{
  ClientState, apply_authoritative_op, handle_ack, handle_remote, handle_message,
}
use linux_class.ClientState.Mirror.{Timeline, IsMirror, Follows}
use linux_class.Server.{Connection}
use linux_class.Server.Dispatch.{Server, dispatch_op, dispatch_message}
use linux_class.Server.Dispatch.Stream.{Truthful}
use linux_class.Server.Dispatch.Clients.{sent_message-Follows}
use linux_class.Protocol.Encode.{encode_message}
use linux_class.Protocol.Decode.{ok, decode_message}
use linux_class.Protocol.Wire.Whole.{Fitting, first_reason}
use linux_class.Protocol.Wire.RoundTrip.{
  int_received, nested_received, message_received, decode-encode_message,
}

-- Its numbers are not below -1, and its operation has a character for an insertion only.
pub record Plain (m : Message) : Type 0 where
  pub base_version : neg_part m.base_version ≤ 1
  pub server_version : neg_part m.server_version ≤ 1
  pub version : neg_part m.version ≤ 1
  pub history_start_version : neg_part m.history_start_version ≤ 1
  pub char : m.has_op ≡ true → m.op.kind ≢ insert → m.op.ch ≡ []

int_received-same : (n : ℤ) → neg_part n ≤ 1 → int_received n ≡ n
int_received-same (pos n) h = refl
int_received-same (negsuc n) h = let last : n ≡ 0 = omega (arith, h) in ap negsuc (sym last)

-- What the wire changes in such a message, and nothing reads.
abbrev inner : Message → Message
inner m = record m {
  op = nested_received m.has_op m.op;
  original_op = nested_received m.has_original_op m.original_op;
  reason = first_reason m;
}

message_received-inner : (m : Message) → Plain m → message_received m ≡ inner m
message_received-inner m h =
    rw
      (
        int_received-same m.base_version h.base_version,
        int_received-same m.server_version h.server_version,
        int_received-same m.version h.version,
        int_received-same m.history_start_version h.history_start_version,
      )
      refl

module _ (m : Message) (o original : Operation) (r : Bytes) where
  -- A message with this operation, before and behind the wire.
  abbrev before : Bool → OpKind → Bytes → Message
  before has kind ch = record m { op = record o { kind = kind; ch = ch }; has_op = has }

  abbrev behind : Bool → OpKind → Bytes → Message
  behind has kind ch = record m {
    op = nested_received has (record o { kind = kind; ch = ch });
    has_op = has;
    original_op = original;
    reason = r;
  }

  handled_alike :
      (k : ClientState) (has : Bool) (kind : OpKind) (ch : Bytes)
      → handle_message k (behind has kind ch) ≡ handle_message k (before has kind ch)
  unfolding handle_message handle_ack handle_remote apply_authoritative_op apply_operation
  handled_alike k false kind ch = refl
  handled_alike k true insert ch = refl
  handled_alike k true delete ch = refl
  handled_alike k true noop ch = refl
  handled_alike k true invalid ch = refl

  dispatched_alike :
      (s : Server) (c : Connection) (has : Bool) (kind : OpKind) (ch : Bytes)
      → (has ≡ true → kind ≢ insert → ch ≡ [])
      → dispatch_message s c (behind has kind ch) ≡ dispatch_message s c (before has kind ch)
  unfolding dispatch_message dispatch_op
  dispatched_alike s c false kind ch h = refl
  dispatched_alike s c true insert ch h = refl
  dispatched_alike s c true delete ch h = rw (h refl (λ e. cc)) refl
  dispatched_alike s c true noop ch h = rw (h refl (λ e. cc)) refl
  dispatched_alike s c true invalid ch h = rw (h refl (λ e. cc)) refl

-- The line of an encoded message is decoded as a message that any client and, on any connection, any server handle just as the one
-- that was encoded, where its parts fit, its numbers are not below -1, and its operation has a character for an insertion only.
pub handle_message-decode_message :
    (m : Message) (line : Bytes) (k : ClientState) (s : Server) (c : Connection)
    → Fitting m
    → Plain m
    → encode_message m ≡ line ++ b'\n' ∷ []
    → (m' : Message) × (decode_message line ≡ ok m')
      × (handle_message k m' ≡ handle_message k m)
      × (dispatch_message s c m' ≡ dispatch_message s c m)
handle_message-decode_message m line k s c fits plain e =
    let original = nested_received m.has_original_op m.original_op in
    let r = first_reason m in
    (
      inner m,
      decode-encode_message m line fits e ∙ ap ok (message_received-inner m plain),
      handled_alike m m.op original r k m.has_op m.op.kind m.op.ch,
      dispatched_alike m m.op original r s c m.has_op m.op.kind m.op.ch plain.char,
    )

-- Any message in any connection of a server whose messages are true to a history is, as its line arrives at a client that
-- holds the text of its version, decoded and handled without a fault, and leaves the client with the text of its version, where its
-- parts fit, its numbers are not below -1, and an acknowledgement of the operation in flight comes in its turn.
pub sent_line-Follows :
    (T : Timeline) (s : Server) (i j : ℕ) (c : Connection) (m : Message) (line : Bytes)
    (k : ClientState)
    → Truthful T s
    → get_elem? s.registry.clients i ≡ some c
    → get_elem? c.outbox j ≡ some m
    → Fitting m
    → Plain m
    → encode_message m ≡ line ++ b'\n' ∷ []
    → IsMirror T k
    → (m.type ≡ codes "ACK"
        → k.has_inflight ≡ true
        → k.inflight.op_id ≡ m.op_id
        → m.version ≡ pos (suc k.version))
    → (m' : Message) × (decode_message line ≡ ok m') × Follows T (handle_message k m')
sent_line-Follows T s i j c m line k truthful at_i at_j fits plain e mirror turn =
    let (m', decoded, handled, _) = handle_message-decode_message m line k s c fits plain e in
    (
      m',
      decoded,
      subst (Follows T) (sym handled)
          (sent_message-Follows T s i j c m k truthful at_i at_j mirror turn),
    )
