-- ===== src/Server/Dispatch/Clients.antt =====
-- The client state against what the server sends.
use linux_class.Common.{
  ℕ, zero, suc, ◌≡◌, inl, inr, subst, true, List, [], ◌∷◌, some, some_inj, arith, All, get_elem?,
  codes,
}
use linux_class.Common.Int.{pos}
use linux_class.Message.{Message}
use linux_class.ClientState.{ClientState, handle_message}
use linux_class.ClientState.Mirror.{
  Timeline, Carries, Genuine, IsMirror, Follows, handle_message-Follows,
}
use linux_class.Server.{Connection}
use linux_class.Server.Dispatch.{Server}
use linux_class.Server.Dispatch.Stream.{Sent, Truthful}

All-get_elem? {ℓ κ} :
    {A : Type ℓ} (P : A → Type κ) (xs : List A) (i : ℕ) (x : A)
    → All P xs
    → get_elem? xs i ≡ some x
    → P x
All-get_elem? P [] i x h e = cc
All-get_elem? P (y ∷ ys) zero x (p, h) e = subst P (some_inj e) p
All-get_elem? P (y ∷ ys) (suc i) x (p, h) e = All-get_elem? P ys i x h e

-- What was sent is genuine to a client, if an acknowledgement of its operation in flight is of its next version.
Sent-Genuine :
    (T : Timeline) (n : ℕ) (k : ClientState) (m : Message)
    → Sent T n m
    → (m.type ≡ codes "ACK"
        → k.has_inflight ≡ true
        → k.inflight.op_id ≡ m.op_id
        → m.version ≡ pos (suc k.version))
    → Genuine T k m
Sent-Genuine T n k m h turn = record {
  snapshot = λ e. let (v, l, c, w) = h.snapshot e in (v, c, w);
  remote = λ e. let (v, l, c) = h.change (inl e) in (v, c);
  ack = λ e i o.
      let (v, l, c) = h.change (inr e) in
      let here : v ≡ k.version = ground (arith, c.version, turn e i o) in
      subst (λ w. Carries T w m) here c;
}

-- Any message in any connection of a server whose messages are true to a history, taken by any client that
-- holds the text of its version, is handled without a fault and leaves the client with the text of its version,
-- where an acknowledgement of the operation in flight comes in its turn.
pub sent_message-Follows :
    (T : Timeline) (s : Server) (i j : ℕ) (c : Connection) (m : Message) (k : ClientState)
    → Truthful T s
    → get_elem? s.registry.clients i ≡ some c
    → get_elem? c.outbox j ≡ some m
    → IsMirror T k
    → (m.type ≡ codes "ACK"
        → k.has_inflight ≡ true
        → k.inflight.op_id ≡ m.op_id
        → m.version ≡ pos (suc k.version))
    → Follows T (handle_message k m)
sent_message-Follows T s i j c m k h at_i at_j mirror turn =
    let outbox =
      All-get_elem? (λ (x : Connection). All (Sent T s.document.version) x.outbox)
        s.registry.clients i c h.sent at_i in
    handle_message-Follows T k m mirror (
      Sent-Genuine T s.document.version k m
        (All-get_elem? (Sent T s.document.version) c.outbox j m outbox at_j) turn)
