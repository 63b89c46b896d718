-- ===== src/Server/Dispatch/Delivery.antt =====
-- Who receives what when an operation is committed.
use linux_class.Common.{
  ℕ, zero, suc, ◌≡◌, ◌⊎◌, inl, inr, refl, sym, ap, ◌∙◌, Bool-cases, true, List, [], ◌∷◌, ◌++◌, none,
  some, some_inj, get_elem?, Bytes, codes, str_eq, ◌==◌, if◌then◌else◌,
}
use linux_class.Message.{Message}
use linux_class.Document.{Doc, ProcessStatus, process_ok, ProcessResult, process_operation}
use linux_class.Document.Answer.{Committed, Refused, process_operation-Answer}
use linux_class.Server.{Connection, is_excluded, send_all, broadcast_message}
use linux_class.Server.Dispatch.{
  Server, send_event, send_over, send_to, broadcast_to, publish_ok, publish, dispatch_op,
  dispatch_message,
}

-- One connection of the list after a message went over one transport, and after a broadcast.
send_over-at :
    (cs : List Connection) (fd : ℕ) (m : Message) (i : ℕ) (x : Connection)
    → get_elem? cs i ≡ some x
    → get_elem? (send_over cs fd m) i
      ≡ some (if x.fd == fd then record x { outbox = x.outbox ++ m ∷ [] } else x)
unfolding send_over
send_over-at [] fd m i x e = cc
send_over-at (c ∷ cs) fd m zero x e =
    ap
      (λ (y : Connection).
        some (if y.fd == fd then record y { outbox = y.outbox ++ m ∷ [] } else y))
      (some_inj e)
send_over-at (c ∷ cs) fd m (suc i) x e = send_over-at cs fd m i x e

send_all-at :
    (cs : List Connection) (m : Message) (id : Bytes) (i : ℕ) (x : Connection)
    → get_elem? cs i ≡ some x
    → get_elem? (send_all cs m (some id)) i
      ≡ some (if str_eq x.client_id id then x else record x { outbox = x.outbox ++ m ∷ [] })
unfolding send_all is_excluded
send_all-at [] m id i x e = cc
send_all-at (c ∷ cs) m id zero x e =
    ap
      (λ (y : Connection).
        some (if str_eq y.client_id id then y else record y { outbox = y.outbox ++ m ∷ [] }))
      (some_inj e)
send_all-at (c ∷ cs) m id (suc i) x e = send_all-at cs m id i x e

abbrev pub gets : Connection → Message → Connection
gets x m = record x { outbox = x.outbox ++ m ∷ [] }

publish_ok-at :
    (s : Server) (c : Connection) (r : ProcessResult) (i : ℕ) (x : Connection)
    → r.has_ack ≡ true
    → r.has_remote ≡ true
    → (x.fd == c.fd) ≡ str_eq x.client_id c.client_id
    → get_elem? s.registry.clients i ≡ some x
    → get_elem? (publish_ok s c r).registry.clients i
      ≡ some (gets x (if x.fd == c.fd then r.ack else r.remote))
unfolding publish_ok send_to send_event broadcast_to broadcast_message
publish_ok-at s c r i x a b same e =
    let first = send_over-at s.registry.clients c.fd r.ack i x e in
    elim (Bool-cases (x.fd == c.fd)) [
      | inl own ↦
          let acked : get_elem? (send_over s.registry.clients c.fd r.ack) i ≡ some (gets x r.ack) =
            rw own at first in
          rw (a, b, own)
            (send_all-at (send_over s.registry.clients c.fd r.ack) r.remote c.client_id i
                (gets x r.ack) acked
              ∙ rw (sym same ∙ own) refl)
      | inr other ↦
          let kept : get_elem? (send_over s.registry.clients c.fd r.ack) i ≡ some x =
            rw other at first in
          rw (a, b, other)
            (send_all-at (send_over s.registry.clients c.fd r.ack) r.remote c.client_id i x kept
              ∙ rw (sym same ∙ other) refl)
    ]

publish_ok-document :
    (s : Server) (c : Connection) (r : ProcessResult)
    → r.has_ack ≡ true
    → r.has_remote ≡ true
    → (publish_ok s c r).document ≡ s.document
unfolding publish_ok send_to send_event broadcast_to
publish_ok-document s c r a b = rw (a, b) refl

-- An operation that the document commits is answered to every connection on the list: the sender's gets the
-- acknowledgement and no broadcast, each other one gets the broadcast and no acknowledgement, and none gets anything
-- else; the connection is the sender's by its descriptor if and only if it is by its identifier.
pub dispatch_message-delivers :
    (s : Server) (c : Connection) (m : Message) (doc' : Doc) (r : ProcessResult) (i : ℕ)
    (x : Connection)
    → m.type ≡ codes "OP"
    → process_operation s.document c.client_id m.op_id m.base_version
        (if m.has_op then some m.op else none)
      ≡ some (doc', r)
    → r.status ≡ process_ok
    → (x.fd == c.fd) ≡ str_eq x.client_id c.client_id
    → get_elem? s.registry.clients i ≡ some x
    → (t : Server) × (dispatch_message s c m ≡ some t)
      × (t.document ≡ doc')
      × (get_elem? t.registry.clients i ≡ some (gets x (if x.fd == c.fd then r.ack else r.remote)))
unfolding dispatch_message dispatch_op publish str_eq
dispatch_message-delivers s c m doc' r i x op ran ok same at_i =
    let (a, b) = acks (
      process_operation-Answer s.document c.client_id m.op_id m.base_version
        (if m.has_op then some m.op else none) doc' r ran) in
    (
      publish_ok (record s { document = doc' }) c r,
      rw (op, ran)
          (ap (λ (st : ProcessStatus). some (publish st (record s { document = doc' }) c r)) ok),
      publish_ok-document (record s { document = doc' }) c r a b,
      publish_ok-at (record s { document = doc' }) c r i x a b same at_i,
    )
  where
    acks :
        Refused s.document doc' r ⊎ Committed s.document doc' r
        → (r.has_ack ≡ true) × (r.has_remote ≡ true)
    acks (inl k) = absurd (k.status ok)
    acks (inr k) = k.acks
