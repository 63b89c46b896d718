-- ===== src/ClientState/Order.antt =====
-- The client sends every operation once, in the order of typing.
use mathlib.Core.List.{map-append, append_assoc, append-nil}
use linux_class.Common.{
  ◌+◌, ◌≡◌, inl, inr, refl, sym, ap, subst, ◌∙◌, Bool-cases, true, false, not, Bool, ◌||◌, List, [],
  ◌∷◌, ◌++◌, map, Option, some, none, some_pair, some_inj, ◌>>=◌, >>=-eq-some, arith, Bytes, codes,
  str_eq, fit, if◌then◌else◌,
}
use Prim.Native.String.{String}
use linux_class.Common.Int.{pos, leb_ℤ, eq_ℤ}
use linux_class.Operation.{Operation}
use linux_class.Message.{Message}
use linux_class.ClientState.{
  Pending, ClientState, Step, pump_queue, state_pump, next_op_id, enqueue, queue_operation,
  set_document, apply_authoritative_op, handle_ack, request_doc, handle_remote, handle_message,
}

-- What stands on the wire of a queued operation, and of the messages sent.
abbrev pub key : Pending → Bytes × Operation
key p = (fit 64 p.op_id, p.op)

abbrev pub sent : List Message → List (Bytes × Operation)
sent [] = []
sent (m ∷ ms) = if m.has_op then (m.op_id, m.op) ∷ sent ms else sent ms

-- What was sent, and then what is queued, is what was queued, and then `new`.
abbrev pub Conserves : List Pending → List (Bytes × Operation) → ClientState × List Message → Type 0
Conserves queue new r = sent r.1 ++ map key r.0.queue ≡ map key queue ++ new

pump_queue-Conserves :
    (q : List Pending) (s : ClientState) → s.queue ≡ q → Conserves q [] (pump_queue q s)
unfolding pump_queue
pump_queue-Conserves [] s e = rw e
pump_queue-Conserves (next ∷ rest) s e = elim (Bool-cases (s.has_inflight || not s.can_send)) [
  | inl wait ↦ rw (wait, e, append-nil)
  | inr go ↦ rw (go, append-nil)
]

state_pump-Conserves : (s : ClientState) → Conserves s.queue [] (state_pump s)
unfolding state_pump
state_pump-Conserves s = pump_queue-Conserves s.queue s refl

-- Typing appends one operation, under the next identifier.
pub queue_operation-Conserves :
    (s : ClientState) (op : Operation)
    → Conserves s.queue ((fit 64 (next_op_id s), op) ∷ []) (queue_operation s op)
unfolding queue_operation enqueue
queue_operation-Conserves s op =
    state_pump-Conserves (enqueue s op) ∙ append-nil _ ∙ map-append key s.queue _

abbrev Keeps : ClientState → Step → Type 0
Keeps s r =
    (s' : ClientState) (out : List Message) → r ≡ some (s', out) → Conserves s.queue [] (s', out)

Keeps-some :
    (s : ClientState) (p : ClientState × List Message) → Conserves s.queue [] p → Keeps s (some p)
Keeps-some s p h s' out e = subst (Conserves s.queue []) (some_inj e) h

Keeps-stay : (s s' : ClientState) → s'.queue ≡ s.queue → Keeps s (some (s', []))
Keeps-stay s s' e = Keeps-some s (s', []) (rw (e, append-nil))

Keeps-pump : (s s' : ClientState) → s'.queue ≡ s.queue → Keeps s (some (state_pump s'))
Keeps-pump s s' e = Keeps-some s (state_pump s') (rw (← e) (state_pump-Conserves s'))

Keeps-bind :
    (s : ClientState) (o : Option ClientState) (f : ClientState → Step)
    → ((t : ClientState) → o ≡ some t → Keeps s (f t))
    → Keeps s (o >>= f)
Keeps-bind s none f h s' out e = cc
Keeps-bind s (some t) f h s' out e = h t refl s' out e

Keeps-if :
    (s : ClientState) (b : Bool) (x y : Step) → Keeps s x → Keeps s y → Keeps s (if b then x else y)
Keeps-if s true x y h k = h
Keeps-if s false x y h k = k

apply_authoritative_op-queue :
    (s t : ClientState) (m : Message) → apply_authoritative_op s m ≡ some t → t.queue ≡ s.queue
unfolding apply_authoritative_op
apply_authoritative_op-queue s t m e = ground arith

handle_ack-Keeps : (s : ClientState) (m : Message) → Keeps s (handle_ack s m)
unfolding handle_ack
handle_ack-Keeps s m =
    Keeps-if s (not s.has_inflight || not (str_eq s.inflight.op_id m.op_id)) _ _
      (Keeps-stay s _ refl)
      (Keeps-bind s (apply_authoritative_op s m) _
        λ t e. Keeps-pump s _ (apply_authoritative_op-queue s t m e))

request_doc-Keeps : (s t : ClientState) → t.queue ≡ s.queue → Keeps s (request_doc t)
unfolding request_doc
request_doc-Keeps s t e =
    Keeps-if s t.can_send _ _ (Keeps-some s (t, _) (rw (e, append-nil))) (λ s' out h. cc)

handle_remote-Keeps : (s : ClientState) (m : Message) → Keeps s (handle_remote s m)
unfolding handle_remote
handle_remote-Keeps s m = Keeps-if s (leb_ℤ m.version (pos s.version)) _ _ (Keeps-stay s s refl) (
    Keeps-if s (not (eq_ℤ m.version (pos (s.version + 1)))) _ _ (request_doc-Keeps s _ refl) (
      Keeps-bind s (apply_authoritative_op s m) _
        λ t e. Keeps-stay s _ (apply_authoritative_op-queue s t m e)))

handle_message-Keeps : (s : ClientState) (m : Message) → Keeps s (handle_message s m)
unfolding handle_message set_document
handle_message-Keeps s m = Keeps-if s (is "DOC_STATE") _ _ (Keeps-pump s _ refl) (
    Keeps-if s (is "WELCOME") _ _ (Keeps-stay s _ refl) (
      Keeps-if s (is "ACK") _ _ (handle_ack-Keeps s m) (
        Keeps-if s (is "REMOTE_OP") _ _ (handle_remote-Keeps s m) (
          Keeps-if s (is "RESYNC_REQUIRED") _ _ (request_doc-Keeps s _ refl) (
            Keeps-if s (is "SAVE_QUEUED") _ _ (Keeps-stay s _ refl)
              (Keeps-if s (is "ERROR") _ _ (Keeps-stay s _ refl) (Keeps-stay s s refl)))))))
  where
    is : String → Bool
    is name = str_eq m.type (codes name)

-- Typing and messages, in any order.
pub data Event : Type 0 where
  typed : Operation → Event
  received : Message → Event

unfoldable pub react : ClientState → Event → Step
react s (typed op) = some (queue_operation s op)
react s (received m) = handle_message s m

unfoldable pub run : ClientState → List Event → Step
run s [] = some (s, [])
run s (e ∷ es) = do (t, out) ← react s e; (u, later) ← run t es; some (u, out ++ later)

abbrev pub typed_ops : List Event → List Operation
typed_ops [] = []
typed_ops (typed op ∷ es) = op ∷ typed_ops es
typed_ops (received m ∷ es) = typed_ops es

abbrev pub sent_ops : List Message → List Operation
sent_ops [] = []
sent_ops (m ∷ ms) = if m.has_op then m.op ∷ sent_ops ms else sent_ops ms

abbrev pub queued_ops : List Pending → List Operation
queued_ops = map (λ p. p.op)

abbrev second : Bytes × Operation → Operation
second k = k.1

sent_ops-sent : (ms : List Message) → map second (sent ms) ≡ sent_ops ms
sent_ops-sent [] = refl
sent_ops-sent (m ∷ ms) = ground (arith, sent_ops-sent ms)

queued-keys : (q : List Pending) → map second (map key q) ≡ queued_ops q
queued-keys [] = refl
queued-keys (p ∷ q) = rw (queued-keys q)

pub sent_ops-append : (xs ys : List Message) → sent_ops (xs ++ ys) ≡ sent_ops xs ++ sent_ops ys
sent_ops-append [] ys = refl
sent_ops-append (m ∷ xs) ys = ground (arith, sent_ops-append xs ys)

abbrev Moves : List Pending → List Operation → ClientState × List Message → Type 0
Moves q new r = sent_ops r.1 ++ queued_ops r.0.queue ≡ queued_ops q ++ new

Conserves-Moves :
    (q : List Pending) (new : List (Bytes × Operation)) (r : ClientState × List Message)
    → Conserves q new r
    → Moves q (map second new) r
Conserves-Moves q new r h =
    rw (← sent_ops-sent r.1, ← queued-keys r.0.queue, ← queued-keys q)
      (sym (map-append second (sent r.1) (map key r.0.queue))
        ∙ ap (map second) h
        ∙ map-append second (map key q) new)

react-Moves :
    (s : ClientState) (e : Event) (t : ClientState) (out : List Message)
    → react s e ≡ some (t, out)
    → Moves s.queue (typed_ops (e ∷ [])) (t, out)
unfolding react
react-Moves s (typed op) t out h =
    subst (Moves s.queue (op ∷ [])) (some_inj h)
      (Conserves-Moves s.queue _ (queue_operation s op) (queue_operation-Conserves s op))
react-Moves s (received m) t out h =
    Conserves-Moves s.queue [] (t, out) (handle_message-Keeps s m t out h)

typed_ops-cons :
    (e : Event) (es : List Event) → typed_ops (e ∷ es) ≡ typed_ops (e ∷ []) ++ typed_ops es
typed_ops-cons (typed op) es = refl
typed_ops-cons (received m) es = refl

chain :
    (a b x y q n m : List Operation)
    → a ++ x ≡ q ++ n
    → b ++ y ≡ x ++ m
    → (a ++ b) ++ y ≡ q ++ (n ++ m)
chain a b x y q n m h k =
    append_assoc a b y
    ∙ ap (◌++◌ a) k
    ∙ sym (append_assoc a x m)
    ∙ ap (λ l. l ++ m) h
    ∙ append_assoc q n m

-- Over any sequence of typing and of messages, also acknowledgements that are stale and
-- resynchronisations, the operations sent, and then those still queued, are those that were queued,
-- and then those typed, in this order: none is lost in the queue, sent twice or overtaken.
pub run-in_order :
    (es : List Event) (s t : ClientState) (out : List Message)
    → run s es ≡ some (t, out)
    → sent_ops out ++ queued_ops t.queue ≡ queued_ops s.queue ++ typed_ops es
unfolding run
run-in_order [] s t out h = let (e, f) = some_pair h in rw (← e, ← f, append-nil)
run-in_order (e ∷ es) s t out h =
    let (p, r, later) = >>=-eq-some (react s e) _ h in
    let (q, r', done) = >>=-eq-some (run p.0 es) _ later in
    let (last, outs) = some_pair done in
    rw (← last, ← outs, sent_ops-append p.1 q.1, typed_ops-cons e es)
      (chain (sent_ops p.1) (sent_ops q.1) (queued_ops p.0.queue) (queued_ops q.0.queue)
        (queued_ops s.queue) (typed_ops (e ∷ [])) (typed_ops es) (react-Moves s e p.0 p.1 r)
        (run-in_order es p.0 q.0 q.1 r'))
