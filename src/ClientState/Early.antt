-- ===== src/ClientState/Early.antt =====
-- An acknowledgement that comes before an older broadcast. The server sends both outside the
-- document's lock, so two of its threads can produce this order.
use linux_class.Common.{
  ℕ, ◌≤◌, ◌≡◌, refl, true, List, [], ◌∷◌, some, ◌>>=◌, arith, Bytes, str_eq_iff,
}
use linux_class.Common.Int.{pos}
use linux_class.Operation.{apply_operation}
use linux_class.Message.{Message}
use linux_class.ClientState.{
  Pending, ClientState, Step, pump_queue, state_pump, apply_authoritative_op, handle_ack,
  handle_remote,
}

pump_view' :
    (q : List Pending) (s : ClientState)
    → ((pump_queue q s).0.content ≡ s.content) × ((pump_queue q s).0.version ≡ s.version)
unfolding pump_queue
pump_view' [] s = (refl, refl)
pump_view' (p ∷ q) s = ground arith

applied_at :
    (s : ClientState) (m : Message) (n : ℕ) (text : Bytes)
    → m.has_op ≡ true
    → m.version ≡ pos n
    → apply_operation s.content m.op ≡ some text
    → apply_authoritative_op s m ≡ some (record s { content = text; version = n })
unfolding apply_authoritative_op
applied_at s m n text h v a = rw (h, v, a) (ground arith)

abbrev pub Shows : Bytes → ℕ → Step → Type 0
Shows text n r =
    (t : ClientState) × (out : List Message) × (r ≡ some (t, out))
    × (t.content ≡ text)
    × (t.version ≡ n)

pumped : (s : ClientState) → Shows s.content s.version (some (state_pump s))
unfolding state_pump
pumped s = let (c, v) = pump_view' s.queue s in ((state_pump s).0, (state_pump s).1, refl, c, v)

-- An acknowledgement of the operation in flight is applied whatever its version is, and that version
-- is taken over.
early_ack :
    (s : ClientState) (m : Message) (n : ℕ) (text : Bytes)
    → s.has_inflight ≡ true
    → s.inflight.op_id ≡ m.op_id
    → m.has_op ≡ true
    → m.version ≡ pos n
    → apply_operation s.content m.op ≡ some text
    → Shows text n (handle_ack s m)
unfolding handle_ack
early_ack s m n text i o h v a =
    simp (i, (str_eq_iff s.inflight.op_id m.op_id).1 o, applied_at s m n text h v a) (pumped _)

-- A broadcast that is not newer than the client's version changes nothing.
old_remote :
    (s : ClientState) (m : Message) (n : ℕ)
    → m.version ≡ pos n
    → n ≤ s.version
    → handle_remote s m ≡ some (s, [])
unfolding handle_remote
old_remote s m n v h = ground arith

-- When the acknowledgement of the operation in flight overtakes the broadcasts of older versions,
-- the client applies its own operation to the older text, takes over the newer version, and then
-- drops every broadcast up to that version: it shows a text that lacks those operations, as the text of
-- the newer version.
pub ack_overtakes :
    (s : ClientState) (ack remote : Message) (n k : ℕ) (text : Bytes)
    → s.has_inflight ≡ true
    → s.inflight.op_id ≡ ack.op_id
    → ack.has_op ≡ true
    → ack.version ≡ pos n
    → apply_operation s.content ack.op ≡ some text
    → remote.version ≡ pos k
    → k ≤ n
    → Shows text n (handle_ack s ack >>= λ r. handle_remote r.0 remote)
ack_overtakes s ack remote n k text i o h v a w l =
    let (t, out, e, c, d) = early_ack s ack n text i o h v a in
    rw e (t, [], old_remote t remote k w (omega arith), c, d)
