-- ===== src/ClientState/Drain.antt =====
-- The answers of the server, in their turn, and the queue.
use linux_class.Common.{
  ℕ, suc, ◌+◌, ◌≡◌, refl, sym, ap, ◌∙◌, true, false, Bool, Bool-cases, inl, inr, List, [], ◌∷◌,
  ◌++◌, some, ◌>>=◌, arith, codes, str_eq, str_eq_iff, length, if◌then◌else◌, print_nat, fit,
}
use linux_class.Common.Int.{pos, leb_ℤ, eq_ℤ}
use linux_class.Message.{Message, message_init}
use linux_class.ClientState.{
  Pending, ClientState, Step, pump_queue, state_pump, handle_ack, handle_remote, handle_message,
  op_message,
}
use linux_class.ClientState.Order.{sent_ops, queued_ops, sent_ops-append}
use linux_class.ClientState.Mirror.{Timeline, IsMirror, Carries, apply_authoritative_op-next}

-- The answer to the operation in flight, or the broadcast of another client's operation, as the next version.
unfoldable pub answer : Timeline → Bool → ClientState → Message
answer T own s = record message_init {
  type = if own then codes "ACK" else codes "REMOTE_OP";
  op_id = s.inflight.op_id;
  version = pos (suc s.version);
  op = T.log s.version;
  has_op = true;
}

-- Answers (`true`) and broadcasts, and what the client sends at each.
unfoldable pub follow : Timeline → List Bool → ClientState → Step
follow T [] s = some (s, [])
follow T (own ∷ turns) s = do
  (s', sent) ← handle_message s (answer T own s)
  (t, later) ← follow T turns s'
  some (t, sent ++ later)

abbrev pub answers : List Bool → ℕ
answers [] = 0
answers (own ∷ turns) = (if own then 1 else 0) + answers turns

abbrev pub pending : ClientState → ℕ
pending s = (if s.has_inflight then 1 else 0) + length s.queue

-- Nothing waits while nothing is in flight.
abbrev pub IsPumped : ClientState → Type 0
IsPumped s = s.has_inflight ≡ false → s.queue ≡ []

pub record Drained (T : Timeline) (s : ClientState) (turns : List Bool) (t : ClientState)
    (out : List Message) : Type 0 where
  pub idle : t.has_inflight ≡ false
  pub empty : t.queue ≡ []
  pub version : t.version ≡ s.version + length turns
  pub mirror : IsMirror T t
  pub sent : sent_ops out ≡ queued_ops s.queue

-- The state behind an answer, before the pump.
abbrev acked : Timeline → ClientState → ClientState
acked T s = record s {
  content = T.texts (suc s.version);
  version = suc s.version;
  has_inflight = false;
  status =
      fit 160
        (codes "ACK " ++ (s.inflight.op_id ++ (codes " at version " ++ print_nat (suc s.version))));
}

abbrev informed : Timeline → ClientState → ClientState
informed T s = record s {
  content = T.texts (suc s.version);
  version = suc s.version;
  status = fit 160 (codes "remote op at version " ++ print_nat (suc s.version));
}

module _ (T : Timeline) where
  answer-Carries : (own : Bool) (s : ClientState) → Carries T s.version (answer T own s)
  unfolding answer
  answer-Carries own s = record { has_op = refl; op = refl; version = refl }

  handle-ack :
      (s : ClientState)
      → IsMirror T s
      → s.has_inflight ≡ true
      → handle_message s (answer T true s) ≡ some (state_pump (acked T s))
  unfolding answer handle_message handle_ack str_eq
  handle-ack s h i =
      let same : str_eq s.inflight.op_id s.inflight.op_id ≡ true =
        (str_eq_iff s.inflight.op_id s.inflight.op_id).1 refl in
      rw (apply_authoritative_op-next T s (answer T true s) h (answer-Carries true s))
        (rw (i, same) refl)

  handle-remote :
      (s : ClientState)
      → IsMirror T s
      → handle_message s (answer T false s) ≡ some (informed T s, [])
  unfolding answer handle_message handle_remote str_eq
  handle-remote s h =
      let newer : leb_ℤ (pos (suc s.version)) (pos s.version) ≡ false = ground arith in
      let next : eq_ℤ (pos (suc s.version)) (pos (s.version + 1)) ≡ true = ground arith in
      rw
        (newer, next, apply_authoritative_op-next T s (answer T false s) h (answer-Carries false s))
        refl

  -- What the pump does to an idle state.
  pumped :
      (p : Pending) (q : List Pending) (s : ClientState)
      → s.queue ≡ p ∷ q
      → s.has_inflight ≡ false
      → s.can_send ≡ true
      → (t : ClientState) × (out : List Message) × (state_pump s ≡ (t, out))
        × (t.has_inflight ≡ true)
        × (t.queue ≡ q)
        × (t.version ≡ s.version)
        × (t.content ≡ s.content)
        × (t.can_send ≡ true)
        × (sent_ops out ≡ p.op ∷ [])
  unfolding state_pump pump_queue op_message
  pumped p q s e i c = (
    record s {
      queue = q;
      inflight = record p { base_version = pos s.version };
      has_inflight = true;
    },
    op_message s p ∷ [],
    ap (λ x. pump_queue x s) e ∙ rw (i, c) refl,
    refl,
    refl,
    refl,
    refl,
    c,
    refl,
  )

  abbrev Drains : List Bool → ClientState → Type 0
  Drains turns s =
      IsMirror T s
      → IsPumped s
      → answers turns ≡ pending s
      → (t : ClientState) × (out : List Message) × (follow T turns s ≡ some (t, out))
        × Drained T s turns t out

  answered-Drained :
      (turns : List Bool) (s : ClientState) (q : List Pending)
      → ((u : ClientState) → Drains turns u)
      → s.queue ≡ q
      → s.has_inflight ≡ true
      → Drains (true ∷ turns) s
  unfolding follow state_pump pump_queue
  answered-Drained turns s [] k none_left busy h p e =
      let now : state_pump (acked T s) ≡ (acked T s, []) =
        ap (λ x. pump_queue x (acked T s)) none_left in
      let (t, out, run, d) =
        k (acked T s) (record { same = refl; can = h.can }) (λ _. none_left)
          (ground (arith, e, busy, ap length none_left)) in
      (
        t,
        out,
        rw (handle-ack s h busy, now, run) refl,
        record {
          idle = d.idle;
          empty = d.empty;
          version = omega (arith, d.version);
          mirror = d.mirror;
          sent = d.sent;
        },
      )
  answered-Drained turns s (q ∷ qs) k more busy h p e =
      let (u, sent, now, i, left, v, c, can, ops) = pumped q qs (acked T s) more refl h.can in
      let (t, out, run, d) =
        k u (record { same = c ∙ ap T.texts (sym v); can = can }) (λ x. cc)
          (ground (arith, e, busy, more, i, left)) in
      (
        t,
        sent ++ out,
        rw (handle-ack s h busy, now, run) refl,
        record {
          idle = d.idle;
          empty = d.empty;
          version = omega (arith, d.version, v);
          mirror = d.mirror;
          sent = sent_ops-append sent out ∙ rw (ops, d.sent, left, more) refl;
        },
      )

  -- A client that holds the text of its version, and in which nothing waits while nothing is in flight, is given
  -- the next versions in their order, each as the answer to its operation in flight or as a broadcast. With
  -- as many answers as operations are pending, it handles all without a fault, sends the queued
  -- operations in their order, and ends with none pending and with the text of the last version.
  pub follow-Drained :
      (turns : List Bool) (s : ClientState)
      → IsMirror T s
      → IsPumped s
      → answers turns ≡ pending s
      → (t : ClientState) × (out : List Message) × (follow T turns s ≡ some (t, out))
        × Drained T s turns t out
  unfolding follow
  follow-Drained [] s h p e =
      let idle : s.has_inflight ≡ false = ground (arith, e) in
      (
        s,
        [],
        refl,
        record {
          idle = idle;
          empty = p idle;
          version = omega arith;
          mirror = h;
          sent = rw (p idle) refl;
        },
      )
  follow-Drained (false ∷ turns) s h p e =
      let (t, out, run, d) =
        follow-Drained turns (informed T s) (record { same = refl; can = h.can }) p
          (omega (arith, e)) in
      (
        t,
        out,
        rw (handle-remote s h, run) refl,
        record {
          idle = d.idle;
          empty = d.empty;
          version = omega (arith, d.version);
          mirror = d.mirror;
          sent = d.sent;
        },
      )
  follow-Drained (true ∷ turns) s h p e = elim (Bool-cases s.has_inflight) [
    | inr idle ↦ absurd (ground (arith, e, ap length (p idle), idle))
    | inl busy ↦ answered-Drained turns s s.queue (follow-Drained turns) refl busy h p e
  ]
