-- ===== src/ClientState/Mirror.antt =====
-- The client's text against the server's history of texts.
use Prim.Native.String.{String}
use linux_class.Common.{
  ℕ, suc, ◌+◌, ◌≡◌, refl, sym, ap, subst, ◌∙◌, true, false, not, Bool, ◌||◌, List, [], ◌∷◌, some,
  arith, Bytes, codes, str_eq, str_eq_iff, if◌then◌else◌,
}
use linux_class.Common.Int.{pos, leb_ℤ, eq_ℤ}
use linux_class.Operation.{Operation, apply_operation}
use linux_class.Message.{Message}
use linux_class.ClientState.{
  Pending, ClientState, Step, pump_queue, state_pump, set_document, apply_authoritative_op,
  handle_ack, request_doc, handle_remote, handle_message,
}

-- The texts of a server's versions, and the operations between them.
pub record Timeline : Type 0 where
  pub texts : ℕ → Bytes
  pub log : ℕ → Operation
  pub next : (v : ℕ) → apply_operation (texts v) (log v) ≡ some (texts (suc v))

-- The message carries the operation that leads from version `v` to the next one.
pub record Carries (T : Timeline) (v : ℕ) (m : Message) : Type 0 where
  pub has_op : m.has_op ≡ true
  pub op : m.op ≡ T.log v
  pub version : m.version ≡ pos (suc v)

-- A message that the server may have sent. A broadcast may be of any version: late, repeated or
-- early. An acknowledgement of the operation in flight comes in its turn.
pub record Genuine (T : Timeline) (s : ClientState) (m : Message) : Type 0 where
  pub snapshot :
      m.type ≡ codes "DOC_STATE" → (v : ℕ) × (m.content ≡ some (T.texts v)) × (m.version ≡ pos v)
  pub remote : m.type ≡ codes "REMOTE_OP" → (v : ℕ) × Carries T v m
  pub ack :
      m.type ≡ codes "ACK"
      → s.has_inflight ≡ true
      → s.inflight.op_id ≡ m.op_id
      → Carries T s.version m

-- The client holds the text of its version, and can send.
pub record IsMirror (T : Timeline) (s : ClientState) : Type 0 where
  pub same : s.content ≡ T.texts s.version
  pub can : s.can_send ≡ true

pump_view :
    (q : List Pending) (s : ClientState)
    → ((pump_queue q s).0.content ≡ s.content)
      × ((pump_queue q s).0.version ≡ s.version)
      × ((pump_queue q s).0.can_send ≡ s.can_send)
unfolding pump_queue
pump_view [] s = (refl, refl, refl)
pump_view (p ∷ q) s = ground arith

module _ (T : Timeline) where
  abbrev pub Follows : Step → Type 0
  Follows r = (t : ClientState) × (out : List Message) × (r ≡ some (t, out)) × IsMirror T t

  pump-IsMirror : (s : ClientState) → IsMirror T s → IsMirror T (state_pump s).0
  unfolding state_pump
  pump-IsMirror s h =
      let (c, v, k) = pump_view s.queue s in
      record { same = c ∙ h.same ∙ ap T.texts (sym v); can = k ∙ h.can }

  Follows-pump : (s : ClientState) → IsMirror T s → Follows (some (state_pump s))
  Follows-pump s h = ((state_pump s).0, (state_pump s).1, refl, pump-IsMirror s h)

  Follows-if :
      (b : Bool) (x y : Step)
      → (b ≡ true → Follows x)
      → (b ≡ false → Follows y)
      → Follows (if b then x else y)
  Follows-if true x y h k = h refl
  Follows-if false x y h k = k refl

  -- The next operation leads to the next text.
  pub apply_authoritative_op-next :
      (s : ClientState) (m : Message)
      → IsMirror T s
      → Carries T s.version m
      → apply_authoritative_op s m
        ≡ some (record s { content = T.texts (suc s.version); version = suc s.version })
  unfolding apply_authoritative_op
  apply_authoritative_op-next s m h c =
      rw (c.has_op, c.op, c.version, h.same, T.next s.version) (ground arith)

  handle_ack-Follows :
      (s : ClientState) (m : Message)
      → IsMirror T s
      → (s.has_inflight ≡ true → s.inflight.op_id ≡ m.op_id → Carries T s.version m)
      → Follows (handle_ack s m)
  unfolding handle_ack
  handle_ack-Follows s m h c =
      Follows-if (not s.has_inflight || not (str_eq s.inflight.op_id m.op_id)) _ _
        (λ _. (_, [], refl, record { same = h.same; can = h.can }))
        (λ mine.
          rw
            (apply_authoritative_op-next s m h
              (c (ground arith) ((str_eq_iff s.inflight.op_id m.op_id).0 (ground arith))))
            (Follows-pump _ (record { same = refl; can = h.can })))

  request_doc-Follows : (s : ClientState) → IsMirror T s → Follows (request_doc s)
  unfolding request_doc
  request_doc-Follows s h = simp (h.can) (s, _, refl, h)

  handle_remote-Follows :
      (s : ClientState) (m : Message) (v : ℕ)
      → IsMirror T s
      → Carries T v m
      → Follows (handle_remote s m)
  unfolding handle_remote
  handle_remote-Follows s m v h c =
      Follows-if (leb_ℤ m.version (pos s.version)) _ _ (λ _. (s, [], refl, h))
        λ _.
          Follows-if (not (eq_ℤ m.version (pos (s.version + 1)))) _ _
            (λ _.
              request_doc-Follows
                (record s { status = codes "missed remote operation; requesting document" })
                (record { same = h.same; can = h.can }))
            (λ next.
              let here : v ≡ s.version = ground (arith, c.version) in
              rw (apply_authoritative_op-next s m h (subst (λ w. Carries T w m) here c))
                (_, [], refl, record { same = refl; can = h.can }))

  -- A client that holds the text of its version, and whose `send_fn` is not null, handles every genuine
  -- message without a fault, in whatever order the broadcasts come, and then holds the text of its
  -- version again, provided that an acknowledgement of the operation in flight comes in its turn.
  pub handle_message-Follows :
      (s : ClientState) (m : Message) → IsMirror T s → Genuine T s m → Follows (handle_message s m)
  unfolding handle_message set_document
  handle_message-Follows s m h g =
      Follows-if (is "DOC_STATE") _ _
        (λ e.
          let (v, c, n) = g.snapshot (named e) in
          rw (c, n) (Follows-pump _ (record { same = refl; can = h.can })))
        λ _.
          Follows-if (is "WELCOME") _ _ (λ _. stays _ refl refl refl)
            λ _.
              Follows-if (is "ACK") _ _ (λ e. handle_ack-Follows s m h (g.ack (named e)))
                λ _.
                  Follows-if (is "REMOTE_OP") _ _
                    (λ e. let (v, c) = g.remote (named e) in handle_remote-Follows s m v h c)
                    λ _.
                      Follows-if (is "RESYNC_REQUIRED") _ _
                        (λ _. request_doc-Follows _ (record { same = h.same; can = h.can }))
                        λ _.
                          Follows-if (is "SAVE_QUEUED") _ _ (λ _. stays _ refl refl refl)
                            λ _.
                              Follows-if (is "ERROR") _ _ (λ _. stays _ refl refl refl)
                                (λ _. stays s refl refl refl)
    where
      is : String → Bool
      is name = str_eq m.type (codes name)

      named : {name : Bytes} → str_eq m.type name ≡ true → m.type ≡ name
      named {name} e = (str_eq_iff m.type name).0 e

      stays :
          (t : ClientState)
          → t.content ≡ s.content
          → t.version ≡ s.version
          → t.can_send ≡ s.can_send
          → Follows (some (t, []))
      stays t a b c =
          (t, [], refl, record { same = a ∙ h.same ∙ ap T.texts (sym b); can = c ∙ h.can })
