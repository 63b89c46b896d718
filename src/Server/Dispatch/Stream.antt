-- ===== src/Server/Dispatch/Stream.antt =====
-- What the server sends to its clients, against the history of its document.
use linux_class.Common.{
  ℕ, suc, ◌≤◌, ◌<◌, ◌≡◌, ◌≢◌, ◌⊎◌, inl, inr, refl, sym, ap, subst, ◌∙◌, Bool-cases, false, List, [],
  ◌∷◌, ◌++◌, Option, some, arith, All, Bytes, codes, str_eq, str_eq_iff, ◌==◌,
}
use linux_class.Common.Int.{pos}
use linux_class.Operation.{Operation, apply_operation}
use linux_class.Message.{Message}
use linux_class.Document.{Doc, ProcessResult, document_snapshot}
use linux_class.Document.Answer.{Committed}
use linux_class.ClientState.Mirror.{Timeline, Carries}
use linux_class.Server.{Connection, broadcast_message, send_all, is_excluded, remove_client}
use linux_class.Server.Dispatch.{
  Server, send_event, send_over, send_to, send_messages, broadcast_to, publish_ok,
}
use linux_class.Server.Dispatch.Extend.{
  texts_to, extend, texts_to-old, texts_to-new, log_to-old, log_to-new,
}

-- A snapshot holds the text of a version up to `n`, and an acknowledgement or a broadcast carries one
-- of the operations up to there.
pub record Sent (T : Timeline) (n : ℕ) (m : Message) : Type 0 where
  pub snapshot :
      m.type ≡ codes "DOC_STATE"
      → (v : ℕ) × (v ≤ n) × (m.content ≡ some (T.texts v)) × (m.version ≡ pos v)
  pub change :
      (m.type ≡ codes "REMOTE_OP") ⊎ (m.type ≡ codes "ACK") → (v : ℕ) × (v < n) × Carries T v m

apart : (a b : Bytes) → str_eq a b ≡ false → a ≢ b
apart a b n e = ground (arith, (str_eq_iff a b).1 e, n)

-- A message that is none of the three.
pub other-Sent :
    (T : Timeline) (n : ℕ) (m : Message) (name : Bytes)
    → m.type ≡ name
    → str_eq name (codes "DOC_STATE") ≡ false
    → str_eq name (codes "REMOTE_OP") ≡ false
    → str_eq name (codes "ACK") ≡ false
    → Sent T n m
other-Sent T n m name e a b c = record {
  snapshot = λ t. absurd (apart name _ a (sym e ∙ t));
  change = λ t.
      absurd (elim t [ inl r ↦ apart name _ b (sym e ∙ r) | inr k ↦ apart name _ c (sym e ∙ k) ]);
}

abbrev pub Sends : (Message → Type 0) → List Connection → Type 0
Sends P = All (λ c. All P c.outbox)

module _ (P : Message → Type 0) where
  sent_behind : (ms : List Message) (m : Message) → All P ms → P m → All P (ms ++ m ∷ [])
  sent_behind [] m h p = (p, tt)
  sent_behind (x ∷ ms) m (q, h) p = (q, sent_behind ms m h p)

  pub send_over-Sends :
      (cs : List Connection) (fd : ℕ) (m : Message) → P m → Sends P cs → Sends P (send_over cs fd m)
  unfolding send_over
  send_over-Sends [] fd m p h = tt
  send_over-Sends (c ∷ cs) fd m p (q, h) = elim (Bool-cases (c.fd == fd)) [
    | inl e ↦ rw e (sent_behind c.outbox m q p, send_over-Sends cs fd m p h)
    | inr e ↦ rw e (q, send_over-Sends cs fd m p h)
  ]

  send_all-Sends :
      (cs : List Connection) (m : Message) (exclude : Option Bytes)
      → P m
      → Sends P cs
      → Sends P (send_all cs m exclude)
  unfolding send_all
  send_all-Sends [] m exclude p h = tt
  send_all-Sends (c ∷ cs) m exclude p (q, h) = elim (Bool-cases (is_excluded exclude c.client_id)) [
    | inl e ↦ rw e (q, send_all-Sends cs m exclude p h)
    | inr e ↦ rw e (sent_behind c.outbox m q p, send_all-Sends cs m exclude p h)
  ]

  pub remove-Sends :
      (cs : List Connection) (id : Bytes) → Sends P cs → Sends P (remove_client cs id)
  unfolding remove_client
  remove-Sends [] id h = tt
  remove-Sends (c ∷ cs) id (q, h) = elim (Bool-cases (str_eq c.client_id id)) [
    | inl e ↦ rw e h
    | inr e ↦ rw e (q, remove-Sends cs id h)
  ]

  pub send_messages-Sends :
      (s : Server) (fd : ℕ) (ms : List Message)
      → All P ms
      → Sends P s.registry.clients
      → Sends P (send_messages s fd ms).registry.clients
  unfolding send_messages send_to
  send_messages-Sends s fd [] p h = h
  send_messages-Sends s fd (m ∷ ms) (p, ps) h =
      send_messages-Sends (send_to s fd m) fd ms ps (send_over-Sends s.registry.clients fd m p h)

All-map :
    (P Q : Message → Type 0)
    → ((m : Message) → P m → Q m)
    → (ms : List Message) → All P ms
    → All Q ms
All-map P Q f [] h = tt
All-map P Q f (m ∷ ms) (p, h) = (f m p, All-map P Q f ms h)

Sends-map :
    (P Q : Message → Type 0)
    → ((m : Message) → P m → Q m)
    → (cs : List Connection) → Sends P cs
    → Sends Q cs
Sends-map P Q f [] h = tt
Sends-map P Q f (c ∷ cs) (p, h) = (All-map P Q f c.outbox p, Sends-map P Q f cs h)

-- The history goes on, and what was sent stays true.
extend-Sent :
    (T : Timeline) (n : ℕ) (op : Operation) (text : Bytes)
    (e : apply_operation (T.texts n) op ≡ some text) (m : Message)
    → Sent T n m
    → Sent (extend T n op text e) (suc n) m
extend-Sent T n op text e m h = record {
  snapshot = λ t.
      let (v, l, c, k) = h.snapshot t in
      (v, omega (arith, l), c ∙ ap some (sym (texts_to-old T n op text v l)), k);
  change = λ t.
      let (v, l, c) = h.change t in
      (
        v,
        omega (arith, l),
        record {
          has_op = c.has_op;
          op = c.op ∙ sym (log_to-old T n op text v l);
          version = c.version;
        },
      );
}

-- The document holds the last text of the history, and nothing false was sent.
pub record Truthful (T : Timeline) (s : Server) : Type 0 where
  pub now : s.document.text ≡ T.texts s.document.version
  pub sent : Sends (Sent T s.document.version) s.registry.clients

change-Sent :
    (T : Timeline) (n v : ℕ) (m : Message)
    → m.type ≢ codes "DOC_STATE"
    → v < n
    → Carries T v m
    → Sent T n m
change-Sent T n v m d l c = record { snapshot = λ e. absurd (d e); change = λ e. (v, l, c) }

pub snapshot-Sent :
    (T : Timeline) (doc : Doc)
    → doc.text ≡ T.texts doc.version
    → Sent T doc.version (document_snapshot doc)
unfolding document_snapshot str_eq
snapshot-Sent T doc e = record {
  snapshot = λ t. (doc.version, omega arith, ap some e, refl);
  change = λ t. absurd (elim t [ inl r ↦ apart _ _ refl r | inr k ↦ apart _ _ refl k ]);
}

abbrev pub Streams : Server → Type 0
Streams s = (T : Timeline) × Truthful T s

-- What a commit makes true, and what stays true.
pub record Extended (T : Timeline) (s : Server) (doc' : Doc) (r : ProcessResult) : Type 0 where
  pub longer : Timeline
  pub truthful : Truthful longer (record s { document = doc' })
  pub ack : Sent longer doc'.version r.ack
  pub remote : Sent longer doc'.version r.remote
  pub still_true : (m : Message) → Sent T s.document.version m → Sent longer doc'.version m

pub commit-Extended :
    (T : Timeline) (s : Server) (doc' : Doc) (r : ProcessResult)
    → Truthful T s
    → Committed s.document doc' r
    → Extended T s doc' r
unfolding str_eq
commit-Extended T s doc' r h k =
    let n = s.document.version in
    let e : apply_operation (T.texts n) r.remote.op ≡ some doc'.text =
      ap (λ t. apply_operation t r.remote.op) (sym h.now) ∙ k.applied in
    let T' = extend T n r.remote.op doc'.text e in
    let v : doc'.version ≡ suc n = k.next_version ∙ omega arith in
    let at_version : (m : Message) → Sent T' (suc n) m → Sent T' doc'.version m =
      λ m. subst (λ w. Sent T' w m) (sym v) in
    let kept = extend-Sent T n r.remote.op doc'.text e in
    record {
      longer = T';
      truthful = record {
        now =
            sym (texts_to-new T n r.remote.op doc'.text)
            ∙ ap (texts_to T n r.remote.op doc'.text) (sym v);
        sent =
            Sends-map (Sent T n) (Sent T' doc'.version) (λ m p. at_version m (kept m p))
              s.registry.clients h.sent;
      };
      ack = at_version r.ack (
          change-Sent T' (suc n) n r.ack
            (λ d. apart (codes "ACK") (codes "DOC_STATE") refl (sym k.types.0 ∙ d)) (omega arith)
            (record {
              has_op = k.same_op.1;
              op = k.same_op.0 ∙ sym (log_to-new T n r.remote.op doc'.text);
              version = k.same_version.0 ∙ ap pos v;
            }));
      remote = at_version r.remote (
          change-Sent T' (suc n) n r.remote
            (λ d. apart (codes "REMOTE_OP") (codes "DOC_STATE") refl (sym k.types.1 ∙ d))
            (omega arith)
            (record {
              has_op = k.same_op.2;
              op = sym (log_to-new T n r.remote.op doc'.text);
              version = k.same_version.1 ∙ ap pos v;
            }));
      still_true = λ m p. at_version m (kept m p);
    }

pub broadcast_to-Sends :
    (P : Message → Type 0) (s : Server) (exclude : Bytes) (m : Message)
    → P m
    → Sends P s.registry.clients
    → Sends P (broadcast_to s exclude m).registry.clients
unfolding broadcast_to broadcast_message
broadcast_to-Sends P s exclude m p h = send_all-Sends P s.registry.clients m (some exclude) p h

pub publish_ok-Streams :
    (T : Timeline) (s : Server) (c : Connection) (doc' : Doc) (r : ProcessResult)
    → Truthful T s
    → Committed s.document doc' r
    → Streams (publish_ok (record s { document = doc' }) c r)
unfolding publish_ok send_to send_event broadcast_to broadcast_message
publish_ok-Streams T s c doc' r h k =
    let x = commit-Extended T s doc' r h k in
    let P = Sent x.longer doc'.version in
    rw (k.acks.0, k.acks.1)
      (
        x.longer,
        record {
          now = x.truthful.now;
          sent =
              send_all-Sends P _ r.remote (some c.client_id) x.remote
                (send_over-Sends P s.registry.clients c.fd r.ack x.ack x.truthful.sent);
        },
      )
