-- ===== src/Server/Dispatch/Answers.antt =====
-- What is sent in answer to one message is true to the history.
use Prim.Native.String.{String}
use linux_class.Common.{
  ℕ, ◌≡◌, ◌≢◌, ◌⊎◌, inl, inr, refl, sym, subst, true, false, Bool, List, [], ◌∷◌, Option, none,
  some, >>=-eq-some, some_inj, All, codes, str_eq, if◌then◌else◌,
}
use linux_class.Message.{Message}
use linux_class.Document.{
  Doc, ProcessStatus, process_ok, process_error, process_resync, ProcessResult, document_snapshot,
  process_operation,
}
use linux_class.Document.Outcome.{Notices}
use linux_class.Document.Answer.{Committed, Refused, process_operation-Answer}
use linux_class.ClientState.Mirror.{Timeline}
use linux_class.Server.{Connection}
use linux_class.Server.Dispatch.{
  Server, send_event, send_to, send_messages, publish, dispatch_op, dispatch_save, pong,
  unsupported, dispatch_message,
}
use linux_class.Autosave.{Event}
use linux_class.Server.Dispatch.Stream.{
  Sent, other-Sent, snapshot-Sent, send_over-Sends, send_messages-Sends, Truthful, Streams,
  publish_ok-Streams,
}

pub send_to-Truthful :
    (T : Timeline) (s : Server) (fd : ℕ) (m : Message)
    → Sent T s.document.version m
    → Truthful T s
    → Truthful T (send_to s fd m)
unfolding send_to
send_to-Truthful T s fd m p h = record {
  now = h.now;
  sent = send_over-Sends (Sent T s.document.version) s.registry.clients fd m p h.sent;
}

pub send_event-Truthful :
    (T : Timeline) (s : Server) (e : Event) → Truthful T s → Truthful T (send_event s e)
unfolding send_event
send_event-Truthful T s e h = record { now = h.now; sent = h.sent }

pub Notices-Sent :
    (T : Timeline) (doc : Doc) (ms : List Message)
    → doc.text ≡ T.texts doc.version
    → Notices doc ms
    → All (Sent T doc.version) ms
unfolding str_eq
Notices-Sent T doc [] e n = tt
Notices-Sent T doc (m ∷ ms) e (inl is, n) =
    (subst (Sent T doc.version) (sym is) (snapshot-Sent T doc e), Notices-Sent T doc ms e n)
Notices-Sent T doc (m ∷ ms) e (inr (inl is), n) =
    (other-Sent T doc.version m (codes "ERROR") is refl refl refl, Notices-Sent T doc ms e n)
Notices-Sent T doc (m ∷ ms) e (inr (inr is), n) = (
  other-Sent T doc.version m (codes "RESYNC_REQUIRED") is refl refl refl,
  Notices-Sent T doc ms e n,
)

pub send_messages-document :
    (s : Server) (fd : ℕ) (ms : List Message) → (send_messages s fd ms).document ≡ s.document
unfolding send_messages send_to
send_messages-document s fd [] = refl
send_messages-document s fd (m ∷ ms) = send_messages-document (send_to s fd m) fd ms

send_messages-Truthful :
    (T : Timeline) (s : Server) (fd : ℕ) (ms : List Message)
    → All (Sent T s.document.version) ms
    → Truthful T s
    → Truthful T (send_messages s fd ms)
send_messages-Truthful T s fd ms p h =
    let e = send_messages-document s fd ms in
    record {
      now = rw e h.now;
      sent = rw e (send_messages-Sends (Sent T s.document.version) s fd ms p h.sent);
    }

refused-Streams :
    (T : Timeline) (s : Server) (c : Connection) (r : ProcessResult) (status : ProcessStatus)
    → Truthful T s
    → status ≢ process_ok
    → Notices s.document r.messages
    → Streams (publish status s c r)
unfolding publish
refused-Streams T s c r process_ok h n k = absurd (n refl)
refused-Streams T s c r process_error h n k =
    (T, send_messages-Truthful T s c.fd r.messages (Notices-Sent T s.document r.messages h.now k) h)
refused-Streams T s c r process_resync h n k =
    (T, send_messages-Truthful T s c.fd r.messages (Notices-Sent T s.document r.messages h.now k) h)

published :
    (T : Timeline) (s : Server) (c : Connection) (doc' : Doc) (r : ProcessResult)
    → Truthful T s
    → Refused s.document doc' r ⊎ Committed s.document doc' r
    → Streams (publish r.status (record s { document = doc' }) c r)
unfolding publish
published T s c doc' r h (inl k) =
    rw (k.unchanged) (refused-Streams T s c r r.status h k.status k.notices)
published T s c doc' r h (inr k) =
    subst (λ (st : ProcessStatus). Streams (publish st (record s { document = doc' }) c r))
      (sym k.status) (publish_ok-Streams T s c doc' r h k)

dispatch_op-Streams :
    (s t : Server) (c : Connection) (m : Message)
    → dispatch_op s c m ≡ some t
    → Streams s
    → Streams t
unfolding dispatch_op
dispatch_op-Streams s t c m e (T, h) =
    let op = if m.has_op then some m.op else none in
    let ((doc, r), ran, done) =
      >>=-eq-some (process_operation s.document c.client_id m.op_id m.base_version op) _ e in
    subst Streams (some_inj done) (
      published T s c doc r h
        (process_operation-Answer s.document c.client_id m.op_id m.base_version op doc r ran))

if-Streams :
    (b : Bool) (x y : Option Server) (t : Server)
    → (x ≡ some t → Streams t)
    → (y ≡ some t → Streams t)
    → (if b then x else y) ≡ some t
    → Streams t
if-Streams true x y t f g e = f e
if-Streams false x y t f g e = g e

replied :
    (s : Server) (c : Connection) (m : Message) (t : Server)
    → ((T : Timeline) → Truthful T s → Sent T s.document.version m)
    → Streams s
    → some (send_to s c.fd m) ≡ some t
    → Streams t
replied s c m t p (T, h) e = subst Streams (some_inj e) (T, send_to-Truthful T s c.fd m (p T h) h)

save-Streams : (s : Server) (c : Connection) → Streams s → Streams (dispatch_save s c)
unfolding dispatch_save str_eq send_event
save-Streams s c (T, h) = (
  T,
  send_to-Truthful T _ c.fd _
      (other-Sent T s.document.version _ (codes "SAVE_QUEUED") refl refl refl refl)
      (send_event-Truthful T s _ h),
)

pub pong-Sent : (T : Timeline) (n : ℕ) → Sent T n pong
unfolding str_eq
pong-Sent T n = other-Sent T n pong (codes "PONG") refl refl refl refl

pub unsupported-Sent : (T : Timeline) (n : ℕ) (m : Message) → Sent T n (unsupported m)
unfolding str_eq
unsupported-Sent T n m = other-Sent T n (unsupported m) (codes "ERROR") refl refl refl refl

pub dispatch_message-Streams :
    (s t : Server) (c : Connection) (m : Message)
    → dispatch_message s c m ≡ some t
    → Streams s
    → Streams t
unfolding dispatch_message
dispatch_message-Streams s t c m e h =
    if-Streams (is "OP") _ _ t (λ x. dispatch_op-Streams s t c m x h)
      (if-Streams (is "SAVE") _ _ t (λ x. subst Streams (some_inj x) (save-Streams s c h))
        (if-Streams (is "REQUEST_DOC") _ _ t
          (replied s c (document_snapshot s.document) t (λ T k. snapshot-Sent T s.document k.now) h)
          (if-Streams (is "PING") _ _ t
            (replied s c pong t (λ T k. pong-Sent T s.document.version) h)
            (replied s c (unsupported m) t (λ T k. unsupported-Sent T s.document.version m) h))))
      e
  where
    is : String → Bool
    is name = str_eq m.type (codes name)
