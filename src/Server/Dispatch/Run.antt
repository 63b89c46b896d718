-- ===== src/Server/Dispatch/Run.antt =====
-- The runs of the server, while its threads handle one message at a time.

use linux_class.Common.{
  not, ◌&&◌, fit, length, ℕ, ◌+◌, ◌≡◌, refl, sym, ap, subst, true, false, Bool, [], Option, none,
  some, >>=-eq-some, some_inj, some_pair, All, Bytes, codes, str_eq, if◌then◌else◌,
}
use linux_class.Message.{Message}
use linux_class.Server.{
  Connection, Registry, register_client, unregister_client, choose_client_id, choose_number,
  number_loop, client_id_exists,
}
use linux_class.Server.Dispatch.{
  Server, send_to, dispatch_message, welcome_client, join_client, leave_client,
}
use linux_class.Server.Dispatch.Stream.{
  Sent, other-Sent, snapshot-Sent, remove-Sends, Truthful, Streams,
}
use linux_class.Server.Dispatch.Extend.{still, still-keeps}
use linux_class.Server.Dispatch.Answers.{
  send_to-Truthful, send_event-Truthful, dispatch_message-Streams,
}

pub choose-clients :
    (r after : Registry) (requested id : Bytes)
    → choose_client_id r requested ≡ some (id, after)
    → after.clients ≡ r.clients
unfolding choose_client_id choose_number
choose-clients r after requested id e =
    choose_if (not (str_eq requested []) && not (client_id_exists r.clients requested)) e
  where
    numbered :
        (o : Option (Bytes × ℕ)) → choose_number r o ≡ some (id, after) → after.clients ≡ r.clients
    numbered none d = cc
    numbered (some (x, n)) d = ap (λ (q : Registry). q.clients) (sym (some_pair d).1)

    choose_if :
        (b : Bool)
        → (if b
            then some (fit 64 requested, r)
            else choose_number r
                (number_loop (length r.clients + 1) r.clients r.next_client_number))
          ≡ some (id, after)
        → after.clients ≡ r.clients
    choose_if true d = ap (λ (q : Registry). q.clients) (sym (some_pair d).1)
    choose_if false d = numbered _ d

welcome-Streams :
    (s : Server) (c : Connection) (id : Bytes)
    → c.outbox ≡ []
    → Streams s
    → Streams (welcome_client s c id)
unfolding welcome_client register_client str_eq send_to
welcome-Streams s c id fresh (T, h) =
    let s1 = record s { registry = register_client s.registry (record c { client_id = id }) } in
    let h1 : Truthful T s1 = record {
      now = h.now;
      sent = (subst (All (Sent T s.document.version)) (sym fresh) tt, h.sent);
    } in
    let h2 =
      send_to-Truthful T s1 c.fd _
        (other-Sent T s.document.version _ (codes "WELCOME") refl refl refl refl) h1 in
    (
      T,
      send_event-Truthful T _ _ (send_to-Truthful T _ c.fd _ (snapshot-Sent T s.document h.now) h2),
    )

join-Streams :
    (s t : Server) (c : Connection) (m : Message)
    → c.outbox ≡ []
    → join_client s c m ≡ some t
    → Streams s
    → Streams t
unfolding join_client
join-Streams s t c m fresh e (T, h) =
    let ((id, after), chosen, done) = >>=-eq-some (choose_client_id s.registry m.client_id) _ e in
    let same = choose-clients s.registry after m.client_id id chosen in
    subst Streams (some_inj done) (
      welcome-Streams (record s { registry = after }) c id fresh
        (T, record { now = h.now; sent = rw same h.sent }))

leave-Streams : (s : Server) (c : Connection) → Streams s → Streams (leave_client s c)
unfolding leave_client unregister_client
leave-Streams s c (T, h) = (
  T,
  send_event-Truthful T _ _ (record {
    now = h.now;
    sent = remove-Sends (Sent T s.document.version) s.registry.clients c.client_id h.sent;
  }),
)

-- What the server's threads do, one message at a time.
pub data Step : Server → Server → Type 0 where
  dispatches :
      (s t : Server) (c : Connection) (m : Message) → dispatch_message s c m ≡ some t → Step s t
  joins :
      (s t : Server) (c : Connection) (m : Message)
      → c.outbox ≡ []
      → join_client s c m ≡ some t
      → Step s t
  leaves : (s : Server) (c : Connection) → Step s (leave_client s c)

pub data Run : Server → Server → Type 0 where
  start : (s : Server) → Run s s
  next : (s t u : Server) → Run s t → Step t u → Run s u

step-Streams : (s t : Server) → Step s t → Streams s → Streams t
step-Streams _ _ (dispatches s t c m e) h = dispatch_message-Streams s t c m e h
step-Streams _ _ (joins s t c m fresh e) h = join-Streams s t c m fresh e h
step-Streams _ _ (leaves s c) h = leave-Streams s c h

-- While messages are handled one at a time, from a server without clients on, there is one history of texts,
-- each made from the one before by one operation, such that every snapshot in every connection holds one of its
-- texts, every acknowledgement and every broadcast carries one of its operations under the right version, and the
-- document holds its last text.
pub Run-Streams : (s t : Server) → Run s t → s.registry.clients ≡ [] → Streams t
Run-Streams _ _ (start s) none_yet = (
  record {
    texts = λ v. s.document.text;
    log = λ v. still;
    next = λ v. still-keeps s.document.text;
  },
  record { now = refl; sent = rw none_yet tt },
)
Run-Streams _ _ (next s t u before step) none_yet =
    step-Streams t u step (Run-Streams s t before none_yet)
