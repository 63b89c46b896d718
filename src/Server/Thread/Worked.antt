-- ===== src/Server/Thread/Worked.antt =====
-- What one answer of a client's thread leaves behind.
use mathlib.Core.List.{append_assoc, append-nil}
use linux_class.Common.{
  ℕ, ◌≡◌, ◌≢◌, refl, sym, ap, ◌∙◌, Bool, true, false, List, [], ◌∷◌, ◌++◌, Option, some, arith,
  Bytes, if◌then◌else◌,
}
use linux_class.Message.{Message}
use linux_class.Document.{
  Doc, ProcessStatus, process_ok, process_error, process_resync, ProcessResult,
}
use linux_class.Document.Answer.{Committed}
use linux_class.Autosave.{Event, snapshot, save_now, log}
use linux_class.Server.{Connection, is_excluded, send_all, broadcast_message}
use linux_class.Server.Dispatch.{
  Server, send_event, send_over, send_to, send_messages, broadcast_to, publish_ok, publish,
  dispatch_save,
}
use linux_class.Server.Thread.Told.{saves, Tells}

abbrev pub client_ids : List Connection → List Bytes
client_ids [] = []
client_ids (c ∷ cs) = c.client_id ∷ client_ids cs

-- From one server to a later one: the document, the events between them, and the same clients.
pub record Worked (run : Option Doc) (count : ℕ) (s t : Server) : Type 0 where
  pub processed : run ≡ some t.document
  pub between : List Event
  pub events : t.events ≡ s.events ++ between
  pub saved : saves between ≡ count
  pub tells : Tells s.document.text s.document.version between t.document.text t.document.version
  pub same_clients : client_ids t.registry.clients ≡ client_ids s.registry.clients

pub send_over-client_ids :
    (cs : List Connection) (fd : ℕ) (m : Message) → client_ids (send_over cs fd m) ≡ client_ids cs
unfolding send_over
send_over-client_ids [] fd m = refl
send_over-client_ids (c ∷ cs) fd m = ground (arith, send_over-client_ids cs fd m)

kept_id :
    (b : Bool) (c : Connection) (out : List Message)
    → (if b then c else record c { outbox = out }).client_id ≡ c.client_id
kept_id true c out = refl
kept_id false c out = refl

send_all-client_ids :
    (cs : List Connection) (m : Message) (exclude : Option Bytes)
    → client_ids (send_all cs m exclude) ≡ client_ids cs
unfolding send_all
send_all-client_ids [] m exclude = refl
send_all-client_ids (c ∷ cs) m exclude =
    ap
      (λ ids.
        (if is_excluded exclude c.client_id
          then c
          else record c { outbox = c.outbox ++ m ∷ [] }).client_id
        ∷ ids)
      (send_all-client_ids cs m exclude)
    ∙ ap (λ id. id ∷ client_ids cs)
        (kept_id (is_excluded exclude c.client_id) c (c.outbox ++ m ∷ []))

-- A message to one connection.
pub sent-Worked :
    (s : Server) (fd : ℕ) (m : Message) → Worked (some s.document) 0 s (send_to s fd m)
unfolding send_to
sent-Worked s fd m = record {
  processed = refl;
  between = [];
  events = sym (append-nil s.events);
  saved = refl;
  tells = (refl, refl);
  same_clients = send_over-client_ids s.registry.clients fd m;
}

pub messages-Worked :
    (s : Server) (fd : ℕ) (ms : List Message) → Worked (some s.document) 0 s (send_messages s fd ms)
unfolding send_messages send_to
messages-Worked s fd [] = record {
  processed = refl;
  between = [];
  events = sym (append-nil s.events);
  saved = refl;
  tells = (refl, refl);
  same_clients = refl;
}
messages-Worked s fd (m ∷ ms) =
    let h = messages-Worked (send_to s fd m) fd ms in
    record {
      processed = h.processed;
      between = h.between;
      events = h.events;
      saved = h.saved;
      tells = h.tells;
      same_clients = h.same_clients ∙ send_over-client_ids s.registry.clients fd m;
    }

pub save-Worked : (s : Server) (c : Connection) → Worked (some s.document) 1 s (dispatch_save s c)
unfolding dispatch_save send_event send_to
save-Worked s c = record {
  processed = refl;
  between = save_now s.document.text s.document.version ∷ [];
  events = refl;
  saved = refl;
  tells = (refl, refl, (refl, refl));
  same_clients = send_over-client_ids s.registry.clients c.fd _;
}

pub refused-Worked :
    (status : ProcessStatus) (s : Server) (c : Connection) (r : ProcessResult)
    → status ≢ process_ok
    → Worked (some s.document) 0 s (publish status s c r)
unfolding publish
refused-Worked process_ok s c r n = absurd (n refl)
refused-Worked process_error s c r n = messages-Worked s c.fd r.messages
refused-Worked process_resync s c r n = messages-Worked s c.fd r.messages

pub commit-Worked :
    (s : Server) (c : Connection) (doc' : Doc) (r : ProcessResult)
    → Committed s.document doc' r
    → Worked (some doc') 0 s (publish_ok (record s { document = doc' }) c r)
unfolding publish_ok send_event send_to broadcast_to broadcast_message
commit-Worked s c doc' r h =
    rw (h.acks.0, h.acks.1, h.snapshot.0)
      (record {
        processed = refl;
        between = snapshot doc'.text r.snapshot_version ∷ log r.log_json ∷ [];
        events =
            append_assoc s.events (snapshot doc'.text r.snapshot_version ∷ [])
              (log r.log_json ∷ []);
        saved = refl;
        tells = (h.snapshot.1 ∙ h.next_version, (refl, h.snapshot.1));
        same_clients =
            send_all-client_ids (send_over s.registry.clients c.fd r.ack) r.remote
              (some c.client_id)
            ∙ send_over-client_ids s.registry.clients c.fd r.ack;
      })
