-- ===== src/Server/Dispatch/Safe.antt =====
-- Every message that a client sends is handled.
use Prim.Native.String.{String}
use linux_class.Common.{
  ◌≡◌, refl, sym, subst, true, false, Bool, Option, none, some, codes, str_eq, if◌then◌else◌,
}
use linux_class.Operation.{Operation}
use linux_class.Message.{Message}
use linux_class.Document.{ProcessStatus, process_ok, process_error, process_resync, ProcessResult}
use linux_class.Document.History.{Inv}
use linux_class.Document.Replay.{IsReplay, ValidOp}
use linux_class.Document.Total.{process_operation-Answers}
use linux_class.Server.{Connection}
use linux_class.Server.Dispatch.{
  Server, send_event, send_to, broadcast_to, publish_ok, publish, dispatch_op, dispatch_save,
  dispatch_message,
}
use linux_class.Server.Dispatch.Answers.{send_messages-document}

-- A server whose document is in good order.
abbrev pub Handled : Option Server → Type 0
Handled o = (t : Server) × (o ≡ some t) × Inv t.document × IsReplay t.document

if-document :
    (b : Bool) (x y s : Server)
    → x.document ≡ s.document
    → y.document ≡ s.document
    → (if b then x else y).document ≡ s.document
if-document true x y s e f = e
if-document false x y s e f = f

publish-document :
    (status : ProcessStatus) (s : Server) (c : Connection) (r : ProcessResult)
    → (publish status s c r).document ≡ s.document
unfolding publish publish_ok send_to send_event broadcast_to
publish-document process_ok s c r =
    let acked = if-document r.has_ack _ _ s refl refl in if-document r.has_remote _ _ s acked acked
publish-document process_error s c r = send_messages-document s c.fd r.messages
publish-document process_resync s c r = send_messages-document s c.fd r.messages

if-Handled : (b : Bool) (x y : Option Server) → Handled x → Handled y → Handled (if b then x else y)
if-Handled true x y h k = h
if-Handled false x y h k = k

-- On a document whose text is well-formed and is the replay of its numbered history, every message of a client
-- whose operation, if there is one, is no insertion or inserts one encoded character, is handled without a read outside a text, and
-- leaves such a document.
pub dispatch_message-Handled :
    (s : Server) (c : Connection) (m : Message)
    → Inv s.document
    → IsReplay s.document
    → ((o : Operation) → (if m.has_op then some m.op else none) ≡ some o → ValidOp o)
    → Handled (dispatch_message s c m)
unfolding dispatch_message dispatch_op dispatch_save send_to send_event
dispatch_message-Handled s c m v w p =
    let op = if m.has_op then some m.op else none in
    let (doc, r, e, v', w') =
      process_operation-Answers s.document c.client_id m.op_id m.base_version op v w p in
    let same = publish-document r.status (record s { document = doc }) c r in
    if-Handled (is "OP") _ _
      (rw e (
        publish r.status (record s { document = doc }) c r,
        refl,
        subst Inv (sym same) v',
        subst IsReplay (sym same) w',
      ))
      (if-Handled (is "SAVE") _ _ (_, refl, v, w)
        (if-Handled (is "REQUEST_DOC") _ _ (_, refl, v, w)
          (if-Handled (is "PING") _ _ (_, refl, v, w) (_, refl, v, w))))
  where
    is : String → Bool
    is name = str_eq m.type (codes name)
