-- ===== src/Server/Thread/Served.antt =====
-- What a client's thread leaves behind.
use mathlib.Core.List.{append_assoc, append-nil}
use linux_class.Common.{
  ℕ, suc, ◌+◌, ◌≡◌, inl, inr, refl, sym, ap, subst, ◌∙◌, Bool, true, false, List, [], ◌∷◌, ◌++◌,
  Option, none, some, ◌>>=◌, >>=-eq-some, some_inj, arith, Bytes, codes, str_eq, str_eq_iff,
  if◌then◌else◌,
}
use linux_class.Message.{Message}
use linux_class.Document.{Doc, ProcessStatus, ProcessResult, process_operation}
use linux_class.Document.Answer.{process_operation-Answer}
use linux_class.Server.{Connection}
use linux_class.Server.Dispatch.{
  Server, send_to, publish, dispatch_op, dispatch_save, dispatch_message,
}
use linux_class.Server.Thread.{dispatch_loop}
use linux_class.Server.Thread.Told.{saves, saves-++, Tells-++}
use linux_class.Server.Thread.Worked.{
  Worked, sent-Worked, save-Worked, refused-Worked, commit-Worked,
}

-- The messages that ask for a save.
abbrev pub save_requests : List Message → ℕ
save_requests [] = 0
save_requests (m ∷ ms) =
    let rest = save_requests ms in if str_eq m.type (codes "SAVE") then suc rest else rest

-- The document behind the operations among the messages of a client, one by one.
abbrev pub operate : Bytes → Message → Doc → Option Doc
operate id m doc =
    process_operation doc id m.op_id m.base_version (if m.has_op then some m.op else none)
    >>= λ (r : Doc × ProcessResult). some r.0

abbrev pub operate_all : Bytes → List Message → Doc → Option Doc
operate_all id [] doc = some doc
operate_all id (m ∷ ms) doc =
    (if str_eq m.type (codes "OP") then operate id m doc else some doc) >>= operate_all id ms

op-Worked :
    (s t : Server) (c : Connection) (m : Message)
    → dispatch_op s c m ≡ some t
    → Worked (operate c.client_id m s.document) 0 s t
unfolding dispatch_op publish
op-Worked s t c m e =
    let op = if m.has_op then some m.op else none in
    let ((doc', r), ran, done) =
      >>=-eq-some (process_operation s.document c.client_id m.op_id m.base_version op) _ e in
    let answered : Worked (some doc') 0 s (publish r.status (record s { document = doc' }) c r) =
      elim (process_operation-Answer s.document c.client_id m.op_id m.base_version op doc' r ran) [
        | inl k ↦
            subst (λ d. Worked (some d) 0 s (publish r.status (record s { document = d }) c r))
              (sym k.unchanged) (refused-Worked r.status s c r k.status)
        | inr k ↦
            subst
              (λ (status : ProcessStatus).
                Worked (some doc') 0 s (publish status (record s { document = doc' }) c r))
              (sym k.status) (commit-Worked s c doc' r k)
      ] in
    subst (Worked _ 0 s) (some_inj done) (
      subst (λ o. Worked o 0 s (publish r.status (record s { document = doc' }) c r))
        (sym (ap (λ (o : Option (Doc × ProcessResult)). o >>= λ x. some x.0) ran)) answered)

-- One message, by its type.
by_type :
    (op save get ping : Bool) (s t : Server) (c : Connection) (m a b d : Message)
    → (op ≡ true → save ≡ false)
    → (if op
        then dispatch_op s c m
        else if save
        then some (dispatch_save s c)
        else if get
        then some (send_to s c.fd a)
        else if ping
        then some (send_to s c.fd b)
        else some (send_to s c.fd d))
      ≡ some t
    → Worked
        (if op then operate c.client_id m s.document else some s.document)
        (if save then 1 else 0)
        s
        t
by_type true save get ping s t c m a b d n e = rw (n refl) (op-Worked s t c m e)
by_type false true get ping s t c m a b d n e =
    subst (Worked (some s.document) 1 s) (some_inj e) (save-Worked s c)
by_type false false true ping s t c m a b d n e =
    subst (Worked (some s.document) 0 s) (some_inj e) (sent-Worked s c.fd a)
by_type false false false true s t c m a b d n e =
    subst (Worked (some s.document) 0 s) (some_inj e) (sent-Worked s c.fd b)
by_type false false false false s t c m a b d n e =
    subst (Worked (some s.document) 0 s) (some_inj e) (sent-Worked s c.fd d)

message-Worked :
    (s t : Server) (c : Connection) (m : Message)
    → dispatch_message s c m ≡ some t
    → Worked
        (if str_eq m.type (codes "OP") then operate c.client_id m s.document else some s.document)
        (if str_eq m.type (codes "SAVE") then 1 else 0)
        s
        t
unfolding dispatch_message str_eq
message-Worked s t c m e =
    by_type (str_eq m.type (codes "OP")) (str_eq m.type (codes "SAVE"))
      (str_eq m.type (codes "REQUEST_DOC")) (str_eq m.type (codes "PING")) s t c m _ _ _
      (λ o. ap (λ x. str_eq x (codes "SAVE")) ((str_eq_iff m.type (codes "OP")).0 o)) e

count-cons : (b : Bool) (n : ℕ) → (if b then 1 else 0) + n ≡ (if b then suc n else n)
count-cons true n = omega arith
count-cons false n = omega arith

pub loop-Worked :
    (ms : List Message) (s t : Server) (c : Connection)
    → dispatch_loop ms s c ≡ some t
    → Worked (operate_all c.client_id ms s.document) (save_requests ms) s t
unfolding dispatch_loop
loop-Worked [] s t c e = subst (Worked (some s.document) 0 s) (some_inj e) (record {
  processed = refl;
  between = [];
  events = sym (append-nil s.events);
  saved = refl;
  tells = (refl, refl);
  same_clients = refl;
})
loop-Worked (m ∷ ms) s t c e =
    let (u, handled, more) = >>=-eq-some (dispatch_message s c m) _ e in
    let h = message-Worked s u c m handled in
    let k = loop-Worked ms u t c more in
    record {
      processed =
          ap (λ (o : Option Doc). o >>= operate_all c.client_id ms) h.processed ∙ k.processed;
      between = h.between ++ k.between;
      events =
          k.events
          ∙ ap (λ es. es ++ k.between) h.events
          ∙ append_assoc s.events h.between k.between;
      saved =
          saves-++ h.between k.between
          ∙ ap (λ n. n + saves k.between) h.saved
          ∙ ap (λ n. (if str_eq m.type (codes "SAVE") then 1 else 0) + n) k.saved
          ∙ count-cons (str_eq m.type (codes "SAVE")) (save_requests ms);
      tells = Tells-++ h.between k.between _ _ _ _ _ _ h.tells k.tells;
      same_clients = k.same_clients ∙ h.same_clients;
    }
