-- ===== src/Server/Thread/Life.antt =====
-- A client's thread from its first message to its end.
use mathlib.Core.List.{append_assoc}
use linux_class.Common.{
  ◌≤◌, ◌≡◌, refl, sym, ap, subst, ◌∙◌, Bool, true, false, List, [], ◌∷◌, ◌++◌, none, some, All,
  >>=-eq-some, some_pair, cons_inj, Bytes, codes, fit, length, str_eq, str_eq_iff, if◌then◌else◌,
}
use linux_class.Message.{Message}
use linux_class.Operation.{Operation}
use linux_class.Document.History.{Inv}
use linux_class.Document.Replay.{IsReplay, ValidOp}
use linux_class.Server.Dispatch.Safe.{Handled, dispatch_message-Handled}
use linux_class.Autosave.{Event, log}
use linux_class.Events.Sessions.{join_entry, leave_entry}
use linux_class.Server.{
  Connection, Registry, client_id_exists, register_client, unregister_client, remove_client,
  choose_client_id,
}
use linux_class.Server.Distinct.{choose_client_id-Chosen}
use linux_class.Server.Dispatch.{Server, send_event, send_to, welcome_client, leave_client}
use linux_class.Server.Dispatch.Run.{choose-clients}
use linux_class.Server.Thread.{refused, left, refuse, dispatch_loop, serve, client_thread_main}
use linux_class.Server.Thread.Told.{saves, Tells}
use linux_class.Server.Thread.Served.{save_requests, operate_all, loop-Worked}
use linux_class.Server.Thread.Worked.{client_ids, send_over-client_ids}

-- A session: the identifier, and the events between the one of joining and the one of leaving.
pub record Served (s t : Server) (c : Connection) (ms : List Message) : Type 0 where
  pub id : Bytes
  pub free : client_id_exists s.registry.clients id ≡ false
  pub between : List Event
  pub events :
      t.events
      ≡ s.events
        ++ (log (fit 512 (join_entry id c.address))
            ∷ (between ++ log (fit 512 (leave_entry id)) ∷ []))
  pub processed : operate_all id ms s.document ≡ some t.document
  pub saved : saves between ≡ save_requests ms
  pub tells : Tells s.document.text s.document.version between t.document.text t.document.version
  pub same_clients : client_ids t.registry.clients ≡ client_ids s.registry.clients

remove-client_ids :
    (cs : List Connection) (id : Bytes) (ids : List Bytes)
    → client_ids cs ≡ id ∷ ids
    → client_ids (remove_client cs id) ≡ ids
unfolding remove_client
remove-client_ids [] id ids e = cc
remove-client_ids (c ∷ cs) id ids e =
    let same : str_eq c.client_id id ≡ true = (str_eq_iff c.client_id id).1 (cons_inj e).0 in
    rw same (cons_inj e).1

welcome-client_ids :
    (s : Server) (c : Connection) (id : Bytes)
    → client_ids (welcome_client s c id).registry.clients ≡ id ∷ client_ids s.registry.clients
unfolding welcome_client register_client send_to send_event
welcome-client_ids s c id =
    send_over-client_ids _ c.fd _
    ∙ send_over-client_ids (record c { client_id = id } ∷ s.registry.clients) c.fd _

welcome-document :
    (s : Server) (c : Connection) (id : Bytes) → (welcome_client s c id).document ≡ s.document
unfolding welcome_client send_to send_event
welcome-document s c id = refl

welcome-events :
    (s : Server) (c : Connection) (id : Bytes)
    → (welcome_client s c id).events ≡ s.events ++ log (fit 512 (join_entry id c.address)) ∷ []
unfolding welcome_client send_to send_event
welcome-events s c id = refl

left_inj : {s t : Server} → some (left s) ≡ some (left t) → s ≡ t
left_inj e = cc

module _ (s : Server) (c : Connection) (m : Message) (ms : List Message) where
  left-Served :
      (registry : Registry) (u : Server) (id : Bytes)
      → client_id_exists s.registry.clients id ≡ false
      → registry.clients ≡ s.registry.clients
      → dispatch_loop ms
          (welcome_client (record s { registry = registry }) c id)
          (record c { client_id = id })
        ≡ some u
      → Served s (leave_client u (record c { client_id = id })) c ms
  unfolding leave_client unregister_client send_event welcome_client send_to
  left-Served registry u id free same looped =
      let s0 = record s { registry = registry } in
      let k = loop-Worked ms (welcome_client s0 c id) u (record c { client_id = id }) looped in
      let joined = log (fit 512 (join_entry id c.address)) in
      let gone = log (fit 512 (leave_entry id)) in
      record {
        id = id;
        free = free;
        between = k.between;
        events =
            ap (λ es. es ++ gone ∷ []) k.events
            ∙ append_assoc (s.events ++ joined ∷ []) k.between (gone ∷ [])
            ∙ append_assoc s.events (joined ∷ []) (k.between ++ gone ∷ []);
        processed = k.processed;
        saved = k.saved;
        tells = k.tells;
        same_clients =
            remove-client_ids u.registry.clients id (client_ids registry.clients)
              (k.same_clients ∙ welcome-client_ids s0 c id)
            ∙ ap client_ids same;
      }

  serve-Served :
      (t : Server) → length m.client_id ≤ 63 → serve s c m ms ≡ some (left t) → Served s t c ms
  unfolding serve
  serve-Served t l e =
      let ((id, registry), chosen, rest) =
        >>=-eq-some (choose_client_id s.registry m.client_id) _ e in
      let named = record c { client_id = id } in
      let (u, looped, done) =
        >>=-eq-some
          (dispatch_loop ms (welcome_client (record s { registry = registry }) c id) named) _
          rest in
      let x = choose_client_id-Chosen s.registry m.client_id l in
      let same : x.id ≡ id = (some_pair (sym x.returns ∙ chosen)).0 in
      subst (λ t. Served s t c ms) (left_inj done)
        (left-Served registry u id
          (subst (λ i. client_id_exists s.registry.clients i ≡ false) same x.free)
          (choose-clients s.registry registry m.client_id id chosen) looped)

  accepted-Served :
      (b : Bool) (t : Server)
      → (b ≡ true → m.type ≡ codes "JOIN")
      → length m.client_id ≤ 63
      → (if b then serve s c m ms else some (refused (refuse c))) ≡ some (left t)
      → (m.type ≡ codes "JOIN") × Served s t c ms
  accepted-Served true t j l e = (j refl, serve-Served t l e)
  accepted-Served false t j l e = cc

-- Where the first message asks for an identifier of at most 63 bytes, a thread that is not interrupted and ends with its client's
-- leaving was begun by a JOIN, under an identifier that no client had. It logs the joining first and the leaving last. The operations
-- among the messages are processed for this client one by one, in order. Between the two entries each version that they make has
-- its snapshot, and there are as many saves as messages that ask for one, each of the text and version of its time. The
-- identifiers on the list are the same as before.
pub client_thread_main-Served :
    (s t : Server) (c : Connection) (m : Message) (ms : List Message)
    → length m.client_id ≤ 63
    → client_thread_main s c (some m) ms ≡ some (left t)
    → (m.type ≡ codes "JOIN") × Served s t c ms
unfolding client_thread_main
client_thread_main-Served s t c m ms l e =
    accepted-Served s c m ms (str_eq m.type (codes "JOIN")) t (str_eq_iff m.type (codes "JOIN")).0 l
      e

-- The operation of a message, if there is one, is no insertion or inserts one encoded character.
abbrev pub IsProper : Message → Type 0
IsProper m = (o : Operation) → (if m.has_op then some m.op else none) ≡ some o → ValidOp o

loop-Handled :
    (ms : List Message) (s : Server) (c : Connection)
    → Inv s.document
    → IsReplay s.document
    → All IsProper ms
    → Handled (dispatch_loop ms s c)
unfolding dispatch_loop
loop-Handled [] s c v w p = (s, refl, v, w)
loop-Handled (m ∷ ms) s c v w (p, ps) =
    let (u, e, v', w') = dispatch_message-Handled s c m v w p in rw e (loop-Handled ms u c v' w' ps)

leave-document : (s : Server) (c : Connection) → (leave_client s c).document ≡ s.document
unfolding leave_client send_event
leave-document s c = refl

serve_steps :
    (s : Server) (c : Connection) (m : Message) (ms : List Message) (id : Bytes)
    (registry : Registry) (u : Server)
    → choose_client_id s.registry m.client_id ≡ some (id, registry)
    → dispatch_loop ms
        (welcome_client (record s { registry = registry }) c id)
        (record c { client_id = id })
      ≡ some u
    → serve s c m ms ≡ some (left (leave_client u (record c { client_id = id })))
unfolding serve
serve_steps s c m ms id registry u chosen looped = rw chosen (rw looped refl)

-- A thread that begins with a JOIN for an identifier of at most 63 bytes, on a document whose text is well-formed and is the replay of
-- its numbered history, gets through any messages whose operations are no insertions or insert one encoded character: it ends with
-- its client's leaving, without a read outside a text, and leaves such a document.
pub client_thread_main-Ends :
    (s : Server) (c : Connection) (m : Message) (ms : List Message)
    → m.type ≡ codes "JOIN"
    → length m.client_id ≤ 63
    → Inv s.document
    → IsReplay s.document
    → All IsProper ms
    → (t : Server) × (client_thread_main s c (some m) ms ≡ some (left t))
      × Inv t.document
      × IsReplay t.document
      × Served s t c ms
unfolding client_thread_main
client_thread_main-Ends s c m ms j l v w p =
    let x = choose_client_id-Chosen s.registry m.client_id l in
    let s1 = welcome_client (record s { registry = x.after }) c x.id in
    let named = record c { client_id = x.id } in
    let same = welcome-document (record s { registry = x.after }) c x.id in
    let (u, looped, v', w') =
      loop-Handled ms s1 named (subst Inv (sym same) v) (subst IsReplay (sym same) w) p in
    let t = leave_client u named in
    let kept : t.document ≡ u.document = leave-document u named in
    let ran : serve s c m ms ≡ some (left t) =
      serve_steps s c m ms x.id x.after u x.returns looped in
    let join : str_eq m.type (codes "JOIN") ≡ true = (str_eq_iff m.type (codes "JOIN")).1 j in
    (
      t,
      rw join ran,
      subst Inv (sym kept) v',
      subst IsReplay (sym kept) w',
      serve-Served s c m ms t l ran,
    )
