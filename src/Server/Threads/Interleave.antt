-- ===== src/Server/Threads/Interleave.antt =====
-- What is sent stays true to one history, however the threads' steps are interleaved.
use linux_class.Common.{
  ℕ, ◌≡◌, ◌⊎◌, inl, inr, refl, sym, subst, List, [], ◌∷◌, ◌++◌, none, some, >>=-eq-some, some_inj,
  some_pair, All, codes, str_eq, if◌then◌else◌,
}
use linux_class.Message.{Message}
use linux_class.Document.{Doc, ProcessStatus, ProcessResult, process_operation}
use linux_class.Document.Answer.{Committed, Refused, process_operation-Answer}
use linux_class.ClientState.Mirror.{Timeline}
use linux_class.Server.{Connection, register_client, unregister_client, choose_client_id}
use linux_class.Server.Dispatch.{Server, send_event, send_to, broadcast_to}
use linux_class.Server.Dispatch.Stream.{
  Sent, other-Sent, snapshot-Sent, broadcast_to-Sends, remove-Sends, Truthful, commit-Extended,
}
use linux_class.Server.Dispatch.Answers.{send_to-Truthful, send_event-Truthful, Notices-Sent}
use linux_class.Server.Dispatch.Extend.{still, still-keeps}
use linux_class.Server.Dispatch.Run.{choose-clients}
use linux_class.Server.Threads.{
  Task, chooses, registers, unregisters, processes, snapshots, saves, emits, sends, broadcasts,
  publish_tasks, dispatch_tasks, welcome_tasks, join_tasks, leave_tasks, perform, System, Moves,
  accepts, handles, leaves, acts, Schedule, start, next,
}
use linux_class.Server.Threads.Pending.{
  IsTrue, AllTrue, tasks-IsTrue, threads-AllTrue, tasks_behind, split, joined, dispatch-IsTrue,
  committed-IsTrue, refused-IsTrue,
}

-- What a step keeps: the history may go on, and nothing that was true is false behind it.
record Keeps (T : Timeline) (s t : Server) (more : List Task) : Type 0 where
  longer : Timeline
  truthful : Truthful longer t
  next_true : All (IsTrue longer t.document.version) more
  still_true : (m : Message) → Sent T s.document.version m → Sent longer t.document.version m

module _ (T : Timeline) (s : Server) (h : Truthful T s) where
  -- A step that leaves the document alone.
  same_document :
      (t : Server) (more : List Task)
      → t.document ≡ s.document
      → Truthful T t
      → All (IsTrue T s.document.version) more
      → Keeps T s t more
  same_document t more e k p = record {
    longer = T;
    truthful = k;
    next_true = subst (λ (d : Doc). All (IsTrue T d.version) more) (sym e) p;
    still_true = λ m. subst (λ (d : Doc). Sent T d.version m) (sym e);
  }

  answered-Keeps :
      (c : Connection) (doc' : Doc) (r : ProcessResult)
      → Refused s.document doc' r ⊎ Committed s.document doc' r
      → Keeps T s (record s { document = doc' }) (publish_tasks r.status c r)
  answered-Keeps c doc' r (inl k) =
      same_document (record s { document = doc' }) _ k.unchanged
        (subst (λ d. Truthful T (record s { document = d })) (sym k.unchanged)
          (record { now = h.now; sent = h.sent }))
        (refused-IsTrue T s.document.version r.status c r k.status
          (Notices-Sent T s.document r.messages h.now k.notices))
  answered-Keeps c doc' r (inr k) =
      let x = commit-Extended T s doc' r h k in
      record {
        longer = x.longer;
        truthful = x.truthful;
        next_true =
            subst
              (λ (status : ProcessStatus).
                All (IsTrue x.longer doc'.version) (publish_tasks status c r))
              (sym k.status) (committed-IsTrue x.longer doc'.version c r x.ack x.remote);
        still_true = x.still_true;
      }

  perform-Keeps :
      (task : Task) (t : Server) (more : List Task)
      → perform task s ≡ some (t, more)
      → IsTrue T s.document.version task
      → Keeps T s t more
  unfolding perform str_eq welcome_tasks register_client unregister_client send_event send_to
      broadcast_to
  perform-Keeps (chooses c requested) t more e p =
      let ((id, registry), chosen, done) =
        >>=-eq-some (choose_client_id s.registry requested) _ e in
      let same = choose-clients s.registry registry requested id chosen in
      let (server, tasks) = some_pair done in
      subst (λ (x : Server × List Task). Keeps T s x.0 x.1) (some_inj done)
        (same_document (record s { registry = registry }) _ refl
          (record { now = h.now; sent = rw same h.sent })
          (
            p,
            (
              other-Sent T s.document.version _ (codes "WELCOME") refl refl refl refl,
              (tt, (tt, tt)),
            ),
          ))
  perform-Keeps (registers c) t more e p =
      subst (λ (x : Server × List Task). Keeps T s x.0 x.1) (some_inj e)
        (same_document _ _ refl
          (record {
            now = h.now;
            sent = (subst (All (Sent T s.document.version)) (sym p) tt, h.sent);
          })
          tt)
  perform-Keeps (unregisters id) t more e p =
      subst (λ (x : Server × List Task). Keeps T s x.0 x.1) (some_inj e)
        (same_document _ _ refl
          (record {
            now = h.now;
            sent = remove-Sends (Sent T s.document.version) s.registry.clients id h.sent;
          })
          tt)
  perform-Keeps (processes c m) t more e p =
      let op = if m.has_op then some m.op else none in
      let ((doc, r), ran, done) =
        >>=-eq-some (process_operation s.document c.client_id m.op_id m.base_version op) _ e in
      subst (λ (x : Server × List Task). Keeps T s x.0 x.1) (some_inj done)
        (answered-Keeps c doc r
          (process_operation-Answer s.document c.client_id m.op_id m.base_version op doc r ran))
  perform-Keeps (snapshots fd) t more e p =
      subst (λ (x : Server × List Task). Keeps T s x.0 x.1) (some_inj e)
        (same_document s _ refl h (snapshot-Sent T s.document h.now, tt))
  perform-Keeps (saves fd) t more e p =
      subst (λ (x : Server × List Task). Keeps T s x.0 x.1) (some_inj e)
        (same_document s _ refl h
          (tt, (other-Sent T s.document.version _ (codes "SAVE_QUEUED") refl refl refl refl, tt)))
  perform-Keeps (emits ev) t more e p =
      subst (λ (x : Server × List Task). Keeps T s x.0 x.1) (some_inj e)
        (same_document (send_event s ev) _ refl (send_event-Truthful T s ev h) tt)
  perform-Keeps (sends fd m) t more e p =
      subst (λ (x : Server × List Task). Keeps T s x.0 x.1) (some_inj e)
        (same_document (send_to s fd m) _ refl (send_to-Truthful T s fd m p h) tt)
  perform-Keeps (broadcasts id m) t more e p =
      subst (λ (x : Server × List Task). Keeps T s x.0 x.1) (some_inj e)
        (same_document (broadcast_to s id m) _ refl
          (record {
            now = h.now;
            sent = broadcast_to-Sends (Sent T s.document.version) s id m p h.sent;
          })
          tt)

-- One history, to which everything that was sent, and everything that a thread is about to send, is true.
pub record Steady (x : System) : Type 0 where
  pub history : Timeline
  pub truthful : Truthful history x.server
  pub pending : AllTrue history x.server.document.version x.threads

threads-Steady :
    (T : Timeline) (s t : Server) (before after : List (List Task)) (tasks more : List Task)
    → AllTrue T s.document.version (before ++ (tasks ∷ after))
    → (k : Keeps T s t more) → (rest : List Task) → All (IsTrue T s.document.version) rest
    → AllTrue k.longer t.document.version (before ++ ((more ++ rest) ∷ after))
threads-Steady T s t before after tasks more h k rest r =
    let (a, b, c) = split T s.document.version before tasks after h in
    let up = threads-AllTrue T k.longer s.document.version t.document.version k.still_true in
    joined k.longer t.document.version before (more ++ rest) after (up before a)
      (tasks_behind k.longer t.document.version more rest k.next_true
        (tasks-IsTrue T k.longer s.document.version t.document.version k.still_true rest r))
      (up after c)

-- A thread that was idle has something to do.
idle-Steady :
    (s : Server) (before after : List (List Task)) (tasks : List Task)
    → ((T : Timeline) (n : ℕ) → All (IsTrue T n) tasks)
    → Steady (record { server = s; threads = before ++ ([] ∷ after) })
    → Steady (record { server = s; threads = before ++ (tasks ∷ after) })
idle-Steady s before after tasks p h =
    let (a, b, c) = split h.history s.document.version before [] after h.pending in
    record {
      history = h.history;
      truthful = h.truthful;
      pending =
          joined h.history s.document.version before tasks after a (p h.history s.document.version)
            c;
    }

Moves-Steady : (x y : System) → Moves x y → Steady x → Steady y
unfolding join_tasks leave_tasks
Moves-Steady _ _ (accepts s threads c m fresh) h = record {
  history = h.history;
  truthful = h.truthful;
  pending = ((fresh, tt), h.pending);
}
Moves-Steady _ _ (handles s before after c m) h =
    idle-Steady s before after (dispatch_tasks c m) (λ T n. dispatch-IsTrue T n c m) h
Moves-Steady _ _ (leaves s before after c) h =
    idle-Steady s before after (leave_tasks c) (λ T n. (tt, (tt, tt))) h
Moves-Steady _ _ (acts s t before after task rest more e) h =
    let (a, (now, later), c) =
      split h.history s.document.version before (task ∷ rest) after h.pending in
    let k = perform-Keeps h.history s h.truthful task t more e now in
    record {
      history = k.longer;
      truthful = k.truthful;
      pending = threads-Steady h.history s t before after (task ∷ rest) more h.pending k rest later;
    }

-- However the steps of the server's threads are interleaved, from a server without clients and without threads on, there is one history
-- of texts, each made from the one before by one operation, such that every snapshot, acknowledgement and broadcast, in
-- a connection or still to be sent by a thread, holds one of its texts or carries one of its operations under the right
-- version, and the document holds its last text.
pub schedule-Steady :
    (x y : System) → Schedule x y → x.server.registry.clients ≡ [] → x.threads ≡ [] → Steady y
schedule-Steady _ _ (start x) none_yet no_threads = record {
  history = record {
    texts = λ v. x.server.document.text;
    log = λ v. still;
    next = λ v. still-keeps x.server.document.text;
  };
  truthful = record { now = refl; sent = rw none_yet tt };
  pending = rw no_threads tt;
}
schedule-Steady _ _ (next x y z before move) none_yet no_threads =
    Moves-Steady y z move (schedule-Steady x y before none_yet no_threads)
