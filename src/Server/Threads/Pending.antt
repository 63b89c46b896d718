-- ===== src/Server/Threads/Pending.antt =====
-- What the threads are still to send.
use linux_class.Common.{
  ℕ, ◌≡◌, ◌≢◌, refl, Bool, true, false, List, [], ◌∷◌, ◌++◌, All, codes, str_eq, if◌then◌else◌,
}
use linux_class.Message.{Message}
use linux_class.Document.{ProcessStatus, process_ok, process_error, process_resync, ProcessResult}
use linux_class.ClientState.Mirror.{Timeline}
use linux_class.Server.{Connection}
use linux_class.Server.Dispatch.Stream.{Sent}
use linux_class.Server.Dispatch.Answers.{pong-Sent, unsupported-Sent}
use linux_class.Server.Threads.{
  Task, chooses, registers, unregisters, processes, snapshots, saves, emits, sends, broadcasts,
  send_each_task, publish_tasks, dispatch_tasks,
}

-- A message that is still to be sent is true, and a connection that is still to be registered is new.
abbrev pub IsTrue : Timeline → ℕ → Task → Type 0
IsTrue T n (chooses c requested) = c.outbox ≡ []
IsTrue T n (registers c) = c.outbox ≡ []
IsTrue T n (unregisters id) = Unit
IsTrue T n (processes c m) = Unit
IsTrue T n (snapshots fd) = Unit
IsTrue T n (saves fd) = Unit
IsTrue T n (emits e) = Unit
IsTrue T n (sends fd m) = Sent T n m
IsTrue T n (broadcasts id m) = Sent T n m

abbrev pub AllTrue : Timeline → ℕ → List (List Task) → Type 0
AllTrue T n = All (All (IsTrue T n))

module _ (T U : Timeline) (n k : ℕ) (f : (m : Message) → Sent T n m → Sent U k m) where
  task-IsTrue : (task : Task) → IsTrue T n task → IsTrue U k task
  task-IsTrue (chooses c requested) h = h
  task-IsTrue (registers c) h = h
  task-IsTrue (unregisters id) h = h
  task-IsTrue (processes c m) h = h
  task-IsTrue (snapshots fd) h = h
  task-IsTrue (saves fd) h = h
  task-IsTrue (emits e) h = h
  task-IsTrue (sends fd m) h = f m h
  task-IsTrue (broadcasts id m) h = f m h

  pub tasks-IsTrue : (tasks : List Task) → All (IsTrue T n) tasks → All (IsTrue U k) tasks
  tasks-IsTrue [] h = tt
  tasks-IsTrue (task ∷ tasks) (p, h) = (task-IsTrue task p, tasks-IsTrue tasks h)

  pub threads-AllTrue : (threads : List (List Task)) → AllTrue T n threads → AllTrue U k threads
  threads-AllTrue [] h = tt
  threads-AllTrue (tasks ∷ threads) (p, h) = (tasks-IsTrue tasks p, threads-AllTrue threads h)

module _ (T : Timeline) (n : ℕ) where
  pub tasks_behind :
      (xs ys : List Task) → All (IsTrue T n) xs → All (IsTrue T n) ys → All (IsTrue T n) (xs ++ ys)
  tasks_behind [] ys h k = k
  tasks_behind (x ∷ xs) ys (p, h) k = (p, tasks_behind xs ys h k)

  -- One thread among the others.
  pub split :
      (before : List (List Task)) (tasks : List Task) (after : List (List Task))
      → AllTrue T n (before ++ (tasks ∷ after))
      → AllTrue T n before × All (IsTrue T n) tasks × AllTrue T n after
  split [] tasks after (p, h) = (tt, p, h)
  split (x ∷ before) tasks after (p, h) =
      let (a, b, c) = split before tasks after h in ((p, a), b, c)

  pub joined :
      (before : List (List Task)) (tasks : List Task) (after : List (List Task))
      → AllTrue T n before
      → All (IsTrue T n) tasks
      → AllTrue T n after
      → AllTrue T n (before ++ (tasks ∷ after))
  joined [] tasks after a b c = (b, c)
  joined (x ∷ before) tasks after (p, a) b c = (p, joined before tasks after a b c)

  if-IsTrue :
      (b : Bool) (xs ys : List Task)
      → All (IsTrue T n) xs
      → All (IsTrue T n) ys
      → All (IsTrue T n) (if b then xs else ys)
  if-IsTrue true xs ys h k = h
  if-IsTrue false xs ys h k = k

  pub dispatch-IsTrue : (c : Connection) (m : Message) → All (IsTrue T n) (dispatch_tasks c m)
  unfolding dispatch_tasks
  dispatch-IsTrue c m =
      if-IsTrue (str_eq m.type (codes "OP")) _ _ (tt, tt)
        (if-IsTrue (str_eq m.type (codes "SAVE")) _ _ (tt, tt)
          (if-IsTrue (str_eq m.type (codes "REQUEST_DOC")) _ _ (tt, tt)
            (if-IsTrue (str_eq m.type (codes "PING")) _ _ (pong-Sent T n, tt)
              (unsupported-Sent T n m, tt))))

  each-IsTrue :
      (fd : ℕ) (ms : List Message) → All (Sent T n) ms → All (IsTrue T n) (send_each_task fd ms)
  unfolding send_each_task
  each-IsTrue fd [] h = tt
  each-IsTrue fd (m ∷ ms) (p, h) = (p, each-IsTrue fd ms h)

  pub committed-IsTrue :
      (c : Connection) (r : ProcessResult)
      → Sent T n r.ack
      → Sent T n r.remote
      → All (IsTrue T n) (publish_tasks process_ok c r)
  unfolding publish_tasks
  committed-IsTrue c r a b = (
    tt,
    (
      tt,
      tasks_behind _ _ (if-IsTrue r.has_ack (sends c.fd r.ack ∷ []) [] (a, tt) tt)
          (if-IsTrue r.has_remote (broadcasts c.client_id r.remote ∷ []) [] (b, tt) tt),
    ),
  )

  pub refused-IsTrue :
      (status : ProcessStatus) (c : Connection) (r : ProcessResult)
      → status ≢ process_ok
      → All (Sent T n) r.messages
      → All (IsTrue T n) (publish_tasks status c r)
  unfolding publish_tasks
  refused-IsTrue process_ok c r d h = absurd (d refl)
  refused-IsTrue process_error c r d h = each-IsTrue c.fd r.messages h
  refused-IsTrue process_resync c r d h = each-IsTrue c.fd r.messages h
