-- ===== src/Terminal/Queue.antt =====
-- client.c: the queue between the reader thread and the main thread, a linked list with a pointer to
-- its head and one to its tail. Each call holds the queue's lock, so that it is one step. `calloc` is
-- given: `p` is the address that it returns.
pub mod Chain
pub mod Fifo
use linux_class.Common.{ℕ, Option, none, some, ◌>>=◌, ◌==◌, if◌then◌else◌, List, [], ◌∷◌}
use linux_class.Message.{Message}

-- `IncomingNode`; `none` is null.
pub record Node : Type 0 where
  pub message : Message
  pub next : Option ℕ

-- The nodes that are allocated, by address.
abbrev pub Cells : Type 0
Cells = ℕ → Option Node

pub record IncomingQueue : Type 0 where
  pub head : Option ℕ
  pub tail : Option ℕ
  pub cells : Cells

abbrev pub update : Cells → ℕ → Option Node → Cells
update cells p node q = if p == q then node else cells q

-- `queue_init`, on a store of nodes.
unfoldable pub queue_init : Cells → IncomingQueue
queue_init cells = record { head = none; tail = none; cells = cells }

-- `tail->next = node`; `none` is an access through a dangling pointer.
unfoldable pub link : Cells → ℕ → ℕ → Option Cells
link cells t p = do node ← cells t; some (update cells t (some (record node { next = some p })))

-- `queue_push`, by the tail.
unfoldable pub push_behind : Option ℕ → ℕ → Cells → IncomingQueue → Option IncomingQueue
push_behind none p cells q = some (record { head = some p; tail = some p; cells = cells })
push_behind (some t) p cells q = do
  linked ← link cells t p
  some (record { head = q.head; tail = some p; cells = linked })

unfoldable pub queue_push : ℕ → Message → IncomingQueue → Option IncomingQueue
queue_push p m q =
    push_behind q.tail p (update q.cells p (some (record { message = m; next = none }))) q

-- The head is null when the last node goes, and then the tail is, too.
unfoldable pub tail_behind : Option ℕ → Option ℕ → Option ℕ
tail_behind none tail = none
tail_behind (some h) tail = tail

-- `queue_pop`, by the head. The node is freed.
unfoldable pub pop_at : Option ℕ → IncomingQueue → Option (Option Message × IncomingQueue)
pop_at none q = some (none, q)
pop_at (some h) q = do
  node ← q.cells h
  some (
    some node.message,
    record { head = node.next; tail = tail_behind node.next q.tail; cells = update q.cells h none },
  )

unfoldable pub queue_pop : IncomingQueue → Option (Option Message × IncomingQueue)
queue_pop q = pop_at q.head q
