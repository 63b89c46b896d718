-- ===== src/Terminal/Queue/Fifo.antt =====
-- The linked queue against a list of messages, oldest first.
use linux_class.Common.{
  ℕ, ◌≡◌, ◌≢◌, refl, sym, ap, subst, ◌∙◌, Option, none, some, ◌>>=◌, List, [], ◌∷◌, ◌++◌, arith,
  ◌>>=◌,
}
use linux_class.Message.{Message}
use linux_class.Terminal.Queue.{
  Node, Cells, IncomingQueue, update, queue_init, link, push_behind, queue_push, tail_behind,
  pop_at, queue_pop,
}
use linux_class.Terminal.Queue.Chain.{
  Holds, Chain, last_address, Chain-update, dangling, free_apart, last_node, last-append,
  Apart-append, Chain-link, some_last,
}

pub push-Holds :
    (q : IncomingQueue) (xs : List (ℕ × Message)) (p : ℕ) (m : Message)
    → q.cells p ≡ none
    → Holds q xs
    → (q' : IncomingQueue) × (queue_push p m q ≡ some q') × Holds q' (xs ++ (p, m) ∷ [])
unfolding queue_push push_behind link
push-Holds q [] p m free h = (
  record {
    head = some p;
    tail = some p;
    cells = update q.cells p (some (record { message = m; next = none }));
  },
  ap (λ t. push_behind t p (update q.cells p (some (record { message = m; next = none }))) q)
      h.last,
  record { chain = (refl, none, ground arith, refl); last = refl; distinct = (tt, tt) },
)
push-Holds q (x ∷ xs) p m free h =
    let (t, l) = some_last x xs in
    let (node, c) = last_node q.cells q.head (x ∷ xs) t h.chain l in
    let cells' = update q.cells p (some (record { message = m; next = none })) in
    let elsewhere : t ≢ p = λ same. dangling (sym c ∙ ap q.cells same ∙ free) in
    let kept : cells' t ≡ some node = ground (arith, c, elsewhere) in
    let apart = free_apart q.cells q.head (x ∷ xs) p free h.chain in
    (
      record {
        head = q.head;
        tail = some p;
        cells = update cells' t (some (record node { next = some p }));
      },
      ap (λ o. push_behind o p cells' q) (h.last ∙ l)
          ∙ ap
              (λ (o : Option Node).
                (o >>= λ n. some (update cells' t (some (record n { next = some p }))))
                >>= λ linked. some (record { head = q.head; tail = some p; cells = linked }))
              kept,
      record {
        chain =
            Chain-link cells' q.head (x ∷ xs) t p m node
              (Chain-update q.cells q.head (x ∷ xs) p _ apart h.chain) h.distinct l kept elsewhere
              (ground arith);
        last = sym (last-append (x ∷ xs) p m);
        distinct = Apart-append (x ∷ xs) p m apart h.distinct;
      },
    )

tail_left :
    (cells : Cells) (p : ℕ) (m : Message) (n : Option ℕ) (xs : List (ℕ × Message)) (tail : Option ℕ)
    → Chain cells n xs
    → tail ≡ last_address ((p, m) ∷ xs)
    → tail_behind n tail ≡ last_address xs
unfolding tail_behind
tail_left cells p m n [] tail h e = rw h refl
tail_left cells p m n (x ∷ xs) tail (s, _, _, _) e = rw s e

pub pop-Holds :
    (q : IncomingQueue) (p : ℕ) (m : Message) (xs : List (ℕ × Message))
    → Holds q ((p, m) ∷ xs)
    → (q' : IncomingQueue) × (queue_pop q ≡ some (some m, q')) × Holds q' xs
unfolding queue_pop pop_at tail_behind
pop-Holds q p m xs h =
    let (at_head, n, c, rest) = h.chain in
    let (d, ds) = h.distinct in
    (
      record { head = n; tail = tail_behind n q.tail; cells = update q.cells p none },
      ap (λ o. pop_at o q) at_head
          ∙ ap
              (λ (o : Option Node). o >>= λ k. some (
                some k.message,
                record {
                  head = k.next;
                  tail = tail_behind k.next q.tail;
                  cells = update q.cells p none;
                },
              ))
              c,
      record {
        chain = Chain-update q.cells n xs p none d rest;
        last = tail_left q.cells p m n xs q.tail rest h.last;
        distinct = ds;
      },
    )

pub pop_empty : (q : IncomingQueue) → Holds q [] → queue_pop q ≡ some (none, q)
unfolding queue_pop pop_at
pop_empty q h = rw (h.chain) refl

-- What the two threads do with the queue, in the order in which they hold its lock. A push carries the
-- address that `calloc` returns.
pub data Call : Type 0 where
  push : ℕ → Message → Call
  pop : Call

-- A list of messages, oldest first.
unfoldable pub run_list : List Call → List Message → List (Option Message)
run_list [] ms = []
run_list (push p m ∷ calls) ms = run_list calls (ms ++ m ∷ [])
run_list (pop ∷ calls) [] = none ∷ run_list calls []
run_list (pop ∷ calls) (m ∷ ms) = some m ∷ run_list calls ms

-- The linked queue on the same calls.
unfoldable pub run_linked : List Call → IncomingQueue → Option (List (Option Message))
run_linked [] q = some []
run_linked (push p m ∷ calls) q = queue_push p m q >>= run_linked calls
run_linked (pop ∷ calls) q = do
  (popped, q') ← queue_pop q
  rest ← run_linked calls q'
  some (popped ∷ rest)

abbrev pub After : {A : Type 0} → (A → Type 0) → Option A → Type 0
After P none = Unit
After P (some x) = P x

-- `calloc` returns addresses at which no node stands at that time.
unfoldable pub Fresh : List Call → IncomingQueue → Type 0
Fresh [] q = Unit
Fresh (push p m ∷ calls) q = (q.cells p ≡ none) × After (Fresh calls) (queue_push p m q)
Fresh (pop ∷ calls) q =
    After (λ (x : Option Message × IncomingQueue). Fresh calls x.1) (queue_pop q)

messages : List (ℕ × Message) → List Message
messages [] = []
messages ((p, m) ∷ xs) = m ∷ messages xs

messages-append :
    (xs : List (ℕ × Message)) (p : ℕ) (m : Message)
    → messages (xs ++ (p, m) ∷ []) ≡ messages xs ++ m ∷ []
unfolding messages
messages-append [] p m = refl
messages-append ((a, k) ∷ xs) p m = ap (◌∷◌ k) (messages-append xs p m)

run-Holds :
    (calls : List Call) (q : IncomingQueue) (xs : List (ℕ × Message))
    → Fresh calls q
    → Holds q xs
    → run_linked calls q ≡ some (run_list calls (messages xs))
unfolding run_linked run_list messages Fresh
run-Holds [] q xs f h = refl
run-Holds (push p m ∷ calls) q xs (free, f) h =
    let (q', e, h') = push-Holds q xs p m free h in
    let f' : Fresh calls q' = subst (After (Fresh calls)) e f in
    rw (e, ← messages-append xs p m) (run-Holds calls q' (xs ++ (p, m) ∷ []) f' h')
run-Holds (pop ∷ calls) q [] f h =
    let f' : Fresh calls q =
      subst (After (λ (x : Option Message × IncomingQueue). Fresh calls x.1)) (pop_empty q h) f in
    rw (pop_empty q h) (rw (run-Holds calls q [] f' h) refl)
run-Holds (pop ∷ calls) q ((p, m) ∷ xs) f h =
    let (q', e, h') = pop-Holds q p m xs h in
    let f' : Fresh calls q' =
      subst (After (λ (x : Option Message × IncomingQueue). Fresh calls x.1)) e f in
    rw e (rw (run-Holds calls q' xs f' h') refl)

-- Where `calloc` gives free addresses, pushes and pops in any order, by the two threads, never follow a
-- dangling pointer, and every message comes out once, in the order in which the messages went in.
pub run_linked-eq-run_list :
    (calls : List Call) (cells : Cells)
    → Fresh calls (queue_init cells)
    → run_linked calls (queue_init cells) ≡ some (run_list calls [])
unfolding queue_init messages
run_linked-eq-run_list calls cells f =
    run-Holds calls (queue_init cells) [] f (record { chain = refl; last = refl; distinct = tt })
