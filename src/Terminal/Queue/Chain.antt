-- ===== src/Terminal/Queue/Chain.antt =====
-- The chain of nodes that the queue's pointers make.
use linux_class.Common.{
  ℕ, ◌≡◌, ◌≢◌, refl, sym, ap, ◌∙◌, Option, none, some, List, [], ◌∷◌, ◌++◌, All, arith, some_inj,
}
use linux_class.Message.{Message}
use linux_class.Terminal.Queue.{Node, Cells, IncomingQueue, update}

-- The addresses and the messages of the nodes from `start` on, to the null pointer.
abbrev pub Chain : Cells → Option ℕ → List (ℕ × Message) → Type 0
Chain cells start [] = start ≡ none
Chain cells start ((p, m) ∷ xs) =
    (start ≡ some p)
    × (n : Option ℕ) × (cells p ≡ some (record { message = m; next = n }))
    × Chain cells n xs

abbrev pub last_address : List (ℕ × Message) → Option ℕ
last_address [] = none
last_address ((p, m) ∷ []) = some p
last_address (_ ∷ x ∷ xs) = last_address (x ∷ xs)

-- No address stands twice.
abbrev pub Apart : List (ℕ × Message) → Type 0
Apart [] = Unit
Apart ((p, m) ∷ xs) = All (λ (x : ℕ × Message). x.0 ≢ p) xs × Apart xs

pub record Holds (q : IncomingQueue) (xs : List (ℕ × Message)) : Type 0 where
  pub chain : Chain q.cells q.head xs
  pub last : q.tail ≡ last_address xs
  pub distinct : Apart xs

-- A write elsewhere leaves a chain alone.
pub Chain-update :
    (cells : Cells) (start : Option ℕ) (xs : List (ℕ × Message)) (p : ℕ) (o : Option Node)
    → All (λ (x : ℕ × Message). x.0 ≢ p) xs
    → Chain cells start xs
    → Chain (update cells p o) start xs
Chain-update cells start [] p o a h = h
Chain-update cells start ((a, m) ∷ xs) p o (d, ds) (e, n, c, h) =
    (e, n, ground (arith, c, d), Chain-update cells n xs p o ds h)

-- An address that is free is not on a chain.
pub dangling : {node : Node} → ◌≡◌ {A = Option Node} (some node) none → ⊥
dangling e = absurd (cc)

pub free_apart :
    (cells : Cells) (start : Option ℕ) (xs : List (ℕ × Message)) (p : ℕ)
    → cells p ≡ none
    → Chain cells start xs
    → All (λ (x : ℕ × Message). x.0 ≢ p) xs
free_apart cells start [] p f h = tt
free_apart cells start ((a, m) ∷ xs) p f (e, n, c, h) =
    ((λ same. dangling (sym c ∙ ap cells same ∙ f)), free_apart cells n xs p f h)

pub last_apart :
    (xs : List (ℕ × Message)) (a t : ℕ)
    → All (λ (x : ℕ × Message). x.0 ≢ a) xs
    → last_address xs ≡ some t
    → t ≢ a
last_apart [] a t d e = cc
last_apart (x ∷ []) a t (d, _) e = λ same. d (some_inj e ∙ same)
last_apart (_ ∷ x ∷ xs) a t (_, ds) e = last_apart (x ∷ xs) a t ds e

pub last_node :
    (cells : Cells) (start : Option ℕ) (xs : List (ℕ × Message)) (t : ℕ)
    → Chain cells start xs
    → last_address xs ≡ some t
    → (node : Node) × (cells t ≡ some node)
last_node cells start [] t h e = cc
last_node cells start ((a, m) ∷ []) t (_, n, c, _) e =
    (record { message = m; next = n }, ap cells (sym (some_inj e)) ∙ c)
last_node cells start (_ ∷ x ∷ xs) t (_, n, _, h) e = last_node cells n (x ∷ xs) t h e

pub last-append :
    (xs : List (ℕ × Message)) (p : ℕ) (m : Message) → last_address (xs ++ (p, m) ∷ []) ≡ some p
last-append [] p m = refl
last-append (x ∷ []) p m = refl
last-append (_ ∷ x ∷ xs) p m = last-append (x ∷ xs) p m

pub Apart-append :
    (xs : List (ℕ × Message)) (p : ℕ) (m : Message)
    → All (λ (x : ℕ × Message). x.0 ≢ p) xs
    → Apart xs
    → Apart (xs ++ (p, m) ∷ [])
Apart-append [] p m d h = (tt, tt)
Apart-append ((a, n) ∷ xs) p m (d, ds) (h, hs) = (behind xs h, Apart-append xs p m ds hs)
  where
    behind :
        (ys : List (ℕ × Message))
        → All (λ (x : ℕ × Message). x.0 ≢ a) ys
        → All (λ (x : ℕ × Message). x.0 ≢ a) (ys ++ (p, m) ∷ [])
    behind [] k = ((λ e. d (sym e)), tt)
    behind (y ∷ ys) (k, ks) = (k, behind ys ks)

-- The node behind the tail becomes the last one of the chain.
pub Chain-link :
    (cells : Cells) (start : Option ℕ) (xs : List (ℕ × Message)) (t p : ℕ) (m : Message)
    (node : Node)
    → Chain cells start xs
    → Apart xs
    → last_address xs ≡ some t
    → cells t ≡ some node
    → t ≢ p
    → cells p ≡ some (record { message = m; next = none })
    → Chain (update cells t (some (record node { next = some p }))) start (xs ++ (p, m) ∷ [])
Chain-link cells start [] t p m node h d l c n e = cc
Chain-link cells start ((a, k) ∷ []) t p m node (s, next, ca, _) d l c n e =
    (s, some p, ground (arith, ca, c, l), (refl, none, ground (arith, e, n), refl))
Chain-link cells start ((a, k) ∷ x ∷ xs) t p m node (s, next, ca, h) (d, ds) l c n e = (
  s,
  next,
  ground (arith, ca, last_apart (x ∷ xs) a t d l),
  Chain-link cells next (x ∷ xs) t p m node h ds l c n e,
)

pub some_last :
    (x : ℕ × Message) (xs : List (ℕ × Message)) → (t : ℕ) × (last_address (x ∷ xs) ≡ some t)
some_last x [] = (x.0, refl)
some_last _ (x ∷ xs) = some_last x xs
