-- ===== src/Document/Transform/Converge.antt =====
-- Two operations made on one text, applied in either order with the second one transformed.
use linux_class.Common.{
  ℕ, zero, suc, ◌+◌, ◌-◌, ◌≤◌, ◌<◌, ◌^◌, ◌≡◌, ◌≢◌, ◌⊎◌, inl, inr, refl, sym, ap, dec_lt, List, [],
  ◌∷◌, arith, length, Bytes,
}
use linux_class.Operation.{OpKind, invalid, insert, delete, noop, Operation}
use linux_class.Operation.Edit.{insert_at, delete_at, edit}
use linux_class.Document.Transform.{inc_size, transform_against}

module _ {ℓ} {A : Type ℓ} where
  insert-insert :
      (p q : ℕ) (a b : A) (xs : List A)
      → p ≤ q
      → q ≤ length xs
      → insert_at (suc q) b (insert_at p a xs) ≡ insert_at p a (insert_at q b xs)
  insert-insert zero q a b xs h k = refl
  insert-insert (suc p) zero a b xs h k = absurd (omega arith)
  insert-insert (suc p) (suc q) a b [] h k = absurd (omega arith)
  insert-insert (suc p) (suc q) a b (x ∷ xs) h k =
      ap (◌∷◌ x) (insert-insert p q a b xs (omega arith) (omega arith))

  insert-delete :
      (p q : ℕ) (a : A) (xs : List A)
      → p ≤ q
      → p ≤ length xs
      → delete_at (suc q) (insert_at p a xs) ≡ insert_at p a (delete_at q xs)
  insert-delete zero q a xs h k = refl
  insert-delete (suc p) zero a xs h k = absurd (omega arith)
  insert-delete (suc p) (suc q) a [] h k = absurd (omega arith)
  insert-delete (suc p) (suc q) a (x ∷ xs) h k =
      ap (◌∷◌ x) (insert-delete p q a xs (omega arith) (omega arith))

  delete-insert :
      (p q : ℕ) (a : A) (xs : List A)
      → q ≤ p
      → p < length xs
      → delete_at q (insert_at (suc p) a xs) ≡ insert_at p a (delete_at q xs)
  delete-insert p q a [] h k = absurd (omega arith)
  delete-insert p zero a (x ∷ xs) h k = refl
  delete-insert zero (suc q) a (x ∷ xs) h k = absurd (omega arith)
  delete-insert (suc p) (suc q) a (x ∷ xs) h k =
      ap (◌∷◌ x) (delete-insert p q a xs (omega arith) (omega arith))

  delete-delete :
      (p q : ℕ) (xs : List A)
      → p ≤ q
      → delete_at q (delete_at p xs) ≡ delete_at p (delete_at (suc q) xs)
  delete-delete p q [] h = refl
  delete-delete zero q (x ∷ xs) h = refl
  delete-delete (suc p) zero (x ∷ xs) h = absurd (omega arith)
  delete-delete (suc p) (suc q) (x ∷ xs) h = ap (◌∷◌ x) (delete-delete p q xs (omega arith))

abbrev pub edit_by : Operation → List Bytes → List Bytes
edit_by op = edit op.kind op.pos op.ch

-- The position is one that a text of these characters has; deletions may miss it.
abbrev pub InRange : List Bytes → Operation → Type 0
InRange xs op = (op.pos + 1 < 2 ^ 64) × (op.kind ≡ insert → op.pos ≤ length xs)

inc_size_eq : (n : ℕ) → n + 1 < 2 ^ 64 → inc_size n ≡ suc n
inc_size_eq n h = omega arith

insert-shifted :
    (b a : Operation)
    → b.kind ≡ insert
    → a.kind ≡ insert
    → a.pos ≤ b.pos
    → b.pos + 1 < 2 ^ 64
    → transform_against b a ≡ record b { pos = suc b.pos }
unfolding transform_against
insert-shifted b a f e h k = ground (arith, inc_size_eq b.pos k)

insert-kept :
    (a b : Operation)
    → a.kind ≡ insert
    → b.kind ≡ insert
    → a.pos < b.pos
    → transform_against a b ≡ a
unfolding transform_against
insert-kept a b e f h = ground arith

converge_insert-insert :
    (a b : Operation) (xs : List Bytes)
    → a.kind ≡ insert
    → b.kind ≡ insert
    → InRange xs a
    → InRange xs b
    → a.pos < b.pos
    → edit_by (transform_against b a) (edit_by a xs)
      ≡ edit_by (transform_against a b) (edit_by b xs)
converge_insert-insert a b xs e f i j h =
    rw (insert-shifted b a f e (omega arith) j.0, insert-kept a b e f h, e, f)
      (insert-insert a.pos b.pos a.ch b.ch xs (omega arith) (j.1 f))

converge_insert-delete :
    (a b : Operation) (xs : List Bytes)
    → a.kind ≡ insert
    → b.kind ≡ delete
    → InRange xs a
    → InRange xs b
    → edit_by (transform_against b a) (edit_by a xs)
      ≡ edit_by (transform_against a b) (edit_by b xs)
unfolding transform_against
converge_insert-delete a b xs e f i j =
    ground
      (arith, i.1 e, insert-delete a.pos b.pos a.ch xs, delete-insert (a.pos - 1) b.pos a.ch xs)

converge_delete-delete :
    (a b : Operation) (xs : List Bytes)
    → a.kind ≡ delete
    → b.kind ≡ delete
    → edit_by (transform_against b a) (edit_by a xs)
      ≡ edit_by (transform_against a b) (edit_by b xs)
unfolding transform_against
converge_delete-delete a b xs e f =
    ground (arith, delete-delete a.pos (b.pos - 1) xs, delete-delete b.pos (a.pos - 1) xs)

abbrev Meet : Operation → Operation → List Bytes → Type 0
Meet a b xs =
    edit_by (transform_against b a) (edit_by a xs) ≡ edit_by (transform_against a b) (edit_by b xs)

Meet-inserts :
    (a b : Operation) (xs : List Bytes)
    → a.kind ≡ insert
    → b.kind ≡ insert
    → InRange xs a
    → InRange xs b
    → a.pos ≢ b.pos
    → Meet a b xs
Meet-inserts a b xs e f i j h = elim (dec_lt a.pos b.pos) [
  | yes l ↦ converge_insert-insert a b xs e f i j l
  | no l ↦ sym (converge_insert-insert b a xs f e j i (omega arith))
]

Meet-still :
    (a b : Operation) (xs : List Bytes) → (a.kind ≡ noop) ⊎ (a.kind ≡ invalid) → Meet a b xs
unfolding transform_against
Meet-still a b xs e = ground arith

-- Two operations made on the same text lead to the same text in either order, when the second one is
-- transformed against the first, unless both insert at one position. Positions are in range:
-- an insertion's is at most the text's length, and none is the last `size_t`.
pub transform-converges :
    (a b : Operation) (xs : List Bytes)
    → InRange xs a
    → InRange xs b
    → (a.kind ≡ insert → b.kind ≡ insert → a.pos ≢ b.pos)
    → edit_by (transform_against b a) (edit_by a xs)
      ≡ edit_by (transform_against a b) (edit_by b xs)
transform-converges a b xs i j apart = go a.kind b.kind refl refl
  where
    go : (k l : OpKind) → a.kind ≡ k → b.kind ≡ l → Meet a b xs
    go insert insert e f = Meet-inserts a b xs e f i j (apart e f)
    go insert delete e f = converge_insert-delete a b xs e f i j
    go delete insert e f = sym (converge_insert-delete b a xs f e j i)
    go delete delete e f = converge_delete-delete a b xs e f
    go noop _ e f = Meet-still a b xs (inl e)
    go invalid _ e f = Meet-still a b xs (inr e)
    go _ noop e f = sym (Meet-still b a xs (inl f))
    go _ invalid e f = sym (Meet-still b a xs (inr f))

-- Where both insert at one position, the order of arrival shows: the character that is inserted
-- second stands behind the first one.
pub transform_tie :
    (a b : Operation) (xs : List Bytes)
    → a.kind ≡ insert
    → b.kind ≡ insert
    → a.pos ≡ b.pos
    → InRange xs a
    → (edit_by (transform_against b a) (edit_by a xs)
        ≡ insert_at a.pos a.ch (insert_at a.pos b.ch xs))
      × (edit_by (transform_against a b) (edit_by b xs)
          ≡ insert_at a.pos b.ch (insert_at a.pos a.ch xs))
transform_tie a b xs e f h i = (
  rw (insert-shifted b a f e (omega arith) (omega arith), e, f, ← h)
      (insert-insert a.pos a.pos a.ch b.ch xs (omega arith) (i.1 e)),
  rw (insert-shifted a b e f (omega arith) (omega arith), e, f, ← h)
      (insert-insert a.pos a.pos b.ch a.ch xs (omega arith) (i.1 e)),
)
