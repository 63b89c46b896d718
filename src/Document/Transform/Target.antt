-- ===== src/Document/Transform/Target.antt =====
-- A deletion that is folded over the history still deletes the character that its author meant.
use linux_class.Common.{
  ℕ, zero, suc, ◌+◌, ◌-◌, ◌≤◌, ◌<◌, ◌^◌, ◌≡◌, ◌⊎◌, inl, inr, refl, List, [], ◌∷◌, some, arith,
  length, get_elem?, Bytes,
}
use linux_class.Operation.{OpKind, invalid, insert, delete, noop, Operation}
use linux_class.Operation.Edit.{insert_at, delete_at, edit}
use linux_class.Document.Transform.{transform_against, transform_all}

module _ {ℓ} {A : Type ℓ} where
  get_elem?-insert_before :
      (q p : ℕ) (a : A) (xs : List A)
      → q ≤ p
      → get_elem? (insert_at q a xs) (suc p) ≡ get_elem? xs p
  get_elem?-insert_before zero p a xs h = refl
  get_elem?-insert_before (suc q) zero a xs h = absurd (omega arith)
  get_elem?-insert_before (suc q) (suc p) a [] h = refl
  get_elem?-insert_before (suc q) (suc p) a (x ∷ xs) h =
      get_elem?-insert_before q p a xs (omega arith)

  get_elem?-insert_after :
      (q p : ℕ) (a c : A) (xs : List A)
      → p < q
      → get_elem? xs p ≡ some c
      → get_elem? (insert_at q a xs) p ≡ some c
  get_elem?-insert_after zero p a c xs h e = absurd (omega arith)
  get_elem?-insert_after (suc q) p a c [] h e = cc
  get_elem?-insert_after (suc q) zero a c (x ∷ xs) h e = e
  get_elem?-insert_after (suc q) (suc p) a c (x ∷ xs) h e =
      get_elem?-insert_after q p a c xs (omega arith) e

  get_elem?-delete_before :
      (q p : ℕ) (xs : List A) → q ≤ p → get_elem? (delete_at q xs) p ≡ get_elem? xs (suc p)
  get_elem?-delete_before q p [] h = refl
  get_elem?-delete_before zero p (x ∷ xs) h = refl
  get_elem?-delete_before (suc q) zero (x ∷ xs) h = absurd (omega arith)
  get_elem?-delete_before (suc q) (suc p) (x ∷ xs) h = get_elem?-delete_before q p xs (omega arith)

  get_elem?-delete_after :
      (q p : ℕ) (xs : List A) → p < q → get_elem? (delete_at q xs) p ≡ get_elem? xs p
  get_elem?-delete_after q p [] h = refl
  get_elem?-delete_after zero p (x ∷ xs) h = absurd (omega arith)
  get_elem?-delete_after (suc q) zero (x ∷ xs) h = refl
  get_elem?-delete_after (suc q) (suc p) (x ∷ xs) h = get_elem?-delete_after q p xs (omega arith)

-- Characters of any kind: with numbered ones, an equal character elsewhere is told apart.
module _ {A : Type 0} (inject : Bytes → A) where
  abbrev pub edit_as : Operation → List A → List A
  edit_as op = edit op.kind op.pos (inject op.ch)

  abbrev pub replay_as : List Operation → List A → List A
  replay_as [] xs = xs
  replay_as (h ∷ hs) xs = replay_as hs (edit_as h xs)

  -- One of the operations, made in turn, deletes `c`.
  abbrev pub Deletes : A → List Operation → List A → Type 0
  Deletes c [] xs = ⊥
  Deletes c (h ∷ hs) xs =
      ((h.kind ≡ delete) × (get_elem? xs h.pos ≡ some c)) ⊎ Deletes c hs (edit_as h xs)

  -- What is left of a deletion of `c`.
  abbrev pub StillAims : A → Operation → List Operation → List A → Type 0
  StillAims c op hs xs =
      ((op.kind ≡ delete) × (get_elem? (replay_as hs xs) op.pos ≡ some c))
      ⊎ ((op.kind ≡ noop) × Deletes c hs xs)

  -- What one history entry makes of a deletion of `c`.
  abbrev AimsOnce : A → Operation → Operation → List A → Operation → Type 0
  AimsOnce c op h xs op' =
      ((op'.kind ≡ delete) × (get_elem? (edit_as h xs) op'.pos ≡ some c) × (op'.pos ≤ op.pos + 1))
      ⊎ ((op'.kind ≡ noop) × (h.kind ≡ delete) × (get_elem? xs h.pos ≡ some c))

  aims_step :
      (c : A) (op h : Operation) (xs : List A)
      → op.kind ≡ delete
      → get_elem? xs op.pos ≡ some c
      → op.pos + 1 < 2 ^ 64
      → AimsOnce c op h xs (transform_against op h)
  unfolding transform_against
  aims_step c op h xs e g b = go h.kind refl
    where
      go : (k : OpKind) → h.kind ≡ k → AimsOnce c op h xs (transform_against op h)
      go insert f = ground (
        arith,
        get_elem?-insert_before h.pos op.pos (inject h.ch) xs,
        get_elem?-insert_after h.pos op.pos (inject h.ch) c xs,
      )
      go delete f = ground (
        arith,
        get_elem?-delete_before h.pos (op.pos - 1) xs,
        get_elem?-delete_after h.pos op.pos xs,
      )
      go noop f = inl (ground arith)
      go invalid f = inl (ground arith)

  transform_all-noop :
      (op : Operation) (hs : List Operation) → op.kind ≡ noop → transform_all op hs ≡ op
  unfolding transform_all transform_against
  transform_all-noop op [] e = refl
  transform_all-noop op (h ∷ hs) e = ground (arith, transform_all-noop op hs e)

  aims_all :
      (c : A) (hs : List Operation) (op : Operation) (xs : List A)
      → op.kind ≡ delete
      → get_elem? xs op.pos ≡ some c
      → op.pos + length hs + 1 < 2 ^ 64
      → StillAims c (transform_all op hs) hs xs
  unfolding transform_all
  aims_all c [] op xs e g b = inl (e, g)
  aims_all c (h ∷ hs) op xs e g b = elim (aims_step c op h xs e g (omega arith)) [
    | inl (e', g', b') ↦
        elim (aims_all c hs (transform_against op h) (edit_as h xs) e' g' (omega arith)) [
          | inl r ↦ inl r
          | inr (n, d) ↦ inr (n, inr d)
        ]
    | inr (n, k, d) ↦ inr (rw (transform_all-noop (transform_against op h) hs n) n, inl (k, d))
  ]

-- A deletion of the character `c`, made on the text of an older version and folded over the history
-- since then, either deletes that same character from the current text, or is a no-op, and then one
-- of the operations since then has deleted it. This holds for characters of any type,
-- so numbered characters show that it is the same one, and for positions that do not wrap.
pub delete-StillAims :
    {A : Type 0} (inject : Bytes → A) (c : A) (hs : List Operation) (op : Operation) (xs : List A)
    → op.kind ≡ delete
    → get_elem? xs op.pos ≡ some c
    → op.pos + length hs + 1 < 2 ^ 64
    → StillAims inject c (transform_all op hs) hs xs
delete-StillAims inject c hs op xs e g b = aims_all inject c hs op xs e g b
