-- ===== src/Operation/Apply.antt =====
-- `ts_apply_operation_to_text` implements the edit of characters.
use linux_class.Common.{
  ℕ, suc, ◌+◌, ◌≡◌, refl, ap, ◌∙◌, List, ◌++◌, some, ◌>>=◌, arith, Bytes, length, take, drop,
  take_prefix, drop_prefix, flatten, ltb, if◌then◌else◌,
}
use native.Mathlib.Numerals.{add-one}
use linux_class.Utf8.{byte_offset}
use linux_class.Utf8.Char.{IsChar, AllChars, char_count-flatten}
use linux_class.Utf8.Offset.{byte_offset-flatten}
use linux_class.Operation.{
  OpKind, invalid, insert, delete, noop, Operation, apply_insert, delete_bytes, apply_kind,
  apply_delete, apply_operation,
}
use linux_class.Operation.Edit.{
  insert_at, delete_at, edit, insert_at_end, delete_at_outside, All-insert_at, All-delete_at,
  flatten-take-drop, flatten-insert_at, flatten-delete_at,
}

-- The bytes in front of character `k`, and those from it on.
take-flatten :
    (k : ℕ) (cs : List Bytes)
    → take (length (flatten (take k cs))) (flatten cs) ≡ flatten (take k cs)
take-flatten k cs =
    rw (← flatten-take-drop k cs) (take_prefix (flatten (take k cs)) (flatten (drop k cs)))

drop-flatten :
    (k : ℕ) (cs : List Bytes)
    → drop (length (flatten (take k cs))) (flatten cs) ≡ flatten (drop k cs)
drop-flatten k cs =
    rw (← flatten-take-drop k cs) (drop_prefix (flatten (take k cs)) (flatten (drop k cs)))

insert_bytes :
    (k : ℕ) (ch : Bytes) (cs : List Bytes)
    → AllChars cs
    → (byte_offset (flatten cs) k >>= λ b.
        some (take b (flatten cs) ++ (ch ++ drop b (flatten cs))))
      ≡ some (flatten (insert_at k ch cs))
insert_bytes k ch cs h =
    rw (byte_offset-flatten cs k h, flatten-insert_at k ch cs)
      (rw (take-flatten k cs, drop-flatten k cs))

clamped :
    (cs : List Bytes) (p : ℕ) (ch : Bytes)
    → insert_at (if ltb (length cs) p then length cs else p) ch cs ≡ insert_at p ch cs
clamped cs p ch = ground (arith, insert_at_end p ch cs)

apply_insert-flatten :
    (cs : List Bytes) (p : ℕ) (ch : Bytes)
    → AllChars cs
    → apply_insert (flatten cs) p ch ≡ some (flatten (insert_at p ch cs))
unfolding apply_insert
apply_insert-flatten cs p ch h = rw (char_count-flatten cs h) (
    insert_bytes (if ltb (length cs) p then length cs else p) ch cs h
    ∙ ap some (ap flatten (clamped cs p ch)))

delete_bytes-flatten :
    (cs : List Bytes) (p : ℕ)
    → AllChars cs
    → delete_bytes (flatten cs) p ≡ some (flatten (delete_at p cs))
unfolding delete_bytes
delete_bytes-flatten cs p h =
    rw
      (
        byte_offset-flatten cs p h,
        byte_offset-flatten cs (p + 1) h,
        add-one,
        flatten-delete_at p cs,
      )
      (rw (take-flatten p cs, drop-flatten (suc p) cs))

apply_delete-flatten :
    (cs : List Bytes) (p : ℕ)
    → AllChars cs
    → apply_delete (flatten cs) p ≡ some (flatten (delete_at p cs))
unfolding apply_delete
apply_delete-flatten cs p h =
    rw (char_count-flatten cs h)
      (ground (arith, delete_bytes-flatten cs p h, delete_at_outside p cs))

-- On a well-formed text, an operation of any kind and at any position reads inside the buffer, and
-- the text it returns holds the edited characters.
pub apply_operation-edit :
    (cs : List Bytes) (op : Operation)
    → AllChars cs
    → apply_operation (flatten cs) op ≡ some (flatten (edit op.kind op.pos op.ch cs))
unfolding apply_operation
apply_operation-edit cs op h = go op.kind
  where
    go : (k : OpKind) → apply_kind k (flatten cs) op ≡ some (flatten (edit k op.pos op.ch cs))
    go insert = apply_insert-flatten cs op.pos op.ch h
    go delete = apply_delete-flatten cs op.pos h
    go noop = refl
    go invalid = refl

-- So the text stays well-formed, when an inserted character is.
pub AllChars-edit :
    (cs : List Bytes) (k : OpKind) (p : ℕ) (ch : Bytes)
    → AllChars cs
    → (k ≡ insert → IsChar ch)
    → AllChars (edit k p ch cs)
AllChars-edit cs insert p ch h c = All-insert_at IsChar p ch cs (c refl) h
AllChars-edit cs delete p ch h c = All-delete_at IsChar p cs h
AllChars-edit cs noop p ch h c = h
AllChars-edit cs invalid p ch h c = h
