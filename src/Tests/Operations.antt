-- ===== src/Tests/Operations.antt =====
-- The operations and their transformation, at concrete inputs.
use linux_class.Common.{ℕ, ◌≡◌, refl, List, [], ◌∷◌, none, some, Bytes, codes, flatten, arith}
use linux_class.Utf8.{char_count, char_bytes, byte_offset, is_utf8_continuation}
use linux_class.Utf8.Char.{one, three, AllChars}
use linux_class.Utf8.Offset.{byte_offset-flatten}
use linux_class.Operation.{insert, delete, Operation, apply_operation, apply_delete}
use linux_class.Operation.Apply.{apply_operation-edit}
use linux_class.Operation.Truncated.{insert_after_truncated}
use linux_class.Document.Transform.{transform_against, transform_all}
use linux_class.Document.Transform.Converge.{edit_by, transform-converges, transform_tie}

-- "a", U+4E2D and "b".
abbrev chars : List Bytes
chars = (0x61 ∷ []) ∷ (0xE4 ∷ 0xB8 ∷ 0xAD ∷ []) ∷ (0x62 ∷ []) ∷ []

chars-ok : AllChars chars
chars-ok = (
  one (omega arith) (omega arith),
  (
    three (omega arith) (omega arith) (omega arith) (omega arith),
    (one (omega arith) (omega arith), tt),
  ),
)

abbrev put : ℕ → Operation
put p = record { kind = insert; pos = p; ch = 0x78 ∷ []; reason = [] }

abbrev put_y : ℕ → Operation
put_y p = record { kind = insert; pos = p; ch = 0x79 ∷ []; reason = [] }

abbrev cut : ℕ → Operation
cut p = record { kind = delete; pos = p; ch = []; reason = [] }

delete_wide : apply_operation (flatten chars) (cut 1) ≡ some (codes "ab")
unfolding apply_operation apply_delete char_count byte_offset char_bytes is_utf8_continuation
delete_wide = refl

byte_offset-flatten_example : byte_offset (flatten chars) 2 ≡ some 4
byte_offset-flatten_example = byte_offset-flatten chars 2 chars-ok

apply_operation-edit_example :
    apply_operation (flatten chars) (put 2) ≡ some (0x61 ∷ 0xE4 ∷ 0xB8 ∷ 0xAD ∷ 0x78 ∷ 0x62 ∷ [])
apply_operation-edit_example = apply_operation-edit chars (put 2) chars-ok

insert_after_truncated_example :
    (char_count (0xE4 ∷ []) ≡ 1) × (apply_operation (0x61 ∷ 0xE4 ∷ []) (put 2) ≡ none)
insert_after_truncated_example =
    insert_after_truncated ((0x61 ∷ []) ∷ []) 0xE4 (put 2) (one (omega arith) (omega arith), tt)
      (omega arith) refl (omega arith)

transform-converges_example :
    edit_by (transform_against (put_y 2) (cut 1)) (edit_by (cut 1) chars)
    ≡ edit_by (transform_against (cut 1) (put_y 2)) (edit_by (put_y 2) chars)
transform-converges_example =
    transform-converges (cut 1) (put_y 2) chars (omega arith, λ e. cc)
      (omega arith, λ _. omega arith) (λ e. cc)

transform_tie_example :
    edit_by (transform_against (put_y 1) (put 1)) (edit_by (put 1) chars)
    ≡ (0x61 ∷ []) ∷ (0x78 ∷ []) ∷ (0x79 ∷ []) ∷ (0xE4 ∷ 0xB8 ∷ 0xAD ∷ []) ∷ (0x62 ∷ []) ∷ []
transform_tie_example =
    (transform_tie (put 1) (put_y 1) chars refl refl refl (omega arith, λ _. omega arith)).0

delete_follows : transform_all (cut 1) (put 0 ∷ cut 1 ∷ []) ≡ cut 1
unfolding transform_all transform_against
delete_follows = refl
