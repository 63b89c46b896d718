-- ===== src/Operation/Truncated.antt =====
-- A text that ends in a truncated character, such as a lone lead byte, which passes the server's
-- check for one character.
use mathlib.Core.List.{append_assoc}
use native.Mathlib.Nat.{add-zero}
use linux_class.Common.{
  ℕ, suc, ◌+◌, ◌-◌, ◌≤◌, ◌<◌, ◌≡◌, List, [], ◌∷◌, ◌++◌, none, arith, Bytes, length, flatten,
}
use linux_class.Utf8.{char_count, char_bytes, offset_loop, byte_offset}
use linux_class.Utf8.Char.{AllChars, continuation_range, char_count-char, lead_bytes}
use linux_class.Utf8.Offset.{offset_loop-char}
use linux_class.Operation.{insert, Operation, apply_insert, apply_kind, apply_operation}

-- A byte that announces more bytes.
abbrev pub IsLead : ℕ → Type 0
IsLead b = (0xC0 ≤ b) × (b < 0xF8)

char_count-truncated :
    (cs : List Bytes) (lead : ℕ)
    → AllChars cs
    → IsLead lead
    → char_count (flatten cs ++ lead ∷ []) ≡ length cs + 1
unfolding char_count
char_count-truncated [] lead h l = ground (arith, continuation_range lead)
char_count-truncated (c ∷ cs) lead (p, h) l =
    rw append_assoc
      (omega (arith, char_count-char (flatten cs ++ lead ∷ []) p, char_count-truncated cs lead h l))

-- The loop jumps past the terminator.
offset-past_end :
    (lead i chars k : ℕ) → IsLead lead → offset_loop (lead ∷ []) 0 i chars (chars + 1 + k) ≡ none
unfolding offset_loop
offset-past_end lead i chars k l =
    let jump : char_bytes (lead ∷ []) - 1 ≡ suc (char_bytes (lead ∷ []) - 2) =
      omega (arith, lead_bytes lead [] l.0 l.1) in
    rw jump (ground arith)

offset-truncated :
    (cs : List Bytes) (lead i chars k : ℕ)
    → AllChars cs
    → IsLead lead
    → offset_loop (flatten cs ++ lead ∷ []) 0 i chars (chars + length cs + 1 + k) ≡ none
offset-truncated [] lead i chars k h l = rw add-zero (offset-past_end lead i chars k l)
offset-truncated (c ∷ cs) lead i chars k (p, h) l = rw append_assoc (
    ground (
      arith,
      offset_loop-char (flatten cs ++ lead ∷ []) i chars (chars + suc (length cs) + 1 + k) p,
      offset-truncated cs lead (i + length c) (chars + 1) k h l,
    ))

-- When a lone lead byte, which counts as one character, stands at the end of a text, any further
-- insertion behind it reads past the end of the text's buffer.
pub insert_after_truncated :
    (cs : List Bytes) (lead : ℕ) (op : Operation)
    → AllChars cs
    → IsLead lead
    → op.kind ≡ insert
    → length cs < op.pos
    → (char_count (lead ∷ []) ≡ 1) × (apply_operation (flatten cs ++ lead ∷ []) op ≡ none)
unfolding apply_operation apply_kind apply_insert byte_offset
insert_after_truncated cs lead op h l e p = (
  char_count-truncated [] lead tt l,
  ground (arith, char_count-truncated cs lead h l, offset-truncated cs lead 0 0 0 h l),
)
