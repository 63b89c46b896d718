-- ===== src/Operation.antt =====
-- util.c, the operation functions, and `TsOperation` of termsync.h.
pub mod Edit
pub mod Apply
pub mod Names
pub mod Truncated
use linux_class.Common.{
  ℕ, zero, suc, ◌+◌, ◌-◌, ◌%◌, ◌^◌, Bool, true, false, List, [], ◌∷◌, ◌++◌, Option, none, some,
  ◌>>=◌, Bytes, codes, str_eq, fit, ltb, leb, length, take, drop, if◌then◌else◌,
}
use linux_class.Utf8.{char_count, byte_offset}

pub data OpKind : Type 0 where
  invalid insert delete noop : OpKind

-- `ch` is a buffer of 8 bytes, `reason` one of 160.
pub record Operation : Type 0 where
  pub kind : OpKind
  pub pos : ℕ
  pub ch : Bytes
  pub reason : Bytes

-- `ts_operation_init`; a null `ch` leaves the zeroed field, which is the empty string.
unfoldable pub operation_init : OpKind → ℕ → Option Bytes → Operation
operation_init kind pos none = record { kind = kind; pos = pos; ch = []; reason = [] }
operation_init kind pos (some ch) = record { kind = kind; pos = pos; ch = fit 8 ch; reason = [] }

unfoldable pub kind_name : OpKind → Bytes
kind_name insert = codes "insert"
kind_name delete = codes "delete"
kind_name noop = codes "noop"
kind_name invalid = codes "invalid"

-- A null name is `none`.
unfoldable pub kind_from_name : Option Bytes → OpKind
kind_from_name none = invalid
kind_from_name (some name) =
    if str_eq name (codes "insert")
    then insert
    else if str_eq name (codes "delete")
    then delete
    else if str_eq name (codes "noop")
    then noop
    else invalid

unfoldable pub operation_noop : Operation → Bytes → Operation
unfolding operation_init
operation_noop op reason = record (operation_init noop op.pos none) { reason = fit 160 reason }

-- The insert branch of `ts_apply_operation_to_text`.
unfoldable pub apply_insert : Bytes → ℕ → Bytes → Option Bytes
apply_insert source op_pos ch = do
  let source_chars = char_count source
  let pos = if ltb source_chars op_pos then source_chars else op_pos
  byte_pos ← byte_offset source pos
  some (take byte_pos source ++ (ch ++ drop byte_pos source))

-- The delete branch. The position is below the count of a text in memory, so `pos + 1` does not wrap.
delete_bytes : Bytes → ℕ → Option Bytes
delete_bytes source pos = do
  byte_pos ← byte_offset source pos
  next_byte ← byte_offset source (pos + 1)
  some (take byte_pos source ++ drop next_byte source)

unfoldable pub apply_delete : Bytes → ℕ → Option Bytes
unfolding delete_bytes
apply_delete source pos =
    if leb (char_count source) pos then some source else delete_bytes source pos

-- `ts_apply_operation_to_text`; `none` is a read outside the text's buffer.
apply_kind : OpKind → Bytes → Operation → Option Bytes
apply_kind noop source op = some source
apply_kind insert source op = apply_insert source op.pos op.ch
apply_kind delete source op = apply_delete source op.pos
apply_kind invalid source op = some source

unfoldable pub apply_operation : Bytes → Operation → Option Bytes
unfolding apply_kind
apply_operation text op = apply_kind op.kind text op
