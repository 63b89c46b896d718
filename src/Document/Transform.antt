-- ===== src/Document/Transform.antt =====
-- `ts_transform_against`: an operation in the coordinates of a text to which `previous` was applied.
pub mod Converge
pub mod Target
use linux_class.Common.{ℕ, ◌+◌, ◌-◌, ◌%◌, ◌^◌, List, [], ◌∷◌, ltb, leb, ◌==◌, if◌then◌else◌, codes}
use linux_class.Operation.{OpKind, invalid, insert, delete, noop, Operation, operation_noop}

-- `size_t` increments wrap.
abbrev pub inc_size : ℕ → ℕ
inc_size n = (n + 1) % 2 ^ 64

-- The body by the two kinds, `op->kind` first; `op` is the clone.
unfoldable pub transform_kinds : OpKind → OpKind → Operation → Operation → Operation
transform_kinds noop _ op previous = op
transform_kinds insert insert op previous =
    if leb previous.pos op.pos then record op { pos = inc_size op.pos } else op
transform_kinds insert delete op previous =
    if ltb previous.pos op.pos then record op { pos = op.pos - 1 } else op
transform_kinds delete insert op previous =
    if leb previous.pos op.pos then record op { pos = inc_size op.pos } else op
transform_kinds delete delete op previous =
    if ltb previous.pos op.pos
    then record op { pos = op.pos - 1 }
    else if previous.pos == op.pos
    then operation_noop op (codes "same character already deleted")
    else op
transform_kinds _ _ op previous = op

unfoldable pub transform_against : Operation → Operation → Operation
unfolding transform_kinds operation_noop
transform_against op previous = transform_kinds op.kind previous.kind op previous

-- The loop of `ts_document_process_operation` over the history entries that are taken.
unfoldable pub transform_all : Operation → List Operation → Operation
transform_all op [] = op
transform_all op (previous ∷ rest) = transform_all (transform_against op previous) rest
