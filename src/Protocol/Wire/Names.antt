-- ===== src/Protocol/Wire/Names.antt =====
-- The names of the members of a message.
use linux_class.Common.{true, false, List, [], ◌∷◌, ◌++◌, none, some, arith, All, Bytes}
use linux_class.Common.Int.{pos, negsuc}
use linux_class.Message.{Message}
use linux_class.Operation.{Operation, OpKind, invalid, insert, delete, noop}
use linux_class.Protocol.Wire.{
  Members, op_value, char_fields, reason_fields, Slot, text, int, op, content, slot_members, filled,
  slots,
}
use linux_class.Protocol.Wire.Search.{IsName}
use linux_class.Protocol.Wire.Lookup.{NamedFields, NamedValue, Named}

-- The name of each slot is one.
abbrev pub NamedSlot : Slot → Type 0
NamedSlot (text k s) = IsName k
NamedSlot (int k n) = IsName k
NamedSlot (op k has o) = IsName k
NamedSlot (content c) = Unit

reason-NamedFields : (r : Bytes) → NamedFields (reason_fields r)
reason-NamedFields [] = tt
reason-NamedFields (c ∷ s) = ground arith

char-NamedFields :
    (kind : OpKind) (ch r : Bytes) → NamedFields (char_fields kind ch ++ reason_fields r)
char-NamedFields insert ch r = (ground arith, reason-NamedFields r)
char-NamedFields invalid ch r = reason-NamedFields r
char-NamedFields delete ch r = reason-NamedFields r
char-NamedFields noop ch r = reason-NamedFields r

pub op_value-NamedValue : (o : Operation) → NamedValue (op_value o)
op_value-NamedValue o = (ground arith, (ground arith, char-NamedFields o.kind o.ch o.reason))

slot-Named : (x : Slot) (ms : Members) → NamedSlot x → Named ms → Named (slot_members x ++ ms)
slot-Named (text k []) ms n h = h
slot-Named (text k (c ∷ s)) ms n h = ((n, tt), h)
slot-Named (int k (pos i)) ms n h = ((n, tt), h)
slot-Named (int k (negsuc i)) ms n h = h
slot-Named (op k true o) ms n h = ((n, op_value-NamedValue o), h)
slot-Named (op k false o) ms n h = h
slot-Named (content none) ms n h = h
slot-Named (content (some s)) ms n h = ((ground arith, tt), h)

pub filled-Named : (xs : List Slot) → All NamedSlot xs → Named (filled xs)
filled-Named [] h = tt
filled-Named (x ∷ xs) (p, h) = slot-Named x (filled xs) p (filled-Named xs h)

pub slots-NamedSlot : (m : Message) → All NamedSlot (slots m)
slots-NamedSlot m = ground arith
