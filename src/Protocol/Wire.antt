-- ===== src/Protocol/Wire.antt =====
-- A message as the members of its JSON object, in their order, and what a search for a key finds in its text.
pub mod Search
pub mod Lookup
pub mod Written
pub mod Object
pub mod Names
pub mod Seek
pub mod Read
pub mod Nested
pub mod Whole
pub mod RoundTrip
use linux_class.Common.{
  ℕ, Bool, true, false, List, [], ◌∷◌, ◌++◌, Option, none, some, Bytes, codes, str_eq, print_nat,
  if◌then◌else◌,
}
use linux_class.Common.Int.{ℤ, pos, negsuc}
use linux_class.Operation.{OpKind, insert, Operation, kind_name}
use linux_class.Message.{Message}
use linux_class.Protocol.Json.{json_escape}

-- A value inside an operation.
pub data Flat : Type 0 where
  str : Bytes → Flat
  num : ℕ → Flat

abbrev pub Fields : Type 0
Fields = List (Bytes × Flat)

pub data Value : Type 0 where
  flat : Flat → Value
  object : Bytes → Flat → Fields → Value

abbrev pub Members : Type 0
Members = List (Bytes × Value)

-- The texts, each with what follows it.
abbrev pub flat_text : Flat → Bytes → Bytes
flat_text (str s) rest = b'"' ∷ (json_escape s ++ (b'"' ∷ rest))
flat_text (num n) rest = print_nat n ++ rest

abbrev pub key_text : Bytes → Bytes → Bytes
key_text k rest = b'"' ∷ (k ++ (b'"' ∷ b':' ∷ rest))

abbrev pub fields_text : Fields → Bytes → Bytes
fields_text [] rest = rest
fields_text ((k, f) ∷ fs) rest = b',' ∷ key_text k (flat_text f (fields_text fs rest))

abbrev pub value_text : Value → Bytes → Bytes
value_text (flat f) rest = flat_text f rest
value_text (object k f fs) rest = b'{' ∷ key_text k (flat_text f (fields_text fs (b'}' ∷ rest)))

abbrev pub members_text : Members → Bytes → Bytes
members_text [] rest = rest
members_text ((k, v) ∷ ms) rest = b',' ∷ key_text k (value_text v (members_text ms rest))

abbrev pub or_else : Option Bytes → Option Bytes → Option Bytes
or_else none o = o
or_else (some x) o = some x

-- The text from the value of the first field, or member, or field of a member, with a key.
abbrev pub field_at : Bytes → Fields → Bytes → Option Bytes
field_at key [] rest = none
field_at key ((k, f) ∷ fs) rest =
    if str_eq k key then some (flat_text f (fields_text fs rest)) else field_at key fs rest

abbrev pub inside : Bytes → Value → Bytes → Option Bytes
inside key (flat f) rest = none
inside key (object k f fs) rest = field_at key ((k, f) ∷ fs) (b'}' ∷ rest)

abbrev pub member_at : Bytes → Members → Bytes → Option Bytes
member_at key [] rest = none
member_at key ((k, v) ∷ ms) rest =
    if str_eq k key
    then some (value_text v (members_text ms rest))
    else or_else (inside key v (members_text ms rest)) (member_at key ms rest)

-- The members that the encoder writes.
abbrev pub text_member : Bytes → Bytes → Members
text_member k [] = []
text_member k (c ∷ s) = (k, flat (str (c ∷ s))) ∷ []

abbrev pub int_member : Bytes → ℤ → Members
int_member k (pos n) = (k, flat (num n)) ∷ []
int_member k (negsuc n) = []

abbrev pub char_fields : OpKind → Bytes → Fields
char_fields insert ch = (codes "char", str ch) ∷ []
char_fields _ ch = []

abbrev pub reason_fields : Bytes → Fields
reason_fields [] = []
reason_fields (c ∷ s) = (codes "reason", str (c ∷ s)) ∷ []

abbrev pub op_value : Operation → Value
op_value op =
    object (codes "kind") (str (kind_name op.kind))
      ((codes "pos", num op.pos) ∷ (char_fields op.kind op.ch ++ reason_fields op.reason))

abbrev pub op_member : Bytes → Bool → Operation → Members
op_member k false op = []
op_member k true op = (k, op_value op) ∷ []

abbrev pub content_member : Option Bytes → Members
content_member none = []
content_member (some s) = (codes "content", flat (str s)) ∷ []

-- A place for a member.
pub data Slot : Type 0 where
  text : Bytes → Bytes → Slot
  int : Bytes → ℤ → Slot
  op : Bytes → Bool → Operation → Slot
  content : Option Bytes → Slot

abbrev pub slot_members : Slot → Members
slot_members (text k s) = text_member k s
slot_members (int k n) = int_member k n
slot_members (op k has o) = op_member k has o
slot_members (content c) = content_member c

abbrev pub filled : List Slot → Members
filled [] = []
filled (x ∷ xs) = slot_members x ++ filled xs

abbrev pub slots_behind : Message → List Slot
slots_behind m =
    text (codes "client_id") m.client_id
    ∷ text (codes "op_id") m.op_id
    ∷ int (codes "base_version") m.base_version
    ∷ int (codes "server_version") m.server_version
    ∷ int (codes "version") m.version
    ∷ int (codes "history_start_version") m.history_start_version
    ∷ op (codes "op") m.has_op m.op
    ∷ op (codes "original_op") m.has_original_op m.original_op
    ∷ text (codes "message") m.message
    ∷ text (codes "reason") m.reason
    ∷ content m.content
    ∷ []

abbrev pub slots : Message → List Slot
slots m = text (codes "type") m.type ∷ slots_behind m

abbrev pub members : Message → Members
members m = filled (slots m)
