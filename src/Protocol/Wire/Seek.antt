-- ===== src/Protocol/Wire/Seek.antt =====
-- Where `find_key` ends in the text of an object, by the slots of its members.
use linux_class.Common.{
  ◌≡◌, inr, refl, sym, ap, ◌∙◌, Bool, Bool-cases, inl, true, false, ◌||◌, List, [], ◌∷◌, ◌++◌,
  Option, none, some, arith, Bytes, codes, fit, str_eq, drop, if◌then◌else◌,
}
use linux_class.Common.Int.{pos, negsuc}
use linux_class.Operation.{Operation, OpKind, invalid, insert, delete, noop}
use linux_class.Protocol.Find.{find_key, find_loop}
use linux_class.Protocol.Wire.{
  Members, members_text, or_else, inside, member_at, field_at, char_fields, reason_fields, op_value,
  Slot, text, int, op, content, slot_members, filled,
}
use linux_class.Protocol.Wire.Search.{IsName, pattern, find-other, find-Closes}
use linux_class.Protocol.Wire.Lookup.{Named, find-members}

-- The text of an object with these members, of which there is one.
abbrev pub object_text : Members → Bytes
object_text [] = codes "{}"
object_text ((k, v) ∷ ms) = b'{' ∷ drop 1 (members_text ((k, v) ∷ ms) (b'}' ∷ []))

abbrev pub found : Bytes → Members → Option Bytes
found key ms = member_at key ms (b'}' ∷ [])

-- A name whose pattern fits into the buffer of `find_key`.
abbrev pub Searched : Bytes → Type 0
Searched key = IsName key × (fit 96 (pattern key) ≡ pattern key)

or_else-none : (o : Option Bytes) → or_else o none ≡ o
or_else-none none = refl
or_else-none (some x) = refl

find_key-object_text :
    (key : Bytes) (ms : Members)
    → Searched key
    → Named ms
    → find_key (object_text ms) key ≡ found key ms
unfolding find_key find_loop
find_key-object_text key [] (n, short) h =
    ap (λ p. find_loop p (codes "{}") 0) short
    ∙ find-other key b'{' (codes "}") (omega arith)
    ∙ find-Closes key b'}' [] (inr refl)
find_key-object_text key ((k, v) ∷ ms) (n, short) h =
    let body = drop 1 (members_text ((k, v) ∷ ms) (b'}' ∷ [])) in
    ap (λ p. find_loop p (b'{' ∷ body) 0) short
    ∙ find-other key b'{' body (omega arith)
    ∙ sym (find-other key b',' body (omega arith))
    ∙ find-members key n ((k, v) ∷ ms) (b'}' ∷ []) h (b'}', [], inr refl, refl)
    ∙ ap (or_else (found key ((k, v) ∷ ms))) (find-Closes key b'}' [] (inr refl))
    ∙ or_else-none (found key ((k, v) ∷ ms))

-- Whether a key can stand in a slot.
abbrev hits : Bytes → Slot → Bool
hits key (text k s) = str_eq k key
hits key (int k n) = str_eq k key
hits key (op k has o) =
    str_eq k key
    || (str_eq (codes "kind") key
        || (str_eq (codes "pos") key || (str_eq (codes "char") key || str_eq (codes "reason") key)))
hits key (content c) = str_eq (codes "content") key

-- The slots from the first one on in which a key can stand.
abbrev pub seek : Bytes → List Slot → List Slot
seek key [] = []
seek key (x ∷ xs) = let rest = seek key xs in if hits key x then x ∷ xs else rest

||-false : (a b : Bool) → (a || b) ≡ false → (a ≡ false) × (b ≡ false)
||-false false b e = (refl, e)
||-false true b e = cc

inside-op :
    (key : Bytes) (k : Bytes) (o : Operation) (rest : Bytes)
    → hits key (op k true o) ≡ false
    → inside key (op_value o) rest ≡ none
inside-op key k o rest e =
    let (_, e1) = ||-false (str_eq k key) _ e in
    let (kind, e2) = ||-false (str_eq (codes "kind") key) _ e1 in
    let (position, e3) = ||-false (str_eq (codes "pos") key) _ e2 in
    let (character, reason) = ||-false (str_eq (codes "char") key) _ e3 in
    rw (kind, position) (behind o.kind o.reason character reason)
  where
    why :
        (r : Bytes)
        → str_eq (codes "reason") key ≡ false
        → field_at key (reason_fields r) (b'}' ∷ rest) ≡ none
    why [] h = refl
    why (c ∷ s) h = rw h refl

    behind :
        (kind : OpKind) (r : Bytes)
        → str_eq (codes "char") key ≡ false
        → str_eq (codes "reason") key ≡ false
        → field_at key (char_fields kind o.ch ++ reason_fields r) (b'}' ∷ rest) ≡ none
    behind insert r g h = rw g (why r h)
    behind invalid r g h = why r h
    behind delete r g h = why r h
    behind noop r g h = why r h

skip-slot :
    (key : Bytes) (x : Slot) (ms : Members) (rest : Bytes)
    → hits key x ≡ false
    → member_at key (slot_members x ++ ms) rest ≡ member_at key ms rest
skip-slot key (text k []) ms rest e = refl
skip-slot key (text k (c ∷ s)) ms rest e = rw e refl
skip-slot key (int k (pos n)) ms rest e = rw e refl
skip-slot key (int k (negsuc n)) ms rest e = refl
skip-slot key (op k false o) ms rest e = refl
skip-slot key (op k true o) ms rest e =
    rw ((||-false (str_eq k key) _ e).0, inside-op key k o (members_text ms rest) e) refl
skip-slot key (content none) ms rest e = refl
skip-slot key (content (some s)) ms rest e = rw e refl

pub member_at-seek :
    (key : Bytes) (xs : List Slot) (rest : Bytes)
    → member_at key (filled xs) rest ≡ member_at key (filled (seek key xs)) rest
member_at-seek key [] rest = refl
member_at-seek key (x ∷ xs) rest = elim (Bool-cases (hits key x)) [
  | inl e ↦ rw e refl
  | inr e ↦ skip-slot key x (filled xs) rest e ∙ member_at-seek key xs rest ∙ rw e refl
]

-- The search ends at the first slot in which the key stands.
pub find_key-seek :
    (key : Bytes) (xs : List Slot)
    → Searched key
    → Named (filled xs)
    → find_key (object_text (filled xs)) key ≡ found key (filled (seek key xs))
find_key-seek key xs s h =
    find_key-object_text key (filled xs) s h ∙ member_at-seek key xs (b'}' ∷ [])
