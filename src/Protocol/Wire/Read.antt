-- ===== src/Protocol/Wire/Read.antt =====
-- The readers of protocol.c on the text of an object: each finds the value of its own slot.
use linux_class.Common.{
  ℕ, ◌^◌, ◌<◌, ◌≡◌, inl, inr, refl, ap, ◌∙◌, Bool, true, false, List, [], ◌∷◌, ◌++◌, Option, none,
  some, ◌>>=◌, arith, Bytes, codes, fit, str_eq, str_eq_iff, if◌then◌else◌,
}
use linux_class.Common.Int.{ℤ, pos, negsuc, pos_part}
use linux_class.Operation.{kind_name, Operation}
use linux_class.Autosave.Pipe.Scan.{Ends}
use linux_class.Protocol.Json.{parse_json_string}
use linux_class.Protocol.Json.RoundTrip.{IsText, parse-json_escape}
use linux_class.Protocol.Find.{
  strtol, to_int, json_get_string, json_get_int, json_get_content, json_get_object,
}
use linux_class.Protocol.Find.Numbers.{strtol-print_nat, to_int_small}
use linux_class.Protocol.Wire.{
  str, num, char_fields, reason_fields, flat_text, value_text, members_text, op_value, Slot, text,
  int, op, content, filled,
}
use linux_class.Protocol.Wire.Lookup.{Named, GoesOn, members-GoesOn}
use linux_class.Protocol.Wire.Names.{op_value-NamedValue}
use linux_class.Protocol.Wire.Object.{object_at-value}
use linux_class.Protocol.Wire.Seek.{
  object_text, found, Searched, seek, member_at-seek, find_key-seek,
}

-- The text from a string on, or nothing when the string is empty.
abbrev pub Reads : Option Bytes → Bytes → Type 0
Reads o [] = o ≡ none
Reads o (c ∷ s) = (rest : Bytes) × (o ≡ some (flat_text (str (c ∷ s)) rest))

abbrev pub text_found : ℕ → Bytes → Option Bytes
text_found n [] = none
text_found n (c ∷ s) = some (fit n (c ∷ s))

read-Reads :
    (o : Option Bytes) (s : Bytes) (n : ℕ)
    → IsText s
    → Reads o s
    → (o >>= λ value. parse_json_string value >>= λ parsed. some (fit n parsed.0)) ≡ text_found n s
read-Reads o [] n t e = rw e refl
read-Reads o (c ∷ s) n t (rest, e) = rw (e, parse-json_escape (c ∷ s) rest t) refl

pub absent :
    (key : Bytes) (later : List Slot) → seek key later ≡ [] → found key (filled later) ≡ none
absent key later e = member_at-seek key later (b'}' ∷ []) ∙ ap (λ xs. found key (filled xs)) e

same_name : (key : Bytes) → str_eq key key ≡ true
same_name key = (str_eq_iff key key).1 refl

pub text-Reads :
    (key s : Bytes) (later : List Slot)
    → seek key later ≡ []
    → Reads (found key (filled (text key s ∷ later))) s
text-Reads key [] later e = absent key later e
text-Reads key (c ∷ s) later e = (members_text (filled later) (b'}' ∷ []), rw (same_name key) refl)

GoesOn-Ends : (xs : Bytes) → GoesOn xs → Ends xs
GoesOn-Ends xs (c, rest, inl comma, e) = rw (e, comma) refl
GoesOn-Ends xs (c, rest, inr brace, e) = rw (e, brace) refl

abbrev pub int_found : ℤ → Option ℤ
int_found (pos n) = some (pos n)
int_found (negsuc n) = none

int_read :
    (key : Bytes) (n : ℤ) (later : List Slot)
    → pos_part n < 2 ^ 31
    → seek key later ≡ []
    → (found key (filled (int key n ∷ later)) >>= λ value.
        strtol value >>= λ parsed. some (to_int parsed))
      ≡ int_found n
int_read key (negsuc n) later l e = rw (absent key later e) refl
int_read key (pos n) later l e =
    rw
      (
        same_name key,
        strtol-print_nat n (members_text (filled later) (b'}' ∷ []))
            (GoesOn-Ends _ (members-GoesOn (filled later) (b'}' ∷ []) (b'}', [], inr refl, refl)))
            (omega (arith, l)),
        to_int_small n l,
      )
      refl

module _ (key : Bytes) (xs later : List Slot) (searched : Searched key)
    (named : Named (filled xs)) where
  -- A text is read where its slot is the only one with its key.
  pub json_get_string_read :
      (s : Bytes) (n : ℕ)
      → IsText s
      → Reads (found key (filled (seek key xs))) s
      → json_get_string (object_text (filled xs)) key n ≡ text_found n s
  unfolding json_get_string
  json_get_string_read s n t h = rw (find_key-seek key xs searched named) (read-Reads _ s n t h)

  pub json_get_int_read :
      (n : ℤ)
      → seek key xs ≡ int key n ∷ later
      → pos_part n < 2 ^ 31
      → seek key later ≡ []
      → json_get_int (object_text (filled xs)) key ≡ int_found n
  unfolding json_get_int
  json_get_int_read n e l a = rw (find_key-seek key xs searched named, e) (int_read key n later l a)

  pub json_get_content_read :
      (c : Option Bytes)
      → seek key xs ≡ content c ∷ later
      → str_eq (codes "content") key ≡ true
      → ((s : Bytes) → c ≡ some s → IsText s)
      → seek key later ≡ []
      → json_get_content (object_text (filled xs)) key ≡ c
  unfolding json_get_content
  json_get_content_read none e k t a =
      rw (find_key-seek key xs searched named, e, absent key later a) refl
  json_get_content_read (some s) e k t a =
      rw
        (
          find_key-seek key xs searched named,
          e,
          k,
          parse-json_escape s (members_text (filled later) (b'}' ∷ [])) (t s refl),
        )
        refl

  pub json_get_object_read :
      (has : Bool) (o : Operation)
      → seek key xs ≡ op key has o ∷ later
      → seek key later ≡ []
      → json_get_object (object_text (filled xs)) key
        ≡ (if has then some (value_text (op_value o) []) else none)
  unfolding json_get_object
  json_get_object_read false o e a =
      rw (find_key-seek key xs searched named, e, absent key later a) refl
  json_get_object_read true o e a =
      rw
        (
          find_key-seek key xs searched named,
          e,
          same_name key,
          object_at-value (codes "kind") (str (kind_name o.kind))
              ((codes "pos", num o.pos) ∷ (char_fields o.kind o.ch ++ reason_fields o.reason))
              (members_text (filled later) (b'}' ∷ [])) (op_value-NamedValue o),
        )
        refl
