-- ===== src/Protocol/Wire/Nested.antt =====
-- An operation inside a message is read back.
use linux_class.Common.{
  ℕ, ◌^◌, ◌<◌, ◌-◌, length, take_all, ◌≡◌, ◌≢◌, refl, ap, ◌∙◌, List, [], ◌∷◌, some, arith, Bytes,
  codes, fit, str_eq,
}
use linux_class.Common.Int.{pos}
use linux_class.Utf8.{char_count}
use linux_class.Operation.{
  Operation, OpKind, invalid, insert, delete, noop, kind_name, kind_from_name,
}
use linux_class.Protocol.Json.RoundTrip.{IsText}
use linux_class.Protocol.Find.{json_get_string, json_get_int}
use linux_class.Protocol.Decode.{
  ok, or_default, operation_insert, operation_kind, operation_named, parse_operation_object,
}
use linux_class.Protocol.Wire.{op_value, value_text, Slot, text, int, filled}
use linux_class.Protocol.Wire.Names.{filled-Named}
use linux_class.Protocol.Wire.Seek.{object_text}
use linux_class.Protocol.Wire.Read.{text_found, text-Reads, json_get_string_read, json_get_int_read}

-- A text for a buffer of `n` bytes.
abbrev pub FitsText : ℕ → Bytes → Type 0
FitsText n s = (length s < n) × IsText s

pub fit-FitsText : (n : ℕ) (s : Bytes) → FitsText n s → fit n s ≡ s
fit-FitsText n s (l, _) = take_all (n - 1) s (omega (arith, l))

-- The encoder writes a character for an insertion only.
abbrev pub sent_char : OpKind → Bytes → Bytes
sent_char insert ch = ch
sent_char _ ch = []

pub record Sendable (o : Operation) : Type 0 where
  pub known : o.kind ≢ invalid
  pub near : o.pos < 2 ^ 31
  pub one_char : o.kind ≡ insert → char_count o.ch ≡ 1
  pub char : FitsText 8 o.ch
  pub reason : FitsText 160 o.reason

pub or_default-text_found : (n : ℕ) (s : Bytes) → fit n s ≡ s → or_default [] (text_found n s) ≡ s
or_default-text_found n [] e = refl
or_default-text_found n (c ∷ s) e = e

pub text_found-some : (n : ℕ) (s : Bytes) → fit n s ≡ s → s ≢ [] → text_found n s ≡ some s
text_found-some n [] e h = absurd (h refl)
text_found-some n (c ∷ s) e h = ap some e

module _ (name : Bytes) (n : ℕ) (ch r : Bytes) where
  abbrev op_slots : List Slot
  op_slots =
      text (codes "kind") name
      ∷ int (codes "pos") (pos n)
      ∷ text (codes "char") ch
      ∷ text (codes "reason") r
      ∷ []

  module _ (known : IsText name) (near : n < 2 ^ 31) (t : IsText ch) (why : IsText r) where
    reads_kind :
        json_get_string (object_text (filled op_slots)) (codes "kind") 32 ≡ text_found 32 name
    unfolding str_eq
    reads_kind =
        json_get_string_read (codes "kind") op_slots [] (ground arith, refl)
          (filled-Named op_slots (ground arith)) name 32 known
          (text-Reads (codes "kind") name
            (int (codes "pos") (pos n) ∷ text (codes "char") ch ∷ text (codes "reason") r ∷ [])
            refl)

    reads_pos : json_get_int (object_text (filled op_slots)) (codes "pos") ≡ some (pos n)
    unfolding str_eq
    reads_pos =
        json_get_int_read (codes "pos") op_slots
          (text (codes "char") ch ∷ text (codes "reason") r ∷ []) (ground arith, refl)
          (filled-Named op_slots (ground arith)) (pos n) refl near refl

    reads_char : json_get_string (object_text (filled op_slots)) (codes "char") 8 ≡ text_found 8 ch
    unfolding str_eq
    reads_char =
        json_get_string_read (codes "char") op_slots [] (ground arith, refl)
          (filled-Named op_slots (ground arith)) ch 8 t
          (text-Reads (codes "char") ch (text (codes "reason") r ∷ []) refl)

    reads_reason :
        json_get_string (object_text (filled op_slots)) (codes "reason") 160 ≡ text_found 160 r
    unfolding str_eq
    reads_reason =
        json_get_string_read (codes "reason") op_slots [] (ground arith, refl)
          (filled-Named op_slots (ground arith)) r 160 why (text-Reads (codes "reason") r [] refl)

    parse_named :
        fit 32 name ≡ name
        → name ≢ []
        → fit 160 r ≡ r
        → parse_operation_object (object_text (filled op_slots))
          ≡ operation_kind
              (kind_from_name (some name))
              name
              (object_text (filled op_slots))
              (record { kind = kind_from_name (some name); pos = n; ch = []; reason = r })
    unfolding parse_operation_object operation_named
    parse_named short some_name fits =
        rw
          (
            reads_kind,
            text_found-some 32 name short some_name,
            reads_pos,
            reads_reason,
            or_default-text_found 160 r fits,
          )
          refl

-- Its text, as that of an object with these members.
op_text :
    (kind : OpKind) (n : ℕ) (ch r : Bytes)
    → (kind ≡ insert → ch ≢ [])
    → value_text (op_value (record { kind = kind; pos = n; ch = ch; reason = r })) []
      ≡ object_text (filled (op_slots (kind_name kind) n (sent_char kind ch) r))
unfolding kind_name
op_text insert n [] r h = absurd (h refl refl)
op_text insert n (c ∷ ch) [] h = refl
op_text insert n (c ∷ ch) (d ∷ r) h = refl
op_text invalid n ch [] h = refl
op_text invalid n ch (d ∷ r) h = refl
op_text delete n ch [] h = refl
op_text delete n ch (d ∷ r) h = refl
op_text noop n ch [] h = refl
op_text noop n ch (d ∷ r) h = refl

one_char-nonempty : (ch : Bytes) → char_count ch ≡ 1 → ch ≢ []
unfolding char_count
one_char-nonempty [] e = omega (arith, e)
one_char-nonempty (c ∷ ch) e = λ x. cc

parse-kind :
    (kind : OpKind) (n : ℕ) (ch r : Bytes)
    → Sendable (record { kind = kind; pos = n; ch = ch; reason = r })
    → parse_operation_object
        (object_text (filled (op_slots (kind_name kind) n (sent_char kind ch) r)))
      ≡ ok (record { kind = kind; pos = n; ch = sent_char kind ch; reason = r })
unfolding parse_operation_object operation_named operation_kind operation_insert kind_name
    kind_from_name str_eq
parse-kind invalid n ch r h = absurd (h.known refl)
parse-kind insert n ch r h =
    let name : IsText (codes "insert") = ground arith in
    parse_named (codes "insert") n ch r name h.near h.char.1 h.reason.1 refl (λ e. cc)
      (fit-FitsText 160 r h.reason)
    ∙ rw
        (
          reads_char (codes "insert") n ch r name h.near h.char.1 h.reason.1,
          text_found-some 8 ch (fit-FitsText 8 ch h.char) (one_char-nonempty ch (h.one_char refl)),
          h.one_char refl,
        )
        refl
parse-kind delete n ch r h =
    let name : IsText (codes "delete") = ground arith in
    parse_named (codes "delete") n [] r name h.near tt h.reason.1 refl (λ e. cc)
      (fit-FitsText 160 r h.reason)
parse-kind noop n ch r h =
    let name : IsText (codes "noop") = ground arith in
    parse_named (codes "noop") n [] r name h.near tt h.reason.1 refl (λ e. cc)
      (fit-FitsText 160 r h.reason)

-- As it is received.
abbrev pub op_received : Operation → Operation
op_received o = record o { ch = sent_char o.kind o.ch }

pub parse-op_value :
    (o : Operation)
    → Sendable o
    → parse_operation_object (value_text (op_value o) []) ≡ ok (op_received o)
parse-op_value o h =
    ap parse_operation_object
      (op_text o.kind o.pos o.ch o.reason (λ e. one_char-nonempty o.ch (h.one_char e)))
    ∙ parse-kind o.kind o.pos o.ch o.reason h
