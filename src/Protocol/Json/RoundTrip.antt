-- ===== src/Protocol/Json/RoundTrip.antt =====
-- A string is read back from its escaped form.
use mathlib.Core.List.{append_assoc, append-nil}
use linux_class.Common.{
  ℕ, ◌/◌, ◌%◌, ◌<◌, ◌≤◌, ◌≡◌, ◌≢◌, ◌⊎◌, dec_lt, ℕ_discrete, refl, ◌∙◌, inl, inr, [], ◌∷◌, ◌++◌,
  some, arith, All, Bytes, codes,
}
use linux_class.Protocol.Json.{
  hex_digit, hex_value, unicode, escape_byte, json_escape, next_byte, string_loop,
  parse_json_string,
}

hex_value-hex_digit : (d : ℕ) → d < 16 → hex_value (hex_digit d) ≡ some d
unfolding hex_value hex_digit
hex_value-hex_digit d h = ground arith

-- A control character's code is read back from its digits.
unicode_control :
    (b : ℕ) (rest : Bytes)
    → 0 < b
    → b < 0x20
    → unicode (b'0' ∷ b'0' ∷ hex_digit (b / 16) ∷ hex_digit (b % 16) ∷ rest) ≡ some b
unfolding unicode
unicode_control b rest p q =
    rw (hex_value-hex_digit (b / 16) (omega arith), hex_value-hex_digit (b % 16) (omega arith))
      (ground arith)

abbrev ReadsBack : ℕ → Type 0
ReadsBack b =
    (rest sb : Bytes) → string_loop (escape_byte b ++ rest) 0 sb ≡ string_loop rest 0 (sb ++ b ∷ [])

escape_named :
    (b : ℕ) → (b ≡ b'\\') ⊎ (b ≡ b'"') ⊎ (b ≡ b'\n') ⊎ (b ≡ b'\r') ⊎ (b ≡ b'\t') → ReadsBack b
unfolding string_loop escape_byte next_byte
escape_named b (inl e) rest sb = rw e
escape_named b (inr (inl e)) rest sb = rw e
escape_named b (inr (inr (inl e))) rest sb = rw e
escape_named b (inr (inr (inr (inl e)))) rest sb = rw e
escape_named b (inr (inr (inr (inr e)))) rest sb = rw e

abbrev IsOther : ℕ → Type 0
IsOther b = (b ≢ b'\\') × (b ≢ b'"') × (b ≢ b'\n') × (b ≢ b'\r') × (b ≢ b'\t')

escape_byte-control :
    (b : ℕ)
    → IsOther b
    → b < 0x20
    → escape_byte b ≡ codes "\\u00" ++ (hex_digit (b / 16) ∷ hex_digit (b % 16) ∷ [])
unfolding escape_byte
escape_byte-control b n h = ground arith

escape_byte-plain : (b : ℕ) → IsOther b → 0x20 ≤ b → escape_byte b ≡ b ∷ []
unfolding escape_byte
escape_byte-plain b n h = ground arith

escape_control : (b : ℕ) → IsOther b → 0 < b → b < 0x20 → ReadsBack b
unfolding string_loop next_byte
escape_control b n p q rest sb = rw (escape_byte-control b n q, unicode_control b rest p q)

escape_plain : (b : ℕ) → IsOther b → 0x20 ≤ b → ReadsBack b
unfolding string_loop next_byte
escape_plain b n q rest sb = rw (escape_byte-plain b n q) (ground arith)

named_or_IsOther :
    (b : ℕ) → ((b ≡ b'\\') ⊎ (b ≡ b'"') ⊎ (b ≡ b'\n') ⊎ (b ≡ b'\r') ⊎ (b ≡ b'\t')) ⊎ IsOther b
named_or_IsOther b = elim (ℕ_discrete b b'\\') [
  | yes e ↦ inl (inl e)
  | no n1 ↦ elim (ℕ_discrete b b'"') [
    | yes e ↦ inl (inr (inl e))
    | no n2 ↦ elim (ℕ_discrete b b'\n') [
      | yes e ↦ inl (inr (inr (inl e)))
      | no n3 ↦ elim (ℕ_discrete b b'\r') [
        | yes e ↦ inl (inr (inr (inr (inl e))))
        | no n4 ↦ elim (ℕ_discrete b b'\t') [
          | yes e ↦ inl (inr (inr (inr (inr e))))
          | no n5 ↦ inr (n1, n2, n3, n4, n5)
        ]
      ]
    ]
  ]
]

escape-ReadsBack : (b : ℕ) → 0 < b → ReadsBack b
escape-ReadsBack b p = elim (named_or_IsOther b) [
  | inl e ↦ escape_named b e
  | inr n ↦ elim (dec_lt b 0x20) [
    | yes l ↦ escape_control b n p l
    | no l ↦ escape_plain b n (omega arith)
  ]
]

-- No byte of a C string is 0.
abbrev pub IsText : Bytes → Type 0
IsText = All (λ b. 0 < b)

loop-json_escape :
    (s rest sb : Bytes)
    → IsText s
    → string_loop (json_escape s ++ (b'"' ∷ rest)) 0 sb ≡ some (sb ++ s, rest)
unfolding json_escape
loop-json_escape [] rest sb h = rw append-nil (unfold string_loop in refl)
loop-json_escape (b ∷ s) rest sb (p, h) = rw append_assoc (
    escape-ReadsBack b p (json_escape s ++ (b'"' ∷ rest)) sb
    ∙ loop-json_escape s rest (sb ++ b ∷ []) h
    ∙ rw append_assoc)

-- Every string without a zero byte, quotes, backslashes, control characters and UTF-8 included, is
-- read back from its escaped form, and the reading ends at its closing quote.
pub parse-json_escape :
    (s rest : Bytes)
    → IsText s
    → parse_json_string (b'"' ∷ (json_escape s ++ (b'"' ∷ rest))) ≡ some (s, rest)
unfolding parse_json_string
parse-json_escape s rest h = loop-json_escape s rest [] h

-- The escaped form has no newline, and no byte below a space, so that a message stays on one line.
pub escape_byte-printable : (b : ℕ) → All (λ c. 0x20 ≤ c) (escape_byte b)
unfolding escape_byte hex_digit
escape_byte-printable b = ground arith
