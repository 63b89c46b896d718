-- ===== src/Protocol/Json/Shape.antt =====
-- Where quotation marks and backslashes stand in an escaped string.
use linux_class.Common.{
  ℕ, ◌/◌, ◌%◌, ◌≡◌, ◌≢◌, ◌⊎◌, inl, inr, refl, ap, [], ◌∷◌, ◌++◌, arith, All, Bytes, codes,
  ℕ_discrete, dec_lt,
}
use linux_class.Protocol.Json.{hex_digit, escape_byte, json_escape}

abbrev pub NoQuote : Bytes → Type 0
NoQuote = All (λ c. c ≢ b'"')

abbrev pub NoSpecial : Bytes → Type 0
NoSpecial = All (λ c. (c ≢ b'"') × (c ≢ b'\\'))

pub escape-quote : (b : ℕ) → b ≡ b'"' → escape_byte b ≡ b'\\' ∷ b'"' ∷ []
unfolding escape_byte
escape-quote b e = ground (arith, e)

pub escape-NoQuote : (b : ℕ) → b ≢ b'"' → NoQuote (escape_byte b)
unfolding escape_byte hex_digit
escape-NoQuote b n = ground (arith, n)

-- A byte is escaped by a backslash and bytes that are no special ones behind the first, or stands for itself and is no special one.
pub escape_backslash :
    (b : ℕ)
    → ((x : ℕ) × (q : Bytes) × (escape_byte b ≡ b'\\' ∷ x ∷ q) × NoSpecial q)
      ⊎ ((escape_byte b ≡ b ∷ []) × (b ≢ b'"') × (b ≢ b'\\'))
unfolding escape_byte hex_digit
escape_backslash b = elim (ℕ_discrete b b'\\') [
  | yes e ↦ inl (b'\\', [], ground (arith, e), tt)
  | no n1 ↦ elim (ℕ_discrete b b'"') [
    | yes e ↦ inl (b'"', [], ground (arith, e), tt)
    | no n2 ↦ elim (ℕ_discrete b b'\n') [
      | yes e ↦ inl (b'n', [], ground (arith, e), tt)
      | no n3 ↦ elim (ℕ_discrete b b'\r') [
        | yes e ↦ inl (b'r', [], ground (arith, e), tt)
        | no n4 ↦ elim (ℕ_discrete b b'\t') [
          | yes e ↦ inl (b't', [], ground (arith, e), tt)
          | no n5 ↦ elim (dec_lt b 0x20) [
            | yes l ↦ inl (
              b'u',
              codes "00" ++ (hex_digit (b / 16) ∷ hex_digit (b % 16) ∷ []),
              ground (arith, n1, n2, n3, n4, n5, l),
              ground arith,
            )
            | no l ↦ inr (ground (arith, n1, n2, n3, n4, n5, l), n2, n1)
          ]
        ]
      ]
    ]
  ]
]

-- An escaped string has no special byte, or there is a backslash before its first quotation mark.
pub json_escape_backslash :
    (s : Bytes)
    → NoSpecial (json_escape s) ⊎ ((p q : Bytes) × (json_escape s ≡ p ++ b'\\' ∷ q) × NoSpecial p)
unfolding json_escape
json_escape_backslash [] = inl tt
json_escape_backslash (b ∷ s) = elim (escape_backslash b) [
  | inl (x, q, e, _) ↦ inr ([], x ∷ (q ++ json_escape s), rw e refl, tt)
  | inr (e, n, k) ↦ elim (json_escape_backslash s) [
    | inl h ↦ inl (rw e ((n, k), h))
    | inr (p, q, f, h) ↦ inr (b ∷ p, q, rw e (ap (◌∷◌ b) f), ((n, k), h))
  ]
]
