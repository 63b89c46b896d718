-- ===== src/Utf8/Char.antt =====
-- UTF-8 characters by their byte ranges, and what the bit tests of util.c say of them.
use linux_class.Common.{
  ℕ, ◌+◌, ◌≤◌, ◌<◌, ◌≡◌, refl, Bool, true, false, not, ◌&&◌, List, [], ◌∷◌, ◌++◌, arith, ltb, leb,
  ◌==◌, if◌then◌else◌, passes, passes_at, ==_iff, Bytes, length, All, flatten,
}
use linux_class.Utf8.{is_utf8_continuation, char_count, char_bytes}

abbrev pub IsTail : ℕ → Type 0
IsTail b = (0x80 ≤ b) × (b < 0xC0)

-- One encoded character.
pub data IsChar : Bytes → Type 0 where
  one : {a : ℕ} → 0 < a → a < 0x80 → IsChar (a ∷ [])
  two : {a b : ℕ} → 0xC0 ≤ a → a < 0xE0 → IsTail b → IsChar (a ∷ b ∷ [])
  three : {a b c : ℕ} → 0xE0 ≤ a → a < 0xF0 → IsTail b → IsTail c → IsChar (a ∷ b ∷ c ∷ [])
  four :
      {a b c d : ℕ}
      → 0xF0 ≤ a
      → a < 0xF8
      → IsTail b
      → IsTail c
      → IsTail d
      → IsChar (a ∷ b ∷ c ∷ d ∷ [])

abbrev pub AllChars : List Bytes → Type 0
AllChars = All IsChar

same : Bool → Bool → Bool
same true b = b
same false b = not b

same-eq : (a b : Bool) → same a b ≡ true → a ≡ b
unfolding same
same-eq a b h = ground arith

in_tail : ℕ → Bool
in_tail b = leb 0x80 b && ltb b 0xC0

continuation_table : passes (λ b. same (is_utf8_continuation b) (in_tail b)) 256 ≡ true
unfolding passes same in_tail is_utf8_continuation
continuation_table = refl

-- The mask test is the byte range.
pub continuation_range : (b : ℕ) → b < 256 → is_utf8_continuation b ≡ (leb 0x80 b && ltb b 0xC0)
unfolding in_tail
continuation_range b h = same-eq _ _ (passes_at _ 256 b h continuation_table)

announced : ℕ → ℕ
announced a =
    if ltb a 0xC0
    then 1
    else if ltb a 0xE0
    then 2
    else if ltb a 0xF0
    then 3
    else if ltb a 0xF8
    then 4
    else 1

bytes_table : passes (λ a. char_bytes (a ∷ []) == announced a) 256 ≡ true
unfolding passes char_bytes announced
bytes_table = refl

char_bytes_range : (a : ℕ) (rest : Bytes) → a < 256 → char_bytes (a ∷ rest) ≡ announced a
unfolding char_bytes
char_bytes_range a rest h = (==_iff _ _).0 (passes_at _ 256 a h bytes_table)

count_tail : (b : ℕ) (rest : Bytes) → IsTail b → char_count (b ∷ rest) ≡ char_count rest
unfolding char_count
count_tail b rest h = ground (arith, continuation_range b)

count_lead :
    (a : ℕ) (rest : Bytes)
    → a < 256
    → (leb 0x80 a && ltb a 0xC0) ≡ false
    → char_count (a ∷ rest) ≡ char_count rest + 1
unfolding char_count
count_lead a rest h n = ground (arith, continuation_range a)

-- A character counts once, whatever follows.
pub char_count-char :
    {c : Bytes} (rest : Bytes) → IsChar c → char_count (c ++ rest) ≡ char_count rest + 1
char_count-char rest (one {a} p q) = count_lead a rest (omega arith) (ground arith)
char_count-char rest (two {a} {b} p q t) =
    ground (arith, count_lead a (b ∷ rest), count_tail b rest t)
char_count-char rest (three {a} {b} {c} p q t u) =
    ground (arith, count_lead a (b ∷ c ∷ rest), count_tail b (c ∷ rest) t, count_tail c rest u)
char_count-char rest (four {a} {b} {c} {d} p q t u v) = ground (
  arith,
  count_lead a (b ∷ c ∷ d ∷ rest),
  count_tail b (c ∷ d ∷ rest) t,
  count_tail c (d ∷ rest) u,
  count_tail d rest v,
)

-- The first byte announces the character's length.
pub char_bytes-char : {c : Bytes} (rest : Bytes) → IsChar c → char_bytes (c ++ rest) ≡ length c
unfolding announced
char_bytes-char rest (one {a} p q) = ground (arith, char_bytes_range a rest)
char_bytes-char rest (two {a} {b} p q t) = ground (arith, char_bytes_range a (b ∷ rest))
char_bytes-char rest (three {a} {b} {c} p q t u) = ground (arith, char_bytes_range a (b ∷ c ∷ rest))
char_bytes-char rest (four {a} {b} {c} {d} p q t u v) =
    ground (arith, char_bytes_range a (b ∷ c ∷ d ∷ rest))

-- The characters of a well-formed text are counted.
pub char_count-flatten : (cs : List Bytes) → AllChars cs → char_count (flatten cs) ≡ length cs
unfolding char_count
char_count-flatten [] h = refl
char_count-flatten (c ∷ cs) (p, h) =
    omega (arith, char_count-char (flatten cs) p, char_count-flatten cs h)

-- A lead byte announces more bytes than itself.
pub lead_bytes : (a : ℕ) (rest : Bytes) → 0xC0 ≤ a → a < 0xF8 → 2 ≤ char_bytes (a ∷ rest)
unfolding announced
lead_bytes a rest p q = ground (arith, char_bytes_range a rest)
