-- ===== src/Events/Search.antt =====
-- Searching a log entry.
use linux_class.Common.{
  ℕ, zero, suc, ◌≤◌, ◌≡◌, ◌≢◌, refl, ap, ◌∙◌, false, [], ◌∷◌, ◌++◌, none, arith, All, Bytes, length,
  ◌==◌,
}
use linux_class.Protocol.Find.{strip_prefix}
use linux_class.Common.{false, none, length, ◌≡◌, ◌≤◌, Bool-cases, inl, inr, print_nat, ◌^◌, ◌<◌}
use linux_class.Common.Int.{pos}
use linux_class.Autosave.Pipe.Scan.{Ends}
use linux_class.Protocol.Find.Numbers.{strtol-print_nat, to_int_small}
use linux_class.Events.{parsed_or_zero, atoi, strstr, copy_value}

abbrev pub NoQuote : Bytes → Type 0
NoQuote = All (λ c. c ≢ b'"')

-- A match begins with a quotation mark.
pub strstr-plain :
    (xs rest pattern : Bytes)
    → NoQuote xs
    → strstr (xs ++ rest) (b'"' ∷ pattern) ≡ strstr rest (b'"' ∷ pattern)
unfolding strstr strip_prefix
strstr-plain [] rest pattern h = refl
strstr-plain (x ∷ xs) rest pattern (p, h) =
    let no : (b'"' == x) ≡ false = ground (arith, p) in
    rw (no, strstr) (strstr-plain xs rest pattern h)

-- A value is not taken for a key.
value_no_key :
    (key v rest t : Bytes) (c : ℕ)
    → NoQuote key
    → NoQuote v
    → c ≢ b':'
    → strip_prefix (key ++ (b'"' ∷ b':' ∷ t)) (v ++ (b'"' ∷ c ∷ rest)) ≡ none
unfolding strip_prefix
value_no_key [] [] rest t c k h n = let no : (b':' == c) ≡ false = ground (arith, n) in rw no refl
value_no_key [] (x ∷ v) rest t c k (p, h) n =
    let no : (b'"' == x) ≡ false = ground (arith, p) in rw no refl
value_no_key (y ∷ key) [] rest t c (q, k) h n =
    let no : (y == b'"') ≡ false = ground (arith, q) in rw no refl
value_no_key (y ∷ key) (x ∷ v) rest t c (q, k) (p, h) n =
    ground (arith, value_no_key key v rest t c k h n)

-- So the search goes on behind it.
pub strstr-value :
    (key v rest t : Bytes) (c : ℕ)
    → NoQuote key
    → NoQuote v
    → c ≢ b':'
    → strstr (b'"' ∷ (v ++ (b'"' ∷ c ∷ rest))) (b'"' ∷ (key ++ (b'"' ∷ b':' ∷ t)))
      ≡ strstr (b'"' ∷ c ∷ rest) (b'"' ∷ (key ++ (b'"' ∷ b':' ∷ t)))
unfolding strstr strip_prefix
strstr-value key v rest t c k h n =
    rw (value_no_key key v rest t c k h n, strstr)
      (strstr-plain v (b'"' ∷ c ∷ rest) (key ++ (b'"' ∷ b':' ∷ t)) h)

pub copy_value-value :
    (room : ℕ) (v rest : Bytes)
    → NoQuote v
    → length v ≤ room
    → copy_value room (v ++ b'"' ∷ rest) ≡ v
unfolding copy_value
copy_value-value zero [] rest h l = refl
copy_value-value (suc room) [] rest h l = refl
copy_value-value zero (x ∷ v) rest h l = absurd (omega (arith, l))
copy_value-value (suc room) (x ∷ v) rest (p, h) l =
    let no : (x == b'"') ≡ false = ground (arith, p) in
    rw no (ap (◌∷◌ x) (copy_value-value room v rest h (omega (arith, l))))

-- A value that is not the name is not taken for it.
value_no_name :
    (key v rest : Bytes)
    → NoQuote key
    → NoQuote v
    → v ≢ key
    → strip_prefix (key ++ b'"' ∷ []) (v ++ (b'"' ∷ rest)) ≡ none
unfolding strip_prefix
value_no_name [] [] rest k h n = absurd (n refl)
value_no_name [] (x ∷ v) rest k (p, h) n =
    let no : (b'"' == x) ≡ false = ground (arith, p) in rw no refl
value_no_name (y ∷ key) [] rest (q, k) h n =
    let no : (y == b'"') ≡ false = ground (arith, q) in rw no refl
value_no_name (y ∷ key) (x ∷ v) rest (q, k) (p, h) n = elim (Bool-cases (y == x)) [
  | inl same ↦
      let e : x ≡ y = ground (arith, same) in
      rw same (value_no_name key v rest k h (λ f. n (ap (◌∷◌ x) f ∙ ap (λ z. z ∷ key) e)))
  | inr other ↦ rw other refl
]

pub strstr-other :
    (key v rest : Bytes)
    → NoQuote key
    → NoQuote v
    → v ≢ key
    → strstr (b'"' ∷ (v ++ (b'"' ∷ rest))) (b'"' ∷ (key ++ b'"' ∷ []))
      ≡ strstr (b'"' ∷ rest) (b'"' ∷ (key ++ b'"' ∷ []))
unfolding strstr strip_prefix
strstr-other key v rest k h n =
    rw (value_no_name key v rest k h n, strstr) (strstr-plain v (b'"' ∷ rest) (key ++ b'"' ∷ []) h)

-- `atoi` reads a printed number back.
pub atoi-print_nat :
    (n : ℕ) (rest : Bytes) → Ends rest → n < 2 ^ 31 → atoi (print_nat n ++ rest) ≡ pos n
unfolding atoi parsed_or_zero
atoi-print_nat n rest k l =
    ap parsed_or_zero (strtol-print_nat n rest k (omega (arith, l))) ∙ to_int_small n l
