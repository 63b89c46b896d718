-- ===== src/Protocol/Find/Numbers.antt =====
-- Printed numbers are read back.
use linux_class.Common.{
  ℕ, ◌+◌, ◌-◌, ◌*◌, ◌%◌, ◌^◌, ◌<◌, ◌≡◌, ◌≢◌, refl, ap, ◌∙◌, Bool, true, false, ◌&&◌, [], ◌∷◌, ◌++◌,
  Option, some, ◌>>=◌, arith, All, Bytes, print_nat, leb, ltb, ◌==◌,
}
use linux_class.Common.Int.{pos}
use linux_class.Common.Decimal.{
  read_digits, read-print_nat, IsDigit, print_nat-digits, print_nat-nonempty,
}
use linux_class.Autosave.Pipe.Scan.{Ends, skip-digits}
use linux_class.Protocol.Find.{strtol, to_int, signed, digits_loop, positive, word_int}

digits-read :
    (ds rest : Bytes) (n : ℕ) (seen : Bool)
    → All IsDigit ds
    → ds ≢ []
    → Ends rest
    → digits_loop (ds ++ rest) n seen ≡ some (read_digits ds n)
unfolding digits_loop read_digits
digits-read [] rest n seen h e k = absurd (e refl)
digits-read (d ∷ []) rest n seen (h, _) e k =
    let digit : (leb b'0' d && leb d b'9') ≡ true = ground (arith, h) in rw digit (at_end rest k)
  where
    at_end :
        (rest : Bytes)
        → Ends rest
        → digits_loop rest (n * 10 + (d - b'0')) true ≡ some (n * 10 + (d - b'0'))
    at_end [] k = refl
    at_end (c ∷ cs) k = rw k refl
digits-read (d ∷ d' ∷ ds) rest n seen (h, hs) e k =
    let digit : (leb b'0' d && leb d b'9') ≡ true = ground (arith, h) in
    rw digit (digits-read (d' ∷ ds) rest (n * 10 + (d - b'0')) true hs (λ x. cc) k)

unsigned :
    (ds rest : Bytes)
    → All IsDigit ds
    → ds ≢ []
    → signed (ds ++ rest) ≡ (digits_loop (ds ++ rest) 0 false >>= positive)
unfolding signed
unsigned [] rest h e = absurd (e refl)
unsigned (d ∷ ds) rest (h, _) e =
    let a : (d == b'-') ≡ false = ground (arith, h) in
    let b : (d == b'+') ≡ false = ground (arith, h) in rw (a, b) refl

pub strtol-print_nat :
    (n : ℕ) (rest : Bytes) → Ends rest → n < 2 ^ 63 → strtol (print_nat n ++ rest) ≡ some (pos n)
unfolding strtol positive
strtol-print_nat n rest k l =
    let h = print_nat-digits n in
    let e = print_nat-nonempty n in
    let small : ltb n (2 ^ 63) ≡ true = ground (arith, l) in
    ap signed (skip-digits (print_nat n) rest h e)
    ∙ unsigned (print_nat n) rest h e
    ∙ ap (λ (o : Option ℕ). o >>= positive)
        (digits-read (print_nat n) rest 0 false h e k ∙ ap some (read-print_nat n))
    ∙ rw small refl

pub to_int_small : (n : ℕ) → n < 2 ^ 31 → to_int (pos n) ≡ pos n
unfolding to_int word_int
to_int_small n l =
    let short : ltb n (2 ^ 31) ≡ true = ground (arith, l) in
    let whole : n % 2 ^ 32 ≡ n = omega (arith, l) in rw whole (rw short refl)
