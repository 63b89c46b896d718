-- ===== src/Autosave/Pipe/Scan.antt =====
-- What `sscanf` makes of a header.
use mathlib.Core.List.{append-nil}
use linux_class.Common.{
  ℕ, ◌+◌, ◌-◌, ◌*◌, ◌≡◌, ◌≢◌, refl, sym, ap, ◌∙◌, true, false, Bool, ◌&&◌, [], ◌∷◌, ◌++◌, some,
  ◌>>=◌, arith, All, Bytes, print_nat, leb, ◌==◌,
}
use linux_class.Common.Int.{pos}
use linux_class.Common.Decimal.{
  read_digits, read-print_nat, IsDigit, print_nat-digits, print_nat-nonempty,
}
use linux_class.Protocol.Find.{is_space, skip_ws}
use linux_class.Autosave.Pipe.{scan_digits, scan_signed, scan_size, scan_numbers}

-- The text goes on with something that is no digit.
abbrev pub Ends : Bytes → Type 0
Ends [] = Unit
Ends (c ∷ cs) = (leb b'0' c && leb c b'9') ≡ false

scan_end : (rest : Bytes) (n : ℕ) → Ends rest → scan_digits rest n true ≡ some (n, rest)
unfolding scan_digits
scan_end [] n h = refl
scan_end (c ∷ cs) n h = rw h refl

scan-digits :
    (ds rest : Bytes) (n : ℕ) (seen : Bool)
    → All IsDigit ds
    → ds ≢ []
    → Ends rest
    → scan_digits (ds ++ rest) n seen ≡ some (read_digits ds n, rest)
unfolding scan_digits read_digits
scan-digits [] rest n seen h e k = absurd (e refl)
scan-digits (d ∷ []) rest n seen (h, _) e k =
    let digit : (leb b'0' d && leb d b'9') ≡ true = ground (arith, h) in
    rw digit (scan_end rest (n * 10 + (d - b'0')) k)
scan-digits (d ∷ d' ∷ ds) rest n seen (h, hs) e k =
    let digit : (leb b'0' d && leb d b'9') ≡ true = ground (arith, h) in
    rw digit (scan-digits (d' ∷ ds) rest (n * 10 + (d - b'0')) true hs (λ x. cc) k)

pub scan-print_nat :
    (n : ℕ) (rest : Bytes) → Ends rest → scan_digits (print_nat n ++ rest) 0 false ≡ some (n, rest)
scan-print_nat n rest h =
    scan-digits (print_nat n) rest 0 false (print_nat-digits n) (print_nat-nonempty n) h
    ∙ ap (λ k. some (k, rest)) (read-print_nat n)

-- Digits are no white space and no sign.
pub skip-digits : (ds rest : Bytes) → All IsDigit ds → ds ≢ [] → skip_ws (ds ++ rest) ≡ ds ++ rest
unfolding skip_ws is_space
skip-digits [] rest h e = absurd (e refl)
skip-digits (d ∷ ds) rest (h, _) e = ground (arith, h)

signed-digits :
    (ds rest : Bytes)
    → All IsDigit ds
    → ds ≢ []
    → scan_signed (ds ++ rest)
      ≡ (scan_digits (ds ++ rest) 0 false >>= λ (p : ℕ × Bytes). some (pos p.0, p.1))
unfolding scan_signed
signed-digits [] rest h e = absurd (e refl)
signed-digits (d ∷ ds) rest (h, _) e =
    let a : (d == b'-') ≡ false = ground (arith, h) in
    let b : (d == b'+') ≡ false = ground (arith, h) in rw (a, b) refl

skip_blank : (text : Bytes) → skip_ws (b' ' ∷ text) ≡ skip_ws text
unfolding skip_ws is_space
skip_blank text = refl

-- The two numbers behind the name.
pub scan_numbers-header :
    (event : Bytes) (version len : ℕ)
    → scan_numbers event (b' ' ∷ (print_nat version ++ (b' ' ∷ print_nat len)))
      ≡ some (event, pos version, len)
unfolding scan_numbers scan_size
scan_numbers-header event version len =
    let tail = b' ' ∷ print_nat len in
    let last : scan_digits (print_nat len) 0 false ≡ some (len, []) =
      ap (λ t. scan_digits t 0 false) (sym (append-nil (print_nat len)))
      ∙ scan-print_nat len [] tt in
    let skip_len : skip_ws tail ≡ print_nat len =
      skip_blank (print_nat len)
      ∙ ap skip_ws (sym (append-nil (print_nat len)))
      ∙ skip-digits (print_nat len) [] (print_nat-digits len) (print_nat-nonempty len)
      ∙ append-nil (print_nat len) in
    rw
      (
        skip_blank (print_nat version ++ tail),
        skip-digits (print_nat version) tail (print_nat-digits version)
            (print_nat-nonempty version),
        signed-digits (print_nat version) tail (print_nat-digits version)
            (print_nat-nonempty version),
        scan-print_nat version tail refl,
        skip_len,
        last,
      )
      refl
