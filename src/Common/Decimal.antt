-- ===== src/Common/Decimal.antt =====
-- Decimal numbers are read back.
use Prim.Native.Nat.{ℕ, zero, suc, ◌+◌, ◌-◌, ◌*◌, ◌/◌, ◌%◌, ◌<◌, ◌≤◌}
use mathlib.Core.Path.{◌≡◌, sym, ap, ◌∙◌}
use mathlib.Core.Logic.{◌≢◌, inl, inr}
use mathlib.Core.Bool.{false}
use mathlib.Core.List.{[], ◌∷◌}
use native.Mathlib.Omega.{arith}
use linux_class.Common.Tests.{ltb, Bool-cases}
use linux_class.Common.Lists.{All, length}
use linux_class.Common.Strings.{Bytes, print_loop, print_nat}

-- The number that a run of digits adds to `n`.
unfoldable pub read_digits : Bytes → ℕ → ℕ
read_digits [] n = n
read_digits (c ∷ cs) n = read_digits cs (n * 10 + (c - b'0'))

read-print_loop :
    (fuel n : ℕ) (acc : Bytes)
    → n < fuel
    → read_digits (print_loop fuel n acc) 0 ≡ read_digits acc n
unfolding print_loop read_digits
read-print_loop zero n acc h = elim h [ ]
read-print_loop (suc fuel) n acc h = elim (Bool-cases (ltb n 10)) [
  | inl last ↦ rw last (ap (read_digits acc) (ground arith))
  | inr more ↦ rw more (
      read-print_loop fuel (n / 10) ((b'0' + n % 10) ∷ acc) (ground arith)
      ∙ ap (read_digits acc) (omega arith))
]

pub print_nat-injective : (a b : ℕ) → print_nat a ≡ print_nat b → a ≡ b
unfolding print_nat read_digits
print_nat-injective a b e =
    sym (read-print_loop (suc a) a [] (omega arith))
    ∙ ap (λ s. read_digits s 0) e
    ∙ read-print_loop (suc b) b [] (omega arith)

pub read-print_nat : (n : ℕ) → read_digits (print_nat n) 0 ≡ n
unfolding print_nat read_digits
read-print_nat n = read-print_loop (suc n) n [] (omega arith)

abbrev pub IsDigit : ℕ → Type 0
IsDigit c = (b'0' ≤ c) × (c ≤ b'9')

print_loop-digits :
    (fuel n : ℕ) (acc : Bytes) → All IsDigit acc → All IsDigit (print_loop fuel n acc)
unfolding print_loop
print_loop-digits zero n acc h = h
print_loop-digits (suc fuel) n acc h = elim (Bool-cases (ltb n 10)) [
  | inl last ↦ rw last (omega arith, h)
  | inr more ↦ rw more (print_loop-digits fuel (n / 10) ((b'0' + n % 10) ∷ acc) (omega arith, h))
]

pub print_nat-digits : (n : ℕ) → All IsDigit (print_nat n)
unfolding print_nat
print_nat-digits n = print_loop-digits (suc n) n [] tt

-- The powers of ten.
abbrev pub tens : ℕ → ℕ
tens zero = 1
tens (suc k) = 10 * tens k

print_loop-length :
    (k fuel n : ℕ) (acc : Bytes)
    → 0 < k
    → n < tens k
    → length (print_loop fuel n acc) ≤ length acc + k
unfolding print_loop
print_loop-length zero fuel n acc p h = elim p [ ]
print_loop-length (suc k) zero n acc p h = omega arith
print_loop-length (suc k) (suc fuel) n acc p h = elim (Bool-cases (ltb n 10)) [
  | inl last ↦ rw last (omega arith)
  | inr more ↦ rw more (
      omega (
        arith,
        several k more h,
        print_loop-length k fuel (n / 10) ((b'0' + n % 10) ∷ acc) (several k more h).0
            (several k more h).1,
      ))
]
  where
    several : (k : ℕ) → ltb n 10 ≡ false → n < 10 * tens k → (0 < k) × (n / 10 < tens k)
    several zero e l = absurd (ground (arith, e, l))
    several (suc k) e l = (omega arith, omega (arith, l))

pub print_nat-length : (k n : ℕ) → 0 < k → n < tens k → length (print_nat n) ≤ k
unfolding print_nat
print_nat-length k n p h = omega (arith, print_loop-length k (suc n) n [] p h)

print_loop-long : (fuel n : ℕ) (acc : Bytes) → length acc < length (print_loop (suc fuel) n acc)
unfolding print_loop
print_loop-long fuel n acc = elim (Bool-cases (ltb n 10)) [
  | inl last ↦ rw last (omega arith)
  | inr more ↦ rw more (grows fuel (n / 10) ((b'0' + n % 10) ∷ acc) (omega arith))
]
  where
    grows :
        (fuel m : ℕ) (xs : Bytes)
        → length acc < length xs
        → length acc < length (print_loop fuel m xs)
    grows zero m xs l = l
    grows (suc fuel) m xs l = elim (Bool-cases (ltb m 10)) [
      | inl last ↦ rw last (omega (arith, l))
      | inr more ↦ rw more (grows fuel (m / 10) ((b'0' + m % 10) ∷ xs) (omega (arith, l)))
    ]

pub print_nat-nonempty : (n : ℕ) → print_nat n ≢ []
unfolding print_nat
print_nat-nonempty n e = absurd (omega (arith, print_loop-long n n [], ap length e))
