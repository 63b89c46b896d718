-- ===== src/Common/Strings.antt =====
-- C strings: the bytes before the terminator, so that no byte of a model's string is zero.
use Prim.Native.Nat.{ℕ, zero, suc, ◌+◌, ◌-◌, ◌/◌, ◌%◌}
use Prim.Native.Char.{code}
use Prim.Native.String.{String}
use mathlib.Core.Path.{◌≡◌}
use mathlib.Core.Logic.{◌↔◌}
use mathlib.Core.Bool.{Bool, true, false, ◌&&◌}
use mathlib.Core.List.{List, [], ◌∷◌}
use native.Mathlib.Omega.{arith}
use linux_class.Common.Tests.{◌==◌, ltb, if◌then◌else◌}
use linux_class.Common.Lists.{take}

abbrev pub Bytes : Type 0
Bytes = List ℕ

-- The bytes of an ASCII literal.
abbrev pub codes : String → Bytes
codes String.[] = []
codes (String.◌∷◌ c s) = code c ∷ codes s

-- `strcmp(a, b) == 0`.
unfoldable pub str_eq : Bytes → Bytes → Bool
str_eq [] [] = true
str_eq (x ∷ xs) (y ∷ ys) = x == y && str_eq xs ys
str_eq _ _ = false

pub str_eq_iff : (a b : Bytes) → (str_eq a b ≡ true) ↔ (a ≡ b)
unfolding str_eq
str_eq_iff (x ∷ a) (y ∷ b) = ground (arith, str_eq_iff a b)
str_eq_iff _ _ = ground arith

-- `snprintf(out, size, "%s", s)` into a buffer of `size` bytes, the terminator included.
abbrev pub fit : ℕ → Bytes → Bytes
fit size s = take (size - 1) s

-- `%d` and `%zu` of a number that is not negative; the fuel is above the number.
unfoldable pub print_loop : ℕ → ℕ → Bytes → Bytes
print_loop zero n acc = acc
print_loop (suc fuel) n acc =
    let acc' = (b'0' + n % 10) ∷ acc in
    let rest = print_loop fuel (n / 10) acc' in if ltb n 10 then acc' else rest

unfoldable pub print_nat : ℕ → Bytes
unfolding print_loop
print_nat n = print_loop (suc n) n []
