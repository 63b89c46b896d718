-- ===== src/Server/Fresh.antt =====
-- The loop of `choose_client_id` finds a free identifier.
use linux_class.Common.{
  ℕ, zero, suc, ◌+◌, ◌≤◌, ◌<◌, ◌≡◌, ◌≢◌, refl, false, List, [], ◌∷◌, none, some, arith, length,
  cons_inj, Bytes, str_eq_iff, if◌then◌else◌,
}
use linux_class.Common.Decimal.{print_nat-injective}
use linux_class.Server.{Connection, client_id_exists, numbered_id, number_loop}

-- How many of the `k` identifiers from number `n` on are taken.
taken : List Connection → ℕ → ℕ → ℕ
taken cs n zero = 0
taken cs n (suc k) = (if client_id_exists cs (numbered_id n) then 1 else 0) + taken cs (suc n) k

numbered_id-injective : (a b : ℕ) → numbered_id a ≡ numbered_id b → a ≡ b
unfolding numbered_id
numbered_id-injective a b e = print_nat-injective a b (cons_inj e).1

-- A client takes at most one of them.
not_taken :
    (c : Connection) (m n k : ℕ) → c.client_id ≡ numbered_id m → m < n → taken (c ∷ []) n k ≡ 0
unfolding taken client_id_exists
not_taken c m n zero e l = refl
not_taken c m n (suc k) e l = ground (
  arith,
  not_taken c m (suc n) k e,
  str_eq_iff c.client_id (numbered_id n),
  numbered_id-injective m n,
)

taken_once : (c : Connection) (n k : ℕ) → taken (c ∷ []) n k ≤ 1
unfolding taken client_id_exists
taken_once c n zero = omega arith
taken_once c n (suc k) =
    ground (
      arith,
      taken_once c (suc n) k,
      not_taken c n (suc n) k,
      str_eq_iff c.client_id (numbered_id n),
    )

taken-cons :
    (c : Connection) (cs : List Connection) (n k : ℕ)
    → taken (c ∷ cs) n k ≤ taken (c ∷ []) n k + taken cs n k
unfolding taken client_id_exists
taken-cons c cs n zero = omega arith
taken-cons c cs n (suc k) = ground (arith, taken-cons c cs (suc n) k)

taken-nil : (n k : ℕ) → taken [] n k ≡ 0
unfolding taken client_id_exists
taken-nil n zero = refl
taken-nil n (suc k) = omega (arith, taken-nil (suc n) k)

taken-le-length : (cs : List Connection) (n k : ℕ) → taken cs n k ≤ length cs
taken-le-length [] n k = omega (arith, taken-nil n k)
taken-le-length (c ∷ cs) n k =
    omega (arith, taken-cons c cs n k, taken_once c n k, taken-le-length cs n k)

-- When the loop finds none, every identifier that it tried is taken.
all_taken :
    (fuel : ℕ) (cs : List Connection) (n : ℕ)
    → number_loop fuel cs n ≡ none
    → taken cs n fuel ≡ fuel
unfolding number_loop taken
all_taken zero cs n e = refl
all_taken (suc fuel) cs n e = ground (arith, all_taken fuel cs (suc n))

pub number_loop_ends : (cs : List Connection) (n : ℕ) → number_loop (length cs + 1) cs n ≢ none
number_loop_ends cs n e =
    absurd (omega (arith, all_taken (length cs + 1) cs n e, taken-le-length cs n (length cs + 1)))

pub number_loop_free :
    (fuel : ℕ) (cs : List Connection) (n : ℕ) (id : Bytes) (next : ℕ)
    → number_loop fuel cs n ≡ some (id, next)
    → (client_id_exists cs id ≡ false) × (n < next)
unfolding number_loop
number_loop_free zero cs n id next e = cc
number_loop_free (suc fuel) cs n id next e =
    ground (arith, number_loop_free fuel cs (suc n) id next)
