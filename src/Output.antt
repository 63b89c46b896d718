-- ===== src/Output.antt =====
-- util.c: `ts_write_all_fd`, over the results of `write`.
use mathlib.Core.List.{append_assoc, append-nil}
use linux_class.Common.{
  ℕ, zero, suc, ◌+◌, ◌≤◌, ◌≡◌, refl, sym, ap, ◌∙◌, false, List, [], ◌∷◌, ◌++◌, arith, Bytes, length,
  take, drop, ◌==◌, if◌then◌else◌, take-append-drop, length-drop,
}

-- `write` takes some of the bytes, is interrupted, or fails.
pub data Written : Type 0 where
  wrote : ℕ → Written
  interrupted : Written
  error : Written

-- 0, -1, or still in the loop when the results end.
pub data Outcome : Type 0 where
  done : Outcome
  failed : Outcome
  writing : Outcome

-- `out` is what the descriptor has taken.
unfoldable pub write_all : List Written → Bytes → Bytes → Outcome × Bytes
write_all rs [] out = (done, out)
write_all [] (c ∷ bytes) out = (writing, out)
write_all (wrote n ∷ rs) (c ∷ bytes) out =
    let more = write_all rs (drop n (c ∷ bytes)) (out ++ take n (c ∷ bytes)) in
    if n == 0 then (failed, out) else more
write_all (interrupted ∷ rs) (c ∷ bytes) out = write_all rs (c ∷ bytes) out
write_all (error ∷ rs) (c ∷ bytes) out = (failed, out)

-- What the results have room for, until one of them is an error or takes nothing.
abbrev pub taken : List Written → ℕ
taken [] = 0
taken (wrote zero ∷ rs) = 0
taken (wrote (suc n) ∷ rs) = suc n + taken rs
taken (interrupted ∷ rs) = taken rs
taken (error ∷ rs) = 0

pub record Sends (bytes out : Bytes) (rs : List Written) (r : Outcome × Bytes) : Type 0 where
  pub some_bytes : (k : ℕ) × (r.1 ≡ out ++ take k bytes)
  pub whole : r.0 ≡ done → r.1 ≡ out ++ bytes
  pub enough : length bytes ≤ taken rs → r.0 ≡ done

take-nil : (k : ℕ) → take {A = ℕ} k [] ≡ []
take-nil zero = refl
take-nil (suc k) = refl

take-take : (n k : ℕ) (bytes : Bytes) → take n bytes ++ take k (drop n bytes) ≡ take (n + k) bytes
take-take zero k bytes = ap (λ i. take i bytes) (omega arith)
take-take (suc n) k [] = take-nil k ∙ sym (take-nil (suc n + k))
take-take (suc n) k (c ∷ bytes) =
    let longer : suc (n + k) ≡ suc n + k = omega arith in
    ap (◌∷◌ c) (take-take n k bytes) ∙ ap (λ i. take i (c ∷ bytes)) longer

-- The rest is written behind what was taken.
more-Sends :
    (n : ℕ) (bytes out : Bytes) (rs : List Written) (r : Outcome × Bytes)
    → Sends (drop (suc n) bytes) (out ++ take (suc n) bytes) rs r
    → Sends bytes out (wrote (suc n) ∷ rs) r
more-Sends n bytes out rs r h =
    let (k, e) = h.some_bytes in
    let behind : (rest : Bytes)
        → (out ++ take (suc n) bytes) ++ rest ≡ out ++ (take (suc n) bytes ++ rest) =
      λ rest. append_assoc out (take (suc n) bytes) rest in
    record {
      some_bytes = (
        suc n + k,
        e ∙ behind (take k (drop (suc n) bytes)) ∙ ap (λ x. out ++ x) (take-take (suc n) k bytes),
      );
      whole = λ d.
          h.whole d
          ∙ behind (drop (suc n) bytes)
          ∙ ap (λ x. out ++ x) (take-append-drop (suc n) bytes);
      enough = λ l. h.enough (omega (arith, l, length-drop (suc n) bytes));
    }

-- Whatever `write` does, the descriptor gets the first of the bytes, in order. A return of 0 means that it got all. When
-- the results have room for as many bytes, whatever interruptions there are, the call returns 0.
pub write_all-Sends :
    (rs : List Written) (bytes out : Bytes) → Sends bytes out rs (write_all rs bytes out)
unfolding write_all
write_all-Sends rs [] out = record {
  some_bytes = (0, sym (append-nil out));
  whole = λ d. sym (append-nil out);
  enough = λ l. refl;
}
write_all-Sends [] (c ∷ bytes) out = record {
  some_bytes = (0, sym (append-nil out));
  whole = λ d. cc;
  enough = λ l. absurd (omega (arith, l));
}
write_all-Sends (wrote zero ∷ rs) (c ∷ bytes) out = record {
  some_bytes = (0, sym (append-nil out));
  whole = λ d. cc;
  enough = λ l. absurd (omega (arith, l));
}
write_all-Sends (wrote (suc n) ∷ rs) (c ∷ bytes) out =
    let goes_on : (suc n == 0) ≡ false = ground arith in
    rw goes_on (
      more-Sends n (c ∷ bytes) out rs _
        (write_all-Sends rs (drop (suc n) (c ∷ bytes)) (out ++ take (suc n) (c ∷ bytes))))
write_all-Sends (interrupted ∷ rs) (c ∷ bytes) out =
    let h = write_all-Sends rs (c ∷ bytes) out in
    record { some_bytes = h.some_bytes; whole = h.whole; enough = h.enough }
write_all-Sends (error ∷ rs) (c ∷ bytes) out = record {
  some_bytes = (0, sym (append-nil out));
  whole = λ d. cc;
  enough = λ l. absurd (omega (arith, l));
}
