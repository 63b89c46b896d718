-- ===== src/Server/Dispatch/Extend.antt =====
-- A history of texts with one more operation.
use linux_class.Common.{
  ℕ, suc, ◌≤◌, ◌<◌, ◌≡◌, refl, true, false, [], some, arith, Bytes, ltb, leb, ◌==◌, if◌then◌else◌,
  ℕ_discrete, dec_lt,
}
use linux_class.Operation.{noop, Operation, apply_operation}
use linux_class.ClientState.Mirror.{Timeline}

abbrev pub still : Operation
still = record { kind = noop; pos = 0; ch = []; reason = [] }

pub still-keeps : (text : Bytes) → apply_operation text still ≡ some text
unfolding apply_operation
still-keeps text = refl

module _ (T : Timeline) (n : ℕ) (op : Operation) (text : Bytes) where
  pub texts_to : ℕ → Bytes
  texts_to w = if leb w n then T.texts w else text

  pub log_to : ℕ → Operation
  log_to w = if ltb w n then T.log w else if w == n then op else still

  pub next_to :
      apply_operation (T.texts n) op ≡ some text
      → (w : ℕ) → apply_operation (texts_to w) (log_to w) ≡ some (texts_to (suc w))
  unfolding texts_to log_to
  next_to e w = elim (dec_lt w n) [
    | yes l ↦
        let a : leb w n ≡ true = ground (arith, l) in
        let b : leb (suc w) n ≡ true = ground (arith, l) in
        let c : ltb w n ≡ true = ground (arith, l) in rw (a, b, c) (T.next w)
    | no l ↦ elim (ℕ_discrete w n) [
      | yes same ↦
          let a : leb n n ≡ true = ground arith in
          let b : leb (suc n) n ≡ false = ground arith in
          let c : ltb n n ≡ false = ground arith in
          let d : (n == n) ≡ true = ground arith in rw same (rw (a, b, c, d) e)
      | no differ ↦
          let a : leb w n ≡ false = ground (arith, l, differ) in
          let b : leb (suc w) n ≡ false = ground (arith, l, differ) in
          let c : ltb w n ≡ false = ground (arith, l) in
          let d : (w == n) ≡ false = ground (arith, differ) in rw (a, b, c, d) (still-keeps text)
    ]
  ]

  -- The history with one more operation behind version `n`, and nothing after it.
  abbrev pub extend : apply_operation (T.texts n) op ≡ some text → Timeline
  extend e = record { texts = texts_to; log = log_to; next = next_to e }

  pub texts_to-old : (w : ℕ) → w ≤ n → texts_to w ≡ T.texts w
  unfolding texts_to
  texts_to-old w l = ground (arith, l)

  pub texts_to-new : texts_to (suc n) ≡ text
  unfolding texts_to
  texts_to-new = ground arith

  pub log_to-old : (w : ℕ) → w < n → log_to w ≡ T.log w
  unfolding log_to
  log_to-old w l = ground (arith, l)

  pub log_to-new : log_to n ≡ op
  unfolding log_to
  log_to-new = ground arith
