-- ===== src/Protocol/Transport/Chunks.antt =====
-- However the stream is cut into chunks, its next line is received.
use mathlib.Core.List.{append_assoc}
use linux_class.Common.{
  ◌≤◌, ◌<◌, ◌≡◌, ◌≢◌, ◌⊎◌, inl, inr, refl, sym, ap, ◌∙◌, List, [], ◌∷◌, ◌++◌, none, some, arith,
  All, cons_inj, codes, length, Bytes, false, leb, if◌then◌else◌,
}
use linux_class.Protocol.Decode.{decode_message}
use linux_class.Protocol.Transport.{
  max_line_bytes, Read, chunk, interrupted, failed, Received, received, broken, split_line,
  c_string, recv_step, recv,
}

-- The bytes of a stream; interruptions carry none.
abbrev pub stream : List Read → Bytes
stream [] = []
stream (chunk c ∷ rs) = c ++ stream rs
stream (interrupted ∷ rs) = stream rs
stream (failed _ ∷ rs) = []

-- Reads that deliver bytes or are interrupted.
abbrev pub Delivers : Read → Type 0
Delivers (chunk c) = c ≢ []
Delivers interrupted = Unit
Delivers (failed _) = ⊥

abbrev pub NoNewline : Bytes → Type 0
NoNewline = All (λ c. c ≢ b'\n')

-- The next line of a stream.
split_line-found :
    (line rest : Bytes) → NoNewline line → split_line (line ++ b'\n' ∷ rest) ≡ some (line, rest)
unfolding split_line
split_line-found [] rest h = refl
split_line-found (c ∷ line) rest (p, h) = ground (arith, split_line-found line rest h)

split_line-none : (text : Bytes) → NoNewline text → split_line text ≡ none
unfolding split_line
split_line-none [] h = refl
split_line-none (c ∷ text) (p, h) = ground (arith, split_line-none text h)

nonempty : (line rest : Bytes) → line ++ b'\n' ∷ rest ≢ []
nonempty [] rest e = cc
nonempty (c ∷ line) rest e = cc

-- The buffer holds the line already, or only a beginning of it.
cut :
    (buffer later line rest : Bytes)
    → buffer ++ later ≡ line ++ b'\n' ∷ rest
    → NoNewline line
    → ((behind : Bytes) × (buffer ≡ line ++ b'\n' ∷ behind) × (behind ++ later ≡ rest))
      ⊎ (NoNewline buffer × (length buffer ≤ length line) × (later ≢ []))
cut [] later line rest e h = inr (tt, omega arith, λ n. nonempty line rest (sym e ∙ n))
cut (b ∷ buffer) later [] rest e h =
    let (first, others) = cons_inj e in inl (buffer, ap (λ x. x ∷ buffer) first, others)
cut (b ∷ buffer) later (c ∷ line) rest e (p, h) =
    let (first, others) = cons_inj e in
    elim (cut buffer later line rest others h) [
      | inl (behind, f, g) ↦ inl (behind, cc, g)
      | inr (n, l, m) ↦ inr ((λ q. p (sym first ∙ q), n), omega arith, m)
    ]

-- A line was received, and the rest of the stream is still to come.
abbrev pub Receives : Bytes → Bytes → Received → Type 0
Receives line rest r =
    (buffer : Bytes) × (reads : List Read) × (r
      ≡ received (decode_message (c_string line)) buffer reads)
    × (buffer ++ stream reads ≡ rest)
    × All Delivers reads

step-Receives :
    (buffer : Bytes) (reads : List Read) (more : Received) (line rest : Bytes)
    → All Delivers reads
    → NoNewline line
    → length line < max_line_bytes
    → buffer ++ stream reads ≡ line ++ b'\n' ∷ rest
    → (stream reads ≢ [] → Receives line rest more)
    → Receives line rest (recv_step buffer reads more)
unfolding recv_step
step-Receives buffer reads more line rest d n l e k =
    elim (cut buffer (stream reads) line rest e n) [
      | inl (behind, f, g) ↦
          rw (f, split_line-found line behind n, recv_step) (behind, reads, refl, g, d)
      | inr (none_yet, short, more_left) ↦
          rw (split_line-none buffer none_yet, recv_step) (ifs (k more_left) short)
    ]
  where
    ifs :
        Receives line rest more
        → length buffer ≤ length line
        → Receives line rest (
            if leb max_line_bytes (length buffer)
            then broken (codes "protocol message exceeds maximum line length")
            else more)
    ifs r short = let room : leb max_line_bytes (length buffer) ≡ false = ground arith in rw room r

-- A line of the stream that is shorter than the limit is received whole, and decoded, however the
-- stream is cut into chunks and whatever calls are interrupted; what follows it stays for
-- the next call, in the buffer or in the stream.
pub recv-Receives :
    (reads : List Read) (buffer line rest : Bytes)
    → All Delivers reads
    → NoNewline line
    → length line < max_line_bytes
    → buffer ++ stream reads ≡ line ++ b'\n' ∷ rest
    → Receives line rest (recv buffer reads)
unfolding recv
recv-Receives [] buffer line rest d n l e =
    step-Receives buffer [] _ line rest d n l e (λ m. absurd (m refl))
recv-Receives (chunk [] ∷ reads) buffer line rest (p, d) n l e = absurd (p refl)
recv-Receives (chunk (c ∷ cs) ∷ reads) buffer line rest (p, d) n l e =
    step-Receives buffer (chunk (c ∷ cs) ∷ reads) _ line rest (p, d) n l e
      (λ _.
        recv-Receives reads (buffer ++ c ∷ cs) line rest d n l
          (append_assoc buffer (c ∷ cs) (stream reads) ∙ e))
recv-Receives (interrupted ∷ reads) buffer line rest (p, d) n l e =
    step-Receives buffer (interrupted ∷ reads) _ line rest (p, d) n l e
      (λ _. recv-Receives reads buffer line rest d n l e)
recv-Receives (failed text ∷ reads) buffer line rest (p, d) n l e = absurd p
