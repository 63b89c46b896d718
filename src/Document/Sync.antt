-- ===== src/Document/Sync.antt =====
-- What a client that knows an older version may rely on.
use linux_class.Common.{
  ℕ, zero, suc, ◌+◌, ◌-◌, ◌≤◌, ◌<◌, ◌^◌, ◌≡◌, ◌⊎◌, inl, inr, refl, sym, ap, ◌∙◌, List, [], ◌∷◌,
  some, arith, length, length-drop, take, drop, take-append-drop, get_elem?, Bytes,
}
use linux_class.Common.Int.{pos}
use linux_class.Utf8.Char.{char_count-flatten}
use linux_class.Operation.{delete, noop, Operation}
use linux_class.Document.Transform.{transform_all}
use linux_class.Document.Transform.Target.{Deletes, delete-StillAims}
use linux_class.Document.{Doc, HistoryEntry, normalize_for_apply, transformed_op}
use linux_class.Document.History.{Inv, ops, transform_loop-drop}
use linux_class.Document.Replay.{replay, replay-append, IsReplay, chars_of, chars-ok}

-- The operations behind version `b`, and the characters of that version.
abbrev pub since : Doc → ℕ → List Operation
since doc b = drop (b - doc.history_start_version) (ops doc.history)

abbrev pub chars_at : (doc : Doc) → IsReplay doc → ℕ → List Bytes
chars_at doc w b = replay (take (b - doc.history_start_version) (ops doc.history)) w.start_chars

pub replay-since :
    (doc : Doc) (w : IsReplay doc) (b : ℕ)
    → replay (since doc b) (chars_at doc w b) ≡ chars_of doc w
replay-since doc w b =
    let n = b - doc.history_start_version in
    sym (replay-append (take n (ops doc.history)) (drop n (ops doc.history)) w.start_chars)
    ∙ ap (λ os. replay os w.start_chars) (take-append-drop n (ops doc.history))

-- A position that holds a character passes `normalize_for_apply`.
in_text : (cs : List Bytes) (p : ℕ) (c : Bytes) → get_elem? cs p ≡ some c → p < length cs
in_text [] p c e = cc
in_text (x ∷ cs) zero c e = omega arith
in_text (x ∷ cs) (suc p) c e = omega (arith, in_text cs p c e)

normalize_delete :
    (doc : Doc) (w : IsReplay doc) (op : Operation) (c : Bytes)
    → op.kind ≡ delete
    → get_elem? (chars_of doc w) op.pos ≡ some c
    → normalize_for_apply doc op ≡ op
unfolding normalize_for_apply
normalize_delete doc w op c e g = ground (
  arith,
  w.text_is,
  char_count-flatten (chars_of doc w) (chars-ok doc w),
  in_text (chars_of doc w) op.pos c g,
)

normalize_noop : (doc : Doc) (op : Operation) → op.kind ≡ noop → normalize_for_apply doc op ≡ op
unfolding normalize_for_apply
normalize_noop doc op e = ground arith

pub length-ops : (hs : List HistoryEntry) → length (ops hs) ≡ length hs
length-ops [] = refl
length-ops (h ∷ hs) = ap suc (length-ops hs)

length-since : (doc : Doc) (b : ℕ) → length (since doc b) ≤ length doc.history
length-since doc b =
    omega
      (arith, length-drop (b - doc.history_start_version) (ops doc.history), length-ops doc.history)

-- A deletion of the character `c` of a supported version `b` is committed as a deletion of `c` from
-- the current text, or as a no-op, and then an operation since `b` has deleted it.
pub transformed_op-StillAims :
    (doc : Doc) (w : IsReplay doc) (b : ℕ) (op : Operation) (c : Bytes)
    → Inv doc
    → doc.history_start_version ≤ b
    → op.kind ≡ delete
    → get_elem? (chars_at doc w b) op.pos ≡ some c
    → op.pos + doc.history_limit + 1 < 2 ^ 64
    → (((transformed_op doc (pos b) op).kind ≡ delete)
        × (get_elem? (chars_of doc w) (transformed_op doc (pos b) op).pos ≡ some c))
      ⊎ (((transformed_op doc (pos b) op).kind ≡ noop)
          × Deletes (λ x. x) c (since doc b) (chars_at doc w b))
unfolding transformed_op
transformed_op-StillAims doc w b op c v s e g l =
    rw (transform_loop-drop doc.history doc.history_start_version b op v.numbered s)
      (elim (delete-StillAims (λ x. x) c (since doc b) op (chars_at doc w b) e g
        (omega (arith, length-since doc b, v.bounded))) [
          | inl (k, h) ↦
              let h' = rw (replay-since doc w b) at h in
              rw (normalize_delete doc w (transform_all op (since doc b)) c k h') (inl (k, h'))
          | inr (k, d) ↦ rw (normalize_noop doc (transform_all op (since doc b)) k) (inr (k, d))
        ])
