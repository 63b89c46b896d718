-- ===== src/Document/Replay.antt =====
-- The text of document.c as the replay of its history.
use mathlib.Core.List.{map-append}
use linux_class.Common.{
  ℕ, ◌+◌, Bool, true, false, ◌≡◌, inl, inr, refl, sym, subst, List, [], ◌∷◌, ◌++◌, some, arith, All,
  flatten, Bytes, if◌then◌else◌,
}
use linux_class.Common.Int.{ℤ, pos, ltb_ℤ}
use linux_class.Utf8.Char.{IsChar, AllChars}
use linux_class.Operation.{insert, Operation}
use linux_class.Operation.Apply.{AllChars-edit}
use linux_class.Document.Transform.{transform_against}
use linux_class.Document.Transform.Target.{edit_as, replay_as}
use linux_class.Document.{
  HistoryEntry, Doc, document_init, trim_history, append_history, transform_loop,
  normalize_for_apply, transformed_op,
}
use linux_class.Document.History.{Inv, trim-Numbered, ops}

-- An insertion carries one encoded character.
abbrev pub ValidOp : Operation → Type 0
ValidOp op = op.kind ≡ insert → IsChar op.ch

abbrev pub run_edit : Operation → List Bytes → List Bytes
run_edit = edit_as (λ c. c)

abbrev pub replay : List Operation → List Bytes → List Bytes
replay = replay_as (λ c. c)

pub record IsReplay (doc : Doc) : Type 0 where
  pub start_chars : List Bytes
  pub start_ok : AllChars start_chars
  pub ops_ok : All ValidOp (ops doc.history)
  pub text_is : doc.text ≡ flatten (replay (ops doc.history) start_chars)

pub replay-append :
    (xs ys : List Operation) (cs : List Bytes) → replay (xs ++ ys) cs ≡ replay ys (replay xs cs)
replay-append [] ys cs = refl
replay-append (x ∷ xs) ys cs = replay-append xs ys (run_edit x cs)

pub replay-AllChars :
    (xs : List Operation) (cs : List Bytes) → All ValidOp xs → AllChars cs → AllChars (replay xs cs)
replay-AllChars [] cs v h = h
replay-AllChars (x ∷ xs) cs (p, v) h =
    replay-AllChars xs (run_edit x cs) v (AllChars-edit cs x.kind x.pos x.ch h p)

-- Transforming keeps an insertion's character.
transform-keeps :
    (op previous : Operation)
    → (transform_against op previous).kind ≡ insert
    → (op.kind ≡ insert) × ((transform_against op previous).ch ≡ op.ch)
unfolding transform_against
transform-keeps op previous e = ground arith

transform-ValidOp : (op previous : Operation) → ValidOp op → ValidOp (transform_against op previous)
transform-ValidOp op previous v e =
    let (k, c) = transform-keeps op previous e in subst IsChar (sym c) (v k)

loop-ValidOp :
    (hs : List HistoryEntry) (base : ℤ) (op : Operation)
    → ValidOp op
    → ValidOp (transform_loop base op hs)
unfolding transform_loop
loop-ValidOp [] base op v = v
loop-ValidOp (h ∷ hs) base op v = loop-ValidOp hs base _ (taken (ltb_ℤ base (pos h.server_version)))
  where
    taken : (b : Bool) → ValidOp (if b then transform_against op h.op else op)
    taken true = transform-ValidOp op h.op v
    taken false = v

normalize-keeps :
    (doc : Doc) (op : Operation)
    → (normalize_for_apply doc op).kind ≡ insert
    → (op.kind ≡ insert) × ((normalize_for_apply doc op).ch ≡ op.ch)
unfolding normalize_for_apply
normalize-keeps doc op e = ground arith

pub transformed_op-ValidOp :
    (doc : Doc) (base : ℤ) (op : Operation) → ValidOp op → ValidOp (transformed_op doc base op)
unfolding transformed_op
transformed_op-ValidOp doc base op v e =
    let folded = transform_loop base op doc.history in
    let (k, c) = normalize-keeps doc folded e in
    subst IsChar (sym c) (loop-ValidOp doc.history base op v k)

-- One more entry, with or without the oldest one.
extended :
    (kept : List HistoryEntry) (entry : HistoryEntry) (cs : List Bytes)
    → replay (ops (kept ++ entry ∷ [])) cs ≡ run_edit entry.op (replay (ops kept) cs)
extended kept entry cs =
    rw (map-append (λ (h : HistoryEntry). h.op) kept (entry ∷ []))
      (replay-append (ops kept) (entry.op ∷ []) cs)

extended-ok :
    (kept : List HistoryEntry) (entry : HistoryEntry)
    → All ValidOp (ops kept)
    → ValidOp entry.op
    → All ValidOp (ops (kept ++ entry ∷ []))
extended-ok [] entry v w = (w, tt)
extended-ok (h ∷ kept) entry (p, v) w = (p, extended-ok kept entry v w)

-- The document behind a commit, from the entries that were kept.
append_kept :
    (doc : Doc) (text : Bytes) (entry : HistoryEntry) (kept : List HistoryEntry) (cs : List Bytes)
    → trim_history doc.history_limit doc.history ≡ kept
    → AllChars cs
    → All ValidOp (ops kept)
    → ValidOp entry.op
    → text ≡ flatten (run_edit entry.op (replay (ops kept) cs))
    → IsReplay (append_history (record doc { text = text; version = doc.version + 1 }) entry)
unfolding append_history
append_kept doc text entry kept cs t a v w e = rw t (record {
  start_chars = cs;
  start_ok = a;
  ops_ok = extended-ok kept entry v w;
  text_is = rw (extended kept entry cs) e;
})

pub append-IsReplay :
    (doc : Doc) (text : Bytes) (entry : HistoryEntry) (v : Inv doc) (w : IsReplay doc)
    → ValidOp entry.op
    → text ≡ flatten (run_edit entry.op (replay (ops doc.history) w.start_chars))
    → IsReplay (append_history (record doc { text = text; version = doc.version + 1 }) entry)
append-IsReplay doc text entry v w p e =
    elim (trim-Numbered doc.history_limit doc.history_start_version doc.history v.limit_pos
      v.bounded v.numbered) [
        | inl (t, _) ↦
            append_kept doc text entry doc.history w.start_chars t w.start_ok w.ops_ok p e
        | inr (h, rest, s, t, _) ↦
            let valid = subst (λ hs. All ValidOp (ops hs)) s w.ops_ok in
            append_kept doc text entry rest (run_edit h.op w.start_chars) t
              (AllChars-edit w.start_chars h.op.kind h.op.pos h.op.ch w.start_ok valid.0) valid.1 p
              (subst (λ hs. text ≡ flatten (run_edit entry.op (replay (ops hs) w.start_chars))) s e)
      ]

-- The characters of the current text.
abbrev pub chars_of : (doc : Doc) → IsReplay doc → List Bytes
chars_of doc w = replay (ops doc.history) w.start_chars

pub chars-ok : (doc : Doc) (w : IsReplay doc) → AllChars (chars_of doc w)
chars-ok doc w = replay-AllChars (ops doc.history) w.start_chars w.ops_ok w.start_ok

pub document_init-IsReplay :
    (cs : List Bytes) (limit : ℕ) → AllChars cs → IsReplay (document_init (some (flatten cs)) limit)
unfolding document_init
document_init-IsReplay cs limit h = record {
  start_chars = cs;
  start_ok = h;
  ops_ok = tt;
  text_is = refl;
}
