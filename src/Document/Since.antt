-- ===== src/Document/Since.antt =====
-- What happens to a document between two versions.
use mathlib.Core.List.{map-append, append-nil}
use linux_class.Common.{
  ℕ, zero, suc, ◌+◌, ◌-◌, ◌≤◌, ◌<◌, ◌≡◌, ◌⊎◌, inl, inr, refl, sym, ap, subst, ◌∙◌, List, [], ◌∷◌,
  ◌++◌, Option, some, some_inj, ◌>>=◌, >>=-eq-some, arith, Bytes, length, length-append, drop,
  drop_all, if◌then◌else◌,
}
use linux_class.Common.Int.{ℤ}
use linux_class.Operation.{Operation, apply_operation}
use linux_class.Document.{
  HistoryEntry, Doc, ProcessResult, append_history, new_entry, ok_result, transformed_op,
  trim_history, process_operation,
}
use linux_class.Document.History.{Inv, trim-Numbered, append-Inv, ops}
use linux_class.Document.Outcome.{Outcome, refused, committed, commit_cases, process_cases}
use linux_class.Document.Sync.{since, length-ops}

-- `ts_apply_operation_to_text`, operation by operation.
abbrev pub apply_all : Bytes → List Operation → Option Bytes
apply_all text [] = some text
apply_all text (o ∷ os) = apply_operation text o >>= λ t. apply_all t os

abbrev pub broadcast_of : ProcessResult → List Operation
broadcast_of r = if r.has_remote then r.remote.op ∷ [] else []

-- Calls of the document by any clients, with the operations that are broadcast.
pub data Calls (first : Doc) : List Operation → Doc → Type 0 where
  start : Calls first [] first
  next :
      (os : List Operation) (doc doc' : Doc) (client_id op_id : Bytes) (base : ℤ)
      (op : Option Operation) (r : ProcessResult)
      → Calls first os doc
      → process_operation doc client_id op_id base op ≡ some (doc', r)
      → Calls first (os ++ broadcast_of r) doc'

drop-append : (n : ℕ) (xs ys : List Operation) → n ≤ length xs → drop n (xs ++ ys) ≡ drop n xs ++ ys
drop-append zero xs ys h = refl
drop-append (suc n) [] ys h = absurd (omega arith)
drop-append (suc n) (x ∷ xs) ys h = drop-append n xs ys (omega arith)

-- A commit adds its operation to those since an older version that is still supported.
module _ (doc : Doc) (text : Bytes) (entry : HistoryEntry) (v : ℕ) (h : Inv doc)
    (numbered : entry.server_version ≡ doc.version + 1) (old : v ≤ doc.version) where
  abbrev added : Doc
  added = append_history (record doc { text = text; version = doc.version + 1 }) entry

  added-history :
      (kept : List HistoryEntry)
      → trim_history doc.history_limit doc.history ≡ kept
      → added.history ≡ kept ++ entry ∷ []
  unfolding append_history
  added-history kept e = rw e refl

  added-version : added.version ≡ doc.version + 1
  unfolding append_history
  added-version = refl

  added-start :
      (kept : List HistoryEntry)
      → added.history ≡ kept ++ entry ∷ []
      → added.history_start_version + length kept ≡ doc.version
  added-start kept e = omega (
    arith,
    (append-Inv doc text entry h numbered).current,
    added-version,
    ap length e,
    length-append kept (entry ∷ []),
  )

  since-kept :
      (kept : List HistoryEntry)
      → added.history ≡ kept ++ entry ∷ []
      → added.history_start_version ≤ v
      → since added v ≡ drop (v - added.history_start_version) (ops kept) ++ entry.op ∷ []
  since-kept kept e s =
      ap (λ hs. drop (v - added.history_start_version) (ops hs)) e
      ∙ ap (drop (v - added.history_start_version))
          (map-append (λ (x : HistoryEntry). x.op) kept (entry ∷ []))
      ∙ drop-append (v - added.history_start_version) (ops kept) (entry.op ∷ [])
          (omega (arith, old, s, added-start kept e, length-ops kept))

  since-added :
      added.history_start_version ≤ v
      → (doc.history_start_version ≤ v) × (since added v ≡ since doc v ++ entry.op ∷ [])
  since-added s =
      elim (trim-Numbered doc.history_limit doc.history_start_version doc.history h.limit_pos
        h.bounded h.numbered) [
          | inl (t, _) ↦
              let e = added-history doc.history t in
              let same : added.history_start_version ≡ doc.history_start_version =
                omega (arith, added-start doc.history e, h.current) in
              (
                omega (arith, same, s),
                since-kept doc.history e s
                    ∙ ap (λ n. drop (v - n) (ops doc.history) ++ entry.op ∷ []) same,
              )
          | inr (x, rest, split, t, _) ↦
              let e = added-history rest t in
              let later : added.history_start_version ≡ suc doc.history_start_version =
                omega (arith, added-start rest e, h.current, ap length split) in
              let gone : v - doc.history_start_version ≡ suc (v - added.history_start_version) =
                omega (arith, later, s) in
              (
                omega (arith, later, s),
                since-kept rest e s
                    ∙ sym (
                        ap (λ n. drop n (ops doc.history) ++ entry.op ∷ []) gone
                        ∙ ap
                            (λ hs.
                              drop (suc (v - added.history_start_version)) (ops hs)
                              ++ entry.op ∷ [])
                            split),
              )
        ]

apply_all-++ :
    (text : Bytes) (os : List Operation) (o : Operation) (t u : Bytes)
    → apply_all text os ≡ some t
    → apply_operation t o ≡ some u
    → apply_all text (os ++ o ∷ []) ≡ some u
apply_all-++ text [] o t u e f = rw (some_inj e, f) refl
apply_all-++ text (x ∷ os) o t u e f =
    let (mid, now, later) = >>=-eq-some (apply_operation text x) _ e in
    rw now (apply_all-++ mid os o t u later f)

-- The operations that lead from one document to a later one.
record Leads (first : Doc) (os : List Operation) (doc : Doc) : Type 0 where
  pub inv : Inv doc
  pub later : first.version + length os ≡ doc.version
  pub text : apply_all first.text os ≡ some doc.text
  pub recorded : doc.history_start_version ≤ first.version → since doc first.version ≡ os

commit-Leads :
    (first doc : Doc) (os : List Operation) (text : Bytes) (entry : HistoryEntry)
    → Leads first os doc
    → entry.server_version ≡ doc.version + 1
    → apply_operation doc.text entry.op ≡ some text
    → Leads first
        (os ++ entry.op ∷ [])
        (append_history (record doc { text = text; version = doc.version + 1 }) entry)
unfolding append_history
commit-Leads first doc os text entry h n e =
    let old : first.version ≤ doc.version = omega (arith, h.later) in
    record {
      inv = append-Inv doc text entry h.inv n;
      later = omega (arith, h.later, length-append os (entry.op ∷ []));
      text = apply_all-++ first.text os entry.op doc.text text h.text e;
      recorded = λ s.
          let (still, more) = since-added doc text entry first.version h.inv n old s in
          more ∙ ap (λ xs. xs ++ entry.op ∷ []) (h.recorded still);
    }

step-Leads :
    (first doc doc' : Doc) (os : List Operation) (client_id op_id : Bytes) (base : ℤ)
    (op : Option Operation) (r : ProcessResult)
    → Outcome doc client_id op_id base op doc' r
    → Leads first os doc
    → Leads first (os ++ broadcast_of r) doc'
unfolding new_entry ok_result
step-Leads first doc doc' os client_id op_id base op r (refused same _ _ quiet _) h =
    subst (Leads first (os ++ broadcast_of r)) (sym same) (rw (quiet, append-nil os) h)
step-Leads first doc doc' os client_id op_id base op r (committed o _ _ _ _ done) h =
    let (text, applied, kept, result) = commit_cases doc client_id op_id base o doc' r done in
    let entry = new_entry client_id op_id base o (transformed_op doc base o) (doc.version + 1) in
    subst (Leads first (os ++ broadcast_of r)) (sym kept) (
      subst
        (λ (x : ProcessResult).
          Leads first (os ++ broadcast_of x)
            (append_history (record doc { text = text; version = doc.version + 1 }) entry))
        (sym result) (commit-Leads first doc os text entry h refl applied))

Calls-Leads :
    (first doc : Doc) (os : List Operation) → Inv first → Calls first os doc → Leads first os doc
Calls-Leads first _ _ v start = record {
  inv = v;
  later = omega arith;
  text = refl;
  recorded = λ s.
      drop_all (first.version - first.history_start_version) (ops first.history)
        (omega (arith, v.current, length-ops first.history));
}
Calls-Leads first doc' _ v (next os doc _ client_id op_id base op r before ran) =
    step-Leads first doc doc' os client_id op_id base op r
      (process_cases doc client_id op_id base op doc' r ran) (Calls-Leads first doc os v before)

-- Whether a version is still supported.
supported : (doc : Doc) (v : ℕ) → (v < doc.history_start_version) ⊎ (doc.history_start_version ≤ v)
supported doc v = omega arith

-- From any document with a numbered history, over any calls of process_operation by any clients, the
-- operations that are broadcast, applied one by one to the text that there was at first, make the
-- text that there is in the end; the version counts them; and the history holds exactly these
-- operations behind the first version, in their order, unless that version is no longer supported.
pub apply_all-Calls :
    (first doc : Doc) (os : List Operation)
    → Inv first
    → Calls first os doc
    → (apply_all first.text os ≡ some doc.text)
      × (doc.version ≡ first.version + length os)
      × ((first.version < doc.history_start_version) ⊎ (since doc first.version ≡ os))
apply_all-Calls first doc os v h =
    let k = Calls-Leads first doc os v h in
    (
      k.text,
      sym k.later,
      elim (supported doc first.version) [ inl l ↦ inl l | inr s ↦ inr (k.recorded s) ],
    )
