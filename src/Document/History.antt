-- ===== src/Document/History.antt =====
-- The history of document.c: its entries are numbered without gaps up to the version, and there
-- are never more than the limit.
use linux_class.Common.{
  ℕ, suc, ◌+◌, ◌-◌, ◌≤◌, ◌<◌, ◌≡◌, ◌⊎◌, inl, inr, refl, ap, subst, Bool-cases, List, [], ◌∷◌, ◌++◌,
  map, Option, arith, length, length-append, drop, drop_all, dec_lt, Bytes, ◌==◌,
}
use linux_class.Common.Int.{pos}
use linux_class.Operation.{Operation}
use linux_class.Document.Transform.{transform_against, transform_all}
use linux_class.Document.{
  HistoryEntry, Doc, document_init, trim_history, history_start, append_history, transform_loop,
}

-- The entries carry the versions from `start + 1` on.
abbrev pub Numbered : ℕ → List HistoryEntry → Type 0
Numbered start [] = Unit
Numbered start (h ∷ hs) = (h.server_version ≡ suc start) × Numbered (suc start) hs

pub record Inv (doc : Doc) : Type 0 where
  pub limit_pos : 0 < doc.history_limit
  pub bounded : length doc.history ≤ doc.history_limit
  pub numbered : Numbered doc.history_start_version doc.history
  pub current : doc.history_start_version + length doc.history ≡ doc.version

Numbered-concat :
    (start : ℕ) (hs : List HistoryEntry) (e : HistoryEntry)
    → Numbered start hs
    → e.server_version ≡ suc (start + length hs)
    → Numbered start (hs ++ e ∷ [])
Numbered-concat start [] e n h = (omega arith, tt)
Numbered-concat start (x ∷ hs) e (p, n) h = (p, Numbered-concat (suc start) hs e n (omega arith))

history_start-Numbered :
    (start version : ℕ) (hs : List HistoryEntry) (e : HistoryEntry)
    → Numbered start (hs ++ e ∷ [])
    → history_start version (hs ++ e ∷ []) ≡ start
unfolding history_start
history_start-Numbered start version [] e (p, _) = omega arith
history_start-Numbered start version (x ∷ hs) e (p, _) = omega arith

-- What trimming leaves is numbered from the old start, or from the next one.
pub trim-Numbered :
    (limit start : ℕ) (hs : List HistoryEntry)
    → 0 < limit
    → length hs ≤ limit
    → Numbered start hs
    → ((trim_history limit hs ≡ hs) × (length hs < limit))
      ⊎ ((h : HistoryEntry) × (rest : List HistoryEntry) × (hs ≡ h ∷ rest)
          × (trim_history limit hs ≡ rest)
          × (length hs ≡ limit))
unfolding trim_history
trim-Numbered limit start [] p b n = inl (ground arith)
trim-Numbered limit start (h ∷ rest) p b n = elim (Bool-cases (suc (length rest) == limit)) [
  | inl full ↦ inr (h, rest, refl, rw full, ground arith)
  | inr more ↦ inl (rw more, ground arith)
]

append_from :
    (doc : Doc) (text : Bytes) (entry : HistoryEntry) (start : ℕ) (kept : List HistoryEntry)
    → trim_history doc.history_limit doc.history ≡ kept
    → Numbered start kept
    → start + length kept ≡ doc.version
    → length kept < doc.history_limit
    → entry.server_version ≡ doc.version + 1
    → Inv (append_history (record doc { text = text; version = doc.version + 1 }) entry)
unfolding append_history
append_from doc text entry start kept t n c l e =
    let numbered : Numbered start (kept ++ entry ∷ []) =
      Numbered-concat start kept entry n (omega arith) in
    let starts = history_start-Numbered start (doc.version + 1) kept entry numbered in
    rw t (record {
      limit_pos = omega arith;
      bounded = omega (arith, length-append kept (entry ∷ []));
      numbered = rw starts numbered;
      current = omega (arith, starts, length-append kept (entry ∷ []));
    })

pub append-Inv :
    (doc : Doc) (text : Bytes) (entry : HistoryEntry)
    → Inv doc
    → entry.server_version ≡ doc.version + 1
    → Inv (append_history (record doc { text = text; version = doc.version + 1 }) entry)
append-Inv doc text entry v e =
    elim (trim-Numbered doc.history_limit doc.history_start_version doc.history v.limit_pos
      v.bounded v.numbered) [
        | inl (t, l) ↦
            append_from doc text entry doc.history_start_version doc.history t v.numbered v.current
              l e
        | inr (h, rest, s, t, full) ↦
            let n : Numbered doc.history_start_version (h ∷ rest) =
              subst (Numbered doc.history_start_version) s v.numbered in
            append_from doc text entry (suc doc.history_start_version) rest t n.1
              (omega (arith, ap length s, v.current)) (omega (arith, ap length s)) e
      ]

-- A new document has a numbered history with room for an entry, whatever limit is asked for.
pub document_init-Inv : (text : Option Bytes) (limit : ℕ) → Inv (document_init text limit)
unfolding document_init
document_init-Inv text limit = ground arith

abbrev pub ops : List HistoryEntry → List Operation
ops = map (λ h. h.op)

loop_all :
    (hs : List HistoryEntry) (start b : ℕ) (op : Operation)
    → Numbered start hs
    → b ≤ start
    → transform_loop (pos b) op hs ≡ transform_all op (ops hs)
unfolding transform_loop transform_all
loop_all [] start b op n h = refl
loop_all (e ∷ hs) start b op (p, n) h =
    ground (arith, loop_all hs (suc start) b (transform_against op e.op) n)

-- From a supported version the loop folds exactly the operations made since, oldest first.
pub transform_loop-drop :
    (hs : List HistoryEntry) (start b : ℕ) (op : Operation)
    → Numbered start hs
    → start ≤ b
    → transform_loop (pos b) op hs ≡ transform_all op (drop (b - start) (ops hs))
unfolding transform_loop transform_all
transform_loop-drop [] start b op n h = rw (drop_all (b - start) (ops []) (omega arith))
transform_loop-drop (e ∷ hs) start b op (p, n) h = elim (dec_lt start b) [
  | yes l ↦
      let next : b - start ≡ suc (b - suc start) = omega arith in
      rw next (ground (arith, transform_loop-drop hs (suc start) b op n l))
  | no l ↦
      let here : b - start ≡ 0 = omega arith in
      rw here (loop_all (e ∷ hs) start b op (p, n) (omega arith))
]
