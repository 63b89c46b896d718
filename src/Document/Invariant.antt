-- ===== src/Document/Invariant.antt =====
-- Any sequence of calls keeps the history numbered.
use linux_class.Common.{◌≡◌, refl, subst, sym, Option, some, Bytes}
use linux_class.Common.Int.{ℤ}
use linux_class.Operation.{Operation}
use linux_class.Document.{Doc, ProcessResult, new_entry, process_operation}
use linux_class.Document.History.{Inv, append-Inv}
use linux_class.Document.Outcome.{Outcome, refused, committed, commit_cases, process_cases}

Outcome-Inv :
    {doc : Doc} {client_id op_id : Bytes} {base : ℤ} {op : Option Operation} {doc' : Doc}
    {r : ProcessResult}
    → Inv doc
    → Outcome doc client_id op_id base op doc' r
    → Inv doc'
unfolding new_entry
Outcome-Inv v (refused e _ _ _ _) = subst Inv (sym e) v
Outcome-Inv {doc} {client_id} {op_id} {base} {doc' = doc'} {r} v (committed o _ _ _ _ h) =
    let (text, _, e, _) = commit_cases doc client_id op_id base o doc' r h in
    subst Inv (sym e) (append-Inv doc text _ v refl)

-- Whatever a client sends, the history stays numbered without gaps from its start to the version,
-- and within its limit.
pub process_operation-Inv :
    (doc : Doc) (client_id op_id : Bytes) (base : ℤ) (op : Option Operation) (doc' : Doc)
    (r : ProcessResult)
    → Inv doc
    → process_operation doc client_id op_id base op ≡ some (doc', r)
    → Inv doc'
process_operation-Inv doc client_id op_id base op doc' r v h =
    Outcome-Inv v (process_cases doc client_id op_id base op doc' r h)
