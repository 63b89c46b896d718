-- ===== src/Server/Thread/Told.antt =====
-- What the events of the autosave process tell of a document.
use linux_class.Common.{ℕ, suc, ◌+◌, ◌≡◌, sym, subst, List, [], ◌∷◌, ◌++◌, arith, Bytes}
use linux_class.Autosave.{Event, snapshot, save_now, log}

-- The saves among the events.
abbrev pub saves : List Event → ℕ
saves [] = 0
saves (save_now content version ∷ es) = suc (saves es)
saves (snapshot content version ∷ es) = saves es
saves (log entry ∷ es) = saves es

-- Events that tell how a document goes from one text and version to another: each snapshot is of the next version, and each save is of
-- the text and the version that the document then has.
abbrev pub Tells : Bytes → ℕ → List Event → Bytes → ℕ → Type 0
Tells text version [] text' version' = (text ≡ text') × (version ≡ version')
Tells text version (snapshot x n ∷ es) text' version' =
    (n ≡ version + 1) × Tells x n es text' version'
Tells text version (save_now x n ∷ es) text' version' =
    (x ≡ text) × (n ≡ version) × Tells text version es text' version'
Tells text version (log entry ∷ es) text' version' = Tells text version es text' version'

pub saves-++ : (xs ys : List Event) → saves (xs ++ ys) ≡ saves xs + saves ys
saves-++ [] ys = omega arith
saves-++ (snapshot x n ∷ xs) ys = saves-++ xs ys
saves-++ (log x ∷ xs) ys = saves-++ xs ys
saves-++ (save_now x n ∷ xs) ys = omega (arith, saves-++ xs ys)

pub Tells-++ :
    (xs ys : List Event) (a b c : Bytes) (k l n : ℕ)
    → Tells a k xs b l
    → Tells b l ys c n
    → Tells a k (xs ++ ys) c n
Tells-++ [] ys a b c k l n (e, f) h =
    subst (λ x. Tells x k ys c n) (sym e) (subst (λ x. Tells b x ys c n) (sym f) h)
Tells-++ (snapshot x v ∷ xs) ys a b c k l n (e, g) h = (e, Tells-++ xs ys x b c v l n g h)
Tells-++ (log x ∷ xs) ys a b c k l n g h = Tells-++ xs ys a b c k l n g h
Tells-++ (save_now x v ∷ xs) ys a b c k l n (e, f, g) h = (e, f, Tells-++ xs ys a b c k l n g h)
