-- ===== src/Operation/Edit.antt =====
-- What an operation means: an edit of a sequence of characters, whatever a character is.
use linux_class.Common.{
  ℕ, zero, suc, ◌+◌, ◌≤◌, ◌<◌, ◌≡◌, refl, ap, List, [], ◌∷◌, ◌++◌, arith, length, take, drop, All,
  flatten,
}
use mathlib.Core.List.{append_assoc}
use linux_class.Operation.{OpKind, invalid, insert, delete, noop}

module _ {ℓ} {A : Type ℓ} where
  -- A position behind the end is the end.
  abbrev pub insert_at : ℕ → A → List A → List A
  insert_at zero a xs = a ∷ xs
  insert_at (suc n) a [] = a ∷ []
  insert_at (suc n) a (x ∷ xs) = x ∷ insert_at n a xs

  -- There is nothing to delete behind the end.
  abbrev pub delete_at : ℕ → List A → List A
  delete_at n [] = []
  delete_at zero (x ∷ xs) = xs
  delete_at (suc n) (x ∷ xs) = x ∷ delete_at n xs

  abbrev pub edit : OpKind → ℕ → A → List A → List A
  edit insert p a xs = insert_at p a xs
  edit delete p a xs = delete_at p xs
  edit noop p a xs = xs
  edit invalid p a xs = xs

module _ {ℓ} {A : Type ℓ} where
  pub length-insert_at : (n : ℕ) (a : A) (xs : List A) → length (insert_at n a xs) ≡ length xs + 1
  length-insert_at zero a xs = omega arith
  length-insert_at (suc n) a [] = omega arith
  length-insert_at (suc n) a (x ∷ xs) = omega (arith, length-insert_at n a xs)

  pub length-delete_at :
      (n : ℕ) (xs : List A) → n < length xs → length (delete_at n xs) + 1 ≡ length xs
  length-delete_at n [] h = absurd (omega arith)
  length-delete_at zero (x ∷ xs) h = omega arith
  length-delete_at (suc n) (x ∷ xs) h = omega (arith, length-delete_at n xs (omega arith))

  pub insert_at_end :
      (n : ℕ) (a : A) (xs : List A) → length xs ≤ n → insert_at n a xs ≡ insert_at (length xs) a xs
  insert_at_end zero a [] h = refl
  insert_at_end zero a (x ∷ xs) h = absurd (omega arith)
  insert_at_end (suc n) a [] h = refl
  insert_at_end (suc n) a (x ∷ xs) h = ap (◌∷◌ x) (insert_at_end n a xs (omega arith))

  pub delete_at_outside : (n : ℕ) (xs : List A) → length xs ≤ n → delete_at n xs ≡ xs
  delete_at_outside n [] h = refl
  delete_at_outside zero (x ∷ xs) h = absurd (omega arith)
  delete_at_outside (suc n) (x ∷ xs) h = ap (◌∷◌ x) (delete_at_outside n xs (omega arith))

  pub All-insert_at {κ} :
      (P : A → Type κ) (n : ℕ) (a : A) (xs : List A) → P a → All P xs → All P (insert_at n a xs)
  All-insert_at P zero a xs p h = (p, h)
  All-insert_at P (suc n) a [] p h = (p, tt)
  All-insert_at P (suc n) a (x ∷ xs) p h = (h.0, All-insert_at P n a xs p h.1)

  pub All-delete_at {κ} : (P : A → Type κ) (n : ℕ) (xs : List A) → All P xs → All P (delete_at n xs)
  All-delete_at P n [] h = tt
  All-delete_at P zero (x ∷ xs) h = h.1
  All-delete_at P (suc n) (x ∷ xs) h = (h.0, All-delete_at P n xs h.1)

module _ {ℓ} {A : Type ℓ} where
  pub flatten-take-drop :
      (n : ℕ) (cs : List (List A)) → flatten (take n cs) ++ flatten (drop n cs) ≡ flatten cs
  flatten-take-drop zero cs = refl
  flatten-take-drop (suc n) [] = refl
  flatten-take-drop (suc n) (c ∷ cs) = rw append_assoc (ap (◌++◌ c) (flatten-take-drop n cs))

  pub flatten-insert_at :
      (n : ℕ) (a : List A) (cs : List (List A))
      → flatten (insert_at n a cs) ≡ flatten (take n cs) ++ (a ++ flatten (drop n cs))
  flatten-insert_at zero a cs = refl
  flatten-insert_at (suc n) a [] = refl
  flatten-insert_at (suc n) a (c ∷ cs) = rw append_assoc (ap (◌++◌ c) (flatten-insert_at n a cs))

  pub flatten-delete_at :
      (n : ℕ) (cs : List (List A))
      → flatten (delete_at n cs) ≡ flatten (take n cs) ++ flatten (drop (suc n) cs)
  flatten-delete_at zero [] = refl
  flatten-delete_at (suc n) [] = refl
  flatten-delete_at zero (c ∷ cs) = refl
  flatten-delete_at (suc n) (c ∷ cs) = rw append_assoc (ap (◌++◌ c) (flatten-delete_at n cs))
