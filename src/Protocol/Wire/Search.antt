-- ===== src/Protocol/Wire/Search.antt =====
-- `find_key` steps over what is no key, quotation marks within strings included.
use mathlib.Core.List.{append_assoc}
use linux_class.Common.{
  ℕ, ◌-◌, ◌≡◌, ◌≢◌, ◌⊎◌, refl, sym, ap, ◌∙◌, Bool-cases, inl, inr, true, false, [], ◌∷◌, ◌++◌,
  Option, none, some, arith, All, Bytes, str_eq, str_eq_iff, length, print_nat, ◌==◌, ℕ_discrete,
}
use linux_class.Common.Decimal.{IsDigit, print_nat-digits}
use linux_class.Protocol.Json.{escape_byte, json_escape}
use linux_class.Protocol.Json.Shape.{
  NoQuote, NoSpecial, escape-quote, escape-NoQuote, json_escape_backslash,
}
use linux_class.Protocol.Wire.{key_text}
use linux_class.Protocol.Find.{is_space, skip_ws, strip_prefix, after_name, find_loop}

abbrev pub Closes : ℕ → Type 0
Closes c = (c ≡ b',') ⊎ (c ≡ b'}')

-- The bytes of a name.
abbrev pub IsName : Bytes → Type 0
IsName = All (λ c. (c ≢ b'"') × (c ≢ b'\\') × (c ≢ b',') × (c ≢ b'}') × (c ≢ b':'))

module _ (key : Bytes) where
  abbrev pub pattern : Bytes
  pattern = b'"' ∷ (key ++ b'"' ∷ [])

  abbrev pub find : Bytes → Option Bytes
  find text = find_loop pattern text 0

  pub find-other : (c : ℕ) (text : Bytes) → c ≢ b'"' → find (c ∷ text) ≡ find text
  unfolding find_loop strip_prefix
  find-other c text n = let no : (b'"' == c) ≡ false = ground (arith, n) in rw (no, find_loop) refl

  pub find-Closes : (c : ℕ) (text : Bytes) → Closes c → find (c ∷ text) ≡ find text
  find-Closes c text (inl e) = find-other c text (omega (arith, e))
  find-Closes c text (inr e) = find-other c text (omega (arith, e))

  find-plain : (xs text : Bytes) → NoQuote xs → find (xs ++ text) ≡ find text
  find-plain [] text h = refl
  find-plain (x ∷ xs) text (p, h) = find-other x (xs ++ text) p ∙ find-plain xs text h

  find-quote :
      (text : Bytes) → strip_prefix (key ++ b'"' ∷ []) text ≡ none → find (b'"' ∷ text) ≡ find text
  unfolding find_loop strip_prefix
  find-quote text e = rw (e, find_loop) refl

  find-skip : (xs text : Bytes) → find_loop pattern (xs ++ text) (length xs) ≡ find text
  unfolding find_loop
  find-skip [] text = refl
  find-skip (x ∷ xs) text = find-skip xs text

strip-found :
    (key rest : Bytes) → strip_prefix (key ++ b'"' ∷ []) (key ++ (b'"' ∷ rest)) ≡ some rest
unfolding strip_prefix
strip-found [] rest = refl
strip-found (k ∷ key) rest =
    let same : (k == k) ≡ true = ground arith in rw same (strip-found key rest)

module _ (text : Bytes) where
  -- A backslash is no part of a name.
  strip_backslash :
      (key p q : Bytes)
      → IsName key
      → NoSpecial p
      → strip_prefix (key ++ b'"' ∷ []) (p ++ (b'\\' ∷ q)) ≡ none
  unfolding strip_prefix
  strip_backslash [] [] q h k = refl
  strip_backslash [] (x ∷ p) q h ((n, _), k) =
      let no : (b'"' == x) ≡ false = ground (arith, n) in rw no refl
  strip_backslash (y ∷ key) [] q ((_, n, _, _, _), h) k =
      let no : (y == b'\\') ≡ false = ground (arith, n) in rw no refl
  strip_backslash (y ∷ key) (x ∷ p) q (_, h) (_, k) = ground (arith, strip_backslash key p q h k)

  -- Without one, the match is the whole string or none.
  strip_whole :
      (key xs : Bytes)
      → IsName key
      → NoSpecial xs
      → (strip_prefix (key ++ b'"' ∷ []) (xs ++ (b'"' ∷ text)) ≡ none)
        ⊎ ((strip_prefix (key ++ b'"' ∷ []) (xs ++ (b'"' ∷ text)) ≡ some text) × (xs ≡ key))
  unfolding strip_prefix
  strip_whole [] [] h k = inr (refl, refl)
  strip_whole [] (x ∷ xs) h ((n, _), k) =
      let no : (b'"' == x) ≡ false = ground (arith, n) in inl (rw no refl)
  strip_whole (y ∷ key) [] ((n, _, _, _, _), h) k =
      let no : (y == b'"') ≡ false = ground (arith, n) in inl (rw no refl)
  strip_whole (y ∷ key) (x ∷ xs) (_, h) (_, k) = elim (Bool-cases (y == x)) [
    | inr e ↦ inl (rw e refl)
    | inl e ↦ elim (strip_whole key xs h k) [
      | inl f ↦ inl (rw e f)
      | inr (f, g) ↦
          let same : x ≡ y = ground (arith, e) in
          inr (rw e f, ap (◌∷◌ x) g ∙ ap (λ z. z ∷ key) same)
    ]
  ]

  strip_escaped :
      (key s : Bytes)
      → IsName key
      → (strip_prefix (key ++ b'"' ∷ []) (json_escape s ++ (b'"' ∷ text)) ≡ none)
        ⊎ ((strip_prefix (key ++ b'"' ∷ []) (json_escape s ++ (b'"' ∷ text)) ≡ some text)
            × (json_escape s ≡ key))
  strip_escaped key s h = elim (json_escape_backslash s) [
    | inl k ↦ strip_whole key (json_escape s) h k
    | inr (p, q, e, k) ↦ inl (
        ap (λ t. strip_prefix (key ++ b'"' ∷ []) (t ++ (b'"' ∷ text))) e
        ∙ ap (strip_prefix (key ++ b'"' ∷ [])) (append_assoc p (b'\\' ∷ q) (b'"' ∷ text))
        ∙ strip_backslash key p (q ++ (b'"' ∷ text)) h k)
  ]

-- Behind a string, no name begins.
strip-Closes :
    (key : Bytes) (c : ℕ) (rest : Bytes)
    → IsName key
    → Closes c
    → strip_prefix (key ++ b'"' ∷ []) (c ∷ rest) ≡ none
unfolding strip_prefix
strip-Closes [] c rest h (inl e) = rw e refl
strip-Closes [] c rest h (inr e) = rw e refl
strip-Closes (y ∷ key) c rest ((_, _, n, _, _), h) (inl e) =
    let no : (y == c) ≡ false = ground (arith, n, e) in rw no refl
strip-Closes (y ∷ key) c rest ((_, _, _, n, _), h) (inr e) =
    let no : (y == c) ≡ false = ground (arith, n, e) in rw no refl

module _ (key : Bytes) (named : IsName key) (c : ℕ) (rest : Bytes) (closes : Closes c) where
  no_value : (o : Option Bytes) → after_name (skip_ws (c ∷ rest)) o ≡ o
  unfolding after_name skip_ws is_space
  no_value o = elim closes [ inl e ↦ rw e refl | inr e ↦ rw e refl ]

  -- A match that ends at the end of the string.
  find-match :
      (xs : Bytes)
      → strip_prefix (key ++ b'"' ∷ []) (xs ++ (b'"' ∷ (c ∷ rest))) ≡ some (c ∷ rest)
      → xs ≡ key
      → find key (b'"' ∷ (xs ++ (b'"' ∷ (c ∷ rest)))) ≡ find key rest
  unfolding find_loop strip_prefix
  find-match xs e f =
      rw (e, find_loop)
        (no_value _
          ∙ ap (λ t. find_loop (pattern key) t (length (pattern key) - 1))
              (sym (append_assoc xs (b'"' ∷ []) (c ∷ rest)))
          ∙ ap (find_loop (pattern key) ((xs ++ b'"' ∷ []) ++ (c ∷ rest)))
              (omega (arith, ap (λ t. length (t ++ b'"' ∷ [])) f))
          ∙ find-skip key (xs ++ b'"' ∷ []) (c ∷ rest)
          ∙ find-Closes key c rest closes)

  string-from :
      (s : Bytes)
      → find key (json_escape s ++ (b'"' ∷ (c ∷ rest))) ≡ find key rest
      → find key (b'"' ∷ (json_escape s ++ (b'"' ∷ (c ∷ rest)))) ≡ find key rest
  string-from s e = elim (strip_escaped (c ∷ rest) key s named) [
    | inl f ↦ find-quote key (json_escape s ++ (b'"' ∷ (c ∷ rest))) f ∙ e
    | inr (f, g) ↦ find-match (json_escape s) f g
  ]

  find-escaped : (s : Bytes) → find key (json_escape s ++ (b'"' ∷ (c ∷ rest))) ≡ find key rest
  unfolding json_escape
  find-escaped [] =
      find-quote key (c ∷ rest) (strip-Closes key c rest named closes)
      ∙ find-Closes key c rest closes
  find-escaped (b ∷ s) =
      let tail = json_escape s ++ (b'"' ∷ (c ∷ rest)) in
      ap (find key) (append_assoc (escape_byte b) (json_escape s) (b'"' ∷ (c ∷ rest)))
      ∙ elim (ℕ_discrete b b'"') [
        | yes e ↦
            ap (λ x. find key (x ++ tail)) (escape-quote b e)
            ∙ find-other key b'\\' (b'"' ∷ tail) (omega arith)
            ∙ string-from s (find-escaped s)
        | no n ↦ find-plain key (escape_byte b) tail (escape-NoQuote b n) ∙ find-escaped s
      ]

  -- A whole string is stepped over, with what closes it.
  pub find-string :
      (s : Bytes) → find key (b'"' ∷ (json_escape s ++ (b'"' ∷ (c ∷ rest)))) ≡ find key rest
  find-string s = string-from s (find-escaped s)

  digits-NoQuote : (ds : Bytes) → All IsDigit ds → NoQuote ds
  digits-NoQuote [] h = tt
  digits-NoQuote (d ∷ ds) (h, hs) = (omega (arith, h), digits-NoQuote ds hs)

  pub find-number : (n : ℕ) → find key (print_nat n ++ (c ∷ rest)) ≡ find key rest
  find-number n =
      find-plain key (print_nat n) (c ∷ rest) (digits-NoQuote (print_nat n) (print_nat-digits n))
      ∙ find-Closes key c rest closes

pub name-NoSpecial : (k : Bytes) → IsName k → NoSpecial k × NoQuote k
name-NoSpecial [] h = (tt, tt)
name-NoSpecial (x ∷ k) ((a, b, _, _, _), h) =
    let (p, q) = name-NoSpecial k h in (((a, b), p), (a, q))

strip_colon : (key rest : Bytes) → IsName key → strip_prefix (key ++ b'"' ∷ []) (b':' ∷ rest) ≡ none
unfolding strip_prefix
strip_colon [] rest h = refl
strip_colon (y ∷ key) rest ((_, _, _, _, n), h) =
    let no : (y == b':') ≡ false = ground (arith, n) in rw no refl

module _ (key : Bytes) (named : IsName key) (rest : Bytes) where
  strip_other :
      (k : Bytes)
      → IsName k
      → k ≢ key
      → strip_prefix (key ++ b'"' ∷ []) (k ++ (b'"' ∷ (b':' ∷ rest))) ≡ none
  strip_other k n d = elim (strip_whole (b':' ∷ rest) key k named (name-NoSpecial k n).0) [
    | inl e ↦ e
    | inr (e, f) ↦ absurd (d f)
  ]

  -- Another name is stepped over.
  pub find-name :
      (k : Bytes) → IsName k → str_eq k key ≡ false → find key (key_text k rest) ≡ find key rest
  find-name k n d =
      let other : k ≢ key = λ e. absurd (ground (arith, (str_eq_iff k key).1 e, d)) in
      find-quote key (k ++ (b'"' ∷ (b':' ∷ rest))) (strip_other k n other)
      ∙ find-plain key k (b'"' ∷ (b':' ∷ rest)) (name-NoSpecial k n).1
      ∙ find-quote key (b':' ∷ rest) (strip_colon key rest named)
      ∙ find-other key b':' rest (omega arith)

  pub find-found : find key (key_text key rest) ≡ some (skip_ws rest)
  unfolding find_loop strip_prefix after_name skip_ws is_space
  find-found = rw (strip-found key (b':' ∷ rest), find_loop) refl
