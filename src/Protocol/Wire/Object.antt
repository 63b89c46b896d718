-- ===== src/Protocol/Wire/Object.antt =====
-- `json_get_object` copies an object that the encoder wrote, and stops behind it.
use mathlib.Core.List.{append_assoc, append-nil}
use linux_class.Common.{
  ℕ, ◌≡◌, ◌≢◌, refl, sym, ap, subst, ◌∙◌, ◌⊎◌, inl, inr, true, false, [], ◌∷◌, ◌++◌, some, arith,
  All, Bytes, print_nat, ◌==◌,
}
use linux_class.Common.Decimal.{IsDigit, print_nat-digits}
use linux_class.Protocol.Json.{escape_byte, json_escape}
use linux_class.Protocol.Json.Shape.{NoSpecial, escape_backslash}
use linux_class.Protocol.Find.{Scan, scan_string, scan_outside, object_loop, object_at}
use linux_class.Protocol.Wire.{
  Flat, str, num, Fields, object, flat_text, key_text, fields_text, value_text,
}
use linux_class.Protocol.Wire.Search.{IsName, name-NoSpecial}
use linux_class.Protocol.Wire.Lookup.{NamedFields}

abbrev outside : Scan
outside = record { in_string = false; escape = false; depth = 1 }

abbrev within : Scan
within = record { in_string = true; escape = false; depth = 1 }

-- The loop goes over a text inside the object, and copies it.
abbrev Passes : Scan → Bytes → Scan → Type 0
Passes s xs t =
    (rest copy : Bytes) → object_loop (xs ++ rest) s copy ≡ object_loop rest t (copy ++ xs)

Passes-then : (s t u : Scan) (xs ys : Bytes) → Passes s xs t → Passes t ys u → Passes s (xs ++ ys) u
Passes-then s t u xs ys p q rest copy =
    ap (λ x. object_loop x s copy) (append_assoc xs ys rest)
    ∙ p (ys ++ rest) copy
    ∙ q rest (copy ++ xs)
    ∙ ap (object_loop rest u) (append_assoc copy xs ys)

Passes-nothing : (s : Scan) → Passes s [] s
Passes-nothing s rest copy = ap (object_loop rest s) (sym (append-nil copy))

Passes-one : (x : ℕ) → x ≢ b'"' → x ≢ b'\\' → Passes within (x ∷ []) within
unfolding object_loop scan_string
Passes-one x n k rest copy =
    let a : (x == b'\\') ≡ false = ground (arith, k) in
    let b : (x == b'"') ≡ false = ground (arith, n) in rw (a, b) refl

Passes-plain : (xs : Bytes) → NoSpecial xs → Passes within xs within
Passes-plain [] h = Passes-nothing within
Passes-plain (x ∷ xs) ((n, k), h) =
    Passes-then within within within (x ∷ []) xs (Passes-one x n k) (Passes-plain xs h)

Passes-escape : (x : ℕ) → Passes within (b'\\' ∷ x ∷ []) within
unfolding object_loop scan_string
Passes-escape x rest copy = ap (object_loop rest within) (append_assoc copy (b'\\' ∷ []) (x ∷ []))

Passes-escape_byte : (b : ℕ) → Passes within (escape_byte b) within
Passes-escape_byte b = elim (escape_backslash b) [
  | inl (x, q, e, h) ↦
      rw e
        (Passes-then within within within (b'\\' ∷ x ∷ []) q (Passes-escape x) (Passes-plain q h))
  | inr (e, n, k) ↦ rw e (Passes-one b n k)
]

Passes-json_escape : (s : Bytes) → Passes within (json_escape s) within
unfolding json_escape
Passes-json_escape [] = Passes-nothing within
Passes-json_escape (b ∷ s) =
    Passes-then within within within (escape_byte b) (json_escape s) (Passes-escape_byte b)
      (Passes-json_escape s)

quote_opens : Passes outside (b'"' ∷ []) within
unfolding object_loop scan_outside
quote_opens rest copy = refl

quote_closes : Passes within (b'"' ∷ []) outside
unfolding object_loop scan_string
quote_closes rest copy = refl

Passes-quoted :
    (xs : Bytes) → Passes within xs within → Passes outside (b'"' ∷ (xs ++ b'"' ∷ [])) outside
Passes-quoted xs h =
    Passes-then outside within outside (b'"' ∷ []) (xs ++ b'"' ∷ []) quote_opens
      (Passes-then within within outside xs (b'"' ∷ []) h quote_closes)

Passes-digit : (d : ℕ) → IsDigit d → Passes outside (d ∷ []) outside
unfolding object_loop scan_outside
Passes-digit d h rest copy =
    let a : (d == b'"') ≡ false = ground (arith, h) in
    let b : (d == b'{') ≡ false = ground (arith, h) in
    let c : (d == b'}') ≡ false = ground (arith, h) in rw (a, b, c) refl

Passes-digits : (ds : Bytes) → All IsDigit ds → Passes outside ds outside
Passes-digits [] h = Passes-nothing outside
Passes-digits (d ∷ ds) (h, hs) =
    Passes-then outside outside outside (d ∷ []) ds (Passes-digit d h) (Passes-digits ds hs)

Passes-punctuation : (c : ℕ) → (c ≡ b',') ⊎ (c ≡ b':') → Passes outside (c ∷ []) outside
unfolding object_loop scan_outside
Passes-punctuation c (inl e) rest copy = rw e refl
Passes-punctuation c (inr e) rest copy = rw e refl

-- The texts do not depend on what follows them.
flat_text-split : (f : Flat) (rest : Bytes) → flat_text f rest ≡ flat_text f [] ++ rest
flat_text-split (str s) rest = ap (◌∷◌ b'"') (sym (append_assoc (json_escape s) (b'"' ∷ []) rest))
flat_text-split (num n) rest = ap (λ xs. xs ++ rest) (sym (append-nil (print_nat n)))

flat-then : (f : Flat) (xs rest : Bytes) → flat_text f (xs ++ rest) ≡ flat_text f xs ++ rest
flat-then f xs rest =
    flat_text-split f (xs ++ rest)
    ∙ sym (append_assoc (flat_text f []) xs rest)
    ∙ ap (λ ys. ys ++ rest) (sym (flat_text-split f xs))

key_text-split : (k xs : Bytes) → key_text k xs ≡ (b'"' ∷ (k ++ b'"' ∷ [])) ++ (b':' ∷ xs)
key_text-split k xs = ap (◌∷◌ b'"') (sym (append_assoc k (b'"' ∷ []) (b':' ∷ xs)))

key-then : (k xs rest : Bytes) → key_text k (xs ++ rest) ≡ key_text k xs ++ rest
key-then k xs rest = ap (◌∷◌ b'"') (sym (append_assoc k (b'"' ∷ b':' ∷ xs) rest))

member-then :
    (k : Bytes) (f : Flat) (xs rest : Bytes)
    → key_text k (flat_text f (xs ++ rest)) ≡ key_text k (flat_text f xs) ++ rest
member-then k f xs rest = ap (key_text k) (flat-then f xs rest) ∙ key-then k (flat_text f xs) rest

fields_text-split : (fs : Fields) (rest : Bytes) → fields_text fs rest ≡ fields_text fs [] ++ rest
fields_text-split [] rest = refl
fields_text-split ((k, f) ∷ fs) rest =
    ap (λ xs. b',' ∷ key_text k (flat_text f xs)) (fields_text-split fs rest)
    ∙ ap (◌∷◌ b',') (member-then k f (fields_text fs []) rest)

Passes-flat : (f : Flat) → Passes outside (flat_text f []) outside
Passes-flat (str s) = Passes-quoted (json_escape s) (Passes-json_escape s)
Passes-flat (num n) =
    Passes-then outside outside outside (print_nat n) []
      (Passes-digits (print_nat n) (print_nat-digits n)) (Passes-nothing outside)

Passes-member :
    (k : Bytes) (f : Flat) (xs : Bytes)
    → IsName k
    → Passes outside xs outside
    → Passes outside (key_text k (flat_text f xs)) outside
Passes-member k f xs n h =
    subst (λ ys. Passes outside ys outside)
      (sym (
        key_text-split k (flat_text f xs)
        ∙ ap (λ ys. (b'"' ∷ (k ++ b'"' ∷ [])) ++ (b':' ∷ ys)) (flat_text-split f xs)))
      (Passes-then outside outside outside (b'"' ∷ (k ++ b'"' ∷ [])) (b':' ∷ (flat_text f [] ++ xs))
        (Passes-quoted k (Passes-plain k (name-NoSpecial k n).0))
        (Passes-then outside outside outside (b':' ∷ []) (flat_text f [] ++ xs)
          (Passes-punctuation b':' (inr refl))
          (Passes-then outside outside outside (flat_text f []) xs (Passes-flat f) h)))

Passes-fields : (fs : Fields) → NamedFields fs → Passes outside (fields_text fs []) outside
Passes-fields [] h = Passes-nothing outside
Passes-fields ((k, f) ∷ fs) (n, h) =
    Passes-then outside outside outside (b',' ∷ []) (key_text k (flat_text f (fields_text fs [])))
      (Passes-punctuation b',' (inl refl))
      (Passes-member k f (fields_text fs []) n (Passes-fields fs h))

pub object_at-value :
    (k : Bytes) (f : Flat) (fs : Fields) (rest : Bytes)
    → NamedFields ((k, f) ∷ fs)
    → object_at (value_text (object k f fs) rest) ≡ some (value_text (object k f fs) [])
unfolding object_at object_loop scan_outside
object_at-value k f fs rest (n, h) =
    let body = key_text k (flat_text f (fields_text fs [])) in
    let shape : (xs : Bytes) → key_text k (flat_text f (fields_text fs xs)) ≡ body ++ xs = λ xs.
      ap (λ ys. key_text k (flat_text f ys)) (fields_text-split fs xs)
      ∙ member-then k f (fields_text fs []) xs in
    ap (λ xs. object_loop xs outside (b'{' ∷ [])) (shape (b'}' ∷ rest))
    ∙ Passes-member k f (fields_text fs []) n (Passes-fields fs h) (b'}' ∷ rest) (b'{' ∷ [])
    ∙ ap (λ xs. some (b'{' ∷ xs)) (sym (shape (b'}' ∷ [])))
