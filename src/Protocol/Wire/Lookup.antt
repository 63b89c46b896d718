-- ===== src/Protocol/Wire/Lookup.antt =====
-- `find_key` on the text of an object finds its first member, or field of a member, with that key.
use linux_class.Common.{
  ℕ, ◌≡◌, refl, sym, ap, ◌∙◌, Bool-cases, inl, inr, true, [], ◌∷◌, ◌++◌, Option, none, some, arith,
  All, Bytes, str_eq, str_eq_iff, print_nat,
}
use linux_class.Common.Decimal.{print_nat-digits, print_nat-nonempty}
use linux_class.Autosave.Pipe.Scan.{skip-digits}
use linux_class.Protocol.Json.{json_escape}
use linux_class.Protocol.Find.{is_space, skip_ws}
use linux_class.Protocol.Wire.{
  Flat, str, num, Fields, Value, flat, object, Members, flat_text, key_text, fields_text,
  value_text, members_text, or_else, field_at, inside, member_at,
}
use linux_class.Protocol.Wire.Search.{
  Closes, IsName, find, find-other, find-Closes, find-string, find-number, find-name, find-found,
}

-- A text that goes on behind a value.
abbrev pub GoesOn : Bytes → Type 0
GoesOn text = (c : ℕ) × (rest : Bytes) × Closes c × (text ≡ c ∷ rest)

abbrev pub NamedFields : Fields → Type 0
NamedFields = All (λ (p : Bytes × Flat). IsName p.0)

abbrev pub NamedValue : Value → Type 0
NamedValue (flat f) = Unit
NamedValue (object k f fs) = NamedFields ((k, f) ∷ fs)

abbrev pub Named : Members → Type 0
Named = All (λ (p : Bytes × Value). IsName p.0 × NamedValue p.1)

pub fields-GoesOn : (fs : Fields) (text : Bytes) → GoesOn text → GoesOn (fields_text fs text)
fields-GoesOn [] text h = h
fields-GoesOn ((k, f) ∷ fs) text h = (b',', _, inl refl, refl)

pub members-GoesOn : (ms : Members) (text : Bytes) → GoesOn text → GoesOn (members_text ms text)
members-GoesOn [] text h = h
members-GoesOn ((k, v) ∷ ms) text h = (b',', _, inl refl, refl)

pub skip-flat : (f : Flat) (text : Bytes) → skip_ws (flat_text f text) ≡ flat_text f text
unfolding skip_ws is_space
skip-flat (str s) text = refl
skip-flat (num n) text = skip-digits (print_nat n) text (print_nat-digits n) (print_nat-nonempty n)

skip-value : (v : Value) (text : Bytes) → skip_ws (value_text v text) ≡ value_text v text
unfolding skip_ws is_space
skip-value (flat f) text = skip-flat f text
skip-value (object k f fs) text = refl

module _ (key : Bytes) (named : IsName key) where
  find-flat : (f : Flat) (text : Bytes) → GoesOn text → find key (flat_text f text) ≡ find key text
  find-flat (str s) text (c, rest, closes, e) =
      ap (λ t. find key (b'"' ∷ (json_escape s ++ (b'"' ∷ t)))) e
      ∙ find-string key named c rest closes s
      ∙ sym (find-Closes key c rest closes)
      ∙ ap (find key) (sym e)
  find-flat (num n) text (c, rest, closes, e) =
      ap (λ t. find key (print_nat n ++ t)) e
      ∙ find-number key named c rest closes n
      ∙ sym (find-Closes key c rest closes)
      ∙ ap (find key) (sym e)

  find-here :
      (k text : Bytes)
      → str_eq k key ≡ true
      → skip_ws text ≡ text
      → find key (key_text k text) ≡ some text
  find-here k text e s =
      ap (λ x. find key (key_text x text)) ((str_eq_iff k key).0 e)
      ∙ find-found key named text
      ∙ ap some s

  find-fields :
      (fs : Fields) (text : Bytes)
      → NamedFields fs
      → GoesOn text
      → find key (fields_text fs text) ≡ or_else (field_at key fs text) (find key text)
  find-fields [] text n h = refl
  find-fields ((k, f) ∷ fs) text (n, ns) h =
      let later = fields_text fs text in
      find-other key b',' (key_text k (flat_text f later)) (omega arith)
      ∙ elim (Bool-cases (str_eq k key)) [
        | inl e ↦ find-here k (flat_text f later) e (skip-flat f later) ∙ rw e refl
        | inr e ↦
            find-name key named (flat_text f later) k n e
            ∙ find-flat f later (fields-GoesOn fs text h)
            ∙ find-fields fs text ns h
            ∙ rw e refl
      ]

  find-value :
      (v : Value) (text : Bytes)
      → NamedValue v
      → GoesOn text
      → find key (value_text v text) ≡ or_else (inside key v text) (find key text)
  find-value (flat f) text n h = find-flat f text h
  find-value (object k f fs) text n h =
      let behind = flat_text f (fields_text fs (b'}' ∷ text)) in
      find-other key b'{' (key_text k behind) (omega arith)
      ∙ sym (find-other key b',' (key_text k behind) (omega arith))
      ∙ find-fields ((k, f) ∷ fs) (b'}' ∷ text) n (b'}', text, inr refl, refl)
      ∙ ap (or_else (field_at key ((k, f) ∷ fs) (b'}' ∷ text)))
          (find-Closes key b'}' text (inr refl))

  or_else_assoc : (a b c : Option Bytes) → or_else a (or_else b c) ≡ or_else (or_else a b) c
  or_else_assoc none b c = refl
  or_else_assoc (some x) b c = refl

  pub find-members :
      (ms : Members) (text : Bytes)
      → Named ms
      → GoesOn text
      → find key (members_text ms text) ≡ or_else (member_at key ms text) (find key text)
  find-members [] text n h = refl
  find-members ((k, v) ∷ ms) text ((n, nv), ns) h =
      let later = members_text ms text in
      find-other key b',' (key_text k (value_text v later)) (omega arith)
      ∙ elim (Bool-cases (str_eq k key)) [
        | inl e ↦ find-here k (value_text v later) e (skip-value v later) ∙ rw e refl
        | inr e ↦
            find-name key named (value_text v later) k n e
            ∙ find-value v later nv (members-GoesOn ms text h)
            ∙ ap (or_else (inside key v later)) (find-members ms text ns h)
            ∙ or_else_assoc (inside key v later) (member_at key ms text) (find key text)
            ∙ rw e refl
      ]
