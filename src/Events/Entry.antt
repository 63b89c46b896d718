-- ===== src/Events/Entry.antt =====
-- The log entry of an operation, as `build_operation_log` writes it, and what the searches find in it.
use mathlib.Core.List.{append_assoc}
use linux_class.Common.{
  ℕ, ◌≤◌, ◌<◌, ◌^◌, ◌≡◌, ◌≢◌, refl, ap, ◌∙◌, [], ◌∷◌, ◌++◌, some, arith, All, Bytes, codes, length,
  print_nat,
}
use linux_class.Common.Int.{pos, print_int}
use linux_class.Common.Decimal.{IsDigit, print_nat-digits}
use linux_class.Operation.{OpKind, invalid, insert, delete, noop, Operation, kind_name}
use linux_class.Document.Log.{char_field, log_operation, log_line}
use linux_class.Protocol.Find.{strip_prefix}
use linux_class.Events.{
  strstr, behind_match, copy_value, value_or_empty, json_get_for_format, int_or,
  json_int_for_format,
}
use linux_class.Events.Search.{
  NoQuote, strstr-plain, strstr-value, strstr-other, copy_value-value, atoi-print_nat,
}

digits-NoQuote : (ds : Bytes) → All IsDigit ds → NoQuote ds
digits-NoQuote [] h = tt
digits-NoQuote (d ∷ ds) (h, hs) = (omega (arith, h), digits-NoQuote ds hs)

number-NoQuote : (n : ℕ) → NoQuote (print_nat n)
number-NoQuote n = digits-NoQuote (print_nat n) (print_nat-digits n)

-- An operation of the log, and what follows.
unfoldable pub op_text : OpKind → ℕ → Bytes → Bytes → Bytes
unfolding kind_name
op_text insert at ch rest =
    codes "{\"kind\":\"insert\",\"pos\":"
    ++ (print_nat at ++ (codes ",\"char\":\"" ++ (ch ++ (codes "\"}" ++ rest))))
op_text kind at ch rest =
    codes "{\"kind\":\""
    ++ (kind_name kind ++ (codes "\",\"pos\":" ++ (print_nat at ++ (codes "}" ++ rest))))

log_operation-text :
    (kind : OpKind) (at : ℕ) (ch reason rest : Bytes)
    → log_operation (record { kind = kind; pos = at; ch = ch; reason = reason }) ++ rest
      ≡ op_text kind at ch rest
unfolding op_text log_operation char_field kind_name
log_operation-text insert at ch reason rest = simp append_assoc
log_operation-text delete at ch reason rest = simp append_assoc
log_operation-text noop at ch reason rest = simp append_assoc
log_operation-text invalid at ch reason rest = simp append_assoc

abbrev pub name : Bytes
name = codes "transformed_op"

-- The original operation is passed over.
original-skipped :
    (kind : OpKind) (at : ℕ) (ch rest : Bytes)
    → NoQuote ch
    → ch ≢ name
    → strstr (op_text kind at ch rest) (codes "\"transformed_op\"")
      ≡ strstr rest (codes "\"transformed_op\"")
unfolding op_text kind_name strstr strip_prefix
original-skipped insert at ch rest h n =
    strstr-plain (print_nat at) _ _ (number-NoQuote at)
    ∙ strstr-other name ch (b'}' ∷ rest) (omega arith) h n
original-skipped delete at ch rest h n = strstr-plain (print_nat at) _ _ (number-NoQuote at)
original-skipped noop at ch rest h n = strstr-plain (print_nat at) _ _ (number-NoQuote at)
original-skipped invalid at ch rest h n = strstr-plain (print_nat at) _ _ (number-NoQuote at)

pub kind_found :
    (kind : OpKind) (at : ℕ) (ch rest : Bytes)
    → json_get_for_format
        (some (codes "\"transformed_op\":" ++ op_text kind at ch rest))
        (codes "kind")
        32
      ≡ kind_name kind
unfolding op_text kind_name json_get_for_format value_or_empty behind_match strstr strip_prefix
    copy_value
kind_found insert at ch rest = refl
kind_found delete at ch rest = refl
kind_found noop at ch rest = refl
kind_found invalid at ch rest = refl

pub pos_found :
    (kind : OpKind) (at : ℕ) (ch rest : Bytes)
    → at < 2 ^ 31
    → json_int_for_format
        (some (codes "\"transformed_op\":" ++ op_text kind at ch rest))
        (codes "pos")
        (pos 0)
      ≡ pos at
unfolding op_text kind_name json_int_for_format int_or behind_match strstr strip_prefix
pos_found insert at ch rest l = atoi-print_nat at _ refl l
pos_found delete at ch rest l = atoi-print_nat at _ refl l
pos_found noop at ch rest l = atoi-print_nat at _ refl l
pos_found invalid at ch rest l = atoi-print_nat at _ refl l

pub char_found :
    (at : ℕ) (ch rest : Bytes)
    → NoQuote ch
    → length ch ≤ 7
    → json_get_for_format
        (some (codes "\"transformed_op\":" ++ op_text insert at ch rest))
        (codes "char")
        8
      ≡ ch
unfolding op_text json_get_for_format value_or_empty behind_match strstr strip_prefix
char_found at ch rest h l =
    let pattern = codes "\"char\":\"" in
    let found =
      strstr-plain (print_nat at) (codes ",\"char\":\"" ++ (ch ++ (codes "\"}" ++ rest)))
        (codes "char\":\"") (number-NoQuote at) in
    ap (λ o. value_or_empty 8 (behind_match pattern o)) found
    ∙ copy_value-value 7 ch (b'}' ∷ rest) h l

-- The whole entry, from the first number on, from the operation's identifier on, and from the second number on.
module _ (version : ℕ) (id op_id : Bytes) (base : ℕ) (original transformed : Operation)
    (n : ℕ) where
  abbrev transformed_text : Bytes
  transformed_text =
      codes "\"transformed_op\":"
      ++ op_text transformed.kind transformed.pos transformed.ch
          (codes ",\"content_length\":" ++ (print_nat n ++ codes "}"))

  abbrev behind_base : Bytes
  behind_base =
      codes ",\"original_op\":"
      ++ op_text original.kind original.pos original.ch (codes "," ++ transformed_text)

  abbrev behind_op_id : Bytes
  behind_op_id = codes ",\"base_version\":" ++ (print_nat base ++ behind_base)

  abbrev behind_id : Bytes
  behind_id = codes ",\"op_id\":\"" ++ (op_id ++ (b'"' ∷ behind_op_id))

  abbrev behind_version : Bytes
  behind_version = codes ",\"client_id\":\"" ++ (id ++ (b'"' ∷ behind_id))

  abbrev pub entry : Bytes
  entry =
      codes "{\"event\":\"operation\",\"server_version\":" ++ (print_nat version ++ behind_version)

  pub log_line-entry : log_line version id op_id (pos base) original transformed n ≡ entry
  unfolding log_line print_int
  log_line-entry =
      let second =
        log_operation-text transformed.kind transformed.pos transformed.ch transformed.reason
          (codes ",\"content_length\":" ++ (print_nat n ++ codes "}")) in
      let first =
        log_operation-text original.kind original.pos original.ch original.reason
          (codes "," ++ transformed_text) in
      ap
        (λ x.
          codes "{\"event\":\"operation\",\"server_version\":"
          ++ (print_nat version
              ++ (codes ",\"client_id\":\""
                  ++ (id
                      ++ (codes "\",\"op_id\":\""
                          ++ (op_id
                              ++ (codes "\",\"base_version\":"
                                  ++ (print_nat base
                                      ++ (codes ",\"original_op\":"
                                          ++ (log_operation original
                                              ++ (codes ",\"transformed_op\":" ++ x)))))))))))
        second
      ∙ ap
          (λ x.
            codes "{\"event\":\"operation\",\"server_version\":"
            ++ (print_nat version
                ++ (codes ",\"client_id\":\""
                    ++ (id
                        ++ (codes "\",\"op_id\":\""
                            ++ (op_id
                                ++ (codes "\",\"base_version\":"
                                    ++ (print_nat base ++ (codes ",\"original_op\":" ++ x)))))))))
          first

  pub version_found :
      version < 2 ^ 31
      → json_int_for_format (some entry) (codes "server_version") (pos 0) ≡ pos version
  unfolding json_int_for_format int_or behind_match strstr strip_prefix
  version_found l = atoi-print_nat version behind_version refl l

  pub id_found :
      NoQuote id → length id ≤ 63 → json_get_for_format (some entry) (codes "client_id") 64 ≡ id
  unfolding json_get_for_format value_or_empty behind_match strstr strip_prefix
  id_found h l =
      ap (λ o. value_or_empty 64 (behind_match (codes "\"client_id\":\"") o))
        (strstr-plain (print_nat version) behind_version (codes "client_id\":\"")
          (number-NoQuote version))
      ∙ copy_value-value 63 id behind_id h l

  pub base_found :
      NoQuote id
      → NoQuote op_id
      → base < 2 ^ 31
      → json_int_for_format (some entry) (codes "base_version") (pos 0) ≡ pos base
  unfolding json_int_for_format int_or behind_match strstr strip_prefix
  base_found h k l =
      let pattern = codes "base_version\":" in
      ap (λ o. int_or (pos 0) (behind_match (codes "\"base_version\":") o))
        (strstr-plain (print_nat version) behind_version pattern (number-NoQuote version)
          ∙ strstr-value (codes "base_version") id
              (codes "\"op_id\":\"" ++ (op_id ++ (b'"' ∷ behind_op_id))) [] b',' (omega arith) h
              (omega arith)
          ∙ strstr-value (codes "base_version") op_id
              (codes "\"base_version\":" ++ (print_nat base ++ behind_base)) [] b',' (omega arith) k
              (omega arith))
      ∙ atoi-print_nat base behind_base refl l

  pub transformed_found :
      NoQuote id
      → NoQuote op_id
      → NoQuote original.ch
      → id ≢ name
      → op_id ≢ name
      → original.ch ≢ name
      → strstr entry (codes "\"transformed_op\"") ≡ some transformed_text
  unfolding strstr strip_prefix
  transformed_found h k c hn kn cn =
      strstr-plain (print_nat version) behind_version (codes "transformed_op\"")
        (number-NoQuote version)
      ∙ strstr-other name id behind_id (omega arith) h hn
      ∙ strstr-other name op_id behind_op_id (omega arith) k kn
      ∙ strstr-plain (print_nat base) behind_base (codes "transformed_op\"") (number-NoQuote base)
      ∙ original-skipped original.kind original.pos original.ch (codes "," ++ transformed_text) c cn
