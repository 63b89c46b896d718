-- ===== src/Autosave/Pipe/Framing.antt =====
-- The child reads the events that the server sent.
use mathlib.Core.List.{append_assoc, append-nil}
use linux_class.Common.{
  ℕ, zero, suc, ◌≤◌, ◌<◌, ◌^◌, ◌≡◌, refl, sym, ap, ◌∙◌, true, false, [], ◌∷◌, ◌++◌, some, arith,
  All, Bytes, codes, str_eq, print_nat, length, length-append, take, take_all, take_prefix,
  drop_prefix, leb, ◌==◌,
}
use linux_class.Common.Int.{pos}
use linux_class.Common.Decimal.{IsDigit, print_nat-digits, print_nat-length}
use linux_class.Protocol.Find.{is_space, skip_ws}
use linux_class.Protocol.Transport.{c_string}
use linux_class.Autosave.{Event, snapshot, save_now, log}
use linux_class.Autosave.Pipe.{
  header, payload_event, event_bytes, line, line_bytes, read_line_fd, read_exact, scan_word,
  scan_numbers, scan_header, Next, event, read_payload, after_line, next_event,
}
use linux_class.Autosave.Pipe.Scan.{scan_numbers-header}

-- No newline and no zero byte.
abbrev IsVisible : Bytes → Type 0
IsVisible = All (λ c. 0x20 ≤ c)

both : (xs ys : Bytes) → IsVisible xs → IsVisible ys → IsVisible (xs ++ ys)
both [] ys p q = q
both (x ∷ xs) ys (h, p) q = (h, both xs ys p q)

digits-IsVisible : (ds : Bytes) → All IsDigit ds → IsVisible ds
digits-IsVisible [] h = tt
digits-IsVisible (d ∷ ds) (h, hs) = (omega (arith, h), digits-IsVisible ds hs)

line_bytes-line :
    (room : ℕ) (h pipe acc : Bytes)
    → IsVisible h
    → length h < room
    → line_bytes room (h ++ (b'\n' ∷ pipe)) acc ≡ line (acc ++ h) pipe
unfolding line_bytes
line_bytes-line zero h pipe acc v l = elim l [ ]
line_bytes-line (suc room) [] pipe acc v l = ap (λ x. line x pipe) (sym (append-nil acc))
line_bytes-line (suc room) (c ∷ h) pipe acc (v, vs) l =
    let plain : (c == b'\n') ≡ false = ground (arith, v) in
    rw plain (
      line_bytes-line room h pipe (acc ++ c ∷ []) vs (omega arith)
      ∙ ap (λ x. line x pipe) (append_assoc acc (c ∷ []) h))

c_string-visible : (h : Bytes) → IsVisible h → c_string h ≡ h
unfolding c_string
c_string-visible [] v = refl
c_string-visible (c ∷ h) (v, vs) =
    let plain : (c == 0) ≡ false = ground (arith, v) in
    rw plain (ap (◌∷◌ c) (c_string-visible h vs))

-- What `sscanf` and `strcmp` say of a header with this name.
record IsName (name : Bytes) : Type 0 where
  visible : IsVisible name
  short : length name ≤ 8
  scanned : (text : Bytes) → scan_header (name ++ (b' ' ∷ text)) ≡ scan_numbers name (b' ' ∷ text)
  no_stop : (text : Bytes) → str_eq (name ++ (b' ' ∷ text)) (codes "STOP") ≡ false

names : (IsName (codes "SNAPSHOT")) × (IsName (codes "SAVE_NOW")) × (IsName (codes "LOG"))
unfolding scan_header scan_word skip_ws is_space str_eq
names = (
  record {
    visible = omega arith;
    short = omega arith;
    scanned = λ text. refl;
    no_stop = λ text. refl;
  },
  record {
    visible = omega arith;
    short = omega arith;
    scanned = λ text. refl;
    no_stop = λ text. refl;
  },
  record {
    visible = omega arith;
    short = omega arith;
    scanned = λ text. refl;
    no_stop = λ text. refl;
  },
)

-- A header without its newline.
abbrev title : Bytes → ℕ → ℕ → Bytes
title name version len = name ++ (b' ' ∷ (print_nat version ++ (b' ' ∷ print_nat len)))

title-IsVisible :
    (name : Bytes) (version len : ℕ) → IsVisible name → IsVisible (title name version len)
title-IsVisible name version len v = both name _ v (
  omega arith,
  both (print_nat version) _ (digits-IsVisible _ (print_nat-digits version))
      (omega arith, digits-IsVisible _ (print_nat-digits len)),
)

title-length :
    (name : Bytes) (version len : ℕ)
    → length name ≤ 8
    → version < 2 ^ 31
    → len < 2 ^ 64
    → length (title name version len) ≤ 40
title-length name version len s v l = omega (
  arith,
  length-append name (b' ' ∷ (print_nat version ++ (b' ' ∷ print_nat len))),
  length-append (print_nat version) (b' ' ∷ print_nat len),
  print_nat-length 10 version,
  print_nat-length 20 len,
)

header-title :
    (name : Bytes) (version len : ℕ)
    → length (title name version len) ≤ 40
    → header name version len ≡ title name version len ++ b'\n' ∷ []
unfolding header
header-title name version len l =
    let whole : name ++ (b' ' ∷ (print_nat version ++ (b' ' ∷ (print_nat len ++ b'\n' ∷ []))))
        ≡ title name version len ++ b'\n' ∷ [] =
      simp append_assoc in
    ap (take 127) whole
    ∙ take_all 127 (title name version len ++ b'\n' ∷ [])
        (omega (arith, l, length-append (title name version len) (b'\n' ∷ [])))

read_exact-append :
    (content rest : Bytes) → read_exact (content ++ rest) (length content) ≡ some (content, rest)
unfolding read_exact
read_exact-append content rest =
    let fits : leb (length content) (length (content ++ rest)) ≡ true =
      ground (arith, length-append content rest) in
    rw (fits, take_prefix content rest, drop_prefix content rest) refl

title-event :
    (name content rest : Bytes) (version : ℕ)
    → IsName name
    → after_line (line (title name version (length content)) (content ++ rest))
      ≡ event name (pos version) content rest
unfolding after_line read_payload
title-event name content rest version n =
    let numbers = b' ' ∷ (print_nat version ++ (b' ' ∷ print_nat (length content))) in
    rw
      (
        c_string-visible (name ++ numbers)
            (title-IsVisible name version (length content) n.visible),
        n.no_stop (print_nat version ++ (b' ' ∷ print_nat (length content))),
      )
      (rw
        (
          n.scanned (print_nat version ++ (b' ' ∷ print_nat (length content))),
          scan_numbers-header name version (length content),
        )
        (rw (read_exact-append content rest, read_payload) refl))

payload_event-event :
    (name content rest : Bytes) (version : ℕ)
    → IsName name
    → version < 2 ^ 31
    → length content < 2 ^ 64
    → next_event (payload_event name content version ++ rest)
      ≡ event name (pos version) content rest
unfolding next_event payload_event read_line_fd
payload_event-event name content rest version n v l =
    let t = title name version (length content) in
    let short = title-length name version (length content) n.short v l in
    let bytes : (header name version (length content) ++ content) ++ rest
        ≡ t ++ (b'\n' ∷ (content ++ rest)) =
      ap (λ h. (h ++ content) ++ rest) (header-title name version (length content) short)
      ∙ simp append_assoc in
    ap (λ x. after_line (line_bytes 127 x [])) bytes
    ∙ ap after_line (
        line_bytes-line 127 t (content ++ rest) []
          (title-IsVisible name version (length content) n.visible) (omega (arith, short)))
    ∙ title-event name content rest version n

-- What the child makes of an event.
abbrev pub sent_as : Event → Bytes → Next
sent_as (snapshot content version) rest = event (codes "SNAPSHOT") (pos version) content rest
sent_as (save_now content version) rest = event (codes "SAVE_NOW") (pos version) content rest
sent_as (log entry) rest = event (codes "LOG") (pos 0) entry rest

-- The version is an `int` that is not negative, the payload's length a `size_t`.
abbrev pub Fits : Event → Type 0
Fits (snapshot content version) = (version < 2 ^ 31) × (length content < 2 ^ 64)
Fits (save_now content version) = (version < 2 ^ 31) × (length content < 2 ^ 64)
Fits (log entry) = length entry < 2 ^ 64

-- Every event that the server writes is read by the child with its name, its version and its whole
-- payload, whatever bytes that has, and what was written behind it is left in the pipe.
pub next_event-event_bytes :
    (e : Event) (rest : Bytes) → Fits e → next_event (event_bytes e ++ rest) ≡ sent_as e rest
unfolding event_bytes
next_event-event_bytes (snapshot content version) rest (v, l) =
    payload_event-event (codes "SNAPSHOT") content rest version names.0 v l
next_event-event_bytes (save_now content version) rest (v, l) =
    payload_event-event (codes "SAVE_NOW") content rest version names.1 v l
next_event-event_bytes (log entry) rest l =
    payload_event-event (codes "LOG") entry rest 0 names.2 (omega arith) l
