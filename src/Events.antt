-- ===== src/Events.antt =====
-- events.c: log entries as lines for the server's terminal.
pub mod Search
pub mod Sessions
pub mod Entry
pub mod Edits
use linux_class.Common.{
  ℕ, zero, suc, ◌-◌, Bool, true, false, List, [], ◌∷◌, ◌++◌, Option, none, some, Bytes, codes,
  str_eq, fit, ◌==◌, if◌then◌else◌,
}
use linux_class.Common.Int.{ℤ, pos, print_int}
use linux_class.Protocol.Find.{strip_prefix, strtol, to_int}

-- `json ? json : ""`.
abbrev pub source : Option Bytes → Bytes
source none = []
source (some json) = json

-- `strstr`, for a pattern that is not empty: the text from the first match on.
unfoldable pub strstr : Bytes → Bytes → Option Bytes
strstr [] pattern = none
strstr (c ∷ text) pattern = elim (strip_prefix pattern (c ∷ text)) [
  | some behind ↦ some (c ∷ text)
  | none ↦ strstr text pattern
]

-- The text behind the first match.
unfoldable pub behind_match : Bytes → Option Bytes → Option Bytes
behind_match pattern none = none
behind_match pattern (some text) = strip_prefix pattern text

-- The loop of `json_get_for_format`, with room for so many more bytes.
unfoldable pub copy_value : ℕ → Bytes → Bytes
copy_value zero text = []
copy_value (suc room) [] = []
copy_value (suc room) (c ∷ text) =
    let more = c ∷ copy_value room text in if c == b'"' then [] else more

unfoldable pub value_or_empty : ℕ → Option Bytes → Bytes
value_or_empty out_size none = []
value_or_empty out_size (some text) = copy_value (out_size - 1) text

unfoldable pub json_get_for_format : Option Bytes → Bytes → ℕ → Bytes
json_get_for_format json key out_size =
    let pattern = fit 96 (b'"' ∷ (key ++ codes "\":\"")) in
    value_or_empty out_size (behind_match pattern (strstr (source json) pattern))

-- `atoi`, which is 0 without digits; a number out of the range of `long` is undefined in C.
unfoldable pub parsed_or_zero : Option ℤ → ℤ
parsed_or_zero none = pos 0
parsed_or_zero (some n) = to_int n

unfoldable pub atoi : Bytes → ℤ
atoi text = parsed_or_zero (strtol text)

unfoldable pub int_or : ℤ → Option Bytes → ℤ
int_or fallback none = fallback
int_or fallback (some text) = atoi text

unfoldable pub json_int_for_format : Option Bytes → Bytes → ℤ → ℤ
json_int_for_format json key fallback =
    let pattern = fit 96 (b'"' ∷ (key ++ codes "\":")) in
    int_or fallback (behind_match pattern (strstr (source json) pattern))

-- `transformed ? transformed : entry_json`.
unfoldable pub or_entry : Option Bytes → Option Bytes → Option Bytes
or_entry none entry = entry
or_entry (some text) entry = some text

unfoldable pub format_operation_event : Option Bytes → ℕ → Bytes
format_operation_event entry out_size =
    let client_id = json_get_for_format entry (codes "client_id") 64 in
    let transformed = strstr (source entry) (codes "\"transformed_op\"") in
    let kind = json_get_for_format (or_entry transformed entry) (codes "kind") 32 in
    let ch = json_get_for_format (or_entry transformed entry) (codes "char") 8 in
    let version = json_int_for_format entry (codes "server_version") (pos 0) in
    let base = json_int_for_format entry (codes "base_version") (pos 0) in
    let at = json_int_for_format (or_entry transformed entry) (codes "pos") (pos 0) in
    if str_eq kind (codes "insert")
    then fit out_size (
        codes "OP v"
        ++ (print_int version
            ++ (codes " client="
                ++ (client_id
                    ++ (codes " insert pos="
                        ++ (print_int at
                            ++ (codes " char='"
                                ++ (ch ++ (codes "' base=" ++ print_int base)))))))))
    else fit out_size (
        codes "OP v"
        ++ (print_int version
            ++ (codes " client="
                ++ (client_id
                    ++ (codes " "
                        ++ ((if str_eq kind [] then codes "unknown" else kind)
                            ++ (codes " pos="
                                ++ (print_int at ++ (codes " base=" ++ print_int base)))))))))

-- `client_id` is null or not.
unfoldable pub save_event_named : Bytes → Bytes → ℤ → Bytes → ℕ → Bytes
save_event_named reason [] version path out_size = fit out_size (
    codes "SAVE "
    ++ (reason ++ (codes " version=" ++ (print_int version ++ (codes " file=" ++ path)))))
save_event_named reason (c ∷ client_id) version path out_size = fit out_size (
    codes "SAVE "
    ++ (reason
        ++ (codes " client="
            ++ ((c ∷ client_id)
                ++ (codes " version=" ++ (print_int version ++ (codes " file=" ++ path)))))))

unfoldable pub format_save_event : Bytes → Option Bytes → ℤ → Bytes → ℕ → Bytes
format_save_event reason client_id version path out_size =
    save_event_named reason (source client_id) version path out_size

unfoldable pub format_server_event : Option Bytes → ℕ → Bytes
format_server_event entry out_size =
    let event = json_get_for_format entry (codes "event") 32 in
    let client_id = json_get_for_format entry (codes "client_id") 64 in
    let address = json_get_for_format entry (codes "address") 128 in
    if str_eq event (codes "operation")
    then format_operation_event entry out_size
    else if str_eq event (codes "join")
    then fit out_size (codes "JOIN client=" ++ (client_id ++ (codes " address=" ++ address)))
    else if str_eq event (codes "leave")
    then fit out_size (codes "LEAVE client=" ++ client_id)
    else []
