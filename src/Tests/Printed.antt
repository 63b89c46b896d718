-- ===== src/Tests/Printed.antt =====
-- Lines of the terminal, at concrete inputs.
use linux_class.Common.{◌≡◌, [], codes, some, fit, arith, length, ◌≤◌, print_nat}
use linux_class.Common.Int.{pos, print_int}
use linux_class.Operation.{insert, Operation, kind_name}
use linux_class.Document.Log.{log_operation, char_field, log_line, build_operation_log}
use linux_class.Events.{format_server_event}
use linux_class.Events.Edits.{edit_line, Plain, edits-printed}

-- Typed at 3 by "ann", when somebody else had typed two characters before it.
abbrev typed : Operation
typed = record { kind = insert; pos = 3; ch = codes "x"; reason = [] }

abbrev moved : Operation
moved = record { kind = insert; pos = 5; ch = codes "x"; reason = [] }

typed-Plain : Plain (codes "ann") (codes "ann-1") typed moved
typed-Plain = record {
  id_plain = omega arith;
  id_fits = omega arith;
  id_other = λ e. cc;
  op_id_plain = omega arith;
  op_id_other = λ e. cc;
  original_plain = omega arith;
  original_other = λ e. cc;
  ch_plain = omega arith;
  ch_fits = omega arith;
}

fits : length (log_line 12 (codes "ann") (codes "ann-1") (pos 10) typed moved 40) ≤ 4095
unfolding log_line log_operation char_field print_int print_nat kind_name
fits = omega arith

edits-printed_example :
    format_server_event
      (some (build_operation_log 12 (codes "ann") (codes "ann-1") (pos 10) typed moved 40))
      512
    ≡ fit 512 (edit_line 12 (codes "ann") 10 insert 5 (codes "x"))
edits-printed_example =
    edits-printed 12 (codes "ann") (codes "ann-1") 10 typed moved 40 512 typed-Plain (omega arith)
      (omega arith) (omega arith) fits
