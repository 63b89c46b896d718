-- ===== src/Document/Log.antt =====
-- `build_operation_log` of document.c: one JSON line; the client's strings are not escaped.
use linux_class.Common.{ℕ, [], ◌++◌, Bytes, codes, fit, print_nat}
use linux_class.Common.Int.{ℤ, print_int}
use linux_class.Operation.{OpKind, insert, Operation, kind_name}

-- The three `%s` that only an insertion fills.
unfoldable pub char_field : OpKind → Bytes → Bytes
char_field insert ch = codes ",\"char\":\"" ++ (ch ++ codes "\"")
char_field _ ch = []

unfoldable pub log_operation : Operation → Bytes
unfolding char_field kind_name print_nat
log_operation op =
    codes "{\"kind\":\""
    ++ (kind_name op.kind
        ++ (codes "\",\"pos\":" ++ (print_nat op.pos ++ (char_field op.kind op.ch ++ codes "}"))))

-- The line before it is cut to the buffer of 4096 bytes.
unfoldable pub log_line : ℕ → Bytes → Bytes → ℤ → Operation → Operation → ℕ → Bytes
unfolding log_operation print_int print_nat
log_line server_version client_id op_id base_version original transformed content_length =
    codes "{\"event\":\"operation\",\"server_version\":"
    ++ (print_nat server_version
        ++ (codes ",\"client_id\":\""
            ++ (client_id
                ++ (codes "\",\"op_id\":\""
                    ++ (op_id
                        ++ (codes "\",\"base_version\":"
                            ++ (print_int base_version
                                ++ (codes ",\"original_op\":"
                                    ++ (log_operation original
                                        ++ (codes ",\"transformed_op\":"
                                            ++ (log_operation transformed
                                                ++ (codes ",\"content_length\":"
                                                    ++ (print_nat content_length
                                                        ++ codes "}")))))))))))))

unfoldable pub build_operation_log : ℕ → Bytes → Bytes → ℤ → Operation → Operation → ℕ → Bytes
unfolding log_line
build_operation_log server_version client_id op_id base_version original transformed
      content_length =
    fit 4096
      (log_line server_version client_id op_id base_version original transformed content_length)
