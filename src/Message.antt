-- ===== src/Message.antt =====
-- `TsMessage` of termsync.h, and `ts_message_init` of protocol.c.
use linux_class.Common.{Bool, false, [], Option, none, Bytes}
use linux_class.Common.Int.{ℤ, unset}
use linux_class.Operation.{invalid, Operation}

-- The content is a pointer: `none` is null.
pub record Message : Type 0 where
  pub type : Bytes
  pub client_id : Bytes
  pub op_id : Bytes
  pub message : Bytes
  pub reason : Bytes
  pub base_version : ℤ
  pub server_version : ℤ
  pub version : ℤ
  pub history_start_version : ℤ
  pub op : Operation
  pub original_op : Operation
  pub has_op : Bool
  pub has_original_op : Bool
  pub content : Option Bytes

-- A zeroed operation.
abbrev pub operation_zero : Operation
operation_zero = record { kind = invalid; pos = 0; ch = []; reason = [] }

abbrev pub message_init : Message
message_init = record {
  type = [];
  client_id = [];
  op_id = [];
  message = [];
  reason = [];
  base_version = unset;
  server_version = unset;
  version = unset;
  history_start_version = unset;
  op = operation_zero;
  original_op = operation_zero;
  has_op = false;
  has_original_op = false;
  content = none;
}
