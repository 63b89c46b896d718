-- ===== src/Autosave.antt =====
-- autosave.c: the process that writes the document and the log to files. The server sends it events
-- through a pipe.
pub mod Pipe
pub mod Files
pub mod Loop
use linux_class.Common.{ℕ, [], Option, none, some, Bytes}

-- `content ? content : ""`.
abbrev pub payload : Option Bytes → Bytes
payload none = []
payload (some content) = content

-- What the server sends.
pub data Event : Type 0 where
  snapshot save_now : Bytes → ℕ → Event
  log : Bytes → Event
