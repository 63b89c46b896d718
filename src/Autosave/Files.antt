-- ===== src/Autosave/Files.antt =====
-- autosave.c: writing files. The disk says what each file holds; `replies` says how each call of the
-- system ends, and `seen` holds the disk after each call, which is what a crash would leave. Of the
-- directories only the calls of `mkdir` are modelled.
pub mod Ends
pub mod Atomic
pub mod Backup
pub mod Short
pub mod Whole
pub mod Works
use linux_class.Common.{
  ℕ, zero, suc, ◌+◌, ◌-◌, Bool, true, false, List, [], ◌∷◌, ◌++◌, Option, none, some, ◌>>=◌, Bytes,
  codes, str_eq, fit, length, take, drop, ◌==◌, if◌then◌else◌,
}

abbrev pub Disk : Type 0
Disk = Bytes → Option Bytes

-- A call works, or fails; a write that fails has written some bytes.
pub data Reply : Type 0 where
  works : Reply
  fails : ℕ → Reply

pub record World : Type 0 where
  pub disk : Disk
  pub replies : List Reply
  pub seen : List Disk

-- A function returns 0 (true) or -1.
abbrev pub Action : Type 0
Action = World → Bool × World

unfoldable pub after : Disk → List Reply → World → World
after d replies w = record { disk = d; replies = replies; seen = w.seen ++ d ∷ [] }

-- A call of the system: what it does if it works, and if it fails. Without a reply it works.
unfoldable pub answer : List Reply → (Disk → Disk) → (ℕ → Disk → Disk) → Action
answer [] good bad w = (true, after (good w.disk) [] w)
answer (works ∷ rs) good bad w = (true, after (good w.disk) rs w)
answer (fails k ∷ rs) good bad w = (false, after (bad k w.disk) rs w)

unfoldable pub call : (Disk → Disk) → (ℕ → Disk → Disk) → Action
call good bad w = answer w.replies good bad w

-- `if (a != 0) return -1;` and then `b`.
unfoldable pub continue : Bool × World → Action → Bool × World
continue (true, w) b = b w
continue (false, w) b = (false, w)

unfoldable pub and_then : Action → Action → Action
and_then a b w = continue (a w) b

abbrev pub same : Disk → Disk
same d = d

abbrev pub write : Bytes → Option Bytes → Disk → Disk
write path content d q = if str_eq q path then content else d q

abbrev pub held : Option Bytes → Bytes
held none = []
held (some bytes) = bytes

abbrev pub add : Bytes → Bytes → Disk → Disk
add path bytes d = write path (some (held (d path) ++ bytes)) d

-- `strrchr(copy, '/')`, and the text before it.
unfoldable pub before_slash : Bytes → Option Bytes
before_slash [] = none
before_slash (c ∷ cs) = elim (before_slash cs) [
  | some before ↦ some (c ∷ before)
  | none ↦ if c == b'/' then some [] else none
]

-- The directories above a directory, `acc` being behind the first byte of its name.
unfoldable pub above : Bytes → Bytes → List Bytes
above acc [] = acc ∷ []
above acc (c ∷ cs) = (if c == b'/' then acc ∷ [] else []) ++ above (acc ++ c ∷ []) cs

unfoldable pub directories : Option Bytes → List Bytes
directories none = []
directories (some []) = []
directories (some (c ∷ cs)) = above (c ∷ []) cs

-- `mkdir`; a directory that is there counts as made.
unfoldable pub mkdir_all : List Bytes → Action
mkdir_all [] w = (true, w)
mkdir_all (dir ∷ dirs) w = and_then (call same (λ k. same)) (mkdir_all dirs) w

unfoldable pub mkdir_parent : Bytes → Action
mkdir_parent path = mkdir_all (directories (before_slash (fit 4096 path)))

-- `suffix_path`.
unfoldable pub suffix_path : Bytes → Bytes → Bytes
suffix_path path suffix = fit 4096 (path ++ suffix)

-- `rename`.
abbrev pub move : Bytes → Bytes → Disk → Disk
move from to d = write from none (write to (d from) d)

-- `ts_atomic_write_text`: `fopen`, `fwrite`, `fclose`, `rename`. A close that fails has lost bytes.
unfoldable pub write_and_move : Bytes → Bytes → Bytes → Action
write_and_move tmp path text = and_then (call (write tmp (some [])) (λ k. same)) (
    and_then (call (write tmp (some text)) (λ k. write tmp (some (take k text)))) (
      and_then (call same (λ k. write tmp (some (take k text))))
        (call (move tmp path) (λ k. same))))

unfoldable pub atomic_write_text : Bytes → Bytes → Action
atomic_write_text path text =
    and_then (mkdir_parent path) (write_and_move (suffix_path path (codes ".tmp")) path text)

-- The loop of `copy_file`, by blocks of 8192 bytes: `fread`, and `fwrite` behind what is there. A
-- read that fails ends the loop as the end of the file does.
unfoldable pub copy_block : Bytes → Bytes → Action → Action
copy_block dst [] more w = (true, w)
copy_block dst (c ∷ block) more w =
    and_then (call (add dst (c ∷ block)) (λ k. add dst (take k (c ∷ block)))) more w

unfoldable pub block_read : Bytes → Bytes → Action → Bool × World → Bool × World
block_read dst block more (true, w) = copy_block dst block more w
block_read dst block more (false, w) = (true, w)

unfoldable pub copy_blocks : ℕ → Bytes → Bytes → Action
copy_blocks zero dst content w = (true, w)
copy_blocks (suc fuel) dst content w =
    block_read dst (take 8192 content) (copy_blocks fuel dst (drop 8192 content))
      (call same (λ k. same) w)

-- `copy_file`. The fuel is above the number of blocks; the results of `fclose` are not looked at.
unfoldable pub copy_file : Bytes → Bytes → Action
copy_file src dst = and_then (call same (λ k. same)) (
    and_then (call (write dst (some [])) (λ k. same))
      (λ w. copy_blocks (suc (length (held (w.disk src)))) dst (held (w.disk src)) w))

-- `access(path, F_OK) == 0`.
unfoldable pub backup_if : Option Bytes → Bytes → Action
backup_if none path w = (true, w)
backup_if (some old) path w = copy_file path (suffix_path path (codes ".bak")) w

-- `ts_write_with_backup`.
unfoldable pub write_with_backup : Bytes → Bytes → Action
write_with_backup path text =
    and_then (mkdir_parent path)
      (and_then (λ w. backup_if (w.disk path) path w) (atomic_write_text path text))

-- `ts_append_json_log`: `fopen`, `fprintf`, whose result is not looked at, and `fclose`.
unfoldable pub print_line : Bytes → Bytes → Action
print_line path entry w =
    let printed =
      call (add path (entry ++ b'\n' ∷ [])) (λ k. add path (take k (entry ++ b'\n' ∷ []))) w in
    call same (λ k. same) printed.1

unfoldable pub append_json_log : Bytes → Bytes → Action
append_json_log path entry =
    and_then (mkdir_parent path) (and_then (call (add path []) (λ k. same)) (print_line path entry))
