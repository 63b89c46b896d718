-- ===== src/Autosave/Loop.antt =====
-- autosave.c: the loop of the child process. One turn is given whether `select` found the pipe readable,
-- and whether the time of the next save has come when the turn ends.
pub mod Events
pub mod Crash
pub mod Last
use linux_class.Common.{
  ℕ, ◌+◌, Bool, true, false, List, [], ◌∷◌, ◌++◌, Option, none, some, Bytes, codes, str_eq, fit,
  if◌then◌else◌,
}
use linux_class.Common.Int.{ℤ, pos, print_int}
use linux_class.Protocol.Transport.{c_string}
use linux_class.Autosave.Pipe.{Next, event, stop, bad_header, ended, next_event}
use linux_class.Autosave.Files.{
  World, suffix_path, atomic_write_text, write_with_backup, append_json_log,
}

pub record Child : Type 0 where
  pub document_path : Bytes
  pub log_path : Bytes
  pub latest_content : Option Bytes
  pub latest_version : ℤ
  pub pipe : Bytes
  pub world : World

unfoldable pub autosave_path : Child → Bytes
autosave_path s = suffix_path s.document_path (codes ".autosave")

-- An entry of the log, in a buffer of PATH_MAX + 160 bytes.
unfoldable pub save_entry : Bytes → ℤ → Bytes → Bytes
save_entry name version path = fit 4256 (
    codes "{\"event\":\""
    ++ (name
        ++ (codes "\",\"version\":"
            ++ (print_int version ++ (codes ",\"path\":\"" ++ (path ++ codes "\"}"))))))

unfoldable pub log_to : Child → Bytes → Child
log_to s entry = record s { world = (append_json_log s.log_path entry s.world).1 }

unfoldable pub on_snapshot : Child → ℤ → Bytes → Child
on_snapshot s version payload = record s { latest_content = some payload; latest_version = version }

unfoldable pub on_save_now : Child → ℤ → Bytes → Child
on_save_now s version payload =
    let saved = record s {
      latest_content = some payload;
      latest_version = version;
      world = (write_with_backup s.document_path payload s.world).1;
    } in
    log_to saved (save_entry (codes "manual_save") version s.document_path)

unfoldable pub on_event : Child → Bytes → ℤ → Bytes → Child
on_event s name version payload =
    if str_eq name (codes "SNAPSHOT")
    then on_snapshot s version payload
    else if str_eq name (codes "SAVE_NOW")
    then on_save_now s version payload
    else if str_eq name (codes "LOG")
    then log_to s payload
    else s

-- `ts_atomic_write_text(autosave_path, latest_content)`, if there is one.
unfoldable pub write_latest : Option Bytes → Child → Child
write_latest none s = s
write_latest (some content) s = record s {
  world = (atomic_write_text (autosave_path s) content s.world).1;
}

unfoldable pub log_latest : Option Bytes → Child → Child
log_latest none s = s
log_latest (some content) s =
    log_to s (save_entry (codes "autosave") s.latest_version (autosave_path s))

unfoldable pub periodic_save : Child → Child
periodic_save s = log_latest s.latest_content (write_latest s.latest_content s)

unfoldable pub timer : Bool → Child → Child
timer due s = if due then periodic_save s else s

-- A turn, and whether the loop goes on. The payload is used as a C string.
unfoldable pub on_next : Next → Bool → Child → Bool × Child
on_next stop due s = (false, write_latest s.latest_content s)
on_next ended due s = (false, s)
on_next (bad_header rest) due s = (true, record s { pipe = rest })
on_next (event name version payload rest) due s =
    (true, timer due (on_event (record s { pipe = rest }) name version (c_string payload)))

unfoldable pub turn : Bool → Bool → Child → Bool × Child
turn ready due s = if ready then on_next (next_event s.pipe) due s else (true, timer due s)

-- The loop over given turns, and whether it goes on behind them.
unfoldable pub autosave_loop : List (Bool × Bool) → Child → Bool × Child
autosave_loop [] s = (true, s)
autosave_loop ((ready, due) ∷ turns) s =
    let r = turn ready due s in let rest = autosave_loop turns r.1 in if r.0 then rest else r
