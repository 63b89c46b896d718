-- ===== src/Tests/Autosaves.antt =====
-- The autosave process, at concrete inputs.
use linux_class.Autosave.Loop.Last.{autosave_loop_saves}
use linux_class.Autosave.Loop.Crash.{Apart, sent_bytes, Kept, autosave_loop-Kept}
use linux_class.Common.{
  inl, inr, Option, ◌≡◌, ◌⊎◌, refl, List, [], ◌∷◌, some, none, Bool, true, false, Bytes, codes,
  arith, fit, str_eq, if◌then◌else◌, All,
}
use linux_class.Common.Int.{pos}
use linux_class.Autosave.{Event, snapshot, save_now, log}
use linux_class.Autosave.Files.{
  Disk, works, fails, World, suffix_path, write_with_backup, directories, before_slash,
}
use linux_class.Autosave.Files.Ends.{Ends}
use linux_class.Autosave.Files.Atomic.{Old, New}
use linux_class.Autosave.Files.Backup.{Beside, write_with_backup-Ends}
use linux_class.Autosave.Files.Short.{write_with_backup_loses}
use linux_class.Autosave.Loop.{Child, write_latest, autosave_loop}
use linux_class.Autosave.Loop.Events.{obey_all, written, turns_for, IsSent, autosave_loop-obeys}

abbrev doc : Bytes
doc = codes "doc.txt"

abbrev disk : Disk
disk path = if str_eq path doc then some (codes "old") else none

-- The second call stops after two bytes.
abbrev world : World
world = record { disk = disk; replies = works ∷ fails 2 ∷ []; seen = [] }

write_with_backup-Ends_example :
    Ends
      (New disk doc (codes "new") (Beside doc))
      (Old disk doc (Beside doc))
      (λ d. Old disk doc (Beside doc) d ⊎ New disk doc (codes "new") (Beside doc) d)
      (write_with_backup doc (codes "new") world)
write_with_backup-Ends_example = write_with_backup-Ends doc (codes "new") world (omega arith) refl

no_directories : directories (before_slash (fit 4096 doc)) ≡ []
unfolding directories before_slash
no_directories = refl

there : disk doc ≡ some (codes "old")
unfolding str_eq
there = refl

write_with_backup_loses_example :
    (w : World) × (write_with_backup doc
        (codes "new")
        (record { disk = disk; replies = works ∷ works ∷ fails 0 ∷ []; seen = [] })
      ≡ (true, w))
    × (w.disk doc ≡ some (codes "new"))
    × (w.disk (suffix_path doc (codes ".bak")) ≡ some [])
write_with_backup_loses_example =
    write_with_backup_loses doc (codes "new") (codes "old") disk (omega arith) no_directories there

-- A snapshot, with the timer behind it, an entry of the log, and the end.
abbrev events : List (Event × Bool)
events =
    (snapshot (codes "one") 1, true)
    ∷ (log (codes "{}"), false)
    ∷ (save_now (codes "two") 2, false)
    ∷ []

abbrev child : Child
child = record {
  document_path = doc;
  log_path = codes "log.jsonl";
  latest_content = none;
  latest_version = pos 0;
  pipe = written events;
  world = world;
}

texts : All IsSent events
texts = (
  ((omega arith, omega arith), (omega arith, (omega arith, (omega arith, tt)))),
  (
    (omega arith, (omega arith, (omega arith, tt))),
    (((omega arith, omega arith), (omega arith, (omega arith, (omega arith, tt)))), tt),
  ),
)

autosave_loop-obeys_example :
    autosave_loop (turns_for events) child
    ≡ (false, write_latest (obey_all events child).latest_content (obey_all events child))
autosave_loop-obeys_example = autosave_loop-obeys events child texts refl

-- The old text, or the one that is saved.
abbrev OldOrTwo : Option Bytes → Type 0
OldOrTwo o = (o ≡ some (codes "old")) ⊎ (o ≡ some (codes "two"))

doc-Apart : Apart doc (codes "log.jsonl")
unfolding suffix_path
doc-Apart = record {
  logs = λ e. cc;
  tmp = λ e. cc;
  bak = λ e. cc;
  autosave = λ e. cc;
  autosave_tmp = λ e. cc;
}

-- Nothing comes at first, and a periodic save falls between the events.
abbrev turns : List (Bool × Bool)
turns = (false, false) ∷ (true, false) ∷ (false, true) ∷ (true, false) ∷ (true, true) ∷ []

abbrev orders : List Event
orders = snapshot (codes "one") 1 ∷ save_now (codes "two") 2 ∷ []

abbrev patient : Child
patient = record child { pipe = sent_bytes orders }

patient-Kept : Kept OldOrTwo doc (codes "log.jsonl") doc-Apart patient
unfolding str_eq
patient-Kept = record { document = refl; log = refl; now = inl refl; past = tt }

autosave_loop-Kept_example :
    Kept OldOrTwo doc (codes "log.jsonl") doc-Apart (autosave_loop turns patient).1
autosave_loop-Kept_example =
    autosave_loop-Kept OldOrTwo doc (codes "log.jsonl") doc-Apart turns orders patient
      ((texts.0, tt), ((texts.1.1.0, inr refl), tt)) refl patient-Kept

abbrev fine_child : Child
fine_child = record child { world = record { disk = disk; replies = []; seen = [] } }

autosave_loop_saves_example :
    ((autosave_loop (turns_for events) fine_child).0 ≡ false)
    × ((autosave_loop (turns_for events) fine_child).1.world.disk doc ≡ some (codes "two"))
autosave_loop_saves_example =
    autosave_loop_saves ((snapshot (codes "one") 1, true) ∷ (log (codes "{}"), false) ∷ [])
      (codes "two") 2 false fine_child doc-Apart texts refl refl
