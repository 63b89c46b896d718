-- ===== src/Autosave/Files/Works.antt =====
-- Where no call of the system fails, a file that is replaced holds the new text.
use linux_class.Common.{
  ℕ, zero, suc, ◌≡◌, ◌≢◌, refl, ◌∙◌, true, false, Bool, List, [], ◌∷◌, ◌++◌, Option, none, some,
  Bytes, codes, fit, length, take, drop,
}
use linux_class.Autosave.Files.{
  Disk, World, Action, after, answer, continue, call, same, write, held, add, move, and_then,
  before_slash, directories, mkdir_all, suffix_path, mkdir_parent, write_and_move,
  atomic_write_text, copy_block, block_read, copy_blocks, copy_file, backup_if, write_with_backup,
  print_line, append_json_log,
}
use linux_class.Autosave.Files.Atomic.{write-other, write_self}

-- The calls that are left work.
abbrev pub Fine : World → Type 0
Fine w = w.replies ≡ []

abbrev pub Works : Action → Type 0
Works a = (w : World) → Fine w → ((a w).0 ≡ true) × Fine (a w).1

call-Works : (good : Disk → Disk) (bad : ℕ → Disk → Disk) → Works (call good bad)
unfolding call answer after
call-Works good bad w e = rw e (refl, refl)

continue_then :
    (r : Bool × World) (b : Action) (Q : Bool × World → Type 0)
    → (r.0 ≡ true) × Fine r.1
    → ((v : World) → Fine v → Q (b v))
    → Q (continue r b)
unfolding continue
continue_then (true, v) b Q (e, f) h = h v f
continue_then (false, v) b Q (e, f) h = cc

then-Works : (a b : Action) → Works a → Works b → Works (and_then a b)
unfolding and_then
then-Works a b h k w e = continue_then (a w) b (λ r. (r.0 ≡ true) × Fine r.1) (h w e) k

mkdir_all-Works : (dirs : List Bytes) → Works (mkdir_all dirs)
unfolding mkdir_all
mkdir_all-Works [] w e = (refl, e)
mkdir_all-Works (dir ∷ dirs) w e =
    then-Works (call same (λ k. same)) (mkdir_all dirs) (call-Works same (λ k. same))
      (mkdir_all-Works dirs) w e

mkdir-Works : (path : Bytes) → Works (mkdir_parent path)
unfolding mkdir_parent
mkdir-Works path = mkdir_all-Works (directories (before_slash (fit 4096 path)))

block-Works : (dst block : Bytes) (more : Action) → Works more → Works (copy_block dst block more)
unfolding copy_block
block-Works dst [] more h = λ w e. (refl, e)
block-Works dst (c ∷ block) more h =
    then-Works _ more (call-Works (add dst (c ∷ block)) (λ k. add dst (take k (c ∷ block)))) h

read-Works :
    (dst block : Bytes) (more : Action) (r : Bool × World)
    → Works more
    → (r.0 ≡ true) × Fine r.1
    → ((block_read dst block more r).0 ≡ true) × Fine (block_read dst block more r).1
unfolding block_read
read-Works dst block more (true, w) h (e, f) = block-Works dst block more h w f
read-Works dst block more (false, w) h (e, f) = cc

blocks-Works : (fuel : ℕ) (dst content : Bytes) → Works (copy_blocks fuel dst content)
unfolding copy_blocks
blocks-Works zero dst content w e = (refl, e)
blocks-Works (suc fuel) dst content w e =
    read-Works dst (take 8192 content) (copy_blocks fuel dst (drop 8192 content))
      (call same (λ k. same) w) (blocks-Works fuel dst (drop 8192 content))
      (call-Works same (λ k. same) w e)

backup-Works : (o : Option Bytes) (path : Bytes) → Works (backup_if o path)
unfolding backup_if copy_file
backup-Works none path = λ w e. (refl, e)
backup-Works (some old) path = then-Works (call same (λ k. same)) _ (call-Works same (λ k. same)) (
    then-Works (call (write (suffix_path path (codes ".bak")) (some [])) (λ k. same)) _
      (call-Works (write (suffix_path path (codes ".bak")) (some [])) (λ k. same))
      (λ w.
        blocks-Works (suc (length (held (w.disk path)))) (suffix_path path (codes ".bak"))
          (held (w.disk path)) w))

write_and_move_writes :
    (tmp path text : Bytes) (w : World)
    → path ≢ tmp
    → Fine w
    → (write_and_move tmp path text w).1.disk path ≡ some text
unfolding write_and_move and_then continue call answer after
write_and_move_writes tmp path text w n e =
    let d = write tmp (some text) (write tmp (some []) w.disk) in
    rw e (
      write-other tmp path none (write path (d tmp) d) n
      ∙ write_self path (d tmp) d
      ∙ write_self tmp (some text) (write tmp (some []) w.disk))

pub write_with_backup_writes :
    (path text : Bytes) (w : World)
    → path ≢ suffix_path path (codes ".tmp")
    → Fine w
    → (write_with_backup path text w).1.disk path ≡ some text
unfolding write_with_backup atomic_write_text and_then
write_with_backup_writes path text w n e =
    let Q : Bool × World → Type 0 = λ r. r.1.disk path ≡ some text in
    continue_then (mkdir_parent path w) _ Q (mkdir-Works path w e) (λ v f.
      continue_then (backup_if (v.disk path) path v) _ Q (backup-Works (v.disk path) path v f)
        (λ u g.
          continue_then (mkdir_parent path u) _ Q (mkdir-Works path u g)
            (λ z k. write_and_move_writes (suffix_path path (codes ".tmp")) path text z n k)))

pub atomic-Works : (path text : Bytes) → Works (atomic_write_text path text)
unfolding atomic_write_text write_and_move
atomic-Works path text =
    let tmp = suffix_path path (codes ".tmp") in
    then-Works (mkdir_parent path) _ (mkdir-Works path) (
      then-Works (call (write tmp (some [])) (λ k. same)) _
        (call-Works (write tmp (some [])) (λ k. same))
        (then-Works (call (write tmp (some text)) (λ k. write tmp (some (take k text)))) _
          (call-Works (write tmp (some text)) (λ k. write tmp (some (take k text))))
          (then-Works (call same (λ k. write tmp (some (take k text)))) _
            (call-Works same (λ k. write tmp (some (take k text))))
            (call-Works (move tmp path) (λ k. same)))))

pub write_with_backup-Works : (path text : Bytes) → Works (write_with_backup path text)
unfolding write_with_backup
write_with_backup-Works path text = then-Works (mkdir_parent path) _ (mkdir-Works path) (
    then-Works (λ w. backup_if (w.disk path) path w) _ (λ w. backup-Works (w.disk path) path w)
      (atomic-Works path text))

pub append_json_log-Works : (path entry : Bytes) → Works (append_json_log path entry)
unfolding append_json_log print_line
append_json_log-Works path entry =
    let line = entry ++ b'\n' ∷ [] in
    then-Works (mkdir_parent path) _ (mkdir-Works path) (
      then-Works (call (add path []) (λ k. same)) _ (call-Works (add path []) (λ k. same)) (λ w e.
        call-Works same (λ k. same) _
          (call-Works (add path line) (λ k. add path (take k line)) w e).1))
