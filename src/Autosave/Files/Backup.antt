-- ===== src/Autosave/Files/Backup.antt =====
-- `ts_write_with_backup`: copy the file, then replace it.
use linux_class.Common.{
  ℕ, zero, suc, ◌≤◌, ◌≡◌, ◌⊎◌, inl, inr, refl, true, false, Bool, [], ◌∷◌, ◌++◌, Option, none, some,
  arith, All, Bytes, codes, length, take, drop,
}
use linux_class.Autosave.Files.{
  Disk, World, Action, call, same, write, held, add, suffix_path, mkdir_parent, atomic_write_text,
  copy_block, block_read, copy_blocks, copy_file, backup_if, write_with_backup,
}
use linux_class.Autosave.Files.Ends.{Ends, return-Ends, then-Ends, mkdir_parent-Ends}
use linux_class.Autosave.Files.Atomic.{
  Old, New, OldNow, NewNow, Always, spare-Old, spare-Ends, atomic-Ends, suffix-ne,
}

module _ (before : Disk) (path text : Bytes) (Spare : Bytes → Type 0) (kept : ¬ Spare path)
    (dst : Bytes) (is_spare : Spare dst) where
  abbrev Before : Disk → Type 0
  Before = OldNow before path text Spare kept

  abbrev Seen : Disk → Type 0
  Seen = Always before path text Spare kept

  abbrev Copies : Action → Type 0
  Copies a = (w : World) → Before w.disk → All Seen w.seen → Ends Before Before Seen (a w)

  to_dst : (content : Option Bytes) (d : Disk) → Before d → Before (write dst content d)
  to_dst content d h = spare-Old before path text Spare kept dst content d is_spare h

  block-Ends : (block : Bytes) (more : Action) → Copies more → Copies (copy_block dst block more)
  unfolding copy_block
  block-Ends [] more k w o s = return-Ends Before Before Seen w o s
  block-Ends (c ∷ block) more k w o s =
      then-Ends Before Before Before Seen _ more w
        (spare-Ends before path text Spare kept dst (add dst (c ∷ block))
          (λ n. add dst (take n (c ∷ block))) w
          (to_dst (some (held (w.disk dst) ++ (c ∷ block))) w.disk o)
          (λ n. to_dst (some (held (w.disk dst) ++ take n (c ∷ block))) w.disk o) s)
        k

  read-Ends :
      (block : Bytes) (more : Action) (r : Bool × World)
      → Copies more
      → Ends Before Before Seen r
      → Ends Before Before Seen (block_read dst block more r)
  unfolding block_read
  read-Ends block more (true, w) k h = block-Ends block more k w (h.good refl) h.always
  read-Ends block more (false, w) k h = return-Ends Before Before Seen w (h.bad refl) h.always

  blocks-Ends : (fuel : ℕ) (content : Bytes) → Copies (copy_blocks fuel dst content)
  unfolding copy_blocks
  blocks-Ends zero content w o s = return-Ends Before Before Seen w o s
  blocks-Ends (suc fuel) content w o s =
      read-Ends (take 8192 content) (copy_blocks fuel dst (drop 8192 content))
        (call same (λ k. same) w) (blocks-Ends fuel (drop 8192 content))
        (spare-Ends before path text Spare kept dst same (λ k. same) w o (λ k. o) s)

  copy_file-Ends : (src : Bytes) → Copies (copy_file src dst)
  unfolding copy_file
  copy_file-Ends src w o s =
      then-Ends Before Before Before Seen _ _ w
        (spare-Ends before path text Spare kept dst same (λ k. same) w o (λ k. o) s)
        (λ w1 o1 s1.
          then-Ends Before Before Before Seen _ _ w1
            (spare-Ends before path text Spare kept dst (write dst (some [])) (λ k. same) w1
              (to_dst (some []) w1.disk o1) (λ k. o1) s1)
            (λ w2 o2 s2.
              blocks-Ends (suc (length (held (w2.disk src)))) (held (w2.disk src)) w2 o2 s2))

-- The two files beside the path.
abbrev pub Beside : Bytes → Bytes → Type 0
Beside path q = (q ≡ suffix_path path (codes ".tmp")) ⊎ (q ≡ suffix_path path (codes ".bak"))

backup_if-Ends :
    (before : Disk) (path text : Bytes) (kept : ¬ Beside path path) (o : Option Bytes) (w : World)
    → OldNow before path text (Beside path) kept w.disk
    → All (Always before path text (Beside path) kept) w.seen
    → Ends
        (OldNow before path text (Beside path) kept)
        (OldNow before path text (Beside path) kept)
        (Always before path text (Beside path) kept)
        (backup_if o path w)
unfolding backup_if
backup_if-Ends before path text kept none w h s = return-Ends _ _ _ w h s
backup_if-Ends before path text kept (some old) w h s =
    copy_file-Ends before path text (Beside path) kept (suffix_path path (codes ".bak")) (inr refl)
      path w h s

not-Beside : (path : Bytes) → length path ≤ 4091 → ¬ Beside path path
not-Beside path l (inl e) = suffix-ne path (codes ".tmp") (omega arith) (omega (arith, l)) e
not-Beside path l (inr e) = suffix-ne path (codes ".bak") (omega arith) (omega (arith, l)) e

-- Whichever calls of the system fail, and after each of them, the saved file holds either what it held before or the
-- whole new text, and no other file than those with `.tmp` and `.bak` differs. It holds the new text when 0 is
-- returned, and the old when -1 is.
pub write_with_backup-Ends :
    (path text : Bytes) (w : World)
    → length path ≤ 4091
    → w.seen ≡ []
    → Ends
        (New w.disk path text (Beside path))
        (Old w.disk path (Beside path))
        (λ d. Old w.disk path (Beside path) d ⊎ New w.disk path text (Beside path) d)
        (write_with_backup path text w)
unfolding write_with_backup atomic_write_text
write_with_backup-Ends path text w l e =
    let kept = not-Beside path l in
    let Now = OldNow w.disk path text (Beside path) kept in
    let Then = NewNow w.disk path text (Beside path) kept in
    let Seen = Always w.disk path text (Beside path) kept in
    then-Ends Now Then Now Seen (mkdir_parent path) _ w
      (mkdir_parent-Ends Now Seen path w (λ d x. inl x)
        (record { file = refl; others = λ q a b. refl }) (rw e tt))
      (λ w1 o1 s1.
        then-Ends Now Then Now Seen (λ v. backup_if (v.disk path) path v) _ w1
          (backup_if-Ends w.disk path text kept (w1.disk path) w1 o1 s1)
          (λ w2 o2 s2.
            atomic-Ends w.disk path text (Beside path) kept (suffix_path path (codes ".tmp"))
              (inl refl) w2 o2 s2))
