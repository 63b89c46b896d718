-- ===== src/Autosave/Files/Atomic.antt =====
-- `ts_atomic_write_text` replaces a file as a whole.
use linux_class.Common.{
  ℕ, ◌+◌, ◌≤◌, ◌<◌, ◌≡◌, ◌≢◌, ◌⊎◌, inl, inr, refl, sym, ap, subst, ◌∙◌, [], ◌++◌, Option, none,
  some, arith, All, Bytes, codes, str_eq_iff, length, length-append, take, take_all,
}
use linux_class.Autosave.Files.{
  Disk, World, call, same, write, move, and_then, write_and_move, suffix_path, mkdir_parent,
  atomic_write_text,
}
use linux_class.Autosave.Files.Ends.{Ends, call-Ends, then-Ends, mkdir_parent-Ends}

-- A file, and the files that are not spare ones, against the disk before.
pub record Old (before : Disk) (path : Bytes) (Spare : Bytes → Type 0) (d : Disk) : Type 0 where
  pub file : d path ≡ before path
  pub others : (q : Bytes) → q ≢ path → ¬ Spare q → d q ≡ before q

pub record New (before : Disk) (path text : Bytes) (Spare : Bytes → Type 0) (d : Disk)
    : Type 0 where
  pub file : d path ≡ some text
  pub others : (q : Bytes) → q ≢ path → ¬ Spare q → d q ≡ before q

pub write-other :
    (path q : Bytes) (content : Option Bytes) (d : Disk) → q ≢ path → write path content d q ≡ d q
write-other path q content d n = ground (arith, str_eq_iff q path)

pub write_self :
    (path : Bytes) (content : Option Bytes) (d : Disk) → write path content d path ≡ content
write_self path content d = ground (arith, str_eq_iff path path)

module _ (before : Disk) (path text : Bytes) (Spare : Bytes → Type 0) (kept : ¬ Spare path) where
  abbrev pub OldNow : Disk → Type 0
  OldNow = Old before path Spare

  abbrev pub NewNow : Disk → Type 0
  NewNow = New before path text Spare

  abbrev pub Always : Disk → Type 0
  Always d = OldNow d ⊎ NewNow d

  not_spare : (q spare : Bytes) → Spare spare → ¬ Spare q → q ≢ spare
  not_spare q spare h n e = n (subst Spare (sym e) h)

  -- What is written to a spare file is not seen.
  pub spare-Old :
      (spare : Bytes) (content : Option Bytes) (d : Disk)
      → Spare spare
      → OldNow d
      → OldNow (write spare content d)
  spare-Old spare content d p h = record {
    file = write-other spare path content d (not_spare path spare p kept) ∙ h.file;
    others = λ q a b. write-other spare q content d (not_spare q spare p b) ∙ h.others q a b;
  }

  -- A call that changes a spare file at most.
  pub spare-Ends :
      (spare : Bytes) (good : Disk → Disk) (bad : ℕ → Disk → Disk) (w : World)
      → OldNow (good w.disk)
      → ((k : ℕ) → OldNow (bad k w.disk))
      → All Always w.seen
      → Ends OldNow OldNow Always (call good bad w)
  spare-Ends spare good bad w g b s =
      call-Ends OldNow OldNow Always good bad w g (inl g) (λ k. (b k, inl (b k))) s

  module _ (tmp : Bytes) (is_spare : Spare tmp) where
    moved-New : (d : Disk) → OldNow d → d tmp ≡ some text → NewNow (move tmp path d)
    moved-New d h e = record {
      file =
          write-other tmp path none (write path (d tmp) d) (not_spare path tmp is_spare kept)
          ∙ write_self path (d tmp) d
          ∙ e;
      others = λ q a b.
          write-other tmp q none (write path (d tmp) d) (not_spare q tmp is_spare b)
          ∙ write-other path q (d tmp) d a
          ∙ h.others q a b;
    }

    abbrev Ready : Disk → Type 0
    Ready d = OldNow d × (d tmp ≡ some text)

    write_and_move-Ends :
        (w : World)
        → OldNow w.disk
        → All Always w.seen
        → Ends NewNow OldNow Always (write_and_move tmp path text w)
    unfolding write_and_move
    write_and_move-Ends w o s =
        then-Ends OldNow NewNow OldNow Always _ _ w
          (call-Ends OldNow OldNow Always (write tmp (some [])) (λ k. same) w
            (spare-Old tmp (some []) w.disk is_spare o)
            (inl (spare-Old tmp (some []) w.disk is_spare o)) (λ k. (o, inl o)) s)
          (λ w1 o1 s1.
            then-Ends Ready NewNow OldNow Always _ _ w1
              (call-Ends Ready OldNow Always (write tmp (some text))
                (λ k. write tmp (some (take k text))) w1
                (spare-Old tmp (some text) w1.disk is_spare o1, write_self tmp (some text) w1.disk)
                (inl (spare-Old tmp (some text) w1.disk is_spare o1))
                (λ k. (
                  spare-Old tmp (some (take k text)) w1.disk is_spare o1,
                  inl (spare-Old tmp (some (take k text)) w1.disk is_spare o1),
                ))
                s1)
              (λ w2 o2 s2.
                then-Ends Ready NewNow OldNow Always _ _ w2
                  (call-Ends Ready OldNow Always same (λ k. write tmp (some (take k text))) w2 o2
                    (inl o2.0)
                    (λ k. (
                      spare-Old tmp (some (take k text)) w2.disk is_spare o2.0,
                      inl (spare-Old tmp (some (take k text)) w2.disk is_spare o2.0),
                    ))
                    s2)
                  (λ w3 o3 s3.
                    call-Ends NewNow OldNow Always (move tmp path) (λ k. same) w3
                      (moved-New w3.disk o3.0 o3.1) (inr (moved-New w3.disk o3.0 o3.1))
                      (λ k. (o3.0, inl o3.0)) s3)))

    pub atomic-Ends :
        (w : World)
        → OldNow w.disk
        → All Always w.seen
        → Ends NewNow OldNow Always (and_then (mkdir_parent path) (write_and_move tmp path text) w)
    atomic-Ends w o s =
        then-Ends OldNow NewNow OldNow Always (mkdir_parent path) (write_and_move tmp path text) w
          (mkdir_parent-Ends OldNow Always path w (λ d x. inl x) o s) write_and_move-Ends

-- A path that leaves room for the suffix differs from the suffixed one.
pub suffix-ne :
    (path suffix : Bytes)
    → 0 < length suffix
    → length path + length suffix ≤ 4095
    → path ≢ suffix_path path suffix
unfolding suffix_path
suffix-ne path suffix p h e = absurd (
    omega (
      arith,
      p,
      ap length (e ∙ take_all 4095 (path ++ suffix) (omega (arith, length-append path suffix))),
      length-append path suffix,
    ))

-- Whichever calls of the system fail, and after each of them, the file at the path holds either what it held before or the whole new text,
-- and no other file than the one with `.tmp` differs. It holds the new text when 0 is returned, and the old when -1 is.
pub atomic_write_text-Ends :
    (path text : Bytes) (w : World)
    → length path ≤ 4091
    → w.seen ≡ []
    → Ends
        (New w.disk path text (λ q. q ≡ suffix_path path (codes ".tmp")))
        (Old w.disk path (λ q. q ≡ suffix_path path (codes ".tmp")))
        (λ d.
          Old w.disk path (λ q. q ≡ suffix_path path (codes ".tmp")) d
          ⊎ New w.disk path text (λ q. q ≡ suffix_path path (codes ".tmp")) d)
        (atomic_write_text path text w)
unfolding atomic_write_text
atomic_write_text-Ends path text w l e =
    atomic-Ends w.disk path text (λ q. q ≡ suffix_path path (codes ".tmp"))
      (suffix-ne path (codes ".tmp") (omega arith) (omega (arith, l)))
      (suffix_path path (codes ".tmp")) refl w (record { file = refl; others = λ q a b. refl })
      (rw e tt)
