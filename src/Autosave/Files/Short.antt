-- ===== src/Autosave/Files/Short.antt =====
-- A backup that is cut short.
use linux_class.Common.{
  ◌≤◌, ◌≡◌, ◌≢◌, sym, ap, ◌∙◌, true, [], ◌∷◌, ◌++◌, some, arith, Bytes, codes, str_eq, str_eq_iff,
  fit, length, length-append, take_all, cons_inj,
}
use linux_class.Autosave.Files.{
  Disk, works, fails, World, after, answer, call, continue, write, move, and_then, write_and_move,
  suffix_path, directories, before_slash, mkdir_all, mkdir_parent, atomic_write_text, block_read,
  copy_blocks, copy_file, backup_if, write_with_backup,
}
use linux_class.Autosave.Files.Atomic.{suffix-ne}

bak_tmp : codes ".bak" ≢ codes ".tmp"
unfolding str_eq
bak_tmp e = ground (arith, (str_eq_iff (codes ".bak") (codes ".tmp")).1 e)

suffixes_differ :
    (path : Bytes)
    → length path ≤ 4091
    → suffix_path path (codes ".bak") ≢ suffix_path path (codes ".tmp")
unfolding suffix_path
suffixes_differ path l e =
    let whole : path ++ codes ".bak" ≡ path ++ codes ".tmp" =
      sym
        (take_all 4095 (path ++ codes ".bak") (omega (arith, l, length-append path (codes ".bak"))))
      ∙ e
      ∙ take_all 4095 (path ++ codes ".tmp")
          (omega (arith, l, length-append path (codes ".tmp"))) in
    tails path whole
  where
    tails : (xs : Bytes) → xs ++ codes ".bak" ≡ xs ++ codes ".tmp" → ⊥
    tails [] h = bak_tmp h
    tails (x ∷ xs) h = tails xs (cons_inj h).1

module _ (path bak tmp text old : Bytes) (d : Disk) where
  -- The disk behind the last call.
  abbrev final : Disk
  final = move tmp path (write tmp (some text) (write tmp (some []) (write bak (some []) d)))

  final_bak : bak ≢ tmp → bak ≢ path → final bak ≡ some []
  final_bak a b = ground (arith, str_eq_iff bak tmp, str_eq_iff bak path, str_eq_iff bak bak)

  final_path : path ≢ tmp → final path ≡ some text
  final_path a = ground (arith, str_eq_iff path tmp, str_eq_iff path path, str_eq_iff tmp tmp)

-- When no directory has to be made, and the first read of the old file fails, the call returns 0 all the same: the
-- file has the new text, and the backup is empty, so that the old text is lost.
pub write_with_backup_loses :
    (path text old : Bytes) (d : Disk)
    → length path ≤ 4091
    → directories (before_slash (fit 4096 path)) ≡ []
    → d path ≡ some old
    → (w : World) × (write_with_backup path text
          (record { disk = d; replies = works ∷ works ∷ fails 0 ∷ []; seen = [] })
        ≡ (true, w))
      × (w.disk path ≡ some text)
      × (w.disk (suffix_path path (codes ".bak")) ≡ some [])
unfolding write_with_backup and_then continue backup_if copy_file call answer after copy_blocks
    block_read atomic_write_text write_and_move mkdir_parent mkdir_all
write_with_backup_loses path text old d l dirs here =
    let start : World = record { disk = d; replies = works ∷ works ∷ fails 0 ∷ []; seen = [] } in
    let bak = suffix_path path (codes ".bak") in
    let tmp = suffix_path path (codes ".tmp") in
    let no_dirs : (w : World) → mkdir_parent path w ≡ (true, w) =
      λ w. ap (λ ds. mkdir_all ds w) dirs in
    (
      _,
      ap
            (λ r.
              continue r
                (and_then (λ w. backup_if (w.disk path) path w) (atomic_write_text path text)))
            (no_dirs start)
          ∙ ap (λ o. continue (backup_if o path start) (atomic_write_text path text)) here
          ∙ ap (λ r. continue r (write_and_move tmp path text)) (no_dirs _),
      final_path path bak tmp text old d
          (suffix-ne path (codes ".tmp") (omega arith) (omega (arith, l))),
      final_bak path bak tmp text old d (suffixes_differ path l)
          (λ e. suffix-ne path (codes ".bak") (omega arith) (omega (arith, l)) (sym e)),
    )
