-- ===== src/Autosave/Files/Whole.antt =====
-- What a file holds while other files, or the file itself, are written.
use linux_class.Common.{
  ℕ, zero, suc, ◌≡◌, ◌≢◌, refl, sym, subst, ◌∙◌, true, false, Bool, [], ◌∷◌, ◌++◌, Option, none,
  some, All, Bytes, codes, length, take, drop,
}
use linux_class.Autosave.Files.{
  Disk, World, Action, call, same, write, held, add, move, and_then, suffix_path, mkdir_parent,
  write_and_move, atomic_write_text, copy_block, block_read, copy_blocks, copy_file, backup_if,
  write_with_backup, print_line, append_json_log,
}
use linux_class.Autosave.Files.Ends.{Ends, return-Ends, call-Ends, then-Ends, mkdir_parent-Ends}
use linux_class.Autosave.Files.Atomic.{write-other, write_self}

module _ (P : Option Bytes → Type 0) (path : Bytes) (Always : Disk → Type 0)
    (i : (d : Disk) → P (d path) → Always d) where
  -- What the file at the path holds is allowed. `Always` is what is asked for after each call.
  abbrev pub Allowed : Disk → Type 0
  Allowed d = P (d path)

  -- An action during which it stays so, whichever calls fail.
  abbrev pub Safe : Action → Type 0
  Safe a = (w : World) → Allowed w.disk → All Always w.seen → Ends Allowed Allowed Always (a w)

  then-Safe : (a b : Action) → Safe a → Safe b → Safe (and_then a b)
  then-Safe a b h k w p s = then-Ends Allowed Allowed Allowed Always a b w (h w p s) k

  call-Safe :
      (good : Disk → Disk) (bad : ℕ → Disk → Disk)
      → ((d : Disk) → Allowed d → Allowed (good d))
      → ((k : ℕ) (d : Disk) → Allowed d → Allowed (bad k d))
      → Safe (call good bad)
  call-Safe good bad g b w p s =
      call-Ends Allowed Allowed Always good bad w (g w.disk p) (i (good w.disk) (g w.disk p))
        (λ k. (b k w.disk p, i (bad k w.disk) (b k w.disk p))) s

  other-Allowed :
      (q : Bytes) (content : Option Bytes) (d : Disk)
      → path ≢ q
      → Allowed d
      → Allowed (write q content d)
  other-Allowed q content d n p = subst P (sym (write-other q path content d n)) p

  mkdir-Safe : (p : Bytes) → Safe (mkdir_parent p)
  mkdir-Safe p w h s = mkdir_parent-Ends Allowed Always p w i h s

  -- Another file.
  module _ (p : Bytes) (apart : path ≢ p) where
    pub append_json_log-Safe : (entry : Bytes) → Safe (append_json_log p entry)
    unfolding append_json_log print_line
    append_json_log-Safe entry = then-Safe (mkdir_parent p) _ (mkdir-Safe p) (
        then-Safe (call (add p []) (λ k. same)) _
          (call-Safe (add p []) (λ k. same) (λ d. other-Allowed p _ d apart) (λ k d h. h))
          (λ w h s.
            let line = entry ++ b'\n' ∷ [] in
            let printed =
              call-Safe (add p line) (λ k. add p (take k line)) (λ d. other-Allowed p _ d apart)
                (λ k d. other-Allowed p _ d apart) w h s in
            closed (call (add p line) (λ k. add p (take k line)) w) printed))
      where
        closed :
            (r : Bool × World)
            → Ends Allowed Allowed Always r
            → Ends Allowed Allowed Always (call same (λ k. same) r.1)
        closed (true, v) e =
            call-Safe same (λ k. same) (λ d h. h) (λ k d h. h) v (e.good refl) e.always
        closed (false, v) e =
            call-Safe same (λ k. same) (λ d h. h) (λ k d h. h) v (e.bad refl) e.always

    pub atomic-Safe :
        (text : Bytes) → path ≢ suffix_path p (codes ".tmp") → Safe (atomic_write_text p text)
    unfolding atomic_write_text write_and_move
    atomic-Safe text n =
        let tmp = suffix_path p (codes ".tmp") in
        then-Safe (mkdir_parent p) _ (mkdir-Safe p) (
          then-Safe (call (write tmp (some [])) (λ k. same)) _
            (call-Safe (write tmp (some [])) (λ k. same) (λ d. other-Allowed tmp _ d n)
              (λ k d h. h))
            (then-Safe (call (write tmp (some text)) (λ k. write tmp (some (take k text)))) _
              (call-Safe (write tmp (some text)) (λ k. write tmp (some (take k text)))
                (λ d. other-Allowed tmp _ d n) (λ k d. other-Allowed tmp _ d n))
              (then-Safe (call same (λ k. write tmp (some (take k text)))) _
                (call-Safe same (λ k. write tmp (some (take k text))) (λ d h. h)
                  (λ k d. other-Allowed tmp _ d n))
                (call-Safe (move tmp p) (λ k. same)
                  (λ d h.
                    other-Allowed tmp none (write p (d tmp) d) n
                      (other-Allowed p (d tmp) d apart h))
                  (λ k d h. h)))))

  -- A copy to another file.
  module _ (dst : Bytes) (apart : path ≢ dst) where
    block-Safe : (block : Bytes) (more : Action) → Safe more → Safe (copy_block dst block more)
    unfolding copy_block
    block-Safe [] more h = λ w p s. return-Ends Allowed Allowed Always w p s
    block-Safe (c ∷ block) more h =
        then-Safe (call (add dst (c ∷ block)) (λ k. add dst (take k (c ∷ block)))) more
          (call-Safe (add dst (c ∷ block)) (λ k. add dst (take k (c ∷ block)))
            (λ d. other-Allowed dst _ d apart) (λ k d. other-Allowed dst _ d apart))
          h

    read-Safe :
        (block : Bytes) (more : Action) (r : Bool × World)
        → Safe more
        → Ends Allowed Allowed Always r
        → Ends Allowed Allowed Always (block_read dst block more r)
    unfolding block_read
    read-Safe block more (true, w) k h = block-Safe block more k w (h.good refl) h.always
    read-Safe block more (false, w) k h = return-Ends Allowed Allowed Always w (h.bad refl) h.always

    blocks-Safe : (fuel : ℕ) (content : Bytes) → Safe (copy_blocks fuel dst content)
    unfolding copy_blocks
    blocks-Safe zero content w p s = return-Ends Allowed Allowed Always w p s
    blocks-Safe (suc fuel) content w p s =
        read-Safe (take 8192 content) (copy_blocks fuel dst (drop 8192 content))
          (call same (λ k. same) w) (blocks-Safe fuel (drop 8192 content))
          (call-Safe same (λ k. same) (λ d h. h) (λ k d h. h) w p s)

    copy_file-Safe : (src : Bytes) → Safe (copy_file src dst)
    unfolding copy_file
    copy_file-Safe src =
        then-Safe (call same (λ k. same)) _ (call-Safe same (λ k. same) (λ d h. h) (λ k d h. h)) (
          then-Safe (call (write dst (some [])) (λ k. same)) _
            (call-Safe (write dst (some [])) (λ k. same) (λ d. other-Allowed dst _ d apart)
              (λ k d h. h))
            (λ w. blocks-Safe (suc (length (held (w.disk src)))) (held (w.disk src)) w))

  -- The file itself.
  module _ (text : Bytes) (allowed : P (some text))
      (n : path ≢ suffix_path path (codes ".tmp")) where
    moved-Allowed :
        (tmp : Bytes) (d : Disk) → path ≢ tmp → d tmp ≡ some text → Allowed (move tmp path d)
    moved-Allowed tmp d apart e =
        other-Allowed tmp none (write path (d tmp) d) apart
          (subst P (sym (write_self path (d tmp) d ∙ e)) allowed)

    replaced-Safe : Safe (atomic_write_text path text)
    unfolding atomic_write_text write_and_move
    replaced-Safe =
        let tmp = suffix_path path (codes ".tmp") in
        let Ready : Disk → Type 0 = λ d. Allowed d × (d tmp ≡ some text) in
        then-Safe (mkdir_parent path) _ (mkdir-Safe path) (
          then-Safe (call (write tmp (some [])) (λ k. same)) _
            (call-Safe (write tmp (some [])) (λ k. same) (λ d. other-Allowed tmp _ d n)
              (λ k d h. h))
            (λ w p s.
              then-Ends Ready Allowed Allowed Always _ _ w
                (call-Ends Ready Allowed Always (write tmp (some text))
                  (λ k. write tmp (some (take k text))) w
                  (other-Allowed tmp _ w.disk n p, write_self tmp (some text) w.disk)
                  (i _ (other-Allowed tmp (some text) w.disk n p))
                  (λ k. (
                    other-Allowed tmp _ w.disk n p,
                    i _ (other-Allowed tmp (some (take k text)) w.disk n p),
                  ))
                  s)
                (λ v q t.
                  then-Ends Ready Allowed Allowed Always _ _ v
                    (call-Ends Ready Allowed Always same (λ k. write tmp (some (take k text))) v q
                      (i v.disk q.0)
                      (λ k. (
                        other-Allowed tmp _ v.disk n q.0,
                        i _ (other-Allowed tmp (some (take k text)) v.disk n q.0),
                      ))
                      t)
                    (λ u r z.
                      call-Ends Allowed Allowed Always (move tmp path) (λ k. same) u
                        (moved-Allowed tmp u.disk n r.1) (i _ (moved-Allowed tmp u.disk n r.1))
                        (λ k. (r.0, i u.disk r.0)) z))))

    backup-Safe :
        (o : Option Bytes) → path ≢ suffix_path path (codes ".bak") → Safe (backup_if o path)
    unfolding backup_if
    backup-Safe none b = λ w p s. return-Ends Allowed Allowed Always w p s
    backup-Safe (some old) b = copy_file-Safe (suffix_path path (codes ".bak")) b path

    pub write_with_backup-Safe :
        path ≢ suffix_path path (codes ".bak") → Safe (write_with_backup path text)
    unfolding write_with_backup
    write_with_backup-Safe b = then-Safe (mkdir_parent path) _ (mkdir-Safe path) (
        then-Safe (λ w. backup_if (w.disk path) path w) _ (λ w. backup-Safe (w.disk path) b w)
          replaced-Safe)
