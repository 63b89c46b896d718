-- ===== src/Autosave/Loop/Last.antt =====
-- The last save before STOP is what the document's file holds in the end.
use linux_class.Common.{
  ℕ, ◌≡◌, ◌≢◌, refl, sym, subst, ap, ◌∙◌, true, false, Bool, List, [], ◌∷◌, ◌++◌, Option, none,
  some, All, Bytes, codes,
}
use linux_class.Autosave.{Event, snapshot, save_now, log}
use linux_class.Autosave.Files.{suffix_path, Disk, write_with_backup}
use linux_class.Autosave.Files.Works.{
  Fine, append_json_log-Works, atomic-Works, write_with_backup-Works, write_with_backup_writes,
}
use linux_class.Autosave.Loop.{
  Child, autosave_path, log_to, on_snapshot, on_save_now, write_latest, log_latest, periodic_save,
  timer, autosave_loop,
}
use linux_class.Autosave.Loop.Events.{
  obey, obey_all, written, turns_for, IsSent, autosave_loop-obeys,
}
use linux_class.Autosave.Loop.Crash.{Apart, Sound, log_to-Sound, write_latest-Sound, timer-Sound}

-- What is asked for of the disk on the way.
abbrev Anything : Disk → Type 0
Anything d = Unit

module _ (path logs : Bytes) where
  -- A child with these paths, for which all calls work.
  record Ready (s : Child) : Type 0 where
    document : s.document_path ≡ path
    log : s.log_path ≡ logs
    fine : Fine s.world

  log_to-Ready : (s : Child) (entry : Bytes) → Ready s → Ready (log_to s entry)
  unfolding log_to
  log_to-Ready s entry h = record {
    document = h.document;
    log = h.log;
    fine = (append_json_log-Works s.log_path entry s.world h.fine).1;
  }

  write_latest-Ready : (o : Option Bytes) (s : Child) → Ready s → Ready (write_latest o s)
  unfolding write_latest
  write_latest-Ready none s h = h
  write_latest-Ready (some content) s h = record {
    document = h.document;
    log = h.log;
    fine = (atomic-Works (autosave_path s) content s.world h.fine).1;
  }

  log_latest-Ready : (o : Option Bytes) (s : Child) → Ready s → Ready (log_latest o s)
  unfolding log_latest
  log_latest-Ready none s h = h
  log_latest-Ready (some content) s h = log_to-Ready s _ h

  timer-Ready : (due : Bool) (s : Child) → Ready s → Ready (timer due s)
  unfolding timer periodic_save
  timer-Ready false s h = h
  timer-Ready true s h =
      log_latest-Ready s.latest_content (write_latest s.latest_content s)
        (write_latest-Ready s.latest_content s h)

  obey-Ready : (e : Event) (s : Child) → Ready s → Ready (obey e s)
  unfolding obey on_snapshot on_save_now
  obey-Ready (snapshot content version) s h = record {
    document = h.document;
    log = h.log;
    fine = h.fine;
  }
  obey-Ready (log entry) s h = log_to-Ready s entry h
  obey-Ready (save_now content version) s h = log_to-Ready _ _ (record {
    document = h.document;
    log = h.log;
    fine = (write_with_backup-Works s.document_path content s.world h.fine).1;
  })

  module _ (apart : Apart path logs) (text : Bytes) (version : ℕ) (due : Bool) where
    -- The file holds the text.
    abbrev Holds : Child → Type 0
    Holds = Sound (λ o. o ≡ some text) Anything path logs (λ d h. tt) apart

    all_seen : (ds : List Disk) → All Anything ds
    all_seen [] = tt
    all_seen (d ∷ ds) = (tt, all_seen ds)

    saved-Holds : (s : Child) → Ready s → Holds (obey (save_now text version) s)
    unfolding obey on_save_now
    saved-Holds s h =
        let apart_tmp = subst (λ p. p ≢ suffix_path p (codes ".tmp")) (sym h.document) apart.tmp in
        log_to-Sound (λ o. o ≡ some text) Anything path logs (λ d h. tt) apart _ _
          (record {
            document = h.document;
            log = h.log;
            now =
                ap (λ p. (write_with_backup s.document_path text s.world).1.disk p) (sym h.document)
                ∙ write_with_backup_writes s.document_path text s.world apart_tmp h.fine;
            past = all_seen (write_with_backup s.document_path text s.world).1.seen;
          })

    last-Holds :
        (es : List (Event × Bool)) (s : Child)
        → Ready s
        → Holds (obey_all (es ++ (save_now text version, due) ∷ []) s)
    unfolding obey_all
    last-Holds [] s h =
        timer-Sound (λ o. o ≡ some text) Anything path logs (λ d h. tt) apart due _
          (saved-Holds _ (record { document = h.document; log = h.log; fine = h.fine }))
    last-Holds ((e, d) ∷ es) s h = last-Holds es _ (
        timer-Ready d _
          (obey-Ready e _ (record { document = h.document; log = h.log; fine = h.fine })))

-- When the pipe holds any events of the server, then a save, and then STOP, and the calls of the system work, the process ends, and the
-- document's file holds the text of that save, where the log, the autosave file and the spare files are other files.
pub autosave_loop_saves :
    (es : List (Event × Bool)) (text : Bytes) (version : ℕ) (due : Bool) (s : Child)
    → Apart s.document_path s.log_path
    → All IsSent (es ++ (save_now text version, due) ∷ [])
    → s.pipe ≡ written (es ++ (save_now text version, due) ∷ [])
    → s.world.replies ≡ []
    → ((autosave_loop (turns_for (es ++ (save_now text version, due) ∷ [])) s).0 ≡ false)
      × ((autosave_loop (turns_for (es ++ (save_now text version, due) ∷ [])) s).1.world.disk
            s.document_path
          ≡ some text)
autosave_loop_saves es text version due s apart sent pipe fine =
    let all = es ++ (save_now text version, due) ∷ [] in
    let end = obey_all all s in
    let held =
      last-Holds s.document_path s.log_path apart text version due es s
        (record { document = refl; log = refl; fine = fine }) in
    let done =
      write_latest-Sound (λ o. o ≡ some text) Anything s.document_path s.log_path (λ d h. tt) apart
        end.latest_content end held in
    let e = autosave_loop-obeys all s sent pipe in
    (
      ap (λ (r : Bool × Child). r.0) e,
      ap (λ (r : Bool × Child). r.1.world.disk s.document_path) e ∙ done.now,
    )
