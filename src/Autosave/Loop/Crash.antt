-- ===== src/Autosave/Loop/Crash.antt =====
-- What the document's file holds at each moment of the process that saves.
use linux_class.Common.{
  ◌≡◌, ◌≢◌, refl, sym, subst, ◌∙◌, true, false, Bool, List, [], ◌∷◌, ◌++◌, Option, none, some, All,
  Bytes, codes,
}
use linux_class.Autosave.{Event, snapshot, save_now, log}
use linux_class.Autosave.Files.{
  Disk, World, suffix_path, atomic_write_text, write_with_backup, append_json_log,
}
use linux_class.Autosave.Files.Ends.{Ends}
use linux_class.Autosave.Files.Whole.{append_json_log-Safe, atomic-Safe, write_with_backup-Safe}
use linux_class.Autosave.Loop.{
  Child, autosave_path, log_to, on_snapshot, on_save_now, write_latest, log_latest, periodic_save,
  timer, turn, autosave_loop,
}
use linux_class.Autosave.Pipe.{event_bytes, stop_bytes}
use linux_class.Autosave.Loop.Events.{obey, IsSent, turn-obey, turn-stop, timer-pipe, obey-pipe}

-- The log, the autosave file and the spare files are other files than the document's.
pub record Apart (document_path log_path : Bytes) : Type 0 where
  pub logs : document_path ≢ log_path
  pub tmp : document_path ≢ suffix_path document_path (codes ".tmp")
  pub bak : document_path ≢ suffix_path document_path (codes ".bak")
  pub autosave : document_path ≢ suffix_path document_path (codes ".autosave")
  pub autosave_tmp :
      document_path ≢ suffix_path (suffix_path document_path (codes ".autosave")) (codes ".tmp")

-- The text of a save is allowed.
abbrev pub Saves : (Option Bytes → Type 0) → Event → Type 0
Saves P (snapshot content version) = Unit
Saves P (save_now content version) = P (some content)
Saves P (log entry) = Unit

module _ (P : Option Bytes → Type 0) (Always : Disk → Type 0) (path logs : Bytes)
    (i : (d : Disk) → P (d path) → Always d) (apart : Apart path logs) where
  -- A child with these paths, in whose file something allowed was at each moment.
  pub record Sound (s : Child) : Type 0 where
    pub document : s.document_path ≡ path
    pub log : s.log_path ≡ logs
    pub now : P (s.world.disk path)
    pub past : All Always s.world.seen

  after-Ends :
      (r : Bool × World)
      → Ends (λ d. P (d path)) (λ d. P (d path)) Always r
      → P (r.1.disk path) × All Always r.1.seen
  after-Ends (true, w) e = (e.good refl, e.always)
  after-Ends (false, w) e = (e.bad refl, e.always)

  pub log_to-Sound : (s : Child) (entry : Bytes) → Sound s → Sound (log_to s entry)
  unfolding log_to
  log_to-Sound s entry h =
      let away : path ≢ s.log_path = λ e. apart.logs (e ∙ h.log) in
      let (now, past) =
        after-Ends (append_json_log s.log_path entry s.world)
          (append_json_log-Safe P path Always i s.log_path away entry s.world h.now h.past) in
      record { document = h.document; log = h.log; now = now; past = past }

  pub write_latest-Sound : (o : Option Bytes) (s : Child) → Sound s → Sound (write_latest o s)
  unfolding write_latest autosave_path
  write_latest-Sound none s h = h
  write_latest-Sound (some content) s h =
      let autosave = suffix_path s.document_path (codes ".autosave") in
      let away : path ≢ autosave =
        subst (λ p. path ≢ suffix_path p (codes ".autosave")) (sym h.document) apart.autosave in
      let spare : path ≢ suffix_path autosave (codes ".tmp") =
        subst (λ p. path ≢ suffix_path (suffix_path p (codes ".autosave")) (codes ".tmp"))
          (sym h.document) apart.autosave_tmp in
      let (now, past) =
        after-Ends (atomic_write_text autosave content s.world)
          (atomic-Safe P path Always i autosave away content spare s.world h.now h.past) in
      record { document = h.document; log = h.log; now = now; past = past }

  log_latest-Sound : (o : Option Bytes) (s : Child) → Sound s → Sound (log_latest o s)
  unfolding log_latest
  log_latest-Sound none s h = h
  log_latest-Sound (some content) s h = log_to-Sound s _ h

  pub timer-Sound : (due : Bool) (s : Child) → Sound s → Sound (timer due s)
  unfolding timer periodic_save
  timer-Sound true s h =
      log_latest-Sound s.latest_content _ (write_latest-Sound s.latest_content s h)
  timer-Sound false s h = h

  obey-Sound : (e : Event) (s : Child) → Saves P e → Sound s → Sound (obey e s)
  unfolding obey on_snapshot on_save_now
  obey-Sound (snapshot content version) s a h = record {
    document = h.document;
    log = h.log;
    now = h.now;
    past = h.past;
  }
  obey-Sound (log entry) s a h = log_to-Sound s entry h
  obey-Sound (save_now content version) s a h =
      let ends =
        write_with_backup-Safe P path Always i content a apart.tmp apart.bak s.world h.now h.past in
      let (now, past) = after-Ends (write_with_backup s.document_path content s.world) (
        subst
          (λ p.
            Ends (λ d. P (d path)) (λ d. P (d path)) Always (write_with_backup p content s.world))
          (sym h.document) ends) in
      log_to-Sound _ _ (record { document = h.document; log = h.log; now = now; past = past })

turn_idle : (due : Bool) (s : Child) → turn false due s ≡ (true, timer due s)
unfolding turn
turn_idle due s = refl

sent_due : (e : Event) (due : Bool) → IsSent (e, false) → IsSent (e, due)
sent_due (snapshot content version) due h = h
sent_due (save_now content version) due h = h
sent_due (log entry) due h = h

-- What the server writes to the pipe.
abbrev pub sent_bytes : List Event → Bytes
sent_bytes [] = stop_bytes
sent_bytes (e ∷ es) = event_bytes e ++ sent_bytes es

-- Each event fits, and the text of each save is allowed.
abbrev pub Orders : (Option Bytes → Type 0) → List Event → Type 0
Orders P = All (λ (e : Event). IsSent (e, false) × Saves P e)

module _ (P : Option Bytes → Type 0) (path logs : Bytes) (apart : Apart path logs) where
  -- Something allowed is in the file now, and was after each call.
  abbrev pub Kept : Child → Type 0
  Kept = Sound P (λ d. P (d path)) path logs (λ d h. h) apart

  turned-Kept :
      (e : Event) (due : Bool) (rest : Bytes) (s : Child)
      → Saves P e
      → Kept s
      → Kept (timer due (obey e (record s { pipe = rest })))
  turned-Kept e due rest s a h =
      timer-Sound P (λ d. P (d path)) path logs (λ d h. h) apart due _
        (obey-Sound P (λ d. P (d path)) path logs (λ d h. h) apart e _ a
          (record { document = h.document; log = h.log; now = h.now; past = h.past }))

  -- In each turn the pipe may be readable or not, and the time of the next save may have come or not. However many turns there
  -- are, while the process obeys any events of the server up to STOP, whichever calls of the system fail, and after each of
  -- them, the document's file holds something allowed, where what it held at first is allowed, the text of each save that is
  -- asked for is, and the log, the autosave file and the spare files are other files.
  pub autosave_loop-Kept :
      (turns : List (Bool × Bool)) (es : List Event) (s : Child)
      → Orders P es
      → s.pipe ≡ sent_bytes es
      → Kept s
      → Kept (autosave_loop turns s).1
  unfolding autosave_loop
  autosave_loop-Kept [] es s o p h = h
  autosave_loop-Kept ((false, due) ∷ turns) es s o p h = rw (turn_idle due s) (
      autosave_loop-Kept turns es (timer due s) o (timer-pipe due s ∙ p)
        (timer-Sound P (λ d. P (d path)) path logs (λ d h. h) apart due s h))
  autosave_loop-Kept ((true, due) ∷ turns) [] s o p h =
      rw (turn-stop due s p)
        (write_latest-Sound P (λ d. P (d path)) path logs (λ d h. h) apart s.latest_content s h)
  autosave_loop-Kept ((true, due) ∷ turns) (e ∷ es) s ((sent, saves), o) p h =
      let s' = timer due (obey e (record s { pipe = sent_bytes es })) in
      rw (turn-obey e due (sent_bytes es) s (sent_due e due sent) p) (
        autosave_loop-Kept turns es s' o
          (timer-pipe due (obey e (record s { pipe = sent_bytes es }))
            ∙ obey-pipe e (record s { pipe = sent_bytes es }))
          (turned-Kept e due (sent_bytes es) s saves h))
