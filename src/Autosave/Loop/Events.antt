-- ===== src/Autosave/Loop/Events.antt =====
-- The child does what the server's events say, in their order.

use linux_class.Common.{
  ◌≡◌, refl, ap, ◌∙◌, true, false, Bool, List, [], ◌∷◌, ◌++◌, Option, none, some, All, Bytes,
  str_eq,
}
use linux_class.Common.Int.{pos}
use linux_class.Protocol.Transport.{c_string}
use linux_class.Protocol.Transport.Link.{c_string-text}
use linux_class.Protocol.Json.RoundTrip.{IsText}
use linux_class.Autosave.{Event, snapshot, save_now, log}
use linux_class.Autosave.Pipe.{
  event_bytes, stop_bytes, stop, next_event, line_bytes, read_line_fd, after_line,
}
use linux_class.Autosave.Pipe.Framing.{Fits, next_event-event_bytes}
use linux_class.Autosave.Loop.{
  Child, log_to, on_snapshot, on_save_now, on_event, write_latest, log_latest, periodic_save, timer,
  on_next, turn, autosave_loop,
}

-- What an event asks for.
unfoldable pub obey : Event → Child → Child
obey (snapshot content version) s = on_snapshot s (pos version) content
obey (save_now content version) s = on_save_now s (pos version) content
obey (log entry) s = log_to s entry

abbrev pub written : List (Event × Bool) → Bytes
written [] = stop_bytes
written ((e, due) ∷ es) = event_bytes e ++ written es

-- Events, each with what the timer says behind it, and with the later ones still in the pipe.
unfoldable pub obey_all : List (Event × Bool) → Child → Child
obey_all [] s = s
obey_all ((e, due) ∷ es) s = obey_all es (timer due (obey e (record s { pipe = written es })))

abbrev pub turns_for : List (Event × Bool) → List (Bool × Bool)
turns_for [] = (true, false) ∷ []
turns_for ((e, due) ∷ es) = (true, due) ∷ turns_for es

-- The payload is a C string of a size, with an `int` for a version.
abbrev pub IsSent : Event × Bool → Type 0
IsSent (snapshot content version, due) = Fits (snapshot content version) × IsText content
IsSent (save_now content version, due) = Fits (save_now content version) × IsText content
IsSent (log entry, due) = Fits (log entry) × IsText entry

stop-next : next_event stop_bytes ≡ stop
unfolding next_event stop_bytes line_bytes read_line_fd after_line c_string str_eq
stop-next = refl

-- One event.
pub turn-obey :
    (e : Event) (due : Bool) (rest : Bytes) (s : Child)
    → IsSent (e, due)
    → s.pipe ≡ event_bytes e ++ rest
    → turn true due s ≡ (true, timer due (obey e (record s { pipe = rest })))
unfolding turn on_next obey on_event str_eq
turn-obey (snapshot content version) due rest s (f, t) p =
    rw (p, next_event-event_bytes (snapshot content version) rest f, c_string-text content t) refl
turn-obey (save_now content version) due rest s (f, t) p =
    rw (p, next_event-event_bytes (save_now content version) rest f, c_string-text content t) refl
turn-obey (log entry) due rest s (f, t) p =
    rw (p, next_event-event_bytes (log entry) rest f, c_string-text entry t) refl

-- Nothing but the reading changes the pipe.
latest-pipe : (o : Option Bytes) (s : Child) → (log_latest o (write_latest o s)).pipe ≡ s.pipe
unfolding log_latest write_latest log_to
latest-pipe none s = refl
latest-pipe (some content) s = refl

pub timer-pipe : (due : Bool) (s : Child) → (timer due s).pipe ≡ s.pipe
unfolding timer periodic_save
timer-pipe true s = latest-pipe s.latest_content s
timer-pipe false s = refl

pub obey-pipe : (e : Event) (s : Child) → (obey e s).pipe ≡ s.pipe
unfolding obey on_snapshot on_save_now log_to
obey-pipe (snapshot content version) s = refl
obey-pipe (save_now content version) s = refl
obey-pipe (log entry) s = refl

pub turn-stop :
    (due : Bool) (s : Child)
    → s.pipe ≡ stop_bytes
    → turn true due s ≡ (false, write_latest s.latest_content s)
unfolding turn on_next
turn-stop due s p = ap (λ x. on_next (next_event x) due s) p ∙ ap (λ n. on_next n due s) stop-next

-- When the pipe holds any events that the server sent and then its STOP, the child reads every event whole, does what
-- each asks for in their order, with the periodic saves between them that the timer wants, and then writes the latest
-- text to the autosave file and ends.
pub autosave_loop-obeys :
    (es : List (Event × Bool)) (s : Child)
    → All IsSent es
    → s.pipe ≡ written es
    → autosave_loop (turns_for es) s
      ≡ (false, write_latest (obey_all es s).latest_content (obey_all es s))
unfolding autosave_loop obey_all
autosave_loop-obeys [] s h p = rw (turn-stop false s p) refl
autosave_loop-obeys ((e, due) ∷ es) s (f, h) p =
    let s' = timer due (obey e (record s { pipe = written es })) in
    rw (turn-obey e due (written es) s f p) (
      autosave_loop-obeys es s' h (
        timer-pipe due (obey e (record s { pipe = written es }))
        ∙ obey-pipe e (record s { pipe = written es })))
