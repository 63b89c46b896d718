-- ===== src/Tests/Threads.antt =====
-- The threads of the server, at concrete inputs.
use linux_class.Common.{List, Bytes, ◌∷◌, [], str_eq, ◌≡◌, refl, codes, some}
use linux_class.Server.{choose_client_id, client_id_exists}
use linux_class.Events.{atoi, parsed_or_zero}
use linux_class.Protocol.Find.{strtol, to_int}
use linux_class.Common.Int.{pos}
use linux_class.Server.Dispatch.{Server, send_event}
use linux_class.Server.Threads.{
  Task, chooses, registers, join_tasks, welcome_tasks, perform, System, accepts, acts, Schedule,
  start, next,
}
use linux_class.Server.Threads.Interleave.{Steady}
use linux_class.Server.Start.{
  contents, parse_str_arg, parse_int_arg, arg_loop, parse_options, start_server,
  start_server-Steady,
}
use linux_class.Tests.Dispatches.{caller, bob, join_as_ann}

abbrev arguments : List Bytes
arguments = codes "server" ∷ codes "--port" ∷ codes "80" ∷ codes "--history" ∷ codes "10" ∷ []

abbrev started : Server
started = start_server arguments (contents (codes "ab"))

options :
    ((parse_options arguments).history_limit ≡ pos 10)
    × ((parse_options arguments).document_path ≡ codes "shared.c")
unfolding parse_options parse_int_arg parse_str_arg arg_loop str_eq atoi parsed_or_zero strtol
    to_int
options = (refl, refl)

-- "ann" and "bob" connect at the same time: "bob" chooses an identifier first, and "ann" is on the list first.
abbrev both : System
both = record {
  server = started;
  threads =
      join_tasks bob (record join_as_ann { client_id = codes "bob" })
      ∷ join_tasks caller join_as_ann
      ∷ [];
}

connected : Schedule (record { server = started; threads = [] }) both
connected =
    next _ _ _ (next _ _ _ (start _) (accepts _ _ caller join_as_ann refl)) (accepts _ _ bob _ refl)

-- What a step of a thread leaves behind.
abbrev Stepped : Task → Server → Type 0
Stepped task s = (t : Server) × (more : List Task) × (perform task s ≡ some (t, more))

bob_chose : Stepped (chooses bob (codes "bob")) started
unfolding start_server send_event perform choose_client_id client_id_exists str_eq
bob_chose = (_, _, refl)

ann_chose : Stepped (chooses caller (codes "ann")) bob_chose.0
unfolding bob_chose start_server send_event perform choose_client_id client_id_exists str_eq
    welcome_tasks
ann_chose = (_, _, refl)

ann_listed : Stepped (registers (record caller { client_id = codes "ann" })) ann_chose.0
unfolding ann_chose perform
ann_listed = (_, _, refl)

raced : (y : System) × Schedule (record { server = started; threads = [] }) y
unfolding bob_chose ann_chose join_tasks welcome_tasks
raced = (
  _,
  next _ _ _
      (next _ _ _ (next _ _ _ connected (acts _ _ [] _ _ _ _ bob_chose.2))
        (acts _ _ (_ ∷ []) [] _ _ _ ann_chose.2))
      (acts _ _ (_ ∷ []) [] _ _ _ ann_listed.2),
)

start_server-Steady_example : Steady raced.0
start_server-Steady_example = start_server-Steady arguments (contents (codes "ab")) raced.0 raced.1
