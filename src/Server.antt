-- ===== src/Server.antt =====
-- server.c: the list of connected clients. Each function holds `clients_lock` for all of its body.
pub mod Fresh
pub mod Distinct
pub mod Dispatch
pub mod Thread
pub mod Threads
pub mod Start
use linux_class.Common.{
  ℕ, zero, suc, ◌+◌, Bool, true, false, not, ◌&&◌, ◌||◌, List, [], ◌∷◌, ◌++◌, Option, none, some,
  Bytes, codes, str_eq, fit, length, print_nat, if◌then◌else◌,
}
use linux_class.Message.{Message}

-- `fd` is the descriptor of the transport, which tells open connections apart; `outbox` holds the
-- messages sent over it, in order.
pub record Connection : Type 0 where
  pub fd : ℕ
  pub client_id : Bytes
  pub address : Bytes
  pub outbox : List Message

pub record Registry : Type 0 where
  pub clients : List Connection
  pub next_client_number : ℕ

unfoldable pub client_id_exists : List Connection → Bytes → Bool
client_id_exists [] id = false
client_id_exists (c ∷ cs) id = str_eq c.client_id id || client_id_exists cs id

-- `u%d`; the digits of an `int` fit the buffer.
unfoldable pub numbered_id : ℕ → Bytes
numbered_id n = b'u' ∷ print_nat n

-- The `do` loop: the identifier and the next number.
unfoldable pub number_loop : ℕ → List Connection → ℕ → Option (Bytes × ℕ)
number_loop zero clients n = none
number_loop (suc fuel) clients n =
    let rest = number_loop fuel clients (suc n) in
    if client_id_exists clients (numbered_id n) then rest else some (numbered_id n, suc n)

choose_number : Registry → Option (Bytes × ℕ) → Option (Bytes × Registry)
choose_number r none = none
choose_number r (some (id, next)) = some (id, record r { next_client_number = next })

-- `choose_client_id`. The loop has one try more than there are clients.
unfoldable pub choose_client_id : Registry → Bytes → Option (Bytes × Registry)
unfolding choose_number
choose_client_id r requested =
    if not (str_eq requested []) && not (client_id_exists r.clients requested)
    then some (fit 64 requested, r)
    else choose_number r (number_loop (length r.clients + 1) r.clients r.next_client_number)

unfoldable pub register_client : Registry → Connection → Registry
register_client r c = record r { clients = c ∷ r.clients }

unfoldable pub remove_client : List Connection → Bytes → List Connection
remove_client [] id = []
remove_client (c ∷ cs) id = if str_eq c.client_id id then cs else c ∷ remove_client cs id

unfoldable pub unregister_client : Registry → Bytes → Registry
unfolding remove_client
unregister_client r id = record r { clients = remove_client r.clients id }

unfoldable pub is_excluded : Option Bytes → Bytes → Bool
is_excluded none id = false
is_excluded (some exclude) id = str_eq id exclude

unfoldable pub send_all : List Connection → Message → Option Bytes → List Connection
unfolding is_excluded
send_all [] m exclude = []
send_all (c ∷ cs) m exclude =
    (if is_excluded exclude c.client_id then c else record c { outbox = c.outbox ++ m ∷ [] })
    ∷ send_all cs m exclude

unfoldable pub broadcast_message : Registry → Message → Option Bytes → Registry
unfolding send_all
broadcast_message r m exclude = record r { clients = send_all r.clients m exclude }
