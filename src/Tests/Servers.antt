-- ===== src/Tests/Servers.antt =====
-- The list of clients, at concrete inputs.
use linux_class.Common.{◌≡◌, refl, [], ◌∷◌, Bytes, codes, str_eq, some, false, arith}
use linux_class.Server.{
  Connection, Registry, client_id_exists, choose_client_id, register_client, unregister_client,
}
use linux_class.Server.Distinct.{
  Distinct, Chosen, choose_client_id-Chosen, joins, leaves, Session, start, next, session-Distinct,
  choose_client_id_twice,
}

abbrev named : Bytes → Connection
named id = record { fd = 0; client_id = id; address = []; outbox = [] }

-- "u1" and "u3" are taken.
abbrev two_clients : Registry
two_clients = record {
  clients = named (codes "u1") ∷ named (codes "u3") ∷ [];
  next_client_number = 1;
}

choose_client_id-Chosen_example :
    Chosen two_clients (codes "u3") (choose_client_id two_clients (codes "u3"))
choose_client_id-Chosen_example = choose_client_id-Chosen two_clients (codes "u3") (omega arith)

two_clients-Distinct : Distinct two_clients.clients
unfolding client_id_exists str_eq
two_clients-Distinct = (refl, (refl, tt))

ann_is_free : client_id_exists two_clients.clients (codes "ann") ≡ false
unfolding client_id_exists str_eq
ann_is_free = refl

choose_client_id_twice_example :
    (choose_client_id two_clients (codes "ann") ≡ some (codes "ann", two_clients))
    × (unregister_client
          (register_client
            (register_client two_clients (named (codes "ann")))
            (record (named (codes "ann")) { address = codes "b" }))
          (codes "ann")
        ≡ register_client two_clients (named (codes "ann")))
choose_client_id_twice_example =
    choose_client_id_twice two_clients (codes "ann") (named (codes "ann"))
      (record (named (codes "ann")) { address = codes "b" }) (omega arith) (λ e. cc) ann_is_free
      refl refl

ann_chosen : choose_client_id two_clients (codes "ann") ≡ some (codes "ann", two_clients)
ann_chosen = choose_client_id_twice_example.0

-- "ann" joins, and "u1" leaves.
abbrev ann_joins : Session two_clients (register_client two_clients (named (codes "ann")))
ann_joins =
    next _ _ _ (start _) (joins _ _ 0 (codes "ann") [] (codes "ann") ann_chosen (omega arith))

session-Distinct_example :
    Distinct
      (unregister_client (register_client two_clients (named (codes "ann"))) (codes "u1")).clients
session-Distinct_example =
    session-Distinct two_clients
      (unregister_client (register_client two_clients (named (codes "ann"))) (codes "u1"))
      (next _ _ _ ann_joins (leaves _ (codes "u1"))) two_clients-Distinct
