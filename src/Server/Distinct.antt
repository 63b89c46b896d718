-- ===== src/Server/Distinct.antt =====
-- The identifiers of the connected clients: `choose_client_id`, `register_client` and
-- `unregister_client` in turn.
use linux_class.Common.{
  ℕ, ◌+◌, ◌≤◌, ◌≡◌, ◌≢◌, ◌↔◌, ◌⊎◌, inl, inr, refl, sym, ap, subst, ◌∙◌, Bool-cases, Option-cases,
  true, false, List, [], ◌∷◌, Option, some, arith, length, take_all, Bytes, str_eq, str_eq_iff,
}
use linux_class.Server.{
  Connection, Registry, client_id_exists, number_loop, choose_number, choose_client_id,
  register_client, remove_client, unregister_client,
}
use linux_class.Server.Fresh.{number_loop_ends, number_loop_free}

-- No two connections have one identifier.
abbrev pub Distinct : List Connection → Type 0
Distinct [] = Unit
Distinct (c ∷ cs) = (client_id_exists cs c.client_id ≡ false) × Distinct cs

-- The outcome of a choice: a free identifier, with the clients as they were.
pub record Chosen (r : Registry) (requested : Bytes) (result : Option (Bytes × Registry))
    : Type 0 where
  pub id : Bytes
  pub after : Registry
  pub returns : result ≡ some (id, after)
  pub free : client_id_exists r.clients id ≡ false
  pub clients : after.clients ≡ r.clients
  pub wish : requested ≢ [] → client_id_exists r.clients requested ≡ false → id ≡ requested
  pub counts : r.next_client_number ≤ after.next_client_number

str_eq-nil : (s : Bytes) → (str_eq s [] ≡ true) ↔ (s ≡ [])
str_eq-nil s = str_eq_iff s []

choose_requested :
    (r : Registry) (requested : Bytes)
    → length requested ≤ 63
    → requested ≢ []
    → client_id_exists r.clients requested ≡ false
    → choose_client_id r requested ≡ some (requested, r)
unfolding choose_client_id
choose_requested r requested l n f = elim (Bool-cases (str_eq requested [])) [
  | inl e ↦ absurd (n ((str_eq-nil requested).0 e))
  | inr e ↦ rw (e, f, take_all 63 requested l) refl
]

choose_numbered :
    (r : Registry) (requested : Bytes)
    → (requested ≡ []) ⊎ (client_id_exists r.clients requested ≡ true)
    → choose_client_id r requested
      ≡ choose_number r (number_loop (length r.clients + 1) r.clients r.next_client_number)
unfolding choose_client_id str_eq
choose_numbered r requested (inl e) = rw e refl
choose_numbered r requested (inr e) = ground (arith, e)

numbered-Chosen :
    (r : Registry) (requested : Bytes)
    → (requested ≡ []) ⊎ (client_id_exists r.clients requested ≡ true)
    → Chosen r requested (choose_client_id r requested)
unfolding choose_number
numbered-Chosen r requested why =
    elim (Option-cases (number_loop (length r.clients + 1) r.clients r.next_client_number)) [
      | inl e ↦ absurd (number_loop_ends r.clients r.next_client_number e)
      | inr ((id, next), e) ↦
          let (free, more) =
            number_loop_free (length r.clients + 1) r.clients r.next_client_number id next e in
          record {
            id = id;
            after = record r { next_client_number = next };
            returns = choose_numbered r requested why ∙ ap (choose_number r) e;
            free = free;
            clients = refl;
            wish = λ n f. absurd (ground (arith, why, n, f));
            counts = omega (arith, more);
          }
    ]

-- The choice always ends with an identifier that no client has, leaves the clients alone and
-- takes the requested identifier, of at most 63 bytes, where it is free and not empty.
pub choose_client_id-Chosen :
    (r : Registry) (requested : Bytes)
    → length requested ≤ 63
    → Chosen r requested (choose_client_id r requested)
choose_client_id-Chosen r requested l = elim (Bool-cases (str_eq requested [])) [
  | inl e ↦ numbered-Chosen r requested (inl ((str_eq-nil requested).0 e))
  | inr e ↦ elim (Bool-cases (client_id_exists r.clients requested)) [
    | inl taken ↦ numbered-Chosen r requested (inr taken)
    | inr free ↦ record {
      id = requested;
      after = r;
      returns =
          choose_requested r requested l (λ n. ground (arith, (str_eq-nil requested).1 n, e)) free;
      free = free;
      clients = refl;
      wish = λ n f. refl;
      counts = omega arith;
    }
  ]
]

-- An identifier that nobody has stays free when a client leaves.
remove-absent :
    (cs : List Connection) (id x : Bytes)
    → client_id_exists cs x ≡ false
    → client_id_exists (remove_client cs id) x ≡ false
unfolding client_id_exists remove_client
remove-absent [] id x h = refl
remove-absent (c ∷ cs) id x h = ground (arith, remove-absent cs id x)

remove-Distinct : (cs : List Connection) (id : Bytes) → Distinct cs → Distinct (remove_client cs id)
unfolding remove_client
remove-Distinct [] id d = tt
remove-Distinct (c ∷ cs) id (f, d) = elim (Bool-cases (str_eq c.client_id id)) [
  | inl e ↦ rw e d
  | inr e ↦ rw e (remove-absent cs id c.client_id f, remove-Distinct cs id d)
]

remove_last : (cs : List Connection) (c : Connection) → remove_client (c ∷ cs) c.client_id ≡ cs
unfolding remove_client
remove_last cs c = rw ((str_eq_iff c.client_id c.client_id).1 refl) refl

-- A session of one connection at a time: a client joins under the identifier chosen for it, or leaves.
pub data Step : Registry → Registry → Type 0 where
  joins :
      (r after : Registry) (fd : ℕ) (requested address id : Bytes)
      → choose_client_id r requested ≡ some (id, after)
      → length requested ≤ 63
      → Step r (
          register_client after
            (record { fd = fd; client_id = id; address = address; outbox = [] }))
  leaves : (r : Registry) (id : Bytes) → Step r (unregister_client r id)

pub data Session : Registry → Registry → Type 0 where
  start : (r : Registry) → Session r r
  next : (r s t : Registry) → Session r s → Step s t → Session r t

some_pair :
    (a c : Bytes) (b d : Registry)
    → ◌≡◌ {A = Option (Bytes × Registry)} (some (a, b)) (some (c, d))
    → (a ≡ c) × (b ≡ d)
some_pair a c b d e = (cc, cc)

step-Distinct : (r s : Registry) → Step r s → Distinct r.clients → Distinct s.clients
unfolding register_client unregister_client
step-Distinct _ _ (joins r after fd requested address id e l) d =
    let c = choose_client_id-Chosen r requested l in
    let (same, state) = some_pair id c.id after c.after (sym e ∙ c.returns) in
    rw (state, c.clients) (subst (λ x. client_id_exists r.clients x ≡ false) (sym same) c.free, d)
step-Distinct _ _ (leaves r id) d = remove-Distinct r.clients id d

-- While connections join one after the other, each registered before the next identifier is chosen,
-- and leave in any order, no two of them ever share an identifier.
pub session-Distinct : (r s : Registry) → Session r s → Distinct r.clients → Distinct s.clients
session-Distinct _ _ (start r) d = d
session-Distinct _ _ (next r s t before step) d =
    step-Distinct s t step (session-Distinct r s before d)

-- Two connections that ask for one free identifier before either is registered both get it; when the
-- first of them leaves, the second is taken off the list and the first stays.
pub choose_client_id_twice :
    (r : Registry) (requested : Bytes) (a b : Connection)
    → length requested ≤ 63
    → requested ≢ []
    → client_id_exists r.clients requested ≡ false
    → a.client_id ≡ requested
    → b.client_id ≡ requested
    → (choose_client_id r requested ≡ some (requested, r))
      × (unregister_client (register_client (register_client r a) b) a.client_id
          ≡ register_client r a)
unfolding unregister_client register_client
choose_client_id_twice r requested a b l n f ea eb = (
  choose_requested r requested l n f,
  ap (λ cs. record r { clients = cs })
      (ap (remove_client (b ∷ a ∷ r.clients)) (ea ∙ sym eb) ∙ remove_last (a ∷ r.clients) b),
)
