-- ===== src/Events/Sessions.antt =====
-- What the terminal shows when a client joins or leaves.
use linux_class.Common.{
  ◌≤◌, ◌≡◌, refl, ap, ◌∙◌, [], ◌∷◌, ◌++◌, some, arith, Bytes, codes, str_eq, length, length-append,
  take_all,
}
use linux_class.Protocol.Find.{strip_prefix}
use linux_class.Autosave.{log}
use linux_class.Server.{Connection}
use linux_class.Server.Dispatch.{Server, send_event, send_to, welcome_client, leave_client}
use linux_class.Events.{
  strstr, behind_match, copy_value, value_or_empty, json_get_for_format, format_server_event,
}
use linux_class.Events.Search.{NoQuote, strstr-value, copy_value-value}

abbrev pub join_entry : Bytes → Bytes → Bytes
join_entry id address =
    codes "{\"event\":\"join\",\"client_id\":\""
    ++ (id ++ (codes "\",\"address\":\"" ++ (address ++ codes "\"}")))

abbrev pub leave_entry : Bytes → Bytes
leave_entry id = codes "{\"event\":\"leave\",\"client_id\":\"" ++ (id ++ codes "\"}")

join-event :
    (id address : Bytes)
    → json_get_for_format (some (join_entry id address)) (codes "event") 32 ≡ codes "join"
unfolding json_get_for_format value_or_empty behind_match strstr strip_prefix copy_value
join-event id address = refl

join-client_id :
    (id address : Bytes)
    → NoQuote id
    → length id ≤ 63
    → json_get_for_format (some (join_entry id address)) (codes "client_id") 64 ≡ id
unfolding json_get_for_format value_or_empty behind_match strstr strip_prefix
join-client_id id address h l = copy_value-value 63 id _ h l

join-address :
    (id address : Bytes)
    → NoQuote id
    → NoQuote address
    → length address ≤ 127
    → json_get_for_format (some (join_entry id address)) (codes "address") 128 ≡ address
unfolding json_get_for_format value_or_empty behind_match strstr strip_prefix
join-address id address h k l =
    let pattern = codes "\"address\":\"" in
    let rest = codes "\"address\":\"" ++ (address ++ codes "\"}") in
    let found : strstr (join_entry id address) pattern ≡ some rest =
      strstr-value (codes "address") id rest (b'"' ∷ []) b',' (omega arith) h (omega arith) in
    ap (λ o. value_or_empty 128 (behind_match pattern o)) found
    ∙ copy_value-value 127 address (b'}' ∷ []) k l

leave-client_id :
    (id : Bytes)
    → NoQuote id
    → length id ≤ 63
    → json_get_for_format (some (leave_entry id)) (codes "client_id") 64 ≡ id
unfolding json_get_for_format value_or_empty behind_match strstr strip_prefix
leave-client_id id h l = copy_value-value 63 id _ h l

leave-event :
    (id : Bytes) → json_get_for_format (some (leave_entry id)) (codes "event") 32 ≡ codes "leave"
unfolding json_get_for_format value_or_empty behind_match strstr strip_prefix copy_value
leave-event id = refl

join-line :
    (id address : Bytes)
    → NoQuote id
    → NoQuote address
    → length id ≤ 63
    → length address ≤ 127
    → format_server_event (some (join_entry id address)) 512
      ≡ codes "JOIN client=" ++ (id ++ (codes " address=" ++ address))
unfolding format_server_event str_eq
join-line id address h k l m =
    rw (join-event id address, join-client_id id address h l, join-address id address h k m)
      (take_all 511 (codes "JOIN client=" ++ (id ++ (codes " address=" ++ address)))
        (omega (arith, l, m, length-append id (codes " address=" ++ address))))

leave-line :
    (id : Bytes)
    → NoQuote id
    → length id ≤ 63
    → format_server_event (some (leave_entry id)) 512 ≡ codes "LEAVE client=" ++ id
unfolding format_server_event str_eq
leave-line id h l =
    rw (leave-event id, leave-client_id id h l)
      (take_all 511 (codes "LEAVE client=" ++ id) (omega (arith, l)))

-- When a client joins or leaves, the entry that the server logs is printed as a line with the client's identifier, and
-- with its address when it joins, where these hold no quotation mark and fit into their buffers.
pub sessions-printed :
    (s : Server) (c : Connection) (id : Bytes)
    → NoQuote id
    → NoQuote c.address
    → length id ≤ 63
    → length c.address ≤ 127
    → ((joined : Bytes) × ((welcome_client s c id).events ≡ s.events ++ log joined ∷ [])
        × (format_server_event (some joined) 512
            ≡ codes "JOIN client=" ++ (id ++ (codes " address=" ++ c.address))))
      × ((left : Bytes) × ((leave_client s (record c { client_id = id })).events
            ≡ s.events ++ log left ∷ [])
          × (format_server_event (some left) 512 ≡ codes "LEAVE client=" ++ id))
unfolding welcome_client leave_client send_event send_to
sessions-printed s c id h k l m =
    let joined = take_all 511 (join_entry id c.address) (
      omega (
        arith,
        l,
        m,
        length-append id (codes "\",\"address\":\"" ++ (c.address ++ codes "\"}")),
        length-append c.address (codes "\"}"),
      )) in
    let left = take_all 511 (leave_entry id) (omega (arith, l, length-append id (codes "\"}"))) in
    (
      (_, refl, ap (λ e. format_server_event (some e) 512) joined ∙ join-line id c.address h k l m),
      (_, refl, ap (λ e. format_server_event (some e) 512) left ∙ leave-line id h l),
    )
