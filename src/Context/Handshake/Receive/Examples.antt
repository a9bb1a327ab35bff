-- ===== src/Context/Handshake/Receive/Examples.antt =====
-- A handshake at concrete endpoints, and the theorems at it.
use simple_quic.Common.{
  Yields, ℕ, ◌≡◌, refl, List, [], ◌∷◌, false, ok, replicate, length, length-replicate, arith, some,
  ◌+◌,
}
use simple_quic.Payload.Packet.Whole.{Packet}
use simple_quic.Context.ConnectionId.{ConnectionId, same_id}
use simple_quic.Context.ConnectionId.Generator.{Generator, make_id, generate, generate_by}
use simple_quic.Context.Ledger.{TimeVal}
use simple_quic.Context.Incoming.{Connection, state_of}
use simple_quic.Context.Incoming.Examples.{
  open_one, closed_one, open_one-IsSound, closed_one-IsSound, now, acked_two,
}
use simple_quic.Context.Incoming.OneRtt.Acks.{AllSound, KeepsClosed}
use simple_quic.Context.Handshake.Receive.Acks.{incoming_msg-AllSound}
use simple_quic.Payload.Packet.{Header}
use simple_quic.Payload.Frame.{Frame}
use simple_quic.Payload.Packet.Examples.{some_id}
use simple_quic.Context.Handshake.{Endpoint, create_connection}
use simple_quic.Context.Handshake.Receive.{incoming_msg, is_known}
use simple_quic.Context.Handshake.Receive.Runs.{initial_of}
use simple_quic.Context.Handshake.Receive.Moves.{Grows, incoming_msg-Grows}
use simple_quic.Context.Handshake.Receive.Meets.{
  with_last, Delivers, AreJoined, handshake-AreJoined,
}

-- The bytes of a call of Fill, for the client and for the server.
abbrev pub fill_client : ℕ → List ℕ
fill_client n = replicate 8 (100 + n)

abbrev pub fill_server : ℕ → List ℕ
fill_server n = replicate 8 (200 + n)

abbrev pub at : ℕ → TimeVal
at n = record { sec = n; usec = 0 }

abbrev empty_client : Endpoint
empty_client = record { connections = []; generator = record { used = []; drawn = 0 } }

-- A server that has a connection already.
abbrev pub busy_server : Endpoint
busy_server = record { connections = open_one ∷ []; generator = record { used = []; drawn = 3 } }

abbrev pub first_id : ConnectionId
first_id = make_id (fill_client 0)

abbrev pub second_id : ConnectionId
second_id = make_id (fill_client 1)

abbrev server_id : ConnectionId
server_id = make_id (fill_server 3)

eight_client : (n : ℕ) → length (fill_client n) ≡ 8
eight_client n = length-replicate 8 (100 + n)

eight_server : (n : ℕ) → length (fill_server n) ≡ 8
eight_server n = length-replicate 8 (200 + n)

first_drawn :
    generate fill_client empty_client.generator
    ≡ ok (first_id, record { used = first_id ∷ []; drawn = 1 })
unfolding generate generate_by
first_drawn = refl

second_drawn :
    generate fill_client (record { used = first_id ∷ []; drawn = 1 })
    ≡ ok (second_id, record { used = second_id ∷ first_id ∷ []; drawn = 2 })
unfolding generate generate_by make_id same_id
second_drawn = refl

third_drawn :
    generate fill_server busy_server.generator
    ≡ ok (server_id, record { used = server_id ∷ []; drawn = 4 })
unfolding generate generate_by
third_drawn = refl

unknown_first : is_known first_id second_id open_one ≡ false
unfolding is_known same_id make_id state_of
unknown_first = refl

unknown_second : is_known server_id second_id open_one ≡ false
unfolding is_known same_id make_id state_of
unknown_second = refl

handshake-AreJoined_example :
    (c c' d d' : Connection) × (p q r : Packet) × (h' : Generator) × (create_connection fill_client
        (at 1)
        empty_client
      ≡ ok (with_last [] c (record { used = second_id ∷ first_id ∷ []; drawn = 2 })))
    × (c.sender.queue.pending ≡ p ∷ [])
    × Delivers fill_server (at 2) p busy_server (with_last (open_one ∷ []) d h')
    × (d.sender.queue.pending ≡ q ∷ [])
    × Delivers fill_client
        (at 3)
        q
        (with_last [] c (record { used = second_id ∷ first_id ∷ []; drawn = 2 }))
        (with_last [] c' (record { used = second_id ∷ first_id ∷ []; drawn = 2 }))
    × (c'.sender.queue.pending ≡ p ∷ r ∷ [])
    × Delivers fill_server
        (at 4)
        r
        (with_last (open_one ∷ []) d h')
        (with_last (open_one ∷ []) d' h')
    × AreJoined c' d'
handshake-AreJoined_example =
    handshake-AreJoined fill_client fill_server (at 1) (at 2) (at 3) (at 4) empty_client busy_server
      first_id second_id server_id (record { used = first_id ∷ []; drawn = 1 })
      (record { used = second_id ∷ first_id ∷ []; drawn = 2 })
      (record { used = server_id ∷ []; drawn = 4 }) eight_client eight_server first_drawn
      second_drawn third_drawn tt (unknown_first, tt) (unknown_second, tt)

abbrev two_ends : Endpoint
two_ends = record {
  connections = closed_one ∷ open_one ∷ [];
  generator = record { used = []; drawn = 0 };
}

-- A packet that acknowledges the packet 2, twice.
abbrev two_acks : Packet
two_acks = record {
  header = Header.short 0 some_id 7;
  payload = some (Frame.ack 0 acked_two ∷ Frame.ack 0 acked_two ∷ []);
}

incoming_msg-AllSound_example :
    (ds : List Connection) × (incoming_msg fill_server now two_acks two_ends
      ≡ ok (record two_ends { connections = ds }))
    × AllSound ds
    × KeepsClosed (closed_one ∷ open_one ∷ []) ds
incoming_msg-AllSound_example =
    incoming_msg-AllSound fill_server now two_acks two_ends 0 some_id 7
      (Frame.ack 0 acked_two ∷ Frame.ack 0 acked_two ∷ []) refl refl
      ((omega arith, omega arith, tt), ((omega arith, omega arith, tt), tt))
      (closed_one-IsSound, (open_one-IsSound, tt))

abbrev first_packet : Packet
first_packet = initial_of first_id second_id 1 []

incoming_msg-Grows_example :
    Yields
      (Grows busy_server.connections)
      (incoming_msg fill_server (at 2) first_packet busy_server)
incoming_msg-Grows_example = incoming_msg-Grows fill_server (at 2) first_packet busy_server
