-- ===== src/Context/Handshake/Receive/Meets.antt =====
-- A handshake between a client and a server.
use simple_quic.Common.{
  ℕ, ◌≡◌, length, arith, refl, ap, ◌∙◌, List, [], ◌∷◌, ◌++◌, true, false, not, ◌&&◌, ◌||◌, ok,
  ◌>>=◌,
}
use simple_quic.Utils.Interval.{holds}
use simple_quic.Utils.Interval.Sets.{contain}
use simple_quic.Payload.Packet.Whole.{Packet}
use simple_quic.Utils.ByteStream.{ByteStream, seek}
use simple_quic.Context.Sending.{encode_datagram}
use simple_quic.Context.ConnectionId.Fresh.{generate-IsWellFormed}
use simple_quic.Context.Handshake.Receive.Wire.{Arrives, initial_of-Arrives, answer-Arrives}
use simple_quic.Context.ConnectionId.{ConnectionId, same_id, local_connection_id_length}
use simple_quic.Context.ConnectionId.Order.{same_id_refl}
use simple_quic.Context.ConnectionId.Generator.{Generator, generate}
use simple_quic.Context.Congestion.{ConnectionState}
use simple_quic.Context.Ledger.{TimeVal, have_received_pkt}
use simple_quic.Context.Incoming.{Connection, state_of}
use simple_quic.Context.Incoming.OneRtt.{is_ending, frames_of}
use simple_quic.Context.Incoming.OneRtt.Search.{AllFail, handle_first-none, handle_first-last}
use simple_quic.Context.Handshake.{
  Endpoint, create_connection, client_connection, accept_connection,
}
use simple_quic.Context.Handshake.Receive.{
  incoming_msg, incoming_datagram, on_initial, on_known, is_known, known_handler, unless_known,
  add_new,
}
use simple_quic.Context.Handshake.Receive.Runs.{
  initial_of, ack_one, started, accepted, answered, confirmed, client_connection-started,
  accept_connection-accepted, on_known-answered, on_known-confirmed,
}

abbrev pub with_last : List Connection → Connection → Generator → Endpoint
with_last cs c g = record { connections = cs ++ (c ∷ []); generator = g }

create_connection-started :
    (fill : ℕ → List ℕ) (now : TimeVal) (e : Endpoint) (src dst : ConnectionId) (g g' : Generator)
    → generate fill e.generator ≡ ok (src, g)
    → generate fill g ≡ ok (dst, g')
    → create_connection fill now e ≡ ok (with_last e.connections (started now src dst) g')
unfolding create_connection
create_connection-started fill now e src dst g g' d d' =
    ap
      (λ r. do
        (a, h) ← r
        (b, h') ← generate fill h
        c ← client_connection now a b
        ok (with_last e.connections c h'))
      d
    ∙ ap (λ r. do (b, h') ← r; c ← client_connection now src b; ok (with_last e.connections c h'))
        d'
    ∙ ap (λ r. do c ← r; ok (with_last e.connections c g')) (client_connection-started now src dst)

incoming_msg-accepted :
    (fill : ℕ → List ℕ) (now : TimeVal) (e : Endpoint) (src dst fresh : ConnectionId)
    (g : Generator)
    → generate fill e.generator ≡ ok (fresh, g)
    → AllFail (is_known src dst) e.connections
    → incoming_msg fill now (initial_of src dst 1 []) e
      ≡ ok (
          with_last e.connections
            (accepted now src dst fresh)
            (record e.generator { drawn = g.drawn }))
unfolding incoming_msg on_initial add_new
incoming_msg-accepted fill now e src dst fresh g d all =
    let p = initial_of src dst 1 [] in
    ap
      (λ r. do
        b ← r
        unless_known b.goes_on fill now p dst (record e { connections = b.connections }))
      (handle_first-none (is_known src dst) (known_handler now p src dst) false false e.connections
        all)
    ∙ ap
        (λ r. do
          (f, h) ← r
          c ← accept_connection now p dst f
          ok (with_last e.connections c (record e.generator { drawn = h.drawn })))
        d
    ∙ ap (λ r. do c ← r; ok (with_last e.connections c (record e.generator { drawn = g.drawn })))
        (accept_connection-accepted now src dst fresh)

-- A packet that the last connection handles.
incoming_msg-last :
    (fill : ℕ → List ℕ) (now : TimeVal) (src dst : ConnectionId) (num : ℕ) (cs : List Connection)
    (c c' : Connection) (g : Generator)
    → AllFail (is_known src dst) cs
    → is_known src dst c ≡ true
    → on_known (state_of c) now (initial_of src dst num []) src dst [] c ≡ ok c'
    → incoming_msg fill now (initial_of src dst num []) (with_last cs c g) ≡ ok (with_last cs c' g)
unfolding incoming_msg on_initial known_handler unless_known frames_of
incoming_msg-last fill now src dst num cs c c' g all known run =
    let p = initial_of src dst num [] in
    ap
      (λ r. do
        b ← r
        unless_known b.goes_on fill now p dst
            (record { connections = b.connections; generator = g }))
      (handle_first-last (is_known src dst) (known_handler now p src dst) (ok false) false true cs c
        (record { connection = c'; have_added_to_ack = false }) all known
        (ap (λ r. do d ← r; ok (true, record { connection = d; have_added_to_ack = false })) run))

is_known-remote :
    (src dst : ConnectionId) (c : Connection)
    → c.remote ≡ src
    → is_ending (state_of c) ≡ false
    → is_known src dst c ≡ true
unfolding is_known
is_known-remote src dst c e alive =
    ap (λ b. not b && (same_id c.remote src || same_id c.local dst)) alive
    ∙ ap (λ r. same_id r src || same_id c.local dst) e
    ∙ ap (λ b. b || same_id c.local dst) (same_id_refl src)

is_ending-started :
    (t : TimeVal) (src dst : ConnectionId) → is_ending (state_of (started t src dst)) ≡ false
unfolding state_of
is_ending-started t src dst = refl

is_ending-accepted :
    (t : TimeVal) (src dst fresh : ConnectionId)
    → is_ending (state_of (accepted t src dst fresh)) ≡ false
unfolding state_of
is_ending-accepted t src dst fresh = refl

-- What the handshake leaves: both ends are established, each has the other's identifier, each has
-- received what the other has sent, and neither has seen an acknowledgement.
pub record AreJoined (c d : Connection) : Type 0 where
  pub client : state_of c ≡ ConnectionState.established
  pub server : state_of d ≡ ConnectionState.established
  pub to_server : c.remote ≡ d.local
  pub to_client : d.remote ≡ c.local
  pub client_received : have_received_pkt 1 c.sender.ledger ≡ true
  pub server_received_first : have_received_pkt 1 d.sender.ledger ≡ true
  pub server_received_last : have_received_pkt 2 d.sender.ledger ≡ true
  pub client_acked : c.sender.ledger.acked_sent_pkt_num ≡ []
  pub server_acked : d.sender.ledger.acked_sent_pkt_num ≡ []

confirmed-AreJoined :
    (t0 t1 t2 t3 : TimeVal) (src dst fresh : ConnectionId)
    → AreJoined (answered t0 t2 src dst fresh) (confirmed t1 t3 src dst fresh)
unfolding have_received_pkt contain state_of holds
confirmed-AreJoined t0 t1 t2 t3 src dst fresh = record {
  client = refl;
  server = refl;
  to_server = refl;
  to_client = refl;
  client_received = refl;
  server_received_first = refl;
  server_received_last = refl;
  client_acked = refl;
  server_acked = refl;
}

-- The packet has a datagram, and incomingMsg of the datagram takes the endpoint to the other one.
abbrev pub Delivers : (ℕ → List ℕ) → TimeVal → Packet → Endpoint → Endpoint → Type 0
Delivers fill now p e e' =
    (b : ByteStream) × (encode_datagram p ≡ ok b)
    × (incoming_datagram fill now (seek 0 b) e ≡ ok e')

delivers :
    (fill : ℕ → List ℕ) (now : TimeVal) (p p' : Packet) (e e' : Endpoint)
    → Arrives p p'
    → incoming_msg fill now p' e ≡ ok e'
    → Delivers fill now p e e'
unfolding incoming_datagram
delivers fill now p p' e e' (b, sent, read) run =
    (b, sent, ap (λ r. do q ← r; incoming_msg fill now q e) read ∙ run)

-- Where each call of Fill writes 8 bytes, Generate gives the client two identifiers and the server
-- one, and no other connection of either meets the test of the search: CreateConnection queues an
-- INITIAL packet; the server answers its datagram with one, the client the datagram of that with
-- another, and incomingMsg takes each of the datagrams without an error. The other connections are as
-- before. In the end both connections are ESTABLISHED, the remote identifier of each is the local one
-- of the other, and both have received the packets. Neither has an acknowledged packet: the receiver
-- reads no frame of an INITIAL packet.
pub handshake-AreJoined :
    (fill fill' : ℕ → List ℕ) (t0 t1 t2 t3 : TimeVal) (e s : Endpoint)
    (src dst fresh : ConnectionId) (g g' h : Generator)
    → ((n : ℕ) → length (fill n) ≡ local_connection_id_length)
    → ((n : ℕ) → length (fill' n) ≡ local_connection_id_length)
    → generate fill e.generator ≡ ok (src, g)
    → generate fill g ≡ ok (dst, g')
    → generate fill' s.generator ≡ ok (fresh, h)
    → AllFail (is_known dst fresh) e.connections
    → AllFail (is_known src dst) s.connections
    → AllFail (is_known fresh dst) s.connections
    → (c c' d d' : Connection) × (p q r : Packet) × (h' : Generator) × (create_connection fill t0 e
        ≡ ok (with_last e.connections c g'))
      × (c.sender.queue.pending ≡ p ∷ [])
      × Delivers fill' t1 p s (with_last s.connections d h')
      × (d.sender.queue.pending ≡ q ∷ [])
      × Delivers fill t2 q (with_last e.connections c g') (with_last e.connections c' g')
      × (c'.sender.queue.pending ≡ p ∷ r ∷ [])
      × Delivers fill' t3 r (with_last s.connections d h') (with_last s.connections d' h')
      × AreJoined c' d'
unfolding state_of
handshake-AreJoined fill fill' t0 t1 t2 t3 e s src dst fresh g g' h full full' one two three mine
      theirs again =
    let h' : Generator = record s.generator { drawn = h.drawn } in
    let ws = generate-IsWellFormed fill e.generator g src full one in
    let wd = generate-IsWellFormed fill g g' dst full two in
    let wf = generate-IsWellFormed fill' s.generator h fresh full' three in
    (
      started t0 src dst,
      answered t0 t2 src dst fresh,
      accepted t1 src dst fresh,
      confirmed t1 t3 src dst fresh,
      initial_of src dst 1 [],
      initial_of dst fresh 1 ack_one,
      initial_of fresh dst 2 ack_one,
      h',
      create_connection-started fill t0 e src dst g g' one two,
      refl,
      delivers fill' t1 (initial_of src dst 1 []) (initial_of src dst 1 []) s
          (with_last s.connections (accepted t1 src dst fresh) h')
          (initial_of-Arrives src dst 1 [] ws wd (omega arith) tt)
          (incoming_msg-accepted fill' t1 s src dst fresh h three theirs),
      refl,
      delivers fill t2 (initial_of dst fresh 1 ack_one) (initial_of dst fresh 1 [])
          (with_last e.connections (started t0 src dst) g')
          (with_last e.connections (answered t0 t2 src dst fresh) g')
          (answer-Arrives dst fresh 1 wd wf (omega arith))
          (incoming_msg-last fill t2 dst fresh 1 e.connections (started t0 src dst)
            (answered t0 t2 src dst fresh) g' mine
            (is_known-remote dst fresh (started t0 src dst) refl (is_ending-started t0 src dst))
            (on_known-answered t0 t2 src dst fresh)),
      refl,
      delivers fill' t3 (initial_of fresh dst 2 ack_one) (initial_of fresh dst 2 [])
          (with_last s.connections (accepted t1 src dst fresh) h')
          (with_last s.connections (confirmed t1 t3 src dst fresh) h')
          (answer-Arrives fresh dst 2 wf wd (omega arith))
          (incoming_msg-last fill' t3 fresh dst 2 s.connections (accepted t1 src dst fresh)
            (confirmed t1 t3 src dst fresh) h' again
            (is_known-remote fresh dst (accepted t1 src dst fresh) refl
              (is_ending-accepted t1 src dst fresh))
            (on_known-confirmed t1 t3 src dst fresh)),
      confirmed-AreJoined t0 t1 t2 t3 src dst fresh,
    )
