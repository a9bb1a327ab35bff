-- ===== src/Context/Handshake/Receive/Moves.antt =====
-- The states of the connections after any packet.
use simple_quic.Common.{
  ◌≡◌, refl, sym, subst, ◌∙◌, ℕ, List, [], ◌∷◌, ◌++◌, append-nil, Bool, true, false, Result, ok,
  Yields, Yields-bind, Yields-then, Yields-weaken,
}
use simple_quic.Payload.Frame.{Frame}
use simple_quic.Payload.Packet.{Header}
use simple_quic.Payload.Packet.Whole.{Packet}
use simple_quic.Context.ConnectionId.{ConnectionId, same_id}
use simple_quic.Context.ConnectionId.Generator.{generate}
use simple_quic.Context.Congestion.{
  ConnectionState, created, established, peer_established, wait_for_peer_close, closed,
}
use simple_quic.Context.Queue.{num_of}
use simple_quic.Context.Ledger.{TimeVal, have_received_pkt}
use simple_quic.Context.States.{◌⟶◌, ◌⟶*◌, here, then, ⟶*-of, Moves, Moves-refl}
use simple_quic.Context.Incoming.{Connection, state_of}
use simple_quic.Context.Incoming.OneRtt.{handle_first, on_one_rtt, frames_of}
use simple_quic.Context.Incoming.OneRtt.Moves.{Drives, handle_first-Moves, on_one_rtt-Moves}
use simple_quic.Context.Handshake.{Endpoint, accept_connection}
use simple_quic.Context.Handshake.Receive.{
  if_new, acknowledge_again, confirm, answer_if, on_known, known_handler, is_known, add_new,
  unless_known, on_initial, incoming_by, incoming_msg,
}
use simple_quic.Context.Handshake.Receive.Kept.{
  Is, answer_if-Is, confirm-Is, acknowledge_again-Is, accept_connection-Is,
}

abbrev StateGoes : ConnectionState → Connection → Type 0
StateGoes s c = s ⟶* state_of c

if_new-StateGoes :
    (b : Bool) (f : Connection → Result Connection) (s : ConnectionState) (c : Connection)
    → state_of c ≡ s
    → Yields (StateGoes s) (f c)
    → Yields (StateGoes s) (if_new b f c)
unfolding if_new
if_new-StateGoes true f s c e k = ⟶*-of e
if_new-StateGoes false f s c e k = k

on_known-StateGoes :
    (s : ConnectionState) (now : TimeVal) (p : Packet) (src dst : ConnectionId) (fs : List Frame)
    (c : Connection)
    → state_of c ≡ s
    → Yields (StateGoes s) (on_known s now p src dst fs c)
unfolding on_known
on_known-StateGoes created now p src dst fs c e =
    if_new-StateGoes (have_received_pkt (num_of p) c.sender.ledger) _ created c e (
      Yields-weaken (Is established) (StateGoes created)
        (answer_if (same_id c.remote src) now p src dst fs c)
        (answer_if-Is (same_id c.remote src) now p src dst fs c)
        (λ d q. subst (λ t. created ⟶* t) (sym q) (then ◌⟶◌.answers here)))
on_known-StateGoes peer_established now p src dst fs c e =
    if_new-StateGoes (have_received_pkt (num_of p) c.sender.ledger) _ peer_established c e (
      Yields-weaken (Is established) (StateGoes peer_established) (confirm now p fs c)
        (confirm-Is now p fs c)
        (λ d q. subst (λ t. peer_established ⟶* t) (sym q) (then ◌⟶◌.confirms here)))
on_known-StateGoes established now p src dst fs c e =
    Yields-weaken (Is (state_of c)) (StateGoes established) (acknowledge_again now fs c)
      (acknowledge_again-Is now fs c) (λ d q. ⟶*-of (q ∙ e))
on_known-StateGoes wait_for_peer_close now p src dst fs c e = ⟶*-of e
on_known-StateGoes closed now p src dst fs c e = ⟶*-of e

known_handler-Drives :
    (now : TimeVal) (p : Packet) (src dst : ConnectionId) → Drives (known_handler now p src dst)
unfolding known_handler
known_handler-Drives now p src dst h = Yields-then _ (frames_of p.payload) _ λ fs.
    Yields-bind _ _ (on_known (state_of h.connection) now p src dst fs h.connection) _
      (on_known-StateGoes (state_of h.connection) now p src dst fs h.connection refl) (λ c g. g)

-- A server's new connection.
abbrev pub AllNew : List Connection → Type 0
AllNew [] = Unit {0}
AllNew (c ∷ []) = state_of c ≡ peer_established
AllNew _ = ⊥

-- The connections have moved, and at most one is new.
abbrev pub Grows : List Connection → Endpoint → Type 0
Grows cs e =
    (ds : List Connection) × (more : List Connection) × (e.connections ≡ ds ++ more)
    × Moves cs ds
    × AllNew more

unless_known-Grows :
    (known : Bool) (fill : ℕ → List ℕ) (now : TimeVal) (p : Packet) (dst : ConnectionId)
    (cs : List Connection) (e : Endpoint)
    → Moves cs e.connections
    → Yields (Grows cs) (unless_known known fill now p dst e)
unfolding unless_known add_new
unless_known-Grows true fill now p dst cs e m =
    (e.connections, [], sym (append-nil e.connections), m, tt)
unless_known-Grows false fill now p dst cs e m =
    Yields-then _ (generate fill e.generator) _ λ (fresh, g).
      Yields-bind _ _ (accept_connection now p dst fresh) _ (accept_connection-Is now p dst fresh)
        (λ c new. (e.connections, c ∷ [], refl, m, new))

on_initial-Grows :
    (fill : ℕ → List ℕ) (now : TimeVal) (p : Packet) (src dst : ConnectionId) (e : Endpoint)
    → Yields (Grows e.connections) (on_initial fill now p src dst e)
unfolding on_initial
on_initial-Grows fill now p src dst e =
    Yields-bind _ _
      (handle_first (is_known src dst) (known_handler now p src dst) (ok false) false e.connections)
      _
      (handle_first-Moves (is_known src dst) (known_handler now p src dst) (ok false) false
        e.connections (known_handler-Drives now p src dst))
      (λ b m.
        unless_known-Grows b.goes_on fill now p dst e.connections
          (record e { connections = b.connections }) m)

incoming_by-Grows :
    (h : Header) (fill : ℕ → List ℕ) (now : TimeVal) (p : Packet) (e : Endpoint)
    → Yields (Grows e.connections) (incoming_by h fill now p e)
unfolding incoming_by
incoming_by-Grows (Header.initial long token len num) fill now p e =
    on_initial-Grows fill now p long.src long.dst e
incoming_by-Grows (Header.short n dst num) fill now p e =
    Yields-bind _ _ (on_one_rtt now p e.connections) _ (on_one_rtt-Moves now p e.connections)
      (λ cs m. (cs, [], sym (append-nil cs), m, tt))
incoming_by-Grows _ fill now p e =
    (e.connections, [], sym (append-nil e.connections), Moves-refl e.connections, tt)

-- Whatever packet comes, where incomingMsg returns: the state of each connection has moved along the
-- diagram, that is from CREATED or PEER_ESTABLISHED to ESTABLISHED, from one of these three to
-- WAIT_FOR_PEER_CLOSE, or to CLOSED, which nothing leaves; no connection is removed, and at most one
-- is added, at the end, which is PEER_ESTABLISHED.
pub incoming_msg-Grows :
    (fill : ℕ → List ℕ) (now : TimeVal) (p : Packet) (e : Endpoint)
    → Yields (Grows e.connections) (incoming_msg fill now p e)
unfolding incoming_msg
incoming_msg-Grows fill now p e = incoming_by-Grows p.header fill now p e
