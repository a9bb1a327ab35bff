-- ===== src/Context/SocketLoop/Moves.antt =====
-- The states of the connections in a turn of SocketLoop.
use simple_quic.Common.{
  ℕ, zero, suc, ◌≡◌, refl, sym, subst, ◌∙◌, List, [], ◌∷◌, ◌++◌, append_assoc, append-nil, Bool,
  true, false, not, ◌&&◌, ◌||◌, leb, length, Yields, Yields-bind, Yields-then, Yields-weaken, arith,
}
use simple_quic.Utils.ByteStream.{ByteStream}
use simple_quic.Context.Congestion.{
  ConnectionState, created, established, peer_established, wait_for_peer_close, closed,
}
use simple_quic.Context.Streams.{PeerType, check_valid_stream}
use simple_quic.Context.Ledger.{TimeVal, AckTimer, msec_of}
use simple_quic.Context.Rtt.{minus}
use simple_quic.Context.Sending.{update_idle_time, send_loop, resend}
use simple_quic.Context.Unsent.{queue_unsent}
use simple_quic.Context.Incoming.{Connection, state_of, is_closed, is_waiting, set_connection_state}
use simple_quic.Context.Closing.{close_connection, give_up_waiting, with_state}
use simple_quic.Context.Closing.Laws.{close_connection-state}
use simple_quic.Context.Timeouts.{
  any_expired, expire_one, expire_pto, get_spe_ack_packet, ping_front, may_ping, is_idle, idle_by,
  defer_idle, close_idle, idle_timeout, idle_queue, probe_if, probe_by, probe, idle_reason,
  front_is_ping, is_client,
}
use simple_quic.Context.States.{
  met, half, ◌⟶◌, ◌⟶*◌, here, then, ⟶*-of, ⟶*-trans, Moves, Moves-refl, Moves-trans,
}
use simple_quic.Context.SocketLoop.{
  outbox_of, send_pending, datagrams_of, send_ack, send_more, serve, serve_from, socket_turn,
}
use simple_quic.Context.SocketLoop.Kept.{
  if-holds, expire_one-state, ping_front-state, get_spe_ack_packet-Same, send_loop-Is, resend-Is,
}

-- The connection has come from the state along the diagram.
abbrev Comes : ConnectionState → Connection → Type 0
Comes s c = s ⟶* state_of c

closed-Comes : (s : ConnectionState) (c : Connection) → Comes s (with_state closed c)
unfolding with_state state_of set_connection_state
closed-Comes s c = then ◌⟶◌.end here

give_up_waiting-Comes :
    (now : TimeVal) (c : Connection) → Comes (state_of c) (give_up_waiting now c)
unfolding give_up_waiting
give_up_waiting-Comes now c =
    if-holds (Comes (state_of c))
      (is_waiting (state_of c) && leb 2000 (minus (msec_of now) c.start_wait_for_peer))
      (with_state closed c) c (closed-Comes (state_of c) c) here

-- CloseConnection, of a connection that is neither CREATED nor CLOSED.
closing : (s : ConnectionState) → may_ping s ≡ true → s ⟶* wait_for_peer_close
unfolding may_ping
closing created e = absurd (ground (arith, e))
closing closed e = absurd (ground (arith, e))
closing established e = then (◌⟶◌.close met) here
closing peer_established e = then (◌⟶◌.close half) here
closing wait_for_peer_close e = here

and-right : (a b : Bool) → a && b ≡ true → b ≡ true
and-right true b e = e
and-right false b e = absurd (ground (arith, e))

close_idle-Comes :
    (b : Bool) (now : TimeVal) (c : Connection)
    → (b ≡ true → may_ping (state_of c) ≡ true)
    → Yields (Comes (state_of c)) (close_idle b now c)
unfolding close_idle
close_idle-Comes false now c k = here
close_idle-Comes true now c k =
    Yields-weaken _ _ (close_connection now idle_reason 1 c)
      (close_connection-state now idle_reason 1 c)
      (λ d e. subst (λ t. state_of c ⟶* t) (sym e) (closing (state_of c) (k refl)))

defer_idle-Comes :
    (b : Bool) (now : TimeVal) (c : Connection) → Yields (Comes (state_of c)) (defer_idle b now c)
unfolding defer_idle update_idle_time state_of
defer_idle-Comes false now c = here
defer_idle-Comes true now c = Yields-bind _ _ (ping_front c) _ (ping_front-state c) (λ d e. ⟶*-of e)

idle_by-Comes :
    (idle : Bool) (ts : List AckTimer) (type : PeerType) (now : TimeVal) (c : Connection)
    → Yields (Comes (state_of c)) (idle_by idle ts type now c)
unfolding idle_by
idle_by-Comes false ts type now c = here
idle_by-Comes true [] type now c =
    close_idle-Comes (is_client type && may_ping (state_of c)) now c
      (and-right (is_client type) (may_ping (state_of c)))
idle_by-Comes true (t ∷ ts) type now c =
    defer_idle-Comes (may_ping (state_of c) && not (front_is_ping c.sender.queue)) now c

idle_timeout-Comes :
    (type : PeerType) (now : TimeVal) (c : Connection)
    → Yields (Comes (state_of c)) (idle_timeout type now c)
unfolding idle_timeout
idle_timeout-Comes type now c =
    idle_by-Comes (is_idle now c.sender && check_valid_stream c.streams.states)
      c.sender.ledger.not_acked_sent_pkt type now c

abbrev pub Stays : ConnectionState → Connection → Type 0
Stays s c = state_of c ≡ s

probe_if-Stays : (b : Bool) (c : Connection) → Yields (Stays (state_of c)) (probe_if b c)
unfolding probe_if
probe_if-Stays false c = refl
probe_if-Stays true c = ping_front-state c

pub probe-Stays :
    (pto_expired : Bool) (c : Connection) → Yields (Stays (state_of c)) (probe pto_expired c)
unfolding probe probe_by
probe-Stays false c = refl
probe-Stays true c =
    Yields-then _ (idle_queue c.sender.queue.pending c.sender.queue) _
      (λ b. probe_if-Stays (b && (may_ping (state_of c) && check_valid_stream c.streams.states)) c)

abbrev pub Sent : ConnectionState → Connection × List ByteStream → Type 0
Sent s (c, ds) = state_of c ≡ s

pub send_pending-Sent :
    (pto_expired : Bool) (now : TimeVal) (c : Connection)
    → Yields (Sent (state_of c)) (send_pending pto_expired now c)
unfolding send_pending state_of
send_pending-Sent pto_expired now c =
    Yields-bind _ _ (send_loop (length c.sender.queue.pending) pto_expired now _) _
      (send_loop-Is (length c.sender.queue.pending) pto_expired now
        c.sender.ledger.congestion.cur_state
        (record { sender = c.sender; sent_when_congested = 0; datagrams = [] }) refl)
      (λ s e. e)

send_ack-Sent : (now : TimeVal) (c : Connection) → Yields (Sent (state_of c)) (send_ack now c)
unfolding send_ack state_of
send_ack-Sent now c =
    Yields-bind _ _ (get_spe_ack_packet now c.remote c.sender.ledger) _
      (get_spe_ack_packet-Same now c.remote c.sender.ledger)
      (λ got e. Yields-then _ (datagrams_of got.0) _ (λ ds. e))

pub send_more-Sent :
    (b : Bool) (now : TimeVal) (c : Connection) → Yields (Sent (state_of c)) (send_more b now c)
unfolding send_more state_of
send_more-Sent true now c = refl
send_more-Sent false now c = Yields-bind _ _ (send_ack now c) _ (send_ack-Sent now c) λ (c', ds) e.
    Yields-bind _ _ (resend now c'.sender) _
      (resend-Is now c.sender.ledger.congestion.cur_state c'.sender e)
      λ s e'. Yields-then _ (queue_unsent (outbox_of (record c' { sender = s }))) _ (λ o. e')

abbrev Served : ConnectionState → Connection × List ByteStream → Type 0
Served s (c, ds) = s ⟶* state_of c

serve-Served :
    (type : PeerType) (pto_expired : Bool) (now : TimeVal) (c : Connection)
    → Yields (Served (state_of c)) (serve type pto_expired now c)
unfolding serve
serve-Served type pto_expired now c =
    Yields-bind _ _ (idle_timeout type now c) _ (idle_timeout-Comes type now c) λ idle m.
      Yields-bind _ _ (probe pto_expired idle) _ (probe-Stays pto_expired idle) λ probed e.
        Yields-bind _ _ (send_pending pto_expired now probed) _
          (send_pending-Sent pto_expired now probed)
          λ (sent, ds) e'.
            Yields-bind _ _ (send_more (is_closed (state_of sent)) now sent) _
              (send_more-Sent (is_closed (state_of sent)) now sent)
              (λ (served, ds') e''. ⟶*-trans m (⟶*-of (e'' ∙ e' ∙ e)))

expire_pto-Moves : (now : TimeVal) (cs : List Connection) → Moves cs (expire_pto now cs).1
unfolding expire_pto
expire_pto-Moves now [] = tt
expire_pto-Moves now (c ∷ cs) = (⟶*-of (expire_one-state now c), expire_pto-Moves now cs)

Moves-append :
    (xs ys cs ds : List Connection) → Moves xs ys → Moves cs ds → Moves (xs ++ cs) (ys ++ ds)
Moves-append [] [] cs ds m n = n
Moves-append (a ∷ xs) (b ∷ ys) cs ds (x, m) n = (x, Moves-append xs ys cs ds m n)
Moves-append [] (b ∷ ys) cs ds m n = absurd m
Moves-append (a ∷ xs) [] cs ds m n = absurd m

serve_from-Moves :
    (n : ℕ) (type : PeerType) (now : TimeVal) (front cs : List Connection)
    → Yields
        (λ (r : List Connection × List ByteStream). Moves (front ++ cs) r.0)
        (serve_from n type now front cs)
unfolding serve_from
serve_from-Moves zero type now front cs = Moves-refl (front ++ cs)
serve_from-Moves (suc n) type now front [] =
    subst (λ l. Moves l front) (sym (append-nil front)) (Moves-refl front)
serve_from-Moves (suc n) type now front (c ∷ cs) =
    let w = give_up_waiting now c in
    let before = expire_pto now front in
    let behind = expire_pto now cs in
    let own = any_expired now w.sender.ledger.not_acked_sent_pkt_pto in
    Yields-bind _ _ (serve type (before.0 || (own || behind.0)) now (expire_one now w)) _
      (serve-Served type (before.0 || (own || behind.0)) now (expire_one now w))
      λ (c', ds) m.
        Yields-bind _ _ (serve_from n type now (before.1 ++ (c' ∷ [])) behind.1) _
          (serve_from-Moves n type now (before.1 ++ (c' ∷ [])) behind.1)
          λ (served, ds') m'.
            let own' =
              ⟶*-trans (give_up_waiting-Comes now c)
                (⟶*-trans (⟶*-of (expire_one-state now w)) m) in
            Moves-trans (front ++ (c ∷ cs)) (before.1 ++ (c' ∷ behind.1)) served
              (Moves-append front before.1 (c ∷ cs) (c' ∷ behind.1) (expire_pto-Moves now front)
                (own', expire_pto-Moves now cs))
              (subst (λ l. Moves l served) (append_assoc before.1 (c' ∷ []) behind.1) m')

-- A turn of SocketLoop moves the state of each connection along the diagram, where it returns.
pub socket_turn-Moves :
    (type : PeerType) (now : TimeVal) (cs : List Connection)
    → Yields (λ (r : List Connection × List ByteStream). Moves cs r.0) (socket_turn type now cs)
unfolding socket_turn
socket_turn-Moves type now cs = serve_from-Moves (length cs) type now [] cs
