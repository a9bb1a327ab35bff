-- ===== src/Context/SocketLoop/Waiting.antt =====
-- The turns of SocketLoop for a connection that waits for its peer to close.
use simple_quic.Common.{
  ℕ, ◌+◌, ◌<◌, ◌≤◌, ◌≡◌, sym, ap, subst, ◌∙◌, List, [], ◌∷◌, ◌++◌, Bool, true, false, not, ◌&&◌,
  ◌||◌, ok, Yields, Yields-bind,
}
use simple_quic.Utils.ByteStream.{ByteStream}
use simple_quic.Payload.Packet.Whole.{Packet}
use simple_quic.Context.Congestion.{ConnectionState, wait_for_peer_close, closed}
use simple_quic.Context.Streams.{PeerType, check_valid_stream}
use simple_quic.Context.Ledger.{TimeVal, AckTimer, Ledger, msec_of}
use simple_quic.Context.Ledger.Invariant.{IsLedger}
use simple_quic.Context.Sending.{update_idle_time}
use simple_quic.Context.Sending.Sent.{AllEncode, IsSender, encode_each, unacked_packets}
use simple_quic.Context.Incoming.{Connection, state_of, is_closed, set_connection_state}
use simple_quic.Context.Closing.{close_connection, close_packet, give_up_waiting, with_state}
use simple_quic.Context.Closing.Waiting.{IsNextFree, close_connection-waits}
use simple_quic.Context.Closing.Laws.{close_connection-state}
use simple_quic.Context.Timeouts.{
  any_expired, expire_one, ping_front, may_ping, is_idle, idle_by, defer_idle, close_idle,
  idle_timeout, probe, is_client, idle_reason, front_is_ping,
}
use simple_quic.Context.SocketLoop.{send_pending, send_more, serve, socket_turn}
use simple_quic.Context.SocketLoop.Kept.{expire_one-state, ping_front-state}
use simple_quic.Context.SocketLoop.Moves.{probe-Stays, send_pending-Sent, send_more-Sent, Sent}
use simple_quic.Context.SocketLoop.Flushing.{alone, socket_turn-alone, closed_turn}

-- A connection that waits for its peer: a turn leaves the state, where the alarm is not due.
abbrev IsWaiting : Connection → Type 0
IsWaiting c = state_of c ≡ wait_for_peer_close

close_idle-IsWaiting :
    (b : Bool) (now : TimeVal) (c : Connection)
    → IsWaiting c
    → Yields IsWaiting (close_idle b now c)
unfolding close_idle
close_idle-IsWaiting false now c e = e
close_idle-IsWaiting true now c e = close_connection-state now idle_reason 1 c

defer_idle-IsWaiting :
    (b : Bool) (now : TimeVal) (c : Connection)
    → IsWaiting c
    → Yields IsWaiting (defer_idle b now c)
unfolding defer_idle state_of update_idle_time
defer_idle-IsWaiting false now c e = e
defer_idle-IsWaiting true now c e =
    Yields-bind _ _ (ping_front c) _ (ping_front-state c) (λ d e'. e' ∙ e)

idle_by-IsWaiting :
    (idle : Bool) (ts : List AckTimer) (type : PeerType) (now : TimeVal) (c : Connection)
    → IsWaiting c
    → Yields IsWaiting (idle_by idle ts type now c)
unfolding idle_by
idle_by-IsWaiting false ts type now c e = e
idle_by-IsWaiting true [] type now c e =
    close_idle-IsWaiting (is_client type && may_ping (state_of c)) now c e
idle_by-IsWaiting true (t ∷ ts) type now c e =
    defer_idle-IsWaiting (may_ping (state_of c) && not (front_is_ping c.sender.queue)) now c e

serve-IsWaiting :
    (type : PeerType) (pto_expired : Bool) (now : TimeVal) (c : Connection)
    → IsWaiting c
    → Yields (Sent wait_for_peer_close) (serve type pto_expired now c)
unfolding serve idle_timeout
serve-IsWaiting type pto_expired now c e =
    Yields-bind _ _ (idle_timeout type now c) _
      (idle_by-IsWaiting (is_idle now c.sender && check_valid_stream c.streams.states)
        c.sender.ledger.not_acked_sent_pkt type now c e)
      λ idle w.
        Yields-bind _ _ (probe pto_expired idle) _ (probe-Stays pto_expired idle) λ probed e'.
          Yields-bind _ _ (send_pending pto_expired now probed) _
            (send_pending-Sent pto_expired now probed)
            λ (sent, ds) e''.
              Yields-bind _ _ (send_more (is_closed (state_of sent)) now sent) _
                (send_more-Sent (is_closed (state_of sent)) now sent)
                (λ (served, ds') k. k ∙ e'' ∙ e' ∙ w)

-- All connections of what a turn gives have the state.
abbrev pub AllAre : ConnectionState → List Connection × List ByteStream → Type 0
AllAre s ([], ds) = Unit {0}
AllAre s (c ∷ cs, ds) = (state_of c ≡ s) × AllAre s (cs, ds)

waits_on :
    (type : PeerType) (now : TimeVal) (c : Connection)
    → give_up_waiting now c ≡ c
    → IsWaiting c
    → Yields (AllAre wait_for_peer_close) (socket_turn type now (c ∷ []))
waits_on type now c stays e =
    let w = give_up_waiting now c in
    let pto : Bool = any_expired now w.sender.ledger.not_acked_sent_pkt_pto || false in
    subst (Yields (AllAre wait_for_peer_close)) (sym (socket_turn-alone type now c)) (
      Yields-bind _ _ (serve type pto now (expire_one now w)) (alone [])
        (serve-IsWaiting type pto now (expire_one now w)
          (expire_one-state now w ∙ ap state_of stays ∙ e))
        (λ (d, ds) k. (k, tt)))

-- CloseConnection of a connection whose next packet number is below 2 ^ 32 and not in its queue, where
-- the queue and the ledger are well formed and each packet of the queue, with the one that carries
-- CONNECTION_CLOSE, has a datagram: it returns. A turn of SocketLoop for this connection alone, less
-- than 2000 ms later, leaves it waiting for its peer where the turn returns. A turn 2000 ms later or
-- more returns, and the connection is CLOSED: packets from the front of the queue, which ends with the
-- one that carries CONNECTION_CLOSE, have left it, and the datagrams of the turn are those of the
-- packets among them that are not acknowledged, in order.
pub socket_turn-gives_up :
    (type : PeerType) (now soon late : TimeVal) (reason : List ℕ) (error_code : ℕ) (c : Connection)
    → IsNextFree c
    → IsLedger c.sender.ledger
    → AllEncode (c.sender.queue.pending ++ (close_packet reason error_code c ∷ []))
    → msec_of now ≤ msec_of soon
    → msec_of soon < msec_of now + 2000
    → msec_of now + 2000 ≤ msec_of late
    → (c' d : Connection) × (ds : List ByteStream) × (front : List Packet) × (close_connection now
          reason error_code c
        ≡ ok c')
      × Yields (AllAre wait_for_peer_close) (socket_turn type soon (c' ∷ []))
      × (socket_turn type late (c' ∷ []) ≡ ok (d ∷ [], ds))
      × (state_of d ≡ closed)
      × (c.sender.queue.pending ++ (close_packet reason error_code c ∷ [])
          ≡ front ++ d.sender.queue.pending)
      × (encode_each (unacked_packets c.sender.ledger.acked_sent_pkt_num front) ≡ ok ds)
unfolding set_connection_state with_state state_of
socket_turn-gives_up type now soon late reason error_code c i ledger a from before after =
    let (c', run, queue, queued, same, stays, ends) =
      close_connection-waits now soon late reason error_code c i from before after in
    let closing : Ledger = set_connection_state closed c'.sender.ledger in
    let kept : IsLedger closing =
      subst (λ l. IsLedger (set_connection_state closed l)) (sym same)
        (record { timed = ledger.timed; paired = ledger.paired; ordered = ledger.ordered }) in
    let (d, ds, turn, (closed', (front, split, sent))) =
      closed_turn type late c' (ap state_of ends)
        (subst (λ (x : Connection). IsSender x.sender) (sym ends)
          (record { queue = queue; ledger = kept }))
        (subst (λ (x : Connection). AllEncode x.sender.queue.pending) (sym ends)
          (subst AllEncode (sym queued) a)) in
    (
      c',
      d,
      ds,
      front,
      run,
      waits_on type soon c' stays (ap (λ (l : Ledger). l.congestion.cur_state) same),
      turn,
      closed',
      sym queued ∙ ap (λ (x : Connection). x.sender.queue.pending) (sym ends) ∙ split,
      ap (λ nums. encode_each (unacked_packets nums front))
            (ap (λ (l : Ledger). l.acked_sent_pkt_num) (sym same)
              ∙ ap (λ (x : Connection). x.sender.ledger.acked_sent_pkt_num) (sym ends))
          ∙ sent,
    )
