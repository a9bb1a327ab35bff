-- ===== src/Context/Incoming/OneRtt/Moves.antt =====
-- The states of the connections after a ONE_RTT packet.
use simple_quic.Common.{
  ◌≡◌, refl, ℕ, List, [], ◌∷◌, Bool, true, false, not, Result, ok, err, Error, Yields, Yields-bind,
  Yields-then, Yields-weaken, arith,
}
use simple_quic.Utils.Interval.Sets.{IntervalSet}
use simple_quic.Payload.Frame.{Frame}
use simple_quic.Payload.Packet.Whole.{Packet}
use simple_quic.Context.Congestion.{
  ConnectionState, created, established, peer_established, wait_for_peer_close, closed,
}
use simple_quic.Context.Stream.{Chunk}
use simple_quic.Context.Ledger.{TimeVal}
use simple_quic.Context.States.{
  here, IsAlive, new, met, half, Moves, Moves-refl, Moves-trans, ⟶*-of,
}
use simple_quic.Context.Incoming.{
  Connection, Handling, state_of, on_ack, on_max_data, on_max_stream_data, on_max_streams,
  on_stream_data_blocked, on_data_blocked,
}
use simple_quic.Context.Incoming.Kept.{
  Stays, on_ack-Goes, on_max_data-Stays, on_max_stream_data-Stays, on_max_streams-Stays,
  on_stream_data_blocked-Stays, on_data_blocked-Stays,
}
use simple_quic.Context.Incoming.Frames.{on_ping}
use simple_quic.Context.Incoming.Frames.Moves.{
  Goes, on_reset_stream-Goes, on_connection_close-Goes, on_ping-Goes,
}
use simple_quic.Context.Incoming.Data.{on_stream}
use simple_quic.Context.Incoming.Data.Moves.{on_stream-Goes}
use simple_quic.Context.Incoming.OneRtt.{
  Batch, Handler, found_by, handle_first, then_on, ack_handler, unless_skipped, is_peer_established,
  is_ending, on_frame, on_frames, next_by, on_one_rtt, frames_of,
}

-- The handler moves the state of a connection along the diagram.
abbrev pub Drives : Handler → Type 0
Drives f = (h : Handling) → Yields (Goes (state_of h.connection)) (f h)

found_by-Moves :
    (b : Bool) (f : Handler) (added : Bool) (c : Connection) (cs : List Connection)
    (rest : Result Batch)
    → Drives f
    → Yields (λ r. Moves cs r.connections) rest
    → Yields (λ r. Moves (c ∷ cs) r.connections) (found_by b f added c cs rest)
unfolding found_by
found_by-Moves true f added c cs rest d k =
    Yields-bind _ _ (f (record { connection = c; have_added_to_ack = added })) _
      (d (record { connection = c; have_added_to_ack = added })) (λ (on, h) g. (g, Moves-refl cs))
found_by-Moves false f added c cs rest d k = Yields-bind _ _ rest _ k (λ r m. (here, m))

pub handle_first-Moves :
    (test : Connection → Bool) (f : Handler) (missing : Result Bool) (added : Bool)
    (cs : List Connection)
    → Drives f
    → Yields (λ r. Moves cs r.connections) (handle_first test f missing added cs)
unfolding handle_first
handle_first-Moves test f missing added [] d = Yields-then _ missing _ (λ on. tt)
handle_first-Moves test f missing added (c ∷ cs) d =
    found_by-Moves (test c) f added c cs (handle_first test f missing added cs) d
      (handle_first-Moves test f missing added cs d)

then_on-Drives :
    (f : Handling → Result Handling)
    → ((h : Handling) → Yields (Stays (state_of h.connection)) (f h))
    → Drives (λ h. then_on (f h))
unfolding then_on
then_on-Drives f k h = Yields-bind _ _ (f h) _ (k h) (λ h' e. ⟶*-of e)

ack_handler-Drives : (now : TimeVal) (acked : IntervalSet) → Drives (ack_handler now acked)
unfolding ack_handler
ack_handler-Drives now acked h =
    Yields-bind _ _ (on_ack now acked h.connection) _ (on_ack-Goes now acked h.connection)
      (λ c g. g)

skip-Goes :
    (b : Bool) (f : Handler) (h : Handling)
    → (b ≡ false → Yields (Goes (state_of h.connection)) (f h))
    → Yields (Goes (state_of h.connection)) (unless_skipped b f h)
unfolding unless_skipped
skip-Goes true f h k = here
skip-Goes false f h k = k refl

alive : (s : ConnectionState) → is_ending s ≡ false → IsAlive s
alive created e = new
alive established e = met
alive peer_established e = half
alive wait_for_peer_close e = absurd (ground (arith, e))
alive closed e = absurd (ground (arith, e))

stream-Drives :
    (id : ℕ) (c : Chunk) (now : TimeVal) (p : Packet)
    → Drives (λ h. unless_skipped (is_ending (state_of h.connection)) (on_stream id c now p) h)
stream-Drives id c now p h =
    skip-Goes (is_ending (state_of h.connection)) (on_stream id c now p) h
      (λ e. on_stream-Goes id c now p h (alive (state_of h.connection) e))

ping-Drives :
    (now : TimeVal) (p : Packet)
    → Drives
        (λ h. unless_skipped (not (is_peer_established (state_of h.connection))) (on_ping now p) h)
ping-Drives now p h =
    skip-Goes (not (is_peer_established (state_of h.connection))) (on_ping now p) h
      (λ e. on_ping-Goes now p h)

abbrev FrameMoves : TimeVal → Packet → Bool → List Connection → Frame → Type 0
FrameMoves now p added cs f = Yields (λ b. Moves cs b.connections) (on_frame now p f added cs)

on_frame-Moves :
    (now : TimeVal) (p : Packet) (f : Frame) (added : Bool) (cs : List Connection)
    → FrameMoves now p added cs f
unfolding on_frame
on_frame-Moves now p (Frame.stream off len fin id offset bytes) added cs =
    handle_first-Moves _ _ (err Error.assertion) added cs
      (stream-Drives id (record { bytes = bytes; offset = offset; fin = fin }) now p)
on_frame-Moves now p (Frame.reset_stream id error_code final_size) added cs =
    handle_first-Moves _ _ (err Error.assertion) added cs (on_reset_stream-Goes id now p)
on_frame-Moves now p (Frame.connection_close_quic error_code frame_type reason) added cs =
    handle_first-Moves _ _ (err Error.assertion) added cs (on_connection_close-Goes now p)
on_frame-Moves now p (Frame.connection_close_app error_code reason) added cs = tt
on_frame-Moves now p (Frame.ack delay ranges) added cs =
    handle_first-Moves _ _ (ok false) added cs (ack_handler-Drives now ranges)
on_frame-Moves now p (Frame.ack_ecn delay ranges ect0 ect1 ectce) added cs =
    handle_first-Moves _ _ (ok false) added cs (ack_handler-Drives now ranges)
on_frame-Moves now p (Frame.max_data n) added cs =
    handle_first-Moves _ _ (ok false) added cs
      (then_on-Drives (on_max_data n now p) (on_max_data-Stays n now p))
on_frame-Moves now p (Frame.max_stream_data id n) added cs =
    handle_first-Moves _ _ (ok false) added cs
      (then_on-Drives (on_max_stream_data id n now p) (on_max_stream_data-Stays id n now p))
on_frame-Moves now p (Frame.max_streams unidirectional n) added cs =
    handle_first-Moves _ _ (ok false) added cs
      (then_on-Drives (on_max_streams n now p) (on_max_streams-Stays n now p))
on_frame-Moves now p Frame.ping added cs =
    handle_first-Moves _ _ (ok true) added cs (ping-Drives now p)
on_frame-Moves now p (Frame.stream_data_blocked id n) added cs =
    handle_first-Moves _ _ (ok false) added cs
      (then_on-Drives (on_stream_data_blocked id n now p) (on_stream_data_blocked-Stays id n now p))
on_frame-Moves now p (Frame.data_blocked n) added cs =
    handle_first-Moves _ _ (ok false) added cs
      (then_on-Drives (on_data_blocked n now p) (on_data_blocked-Stays n now p))
on_frame-Moves now p _ added cs = Moves-refl cs

next_by-Moves :
    (goes : Bool) (on : Bool → List Connection → Result Batch) (b : Batch) (cs : List Connection)
    → Moves cs b.connections
    → ((added : Bool) → Yields (λ r. Moves b.connections r.connections) (on added b.connections))
    → Yields (λ r. Moves cs r.connections) (next_by goes on b)
unfolding next_by
next_by-Moves true on b cs m k =
    Yields-weaken _ _ (on b.have_added_to_ack b.connections) (k b.have_added_to_ack)
      (λ r m'. Moves-trans cs b.connections r.connections m m')
next_by-Moves false on b cs m k = m

pub on_frames-Moves :
    (now : TimeVal) (p : Packet) (fs : List Frame) (added : Bool) (cs : List Connection)
    → Yields (λ b. Moves cs b.connections) (on_frames now p fs added cs)
unfolding on_frames
on_frames-Moves now p [] added cs = Moves-refl cs
on_frames-Moves now p (f ∷ fs) added cs =
    Yields-bind _ _ (on_frame now p f added cs) _ (on_frame-Moves now p f added cs) (λ b m.
      next_by-Moves b.goes_on (on_frames now p fs) b cs m
        (λ a. on_frames-Moves now p fs a b.connections))

pub on_one_rtt-Moves :
    (now : TimeVal) (p : Packet) (cs : List Connection) → Yields (Moves cs) (on_one_rtt now p cs)
unfolding on_one_rtt
on_one_rtt-Moves now p cs = Yields-then _ (frames_of p.payload) _ λ fs.
    Yields-bind _ _ (on_frames now p fs false cs) _ (on_frames-Moves now p fs false cs) (λ b m. m)
