-- ===== src/Context/Incoming/Data/Moves.antt =====
-- The state of the connection after a STREAM frame.
use simple_quic.Common.{
  ◌≡◌, refl, sym, subst, ◌∙◌, ℕ, List, Bool, true, false, not, Result, ◌*◌, ◌%◌, ◌^◌, Yields,
  Yields-bind, Yields-weaken, inl, inr, ◌⊎◌,
}
use simple_quic.Payload.Frame.{Frame}
use simple_quic.Payload.Packet.Whole.{Packet}
use simple_quic.Context.Floats.{scaled_limit}
use simple_quic.Context.Congestion.{ConnectionState, wait_for_peer_close}
use simple_quic.Context.Stream.{Chunk, set_max_recv_offset}
use simple_quic.Context.Streams.{
  Streams, stream_at, set_stream, touch, insert_stream, is_stream_id_used, set_max_recv_size,
  set_max_recv_stream_num,
}
use simple_quic.Context.Streams.Limits.{
  should_inc_recv_limit, should_inc_recv_size, should_inc_stream_num_limit,
}
use simple_quic.Context.Ledger.{TimeVal}
use simple_quic.Context.Sending.{update_idle_time}
use simple_quic.Context.States.{◌⟶*◌, here, then, close, IsAlive, ⟶*-of}
use simple_quic.Context.Closing.{close_connection}
use simple_quic.Context.Closing.Laws.{close_connection-state}
use simple_quic.Context.Incoming.{Handling, state_of, note_received, with_streams, queue_frame}
use simple_quic.Context.Incoming.Kept.{
  Stays, note_received-Stays, with_streams-Stays, queue_frame-Stays,
}
use simple_quic.Context.Incoming.Frames.{has_received}
use simple_quic.Context.Incoming.Frames.Moves.{Goes, unless_received-Goes}
use simple_quic.Context.Incoming.Data.{
  close_by, raise_by, raise_stream_num, open_by, raise_stream, raise_size, take_data, data_by,
  permits, accept_data, on_stream, stream_limit_reason, stream_limit_error, flow_control_reason,
  flow_control_error,
}

-- The state is that before, or the connection waits for its peer to close.
abbrev Ends : ConnectionState → Handling → Type 0
Ends s h = (state_of h.connection ≡ s) ⊎ (state_of h.connection ≡ wait_for_peer_close)

Ends-Stays :
    (s : ConnectionState) (h h' : Handling)
    → Ends s h
    → Stays (state_of h.connection) h'
    → Ends s h'
Ends-Stays s h h' (inl e) e' = inl (e' ∙ e)
Ends-Stays s h h' (inr e) e' = inr (e' ∙ e)

-- A step that keeps the state.
then-Ends :
    (s : ConnectionState) (h : Handling) (r : Result Handling)
    → Ends s h
    → Yields (Stays (state_of h.connection)) r
    → Yields (Ends s) r
then-Ends s h r d k = Yields-weaken _ _ r k (λ h' e. Ends-Stays s h h' d e)

close_by-Ends :
    (b : Bool) (now : TimeVal) (reason : List ℕ) (error_code : ℕ) (s : ConnectionState)
    (h : Handling)
    → Ends s h
    → Yields (Ends s) (close_by b now reason error_code h)
unfolding close_by
close_by-Ends false now reason error_code s h d = d
close_by-Ends true now reason error_code s h d =
    Yields-bind _ _ (close_connection now reason error_code h.connection) _
      (close_connection-state now reason error_code h.connection) (λ c e. inr e)

raise_by-Stays :
    (b : Bool) (frame : Frame) (raise : Streams → Streams) (h : Handling)
    → Yields (Stays (state_of h.connection)) (raise_by b frame raise h)
unfolding raise_by
raise_by-Stays false frame raise h = refl
raise_by-Stays true frame raise h =
    Yields-bind _ _ (queue_frame frame h) _ (queue_frame-Stays frame h)
      (λ h' e. with_streams-Stays (raise h'.connection.streams) h' ∙ e)

raise_stream_num-Stays :
    (h : Handling) → Yields (Stays (state_of h.connection)) (raise_stream_num h)
unfolding raise_stream_num
raise_stream_num-Stays h =
    let t = h.connection.streams in
    let n = t.max_recv_stream_num * 2 % 2 ^ 64 in
    raise_by-Stays (should_inc_stream_num_limit t) (Frame.max_streams false n)
      (set_max_recv_stream_num n) h

raise_stream-Stays :
    (id : ℕ) (h : Handling) → Yields (Stays (state_of h.connection)) (raise_stream id h)
unfolding raise_stream
raise_stream-Stays id h =
    let s = stream_at id h.connection.streams in
    let limit = scaled_limit s.max_recv_offset in
    raise_by-Stays (should_inc_recv_limit s) (Frame.max_stream_data id limit)
      (λ t. set_stream id (set_max_recv_offset limit (stream_at id t)) t) h

raise_size-Stays : (h : Handling) → Yields (Stays (state_of h.connection)) (raise_size h)
unfolding raise_size
raise_size-Stays h =
    let t = h.connection.streams in
    let limit = scaled_limit t.max_recv_size in
    raise_by-Stays (should_inc_recv_size t) (Frame.max_data limit) (set_max_recv_size limit) h

open_by-Ends :
    (used : Bool) (id : ℕ) (now : TimeVal) (h : Handling)
    → Yields (Ends (state_of h.connection)) (open_by used id now h)
unfolding open_by
open_by-Ends true id now h = inl refl
open_by-Ends false id now h =
    let inserted = insert_stream id true h.connection.streams in
    let s = state_of h.connection in
    Yields-bind _ _
      (close_by (not inserted.0) now stream_limit_reason stream_limit_error
        (with_streams inserted.1 h))
      _
      (close_by-Ends (not inserted.0) now stream_limit_reason stream_limit_error s
        (with_streams inserted.1 h) (inl (with_streams-Stays inserted.1 h)))
      (λ h' d. then-Ends s h' (raise_stream_num h') d (raise_stream_num-Stays h'))

data_by-Ends :
    (b : Bool) (id : ℕ) (c : Chunk) (now : TimeVal) (p : Packet) (s : ConnectionState)
    (h : Handling)
    → Ends s h
    → Yields (Ends s) (data_by b id c now p h)
unfolding data_by take_data update_idle_time state_of
data_by-Ends false id c now p s h d =
    close_by-Ends true now flow_control_reason flow_control_error s h d
data_by-Ends true id c now p s h d =
    Yields-bind _ _ (note_received now p h) _
      (then-Ends s h (note_received now p h) d (note_received-Stays now p h))
      λ noted kept.
        Yields-bind _ _ (raise_stream id (take_data id c noted)) _
          (then-Ends s noted (raise_stream id (take_data id c noted)) kept
            (raise_stream-Stays id (take_data id c noted)))
          λ raised kept'.
            Yields-bind _ _ (raise_size raised) _
              (then-Ends s raised (raise_size raised) kept' (raise_size-Stays raised)) (λ last k. k)

accept_data-Ends :
    (id : ℕ) (c : Chunk) (now : TimeVal) (p : Packet) (h : Handling)
    → Yields (Ends (state_of h.connection)) (accept_data id c now p h)
unfolding accept_data
accept_data-Ends id c now p h =
    let s = state_of h.connection in
    let used = is_stream_id_used id h.connection.streams in
    Yields-bind _ _ (open_by used id now h) _ (open_by-Ends used id now h) λ h' d.
      let t = touch id h'.connection.streams in
      data_by-Ends (permits id c t) id c now p s (with_streams t h')
        (Ends-Stays s h' (with_streams t h') d (with_streams-Stays t h'))

Ends-⟶* : (s : ConnectionState) (h : Handling) → IsAlive s → Ends s h → s ⟶* state_of h.connection
Ends-⟶* s h a (inl e) = ⟶*-of e
Ends-⟶* s h a (inr e) = subst (λ t. s ⟶* t) (sym e) (then (close a) here)

pub on_stream-Goes :
    (id : ℕ) (c : Chunk) (now : TimeVal) (p : Packet) (h : Handling)
    → IsAlive (state_of h.connection)
    → Yields (Goes (state_of h.connection)) (on_stream id c now p h)
unfolding on_stream
on_stream-Goes id c now p h a = unless_received-Goes (has_received p h) (accept_data id c now p) h (
    Yields-weaken _ _ (accept_data id c now p h) (accept_data-Ends id c now p h)
      (λ h' d. Ends-⟶* (state_of h.connection) h' a d))
