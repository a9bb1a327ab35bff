-- ===== src/Context/Incoming/OneRtt/Acks.antt =====
-- A packet of ACK frames and the connections that it is for.
use simple_quic.Common.{
  ◌≡◌, refl, sym, ap, subst, ◌∙◌, List, [], ◌∷◌, Bool, true, false, not, ◌&&◌, some, Result, ok,
  ◌>>=◌, inl, inr, ◌⊎◌, arith,
}
use simple_quic.Utils.Interval.Sets.{IntervalSet}
use simple_quic.Payload.Frame.{Frame}
use simple_quic.Payload.Packet.{get_dst_id}
use simple_quic.Payload.Packet.Whole.{Packet}
use simple_quic.Context.ConnectionId.{ConnectionId, same_id}
use simple_quic.Context.Ledger.{TimeVal}
use simple_quic.Context.Incoming.{Connection, Handling, state_of, is_closed}
use simple_quic.Context.Incoming.Acks.{IsSound, IsAcking, on_ack-IsSender}
use simple_quic.Context.Incoming.OneRtt.{
  Batch, found_by, handle_first, ack_handler, is_open_for, on_frame, next_by, on_frames, on_one_rtt,
  frames_of,
}

-- Each closed connection is as before.
abbrev pub KeepsClosed : List Connection → List Connection → Type 0
KeepsClosed [] [] = Unit {0}
KeepsClosed (c ∷ cs) (d ∷ ds) = ((is_closed (state_of c) ≡ false) ⊎ (c ≡ d)) × KeepsClosed cs ds
KeepsClosed _ _ = ⊥

KeepsClosed-refl : (cs : List Connection) → KeepsClosed cs cs
KeepsClosed-refl [] = tt
KeepsClosed-refl (c ∷ cs) = (inr refl, KeepsClosed-refl cs)

either :
    (c d e : Connection)
    → (is_closed (state_of c) ≡ false) ⊎ (c ≡ d)
    → (is_closed (state_of d) ≡ false) ⊎ (d ≡ e)
    → (is_closed (state_of c) ≡ false) ⊎ (c ≡ e)
either c d e (inl h) k = inl h
either c d e (inr h) (inl k) = inl (subst (λ x. is_closed (state_of x) ≡ false) (sym h) k)
either c d e (inr h) (inr k) = inr (h ∙ k)

KeepsClosed-trans :
    (cs ds es : List Connection) → KeepsClosed cs ds → KeepsClosed ds es → KeepsClosed cs es
KeepsClosed-trans [] [] es k k' = k'
KeepsClosed-trans (c ∷ cs) (d ∷ ds) (e ∷ es) (h, k) (h', k') =
    (either c d e h h', KeepsClosed-trans cs ds es k k')
KeepsClosed-trans [] (d ∷ ds) es k k' = absurd k
KeepsClosed-trans (c ∷ cs) [] es k k' = absurd k
KeepsClosed-trans (c ∷ cs) (d ∷ ds) [] k k' = absurd k'

-- What is asked of every connection.
abbrev pub AllSound : List Connection → Type 0
AllSound [] = Unit {0}
AllSound (c ∷ cs) = IsSound c × AllSound cs

abbrev Handles : List Connection → Result Batch → Type 0
Handles cs r = (b : Batch) × (r ≡ ok b) × AllSound b.connections × KeepsClosed cs b.connections

abbrev handled : Bool → Connection → Bool × Handling
handled added d =
    let h : Handling = record { connection = d; have_added_to_ack = added } in (true, h)

abbrev batch_of : List Connection → Bool × Handling → Batch
batch_of cs (on, h) = record {
  connections = h.connection ∷ cs;
  have_added_to_ack = h.have_added_to_ack;
  goes_on = on;
}

found_by-Handles :
    (b same : Bool) (now : TimeVal) (acked : IntervalSet) (added : Bool) (c : Connection)
    (cs : List Connection) (rest : Result Batch)
    → not (is_closed (state_of c)) && same ≡ b
    → AllSound (c ∷ cs)
    → IsAcking acked
    → Handles cs rest
    → Handles (c ∷ cs) (found_by b (ack_handler now acked) added c cs rest)
unfolding found_by ack_handler
found_by-Handles true same now acked added c cs rest e (i, others) a _ =
    let (c', run, i', queue, kept, points) = on_ack-IsSender now acked c i a in
    let first : Connection → Result (Bool × Handling) = λ d. ok (handled added d) in
    let then : Bool × Handling → Result Batch = λ found. ok (batch_of cs found) in
    (
      record { connections = c' ∷ cs; have_added_to_ack = added; goes_on = true },
      ap (λ (r : Result Connection). (r >>= first) >>= then) run,
      (i', others),
      (inl (ground (arith, e)), KeepsClosed-refl cs),
    )
found_by-Handles false same now acked added c cs rest e (i, others) a (b, run, sound, kept) = (
  record b { connections = c ∷ b.connections },
  ap (λ (r : Result Batch). do b' ← r; ok (record b' { connections = c ∷ b'.connections })) run,
  (i, sound),
  (inr refl, kept),
)

handle_first-Handles :
    (dst : ConnectionId) (now : TimeVal) (acked : IntervalSet) (added : Bool) (cs : List Connection)
    → AllSound cs
    → IsAcking acked
    → Handles cs (handle_first (is_open_for dst) (ack_handler now acked) (ok false) added cs)
unfolding handle_first
handle_first-Handles dst now acked added [] s a =
    (record { connections = []; have_added_to_ack = added; goes_on = false }, refl, tt, tt)
handle_first-Handles dst now acked added (c ∷ cs) (i, others) a =
    found_by-Handles (is_open_for dst c) (same_id c.local dst) now acked added c cs
      (handle_first (is_open_for dst) (ack_handler now acked) (ok false) added cs) refl (i, others)
      a (handle_first-Handles dst now acked added cs others a)

-- Frames that acknowledge, with or without ECN counts.
abbrev pub AllAcks : List Frame → Type 0
AllAcks [] = Unit {0}
AllAcks (Frame.ack delay ranges ∷ fs) = IsAcking ranges × AllAcks fs
AllAcks (Frame.ack_ecn delay ranges ect0 ect1 ectce ∷ fs) = IsAcking ranges × AllAcks fs
AllAcks (f ∷ fs) = ⊥

next_by-Handles :
    (go : Bool) (on : Bool → List Connection → Result Batch) (cs : List Connection) (b : Batch)
    → AllSound b.connections
    → KeepsClosed cs b.connections
    → Handles b.connections (on b.have_added_to_ack b.connections)
    → Handles cs (next_by go on b)
unfolding next_by
next_by-Handles true on cs b s k (b', run, s', k') =
    (b', run, s', KeepsClosed-trans cs b.connections b'.connections k k')
next_by-Handles false on cs b s k _ = (b, refl, s, k)

after :
    (r : Result Batch) (on : Bool → List Connection → Result Batch) (cs : List Connection)
    → Handles cs r
    → ((added : Bool) (ds : List Connection) → AllSound ds → Handles ds (on added ds))
    → Handles cs (do b ← r; next_by b.goes_on on b)
after r on cs (b, run, s, k) h =
    let (b', run', s', k') =
      next_by-Handles b.goes_on on cs b s k (h b.have_added_to_ack b.connections s) in
    (b', ap (λ q. do d ← q; next_by d.goes_on on d) run ∙ run', s', k')

on_frames-Handles :
    (now : TimeVal) (p : Packet) (fs : List Frame) (added : Bool) (cs : List Connection)
    → AllAcks fs
    → AllSound cs
    → Handles cs (on_frames now p fs added cs)
unfolding on_frames on_frame
on_frames-Handles now p [] added cs a s = (
  record { connections = cs; have_added_to_ack = added; goes_on = true },
  refl,
  s,
  KeepsClosed-refl cs,
)
on_frames-Handles now p (Frame.ack delay ranges ∷ fs) added cs (a, as') s =
    after _ (on_frames now p fs) cs
      (handle_first-Handles (get_dst_id p.header) now ranges added cs s a)
      (λ added' ds s'. on_frames-Handles now p fs added' ds as' s')
on_frames-Handles now p (Frame.ack_ecn delay ranges ect0 ect1 ectce ∷ fs) added cs (a, as') s =
    after _ (on_frames now p fs) cs
      (handle_first-Handles (get_dst_id p.header) now ranges added cs s a)
      (λ added' ds s'. on_frames-Handles now p fs added' ds as' s')
on_frames-Handles now p (f ∷ fs) added cs a s = absurd a

pub on_one_rtt-AllSound :
    (now : TimeVal) (p : Packet) (fs : List Frame) (cs : List Connection)
    → p.payload ≡ some fs
    → AllAcks fs
    → AllSound cs
    → (ds : List Connection) × (on_one_rtt now p cs ≡ ok ds) × AllSound ds × KeepsClosed cs ds
unfolding on_one_rtt frames_of
on_one_rtt-AllSound now p fs cs e a s =
    let (b, run, s', k) = on_frames-Handles now p fs false cs a s in
    (
      b.connections,
      ap (λ q. do gs ← frames_of q; b' ← on_frames now p gs false cs; ok b'.connections) e
          ∙ ap (λ r. do b' ← r; ok b'.connections) run,
      s',
      k,
    )
