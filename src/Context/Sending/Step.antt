-- ===== src/Context/Sending/Step.antt =====
-- One turn of the loop over the pending packets.
use simple_quic.Context.Sending.Sent.{
  AllEncode, skip_acked, unacked_packets, encode_each, IsSender, HasSent, Turns,
}
use simple_quic.Common.{
  ℕ, suc, ◌<◌, ◌^◌, ◌≡◌, refl, sym, ap, subst, ◌∙◌, List, [], ◌∷◌, ◌++◌, append-nil, Bool, true,
  false, not, ◌&&◌, leb, length, if◌then◌else◌, Result, ok, ◌>>=◌, arith, inl, inr,
}
use simple_quic.Utils.Interval.Sets.{IntervalSet, contain}
use simple_quic.Utils.ByteStream.{ByteStream}
use simple_quic.Payload.Packet.Whole.{Packet, packet_len}
use simple_quic.Context.Congestion.{whether_can_send_pkt}
use simple_quic.Context.Queue.{Queue, num_of, dequeue, get_pending_package_need_ack, first_of}
use simple_quic.Context.Queue.Invariant.{AllOnce, IsQueue, dequeue-IsQueue}
use simple_quic.Context.Ledger.{TimeVal, Ledger}
use simple_quic.Context.Ledger.Invariant.{
  IsLedger, add_need_ack_sent_pkt-IsLedger, add_sent_pkt-IsLedger,
}
use simple_quic.Context.Sending.{
  Sender, Sends, Turn, update_idle_time, idle_by, encode_datagram, drop_front, note_by,
  in_flight_by, send_front, try_front, send_by,
}

idle_by-keeps :
    (b : Bool) (now : TimeVal) (s : Sender)
    → ((idle_by b now s).ledger ≡ s.ledger) × ((idle_by b now s).queue ≡ s.queue)
unfolding idle_by update_idle_time
idle_by-keeps false now s = (refl, refl)
idle_by-keeps true now s = (refl, refl)

note_by-IsLedger :
    (need : Bool) (now : TimeVal) (p : Packet) (s : Sender) (len : ℕ)
    → packet_len p ≡ ok len
    → num_of p < 2 ^ 32
    → IsLedger s.ledger
    → (s' : Sender) × (note_by need now p s ≡ ok s')
      × IsLedger s'.ledger
      × (s'.queue ≡ s.queue)
      × (s'.ledger.acked_sent_pkt_num ≡ s.ledger.acked_sent_pkt_num)
unfolding note_by
note_by-IsLedger false now p s len e small i =
    let (l, run, i', same) = add_sent_pkt-IsLedger p s.ledger small i in
    (
      record s { ledger = l },
      ap (λ r. do l' ← r; ok (record s { ledger = l' })) run,
      i',
      refl,
      same,
    )
note_by-IsLedger true now p s len e small i =
    let (l, run, i', same) = add_need_ack_sent_pkt-IsLedger now p s.ledger len e small i in
    let noted =
      λ (l' : Ledger). idle_by s.no_ack_elicity_packet_sent now (record s { ledger = l' }) in
    let (ledger, queue) =
      idle_by-keeps s.no_ack_elicity_packet_sent now (record s { ledger = l }) in
    (
      noted l,
      ap (λ r. do l' ← r; ok (noted l')) run,
      subst IsLedger (sym ledger) i',
      queue,
      ap (λ (l' : Ledger). l'.acked_sent_pkt_num) ledger ∙ same,
    )

in_flight_by-IsLedger :
    (need : Bool) (len : ℕ) (l : Ledger) → IsLedger l → IsLedger (in_flight_by need len l)
unfolding in_flight_by
in_flight_by-IsLedger false len l i = i
in_flight_by-IsLedger true len l i = record {
  timed = i.timed;
  paired = i.paired;
  ordered = i.ordered;
}

in_flight_by-same :
    (need : Bool) (len : ℕ) (l : Ledger)
    → (in_flight_by need len l).acked_sent_pkt_num ≡ l.acked_sent_pkt_num
unfolding in_flight_by
in_flight_by-same false len l = refl
in_flight_by-same true len l = refl

encode_one :
    (acked : IntervalSet) (p : Packet) (b : ByteStream)
    → contain acked (num_of p) ≡ false
    → encode_datagram p ≡ ok b
    → encode_each (unacked_packets acked (p ∷ [])) ≡ ok (b ∷ [])
unfolding encode_each unacked_packets
encode_one acked p b h e =
    subst (λ c. encode_each (skip_acked c p []) ≡ ok (b ∷ [])) (sym h)
      (ap (λ r. do b' ← r; ok (b' ∷ [])) e)

flagged : (bs : List Bool) (n : ℕ) → length bs ≡ suc n → (b : Bool) × (first_of bs ≡ ok b)
unfolding first_of
flagged [] n e = absurd (ground (arith, e))
flagged (b ∷ bs) n e = (b, refl)

-- A queue that begins with `p`: its number fits 32 bits, and there is a flag for it.
pub at_front :
    (p : Packet) (rest : List Packet) (q : Queue)
    → IsQueue q
    → q.pending ≡ p ∷ rest
    → (num_of p < 2 ^ 32) × ((need : Bool) × (get_pending_package_need_ack q ≡ ok need))
unfolding get_pending_package_need_ack
at_front p rest q i e = (
  (subst AllOnce e i.once).0,
  flagged q.need_ack (length rest) (i.flags ∙ ap (λ (ps : List Packet). length ps) e),
)

send_front-HasSent :
    (pto_expired need : Bool) (now : TimeVal) (p : Packet) (rest : List Packet) (n : ℕ) (s : Sends)
    → IsSender s.sender
    → s.sender.queue.pending ≡ p ∷ rest
    → AllEncode (p ∷ [])
    → contain s.sender.ledger.acked_sent_pkt_num (num_of p) ≡ false
    → (s' : Sends) × (send_front pto_expired need now p n s
        ≡ ok (if pto_expired then Turn.break s' else Turn.again s'))
      × HasSent (p ∷ []) rest s s'
unfolding send_front
send_front-HasSent pto_expired need now p rest n s i front ((len, b, size, encoded), _) fresh =
    let (small, _) = at_front p rest s.sender.queue i.queue front in
    let (noted, run, ledger, same_queue, same_acked) =
      note_by-IsLedger need now p s.sender len size small i.ledger in
    let (q, run', queue, left) =
      dequeue-IsQueue p rest noted.queue (subst IsQueue (sym same_queue) i.queue)
        (ap (λ (q : Queue). q.pending) same_queue ∙ front) in
    let after : ℕ → Sender → ByteStream → Queue → Sends = λ len' noted' b' q'. record {
      sender = record noted' { queue = q'; ledger = in_flight_by need len' noted'.ledger };
      sent_when_congested = n;
      datagrams = s.datagrams ++ (b' ∷ []);
    } in
    let end : Sends → Turn = λ s'. if pto_expired then Turn.break s' else Turn.again s' in
    (
      after len noted b q,
      ap
            (λ r. do
              len' ← r
              noted' ← note_by need now p s.sender
              b' ← encode_datagram p
              q' ← dequeue p noted'.queue
              ok (end (after len' noted' b' q')))
            size
          ∙ ap
              (λ r. do
                noted' ← r
                b' ← encode_datagram p
                q' ← dequeue p noted'.queue
                ok (end (after len noted' b' q')))
              run
          ∙ ap (λ r. do b' ← r; q' ← dequeue p noted.queue; ok (end (after len noted b' q')))
              encoded
          ∙ ap (λ r. do q' ← r; ok (end (after len noted b q'))) run',
      record {
        sound = record {
          queue = queue;
          ledger = in_flight_by-IsLedger need len noted.ledger ledger;
        };
        left = left;
        same_acked = in_flight_by-same need len noted.ledger ∙ same_acked;
        sent = b ∷ [];
        encoded = encode_one s.sender.ledger.acked_sent_pkt_num p b fresh encoded;
        appended = refl;
      },
    )

front-Turns :
    (pto_expired : Bool) (p : Packet) (rest : List Packet) (s s' : Sends) (r : Result Turn)
    → r ≡ ok (if pto_expired then Turn.break s' else Turn.again s')
    → HasSent (p ∷ []) rest s s'
    → Turns pto_expired p rest s r
front-Turns true p rest s s' r e h = (Turn.break s', e, inl (h, refl))
front-Turns false p rest s s' r e h = (Turn.again s', e, h)

blocked :
    (b pto_expired : Bool) (p : Packet) (rest : List Packet) (s : Sends) (r : Result Turn)
    → leb 2 s.sent_when_congested ≡ b
    → Turns pto_expired p rest s r
    → Turns pto_expired p rest s (if b then ok (Turn.break s) else r)
blocked true pto_expired p rest s r e t = (Turn.break s, refl, inr (refl, ground (arith, e)))
blocked false pto_expired p rest s r e t = t

try_front-Turns :
    (pto_expired held need : Bool) (now : TimeVal) (p : Packet) (rest : List Packet) (s : Sends)
    → ((n : ℕ) → Turns pto_expired p rest s (send_front pto_expired need now p n s))
    → Turns pto_expired p rest s (try_front pto_expired held need now p s)
unfolding try_front
try_front-Turns pto_expired false need now p rest s t = t s.sent_when_congested
try_front-Turns pto_expired true need now p rest s t =
    blocked (leb 2 s.sent_when_congested) pto_expired p rest s
      (send_front pto_expired need now p (suc s.sent_when_congested) s) refl
      (t (suc s.sent_when_congested))

pub send_by-Turns :
    (acked pto_expired : Bool) (now : TimeVal) (p : Packet) (rest : List Packet) (s : Sends)
    → IsSender s.sender
    → s.sender.queue.pending ≡ p ∷ rest
    → AllEncode (p ∷ [])
    → contain s.sender.ledger.acked_sent_pkt_num (num_of p) ≡ acked
    → Turns pto_expired p rest s (send_by acked pto_expired now p s)
unfolding send_by drop_front encode_each unacked_packets
send_by-Turns true pto_expired now p rest s i front a fresh =
    let (q, run, queue, left) = dequeue-IsQueue p rest s.sender.queue i.queue front in
    let after : Queue → Sends = λ q'. record s { sender = record s.sender { queue = q' } } in
    (
      Turn.again (after q),
      ap (λ r. do q' ← r; ok (Turn.again (after q'))) run,
      record {
        sound = record { queue = queue; ledger = i.ledger };
        left = left;
        same_acked = refl;
        sent = [];
        encoded = ap (λ c. encode_each (skip_acked c p [])) fresh;
        appended = sym (append-nil s.datagrams);
      },
    )
send_by-Turns false pto_expired now p rest s i front ((len, b, size, encoded), _) fresh =
    let (small, (need, flag)) = at_front p rest s.sender.queue i.queue front in
    let held : ℕ → Bool → Bool =
      λ len' need'. need' && not (whether_can_send_pkt len' s.sender.ledger.congestion) in
    let (t, run, ends) = try_front-Turns pto_expired (held len need) need now p rest s (λ n.
      let (s', run, h) =
        send_front-HasSent pto_expired need now p rest n s i front ((len, b, size, encoded), tt)
          fresh in
      front-Turns pto_expired p rest s s' (send_front pto_expired need now p n s) run h) in
    (
      t,
      ap
            (λ r. do
              len' ← r
              need' ← get_pending_package_need_ack s.sender.queue
              try_front pto_expired (held len' need') need' now p s)
            size
          ∙ ap (λ r. do need' ← r; try_front pto_expired (held len need') need' now p s) flag
          ∙ run,
      ends,
    )
