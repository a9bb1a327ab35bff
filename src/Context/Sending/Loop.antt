-- ===== src/Context/Sending/Loop.antt =====
-- The loop over the pending packets.
use simple_quic.Common.{
  ℕ, zero, suc, ◌≤◌, ◌≡◌, refl, sym, ap, subst, ◌∙◌, List, [], ◌∷◌, ◌++◌, append_assoc, append-nil,
  Bool, true, false, length, Result, ok, err, Error, ◌>>=◌, arith, ◌⊎◌, inl, inr,
}
use simple_quic.Utils.Interval.Sets.{contain}
use simple_quic.Utils.ByteStream.{ByteStream}
use simple_quic.Payload.Packet.Whole.{Packet}
use simple_quic.Context.Queue.{num_of}
use simple_quic.Context.Ledger.{TimeVal, whether_acked_pkt_num}
use simple_quic.Context.Sending.{Sends, Turn, encode_datagram, next_turn, one_turn, send_loop}
use simple_quic.Context.Sending.Step.{send_by-Turns}
use simple_quic.Context.Sending.Sent.{
  AllEncode, IsSender, HasSent, Ends, skip_acked, unacked_packets, encode_each,
}

chained :
    (D : Result ByteStream) (E F : Result (List ByteStream))
    → (do b ← D; zs ← (do bs ← E; cs ← F; ok (bs ++ cs)); ok (b ∷ zs))
      ≡ (do bs ← (do b ← D; bs' ← E; ok (b ∷ bs')); cs ← F; ok (bs ++ cs))
chained (ok b) (ok bs) (ok cs) = refl
chained (ok b) (ok bs) (err e) = refl
chained (ok b) (err e) F = refl
chained (err e) E F = refl

joined : (F : Result (List ByteStream)) → F ≡ (do cs ← F; ok cs)
joined (ok cs) = refl
joined (err e) = refl

encode_each-append :
    (ps qs : List Packet)
    → encode_each (ps ++ qs) ≡ (do bs ← encode_each ps; cs ← encode_each qs; ok (bs ++ cs))
unfolding encode_each
encode_each-append [] qs = joined (encode_each qs)
encode_each-append (p ∷ ps) qs =
    ap (λ r. do b ← encode_datagram p; zs ← r; ok (b ∷ zs)) (encode_each-append ps qs)
    ∙ chained (encode_datagram p) (encode_each ps) (encode_each qs)

skip_acked-append :
    (b : Bool) (p : Packet) (ps : List Packet) → skip_acked b p ps ≡ skip_acked b p [] ++ ps
skip_acked-append true p ps = refl
skip_acked-append false p ps = refl

-- One packet after the other.
HasSent-cons :
    (p : Packet) (mid front rest : List Packet) (s s' s'' : Sends)
    → HasSent (p ∷ []) mid s s'
    → HasSent front rest s' s''
    → HasSent (p ∷ front) rest s s''
unfolding unacked_packets
HasSent-cons p mid front rest s s' s'' h h' =
    let acked = s.sender.ledger.acked_sent_pkt_num in
    let later : encode_each (unacked_packets acked front) ≡ ok h'.sent =
      subst (λ a. encode_each (unacked_packets a front) ≡ ok h'.sent) h.same_acked h'.encoded in
    record {
      sound = h'.sound;
      left = h'.left;
      same_acked = h'.same_acked ∙ h.same_acked;
      sent = h.sent ++ h'.sent;
      encoded =
          ap encode_each
            (skip_acked-append (contain acked (num_of p)) p (unacked_packets acked front))
          ∙ encode_each-append (unacked_packets acked (p ∷ [])) (unacked_packets acked front)
          ∙ ap (λ r. do bs ← r; cs ← encode_each (unacked_packets acked front); ok (bs ++ cs))
              h.encoded
          ∙ ap (λ r. do cs ← r; ok (h.sent ++ cs)) later;
      appended =
          h'.appended
          ∙ ap (λ bs. bs ++ h'.sent) h.appended
          ∙ append_assoc s.datagrams h.sent h'.sent;
    }

HasSent-nil :
    (rest : List Packet) (s : Sends)
    → IsSender s.sender
    → s.sender.queue.pending ≡ rest
    → HasSent [] rest s s
unfolding encode_each unacked_packets
HasSent-nil rest s i e = record {
  sound = i;
  left = e;
  same_acked = refl;
  sent = [];
  encoded = refl;
  appended = sym (append-nil s.datagrams);
}

-- What the loop promises, of the packets that were pending.
abbrev pub Finishes : Bool → List Packet → Sends → Result Sends → Type 0
Finishes pto_expired ps s r =
    (s' : Sends) × (front : List Packet) × (rest : List Packet) × (r ≡ ok s')
    × (ps ≡ front ++ rest)
    × HasSent front rest s s'
    × ((rest ≡ []) ⊎ ((pto_expired ≡ true) ⊎ (2 ≤ s'.sent_when_congested)))

finish :
    (on : Sends → Result Sends) (pto_expired : Bool) (p : Packet) (rest : List Packet) (s : Sends)
    (t : Turn)
    → IsSender s.sender
    → s.sender.queue.pending ≡ p ∷ rest
    → Ends pto_expired p rest s t
    → ((s' : Sends)
        → IsSender s'.sender
        → s'.sender.queue.pending ≡ rest
        → Finishes pto_expired rest s' (on s'))
    → Finishes pto_expired (p ∷ rest) s (next_turn on t)
unfolding next_turn
finish on pto_expired p rest s (Turn.again s') i e h k =
    let (s'', front, left, run, split, h', why) = k s' h.sound h.left in
    (s'', p ∷ front, left, run, ap (◌∷◌ p) split, HasSent-cons p rest front left s s' s'' h h', why)
finish on pto_expired p rest s (Turn.break s') i e (inl (h, expired)) k =
    (s', p ∷ [], rest, refl, refl, h, inr (inl expired))
finish on pto_expired p rest s (Turn.break s') i e (inr (same, full)) k =
    (s, [], p ∷ rest, ap ok same, refl, HasSent-nil (p ∷ rest) s i e, inr (inr full))

turns :
    (on : Sends → Result Sends) (pto_expired : Bool) (now : TimeVal) (p : Packet)
    (rest : List Packet) (s : Sends)
    → IsSender s.sender
    → s.sender.queue.pending ≡ p ∷ rest
    → AllEncode (p ∷ [])
    → ((s' : Sends)
        → IsSender s'.sender
        → s'.sender.queue.pending ≡ rest
        → Finishes pto_expired rest s' (on s'))
    → Finishes pto_expired (p ∷ rest) s (one_turn on pto_expired now (p ∷ rest) s)
unfolding one_turn whether_acked_pkt_num
turns on pto_expired now p rest s i e a k =
    let acked = contain s.sender.ledger.acked_sent_pkt_num (num_of p) in
    let (t, run, ends) = send_by-Turns acked pto_expired now p rest s i e a refl in
    let (s', front, left, run', split, sent, why) = finish on pto_expired p rest s t i e ends k in
    (s', front, left, ap (λ r. r >>= next_turn on) run ∙ run', split, sent, why)

empty-Finishes :
    (on : Sends → Result Sends) (pto_expired : Bool) (now : TimeVal) (s : Sends)
    → IsSender s.sender
    → s.sender.queue.pending ≡ []
    → Finishes pto_expired [] s (one_turn on pto_expired now s.sender.queue.pending s)
unfolding one_turn
empty-Finishes on pto_expired now s i e =
    subst (λ qs. Finishes pto_expired [] s (one_turn on pto_expired now qs s)) (sym e)
      (s, [], [], refl, refl, HasSent-nil [] s i e, inl refl)

loop-Finishes :
    (fuel : ℕ) (pto_expired : Bool) (now : TimeVal) (ps : List Packet) (s : Sends)
    → length ps ≤ fuel
    → IsSender s.sender
    → s.sender.queue.pending ≡ ps
    → AllEncode ps
    → Finishes pto_expired ps s (send_loop fuel pto_expired now s)
unfolding send_loop one_turn
loop-Finishes zero pto_expired now [] s h i e a =
    empty-Finishes (λ s'. err Error.runtime_error) pto_expired now s i e
loop-Finishes zero pto_expired now (p ∷ ps) s h i e a = absurd (omega (arith, h))
loop-Finishes (suc fuel) pto_expired now [] s h i e a =
    empty-Finishes (send_loop fuel pto_expired now) pto_expired now s i e
loop-Finishes (suc fuel) pto_expired now (p ∷ ps) s h i e (a, others) =
    subst
      (λ qs.
        Finishes pto_expired (p ∷ ps) s
          (one_turn (send_loop fuel pto_expired now) pto_expired now qs s))
      (sym e)
      (turns (send_loop fuel pto_expired now) pto_expired now p ps s i e (a, tt)
        (λ s' i' e'. loop-Finishes fuel pto_expired now ps s' (omega (arith, h)) i' e' others))

-- `while (!pendingPackets.empty())` ends, without an error, within as many turns as packets are
-- pending, where the queue and the ledger are well formed and each pending packet has a datagram.
-- Some packets in front leave the queue, and the others stay in order: the datagrams of those in
-- front that are not acknowledged are sent, in order, and no others. The queue and the ledger stay
-- well formed. Packets stay only if the probe timeout has expired or sentWhenCongested has come to
-- at least 2.
pub send_loop-HasSent :
    (pto_expired : Bool) (now : TimeVal) (s : Sends)
    → IsSender s.sender
    → AllEncode s.sender.queue.pending
    → (s' : Sends) × (front : List Packet) × (rest : List Packet) × (send_loop
          (length s.sender.queue.pending)
          pto_expired
          now
          s
        ≡ ok s')
      × (s.sender.queue.pending ≡ front ++ rest)
      × HasSent front rest s s'
      × ((rest ≡ []) ⊎ ((pto_expired ≡ true) ⊎ (2 ≤ s'.sent_when_congested)))
send_loop-HasSent pto_expired now s i a =
    loop-Finishes (length s.sender.queue.pending) pto_expired now s.sender.queue.pending s
      (omega arith) i refl a
