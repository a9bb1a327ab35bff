-- ===== src/Context/Sending/Resend.antt =====
-- The loop that puts packets back into the queue.
use simple_quic.Common.{
  ℕ, ◌<◌, ◌≤◌, ◌^◌, ◌≡◌, refl, sym, ap, subst, ◌∙◌, List, [], ◌∷◌, ◌++◌, append_assoc, append-nil,
  Bool, true, false, not, ◌||◌, ◌==◌, some, none, Result, ok, err, Error, ◌>>=◌, arith,
}
use simple_quic.Utils.Interval.Sets.{contain}
use simple_quic.Utils.Interval.Add.{IsOrdered, contain-add_interval}
use simple_quic.Payload.Packet.Whole.{Packet}
use simple_quic.Context.Queue.{Queue, num_of, single, enqueue, whether_to_send_pkt_num}
use simple_quic.Context.Queue.Invariant.{waits, IsQueue, enqueue-IsQueue, at_single, waits-snoc}
use simple_quic.Context.Ledger.{TimeVal, AckTimer, Ledger, refreshed, get_sent_pkt_by_idx}
use simple_quic.Context.Ledger.Invariant.{AllTimed}
use simple_quic.Context.Sending.{Sender, Resending, late, due, resend_by, resend_each, resend}

-- The number of each timer that is late waits in the queue.
abbrev pub AllWait : TimeVal → List Packet → List AckTimer → Type 0
AllWait now ps [] = Unit {0}
AllWait now ps (t ∷ ts) = (not (late now t) || waits ps t.pkt_num ≡ true) × AllWait now ps ts

waits-append : (ps qs : List Packet) (x : ℕ) → waits (ps ++ qs) x ≡ waits ps x || waits qs x
waits-append [] qs x = refl
waits-append (p ∷ ps) qs x = ground (arith, waits-append ps qs x)

record IsResending (r : Resending) : Type 0 where
  agree : IsQueue r.queue
  ordered : IsOrdered r.resent
  queued : (x : ℕ) → not (contain r.resent x) || waits r.queue.pending x ≡ true

-- What a turn and the loop promise, of the queue they are given.
abbrev Grows : Queue → Result Resending → (List Packet → Type 0) → Type 0
Grows q r P =
    (r' : Resending) × (more : List Packet) × (r ≡ ok r')
    × IsResending r'
    × (r'.queue.pending ≡ q.pending ++ more)
    × P r'.queue.pending

module _ (now : TimeVal) (l : Ledger) where
  turn :
      (b : Bool) (t : AckTimer) (r : Resending)
      → due now r t ≡ b
      → IsResending r
      → AllTimed l.sent_pkt (t ∷ [])
      → Grows r.queue (resend_by b l t r) (λ ps. not (late now t) || waits ps t.pkt_num ≡ true)
  unfolding resend_by due whether_to_send_pkt_num get_sent_pkt_by_idx
  turn false t r e i a = (
    r,
    [],
    refl,
    i,
    sym (append-nil r.queue.pending),
    ground (arith, e, i.queued t.pkt_num, i.agree.numbers t.pkt_num),
  )
  turn true t r e i ((p, at, same, small), _) =
      let (nums, run, o, c) =
        contain-add_interval (single t.pkt_num) r.resent (omega arith, omega arith) i.ordered in
      let fresh : waits r.queue.pending (num_of p) ≡ false =
        subst (λ n. waits r.queue.pending n ≡ false) (sym same)
          (ground (arith, e, i.agree.numbers t.pkt_num)) in
      let (q, run', agree, grown) = enqueue-IsQueue p true r.queue i.agree small fresh in
      let found : get_sent_pkt_by_idx t.idx l ≡ ok p =
        ap (λ o. elim o [ some p' ↦ ok p' | none ↦ err Error.out_of_bounds ]) at in
      let waits_now : (x : ℕ) → waits q.pending x ≡ (x == t.pkt_num) || waits r.queue.pending x =
        λ x.
          ap (λ ps. waits ps x) grown
          ∙ waits-snoc r.queue.pending p x
          ∙ ap (λ n. (x == n) || waits r.queue.pending x) same in
      (
        record { resent = nums; queue = q },
        p ∷ [],
        ap
              (λ set. do
                set' ← set
                p' ← get_sent_pkt_by_idx t.idx l
                q' ← enqueue p' true r.queue
                ok (record { resent = set'; queue = q' }))
              run
            ∙ ap
                (λ r'. do
                  p' ← r'
                  q' ← enqueue p' true r.queue
                  ok (record { resent = nums; queue = q' }))
                found
            ∙ ap (λ r'. do q' ← r'; ok (record { resent = nums; queue = q' })) run',
        record {
          agree = agree;
          ordered = o;
          queued = λ x. ground (arith, c x, at_single t.pkt_num x, waits_now x, i.queued x);
        },
        grown,
        ground (arith, waits_now t.pkt_num),
      )

  each :
      (ts : List AckTimer) (r : Resending)
      → IsResending r
      → AllTimed l.sent_pkt ts
      → Grows r.queue (resend_each now l ts r) (λ ps. AllWait now ps ts)
  unfolding resend_each
  each [] r i a = (r, [], refl, i, sym (append-nil r.queue.pending), tt)
  each (t ∷ ts) r i (a, others) =
      let (r', more, run, i', grown, wait) = turn (due now r t) t r refl i (a, tt) in
      let (r'', more', run', i'', grown', rest) = each ts r' i' others in
      (
        r'',
        more ++ more',
        ap (λ x. x >>= resend_each now l ts) run ∙ run',
        i'',
        grown' ∙ ap (λ ps. ps ++ more') grown ∙ append_assoc r.queue.pending more more',
        (
          subst (λ ps. not (late now t) || waits ps t.pkt_num ≡ true) (sym grown')
              (ground (arith, wait, waits-append r'.queue.pending more' t.pkt_num)),
          rest,
        ),
      )

-- The loop of SocketLoop over the packets that are not acknowledged returns where the invariant of
-- the queue holds and the index of each timer finds a packet of its number, below 2^32, among the
-- packets sent. The queue keeps what it has, in order and in front, and the invariant; afterwards
-- each packet that is late waits in it. Nothing else of the connection changes.
pub resend-AllWait :
    (now : TimeVal) (s : Sender)
    → IsQueue s.queue
    → AllTimed s.ledger.sent_pkt s.ledger.not_acked_sent_pkt
    → (q : Queue) × (more : List Packet) × (resend now s ≡ ok (record s { queue = q }))
      × IsQueue q
      × (q.pending ≡ s.queue.pending ++ more)
      × AllWait now q.pending s.ledger.not_acked_sent_pkt
unfolding resend contain
resend-AllWait now s i a =
    let (r, more, run, i', grown, wait) =
      each now s.ledger s.ledger.not_acked_sent_pkt (record { resent = []; queue = s.queue })
        (record { agree = i; ordered = tt; queued = λ x. refl }) a in
    (
      r.queue,
      more,
      ap (λ x. do r' ← x; ok (record s { queue = r'.queue })) run,
      i'.agree,
      grown,
      wait,
    )

-- remNeedACKPkt notes its time in milliseconds, and the loop compares with whole seconds: a packet
-- that stays unacknowledged when an ACK frame comes, at a whole millisecond or more past a second,
-- is late for the rest of that second.
pub late-refreshed :
    (now later : TimeVal) (t : AckTimer)
    → later.sec ≡ now.sec
    → 1000 ≤ now.usec
    → now.usec < 1000000
    → now.sec < 2 ^ 48
    → late later (refreshed now t) ≡ true
unfolding late
late-refreshed now later t same past below small = ground (arith, same)
