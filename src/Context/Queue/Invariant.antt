-- ===== src/Context/Queue/Invariant.antt =====
-- The three fields of the queue agree.
use simple_quic.Common.{
  ℕ, suc, ◌+◌, ◌<◌, ◌^◌, ◌≡◌, refl, sym, ap, ◌∙◌, subst, List, [], ◌∷◌, ◌++◌, Bool, false, ◌==◌,
  leb, ◌&&◌, ◌||◌, length, length-append, ok, ◌>>=◌, arith,
}
use simple_quic.Utils.Interval.Sets.{IntervalSet, contain}
use simple_quic.Utils.Interval.Add.{IsOrdered, contain-add_interval}
use simple_quic.Utils.Interval.Remove.{contain-remove_interval}
use simple_quic.Payload.Packet.Whole.{Packet}
use simple_quic.Context.Queue.{
  Queue, num_of, single, add_packet, add_packet_to_front, add_whether_need_ack,
  add_whether_need_ack_to_front, remove_to_send_pkt_num, pop_pending, pop_whether_need_ack,
  without_first, enqueue, enqueue_front, dequeue,
}

-- Whether a packet with the number waits in the list.
abbrev pub waits : List Packet → ℕ → Bool
waits [] x = false
waits (p ∷ ps) x = (x == num_of p) || waits ps x

-- Numbers fit 32 bits, as those of headers do, and none waits twice.
abbrev pub AllOnce : List Packet → Type 0
AllOnce [] = Unit {0}
AllOnce (p ∷ ps) = (num_of p < 2 ^ 32) × (waits ps (num_of p) ≡ false) × AllOnce ps

-- The set holds the numbers of the packets, and there is a flag for each packet.
pub record IsQueue (q : Queue) : Type 0 where
  pub once : AllOnce q.pending
  pub ordered : IsOrdered q.to_send
  pub numbers : (x : ℕ) → contain q.to_send x ≡ waits q.pending x
  pub flags : length q.need_ack ≡ length q.pending

pub at_single : (n x : ℕ) → leb n x && leb x n ≡ (x == n)
at_single n x = ground arith

pub waits-snoc :
    (ps : List Packet) (p : Packet) (x : ℕ)
    → waits (ps ++ (p ∷ [])) x ≡ (x == num_of p) || waits ps x
waits-snoc [] p x = refl
waits-snoc (q ∷ ps) p x = ground (arith, waits-snoc ps p x)

AllOnce-snoc :
    (ps : List Packet) (p : Packet)
    → AllOnce ps
    → num_of p < 2 ^ 32
    → waits ps (num_of p) ≡ false
    → AllOnce (ps ++ (p ∷ []))
AllOnce-snoc [] p a h w = (h, refl, tt)
AllOnce-snoc (q ∷ ps) p (hq, wq, a) h w =
    let seen : waits (ps ++ (p ∷ [])) (num_of q) ≡ false =
      ground (arith, waits-snoc ps p (num_of q), w, wq) in
    (hq, seen, AllOnce-snoc ps p a h (ground (arith, w)))

-- A packet with a number below 2^32 that does not wait in the queue is queued at the back: AddPacket
-- and AddWhetherNeedACK together return, and keep the invariant.
pub enqueue-IsQueue :
    (p : Packet) (need : Bool) (q : Queue)
    → IsQueue q
    → num_of p < 2 ^ 32
    → waits q.pending (num_of p) ≡ false
    → (q' : Queue) × (enqueue p need q ≡ ok q') × IsQueue q' × (q'.pending ≡ q.pending ++ (p ∷ []))
unfolding enqueue add_packet add_whether_need_ack
enqueue-IsQueue p need q i h fresh =
    let (t, e, o, c) =
      contain-add_interval (single (num_of p)) q.to_send (omega arith, omega arith) i.ordered in
    let after : Queue = record q {
      pending = q.pending ++ (p ∷ []);
      to_send = t;
      need_ack = q.need_ack ++ (need ∷ []);
    } in
    (
      after,
      ap
          (λ r. do
            q' ← (do set ← r; ok (record q { pending = q.pending ++ (p ∷ []); to_send = set }))
            ok (add_whether_need_ack need q'))
          e,
      record {
        once = AllOnce-snoc q.pending p i.once h fresh;
        ordered = o;
        numbers = λ x.
            c x ∙ ground (arith, at_single (num_of p) x, i.numbers x, waits-snoc q.pending p x);
        flags =
            length-append q.need_ack (need ∷ [])
            ∙ ap (λ n. n + 1) i.flags
            ∙ sym (length-append q.pending (p ∷ []));
      },
      refl,
    )

-- The same at the front.
pub enqueue_front-IsQueue :
    (p : Packet) (need : Bool) (q : Queue)
    → IsQueue q
    → num_of p < 2 ^ 32
    → waits q.pending (num_of p) ≡ false
    → (q' : Queue) × (enqueue_front p need q ≡ ok q') × IsQueue q' × (q'.pending ≡ p ∷ q.pending)
unfolding enqueue_front add_packet_to_front add_whether_need_ack_to_front
enqueue_front-IsQueue p need q i h fresh =
    let (t, e, o, c) =
      contain-add_interval (single (num_of p)) q.to_send (omega arith, omega arith) i.ordered in
    let after : Queue = record q {
      pending = p ∷ q.pending;
      to_send = t;
      need_ack = need ∷ q.need_ack;
    } in
    (
      after,
      ap
          (λ r. do
            q' ← (do set ← r; ok (record q { pending = p ∷ q.pending; to_send = set }))
            ok (add_whether_need_ack_to_front need q'))
          e,
      record {
        once = (h, fresh, i.once);
        ordered = o;
        numbers = λ x. c x ∙ ground (arith, at_single (num_of p) x, i.numbers x);
        flags = ap suc i.flags;
      },
      refl,
    )

abbrev with_front : Packet → List Packet → List Bool → IntervalSet → Queue
with_front p rest flags set = record { pending = p ∷ rest; need_ack = flags; to_send = set }

Dequeues : Packet → List Packet → Queue → Type 0
Dequeues p rest q = (q' : Queue) × (dequeue p q ≡ ok q') × IsQueue q' × (q'.pending ≡ rest)

dequeue-with_front :
    (p : Packet) (rest : List Packet) (flags : List Bool) (set : IntervalSet)
    → IsQueue (with_front p rest flags set)
    → Dequeues p rest (with_front p rest flags set)
unfolding Dequeues dequeue remove_to_send_pkt_num pop_pending pop_whether_need_ack without_first
dequeue-with_front p rest [] set i = absurd (ground (arith, i.flags))
dequeue-with_front p rest (b ∷ flags) set i =
    let h : num_of p < 2 ^ 32 = i.once.0 in
    let (t, e, o, c) =
      contain-remove_interval (single (num_of p)) set (omega arith, omega arith) i.ordered in
    let after : Queue = record { pending = rest; need_ack = flags; to_send = t } in
    (
      after,
      ap
          (λ r. do
            q' ← (do s ← r; ok (record (with_front p rest (b ∷ flags) set) { to_send = s }))
            q'' ← pop_pending q'
            pop_whether_need_ack q'')
          e,
      record {
        once = i.once.2;
        ordered = o;
        numbers = λ x. c x ∙ ground (arith, at_single (num_of p) x, i.numbers x, i.once.1);
        flags = ground (arith, i.flags);
      },
      refl,
    )

-- The packet at the front of a queue with the invariant leaves it: RemoveToSendPktNum, pop_front and
-- PopWhetherNeedACK together return, with the invariant and the other packets, in order.
pub dequeue-IsQueue :
    (p : Packet) (rest : List Packet) (q : Queue)
    → IsQueue q
    → q.pending ≡ p ∷ rest
    → (q' : Queue) × (dequeue p q ≡ ok q') × IsQueue q' × (q'.pending ≡ rest)
unfolding Dequeues
dequeue-IsQueue p rest q i e =
    subst (λ ps. IsQueue (record q { pending = ps }) → Dequeues p rest (record q { pending = ps }))
      (sym e) (dequeue-with_front p rest q.need_ack q.to_send) i
