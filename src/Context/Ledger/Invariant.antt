-- ===== src/Context/Ledger/Invariant.antt =====
-- The timers, the packets sent and the PTO timers agree.
use simple_quic.Common.{
  ℕ, zero, suc, ◌+◌, ◌*◌, ◌%◌, ◌<◌, ◌^◌, ◌≡◌, refl, sym, ap, subst, List, [], ◌∷◌, ◌++◌, map, Bool,
  true, false, length, get_elem?, some, ok, ◌>>=◌, arith,
}
use simple_quic.Utils.Interval.Sets.{IntervalSet, contain}
use simple_quic.Utils.Interval.Add.{IsOrdered, contain-add_interval}
use simple_quic.Payload.Packet.Whole.{Packet, packet_len}
use simple_quic.Context.Queue.{num_of, single}
use simple_quic.Context.Ledger.{
  TimeVal, msec_of, AckTimer, PtoTimer, Ledger, refreshed, add_need_ack_sent_pkt, add_sent_pkt,
  rem_need_ack_pkt,
}
use simple_quic.Context.Ledger.Acked.{rem_need_ack_pkt-unacked, Lands, settled}
use simple_quic.Context.Ledger.Room.{
  HasRoom, HasRoom-mono, bytes_of, land_each-HasRoom, landed-unacked_bytes, bytes_of-refreshed,
}
use simple_quic.Context.Ledger.Timers.{
  listed, AllNumbers, IsPaired, IsPaired-snoc, kept_by, unacked, landed,
}

-- Each timer's index finds a packet of its number, which fits 32 bits, among the packets sent.
abbrev pub AllTimed : List Packet → List AckTimer → Type 0
AllTimed ps [] = Unit {0}
AllTimed ps (t ∷ ts) =
    ((p : Packet) × (get_elem? ps t.idx ≡ some p) × (num_of p ≡ t.pkt_num) × (num_of p < 2 ^ 32))
    × AllTimed ps ts

pub record IsLedger (l : Ledger) : Type 0 where
  pub timed : AllTimed l.sent_pkt l.not_acked_sent_pkt
  pub paired : IsPaired l.not_acked_sent_pkt l.not_acked_sent_pkt_pto
  pub ordered : IsOrdered l.sent_pkt_num

get_elem?-append :
    {A : Type 0} (xs ys : List A) (i : ℕ) (a : A)
    → get_elem? xs i ≡ some a
    → get_elem? (xs ++ ys) i ≡ some a
get_elem?-append [] ys i a e = absurd (ground (arith, e))
get_elem?-append (x ∷ xs) ys zero a e = e
get_elem?-append (x ∷ xs) ys (suc i) a e = get_elem?-append xs ys i a e

get_elem?-length :
    {A : Type 0} (xs : List A) (a : A) → get_elem? (xs ++ (a ∷ [])) (length xs) ≡ some a
get_elem?-length [] a = refl
get_elem?-length (x ∷ xs) a = get_elem?-length xs a

AllTimed-append :
    (ps qs : List Packet) (ts : List AckTimer) → AllTimed ps ts → AllTimed (ps ++ qs) ts
AllTimed-append ps qs [] a = tt
AllTimed-append ps qs (t ∷ ts) ((p, at, same, small), others) =
    ((p, get_elem?-append ps qs t.idx p at, same, small), AllTimed-append ps qs ts others)

AllTimed-snoc :
    (ps : List Packet) (ts : List AckTimer) (t : AckTimer)
    → AllTimed ps ts
    → AllTimed ps (t ∷ [])
    → AllTimed ps (ts ++ (t ∷ []))
AllTimed-snoc ps [] t a h = h
AllTimed-snoc ps (u ∷ ts) t (a, others) h = (a, AllTimed-snoc ps ts t others h)

AllTimed-AllNumbers : (ps : List Packet) (ts : List AckTimer) → AllTimed ps ts → AllNumbers ts
AllTimed-AllNumbers ps [] a = tt
AllTimed-AllNumbers ps (t ∷ ts) ((p, at, same, small), others) =
    (omega (arith, same, small), AllTimed-AllNumbers ps ts others)

kept_by-AllTimed :
    (b c : Bool) (now : TimeVal) (ps : List Packet) (t : AckTimer) (same more : List AckTimer)
    → AllTimed ps (t ∷ [])
    → AllTimed ps (map (refreshed now) same)
    → AllTimed ps (map (refreshed now) more)
    → AllTimed ps (map (refreshed now) (kept_by b c t same more))
kept_by-AllTimed false false now ps t same more (h, _) s m = (h, m)
kept_by-AllTimed true false now ps t same more h s m = m
kept_by-AllTimed b true now ps t same more h s m = s

unacked-AllTimed :
    (now : TimeVal) (acked : IntervalSet) (ps : List Packet) (ts : List AckTimer) (ns : List ℕ)
    → AllTimed ps ts
    → AllTimed ps (map (refreshed now) (unacked acked ns ts))
unfolding unacked
unacked-AllTimed now acked ps [] ns a = tt
unacked-AllTimed now acked ps (t ∷ ts) ns (h, others) =
    kept_by-AllTimed (contain acked t.pkt_num) (listed ns t.pkt_num) now ps t (unacked acked ns ts)
      (unacked acked (t.pkt_num ∷ ns) ts) (h, tt) (unacked-AllTimed now acked ps ts ns others)
      (unacked-AllTimed now acked ps ts (t.pkt_num ∷ ns) others)

pub add_need_ack_sent_pkt-IsLedger :
    (now : TimeVal) (p : Packet) (l : Ledger) (len : ℕ)
    → packet_len p ≡ ok len
    → num_of p < 2 ^ 32
    → IsLedger l
    → (l' : Ledger) × (add_need_ack_sent_pkt now p l ≡ ok l')
      × IsLedger l'
      × (l'.acked_sent_pkt_num ≡ l.acked_sent_pkt_num)
unfolding add_need_ack_sent_pkt
add_need_ack_sent_pkt-IsLedger now p l len e small i =
    let timer : AckTimer = record {
      pkt_num = num_of p;
      rem_time = now.sec * 1000 % 2 ^ 64;
      idx = length l.sent_pkt;
      pkt_len = len;
    } in
    let pto : PtoTimer = record {
      pkt_num = num_of p;
      pto_expire_time = (l.pto + msec_of now) % 2 ^ 64;
    } in
    let after = λ (n : ℕ). record l {
      sent_pkt = l.sent_pkt ++ (p ∷ []);
      not_acked_sent_pkt = l.not_acked_sent_pkt ++ (record timer { pkt_len = n } ∷ []);
      not_acked_sent_pkt_pto = l.not_acked_sent_pkt_pto ++ (pto ∷ []);
    } in
    (
      after len,
      ap (λ r. do n ← r; ok (after n)) e,
      record {
        timed =
            AllTimed-snoc (l.sent_pkt ++ (p ∷ [])) l.not_acked_sent_pkt timer
              (AllTimed-append l.sent_pkt (p ∷ []) l.not_acked_sent_pkt i.timed)
              ((p, get_elem?-length l.sent_pkt p, refl, small), tt);
        paired =
            IsPaired-snoc l.not_acked_sent_pkt l.not_acked_sent_pkt_pto timer pto i.paired refl;
        ordered = i.ordered;
      },
      refl,
    )

pub add_sent_pkt-IsLedger :
    (p : Packet) (l : Ledger)
    → num_of p < 2 ^ 32
    → IsLedger l
    → (l' : Ledger) × (add_sent_pkt p l ≡ ok l')
      × IsLedger l'
      × (l'.acked_sent_pkt_num ≡ l.acked_sent_pkt_num)
unfolding add_sent_pkt
add_sent_pkt-IsLedger p l small i =
    let (nums, e, o, _) =
      contain-add_interval (single (num_of p)) l.sent_pkt_num (omega arith, omega arith)
        i.ordered in
    let after =
      λ (s : IntervalSet). record l { sent_pkt_num = s; sent_pkt = l.sent_pkt ++ (p ∷ []) } in
    (
      after nums,
      ap (λ r. do s ← r; ok (after s)) e,
      record {
        timed = AllTimed-append l.sent_pkt (p ∷ []) l.not_acked_sent_pkt i.timed;
        paired = i.paired;
        ordered = o;
      },
      refl,
    )

-- Where the ledger is well formed and the window has room for the packets that are out, remNeedACKPkt
-- returns a ledger of which both hold: each timer that it keeps still has a packet of its number at
-- its index, and the PTO timers are those of the timers kept. The timers kept are the first of each
-- number that is not acknowledged. The numbers noted as acknowledged do not change.
pub rem_need_ack_pkt-IsLedger :
    (now : TimeVal) (acked : IntervalSet) (l : Ledger)
    → IsLedger l
    → HasRoom (bytes_of l.not_acked_sent_pkt) l.congestion
    → (l' : Ledger) × (rem_need_ack_pkt now acked l ≡ ok l')
      × IsLedger l'
      × HasRoom (bytes_of l'.not_acked_sent_pkt) l'.congestion
      × (l'.not_acked_sent_pkt ≡ map (refreshed now) (unacked acked [] l.not_acked_sent_pkt))
      × (l'.acked_sent_pkt_num ≡ l.acked_sent_pkt_num)
rem_need_ack_pkt-IsLedger now acked l i room =
    let ts = l.not_acked_sent_pkt in
    let left = unacked acked [] ts in
    let (c, told, room') =
      land_each-HasRoom (landed acked [] ts) (bytes_of left) l.congestion
        (HasRoom-mono _ (bytes_of ts) l.congestion (landed-unacked_bytes acked [] ts) room) in
    let (ptos, run, paired) =
      subst (Lands now acked l) told (
        rem_need_ack_pkt-unacked now acked l (AllTimed-AllNumbers l.sent_pkt ts i.timed)
          i.paired) in
    (
      settled now acked ptos c l,
      run,
      record {
        timed = unacked-AllTimed now acked l.sent_pkt ts [] i.timed;
        paired = paired;
        ordered = i.ordered;
      },
      subst (λ n. HasRoom n c) (sym (bytes_of-refreshed now left)) room',
      refl,
      refl,
    )
