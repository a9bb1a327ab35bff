-- ===== src/Context/Ledger/Acked.antt =====
-- remNeedACKPkt, against a description of the timers it keeps and the packets it counts as landed.
use simple_quic.Context.Ledger.Timers.{
  listed, kept_by, unacked, landed_by, landed, land_each, AllNumbers, IsPaired, IsPaired-snoc,
  IsPaired-head,
}
use simple_quic.Common.{
  ℕ, suc, ◌<◌, ◌^◌, ◌≡◌, refl, sym, ap, subst, ◌∙◌, List, [], ◌∷◌, ◌++◌, append_assoc, append-nil,
  map, Bool, true, false, not, ◌&&◌, ◌||◌, if◌then◌else◌, drop, Result, ok, err, Error, ◌⊎◌, inl,
  inr, ◌>>=◌, arith,
}
use simple_quic.Utils.Interval.Sets.{IntervalSet, contain}
use simple_quic.Utils.Interval.Add.{IsOrdered, contain-add_interval}
use simple_quic.Context.Queue.{single}
use simple_quic.Context.Queue.Invariant.{at_single}
use simple_quic.Context.Congestion.{Congestion, packet_acked, is_established, packet_miss_callback}
use simple_quic.Context.Ledger.{
  TimeVal, AckTimer, PtoTimer, Ledger, Sweep, pto_at, refreshed, sweep_by, sweep, new_sweep,
  after_miss, after_old, count_three, rem_need_ack_pkt,
}

-- What the loop promises of its last state.
abbrev Sweeps : Result Sweep → List AckTimer → Congestion → Type 0
Sweeps r kept c =
    (s : Sweep) × (r ≡ ok s)
    × (s.kept ≡ kept)
    × (s.congestion ≡ c)
    × (s.is_packet_miss ≡ false)
    × (s.have_not_acked ≡ false)
    × IsPaired s.kept s.kept_pto

-- Or the outcome of congestion control is an error, and the loop ends with it.
abbrev Out : Result Sweep → List AckTimer → Result Congestion → Type 0
Out r kept a =
    ((c : Congestion) × (a ≡ ok c) × Sweeps r kept c) ⊎ ((x : Error) × (a ≡ err x) × (r ≡ err x))

Out-same :
    (r r' : Result Sweep) (k k' : List AckTimer) (a : Result Congestion)
    → r' ≡ r
    → k ≡ k'
    → Out r k a
    → Out r' k' a
Out-same r r' k k' a e f o = subst (λ z. Out z k' a) (sym e) (subst (λ l. Out r l a) f o)

-- What holds at the head of the loop.
record IsSweep (ns : List ℕ) (ts : List AckTimer) (ptos : List PtoTimer) (s : Sweep) : Type 0 where
  ordered : IsOrdered s.added
  points : (x : ℕ) → contain s.added x ≡ listed ns x
  no_miss : s.is_packet_miss ≡ false
  none_left : s.have_not_acked ≡ false
  ahead : IsPaired ts (drop s.count ptos)
  behind : IsPaired s.kept s.kept_pto

module _ (now : TimeVal) (acked : IntervalSet) (ptos : List PtoTimer) where
  abbrev Keeps : List ℕ → List AckTimer → Sweep → Result Sweep → Type 0
  Keeps ns ts s r =
      Out r (s.kept ++ map (refreshed now) (unacked acked ns ts))
        (land_each (landed acked ns ts) s.congestion)

  landing :
      (q : Result Congestion) (f : Congestion → Sweep) (ts more : List AckTimer)
      (kept : List AckTimer)
      → ((c : Congestion) → Out (sweep now acked ptos ts (f c)) kept (land_each more c))
      → Out ((do c ← q; ok (f c)) >>= sweep now acked ptos ts) kept (do c ← q; land_each more c)
  landing (ok c) f ts more kept k = k c
  landing (err x) f ts more kept k = inr (x, refl, refl)

  turn :
      (b c : Bool) (t : AckTimer) (ts : List AckTimer) (ns : List ℕ) (s : Sweep)
      → t.pkt_num < 2 ^ 64
      → IsSweep ns (t ∷ ts) ptos s
      → ((ms : List ℕ) (s' : Sweep)
          → IsSweep ms ts ptos s'
          → Keeps ms ts s' (sweep now acked ptos ts s'))
      → Out
          (sweep_by b c now ptos t s >>= sweep now acked ptos ts)
          (s.kept
            ++ map
                (refreshed now)
                (kept_by b c t (unacked acked ns ts) (unacked acked (t.pkt_num ∷ ns) ts)))
          (land_each
            (landed_by b c t (landed acked ns ts) (landed acked (t.pkt_num ∷ ns) ts))
            s.congestion)
  unfolding sweep_by
  turn false false t ts ns s h i on =
      let (nums, e, o, c) =
        contain-add_interval (single t.pkt_num) s.added (omega arith, h) i.ordered in
      let (p, at, same, rest) = IsPaired-head ptos s.count t ts i.ahead in
      let after = λ (set : IntervalSet). record s {
        kept = s.kept ++ (refreshed now t ∷ []);
        kept_pto = s.kept_pto ++ pto_at ptos s.count;
        added = set;
        count = suc s.count;
      } in
      Out-same _ _ _ _ _ (ap (λ r. (do set ← r; ok (after set)) >>= sweep now acked ptos ts) e)
        (append_assoc s.kept (refreshed now t ∷ []) _)
        (on (t.pkt_num ∷ ns)
          (record s {
            kept = s.kept ++ (refreshed now t ∷ []);
            kept_pto = s.kept_pto ++ pto_at ptos s.count;
            added = nums;
            count = suc s.count;
          })
          (record {
            ordered = o;
            points = λ x. c x ∙ ground (arith, at_single t.pkt_num x, i.points x);
            no_miss = i.no_miss;
            none_left = i.none_left;
            ahead = rest;
            behind =
                subst (λ ps. IsPaired (s.kept ++ (refreshed now t ∷ [])) (s.kept_pto ++ ps))
                  (sym at) (IsPaired-snoc s.kept s.kept_pto (refreshed now t) p i.behind same);
          }))
  turn true false t ts ns s h i on =
      let (nums, e, o, points) =
        contain-add_interval (single t.pkt_num) s.added (omega arith, h) i.ordered in
      let (p, at, same, rest) = IsPaired-head ptos s.count t ts i.ahead in
      let after = λ (set : IntervalSet) (c : Congestion). record s {
        added = set;
        is_packet_miss = s.is_packet_miss || (s.have_not_acked && not s.have_new_acked);
        have_new_acked = true;
        congestion = c;
        count = suc s.count;
      } in
      let told = packet_acked t.pkt_len s.congestion in
      Out-same _ _ _ _ _
        (ap (λ r. (do set ← r; c ← told; ok (after set c)) >>= sweep now acked ptos ts) e) refl
        (landing told (after nums) ts (landed acked (t.pkt_num ∷ ns) ts) _ (λ c.
          on (t.pkt_num ∷ ns) (after nums c) (record {
            ordered = o;
            points = λ x. points x ∙ ground (arith, at_single t.pkt_num x, i.points x);
            no_miss = ground (arith, i.no_miss, i.none_left);
            none_left = i.none_left;
            ahead = rest;
            behind = i.behind;
          })))
  turn b true t ts ns s h i on =
      on ns (record s { count = suc s.count })
        (record {
          ordered = i.ordered;
          points = i.points;
          no_miss = i.no_miss;
          none_left = i.none_left;
          ahead = (IsPaired-head ptos s.count t ts i.ahead).3;
          behind = i.behind;
        })

  sweep-Keeps :
      (ts : List AckTimer) (ns : List ℕ) (s : Sweep)
      → AllNumbers ts
      → IsSweep ns ts ptos s
      → Keeps ns ts s (sweep now acked ptos ts s)
  unfolding sweep unacked landed
  sweep-Keeps [] ns s h i = inl (
    s.congestion,
    refl,
    (s, refl, sym (append-nil s.kept), refl, i.no_miss, i.none_left, i.behind),
  )
  sweep-Keeps (t ∷ ts) ns s (h, hs) i =
      let b = contain acked t.pkt_num in
      let c = contain s.added t.pkt_num in
      subst
        (λ d.
          Out (sweep_by b c now ptos t s >>= sweep now acked ptos ts)
            (s.kept
              ++ map (refreshed now)
                  (kept_by b d t (unacked acked ns ts) (unacked acked (t.pkt_num ∷ ns) ts)))
            (land_each (landed_by b d t (landed acked ns ts) (landed acked (t.pkt_num ∷ ns) ts))
              s.congestion))
        (i.points t.pkt_num) (turn b c t ts ns s h i (λ ms s' i'. sweep-Keeps ts ms s' hs i'))

miss_quiet : (s : Sweep) (c : Congestion) → s.is_packet_miss ≡ false → after_miss s c ≡ c
unfolding after_miss
miss_quiet s c m =
    ap (λ (b : Bool). if b && is_established c.cur_state then packet_miss_callback c else c) m

never : (b : Bool) (c d : Congestion) → (if b && false then d else c) ≡ c
never true c d = refl
never false c d = refl

old_quiet : (s : Sweep) (c : Congestion) → s.have_not_acked ≡ false → after_old s c ≡ c
unfolding after_old
old_quiet s c n =
    ap
      (λ (b : Bool).
        if not s.have_new_acked && (b && is_established c.cur_state) then count_three c else c)
      n
    ∙ never (not s.have_new_acked) c (count_three c)

-- What remNeedACKPkt makes of the ledger.
abbrev pub settled : TimeVal → IntervalSet → List PtoTimer → Congestion → Ledger → Ledger
settled now acked ptos c l = record l {
  not_acked_sent_pkt = map (refreshed now) (unacked acked [] l.not_acked_sent_pkt);
  not_acked_sent_pkt_pto = ptos;
  congestion = c;
}

-- By what becomes of the packets that count as landed: the ledger, or the error.
abbrev pub Lands : TimeVal → IntervalSet → Ledger → Result Congestion → Type 0
Lands now acked l (ok c) =
    (ptos : List PtoTimer) × (rem_need_ack_pkt now acked l ≡ ok (settled now acked ptos c l))
    × IsPaired (map (refreshed now) (unacked acked [] l.not_acked_sent_pkt)) ptos
Lands now acked l (err x) = rem_need_ack_pkt now acked l ≡ err x

returned :
    (now : TimeVal) (acked : IntervalSet) (l : Ledger) (c : Congestion)
    → Sweeps
        (sweep now acked l.not_acked_sent_pkt_pto l.not_acked_sent_pkt (new_sweep l.congestion))
        (map (refreshed now) (unacked acked [] l.not_acked_sent_pkt))
        c
    → Lands now acked l (ok c)
unfolding rem_need_ack_pkt
returned now acked l c (s, run, k, g, m, n, b) = (
  s.kept_pto,
  ap
        (λ r. do
          s' ← r
          ok (record l {
            not_acked_sent_pkt = s'.kept;
            not_acked_sent_pkt_pto = s'.kept_pto;
            congestion = after_old s' (after_miss s' s'.congestion);
          }))
        run
      ∙ ap
          (λ (d : Congestion). ok (record l {
            not_acked_sent_pkt = s.kept;
            not_acked_sent_pkt_pto = s.kept_pto;
            congestion = d;
          }))
          (ap (after_old s) (miss_quiet s s.congestion m) ∙ old_quiet s s.congestion n ∙ g)
      ∙ ap
          (λ (ks : List AckTimer). ok (record l {
            not_acked_sent_pkt = ks;
            not_acked_sent_pkt_pto = s.kept_pto;
            congestion = c;
          }))
          k,
  subst (λ ks. IsPaired ks s.kept_pto) k b,
)

-- remNeedACKPkt, where the packet numbers fit 64 bits and the PTO timers are those of the packets that
-- wait for an acknowledgement. Congestion control is told of the first packet of each acknowledged
-- number, in order, and nothing else. Where it divides by a window of 0 on the way, the call fails
-- with that error. Where it does not, the call returns: the congestion is what that left, the timers
-- that stay are the first of each number that is not acknowledged, in order and with the time of the
-- call, the PTO timers are theirs again, and no other field changes.
pub rem_need_ack_pkt-unacked :
    (now : TimeVal) (acked : IntervalSet) (l : Ledger)
    → AllNumbers l.not_acked_sent_pkt
    → IsPaired l.not_acked_sent_pkt l.not_acked_sent_pkt_pto
    → Lands now acked l (land_each (landed acked [] l.not_acked_sent_pkt) l.congestion)
unfolding rem_need_ack_pkt new_sweep contain
rem_need_ack_pkt-unacked now acked l h paired =
    let ts = l.not_acked_sent_pkt in
    elim (sweep-Keeps now acked l.not_acked_sent_pkt_pto ts [] (new_sweep l.congestion) h (record {
      ordered = tt;
      points = λ x. refl;
      no_miss = refl;
      none_left = refl;
      ahead = paired;
      behind = tt;
    })) [
      | inl (c, told, swept) ↦ subst (Lands now acked l) (sym told) (returned now acked l c swept)
      | inr (x, told, failed) ↦ subst (Lands now acked l) (sym told) (
          ap
            (λ (r : Result Sweep). do
              s' ← r
              ok (record l {
                not_acked_sent_pkt = s'.kept;
                not_acked_sent_pkt_pto = s'.kept_pto;
                congestion = after_old s' (after_miss s' s'.congestion);
              }))
            failed)
    ]
