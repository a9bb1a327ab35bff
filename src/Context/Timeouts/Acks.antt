-- ===== src/Context/Timeouts/Acks.antt =====
-- What the packet of GetSpeACKPacketForRecPkt acknowledges.
use simple_quic.Common.{
  ℕ, ◌≡◌, refl, sym, ap, ◌∙◌, List, [], ◌∷◌, ◌++◌, append-nil, append_assoc, Bool, true, false,
  ◌||◌, ok, ◌>>=◌, arith, ltb, ◌+◌, ◌-◌, ◌%◌, ◌^◌,
}
use simple_quic.Utils.Interval.Sets.{IntervalSet, contain, add_interval_set}
use simple_quic.Utils.Interval.Add.{IsOrdered, contain-add_interval}
use simple_quic.Utils.Interval.Union.{contain-add_interval_set}
use simple_quic.Context.ConnectionId.{ConnectionId}
use simple_quic.Context.Queue.{single}
use simple_quic.Context.Queue.Invariant.{at_single}
use simple_quic.Context.Ledger.{TimeVal, msec_of, AckTimer, Ledger, have_received_pkt}
use simple_quic.Context.Ledger.Timers.{AllNumbers}
use simple_quic.Context.Ledger.Received.{is_timed}
use simple_quic.Context.Timeouts.{must_ack, split_by, split_timers, ack_packet, get_spe_ack_packet}

abbrev pub keep_if : Bool → AckTimer → List AckTimer → List AckTimer
keep_if true t ts = t ∷ ts
keep_if false t ts = ts

abbrev pub skip_if : Bool → AckTimer → List AckTimer → List AckTimer
skip_if true t ts = ts
skip_if false t ts = t ∷ ts

-- `msec - remTime > latest_rtt` in uint64_t.
abbrev pub is_overdue : TimeVal → (latest_rtt rem_time : ℕ) → Bool
is_overdue now latest_rtt rem_time = ltb latest_rtt ((msec_of now + (2 ^ 64 - rem_time)) % 2 ^ 64)

-- The timers whose difference to the time of the call exceeds the round-trip time, and the others.
unfoldable pub due_timers : TimeVal → Ledger → List AckTimer → List AckTimer
due_timers now l [] = []
due_timers now l (t ∷ ts) = keep_if (is_overdue now l.latest_rtt t.rem_time) t (due_timers now l ts)

unfoldable pub other_timers : TimeVal → Ledger → List AckTimer → List AckTimer
other_timers now l [] = []
other_timers now l (t ∷ ts) =
    skip_if (is_overdue now l.latest_rtt t.rem_time) t (other_timers now l ts)

-- The loop from any set and list.
abbrev Splits :
    TimeVal
    → Ledger
    → List AckTimer
    → IntervalSet
    → List AckTimer
    → (due kept : List AckTimer) → Type 0
Splits now l ts set before due kept =
    (u : IntervalSet) × (split_timers now l ts set before ≡ ok (u, before ++ kept))
    × IsOrdered u
    × ((x : ℕ) → contain u x ≡ is_timed due x || contain set x)

split_one :
    (b : Bool) (now : TimeVal) (l : Ledger) (t : AckTimer) (ts : List AckTimer) (set : IntervalSet)
    (before due kept : List AckTimer)
    → must_ack now l t ≡ b
    → AllNumbers (t ∷ [])
    → IsOrdered set
    → ((s : IntervalSet) (k : List AckTimer) → IsOrdered s → Splits now l ts s k due kept)
    → Splits now l (t ∷ ts) set before (keep_if b t due) (skip_if b t kept)
unfolding split_timers split_by
split_one true now l t ts set before due kept e (h, u) o go =
    let (s, run, os, c) = contain-add_interval (single t.pkt_num) set (omega arith, h) o in
    let (v, run', ov, c') = go s before os in
    (
      v,
      ap (λ b. (do (set', kept') ← split_by b t set before; split_timers now l ts set' kept')) e
          ∙ ap
              (λ r. (do
                (set', kept') ← (do s' ← r; ok (s', before))
                split_timers now l ts set' kept'))
              run
          ∙ run',
      ov,
      λ x. c' x ∙ ground (arith, c x, at_single t.pkt_num x),
    )
split_one false now l t ts set before due kept e h o go =
    let (v, run, ov, c) = go set (before ++ (t ∷ [])) o in
    (
      v,
      ap (λ b. (do (set', kept') ← split_by b t set before; split_timers now l ts set' kept')) e
          ∙ run
          ∙ ap (λ k. ok (v, k)) (append_assoc before (t ∷ []) kept),
      ov,
      c,
    )

split_timers-contain :
    (now : TimeVal) (l : Ledger) (ts : List AckTimer) (set : IntervalSet) (before : List AckTimer)
    → AllNumbers ts
    → IsOrdered set
    → Splits now l ts set before (due_timers now l ts) (other_timers now l ts)
unfolding due_timers other_timers split_timers must_ack
split_timers-contain now l [] set before h o =
    (set, ap (λ k. ok (set, k)) (sym (append-nil before)), o, λ x. refl)
split_timers-contain now l (t ∷ ts) set before (h, hs) o =
    split_one (must_ack now l t) now l t ts set before (due_timers now l ts) (other_timers now l ts)
      refl (h, tt) o (λ s k os. split_timers-contain now l ts s k hs os)

-- Where the packet numbers fit 64 bits and the set of received numbers is ordered,
-- GetSpeACKPacketForRecPkt returns: the set that it acknowledges is ordered, and holds the numbers of
-- the timers whose remTime, subtracted in uint64_t from the milliseconds of the call, leaves more than
-- latest_rtt, and of all packets that have been received, and no others. The other timers stay in the
-- ledger; where the set is empty there is no packet, and the ledger is as before.
pub get_spe_ack_packet-contain :
    (now : TimeVal) (dst : ConnectionId) (l : Ledger)
    → AllNumbers l.not_acked_rec_pkt
    → IsOrdered l.rec_pkt_num
    → (u : IntervalSet) × (get_spe_ack_packet now dst l
        ≡ ok (ack_packet dst u (other_timers now l l.not_acked_rec_pkt) l))
      × IsOrdered u
      × ((x : ℕ)
          → contain u x
            ≡ is_timed (due_timers now l l.not_acked_rec_pkt) x || have_received_pkt x l)
unfolding get_spe_ack_packet have_received_pkt contain
get_spe_ack_packet-contain now dst l h o =
    let kept = other_timers now l l.not_acked_rec_pkt in
    let (s, run, os, c) = split_timers-contain now l l.not_acked_rec_pkt [] [] h tt in
    let (u, run', ou, c') = contain-add_interval_set s l.rec_pkt_num os o in
    (
      u,
      ap (λ r. do (s', k) ← r; u' ← add_interval_set s' l.rec_pkt_num; ok (ack_packet dst u' k l))
            run
          ∙ ap (λ r. do u' ← r; ok (ack_packet dst u' kept l)) run',
      ou,
      λ x. c' x ∙ ground (arith, c x),
    )
