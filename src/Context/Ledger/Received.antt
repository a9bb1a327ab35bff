-- ===== src/Context/Ledger/Received.antt =====
-- The set of packet numbers that a connection acknowledges.
use simple_quic.Common.{
  ℕ, ◌≡◌, refl, ap, ◌∙◌, List, [], ◌∷◌, Bool, false, ◌||◌, ◌==◌, ok, ◌>>=◌, arith,
}
use simple_quic.Utils.Interval.Sets.{IntervalSet, contain, add_interval_set}
use simple_quic.Utils.Interval.Add.{IsOrdered, contain-add_interval}
use simple_quic.Utils.Interval.Union.{contain-add_interval_set}
use simple_quic.Context.Queue.{single}
use simple_quic.Context.Queue.Invariant.{at_single}
use simple_quic.Context.Ledger.{
  AckTimer, Ledger, add_timers, get_need_ack_rec_pkt, have_received_pkt,
}
use simple_quic.Context.Ledger.Timers.{AllNumbers}

-- Whether a timer is that of the packet number.
abbrev pub is_timed : List AckTimer → ℕ → Bool
is_timed [] x = false
is_timed (t ∷ ts) x = (x == t.pkt_num) || is_timed ts x

add_timers-contain :
    (ts : List AckTimer) (s : IntervalSet)
    → AllNumbers ts
    → IsOrdered s
    → (u : IntervalSet) × (add_timers ts s ≡ ok u)
      × IsOrdered u
      × ((x : ℕ) → contain u x ≡ is_timed ts x || contain s x)
unfolding add_timers
add_timers-contain [] s h o = (s, refl, o, λ x. refl)
add_timers-contain (t ∷ ts) s (h, hs) o =
    let (s', run, o', c) = contain-add_interval (single t.pkt_num) s (omega arith, h) o in
    let (u, run', o'', c') = add_timers-contain ts s' hs o' in
    (
      u,
      ap (λ r. r >>= add_timers ts) run ∙ run',
      o'',
      λ x. c' x ∙ ground (arith, c x, at_single t.pkt_num x),
    )

-- getNeedACKRecPkt returns, where the packet numbers fit 64 bits and the set of received numbers is
-- ordered: the set that is acknowledged is ordered, and holds the numbers of the packets that wait
-- for an acknowledgement and those that have been received, and no others. No packet waits then, and
-- nothing else changes.
pub get_need_ack_rec_pkt-contain :
    (l : Ledger)
    → AllNumbers l.not_acked_rec_pkt
    → IsOrdered l.rec_pkt_num
    → (u : IntervalSet) × (get_need_ack_rec_pkt l ≡ ok (u, record l { not_acked_rec_pkt = [] }))
      × IsOrdered u
      × ((x : ℕ) → contain u x ≡ is_timed l.not_acked_rec_pkt x || have_received_pkt x l)
unfolding get_need_ack_rec_pkt have_received_pkt contain
get_need_ack_rec_pkt-contain l h o =
    let (s, run, os, c) = add_timers-contain l.not_acked_rec_pkt [] h tt in
    let (u, run', ou, c') = contain-add_interval_set s l.rec_pkt_num os o in
    (
      u,
      ap
            (λ r. do
              s' ← r
              u' ← add_interval_set s' l.rec_pkt_num
              ok (u', record l { not_acked_rec_pkt = [] }))
            run
          ∙ ap (λ r. do u' ← r; ok (u', record l { not_acked_rec_pkt = [] })) run',
      ou,
      λ x. c' x ∙ ground (arith, c x),
    )
