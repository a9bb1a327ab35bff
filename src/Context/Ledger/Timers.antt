-- ===== src/Context/Ledger/Timers.antt =====
-- The timers of packets: which an ACK frame leaves, and what goes with them.
use simple_quic.Common.{
  ℕ, zero, suc, ◌<◌, ◌^◌, ◌≡◌, refl, List, [], ◌∷◌, ◌++◌, Bool, true, false, ◌||◌, ◌==◌, drop,
  Result, ok, ◌>>=◌,
}
use simple_quic.Utils.Interval.Sets.{IntervalSet, contain}
use simple_quic.Context.Congestion.{Congestion, packet_acked}
use simple_quic.Context.Ledger.{AckTimer, PtoTimer, pto_at}

abbrev pub listed : List ℕ → ℕ → Bool
listed [] x = false
listed (n ∷ ns) x = (x == n) || listed ns x

-- By whether a timer's packet is acknowledged, and whether its number has come before: the timer is
-- kept, or counts as landed, or is left out.
abbrev pub kept_by : (acked before : Bool) → AckTimer → (same more : List AckTimer) → List AckTimer
kept_by false false t same more = t ∷ more
kept_by true false t same more = more
kept_by acked true t same more = same

-- The first timer of each number that is neither listed nor acknowledged.
unfoldable pub unacked : IntervalSet → List ℕ → List AckTimer → List AckTimer
unacked acked ns [] = []
unacked acked ns (t ∷ ts) =
    kept_by (contain acked t.pkt_num) (listed ns t.pkt_num) t (unacked acked ns ts)
      (unacked acked (t.pkt_num ∷ ns) ts)

abbrev pub landed_by :
    (acked before : Bool) → AckTimer → (same more : List AckTimer) → List AckTimer
landed_by false false t same more = more
landed_by true false t same more = t ∷ more
landed_by acked true t same more = same

-- The first timer of each number that is not listed and acknowledged.
unfoldable pub landed : IntervalSet → List ℕ → List AckTimer → List AckTimer
landed acked ns [] = []
landed acked ns (t ∷ ts) =
    landed_by (contain acked t.pkt_num) (listed ns t.pkt_num) t (landed acked ns ts)
      (landed acked (t.pkt_num ∷ ns) ts)

-- Congestion control told of each of the packets, in order.
abbrev pub land_each : List AckTimer → Congestion → Result Congestion
land_each [] c = ok c
land_each (t ∷ ts) c = do c' ← packet_acked t.pkt_len c; land_each ts c'

abbrev pub AllNumbers : List AckTimer → Type 0
AllNumbers [] = Unit {0}
AllNumbers (t ∷ ts) = (t.pkt_num < 2 ^ 64) × AllNumbers ts

-- The PTO timers are those of the same packets, in the same order.
abbrev pub IsPaired : List AckTimer → List PtoTimer → Type 0
IsPaired [] [] = Unit {0}
IsPaired (t ∷ ts) (p ∷ ps) = (t.pkt_num ≡ p.pkt_num) × IsPaired ts ps
IsPaired _ _ = ⊥

pub IsPaired-snoc :
    (ts : List AckTimer) (ps : List PtoTimer) (t : AckTimer) (p : PtoTimer)
    → IsPaired ts ps
    → t.pkt_num ≡ p.pkt_num
    → IsPaired (ts ++ (t ∷ [])) (ps ++ (p ∷ []))
IsPaired-snoc [] [] t p h e = (e, tt)
IsPaired-snoc (u ∷ ts) (q ∷ ps) t p (h, hs) e = (h, IsPaired-snoc ts ps t p hs e)
IsPaired-snoc [] (q ∷ ps) t p h e = absurd h
IsPaired-snoc (u ∷ ts) [] t p h e = absurd h

-- The timer at the place where a paired list begins.
pub IsPaired-head :
    (ptos : List PtoTimer) (n : ℕ) (t : AckTimer) (ts : List AckTimer)
    → IsPaired (t ∷ ts) (drop n ptos)
    → (p : PtoTimer) × (pto_at ptos n ≡ p ∷ [])
      × (t.pkt_num ≡ p.pkt_num)
      × IsPaired ts (drop (suc n) ptos)
IsPaired-head [] zero t ts h = absurd h
IsPaired-head [] (suc n) t ts h = absurd h
IsPaired-head (p ∷ ptos) zero t ts (e, h) = (p, refl, e, h)
IsPaired-head (q ∷ ptos) (suc n) t ts h = IsPaired-head ptos n t ts h
