-- ===== src/Context/Rtt/Samples.antt =====
-- How a sample of the round-trip time changes what is estimated.
use simple_quic.Common.{
  ℕ, ◌+◌, ◌-◌, ◌*◌, ◌/◌, ◌%◌, ◌^◌, ◌<◌, ◌≤◌, ◌≡◌, ◌≢◌, refl, min, max, [], ◌==◌, Bool, true, false,
  if◌then◌else◌, arith, subst, sym, ap, ◌∙◌, Option, none, some,
}
use simple_quic.Context.Ledger.{TimeVal, msec_of, Ledger}
use simple_quic.Context.Congestion.{ConnectionState}
use simple_quic.Context.Ledger.Kept.{Same}
use simple_quic.Context.Rtt.{
  Rtt, granularity, minus, adjusted, update_pto, next_sample, sample, sample_if, last_of,
  update_rtt,
}

minus-le : (a b : ℕ) → b ≤ a → a < 2 ^ 64 → minus a b ≡ a - b
minus-le a b l h = omega (arith, l, h)

minus-gt : (a b : ℕ) → a < b → b ≤ 2 ^ 63 → minus a b % 2 ^ 63 ≡ 2 ^ 63 - (b - a)
minus-gt a b l h = omega (arith, l, h)

-- Where no packet is noted as newly acknowledged, updateRTT leaves the estimates as they are, and
-- the probe timeout becomes the sum of smoothed_rtt, the latest round-trip time, and four times
-- rtt_var or 100 ms, whichever is larger.
pub update_rtt-no_sample :
    (now : TimeVal) (delay largest : ℕ) (r : Rtt) (l : Ledger)
    → r.latest_acked_sent_pkt_num ≡ []
    → r.smoothed_rtt + 4 * r.rtt_var + granularity + l.latest_rtt < 2 ^ 64
    → update_rtt now delay largest r l
      ≡ (r, record l { pto = r.smoothed_rtt + max (4 * r.rtt_var) granularity + l.latest_rtt })
unfolding update_rtt sample_if last_of update_pto
update_rtt-no_sample now delay largest r l e small =
    let same : (r.smoothed_rtt + max (4 * r.rtt_var % 2 ^ 64) granularity + l.latest_rtt) % 2 ^ 64
        ≡ r.smoothed_rtt + max (4 * r.rtt_var) granularity + l.latest_rtt =
      omega (arith, small) in
    ap (λ o. (let s = sample_if (last_of o) now delay largest r l in (s.0, update_pto s.0 s.1))) e
    ∙ ap (λ n. (r, record l { pto = n })) same

adjusted-bounds :
    (low delay latest : ℕ)
    → latest < 2 ^ 60
    → delay ≤ latest
    → (latest - delay ≤ adjusted low delay latest) × (adjusted low delay latest ≤ latest)
adjusted-bounds low delay latest l d = grind (arith, minus-le latest delay d, l, d)

weighted :
    (s a : ℕ)
    → s < 2 ^ 60
    → a < 2 ^ 60
    → (min s a ≤ (7 * s + a) % 2 ^ 64 / 8) × ((7 * s + a) % 2 ^ 64 / 8 ≤ max s a)
weighted s a h h' = (omega (arith, h, h'), omega (arith, h, h'))

-- A further sample, where the times are below 2 ^ 60 and the delay is part of the round-trip time:
-- smoothed_rtt stays between its old value and the round-trip time, which may be reduced by the
-- delay, and min_rtt is the least so far.
pub sample-between :
    (now : TimeVal) (delay latest : ℕ) (r : Rtt)
    → r.first_rtt_sample ≢ 0
    → r.smoothed_rtt < 2 ^ 60
    → latest < 2 ^ 60
    → delay ≤ latest
    → (min r.smoothed_rtt (latest - delay) ≤ (sample now delay latest r).smoothed_rtt)
      × ((sample now delay latest r).smoothed_rtt ≤ max r.smoothed_rtt latest)
      × ((sample now delay latest r).min_rtt ≡ min r.min_rtt latest)
unfolding sample next_sample
sample-between now delay latest r later s l d =
    let (low, high) = adjusted-bounds (min r.min_rtt latest) delay latest l d in
    let (at_least, at_most) =
      weighted r.smoothed_rtt (adjusted (min r.min_rtt latest) delay latest) s
        (omega (arith, high, l)) in
    let is_later : (r.first_rtt_sample == 0) ≡ false = ground (arith, later) in
    rw is_later (omega (arith, at_least, low), omega (arith, at_most, high), refl)

wrapped :
    (v s a : ℕ)
    → v < 2 ^ 60
    → s < a
    → a < 2 ^ 60
    → 2 ^ 60 ≤ (3 * v + minus s a % 2 ^ 63) % 2 ^ 64 / 4
wrapped v s a h l h' =
    subst (λ d. 2 ^ 60 ≤ (3 * v + d) % 2 ^ 64 / 4) (sym (minus-gt s a l (omega (arith, h'))))
      (omega (arith, h, h', l))

-- A further sample without a delay that is longer than smoothed_rtt, where the times are below
-- 2 ^ 60: the difference is taken as an unsigned number, and rtt_var becomes at least 2 ^ 60.
pub sample-wraps :
    (now : TimeVal) (latest : ℕ) (r : Rtt)
    → r.first_rtt_sample ≢ 0
    → r.rtt_var < 2 ^ 60
    → r.smoothed_rtt < latest
    → latest < 2 ^ 60
    → 2 ^ 60 ≤ (sample now 0 latest r).rtt_var
unfolding sample next_sample
sample-wraps now latest r later v s l =
    let (low, high) = adjusted-bounds (min r.min_rtt latest) 0 latest l (omega arith) in
    let is_later : (r.first_rtt_sample == 0) ≡ false = ground (arith, later) in
    let same : adjusted (min r.min_rtt latest) 0 latest ≡ latest = omega (arith, low, high) in
    rw (is_later, same) (wrapped r.rtt_var r.smoothed_rtt latest v s l)

if-Same :
    (b : Bool) (x y : Rtt × Ledger) (s : ConnectionState)
    → Same s x.1
    → Same s y.1
    → Same s (if◌then◌else◌ {A = Rtt × Ledger} b x y).1
if-Same true x y s e e' = e
if-Same false x y s e e' = e'

sample_if-Same :
    (o : Option (ℕ × ℕ)) (now : TimeVal) (delay largest : ℕ) (r : Rtt) (l : Ledger)
    → Same l.congestion.cur_state (sample_if o now delay largest r l).1
unfolding sample_if
sample_if-Same none now delay largest r l = refl
sample_if-Same (some (num, sent)) now delay largest r l =
    let latest = minus (msec_of now) sent in
    if-Same (num == largest) (sample now delay latest r, record l { latest_rtt = latest }) (r, l)
      l.congestion.cur_state refl refl

-- updateRTT does not change the state of the connection.
pub update_rtt-Same :
    (now : TimeVal) (delay largest : ℕ) (r : Rtt) (l : Ledger)
    → Same l.congestion.cur_state (update_rtt now delay largest r l).1
unfolding update_rtt update_pto
update_rtt-Same now delay largest r l =
    sample_if-Same (last_of r.latest_acked_sent_pkt_num) now delay largest r l
