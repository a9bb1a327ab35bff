-- ===== src/Context/Rtt.antt =====
-- The round-trip times of a Connection of context/connection.hh, and the probe timeout that is
-- computed from them. `latest_rtt` and `pto` are fields of the ledger. The fields
-- loss_detection_timer_msec and loss_time, which nothing reads, are left out.
pub mod Samples
pub mod Examples
use simple_quic.Common.{
  ℕ, ◌+◌, ◌-◌, ◌*◌, ◌/◌, ◌%◌, ◌^◌, min, max, List, [], ◌∷◌, Bool, true, false, ◌==◌, ltb,
  if◌then◌else◌, Option, none, some,
}
use simple_quic.Context.Ledger.{TimeVal, msec_of, Ledger}

-- latestACKedSentPktNum holds packet numbers and times, by increasing number.
pub record Rtt : Type 0 where
  pub latest_acked_sent_pkt_num : List (ℕ × ℕ)
  pub smoothed_rtt : ℕ
  pub rtt_var : ℕ
  pub min_rtt : ℕ
  pub first_rtt_sample : ℕ

abbrev pub initial_rtt : ℕ
initial_rtt = 500

abbrev pub granularity : ℕ
granularity = 100

-- `(a - b)` of two uint64_t.
abbrev pub minus : ℕ → ℕ → ℕ
minus a b = (a + (2 ^ 64 - b)) % 2 ^ 64

unfoldable pub update_pto : Rtt → Ledger → Ledger
update_pto r l = record l {
  pto = (r.smoothed_rtt + max (4 * r.rtt_var % 2 ^ 64) granularity + l.latest_rtt) % 2 ^ 64;
}

-- What Connection::Initial sets.
unfoldable pub reset_rtt : Rtt → Rtt
reset_rtt r = record r {
  smoothed_rtt = initial_rtt;
  rtt_var = initial_rtt / 2;
  min_rtt = 0;
  first_rtt_sample = 0;
}

-- The element before `end()`.
last_of : List (ℕ × ℕ) → Option (ℕ × ℕ)
last_of [] = none
last_of (x ∷ []) = some x
last_of (x ∷ y ∷ ys) = last_of (y ∷ ys)

first_sample : TimeVal → ℕ → Rtt → Rtt
first_sample now latest r = record r {
  min_rtt = latest;
  smoothed_rtt = latest;
  rtt_var = latest / 2;
  first_rtt_sample = now.sec * 1000 % 2 ^ 64;
}

-- adjusted_rtt, where `low` is the new min_rtt.
abbrev pub adjusted : (low delay latest : ℕ) → ℕ
adjusted low delay latest =
    if ltb ((low + delay) % 2 ^ 64) latest then minus latest delay else latest

-- `& 0x7FFFFFFFFFFFFFFF` keeps the lowest 63 bits.
next_sample : (delay latest adj : ℕ) → Rtt → Rtt
next_sample delay latest adj r = record r {
  min_rtt = min r.min_rtt latest;
  rtt_var = (3 * r.rtt_var + minus r.smoothed_rtt adj % 2 ^ 63) % 2 ^ 64 / 4;
  smoothed_rtt = (7 * r.smoothed_rtt + adj) % 2 ^ 64 / 8;
}

unfoldable pub sample : TimeVal → (delay latest : ℕ) → Rtt → Rtt
unfolding first_sample next_sample
sample now delay latest r =
    if r.first_rtt_sample == 0
    then first_sample now latest r
    else next_sample delay latest (adjusted (min r.min_rtt latest) delay latest) r

-- The block for the newest of the packets that have been acknowledged.
sample_if : Option (ℕ × ℕ) → TimeVal → (delay largest : ℕ) → Rtt → Ledger → Rtt × Ledger
unfolding sample
sample_if none now delay largest r l = (r, l)
sample_if (some (num, sent)) now delay largest r l =
    let latest = minus (msec_of now) sent in
    if num == largest then (sample now delay latest r, record l { latest_rtt = latest }) else (r, l)

-- updateRTT, with the delay and the largest packet number of the ACK frame.
unfoldable pub update_rtt : TimeVal → (delay largest : ℕ) → Rtt → Ledger → Rtt × Ledger
unfolding last_of sample_if update_pto
update_rtt now delay largest r l =
    let s = sample_if (last_of r.latest_acked_sent_pkt_num) now delay largest r l in
    (s.0, update_pto s.0 s.1)
