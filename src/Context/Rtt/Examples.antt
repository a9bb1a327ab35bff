-- ===== src/Context/Rtt/Examples.antt =====
-- A connection with a sample of 200 ms, and the theorems at it.
use simple_quic.Common.{◌-◌, ◌^◌, ◌≤◌, ◌≡◌, [], min, max, arith}
use simple_quic.Context.Ledger.{TimeVal}
use simple_quic.Context.Rtt.{Rtt, sample}
use simple_quic.Context.Rtt.Samples.{sample-between, sample-wraps}

abbrev sampled : Rtt
sampled = record {
  latest_acked_sent_pkt_num = [];
  smoothed_rtt = 200;
  rtt_var = 100;
  min_rtt = 200;
  first_rtt_sample = 9000;
}

abbrev at_ten : TimeVal
at_ten = record { sec = 10; usec = 0 }

sample-between_example :
    (min 200 (300 - 25) ≤ (sample at_ten 25 300 sampled).smoothed_rtt)
    × ((sample at_ten 25 300 sampled).smoothed_rtt ≤ max 200 300)
    × ((sample at_ten 25 300 sampled).min_rtt ≡ min 200 300)
sample-between_example =
    sample-between at_ten 25 300 sampled (λ e. absurd (omega (arith, e))) (omega arith)
      (omega arith) (omega arith)

sample-wraps_example : 2 ^ 60 ≤ (sample at_ten 0 300 sampled).rtt_var
sample-wraps_example =
    sample-wraps at_ten 300 sampled (λ e. absurd (omega (arith, e))) (omega arith) (omega arith)
      (omega arith)
