-- ===== src/Context/Floats/Rounding.antt =====
-- Runs of the float comparisons of flow control: the limits of a stream, and the next limit.
use simple_quic.Common.{◌≡◌, refl, true, false}
use simple_quic.Context.Floats.{excess, round_by, round_to, nearest, reaches_thresh, scaled_limit}

scaled_limit_of_10240 : scaled_limit 10240 ≡ 14479
unfolding scaled_limit round_to excess round_by nearest
scaled_limit_of_10240 = refl

reaches_thresh_at : reaches_thresh 7168 10240 ≡ true
unfolding reaches_thresh round_to excess round_by nearest
reaches_thresh_at = refl

reaches_thresh_below : reaches_thresh 7167 10240 ≡ false
unfolding reaches_thresh round_to excess round_by nearest
reaches_thresh_below = refl

scaled_limit_of_3 : scaled_limit 3 ≡ 4
unfolding scaled_limit round_to excess round_by nearest
scaled_limit_of_3 = refl
