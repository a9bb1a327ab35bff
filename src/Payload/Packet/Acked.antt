-- ===== src/Payload/Packet/Acked.antt =====
-- CollectACKRange: the packet numbers that the frames of a payload acknowledge.
use simple_quic.Common.{ℕ, ◌≡◌, refl, ap, ◌∙◌, List, [], ◌∷◌, Bool, false, ◌||◌, ok, Result, arith}
use simple_quic.Utils.Interval.Sets.{IntervalSet, contain}
use simple_quic.Utils.Interval.Add.{IsOrdered}
use simple_quic.Utils.Interval.Union.{contain-add_interval_set}
use simple_quic.Payload.Frame.{Frame}
use simple_quic.Payload.Packet.Frames.{collect_one, collect_into, collect_ack_range}

-- The ranges of a frame; only the two classes of ACK frames have any.
abbrev pub ranges_of : Frame → IntervalSet
ranges_of (Frame.ack delay ranges) = ranges
ranges_of (Frame.ack_ecn delay ranges ect0 ect1 ectce) = ranges
ranges_of _ = []

-- Whether a frame of the list acknowledges the packet number.
abbrev pub acks : List Frame → ℕ → Bool
acks [] x = false
acks (f ∷ fs) x = contain (ranges_of f) x || acks fs x

abbrev pub AllOrdered : List Frame → Type 0
AllOrdered [] = Unit {0}
AllOrdered (f ∷ fs) = IsOrdered (ranges_of f) × AllOrdered fs

abbrev Collects : Result IntervalSet → (ℕ → Bool) → Type 0
Collects r f = (t : IntervalSet) × (r ≡ ok t) × IsOrdered t × ((x : ℕ) → contain t x ≡ f x)

or_false : (b : Bool) → b ≡ b || false
or_false b = ground arith

or_assoc : (a b c : Bool) → (a || b) || c ≡ a || (b || c)
or_assoc a b c = ground arith

collect_one-Collects :
    (f : Frame) (set : IntervalSet)
    → IsOrdered set
    → IsOrdered (ranges_of f)
    → Collects (collect_one f set) (λ x. contain set x || contain (ranges_of f) x)
unfolding collect_one contain
collect_one-Collects (Frame.ack d r) set o h = contain-add_interval_set set r o h
collect_one-Collects (Frame.ack_ecn d r a b c) set o h = contain-add_interval_set set r o h
collect_one-Collects _ set o h = (set, refl, o, λ x. or_false (contain set x))

collect_into-Collects :
    (fs : List Frame) (set : IntervalSet)
    → IsOrdered set
    → AllOrdered fs
    → Collects (collect_into set fs) (λ x. contain set x || acks fs x)
unfolding collect_into
collect_into-Collects [] set o h = (set, refl, o, λ x. or_false (contain set x))
collect_into-Collects (f ∷ fs) set o (hf, h) =
    let (u, e, ou, points) = collect_one-Collects f set o hf in
    let (t, e', ot, points') = collect_into-Collects fs u ou h in
    (
      t,
      rw e e',
      ot,
      λ x.
          points' x
          ∙ ap (λ b. b || acks fs x) (points x)
          ∙ or_assoc (contain set x) (contain (ranges_of f) x) (acks fs x),
    )

-- CollectACKRange of frames whose ranges are ordered returns a set. It is ordered, and it holds the
-- packet numbers that one of the frames acknowledges, and no others.
pub contain-collect_ack_range :
    (fs : List Frame)
    → AllOrdered fs
    → (t : IntervalSet) × (collect_ack_range fs ≡ ok t)
      × IsOrdered t
      × ((x : ℕ) → contain t x ≡ acks fs x)
unfolding collect_ack_range contain
contain-collect_ack_range fs h = collect_into-Collects fs [] tt h
