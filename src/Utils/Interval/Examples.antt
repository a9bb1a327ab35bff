-- ===== src/Utils/Interval/Examples.antt =====
-- Interval sets on concrete points, and the theorems at concrete sets.
use simple_quic.Common.{ℕ, ◌≡◌, refl, [], ◌∷◌, ok, arith, leb, ◌||◌, ◌&&◌, not}
use simple_quic.Utils.Interval.{Interval, range_comp, merge, point_comp, complement}
use simple_quic.Utils.Interval.Sets.{
  IntervalSet, contain, add_interval, maintain, remove_interval, add_interval_set,
  remove_interval_set, fragments, add_lower, add_upper,
}
use simple_quic.Utils.Interval.Add.{IsOrdered, contain-add_interval}
use simple_quic.Utils.Interval.Remove.{contain-remove_interval}
use simple_quic.Utils.Interval.Union.{contain-add_interval_set}
use simple_quic.Utils.Interval.Difference.{contain-remove_interval_set}

abbrev span : ℕ → ℕ → Interval
span a b = record { start = a; end = b }

abbrev some_set : IntervalSet
some_set = span 20 25 ∷ span 10 12 ∷ span 1 3 ∷ []

bridges : add_interval (span 4 21) some_set ≡ ok (span 1 25 ∷ [])
unfolding add_interval maintain merge range_comp point_comp
bridges = refl

cuts : remove_interval (span 11 22) some_set ≡ ok (span 23 25 ∷ span 10 10 ∷ span 1 3 ∷ [])
unfolding remove_interval complement range_comp point_comp fragments
cuts = refl

splits :
    remove_interval (span 21 22) some_set
    ≡ ok (span 23 25 ∷ span 20 20 ∷ span 10 12 ∷ span 1 3 ∷ [])
unfolding remove_interval complement range_comp point_comp fragments add_lower add_upper
splits = refl

unites :
    add_interval_set some_set (span 26 30 ∷ span 5 9 ∷ [])
    ≡ ok (span 20 30 ∷ span 5 12 ∷ span 1 3 ∷ [])
unfolding add_interval_set maintain merge range_comp point_comp
unites = refl

contain-add_interval_example :
    (t : IntervalSet) × (add_interval (span 4 21) some_set ≡ ok t)
    × IsOrdered t
    × ((x : ℕ) → contain t x ≡ (leb 4 x && leb x 21) || contain some_set x)
contain-add_interval_example = contain-add_interval (span 4 21) some_set (omega arith) (omega arith)

contain-remove_interval_example :
    (t : IntervalSet) × (remove_interval (span 11 22) some_set ≡ ok t)
    × IsOrdered t
    × ((x : ℕ) → contain t x ≡ contain some_set x && not (leb 11 x && leb x 22))
contain-remove_interval_example =
    contain-remove_interval (span 11 22) some_set (omega arith) (omega arith)

contain-add_interval_set_example :
    (u : IntervalSet) × (add_interval_set some_set (span 26 30 ∷ span 5 9 ∷ []) ≡ ok u)
    × IsOrdered u
    × ((x : ℕ) → contain u x ≡ contain some_set x || contain (span 26 30 ∷ span 5 9 ∷ []) x)
contain-add_interval_set_example =
    contain-add_interval_set some_set (span 26 30 ∷ span 5 9 ∷ []) (omega arith) (omega arith)

-- The first interval loses its lowest point, and the next one is split.
subtracts :
    remove_interval_set some_set (span 18 20 ∷ span 11 11 ∷ [])
    ≡ ok (span 21 25 ∷ span 12 12 ∷ span 10 10 ∷ span 1 3 ∷ [])
unfolding remove_interval_set complement range_comp point_comp fragments add_lower add_upper
subtracts = refl

contain-remove_interval_set_example :
    (u : IntervalSet) × (remove_interval_set some_set (span 18 20 ∷ span 11 11 ∷ []) ≡ ok u)
    × IsOrdered u
    × ((x : ℕ) → contain u x ≡ contain some_set x && not (contain (span 18 20 ∷ span 11 11 ∷ []) x))
contain-remove_interval_set_example =
    contain-remove_interval_set some_set (span 18 20 ∷ span 11 11 ∷ []) (omega arith) (omega arith)
