-- ===== src/Utils/Interval/Compare.antt =====
-- RangeComp, Merge and Complement as inequalities between the ends of two intervals.
use simple_quic.Common.{
  ℕ, ◌+◌, ◌-◌, ◌≤◌, ◌<◌, ◌^◌, ◌≡◌, ◌≢◌, refl, ◌⊎◌, arith, ok, leb, ◌&&◌, min, max, Result,
  Bool-cases, ==→eq, inl, inr, not, if◌then◌else◌, ◌==◌,
}
use simple_quic.Utils.Interval.{
  Interval, IntervalCompResult, PointCompResult, point_comp, holds, range_case, range_comp,
  merge_by, merge, complement_by, complement, check_invariant,
}

abbrev pub IsInterval : Interval → Type 0
IsInterval i = (i.start ≤ i.end) × (i.end < 2 ^ 64)

-- Where `r` lies, seen from `i`.
abbrev pub Lies : IntervalCompResult → Interval → Interval → Type 0
Lies IntervalCompResult.left i r = r.end + 1 < i.start
Lies IntervalCompResult.left_extensible i r = r.end + 1 ≡ i.start
Lies IntervalCompResult.left_intersect i r =
    (r.start < i.start) × (i.start ≤ r.end) × (r.end < i.end)
Lies IntervalCompResult.inner i r = (i.start ≤ r.start) × (r.end ≤ i.end)
Lies IntervalCompResult.right_intersect i r =
    (i.start < r.start) × (r.start ≤ i.end) × (i.end < r.end)
Lies IntervalCompResult.right_extensible i r = r.start ≡ i.end + 1
Lies IntervalCompResult.right i r = i.end + 1 < r.start
Lies IntervalCompResult.outer i r =
    (r.start ≤ i.start) × (i.end ≤ r.end) × ((r.start ≢ i.start) ⊎ (r.end ≢ i.end))

abbrev pub PointLies : PointCompResult → Interval → ℕ → Type 0
PointLies PointCompResult.left i n = n + 1 < i.start
PointLies PointCompResult.left_extensible i n = n + 1 ≡ i.start
PointLies PointCompResult.inner i n = (i.start ≤ n) × (n ≤ i.end)
PointLies PointCompResult.right_extensible i n = n ≡ i.end + 1
PointLies PointCompResult.right i n = i.end + 1 < n

point_comp-Lies :
    (i : Interval) (n : ℕ) → IsInterval i → n < 2 ^ 64 → PointLies (point_comp i n) i n
unfolding point_comp
point_comp-Lies i n v h = ground arith

below_end :
    (i r : Interval)
    → r.start < i.start
    → (i.start ≤ r.end) × (r.end ≤ i.end)
    → (c : IntervalCompResult) × (◌≡◌ {A = Result IntervalCompResult}
        (ok
          (if i.end == r.end then IntervalCompResult.outer else IntervalCompResult.left_intersect))
        (ok c))
      × Lies c i r
below_end i r h k = elim (Bool-cases (i.end == r.end)) [
  | inl e ↦ (IntervalCompResult.outer, rw e, ground (arith, ==→eq i.end r.end e))
  | inr e ↦ (IntervalCompResult.left_intersect, rw e, ground arith)
]

above_start :
    (i r : Interval)
    → (i.start ≤ r.start) × (r.start ≤ i.end)
    → i.end < r.end
    → (c : IntervalCompResult) × (◌≡◌ {A = Result IntervalCompResult}
        (ok (
          if not (i.start == r.start)
          then IntervalCompResult.right_intersect
          else IntervalCompResult.outer))
        (ok c))
      × Lies c i r
above_start i r h k = elim (Bool-cases (i.start == r.start)) [
  | inl e ↦ (IntervalCompResult.outer, rw e, ground (arith, ==→eq i.start r.start e))
  | inr e ↦ (IntervalCompResult.right_intersect, rw e, ground arith)
]

by_ends :
    (p q : PointCompResult) (i r : Interval)
    → IsInterval i
    → IsInterval r
    → PointLies p i r.start
    → PointLies q i r.end
    → (c : IntervalCompResult) × (range_case p q i r ≡ ok c) × Lies c i r
unfolding range_case
by_ends PointCompResult.left PointCompResult.left i r vi vr hp hq =
    (IntervalCompResult.left, refl, omega arith)
by_ends PointCompResult.left PointCompResult.left_extensible i r vi vr hp hq =
    (IntervalCompResult.left_extensible, refl, omega arith)
by_ends PointCompResult.left PointCompResult.inner i r vi vr hp hq = below_end i r (omega arith) hq
by_ends PointCompResult.left PointCompResult.right_extensible i r vi vr hp hq =
    (IntervalCompResult.outer, refl, ground arith)
by_ends PointCompResult.left PointCompResult.right i r vi vr hp hq =
    (IntervalCompResult.outer, refl, ground arith)
by_ends PointCompResult.left_extensible PointCompResult.left_extensible i r vi vr hp hq =
    (IntervalCompResult.left_extensible, refl, omega arith)
by_ends PointCompResult.left_extensible PointCompResult.inner i r vi vr hp hq =
    below_end i r (omega arith) hq
by_ends PointCompResult.left_extensible PointCompResult.right_extensible i r vi vr hp hq =
    (IntervalCompResult.outer, refl, ground arith)
by_ends PointCompResult.left_extensible PointCompResult.right i r vi vr hp hq =
    (IntervalCompResult.outer, refl, ground arith)
by_ends PointCompResult.inner PointCompResult.inner i r vi vr hp hq =
    (IntervalCompResult.inner, refl, omega arith)
by_ends PointCompResult.inner PointCompResult.right_extensible i r vi vr hp hq =
    above_start i r hp (omega arith)
by_ends PointCompResult.inner PointCompResult.right i r vi vr hp hq =
    above_start i r hp (omega arith)
by_ends PointCompResult.right_extensible PointCompResult.right_extensible i r vi vr hp hq =
    (IntervalCompResult.right_extensible, refl, omega arith)
by_ends PointCompResult.right_extensible PointCompResult.right i r vi vr hp hq =
    (IntervalCompResult.right_extensible, refl, omega arith)
by_ends PointCompResult.right PointCompResult.right i r vi vr hp hq =
    (IntervalCompResult.right, refl, omega arith)
by_ends _ _ i r vi vr hp hq = absurd (omega arith)

-- On two intervals of uint64_t RangeComp returns a case, and the inequalities of that case hold
-- between their ends.
pub range_comp-Lies :
    (i r : Interval)
    → IsInterval i
    → IsInterval r
    → (c : IntervalCompResult) × (range_comp i r ≡ ok c) × Lies c i r
unfolding range_comp
range_comp-Lies i r vi vr =
    by_ends (point_comp i r.start) (point_comp i r.end) i r vi vr
      (point_comp-Lies i r.start vi (omega arith)) (point_comp-Lies i r.end vi (omega arith))

-- Contain: the point lies between the ends.
pub holds_lem : (i : Interval) (n : ℕ) → holds i n ≡ leb i.start n && leb n i.end
unfolding holds
holds_lem i n = ground arith

-- The smallest interval around both.
abbrev pub hull : Interval → Interval → Interval
hull i r = record { start = min i.start r.start; end = max i.end r.end }

abbrev pub Touches : Interval → Interval → Type 0
Touches i r = (r.start ≤ i.end + 1) × (i.start ≤ r.end + 1)

merge_by-hull :
    (c : IntervalCompResult) (i r : Interval)
    → IsInterval i
    → IsInterval r
    → Touches i r
    → Lies c i r
    → merge_by c i r ≡ ok (hull i r)
unfolding merge_by check_invariant
merge_by-hull IntervalCompResult.left i r vi vr h l = absurd (omega arith)
merge_by-hull _ i r vi vr h l = ground arith

-- Merge of two intervals of uint64_t that touch or overlap returns their hull.
pub merge-hull :
    (i r : Interval) → IsInterval i → IsInterval r → Touches i r → merge i r ≡ ok (hull i r)
unfolding merge
merge-hull i r vi vr h =
    let (c, e, l) = range_comp-Lies i r vi vr in rw e (merge_by-hull c i r vi vr h l)

complement_by-above :
    (c : IntervalCompResult) (i r : Interval)
    → IsInterval i
    → IsInterval r
    → Lies IntervalCompResult.left_intersect i r
    → Lies c i r
    → complement_by c i r ≡ ok (record i { start = r.end + 1 })
unfolding complement_by check_invariant
complement_by-above IntervalCompResult.left i r vi vr h l = absurd (omega arith)
complement_by-above IntervalCompResult.left_intersect i r vi vr h l = ground arith
complement_by-above IntervalCompResult.outer i r vi vr h l = absurd (omega arith)
complement_by-above _ i r vi vr h l = absurd (omega arith)

complement_by-below :
    (c : IntervalCompResult) (i r : Interval)
    → IsInterval i
    → IsInterval r
    → Lies IntervalCompResult.right_intersect i r
    → Lies c i r
    → complement_by c i r ≡ ok (record i { end = r.start - 1 })
unfolding complement_by check_invariant
complement_by-below IntervalCompResult.left i r vi vr h l = absurd (omega arith)
complement_by-below IntervalCompResult.right_intersect i r vi vr h l = ground arith
complement_by-below _ i r vi vr h l = absurd (omega arith)

-- Complement cuts off the end that the other interval covers.
pub complement_above :
    (i r : Interval)
    → IsInterval i
    → IsInterval r
    → Lies IntervalCompResult.left_intersect i r
    → complement i r ≡ ok (record i { start = r.end + 1 })
unfolding complement
complement_above i r vi vr h =
    let (c, e, l) = range_comp-Lies i r vi vr in rw e (complement_by-above c i r vi vr h l)

pub complement_below :
    (i r : Interval)
    → IsInterval i
    → IsInterval r
    → Lies IntervalCompResult.right_intersect i r
    → complement i r ≡ ok (record i { end = r.start - 1 })
unfolding complement
complement_below i r vi vr h =
    let (c, e, l) = range_comp-Lies i r vi vr in rw e (complement_by-below c i r vi vr h l)
