-- ===== src/Utils/Interval.antt =====
-- utils/interval.hh: closed intervals of uint64_t, and sets of them as lists from the highest down.
-- A `std::list` with an iterator is the list from the iterator on; what stands before it is kept.
pub mod Compare
pub mod Sets
pub mod Add
pub mod Remove
pub mod Union
pub mod Difference
pub mod Examples
use simple_quic.Common.{
  ℕ, ◌+◌, ◌-◌, ◌%◌, ◌^◌, List, [], ◌∷◌, Bool, true, false, not, ◌&&◌, ◌||◌, ltb, leb, ◌==◌,
  if◌then◌else◌,
}
use simple_quic.Common.{Result, ok, err, Error, ◌>>=◌}

pub record Interval : Type 0 where
  pub start : ℕ
  pub end : ℕ

pub data PointCompResult : Type 0 where
  left left_extensible inner right_extensible right : PointCompResult

pub data IntervalCompResult : Type 0 where
  left : IntervalCompResult
  left_extensible : IntervalCompResult
  left_intersect : IntervalCompResult
  inner : IntervalCompResult
  right_intersect : IntervalCompResult
  right_extensible : IntervalCompResult
  right : IntervalCompResult
  outer : IntervalCompResult

-- `end + 1` wraps at 2^64.
unfoldable pub point_comp : Interval → ℕ → PointCompResult
point_comp i n =
    if not (i.start == 0) && ltb n (i.start - 1)
    then PointCompResult.left
    else if not (i.start == 0) && (n == i.start - 1)
    then PointCompResult.left_extensible
    else if leb n i.end
    then PointCompResult.inner
    else if n == (i.end + 1) % 2 ^ 64
    then PointCompResult.right_extensible
    else PointCompResult.right

is_inner : PointCompResult → Bool
is_inner PointCompResult.inner = true
is_inner _ = false

-- Interval::Contain
unfoldable pub holds : Interval → ℕ → Bool
unfolding is_inner point_comp
holds i v = is_inner (point_comp i v)

-- The nested switches, on where the start and where the end of the other interval lies.
unfoldable pub range_case :
    PointCompResult → PointCompResult → Interval → Interval → Result IntervalCompResult
range_case PointCompResult.left PointCompResult.left i v = ok IntervalCompResult.left
range_case PointCompResult.left PointCompResult.left_extensible i v =
    ok IntervalCompResult.left_extensible
range_case PointCompResult.left PointCompResult.inner i v =
    ok (if i.end == v.end then IntervalCompResult.outer else IntervalCompResult.left_intersect)
range_case PointCompResult.left PointCompResult.right_extensible i v = ok IntervalCompResult.outer
range_case PointCompResult.left PointCompResult.right i v = ok IntervalCompResult.outer
range_case PointCompResult.left_extensible PointCompResult.left_extensible i v =
    ok IntervalCompResult.left_extensible
range_case PointCompResult.left_extensible PointCompResult.inner i v =
    ok (if i.end == v.end then IntervalCompResult.outer else IntervalCompResult.left_intersect)
range_case PointCompResult.left_extensible PointCompResult.right_extensible i v =
    ok IntervalCompResult.outer
range_case PointCompResult.left_extensible PointCompResult.right i v = ok IntervalCompResult.outer
range_case PointCompResult.inner PointCompResult.inner i v = ok IntervalCompResult.inner
range_case PointCompResult.inner PointCompResult.right_extensible i v = ok (
    if not (i.start == v.start)
    then IntervalCompResult.right_intersect
    else IntervalCompResult.outer)
range_case PointCompResult.inner PointCompResult.right i v = ok (
    if not (i.start == v.start)
    then IntervalCompResult.right_intersect
    else IntervalCompResult.outer)
range_case PointCompResult.right_extensible PointCompResult.right_extensible i v =
    ok IntervalCompResult.right_extensible
range_case PointCompResult.right_extensible PointCompResult.right i v =
    ok IntervalCompResult.right_extensible
range_case PointCompResult.right PointCompResult.right i v = ok IntervalCompResult.right
range_case _ _ i v = err Error.invalid_argument

unfoldable pub range_comp : Interval → Interval → Result IntervalCompResult
unfolding range_case
range_comp i v = range_case (point_comp i v.start) (point_comp i v.end) i v

unfoldable pub check_invariant : Interval → Result Interval
check_invariant i = if leb i.start i.end then ok i else err Error.assertion

unfoldable pub complement_by : IntervalCompResult → Interval → Interval → Result Interval
complement_by IntervalCompResult.left_intersect i range =
    if range.end == i.end
    then err Error.invalid_argument
    else check_invariant (record i { start = (range.end + 1) % 2 ^ 64 })
complement_by IntervalCompResult.right_intersect i range =
    if range.start == i.start
    then err Error.invalid_argument
    else check_invariant (record i { end = range.start - 1 })
complement_by _ i range = err Error.invalid_argument

unfoldable pub complement : Interval → Interval → Result Interval
unfolding complement_by check_invariant
complement i range = do c ← range_comp i range; complement_by c i range

unfoldable pub merge_by : IntervalCompResult → Interval → Interval → Result Interval
merge_by IntervalCompResult.left i range = err Error.invalid_argument
merge_by IntervalCompResult.right i range = err Error.invalid_argument
merge_by IntervalCompResult.left_extensible i range =
    check_invariant (record i { start = range.start })
merge_by IntervalCompResult.left_intersect i range =
    check_invariant (record i { start = range.start })
merge_by IntervalCompResult.inner i range = check_invariant i
merge_by IntervalCompResult.right_extensible i range =
    check_invariant (record i { end = range.end })
merge_by IntervalCompResult.right_intersect i range = check_invariant (record i { end = range.end })
merge_by IntervalCompResult.outer i range =
    check_invariant (record { start = range.start; end = range.end })

unfoldable pub merge : Interval → Interval → Result Interval
unfolding merge_by check_invariant
merge i range = do c ← range_comp i range; merge_by c i range
