-- ===== src/Utils/Interval/Sets.antt =====
-- IntervalSet of utils/interval.hh: the list of its intervals, the highest first.
use simple_quic.Common.{ℕ, ◌+◌, ◌-◌, ◌%◌, ◌^◌, List, [], ◌∷◌, Bool, false, ◌||◌, ltb, if◌then◌else◌}
use simple_quic.Common.{Result, ok, err, Error, ◌>>=◌, Option, none, some}
use simple_quic.Utils.Interval.{Interval, IntervalCompResult, holds, range_comp, merge, complement}

abbrev pub IntervalSet : Type 0
IntervalSet = List Interval

unfoldable pub contain : IntervalSet → ℕ → Bool
contain [] v = false
contain (i ∷ is) v = holds i v || contain is v

-- One turn of the loop in Maintain: `next` stands behind the iterator's interval `i`, and `again`
-- is the loop gone on with after `next` is erased.
unfoldable pub maintain_by :
    IntervalCompResult
    → Interval
    → Interval
    → IntervalSet
    → (Interval → Result IntervalSet)
    → Result IntervalSet
maintain_by IntervalCompResult.right i next rest again = ok (i ∷ next ∷ rest)
maintain_by IntervalCompResult.right_extensible i next rest again = merge i next >>= again
maintain_by IntervalCompResult.right_intersect i next rest again = merge i next >>= again
maintain_by IntervalCompResult.outer i next rest again = again i
maintain_by _ i next rest again = err Error.runtime_error

unfoldable pub maintain : Interval → IntervalSet → Result IntervalSet
unfolding maintain_by
maintain i [] = ok (i ∷ [])
maintain i (next ∷ rest) = do
  c ← range_comp next i
  maintain_by c i next rest (λ j. maintain j rest)

-- One turn of the loop in AddInterval, at the interval `i`; `on` is the rest of the set after the
-- loop has gone on to the next interval.
unfoldable pub add_by :
    IntervalCompResult → Interval → Interval → IntervalSet → Result IntervalSet → Result IntervalSet
add_by IntervalCompResult.right range i rest on = ok (range ∷ i ∷ rest)
add_by IntervalCompResult.right_extensible range i rest on = do j ← merge i range; ok (j ∷ rest)
add_by IntervalCompResult.right_intersect range i rest on = do j ← merge i range; ok (j ∷ rest)
add_by IntervalCompResult.inner range i rest on = ok (i ∷ rest)
add_by IntervalCompResult.left_extensible range i rest on = do j ← merge i range; maintain j rest
add_by IntervalCompResult.left_intersect range i rest on = do j ← merge i range; maintain j rest
add_by IntervalCompResult.left range i rest on = do tail ← on; ok (i ∷ tail)
add_by IntervalCompResult.outer range i rest on = do j ← merge i range; maintain j rest

-- AddInterval. The empty set and the end of the list both take the interval as it is.
unfoldable pub add_interval : Interval → IntervalSet → Result IntervalSet
unfolding add_by
add_interval range [] = ok (range ∷ [])
add_interval range (i ∷ rest) = do
  c ← range_comp i range
  add_by c range i rest (add_interval range rest)

-- What is left of `i` below and above the removed interval, put in front of `rest`.
unfoldable pub add_lower : Interval → Interval → IntervalSet → IntervalSet
add_lower range i rest =
    if ltb i.start range.start
    then record { start = i.start; end = range.start - 1 } ∷ rest
    else rest

unfoldable pub add_upper : Interval → Interval → IntervalSet → IntervalSet
add_upper range i rest =
    if ltb range.end i.end
    then record { start = (range.end + 1) % 2 ^ 64; end = i.end } ∷ rest
    else rest

unfoldable pub fragments : Interval → Interval → IntervalSet → IntervalSet
fragments range i rest = add_upper range i (add_lower range i rest)

-- One turn of the loop in RemoveInterval.
unfoldable pub remove_by :
    IntervalCompResult → Interval → Interval → IntervalSet → Result IntervalSet → Result IntervalSet
remove_by IntervalCompResult.right range i rest on = do tail ← on; ok (i ∷ tail)
remove_by IntervalCompResult.right_extensible range i rest on = do tail ← on; ok (i ∷ tail)
remove_by IntervalCompResult.right_intersect range i rest on = do
  j ← complement i range
  tail ← on
  ok (j ∷ tail)
remove_by IntervalCompResult.inner range i rest on = on
remove_by IntervalCompResult.left_intersect range i rest on = do
  j ← complement i range
  ok (j ∷ rest)
remove_by IntervalCompResult.left_extensible range i rest on = ok (i ∷ rest)
remove_by IntervalCompResult.left range i rest on = ok (i ∷ rest)
remove_by IntervalCompResult.outer range i rest on = ok (fragments range i rest)

-- RemoveInterval: here the removed interval is asked where the set's interval lies.
unfoldable pub remove_interval : Interval → IntervalSet → Result IntervalSet
unfolding remove_by
remove_interval range [] = ok []
remove_interval range (i ∷ rest) = do
  c ← range_comp range i
  remove_by c range i rest (remove_interval range rest)

-- AddIntervalSet: the loop over both lists. `again` goes on with the next interval of the other
-- set at the given place, `on` with the same one behind `i`.
unfoldable pub union_by :
    IntervalCompResult
    → Interval
    → Interval
    → IntervalSet
    → (IntervalSet → Result IntervalSet)
    → Result IntervalSet
    → Result IntervalSet
union_by IntervalCompResult.right other i rest again on = do
  tail ← again (i ∷ rest)
  ok (other ∷ tail)
union_by IntervalCompResult.right_intersect other i rest again on = do
  j ← merge i other
  again (j ∷ rest)
union_by IntervalCompResult.right_extensible other i rest again on = do
  j ← merge i other
  again (j ∷ rest)
union_by IntervalCompResult.outer other i rest again on = do
  j ← merge i other
  set ← maintain j rest
  again set
union_by IntervalCompResult.left_extensible other i rest again on = do
  j ← merge i other
  set ← maintain j rest
  again set
union_by IntervalCompResult.left_intersect other i rest again on = do
  j ← merge i other
  set ← maintain j rest
  again set
union_by IntervalCompResult.inner other i rest again on = again (i ∷ rest)
union_by IntervalCompResult.left other i rest again on = do tail ← on; ok (i ∷ tail)

unfoldable pub add_interval_set : IntervalSet → IntervalSet → Result IntervalSet
unfolding union_by
add_interval_set set [] = ok set
add_interval_set [] (other ∷ others) = do tail ← add_interval_set [] others; ok (other ∷ tail)
add_interval_set (i ∷ rest) (other ∷ others) = do
  c ← range_comp i other
  union_by c other i rest (λ set. add_interval_set set others)
      (add_interval_set rest (other ∷ others))

-- RemoveIntervalSet: the loop over both lists. `again` goes on with the next interval of the other
-- set at the given place, `on` with the same one behind `i`.
unfoldable pub difference_by :
    IntervalCompResult
    → Interval
    → Interval
    → IntervalSet
    → (IntervalSet → Result IntervalSet)
    → Result IntervalSet
    → Result IntervalSet
difference_by IntervalCompResult.left other i rest again on = do tail ← on; ok (i ∷ tail)
difference_by IntervalCompResult.left_extensible other i rest again on = do tail ← on; ok (i ∷ tail)
difference_by IntervalCompResult.left_intersect other i rest again on = do
  j ← complement i other
  tail ← on
  ok (j ∷ tail)
difference_by IntervalCompResult.inner other i rest again on = again (fragments other i rest)
difference_by IntervalCompResult.right other i rest again on = again (i ∷ rest)
difference_by IntervalCompResult.right_extensible other i rest again on = again (i ∷ rest)
difference_by IntervalCompResult.right_intersect other i rest again on = do
  j ← complement i other
  again (j ∷ rest)
difference_by IntervalCompResult.outer other i rest again on = on

unfoldable pub remove_interval_set : IntervalSet → IntervalSet → Result IntervalSet
unfolding difference_by
remove_interval_set set [] = ok set
remove_interval_set [] (other ∷ others) = ok []
remove_interval_set (i ∷ rest) (other ∷ others) = do
  c ← range_comp i other
  difference_by c other i rest (λ set. remove_interval_set set others)
      (remove_interval_set rest (other ∷ others))

-- GetStart and GetEnd: `back()` and `front()` of an empty list are undefined.
unfoldable pub get_start : IntervalSet → Option ℕ
get_start [] = none
get_start (i ∷ []) = some i.start
get_start (i ∷ j ∷ is) = get_start (j ∷ is)

unfoldable pub get_end : IntervalSet → Option ℕ
get_end [] = none
get_end (i ∷ is) = some i.end
