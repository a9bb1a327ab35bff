-- ===== src/Utils/Interval/Union.antt =====
-- AddIntervalSet of utils/interval.hh as an operation on sets of points.
use simple_quic.Common.{
  ℕ, ◌+◌, ◌≤◌, ◌<◌, ◌^◌, ◌≡◌, refl, arith, ok, [], ◌∷◌, false, ◌||◌, min, max, ◌>>=◌, Result,
}
use simple_quic.Utils.Interval.{Interval, IntervalCompResult, merge}
use simple_quic.Utils.Interval.Compare.{
  IsInterval, Lies, Touches, hull, range_comp-Lies, merge-hull,
}
use simple_quic.Utils.Interval.Sets.{IntervalSet, contain, maintain, union_by, add_interval_set}
use simple_quic.Utils.Interval.Add.{
  Below, Below-mono, IsOrdered, within, within-hull, contain-cons, Gives, Gives-points,
  maintain-Gives,
}

module _ (n : ℕ) (small : n ≤ 2 ^ 64 + 1) (i other : Interval) (rest others : IntervalSet)
    (again : IntervalSet → Result IntervalSet)
    (ih : (m : ℕ)
      → m ≤ 2 ^ 64 + 1
      → (s : IntervalSet) → Below m s
      → Below m others
      → Gives m (λ x. contain s x || contain others x) (again s))
    (b : Below n (i ∷ rest)) (bo : Below n (other ∷ others)) where
  abbrev Goal : Result IntervalSet → Type 0
  Goal res = Gives n (λ x. contain (i ∷ rest) x || contain (other ∷ others) x) res

  valid_i : IsInterval i
  valid_i = omega arith

  valid_other : IsInterval other
  valid_other = omega arith

  others-Below : Below n others
  others-Below = Below-mono other.start n others (omega arith) bo.2

  -- The loop goes on with the other set's next interval, at a list that holds the points so far.
  continued :
      (s : IntervalSet)
      → Below n s
      → ((x : ℕ) → contain s x ≡ (within (hull i other) x || contain rest x))
      → Touches i other
      → Goal (again s)
  continued s bs p h =
      Gives-points n (λ x. contain s x || contain others x) _ _
        (λ x. ground (
          arith,
          p x,
          within-hull i other x valid_i valid_other h,
          contain-cons i rest x,
          contain-cons other others x,
        ))
        (ih n small s bs others-Below)

  grown : Touches i other → i.start ≤ other.start → Goal (merge i other >>= λ j. again (j ∷ rest))
  grown h low = rw (merge-hull i other valid_i valid_other h) (
      continued (hull i other ∷ rest)
        (
          omega arith,
          omega arith,
          Below-mono i.start (min i.start other.start) rest (omega arith) b.2,
        )
        (λ x. contain-cons (hull i other) rest x) h)

  swallowed : Touches i other → Goal (merge i other >>= λ j. maintain j rest >>= λ set. again set)
  swallowed h =
      let (s, e, bs, p) =
        maintain-Gives n small rest (hull i other) (omega arith) (omega arith)
          (Below-mono i.start (max i.end other.end) rest (omega arith) b.2) in
      rw (merge-hull i other valid_i valid_other h, e) (continued s bs p h)

  union_by-Gives :
      (on : Result IntervalSet) (c : IntervalCompResult)
      → Lies c i other
      → (other.end + 1 < i.start
          → Gives i.start (λ x. contain rest x || contain (other ∷ others) x) on)
      → Goal (union_by c other i rest again on)
  unfolding union_by
  union_by-Gives on IntervalCompResult.left l later =
      let (t, e, bt, p) = later l in
      rw e (
        i ∷ t,
        refl,
        (b.0, b.1, bt),
        λ x. ground (arith, p x, contain-cons i t x, contain-cons i rest x),
      )
  union_by-Gives on IntervalCompResult.left_extensible l later = swallowed (omega arith)
  union_by-Gives on IntervalCompResult.left_intersect l later = swallowed (omega arith)
  union_by-Gives on IntervalCompResult.outer l later = swallowed (omega arith)
  union_by-Gives on IntervalCompResult.right_intersect l later = grown (omega arith) (omega arith)
  union_by-Gives on IntervalCompResult.right_extensible l later = grown (omega arith) (omega arith)
  union_by-Gives on IntervalCompResult.inner l later =
      Gives-points n (λ x. contain (i ∷ rest) x || contain others x) _ _
        (λ x. ground (arith, contain-cons i rest x, contain-cons other others x))
        (ih n small (i ∷ rest) b others-Below)
  union_by-Gives on IntervalCompResult.right l later =
      let (t, e, bt, p) = ih other.start (omega arith) (i ∷ rest) (b.0, l, b.2) bo.2 in
      rw e (
        other ∷ t,
        refl,
        (bo.0, bo.1, bt),
        λ x. ground (arith, p x, contain-cons other t x, contain-cons other others x),
      )

add_interval_set-Gives :
    (s t : IntervalSet) (n : ℕ)
    → n ≤ 2 ^ 64 + 1
    → Below n s
    → Below n t
    → Gives n (λ x. contain s x || contain t x) (add_interval_set s t)
unfolding add_interval_set
add_interval_set-Gives s [] n small b bo = (s, refl, b, λ x. ground (arith, contain-nil x))
  where
    contain-nil : (x : ℕ) → contain [] x ≡ false
    contain-nil x = unfold contain in refl
add_interval_set-Gives [] (other ∷ others) n small b bo =
    let (t, e, bt, p) = add_interval_set-Gives [] others other.start (omega arith) tt bo.2 in
    rw e (
      other ∷ t,
      refl,
      (bo.0, bo.1, bt),
      λ x. ground (arith, p x, contain-cons other t x, contain-cons other others x),
    )
add_interval_set-Gives (i ∷ rest) (other ∷ others) n small b bo =
    let (c, e, l) = range_comp-Lies i other (omega arith) (omega arith) in
    rw e (
      union_by-Gives n small i other rest others (λ set. add_interval_set set others)
        (λ m small' s bs bt. add_interval_set-Gives s others m small' bs bt) b bo
        (add_interval_set rest (other ∷ others)) c l
        (λ lower.
          add_interval_set-Gives rest (other ∷ others) i.start (omega arith) b.2
            (bo.0, lower, bo.2)))

-- AddIntervalSet of two ordered sets returns a set. It is ordered, and it holds the points of
-- either set, and no others.
pub contain-add_interval_set :
    (s t : IntervalSet)
    → IsOrdered s
    → IsOrdered t
    → (u : IntervalSet) × (add_interval_set s t ≡ ok u)
      × IsOrdered u
      × ((x : ℕ) → contain u x ≡ contain s x || contain t x)
contain-add_interval_set s t os ot = add_interval_set-Gives s t (2 ^ 64 + 1) (omega arith) os ot
