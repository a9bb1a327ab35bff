-- ===== src/Utils/Interval/Difference.antt =====
-- RemoveIntervalSet of utils/interval.hh as an operation on sets of points.
use simple_quic.Common.{
  Bool, ℕ, ◌+◌, ◌-◌, ◌≤◌, ◌<◌, ◌^◌, ◌≡◌, refl, sym, ap, subst, arith, ok, err, [], ◌∷◌, true, ◌&&◌,
  not, Result,
}
use simple_quic.Utils.Interval.{Interval, IntervalCompResult}
use simple_quic.Utils.Interval.Compare.{
  IsInterval, Lies, range_comp-Lies, complement_above, complement_below,
}
use simple_quic.Utils.Interval.Sets.{
  IntervalSet, contain, fragments, difference_by, remove_interval_set,
}
use simple_quic.Utils.Interval.Add.{
  Below, Below-mono, IsOrdered, within, contain-cons, Gives, Gives-points,
}
use simple_quic.Utils.Interval.Remove.{contain_lt, fragments-Gives}

set_of : Result IntervalSet → IntervalSet
set_of (ok s) = s
set_of (err e) = []

-- A list that is given is the outcome.
given :
    (n : ℕ) (g : ℕ → Bool) (s : IntervalSet)
    → Gives n g (ok s)
    → Below n s × ((x : ℕ) → contain s x ≡ g x)
unfolding set_of
given n g s (t, e, b, p) =
    let q : t ≡ s = ap set_of (sym e) in
    (subst (Below n) q b, subst (λ u. (x : ℕ) → contain u x ≡ g x) q p)

module _ (n : ℕ) (small : n ≤ 2 ^ 64 + 1) (i other : Interval) (rest others : IntervalSet)
    (again : IntervalSet → Result IntervalSet)
    (ih : (m : ℕ)
      → m ≤ 2 ^ 64 + 1
      → (s : IntervalSet) → Below m s
      → Gives m (λ x. contain s x && not (contain others x)) (again s))
    (b : Below n (i ∷ rest)) (bo : IsOrdered (other ∷ others)) where
  abbrev Goal : Result IntervalSet → Type 0
  Goal res = Gives n (λ x. contain (i ∷ rest) x && not (contain (other ∷ others) x)) res

  valid_i : IsInterval i
  valid_i = omega arith

  valid_other : IsInterval other
  valid_other = omega arith

  below_points : (x : ℕ) → contain rest x ≡ true → x < i.start
  below_points x = contain_lt i.start x rest b.2

  lower_points : (x : ℕ) → contain others x ≡ true → x < other.start
  lower_points x = contain_lt other.start x others bo.2

  -- The loop goes on with a list that has the points of the set outside `other`.
  continued :
      (s : IntervalSet)
      → Below n s
      → ((x : ℕ) → contain s x ≡ contain (i ∷ rest) x && not (within other x))
      → Goal (again s)
  continued s bs p =
      Gives-points n (λ x. contain s x && not (contain others x)) _ _
        (λ x. ground (arith, p x, contain-cons other others x)) (ih n small s bs)

  -- An interval is done, and the loop goes on behind it.
  settled :
      (j : Interval) (t : IntervalSet)
      → Below n (j ∷ t)
      → ((x : ℕ) → within j x ≡ within i x && not (contain (other ∷ others) x))
      → ((x : ℕ) → contain t x ≡ contain rest x && not (contain (other ∷ others) x))
      → Goal (ok (j ∷ t))
  settled j t bj p q =
      (j ∷ t, refl, bj, λ x. ground (arith, p x, q x, contain-cons j t x, contain-cons i rest x))

  difference_by-Gives :
      (on : Result IntervalSet) (c : IntervalCompResult)
      → Lies c i other
      → Gives i.start (λ x. contain rest x && not (contain (other ∷ others) x)) on
      → Goal (difference_by c other i rest again on)
  unfolding difference_by
  difference_by-Gives on IntervalCompResult.left l (t, e, bt, p) = rw e (
      settled i t (b.0, b.1, bt) (λ x. ground (arith, contain-cons other others x, lower_points x))
        p)
  difference_by-Gives on IntervalCompResult.left_extensible l (t, e, bt, p) = rw e (
      settled i t (b.0, b.1, bt) (λ x. ground (arith, contain-cons other others x, lower_points x))
        p)
  difference_by-Gives on IntervalCompResult.left_intersect l (t, e, bt, p) =
      rw (complement_above i other valid_i valid_other (omega arith), e)
        (settled (record i { start = other.end + 1 }) t
          (omega arith, omega arith, Below-mono i.start (other.end + 1) t (omega arith) bt)
          (λ x. ground (arith, contain-cons other others x, lower_points x)) p)
  difference_by-Gives on IntervalCompResult.inner l _ =
      let (bf, p) =
        given n _ (fragments other i rest)
          (fragments-Gives other i rest valid_other n small b (omega arith) (omega arith)) in
      continued (fragments other i rest) bf p
  difference_by-Gives on IntervalCompResult.right l _ =
      continued (i ∷ rest) b (λ x. ground (arith, contain-cons i rest x, below_points x))
  difference_by-Gives on IntervalCompResult.right_extensible l _ =
      continued (i ∷ rest) b (λ x. ground (arith, contain-cons i rest x, below_points x))
  difference_by-Gives on IntervalCompResult.right_intersect l _ =
      let j : Interval = record i { end = other.start - 1 } in
      rw (complement_below i other valid_i valid_other (omega arith)) (
        continued (j ∷ rest) (omega arith, omega arith, b.2)
          (λ x. ground (arith, contain-cons i rest x, contain-cons j rest x, below_points x)))
  difference_by-Gives on IntervalCompResult.outer l (t, e, bt, p) = rw e (
    t,
    refl,
    Below-mono i.start n t (omega arith) bt,
    λ x. ground (arith, p x, contain-cons i rest x, contain-cons other others x),
  )

remove_interval_set-Gives :
    (s t : IntervalSet) (n : ℕ)
    → n ≤ 2 ^ 64 + 1
    → Below n s
    → IsOrdered t
    → Gives n (λ x. contain s x && not (contain t x)) (remove_interval_set s t)
unfolding remove_interval_set contain
remove_interval_set-Gives s [] n small b bo = (s, refl, b, λ x. ground arith)
remove_interval_set-Gives [] (other ∷ others) n small b bo = ([], refl, tt, λ x. refl)
remove_interval_set-Gives (i ∷ rest) (other ∷ others) n small b bo =
    let (c, e, l) = range_comp-Lies i other (omega arith) (omega arith) in
    rw e (
      difference_by-Gives n small i other rest others (λ set. remove_interval_set set others)
        (λ m small' s bs.
          remove_interval_set-Gives s others m small' bs
            (Below-mono other.start (2 ^ 64 + 1) others (omega arith) bo.2))
        b bo (remove_interval_set rest (other ∷ others)) c l
        (remove_interval_set-Gives rest (other ∷ others) i.start (omega arith) b.2 bo))

-- RemoveIntervalSet of an ordered set from an ordered set returns a set. It is ordered, and it holds
-- the points of the first that are not points of the second, and no others.
pub contain-remove_interval_set :
    (s t : IntervalSet)
    → IsOrdered s
    → IsOrdered t
    → (u : IntervalSet) × (remove_interval_set s t ≡ ok u)
      × IsOrdered u
      × ((x : ℕ) → contain u x ≡ contain s x && not (contain t x))
contain-remove_interval_set s t os ot =
    remove_interval_set-Gives s t (2 ^ 64 + 1) (omega arith) os ot
