-- ===== src/Utils/Interval/Remove.antt =====
-- RemoveInterval of utils/interval.hh as an operation on sets of points.
use simple_quic.Common.{
  ℕ, ◌+◌, ◌-◌, ◌≤◌, ◌<◌, ◌^◌, ◌%◌, ◌≡◌, refl, arith, ok, [], ◌∷◌, true, leb, ◌&&◌, ◌||◌, not, ltb,
  Result, Bool-cases, inl, inr, ltb→lt,
}
use simple_quic.Utils.Interval.{Interval, IntervalCompResult}
use simple_quic.Utils.Interval.Compare.{
  IsInterval, Lies, range_comp-Lies, complement_above, complement_below,
}
use simple_quic.Utils.Interval.Sets.{
  IntervalSet, contain, remove_by, remove_interval, fragments, add_lower, add_upper,
}
use simple_quic.Utils.Interval.Add.{Below, Below-mono, IsOrdered, within, contain-cons, Gives}

pub contain_lt : (n x : ℕ) (s : IntervalSet) → Below n s → contain s x ≡ true → x < n
unfolding contain
contain_lt n x [] b e = absurd (ground arith)
contain_lt n x (i ∷ is) b e = ground (arith, contain-cons i is x, contain_lt i.start x is b.2)

module _ (r i : Interval) (rest : IntervalSet) (v : IsInterval r) (n : ℕ) (small : n ≤ 2 ^ 64 + 1)
    (b : Below n (i ∷ rest)) where
  abbrev Goal : Result IntervalSet → Type 0
  Goal res = Gives n (λ x. contain (i ∷ rest) x && not (within r x)) res

  below_points : (x : ℕ) → contain rest x ≡ true → x < i.start
  below_points x = contain_lt i.start x rest b.2

  -- The points that a list in place of `i ∷ rest` has to hold.
  kept :
      (t : IntervalSet)
      → Below n t
      → ((x : ℕ) → contain t x ≡ (within i x || contain rest x) && not (within r x))
      → Goal (ok t)
  kept t bt p = (t, refl, bt, λ x. ground (arith, p x, contain-cons i rest x))

  add_lower-Below : i.start ≤ r.start → (m : ℕ) → r.start < m → Below m (add_lower r i rest)
  unfolding add_lower
  add_lower-Below lo m h = elim (Bool-cases (ltb i.start r.start)) [
    | inl p ↦
        let q : i.start < r.start = ltb→lt i.start r.start p in rw p (omega arith, omega arith, b.2)
    | inr p ↦ rw p (Below-mono i.start m rest (omega arith) b.2)
  ]

  contain-add_lower :
      i.start ≤ r.start
      → (x : ℕ)
      → contain (add_lower r i rest) x ≡ (leb i.start x && ltb x r.start) || contain rest x
  unfolding add_lower
  contain-add_lower lo x = elim (Bool-cases (ltb i.start r.start)) [
    | inl p ↦
        rw (p, contain-cons (record { start = i.start; end = r.start - 1 }) rest x) (ground arith)
    | inr p ↦ rw p (ground arith)
  ]

  pub fragments-Gives : i.start ≤ r.start → r.end ≤ i.end → Goal (ok (fragments r i rest))
  unfolding fragments add_upper
  fragments-Gives lo hi = elim (Bool-cases (ltb r.end i.end)) [
    | inl p ↦
        let q : r.end < i.end = ltb→lt r.end i.end p in
        rw p (
          kept _ (omega arith, omega arith, add_lower-Below lo ((r.end + 1) % 2 ^ 64) (omega arith))
            (λ x.
              rw
                (
                  contain-cons (record { start = (r.end + 1) % 2 ^ 64; end = i.end })
                      (add_lower r i rest) x,
                  contain-add_lower lo x,
                )
                (ground (arith, below_points x))))
    | inr p ↦ rw p (
        kept _ (add_lower-Below lo n (omega arith))
          (λ x. rw (contain-add_lower lo x) (ground (arith, below_points x))))
  ]

  remove_by-Gives :
      (on : Result IntervalSet) (c : IntervalCompResult)
      → Lies c r i
      → Gives i.start (λ x. contain rest x && not (within r x)) on
      → Goal (remove_by c r i rest on)
  unfolding remove_by
  remove_by-Gives on IntervalCompResult.right l (t, e, bt, p) =
      rw e (kept (i ∷ t) (b.0, b.1, bt) (λ x. rw (contain-cons i t x) (ground (arith, p x))))
  remove_by-Gives on IntervalCompResult.right_extensible l (t, e, bt, p) =
      rw e (kept (i ∷ t) (b.0, b.1, bt) (λ x. rw (contain-cons i t x) (ground (arith, p x))))
  remove_by-Gives on IntervalCompResult.right_intersect l (t, e, bt, p) =
      rw (complement_above i r (omega arith) v l, e)
        (kept (record i { start = r.end + 1 } ∷ t)
          (omega arith, omega arith, Below-mono i.start (r.end + 1) t (omega arith) bt)
          (λ x. rw (contain-cons (record i { start = r.end + 1 }) t x) (ground (arith, p x))))
  remove_by-Gives on IntervalCompResult.inner l (t, e, bt, p) =
      rw e (
        kept t (Below-mono i.start n t (omega arith) bt) (λ x. ground (arith, p x, below_points x)))
  remove_by-Gives on IntervalCompResult.left_intersect l _ =
      rw (complement_below i r (omega arith) v l) (
        kept (record i { end = r.start - 1 } ∷ rest) (omega arith, omega arith, b.2)
          (λ x.
            rw (contain-cons (record i { end = r.start - 1 }) rest x)
              (ground (arith, below_points x))))
  remove_by-Gives on IntervalCompResult.left_extensible l _ =
      kept (i ∷ rest) b (λ x. rw (contain-cons i rest x) (ground (arith, below_points x)))
  remove_by-Gives on IntervalCompResult.left l _ =
      kept (i ∷ rest) b (λ x. rw (contain-cons i rest x) (ground (arith, below_points x)))
  remove_by-Gives on IntervalCompResult.outer l _ = fragments-Gives l.0 l.1

remove_interval-Gives :
    (r : Interval) (s : IntervalSet)
    → IsInterval r
    → (n : ℕ) → n ≤ 2 ^ 64 + 1
    → Below n s
    → Gives n (λ x. contain s x && not (within r x)) (remove_interval r s)
unfolding remove_interval contain
remove_interval-Gives r [] v n small b = ([], refl, tt, λ x. refl)
remove_interval-Gives r (i ∷ rest) v n small b =
    let (c, e, l) = range_comp-Lies r i v (omega arith) in
    rw e (
      remove_by-Gives r i rest v n small b (remove_interval r rest) c l
        (remove_interval-Gives r rest v i.start (omega arith) b.2))

-- RemoveInterval of an interval of uint64_t from an ordered set returns a set. It is ordered, and
-- it holds the points of the set that lie outside the interval, and no others.
pub contain-remove_interval :
    (r : Interval) (s : IntervalSet)
    → IsInterval r
    → IsOrdered s
    → (t : IntervalSet) × (remove_interval r s ≡ ok t)
      × IsOrdered t
      × ((x : ℕ) → contain t x ≡ contain s x && not (leb r.start x && leb x r.end))
contain-remove_interval r s v o = remove_interval-Gives r s v (2 ^ 64 + 1) (omega arith) o
