-- ===== src/Utils/Interval/Add.antt =====
-- AddInterval and Maintain of utils/interval.hh as operations on sets of points.
use simple_quic.Common.{
  ℕ, ◌+◌, ◌≤◌, ◌<◌, ◌^◌, ◌≡◌, refl, ◌∙◌, arith, ok, [], ◌∷◌, Bool, leb, ◌&&◌, ◌||◌, min, max, ◌>>=◌,
  Result,
}
use simple_quic.Utils.Interval.{Interval, IntervalCompResult, merge}
use simple_quic.Utils.Interval.Compare.{
  IsInterval, Lies, Touches, hull, range_comp-Lies, merge-hull, holds_lem,
}
use simple_quic.Utils.Interval.Sets.{
  IntervalSet, contain, maintain, maintain_by, add_by, add_interval,
}

-- Intervals in falling order below `n`, with a gap between any two.
abbrev pub Below : ℕ → IntervalSet → Type 0
Below n [] = Unit {0}
Below n (i ∷ is) = (i.start ≤ i.end) × (i.end + 1 < n) × Below i.start is

-- The order of a set whose intervals lie in uint64_t.
abbrev pub IsOrdered : IntervalSet → Type 0
IsOrdered s = Below (2 ^ 64 + 1) s

abbrev pub within : Interval → ℕ → Bool
within i x = leb i.start x && leb x i.end

pub Below-mono : (m n : ℕ) (s : IntervalSet) → m ≤ n → Below m s → Below n s
Below-mono m n [] h b = tt
Below-mono m n (i ∷ is) h b = (b.0, omega arith, b.2)

pub contain-cons :
    (i : Interval) (s : IntervalSet) (x : ℕ) → contain (i ∷ s) x ≡ within i x || contain s x
unfolding contain
contain-cons i s x = rw (holds_lem i x)

-- The outcome of an operation: an ordered set below `n` that holds the points of `f`.
abbrev pub Gives : ℕ → (ℕ → Bool) → Result IntervalSet → Type 0
Gives n f r = (t : IntervalSet) × (r ≡ ok t) × Below n t × ((x : ℕ) → contain t x ≡ f x)

pub Gives-points :
    (n : ℕ) (f g : ℕ → Bool) (r : Result IntervalSet)
    → ((x : ℕ) → f x ≡ g x)
    → Gives n f r
    → Gives n g r
Gives-points n f g r h (t, e, b, p) = (t, e, b, λ x. p x ∙ h x)

-- Two intervals that touch cover the points of their hull.
pub within-hull :
    (i r : Interval) (x : ℕ)
    → IsInterval i
    → IsInterval r
    → Touches i r
    → within (hull i r) x ≡ within i x || within r x
within-hull i r x vi vr h = ground arith

-- What the loop in Maintain promises of an interval whose end tops the rest.
abbrev Keeps : ℕ → IntervalSet → (Interval → Result IntervalSet) → Type 0
Keeps n rest again =
    (j : Interval)
    → j.start ≤ j.end
    → j.end + 1 < n
    → Below j.end rest
    → Gives n (λ x. within j x || contain rest x) (again j)

module _ (n : ℕ) (small : n ≤ 2 ^ 64 + 1) (i next : Interval) (rest : IntervalSet)
    (again : Interval → Result IntervalSet) (ih : Keeps n rest again) (h : i.start ≤ i.end)
    (k : i.end + 1 < n) (b : Below i.end (next ∷ rest)) where
  joined :
      Touches i next → Gives n (λ x. within i x || contain (next ∷ rest) x) (merge i next >>= again)
  joined h' =
      let valid_i : IsInterval i = omega arith in
      let valid_next : IsInterval next = omega arith in
      rw (merge-hull i next valid_i valid_next h') (
        Gives-points n (λ x. within (hull i next) x || contain rest x) _ _
          (λ x.
            ground (arith, within-hull i next x valid_i valid_next h', contain-cons next rest x))
          (ih (hull i next) (omega arith) (omega arith)
            (Below-mono next.start (max i.end next.end) rest (omega arith) b.2)))

  maintain_by-Gives :
      (c : IntervalCompResult)
      → Lies c next i
      → Gives n (λ x. within i x || contain (next ∷ rest) x) (maintain_by c i next rest again)
  unfolding maintain_by
  maintain_by-Gives IntervalCompResult.right l =
      (i ∷ next ∷ rest, refl, (h, k, (b.0, l, b.2)), λ x. contain-cons i (next ∷ rest) x)
  maintain_by-Gives IntervalCompResult.right_extensible l = joined (omega arith)
  maintain_by-Gives IntervalCompResult.right_intersect l = joined (omega arith)
  maintain_by-Gives IntervalCompResult.outer l =
      Gives-points n (λ x. within i x || contain rest x) _ _
        (λ x. ground (arith, contain-cons next rest x))
        (ih i h k (Below-mono next.start i.end rest (omega arith) b.2))
  maintain_by-Gives _ l = absurd (omega arith)

pub maintain-Gives :
    (n : ℕ) → n ≤ 2 ^ 64 + 1 → (rest : IntervalSet) → Keeps n rest (λ j. maintain j rest)
unfolding maintain
maintain-Gives n small [] i h k b = (i ∷ [], refl, (h, k, tt), λ x. contain-cons i [] x)
maintain-Gives n small (next ∷ rest) i h k b =
    let (c, e, l) = range_comp-Lies next i (omega arith) (omega arith) in
    rw e (
      maintain_by-Gives n small i next rest (λ j. maintain j rest) (maintain-Gives n small rest) h k
        b c l)

module _ (n : ℕ) (small : n ≤ 2 ^ 64 + 1) (r i : Interval) (rest : IntervalSet)
    (on : Result IntervalSet) (hr : r.start ≤ r.end) (kr : r.end + 1 < n)
    (b : Below n (i ∷ rest)) where
  abbrev Goal : Result IntervalSet → Type 0
  Goal res = Gives n (λ x. within r x || contain (i ∷ rest) x) res

  valid_i : IsInterval i
  valid_i = omega arith

  valid_r : IsInterval r
  valid_r = omega arith

  -- `i` grows upwards only, so nothing further down changes.
  grown : Touches i r → i.start ≤ r.start → Goal (merge i r >>= λ j. ok (j ∷ rest))
  grown h' low = rw (merge-hull i r valid_i valid_r h') (
    hull i r ∷ rest,
    refl,
    (omega arith, omega arith, Below-mono i.start (min i.start r.start) rest (omega arith) b.2),
    λ x. ground (
      arith,
      within-hull i r x valid_i valid_r h',
      contain-cons i rest x,
      contain-cons (hull i r) rest x,
    ),
  )

  -- `i` grows downwards too, and Maintain takes in what it reaches.
  swallowed : Touches i r → Goal (merge i r >>= λ j. maintain j rest)
  swallowed h' = rw (merge-hull i r valid_i valid_r h') (
      Gives-points n (λ x. within (hull i r) x || contain rest x) _ _
        (λ x. ground (arith, within-hull i r x valid_i valid_r h', contain-cons i rest x))
        (maintain-Gives n small rest (hull i r) (omega arith) (omega arith)
          (Below-mono i.start (max i.end r.end) rest (omega arith) b.2)))

  add_by-Gives :
      (c : IntervalCompResult)
      → Lies c i r
      → (r.end + 1 < i.start → Gives i.start (λ x. within r x || contain rest x) on)
      → Goal (add_by c r i rest on)
  unfolding add_by
  add_by-Gives IntervalCompResult.left l later =
      let (t, e, bt, p) = later l in
      rw e (
        i ∷ t,
        refl,
        (b.0, b.1, bt),
        λ x. ground (arith, p x, contain-cons i t x, contain-cons i rest x),
      )
  add_by-Gives IntervalCompResult.left_extensible l later = swallowed (omega arith)
  add_by-Gives IntervalCompResult.left_intersect l later = swallowed (omega arith)
  add_by-Gives IntervalCompResult.outer l later = swallowed (omega arith)
  add_by-Gives IntervalCompResult.inner l later =
      (i ∷ rest, refl, b, λ x. ground (arith, contain-cons i rest x))
  add_by-Gives IntervalCompResult.right_intersect l later = grown (omega arith) (omega arith)
  add_by-Gives IntervalCompResult.right_extensible l later = grown (omega arith) (omega arith)
  add_by-Gives IntervalCompResult.right l later =
      (r ∷ i ∷ rest, refl, (hr, kr, (b.0, l, b.2)), λ x. contain-cons r (i ∷ rest) x)

pub add_interval-Gives :
    (n : ℕ) (r : Interval) (s : IntervalSet)
    → n ≤ 2 ^ 64 + 1
    → r.start ≤ r.end
    → r.end + 1 < n
    → Below n s
    → Gives n (λ x. within r x || contain s x) (add_interval r s)
unfolding add_interval
add_interval-Gives n r [] small hr kr b = (r ∷ [], refl, (hr, kr, tt), λ x. contain-cons r [] x)
add_interval-Gives n r (i ∷ rest) small hr kr b =
    let (c, e, l) = range_comp-Lies i r (omega arith) (omega arith) in
    rw e (
      add_by-Gives n small r i rest (add_interval r rest) hr kr b c l
        (λ lower. add_interval-Gives i.start r rest (omega arith) hr lower b.2))

-- AddInterval of an interval of uint64_t to an ordered set returns a set. It is ordered, and it
-- holds the points of the interval and those of the set, and no others.
pub contain-add_interval :
    (r : Interval) (s : IntervalSet)
    → IsInterval r
    → IsOrdered s
    → (t : IntervalSet) × (add_interval r s ≡ ok t)
      × IsOrdered t
      × ((x : ℕ) → contain t x ≡ (leb r.start x && leb x r.end) || contain s x)
contain-add_interval r s v o = add_interval-Gives (2 ^ 64 + 1) r s (omega arith) v.0 (omega arith) o
