-- ===== src/Payload/Frame/Acks.antt =====
-- The acknowledged ranges of an ACK frame through Encode and Parse.
use simple_quic.Common.{
  ℕ, suc, ◌+◌, ◌-◌, ◌^◌, ◌≤◌, ◌<◌, ◌≡◌, refl, ◌∙◌, subst, [], ◌∷◌, ◌++◌, append-nil, append_assoc,
  arith, length, ok, Result, ==-refl,
}
use simple_quic.Utils.ByteStream.Laws.{Reads, Reads-bind, Reads-then, Reads-pure}
use simple_quic.Utils.Codec.VarInt.{var_bytes, IsVarInt, decode_var_int-Reads}
use simple_quic.Utils.Interval.{Interval, IntervalCompResult}
use simple_quic.Utils.Interval.Compare.{IsInterval, Lies, range_comp-Lies}
use simple_quic.Utils.Interval.Sets.{IntervalSet, add_interval, add_by}
use simple_quic.Utils.Interval.Add.{Below, IsOrdered}
use simple_quic.Payload.Frame.Encode.{sub64}
use simple_quic.Payload.Frame.Wire.{range_bytes, ack_bytes, FitsRanges, FitsAck}
use simple_quic.Payload.Frame.Parse.{lift, parse_ranges, parse_ack_fields, expect_id}

-- An interval lies below every interval of a set, with a gap.
abbrev IsUnder : Interval → IntervalSet → Type 0
IsUnder r [] = Unit {0}
IsUnder r (i ∷ is) = IsInterval i × (r.end + 1 < i.start) × IsUnder r is

-- Such an interval is added at the end.
add_interval_last :
    (r : Interval) (s : IntervalSet)
    → IsInterval r
    → IsUnder r s
    → add_interval r s ≡ ok (s ++ (r ∷ []))
unfolding add_interval
add_interval_last r [] v u = refl
add_interval_last r (i ∷ rest) v u =
    let (c, e, l) = range_comp-Lies i r u.0 v in
    rw (e, add_interval_last r rest v u.2) (leftmost c l)
  where
    leftmost :
        (c : IntervalCompResult)
        → Lies c i r
        → add_by c r i rest (ok (rest ++ (r ∷ []))) ≡ ok (i ∷ (rest ++ (r ∷ [])))
    leftmost IntervalCompResult.left l = unfold add_by in refl
    leftmost _ l = absurd (omega arith)

sub64_lem : (a b : ℕ) → b ≤ a → a < 2 ^ 64 → sub64 a b ≡ a - b
sub64_lem a b h k = omega arith

lift-Reads : {A : Type 0} (r : Result A) (a : A) → r ≡ ok a → Reads (lift r) [] a
unfolding lift
lift-Reads r a e s rest q = rw e (Reads-pure a s rest q)

-- Every interval of a set starts at `p` or above.
abbrev IsAbove : ℕ → IntervalSet → Type 0
IsAbove p [] = Unit {0}
IsAbove p (i ∷ is) = IsInterval i × (p ≤ i.start) × IsAbove p is

IsAbove-IsUnder :
    (p : ℕ) (r : Interval) (s : IntervalSet) → r.end + 1 < p → IsAbove p s → IsUnder r s
IsAbove-IsUnder p r [] h a = tt
IsAbove-IsUnder p r (i ∷ is) h a = (a.0, omega arith, IsAbove-IsUnder p r is h a.2)

IsAbove-snoc :
    (p : ℕ) (r : Interval) (s : IntervalSet)
    → r.end + 1 < p
    → IsInterval r
    → IsAbove p s
    → IsAbove r.start (s ++ (r ∷ []))
IsAbove-snoc p r [] h v a = (v, omega arith, tt)
IsAbove-snoc p r (i ∷ is) h v a = (a.0, omega arith, IsAbove-snoc p r is h v a.2)

-- The parser's subtractions undo those of the encoder.
gap_back :
    (p : ℕ) (i : Interval)
    → p < 2 ^ 64
    → i.end + 1 < p
    → sub64 (sub64 p (sub64 (sub64 p i.end) 2)) 2 ≡ i.end
gap_back p i h k =
    rw (sub64_lem p i.end (omega arith) h, sub64_lem (p - i.end) 2 (omega arith) (omega arith))
      (rw (sub64_lem p (p - i.end - 2) (omega arith) h)
        (sub64_lem (p - (p - i.end - 2)) 2 (omega arith) (omega arith) ∙ omega arith))

range_back : (i : Interval) → IsInterval i → sub64 i.end (sub64 i.end i.start) ≡ i.start
range_back i v =
    rw (sub64_lem i.end i.start v.0 v.1)
      (sub64_lem i.end (i.end - i.start) (omega arith) v.1 ∙ omega arith)

parse_ranges-Reads :
    (prev : Interval) (is acc : IntervalSet)
    → prev.start < 2 ^ 64
    → Below prev.start is
    → FitsRanges prev is
    → IsAbove prev.start acc
    → Reads (parse_ranges (length is) prev.start acc) (range_bytes prev is) (acc ++ is)
unfolding parse_ranges range_bytes
parse_ranges-Reads prev [] acc p b h a = rw append-nil (Reads-pure acc)
parse_ranges-Reads prev (i ∷ is) acc p b h a =
    let v : IsInterval i = omega arith in
    Reads-bind _ _ _ _ _ _ (decode_var_int-Reads _ h.0) (
      Reads-bind _ _ _ _ _ _ (decode_var_int-Reads _ h.1) (
        rw (gap_back prev.start i p b.1, range_back i v)
          (Reads-bind (lift (add_interval i acc)) _ [] _ (acc ++ (i ∷ [])) _
            (lift-Reads _ _ (add_interval_last i acc v (IsAbove-IsUnder prev.start i acc b.1 a)))
            (subst (Reads (parse_ranges (length is) i.start (acc ++ (i ∷ []))) (range_bytes i is))
              (append_assoc acc (i ∷ []) is)
              (parse_ranges-Reads i is (acc ++ (i ∷ [])) (omega arith) b.2 h.2
                (IsAbove-snoc prev.start i acc b.1 v a))))))

pub expect_id-Reads : (n : ℕ) → IsVarInt n → Reads (expect_id n) (var_bytes n) tt
expect_id-Reads n h = Reads-then _ _ _ _ _ (decode_var_int-Reads n h) (λ t. rw (==-refl n))

pub parse_ack_fields-Reads :
    (delay : ℕ) (i : Interval) (is : IntervalSet)
    → IsOrdered (i ∷ is)
    → FitsAck delay (i ∷ is)
    → Reads parse_ack_fields (var_bytes 0x02 ++ ack_bytes delay (i ∷ is)) (delay, i ∷ is)
unfolding parse_ack_fields ack_bytes
parse_ack_fields-Reads delay i is o h =
    let v : IsInterval i = omega arith in
    Reads-bind _ _ _ _ _ _ (expect_id-Reads 0x02 (omega arith)) (
      Reads-bind _ _ _ _ _ _ (decode_var_int-Reads _ h.0) (
        Reads-bind _ _ _ _ _ _ (decode_var_int-Reads _ h.1) (
          Reads-bind _ _ _ _ _ _ (decode_var_int-Reads _ h.2) (
            Reads-bind _ _ _ _ _ _ (decode_var_int-Reads _ h.3) (
              rw (range_back i v) (
                Reads-bind (lift (add_interval i [])) _ [] _ (i ∷ []) _
                  (lift-Reads _ _ (add_interval_last i [] v tt))
                  (Reads-then (parse_ranges (length (i ∷ is) - 1) i.start (i ∷ [])) _ _ (i ∷ is) _
                    (rw (count (length is))
                      (parse_ranges-Reads i is (i ∷ []) (omega arith) o.2 h.4 (v, omega arith, tt)))
                    (λ t. refl))))))))
  where
    count : (n : ℕ) → suc n - 1 ≡ n
    count n = omega arith
