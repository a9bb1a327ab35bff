-- ===== src/Context/Streams/Numbers.antt =====
-- The numbers of streams.
use simple_quic.Common.{
  ℕ, zero, suc, ◌+◌, ◌*◌, ◌/◌, ◌%◌, ◌^◌, ◌<◌, ◌≤◌, ◌≡◌, refl, sym, ap, subst, ◌∙◌, List, Bool, true,
  false, ◌||◌, ◌==◌, if◌then◌else◌, lookup, insert, lookup-insert_ne, lookup-insert_self, some,
  Result, ok, err, Error, arith, ==→eq, ◌⊎◌, inl, inr, Bool-cases,
}
use simple_quic.Context.Stream.{StreamState}
use simple_quic.Context.Streams.{
  PeerType, Streams, is_used, kind_of, taken, generate_from, generate_stream_id, is_stream_id_used,
  limited,
}

-- What becomes of the call: a number is taken, or all are.
abbrev pub Generates : ℕ → ℕ → ℕ → Streams → Result (ℕ × Streams) → Type 0
Generates from limit kind t r =
    ((i : ℕ) × (r ≡ ok (taken kind i t)) × (i < limit) × (is_used t.used kind i ≡ false))
    ⊎ ((r ≡ err Error.runtime_error)
        × ((i : ℕ) → from ≤ i → i < limit → is_used t.used kind i ≡ true))

generate_one :
    (b : Bool) (i limit kind : ℕ) (t : Streams) (rest : Result (ℕ × Streams))
    → is_used t.used kind i ≡ b
    → i < limit
    → Generates (suc i) limit kind t rest
    → Generates i limit kind t (if b then rest else ok (taken kind i t))
generate_one false i limit kind t rest e h g = inl (i, refl, h, e)
generate_one true i limit kind t rest e h (inl g) = inl g
generate_one true i limit kind t rest e h (inr (fails, full)) = inr (
  fails,
  λ j from below. elim (Bool-cases (i == j)) [
    | inl same ↦ subst (λ k. is_used t.used kind k ≡ true) (==→eq i j same) e
    | inr other ↦ full j (ground (arith, other)) below
  ],
)

generate_from-Generates :
    (count i kind limit : ℕ) (t : Streams)
    → i + count ≡ limit
    → Generates i limit kind t (generate_from count i kind t)
unfolding generate_from
generate_from-Generates zero i kind limit t e =
    inr (refl, λ j from below. absurd (omega (arith, e, from, below)))
generate_from-Generates (suc count) i kind limit t e =
    generate_one (is_used t.used kind i) i limit kind t (generate_from count (suc i) kind t) refl
      (omega (arith, e)) (generate_from-Generates count (suc i) kind limit t (omega (arith, e)))

kind_of_below : (type : PeerType) (bidirectional : Bool) → kind_of type bidirectional < 4
kind_of_below PeerType.client true = omega arith
kind_of_below PeerType.server true = omega arith
kind_of_below PeerType.client false = omega arith
kind_of_below PeerType.server false = omega arith

is_used_halves :
    (us : List (ℕ × ℕ)) (kind i : ℕ) (b : Bool)
    → kind < 4
    → is_used us kind i ≡ b
    → is_used us ((i * 4 + kind) % 4) ((i * 4 + kind) / 4) ≡ b
is_used_halves us kind i b h e =
    let low : (i * 4 + kind) % 4 ≡ kind = omega arith in
    let high : (i * 4 + kind) / 4 ≡ i = omega arith in rw (low, high) e

-- What GenerateStreamID returns, where it returns: `id`, with the streams as `t'`.
pub record IsGenerated (kind id : ℕ) (t t' : Streams) : Type 0 where
  pub of_kind : id % 4 ≡ kind
  pub allowed : id / 4 < t.max_send_stream_num
  pub fresh : is_stream_id_used id t ≡ false
  pub used : (j : ℕ) → is_stream_id_used j t' ≡ (j == id) || is_stream_id_used j t
  pub running : lookup (id / 4) t'.states ≡ some StreamState.running
  pub in_table :
      (j : ℕ)
      → lookup j t'.streams
        ≡ (if j == id / 4 then some (limited (id / 4) t) else lookup j t.streams)

-- All numbers of the kind whose upper bits are below `n` are in use.
abbrev pub AllUsed : ℕ → ℕ → Streams → Type 0
AllUsed zero kind t = Unit {0}
AllUsed (suc n) kind t = (is_stream_id_used (n * 4 + kind) t ≡ true) × AllUsed n kind t

pub taken-IsGenerated :
    (i kind : ℕ) (t : Streams)
    → kind < 4
    → i < t.max_send_stream_num
    → t.max_send_stream_num < 2 ^ 62
    → is_used t.used kind i ≡ false
    → IsGenerated kind (i * 4 + kind) t (taken kind i t).1
unfolding taken is_stream_id_used
taken-IsGenerated i kind t hk hi small e =
    let low : (i * 4 + kind) % 4 ≡ kind = omega arith in
    let high : (i * 4 + kind) / 4 ≡ i = omega arith in
    record {
      of_kind = low;
      allowed = omega arith;
      fresh = rw (low, high) e;
      used = λ j. ground (arith, low, high);
      running = rw high (lookup-insert_self i StreamState.running t.states);
      in_table = λ j. rw high (elim (Bool-cases (j == i)) [
        | inl same ↦ rw same (
            subst (λ k. lookup k (insert i (limited i t) t.streams) ≡ some (limited i t))
              (sym (==→eq j i same)) (lookup-insert_self i (limited i t) t.streams))
        | inr other ↦
            rw other
              (lookup-insert_ne j i (limited i t) t.streams (λ same. ground (arith, other, same)))
      ]);
    }

all_used :
    (n kind : ℕ) (t : Streams)
    → kind < 4
    → ((i : ℕ) → i < n → is_used t.used kind i ≡ true)
    → AllUsed n kind t
unfolding is_stream_id_used
all_used zero kind t h full = tt
all_used (suc n) kind t h full = (
  is_used_halves t.used kind n true h (full n (omega arith)),
  all_used n kind t h (λ i below. full i (omega (arith, below))),
)

-- GenerateStreamID, where fewer than 2^62 streams are allowed: it returns a number below the limit
-- whose two lowest bits are those of the peer and the direction. The number was not in use, and is
-- then; the use of every other number is as before, and so is every other entry of the table. Or it
-- throws, and then all such numbers below the limit are in use.
pub generate_stream_id-IsGenerated :
    (type : PeerType) (bidirectional : Bool) (t : Streams)
    → t.max_send_stream_num < 2 ^ 62
    → ((id : ℕ) × (t' : Streams) × (generate_stream_id type bidirectional t ≡ ok (id, t'))
        × IsGenerated (kind_of type bidirectional) id t t')
      ⊎ ((generate_stream_id type bidirectional t ≡ err Error.runtime_error)
          × AllUsed t.max_send_stream_num (kind_of type bidirectional) t)
unfolding generate_stream_id
generate_stream_id-IsGenerated type bidirectional t small =
    let kind = kind_of type bidirectional in
    let below = kind_of_below type bidirectional in
    elim (generate_from-Generates t.max_send_stream_num 0 kind t.max_send_stream_num t
      (omega arith)) [
        | inl (i, run, hi, e) ↦ inl (
          i * 4 + kind,
          (taken kind i t).1,
          run ∙ ap (λ n. ok (n, (taken kind i t).1)) (omega arith),
          taken-IsGenerated i kind t below hi small e,
        )
        | inr (fails, full) ↦
            inr (fails, all_used t.max_send_stream_num kind t below (λ i h. full i (omega arith) h))
      ]
