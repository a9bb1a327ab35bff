-- ===== src/Context/Stream/Delivery.antt =====
-- The bytes that the application gets of a stream, against the bytes that were sent.
use simple_quic.Common.{
  ℕ, zero, suc, ◌+◌, ◌%◌, ◌^◌, ◌≤◌, ◌<◌, ◌≡◌, refl, sym, ap, subst, ◌∙◌, List, [], ◌∷◌, ◌++◌,
  append_assoc, append-nil, Bool, true, false, ◌==◌, ==→eq, if◌then◌else◌, Option, none, some,
  length, take, drop, suc-add, arith,
}
use simple_quic.Context.Stream.{
  Stream, Chunk, StreamState, Calls, take_at, keep_chunk, handed, get_buffered_stream, drain_turn,
  drain, deliver, receive, receive_all, add_to_buffered, update_exp_offset, whether_tp_uper,
  make_stream_state,
}

-- The bytes of a list of calls, one after the other.
abbrev pub joined : Calls → List ℕ
joined [] = []
joined (c ∷ cs) = c.0 ++ joined cs

joined-append : (xs ys : Calls) → joined (xs ++ ys) ≡ joined xs ++ joined ys
joined-append [] ys = refl
joined-append (x ∷ xs) ys =
    ap (λ bs. x.0 ++ bs) (joined-append xs ys) ∙ sym (append_assoc x.0 (joined xs) (joined ys))

take_nil : (n : ℕ) → take {A = ℕ} n [] ≡ []
take_nil zero = refl
take_nil (suc n) = refl

take_add : (a n : ℕ) (xs : List ℕ) → take a xs ++ take n (drop a xs) ≡ take (a + n) xs
take_add zero n xs = ap (λ k. take k xs) (omega arith)
take_add (suc a) n [] = take_nil n ∙ sym (take_nil (suc a + n))
take_add (suc a) n (x ∷ xs) =
    ap (λ ys. x ∷ ys) (take_add a n xs) ∙ ap (λ k. take k (x ∷ xs)) (suc-add a n)

found_or : Chunk × List Chunk → Option (Chunk × List Chunk) → Chunk × List Chunk
found_or d none = d
found_or d (some x) = x

-- The chunk holds bytes of the stream at its offset.
abbrev pub IsPart : List ℕ → Chunk → Type 0
IsPart data_sent c =
    (c.offset + length c.bytes ≤ length data_sent)
    × (c.bytes ≡ take (length c.bytes) (drop c.offset data_sent))

abbrev pub AllParts : List ℕ → List Chunk → Type 0
AllParts data_sent [] = Unit {0}
AllParts data_sent (c ∷ cs) = IsPart data_sent c × AllParts data_sent cs

-- A stream that has gone on over a buffered chunk.
abbrev after : Stream → Chunk → List Chunk → Stream
after s c others = record s {
  exp_offset = (s.exp_offset + length c.bytes) % 2 ^ 64;
  buffered = others;
}

module _ (data_sent : List ℕ) (short : length data_sent < 2 ^ 64) where
  AllParts-snoc :
      (cs : List Chunk) (c : Chunk)
      → AllParts data_sent cs
      → IsPart data_sent c
      → AllParts data_sent (cs ++ (c ∷ []))
  AllParts-snoc [] c a p = (p, tt)
  AllParts-snoc (d ∷ ds) c (q, a) p = (q, AllParts-snoc ds c a p)

  abbrev Taken : ℕ → List Chunk → Chunk → List Chunk → Type 0
  Taken e cs c others =
      IsPart data_sent c
      × (c.offset ≡ e)
      × AllParts data_sent others
      × (length cs ≡ suc (length others))

  found_turn :
      (e : ℕ) (d : Chunk) (ds : List Chunk) (p : IsPart data_sent d) (a : AllParts data_sent ds)
      (b : Bool) (r : Option (Chunk × List Chunk)) (c : Chunk) (others : List Chunk)
      → (b ≡ true → d.offset ≡ e)
      → ((f : Chunk) (os : List Chunk) → r ≡ some (f, os) → Taken e ds f os)
      → (if b then some (d, ds) else keep_chunk d r) ≡ some (c, others)
      → Taken e (d ∷ ds) c others
  unfolding keep_chunk found_or
  found_turn e d ds p a true r c others at rest q =
      subst (λ x. Taken e (d ∷ ds) x.0 x.1) (ap (found_or (d, ds)) q) (p, at refl, a, refl)
  found_turn e d ds p a false none c others at rest q = absurd (ground (arith, q))
  found_turn e d ds p a false (some (f, os)) c others at rest q =
      let (pf, o, af, size) = rest f os refl in
      subst (λ x. Taken e (d ∷ ds) x.0 x.1) (ap (found_or (d, ds)) q) (pf, o, (p, af), omega arith)

  take_at-Taken :
      (e : ℕ) (cs : List Chunk) (c : Chunk) (others : List Chunk)
      → AllParts data_sent cs
      → take_at e cs ≡ some (c, others)
      → Taken e cs c others
  unfolding take_at
  take_at-Taken e [] c others a q = absurd (ground (arith, q))
  take_at-Taken e (d ∷ ds) c others (p, a) q =
      found_turn e d ds p a (e == d.offset) (take_at e ds) c others (λ b. sym (==→eq e d.offset b))
        (λ f os r. take_at-Taken e ds f os a r) q

  -- What was delivered is what stands before the expected offset, and the rest is buffered.
  abbrev pub IsSound : Stream → Type 0
  IsSound s = AllParts data_sent s.buffered × (s.exp_offset ≤ length data_sent)

  abbrev Delivers : Stream → Calls × Stream → Type 0
  Delivers s r =
      IsSound r.1 × (take s.exp_offset data_sent ++ joined r.0 ≡ take r.1.exp_offset data_sent)

  -- A part at the expected offset moves it on by its bytes.
  moved :
      (s : Stream) (c : Chunk)
      → IsPart data_sent c
      → c.offset ≡ s.exp_offset
      → ((s.exp_offset + length c.bytes) % 2 ^ 64 ≡ s.exp_offset + length c.bytes)
        × (s.exp_offset + length c.bytes ≤ length data_sent)
        × (take s.exp_offset data_sent ++ c.bytes ≡ take (s.exp_offset + length c.bytes) data_sent)
  moved s c (fits, same) at = (
    omega arith,
    omega arith,
    ap (λ bs. take s.exp_offset data_sent ++ bs)
          (same ∙ ap (λ k. take (length c.bytes) (drop k data_sent)) at)
        ∙ take_add s.exp_offset (length c.bytes) data_sent,
  )

  -- The first call, and those that follow it.
  Delivers-cons :
      (s t : Stream) (c : Chunk) (r : Calls × Stream)
      → IsPart data_sent c
      → c.offset ≡ s.exp_offset
      → t.exp_offset ≡ (s.exp_offset + length c.bytes) % 2 ^ 64
      → Delivers t r
      → Delivers s ((c.bytes, c.fin) ∷ r.0, r.1)
  Delivers-cons s t c r p at e (sound, rest) =
      let (small, fits, front) = moved s c p at in
      (
        sound,
        sym (append_assoc (take s.exp_offset data_sent) c.bytes (joined r.0))
            ∙ ap (λ bs. bs ++ joined r.0) (front ∙ ap (λ k. take k data_sent) (sym (e ∙ small)))
            ∙ rest,
      )

  Delivers-nil : (s : Stream) → IsSound s → Delivers s ([], s)
  Delivers-nil s h = (h, append-nil (take s.exp_offset data_sent))

  -- One turn of the loop: the buffered chunk that is found moves the stream on.
  after-IsSound :
      (s : Stream) (c : Chunk) (others : List Chunk)
      → IsSound s
      → Taken s.exp_offset s.buffered c others
      → IsSound (after s c others)
  after-IsSound s c others (a, h) (p, at, ao, size) =
      let (small, fits, front) = moved s c p at in (ao, omega (arith, small))

  turn-Delivers :
      (s : Stream) (again : Stream → Calls × Stream)
      → IsSound s
      → ((t : Stream) → IsSound t → Delivers t (again t))
      → (r : Option (Chunk × List Chunk))
      → ((c : Chunk) (others : List Chunk)
          → r ≡ some (c, others)
          → Taken s.exp_offset s.buffered c others)
      → Delivers s (drain_turn (handed s r) s again)
  unfolding drain_turn handed
  turn-Delivers s again h ih none found = Delivers-nil s h
  turn-Delivers s again h ih (some (c, others)) found =
      let (p, at, ao, size) = found c others refl in
      Delivers-cons s (after s c others) c (again (after s c others)) p at refl
        (ih (after s c others) (after-IsSound s c others h (p, at, ao, size)))

  drain-Delivers : (turns : ℕ) (s : Stream) → IsSound s → Delivers s (drain turns s)
  unfolding drain get_buffered_stream
  drain-Delivers zero s h = Delivers-nil s h
  drain-Delivers (suc turns) s h =
      turn-Delivers s (λ t. drain turns t) h (drain-Delivers turns)
        (take_at s.exp_offset s.buffered)
        (λ c others q. take_at-Taken s.exp_offset s.buffered c others h.0 q)

  receive_on :
      (c : Chunk) (s : Stream)
      → IsPart data_sent c
      → IsSound s
      → (b : Bool) → (b ≡ true → c.offset ≡ s.exp_offset)
      → Delivers s (if b then deliver c s else ([], add_to_buffered c s))
  unfolding deliver add_to_buffered update_exp_offset
  receive_on c s p h true at =
      let (small, fits, front) = moved s c p (at refl) in
      Delivers-cons s (update_exp_offset (length c.bytes) s) c
        (drain (length s.buffered) (update_exp_offset (length c.bytes) s)) p (at refl) refl
        (drain-Delivers (length s.buffered) (update_exp_offset (length c.bytes) s)
          (h.0, omega (arith, small)))
  receive_on c s p h false at =
      ((AllParts-snoc s.buffered c h.0 p, h.1), append-nil (take s.exp_offset data_sent))

  receive-Delivers :
      (c : Chunk) (s : Stream) → IsPart data_sent c → IsSound s → Delivers s (receive c s)
  unfolding receive whether_tp_uper
  receive-Delivers c s p h =
      receive_on c s p h (s.exp_offset == c.offset) (λ b. sym (==→eq s.exp_offset c.offset b))

  receive_all-Delivers :
      (cs : List Chunk) (s : Stream)
      → AllParts data_sent cs
      → IsSound s
      → Delivers s (receive_all cs s)
  unfolding receive_all
  receive_all-Delivers [] s a h = Delivers-nil s h
  receive_all-Delivers (c ∷ cs) s (p, a) h =
      let (sound, front) = receive-Delivers c s p h in
      let (sound', rest) = receive_all-Delivers cs (receive c s).1 a sound in
      (
        sound',
        ap (λ bs. take s.exp_offset data_sent ++ bs)
              (joined-append (receive c s).0 (receive_all cs (receive c s).1).0)
            ∙ sym (
                append_assoc (take s.exp_offset data_sent) (joined (receive c s).0)
                  (joined (receive_all cs (receive c s).1).0))
            ∙ ap (λ bs. bs ++ joined (receive_all cs (receive c s).1).0) front
            ∙ rest,
      )

-- Frames that carry parts of the same data, in any order, overlapping or repeated: a new stream
-- hands over a prefix of the data, up to the offset that it expects next.
pub receive_all-in_order :
    (data_sent : List ℕ) (id : ℕ) (cs : List Chunk)
    → length data_sent < 2 ^ 64
    → AllParts data_sent cs
    → joined (receive_all cs (make_stream_state id StreamState.running)).0
      ≡ take (receive_all cs (make_stream_state id StreamState.running)).1.exp_offset data_sent
unfolding make_stream_state
receive_all-in_order data_sent id cs short a =
    let (sound, e) =
      receive_all-Delivers data_sent short cs (make_stream_state id StreamState.running) a
        (tt, omega arith) in
    e
