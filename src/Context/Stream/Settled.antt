-- ===== src/Context/Stream/Settled.antt =====
-- What stays in the receive buffer of a stream.
use simple_quic.Common.{
  ℕ, zero, suc, ◌≤◌, ◌≡◌, refl, ap, List, [], ◌∷◌, ◌++◌, Bool, true, false, ◌==◌, if◌then◌else◌,
  Option, none, some, length, arith,
}
use simple_quic.Context.Stream.{
  Stream, Chunk, StreamState, Calls, take_at, keep_chunk, handed, get_buffered_stream, drain_turn,
  drain, deliver, receive, receive_all, add_to_buffered, update_exp_offset, whether_tp_uper,
  make_stream_state,
}

-- No buffered chunk starts at the expected offset.
abbrev pub IsSettled : Stream → Type 0
IsSettled s = take_at s.exp_offset s.buffered ≡ none

others_or : List Chunk → Option (Chunk × List Chunk) → List Chunk
others_or ds none = ds
others_or ds (some x) = x.1

length_turn :
    (b : Bool) (d : Chunk) (ds : List Chunk) (r : Option (Chunk × List Chunk)) (c : Chunk)
    (others : List Chunk)
    → ((f : Chunk) (os : List Chunk) → r ≡ some (f, os) → length ds ≡ suc (length os))
    → (if b then some (d, ds) else keep_chunk d r) ≡ some (c, others)
    → length (d ∷ ds) ≡ suc (length others)
unfolding keep_chunk others_or
length_turn true d ds r c others rest q = ap (λ x. suc (length (others_or ds x))) q
length_turn false d ds none c others rest q = absurd (ground (arith, q))
length_turn false d ds (some (f, os)) c others rest q =
    let same : length (d ∷ os) ≡ length others = ap (λ x. length (others_or ds x)) q in
    omega (arith, rest f os refl)

take_at-length :
    (e : ℕ) (cs : List Chunk) (c : Chunk) (others : List Chunk)
    → take_at e cs ≡ some (c, others)
    → length cs ≡ suc (length others)
unfolding take_at
take_at-length e [] c others q = absurd (ground (arith, q))
take_at-length e (d ∷ ds) c others q =
    length_turn (e == d.offset) d ds (take_at e ds) c others (λ f os r. take_at-length e ds f os r)
      q

turn-IsSettled :
    (s : Stream) (again : Stream → Calls × Stream) (turns : ℕ)
    → length s.buffered ≤ suc turns
    → ((t : Stream) → length t.buffered ≤ turns → IsSettled (again t).1)
    → (r : Option (Chunk × List Chunk)) → take_at s.exp_offset s.buffered ≡ r
    → IsSettled (drain_turn (handed s r) s again).1
unfolding drain_turn handed
turn-IsSettled s again turns h ih none q = q
turn-IsSettled s again turns h ih (some (c, others)) q =
    let size = take_at-length s.exp_offset s.buffered c others q in ih _ (omega arith)

none_at : (e : ℕ) (cs : List Chunk) → length cs ≤ 0 → take_at e cs ≡ none
unfolding take_at
none_at e [] h = refl
none_at e (c ∷ cs) h = absurd (omega arith)

-- As many turns as chunks are buffered are enough for the loop to end by itself.
drain-IsSettled : (turns : ℕ) (s : Stream) → length s.buffered ≤ turns → IsSettled (drain turns s).1
unfolding drain get_buffered_stream
drain-IsSettled zero s h = none_at s.exp_offset s.buffered h
drain-IsSettled (suc turns) s h =
    turn-IsSettled s (λ t. drain turns t) turns h (drain-IsSettled turns)
      (take_at s.exp_offset s.buffered) refl

snoc_turn :
    (b : Bool) (d : Chunk) (ds es : List Chunk) (r q : Option (Chunk × List Chunk))
    → (if b then some (d, ds) else keep_chunk d r) ≡ none
    → (r ≡ none → q ≡ none)
    → (if b then some (d, es) else keep_chunk d q) ≡ none
unfolding keep_chunk
snoc_turn true d ds es r q e h = absurd (ground (arith, e))
snoc_turn false d ds es none q e h = rw (h refl) refl
snoc_turn false d ds es (some x) q e h = absurd (ground (arith, e))

take_at-snoc :
    (e : ℕ) (cs : List Chunk) (c : Chunk)
    → take_at e cs ≡ none
    → (e == c.offset) ≡ false
    → take_at e (cs ++ (c ∷ [])) ≡ none
unfolding take_at keep_chunk
take_at-snoc e [] c q b = rw b refl
take_at-snoc e (d ∷ ds) c q b =
    snoc_turn (e == d.offset) d ds (ds ++ (c ∷ [])) (take_at e ds) (take_at e (ds ++ (c ∷ []))) q
      (λ r. take_at-snoc e ds c r b)

receive_on :
    (c : Chunk) (s : Stream)
    → IsSettled s
    → (b : Bool) → (s.exp_offset == c.offset) ≡ b
    → IsSettled (if b then deliver c s else ([], add_to_buffered c s)).1
unfolding deliver add_to_buffered update_exp_offset
receive_on c s h true e =
    drain-IsSettled (length s.buffered) (update_exp_offset (length c.bytes) s) (omega arith)
receive_on c s h false e = take_at-snoc s.exp_offset s.buffered c h e

receive-IsSettled : (c : Chunk) (s : Stream) → IsSettled s → IsSettled (receive c s).1
unfolding receive whether_tp_uper
receive-IsSettled c s h = receive_on c s h (s.exp_offset == c.offset) refl

receive_all_from : (cs : List Chunk) (s : Stream) → IsSettled s → IsSettled (receive_all cs s).1
unfolding receive_all
receive_all_from [] s h = h
receive_all_from (c ∷ cs) s h = receive_all_from cs (receive c s).1 (receive-IsSettled c s h)

-- After any frames, a stream that was new holds no buffered chunk that starts at the offset it
-- expects next: the loop of the receiver stops only when nothing more can be handed over.
pub receive_all-IsSettled :
    (id : ℕ) (cs : List Chunk)
    → IsSettled (receive_all cs (make_stream_state id StreamState.running)).1
unfolding make_stream_state take_at
receive_all-IsSettled id cs = receive_all_from cs (make_stream_state id StreamState.running) refl
