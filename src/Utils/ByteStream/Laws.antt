-- ===== src/Utils/ByteStream/Laws.antt =====
-- Reading and writing a stream, in terms of `remaining`, `advance` and `put`.
use simple_quic.Common.{
  ℕ, ◌+◌, ◌-◌, ◌≤◌, ◌≡◌, refl, sym, ap, ◌∙◌, List, [], ◌++◌, append-nil, append_assoc, arith,
  le→leb, Bool, true, take-append-drop,
}
use simple_quic.Common.{length, length-append, take, drop, take-append, drop-append, drop-drop}
use simple_quic.Common.{length-take, length-drop, ok}
use simple_quic.Utils.ByteStream.{
  ByteStream, Io, ◌>>=◌, ◌>>◌, IsValid, remaining, advance, put, seek, get_free, check_free,
  read_bytes, peek_bytes, write_bytes, pure, assert,
}

ByteStream-path :
    {b c : List ℕ} {p q : ℕ}
    → b ≡ c
    → p ≡ q
    → ◌≡◌ {A = ByteStream} (record { buffer = b; pos = p }) (record { buffer = c; pos = q })
ByteStream-path e f i = record { buffer = e i; pos = f i }

pub get_free-remaining : (s : ByteStream) → get_free s ≡ length (remaining s)
unfolding get_free
get_free-remaining s = sym (length-drop s.pos s.buffer)

pub check_free_ok : (n : ℕ) (s : ByteStream) → n ≤ get_free s → check_free n s ≡ ok (tt, s)
unfolding check_free
check_free_ok n s h = rw (le→leb n (get_free s) h)

module _ (s : ByteStream) (bs rest : List ℕ) (e : remaining s ≡ bs ++ rest) where
  room : (n : ℕ) → n ≡ length bs → n ≤ get_free s
  room n h = omega (arith, get_free-remaining s, ap length e, length-append bs rest)

  span : (n : ℕ) → n ≡ length bs → take (s.pos + n - s.pos) (drop s.pos s.buffer) ≡ bs
  span n h = rw e (take-append bs rest (s.pos + n - s.pos) (omega arith))

  pub read_bytes_lem : (n : ℕ) → n ≡ length bs → read_bytes n s ≡ ok (bs, advance n s)
  unfolding read_bytes advance
  read_bytes_lem n h = rw (check_free_ok n s (room n h), ◌>>=◌) (rw (span n h))

  pub peek_bytes_lem : (n : ℕ) → n ≡ length bs → peek_bytes n s ≡ ok (bs, s)
  unfolding peek_bytes
  peek_bytes_lem n h = rw (check_free_ok n s (room n h), ◌>>=◌) (rw (span n h))

  pub remaining-advance : (n : ℕ) → n ≡ length bs → remaining (advance n s) ≡ rest
  unfolding advance
  remaining-advance n h = sym (drop-drop s.pos n s.buffer) ∙ rw e (drop-append bs rest n h)

pub advance-advance : (m n : ℕ) (s : ByteStream) → advance n (advance m s) ≡ advance (m + n) s
unfolding advance
advance-advance m n s = ground arith

pub write_bytes_lem :
    (bs : List ℕ) (s : ByteStream) → length bs ≤ get_free s → write_bytes bs s ≡ ok (tt, put bs s)
unfolding write_bytes put
write_bytes_lem bs s h = rw (check_free_ok (length bs) s h, ◌>>=◌)

module _ (s : ByteStream) (v : IsValid s) (a : List ℕ) (h : length a ≤ get_free s) where
  length-front : length (take s.pos s.buffer) ≡ s.pos
  length-front = omega (arith, length-take s.pos s.buffer)

  -- The buffer keeps its length.
  pub length-put : length (put a s).buffer ≡ length s.buffer
  unfolding put get_free
  length-put = omega (
    arith,
    length-append (take s.pos s.buffer) (a ++ drop (s.pos + length a) s.buffer),
    length-append a (drop (s.pos + length a) s.buffer),
    length-drop (s.pos + length a) s.buffer,
    length-front,
  )

  pub put-IsValid : IsValid (put a s)
  unfolding put get_free
  put-IsValid = omega (arith, length-put)

  pub get_free-put : get_free (put a s) ≡ get_free s - length a
  unfolding get_free put
  get_free-put = omega (arith, length-put)

  -- Back at its old position the stream reads what was written.
  pub remaining-seek-put : remaining (seek s.pos (put a s)) ≡ a ++ drop (s.pos + length a) s.buffer
  unfolding put
  remaining-seek-put = drop-append (take s.pos s.buffer) _ s.pos (sym length-front)

  before-put : take (put a s).pos (put a s).buffer ≡ take s.pos s.buffer ++ a
  unfolding put
  before-put = rw (sym (append_assoc (take s.pos s.buffer) a (drop (s.pos + length a) s.buffer))) (
      take-append (take s.pos s.buffer ++ a) _ (s.pos + length a)
        (omega (arith, length-front, length-append (take s.pos s.buffer) a)))

  after-put : remaining (put a s) ≡ drop (s.pos + length a) s.buffer
  unfolding put
  after-put = rw (sym (append_assoc (take s.pos s.buffer) a (drop (s.pos + length a) s.buffer))) (
      drop-append (take s.pos s.buffer ++ a) _ (s.pos + length a)
        (omega (arith, length-front, length-append (take s.pos s.buffer) a)))

  past-put :
      (n : ℕ) → drop ((put a s).pos + n) (put a s).buffer ≡ drop (s.pos + length a + n) s.buffer
  past-put n =
      sym (drop-drop (put a s).pos n (put a s).buffer)
      ∙ ap (drop n) after-put
      ∙ drop-drop (s.pos + length a) n s.buffer

  put-put_buffer :
      (b : List ℕ)
      → take (put a s).pos (put a s).buffer
          ++ (b ++ drop ((put a s).pos + length b) (put a s).buffer)
        ≡ take s.pos s.buffer ++ ((a ++ b) ++ drop (s.pos + length (a ++ b)) s.buffer)
  put-put_buffer b =
      let e : s.pos + length (a ++ b) ≡ s.pos + length a + length b =
        omega (arith, length-append a b) in
      rw (before-put, past-put (length b), e) (simp append_assoc)

  pub put-put : (b : List ℕ) → put b (put a s) ≡ put (a ++ b) s
  unfolding put
  put-put b = ByteStream-path (put-put_buffer b) (omega (arith, length-append a b))

-- `m` writes exactly `bs`, whatever valid stream with room for them it is given.
abbrev pub Writes : Io (Unit {0}) → List ℕ → Type 0
Writes m bs = (s : ByteStream) → IsValid s → length bs ≤ get_free s → m s ≡ ok (tt, put bs s)

-- `m` reads `a` off every stream whose next bytes are `bs`, and uses up just those.
abbrev pub Reads : {A : Type 0} → Io A → List ℕ → A → Type 0
Reads m bs a =
    (s : ByteStream) (rest : List ℕ)
    → remaining s ≡ bs ++ rest
    → m s ≡ ok (a, advance (length bs) s)

pub write_bytes-Writes : (bs : List ℕ) → Writes (write_bytes bs) bs
write_bytes-Writes bs s v h = write_bytes_lem bs s h

pub Writes-seq :
    (m k : Io (Unit {0})) (a b : List ℕ) → Writes m a → Writes k b → Writes (m >> k) (a ++ b)
Writes-seq m k a b wm wk s v h =
    let fits : length a ≤ get_free s = omega (arith, length-append a b) in
    rw (wm s v fits, ◌>>=◌)
      (wk (put a s) (put-IsValid s v a fits)
          (omega (arith, get_free-put s v a fits, length-append a b))
        ∙ ap (λ t. ok (tt, t)) (put-put s v a fits b))

pub read_bytes-Reads : (n : ℕ) (bs : List ℕ) → n ≡ length bs → Reads (read_bytes n) bs bs
read_bytes-Reads n bs h s rest e = read_bytes_lem s bs rest e n h ∙ ap (λ k. ok (bs, advance k s)) h

pub Reads-bind :
    {A B : Type 0} (m : Io A) (f : A → Io B) (bs cs : List ℕ) (a : A) (b : B)
    → Reads m bs a
    → Reads (f a) cs b
    → Reads (m >>= f) (bs ++ cs) b
Reads-bind m f bs cs a b rm rf s rest e =
    let e' : remaining s ≡ bs ++ (cs ++ rest) = e ∙ append_assoc bs cs rest in
    rw (rm s (cs ++ rest) e', ◌>>=◌)
      (rf (advance (length bs) s) rest (remaining-advance s bs (cs ++ rest) e' (length bs) refl)
        ∙ ap (λ t. ok (b, t))
            (advance-advance (length bs) (length cs) s
              ∙ ap (λ k. advance k s) (sym (length-append bs cs))))

pub Reads-pure : {A : Type 0} (a : A) → Reads (pure a) [] a
unfolding advance
Reads-pure a s rest e = ground arith

-- A writer and a reader of the same bytes, one after the other at the same place.
pub round_trip :
    {A : Type 0} (m : Io (Unit {0})) (r : Io A) (bs : List ℕ) (a : A)
    → Writes m bs
    → Reads r bs a
    → (s : ByteStream) → IsValid s
    → length bs ≤ get_free s
    → (m s ≡ ok (tt, put bs s)) × (r (seek s.pos (put bs s)) ≡ ok (a, put bs s))
round_trip m r bs a w d s v h = (
  w s v h,
  d (seek s.pos (put bs s)) _ (remaining-seek-put s v bs h) ∙ ap (λ t. ok (a, t)) (back-again bs s),
)
  where
    back-again :
        (cs : List ℕ) (u : ByteStream) → advance (length cs) (seek u.pos (put cs u)) ≡ put cs u
    back-again cs u = unfold advance put in refl

pub assert-Reads :
    {B : Type 0} (t : Bool) (m : Io B) (bs : List ℕ) (b : B)
    → t ≡ true
    → Reads m bs b
    → Reads (assert t >> m) bs b
assert-Reads t m bs b e r s rest q = rw (e, ◌>>=◌) (r s rest q)

-- A check for no more room than the bytes that follow need.
pub check_free-Writes :
    (n : ℕ) (m : Io (Unit {0})) (bs : List ℕ)
    → n ≤ length bs
    → Writes m bs
    → Writes (check_free n >> m) bs
check_free-Writes n m bs h w s v room = rw (check_free_ok n s (omega arith), ◌>>=◌) (w s v room)

pub pure-Writes : Writes (pure tt) []
unfolding put
pure-Writes s v h =
    ap (λ t. ok (tt, t))
      (ByteStream-path
        (sym (take-append-drop s.pos s.buffer)
          ∙ ap (λ k. take s.pos s.buffer ++ drop k s.buffer) (omega arith))
        (omega arith))

-- A last step that leaves the stream alone.
pub Reads-then :
    {A B : Type 0} (m : Io A) (f : A → Io B) (bs : List ℕ) (a : A) (b : B)
    → Reads m bs a
    → ((t : ByteStream) → f a t ≡ ok (b, t))
    → Reads (m >>= f) bs b
Reads-then m f bs a b r h s rest e = rw (r s rest e, ◌>>=◌) (h (advance (length bs) s))

-- `m` reads `a` off every stream that holds `bs` and nothing more.
abbrev pub ReadsAll : {A : Type 0} → Io A → List ℕ → A → Type 0
ReadsAll m bs a = (s : ByteStream) → remaining s ≡ bs → m s ≡ ok (a, advance (length bs) s)

pub Reads-ReadsAll : {A : Type 0} (m : Io A) (bs : List ℕ) (a : A) → Reads m bs a → ReadsAll m bs a
Reads-ReadsAll m bs a r s e = r s [] (e ∙ sym (append-nil bs))

pub ReadsAll-bind :
    {A B : Type 0} (m : Io A) (f : A → Io B) (bs cs : List ℕ) (a : A) (b : B)
    → Reads m bs a
    → ReadsAll (f a) cs b
    → ReadsAll (m >>= f) (bs ++ cs) b
ReadsAll-bind m f bs cs a b rm rf s e =
    rw (rm s cs e, ◌>>=◌)
      (rf (advance (length bs) s) (remaining-advance s bs cs e (length bs) refl)
        ∙ ap (λ t. ok (b, t))
            (advance-advance (length bs) (length cs) s
              ∙ ap (λ k. advance k s) (sym (length-append bs cs))))

pub ReadsAll-assert :
    {B : Type 0} (t : Bool) (m : Io B) (bs : List ℕ) (b : B)
    → t ≡ true
    → ReadsAll m bs b
    → ReadsAll (assert t >> m) bs b
ReadsAll-assert t m bs b e r s q = rw (e, ◌>>=◌) (r s q)
