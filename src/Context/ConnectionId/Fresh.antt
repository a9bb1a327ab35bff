-- ===== src/Context/ConnectionId/Fresh.antt =====
-- The identifiers that ConnectionIDGenerator gives out.
use simple_quic.Common.{
  ℕ, zero, suc, ◌+◌, ◌-◌, replicate, ◌<◌, ◌≤◌, ◌≡◌, refl, sym, ap, subst, ◌∙◌, List, ◌∷◌, ◌++◌,
  Bool, true, false, if◌then◌else◌, length, take, take-append, Result, ok, err, Error, inl, inr,
  ◌⊎◌, arith,
}
use simple_quic.Context.ConnectionId.{ConnectionId, padded, local_connection_id_length}
use simple_quic.Context.ConnectionId.RoundTrip.{IsWellFormed}
use simple_quic.Context.ConnectionId.Generator.{
  Generator, make_id, is_used_id, generate_by, generate, max_regeneration,
}

-- What a call that draws at most `turns` times returns.
abbrev pub Generates : (ℕ → List ℕ) → ℕ → Generator → Result (ConnectionId × Generator) → Type 0
Generates fill turns g r =
    ((c : ConnectionId) × (g' : Generator) × (r ≡ ok (c, g'))
      × IsWellFormed c
      × (c.len ≡ local_connection_id_length)
      × (is_used_id g.used c ≡ false)
      × (g'.used ≡ c ∷ g.used)
      × (g.drawn < g'.drawn)
      × (g'.drawn ≤ g.drawn + turns))
    ⊎ ((r ≡ err Error.runtime_error)
        × ((k : ℕ) → k < turns → is_used_id g.used (make_id (fill (g.drawn + k))) ≡ true))

make_id-IsWellFormed :
    (bytes : List ℕ) → length bytes ≡ local_connection_id_length → IsWellFormed (make_id bytes)
unfolding make_id padded
make_id-IsWellFormed bytes e =
    let taken : take 8 (bytes ++ replicate (20 - length bytes) 0) ≡ bytes =
      take-append bytes (replicate (20 - length bytes) 0) 8 (omega (arith, e)) in
    record {
      short = omega arith;
      counted = ap length taken ∙ e;
      zeros = ap padded taken;
      set = refl;
    }

make_id-len : (bytes : List ℕ) → (make_id bytes).len ≡ local_connection_id_length
unfolding make_id
make_id-len bytes = refl

every_turn :
    (P : ℕ → Type 0) (n turns : ℕ)
    → P n
    → ((k : ℕ) → k < turns → P (suc n + k))
    → (k : ℕ) → k < suc turns
    → P (n + k)
every_turn P n turns now later zero l = subst P (omega arith) now
every_turn P n turns now later (suc k) l = subst P (omega arith) (later k (omega (arith, l)))

-- The turn that draws, by whether the identifier is used.
drawn_by :
    (used : Bool) (fill : ℕ → List ℕ) (turns : ℕ) (g : Generator)
    (rest : Result (ConnectionId × Generator))
    → length (fill g.drawn) ≡ local_connection_id_length
    → is_used_id g.used (make_id (fill g.drawn)) ≡ used
    → Generates fill turns (record g { drawn = suc g.drawn }) rest
    → Generates fill (suc turns) g (
        if used
        then rest
        else ok (
          make_id (fill g.drawn),
          record { used = make_id (fill g.drawn) ∷ g.used; drawn = suc g.drawn },
        ))
drawn_by true fill turns g rest e used (inl (c, g', run, w, l, fresh, grown, n, m)) =
    inl (c, g', run, w, l, fresh, grown, omega (arith, n), omega (arith, m))
drawn_by true fill turns g rest e used (inr (run, all)) =
    inr (run, every_turn (λ n. is_used_id g.used (make_id (fill n)) ≡ true) g.drawn turns used all)
drawn_by false fill turns g rest e used k = inl (
  make_id (fill g.drawn),
  record { used = make_id (fill g.drawn) ∷ g.used; drawn = suc g.drawn },
  refl,
  make_id-IsWellFormed (fill g.drawn) e,
  make_id-len (fill g.drawn),
  used,
  refl,
  omega arith,
  omega arith,
)

generate_by-Generates :
    (fill : ℕ → List ℕ) (turns : ℕ) (g : Generator)
    → ((n : ℕ) → length (fill n) ≡ local_connection_id_length)
    → Generates fill turns g (generate_by fill turns g)
unfolding generate_by
generate_by-Generates fill zero g h = inr (refl, λ k l. absurd (omega (arith, l)))
generate_by-Generates fill (suc turns) g h =
    drawn_by (is_used_id g.used (make_id (fill g.drawn))) fill turns g
      (generate_by fill turns (record g { drawn = suc g.drawn })) (h g.drawn) refl
      (generate_by-Generates fill turns (record g { drawn = suc g.drawn }) h)

-- Where each call of Fill writes 8 bytes, Generate returns a well-formed identifier of length 8 that
-- was not in use and is in use afterwards, with all that were, after at most 16 calls of Fill; or it
-- throws, and the identifiers of the next 16 calls are all in use.
pub generate-Generates :
    (fill : ℕ → List ℕ) (g : Generator)
    → ((n : ℕ) → length (fill n) ≡ local_connection_id_length)
    → Generates fill max_regeneration g (generate fill g)
unfolding generate
generate-Generates fill g h = generate_by-Generates fill max_regeneration g h

generated :
    (fill : ℕ → List ℕ) (turns : ℕ) (g g' : Generator) (c : ConnectionId)
    (r : Result (ConnectionId × Generator))
    → Generates fill turns g r
    → r ≡ ok (c, g')
    → IsWellFormed c
generated fill turns g g' c r (inl (d, h, run, w, l, fresh, grown, n, m)) e =
    subst IsWellFormed (same (sym run ∙ e)) w
  where
    drawn : Result (ConnectionId × Generator) → ConnectionId
    drawn (ok (x, y)) = x
    drawn (err x) = c

    same : ◌≡◌ {A = Result (ConnectionId × Generator)} (ok (d, h)) (ok (c, g')) → d ≡ c
    same q = ap drawn q
generated fill turns g g' c r (inr (fails, _)) e = absurd (ground (arith, fails, e))

pub generate-IsWellFormed :
    (fill : ℕ → List ℕ) (g g' : Generator) (c : ConnectionId)
    → ((n : ℕ) → length (fill n) ≡ local_connection_id_length)
    → generate fill g ≡ ok (c, g')
    → IsWellFormed c
generate-IsWellFormed fill g g' c h e =
    generated fill max_regeneration g g' c (generate fill g) (generate-Generates fill g h) e
