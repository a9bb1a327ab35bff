-- ===== src/Context/States.antt =====
-- The states of a connection, and how incomingMsg of context/quic.cc may change them.
use simple_quic.Common.{◌≡◌, refl, List, [], ◌∷◌, subst, sym, arith}
use simple_quic.Context.Congestion.{
  ConnectionState, created, established, peer_established, wait_for_peer_close, closed,
}
use simple_quic.Context.Incoming.{Connection, state_of}

-- Neither side has begun to close the connection.
pub data IsAlive : ConnectionState → Type 0 where
  new : IsAlive created
  met : IsAlive established
  half : IsAlive peer_established

infix 40 ◌⟶◌ ◌⟶*◌
pub data ◌⟶◌ : ConnectionState → ConnectionState → Type 0 where
  answers : created ⟶ established
  confirms : peer_established ⟶ established
  close : {s : ConnectionState} → IsAlive s → s ⟶ wait_for_peer_close
  end : {s : ConnectionState} → s ⟶ closed

pub data ◌⟶*◌ : ConnectionState → ConnectionState → Type 0 where
  here : {s : ConnectionState} → s ⟶* s
  then : {s t u : ConnectionState} → s ⟶ t → t ⟶* u → s ⟶* u

pub ⟶*-trans : {s t u : ConnectionState} → s ⟶* t → t ⟶* u → s ⟶* u
⟶*-trans here q = q
⟶*-trans (then e p) q = then e (⟶*-trans p q)

pub ⟶*-of : {s t : ConnectionState} → t ≡ s → s ⟶* t
⟶*-of {s} e = subst (λ x. s ⟶* x) (sym e) here

-- Each connection has moved along the diagram.
abbrev pub Moves : List Connection → List Connection → Type 0
Moves [] [] = Unit {0}
Moves (c ∷ cs) (d ∷ ds) = (state_of c ⟶* state_of d) × Moves cs ds
Moves _ _ = ⊥

pub Moves-refl : (cs : List Connection) → Moves cs cs
Moves-refl [] = tt
Moves-refl (c ∷ cs) = (here, Moves-refl cs)

pub Moves-trans : (cs ds es : List Connection) → Moves cs ds → Moves ds es → Moves cs es
Moves-trans [] [] es m n = n
Moves-trans (c ∷ cs) (d ∷ ds) (e ∷ es) (a, m) (b, n) = (⟶*-trans a b, Moves-trans cs ds es m n)
Moves-trans [] (d ∷ ds) es m n = absurd m
Moves-trans (c ∷ cs) [] es m n = absurd m
Moves-trans (c ∷ cs) (d ∷ ds) [] m n = absurd n

step-closed : {s t : ConnectionState} → s ⟶ t → s ≡ closed → t ≡ closed
step-closed answers e = absurd (ground (arith, e))
step-closed confirms e = absurd (ground (arith, e))
step-closed (close new) e = absurd (ground (arith, e))
step-closed (close met) e = absurd (ground (arith, e))
step-closed (close half) e = absurd (ground (arith, e))
step-closed end e = refl

-- No way leads out of CLOSED.
pub ⟶*-closed : {s t : ConnectionState} → s ⟶* t → s ≡ closed → t ≡ closed
⟶*-closed here e = e
⟶*-closed (then e' p) e = ⟶*-closed p (step-closed e' e)
