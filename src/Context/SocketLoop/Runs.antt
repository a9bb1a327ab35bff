-- ===== src/Context/SocketLoop/Runs.antt =====
-- The states of the connections of an endpoint, whatever happens to it.
use simple_quic.Common.{
  ℕ, ◌≡◌, refl, sym, ap, subst, ◌∙◌, List, [], ◌∷◌, ◌++◌, append_assoc, append-nil, Yields,
  Yields-bind, Yields-then, Yields-weaken,
}
use simple_quic.Context.ConnectionId.Generator.{generate}
use simple_quic.Context.Streams.{PeerType}
use simple_quic.Context.Incoming.{Connection}
use simple_quic.Context.States.{Moves, Moves-refl, Moves-trans}
use simple_quic.Context.Handshake.{Endpoint, create_connection, client_connection}
use simple_quic.Context.Handshake.Receive.{incoming_msg}
use simple_quic.Context.Handshake.Receive.Moves.{Grows, incoming_msg-Grows}
use simple_quic.Context.SocketLoop.{socket_turn}
use simple_quic.Context.SocketLoop.Moves.{socket_turn-Moves}
use simple_quic.Context.SocketLoop.Events.{Event, happen, run}

-- The connections have moved along the diagram, and others may follow them.
abbrev pub Extends : List Connection → List Connection → Type 0
Extends cs ds =
    (front : List Connection) × (more : List Connection) × (ds ≡ front ++ more) × Moves cs front

Extends-refl : (cs : List Connection) → Extends cs cs
Extends-refl cs = (cs, [], sym (append-nil cs), Moves-refl cs)

split-Moves :
    (xs ys zs : List Connection)
    → Moves (xs ++ ys) zs
    → (front : List Connection) × (more : List Connection) × (zs ≡ front ++ more) × Moves xs front
split-Moves [] ys zs m = ([], zs, refl, tt)
split-Moves (x ∷ xs) ys [] m = absurd m
split-Moves (x ∷ xs) ys (z ∷ zs) (e, m) =
    let (front, more, split, m') = split-Moves xs ys zs m in
    (z ∷ front, more, ap (◌∷◌ z) split, (e, m'))

Extends-trans : (cs ds es : List Connection) → Extends cs ds → Extends ds es → Extends cs es
Extends-trans cs ds es (front, more, split, m) (front', more', split', m') =
    let (f, g, split'', n) = split-Moves front more front' (subst (λ l. Moves l front') split m') in
    (
      f,
      g ++ more',
      split' ∙ ap (λ l. l ++ more') split'' ∙ append_assoc f g more',
      Moves-trans cs front f m n,
    )

happen-Extends :
    (type : PeerType) (fill : ℕ → List ℕ) (x : Event) (e : Endpoint)
    → Yields (λ (e' : Endpoint). Extends e.connections e'.connections) (happen type fill x e)
unfolding happen create_connection
happen-Extends type fill (Event.arrives now p) e =
    Yields-weaken (Grows e.connections) _ (incoming_msg fill now p e)
      (incoming_msg-Grows fill now p e) (λ e' (ds, more, split, m, new). (ds, more, split, m))
happen-Extends type fill (Event.serves now) e =
    Yields-bind _ _ (socket_turn type now e.connections) _
      (socket_turn-Moves type now e.connections) (λ (cs, ds) m. (cs, [], sym (append-nil cs), m))
happen-Extends type fill (Event.creates now) e =
    Yields-then _ (generate fill e.generator) _ λ (src, g).
      Yields-then _ (generate fill g) _ λ (dst, g').
        Yields-then _ (client_connection now src dst) _
          (λ c. (e.connections, c ∷ [], refl, Moves-refl e.connections))

-- Whatever datagrams arrive, however often SocketLoop serves the connections and whenever the user
-- calls CreateConnection, in any order and at any times, as long as each of them returns: no
-- connection is removed or changes its place, and the state of each has moved along the diagram of
-- Context/States, which nothing leaves at CLOSED.
pub run-Extends :
    (type : PeerType) (fill : ℕ → List ℕ) (xs : List Event) (e : Endpoint)
    → Yields (λ (e' : Endpoint). Extends e.connections e'.connections) (run type fill xs e)
unfolding run
run-Extends type fill [] e = Extends-refl e.connections
run-Extends type fill (x ∷ xs) e =
    Yields-bind _ _ (happen type fill x e) _ (happen-Extends type fill x e) λ e' h.
      Yields-weaken _ _ (run type fill xs e') (run-Extends type fill xs e')
        (λ e'' h'. Extends-trans e.connections e'.connections e''.connections h h')
