-- ===== src/Context/ConnectionId/Generator.antt =====
-- ConnectionIDGenerator of context/connection_id.cc. RandomByteGenerator::Fill is a parameter: the
-- bytes that its call number `n` writes.
use simple_quic.Common.{
  ℕ, zero, suc, List, [], ◌∷◌, Bool, true, false, ◌||◌, if◌then◌else◌, Result, ok, err, Error,
}
use simple_quic.Context.ConnectionId.{ConnectionId, padded, same_id, local_connection_id_length}

abbrev pub max_regeneration : ℕ
max_regeneration = 16

-- usedID, and the number of calls of Fill so far.
pub record Generator : Type 0 where
  pub used : List ConnectionId
  pub drawn : ℕ

abbrev pub is_used_id : List ConnectionId → ConnectionId → Bool
is_used_id [] c = false
is_used_id (u ∷ us) c = same_id u c || is_used_id us c

-- ConnectionID(IDLiteral, connectionIDLen), of the bytes that Fill has written.
unfoldable pub make_id : List ℕ → ConnectionId
unfolding padded
make_id bytes = record { id = padded bytes; valid = true; len = local_connection_id_length }

-- The loop, `turns` turns before its end.
unfoldable pub generate_by : (ℕ → List ℕ) → ℕ → Generator → Result (ConnectionId × Generator)
unfolding make_id
generate_by fill zero g = err Error.runtime_error
generate_by fill (suc turns) g =
    let c = make_id (fill g.drawn) in
    let rest = generate_by fill turns (record g { drawn = suc g.drawn }) in
    if is_used_id g.used c then rest else ok (c, record { used = c ∷ g.used; drawn = suc g.drawn })

unfoldable pub generate : (ℕ → List ℕ) → Generator → Result (ConnectionId × Generator)
unfolding generate_by
generate fill g = generate_by fill max_regeneration g

-- AddUsedConnectionID
unfoldable pub add_used_connection_id : ConnectionId → Generator → Generator
add_used_connection_id c g = if is_used_id g.used c then g else record g { used = c ∷ g.used }

without_id : ConnectionId → List ConnectionId → List ConnectionId
without_id c [] = []
without_id c (u ∷ us) = let rest = without_id c us in if same_id u c then rest else u ∷ rest

-- EraseConnectionID
unfoldable pub erase_connection_id : ConnectionId → Generator → Generator
unfolding without_id
erase_connection_id c g = record g { used = without_id c g.used }
