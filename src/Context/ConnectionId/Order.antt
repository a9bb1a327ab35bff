-- ===== src/Context/ConnectionId/Order.antt =====
-- The order of identifiers, which std::set<ConnectionID> finds its elements by.
use simple_quic.Common.{ℕ, ◌≡◌, List, [], ◌∷◌, true, not, ◌&&◌, arith}
use simple_quic.Context.ConnectionId.{ConnectionId, same_bytes, less_bytes, same_id, less_id}

same_bytes-less_bytes :
    (as' bs : List ℕ) → same_bytes as' bs ≡ not (less_bytes as' bs) && not (less_bytes bs as')
unfolding same_bytes less_bytes
same_bytes-less_bytes [] [] = ground arith
same_bytes-less_bytes [] (b ∷ bs) = ground arith
same_bytes-less_bytes (a ∷ as') [] = ground arith
same_bytes-less_bytes (a ∷ as') (b ∷ bs) = ground (arith, same_bytes-less_bytes as' bs)

-- Two identifiers are equal for operator== exactly if neither is less than the other, which is when
-- std::set takes them for one element.
pub same_id-less_id : (a b : ConnectionId) → same_id a b ≡ not (less_id a b) && not (less_id b a)
unfolding same_id less_id
same_id-less_id a b = ground (arith, same_bytes-less_bytes a.id b.id)

same_bytes→eq : (as' bs : List ℕ) → same_bytes as' bs ≡ true → as' ≡ bs
unfolding same_bytes
same_bytes→eq [] [] e = ground arith
same_bytes→eq [] (b ∷ bs) e = absurd (ground (arith, e))
same_bytes→eq (a ∷ as') [] e = absurd (ground (arith, e))
same_bytes→eq (a ∷ as') (b ∷ bs) e =
    let rest : same_bytes as' bs ≡ true = ground (arith, e) in
    ground (arith, e, same_bytes→eq as' bs rest)

same_bytes_refl : (bs : List ℕ) → same_bytes bs bs ≡ true
unfolding same_bytes
same_bytes_refl [] = ground arith
same_bytes_refl (b ∷ bs) = ground (arith, same_bytes_refl bs)

pub same_id_refl : (a : ConnectionId) → same_id a a ≡ true
unfolding same_id
same_id_refl a = ground (arith, same_bytes_refl a.id)
