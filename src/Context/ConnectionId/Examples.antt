-- ===== src/Context/ConnectionId/Examples.antt =====
-- A generator with one identifier in use, and the theorem at it.
use simple_quic.Common.{ℕ, ◌+◌, List, [], ◌∷◌, replicate, length-replicate}
use simple_quic.Context.ConnectionId.Generator.{Generator, make_id, generate, max_regeneration}
use simple_quic.Context.ConnectionId.Fresh.{Generates, generate-Generates}

abbrev fill : ℕ → List ℕ
fill n = replicate 8 (7 + n)

abbrev one_used : Generator
one_used = record { used = make_id (fill 0) ∷ []; drawn = 0 }

generate-Generates_example : Generates fill max_regeneration one_used (generate fill one_used)
generate-Generates_example =
    generate-Generates fill one_used (λ n. length-replicate {A = ℕ} 8 (7 + n))
