-- ===== src/Common/Dicts.antt =====
-- std::map with numbers as keys: entries in a list, at most one of them found. The order of the
-- entries is not that of the keys, which nothing in the repository looks at.
use Prim.Native.Nat.{ℕ}
use mathlib.Core.Path.{◌≡◌}
use mathlib.Core.Logic.{◌≢◌}
use mathlib.Core.Option.{Option, none, some}
use mathlib.Core.List.{List, [], ◌∷◌}
use native.Mathlib.Omega.{arith}
use simple_quic.Common.Tests.{◌==◌, if◌then◌else◌}

pub record Entry {ℓ} (V : Type ℓ) : Type ℓ where
  pub key : ℕ
  pub value : V

abbrev pub Dict {ℓ} : Type ℓ → Type ℓ
Dict V = List (Entry V)

-- `map.find(key)`
abbrev pub lookup {ℓ} : {V : Type ℓ} → ℕ → Dict V → Option V
lookup wanted [] = none
lookup wanted (entry ∷ rest) = if entry.key == wanted then some entry.value else lookup wanted rest

-- `map[key] = value`: an entry of that key gets the value, or else there is a new one at the end.
abbrev pub insert {ℓ} : {V : Type ℓ} → ℕ → V → Dict V → Dict V
insert wanted value [] = record { key = wanted; value = value } ∷ []
insert wanted value (entry ∷ rest) =
    if entry.key == wanted
    then record entry { value = value } ∷ rest
    else entry ∷ insert wanted value rest

-- `map[key]`, where a missing key gets the new value.
abbrev pub at_or {ℓ} : {V : Type ℓ} → V → ℕ → Dict V → V
at_or new wanted entries = elim (lookup wanted entries) [ some value ↦ value | none ↦ new ]

pub lookup-insert_self {ℓ} :
    {V : Type ℓ} (wanted : ℕ) (value : V) (entries : Dict V)
    → lookup wanted (insert wanted value entries) ≡ some value
lookup-insert_self wanted value [] = ground arith
lookup-insert_self wanted value (entry ∷ rest) =
    ground (arith, lookup-insert_self wanted value rest)

pub lookup-insert_ne {ℓ} :
    {V : Type ℓ} (other wanted : ℕ) (value : V) (entries : Dict V)
    → other ≢ wanted
    → lookup other (insert wanted value entries) ≡ lookup other entries
lookup-insert_ne other wanted value [] apart = ground arith
lookup-insert_ne other wanted value (entry ∷ rest) apart =
    ground (arith, lookup-insert_ne other wanted value rest apart)
