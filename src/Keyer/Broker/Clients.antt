-- ===== src/Keyer/Broker/Clients.antt =====
-- The registry of clients of winkeyer/broker.rs keeps its order and its one primary client.
use cathub.Prelude.{ℕ, ◌+◌, ◌≤◌, ◌≡◌, refl, false, ◌&&◌, [], ◌∷◌, some, arith, if◌then◌else◌}
use cathub.Prelude.Map.{
  Map, lookup, insert, remove, IsSorted, insert-IsSorted, remove-IsSorted, lookup-below,
}
use cathub.Keyer.Broker.State.{ClientState}
use cathub.Keyer.Broker.Requests.{any_primary}
use cathub.Keyer.Broker.Invariant.{primaries, IsRegistry}

primaries-insert-le :
    (k : ℕ) (c : ClientState) (m : Map ClientState)
    → primaries (insert k c m) ≤ primaries m + (if c.primary then 1 else 0)
unfolding insert
primaries-insert-le k c [] = ground arith
primaries-insert-le k c ((j, d) ∷ m) = ground (arith, primaries-insert-le k c m)

primaries-remove-le : (k : ℕ) (m : Map ClientState) → primaries (remove k m) ≤ primaries m
unfolding remove
primaries-remove-le k [] = omega arith
primaries-remove-le k ((j, d) ∷ m) = ground (arith, primaries-remove-le k m)

any_primary-none : (m : Map ClientState) → any_primary m ≡ false → primaries m ≡ 0
unfolding any_primary
any_primary-none [] h = refl
any_primary-none ((k, c) ∷ m) h = ground (arith, any_primary-none m)

primaries-update :
    (k : ℕ) (c d : ClientState) (m : Map ClientState)
    → IsSorted m
    → lookup k m ≡ some c
    → d.primary ≡ c.primary
    → primaries (insert k d m) ≡ primaries m
unfolding lookup insert
primaries-update k c d [] s e h = cc
primaries-update k c d ((j, x) ∷ []) s e h = ground arith
primaries-update k c d ((j, x) ∷ (i, y) ∷ m) s e h =
    ground (arith, primaries-update k c d ((i, y) ∷ m) s.1, lookup-below k j ((i, y) ∷ m))

pub insert-IsRegistry :
    (k : ℕ) (c : ClientState) (m : Map ClientState)
    → (c.primary && any_primary m) ≡ false
    → IsRegistry m
    → IsRegistry (insert k c m)
insert-IsRegistry k c m h r =
    (insert-IsSorted k c m r.0, ground (arith, primaries-insert-le k c m, any_primary-none m))

pub remove-IsRegistry : (k : ℕ) (m : Map ClientState) → IsRegistry m → IsRegistry (remove k m)
remove-IsRegistry k m r = (remove-IsSorted k m r.0, omega (arith, primaries-remove-le k m))

pub update-IsRegistry :
    (k : ℕ) (c d : ClientState) (m : Map ClientState)
    → lookup k m ≡ some c
    → d.primary ≡ c.primary
    → IsRegistry m
    → IsRegistry (insert k d m)
update-IsRegistry k c d m e h r =
    (insert-IsSorted k d m r.0, omega (arith, primaries-update k c d m r.0 e h))
