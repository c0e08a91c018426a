-- ===== src/StorageProvider/Deadline/Filling/Updates.antt =====
-- What the recorded expirations say of a block.
use polka_storage.Base.{ℕ, ◌≡◌, ◌==◌, Option, some, List, [], ◌∷◌, arith, if◌then◌else◌}
use polka_storage.Btree.Map.{BtreeMap, get-insert}
use polka_storage.Btree.Map
use polka_storage.Btree.Bounded.{Bounded}
use polka_storage.StorageProvider.Outcome.{ok, ok_or}
use polka_storage.StorageProvider.Outcome.Inversion.{bind_inverts, ok_inverts}
use polka_storage.StorageProvider.Sector.{max_partitions_per_deadline}
use polka_storage.StorageProvider.Deadline.Filling.{record_expirations}

-- The partition of the last update for a block, or what was there.
abbrev pub last_update : ℕ → List (ℕ × ℕ) → Option ℕ → Option ℕ
last_update block [] old = old
last_update block ((b, partition) ∷ updates) old =
    last_update block updates (if block == b then some partition else old)

-- Where expirations are recorded, a block names the partition of the last update for it, or the
-- one that it named before if there is none: of the partitions whose sectors expire at one
-- block, the others are forgotten.
pub record_expirations_last :
    (bounded : Bounded) (updates : List (ℕ × ℕ)) (blocks blocks' : BtreeMap ℕ) (block : ℕ)
    → record_expirations bounded updates blocks ≡ ok blocks'
    → Map.get block blocks' ≡ last_update block updates (Map.get block blocks)
unfolding record_expirations
record_expirations_last bounded [] blocks blocks' block h =
    let same = ok_inverts blocks blocks' h in ground (arith, same)
record_expirations_last bounded ((b, n) ∷ updates) blocks blocks' block h =
    let (next, e, rest) =
      bind_inverts (ok_or (bounded.map_try_insert ℕ max_partitions_per_deadline b n blocks) _) _
        blocks' h in
    let law = bounded.map_try_insert_law ℕ max_partitions_per_deadline b n blocks in
    let same : next ≡ Map.insert b n blocks = ground (arith, e, law) in
    let more = record_expirations_last bounded updates next blocks' block rest in
    rw (more, same, get-insert b block n blocks)
