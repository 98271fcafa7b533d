-- ===== src/Game/Types.antt =====
-- GameLogic/include/GameLogic/Types.hpp and FixedPoint.hpp: the names of the machine integers.
-- A number type of the source is a number here, and its range a condition of the theorems.
use brawololo.Prelude.{ℕ, ◌<◌}
use brawololo.Prelude.Int.{ℤ}
use brawololo.Wire.Bytes.{range}
use brawololo.Wire.Ints.{IntFits}

abbrev pub ClientId : Type 0
ClientId = ℕ

abbrev pub CommandSequence : Type 0
CommandSequence = ℕ

abbrev pub NetworkEventId : Type 0
NetworkEventId = ℕ

abbrev pub SnapshotId : Type 0
SnapshotId = ℕ

abbrev pub Tick : Type 0
Tick = ℕ

abbrev pub TimestampMs : Type 0
TimestampMs = ℕ

-- The struct has the one field `value`, by which two ids are compared.
abbrev pub NetworkEntityId : Type 0
NetworkEntityId = ℕ

abbrev pub Fixed : Type 0
Fixed = ℤ

-- uint32_t, uint64_t, and the signed widths.
abbrev pub IsU16 : ℕ → Type 0
IsU16 v = v < range 2

abbrev pub IsU32 : ℕ → Type 0
IsU32 v = v < range 4

abbrev pub IsU64 : ℕ → Type 0
IsU64 v = v < range 8

abbrev pub IsI8 : ℤ → Type 0
IsI8 = IntFits 1

abbrev pub IsI16 : ℤ → Type 0
IsI16 = IntFits 2

abbrev pub IsI32 : ℤ → Type 0
IsI32 = IntFits 4
