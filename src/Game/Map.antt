-- ===== src/Game/Map.antt =====
-- GameLogic/include/GameLogic/Map.hpp and GameLogic/src/Map.cpp
pub mod Area
use brawololo.Prelude.{ℕ, zero, suc, Bool, ◌&&◌, List, [], ◌∷◌, ◌++◌, if◌then◌else◌}
use brawololo.Prelude.Int.{ℤ, pos, pos_part, ◌+ℤ◌, ◌-ℤ◌, ◌*ℤ◌, ◌/ℤ◌, ltb_ℤ, leb_ℤ, abs}
use brawololo.Game.Types.{Fixed}
use brawololo.Game.FixedPoint.{pixels_to_fixed, fixed_to_pixels, clamp_fixed}

pub record MapConfig : Type 0 where
  pub tile_size_pixels : ℤ
  pub width_tiles : ℤ
  pub height_tiles : ℤ
  pub chunk_size_tiles : ℤ
  pub interest_radius_chunks : ℤ

abbrev pub default_map_config : MapConfig
default_map_config = record {
  tile_size_pixels = pos 128;
  width_tiles = pos 80;
  height_tiles = pos 80;
  chunk_size_tiles = pos 8;
  interest_radius_chunks = pos 1;
}

pub record ChunkCoord : Type 0 where
  pub x : ℤ
  pub y : ℤ

-- One coordinate, on an axis of so many tiles.
unfoldable pub chunk_on_axis : MapConfig → ℤ → Fixed → ℤ
unfolding ◌-ℤ◌ ◌*ℤ◌ ◌/ℤ◌ fixed_to_pixels clamp_fixed
chunk_on_axis config tiles value =
    clamp_fixed (fixed_to_pixels value) (pos 0) (tiles *ℤ config.tile_size_pixels -ℤ pos 1)
    /ℤ (config.tile_size_pixels *ℤ config.chunk_size_tiles)

unfoldable pub chunk_for_position : MapConfig → Fixed → Fixed → ChunkCoord
unfolding chunk_on_axis
chunk_for_position config x y = record {
  x = chunk_on_axis config config.width_tiles x;
  y = chunk_on_axis config config.height_tiles y;
}

abbrev pub max_chunk : MapConfig → ℤ → ℤ
max_chunk config tiles = (tiles +ℤ config.chunk_size_tiles -ℤ pos 1) /ℤ config.chunk_size_tiles

abbrev pub is_on_map : MapConfig → ℤ → ℤ → Bool
is_on_map config x y =
    leb_ℤ (pos 0) x
    && leb_ℤ (pos 0) y
    && ltb_ℤ x (max_chunk config config.width_tiles)
    && ltb_ℤ y (max_chunk config config.height_tiles)

-- The inner loop, from `x` on for so many rounds.
unfoldable pub chunk_row : MapConfig → ℤ → ℤ → ℕ → List ChunkCoord
unfolding ◌+ℤ◌
chunk_row config y x zero = []
chunk_row config y x (suc rounds) =
    let rest = chunk_row config y (x +ℤ pos 1) rounds in
    if is_on_map config x y then record { x = x; y = y } ∷ rest else rest

-- The outer loop, from `y` on.
unfoldable pub chunk_rows : MapConfig → ℤ → ℤ → ℕ → ℕ → List ChunkCoord
unfolding ◌+ℤ◌ chunk_row
chunk_rows config x y columns zero = []
chunk_rows config x y columns (suc rounds) =
    chunk_row config y x columns ++ chunk_rows config x (y +ℤ pos 1) columns rounds

-- The rounds of a loop from `first` to `last`.
abbrev pub rounds_to : ℤ → ℤ → ℕ
rounds_to first last = pos_part (last -ℤ first +ℤ pos 1)

unfoldable pub chunks_in_area_of_interest : MapConfig → ChunkCoord → List ChunkCoord
unfolding ◌+ℤ◌ ◌-ℤ◌ chunk_rows
chunks_in_area_of_interest config center =
    let radius = config.interest_radius_chunks in
    chunk_rows config (center.x -ℤ radius) (center.y -ℤ radius)
      (rounds_to (center.x -ℤ radius) (center.x +ℤ radius))
      (rounds_to (center.y -ℤ radius) (center.y +ℤ radius))

unfoldable pub is_chunk_in_area_of_interest : MapConfig → ChunkCoord → ChunkCoord → Bool
unfolding ◌-ℤ◌
is_chunk_in_area_of_interest config observer candidate =
    leb_ℤ (abs (observer.x -ℤ candidate.x)) config.interest_radius_chunks
    && leb_ℤ (abs (observer.y -ℤ candidate.y)) config.interest_radius_chunks

unfoldable pub map_width_fixed : MapConfig → Fixed
unfolding ◌*ℤ◌ pixels_to_fixed
map_width_fixed config = pixels_to_fixed (config.width_tiles *ℤ config.tile_size_pixels)

unfoldable pub map_height_fixed : MapConfig → Fixed
unfolding ◌*ℤ◌ pixels_to_fixed
map_height_fixed config = pixels_to_fixed (config.height_tiles *ℤ config.tile_size_pixels)
