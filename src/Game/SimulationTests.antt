-- ===== src/Game/SimulationTests.antt =====
-- The map and the simulation at concrete states, over the registry in memory, with what their theorems
-- say there.
use mathlib.Core.List.{Memᴰ}
use mathlib.Core.Option.{map, none-ne-some}
use brawololo.Prelude.{◌<◌, ◌≡◌, ◌↔◌, refl, true, false, some, [], ◌∷◌, arith, length}
use brawololo.Prelude.Int.{pos, ◌/ℤ◌, ◌-ℤ◌, ◌*ℤ◌, ◌≤ℤ◌, abs}
use brawololo.Prelude.Maps.{lookup}
use brawololo.Game.Map.{
  ChunkCoord, default_map_config, chunks_in_area_of_interest, is_chunk_in_area_of_interest,
}
use brawololo.Game.Map.Area.{chunks_in_area_of_interest_iff}
use brawololo.Game.Commands.{LoginCommand, ClientInputPacket}
use brawololo.Game.Weapons.{WeaponType}
use brawololo.Game.Simulation.Snapshots.Replaced.{AreNamed}
use brawololo.Game.Replication.{EntityStateDto, ReplicatedEntityKind, SnapshotPriority}
use brawololo.Game.Components.{PlayerComponent, default_player}
use brawololo.Game.Simulation.Registry.Memory.{memory, memory-IsLawful}
use brawololo.Game.Simulation.Config.{default_simulation_config}
use brawololo.Game.Simulation.Fitness.{IsPlayable}
use brawololo.Game.Simulation.{
  GameSimulation, create_simulation, submit_login, submit_input, movement_for_entity,
}
use brawololo.Game.Simulation.Ticks.{tick_fixed}
use brawololo.Game.Simulation.Players.{IsSound}
use brawololo.Game.Simulation.Players.Runs.{
  created, logged_in, given_input, ticked, Reaches-IsSound,
}
use brawololo.Game.Simulation.Players.Respawns.{tick_fixed-defeated}
use brawololo.Game.Simulation.Snapshots.{build_snapshot, apply_snapshot}
use brawololo.Game.Simulation.Snapshots.Applied.{Converges, apply_snapshot-Converges}
use brawololo.Game.Simulation.Snapshots.Delivered.{build_snapshot-delivered}
use brawololo.Game.Serialization.Snapshot.{SnapshotFits, serialize_snapshot, deserialize_snapshot}
use brawololo.Game.Tests.{duel}

abbrev corner : ChunkCoord
corner = record { x = pos 0; y = pos 0 }

abbrev beside : ChunkCoord
beside = record { x = pos 1; y = pos 0 }

-- Of the nine chunks around a corner, the four on the map.
chunks_in_area_of_interest-corner :
    length (chunks_in_area_of_interest default_map_config corner) ≡ 4
unfolding chunks_in_area_of_interest ◌/ℤ◌
chunks_in_area_of_interest-corner = refl

chunks_in_area_of_interest_iff_example :
    ((is_chunk_in_area_of_interest default_map_config corner beside ≡ true)
      ↔ ((abs (pos 0 -ℤ pos 1) ≤ℤ pos 1) × (abs (pos 0 -ℤ pos 0) ≤ℤ pos 1)))
    × (Memᴰ beside (chunks_in_area_of_interest default_map_config corner) ↔ (
        ((abs (pos 0 -ℤ pos 1) ≤ℤ pos 1) × (abs (pos 0 -ℤ pos 0) ≤ℤ pos 1))
        × (pos 0 ≤ℤ pos 1)
        × (pos 0 ≤ℤ pos 0)
        × (pos 1 *ℤ pos 8 ≤ℤ (pos 80 -ℤ pos 1))
        × (pos 0 *ℤ pos 8 ≤ℤ (pos 80 -ℤ pos 1))))
chunks_in_area_of_interest_iff_example =
    chunks_in_area_of_interest_iff default_map_config corner beside (omega arith)

-- Client 7 logs in, runs to the right and fires.
abbrev login : LoginCommand
login = record { header = record { client_id = 7; sequence = 1; client_timestamp_ms = 100 } }

abbrev run_and_fire : ClientInputPacket
run_and_fire = record {
  header = record { client_id = 7; sequence = 2; client_timestamp_ms = 116 };
  input = record { move_x = pos 1; move_y = pos 0; aim_x = pos 1000; aim_y = pos 0; fire = true };
}

abbrev fresh : GameSimulation memory
fresh = create_simulation memory default_simulation_config

abbrev arena : GameSimulation memory
arena = tick_fixed memory (submit_input memory run_and_fire (submit_login memory login fresh).0).0

default-IsPlayable : IsPlayable default_simulation_config
default-IsPlayable = record {
  tile = omega arith;
  width = omega arith;
  height = omega arith;
  speed = omega arith;
  health = omega arith;
  damage = (omega arith, (omega arith, tt));
}

-- The player starts at tile (17, 10), is accelerated for one tick and moves by 665.
player-arena :
    (memory.components 0 arena.registry).transform
    ≡ some (record { x = pos 2_176_665; y = pos 1_280_000 })
unfolding tick_fixed submit_input submit_login
player-arena = refl

Reaches-IsSound_example : IsSound memory memory-IsLawful default_simulation_config arena
Reaches-IsSound_example =
    Reaches-IsSound memory memory-IsLawful default_simulation_config default-IsPlayable arena
      (ticked (given_input run_and_fire (logged_in login created)))

abbrev runner : EntityStateDto
runner = record {
  movement = record {
    entity_id = 1;
    x = pos 2_176_665;
    y = pos 1_280_000;
    vx = pos 41_600;
    vy = pos 0;
    aim_x = pos 1000;
    aim_y = pos 0;
  };
  combat = some (record {
    entity_id = 1;
    health = pos 100;
    max_health = pos 100;
    weapon_type = WeaponType.bow;
    weapon_warming = true;
    weapon_warmup_completes_at_ms = 316;
    defeated = false;
    respawn_at_ms = 0;
    server_owned_projectile = false;
    projectile_owner_id = 0;
  });
  replication = record {
    entity_id = 1;
    owner_client_id = 7;
    kind = ReplicatedEntityKind.player;
    priority = SnapshotPriority.high;
  };
}

build_snapshot-arena : (build_snapshot memory 7 1 0 arena).entities ≡ runner ∷ []
unfolding build_snapshot tick_fixed submit_input submit_login
build_snapshot-arena = refl

fresh-AreNamed : AreNamed memory fresh.registry fresh.entity_by_network_id
unfolding lookup
fresh-AreNamed id e found = absurd (none-ne-some e found)

apply_snapshot-Converges_example : Converges memory duel 7 (apply_snapshot memory duel 7 fresh)
apply_snapshot-Converges_example =
    apply_snapshot-Converges memory memory-IsLawful duel 7 fresh fresh-AreNamed
      ((omega arith, tt), (tt, tt))

arena-SnapshotFits : SnapshotFits (build_snapshot memory 7 1 0 arena)
unfolding build_snapshot tick_fixed submit_input submit_login
arena-SnapshotFits = record {
  snapshot_id = omega arith;
  baseline_id = omega arith;
  server_tick = omega arith;
  server_time_ms = omega arith;
  acked_input_sequence = omega arith;
  entity_count = omega arith;
  entities = (
    record {
      movement = record {
        entity_id = omega arith;
        x = omega arith;
        y = omega arith;
        vx = omega arith;
        vy = omega arith;
        aim_x = omega arith;
        aim_y = omega arith;
      };
      combat = record {
        entity_id = omega arith;
        health = omega arith;
        max_health = omega arith;
        weapon_warmup_completes_at_ms = omega arith;
        respawn_at_ms = omega arith;
        projectile_owner_id = omega arith;
      };
      replication = record { entity_id = omega arith; owner_client_id = omega arith };
    },
    tt,
  );
}

build_snapshot-delivered_example :
    map
      (λ received. movement_for_entity memory 1 (apply_snapshot memory received 7 fresh))
      (deserialize_snapshot (serialize_snapshot (build_snapshot memory 7 1 0 arena)))
    ≡ some (some runner.movement)
unfolding build_snapshot tick_fixed submit_input submit_login
build_snapshot-delivered_example =
    build_snapshot-delivered memory memory memory-IsLawful memory-IsLawful 7 1 0 arena fresh
      arena-SnapshotFits (tt, tt) fresh-AreNamed 0 runner.movement refl refl refl

-- Client 7 has lost, and may come back at 5000.
abbrev loser : PlayerComponent
loser = record default_player {
  client_id = 7;
  health = pos 0;
  defeated = true;
  respawn_at_ms = 5000;
}

abbrev logged_in_only : GameSimulation memory
logged_in_only = (submit_login memory login fresh).0

abbrev lost : GameSimulation memory
lost =
    let row = memory.components 0 logged_in_only.registry in
    record logged_in_only {
      registry = memory.replace 0 (record row { player = some loser }) logged_in_only.registry;
    }

tick_fixed-defeated_example : (tick_fixed memory lost).time_ms < 5000
unfolding tick_fixed submit_login
tick_fixed-defeated_example =
    tick_fixed-defeated memory memory-IsLawful lost 0 loser refl refl refl refl
