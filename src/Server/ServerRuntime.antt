-- ===== src/Server/ServerRuntime.antt =====
-- Server/include/Server/ServerRuntime.hpp and Server/src/ServerRuntime.cpp. Simulation() hands out the
-- field `simulation`.
use brawololo.Prelude.{◌+◌, ◌%◌, ◌^◌, Bool, Option, List, []}
use brawololo.Prelude.Int.{ℤ}
use brawololo.Game.Types.{ClientId, SnapshotId, TimestampMs}
use brawololo.Game.Commands.{LoginCommand, ClientInputPacket}
use brawololo.Game.Events.{DomainEvent}
use brawololo.Game.Replication.{SnapshotDto}
use brawololo.Game.LagCompensation.{
  LagCompensationHistory, LagCompensationConfig, LagCompensationResult, record_snapshot,
  closest_at_or_before, query,
}
use brawololo.Game.Simulation.Registry.{Entt}
use brawololo.Game.Simulation.Config.{SimulationConfig, SimulationMode}
use brawololo.Game.Simulation.{
  GameSimulation, create_simulation, submit_login, submit_input, drain_events,
}
use brawololo.Game.Simulation.Ticks.{tick_fixed}
use brawololo.Game.Simulation.Snapshots.{build_snapshot}

-- The LagCompensationConfig of `lagCompensation_`.
abbrev default_lag_compensation : LagCompensationConfig
default_lag_compensation = record { max_rewind_ms = 250; future_tolerance_ms = 50 }

-- A snapshot id is a uint32_t.
abbrev next_id : SnapshotId → SnapshotId
next_id id = (id + 1) % 2 ^ 32

module _ (E : Entt) where
  pub record ServerRuntime : Type 0 where
    pub simulation : GameSimulation E
    pub history : LagCompensationHistory
    pub next_snapshot_id : SnapshotId
    pub next_history_snapshot_id : SnapshotId

  abbrev pub create_runtime : SimulationConfig → ServerRuntime
  create_runtime config = record {
    simulation = create_simulation E (record config { mode = SimulationMode.server_authoritative });
    history = record { max_snapshots = 128; snapshots = [] };
    next_snapshot_id = 1;
    next_history_snapshot_id = 1;
  }

  abbrev pub login_of : ClientId → TimestampMs → LoginCommand
  login_of client_id now = record {
    header = record { client_id = client_id; sequence = 0; client_timestamp_ms = now };
  }

  unfoldable pub connect_client : ClientId → TimestampMs → ServerRuntime → ServerRuntime × Bool
  unfolding submit_login
  connect_client client_id now r =
      let (simulation, accepted) = submit_login E (login_of client_id now) r.simulation in
      (record r { simulation = simulation }, accepted)

  unfoldable pub submit : ClientInputPacket → ServerRuntime → ServerRuntime × Bool
  unfolding submit_input
  submit packet r =
      let (simulation, accepted) = submit_input E packet r.simulation in
      (record r { simulation = simulation }, accepted)

  unfoldable pub tick : ServerRuntime → ServerRuntime
  unfolding tick_fixed build_snapshot record_snapshot
  tick r =
      let simulation = tick_fixed E r.simulation in
      record r {
        simulation = simulation;
        history =
            record_snapshot (build_snapshot E 0 r.next_history_snapshot_id 0 simulation) r.history;
        next_history_snapshot_id = next_id r.next_history_snapshot_id;
      }

  unfoldable pub build_snapshot_for :
      ClientId → SnapshotId → ServerRuntime → ServerRuntime × SnapshotDto
  unfolding build_snapshot
  build_snapshot_for client_id baseline_id r = (
    record r { next_snapshot_id = next_id r.next_snapshot_id },
    build_snapshot E client_id r.next_snapshot_id baseline_id r.simulation,
  )

  abbrev historical_snapshot_at_or_before : TimestampMs → ServerRuntime → Option SnapshotDto
  historical_snapshot_at_or_before time r = closest_at_or_before time r.history

  abbrev query_lag_compensation : ClientInputPacket → ℤ → ServerRuntime → LagCompensationResult
  query_lag_compensation packet offset r = query default_lag_compensation r.history (record {
    client_id = packet.header.client_id;
    sequence = packet.header.sequence;
    client_timestamp_ms = packet.header.client_timestamp_ms;
    client_to_server_offset_ms = offset;
    server_now_ms = r.simulation.time_ms;
  })

  abbrev pub drain_runtime_events : ServerRuntime → ServerRuntime × List DomainEvent
  drain_runtime_events r =
      let (simulation, events) = drain_events E r.simulation in
      (record r { simulation = simulation }, events)
