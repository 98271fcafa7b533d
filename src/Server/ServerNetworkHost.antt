-- ===== src/Server/ServerNetworkHost.antt =====
-- Server/include/Server/ServerNetworkHost.hpp: the state of the host, and its statistics.
pub mod Sending
pub mod Receiving
pub mod Ticking
pub mod Steady
pub mod Draining
use brawololo.Prelude.{ℕ, ◌+◌, ◌%◌, ◌^◌, Option, List, []}
use brawololo.Prelude.Maps.{lookup, assign}
use brawololo.Game.Types.{ClientId, NetworkEventId, TimestampMs}
use brawololo.Game.Events.{DomainEvent}
use brawololo.Game.ReplicationPlanner.{ReplicationPlannerConfig}
use brawololo.Game.SnapshotBaselineCache.{
  SnapshotBaselineCacheConfig, SnapshotBaselineCache, create_cache,
}
use brawololo.Game.Simulation.Registry.{Entt}
use brawololo.Game.Simulation.Config.{default_simulation_config}
use brawololo.Net.Transport.{Transport}
use brawololo.Server.ServerClientReplicationState.{ServerClientReplicationState}
use brawololo.Server.ServerRuntime.{ServerRuntime, create_runtime}

pub record ServerNetworkStats : Type 0 where
  pub connected_clients : ℕ
  pub login_requests : ℕ
  pub inputs_received : ℕ
  pub snapshot_acks_received : ℕ
  pub stale_snapshot_acks_rejected : ℕ
  pub time_sync_requests_received : ℕ
  pub time_sync_responses_sent : ℕ
  pub reliable_events_sent : ℕ
  pub reliable_events_resent : ℕ
  pub reliable_event_acks_received : ℕ
  pub stale_reliable_event_acks_rejected : ℕ
  pub snapshots_sent : ℕ
  pub snapshots_skipped_by_schedule : ℕ
  pub full_snapshots_sent : ℕ
  pub delta_eligible_snapshots_sent : ℕ
  pub baseline_misses : ℕ
  pub delta_placeholder_snapshots_planned : ℕ
  pub delta_placeholder_added_entities : ℕ
  pub delta_placeholder_changed_entities : ℕ
  pub delta_placeholder_removed_entities : ℕ
  pub delta_placeholder_unchanged_entities : ℕ
  pub snapshot_entities_sent : ℕ
  pub snapshot_entities_dropped : ℕ
  pub interest_enter_events : ℕ
  pub interest_stay_events : ℕ
  pub interest_exit_events : ℕ

abbrev pub no_stats : ServerNetworkStats
no_stats = record {
  connected_clients = 0;
  login_requests = 0;
  inputs_received = 0;
  snapshot_acks_received = 0;
  stale_snapshot_acks_rejected = 0;
  time_sync_requests_received = 0;
  time_sync_responses_sent = 0;
  reliable_events_sent = 0;
  reliable_events_resent = 0;
  reliable_event_acks_received = 0;
  stale_reliable_event_acks_rejected = 0;
  snapshots_sent = 0;
  snapshots_skipped_by_schedule = 0;
  full_snapshots_sent = 0;
  delta_eligible_snapshots_sent = 0;
  baseline_misses = 0;
  delta_placeholder_snapshots_planned = 0;
  delta_placeholder_added_entities = 0;
  delta_placeholder_changed_entities = 0;
  delta_placeholder_removed_entities = 0;
  delta_placeholder_unchanged_entities = 0;
  snapshot_entities_sent = 0;
  snapshot_entities_dropped = 0;
  interest_enter_events = 0;
  interest_stay_events = 0;
  interest_exit_events = 0;
}

pub record ServerNetworkHostConfig : Type 0 where
  pub replication : ReplicationPlannerConfig
  pub baselines : SnapshotBaselineCacheConfig
  pub snapshot_send_interval_ms : TimestampMs
  pub reliable_event_resend_base_interval_ms : TimestampMs
  pub reliable_event_max_send_count : ℕ

-- An event id is a uint32_t.
abbrev pub next_event_id : NetworkEventId → NetworkEventId
next_event_id id = (id + 1) % 2 ^ 32

module _ (E : Entt) (T : Transport) where
  pub record ServerNetworkHost : Type 0 where
    pub transport : T.State
    pub config : ServerNetworkHostConfig
    pub runtime : ServerRuntime E
    pub baseline_cache : SnapshotBaselineCache
    pub clients : List ClientId
    pub client_state_by_id : List (ClientId × ServerClientReplicationState)
    pub drained_events : List DomainEvent
    pub next_network_event_id : NetworkEventId
    pub stats : ServerNetworkStats

  abbrev pub create_host : T.State → ServerNetworkHostConfig → ServerNetworkHost
  create_host transport config = record {
    transport = transport;
    config = config;
    runtime = create_runtime E default_simulation_config;
    baseline_cache = create_cache config.baselines;
    clients = [];
    client_state_by_id = [];
    drained_events = [];
    next_network_event_id = 1;
    stats = no_stats;
  }

  -- `clientStateById_.find`.
  abbrev pub state_of_client : ClientId → ServerNetworkHost → Option ServerClientReplicationState
  state_of_client id h = lookup id h.client_state_by_id

  -- A change of a state through the iterator that `find` gave.
  abbrev pub put_state :
      ClientId → ServerClientReplicationState → ServerNetworkHost → ServerNetworkHost
  put_state id state h = record h { client_state_by_id = assign id state h.client_state_by_id }
