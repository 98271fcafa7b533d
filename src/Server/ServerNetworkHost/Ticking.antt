-- ===== src/Server/ServerNetworkHost/Ticking.antt =====
-- Server/src/ServerNetworkHost.cpp: TickAndSendSnapshots, SendSnapshot and the other calls of a host.
use brawololo.Prelude.{
  ◌+◌, Bool, true, false, not, ◌&&◌, Option, none, some, List, [], ◌∷◌, ◌++◌, length, ◌==◌,
  if◌then◌else◌,
}
use brawololo.Prelude.Maps.{lookup, assign}
use brawololo.Game.Types.{ClientId, SnapshotId, TimestampMs}
use brawololo.Game.Events.{DomainEvent}
use brawololo.Game.Replication.{SnapshotDto, SnapshotDeliveryKind, full, delta_eligible}
use brawololo.Game.NetworkProtocol.{NetworkChannel, MessageClass, NetworkEnvelope, protocol_version}
use brawololo.Game.Serialization.Snapshot.{serialize_snapshot}
use brawololo.Game.ReplicationPlanner.{PlannedSnapshot, plan}
use brawololo.Game.SnapshotBaselineCache.{SnapshotBaselineDecision, decide, find, store}
use brawololo.Game.SnapshotDelta.{SnapshotDeltaPlan, plan_snapshot_delta}
use brawololo.Game.InterestManagement.{InterestFrame, update}
use brawololo.Game.Simulation.Registry.{Entt}
use brawololo.Net.Transport.{Transport}
use brawololo.Server.ServerClientReplicationState.{
  ServerClientReplicationState, should_send_snapshot, mark_snapshot_sent,
}
use brawololo.Server.ServerRuntime.{connect_client, tick, build_snapshot_for, drain_runtime_events}
use brawololo.Server.ServerNetworkHost.{ServerNetworkHost, state_of_client, put_state}
use brawololo.Server.ServerNetworkHost.Sending.{
  send_interest_events, broadcast_reliable_events, resend_pending_reliable_events, resend_each,
}

abbrev pub is_delta : SnapshotDeliveryKind → Bool
is_delta full = false
is_delta delta_eligible = true

-- The acknowledged snapshot, or 0 of a client without a state.
abbrev pub acked_of : Option ServerClientReplicationState → SnapshotId
acked_of none = 0
acked_of (some state) = state.acked_snapshot

-- ShouldSendSnapshot.
abbrev pub is_scheduled : TimestampMs → Option ServerClientReplicationState → Bool
is_scheduled now none = true
is_scheduled now (some state) = should_send_snapshot now state

unfoldable pub snapshot_envelope : ClientId → SnapshotDto → NetworkEnvelope
unfolding serialize_snapshot
snapshot_envelope client_id snapshot = record {
  protocol_version = protocol_version;
  peer_id = client_id;
  channel = NetworkChannel.snapshots;
  message_class = MessageClass.snapshot;
  sequence = snapshot.snapshot_id;
  payload = serialize_snapshot snapshot;
}

module _ (E : Entt) (T : Transport) where
  abbrev pub count_delta_plan : SnapshotDeltaPlan → ServerNetworkHost E T → ServerNetworkHost E T
  count_delta_plan delta h =
      if delta.baseline_matched
      then record h {
        stats = record h.stats {
          delta_placeholder_snapshots_planned = h.stats.delta_placeholder_snapshots_planned + 1;
          delta_placeholder_added_entities =
              h.stats.delta_placeholder_added_entities + delta.added_count;
          delta_placeholder_changed_entities =
              h.stats.delta_placeholder_changed_entities + delta.changed_count;
          delta_placeholder_removed_entities =
              h.stats.delta_placeholder_removed_entities + delta.removed_count;
          delta_placeholder_unchanged_entities =
              h.stats.delta_placeholder_unchanged_entities + delta.unchanged_count;
        };
      }
      else h

  abbrev pub plan_against :
      SnapshotDto → Option SnapshotDto → ServerNetworkHost E T → ServerNetworkHost E T
  plan_against snapshot none h = h
  plan_against snapshot (some baseline) h =
      count_delta_plan (plan_snapshot_delta snapshot baseline) h

  abbrev pub plan_delta : ClientId → SnapshotDto → ServerNetworkHost E T → ServerNetworkHost E T
  plan_delta client_id snapshot h =
      if is_delta snapshot.delivery_kind
      then plan_against snapshot (find client_id snapshot.baseline_id h.baseline_cache) h
      else h

  abbrev pub count_interest : InterestFrame → ServerNetworkHost E T → ServerNetworkHost E T
  count_interest frame h = record h {
    stats = record h.stats {
      interest_enter_events = h.stats.interest_enter_events + length frame.entered;
      interest_stay_events = h.stats.interest_stay_events + length frame.stayed;
      interest_exit_events = h.stats.interest_exit_events + length frame.exited;
    };
  }

  abbrev pub update_interest :
      ClientId
      → SnapshotDto
      → TimestampMs
      → Option ServerClientReplicationState
      → ServerNetworkHost E T
      → ServerNetworkHost E T
  update_interest client_id snapshot now none h = h
  update_interest client_id snapshot now (some state) h =
      let (interest, frame) = update snapshot state.interest in
      send_interest_events E T client_id frame now
        (count_interest frame (put_state E T client_id (record state { interest = interest }) h))

  -- The statistics of a snapshot that is sent.
  abbrev pub count_snapshot :
      SnapshotBaselineDecision → PlannedSnapshot → ServerNetworkHost E T → ServerNetworkHost E T
  count_snapshot decision planned h =
      let delta = is_delta planned.snapshot.delivery_kind in
      let missed = not (decision.requested_baseline_id == 0) && not decision.baseline_available in
      record h {
        stats = record h.stats {
          snapshots_sent = h.stats.snapshots_sent + 1;
          delta_eligible_snapshots_sent =
              if delta
              then h.stats.delta_eligible_snapshots_sent + 1
              else h.stats.delta_eligible_snapshots_sent;
          full_snapshots_sent =
              if delta then h.stats.full_snapshots_sent else h.stats.full_snapshots_sent + 1;
          baseline_misses = if missed then h.stats.baseline_misses + 1 else h.stats.baseline_misses;
          snapshot_entities_sent =
              h.stats.snapshot_entities_sent + planned.stats.output_entity_count;
          snapshot_entities_dropped =
              h.stats.snapshot_entities_dropped + planned.stats.dropped_entity_count;
        };
      }

  -- The end of SendSnapshot, after the envelope is sent.
  unfoldable pub after_snapshot :
      ClientId
      → TimestampMs
      → SnapshotBaselineDecision
      → PlannedSnapshot
      → ServerNetworkHost E T
      → ServerNetworkHost E T
  unfolding lookup assign update store send_interest_events
  after_snapshot client_id now decision planned h =
      let interested =
        update_interest client_id planned.snapshot now (state_of_client E T client_id h) h in
      count_snapshot decision planned (record interested {
        baseline_cache = store client_id planned.snapshot interested.baseline_cache;
      })

  -- ReplicationPlanner::Plan of the snapshot that BuildSnapshotFor gives, with what it leaves of the host.
  unfoldable pub plan_snapshot_for :
      ClientId
      → SnapshotBaselineDecision
      → ServerNetworkHost E T
      → ServerNetworkHost E T × PlannedSnapshot
  unfolding build_snapshot_for plan
  plan_snapshot_for client_id decision h =
      let (runtime, snapshot) =
        build_snapshot_for E client_id decision.effective_baseline_id h.runtime in
      (
        record h { runtime = runtime },
        plan h.config.replication (record snapshot { delivery_kind = decision.delivery_kind })
            client_id,
      )

  unfoldable pub send_snapshot :
      ClientId → TimestampMs → ServerNetworkHost E T → ServerNetworkHost E T × Bool
  unfolding lookup decide find plan_snapshot_for plan_snapshot_delta snapshot_envelope
      after_snapshot
  send_snapshot client_id now h =
      let decision =
        decide client_id (acked_of (state_of_client E T client_id h)) h.baseline_cache in
      let (built, planned) = plan_snapshot_for client_id decision h in
      let compared = plan_delta client_id planned.snapshot built in
      let (transport, sent) =
        T.send (snapshot_envelope client_id planned.snapshot) compared.transport in
      let told = record compared { transport = transport } in
      if sent then (after_snapshot client_id now decision planned told, true) else (told, false)

  abbrev pub mark_found :
      ClientId
      → TimestampMs
      → Option ServerClientReplicationState
      → ServerNetworkHost E T
      → ServerNetworkHost E T
  mark_found client_id now none h = h
  mark_found client_id now (some state) h =
      put_state E T client_id (mark_snapshot_sent now h.config.snapshot_send_interval_ms state) h

  abbrev pub skip : ServerNetworkHost E T → ServerNetworkHost E T
  skip h = record h {
    stats = record h.stats {
      snapshots_skipped_by_schedule = h.stats.snapshots_skipped_by_schedule + 1;
    };
  }

  -- One round of the loop of TickAndSendSnapshots.
  unfoldable pub serve_client :
      TimestampMs → ClientId → ServerNetworkHost E T → ServerNetworkHost E T
  unfolding lookup assign should_send_snapshot mark_snapshot_sent send_snapshot
  serve_client now client_id h =
      let (h', sent) = send_snapshot client_id now h in
      if not (is_scheduled now (state_of_client E T client_id h))
      then skip h
      else if sent
      then mark_found client_id now (state_of_client E T client_id h') h'
      else h'

  unfoldable pub serve_clients :
      TimestampMs → List ClientId → ServerNetworkHost E T → ServerNetworkHost E T
  unfolding serve_client
  serve_clients now [] h = h
  serve_clients now (client_id ∷ rest) h = serve_clients now rest (serve_client now client_id h)

  unfoldable pub tick_and_send_snapshots :
      TimestampMs → ServerNetworkHost E T → ServerNetworkHost E T
  unfolding tick serve_clients broadcast_reliable_events resend_each
  tick_and_send_snapshots now h =
      let (runtime, events) = drain_runtime_events E (tick E h.runtime) in
      let ticked = record h { runtime = runtime } in
      let served = serve_clients now ticked.clients ticked in
      let told =
        resend_pending_reliable_events E T now (broadcast_reliable_events E T events now served) in
      record told { drained_events = told.drained_events ++ events }

  abbrev pub drain_host_events : ServerNetworkHost E T → ServerNetworkHost E T × List DomainEvent
  drain_host_events h = (record h { drained_events = [] }, h.drained_events)

  unfoldable pub connect_simulation_only_client :
      ClientId → TimestampMs → ServerNetworkHost E T → ServerNetworkHost E T × Bool
  unfolding connect_client
  connect_simulation_only_client client_id now h =
      let (runtime, accepted) = connect_client E client_id now h.runtime in
      (record h { runtime = runtime }, accepted)
