-- ===== src/Server/ServerNetworkHost/Receiving.antt =====
-- Server/src/ServerNetworkHost.cpp: PumpClientMessages and the handlers of the messages.
use brawololo.Prelude.{
  ℕ, zero, suc, ◌+◌, Bool, true, false, not, Option, none, some, List, [], ◌∷◌, ◌++◌, length,
  if◌then◌else◌,
}
use brawololo.Prelude.Maps.{lookup, assign}
use brawololo.Prelude.Sets.{contains}
use brawololo.Game.Types.{ClientId, TimestampMs}
use brawololo.Game.Commands.{LoginCommand, ClientInputPacket}
use brawololo.Game.Components.{has}
use brawololo.Game.Replication.{SnapshotAckDto}
use brawololo.Game.NetworkEvents.{NetworkEventAckDto}
use brawololo.Game.TimeSync.{TimeSyncRequest}
use brawololo.Game.NetworkProtocol.{
  NetworkChannel, MessageClass, NetworkEnvelope, protocol_version, validate_envelope,
}
use brawololo.Game.Serialization.Commands.{
  deserialize_login_command, deserialize_client_input_packet,
}
use brawololo.Game.Serialization.Acks.{deserialize_network_event_ack, deserialize_snapshot_ack}
use brawololo.Game.Serialization.TimeSync.{
  deserialize_time_sync_request, serialize_time_sync_response,
}
use brawololo.Game.SnapshotBaselineCache.{find}
use brawololo.Game.Simulation.Registry.{Entt}
use brawololo.Net.Transport.{Transport}
use brawololo.Net.KcpRtcTransport.{is_accepted}
use brawololo.Server.ServerClientReplicationState.{
  ServerClientReplicationState, create_state, acknowledge_snapshot, acknowledge_reliable_event,
}
use brawololo.Server.ServerRuntime.{connect_client, submit}
use brawololo.Server.ServerNetworkHost.{ServerNetworkHost, state_of_client, put_state}

unfoldable pub time_sync_envelope : TimeSyncRequest → TimestampMs → NetworkEnvelope
unfolding serialize_time_sync_response
time_sync_envelope request now = record {
  protocol_version = protocol_version;
  peer_id = request.client_id;
  channel = NetworkChannel.time_sync;
  message_class = MessageClass.time_sync_response;
  sequence = request.sequence;
  payload = serialize_time_sync_response (record {
    client_id = request.client_id;
    sequence = request.sequence;
    client_sent_at_ms = request.client_sent_at_ms;
    server_received_at_ms = now;
    server_sent_at_ms = now;
  });
}

module _ (E : Entt) (T : Transport) where
  -- `emplace` leaves a state that is there.
  abbrev pub emplace_state : ClientId → ServerNetworkHost E T → ServerNetworkHost E T
  emplace_state id h =
      if has (state_of_client E T id h) then h else put_state E T id (create_state id) h

  abbrev pub add_client : ClientId → ServerNetworkHost E T → ServerNetworkHost E T
  add_client id h =
      let added = emplace_state id h in
      record added {
        clients = h.clients ++ id ∷ [];
        stats = record h.stats { connected_clients = length (h.clients ++ id ∷ []) };
      }

  abbrev pub count_login : ServerNetworkHost E T → ServerNetworkHost E T
  count_login h = record h {
    stats = record h.stats { login_requests = h.stats.login_requests + 1 };
  }

  abbrev pub handle_login : Option LoginCommand → ServerNetworkHost E T → ServerNetworkHost E T
  handle_login none h = h
  handle_login (some login) h =
      let id = login.header.client_id in
      let (runtime, accepted) = connect_client E id login.header.client_timestamp_ms h.runtime in
      let connected = record (count_login h) { runtime = runtime } in
      if not accepted
      then connected
      else if contains id h.clients
      then connected
      else add_client id connected

  abbrev pub handle_input : Option ClientInputPacket → ServerNetworkHost E T → ServerNetworkHost E T
  handle_input none h = h
  handle_input (some packet) h =
      let (runtime, accepted) = submit E packet h.runtime in
      let submitted = record h { runtime = runtime } in
      if accepted
      then record submitted {
        stats = record h.stats { inputs_received = h.stats.inputs_received + 1 };
      }
      else submitted

  abbrev pub reject_snapshot_ack : ServerNetworkHost E T → ServerNetworkHost E T
  reject_snapshot_ack h = record h {
    stats = record h.stats {
      stale_snapshot_acks_rejected = h.stats.stale_snapshot_acks_rejected + 1;
    };
  }

  abbrev pub acknowledge_found :
      SnapshotAckDto
      → Option ServerClientReplicationState
      → ServerNetworkHost E T
      → ServerNetworkHost E T
  acknowledge_found ack none h = reject_snapshot_ack h
  acknowledge_found ack (some state) h =
      let (state', accepted) = acknowledge_snapshot ack.snapshot_id state in
      if not (has (find ack.client_id ack.snapshot_id h.baseline_cache))
      then reject_snapshot_ack h
      else if not accepted
      then reject_snapshot_ack h
      else record (put_state E T ack.client_id state' h) {
        stats = record h.stats { snapshot_acks_received = h.stats.snapshot_acks_received + 1 };
      }

  abbrev pub handle_snapshot_ack :
      Option SnapshotAckDto → ServerNetworkHost E T → ServerNetworkHost E T
  handle_snapshot_ack none h = h
  handle_snapshot_ack (some ack) h = acknowledge_found ack (state_of_client E T ack.client_id h) h

  abbrev pub reject_event_ack : ServerNetworkHost E T → ServerNetworkHost E T
  reject_event_ack h = record h {
    stats = record h.stats {
      stale_reliable_event_acks_rejected = h.stats.stale_reliable_event_acks_rejected + 1;
    };
  }

  abbrev pub acknowledge_event_found :
      NetworkEventAckDto
      → Option ServerClientReplicationState
      → ServerNetworkHost E T
      → ServerNetworkHost E T
  acknowledge_event_found ack none h = reject_event_ack h
  acknowledge_event_found ack (some state) h =
      let (state', accepted) = acknowledge_reliable_event ack.event_id state in
      let acknowledged = put_state E T ack.client_id state' h in
      if not accepted then reject_event_ack acknowledged else record acknowledged {
        stats = record h.stats {
          reliable_event_acks_received = h.stats.reliable_event_acks_received + 1;
        };
      }

  abbrev pub handle_network_event_ack :
      Option NetworkEventAckDto → ServerNetworkHost E T → ServerNetworkHost E T
  handle_network_event_ack none h = h
  handle_network_event_ack (some ack) h =
      acknowledge_event_found ack (state_of_client E T ack.client_id h) h

  abbrev pub count_request : ServerNetworkHost E T → ServerNetworkHost E T
  count_request h = record h {
    stats = record h.stats {
      time_sync_requests_received = h.stats.time_sync_requests_received + 1;
    };
  }

  abbrev pub count_response : ServerNetworkHost E T → ServerNetworkHost E T
  count_response h = record h {
    stats = record h.stats { time_sync_responses_sent = h.stats.time_sync_responses_sent + 1 };
  }

  abbrev pub handle_time_sync :
      Option TimeSyncRequest → ServerNetworkHost E T → ServerNetworkHost E T
  handle_time_sync none h = h
  handle_time_sync (some request) h =
      let (transport, sent) =
        T.send (time_sync_envelope request h.runtime.simulation.time_ms) h.transport in
      let told = record (count_request h) { transport = transport } in
      if sent then count_response told else told

  -- The switch of PumpClientMessages.
  unfoldable pub handle : MessageClass → List ℕ → ServerNetworkHost E T → ServerNetworkHost E T
  unfolding lookup assign contains connect_client submit acknowledge_snapshot
      acknowledge_reliable_event find time_sync_envelope deserialize_login_command
      deserialize_client_input_packet deserialize_snapshot_ack deserialize_network_event_ack
      deserialize_time_sync_request
  handle MessageClass.login_request payload h = handle_login (deserialize_login_command payload) h
  handle MessageClass.client_input payload h =
      handle_input (deserialize_client_input_packet payload) h
  handle MessageClass.snapshot_ack payload h =
      handle_snapshot_ack (deserialize_snapshot_ack payload) h
  handle MessageClass.network_event_ack payload h =
      handle_network_event_ack (deserialize_network_event_ack payload) h
  handle MessageClass.time_sync_request payload h =
      handle_time_sync (deserialize_time_sync_request payload) h
  handle _ payload h = h

  abbrev pub Round : Type 0
  Round = ServerNetworkHost E T × Bool

  abbrev pub handle_polled : Option NetworkEnvelope → ServerNetworkHost E T → Round
  handle_polled none h = (h, false)
  handle_polled (some envelope) h = (
    (if not (is_accepted (validate_envelope envelope))
        then h
        else handle envelope.message_class envelope.payload h),
    true,
  )

  -- One round of the loop, and whether a message came.
  unfoldable pub pump_round : ServerNetworkHost E T → Round
  unfolding validate_envelope handle
  pump_round h =
      let (transport, found) = T.poll h.transport in
      handle_polled found (record h { transport = transport })

  -- At most so many rounds.
  unfoldable pub pump_client_messages : ℕ → ServerNetworkHost E T → ServerNetworkHost E T
  unfolding pump_round
  pump_client_messages zero h = h
  pump_client_messages (suc rounds) h =
      let (h', more) = pump_round h in
      let later = pump_client_messages rounds h' in if more then later else h'
