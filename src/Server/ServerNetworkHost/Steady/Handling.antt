-- ===== src/Server/ServerNetworkHost/Steady/Handling.antt =====
-- The same for the handlers of Server/src/ServerNetworkHost.cpp and PumpClientMessages.
use brawololo.Prelude.{
  ℕ, zero, suc, ◌≡◌, refl, ap, true, not, Option, none, some, List, [], ◌∷◌, All, All-append,
  if-elim,
}
use brawololo.Prelude.Maps.{lookup, lookup-assign}
use brawololo.Prelude.Sets.{contains}
use brawololo.Game.Types.{ClientId, TimestampMs}
use brawololo.Game.Commands.{LoginCommand, ClientInputPacket}
use brawololo.Game.Components.{has}
use brawololo.Game.Replication.{SnapshotAckDto}
use brawololo.Game.NetworkEvents.{NetworkEventAckDto}
use brawololo.Game.TimeSync.{TimeSyncRequest}
use brawololo.Game.NetworkProtocol.{
  MessageClass, NetworkEnvelope, validate_envelope, expected_channel_for,
}
use brawololo.Game.SnapshotBaselineCache.{find}
use brawololo.Game.Simulation.Registry.{Entt}
use brawololo.Net.Transport.{Transport}
use brawololo.Net.KcpRtcTransport.{is_accepted}
use brawololo.Server.ServerClientReplicationState.{
  ServerClientReplicationState, create_state, acknowledge_snapshot, acknowledge_reliable_event,
}
use brawololo.Server.ServerRuntime.{connect_client, submit}
use brawololo.Server.ServerNetworkHost.{ServerNetworkHost, state_of_client}
use brawololo.Server.ServerNetworkHost.Receiving.{
  emplace_state, add_client, count_login, handle_login, handle_input, acknowledge_found,
  handle_snapshot_ack, acknowledge_event_found, handle_network_event_ack, time_sync_envelope,
  handle_time_sync, handle, handle_polled, pump_round, pump_client_messages,
}
use brawololo.Server.ServerNetworkHost.Ticking.{connect_simulation_only_client}
use brawololo.Server.ServerNetworkHost.Steady.{
  IsRouted, IsKept, IsSteady, put_state-IsSteady, sent-IsSteady, summary-IsSteady,
}

time_sync_envelope-IsRouted :
    (request : TimeSyncRequest) (now : TimestampMs) → IsRouted (time_sync_envelope request now)
unfolding time_sync_envelope expected_channel_for
time_sync_envelope-IsRouted request now = record { version = refl; channel = refl }

module _ (E : Entt) (T : Transport) (P : T.State → Type 0) where
  abbrev Steady : ServerNetworkHost E T → Type 0
  Steady = IsSteady E T P

  emplace_state_known :
      (id : ClientId) (h : ServerNetworkHost E T)
      → Steady h
      → P (emplace_state E T id h).transport
        × All (λ j. has (state_of_client E T j (emplace_state E T id h)) ≡ true) h.clients
        × (has (state_of_client E T id (emplace_state E T id h)) ≡ true)
  emplace_state_known id h s =
      let put = put_state-IsSteady E T P id (create_state id) h s in
      if-elim
        (λ (g : ServerNetworkHost E T).
          P g.transport
          × All (λ j. has (state_of_client E T j g) ≡ true) h.clients
          × (has (state_of_client E T id g) ≡ true))
        (has (state_of_client E T id h)) _ _ (λ here. (s.told, s.known, here))
        (λ _. (s.told, put.known, ap has (lookup-assign id (create_state id) h.client_state_by_id)))

  add_client-Steady :
      (id : ClientId) (h : ServerNetworkHost E T) → Steady h → Steady (add_client E T id h)
  add_client-Steady id h s =
      let (told, others, here) = emplace_state_known id h s in
      record {
        told = told;
        connected = refl;
        snapshots = s.snapshots;
        resent = s.resent;
        known = All-append _ h.clients (id ∷ []) others (here, tt);
      }

  handle_login-Steady :
      (o : Option LoginCommand) (h : ServerNetworkHost E T)
      → Steady h
      → Steady (handle_login E T o h)
  handle_login-Steady none h s = s
  handle_login-Steady (some login) h s =
      let id = login.header.client_id in
      let result = connect_client E id login.header.client_timestamp_ms h.runtime in
      let connected : Steady (record (count_login E T h) { runtime = result.0 }) =
        summary-IsSteady E T P _ _ refl s in
      if-elim Steady (not result.1) _ _ (λ _. connected)
        (λ _.
          if-elim Steady (contains id h.clients) _ _ (λ _. connected)
            (λ _. add_client-Steady id _ connected))

  handle_input-Steady :
      (o : Option ClientInputPacket) (h : ServerNetworkHost E T)
      → Steady h
      → Steady (handle_input E T o h)
  handle_input-Steady none h s = s
  handle_input-Steady (some packet) h s =
      if-elim Steady (submit E packet h.runtime).1 _ _ (λ _. summary-IsSteady E T P _ _ refl s)
        (λ _. summary-IsSteady E T P _ _ refl s)

  acknowledge_found-Steady :
      (ack : SnapshotAckDto) (o : Option ServerClientReplicationState) (h : ServerNetworkHost E T)
      → Steady h
      → Steady (acknowledge_found E T ack o h)
  acknowledge_found-Steady ack none h s = summary-IsSteady E T P _ _ refl s
  acknowledge_found-Steady ack (some state) h s =
      let put =
        put_state-IsSteady E T P ack.client_id (acknowledge_snapshot ack.snapshot_id state).0 h s in
      if-elim Steady (not (has (find ack.client_id ack.snapshot_id h.baseline_cache))) _ _
        (λ _. summary-IsSteady E T P _ _ refl s)
        (λ _.
          if-elim Steady (not (acknowledge_snapshot ack.snapshot_id state).1) _ _
            (λ _. summary-IsSteady E T P _ _ refl s) (λ _. summary-IsSteady E T P _ _ refl put))

  acknowledge_event_found-Steady :
      (ack : NetworkEventAckDto) (o : Option ServerClientReplicationState)
      (h : ServerNetworkHost E T)
      → Steady h
      → Steady (acknowledge_event_found E T ack o h)
  acknowledge_event_found-Steady ack none h s = summary-IsSteady E T P _ _ refl s
  acknowledge_event_found-Steady ack (some state) h s =
      let result = acknowledge_reliable_event ack.event_id state in
      let put = put_state-IsSteady E T P ack.client_id result.0 h s in
      if-elim Steady (not result.1) _ _ (λ _. summary-IsSteady E T P _ _ refl put)
        (λ _. summary-IsSteady E T P _ _ refl put)

  handle_snapshot_ack-Steady :
      (o : Option SnapshotAckDto) (h : ServerNetworkHost E T)
      → Steady h
      → Steady (handle_snapshot_ack E T o h)
  handle_snapshot_ack-Steady none h s = s
  handle_snapshot_ack-Steady (some ack) h s = acknowledge_found-Steady ack _ h s

  handle_network_event_ack-Steady :
      (o : Option NetworkEventAckDto) (h : ServerNetworkHost E T)
      → Steady h
      → Steady (handle_network_event_ack E T o h)
  handle_network_event_ack-Steady none h s = s
  handle_network_event_ack-Steady (some ack) h s = acknowledge_event_found-Steady ack _ h s

  pub connect-Steady :
      (id : ClientId) (now : TimestampMs) (h : ServerNetworkHost E T)
      → Steady h
      → Steady (connect_simulation_only_client E T id now h).0
  unfolding connect_simulation_only_client
  connect-Steady id now h s = summary-IsSteady E T P _ _ refl s

  module _ (kept : IsKept T P) where
    handle_time_sync-Steady :
        (o : Option TimeSyncRequest) (h : ServerNetworkHost E T)
        → Steady h
        → Steady (handle_time_sync E T o h)
    handle_time_sync-Steady none h s = s
    handle_time_sync-Steady (some request) h s =
        let e = time_sync_envelope request h.runtime.simulation.time_ms in
        let told =
          sent-IsSteady E T P (T.send e h.transport).0 h
            (kept.by_send e h.transport (time_sync_envelope-IsRouted request _) s.told) s in
        if-elim Steady (T.send e h.transport).1 _ _ (λ _. summary-IsSteady E T P _ _ refl told)
          (λ _. summary-IsSteady E T P _ _ refl told)

    handle-Steady :
        (class : MessageClass) (payload : List ℕ) (h : ServerNetworkHost E T)
        → Steady h
        → Steady (handle E T class payload h)
    unfolding handle lookup
    handle-Steady MessageClass.login_request payload h s = handle_login-Steady _ h s
    handle-Steady MessageClass.client_input payload h s = handle_input-Steady _ h s
    handle-Steady MessageClass.snapshot_ack payload h s = handle_snapshot_ack-Steady _ h s
    handle-Steady MessageClass.network_event_ack payload h s = handle_network_event_ack-Steady _ h s
    handle-Steady MessageClass.time_sync_request payload h s = handle_time_sync-Steady _ h s
    handle-Steady _ payload h s = s

    handle_polled-Steady :
        (o : Option NetworkEnvelope) (h : ServerNetworkHost E T)
        → Steady h
        → Steady (handle_polled E T o h).0
    handle_polled-Steady none h s = s
    handle_polled-Steady (some e) h s =
        if-elim Steady (not (is_accepted (validate_envelope e))) _ _ (λ _. s)
          (λ _. handle-Steady e.message_class e.payload h s)

    pub pump_client_messages-Steady :
        (rounds : ℕ) (h : ServerNetworkHost E T)
        → Steady h
        → Steady (pump_client_messages E T rounds h)
    unfolding pump_client_messages pump_round
    pump_client_messages-Steady zero h s = s
    pump_client_messages-Steady (suc rounds) h s =
        let polled = T.poll h.transport in
        let first =
          handle_polled-Steady polled.1 _
            (sent-IsSteady E T P polled.0 h (kept.by_poll h.transport s.told) s) in
        if-elim Steady (pump_round E T h).1 _ _ (λ _. pump_client_messages-Steady rounds _ first)
          (λ _. first)
