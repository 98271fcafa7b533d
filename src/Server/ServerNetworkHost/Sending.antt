-- ===== src/Server/ServerNetworkHost/Sending.antt =====
-- Server/src/ServerNetworkHost.cpp: SendReliableEvent, BroadcastReliableEvents, SendInterestEvents and
-- ResendPendingReliableEvents.
use brawololo.Prelude.{
  ◌+◌, Bool, true, false, Option, none, some, List, [], ◌∷◌, ◌==◌, if◌then◌else◌,
}
use brawololo.Prelude.Maps.{lookup, assign}
use brawololo.Game.Types.{ClientId, NetworkEntityId, TimestampMs}
use brawololo.Game.Events.{DomainEvent, entity_entered_interest, entity_left_interest}
use brawololo.Game.NetworkEvents.{
  NetworkEventKind, NetworkEventPayloadDto, NetworkEventDto, kind_for_network_event,
  to_network_event_dto,
}
use brawololo.Game.NetworkProtocol.{NetworkChannel, MessageClass, NetworkEnvelope, protocol_version}
use brawololo.Game.Serialization.Events.{serialize_network_event}
use brawololo.Game.InterestManagement.{InterestFrame}
use brawololo.Game.Simulation.Registry.{Entt}
use brawololo.Net.Transport.{Transport}
use brawololo.Server.ServerClientReplicationState.{
  ServerClientReplicationState, track_reliable_event, reliable_events_due_for_resend,
}
use brawololo.Server.ServerNetworkHost.{
  ServerNetworkHost, state_of_client, put_state, next_event_id,
}

-- The channel and the class for a kind of event.
abbrev pub route_of : NetworkEventKind → NetworkChannel × MessageClass
route_of NetworkEventKind.player_spawned = (NetworkChannel.login_spawn, MessageClass.spawn_accepted)
route_of NetworkEventKind.entity_entered_interest =
    (NetworkChannel.login_spawn, MessageClass.interest_event)
route_of NetworkEventKind.entity_left_interest =
    (NetworkChannel.login_spawn, MessageClass.interest_event)
route_of NetworkEventKind.weapon_warmup_started =
    (NetworkChannel.combat_events, MessageClass.combat_event)
route_of NetworkEventKind.bow_fired = (NetworkChannel.combat_events, MessageClass.combat_event)
route_of NetworkEventKind.projectile_spawned =
    (NetworkChannel.combat_events, MessageClass.combat_event)
route_of NetworkEventKind.hit_confirmed = (NetworkChannel.combat_events, MessageClass.combat_event)
route_of NetworkEventKind.player_damaged = (NetworkChannel.combat_events, MessageClass.combat_event)
route_of NetworkEventKind.player_died = (NetworkChannel.combat_events, MessageClass.combat_event)
route_of NetworkEventKind.player_respawned =
    (NetworkChannel.combat_events, MessageClass.combat_event)

unfoldable pub event_envelope : ClientId → NetworkEventDto → NetworkEnvelope
unfolding kind_for_network_event serialize_network_event
event_envelope client_id event =
    let route = route_of (kind_for_network_event event.payload) in
    record {
      protocol_version = protocol_version;
      peer_id = client_id;
      channel = route.0;
      message_class = route.1;
      sequence = event.event_id;
      payload = serialize_network_event event;
    }

-- The one client that an event of interest is for.
unfoldable pub observer_only : NetworkEventPayloadDto → Option ClientId
observer_only (NetworkEventPayloadDto.entity_entered_interest _ observer) = some observer
observer_only (NetworkEventPayloadDto.entity_left_interest _ observer) = some observer
observer_only _ = none

abbrev pub is_for : ClientId → Option ClientId → Bool
is_for client_id none = true
is_for client_id (some observer) = observer == client_id

module _ (E : Entt) (T : Transport) where
  abbrev pub track_found :
      ClientId
      → NetworkEventDto
      → TimestampMs
      → Option ServerClientReplicationState
      → ServerNetworkHost E T
      → ServerNetworkHost E T
  track_found client_id event now none h = h
  track_found client_id event now (some state) h =
      put_state E T client_id (track_reliable_event event now state) h

  abbrev pub count_event : Bool → ServerNetworkHost E T → ServerNetworkHost E T
  count_event is_resend h = record h {
    stats = record h.stats {
      reliable_events_sent = h.stats.reliable_events_sent + 1;
      reliable_events_resent =
          if is_resend then h.stats.reliable_events_resent + 1 else h.stats.reliable_events_resent;
    };
  }

  unfoldable pub send_reliable_event :
      ClientId
      → NetworkEventDto
      → TimestampMs
      → Bool
      → ServerNetworkHost E T
      → ServerNetworkHost E T
  unfolding lookup assign event_envelope track_reliable_event
  send_reliable_event client_id event now is_resend h =
      let (transport, sent) = T.send (event_envelope client_id event) h.transport in
      let told = record h { transport = transport } in
      if sent
      then count_event is_resend
          (track_found client_id event now (state_of_client E T client_id told) told)
      else told

  unfoldable pub send_to_clients :
      List ClientId → NetworkEventDto → TimestampMs → ServerNetworkHost E T → ServerNetworkHost E T
  unfolding observer_only send_reliable_event
  send_to_clients [] event now h = h
  send_to_clients (client_id ∷ rest) event now h = send_to_clients rest event now (
      if is_for client_id (observer_only event.payload)
      then send_reliable_event client_id event now false h
      else h)

  abbrev pub send_converted :
      List ClientId
      → Option NetworkEventDto
      → TimestampMs
      → ServerNetworkHost E T
      → ServerNetworkHost E T
  send_converted clients none now h = h
  send_converted clients (some event) now h = send_to_clients clients event now h

  -- ToNetworkEventDTO with the next event id, at the tick and the time of the simulation.
  abbrev pub next_network_event : DomainEvent → ServerNetworkHost E T → Option NetworkEventDto
  next_network_event event h =
      to_network_event_dto h.next_network_event_id h.runtime.simulation.tick
        h.runtime.simulation.time_ms event

  abbrev pub take_event_id : ServerNetworkHost E T → ServerNetworkHost E T
  take_event_id h = record h { next_network_event_id = next_event_id h.next_network_event_id }

  unfoldable pub broadcast_reliable_events :
      List DomainEvent → TimestampMs → ServerNetworkHost E T → ServerNetworkHost E T
  unfolding send_to_clients to_network_event_dto
  broadcast_reliable_events [] now h = h
  broadcast_reliable_events (event ∷ rest) now h =
      broadcast_reliable_events rest now
        (send_converted h.clients (next_network_event event h) now (take_event_id h))

  abbrev pub send_found :
      ClientId
      → Option NetworkEventDto
      → TimestampMs
      → ServerNetworkHost E T
      → ServerNetworkHost E T
  send_found client_id none now h = h
  send_found client_id (some event) now h = send_reliable_event client_id event now false h

  -- One loop of SendInterestEvents, with the event that it makes of an entity.
  unfoldable pub send_interest :
      (NetworkEntityId → DomainEvent)
      → ClientId
      → List NetworkEntityId
      → TimestampMs
      → ServerNetworkHost E T
      → ServerNetworkHost E T
  unfolding send_reliable_event to_network_event_dto
  send_interest make client_id [] now h = h
  send_interest make client_id (entity_id ∷ rest) now h =
      send_interest make client_id rest now
        (send_found client_id (next_network_event (make entity_id) h) now (take_event_id h))

  unfoldable pub send_interest_events :
      ClientId → InterestFrame → TimestampMs → ServerNetworkHost E T → ServerNetworkHost E T
  unfolding send_interest
  send_interest_events client_id frame now h =
      send_interest (λ id. entity_left_interest id client_id) client_id frame.exited now
        (send_interest (λ id. entity_entered_interest id client_id) client_id frame.entered now h)

  unfoldable pub resend_events :
      ClientId → List NetworkEventDto → TimestampMs → ServerNetworkHost E T → ServerNetworkHost E T
  unfolding send_reliable_event
  resend_events client_id [] now h = h
  resend_events client_id (event ∷ rest) now h =
      resend_events client_id rest now (send_reliable_event client_id event now true h)

  abbrev pub resend_found :
      ClientId
      → Option ServerClientReplicationState
      → TimestampMs
      → ServerNetworkHost E T
      → ServerNetworkHost E T
  resend_found client_id none now h = h
  resend_found client_id (some state) now h =
      resend_events client_id
        (reliable_events_due_for_resend now h.config.reliable_event_resend_base_interval_ms
          h.config.reliable_event_max_send_count state)
        now h

  -- The loop over the map, whose entries are changed in place.
  unfoldable pub resend_each :
      List (ClientId × ServerClientReplicationState)
      → TimestampMs
      → ServerNetworkHost E T
      → ServerNetworkHost E T
  unfolding lookup resend_events reliable_events_due_for_resend
  resend_each [] now h = h
  resend_each (entry ∷ rest) now h =
      resend_each rest now (resend_found entry.0 (state_of_client E T entry.0 h) now h)

  abbrev pub resend_pending_reliable_events :
      TimestampMs → ServerNetworkHost E T → ServerNetworkHost E T
  resend_pending_reliable_events now h = resend_each h.client_state_by_id now h
