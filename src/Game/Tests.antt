-- ===== src/Game/Tests.antt =====
-- The formats of GameLogic/src/Serialization.cpp at concrete messages, with what their theorems say there.
use brawololo.Prelude.{
  ◌≡◌, ◌↔◌, refl, true, false, none, some, [], ◌∷◌, ◌++◌, length, ◌≤◌, ◌+◌, arith,
}
use brawololo.Prelude.Int.{pos, negsuc, ◌+ℤ◌, ◌-ℤ◌, ◌*ℤ◌}
use brawololo.Wire.Bytes.{are_bytes→AreBytes, to_le, from_le}
use brawololo.Wire.Ints.{write_int, to_twos, read_int, from_twos}
use brawololo.Wire.Reader.{read_uint}
use brawololo.Game.Weapons.{WeaponType}
use brawololo.Game.Commands.{LoginCommand, ClientInputPacket}
use brawololo.Game.TimeSync.{
  TimeSyncRequest, TimeSyncResponse, TimeSyncSample, create_clock, record_sample,
}
use brawololo.Game.TimeSync.Smoothing.{record_all, IsWithin, record_all-create_clock-IsWithin}
use brawololo.Game.Events.{DomainEvent}
use brawololo.Game.NetworkEvents.{
  NetworkEventPayloadDto, NetworkEventDto, NetworkEventAckDto, to_network_event_dto,
  to_domain_event,
}
use brawololo.Game.NetworkEvents.Conversion.{to_network_event_dto_iff}
use brawololo.Game.NetworkProtocol.{NetworkEnvelope, NetworkChannel, MessageClass}
use brawololo.Game.Replication.{
  SnapshotDto, EntityStateDto, SnapshotAckDto, MovementStateDto, SnapshotPriority,
  ReplicatedEntityKind, SnapshotDeliveryKind,
}
use brawololo.Game.Serialization.Commands.{
  InputFits, serialize_client_input_packet, deserialize_client_input_packet,
  deserialize_client_input_packet_iff,
}
use brawololo.Game.Serialization.TimeSync.{
  ResponseFits, serialize_time_sync_response, deserialize_time_sync_response,
  deserialize_time_sync_response_iff,
}
use brawololo.Game.Serialization.Parts.{
  read_weapon_type, read_replicated_entity_kind, read_snapshot_priority,
}
use brawololo.Game.BinaryIo.{DecodeError, write_pod}
use brawololo.Game.Serialization.Counts.{read_entity_count_iff}
use brawololo.Game.Serialization.Snapshot.{
  read_entity_count, SnapshotFits, serialize_snapshot, deserialize_snapshot,
  deserialize_snapshot_iff,
}
use brawololo.Game.Serialization.Events.{
  NetworkEventFits, serialize_network_event, deserialize_network_event,
  deserialize_network_event_iff,
}

abbrev standing : MovementStateDto
standing = record {
  entity_id = 7;
  x = pos 2560;
  y = negsuc 255;
  vx = pos 0;
  vy = negsuc 0;
  aim_x = pos 1;
  aim_y = negsuc 0;
}

abbrev pub archer : EntityStateDto
archer = record {
  movement = standing;
  combat = some (record {
    entity_id = 7;
    health = pos 65;
    max_health = pos 100;
    weapon_type = WeaponType.bow;
    weapon_warming = true;
    weapon_warmup_completes_at_ms = 1300;
    defeated = false;
    respawn_at_ms = 0;
    server_owned_projectile = false;
    projectile_owner_id = 0;
  });
  replication = record {
    entity_id = 7;
    owner_client_id = 3;
    kind = ReplicatedEntityKind.player;
    priority = SnapshotPriority.high;
  };
}

abbrev pub arrow : EntityStateDto
arrow = record {
  movement = record standing { entity_id = 8 };
  combat = none;
  replication = record {
    entity_id = 8;
    owner_client_id = 3;
    kind = ReplicatedEntityKind.projectile;
    priority = SnapshotPriority.medium;
  };
}

abbrev pub duel : SnapshotDto
duel = record {
  snapshot_id = 12;
  baseline_id = 11;
  delivery_kind = SnapshotDeliveryKind.delta_eligible;
  server_tick = 400;
  server_time_ms = 20000;
  acked_input_sequence = 9;
  entities = archer ∷ arrow ∷ [];
}

-- One arrow in flight.
abbrev pub volley : SnapshotDto
volley = record duel { entities = arrow ∷ [] }

volley-decoded : deserialize_snapshot (serialize_snapshot volley) ≡ some volley
unfolding deserialize_snapshot serialize_snapshot to_le write_int to_twos read_uint from_le read_int
    from_twos read_weapon_type read_replicated_entity_kind read_snapshot_priority
volley-decoded = refl

deserialize_snapshot_iff_example :
    (deserialize_snapshot (serialize_snapshot duel) ≡ some duel)
    ↔ (SnapshotFits duel × (serialize_snapshot duel ≡ serialize_snapshot duel))
unfolding serialize_snapshot to_le write_int to_twos
deserialize_snapshot_iff_example =
    deserialize_snapshot_iff (serialize_snapshot duel) duel
      (are_bytes→AreBytes (serialize_snapshot duel) refl)

-- Two entities need 70 bytes.
read_entity_count_iff_example :
    ((read_entity_count (record {
      unread = write_pod 4 2 ++ serialize_snapshot volley;
      error = DecodeError.no_error;
    })).0
      ≡ some 2)
    ↔ (70 ≤ 4 + length (serialize_snapshot volley))
read_entity_count_iff_example = read_entity_count_iff 2 (serialize_snapshot volley) (omega arith)

abbrev pub hit : NetworkEventDto
hit = record {
  event_id = 5;
  server_tick = 400;
  server_time_ms = 20000;
  payload = NetworkEventPayloadDto.player_damaged 7 9 (pos 35) (negsuc 4);
}

deserialize_network_event_iff_example :
    (deserialize_network_event (serialize_network_event hit) ≡ some hit)
    ↔ (NetworkEventFits hit × (serialize_network_event hit ≡ serialize_network_event hit))
unfolding serialize_network_event to_le write_int to_twos
deserialize_network_event_iff_example =
    deserialize_network_event_iff (serialize_network_event hit) hit
      (are_bytes→AreBytes (serialize_network_event hit) refl)

abbrev login : LoginCommand
login = record { header = record { client_id = 3; sequence = 1; client_timestamp_ms = 65536 } }

abbrev running : ClientInputPacket
running = record {
  header = record { client_id = 3; sequence = 1; client_timestamp_ms = 65536 };
  input = record {
    move_x = negsuc 0;
    move_y = pos 1;
    aim_x = pos 300;
    aim_y = negsuc 299;
    fire = true;
  };
}

deserialize_client_input_packet_iff_example :
    (deserialize_client_input_packet (serialize_client_input_packet running) ≡ some running) ↔ (
      InputFits running
      × (serialize_client_input_packet running ≡ serialize_client_input_packet running))
unfolding serialize_client_input_packet to_le write_int to_twos
deserialize_client_input_packet_iff_example =
    deserialize_client_input_packet_iff (serialize_client_input_packet running) running
      (are_bytes→AreBytes (serialize_client_input_packet running) refl)

abbrev asked : TimeSyncRequest
asked = record { client_id = 3; sequence = 2; client_sent_at_ms = 100 }

abbrev answered : TimeSyncResponse
answered = record {
  client_id = 3;
  sequence = 2;
  client_sent_at_ms = 100;
  server_received_at_ms = 4294967296;
  server_sent_at_ms = 4294967297;
}

deserialize_time_sync_response_iff_example :
    (deserialize_time_sync_response (serialize_time_sync_response answered) ≡ some answered) ↔ (
      ResponseFits answered
      × (serialize_time_sync_response answered ≡ serialize_time_sync_response answered))
unfolding serialize_time_sync_response to_le write_int to_twos
deserialize_time_sync_response_iff_example =
    deserialize_time_sync_response_iff (serialize_time_sync_response answered) answered
      (are_bytes→AreBytes (serialize_time_sync_response answered) refl)

abbrev event_seen : NetworkEventAckDto
event_seen = record { client_id = 3; event_id = 5; client_received_at_ms = 20040 }

abbrev snapshot_seen : SnapshotAckDto
snapshot_seen = record {
  client_id = 3;
  snapshot_id = 12;
  baseline_id = 11;
  acked_input_sequence = 9;
  client_received_at_ms = 20040;
}

to_network_event_dto_iff_example :
    (to_network_event_dto 5 400 20000 (DomainEvent.player_damaged 7 9 (pos 35) (negsuc 4))
      ≡ some hit)
    ↔ ((to_domain_event hit ≡ some (DomainEvent.player_damaged 7 9 (pos 35) (negsuc 4)))
        × (hit.event_id ≡ 5)
        × (hit.server_tick ≡ 400)
        × (hit.server_time_ms ≡ 20000))
to_network_event_dto_iff_example =
    to_network_event_dto_iff 5 400 20000 (DomainEvent.player_damaged 7 9 (pos 35) (negsuc 4)) hit

abbrev pub greeting : NetworkEnvelope
greeting = record {
  protocol_version = 1;
  peer_id = 3;
  channel = NetworkChannel.login_spawn;
  message_class = MessageClass.login_request;
  sequence = 1;
  payload = 1 ∷ 2 ∷ [];
}

-- A sample with a round trip of 40 ms and an offset of 880 ms, and one with 80 and 900.
abbrev near : TimeSyncSample
near = record { client_sent_at_ms = 100; server_received_at_ms = 1000; client_received_at_ms = 140 }

abbrev far : TimeSyncSample
far = record { client_sent_at_ms = 200; server_received_at_ms = 1140; client_received_at_ms = 280 }

record_all-create_clock-IsWithin_example :
    IsWithin (pos 880) (pos 900) 80 (record_all (near ∷ far ∷ []) create_clock)
unfolding ◌-ℤ◌
record_all-create_clock-IsWithin_example =
    record_all-create_clock-IsWithin (pos 880) (pos 900) 80 near (far ∷ [])
      (record { offset_low = omega arith; offset_high = omega arith; rtt = omega arith })
      (record { offset_low = omega arith; offset_high = omega arith; rtt = omega arith }, tt)

near-far : record_all (near ∷ far ∷ []) create_clock ≡ record {
  server_offset_ms = pos 882;
  rtt_ms = 45;
  interpolation_delay_ms = 72;
  has_sample = true;
}
unfolding record_sample ◌-ℤ◌ ◌+ℤ◌ ◌*ℤ◌
near-far = refl
