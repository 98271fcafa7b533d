-- ===== src/Game/Serialization/Acks.antt =====
-- NetworkEventAckDTO and SnapshotAckDTO of GameLogic/src/Serialization.cpp
use brawololo.Prelude.{ℕ, ◌≡◌, refl, ◌↔◌, Option, some, List, ◌++◌}
use brawololo.Wire.Bytes.{AreBytes}
use brawololo.Wire.Reader.{Read, ◌<$>◌, ◌<&>◌}
use brawololo.Wire.Codec.{IsCodec, map-IsCodec, ◌<⊗>◌}
use brawololo.Game.Types.{IsU32, IsU64}
use brawololo.Game.Replication.{SnapshotAckDto}
use brawololo.Game.NetworkEvents.{NetworkEventAckDto}
use brawololo.Game.BinaryIo.{
  DecodeError, read_pod, write_pod, read_signed, write_signed, read_bool, write_bool, deserialize,
  pod-IsCodec, deserialize_iff,
}

pub record EventAckFits (a : NetworkEventAckDto) : Type 0 where
  pub client_id : IsU32 a.client_id
  pub event_id : IsU32 a.event_id
  pub client_received_at_ms : IsU64 a.client_received_at_ms

unfoldable pub serialize_network_event_ack : NetworkEventAckDto → List ℕ
unfolding write_pod write_signed write_bool
serialize_network_event_ack ack =
    write_pod 4 ack.client_id ++ write_pod 4 ack.event_id ++ write_pod 8 ack.client_received_at_ms

abbrev network_event_ack_of : (ℕ × ℕ) × ℕ → NetworkEventAckDto
network_event_ack_of p = record { client_id = p.0.0; event_id = p.0.1; client_received_at_ms = p.1 }

abbrev read_network_event_ack : Read DecodeError NetworkEventAckDto
read_network_event_ack = network_event_ack_of <$> read_pod 4 <&> read_pod 4 <&> read_pod 8

unfoldable pub deserialize_network_event_ack : List ℕ → Option NetworkEventAckDto
unfolding deserialize read_pod read_signed read_bool ◌<$>◌ ◌<&>◌
deserialize_network_event_ack = deserialize read_network_event_ack

network_event_ack-IsCodec : IsCodec EventAckFits serialize_network_event_ack read_network_event_ack
unfolding serialize_network_event_ack
network_event_ack-IsCodec =
    map-IsCodec network_event_ack_of (λ c. ((c.client_id, c.event_id), c.client_received_at_ms))
      (λ c v. (((v.client_id, v.event_id), v.client_received_at_ms), refl))
      (λ p v. (record { client_id = v.0.0; event_id = v.0.1; client_received_at_ms = v.1 }, refl))
      (pod-IsCodec 4 <⊗> pod-IsCodec 4 <⊗> pod-IsCodec 8)

-- An event acknowledgement is decoded from a span of bytes exactly when its fields fit their widths
-- and the span is its encoding.
pub deserialize_network_event_ack_iff :
    (bytes : List ℕ) (ack : NetworkEventAckDto)
    → AreBytes bytes
    → (deserialize_network_event_ack bytes ≡ some ack)
      ↔ (EventAckFits ack × (bytes ≡ serialize_network_event_ack ack))
unfolding deserialize_network_event_ack
deserialize_network_event_ack_iff = deserialize_iff network_event_ack-IsCodec

pub record SnapshotAckFits (a : SnapshotAckDto) : Type 0 where
  pub client_id : IsU32 a.client_id
  pub snapshot_id : IsU32 a.snapshot_id
  pub baseline_id : IsU32 a.baseline_id
  pub acked_input_sequence : IsU32 a.acked_input_sequence
  pub client_received_at_ms : IsU64 a.client_received_at_ms

unfoldable pub serialize_snapshot_ack : SnapshotAckDto → List ℕ
unfolding write_pod write_signed write_bool
serialize_snapshot_ack ack =
    write_pod 4 ack.client_id
    ++ write_pod 4 ack.snapshot_id
    ++ write_pod 4 ack.baseline_id
    ++ write_pod 4 ack.acked_input_sequence
    ++ write_pod 8 ack.client_received_at_ms

abbrev snapshot_ack_of : (((ℕ × ℕ) × ℕ) × ℕ) × ℕ → SnapshotAckDto
snapshot_ack_of p = record {
  client_id = p.0.0.0.0;
  snapshot_id = p.0.0.0.1;
  baseline_id = p.0.0.1;
  acked_input_sequence = p.0.1;
  client_received_at_ms = p.1;
}

abbrev read_snapshot_ack : Read DecodeError SnapshotAckDto
read_snapshot_ack =
    snapshot_ack_of <$> read_pod 4 <&> read_pod 4 <&> read_pod 4 <&> read_pod 4 <&> read_pod 8

unfoldable pub deserialize_snapshot_ack : List ℕ → Option SnapshotAckDto
unfolding deserialize read_pod read_signed read_bool ◌<$>◌ ◌<&>◌
deserialize_snapshot_ack = deserialize read_snapshot_ack

snapshot_ack-IsCodec : IsCodec SnapshotAckFits serialize_snapshot_ack read_snapshot_ack
unfolding serialize_snapshot_ack
snapshot_ack-IsCodec =
    map-IsCodec snapshot_ack_of
      (λ c. (
        (((c.client_id, c.snapshot_id), c.baseline_id), c.acked_input_sequence),
        c.client_received_at_ms,
      ))
      (λ c v. (
        (
          (((v.client_id, v.snapshot_id), v.baseline_id), v.acked_input_sequence),
          v.client_received_at_ms,
        ),
        refl,
      ))
      (λ p v. (
        record {
          client_id = v.0.0.0.0;
          snapshot_id = v.0.0.0.1;
          baseline_id = v.0.0.1;
          acked_input_sequence = v.0.1;
          client_received_at_ms = v.1;
        },
        refl,
      ))
      (pod-IsCodec 4 <⊗> pod-IsCodec 4 <⊗> pod-IsCodec 4 <⊗> pod-IsCodec 4 <⊗> pod-IsCodec 8)

-- A snapshot acknowledgement is decoded from a span of bytes exactly when its fields fit their
-- widths and the span is its encoding.
pub deserialize_snapshot_ack_iff :
    (bytes : List ℕ) (ack : SnapshotAckDto)
    → AreBytes bytes
    → (deserialize_snapshot_ack bytes ≡ some ack)
      ↔ (SnapshotAckFits ack × (bytes ≡ serialize_snapshot_ack ack))
unfolding deserialize_snapshot_ack
deserialize_snapshot_ack_iff = deserialize_iff snapshot_ack-IsCodec
