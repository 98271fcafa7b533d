-- ===== src/Game/Serialization/Snapshot.antt =====
-- SerializeSnapshot and DeserializeSnapshot of GameLogic/src/Serialization.cpp
use brawololo.Prelude.{
  ℕ, ◌*◌, ◌/◌, ◌≤◌, ◌≡◌, refl, ap, sym, ◌↔◌, Option, some, List, [], ◌∷◌, ◌++◌, length,
  length-append, All, arith,
}
use brawololo.Wire.Bytes.{AreBytes, to_le}
use brawololo.Wire.Reader.{Read, ◌<$>◌, ◌<&>◌, ◌>>=◌}
use brawololo.Wire.Codec.{IsCodec, embed-IsCodec, ◌<⊗>◌}
use brawololo.Wire.Repeat.{write_all, read_times, times-IsCodec}
use brawololo.Wire.Bind.{IsHead, bind_head-IsCodec, last-IsHead}
use brawololo.Game.Types.{IsU32, IsU64}
use brawololo.Game.Replication.{
  SnapshotDeliveryKind, EntityStateDto, SnapshotDto, delivery_code, delivery_cast, delivery-IsEnum,
}
use brawololo.Game.BinaryIo.{
  DecodeError, read_pod, write_pod, read_enum, write_enum, read_count, deserialize, pod-IsCodec,
  enum-IsCodec, count-IsCodec, deserialize_iff, deserialize-write,
}
use brawololo.Game.Serialization.Entities.{
  EntityFits, write_entity, read_entity, entity-IsCodec, min_serialized_entity_bytes,
  length-write_entity,
}

pub record SnapshotFits (s : SnapshotDto) : Type 0 where
  pub snapshot_id : IsU32 s.snapshot_id
  pub baseline_id : IsU32 s.baseline_id
  pub server_tick : IsU64 s.server_tick
  pub server_time_ms : IsU64 s.server_time_ms
  pub acked_input_sequence : IsU32 s.acked_input_sequence
  pub entity_count : IsU32 (length s.entities)
  pub entities : All EntityFits s.entities

unfoldable pub serialize_snapshot : SnapshotDto → List ℕ
unfolding write_pod write_entity
serialize_snapshot snapshot =
    write_pod 4 snapshot.snapshot_id
    ++ write_pod 4 snapshot.baseline_id
    ++ write_enum delivery_code snapshot.delivery_kind
    ++ write_pod 8 snapshot.server_tick
    ++ write_pod 8 snapshot.server_time_ms
    ++ write_pod 4 snapshot.acked_input_sequence
    ++ write_pod 4 (length snapshot.entities)
    ++ write_all write_entity snapshot.entities

unfoldable pub read_snapshot_delivery_kind : Read DecodeError SnapshotDeliveryKind
unfolding read_enum
read_snapshot_delivery_kind = read_enum 1 delivery_cast

-- The argument of ReadCount is computed before the count is read.
unfoldable pub read_entity_count : Read DecodeError ℕ
unfolding read_count
read_entity_count reader = read_count (length reader.unread / min_serialized_entity_bytes) reader

abbrev Head : Type 0
Head = (((((ℕ × ℕ) × SnapshotDeliveryKind) × ℕ) × ℕ) × ℕ) × ℕ

abbrev snapshot_of : Head → List EntityStateDto → SnapshotDto
snapshot_of h entities = record {
  snapshot_id = h.0.0.0.0.0.0;
  baseline_id = h.0.0.0.0.0.1;
  delivery_kind = h.0.0.0.0.1;
  server_tick = h.0.0.0.1;
  server_time_ms = h.0.0.1;
  acked_input_sequence = h.0.1;
  entities = entities;
}

abbrev head_of : SnapshotDto → Head
head_of s = (
  (
    ((((s.snapshot_id, s.baseline_id), s.delivery_kind), s.server_tick), s.server_time_ms),
    s.acked_input_sequence,
  ),
  length s.entities,
)

unfoldable pub read_snapshot : Read DecodeError SnapshotDto
unfolding read_pod read_snapshot_delivery_kind read_entity_count read_times read_entity ◌<$>◌ ◌<&>◌
    ◌>>=◌
read_snapshot =
    read_pod 4
      <&> read_pod 4
      <&> read_snapshot_delivery_kind
      <&> read_pod 8
      <&> read_pod 8
      <&> read_pod 4
      <&> read_entity_count
    >>= λ head. snapshot_of head <$> read_times head.1 read_entity

unfoldable pub deserialize_snapshot : List ℕ → Option SnapshotDto
unfolding deserialize read_snapshot
deserialize_snapshot = deserialize read_snapshot

delivery-IsCodec : IsCodec (λ k. Unit {0}) (write_enum delivery_code) read_snapshot_delivery_kind
unfolding read_snapshot_delivery_kind
delivery-IsCodec = enum-IsCodec (omega arith) delivery-IsEnum

-- Every entity takes its share of the bytes.
length-write_all :
    (es : List EntityStateDto)
    → min_serialized_entity_bytes * length es ≤ length (write_all write_entity es)
length-write_all [] = omega arith
length-write_all (e ∷ es) =
    omega (arith, length-append {0}, length-write_entity e, length-write_all es)

-- The count is accepted if the bytes that follow it can hold that many entities.
abbrev Room : ℕ → List ℕ → Type 0
Room n rest = min_serialized_entity_bytes * n ≤ length rest

count-IsHead : IsHead Room IsU32 (write_pod 4) read_entity_count
unfolding read_entity_count write_pod to_le
count-IsHead = record {
  decodes = λ n rest e v room.
      (count-IsCodec _).decodes n rest e
        (v, ground (arith, length-append {0} (write_pod 4 n) rest));
  exact = λ r n bytes h.
      let (v, split, kept) = (count-IsCodec _).exact r n bytes h in (v.0, split, kept);
}

snapshot-IsCodec : IsCodec SnapshotFits serialize_snapshot read_snapshot
unfolding serialize_snapshot read_snapshot
snapshot-IsCodec =
    bind_head-IsCodec head_of
      (λ s v. (
        (
          ((((v.snapshot_id, v.baseline_id), tt), v.server_tick), v.server_time_ms),
          v.acked_input_sequence,
        ),
        v.entity_count,
      ))
      (λ s rest v. omega (arith, length-append {0}, length-write_all s.entities))
      (last-IsHead
        (pod-IsCodec 4
          <⊗> pod-IsCodec 4
          <⊗> delivery-IsCodec
          <⊗> pod-IsCodec 8
          <⊗> pod-IsCodec 8
          <⊗> pod-IsCodec 4)
        count-IsHead)
      λ head v.
        embed-IsCodec (snapshot_of head)
          (λ s w. (
            s.entities,
            (w.0.entities, ap (λ h. h.1) w.1),
            λ i. snapshot_of (sym w.1 i) s.entities,
          ))
          (λ es w. (
            (
              record {
                snapshot_id = v.0.0.0.0.0.0;
                baseline_id = v.0.0.0.0.0.1;
                server_tick = v.0.0.0.1;
                server_time_ms = v.0.0.1;
                acked_input_sequence = v.0.1;
                entity_count = rw w.1 v.1;
                entities = w.0;
              },
              λ i. (head.0, w.1 i),
            ),
            refl,
          ))
          (times-IsCodec entity-IsCodec head.1)

-- A snapshot is decoded from a span of bytes exactly when its fields, its entities and their number
-- fit their widths and the span is its encoding; the limit on the entity count refuses none of these.
pub deserialize_snapshot_iff :
    (bytes : List ℕ) (snapshot : SnapshotDto)
    → AreBytes bytes
    → (deserialize_snapshot bytes ≡ some snapshot)
      ↔ (SnapshotFits snapshot × (bytes ≡ serialize_snapshot snapshot))
unfolding deserialize_snapshot
deserialize_snapshot_iff = deserialize_iff snapshot-IsCodec

pub deserialize_snapshot-serialize_snapshot :
    (s : SnapshotDto) → SnapshotFits s → deserialize_snapshot (serialize_snapshot s) ≡ some s
unfolding deserialize_snapshot
deserialize_snapshot-serialize_snapshot = deserialize-write snapshot-IsCodec
