-- ===== src/Game/Serialization/Events.antt =====
-- SerializeNetworkEvent and DeserializeNetworkEvent of GameLogic/src/Serialization.cpp
use brawololo.Prelude.{ℕ, ◌≡◌, refl, ap, sym, ◌↔◌, Option, some, List, ◌++◌, arith}
use brawololo.Wire.Bytes.{AreBytes}
use brawololo.Wire.Reader.{Read, ◌<$>◌, ◌<&>◌, ◌>>=◌}
use brawololo.Wire.Codec.{IsCodec, embed-IsCodec, ◌<⊗>◌}
use brawololo.Wire.Bind.{bind-IsCodec}
use brawololo.Game.Types.{IsU32, IsU64}
use brawololo.Game.NetworkEvents.{
  NetworkEventKind, NetworkEventDto, event_kind_code, event_kind_cast, kind_for_network_event,
}
use brawololo.Game.NetworkEvents.Conversion.{event_kind-IsEnum}
use brawololo.Game.BinaryIo.{
  DecodeError, read_pod, write_pod, read_enum, write_enum, deserialize, pod-IsCodec, enum-IsCodec,
  deserialize_iff,
}
use brawololo.Game.Serialization.Payloads.{IsPayload, write_payload, read_payload}
use brawololo.Game.Serialization.Payloads.Formats.{payload-IsCodec}

pub record NetworkEventFits (e : NetworkEventDto) : Type 0 where
  pub event_id : IsU32 e.event_id
  pub server_tick : IsU64 e.server_tick
  pub server_time_ms : IsU64 e.server_time_ms
  pub payload : IsPayload e.payload

unfoldable pub serialize_network_event : NetworkEventDto → List ℕ
unfolding write_pod write_payload kind_for_network_event
serialize_network_event event =
    write_pod 4 event.event_id
    ++ write_pod 8 event.server_tick
    ++ write_pod 8 event.server_time_ms
    ++ write_enum event_kind_code (kind_for_network_event event.payload)
    ++ write_payload event.payload

unfoldable pub read_network_event_kind : Read DecodeError NetworkEventKind
unfolding read_enum
read_network_event_kind = read_enum 9 event_kind_cast

unfoldable pub read_network_event : Read DecodeError NetworkEventDto
unfolding read_pod read_network_event_kind read_payload ◌<$>◌ ◌<&>◌ ◌>>=◌
read_network_event =
    read_pod 4 <&> read_pod 8 <&> read_pod 8 <&> read_network_event_kind >>= λ head.
    (λ payload. record {
      event_id = head.0.0.0;
      server_tick = head.0.0.1;
      server_time_ms = head.0.1;
      payload = payload;
    })
    <$> read_payload head.1

unfoldable pub deserialize_network_event : List ℕ → Option NetworkEventDto
unfolding deserialize read_network_event
deserialize_network_event = deserialize read_network_event

event_kind-IsCodec : IsCodec (λ k. Unit {0}) (write_enum event_kind_code) read_network_event_kind
unfolding read_network_event_kind
event_kind-IsCodec = enum-IsCodec (omega arith) event_kind-IsEnum

network_event-IsCodec : IsCodec NetworkEventFits serialize_network_event read_network_event
unfolding serialize_network_event read_network_event
network_event-IsCodec =
    bind-IsCodec
      (λ e. (((e.event_id, e.server_tick), e.server_time_ms), kind_for_network_event e.payload))
      (λ e v. (((v.event_id, v.server_tick), v.server_time_ms), tt))
      (pod-IsCodec 4 <⊗> pod-IsCodec 8 <⊗> pod-IsCodec 8 <⊗> event_kind-IsCodec)
      λ head v.
        embed-IsCodec _
          (λ e w. (
            e.payload,
            (w.0.payload, ap (λ h. h.1) w.1),
            λ i. record {
              event_id = (sym w.1 i).0.0.0;
              server_tick = (sym w.1 i).0.0.1;
              server_time_ms = (sym w.1 i).0.1;
              payload = e.payload;
            },
          ))
          (λ payload w. (
            (
              record {
                event_id = v.0.0.0;
                server_tick = v.0.0.1;
                server_time_ms = v.0.1;
                payload = w.0;
              },
              λ i. (head.0, w.1 i),
            ),
            refl,
          ))
          (payload-IsCodec head.1)

-- A network event, whatever its kind, is decoded from a span of bytes exactly when its fields fit
-- their widths and the span is its encoding.
pub deserialize_network_event_iff :
    (bytes : List ℕ) (event : NetworkEventDto)
    → AreBytes bytes
    → (deserialize_network_event bytes ≡ some event)
      ↔ (NetworkEventFits event × (bytes ≡ serialize_network_event event))
unfolding deserialize_network_event
deserialize_network_event_iff = deserialize_iff network_event-IsCodec
