-- ===== src/Game/Serialization/TimeSync.antt =====
-- TimeSyncRequest and TimeSyncResponse of GameLogic/src/Serialization.cpp
use brawololo.Prelude.{ℕ, ◌≡◌, refl, ◌↔◌, Option, some, List, ◌++◌}
use brawololo.Wire.Bytes.{AreBytes}
use brawololo.Wire.Reader.{Read, ◌<$>◌, ◌<&>◌}
use brawololo.Wire.Codec.{IsCodec, map-IsCodec, ◌<⊗>◌}
use brawololo.Game.Types.{IsU32, IsU64}
use brawololo.Game.TimeSync.{TimeSyncRequest, TimeSyncResponse}
use brawololo.Game.BinaryIo.{
  DecodeError, read_pod, write_pod, read_signed, write_signed, read_bool, write_bool, deserialize,
  pod-IsCodec, deserialize_iff,
}

pub record RequestFits (r : TimeSyncRequest) : Type 0 where
  pub client_id : IsU32 r.client_id
  pub sequence : IsU32 r.sequence
  pub client_sent_at_ms : IsU64 r.client_sent_at_ms

unfoldable pub serialize_time_sync_request : TimeSyncRequest → List ℕ
unfolding write_pod write_signed write_bool
serialize_time_sync_request request =
    write_pod 4 request.client_id
    ++ write_pod 4 request.sequence
    ++ write_pod 8 request.client_sent_at_ms

abbrev time_sync_request_of : (ℕ × ℕ) × ℕ → TimeSyncRequest
time_sync_request_of p = record { client_id = p.0.0; sequence = p.0.1; client_sent_at_ms = p.1 }

abbrev read_time_sync_request : Read DecodeError TimeSyncRequest
read_time_sync_request = time_sync_request_of <$> read_pod 4 <&> read_pod 4 <&> read_pod 8

unfoldable pub deserialize_time_sync_request : List ℕ → Option TimeSyncRequest
unfolding deserialize read_pod read_signed read_bool ◌<$>◌ ◌<&>◌
deserialize_time_sync_request = deserialize read_time_sync_request

time_sync_request-IsCodec : IsCodec RequestFits serialize_time_sync_request read_time_sync_request
unfolding serialize_time_sync_request
time_sync_request-IsCodec =
    map-IsCodec time_sync_request_of (λ c. ((c.client_id, c.sequence), c.client_sent_at_ms))
      (λ c v. (((v.client_id, v.sequence), v.client_sent_at_ms), refl))
      (λ p v. (record { client_id = v.0.0; sequence = v.0.1; client_sent_at_ms = v.1 }, refl))
      (pod-IsCodec 4 <⊗> pod-IsCodec 4 <⊗> pod-IsCodec 8)

-- A time-sync request is decoded from a span of bytes exactly when its fields fit their widths and
-- the span is its encoding.
pub deserialize_time_sync_request_iff :
    (bytes : List ℕ) (request : TimeSyncRequest)
    → AreBytes bytes
    → (deserialize_time_sync_request bytes ≡ some request)
      ↔ (RequestFits request × (bytes ≡ serialize_time_sync_request request))
unfolding deserialize_time_sync_request
deserialize_time_sync_request_iff = deserialize_iff time_sync_request-IsCodec

pub record ResponseFits (r : TimeSyncResponse) : Type 0 where
  pub client_id : IsU32 r.client_id
  pub sequence : IsU32 r.sequence
  pub client_sent_at_ms : IsU64 r.client_sent_at_ms
  pub server_received_at_ms : IsU64 r.server_received_at_ms
  pub server_sent_at_ms : IsU64 r.server_sent_at_ms

unfoldable pub serialize_time_sync_response : TimeSyncResponse → List ℕ
unfolding write_pod write_signed write_bool
serialize_time_sync_response response =
    write_pod 4 response.client_id
    ++ write_pod 4 response.sequence
    ++ write_pod 8 response.client_sent_at_ms
    ++ write_pod 8 response.server_received_at_ms
    ++ write_pod 8 response.server_sent_at_ms

abbrev time_sync_response_of : (((ℕ × ℕ) × ℕ) × ℕ) × ℕ → TimeSyncResponse
time_sync_response_of p = record {
  client_id = p.0.0.0.0;
  sequence = p.0.0.0.1;
  client_sent_at_ms = p.0.0.1;
  server_received_at_ms = p.0.1;
  server_sent_at_ms = p.1;
}

abbrev read_time_sync_response : Read DecodeError TimeSyncResponse
read_time_sync_response =
    time_sync_response_of <$> read_pod 4 <&> read_pod 4 <&> read_pod 8 <&> read_pod 8 <&> read_pod 8

unfoldable pub deserialize_time_sync_response : List ℕ → Option TimeSyncResponse
unfolding deserialize read_pod read_signed read_bool ◌<$>◌ ◌<&>◌
deserialize_time_sync_response = deserialize read_time_sync_response

time_sync_response-IsCodec :
    IsCodec ResponseFits serialize_time_sync_response read_time_sync_response
unfolding serialize_time_sync_response
time_sync_response-IsCodec =
    map-IsCodec time_sync_response_of
      (λ c. (
        (((c.client_id, c.sequence), c.client_sent_at_ms), c.server_received_at_ms),
        c.server_sent_at_ms,
      ))
      (λ c v. (
        (
          (((v.client_id, v.sequence), v.client_sent_at_ms), v.server_received_at_ms),
          v.server_sent_at_ms,
        ),
        refl,
      ))
      (λ p v. (
        record {
          client_id = v.0.0.0.0;
          sequence = v.0.0.0.1;
          client_sent_at_ms = v.0.0.1;
          server_received_at_ms = v.0.1;
          server_sent_at_ms = v.1;
        },
        refl,
      ))
      (pod-IsCodec 4 <⊗> pod-IsCodec 4 <⊗> pod-IsCodec 8 <⊗> pod-IsCodec 8 <⊗> pod-IsCodec 8)

-- A time-sync response is decoded from a span of bytes exactly when its fields fit their widths and
-- the span is its encoding.
pub deserialize_time_sync_response_iff :
    (bytes : List ℕ) (response : TimeSyncResponse)
    → AreBytes bytes
    → (deserialize_time_sync_response bytes ≡ some response)
      ↔ (ResponseFits response × (bytes ≡ serialize_time_sync_response response))
unfolding deserialize_time_sync_response
deserialize_time_sync_response_iff = deserialize_iff time_sync_response-IsCodec
