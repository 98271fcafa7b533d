-- ===== src/Net/TransportPacketCodec.antt =====
-- Networking/src/TransportPacketCodec.cpp. An early return with an error of its own, `{nullopt, e}`,
-- leaves `e` in the reader, which nothing looks at afterwards.
pub mod Format
use brawololo.Prelude.{
  ℕ, ◌≡◌, refl, Bool, true, false, Option, none, some, List, [], ◌∷◌, ◌++◌, length, leb,
  if◌then◌else◌,
}
use brawololo.Wire.Bytes.{to_le}
use brawololo.Wire.Reader.{Reader, Read, read_chunk, read_uint, accept, ◌<$>◌, ◌<&>◌, ◌>>=◌}
use brawololo.Game.NetworkProtocol.{
  ProtocolError, NetworkEnvelope, channel_code, channel_cast, message_class_code,
  message_class_cast, max_network_payload_bytes, validate_envelope,
}

pub data PacketError : Type 0 where
  no_error unexpected_eof unsupported_version invalid_channel invalid_message_class : PacketError
  payload_too_large channel_mismatch trailing_bytes : PacketError

abbrev pub PacketReader : Type 0
PacketReader = Reader PacketError

-- `error_ = error`, also over an earlier one.
abbrev pub set_error : PacketError → PacketReader → PacketReader
set_error e r = record r { error = e }

unfoldable pub read_pod : ℕ → Read PacketError ℕ
read_pod = read_uint (set_error unexpected_eof)

unfoldable pub read_bytes : ℕ → Read PacketError (List ℕ)
read_bytes = read_chunk (set_error unexpected_eof)

abbrev is_none : PacketError → Bool
is_none no_error = true
is_none e = false

abbrev is_empty : List ℕ → Bool
is_empty [] = true
is_empty (b ∷ bs) = false

unfoldable pub finished : PacketReader → Bool × PacketReader
finished r =
    if is_none r.error
    then (if is_empty r.unread then (true, r) else (false, set_error trailing_bytes r))
    else (false, r)

unfoldable pub map_validation_error : ProtocolError → PacketError
map_validation_error ProtocolError.no_error = no_error
map_validation_error ProtocolError.unsupported_version = unsupported_version
map_validation_error ProtocolError.payload_too_large = payload_too_large
map_validation_error ProtocolError.channel_mismatch = channel_mismatch

unfoldable pub encode_transport_packet : NetworkEnvelope → List ℕ
encode_transport_packet envelope =
    to_le 2 envelope.protocol_version
    ++ to_le 4 envelope.peer_id
    ++ to_le 1 (channel_code envelope.channel)
    ++ to_le 1 (message_class_code envelope.message_class)
    ++ to_le 4 envelope.sequence
    ++ to_le 4 (length envelope.payload)
    ++ envelope.payload

-- version, peer, channel, message class, sequence, payload size
abbrev pub Header : Type 0
Header = ((((ℕ × ℕ) × ℕ) × ℕ) × ℕ) × ℕ

abbrev pub envelope_of : Header → List ℕ → NetworkEnvelope
envelope_of h payload = record {
  protocol_version = h.0.0.0.0.0;
  peer_id = h.0.0.0.0.1;
  channel = channel_cast h.0.0.0.1;
  message_class = message_class_cast h.0.0.1;
  sequence = h.0.1;
  payload = payload;
}

unfoldable pub read_header : Read PacketError Header
unfolding read_pod ◌<&>◌
read_header = read_pod 2 <&> read_pod 4 <&> read_pod 1 <&> read_pod 1 <&> read_pod 4 <&> read_pod 4

abbrev pub is_valid_channel : Header → Bool
is_valid_channel h = leb h.0.0.0.1 5

abbrev pub is_valid_message_class : Header → Bool
is_valid_message_class h = leb h.0.0.1 10

abbrev pub is_small : Header → Bool
is_small h = leb h.1 max_network_payload_bytes

unfoldable pub read_packet : Read PacketError NetworkEnvelope
unfolding read_header read_bytes ◌<$>◌ ◌>>=◌
read_packet =
    read_header
    >>= accept (set_error invalid_channel) is_valid_channel
    >>= accept (set_error invalid_message_class) is_valid_message_class
    >>= accept (set_error payload_too_large) is_small
    >>= λ h. envelope_of h <$> read_bytes h.1

abbrev pub check_valid : NetworkEnvelope → ProtocolError → Option NetworkEnvelope × PacketError
check_valid envelope ProtocolError.no_error = (some envelope, no_error)
check_valid envelope error = (none, map_validation_error error)

abbrev pub conclude : Option NetworkEnvelope → PacketReader → Option NetworkEnvelope × PacketError
conclude none r = (none, r.error)
conclude (some envelope) r =
    let (ended, r') = finished r in
    if ended then check_valid envelope (validate_envelope envelope) else (none, r'.error)

unfoldable pub decode_transport_packet : List ℕ → Option NetworkEnvelope × PacketError
unfolding read_packet finished map_validation_error validate_envelope
decode_transport_packet bytes =
    let (found, reader) = read_packet (record { unread = bytes; error = no_error }) in
    conclude found reader
