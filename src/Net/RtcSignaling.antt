-- ===== src/Net/RtcSignaling.antt =====
-- Networking/include/Networking/RtcSignaling.hpp and Networking/src/RtcSignaling.cpp. A string is the
-- list of its bytes. The early return for an unknown kind leaves its error in the reader.
pub mod Format
pub mod Sessions
use brawololo.Prelude.{
  ℕ, zero, suc, ◌*◌, ◌≤◌, ◌≡◌, refl, Bool, true, false, ◌||◌, Option, none, some, List, [], ◌∷◌,
  ◌++◌, length, arith, ltb, leb, ◌==◌, if◌then◌else◌,
}
use brawololo.Wire.Bytes.{to_le}
use brawololo.Wire.Reader.{Reader, Read, read_chunk, read_uint, accept, ◌<$>◌, ◌<&>◌, ◌>>=◌}
use brawololo.Game.Types.{ClientId}
use brawololo.Game.BinaryIo.{IsEnum}

abbrev pub max_rtc_signaling_payload_bytes : ℕ
max_rtc_signaling_payload_bytes = 32 * 1024

pub data RtcSignalingMessageKind : Type 0 where
  join offer answer ice_candidate data_channel_ready leave error : RtcSignalingMessageKind

pub record RtcSignalingMessage : Type 0 where
  pub kind : RtcSignalingMessageKind
  pub sender_peer_id : ClientId
  pub target_peer_id : ClientId
  pub sequence : ℕ
  pub session_id : List ℕ
  pub payload : List ℕ

pub data ValidationError : Type 0 where
  no_error missing_sender missing_session payload_too_large : ValidationError

pub data DecodeError : Type 0 where
  no_error unexpected_eof invalid_kind invalid_count validation_failed trailing_bytes : DecodeError

abbrev pub signal_kind_code : RtcSignalingMessageKind → ℕ
signal_kind_code RtcSignalingMessageKind.join = 0
signal_kind_code RtcSignalingMessageKind.offer = 1
signal_kind_code RtcSignalingMessageKind.answer = 2
signal_kind_code RtcSignalingMessageKind.ice_candidate = 3
signal_kind_code RtcSignalingMessageKind.data_channel_ready = 4
signal_kind_code RtcSignalingMessageKind.leave = 5
signal_kind_code RtcSignalingMessageKind.error = 6

abbrev pub signal_kind_cast : ℕ → RtcSignalingMessageKind
signal_kind_cast zero = RtcSignalingMessageKind.join
signal_kind_cast (suc zero) = RtcSignalingMessageKind.offer
signal_kind_cast (suc (suc zero)) = RtcSignalingMessageKind.answer
signal_kind_cast (suc (suc (suc zero))) = RtcSignalingMessageKind.ice_candidate
signal_kind_cast (suc (suc (suc (suc zero)))) = RtcSignalingMessageKind.data_channel_ready
signal_kind_cast (suc (suc (suc (suc (suc zero))))) = RtcSignalingMessageKind.leave
signal_kind_cast _ = RtcSignalingMessageKind.error

pub signal_kind-IsEnum : IsEnum 6 signal_kind_code signal_kind_cast
signal_kind-IsEnum = record { fits = fits; cast-code = back; code-cast = forth }
  where
    fits : (c : RtcSignalingMessageKind) → signal_kind_code c ≤ 6
    fits RtcSignalingMessageKind.join = omega arith
    fits _ = omega arith

    back : (c : RtcSignalingMessageKind) → signal_kind_cast (signal_kind_code c) ≡ c
    back RtcSignalingMessageKind.join = refl
    back _ = refl

    forth : (v : ℕ) → v ≤ 6 → signal_kind_code (signal_kind_cast v) ≡ v
    forth zero h = refl
    forth (suc zero) h = refl
    forth (suc (suc zero)) h = refl
    forth (suc (suc (suc zero))) h = refl
    forth (suc (suc (suc (suc zero)))) h = refl
    forth (suc (suc (suc (suc (suc zero))))) h = refl
    forth (suc (suc (suc (suc (suc (suc zero)))))) h = refl
    forth (suc (suc (suc (suc (suc (suc (suc v))))))) h = omega arith

abbrev pub is_empty : List ℕ → Bool
is_empty [] = true
is_empty (b ∷ bs) = false

unfoldable pub validate_rtc_signaling_message : RtcSignalingMessage → ValidationError
validate_rtc_signaling_message message =
    if message.sender_peer_id == 0
    then missing_sender
    else if is_empty message.session_id
    then missing_session
    else if ltb max_rtc_signaling_payload_bytes (length message.payload)
    then payload_too_large
    else ValidationError.no_error

abbrev pub SignalReader : Type 0
SignalReader = Reader DecodeError

abbrev first_error : DecodeError → DecodeError → DecodeError
first_error DecodeError.no_error e = e
first_error old e = old

-- The first error stays.
unfoldable pub fail : DecodeError → SignalReader → SignalReader
fail e r = record r { error = first_error r.error e }

unfoldable pub write_string : List ℕ → List ℕ
write_string value = to_le 4 (length value) ++ value

unfoldable pub read_pod : ℕ → Read DecodeError ℕ
unfolding fail
read_pod = read_uint (fail unexpected_eof)

-- `offset_ + *size > bytes_.size()` is the test of `read_chunk`.
unfoldable pub read_sized : ℕ → ℕ → Read DecodeError (List ℕ)
unfolding fail read_chunk
read_sized max_bytes size r =
    if ltb max_bytes size
    then (none, fail invalid_count r)
    else read_chunk (fail invalid_count) size r

unfoldable pub read_string : ℕ → Read DecodeError (List ℕ)
unfolding read_pod read_sized ◌>>=◌
read_string max_bytes = read_pod 4 >>= read_sized max_bytes

unfoldable pub serialize_rtc_signaling_message : RtcSignalingMessage → List ℕ
unfolding write_string
serialize_rtc_signaling_message message =
    to_le 1 (signal_kind_code message.kind)
    ++ to_le 4 message.sender_peer_id
    ++ to_le 4 message.target_peer_id
    ++ to_le 4 message.sequence
    ++ write_string message.session_id
    ++ write_string message.payload

-- kind, sender, target, sequence, session, payload
abbrev pub Fields : Type 0
Fields = ((((ℕ × ℕ) × ℕ) × ℕ) × List ℕ) × List ℕ

abbrev pub is_valid_kind : Fields → Bool
is_valid_kind f = leb f.0.0.0.0.0 6

abbrev pub message_of : Fields → RtcSignalingMessage
message_of f = record {
  kind = signal_kind_cast f.0.0.0.0.0;
  sender_peer_id = f.0.0.0.0.1;
  target_peer_id = f.0.0.0.1;
  sequence = f.0.0.1;
  session_id = f.0.1;
  payload = f.1;
}

unfoldable pub read_message : Read DecodeError RtcSignalingMessage
unfolding read_pod read_string fail ◌<$>◌ ◌<&>◌ ◌>>=◌
read_message =
    message_of
    <$> (read_pod 1
          <&> read_pod 4
          <&> read_pod 4
          <&> read_pod 4
          <&> read_string 256
          <&> read_string max_rtc_signaling_payload_bytes
        >>= accept (fail invalid_kind) is_valid_kind)

abbrev is_none : DecodeError → Bool
is_none DecodeError.no_error = true
is_none e = false

unfoldable pub finished : SignalReader → Bool × SignalReader
unfolding fail
finished r =
    if is_none r.error
    then (if is_empty r.unread then (true, r) else (false, fail trailing_bytes r))
    else (false, r)

abbrev pub check_valid :
    RtcSignalingMessage → ValidationError → Option RtcSignalingMessage × DecodeError
check_valid message ValidationError.no_error = (some message, DecodeError.no_error)
check_valid message _ = (none, validation_failed)

abbrev pub conclude :
    Option RtcSignalingMessage → SignalReader → Option RtcSignalingMessage × DecodeError
conclude none r = (none, r.error)
conclude (some message) r =
    let (ended, r') = finished r in
    if ended then check_valid message (validate_rtc_signaling_message message) else (none, r'.error)

unfoldable pub deserialize_rtc_signaling_message : List ℕ → Option RtcSignalingMessage × DecodeError
unfolding finished validate_rtc_signaling_message
deserialize_rtc_signaling_message bytes =
    let (found, reader) = read_message (record { unread = bytes; error = DecodeError.no_error }) in
    conclude found reader
