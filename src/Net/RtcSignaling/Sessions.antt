-- ===== src/Net/RtcSignaling/Sessions.antt =====
-- Session ids beyond the limit of SignalReader::ReadString.
use brawololo.Prelude.{
  ℕ, ◌<◌, ◌≡◌, refl, Option, none, some, List, ◌++◌, append_assoc, length, arith,
}
use brawololo.Wire.Bytes.{to_le, range}
use brawololo.Wire.Reader.{Reader, Read, accept, both, ◌<$>◌, ◌<&>◌, ◌>>=◌}
use brawololo.Wire.Codec.{IsCodec, ◌<⊗>◌, ◌⊗◌}
use brawololo.Wire.Ints.{uint-IsCodec}
use brawololo.Game.Types.{IsU32}
use brawololo.Net.RtcSignaling.{
  RtcSignalingMessage, ValidationError, DecodeError, SignalReader, invalid_kind, signal_kind_code,
  signal_kind-IsEnum, max_rtc_signaling_payload_bytes, is_valid_kind, message_of, fail, read_pod,
  read_sized, read_string, write_string, read_message, serialize_rtc_signaling_message,
  validate_rtc_signaling_message, conclude, deserialize_rtc_signaling_message,
}
use brawololo.Net.RtcSignaling.Format.{IsValid, validate_rtc_signaling_message_iff}

read_sized-long :
    (max_bytes size : ℕ) (r : SignalReader)
    → max_bytes < size
    → (read_sized max_bytes size r).0 ≡ none
unfolding read_sized
read_sized-long max_bytes size r h = ground arith

read_string-long :
    (s rest : List ℕ) (e : DecodeError)
    → 256 < length s
    → IsU32 (length s)
    → (read_string 256 (record { unread = write_string s ++ rest; error = e })).0 ≡ none
unfolding read_string ◌>>=◌ write_string
read_string-long s rest e long fits =
    rw (append_assoc, (uint-IsCodec _ 4).decodes (length s) (s ++ rest) e fits)
      (read_sized-long 256 (length s) _ long)

both-none : {A B : Type 0} (o : Option A) → ◌≡◌ {A = Option (A × B)} (both o none) none
both-none none = refl
both-none (some a) = refl

-- One missing value is enough for the early return.
stops :
    {E A B C D F : Type 0} (f : D → F) (g : (A × B) × C → Read E D) (ma : Read E A) (mb : Read E B)
    (mc : Read E C) (r : Reader E)
    → (mb (ma r).1).0 ≡ none
    → ((f <$> (ma <&> mb <&> mc >>= g)) r).0 ≡ none
unfolding ◌<$>◌ ◌<&>◌ ◌>>=◌
stops f g ma mb mc r h = rw (h, both-none)

-- The reads before the session id.
abbrev read_numbers : Read DecodeError (((ℕ × ℕ) × ℕ) × ℕ)
read_numbers = read_pod 1 <&> read_pod 4 <&> read_pod 4 <&> read_pod 4

abbrev write_numbers : ((ℕ × ℕ) × ℕ) × ℕ → List ℕ
write_numbers = to_le 1 ⊗ to_le 4 ⊗ to_le 4 ⊗ to_le 4

abbrev numbers_of : RtcSignalingMessage → ((ℕ × ℕ) × ℕ) × ℕ
numbers_of m = (((signal_kind_code m.kind, m.sender_peer_id), m.target_peer_id), m.sequence)

numbers-IsCodec :
    IsCodec
      (λ n. (((n.0.0.0 < range 1) × IsU32 n.0.0.1) × IsU32 n.0.1) × IsU32 n.1)
      write_numbers
      read_numbers
unfolding read_pod
numbers-IsCodec = uint-IsCodec _ 1 <⊗> uint-IsCodec _ 4 <⊗> uint-IsCodec _ 4 <⊗> uint-IsCodec _ 4

read_message-stops :
    (r : SignalReader) → (read_string 256 (read_numbers r).1).0 ≡ none → (read_message r).0 ≡ none
unfolding read_message
read_message-stops =
    stops message_of (accept (fail invalid_kind) is_valid_kind) read_numbers (read_string 256)
      (read_string max_rtc_signaling_payload_bytes)

conclude-none :
    (o : Option RtcSignalingMessage) (r : SignalReader) → o ≡ none → (conclude o r).0 ≡ none
conclude-none none r h = refl
conclude-none (some m) r h = cc

-- The two sides disagree on one limit: a valid message whose session id is longer than 256 bytes is
-- not decoded from its own encoding.
pub deserialize_rtc_signaling_message-long_session :
    (m : RtcSignalingMessage)
    → IsValid m
    → IsU32 m.sender_peer_id
    → IsU32 m.target_peer_id
    → IsU32 m.sequence
    → 256 < length m.session_id
    → IsU32 (length m.session_id)
    → (validate_rtc_signaling_message m ≡ ValidationError.no_error)
      × ((deserialize_rtc_signaling_message (serialize_rtc_signaling_message m)).0 ≡ none)
unfolding deserialize_rtc_signaling_message serialize_rtc_signaling_message
deserialize_rtc_signaling_message-long_session m v sender target sequence long fits = (
  (validate_rtc_signaling_message_iff m).1 v,
  conclude-none _ _ (
      read_message-stops _ (
        rw
          (
            append_assoc (write_numbers (numbers_of m)) (write_string m.session_id)
                (write_string m.payload),
            numbers-IsCodec.decodes (numbers_of m) _ DecodeError.no_error
                (((ground (arith, signal_kind-IsEnum.fits m.kind), sender), target), sequence),
          )
          (read_string-long m.session_id (write_string m.payload) DecodeError.no_error long fits))),
)
