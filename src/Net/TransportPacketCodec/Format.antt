-- ===== src/Net/TransportPacketCodec/Format.antt =====
-- Which frames DecodeTransportPacket accepts.
use mathlib.Core.Option.{some-injective}
use brawololo.Prelude.{
  All-append, Bool-cases, inl, inr, ℕ, ◌≤◌, ◌≡◌, refl, ap, sym, ◌∙◌, ◌↔◌, true, Option, none, some,
  List, [], ◌∷◌, length, arith, leb→le, append-nil,
}
use brawololo.Wire.Bytes.{IsByte, to_le-AreBytes, append-to_le-AreBytes, AreBytes}
use brawololo.Wire.Codec.{IsCodec, chunk-IsCodec, embed-IsCodec, check-IsCodec, ◌<⊗>◌}
use brawololo.Wire.Ints.{uint-IsCodec}
use brawololo.Wire.Bind.{bind-IsCodec}
use brawololo.Game.Types.{IsU16, IsU32}
use brawololo.Game.NetworkProtocol.{
  ProtocolError, NetworkEnvelope, IsAccepted, channel_code, message_class_code, channel-IsEnum,
  message_class-IsEnum, max_network_payload_bytes, validate_envelope,
}
use brawololo.Game.NetworkProtocol.Validation.{validate_envelope_iff}
use brawololo.Net.TransportPacketCodec.{
  PacketError, PacketReader, no_error, Header, envelope_of, read_packet, is_valid_channel,
  is_valid_message_class, encode_transport_packet, check_valid, conclude, finished,
  decode_transport_packet, map_validation_error,
}

-- The numbers of an envelope fit their widths.
pub record IsEnvelope (e : NetworkEnvelope) : Type 0 where
  pub protocol_version : IsU16 e.protocol_version
  pub peer_id : IsU32 e.peer_id
  pub sequence : IsU32 e.sequence
  pub payload : AreBytes e.payload
  pub size : length e.payload ≤ max_network_payload_bytes

abbrev header_of : NetworkEnvelope → Header
header_of e = (
  (
    (((e.protocol_version, e.peer_id), channel_code e.channel), message_class_code e.message_class),
    e.sequence,
  ),
  length e.payload,
)

recast : (e : NetworkEnvelope) → envelope_of (header_of e) e.payload ≡ e
recast e i = record e {
  channel = channel-IsEnum.cast-code e.channel i;
  message_class = message_class-IsEnum.cast-code e.message_class i;
}

recoded :
    (h : Header) (payload : List ℕ)
    → is_valid_channel h ≡ true
    → is_valid_message_class h ≡ true
    → length payload ≡ h.1
    → header_of (envelope_of h payload) ≡ h
recoded h payload c m l i = (
  (
    (
      (h.0.0.0.0, channel-IsEnum.code-cast h.0.0.0.1 (leb→le _ _ c) i),
      message_class-IsEnum.code-cast h.0.0.1 (leb→le _ _ m) i,
    ),
    h.0.1,
  ),
  l i,
)

packet-IsCodec : IsCodec IsEnvelope encode_transport_packet read_packet
unfolding encode_transport_packet read_packet
packet-IsCodec =
    bind-IsCodec header_of
      (λ e v.
        ((
          (
            (
              (
                (
                  (
                    (
                      (v.protocol_version, v.peer_id),
                      ground (arith, channel-IsEnum.fits e.channel),
                    ),
                    ground (arith, message_class-IsEnum.fits e.message_class),
                  ),
                  v.sequence,
                ),
                let s = v.size in omega arith,
              ),
              ground (arith, channel-IsEnum.fits e.channel),
            ),
            ground (arith, message_class-IsEnum.fits e.message_class),
          ),
          let s = v.size in ground arith,
        )))
      (check-IsCodec _ _ (
        check-IsCodec _ _ (
          check-IsCodec _ _ (
            uint-IsCodec _ 2
            <⊗> uint-IsCodec _ 4
            <⊗> uint-IsCodec _ 1
            <⊗> uint-IsCodec _ 1
            <⊗> uint-IsCodec _ 4
            <⊗> uint-IsCodec _ 4))))
      λ h v.
        embed-IsCodec (envelope_of h)
          (λ e w. (
            e.payload,
            (ap (λ t. t.1) w.1, w.0.payload),
            (λ i. envelope_of (sym w.1 i) e.payload) ∙ recast e,
          ))
          (λ payload w. (
            (
              record {
                protocol_version = v.0.0.0.0.0.0.0.0;
                peer_id = v.0.0.0.0.0.0.0.1;
                sequence = v.0.0.0.0.1;
                payload = w.1;
                size = rw w.0 (leb→le _ _ v.1);
              },
              recoded h payload v.0.0.1 v.0.1 w.0,
            ),
            refl,
          ))
          (chunk-IsCodec _ h.1)

check_valid-eq-ok :
    (e : NetworkEnvelope) (error : ProtocolError) {e' : NetworkEnvelope}
    → check_valid e error ≡ (some e', no_error)
    → (e ≡ e') × (error ≡ ProtocolError.no_error)
unfolding map_validation_error
check_valid-eq-ok e ProtocolError.no_error h = (some-injective _ _ (ap (λ p. p.0) h), refl)
check_valid-eq-ok e ProtocolError.unsupported_version h = cc
check_valid-eq-ok e ProtocolError.payload_too_large h = cc
check_valid-eq-ok e ProtocolError.channel_mismatch h = cc

finished-eq-true :
    (e : PacketError) (unread : List ℕ)
    → (finished (record { unread = unread; error = e })).0 ≡ true
    → unread ≡ []
unfolding finished
finished-eq-true no_error [] h = refl
finished-eq-true no_error (b ∷ bs) h = cc
finished-eq-true _ unread h = cc

conclude-eq-ok :
    (o : Option NetworkEnvelope) (r : PacketReader) {e : NetworkEnvelope}
    → conclude o r ≡ (some e, no_error)
    → (o ≡ some e) × (r.unread ≡ []) × (validate_envelope e ≡ ProtocolError.no_error)
conclude-eq-ok none r h = cc
conclude-eq-ok (some x) r h = elim (Bool-cases (finished r).0) [
  | inl ended ↦
      let h' = rw ended at h in
      let (same, valid) = check_valid-eq-ok x (validate_envelope x) h' in
      (ap some same, finished-eq-true r.error r.unread ended, rw (← same) valid)
  | inr open_end ↦ let h' = rw open_end at h in let none_some = ap (λ p. p.0) h' in absurd (cc)
]

pub encode_transport_packet-AreBytes :
    (e : NetworkEnvelope) → IsEnvelope e → AreBytes (encode_transport_packet e)
unfolding encode_transport_packet
encode_transport_packet-AreBytes e v =
    let version = to_le-AreBytes 2 e.protocol_version in
    let peer = append-to_le-AreBytes _ 4 e.peer_id version in
    let channel = append-to_le-AreBytes _ 1 (channel_code e.channel) peer in
    let class = append-to_le-AreBytes _ 1 (message_class_code e.message_class) channel in
    let sequence = append-to_le-AreBytes _ 4 e.sequence class in
    let size = append-to_le-AreBytes _ 4 (length e.payload) sequence in
    All-append IsByte _ e.payload size v.payload

-- A frame is decoded with no error exactly when it is the encoding of an envelope whose numbers fit
-- their widths and that ValidateEnvelope accepts: no truncated, padded or altered frame gets through.
pub decode_transport_packet_iff :
    (bytes : List ℕ) (e : NetworkEnvelope)
    → AreBytes bytes
    → (decode_transport_packet bytes ≡ (some e, no_error))
      ↔ (IsEnvelope e × IsAccepted e × (bytes ≡ encode_transport_packet e))
unfolding decode_transport_packet
decode_transport_packet_iff bytes e b = (forth, back)
  where
    start : PacketReader
    start = record { unread = bytes; error = no_error }

    forth :
        decode_transport_packet bytes ≡ (some e, no_error)
        → IsEnvelope e × IsAccepted e × (bytes ≡ encode_transport_packet e)
    forth h =
        let (found, ended, valid) = conclude-eq-ok (read_packet start).0 (read_packet start).1 h in
        let (v, split, kept) = packet-IsCodec.exact start e b found in
        (
          v,
          (validate_envelope_iff e).0 valid,
          split ∙ rw ended (append-nil (encode_transport_packet e)),
        )

    back :
        IsEnvelope e × IsAccepted e × (bytes ≡ encode_transport_packet e)
        → decode_transport_packet bytes ≡ (some e, no_error)
    back h =
        rw (h.2, ← append-nil (encode_transport_packet e))
          (rw (
            packet-IsCodec.decodes e [] no_error h.0,
            decode_transport_packet,
            (validate_envelope_iff e).1 h.1,
          ))

-- What is decoded has passed the validation.
pub decode_transport_packet-valid :
    (bytes : List ℕ) (e : NetworkEnvelope)
    → decode_transport_packet bytes ≡ (some e, no_error)
    → validate_envelope e ≡ ProtocolError.no_error
unfolding decode_transport_packet
decode_transport_packet-valid bytes e h = (conclude-eq-ok (read_packet _).0 (read_packet _).1 h).2
