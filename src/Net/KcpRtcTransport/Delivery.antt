-- ===== src/Net/KcpRtcTransport/Delivery.antt =====
-- From Send on one side to Poll on the other.
use brawololo.Prelude.{ℕ, ◌+◌, ◌≤◌, ◌≡◌, refl, true, Option, some, List, [], length, arith}
use brawololo.Game.NetworkProtocol.{NetworkEnvelope, IsAccepted}
use brawololo.Game.NetworkProtocol.Validation.{validate_envelope_iff}
use brawololo.Net.Transport.{TransportState}
use brawololo.Net.TransportPacketCodec.{encode_transport_packet}
use brawololo.Net.TransportPacketCodec.Format.{
  IsEnvelope, decode_transport_packet_iff, encode_transport_packet-AreBytes,
}
use brawololo.Net.KcpRtcTransport.{KcpRtcTransport, send, poll, poll_outgoing_frame, receive_frame}

-- The frame that a sent envelope becomes.
abbrev frame_after : NetworkEnvelope → KcpRtcTransport → Option (List ℕ)
frame_after e a = (poll_outgoing_frame (send e a).0).1

-- An accepted envelope within the buffer limit, sent on an idle connected transport, is what the other
-- connected transport polls once it has received the frame; both calls report success.
pub poll-receive_frame-send :
    (a b : KcpRtcTransport) (e : NetworkEnvelope)
    → a.state ≡ TransportState.connected
    → b.state ≡ TransportState.connected
    → a.outgoing_frames ≡ []
    → b.incoming_envelopes ≡ []
    → a.buffered_outgoing_frame_bytes + length (encode_transport_packet e)
      ≤ a.config.max_buffered_amount_bytes
    → IsEnvelope e
    → IsAccepted e
    → ((send e a).1 ≡ true)
      × ((poll_outgoing_frame (send e a).0).1 ≡ some (encode_transport_packet e))
      × ((receive_frame (encode_transport_packet e) b).1 ≡ true)
      × ((poll (receive_frame (encode_transport_packet e) b).0).1 ≡ some e)
unfolding send poll poll_outgoing_frame receive_frame
poll-receive_frame-send a b e ca cb fa ib room v acc =
    let bytes = encode_transport_packet-AreBytes e v in
    let valid = (validate_envelope_iff e).1 acc in
    let decoded =
      (decode_transport_packet_iff (encode_transport_packet e) e bytes).1 (v, acc, refl) in
    (ground arith, ground arith, rw (cb, decoded) refl, rw (cb, decoded, ib) refl)
