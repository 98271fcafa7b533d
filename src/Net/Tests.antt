-- ===== src/Net/Tests.antt =====
-- The transports and their formats at concrete messages, with what their theorems say there.
use mathlib.Core.Bool.{true≢false}
use brawololo.Prelude.{
  ℕ, zero, suc, ◌≡◌, ◌↔◌, refl, sym, ap, true, none, some, List, [], ◌∷◌, ◌++◌, arith,
}
use brawololo.Wire.Bytes.{are_bytes→AreBytes, to_le}
use brawololo.Game.NetworkProtocol.{IsAccepted, expected_channel_for, validate_envelope}
use brawololo.Game.Tests.{greeting}
use brawololo.Net.Transport.{TransportState}
use brawololo.Net.TransportPacketCodec.{
  PacketError, encode_transport_packet, decode_transport_packet,
}
use brawololo.Net.TransportPacketCodec.Format.{IsEnvelope, decode_transport_packet_iff}
use brawololo.Net.RtcSignaling.{
  RtcSignalingMessage, RtcSignalingMessageKind, ValidationError, DecodeError,
  validate_rtc_signaling_message, serialize_rtc_signaling_message,
  deserialize_rtc_signaling_message,
}
use brawololo.Net.RtcSignaling.Format.{
  MessageFits, IsValid, validate_rtc_signaling_message_iff, deserialize_rtc_signaling_message_iff,
}
use brawololo.Net.RtcSignaling.Sessions.{deserialize_rtc_signaling_message-long_session}
use brawololo.Net.KcpRtcTransport.{
  KcpRtcTransportConfig, KcpRtcTransport, KcpRtcRole, create, is_connected, send, poll,
  poll_outgoing_frame, receive_frame,
}
use brawololo.Net.KcpRtcTransport.Signals.{is_addressed, dispatch_signal, receive_signaling_message}
use brawololo.Net.KcpRtcTransport.Invariant as Invariant
use brawololo.Net.KcpRtcTransport.Invariant.{IsConsistent, connects, sends, run-create-IsConsistent}
use brawololo.Net.KcpRtcTransport.Delivery.{poll-receive_frame-send}
use brawololo.Net.KcpRtcTransport.Connecting.{IsForPeer, receive_signaling_message-connects}
use brawololo.Net.LoopbackTransport as Loopback
use brawololo.Net.LoopbackTransport.{
  Endpoint, release_one_delayed, outgoing_queue, delayed_outgoing_queue, a, b, SharedState,
  LoopbackTransport, LoopbackNetworkConditions, create_end, empty_state, flush_delayed,
}
use brawololo.Net.LoopbackTransport.Pair as Pair
use brawololo.Net.LoopbackTransport.Pair.{
  IsConserving, create_pair, send_call, poll_call, update_call, run-create_pair-IsConserving,
}
use brawololo.Net.LoopbackTransport.Delivery.{flush_delayed-all, poll-send}

decode_transport_packet_iff_example :
    (decode_transport_packet (encode_transport_packet greeting)
      ≡ (some greeting, PacketError.no_error))
    ↔ (IsEnvelope greeting
        × IsAccepted greeting
        × (encode_transport_packet greeting ≡ encode_transport_packet greeting))
unfolding encode_transport_packet to_le
decode_transport_packet_iff_example =
    decode_transport_packet_iff (encode_transport_packet greeting) greeting
      (are_bytes→AreBytes (encode_transport_packet greeting) refl)

abbrev client_config : KcpRtcTransportConfig
client_config = record {
  role = KcpRtcRole.client;
  local_peer_id = 3;
  peer_name = 65 ∷ [];
  signaling_url = 119 ∷ [];
  data_channel_label = 71 ∷ [];
  max_buffered_amount_bytes = 64;
  unordered_data_channel = true;
  session_id = 108 ∷ [];
}

run-create-IsConsistent_example :
    IsConsistent (Invariant.run (connects ∷ sends greeting ∷ []) (create client_config))
run-create-IsConsistent_example =
    run-create-IsConsistent client_config (connects ∷ sends greeting ∷ [])

abbrev sender : KcpRtcTransport
sender = record (create client_config) { state = TransportState.connected }

abbrev receiver : KcpRtcTransport
receiver = record (create (record client_config { role = KcpRtcRole.server; local_peer_id = 1 })) {
  state = TransportState.connected;
}

poll-receive_frame-send_example :
    ((send greeting sender).1 ≡ true)
    × ((poll_outgoing_frame (send greeting sender).0).1 ≡ some (encode_transport_packet greeting))
    × ((receive_frame (encode_transport_packet greeting) receiver).1 ≡ true)
    × ((poll (receive_frame (encode_transport_packet greeting) receiver).0).1 ≡ some greeting)
unfolding encode_transport_packet to_le expected_channel_for
poll-receive_frame-send_example =
    poll-receive_frame-send sender receiver greeting refl refl refl refl (omega arith)
      (record {
        protocol_version = omega arith;
        peer_id = omega arith;
        sequence = omega arith;
        payload = are_bytes→AreBytes greeting.payload refl;
        size = omega arith;
      })
      (record { version = refl; size = omega arith; channel = refl })

abbrev ready : RtcSignalingMessage
ready = record {
  kind = RtcSignalingMessageKind.data_channel_ready;
  sender_peer_id = 1;
  target_peer_id = 3;
  sequence = 4;
  session_id = 108 ∷ [];
  payload = [];
}

abbrev failed : KcpRtcTransport
failed = record (create client_config) { state = TransportState.failed }

state-failed : (receive_signaling_message ready failed).0.state ≡ TransportState.connected
unfolding receive_signaling_message is_addressed validate_rtc_signaling_message dispatch_signal
state-failed = refl

receive_signaling_message-connects_example :
    ((receive_signaling_message ready failed).0.state ≡ TransportState.connected)
    ↔ ((ready.kind ≡ RtcSignalingMessageKind.data_channel_ready) × IsForPeer ready failed)
receive_signaling_message-connects_example =
    receive_signaling_message-connects ready failed (λ e. true≢false (sym (ap is_connected e)))

validate_rtc_signaling_message_iff_example :
    (validate_rtc_signaling_message ready ≡ ValidationError.no_error) ↔ IsValid ready
validate_rtc_signaling_message_iff_example = validate_rtc_signaling_message_iff ready

deserialize_rtc_signaling_message_iff_example :
    (deserialize_rtc_signaling_message (serialize_rtc_signaling_message ready)
      ≡ (some ready, DecodeError.no_error))
    ↔ (MessageFits ready
        × IsValid ready
        × (serialize_rtc_signaling_message ready ≡ serialize_rtc_signaling_message ready))
unfolding serialize_rtc_signaling_message to_le
deserialize_rtc_signaling_message_iff_example =
    deserialize_rtc_signaling_message_iff (serialize_rtc_signaling_message ready) ready
      (are_bytes→AreBytes (serialize_rtc_signaling_message ready) refl)

abbrev bytes : ℕ → List ℕ
bytes zero = []
bytes (suc n) = 65 ∷ bytes n

abbrev long_session : RtcSignalingMessage
long_session = record ready { session_id = bytes 257 }

deserialize_rtc_signaling_message-long_session_example :
    (validate_rtc_signaling_message long_session ≡ ValidationError.no_error)
    × ((deserialize_rtc_signaling_message (serialize_rtc_signaling_message long_session)).0 ≡ none)
deserialize_rtc_signaling_message-long_session_example =
    deserialize_rtc_signaling_message-long_session long_session
      (record { sender = λ e. ground (arith, e); session = λ e. cc; size = omega arith })
      (omega arith) (omega arith) (omega arith) (omega arith) (omega arith)

abbrev lossy : LoopbackNetworkConditions
lossy = record { drop_every_nth_outgoing_envelope = 2; delay_every_nth_outgoing_envelope = 3 }

abbrev exchange : List (Endpoint × Pair.Call)
exchange =
    (a, send_call greeting)
    ∷ (a, send_call greeting)
    ∷ (a, send_call greeting)
    ∷ (b, poll_call)
    ∷ (a, update_call)
    ∷ []

run-create_pair-IsConserving_example : IsConserving (Pair.run exchange (create_pair lossy))
run-create_pair-IsConserving_example = run-create_pair-IsConserving exchange lossy

-- The second envelope is dropped, the third delayed and then released.
exchange-counts :
    ((Pair.run exchange (create_pair lossy)).end_a.stats.envelopes_sent ≡ 2)
    × ((Pair.run exchange (create_pair lossy)).end_a.stats.envelopes_dropped_by_condition ≡ 1)
    × ((Pair.run exchange (create_pair lossy)).end_b.stats.envelopes_received ≡ 1)
unfolding Loopback.send Loopback.poll release_one_delayed validate_envelope expected_channel_for
exchange-counts = (refl, refl, refl)

abbrev no_conditions : LoopbackNetworkConditions
no_conditions = record {
  drop_every_nth_outgoing_envelope = 0;
  delay_every_nth_outgoing_envelope = 0;
}

abbrev two_delayed : SharedState
two_delayed = record empty_state {
  a_to_b = greeting ∷ [];
  delayed_a_to_b = greeting ∷ record greeting { sequence = 2 } ∷ [];
}

flush_delayed-all_example :
    (outgoing_queue a (flush_delayed (create_end a lossy) two_delayed).1
      ≡ outgoing_queue a two_delayed ++ delayed_outgoing_queue a two_delayed)
    × (delayed_outgoing_queue a (flush_delayed (create_end a lossy) two_delayed).1 ≡ [])
flush_delayed-all_example = flush_delayed-all (create_end a lossy) two_delayed refl

poll-send_example :
    ((Loopback.send greeting (create_end a no_conditions) empty_state).1 ≡ true)
    × ((Loopback.poll
          (create_end b no_conditions)
          (Loopback.send greeting (create_end a no_conditions) empty_state).0.1).1
        ≡ some greeting)
unfolding validate_envelope expected_channel_for
poll-send_example =
    poll-send (create_end a no_conditions) (create_end b no_conditions) empty_state greeting refl
      refl refl refl refl refl refl refl refl refl
