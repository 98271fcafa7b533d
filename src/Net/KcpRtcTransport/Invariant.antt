-- ===== src/Net/KcpRtcTransport/Invariant.antt =====
-- What holds of a KcpRtcTransport after any sequence of calls.
use brawololo.Prelude.{
  ℕ, ◌+◌, ◌≤◌, ◌≡◌, refl, Bool, true, false, Option, some, List, [], ◌∷◌, ◌++◌, length, All,
  All-append, arith,
}
use brawololo.Game.NetworkProtocol.{ProtocolError, NetworkEnvelope, validate_envelope}
use brawololo.Net.Transport.{TransportState}
use brawololo.Net.TransportPacketCodec.{
  PacketError, encode_transport_packet, decode_transport_packet,
}
use brawololo.Net.TransportPacketCodec.Format.{decode_transport_packet-valid}
use brawololo.Net.RtcSignaling.{RtcSignalingMessageKind, RtcSignalingMessage}
use brawololo.Net.KcpRtcTransport.{
  KcpRtcTransport, KcpRtcTransportConfig, KcpRtcConnectionPhase, create, connect, close, send, poll,
  queue_signal, notify_data_channel_ready, poll_outgoing_signal, poll_outgoing_frame, receive_frame,
  accept_frame,
}
use brawololo.Net.KcpRtcTransport.Signals.{receive_signaling_message, dispatch_signal}

abbrev pub total_length : List (List ℕ) → ℕ
total_length [] = 0
total_length (frame ∷ rest) = length frame + total_length rest

-- The phases that go with a transport state.
abbrev pub agrees : TransportState → KcpRtcConnectionPhase → Bool
agrees TransportState.disconnected KcpRtcConnectionPhase.disconnected = true
agrees TransportState.connecting KcpRtcConnectionPhase.signaling = true
agrees TransportState.connecting KcpRtcConnectionPhase.data_channel_connecting = true
agrees TransportState.connected KcpRtcConnectionPhase.connected = true
agrees TransportState.failed KcpRtcConnectionPhase.failed = true
agrees _ _ = false

abbrev pub Passed : NetworkEnvelope → Type 0
Passed e = validate_envelope e ≡ ProtocolError.no_error

-- The byte count is that of the queued frames and within the configured limit, the phase agrees with
-- the state, and only validated envelopes wait to be polled.
pub record IsConsistent (t : KcpRtcTransport) : Type 0 where
  pub counted : t.buffered_outgoing_frame_bytes ≡ total_length t.outgoing_frames
  pub bounded : t.buffered_outgoing_frame_bytes ≤ t.config.max_buffered_amount_bytes
  pub phase : agrees t.state t.phase ≡ true
  pub incoming : All Passed t.incoming_envelopes

-- The calls that a program can make.
pub data Call : Type 0 where
  connects closes polls notifies polls_signal polls_frame : Call
  sends : NetworkEnvelope → Call
  receives_signal : RtcSignalingMessage → Call
  receives_frame : List ℕ → Call

unfoldable pub step : Call → KcpRtcTransport → KcpRtcTransport
step connects t = (connect t).0
step closes t = close t
step polls t = (poll t).0
step notifies t = (notify_data_channel_ready t).0
step polls_signal t = (poll_outgoing_signal t).0
step polls_frame t = (poll_outgoing_frame t).0
step (sends envelope) t = (send envelope t).0
step (receives_signal message) t = (receive_signaling_message message t).0
step (receives_frame bytes) t = (receive_frame bytes t).0

unfoldable pub run : List Call → KcpRtcTransport → KcpRtcTransport
run [] t = t
run (c ∷ cs) t = run cs (step c t)

create-IsConsistent : (config : KcpRtcTransportConfig) → IsConsistent (create config)
create-IsConsistent config = record {
  counted = refl;
  bounded = omega arith;
  phase = refl;
  incoming = tt;
}

total_length-append :
    (a b : List (List ℕ)) → total_length (a ++ b) ≡ total_length a + total_length b
total_length-append [] b = omega arith
total_length-append (f ∷ a) b = omega (arith, total_length-append a b)

connect-IsConsistent : (t : KcpRtcTransport) → IsConsistent t → IsConsistent (connect t).0
unfolding connect queue_signal
connect-IsConsistent t v = ground arith

close-IsConsistent : (t : KcpRtcTransport) → IsConsistent (close t)
unfolding close
close-IsConsistent t = record { counted = refl; bounded = omega arith; phase = refl; incoming = tt }

send-IsConsistent :
    (e : NetworkEnvelope) (t : KcpRtcTransport) → IsConsistent t → IsConsistent (send e t).0
unfolding send
send-IsConsistent e t v =
    ground (arith, total_length-append t.outgoing_frames (encode_transport_packet e ∷ []))

poll-IsConsistent : (t : KcpRtcTransport) → IsConsistent t → IsConsistent (poll t).0
unfolding poll
poll-IsConsistent t v = ground arith

notify-IsConsistent :
    (t : KcpRtcTransport) → IsConsistent t → IsConsistent (notify_data_channel_ready t).0
unfolding notify_data_channel_ready
notify-IsConsistent t v = ground arith

poll_signal-IsConsistent :
    (t : KcpRtcTransport) → IsConsistent t → IsConsistent (poll_outgoing_signal t).0
unfolding poll_outgoing_signal
poll_signal-IsConsistent t v = ground arith

poll_frame-IsConsistent :
    (t : KcpRtcTransport) → IsConsistent t → IsConsistent (poll_outgoing_frame t).0
unfolding poll_outgoing_frame
poll_frame-IsConsistent t v = ground arith

dispatch-IsConsistent :
    (k : RtcSignalingMessageKind) (m : RtcSignalingMessage) (t : KcpRtcTransport)
    → IsConsistent t
    → IsConsistent (dispatch_signal k m t).0
unfolding dispatch_signal
dispatch-IsConsistent RtcSignalingMessageKind.offer m t v = ground arith
dispatch-IsConsistent _ m t v = ground arith

receive_signal-IsConsistent :
    (m : RtcSignalingMessage) (t : KcpRtcTransport)
    → IsConsistent t
    → IsConsistent (receive_signaling_message m t).0
unfolding receive_signaling_message
receive_signal-IsConsistent m t v =
    ground (arith, dispatch-IsConsistent m.kind m (record t { remote_peer_id = m.sender_peer_id }))

accept_frame-IsConsistent :
    (r : Option NetworkEnvelope × PacketError) (t : KcpRtcTransport)
    → ((e : NetworkEnvelope) → r ≡ (some e, PacketError.no_error) → Passed e)
    → IsConsistent t
    → IsConsistent (accept_frame r t).0
accept_frame-IsConsistent (some e, PacketError.no_error) t passed v = record {
  counted = v.counted;
  bounded = v.bounded;
  phase = v.phase;
  incoming = All-append Passed t.incoming_envelopes (e ∷ []) v.incoming (passed e refl, tt);
}
accept_frame-IsConsistent _ t passed v = ground arith

receive_frame-IsConsistent :
    (bytes : List ℕ) (t : KcpRtcTransport) → IsConsistent t → IsConsistent (receive_frame bytes t).0
unfolding receive_frame
receive_frame-IsConsistent bytes t v = ground (
  arith,
  accept_frame-IsConsistent (decode_transport_packet bytes) t (decode_transport_packet-valid bytes)
      v,
)

pub step-IsConsistent : (c : Call) (t : KcpRtcTransport) → IsConsistent t → IsConsistent (step c t)
unfolding step
step-IsConsistent connects t v = connect-IsConsistent t v
step-IsConsistent closes t v = close-IsConsistent t
step-IsConsistent polls t v = poll-IsConsistent t v
step-IsConsistent notifies t v = notify-IsConsistent t v
step-IsConsistent polls_signal t v = poll_signal-IsConsistent t v
step-IsConsistent polls_frame t v = poll_frame-IsConsistent t v
step-IsConsistent (sends e) t v = send-IsConsistent e t v
step-IsConsistent (receives_signal m) t v = receive_signal-IsConsistent m t v
step-IsConsistent (receives_frame bytes) t v = receive_frame-IsConsistent bytes t v

run-IsConsistent : (cs : List Call) (t : KcpRtcTransport) → IsConsistent t → IsConsistent (run cs t)
unfolding run
run-IsConsistent [] t v = v
run-IsConsistent (c ∷ cs) t v = run-IsConsistent cs (step c t) (step-IsConsistent c t v)

-- After any sequence of calls on a new transport, failing ones included, the byte count is that of the
-- frames that wait to be sent and within the configured limit, the phase agrees with the state, and
-- every envelope that waits to be polled has passed ValidateEnvelope.
pub run-create-IsConsistent :
    (config : KcpRtcTransportConfig) (cs : List Call) → IsConsistent (run cs (create config))
run-create-IsConsistent config cs = run-IsConsistent cs (create config) (create-IsConsistent config)
