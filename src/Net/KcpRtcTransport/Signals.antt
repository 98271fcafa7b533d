-- ===== src/Net/KcpRtcTransport/Signals.antt =====
-- KcpRtcTransport::ReceiveSignalingMessage of Networking/src/KcpRtcTransport.cpp
use brawololo.Prelude.{ℕ, Bool, true, false, not, ◌&&◌, ◌||◌, List, [], ◌∷◌, ◌==◌, if◌then◌else◌}
use brawololo.Net.Transport.{TransportState, no_error, protocol_rejected, peer_closed}
use brawololo.Net.RtcSignaling.{
  RtcSignalingMessageKind, RtcSignalingMessage, ValidationError, validate_rtc_signaling_message,
}
use brawololo.Net.KcpRtcTransport.{
  KcpRtcTransport, KcpRtcConnectionPhase, data_channel_connecting, is_client, queue_signal,
  transition_to_connected,
}

abbrev pub same_bytes : List ℕ → List ℕ → Bool
same_bytes [] [] = true
same_bytes (a ∷ as') (b ∷ bs) = a == b && same_bytes as' bs
same_bytes _ _ = false

abbrev pub is_valid : ValidationError → Bool
is_valid ValidationError.no_error = true
is_valid _ = false

abbrev rejected : KcpRtcTransport → KcpRtcTransport × Bool
rejected t = (record t { last_error = protocol_rejected }, false)

abbrev done : KcpRtcTransport → KcpRtcTransport × Bool
done t = (record t { last_error = no_error }, true)

abbrev channel_connecting : KcpRtcTransport → KcpRtcTransport
channel_connecting t = record t {
  phase = data_channel_connecting;
  state = TransportState.connecting;
}

-- The switch; `remotePeerId_` has been set.
unfoldable pub dispatch_signal :
    RtcSignalingMessageKind → RtcSignalingMessage → KcpRtcTransport → KcpRtcTransport × Bool
unfolding queue_signal transition_to_connected
dispatch_signal RtcSignalingMessageKind.offer message t =
    if is_client t.config.role
    then rejected t
    else done (
        queue_signal RtcSignalingMessageKind.answer message.sender_peer_id
          t.config.data_channel_label (channel_connecting t))
dispatch_signal RtcSignalingMessageKind.answer message t =
    if is_client t.config.role then done (channel_connecting t) else rejected t
dispatch_signal RtcSignalingMessageKind.data_channel_ready message t =
    done (transition_to_connected t)
dispatch_signal RtcSignalingMessageKind.leave message t =
    done
      (record t { state = TransportState.disconnected; phase = KcpRtcConnectionPhase.disconnected })
dispatch_signal RtcSignalingMessageKind.error message t = (
  record t {
    state = TransportState.failed;
    phase = KcpRtcConnectionPhase.failed;
    last_error = peer_closed;
  },
  false,
)
dispatch_signal RtcSignalingMessageKind.join message t = done t
dispatch_signal RtcSignalingMessageKind.ice_candidate message t = done t

-- Whether the message is valid, of this session, and for this peer or for all.
unfoldable pub is_addressed : RtcSignalingMessage → KcpRtcTransport → Bool
is_addressed message t =
    is_valid (validate_rtc_signaling_message message)
    && same_bytes message.session_id t.config.session_id
    && (message.target_peer_id == 0 || message.target_peer_id == t.config.local_peer_id)

unfoldable pub receive_signaling_message :
    RtcSignalingMessage → KcpRtcTransport → KcpRtcTransport × Bool
receive_signaling_message message t =
    if not (is_addressed message t)
    then rejected t
    else if message.sender_peer_id == t.config.local_peer_id
    then rejected t
    else dispatch_signal message.kind message (record t { remote_peer_id = message.sender_peer_id })
