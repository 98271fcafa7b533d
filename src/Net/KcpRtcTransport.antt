-- ===== src/Net/KcpRtcTransport.antt =====
-- Networking/src/KcpRtcTransport.cpp: each method returns the new state and its result. The front of
-- a queue is the head of its list.
pub mod Signals
pub mod Invariant
pub mod Delivery
pub mod Connecting
pub mod Interface
use brawololo.Prelude.{
  ℕ, ◌+◌, ◌-◌, ◌%◌, ◌^◌, ◌≡◌, refl, Bool, true, false, not, ◌&&◌, ◌||◌, Option, none, some, List,
  [], ◌∷◌, ◌++◌, length, ltb, ◌==◌, if◌then◌else◌,
}
use brawololo.Game.Types.{ClientId}
use brawololo.Game.NetworkProtocol.{ProtocolError, NetworkEnvelope, validate_envelope}
use brawololo.Net.Transport.{
  TransportState, TransportError, no_error, not_connected, protocol_rejected, invalid_configuration,
  peer_closed, TransportStats, no_stats,
}
use brawololo.Net.TransportPacketCodec.{
  PacketError, encode_transport_packet, decode_transport_packet,
}
use brawololo.Net.RtcSignaling.{
  RtcSignalingMessageKind, RtcSignalingMessage, ValidationError, validate_rtc_signaling_message,
  is_empty,
}

pub data KcpRtcRole : Type 0 where
  client server : KcpRtcRole

pub record KcpRtcTransportConfig : Type 0 where
  pub role : KcpRtcRole
  pub local_peer_id : ClientId
  pub peer_name : List ℕ
  pub signaling_url : List ℕ
  pub data_channel_label : List ℕ
  pub max_buffered_amount_bytes : ℕ
  pub unordered_data_channel : Bool
  pub session_id : List ℕ

pub data KcpRtcConnectionPhase : Type 0 where
  disconnected signaling data_channel_connecting connected failed : KcpRtcConnectionPhase

pub record KcpRtcTransport : Type 0 where
  pub config : KcpRtcTransportConfig
  pub state : TransportState
  pub phase : KcpRtcConnectionPhase
  pub stats : TransportStats
  pub last_error : TransportError
  pub next_signal_sequence : ℕ
  pub remote_peer_id : ClientId
  pub outgoing_signals : List RtcSignalingMessage
  pub outgoing_frames : List (List ℕ)
  pub incoming_envelopes : List NetworkEnvelope
  pub buffered_outgoing_frame_bytes : ℕ
  pub local_data_channel_ready : Bool

abbrev pub create : KcpRtcTransportConfig → KcpRtcTransport
create config = record {
  config = config;
  state = TransportState.disconnected;
  phase = KcpRtcConnectionPhase.disconnected;
  stats = no_stats;
  last_error = no_error;
  next_signal_sequence = 1;
  remote_peer_id = 0;
  outgoing_signals = [];
  outgoing_frames = [];
  incoming_envelopes = [];
  buffered_outgoing_frame_bytes = 0;
  local_data_channel_ready = false;
}

unfoldable pub has_valid_config : KcpRtcTransportConfig → Bool
has_valid_config c =
    not (c.local_peer_id == 0)
    && not (is_empty c.peer_name)
    && not (is_empty c.signaling_url)
    && not (is_empty c.data_channel_label)
    && not (c.max_buffered_amount_bytes == 0)
    && not (is_empty c.session_id)

-- The sequence number is a uint32_t, and wraps.
unfoldable pub queue_signal :
    RtcSignalingMessageKind → ClientId → List ℕ → KcpRtcTransport → KcpRtcTransport
queue_signal kind target payload t = record t {
  outgoing_signals =
      t.outgoing_signals
      ++ record {
        kind = kind;
        sender_peer_id = t.config.local_peer_id;
        target_peer_id = target;
        sequence = t.next_signal_sequence;
        session_id = t.config.session_id;
        payload = payload;
      }
        ∷ [];
  next_signal_sequence = (t.next_signal_sequence + 1) % 2 ^ 32;
}

unfoldable pub transition_to_connected : KcpRtcTransport → KcpRtcTransport
transition_to_connected t = record t {
  state = TransportState.connected;
  phase = KcpRtcConnectionPhase.connected;
}

abbrev pub is_client : KcpRtcRole → Bool
is_client client = true
is_client server = false

abbrev pub is_connected : TransportState → Bool
is_connected TransportState.connected = true
is_connected _ = false

unfoldable pub connect : KcpRtcTransport → KcpRtcTransport × Bool
unfolding has_valid_config queue_signal
connect t =
    if not (has_valid_config t.config)
    then (
      record t {
        state = TransportState.failed;
        phase = KcpRtcConnectionPhase.failed;
        last_error = invalid_configuration;
      },
      false,
    )
    else let started = record t {
      state = TransportState.connecting;
      phase = signaling;
      last_error = no_error;
    } in
      let joined = queue_signal RtcSignalingMessageKind.join 0 t.config.peer_name started in
      (
        if is_client t.config.role
            then queue_signal RtcSignalingMessageKind.offer 0 t.config.data_channel_label joined
            else joined,
        true,
      )

unfoldable pub close : KcpRtcTransport → KcpRtcTransport
close t = record t {
  state = TransportState.disconnected;
  phase = KcpRtcConnectionPhase.disconnected;
  last_error = no_error;
  outgoing_signals = [];
  outgoing_frames = [];
  incoming_envelopes = [];
  buffered_outgoing_frame_bytes = 0;
  remote_peer_id = 0;
  local_data_channel_ready = false;
}

abbrev pub is_accepted : ProtocolError → Bool
is_accepted ProtocolError.no_error = true
is_accepted _ = false

abbrev send_failed : TransportError → KcpRtcTransport → KcpRtcTransport × Bool
send_failed error t = (
  record t {
    stats = record t.stats { send_failures = t.stats.send_failures + 1 };
    last_error = error;
  },
  false,
)

unfoldable pub send : NetworkEnvelope → KcpRtcTransport → KcpRtcTransport × Bool
send envelope t =
    let frame = encode_transport_packet envelope in
    if not (is_accepted (validate_envelope envelope))
    then send_failed protocol_rejected t
    else if not (is_connected t.state)
    then send_failed not_connected t
    else if ltb t.config.max_buffered_amount_bytes (t.buffered_outgoing_frame_bytes + length frame)
    then send_failed protocol_rejected t
    else (
      record t {
        stats = record t.stats {
          bytes_sent = t.stats.bytes_sent + length frame;
          envelopes_sent = t.stats.envelopes_sent + 1;
        };
        buffered_outgoing_frame_bytes = t.buffered_outgoing_frame_bytes + length frame;
        outgoing_frames = t.outgoing_frames ++ frame ∷ [];
        last_error = no_error;
      },
      true,
    )

unfoldable pub poll : KcpRtcTransport → KcpRtcTransport × Option NetworkEnvelope
poll t = elim t.incoming_envelopes [
  | [] ↦ (t, none)
  | envelope ∷ rest ↦ (
    record t {
      incoming_envelopes = rest;
      stats = record t.stats {
        envelopes_received = t.stats.envelopes_received + 1;
        bytes_received = t.stats.bytes_received + length envelope.payload;
      };
      last_error = no_error;
    },
    some envelope,
  )
]

abbrev is_down : TransportState → Bool
is_down TransportState.disconnected = true
is_down TransportState.failed = true
is_down _ = false

unfoldable pub notify_data_channel_ready : KcpRtcTransport → KcpRtcTransport × Bool
unfolding queue_signal transition_to_connected
notify_data_channel_ready t =
    if is_down t.state
    then (record t { last_error = not_connected }, false)
    else let told =
        if t.local_data_channel_ready
        then t
        else record (queue_signal RtcSignalingMessageKind.data_channel_ready t.remote_peer_id []
            t) { local_data_channel_ready = true } in
      (record (transition_to_connected told) { last_error = no_error }, true)

unfoldable pub poll_outgoing_signal : KcpRtcTransport → KcpRtcTransport × Option RtcSignalingMessage
poll_outgoing_signal t = elim t.outgoing_signals [
  | [] ↦ (t, none)
  | signal ∷ rest ↦ (record t { outgoing_signals = rest }, some signal)
]

-- `size_t` subtraction: the invariant shows that it never goes below 0.
unfoldable pub poll_outgoing_frame : KcpRtcTransport → KcpRtcTransport × Option (List ℕ)
poll_outgoing_frame t = elim t.outgoing_frames [
  | [] ↦ (t, none)
  | frame ∷ rest ↦ (
    record t {
      outgoing_frames = rest;
      buffered_outgoing_frame_bytes = t.buffered_outgoing_frame_bytes - length frame;
    },
    some frame,
  )
]

abbrev receive_failed : TransportError → KcpRtcTransport → KcpRtcTransport × Bool
receive_failed error t = (
  record t {
    stats = record t.stats { receive_failures = t.stats.receive_failures + 1 };
    last_error = error;
  },
  false,
)

-- DecodeResult::Ok, then the push.
abbrev accept_frame :
    Option NetworkEnvelope × PacketError → KcpRtcTransport → KcpRtcTransport × Bool
accept_frame (some envelope, PacketError.no_error) t = (
  record t { incoming_envelopes = t.incoming_envelopes ++ envelope ∷ []; last_error = no_error },
  true,
)
accept_frame _ t = receive_failed protocol_rejected t

unfoldable pub receive_frame : List ℕ → KcpRtcTransport → KcpRtcTransport × Bool
receive_frame bytes t =
    if not (is_connected t.state)
    then receive_failed not_connected t
    else accept_frame (decode_transport_packet bytes) t
