-- ===== src/Server/HostTests.antt =====
-- The host over queues of envelopes and the registry in memory, at concrete calls, with what its
-- theorems say there.
use brawololo.Prelude.{
  ◌≡◌, refl, true, Option, none, some, List, [], ◌∷◌, ◌++◌, length, All, All-append, arith,
}
use brawololo.Game.NetworkProtocol.{NetworkChannel, MessageClass, NetworkEnvelope}
use brawololo.Game.Commands.{LoginCommand}
use brawololo.Game.Serialization.Commands.{serialize_login_command}
use brawololo.Game.Simulation.Registry.Memory.{memory}
use brawololo.Wire.Bytes.{to_le, from_le}
use brawololo.Wire.Reader.{read_uint}
use brawololo.Net.Transport.{Transport, TransportState}
use brawololo.Net.KcpRtcTransport.{KcpRtcTransport, KcpRtcRole, create}
use brawololo.Net.KcpRtcTransport.Interface.{kcp_rtc_transport, kcp_rtc_transport-IsDraining}
use brawololo.Server.ServerNetworkHost.{ServerNetworkHost, ServerNetworkHostConfig, create_host}
use brawololo.Server.ServerNetworkHost.Receiving.{pump_client_messages}
use brawololo.Server.ServerNetworkHost.Ticking.{tick_and_send_snapshots}
use brawololo.Server.ServerNetworkHost.Steady.{IsRouted, IsKept, IsSteady}
use brawololo.Server.ServerNetworkHost.Steady.Runs.{created, pumped, ticked, Reaches-IsSteady}
use brawololo.Server.ServerNetworkHost.Draining.{Pumps, pump_client_messages-Pumps}

-- What waits to be polled, and what was sent.
record Queues : Type 0 where
  incoming : List NetworkEnvelope
  outgoing : List NetworkEnvelope

abbrev poll_queue : List NetworkEnvelope → Queues → Queues × Option NetworkEnvelope
poll_queue [] q = (q, none)
poll_queue (e ∷ rest) q = (record q { incoming = rest }, some e)

abbrev queues : Transport
queues = record {
  State = Queues;
  send = λ e q. (record q { outgoing = q.outgoing ++ e ∷ [] }, true);
  poll = λ q. poll_queue q.incoming q;
}

abbrev AllRouted : Queues → Type 0
AllRouted q = All IsRouted q.outgoing

poll-AllRouted :
    (l : List NetworkEnvelope) (q : Queues) → AllRouted q → AllRouted (poll_queue l q).0
poll-AllRouted [] q h = h
poll-AllRouted (e ∷ rest) q h = h

queues-IsKept : IsKept queues AllRouted
queues-IsKept = record {
  by_poll = λ q. poll-AllRouted q.incoming q;
  by_send = λ e q routed h. All-append IsRouted q.outgoing (e ∷ []) h (routed, tt);
}

abbrev host_config : ServerNetworkHostConfig
host_config = record {
  replication = record {
    max_entities_per_snapshot = 64;
    prioritize_higher_first = true;
    keep_owner_entity_first = true;
  };
  baselines = record { max_baselines_per_client = 32 };
  snapshot_send_interval_ms = 16;
  reliable_event_resend_base_interval_ms = 250;
  reliable_event_max_send_count = 8;
}

abbrev login_7 : LoginCommand
login_7 = record { header = record { client_id = 7; sequence = 1; client_timestamp_ms = 100 } }

abbrev login_envelope : NetworkEnvelope
login_envelope = record {
  protocol_version = 1;
  peer_id = 7;
  channel = NetworkChannel.login_spawn;
  message_class = MessageClass.login_request;
  sequence = 1;
  payload = serialize_login_command login_7;
}

abbrev waiting_login : Queues
waiting_login = record { incoming = login_envelope ∷ []; outgoing = [] }

abbrev fresh_host : ServerNetworkHost memory queues
fresh_host = create_host memory queues waiting_login host_config

abbrev served_host : ServerNetworkHost memory queues
served_host =
    tick_and_send_snapshots memory queues 500 (pump_client_messages memory queues 2 fresh_host)

-- Client 7 has been told its spawn, that its player is in its interest, and a snapshot.
outgoing-served_host : length served_host.transport.outgoing ≡ 3
unfolding pump_client_messages tick_and_send_snapshots serialize_login_command to_le read_uint
    from_le
outgoing-served_host = refl

Reaches-IsSteady_example : IsSteady memory queues AllRouted served_host
Reaches-IsSteady_example =
    Reaches-IsSteady memory queues AllRouted queues-IsKept host_config waiting_login served_host tt
      (ticked 500 (pumped 2 created))

-- A host at the end of a data channel, where a chat message on the channel of the clock waits before the
-- login.
abbrev stray : NetworkEnvelope
stray = record login_envelope {
  channel = NetworkChannel.time_sync;
  message_class = MessageClass.chat_ui;
}

abbrev received : KcpRtcTransport
received =
    record (create (record {
      role = KcpRtcRole.server;
      local_peer_id = 1;
      peer_name = 115 ∷ [];
      signaling_url = 119 ∷ [];
      data_channel_label = 103 ∷ [];
      max_buffered_amount_bytes = 65536;
      unordered_data_channel = true;
      session_id = 109 ∷ [];
    })) { state = TransportState.connected; incoming_envelopes = stray ∷ login_envelope ∷ [] }

abbrev channel_host : ServerNetworkHost memory kcp_rtc_transport
unfolding kcp_rtc_transport
channel_host = create_host memory kcp_rtc_transport received host_config

-- The stray message is passed over, and the login behind it is handled.
clients-channel_host :
    (pump_client_messages memory kcp_rtc_transport 3 channel_host).clients ≡ 7 ∷ []
unfolding channel_host kcp_rtc_transport pump_client_messages serialize_login_command to_le
    read_uint from_le
clients-channel_host = refl

pump_client_messages-Pumps_example :
    Pumps memory kcp_rtc_transport channel_host
      (pump_client_messages memory kcp_rtc_transport 3 channel_host)
unfolding kcp_rtc_transport-IsDraining channel_host
pump_client_messages-Pumps_example =
    pump_client_messages-Pumps memory kcp_rtc_transport kcp_rtc_transport-IsDraining 3 channel_host
      (omega arith)
