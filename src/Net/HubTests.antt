-- ===== src/Net/HubTests.antt =====
-- A server and two clients over one hub.
use brawololo.Prelude.{◌≡◌, refl, true, some, arith}
use brawololo.Game.NetworkProtocol.{NetworkEnvelope, validate_envelope, expected_channel_for}
use brawololo.Game.Tests.{greeting}
use brawololo.Net.KcpRtcTransport.{is_accepted}
use brawololo.Net.MultiClientLoopbackTransport.{
  Hub, create_hub, create_server, create_client, send, poll,
}
use brawololo.Net.MultiClientLoopbackTransport.Routing.{
  created, sent, poll-IsFor, poll_server-send, poll_other-send,
}

-- The server has sent one envelope, to client 3.
abbrev to_third : NetworkEnvelope
to_third = record greeting { peer_id = 3 }

abbrev one_sent : Hub
one_sent = (send to_third create_server create_hub).0.1

poll-IsFor_example :
    (to_third.peer_id ≡ (create_client 3).client_id)
    × (is_accepted (validate_envelope to_third) ≡ true)
unfolding send poll validate_envelope expected_channel_for
poll-IsFor_example =
    poll-IsFor one_sent (create_client 3) to_third (sent to_third create_server created) refl refl

-- The client 3 says that it is client 9.
poll_server-send_example :
    ((send (record greeting { peer_id = 9 }) (create_client 3) create_hub).1 ≡ true)
    × ((poll create_server
          (send (record greeting { peer_id = 9 }) (create_client 3) create_hub).0.1).1
        ≡ some to_third)
unfolding validate_envelope expected_channel_for
poll_server-send_example =
    poll_server-send (create_client 3) create_server create_hub (record greeting { peer_id = 9 })
      refl refl refl refl refl refl refl refl

poll_other-send_example :
    (poll (create_client 3) (send (record greeting { peer_id = 5 }) create_server one_sent).0.1).1
    ≡ (poll (create_client 3) one_sent).1
poll_other-send_example =
    poll_other-send create_server (create_client 3) one_sent (record greeting { peer_id = 5 }) refl
      (omega arith)
