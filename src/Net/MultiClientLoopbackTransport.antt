-- ===== src/Net/MultiClientLoopbackTransport.antt =====
-- Networking/include/Networking/MultiClientLoopbackTransport.hpp and
-- Networking/src/MultiClientLoopbackTransport.cpp. The transports of one server and its clients share a
-- Hub, which each method takes and gives back; the front of a queue is the head of its list. Update is
-- empty, and State, Stats and LastError read a field.
pub mod Routing
use brawololo.Prelude.{
  ℕ, ◌+◌, Bool, true, false, not, ◌||◌, Option, none, some, List, [], ◌∷◌, ◌++◌, length, ◌==◌,
  if◌then◌else◌,
}
use brawololo.Prelude.Maps.{lookup, assign}
use brawololo.Game.Types.{ClientId}
use brawololo.Game.NetworkProtocol.{NetworkEnvelope, validate_envelope}
use brawololo.Net.Transport.{
  TransportState, TransportError, no_error, not_connected, protocol_rejected, TransportStats,
  no_stats,
}
use brawololo.Net.KcpRtcTransport.{is_accepted, is_connected}

pub record Hub : Type 0 where
  pub to_server : List NetworkEnvelope
  pub to_clients : List (ClientId × List NetworkEnvelope)

pub data Endpoint : Type 0 where
  server client : Endpoint

-- `has_hub` tells whether the pointer `hub_` is set.
pub record MultiClientLoopbackTransport : Type 0 where
  pub has_hub : Bool
  pub endpoint : Endpoint
  pub client_id : ClientId
  pub state : TransportState
  pub stats : TransportStats
  pub last_error : TransportError

abbrev pub create_hub : Hub
create_hub = record { to_server = []; to_clients = [] }

abbrev pub create_end : Endpoint → ClientId → MultiClientLoopbackTransport
create_end endpoint client_id = record {
  has_hub = true;
  endpoint = endpoint;
  client_id = client_id;
  state = TransportState.connected;
  stats = no_stats;
  last_error = no_error;
}

abbrev pub create_server : MultiClientLoopbackTransport
create_server = create_end server 0

abbrev pub create_client : ClientId → MultiClientLoopbackTransport
create_client client_id = create_end client client_id

-- What `operator[]` finds: an absent client has an empty queue.
abbrev pub or_empty : Option (List NetworkEnvelope) → List NetworkEnvelope
or_empty none = []
or_empty (some queue) = queue

abbrev pub client_queue : ClientId → Hub → List NetworkEnvelope
client_queue id hub = or_empty (lookup id hub.to_clients)

abbrev pub set_client_queue : ClientId → List NetworkEnvelope → Hub → Hub
set_client_queue id queue hub = record hub { to_clients = assign id queue hub.to_clients }

abbrev pub World : Type 0
World = MultiClientLoopbackTransport × Hub

unfoldable pub connect : MultiClientLoopbackTransport → MultiClientLoopbackTransport × Bool
connect t =
    if not t.has_hub
    then (record t { state = TransportState.failed; last_error = not_connected }, false)
    else (record t { state = TransportState.connected; last_error = no_error }, true)

unfoldable pub close : MultiClientLoopbackTransport → MultiClientLoopbackTransport
close t = record t { state = TransportState.disconnected }

abbrev pub send_failed :
    TransportError → MultiClientLoopbackTransport → MultiClientLoopbackTransport
send_failed error t = record t {
  stats = record t.stats { send_failures = t.stats.send_failures + 1 };
  last_error = error;
}

abbrev pub count_sent :
    NetworkEnvelope → MultiClientLoopbackTransport → MultiClientLoopbackTransport
count_sent envelope t = record t {
  stats = record t.stats {
    envelopes_sent = t.stats.envelopes_sent + 1;
    bytes_sent = t.stats.bytes_sent + length envelope.payload;
  };
  last_error = no_error;
}

-- A client's envelope carries its own id, and the server's goes to the client that it names.
unfoldable pub route :
    Endpoint → NetworkEnvelope → MultiClientLoopbackTransport → Hub → World × Bool
unfolding lookup assign
route client envelope t hub = (
  (
    count_sent envelope t,
    record hub { to_server = hub.to_server ++ record envelope { peer_id = t.client_id } ∷ [] },
  ),
  true,
)
route server envelope t hub =
    if envelope.peer_id == 0 then ((send_failed protocol_rejected t, hub), false) else (
      (
        count_sent envelope t,
        set_client_queue envelope.peer_id (client_queue envelope.peer_id hub ++ envelope ∷ []) hub,
      ),
      true,
    )

unfoldable pub send : NetworkEnvelope → MultiClientLoopbackTransport → Hub → World × Bool
unfolding route
send envelope t hub =
    if not t.has_hub || not (is_connected t.state)
    then ((send_failed not_connected t, hub), false)
    else if not (is_accepted (validate_envelope envelope))
    then ((send_failed protocol_rejected t, hub), false)
    else route t.endpoint envelope t hub

abbrev pub incoming_queue : Endpoint → ClientId → Hub → List NetworkEnvelope
incoming_queue server id hub = hub.to_server
incoming_queue client id hub = client_queue id hub

-- `operator[]` gives an absent client an empty queue.
unfoldable pub set_incoming_queue : Endpoint → ClientId → List NetworkEnvelope → Hub → Hub
unfolding assign
set_incoming_queue server id queue hub = record hub { to_server = queue }
set_incoming_queue client id queue hub = set_client_queue id queue hub

abbrev pub accept_front :
    NetworkEnvelope
    → MultiClientLoopbackTransport
    → MultiClientLoopbackTransport × Option NetworkEnvelope
accept_front envelope t =
    if not (is_accepted (validate_envelope envelope))
    then (
      record t {
        stats = record t.stats { receive_failures = t.stats.receive_failures + 1 };
        last_error = protocol_rejected;
      },
      none,
    )
    else (
      record t {
        stats = record t.stats {
          envelopes_received = t.stats.envelopes_received + 1;
          bytes_received = t.stats.bytes_received + length envelope.payload;
        };
        last_error = no_error;
      },
      some envelope,
    )

abbrev pub poll_front :
    List NetworkEnvelope → MultiClientLoopbackTransport → Hub → World × Option NetworkEnvelope
poll_front [] t hub = ((t, set_incoming_queue t.endpoint t.client_id [] hub), none)
poll_front (envelope ∷ rest) t hub =
    let (t', found) = accept_front envelope t in
    ((t', set_incoming_queue t.endpoint t.client_id rest hub), found)

unfoldable pub poll : MultiClientLoopbackTransport → Hub → World × Option NetworkEnvelope
unfolding lookup set_incoming_queue
poll t hub =
    if not t.has_hub || not (is_connected t.state)
    then ((t, hub), none)
    else poll_front (incoming_queue t.endpoint t.client_id hub) t hub
