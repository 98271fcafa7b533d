-- ===== src/Server/ServerNetworkHost/Steady/Runs.antt =====
-- The states that a host of Server/src/ServerNetworkHost.cpp reaches by its calls.
use brawololo.Prelude.{ℕ, refl, arith}
use brawololo.Game.Types.{ClientId, TimestampMs}
use brawololo.Game.Simulation.Registry.{Entt}
use brawololo.Net.Transport.{Transport}
use brawololo.Server.ServerNetworkHost.{ServerNetworkHost, ServerNetworkHostConfig, create_host}
use brawololo.Server.ServerNetworkHost.Receiving.{pump_client_messages}
use brawololo.Server.ServerNetworkHost.Ticking.{
  tick_and_send_snapshots, drain_host_events, connect_simulation_only_client,
}
use brawololo.Server.ServerNetworkHost.Steady.{IsKept, IsSteady, summary-IsSteady}
use brawololo.Server.ServerNetworkHost.Steady.Handling.{connect-Steady, pump_client_messages-Steady}
use brawololo.Server.ServerNetworkHost.Steady.Snapshots.{tick_and_send_snapshots-Steady}

module _ (E : Entt) (T : Transport) where
  -- What a host can be, from the start over a transport in a given state.
  pub data Reaches (config : ServerNetworkHostConfig) (start : T.State)
      : ServerNetworkHost E T → Type 0 where
    created : Reaches config start (create_host E T start config)
    connected :
        {h : ServerNetworkHost E T} (id : ClientId) (now : TimestampMs)
        → Reaches config start h
        → Reaches config start (connect_simulation_only_client E T id now h).0
    pumped :
        {h : ServerNetworkHost E T} (rounds : ℕ)
        → Reaches config start h
        → Reaches config start (pump_client_messages E T rounds h)
    ticked :
        {h : ServerNetworkHost E T} (now : TimestampMs)
        → Reaches config start h
        → Reaches config start (tick_and_send_snapshots E T now h)
    drained :
        {h : ServerNetworkHost E T}
        → Reaches config start h
        → Reaches config start (drain_host_events E T h).0

module _ (E : Entt) (T : Transport) (P : T.State → Type 0) (kept : IsKept T P) where
  -- A host whose transport starts with a property that a poll keeps, and the sending of an envelope of
  -- this protocol version on the channel of its class, has after any of its calls a transport with
  -- that property: the host sends no other envelope. Its count of connected clients is that of its
  -- clients, each of which has a replication state; the snapshots that it sent are the full and the
  -- delta-eligible ones; and it counts no more events as resent than as sent.
  pub Reaches-IsSteady :
      (config : ServerNetworkHostConfig) (start : T.State) (h : ServerNetworkHost E T)
      → P start
      → Reaches E T config start h
      → IsSteady E T P h
  Reaches-IsSteady config start _ p (created) = record {
    told = p;
    connected = refl;
    snapshots = refl;
    resent = omega arith;
    known = tt;
  }
  Reaches-IsSteady config start _ p (connected {h} id now r) =
      connect-Steady E T P id now h (Reaches-IsSteady config start h p r)
  Reaches-IsSteady config start _ p (pumped {h} rounds r) =
      pump_client_messages-Steady E T P kept rounds h (Reaches-IsSteady config start h p r)
  Reaches-IsSteady config start _ p (ticked {h} now r) =
      tick_and_send_snapshots-Steady E T P kept now h (Reaches-IsSteady config start h p r)
  Reaches-IsSteady config start _ p (drained {h} r) =
      let s = Reaches-IsSteady config start h p r in summary-IsSteady E T P _ _ refl s
