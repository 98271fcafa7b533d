-- ===== src/Net/Transport.antt =====
-- Networking/include/Networking/ITransport.hpp. A `size_t` counter is a number without a bound: it
-- counts what has been sent in one run of the program.
use brawololo.Prelude.{ℕ, ◌<◌, ◌≤◌, ◌≡◌, Bool, Option, some}
use brawololo.Game.NetworkProtocol.{NetworkEnvelope}

pub data TransportState : Type 0 where
  disconnected connecting connected closing failed : TransportState

pub data TransportError : Type 0 where
  no_error not_connected protocol_rejected not_implemented invalid_configuration : TransportError
  peer_closed : TransportError

pub record TransportStats : Type 0 where
  pub envelopes_sent : ℕ
  pub envelopes_received : ℕ
  pub send_failures : ℕ
  pub receive_failures : ℕ
  pub bytes_sent : ℕ
  pub bytes_received : ℕ
  pub envelopes_dropped_by_condition : ℕ
  pub envelopes_delayed_by_condition : ℕ

abbrev pub no_stats : TransportStats
no_stats = record {
  envelopes_sent = 0;
  envelopes_received = 0;
  send_failures = 0;
  receive_failures = 0;
  bytes_sent = 0;
  bytes_received = 0;
  envelopes_dropped_by_condition = 0;
  envelopes_delayed_by_condition = 0;
}

-- ITransport, as its user sees it: the state of a transport, and the methods that a host calls.
pub record Transport : Type 1 where
  pub State : Type 0
  pub send : NetworkEnvelope → State → State × Bool
  pub poll : State → State × Option NetworkEnvelope

-- A transport in which so many envelopes wait at most: a poll that gives one leaves fewer, and the
-- sending of an envelope brings none.
pub record IsDraining (T : Transport) : Type 0 where
  pub waiting : T.State → ℕ
  pub fewer-poll :
      (t : T.State) (e : NetworkEnvelope) → (T.poll t).1 ≡ some e → waiting (T.poll t).0 < waiting t
  pub none-send : (t : T.State) (e : NetworkEnvelope) → waiting (T.send e t).0 ≤ waiting t
