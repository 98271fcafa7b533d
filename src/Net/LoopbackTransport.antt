-- ===== src/Net/LoopbackTransport.antt =====
-- Networking/include/Networking/LoopbackTransport.hpp and Networking/src/LoopbackTransport.cpp. The two
-- ends of a pair share one SharedState, which each method takes and gives back; the front of a queue is
-- the head of its list.
pub mod Conservation
pub mod Others
pub mod Pair
pub mod Delivery
use brawololo.Prelude.{
  ℕ, zero, suc, ◌+◌, ◌%◌, ◌^◌, Bool, true, false, not, ◌&&◌, ◌||◌, Option, none, some, List, [],
  ◌∷◌, ◌++◌, length, ◌==◌, if◌then◌else◌,
}
use brawololo.Game.NetworkProtocol.{NetworkEnvelope, validate_envelope}
use brawololo.Net.Transport.{
  TransportState, TransportError, no_error, not_connected, protocol_rejected, TransportStats,
  no_stats,
}
use brawololo.Net.KcpRtcTransport.{is_accepted, is_connected}

pub record LoopbackNetworkConditions : Type 0 where
  pub drop_every_nth_outgoing_envelope : ℕ
  pub delay_every_nth_outgoing_envelope : ℕ

pub data Endpoint : Type 0 where
  a b : Endpoint

pub record SharedState : Type 0 where
  pub a_to_b : List NetworkEnvelope
  pub b_to_a : List NetworkEnvelope
  pub delayed_a_to_b : List NetworkEnvelope
  pub delayed_b_to_a : List NetworkEnvelope

-- `has_state` tells whether the pointer `state_` is set.
pub record LoopbackTransport : Type 0 where
  pub has_state : Bool
  pub endpoint : Endpoint
  pub conditions : LoopbackNetworkConditions
  pub outgoing_envelope_ordinal : ℕ
  pub state_value : TransportState
  pub stats : TransportStats
  pub last_error : TransportError

abbrev pub empty_state : SharedState
empty_state = record { a_to_b = []; b_to_a = []; delayed_a_to_b = []; delayed_b_to_a = [] }

abbrev pub create_end : Endpoint → LoopbackNetworkConditions → LoopbackTransport
create_end endpoint conditions = record {
  has_state = true;
  endpoint = endpoint;
  conditions = conditions;
  outgoing_envelope_ordinal = 0;
  state_value = TransportState.connected;
  stats = no_stats;
  last_error = no_error;
}

abbrev pub outgoing_queue : Endpoint → SharedState → List NetworkEnvelope
outgoing_queue a s = s.a_to_b
outgoing_queue b s = s.b_to_a

abbrev pub incoming_queue : Endpoint → SharedState → List NetworkEnvelope
incoming_queue a s = s.b_to_a
incoming_queue b s = s.a_to_b

abbrev pub delayed_outgoing_queue : Endpoint → SharedState → List NetworkEnvelope
delayed_outgoing_queue a s = s.delayed_a_to_b
delayed_outgoing_queue b s = s.delayed_b_to_a

abbrev pub set_outgoing : Endpoint → List NetworkEnvelope → SharedState → SharedState
set_outgoing a q s = record s { a_to_b = q }
set_outgoing b q s = record s { b_to_a = q }

abbrev pub set_incoming : Endpoint → List NetworkEnvelope → SharedState → SharedState
set_incoming a q s = record s { b_to_a = q }
set_incoming b q s = record s { a_to_b = q }

abbrev pub set_delayed : Endpoint → List NetworkEnvelope → SharedState → SharedState
set_delayed a q s = record s { delayed_a_to_b = q }
set_delayed b q s = record s { delayed_b_to_a = q }

-- `ordinal % n == 0` for n that is not zero.
abbrev pub is_nth : ℕ → ℕ → Bool
is_nth zero ordinal = false
is_nth (suc n) ordinal = ordinal % suc n == 0

abbrev pub should_drop_outgoing : LoopbackTransport → Bool
should_drop_outgoing t =
    is_nth t.conditions.drop_every_nth_outgoing_envelope t.outgoing_envelope_ordinal

abbrev pub should_delay_outgoing : LoopbackTransport → Bool
should_delay_outgoing t =
    is_nth t.conditions.delay_every_nth_outgoing_envelope t.outgoing_envelope_ordinal

abbrev pub World : Type 0
World = LoopbackTransport × SharedState

unfoldable pub push_outgoing : NetworkEnvelope → LoopbackTransport → SharedState → World
push_outgoing envelope t s = (
  record t {
    stats = record t.stats {
      bytes_sent = t.stats.bytes_sent + length envelope.payload;
      envelopes_sent = t.stats.envelopes_sent + 1;
    };
  },
  set_outgoing t.endpoint (outgoing_queue t.endpoint s ++ envelope ∷ []) s,
)

abbrev pub release_front : List NetworkEnvelope → LoopbackTransport → SharedState → World
release_front [] t s = (t, s)
release_front (delayed ∷ rest) t s = push_outgoing delayed t (set_delayed t.endpoint rest s)

unfoldable pub release_one_delayed : LoopbackTransport → SharedState → World
unfolding push_outgoing
release_one_delayed t s =
    if not t.has_state then (t, s) else release_front (delayed_outgoing_queue t.endpoint s) t s

-- The loop of FlushDelayed releases one envelope each time round: as many rounds as it finds queued.
unfoldable pub flush_rounds : ℕ → LoopbackTransport → SharedState → World
unfolding release_one_delayed
flush_rounds zero t s = (t, s)
flush_rounds (suc n) t s =
    let released = release_one_delayed t s in flush_rounds n released.0 released.1

unfoldable pub flush_delayed : LoopbackTransport → SharedState → World
unfolding flush_rounds
flush_delayed t s =
    if not t.has_state
    then (t, s)
    else flush_rounds (length (delayed_outgoing_queue t.endpoint s)) t s

abbrev pub set_network_conditions :
    LoopbackNetworkConditions → LoopbackTransport → LoopbackTransport
set_network_conditions conditions t = record t { conditions = conditions }

unfoldable pub connect : LoopbackTransport → LoopbackTransport × Bool
connect t =
    if not t.has_state
    then (record t { state_value = TransportState.failed; last_error = not_connected }, false)
    else (record t { state_value = TransportState.connected; last_error = no_error }, true)

unfoldable pub close : LoopbackTransport → LoopbackTransport
close t = record t { state_value = TransportState.disconnected }

abbrev pub send_failed : TransportError → LoopbackTransport → LoopbackTransport
send_failed error t = record t {
  stats = record t.stats { send_failures = t.stats.send_failures + 1 };
  last_error = error;
}

abbrev pub count_dropped : LoopbackTransport → LoopbackTransport
count_dropped t = record t {
  stats = record t.stats {
    envelopes_dropped_by_condition = t.stats.envelopes_dropped_by_condition + 1;
  };
}

abbrev pub count_delayed : LoopbackTransport → LoopbackTransport
count_delayed t = record t {
  stats = record t.stats {
    envelopes_delayed_by_condition = t.stats.envelopes_delayed_by_condition + 1;
  };
}

-- After the checks; `outgoingEnvelopeOrdinal_`, a uint32_t, has been incremented.
unfoldable pub dispatch_outgoing : NetworkEnvelope → LoopbackTransport → SharedState → World
unfolding push_outgoing release_one_delayed
dispatch_outgoing envelope t s =
    if should_drop_outgoing t
    then (count_dropped t, s)
    else if should_delay_outgoing t
    then (
      count_delayed t,
      set_delayed t.endpoint (delayed_outgoing_queue t.endpoint s ++ envelope ∷ []) s,
    )
    else let pushed = push_outgoing envelope t s in release_one_delayed pushed.0 pushed.1

abbrev pub clear_error : World → World
clear_error w = (record w.0 { last_error = no_error }, w.1)

unfoldable pub send : NetworkEnvelope → LoopbackTransport → SharedState → World × Bool
unfolding dispatch_outgoing
send envelope t s =
    if not t.has_state || not (is_connected t.state_value)
    then ((send_failed not_connected t, s), false)
    else if not (is_accepted (validate_envelope envelope))
    then ((send_failed protocol_rejected t, s), false)
    else (
      clear_error (
          dispatch_outgoing envelope
            (record t { outgoing_envelope_ordinal = (t.outgoing_envelope_ordinal + 1) % 2 ^ 32 })
            s),
      true,
    )

abbrev pub accept_front :
    NetworkEnvelope → LoopbackTransport → LoopbackTransport × Option NetworkEnvelope
accept_front envelope t =
    if not (is_accepted (validate_envelope envelope))
    then (
      record t {
        stats = record t.stats { receive_failures = t.stats.receive_failures + 1 };
        last_error = protocol_rejected;
      },
      none,
    )
    else (
      record t {
        stats = record t.stats {
          envelopes_received = t.stats.envelopes_received + 1;
          bytes_received = t.stats.bytes_received + length envelope.payload;
        };
        last_error = no_error;
      },
      some envelope,
    )

abbrev poll_front :
    List NetworkEnvelope → LoopbackTransport → SharedState → World × Option NetworkEnvelope
poll_front [] t s = ((t, s), none)
poll_front (envelope ∷ rest) t s =
    let (t', found) = accept_front envelope t in ((t', set_incoming t.endpoint rest s), found)

unfoldable pub poll : LoopbackTransport → SharedState → World × Option NetworkEnvelope
poll t s =
    if not t.has_state || not (is_connected t.state_value)
    then ((t, s), none)
    else poll_front (incoming_queue t.endpoint s) t s
