-- ===== src/Server/ServerNetworkHost/Steady.antt =====
-- What holds of a host of Server/src/ServerNetworkHost.cpp after any of its calls, over any transport.
pub mod Handling
pub mod Snapshots
pub mod Runs
use brawololo.Prelude.{
  ℕ, ◌+◌, ◌≤◌, ◌≡◌, refl, sym, ap, ◌∙◌, subst, Bool, true, false, not, Option, none, some, List, [],
  ◌∷◌, ◌++◌, length, All, All-imp, All-append, arith, ◌==◌, ==_iff, Bool-cases, inl, inr, if-elim,
}
use brawololo.Prelude.Maps.{lookup, assign, lookup-assign, lookup-assign_other}
use brawololo.Prelude.Sets.{contains}
use brawololo.Game.Types.{ClientId, NetworkEntityId, TimestampMs}
use brawololo.Game.Components.{has}
use brawololo.Game.Commands.{LoginCommand, ClientInputPacket}
use brawololo.Game.Events.{DomainEvent, entity_entered_interest, entity_left_interest}
use brawololo.Game.InterestManagement.{InterestFrame}
use brawololo.Game.NetworkEvents.{NetworkEventKind, NetworkEventDto, kind_for_network_event}
use brawololo.Game.NetworkProtocol.{NetworkEnvelope, protocol_version, expected_channel_for}
use brawololo.Game.Simulation.Registry.{Entt}
use brawololo.Net.Transport.{Transport}
use brawololo.Server.ServerClientReplicationState.{
  ServerClientReplicationState, reliable_events_due_for_resend, track_reliable_event,
}
use brawololo.Server.ServerNetworkHost.{ServerNetworkHost, state_of_client, put_state}
use brawololo.Server.ServerNetworkHost.Sending.{
  route_of, event_envelope, observer_only, is_for, track_found, count_event, send_reliable_event,
  send_to_clients, send_converted, next_network_event, take_event_id, broadcast_reliable_events,
  send_found, send_interest, send_interest_events, resend_events, resend_found, resend_each,
}

-- On the one channel of its class, in this version of the protocol.
pub record IsRouted (e : NetworkEnvelope) : Type 0 where
  pub version : e.protocol_version ≡ protocol_version
  pub channel : e.channel ≡ expected_channel_for e.message_class

route_of-expected_channel_for :
    (kind : NetworkEventKind) → (route_of kind).0 ≡ expected_channel_for (route_of kind).1
unfolding expected_channel_for
route_of-expected_channel_for NetworkEventKind.player_spawned = refl
route_of-expected_channel_for _ = refl

event_envelope-IsRouted :
    (id : ClientId) (event : NetworkEventDto) → IsRouted (event_envelope id event)
unfolding event_envelope
event_envelope-IsRouted id event = record {
  version = refl;
  channel = route_of-expected_channel_for (kind_for_network_event event.payload);
}

has-lookup-assign :
    {A : Type 0} (k j : ℕ) (a : A) (m : List (ℕ × A))
    → has (lookup j m) ≡ true
    → has (lookup j (assign k a m)) ≡ true
has-lookup-assign k j a m h = elim (Bool-cases (j == k)) [
  | inl same ↦
      ap (λ i. has (lookup i (assign k a m))) ((==_iff j k).0 same) ∙ ap has (lookup-assign k a m)
  | inr other ↦ ap has (lookup-assign_other k j a m (ground arith)) ∙ h
]

-- What is asked of a property of a transport: a poll keeps it, and the sending of an envelope on the
-- channel of its class.
pub record IsKept (T : Transport) (P : T.State → Type 0) : Type 0 where
  pub by_poll : (t : T.State) → P t → P (T.poll t).0
  pub by_send : (e : NetworkEnvelope) (t : T.State) → IsRouted e → P t → P (T.send e t).0

module _ (E : Entt) (T : Transport) (P : T.State → Type 0) where
  pub record IsSteady (h : ServerNetworkHost E T) : Type 0 where
    pub told : P h.transport
    pub connected : h.stats.connected_clients ≡ length h.clients
    pub snapshots :
        h.stats.snapshots_sent ≡ h.stats.full_snapshots_sent + h.stats.delta_eligible_snapshots_sent
    pub resent : h.stats.reliable_events_resent ≤ h.stats.reliable_events_sent
    pub known : All (λ id. has (state_of_client E T id h) ≡ true) h.clients

  -- What the property is about.
  pub record Summary : Type 0 where
    pub transport : T.State
    pub clients : List ClientId
    pub states : List (ClientId × ServerClientReplicationState)
    pub connected_clients : ℕ
    pub snapshots_sent : ℕ
    pub full_snapshots_sent : ℕ
    pub delta_eligible_snapshots_sent : ℕ
    pub reliable_events_sent : ℕ
    pub reliable_events_resent : ℕ

  abbrev pub summary : ServerNetworkHost E T → Summary
  summary h = record {
    transport = h.transport;
    clients = h.clients;
    states = h.client_state_by_id;
    connected_clients = h.stats.connected_clients;
    snapshots_sent = h.stats.snapshots_sent;
    full_snapshots_sent = h.stats.full_snapshots_sent;
    delta_eligible_snapshots_sent = h.stats.delta_eligible_snapshots_sent;
    reliable_events_sent = h.stats.reliable_events_sent;
    reliable_events_resent = h.stats.reliable_events_resent;
  }

  abbrev Holds : Summary → Type 0
  Holds x =
      P x.transport
      × (x.connected_clients ≡ length x.clients)
      × (x.snapshots_sent ≡ x.full_snapshots_sent + x.delta_eligible_snapshots_sent)
      × (x.reliable_events_resent ≤ x.reliable_events_sent)
      × All (λ id. has (lookup id x.states) ≡ true) x.clients

  pub summary-IsSteady :
      (h h' : ServerNetworkHost E T) → summary h ≡ summary h' → IsSteady h → IsSteady h'
  unfolding lookup
  summary-IsSteady h h' same s =
      let (told, connected, snapshots, resent, known) =
        subst Holds same (s.told, s.connected, s.snapshots, s.resent, s.known) in
      record {
        told = told;
        connected = connected;
        snapshots = snapshots;
        resent = resent;
        known = known;
      }

  pub put_state-IsSteady :
      (id : ClientId) (state : ServerClientReplicationState) (h : ServerNetworkHost E T)
      → IsSteady h
      → IsSteady (put_state E T id state h)
  put_state-IsSteady id state h s = record {
    told = s.told;
    connected = s.connected;
    snapshots = s.snapshots;
    resent = s.resent;
    known = All-imp _ _ (λ j. has-lookup-assign id j state h.client_state_by_id) h.clients s.known;
  }

  -- Another state of the transport.
  pub sent-IsSteady :
      (t : T.State) (h : ServerNetworkHost E T)
      → P t
      → IsSteady h
      → IsSteady (record h { transport = t })
  sent-IsSteady t h p s = record {
    told = p;
    connected = s.connected;
    snapshots = s.snapshots;
    resent = s.resent;
    known = s.known;
  }

  track_found-IsSteady :
      (id : ClientId) (event : NetworkEventDto) (now : TimestampMs)
      (o : Option ServerClientReplicationState) (h : ServerNetworkHost E T)
      → IsSteady h
      → IsSteady (track_found E T id event now o h)
  track_found-IsSteady id event now none h s = s
  track_found-IsSteady id event now (some state) h s = put_state-IsSteady id _ h s

  count_event-IsSteady :
      (is_resend : Bool) (h : ServerNetworkHost E T)
      → IsSteady h
      → IsSteady (count_event E T is_resend h)
  count_event-IsSteady true h s = record {
    told = s.told;
    connected = s.connected;
    snapshots = s.snapshots;
    resent = let r = s.resent in omega arith;
    known = s.known;
  }
  count_event-IsSteady false h s = record {
    told = s.told;
    connected = s.connected;
    snapshots = s.snapshots;
    resent = let r = s.resent in omega arith;
    known = s.known;
  }

  pub take_event_id-IsSteady :
      (h : ServerNetworkHost E T) → IsSteady h → IsSteady (take_event_id E T h)
  take_event_id-IsSteady h s = summary-IsSteady _ _ refl s

  module _ (kept : IsKept T P) where
    send_reliable_event-IsSteady :
        (id : ClientId) (event : NetworkEventDto) (now : TimestampMs) (is_resend : Bool)
        (h : ServerNetworkHost E T)
        → IsSteady h
        → IsSteady (send_reliable_event E T id event now is_resend h)
    unfolding send_reliable_event lookup
    send_reliable_event-IsSteady id event now is_resend h s =
        let e = event_envelope id event in
        let told = record h { transport = (T.send e h.transport).0 } in
        let steady =
          sent-IsSteady (T.send e h.transport).0 h
            (kept.by_send e h.transport (event_envelope-IsRouted id event) s.told) s in
        if-elim IsSteady (T.send e h.transport).1 _ _
          (λ _.
            count_event-IsSteady is_resend _
              (track_found-IsSteady id event now (state_of_client E T id told) told steady))
          (λ _. steady)

    send_to_clients-IsSteady :
        (ids : List ClientId) (event : NetworkEventDto) (now : TimestampMs)
        (h : ServerNetworkHost E T)
        → IsSteady h
        → IsSteady (send_to_clients E T ids event now h)
    unfolding send_to_clients
    send_to_clients-IsSteady [] event now h s = s
    send_to_clients-IsSteady (id ∷ rest) event now h s = send_to_clients-IsSteady rest event now _ (
        if-elim IsSteady (is_for id (observer_only event.payload)) _ _
          (λ _. send_reliable_event-IsSteady id event now false h s) (λ _. s))

    send_converted-IsSteady :
        (ids : List ClientId) (o : Option NetworkEventDto) (now : TimestampMs)
        (h : ServerNetworkHost E T)
        → IsSteady h
        → IsSteady (send_converted E T ids o now h)
    send_converted-IsSteady ids none now h s = s
    send_converted-IsSteady ids (some event) now h s = send_to_clients-IsSteady ids event now h s

    pub broadcast_reliable_events-IsSteady :
        (events : List DomainEvent) (now : TimestampMs) (h : ServerNetworkHost E T)
        → IsSteady h
        → IsSteady (broadcast_reliable_events E T events now h)
    unfolding broadcast_reliable_events
    broadcast_reliable_events-IsSteady [] now h s = s
    broadcast_reliable_events-IsSteady (event ∷ rest) now h s =
        broadcast_reliable_events-IsSteady rest now _ (
          send_converted-IsSteady h.clients (next_network_event E T event h) now _
            (take_event_id-IsSteady h s))

    send_found-IsSteady :
        (id : ClientId) (o : Option NetworkEventDto) (now : TimestampMs) (h : ServerNetworkHost E T)
        → IsSteady h
        → IsSteady (send_found E T id o now h)
    send_found-IsSteady id none now h s = s
    send_found-IsSteady id (some event) now h s =
        send_reliable_event-IsSteady id event now false h s

    send_interest-IsSteady :
        (make : NetworkEntityId → DomainEvent) (id : ClientId) (ids : List NetworkEntityId)
        (now : TimestampMs) (h : ServerNetworkHost E T)
        → IsSteady h
        → IsSteady (send_interest E T make id ids now h)
    unfolding send_interest
    send_interest-IsSteady make id [] now h s = s
    send_interest-IsSteady make id (entity ∷ rest) now h s =
        send_interest-IsSteady make id rest now _ (
          send_found-IsSteady id (next_network_event E T (make entity) h) now _
            (take_event_id-IsSteady h s))

    pub send_interest_events-IsSteady :
        (id : ClientId) (frame : InterestFrame) (now : TimestampMs) (h : ServerNetworkHost E T)
        → IsSteady h
        → IsSteady (send_interest_events E T id frame now h)
    unfolding send_interest_events
    send_interest_events-IsSteady id frame now h s =
        send_interest-IsSteady (λ e. entity_left_interest e id) id frame.exited now _
          (send_interest-IsSteady (λ e. entity_entered_interest e id) id frame.entered now h s)

    resend_events-IsSteady :
        (id : ClientId) (events : List NetworkEventDto) (now : TimestampMs)
        (h : ServerNetworkHost E T)
        → IsSteady h
        → IsSteady (resend_events E T id events now h)
    unfolding resend_events
    resend_events-IsSteady id [] now h s = s
    resend_events-IsSteady id (event ∷ rest) now h s =
        resend_events-IsSteady id rest now _ (send_reliable_event-IsSteady id event now true h s)

    resend_found-IsSteady :
        (id : ClientId) (o : Option ServerClientReplicationState) (now : TimestampMs)
        (h : ServerNetworkHost E T)
        → IsSteady h
        → IsSteady (resend_found E T id o now h)
    resend_found-IsSteady id none now h s = s
    resend_found-IsSteady id (some state) now h s = resend_events-IsSteady id _ now h s

    pub resend_each-IsSteady :
        (entries : List (ClientId × ServerClientReplicationState)) (now : TimestampMs)
        (h : ServerNetworkHost E T)
        → IsSteady h
        → IsSteady (resend_each E T entries now h)
    unfolding resend_each
    resend_each-IsSteady [] now h s = s
    resend_each-IsSteady (entry ∷ rest) now h s =
        resend_each-IsSteady rest now _
          (resend_found-IsSteady entry.0 (state_of_client E T entry.0 h) now h s)
