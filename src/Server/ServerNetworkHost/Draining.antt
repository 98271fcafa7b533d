-- ===== src/Server/ServerNetworkHost/Draining.antt =====
-- The loop of PumpClientMessages of Server/src/ServerNetworkHost.cpp, and the rounds that it takes.
use mathlib.Core.Bool.{true≢false}
use brawololo.Prelude.{
  ℕ, zero, suc, ◌<◌, ◌≤◌, ◌≡◌, ◌≢◌, refl, sym, ap, ◌∙◌, inl, inr, Bool-cases, true, false, not,
  Option, none, some, List, arith, if-elim,
}
use brawololo.Prelude.Sets.{contains}
use brawololo.Game.Components.{has}
use brawololo.Game.Commands.{LoginCommand, ClientInputPacket}
use brawololo.Game.Replication.{SnapshotAckDto}
use brawololo.Game.NetworkEvents.{NetworkEventAckDto}
use brawololo.Game.TimeSync.{TimeSyncRequest}
use brawololo.Game.NetworkProtocol.{
  MessageClass, NetworkEnvelope, ProtocolError, no_error, unsupported_version, payload_too_large,
  channel_mismatch, validate_envelope,
}
use brawololo.Game.SnapshotBaselineCache.{find}
use brawololo.Game.Simulation.Registry.{Entt}
use brawololo.Net.Transport.{Transport, IsDraining}
use brawololo.Net.KcpRtcTransport.{is_accepted}
use brawololo.Server.ServerClientReplicationState.{
  ServerClientReplicationState, acknowledge_snapshot, acknowledge_reliable_event,
}
use brawololo.Server.ServerRuntime.{connect_client, submit}
use brawololo.Server.ServerNetworkHost.{ServerNetworkHost, state_of_client}
use brawololo.Server.ServerNetworkHost.Receiving.{
  handle_login, handle_input, acknowledge_found, handle_snapshot_ack, acknowledge_event_found,
  handle_network_event_ack, time_sync_envelope, handle_time_sync, handle, handle_polled, pump_round,
  pump_client_messages,
}

is_accepted-eq : (v : ProtocolError) → is_accepted v ≡ true → v ≡ no_error
is_accepted-eq no_error h = refl
is_accepted-eq unsupported_version h = absurd (true≢false (sym h))
is_accepted-eq payload_too_large h = absurd (true≢false (sym h))
is_accepted-eq channel_mismatch h = absurd (true≢false (sym h))

module _ (E : Entt) (T : Transport) where
  -- What is left of a host whose transport has been polled.
  abbrev pub polled : T.State → ServerNetworkHost E T → ServerNetworkHost E T
  polled t h = record h { transport = t }

  -- The loop as the source has it: an envelope that does not validate is skipped, one that does is handled,
  -- and the loop ends only when a poll gives none.
  pub data Pumps : ServerNetworkHost E T → ServerNetworkHost E T → Type 0 where
    stops :
        {h : ServerNetworkHost E T} {t : T.State}
        → T.poll h.transport ≡ (t, none)
        → Pumps h (polled t h)
    skips :
        {h h' : ServerNetworkHost E T} {t : T.State} {e : NetworkEnvelope}
        → T.poll h.transport ≡ (t, some e)
        → validate_envelope e ≢ no_error
        → Pumps (polled t h) h'
        → Pumps h h'
    handles :
        {h h' : ServerNetworkHost E T} {t : T.State} {e : NetworkEnvelope}
        → T.poll h.transport ≡ (t, some e)
        → validate_envelope e ≡ no_error
        → Pumps (handle E T e.message_class e.payload (polled t h)) h'
        → Pumps h h'

  Pumps-last :
      (h : ServerNetworkHost E T) (t : T.State) (o : Option NetworkEnvelope)
      → T.poll h.transport ≡ (t, o)
      → (handle_polled E T o (polled t h)).1 ≡ false
      → Pumps h (handle_polled E T o (polled t h)).0
  Pumps-last h t none found ended = stops found
  Pumps-last h t (some e) found ended = absurd (true≢false ended)

  Pumps-next :
      (h h' : ServerNetworkHost E T) (t : T.State) (o : Option NetworkEnvelope)
      → T.poll h.transport ≡ (t, o)
      → (handle_polled E T o (polled t h)).1 ≡ true
      → Pumps (handle_polled E T o (polled t h)).0 h'
      → Pumps h h'
  Pumps-next h h' t none found more later = absurd (true≢false (sym more))
  Pumps-next h h' t (some e) found more later =
      elim (Bool-cases (is_accepted (validate_envelope e))) [
        | inl accepted ↦ handles found (is_accepted-eq _ accepted) (rw accepted at later)
        | inr refused ↦
            skips found (λ v. true≢false (sym (ap is_accepted v) ∙ refused)) (rw refused at later)
      ]

  module _ (D : IsDraining T) where
    abbrev NoMore : ServerNetworkHost E T → ServerNetworkHost E T → Type 0
    NoMore h h' = D.waiting h'.transport ≤ D.waiting h.transport

    handle_login-NoMore :
        (o : Option LoginCommand) (h : ServerNetworkHost E T) → NoMore h (handle_login E T o h)
    handle_login-NoMore none h = omega arith
    handle_login-NoMore (some login) h =
        let id = login.header.client_id in
        if-elim (NoMore h) (not (connect_client E id login.header.client_timestamp_ms h.runtime).1)
          _ _ (λ _. omega arith)
          (λ _.
            if-elim (NoMore h) (contains id h.clients) _ _ (λ _. omega arith)
              (λ _.
                if-elim (NoMore h) (has (state_of_client E T id h)) _ _ (λ _. omega arith)
                  (λ _. omega arith)))

    handle_input-NoMore :
        (o : Option ClientInputPacket) (h : ServerNetworkHost E T) → NoMore h (handle_input E T o h)
    handle_input-NoMore none h = omega arith
    handle_input-NoMore (some packet) h =
        if-elim (NoMore h) (submit E packet h.runtime).1 _ _ (λ _. omega arith) (λ _. omega arith)

    acknowledge_found-NoMore :
        (ack : SnapshotAckDto) (o : Option ServerClientReplicationState) (h : ServerNetworkHost E T)
        → NoMore h (acknowledge_found E T ack o h)
    acknowledge_found-NoMore ack none h = omega arith
    acknowledge_found-NoMore ack (some state) h =
        if-elim (NoMore h) (not (has (find ack.client_id ack.snapshot_id h.baseline_cache))) _ _
          (λ _. omega arith)
          (λ _.
            if-elim (NoMore h) (not (acknowledge_snapshot ack.snapshot_id state).1) _ _
              (λ _. omega arith) (λ _. omega arith))

    handle_snapshot_ack-NoMore :
        (o : Option SnapshotAckDto) (h : ServerNetworkHost E T)
        → NoMore h (handle_snapshot_ack E T o h)
    handle_snapshot_ack-NoMore none h = omega arith
    handle_snapshot_ack-NoMore (some ack) h = acknowledge_found-NoMore ack _ h

    acknowledge_event_found-NoMore :
        (ack : NetworkEventAckDto) (o : Option ServerClientReplicationState)
        (h : ServerNetworkHost E T)
        → NoMore h (acknowledge_event_found E T ack o h)
    acknowledge_event_found-NoMore ack none h = omega arith
    acknowledge_event_found-NoMore ack (some state) h =
        if-elim (NoMore h) (not (acknowledge_reliable_event ack.event_id state).1) _ _
          (λ _. omega arith) (λ _. omega arith)

    handle_network_event_ack-NoMore :
        (o : Option NetworkEventAckDto) (h : ServerNetworkHost E T)
        → NoMore h (handle_network_event_ack E T o h)
    handle_network_event_ack-NoMore none h = omega arith
    handle_network_event_ack-NoMore (some ack) h = acknowledge_event_found-NoMore ack _ h

    handle_time_sync-NoMore :
        (o : Option TimeSyncRequest) (h : ServerNetworkHost E T)
        → NoMore h (handle_time_sync E T o h)
    handle_time_sync-NoMore none h = omega arith
    handle_time_sync-NoMore (some request) h =
        let e = time_sync_envelope request h.runtime.simulation.time_ms in
        let no_more = D.none-send h.transport e in
        if-elim (NoMore h) (T.send e h.transport).1 _ _ (λ _. no_more) (λ _. no_more)

    handle-NoMore :
        (class : MessageClass) (payload : List ℕ) (h : ServerNetworkHost E T)
        → NoMore h (handle E T class payload h)
    unfolding handle
    handle-NoMore MessageClass.login_request payload h = handle_login-NoMore _ h
    handle-NoMore MessageClass.client_input payload h = handle_input-NoMore _ h
    handle-NoMore MessageClass.snapshot_ack payload h = handle_snapshot_ack-NoMore _ h
    handle-NoMore MessageClass.network_event_ack payload h = handle_network_event_ack-NoMore _ h
    handle-NoMore MessageClass.time_sync_request payload h = handle_time_sync-NoMore _ h
    handle-NoMore _ payload h = omega arith

    -- A round that finds a message leaves fewer.
    handle_polled_fewer :
        (o : Option NetworkEnvelope) (h : ServerNetworkHost E T)
        → (handle_polled E T o h).1 ≡ true
        → ((e : NetworkEnvelope) × (o ≡ some e)) × NoMore h (handle_polled E T o h).0
    handle_polled_fewer none h more = absurd (cc)
    handle_polled_fewer (some e) h more = (
      (e, refl),
      if-elim (NoMore h) (not (is_accepted (validate_envelope e))) _ _ (λ _. omega arith)
          (λ _. handle-NoMore e.message_class e.payload h),
    )

    pump_round_fewer :
        (h : ServerNetworkHost E T)
        → (pump_round E T h).1 ≡ true
        → D.waiting (pump_round E T h).0.transport < D.waiting h.transport
    unfolding pump_round
    pump_round_fewer h more =
        let (t, o) = T.poll h.transport in
        let ((e, found), no_more) = handle_polled_fewer o (record h { transport = t }) more in
        let fewer = D.fewer-poll h.transport e found in omega arith

    -- Over a transport in which a poll that gives an envelope leaves fewer to wait, and the sending of one
    -- brings none: with more rounds than envelopes wait, pump_client_messages polls until there is no
    -- envelope, skips each that does not validate and handles each that does, in the order of the polls.
    pub pump_client_messages-Pumps :
        (rounds : ℕ) (h : ServerNetworkHost E T)
        → D.waiting h.transport < rounds
        → Pumps h (pump_client_messages E T rounds h)
    unfolding pump_client_messages pump_round
    pump_client_messages-Pumps zero h enough = absurd (omega arith)
    pump_client_messages-Pumps (suc rounds) h enough =
        let (t, o) = T.poll h.transport in
        if-elim (Pumps h) (pump_round E T h).1 _ _
          (λ more.
            let fewer = pump_round_fewer h more in
            Pumps-next h _ t o refl more
              (pump_client_messages-Pumps rounds (pump_round E T h).0 (omega arith)))
          (λ ended. Pumps-last h t o refl ended)
