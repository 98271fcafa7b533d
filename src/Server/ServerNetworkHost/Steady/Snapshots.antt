-- ===== src/Server/ServerNetworkHost/Steady/Snapshots.antt =====
-- The same for SendSnapshot and TickAndSendSnapshots of Server/src/ServerNetworkHost.cpp.
use brawololo.Prelude.{
  if◌then◌else◌, ℕ, ◌+◌, ◌≡◌, refl, Bool, true, false, not, Option, none, some, List, [], ◌∷◌,
  arith, if-elim,
}
use brawololo.Prelude.Maps.{lookup}
use brawololo.Game.Types.{ClientId, TimestampMs}
use brawololo.Game.Replication.{SnapshotDto}
use brawololo.Game.NetworkProtocol.{expected_channel_for}
use brawololo.Game.ReplicationPlanner.{PlannedSnapshot}
use brawololo.Game.SnapshotBaselineCache.{SnapshotBaselineDecision, find, decide}
use brawololo.Game.SnapshotDelta.{SnapshotDeltaPlan, plan_snapshot_delta}
use brawololo.Game.InterestManagement.{update}
use brawololo.Game.Simulation.Registry.{Entt}
use brawololo.Net.Transport.{Transport}
use brawololo.Server.ServerClientReplicationState.{ServerClientReplicationState}
use brawololo.Server.ServerRuntime.{tick, drain_runtime_events}
use brawololo.Server.ServerNetworkHost.{ServerNetworkHost, state_of_client}
use brawololo.Server.ServerNetworkHost.Sending.{broadcast_reliable_events}
use brawololo.Server.ServerNetworkHost.Ticking.{
  acked_of, is_delta, snapshot_envelope, count_delta_plan, plan_against, plan_delta,
  update_interest, count_snapshot, after_snapshot, plan_snapshot_for, send_snapshot, is_scheduled,
  mark_found, skip, serve_client, serve_clients, tick_and_send_snapshots,
}
use brawololo.Server.ServerNetworkHost.Steady.{
  IsRouted, IsKept, IsSteady, put_state-IsSteady, sent-IsSteady, summary-IsSteady,
  broadcast_reliable_events-IsSteady, send_interest_events-IsSteady, resend_each-IsSteady,
}

snapshot_envelope-IsRouted :
    (id : ClientId) (snapshot : SnapshotDto) → IsRouted (snapshot_envelope id snapshot)
unfolding snapshot_envelope expected_channel_for
snapshot_envelope-IsRouted id snapshot = record { version = refl; channel = refl }

one_more :
    (delta : Bool) (sent whole part : ℕ)
    → sent ≡ whole + part
    → sent + 1 ≡ (if delta then whole else whole + 1) + (if delta then part + 1 else part)
one_more true sent whole part h = omega arith
one_more false sent whole part h = omega arith

module _ (E : Entt) (T : Transport) (P : T.State → Type 0) where
  abbrev Steady : ServerNetworkHost E T → Type 0
  Steady = IsSteady E T P

  count_delta_plan-Steady :
      (delta : SnapshotDeltaPlan) (h : ServerNetworkHost E T)
      → Steady h
      → Steady (count_delta_plan E T delta h)
  count_delta_plan-Steady delta h s =
      if-elim Steady delta.baseline_matched _ _ (λ _. summary-IsSteady E T P _ _ refl s) (λ _. s)

  plan_against-Steady :
      (snapshot : SnapshotDto) (o : Option SnapshotDto) (h : ServerNetworkHost E T)
      → Steady h
      → Steady (plan_against E T snapshot o h)
  plan_against-Steady snapshot none h s = s
  plan_against-Steady snapshot (some baseline) h s =
      count_delta_plan-Steady (plan_snapshot_delta snapshot baseline) h s

  plan_delta-Steady :
      (id : ClientId) (snapshot : SnapshotDto) (h : ServerNetworkHost E T)
      → Steady h
      → Steady (plan_delta E T id snapshot h)
  plan_delta-Steady id snapshot h s =
      if-elim Steady (is_delta snapshot.delivery_kind) _ _
        (λ _. plan_against-Steady snapshot (find id snapshot.baseline_id h.baseline_cache) h s)
        (λ _. s)

  count_snapshot-Steady :
      (decision : SnapshotBaselineDecision) (planned : PlannedSnapshot) (h : ServerNetworkHost E T)
      → Steady h
      → Steady (count_snapshot E T decision planned h)
  count_snapshot-Steady decision planned h s = record {
    told = s.told;
    connected = s.connected;
    snapshots = one_more (is_delta planned.snapshot.delivery_kind) _ _ _ s.snapshots;
    resent = s.resent;
    known = s.known;
  }

  skip-Steady : (h : ServerNetworkHost E T) → Steady h → Steady (skip E T h)
  skip-Steady h s = summary-IsSteady E T P _ _ refl s

  mark_found-Steady :
      (id : ClientId) (now : TimestampMs) (o : Option ServerClientReplicationState)
      (h : ServerNetworkHost E T)
      → Steady h
      → Steady (mark_found E T id now o h)
  mark_found-Steady id now none h s = s
  mark_found-Steady id now (some state) h s = put_state-IsSteady E T P id _ h s

  module _ (kept : IsKept T P) where
    update_interest-Steady :
        (id : ClientId) (snapshot : SnapshotDto) (now : TimestampMs)
        (o : Option ServerClientReplicationState) (h : ServerNetworkHost E T)
        → Steady h
        → Steady (update_interest E T id snapshot now o h)
    update_interest-Steady id snapshot now none h s = s
    update_interest-Steady id snapshot now (some state) h s =
        let result = update snapshot state.interest in
        let put = put_state-IsSteady E T P id (record state { interest = result.0 }) h s in
        send_interest_events-IsSteady E T P kept id result.1 now _
          (summary-IsSteady E T P _ _ refl put)

    after_snapshot-Steady :
        (id : ClientId) (now : TimestampMs) (decision : SnapshotBaselineDecision)
        (planned : PlannedSnapshot) (h : ServerNetworkHost E T)
        → Steady h
        → Steady (after_snapshot E T id now decision planned h)
    unfolding after_snapshot lookup
    after_snapshot-Steady id now decision planned h s =
        let interested =
          update_interest-Steady id planned.snapshot now (state_of_client E T id h) h s in
        count_snapshot-Steady decision planned _ (summary-IsSteady E T P _ _ refl interested)

    send_snapshot-Steady :
        (id : ClientId) (now : TimestampMs) (h : ServerNetworkHost E T)
        → Steady h
        → Steady (send_snapshot E T id now h).0
    unfolding send_snapshot plan_snapshot_for lookup
    send_snapshot-Steady id now h s =
        let decision = decide id (acked_of (state_of_client E T id h)) h.baseline_cache in
        let (built, planned) = plan_snapshot_for E T id decision h in
        let compared = plan_delta E T id planned.snapshot built in
        let e = snapshot_envelope id planned.snapshot in
        let steady =
          plan_delta-Steady id planned.snapshot built (summary-IsSteady E T P _ _ refl s) in
        let told =
          sent-IsSteady E T P (T.send e compared.transport).0 compared
            (kept.by_send e compared.transport (snapshot_envelope-IsRouted id planned.snapshot)
              steady.told)
            steady in
        if-elim (λ (r : ServerNetworkHost E T × Bool). Steady r.0) (T.send e compared.transport).1 _
          _ (λ _. after_snapshot-Steady id now decision planned _ told) (λ _. told)

    serve_clients-Steady :
        (now : TimestampMs) (ids : List ClientId) (h : ServerNetworkHost E T)
        → Steady h
        → Steady (serve_clients E T now ids h)
    unfolding serve_clients serve_client lookup
    serve_clients-Steady now [] h s = s
    serve_clients-Steady now (id ∷ rest) h s =
        let sent = send_snapshot-Steady id now h s in
        serve_clients-Steady now rest _ (
          if-elim Steady (not (is_scheduled now (state_of_client E T id h))) _ _
            (λ _. skip-Steady h s)
            (λ _.
              if-elim Steady (send_snapshot E T id now h).1 _ _
                (λ _. mark_found-Steady id now _ _ sent) (λ _. sent)))

    pub tick_and_send_snapshots-Steady :
        (now : TimestampMs) (h : ServerNetworkHost E T)
        → Steady h
        → Steady (tick_and_send_snapshots E T now h)
    unfolding tick_and_send_snapshots
    tick_and_send_snapshots-Steady now h s =
        let (runtime, events) = drain_runtime_events E (tick E h.runtime) in
        let ticked = record h { runtime = runtime } in
        let served =
          serve_clients-Steady now ticked.clients ticked (summary-IsSteady E T P _ _ refl s) in
        let shared =
          broadcast_reliable_events E T events now (serve_clients E T now ticked.clients ticked) in
        let told =
          resend_each-IsSteady E T P kept shared.client_state_by_id now shared
            (broadcast_reliable_events-IsSteady E T P kept events now _ served) in
        summary-IsSteady E T P _ _ refl told
