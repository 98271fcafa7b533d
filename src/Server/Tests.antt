-- ===== src/Server/Tests.antt =====
-- A client's replication state at a concrete sequence of calls.
use mathlib.Core.List.{Memᴰ}
use brawololo.Prelude.{ℕ, ◌+◌, ◌<◌, ◌≤◌, ◌≡◌, ◌↔◌, ◌⊎◌, refl, true, some, List, [], ◌∷◌, All, arith}
use brawololo.Prelude.Maps.{lookup}
use brawololo.Game.Types.{NetworkEventId}
use brawololo.Game.Tests.{hit}
use brawololo.Server.ServerClientReplicationState.{
  PendingReliableEvent, create_state, acknowledge_snapshot, mark_snapshot_sent, is_due,
  reliable_events_due_for_resend, track_reliable_event, acknowledge_reliable_event,
}
use brawololo.Server.ServerClientReplicationState.Events.{
  Call, tracks, acks_event, acks_snapshot, marks_sent, run, summary, sends_since_ack, lookup-run,
}
use brawololo.Server.ServerClientReplicationState.Resends.{
  reliable_events_due_for_resend_iff, is_due_iff, resend_delay,
}
use brawololo.Server.ServerClientReplicationState.Snapshots.{acknowledged, acknowledge_snapshot_iff}

-- The event 5 is acknowledged and then sent twice more.
abbrev session : List Call
session =
    tracks hit 100
    ∷ acks_snapshot 4
    ∷ acks_event 5
    ∷ tracks hit 300
    ∷ acks_snapshot 2
    ∷ tracks hit 400
    ∷ marks_sent 400 50
    ∷ []

lookup-run_example :
    lookup 5 (run session (create_state 7)).pending_reliable_events
    ≡ summary (sends_since_ack 5 [] session)
lookup-run_example = lookup-run 5 7 session (omega arith)

session-sends :
    summary (sends_since_ack 5 [] session)
    ≡ some (record { event = hit; first_sent_at_ms = 300; last_sent_at_ms = 400; send_count = 2 })
session-sends = refl

reliable_events_due_for_resend_iff_example :
    Memᴰ hit (reliable_events_due_for_resend 600 100 3 (run session (create_state 7))) ↔ (
      (id : NetworkEventId) × (p : PendingReliableEvent) × (summary (sends_since_ack id [] session)
        ≡ some p)
      × (is_due 600 100 3 p ≡ true)
      × (p.event ≡ hit))
reliable_events_due_for_resend_iff_example =
    reliable_events_due_for_resend_iff session 7 600 100 3 hit (omega arith)

-- The second resend waits for twice the base.
due-times :
    (reliable_events_due_for_resend 599 100 3 (run session (create_state 7)) ≡ [])
    × (reliable_events_due_for_resend 600 100 3 (run session (create_state 7)) ≡ hit ∷ [])
    × (reliable_events_due_for_resend 600 100 2 (run session (create_state 7)) ≡ [])
unfolding reliable_events_due_for_resend is_due track_reliable_event acknowledge_reliable_event
    acknowledge_snapshot mark_snapshot_sent
due-times = (refl, refl, refl)

abbrev twice : PendingReliableEvent
twice = record { event = hit; first_sent_at_ms = 300; last_sent_at_ms = 400; send_count = 2 }

abbrev max_sends : ℕ
max_sends = 3

is_due_iff_example : (is_due 600 100 max_sends twice ≡ true) ↔ (
    ((max_sends ≡ 0) ⊎ (twice.send_count < max_sends))
    × (twice.last_sent_at_ms + resend_delay 100 twice.send_count ≤ 600))
is_due_iff_example = is_due_iff 600 100 max_sends twice (omega arith)

acknowledge_snapshot_iff_example :
    ((acknowledge_snapshot 5 (run session (create_state 7))).1 ≡ true)
    ↔ ((0 < 5) × All (λ x. x < 5) (acknowledged session))
acknowledge_snapshot_iff_example = acknowledge_snapshot_iff session 7 5
