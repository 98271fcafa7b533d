-- ===== src/Server/ServerClientReplicationState/Events.antt =====
-- What is pending after any sequence of calls.
use brawololo.Prelude.{
  ◌+◌, ◌<◌, ◌≤◌, ◌^◌, ◌≡◌, refl, ap, ◌∙◌, Option, none, some, List, [], ◌∷◌, ◌++◌, length,
  length-append, ◌==◌, if◌then◌else◌, arith, ==_iff, Bool-cases, inl, inr,
}
use brawololo.Prelude.Maps.{
  lookup, assign, lookup-assign, lookup-assign_other, lookup-erase, lookup-erase_other,
}
use brawololo.Game.Types.{ClientId, SnapshotId, NetworkEventId, TimestampMs}
use brawololo.Game.NetworkEvents.{NetworkEventDto}
use brawololo.Server.ServerClientReplicationState.{
  PendingReliableEvent, Pending, ServerClientReplicationState, create_state, acknowledge_snapshot,
  mark_snapshot_sent, track, track_reliable_event, acknowledge_reliable_event,
}

pub data Call : Type 0 where
  tracks : NetworkEventDto → TimestampMs → Call
  acks_event : NetworkEventId → Call
  acks_snapshot : SnapshotId → Call
  marks_sent : TimestampMs → TimestampMs → Call

abbrev pub step : Call → ServerClientReplicationState → ServerClientReplicationState
step (tracks event now) s = track_reliable_event event now s
step (acks_event id) s = (acknowledge_reliable_event id s).0
step (acks_snapshot id) s = (acknowledge_snapshot id s).0
step (marks_sent now interval) s = mark_snapshot_sent now interval s

abbrev pub run : List Call → ServerClientReplicationState → ServerClientReplicationState
run [] s = s
run (c ∷ cs) s = run cs (step c s)

abbrev pub Sends : Type 0
Sends = List (NetworkEventDto × TimestampMs)

-- How often and when an event was sent since it was last acknowledged, after the sends so far.
abbrev pub sends_after : NetworkEventId → Sends → Call → Sends
sends_after id sends (tracks event now) =
    if event.event_id == id then sends ++ (event, now) ∷ [] else sends
sends_after id sends (acks_event acked) = if acked == id then [] else sends
sends_after id sends (acks_snapshot snapshot) = sends
sends_after id sends (marks_sent now interval) = sends

abbrev pub sends_since_ack : NetworkEventId → Sends → List Call → Sends
sends_since_ack id sends [] = sends
sends_since_ack id sends (c ∷ cs) = sends_since_ack id (sends_after id sends c) cs

abbrev pub last_time : TimestampMs → Sends → TimestampMs
last_time time [] = time
last_time time (x ∷ xs) = last_time x.1 xs

-- The event as it was first sent, the times of its first and last sends, and their number.
abbrev pub summary : Sends → Option PendingReliableEvent
summary [] = none
summary (x ∷ xs) = some (record {
  event = x.0;
  first_sent_at_ms = x.1;
  last_sent_at_ms = last_time x.1 xs;
  send_count = length (x ∷ xs);
})

last_time-append :
    (t u : TimestampMs) (e : NetworkEventDto) (xs : Sends) → last_time t (xs ++ (e, u) ∷ []) ≡ u
last_time-append t u e [] = refl
last_time-append t u e (x ∷ xs) = last_time-append x.1 u e xs

track-summary :
    (e : NetworkEventDto) (t : TimestampMs) (sends : Sends)
    → length sends + 1 < 2 ^ 32
    → some (track e t (summary sends)) ≡ summary (sends ++ (e, t) ∷ [])
track-summary e t [] h = refl
track-summary e t (x ∷ xs) h =
    let n = length-append xs ((e, t) ∷ []) in
    let l = last_time-append x.1 t e xs in ground (arith, n, l)

lookup-assign_at :
    (k id : NetworkEventId) (p : Option PendingReliableEvent → PendingReliableEvent) (m : Pending)
    → k ≡ id
    → lookup id (assign k (p (lookup k m)) m) ≡ some (p (lookup id m))
lookup-assign_at k id p m same = rw same (lookup-assign id (p (lookup id m)) m)

step-pending :
    (id : NetworkEventId) (c : Call) (s : ServerClientReplicationState) (sends : Sends)
    → length sends + 1 < 2 ^ 32
    → lookup id s.pending_reliable_events ≡ summary sends
    → lookup id (step c s).pending_reliable_events ≡ summary (sends_after id sends c)
unfolding track_reliable_event acknowledge_reliable_event acknowledge_snapshot mark_snapshot_sent
step-pending id (tracks e t) s sends few h = elim (Bool-cases (e.event_id == id)) [
  | inl same ↦ rw same (
      lookup-assign_at e.event_id id (track e t) s.pending_reliable_events
        ((==_iff e.event_id id).0 same)
      ∙ ap (λ p. some (track e t p)) h
      ∙ track-summary e t sends few)
  | inr differs ↦
      rw differs (lookup-assign_other e.event_id id _ s.pending_reliable_events (ground arith) ∙ h)
]
step-pending id (acks_event acked) s sends few h = elim (Bool-cases (acked == id)) [
  | inl same ↦ rw (same, (==_iff acked id).0 same) (lookup-erase id s.pending_reliable_events)
  | inr differs ↦
      rw differs (lookup-erase_other acked id s.pending_reliable_events (ground arith) ∙ h)
]
step-pending id (acks_snapshot snapshot) s sends few h = ground arith
step-pending id (marks_sent now interval) s sends few h = h

length-sends_after :
    (id : NetworkEventId) (c : Call) (sends : Sends)
    → length (sends_after id sends c) ≤ length sends + 1
length-sends_after id (tracks e t) sends = ground (arith, length-append sends ((e, t) ∷ []))
length-sends_after id (acks_event acked) sends = ground arith
length-sends_after id (acks_snapshot snapshot) sends = omega arith
length-sends_after id (marks_sent now interval) sends = omega arith

run-pending :
    (id : NetworkEventId) (cs : List Call) (s : ServerClientReplicationState) (sends : Sends)
    → length sends + length cs < 2 ^ 32
    → lookup id s.pending_reliable_events ≡ summary sends
    → lookup id (run cs s).pending_reliable_events ≡ summary (sends_since_ack id sends cs)
run-pending id [] s sends few h = h
run-pending id (c ∷ cs) s sends few h =
    run-pending id cs (step c s) (sends_after id sends c)
      (omega (arith, length-sends_after id c sends)) (step-pending id c s sends (omega arith) h)

-- After any sequence of fewer than 2^32 calls on a new state, an event id is pending exactly if it was
-- sent and not acknowledged since. What is pending then is the event as it was first sent after the last
-- acknowledgement, the times of the first and the last send after it, and their number.
pub lookup-run :
    (id : NetworkEventId) (client : ClientId) (cs : List Call)
    → length cs < 2 ^ 32
    → lookup id (run cs (create_state client)).pending_reliable_events
      ≡ summary (sends_since_ack id [] cs)
unfolding lookup
lookup-run id client cs few = run-pending id cs (create_state client) [] (omega arith) refl
