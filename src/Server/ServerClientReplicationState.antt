-- ===== src/Server/ServerClientReplicationState.antt =====
-- Server/include/Server/ServerClientReplicationState.hpp. `interest_` is the InterestTracker that
-- Interest() hands out, and ClientId() and AckedSnapshot() read a field.
pub mod Events
pub mod Resends
pub mod Snapshots
use brawololo.Prelude.{
  ℕ, ◌+◌, ◌-◌, ◌*◌, ◌%◌, ◌^◌, Bool, true, false, not, ◌&&◌, Option, none, some, List, [], ◌∷◌,
  length, ltb, leb, ◌==◌, if◌then◌else◌,
}
use brawololo.Prelude.Maps.{lookup, assign, erase}
use brawololo.Game.Types.{ClientId, SnapshotId, NetworkEventId, TimestampMs}
use brawololo.Game.NetworkEvents.{NetworkEventDto}
use brawololo.Game.InterestManagement.{InterestTracker}

pub record PendingReliableEvent : Type 0 where
  pub event : NetworkEventDto
  pub first_sent_at_ms : TimestampMs
  pub last_sent_at_ms : TimestampMs
  pub send_count : ℕ

abbrev pub Pending : Type 0
Pending = List (NetworkEventId × PendingReliableEvent)

pub record ServerClientReplicationState : Type 0 where
  pub client_id : ClientId
  pub acked_snapshot : SnapshotId
  pub next_snapshot_send_at_ms : TimestampMs
  pub interest : InterestTracker
  pub pending_reliable_events : Pending

abbrev pub create_state : ClientId → ServerClientReplicationState
create_state client_id = record {
  client_id = client_id;
  acked_snapshot = 0;
  next_snapshot_send_at_ms = 0;
  interest = record { known_entities = [] };
  pending_reliable_events = [];
}

unfoldable pub acknowledge_snapshot :
    SnapshotId → ServerClientReplicationState → ServerClientReplicationState × Bool
acknowledge_snapshot id s =
    if leb id s.acked_snapshot then (s, false) else (record s { acked_snapshot = id }, true)

unfoldable pub should_send_snapshot : TimestampMs → ServerClientReplicationState → Bool
should_send_snapshot now s = leb s.next_snapshot_send_at_ms now

unfoldable pub mark_snapshot_sent :
    TimestampMs → TimestampMs → ServerClientReplicationState → ServerClientReplicationState
mark_snapshot_sent now interval s = record s {
  next_snapshot_send_at_ms = (now + interval) % 2 ^ 64;
}

abbrev first_sent : NetworkEventDto → TimestampMs → PendingReliableEvent
first_sent event now = record {
  event = event;
  first_sent_at_ms = now;
  last_sent_at_ms = now;
  send_count = 1;
}

-- `operator[]` makes an absent entry with the send count 0, whose other fields are then assigned.
abbrev pub track :
    NetworkEventDto → TimestampMs → Option PendingReliableEvent → PendingReliableEvent
track event now none = first_sent event now
track event now (some pending) =
    if pending.send_count == 0
    then first_sent event now
    else record pending { last_sent_at_ms = now; send_count = (pending.send_count + 1) % 2 ^ 32 }

unfoldable pub track_reliable_event :
    NetworkEventDto → TimestampMs → ServerClientReplicationState → ServerClientReplicationState
unfolding lookup assign
track_reliable_event event now s =
    let pending = track event now (lookup event.event_id s.pending_reliable_events) in
    record s { pending_reliable_events = assign event.event_id pending s.pending_reliable_events }

abbrev is_some : Option PendingReliableEvent → Bool
is_some none = false
is_some (some pending) = true

unfoldable pub acknowledge_reliable_event :
    NetworkEventId → ServerClientReplicationState → ServerClientReplicationState × Bool
unfolding lookup erase
acknowledge_reliable_event id s = (
  record s { pending_reliable_events = erase id s.pending_reliable_events },
  is_some (lookup id s.pending_reliable_events),
)

abbrev pub pending_reliable_event_count : ServerClientReplicationState → ℕ
pending_reliable_event_count s = length s.pending_reliable_events

-- std::min of the earlier sends and 4; subtraction stops at 0, as the source's test does.
abbrev pub backoff_shift : ℕ → ℕ
backoff_shift send_count = if ltb 4 (send_count - 1) then 4 else send_count - 1

unfoldable pub is_due : TimestampMs → TimestampMs → ℕ → PendingReliableEvent → Bool
is_due now base_interval max_send_count pending =
    if not (max_send_count == 0) && leb max_send_count pending.send_count
    then false
    else leb
        ((pending.last_sent_at_ms + base_interval * 2 ^ backoff_shift pending.send_count % 2 ^ 64)
          % 2 ^ 64)
        now

abbrev pub due_events : TimestampMs → TimestampMs → ℕ → Pending → List NetworkEventDto
due_events now base_interval max_send_count [] = []
due_events now base_interval max_send_count (entry ∷ rest) =
    let later = due_events now base_interval max_send_count rest in
    if is_due now base_interval max_send_count entry.1 then entry.1.event ∷ later else later

unfoldable pub reliable_events_due_for_resend :
    TimestampMs → TimestampMs → ℕ → ServerClientReplicationState → List NetworkEventDto
unfolding is_due
reliable_events_due_for_resend now base_interval max_send_count s =
    due_events now base_interval max_send_count s.pending_reliable_events
