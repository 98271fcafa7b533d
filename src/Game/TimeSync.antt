-- ===== src/Game/TimeSync.antt =====
-- GameLogic/include/GameLogic/TimeSync.hpp and GameLogic/src/TimeSync.cpp. The times are uint64_t, whose
-- wrap is written out; a sum of int64_t is an integer. The getters of NetworkClock read a field.
pub mod Smoothing
use brawololo.Prelude.{
  ℕ, suc, ◌+◌, ◌-◌, ◌*◌, ◌/◌, ◌%◌, ◌^◌, Bool, true, false, ltb, leb, if◌then◌else◌,
}
use brawololo.Prelude.Int.{ℤ, pos, negsuc, sub_ℕ, ◌+ℤ◌, ◌-ℤ◌, ◌*ℤ◌, pos_part}
use brawololo.Game.Types.{ClientId, CommandSequence, TimestampMs}

pub record TimeSyncRequest : Type 0 where
  pub client_id : ClientId
  pub sequence : CommandSequence
  pub client_sent_at_ms : TimestampMs

pub record TimeSyncResponse : Type 0 where
  pub client_id : ClientId
  pub sequence : CommandSequence
  pub client_sent_at_ms : TimestampMs
  pub server_received_at_ms : TimestampMs
  pub server_sent_at_ms : TimestampMs

pub record TimeSyncSample : Type 0 where
  pub client_sent_at_ms : TimestampMs
  pub server_received_at_ms : TimestampMs
  pub client_received_at_ms : TimestampMs

pub record NetworkClock : Type 0 where
  pub server_offset_ms : ℤ
  pub rtt_ms : TimestampMs
  pub interpolation_delay_ms : TimestampMs
  pub has_sample : Bool

abbrev pub create_clock : NetworkClock
create_clock = record {
  server_offset_ms = pos 0;
  rtt_ms = 0;
  interpolation_delay_ms = 100;
  has_sample = false;
}

-- static_cast<std::int64_t> of a uint64_t.
abbrev pub to_int64 : ℕ → ℤ
to_int64 n = if ltb n (2 ^ 63) then pos n else sub_ℕ n (2 ^ 64)

-- Division of int64_t by 8 rounds toward 0.
abbrev pub div_8 : ℤ → ℤ
div_8 (pos n) = pos (n / 8)
div_8 (negsuc n) = sub_ℕ 0 (suc n / 8)

abbrev pub measured_rtt : TimeSyncSample → TimestampMs
measured_rtt sample =
    if leb sample.client_sent_at_ms sample.client_received_at_ms
    then sample.client_received_at_ms - sample.client_sent_at_ms
    else 0

abbrev pub measured_offset : TimeSyncSample → ℤ
measured_offset sample =
    to_int64 sample.server_received_at_ms
    -ℤ to_int64 ((sample.client_sent_at_ms + measured_rtt sample / 2) % 2 ^ 64)

-- std::clamp of the time that half a round trip and 50 ms take.
abbrev pub delay_for : TimestampMs → TimestampMs
delay_for rtt =
    let delay = (rtt / 2 + 50) % 2 ^ 64 in
    if ltb delay 50 then 50 else if ltb 250 delay then 250 else delay

abbrev pub clock_with : ℤ → TimestampMs → NetworkClock
clock_with offset rtt = record {
  server_offset_ms = offset;
  rtt_ms = rtt;
  interpolation_delay_ms = delay_for rtt;
  has_sample = true;
}

unfoldable pub record_sample : TimeSyncSample → NetworkClock → NetworkClock
unfolding ◌+ℤ◌ ◌-ℤ◌ ◌*ℤ◌
record_sample sample clock =
    if clock.has_sample
    then clock_with (div_8 (clock.server_offset_ms *ℤ pos 7 +ℤ measured_offset sample))
        ((clock.rtt_ms * 7 + measured_rtt sample) % 2 ^ 64 / 8)
    else clock_with (measured_offset sample) (measured_rtt sample)

-- Not positive gives 0.
unfoldable pub estimate_server_time : TimestampMs → NetworkClock → TimestampMs
unfolding ◌+ℤ◌ ◌-ℤ◌
estimate_server_time local clock = pos_part (to_int64 local +ℤ clock.server_offset_ms)
