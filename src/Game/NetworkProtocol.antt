-- ===== src/Game/NetworkProtocol.antt =====
-- GameLogic/include/GameLogic/NetworkProtocol.hpp
pub mod Validation
use brawololo.Prelude.{
  ℕ, zero, suc, ◌*◌, ◌≤◌, ◌≡◌, refl, Bool, true, false, List, length, arith, ltb, ◌==◌, not,
  if◌then◌else◌,
}
use brawololo.Game.Types.{ClientId}
use brawololo.Game.BinaryIo.{IsEnum}

abbrev pub protocol_version : ℕ
protocol_version = 1

abbrev pub max_network_payload_bytes : ℕ
max_network_payload_bytes = 64 * 1024

pub data NetworkChannel : Type 0 where
  movement_input snapshots combat_events login_spawn chat_ui time_sync : NetworkChannel

pub data Reliability : Type 0 where
  unreliable unreliable_sequenced reliable : Reliability

pub data MessageClass : Type 0 where
  client_input snapshot snapshot_ack combat_event login_request spawn_accepted : MessageClass
  interest_event network_event_ack chat_ui time_sync_request time_sync_response : MessageClass

pub data ProtocolError : Type 0 where
  no_error unsupported_version payload_too_large channel_mismatch : ProtocolError

abbrev pub channel_code : NetworkChannel → ℕ
channel_code NetworkChannel.movement_input = 0
channel_code NetworkChannel.snapshots = 1
channel_code NetworkChannel.combat_events = 2
channel_code NetworkChannel.login_spawn = 3
channel_code NetworkChannel.chat_ui = 4
channel_code NetworkChannel.time_sync = 5

abbrev pub channel_cast : ℕ → NetworkChannel
channel_cast zero = NetworkChannel.movement_input
channel_cast (suc zero) = NetworkChannel.snapshots
channel_cast (suc (suc zero)) = NetworkChannel.combat_events
channel_cast (suc (suc (suc zero))) = NetworkChannel.login_spawn
channel_cast (suc (suc (suc (suc zero)))) = NetworkChannel.chat_ui
channel_cast _ = NetworkChannel.time_sync

pub channel-IsEnum : IsEnum 5 channel_code channel_cast
channel-IsEnum = record { fits = fits; cast-code = back; code-cast = forth }
  where
    fits : (c : NetworkChannel) → channel_code c ≤ 5
    fits NetworkChannel.movement_input = omega arith
    fits _ = omega arith

    back : (c : NetworkChannel) → channel_cast (channel_code c) ≡ c
    back NetworkChannel.movement_input = refl
    back _ = refl

    forth : (v : ℕ) → v ≤ 5 → channel_code (channel_cast v) ≡ v
    forth zero h = refl
    forth (suc zero) h = refl
    forth (suc (suc zero)) h = refl
    forth (suc (suc (suc zero))) h = refl
    forth (suc (suc (suc (suc zero)))) h = refl
    forth (suc (suc (suc (suc (suc zero))))) h = refl
    forth (suc (suc (suc (suc (suc (suc v)))))) h = omega arith

abbrev pub message_class_code : MessageClass → ℕ
message_class_code MessageClass.client_input = 0
message_class_code MessageClass.snapshot = 1
message_class_code MessageClass.snapshot_ack = 2
message_class_code MessageClass.combat_event = 3
message_class_code MessageClass.login_request = 4
message_class_code MessageClass.spawn_accepted = 5
message_class_code MessageClass.interest_event = 6
message_class_code MessageClass.network_event_ack = 7
message_class_code MessageClass.chat_ui = 8
message_class_code MessageClass.time_sync_request = 9
message_class_code MessageClass.time_sync_response = 10

abbrev pub message_class_cast : ℕ → MessageClass
message_class_cast zero = MessageClass.client_input
message_class_cast (suc zero) = MessageClass.snapshot
message_class_cast (suc (suc zero)) = MessageClass.snapshot_ack
message_class_cast (suc (suc (suc zero))) = MessageClass.combat_event
message_class_cast (suc (suc (suc (suc zero)))) = MessageClass.login_request
message_class_cast (suc (suc (suc (suc (suc zero))))) = MessageClass.spawn_accepted
message_class_cast (suc (suc (suc (suc (suc (suc zero)))))) = MessageClass.interest_event
message_class_cast (suc (suc (suc (suc (suc (suc (suc zero))))))) = MessageClass.network_event_ack
message_class_cast (suc (suc (suc (suc (suc (suc (suc (suc zero)))))))) = MessageClass.chat_ui
message_class_cast (suc (suc (suc (suc (suc (suc (suc (suc (suc zero))))))))) =
    MessageClass.time_sync_request
message_class_cast _ = MessageClass.time_sync_response

pub message_class-IsEnum : IsEnum 10 message_class_code message_class_cast
message_class-IsEnum = record { fits = fits; cast-code = back; code-cast = forth }
  where
    fits : (c : MessageClass) → message_class_code c ≤ 10
    fits MessageClass.client_input = omega arith
    fits _ = omega arith

    back : (c : MessageClass) → message_class_cast (message_class_code c) ≡ c
    back MessageClass.client_input = refl
    back _ = refl

    forth : (v : ℕ) → v ≤ 10 → message_class_code (message_class_cast v) ≡ v
    forth zero h = refl
    forth (suc zero) h = refl
    forth (suc (suc zero)) h = refl
    forth (suc (suc (suc zero))) h = refl
    forth (suc (suc (suc (suc zero)))) h = refl
    forth (suc (suc (suc (suc (suc zero))))) h = refl
    forth (suc (suc (suc (suc (suc (suc zero)))))) h = refl
    forth (suc (suc (suc (suc (suc (suc (suc zero))))))) h = refl
    forth (suc (suc (suc (suc (suc (suc (suc (suc zero)))))))) h = refl
    forth (suc (suc (suc (suc (suc (suc (suc (suc (suc zero))))))))) h = refl
    forth (suc (suc (suc (suc (suc (suc (suc (suc (suc (suc zero)))))))))) h = refl
    forth (suc (suc (suc (suc (suc (suc (suc (suc (suc (suc (suc v))))))))))) h = omega arith

unfoldable pub policy_for : NetworkChannel → Reliability
policy_for NetworkChannel.movement_input = unreliable
policy_for NetworkChannel.snapshots = unreliable_sequenced
policy_for NetworkChannel.time_sync = unreliable
policy_for NetworkChannel.combat_events = reliable
policy_for NetworkChannel.login_spawn = reliable
policy_for NetworkChannel.chat_ui = reliable

unfoldable pub expected_channel_for : MessageClass → NetworkChannel
expected_channel_for MessageClass.client_input = NetworkChannel.movement_input
expected_channel_for MessageClass.snapshot = NetworkChannel.snapshots
expected_channel_for MessageClass.snapshot_ack = NetworkChannel.snapshots
expected_channel_for MessageClass.combat_event = NetworkChannel.combat_events
expected_channel_for MessageClass.login_request = NetworkChannel.login_spawn
expected_channel_for MessageClass.spawn_accepted = NetworkChannel.login_spawn
expected_channel_for MessageClass.interest_event = NetworkChannel.login_spawn
expected_channel_for MessageClass.network_event_ack = NetworkChannel.login_spawn
expected_channel_for MessageClass.chat_ui = NetworkChannel.chat_ui
expected_channel_for MessageClass.time_sync_request = NetworkChannel.time_sync
expected_channel_for MessageClass.time_sync_response = NetworkChannel.time_sync

pub record NetworkEnvelope : Type 0 where
  pub protocol_version : ℕ
  pub peer_id : ClientId
  pub channel : NetworkChannel
  pub message_class : MessageClass
  pub sequence : ℕ
  pub payload : List ℕ

abbrev same_channel : NetworkChannel → NetworkChannel → Bool
same_channel a b = channel_code a == channel_code b

unfoldable pub validate_envelope : NetworkEnvelope → ProtocolError
unfolding expected_channel_for
validate_envelope envelope =
    if not (envelope.protocol_version == 1)
    then unsupported_version
    else if ltb max_network_payload_bytes (length envelope.payload)
    then payload_too_large
    else if not (same_channel envelope.channel (expected_channel_for envelope.message_class))
    then channel_mismatch
    else no_error

-- What ValidateEnvelope lets through: this version, a payload within the limit, and the one channel
-- of the message class.
pub record IsAccepted (e : NetworkEnvelope) : Type 0 where
  pub version : e.protocol_version ≡ protocol_version
  pub size : length e.payload ≤ max_network_payload_bytes
  pub channel : e.channel ≡ expected_channel_for e.message_class
