-- ===== src/Game/Commands.antt =====
-- GameLogic/include/GameLogic/Commands.hpp
use brawololo.Prelude.{Bool}
use brawololo.Prelude.Int.{ℤ}
use brawololo.Game.Types.{ClientId, CommandSequence, TimestampMs}

pub record CommandHeader : Type 0 where
  pub client_id : ClientId
  pub sequence : CommandSequence
  pub client_timestamp_ms : TimestampMs

pub record LoginCommand : Type 0 where
  pub header : CommandHeader

pub record InputFrame : Type 0 where
  pub move_x : ℤ
  pub move_y : ℤ
  pub aim_x : ℤ
  pub aim_y : ℤ
  pub fire : Bool

pub record ClientInputPacket : Type 0 where
  pub header : CommandHeader
  pub input : InputFrame
