-- ===== src/Game/Serialization/Commands.antt =====
-- LoginCommand and ClientInputPacket of GameLogic/src/Serialization.cpp
use brawololo.Prelude.{ℕ, ◌≡◌, refl, ◌↔◌, Bool, Option, some, List, ◌++◌}
use brawololo.Prelude.Int.{ℤ}
use brawololo.Wire.Bytes.{AreBytes}
use brawololo.Wire.Reader.{Read, ◌<$>◌, ◌<&>◌}
use brawololo.Wire.Codec.{IsCodec, map-IsCodec, ◌<⊗>◌}
use brawololo.Game.Types.{IsU32, IsU64, IsI8, IsI16}
use brawololo.Game.Commands.{CommandHeader, LoginCommand, ClientInputPacket}
use brawololo.Game.BinaryIo.{
  DecodeError, read_pod, write_pod, read_signed, write_signed, read_bool, write_bool, deserialize,
  pod-IsCodec, signed-IsCodec, bool-IsCodec, deserialize_iff,
}

pub record HeaderFits (h : CommandHeader) : Type 0 where
  pub client_id : IsU32 h.client_id
  pub sequence : IsU32 h.sequence
  pub client_timestamp_ms : IsU64 h.client_timestamp_ms

unfoldable pub serialize_login_command : LoginCommand → List ℕ
unfolding write_pod write_signed write_bool
serialize_login_command command =
    write_pod 4 command.header.client_id
    ++ write_pod 4 command.header.sequence
    ++ write_pod 8 command.header.client_timestamp_ms

abbrev login_command_of : (ℕ × ℕ) × ℕ → LoginCommand
login_command_of p = record {
  header = record { client_id = p.0.0; sequence = p.0.1; client_timestamp_ms = p.1 };
}

abbrev read_login_command : Read DecodeError LoginCommand
read_login_command = login_command_of <$> read_pod 4 <&> read_pod 4 <&> read_pod 8

unfoldable pub deserialize_login_command : List ℕ → Option LoginCommand
unfolding deserialize read_pod read_signed read_bool ◌<$>◌ ◌<&>◌
deserialize_login_command = deserialize read_login_command

login_command-IsCodec :
    IsCodec (λ c. HeaderFits c.header) serialize_login_command read_login_command
unfolding serialize_login_command
login_command-IsCodec =
    map-IsCodec login_command_of
      (λ c. ((c.header.client_id, c.header.sequence), c.header.client_timestamp_ms))
      (λ c v. (((v.client_id, v.sequence), v.client_timestamp_ms), refl))
      (λ p v. (record { client_id = v.0.0; sequence = v.0.1; client_timestamp_ms = v.1 }, refl))
      (pod-IsCodec 4 <⊗> pod-IsCodec 4 <⊗> pod-IsCodec 8)

-- A login is decoded from a span of bytes exactly when its header fields fit their widths and the
-- span is its encoding: no truncated, padded or altered span is accepted.
pub deserialize_login_command_iff :
    (bytes : List ℕ) (command : LoginCommand)
    → AreBytes bytes
    → (deserialize_login_command bytes ≡ some command)
      ↔ (HeaderFits command.header × (bytes ≡ serialize_login_command command))
unfolding deserialize_login_command
deserialize_login_command_iff = deserialize_iff login_command-IsCodec

pub record InputFits (p : ClientInputPacket) : Type 0 where
  pub header : HeaderFits p.header
  pub move_x : IsI8 p.input.move_x
  pub move_y : IsI8 p.input.move_y
  pub aim_x : IsI16 p.input.aim_x
  pub aim_y : IsI16 p.input.aim_y

unfoldable pub serialize_client_input_packet : ClientInputPacket → List ℕ
unfolding write_pod write_signed write_bool
serialize_client_input_packet packet =
    write_pod 4 packet.header.client_id
    ++ write_pod 4 packet.header.sequence
    ++ write_pod 8 packet.header.client_timestamp_ms
    ++ write_signed 1 packet.input.move_x
    ++ write_signed 1 packet.input.move_y
    ++ write_signed 2 packet.input.aim_x
    ++ write_signed 2 packet.input.aim_y
    ++ write_bool packet.input.fire

abbrev client_input_packet_of : ((((((ℕ × ℕ) × ℕ) × ℤ) × ℤ) × ℤ) × ℤ) × Bool → ClientInputPacket
client_input_packet_of p = record {
  header = record {
    client_id = p.0.0.0.0.0.0.0;
    sequence = p.0.0.0.0.0.0.1;
    client_timestamp_ms = p.0.0.0.0.0.1;
  };
  input = record {
    move_x = p.0.0.0.0.1;
    move_y = p.0.0.0.1;
    aim_x = p.0.0.1;
    aim_y = p.0.1;
    fire = p.1;
  };
}

abbrev read_client_input_packet : Read DecodeError ClientInputPacket
read_client_input_packet =
    client_input_packet_of
    <$> read_pod 4
      <&> read_pod 4
      <&> read_pod 8
      <&> read_signed 1
      <&> read_signed 1
      <&> read_signed 2
      <&> read_signed 2
      <&> read_bool

unfoldable pub deserialize_client_input_packet : List ℕ → Option ClientInputPacket
unfolding deserialize read_pod read_signed read_bool ◌<$>◌ ◌<&>◌
deserialize_client_input_packet = deserialize read_client_input_packet

client_input_packet-IsCodec :
    IsCodec InputFits serialize_client_input_packet read_client_input_packet
unfolding serialize_client_input_packet
client_input_packet-IsCodec =
    map-IsCodec client_input_packet_of
      (λ c. (
        (
          (
            (
              (
                ((c.header.client_id, c.header.sequence), c.header.client_timestamp_ms),
                c.input.move_x,
              ),
              c.input.move_y,
            ),
            c.input.aim_x,
          ),
          c.input.aim_y,
        ),
        c.input.fire,
      ))
      (λ c v. (
        (
          (
            (
              (
                (((v.header.client_id, v.header.sequence), v.header.client_timestamp_ms), v.move_x),
                v.move_y,
              ),
              v.aim_x,
            ),
            v.aim_y,
          ),
          tt,
        ),
        refl,
      ))
      (λ p v. (
        record {
          header = record {
            client_id = v.0.0.0.0.0.0.0;
            sequence = v.0.0.0.0.0.0.1;
            client_timestamp_ms = v.0.0.0.0.0.1;
          };
          move_x = v.0.0.0.0.1;
          move_y = v.0.0.0.1;
          aim_x = v.0.0.1;
          aim_y = v.0.1;
        },
        refl,
      ))
      (pod-IsCodec 4
        <⊗> pod-IsCodec 4
        <⊗> pod-IsCodec 8
        <⊗> signed-IsCodec 0
        <⊗> signed-IsCodec 0
        <⊗> signed-IsCodec 1
        <⊗> signed-IsCodec 1
        <⊗> bool-IsCodec)

-- An input packet is decoded from a span of bytes exactly when its fields fit their widths and the
-- span is its encoding.
pub deserialize_client_input_packet_iff :
    (bytes : List ℕ) (packet : ClientInputPacket)
    → AreBytes bytes
    → (deserialize_client_input_packet bytes ≡ some packet)
      ↔ (InputFits packet × (bytes ≡ serialize_client_input_packet packet))
unfolding deserialize_client_input_packet
deserialize_client_input_packet_iff = deserialize_iff client_input_packet-IsCodec
