-- ===== src/Game/NetworkProtocol/Validation.antt =====
-- What ValidateEnvelope decides.
use brawololo.Prelude.{◌≡◌, sym, ap, ◌∙◌, ◌↔◌, arith}
use brawololo.Game.NetworkProtocol.{
  NetworkChannel, NetworkEnvelope, IsAccepted, channel_code, channel_cast, channel-IsEnum, no_error,
  expected_channel_for, validate_envelope,
}

channel_code_inj : (a b : NetworkChannel) → channel_code a ≡ channel_code b → a ≡ b
channel_code_inj a b h =
    sym (channel-IsEnum.cast-code a) ∙ (ap channel_cast h ∙ channel-IsEnum.cast-code b)

-- An envelope passes exactly when it has this protocol version, a payload within the limit, and the
-- channel that its message class belongs to.
pub validate_envelope_iff : (e : NetworkEnvelope) → (validate_envelope e ≡ no_error) ↔ IsAccepted e
unfolding validate_envelope
validate_envelope_iff e = (forth, back)
  where
    forth : validate_envelope e ≡ no_error → IsAccepted e
    forth h = record {
      version = ground arith;
      size = ground arith;
      channel = channel_code_inj _ _ (ground arith);
    }

    back : IsAccepted e → validate_envelope e ≡ no_error
    back a =
        let same : channel_code e.channel ≡ channel_code (expected_channel_for e.message_class) =
          ap channel_code a.channel in
        let v = a.version in let s = a.size in ground arith
