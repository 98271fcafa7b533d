-- ===== src/Game/Serialization/Payloads/Formats.antt =====
-- The format of every payload in GameLogic/src/Serialization.cpp
use brawololo.Prelude.Int.{ℤ}
use brawololo.Prelude.{ℕ, ◌≡◌, refl}
use brawololo.Wire.Codec.{IsCodec, embed-IsCodec, ◌<⊗>◌}
use brawololo.Game.Types.{IsU32, IsU64, IsI32}
use brawololo.Game.NetworkEvents.{NetworkEventKind, NetworkEventPayloadDto, kind_for_network_event}
use brawololo.Game.BinaryIo.{pod-IsCodec, signed-IsCodec}
use brawololo.Game.Serialization.Payloads.{write_payload, read_payload, Of}
use brawololo.Game.Serialization.Payloads.Fighting.{
  weapon_warmup_started-IsCodec, bow_fired-IsCodec, projectile_spawned-IsCodec,
  hit_confirmed-IsCodec, player_damaged-IsCodec,
}

player_spawned-IsCodec :
    IsCodec
      (Of NetworkEventKind.player_spawned)
      write_payload
      (read_payload NetworkEventKind.player_spawned)
unfolding write_payload read_payload kind_for_network_event
player_spawned-IsCodec =
    embed-IsCodec _ back (λ p v. (((v.0.0.0, v.0.0.1, v.0.1, v.1), refl), refl))
      (pod-IsCodec 4 <⊗> pod-IsCodec 4 <⊗> signed-IsCodec 3 <⊗> signed-IsCodec 3)
  where
    back :
        (payload : NetworkEventPayloadDto)
        → Of NetworkEventKind.player_spawned payload
        → (p : ((ℕ × ℕ) × ℤ) × ℤ) × ((((IsU32 p.0.0.0) × (IsU32 p.0.0.1)) × (IsI32 p.0.1))
            × (IsI32 p.1))
          × (NetworkEventPayloadDto.player_spawned p.0.0.0 p.0.0.1 p.0.1 p.1 ≡ payload)
    back (NetworkEventPayloadDto.player_spawned entity_id client_id x y) v =
        ((((entity_id, client_id), x), y), (((v.0.0, v.0.1), v.0.2), v.0.3), refl)
    back _ v = cc

player_died-IsCodec :
    IsCodec
      (Of NetworkEventKind.player_died)
      write_payload
      (read_payload NetworkEventKind.player_died)
unfolding write_payload read_payload kind_for_network_event
player_died-IsCodec =
    embed-IsCodec _ back (λ p v. (((v.0.0, v.0.1, v.1), refl), refl))
      (pod-IsCodec 4 <⊗> pod-IsCodec 4 <⊗> pod-IsCodec 8)
  where
    back :
        (payload : NetworkEventPayloadDto)
        → Of NetworkEventKind.player_died payload
        → (p : (ℕ × ℕ) × ℕ) × (((IsU32 p.0.0) × (IsU32 p.0.1)) × (IsU64 p.1))
          × (NetworkEventPayloadDto.player_died p.0.0 p.0.1 p.1 ≡ payload)
    back (NetworkEventPayloadDto.player_died entity_id attacker_id respawn_at_ms) v =
        (((entity_id, attacker_id), respawn_at_ms), ((v.0.0, v.0.1), v.0.2), refl)
    back _ v = cc

player_respawned-IsCodec :
    IsCodec
      (Of NetworkEventKind.player_respawned)
      write_payload
      (read_payload NetworkEventKind.player_respawned)
unfolding write_payload read_payload kind_for_network_event
player_respawned-IsCodec =
    embed-IsCodec _ back (λ p v. (((v.0.0, v.0.1, v.1), refl), refl))
      (pod-IsCodec 4 <⊗> signed-IsCodec 3 <⊗> signed-IsCodec 3)
  where
    back :
        (payload : NetworkEventPayloadDto)
        → Of NetworkEventKind.player_respawned payload
        → (p : (ℕ × ℤ) × ℤ) × (((IsU32 p.0.0) × (IsI32 p.0.1)) × (IsI32 p.1))
          × (NetworkEventPayloadDto.player_respawned p.0.0 p.0.1 p.1 ≡ payload)
    back (NetworkEventPayloadDto.player_respawned entity_id x y) v =
        (((entity_id, x), y), ((v.0.0, v.0.1), v.0.2), refl)
    back _ v = cc

entity_entered_interest-IsCodec :
    IsCodec
      (Of NetworkEventKind.entity_entered_interest)
      write_payload
      (read_payload NetworkEventKind.entity_entered_interest)
unfolding write_payload read_payload kind_for_network_event
entity_entered_interest-IsCodec =
    embed-IsCodec _ back (λ p v. (((v.0, v.1), refl), refl)) (pod-IsCodec 4 <⊗> pod-IsCodec 4)
  where
    back :
        (payload : NetworkEventPayloadDto)
        → Of NetworkEventKind.entity_entered_interest payload
        → (p : ℕ × ℕ) × ((IsU32 p.0) × (IsU32 p.1))
          × (NetworkEventPayloadDto.entity_entered_interest p.0 p.1 ≡ payload)
    back (NetworkEventPayloadDto.entity_entered_interest entity_id observer_client_id) v =
        ((entity_id, observer_client_id), (v.0.0, v.0.1), refl)
    back _ v = cc

entity_left_interest-IsCodec :
    IsCodec
      (Of NetworkEventKind.entity_left_interest)
      write_payload
      (read_payload NetworkEventKind.entity_left_interest)
unfolding write_payload read_payload kind_for_network_event
entity_left_interest-IsCodec =
    embed-IsCodec _ back (λ p v. (((v.0, v.1), refl), refl)) (pod-IsCodec 4 <⊗> pod-IsCodec 4)
  where
    back :
        (payload : NetworkEventPayloadDto)
        → Of NetworkEventKind.entity_left_interest payload
        → (p : ℕ × ℕ) × ((IsU32 p.0) × (IsU32 p.1))
          × (NetworkEventPayloadDto.entity_left_interest p.0 p.1 ≡ payload)
    back (NetworkEventPayloadDto.entity_left_interest entity_id observer_client_id) v =
        ((entity_id, observer_client_id), (v.0.0, v.0.1), refl)
    back _ v = cc

pub payload-IsCodec :
    (kind : NetworkEventKind) → IsCodec (Of kind) write_payload (read_payload kind)
payload-IsCodec NetworkEventKind.player_spawned = player_spawned-IsCodec
payload-IsCodec NetworkEventKind.weapon_warmup_started = weapon_warmup_started-IsCodec
payload-IsCodec NetworkEventKind.bow_fired = bow_fired-IsCodec
payload-IsCodec NetworkEventKind.projectile_spawned = projectile_spawned-IsCodec
payload-IsCodec NetworkEventKind.hit_confirmed = hit_confirmed-IsCodec
payload-IsCodec NetworkEventKind.player_damaged = player_damaged-IsCodec
payload-IsCodec NetworkEventKind.player_died = player_died-IsCodec
payload-IsCodec NetworkEventKind.player_respawned = player_respawned-IsCodec
payload-IsCodec NetworkEventKind.entity_entered_interest = entity_entered_interest-IsCodec
payload-IsCodec NetworkEventKind.entity_left_interest = entity_left_interest-IsCodec
