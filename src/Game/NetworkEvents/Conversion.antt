-- ===== src/Game/NetworkEvents/Conversion.antt =====
-- The conversions between domain events and network events lose nothing.
use mathlib.Core.Option.{some-injective}
use brawololo.Prelude.{ℕ, zero, suc, ◌≤◌, ◌≡◌, ◌↔◌, refl, some, arith}
use brawololo.Game.Types.{NetworkEventId, Tick, TimestampMs}
use brawololo.Game.BinaryIo.{IsEnum}
use brawololo.Game.Events.{DomainEvent}
use brawololo.Game.NetworkEvents.{
  NetworkEventKind, NetworkEventPayloadDto, NetworkEventDto, event_kind_code, event_kind_cast,
  to_network_event_dto, payload_to_domain_event, to_domain_event,
}

pub event_kind-IsEnum : IsEnum 9 event_kind_code event_kind_cast
event_kind-IsEnum = record { fits = fits; cast-code = back; code-cast = forth }
  where
    fits : (k : NetworkEventKind) → event_kind_code k ≤ 9
    fits NetworkEventKind.player_spawned = omega arith
    fits _ = omega arith

    back : (k : NetworkEventKind) → event_kind_cast (event_kind_code k) ≡ k
    back NetworkEventKind.player_spawned = refl
    back _ = refl

    forth : (v : ℕ) → v ≤ 9 → event_kind_code (event_kind_cast v) ≡ v
    forth zero h = refl
    forth (suc zero) h = refl
    forth (suc (suc zero)) h = refl
    forth (suc (suc (suc zero))) h = refl
    forth (suc (suc (suc (suc zero)))) h = refl
    forth (suc (suc (suc (suc (suc zero))))) h = refl
    forth (suc (suc (suc (suc (suc (suc zero)))))) h = refl
    forth (suc (suc (suc (suc (suc (suc (suc zero))))))) h = refl
    forth (suc (suc (suc (suc (suc (suc (suc (suc zero)))))))) h = refl
    forth (suc (suc (suc (suc (suc (suc (suc (suc (suc zero))))))))) h = refl
    forth (suc (suc (suc (suc (suc (suc (suc (suc (suc (suc v)))))))))) h = omega arith

-- What a network form says of its event.
abbrev Carries : NetworkEventId → Tick → TimestampMs → DomainEvent → NetworkEventDto → Type 0
Carries id tick time event dto =
    (to_domain_event dto ≡ some event)
    × (dto.event_id ≡ id)
    × (dto.server_tick ≡ tick)
    × (dto.server_time_ms ≡ time)

to_network-Carries :
    (id : NetworkEventId) (tick : Tick) (time : TimestampMs) (event : DomainEvent)
    (dto : NetworkEventDto)
    → to_network_event_dto id tick time event ≡ some dto
    → Carries id tick time event dto
unfolding to_network_event_dto to_domain_event
to_network-Carries id tick time (DomainEvent.player_spawned e c x y) dto h =
    rw (← some-injective _ _ h) (refl, refl, refl, refl)
to_network-Carries id tick time (DomainEvent.player_moved e a b c d) dto h = cc
to_network-Carries id tick time (DomainEvent.snapshot_applied a b c) dto h = cc
to_network-Carries id tick time (DomainEvent.local_prediction_corrected e a b c d) dto h = cc
to_network-Carries id tick time _ dto h = rw (← some-injective _ _ h) (refl, refl, refl, refl)

to_network-of_payload :
    (id : NetworkEventId) (tick : Tick) (time : TimestampMs) (payload : NetworkEventPayloadDto)
    (event : DomainEvent)
    → payload_to_domain_event payload ≡ some event
    → to_network_event_dto id tick time event
      ≡ some
          (record { event_id = id; server_tick = tick; server_time_ms = time; payload = payload })
unfolding to_network_event_dto payload_to_domain_event
to_network-of_payload id tick time (NetworkEventPayloadDto.player_spawned e c x y) event h =
    rw (← some-injective _ _ h)
to_network-of_payload id tick time _ event h = rw (← some-injective _ _ h)

-- A network event is the form of a domain event exactly when it converts back to that event and
-- bears the id, the tick and the time that it was made with.
pub to_network_event_dto_iff :
    (id : NetworkEventId) (tick : Tick) (time : TimestampMs) (event : DomainEvent)
    (dto : NetworkEventDto)
    → (to_network_event_dto id tick time event ≡ some dto) ↔ (
        (to_domain_event dto ≡ some event)
        × (dto.event_id ≡ id)
        × (dto.server_tick ≡ tick)
        × (dto.server_time_ms ≡ time))
to_network_event_dto_iff id tick time event dto = (
  to_network-Carries id tick time event dto,
  λ c.
      rw (← c.1, ← c.2, ← c.3)
        (to_network-of_payload dto.event_id dto.server_tick dto.server_time_ms dto.payload event
          (unfold to_domain_event in c.0)),
)
