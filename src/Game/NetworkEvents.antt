-- ===== src/Game/NetworkEvents.antt =====
-- GameLogic/include/GameLogic/NetworkEvents.hpp and GameLogic/src/NetworkEvents.cpp
pub mod Conversion
use brawololo.Prelude.{ℕ, zero, suc, ◌≤◌, ◌≡◌, refl, Option, none, some, arith, Bool, true, false}
use brawololo.Prelude.Int.{ℤ}
use brawololo.Game.Types.{ClientId, NetworkEventId, Tick, TimestampMs, NetworkEntityId, Fixed}
use brawololo.Game.BinaryIo.{IsEnum}
use brawololo.Game.Weapons.{WeaponType}
use brawololo.Game.Events.{DomainEvent}

pub data NetworkEventKind : Type 0 where
  player_spawned weapon_warmup_started bow_fired projectile_spawned hit_confirmed : NetworkEventKind
  player_damaged player_died player_respawned : NetworkEventKind
  entity_entered_interest entity_left_interest : NetworkEventKind

-- NetworkEventPayloadDTO, one constructor for each struct of the variant, in its order.
pub data NetworkEventPayloadDto : Type 0 where
  player_spawned :
      (entity_id : NetworkEntityId)
      → (client_id : ClientId) → (x y : Fixed) → NetworkEventPayloadDto
  weapon_warmup_started :
      (entity_id : NetworkEntityId)
      → (started_at_ms completes_at_ms : TimestampMs) → (weapon_type : WeaponType)
      → NetworkEventPayloadDto
  weapon_fired :
      (entity_id : NetworkEntityId)
      → (fired_at_ms : TimestampMs) → (weapon_type : WeaponType) → NetworkEventPayloadDto
  projectile_spawned :
      (projectile_id owner_id : NetworkEntityId)
      → (x y : Fixed) → (source_weapon : WeaponType) → NetworkEventPayloadDto
  hit_confirmed :
      (attacker_id target_id projectile_id : NetworkEntityId)
      → (server_time_ms : TimestampMs) → NetworkEventPayloadDto
  player_damaged :
      (entity_id attacker_id : NetworkEntityId) → (damage health_after : ℤ) → NetworkEventPayloadDto
  player_died :
      (entity_id attacker_id : NetworkEntityId)
      → (respawn_at_ms : TimestampMs) → NetworkEventPayloadDto
  player_respawned : (entity_id : NetworkEntityId) → (x y : Fixed) → NetworkEventPayloadDto
  entity_entered_interest :
      (entity_id : NetworkEntityId) → (observer_client_id : ClientId) → NetworkEventPayloadDto
  entity_left_interest :
      (entity_id : NetworkEntityId) → (observer_client_id : ClientId) → NetworkEventPayloadDto

pub record NetworkEventDto : Type 0 where
  pub event_id : NetworkEventId
  pub server_tick : Tick
  pub server_time_ms : TimestampMs
  pub payload : NetworkEventPayloadDto

pub record NetworkEventAckDto : Type 0 where
  pub client_id : ClientId
  pub event_id : NetworkEventId
  pub client_received_at_ms : TimestampMs

abbrev pub event_kind_code : NetworkEventKind → ℕ
event_kind_code NetworkEventKind.player_spawned = 0
event_kind_code NetworkEventKind.weapon_warmup_started = 1
event_kind_code NetworkEventKind.bow_fired = 2
event_kind_code NetworkEventKind.projectile_spawned = 3
event_kind_code NetworkEventKind.hit_confirmed = 4
event_kind_code NetworkEventKind.player_damaged = 5
event_kind_code NetworkEventKind.player_died = 6
event_kind_code NetworkEventKind.player_respawned = 7
event_kind_code NetworkEventKind.entity_entered_interest = 8
event_kind_code NetworkEventKind.entity_left_interest = 9

abbrev pub event_kind_cast : ℕ → NetworkEventKind
event_kind_cast zero = NetworkEventKind.player_spawned
event_kind_cast (suc zero) = NetworkEventKind.weapon_warmup_started
event_kind_cast (suc (suc zero)) = NetworkEventKind.bow_fired
event_kind_cast (suc (suc (suc zero))) = NetworkEventKind.projectile_spawned
event_kind_cast (suc (suc (suc (suc zero)))) = NetworkEventKind.hit_confirmed
event_kind_cast (suc (suc (suc (suc (suc zero))))) = NetworkEventKind.player_damaged
event_kind_cast (suc (suc (suc (suc (suc (suc zero)))))) = NetworkEventKind.player_died
event_kind_cast (suc (suc (suc (suc (suc (suc (suc zero))))))) = NetworkEventKind.player_respawned
event_kind_cast (suc (suc (suc (suc (suc (suc (suc (suc zero)))))))) =
    NetworkEventKind.entity_entered_interest
event_kind_cast _ = NetworkEventKind.entity_left_interest

-- The index of the variant's alternative.
unfoldable pub kind_for_network_event : NetworkEventPayloadDto → NetworkEventKind
kind_for_network_event (NetworkEventPayloadDto.player_spawned _ _ _ _) =
    NetworkEventKind.player_spawned
kind_for_network_event (NetworkEventPayloadDto.weapon_warmup_started _ _ _ _) =
    NetworkEventKind.weapon_warmup_started
kind_for_network_event (NetworkEventPayloadDto.weapon_fired _ _ _) = NetworkEventKind.bow_fired
kind_for_network_event (NetworkEventPayloadDto.projectile_spawned _ _ _ _ _) =
    NetworkEventKind.projectile_spawned
kind_for_network_event (NetworkEventPayloadDto.hit_confirmed _ _ _ _) =
    NetworkEventKind.hit_confirmed
kind_for_network_event (NetworkEventPayloadDto.player_damaged _ _ _ _) =
    NetworkEventKind.player_damaged
kind_for_network_event (NetworkEventPayloadDto.player_died _ _ _) = NetworkEventKind.player_died
kind_for_network_event (NetworkEventPayloadDto.player_respawned _ _ _) =
    NetworkEventKind.player_respawned
kind_for_network_event (NetworkEventPayloadDto.entity_entered_interest _ _) =
    NetworkEventKind.entity_entered_interest
kind_for_network_event (NetworkEventPayloadDto.entity_left_interest _ _) =
    NetworkEventKind.entity_left_interest

-- The domain events that have no network form give none.
unfoldable pub to_network_event_dto :
    NetworkEventId → Tick → TimestampMs → DomainEvent → Option NetworkEventDto
to_network_event_dto id tick time (DomainEvent.player_spawned entity_id client_id x y) =
    some (record {
      event_id = id;
      server_tick = tick;
      server_time_ms = time;
      payload = NetworkEventPayloadDto.player_spawned entity_id client_id x y;
    })
to_network_event_dto id tick time
      (DomainEvent.weapon_warmup_started entity_id started_at_ms completes_at_ms weapon_type) =
    some (record {
      event_id = id;
      server_tick = tick;
      server_time_ms = time;
      payload =
          NetworkEventPayloadDto.weapon_warmup_started entity_id started_at_ms completes_at_ms
            weapon_type;
    })
to_network_event_dto id tick time (DomainEvent.weapon_fired entity_id fired_at_ms weapon_type) =
    some (record {
      event_id = id;
      server_tick = tick;
      server_time_ms = time;
      payload = NetworkEventPayloadDto.weapon_fired entity_id fired_at_ms weapon_type;
    })
to_network_event_dto id tick time
      (DomainEvent.projectile_spawned projectile_id owner_id x y source_weapon) =
    some (record {
      event_id = id;
      server_tick = tick;
      server_time_ms = time;
      payload = NetworkEventPayloadDto.projectile_spawned projectile_id owner_id x y source_weapon;
    })
to_network_event_dto id tick time
      (DomainEvent.hit_confirmed attacker_id target_id projectile_id server_time_ms) =
    some (record {
      event_id = id;
      server_tick = tick;
      server_time_ms = time;
      payload =
          NetworkEventPayloadDto.hit_confirmed attacker_id target_id projectile_id server_time_ms;
    })
to_network_event_dto id tick time
      (DomainEvent.player_damaged entity_id attacker_id damage health_after) =
    some (record {
      event_id = id;
      server_tick = tick;
      server_time_ms = time;
      payload = NetworkEventPayloadDto.player_damaged entity_id attacker_id damage health_after;
    })
to_network_event_dto id tick time (DomainEvent.player_died entity_id attacker_id respawn_at_ms) =
    some (record {
      event_id = id;
      server_tick = tick;
      server_time_ms = time;
      payload = NetworkEventPayloadDto.player_died entity_id attacker_id respawn_at_ms;
    })
to_network_event_dto id tick time (DomainEvent.player_respawned entity_id x y) = some (record {
  event_id = id;
  server_tick = tick;
  server_time_ms = time;
  payload = NetworkEventPayloadDto.player_respawned entity_id x y;
})
to_network_event_dto id tick time
      (DomainEvent.entity_entered_interest entity_id observer_client_id) =
    some (record {
      event_id = id;
      server_tick = tick;
      server_time_ms = time;
      payload = NetworkEventPayloadDto.entity_entered_interest entity_id observer_client_id;
    })
to_network_event_dto id tick time (DomainEvent.entity_left_interest entity_id observer_client_id) =
    some (record {
      event_id = id;
      server_tick = tick;
      server_time_ms = time;
      payload = NetworkEventPayloadDto.entity_left_interest entity_id observer_client_id;
    })
to_network_event_dto id tick time _ = none

unfoldable pub payload_to_domain_event : NetworkEventPayloadDto → Option DomainEvent
payload_to_domain_event (NetworkEventPayloadDto.player_spawned entity_id client_id x y) =
    some (DomainEvent.player_spawned entity_id client_id x y)
payload_to_domain_event
      (NetworkEventPayloadDto.weapon_warmup_started entity_id started_at_ms completes_at_ms
        weapon_type) =
    some (DomainEvent.weapon_warmup_started entity_id started_at_ms completes_at_ms weapon_type)
payload_to_domain_event (NetworkEventPayloadDto.weapon_fired entity_id fired_at_ms weapon_type) =
    some (DomainEvent.weapon_fired entity_id fired_at_ms weapon_type)
payload_to_domain_event
      (NetworkEventPayloadDto.projectile_spawned projectile_id owner_id x y source_weapon) =
    some (DomainEvent.projectile_spawned projectile_id owner_id x y source_weapon)
payload_to_domain_event
      (NetworkEventPayloadDto.hit_confirmed attacker_id target_id projectile_id server_time_ms) =
    some (DomainEvent.hit_confirmed attacker_id target_id projectile_id server_time_ms)
payload_to_domain_event
      (NetworkEventPayloadDto.player_damaged entity_id attacker_id damage health_after) =
    some (DomainEvent.player_damaged entity_id attacker_id damage health_after)
payload_to_domain_event (NetworkEventPayloadDto.player_died entity_id attacker_id respawn_at_ms) =
    some (DomainEvent.player_died entity_id attacker_id respawn_at_ms)
payload_to_domain_event (NetworkEventPayloadDto.player_respawned entity_id x y) =
    some (DomainEvent.player_respawned entity_id x y)
payload_to_domain_event
      (NetworkEventPayloadDto.entity_entered_interest entity_id observer_client_id) =
    some (DomainEvent.entity_entered_interest entity_id observer_client_id)
payload_to_domain_event (NetworkEventPayloadDto.entity_left_interest entity_id observer_client_id) =
    some (DomainEvent.entity_left_interest entity_id observer_client_id)

unfoldable pub to_domain_event : NetworkEventDto → Option DomainEvent
unfolding payload_to_domain_event
to_domain_event event = payload_to_domain_event event.payload
