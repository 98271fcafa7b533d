-- ===== src/Game/Weapons.antt =====
-- GameLogic/include/GameLogic/Weapons.hpp and GameLogic/src/Weapons.cpp
use brawololo.Prelude.{
  ℕ, zero, suc, ◌≤◌, ◌≡◌, refl, Bool, true, false, Option, List, [], ◌∷◌, arith, if◌then◌else◌,
}
use brawololo.Prelude.Int.{ℤ, pos}
use brawololo.Game.Types.{TimestampMs, Fixed}
use brawololo.Game.BinaryIo.{IsEnum}

pub data WeaponType : Type 0 where
  none bow : WeaponType

abbrev pub weapon_code : WeaponType → ℕ
weapon_code none = 0
weapon_code bow = 1

abbrev pub weapon_cast : ℕ → WeaponType
weapon_cast zero = none
weapon_cast (suc n) = bow

abbrev pub weapon_type_count : ℕ
weapon_type_count = 2

pub weapon-IsEnum : IsEnum 1 weapon_code weapon_cast
weapon-IsEnum = record { fits = fits; cast-code = back; code-cast = forth }
  where
    fits : (w : WeaponType) → weapon_code w ≤ 1
    fits none = omega arith
    fits bow = omega arith

    back : (w : WeaponType) → weapon_cast (weapon_code w) ≡ w
    back none = refl
    back bow = refl

    forth : (v : ℕ) → v ≤ 1 → weapon_code (weapon_cast v) ≡ v
    forth zero h = refl
    forth (suc v) h = omega arith

abbrev pub same_weapon : WeaponType → WeaponType → Bool
same_weapon none none = true
same_weapon bow bow = true
same_weapon _ _ = false

pub record WeaponDefinition : Type 0 where
  pub type : WeaponType
  pub warmup_ms : TimestampMs
  pub projectile_speed_per_second : Fixed
  pub projectile_lifetime_ms : TimestampMs
  pub damage : ℤ
  pub server_spawned_projectile : Bool

-- `PixelsToFixed(900)` is 900 * 1000.
abbrev pub default_weapon_definition : WeaponType → WeaponDefinition
default_weapon_definition bow = record {
  type = bow;
  warmup_ms = 300;
  projectile_speed_per_second = pos 900_000;
  projectile_lifetime_ms = 2000;
  damage = pos 35;
  server_spawned_projectile = true;
}
default_weapon_definition none = record {
  type = none;
  warmup_ms = 0;
  projectile_speed_per_second = pos 0;
  projectile_lifetime_ms = 0;
  damage = pos 0;
  server_spawned_projectile = false;
}

abbrev pub default_weapon_definitions : List WeaponDefinition
default_weapon_definitions = default_weapon_definition none ∷ default_weapon_definition bow ∷ []

-- The first entry of that type.
unfoldable pub find_weapon_definition : List WeaponDefinition → WeaponType → Option WeaponDefinition
find_weapon_definition [] type = Option.none
find_weapon_definition (definition ∷ rest) type =
    if same_weapon definition.type type
    then Option.some definition
    else find_weapon_definition rest type

-- The default table has each weapon's own definition.
pub find_weapon_definition-default :
    (type : WeaponType)
    → find_weapon_definition default_weapon_definitions type
      ≡ Option.some (default_weapon_definition type)
unfolding find_weapon_definition
find_weapon_definition-default none = refl
find_weapon_definition-default bow = refl
