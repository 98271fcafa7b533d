-- ===== src/Game/Serialization/Entities.antt =====
-- An entity's state as SerializeSnapshot writes it and DeserializeSnapshot reads it: the movement, a
-- flag, the combat state if the flag is set, the replication state.
use brawololo.Prelude.{
  ℕ, ◌+◌, ◌*◌, ◌≤◌, ◌≡◌, refl, ap, sym, Bool, true, false, Option, none, some, List, [], ◌++◌,
  length, length-append, arith,
}
use brawololo.Wire.Bytes.{AreBytes, to_le}
use brawololo.Wire.Reader.{Read, ◌<$>◌, ◌<&>◌, ◌>>=◌, pure}
use brawololo.Wire.Codec.{IsCodec, embed-IsCodec, ◌<⊗>◌}
use brawololo.Wire.Ints.{write_int}
use brawololo.Wire.Bind.{bind-IsCodec}
use brawololo.Game.Replication.{
  MovementStateDto, CombatStateDto, ReplicationStateDto, EntityStateDto,
}
use brawololo.Game.BinaryIo.{BinaryReader, DecodeError, read_bool, write_bool, bool-IsCodec}
use brawololo.Game.Serialization.Parts.{
  MovementFits, ReplicationFits, write_movement, read_movement, write_replication, read_replication,
  movement-IsCodec, replication-IsCodec,
}
use brawololo.Game.Serialization.Combat.{CombatFits, write_combat, read_combat, combat-IsCodec}

abbrev pub has_value : {A : Type 0} → Option A → Bool
has_value none = false
has_value (some a) = true

abbrev MaybeCombatFits : Option CombatStateDto → Type 0
MaybeCombatFits none = Unit {0}
MaybeCombatFits (some c) = CombatFits c

pub record EntityFits (e : EntityStateDto) : Type 0 where
  pub movement : MovementFits e.movement
  pub combat : MaybeCombatFits e.combat
  pub replication : ReplicationFits e.replication

unfoldable pub write_maybe_combat : Option CombatStateDto → List ℕ
unfolding write_combat
write_maybe_combat none = []
write_maybe_combat (some combat) = write_combat combat

unfoldable pub write_entity : EntityStateDto → List ℕ
unfolding write_movement write_bool write_maybe_combat write_replication
write_entity entity =
    write_movement entity.movement
    ++ write_bool (has_value entity.combat)
    ++ (write_maybe_combat entity.combat ++ write_replication entity.replication)

unfoldable pub read_maybe_combat : Bool → Read DecodeError (Option CombatStateDto)
unfolding read_combat ◌<$>◌
read_maybe_combat true = some <$> read_combat
read_maybe_combat false = pure none

-- The rounds of the loop: a missing value ends the decoding at once.
unfoldable pub read_entity : Read DecodeError EntityStateDto
unfolding read_movement read_bool read_maybe_combat read_replication ◌<$>◌ ◌<&>◌ ◌>>=◌
read_entity = read_movement <&> read_bool >>= λ head. read_maybe_combat head.1 >>= λ combat.
    (λ replication. record { movement = head.0; combat = combat; replication = replication })
    <$> read_replication

maybe_combat-IsCodec :
    (has : Bool)
    → IsCodec
        (λ c. MaybeCombatFits c × (has_value c ≡ has))
        write_maybe_combat
        (read_maybe_combat has)
unfolding write_maybe_combat read_maybe_combat
maybe_combat-IsCodec true = embed-IsCodec some back (λ c v. ((v, refl), refl)) combat-IsCodec
  where
    back :
        (o : Option CombatStateDto)
        → MaybeCombatFits o × (has_value o ≡ true)
        → (c : CombatStateDto) × CombatFits c × (some c ≡ o)
    back none v = cc
    back (some c) v = (c, v.0, refl)
maybe_combat-IsCodec false = record { decodes = forth; exact = back }
  where
    forth :
        (o : Option CombatStateDto) (rest : List ℕ) (e : DecodeError)
        → MaybeCombatFits o × (has_value o ≡ false)
        → read_maybe_combat false (record { unread = write_maybe_combat o ++ rest; error = e })
          ≡ (some o, record { unread = rest; error = e })
    forth none rest e v = refl
    forth (some c) rest e v = cc

    back :
        (r : BinaryReader) (o : Option CombatStateDto)
        → AreBytes r.unread
        → (read_maybe_combat false r).0 ≡ some o
        → (MaybeCombatFits o × (has_value o ≡ false))
          × (r.unread ≡ write_maybe_combat o ++ (read_maybe_combat false r).1.unread)
          × ((read_maybe_combat false r).1.error ≡ r.error)
    back r none bytes h = ((tt, refl), refl, refl)
    back r (some c) bytes h = cc

pub entity-IsCodec : IsCodec EntityFits write_entity read_entity
unfolding write_entity read_entity
entity-IsCodec =
    bind-IsCodec (λ e. (e.movement, has_value e.combat)) (λ e v. (v.movement, tt))
      (movement-IsCodec <⊗> bool-IsCodec)
      λ head hv.
        bind-IsCodec (λ e. e.combat) (λ e v. (v.0.combat, ap (λ h. h.1) v.1))
          (maybe_combat-IsCodec head.1)
          λ combat cv.
            embed-IsCodec _
              (λ e v. (
                e.replication,
                v.0.0.replication,
                λ i. record {
                  movement = (sym v.0.1 i).0;
                  combat = sym v.1 i;
                  replication = e.replication;
                },
              ))
              (λ replication v. (
                (
                  (
                    record { movement = hv.0; combat = cv.0; replication = v },
                    λ i. (head.0, cv.1 i),
                  ),
                  refl,
                ),
                refl,
              ))
              replication-IsCodec

length-write_movement : (m : MovementStateDto) → length (write_movement m) ≡ 24
unfolding write_movement to_le write_int
length-write_movement m = refl

length-write_replication : (p : ReplicationStateDto) → length (write_replication p) ≡ 10
unfolding write_replication to_le
length-write_replication p = refl

length-write_bool : (b : Bool) → length (write_bool b) ≡ 1
unfolding write_bool to_le
length-write_bool b = refl

-- kMinSerializedEntityBytes is a lower bound of what an entity takes.
abbrev pub min_serialized_entity_bytes : ℕ
min_serialized_entity_bytes = 4 + 4 * 4 + 2 * 2 + 1 + 4 + 4 + 1 * 2

pub length-write_entity :
    (e : EntityStateDto) → min_serialized_entity_bytes ≤ length (write_entity e)
unfolding write_entity
length-write_entity e = omega (
  arith,
  length-append {0},
  length-write_movement e.movement,
  length-write_replication e.replication,
  length-write_bool (has_value e.combat),
)
