-- ===== src/Game/Serialization/Counts.antt =====
-- The limit that DeserializeSnapshot of GameLogic/src/Serialization.cpp gives to ReadCount.
use mathlib.Core.Option.{some-injective, none-ne-some}
use native.Mathlib.Nat.{le-div_iff_mul-le}
use brawololo.Prelude.{
  ℕ, ◌+◌, ◌*◌, ◌/◌, ◌≤◌, ◌≡◌, ◌↔◌, subst, ap, Bool, true, Option, some, none, List, ◌++◌, length,
  length-append, arith, leb, leb→le, le→leb, Bool-cases, inl, inr,
}
use brawololo.Wire.Bytes.{to_le}
use brawololo.Wire.Reader.{continue, accept, ◌>>=◌}
use brawololo.Game.Types.{IsU32}
use brawololo.Game.BinaryIo.{BinaryReader, no_error, read_pod, write_pod, read_count, count-IsCodec}
use brawololo.Game.Serialization.Snapshot.{read_entity_count}

accept-passes :
    (refuse : BinaryReader → BinaryReader) (test : ℕ → Bool) (o : Option ℕ) (r : BinaryReader)
    (n : ℕ)
    → (continue (accept refuse test) o r).0 ≡ some n
    → test n ≡ true
accept-passes refuse test none r n h = absurd (none-ne-some n h)
accept-passes refuse test (some v) r n h = elim (Bool-cases (test v)) [
  | inl passes ↦ subst (λ x. test x ≡ true) (some-injective v n (rw passes at h)) passes
  | inr fails ↦ absurd (none-ne-some n (rw fails at h))
]

read_count_le :
    (max : ℕ) (r : BinaryReader) (n : ℕ) → (read_count max r).0 ≡ some n → leb n max ≡ true
unfolding read_count ◌>>=◌
read_count_le max r n h = accept-passes _ (λ v. leb v max) (read_pod 4 r).0 (read_pod 4 r).1 n h

length-counted : (n : ℕ) (rest : List ℕ) → length (write_pod 4 n ++ rest) ≡ 4 + length rest
unfolding write_pod to_le
length-counted n rest = omega (arith, length-append {0} (write_pod 4 n) rest)

-- A count that stands in front of other bytes is accepted for the number of entities exactly when the unread
-- bytes, with the four of the count, are at least 35 for each entity; so what is reserved for the
-- entities is bounded by the size of the message.
pub read_entity_count_iff :
    (count : ℕ) (rest : List ℕ)
    → IsU32 count
    → ((read_entity_count (record { unread = write_pod 4 count ++ rest; error = no_error })).0
        ≡ some count)
      ↔ (35 * count ≤ 4 + length rest)
unfolding read_entity_count
read_entity_count_iff count rest fits =
    let unread = write_pod 4 count ++ rest in
    let size = length-counted count rest in
    let max = length unread / 35 in
    let share = le-div_iff_mul-le {k = 35} {x = count} {y = length unread} (omega arith) in
    (
      λ h. let le = share.0 (leb→le count max (read_count_le max _ count h)) in omega (arith, size),
      λ h.
          let le = share.1 (omega (arith, size)) in
          ap (λ p. p.0)
            ((count-IsCodec max).decodes count rest no_error (fits, le→leb count max le)),
    )
