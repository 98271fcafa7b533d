-- ===== src/Game/SnapshotDelta/Itself.antt =====
-- PlanSnapshotDelta of a snapshot against one with the same entities.
use mathlib.Core.List.{Memᴰ}
use mathlib.Core.Bool.{true≢false}
use brawololo.Prelude.{
  ℕ, ◌≡◌, refl, ap, ◌∙◌, sym, Bool, true, false, Option, none, some, List, [], ◌∷◌, arith, ◌==◌,
  length, Bool-cases, inl, inr, ==_iff, append-nil,
}
use brawololo.Prelude.Int.{ℤ, eqb_ℤ}
use brawololo.Prelude.Sets.{contains, contains-cong}
use brawololo.Game.Types.{NetworkEntityId}
use brawololo.Game.Replication.{
  EntityStateDto, SnapshotDto, CombatStateDto, MovementStateDto, ReplicationStateDto,
}
use brawololo.Game.SnapshotDelta.{
  added, changed, removed, unchanged, find_entity, plan_snapshot_delta, equivalent_entity_state,
  equivalent_movement, equivalent_combat, equivalent_replication, equivalent_maybe_combat,
  same_bool,
}
use brawololo.Game.SnapshotDelta.Reference.{
  current_deltas, removed_deltas, count_kind, plan_snapshot_delta-deltas,
}
use brawololo.Game.InterestManagement.Partition.{ids_of}

-- No two entities have one id.
abbrev pub AreDistinct : List EntityStateDto → Type 0
AreDistinct [] = Unit {0}
AreDistinct (e ∷ es) = (contains e.replication.entity_id (ids_of es) ≡ false) × AreDistinct es

same_number : (n : ℕ) → (n == n) ≡ true
same_number n = (==_iff n n).1 refl

eqb_ℤ_refl : (a : ℤ) → eqb_ℤ a a ≡ true
eqb_ℤ_refl a = ground arith

same_bool_refl : (b : Bool) → same_bool b b ≡ true
same_bool_refl true = refl
same_bool_refl false = refl

equivalent_movement_refl : (m : MovementStateDto) → equivalent_movement m m ≡ true
unfolding equivalent_movement
equivalent_movement_refl m = simp (same_number, eqb_ℤ_refl)

equivalent_replication_refl : (r : ReplicationStateDto) → equivalent_replication r r ≡ true
unfolding equivalent_replication
equivalent_replication_refl r = simp same_number

equivalent_combat_refl : (c : CombatStateDto) → equivalent_combat c c ≡ true
unfolding equivalent_combat
equivalent_combat_refl c = simp (same_number, eqb_ℤ_refl, same_bool_refl)

equivalent_maybe_combat_refl : (c : Option CombatStateDto) → equivalent_maybe_combat c c ≡ true
equivalent_maybe_combat_refl none = refl
equivalent_maybe_combat_refl (some c) = equivalent_combat_refl c

pub equivalent_entity_state_refl : (e : EntityStateDto) → equivalent_entity_state e e ≡ true
unfolding equivalent_entity_state
equivalent_entity_state_refl e =
    rw
      (
        equivalent_movement_refl e.movement,
        equivalent_replication_refl e.replication,
        equivalent_maybe_combat_refl e.combat,
      )
      refl

contains-Memᴰ :
    (e : EntityStateDto) (es : List EntityStateDto)
    → Memᴰ e es
    → contains e.replication.entity_id (ids_of es) ≡ true
unfolding contains
contains-Memᴰ e [] m = elim m [ ]
contains-Memᴰ e (x ∷ xs) (Memᴰ.head h) =
    let same = ap (λ (y : EntityStateDto). y.replication.entity_id) h in ground arith
contains-Memᴰ e (x ∷ xs) (Memᴰ.tail m) = let ih = contains-Memᴰ e xs m in ground arith

find_entity-Memᴰ :
    (e : EntityStateDto) (es : List EntityStateDto)
    → AreDistinct es
    → Memᴰ e es
    → find_entity e.replication.entity_id es ≡ some e
unfolding find_entity
find_entity-Memᴰ e [] d m = elim m [ ]
find_entity-Memᴰ e (x ∷ xs) d (Memᴰ.head h) = rw h (rw (same_number x.replication.entity_id) refl)
find_entity-Memᴰ e (x ∷ xs) d (Memᴰ.tail m) =
    elim (Bool-cases (x.replication.entity_id == e.replication.entity_id)) [
      | inl same ↦
          let present = contains-Memᴰ e xs m in
          let moved =
            contains-cong x.replication.entity_id e.replication.entity_id (ids_of xs) same in
          absurd (true≢false (sym present ∙ sym moved ∙ d.0))
      | inr other ↦ rw other (find_entity-Memᴰ e xs d.1 m)
    ]

-- All of a list is found in another.
abbrev Within : List EntityStateDto → List EntityStateDto → Type 0
Within es all = (e : EntityStateDto) → Memᴰ e es → Memᴰ e all

current_deltas-counts :
    (es all : List EntityStateDto)
    → AreDistinct all
    → Within es all
    → (count_kind added (current_deltas all es) ≡ 0)
      × (count_kind changed (current_deltas all es) ≡ 0)
      × (count_kind removed (current_deltas all es) ≡ 0)
      × (count_kind unchanged (current_deltas all es) ≡ length es)
current_deltas-counts [] all d h = (refl, refl, refl, refl)
current_deltas-counts (e ∷ es) all d h =
    let found = find_entity-Memᴰ e all d (h e (Memᴰ.head refl)) in
    let rest = current_deltas-counts es all d (λ x m. h x (Memᴰ.tail m)) in
    rw (found, equivalent_entity_state_refl e)
      (omega (arith, rest), omega (arith, rest), omega (arith, rest), omega (arith, rest))

removed_deltas-nil :
    (ids : List NetworkEntityId) (es : List EntityStateDto)
    → ((e : EntityStateDto) → Memᴰ e es → contains e.replication.entity_id ids ≡ true)
    → removed_deltas ids es ≡ []
removed_deltas-nil ids [] h = refl
removed_deltas-nil ids (e ∷ es) h =
    rw (h e (Memᴰ.head refl)) (removed_deltas-nil ids es (λ x m. h x (Memᴰ.tail m)))

-- Against a baseline with the same entities, no two of which have one id, the plan has nothing added,
-- changed or removed, and counts each entity as unchanged.
pub plan_snapshot_delta-itself :
    (current baseline : SnapshotDto)
    → current.entities ≡ baseline.entities
    → AreDistinct current.entities
    → (let plan = plan_snapshot_delta current baseline in
        (plan.added_count ≡ 0)
        × (plan.changed_count ≡ 0)
        × (plan.removed_count ≡ 0)
        × (plan.unchanged_count ≡ length current.entities))
plan_snapshot_delta-itself current baseline same distinct =
    let es = current.entities in
    let plan = plan_snapshot_delta-deltas current baseline in
    let none_removed = removed_deltas-nil (ids_of es) es (λ e m. contains-Memᴰ e es m) in
    let counts = current_deltas-counts es es distinct (λ e m. m) in
    let listed : (plan_snapshot_delta current baseline).entities ≡ current_deltas es es =
      plan.0 ∙ rw (← same, none_removed) (append-nil (current_deltas es es)) in
    (
      plan.1 ∙ ap (count_kind added) listed ∙ counts.0,
      plan.2 ∙ ap (count_kind changed) listed ∙ counts.1,
      plan.3 ∙ ap (count_kind removed) listed ∙ counts.2,
      plan.4 ∙ ap (count_kind unchanged) listed ∙ counts.3,
    )
