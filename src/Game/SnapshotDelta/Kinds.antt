-- ===== src/Game/SnapshotDelta/Kinds.antt =====
-- Which kind PlanSnapshotDelta of GameLogic/src/SnapshotDelta.cpp gives an entity.
use mathlib.Core.Bool.{true≢false}
use mathlib.Core.Option.{some-injective, none-ne-some}
use brawololo.Prelude.{
  ℕ, ◌≡◌, ◌≢◌, ◌⊎◌, inl, inr, refl, sym, ap, ◌∙◌, Bool, true, false, Option, none, some, List, [],
  ◌∷◌, ◌++◌, arith, ◌&&◌, ◌==◌, ==_iff, Bool-cases, &&_true,
}
use brawololo.Prelude.Int.{ℤ, eqb_ℤ, eq_of_parts, pos_part, neg_part}
use brawololo.Prelude.Sets.{contains}
use brawololo.Game.BinaryIo.{IsEnum}
use brawololo.Game.Types.{NetworkEntityId}
use brawololo.Game.Weapons.{weapon-IsEnum}
use brawololo.Game.Replication.{
  EntityStateDto, SnapshotDto, CombatStateDto, MovementStateDto, ReplicationStateDto, kind-IsEnum,
  priority-IsEnum,
}
use brawololo.Game.SnapshotDelta.{
  SnapshotEntityDelta, added, changed, removed, unchanged, find_entity, plan_snapshot_delta,
  equivalent_entity_state, equivalent_movement, equivalent_combat, equivalent_replication,
  equivalent_maybe_combat, same_bool, kind_of_found,
}
use brawololo.Game.SnapshotDelta.Itself.{equivalent_entity_state_refl}
use brawololo.Game.SnapshotDelta.Reference.{
  current_deltas, removed_deltas, count_kind, plan_snapshot_delta-deltas,
}
use brawololo.Game.InterestManagement.Partition.{ids_of}

eqb_ℤ-eq : (a b : ℤ) → eqb_ℤ a b ≡ true → a ≡ b
eqb_ℤ-eq a b h =
    let (high, low) = &&_true (pos_part a == pos_part b) (neg_part a == neg_part b) h in
    let p = (==_iff (pos_part a) (pos_part b)).0 high in
    let n = (==_iff (neg_part a) (neg_part b)).0 low in eq_of_parts a b (omega (arith, p, n))

code-eq :
    {A : Type 0} {max : ℕ} {code : A → ℕ} {cast : ℕ → A} (E : IsEnum max code cast) (a b : A)
    → (code a == code b) ≡ true
    → a ≡ b
code-eq {cast} E a b h = sym (E.cast-code a) ∙ (ap cast ((==_iff _ _).0 h) ∙ E.cast-code b)

same_bool-eq : (a b : Bool) → same_bool a b ≡ true → a ≡ b
same_bool-eq true b h = sym h
same_bool-eq false b h = ground arith

equivalent_movement-eq : (a b : MovementStateDto) → equivalent_movement a b ≡ true → a ≡ b
unfolding equivalent_movement
equivalent_movement-eq a b h =
    let entity_id_eq : a.entity_id ≡ b.entity_id = (==_iff _ _).0 (ground arith) in
    let x_eq : a.x ≡ b.x = eqb_ℤ-eq _ _ (ground arith) in
    let y_eq : a.y ≡ b.y = eqb_ℤ-eq _ _ (ground arith) in
    let vx_eq : a.vx ≡ b.vx = eqb_ℤ-eq _ _ (ground arith) in
    let vy_eq : a.vy ≡ b.vy = eqb_ℤ-eq _ _ (ground arith) in
    let aim_x_eq : a.aim_x ≡ b.aim_x = eqb_ℤ-eq _ _ (ground arith) in
    let aim_y_eq : a.aim_y ≡ b.aim_y = eqb_ℤ-eq _ _ (ground arith) in
    λ i. record {
      entity_id = entity_id_eq i;
      x = x_eq i;
      y = y_eq i;
      vx = vx_eq i;
      vy = vy_eq i;
      aim_x = aim_x_eq i;
      aim_y = aim_y_eq i;
    }

equivalent_combat-eq : (a b : CombatStateDto) → equivalent_combat a b ≡ true → a ≡ b
unfolding equivalent_combat
equivalent_combat-eq a b h =
    let entity_id_eq : a.entity_id ≡ b.entity_id = (==_iff _ _).0 (ground arith) in
    let health_eq : a.health ≡ b.health = eqb_ℤ-eq _ _ (ground arith) in
    let max_health_eq : a.max_health ≡ b.max_health = eqb_ℤ-eq _ _ (ground arith) in
    let weapon_type_eq : a.weapon_type ≡ b.weapon_type = code-eq weapon-IsEnum _ _ (ground arith) in
    let weapon_warming_eq : a.weapon_warming ≡ b.weapon_warming = same_bool-eq _ _ (ground arith) in
    let weapon_warmup_completes_at_ms_eq : a.weapon_warmup_completes_at_ms
        ≡ b.weapon_warmup_completes_at_ms =
      (==_iff _ _).0 (ground arith) in
    let defeated_eq : a.defeated ≡ b.defeated = same_bool-eq _ _ (ground arith) in
    let respawn_at_ms_eq : a.respawn_at_ms ≡ b.respawn_at_ms = (==_iff _ _).0 (ground arith) in
    let server_owned_projectile_eq : a.server_owned_projectile ≡ b.server_owned_projectile =
      same_bool-eq _ _ (ground arith) in
    let projectile_owner_id_eq : a.projectile_owner_id ≡ b.projectile_owner_id =
      (==_iff _ _).0 (ground arith) in
    λ i. record {
      entity_id = entity_id_eq i;
      health = health_eq i;
      max_health = max_health_eq i;
      weapon_type = weapon_type_eq i;
      weapon_warming = weapon_warming_eq i;
      weapon_warmup_completes_at_ms = weapon_warmup_completes_at_ms_eq i;
      defeated = defeated_eq i;
      respawn_at_ms = respawn_at_ms_eq i;
      server_owned_projectile = server_owned_projectile_eq i;
      projectile_owner_id = projectile_owner_id_eq i;
    }

equivalent_replication-eq : (a b : ReplicationStateDto) → equivalent_replication a b ≡ true → a ≡ b
unfolding equivalent_replication
equivalent_replication-eq a b h =
    let entity_id_eq : a.entity_id ≡ b.entity_id = (==_iff _ _).0 (ground arith) in
    let owner_client_id_eq : a.owner_client_id ≡ b.owner_client_id =
      (==_iff _ _).0 (ground arith) in
    let kind_eq : a.kind ≡ b.kind = code-eq kind-IsEnum _ _ (ground arith) in
    let priority_eq : a.priority ≡ b.priority = code-eq priority-IsEnum _ _ (ground arith) in
    λ i. record {
      entity_id = entity_id_eq i;
      owner_client_id = owner_client_id_eq i;
      kind = kind_eq i;
      priority = priority_eq i;
    }

equivalent_maybe_combat-eq :
    (a b : Option CombatStateDto) → equivalent_maybe_combat a b ≡ true → a ≡ b
equivalent_maybe_combat-eq none none h = refl
equivalent_maybe_combat-eq none (some b) h = absurd (true≢false (sym h))
equivalent_maybe_combat-eq (some a) none h = absurd (true≢false (sym h))
equivalent_maybe_combat-eq (some a) (some b) h = ap some (equivalent_combat-eq a b h)

equivalent_entity_state-eq : (a b : EntityStateDto) → equivalent_entity_state a b ≡ true → a ≡ b
unfolding equivalent_entity_state
equivalent_entity_state-eq a b h =
    let moves = equivalent_movement a.movement b.movement in
    let replicates = equivalent_replication a.replication b.replication in
    let (both, combat) =
      &&_true (moves && replicates) (equivalent_maybe_combat a.combat b.combat) h in
    let (movement, replication) = &&_true moves replicates both in
    λ i. record {
      movement = equivalent_movement-eq a.movement b.movement movement i;
      combat = equivalent_maybe_combat-eq a.combat b.combat combat i;
      replication = equivalent_replication-eq a.replication b.replication replication i;
    }

-- The first entity of the list under an id.
abbrev pub IsFirst : NetworkEntityId → EntityStateDto → List EntityStateDto → Type 0
IsFirst id e es =
    (before : List EntityStateDto) × (after : List EntityStateDto) × (es ≡ before ++ e ∷ after)
    × (e.replication.entity_id ≡ id)
    × (contains id (ids_of before) ≡ false)

-- The entry of an entity: added if the baseline has nothing under its id, and otherwise unchanged or changed
-- as what the baseline first has there is the entity or is not.
abbrev pub IsEntryOf : List EntityStateDto → EntityStateDto → SnapshotEntityDelta → Type 0
IsEntryOf baseline e d =
    (d.entity_id ≡ e.replication.entity_id)
    × (((d.kind ≡ added) × (contains e.replication.entity_id (ids_of baseline) ≡ false))
        ⊎ ((old : EntityStateDto) × IsFirst e.replication.entity_id old baseline
            × (((d.kind ≡ unchanged) × (e ≡ old)) ⊎ ((d.kind ≡ changed) × (e ≢ old)))))

-- One entry for each entity, in order.
pub data AreEntriesOf (baseline : List EntityStateDto)
    : List EntityStateDto → List SnapshotEntityDelta → Type 0 where
  no_entries : AreEntriesOf baseline [] []
  next_entry :
      {e : EntityStateDto} {d : SnapshotEntityDelta} {es : List EntityStateDto}
      {ds : List SnapshotEntityDelta}
      → IsEntryOf baseline e d
      → AreEntriesOf baseline es ds
      → AreEntriesOf baseline (e ∷ es) (d ∷ ds)

find_entity-none :
    (id : NetworkEntityId) (es : List EntityStateDto)
    → find_entity id es ≡ none
    → contains id (ids_of es) ≡ false
unfolding find_entity contains
find_entity-none id [] h = refl
find_entity-none id (e ∷ es) h = elim (Bool-cases (e.replication.entity_id == id)) [
  | inl same ↦ absurd (none-ne-some _ (sym (rw same at h)))
  | inr other ↦ rw other (find_entity-none id es (rw other at h))
]

find_entity-some :
    (id : NetworkEntityId) (old : EntityStateDto) (es : List EntityStateDto)
    → find_entity id es ≡ some old
    → IsFirst id old es
unfolding find_entity contains
find_entity-some id old [] h = absurd (none-ne-some _ h)
find_entity-some id old (e ∷ es) h = elim (Bool-cases (e.replication.entity_id == id)) [
  | inl same ↦
      let is_old = some-injective _ _ (rw same at h) in
      (
        [],
        es,
        ap (λ x. x ∷ es) is_old,
        ap (λ (x : EntityStateDto). x.replication.entity_id) (sym is_old) ∙ (==_iff _ _).0 same,
        refl,
      )
  | inr other ↦
      let (before, after, split, named, first) = find_entity-some id old es (rw other at h) in
      (e ∷ before, after, ap (λ xs. e ∷ xs) split, named, rw other first)
]

kind_of_found-IsEntryOf :
    (baseline : List EntityStateDto) (e : EntityStateDto) (found : Option EntityStateDto)
    → find_entity e.replication.entity_id baseline ≡ found
    → IsEntryOf baseline e
        (record { entity_id = e.replication.entity_id; kind = kind_of_found e found })
kind_of_found-IsEntryOf baseline e none h = (refl, inl (refl, find_entity-none _ baseline h))
kind_of_found-IsEntryOf baseline e (some old) h = (
  refl,
  inr (
    old,
    find_entity-some _ old baseline h,
    (elim (Bool-cases (equivalent_entity_state e old)) [
      | inl same ↦ rw same (inl (refl, equivalent_entity_state-eq e old same))
      | inr differs ↦ rw differs (
          inr (
            refl,
            λ same. true≢false (
                sym (equivalent_entity_state_refl e)
                ∙ ap (equivalent_entity_state e) same
                ∙ differs),
          ))
    ]),
  ),
)

current_deltas-AreEntriesOf :
    (baseline es : List EntityStateDto) → AreEntriesOf baseline es (current_deltas baseline es)
current_deltas-AreEntriesOf baseline [] = no_entries
current_deltas-AreEntriesOf baseline (e ∷ es) =
    next_entry (kind_of_found-IsEntryOf baseline e _ refl) (current_deltas-AreEntriesOf baseline es)

-- The plan lists each entity of the current snapshot, in order: as added if the baseline has none of its
-- id, as unchanged if the first that the baseline has of its id is equal to it, and as changed if that
-- differs from it. It then lists as removed each entity of the baseline whose id the current snapshot
-- has not, and each of the four counters counts the entries of its kind.
pub plan_snapshot_delta-AreEntriesOf :
    (current baseline : SnapshotDto)
    → (listed : List SnapshotEntityDelta) × AreEntriesOf baseline.entities current.entities listed
      × (let plan = plan_snapshot_delta current baseline in
          (plan.entities ≡ listed ++ removed_deltas (ids_of current.entities) baseline.entities)
          × (plan.added_count ≡ count_kind added plan.entities)
          × (plan.changed_count ≡ count_kind changed plan.entities)
          × (plan.removed_count ≡ count_kind removed plan.entities)
          × (plan.unchanged_count ≡ count_kind unchanged plan.entities))
plan_snapshot_delta-AreEntriesOf current baseline = (
  current_deltas baseline.entities current.entities,
  current_deltas-AreEntriesOf baseline.entities current.entities,
  plan_snapshot_delta-deltas current baseline,
)
