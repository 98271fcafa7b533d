-- ===== src/Game/Simulation/Snapshots/Delivered.antt =====
-- A snapshot of GameLogic/src/Simulation.cpp on its way: built on the server, serialised, decoded and
-- applied on the client, each with a registry of its own.
use brawololo.Prelude.{◌≡◌, refl, sym, ap, ◌∙◌, true, some, List, [], ◌∷◌, All, subst}
use mathlib.Core.List.{Memᴰ}
use mathlib.Core.Option.{map}
use brawololo.Game.Types.{ClientId, SnapshotId}
use brawololo.Game.Replication.{MovementStateDto, EntityStateDto}
use brawololo.Game.Serialization.Snapshot.{
  SnapshotFits, serialize_snapshot, deserialize_snapshot, deserialize_snapshot-serialize_snapshot,
}
use brawololo.Game.Simulation.Registry.{Entt, IsLawful}
use brawololo.Game.Simulation.{GameSimulation, movement_for_entity, movement_of_row}
use brawololo.Game.Simulation.Replicas.{priority_for_entity}
use brawololo.Game.Simulation.Snapshots.{
  build_snapshot, observer_chunk, is_in_interest, state_of, apply_snapshot,
}
use brawololo.Game.Simulation.Snapshots.Observed.{movement-entity_state, build_snapshot_mem}
use brawololo.Game.Simulation.Snapshots.Replaced.{AreNamed}
use brawololo.Game.Simulation.Snapshots.Applied.{AreDistinct, apply_snapshot-Converges}

All-Memᴰ :
    (P : EntityStateDto → Type 0) (x : EntityStateDto) (xs : List EntityStateDto)
    → All P xs
    → Memᴰ x xs
    → P x
All-Memᴰ P x [] h m = elim m [ ]
All-Memᴰ P x (y ∷ xs) h (Memᴰ.head same) = subst P (sym same) h.0
All-Memᴰ P x (y ∷ xs) h (Memᴰ.tail m) = All-Memᴰ P x xs h.1 m

-- A server and a client, each with a registry of its own. Let the fields of a snapshot for the
-- observer fit their widths, no two of its states be of one entity, and the id of an entity known to
-- the client be the one that it carries. Then the client decodes the bytes of the snapshot, and after
-- ApplySnapshot its MovementForEntity is the server's for every valid entity that moves and that
-- interests the observer.
pub build_snapshot-delivered :
    (S C : Entt) (L : IsLawful S) (K : IsLawful C) (observer : ClientId)
    (snapshot_id baseline_id : SnapshotId) (s : GameSimulation S) (c : GameSimulation C)
    → SnapshotFits (build_snapshot S observer snapshot_id baseline_id s)
    → AreDistinct (build_snapshot S observer snapshot_id baseline_id s).entities
    → AreNamed C c.registry c.entity_by_network_id
    → (e : S.Entity) (m : MovementStateDto) → S.valid e s.registry ≡ true
    → movement_of_row S (S.components e s.registry) ≡ some m
    → is_in_interest S s.config observer (observer_chunk S observer s) m (S.components e s.registry)
      ≡ true
    → map
        (λ received. movement_for_entity C m.entity_id (apply_snapshot C received observer c))
        (deserialize_snapshot
          (serialize_snapshot (build_snapshot S observer snapshot_id baseline_id s)))
      ≡ some (some m)
build_snapshot-delivered S C L K observer snapshot_id baseline_id s c fits distinct named e m v
      moves shown =
    let snapshot = build_snapshot S observer snapshot_id baseline_id s in
    let row = S.components e s.registry in
    let state = state_of S observer m row in
    let known = λ (x : MovementStateDto).
      movement_for_entity C x.entity_id (apply_snapshot C snapshot observer c) ≡ some x in
    let listed =
      (build_snapshot_mem S L observer snapshot_id baseline_id s state).1
        (e, v, (m, moves, shown, refl)) in
    let applied = apply_snapshot-Converges C K snapshot observer c named distinct in
    let at_state = All-Memᴰ (λ x. known x.movement) state snapshot.entities applied.moves listed in
    let at_m =
      subst known
        (movement-entity_state m (priority_for_entity observer row) row.player row.projectile row)
        at_state in
    ap (map (λ received. movement_for_entity C m.entity_id (apply_snapshot C received observer c)))
      (deserialize_snapshot-serialize_snapshot snapshot fits)
    ∙ ap some at_m
