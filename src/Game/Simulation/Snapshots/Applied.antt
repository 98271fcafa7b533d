-- ===== src/Game/Simulation/Snapshots/Applied.antt =====
-- What a client knows after ApplySnapshot of GameLogic/src/Simulation.cpp.
use mathlib.Core.Bool.{true≢false}
use mathlib.Core.Option.{none-ne-some}
use brawololo.Game.Components.{Components}
use brawololo.Prelude.{
  ◌≡◌, ◌≢◌, ◌⊎◌, inl, inr, refl, sym, ap, ◌∙◌, true, ◌||◌, some, List, [], ◌∷◌, Bool-cases, arith,
  All, All-imp, map,
}
use brawololo.Prelude.Maps.{lookup}
use brawololo.Prelude.Sets.{contains, contains-add}
use brawololo.Game.Types.{ClientId, NetworkEntityId, TimestampMs}
use brawololo.Game.Replication.{EntityStateDto, SnapshotDto}
use brawololo.Game.Simulation.Registry.{Entt, IsLawful}
use brawololo.Game.Simulation.{GameSimulation, movement_for_entity, movement_found}
use brawololo.Game.Simulation.Replicas.{is_owned_by}
use brawololo.Game.Simulation.Snapshots.{
  apply_found, apply_states, seen_entities, leaving, apply_snapshot,
}
use brawololo.Game.Simulation.Snapshots.Replaced.{
  AreNamed, IsSameAt, IsSameAt-refl, IsSameAt-trans, Moves, Moves-IsSameAt, apply_found-Settles,
}
use brawololo.Game.Simulation.Snapshots.Left.{leaving_lem, leaving-seen, leave_all-Forgets}

abbrev pub entity_ids : List EntityStateDto → List NetworkEntityId
entity_ids states = map (λ state. state.movement.entity_id) states

All-imp_both :
    {P Q R : EntityStateDto → Type 0}
    → ((x : EntityStateDto) → P x → Q x → R x)
    → (xs : List EntityStateDto) → All P xs
    → All Q xs
    → All R xs
All-imp_both f [] p q = tt
All-imp_both f (x ∷ xs) p q = (f x p.0 q.0, All-imp_both f xs p.1 q.1)

abbrev IsOther : NetworkEntityId → EntityStateDto → Type 0
IsOther id state = id ≢ state.movement.entity_id

-- No two states are of one entity.
abbrev pub AreDistinct : List EntityStateDto → Type 0
AreDistinct [] = Unit {0}
AreDistinct (state ∷ rest) = All (IsOther state.movement.entity_id) rest × AreDistinct rest

module _ (E : Entt) where
  open E use {Entity, components}

  contains-seen_entities :
      (states : List EntityStateDto) (seen : List NetworkEntityId) (id : NetworkEntityId)
      → contains id (seen_entities E states seen)
        ≡ (contains id seen || contains id (entity_ids states))
  unfolding contains
  contains-seen_entities [] seen id = ground arith
  contains-seen_entities (state ∷ rest) seen id =
      let added = contains-add id state.movement.entity_id seen in
      let ih = contains-seen_entities rest _ id in ih ∙ ground arith

  contains-entity_ids :
      (states : List EntityStateDto)
      → All (λ state. contains state.movement.entity_id (entity_ids states) ≡ true) states
  unfolding contains
  contains-entity_ids [] = tt
  contains-entity_ids (state ∷ rest) =
      (ground arith, All-imp _ _ (λ other h. ground arith) rest (contains-entity_ids rest))

  abbrev Names : GameSimulation E → Type 0
  Names s = AreNamed E s.registry s.entity_by_network_id

  abbrev SameAt : NetworkEntityId → GameSimulation E → GameSimulation E → Type 0
  SameAt id s t = IsSameAt E id s.registry s.entity_by_network_id t.registry t.entity_by_network_id

  abbrev MovesAs : GameSimulation E → EntityStateDto → Type 0
  MovesAs s state =
      Moves E state.movement.entity_id state.movement s.registry s.entity_by_network_id

  -- What a client knows after a snapshot: each state of it is the movement of a replica, and every
  -- replica is of the snapshot or owned by the client.
  pub record Converges (snapshot : SnapshotDto) (local : ClientId) (s : GameSimulation E)
      : Type 0 where
    pub named : AreNamed E s.registry s.entity_by_network_id
    pub moves :
        All
          (λ (state : EntityStateDto).
            movement_for_entity E state.movement.entity_id s ≡ some state.movement)
          snapshot.entities
    pub current :
        (id : NetworkEntityId) (e : Entity)
        → lookup id s.entity_by_network_id ≡ some e
        → (contains id (entity_ids snapshot.entities) ≡ true)
          ⊎ (is_owned_by local (components e s.registry).owned_by_player ≡ true)

  module _ (L : IsLawful E) (local : ClientId) (now : TimestampMs) where
    apply_states-SameAt :
        (states : List EntityStateDto) (s : GameSimulation E)
        → Names s
        → Names (apply_states E local now states s)
          × ((id : NetworkEntityId)
              → All (IsOther id) states
              → SameAt id s (apply_states E local now states s))
    unfolding apply_states lookup
    apply_states-SameAt [] s named =
        (named, λ id _. IsSameAt-refl E id s.registry s.entity_by_network_id)
    apply_states-SameAt (state ∷ rest) s named =
        let o = lookup state.movement.entity_id s.entity_by_network_id in
        let first = apply_found-Settles E L local now state o s named refl in
        let later = apply_states-SameAt rest (apply_found E local now state o s) first.named in
        (
          later.0,
          λ id others.
              IsSameAt-trans E id _ _ _ _ _ _ (first.others id others.0) (later.1 id others.1),
        )

    apply_states-MovesAs :
        (states : List EntityStateDto) (s : GameSimulation E)
        → Names s
        → AreDistinct states
        → All (MovesAs (apply_states E local now states s)) states
    unfolding apply_states lookup
    apply_states-MovesAs [] s named distinct = tt
    apply_states-MovesAs (state ∷ rest) s named distinct =
        let o = lookup state.movement.entity_id s.entity_by_network_id in
        let first = apply_found-Settles E L local now state o s named refl in
        let s' = apply_found E local now state o s in
        let later = apply_states-SameAt rest s' first.named in
        (
          Moves-IsSameAt E state.movement.entity_id state.movement _ _ _ _
              (later.1 state.movement.entity_id distinct.0) first.moves,
          apply_states-MovesAs rest s' first.named distinct.1,
        )

  -- After ApplySnapshot of a snapshot that has no two states of one entity, on a simulation in which the
  -- id of a known entity is the one that it carries: that is still so, MovementForEntity gives the
  -- movement of each state for its entity, and every entity that is known is of the snapshot or owned
  -- by the local client.
  pub apply_snapshot-Converges :
      (L : IsLawful E) (snapshot : SnapshotDto) (local : ClientId) (s : GameSimulation E)
      → AreNamed E s.registry s.entity_by_network_id
      → AreDistinct snapshot.entities
      → Converges snapshot local (apply_snapshot E snapshot local s)
  unfolding apply_snapshot movement_for_entity lookup contains
  apply_snapshot-Converges L snapshot local s named distinct =
      let now = snapshot.server_time_ms in
      let states = snapshot.entities in
      let applied = apply_states E local now states s in
      let seen = seen_entities E states [] in
      let ids = leaving E local seen applied applied.entity_by_network_id in
      let settled = apply_states-SameAt L local now states s named in
      let left = leave_all-Forgets E L local ids applied settled.0 in
      let stays = λ (id : NetworkEntityId) (h : contains id (entity_ids states) ≡ true).
        left.kept id (
          leaving-seen E local seen applied applied.entity_by_network_id id
            (contains-seen_entities states [] id ∙ h)) in
      record {
        named = left.named;
        moves =
            All-imp_both
              (λ state listed moving.
                let (e, found, moves) =
                  Moves-IsSameAt E state.movement.entity_id state.movement _ _ _ _
                    (stays state.movement.entity_id listed) moving in
                ap (λ o. movement_found E o (apply_snapshot E snapshot local s)) found ∙ moves)
              states (contains-entity_ids states)
              (apply_states-MovesAs L local now states s named distinct);
        current = λ id e found. elim (Bool-cases (contains id (entity_ids states))) [
          | inl listed ↦ inl listed
          | inr unlisted ↦ elim (Bool-cases (contains id ids)) [
            | inl leaves ↦ absurd (none-ne-some e (sym (left.gone id leaves) ∙ found))
            | inr stayed ↦
                let same = left.kept id stayed in
                let before = sym same.same_entity ∙ found in
                let owned = λ (row : Components). is_owned_by local row.owned_by_player in
                elim (Bool-cases (owned (components e applied.registry))) [
                  | inl mine ↦ inr (ap owned (same.same_row e before) ∙ mine)
                  | inr foreign ↦ absurd (
                      true≢false (
                        sym (
                          leaving_lem E local seen applied applied.entity_by_network_id id e before
                            (contains-seen_entities states [] id ∙ unlisted) foreign)
                        ∙ stayed))
                ]
          ]
        ];
      }
