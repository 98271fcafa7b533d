-- ===== src/Game/Simulation/Snapshots/Replaced.antt =====
-- What one round of the first loop of ApplySnapshot of GameLogic/src/Simulation.cpp does to a replica.
use mathlib.Core.Option.{some-injective}
use mathlib.Core.Bool.{true≢false}
use brawololo.Prelude.{
  ◌≡◌, ◌≢◌, inl, inr, refl, sym, ap, ◌∙◌, Bool, true, false, not, Option, none, some, List, ◌==◌,
  ==_iff, Bool-cases, arith, if-elim, ◌&&◌,
}
use brawololo.Prelude.Maps.{lookup, assign, lookup-assign, lookup-assign_other}
use brawololo.Game.Types.{ClientId, NetworkEntityId, TimestampMs}
use brawololo.Game.Replication.{MovementStateDto, EntityStateDto, ReplicatedEntityKind}
use brawololo.Game.Components.{Components, no_components}
use brawololo.Game.Simulation.Registry.{Entt, IsLawful}
use brawololo.Game.Simulation.Config.{SimulationConfig}
use brawololo.Game.Simulation.{GameSimulation, movement_of_row, update_entity}
use brawololo.Game.Simulation.Replicas.{
  with_kind, with_tags, apply_state, is_player_kind, is_local_player,
}
use brawololo.Game.Simulation.Snapshots.{enter, own_player, apply_known, apply_found}

with_kind-network_identity :
    (config : SimulationConfig) (now : TimestampMs) (state : EntityStateDto)
    (kind : ReplicatedEntityKind) (row : Components)
    → (with_kind config now state kind row).network_identity ≡ row.network_identity
with_kind-network_identity config now state ReplicatedEntityKind.player row = refl
with_kind-network_identity config now state ReplicatedEntityKind.projectile row = refl

module _ (E : Entt) where
  open E use {Registry, Entity, valid, components, create, replace}

  abbrev pub Known : Type 0
  Known = List (NetworkEntityId × Entity)

  -- The id of a known entity is the one that it carries.
  abbrev pub AreNamed : Registry → Known → Type 0
  AreNamed r m =
      (id : NetworkEntityId) (e : Entity)
      → lookup id m ≡ some e
      → (valid e r ≡ true) × ((components e r).network_identity ≡ some id)

  -- An id is known for the same entity, with the same components.
  pub record IsSameAt (id : NetworkEntityId) (r : Registry) (m : Known) (r' : Registry) (m' : Known)
      : Type 0 where
    pub same_entity : lookup id m' ≡ lookup id m
    pub same_row : (e : Entity) → lookup id m ≡ some e → components e r' ≡ components e r

  pub IsSameAt-refl : (id : NetworkEntityId) (r : Registry) (m : Known) → IsSameAt id r m r m
  IsSameAt-refl id r m = record { same_entity = refl; same_row = λ e h. refl }

  pub IsSameAt-trans :
      (id : NetworkEntityId) (r : Registry) (m : Known) (r' : Registry) (m' : Known)
      (r'' : Registry) (m'' : Known)
      → IsSameAt id r m r' m'
      → IsSameAt id r' m' r'' m''
      → IsSameAt id r m r'' m''
  IsSameAt-trans id r m r' m' r'' m'' h k = record {
    same_entity = k.same_entity ∙ h.same_entity;
    same_row = λ e found. k.same_row e (h.same_entity ∙ found) ∙ h.same_row e found;
  }

  -- An id is known for an entity that has this movement.
  abbrev pub Moves : NetworkEntityId → MovementStateDto → Registry → Known → Type 0
  Moves id movement r m =
      (e : Entity) × (lookup id m ≡ some e) × (movement_of_row E (components e r) ≡ some movement)

  pub Moves-IsSameAt :
      (id : NetworkEntityId) (movement : MovementStateDto) (r : Registry) (m : Known)
      (r' : Registry) (m' : Known)
      → IsSameAt id r m r' m'
      → Moves id movement r m
      → Moves id movement r' m'
  Moves-IsSameAt id movement r m r' m' same (e, found, moves) =
      (e, same.same_entity ∙ found, ap (movement_of_row E) (same.same_row e found) ∙ moves)

  with_kind-movement :
      (config : SimulationConfig) (now : TimestampMs) (is_local : Bool) (state : EntityStateDto)
      (kind : ReplicatedEntityKind) (row : Components)
      → movement_of_row E (with_tags config is_local (with_kind config now state kind row))
        ≡ movement_of_row E row
  with_kind-movement config now is_local state ReplicatedEntityKind.player row = refl
  with_kind-movement config now is_local state ReplicatedEntityKind.projectile row = refl

  apply_state-movement :
      (config : SimulationConfig) (local : ClientId) (now : TimestampMs) (is_known : Bool)
      (state : EntityStateDto) (row : Components)
      → row.network_identity ≡ some state.movement.entity_id
      → movement_of_row E (apply_state config local now is_known state row).0 ≡ some state.movement
  unfolding apply_state
  apply_state-movement config local now is_known state row named =
      with_kind-movement config now (is_local_player local state) state state.replication.kind _
      ∙ ap
          (λ id. movement_of_row E (record row {
            network_identity = id;
            transform = some (record { x = state.movement.x; y = state.movement.y });
            velocity = some (record { vx = state.movement.vx; vy = state.movement.vy });
            aim = some (record { x = state.movement.aim_x; y = state.movement.aim_y });
          }))
          named

  apply_state-network_identity :
      (config : SimulationConfig) (local : ClientId) (now : TimestampMs) (is_known : Bool)
      (state : EntityStateDto) (row : Components)
      → (apply_state config local now is_known state row).0.network_identity ≡ row.network_identity
  unfolding apply_state
  apply_state-network_identity config local now is_known state row =
      with_kind-network_identity config now state state.replication.kind _

  -- One state is applied: its id is known for an entity with its movement, and no other id is touched.
  pub record Settles (state : EntityStateDto) (r : Registry) (m : Known) (r' : Registry)
      (m' : Known) : Type 0 where
    pub named : AreNamed r' m'
    pub moves : Moves state.movement.entity_id state.movement r' m'
    pub others : (id : NetworkEntityId) → id ≢ state.movement.entity_id → IsSameAt id r m r' m'

  -- Two ids are not known for one entity.
  pub other_entity :
      (r : Registry) (m : Known) (id j : NetworkEntityId) (e d : Entity)
      → AreNamed r m
      → (components e r).network_identity ≡ some id
      → lookup j m ≡ some d
      → j ≢ id
      → d ≢ e
  other_entity r m id j e d named has_id found n same = n (
      some-injective _ _
        (sym (named j d found).1 ∙ ap (λ x. (components x r).network_identity) same ∙ has_id))

  module _ (L : IsLawful E) where
    replace-Settles :
        (state : EntityStateDto) (e : Entity) (row : Components) (r : Registry) (m : Known)
        → AreNamed r m
        → lookup state.movement.entity_id m ≡ some e
        → row.network_identity ≡ (components e r).network_identity
        → movement_of_row E row ≡ some state.movement
        → Settles state r m (replace e row r) m
    replace-Settles state e row r m named found same_id moves =
        let (v, carries) = named state.movement.entity_id e found in
        record {
          named = λ j d at. elim (L.same_entity d e) [
            | yes same ↦ (
              L.valid-replace r e d row v ∙ (named j d at).0,
              ap (λ (c : Components). c.network_identity)
                    (ap (λ x. components x (replace e row r)) same ∙ L.components-replace r e row v)
                  ∙ same_id
                  ∙ ap (λ x. (components x r).network_identity) (sym same)
                  ∙ (named j d at).1,
            )
            | no other ↦ (
              L.valid-replace r e d row v ∙ (named j d at).0,
              ap (λ (c : Components). c.network_identity)
                    (L.components-replace_other r e d row other)
                  ∙ (named j d at).1,
            )
          ];
          moves = (e, found, ap (movement_of_row E) (L.components-replace r e row v) ∙ moves);
          others = λ j n. record {
            same_entity = refl;
            same_row = λ d at.
                L.components-replace_other r e d row
                  (other_entity r m state.movement.entity_id j e d named carries at n);
          };
        }

    own_player-Settles :
        (state : EntityStateDto) (r : Registry) (m : Known) (s : GameSimulation E)
        → Settles state r m s.registry s.entity_by_network_id
        → Settles state r m
            (own_player E state s).registry
            (own_player E state s).entity_by_network_id
    own_player-Settles state r m s h =
        if-elim (λ (t : GameSimulation E). Settles state r m t.registry t.entity_by_network_id)
          (is_player_kind state.replication.kind && not (state.replication.owner_client_id == 0)) _
          _ (λ _. h) (λ _. h)

    apply_known-Settles :
        (local : ClientId) (now : TimestampMs) (is_known : Bool) (state : EntityStateDto)
        (s : GameSimulation E) (e : Entity)
        → AreNamed s.registry s.entity_by_network_id
        → lookup state.movement.entity_id s.entity_by_network_id ≡ some e
        → Settles state s.registry s.entity_by_network_id
            (apply_known E local now is_known state s e).registry
            (apply_known E local now is_known state s e).entity_by_network_id
    apply_known-Settles local now is_known state s e named found =
        let row = components e s.registry in
        let carries = (named state.movement.entity_id e found).1 in
        own_player-Settles state s.registry s.entity_by_network_id
          (update_entity E (apply_state s.config local now is_known state) e s)
          (replace-Settles state e (apply_state s.config local now is_known state row).0 s.registry
            s.entity_by_network_id named found
            (apply_state-network_identity s.config local now is_known state row)
            (apply_state-movement s.config local now is_known state row carries))

    ne_new : (r : Registry) (d : Entity) → valid d r ≡ true → d ≢ (create r).1
    ne_new r d v e = true≢false (sym v ∙ ap (λ x. valid x r) e ∙ L.valid-fresh r)

    entered_other :
        (row : Components) (r : Registry) (d : Entity)
        → d ≢ (create r).1
        → components d (replace (create r).1 row (create r).0) ≡ components d r
    entered_other row r d n =
        L.components-replace_other (create r).0 (create r).1 d row n
        ∙ L.components-create_other r d n

    -- A new entity for an id that is not known.
    enter-AreNamed :
        (id : NetworkEntityId) (r : Registry) (m : Known)
        → AreNamed r m
        → AreNamed
            (replace
              (create r).1
              (record no_components { network_identity = some id })
              (create r).0)
            (assign id (create r).1 m)
    enter-AreNamed id r m named j d at =
        let new = (create r).1 in
        let row = record no_components { network_identity = some id } in
        let r' = replace new row (create r).0 in
        let is_valid = L.valid-create r in
        elim (Bool-cases (j == id)) [
          | inl same ↦
              let at_id = (==_iff j id).0 same in
              let here : some d ≡ some new =
                sym at ∙ ap (λ x. lookup x (assign id new m)) at_id ∙ lookup-assign id new m in
              let d_new = some-injective _ _ here in
              (
                ap (λ x. valid x r') d_new
                    ∙ L.valid-replace (create r).0 new new row is_valid
                    ∙ is_valid,
                ap (λ x. (components x r').network_identity) d_new
                    ∙ ap (λ (c : Components). c.network_identity)
                        (L.components-replace (create r).0 new row is_valid)
                    ∙ ap some (sym at_id),
              )
          | inr other ↦
              let old = lookup-assign_other id j new m (ground arith) in
              let (v, carries) = named j d (sym old ∙ at) in
              let n = ne_new r d v in
              (
                L.valid-replace (create r).0 new d row is_valid ∙ L.valid-create_other r d n ∙ v,
                ap (λ (c : Components). c.network_identity) (entered_other row r d n) ∙ carries,
              )
        ]

    enter-IsSameAt :
        (id j : NetworkEntityId) (r : Registry) (m : Known)
        → AreNamed r m
        → j ≢ id
        → IsSameAt j r m
            (replace
              (create r).1
              (record no_components { network_identity = some id })
              (create r).0)
            (assign id (create r).1 m)
    enter-IsSameAt id j r m named n = record {
      same_entity = lookup-assign_other id j (create r).1 m n;
      same_row = λ d at. entered_other _ r d (ne_new r d (named j d at).0);
    }

    pub apply_found-Settles :
        (local : ClientId) (now : TimestampMs) (state : EntityStateDto) (o : Option Entity)
        (s : GameSimulation E)
        → AreNamed s.registry s.entity_by_network_id
        → lookup state.movement.entity_id s.entity_by_network_id ≡ o
        → Settles state s.registry s.entity_by_network_id
            (apply_found E local now state o s).registry
            (apply_found E local now state o s).entity_by_network_id
    apply_found-Settles local now state (some e) s named found =
        apply_known-Settles local now true state s e named found
    apply_found-Settles local now state none s named found =
        let id = state.movement.entity_id in
        let r = s.registry in
        let m = s.entity_by_network_id in
        let (s', e) = enter E local id s in
        let settled =
          apply_known-Settles local now false state s' e (enter-AreNamed id r m named)
            (lookup-assign id e m) in
        record {
          named = settled.named;
          moves = settled.moves;
          others = λ j n.
              IsSameAt-trans j r m s'.registry s'.entity_by_network_id _ _
                (enter-IsSameAt id j r m named n) (settled.others j n);
        }
