-- ===== src/Game/Simulation/Players.antt =====
-- What holds of every entity of a simulation, and how one update keeps it.
pub mod Loops
pub mod Fights
pub mod Runs
pub mod Respawns
use mathlib.Core.Option.{some-injective, none-ne-some}
use mathlib.Core.Bool.{true≢false}
use brawololo.Prelude.{
  length, ◌≤◌, ◌≡◌, ◌≢◌, sym, ap, ◌∙◌, subst, Bool, true, some, List, All, Memᴰ-All, arith, ◌==◌,
  ==_iff, Bool-cases, inl, inr,
}
use brawololo.Prelude.Maps.{
  lookup, assign, erase, lookup-assign, lookup-assign_other, lookup-erase, lookup-erase_other,
}
use brawololo.Game.Types.{NetworkEntityId}
use brawololo.Game.Events.{DomainEvent}
use brawololo.Game.Components.{Components}
use brawololo.Game.Simulation.Registry.{Entt, IsLawful}
use brawololo.Game.Simulation.Config.{SimulationConfig}
use brawololo.Game.Simulation.Movement.{Row}
use brawololo.Game.Simulation.Inputs.{AreAccepted}
use brawololo.Game.Simulation.Fitness.{RowFits, Keeps}
use brawololo.Game.Simulation.{GameSimulation, update_entity, add_entity}

module _ (E : Entt) (L : IsLawful E) (config : SimulationConfig) where
  open E use {Registry, Entity, create, destroy, valid, components, replace, view}

  -- The configuration is never changed, there are not too many players, the waiting inputs were accepted
  -- in order, the components of every entity fit, and an id that the simulation knows is that of a
  -- valid entity.
  pub record IsSound (s : GameSimulation E) : Type 0 where
    pub same_config : s.config ≡ config
    pub few_players : length s.player_by_client ≤ config.max_players
    pub accepted : AreAccepted s.player_by_client s.last_accepted_sequence s.pending_inputs
    pub fits : (e : Entity) → valid e s.registry ≡ true → RowFits config (components e s.registry)
    pub known :
        (id : NetworkEntityId) (e : Entity)
        → lookup id s.entity_by_network_id ≡ some e
        → (valid e s.registry ≡ true) × ((components e s.registry).network_identity ≡ some id)

  -- Sound, with every entity still valid.
  pub record Follows (s s' : GameSimulation E) : Type 0 where
    pub sound : IsSound s'
    pub still_valid : (e : Entity) → valid e s.registry ≡ true → valid e s'.registry ≡ true

  pub Follows-trans : (s t u : GameSimulation E) → Follows s t → Follows t u → Follows s u
  Follows-trans s t u h k = record {
    sound = k.sound;
    still_valid = λ e v. k.still_valid e (h.still_valid e v);
  }

  -- A change of one entity's components that fits.
  pub replace-Follows :
      (e : Entity) (row : Components) (events : List DomainEvent) (s : GameSimulation E)
      → IsSound s
      → valid e s.registry ≡ true
      → Keeps config (components e s.registry) row
      → Follows s (record s { registry = replace e row s.registry; events = events })
  replace-Follows e row events s h v k = record {
    sound = record {
      same_config = h.same_config;
      few_players = h.few_players;
      accepted = h.accepted;
      fits = λ d w. elim (L.same_entity d e) [
        | yes same ↦
            subst (RowFits config)
              (sym (
                ap (λ x. components x (replace e row s.registry)) same
                ∙ L.components-replace s.registry e row v))
              k.0
        | no other ↦
            subst (RowFits config) (sym (L.components-replace_other s.registry e d row other))
              (h.fits d (sym (L.valid-replace s.registry e d row v) ∙ w))
      ];
      known = λ id d found.
          let (w, named) = h.known id d found in
          (
            L.valid-replace s.registry e d row v ∙ w,
            elim (L.same_entity d e) [
              | yes same ↦
                  ap (λ (c : Components). c.network_identity)
                    (ap (λ x. components x (replace e row s.registry)) same
                      ∙ L.components-replace s.registry e row v)
                  ∙ k.1
                  ∙ ap (λ x. (components x s.registry).network_identity) (sym same)
                  ∙ named
              | no other ↦
                  ap (λ (c : Components). c.network_identity)
                    (L.components-replace_other s.registry e d row other)
                  ∙ named
            ],
          );
    };
    still_valid = λ d w. L.valid-replace s.registry e d row v ∙ w;
  }

  pub update_entity-Follows :
      (change : Components → Row) (e : Entity) (s : GameSimulation E)
      → IsSound s
      → valid e s.registry ≡ true
      → Keeps config (components e s.registry) (change (components e s.registry)).0
      → Follows s (update_entity E change e s)
  update_entity-Follows change e s h v k = replace-Follows e _ _ s h v k

  -- The entities of a view are valid.
  pub view-valid :
      (test : Components → Bool) (r : Registry)
      → All (λ e. (valid e r ≡ true) × (test (components e r) ≡ true)) (view test r)
  view-valid test r = Memᴰ-All _ (view test r) (λ e m. (L.view_mem r test e).0 m)

  -- The registry after an entity is created and given some components.
  abbrev new_entity : Registry → Entity
  new_entity r = (create r).1

  abbrev added : Components → Registry → Registry
  added row r = replace (new_entity r) row (create r).0

  components-added :
      (row : Components) (r : Registry) → components (new_entity r) (added row r) ≡ row
  components-added row r = L.components-replace (create r).0 (new_entity r) row (L.valid-create r)

  components-added_other :
      (row : Components) (r : Registry) (d : Entity)
      → d ≢ new_entity r
      → components d (added row r) ≡ components d r
  components-added_other row r d n =
      L.components-replace_other (create r).0 (new_entity r) d row n
      ∙ L.components-create_other r d n

  valid-added : (row : Components) (r : Registry) → valid (new_entity r) (added row r) ≡ true
  valid-added row r =
      L.valid-replace (create r).0 (new_entity r) (new_entity r) row (L.valid-create r)
      ∙ L.valid-create r

  valid-added_other :
      (row : Components) (r : Registry) (d : Entity)
      → d ≢ new_entity r
      → valid d (added row r) ≡ valid d r
  valid-added_other row r d n =
      L.valid-replace (create r).0 (new_entity r) d row (L.valid-create r)
      ∙ L.valid-create_other r d n

  valid-ne-new : (r : Registry) (d : Entity) → valid d r ≡ true → d ≢ new_entity r
  valid-ne-new r d v e = true≢false (sym v ∙ ap (λ x. valid x r) e ∙ L.valid-fresh r)

  added-fits :
      (row : Components) (s : GameSimulation E)
      → IsSound s
      → RowFits config row
      → (d : Entity) → valid d (added row s.registry) ≡ true
      → RowFits config (components d (added row s.registry))
  added-fits row s h fits d w = elim (L.same_entity d (new_entity s.registry)) [
    | yes same ↦
        subst (RowFits config)
          (sym
            (ap (λ x. components x (added row s.registry)) same ∙ components-added row s.registry))
          fits
    | no other ↦
        subst (RowFits config) (sym (components-added_other row s.registry d other))
          (h.fits d (sym (valid-added_other row s.registry d other) ∙ w))
  ]

  added-known :
      (row : Components) (s : GameSimulation E) (id : NetworkEntityId)
      → IsSound s
      → row.network_identity ≡ some id
      → (j : NetworkEntityId) (d : Entity)
      → lookup j (assign id (new_entity s.registry) s.entity_by_network_id) ≡ some d
      → (valid d (added row s.registry) ≡ true)
        × ((components d (added row s.registry)).network_identity ≡ some j)
  added-known row s id h named j d found =
      let new = new_entity s.registry in
      let r = added row s.registry in
      elim (Bool-cases (j == id)) [
        | inl same ↦
            let at_id = (==_iff j id).0 same in
            let here : some d ≡ some new =
              sym found
              ∙ ap (λ x. lookup x (assign id new s.entity_by_network_id)) at_id
              ∙ lookup-assign id new s.entity_by_network_id in
            let d_new = some-injective _ _ here in
            (
              ap (λ x. valid x r) d_new ∙ valid-added row s.registry,
              ap (λ x. (components x r).network_identity) d_new
                  ∙ ap (λ (c : Components). c.network_identity) (components-added row s.registry)
                  ∙ named
                  ∙ ap some (sym at_id),
            )
        | inr other ↦
            let old = lookup-assign_other id j new s.entity_by_network_id (ground arith) in
            let (v, was) = h.known j d (sym old ∙ found) in
            let n = valid-ne-new s.registry d v in
            (
              valid-added_other row s.registry d n ∙ v,
              ap (λ (c : Components). c.network_identity)
                    (components-added_other row s.registry d n)
                  ∙ was,
            )
      ]

  -- A new entity whose components fit and carry the next network id.
  pub add_entity-Follows :
      (row : NetworkEntityId → Components) (s : GameSimulation E)
      → IsSound s
      → RowFits config (row s.next_network_id)
      → (row s.next_network_id).network_identity ≡ some s.next_network_id
      → Follows s (add_entity E row s)
  add_entity-Follows row s h fits named =
      let id = s.next_network_id in
      record {
        sound = record {
          same_config = h.same_config;
          few_players = h.few_players;
          accepted = h.accepted;
          fits = added-fits (row id) s h fits;
          known = added-known (row id) s id h named;
        };
        still_valid =
            λ d v. valid-added_other (row id) s.registry d (valid-ne-new s.registry d v) ∙ v;
      }

  -- A destroyed entity is forgotten by its id.
  pub destroy-IsSound :
      (e : Entity) (id : NetworkEntityId) (s : GameSimulation E)
      → IsSound s
      → (components e s.registry).network_identity ≡ some id
      → IsSound (record s {
        entity_by_network_id = erase id s.entity_by_network_id;
        registry = destroy e s.registry;
      })
  destroy-IsSound e id s h named = record {
    same_config = h.same_config;
    few_players = h.few_players;
    accepted = h.accepted;
    fits = λ d w. elim (L.same_entity d e) [
      | yes same ↦ absurd (
          true≢false
            (sym w ∙ ap (λ x. valid x (destroy e s.registry)) same ∙ L.valid-destroy s.registry e))
      | no other ↦
          subst (RowFits config) (sym (L.components-destroy_other s.registry e d other))
            (h.fits d (sym (L.valid-destroy_other s.registry e d other) ∙ w))
    ];
    known = λ j d found. elim (Bool-cases (j == id)) [
      | inl same ↦ absurd (
          none-ne-some _ (
            sym (lookup-erase id s.entity_by_network_id)
            ∙ ap (λ x. lookup x (erase id s.entity_by_network_id)) (sym ((==_iff j id).0 same))
            ∙ found))
      | inr differs ↦
          let old = lookup-erase_other id j s.entity_by_network_id (ground arith) in
          let (v, was) = h.known j d (sym old ∙ found) in
          let other : d ≢ e = λ e'.
            let both : some j ≡ some id =
              sym was ∙ ap (λ x. (components x s.registry).network_identity) e' ∙ named in
            let same_id = some-injective _ _ both in
            true≢false (sym ((==_iff j id).1 same_id) ∙ differs) in
          (
            L.valid-destroy_other s.registry e d other ∙ v,
            ap (λ (c : Components). c.network_identity)
                  (L.components-destroy_other s.registry e d other)
                ∙ was,
          )
    ];
  }
