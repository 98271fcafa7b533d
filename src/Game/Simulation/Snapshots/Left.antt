-- ===== src/Game/Simulation/Snapshots/Left.antt =====
-- The second half of ApplySnapshot of GameLogic/src/Simulation.cpp: the replicas that leave.
use mathlib.Core.Option.{some-injective, none-ne-some}
use brawololo.Prelude.{
  ◌≡◌, ◌≢◌, inl, inr, refl, sym, ap, ◌∙◌, true, false, Option, none, some, List, [], ◌∷◌, ◌==◌,
  ==_iff, Bool-cases, arith,
}
use brawololo.Prelude.Maps.{lookup, erase, lookup-erase, lookup-erase_other}
use brawololo.Prelude.Sets.{contains}
use brawololo.Game.Types.{ClientId, NetworkEntityId}
use brawololo.Game.Components.{Components, PlayerComponent}
use brawololo.Game.Simulation.Registry.{Entt, IsLawful}
use brawololo.Game.Simulation.{GameSimulation}
use brawololo.Game.Simulation.Replicas.{is_owned_by}
use brawololo.Game.Simulation.Snapshots.{leaving, disown, leave_found, leave_all}
use brawololo.Game.Simulation.Snapshots.Replaced.{
  Known, AreNamed, IsSameAt, IsSameAt-refl, IsSameAt-trans, other_entity,
}

module _ (E : Entt) where
  open E use {Registry, Entity, valid, components, destroy}

  -- The listed ids are not known any more, and the others are as they were.
  pub record Forgets (ids : List NetworkEntityId) (r : Registry) (m : Known E) (r' : Registry)
      (m' : Known E) : Type 0 where
    pub named : AreNamed E r' m'
    pub gone : (id : NetworkEntityId) → contains id ids ≡ true → lookup id m' ≡ none
    pub kept : (id : NetworkEntityId) → contains id ids ≡ false → IsSameAt E id r m r' m'

  -- An id that is known is listed as leaving, unless it is seen or of an entity of the local client.
  pub leaving_lem :
      (local : ClientId) (seen : List NetworkEntityId) (s : GameSimulation E) (m : Known E)
      (id : NetworkEntityId) (e : Entity)
      → lookup id m ≡ some e
      → contains id seen ≡ false
      → is_owned_by local (components e s.registry).owned_by_player ≡ false
      → contains id (leaving E local seen s m) ≡ true
  unfolding lookup contains leaving
  leaving_lem local seen s [] id e found unseen foreign = absurd (none-ne-some e found)
  leaving_lem local seen s (entry ∷ rest) id e found unseen foreign =
      let ih = leaving_lem local seen s rest id e in
      elim (Bool-cases (entry.0 == id)) [
        | inl same ↦
            let here : some entry.1 ≡ some e = ground arith in
            let at_e = some-injective _ _ here in
            let at_id = (==_iff entry.0 id).0 same in
            let unseen' = ap (λ x. contains x seen) at_id ∙ unseen in
            let foreign' =
              ap (λ x. is_owned_by local (components x s.registry).owned_by_player) at_e
              ∙ foreign in
            ground arith
        | inr differs ↦
            let later : lookup id rest ≡ some e = ground arith in
            let listed = ih later unseen foreign in ground arith
      ]

  -- A seen id does not leave.
  pub leaving-seen :
      (local : ClientId) (seen : List NetworkEntityId) (s : GameSimulation E) (m : Known E)
      (id : NetworkEntityId)
      → contains id seen ≡ true
      → contains id (leaving E local seen s m) ≡ false
  unfolding contains leaving
  leaving-seen local seen s [] id h = refl
  leaving-seen local seen s (entry ∷ rest) id h =
      let ih = leaving-seen local seen s rest id h in
      elim (Bool-cases (entry.0 == id)) [
        | inl same ↦
            let seen' = ap (λ x. contains x seen) ((==_iff entry.0 id).0 same) ∙ h in ground arith
        | inr differs ↦ ground arith
      ]

  module _ (L : IsLawful E) where
    erase-Forgets :
        (id : NetworkEntityId) (e : Entity) (r : Registry) (m : Known E)
        → AreNamed E r m
        → lookup id m ≡ some e
        → Forgets (id ∷ []) r m (destroy e r) (erase id m)
    unfolding contains
    erase-Forgets id e r m named found =
        let carries = (named id e found).1 in
        let other = λ (j : NetworkEntityId) (d : Entity) (at : lookup j m ≡ some d) (n : j ≢ id).
          other_entity E r m id j e d named carries at n in
        record {
          named = λ j d at. elim (Bool-cases (j == id)) [
            | inl same ↦ absurd (
                none-ne-some d (
                  sym (lookup-erase id m)
                  ∙ ap (λ x. lookup x (erase id m)) (sym ((==_iff j id).0 same))
                  ∙ at))
            | inr differs ↦
                let old = lookup-erase_other id j m (ground arith) in
                let was = sym old ∙ at in
                let n = other j d was (ground arith) in
                let (v, has_id) = named j d was in
                (
                  L.valid-destroy_other r e d n ∙ v,
                  ap (λ (c : Components). c.network_identity) (L.components-destroy_other r e d n)
                      ∙ has_id,
                )
          ];
          gone = λ j h.
              let same : j ≡ id = ground arith in
              ap (λ x. lookup x (erase id m)) same ∙ lookup-erase id m;
          kept = λ j h.
              let n : j ≢ id = ground arith in
              record {
                same_entity = lookup-erase_other id j m n;
                same_row = λ d at. L.components-destroy_other r e d (other j d at n);
              };
        }

    left_entity-Forgets :
        (local : ClientId) (id : NetworkEntityId) (e : Entity) (player : Option PlayerComponent)
        (s : GameSimulation E)
        → AreNamed E s.registry s.entity_by_network_id
        → lookup id s.entity_by_network_id ≡ some e
        → Forgets
            (id ∷ [])
            s.registry
            s.entity_by_network_id
            (destroy e (disown E player s).registry)
            (erase id (disown E player s).entity_by_network_id)
    left_entity-Forgets local id e none s named found =
        erase-Forgets id e s.registry s.entity_by_network_id named found
    left_entity-Forgets local id e (some player) s named found =
        erase-Forgets id e s.registry s.entity_by_network_id named found

    leave_found-Forgets :
        (local : ClientId) (id : NetworkEntityId) (o : Option Entity) (s : GameSimulation E)
        → AreNamed E s.registry s.entity_by_network_id
        → lookup id s.entity_by_network_id ≡ o
        → Forgets
            (id ∷ [])
            s.registry
            s.entity_by_network_id
            (leave_found E local id o s).registry
            (leave_found E local id o s).entity_by_network_id
    unfolding contains
    leave_found-Forgets local id none s named found = record {
      named = named;
      gone = λ j h.
          let same : j ≡ id = ground arith in
          ap (λ x. lookup x s.entity_by_network_id) same ∙ found;
      kept = λ j h. IsSameAt-refl E j s.registry s.entity_by_network_id;
    }
    leave_found-Forgets local id (some e) s named found =
        left_entity-Forgets local id e (components e s.registry).player s named found

    -- Leaving in turn.
    pub leave_all-Forgets :
        (local : ClientId) (ids : List NetworkEntityId) (s : GameSimulation E)
        → AreNamed E s.registry s.entity_by_network_id
        → Forgets ids s.registry s.entity_by_network_id
            (leave_all E local ids s).registry
            (leave_all E local ids s).entity_by_network_id
    unfolding leave_all lookup contains
    leave_all-Forgets local [] s named = record {
      named = named;
      gone = λ j h. absurd (cc);
      kept = λ j h. IsSameAt-refl E j s.registry s.entity_by_network_id;
    }
    leave_all-Forgets local (id ∷ rest) s named =
        let first = leave_found-Forgets local id (lookup id s.entity_by_network_id) s named refl in
        let later =
          leave_all-Forgets local rest (leave_found E local id (lookup id s.entity_by_network_id) s)
            first.named in
        record {
          named = later.named;
          gone = λ j h. elim (Bool-cases (contains j rest)) [
            | inl listed ↦ later.gone j listed
            | inr other ↦ (later.kept j other).same_entity ∙ first.gone j (ground arith)
          ];
          kept = λ j h.
              IsSameAt-trans E j _ _ _ _ _ _ (first.kept j (ground arith))
                (later.kept j (ground arith));
        }
