-- ===== src/Game/InterestManagement/Partition.antt =====
-- InterestTracker::Update tells the entities that entered, stayed and left apart.
use brawololo.Prelude.{
  ℕ, ◌≡◌, refl, ◌∙◌, Bool, true, false, not, ◌&&◌, ◌||◌, List, [], ◌∷◌, arith, ◌==◌,
}
use brawololo.Prelude.Sets.{contains, add, contains-add, contains-cong, contains-append_one}
use brawololo.Game.Types.{NetworkEntityId}
use brawololo.Game.Replication.{EntityStateDto, SnapshotDto}
use brawololo.Game.InterestManagement.{
  InterestFrame, InterestTracker, update_entities, add_seen, add_exited, update_exited, update,
  contains_entity,
}

abbrev pub ids_of : List EntityStateDto → List NetworkEntityId
ids_of [] = []
ids_of (entity ∷ entities) = entity.replication.entity_id ∷ ids_of entities

-- How a frame differs from an earlier one, for one id.
record Grown (id : ℕ) (enters stays exits : Bool) (before after : InterestFrame) : Type 0 where
  entered : contains id after.entered ≡ (contains id before.entered || enters)
  stayed : contains id after.stayed ≡ (contains id before.stayed || stays)
  exited : contains id after.exited ≡ (contains id before.exited || exits)

add_seen_lem :
    (id k : ℕ) (is_known known : Bool) (frame : InterestFrame)
    → ((k == id) ≡ true → is_known ≡ known)
    → Grown id (k == id && not known) (k == id && known) false frame (add_seen is_known k frame)
add_seen_lem id k true known frame h =
    let one = contains-append_one id k frame.stayed in
    record { entered = ground arith; stayed = ground arith; exited = ground arith }
add_seen_lem id k false known frame h =
    let one = contains-append_one id k frame.entered in
    record { entered = ground arith; stayed = ground arith; exited = ground arith }

add_exited_lem :
    (id k : ℕ) (is_next next : Bool) (frame : InterestFrame)
    → ((k == id) ≡ true → is_next ≡ next)
    → Grown id false false (k == id && not next) frame (add_exited is_next k frame)
add_exited_lem id k true next frame h = record {
  entered = ground arith;
  stayed = ground arith;
  exited = ground arith;
}
add_exited_lem id k false next frame h =
    let one = contains-append_one id k frame.exited in
    record { entered = ground arith; stayed = ground arith; exited = ground arith }

Grown-trans :
    (id : ℕ) (e s x e' s' x' : Bool) (f g h : InterestFrame)
    → Grown id e s x f g
    → Grown id e' s' x' g h
    → Grown id (e || e') (s || s') (x || x') f h
Grown-trans id e s x e' s' x' f g h p q = record {
  entered = ground arith;
  stayed = ground arith;
  exited = ground arith;
}

update_entities_lem :
    (id : NetworkEntityId) (known : List NetworkEntityId) (xs : List EntityStateDto)
    (frame : InterestFrame) (next : List NetworkEntityId)
    → (let after = update_entities known xs frame next in
        Grown id
          (contains id (ids_of xs) && not (contains id known))
          (contains id (ids_of xs) && contains id known)
          false
          frame
          after.0
        × (contains id after.1 ≡ (contains id next || contains id (ids_of xs))))
unfolding update_entities contains
update_entities_lem id known [] frame next =
    (record { entered = ground arith; stayed = ground arith; exited = ground arith }, ground arith)
update_entities_lem id known (x ∷ xs) frame next =
    let k = x.replication.entity_id in
    let seen = add_seen (contains k known) k frame in
    let one =
      add_seen_lem id k (contains k known) (contains id known) frame (contains-cong k id known) in
    let (rest, new) = update_entities_lem id known xs seen (add k next) in
    let added = contains-add id k next in
    (
      record {
        entered = rest.entered ∙ rw one.entered (ground arith);
        stayed = rest.stayed ∙ rw one.stayed (ground arith);
        exited = rest.exited ∙ rw one.exited (ground arith);
      },
      new ∙ rw added (ground arith),
    )

update_exited_lem :
    (id : NetworkEntityId) (next known : List NetworkEntityId) (frame : InterestFrame)
    → Grown id false false
        (contains id known && not (contains id next))
        frame
        (update_exited next known frame)
unfolding update_exited contains
update_exited_lem id next [] frame = record {
  entered = ground arith;
  stayed = ground arith;
  exited = ground arith;
}
update_exited_lem id next (k ∷ known) frame =
    let one =
      add_exited_lem id k (contains k next) (contains id next) frame (contains-cong k id next) in
    let rest = update_exited_lem id next known (add_exited (contains k next) k frame) in
    record {
      entered = rest.entered ∙ rw one.entered (ground arith);
      stayed = rest.stayed ∙ rw one.stayed (ground arith);
      exited = rest.exited ∙ rw one.exited (ground arith);
    }

-- Update, for every id: it is in `entered` when the snapshot has it and it was not known, in `stayed`
-- when the snapshot has it and it was known, in `exited` when it was known and the snapshot has it not;
-- and afterwards exactly the ids of the snapshot are known.
pub update-partition :
    (id : NetworkEntityId) (snapshot : SnapshotDto) (tracker : InterestTracker)
    → (let after = update snapshot tracker in
        (contains id after.1.entered
          ≡ (contains id (ids_of snapshot.entities) && not (contains_entity id tracker)))
        × (contains id after.1.stayed
            ≡ (contains id (ids_of snapshot.entities) && contains_entity id tracker))
        × (contains id after.1.exited
            ≡ (contains_entity id tracker && not (contains id (ids_of snapshot.entities))))
        × (contains_entity id after.0 ≡ contains id (ids_of snapshot.entities)))
unfolding update contains_entity contains
update-partition id snapshot tracker =
    let known = tracker.known_entities in
    let empty : InterestFrame = record { entered = []; stayed = []; exited = [] } in
    let (seen, new) = update_entities_lem id known snapshot.entities empty [] in
    let after = update_entities known snapshot.entities empty [] in
    let gone = update_exited_lem id after.1 known after.0 in
    (
      gone.entered ∙ rw seen.entered (ground arith),
      gone.stayed ∙ rw seen.stayed (ground arith),
      gone.exited ∙ rw (seen.exited, new) refl,
      new,
    )
