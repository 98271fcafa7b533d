-- ===== src/Game/SnapshotDelta/Reference.antt =====
-- The two loops of PlanSnapshotDelta, against a description without state.
use brawololo.Prelude.{
  ℕ, ◌+◌, ◌≡◌, refl, ap, ◌∙◌, sym, ◌||◌, List, [], ◌∷◌, ◌++◌, arith, if◌then◌else◌, append_assoc,
  append-nil, Bool-cases, inl, inr,
}
use brawololo.Prelude.Sets.{contains, add, contains-add}
use brawololo.Game.Types.{NetworkEntityId}
use brawololo.Game.Replication.{EntityStateDto, SnapshotDto}
use brawololo.Game.SnapshotDelta.{
  SnapshotEntityDeltaKind, added, changed, removed, unchanged, SnapshotEntityDelta,
  SnapshotDeltaPlan, push_delta, count_delta, kind_of_found, find_entity, plan_current,
  plan_removed, start_plan, plan_snapshot_delta,
}
use brawololo.Game.InterestManagement.Partition.{ids_of}

-- Each entity of the current snapshot, by what the baseline has under its id.
abbrev pub current_deltas : List EntityStateDto → List EntityStateDto → List SnapshotEntityDelta
current_deltas baseline [] = []
current_deltas baseline (e ∷ es) =
    record {
      entity_id = e.replication.entity_id;
      kind = kind_of_found e (find_entity e.replication.entity_id baseline);
    }
    ∷ current_deltas baseline es

-- The entities of the baseline whose ids the current snapshot does not have.
abbrev pub removed_deltas : List NetworkEntityId → List EntityStateDto → List SnapshotEntityDelta
removed_deltas ids [] = []
removed_deltas ids (e ∷ es) =
    if contains e.replication.entity_id ids
    then removed_deltas ids es
    else record { entity_id = e.replication.entity_id; kind = removed } ∷ removed_deltas ids es

abbrev pub is_kind : SnapshotEntityDeltaKind → SnapshotEntityDeltaKind → ℕ
is_kind added added = 1
is_kind changed changed = 1
is_kind removed removed = 1
is_kind unchanged unchanged = 1
is_kind _ _ = 0

abbrev pub count_kind : SnapshotEntityDeltaKind → List SnapshotEntityDelta → ℕ
count_kind k [] = 0
count_kind k (d ∷ ds) = is_kind k d.kind + count_kind k ds

-- `after` is `before` with entries added and counted.
record Extends (ds : List SnapshotEntityDelta) (before after : SnapshotDeltaPlan) : Type 0 where
  entities : after.entities ≡ before.entities ++ ds
  added_count : after.added_count ≡ before.added_count + count_kind added ds
  changed_count : after.changed_count ≡ before.changed_count + count_kind changed ds
  removed_count : after.removed_count ≡ before.removed_count + count_kind removed ds
  unchanged_count : after.unchanged_count ≡ before.unchanged_count + count_kind unchanged ds
  snapshot_id : after.snapshot_id ≡ before.snapshot_id
  baseline_id : after.baseline_id ≡ before.baseline_id
  baseline_matched : after.baseline_matched ≡ before.baseline_matched

Extends-nil : (p : SnapshotDeltaPlan) → Extends [] p p
Extends-nil p = record {
  entities = sym (append-nil p.entities);
  added_count = omega arith;
  changed_count = omega arith;
  removed_count = omega arith;
  unchanged_count = omega arith;
  snapshot_id = refl;
  baseline_id = refl;
  baseline_matched = refl;
}

Extends-push :
    (id : NetworkEntityId) (k : SnapshotEntityDeltaKind) (ds : List SnapshotEntityDelta)
    (p q : SnapshotDeltaPlan)
    → Extends ds (push_delta id k p) q
    → Extends (record { entity_id = id; kind = k } ∷ ds) p q
unfolding push_delta count_delta
Extends-push id added ds p q h = record {
  entities = h.entities ∙ append_assoc p.entities _ ds;
  added_count = omega (arith, h.added_count);
  changed_count = omega (arith, h.changed_count);
  removed_count = omega (arith, h.removed_count);
  unchanged_count = omega (arith, h.unchanged_count);
  snapshot_id = h.snapshot_id;
  baseline_id = h.baseline_id;
  baseline_matched = h.baseline_matched;
}
Extends-push id _ ds p q h = record {
  entities = h.entities ∙ append_assoc p.entities _ ds;
  added_count = omega (arith, h.added_count);
  changed_count = omega (arith, h.changed_count);
  removed_count = omega (arith, h.removed_count);
  unchanged_count = omega (arith, h.unchanged_count);
  snapshot_id = h.snapshot_id;
  baseline_id = h.baseline_id;
  baseline_matched = h.baseline_matched;
}

count_kind-append :
    (k : SnapshotEntityDeltaKind) (ds ds' : List SnapshotEntityDelta)
    → count_kind k (ds ++ ds') ≡ count_kind k ds + count_kind k ds'
count_kind-append k [] ds' = omega arith
count_kind-append k (d ∷ ds) ds' = omega (arith, count_kind-append k ds ds')

plan_current-Extends :
    (baseline es : List EntityStateDto) (p : SnapshotDeltaPlan) (ids : List NetworkEntityId)
    → Extends (current_deltas baseline es) p (plan_current baseline es p ids).0
unfolding plan_current
plan_current-Extends baseline [] p ids = Extends-nil p
plan_current-Extends baseline (e ∷ es) p ids =
    Extends-push _ _ _ p _ (plan_current-Extends baseline es _ _)

plan_current-ids :
    (id : NetworkEntityId) (baseline es : List EntityStateDto) (p : SnapshotDeltaPlan)
    (ids : List NetworkEntityId)
    → contains id (plan_current baseline es p ids).1 ≡ (contains id ids || contains id (ids_of es))
unfolding plan_current contains
plan_current-ids id baseline [] p ids = ground arith
plan_current-ids id baseline (e ∷ es) p ids =
    let k = e.replication.entity_id in
    let one = contains-add id k ids in
    plan_current-ids id baseline es _ (add k ids) ∙ rw one (ground arith)

plan_removed-Extends :
    (es : List EntityStateDto) (ids : List NetworkEntityId) (p : SnapshotDeltaPlan)
    → Extends (removed_deltas ids es) p (plan_removed es ids p)
unfolding plan_removed
plan_removed-Extends [] ids p = Extends-nil p
plan_removed-Extends (e ∷ es) ids p = elim (Bool-cases (contains e.replication.entity_id ids)) [
  | inl kept ↦ rw kept (plan_removed-Extends es ids p)
  | inr gone ↦ rw gone (Extends-push _ _ _ p _ (plan_removed-Extends es ids _))
]

removed_deltas-cong :
    (s t : List NetworkEntityId) (es : List EntityStateDto)
    → ((id : NetworkEntityId) → contains id s ≡ contains id t)
    → removed_deltas s es ≡ removed_deltas t es
removed_deltas-cong s t [] h = refl
removed_deltas-cong s t (e ∷ es) h =
    rw (h e.replication.entity_id, removed_deltas-cong s t es h) refl

Extends-trans :
    (ds ds' : List SnapshotEntityDelta) (p q r : SnapshotDeltaPlan)
    → Extends ds p q
    → Extends ds' q r
    → Extends (ds ++ ds') p r
Extends-trans ds ds' p q r h k = record {
  entities = k.entities ∙ rw h.entities (append_assoc p.entities ds ds');
  added_count = omega (arith, h.added_count, k.added_count, count_kind-append added ds ds');
  changed_count = omega (arith, h.changed_count, k.changed_count, count_kind-append changed ds ds');
  removed_count = omega (arith, h.removed_count, k.removed_count, count_kind-append removed ds ds');
  unchanged_count =
      omega (arith, h.unchanged_count, k.unchanged_count, count_kind-append unchanged ds ds');
  snapshot_id = k.snapshot_id ∙ h.snapshot_id;
  baseline_id = k.baseline_id ∙ h.baseline_id;
  baseline_matched = k.baseline_matched ∙ h.baseline_matched;
}

-- The entries that a plan is to have.
abbrev pub deltas : SnapshotDto → SnapshotDto → List SnapshotEntityDelta
deltas current baseline =
    current_deltas baseline.entities current.entities
    ++ removed_deltas (ids_of current.entities) baseline.entities

-- The plan lists each entity of the current snapshot as added, changed or unchanged, by what the
-- baseline first has under its id, then as removed each entity of the baseline whose id the current
-- snapshot has not; and each of the four counters counts the entries of its kind.
pub plan_snapshot_delta-deltas :
    (current baseline : SnapshotDto)
    → (let plan = plan_snapshot_delta current baseline in
        (plan.entities ≡ deltas current baseline)
        × (plan.added_count ≡ count_kind added plan.entities)
        × (plan.changed_count ≡ count_kind changed plan.entities)
        × (plan.removed_count ≡ count_kind removed plan.entities)
        × (plan.unchanged_count ≡ count_kind unchanged plan.entities))
unfolding plan_snapshot_delta contains
plan_snapshot_delta-deltas current baseline =
    let first = plan_current-Extends baseline.entities current.entities _ [] in
    let (planned, ids) =
      plan_current baseline.entities current.entities (start_plan current baseline) [] in
    let whole =
      Extends-trans _ _ _ _ _ first (plan_removed-Extends baseline.entities ids planned) in
    let seen : (id : NetworkEntityId) → contains id ids ≡ contains id (ids_of current.entities) =
      λ id. plan_current-ids id baseline.entities current.entities _ [] in
    let same = removed_deltas-cong ids (ids_of current.entities) baseline.entities seen in
    (
      whole.entities ∙ ap (λ ds. current_deltas baseline.entities current.entities ++ ds) same,
      omega (arith, whole.added_count, ap (count_kind added) whole.entities),
      omega (arith, whole.changed_count, ap (count_kind changed) whole.entities),
      omega (arith, whole.removed_count, ap (count_kind removed) whole.entities),
      omega (arith, whole.unchanged_count, ap (count_kind unchanged) whole.entities),
    )
