-- ===== src/Game/ReplicationPlanner/Ranking.antt =====
-- What ReplicationPlanner::Plan keeps, and what its statistics count.
use mathlib.Core.List.{Perm}
use mathlib.Core.Bool.{true≢false}
use brawololo.Prelude.{
  ◌&&◌, ℕ, ◌+◌, ◌-◌, ◌≤◌, ◌<◌, ◌≡◌, refl, Bool, true, false, List, [], ◌∷◌, ◌++◌, length, drop, All,
  ltb, take-append-drop, subst, sym, ◌∙◌, if◌then◌else◌, arith, Bool-cases, inl, inr,
  length-take_le, append-nil, ◌⊎◌, ◌↔◌, ==_iff, &&_true, &&_intro, not, ◌==◌, All-imp,
}
use brawololo.Prelude.Sort.{
  stable_sort, stable_sort-Perm, stable_sort-Ordered, length-stable_sort, Ordered,
}
use brawololo.Game.Types.{ClientId}
use brawololo.Game.Replication.{SnapshotPriority, low, medium, high, EntityStateDto, SnapshotDto}
use brawololo.Game.ReplicationPlanner.{
  ReplicationPlannerConfig, ReplicationPlannerStats, Key, key_of, outranks, comes_first, truncate,
  count_priority, count_priorities, priority_rank, plan, order_entities,
}

outranks-asym : (a b : Key) → outranks a b ≡ true → outranks b a ≡ false
outranks-asym (ao, ar, ai) (bo, br, bi) h = ground arith

outranks_trans : (a b c : Key) → outranks a b ≡ false → outranks b c ≡ false → outranks a c ≡ false
outranks_trans (ao, ar, ai) (bo, br, bi) (co, cr, ci) h k = ground arith

-- The order of the priorities.
pub data IsHigher : SnapshotPriority → SnapshotPriority → Type 0 where
  high_over_medium : IsHigher high medium
  high_over_low : IsHigher high low
  medium_over_low : IsHigher medium low

module _ (config : ReplicationPlannerConfig) (observer : ClientId) where
  key : EntityStateDto → Key
  key = key_of config observer

  -- Owned by the observer, where the planner is to keep what it owns.
  abbrev pub IsPreferred : EntityStateDto → Type 0
  IsPreferred e =
      (config.keep_owner_entity_first ≡ true) × (e.replication.owner_client_id ≡ observer)

  -- Higher in priority, or of the same and with an id that is not larger.
  abbrev pub IsUrgent : EntityStateDto → EntityStateDto → Type 0
  IsUrgent a b =
      IsHigher a.replication.priority b.replication.priority
      ⊎ ((a.replication.priority ≡ b.replication.priority)
          × (a.replication.entity_id ≤ b.replication.entity_id))

  -- `a` may stand in front of `b`: it is preferred and `b` is not, or it is as urgent and preferred if `b` is.
  abbrev pub Precedes : EntityStateDto → EntityStateDto → Type 0
  Precedes a b =
      (IsPreferred a × ¬ (IsPreferred b)) ⊎ ((IsPreferred a ↔ IsPreferred b) × IsUrgent a b)

  -- Each may stand in front of all that follow.
  abbrev pub AreRanked : List EntityStateDto → Type 0
  AreRanked [] = Unit {0}
  AreRanked (e ∷ es) = All (Precedes e) es × AreRanked es

  urgent :
      (p q : SnapshotPriority) (i j : ℕ)
      → (if not (priority_rank q == priority_rank p)
          then ltb (priority_rank p) (priority_rank q)
          else ltb j i)
        ≡ false
      → IsHigher p q ⊎ ((p ≡ q) × (i ≤ j))
  urgent high high i j h = inr (refl, ground arith)
  urgent high medium i j h = inl high_over_medium
  urgent high low i j h = inl high_over_low
  urgent medium high i j h = absurd (ground arith)
  urgent medium medium i j h = inr (refl, ground arith)
  urgent medium low i j h = inl medium_over_low
  urgent low high i j h = absurd (ground arith)
  urgent low medium i j h = absurd (ground arith)
  urgent low low i j h = inr (refl, ground arith)

  IsPreferred-iff : (e : EntityStateDto) → ((key e).0 ≡ true) ↔ IsPreferred e
  unfolding key
  IsPreferred-iff e = (
    λ h. let (keep, owned) = &&_true _ _ h in (keep, (==_iff _ _).0 owned),
    λ (keep, owned). &&_intro _ _ keep ((==_iff _ _).1 owned),
  )

  comes_first-Precedes :
      (a b : EntityStateDto) → comes_first config observer b a ≡ false → Precedes a b
  unfolding comes_first key
  comes_first-Precedes a b h =
      let on_a = IsPreferred-iff a in
      let on_b = IsPreferred-iff b in
      elim (Bool-cases (key a).0) [
        | inl pa ↦ elim (Bool-cases (key b).0) [
          | inl pb ↦ inr ((λ _. on_b.0 pb, λ _. on_a.0 pa), urgent _ _ _ _ (rw (pa, pb) at h))
          | inr nb ↦ inl (on_a.0 pa, λ p. true≢false (sym (on_b.1 p) ∙ nb))
        ]
        | inr na ↦ elim (Bool-cases (key b).0) [
          | inl pb ↦ absurd (true≢false (rw (na, pb) at h))
          | inr nb ↦ inr (
            (
              λ p. absurd (true≢false (sym (on_a.1 p) ∙ na)),
              λ p. absurd (true≢false (sym (on_b.1 p) ∙ nb)),
            ),
            urgent _ _ _ _ (rw (na, nb) at h),
          )
        ]
      ]

  Ordered-AreRanked :
      (es : List EntityStateDto) → Ordered (comes_first config observer) es → AreRanked es
  Ordered-AreRanked [] h = tt
  Ordered-AreRanked (e ∷ es) h =
      (All-imp _ _ (λ d before. comes_first-Precedes e d before) es h.0, Ordered-AreRanked es h.1)

  order_entities-Ordered :
      (entities : List EntityStateDto)
      → Ordered (comes_first config observer) (stable_sort (comes_first config observer) entities)
  unfolding comes_first key
  order_entities-Ordered entities =
      stable_sort-Ordered (comes_first config observer) (λ a b h. outranks-asym (key a) (key b) h)
        (λ a b c h k. outranks_trans (key a) (key b) (key c) h k) entities

-- A truncated list, and what it has lost.
truncate-split :
    (max : ℕ) (xs : List EntityStateDto)
    → (dropped : List EntityStateDto) × (xs ≡ truncate max xs ++ dropped)
truncate-split max xs = elim (Bool-cases (ltb 0 max && ltb max (length xs))) [
  | inl cut ↦ (drop max xs, rw cut (sym (take-append-drop max xs)))
  | inr whole ↦ ([], rw whole (sym (append-nil xs)))
]

-- With `prioritizeHigherFirst` the planner splits the entities of the snapshot into those that it keeps and
-- those that it drops, none lost or repeated, and each kept entity may stand in front of the kept ones
-- after it and of all dropped ones: an entity that the observer owns in front of one that it does not,
-- where `keepOwnerEntityFirst` is set, and otherwise a higher priority in front of a lower one, and of
-- one priority the smaller id.
pub plan-AreRanked :
    (config : ReplicationPlannerConfig) (snapshot : SnapshotDto) (observer : ClientId)
    → config.prioritize_higher_first ≡ true
    → (dropped : List EntityStateDto) × Perm snapshot.entities
        ((plan config snapshot observer).snapshot.entities ++ dropped)
      × AreRanked config observer ((plan config snapshot observer).snapshot.entities ++ dropped)
unfolding plan
plan-AreRanked config snapshot observer h =
    let less = comes_first config observer in
    let sorted = stable_sort less snapshot.entities in
    let (dropped, split) = truncate-split config.max_entities_per_snapshot sorted in
    rw h (
      dropped,
      subst (λ xs. Perm snapshot.entities xs) split (stable_sort-Perm less snapshot.entities),
      subst (AreRanked config observer) split (
          Ordered-AreRanked config observer sorted
            (order_entities-Ordered config observer snapshot.entities)),
    )

abbrev total : ReplicationPlannerStats → ℕ
total stats = stats.high_priority_count + stats.medium_priority_count + stats.low_priority_count

-- The counters that CountPriority leaves, and the sum of those that it does not.
abbrev Counts : ℕ → ReplicationPlannerStats → ReplicationPlannerStats → Type 0
Counts n before after =
    (total after ≡ total before + n)
    × (after.input_entity_count ≡ before.input_entity_count)
    × (after.output_entity_count ≡ before.output_entity_count)
    × (after.dropped_entity_count ≡ before.dropped_entity_count)

count_priority_lem :
    (p : SnapshotPriority) (stats : ReplicationPlannerStats)
    → Counts 1 stats (count_priority p stats)
unfolding count_priority
count_priority_lem high stats = (omega arith, refl, refl, refl)
count_priority_lem medium stats = (omega arith, refl, refl, refl)
count_priority_lem low stats = (omega arith, refl, refl, refl)

count_priorities_lem :
    (xs : List EntityStateDto) (stats : ReplicationPlannerStats)
    → Counts (length xs) stats (count_priorities xs stats)
unfolding count_priorities
count_priorities_lem [] stats = (omega arith, refl, refl, refl)
count_priorities_lem (x ∷ xs) stats =
    let one = count_priority_lem x.replication.priority stats in
    let rest = count_priorities_lem xs (count_priority x.replication.priority stats) in
    (omega (arith, one.0, rest.0), rest.1 ∙ one.1, rest.2 ∙ one.2, rest.3 ∙ one.3)

length-sorted_if :
    (less : EntityStateDto → EntityStateDto → Bool) (b : Bool) (xs : List EntityStateDto)
    → length (if b then stable_sort less xs else xs) ≡ length xs
length-sorted_if less true xs = length-stable_sort less xs
length-sorted_if less false xs = refl

length-truncate :
    (max : ℕ) (xs : List EntityStateDto)
    → (length (truncate max xs) ≤ length xs) × (0 < max → length (truncate max xs) ≤ max)
length-truncate max xs = elim (Bool-cases (ltb 0 max && ltb max (length xs))) [
  | inl cut ↦
      let taken = length-take_le max xs (ground arith) in rw cut (ground arith, λ pos. ground arith)
  | inr whole ↦ rw whole (omega arith, λ pos. ground arith)
]

-- The statistics of Plan add up: the entities of the snapshot are those put out and those dropped, the
-- counts by priority sum to those put out, which are as many as the snapshot has, and no more than
-- `maxEntitiesPerSnapshot` where that is not zero.
pub plan-stats :
    (config : ReplicationPlannerConfig) (snapshot : SnapshotDto) (observer : ClientId)
    → (let planned = plan config snapshot observer in
        (planned.stats.input_entity_count ≡ length snapshot.entities)
        × (planned.stats.output_entity_count ≡ length planned.snapshot.entities)
        × (planned.stats.output_entity_count + planned.stats.dropped_entity_count
            ≡ planned.stats.input_entity_count)
        × (planned.stats.high_priority_count + planned.stats.medium_priority_count
              + planned.stats.low_priority_count
            ≡ planned.stats.output_entity_count)
        × (0 < config.max_entities_per_snapshot
            → planned.stats.output_entity_count ≤ config.max_entities_per_snapshot))
unfolding plan
plan-stats config snapshot observer =
    let max = config.max_entities_per_snapshot in
    let sorted = order_entities config observer snapshot.entities in
    let kept = truncate max sorted in
    let counted = count_priorities_lem kept (record {
      input_entity_count = length snapshot.entities;
      output_entity_count = length kept;
      high_priority_count = 0;
      medium_priority_count = 0;
      low_priority_count = 0;
      dropped_entity_count = length snapshot.entities - length kept;
    }) in
    let all =
      length-sorted_if (comes_first config observer) config.prioritize_higher_first
        snapshot.entities in
    let cut = length-truncate max sorted in
    let fits : length kept ≤ length snapshot.entities = omega (arith, all, cut.0) in
    (
      counted.1,
      counted.2,
      omega (arith, counted, fits),
      omega (arith, counted),
      λ pos. omega (arith, counted, cut.1 pos),
    )
