-- ===== src/Game/LagCompensation/Latest.antt =====
-- Which snapshot a lag compensation query finds, and when.
use mathlib.Core.Option.{some-injective, none-ne-some}
use brawololo.Prelude.{
  ◌+◌, ◌-◌, ◌%◌, ◌^◌, ◌≤◌, ◌<◌, ◌≡◌, ◌↔◌, refl, ap, sym, ◌∙◌, Bool, true, false, ◌&&◌, Option, none,
  some, List, [], ◌∷◌, ◌++◌, ltb, leb, if◌then◌else◌, if-elim, All, arith, ◌⊎◌, inl, inr,
  Bool-cases, leb→le, subst,
}
use brawololo.Game.Types.{TimestampMs}
use brawololo.Game.Replication.{SnapshotDto}
use brawololo.Game.LagCompensation.{
  LagCompensationHistory, closest_from, closest_at_or_before, LagCompensationConfig,
  LagCompensationQuery, LagCompensationResult, map_client_time_to_server_time, result_of, query_at,
  query,
}

abbrev pub AreLater : TimestampMs → List SnapshotDto → Type 0
AreLater time = All (λ (x : SnapshotDto). time < x.server_time_ms)

-- The last of the list that is not later than the time.
abbrev pub IsLatest : TimestampMs → List SnapshotDto → SnapshotDto → Type 0
IsLatest time xs s =
    (before : List SnapshotDto) × (after : List SnapshotDto) × (xs ≡ before ++ s ∷ after)
    × (s.server_time_ms ≤ time)
    × AreLater time after

closest_from-found :
    (time : TimestampMs) (xs : List SnapshotDto) (result : Option SnapshotDto) (s : SnapshotDto)
    → closest_from time result xs ≡ some s
    → ((result ≡ some s) × AreLater time xs) ⊎ IsLatest time xs s
unfolding closest_from
closest_from-found time [] result s h = inl (h, tt)
closest_from-found time (x ∷ xs) result s h = elim (closest_from-found time xs _ s h) [
  | inl kept ↦ elim (Bool-cases (leb x.server_time_ms time)) [
    | inl at_most ↦
        let same : x ≡ s =
          some-injective _ _
            (subst (λ b. (if b then some x else result) ≡ some s) at_most kept.0) in
        inr (
          [],
          xs,
          ap (λ y. y ∷ xs) same,
          rw (← same) (leb→le x.server_time_ms time at_most),
          kept.1,
        )
    | inr later ↦
        inl (
          subst (λ b. (if b then some x else result) ≡ some s) later kept.0,
          (ground arith, kept.1),
        )
  ]
  | inr found ↦ inr (x ∷ found.0, found.1, ap (λ ys. x ∷ ys) found.2, found.3, found.4)
]

closest_from-later :
    (time : TimestampMs) (xs : List SnapshotDto) (result : Option SnapshotDto)
    → AreLater time xs
    → closest_from time result xs ≡ result
unfolding closest_from
closest_from-later time [] result h = refl
closest_from-later time (x ∷ xs) result h =
    let skips : leb x.server_time_ms time ≡ false = ground arith in
    rw skips (closest_from-later time xs result h.1)

closest_from-IsLatest :
    (time : TimestampMs) (before : List SnapshotDto) (result : Option SnapshotDto)
    (after : List SnapshotDto) (s : SnapshotDto)
    → s.server_time_ms ≤ time
    → AreLater time after
    → closest_from time result (before ++ s ∷ after) ≡ some s
unfolding closest_from
closest_from-IsLatest time [] result after s h k =
    let counts : leb s.server_time_ms time ≡ true = ground arith in
    rw (closest_from, counts) (closest_from-later time after (some s) k)
closest_from-IsLatest time (x ∷ before) result after s h k =
    closest_from-IsLatest time before _ after s h k

result_of-historical :
    (target : TimestampMs) (o : Option SnapshotDto) → (result_of target o).historical_snapshot ≡ o
result_of-historical target none = refl
result_of-historical target (some s) = refl

query_at-IsLatest :
    (config : LagCompensationConfig) (history : LagCompensationHistory) (now target : TimestampMs)
    (s : SnapshotDto)
    → ((query_at config history now target).historical_snapshot ≡ some s) ↔ (
        (target ≤ (now + config.future_tolerance_ms) % 2 ^ 64)
        × (now ≤ target + config.max_rewind_ms)
        × IsLatest target history.snapshots s)
unfolding query_at closest_at_or_before
query_at-IsLatest config history now target s = (forth, back)
  where
    is_future : Bool
    is_future = ltb ((now + config.future_tolerance_ms) % 2 ^ 64) target

    is_old : Bool
    is_old = ltb target now && ltb config.max_rewind_ms (now - target)

    Finds : LagCompensationResult → Type 0
    Finds r = r.historical_snapshot ≡ some s

    Found : Type 0
    Found =
        (target ≤ (now + config.future_tolerance_ms) % 2 ^ 64)
        × (now ≤ target + config.max_rewind_ms)
        × IsLatest target history.snapshots s

    latest :
        closest_from target none history.snapshots ≡ some s → IsLatest target history.snapshots s
    latest e = elim (closest_from-found target history.snapshots none s e) [
      | inl kept ↦ absurd (none-ne-some s kept.0)
      | inr found ↦ found
    ]

    forth : Finds (query_at config history now target) → Found
    forth =
        if-elim (λ r. Finds r → Found) is_future _ _ (λ n e. absurd (none-ne-some s e))
          (λ n.
            if-elim (λ r. Finds r → Found) is_old _ _ (λ m e. absurd (none-ne-some s e))
              (λ m e.
                (ground arith, ground arith, latest (sym (result_of-historical target _) ∙ e))))

    back : Found → Finds (query_at config history now target)
    back h =
        if-elim Finds is_future _ _ (λ n. absurd (ground arith))
          (λ n.
            if-elim Finds is_old _ _ (λ m. absurd (ground arith))
              (λ m.
                result_of-historical target _
                ∙ rw h.2.2 (closest_from-IsLatest target h.2.0 none h.2.1 s h.2.3 h.2.4)))

-- A query gives a snapshot exactly when the time that it maps to is neither further in the future than the
-- tolerance nor further in the past than the rewind, and the snapshot is the last one of the history that
-- is not later than that time.
pub query-IsLatest :
    (config : LagCompensationConfig) (history : LagCompensationHistory) (q : LagCompensationQuery)
    (s : SnapshotDto)
    → ((query config history q).historical_snapshot ≡ some s) ↔ (
        (map_client_time_to_server_time q ≤ (q.server_now_ms + config.future_tolerance_ms) % 2 ^ 64)
        × (q.server_now_ms ≤ map_client_time_to_server_time q + config.max_rewind_ms)
        × IsLatest (map_client_time_to_server_time q) history.snapshots s)
unfolding query
query-IsLatest config history q s =
    query_at-IsLatest config history q.server_now_ms (map_client_time_to_server_time q) s
