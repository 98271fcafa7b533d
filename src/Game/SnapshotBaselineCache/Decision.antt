-- ===== src/Game/SnapshotBaselineCache/Decision.antt =====
-- What Find and Decide say of the baselines that a SnapshotBaselineCache holds.
use mathlib.Core.List.{Memᴰ}
use brawololo.Prelude.{
  if-eq-some, if-ne-none, ◌≡◌, ◌≢◌, ◌↔◌, ap, ◌∙◌, sym, none, some, List, [], ◌∷◌, length, drop, ◌-◌,
  arith, ◌==◌, Option-cases, inl, inr, ==_iff, subst,
}
use brawololo.Game.Types.{ClientId, SnapshotId}
use brawololo.Game.Replication.{SnapshotDto, delta_eligible}
use brawololo.Game.SnapshotBaselineCache.{
  SnapshotBaselineCacheConfig, SnapshotBaselineCache, create_cache, baselines_of, find_if_id, find,
  decide,
}
use brawololo.Game.SnapshotBaselineCache.History.{Call, run, stored, baselines_of-run}

-- A snapshot of the list that has the id.
abbrev pub Offers : SnapshotId → List SnapshotDto → Type 0
Offers id baselines = (s : SnapshotDto) × Memᴰ s baselines × (s.snapshot_id ≡ id)

find_if_id-Offers :
    (id : SnapshotId) (xs : List SnapshotDto) (s : SnapshotDto)
    → find_if_id id xs ≡ some s
    → Memᴰ s xs × (s.snapshot_id ≡ id)
unfolding find_if_id
find_if_id-Offers id [] s h = cc
find_if_id-Offers id (x ∷ xs) s h =
    elim (if-eq-some (x.snapshot_id == id) x (find_if_id id xs) s h) [
      | inl found ↦ (
        Memᴰ.head (sym found.1),
        sym (ap (λ (s : SnapshotDto). s.snapshot_id) found.1) ∙ (==_iff x.snapshot_id id).0 found.0,
      )
      | inr later ↦ let (m, e) = find_if_id-Offers id xs s later.1 in (Memᴰ.tail m, e)
    ]

Offers-find_if_id :
    (id : SnapshotId) (xs : List SnapshotDto) (s : SnapshotDto)
    → Memᴰ s xs
    → s.snapshot_id ≡ id
    → find_if_id id xs ≢ none
unfolding find_if_id
Offers-find_if_id id [] s m h = elim m [ ]
Offers-find_if_id id (x ∷ xs) s (Memᴰ.head e) h =
    let same = sym (ap (λ (s : SnapshotDto). s.snapshot_id) e) ∙ h in
    if-ne-none (x.snapshot_id == id) x (find_if_id id xs) (inl ((==_iff x.snapshot_id id).1 same))
Offers-find_if_id id (x ∷ xs) s (Memᴰ.tail m) h =
    if-ne-none (x.snapshot_id == id) x (find_if_id id xs) (inr (Offers-find_if_id id xs s m h))

-- Decide on any cache, by what is held.
decide_lem :
    (c : ClientId) (id : SnapshotId) (cache : SnapshotBaselineCache)
    → ((decide c id cache).delivery_kind ≡ delta_eligible)
      ↔ ((id ≢ 0) × Offers id (baselines_of c cache))
unfolding decide find
decide_lem c id cache = (forth, back)
  where
    forth :
        (decide c id cache).delivery_kind ≡ delta_eligible
        → (id ≢ 0) × Offers id (baselines_of c cache)
    forth h = elim (Option-cases (find_if_id id (baselines_of c cache))) [
      | inl missing ↦ absurd (ground arith)
      | inr found ↦
          let (m, e) = find_if_id-Offers id (baselines_of c cache) found.0 found.1 in
          (ground arith, (found.0, m, e))
    ]

    back :
        (id ≢ 0) × Offers id (baselines_of c cache)
        → (decide c id cache).delivery_kind ≡ delta_eligible
    back h = elim (Option-cases (find_if_id id (baselines_of c cache))) [
      | inl missing ↦ absurd (Offers-find_if_id id (baselines_of c cache) h.1.0 h.1.1 h.1.2 missing)
      | inr found ↦ ground (arith, h.0)
    ]

-- After any calls of Store and Clear, a delta is planned against a baseline exactly when its id is not
-- zero and one of the snapshots that are still kept for the client has it.
pub decide-run :
    (c : ClientId) (id : SnapshotId) (calls : List Call) (config : SnapshotBaselineCacheConfig)
    → ((decide c id (run calls (create_cache config))).delivery_kind ≡ delta_eligible) ↔ (
        (id ≢ 0)
        × Offers id (
            drop
              (length (stored c calls []) - config.max_baselines_per_client)
              (stored c calls [])))
decide-run c id calls config =
    subst
      (λ kept.
        ((decide c id (run calls (create_cache config))).delivery_kind ≡ delta_eligible)
        ↔ ((id ≢ 0) × Offers id kept))
      (baselines_of-run c calls config) (decide_lem c id (run calls (create_cache config)))
