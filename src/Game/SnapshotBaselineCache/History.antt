-- ===== src/Game/SnapshotBaselineCache/History.antt =====
-- What a SnapshotBaselineCache holds after any sequence of Store and Clear, of any clients.
use brawololo.Prelude.{
  ℕ, ◌≤◌, ◌≡◌, ◌≢◌, refl, ap, ◌∙◌, sym, List, [], ◌∷◌, ◌++◌, length, drop, ◌-◌, zero, suc,
  length-append, arith, ltb, ◌==◌, if◌then◌else◌, lt→ltb, not_ltb→le, ltb→lt, ==_iff, Bool-cases,
  inl, inr,
}
use brawololo.Prelude.Maps.{
  lookup, lookup-assign, lookup-assign_other, lookup-erase, lookup-erase_other,
}
use brawololo.Game.Types.{ClientId}
use brawololo.Game.Replication.{SnapshotDto}
use brawololo.Game.SnapshotBaselineCache.{
  SnapshotBaselineCacheConfig, SnapshotBaselineCache, create_cache, baselines_of, erase_oldest,
  store, clear, or_empty,
}

pub data Call : Type 0 where
  store_call : ClientId → SnapshotDto → Call
  clear_call : ClientId → Call

abbrev pub step : Call → SnapshotBaselineCache → SnapshotBaselineCache
step (store_call client snapshot) cache = store client snapshot cache
step (clear_call client) cache = clear client cache

abbrev pub run : List Call → SnapshotBaselineCache → SnapshotBaselineCache
run [] cache = cache
run (call ∷ calls) cache = run calls (step call cache)

-- All that has been stored for one client since it was last cleared, oldest first.
abbrev record_call : ClientId → Call → List SnapshotDto → List SnapshotDto
record_call c (store_call client snapshot) log = if client == c then log ++ snapshot ∷ [] else log
record_call c (clear_call client) log = if client == c then [] else log

abbrev pub stored : ClientId → List Call → List SnapshotDto → List SnapshotDto
stored c [] log = log
stored c (call ∷ calls) log = stored c calls (record_call c call log)

pub length-erase_oldest : (max : ℕ) (xs : List SnapshotDto) → length (erase_oldest max xs) ≤ max
unfolding erase_oldest
length-erase_oldest max [] = omega arith
length-erase_oldest max (x ∷ xs) = let ih = length-erase_oldest max xs in ground arith

erase_oldest-nil : (max : ℕ) → erase_oldest max [] ≡ []
unfolding erase_oldest
erase_oldest-nil max = refl

erase_oldest-append :
    (max : ℕ) (xs : List SnapshotDto) (y : SnapshotDto)
    → erase_oldest max (erase_oldest max xs ++ y ∷ []) ≡ erase_oldest max (xs ++ y ∷ [])
unfolding erase_oldest
erase_oldest-append max [] y = refl
erase_oldest-append max (x ∷ xs) y =
    let ih = erase_oldest-append max xs y in
    let grown = length-append xs (y ∷ []) in
    elim (Bool-cases (ltb max (length (x ∷ xs)))) [
      | inl more ↦
          let longer = lt→ltb max (length (x ∷ (xs ++ y ∷ []))) (omega (arith, ltb→lt _ _ more)) in
          rw (more, longer) ih
      | inr few ↦ rw few refl
    ]

-- A call for one client leaves the window of another.
store-baselines :
    (c : ClientId) (s : SnapshotDto) (cache : SnapshotBaselineCache)
    → baselines_of c (store c s cache)
      ≡ erase_oldest cache.config.max_baselines_per_client (baselines_of c cache ++ s ∷ [])
unfolding store
store-baselines c s cache = ap or_empty (lookup-assign c _ cache.baselines_by_client)

store-others :
    (c d : ClientId) (s : SnapshotDto) (cache : SnapshotBaselineCache)
    → c ≢ d
    → baselines_of c (store d s cache) ≡ baselines_of c cache
unfolding store
store-others c d s cache h = ap or_empty (lookup-assign_other d c _ cache.baselines_by_client h)

clear-baselines :
    (c : ClientId) (cache : SnapshotBaselineCache) → baselines_of c (clear c cache) ≡ []
unfolding clear
clear-baselines c cache = ap or_empty (lookup-erase c cache.baselines_by_client)

clear-others :
    (c d : ClientId) (cache : SnapshotBaselineCache)
    → c ≢ d
    → baselines_of c (clear d cache) ≡ baselines_of c cache
unfolding clear
clear-others c d cache h = ap or_empty (lookup-erase_other d c cache.baselines_by_client h)

config-step :
    (call : Call) (cache : SnapshotBaselineCache) → (step call cache).config ≡ cache.config
unfolding store clear
config-step (store_call client snapshot) cache = refl
config-step (clear_call client) cache = refl

baselines_of-step :
    (c : ClientId) (call : Call) (cache : SnapshotBaselineCache) (log : List SnapshotDto)
    → baselines_of c cache ≡ erase_oldest cache.config.max_baselines_per_client log
    → baselines_of c (step call cache)
      ≡ erase_oldest cache.config.max_baselines_per_client (record_call c call log)
baselines_of-step c (store_call client s) cache log h =
    let max = cache.config.max_baselines_per_client in
    elim (Bool-cases (client == c)) [
      | inl same ↦
          rw (same, (==_iff client c).0 same)
            (store-baselines c s cache
              ∙ ap (λ xs. erase_oldest max (xs ++ s ∷ [])) h
              ∙ erase_oldest-append max log s)
      | inr other ↦ rw other (store-others c client s cache (ground arith) ∙ h)
    ]
baselines_of-step c (clear_call client) cache log h = elim (Bool-cases (client == c)) [
  | inl same ↦
      rw (same, (==_iff client c).0 same) (clear-baselines c cache ∙ sym (erase_oldest-nil _))
  | inr other ↦ rw other (clear-others c client cache (ground arith) ∙ h)
]

baselines_of-run_from :
    (c : ClientId) (calls : List Call) (cache : SnapshotBaselineCache) (log : List SnapshotDto)
    → baselines_of c cache ≡ erase_oldest cache.config.max_baselines_per_client log
    → baselines_of c (run calls cache)
      ≡ erase_oldest cache.config.max_baselines_per_client (stored c calls log)
baselines_of-run_from c [] cache log h = h
baselines_of-run_from c (call ∷ calls) cache log h =
    let kept =
      ap (λ (config : SnapshotBaselineCacheConfig). config.max_baselines_per_client)
        (config-step call cache) in
    baselines_of-run_from c calls (step call cache) (record_call c call log) (
      baselines_of-step c call cache log h
      ∙ ap (λ max. erase_oldest max (record_call c call log)) (sym kept))
    ∙ ap (λ max. erase_oldest max (stored c calls (record_call c call log))) kept

drop-nil : (n : ℕ) → drop {A = SnapshotDto} n [] ≡ []
drop-nil zero = refl
drop-nil (suc n) = refl

erase_oldest_lem :
    (max : ℕ) (xs : List SnapshotDto) → erase_oldest max xs ≡ drop (length xs - max) xs
unfolding erase_oldest
erase_oldest_lem max [] = sym (drop-nil (0 - max))
erase_oldest_lem max (x ∷ xs) = elim (Bool-cases (ltb max (length (x ∷ xs)))) [
  | inl more ↦
      let over = ltb→lt max (length (x ∷ xs)) more in
      let cut : suc (length xs) - max ≡ suc (length xs - max) = omega arith in
      rw (more, cut) (erase_oldest_lem max xs)
  | inr few ↦
      let under = not_ltb→le max (length (x ∷ xs)) few in
      let cut : suc (length xs) - max ≡ 0 = omega arith in rw (few, cut) refl
]

-- After any calls of Store and Clear for any clients, a client's baselines are the last
-- `maxBaselinesPerClient` of the snapshots stored for it since it was last cleared, oldest first.
pub baselines_of-run :
    (c : ClientId) (calls : List Call) (config : SnapshotBaselineCacheConfig)
    → baselines_of c (run calls (create_cache config))
      ≡ drop (length (stored c calls []) - config.max_baselines_per_client) (stored c calls [])
unfolding lookup
baselines_of-run c calls config =
    baselines_of-run_from c calls (create_cache config) []
      (sym (erase_oldest-nil config.max_baselines_per_client))
    ∙ erase_oldest_lem config.max_baselines_per_client (stored c calls [])
