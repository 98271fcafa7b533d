-- ===== src/Server/ServerClientReplicationState/Snapshots.antt =====
-- Which snapshot counts as acknowledged.
use mathlib.Core.List.{Memᴰ}
use brawololo.Prelude.{
  ℕ, ◌≤◌, ◌<◌, ◌≡◌, refl, sym, subst, ◌∙◌, ◌⊎◌, ◌↔◌, inl, inr, true, List, [], ◌∷◌, All, leb, arith,
  Bool-cases, if◌then◌else◌, All-imp,
}
use brawololo.Game.Types.{ClientId, SnapshotId}
use brawololo.Server.ServerClientReplicationState.{
  ServerClientReplicationState, create_state, acknowledge_snapshot, mark_snapshot_sent,
  track_reliable_event, acknowledge_reliable_event,
}
use brawololo.Server.ServerClientReplicationState.Events.{
  Call, tracks, acks_event, acks_snapshot, marks_sent, step, run,
}

-- The snapshots that the calls acknowledge.
abbrev pub acknowledged : List Call → List SnapshotId
acknowledged [] = []
acknowledged (tracks event now ∷ cs) = acknowledged cs
acknowledged (acks_event id ∷ cs) = acknowledged cs
acknowledged (acks_snapshot id ∷ cs) = id ∷ acknowledged cs
acknowledged (marks_sent now interval ∷ cs) = acknowledged cs

-- The greatest of `start` and some ids.
record IsGreatest (start : SnapshotId) (ids : List SnapshotId) (id : SnapshotId) : Type 0 where
  start_below : start ≤ id
  below : All (λ x. x ≤ id) ids
  one_of : (id ≡ start) ⊎ Memᴰ id ids

IsGreatest-cons :
    (start x next id : SnapshotId) (ids : List SnapshotId)
    → next ≡ (if leb x start then start else x)
    → IsGreatest next ids id
    → IsGreatest start (x ∷ ids) id
IsGreatest-cons start x next id ids e g = record {
  start_below = let h = g.start_below in ground arith;
  below = (let h = g.start_below in ground arith, g.below);
  one_of = elim g.one_of [
    | inl same ↦ elim (Bool-cases (leb x start)) [
      | inl old ↦ inl (same ∙ rw old at e)
      | inr new ↦ inr (Memᴰ.head (same ∙ rw new at e))
    ]
    | inr later ↦ inr (Memᴰ.tail later)
  ];
}

acknowledge_snapshot-next :
    (id : SnapshotId) (s : ServerClientReplicationState)
    → (acknowledge_snapshot id s).0.acked_snapshot
      ≡ (if leb id s.acked_snapshot then s.acked_snapshot else id)
unfolding acknowledge_snapshot
acknowledge_snapshot-next id s = ground arith

run-IsGreatest :
    (cs : List Call) (s : ServerClientReplicationState)
    → IsGreatest s.acked_snapshot (acknowledged cs) (run cs s).acked_snapshot
unfolding track_reliable_event acknowledge_reliable_event mark_snapshot_sent
run-IsGreatest [] s = record { start_below = omega arith; below = tt; one_of = inl refl }
run-IsGreatest (tracks event now ∷ cs) s = run-IsGreatest cs (step (tracks event now) s)
run-IsGreatest (acks_event id ∷ cs) s = run-IsGreatest cs (step (acks_event id) s)
run-IsGreatest (marks_sent now interval ∷ cs) s =
    run-IsGreatest cs (step (marks_sent now interval) s)
run-IsGreatest (acks_snapshot id ∷ cs) s =
    IsGreatest-cons s.acked_snapshot id _ _ (acknowledged cs) (acknowledge_snapshot-next id s)
      (run-IsGreatest cs (step (acks_snapshot id) s))

All-Mem : (P : ℕ → Type 0) {x : ℕ} {xs : List ℕ} → All P xs → Memᴰ x xs → P x
All-Mem P h (Memᴰ.head e) = subst P (sym e) h.0
All-Mem P h (Memᴰ.tail m) = All-Mem P h.1 m

-- After any calls on a new state, AcknowledgeSnapshot accepts an id exactly if it is not 0 and greater
-- than all that were acknowledged before, whether those were accepted or not.
pub acknowledge_snapshot_iff :
    (cs : List Call) (client : ClientId) (id : SnapshotId)
    → ((acknowledge_snapshot id (run cs (create_state client))).1 ≡ true)
      ↔ ((0 < id) × All (λ x. x < id) (acknowledged cs))
unfolding acknowledge_snapshot
acknowledge_snapshot_iff cs client id =
    let g = run-IsGreatest cs (create_state client) in
    let acked = (run cs (create_state client)).acked_snapshot in
    (
      λ h.
          let newer : acked < id = ground arith in
          (omega arith, All-imp _ _ (λ x below. omega arith) (acknowledged cs) g.below),
      λ h.
          let newer : acked < id = elim g.one_of [
            | inl none_acked ↦ omega (arith, h.0)
            | inr found ↦ All-Mem _ h.1 found
          ] in
          ground arith,
    )
