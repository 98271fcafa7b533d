-- ===== src/Server/ServerClientReplicationState/Resends.antt =====
-- What ReliableEventsDueForResend returns.
use mathlib.Core.List.{Memᴰ}
use mathlib.Core.Option.{some-injective}
use native.Mathlib.Nat.{mul-le-mul_left}
use brawololo.Prelude.{
  ℕ, ◌+◌, ◌*◌, ◌<◌, ◌≤◌, ◌^◌, ◌≡◌, refl, sym, ◌∙◌, subst, ◌↔◌, ◌⊎◌, inl, inr, true, not, zero, ltb,
  ◌&&◌, ◌%◌, suc, false, none, some, List, [], ◌∷◌, length, leb, ◌==◌, if◌then◌else◌, arith, ==_iff,
  Bool-cases, ap,
}
use brawololo.Prelude.Maps.{lookup, assign, erase, lookup-assign_other, lookup-erase_other}
use brawololo.Game.Types.{ClientId, NetworkEventId, TimestampMs}
use brawololo.Game.NetworkEvents.{NetworkEventDto}
use brawololo.Server.ServerClientReplicationState.{
  PendingReliableEvent, Pending, ServerClientReplicationState, create_state, acknowledge_snapshot,
  mark_snapshot_sent, track_reliable_event, acknowledge_reliable_event, backoff_shift, is_due,
  due_events, reliable_events_due_for_resend,
}
use brawololo.Server.ServerClientReplicationState.Events.{
  Call, tracks, acks_event, acks_snapshot, marks_sent, step, run, summary, sends_since_ack,
  lookup-run,
}

-- Each id has one entry.
abbrev IsDistinct : Pending → Type 0
IsDistinct [] = Unit {0}
IsDistinct (entry ∷ rest) = (lookup entry.0 rest ≡ none) × IsDistinct rest

assign-IsDistinct :
    (k : NetworkEventId) (p : PendingReliableEvent) (m : Pending)
    → IsDistinct m
    → IsDistinct (assign k p m)
unfolding assign lookup
assign-IsDistinct k p [] h = (refl, tt)
assign-IsDistinct k p (entry ∷ m) h = elim (Bool-cases (entry.0 == k)) [
  | inl same ↦ rw same (subst (λ x. lookup x m ≡ none) ((==_iff entry.0 k).0 same) h.0, h.1)
  | inr other ↦
      rw other (lookup-assign_other k entry.0 p m (ground arith) ∙ h.0, assign-IsDistinct k p m h.1)
]

erase-IsDistinct : (k : NetworkEventId) (m : Pending) → IsDistinct m → IsDistinct (erase k m)
unfolding erase lookup
erase-IsDistinct k [] h = tt
erase-IsDistinct k (entry ∷ m) h = elim (Bool-cases (entry.0 == k)) [
  | inl same ↦ rw same (erase-IsDistinct k m h.1)
  | inr other ↦
      rw other (lookup-erase_other k entry.0 m (ground arith) ∙ h.0, erase-IsDistinct k m h.1)
]

step-IsDistinct :
    (c : Call) (s : ServerClientReplicationState)
    → IsDistinct s.pending_reliable_events
    → IsDistinct (step c s).pending_reliable_events
unfolding track_reliable_event acknowledge_reliable_event acknowledge_snapshot mark_snapshot_sent
step-IsDistinct (tracks event now) s h = assign-IsDistinct event.event_id _ _ h
step-IsDistinct (acks_event id) s h = erase-IsDistinct id _ h
step-IsDistinct (acks_snapshot id) s h = ground arith
step-IsDistinct (marks_sent now interval) s h = h

run-IsDistinct :
    (cs : List Call) (s : ServerClientReplicationState)
    → IsDistinct s.pending_reliable_events
    → IsDistinct (run cs s).pending_reliable_events
run-IsDistinct [] s h = h
run-IsDistinct (c ∷ cs) s h = run-IsDistinct cs (step c s) (step-IsDistinct c s h)

lookup-head :
    (entry : NetworkEventId × PendingReliableEvent) (m : Pending)
    → lookup entry.0 (entry ∷ m) ≡ some entry.1
unfolding lookup
lookup-head entry m = rw ((==_iff entry.0 entry.0).1 refl) refl

Memᴰ-cases :
    {e x : NetworkEventDto} {xs : List NetworkEventDto} → Memᴰ e (x ∷ xs) → (e ≡ x) ⊎ Memᴰ e xs
Memᴰ-cases (Memᴰ.head p) = inl p
Memᴰ-cases (Memᴰ.tail m) = inr m

module _ (now base_interval : TimestampMs) (max_send_count : ℕ) (e : NetworkEventDto) where
  -- Some id has a pending event, which is `e` and due.
  abbrev Offers : Pending → Type 0
  Offers m =
      (id : NetworkEventId) × (p : PendingReliableEvent) × (lookup id m ≡ some p)
      × (is_due now base_interval max_send_count p ≡ true)
      × (p.event ≡ e)

  Offers-tail :
      (entry : NetworkEventId × PendingReliableEvent) (m : Pending)
      → lookup entry.0 m ≡ none
      → Offers m
      → Offers (entry ∷ m)
  unfolding lookup
  Offers-tail entry m new (id, p, found, due, event) = elim (Bool-cases (entry.0 == id)) [
    | inl same ↦
        absurd (let gone = subst (λ x. lookup x m ≡ none) ((==_iff entry.0 id).0 same) new in cc)
    | inr other ↦ (id, p, rw other found, due, event)
  ]

  due_events-Offers :
      (m : Pending)
      → IsDistinct m
      → Memᴰ e (due_events now base_interval max_send_count m)
      → Offers m
  due_events-Offers [] d h = elim h [ ]
  due_events-Offers (entry ∷ m) d h =
      let ih = due_events-Offers m d.1 in
      elim (Bool-cases (is_due now base_interval max_send_count entry.1)) [
        | inl due ↦ elim (Memᴰ-cases (rw due at h)) [
          | inl same ↦ (entry.0, entry.1, lookup-head entry m, due, sym same)
          | inr later ↦ Offers-tail entry m d.0 (ih later)
        ]
        | inr early ↦ Offers-tail entry m d.0 (ih (rw early at h))
      ]

  due_events-later :
      (entry : NetworkEventId × PendingReliableEvent) (m : Pending)
      → Memᴰ e (due_events now base_interval max_send_count m)
      → Memᴰ e (due_events now base_interval max_send_count (entry ∷ m))
  due_events-later entry m h = elim (Bool-cases (is_due now base_interval max_send_count entry.1)) [
    | inl due ↦ rw due (Memᴰ.tail h)
    | inr early ↦ rw early h
  ]

  due_events-complete :
      (m : Pending) → Offers m → Memᴰ e (due_events now base_interval max_send_count m)
  unfolding lookup
  due_events-complete [] (id, p, found, due, event) = ground arith
  due_events-complete (entry ∷ m) (id, p, found, due, event) = elim (Bool-cases (entry.0 == id)) [
    | inl same ↦
        let at_p : entry.1 ≡ p = some-injective _ _ (rw same at found) in
        let entry_due : is_due now base_interval max_send_count entry.1 ≡ true =
          subst (λ x. is_due now base_interval max_send_count x ≡ true) (sym at_p) due in
        rw entry_due (Memᴰ.head (sym event ∙ ap (λ (x : PendingReliableEvent). x.event) (sym at_p)))
    | inr other ↦
        due_events-later entry m (due_events-complete m (id, p, rw other at found, due, event))
  ]

-- After any sequence of fewer than 2^32 calls on a new state, the events that
-- ReliableEventsDueForResend returns are those that were sent, not acknowledged since and are due: each
-- as it was first sent after the last acknowledgement of its id.
pub reliable_events_due_for_resend_iff :
    (cs : List Call) (client : ClientId) (now base_interval : TimestampMs) (max_send_count : ℕ)
    (e : NetworkEventDto)
    → length cs < 2 ^ 32
    → Memᴰ e (
        reliable_events_due_for_resend now base_interval max_send_count
          (run cs (create_state client)))
      ↔ ((id : NetworkEventId) × (p : PendingReliableEvent) × (summary (sends_since_ack id [] cs)
            ≡ some p)
          × (is_due now base_interval max_send_count p ≡ true)
          × (p.event ≡ e))
unfolding reliable_events_due_for_resend
reliable_events_due_for_resend_iff cs client now base_interval max_send_count e few =
    let s = run cs (create_state client) in
    (
      λ h.
          let (id, p, found, due, event) =
            due_events-Offers now base_interval max_send_count e s.pending_reliable_events
              (run-IsDistinct cs (create_state client) tt) h in
          (id, p, sym (lookup-run id client cs few) ∙ found, due, event),
      λ (id, p, found, due, event).
          due_events-complete now base_interval max_send_count e s.pending_reliable_events
            (id, p, lookup-run id client cs few ∙ found, due, event),
    )

pow_small : (k : ℕ) → k ≤ 4 → 2 ^ k ≤ 16
pow_small zero h = omega arith
pow_small (suc zero) h = omega arith
pow_small (suc (suc zero)) h = omega arith
pow_small (suc (suc (suc zero))) h = omega arith
pow_small (suc (suc (suc (suc zero)))) h = omega arith
pow_small (suc (suc (suc (suc (suc k))))) h = omega arith

backoff_shift_le : (n : ℕ) → backoff_shift n ≤ 4
backoff_shift_le n = ground arith

-- The time to wait after so many sends: the base after the first, doubled by each later one, and at most 16
-- times the base.
abbrev pub resend_delay : ℕ → ℕ → ℕ
resend_delay base zero = base
resend_delay base (suc zero) = base
resend_delay base (suc (suc sends)) =
    let before = resend_delay base (suc sends) in
    if ltb (base * 16) (before * 2) then base * 16 else before * 2

resend_delay-late : (base n : ℕ) → resend_delay base (5 + n) ≡ base * 16
resend_delay-late base zero = ground arith
resend_delay-late base (suc n) = let ih = resend_delay-late base n in ground arith

backoff_shift-resend_delay : (base n : ℕ) → base * 2 ^ backoff_shift n ≡ resend_delay base n
backoff_shift-resend_delay base zero = omega arith
backoff_shift-resend_delay base (suc zero) = omega arith
backoff_shift-resend_delay base (suc (suc zero)) = ground arith
backoff_shift-resend_delay base (suc (suc (suc zero))) = ground arith
backoff_shift-resend_delay base (suc (suc (suc (suc zero)))) = ground arith
backoff_shift-resend_delay base (suc (suc (suc (suc (suc n))))) =
    let late = resend_delay-late base n in ground arith

has_passed_iff :
    (last delay now max count : ℕ)
    → last + delay < 2 ^ 64
    → ((if not (max == 0) && leb max count
          then false
          else leb ((last + delay % 2 ^ 64) % 2 ^ 64) now)
        ≡ true)
      ↔ (((max ≡ 0) ⊎ (count < max)) × (last + delay ≤ now))
has_passed_iff last delay now max count fits =
    let wrapped : (last + delay % 2 ^ 64) % 2 ^ 64 ≡ last + delay = omega arith in
    rw wrapped (λ h. ground arith, λ h. ground arith)

-- An event is due if it has not used up its sends, 0 meaning no limit, and the time to wait has passed
-- since the last send: the base interval after the first send, doubled by each later one up to 16
-- times the base; as long as the last send and 16 times the base do not add up to 2^64.
pub is_due_iff :
    (now base_interval : TimestampMs) (max_send_count : ℕ) (p : PendingReliableEvent)
    → p.last_sent_at_ms + base_interval * 16 < 2 ^ 64
    → (is_due now base_interval max_send_count p ≡ true) ↔ (
        ((max_send_count ≡ 0) ⊎ (p.send_count < max_send_count))
        × (p.last_sent_at_ms + resend_delay base_interval p.send_count ≤ now))
unfolding is_due
is_due_iff now base_interval max_send_count p fits =
    let small = mul-le-mul_left base_interval (pow_small _ (backoff_shift_le p.send_count)) in
    rw (sym (backoff_shift-resend_delay base_interval p.send_count)) (
      has_passed_iff p.last_sent_at_ms (base_interval * 2 ^ backoff_shift p.send_count) now
        max_send_count p.send_count (omega arith))
