-- ===== src/Net/LoopbackTransport/Delivery.antt =====
-- What a LoopbackTransport delivers, and in which order.
use brawololo.Prelude.{
  ◌≡◌, refl, ap, ◌∙◌, Bool, true, false, not, some, List, [], ◌∷◌, ◌++◌, length, arith,
  if◌then◌else◌, subst, sym, append_assoc, append-nil,
}
use brawololo.Game.NetworkProtocol.{NetworkEnvelope, validate_envelope}
use brawololo.Net.Transport.{TransportState}
use brawololo.Net.KcpRtcTransport.{is_accepted}
use brawololo.Net.LoopbackTransport.Others.{other, flush_rounds-Leaves}
use brawololo.Net.LoopbackTransport.{
  Endpoint, a, b, SharedState, LoopbackTransport, World, push_outgoing, release_one_delayed,
  flush_rounds, flush_delayed, dispatch_outgoing, send, poll, outgoing_queue,
  delayed_outgoing_queue, release_front, set_outgoing, set_delayed,
}

-- The two queues of a world's own direction.
record Queues (w : World) (out late : List NetworkEnvelope) : Type 0 where
  outgoing : outgoing_queue w.0.endpoint w.1 ≡ out
  delayed : delayed_outgoing_queue w.0.endpoint w.1 ≡ late
  has : w.0.has_state ≡ true

if_not-true : {A : Type 0} (c : Bool) (x y : A) → c ≡ true → (if not c then x else y) ≡ y
if_not-true true x y h = refl
if_not-true false x y h = cc

release_one_delayed-front :
    (t : LoopbackTransport) (s : SharedState) (d : NetworkEnvelope) (rest : List NetworkEnvelope)
    → t.has_state ≡ true
    → delayed_outgoing_queue t.endpoint s ≡ d ∷ rest
    → release_one_delayed t s ≡ push_outgoing d t (set_delayed t.endpoint rest s)
unfolding release_one_delayed
release_one_delayed-front t s d rest has front =
    if_not-true t.has_state _ _ has ∙ ap (λ q. release_front q t s) front

push-Queues :
    (p : Endpoint) (q rest : List NetworkEnvelope) (s : SharedState)
    → (outgoing_queue p (set_outgoing p q (set_delayed p rest s)) ≡ q)
      × (delayed_outgoing_queue p (set_outgoing p q (set_delayed p rest s)) ≡ rest)
      × (outgoing_queue p (set_delayed p rest s) ≡ outgoing_queue p s)
push-Queues a q rest s = (refl, refl, refl)
push-Queues b q rest s = (refl, refl, refl)

release-Queues :
    (t : LoopbackTransport) (s : SharedState) (q : List NetworkEnvelope) (d : NetworkEnvelope)
    (rest : List NetworkEnvelope)
    → Queues (t, s) q (d ∷ rest)
    → Queues (release_one_delayed t s) (q ++ d ∷ []) rest
unfolding push_outgoing
release-Queues t s q d rest h =
    let laws =
      push-Queues t.endpoint (outgoing_queue t.endpoint (set_delayed t.endpoint rest s) ++ d ∷ [])
        rest s in
    rw (release_one_delayed-front t s d rest h.has h.delayed) (record {
      outgoing = laws.0 ∙ ap (λ xs. xs ++ d ∷ []) (laws.2 ∙ h.outgoing);
      delayed = laws.1;
      has = h.has;
    })

flush-Queues :
    (late q : List NetworkEnvelope) (t : LoopbackTransport) (s : SharedState)
    → Queues (t, s) q late
    → Queues (flush_rounds (length late) t s) (q ++ late) []
unfolding flush_rounds
flush-Queues [] q t s h = record {
  outgoing = h.outgoing ∙ sym (append-nil q);
  delayed = h.delayed;
  has = h.has;
}
flush-Queues (d ∷ rest) q t s h =
    let one = release-Queues t s q d rest h in
    subst (λ xs. Queues (flush_rounds (length (d ∷ rest)) t s) xs []) (append_assoc q (d ∷ []) rest)
      (flush-Queues rest (q ++ d ∷ []) _ _ one)

-- FlushDelayed of an end that has its shared state leaves nothing delayed: all that was is behind what
-- was queued, in its order. As many rounds as there are delayed envelopes are enough.
pub flush_delayed-all :
    (t : LoopbackTransport) (s : SharedState)
    → t.has_state ≡ true
    → (outgoing_queue t.endpoint (flush_delayed t s).1
        ≡ outgoing_queue t.endpoint s ++ delayed_outgoing_queue t.endpoint s)
      × (delayed_outgoing_queue t.endpoint (flush_delayed t s).1 ≡ [])
unfolding flush_delayed
flush_delayed-all t s has =
    let late = delayed_outgoing_queue t.endpoint s in
    let all =
      flush-Queues late (outgoing_queue t.endpoint s) t s
        (record { outgoing = refl; delayed = refl; has = has }) in
    let after = flush_rounds (length late) t s in
    let same = (flush_rounds-Leaves (length late) t s).endpoint in
    let flushed : flush_delayed t s ≡ after = if_not-true t.has_state _ _ has in
    rw flushed (
      subst (λ p. outgoing_queue p after.1 ≡ outgoing_queue t.endpoint s ++ late) same all.outgoing,
      subst (λ p. delayed_outgoing_queue p after.1 ≡ []) same all.delayed,
    )

-- An accepted envelope that one connected end sends while no condition is set and nothing is delayed or
-- queued is what the other end polls, if that is connected; Send reports success.
pub poll-send :
    (t u : LoopbackTransport) (s : SharedState) (e : NetworkEnvelope)
    → t.has_state ≡ true
    → u.has_state ≡ true
    → t.state_value ≡ TransportState.connected
    → u.state_value ≡ TransportState.connected
    → u.endpoint ≡ other t.endpoint
    → t.conditions.drop_every_nth_outgoing_envelope ≡ 0
    → t.conditions.delay_every_nth_outgoing_envelope ≡ 0
    → outgoing_queue t.endpoint s ≡ []
    → delayed_outgoing_queue t.endpoint s ≡ []
    → is_accepted (validate_envelope e) ≡ true
    → ((send e t s).1 ≡ true) × ((poll u (send e t s).0.1).1 ≡ some e)
unfolding send dispatch_outgoing push_outgoing release_one_delayed poll
poll-send t u s e ht hu ct cu opposite drop delay queue late v = (ground arith, ground arith)
