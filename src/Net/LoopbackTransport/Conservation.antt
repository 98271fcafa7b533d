-- ===== src/Net/LoopbackTransport/Conservation.antt =====
-- A pair of LoopbackTransports loses and makes up nothing.
use brawololo.Prelude.{
  if-elim, subst, ℕ, zero, suc, ◌+◌, ◌%◌, ◌^◌, ◌≡◌, refl, Bool, true, not, ◌||◌, List, [], ◌∷◌,
  ◌++◌, length, All, All-append, length-append, arith,
}
use brawololo.Game.NetworkProtocol.{NetworkEnvelope, validate_envelope}
use brawololo.Net.KcpRtcTransport.{is_accepted, is_connected}
use brawololo.Net.LoopbackTransport.{
  Endpoint, a, b, SharedState, LoopbackTransport, World, push_outgoing, release_one_delayed,
  flush_rounds, set_outgoing, set_delayed, release_front, should_drop_outgoing,
  should_delay_outgoing, dispatch_outgoing, send, outgoing_queue, delayed_outgoing_queue,
}

abbrev pub AreAccepted : List NetworkEnvelope → Type 0
AreAccepted = All (λ e. is_accepted (validate_envelope e) ≡ true)

-- Of the envelopes of one direction: those that Send has accepted are those pushed, those delayed, those
-- dropped, and the `pending` ones that a call still has in hand; and those pushed are those still queued
-- and those received at the other end. The ordinal that counts the accepted ones is a uint32_t.
pub record Conserves (pending received : ℕ) (w : World) : Type 0 where
  pub accepted :
      w.0.outgoing_envelope_ordinal
      ≡ (w.0.stats.envelopes_sent
          + length (delayed_outgoing_queue w.0.endpoint w.1)
          + w.0.stats.envelopes_dropped_by_condition
          + pending)
        % 2 ^ 32
  pub sent : w.0.stats.envelopes_sent ≡ length (outgoing_queue w.0.endpoint w.1) + received
  pub queued_accepted : AreAccepted (outgoing_queue w.0.endpoint w.1)
  pub delayed_accepted : AreAccepted (delayed_outgoing_queue w.0.endpoint w.1)

outgoing-set_outgoing :
    (p : Endpoint) (q : List NetworkEnvelope) (s : SharedState)
    → outgoing_queue p (set_outgoing p q s) ≡ q
outgoing-set_outgoing a q s = refl
outgoing-set_outgoing b q s = refl

delayed-set_delayed :
    (p : Endpoint) (q : List NetworkEnvelope) (s : SharedState)
    → delayed_outgoing_queue p (set_delayed p q s) ≡ q
delayed-set_delayed a q s = refl
delayed-set_delayed b q s = refl

push_outgoing-Conserves :
    (pending received : ℕ) (e : NetworkEnvelope) (t : LoopbackTransport) (s : SharedState)
    → is_accepted (validate_envelope e) ≡ true
    → Conserves (suc pending) received (t, s)
    → Conserves pending received (push_outgoing e t s)
unfolding push_outgoing
push_outgoing-Conserves pending received e t s v h =
    let queue = outgoing_queue t.endpoint s in
    let grown = length-append queue (e ∷ []) in
    record {
      accepted = ground arith;
      sent = ground arith;
      queued_accepted =
          rw (outgoing-set_outgoing t.endpoint (queue ++ e ∷ []) s)
            (All-append _ queue (e ∷ []) h.queued_accepted (v, tt));
      delayed_accepted = ground arith;
    }

release_front-Conserves :
    (pending received : ℕ) (q : List NetworkEnvelope) (t : LoopbackTransport) (s : SharedState)
    → delayed_outgoing_queue t.endpoint s ≡ q
    → Conserves pending received (t, s)
    → Conserves pending received (release_front q t s)
release_front-Conserves pending received [] t s e h = h
release_front-Conserves pending received (d ∷ rest) t s e h =
    let ready : AreAccepted (d ∷ rest) = subst AreAccepted e h.delayed_accepted in
    push_outgoing-Conserves pending received d t (set_delayed t.endpoint rest s) ready.0 (record {
      accepted = ground arith;
      sent = ground arith;
      queued_accepted = ground arith;
      delayed_accepted = rw (delayed-set_delayed t.endpoint rest s) ready.1;
    })

pub release_one_delayed-Conserves :
    (pending received : ℕ) (t : LoopbackTransport) (s : SharedState)
    → Conserves pending received (t, s)
    → Conserves pending received (release_one_delayed t s)
unfolding release_one_delayed
release_one_delayed-Conserves pending received t s h =
    if-elim (Conserves pending received) (not t.has_state) _ _ (λ n. h)
      (λ n. release_front-Conserves pending received _ t s refl h)

pub flush_rounds-Conserves :
    (n received : ℕ) (t : LoopbackTransport) (s : SharedState)
    → Conserves 0 received (t, s)
    → Conserves 0 received (flush_rounds n t s)
unfolding flush_rounds
flush_rounds-Conserves zero received t s h = h
flush_rounds-Conserves (suc n) received t s h =
    flush_rounds-Conserves n received _ _ (release_one_delayed-Conserves 0 received t s h)

dispatch_outgoing-Conserves :
    (received : ℕ) (e : NetworkEnvelope) (t : LoopbackTransport) (s : SharedState)
    → is_accepted (validate_envelope e) ≡ true
    → Conserves 1 received (t, s)
    → Conserves 0 received (dispatch_outgoing e t s)
unfolding dispatch_outgoing
dispatch_outgoing-Conserves received e t s v h =
    let delayed = delayed_outgoing_queue t.endpoint s in
    let grown = length-append delayed (e ∷ []) in
    if-elim (Conserves 0 received) (should_drop_outgoing t) _ _
      (λ n. record {
        accepted = ground arith;
        sent = h.sent;
        queued_accepted = h.queued_accepted;
        delayed_accepted = h.delayed_accepted;
      })
      (λ n.
        if-elim (Conserves 0 received) (should_delay_outgoing t) _ _
          (λ m. record {
            accepted = ground arith;
            sent = ground arith;
            queued_accepted = ground arith;
            delayed_accepted =
                rw (delayed-set_delayed t.endpoint (delayed ++ e ∷ []) s)
                  (All-append _ delayed (e ∷ []) h.delayed_accepted (v, tt));
          })
          (λ m.
            release_one_delayed-Conserves 0 received _ _
              (push_outgoing-Conserves 0 received e t s v h)))

-- A change of what the counters of Conserves do not read.
pub Conserves-same :
    (received : ℕ) (t u : LoopbackTransport) (s : SharedState)
    → u.endpoint ≡ t.endpoint
    → u.outgoing_envelope_ordinal ≡ t.outgoing_envelope_ordinal
    → u.stats.envelopes_sent ≡ t.stats.envelopes_sent
    → u.stats.envelopes_dropped_by_condition ≡ t.stats.envelopes_dropped_by_condition
    → Conserves 0 received (t, s)
    → Conserves 0 received (u, s)
Conserves-same received t u s e o n d h = record {
  accepted = rw (e, o, n, d) h.accepted;
  sent = rw (e, n) h.sent;
  queued_accepted = rw e h.queued_accepted;
  delayed_accepted = rw e h.delayed_accepted;
}

pub send-Conserves :
    (received : ℕ) (e : NetworkEnvelope) (t : LoopbackTransport) (s : SharedState)
    → Conserves 0 received (t, s)
    → Conserves 0 received (send e t s).0
unfolding send
send-Conserves received e t s h =
    if-elim (λ (w : World × Bool). Conserves 0 received w.0)
      (not t.has_state || not (is_connected t.state_value)) _ _
      (λ n. Conserves-same received t _ s refl refl refl refl h)
      (λ n.
        if-elim (λ (w : World × Bool). Conserves 0 received w.0)
          (not (is_accepted (validate_envelope e))) _ _
          (λ m. Conserves-same received t _ s refl refl refl refl h)
          (λ m.
            let next = record t {
              outgoing_envelope_ordinal = (t.outgoing_envelope_ordinal + 1) % 2 ^ 32;
            } in
            let placed = dispatch_outgoing-Conserves received e next s (ground arith) (record {
              accepted = omega (arith, h.accepted);
              sent = h.sent;
              queued_accepted = h.queued_accepted;
              delayed_accepted = h.delayed_accepted;
            }) in
            Conserves-same received (dispatch_outgoing e next s).0 _ (dispatch_outgoing e next s).1
              refl refl refl refl placed))
