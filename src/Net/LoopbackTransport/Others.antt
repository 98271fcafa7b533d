-- ===== src/Net/LoopbackTransport/Others.antt =====
-- What a call of one end of a loopback pair leaves alone.
use brawololo.Prelude.{
  ℕ, zero, suc, ◌+◌, ◌%◌, ◌^◌, ◌≡◌, refl, ◌∙◌, Bool, not, ◌||◌, List, [], ◌∷◌, arith, if-elim,
  subst,
}
use brawololo.Game.NetworkProtocol.{NetworkEnvelope, validate_envelope}
use brawololo.Net.KcpRtcTransport.{is_accepted, is_connected}
use brawololo.Net.LoopbackTransport.{
  Endpoint, a, b, SharedState, LoopbackTransport, World, should_drop_outgoing,
  should_delay_outgoing, push_outgoing, release_one_delayed, flush_rounds, dispatch_outgoing, send,
  outgoing_queue, delayed_outgoing_queue, release_front,
}

abbrev pub other : Endpoint → Endpoint
other a = b
other b = a

-- The other direction.
pub record Leaves (w w' : World) : Type 0 where
  pub endpoint : w'.0.endpoint ≡ w.0.endpoint
  pub received : w'.0.stats.envelopes_received ≡ w.0.stats.envelopes_received
  pub outgoing : outgoing_queue (other w.0.endpoint) w'.1 ≡ outgoing_queue (other w.0.endpoint) w.1
  pub delayed :
      delayed_outgoing_queue (other w.0.endpoint) w'.1
      ≡ delayed_outgoing_queue (other w.0.endpoint) w.1

pub Leaves-refl : (w : World) → Leaves w w
Leaves-refl w = record { endpoint = refl; received = refl; outgoing = refl; delayed = refl }

Leaves-trans : (u v w : World) → Leaves u v → Leaves v w → Leaves u w
Leaves-trans u v w h k = record {
  endpoint = k.endpoint ∙ h.endpoint;
  received = k.received ∙ h.received;
  outgoing =
      subst (λ p. outgoing_queue (other p) w.1 ≡ outgoing_queue (other p) v.1) h.endpoint k.outgoing
      ∙ h.outgoing;
  delayed =
      subst (λ p. delayed_outgoing_queue (other p) w.1 ≡ delayed_outgoing_queue (other p) v.1)
        h.endpoint k.delayed
      ∙ h.delayed;
}

push_outgoing-Leaves :
    (e : NetworkEnvelope) (t : LoopbackTransport) (s : SharedState)
    → Leaves (t, s) (push_outgoing e t s)
unfolding push_outgoing
push_outgoing-Leaves e t s = record {
  endpoint = refl;
  received = refl;
  outgoing = ground arith;
  delayed = ground arith;
}

release_front-Leaves :
    (q : List NetworkEnvelope) (t : LoopbackTransport) (s : SharedState)
    → Leaves (t, s) (release_front q t s)
unfolding push_outgoing
release_front-Leaves [] t s = Leaves-refl (t, s)
release_front-Leaves (d ∷ rest) t s = record {
  endpoint = refl;
  received = refl;
  outgoing = ground arith;
  delayed = ground arith;
}

pub release_one_delayed-Leaves :
    (t : LoopbackTransport) (s : SharedState) → Leaves (t, s) (release_one_delayed t s)
unfolding release_one_delayed
release_one_delayed-Leaves t s =
    if-elim (Leaves (t, s)) (not t.has_state) _ _ (λ n. Leaves-refl (t, s))
      (λ n. release_front-Leaves (delayed_outgoing_queue t.endpoint s) t s)

pub flush_rounds-Leaves :
    (n : ℕ) (t : LoopbackTransport) (s : SharedState) → Leaves (t, s) (flush_rounds n t s)
unfolding flush_rounds
flush_rounds-Leaves zero t s = Leaves-refl (t, s)
flush_rounds-Leaves (suc n) t s =
    Leaves-trans (t, s) (release_one_delayed t s) _ (release_one_delayed-Leaves t s)
      (flush_rounds-Leaves n _ _)

dispatch_outgoing-Leaves :
    (e : NetworkEnvelope) (t : LoopbackTransport) (s : SharedState)
    → Leaves (t, s) (dispatch_outgoing e t s)
unfolding dispatch_outgoing
dispatch_outgoing-Leaves e t s =
    if-elim (Leaves (t, s)) (should_drop_outgoing t) _ _
      (λ n. record { endpoint = refl; received = refl; outgoing = refl; delayed = refl })
      (λ n.
        if-elim (Leaves (t, s)) (should_delay_outgoing t) _ _
          (λ m. record {
            endpoint = refl;
            received = refl;
            outgoing = ground arith;
            delayed = ground arith;
          })
          (λ m.
            Leaves-trans (t, s) (push_outgoing e t s) _ (push_outgoing-Leaves e t s)
              (release_one_delayed-Leaves _ _)))

pub send-Leaves :
    (e : NetworkEnvelope) (t : LoopbackTransport) (s : SharedState) → Leaves (t, s) (send e t s).0
unfolding send
send-Leaves e t s =
    if-elim (λ (w : World × Bool). Leaves (t, s) w.0)
      (not t.has_state || not (is_connected t.state_value)) _ _
      (λ n. record { endpoint = refl; received = refl; outgoing = refl; delayed = refl })
      (λ n.
        if-elim (λ (w : World × Bool). Leaves (t, s) w.0) (not (is_accepted (validate_envelope e)))
          _ _ (λ m. record { endpoint = refl; received = refl; outgoing = refl; delayed = refl })
          (λ m.
            let placed =
              dispatch_outgoing-Leaves e
                (record t {
                  outgoing_envelope_ordinal = (t.outgoing_envelope_ordinal + 1) % 2 ^ 32;
                })
                s in
            record {
              endpoint = placed.endpoint;
              received = placed.received;
              outgoing = placed.outgoing;
              delayed = placed.delayed;
            }))
