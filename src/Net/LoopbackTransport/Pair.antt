-- ===== src/Net/LoopbackTransport/Pair.antt =====
-- Both ends of a loopback pair, called in any order.
use brawololo.Prelude.{
  ◌≡◌, refl, ap, ◌∙◌, Bool, not, ◌||◌, Option, List, [], ◌∷◌, length, arith, if-elim, subst, sym,
}
use brawololo.Game.NetworkProtocol.{NetworkEnvelope}
use brawololo.Net.KcpRtcTransport.{is_connected}
use brawololo.Net.LoopbackTransport.{
  LoopbackNetworkConditions, Endpoint, a, b, SharedState, LoopbackTransport, World, empty_state,
  create_end, release_one_delayed, flush_delayed, set_network_conditions, connect, close, send,
  poll, outgoing_queue, incoming_queue, delayed_outgoing_queue, poll_front, set_incoming,
}
use brawololo.Net.Transport.{TransportStats}
use brawololo.Net.LoopbackTransport.Conservation.{
  Conserves, AreAccepted, send-Conserves, flush_rounds-Conserves, release_one_delayed-Conserves,
  Conserves-same,
}
use brawololo.Net.LoopbackTransport.Others.{
  other, Leaves, release_one_delayed-Leaves, flush_rounds-Leaves, send-Leaves,
}

pub record Pair : Type 0 where
  pub end_a : LoopbackTransport
  pub end_b : LoopbackTransport
  pub shared : SharedState

abbrev pub create_pair : LoopbackNetworkConditions → Pair
create_pair conditions = record {
  end_a = create_end a conditions;
  end_b = create_end b conditions;
  shared = empty_state;
}

pub data Call : Type 0 where
  send_call : NetworkEnvelope → Call
  poll_call update_call flush_call connect_call close_call : Call
  conditions_call : LoopbackNetworkConditions → Call

abbrev pub step_end : Call → LoopbackTransport → SharedState → World
step_end (send_call e) t s = (send e t s).0
step_end poll_call t s = (poll t s).0
step_end update_call t s = release_one_delayed t s
step_end flush_call t s = flush_delayed t s
step_end connect_call t s = ((connect t).0, s)
step_end close_call t s = (close t, s)
step_end (conditions_call c) t s = (set_network_conditions c t, s)

abbrev pub step : Endpoint → Call → Pair → Pair
step a call p =
    let w = step_end call p.end_a p.shared in record { end_a = w.0; end_b = p.end_b; shared = w.1 }
step b call p =
    let w = step_end call p.end_b p.shared in record { end_a = p.end_a; end_b = w.0; shared = w.1 }

abbrev pub run : List (Endpoint × Call) → Pair → Pair
run [] p = p
run (c ∷ calls) p = run calls (step c.0 c.1 p)

-- Both directions conserve their envelopes.
pub record IsConserving (p : Pair) : Type 0 where
  pub is_a : p.end_a.endpoint ≡ a
  pub is_b : p.end_b.endpoint ≡ b
  pub from_a : Conserves 0 p.end_b.stats.envelopes_received (p.end_a, p.shared)
  pub from_b : Conserves 0 p.end_a.stats.envelopes_received (p.end_b, p.shared)

-- After a call: the caller's own direction, and that of the other end `u`.
record Holds (t u : LoopbackTransport) (w : World) : Type 0 where
  same : w.0.endpoint ≡ t.endpoint
  own : Conserves 0 u.stats.envelopes_received w
  others : Conserves 0 w.0.stats.envelopes_received (u, w.1)

Conserves-Leaves :
    (t u : LoopbackTransport) (s : SharedState) (w : World)
    → u.endpoint ≡ other t.endpoint
    → Conserves 0 t.stats.envelopes_received (u, s)
    → Leaves (t, s) w
    → Conserves 0 w.0.stats.envelopes_received (u, w.1)
Conserves-Leaves t u s w e h l =
    let queued : outgoing_queue u.endpoint w.1 ≡ outgoing_queue u.endpoint s =
      subst (λ p. outgoing_queue p w.1 ≡ outgoing_queue p s) (sym e) l.outgoing in
    let delayed : delayed_outgoing_queue u.endpoint w.1 ≡ delayed_outgoing_queue u.endpoint s =
      subst (λ p. delayed_outgoing_queue p w.1 ≡ delayed_outgoing_queue p s) (sym e) l.delayed in
    record {
      accepted = rw delayed h.accepted;
      sent = rw (queued, l.received) h.sent;
      queued_accepted = rw queued h.queued_accepted;
      delayed_accepted = rw delayed h.delayed_accepted;
    }

-- The queue that one end takes from is the one that the other end pushes to.
outgoing-other : (p : Endpoint) (s : SharedState) → outgoing_queue (other p) s ≡ incoming_queue p s
outgoing-other a s = refl
outgoing-other b s = refl

outgoing-set_incoming :
    (p : Endpoint) (q : List NetworkEnvelope) (s : SharedState)
    → outgoing_queue (other p) (set_incoming p q s) ≡ q
outgoing-set_incoming a q s = refl
outgoing-set_incoming b q s = refl

poll_front-Holds :
    (q : List NetworkEnvelope) (t u : LoopbackTransport) (s : SharedState)
    → u.endpoint ≡ other t.endpoint
    → incoming_queue t.endpoint s ≡ q
    → Conserves 0 u.stats.envelopes_received (t, s)
    → Conserves 0 t.stats.envelopes_received (u, s)
    → Holds t u (poll_front q t s).0
poll_front-Holds [] t u s e front own others = record { same = refl; own = own; others = others }
poll_front-Holds (d ∷ rest) t u s e front own others =
    let queue : outgoing_queue u.endpoint s ≡ d ∷ rest =
      rw e (outgoing-other t.endpoint s) ∙ front in
    let ready : AreAccepted (d ∷ rest) = subst AreAccepted queue others.queued_accepted in
    let left : outgoing_queue u.endpoint (set_incoming t.endpoint rest s) ≡ rest =
      rw e (outgoing-set_incoming t.endpoint rest s) in
    rw ready.0 (record {
      same = refl;
      own = record {
        accepted = ground arith;
        sent = ground arith;
        queued_accepted = ground arith;
        delayed_accepted = ground arith;
      };
      others = record {
        accepted = ground arith;
        sent = rw left (ground arith);
        queued_accepted = rw left ready.1;
        delayed_accepted = ground arith;
      };
    })

poll-Holds :
    (t u : LoopbackTransport) (s : SharedState)
    → u.endpoint ≡ other t.endpoint
    → Conserves 0 u.stats.envelopes_received (t, s)
    → Conserves 0 t.stats.envelopes_received (u, s)
    → Holds t u (poll t s).0
unfolding poll
poll-Holds t u s e own others =
    if-elim (λ (w : World × Option NetworkEnvelope). Holds t u w.0)
      (not t.has_state || not (is_connected t.state_value)) _ _
      (λ n. record { same = refl; own = own; others = others })
      (λ n. poll_front-Holds (incoming_queue t.endpoint s) t u s e refl own others)

Leaves-Holds :
    (t u : LoopbackTransport) (s : SharedState) (w : World)
    → u.endpoint ≡ other t.endpoint
    → Conserves 0 u.stats.envelopes_received w
    → Conserves 0 t.stats.envelopes_received (u, s)
    → Leaves (t, s) w
    → Holds t u w
Leaves-Holds t u s w e own others l = record {
  same = l.endpoint;
  own = own;
  others = Conserves-Leaves t u s w e others l;
}

same-Holds :
    (t u v : LoopbackTransport) (s : SharedState)
    → v.endpoint ≡ t.endpoint
    → v.outgoing_envelope_ordinal ≡ t.outgoing_envelope_ordinal
    → v.stats ≡ t.stats
    → Conserves 0 u.stats.envelopes_received (t, s)
    → Conserves 0 t.stats.envelopes_received (u, s)
    → Holds t u (v, s)
same-Holds t u v s e o n own others = record {
  same = e;
  own =
      Conserves-same _ t v s e o (ap (λ (x : TransportStats). x.envelopes_sent) n)
        (ap (λ (x : TransportStats). x.envelopes_dropped_by_condition) n) own;
  others = rw n others;
}

step_end-Holds :
    (call : Call) (t u : LoopbackTransport) (s : SharedState)
    → u.endpoint ≡ other t.endpoint
    → Conserves 0 u.stats.envelopes_received (t, s)
    → Conserves 0 t.stats.envelopes_received (u, s)
    → Holds t u (step_end call t s)
unfolding connect close flush_delayed
step_end-Holds (send_call e) t u s opposite own others =
    Leaves-Holds t u s _ opposite (send-Conserves _ e t s own) others (send-Leaves e t s)
step_end-Holds poll_call t u s opposite own others = poll-Holds t u s opposite own others
step_end-Holds update_call t u s opposite own others =
    Leaves-Holds t u s _ opposite (release_one_delayed-Conserves 0 _ t s own) others
      (release_one_delayed-Leaves t s)
step_end-Holds flush_call t u s opposite own others =
    let rounds = length (delayed_outgoing_queue t.endpoint s) in
    if-elim (Holds t u) (not t.has_state) _ _
      (λ n. record { same = refl; own = own; others = others })
      (λ n.
        Leaves-Holds t u s _ opposite (flush_rounds-Conserves rounds _ t s own) others
          (flush_rounds-Leaves rounds t s))
step_end-Holds connect_call t u s opposite own others =
    if-elim (λ (r : LoopbackTransport × Bool). Holds t u (r.0, s)) (not t.has_state) _ _
      (λ n. same-Holds t u _ s refl refl refl own others)
      (λ n. same-Holds t u _ s refl refl refl own others)
step_end-Holds close_call t u s opposite own others = same-Holds t u _ s refl refl refl own others
step_end-Holds (conditions_call c) t u s opposite own others =
    same-Holds t u _ s refl refl refl own others

step-IsConserving :
    (end : Endpoint) (call : Call) (p : Pair) → IsConserving p → IsConserving (step end call p)
step-IsConserving a call p h =
    let opposite = h.is_b ∙ sym (ap other h.is_a) in
    let held = step_end-Holds call p.end_a p.end_b p.shared opposite h.from_a h.from_b in
    record { is_a = held.same ∙ h.is_a; is_b = h.is_b; from_a = held.own; from_b = held.others }
step-IsConserving b call p h =
    let opposite = h.is_a ∙ sym (ap other h.is_b) in
    let held = step_end-Holds call p.end_b p.end_a p.shared opposite h.from_b h.from_a in
    record { is_a = h.is_a; is_b = held.same ∙ h.is_b; from_a = held.others; from_b = held.own }

run-IsConserving :
    (calls : List (Endpoint × Call)) (p : Pair) → IsConserving p → IsConserving (run calls p)
run-IsConserving [] p h = h
run-IsConserving (c ∷ calls) p h =
    run-IsConserving calls (step c.0 c.1 p) (step-IsConserving c.0 c.1 p h)

-- Whatever a pair's two ends are asked to do, in whatever order, each direction conserves its envelopes:
-- the number that Send has accepted is, modulo 2^32, that of those pushed, still delayed and dropped by
-- condition; those pushed are those queued and those received; and all that is queued or delayed is
-- accepted by ValidateEnvelope.
pub run-create_pair-IsConserving :
    (calls : List (Endpoint × Call)) (conditions : LoopbackNetworkConditions)
    → IsConserving (run calls (create_pair conditions))
run-create_pair-IsConserving calls conditions =
    run-IsConserving calls (create_pair conditions) (record {
      is_a = refl;
      is_b = refl;
      from_a = record { accepted = refl; sent = refl; queued_accepted = tt; delayed_accepted = tt };
      from_b = record { accepted = refl; sent = refl; queued_accepted = tt; delayed_accepted = tt };
    })
