-- ===== src/Net/MultiClientLoopbackTransport/Routing.antt =====
-- Where the envelopes of a Hub go.
use mathlib.Core.Option.{some-injective}
use brawololo.Prelude.{
  ◌≡◌, ◌≢◌, refl, Bool, true, not, ◌||◌, ◌==◌, Option, some, List, [], ◌∷◌, ◌++◌, All, All-append,
  All-append_right, arith, if-elim, subst, sym, ap, ==_iff, Bool-cases, inl, inr,
}
use brawololo.Prelude.Maps.{lookup, lookup-assign, lookup-assign_other}
use brawololo.Game.Types.{ClientId}
use brawololo.Game.NetworkProtocol.{NetworkEnvelope, validate_envelope}
use brawololo.Net.Transport.{TransportState}
use brawololo.Net.KcpRtcTransport.{is_accepted, is_connected}
use brawololo.Net.MultiClientLoopbackTransport.{
  Hub, Endpoint, server, client, MultiClientLoopbackTransport, World, create_hub, client_queue,
  set_client_queue, or_empty, incoming_queue, set_incoming_queue, route, send, poll, poll_front,
}

-- What a hub can hold: any transports, in any state, have sent to it and polled from it.
pub data IsReachable : Hub → Type 0 where
  created : IsReachable create_hub
  sent :
      {hub : Hub} (e : NetworkEnvelope) (t : MultiClientLoopbackTransport)
      → IsReachable hub
      → IsReachable (send e t hub).0.1
  polled :
      {hub : Hub} (t : MultiClientLoopbackTransport)
      → IsReachable hub
      → IsReachable (poll t hub).0.1

abbrev pub IsFor : ClientId → NetworkEnvelope → Type 0
IsFor id e = (e.peer_id ≡ id) × (is_accepted (validate_envelope e) ≡ true)

abbrev pub IsRouted : Hub → Type 0
IsRouted hub = (id : ClientId) → All (IsFor id) (client_queue id hub)

client_queue-set :
    (id : ClientId) (q : List NetworkEnvelope) (hub : Hub)
    → client_queue id (set_client_queue id q hub) ≡ q
client_queue-set id q hub = ap or_empty (lookup-assign id q hub.to_clients)

client_queue-set_other :
    (id other : ClientId) (q : List NetworkEnvelope) (hub : Hub)
    → other ≢ id
    → client_queue other (set_client_queue id q hub) ≡ client_queue other hub
client_queue-set_other id other q hub h =
    ap or_empty (lookup-assign_other id other q hub.to_clients h)

set_client_queue-IsRouted :
    (id : ClientId) (q : List NetworkEnvelope) (hub : Hub)
    → All (IsFor id) q
    → IsRouted hub
    → IsRouted (set_client_queue id q hub)
set_client_queue-IsRouted id q hub new old other = elim (Bool-cases (other == id)) [
  | inl same ↦
      let e = (==_iff other id).0 same in
      subst (λ x. All (IsFor x) (client_queue x (set_client_queue id q hub))) (sym e)
        (rw (client_queue-set id q hub) new)
  | inr differs ↦
      let h : other ≢ id = λ e. absurd (let t = (==_iff other id).1 e in cc) in
      rw (client_queue-set_other id other q hub h) (old other)
]

route-IsRouted :
    (p : Endpoint) (e : NetworkEnvelope) (t : MultiClientLoopbackTransport) (hub : Hub)
    → is_accepted (validate_envelope e) ≡ true
    → IsRouted hub
    → IsRouted (route p e t hub).0.1
unfolding route
route-IsRouted client e t hub ok h = h
route-IsRouted server e t hub ok h =
    if-elim (λ (r : World × Bool). IsRouted r.0.1) (e.peer_id == 0) _ _ (λ n. h)
      (λ n.
        set_client_queue-IsRouted e.peer_id _ hub
          (All-append (IsFor e.peer_id) (client_queue e.peer_id hub) (e ∷ []) (h e.peer_id)
            ((refl, ok), tt))
          h)

send-IsRouted :
    (e : NetworkEnvelope) (t : MultiClientLoopbackTransport) (hub : Hub)
    → IsRouted hub
    → IsRouted (send e t hub).0.1
unfolding send
send-IsRouted e t hub h =
    if-elim (λ (r : World × Bool). IsRouted r.0.1) (not t.has_hub || not (is_connected t.state)) _ _
      (λ n. h)
      (λ n.
        if-elim (λ (r : World × Bool). IsRouted r.0.1) (not (is_accepted (validate_envelope e))) _ _
          (λ m. h) (λ ok. route-IsRouted t.endpoint e t hub (ground arith) h))

set_incoming-IsRouted :
    (p : Endpoint) (id : ClientId) (front q : List NetworkEnvelope) (hub : Hub)
    → incoming_queue p id hub ≡ front ++ q
    → IsRouted hub
    → IsRouted (set_incoming_queue p id q hub)
unfolding set_incoming_queue
set_incoming-IsRouted server id front q hub e h = h
set_incoming-IsRouted client id front q hub e h =
    set_client_queue-IsRouted id q hub
      (All-append_right (IsFor id) front q (subst (All (IsFor id)) e (h id))) h

poll_front-IsRouted :
    (q : List NetworkEnvelope) (t : MultiClientLoopbackTransport) (hub : Hub)
    → incoming_queue t.endpoint t.client_id hub ≡ q
    → IsRouted hub
    → IsRouted (poll_front q t hub).0.1
poll_front-IsRouted [] t hub e h = set_incoming-IsRouted t.endpoint t.client_id [] [] hub e h
poll_front-IsRouted (x ∷ rest) t hub e h =
    set_incoming-IsRouted t.endpoint t.client_id (x ∷ []) rest hub e h

poll-IsRouted :
    (t : MultiClientLoopbackTransport) (hub : Hub) → IsRouted hub → IsRouted (poll t hub).0.1
unfolding poll
poll-IsRouted t hub h =
    if-elim (λ (r : World × Option NetworkEnvelope). IsRouted r.0.1)
      (not t.has_hub || not (is_connected t.state)) _ _ (λ n. h)
      (λ n. poll_front-IsRouted (incoming_queue t.endpoint t.client_id hub) t hub refl h)

IsReachable-IsRouted : {hub : Hub} → IsReachable hub → IsRouted hub
unfolding lookup
IsReachable-IsRouted created = λ id. tt
IsReachable-IsRouted (sent {hub = hub} e t r) = send-IsRouted e t hub (IsReachable-IsRouted r)
IsReachable-IsRouted (polled {hub = hub} t r) = poll-IsRouted t hub (IsReachable-IsRouted r)

poll_front-found :
    (q : List NetworkEnvelope) (t : MultiClientLoopbackTransport) (hub : Hub) (e : NetworkEnvelope)
    → All (IsFor t.client_id) q
    → (poll_front q t hub).1 ≡ some e
    → IsFor t.client_id e
poll_front-found [] t hub e h found = ground arith
poll_front-found (x ∷ rest) t hub e h found =
    let same : some x ≡ some e = rw h.0.1 at found in
    subst (IsFor t.client_id) (some-injective _ _ same) h.0

-- Whatever any transports have sent to a hub and polled from it, in whatever order: the envelope that a
-- client polls is addressed to that client and passes ValidateEnvelope.
pub poll-IsFor :
    (hub : Hub) (t : MultiClientLoopbackTransport) (e : NetworkEnvelope)
    → IsReachable hub
    → t.endpoint ≡ client
    → (poll t hub).1 ≡ some e
    → (e.peer_id ≡ t.client_id) × (is_accepted (validate_envelope e) ≡ true)
unfolding poll
poll-IsFor hub t e r is_client found =
    let all : All (IsFor t.client_id) (incoming_queue t.endpoint t.client_id hub) =
      rw is_client (IsReachable-IsRouted r t.client_id) in
    if-elim (λ (p : World × Option NetworkEnvelope). p.1 ≡ some e → IsFor t.client_id e)
      (not t.has_hub || not (is_connected t.state)) _ _ (λ n f. ground arith)
      (λ n f. poll_front-found (incoming_queue t.endpoint t.client_id hub) t hub e all f) found

-- An accepted envelope that a connected client sends, while nothing waits for the server, is what the
-- connected server polls, with the id of that client in place of the one that the sender wrote.
pub poll_server-send :
    (t u : MultiClientLoopbackTransport) (hub : Hub) (e : NetworkEnvelope)
    → t.has_hub ≡ true
    → u.has_hub ≡ true
    → t.state ≡ TransportState.connected
    → u.state ≡ TransportState.connected
    → t.endpoint ≡ client
    → u.endpoint ≡ server
    → hub.to_server ≡ []
    → is_accepted (validate_envelope e) ≡ true
    → ((send e t hub).1 ≡ true)
      × ((poll u (send e t hub).0.1).1 ≡ some (record e { peer_id = t.client_id }))
unfolding send route poll validate_envelope
poll_server-send t u hub e ht hu ct cu is_client is_server empty ok = (ground arith, ground arith)

route-client_queue_other :
    (p : Endpoint) (id : ClientId) (t : MultiClientLoopbackTransport) (hub : Hub)
    (e : NetworkEnvelope)
    → id ≢ e.peer_id
    → client_queue id (route p e t hub).0.1 ≡ client_queue id hub
unfolding route
route-client_queue_other client id t hub e h = refl
route-client_queue_other server id t hub e h =
    if-elim (λ (r : World × Bool). client_queue id r.0.1 ≡ client_queue id hub) (e.peer_id == 0) _ _
      (λ n. refl) (λ n. client_queue-set_other e.peer_id id _ hub h)

send-client_queue_other :
    (id : ClientId) (t : MultiClientLoopbackTransport) (hub : Hub) (e : NetworkEnvelope)
    → id ≢ e.peer_id
    → client_queue id (send e t hub).0.1 ≡ client_queue id hub
unfolding send
send-client_queue_other id t hub e h =
    if-elim (λ (r : World × Bool). client_queue id r.0.1 ≡ client_queue id hub)
      (not t.has_hub || not (is_connected t.state)) _ _ (λ n. refl)
      (λ n.
        if-elim (λ (r : World × Bool). client_queue id r.0.1 ≡ client_queue id hub)
          (not (is_accepted (validate_envelope e))) _ _ (λ m. refl)
          (λ m. route-client_queue_other t.endpoint id t hub e h))

poll_front-same :
    (q : List NetworkEnvelope) (t : MultiClientLoopbackTransport) (hub other : Hub)
    → (poll_front q t hub).1 ≡ (poll_front q t other).1
poll_front-same [] t hub other = refl
poll_front-same (x ∷ rest) t hub other = refl

-- What a client polls is not changed by an envelope that another transport has just sent, if that is
-- not addressed to the client.
pub poll_other-send :
    (t u : MultiClientLoopbackTransport) (hub : Hub) (e : NetworkEnvelope)
    → u.endpoint ≡ client
    → u.client_id ≢ e.peer_id
    → (poll u (send e t hub).0.1).1 ≡ (poll u hub).1
unfolding poll
poll_other-send t u hub e is_client other =
    let after = (send e t hub).0.1 in
    let same : incoming_queue u.endpoint u.client_id after
        ≡ incoming_queue u.endpoint u.client_id hub =
      rw is_client (send-client_queue_other u.client_id t hub e other) in
    let q = incoming_queue u.endpoint u.client_id in
    let front : (poll_front (q after) u after).1 ≡ (poll_front (q hub) u hub).1 =
      rw same (poll_front-same (q hub) u after hub) in
    ground arith
