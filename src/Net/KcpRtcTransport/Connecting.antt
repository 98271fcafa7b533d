-- ===== src/Net/KcpRtcTransport/Connecting.antt =====
-- When ReceiveSignalingMessage of Networking/src/KcpRtcTransport.cpp connects a transport.
use mathlib.Core.Bool.{true≢false}
use brawololo.Prelude.{
  ℕ, ◌≡◌, ◌≢◌, ◌↔◌, ◌⊎◌, inl, inr, refl, sym, ap, ◌∙◌, true, false, ◌&&◌, ◌||◌, List, [], ◌∷◌, ◌==◌,
  ==_iff, Bool-cases, &&_true, &&_intro, arith,
}
use brawololo.Net.Transport.{TransportState}
use brawololo.Net.RtcSignaling.{
  RtcSignalingMessageKind, RtcSignalingMessage, ValidationError, validate_rtc_signaling_message,
}
use brawololo.Net.RtcSignaling.Format.{IsValid, validate_rtc_signaling_message_iff}
use brawololo.Net.KcpRtcTransport.{
  KcpRtcTransport, is_client, is_connected, transition_to_connected, queue_signal,
}
use brawololo.Net.KcpRtcTransport.Signals.{
  same_bytes, is_valid, dispatch_signal, is_addressed, receive_signaling_message,
}

same_bytes_iff : (a b : List ℕ) → (same_bytes a b ≡ true) ↔ (a ≡ b)
same_bytes_iff a b = (forth a b, λ e. ap (same_bytes a) (sym e) ∙ back a)
  where
    forth : (a b : List ℕ) → same_bytes a b ≡ true → a ≡ b
    forth [] [] h = refl
    forth [] (y ∷ ys) h = absurd (true≢false (sym h))
    forth (x ∷ xs) [] h = absurd (true≢false (sym h))
    forth (x ∷ xs) (y ∷ ys) h =
        let (one, rest) = &&_true (x == y) (same_bytes xs ys) h in
        λ i. (==_iff x y).0 one i ∷ forth xs ys rest i

    back : (a : List ℕ) → same_bytes a a ≡ true
    back [] = refl
    back (x ∷ xs) = &&_intro _ _ ((==_iff x x).1 refl) (back xs)

is_valid_iff : (v : ValidationError) → (is_valid v ≡ true) ↔ (v ≡ ValidationError.no_error)
is_valid_iff v = (forth v, λ e. ap is_valid e)
  where
    forth : (v : ValidationError) → is_valid v ≡ true → v ≡ ValidationError.no_error
    forth ValidationError.no_error h = refl
    forth _ h = absurd (true≢false (sym h))

-- Valid, of this session, for this peer or for all, and from another peer.
pub record IsForPeer (m : RtcSignalingMessage) (t : KcpRtcTransport) : Type 0 where
  pub valid : IsValid m
  pub session : m.session_id ≡ t.config.session_id
  pub target : (m.target_peer_id ≡ 0) ⊎ (m.target_peer_id ≡ t.config.local_peer_id)
  pub sender : m.sender_peer_id ≢ t.config.local_peer_id

is_addressed_iff :
    (m : RtcSignalingMessage) (t : KcpRtcTransport)
    → m.sender_peer_id ≢ t.config.local_peer_id
    → (is_addressed m t ≡ true) ↔ IsForPeer m t
unfolding is_addressed
is_addressed_iff m t other =
    let v = validate_rtc_signaling_message m in
    let target = m.target_peer_id in
    let local = t.config.local_peer_id in
    let same = same_bytes m.session_id t.config.session_id in
    (
      λ h.
          let (h', for_peer) = &&_true (is_valid v && same) (target == 0 || target == local) h in
          let (valid, session) = &&_true (is_valid v) same h' in
          record {
            valid = (validate_rtc_signaling_message_iff m).0 ((is_valid_iff v).0 valid);
            session = (same_bytes_iff _ _).0 session;
            target = ground arith;
            sender = other;
          },
      λ h.
          let valid = (is_valid_iff v).1 ((validate_rtc_signaling_message_iff m).1 h.valid) in
          let session = (same_bytes_iff _ _).1 h.session in
          let for_target = h.target in &&_intro _ _ (&&_intro _ _ valid session) (ground arith),
    )

not_connected : (s : TransportState) → is_connected s ≡ false → s ≢ TransportState.connected
not_connected s off same = true≢false (sym (ap is_connected same) ∙ off)

dispatch_signal-connects :
    (k : RtcSignalingMessageKind) (m : RtcSignalingMessage) (t : KcpRtcTransport)
    → t.state ≢ TransportState.connected
    → (dispatch_signal k m t).0.state ≡ TransportState.connected
    → k ≡ RtcSignalingMessageKind.data_channel_ready
unfolding dispatch_signal transition_to_connected queue_signal
dispatch_signal-connects RtcSignalingMessageKind.offer m t off on =
    elim (Bool-cases (is_client t.config.role)) [
      | inl client ↦ absurd (off (rw client at on))
      | inr server ↦ absurd (not_connected TransportState.connecting refl (rw server at on))
    ]
dispatch_signal-connects RtcSignalingMessageKind.answer m t off on =
    elim (Bool-cases (is_client t.config.role)) [
      | inl client ↦ absurd (not_connected TransportState.connecting refl (rw client at on))
      | inr server ↦ absurd (off (rw server at on))
    ]
dispatch_signal-connects RtcSignalingMessageKind.data_channel_ready m t off on = refl
dispatch_signal-connects RtcSignalingMessageKind.leave m t off on =
    absurd (not_connected TransportState.disconnected refl on)
dispatch_signal-connects RtcSignalingMessageKind.error m t off on =
    absurd (not_connected TransportState.failed refl on)
dispatch_signal-connects RtcSignalingMessageKind.join m t off on = absurd (off on)
dispatch_signal-connects RtcSignalingMessageKind.ice_candidate m t off on = absurd (off on)

ready_connects :
    (m : RtcSignalingMessage) (t : KcpRtcTransport)
    → (dispatch_signal RtcSignalingMessageKind.data_channel_ready m t).0.state
      ≡ TransportState.connected
unfolding dispatch_signal transition_to_connected
ready_connects m t = refl

-- A signaling message connects a transport that is not connected exactly when it is a data-channel-ready
-- signal that is valid, of the transport's session, for this peer or for all, and from another peer:
-- whatever the state of the transport, also one that was closed or has failed.
pub receive_signaling_message-connects :
    (m : RtcSignalingMessage) (t : KcpRtcTransport)
    → t.state ≢ TransportState.connected
    → ((receive_signaling_message m t).0.state ≡ TransportState.connected)
      ↔ ((m.kind ≡ RtcSignalingMessageKind.data_channel_ready) × IsForPeer m t)
unfolding receive_signaling_message
receive_signaling_message-connects m t off = (
  λ on. elim (Bool-cases (is_addressed m t)) [
    | inl here ↦ elim (Bool-cases (m.sender_peer_id == t.config.local_peer_id)) [
      | inl own ↦ absurd (off (rw (here, own) at on))
      | inr other ↦
          let foreign = λ (e : m.sender_peer_id ≡ t.config.local_peer_id).
            true≢false (sym ((==_iff _ _).1 e) ∙ other) in
          (
            dispatch_signal-connects m.kind m (record t { remote_peer_id = m.sender_peer_id }) off
                (rw (here, other) at on),
            (is_addressed_iff m t foreign).0 here,
          )
    ]
    | inr elsewhere ↦ absurd (off (rw elsewhere at on))
  ],
  λ (ready, for_peer).
      let here = (is_addressed_iff m t for_peer.sender).1 for_peer in
      elim (Bool-cases (m.sender_peer_id == t.config.local_peer_id)) [
        | inl own ↦ absurd (for_peer.sender ((==_iff _ _).0 own))
        | inr other ↦
            rw (here, other)
              (ap
                  (λ k.
                    (dispatch_signal k m (record t { remote_peer_id = m.sender_peer_id })).0.state)
                  ready
                ∙ ready_connects m (record t { remote_peer_id = m.sender_peer_id }))
      ],
)
