-- ===== src/Net/KcpRtcTransport/Interface.antt =====
-- KcpRtcTransport as a transport of Networking/include/Networking/ITransport.hpp. What waits are the
-- envelopes of the frames received so far.
use mathlib.Core.Option.{none-ne-some}
use brawololo.Prelude.{
  ℕ, ◌+◌, ◌<◌, ◌≤◌, ◌≡◌, refl, Bool, not, ltb, some, List, [], ◌∷◌, length, arith, if-elim,
}
use brawololo.Game.NetworkProtocol.{NetworkEnvelope, validate_envelope}
use brawololo.Net.Transport.{Transport, IsDraining}
use brawololo.Net.TransportPacketCodec.{encode_transport_packet}
use brawololo.Net.KcpRtcTransport.{KcpRtcTransport, send, poll, is_accepted, is_connected}

unfoldable pub kcp_rtc_transport : Transport
unfolding send poll
kcp_rtc_transport = record { State = KcpRtcTransport; send = send; poll = poll }

abbrev pub waiting : KcpRtcTransport → ℕ
waiting t = length t.incoming_envelopes

pub poll_fewer :
    (t : KcpRtcTransport) (l : List NetworkEnvelope) (e : NetworkEnvelope)
    → t.incoming_envelopes ≡ l
    → (poll t).1 ≡ some e
    → waiting (poll t).0 < waiting t
unfolding poll
poll_fewer t [] e same found = absurd (none-ne-some e (rw same at found))
poll_fewer t (x ∷ rest) e same found = rw same (omega arith)

pub send_none : (t : KcpRtcTransport) (e : NetworkEnvelope) → waiting (send e t).0 ≤ waiting t
unfolding send
send_none t e =
    let frame = encode_transport_packet e in
    let NoMore = λ (r : KcpRtcTransport × Bool). waiting r.0 ≤ waiting t in
    if-elim NoMore (not (is_accepted (validate_envelope e))) _ _ (λ _. omega arith)
      (λ _.
        if-elim NoMore (not (is_connected t.state)) _ _ (λ _. omega arith)
          (λ _.
            if-elim NoMore
              (ltb t.config.max_buffered_amount_bytes
                (t.buffered_outgoing_frame_bytes + length frame))
              _ _ (λ _. omega arith) (λ _. omega arith)))

unfoldable pub kcp_rtc_transport-IsDraining : IsDraining kcp_rtc_transport
unfolding kcp_rtc_transport
kcp_rtc_transport-IsDraining = record {
  waiting = waiting;
  fewer-poll = λ t e found. poll_fewer t t.incoming_envelopes e refl found;
  none-send = send_none;
}
