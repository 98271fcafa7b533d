-- ===== src/Net/RtcSignaling/Format.antt =====
-- Which byte strings DeserializeRtcSignalingMessage accepts.
use mathlib.Core.Option.{some-injective}
use brawololo.Prelude.{
  ℕ, ◌≤◌, ◌<◌, ◌≡◌, ◌≢◌, refl, ap, ◌∙◌, ◌↔◌, true, Option, none, some, List, [], ◌∷◌, length, arith,
  leb→le, ltb, append-nil, Bool-cases, inl, inr, le→not_ltb, not_ltb→le,
}
use brawololo.Wire.Bytes.{AreBytes, range}
use brawololo.Wire.Codec.{IsCodec, chunk-IsCodec, map-IsCodec, check-IsCodec, ◌<⊗>◌}
use brawololo.Wire.Ints.{uint-IsCodec}
use brawololo.Wire.Bind.{bind-IsCodec}
use brawololo.Game.Types.{IsU32}
use brawololo.Net.RtcSignaling.{
  RtcSignalingMessage, ValidationError, DecodeError, SignalReader, Fields, invalid_count,
  signal_kind_code, signal_kind-IsEnum, max_rtc_signaling_payload_bytes, message_of, fail,
  read_sized, read_string, write_string, read_message, serialize_rtc_signaling_message,
  validate_rtc_signaling_message, finished, check_valid, conclude,
  deserialize_rtc_signaling_message,
}

abbrev StringFits : ℕ → List ℕ → Type 0
StringFits max_bytes s = (length s ≤ max_bytes) × AreBytes s

sized-IsCodec :
    (max_bytes size : ℕ)
    → IsCodec (λ s. StringFits max_bytes s × (length s ≡ size)) (λ s. s) (read_sized max_bytes size)
unfolding read_sized
sized-IsCodec max_bytes size = record {
  decodes = λ s rest e v. rw (
    le→not_ltb max_bytes size (rw (← v.1) v.0.0),
    (chunk-IsCodec _ size).decodes s rest e (v.1, v.0.1),
  );
  exact = λ r s bytes h. elim (Bool-cases (ltb max_bytes size)) [
    | inl long ↦ absurd (let h' = rw (long, read_sized) at h in cc)
    | inr fits ↦
        let h' = rw (fits, read_sized) at h in
        let (v, split, kept) = (chunk-IsCodec (fail invalid_count) size).exact r s bytes h' in
        rw fits (((rw v.0 (not_ltb→le _ _ fits), v.1), v.0), split, kept)
  ];
}

read_string-IsCodec :
    (max_bytes : ℕ)
    → max_bytes < range 4
    → IsCodec (StringFits max_bytes) write_string (read_string max_bytes)
unfolding write_string read_string
read_string-IsCodec max_bytes small =
    bind-IsCodec length (λ s v. let l = v.0 in omega arith) (uint-IsCodec _ 4)
      (λ n v. sized-IsCodec max_bytes n)

-- The numbers fit their widths, and the strings the limits of the decoder.
pub record MessageFits (m : RtcSignalingMessage) : Type 0 where
  pub sender_peer_id : IsU32 m.sender_peer_id
  pub target_peer_id : IsU32 m.target_peer_id
  pub sequence : IsU32 m.sequence
  pub session_id : StringFits 256 m.session_id
  pub payload : StringFits max_rtc_signaling_payload_bytes m.payload

abbrev fields_of : RtcSignalingMessage → Fields
fields_of m = (
  ((((signal_kind_code m.kind, m.sender_peer_id), m.target_peer_id), m.sequence), m.session_id),
  m.payload,
)

read_message-IsCodec : IsCodec MessageFits serialize_rtc_signaling_message read_message
unfolding serialize_rtc_signaling_message read_message
read_message-IsCodec =
    map-IsCodec message_of fields_of
      (λ m v. (
        (
          (
            (
              (
                (
                  (ground (arith, signal_kind-IsEnum.fits m.kind), v.sender_peer_id),
                  v.target_peer_id,
                ),
                v.sequence,
              ),
              v.session_id,
            ),
            v.payload,
          ),
          ground (arith, signal_kind-IsEnum.fits m.kind),
        ),
        λ i. record m { kind = signal_kind-IsEnum.cast-code m.kind i },
      ))
      (λ f v. (
        record {
          sender_peer_id = v.0.0.0.0.0.1;
          target_peer_id = v.0.0.0.0.1;
          sequence = v.0.0.0.1;
          session_id = v.0.0.1;
          payload = v.0.1;
        },
        λ i. (
          (
            (
              (
                (signal_kind-IsEnum.code-cast f.0.0.0.0.0 (leb→le _ _ v.1) i, f.0.0.0.0.1),
                f.0.0.0.1,
              ),
              f.0.0.1,
            ),
            f.0.1,
          ),
          f.1,
        ),
      ))
      (check-IsCodec _ _ (
        uint-IsCodec _ 1
        <⊗> uint-IsCodec _ 4
        <⊗> uint-IsCodec _ 4
        <⊗> uint-IsCodec _ 4
        <⊗> read_string-IsCodec 256 (omega arith)
        <⊗> read_string-IsCodec max_rtc_signaling_payload_bytes (omega arith)))

-- What ValidateRtcSignalingMessage asks for.
pub record IsValid (m : RtcSignalingMessage) : Type 0 where
  pub sender : m.sender_peer_id ≢ 0
  pub session : m.session_id ≢ []
  pub size : length m.payload ≤ max_rtc_signaling_payload_bytes

-- A signaling message is valid exactly when it names a sender and a session and its payload is within
-- the limit.
pub validate_rtc_signaling_message_iff :
    (m : RtcSignalingMessage)
    → (validate_rtc_signaling_message m ≡ ValidationError.no_error) ↔ IsValid m
unfolding validate_rtc_signaling_message
validate_rtc_signaling_message_iff m = (forth m, back m.session_id refl)
  where
    forth :
        (m : RtcSignalingMessage)
        → validate_rtc_signaling_message m ≡ ValidationError.no_error
        → IsValid m
    forth m h = record {
      sender = λ e. ground arith;
      session = λ e. ground arith;
      size = ground arith;
    }

    back :
        (s : List ℕ)
        → m.session_id ≡ s
        → IsValid m
        → validate_rtc_signaling_message m ≡ ValidationError.no_error
    back [] e v = absurd (v.session e)
    back (b ∷ bs) e v = let z = v.sender in let l = v.size in rw e (ground arith)

check_valid-eq-ok :
    (m : RtcSignalingMessage) (error : ValidationError) {m' : RtcSignalingMessage}
    → check_valid m error ≡ (some m', DecodeError.no_error)
    → (m ≡ m') × (error ≡ ValidationError.no_error)
check_valid-eq-ok m ValidationError.no_error h = (some-injective _ _ (ap (λ p. p.0) h), refl)
check_valid-eq-ok m ValidationError.missing_sender h = let z = ap (λ p. p.0) h in absurd (cc)
check_valid-eq-ok m ValidationError.missing_session h = let z = ap (λ p. p.0) h in absurd (cc)
check_valid-eq-ok m ValidationError.payload_too_large h = let z = ap (λ p. p.0) h in absurd (cc)

finished-eq-true :
    (e : DecodeError) (unread : List ℕ)
    → (finished (record { unread = unread; error = e })).0 ≡ true
    → unread ≡ []
unfolding finished
finished-eq-true DecodeError.no_error [] h = refl
finished-eq-true DecodeError.no_error (b ∷ bs) h = cc
finished-eq-true _ unread h = cc

conclude-eq-ok :
    (o : Option RtcSignalingMessage) (r : SignalReader) {m : RtcSignalingMessage}
    → conclude o r ≡ (some m, DecodeError.no_error)
    → (o ≡ some m) × (r.unread ≡ []) × (validate_rtc_signaling_message m ≡ ValidationError.no_error)
conclude-eq-ok none r h = let z = ap (λ p. p.0) h in absurd (cc)
conclude-eq-ok (some x) r h = elim (Bool-cases (finished r).0) [
  | inl ended ↦
      let h' = rw ended at h in
      let (same, valid) = check_valid-eq-ok x (validate_rtc_signaling_message x) h' in
      (ap some same, finished-eq-true r.error r.unread ended, rw (← same) valid)
  | inr open_end ↦ let h' = rw open_end at h in let z = ap (λ p. p.0) h' in absurd (cc)
]

module _ (bytes : List ℕ) (m : RtcSignalingMessage) where
  start : SignalReader
  start = record { unread = bytes; error = DecodeError.no_error }

  -- A signaling message is decoded with no error exactly when it is valid, its numbers and strings are
  -- within the decoder's limits and the bytes are its encoding.
  pub deserialize_rtc_signaling_message_iff :
      AreBytes bytes
      → (deserialize_rtc_signaling_message bytes ≡ (some m, DecodeError.no_error))
        ↔ (MessageFits m × IsValid m × (bytes ≡ serialize_rtc_signaling_message m))
  unfolding deserialize_rtc_signaling_message start
  deserialize_rtc_signaling_message_iff b = (forth, back)
    where
      forth :
          deserialize_rtc_signaling_message bytes ≡ (some m, DecodeError.no_error)
          → MessageFits m × IsValid m × (bytes ≡ serialize_rtc_signaling_message m)
      forth h =
          let (found, ended, valid) =
            conclude-eq-ok (read_message start).0 (read_message start).1 h in
          let (v, split, kept) = read_message-IsCodec.exact start m b found in
          (
            v,
            (validate_rtc_signaling_message_iff m).0 valid,
            split ∙ rw ended (append-nil (serialize_rtc_signaling_message m)),
          )

      back :
          MessageFits m × IsValid m × (bytes ≡ serialize_rtc_signaling_message m)
          → deserialize_rtc_signaling_message bytes ≡ (some m, DecodeError.no_error)
      back h =
          rw (h.2, ← append-nil (serialize_rtc_signaling_message m))
            (rw (
              read_message-IsCodec.decodes m [] DecodeError.no_error h.0,
              deserialize_rtc_signaling_message,
              (validate_rtc_signaling_message_iff m).1 h.1,
            ))
