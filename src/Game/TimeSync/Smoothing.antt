-- ===== src/Game/TimeSync/Smoothing.antt =====
-- What a NetworkClock reports after any samples.
use brawololo.Prelude.{
  ℕ, suc, ◌+◌, ◌-◌, ◌∙◌, ◌*◌, ◌/◌, ◌%◌, ◌≤◌, ◌^◌, ◌≡◌, refl, List, [], ◌∷◌, All, arith, if-elim,
}
use brawololo.Prelude.Int.{
  ℤ, pos, negsuc, pos_part, neg_part, ◌+ℤ◌, ◌*ℤ◌, ◌≤ℤ◌, sub_ℕ_parts, +ℤ_parts,
}
use brawololo.Game.Types.{TimestampMs}
use brawololo.Game.TimeSync.{
  TimeSyncSample, NetworkClock, create_clock, div_8, measured_rtt, measured_offset, delay_for,
  clock_with, record_sample,
}

abbrev pub record_all : List TimeSyncSample → NetworkClock → NetworkClock
record_all [] clock = clock
record_all (s ∷ ss) clock = record_all ss (record_sample s clock)

-- The parts of the smoothed offset.
div_8_parts :
    (a : ℤ) → (pos_part (div_8 a) ≡ pos_part a / 8) × (neg_part (div_8 a) ≡ neg_part a / 8)
div_8_parts (pos n) = (refl, omega arith)
div_8_parts (negsuc n) = let h = sub_ℕ_parts 0 (suc n / 8) in (h.0 ∙ omega arith, h.1 ∙ omega arith)

times_7_parts :
    (a : ℤ)
    → (pos_part (a *ℤ pos 7) ≡ pos_part a * 7 - neg_part a * 7)
      × (neg_part (a *ℤ pos 7) ≡ neg_part a * 7 - pos_part a * 7)
unfolding ◌*ℤ◌
times_7_parts a =
    let h = sub_ℕ_parts (pos_part a * 7 + neg_part a * 0) (pos_part a * 0 + neg_part a * 7) in
    (h.0 ∙ omega arith, h.1 ∙ omega arith)

smooth-parts :
    (a b : ℤ)
    → (pos_part (div_8 (a *ℤ pos 7 +ℤ b))
        ≡ ((pos_part a * 7 + pos_part b) - (neg_part a * 7 + neg_part b)) / 8)
      × (neg_part (div_8 (a *ℤ pos 7 +ℤ b))
          ≡ ((neg_part a * 7 + neg_part b) - (pos_part a * 7 + pos_part b)) / 8)
smooth-parts a b =
    let d = div_8_parts (a *ℤ pos 7 +ℤ b) in
    let s = +ℤ_parts (a *ℤ pos 7) b in
    let m = times_7_parts a in
    (d.0 ∙ omega (arith, s.0, s.1, m.0, m.1), d.1 ∙ omega (arith, s.0, s.1, m.0, m.1))

smooth-low : (a b lo : ℤ) → lo ≤ℤ a → lo ≤ℤ b → lo ≤ℤ div_8 (a *ℤ pos 7 +ℤ b)
smooth-low a b lo ha hb = let h = smooth-parts a b in omega (arith, h.0, h.1)

smooth-high : (a b hi : ℤ) → a ≤ℤ hi → b ≤ℤ hi → div_8 (a *ℤ pos 7 +ℤ b) ≤ℤ hi
smooth-high a b hi ha hb = let h = smooth-parts a b in omega (arith, h.0, h.1)

delay_for_lem : (rtt : TimestampMs) → (50 ≤ delay_for rtt) × (delay_for rtt ≤ 250)
delay_for_lem rtt = ground arith

smooth_rtt : (a b max : ℕ) → a ≤ max → b ≤ max → (a * 7 + b) % 2 ^ 64 / 8 ≤ max
smooth_rtt a b max ha hb = omega arith

module _ (lo hi : ℤ) (max : TimestampMs) where
  -- What is measured lies within the bounds.
  pub record Measures (s : TimeSyncSample) : Type 0 where
    pub offset_low : lo ≤ℤ measured_offset s
    pub offset_high : measured_offset s ≤ℤ hi
    pub rtt : measured_rtt s ≤ max

  pub record IsWithin (clock : NetworkClock) : Type 0 where
    pub offset_low : lo ≤ℤ clock.server_offset_ms
    pub offset_high : clock.server_offset_ms ≤ℤ hi
    pub rtt : clock.rtt_ms ≤ max
    pub delay_low : 50 ≤ clock.interpolation_delay_ms
    pub delay_high : clock.interpolation_delay_ms ≤ 250

  clock_with-IsWithin :
      (offset : ℤ) (rtt : TimestampMs)
      → lo ≤ℤ offset
      → offset ≤ℤ hi
      → rtt ≤ max
      → IsWithin (clock_with offset rtt)
  clock_with-IsWithin offset rtt l h m = record {
    offset_low = l;
    offset_high = h;
    rtt = m;
    delay_low = (delay_for_lem rtt).0;
    delay_high = (delay_for_lem rtt).1;
  }

  record_sample-IsWithin :
      (s : TimeSyncSample) (clock : NetworkClock)
      → Measures s
      → IsWithin clock
      → IsWithin (record_sample s clock)
  unfolding record_sample
  record_sample-IsWithin s clock m w =
      if-elim IsWithin clock.has_sample _ _
        (λ n.
          clock_with-IsWithin _ _
            (smooth-low clock.server_offset_ms (measured_offset s) lo w.offset_low m.offset_low)
            (smooth-high clock.server_offset_ms (measured_offset s) hi w.offset_high m.offset_high)
            (smooth_rtt clock.rtt_ms (measured_rtt s) max w.rtt m.rtt))
        (λ n. clock_with-IsWithin _ _ m.offset_low m.offset_high m.rtt)

  record_all-IsWithin :
      (ss : List TimeSyncSample) (clock : NetworkClock)
      → All Measures ss
      → IsWithin clock
      → IsWithin (record_all ss clock)
  record_all-IsWithin [] clock m w = w
  record_all-IsWithin (s ∷ ss) clock m w =
      record_all-IsWithin ss (record_sample s clock) m.1 (record_sample-IsWithin s clock m.0 w)

-- After one or more samples on a new clock, the offset and the round trip time lie within any bounds
-- that all measured ones lie in, rounding and the wrap of the round trip time included; the
-- interpolation delay lies between 50 and 250 ms.
pub record_all-create_clock-IsWithin :
    (lo hi : ℤ) (max : TimestampMs) (s : TimeSyncSample) (ss : List TimeSyncSample)
    → Measures lo hi max s
    → All (Measures lo hi max) ss
    → IsWithin lo hi max (record_all (s ∷ ss) create_clock)
unfolding record_sample
record_all-create_clock-IsWithin lo hi max s ss first rest =
    record_all-IsWithin lo hi max ss (record_sample s create_clock) rest
      (clock_with-IsWithin lo hi max _ _ first.offset_low first.offset_high first.rtt)
