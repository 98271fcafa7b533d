-- ===== src/Game/Map/Area.antt =====
-- Which chunks lie in an area of interest.
use mathlib.Core.List.{Memᴰ}
use native.Mathlib.Nat.{le-div_iff_mul-le, zero-div, suc-mul}
use brawololo.Prelude.{
  ℕ, zero, suc, ◌+◌, ◌-◌, ◌*◌, ◌/◌, ◌<◌, ◌≤◌, ◌∙◌, ◌≡◌, ◌↔◌, ◌⊎◌, sym, ap, subst, inl, inr, Bool,
  true, false, List, [], ◌∷◌, ◌++◌, arith, if◌then◌else◌, Bool-cases, &&_true, &&_intro, le→leb,
  leb→le, ltb, ltb→lt, not_ltb→le, lt→ltb, refl,
}
use brawololo.Prelude.Int.{
  ℤ, pos, pos_part, neg_part, ◌+ℤ◌, ◌-ℤ◌, ◌*ℤ◌, ◌/ℤ◌, ltb_ℤ, sub_ℕ_parts, negsuc, ◌≤ℤ◌, abs,
  eq_of_parts, +ℤ_parts, -ℤ_parts,
}
use brawololo.Game.Map.{
  MapConfig, ChunkCoord, is_on_map, chunk_row, chunk_rows, rounds_to, chunks_in_area_of_interest,
  is_chunk_in_area_of_interest,
}

-- `value` is one of the `rounds` numbers from `first` on.
pub record InRounds (first : ℤ) (rounds : ℕ) (value : ℤ) : Type 0 where
  pub from_first : first ≤ℤ value
  pub before_end : pos_part value + neg_part first < pos_part first + neg_part value + rounds

InRounds-cases :
    (first : ℤ) (rounds : ℕ) (value : ℤ)
    → InRounds first (suc rounds) value
    → (first ≡ value) ⊎ InRounds (first +ℤ pos 1) rounds value
InRounds-cases first rounds value h =
    let p = +ℤ_parts first (pos 1) in
    let a = h.from_first in
    let b = h.before_end in
    elim (Bool-cases (ltb (pos_part first + neg_part value) (pos_part value + neg_part first))) [
      | inl less ↦
          let l = ltb→lt _ _ less in
          inr
            (record { from_first = omega (arith, p.0, p.1); before_end = omega (arith, p.0, p.1) })
      | inr reached ↦ let r = not_ltb→le _ _ reached in inl (eq_of_parts first value (omega arith))
    ]

InRounds-first : (first : ℤ) (rounds : ℕ) → InRounds first (suc rounds) first
InRounds-first first rounds = record { from_first = omega arith; before_end = omega arith }

InRounds-later :
    (first : ℤ) (rounds : ℕ) (value : ℤ)
    → InRounds (first +ℤ pos 1) rounds value
    → InRounds first (suc rounds) value
InRounds-later first rounds value h =
    let p = +ℤ_parts first (pos 1) in
    let a = h.from_first in
    let b = h.before_end in
    record { from_first = omega (arith, p.0, p.1); before_end = omega (arith, p.0, p.1) }

Memᴰ-append : {c : ChunkCoord} (xs ys : List ChunkCoord) → Memᴰ c (xs ++ ys) → Memᴰ c xs ⊎ Memᴰ c ys
Memᴰ-append [] ys h = inr h
Memᴰ-append (x ∷ xs) ys (Memᴰ.head e) = inl (Memᴰ.head e)
Memᴰ-append (x ∷ xs) ys (Memᴰ.tail m) = elim (Memᴰ-append xs ys m) [
  | inl l ↦ inl (Memᴰ.tail l)
  | inr r ↦ inr r
]

Memᴰ-append_left : {c : ChunkCoord} (xs ys : List ChunkCoord) → Memᴰ c xs → Memᴰ c (xs ++ ys)
Memᴰ-append_left [] ys m = elim m [ ]
Memᴰ-append_left (x ∷ xs) ys (Memᴰ.head e) = Memᴰ.head e
Memᴰ-append_left (x ∷ xs) ys (Memᴰ.tail m) = Memᴰ.tail (Memᴰ-append_left xs ys m)

Memᴰ-append_right : {c : ChunkCoord} (xs ys : List ChunkCoord) → Memᴰ c ys → Memᴰ c (xs ++ ys)
Memᴰ-append_right [] ys m = m
Memᴰ-append_right (x ∷ xs) ys m = Memᴰ.tail (Memᴰ-append_right xs ys m)

Memᴰ-cases : {c x : ChunkCoord} {xs : List ChunkCoord} → Memᴰ c (x ∷ xs) → (c ≡ x) ⊎ Memᴰ c xs
Memᴰ-cases (Memᴰ.head e) = inl e
Memᴰ-cases (Memᴰ.tail m) = inr m

module _ (config : MapConfig) (c : ChunkCoord) where
  abbrev IsInRow : ℤ → ℤ → ℕ → Type 0
  IsInRow y x rounds = (c.y ≡ y) × InRounds x rounds c.x × (is_on_map config c.x c.y ≡ true)

  chunk_row_mem : (y x : ℤ) (rounds : ℕ) → Memᴰ c (chunk_row config y x rounds) → IsInRow y x rounds
  unfolding chunk_row
  chunk_row_mem y x zero m = elim m [ ]
  chunk_row_mem y x (suc rounds) m =
      let later : Memᴰ c (chunk_row config y (x +ℤ pos 1) rounds) → IsInRow y x (suc rounds) = λ l.
        let (same, within, on) = chunk_row_mem y (x +ℤ pos 1) rounds l in
        (same, InRounds-later x rounds c.x within, on) in
      elim (Bool-cases (is_on_map config x y)) [
        | inl on ↦ elim (Memᴰ-cases (rw on at m)) [
          | inl e ↦ (
            ap (λ (k : ChunkCoord). k.y) e,
            subst (InRounds x (suc rounds)) (sym (ap (λ (k : ChunkCoord). k.x) e))
                (InRounds-first x rounds),
            subst (λ (k : ChunkCoord). is_on_map config k.x k.y ≡ true) (sym e) on,
          )
          | inr l ↦ later l
        ]
        | inr off ↦ later (rw off at m)
      ]

  mem-cons_if :
      (keep : Bool) (x : ChunkCoord) (xs : List ChunkCoord)
      → Memᴰ c xs
      → Memᴰ c (if keep then x ∷ xs else xs)
  mem-cons_if true x xs m = Memᴰ.tail m
  mem-cons_if false x xs m = m

  mem-chunk_row : (y x : ℤ) (rounds : ℕ) → IsInRow y x rounds → Memᴰ c (chunk_row config y x rounds)
  unfolding chunk_row
  mem-chunk_row y x zero (same, within, on) =
      let a = within.from_first in let b = within.before_end in absurd (omega arith)
  mem-chunk_row y x (suc rounds) (same, within, on) = elim (InRounds-cases x rounds c.x within) [
    | inl e ↦
        let here : is_on_map config x y ≡ true =
          subst (λ k. is_on_map config k y ≡ true) (sym e)
            (subst (λ k. is_on_map config c.x k ≡ true) same on) in
        rw here (Memᴰ.head (λ i. record { x = sym e i; y = same i }))
    | inr later ↦
        mem-cons_if (is_on_map config x y) _ _
          (mem-chunk_row y (x +ℤ pos 1) rounds (same, later, on))
  ]

  abbrev IsInRows : ℤ → ℤ → ℕ → ℕ → Type 0
  IsInRows x y columns rounds =
      InRounds x columns c.x × InRounds y rounds c.y × (is_on_map config c.x c.y ≡ true)

  chunk_rows_mem :
      (x y : ℤ) (columns rounds : ℕ)
      → Memᴰ c (chunk_rows config x y columns rounds)
      → IsInRows x y columns rounds
  unfolding chunk_rows
  chunk_rows_mem x y columns zero m = elim m [ ]
  chunk_rows_mem x y columns (suc rounds) m =
      elim (Memᴰ-append (chunk_row config y x columns) _ m) [
        | inl now ↦
            let (same, within, on) = chunk_row_mem y x columns now in
            (within, subst (InRounds y (suc rounds)) (sym same) (InRounds-first y rounds), on)
        | inr later ↦
            let (within, below, on) = chunk_rows_mem x (y +ℤ pos 1) columns rounds later in
            (within, InRounds-later y rounds c.y below, on)
      ]

  mem-chunk_rows :
      (x y : ℤ) (columns rounds : ℕ)
      → IsInRows x y columns rounds
      → Memᴰ c (chunk_rows config x y columns rounds)
  unfolding chunk_rows
  mem-chunk_rows x y columns zero (within, below, on) =
      let a = below.from_first in let b = below.before_end in absurd (omega arith)
  mem-chunk_rows x y columns (suc rounds) (within, below, on) =
      elim (InRounds-cases y rounds c.y below) [
        | inl e ↦
            Memᴰ-append_left (chunk_row config y x columns) _
              (mem-chunk_row y x columns (sym e, within, on))
        | inr later ↦
            Memᴰ-append_right (chunk_row config y x columns) _
              (mem-chunk_rows x (y +ℤ pos 1) columns rounds (within, later, on))
      ]

-- Within the radius of the observer, on one axis.
rounds_to-InRounds :
    (observer radius value : ℤ)
    → InRounds (observer -ℤ radius) (rounds_to (observer -ℤ radius) (observer +ℤ radius)) value
      ↔ (abs (observer -ℤ value) ≤ℤ radius)
rounds_to-InRounds observer radius value =
    let first = observer -ℤ radius in
    let last = observer +ℤ radius in
    let a = -ℤ_parts observer radius in
    let b = +ℤ_parts observer radius in
    let d = -ℤ_parts observer value in
    let e = -ℤ_parts last first in
    let f = +ℤ_parts (last -ℤ first) (pos 1) in
    (
      λ h.
          let low = h.from_first in
          let high = h.before_end in
          omega (arith, a.0, a.1, b.0, b.1, d.0, d.1, e.0, e.1, f.0, f.1),
      λ h. record {
        from_first = omega (arith, a.0, a.1, d.0, d.1);
        before_end = omega (arith, a.0, a.1, b.0, b.1, d.0, d.1, e.0, e.1, f.0, f.1);
      },
    )

div-sub_iff : (k n p q : ℕ) → 0 < n → (q ≡ 0) ⊎ (p ≡ 0) → (k < p / n - q / n) ↔ (suc k * n ≤ p)
div-sub_iff k n p q positive (inl none) =
    let gone : q / n ≡ 0 = ap (λ x. x / n) none ∙ zero-div n in
    let le = le-div_iff_mul-le {k = n} {x = suc k} {y = p} positive in
    (λ h. le.0 (omega (arith, gone)), λ h. let l = le.1 h in omega (arith, gone))
div-sub_iff k n p q positive (inr none) =
    let gone : p / n ≡ 0 = ap (λ x. x / n) none ∙ zero-div n in
    let more : suc k * n ≡ k * n + n = suc-mul k n in
    (λ h. absurd (omega (arith, gone)), λ h. absurd (omega (arith, more)))

*ℤ_pos : (k n : ℕ) → pos k *ℤ pos n ≡ pos (k * n)
unfolding ◌*ℤ◌
*ℤ_pos k n = eq_of_parts _ _ (ground arith)

one_part : (a : ℤ) → (neg_part a ≡ 0) ⊎ (pos_part a ≡ 0)
one_part (pos n) = inl refl
one_part (negsuc n) = inr refl

-- Below the last chunk of an axis is where the chunk's first tile is on the map.
below-chunk_count :
    (x size tiles : ℤ)
    → pos 1 ≤ℤ size
    → pos 0 ≤ℤ x
    → (ltb_ℤ x ((tiles +ℤ size -ℤ pos 1) /ℤ size) ≡ true) ↔ (x *ℤ size ≤ℤ (tiles -ℤ pos 1))
unfolding ◌/ℤ◌
below-chunk_count (negsuc k) size tiles sized left = absurd (omega arith)
below-chunk_count (pos k) (negsuc n) tiles sized left = absurd (omega arith)
below-chunk_count (pos k) (pos n) tiles sized left =
    let sum = tiles +ℤ pos n in
    let a = +ℤ_parts tiles (pos n) in
    let b = -ℤ_parts sum (pos 1) in
    let p = pos_part (sum -ℤ pos 1) in
    let q = neg_part (sum -ℤ pos 1) in
    let d = sub_ℕ_parts (p / n) (q / n) in
    let t = -ℤ_parts tiles (pos 1) in
    let more = suc-mul k n in
    let core = div-sub_iff k n p q (omega arith) (one_part (sum -ℤ pos 1)) in
    rw (*ℤ_pos k n) (
      λ h.
          let l = ltb→lt _ _ h in
          let m = core.0 (omega (arith, d.0, d.1)) in
          omega (arith, a.0, a.1, b.0, b.1, t.0, t.1, more),
      λ h. lt→ltb _ _ (
          let m = core.1 (omega (arith, a.0, a.1, b.0, b.1, t.0, t.1, more)) in
          omega (arith, d.0, d.1)),
    )

is_on_map_iff :
    (config : MapConfig) (x y : ℤ)
    → pos 1 ≤ℤ config.chunk_size_tiles
    → (is_on_map config x y ≡ true) ↔ (
        (pos 0 ≤ℤ x)
        × (pos 0 ≤ℤ y)
        × (x *ℤ config.chunk_size_tiles ≤ℤ (config.width_tiles -ℤ pos 1))
        × (y *ℤ config.chunk_size_tiles ≤ℤ (config.height_tiles -ℤ pos 1)))
is_on_map_iff config x y sized =
    let size = config.chunk_size_tiles in
    let on_x = below-chunk_count x size config.width_tiles sized in
    let on_y = below-chunk_count y size config.height_tiles sized in
    (
      λ on.
          let (on', bottom) = &&_true _ _ on in
          let (on'', right) = &&_true _ _ on' in
          let (left, top) = &&_true _ _ on'' in
          let l = leb→le _ _ left in
          let t = leb→le _ _ top in (l, t, (on_x l).0 right, (on_y t).0 bottom),
      λ (l, t, r, b).
          let corner = &&_intro _ _ (le→leb _ _ l) (le→leb _ _ t) in
          &&_intro _ _ (&&_intro _ _ corner ((on_x l).1 r)) ((on_y t).1 b),
    )

-- With chunks of at least one tile, ChunksInAreaOfInterest lists exactly the chunks that are at most the
-- radius away from the center on each axis, have no negative coordinate, and whose first tile lies
-- within the width and the height of the map in tiles. IsChunkInAreaOfInterest accepts exactly those
-- that are at most the radius away on each axis.
pub chunks_in_area_of_interest_iff :
    (config : MapConfig) (center c : ChunkCoord)
    → pos 1 ≤ℤ config.chunk_size_tiles
    → (let near =
          (abs (center.x -ℤ c.x) ≤ℤ config.interest_radius_chunks)
          × (abs (center.y -ℤ c.y) ≤ℤ config.interest_radius_chunks) in
        ((is_chunk_in_area_of_interest config center c ≡ true) ↔ near)
        × (Memᴰ c (chunks_in_area_of_interest config center) ↔ (
            near
            × (pos 0 ≤ℤ c.x)
            × (pos 0 ≤ℤ c.y)
            × (c.x *ℤ config.chunk_size_tiles ≤ℤ (config.width_tiles -ℤ pos 1))
            × (c.y *ℤ config.chunk_size_tiles ≤ℤ (config.height_tiles -ℤ pos 1)))))
unfolding chunks_in_area_of_interest is_chunk_in_area_of_interest
chunks_in_area_of_interest_iff config center c sized =
    let radius = config.interest_radius_chunks in
    let on_x = rounds_to-InRounds center.x radius c.x in
    let on_y = rounds_to-InRounds center.y radius c.y in
    let on_map = is_on_map_iff config c.x c.y sized in
    (
      (
        λ near. let (near_x, near_y) = &&_true _ _ near in (leb→le _ _ near_x, leb→le _ _ near_y),
        λ (near_x, near_y). &&_intro _ _ (le→leb _ _ near_x) (le→leb _ _ near_y),
      ),
      (
        λ m.
            let (column, row, on) = chunk_rows_mem config c _ _ _ _ m in
            let (l, t, r, b) = on_map.0 on in ((on_x.0 column, on_y.0 row), l, t, r, b),
        λ ((near_x, near_y), l, t, r, b).
            mem-chunk_rows config c _ _ _ _ (on_x.1 near_x, on_y.1 near_y, on_map.1 (l, t, r, b)),
      ),
    )
