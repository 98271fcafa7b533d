-- ===== src/Wire/Bytes.antt =====
-- The memory image of an unsigned integer, as `WritePod` and `ReadPod` copy it: on the hosts that
-- the program is built for (x86-64, ARM64, wasm32) the least significant byte stands first.
use brawololo.Prelude.{
  Bool, true, ◌&&◌, ltb, ltb→lt, &&_true, ◌++◌, All-append, ℕ, zero, suc, ◌+◌, ◌*◌, ◌/◌, ◌%◌, ◌<◌,
  ◌≡◌, refl, ap, List, [], ◌∷◌, All, length, arith,
}

abbrev pub IsByte : ℕ → Type 0
IsByte b = b < 256

abbrev pub AreBytes : List ℕ → Type 0
AreBytes = All IsByte

-- 256 ^ w, by recursion on the width.
abbrev pub range : ℕ → ℕ
range zero = 1
range (suc w) = 256 * range w

unfoldable pub to_le : ℕ → ℕ → List ℕ
to_le zero v = []
to_le (suc w) v = (v % 256) ∷ to_le w (v / 256)

unfoldable pub from_le : List ℕ → ℕ
from_le [] = 0
from_le (b ∷ bs) = b + 256 * from_le bs

pub length-to_le : (w v : ℕ) → length (to_le w v) ≡ w
unfolding to_le
length-to_le zero v = refl
length-to_le (suc w) v = ap suc (length-to_le w (v / 256))

pub to_le-AreBytes : (w v : ℕ) → AreBytes (to_le w v)
unfolding to_le
to_le-AreBytes zero v = tt
to_le-AreBytes (suc w) v = (omega arith, to_le-AreBytes w (v / 256))

pub append-to_le-AreBytes : (bs : List ℕ) (w v : ℕ) → AreBytes bs → AreBytes (bs ++ to_le w v)
append-to_le-AreBytes bs w v h = All-append IsByte bs (to_le w v) h (to_le-AreBytes w v)

pub from_le-to_le : (w v : ℕ) → v < range w → from_le (to_le w v) ≡ v
unfolding to_le from_le
from_le-to_le zero v h = omega arith
from_le-to_le (suc w) v h = omega (arith, from_le-to_le w (v / 256) (omega arith))

pub from_le-lt : (bs : List ℕ) → AreBytes bs → from_le bs < range (length bs)
unfolding from_le
from_le-lt [] h = omega arith
from_le-lt (b ∷ bs) h = omega (arith, from_le-lt bs h.1)

pub to_le-from_le : (bs : List ℕ) → AreBytes bs → to_le (length bs) (from_le bs) ≡ bs
unfolding to_le from_le
to_le-from_le [] h = refl
to_le-from_le (b ∷ bs) h =
    let low : (b + 256 * from_le bs) % 256 ≡ b = omega arith in
    let high : (b + 256 * from_le bs) / 256 ≡ from_le bs = omega arith in
    rw (low, high, to_le-from_le bs h.1)

-- The same as a test, for bytes that are known.
abbrev pub are_bytes : List ℕ → Bool
are_bytes [] = true
are_bytes (b ∷ bs) = ltb b 256 && are_bytes bs

pub are_bytes→AreBytes : (bs : List ℕ) → are_bytes bs ≡ true → AreBytes bs
are_bytes→AreBytes [] h = tt
are_bytes→AreBytes (b ∷ bs) h =
    let (small, rest) = &&_true (ltb b 256) (are_bytes bs) h in
    (ltb→lt b 256 small, are_bytes→AreBytes bs rest)
