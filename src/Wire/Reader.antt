-- ===== src/Wire/Reader.antt =====
-- What BinaryReader, PacketReader and SignalReader have in common. `unread` is the part of the span
-- from `offset_` on; a reader is a function of the state, which stops at no error by itself: reads in
-- a row (`<&>`) are all made, and `>>=` is the early return on a missing value.
use mathlib.Core.Option
use brawololo.Prelude.{ℕ, Bool, Option, none, some, List, length, take, drop, ltb, if◌then◌else◌}
use brawololo.Wire.Bytes.{from_le}

pub record Reader (E : Type 0) : Type 0 where
  pub unread : List ℕ
  pub error : E

abbrev pub Read : Type 0 → Type 0 → Type 0
Read E A = Reader E → Option A × Reader E

abbrev pub both : {A B : Type 0} → Option A → Option B → Option (A × B)
both (some a) (some b) = some (a, b)
both (some a) none = none
both none o = none

module _ {E : Type 0} where
  -- if (offset_ + size > bytes_.size()) fail, else the next `size` bytes
  unfoldable pub read_chunk : (Reader E → Reader E) → ℕ → Read E (List ℕ)
  read_chunk fail size r =
      if ltb (length r.unread) size
      then (none, fail r)
      else (some (take size r.unread), record r { unread = drop size r.unread })

  infixl 64 ◌<$>◌
  unfoldable pub ◌<$>◌ : {A B : Type 0} → (A → B) → Read E A → Read E B
  ◌<$>◌ f m r = let (o, r') = m r in (Option.map f o, r')

  infixl 66 ◌<&>◌
  unfoldable pub ◌<&>◌ : {A B : Type 0} → Read E A → Read E B → Read E (A × B)
  ◌<&>◌ m n r = let (a, r1) = m r in let (b, r2) = n r1 in (both a b, r2)

  abbrev pub continue : {A B : Type 0} → (A → Read E B) → Option A → Reader E → Option B × Reader E
  continue f none r = (none, r)
  continue f (some a) r = f a r

  infixl 5 ◌>>=◌
  unfoldable pub ◌>>=◌ : {A B : Type 0} → Read E A → (A → Read E B) → Read E B
  ◌>>=◌ m f r = let (o, r') = m r in continue f o r'

  abbrev pub pure : {A : Type 0} → A → Read E A
  pure a r = (some a, r)

  -- A value that has been read is refused unless it passes a test.
  abbrev pub accept : {A : Type 0} → (Reader E → Reader E) → (A → Bool) → A → Read E A
  accept fail test a r = if test a then (some a, r) else (none, fail r)

  unfoldable pub read_uint : (Reader E → Reader E) → ℕ → Read E ℕ
  unfolding read_chunk ◌<$>◌
  read_uint fail width = from_le <$> read_chunk fail width
