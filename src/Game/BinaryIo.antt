-- ===== src/Game/BinaryIo.antt =====
-- BinaryReader and BinaryWriter of GameLogic/include/GameLogic/Serialization.hpp. A function that
-- writes to a BinaryWriter is modelled by the bytes that it adds: the class only ever appends.
use brawololo.Prelude.{
  ℕ, suc, ◌≤◌, ◌<◌, ◌≡◌, refl, ◌∙◌, ap, ◌↔◌, Bool, true, false, not, Option, none, some, List, [],
  ◌∷◌, append-nil, arith, leb, ◌==◌, if◌then◌else◌,
}
use brawololo.Prelude.Int.{ℤ}
use brawololo.Wire.Bytes.{AreBytes, range, to_le}
use brawololo.Wire.Reader.{Reader, Read, ◌<$>◌, ◌>>=◌, accept, read_uint}
use brawololo.Wire.Codec.{IsCodec, map-IsCodec, check-IsCodec}
use brawololo.Wire.Ints.{IntFits, read_int, write_int, uint-IsCodec, int-IsCodec}

pub data DecodeError : Type 0 where
  no_error unexpected_eof invalid_boolean invalid_enum invalid_count trailing_bytes : DecodeError

abbrev pub BinaryReader : Type 0
BinaryReader = Reader DecodeError

abbrev first_error : DecodeError → DecodeError → DecodeError
first_error no_error e = e
first_error old e = old

-- The first error stays.
unfoldable pub fail : DecodeError → BinaryReader → BinaryReader
fail e r = record r { error = first_error r.error e }

unfoldable pub read_pod : ℕ → Read DecodeError ℕ
unfolding fail
read_pod = read_uint (fail unexpected_eof)

unfoldable pub read_signed : ℕ → Read DecodeError ℤ
unfolding fail
read_signed = read_int (fail unexpected_eof)

unfoldable pub write_pod : ℕ → ℕ → List ℕ
write_pod = to_le

unfoldable pub write_signed : ℕ → ℤ → List ℕ
write_signed = write_int

-- `cast` is the static_cast from the underlying number.
unfoldable pub read_enum : {A : Type 0} → ℕ → (ℕ → A) → Read DecodeError A
unfolding read_pod fail ◌>>=◌ ◌<$>◌
read_enum max_value cast =
    cast <$> (read_pod 1 >>= accept (fail invalid_enum) (λ v. leb v max_value))

unfoldable pub read_bool : Read DecodeError Bool
unfolding read_pod fail ◌>>=◌ ◌<$>◌
read_bool = (λ v. not (v == 0)) <$> (read_pod 1 >>= accept (fail invalid_boolean) (λ v. leb v 1))

unfoldable pub write_bool : Bool → List ℕ
unfolding write_pod
write_bool b = write_pod 1 (if b then 1 else 0)

unfoldable pub read_count : ℕ → Read DecodeError ℕ
unfolding read_pod fail ◌>>=◌
read_count max_value = read_pod 4 >>= accept (fail invalid_count) (λ v. leb v max_value)

abbrev is_ok : DecodeError → Bool
is_ok no_error = true
is_ok e = false

abbrev is_empty : List ℕ → Bool
is_empty [] = true
is_empty (b ∷ bs) = false

unfoldable pub finish : BinaryReader → Bool × BinaryReader
finish r =
    if is_ok r.error
    then (if is_empty r.unread then (true, r) else (false, record r { error = trailing_bytes }))
    else (false, r)

unfoldable pub finish_decode : {A : Type 0} → BinaryReader → A → Option A
unfolding finish
finish_decode reader value = if (finish reader).0 then some value else none

abbrev finish_found : {A : Type 0} → Option A → BinaryReader → Option A
finish_found none r = none
finish_found (some a) r = finish_decode r a

-- A Deserialize function: a reader over the whole span, the reads, and FinishDecode.
unfoldable pub deserialize : {A : Type 0} → Read DecodeError A → List ℕ → Option A
unfolding finish_decode
deserialize read bytes =
    let (value, reader) = read (record { unread = bytes; error = no_error }) in
    finish_found value reader

pub bool-IsCodec : IsCodec (λ b. Unit {0}) write_bool read_bool
unfolding read_bool write_bool
bool-IsCodec =
    map-IsCodec (λ v. not (v == 0)) (λ b. if b then 1 else 0) bool_back bool_forth
      (check-IsCodec _ _ (uint-IsCodec _ 1))
  where
    bool_back :
        (b : Bool)
        → Unit {0}
        → (((if b then 1 else 0) < range 1) × (leb (if b then 1 else 0) 1 ≡ true))
          × (not ((if b then 1 else 0) == 0) ≡ b)
    bool_back true u = ((omega arith, refl), refl)
    bool_back false u = ((omega arith, refl), refl)

    bool_forth :
        (v : ℕ)
        → (v < range 1) × (leb v 1 ≡ true)
        → Unit {0} × ((if not (v == 0) then 1 else 0) ≡ v)
    bool_forth v h = (tt, ground arith)

-- An enumeration and its underlying numbers, which run from 0 to `max_value`.
pub record IsEnum {A : Type 0} (max_value : ℕ) (code : A → ℕ) (cast : ℕ → A) : Type 0 where
  pub fits : (a : A) → code a ≤ max_value
  pub cast-code : (a : A) → cast (code a) ≡ a
  pub code-cast : (v : ℕ) → v ≤ max_value → code (cast v) ≡ v

abbrev pub write_enum : {A : Type 0} → (A → ℕ) → A → List ℕ
write_enum code a = write_pod 1 (code a)

pub enum-IsCodec :
    {A : Type 0} {max_value : ℕ} {code : A → ℕ} {cast : ℕ → A}
    → max_value < 256
    → IsEnum max_value code cast
    → IsCodec (λ a. Unit {0}) (write_enum code) (read_enum max_value cast)
unfolding read_enum write_pod
enum-IsCodec {max_value} {code} {cast} small e =
    map-IsCodec cast code back forth (check-IsCodec _ _ (uint-IsCodec _ 1))
  where
    back :
        (a : _)
        → Unit {0}
        → ((code a < range 1) × (leb (code a) max_value ≡ true)) × (cast (code a) ≡ a)
    back a u = ((omega (arith, e.fits a), ground (arith, e.fits a)), e.cast-code a)

    forth : (v : ℕ) → (v < range 1) × (leb v max_value ≡ true) → Unit {0} × (code (cast v) ≡ v)
    forth v h = (tt, e.code-cast v (ground arith))

pub pod-IsCodec : (w : ℕ) → IsCodec (λ v. v < range w) (write_pod w) (read_pod w)
unfolding read_pod write_pod
pod-IsCodec w = uint-IsCodec _ w

pub signed-IsCodec :
    (w : ℕ) → IsCodec (IntFits (suc w)) (write_signed (suc w)) (read_signed (suc w))
unfolding read_signed write_signed
signed-IsCodec w = int-IsCodec _ w

pub count-IsCodec :
    (max_value : ℕ)
    → IsCodec (λ v. (v < range 4) × (leb v max_value ≡ true)) (write_pod 4) (read_count max_value)
unfolding read_count
count-IsCodec max_value = check-IsCodec _ _ (pod-IsCodec 4)

finish_decode-eq-some :
    {A : Type 0} (e : DecodeError) (unread : List ℕ) (x : A) {a : A}
    → finish_decode (record { unread = unread; error = e }) x ≡ some a
    → (x ≡ a) × (unread ≡ [])
unfolding finish_decode
finish_decode-eq-some no_error [] x h = ground arith
finish_decode-eq-some no_error (b ∷ bs) x h = cc
finish_decode-eq-some _ unread x h = cc

finish_found-eq-some :
    {A : Type 0} (o : Option A) (r : BinaryReader) {a : A}
    → finish_found o r ≡ some a
    → (o ≡ some a) × (r.unread ≡ [])
finish_found-eq-some none r h = cc
finish_found-eq-some (some x) r h =
    let (same, ended) = finish_decode-eq-some r.error r.unread x h in (ap some same, ended)

module _ {A : Type 0} {P : A → Type 0} {write : A → List ℕ} {read : Read DecodeError A}
    (c : IsCodec P write read) where
  pub deserialize-write : (a : A) → P a → deserialize read (write a) ≡ some a
  unfolding deserialize finish_decode
  deserialize-write a v = rw (← append-nil (write a)) (rw (c.decodes a [] no_error v, deserialize))

  -- A message format: exactly the bytes of the valid values are decoded, each to its value.
  pub deserialize_iff :
      (bytes : List ℕ) (a : A)
      → AreBytes bytes
      → (deserialize read bytes ≡ some a) ↔ (P a × (bytes ≡ write a))
  unfolding deserialize
  deserialize_iff bytes a b = (forth, λ h. rw h.1 (deserialize-write a h.0))
    where
      start : BinaryReader
      start = record { unread = bytes; error = no_error }

      forth : deserialize read bytes ≡ some a → P a × (bytes ≡ write a)
      forth h =
          let (found, ended) = finish_found-eq-some (read start).0 (read start).1 h in
          let (v, split, kept) = c.exact start a b found in
          (v, split ∙ rw ended (append-nil (write a)))
