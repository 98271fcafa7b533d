-- ===== src/Wire/Codec.antt =====
-- A writer and a reader that are inverse to one another, and how such pairs are put together.
use mathlib.Core.Option
use brawololo.Prelude.{
  ℕ, ◌+◌, ◌≡◌, refl, sym, ap, ◌∙◌, inl, inr, Bool, true, Option, none, some, List, ◌++◌,
  append_assoc, All-append_right, All-append_left, arith, Bool-cases, ltb, subst, le→not_ltb,
  not_ltb→le, length, take, drop, length-append, length-take_le, take-append, drop-append,
  take-append-drop,
}
use brawololo.Wire.Bytes.{AreBytes}
use brawololo.Wire.Reader.{Reader, Read, read_chunk, ◌<$>◌, both, ◌<&>◌, continue, ◌>>=◌, accept}

-- What `read` can have consumed if it returns a value.
abbrev pub Exact : {E A : Type 0} → (A → Type 0) → (A → List ℕ) → Read E A → Type 0
Exact {E} {A} Valid write read =
    (r : Reader E) (a : A)
    → AreBytes r.unread
    → (read r).0 ≡ some a
    → Valid a × (r.unread ≡ write a ++ (read r).1.unread) × ((read r).1.error ≡ r.error)

-- It is exact, and returns a valid value from the bytes that are written of it, whatever follows them.
pub record IsCodec {E A : Type 0} (Valid : A → Type 0) (write : A → List ℕ) (read : Read E A)
    : Type 0 where
  pub decodes :
      (a : A) (rest : List ℕ) (e : E)
      → Valid a
      → read (record { unread = write a ++ rest; error = e })
        ≡ (some a, record { unread = rest; error = e })
  pub exact : Exact Valid write read

infixl 66 ◌⊗◌
abbrev pub ◌⊗◌ : {A B : Type 0} → (A → List ℕ) → (B → List ℕ) → A × B → List ℕ
◌⊗◌ f g p = f p.0 ++ g p.1

abbrev pub OnBoth : {A B : Type 0} → (A → Type 0) → (B → Type 0) → A × B → Type 0
OnBoth P Q p = P p.0 × Q p.1

both-eq-some :
    {A B : Type 0} (a : Option A) (b : Option B) {p : A × B}
    → both a b ≡ some p
    → (a ≡ some p.0) × (b ≡ some p.1)
both-eq-some none b h = cc
both-eq-some (some a) none h = cc
both-eq-some (some a) (some b) h = ground arith

map-eq-some :
    {A B : Type 0} (f : A → B) (o : Option A) {b : B}
    → Option.map f o ≡ some b
    → (a : A) × (o ≡ some a) × (f a ≡ b)
map-eq-some f none h = cc
map-eq-some f (some a) h = (a, refl, cc)

module _ {E : Type 0} (fail : Reader E → Reader E) where
  -- Exactly `size` bytes are taken, or none.
  pub chunk-IsCodec :
      (size : ℕ)
      → IsCodec (λ bs. (length bs ≡ size) × AreBytes bs) (λ bs. bs) (read_chunk fail size)
  unfolding read_chunk
  chunk-IsCodec size = record {
    decodes = λ bs rest e v. rw (← v.0) (
        rw (
          length-append bs rest,
          le→not_ltb (length bs + length rest) (length bs) (omega arith),
          take-append bs rest,
          drop-append bs rest,
        ));
    exact = λ r bs bytes h. elim (Bool-cases (ltb (length r.unread) size)) [
      | inl short ↦ absurd (let h' = rw (short, read_chunk) at h in ground arith)
      | inr enough ↦
          let h' = rw (enough, read_chunk) at h in
          let e : take size r.unread ≡ bs = ground arith in
          rw (enough, ← e)
            (
              (
                length-take_le size r.unread (not_ltb→le _ _ enough),
                All-append_left _ (take size r.unread) (drop size r.unread)
                    (rw (take-append-drop size r.unread) bytes),
              ),
              sym (take-append-drop size r.unread),
              refl,
            )
    ];
  }

module _ {E A B : Type 0} {P : A → Type 0} {wa : A → List ℕ} {ra : Read E A} where
  -- Every valid `b` is `to` of a valid value, and is written as that value is.
  pub embed-IsCodec :
      {Q : B → Type 0} {wb : B → List ℕ} (to : A → B)
      → ((b : B) → Q b → (a : A) × P a × (to a ≡ b))
      → ((a : A) → P a → Q (to a) × (wb (to a) ≡ wa a))
      → IsCodec P wa ra
      → IsCodec Q wb (to <$> ra)
  unfolding ◌<$>◌
  embed-IsCodec {Q} {wb} to inner outer c = record {
    decodes = λ b rest e v.
        let (a, va, same) = inner b v in rw (← same, (outer a va).1, c.decodes a rest e va);
    exact = λ r b bytes h.
        let (a, found, same) = map-eq-some to (ra r).0 h in
        let (valid, split, kept) = c.exact r a bytes found in
        let (ok, written) = outer a valid in (subst Q same ok, rw (← same, written) split, kept);
  }

  -- A change of representation, on the valid values.
  pub map-IsCodec :
      {Q : B → Type 0} (to : A → B) (from : B → A)
      → ((b : B) → Q b → P (from b) × (to (from b) ≡ b))
      → ((a : A) → P a → Q (to a) × (from (to a) ≡ a))
      → IsCodec P wa ra
      → IsCodec Q (λ b. wa (from b)) (to <$> ra)
  map-IsCodec to from inner outer =
      embed-IsCodec to (λ b v. (from b, (inner b v).0, (inner b v).1))
        (λ a v. ((outer a v).0, ap wa (outer a v).1))

pub both-Exact :
    {E A B : Type 0} {P : A → Type 0} {Q : B → Type 0} (wa : A → List ℕ) (wb : B → List ℕ)
    (ra : Read E A) (rb : Read E B)
    → Exact P wa ra
    → Exact Q wb rb
    → Exact (OnBoth P Q) (wa ⊗ wb) (ra <&> rb)
unfolding ◌<&>◌
both-Exact wa wb ra rb a b r p bytes h =
    let (ha, hb) = both-eq-some (ra r).0 (rb (ra r).1).0 h in
    let (va, sa, ea) = a r p.0 bytes ha in
    let bytes' = All-append_right _ (wa p.0) (ra r).1.unread (subst AreBytes sa bytes) in
    let (vb, sb, eb) = b (ra r).1 p.1 bytes' hb in
    (
      (va, vb),
      sa ∙ (ap (◌++◌ (wa p.0)) sb ∙ sym (append_assoc (wa p.0) (wb p.1) (rb (ra r).1).1.unread)),
      eb ∙ ea,
    )

module _ {E A B : Type 0} {P : A → Type 0} {Q : B → Type 0} {wa : A → List ℕ} {wb : B → List ℕ}
    {ra : Read E A} {rb : Read E B} where
  infixl 66 ◌<⊗>◌
  pub ◌<⊗>◌ : IsCodec P wa ra → IsCodec Q wb rb → IsCodec (OnBoth P Q) (wa ⊗ wb) (ra <&> rb)
  unfolding ◌<&>◌
  a <⊗> b = record {
    decodes = λ p rest e v.
        rw (append_assoc, a.decodes p.0 (wb p.1 ++ rest) e v.0, b.decodes p.1 rest e v.1);
    exact = both-Exact wa wb ra rb a.exact b.exact;
  }

pub continue-eq-some :
    {E A B : Type 0} (f : A → Read E B) (o : Option A) (r : Reader E) {b : B}
    → (continue f o r).0 ≡ some b
    → (a : A) × (o ≡ some a)
continue-eq-some f none r h = cc
continue-eq-some f (some a) r h = (a, refl)

accept-eq-some :
    {E A : Type 0} (fail : Reader E → Reader E) (test : A → Bool) (x : A) (r : Reader E) {a : A}
    → (accept fail test x r).0 ≡ some a
    → (test x ≡ true) × (x ≡ a)
accept-eq-some fail test x r h = ground arith

module _ {E A : Type 0} {P : A → Type 0} {wa : A → List ℕ} {ra : Read E A} where
  -- A value that is refused unless it passes a test.
  pub check-IsCodec :
      (fail : Reader E → Reader E) (test : A → Bool)
      → IsCodec P wa ra
      → IsCodec (λ a. P a × (test a ≡ true)) wa (ra >>= accept fail test)
  unfolding ◌>>=◌
  check-IsCodec fail test c = record {
    decodes = λ a rest e v. rw (c.decodes a rest e v.0, v.1);
    exact = λ r a bytes h.
        let (x, found) = continue-eq-some (accept fail test) (ra r).0 (ra r).1 h in
        let h' : (accept fail test x (ra r).1).0 ≡ some a = rw (found, ◌>>=◌) at h in
        let (passed, same) = accept-eq-some fail test x (ra r).1 h' in
        let (vx, sx, ex) = c.exact r x bytes found in
        rw (← same, found, passed) ((vx, refl), sx, ex);
  }
