-- ===== src/Wire/Bind.antt =====
-- A value that says how the rest is read. The reader of that value may look at how many bytes follow
-- it: `Room a rest` is what it wants of them.
use brawololo.Prelude.{
  ℕ, ◌≡◌, refl, sym, ap, ◌∙◌, some, List, ◌++◌, append_assoc, All-append_right, subst,
}
use brawololo.Wire.Bytes.{AreBytes}
use brawololo.Wire.Reader.{Read, ◌<&>◌, ◌>>=◌}
use brawololo.Wire.Codec.{IsCodec, Exact, OnBoth, ◌⊗◌, both-Exact, continue-eq-some}

pub record IsHead {E A : Type 0} (Room : A → List ℕ → Type 0) (Valid : A → Type 0)
    (write : A → List ℕ) (read : Read E A) : Type 0 where
  pub decodes :
      (a : A) (rest : List ℕ) (e : E)
      → Valid a
      → Room a rest
      → read (record { unread = write a ++ rest; error = e })
        ≡ (some a, record { unread = rest; error = e })
  pub exact : Exact Valid write read

module _ {E A B : Type 0} {P : A → Type 0} {Q : B → Type 0} {wa : A → List ℕ} {wb : B → List ℕ}
    {ra : Read E A} {f : A → Read E B} (tag : B → A) where
  pub bind_head-IsCodec :
      {Room : A → List ℕ → Type 0}
      → ((b : B) → Q b → P (tag b))
      → ((b : B) (rest : List ℕ) → Q b → Room (tag b) (wb b ++ rest))
      → IsHead Room P wa ra
      → ((a : A) → P a → IsCodec (λ b. Q b × (tag b ≡ a)) wb (f a))
      → IsCodec Q (λ b. wa (tag b) ++ wb b) (ra >>= f)
  unfolding ◌>>=◌
  bind_head-IsCodec tagged room ca cb = record {
    decodes = λ b rest e v. rw (
      append_assoc,
      ca.decodes (tag b) (wb b ++ rest) e (tagged b v) (room b rest v),
      (cb (tag b) (tagged b v)).decodes b rest e (v, refl),
    );
    exact = λ r b bytes h.
        let (a, found) = continue-eq-some f (ra r).0 (ra r).1 h in
        let (va, sa, ea) = ca.exact r a bytes found in
        let bytes' = All-append_right _ (wa a) (ra r).1.unread (subst AreBytes sa bytes) in
        let h' : (f a (ra r).1).0 ≡ some b = rw (found, ◌>>=◌) at h in
        let (vb, sb, eb) = (cb a va).exact (ra r).1 b bytes' h' in
        rw (found, vb.1)
          (
            vb.0,
            sa ∙ (ap (◌++◌ (wa a)) sb ∙ sym (append_assoc (wa a) (wb b) (f a (ra r).1).1.unread)),
            eb ∙ ea,
          );
  }

  pub bind-IsCodec :
      ((b : B) → Q b → P (tag b))
      → IsCodec P wa ra
      → ((a : A) → P a → IsCodec (λ b. Q b × (tag b ≡ a)) wb (f a))
      → IsCodec Q (λ b. wa (tag b) ++ wb b) (ra >>= f)
  bind-IsCodec tagged ca cb =
      bind_head-IsCodec {Room = λ a rest. Unit {0}} tagged (λ b rest v. tt)
        (record { decodes = λ a rest e v u. ca.decodes a rest e v; exact = ca.exact }) cb

module _ {E A B : Type 0} {P : A → Type 0} {Q : B → Type 0} {wa : A → List ℕ} {wb : B → List ℕ}
    {ra : Read E A} {rb : Read E B} {Room : B → List ℕ → Type 0} where
  pub last-IsHead :
      IsCodec P wa ra
      → IsHead Room Q wb rb
      → IsHead (λ p rest. Room p.1 rest) (OnBoth P Q) (wa ⊗ wb) (ra <&> rb)
  unfolding ◌<&>◌
  last-IsHead a b = record {
    decodes = λ p rest e v room.
        rw (append_assoc, a.decodes p.0 (wb p.1 ++ rest) e v.0, b.decodes p.1 rest e v.1 room);
    exact = both-Exact wa wb ra rb a.exact b.exact;
  }
