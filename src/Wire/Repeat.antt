-- ===== src/Wire/Repeat.antt =====
-- A counted loop of reads that returns early when one of them fails.
use brawololo.Prelude.{
  ℕ, zero, suc, ◌≡◌, refl, ap, List, [], ◌∷◌, ◌++◌, All, length, arith, append_assoc, some, subst,
  sym, ◌∙◌, All-append_right,
}
use brawololo.Wire.Bytes.{AreBytes}
use brawololo.Wire.Reader.{Reader, Read, ◌>>=◌, pure}
use brawololo.Wire.Codec.{IsCodec, continue-eq-some}

abbrev pub write_all : {A : Type 0} → (A → List ℕ) → List A → List ℕ
write_all write [] = []
write_all write (x ∷ xs) = write x ++ write_all write xs

module _ {E A : Type 0} where
  unfoldable pub read_times : ℕ → Read E A → Read E (List A)
  unfolding ◌>>=◌
  read_times zero read = pure []
  read_times (suc n) read = read >>= λ x. read_times n read >>= λ xs. pure (x ∷ xs)

module _ {E A : Type 0} {P : A → Type 0} {write : A → List ℕ} {read : Read E A} where
  module _ (c : IsCodec P write read) where
    times-decodes :
        (n : ℕ) (xs : List A) (rest : List ℕ) (e : E)
        → All P xs
        → length xs ≡ n
        → read_times n read (record { unread = write_all write xs ++ rest; error = e })
          ≡ (some xs, record { unread = rest; error = e })
    unfolding read_times
    times-decodes zero [] rest e v l = refl
    times-decodes zero (x ∷ xs) rest e v l = cc
    times-decodes (suc n) [] rest e v l = cc
    times-decodes (suc n) (x ∷ xs) rest e v l = rw (
      append_assoc,
      c.decodes x (write_all write xs ++ rest) e v.0,
      times-decodes n xs rest e v.1 (omega arith),
    )

    times-exact :
        (n : ℕ) (r : Reader E) (xs : List A)
        → AreBytes r.unread
        → (read_times n read r).0 ≡ some xs
        → (All P xs × (length xs ≡ n))
          × (r.unread ≡ write_all write xs ++ (read_times n read r).1.unread)
          × ((read_times n read r).1.error ≡ r.error)
    unfolding read_times
    times-exact zero r [] bytes h = ((tt, refl), refl, refl)
    times-exact zero r (x ∷ xs) bytes h = cc
    times-exact (suc n) r ys bytes h =
        let (x, found) = continue-eq-some _ (read r).0 (read r).1 h in
        let (vx, sx, ex) = c.exact r x bytes found in
        let bytes' = All-append_right _ (write x) (read r).1.unread (subst AreBytes sx bytes) in
        let h' = rw (found, ◌>>=◌) at h in
        let (xs, found') = continue-eq-some _ (read_times n read (read r).1).0 _ h' in
        let (vs, ss, es) = times-exact n (read r).1 xs bytes' found' in
        let h'' : some (x ∷ xs) ≡ some ys = rw (found', ◌>>=◌) at h' in
        let same : x ∷ xs ≡ ys = ground arith in
        rw (← same, found, found')
          (
            ((vx, vs.0), ap suc vs.1),
            sx ∙ (ap (◌++◌ (write x)) ss ∙ sym (append_assoc (write x) (write_all write xs) _)),
            es ∙ ex,
          )

    pub times-IsCodec :
        (n : ℕ) → IsCodec (λ xs. All P xs × (length xs ≡ n)) (write_all write) (read_times n read)
    times-IsCodec n = record {
      decodes = λ xs rest e v. times-decodes n xs rest e v.0 v.1;
      exact = times-exact n;
    }
