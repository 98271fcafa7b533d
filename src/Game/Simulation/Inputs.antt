-- ===== src/Game/Simulation/Inputs.antt =====
-- The inputs that Submit of GameLogic/src/Simulation.cpp accepts: whose they are, and their order.
use mathlib.Core.Bool.{true≢false}
use brawololo.Prelude.{
  ℕ, ◌+◌, ◌<◌, ◌≤◌, ◌≡◌, sym, ap, ◌∙◌, true, false, Option, none, some, List, [], ◌∷◌, ◌++◌, length,
  leb, All, All-append, All-imp, arith, ◌==◌, ==_iff, Bool-cases, inl, inr,
}
use brawololo.Prelude.Maps.{lookup, assign, lookup-assign, lookup-assign_other}
use brawololo.Game.Types.{ClientId, CommandSequence, NetworkEntityId}
use brawololo.Game.Commands.{ClientInputPacket}
use brawololo.Game.Components.{has}
use brawololo.Game.Simulation.{is_old}

abbrev Players : Type 0
Players = List (ClientId × NetworkEntityId)

abbrev Sequences : Type 0
Sequences = List (ClientId × CommandSequence)

-- Of a client that has a player, and not after the last accepted input of that client.
abbrev pub IsAccepted : Players → Sequences → ClientInputPacket → Type 0
IsAccepted players last p =
    (has (lookup p.header.client_id players) ≡ true)
    × (is_old (lookup p.header.client_id last) p.header.sequence ≡ true)

abbrev pub IsBefore : ClientInputPacket → ClientInputPacket → Type 0
IsBefore p q = p.header.client_id ≡ q.header.client_id → p.header.sequence < q.header.sequence

-- The sequence numbers of each client increase.
abbrev pub AreInOrder : List ClientInputPacket → Type 0
AreInOrder [] = Unit {0}
AreInOrder (p ∷ rest) = All (IsBefore p) rest × AreInOrder rest

abbrev pub AreAccepted : Players → Sequences → List ClientInputPacket → Type 0
AreAccepted players last inputs = All (IsAccepted players last) inputs × AreInOrder inputs

AreInOrder-append :
    (inputs : List ClientInputPacket) (q : ClientInputPacket)
    → AreInOrder inputs
    → All (λ p. IsBefore p q) inputs
    → AreInOrder (inputs ++ q ∷ [])
AreInOrder-append [] q h b = (tt, tt)
AreInOrder-append (p ∷ rest) q h b =
    (All-append (IsBefore p) rest (q ∷ []) h.0 (b.0, tt), AreInOrder-append rest q h.1 b.1)

is_old_before :
    (last : Option CommandSequence) (m n : CommandSequence)
    → is_old last m ≡ true
    → is_old last n ≡ false
    → m < n
is_old_before none m n h k = absurd (cc)
is_old_before (some l) m n h k = ground arith

not_old_le :
    (last : Option CommandSequence) (m n : CommandSequence)
    → is_old last m ≡ true
    → is_old last n ≡ false
    → leb m n ≡ true
not_old_le none m n h k = absurd (cc)
not_old_le (some l) m n h k = ground arith

leb_refl : (n : ℕ) → leb n n ≡ true
leb_refl n = ground arith

assign-IsAccepted :
    (players : Players) (last : Sequences) (p q : ClientInputPacket)
    → is_old (lookup q.header.client_id last) q.header.sequence ≡ false
    → IsAccepted players last p
    → IsAccepted players (assign q.header.client_id q.header.sequence last) p
assign-IsAccepted players last p q fresh h =
    let c = p.header.client_id in
    let d = q.header.client_id in
    elim (Bool-cases (c == d)) [
      | inl same ↦
          let e = (==_iff c d).0 same in
          (
            h.0,
            ap (λ x. is_old (lookup x (assign d q.header.sequence last)) p.header.sequence) e
                ∙ ap (λ o. is_old o p.header.sequence) (lookup-assign d q.header.sequence last)
                ∙ not_old_le (lookup d last) p.header.sequence q.header.sequence
                    (sym (ap (λ x. is_old (lookup x last) p.header.sequence) e) ∙ h.1) fresh,
          )
      | inr other ↦ (
        h.0,
        ap (λ o. is_old o p.header.sequence)
              (lookup-assign_other d c q.header.sequence last (ground arith))
            ∙ h.1,
      )
    ]

-- A fresh input of a player's client is accepted after the others.
pub AreAccepted-append :
    (players : Players) (last : Sequences) (inputs : List ClientInputPacket) (q : ClientInputPacket)
    → AreAccepted players last inputs
    → has (lookup q.header.client_id players) ≡ true
    → is_old (lookup q.header.client_id last) q.header.sequence ≡ false
    → AreAccepted players (assign q.header.client_id q.header.sequence last) (inputs ++ q ∷ [])
AreAccepted-append players last inputs q h known fresh =
    let d = q.header.client_id in
    (
      All-append (IsAccepted players (assign d q.header.sequence last)) inputs (q ∷ [])
          (All-imp _ _ (λ p. assign-IsAccepted players last p q fresh) inputs h.0)
          (
            (
              known,
              ap (λ o. is_old o q.header.sequence) (lookup-assign d q.header.sequence last)
                  ∙ leb_refl q.header.sequence,
            ),
            tt,
          ),
      AreInOrder-append inputs q h.1 (
          All-imp (IsAccepted players last) (λ p. IsBefore p q)
            (λ p a same.
              is_old_before (lookup d last) p.header.sequence q.header.sequence
                (sym (ap (λ x. is_old (lookup x last) p.header.sequence) same) ∙ a.1) fresh)
            inputs h.0),
    )

-- A new client's player and sequence take nothing from the others.
pub AreAccepted-login :
    (players : Players) (last : Sequences) (inputs : List ClientInputPacket) (client : ClientId)
    (id : NetworkEntityId) (sequence : CommandSequence)
    → has (lookup client players) ≡ false
    → AreAccepted players last inputs
    → AreAccepted (assign client id players) (assign client sequence last) inputs
AreAccepted-login players last inputs client id sequence new h =
    (All-imp _ _ (λ p a. kept p a) inputs h.0, h.1)
  where
    kept :
        (p : ClientInputPacket)
        → IsAccepted players last p
        → IsAccepted (assign client id players) (assign client sequence last) p
    kept p a =
        let c = p.header.client_id in
        elim (Bool-cases (c == client)) [
          | inl same ↦
              let e = (==_iff c client).0 same in
              let gone = ap (λ x. has (lookup x players)) e in
              absurd (true≢false (sym a.0 ∙ gone ∙ new))
          | inr other ↦ (
            ap has (lookup-assign_other client c id players (ground arith)) ∙ a.0,
            ap (λ o. is_old o p.header.sequence)
                  (lookup-assign_other client c sequence last (ground arith))
                ∙ a.1,
          )
        ]

pub length-assign :
    {A : Type 0} (k : ℕ) (a : A) (m : List (ℕ × A)) → length (assign k a m) ≤ length m + 1
unfolding assign
length-assign k a [] = omega arith
length-assign k a (e ∷ m) = let ih = length-assign k a m in ground arith
