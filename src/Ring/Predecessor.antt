-- ===== src/Ring/Predecessor.antt =====
-- The loop of `GetPrimaryKeyRange` finds the nearest alive node before a position of the ring.
use hydfs.Prelude.{
  ℕ, zero, suc, ◌+◌, ◌-◌, ◌<◌, ◌≤◌, ◌≡◌, refl, ap, Option, some, List, true, false, length,
  Bool-cases, inl, inr, ◌⊎◌, arith, if◌then◌else◌,
}
use native.Mathlib.Decide.{dec_lt}
use hydfs.Member.{Member}
use hydfs.Ring.{alive_at, alive_predecessor, get_ring_predecessor_idx}
use hydfs.Ring.Indices.{alive_at-lt}

predecessor_idx-suc : (c n : ℕ) → suc c < n → get_ring_predecessor_idx (suc c) n ≡ c
unfolding get_ring_predecessor_idx
predecessor_idx-suc c n l = grind arith

predecessor_idx-zero : (n : ℕ) → 0 < n → get_ring_predecessor_idx zero n ≡ n - 1
unfolding get_ring_predecessor_idx
predecessor_idx-zero n l = grind arith

-- `q` is the nearest alive position before `p`: below it, or else above it with nobody alive below,
-- and `p` itself if nobody else is alive.
abbrev pub Precedes : List Member → ℕ → ℕ → Type 0
Precedes members p q =
    (alive_at members q ≡ true)
    × (((q < p) × ((i : ℕ) → q < i → i < p → alive_at members i ≡ false))
        ⊎ ((p ≤ q)
            × ((i : ℕ) → i < p → alive_at members i ≡ false)
            × ((i : ℕ) → q < i → i < length members → alive_at members i ≡ false)))

abbrev pub Walks : List Member → ℕ → Option ℕ → Type 0
Walks members p o = (q : ℕ) × (o ≡ some q) × Precedes members p q

predecessor_step :
    (members : List Member) (rounds c next : ℕ)
    → get_ring_predecessor_idx c (length members) ≡ next
    → alive_predecessor members (suc rounds) c
      ≡ (if alive_at members next then some next else alive_predecessor members rounds next)
unfolding alive_predecessor
predecessor_step members rounds c next e = rw (← e) refl

module _ (members : List Member) (p : ℕ) (alive : alive_at members p ≡ true) where
  -- from above `p` down to it
  walk_above :
      (rounds c : ℕ)
      → c < length members
      → p < c
      → c ≤ p + rounds
      → ((i : ℕ) → i < p → alive_at members i ≡ false)
      → ((i : ℕ) → c ≤ i → i < length members → alive_at members i ≡ false)
      → Walks members p (alive_predecessor members rounds c)
  walk_above zero c b above few below_dead above_dead = absurd (omega arith)
  walk_above (suc rounds) zero b above few below_dead above_dead = absurd (omega arith)
  walk_above (suc rounds) (suc c) b above few below_dead above_dead =
      rw (predecessor_step members rounds (suc c) c (predecessor_idx-suc c (length members) b))
        (elim (Bool-cases (alive_at members c)) [
          | inl found ↦
              rw found (c, refl, (found, inr (omega arith, below_dead, (λ i l. above_dead i l))))
          | inr dead ↦ rw dead (
              walk_above rounds c (omega arith) (further dead) (omega arith) below_dead (more dead))
        ])
    where
      further : alive_at members c ≡ false → p < c
      further dead = ground (arith, ap (alive_at members) {x = p} {y = c})

      more :
          alive_at members c ≡ false
          → (i : ℕ) → c ≤ i
          → i < length members
          → alive_at members i ≡ false
      more dead i l m = elim (dec_lt c i) [
        | yes h ↦ above_dead i h m
        | no h ↦ let e : i ≡ c = omega arith in rw e dead
      ]

  -- from `p` down to 0, and on from the end of the ring
  walk :
      (rounds c : ℕ)
      → c ≤ p
      → c + length members ≤ p + rounds
      → ((i : ℕ) → c ≤ i → i < p → alive_at members i ≡ false)
      → Walks members p (alive_predecessor members rounds c)
  walk zero c b few dead = absurd (omega (arith, alive_at-lt members p alive))
  walk (suc rounds) zero b few dead =
      let n = length members in
      rw
        (predecessor_step members rounds zero (n - 1)
          (predecessor_idx-zero n (omega (arith, alive_at-lt members p alive))))
        (elim (Bool-cases (alive_at members (n - 1))) [
          | inl found ↦ rw found (
            n - 1,
            refl,
            (
              found,
              inr (
                omega (arith, alive_at-lt members p alive),
                (λ i l. dead i (omega arith) l),
                (λ i l m. absurd (omega arith)),
              ),
            ),
          )
          | inr last_dead ↦ rw last_dead (
              walk_above rounds (n - 1) (omega (arith, alive_at-lt members p alive))
                (further last_dead) (omega arith) (λ i l. dead i (omega arith) l)
                (only_last last_dead))
        ])
    where
      further : alive_at members (length members - 1) ≡ false → p < length members - 1
      further last_dead = ground (
        arith,
        alive_at-lt members p alive,
        ap (alive_at members) {x = p} {y = length members - 1},
      )

      only_last :
          alive_at members (length members - 1) ≡ false
          → (i : ℕ) → length members - 1 ≤ i
          → i < length members
          → alive_at members i ≡ false
      only_last last_dead i l m = let e : i ≡ length members - 1 = omega arith in rw e last_dead
  walk (suc rounds) (suc c) b few dead =
      rw
        (predecessor_step members rounds (suc c) c
          (predecessor_idx-suc c (length members) (omega (arith, alive_at-lt members p alive))))
        (elim (Bool-cases (alive_at members c)) [
          | inl found ↦ rw found (c, refl, (found, inl (omega arith, (λ i l m. dead i l m))))
          | inr here_dead ↦
              rw here_dead (walk rounds c (omega arith) (omega arith) (more here_dead))
        ])
    where
      more : alive_at members c ≡ false → (i : ℕ) → c ≤ i → i < p → alive_at members i ≡ false
      more here_dead i l m = elim (dec_lt c i) [
        | yes h ↦ dead i h m
        | no h ↦ let e : i ≡ c = omega arith in rw e here_dead
      ]

  pub alive_predecessor-Walks : Walks members p (alive_predecessor members (length members) p)
  alive_predecessor-Walks =
      walk (length members) p (omega arith) (omega arith) (λ i l m. absurd (omega arith))
