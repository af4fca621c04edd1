-- ===== src/Table/Position.antt =====
-- The place of a slot in the chain of its entry, in a well-formed table of shmutil/qhasharr.c.
use shmutil.Base.{
  ℕ, zero, suc, ◌≤◌, ◌<◌, ◌≡◌, ◌≢◌, refl, sym, ap, ◌∙◌, Bool, dec_lt, not, ◌&&◌, leb, ◌==◌, arith,
}
use shmutil.Atomic.{minus_one}
use shmutil.Table.{Table}
use shmutil.Table.Tally.{tally, tally_le, tally_lt, tally_strict}
use shmutil.Table.Linked.{Linked}

-- Slot `j` is in use, at place `p` of a chain.
abbrev pub At : Table → (ℕ → ℕ) → ℕ → ℕ → Type 0
At t pos p j = (j < t.maxslots) × ((t.slots j).count ≢ 0) × (pos j ≡ p)

module _ (t : Table) (own pos : ℕ → ℕ) (l : Linked t own pos) where
  -- A slot that is not the first of its chain has one before it.
  pub before :
      (p j : ℕ)
      → At t pos (suc p) j
      → At t pos p (t.slots j).hash
        × (own (t.slots j).hash ≡ own j)
        × ((t.slots (t.slots j).hash).link ≡ j)
  before p j (b, u, e) = ground (arith, l.kinds j b u, l.heads j b, l.tails j b)

  first_own : (j : ℕ) → At t pos 0 j → own j ≡ j
  first_own j (b, u, e) = ground (arith, l.kinds j b u, l.heads j b, l.tails j b)

  -- No two slots of a chain have the same place.
  pub pos_unique : (p j k : ℕ) → At t pos p j → At t pos p k → own j ≡ own k → j ≡ k
  pos_unique zero j k a b e = ground (arith, first_own j a, first_own k b)
  pos_unique (suc p) j k a b e =
      let (a', oj, lj) = before p j a in
      let (b', ok, lk) = before p k b in
      let same = pos_unique p (t.slots j).hash (t.slots k).hash a' b' (oj ∙ e ∙ sym ok) in
      sym lj ∙ ap (λ i. (t.slots i).link) same ∙ lk

  -- the slots in use up to place `p`
  abbrev up_to : ℕ → ℕ → Bool
  up_to p j = not ((t.slots j).count == 0) && leb (pos j) p

  pos-lt-tally : (p j : ℕ) → At t pos p j → p < tally (up_to p) t.maxslots
  pos-lt-tally zero j (b, u, e) = ground (arith, tally_lt (up_to 0) j t.maxslots)
  pos-lt-tally (suc p) j a =
      let (b, u, e) = a in
      let (a', _, _) = before p j a in
      omega (
        arith,
        pos-lt-tally p (t.slots j).hash a',
        tally_strict (up_to p) (up_to (suc p)) j t.maxslots b (λ k c h. ground arith) (ground arith)
            (ground arith),
      )

  -- Chains are not longer than the table.
  pub pos-lt-maxslots : (j : ℕ) → j < t.maxslots → (t.slots j).count ≢ 0 → pos j < t.maxslots
  pos-lt-maxslots j b u =
      omega (arith, pos-lt-tally (pos j) j (b, u, refl), tally_le (up_to (pos j)) t.maxslots)

  -- The next slot of a chain, and that a chain ends with the link -1.
  pub next_slot :
      (j : ℕ)
      → j < t.maxslots
      → (t.slots j).count ≢ 0
      → (t.slots j).link ≢ minus_one
      → At t pos (suc (pos j)) (t.slots j).link × (own (t.slots j).link ≡ own j)
  next_slot j b u n = ground (arith, l.links j b u, l.tails (t.slots j).link)

  pub last_slot :
      (p j k : ℕ) → At t pos p j → (t.slots j).link ≡ minus_one → At t pos (suc p) k → own k ≢ own j
  last_slot p j k a e a' o =
      let (b, ob, lb) = before p k a' in
      let same = pos_unique p (t.slots k).hash j b a (ob ∙ o) in
      omega (arith, l.small, a'.0, ap (λ i. (t.slots i).link) same ∙ e, lb)

  pub last_slots :
      (q p j k : ℕ)
      → p ≤ q
      → At t pos p j
      → (t.slots j).link ≡ minus_one
      → At t pos (suc q) k
      → own k ≢ own j
  last_slots zero p j k h a e a' =
      let z : p ≡ 0 = omega arith in last_slot zero j k (rw z at a) e a'
  last_slots (suc q) p j k h a e a' = elim (dec_lt p (suc q)) [
    | yes less ↦ λ o.
        let (b, ob, _) = before (suc q) k a' in
        last_slots q p j (t.slots k).hash (omega arith) a e b (ob ∙ o)
    | no same ↦ let z : p ≡ suc q = omega (arith, same) in last_slot (suc q) j k (rw z at a) e a'
  ]
