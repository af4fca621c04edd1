-- ===== src/Table/Search.antt =====
-- `_find_empty` of shmutil/qhasharr.c finds an empty slot exactly where there is one.
use shmutil.Base.{
  ℕ, zero, suc, ◌+◌, ◌-◌, ◌*◌, ◌%◌, ◌^◌, ◌/◌, ◌≤◌, ◌<◌, ◌≡◌, ◌≢◌, ◌⊎◌, inl, inr, refl, Option-cases,
  none, some, arith,
}
use shmutil.Table.{
  Table, next_idx, find_empty_from, find_empty, zero_slot, header_size, slot_size,
  calculate_memsize, qhasharr,
}

module _ (t : Table) where
  -- `j` comes before `start` on the way round from `idx`
  abbrev Ahead : ℕ → ℕ → ℕ → Type 0
  Ahead start idx j =
      ((idx < start) × (idx ≤ j) × (j < start)) ⊎ ((start ≤ idx) × ((idx ≤ j) ⊎ (j < start)))

  -- the rounds to `start`
  abbrev Enough : ℕ → ℕ → ℕ → Type 0
  Enough start idx rounds =
      ((idx < start) × (start ≤ rounds + idx))
      ⊎ ((start ≤ idx) × (t.maxslots + start ≤ rounds + idx))

  find_empty_from-some :
      (start rounds idx i : ℕ)
      → idx < t.maxslots
      → find_empty_from t start rounds idx ≡ some i
      → (i < t.maxslots) × ((t.slots i).count ≡ 0)
  unfolding find_empty_from
  find_empty_from-some start zero idx i h e = absurd (cc)
  find_empty_from-some start (suc rounds) idx i h e =
      ground (arith, find_empty_from-some start rounds (next_idx t idx) i)

  find_empty_from-none :
      (start rounds idx j : ℕ)
      → start < t.maxslots
      → idx < t.maxslots
      → j < t.maxslots
      → Enough start idx rounds
      → Ahead start idx j
      → find_empty_from t start rounds idx ≡ none
      → (t.slots j).count ≢ 0
  unfolding find_empty_from
  find_empty_from-none start zero idx j s h b n a e = omega arith
  find_empty_from-none start (suc rounds) idx j s h b n a e =
      ground (arith, find_empty_from-none start rounds (next_idx t idx) j)

  -- An index that `_find_empty` gives is that of an empty slot.
  pub find_empty-some :
      (start i : ℕ) → find_empty t start ≡ some i → (i < t.maxslots) × ((t.slots i).count ≡ 0)
  unfolding find_empty
  find_empty-some start i e =
      ground (
        arith,
        find_empty_from-some start t.maxslots start i,
        find_empty_from-some 0 t.maxslots 0 i,
      )

  -- Where `_find_empty` gives -1, no slot is empty.
  pub find_empty-none :
      (start j : ℕ) → find_empty t start ≡ none → j < t.maxslots → (t.slots j).count ≢ 0
  unfolding find_empty
  find_empty-none start j e b =
      ground (
        arith,
        find_empty_from-none start t.maxslots start j,
        find_empty_from-none 0 t.maxslots 0 j,
      )

-- `_find_empty` gives the index of an empty slot, and -1 only where every slot is in use: its rounds
-- are enough, whatever slot it starts from.
pub find_empty_lem :
    (t : Table) (start : ℕ)
    → ((i : ℕ) × (find_empty t start ≡ some i) × (i < t.maxslots) × ((t.slots i).count ≡ 0))
      ⊎ ((find_empty t start ≡ none) × ((j : ℕ) → j < t.maxslots → (t.slots j).count ≢ 0))
find_empty_lem t start = elim (Option-cases (find_empty t start)) [
  | inl e ↦ inr (e, λ j b. find_empty-none t start j e b)
  | inr (i, e) ↦ let (b, empty) = find_empty-some t start i e in inl (i, e, b, empty)
]

-- `qhasharr` makes exactly the slots for which `qhasharr_calculate_memsize` gave the size, all empty,
-- and they end with the memory. The number of slots is above 0 and below 2 ^ 31.
pub qhasharr-calculate_memsize :
    (max errno : ℕ)
    → 0 < max
    → max < 2 ^ 31
    → (t : Table) × (qhasharr (calculate_memsize max) errno ≡ some t)
      × (t.maxslots ≡ max)
      × (header_size + slot_size * t.maxslots ≡ calculate_memsize max)
      × ((i : ℕ) → (t.slots i).count ≡ 0)
unfolding qhasharr calculate_memsize
qhasharr-calculate_memsize max errno p h =
    let slots : ((12 + 260 * max) % 2 ^ 64 + 2 ^ 64 - 12) % 2 ^ 64 / 260 % 2 ^ 32 ≡ max =
      omega arith in
    (
      record { maxslots = max; usedslots = 0; num = 0; slots = λ i. zero_slot; errno = errno },
      ground (arith, slots),
      refl,
      omega arith,
      λ i. refl,
    )
