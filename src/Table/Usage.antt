-- ===== src/Table/Usage.antt =====
-- The number of slots in use in the table of shmutil/qhasharr.c.
use shmutil.Base.{
  ℕ, zero, suc, ◌+◌, ◌≤◌, ◌<◌, ◌≡◌, ◌≢◌, Bool-cases, inl, inr, refl, ◌==◌, if◌then◌else◌, arith,
}
use shmutil.Table.{Slot, Table, set_slot}

pub set_slot_same : (t : Table) (i : ℕ) (s : Slot) → (set_slot t i s).slots i ≡ s
unfolding set_slot
set_slot_same t i s = ground arith

pub set_slot_other : (t : Table) (i j : ℕ) (s : Slot) → j ≢ i → (set_slot t i s).slots j ≡ t.slots j
unfolding set_slot
set_slot_other t i j s h = ground arith

abbrev pub one_if_used : Slot → ℕ
one_if_used s = if s.count == 0 then 0 else 1

-- the slots in use below `n`
abbrev pub used : (ℕ → Slot) → ℕ → ℕ
used slots zero = 0
used slots (suc n) = one_if_used (slots n) + used slots n

pub used-le : (slots : ℕ → Slot) (n : ℕ) → used slots n ≤ n
used-le slots zero = omega arith
used-le slots (suc n) = ground (arith, used-le slots n)

-- What a write to one slot does to the number of slots in use.
used-set_slot_out :
    (t : Table) (i : ℕ) (s : Slot) (n : ℕ) → n ≤ i → used (set_slot t i s).slots n ≡ used t.slots n
unfolding set_slot
used-set_slot_out t i s zero h = refl
used-set_slot_out t i s (suc n) h = ground (arith, used-set_slot_out t i s n)

pub used-set_slot :
    (t : Table) (i : ℕ) (s : Slot) (n : ℕ)
    → i < n
    → used (set_slot t i s).slots n + one_if_used (t.slots i) ≡ used t.slots n + one_if_used s
unfolding set_slot
used-set_slot t i s zero h = absurd (omega arith)
used-set_slot t i s (suc n) h = elim (Bool-cases (n == i)) [
  | inl e ↦ ground (arith, e, used-set_slot_out t i s n)
  | inr e ↦ ground (arith, e, used-set_slot t i s n)
]

pub used_pos : (slots : ℕ → Slot) (i n : ℕ) → i < n → (slots i).count ≢ 0 → 1 ≤ used slots n
used_pos slots i zero h u = absurd (omega arith)
used_pos slots i (suc n) h u = elim (Bool-cases (n == i)) [
  | inl e ↦ ground (arith, e)
  | inr e ↦ ground (arith, e, used_pos slots i n)
]
