-- ===== src/Table/Counters.antt =====
-- The counters of the table of shmutil/qhasharr.c, `usedslots` and `num`, and the operations on single
-- slots.
use shmutil.Base.{
  ℕ, ◌+◌, ◌≤◌, ◌<◌, ◌^◌, ◌≡◌, ◌≢◌, refl, sym, ap, ◌∙◌, inl, inr, Bool, Bool-cases, true, not, ◌==◌,
  if◌then◌else◌, arith, ℕ_discrete,
}
use shmutil.Table.{Slot, Table, set_slot, remove_slot, decr}
use shmutil.Table.Tally.{tally, tally_le, tally_ext, tally_more}
use shmutil.Table.Linked.{is_head}

abbrev pub is_used : ℕ → Bool
is_used count = not (count == 0)

-- the slots whose count passes the test
abbrev pub slots_with : (ℕ → Bool) → Table → ℕ
slots_with p t = tally (λ j. p (t.slots j).count) t.maxslots

abbrev pub one_if : Bool → ℕ
one_if b = if b then 1 else 0

-- What a write to a slot does to the number of slots with a test.
pub set_slot-slots_with :
    (p : ℕ → Bool) (t : Table) (i : ℕ) (s : Slot)
    → i < t.maxslots
    → slots_with p (set_slot t i s) + one_if (p (t.slots i).count)
      ≡ slots_with p t + one_if (p s.count)
unfolding set_slot
set_slot-slots_with p t i s b =
    let old : ℕ → Bool = λ j. p (t.slots j).count in
    let new : ℕ → Bool = λ j. p (if j == i then s else t.slots j).count in
    let same : (j : ℕ) → j < t.maxslots → j ≢ i → old j ≡ new j = λ j bj n. ground (arith, n) in
    let at : new i ≡ p s.count = ground arith in
    elim (Bool-cases (p (t.slots i).count)) [
      | inl had ↦ elim (Bool-cases (p s.count)) [
        | inl has ↦ omega (
          arith,
          tally_ext old new t.maxslots (λ j bj. elim (ℕ_discrete j i) [
            | yes e ↦ rw e (had ∙ sym has ∙ sym at)
            | no n ↦ same j bj n
          ]),
          ap one_if had,
          ap one_if has,
        )
        | inr not_has ↦ omega (
          arith,
          tally_more new old i t.maxslots b (λ j bj n. sym (same j bj n)) (at ∙ not_has) had,
          ap one_if had,
          ap one_if not_has,
        )
      ]
      | inr had_not ↦ elim (Bool-cases (p s.count)) [
        | inl has ↦ omega (
          arith,
          tally_more old new i t.maxslots b same had_not (at ∙ has),
          ap one_if had_not,
          ap one_if has,
        )
        | inr not_has ↦ omega (
          arith,
          tally_ext old new t.maxslots (λ j bj. elim (ℕ_discrete j i) [
            | yes e ↦ rw e (had_not ∙ sym not_has ∙ sym at)
            | no n ↦ same j bj n
          ]),
          ap one_if had_not,
          ap one_if not_has,
        )
      ]
    ]

-- A write that keeps the test of the slot's count.
pub alike-slots_with :
    (p : ℕ → Bool) (t : Table) (i : ℕ) (s : Slot)
    → p s.count ≡ p (t.slots i).count
    → slots_with p (set_slot t i s) ≡ slots_with p t
unfolding set_slot
alike-slots_with p t i s e =
    tally_ext (λ j. p (if j == i then s else t.slots j).count) (λ j. p (t.slots j).count) t.maxslots
      (λ j b. ground (arith, e))

-- The counters, but for `u` slots and `n` entries that they do not count yet.
abbrev pub IsCounting : Table → ℕ → ℕ → Type 0
IsCounting t u n =
    (t.maxslots < 2 ^ 31)
    × (slots_with is_used t ≡ t.usedslots + u)
    × (slots_with is_head t ≡ t.num + n)

pub IsCounting-le :
    (t : Table) (u n : ℕ)
    → IsCounting t u n
    → (t.usedslots + u ≤ t.maxslots) × (t.num + n ≤ t.maxslots)
IsCounting-le t u n (small, used, num) = (
  omega (arith, used, tally_le (λ j. is_used (t.slots j).count) t.maxslots),
  omega (arith, num, tally_le (λ j. is_head (t.slots j).count) t.maxslots),
)

pub alike-IsCounting :
    (t : Table) (u n i : ℕ) (s : Slot)
    → is_used s.count ≡ is_used (t.slots i).count
    → is_head s.count ≡ is_head (t.slots i).count
    → IsCounting t u n
    → IsCounting (set_slot t i s) u n
unfolding set_slot
alike-IsCounting t u n i s e e' (small, used, num) =
    (small, alike-slots_with is_used t i s e ∙ used, alike-slots_with is_head t i s e' ∙ num)

pub remove_slot-eq :
    (t : Table) (x : ℕ)
    → (t.slots x).count ≢ 0
    → (remove_slot t x).1
      ≡ record (set_slot t x (record (t.slots x) { count = 0 })) { usedslots = decr t.usedslots }
unfolding remove_slot set_slot
remove_slot-eq t x u = ground (arith, u)

pub is_used-true : (count : ℕ) → count ≢ 0 → is_used count ≡ true
is_used-true count u = ground (arith, u)

-- `_remove_slot` on a slot in use
pub remove_slot-used :
    (t : Table) (x : ℕ)
    → t.maxslots < 2 ^ 31
    → x < t.maxslots
    → (t.slots x).count ≢ 0
    → slots_with is_used t ≡ t.usedslots
    → (slots_with is_used (remove_slot t x).1 ≡ (remove_slot t x).1.usedslots)
      × ((remove_slot t x).1.num ≡ t.num)
unfolding set_slot
remove_slot-used t x small b u e =
    let w = set_slot-slots_with is_used t x (record (t.slots x) { count = 0 }) b in
    let le = tally_le (λ j. is_used (t.slots j).count) t.maxslots in
    rw (remove_slot-eq t x u)
      (omega (arith, small, w, le, e, ap one_if (is_used-true (t.slots x).count u)), refl)

-- The counters are right, and at most `k` slots are in use.
abbrev pub IsWithin : Table → ℕ → Type 0
IsWithin t k = IsCounting t 0 0 × (t.usedslots ≤ k)

pub alike-IsWithin :
    (t : Table) (k i : ℕ) (s : Slot)
    → is_used s.count ≡ is_used (t.slots i).count
    → is_head s.count ≡ is_head (t.slots i).count
    → IsWithin t k
    → IsWithin (set_slot t i s) k
unfolding set_slot
alike-IsWithin t k i s e e' (n, le) = (alike-IsCounting t 0 0 i s e e' n, le)
