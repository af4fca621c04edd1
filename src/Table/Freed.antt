-- ===== src/Table/Freed.antt =====
-- `_remove_data` of shmutil/qhasharr.c empties the slots of one entry.
use shmutil.Base.{
  ℕ, zero, suc, ◌+◌, ◌-◌, ◌≤◌, ◌<◌, ◌≡◌, ◌≢◌, inl, inr, refl, ap, ◌∙◌, Bool, Bool-cases, true,
  false, dec_lt, not, ◌&&◌, ltb, ◌==◌, if◌then◌else◌, arith,
}
use shmutil.Atomic.{minus_one}
use shmutil.Table.{Slot, Table, set_slot, remove_slot, remove_chain, remove_data}
use shmutil.Table.Linked.{is_head, Linked}
use shmutil.Table.Position.{At, pos_unique, pos-lt-maxslots, next_slot, last_slots}

-- a slot that `_remove_slot` leaves
abbrev pub freed : Slot → Slot
freed s = record s { count = 0 }

pub remove_slot-slots :
    (t : Table) (x j : ℕ)
    → (t.slots x).count ≢ 0
    → (remove_slot t x).1.slots j ≡ (if j == x then freed (t.slots x) else t.slots j)
unfolding remove_slot set_slot
remove_slot-slots t x j u = ground arith

pub remove_slot-maxslots : (t : Table) (x : ℕ) → (remove_slot t x).1.maxslots ≡ t.maxslots
unfolding remove_slot set_slot
remove_slot-maxslots t x = ground arith

pub remove_chain-last :
    (rounds p : ℕ) (t : Table) (x : ℕ)
    → (t.slots x).link == minus_one ≡ true
    → remove_chain (suc rounds) p t x ≡ (remove_slot t x).1
unfolding remove_chain
remove_chain-last rounds p t x e = ground arith

pub remove_chain-more :
    (rounds p : ℕ) (t : Table) (x : ℕ)
    → (t.slots x).link == minus_one ≡ false
    → suc p ≤ t.maxslots
    → remove_chain (suc rounds) p t x
      ≡ remove_chain rounds (suc p) (remove_slot t x).1 (t.slots x).link
unfolding remove_chain
remove_chain-more rounds p t x e h = let k : p + 1 ≡ suc p = omega arith in rw k (ground arith)

module _ (t₀ : Table) (own pos : ℕ → ℕ) (l : Linked t₀ own pos) (idx : ℕ) where
  -- the slots of the entry, and those before place `p`
  abbrev pub of_entry : ℕ → Bool
  of_entry j = not ((t₀.slots j).count == 0) && own j == idx

  abbrev pub gone : ℕ → ℕ → Bool
  gone p j = of_entry j && ltb (pos j) p

  -- the slots of the entry before place `p` are empty, and all others as they were
  abbrev pub IsFreed : (ℕ → Bool) → Table → Type 0
  IsFreed which t =
      (t.maxslots ≡ t₀.maxslots)
      × ((j : ℕ)
          → j < t₀.maxslots
          → t.slots j ≡ (if which j then freed (t₀.slots j) else t₀.slots j))

  step_slot :
      (t : Table) (p x : ℕ)
      → IsFreed (gone p) t
      → At t₀ pos p x
      → own x ≡ idx
      → t.slots x ≡ t₀.slots x
      → (j : ℕ) → j < t₀.maxslots
      → (remove_slot t x).1.slots j ≡ (if gone (suc p) j then freed (t₀.slots j) else t₀.slots j)
  step_slot t p x (m, f) (b, u, e) o same j bj = elim (Bool-cases (j == x)) [
    | inl at_x ↦ ground (arith, at_x, remove_slot-slots t x j, same)
    | inr away ↦
        ground (arith, away, remove_slot-slots t x j, same, f j bj, pos_unique t₀ own pos l p j x)
  ]

  pub step_freed :
      (t : Table) (p x : ℕ)
      → IsFreed (gone p) t
      → At t₀ pos p x
      → own x ≡ idx
      → IsFreed (gone (suc p)) (remove_slot t x).1 × ((t.slots x).link ≡ (t₀.slots x).link)
  step_freed t p x (m, f) (b, u, e) o =
      let same : t.slots x ≡ t₀.slots x = ground (arith, f x b) in
      let slots = λ (j : ℕ) (bj : j < t₀.maxslots). step_slot t p x (m, f) (b, u, e) o same j bj in
      ((remove_slot-maxslots t x ∙ m, slots), ap (λ (s : Slot). s.link) same)

  -- With the last slot of the chain all of it is gone.
  all_freed :
      (p : ℕ) (t : Table) (x : ℕ)
      → IsFreed (gone (suc p)) t
      → At t₀ pos p x
      → own x ≡ idx
      → (t₀.slots x).link ≡ minus_one
      → IsFreed of_entry t
  all_freed p t x (m, f) (b, u, e) o n = (
    m,
    λ j bj. elim (dec_lt p (pos j)) [
      | yes later ↦
          ground
            (arith, f j bj, last_slots t₀ own pos l (pos j - 1) p x j (omega arith) (b, u, e) n)
      | no soon ↦ ground (arith, f j bj)
    ],
  )

  remove_chain-IsFreed :
      (rounds p : ℕ) (t : Table) (x : ℕ)
      → IsFreed (gone p) t
      → At t₀ pos p x
      → own x ≡ idx
      → rounds + p ≡ suc t₀.maxslots
      → IsFreed of_entry (remove_chain rounds p t x)
  remove_chain-IsFreed zero p t x f (b, u, e) o r =
      absurd (omega (arith, pos-lt-maxslots t₀ own pos l x b u))
  remove_chain-IsFreed (suc rounds) p t x f (b, u, e) o r =
      let (f', link) = step_freed t p x f (b, u, e) o in
      let t' = (remove_slot t x).1 in
      elim (Bool-cases ((t.slots x).link == minus_one)) [
        | inl last ↦
            rw (remove_chain-last rounds p t x last)
              (all_freed p t' x f' (b, u, e) o (ground (arith, last, link)))
        | inr more ↦
            let (a', o') = next_slot t₀ own pos l x b u (ground (arith, more, link)) in
            let fits = pos-lt-maxslots t₀ own pos l x b u in
            rw (remove_chain-more rounds p t x more (omega (arith, f.0, fits, e))) (
              remove_chain-IsFreed rounds (suc p) t' (t.slots x).link f' (rw (link, ← e) a')
                (rw link (o' ∙ o)) (omega (arith, r)))
      ]

-- `_remove_data` at the first slot of an entry empties the slots of the entry, and leaves all others.
pub remove_data-IsFreed :
    (t : Table) (own pos : ℕ → ℕ) (l : Linked t own pos) (idx : ℕ)
    → idx < t.maxslots
    → is_head (t.slots idx).count ≡ true
    → IsFreed t own pos l idx (of_entry t own pos l idx) (remove_data t idx).1
unfolding remove_data
remove_data-IsFreed t own pos l idx b h =
    let (o, z) = l.heads idx b h in
    let start : IsFreed t own pos l idx (gone t own pos l idx 0) t = (refl, λ j bj. ground arith) in
    let (m, f) =
      remove_chain-IsFreed t own pos l idx (t.maxslots + 1) 0 t idx start (b, ground arith, z) o
        (omega arith) in
    ground (arith, m, f)
