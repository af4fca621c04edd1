-- ===== src/Table/LeadSlots.antt =====
-- The slots after `qhasharr_remove` of shmutil/qhasharr.c moved another entry to a leading slot.
use shmutil.Base.{ℕ, ◌≡◌, ◌≢◌, ◌∙◌, false, not, ◌&&◌, ◌==◌, if◌then◌else◌, arith}
use shmutil.Atomic.{minus_one}
use shmutil.Table.{Table, set_slot, extended, copy_slot, remove_slot}
use shmutil.Table.Update.{set_count, set_hash}
use shmutil.Table.Freed.{freed, remove_slot-slots, remove_slot-maxslots}
use shmutil.Table.Moved.{moved_slot}

copy_slot-slots :
    (t : Table) (x y j : ℕ)
    → (t.slots x).count ≡ 0
    → (t.slots y).count ≢ 0
    → (copy_slot t x y).1.slots j ≡ (if j == x then t.slots y else t.slots j)
unfolding copy_slot set_slot
copy_slot-slots t x y j z u = ground (arith, z, u)

copy_slot-maxslots : (t : Table) (x y : ℕ) → (copy_slot t x y).1.maxslots ≡ t.maxslots
unfolding copy_slot set_slot
copy_slot-maxslots t x y = ground arith

-- The new count of the leading slot, and the hash of the slot behind it.
module _ (t : Table) (idx c : ℕ) where
  abbrev pub relinked : Table
  relinked =
      let t₄ = set_count idx c t in
      if (t₄.slots idx).link == minus_one then t₄ else set_hash (t₄.slots idx).link idx t₄

  relink_slots :
      (j : ℕ)
      → (t.slots idx).link ≢ idx
      → relinked.slots j ≡ (
          if j == idx
          then record (t.slots idx) { count = c }
          else if not ((t.slots idx).link == minus_one) && j == (t.slots idx).link
          then record (t.slots j) { hash = idx }
          else t.slots j)
  unfolding set_slot
  relink_slots j n = ground (arith, n)

  relink_maxslots : relinked.maxslots ≡ t.maxslots
  unfolding set_slot
  relink_maxslots = ground arith

-- The steps of `move_to_lead` after `_remove_data`.
module _ (t : Table) (idx idx2 c : ℕ) where
  abbrev pub t₃ : Table
  t₃ = (remove_slot (copy_slot t idx idx2).1 idx2).1

  abbrev pub led : Table
  led = relinked t₃ idx c

  module _ (z : (t.slots idx).count ≡ 0) (u : (t.slots idx2).count ≢ 0) (n : idx2 ≢ idx) where
    copied_slot :
        (j : ℕ)
        → t₃.slots j ≡ (
            if j == idx
            then t.slots idx2
            else if j == idx2
            then freed (t.slots idx2)
            else t.slots j)
    copied_slot j =
        let s = copy_slot-slots t idx idx2 in
        let u' : ((copy_slot t idx idx2).1.slots idx2).count ≢ 0 =
          λ w. ground (arith, w, s idx2 z u, n, u) in
        ground (arith, s j z u, s idx2 z u, remove_slot-slots (copy_slot t idx idx2).1 idx2 j u', n)

    pub lead_slots :
        (t.slots idx2).link ≢ idx
        → (t.slots idx2).link ≢ idx2
        → ((t.slots idx2).count == extended) ≡ false
        → (j : ℕ) → j ≢ minus_one
        → led.slots j ≡ (
            if j == idx
            then record (moved_slot t idx2 idx idx) { count = c }
            else moved_slot t idx2 idx j)
    lead_slots n₁ n₂ coll j m =
        let at_idx : t₃.slots idx ≡ t.slots idx2 = ground (arith, copied_slot idx) in
        ground (arith, relink_slots t₃ idx c j, copied_slot j, at_idx, n₁, n₂, coll, m)

    pub lead_maxslots : led.maxslots ≡ t.maxslots
    lead_maxslots =
        relink_maxslots t₃ idx c
        ∙ remove_slot-maxslots (copy_slot t idx idx2).1 idx2
        ∙ copy_slot-maxslots t idx idx2
