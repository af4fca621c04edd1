-- ===== src/Table/CountedMove.antt =====
-- The counters of the table of shmutil/qhasharr.c where a slot moves: `_copy_slot` and then `_remove_slot`.
use shmutil.Base.{
  ℕ, ◌<◌, ◌≡◌, ◌≢◌, refl, sym, ap, ◌∙◌, Bool, true, false, ◌==◌, if◌then◌else◌, arith,
}
use shmutil.Atomic.{minus_one}
use shmutil.Table.{Slot, Table, set_slot, copy_slot, remove_slot, incr, decr, extended, collision}
use shmutil.Table.Update.{set_count, set_hash, set_link, move_away}
use shmutil.Table.Linked.{is_head, is_head-ne-zero}
use shmutil.Table.Usage.{set_slot_same, set_slot_other}
use shmutil.Table.Counters.{
  is_used, is_used-true, slots_with, one_if, set_slot-slots_with, alike-IsWithin, IsWithin,
  IsCounting, IsCounting-le, remove_slot-eq,
}

module _ (t : Table) (i e : ℕ) (bi : i < t.maxslots) (zi : (t.slots i).count ≡ 0)
    (be : e < t.maxslots) (ue : (t.slots e).count ≢ 0) where
  abbrev placed : Table
  placed = set_slot t i (t.slots e)

  abbrev copied : Table
  copied = record placed { usedslots = incr t.usedslots }

  abbrev emptied : Table
  emptied = set_slot copied e (record (copied.slots e) { count = 0 })

  copy_slot-eq : (copy_slot t i e).1 ≡ copied
  unfolding copy_slot set_slot
  copy_slot-eq = ground (arith, zi, ue)

  e-ne-i : e ≢ i
  e-ne-i w = ue (ap (λ k. (t.slots k).count) w ∙ zi)

  copied_slot : copied.slots e ≡ t.slots e
  copied_slot = set_slot_other t i e (t.slots e) e-ne-i

  abbrev pub moved : Table
  moved = (remove_slot (copy_slot t i e).1 e).1

  moved-eq : moved ≡ record emptied { usedslots = decr copied.usedslots }
  moved-eq =
      ap (λ k. (remove_slot k e).1) copy_slot-eq
      ∙ remove_slot-eq copied e (λ w. ue (ap (λ (s : Slot). s.count) (sym copied_slot) ∙ w))

  emptied-fields :
      (emptied.maxslots ≡ t.maxslots) × (emptied.num ≡ t.num) × (copied.maxslots ≡ t.maxslots)
  unfolding set_slot
  emptied-fields = (refl, refl, refl)

  emptied-slots_with : (p : ℕ → Bool) → p 0 ≡ false → slots_with p emptied ≡ slots_with p t
  emptied-slots_with p none =
      let (_, _, m) = emptied-fields in
      omega (
        arith,
        set_slot-slots_with p t i (t.slots e) bi,
        set_slot-slots_with p copied e (record (copied.slots e) { count = 0 })
            (omega (arith, m, be)),
        ap (λ (s : Slot). one_if (p s.count)) copied_slot,
        ap one_if none,
        ap (λ c. one_if (p c)) zi,
      )

  pub moved-IsCounting : IsCounting t 0 0 → IsCounting moved 0 0
  moved-IsCounting (small, used, num) =
      let (m, n, _) = emptied-fields in
      let (le, _) = IsCounting-le t 0 0 (small, used, num) in
      rw moved-eq (
        omega (arith, m, small),
        omega (arith, emptied-slots_with is_used refl, used, le, small),
        omega (arith, emptied-slots_with is_head refl, num, n),
      )

  moved-usedslots : IsCounting t 0 0 → moved.usedslots ≡ t.usedslots
  unfolding set_slot
  moved-usedslots (small, used, num) =
      let (le, _) = IsCounting-le t 0 0 (small, used, num) in rw moved-eq (omega (arith, le, small))

  pub moved-IsWithin : (k : ℕ) → IsWithin t k → IsWithin moved k
  moved-IsWithin k (n, le) = (moved-IsCounting n, omega (arith, moved-usedslots n, le))

  pub moved_count : (moved.slots i).count ≡ (t.slots e).count
  moved_count =
      ap (λ (q : Table). (q.slots i).count) moved-eq
      ∙ ap (λ (s : Slot). s.count)
          (set_slot_other copied e i (record (copied.slots e) { count = 0 }) (λ w. e-ne-i (sym w)))
      ∙ ap (λ (s : Slot). s.count) (set_slot_same t i (t.slots e))

-- A count of a slot with a key, a link or a hash do not matter.
pub set_count-IsWithin :
    (t : Table) (k i c : ℕ)
    → is_head (t.slots i).count ≡ true
    → is_head c ≡ true
    → IsWithin t k
    → IsWithin (set_count i c t) k
set_count-IsWithin t k i c h h' n =
    alike-IsWithin t k i (record (t.slots i) { count = c })
      (is_used-true c (is_head-ne-zero c h')
        ∙ sym (is_used-true (t.slots i).count (is_head-ne-zero (t.slots i).count h)))
      (h' ∙ sym h) n

set_link-IsWithin : (t : Table) (k i link : ℕ) → IsWithin t k → IsWithin (set_link i link t) k
set_link-IsWithin t k i link n =
    alike-IsWithin t k i (record (t.slots i) { link = link }) refl refl n

pub fix_hash-IsWithin :
    (t : Table) (k : ℕ) (b : Bool) (i hash : ℕ)
    → IsWithin t k
    → IsWithin (if b then t else set_hash i hash t) k
fix_hash-IsWithin t k true i hash n = n
fix_hash-IsWithin t k false i hash n =
    alike-IsWithin t k i (record (t.slots i) { hash = hash }) refl refl n

either-IsWithin :
    (k : ℕ) (b : Bool) (t t' : Table)
    → IsWithin t k
    → IsWithin t' k
    → IsWithin (if b then t else t') k
either-IsWithin k true t t' n n' = n
either-IsWithin k false t t' n n' = n'

module _ (t : Table) (hash idx : ℕ) (bi : idx < t.maxslots) (zi : (t.slots idx).count ≡ 0)
    (bh : hash < t.maxslots) (uh : (t.slots hash).count ≢ 0) where
  abbrev t₂ : Table
  t₂ = moved t idx hash bi zi bh uh

  abbrev t₃ : Table
  t₃ = set_link (t₂.slots idx).hash idx t₂

  move_away-eq : move_away t hash idx ≡ (
      if (t₂.slots idx).count == extended
      then (if (t₃.slots idx).link == minus_one then t₃ else set_hash (t₃.slots idx).link idx t₃)
      else if (t₂.slots idx).count == collision
      then (if (t₂.slots idx).link == minus_one then t₂ else set_hash (t₂.slots idx).link idx t₂)
      else t₂)
  unfolding move_away
  move_away-eq = refl

  -- the slot of another entry that moves away
  pub move_away-IsWithin : (k : ℕ) → IsWithin t k → IsWithin (move_away t hash idx) k
  move_away-IsWithin k n =
      let n₂ = moved-IsWithin t idx hash bi zi bh uh k n in
      let n₃ = set_link-IsWithin t₂ k (t₂.slots idx).hash idx n₂ in
      let at₃ : Table =
        if (t₃.slots idx).link == minus_one then t₃ else set_hash (t₃.slots idx).link idx t₃ in
      let at₂ : Table =
        if (t₂.slots idx).link == minus_one then t₂ else set_hash (t₂.slots idx).link idx t₂ in
      rw move_away-eq (
        either-IsWithin k ((t₂.slots idx).count == extended) at₃
          (if (t₂.slots idx).count == collision then at₂ else t₂)
          (fix_hash-IsWithin t₃ k ((t₃.slots idx).link == minus_one) (t₃.slots idx).link idx n₃)
          (either-IsWithin k ((t₂.slots idx).count == collision) at₂ t₂
            (fix_hash-IsWithin t₂ k ((t₂.slots idx).link == minus_one) (t₂.slots idx).link idx n₂)
            n₂))
