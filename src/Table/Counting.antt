-- ===== src/Table/Counting.antt =====
-- The counters of the table of shmutil/qhasharr.c while `_put_data` stores an entry: each slot is counted
-- with its part of the value, and the entry with the first.
use shmutil.Base.{
  ℕ, suc, ◌+◌, ◌-◌, ◌<◌, ◌≡◌, ◌≢◌, refl, sym, ap, ◌∙◌, Bool, true, false, ◌==◌, if◌then◌else◌, List,
  length, arith,
}
use shmutil.Memory.{memcpy}
use shmutil.Atomic.{minus_one}
use shmutil.Table.{Slot, Table, set_slot, extended, incr, zero_slot}
use shmutil.Table.Store.{store_key, extend, copysize, store_part, pointer}
use shmutil.Table.Linked.{is_head}
use shmutil.Table.Counters.{
  is_used, slots_with, one_if, set_slot-slots_with, alike-slots_with, IsCounting, IsCounting-le,
}
use shmutil.Table.Usage.{set_slot_same}

-- A write to an empty slot makes one slot more.
filled-slots_with :
    (p : ℕ → Bool) (t : Table) (i : ℕ) (s : Slot)
    → i < t.maxslots
    → p (t.slots i).count ≡ false
    → slots_with p (set_slot t i s) ≡ slots_with p t + one_if (p s.count)
filled-slots_with p t i s b e = omega (arith, set_slot-slots_with p t i s b, ap one_if e)

module _ (t : Table) (n : ℕ) (value : List ℕ) (save : ℕ) where
  abbrev filled : Slot
  filled = record (t.slots n) {
    contents =
        memcpy (t.slots n).contents 0 (pointer value) save
          (copysize (t.slots n) (length value - save));
    size = copysize (t.slots n) (length value - save);
  }

  store_part-eq : store_part t n value save ≡ record (set_slot t n filled) {
    num = if (t.slots n).count == extended then t.num else incr t.num;
    usedslots = incr t.usedslots;
  }
  unfolding store_part set_slot
  store_part-eq = refl

  part_slots : (p : ℕ → Bool) → slots_with p (set_slot t n filled) ≡ slots_with p t
  part_slots p = alike-slots_with p t n filled refl

  num_more :
      (t.slots n).count ≡ extended
      → (if (t.slots n).count == extended then t.num else incr t.num) ≡ t.num
  num_more e = ground (arith, e)

  num_first :
      (t.slots n).count ≢ extended
      → (if (t.slots n).count == extended then t.num else incr t.num) ≡ incr t.num
  num_first u = ground (arith, u)

  -- in a slot behind the first
  pub part_more-IsCounting :
      (t.slots n).count ≡ extended → IsCounting t 1 0 → IsCounting (store_part t n value save) 0 0
  unfolding set_slot
  part_more-IsCounting e (small, used, num) =
      let (le, _) = IsCounting-le t 1 0 (small, used, num) in
      rw store_part-eq (
        small,
        omega (arith, part_slots is_used, used, le, small),
        omega (arith, part_slots is_head, num, num_more e),
      )

  -- in the first slot of an entry
  pub part_first-IsCounting :
      (t.slots n).count ≢ extended → IsCounting t 1 1 → IsCounting (store_part t n value save) 0 0
  unfolding set_slot
  part_first-IsCounting u (small, used, num) =
      let (le, le') = IsCounting-le t 1 1 (small, used, num) in
      rw store_part-eq (
        small,
        omega (arith, part_slots is_used, used, le, small),
        omega (arith, part_slots is_head, num, num_first u, le', small),
      )

module _ (t : Table) (n m : ℕ) (un : (t.slots n).count ≢ 0) (bm : m < t.maxslots)
    (zm : (t.slots m).count ≡ 0) where
  abbrev fresh : Slot
  fresh = record zero_slot { count = extended; hash = n; link = minus_one; size = 0 }

  abbrev grown : Table
  grown = set_slot t m fresh

  extend-eq : extend t n m ≡ set_slot grown n (record (grown.slots n) { link = m })
  unfolding extend
  extend-eq = refl

  -- A new slot of an entry, which is not counted yet.
  extend-slots_with :
      (p : ℕ → Bool)
      → p 0 ≡ false
      → slots_with p (extend t n m) ≡ slots_with p t + one_if (p extended)
  extend-slots_with p e =
      ap (slots_with p) extend-eq
      ∙ alike-slots_with p grown n (record (grown.slots n) { link = m }) refl
      ∙ filled-slots_with p t m fresh bm (ap p zm ∙ e)

  pub extend_slot : ((extend t n m).slots m).count ≡ extended
  unfolding extend set_slot
  extend_slot = ground arith

  pub round_slot :
      (value : List ℕ) (save : ℕ)
      → ((store_part (extend t n m) m value save).slots m).count ≡ extended
  round_slot value save =
      ap (λ (q : Table). (q.slots m).count) (store_part-eq (extend t n m) m value save)
      ∙ ap (λ (s : Slot). s.count)
          (set_slot_same (extend t n m) m (filled (extend t n m) m value save))
      ∙ extend_slot

  pub round-maxslots :
      (value : List ℕ) (save : ℕ) → (store_part (extend t n m) m value save).maxslots ≡ t.maxslots
  unfolding store_part extend set_slot
  round-maxslots value save = refl

  extend-fields :
      ((extend t n m).maxslots ≡ t.maxslots)
      × ((extend t n m).usedslots ≡ t.usedslots)
      × ((extend t n m).num ≡ t.num)
  unfolding extend set_slot
  extend-fields = (refl, refl, refl)

  extend-IsCounting : IsCounting t 0 0 → IsCounting (extend t n m) 1 0
  extend-IsCounting (small, used, num) =
      let (a, b, c) = extend-fields in
      (
        omega (arith, small, a),
        omega (arith, extend-slots_with is_used refl, used, b),
        omega (arith, extend-slots_with is_head refl, num, c),
      )

  -- a round of the loop
  pub round-IsCounting :
      (value : List ℕ) (save : ℕ)
      → IsCounting t 0 0
      → IsCounting (store_part (extend t n m) m value save) 0 0
  round-IsCounting value save c =
      part_more-IsCounting (extend t n m) m value save extend_slot (extend-IsCounting c)

  -- A round takes one slot more.
  pub round-slots_with :
      (value : List ℕ) (save : ℕ)
      → slots_with is_used (store_part (extend t n m) m value save) ≡ suc (slots_with is_used t)
  round-slots_with value save =
      ap (slots_with is_used) (store_part-eq (extend t n m) m value save)
      ∙ part_slots (extend t n m) m value save is_used
      ∙ extend-slots_with is_used refl
      ∙ omega arith

-- the first slot of an entry, with its key and the first part of the value
module _ (md5 : List ℕ → List ℕ) (t : Table) (idx : ℕ) (key : List ℕ) (hash count : ℕ)
    (b : idx < t.maxslots) (z : (t.slots idx).count ≡ 0) (head : is_head count ≡ true) where
  abbrev pub entered : Table
  entered = set_slot t idx (store_key md5 (t.slots idx) key hash count)

  key_count : (store_key md5 (t.slots idx) key hash count).count ≡ count
  unfolding store_key
  key_count = refl

  entered-slots_with :
      (p : ℕ → Bool) → p 0 ≡ false → p count ≡ true → slots_with p entered ≡ slots_with p t + 1
  entered-slots_with p e e' =
      filled-slots_with p t idx (store_key md5 (t.slots idx) key hash count) b (ap p z ∙ e)
      ∙ ap (λ c. slots_with p t + one_if (p c)) key_count
      ∙ ap (λ c. slots_with p t + one_if c) e'

  pub count_used : (is_used count ≡ true) × (count ≢ extended)
  count_used = (ground (arith, head), λ e. ground (arith, head, e))

  pub entered_count : (entered.slots idx).count ≡ count
  entered_count =
      ap (λ (s : Slot). s.count) (set_slot_same t idx (store_key md5 (t.slots idx) key hash count))
      ∙ key_count

  entered-fields :
      (entered.maxslots ≡ t.maxslots) × (entered.usedslots ≡ t.usedslots) × (entered.num ≡ t.num)
  unfolding set_slot
  entered-fields = (refl, refl, refl)

  pub first-IsCounting :
      (value : List ℕ) (save : ℕ)
      → IsCounting t 0 0
      → IsCounting (store_part entered idx value save) 0 0
  first-IsCounting value save (small, used, num) =
      let (is, other) = count_used in
      let (a, u, n) = entered-fields in
      part_first-IsCounting entered idx value save (λ e. other (sym entered_count ∙ e))
        (
          omega (arith, small, a),
          omega (arith, entered-slots_with is_used refl is, used, u),
          omega (arith, entered-slots_with is_head refl head, num, n),
        )

  pub first-slots_with :
      (value : List ℕ) (save : ℕ)
      → slots_with is_used (store_part entered idx value save) ≡ suc (slots_with is_used t)
  first-slots_with value save =
      let (is, _) = count_used in
      ap (slots_with is_used) (store_part-eq entered idx value save)
      ∙ part_slots entered idx value save is_used
      ∙ entered-slots_with is_used refl is
      ∙ omega arith

  pub first_slot :
      (value : List ℕ) (save : ℕ) → ((store_part entered idx value save).slots idx).count ≡ count
  first_slot value save =
      ap (λ (q : Table). (q.slots idx).count) (store_part-eq entered idx value save)
      ∙ ap (λ (s : Slot). s.count) (set_slot_same entered idx (filled entered idx value save))
      ∙ entered_count

  pub first-maxslots :
      (value : List ℕ) (save : ℕ) → (store_part entered idx value save).maxslots ≡ t.maxslots
  unfolding store_part set_slot
  first-maxslots value save = refl
