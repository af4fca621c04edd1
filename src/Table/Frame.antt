-- ===== src/Table/Frame.antt =====
-- What the loop of `_put_data` of shmutil/qhasharr.c leaves as it was.
use shmutil.Base.{
  ℕ, zero, suc, ◌+◌, ◌-◌, ◌≤◌, ◌<◌, ◌≡◌, ◌≢◌, refl, sym, ap, ◌∙◌, Bool, true, List, dec_lt, length,
  arith,
}
use shmutil.Memory.{memcpy}
use shmutil.Table.{Slot, Table, set_slot, extended}
use shmutil.Table.Store.{extend, copysize, store_part, store_value}
use shmutil.Table.Search.{find_empty-some}
use shmutil.Table.Stored.{store_value_round, store_value_done}

-- The part of a slot that says which key it is for.
pub record Kept (s s' : Slot) : Type 0 where
  pub count : s'.count ≡ s.count
  pub hash : s'.hash ≡ s.hash
  pub key : (a : ℕ) → 128 ≤ a → s'.contents a ≡ s.contents a

pub Kept-trans : (s s' s'' : Slot) → Kept s s' → Kept s' s'' → Kept s s''
Kept-trans s s' s'' k k' = record {
  count = k'.count ∙ k.count;
  hash = k'.hash ∙ k.hash;
  key = λ a h. k'.key a h ∙ k.key a h;
}

Kept-refl : (s : Slot) → Kept s s
Kept-refl s = record { count = refl; hash = refl; key = λ a h. refl }

extend_other : (t : Table) (n m j : ℕ) → j ≢ n → j ≢ m → (extend t n m).slots j ≡ t.slots j
unfolding extend set_slot
extend_other t n m j h h' = ground arith

extend-Kept : (t : Table) (n m j : ℕ) → j ≢ m → Kept (t.slots j) ((extend t n m).slots j)
unfolding extend set_slot
extend-Kept t n m j h = record {
  count = ground arith;
  hash = ground arith;
  key = λ a b. ground arith;
}

pub store_part_other :
    (t : Table) (n : ℕ) (value : List ℕ) (save j : ℕ)
    → j ≢ n
    → (store_part t n value save).slots j ≡ t.slots j
unfolding store_part set_slot
store_part_other t n value save j h = ground arith

pub store_part-Kept :
    (t : Table) (n : ℕ) (value : List ℕ) (save : ℕ)
    → (t.slots n).count ≢ extended
    → Kept (t.slots n) ((store_part t n value save).slots n)
unfolding store_part set_slot memcpy
store_part-Kept t n value save h = record {
  count = ground arith;
  hash = ground arith;
  key = λ a b. ground arith;
}

-- the table where the loop ends at once
ended : (t t' : Table) (r : Bool × Table) → r ≡ (true, t) → r ≡ (true, t') → t' ≡ t
ended t t' r e e' = ap (λ (q : Bool × Table). q.1) (sym e' ∙ e)

-- A round behind the first leaves a slot that is in use, but for the link of the last one.
round_other :
    (t : Table) (n m j : ℕ) (value : List ℕ) (save : ℕ)
    → j ≢ n
    → (t.slots j).count ≢ 0
    → (t.slots m).count ≡ 0
    → (j ≢ m) × ((store_part (extend t n m) m value save).slots j ≡ t.slots j)
round_other t n m j value save a u empty =
    let b : j ≢ m = λ e. u (ap (λ k. (t.slots k).count) e ∙ empty) in
    (b, store_part_other (extend t n m) m value save j b ∙ extend_other t n m j a b)

round-Kept :
    (t : Table) (n m j : ℕ) (value : List ℕ) (save : ℕ)
    → (t.slots j).count ≢ 0
    → (t.slots m).count ≡ 0
    → Kept (t.slots j) ((store_part (extend t n m) m value save).slots j)
round-Kept t n m j value save u empty =
    let b : j ≢ m = λ e. u (ap (λ k. (t.slots k).count) e ∙ empty) in
    rw (store_part_other (extend t n m) m value save j b) (extend-Kept t n m j b)

store_value-zero :
    (t : Table) (idx : ℕ) (value : List ℕ) (n save : ℕ)
    → store_value zero t idx value n save ≡ (true, t)
unfolding store_value
store_value-zero t idx value n save = refl

pub store_value_other :
    (rounds : ℕ) (t : Table) (idx : ℕ) (value : List ℕ) (n save : ℕ) (t' : Table) (j : ℕ)
    → 0 < save
    → j ≢ n
    → (t.slots j).count ≢ 0
    → store_value rounds t idx value n save ≡ (true, t')
    → t'.slots j ≡ t.slots j
store_value_other zero t idx value n save t' j p a u e =
    ap (λ (q : Table). q.slots j)
      (ended t t' (store_value zero t idx value n save) (store_value-zero t idx value n save) e)
store_value_other (suc rounds) t idx value n save t' j p a u e = elim (dec_lt save (length value)) [
  | no full ↦
      ap (λ (q : Table). q.slots j)
        (ended t t' (store_value (suc rounds) t idx value n save)
          (store_value_done (suc rounds) t idx value n save (omega (arith, full))) e)
  | yes more ↦
      let (m, found, rest) = store_value_round rounds t idx value n save t' p more e in
      let (b, same) = round_other t n m j value save a u (find_empty-some t (n + 1) m found).1 in
      store_value_other rounds (store_part (extend t n m) m value save) idx value m
        (save + copysize ((extend t n m).slots m) (length value - save)) t' j (omega arith) b
        (rw same u) rest
      ∙ same
]

pub store_value-Kept :
    (rounds : ℕ) (t : Table) (idx : ℕ) (value : List ℕ) (n save : ℕ) (t' : Table) (j : ℕ)
    → 0 < save
    → (t.slots j).count ≢ 0
    → store_value rounds t idx value n save ≡ (true, t')
    → Kept (t.slots j) (t'.slots j)
store_value-Kept zero t idx value n save t' j p u e =
    rw (ended t t' (store_value zero t idx value n save) (store_value-zero t idx value n save) e)
      (Kept-refl (t.slots j))
store_value-Kept (suc rounds) t idx value n save t' j p u e = elim (dec_lt save (length value)) [
  | no full ↦
      rw
        (ended t t' (store_value (suc rounds) t idx value n save)
          (store_value_done (suc rounds) t idx value n save (omega (arith, full))) e)
        (Kept-refl (t.slots j))
  | yes more ↦
      let (m, found, rest) = store_value_round rounds t idx value n save t' p more e in
      let t₂ = store_part (extend t n m) m value save in
      let k = round-Kept t n m j value save u (find_empty-some t (n + 1) m found).1 in
      Kept-trans (t.slots j) (t₂.slots j) (t'.slots j) k (
        store_value-Kept rounds t₂ idx value m
          (save + copysize ((extend t n m).slots m) (length value - save)) t' j (omega arith)
          (rw k.count u) rest)
]

round-maxslots :
    (t : Table) (n m : ℕ) (value : List ℕ) (save : ℕ)
    → (store_part (extend t n m) m value save).maxslots ≡ t.maxslots
unfolding store_part extend set_slot
round-maxslots t n m value save = refl

pub store_value-maxslots :
    (rounds : ℕ) (t : Table) (idx : ℕ) (value : List ℕ) (n save : ℕ) (t' : Table)
    → 0 < save
    → store_value rounds t idx value n save ≡ (true, t')
    → t'.maxslots ≡ t.maxslots
store_value-maxslots zero t idx value n save t' p e =
    ap (λ (q : Table). q.maxslots)
      (ended t t' (store_value zero t idx value n save) (store_value-zero t idx value n save) e)
store_value-maxslots (suc rounds) t idx value n save t' p e = elim (dec_lt save (length value)) [
  | no full ↦
      ap (λ (q : Table). q.maxslots)
        (ended t t' (store_value (suc rounds) t idx value n save)
          (store_value_done (suc rounds) t idx value n save (omega (arith, full))) e)
  | yes more ↦
      let (m, found, rest) = store_value_round rounds t idx value n save t' p more e in
      store_value-maxslots rounds (store_part (extend t n m) m value save) idx value m
        (save + copysize ((extend t n m).slots m) (length value - save)) t' (omega arith) rest
      ∙ round-maxslots t n m value save
]
