-- ===== src/Table/Store.antt =====
-- `_put_data` of shmutil/qhasharr.c: a key and a value are written into an empty slot and the chain of
-- slots that the value takes.
use shmutil.Base.{
  ℕ, zero, suc, ◌+◌, ◌-◌, ◌/◌, ◌%◌, Bool, true, false, not, List, none, some, ltb, leb, ◌==◌,
  if◌then◌else◌, length, get_or,
}
use shmutil.Memory.{Memory, memcpy, store8}
use shmutil.Atomic.{minus_one}
use shmutil.Table.{
  Slot, Table, keysize, valuesize, slot_data_size, at_key, at_keylen, at_keymd5, extended, efault,
  enobufs, zero_slot, set_slot, set_errno, incr, find_empty, remove_data,
}

-- the bytes of a list, as a pointer reaches them
abbrev pub pointer : List ℕ → Memory
pointer l i = get_or l i 0

-- the key, its digest and its length in the union, and the end mark of the chain
unfoldable pub store_key : (List ℕ → List ℕ) → Slot → List ℕ → ℕ → ℕ → Slot
store_key md5 s key hash count =
    let tmp_size : ℕ = if leb (length key) keysize then length key else keysize in
    let c₁ = memcpy s.contents at_key (pointer key) 0 tmp_size in
    let c₂ = memcpy c₁ at_keymd5 (pointer (md5 key)) 0 16 in
    let c₃ =
      store8 (store8 c₂ at_keylen (length key % 256)) (at_keylen + 1) (length key / 256 % 256) in
    record s { count = count; hash = hash; contents = c₃; link = minus_one }

-- a new slot `tmpidx` behind slot `newidx` in the chain
unfoldable pub extend : Table → ℕ → ℕ → Table
extend t newidx tmpidx =
    let t₁ =
      set_slot t tmpidx
        (record zero_slot { count = extended; hash = newidx; link = minus_one; size = 0 }) in
    set_slot t₁ newidx (record (t₁.slots newidx) { link = tmpidx })

-- how many bytes go into a slot
abbrev pub copysize : Slot → ℕ → ℕ
copysize s left =
    let room : ℕ = if s.count == extended then slot_data_size else valuesize in
    if ltb room left then room else left

-- the bytes of the value from `savesize` on, as many as slot `newidx` takes
unfoldable pub store_part : Table → ℕ → List ℕ → ℕ → Table
store_part t newidx value savesize =
    let s = t.slots newidx in
    let n = copysize s (length value - savesize) in
    let t₁ =
      set_slot t newidx
        (record s { contents = memcpy s.contents 0 (pointer value) savesize n; size = n }) in
    record t₁ {
      num = if s.count == extended then t.num else incr t.num;
      usedslots = incr t.usedslots;
    }

-- The loop of `_put_data`, `idx` being the first slot and `newidx` the last. Each round stores a byte
-- at least, so `length value` rounds are enough.
unfoldable pub store_value : ℕ → Table → ℕ → List ℕ → ℕ → ℕ → Bool × Table
store_value zero t idx value newidx savesize = (true, t)
store_value (suc rounds) t idx value newidx savesize =
    let next : ℕ → Table → Bool × Table = λ k t'.
      store_value rounds (store_part t' k value savesize) idx value k
        (savesize + copysize (t'.slots k) (length value - savesize)) in
    if not (ltb savesize (length value))
    then (true, t)
    else if savesize == 0
    then next newidx t
    else elim (find_empty t (newidx + 1)) [
      | none ↦ (false, set_errno enobufs (remove_data t idx).1)
      | some tmpidx ↦ next tmpidx (extend t newidx tmpidx)
    ]

unfoldable pub put_data : (List ℕ → List ℕ) → Table → ℕ → ℕ → List ℕ → List ℕ → ℕ → Bool × Table
put_data md5 t idx hash key value count =
    if not ((t.slots idx).count == 0)
    then (false, set_errno efault t)
    else let t₁ = set_slot t idx (store_key md5 (t.slots idx) key hash count) in
      store_value (length value) t₁ idx value idx 0
