-- ===== src/Table.antt =====
-- `qhasharr`, the hash table in a flat memory of shmutil/qhasharr.c and shmutil/qlibc.h: slots, and the
-- operations on single slots and on the table as a whole. Pointers that the code tests for NULL are
-- arguments that are there.
pub mod Lookup
pub mod Store
pub mod Search
pub mod Usage
pub mod Found
pub mod Tally
pub mod Find
pub mod Linked
pub mod Counters
pub mod Position
pub mod Freed
pub mod Uncounted
pub mod Counting
pub mod Linking
pub mod Moved
pub mod Follow
pub mod Grown
pub mod View
pub mod Same
pub mod Deleted
pub mod Recount
pub mod Relocated
pub mod Remove
pub mod Dup
pub mod LeadSlots
pub mod RemoveLead
pub mod Removed
pub mod Added
pub mod CountedPut
pub mod Roomy
pub mod CountedMove
pub mod CountedRemove
pub mod Entered
pub mod Putting
pub mod Colliding
pub mod Put
pub mod CountedPutting
pub mod Succeeds
pub mod Empty
pub mod Sizes
pub mod Values
pub mod Traversal
pub mod Runs
pub mod Chain
pub mod Written
pub mod Stored
pub mod Frame
pub mod RoundTrip
pub mod PutGet
pub mod Update
pub mod Numbers
mod Examples
use shmutil.Base.{
  ℕ, zero, suc, ◌+◌, ◌-◌, ◌*◌, ◌/◌, ◌%◌, ◌^◌, Bool, true, false, not, ◌&&◌, ◌||◌, Option, none,
  some, ltb, leb, ◌==◌, if◌then◌else◌,
}
use shmutil.Memory.{Memory}
use shmutil.Atomic.{minus_one}

-- `_Q_HASHARR_KEYSIZE` and `_Q_HASHARR_VALUESIZE`
abbrev pub keysize : ℕ
keysize = 96

abbrev pub valuesize : ℕ
valuesize = 128

-- Offsets in `union _slot_data`: `pair.value` and `ext.value` stand at 0, then come `pair.key`,
-- `pair.keylen` and `pair.keymd5`; the union has 242 bytes.
abbrev pub at_key : ℕ
at_key = 128

abbrev pub at_keylen : ℕ
at_keylen = 224

abbrev pub at_keymd5 : ℕ
at_keymd5 = 226

abbrev pub slot_data_size : ℕ
slot_data_size = 242

-- `sizeof(qhasharr_t)` and `sizeof(qhasharr_slot_t)`
abbrev pub header_size : ℕ
header_size = 12

abbrev pub slot_size : ℕ
slot_size = 260

-- the bit patterns of the counts -1 and -2, which are shorts
abbrev pub collision : ℕ
collision = 2 ^ 16 - 1

abbrev pub extended : ℕ
extended = 2 ^ 16 - 2

-- `count > 0`
abbrev pub is_leading : ℕ → Bool
is_leading count = ltb 0 count && ltb count (2 ^ 15)

-- the values of `errno` that the code sets
abbrev pub enoent : ℕ
enoent = 2

abbrev pub enomem : ℕ
enomem = 12

abbrev pub efault : ℕ
efault = 14

abbrev pub einval : ℕ
einval = 22

abbrev pub enobufs : ℕ
enobufs = 105

-- `struct qhasharr_slot_s`. `contents` is the union, byte by byte; `link` is the bit pattern of an int.
pub record Slot : Type 0 where
  pub count : ℕ
  pub hash : ℕ
  pub size : ℕ
  pub link : ℕ
  pub contents : Memory

-- `struct qhasharr_s` with its slots, and the thread's `errno`, which the functions set on the way.
pub record Table : Type 0 where
  pub maxslots : ℕ
  pub usedslots : ℕ
  pub num : ℕ
  pub slots : ℕ → Slot
  pub errno : ℕ

-- a slot of zero bytes
abbrev pub zero_slot : Slot
zero_slot = record { count = 0; hash = 0; size = 0; link = 0; contents = λ a. 0 }

-- a write to a slot
unfoldable pub set_slot : Table → ℕ → Slot → Table
set_slot t i s = record t { slots = λ j. if j == i then s else t.slots j }

abbrev pub set_errno : ℕ → Table → Table
set_errno e t = record t { errno = e }

-- int arithmetic on the counters
abbrev pub incr : ℕ → ℕ
incr n = (n + 1) % 2 ^ 32

abbrev pub decr : ℕ → ℕ
decr n = (n + 2 ^ 32 - 1) % 2 ^ 32

-- `qhasharr_calculate_memsize`, for `max` not below 0
unfoldable pub calculate_memsize : ℕ → ℕ
calculate_memsize max = (header_size + slot_size * max) % 2 ^ 64

-- `qhasharr`: `none` for NULL. `maxslots` is an int.
unfoldable pub qhasharr : ℕ → ℕ → Option Table
qhasharr memsize errno =
    let maxslots = (memsize + 2 ^ 64 - header_size) % 2 ^ 64 / slot_size % 2 ^ 32 in
    if (ltb maxslots 1 || leb (2 ^ 31) maxslots) || leb memsize header_size
    then none
    else some (record {
      maxslots = maxslots;
      usedslots = 0;
      num = 0;
      slots = λ i. zero_slot;
      errno = errno;
    })

-- `qhasharr_size`: the keys, `*maxslots` and `*usedslots`
unfoldable pub size : Table → ℕ × ℕ × ℕ
size t = (t.num, t.maxslots, t.usedslots)

-- `qhasharr_clear`: the memory of the slots is set to zero.
unfoldable pub clear : Table → Table
clear t = if t.usedslots == 0 then t else record t {
  usedslots = 0;
  num = 0;
  slots = λ i. if ltb i t.maxslots then zero_slot else t.slots i;
}

-- the index behind `idx`, going round
abbrev pub next_idx : Table → ℕ → ℕ
next_idx t idx = if leb t.maxslots (idx + 1) then 0 else idx + 1

-- The loop of `_find_empty` over `rounds` slots, which goes on until it is back at `start`.
unfoldable pub find_empty_from : Table → ℕ → ℕ → ℕ → Option ℕ
find_empty_from t start zero idx = none
find_empty_from t start (suc rounds) idx =
    let idx' = next_idx t idx in
    let rest = find_empty_from t start rounds idx' in
    if (t.slots idx).count == 0 then some idx else (if idx' == start then none else rest)

-- `_find_empty`: `none` for -1. The loop makes at most `maxslots` rounds.
unfoldable pub find_empty : Table → ℕ → Option ℕ
find_empty t startidx =
    if t.maxslots == 0
    then none
    else let start : ℕ = if leb t.maxslots startidx then 0 else startidx in
      find_empty_from t start t.maxslots start

-- `_copy_slot`: slot `idx2` into the empty slot `idx1`
unfoldable pub copy_slot : Table → ℕ → ℕ → Bool × Table
copy_slot t idx1 idx2 =
    if not ((t.slots idx1).count == 0) || (t.slots idx2).count == 0
    then (false, set_errno efault t)
    else let t' = set_slot t idx1 (t.slots idx2) in
      (true, record t' { usedslots = incr t'.usedslots })

-- `_remove_slot`
unfoldable pub remove_slot : Table → ℕ → Bool × Table
remove_slot t idx =
    if (t.slots idx).count == 0
    then (false, set_errno efault t)
    else let t' = set_slot t idx (record (t.slots idx) { count = 0 }) in
      (true, record t' { usedslots = decr t'.usedslots })

-- The loop of `_remove_data` along the links. `loop_count` ends it after `maxslots` links.
unfoldable pub remove_chain : ℕ → ℕ → Table → ℕ → Table
remove_chain zero loop_count t idx = t
remove_chain (suc rounds) loop_count t idx =
    let link = (t.slots idx).link in
    let t' = (remove_slot t idx).1 in
    let rest = remove_chain rounds (loop_count + 1) t' link in
    if link == minus_one then t' else (if ltb t.maxslots (loop_count + 1) then t' else rest)

-- `_remove_data`
unfoldable pub remove_data : Table → ℕ → Bool × Table
remove_data t idx =
    if (t.slots idx).count == 0
    then (false, set_errno efault t)
    else let t' = remove_chain (t.maxslots + 1) 0 t idx in (true, record t' { num = decr t'.num })
