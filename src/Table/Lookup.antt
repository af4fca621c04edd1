-- ===== src/Table/Lookup.antt =====
-- `_get_idx`, `_get_data`, `qhasharr_exist`, `qhasharr_get`, `qhasharr_getnext` of shmutil/qhasharr.c. A
-- key is the list of its `key_size` bytes; `murmur` and `md5` are the hash and the digest.
use shmutil.Base.{
  ℕ, zero, suc, ◌+◌, ◌-◌, ◌*◌, ◌%◌, Bool, true, false, not, ◌&&◌, ◌||◌, List, [], ◌++◌, Option,
  none, some, ltb, leb, ◌==◌, if◌then◌else◌, length, take,
}
use shmutil.Memory.{bytes}
use shmutil.Atomic.{minus_one}
use shmutil.Value.{same_bytes}
use shmutil.Table.{
  Slot, Table, keysize, at_key, at_keylen, at_keymd5, collision, extended, is_leading, enoent,
  enomem, set_errno, next_idx,
}

-- `data.pair.keylen`, a uint16_t
abbrev pub keylen : Slot → ℕ
keylen s = s.contents at_keylen + s.contents (at_keylen + 1) * 256

-- The loop of `_get_data` that adds up the sizes. It has a `loop_count` that ends it with NULL after
-- `maxslots` links.
unfoldable pub chain_size : ℕ → ℕ → Table → ℕ → ℕ → Option ℕ
chain_size zero loop_count t newidx valsize = none
chain_size (suc rounds) loop_count t newidx valsize =
    let s = t.slots newidx in
    let valsize' = valsize + s.size in
    let rest = chain_size rounds (loop_count + 1) t s.link valsize' in
    if s.link == minus_one
    then some valsize'
    else (if ltb t.maxslots (loop_count + 1) then none else rest)

-- The loop of `_get_data` that copies; `value` is what is copied so far.
unfoldable pub chain_data : ℕ → ℕ → Table → ℕ → ℕ → List ℕ → Option (List ℕ)
chain_data zero loop_count t newidx valsize value = none
chain_data (suc rounds) loop_count t newidx valsize value =
    let s = t.slots newidx in
    let value' = value ++ bytes s.contents 0 s.size in
    let rest = chain_data rounds (loop_count + 1) t s.link valsize value' in
    if not (ltb (length value) valsize && not (newidx == minus_one))
    then some value
    else if ltb valsize (length value + s.size)
    then none
    else if s.link == minus_one
    then some value'
    else (if ltb t.maxslots (loop_count + 1) then none else rest)

-- `_get_data`: `none` for NULL. `malloc` succeeds.
unfoldable pub get_data : Table → ℕ → Option (List ℕ)
get_data t idx = elim (chain_size (t.maxslots + 1) 0 t idx 0) [
  | none ↦ none
  | some valsize ↦ chain_data (t.maxslots + 1) 0 t idx valsize []
]

-- the loop of `qhasharr_getnext` over the `rounds` slots that are left
unfoldable pub next_used : ℕ → Table → ℕ → ℕ
next_used zero t idx = idx
next_used (suc rounds) t idx =
    let s = t.slots idx in
    let rest = next_used rounds t (idx + 1) in
    if s.count == 0 || s.count == extended then rest else idx

-- what `qhasharr_getnext` gives: the key (cut to 96 bytes) and the value, `*idx`, and `errno`
pub record Next : Type 0 where
  pub object : Option (List ℕ × List ℕ)
  pub idx : ℕ
  pub errno : ℕ

unfoldable pub getnext : Table → ℕ → Next
getnext t start =
    let idx = next_used (t.maxslots - start) t start in
    if leb t.maxslots idx
    then record { object = none; idx = idx; errno = enoent }
    else let s = t.slots idx in
      let size : ℕ = if ltb keysize (keylen s) then keysize else keylen s in
      elim (get_data t idx) [
        | none ↦ record { object = none; idx = idx; errno = enomem }
        | some value ↦ record {
          object = some (bytes s.contents at_key size, value);
          idx = idx + 1;
          errno = t.errno;
        }
      ]

-- A slot that holds a key whose hash is `hash`.
unfoldable pub is_entry : Slot → ℕ → Bool
is_entry s hash = s.hash == hash && (is_leading s.count || s.count == collision)

module _ (murmur : List ℕ → ℕ) (md5 : List ℕ → List ℕ) where
  -- The comparison of `_get_idx`: of the whole key, or of its first 96 bytes and its digest.
  unfoldable pub same_key : Slot → List ℕ → Bool
  same_key s key =
      length key == keylen s
      && (if leb (length key) keysize
          then same_bytes key (bytes s.contents at_key (length key))
          else same_bytes (take keysize key) (bytes s.contents at_key keysize)
            && same_bytes (md5 key) (bytes s.contents at_keymd5 16))

  -- The loop of `_get_idx` from `idx` on; `count` is the number of entries seen.
  unfoldable pub get_idx_from : Table → List ℕ → ℕ → ℕ → ℕ → ℕ → Option ℕ
  get_idx_from t key hash zero count idx = none
  get_idx_from t key hash (suc rounds) count idx =
      let s = t.slots idx in
      let count' : ℕ = if is_entry s hash then count + 1 else count in
      let idx' = next_idx t idx in
      let rest = get_idx_from t key hash rounds count' idx' in
      if not (ltb count (t.slots hash).count)
      then none
      else if is_entry s hash && same_key s key
      then some idx
      else (if idx' == hash then none else rest)

  -- `_get_idx`: `none` for -1. The loop makes at most `maxslots` rounds.
  unfoldable pub get_idx : Table → List ℕ → ℕ → Option ℕ
  get_idx t key hash =
      if is_leading (t.slots hash).count then get_idx_from t key hash t.maxslots 0 hash else none

  -- `qhashmurmur3_32(key, key_size) % tbl->maxslots`
  abbrev pub hash_of : Table → List ℕ → ℕ
  hash_of t key = murmur key % t.maxslots

  unfoldable pub exist : Table → List ℕ → Bool
  exist t key =
      if t.maxslots == 0
      then false
      else elim (get_idx t key (hash_of t key)) [ none ↦ false | some idx ↦ true ]

  -- The object, `none` for NULL, and the table with `errno`.
  unfoldable pub get : Table → List ℕ → Option (List ℕ) × Table
  get t key = if t.maxslots == 0 then (none, t) else elim (get_idx t key (hash_of t key)) [
    | none ↦ (none, set_errno enoent t)
    | some idx ↦ (get_data t idx, t)
  ]
