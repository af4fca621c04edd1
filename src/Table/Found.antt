-- ===== src/Table/Found.antt =====
-- What `_get_idx` of shmutil/qhasharr.c finds.
use shmutil.Base.{ℕ, zero, suc, ◌+◌, ◌<◌, ◌≡◌, true, List, some, if◌then◌else◌, arith}
use shmutil.Table.{Table, next_idx}
use shmutil.Table.Lookup.{same_key, is_entry, get_idx_from, get_idx}

module _ (murmur : List ℕ → ℕ) (md5 : List ℕ → List ℕ) (t : Table) (key : List ℕ) (hash : ℕ) where
  abbrev pub IsFound : ℕ → Type 0
  IsFound i =
      (i < t.maxslots)
      × (is_entry (t.slots i) hash ≡ true)
      × (same_key murmur md5 (t.slots i) key ≡ true)

  get_idx_from-some :
      (rounds count idx i : ℕ)
      → idx < t.maxslots
      → get_idx_from murmur md5 t key hash rounds count idx ≡ some i
      → IsFound i
  unfolding get_idx_from
  get_idx_from-some zero count idx i b e = absurd (cc)
  get_idx_from-some (suc rounds) count idx i b e = ground (
    arith,
    get_idx_from-some rounds (if is_entry (t.slots idx) hash then count + 1 else count)
        (next_idx t idx) i,
  )

  -- The slot that `_get_idx` gives for a hash below maxslots is in the table, holds an entry with the hash, and has the key.
  pub get_idx-some :
      (i : ℕ) → hash < t.maxslots → get_idx murmur md5 t key hash ≡ some i → IsFound i
  unfolding get_idx
  get_idx-some i b e = ground (arith, get_idx_from-some t.maxslots 0 hash i)
