-- ===== src/Table/Find.antt =====
-- `_get_idx` of shmutil/qhasharr.c finds an entry that is there.
use shmutil.Base.{
  ℕ, zero, suc, ◌+◌, ◌≤◌, ◌<◌, ◌≡◌, ◌≢◌, ◌⊎◌, inl, inr, Bool, true, List, Option-cases, none, some,
  if◌then◌else◌, arith,
}
use shmutil.Table.{Table, is_leading, next_idx}
use shmutil.Table.Lookup.{is_entry, get_idx_from, get_idx}
use shmutil.Table.Found.{IsFound, get_idx-some}
use shmutil.Table.Tally.{tally, tally_mono, tally_lt}

-- the entries of a hash
abbrev pub entries : Table → ℕ → ℕ → Bool
entries t hash i = is_entry (t.slots i) hash

module _ (murmur : List ℕ → ℕ) (md5 : List ℕ → List ℕ) (t : Table) (key : List ℕ) (hash : ℕ) where
  -- `j` comes before `hash` on the way round from `idx`
  abbrev Ahead : ℕ → ℕ → Type 0
  Ahead idx j = ((idx < hash) × (idx ≤ j) × (j < hash)) ⊎ ((hash ≤ idx) × ((idx ≤ j) ⊎ (j < hash)))

  abbrev Enough : ℕ → ℕ → Type 0
  Enough idx rounds =
      ((idx < hash) × (hash ≤ rounds + idx)) ⊎ ((hash ≤ idx) × (t.maxslots + hash ≤ rounds + idx))

  -- `count` is the number of entries on the way from `hash` to `idx`.
  abbrev IsSeen : ℕ → ℕ → Type 0
  IsSeen idx count =
      ((idx < hash)
        × (count + tally (entries t hash) hash
            ≡ tally (entries t hash) t.maxslots + tally (entries t hash) idx))
      ⊎ ((hash ≤ idx) × (count + tally (entries t hash) hash ≡ tally (entries t hash) idx))

  -- There is an entry to come, so that not all of them are seen.
  seen_lt :
      (idx count i : ℕ)
      → hash < t.maxslots
      → idx < t.maxslots
      → i < t.maxslots
      → entries t hash i ≡ true
      → Ahead idx i
      → IsSeen idx count
      → count < tally (entries t hash) t.maxslots
  seen_lt idx count i h b bi e a s = ground (
    arith,
    tally_mono (entries t hash) idx t.maxslots,
    tally_mono (entries t hash) hash t.maxslots,
    tally_mono (entries t hash) idx i,
    tally_lt (entries t hash) i t.maxslots e,
    tally_lt (entries t hash) i hash e,
  )

  get_idx_from-none :
      (rounds count idx i : ℕ)
      → hash < t.maxslots
      → idx < t.maxslots
      → IsFound murmur md5 t key hash i
      → (t.slots hash).count ≡ tally (entries t hash) t.maxslots
      → Enough idx rounds
      → Ahead idx i
      → IsSeen idx count
      → get_idx_from murmur md5 t key hash rounds count idx ≢ none
  unfolding get_idx_from
  get_idx_from-none zero count idx i h b f c n a s e = ground arith
  get_idx_from-none (suc rounds) count idx i h b f c n a s e = ground (
    arith,
    seen_lt idx count i,
    get_idx_from-none rounds (if entries t hash idx then count + 1 else count) (next_idx t idx) i,
  )

  -- Where slot `hash` leads all entries of the hash, an entry with the key is found: `_get_idx` gives
  -- some entry with it.
  pub get_idx_complete :
      (i : ℕ)
      → hash < t.maxslots
      → is_leading (t.slots hash).count ≡ true
      → (t.slots hash).count ≡ tally (entries t hash) t.maxslots
      → IsFound murmur md5 t key hash i
      → (i' : ℕ) × (get_idx murmur md5 t key hash ≡ some i') × IsFound murmur md5 t key hash i'
  get_idx_complete i h l c f = elim (Option-cases (get_idx murmur md5 t key hash)) [
    | inl e ↦ absurd (
        get_idx_from-none t.maxslots 0 hash i h h f c (omega arith) (omega arith) (omega arith)
          (unfold get_idx in ground (arith, e, l)))
    | inr (i', e) ↦ (i', e, get_idx-some murmur md5 t key hash i' h e)
  ]
