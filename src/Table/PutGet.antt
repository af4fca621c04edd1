-- ===== src/Table/PutGet.antt =====
-- `qhasharr_get` after `qhasharr_put` of shmutil/qhasharr.c.
use shmutil.Base.{
  ℕ, zero, suc, ◌+◌, ◌%◌, ◌^◌, ◌<◌, ◌≡◌, ◌≢◌, inl, inr, refl, ap, ◌∙◌, Bool-cases, true, false,
  List, Option-cases, some, ◌==◌, length, arith,
}
use shmutil.Table.{Table, is_leading, set_slot, find_empty, copy_slot, remove_slot}
use shmutil.Table.Lookup.{is_entry, get_idx_from, get_idx, hash_of, get}
use shmutil.Table.Store.{put_data}
use shmutil.Table.Update.{move_away, put_moving, put_within, put}
use native.Mathlib.Nat.{mod-lt}
use shmutil.Table.RoundTrip.{Entry, put_data_lem}

module _ (murmur : List ℕ → ℕ) (md5 : List ℕ → List ℕ) where
  get_idx_from-Entry :
      (t : Table) (hash : ℕ) (key value : List ℕ) (rounds : ℕ)
      → 0 < rounds
      → Entry murmur md5 t hash hash 1 key value
      → get_idx_from murmur md5 t key hash rounds 0 hash ≡ some hash
  unfolding get_idx_from is_entry
  get_idx_from-Entry t hash key value zero h e = absurd (omega arith)
  get_idx_from-Entry t hash key value (suc rounds) h e =
      ground (arith, e.is_count, e.is_hash, e.is_key)

  get_idx-Entry :
      (t : Table) (hash : ℕ) (key value : List ℕ)
      → t.maxslots ≢ 0
      → Entry murmur md5 t hash hash 1 key value
      → get_idx murmur md5 t key hash ≡ some hash
  unfolding get_idx
  get_idx-Entry t hash key value h e =
      ground (arith, e.is_count, get_idx_from-Entry t hash key value t.maxslots)

  move_away-maxslots : (t : Table) (hash idx : ℕ) → (move_away t hash idx).maxslots ≡ t.maxslots
  unfolding move_away copy_slot remove_slot set_slot
  move_away-maxslots t hash idx = ground arith

  -- Where the slot of the key's hash leads no entries, `qhasharr_put` stores in it.
  put_stores :
      (t : Table) (key value : List ℕ) (t' : Table)
      → is_leading (t.slots (hash_of murmur md5 t key)).count ≡ false
      → put murmur md5 t key value ≡ (true, t')
      → (t.maxslots ≢ 0)
        × ((t₁ : Table) × (t₁.maxslots ≡ t.maxslots)
            × (put_data md5 t₁ (hash_of murmur md5 t key) (hash_of murmur md5 t key) key value 1
                ≡ (true, t')))
  unfolding put put_within put_moving
  put_stores t key value t' l e =
      let hash = hash_of murmur md5 t key in
      let some_slots : t.maxslots ≢ 0 = λ z. ground (arith, z) in
      (
        some_slots,
        elim (Bool-cases ((t.slots hash).count == 0)) [
          | inl free ↦ (t, refl, ground (arith, free))
          | inr taken ↦ elim (Option-cases (find_empty t (hash + 1))) [
            | inl none_left ↦ absurd (ground (arith, none_left, taken))
            | inr (i, found) ↦
                (move_away t hash i, move_away-maxslots t hash i, ground (arith, found, taken))
          ]
        ],
      )

  get-Entry :
      (t : Table) (key value : List ℕ)
      → t.maxslots ≢ 0
      → Entry murmur md5 t (hash_of murmur md5 t key) (hash_of murmur md5 t key) 1 key value
      → get murmur md5 t key ≡ (some value, t)
  unfolding get
  get-Entry t key value h e =
      ground (arith, get_idx-Entry t (hash_of murmur md5 t key) key value, e.is_value)

  -- Where `qhasharr_put` ends well and the slot of the key's hash led no entries, `qhasharr_get` gives
  -- the value for the key. The table has less than 2 ^ 31 slots, the value is not empty, the key is
  -- below 65536 bytes long, and its digest has 16 bytes.
  pub get-put_lem :
      (t : Table) (key value : List ℕ) (t' : Table)
      → t.maxslots < 2 ^ 31
      → 0 < length value
      → length key < 65536
      → length (md5 key) ≡ 16
      → is_leading (t.slots (hash_of murmur md5 t key)).count ≡ false
      → put murmur md5 t key value ≡ (true, t')
      → get murmur md5 t' key ≡ (some value, t')
  get-put_lem t key value t' small p h md l e =
      let hash = hash_of murmur md5 t key in
      let (slots, (t₁, same, stored)) = put_stores t key value t' l e in
      let bound : hash < t₁.maxslots = rw same (mod-lt (murmur key) (omega (arith, slots))) in
      let (entry, same', _) =
        put_data_lem murmur md5 t₁ hash hash 1 key value t' bound (rw same small)
          (λ w. omega (arith, w)) (λ w. omega (arith, w)) p h md stored in
      let hash' : hash_of murmur md5 t' key ≡ hash = ap (λ m. murmur key % m) (same' ∙ same) in
      get-Entry t' key value (rw (same' ∙ same) slots) (rw hash' entry)
