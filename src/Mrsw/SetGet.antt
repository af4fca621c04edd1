-- ===== src/Mrsw/SetGet.antt =====
-- `getValue` after `setValue` of shmutil/shm_mrsw_hashtable.cc.
use shmutil.Base.{ℕ, ◌+◌, ◌%◌, ◌^◌, ◌<◌, ◌≡◌, ap, ◌∙◌, Bool, true, false, [], some, length, arith}
use shmutil.ErrorCode.{k_ok}
use shmutil.Table.{Table, is_leading}
use shmutil.Table.Lookup.{get, hash_of}
use shmutil.Table.Update.{put}
use shmutil.Table.PutGet.{get-put_lem}
use shmutil.Value.{encode_value_len, encode_value_str}
use shmutil.Value.RoundTrip.{verify-encode}
use shmutil.Mrsw.{Str, MrswHashtable, is_nil, get_value, put_table, set_within, set_value}

module _ (little : Bool) (murmur : Str → ℕ) (md5 : Str → Str) (dec : Discrete Str) where
  pub get-table :
      (t : Table) (key : Str)
      → ((get murmur md5 t key).1.slots ≡ t.slots)
        × ((get murmur md5 t key).1.maxslots ≡ t.maxslots)
  unfolding get
  get-table t key = ground arith

  -- the handle after the `getValue` with which `setValue` begins
  abbrev pub looked : MrswHashtable → Str → MrswHashtable
  looked h key = (get_value little murmur md5 dec h key []).2

  pub looked_table :
      (h : MrswHashtable) (key : Str) (t : Table)
      → h.table ≡ some t
      → h.is_init ≡ true
      → is_nil key ≡ false
      → ((looked h key).table ≡ some (get murmur md5 t key).1)
        × ((looked h key).is_init ≡ true)
        × ((looked h key).is_lru_eliminate ≡ h.is_lru_eliminate)
  unfolding get_value
  looked_table h key t e i n = ground (arith, e, i, n)

  pub set_value-within :
      (h : MrswHashtable) (key val : Str) (h' : MrswHashtable)
      → set_value little murmur md5 dec h key val ≡ some (k_ok, h')
      → set_within little murmur md5 dec
          (length (looked h key).lru.lru_mem + 2)
          (looked h key)
          key
          (encode_value_str little md5 val)
        ≡ some (k_ok, h')
  unfolding set_value
  set_value-within h key val h' e = ground arith

  -- Without elimination, success means that the table took the value.
  set_within-put :
      (rounds : ℕ) (h : MrswHashtable) (key val : Str) (t : Table) (h' : MrswHashtable)
      → h.table ≡ some t
      → h.is_lru_eliminate ≡ false
      → set_within little murmur md5 dec rounds h key val ≡ some (k_ok, h')
      → (put murmur md5 t key val ≡ (true, (put murmur md5 t key val).1))
        × (h'.table ≡ some (put murmur md5 t key val).1)
        × (h'.is_init ≡ h.is_init)
  unfolding set_within put_table
  set_within-put rounds h key val t h' e l s = ground (arith, e, l)

  pub encode_value_str_pos : (val : Str) → 0 < length (encode_value_str little md5 val)
  unfolding encode_value_str encode_value_len
  encode_value_str_pos val = ground arith

  get_value-stored :
      (h : MrswHashtable) (key val old : Str) (t : Table)
      → h.table ≡ some t
      → h.is_init ≡ true
      → is_nil key ≡ false
      → get murmur md5 t key ≡ (some (encode_value_str little md5 val), t)
      → length val < 2 ^ 32
      → ((xs : Str) → length (md5 xs) ≡ 16)
      → ((get_value little murmur md5 dec h key old).0 ≡ k_ok)
        × ((get_value little murmur md5 dec h key old).1 ≡ val)
  unfolding get_value
  get_value-stored h key val old t e i n g b m =
      ground (arith, e, i, n, g, verify-encode little md5 m val b)

  -- Where `setValue` ends with success on an initialised handle that does not eliminate old keys, and
  -- the slot of the key's hash led no entries, `getValue` gives the value for the key. The table has
  -- less than 2 ^ 31 slots, the key is not empty and below 65536 bytes, the value below 2 ^ 32 bytes,
  -- and digests have 16 bytes.
  pub get_value-set_value :
      (h : MrswHashtable) (key val old : Str) (t : Table) (h' : MrswHashtable)
      → h.table ≡ some t
      → h.is_init ≡ true
      → h.is_lru_eliminate ≡ false
      → t.maxslots < 2 ^ 31
      → is_nil key ≡ false
      → length key < 65536
      → length val < 2 ^ 32
      → ((xs : Str) → length (md5 xs) ≡ 16)
      → is_leading (t.slots (hash_of murmur md5 t key)).count ≡ false
      → set_value little murmur md5 dec h key val ≡ some (k_ok, h')
      → ((get_value little murmur md5 dec h' key old).0 ≡ k_ok)
        × ((get_value little murmur md5 dec h' key old).1 ≡ val)
  get_value-set_value h key val old t h' e i l small n b v m free s =
      let t₁ = (get murmur md5 t key).1 in
      let enc = encode_value_str little md5 val in
      let (slots, max) = get-table t key in
      let (table, init, keep) = looked_table h key t e i n in
      let within = set_value-within h key val h' s in
      let (done, table', init') =
        set_within-put (length (looked h key).lru.lru_mem + 2) (looked h key) key enc t₁ h' table
          (keep ∙ l) within in
      let hash : hash_of murmur md5 t₁ key ≡ hash_of murmur md5 t key =
        ap (λ k. murmur key % k) max in
      let free₁ : is_leading (t₁.slots (hash_of murmur md5 t₁ key)).count ≡ false =
        rw (slots, hash) free in
      let got =
        get-put_lem murmur md5 t₁ key enc (put murmur md5 t₁ key enc).1 (rw max small)
          (encode_value_str_pos val) b (m key) free₁ done in
      get_value-stored h' key val old (put murmur md5 t₁ key enc).1 table' (init' ∙ init) n got v m
