-- ===== src/Table/RoundTrip.antt =====
-- What `_put_data` of shmutil/qhasharr.c stores `_get_data` reads back, and `_get_idx` finds.
use shmutil.Base.{
  ℕ, suc, ◌+◌, ◌-◌, ◌*◌, ◌≤◌, ◌<◌, ◌^◌, ◌≡◌, ◌≢◌, inl, inr, refl, sym, ap, ap₂, ◌∙◌, Bool-cases,
  true, false, List, [], ◌∷◌, some, leb, leb→le, ◌==◌, length, length-take, arith, get_or, take,
}
use shmutil.Memory.{Memory, memcpy, bytes, bytes_ext}
use shmutil.Table.{Slot, Table, set_slot, extended}
use shmutil.Table.Lookup.{get_data, same_key}
use shmutil.Table.Store.{store_key, copysize, store_part, store_value, put_data}
use shmutil.Table.Usage.{used-le, used_pos, set_slot_same, set_slot_other}
use shmutil.Table.Chain.{Chain, get_data-Chain}
use shmutil.Memory.{store8}
use shmutil.Table.{at_keylen}
use shmutil.Table.Written.{get_or-take, store_part-Chain, part-store_part, copysize-le}
use shmutil.Table.Stored.{Stored, copysize_pos, store_value-Stored}
use shmutil.Value.RoundTrip.{same_bytes_refl}
use shmutil.Table.Frame.{
  Kept, Kept-trans, store_part_other, store_part-Kept, store_value_other, store_value-Kept,
  store_value-maxslots,
}

eq_test : (a b : ℕ) → a ≡ b → (a == b) ≡ true
eq_test a b e = ground arith

leb-false : (a b : ℕ) → leb a b ≡ false → b < a
leb-false a b e = ground arith

module _ (murmur : List ℕ → ℕ) (md5 : List ℕ → List ℕ) where
  -- the first slot with its key
  abbrev head : Table → ℕ → ℕ → List ℕ → ℕ → Slot
  head t idx hash key count = store_key md5 (t.slots idx) key hash count

  put_data_first :
      (t : Table) (idx hash : ℕ) (key : List ℕ) (x : ℕ) (xs : List ℕ) (count : ℕ) (t' : Table)
      → put_data md5 t idx hash key (x ∷ xs) count ≡ (true, t')
      → ((t.slots idx).count ≡ 0)
        × (store_value
              (length xs)
              (store_part (set_slot t idx (head t idx hash key count)) idx (x ∷ xs) 0)
              idx
              (x ∷ xs)
              idx
              (copysize ((set_slot t idx (head t idx hash key count)).slots idx) (suc (length xs)))
            ≡ (true, t'))
  unfolding put_data store_value
  put_data_first t idx hash key x xs count t' e = ground arith

  -- the key's part of a slot that `_put_data` fills
  module _ (s : Slot) (key : List ℕ) (hash count : ℕ) where
    abbrev filled : Memory
    filled = (store_key md5 s key hash count).contents

    stored_keylen :
        length key < 65536 → filled at_keylen + filled (at_keylen + 1) * 256 ≡ length key
    unfolding store_key memcpy store8
    stored_keylen h = ground arith

    stored_byte : (i : ℕ) → i < length key → i < 96 → filled (128 + i) ≡ get_or key i 0
    unfolding store_key memcpy store8
    stored_byte i h h' = ground arith

    stored_md5 : (i : ℕ) → i < 16 → filled (226 + i) ≡ get_or (md5 key) i 0
    unfolding store_key memcpy store8
    stored_md5 i h = ground arith

    module _ (s' : Slot) (k : Kept (store_key md5 s key hash count) s') where
      short_key : length key ≤ 96 → bytes s'.contents 128 (length key) ≡ key
      short_key h =
          bytes_ext s'.contents 128 key
            (λ i b. k.key (128 + i) (omega arith) ∙ stored_byte i b (omega arith))

      long_key : 96 < length key → bytes s'.contents 128 96 ≡ take 96 key
      long_key h =
          let n : length (take 96 key) ≡ 96 = omega (arith, length-take 96 key) in
          rw n at (
            bytes_ext s'.contents 128 (take 96 key) (λ i b.
              k.key (128 + i) (omega arith)
              ∙ stored_byte i (omega (arith, n)) (omega (arith, n))
              ∙ sym (get_or-take 96 i key (omega (arith, n)))))

      key_md5 : length (md5 key) ≡ 16 → bytes s'.contents 226 16 ≡ md5 key
      key_md5 d = rw d at (
          bytes_ext s'.contents 226 (md5 key)
            (λ i b. k.key (226 + i) (omega arith) ∙ stored_md5 i (omega (arith, d))))

      same_key_stored :
          length key < 65536 → length (md5 key) ≡ 16 → same_key murmur md5 s' key ≡ true
      unfolding same_key
      same_key_stored h d =
          let len : length key ≡ s'.contents 224 + s'.contents 225 * 256 =
            sym (stored_keylen h)
            ∙ ap₂ (λ a b. a + b * 256) (sym (k.key 224 (omega arith)))
                (sym (k.key 225 (omega arith))) in
          elim (Bool-cases (leb (length key) 96)) [
            | inl short ↦ rw (
              eq_test (length key) (s'.contents 224 + s'.contents 225 * 256) len,
              short,
              short_key (leb→le (length key) 96 short),
              same_bytes_refl key,
            )
            | inr long ↦
                let n = leb-false (length key) 96 long in
                rw (
                  eq_test (length key) (s'.contents 224 + s'.contents 225 * 256) len,
                  long,
                  long_key n,
                  key_md5 d,
                  same_bytes_refl (take 96 key),
                  same_bytes_refl (md5 key),
                )
          ]

  -- What is there of an entry in slot `idx`: its head, and the value in its chain.
  pub record Entry (t : Table) (idx hash count : ℕ) (key value : List ℕ) : Type 0 where
    pub is_count : (t.slots idx).count ≡ count
    pub is_hash : (t.slots idx).hash ≡ hash
    pub is_key : same_key murmur md5 (t.slots idx) key ≡ true
    pub is_value : get_data t idx ≡ some value

  module _ (t : Table) (idx hash count : ℕ) (key value : List ℕ) (t' : Table)
      (bound : idx < t.maxslots) (small : t.maxslots < 2 ^ 31) (c : count ≢ 0)
      (e : count ≢ extended) where
    -- the table with the head, and with the first piece of the value
    abbrev t₁ : Table
    t₁ = set_slot t idx (head t idx hash key count)

    abbrev t₂ : Table
    t₂ = store_part t₁ idx value 0

    head-count : (head t idx hash key count).count ≡ count
    unfolding store_key
    head-count = refl

    head-hash : (head t idx hash key count).hash ≡ hash
    unfolding store_key
    head-hash = refl

    head-Chain : Chain t₁ idx [] idx
    unfolding set_slot store_key
    head-Chain = record {
      seg = refl;
      ends = ground arith;
      bound = bound;
      apart = tt;
      last_used = ground arith;
      all_used = tt;
      room = used_pos t₁.slots idx t.maxslots bound (ground arith);
    }

    t₁-count : (t₁.slots idx).count ≡ count
    unfolding set_slot store_key
    t₁-count = ground arith

    head-Kept :
        (md : length (md5 key) ≡ 16)
        → length key < 65536
        → 0 < length value
        → store_value (length value - 1) t₂ idx value idx (copysize (t₁.slots idx) (length value))
          ≡ (true, t')
        → Kept (head t idx hash key count) (t'.slots idx)
    head-Kept md h p stored =
        let k₁ = store_part-Kept t₁ idx value 0 (λ w. e (sym t₁-count ∙ w)) in
        let used₂ : (t₂.slots idx).count ≢ 0 = λ w. c (sym t₁-count ∙ sym k₁.count ∙ w) in
        rw (set_slot_same t idx (head t idx hash key count)) at (
          Kept-trans (t₁.slots idx) (t₂.slots idx) (t'.slots idx) k₁ (
            store_value-Kept (length value - 1) t₂ idx value idx
              (copysize (t₁.slots idx) (length value)) t' idx
              (copysize_pos (t₁.slots idx) (length value) p) used₂ stored))

    first-Stored :
        0 < length value
        → store_value (length value - 1) t₂ idx value idx (copysize (t₁.slots idx) (length value))
          ≡ (true, t')
        → Stored t' idx value
    first-Stored p stored =
        let size = copysize (t₁.slots idx) (length value) in
        let pos : 0 < size = copysize_pos (t₁.slots idx) (length value) p in
        let whole : length value - 0 ≡ length value = omega arith in
        let le : size ≤ length value = copysize-le (t₁.slots idx) (length value) in
        store_value-Stored (length value - 1) t₂ idx value idx size [] t'
          (store_part-Chain t₁ idx idx [] value 0 head-Chain) pos le (omega (arith, pos, p))
          (rw whole at (part-store_part t₁ idx idx [] value 0 head-Chain (omega arith))) stored

    others :
        (j : ℕ)
        → j ≢ idx
        → (t.slots j).count ≢ 0
        → 0 < length value
        → store_value (length value - 1) t₂ idx value idx (copysize (t₁.slots idx) (length value))
          ≡ (true, t')
        → t'.slots j ≡ t.slots j
    others j a u p stored =
        let same : t₂.slots j ≡ t.slots j =
          store_part_other t₁ idx value 0 j a
          ∙ set_slot_other t idx j (head t idx hash key count) a in
        store_value_other (length value - 1) t₂ idx value idx
          (copysize (t₁.slots idx) (length value)) t' j
          (copysize_pos (t₁.slots idx) (length value) p) a (rw same u) stored
        ∙ same

    t₂-maxslots : t₂.maxslots ≡ t.maxslots
    unfolding store_part set_slot
    t₂-maxslots = refl

    -- `_put_data` with a value that is not empty
    module _ (empty : (t.slots idx).count ≡ 0) (p : 0 < length value) (h : length key < 65536)
        (md : length (md5 key) ≡ 16)
        (stored : store_value
            (length value - 1)
            t₂
            idx
            value
            idx
            (copysize (t₁.slots idx) (length value))
          ≡ (true, t')) where
      stored-maxslots : t'.maxslots ≡ t.maxslots
      stored-maxslots =
          store_value-maxslots (length value - 1) t₂ idx value idx
            (copysize (t₁.slots idx) (length value)) t'
            (copysize_pos (t₁.slots idx) (length value) p) stored
          ∙ t₂-maxslots

      stored-Entry : Entry t' idx hash count key value
      stored-Entry =
          let k = head-Kept md h p stored in
          let (l, n, chain, w) = first-Stored p stored in
          record {
            is_count = k.count ∙ head-count;
            is_hash = k.hash ∙ head-hash;
            is_key = same_key_stored (t.slots idx) key hash count (t'.slots idx) k h md;
            is_value =
                get_data-Chain t' idx n l chain (rw stored-maxslots small)
                  (omega (arith, chain.room, used-le t'.slots t'.maxslots))
                ∙ ap some w;
          }

  -- Where `_put_data` stores a value that is not empty in slot `idx` of the table, this slot has the
  -- hash, the count and the key afterwards, `_get_data` reads the value there, and all other slots that
  -- were in use are as before. The table has less than 2 ^ 31 slots, the count is neither 0 nor -2, the
  -- key is below 65536 bytes long, and its digest has 16 bytes.
  pub put_data_lem :
      (t : Table) (idx hash count : ℕ) (key value : List ℕ) (t' : Table)
      → idx < t.maxslots
      → t.maxslots < 2 ^ 31
      → count ≢ 0
      → count ≢ extended
      → 0 < length value
      → length key < 65536
      → length (md5 key) ≡ 16
      → put_data md5 t idx hash key value count ≡ (true, t')
      → Entry t' idx hash count key value
        × (t'.maxslots ≡ t.maxslots)
        × ((j : ℕ) → j ≢ idx → (t.slots j).count ≢ 0 → t'.slots j ≡ t.slots j)
  put_data_lem t idx hash count key [] t' b small c e p h md stored = absurd (omega arith)
  put_data_lem t idx hash count key (x ∷ xs) t' b small c e p h md stored =
      let value = x ∷ xs in
      let (empty, first) = put_data_first t idx hash key x xs count t' stored in
      let z : suc (length xs) - 1 ≡ length xs = omega arith in
      let run : store_value (suc (length xs) - 1) (t₂ t idx hash count key value t' b small c e) idx
            value idx
            (copysize ((t₁ t idx hash count key value t' b small c e).slots idx) (length value))
          ≡ (true, t') =
        rw z first in
      (
        stored-Entry t idx hash count key value t' b small c e empty p h md run,
        stored-maxslots t idx hash count key value t' b small c e empty p h md run,
        λ j a u. others t idx hash count key value t' b small c e j a u p run,
      )
