-- ===== src/Table/Put.antt =====
-- `qhasharr_put` of shmutil/qhasharr.c as a whole.
use shmutil.Base.{
  ℕ, zero, suc, ◌+◌, ◌-◌, ◌%◌, ◌<◌, ◌^◌, ◌≡◌, ◌≢◌, ◌⊎◌, inl, inr, refl, ap, ◌∙◌, Bool, Bool-cases,
  true, false, ◌&&◌, List, Option-cases, none, some, ltb, leb, ◌==◌, if◌then◌else◌, length, arith,
}
use native.Mathlib.Nat.{mod-lt}
use shmutil.Table.{Table, set_errno, is_leading, enobufs}
use shmutil.Table.Lookup.{get_idx, hash_of}
use shmutil.Table.Store.{put_data}
use shmutil.Table.Update.{remove, put_collision, put_moving, put_within, put}
use shmutil.Table.Found.{get_idx-some}
use shmutil.Table.Tally.{tally}
use shmutil.Table.Find.{entries}
use shmutil.Table.Linked.{get_idx-none}
use shmutil.Table.Remove.{IsValid, Keeps, IsAbsent, HasFewer, view-none}
use shmutil.Table.Removed.{found-IsRemoved, errno-SameUse}
use shmutil.Table.Putting.{IsPutFor, same-IsPutFor, errno-IsPutFor, put_fresh, put_moving-IsPutFor}
use shmutil.Table.Colliding.{put_collision-IsPutFor}

module _ (murmur : List ℕ → ℕ) (md5 : List ℕ → List ℕ) (key value : List ℕ) where
  abbrev pub hash : Table → ℕ
  hash t = hash_of murmur md5 t key

  -- The branches of `qhasharr_put`.
  pub branches :
      (depth : ℕ) (t : Table)
      → t.maxslots ≢ 0
      → ((leb t.maxslots t.usedslots ≡ true)
          × (put_within murmur md5 (suc depth) t key value ≡ (false, set_errno enobufs t)))
        ⊎ (((t.slots (hash t)).count ≡ 0)
            × (put_within murmur md5 (suc depth) t key value
                ≡ put_data md5 t (hash t) (hash t) key value 1))
        ⊎ ((is_leading (t.slots (hash t)).count ≡ true)
            × (get_idx murmur md5 t key (hash t) ≡ none)
            × (put_within murmur md5 (suc depth) t key value
                ≡ put_collision murmur md5 t (hash t) key value))
        ⊎ ((is_leading (t.slots (hash t)).count ≡ true)
            × ((i : ℕ) × (get_idx murmur md5 t key (hash t) ≡ some i))
            × (put_within murmur md5 (suc depth) t key value ≡ (
                if (remove murmur md5 t key).0
                then put_within murmur md5 depth (remove murmur md5 t key).1 key value
                else (false, (remove murmur md5 t key).1))))
        ⊎ (((t.slots (hash t)).count ≢ 0)
            × (is_leading (t.slots (hash t)).count ≡ false)
            × (put_within murmur md5 (suc depth) t key value
                ≡ put_moving murmur md5 t (hash t) key value))
  unfolding put_within
  branches depth t n = elim (Bool-cases (leb t.maxslots t.usedslots && ltb t.usedslots (2 ^ 31))) [
    | inl full ↦ inl (ground (arith, full), ground (arith, full, n))
    | inr room ↦ elim (Bool-cases ((t.slots (hash t)).count == 0)) [
      | inl free ↦ inr (inl (ground (arith, free), ground (arith, room, n, free)))
      | inr used ↦ elim (Bool-cases (is_leading (t.slots (hash t)).count)) [
        | inl lead ↦ elim (Option-cases (get_idx murmur md5 t key (hash t))) [
          | inl e ↦ inr (inr (inl (lead, e, ground (arith, room, n, used, lead, e))))
          | inr (i, e) ↦
              inr (inr (inr (inl (lead, (i, e), ground (arith, room, n, used, lead, e)))))
        ]
        | inr other ↦ inr (
            inr (
              inr (
                inr ((λ z. ground (arith, z, used)), other, ground (arith, room, n, used, other)))))
      ]
    ]
  ]

  module _ (p : 0 < length value) (h : length key < 65536) (md : length (md5 key) ≡ 16) where
    -- where the key is not found
    absent-IsPutFor :
        (depth : ℕ) (t : Table)
        → IsValid murmur md5 t
        → hash t < t.maxslots
        → get_idx murmur md5 t key (hash t) ≡ none
        → suc (tally (entries t (hash t)) t.maxslots) < 2 ^ 15
        → IsPutFor murmur md5 t key value (put_within murmur md5 (suc depth) t key value)
    absent-IsPutFor depth t v b none_found few =
        elim (branches depth t (λ z. omega (arith, z, b))) [
          | inl (_, e) ↦ rw e (errno-IsPutFor murmur md5 t key value enobufs v)
          | inr (inl (z, e)) ↦ rw e (put_fresh murmur md5 key value p h md t v b z)
          | inr (inr (inl (lead, _, e))) ↦
              let (_, _, _, c) = v in
              rw e (
                put_collision-IsPutFor murmur md5 key value p h md t v b lead
                  (λ i. get_idx-none murmur md5 t c key (hash t) i b none_found) few)
          | inr (inr (inr (inl (_, (i, found), _)))) ↦ absurd (cc)
          | inr (inr (inr (inr (u, n, e)))) ↦
              rw e (put_moving-IsPutFor murmur md5 key value p h md t v b u n)
        ]

    -- Where the key was removed before, a result for the table without it is one for the table.
    after_remove :
        (t t' : Table) (r : Bool × Table)
        → Keeps murmur md5 t t' key
        → IsAbsent murmur md5 t' key
        → HasFewer murmur md5 t t'
        → IsPutFor murmur md5 t' key value r
        → IsPutFor murmur md5 t key value r
    after_remove t t' r ((_, _, _, c'), m, same) away less ((v, size, same'), result) = (
      (v, size ∙ m, λ k n. same' k n ∙ same k n),
      elim result [
        | inl stored ↦ inl stored
        | inr (failed, inl gone, fewer) ↦
            inr (failed, inl gone, λ h. omega (arith, less h, fewer h))
        | inr (failed, inr kept, fewer) ↦ inr (
          failed,
          inl (kept ∙ view-none murmur md5 t' c' key away),
          λ h. omega (arith, less h, fewer h),
        )
      ],
    )

    pub put_again :
        (depth : ℕ) (t t' : Table) (r : Bool)
        → r ≡ true
        → (if r then put_within murmur md5 depth t' key value else (false, t'))
          ≡ put_within murmur md5 depth t' key value
    put_again depth t t' r e = rw e refl

    pub not_found :
        (t : Table)
        → hash t < t.maxslots
        → IsAbsent murmur md5 t key
        → get_idx murmur md5 t key (hash t) ≡ none
    not_found t b away = elim (Option-cases (get_idx murmur md5 t key (hash t))) [
      | inl e ↦ e
      | inr (i, e) ↦ absurd (away i (get_idx-some murmur md5 t key (hash t) i b e))
    ]

    -- where the key is found, so that it is removed first
    found-IsPutFor :
        (depth : ℕ) (t : Table) (i : ℕ)
        → IsValid murmur md5 t
        → hash t < t.maxslots
        → get_idx murmur md5 t key (hash t) ≡ some i
        → suc (tally (entries t (hash t)) t.maxslots) < 2 ^ 15
        → IsPutFor murmur md5 t key value (put_within murmur md5 (suc (suc depth)) t key value)
    found-IsPutFor depth t i v b found few =
        elim (branches (suc depth) t (λ z. omega (arith, z, b))) [
          | inl (_, e) ↦ rw e (errno-IsPutFor murmur md5 t key value enobufs v)
          | inr (inl (z, e)) ↦ rw e (put_fresh murmur md5 key value p h md t v b z)
          | inr (inr (inl (_, none_found, _))) ↦ absurd (cc)
          | inr (inr (inr (inl (_, _, e)))) ↦
              let t' = (remove murmur md5 t key).1 in
              let (done, k, away, fewer) = found-IsRemoved murmur md5 t key i v b found in
              let (v', m, _) = k in
              let same_hash : hash t' ≡ hash t = ap (λ n. murmur key % n) m in
              let b' : hash t' < t'.maxslots = rw same_hash (omega (arith, b, m)) in
              let few' : suc (tally (entries t' (hash t')) t'.maxslots) < 2 ^ 15 =
                rw same_hash (omega (arith, few, fewer (hash t))) in
              rw (e ∙ put_again (suc depth) t t' (remove murmur md5 t key).0 done) (
                after_remove t t' (put_within murmur md5 (suc depth) t' key value) k away fewer
                  (absent-IsPutFor depth t' v' b' (not_found t' b' away) few'))
          | inr (inr (inr (inr (u, n, e)))) ↦
              rw e (put_moving-IsPutFor murmur md5 key value p h md t v b u n)
        ]

  pub no_slots :
      (depth : ℕ) (t : Table)
      → t.maxslots ≡ 0
      → put_within murmur md5 depth t key value ≡ (false, t)
  unfolding put_within
  no_slots zero t z = refl
  no_slots (suc depth) t z = ground (arith, z)

  pub plus_one : (n : ℕ) → n + 1 ≡ suc n
  plus_one n = omega arith

  pub put-put_within :
      (t : Table) → put murmur md5 t key value ≡ put_within murmur md5 (t.maxslots + 1) t key value
  unfolding put
  put-put_within t = refl

  -- On a well-formed table `qhasharr_put` leaves a well-formed table, and for every key that a slot can tell from its key `qhasharr_get` gives what it gave before. With true it gives the value for the key; with false NULL, or what it gave before, and then no hash has more entries than before. The value is not empty, the key is below 65536 bytes long, its digest has 16 bytes, and less than 32767 entries have its hash.
  pub put-view :
      (t : Table)
      → IsValid murmur md5 t
      → 0 < length value
      → length key < 65536
      → length (md5 key) ≡ 16
      → suc (tally (entries t (hash_of murmur md5 t key)) t.maxslots) < 2 ^ 15
      → IsPutFor murmur md5 t key value (put murmur md5 t key value)
  put-view t v p h md few = rw (put-put_within t) (elim (Bool-cases (t.maxslots == 0)) [
    | inl z ↦ rw (no_slots (t.maxslots + 1) t (ground (arith, z))) (
        same-IsPutFor murmur md5 t key value (false, t) v refl
          (errno-SameUse murmur md5 t t (refl, λ j. refl)))
    | inr n ↦
        let (own, pos, l, c) = v in
        let b : hash t < t.maxslots = mod-lt (murmur key) (ground (arith, n)) in
        elim (Option-cases (get_idx murmur md5 t key (hash t))) [
          | inl e ↦ rw (plus_one t.maxslots) (absent-IsPutFor p h md t.maxslots t v b e few)
          | inr (i, e) ↦
              let two : t.maxslots + 1 ≡ suc (suc (t.maxslots - 1)) = omega (arith, b) in
              rw two (found-IsPutFor p h md (t.maxslots - 1) t i v b e few)
        ]
  ])
