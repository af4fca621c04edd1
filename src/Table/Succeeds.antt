-- ===== src/Table/Succeeds.antt =====
-- `qhasharr_put` of shmutil/qhasharr.c gives true where enough slots are empty.
use shmutil.Base.{
  ℕ, suc, ◌+◌, ◌-◌, ◌*◌, ◌%◌, ◌≤◌, ◌<◌, ◌≡◌, ◌≢◌, refl, ap, ◌∙◌, inl, inr, Bool, true, false, List,
  Option-cases, none, some, length, arith,
}
use native.Mathlib.Nat.{mod-lt}
use shmutil.Table.{Slot, Table, is_leading, collision, find_empty}
use shmutil.Table.Lookup.{get_idx, hash_of}
use shmutil.Table.Store.{put_data}
use shmutil.Table.Update.{remove, move_away, put_collision, put_moving, put_within, put}
use shmutil.Table.Search.{find_empty-some}
use shmutil.Table.Linked.{is_head, Linked}
use shmutil.Table.Counters.{IsCounting}
use shmutil.Table.CountedMove.{move_away-IsWithin}
use shmutil.Table.CountedRemove.{remove-IsWithin}
use shmutil.Table.Roomy.{find_empty-full, put_data-true}
use shmutil.Table.Moved.{own_moved, pos_moved, moved-Linked, move_away-IsMoved, moved_slot-left}
use shmutil.Table.Remove.{IsValid}
use shmutil.Table.Removed.{found-IsRemoved}
use shmutil.Table.Putting.{moving-put}
use shmutil.Table.Colliding.{collision-put}
use shmutil.Table.Put.{branches, put_again, not_found, put-put_within, plus_one}

-- The empty slots are enough for a value, by the table's counter of used slots.
abbrev pub IsRoomFor : Table → List ℕ → Type 0
IsRoomFor t value =
    (t.usedslots < t.maxslots) × (length value ≤ 128 + 242 * (t.maxslots - t.usedslots - 1))

IsRoomFor-fewer :
    (t t' : Table) (value : List ℕ)
    → t'.maxslots ≡ t.maxslots
    → t'.usedslots ≤ t.usedslots
    → IsRoomFor t value
    → IsRoomFor t' value
IsRoomFor-fewer t t' value m le (some_left, fits) =
    (omega (arith, m, le, some_left), omega (arith, m, le, some_left, fits))

module _ (murmur : List ℕ → ℕ) (md5 : List ℕ → List ℕ) (key value : List ℕ) (p : 0 < length value)
    (h : length key < 65536) (md : length (md5 key) ≡ 16) where
  abbrev hash : Table → ℕ
  hash t = hash_of murmur md5 t key

  stored-true :
      (t : Table) (own pos : ℕ → ℕ) (l : Linked t own pos) (idx h count : ℕ)
      → idx < t.maxslots
      → (t.slots idx).count ≡ 0
      → is_head count ≡ true
      → IsCounting t 0 0
      → IsRoomFor t value
      → (put_data md5 t idx h key value count).0 ≡ true
  stored-true t own pos l idx h count b z hc (small, used, num) (_, fits) =
      put_data-true md5 t own pos l idx h count key value b z hc p (omega (arith, used, fits))

  room-find_empty :
      (t : Table) (start : ℕ) → IsCounting t 0 0 → IsRoomFor t value → find_empty t start ≢ none
  room-find_empty t start (small, used, num) (some_left, _) e =
      omega (arith, find_empty-full t start e, used, some_left)

  collision-true :
      (t : Table)
      → IsValid murmur md5 t
      → IsCounting t 0 0
      → IsRoomFor t value
      → (put_collision murmur md5 t (hash t) key value).0 ≡ true
  collision-true t (own, pos, l, c) n r = elim (Option-cases (find_empty t (hash t))) [
    | inl e ↦ absurd (room-find_empty t (hash t) n r e)
    | inr (idx, e) ↦
        let (bi, z) = find_empty-some t (hash t) idx e in
        rw
          (
            collision-put murmur md5 key value p h md t (hash t) idx e,
            stored-true t own pos l idx (hash t) collision bi z refl n r,
          )
          refl
  ]

  moving-true :
      (t : Table)
      → IsValid murmur md5 t
      → hash t < t.maxslots
      → (t.slots (hash t)).count ≢ 0
      → is_leading (t.slots (hash t)).count ≡ false
      → IsCounting t 0 0
      → IsRoomFor t value
      → (put_moving murmur md5 t (hash t) key value).0 ≡ true
  moving-true t (own, pos, l, c) b u other n r = elim (Option-cases (find_empty t (hash t + 1))) [
    | inl e ↦ absurd (room-find_empty t (hash t + 1) n r e)
    | inr (i, e) ↦
        let (bi, z) = find_empty-some t (hash t + 1) i e in
        let t' = move_away t (hash t) i in
        let m = move_away-IsMoved t own pos l (hash t) i b u bi z other in
        let l' = moved-Linked t own pos l (hash t) i b u bi z t' m in
        let left : (t'.slots (hash t)).count ≡ 0 =
          ap (λ (q : Slot). q.count) (m.1 (hash t) b)
          ∙ moved_slot-left t (hash t) i (λ w. u (ap (λ k. (t.slots k).count) w ∙ z)) in
        let (n', le) = move_away-IsWithin t (hash t) i bi z b u t.usedslots (n, omega arith) in
        ap (λ (q : Bool × Table). q.0) (moving-put murmur md5 key value p h md t (hash t) i e)
        ∙ stored-true t' (own_moved t own pos l (hash t) i b u bi z)
            (pos_moved t own pos l (hash t) i b u bi z) l' (hash t) (hash t) 1
            (omega (arith, b, m.0)) left refl n' (IsRoomFor-fewer t t' value m.0 le r)
  ]

  absent-true :
      (depth : ℕ) (t : Table)
      → IsValid murmur md5 t
      → hash t < t.maxslots
      → get_idx murmur md5 t key (hash t) ≡ none
      → IsCounting t 0 0
      → IsRoomFor t value
      → (put_within murmur md5 (suc depth) t key value).0 ≡ true
  absent-true depth t v b none_found n r =
      let (own, pos, l, c) = v in
      elim (branches murmur md5 key value depth t (λ z. omega (arith, z, b))) [
        | inl (full, _) ↦ absurd (ground (arith, full, r.0))
        | inr (inl (z, e)) ↦ rw e (stored-true t own pos l (hash t) (hash t) 1 b z refl n r)
        | inr (inr (inl (lead, _, e))) ↦ rw e (collision-true t v n r)
        | inr (inr (inr (inl (_, (i, found), _)))) ↦ absurd (cc)
        | inr (inr (inr (inr (u, other, e)))) ↦ rw e (moving-true t v b u other n r)
      ]

  found-true :
      (depth : ℕ) (t : Table) (i : ℕ)
      → IsValid murmur md5 t
      → hash t < t.maxslots
      → get_idx murmur md5 t key (hash t) ≡ some i
      → IsCounting t 0 0
      → IsRoomFor t value
      → (put_within murmur md5 (suc (suc depth)) t key value).0 ≡ true
  found-true depth t i v b found n r =
      let (own, pos, l, c) = v in
      elim (branches murmur md5 key value (suc depth) t (λ z. omega (arith, z, b))) [
        | inl (full, _) ↦ absurd (ground (arith, full, r.0))
        | inr (inl (z, e)) ↦ rw e (stored-true t own pos l (hash t) (hash t) 1 b z refl n r)
        | inr (inr (inl (_, none_found, _))) ↦ absurd (cc)
        | inr (inr (inr (inl (_, _, e)))) ↦
            let t' = (remove murmur md5 t key).1 in
            let (done, (v', m, _), away, fewer) = found-IsRemoved murmur md5 t key i v b found in
            let same_hash : hash t' ≡ hash t = ap (λ k. murmur key % k) m in
            let b' : hash t' < t'.maxslots = rw same_hash (omega (arith, b, m)) in
            let (n', le) = remove-IsWithin murmur md5 t key t.usedslots v (n, omega arith) in
            rw
              (e
                ∙ put_again murmur md5 key value p h md (suc depth) t t' (remove murmur md5 t key).0
                    done)
              (absent-true depth t' v' b' (not_found murmur md5 key value p h md t' b' away) n'
                (IsRoomFor-fewer t t' value m le r))
        | inr (inr (inr (inr (u, other, e)))) ↦ rw e (moving-true t v b u other n r)
      ]

  -- On a well-formed table with right counters `qhasharr_put` gives true if a slot is empty and the value fits into the empty slots, 128 bytes into the first and 242 into each other one, whatever slots and chains these are, and whether the key is there or not. The value is not empty, the key is below 65536 bytes long, and its digest has 16 bytes.
  pub put-true :
      (t : Table)
      → IsValid murmur md5 t
      → IsCounting t 0 0
      → IsRoomFor t value
      → (put murmur md5 t key value).0 ≡ true
  put-true t v n r =
      let b : hash t < t.maxslots = mod-lt (murmur key) (omega (arith, r.0)) in
      rw (put-put_within murmur md5 key value t)
        (elim (Option-cases (get_idx murmur md5 t key (hash t))) [
          | inl e ↦
              rw (plus_one murmur md5 key value t.maxslots) (absent-true t.maxslots t v b e n r)
          | inr (i, e) ↦
              let two : t.maxslots + 1 ≡ suc (suc (t.maxslots - 1)) = omega (arith, b) in
              rw two (found-true (t.maxslots - 1) t i v b e n r)
        ])
