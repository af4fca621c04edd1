-- ===== src/Table/Putting.antt =====
-- The cases of `qhasharr_put` of shmutil/qhasharr.c for a key that is not in the table.
use shmutil.Base.{
  ℕ, suc, ◌+◌, ◌%◌, ◌<◌, ◌≡◌, ◌≢◌, ◌⊎◌, inl, inr, refl, sym, ap, ◌∙◌, Bool, true, false, List,
  Option-cases, none, some, length, arith,
}
use shmutil.Table.{Slot, Table, set_errno, find_empty, is_leading, enobufs}
use shmutil.Table.Lookup.{hash_of}
use shmutil.Table.Store.{put_data}
use shmutil.Table.Update.{put_moving, move_away}
use shmutil.Table.Search.{find_empty-some}
use shmutil.Table.Found.{IsFound}
use shmutil.Table.Tally.{tally}
use shmutil.Table.Find.{entries}
use shmutil.Table.Linked.{Counted, Counted-CountedBut, CountedBut-Counted, hash_led}
use shmutil.Table.Moved.{own_moved, pos_moved, moved-Linked, moved_slot-left, move_away-IsMoved}
use shmutil.Table.Relocated.{moved_tally, moved-CountedBut, moved-Shows}
use shmutil.Table.View.{view, Shows, view_same}
use shmutil.Table.Same.{SameUse, same_tally}
use shmutil.Table.Remove.{IsValid, Keeps, HasFewer}
use shmutil.Table.Removed.{SameUse-Keeps, errno-SameUse}
use shmutil.Table.Added.{put_data-IsPut}
use shmutil.Table.Entered.{entered_tally, entered-CountedBut, entered-Shows, entered-view}

module _ (murmur : List ℕ → ℕ) (md5 : List ℕ → List ℕ) where
  -- With true the value is shown for the key, with false what was shown before or nothing, and no
  -- hash has more entries than before.
  abbrev pub IsPutFor : Table → List ℕ → List ℕ → Bool × Table → Type 0
  IsPutFor t key value r =
      Keeps murmur md5 t r.1 key
      × (((r.0 ≡ true) × (view murmur md5 r.1 key ≡ some value))
          ⊎ ((r.0 ≡ false)
              × ((view murmur md5 r.1 key ≡ none)
                  ⊎ (view murmur md5 r.1 key ≡ view murmur md5 t key))
              × HasFewer murmur md5 t r.1))

  -- a failure that leaves the slots in use
  pub same-IsPutFor :
      (t : Table) (key value : List ℕ) (r : Bool × Table)
      → IsValid murmur md5 t
      → r.0 ≡ false
      → SameUse t r.1
      → IsPutFor t key value r
  same-IsPutFor t key value r v failed s =
      let (k, w) = SameUse-Keeps murmur md5 t r.1 key v s in
      (k, inr (failed, inr w, λ h. omega (arith, same_tally t r.1 s h)))

  pub errno-IsPutFor :
      (t : Table) (key value : List ℕ) (e : ℕ)
      → IsValid murmur md5 t
      → IsPutFor t key value (false, set_errno e t)
  errno-IsPutFor t key value e v =
      same-IsPutFor t key value (false, set_errno e t) v refl
        (errno-SameUse murmur md5 t (set_errno e t) (refl, λ j. refl))

  -- No entry has a hash whose slot does not lead.
  no_entries :
      (t : Table) (c : Counted murmur md5 t) (h : ℕ)
      → h < t.maxslots
      → is_leading (t.slots h).count ≡ false
      → tally (entries t h) t.maxslots ≡ 0
  no_entries t c h b n = elim (c.group h b) [ inl z ↦ z | inr (lead, _) ↦ absurd (cc) ]

  pub not_led-absent :
      (t : Table) (c : Counted murmur md5 t) (key : List ℕ) (h i : ℕ)
      → h < t.maxslots
      → is_leading (t.slots h).count ≡ false
      → ¬ IsFound murmur md5 t key h i
  not_led-absent t c key h i b n (bi, e, _) =
      let (lead, _) = hash_led murmur md5 t c h i b bi e in absurd (cc)

  module _ (key value : List ℕ) (p : 0 < length value) (h : length key < 65536)
      (md : length (md5 key) ≡ 16) where
    -- in the empty slot of the hash
    pub put_fresh :
        (t : Table)
        → IsValid murmur md5 t
        → hash_of murmur md5 t key < t.maxslots
        → (t.slots (hash_of murmur md5 t key)).count ≡ 0
        → IsPutFor t key value
            (put_data md5 t (hash_of murmur md5 t key) (hash_of murmur md5 t key) key value 1)
    put_fresh t v b z =
        let (own, pos, l, c) = v in
        let hash = hash_of murmur md5 t key in
        let run = put_data md5 t hash hash key value 1 in
        let free : is_leading (t.slots hash).count ≡ false = ground (arith, z) in
        elim (put_data-IsPut murmur md5 t own pos l hash hash 1 key value b z refl p h md) [
          | inr (failed, s) ↦ same-IsPutFor t key value run v failed s
          | inl (done, (own', pos', l'), a) ↦
              let t' = run.1 in
              let but =
                entered-CountedBut murmur md5 t t' hash hash 1 key value a refl
                  (λ i. not_led-absent t c key hash i b free) b (λ e. refl)
                  (Counted-CountedBut murmur md5 t hash c) in
              let one = entered_tally murmur md5 t t' hash hash 1 key value a refl in
              let c' = CountedBut-Counted murmur md5 t' hash but (
                inr (
                  ap is_leading a.entry.is_count,
                  a.entry.is_count ∙ sym (one ∙ ap suc (no_entries t c hash b free)),
                )) in
              (
                (
                  (own', pos', l', c'),
                  a.same_size,
                  λ k n. view_same murmur md5 t t' c c' k a.same_size (
                      entered-Shows murmur md5 t t' hash hash 1 key value a refl own pos l k
                        (hash_of murmur md5 t k) n),
                ),
                inl (
                  done,
                  entered-view murmur md5 t t' hash hash 1 key value a refl c'
                      (ap (λ m. murmur key % m) (sym a.same_size)),
                ),
              )
        ]

    pub moving-full :
        (t : Table) (hash : ℕ)
        → find_empty t (hash + 1) ≡ none
        → put_moving murmur md5 t hash key value ≡ (false, set_errno enobufs t)
    unfolding put_moving
    moving-full t hash e = ground (arith, e)

    pub moving-put :
        (t : Table) (hash idx : ℕ)
        → find_empty t (hash + 1) ≡ some idx
        → put_moving murmur md5 t hash key value
          ≡ put_data md5 (move_away t hash idx) hash hash key value 1
    unfolding put_moving
    moving-put t hash idx e = ground (arith, e)

    -- A result for a table that shows the same is one for the table.
    shown-IsPutFor :
        (t t' : Table) (r : Bool × Table) (c : Counted murmur md5 t) (c' : Counted murmur md5 t')
        → t'.maxslots ≡ t.maxslots
        → ((h : ℕ) → tally (entries t' h) t'.maxslots ≡ tally (entries t h) t.maxslots)
        → ((k : List ℕ) (h : ℕ) → Shows murmur md5 t t' k h)
        → IsPutFor t' key value r
        → IsPutFor t key value r
    shown-IsPutFor t t' r c c' m n s ((v, size, same), result) =
        let back =
          λ (k : List ℕ). view_same murmur md5 t t' c c' k m (s k (hash_of murmur md5 t k)) in
        (
          (v, size ∙ m, λ k d. same k d ∙ back k),
          elim result [
            | inl stored ↦ inl stored
            | inr (failed, inl gone, fewer) ↦
                inr (failed, inl gone, λ h. omega (arith, n h, fewer h))
            | inr (failed, inr kept, fewer) ↦
                inr (failed, inr (kept ∙ back key), λ h. omega (arith, n h, fewer h))
          ],
        )

    -- where the slot of the hash is another entry's, which moves
    pub put_moving-IsPutFor :
        (t : Table)
        → IsValid murmur md5 t
        → hash_of murmur md5 t key < t.maxslots
        → (t.slots (hash_of murmur md5 t key)).count ≢ 0
        → is_leading (t.slots (hash_of murmur md5 t key)).count ≡ false
        → IsPutFor t key value (put_moving murmur md5 t (hash_of murmur md5 t key) key value)
    put_moving-IsPutFor t v b u n =
        let hash = hash_of murmur md5 t key in
        elim (Option-cases (find_empty t (hash + 1))) [
          | inl e ↦ rw (moving-full t hash e) (errno-IsPutFor t key value enobufs v)
          | inr (i, e) ↦
              let (own, pos, l, c) = v in
              let (bi, z) = find_empty-some t (hash + 1) i e in
              let t' = move_away t hash i in
              let m = move_away-IsMoved t own pos l hash i b u bi z n in
              let but =
                moved-CountedBut t own pos l hash i b u bi z t' m murmur md5 hash n
                  (Counted-CountedBut murmur md5 t hash c) in
              let c' = CountedBut-Counted murmur md5 t' hash but (
                inl
                  (moved_tally t own pos l hash i b u bi z t' m hash ∙ no_entries t c hash b n)) in
              let v' : IsValid murmur md5 t' = (
                own_moved t own pos l hash i b u bi z,
                pos_moved t own pos l hash i b u bi z,
                moved-Linked t own pos l hash i b u bi z t' m,
                c',
              ) in
              let same_hash : hash_of murmur md5 t' key ≡ hash = ap (λ k. murmur key % k) m.0 in
              let away : (t'.slots hash).count ≡ 0 =
                ap (λ (q : Slot). q.count) (m.1 hash b)
                ∙ moved_slot-left t hash i (λ w. u (ap (λ k. (t.slots k).count) w ∙ z)) in
              rw (moving-put t hash i e) (
                shown-IsPutFor t t' (put_data md5 t' hash hash key value 1) c c' m.0
                  (moved_tally t own pos l hash i b u bi z t' m)
                  (moved-Shows t own pos l hash i b u bi z t' m murmur md5)
                  (rw same_hash at
                    (put_fresh t' v' (rw same_hash (omega (arith, b, m.0))) (rw same_hash away))))
        ]
