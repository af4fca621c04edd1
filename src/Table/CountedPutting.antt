-- ===== src/Table/CountedPutting.antt =====
-- The counters of the table of shmutil/qhasharr.c after `qhasharr_put`.
use shmutil.Base.{
  ℕ, suc, ◌+◌, ◌-◌, ◌%◌, ◌<◌, ◌^◌, ◌≡◌, ◌≢◌, refl, ap, ◌∙◌, inl, inr, Bool-cases, true, false, List,
  Option-cases, none, some, ◌==◌, length, arith,
}
use native.Mathlib.Nat.{mod-lt}
use shmutil.Table.{Slot, Table, is_leading, collision, find_empty}
use shmutil.Table.Lookup.{get_idx, hash_of}
use shmutil.Table.Store.{put_data}
use shmutil.Table.Update.{remove, move_away, put_collision, put_moving, put_within, put}
use shmutil.Table.Search.{find_empty-some}
use shmutil.Table.Found.{IsFound}
use shmutil.Table.Tally.{tally}
use shmutil.Table.Find.{entries}
use shmutil.Table.Linked.{get_idx-none}
use shmutil.Table.Counters.{IsCounting}
use shmutil.Table.CountedPut.{put_data-IsCounting}
use shmutil.Table.CountedMove.{set_count-IsWithin, move_away-IsWithin}
use shmutil.Table.CountedRemove.{remove-IsWithin}
use shmutil.Table.Moved.{own_moved, pos_moved, moved-Linked, move_away-IsMoved, moved_slot-left}
use shmutil.Table.Remove.{IsValid}
use shmutil.Table.Removed.{found-IsRemoved}
use shmutil.Table.Added.{put_data-IsPut}
use shmutil.Table.Putting.{moving-full, moving-put}
use shmutil.Table.Colliding.{collision-full, collision-put, lead_head, more_head}
use shmutil.Table.Put.{branches, put_again, not_found, no_slots, put-put_within, plus_one}
use shmutil.Table.Colliding

module _ (murmur : List ℕ → ℕ) (md5 : List ℕ → List ℕ) (key value : List ℕ) (p : 0 < length value)
    (h : length key < 65536) (md : length (md5 key) ≡ 16) where
  abbrev hash : Table → ℕ
  hash t = hash_of murmur md5 t key

  fresh-IsCounting :
      (t : Table)
      → IsValid murmur md5 t
      → hash t < t.maxslots
      → (t.slots (hash t)).count ≡ 0
      → IsCounting t 0 0
      → IsCounting (put_data md5 t (hash t) (hash t) key value 1).1 0 0
  fresh-IsCounting t (own, pos, l, c) b z n =
      put_data-IsCounting md5 t own pos l (hash t) (hash t) 1 key value b z refl p n

  collision-IsCounting :
      (t : Table)
      → IsValid murmur md5 t
      → hash t < t.maxslots
      → is_leading (t.slots (hash t)).count ≡ true
      → ((i : ℕ) → ¬ IsFound murmur md5 t key (hash t) i)
      → suc (tally (entries t (hash t)) t.maxslots) < 2 ^ 15
      → IsCounting t 0 0
      → IsCounting (put_collision murmur md5 t (hash t) key value).1 0 0
  collision-IsCounting t (own, pos, l, c) b lead absent few n =
      elim (Option-cases (find_empty t (hash t))) [
        | inl e ↦ rw (collision-full murmur md5 key value p h md t (hash t) e) n
        | inr (idx, e) ↦
            let (bi, z) = find_empty-some t (hash t) idx e in
            let t' = (put_data md5 t idx (hash t) key value collision).1 in
            let n' =
              put_data-IsCounting md5 t own pos l idx (hash t) collision key value bi z refl p n in
            rw (collision-put murmur md5 key value p h md t (hash t) idx e)
              (elim (put_data-IsPut murmur md5 t own pos l idx (hash t) collision key value bi z
                refl p h md) [
                  | inr (failed, _) ↦ rw failed n'
                  | inl (done, (own', pos', l'), a) ↦
                      let lh =
                        lead_head murmur md5 key value p h md t own pos l c b lead absent few idx t'
                          own' pos' l' a in
                      let mh =
                        more_head murmur md5 key value p h md t own pos l c b lead absent few idx t'
                          own' pos' l' a in
                      rw done
                        (set_count-IsWithin t' t'.usedslots (hash t)
                          (Colliding.more murmur md5 key value p h md t own pos l c b lead absent
                            few idx t' own' pos' l' a)
                          lh mh (n', omega arith)).0
                ])
      ]

  moving-IsCounting :
      (t : Table)
      → IsValid murmur md5 t
      → hash t < t.maxslots
      → (t.slots (hash t)).count ≢ 0
      → is_leading (t.slots (hash t)).count ≡ false
      → IsCounting t 0 0
      → IsCounting (put_moving murmur md5 t (hash t) key value).1 0 0
  moving-IsCounting t (own, pos, l, c) b u other n =
      elim (Option-cases (find_empty t (hash t + 1))) [
        | inl e ↦ rw (moving-full murmur md5 key value p h md t (hash t) e) n
        | inr (i, e) ↦
            let (bi, z) = find_empty-some t (hash t + 1) i e in
            let t' = move_away t (hash t) i in
            let m = move_away-IsMoved t own pos l (hash t) i b u bi z other in
            let l' = moved-Linked t own pos l (hash t) i b u bi z t' m in
            let left : (t'.slots (hash t)).count ≡ 0 =
              ap (λ (q : Slot). q.count) (m.1 (hash t) b)
              ∙ moved_slot-left t (hash t) i (λ w. u (ap (λ k. (t.slots k).count) w ∙ z)) in
            rw (moving-put murmur md5 key value p h md t (hash t) i e) (
              put_data-IsCounting md5 t' (own_moved t own pos l (hash t) i b u bi z)
                (pos_moved t own pos l (hash t) i b u bi z) l' (hash t) (hash t) 1 key value
                (omega (arith, b, m.0)) left refl p
                (move_away-IsWithin t (hash t) i bi z b u t.usedslots (n, omega arith)).0)
      ]

  absent-IsCounting :
      (depth : ℕ) (t : Table)
      → IsValid murmur md5 t
      → hash t < t.maxslots
      → get_idx murmur md5 t key (hash t) ≡ none
      → suc (tally (entries t (hash t)) t.maxslots) < 2 ^ 15
      → IsCounting t 0 0
      → IsCounting (put_within murmur md5 (suc depth) t key value).1 0 0
  absent-IsCounting depth t v b none_found few n =
      let (_, _, _, c) = v in
      elim (branches murmur md5 key value depth t (λ z. omega (arith, z, b))) [
        | inl (_, e) ↦ rw e n
        | inr (inl (z, e)) ↦ rw e (fresh-IsCounting t v b z n)
        | inr (inr (inl (lead, _, e))) ↦ rw e (
            collision-IsCounting t v b lead
              (λ i. get_idx-none murmur md5 t c key (hash t) i b none_found) few n)
        | inr (inr (inr (inl (_, (i, found), _)))) ↦ absurd (cc)
        | inr (inr (inr (inr (u, other, e)))) ↦ rw e (moving-IsCounting t v b u other n)
      ]

  found-IsCounting :
      (depth : ℕ) (t : Table) (i : ℕ)
      → IsValid murmur md5 t
      → hash t < t.maxslots
      → get_idx murmur md5 t key (hash t) ≡ some i
      → suc (tally (entries t (hash t)) t.maxslots) < 2 ^ 15
      → IsCounting t 0 0
      → IsCounting (put_within murmur md5 (suc (suc depth)) t key value).1 0 0
  found-IsCounting depth t i v b found few n =
      elim (branches murmur md5 key value (suc depth) t (λ z. omega (arith, z, b))) [
        | inl (_, e) ↦ rw e n
        | inr (inl (z, e)) ↦ rw e (fresh-IsCounting t v b z n)
        | inr (inr (inl (_, none_found, _))) ↦ absurd (cc)
        | inr (inr (inr (inl (_, _, e)))) ↦
            let t' = (remove murmur md5 t key).1 in
            let (done, (v', m, _), away, fewer) = found-IsRemoved murmur md5 t key i v b found in
            let same_hash : hash t' ≡ hash t = ap (λ k. murmur key % k) m in
            let b' : hash t' < t'.maxslots = rw same_hash (omega (arith, b, m)) in
            let few' : suc (tally (entries t' (hash t')) t'.maxslots) < 2 ^ 15 =
              rw same_hash (omega (arith, few, fewer (hash t))) in
            rw
              (e
                ∙ put_again murmur md5 key value p h md (suc depth) t t' (remove murmur md5 t key).0
                    done)
              (absent-IsCounting depth t' v' b' (not_found murmur md5 key value p h md t' b' away)
                few' (remove-IsWithin murmur md5 t key t.usedslots v (n, omega arith)).0)
        | inr (inr (inr (inr (u, other, e)))) ↦ rw e (moving-IsCounting t v b u other n)
      ]

  -- `qhasharr_put` on a well-formed table
  pub put-IsCounting :
      (t : Table)
      → IsValid murmur md5 t
      → suc (tally (entries t (hash_of murmur md5 t key)) t.maxslots) < 2 ^ 15
      → IsCounting t 0 0
      → IsCounting (put murmur md5 t key value).1 0 0
  put-IsCounting t v few n =
      rw (put-put_within murmur md5 key value t) (elim (Bool-cases (t.maxslots == 0)) [
        | inl z ↦ rw (no_slots murmur md5 key value (t.maxslots + 1) t (ground (arith, z))) n
        | inr more ↦
            let b : hash t < t.maxslots = mod-lt (murmur key) (ground (arith, more)) in
            elim (Option-cases (get_idx murmur md5 t key (hash t))) [
              | inl e ↦
                  rw (plus_one murmur md5 key value t.maxslots)
                    (absent-IsCounting t.maxslots t v b e few n)
              | inr (i, e) ↦
                  let two : t.maxslots + 1 ≡ suc (suc (t.maxslots - 1)) = omega (arith, b) in
                  rw two (found-IsCounting (t.maxslots - 1) t i v b e few n)
            ]
      ])
