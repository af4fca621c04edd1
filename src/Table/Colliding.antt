-- ===== src/Table/Colliding.antt =====
-- `qhasharr_put` of shmutil/qhasharr.c for a new key, where the slot of its hash leads entries.
use shmutil.Base.{
  ℕ, suc, ◌%◌, ◌<◌, ◌^◌, ◌≡◌, inl, inr, refl, sym, ap, ◌∙◌, true, false, List, Option-cases, none,
  some, if◌then◌else◌, length, arith,
}
use shmutil.Table.{Slot, Table, set_slot, set_errno, find_empty, is_leading, collision, enobufs}
use shmutil.Table.Lookup.{hash_of}
use shmutil.Table.Store.{put_data}
use shmutil.Table.Update.{incr16, set_count, put_collision}
use shmutil.Table.Search.{find_empty-some}
use shmutil.Table.Found.{IsFound}
use shmutil.Table.Tally.{tally}
use shmutil.Table.Find.{entries}
use shmutil.Table.Linked.{
  is_head, is_head-is_entry, Linked, Counted, CountedBut, Counted-CountedBut, CountedBut-Counted,
  CountedBut-eq, hash_led,
}
use shmutil.Table.Recount.{
  recounted, recounted-Linked, recounted-tally, recounted-CountedBut, recounted-Shows,
}
use shmutil.Table.View.{view, Shows-trans, view_same, view-IsFound}
use shmutil.Table.Remove.{IsValid}
use shmutil.Table.Added.{Added, put_data-IsPut}
use shmutil.Table.Entered.{entered_tally, entered-CountedBut, entered-Shows, new-IsFound}
use shmutil.Table.Putting.{IsPutFor, same-IsPutFor, errno-IsPutFor}

module _ (murmur : List ℕ → ℕ) (md5 : List ℕ → List ℕ) (key value : List ℕ) (p : 0 < length value)
    (h : length key < 65536) (md : length (md5 key) ≡ 16) where
  pub collision-full :
      (t : Table) (hash : ℕ)
      → find_empty t hash ≡ none
      → put_collision murmur md5 t hash key value ≡ (false, set_errno enobufs t)
  unfolding put_collision
  collision-full t hash e = ground (arith, e)

  pub collision-put :
      (t : Table) (hash idx : ℕ)
      → find_empty t hash ≡ some idx
      → put_collision murmur md5 t hash key value ≡ (
          if (put_data md5 t idx hash key value collision).0
          then (
            true,
            set_count hash
                (incr16 ((put_data md5 t idx hash key value collision).1.slots hash).count)
                (put_data md5 t idx hash key value collision).1,
          )
          else (false, (put_data md5 t idx hash key value collision).1))
  unfolding put_collision
  collision-put t hash idx e = ground (arith, e)

  -- the count of the leading slot goes up
  module _ (t : Table) (own pos : ℕ → ℕ) (l : Linked t own pos) (c : Counted murmur md5 t)
      (b : hash_of murmur md5 t key < t.maxslots)
      (lead : is_leading (t.slots (hash_of murmur md5 t key)).count ≡ true)
      (absent : (i : ℕ) → ¬ IsFound murmur md5 t key (hash_of murmur md5 t key) i)
      (few : suc (tally (entries t (hash_of murmur md5 t key)) t.maxslots) < 2 ^ 15) (idx : ℕ)
      (t' : Table) (own' pos' : ℕ → ℕ) (l' : Linked t' own' pos')
      (a : Added murmur md5 t t' idx (hash_of murmur md5 t key) collision key value) where
    abbrev hash : ℕ
    hash = hash_of murmur md5 t key

    lead_same : t'.slots hash ≡ t.slots hash
    lead_same = a.kept hash (λ z. ground (arith, z, lead))

    lead_self : (t'.slots hash).hash ≡ hash
    lead_self = ap (λ (q : Slot). q.hash) lead_same ∙ c.self hash b lead

    lead_count : (t.slots hash).count ≡ tally (entries t hash) t.maxslots
    lead_count =
        (hash_led murmur md5 t c hash hash b b
          (is_head-is_entry (t.slots hash) hash (ground (arith, lead)) (c.self hash b lead))).1

    abbrev pub more : ℕ
    more = incr16 (t'.slots hash).count

    more_count : (more ≡ suc (tally (entries t hash) t.maxslots)) × (is_leading more ≡ true)
    more_count = let e = ap (λ (q : Slot). q.count) lead_same in ground (arith, e, lead_count, few)

    pub lead_head : is_head (t'.slots hash).count ≡ true
    lead_head = rw lead_same (ground (arith, lead))

    pub more_head : is_head more ≡ true
    more_head = ground (arith, more_count)

    abbrev t'' : Table
    t'' = recounted t' hash more lead_head more_head

    but : CountedBut murmur md5 t'' hash
    but = CountedBut-eq murmur md5 t'' (t'.slots hash).hash hash lead_self (
        recounted-CountedBut t' hash more lead_head more_head murmur md5 (λ e. lead_self)
          (CountedBut-eq murmur md5 t' hash (t'.slots hash).hash (sym lead_self) (
            entered-CountedBut murmur md5 t t' idx hash collision key value a refl absent b
              (λ e. ground (arith, e)) (Counted-CountedBut murmur md5 t hash c))))

    counted'' : Counted murmur md5 t''
    unfolding set_slot
    counted'' =
        let (e, is) = more_count in
        let n =
          recounted-tally t' hash more lead_head more_head hash
          ∙ entered_tally murmur md5 t t' idx hash collision key value a refl in
        let at : (t''.slots hash).count ≡ more = ground arith in
        CountedBut-Counted murmur md5 t'' hash but (inr (ap is_leading at ∙ is, at ∙ e ∙ sym n))

    collision-IsPutFor : IsPutFor murmur md5 t key value (true, t'')
    unfolding set_slot
    collision-IsPutFor =
        let size : t''.maxslots ≡ t.maxslots = a.same_size in
        let shows = λ (k : List ℕ) (h : ℕ).
          recounted-Shows t' hash more lead_head more_head murmur md5 own' pos' l' k h in
        let view' : view murmur md5 t'' key ≡ some value =
          let (i, f, d) =
            (shows key hash).there idx
              (new-IsFound murmur md5 t t' idx hash collision key value a refl) in
          let e : hash_of murmur md5 t'' key ≡ hash = ap (λ m. murmur key % m) size in
          view-IsFound murmur md5 t'' counted'' key i (rw e f) ∙ d ∙ a.entry.is_value in
        (
          (
            (own', pos', recounted-Linked t' hash more lead_head more_head own' pos' l', counted''),
            size,
            λ k n. view_same murmur md5 t t'' c counted'' k size (
                Shows-trans murmur md5 t t' t'' k (hash_of murmur md5 t k)
                  (entered-Shows murmur md5 t t' idx hash collision key value a refl own pos l k
                    (hash_of murmur md5 t k) n)
                  (shows k (hash_of murmur md5 t k))),
          ),
          inl (refl, view'),
        )

  -- in another slot, where the slot of the hash leads
  pub put_collision-IsPutFor :
      (t : Table)
      → IsValid murmur md5 t
      → hash_of murmur md5 t key < t.maxslots
      → is_leading (t.slots (hash_of murmur md5 t key)).count ≡ true
      → ((i : ℕ) → ¬ IsFound murmur md5 t key (hash_of murmur md5 t key) i)
      → suc (tally (entries t (hash_of murmur md5 t key)) t.maxslots) < 2 ^ 15
      → IsPutFor murmur md5 t key value
          (put_collision murmur md5 t (hash_of murmur md5 t key) key value)
  put_collision-IsPutFor t v b lead absent few =
      let hash = hash_of murmur md5 t key in
      elim (Option-cases (find_empty t hash)) [
        | inl e ↦ rw (collision-full t hash e) (errno-IsPutFor murmur md5 t key value enobufs v)
        | inr (idx, e) ↦
            let (own, pos, l, c) = v in
            let (bi, z) = find_empty-some t hash idx e in
            rw (collision-put t hash idx e)
              (elim (put_data-IsPut murmur md5 t own pos l idx hash collision key value bi z refl p
                h md) [
                  | inr (failed, s) ↦ rw failed (
                      same-IsPutFor murmur md5 t key value
                        (false, (put_data md5 t idx hash key value collision).1) v refl s)
                  | inl (done, (own', pos', l'), a) ↦ rw done (
                      collision-IsPutFor t own pos l c b lead absent few idx
                        (put_data md5 t idx hash key value collision).1 own' pos' l' a)
                ])
      ]
