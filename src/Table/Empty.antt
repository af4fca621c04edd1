-- ===== src/Table/Empty.antt =====
-- The tables that `qhasharr` and `qhasharr_clear` of shmutil/qhasharr.c leave.
use shmutil.Base.{ℕ, ◌<◌, ◌^◌, ◌≡◌, ◌≢◌, inl, refl, false, List, none, some, arith}
use shmutil.Table.{Table, qhasharr, clear}
use shmutil.Table.Lookup.{is_entry, hash_of}
use shmutil.Table.Tally.{tally_none}
use shmutil.Table.Find.{entries}
use shmutil.Table.Linked.{is_head-ne-zero, Linked, Counted}
use shmutil.Table.View.{view}
use shmutil.Table.Remove.{IsValid, view-none}

module _ (murmur : List ℕ → ℕ) (md5 : List ℕ → List ℕ) where
  -- no slot is in use
  abbrev IsEmpty : Table → Type 0
  IsEmpty t = (t.maxslots < 2 ^ 31) × ((j : ℕ) → j < t.maxslots → (t.slots j).count ≡ 0)

  empty-Linked : (t : Table) → IsEmpty t → Linked t (λ j. j) (λ j. 0)
  empty-Linked t (small, z) = record {
    small = small;
    kinds = λ j b u. absurd (u (z j b));
    owner = λ j b u. absurd (u (z j b));
    heads = λ j b h. (refl, refl);
    tails = λ j b e. absurd (ground (arith, z j b, e));
    links = λ j b u. absurd (u (z j b));
  }

  empty-entry : (t : Table) → IsEmpty t → (h j : ℕ) → j < t.maxslots → entries t h j ≡ false
  unfolding is_entry
  empty-entry t (small, z) h j b = ground (arith, z j b)

  empty-Counted : (t : Table) → IsEmpty t → Counted murmur md5 t
  empty-Counted t (small, z) = record {
    group = λ h b. inl (tally_none (entries t h) t.maxslots (empty-entry t (small, z) h));
    self = λ j b e. absurd (ground (arith, z j b, e));
    in_range = λ j b e. absurd (is_head-ne-zero (t.slots j).count e (z j b));
    unique = λ key h i i' f f'. absurd (let (b, e, _) = f in cc (empty-entry t (small, z) h i b));
  }

  empty-IsValid :
      (t : Table)
      → IsEmpty t
      → IsValid murmur md5 t × ((key : List ℕ) → view murmur md5 t key ≡ none)
  empty-IsValid t e =
      let c = empty-Counted t e in
      (
        ((λ j. j), (λ j. 0), empty-Linked t e, c),
        λ key.
            view-none murmur md5 t c key
              (λ i f. let (b, en, _) = f in cc (empty-entry t e (hash_of murmur md5 t key) i b)),
      )

  qhasharr-IsEmpty : (memsize errno : ℕ) (t : Table) → qhasharr memsize errno ≡ some t → IsEmpty t
  unfolding qhasharr
  qhasharr-IsEmpty memsize errno t e = ground arith

  -- A table that `qhasharr` makes is well-formed, and `qhasharr_get` gives NULL for every key.
  pub qhasharr-IsValid :
      (memsize errno : ℕ) (t : Table)
      → qhasharr memsize errno ≡ some t
      → IsValid murmur md5 t × ((key : List ℕ) → view murmur md5 t key ≡ none)
  qhasharr-IsValid memsize errno t e = empty-IsValid t (qhasharr-IsEmpty memsize errno t e)

  clear-IsEmpty : (t : Table) → t.maxslots < 2 ^ 31 → t.usedslots ≢ 0 → IsEmpty (clear t)
  unfolding clear
  clear-IsEmpty t small u = ground (arith, u, small)

  -- `qhasharr_clear` leaves a table where `qhasharr_get` gives NULL for every key, if the table's counter of used slots is not 0.
  pub clear-IsValid :
      (t : Table)
      → t.maxslots < 2 ^ 31
      → t.usedslots ≢ 0
      → IsValid murmur md5 (clear t) × ((key : List ℕ) → view murmur md5 (clear t) key ≡ none)
  clear-IsValid t small u = empty-IsValid (clear t) (clear-IsEmpty t small u)
