-- ===== src/Table/Sizes.antt =====
-- `qhasharr_size` of shmutil/qhasharr.c after any calls that change the table.
use shmutil.Base.{
  ℕ, suc, ◌<◌, ◌^◌, ◌≡◌, ◌≢◌, refl, ap, ◌∙◌, inl, inr, Bool, Bool-cases, false, List, [], ◌∷◌, some,
  ◌==◌, length, arith,
}
use shmutil.Table.{Table, qhasharr, clear, size}
use shmutil.Table.Lookup.{hash_of}
use shmutil.Table.Update.{put, remove}
use shmutil.Table.Tally.{tally, tally_le, tally_none}
use shmutil.Table.Find.{entries}
use shmutil.Table.Linked.{is_head}
use shmutil.Table.Counters.{is_used, slots_with, IsCounting}
use shmutil.Table.CountedRemove.{remove-IsWithin}
use shmutil.Table.CountedPutting.{put-IsCounting}
use shmutil.Table.Remove.{IsValid}
use shmutil.Table.Removed.{remove-view}
use shmutil.Table.Put.{put-view}
use shmutil.Table.Empty.{qhasharr-IsValid, clear-IsValid}

-- a call that changes the table
pub data Change : Type 0 where
  putting : List ℕ → List ℕ → Change
  removing : List ℕ → Change
  clearing : Change

-- Keys below 65536 bytes, and values that are not empty.
abbrev pub AreFit : List Change → Type 0
AreFit [] = Unit
AreFit (putting key value ∷ changes) = (length key < 65536) × (0 < length value) × AreFit changes
AreFit (removing key ∷ changes) = AreFit changes
AreFit (clearing ∷ changes) = AreFit changes

pub qhasharr-fields :
    (memsize errno : ℕ) (t : Table)
    → qhasharr memsize errno ≡ some t
    → (t.usedslots ≡ 0) × (t.num ≡ 0) × (t.maxslots < 2 ^ 31) × ((j : ℕ) → (t.slots j).count ≡ 0)
unfolding qhasharr
qhasharr-fields memsize errno t e = ground arith

no_slots_with :
    (p : ℕ → Bool) (t : Table)
    → p 0 ≡ false
    → ((j : ℕ) → j < t.maxslots → (t.slots j).count ≡ 0)
    → slots_with p t ≡ 0
no_slots_with p t e z = tally_none (λ j. p (t.slots j).count) t.maxslots (λ j b. ap p (z j b) ∙ e)

pub qhasharr-IsCounting :
    (memsize errno : ℕ) (t : Table) → qhasharr memsize errno ≡ some t → IsCounting t 0 0
qhasharr-IsCounting memsize errno t e =
    let (used, num, small, z) = qhasharr-fields memsize errno t e in
    (
      small,
      no_slots_with is_used t refl (λ j b. z j) ∙ omega (arith, used),
      no_slots_with is_head t refl (λ j b. z j) ∙ omega (arith, num),
    )

clear-same : (t : Table) → t.usedslots ≡ 0 → clear t ≡ t
unfolding clear
clear-same t z = ground (arith, z)

clear-fields :
    (t : Table)
    → t.usedslots ≢ 0
    → ((clear t).usedslots ≡ 0)
      × ((clear t).num ≡ 0)
      × ((clear t).maxslots ≡ t.maxslots)
      × ((j : ℕ) → j < t.maxslots → ((clear t).slots j).count ≡ 0)
unfolding clear
clear-fields t u = ground (arith, u)

clear-IsCounting : (t : Table) → t.usedslots ≢ 0 → t.maxslots < 2 ^ 31 → IsCounting (clear t) 0 0
clear-IsCounting t u small =
    let (used, num, m, z) = clear-fields t u in
    let z' : (j : ℕ) → j < (clear t).maxslots → ((clear t).slots j).count ≡ 0 =
      λ j b. z j (omega (arith, b, m)) in
    (
      omega (arith, m, small),
      no_slots_with is_used (clear t) refl z' ∙ omega (arith, used),
      no_slots_with is_head (clear t) refl z' ∙ omega (arith, num),
    )

module _ (murmur : List ℕ → ℕ) (md5 : List ℕ → List ℕ) where
  -- the calls in order, whatever they return
  unfoldable pub run_changes : Table → List Change → Table
  run_changes t [] = t
  run_changes t (putting key value ∷ changes) = run_changes (put murmur md5 t key value).1 changes
  run_changes t (removing key ∷ changes) = run_changes (remove murmur md5 t key).1 changes
  run_changes t (clearing ∷ changes) = run_changes (clear t) changes

  -- well-formed, and counted
  abbrev pub IsSound : Table → ℕ → Type 0
  IsSound t max = IsValid murmur md5 t × IsCounting t 0 0 × (t.maxslots ≡ max)

  put-IsSound :
      (t : Table) (max : ℕ) (key value : List ℕ)
      → length (md5 key) ≡ 16
      → length key < 65536
      → 0 < length value
      → suc max < 2 ^ 15
      → IsSound t max
      → IsSound (put murmur md5 t key value).1 max
  put-IsSound t max key value md h p few (v, n, m) =
      let few' : suc (tally (entries t (hash_of murmur md5 t key)) t.maxslots) < 2 ^ 15 =
        omega (arith, few, m, tally_le (entries t (hash_of murmur md5 t key)) t.maxslots) in
      let ((v', m', _), _) = put-view murmur md5 key value t v p h md few' in
      (v', put-IsCounting murmur md5 key value p h md t v few' n, m' ∙ m)

  remove-IsSound :
      (t : Table) (max : ℕ) (key : List ℕ) → IsSound t max → IsSound (remove murmur md5 t key).1 max
  remove-IsSound t max key (v, n, m) =
      let (_, (v', m', _), _) = remove-view murmur md5 t key v in
      (v', (remove-IsWithin murmur md5 t key t.usedslots v (n, omega arith)).0, m' ∙ m)

  clear-IsSound : (t : Table) (max : ℕ) → IsSound t max → IsSound (clear t) max
  clear-IsSound t max (v, n, m) = elim (Bool-cases (t.usedslots == 0)) [
    | inl z ↦ rw (clear-same t (ground (arith, z))) (v, n, m)
    | inr more ↦
        let u : t.usedslots ≢ 0 = λ w. ground (arith, w, more) in
        let (_, _, m', _) = clear-fields t u in
        ((clear-IsValid murmur md5 t n.0 u).0, clear-IsCounting t u n.0, m' ∙ m)
  ]

  pub run_changes-IsSound :
      (changes : List Change) (t : Table) (max : ℕ)
      → ((key : List ℕ) → length (md5 key) ≡ 16)
      → AreFit changes
      → suc max < 2 ^ 15
      → IsSound t max
      → IsSound (run_changes t changes) max
  unfolding run_changes
  run_changes-IsSound [] t max md fit few s = s
  run_changes-IsSound (putting key value ∷ changes) t max md (h, p, fit) few s =
      run_changes-IsSound changes (put murmur md5 t key value).1 max md fit few
        (put-IsSound t max key value (md key) h p few s)
  run_changes-IsSound (removing key ∷ changes) t max md fit few s =
      run_changes-IsSound changes (remove murmur md5 t key).1 max md fit few
        (remove-IsSound t max key s)
  run_changes-IsSound (clearing ∷ changes) t max md fit few s =
      run_changes-IsSound changes (clear t) max md fit few (clear-IsSound t max s)

  counted-size :
      (t : Table) (max : ℕ)
      → IsSound t max
      → size t ≡ (slots_with is_head t, max, slots_with is_used t)
  unfolding size
  counted-size t max (_, (_, used, num), m) = rw (used, num, m) (ground arith)

  -- After any calls of `qhasharr_put`, `qhasharr_remove` and `qhasharr_clear` on a table that `qhasharr` made, whether they succeed or fail, `qhasharr_size` gives the number of slots that hold a key, the number of slots, and the number of slots in use. Keys are below 65536 bytes long, values are not empty, digests have 16 bytes, and the table has less than 32767 slots.
  pub size-run_changes :
      (changes : List Change) (memsize errno : ℕ) (t : Table)
      → ((key : List ℕ) → length (md5 key) ≡ 16)
      → AreFit changes
      → suc t.maxslots < 2 ^ 15
      → qhasharr memsize errno ≡ some t
      → size (run_changes t changes) ≡ (
        slots_with is_head (run_changes t changes),
        t.maxslots,
        slots_with is_used (run_changes t changes),
      )
  size-run_changes changes memsize errno t md fit few e =
      counted-size (run_changes t changes) t.maxslots (
        run_changes-IsSound changes t t.maxslots md fit few (
          (qhasharr-IsValid murmur md5 memsize errno t e).0,
          qhasharr-IsCounting memsize errno t e,
          refl,
        ))
