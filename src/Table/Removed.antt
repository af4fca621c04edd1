-- ===== src/Table/Removed.antt =====
-- `qhasharr_remove` of shmutil/qhasharr.c as a whole.
use shmutil.Base.{
  ℕ, ◌+◌, ◌≤◌, ◌<◌, ◌≡◌, ◌≢◌, inl, inr, refl, sym, ap, ◌∙◌, Bool, Bool-cases, true, false, List,
  Option-cases, none, some, ◌==◌, arith,
}
use native.Mathlib.Nat.{mod-lt}
use shmutil.Table.{Slot, Table, is_leading, collision, remove_data}
use shmutil.Table.Lookup.{get_idx, exist, hash_of}
use shmutil.Table.Update.{find_dup, move_to_lead, remove_at, remove, set_count, decr16}
use shmutil.Table.Found.{IsFound, get_idx-some}
use shmutil.Table.Linked.{is_entry-is_head, get_idx-none}
use shmutil.Table.View.{view, view_same}
use shmutil.Table.Same.{SameUse, same_tally, SameUse-Linked, SameUse-Counted, SameUse-Shows}
use shmutil.Table.Remove.{
  IsValid, Keeps, HasFewer, IsAbsent, only-HasFewer, collision-HasFewer, view-none, remove_only,
  remove_collision, led_by, led_two,
}
use shmutil.Table.RemoveLead.{leading-HasFewer, other_found, remove_leading}

pub remove_at-only :
    (t : Table) (hash idx : ℕ)
    → (t.slots idx).count ≡ 1
    → remove_at t hash idx ≡ (true, (remove_data t idx).1)
unfolding remove_at
remove_at-only t hash idx e = ground (arith, e)

pub remove_at-leading :
    (t : Table) (hash idx idx2 : ℕ)
    → is_leading (t.slots idx).count ≡ true
    → (t.slots idx).count ≢ 1
    → find_dup t hash idx (t.maxslots + 1) (idx + 1) ≡ some idx2
    → remove_at t hash idx ≡ (true, move_to_lead t idx idx2)
unfolding remove_at
remove_at-leading t hash idx idx2 lead many e = ground (arith, lead, many, e)

pub remove_at-collision :
    (t : Table) (hash idx : ℕ)
    → (t.slots idx).count ≡ collision
    → is_leading (t.slots (t.slots idx).hash).count ≡ true
    → 2 ≤ (t.slots (t.slots idx).hash).count
    → remove_at t hash idx ≡ (
      true,
      (remove_data
          (set_count (t.slots idx).hash (decr16 (t.slots (t.slots idx).hash).count) t)
          idx).1,
    )
unfolding remove_at
remove_at-collision t hash idx coll lead two = ground (arith, coll, lead, two)

module _ (murmur : List ℕ → ℕ) (md5 : List ℕ → List ℕ) where
  -- another `errno` only
  abbrev pub IsErrno : Table → Table → Type 0
  IsErrno t t' = (t'.maxslots ≡ t.maxslots) × ((j : ℕ) → t'.slots j ≡ t.slots j)

  pub errno-SameUse : (t t' : Table) → IsErrno t t' → SameUse t t'
  errno-SameUse t t' (m, s) = record {
    same_size = m;
    there = λ j b u. s j;
    back = λ j b u z. u (ap (λ (q : Slot). q.count) (s j) ∙ z);
  }

  -- A table that keeps all slots in use shows the same.
  pub SameUse-Keeps :
      (t t' : Table) (key : List ℕ)
      → IsValid murmur md5 t
      → SameUse t t'
      → Keeps murmur md5 t t' key × (view murmur md5 t' key ≡ view murmur md5 t key)
  SameUse-Keeps t t' key (own, pos, l, c) s =
      let c' = SameUse-Counted t t' s murmur md5 c in
      let same = λ (k : List ℕ).
        view_same murmur md5 t t' c c' k s.same_size
          (SameUse-Shows t t' s murmur md5 own pos l k (hash_of murmur md5 t k)) in
      (((own, pos, SameUse-Linked t t' s own pos l, c'), s.same_size, λ k n. same k), same key)

  abbrev pub IsRemoved : Table → List ℕ → Bool × Table → Type 0
  IsRemoved t key r =
      (r.0 ≡ true)
      × Keeps murmur md5 t r.1 key
      × IsAbsent murmur md5 r.1 key
      × HasFewer murmur md5 t r.1

  remove_at-IsRemoved :
      (t : Table) (key : List ℕ) (idx : ℕ)
      → IsValid murmur md5 t
      → IsFound murmur md5 t key (hash_of murmur md5 t key) idx
      → IsRemoved t key (remove_at t (hash_of murmur md5 t key) idx)
  remove_at-IsRemoved t key idx (own, pos, l, c) f =
      let hash = hash_of murmur md5 t key in
      let head = (is_entry-is_head (t.slots idx) hash f.1).0 in
      elim (Bool-cases (is_leading (t.slots idx).count)) [
        | inl lead ↦ elim (Bool-cases ((t.slots idx).count == 1)) [
          | inl one ↦
              let one' : (t.slots idx).count ≡ 1 = ground (arith, one) in
              let (k, v) = remove_only murmur md5 t own pos l c key idx f one' in
              rw (remove_at-only t hash idx one')
                (refl, k, v, only-HasFewer murmur md5 t own pos l c key idx f)
          | inr more ↦
              let many : (t.slots idx).count ≢ 1 = λ w. ground (arith, w, more) in
              let (idx2, e, d) = other_found murmur md5 t own pos l c key idx f lead many in
              let (k, v) = remove_leading murmur md5 t own pos l c key idx f lead many idx2 d in
              rw (remove_at-leading t hash idx idx2 lead many e)
                (refl, k, v, leading-HasFewer murmur md5 t own pos l c key idx f lead many idx2 d)
        ]
        | inr follows ↦
            let coll : (t.slots idx).count ≡ collision = ground (arith, head, follows) in
            let (_, lead, _, _) = led_by murmur md5 t own pos l c key idx f in
            let (_, two) = led_two murmur md5 t own pos l c key idx f coll in
            let (k, v) = remove_collision murmur md5 t own pos l c key idx f coll in
            rw (remove_at-collision t hash idx coll lead two)
              (refl, k, v, collision-HasFewer murmur md5 t own pos l c key idx f coll)
      ]

  pub remove-found :
      (t : Table) (key : List ℕ) (idx : ℕ)
      → t.maxslots ≢ 0
      → get_idx murmur md5 t key (hash_of murmur md5 t key) ≡ some idx
      → remove murmur md5 t key ≡ remove_at t (hash_of murmur md5 t key) idx
  unfolding remove
  remove-found t key idx n e = ground (arith, n, e)

  pub remove-absent :
      (t : Table) (key : List ℕ)
      → get_idx murmur md5 t key (hash_of murmur md5 t key) ≡ none
      → ((remove murmur md5 t key).0 ≡ false) × IsErrno t (remove murmur md5 t key).1
  unfolding remove
  remove-absent t key e = elim (Bool-cases (t.maxslots == 0)) [
    | inl z ↦ ground (arith, z)
    | inr n ↦ ground (arith, n, e)
  ]

  pub remove-no_slots :
      (t : Table) (key : List ℕ) → t.maxslots ≡ 0 → remove murmur md5 t key ≡ (false, t)
  unfolding remove
  remove-no_slots t key z = ground (arith, z)

  exist-get_idx :
      (t : Table) (key : List ℕ) (idx : ℕ)
      → t.maxslots ≢ 0
      → get_idx murmur md5 t key (hash_of murmur md5 t key) ≡ some idx
      → exist murmur md5 t key ≡ true
  unfolding exist
  exist-get_idx t key idx n e = ground (arith, n, e)

  exist-absent :
      (t : Table) (key : List ℕ)
      → get_idx murmur md5 t key (hash_of murmur md5 t key) ≡ none
      → exist murmur md5 t key ≡ false
  unfolding exist
  exist-absent t key e = elim (Bool-cases (t.maxslots == 0)) [
    | inl z ↦ ground (arith, z)
    | inr n ↦ ground (arith, n, e)
  ]

  exist-no_slots : (t : Table) (key : List ℕ) → t.maxslots ≡ 0 → exist murmur md5 t key ≡ false
  unfolding exist
  exist-no_slots t key z = ground (arith, z)

  absent-Keeps :
      (t : Table) (key : List ℕ) (r : Bool × Table)
      → IsValid murmur md5 t
      → IsErrno t r.1
      → IsAbsent murmur md5 t key
      → Keeps murmur md5 t r.1 key × (view murmur md5 r.1 key ≡ none)
  absent-Keeps t key r v e n =
      let (own, pos, l, c) = v in
      let (k, w) = SameUse-Keeps t r.1 key v (errno-SameUse t r.1 e) in
      (k, w ∙ view-none murmur md5 t c key n)

  -- On a well-formed table `qhasharr_remove` gives true exactly where `qhasharr_exist` does; afterwards the table is well-formed, `qhasharr_get` gives NULL for the key, and for every key that a slot can tell from it what it gave before.
  pub remove-view :
      (t : Table) (key : List ℕ)
      → IsValid murmur md5 t
      → ((remove murmur md5 t key).0 ≡ exist murmur md5 t key)
        × Keeps murmur md5 t (remove murmur md5 t key).1 key
        × (view murmur md5 (remove murmur md5 t key).1 key ≡ none)
  remove-view t key v = elim (Bool-cases (t.maxslots == 0)) [
    | inl z ↦
        let z' : t.maxslots ≡ 0 = ground (arith, z) in
        let (k, w) =
          absent-Keeps t key (false, t) v (refl, λ j. refl) (λ i f. omega (arith, f.0, z')) in
        rw (remove-no_slots t key z', exist-no_slots t key z') (refl, k, w)
    | inr n ↦
        let hash = hash_of murmur md5 t key in
        let some_slots : t.maxslots ≢ 0 = λ w. ground (arith, w, n) in
        let b : hash < t.maxslots = mod-lt (murmur key) (omega (arith, some_slots)) in
        elim (Option-cases (get_idx murmur md5 t key hash)) [
          | inl e ↦
              let (r, same) = remove-absent t key e in
              let (own, pos, l, c) = v in
              let (k, w) =
                absent-Keeps t key (remove murmur md5 t key) v same
                  (λ i. get_idx-none murmur md5 t c key hash i b e) in
              (r ∙ sym (exist-absent t key e), k, w)
          | inr (idx, e) ↦
              let (r, k, away, _) =
                remove_at-IsRemoved t key idx v (get_idx-some murmur md5 t key hash idx b e) in
              rw (remove-found t key idx some_slots e, exist-get_idx t key idx some_slots e)
                (let ((_, _, _, c'), _, _) = k in
                  (r, k, view-none murmur md5 (remove_at t hash idx).1 c' key away))
        ]
  ]

  -- A key that is found is removed.
  pub found-IsRemoved :
      (t : Table) (key : List ℕ) (idx : ℕ)
      → IsValid murmur md5 t
      → hash_of murmur md5 t key < t.maxslots
      → get_idx murmur md5 t key (hash_of murmur md5 t key) ≡ some idx
      → IsRemoved t key (remove murmur md5 t key)
  found-IsRemoved t key idx v b e = rw (remove-found t key idx (λ z. omega (arith, b, z)) e) (
      remove_at-IsRemoved t key idx v
        (get_idx-some murmur md5 t key (hash_of murmur md5 t key) idx b e))

  pub remove-HasFewer :
      (t : Table) (key : List ℕ)
      → IsValid murmur md5 t
      → HasFewer murmur md5 t (remove murmur md5 t key).1
  remove-HasFewer t key v h = elim (Bool-cases (t.maxslots == 0)) [
    | inl z ↦ rw (remove-no_slots t key (ground (arith, z))) (omega arith)
    | inr n ↦
        let b : hash_of murmur md5 t key < t.maxslots = mod-lt (murmur key) (ground (arith, n)) in
        elim (Option-cases (get_idx murmur md5 t key (hash_of murmur md5 t key))) [
          | inl e ↦
              let (_, same) = remove-absent t key e in
              omega (
                arith,
                same_tally t (remove murmur md5 t key).1
                    (errno-SameUse t (remove murmur md5 t key).1 same) h,
              )
          | inr (idx, e) ↦ let (_, _, _, fewer) = found-IsRemoved t key idx v b e in fewer h
        ]
  ]
