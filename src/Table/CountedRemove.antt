-- ===== src/Table/CountedRemove.antt =====
-- The counters of the table of shmutil/qhasharr.c after `qhasharr_remove`.
use shmutil.Base.{
  ℕ, ◌<◌, ◌≡◌, ◌≢◌, refl, ap, ◌∙◌, inl, inr, Bool-cases, true, false, List, Option-cases, none,
  ◌==◌, if◌then◌else◌, arith,
}
use native.Mathlib.Nat.{mod-lt}
use shmutil.Atomic.{minus_one}
use shmutil.Table.{Table, is_leading, collision, remove_data, set_errno, enoent, set_slot}
use shmutil.Table.Lookup.{get_idx, hash_of}
use shmutil.Table.Update.{move_to_lead, set_count, set_hash, remove, remove_at}
use shmutil.Table.Found.{IsFound, get_idx-some}
use shmutil.Table.Linked.{is_head, is_entry-is_head, Linked, Counted}
use shmutil.Table.Counters.{IsWithin}
use shmutil.Table.Uncounted.{remove_data-IsWithin}
use shmutil.Table.CountedMove.{
  moved, moved-IsWithin, moved_count, set_count-IsWithin, fix_hash-IsWithin,
}
use shmutil.Table.Recount.{recounted-Linked, recounted_slot}
use shmutil.Table.Remove.{IsValid, led_by, led_two, led_head, less_head}
use shmutil.Table.Dup.{IsDup}
use shmutil.Table.Remove
use shmutil.Table.RemoveLead
use shmutil.Table.RemoveLead.{lead_head, coll₁, used₁, empty₁, be, bi, other_found}
use shmutil.Table.Removed.{
  remove_at-only, remove_at-leading, remove_at-collision, remove-found, remove-no_slots,
}

in_table : (t : Table) (i c idx : ℕ) → idx < t.maxslots → idx < (set_count i c t).maxslots
unfolding set_slot
in_table t i c idx b = b

module _ (murmur : List ℕ → ℕ) (md5 : List ℕ → List ℕ) where
  -- where another entry becomes the leading one
  module _ (t : Table) (own pos : ℕ → ℕ) (l : Linked t own pos) (c : Counted murmur md5 t)
      (key : List ℕ) (idx : ℕ) (f : IsFound murmur md5 t key (hash_of murmur md5 t key) idx)
      (lead : is_leading (t.slots idx).count ≡ true) (many : (t.slots idx).count ≢ 1) (idx2 : ℕ)
      (d : IsDup t (hash_of murmur md5 t key) idx f.0 idx2) where
    abbrev t₁ : Table
    t₁ = (remove_data t idx).1

    abbrev t₃ : Table
    t₃ =
        moved t₁ idx idx2 (bi murmur md5 t own pos l c key idx f lead many idx2 d)
          (empty₁ murmur md5 t own pos l c key idx f lead many idx2 d)
          (be murmur md5 t own pos l c key idx f lead many idx2 d)
          (used₁ murmur md5 t own pos l c key idx f lead many idx2 d)

    abbrev less : ℕ
    less = RemoveLead.less murmur md5 t own pos l c key idx f lead many idx2 d

    abbrev t₄ : Table
    t₄ = set_count idx less t₃

    move_to_lead-eq :
        move_to_lead t idx idx2
        ≡ (if (t₄.slots idx).link == minus_one then t₄ else set_hash (t₄.slots idx).link idx t₄)
    unfolding move_to_lead
    move_to_lead-eq = refl

    move_to_lead-IsWithin : (k : ℕ) → IsWithin t k → IsWithin (move_to_lead t idx idx2) k
    move_to_lead-IsWithin k n =
        let bi' = bi murmur md5 t own pos l c key idx f lead many idx2 d in
        let z = empty₁ murmur md5 t own pos l c key idx f lead many idx2 d in
        let be' = be murmur md5 t own pos l c key idx f lead many idx2 d in
        let u = used₁ murmur md5 t own pos l c key idx f lead many idx2 d in
        let n₁ =
          remove_data-IsWithin t own pos l k idx f.0
            (lead_head murmur md5 t own pos l c key idx f lead many) n in
        let coll =
          moved_count t₁ idx idx2 bi' z be' u
          ∙ coll₁ murmur md5 t own pos l c key idx f lead many idx2 d in
        let n₄ =
          set_count-IsWithin t₃ k idx less (ap is_head coll)
            (RemoveLead.less_head murmur md5 t own pos l c key idx f lead many idx2 d)
            (moved-IsWithin t₁ idx idx2 bi' z be' u k n₁) in
        rw move_to_lead-eq
          (fix_hash-IsWithin t₄ k ((t₄.slots idx).link == minus_one) (t₄.slots idx).link idx n₄)

  -- an entry that does not lead
  collision-IsWithin :
      (t : Table) (own pos : ℕ → ℕ) (l : Linked t own pos) (c : Counted murmur md5 t) (key : List ℕ)
      (idx : ℕ) (f : IsFound murmur md5 t key (hash_of murmur md5 t key) idx)
      (coll : (t.slots idx).count ≡ collision) (k : ℕ)
      → IsWithin t k
      → IsWithin
          (remove_data
            (set_count (t.slots idx).hash (Remove.less murmur md5 t own pos l c key idx f coll) t)
            idx).1
          k
  collision-IsWithin t own pos l c key idx f coll k n =
      let led = (t.slots idx).hash in
      let less = Remove.less murmur md5 t own pos l c key idx f coll in
      let h = led_head murmur md5 t own pos l c key idx f coll in
      let h' = less_head murmur md5 t own pos l c key idx f coll in
      let t₂ = set_count led less t in
      let (_, _, _, _, kind, _) = recounted_slot t led less h h' idx in
      let head = (is_entry-is_head (t.slots idx) (hash_of murmur md5 t key) f.1).0 in
      remove_data-IsWithin t₂ own pos (recounted-Linked t led less h h' own pos l) k idx
        (in_table t led less idx f.0) (kind ∙ head) (set_count-IsWithin t k led less h h' n)

  remove_at-IsWithin :
      (t : Table) (key : List ℕ) (k idx : ℕ)
      → IsValid murmur md5 t
      → IsFound murmur md5 t key (hash_of murmur md5 t key) idx
      → IsWithin t k
      → IsWithin (remove_at t (hash_of murmur md5 t key) idx).1 k
  remove_at-IsWithin t key k idx (own, pos, l, c) f n =
      let hash = hash_of murmur md5 t key in
      let head = (is_entry-is_head (t.slots idx) hash f.1).0 in
      elim (Bool-cases (is_leading (t.slots idx).count)) [
        | inl lead ↦ elim (Bool-cases ((t.slots idx).count == 1)) [
          | inl one ↦
              rw (remove_at-only t hash idx (ground (arith, one)))
                (remove_data-IsWithin t own pos l k idx f.0 head n)
          | inr more ↦
              let many : (t.slots idx).count ≢ 1 = λ w. ground (arith, w, more) in
              let (idx2, e, d) = other_found murmur md5 t own pos l c key idx f lead many in
              rw (remove_at-leading t hash idx idx2 lead many e)
                (move_to_lead-IsWithin t own pos l c key idx f lead many idx2 d k n)
        ]
        | inr follows ↦
            let coll : (t.slots idx).count ≡ collision = ground (arith, head, follows) in
            let (_, lead, _, _) = led_by murmur md5 t own pos l c key idx f in
            let (_, two) = led_two murmur md5 t own pos l c key idx f coll in
            rw (remove_at-collision t hash idx coll lead two)
              (collision-IsWithin t own pos l c key idx f coll k n)
      ]

  remove-absent_table :
      (t : Table) (key : List ℕ)
      → t.maxslots ≢ 0
      → get_idx murmur md5 t key (hash_of murmur md5 t key) ≡ none
      → remove murmur md5 t key ≡ (false, set_errno enoent t)
  unfolding remove
  remove-absent_table t key n e = ground (arith, n, e)

  pub remove-IsWithin :
      (t : Table) (key : List ℕ) (k : ℕ)
      → IsValid murmur md5 t
      → IsWithin t k
      → IsWithin (remove murmur md5 t key).1 k
  remove-IsWithin t key k v n = elim (Bool-cases (t.maxslots == 0)) [
    | inl z ↦ rw (remove-no_slots murmur md5 t key (ground (arith, z))) n
    | inr more ↦
        let hash = hash_of murmur md5 t key in
        let some_slots : t.maxslots ≢ 0 = λ w. ground (arith, w, more) in
        let b : hash < t.maxslots = mod-lt (murmur key) (omega (arith, some_slots)) in
        elim (Option-cases (get_idx murmur md5 t key hash)) [
          | inl e ↦ rw (remove-absent_table t key some_slots e) n
          | inr (idx, e) ↦
              rw (remove-found murmur md5 t key idx some_slots e)
                (remove_at-IsWithin t key k idx v (get_idx-some murmur md5 t key hash idx b e) n)
        ]
  ]
