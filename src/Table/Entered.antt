-- ===== src/Table/Entered.antt =====
-- A table of shmutil/qhasharr.c with one entry more.
use shmutil.Base.{
  ℕ, suc, ◌<◌, ◌≡◌, ◌≢◌, ◌⊎◌, inl, inr, refl, sym, ap, ◌∙◌, Bool-cases, ℕ_discrete, true, false,
  List, some, ◌==◌, arith,
}
use shmutil.Table.{Slot, Table, is_leading}
use shmutil.Table.Lookup.{is_entry, same_key, hash_of}
use shmutil.Table.Found.{IsFound}
use shmutil.Table.Tally.{tally, tally_ext, tally_more}
use shmutil.Table.Find.{entries}
use shmutil.Table.Linked.{
  is_head, is_entry-is_head, is_head-is_entry, is_head-ne-zero, Linked, Counted, CountedBut,
}
use shmutil.Table.Follow.{get_data_kept}
use shmutil.Table.View.{view, alike, same_key-alike, alike-same_key, alike_sym, view-IsFound, Shows}
use shmutil.Table.Added.{Added}

module _ (murmur : List ℕ → ℕ) (md5 : List ℕ → List ℕ) (t t' : Table) (idx hash count : ℕ)
    (key value : List ℕ) (a : Added murmur md5 t t' idx hash count key value)
    (hc : is_head count ≡ true) where
  idx_head : is_head (t'.slots idx).count ≡ true
  idx_head = ap is_head a.entry.is_count ∙ hc

  idx_entry : entries t' hash idx ≡ true
  idx_entry = is_head-is_entry (t'.slots idx) hash idx_head a.entry.is_hash

  idx_other : (h : ℕ) → h ≢ hash → entries t' h idx ≡ false
  unfolding is_entry
  idx_other h n = ground (arith, a.entry.is_hash)

  not_entry : (u : Table) (h j : ℕ) → is_head (u.slots j).count ≡ false → entries u h j ≡ false
  unfolding is_entry
  not_entry u h j e = ground (arith, e)

  was_empty : (h : ℕ) → entries t h idx ≡ false
  was_empty h = not_entry t h idx (ground (arith, a.empty))

  entered_other : (h j : ℕ) → j < t.maxslots → j ≢ idx → entries t' h j ≡ entries t h j
  entered_other h j b n = elim (Bool-cases ((t.slots j).count == 0)) [
    | inl free ↦
        let z : (t.slots j).count ≡ 0 = ground (arith, free) in
        not_entry t' h j (a.fresh j b n z) ∙ sym (not_entry t h j (ground (arith, z)))
    | inr used ↦ ap (λ (s : Slot). is_entry s h) (a.kept j (λ w. ground (arith, w, used)))
  ]

  -- The hash has one entry more, the others as many as before.
  pub entered_tally : tally (entries t' hash) t'.maxslots ≡ suc (tally (entries t hash) t.maxslots)
  entered_tally =
      ap (tally (entries t' hash)) a.same_size
      ∙ tally_more (entries t hash) (entries t' hash) idx t.maxslots a.in_table
          (λ j b n. sym (entered_other hash j b n)) (was_empty hash) idx_entry

  pub entered_tally_others :
      (h : ℕ) → h ≢ hash → tally (entries t' h) t'.maxslots ≡ tally (entries t h) t.maxslots
  entered_tally_others h n =
      ap (tally (entries t' h)) a.same_size
      ∙ tally_ext (entries t' h) (entries t h) t.maxslots (λ j b. elim (ℕ_discrete j idx) [
        | yes e ↦ rw e (idx_other h n ∙ sym (was_empty h))
        | no u ↦ entered_other h j b u
      ])

  entry_used : (k : List ℕ) (h i : ℕ) → IsFound murmur md5 t k h i → (t.slots i).count ≢ 0
  entry_used k h i (b, e, s) =
      is_head-ne-zero (t.slots i).count (is_entry-is_head (t.slots i) h e).0

  pub found_entered :
      (k : List ℕ) (h i : ℕ) → IsFound murmur md5 t k h i → IsFound murmur md5 t' k h i
  found_entered k h i f =
      let (b, e, s) = f in
      let same = a.kept i (entry_used k h i f) in
      (omega (arith, b, a.same_size), rw same e, rw same s)

  -- an entry is the new one or an old one
  entered_found :
      (k : List ℕ) (h i : ℕ) → IsFound murmur md5 t' k h i → (i ≡ idx) ⊎ IsFound murmur md5 t k h i
  entered_found k h i (b, e, s) = elim (ℕ_discrete i idx) [
    | yes at ↦ inl at
    | no n ↦
        let b' : i < t.maxslots = omega (arith, b, a.same_size) in
        let head = (is_entry-is_head (t'.slots i) h e).0 in
        let u : (t.slots i).count ≢ 0 = λ z. ground (arith, head, a.fresh i b' n z) in
        let same = a.kept i u in inr (b', rw same at e, rw same at s)
  ]

  new_alike :
      (k : List ℕ) → same_key murmur md5 (t'.slots idx) k ≡ true → alike murmur md5 key k ≡ true
  new_alike k s = same_key-alike murmur md5 (t'.slots idx) key k a.entry.is_key s

  -- For other keys the same is shown.
  pub entered-Shows :
      (own pos : ℕ → ℕ)
      → Linked t own pos
      → (k : List ℕ) (h : ℕ) → alike murmur md5 key k ≡ false
      → Shows murmur md5 t t' k h
  entered-Shows own pos l k h n = record {
    there = λ i f. (
      i,
      found_entered k h i f,
      get_data_kept t own pos l t' i a.same_size
          (λ x bx ux ox. let same = a.kept x ux in rw same (refl, refl, refl)) f.0
          (is_entry-is_head (t.slots i) h f.1).0,
    );
    back = λ i f. elim (entered_found k h i f) [
      | inl at ↦
          let (_, _, s) = f in
          absurd (cc (new_alike k (ap (λ q. same_key murmur md5 (t'.slots q) k) (sym at) ∙ s)))
      | inr f' ↦ (i, f')
    ];
  }

  -- An old entry with a key of the new one has the new one's hash only where it has its key.
  clash :
      (absent : (i : ℕ) → ¬ IsFound murmur md5 t key hash i)
      → (k : List ℕ) (h i : ℕ) → IsFound murmur md5 t' k h idx
      → ¬ IsFound murmur md5 t k h i
  clash absent k h i (_, e, s) (b', e', s') =
      let same_hash : h ≡ hash = sym (is_entry-is_head (t'.slots idx) h e).1 ∙ a.entry.is_hash in
      let like = new_alike k s in
      absent i (
        b',
        rw same_hash at e',
        alike-same_key murmur md5 (t.slots i) k key s' (alike_sym murmur md5 key k like),
      )

  module _ (absent : (i : ℕ) → ¬ IsFound murmur md5 t key hash i) where
    entered_unique :
        ((k : List ℕ) (h i i' : ℕ)
          → IsFound murmur md5 t k h i
          → IsFound murmur md5 t k h i'
          → i ≡ i')
        → (k : List ℕ) (h i i' : ℕ) → IsFound murmur md5 t' k h i
        → IsFound murmur md5 t' k h i'
        → i ≡ i'
    entered_unique old k h i i' f f' = elim (entered_found k h i f) [
      | inl at ↦ elim (entered_found k h i' f') [
        | inl at' ↦ at ∙ sym at'
        | inr g' ↦ absurd (clash absent k h i' (rw at at f) g')
      ]
      | inr g ↦ elim (entered_found k h i' f') [
        | inl at' ↦ absurd (clash absent k h i (rw at' at f') g)
        | inr g' ↦ old k h i i' g g'
      ]
    ]

    -- a slot with a key is the new one or an old one
    old_head :
        (j : ℕ)
        → j < t'.maxslots
        → is_head (t'.slots j).count ≡ true
        → j ≢ idx
        → (j < t.maxslots) × (t'.slots j ≡ t.slots j)
    old_head j b h n =
        let b' : j < t.maxslots = omega (arith, b, a.same_size) in
        (b', a.kept j (λ z. ground (arith, h, a.fresh j b' n z)))

    pub entered-CountedBut :
        hash < t.maxslots
        → (is_leading count ≡ true → hash ≡ idx)
        → CountedBut murmur md5 t hash
        → CountedBut murmur md5 t' hash
    entered-CountedBut bh leads c = record {
      group = λ h b n.
          let b' : h < t.maxslots = omega (arith, b, a.same_size) in
          elim (c.group h b' n) [
            | inl z ↦ inl (entered_tally_others h n ∙ z)
            | inr (lead, m) ↦
                let same = a.kept h (λ z. ground (arith, z, lead)) in
                inr (rw same lead, rw same (m ∙ sym (entered_tally_others h n)))
          ];
      self = λ j b lead. elim (ℕ_discrete j idx) [
        | yes e ↦ rw e (
            a.entry.is_hash
            ∙ leads (
                ap is_leading (sym a.entry.is_count)
                ∙ ap (λ q. is_leading (t'.slots q).count) (sym e)
                ∙ lead))
        | no n ↦
            let (b', same) = old_head j b (ground (arith, lead)) n in
            ap (λ (q : Slot). q.hash) same ∙ c.self j b' (rw same at lead)
      ];
      in_range = λ j b h. elim (ℕ_discrete j idx) [
        | yes e ↦ rw (e, a.entry.is_hash) (omega (arith, bh, a.same_size))
        | no n ↦
            let (b', same) = old_head j b h n in
            rw same (omega (arith, a.same_size, c.in_range j b' (rw same at h)))
      ];
      unique = entered_unique c.unique;
    }

  pub new-IsFound : IsFound murmur md5 t' key hash idx
  new-IsFound = (omega (arith, a.in_table, a.same_size), idx_entry, a.entry.is_key)

  -- The new entry is what is shown for its key.
  pub entered-view :
      Counted murmur md5 t' → hash ≡ hash_of murmur md5 t' key → view murmur md5 t' key ≡ some value
  entered-view c' e =
      view-IsFound murmur md5 t' c' key idx (
        omega (arith, a.in_table, a.same_size),
        ap (is_entry (t'.slots idx)) (sym e) ∙ idx_entry,
        a.entry.is_key,
      )
      ∙ a.entry.is_value
