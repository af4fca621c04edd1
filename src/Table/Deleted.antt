-- ===== src/Table/Deleted.antt =====
-- A table of shmutil/qhasharr.c without one of its entries.
use shmutil.Base.{
  ℕ, suc, ◌≤◌, ◌<◌, ◌≡◌, ◌≢◌, inl, inr, refl, sym, ap, ◌∙◌, ℕ_discrete, true, false, List, arith,
}
use shmutil.Table.{Slot, Table}
use shmutil.Table.Lookup.{is_entry}
use shmutil.Table.Found.{IsFound}
use shmutil.Table.Tally.{tally, tally_ext, tally_more}
use shmutil.Table.Find.{entries}
use shmutil.Table.Linked.{is_head, is_entry-is_head, is_head-is_entry, Linked, CountedBut}
use shmutil.Table.Freed.{of_entry, IsFreed}
use shmutil.Table.Follow.{get_data_kept}
use shmutil.Table.View.{Shows}

module _ (t : Table) (own pos : ℕ → ℕ) (l : Linked t own pos) (idx : ℕ) (bi : idx < t.maxslots)
    (hi : is_head (t.slots idx).count ≡ true) (t' : Table)
    (f : IsFreed t own pos l idx (of_entry t own pos l idx) t') where
  -- a slot with a key, other than `idx`, stays
  pub head_stays :
      (j : ℕ) → j < t.maxslots → is_head (t.slots j).count ≡ true → j ≢ idx → t'.slots j ≡ t.slots j
  head_stays j b h n = ground (arith, f.1 j b, l.heads j b h)

  pub head_stayed :
      (j : ℕ)
      → j < t.maxslots
      → is_head (t'.slots j).count ≡ true
      → (j ≢ idx) × (is_head (t.slots j).count ≡ true) × (t'.slots j ≡ t.slots j)
  head_stayed j b h = ground (arith, f.1 j b, l.heads idx bi hi)

  other_stays : (j : ℕ) → j < t.maxslots → own j ≢ idx → t'.slots j ≡ t.slots j
  other_stays j b n = ground (arith, f.1 j b)

  pub idx_gone : (t'.slots idx).count ≡ 0
  idx_gone = ground (arith, f.1 idx bi, l.heads idx bi hi)

  entries_other : (h j : ℕ) → j < t.maxslots → j ≢ idx → entries t' h j ≡ entries t h j
  unfolding is_entry
  entries_other h j b n = ground (arith, f.1 j b, l.heads j b)

  entries_idx : (h : ℕ) → entries t' h idx ≡ false
  unfolding is_entry
  entries_idx h = ground (arith, idx_gone)

  -- the entries of the hash are one less, those of the others as before
  pub tally_idx :
      tally (entries t (t.slots idx).hash) t.maxslots
      ≡ suc (tally (entries t' (t.slots idx).hash) t'.maxslots)
  tally_idx =
      let h = (t.slots idx).hash in
      tally_more (entries t' h) (entries t h) idx t.maxslots bi (λ j b n. entries_other h j b n)
        (entries_idx h) (is_head-is_entry (t.slots idx) h hi refl)
      ∙ ap (λ m. suc (tally (entries t' h) m)) (sym f.0)

  not_entry : (h : ℕ) → (t.slots idx).hash ≢ h → false ≡ entries t h idx
  unfolding is_entry
  not_entry h n = ground arith

  other_hash :
      (h : ℕ) → (t.slots idx).hash ≢ h → (j : ℕ) → j < t.maxslots → entries t' h j ≡ entries t h j
  other_hash h n j b = elim (ℕ_discrete j idx) [
    | yes e ↦ rw e (entries_idx h ∙ not_entry h n)
    | no u ↦ entries_other h j b u
  ]

  pub tally_others :
      (h : ℕ)
      → (t.slots idx).hash ≢ h
      → tally (entries t' h) t'.maxslots ≡ tally (entries t h) t.maxslots
  tally_others h n =
      ap (tally (entries t' h)) f.0
      ∙ tally_ext (entries t' h) (entries t h) t.maxslots (other_hash h n)

  pub deleted_tally : (h : ℕ) → tally (entries t' h) t'.maxslots ≤ tally (entries t h) t.maxslots
  deleted_tally h = elim (ℕ_discrete (t.slots idx).hash h) [
    | yes e ↦ rw (← e) (omega (arith, tally_idx))
    | no n ↦ omega (arith, tally_others h n)
  ]

  module _ (murmur : List ℕ → ℕ) (md5 : List ℕ → List ℕ) where
    stayed_found :
        (key : List ℕ) (h i : ℕ)
        → IsFound murmur md5 t' key h i
        → IsFound murmur md5 t key h i × (i ≢ idx) × (t'.slots i ≡ t.slots i)
    stayed_found key h i (b, e, k) =
        let b' : i < t.maxslots = omega (arith, f.0, b) in
        let (n, _, g) = head_stayed i b' (is_entry-is_head (t'.slots i) h e).0 in
        ((b', rw g at e, rw g at k), n, g)

    found_stays :
        (key : List ℕ) (h i : ℕ)
        → IsFound murmur md5 t key h i
        → i ≢ idx
        → IsFound murmur md5 t' key h i
    found_stays key h i (b, e, k) n =
        let g = head_stays i b (is_entry-is_head (t.slots i) h e).0 n in
        (omega (arith, f.0, b), rw g e, rw g k)

    pub deleted-CountedBut :
        CountedBut murmur md5 t (t.slots idx).hash → CountedBut murmur md5 t' (t.slots idx).hash
    deleted-CountedBut c = record {
      group = λ h b n.
          let b' : h < t.maxslots = omega (arith, f.0, b) in
          let m = tally_others h (λ e. n (sym e)) in
          elim (c.group h b' n) [
            | inl z ↦ inl (m ∙ z)
            | inr (lead, count) ↦
                let away : h ≢ idx =
                  λ e. n (sym (c.self h b' lead) ∙ ap (λ k. (t.slots k).hash) e) in
                let g = head_stays h b' (ground (arith, lead)) away in
                inr (rw g lead, rw g (count ∙ sym m))
          ];
      self = λ j b lead.
          let b' : j < t.maxslots = omega (arith, f.0, b) in
          let (_, _, g) = head_stayed j b' (ground (arith, lead)) in
          ap (λ (q : Slot). q.hash) g ∙ c.self j b' (rw g at lead);
      in_range = λ j b h.
          let b' : j < t.maxslots = omega (arith, f.0, b) in
          let (_, _, g) = head_stayed j b' h in
          rw g (omega (arith, f.0, c.in_range j b' (rw g at h)));
      unique = λ key h i i' u u'.
          c.unique key h i i' (stayed_found key h i u).0 (stayed_found key h i' u').0;
    }

    -- For a key that the entry does not have, the same is shown.
    pub deleted-Shows :
        (key : List ℕ) (h : ℕ)
        → ((i : ℕ) → IsFound murmur md5 t key h i → i ≢ idx)
        → Shows murmur md5 t t' key h
    deleted-Shows key h away = record {
      there = λ i u.
          let n = away i u in
          let (b, e, _) = u in
          (
            i,
            found_stays key h i u n,
            get_data_kept t own pos l t' i f.0
                (λ x bx ux ox.
                  let g = other_stays x bx (λ w. n (sym ox ∙ w)) in rw g (refl, refl, refl))
                b (is_entry-is_head (t.slots i) h e).0,
          );
      back = λ i u. (i, (stayed_found key h i u).0);
    }

    -- The entry itself is not found any more.
    pub deleted_key :
        (key : List ℕ) (h : ℕ)
        → CountedBut murmur md5 t (t.slots idx).hash
        → IsFound murmur md5 t key h idx
        → (i : ℕ) → ¬ IsFound murmur md5 t' key h i
    deleted_key key h c u i u' =
        let (v, n, _) = stayed_found key h i u' in n (c.unique key h i idx v u)
