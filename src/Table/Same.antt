-- ===== src/Table/Same.antt =====
-- Tables of shmutil/qhasharr.c that differ in empty slots only.
use shmutil.Base.{
  ℕ, ◌<◌, ◌≡◌, ◌≢◌, inl, inr, refl, sym, ap, ◌∙◌, Bool-cases, true, List, ◌==◌, arith,
}
use shmutil.Table.{Slot, Table}
use shmutil.Table.Lookup.{is_entry}
use shmutil.Table.Found.{IsFound}
use shmutil.Table.Tally.{tally, tally_ext}
use shmutil.Table.Find.{entries}
use shmutil.Table.Linked.{is_entry-is_head, is_head-ne-zero, Linked, Counted}
use shmutil.Table.Follow.{get_data_kept}
use shmutil.Table.View.{Shows}

-- A slot in use in `t'` is in use in `t`, and all these slots are the same.
pub record SameUse (t t' : Table) : Type 0 where
  pub same_size : t'.maxslots ≡ t.maxslots
  pub there : (j : ℕ) → j < t.maxslots → (t.slots j).count ≢ 0 → t'.slots j ≡ t.slots j
  pub back : (j : ℕ) → j < t.maxslots → (t'.slots j).count ≢ 0 → (t.slots j).count ≢ 0

module _ (t t' : Table) (s : SameUse t t') where
  same_slot :
      (j : ℕ)
      → j < t'.maxslots
      → (t'.slots j).count ≢ 0
      → (j < t.maxslots) × ((t.slots j).count ≢ 0) × (t'.slots j ≡ t.slots j)
  same_slot j b u =
      let b' : j < t.maxslots = omega (arith, s.same_size, b) in
      let u' = s.back j b' u in (b', u', s.there j b' u')

  pub SameUse-Linked : (own pos : ℕ → ℕ) → Linked t own pos → Linked t' own pos
  SameUse-Linked own pos l = record {
    small = omega (arith, s.same_size, l.small);
    kinds = λ j b u. let (b', u', e) = same_slot j b u in rw e (l.kinds j b' u');
    owner = λ j b u.
        let (b', u', e) = same_slot j b u in
        let (bo, ho) = l.owner j b' u' in
        (omega (arith, s.same_size, bo), rw (s.there (own j) bo (ground (arith, ho))) ho);
    heads =
        λ j b h. let (b', u', e) = same_slot j b (ground (arith, h)) in l.heads j b' (rw e at h);
    tails = λ j b h.
        let (b', u', e) = same_slot j b (ground (arith, h)) in
        let (bh, uh, lh, oh, ph) = l.tails j b' (rw e at h) in
        let f = s.there (t.slots j).hash bh uh in
        (rw e (omega (arith, s.same_size, bh)), rw (e, f) uh, rw (e, f) lh, rw e oh, rw e ph);
    links = λ j b u.
        let (b', u', e) = same_slot j b u in
        elim (l.links j b' u') [
          | inl last ↦ inl (rw e last)
          | inr (bl, cl, hl) ↦
              let f = s.there (t.slots j).link bl (ground (arith, cl)) in
              inr (rw e (omega (arith, s.same_size, bl)), rw (e, f) cl, rw (e, f) hl)
        ];
  }

  same_entries : (h j : ℕ) → j < t.maxslots → entries t' h j ≡ entries t h j
  unfolding is_entry
  same_entries h j b = elim (Bool-cases ((t.slots j).count == 0)) [
    | inl z ↦ ground (arith, z, s.back j b)
    | inr u ↦ rw (s.there j b (λ w. ground (arith, u, w))) refl
  ]

  pub same_tally : (h : ℕ) → tally (entries t' h) t'.maxslots ≡ tally (entries t h) t.maxslots
  same_tally h =
      ap (tally (entries t' h)) s.same_size
      ∙ tally_ext (entries t' h) (entries t h) t.maxslots (same_entries h)

  module _ (murmur : List ℕ → ℕ) (md5 : List ℕ → List ℕ) where
    entry_used : (h j : ℕ) (u : Table) → is_entry (u.slots j) h ≡ true → (u.slots j).count ≢ 0
    entry_used h j u e = is_head-ne-zero (u.slots j).count (is_entry-is_head (u.slots j) h e).0

    same_found :
        (key : List ℕ) (h i : ℕ)
        → IsFound murmur md5 t' key h i
        → IsFound murmur md5 t key h i × (t'.slots i ≡ t.slots i)
    same_found key h i (b, e, k) =
        let (b', u', f) = same_slot i b (entry_used h i t' e) in ((b', rw f at e, rw f at k), f)

    found_same :
        (key : List ℕ) (h i : ℕ) → IsFound murmur md5 t key h i → IsFound murmur md5 t' key h i
    found_same key h i (b, e, k) =
        let f = s.there i b (entry_used h i t e) in (omega (arith, s.same_size, b), rw f e, rw f k)

    pub SameUse-Counted : Counted murmur md5 t → Counted murmur md5 t'
    SameUse-Counted c = record {
      group = λ h b.
          let b' : h < t.maxslots = omega (arith, s.same_size, b) in
          elim (c.group h b') [
            | inl z ↦ inl (same_tally h ∙ z)
            | inr (lead, n) ↦
                let f = s.there h b' (ground (arith, lead)) in
                inr (rw f lead, rw f (n ∙ sym (same_tally h)))
          ];
      self = λ j b lead.
          let (b', u', f) = same_slot j b (ground (arith, lead)) in
          ap (λ (q : Slot). q.hash) f ∙ c.self j b' (rw f at lead);
      in_range = λ j b h.
          let (b', u', f) = same_slot j b (ground (arith, h)) in
          rw f (omega (arith, s.same_size, c.in_range j b' (rw f at h)));
      unique = λ key h i i' f f'.
          c.unique key h i i' (same_found key h i f).0 (same_found key h i' f').0;
    }

    pub SameUse-Shows :
        (own pos : ℕ → ℕ) → Linked t own pos → (key : List ℕ) (h : ℕ) → Shows murmur md5 t t' key h
    SameUse-Shows own pos l key h = record {
      there = λ i f.
          let (b, e, _) = f in
          (
            i,
            found_same key h i f,
            get_data_kept t own pos l t' i s.same_size
                (λ x bx ux ox. let g = s.there x bx ux in rw g (refl, refl, refl)) b
                (is_entry-is_head (t.slots i) h e).0,
          );
      back = λ i f. (i, (same_found key h i f).0);
    }
