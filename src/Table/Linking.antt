-- ===== src/Table/Linking.antt =====
-- The steps of shmutil/qhasharr.c that keep a table linked.
use shmutil.Base.{ℕ, suc, ◌<◌, ◌≡◌, ◌≢◌, ◌⊎◌, inl, inr, sym, ◌∙◌, true, ◌==◌, if◌then◌else◌, arith}
use shmutil.Atomic.{minus_one}
use shmutil.Table.{Slot, Table, set_slot}
use shmutil.Table.Store.{extend}
use shmutil.Table.Linked.{is_head, Linked}
use shmutil.Table.Freed.{of_entry, IsFreed}

-- Without the slots of an entry the table is still linked.
module _ (t : Table) (own pos : ℕ → ℕ) (l : Linked t own pos) (idx : ℕ) (t' : Table)
    (f : IsFreed t own pos l idx (of_entry t own pos l idx) t') where
  freed_use :
      (j : ℕ)
      → j < t.maxslots
      → (t'.slots j).count ≢ 0
      → ((t.slots j).count ≢ 0) × (own j ≢ idx) × (t'.slots j ≡ t.slots j)
  freed_use j b u = ground (arith, f.1 j b)

  freed_other : (j : ℕ) → j < t.maxslots → own j ≢ idx → t'.slots j ≡ t.slots j
  freed_other j b u = ground (arith, f.1 j b)

  pub freed-Linked : Linked t' own pos
  freed-Linked =
      let m = f.0 in
      record {
        small = rw m l.small;
        kinds = λ j b u.
            let b' : j < t.maxslots = rw m at b in ground (arith, freed_use j b' u, l.kinds j b');
        owner = λ j b u.
            let b' : j < t.maxslots = rw m at b in
            let (u', o, same) = freed_use j b' u in
            let (bo, ho) = l.owner j b' u' in
            let (oo, _) = l.heads (own j) bo ho in
            let keep = freed_other (own j) bo (λ e. o (sym oo ∙ e)) in (rw m bo, rw keep ho);
        heads = λ j b h.
            let b' : j < t.maxslots = rw m at b in
            let (_, _, same) = freed_use j b' (λ z. ground (arith, z, h)) in
            l.heads j b' (rw same at h);
        tails = λ j b e.
            let b' : j < t.maxslots = rw m at b in
            let (u', o, same) = freed_use j b' (λ z. ground (arith, z, e)) in
            let (bh, uh, lh, oh, ph) = l.tails j b' (rw same at e) in
            let keep = freed_other (t.slots j).hash bh (λ w. o (sym oh ∙ w)) in
            rw (m, same, keep) (bh, uh, lh, oh, ph);
        links = λ j b u.
            let b' : j < t.maxslots = rw m at b in
            let (u', o, same) = freed_use j b' u in
            elim (l.links j b' u') [
              | inl last ↦ inl (rw same last)
              | inr (bl, cl, hl) ↦
                  let (_, _, _, ol, _) = l.tails (t.slots j).link bl cl in
                  let keep = freed_other (t.slots j).link bl (λ w. o (rw hl at ol ∙ w)) in
                  inr (rw (m, same, keep) (bl, cl, hl))
            ];
      }

-- A write to the contents, the size or the count of a slot, where the count stays that of an entry.
module _ (t : Table) (own pos : ℕ → ℕ) (l : Linked t own pos) (i : ℕ) (s : Slot) where
  -- what matters for the links
  abbrev IsAlike : Type 0
  IsAlike =
      (s.hash ≡ (t.slots i).hash)
      × (s.link ≡ (t.slots i).link)
      × ((s.count ≡ (t.slots i).count)
          ⊎ ((is_head (t.slots i).count ≡ true) × (is_head s.count ≡ true)))

  pub alike-Linked : IsAlike → Linked (set_slot t i s) own pos
  unfolding set_slot
  alike-Linked a = record {
    small = l.small;
    kinds = λ j b u. ground (arith, l.kinds j b);
    owner = λ j b u. ground (arith, l.owner j b);
    heads = λ j b h. ground (arith, l.heads j b);
    tails = λ j b e. ground (arith, l.tails j b);
    links = λ j b u. ground (arith, l.links j b);
  }

-- A new entry in an empty slot.
module _ (t : Table) (own pos : ℕ → ℕ) (l : Linked t own pos) (i : ℕ) (s : Slot) where
  abbrev pub own_new : ℕ → ℕ
  own_new j = if j == i then i else own j

  abbrev pub pos_new : ℕ → ℕ
  pos_new j = if j == i then 0 else pos j

  pub new-Linked :
      i < t.maxslots
      → (t.slots i).count ≡ 0
      → is_head s.count ≡ true
      → s.link ≡ minus_one
      → Linked (set_slot t i s) own_new pos_new
  unfolding set_slot
  new-Linked bi z h n = record {
    small = l.small;
    kinds = λ j b u. ground (arith, l.kinds j b);
    owner = λ j b u. ground (arith, l.owner j b);
    heads = λ j b h. ground (arith, l.heads j b);
    tails = λ j b e. ground (arith, l.tails j b);
    links = λ j b u. ground (arith, l.links j b);
  }

-- A new slot at the end of a chain.
module _ (t : Table) (own pos : ℕ → ℕ) (l : Linked t own pos) (n m : ℕ) where
  abbrev pub own_more : ℕ → ℕ
  own_more j = if j == m then own n else own j

  abbrev pub pos_more : ℕ → ℕ
  pos_more j = if j == m then suc (pos n) else pos j

  pub extend-Linked :
      n < t.maxslots
      → (t.slots n).count ≢ 0
      → (t.slots n).link ≡ minus_one
      → m < t.maxslots
      → (t.slots m).count ≡ 0
      → Linked (extend t n m) own_more pos_more
  unfolding extend set_slot
  extend-Linked bn un en bm zm = record {
    small = l.small;
    kinds = λ j b u. ground (arith, l.kinds j b);
    owner = λ j b u. ground (arith, l.owner j b, l.owner n bn un);
    heads = λ j b h. ground (arith, l.heads j b);
    tails = λ j b e. ground (arith, l.tails j b);
    links = λ j b u. ground (arith, l.links j b, l.tails n bn, l.kinds n bn un);
  }
