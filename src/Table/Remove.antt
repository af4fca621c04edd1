-- ===== src/Table/Remove.antt =====
-- `qhasharr_remove` of shmutil/qhasharr.c on a well-formed table.
use shmutil.Base.{
  ℕ, suc, ◌%◌, ◌≤◌, ◌<◌, ◌≡◌, ◌≢◌, inl, inr, refl, sym, ap, ◌∙◌, true, false, List, none, arith,
}
use shmutil.Table.{Slot, Table, set_slot, is_leading, collision, remove_data}
use shmutil.Table.Lookup.{same_key, hash_of}
use shmutil.Table.Update.{decr16}
use shmutil.Table.Found.{IsFound}
use shmutil.Table.Tally.{tally, tally_two}
use shmutil.Table.Find.{entries}
use shmutil.Table.Linked.{
  is_head, is_entry-is_head, is_head-is_entry, Linked, Counted, CountedBut, Counted-CountedBut,
  CountedBut-Counted, CountedBut-eq, hash_led,
}
use shmutil.Table.Freed.{of_entry, IsFreed, remove_data-IsFreed}
use shmutil.Table.Linking.{freed-Linked}
use shmutil.Table.View.{view, alike, same_key-alike, Shows-trans, view_same, view_cases}
use shmutil.Table.Deleted.{
  tally_idx, deleted_tally, deleted-CountedBut, deleted-Shows, deleted_key, head_stays,
}
use shmutil.Table.Recount.{
  recounted, recounted-Linked, recounted-tally, recounted-CountedBut, recounted-Shows,
  recounted_slot,
}

module _ (murmur : List ℕ → ℕ) (md5 : List ℕ → List ℕ) where
  -- The table is well-formed.
  abbrev pub IsValid : Table → Type 0
  IsValid t = (own : ℕ → ℕ) × (pos : ℕ → ℕ) × Linked t own pos × Counted murmur md5 t

  -- A change that concerns one key only.
  abbrev pub Keeps : Table → Table → List ℕ → Type 0
  Keeps t t' key =
      IsValid t'
      × (t'.maxslots ≡ t.maxslots)
      × ((k : List ℕ) → alike murmur md5 key k ≡ false → view murmur md5 t' k ≡ view murmur md5 t k)

  -- an entry without the key is another one
  pub not_alike :
      (t : Table) (key k : List ℕ) (h h' idx : ℕ)
      → IsFound murmur md5 t key h idx
      → alike murmur md5 key k ≡ false
      → (i : ℕ) → IsFound murmur md5 t k h' i
      → i ≢ idx
  not_alike t key k h h' idx (_, _, s) n i (_, _, s') e = cc (
      same_key-alike murmur md5 (t.slots idx) key k s
        (ap (λ j. same_key murmur md5 (t.slots j) k) (sym e) ∙ s'))

  -- No entry has the key.
  abbrev pub IsAbsent : Table → List ℕ → Type 0
  IsAbsent t key = (i : ℕ) → ¬ IsFound murmur md5 t key (hash_of murmur md5 t key) i

  -- What is shown where nothing with the key is found.
  pub view-none :
      (t : Table) (c : Counted murmur md5 t) (key : List ℕ)
      → IsAbsent t key
      → view murmur md5 t key ≡ none
  view-none t c key n = elim (view_cases murmur md5 t c key) [
    | inl (i, f, _) ↦ absurd (n i f)
    | inr (e, _) ↦ e
  ]

  -- No hash has more entries than before.
  abbrev pub HasFewer : Table → Table → Type 0
  HasFewer t t' = (h : ℕ) → tally (entries t' h) t'.maxslots ≤ tally (entries t h) t.maxslots

  -- the only entry of its hash
  module _ (t : Table) (own pos : ℕ → ℕ) (l : Linked t own pos) (c : Counted murmur md5 t)
      (key : List ℕ) (idx : ℕ) (f : IsFound murmur md5 t key (hash_of murmur md5 t key) idx) where
    abbrev hash : ℕ
    hash = hash_of murmur md5 t key

    abbrev t₁ : Table
    t₁ = (remove_data t idx).1

    head : is_head (t.slots idx).count ≡ true
    head = (is_entry-is_head (t.slots idx) hash f.1).0

    at_hash : (t.slots idx).hash ≡ hash
    at_hash = (is_entry-is_head (t.slots idx) hash f.1).1

    gone : IsFreed t own pos l idx (of_entry t own pos l idx) t₁
    gone = remove_data-IsFreed t own pos l idx f.0 head

    pub remove_only : (t.slots idx).count ≡ 1 → Keeps t t₁ key × IsAbsent t₁ key
    remove_only one =
        let lead : is_leading (t.slots idx).count ≡ true = ground (arith, one) in
        let self = c.self idx f.0 lead in
        let but =
          deleted-CountedBut t own pos l idx f.0 head t₁ gone murmur md5
            (Counted-CountedBut murmur md5 t (t.slots idx).hash c) in
        let (_, n) =
          hash_led murmur md5 t c (t.slots idx).hash idx (c.in_range idx f.0 head) f.0
            (is_head-is_entry (t.slots idx) (t.slots idx).hash head refl) in
        let one_left = tally_idx t own pos l idx f.0 head t₁ gone in
        let c' =
          CountedBut-Counted murmur md5 t₁ (t.slots idx).hash but
            (inl (omega (arith, one_left, n, ap (λ j. (t.slots j).count) self, one))) in
        let h' : hash_of murmur md5 t₁ key ≡ hash = ap (λ m. murmur key % m) gone.0 in
        (
          (
            (own, pos, freed-Linked t own pos l idx t₁ gone, c'),
            gone.0,
            λ k n. view_same murmur md5 t t₁ c c' k gone.0 (
                deleted-Shows t own pos l idx f.0 head t₁ gone murmur md5 k (hash_of murmur md5 t k)
                  (not_alike t key k hash (hash_of murmur md5 t k) idx f n)),
          ),
          rw h' (
              deleted_key t own pos l idx f.0 head t₁ gone murmur md5 key hash
                (Counted-CountedBut murmur md5 t (t.slots idx).hash c) f),
        )

    pub only-HasFewer : HasFewer t t₁
    only-HasFewer = deleted_tally t own pos l idx f.0 head t₁ gone

    entry_there : (h : ℕ) → (t.slots idx).hash ≡ h → entries t h idx ≡ true
    entry_there h e = is_head-is_entry (t.slots idx) h head e

    -- the leading slot of the entry, with its count
    abbrev pub led : ℕ
    led = (t.slots idx).hash

    pub led_by :
        (led < t.maxslots)
        × (is_leading (t.slots led).count ≡ true)
        × ((t.slots led).count ≡ tally (entries t led) t.maxslots)
        × ((t.slots led).hash ≡ led)
    led_by =
        let b = c.in_range idx f.0 head in
        let (lead, n) = hash_led murmur md5 t c led idx b f.0 (entry_there led refl) in
        (b, lead, n, c.self led b lead)

    -- An entry that does not lead is one of two at least.
    pub led_two : (t.slots idx).count ≡ collision → (led ≢ idx) × (2 ≤ (t.slots led).count)
    led_two coll =
        let (b, lead, n, self) = led_by in
        let ne : led ≢ idx =
          λ e. ground (arith, coll, ap (λ j. is_leading (t.slots j).count) e, lead) in
        (
          ne,
          omega (
            arith,
            n,
            tally_two (entries t led) led idx t.maxslots b f.0 ne
                (is_head-is_entry (t.slots led) led (ground (arith, lead)) self)
                (entry_there led refl),
          ),
        )

    module _ (coll : (t.slots idx).count ≡ collision) where
      abbrev pub less : ℕ
      less = decr16 (t.slots led).count

      pub less_one : (is_leading less ≡ true) × (suc less ≡ (t.slots led).count)
      less_one =
          let (_, lead, _, _) = led_by in let (_, two) = led_two coll in ground (arith, lead, two)

      pub led_head : is_head (t.slots led).count ≡ true
      led_head = let (_, lead, _, _) = led_by in ground (arith, lead)

      pub less_head : is_head less ≡ true
      less_head = ground (arith, less_one)

      abbrev t₂ : Table
      t₂ = recounted t led less led_head less_head

      linked₂ : Linked t₂ own pos
      linked₂ = recounted-Linked t led less led_head less_head own pos l

      same_idx : t₂.slots idx ≡ t.slots idx
      unfolding set_slot
      same_idx = ground (arith, led_two coll)

      size₂ : t₂.maxslots ≡ t.maxslots
      unfolding set_slot
      size₂ = refl

      f₂ : IsFound murmur md5 t₂ key hash idx
      f₂ = let (b, en, k) = f in (omega (arith, b, size₂), rw same_idx en, rw same_idx k)

      head₂ : is_head (t₂.slots idx).count ≡ true
      head₂ = rw same_idx head

      abbrev t₃ : Table
      t₃ = (remove_data t₂ idx).1

      gone₃ : IsFreed t₂ own pos linked₂ idx (of_entry t₂ own pos linked₂ idx) t₃
      gone₃ = remove_data-IsFreed t₂ own pos linked₂ idx f₂.0 head₂

      but₂ : CountedBut murmur md5 t₂ (t₂.slots idx).hash
      but₂ =
          let (b, lead, n, self) = led_by in
          CountedBut-eq murmur md5 t₂ (t.slots led).hash (t₂.slots idx).hash
            (self ∙ ap (λ (q : Slot). q.hash) (sym same_idx))
            (recounted-CountedBut t led less led_head less_head murmur md5 (λ e. self)
              (Counted-CountedBut murmur md5 t (t.slots led).hash c))

      led_stays : (t₃.slots led).count ≡ less
      led_stays =
          let (b, lead, n, self) = led_by in
          let (ne, _) = led_two coll in
          let (_, _, _, _, kind, count) = recounted_slot t led less led_head less_head led in
          let same =
            head_stays t₂ own pos linked₂ idx f₂.0 head₂ t₃ gone₃ led (omega (arith, b, size₂))
              (kind ∙ led_head) ne in
          ap (λ (q : Slot). q.count) same ∙ count ∙ ground arith

      tally₃ : suc (tally (entries t₃ led) t₃.maxslots) ≡ (t.slots led).count
      tally₃ =
          let (b, lead, n, self) = led_by in
          let e = ap (λ (q : Slot). q.hash) same_idx in
          let one = tally_idx t₂ own pos linked₂ idx f₂.0 head₂ t₃ gone₃ in
          let one' : tally (entries t₂ led) t₂.maxslots ≡ suc (tally (entries t₃ led) t₃.maxslots) =
            rw e at one in
          sym one' ∙ recounted-tally t led less led_head less_head led ∙ sym n

      counted₃ : Counted murmur md5 t₃
      counted₃ =
          let (is, suc_less) = less_one in
          let but₃ =
            deleted-CountedBut t₂ own pos linked₂ idx f₂.0 head₂ t₃ gone₃ murmur md5 but₂ in
          CountedBut-Counted murmur md5 t₃ led
            (CountedBut-eq murmur md5 t₃ (t₂.slots idx).hash led
              (ap (λ (q : Slot). q.hash) same_idx) but₃)
            (inr (rw led_stays is, omega (arith, led_stays, tally₃, suc_less)))

      size₃ : t₃.maxslots ≡ t.maxslots
      size₃ = gone₃.0 ∙ size₂

      pub remove_collision : Keeps t t₃ key × IsAbsent t₃ key
      remove_collision =
          let h' : hash_of murmur md5 t₃ key ≡ hash = ap (λ m. murmur key % m) size₃ in
          (
            (
              (own, pos, freed-Linked t₂ own pos linked₂ idx t₃ gone₃, counted₃),
              size₃,
              λ k n. view_same murmur md5 t t₃ c counted₃ k size₃ (
                  Shows-trans murmur md5 t t₂ t₃ k (hash_of murmur md5 t k)
                    (recounted-Shows t led less led_head less_head murmur md5 own pos l k
                      (hash_of murmur md5 t k))
                    (deleted-Shows t₂ own pos linked₂ idx f₂.0 head₂ t₃ gone₃ murmur md5 k
                      (hash_of murmur md5 t k)
                      (not_alike t₂ key k hash (hash_of murmur md5 t k) idx f₂ n))),
            ),
            rw h' (
                deleted_key t₂ own pos linked₂ idx f₂.0 head₂ t₃ gone₃ murmur md5 key hash but₂ f₂),
          )

      pub collision-HasFewer : HasFewer t t₃
      collision-HasFewer h = omega (
        arith,
        deleted_tally t₂ own pos linked₂ idx f₂.0 head₂ t₃ gone₃ h,
        recounted-tally t led less led_head less_head h,
      )
