-- ===== src/Table/Relocated.antt =====
-- A slot that moved, in the table of shmutil/qhasharr.c: the entries and their values are the same.
use shmutil.Base.{
  ℕ, suc, ◌<◌, ◌≡◌, ◌≢◌, inl, inr, refl, sym, ap, ◌∙◌, Bool, Bool-cases, true, false, List, ◌==◌,
  if◌then◌else◌, arith,
}
use shmutil.Table.{Table, is_leading}
use shmutil.Table.Lookup.{is_entry, same_key}
use shmutil.Table.Found.{IsFound}
use shmutil.Table.Tally.{tally, tally_ext, tally_more}
use shmutil.Table.Find.{entries}
use shmutil.Table.Linked.{
  is_head, is_entry-is_head, is_head-is_entry, is_head-ne-zero, Linked, CountedBut,
}
use shmutil.Table.Moved.{place, IsMoved, carried, came}
use shmutil.Table.Follow.{get_data_moved}
use shmutil.Table.View.{Shows, same_key_contents}

-- A test that a number takes from another one holds for as many numbers.
tally_swap :
    (p q : ℕ → Bool) (e i n : ℕ)
    → e < n
    → i < n
    → e ≢ i
    → p i ≡ false
    → q e ≡ false
    → q i ≡ p e
    → ((j : ℕ) → j < n → j ≢ e → j ≢ i → q j ≡ p j)
    → tally q n ≡ tally p n
tally_swap p q e i n be bi ne pi qe qi a = elim (Bool-cases (p e)) [
  | inl more ↦
      let r : ℕ → Bool = λ j. if j == e then false else p j in
      let from_p : tally p n ≡ suc (tally r n) =
        tally_more r p e n be (λ j b w. ground (arith, w)) (ground arith) more in
      let from_q : tally q n ≡ suc (tally r n) =
        tally_more r q i n bi (λ j b w. ground (arith, w, a j b, qe)) (ground (arith, pi))
          (qi ∙ more) in
      from_q ∙ sym from_p
  | inr less ↦ tally_ext q p n (λ j b. ground (arith, a j b, qe, qi, pi, less))
]

module _ (t : Table) (own pos : ℕ → ℕ) (l : Linked t own pos) (e i : ℕ) (be : e < t.maxslots)
    (ue : (t.slots e).count ≢ 0) (bi : i < t.maxslots) (zi : (t.slots i).count ≡ 0) (t' : Table)
    (m : IsMoved t e i t') where
  -- The place of an entry shows what the entry was.
  at_place :
      (x : ℕ)
      → x < t.maxslots
      → is_head (t.slots x).count ≡ true
      → ((t'.slots (place e i x)).count ≡ (t.slots x).count)
        × ((t'.slots (place e i x)).hash ≡ (t.slots x).hash)
        × ((t'.slots (place e i x)).contents ≡ (t.slots x).contents)
  at_place x b h =
      let (count, _, contents, _, hash) =
        carried t own pos l e i be ue bi zi t' m x b (is_head-ne-zero (t.slots x).count h) in
      (count, ground (arith, hash, h), contents)

  -- Each entry stands at the place of one.
  from_place :
      (j : ℕ)
      → j < t'.maxslots
      → is_head (t'.slots j).count ≡ true
      → (x : ℕ) × (x < t.maxslots) × (is_head (t.slots x).count ≡ true) × (j ≡ place e i x)
  from_place j b h =
      let (x, b', u, w) =
        came t own pos l e i be ue bi zi t' m j (omega (arith, b, m.0))
          (is_head-ne-zero (t'.slots j).count h) in
      let (count, _, _, _, _) = carried t own pos l e i be ue bi zi t' m x b' u in
      (x, b', ap is_head (sym count ∙ ap (λ k. (t'.slots k).count) (sym w)) ∙ h, w)

  place_lt : (x : ℕ) → x < t.maxslots → place e i x < t'.maxslots
  place_lt x b = ground (arith, m.0)

  e-ne-i : e ≢ i
  e-ne-i w = ue (ap (λ k. (t.slots k).count) w ∙ zi)

  entries_empty : (h : ℕ) → entries t h i ≡ false
  unfolding is_entry
  entries_empty h = ground (arith, zi)

  entries_left : (h : ℕ) → entries t' h e ≡ false
  unfolding is_entry
  entries_left h = ground (arith, m.1 e be, e-ne-i)

  entries_new : (h : ℕ) → entries t' h i ≡ entries t h e
  entries_new h = let g : t'.slots i ≡ t.slots e = ground (arith, m.1 i bi) in rw g refl

  entries_rest : (h j : ℕ) → j < t.maxslots → j ≢ e → j ≢ i → entries t' h j ≡ entries t h j
  unfolding is_entry
  entries_rest h j b n n' = elim (Bool-cases (is_head (t.slots j).count)) [
    | inl head ↦ let (c, g, _) = at_place j b head in ground (arith, c, g, n)
    | inr other ↦ elim (Bool-cases (is_head (t'.slots j).count)) [
      | inl head ↦
          let (x, _, h', w) = from_place j (omega (arith, b, m.0)) head in
          let same : x ≡ j = ground (arith, w, n') in
          absurd (cc (ap (λ k. is_head (t.slots k).count) same))
      | inr other' ↦ rw (other, other') (ground arith)
    ]
  ]

  pub moved_tally : (h : ℕ) → tally (entries t' h) t'.maxslots ≡ tally (entries t h) t.maxslots
  moved_tally h =
      ap (tally (entries t' h)) m.0
      ∙ tally_swap (entries t h) (entries t' h) e i t.maxslots be bi e-ne-i (entries_empty h)
          (entries_left h) (entries_new h) (entries_rest h)

  module _ (murmur : List ℕ → ℕ) (md5 : List ℕ → List ℕ) where
    found_moved :
        (key : List ℕ) (h x : ℕ)
        → IsFound murmur md5 t key h x
        → IsFound murmur md5 t' key h (place e i x)
    found_moved key h x (b, en, k) =
        let (head, hash) = is_entry-is_head (t.slots x) h en in
        let (c, g, contents) = at_place x b head in
        (
          place_lt x b,
          is_head-is_entry (t'.slots (place e i x)) h (ap is_head c ∙ head) (g ∙ hash),
          same_key_contents murmur md5 (t.slots x) (t'.slots (place e i x)) key contents ∙ k,
        )

    moved_found :
        (key : List ℕ) (h j : ℕ)
        → IsFound murmur md5 t' key h j
        → (x : ℕ) × IsFound murmur md5 t key h x × (j ≡ place e i x)
    moved_found key h j (b, en, k) =
        let (head, hash) = is_entry-is_head (t'.slots j) h en in
        let (x, b', head', w) = from_place j b head in
        let (c, g, contents) = at_place x b' head' in
        let hash' : (t.slots x).hash ≡ h = sym g ∙ ap (λ q. (t'.slots q).hash) (sym w) ∙ hash in
        let k' : same_key murmur md5 (t.slots x) key ≡ true =
          sym (same_key_contents murmur md5 (t.slots x) (t'.slots (place e i x)) key contents)
          ∙ ap (λ q. same_key murmur md5 (t'.slots q) key) (sym w)
          ∙ k in
        (x, (b', is_head-is_entry (t.slots x) h head' hash', k'), w)

    pub moved-Shows : (key : List ℕ) (h : ℕ) → Shows murmur md5 t t' key h
    moved-Shows key h = record {
      there = λ x f. (
        place e i x,
        found_moved key h x f,
        get_data_moved t own pos l e i be ue bi zi t' m x f.0
            (is_head-ne-zero (t.slots x).count (is_entry-is_head (t.slots x) h f.1).0),
      );
      back = λ j f. let (x, f', _) = moved_found key h j f in (x, f');
    }

    moved_lead :
        (h : ℕ)
        → h < t.maxslots
        → is_leading (t.slots e).count ≡ false
        → is_leading (t.slots h).count ≡ true
        → (t'.slots h).count ≡ (t.slots h).count
    moved_lead h b n lead = ground (arith, at_place h b)

    moved_self :
        (j : ℕ)
        → j < t'.maxslots
        → is_leading (t.slots e).count ≡ false
        → is_leading (t'.slots j).count ≡ true
        → (j < t.maxslots)
          × (is_leading (t.slots j).count ≡ true)
          × ((t'.slots j).hash ≡ (t.slots j).hash)
    moved_self j b n lead =
        let (x, b', head, w) = from_place j b (ground (arith, lead)) in
        let (c, g, _) = at_place x b' head in
        let lead' : is_leading (t.slots x).count ≡ true =
          ap is_leading (sym c ∙ ap (λ q. (t'.slots q).count) (sym w)) ∙ lead in
        let away : x ≢ e = λ v. cc (ap (λ q. is_leading (t.slots q).count) v) in
        let same : j ≡ x = ground (arith, w, away) in
        rw same (b', lead', ap (λ q. (t'.slots q).hash) (sym same ∙ w) ∙ g)

    pub moved-CountedBut :
        (but : ℕ)
        → is_leading (t.slots e).count ≡ false
        → CountedBut murmur md5 t but
        → CountedBut murmur md5 t' but
    moved-CountedBut but n cb = record {
      group = λ h b v. elim (cb.group h (omega (arith, b, m.0)) v) [
        | inl z ↦ inl (moved_tally h ∙ z)
        | inr (lead, count) ↦
            let c = moved_lead h (omega (arith, b, m.0)) n lead in
            inr (rw c lead, c ∙ count ∙ sym (moved_tally h))
      ];
      self = λ j b lead. let (b', lead', g) = moved_self j b n lead in g ∙ cb.self j b' lead';
      in_range = λ j b head.
          let (x, b', head', w) = from_place j b head in
          let (_, g, _) = at_place x b' head' in
          rw (w, g) (omega (arith, m.0, cb.in_range x b' head'));
      unique = λ key h j j' f f'.
          let (x, g, w) = moved_found key h j f in
          let (x', g', w') = moved_found key h j' f' in
          w ∙ ap (place e i) (cb.unique key h x x' g g') ∙ sym w';
    }
