-- ===== src/Table/Recount.antt =====
-- A new count in a slot with a key, in the table of shmutil/qhasharr.c.
use shmutil.Base.{ℕ, ◌≡◌, inr, refl, sym, ◌∙◌, true, List, ◌==◌, if◌then◌else◌, arith}
use shmutil.Table.{Table, set_slot, is_leading}
use shmutil.Table.Lookup.{is_entry, same_key}
use shmutil.Table.Found.{IsFound}
use shmutil.Table.Tally.{tally, tally_ext}
use shmutil.Table.Find.{entries}
use shmutil.Table.Linked.{is_head, is_entry-is_head, Linked, CountedBut}
use shmutil.Table.Linking.{alike-Linked}
use shmutil.Table.Follow.{get_data_kept}
use shmutil.Table.View.{Shows, same_key_contents}

module _ (t : Table) (i c : ℕ) (hi : is_head (t.slots i).count ≡ true) (hc : is_head c ≡ true) where
  abbrev pub recounted : Table
  recounted = set_slot t i (record (t.slots i) { count = c })

  pub recounted-Linked : (own pos : ℕ → ℕ) → Linked t own pos → Linked recounted own pos
  recounted-Linked own pos l =
      alike-Linked t own pos l i (record (t.slots i) { count = c }) (refl, refl, inr (hi, hc))

  pub recounted_slot :
      (j : ℕ)
      → ((recounted.slots j).hash ≡ (t.slots j).hash)
        × ((recounted.slots j).size ≡ (t.slots j).size)
        × ((recounted.slots j).contents ≡ (t.slots j).contents)
        × ((recounted.slots j).link ≡ (t.slots j).link)
        × (is_head (recounted.slots j).count ≡ is_head (t.slots j).count)
        × ((recounted.slots j).count ≡ (if j == i then c else (t.slots j).count))
  unfolding set_slot
  recounted_slot j = ground arith

  recounted_entries : (h j : ℕ) → entries recounted h j ≡ entries t h j
  unfolding is_entry set_slot
  recounted_entries h j = ground arith

  pub recounted-tally :
      (h : ℕ) → tally (entries recounted h) recounted.maxslots ≡ tally (entries t h) t.maxslots
  unfolding set_slot
  recounted-tally h =
      tally_ext (entries recounted h) (entries t h) t.maxslots (λ j b. recounted_entries h j)

  module _ (murmur : List ℕ → ℕ) (md5 : List ℕ → List ℕ) where
    same_contents :
        (key : List ℕ) (j : ℕ)
        → same_key murmur md5 (recounted.slots j) key ≡ same_key murmur md5 (t.slots j) key
    same_contents key j =
        let (_, _, contents, _, _, _) = recounted_slot j in
        same_key_contents murmur md5 (t.slots j) (recounted.slots j) key contents

    recounted_maxslots : recounted.maxslots ≡ t.maxslots
    unfolding set_slot
    recounted_maxslots = refl

    recounted_found :
        (key : List ℕ) (h j : ℕ)
        → IsFound murmur md5 t key h j
        → IsFound murmur md5 recounted key h j
    recounted_found key h j (b, e, k) =
        (omega (arith, b, recounted_maxslots), recounted_entries h j ∙ e, same_contents key j ∙ k)

    found_recounted :
        (key : List ℕ) (h j : ℕ)
        → IsFound murmur md5 recounted key h j
        → IsFound murmur md5 t key h j
    found_recounted key h j (b, e, k) = (
      omega (arith, b, recounted_maxslots),
      sym (recounted_entries h j) ∙ e,
      sym (same_contents key j) ∙ k,
    )

    pub recounted-CountedBut :
        (is_leading c ≡ true → (t.slots i).hash ≡ i)
        → CountedBut murmur md5 t (t.slots i).hash
        → CountedBut murmur md5 recounted (t.slots i).hash
    unfolding set_slot
    recounted-CountedBut lead cb = record {
      group =
          λ h b n. ground (arith, cb.group h b n, recounted-tally h, cb.self h b, recounted_slot h);
      self = λ j b e. ground (arith, cb.self j b, recounted_slot j, lead);
      in_range = λ j b e. ground (arith, cb.in_range j b, recounted_slot j);
      unique = λ key h j j' f f'.
          cb.unique key h j j' (found_recounted key h j f) (found_recounted key h j' f');
    }

    pub recounted-Shows :
        (own pos : ℕ → ℕ)
        → Linked t own pos
        → (key : List ℕ) (h : ℕ) → Shows murmur md5 t recounted key h
    recounted-Shows own pos l key h = record {
      there = λ j f.
          let (b, e, _) = f in
          (
            j,
            recounted_found key h j f,
            get_data_kept t own pos l recounted j recounted_maxslots
                (λ x bx ux ox.
                  let (_, size, contents, link, _, _) = recounted_slot x in (size, contents, link))
                b (is_entry-is_head (t.slots j) h e).0,
          );
      back = λ j f. (j, found_recounted key h j f);
    }
