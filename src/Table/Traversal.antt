-- ===== src/Table/Traversal.antt =====
-- `qhasharr_getnext` of shmutil/qhasharr.c on a well-formed table.
use shmutil.Base.{
  ℕ, zero, suc, ◌+◌, ◌-◌, ◌≤◌, ◌<◌, ◌≡◌, ◌⊎◌, refl, inl, inr, Bool-cases, true, false, ◌||◌, ltb,
  ◌==◌, if◌then◌else◌, List, none, some, ℕ_discrete, dec_lt, arith,
}
use shmutil.Memory.{bytes}
use shmutil.Table.{Table, extended, enoent, keysize, at_key}
use shmutil.Table.Lookup.{keylen, get_data, next_used, getnext}
use shmutil.Table.Linked.{is_head, Linked}
use shmutil.Table.Values.{get_data-some}
use shmutil.Table.Remove.{IsValid}

module _ (t : Table) (own pos : ℕ → ℕ) (l : Linked t own pos) where
  -- The first slot with a key from `idx` on, or the end of the table.
  abbrev IsNextUsed : ℕ → ℕ → Type 0
  IsNextUsed idx j =
      (idx ≤ j)
      × ((j < t.maxslots) → is_head (t.slots j).count ≡ true)
      × ((i : ℕ) → idx ≤ i → i < j → is_head (t.slots i).count ≡ false)

  next_used-IsNextUsed :
      (rounds idx : ℕ) → t.maxslots ≤ rounds + idx → IsNextUsed idx (next_used rounds t idx)
  unfolding next_used
  next_used-IsNextUsed zero idx h =
      (omega arith, λ b. absurd (omega (arith, b, h)), λ i a b. absurd (omega (arith, a, b)))
  next_used-IsNextUsed (suc rounds) idx h =
      elim (Bool-cases ((t.slots idx).count == 0 || (t.slots idx).count == extended)) [
        | inl pass ↦
            let (le, head, skipped) = next_used-IsNextUsed rounds (idx + 1) (omega (arith, h)) in
            let off : is_head (t.slots idx).count ≡ false = ground (arith, pass) in
            rw pass (
              omega (arith, le),
              head,
              λ i a b. elim (ℕ_discrete i idx) [
                | yes e ↦ rw e off
                | no n ↦ skipped i (omega (arith, a, n)) b
              ],
            )
        | inr stop ↦ rw stop (
          omega arith,
          λ b. ground (arith, stop, l.kinds idx b),
          λ i a b. absurd (omega (arith, a, b)),
        )
      ]

abbrev pub shown_key : Table → ℕ → List ℕ
shown_key t j =
    bytes (t.slots j).contents at_key
      (if ltb keysize (keylen (t.slots j)) then keysize else keylen (t.slots j))

getnext-end :
    (t : Table) (start j : ℕ)
    → next_used (t.maxslots - start) t start ≡ j
    → t.maxslots ≤ j
    → ((getnext t start).object ≡ none) × ((getnext t start).errno ≡ enoent)
unfolding getnext
getnext-end t start j e h = rw e (ground (arith, h))

getnext-entry :
    (t : Table) (start j : ℕ) (value : List ℕ)
    → next_used (t.maxslots - start) t start ≡ j
    → j < t.maxslots
    → get_data t j ≡ some value
    → ((getnext t start).object ≡ some (shown_key t j, value)) × ((getnext t start).idx ≡ j + 1)
unfolding getnext
getnext-entry t start j value e h d = rw (e, d) (ground (arith, h, d))

module _ (murmur : List ℕ → ℕ) (md5 : List ℕ → List ℕ) where
  -- On a well-formed table `qhasharr_getnext` gives the first slot from `*idx` on that holds a key, with the value of its entry, and sets `*idx` behind it; it gives NULL with ENOENT exactly where no such slot is left.
  pub getnext_lem :
      (t : Table) (start : ℕ)
      → IsValid murmur md5 t
      → ((j : ℕ) × (start ≤ j)
          × (j < t.maxslots)
          × (is_head (t.slots j).count ≡ true)
          × ((i : ℕ) → start ≤ i → i < j → is_head (t.slots i).count ≡ false)
          × ((value : List ℕ) × (get_data t j ≡ some value)
              × ((getnext t start).object ≡ some (shown_key t j, value))
              × ((getnext t start).idx ≡ j + 1)))
        ⊎ (((i : ℕ) → start ≤ i → i < t.maxslots → is_head (t.slots i).count ≡ false)
            × ((getnext t start).object ≡ none)
            × ((getnext t start).errno ≡ enoent))
  getnext_lem t start (own, pos, l, c) =
      let j = next_used (t.maxslots - start) t start in
      let (le, head, skipped) =
        next_used-IsNextUsed t own pos l (t.maxslots - start) start (omega arith) in
      elim (dec_lt j t.maxslots) [
        | yes b ↦
            let (value, d) = get_data-some t own pos l j b (head b) in
            let (o, i) = getnext-entry t start j value refl b d in
            inl (j, le, b, head b, skipped, (value, d, o, i))
        | no end ↦
            let (o, e) = getnext-end t start j refl (omega (arith, end)) in
            inr ((λ i a b. skipped i a (omega (arith, b, end))), o, e)
      ]
