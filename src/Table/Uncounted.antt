-- ===== src/Table/Uncounted.antt =====
-- `_remove_data` of shmutil/qhasharr.c takes the slots and the entry off the counters.
use shmutil.Base.{
  ℕ, zero, suc, ◌+◌, ◌≤◌, ◌<◌, ◌≡◌, ◌≢◌, refl, sym, ap, ◌∙◌, inl, inr, Bool-cases, true, ◌==◌,
  arith,
}
use shmutil.Atomic.{minus_one}
use shmutil.Table.{Slot, Table, remove_slot, remove_chain, remove_data, decr}
use shmutil.Table.Tally.{tally, tally_le, tally_more, tally_weaken}
use shmutil.Table.Linked.{is_head, Linked, is_head-ne-zero}
use shmutil.Table.Position.{At, pos-lt-maxslots, next_slot}
use shmutil.Table.Freed.{
  of_entry, gone, IsFreed, step_freed, remove_chain-last, remove_chain-more, remove_data-IsFreed,
}
use shmutil.Table.Counters.{is_used, slots_with, IsCounting, IsWithin, remove_slot-used}

-- the slots in use are counted, and the entries as before
abbrev IsUncounted : Table → Table → Type 0
IsUncounted t t' = (slots_with is_used t' ≡ t'.usedslots) × (t'.num ≡ t.num)

module _ (t₀ : Table) (own pos : ℕ → ℕ) (l : Linked t₀ own pos) (idx : ℕ) where
  remove_chain-IsUncounted :
      (rounds p : ℕ) (t : Table) (x : ℕ)
      → IsFreed t₀ own pos l idx (gone t₀ own pos l idx p) t
      → At t₀ pos p x
      → own x ≡ idx
      → rounds + p ≡ suc t₀.maxslots
      → slots_with is_used t ≡ t.usedslots
      → IsUncounted t (remove_chain rounds p t x)
  remove_chain-IsUncounted zero p t x f (b, u, e) o r c =
      absurd (omega (arith, pos-lt-maxslots t₀ own pos l x b u))
  remove_chain-IsUncounted (suc rounds) p t x f (b, u, e) o r c =
      let (f', link) = step_freed t₀ own pos l idx t p x f (b, u, e) o in
      let t' = (remove_slot t x).1 in
      let same : t.slots x ≡ t₀.slots x = ground (arith, f.1 x b) in
      let ux : (t.slots x).count ≢ 0 = λ w. u (ap (λ (s : Slot). s.count) (sym same) ∙ w) in
      let (c', n) =
        remove_slot-used t x (omega (arith, f.0, l.small)) (omega (arith, f.0, b)) ux c in
      elim (Bool-cases ((t.slots x).link == minus_one)) [
        | inl last ↦ rw (remove_chain-last rounds p t x last) (c', n)
        | inr more ↦
            let (a', o') = next_slot t₀ own pos l x b u (ground (arith, more, link)) in
            let fits = pos-lt-maxslots t₀ own pos l x b u in
            let (c'', n') =
              remove_chain-IsUncounted rounds (suc p) t' (t.slots x).link f' (rw (link, ← e) a')
                (rw link (o' ∙ o)) (omega (arith, r)) c' in
            rw (remove_chain-more rounds p t x more (omega (arith, f.0, fits, e))) (c'', n' ∙ n)
      ]

  -- One slot with a key is empty now.
  freed-slots_with :
      (t : Table)
      → IsFreed t₀ own pos l idx (of_entry t₀ own pos l idx) t
      → idx < t₀.maxslots
      → is_head (t₀.slots idx).count ≡ true
      → slots_with is_head t₀ ≡ suc (slots_with is_head t)
  freed-slots_with t (m, f) b h =
      tally_more (λ j. is_head (t.slots j).count) (λ j. is_head (t₀.slots j).count) idx t₀.maxslots
        b
        (λ j bj n. elim (Bool-cases (is_head (t₀.slots j).count)) [
          | inl head ↦ ground (arith, f j bj, l.heads j bj head)
          | inr other ↦ ground (arith, f j bj, other)
        ])
        (ground (arith, f idx b, l.heads idx b h, is_head-ne-zero (t₀.slots idx).count h)) h
      ∙ ap (λ k. suc (tally (λ j. is_head (t.slots j).count) k)) (sym m)

remove_data-eq :
    (t : Table) (idx : ℕ)
    → (t.slots idx).count ≢ 0
    → (remove_data t idx).1 ≡ record (remove_chain (t.maxslots + 1) 0 t idx) {
      num = decr (remove_chain (t.maxslots + 1) 0 t idx).num;
    }
unfolding remove_data
remove_data-eq t idx u = ground (arith, u)

-- At the first slot of an entry, the counters stay right.
pub remove_data-IsCounting :
    (t : Table) (own pos : ℕ → ℕ) (l : Linked t own pos) (idx : ℕ)
    → idx < t.maxslots
    → is_head (t.slots idx).count ≡ true
    → IsCounting t 0 0
    → IsCounting (remove_data t idx).1 0 0
remove_data-IsCounting t own pos l idx b h (small, used, num) =
    let u = is_head-ne-zero (t.slots idx).count h in
    let (o, z) = l.heads idx b h in
    let start : IsFreed t own pos l idx (gone t own pos l idx 0) t = (refl, λ j bj. ground arith) in
    let f = remove_data-IsFreed t own pos l idx b h in
    let one = freed-slots_with t own pos l idx (remove_data t idx).1 f b h in
    let le = tally_le (λ j. is_head (t.slots j).count) t.maxslots in
    let (used', same) =
      remove_chain-IsUncounted t own pos l idx (t.maxslots + 1) 0 t idx start (b, u, z) o
        (omega arith) (omega (arith, used)) in
    let e = remove_data-eq t idx u in
    (
      omega (arith, f.0, small),
      rw e (omega (arith, used')),
      let n = ap (λ (q : Table). q.num) e in omega (arith, num, n, same, one, le, small),
    )

-- No slot comes into use.
freed-fewer :
    (t : Table) (own pos : ℕ → ℕ) (l : Linked t own pos) (idx : ℕ) (t' : Table)
    → IsFreed t own pos l idx (of_entry t own pos l idx) t'
    → slots_with is_used t' ≤ slots_with is_used t
freed-fewer t own pos l idx t' (m, f) =
    let le : tally (λ j. is_used (t'.slots j).count) t.maxslots ≤ slots_with is_used t =
      tally_weaken (λ j. is_used (t'.slots j).count) (λ j. is_used (t.slots j).count) t.maxslots
        (λ j b e. ground (arith, f j b, e)) in
    omega (arith, le, ap (tally (λ j. is_used (t'.slots j).count)) m)

pub remove_data-IsWithin :
    (t : Table) (own pos : ℕ → ℕ) (l : Linked t own pos) (k idx : ℕ)
    → idx < t.maxslots
    → is_head (t.slots idx).count ≡ true
    → IsWithin t k
    → IsWithin (remove_data t idx).1 k
remove_data-IsWithin t own pos l k idx b h (n, le) =
    let n' = remove_data-IsCounting t own pos l idx b h n in
    (
      n',
      omega (
        arith,
        n',
        n,
        le,
        freed-fewer t own pos l idx (remove_data t idx).1 (remove_data-IsFreed t own pos l idx b h),
      ),
    )
