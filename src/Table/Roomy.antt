-- ===== src/Table/Roomy.antt =====
-- `_put_data` of shmutil/qhasharr.c succeeds where enough slots are empty.
use shmutil.Base.{
  ℕ, zero, suc, ◌+◌, ◌-◌, ◌*◌, ◌≤◌, ◌<◌, ◌≡◌, ◌≢◌, refl, sym, ap, ◌∙◌, inl, inr, Bool, true, dec_lt,
  ltb, if◌then◌else◌, List, [], ◌∷◌, Option-cases, none, length, arith,
}
use shmutil.Table.{Slot, Table, extended, find_empty}
use shmutil.Table.Store.{extend, copysize, store_part, store_value, put_data}
use shmutil.Table.Search.{find_empty-some, find_empty-none}
use shmutil.Table.Tally.{tally, tally_strict}
use shmutil.Table.Linked.{is_head, Linked}
use shmutil.Table.Counters.{is_used, is_used-true, slots_with}
use shmutil.Table.Counting.{
  round-slots_with, round_slot, round-maxslots, extend_slot, first-slots_with, first_slot,
  first-maxslots, entered, entered_count, count_used,
}
use shmutil.Table.Grown.{store_value_more, store_value_out}
use shmutil.Table.Stored.{store_value_done}
use shmutil.Table.Added.{put_data-start}

tally_all : (p : ℕ → Bool) (n : ℕ) → ((j : ℕ) → j < n → p j ≡ true) → tally p n ≡ n
tally_all p zero a = refl
tally_all p (suc n) a = ground (arith, a n, tally_all p n (λ j b. a j (omega arith)))

-- Without an empty slot all of them are in use.
pub find_empty-full :
    (t : Table) (start : ℕ) → find_empty t start ≡ none → slots_with is_used t ≡ t.maxslots
find_empty-full t start e =
    tally_all (λ j. is_used (t.slots j).count) t.maxslots
      (λ j b. is_used-true (t.slots j).count (find_empty-none t start j e b))

-- With an empty slot not all of them are.
some_empty :
    (t : Table) (m : ℕ) → m < t.maxslots → (t.slots m).count ≡ 0 → slots_with is_used t < t.maxslots
some_empty t m b z = omega (
  arith,
  tally_strict (λ j. is_used (t.slots j).count) (λ j. true) m t.maxslots b (λ j bj e. refl)
      (ap is_used z) refl,
  tally_all (λ j. true) t.maxslots (λ j bj. refl),
)

copysize-first :
    (s : Slot) (left : ℕ)
    → s.count ≢ extended
    → copysize s left ≡ (if ltb 128 left then 128 else left)
copysize-first s left e = ground (arith, e)

copysize-more :
    (s : Slot) (left : ℕ)
    → s.count ≡ extended
    → copysize s left ≡ (if ltb 242 left then 242 else left)
copysize-more s left e = ground (arith, e)

-- The loop gives true where the rest of the value fits into the empty slots.
store_value-true :
    (rounds idx : ℕ) (t : Table) (value : List ℕ) (n save : ℕ)
    → n < t.maxslots
    → (t.slots n).count ≢ 0
    → 0 < save
    → slots_with is_used t ≤ t.maxslots
    → length value ≤ save + 242 * (t.maxslots - slots_with is_used t)
    → (store_value rounds t idx value n save).0 ≡ true
store_value-true zero idx t value n save b u p le fits =
    ap (λ (r : Bool × Table). r.0) (store_value_out t idx value n save)
store_value-true (suc rounds) idx t value n save b u p le fits = elim (dec_lt save (length value)) [
  | no full ↦
      ap (λ (r : Bool × Table). r.0)
        (store_value_done (suc rounds) t idx value n save (omega (arith, full)))
  | yes more ↦ elim (Option-cases (find_empty t (n + 1))) [
    | inl e ↦ absurd (omega (arith, more, fits, find_empty-full t (n + 1) e))
    | inr (m, e) ↦
        let (bm, zm) = find_empty-some t (n + 1) m e in
        let t' = store_part (extend t n m) m value save in
        let used = round-slots_with t n m u bm zm value save in
        let max = round-maxslots t n m u bm zm value save in
        let kind = round_slot t n m u bm zm value save in
        let size =
          copysize-more ((extend t n m).slots m) (length value - save)
            (extend_slot t n m u bm zm) in
        let empty_left : slots_with is_used t < t.maxslots = some_empty t m bm zm in
        ap (λ (r : Bool × Table). r.0) (store_value_more rounds t idx value n save m p more e)
        ∙ store_value-true rounds idx t' value m
            (save + copysize ((extend t n m).slots m) (length value - save))
            (omega (arith, max, bm)) (λ w. ground (arith, kind, w)) (omega arith)
            (omega (arith, used, max, empty_left))
            (rw size (ground (arith, used, max, empty_left, fits, more)))
  ]
]

module _ (md5 : List ℕ → List ℕ) where
  -- The first slot takes 128 bytes of the value and each other one 242.
  pub put_data-true :
      (t : Table) (own pos : ℕ → ℕ) (l : Linked t own pos) (idx hash count : ℕ) (key value : List ℕ)
      → idx < t.maxslots
      → (t.slots idx).count ≡ 0
      → is_head count ≡ true
      → 0 < length value
      → length value ≤ 128 + 242 * (t.maxslots - slots_with is_used t - 1)
      → (put_data md5 t idx hash key value count).0 ≡ true
  put_data-true t own pos l idx hash count key [] b z hc p fits = absurd (omega arith)
  put_data-true t own pos l idx hash count key (x ∷ xs) b z hc p fits =
      let murmur : List ℕ → ℕ = λ k. 0 in
      let t₁ = entered md5 t idx key hash count b z hc in
      let t₂ = store_part t₁ idx (x ∷ xs) 0 in
      let start = put_data-start murmur md5 t own pos l idx hash count key x xs b z hc in
      let used = first-slots_with md5 t idx key hash count b z hc (x ∷ xs) 0 in
      let max = first-maxslots md5 t idx key hash count b z hc (x ∷ xs) 0 in
      let kind = first_slot md5 t idx key hash count b z hc (x ∷ xs) 0 in
      let (is, other) = count_used md5 t idx key hash count b z hc in
      let size =
        copysize-first (t₁.slots idx) (suc (length xs))
          (λ w. other (sym (entered_count md5 t idx key hash count b z hc) ∙ w)) in
      ap (λ (r : Bool × Table). r.0) start
      ∙ store_value-true (length xs) idx t₂ (x ∷ xs) idx (copysize (t₁.slots idx) (suc (length xs)))
          (omega (arith, max, b)) (λ w. ground (arith, kind, w, is)) (rw size (ground arith))
          (omega (arith, used, max, some_empty t idx b z))
          (rw size (ground (arith, used, max, some_empty t idx b z, fits)))
