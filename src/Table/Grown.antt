-- ===== src/Table/Grown.antt =====
-- What `_put_data` of shmutil/qhasharr.c does to the links of the table, with success or not.
use shmutil.Base.{
  ℕ, zero, suc, ◌+◌, ◌-◌, ◌<◌, ◌≡◌, ◌≢◌, ◌⊎◌, inl, inr, refl, ap, ◌∙◌, Bool, true, false, dec_lt,
  List, Option-cases, none, some, ◌==◌, if◌then◌else◌, length, arith,
}
use shmutil.Atomic.{minus_one}
use shmutil.Memory.{memcpy}
use shmutil.Table.{
  Slot, Table, incr, extended, set_slot, set_errno, find_empty, remove_data, enobufs,
}
use shmutil.Table.Store.{pointer, extend, copysize, store_part, store_value}
use shmutil.Table.Search.{find_empty-some}
use shmutil.Table.Stored.{store_value_done}
use shmutil.Table.Counters.{IsCounting}
use shmutil.Table.Counting.{round-IsCounting}
use shmutil.Table.Linked.{Linked}
use shmutil.Table.Linking.{alike-Linked, extend-Linked, own_more, pos_more}

-- The counters of the table and `errno` do not matter for the links.
pub counters-Linked :
    (t : Table) (own pos : ℕ → ℕ) (used num errno : ℕ)
    → Linked t own pos
    → Linked (record t { usedslots = used; num = num; errno = errno }) own pos
counters-Linked t own pos used num errno l = record {
  small = l.small;
  kinds = l.kinds;
  owner = l.owner;
  heads = l.heads;
  tails = l.tails;
  links = l.links;
}

-- A piece of the value in a slot does not matter for the links.
pub store_part-Linked :
    (t : Table) (own pos : ℕ → ℕ)
    → Linked t own pos
    → (n : ℕ) (value : List ℕ) (save : ℕ) → Linked (store_part t n value save) own pos
unfolding store_part
store_part-Linked t own pos l n value save =
    let s : Slot = record (t.slots n) {
      contents =
          memcpy (t.slots n).contents 0 (pointer value) save
            (copysize (t.slots n) (length value - save));
      size = copysize (t.slots n) (length value - save);
    } in
    let t' = set_slot t n s in
    let num : ℕ = if (t.slots n).count == extended then t.num else incr t.num in
    let l' = alike-Linked t own pos l n s (refl, refl, inl refl) in
    counters-Linked t' own pos (incr t.usedslots) num t'.errno l'

-- From `t` to `t'` the entry in slot `idx` got new slots, and nothing else changed.
pub record Grown (idx : ℕ) (t t' : Table) (own own' : ℕ → ℕ) : Type 0 where
  pub same_size : t'.maxslots ≡ t.maxslots
  pub old :
      (j : ℕ)
      → j < t.maxslots
      → (t.slots j).count ≢ 0
      → ((t'.slots j).count ≡ (t.slots j).count)
        × ((t'.slots j).hash ≡ (t.slots j).hash)
        × (own' j ≡ own j)
  pub other :
      (j : ℕ) → j < t.maxslots → (t.slots j).count ≢ 0 → own j ≢ idx → t'.slots j ≡ t.slots j
  pub new :
      (j : ℕ)
      → j < t.maxslots
      → (t'.slots j).count ≢ 0
      → ((t.slots j).count ≢ 0) ⊎ ((own' j ≡ idx) × ((t'.slots j).count ≡ extended))

Grown-refl : (idx : ℕ) (t : Table) (own : ℕ → ℕ) → Grown idx t t own own
Grown-refl idx t own = record {
  same_size = refl;
  old = λ j b u. (refl, refl, refl);
  other = λ j b u o. refl;
  new = λ j b u. inl u;
}

pub Grown-trans :
    (idx : ℕ) (t t' t'' : Table) (own own' own'' : ℕ → ℕ)
    → Grown idx t t' own own'
    → Grown idx t' t'' own' own''
    → Grown idx t t'' own own''
Grown-trans idx t t' t'' own own' own'' g h = record {
  same_size = h.same_size ∙ g.same_size;
  old = λ j b u. ground (arith, g.same_size, g.old j b u, h.old j);
  other = λ j b u o. ground (arith, g.same_size, g.old j b u, g.other j b u o, h.other j);
  new = λ j b u. ground (arith, g.same_size, h.new j, g.new j b, h.old j);
}

module _ (idx : ℕ) (t : Table) (own pos : ℕ → ℕ) (l : Linked t own pos) (n m : ℕ) (value : List ℕ)
    (save : ℕ) (bn : n < t.maxslots) (un : (t.slots n).count ≢ 0)
    (en : (t.slots n).link ≡ minus_one) (on : own n ≡ idx) (bm : m < t.maxslots)
    (zm : (t.slots m).count ≡ 0) where
  abbrev t₁ : Table
  t₁ = extend t n m

  abbrev t₂ : Table
  t₂ = store_part t₁ m value save

  round-Linked : Linked t₂ (own_more t own pos l n m) (pos_more t own pos l n m)
  round-Linked =
      store_part-Linked t₁ (own_more t own pos l n m) (pos_more t own pos l n m)
        (extend-Linked t own pos l n m bn un en bm zm) m value save

  round-Grown : Grown idx t t₂ own (own_more t own pos l n m)
  unfolding store_part extend set_slot
  round-Grown = record {
    same_size = refl;
    old = λ j b u. ground arith;
    other = λ j b u o. ground arith;
    new = λ j b u. ground arith;
  }

  round_last : ((t₂.slots m).count ≢ 0) × ((t₂.slots m).link ≡ minus_one)
  unfolding store_part extend set_slot
  round_last = ground arith

-- The loop of `_put_data`: the entry grows, and where there is no room for the rest all of it goes.
abbrev pub IsStored : ℕ → Table → (ℕ → ℕ) → Bool × Table → Type 0
IsStored idx t own r =
    (g : Table) × (own' : ℕ → ℕ) × (pos' : ℕ → ℕ) × Linked g own' pos'
    × Grown idx t g own own'
    × (IsCounting t 0 0 → IsCounting g 0 0)
    × (((r.0 ≡ true) × (r.1 ≡ g))
        ⊎ ((r.0 ≡ false) × (r.1 ≡ set_errno enobufs (remove_data g idx).1)))

full-IsStored :
    (idx : ℕ) (t : Table) (own pos : ℕ → ℕ) (l : Linked t own pos) (r : Bool × Table)
    → r ≡ (true, t)
    → IsStored idx t own r
full-IsStored idx t own pos l r e = (
  t,
  own,
  pos,
  l,
  Grown-refl idx t own,
  λ c. c,
  inl (ap (λ (q : Bool × Table). q.0) e, ap (λ (q : Bool × Table). q.1) e),
)

pub store_value_stuck :
    (rounds : ℕ) (t : Table) (idx : ℕ) (value : List ℕ) (n save : ℕ)
    → 0 < save
    → save < length value
    → find_empty t (n + 1) ≡ none
    → store_value (suc rounds) t idx value n save ≡ (false, set_errno enobufs (remove_data t idx).1)
unfolding store_value
store_value_stuck rounds t idx value n save p h e = ground (arith, e)

pub store_value_more :
    (rounds : ℕ) (t : Table) (idx : ℕ) (value : List ℕ) (n save m : ℕ)
    → 0 < save
    → save < length value
    → find_empty t (n + 1) ≡ some m
    → store_value (suc rounds) t idx value n save
      ≡ store_value rounds
          (store_part (extend t n m) m value save)
          idx
          value
          m
          (save + copysize ((extend t n m).slots m) (length value - save))
unfolding store_value
store_value_more rounds t idx value n save m p h e = ground (arith, e)

pub store_value_out :
    (t : Table) (idx : ℕ) (value : List ℕ) (n save : ℕ)
    → store_value zero t idx value n save ≡ (true, t)
unfolding store_value
store_value_out t idx value n save = refl

pub store_value-IsStored :
    (rounds : ℕ) (idx : ℕ) (t : Table) (own pos : ℕ → ℕ) (l : Linked t own pos) (value : List ℕ)
    (n save : ℕ)
    → n < t.maxslots
    → (t.slots n).count ≢ 0
    → (t.slots n).link ≡ minus_one
    → own n ≡ idx
    → 0 < save
    → IsStored idx t own (store_value rounds t idx value n save)
store_value-IsStored zero idx t own pos l value n save bn un en on p =
    full-IsStored idx t own pos l (store_value zero t idx value n save)
      (store_value_out t idx value n save)
store_value-IsStored (suc rounds) idx t own pos l value n save bn un en on p =
    elim (dec_lt save (length value)) [
      | no full ↦
          full-IsStored idx t own pos l (store_value (suc rounds) t idx value n save)
            (store_value_done (suc rounds) t idx value n save (omega (arith, full)))
      | yes more ↦ elim (Option-cases (find_empty t (n + 1))) [
        | inl none_left ↦
            rw (store_value_stuck rounds t idx value n save p more none_left)
              (t, own, pos, l, Grown-refl idx t own, (λ c. c), inr (refl, refl))
        | inr (m, found) ↦
            let (bm, zm) = find_empty-some t (n + 1) m found in
            let t' = store_part (extend t n m) m value save in
            let l' = round-Linked idx t own pos l n m value save bn un en on bm zm in
            let g = round-Grown idx t own pos l n m value save bn un en on bm zm in
            let (um, em) = round_last idx t own pos l n m value save bn un en on bm zm in
            let o' = own_more t own pos l n m in
            let (h, own', pos', lh, gh, counts, r) =
              store_value-IsStored rounds idx t' o' (pos_more t own pos l n m) l' value m
                (save + copysize ((extend t n m).slots m) (length value - save))
                (omega (arith, g.same_size, bm)) um em (ground (arith, on)) (omega arith) in
            rw (store_value_more rounds t idx value n save m p more found) (
              h,
              own',
              pos',
              lh,
              Grown-trans idx t t' h own o' own' g gh,
              (λ c. counts (round-IsCounting t n m un bm zm value save c)),
              r,
            )
      ]
    ]
