-- ===== src/Table/Stored.antt =====
-- The loop of `_put_data` of shmutil/qhasharr.c writes a chain with the whole value.
use shmutil.Base.{
  ℕ, zero, suc, ◌+◌, ◌-◌, ◌≤◌, ◌<◌, ◌≡◌, inl, inr, refl, sym, ap, ap₂, ◌∙◌, Bool, true, List, [],
  ◌∷◌, ◌++◌, Option-cases, some, dec_lt, length, arith, take,
}
use shmutil.Table.{Slot, Table, set_slot, find_empty}
use shmutil.Table.Store.{extend, copysize, store_part, store_value}
use shmutil.Table.Search.{find_empty-some}
use shmutil.Table.Chain.{part, text, Chain}
use shmutil.Table.Written.{
  store_part-Chain, text-store_part, extend-Chain, part-store_part, take-append-take, copysize-le,
}

-- what a call of `_put_data` that ends well leaves
abbrev pub Stored : Table → ℕ → List ℕ → Type 0
Stored t idx value = (l : List ℕ) × (n : ℕ) × Chain t idx l n × (text t l ++ part t n ≡ value)

pub copysize_pos : (s : Slot) (left : ℕ) → 0 < left → 0 < copysize s left
copysize_pos s left h = ground arith

store_part-maxslots :
    (t : Table) (n : ℕ) (value : List ℕ) (save : ℕ)
    → (store_part t n value save).maxslots ≡ t.maxslots
unfolding store_part set_slot
store_part-maxslots t n value save = refl

extend-maxslots : (t : Table) (n m : ℕ) → (extend t n m).maxslots ≡ t.maxslots
unfolding extend set_slot
extend-maxslots t n m = refl

take_whole : (n : ℕ) (l : List ℕ) → length l ≤ n → take n l ≡ l
take_whole zero [] h = refl
take_whole zero (x ∷ l) h = absurd (omega arith)
take_whole (suc n) [] h = refl
take_whole (suc n) (x ∷ l) h = ap (λ r. x ∷ r) (take_whole n l (omega arith))

-- one round behind the first
pub store_value_round :
    (rounds : ℕ) (t : Table) (idx : ℕ) (value : List ℕ) (n save : ℕ) (t' : Table)
    → 0 < save
    → save < length value
    → store_value (suc rounds) t idx value n save ≡ (true, t')
    → (m : ℕ) × (find_empty t (n + 1) ≡ some m)
      × (store_value rounds
            (store_part (extend t n m) m value save)
            idx
            value
            m
            (save + copysize ((extend t n m).slots m) (length value - save))
          ≡ (true, t'))
unfolding store_value
store_value_round rounds t idx value n save t' p h e = elim (Option-cases (find_empty t (n + 1))) [
  | inl none_left ↦ absurd (ground (arith, none_left))
  | inr (m, found) ↦ (m, found, ground (arith, found))
]

pub store_value_done :
    (rounds : ℕ) (t : Table) (idx : ℕ) (value : List ℕ) (n save : ℕ)
    → length value ≤ save
    → store_value rounds t idx value n save ≡ (true, t)
unfolding store_value
store_value_done zero t idx value n save h = refl
store_value_done (suc rounds) t idx value n save h = ground arith

-- The piece that a round stores comes behind those before it.
pub text-store_part_whole :
    (t : Table) (idx n : ℕ) (l value : List ℕ) (save : ℕ)
    → Chain t idx l n
    → save ≤ length value
    → text t l ≡ take save value
    → text (store_part t n value save) l ++ part (store_part t n value save) n
      ≡ take (save + copysize (t.slots n) (length value - save)) value
text-store_part_whole t idx n l value save c h w =
    ap₂ ◌++◌ (text-store_part t idx n l value save c ∙ w) (part-store_part t idx n l value save c h)
    ∙ take-append-take save (copysize (t.slots n) (length value - save)) value

Stored-whole :
    (rounds : ℕ) (t : Table) (idx : ℕ) (value : List ℕ) (n save : ℕ) (l : List ℕ) (t' : Table)
    → Chain t idx l n
    → length value ≤ save
    → text t l ++ part t n ≡ take save value
    → store_value rounds t idx value n save ≡ (true, t')
    → Stored t' idx value
Stored-whole rounds t idx value n save l t' c full w e =
    let same : t ≡ t' =
      ap (λ (r : Bool × Table). r.1) (sym (store_value_done rounds t idx value n save full) ∙ e) in
    let r : Stored t idx value = (l, n, c, w ∙ take_whole save value full) in rw same at r

pub store_value-Stored :
    (rounds : ℕ) (t : Table) (idx : ℕ) (value : List ℕ) (n save : ℕ) (l : List ℕ) (t' : Table)
    → Chain t idx l n
    → 0 < save
    → save ≤ length value
    → length value ≤ rounds + save
    → text t l ++ part t n ≡ take save value
    → store_value rounds t idx value n save ≡ (true, t')
    → Stored t' idx value
store_value-Stored zero t idx value n save l t' c p h r w e =
    Stored-whole zero t idx value n save l t' c (omega (arith, r)) w e
store_value-Stored (suc rounds) t idx value n save l t' c p h r w e =
    elim (dec_lt save (length value)) [
      | no full ↦ Stored-whole (suc rounds) t idx value n save l t' c (omega (arith, full)) w e
      | yes more ↦
          let (m, found, rest) = store_value_round rounds t idx value n save t' p more e in
          let (bound, empty) = find_empty-some t (n + 1) m found in
          let (c₁, w₁) = extend-Chain t idx n l m c empty bound in
          let t₁ = extend t n m in
          let l₁ = l ++ (n ∷ []) in
          let c₂ = store_part-Chain t₁ idx m l₁ value save c₁ in
          let w₂ = text-store_part_whole t₁ idx m l₁ value save c₁ h (w₁ ∙ w) in
          let k = copysize (t₁.slots m) (length value - save) in
          let left = length value - save in
          store_value-Stored rounds (store_part t₁ m value save) idx value m (save + k) l₁ t' c₂
            (omega arith) (omega (arith, copysize-le (t₁.slots m) left))
            (omega (arith, copysize_pos (t₁.slots m) left (omega arith), r)) w₂ rest
    ]
