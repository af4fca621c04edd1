-- ===== src/Table/Moved.antt =====
-- A slot of shmutil/qhasharr.c that moves to another place, as in `qhasharr_put` and
-- `qhasharr_remove`.
use shmutil.Base.{
  ℕ, suc, ◌<◌, ◌≡◌, ◌≢◌, ◌⊎◌, inl, inr, refl, ap, ◌∙◌, Bool-cases, true, false, ◌&&◌, ◌==◌,
  if◌then◌else◌, arith,
}
use shmutil.Atomic.{minus_one}
use shmutil.Table.{Slot, Table, set_slot, copy_slot, remove_slot, is_leading, extended}
use shmutil.Table.Update.{move_away}
use shmutil.Table.Linked.{is_head, Linked}
use shmutil.Table.Freed.{freed}

-- slot `j` after slot `e` moved to slot `i`: the slots before and after it in its chain follow
abbrev pub moved_slot : Table → ℕ → ℕ → ℕ → Slot
moved_slot t e i j =
    if j == i
    then t.slots e
    else if j == e
    then freed (t.slots e)
    else if j == (t.slots e).link
    then record (t.slots j) { hash = i }
    else if (t.slots e).count == extended && j == (t.slots e).hash
    then record (t.slots j) { link = i }
    else t.slots j

pub moved_slot-left : (t : Table) (e i : ℕ) → e ≢ i → (moved_slot t e i e).count ≡ 0
moved_slot-left t e i n = ground arith

abbrev pub IsMoved : Table → ℕ → ℕ → Table → Type 0
IsMoved t e i t' =
    (t'.maxslots ≡ t.maxslots) × ((j : ℕ) → j < t.maxslots → t'.slots j ≡ moved_slot t e i j)

-- the new place of a slot
abbrev pub place : ℕ → ℕ → ℕ → ℕ
place e i j = if j == e then i else j

module _ (t : Table) (own pos : ℕ → ℕ) (l : Linked t own pos) (e i : ℕ) (be : e < t.maxslots)
    (ue : (t.slots e).count ≢ 0) (bi : i < t.maxslots) (zi : (t.slots i).count ≡ 0) where
  abbrev pub own_moved : ℕ → ℕ
  own_moved j = place e i (own (if j == i then e else j))

  abbrev pub pos_moved : ℕ → ℕ
  pos_moved j = pos (if j == i then e else j)

  -- the neighbours of the slot are two other slots
  pub neighbours :
      ((t.slots e).link ≢ i)
      × ((t.slots e).link ≢ e)
      × ((t.slots e).count ≡ extended
          → ((t.slots e).hash ≢ i) × ((t.slots e).hash ≢ e) × ((t.slots e).hash ≢ (t.slots e).link))
  neighbours = (
    λ w. ground (arith, l.small, l.links e be ue, w),
    λ w. ground (arith, l.small, l.links e be ue, l.tails e be, w),
    λ x. ground (arith, l.small, l.links e be ue, l.tails e be x, l.tails (t.slots e).link),
  )

  pub move_away-IsMoved : is_leading (t.slots e).count ≡ false → IsMoved t e i (move_away t e i)
  unfolding move_away copy_slot remove_slot set_slot
  move_away-IsMoved h =
      let (n₁, n₂, n₃) = neighbours in
      (ground (arith), λ j b. ground (arith, n₁, n₂, n₃, l.kinds e be ue))

  module _ (t' : Table) (m : IsMoved t e i t') where
    -- what the new place of a slot in use shows
    pub carried :
        (x : ℕ)
        → x < t.maxslots
        → (t.slots x).count ≢ 0
        → ((t'.slots (place e i x)).count ≡ (t.slots x).count)
          × ((t'.slots (place e i x)).size ≡ (t.slots x).size)
          × ((t'.slots (place e i x)).contents ≡ (t.slots x).contents)
          × ((t'.slots (place e i x)).link ≡ place e i (t.slots x).link)
          × ((t'.slots (place e i x)).hash ≡ (
              if (t.slots x).count == extended
              then place e i (t.slots x).hash
              else (t.slots x).hash))
    carried x b u =
        let (n₁, n₂, n₃) = neighbours in
        ground (
          arith,
          m.1 (place e i x),
          n₁,
          n₂,
          n₃,
          l.links x b u,
          l.links e be ue,
          l.tails x b,
          l.tails e be,
          l.small,
        )

    -- each slot in use is the new place of one
    pub came :
        (j : ℕ)
        → j < t.maxslots
        → (t'.slots j).count ≢ 0
        → (x : ℕ) × (x < t.maxslots) × ((t.slots x).count ≢ 0) × (j ≡ place e i x)
    came j b u = elim (Bool-cases (j == i)) [
      | inl new ↦ (e, be, ue, ground (arith, new))
      | inr old ↦ (j, b, ground (arith, m.1 j b, old), ground (arith, m.1 j b, old))
    ]

    -- The ghost values move with the slots.
    moved_ghost :
        (x : ℕ)
        → (t.slots x).count ≢ 0
        → (own_moved (place e i x) ≡ place e i (own x)) × (pos_moved (place e i x) ≡ pos x)
    moved_ghost x u = elim (Bool-cases (x == e)) [
      | inl same ↦ let w : x ≡ e = ground (arith, same) in rw w (ground arith)
      | inr other ↦ elim (Bool-cases (x == i)) [
        | inl at_i ↦
            absurd (let w : x ≡ i = ground (arith, at_i) in u (ap (λ k. (t.slots k).count) w ∙ zi))
        | inr away ↦ ground (arith, other, away)
      ]
    ]

    place-lt : (x : ℕ) → x < t.maxslots → place e i x < t'.maxslots
    place-lt x b = omega (arith, m.0, placed x b)
      where
        placed : (x : ℕ) → x < t.maxslots → place e i x < t.maxslots
        placed x b = ground arith

    module _ (x : ℕ) (b : x < t.maxslots) (u : (t.slots x).count ≢ 0) where
      moved_owner :
          (own_moved (place e i x) < t'.maxslots)
          × (is_head (t'.slots (own_moved (place e i x))).count ≡ true)
      moved_owner =
          let (g, _) = moved_ghost x u in
          let (bo, ho) = l.owner x b u in
          let c = (carried (own x) bo (ground (arith, ho))).0 in rw (g, c) (place-lt (own x) bo, ho)

      moved_head :
          is_head (t'.slots (place e i x)).count ≡ true
          → (own_moved (place e i x) ≡ place e i x) × (pos_moved (place e i x) ≡ 0)
      moved_head h =
          let (g, p) = moved_ghost x u in
          let c = (carried x b u).0 in
          let (o, z) = l.heads x b (rw c at h) in rw (g, p) (ap (place e i) o, z)

      moved_tail :
          (t'.slots (place e i x)).count ≡ extended
          → ((t'.slots (place e i x)).hash < t'.maxslots)
            × ((t'.slots (t'.slots (place e i x)).hash).count ≢ 0)
            × ((t'.slots (t'.slots (place e i x)).hash).link ≡ place e i x)
            × (own_moved (t'.slots (place e i x)).hash ≡ own_moved (place e i x))
            × (pos_moved (place e i x) ≡ suc (pos_moved (t'.slots (place e i x)).hash))
      moved_tail ext =
          let (c, _, _, _, hash) = carried x b u in
          let ext' : (t.slots x).count ≡ extended = rw c at ext in
          let (bh, uh, lh, oh, ph) = l.tails x b ext' in
          let y = (t.slots x).hash in
          let hash' : (t'.slots (place e i x)).hash ≡ place e i y = ground (arith, hash, ext') in
          let (cy, _, _, ly, _) = carried y bh uh in
          let (g, p) = moved_ghost x u in
          let (gy, py) = moved_ghost y uh in
          (
            rw hash' (place-lt y bh),
            rw (hash', cy) uh,
            rw (hash', ly, lh) refl,
            rw (hash', g, gy, oh) refl,
            rw (hash', p, py) ph,
          )

      moved_link :
          ((t'.slots (place e i x)).link ≡ minus_one)
          ⊎ (((t'.slots (place e i x)).link < t'.maxslots)
              × ((t'.slots (t'.slots (place e i x)).link).count ≡ extended)
              × ((t'.slots (t'.slots (place e i x)).link).hash ≡ place e i x))
      moved_link =
          let (c, _, _, link, _) = carried x b u in
          elim (l.links x b u) [
            | inl last ↦ inl (ground (arith, link, last, l.small))
            | inr (bl, cl, hl) ↦
                let y = (t.slots x).link in
                let (cy, _, _, _, hy) = carried y bl (ground (arith, cl)) in
                let hy' : (t'.slots (place e i y)).hash ≡ place e i x =
                  ground (arith, hy, cl, hl) in
                inr (rw link (place-lt y bl), rw (link, cy) cl, rw link hy')
          ]

    by_place :
        (P : ℕ → Type 0)
        → ((x : ℕ) → x < t.maxslots → (t.slots x).count ≢ 0 → P (place e i x))
        → (j : ℕ) → j < t'.maxslots
        → (t'.slots j).count ≢ 0
        → P j
    by_place P h j b u = let (x, b', u', w) = came j (omega (arith, b, m.0)) u in rw w (h x b' u')

    moved_kind :
        (x : ℕ)
        → x < t.maxslots
        → (t.slots x).count ≢ 0
        → (is_head (t'.slots (place e i x)).count ≡ true)
          ⊎ ((t'.slots (place e i x)).count ≡ extended)
    moved_kind x b u = rw (carried x b u).0 (l.kinds x b u)

    pub moved-Linked : Linked t' own_moved pos_moved
    moved-Linked = record {
      small = omega (arith, m.0, l.small);
      kinds =
          by_place (λ j. (is_head (t'.slots j).count ≡ true) ⊎ ((t'.slots j).count ≡ extended))
            moved_kind;
      owner =
          by_place
            (λ j. (own_moved j < t'.maxslots) × (is_head (t'.slots (own_moved j)).count ≡ true))
            moved_owner;
      heads = λ j b h.
          by_place (λ j. is_head (t'.slots j).count ≡ true → (own_moved j ≡ j) × (pos_moved j ≡ 0))
            moved_head j b (ground (arith, h)) h;
      tails = λ j b ext.
          by_place
            (λ j.
              (t'.slots j).count ≡ extended
              → ((t'.slots j).hash < t'.maxslots)
                × ((t'.slots (t'.slots j).hash).count ≢ 0)
                × ((t'.slots (t'.slots j).hash).link ≡ j)
                × (own_moved (t'.slots j).hash ≡ own_moved j)
                × (pos_moved j ≡ suc (pos_moved (t'.slots j).hash)))
            moved_tail j b (ground (arith, ext)) ext;
      links =
          by_place
            (λ j.
              ((t'.slots j).link ≡ minus_one)
              ⊎ (((t'.slots j).link < t'.maxslots)
                  × ((t'.slots (t'.slots j).link).count ≡ extended)
                  × ((t'.slots (t'.slots j).link).hash ≡ j)))
            moved_link;
    }
