-- ===== src/Table/Follow.antt =====
-- `_get_data` of shmutil/qhasharr.c on two tables that show the same chain, perhaps in other places.
use shmutil.Base.{
  ℕ, zero, suc, ◌+◌, ◌<◌, ◌≡◌, ◌≢◌, ◌⊎◌, inl, inr, refl, sym, ap, ◌∙◌, true, List, [], ◌++◌,
  Option-cases, arith,
}
use shmutil.Memory.{bytes}
use shmutil.Atomic.{minus_one}
use shmutil.Table.{Table}
use shmutil.Table.Lookup.{chain_size, chain_data, get_data}
use shmutil.Table.Linked.{is_head, Linked}
use shmutil.Table.Moved.{place, IsMoved, carried}

module _ (t t' : Table) (P : ℕ → Type 0) (ren : ℕ → ℕ) where
  -- Slot `x`, which has `P`, shows the same in its new place, and its link leads to a slot with `P`.
  abbrev pub IsSame : ℕ → Type 0
  IsSame x =
      (x ≢ minus_one)
      × (ren x ≢ minus_one)
      × ((t'.slots (ren x)).size ≡ (t.slots x).size)
      × ((t'.slots (ren x)).contents ≡ (t.slots x).contents)
      × ((((t.slots x).link ≡ minus_one) × ((t'.slots (ren x)).link ≡ minus_one))
          ⊎ (((t.slots x).link ≢ minus_one)
              × ((t'.slots (ren x)).link ≢ minus_one)
              × P (t.slots x).link
              × ((t'.slots (ren x)).link ≡ ren (t.slots x).link)))

  module _ (m : t'.maxslots ≡ t.maxslots) (same : (x : ℕ) → P x → IsSame x) where
    chain_size_same :
        (rounds c x v : ℕ) → P x → chain_size rounds c t' (ren x) v ≡ chain_size rounds c t x v
    unfolding chain_size
    chain_size_same zero c x v p = refl
    chain_size_same (suc rounds) c x v p =
        let (_, _, size, _, link) = same x p in
        elim link [
          | inl (last, last') ↦ ground (arith, size, last, last')
          | inr (more, more', p', next) ↦ ground (
            arith,
            m,
            size,
            more,
            more',
            next,
            chain_size_same rounds (c + 1) (t.slots x).link (v + (t.slots x).size) p',
          )
        ]

    chain_data_same :
        (rounds c x v : ℕ) (value : List ℕ)
        → P x
        → chain_data rounds c t' (ren x) v value ≡ chain_data rounds c t x v value
    unfolding chain_data
    chain_data_same zero c x v value p = refl
    chain_data_same (suc rounds) c x v value p =
        let (n, n', size, contents, link) = same x p in
        elim link [
          | inl (last, last') ↦ rw (size, contents, last, last') (ground (arith, n, n'))
          | inr (more, more', p', next) ↦
              let rest =
                chain_data_same rounds (c + 1) (t.slots x).link v
                  (value ++ bytes (t.slots x).contents 0 (t.slots x).size) p' in
              rw (size, contents, next) (ground (arith, m, more, more', n, n', next, rest))
        ]

    pub get_data_same : (x : ℕ) → P x → get_data t' (ren x) ≡ get_data t x
    unfolding get_data
    get_data_same x p = elim (Option-cases (chain_size (t.maxslots + 1) 0 t x 0)) [
      | inl e ↦
          let e' = chain_size_same (t.maxslots + 1) 0 x 0 p ∙ e in rw m (ground (arith, e, e'))
      | inr (v, e) ↦
          let e' = chain_size_same (t.maxslots + 1) 0 x 0 p ∙ e in
          let f = chain_data_same (t.maxslots + 1) 0 x v [] p in rw m (ground (arith, e, e', f))
    ]

-- An entry whose slots are as they were has the value that it had.
pub get_data_kept :
    (t : Table) (own pos : ℕ → ℕ) (l : Linked t own pos) (t' : Table) (i : ℕ)
    → t'.maxslots ≡ t.maxslots
    → ((x : ℕ)
        → x < t.maxslots
        → (t.slots x).count ≢ 0
        → own x ≡ i
        → ((t'.slots x).size ≡ (t.slots x).size)
          × ((t'.slots x).contents ≡ (t.slots x).contents)
          × ((t'.slots x).link ≡ (t.slots x).link))
    → i < t.maxslots
    → is_head (t.slots i).count ≡ true
    → get_data t' i ≡ get_data t i
get_data_kept t own pos l t' i m k b h =
    get_data_same t t' (λ x. (x < t.maxslots) × ((t.slots x).count ≢ 0) × (own x ≡ i)) (λ x. x) m
      (λ x p.
        let (bx, ux, ox) = p in
        let (size, contents, link) = k x bx ux ox in
        (
          omega (arith, l.small, bx),
          omega (arith, l.small, bx),
          size,
          contents,
          elim (l.links x bx ux) [
            | inl last ↦ inl (last, link ∙ last)
            | inr (bl, cl, hl) ↦
                let (_, _, _, ol, _) = l.tails (t.slots x).link bl cl in
                inr (
                  omega (arith, l.small, bl),
                  omega (arith, l.small, bl, link),
                  (bl, ground (arith, cl), sym ol ∙ ap own hl ∙ ox),
                  link,
                )
          ],
        ))
      i (b, ground (arith, h), (l.heads i b h).0)

-- An entry of which a slot moved has its value in the new place.
module _ (t : Table) (own pos : ℕ → ℕ) (l : Linked t own pos) (e i : ℕ) (be : e < t.maxslots)
    (ue : (t.slots e).count ≢ 0) (bi : i < t.maxslots) (zi : (t.slots i).count ≡ 0) (t' : Table)
    (m : IsMoved t e i t') where
  place-ne : (x : ℕ) → x < t.maxslots → place e i x ≢ minus_one
  place-ne x b w = ground (arith, l.small, w)

  pub get_data_moved :
      (x : ℕ) → x < t.maxslots → (t.slots x).count ≢ 0 → get_data t' (place e i x) ≡ get_data t x
  get_data_moved x b u =
      get_data_same t t' (λ x. (x < t.maxslots) × ((t.slots x).count ≢ 0)) (place e i) m.0
        (λ x p.
          let (bx, ux) = p in
          let (_, size, contents, link, _) = carried t own pos l e i be ue bi zi t' m x bx ux in
          (
            omega (arith, l.small, bx),
            place-ne x bx,
            size,
            contents,
            elim (l.links x bx ux) [
              | inl last ↦ inl (last, ground (arith, link, last, l.small))
              | inr (bl, cl, hl) ↦ inr (
                omega (arith, l.small, bl),
                (λ w. place-ne (t.slots x).link bl (sym link ∙ w)),
                (bl, ground (arith, cl)),
                link,
              )
            ],
          ))
        x (b, u)
