-- ===== src/Table/Added.antt =====
-- What `_put_data` of shmutil/qhasharr.c makes of a linked table: there is one entry more, or where it
-- fails nothing in use changed.
use shmutil.Base.{
  ℕ, suc, ◌<◌, ◌≡◌, ◌≢◌, ◌⊎◌, inl, inr, refl, sym, ap, ◌∙◌, Bool, Bool-cases, true, false, List, [],
  ◌∷◌, ◌==◌, if◌then◌else◌, length, arith,
}
use shmutil.Atomic.{minus_one}
use shmutil.Table.{Slot, Table, set_slot, set_errno, remove_data, enobufs}
use shmutil.Table.Store.{store_key, copysize, store_part, store_value, put_data}
use shmutil.Table.Stored.{copysize_pos}
use shmutil.Table.RoundTrip.{Entry, put_data_lem}
use shmutil.Table.Linked.{is_head, Linked}
use shmutil.Table.Linking.{new-Linked, own_new, pos_new}
use shmutil.Table.Freed.{freed, of_entry, remove_data-IsFreed}
use shmutil.Table.Grown.{store_part-Linked, Grown, IsStored, store_value-IsStored}
use shmutil.Table.Same.{SameUse}

module _ (murmur : List ℕ → ℕ) (md5 : List ℕ → List ℕ) where
  -- From `t` to `t'` there is a new entry in the empty slot `idx`.
  pub record Added (t t' : Table) (idx hash count : ℕ) (key value : List ℕ) : Type 0 where
    pub same_size : t'.maxslots ≡ t.maxslots
    pub in_table : idx < t.maxslots
    pub empty : (t.slots idx).count ≡ 0
    pub entry : Entry murmur md5 t' idx hash count key value
    pub kept : (j : ℕ) → (t.slots j).count ≢ 0 → t'.slots j ≡ t.slots j
    pub fresh :
        (j : ℕ)
        → j < t.maxslots
        → j ≢ idx
        → (t.slots j).count ≡ 0
        → is_head (t'.slots j).count ≡ false

  module _ (t : Table) (own pos : ℕ → ℕ) (l : Linked t own pos) (idx hash count : ℕ) (key : List ℕ)
      (x : ℕ) (xs : List ℕ) (b : idx < t.maxslots) (z : (t.slots idx).count ≡ 0)
      (hc : is_head count ≡ true) where
    abbrev pub s₁ : Slot
    s₁ = store_key md5 (t.slots idx) key hash count

    abbrev pub t₁ : Table
    t₁ = set_slot t idx s₁

    abbrev pub t₂ : Table
    t₂ = store_part t₁ idx (x ∷ xs) 0

    abbrev pub copied : ℕ
    copied = copysize (t₁.slots idx) (suc (length xs))

    pub put_data-start :
        put_data md5 t idx hash key (x ∷ xs) count
        ≡ store_value (length xs) t₂ idx (x ∷ xs) idx copied
    unfolding put_data store_value
    put_data-start = ground (arith, z)

    s₁-count : s₁.count ≡ count
    unfolding store_key
    s₁-count = refl

    s₁-link : s₁.link ≡ minus_one
    unfolding store_key
    s₁-link = refl

    linked₂ : Linked t₂ (own_new t own pos l idx s₁) (pos_new t own pos l idx s₁)
    linked₂ =
        store_part-Linked t₁ (own_new t own pos l idx s₁) (pos_new t own pos l idx s₁)
          (new-Linked t own pos l idx s₁ b z (rw s₁-count hc) s₁-link) idx (x ∷ xs) 0

    t₂_slot :
        (j : ℕ)
        → ((t₂.slots j).count ≡ (if j == idx then count else (t.slots j).count))
          × ((t₂.slots j).link ≡ (if j == idx then minus_one else (t.slots j).link))
          × ((j ≢ idx) → t₂.slots j ≡ t.slots j)
    unfolding store_part set_slot store_key
    t₂_slot j = ground arith

    t₂-maxslots : t₂.maxslots ≡ t.maxslots
    unfolding store_part set_slot
    t₂-maxslots = refl

    head-ne-zero : count ≢ 0
    head-ne-zero w = ground (arith, hc, w)

    pub stored :
        IsStored idx t₂
          (own_new t own pos l idx s₁)
          (store_value (length xs) t₂ idx (x ∷ xs) idx copied)
    stored =
        let (c, k, _) = t₂_slot idx in
        store_value-IsStored (length xs) idx t₂ (own_new t own pos l idx s₁)
          (pos_new t own pos l idx s₁) linked₂ (x ∷ xs) idx copied (omega (arith, b, t₂-maxslots))
          (λ w. ground (arith, c, w, head-ne-zero)) (ground (arith, k)) (ground arith)
          (copysize_pos (t₁.slots idx) (suc (length xs)) (omega arith))

    -- With success there is a new entry, in linked slots.
    added :
        (t' : Table) (own' pos' : ℕ → ℕ)
        → length key < 65536
        → length (md5 key) ≡ 16
        → Grown idx t₂ t' (own_new t own pos l idx s₁) own'
        → put_data md5 t idx hash key (x ∷ xs) count ≡ (true, t')
        → Added t t' idx hash count key (x ∷ xs)
    added t' own' pos' h md g e =
        let (entry, m, same) =
          put_data_lem murmur md5 t idx hash count key (x ∷ xs) t' b l.small head-ne-zero
            (λ w. ground (arith, hc, w)) (omega arith) h md e in
        record {
          same_size = m;
          in_table = b;
          empty = z;
          entry = entry;
          kept = λ j u. same j (λ w. u (ap (λ k. (t.slots k).count) w ∙ z)) u;
          fresh = λ j bj n zj. elim (Bool-cases (is_head (t'.slots j).count)) [
            | inr other ↦ other
            | inl head ↦
                let (c, _, _) = t₂_slot j in
                elim (g.new j (omega (arith, bj, t₂-maxslots)) (λ w. ground (arith, w, head))) [
                  | inl used ↦ absurd (used (ground (arith, c, n, zj)))
                  | inr (_, ext) ↦ absurd (ground (arith, ext, head))
                ]
          ];
        }

    left_over :
        (g : Table) (own' pos' : ℕ → ℕ) (lg : Linked g own' pos') (r : Table)
        → ((j : ℕ)
            → j < g.maxslots
            → r.slots j ≡ (if of_entry g own' pos' lg idx j then freed (g.slots j) else g.slots j))
        → (j : ℕ) → j < g.maxslots
        → (r.slots j).count ≢ 0
        → ((g.slots j).count ≢ 0) × (own' j ≢ idx)
    left_over g own' pos' lg r f j bj u = ground (arith, f j bj)

    -- The first slot of the new entry stays, as one with a key.
    pub head_there :
        (g : Table) (own' : ℕ → ℕ)
        → Grown idx t₂ g (own_new t own pos l idx s₁) own'
        → (idx < g.maxslots) × (is_head (g.slots idx).count ≡ true)
    head_there g own' gr =
        let (c, k, _) = t₂_slot idx in
        let at_idx =
          gr.old idx (omega (arith, b, t₂-maxslots)) (λ w. ground (arith, c, w, head-ne-zero)) in
        (omega (arith, b, t₂-maxslots, gr.same_size), ground (arith, at_idx, c, hc))

    -- Where the new entry goes again, the slots in use are those from before.
    undone :
        (g : Table) (own' pos' : ℕ → ℕ) (lg : Linked g own' pos')
        → Grown idx t₂ g (own_new t own pos l idx s₁) own'
        → SameUse t (set_errno enobufs (remove_data g idx).1)
    undone g own' pos' lg gr =
        let (c, k, _) = t₂_slot idx in
        let at_idx =
          gr.old idx (omega (arith, b, t₂-maxslots)) (λ w. ground (arith, c, w, head-ne-zero)) in
        let (bg, hg) = head_there g own' gr in
        let (m, f) = remove_data-IsFreed g own' pos' lg idx bg hg in
        record {
          same_size = m ∙ gr.same_size ∙ t₂-maxslots;
          there = λ j bj u.
              let n : j ≢ idx = λ w. u (ap (λ k. (t.slots k).count) w ∙ z) in
              let (c, _, same) = t₂_slot j in
              let u₂ : (t₂.slots j).count ≢ 0 =
                λ w. u (ap (λ (q : Slot). q.count) (sym (same n)) ∙ w) in
              let (_, ho) = l.owner j bj u in
              let away : own j ≢ idx = λ w. ground (arith, ho, ap (λ k. (t.slots k).count) w, z) in
              let away₂ : own_new t own pos l idx s₁ j ≢ idx = ground (arith, n, away) in
              let b₂ : j < t₂.maxslots = omega (arith, bj, t₂-maxslots) in
              let (_, _, o) = gr.old j b₂ u₂ in
              let left : of_entry g own' pos' lg idx j ≡ false = ground (arith, o, away₂) in
              f j (omega (arith, b₂, gr.same_size))
              ∙ ground (arith, left)
              ∙ gr.other j b₂ u₂ away₂
              ∙ same n;
          back = λ j bj u w.
              let b₂ : j < t₂.maxslots = omega (arith, bj, t₂-maxslots) in
              let (ug, og) =
                left_over g own' pos' lg (remove_data g idx).1 f j (omega (arith, b₂, gr.same_size))
                  u in
              let (c, _, _) = t₂_slot j in
              elim (gr.new j b₂ ug) [
                | inr (o, _) ↦ og o
                | inl u₂ ↦ elim (Bool-cases (j == idx)) [
                  | inl same ↦
                      let e : j ≡ idx = ground (arith, same) in og (rw e (at_idx.2 ∙ ground arith))
                  | inr n ↦ u₂ (ground (arith, c, n, w))
                ]
              ];
        }

  -- `_put_data` adds the entry and gives true, or it gives false and leaves all slots in use.
  abbrev pub IsPut : Table → ℕ → ℕ → ℕ → List ℕ → List ℕ → Bool × Table → Type 0
  IsPut t idx hash count key value r =
      ((r.0 ≡ true)
        × ((own : ℕ → ℕ) × (pos : ℕ → ℕ) × Linked r.1 own pos)
        × Added t r.1 idx hash count key value)
      ⊎ ((r.0 ≡ false) × SameUse t r.1)

  pub put_data-IsPut :
      (t : Table) (own pos : ℕ → ℕ) (l : Linked t own pos) (idx hash count : ℕ) (key value : List ℕ)
      → idx < t.maxslots
      → (t.slots idx).count ≡ 0
      → is_head count ≡ true
      → 0 < length value
      → length key < 65536
      → length (md5 key) ≡ 16
      → IsPut t idx hash count key value (put_data md5 t idx hash key value count)
  put_data-IsPut t own pos l idx hash count key [] b z hc p h md = absurd (omega arith)
  put_data-IsPut t own pos l idx hash count key (x ∷ xs) b z hc p h md =
      let (g, own', pos', lg, gr, _, r) = stored t own pos l idx hash count key x xs b z hc in
      let start = put_data-start t own pos l idx hash count key x xs b z hc in
      let run = put_data md5 t idx hash key (x ∷ xs) count in
      elim r [
        | inl (done, same) ↦
            let e : run ≡ (true, g) = start ∙ pair done same in
            rw e (
              inl (
                refl,
                (own', pos', lg),
                added t own pos l idx hash count key x xs b z hc g own' pos' h md gr e,
              ))
        | inr (failed, same) ↦
            let e : run ≡ (false, set_errno enobufs (remove_data g idx).1) =
              start ∙ pair failed same in
            rw e (inr (refl, undone t own pos l idx hash count key x xs b z hc g own' pos' lg gr))
      ]
    where
      pair : {r : Bool × Table} {c : Bool} {t' : Table} → r.0 ≡ c → r.1 ≡ t' → r ≡ (c, t')
      pair e e' i = (e i, e' i)
