-- ===== src/Table/RemoveLead.antt =====
-- `qhasharr_remove` of shmutil/qhasharr.c for the leading entry of a hash, which another entry replaces.
use shmutil.Base.{
  ℕ, suc, ◌+◌, ◌%◌, ◌<◌, ◌≡◌, ◌≢◌, inl, inr, refl, sym, ap, ◌∙◌, Bool-cases, true, false, List,
  Option-cases, some, ◌==◌, arith,
}
use shmutil.Atomic.{minus_one}
use shmutil.Table.{Slot, Table, set_slot, is_leading, collision, extended, remove_data}
use shmutil.Table.Lookup.{hash_of}
use shmutil.Table.Update.{find_dup, move_to_lead, decr16}
use shmutil.Table.Found.{IsFound}
use shmutil.Table.Tally.{tally, tally_one}
use shmutil.Table.Find.{entries}
use shmutil.Table.Linked.{
  is_head, is_entry-is_head, is_head-is_entry, Linked, Counted, CountedBut, Counted-CountedBut,
  CountedBut-Counted, CountedBut-eq, hash_led,
}
use shmutil.Table.Freed.{of_entry, IsFreed, remove_data-IsFreed}
use shmutil.Table.Linking.{freed-Linked}
use shmutil.Table.Moved.{moved_slot, IsMoved, own_moved, pos_moved, moved-Linked, neighbours}
use shmutil.Table.View.{Shows, Shows-trans, view_same}
use shmutil.Table.Same.{SameUse, same_tally, SameUse-Linked, SameUse-Counted, SameUse-Shows}
use shmutil.Table.Deleted.{
  tally_idx, deleted_tally, deleted-CountedBut, deleted-Shows, deleted_key, head_stays, idx_gone,
}
use shmutil.Table.Recount.{
  recounted, recounted-Linked, recounted-tally, recounted-CountedBut, recounted-Shows,
}
use shmutil.Table.Relocated.{moved_tally, moved-CountedBut, moved-Shows}
use shmutil.Table.Remove.{Keeps, HasFewer, IsAbsent, not_alike}
use shmutil.Table.Dup.{IsDup, find_dup-some, find_dup-none}
use shmutil.Table.LeadSlots.{lead_slots, lead_maxslots}

module _ (murmur : List ℕ → ℕ) (md5 : List ℕ → List ℕ) (t : Table) (own pos : ℕ → ℕ)
    (l : Linked t own pos) (c : Counted murmur md5 t) (key : List ℕ) (idx : ℕ)
    (f : IsFound murmur md5 t key (hash_of murmur md5 t key) idx)
    (lead : is_leading (t.slots idx).count ≡ true) (many : (t.slots idx).count ≢ 1) where
  abbrev hash : ℕ
  hash = hash_of murmur md5 t key

  pub lead_head : is_head (t.slots idx).count ≡ true
  lead_head = ground (arith, lead)

  lead_self : (t.slots idx).hash ≡ idx
  lead_self = c.self idx f.0 lead

  hash-idx : hash ≡ idx
  hash-idx = sym (is_entry-is_head (t.slots idx) hash f.1).1 ∙ lead_self

  abbrev others : ℕ
  others = tally (entries t (t.slots idx).hash) t.maxslots

  lead_count : (t.slots idx).count ≡ others
  lead_count =
      let (_, n) =
        hash_led murmur md5 t c (t.slots idx).hash idx (c.in_range idx f.0 lead_head) f.0
          (is_head-is_entry (t.slots idx) (t.slots idx).hash lead_head refl) in
      ap (λ j. (t.slots j).count) (sym lead_self) ∙ n

  -- Where no other entry has the hash, the leading one is the only one.
  alone : ((j : ℕ) → ¬ IsDup t hash idx f.0 j) → (t.slots idx).count ≡ 1
  alone none_left =
      let h = (t.slots idx).hash in
      lead_count
      ∙ tally_one (entries t h) idx t.maxslots f.0 (is_head-is_entry (t.slots idx) h lead_head refl)
          (λ j b n. elim (Bool-cases (entries t h j)) [
            | inr other ↦ other
            | inl entry ↦
                let (head, at_h) = is_entry-is_head (t.slots j) h entry in
                elim (Bool-cases (is_leading (t.slots j).count)) [
                  | inl leads ↦ absurd (n (sym (c.self j b leads) ∙ at_h ∙ lead_self))
                  | inr follows ↦ absurd (
                      none_left j
                        (b, n, ground (arith, head, follows), at_h ∙ lead_self ∙ sym hash-idx))
                ]
          ])

  -- So the search finds another entry.
  pub other_found :
      (k : ℕ) × (find_dup t hash idx (t.maxslots + 1) (idx + 1) ≡ some k) × IsDup t hash idx f.0 k
  other_found = elim (Option-cases (find_dup t hash idx (t.maxslots + 1) (idx + 1))) [
    | inl nothing ↦ absurd (many (alone (λ j. find_dup-none t hash idx f.0 j nothing)))
    | inr (k, e) ↦ (k, e, find_dup-some t hash idx f.0 (t.maxslots + 1) (idx + 1) k e)
  ]

  abbrev pub t₁ : Table
  t₁ = (remove_data t idx).1

  gone : IsFreed t own pos l idx (of_entry t own pos l idx) t₁
  gone = remove_data-IsFreed t own pos l idx f.0 lead_head

  linked₁ : Linked t₁ own pos
  linked₁ = freed-Linked t own pos l idx t₁ gone

  module _ (idx2 : ℕ) (d : IsDup t hash idx f.0 idx2) where
    stays : t₁.slots idx2 ≡ t.slots idx2
    stays =
        let (b, n, coll, _) = d in
        head_stays t own pos l idx f.0 lead_head t₁ gone idx2 b (ground (arith, coll)) n

    pub coll₁ : (t₁.slots idx2).count ≡ collision
    coll₁ = let (_, _, coll, _) = d in ap (λ (q : Slot). q.count) stays ∙ coll

    pub used₁ : (t₁.slots idx2).count ≢ 0
    used₁ z = ground (arith, coll₁, z)

    pub empty₁ : (t₁.slots idx).count ≡ 0
    empty₁ = idx_gone t own pos l idx f.0 lead_head t₁ gone

    pub be : idx2 < t₁.maxslots
    be = omega (arith, gone.0, d.0)

    pub bi : idx < t₁.maxslots
    bi = omega (arith, gone.0, f.0)

    not_lead₁ : is_leading (t₁.slots idx2).count ≡ false
    not_lead₁ = ground (arith, coll₁)

    -- the other entry moves
    abbrev tm : Table
    tm = record t₁ { slots = moved_slot t₁ idx2 idx }

    moved : IsMoved t₁ idx2 idx tm
    moved = (refl, λ j b. refl)

    abbrev own' : ℕ → ℕ
    own' = own_moved t₁ own pos linked₁ idx2 idx be used₁ bi empty₁

    abbrev pos' : ℕ → ℕ
    pos' = pos_moved t₁ own pos linked₁ idx2 idx be used₁ bi empty₁

    linked₂ : Linked tm own' pos'
    linked₂ = moved-Linked t₁ own pos linked₁ idx2 idx be used₁ bi empty₁ tm moved

    abbrev pub less : ℕ
    less = decr16 (t.slots idx).count

    less_one : (is_leading less ≡ true) × (suc less ≡ (t.slots idx).count)
    less_one = ground (arith, lead, many)

    pub less_head : is_head less ≡ true
    less_head = ground (arith, less_one)

    came_slot : tm.slots idx ≡ t.slots idx2
    came_slot = ground (arith, stays)

    came_head : is_head (tm.slots idx).count ≡ true
    came_head = let (_, _, coll, _) = d in ground (arith, came_slot, coll)

    came_hash : (tm.slots idx).hash ≡ idx
    came_hash = let (_, _, _, h) = d in ap (λ (q : Slot). q.hash) came_slot ∙ h ∙ hash-idx

    abbrev tr : Table
    tr = recounted tm idx less came_head less_head

    linked₃ : Linked tr own' pos'
    linked₃ = recounted-Linked tm idx less came_head less_head own' pos' linked₂

    but₁ : CountedBut murmur md5 t₁ (t.slots idx).hash
    but₁ =
        deleted-CountedBut t own pos l idx f.0 lead_head t₁ gone murmur md5
          (Counted-CountedBut murmur md5 t (t.slots idx).hash c)

    but₂ : CountedBut murmur md5 tm (tm.slots idx).hash
    but₂ =
        CountedBut-eq murmur md5 tm (t.slots idx).hash (tm.slots idx).hash
          (lead_self ∙ sym came_hash)
          (moved-CountedBut t₁ own pos linked₁ idx2 idx be used₁ bi empty₁ tm moved murmur md5
            (t.slots idx).hash not_lead₁ but₁)

    but₃ : CountedBut murmur md5 tr idx
    but₃ =
        CountedBut-eq murmur md5 tr (tm.slots idx).hash idx came_hash
          (recounted-CountedBut tm idx less came_head less_head murmur md5 (λ e. came_hash) but₂)

    tally₃ : suc (tally (entries tr idx) tr.maxslots) ≡ (t.slots idx).count
    tally₃ =
        ap suc (
          recounted-tally tm idx less came_head less_head idx
          ∙ moved_tally t₁ own pos linked₁ idx2 idx be used₁ bi empty₁ tm moved idx)
        ∙ ap (λ h. suc (tally (entries t₁ h) t₁.maxslots)) (sym lead_self)
        ∙ sym (tally_idx t own pos l idx f.0 lead_head t₁ gone)
        ∙ sym lead_count

    led_count : (tr.slots idx).count ≡ less
    unfolding set_slot
    led_count = ground arith

    counted₃ : Counted murmur md5 tr
    counted₃ =
        let (is, one) = less_one in
        CountedBut-Counted murmur md5 tr idx but₃
          (inr (rw led_count is, omega (arith, led_count, tally₃, one)))

    result_slot : (j : ℕ) → j ≢ minus_one → (move_to_lead t idx idx2).slots j ≡ tr.slots j
    unfolding move_to_lead set_slot
    result_slot j m =
        let (n₁, n₂, n₃) = neighbours t₁ own pos linked₁ idx2 idx be used₁ bi empty₁ in
        let (_, n, _, _) = d in
        lead_slots t₁ idx idx2 less empty₁ used₁ n n₁ n₂ (ap (λ k. k == extended) coll₁) j m

    abbrev t' : Table
    t' = move_to_lead t idx idx2

    size₁ : t'.maxslots ≡ t₁.maxslots
    unfolding move_to_lead
    size₁ = let (_, n, _, _) = d in lead_maxslots t₁ idx idx2 less empty₁ used₁ n

    size₃ : tr.maxslots ≡ t₁.maxslots
    unfolding set_slot
    size₃ = refl

    same : SameUse tr t'
    same =
        let at = λ (j : ℕ) (b : j < tr.maxslots).
          result_slot j (λ w. omega (arith, w, b, linked₃.small)) in
        record {
          same_size = size₁ ∙ sym size₃;
          there = λ j b u. at j b;
          back = λ j b u z. u (ap (λ (q : Slot). q.count) (at j b) ∙ z);
        }

    counted' : Counted murmur md5 t'
    counted' = SameUse-Counted tr t' same murmur md5 counted₃

    shows : (k : List ℕ) (h : ℕ) → Shows murmur md5 t₁ t' k h
    shows k h =
        Shows-trans murmur md5 t₁ tr t' k h
          (Shows-trans murmur md5 t₁ tm tr k h
            (moved-Shows t₁ own pos linked₁ idx2 idx be used₁ bi empty₁ tm moved murmur md5 k h)
            (recounted-Shows tm idx less came_head less_head murmur md5 own' pos' linked₂ k h))
          (SameUse-Shows tr t' same murmur md5 own' pos' linked₃ k h)

    pub remove_leading : Keeps murmur md5 t t' key × IsAbsent murmur md5 t' key
    remove_leading =
        let size : t'.maxslots ≡ t.maxslots = size₁ ∙ gone.0 in
        let h' : hash_of murmur md5 t' key ≡ hash = ap (λ m. murmur key % m) size in
        (
          (
            (own', pos', SameUse-Linked tr t' same own' pos' linked₃, counted'),
            size,
            λ k n. view_same murmur md5 t t' c counted' k size (
                Shows-trans murmur md5 t t₁ t' k (hash_of murmur md5 t k)
                  (deleted-Shows t own pos l idx f.0 lead_head t₁ gone murmur md5 k
                    (hash_of murmur md5 t k)
                    (not_alike murmur md5 t key k hash (hash_of murmur md5 t k) idx f n))
                  (shows k (hash_of murmur md5 t k))),
          ),
          rw h' (λ i g.
              let (i₁, g₁) = (shows key hash).back i g in
              deleted_key t own pos l idx f.0 lead_head t₁ gone murmur md5 key hash
                (Counted-CountedBut murmur md5 t (t.slots idx).hash c) f i₁ g₁),
        )

    pub leading-HasFewer : HasFewer murmur md5 t t'
    leading-HasFewer h = omega (
      arith,
      deleted_tally t own pos l idx f.0 lead_head t₁ gone h,
      moved_tally t₁ own pos linked₁ idx2 idx be used₁ bi empty₁ tm moved h,
      recounted-tally tm idx less came_head less_head h,
      same_tally tr t' same h,
    )
