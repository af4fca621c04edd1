-- ===== src/Table/Dup.antt =====
-- The search of `qhasharr_remove` in shmutil/qhasharr.c for another entry of a hash.
use shmutil.Base.{ℕ, zero, suc, ◌+◌, ◌≤◌, ◌<◌, ◌≡◌, ◌≢◌, ◌⊎◌, none, some, leb, if◌then◌else◌, arith}
use shmutil.Table.{Table, collision}
use shmutil.Table.Update.{find_dup}

module _ (t : Table) (hash idx : ℕ) (b : idx < t.maxslots) where
  abbrev pub IsDup : ℕ → Type 0
  IsDup k =
      (k < t.maxslots) × (k ≢ idx) × ((t.slots k).count ≡ collision) × ((t.slots k).hash ≡ hash)

  abbrev wrap : ℕ → ℕ
  wrap i = if leb t.maxslots i then 0 else i

  abbrev Ahead : ℕ → ℕ → Type 0
  Ahead a j = ((a ≤ idx) × (a ≤ j) × (j < idx)) ⊎ ((idx < a) × ((a ≤ j) ⊎ (j < idx)))

  abbrev Enough : ℕ → ℕ → Type 0
  Enough a rounds = ((a ≤ idx) × (idx < rounds + a)) ⊎ ((idx < a) × (t.maxslots + idx < rounds + a))

  pub find_dup-some : (rounds idx2 k : ℕ) → find_dup t hash idx rounds idx2 ≡ some k → IsDup k
  unfolding find_dup
  find_dup-some zero idx2 k e = absurd (cc)
  find_dup-some (suc rounds) idx2 k e = ground (arith, find_dup-some rounds (wrap idx2 + 1) k)

  find_dup_from-none :
      (rounds idx2 j : ℕ)
      → Enough (wrap idx2) rounds
      → Ahead (wrap idx2) j
      → IsDup j
      → find_dup t hash idx rounds idx2 ≢ none
  unfolding find_dup
  find_dup_from-none zero idx2 j n a d e = ground arith
  find_dup_from-none (suc rounds) idx2 j n a d e =
      ground (arith, find_dup_from-none rounds (wrap idx2 + 1) j)

  -- Where the search finds nothing there is no other entry.
  pub find_dup-none : (j : ℕ) → find_dup t hash idx (t.maxslots + 1) (idx + 1) ≡ none → ¬ IsDup j
  find_dup-none j e d =
      find_dup_from-none (t.maxslots + 1) (idx + 1) j (ground arith) (ground (arith, d)) d e
