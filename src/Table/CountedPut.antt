-- ===== src/Table/CountedPut.antt =====
-- The counters of the table of shmutil/qhasharr.c after `_put_data`.
use shmutil.Base.{ℕ, ◌<◌, ◌≡◌, inl, inr, true, List, [], ◌∷◌, length, arith}
use shmutil.Table.{Table}
use shmutil.Table.Store.{put_data}
use shmutil.Table.Linked.{is_head, Linked}
use shmutil.Table.Counters.{IsCounting}
use shmutil.Table.Uncounted.{remove_data-IsCounting}
use shmutil.Table.Counting.{first-IsCounting}
use shmutil.Table.Added.{put_data-start, stored, head_there}

module _ (md5 : List ℕ → List ℕ) where
  -- `_put_data` keeps the counters right, with success or not.
  pub put_data-IsCounting :
      (t : Table) (own pos : ℕ → ℕ) (l : Linked t own pos) (idx hash count : ℕ) (key value : List ℕ)
      → idx < t.maxslots
      → (t.slots idx).count ≡ 0
      → is_head count ≡ true
      → 0 < length value
      → IsCounting t 0 0
      → IsCounting (put_data md5 t idx hash key value count).1 0 0
  put_data-IsCounting t own pos l idx hash count key [] b z hc p n = absurd (omega arith)
  put_data-IsCounting t own pos l idx hash count key (x ∷ xs) b z hc p n =
      let murmur : List ℕ → ℕ = λ k. 0 in
      let (g, own', pos', lg, gr, counts, r) =
        stored murmur md5 t own pos l idx hash count key x xs b z hc in
      let start = put_data-start murmur md5 t own pos l idx hash count key x xs b z hc in
      let ng = counts (first-IsCounting md5 t idx key hash count b z hc (x ∷ xs) 0 n) in
      rw start (elim r [
        | inl (_, same) ↦ rw same ng
        | inr (_, same) ↦
            let (bg, hg) =
              head_there murmur md5 t own pos l idx hash count key x xs b z hc g own' gr in
            rw same (remove_data-IsCounting g own' pos' lg idx bg hg ng)
      ])
