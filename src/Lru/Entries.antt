-- ===== src/Lru/Entries.antt =====
-- The map `keyToIter_` of `SimpleLru` as a list of entries, without two of the same key.
use shmutil.Base.{ℕ, ◌≡◌, ◌≢◌, refl, List, [], ◌∷◌, none, some, arith}
use mathlib.Core.Logic.{ite, if_neg}
use shmutil.Lru.{find, erase_key, assign}

module _ {K : Type 0} where
  -- No entry has this key.
  abbrev pub NoEntry : K → List (K × ℕ) → Type 0
  NoEntry k [] = Unit
  NoEntry k (x ∷ m) = (x.0 ≢ k) × NoEntry k m

  -- no two entries have the same key
  abbrev pub DistinctEntries : List (K × ℕ) → Type 0
  DistinctEntries [] = Unit
  DistinctEntries (x ∷ m) = NoEntry x.0 m × DistinctEntries m

module _ {K : Type 0} (dec : Discrete K) where
  pub find-assign :
      (k j : K) (it : ℕ) (m : List (K × ℕ))
      → find dec j (assign dec k it m) ≡ ite (dec k j) (some it) (find dec j m)
  find-assign k j it [] = refl
  find-assign k j it (x ∷ m) = ground (arith, find-assign k j it m)

  NoEntry-assign :
      (k j : K) (it : ℕ) (m : List (K × ℕ)) → k ≢ j → NoEntry j m → NoEntry j (assign dec k it m)
  NoEntry-assign k j it [] n h = (n, tt)
  NoEntry-assign k j it (x ∷ m) n h = ground (arith, NoEntry-assign k j it m)

  pub assign-DistinctEntries :
      (k : K) (it : ℕ) (m : List (K × ℕ)) → DistinctEntries m → DistinctEntries (assign dec k it m)
  assign-DistinctEntries k it [] d = (tt, tt)
  assign-DistinctEntries k it (x ∷ m) d = elim (dec x.0 k) [
    | yes e ↦ ground arith
    | no n ↦
        rw (if_neg _ n)
          (NoEntry-assign k x.0 it m (λ e. n (ground arith)) d.0, assign-DistinctEntries k it m d.1)
  ]

  find-none : (k : K) (m : List (K × ℕ)) → NoEntry k m → find dec k m ≡ none
  find-none k [] h = refl
  find-none k (x ∷ m) h = ground (arith, find-none k m)

  NoEntry-erase_key : (k j : K) (m : List (K × ℕ)) → NoEntry j m → NoEntry j (erase_key dec k m)
  NoEntry-erase_key k j [] h = tt
  NoEntry-erase_key k j (x ∷ m) h = ground (arith, NoEntry-erase_key k j m)

  pub erase_key-DistinctEntries :
      (k : K) (m : List (K × ℕ)) → DistinctEntries m → DistinctEntries (erase_key dec k m)
  erase_key-DistinctEntries k [] d = tt
  erase_key-DistinctEntries k (x ∷ m) d =
      ground (arith, NoEntry-erase_key k x.0 m, erase_key-DistinctEntries k m)

  pub find-erase_key :
      (k j : K) (m : List (K × ℕ))
      → DistinctEntries m
      → find dec j (erase_key dec k m) ≡ ite (dec k j) none (find dec j m)
  find-erase_key k j [] d = ground arith
  find-erase_key k j (x ∷ m) d = ground (arith, find-erase_key k j m, find-none x.0 m)
