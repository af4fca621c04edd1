-- ===== src/Lru.antt =====
-- `SimpleLru` of shmutil/simple_lru.h, over any type of keys: the keys, most recently used first, and
-- for each key the place of its node.
pub mod Entries
pub mod Order
mod Examples
use shmutil.Base.{ℕ, ◌+◌, List, [], ◌∷◌, Option, none, some, ℕ_discrete}
use mathlib.Core.Logic.{ite}

-- `lruMem_` is a list of nodes, each with an identity, which is what an iterator keeps pointing to;
-- `next` is the identity of the next node to be made. `keyToIter_` is a map from keys to iterators.
pub record SimpleLru (K : Type 0) : Type 0 where
  pub lru_mem : List (ℕ × K)
  pub key_to_iter : List (K × ℕ)
  pub next : ℕ

unfoldable pub new_simple_lru : {K : Type 0} → SimpleLru K
new_simple_lru = record { lru_mem = []; key_to_iter = []; next = 0 }

module _ {K : Type 0} where
  -- `lruMem_.back()`
  abbrev pub back : List (ℕ × K) → Option (ℕ × K)
  back [] = none
  back (x ∷ []) = some x
  back (x ∷ y ∷ l) = back (y ∷ l)

  -- `lruMem_.pop_back()`
  abbrev pub pop_back : List (ℕ × K) → List (ℕ × K)
  pop_back [] = []
  pop_back (x ∷ []) = []
  pop_back (x ∷ y ∷ l) = x ∷ pop_back (y ∷ l)

  -- `lruMem_.erase(it)`
  abbrev pub erase_node : ℕ → List (ℕ × K) → List (ℕ × K)
  erase_node it [] = []
  erase_node it (x ∷ l) = ite (ℕ_discrete x.0 it) l (x ∷ erase_node it l)

module _ {K : Type 0} (dec : Discrete K) where
  -- `keyToIter_.find(key)`
  abbrev pub find : K → List (K × ℕ) → Option ℕ
  find k [] = none
  find k (x ∷ m) = ite (dec x.0 k) (some x.1) (find k m)

  -- `keyToIter_.erase(key)`
  abbrev pub erase_key : K → List (K × ℕ) → List (K × ℕ)
  erase_key k [] = []
  erase_key k (x ∷ m) = ite (dec x.0 k) m (x ∷ erase_key k m)

  -- `keyToIter_[key] = it`
  abbrev pub assign : K → ℕ → List (K × ℕ) → List (K × ℕ)
  assign k it [] = (k, it) ∷ []
  assign k it (x ∷ m) = ite (dec x.0 k) ((k, it) ∷ m) (x ∷ assign k it m)

  -- The code returns "" for `none`.
  unfoldable pub get_remove_key : SimpleLru K → Option K
  get_remove_key s = elim (back s.lru_mem) [ none ↦ none | some x ↦ some x.1 ]

  -- `none`: `back()` of an empty list, which is undefined.
  unfoldable pub remove_key : SimpleLru K → Option (SimpleLru K × K)
  remove_key s = elim (back s.lru_mem) [
    | none ↦ none
    | some x ↦
        let key = x.1 in
        some (
          record s {
            lru_mem = pop_back s.lru_mem;
            key_to_iter = elim (find key s.key_to_iter) [
              | none ↦ s.key_to_iter
              | some it ↦ erase_key key s.key_to_iter
            ];
          },
          key,
        )
  ]

  unfoldable pub visit_key : SimpleLru K → K → SimpleLru K
  visit_key s key = elim (find key s.key_to_iter) [
    | none ↦ record {
      lru_mem = (s.next, key) ∷ s.lru_mem;
      key_to_iter = assign key s.next s.key_to_iter;
      next = s.next + 1;
    }
    | some it ↦ record {
      lru_mem = (s.next, key) ∷ erase_node it s.lru_mem;
      key_to_iter = assign key s.next s.key_to_iter;
      next = s.next + 1;
    }
  ]
