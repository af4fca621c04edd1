-- ===== src/Lru/Order.antt =====
-- The list of `SimpleLru` without its iterators: each key once, most recently used first.
use shmutil.Base.{
  ℕ, ◌+◌, ◌<◌, ◌≡◌, ◌≢◌, ◌⊎◌, inl, inr, refl, ap, ◌∙◌, List, [], ◌∷◌, Option, none, some,
  Option-cases, sym, arith,
}
use mathlib.Core.Logic.{ite}
use shmutil.Lru.Entries.{
  DistinctEntries, find-assign, assign-DistinctEntries, erase_key-DistinctEntries, find-erase_key,
}
use shmutil.Lru.{
  SimpleLru, back, pop_back, erase_node, find, erase_key, get_remove_key, remove_key, visit_key,
  new_simple_lru,
}

module _ {K : Type 0} where
  -- the keys in order
  abbrev pub keys : List (ℕ × K) → List K
  keys [] = []
  keys (x ∷ l) = x.1 ∷ keys l

  abbrev pub last : List K → Option K
  last [] = none
  last (x ∷ []) = some x
  last (x ∷ y ∷ l) = last (y ∷ l)

  abbrev pub drop_last : List K → List K
  drop_last [] = []
  drop_last (x ∷ []) = []
  drop_last (x ∷ y ∷ l) = x ∷ drop_last (y ∷ l)

  -- No node has this identity; no node has this key.
  abbrev pub NoId : ℕ → List (ℕ × K) → Type 0
  NoId i [] = Unit
  NoId i (x ∷ l) = (x.0 ≢ i) × NoId i l

  abbrev pub NoNode : K → List (ℕ × K) → Type 0
  NoNode k [] = Unit
  NoNode k (x ∷ l) = (x.1 ≢ k) × NoNode k l

  -- All nodes were made before `n`, and no two have the same identity or the same key.
  abbrev pub Distinct : ℕ → List (ℕ × K) → Type 0
  Distinct n [] = Unit
  Distinct n (x ∷ l) = (x.0 < n) × NoId x.0 l × NoNode x.1 l × Distinct n l

  fresh : (n : ℕ) (l : List (ℕ × K)) → Distinct n l → NoId n l
  fresh n [] d = tt
  fresh n (x ∷ l) d = (omega arith, fresh n l d.3)

  Distinct-suc : (n : ℕ) (l : List (ℕ × K)) → Distinct n l → Distinct (n + 1) l
  Distinct-suc n [] d = tt
  Distinct-suc n (x ∷ l) d = (omega arith, d.1, d.2, Distinct-suc n l d.3)

module _ {K : Type 0} (dec : Discrete K) where
  abbrev pub erase : K → List K → List K
  erase k [] = []
  erase k (x ∷ l) = ite (dec x k) l (x ∷ erase k l)

  -- the node of a key, by walking through the list
  abbrev pub node_of : K → List (ℕ × K) → Option ℕ
  node_of k [] = none
  node_of k (x ∷ l) = ite (dec x.1 k) (some x.0) (node_of k l)

  -- The map finds the node of each key, and of no other.
  pub record IsValid (s : SimpleLru K) : Type 0 where
    pub distinct : Distinct s.next s.lru_mem
    pub entries : DistinctEntries s.key_to_iter
    pub found : (k : K) → find dec k s.key_to_iter ≡ node_of k s.lru_mem

  node_of-none : (k : K) (l : List (ℕ × K)) → NoNode k l → node_of k l ≡ none
  node_of-none k [] h = refl
  node_of-none k (x ∷ l) h = ground (arith, node_of-none k l)

  absent : (k : K) (l : List (ℕ × K)) → node_of k l ≡ none → NoNode k l
  absent k [] h = tt
  absent k (x ∷ l) h = ground (arith, absent k l)

  erase_absent : (k : K) (l : List (ℕ × K)) → NoNode k l → erase k (keys l) ≡ keys l
  erase_absent k [] h = refl
  erase_absent k (x ∷ l) h = ground (arith, erase_absent k l)

  node_of-ne : (k : K) (l : List (ℕ × K)) (i it : ℕ) → node_of k l ≡ some it → NoId i l → it ≢ i
  node_of-ne k [] i it e h = ground arith
  node_of-ne k (x ∷ l) i it e h = ground (arith, node_of-ne k l i it)

  module _ (it : ℕ) where
    NoId-erase_node : (i : ℕ) (l : List (ℕ × K)) → NoId i l → NoId i (erase_node it l)
    NoId-erase_node i [] h = tt
    NoId-erase_node i (x ∷ l) h = ground (arith, NoId-erase_node i l)

    NoNode-erase_node : (k : K) (l : List (ℕ × K)) → NoNode k l → NoNode k (erase_node it l)
    NoNode-erase_node k [] h = tt
    NoNode-erase_node k (x ∷ l) h = ground (arith, NoNode-erase_node k l)

    Distinct-erase_node : (n : ℕ) (l : List (ℕ × K)) → Distinct n l → Distinct n (erase_node it l)
    Distinct-erase_node n [] d = tt
    Distinct-erase_node n (x ∷ l) d =
        ground (arith, NoId-erase_node x.0 l, NoNode-erase_node x.1 l, Distinct-erase_node n l)

    -- To erase the node of a key is to erase the key.
    module _ (k : K) where
      erased :
          (n : ℕ) (l : List (ℕ × K))
          → Distinct n l
          → node_of k l ≡ some it
          → NoNode k (erase_node it l)
      erased n [] d e = tt
      erased n (x ∷ l) d e = ground (arith, erased n l, node_of-ne k l x.0 it)

      keys-erase_node :
          (n : ℕ) (l : List (ℕ × K))
          → Distinct n l
          → node_of k l ≡ some it
          → keys (erase_node it l) ≡ erase k (keys l)
      keys-erase_node n [] d e = refl
      keys-erase_node n (x ∷ l) d e = ground (arith, keys-erase_node n l, node_of-ne k l x.0 it)

      node_of-erase_node :
          (j : K) (n : ℕ) (l : List (ℕ × K))
          → Distinct n l
          → node_of k l ≡ some it
          → k ≢ j
          → node_of j (erase_node it l) ≡ node_of j l
      node_of-erase_node j n [] d e h = refl
      node_of-erase_node j n (x ∷ l) d e h =
          ground (arith, node_of-erase_node j n l, node_of-ne k l x.0 it)

  -- A new `SimpleLru` is empty.
  pub new-IsValid : IsValid new_simple_lru
  unfolding new_simple_lru
  new-IsValid = record { distinct = tt; entries = tt; found = λ k. refl }

  module _ (s : SimpleLru K) (k : K) (v : IsValid s) where
    -- `visitKey` puts the key in front of the others, which keep their order, and keeps the map right.
    pub visit_key_lem :
        IsValid (visit_key dec s k)
        × (keys (visit_key dec s k).lru_mem ≡ k ∷ erase k (keys s.lru_mem))
    unfolding visit_key
    visit_key_lem = elim (Option-cases (find dec k s.key_to_iter)) [
      | inl new ↦
          let gone : NoNode k s.lru_mem = absent k s.lru_mem (sym (v.found k) ∙ new) in
          rw (new, visit_key)
            (
              record {
                distinct = (
                  omega arith,
                  fresh s.next s.lru_mem v.distinct,
                  gone,
                  Distinct-suc s.next s.lru_mem v.distinct,
                );
                entries = assign-DistinctEntries dec k s.next s.key_to_iter v.entries;
                found = λ j. ground (arith, find-assign dec k j s.next s.key_to_iter, v.found j);
              },
              ground (arith, erase_absent k s.lru_mem gone),
            )
      | inr (it, old) ↦
          let at : node_of k s.lru_mem ≡ some it = sym (v.found k) ∙ old in
          rw (old, visit_key)
            (
              record {
                distinct = (
                  omega arith,
                  NoId-erase_node it s.next s.lru_mem (fresh s.next s.lru_mem v.distinct),
                  erased it k s.next s.lru_mem v.distinct at,
                  Distinct-suc s.next (erase_node it s.lru_mem)
                      (Distinct-erase_node it s.next s.lru_mem v.distinct),
                );
                entries = assign-DistinctEntries dec k s.next s.key_to_iter v.entries;
                found = λ j. ground (
                  arith,
                  find-assign dec k j s.next s.key_to_iter,
                  v.found j,
                  node_of-erase_node it k j s.next s.lru_mem v.distinct at,
                );
              },
              ground (arith, keys-erase_node it k s.next s.lru_mem v.distinct at),
            )
    ]

  back-last : (l : List (ℕ × K)) → last (keys l) ≡ elim (back l) [ none ↦ none | some x ↦ some x.1 ]
  back-last [] = refl
  back-last (x ∷ []) = refl
  back-last (x ∷ y ∷ l) = back-last (y ∷ l)

  back-none : (l : List (ℕ × K)) → back l ≡ none → l ≡ []
  back-none [] e = refl
  back-none (x ∷ []) e = cc
  back-none (x ∷ y ∷ l) e = absurd (cc (back-none (y ∷ l) e))

  keys-pop_back : (l : List (ℕ × K)) → keys (pop_back l) ≡ drop_last (keys l)
  keys-pop_back [] = refl
  keys-pop_back (x ∷ []) = refl
  keys-pop_back (x ∷ y ∷ l) = ap (λ m. x.1 ∷ m) (keys-pop_back (y ∷ l))

  NoId-pop_back : (i : ℕ) (l : List (ℕ × K)) → NoId i l → NoId i (pop_back l)
  NoId-pop_back i [] h = tt
  NoId-pop_back i (x ∷ []) h = tt
  NoId-pop_back i (x ∷ y ∷ l) h = (h.0, NoId-pop_back i (y ∷ l) h.1)

  NoNode-pop_back : (k : K) (l : List (ℕ × K)) → NoNode k l → NoNode k (pop_back l)
  NoNode-pop_back k [] h = tt
  NoNode-pop_back k (x ∷ []) h = tt
  NoNode-pop_back k (x ∷ y ∷ l) h = (h.0, NoNode-pop_back k (y ∷ l) h.1)

  Distinct-pop_back : (n : ℕ) (l : List (ℕ × K)) → Distinct n l → Distinct n (pop_back l)
  Distinct-pop_back n [] d = tt
  Distinct-pop_back n (x ∷ []) d = tt
  Distinct-pop_back n (x ∷ y ∷ l) d = (
    d.0,
    NoId-pop_back x.0 (y ∷ l) d.1,
    NoNode-pop_back x.1 (y ∷ l) d.2,
    Distinct-pop_back n (y ∷ l) d.3,
  )

  -- The last node is the only one of its key.
  node_of-pop_back :
      (j : K) (n : ℕ) (x : ℕ × K) (l : List (ℕ × K))
      → Distinct n l
      → back l ≡ some x
      → (node_of x.1 l ≡ some x.0) × (node_of j (pop_back l) ≡ ite (dec x.1 j) none (node_of j l))
  node_of-pop_back j n x [] d e = ground arith
  node_of-pop_back j n x (y ∷ []) d e = ground arith
  node_of-pop_back j n x (y ∷ z ∷ l) d e =
      ground (arith, node_of-pop_back j n x (z ∷ l), node_of-none y.1 (z ∷ l))

  module _ (s : SimpleLru K) (v : IsValid s) where
    -- `getRemoveKey` is the least recently used key. `removeKey` returns it, and leaves the other keys
    -- in their order and the map right; there is nothing to remove exactly where the list is empty.
    pub remove_key_lem :
        (get_remove_key dec s ≡ last (keys s.lru_mem))
        × (((s.lru_mem ≡ []) × (remove_key dec s ≡ none))
            ⊎ ((s' : SimpleLru K) × (k : K) × (remove_key dec s ≡ some (s', k))
                × (last (keys s.lru_mem) ≡ some k)
                × IsValid s'
                × (keys s'.lru_mem ≡ drop_last (keys s.lru_mem))))
    unfolding remove_key get_remove_key
    remove_key_lem = (
      back-last-get,
      elim (Option-cases (back s.lru_mem)) [
        | inl empty ↦ inl (back-none s.lru_mem empty, rw (empty, remove_key))
        | inr (x, e) ↦
            let at = λ (j : K). node_of-pop_back j s.next x s.lru_mem v.distinct e in
            let there : find dec x.1 s.key_to_iter ≡ some x.0 = v.found x.1 ∙ (at x.1).0 in
            inr (
              record s {
                lru_mem = pop_back s.lru_mem;
                key_to_iter = erase_key dec x.1 s.key_to_iter;
              },
              x.1,
              ground (arith, e, there),
              ground (arith, e, back-last s.lru_mem),
              record {
                distinct = Distinct-pop_back s.next s.lru_mem v.distinct;
                entries = erase_key-DistinctEntries dec x.1 s.key_to_iter v.entries;
                found = λ j.
                    ground
                      (arith, find-erase_key dec x.1 j s.key_to_iter v.entries, v.found j, at j);
              },
              keys-pop_back s.lru_mem,
            )
      ],
    )
      where
        back-last-get : get_remove_key dec s ≡ last (keys s.lru_mem)
        back-last-get = ground (arith, back-last s.lru_mem)
