-- ===== src/Mrsw/Elimination.antt =====
-- The loop of `__setValue` that removes old keys ends.
use shmutil.Base.{
  ℕ, zero, suc, ◌+◌, ◌<◌, ◌≡◌, ◌≢◌, inl, inr, refl, sym, ap, ◌∙◌, Bool, List, [], ◌∷◌, none, some,
  Option-cases, length, arith,
}
use shmutil.ErrorCode.{ErrorCode, k_ok, k_err_invalid_params}
use shmutil.Value.{encode_value_str}
use shmutil.Lru.{SimpleLru, back, pop_back, get_remove_key, remove_key}
use shmutil.Mrsw.{
  Str, MrswHashtable, get_value, delete_key, put_table, oldest, drop_oldest, eliminate, set_within,
  set_value,
}

length-pop_back : (l : List (ℕ × Str)) → l ≢ [] → length (pop_back l) + 1 ≡ length l
length-pop_back [] h = absurd (h refl)
length-pop_back (x ∷ []) h = refl
length-pop_back (x ∷ y ∷ l) h = omega (arith, length-pop_back (y ∷ l) (λ e. cc))

back-some : (l : List (ℕ × Str)) → l ≢ [] → (x : ℕ × Str) × (back l ≡ some x)
back-some [] h = absurd (h refl)
back-some (x ∷ []) h = (x, refl)
back-some (x ∷ y ∷ l) h = back-some (y ∷ l) (λ e. cc)

-- the list of a handle
abbrev pub nodes : MrswHashtable → List (ℕ × Str)
nodes h = h.lru.lru_mem

module _ (little : Bool) (murmur : Str → ℕ) (md5 : Str → Str) (dec : Discrete Str) where
  pub nodes-delete_key :
      (h : MrswHashtable) (key : Str) → (delete_key little murmur md5 dec h key).1.lru ≡ h.lru
  unfolding delete_key
  nodes-delete_key h key = ground arith

  pub nodes-put_table :
      (h : MrswHashtable) (key val : Str)
      → (put_table little murmur md5 dec h key val).1.lru ≡ h.lru
  unfolding put_table
  nodes-put_table h key val = ground arith

  pub nodes-get_value :
      (h : MrswHashtable) (key val : Str)
      → (get_value little murmur md5 dec h key val).2.lru ≡ h.lru
  unfolding get_value
  nodes-get_value h key val = ground arith

  delete_key-nil :
      (h : MrswHashtable) → (delete_key little murmur md5 dec h []).0 ≡ k_err_invalid_params
  unfolding delete_key
  delete_key-nil h = ground arith

  oldest-nil : (h : MrswHashtable) → nodes h ≡ [] → oldest little murmur md5 dec h ≡ []
  unfolding get_remove_key oldest
  oldest-nil h e = ground arith

  nodes-drop_oldest :
      (h : MrswHashtable)
      → nodes h ≢ []
      → length (nodes (drop_oldest little murmur md5 dec h)) + 1 ≡ length (nodes h)
  unfolding remove_key drop_oldest
  nodes-drop_oldest h n =
      let (x, e) = back-some (nodes h) n in ground (arith, e, length-pop_back (nodes h) n)

  -- the round that comes after a round which removed a key
  abbrev pub after : MrswHashtable → Str → Str → MrswHashtable
  after h key val =
      (put_table little murmur md5 dec
        (drop_oldest little murmur md5 dec
          (delete_key little murmur md5 dec h (oldest little murmur md5 dec h)).1)
        key val).1

  nodes-after :
      (h : MrswHashtable) (key val : Str)
      → nodes h ≢ []
      → length (nodes (after h key val)) + 1 ≡ length (nodes h)
  nodes-after h key val n =
      let h₁ = (delete_key little murmur md5 dec h (oldest little murmur md5 dec h)).1 in
      let same =
        ap (λ (l : SimpleLru Str). l.lru_mem)
          (nodes-delete_key h (oldest little murmur md5 dec h)) in
      let put =
        ap (λ (l : SimpleLru Str). length l.lru_mem)
          (nodes-put_table (drop_oldest little murmur md5 dec h₁) key val) in
      omega (arith, put, nodes-drop_oldest h₁ (λ e. n (sym same ∙ e)), ap length same)

  -- A key that was removed came from the list.
  pub removed-ne-nil :
      (h : MrswHashtable)
      → (delete_key little murmur md5 dec h (oldest little murmur md5 dec h)).0 ≡ k_ok
      → nodes h ≢ []
  removed-ne-nil h e = λ n. cc (delete_key-nil h, oldest-nil h n)

  eliminate_total :
      (rounds : ℕ) (h : MrswHashtable) (key val : Str) (ret : Bool)
      → length (nodes h) + 1 < rounds
      → eliminate little murmur md5 dec rounds h key val ret ≢ none
  unfolding eliminate
  eliminate_total zero h key val ret l = absurd (omega arith)
  eliminate_total (suc rounds) h key val ret l = ground (
    arith,
    removed-ne-nil h,
    nodes-after h key val,
    eliminate_total rounds (after h key val) key val
        (put_table little murmur md5 dec
          (drop_oldest little murmur md5 dec
            (delete_key little murmur md5 dec h (oldest little murmur md5 dec h)).1)
          key val).0,
  )

  set_value-ne-none :
      (h : MrswHashtable) (key val : Str) → set_value little murmur md5 dec h key val ≢ none
  unfolding set_value set_within
  set_value-ne-none h key val =
      let h₁ = (get_value little murmur md5 dec h key []).2 in
      let value = encode_value_str little md5 val in
      let p = put_table little murmur md5 dec h₁ key value in
      ground (
        arith,
        eliminate_total (length (nodes h₁) + 2) p.1 key value p.0,
        nodes-put_table h₁ key value,
      )

  -- `setValue` comes to an end: the rounds of its loop are enough, whatever the table does.
  pub set_value_total :
      (h : MrswHashtable) (key val : Str)
      → (r : ErrorCode × MrswHashtable) × (set_value little murmur md5 dec h key val ≡ some r)
  set_value_total h key val = elim (Option-cases (set_value little murmur md5 dec h key val)) [
    | inl e ↦ absurd (set_value-ne-none h key val e)
    | inr r ↦ r
  ]
