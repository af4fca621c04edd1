-- ===== src/Table/View.antt =====
-- What `qhasharr_get` of shmutil/qhasharr.c shows of a well-formed table.
use shmutil.Base.{
  ℕ, ◌%◌, ◌≤◌, ◌<◌, ◌≡◌, ◌⊎◌, inl, inr, refl, sym, ap, ◌∙◌, Bool, Bool-cases, true, false, ◌&&◌,
  List, Option, Option-cases, none, leb, leb→le, ◌==◌, if◌then◌else◌, length, take, arith,
}
use native.Mathlib.Nat.{mod-lt}
use shmutil.Memory.{bytes}
use shmutil.Value.{same_bytes}
use shmutil.Value.RoundTrip.{same_bytes_refl, same_bytes-eq}
use shmutil.Table.{Slot, Table, at_key, at_keymd5}
use shmutil.Table.Lookup.{get_data, get_idx, same_key, keylen, hash_of, get}
use shmutil.Table.Found.{IsFound, get_idx-some}
use shmutil.Table.Linked.{Counted, get_idx-IsFound, get_idx-none}

and_parts : (a b : Bool) → a && b ≡ true → (a ≡ true) × (b ≡ true)
and_parts true b e = (refl, e)
and_parts false b e = absurd (cc)

and_true : (a b : Bool) → a ≡ true → b ≡ true → a && b ≡ true
and_true a b e e' = rw (e, e') refl

test_eq : (a b : ℕ) → (a == b) ≡ true → a ≡ b
test_eq a b e = ground arith

eq_test : (a b : ℕ) → a ≡ b → (a == b) ≡ true
eq_test a b e = ground arith

leb-false : (a b : ℕ) → leb a b ≡ false → b < a
leb-false a b e = ground arith

le-leb : (a b : ℕ) → a ≤ b → leb a b ≡ true
le-leb a b e = ground arith

lt-leb : (a b : ℕ) → b < a → leb a b ≡ false
lt-leb a b e = ground arith

-- The test of two keys, or of a key and what a slot shows of it: `n` and `n'` are the lengths.
module _ (n n' : ℕ) (a a' b b' c c' : List ℕ) where
  abbrev same_parts : Bool
  same_parts = n == n' && (if leb n 96 then same_bytes a a' else same_bytes b b' && same_bytes c c')

  abbrev IsSameParts : Type 0
  IsSameParts = (n ≡ n') × (((n ≤ 96) × (a ≡ a')) ⊎ ((96 < n) × (b ≡ b') × (c ≡ c')))

  parts_sound : same_parts ≡ true → IsSameParts
  parts_sound e =
      let (m, r) =
        and_parts (n == n')
          (if leb n 96 then same_bytes a a' else same_bytes b b' && same_bytes c c') e in
      (
        test_eq n n' m,
        elim (Bool-cases (leb n 96)) [
          | inl short ↦ inl (leb→le n 96 short, same_bytes-eq a a' (rw short at r))
          | inr long ↦
              let (x, y) = and_parts (same_bytes b b') (same_bytes c c') (rw long at r) in
              inr (leb-false n 96 long, same_bytes-eq b b' x, same_bytes-eq c c' y)
        ],
      )

same_bytes_eq : (a b : List ℕ) → a ≡ b → same_bytes a b ≡ true
same_bytes_eq a b e = ap (same_bytes a) (sym e) ∙ same_bytes_refl a

module _ (n n' : ℕ) (a a' b b' c c' : List ℕ) where
  parts_complete : IsSameParts n n' a a' b b' c c' → same_parts n n' a a' b b' c c' ≡ true
  parts_complete (m, inl (short, e)) = rw (eq_test n n' m, le-leb n 96 short) (same_bytes_eq a a' e)
  parts_complete (m, inr (long, e, f)) =
      rw (eq_test n n' m, lt-leb n 96 long)
        (and_true (same_bytes b b') (same_bytes c c') (same_bytes_eq b b' e) (same_bytes_eq c c' f))

module _ (murmur : List ℕ → ℕ) (md5 : List ℕ → List ℕ) where
  -- the value that `qhasharr_get` gives for a key
  abbrev pub view : Table → List ℕ → Option (List ℕ)
  view t key = (get murmur md5 t key).0

  -- Two keys that a slot cannot tell apart.
  abbrev pub alike : List ℕ → List ℕ → Bool
  alike k k' =
      length k == length k'
      && (if leb (length k) 96
          then same_bytes k k'
          else same_bytes (take 96 k) (take 96 k') && same_bytes (md5 k) (md5 k'))

  -- The length and the stored part of a key.
  abbrev IsStored : Slot → List ℕ → Type 0
  IsStored s k =
      (length k ≡ keylen s)
      × (((length k ≤ 96) × (k ≡ bytes s.contents at_key (length k)))
          ⊎ ((96 < length k)
              × (take 96 k ≡ bytes s.contents at_key 96)
              × (md5 k ≡ bytes s.contents at_keymd5 16)))

  same_key-IsStored : (s : Slot) (k : List ℕ) → same_key murmur md5 s k ≡ true → IsStored s k
  unfolding same_key
  same_key-IsStored s k e =
      parts_sound (length k) (keylen s) k (bytes s.contents at_key (length k)) (take 96 k)
        (bytes s.contents at_key 96) (md5 k) (bytes s.contents at_keymd5 16) e

  IsStored-same_key : (s : Slot) (k : List ℕ) → IsStored s k → same_key murmur md5 s k ≡ true
  unfolding same_key
  IsStored-same_key s k p =
      parts_complete (length k) (keylen s) k (bytes s.contents at_key (length k)) (take 96 k)
        (bytes s.contents at_key 96) (md5 k) (bytes s.contents at_keymd5 16) p

  -- Only the contents of a slot and not its counts say which key it has.
  pub same_key_contents :
      (s s' : Slot) (k : List ℕ)
      → s'.contents ≡ s.contents
      → same_key murmur md5 s' k ≡ same_key murmur md5 s k
  unfolding same_key
  same_key_contents s s' k e = rw e refl

  -- `alike` as equations
  abbrev IsAlike : List ℕ → List ℕ → Type 0
  IsAlike k k' =
      (length k ≡ length k')
      × (((length k ≤ 96) × (k ≡ k'))
          ⊎ ((96 < length k) × (take 96 k ≡ take 96 k') × (md5 k ≡ md5 k')))

  alike-IsAlike : (k k' : List ℕ) → alike k k' ≡ true → IsAlike k k'
  alike-IsAlike k k' e =
      parts_sound (length k) (length k') k k' (take 96 k) (take 96 k') (md5 k) (md5 k') e

  IsAlike-alike : (k k' : List ℕ) → IsAlike k k' → alike k k' ≡ true
  IsAlike-alike k k' p =
      parts_complete (length k) (length k') k k' (take 96 k) (take 96 k') (md5 k) (md5 k') p

  both-IsAlike : (s : Slot) (k k' : List ℕ) → IsStored s k → IsStored s k' → IsAlike k k'
  both-IsAlike s k k' (n, inl (a, e)) (n', inl (a', e')) =
      (n ∙ sym n', inl (a, e ∙ ap (bytes s.contents at_key) (n ∙ sym n') ∙ sym e'))
  both-IsAlike s k k' (n, inl (a, e)) (n', inr (a', e', d')) = absurd (omega arith)
  both-IsAlike s k k' (n, inr (a, e, d)) (n', inl (a', e')) = absurd (omega arith)
  both-IsAlike s k k' (n, inr (a, e, d)) (n', inr (a', e', d')) =
      (n ∙ sym n', inr (a, e ∙ sym e', d ∙ sym d'))

  IsAlike-IsStored : (s : Slot) (k k' : List ℕ) → IsStored s k → IsAlike k k' → IsStored s k'
  IsAlike-IsStored s k k' (n, inl (a, e)) (m, inl (b, f)) =
      (sym m ∙ n, inl (omega (arith, m, a), sym f ∙ e ∙ ap (bytes s.contents at_key) m))
  IsAlike-IsStored s k k' (n, inl (a, e)) (m, inr (b, f, d)) = absurd (omega arith)
  IsAlike-IsStored s k k' (n, inr (a, e, d)) (m, inl (b, f)) = absurd (omega arith)
  IsAlike-IsStored s k k' (n, inr (a, e, d)) (m, inr (b, f, d')) =
      (sym m ∙ n, inr (omega (arith, m, a), sym f ∙ e, sym d' ∙ d))

  pub same_key-alike :
      (s : Slot) (k k' : List ℕ)
      → same_key murmur md5 s k ≡ true
      → same_key murmur md5 s k' ≡ true
      → alike k k' ≡ true
  same_key-alike s k k' e e' =
      IsAlike-alike k k' (both-IsAlike s k k' (same_key-IsStored s k e) (same_key-IsStored s k' e'))

  pub alike-same_key :
      (s : Slot) (k k' : List ℕ)
      → same_key murmur md5 s k ≡ true
      → alike k k' ≡ true
      → same_key murmur md5 s k' ≡ true
  alike-same_key s k k' e a =
      IsStored-same_key s k'
        (IsAlike-IsStored s k k' (same_key-IsStored s k e) (alike-IsAlike k k' a))

  alike_flip : (k k' : List ℕ) → IsAlike k k' → IsAlike k' k
  alike_flip k k' (m, inl (a, e)) = (sym m, inl (omega (arith, m, a), sym e))
  alike_flip k k' (m, inr (a, e, d)) = (sym m, inr (omega (arith, m, a), sym e, sym d))

  pub alike_sym : (k k' : List ℕ) → alike k k' ≡ true → alike k' k ≡ true
  alike_sym k k' a = IsAlike-alike k' k (alike_flip k k' (alike-IsAlike k k' a))

  module _ (t : Table) (c : Counted murmur md5 t) (key : List ℕ) where
    pub view-IsFound :
        (i : ℕ) → IsFound murmur md5 t key (hash_of murmur md5 t key) i → view t key ≡ get_data t i
    unfolding get
    view-IsFound i f =
        let b : hash_of murmur md5 t key < t.maxslots = mod-lt (murmur key) (omega (arith, f.0)) in
        ground (arith, f.0, get_idx-IsFound murmur md5 t c key (hash_of murmur md5 t key) i b f)

    -- Either there is one entry with the key, or nothing is shown for it.
    pub view_cases :
        ((i : ℕ) × IsFound murmur md5 t key (hash_of murmur md5 t key) i
          × (view t key ≡ get_data t i))
        ⊎ ((view t key ≡ none)
            × ((i : ℕ) → ¬ IsFound murmur md5 t key (hash_of murmur md5 t key) i))
    view_cases = elim (Bool-cases (t.maxslots == 0)) [
      | inl zero_slots ↦
          inr (unfold get in ground (arith, zero_slots), λ i f. ground (arith, zero_slots, f.0))
      | inr more ↦
          let h = hash_of murmur md5 t key in
          let b : h < t.maxslots = mod-lt (murmur key) (ground (arith, more)) in
          elim (Option-cases (get_idx murmur md5 t key h)) [
            | inl e ↦ inr (
              unfold get in ground (arith, more, e),
              λ i. get_idx-none murmur md5 t c key h i b e,
            )
            | inr (i, e) ↦
                let f = get_idx-some murmur md5 t key h i b e in inl (i, f, view-IsFound i f)
          ]
    ]

  -- `t'` shows the entries of `t` with a key and a hash, perhaps in other places, and no others.
  pub record Shows (t t' : Table) (key : List ℕ) (h : ℕ) : Type 0 where
    pub there :
        (i : ℕ)
        → IsFound murmur md5 t key h i
        → (i' : ℕ) × IsFound murmur md5 t' key h i' × (get_data t' i' ≡ get_data t i)
    pub back : (i' : ℕ) → IsFound murmur md5 t' key h i' → (i : ℕ) × IsFound murmur md5 t key h i

  pub Shows-trans :
      (t t' t'' : Table) (key : List ℕ) (h : ℕ)
      → Shows t t' key h
      → Shows t' t'' key h
      → Shows t t'' key h
  Shows-trans t t' t'' key h s s' = record {
    there = λ i f.
        let (i', f', d) = s.there i f in let (i'', f'', d') = s'.there i' f' in (i'', f'', d' ∙ d);
    back = λ i'' f''. let (i', f') = s'.back i'' f'' in s.back i' f';
  }

  -- Then two well-formed tables show the same value.
  pub view_same :
      (t t' : Table) (c : Counted murmur md5 t) (c' : Counted murmur md5 t') (key : List ℕ)
      → t'.maxslots ≡ t.maxslots
      → Shows t t' key (hash_of murmur md5 t key)
      → view t' key ≡ view t key
  view_same t t' c c' key m s =
      let h : hash_of murmur md5 t' key ≡ hash_of murmur md5 t key = ap (λ n. murmur key % n) m in
      elim (view_cases t c key) [
        | inl (i, f, v) ↦
            let (i', f', d) = s.there i f in view-IsFound t' c' key i' (rw h f') ∙ d ∙ sym v
        | inr (e, nothing) ↦ elim (view_cases t' c' key) [
          | inl (i', f', v) ↦ let (i, f) = s.back i' (rw h at f') in absurd (nothing i f)
          | inr (e', _) ↦ e' ∙ sym e
        ]
      ]

  -- Keys of at most 96 bytes are alike only where they are the same.
  pub short_alike : (k k' : List ℕ) → length k ≤ 96 → alike k k' ≡ true → k ≡ k'
  short_alike k k' h e = elim (alike-IsAlike k k' e).1 [
    | inl (_, same) ↦ same
    | inr (long, _, _) ↦ absurd (omega (arith, h, long))
  ]
