-- ===== src/Table/Values.antt =====
-- `_get_data` of shmutil/qhasharr.c gives a value for each entry of a well-formed table.
use shmutil.Base.{
  ℕ, zero, suc, ◌+◌, ◌≤◌, ◌<◌, ◌≡◌, ◌≢◌, ◌⊎◌, ◌∙◌, inl, inr, Bool-cases, true, false, ltb, ◌==◌,
  List, [], ◌++◌, some, length, length-append, arith,
}
use shmutil.Memory.{bytes, length-bytes}
use shmutil.Atomic.{minus_one}
use shmutil.Table.{Table}
use shmutil.Table.Lookup.{chain_size, chain_data, get_data}
use shmutil.Table.Linked.{is_head, Linked, is_head-ne-zero}
use shmutil.Table.Position.{At, pos-lt-maxslots, next_slot}

-- What is copied is never longer than the sum of the sizes, where the first loop came to its end.
chain_size-le :
    (rounds c : ℕ) (t : Table) (x n v : ℕ)
    → chain_size rounds c t x n ≡ some v
    → n + (t.slots x).size ≤ v
unfolding chain_size
chain_size-le zero c t x n v e = absurd (cc)
chain_size-le (suc rounds) c t x n v e =
    ground (arith, chain_size-le rounds (c + 1) t (t.slots x).link (n + (t.slots x).size) v)

chain_size-more :
    (rounds c : ℕ) (t : Table) (x n v : ℕ)
    → chain_size (suc rounds) c t x n ≡ some v
    → (((t.slots x).link ≡ minus_one) × (v ≡ n + (t.slots x).size))
      ⊎ (((t.slots x).link ≢ minus_one)
          × (ltb t.maxslots (c + 1) ≡ false)
          × (chain_size rounds (c + 1) t (t.slots x).link (n + (t.slots x).size) ≡ some v))
unfolding chain_size
chain_size-more rounds c t x n v e = elim (Bool-cases ((t.slots x).link == minus_one)) [
  | inl last ↦ inl (ground (arith, last), ground (arith, last))
  | inr more ↦ inr ((λ w. ground (arith, w, more)), ground (arith, more), ground (arith, more))
]

chain_size-none : (c : ℕ) (t : Table) (x n v : ℕ) → chain_size zero c t x n ≢ some v
unfolding chain_size
chain_size-none c t x n v e = cc

chain_data-some :
    (rounds c : ℕ) (t : Table) (x v : ℕ) (value : List ℕ)
    → chain_size rounds c t x (length value) ≡ some v
    → (value' : List ℕ) × (chain_data rounds c t x v value ≡ some value')
unfolding chain_data
chain_data-some zero c t x v value e = absurd (chain_size-none c t x (length value) v e)
chain_data-some (suc rounds) c t x v value e =
    let n = length-append value (bytes (t.slots x).contents 0 (t.slots x).size) in
    let m = length-bytes (t.slots x).contents 0 (t.slots x).size in
    let le = chain_size-le (suc rounds) c t x (length value) v e in
    let value₁ = value ++ bytes (t.slots x).contents 0 (t.slots x).size in
    elim (Bool-cases (ltb (length value) v)) [
      | inr enough ↦ (value, ground (arith, enough))
      | inl less ↦ elim (Bool-cases (x == minus_one)) [
        | inl out ↦ (value, ground (arith, less, out))
        | inr at ↦ elim (chain_size-more rounds c t x (length value) v e) [
          | inl (last, _) ↦ (value₁, ground (arith, less, at, last, le))
          | inr (more, on, rest) ↦
              let (value', e') =
                chain_data-some rounds (c + 1) t (t.slots x).link v value₁ (rw (n, m) rest) in
              (value', ground (arith, less, at, more, on, le, e'))
        ]
      ]
    ]

chain_size-last :
    (rounds c : ℕ) (t : Table) (x n : ℕ)
    → (t.slots x).link ≡ minus_one
    → chain_size (suc rounds) c t x n ≡ some (n + (t.slots x).size)
unfolding chain_size
chain_size-last rounds c t x n e = ground (arith, e)

chain_size-next :
    (rounds c : ℕ) (t : Table) (x n : ℕ)
    → (t.slots x).link ≢ minus_one
    → suc c ≤ t.maxslots
    → chain_size (suc rounds) c t x n
      ≡ chain_size rounds (suc c) t (t.slots x).link (n + (t.slots x).size)
unfolding chain_size
chain_size-next rounds c t x n e h =
    let k : c + 1 ≡ suc c = omega arith in rw k (ground (arith, e, h))

module _ (t : Table) (own pos : ℕ → ℕ) (l : Linked t own pos) where
  -- A chain has an end, within the rounds.
  chain_size-some :
      (rounds p x n : ℕ)
      → At t pos p x
      → rounds + p ≡ suc t.maxslots
      → (v : ℕ) × (chain_size rounds p t x n ≡ some v)
  chain_size-some zero p x n (b, u, e) r = absurd (omega (arith, pos-lt-maxslots t own pos l x b u))
  chain_size-some (suc rounds) p x n (b, u, e) r =
      elim (Bool-cases ((t.slots x).link == minus_one)) [
        | inl last ↦ (n + (t.slots x).size, chain_size-last rounds p t x n (ground (arith, last)))
        | inr more ↦
            let go : (t.slots x).link ≢ minus_one = λ w. ground (arith, w, more) in
            let (a, _) = next_slot t own pos l x b u go in
            let (v, e') =
              chain_size-some rounds (suc p) (t.slots x).link (n + (t.slots x).size) (rw (← e) a)
                (omega (arith, r)) in
            (
              v,
              chain_size-next rounds p t x n go
                    (omega (arith, e, pos-lt-maxslots t own pos l x b u))
                  ∙ e',
            )
      ]

  -- Each entry has a value.
  pub get_data-some :
      (x : ℕ)
      → x < t.maxslots
      → is_head (t.slots x).count ≡ true
      → (value : List ℕ) × (get_data t x ≡ some value)
  unfolding get_data
  get_data-some x b h =
      let (_, z) = l.heads x b h in
      let (v, e) =
        chain_size-some (t.maxslots + 1) 0 x 0 (b, is_head-ne-zero (t.slots x).count h, z)
          (omega arith) in
      let (value, e') = chain_data-some (t.maxslots + 1) 0 t x v [] e in
      (value, ground (arith, e, e'))
