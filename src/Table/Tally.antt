-- ===== src/Table/Tally.antt =====
-- How many slots have a property, in the table of shmutil/qhasharr.c.
use shmutil.Base.{
  ℕ, zero, suc, ◌+◌, ◌≤◌, ◌<◌, ◌≡◌, ◌≢◌, inl, inr, refl, Bool, Bool-cases, true, false, dec_lt,
  ◌==◌, if◌then◌else◌, arith,
}

-- the numbers below `n` that pass the test
abbrev pub tally : (ℕ → Bool) → ℕ → ℕ
tally p zero = 0
tally p (suc n) = (if p n then 1 else 0) + tally p n

pub tally_le : (p : ℕ → Bool) (n : ℕ) → tally p n ≤ n
tally_le p zero = omega arith
tally_le p (suc n) = ground (arith, tally_le p n)

pub tally_mono : (p : ℕ → Bool) (m n : ℕ) → m ≤ n → tally p m ≤ tally p n
tally_mono p m zero h = ground arith
tally_mono p m (suc n) h = elim (dec_lt m (suc n)) [
  | yes l ↦ ground (arith, tally_mono p m n)
  | no l ↦ let e : m ≡ suc n = omega (arith, l) in rw e (omega arith)
]

pub tally_lt : (p : ℕ → Bool) (i n : ℕ) → p i ≡ true → i < n → tally p i < tally p n
tally_lt p i n e h = ground (arith, tally_mono p (suc i) n)

-- Two tests that agree below `n`.
pub tally_ext : (p q : ℕ → Bool) (n : ℕ) → ((j : ℕ) → j < n → p j ≡ q j) → tally p n ≡ tally q n
tally_ext p q zero h = refl
tally_ext p q (suc n) h = ground (arith, h n, tally_ext p q n (λ j b. h j (omega arith)))

-- Two tests that agree below `n` but at one number.
pub tally_more :
    (p q : ℕ → Bool) (i n : ℕ)
    → i < n
    → ((j : ℕ) → j < n → j ≢ i → p j ≡ q j)
    → p i ≡ false
    → q i ≡ true
    → tally q n ≡ suc (tally p n)
tally_more p q i zero h a e e' = absurd (omega arith)
tally_more p q i (suc n) h a e e' = elim (Bool-cases (n == i)) [
  | inl same ↦
      ground
        (arith, same, tally_ext p q n (λ j b. a j (omega arith) (λ w. ground (arith, w, same))))
  | inr other ↦
      ground
        (arith, other, a n, tally_more p q i n (ground arith) (λ j b w. a j (omega arith) w) e e')
]

pub tally_none : (p : ℕ → Bool) (n : ℕ) → ((j : ℕ) → j < n → p j ≡ false) → tally p n ≡ 0
tally_none p zero h = refl
tally_none p (suc n) h = ground (arith, h n, tally_none p n (λ j b. h j (omega arith)))

-- A test that passes more numbers.
pub tally_weaken :
    (p q : ℕ → Bool) (n : ℕ) → ((j : ℕ) → j < n → p j ≡ true → q j ≡ true) → tally p n ≤ tally q n
tally_weaken p q zero h = omega arith
tally_weaken p q (suc n) h = ground (arith, h n, tally_weaken p q n (λ j b. h j (omega arith)))

pub tally_strict :
    (p q : ℕ → Bool) (i n : ℕ)
    → i < n
    → ((j : ℕ) → j < n → p j ≡ true → q j ≡ true)
    → p i ≡ false
    → q i ≡ true
    → tally p n < tally q n
tally_strict p q i zero h a e e' = absurd (omega arith)
tally_strict p q i (suc n) h a e e' = elim (Bool-cases (n == i)) [
  | inl same ↦ ground (arith, same, tally_weaken p q n (λ j b. a j (omega arith)))
  | inr other ↦
      ground
        (arith, other, a n, tally_strict p q i n (ground arith) (λ j b. a j (omega arith)) e e')
]

-- Two numbers that pass.
pub tally_two :
    (p : ℕ → Bool) (i j n : ℕ) → i < n → j < n → i ≢ j → p i ≡ true → p j ≡ true → 2 ≤ tally p n
tally_two p i j n bi bj ne pi pj =
    let r : ℕ → Bool = λ k. if k == i then false else p k in
    omega (
      arith,
      tally_more r p i n bi (λ k b w. ground (arith, w)) (ground arith) pi,
      tally_lt r j n (ground (arith, pj, ne)) bj,
    )

-- Only one passes.
pub tally_one :
    (p : ℕ → Bool) (i n : ℕ)
    → i < n
    → p i ≡ true
    → ((j : ℕ) → j < n → j ≢ i → p j ≡ false)
    → tally p n ≡ 1
tally_one p i n b e a =
    let r : ℕ → Bool = λ k. false in
    omega (
      arith,
      tally_more r p i n b (λ k bk w. ground (arith, a k bk w)) refl e,
      tally_none r n (λ j h. refl),
    )
