-- ===== src/Table/Chain.antt =====
-- The chain of slots that a value takes in the table of shmutil/qhasharr.c.
use shmutil.Base.{
  ℕ, zero, suc, ◌+◌, ◌≤◌, ◌<◌, ◌^◌, ◌≡◌, ◌≢◌, refl, sym, ap, ◌∙◌, List, [], ◌∷◌, ◌++◌, some, length,
  length-append, arith,
}
use mathlib.Core.List.{append_assoc, append-nil}
use shmutil.Memory.{bytes, length-bytes}
use shmutil.Atomic.{minus_one}
use shmutil.Table.{Slot, Table, set_slot}
use shmutil.Table.Lookup.{chain_size, chain_data, get_data}
use shmutil.Table.Usage.{used}

-- the bytes of the value in a slot, and in some slots
abbrev pub part : Table → ℕ → List ℕ
part t i = bytes (t.slots i).contents 0 (t.slots i).size

abbrev pub text : Table → List ℕ → List ℕ
text t [] = []
text t (x ∷ l) = part t x ++ text t l

-- The links lead from slot `i` through the slots of the list to slot `n`.
abbrev pub Seg : Table → ℕ → List ℕ → ℕ → Type 0
Seg t i [] n = i ≡ n
Seg t i (x ∷ l) n = (i ≡ x) × (x < t.maxslots) × Seg t (t.slots x).link l n

abbrev pub Apart : ℕ → List ℕ → Type 0
Apart j [] = Unit
Apart j (x ∷ l) = (x ≢ j) × Apart j l

abbrev pub InUse : Table → List ℕ → Type 0
InUse t [] = Unit
InUse t (x ∷ l) = ((t.slots x).count ≢ 0) × InUse t l

-- The slots of a value: `idx` is the first one, `n` the last one, `l` those before it.
pub record Chain (t : Table) (idx : ℕ) (l : List ℕ) (n : ℕ) : Type 0 where
  pub seg : Seg t idx l n
  pub ends : (t.slots n).link ≡ minus_one
  pub bound : n < t.maxslots
  pub apart : Apart n l
  pub last_used : (t.slots n).count ≢ 0
  pub all_used : InUse t l
  pub room : length l + 1 ≤ used t.slots t.maxslots

pub InUse-Apart : (t : Table) (l : List ℕ) (j : ℕ) → InUse t l → (t.slots j).count ≡ 0 → Apart j l
InUse-Apart t [] j u e = tt
InUse-Apart t (x ∷ l) j (u, us) e =
    ((λ h. u (ap (λ k. (t.slots k).count) h ∙ e)), InUse-Apart t l j us e)

pub Apart-append : (j n : ℕ) (l : List ℕ) → Apart j l → n ≢ j → Apart j (l ++ (n ∷ []))
Apart-append j n [] a h = (h, tt)
Apart-append j n (x ∷ l) (a, others) h = (a, Apart-append j n l others h)

-- What is read of a chain does not change with a slot that it does not have.
module _ (t : Table) (j : ℕ) (s : Slot) where
  pub Seg-set_slot : (i n : ℕ) (l : List ℕ) → Apart j l → Seg t i l n → Seg (set_slot t j s) i l n
  unfolding set_slot
  Seg-set_slot i n [] a g = g
  Seg-set_slot i n (x ∷ l) (a, others) (e, b, g) =
      (e, b, ground (arith, Seg-set_slot (t.slots x).link n l others g))

  pub text-set_slot : (l : List ℕ) → Apart j l → text (set_slot t j s) l ≡ text t l
  unfolding set_slot
  text-set_slot [] a = refl
  text-set_slot (x ∷ l) (a, others) = ground (arith, text-set_slot l others)

  pub InUse-set_slot : (l : List ℕ) → Apart j l → InUse t l → InUse (set_slot t j s) l
  unfolding set_slot
  InUse-set_slot [] a u = tt
  InUse-set_slot (x ∷ l) (a, others) (u, us) = (ground arith, InUse-set_slot l others us)

pub text-append : (t : Table) (l m : List ℕ) → text t (l ++ m) ≡ text t l ++ text t m
text-append t [] m = refl
text-append t (x ∷ l) m =
    ap (λ w. part t x ++ w) (text-append t l m)
    ∙ sym (append_assoc (part t x) (text t l) (text t m))

pub InUse-append :
    (t : Table) (l : List ℕ) (n : ℕ) → InUse t l → (t.slots n).count ≢ 0 → InUse t (l ++ (n ∷ []))
InUse-append t [] n u h = (h, tt)
InUse-append t (x ∷ l) n (u, us) h = (u, InUse-append t l n us h)

pub Seg-append :
    (t : Table) (i n : ℕ) (l : List ℕ)
    → Seg t i l n
    → n < t.maxslots
    → Seg t i (l ++ (n ∷ [])) (t.slots n).link
Seg-append t i n [] e h = (e, h, refl)
Seg-append t i n (x ∷ l) (e, b, g) h = (e, b, Seg-append t (t.slots x).link n l g h)

append-empty : (xs ys : List ℕ) → length ys ≡ 0 → xs ++ ys ≡ xs
append-empty xs [] h = append-nil xs
append-empty xs (y ∷ ys) h = absurd (omega arith)

-- A chain is read as the parts of its slots.
module _ (t : Table) (n : ℕ) (ends : (t.slots n).link ≡ minus_one) (bound : n < t.maxslots)
    (small : t.maxslots < 2 ^ 31) where
  Seg-bound : (i : ℕ) (l : List ℕ) → Seg t i l n → i < t.maxslots
  Seg-bound i [] e = omega arith
  Seg-bound i (x ∷ l) (e, b, g) = omega arith

  chain_size-Seg :
      (l : List ℕ) (rounds loop_count i v : ℕ)
      → Seg t i l n
      → loop_count + length l ≤ t.maxslots
      → length l < rounds
      → chain_size rounds loop_count t i v ≡ some (v + length (text t l ++ part t n))
  unfolding chain_size
  chain_size-Seg l zero c i v g h r = absurd (omega arith)
  chain_size-Seg [] (suc rounds) c i v g h r =
      ground (arith, length-bytes (t.slots n).contents 0 (t.slots n).size)
  chain_size-Seg (x ∷ l) (suc rounds) c i v (e, b, g) h r = ground (
    arith,
    Seg-bound (t.slots x).link l g,
    length-bytes (t.slots x).contents 0 (t.slots x).size,
    length-append (part t x) (text t l ++ part t n),
    append_assoc (part t x) (text t l) (part t n),
    chain_size-Seg l rounds (c + 1) (t.slots x).link (v + (t.slots x).size) g,
  )

  chain_data-Seg :
      (l : List ℕ) (rounds loop_count i v : ℕ) (value : List ℕ)
      → Seg t i l n
      → loop_count + length l ≤ t.maxslots
      → length l < rounds
      → v ≡ length value + length (text t l ++ part t n)
      → chain_data rounds loop_count t i v value ≡ some (value ++ (text t l ++ part t n))
  unfolding chain_data
  chain_data-Seg l zero c i v value g h r s = absurd (omega arith)
  chain_data-Seg [] (suc rounds) c i v value g h r s =
      ground
        (arith, append-empty value (part t n), length-bytes (t.slots n).contents 0 (t.slots n).size)
  chain_data-Seg (x ∷ l) (suc rounds) c i v value (e, b, g) h r s =
      let whole = text t (x ∷ l) ++ part t n in
      ground (
        arith,
        append-empty value whole,
        Seg-bound (t.slots x).link l g,
        length-bytes (t.slots x).contents 0 (t.slots x).size,
        length-append (part t x) (text t l ++ part t n),
        length-append value (part t x),
        append_assoc (part t x) (text t l) (part t n),
        append_assoc value (part t x) (text t l ++ part t n),
        chain_data-Seg l rounds (c + 1) (t.slots x).link v (value ++ part t x) g,
      )

-- `_get_data` reads the whole chain.
pub get_data-Chain :
    (t : Table) (idx n : ℕ) (l : List ℕ)
    → Chain t idx l n
    → t.maxslots < 2 ^ 31
    → length l < t.maxslots
    → get_data t idx ≡ some (text t l ++ part t n)
unfolding get_data
get_data-Chain t idx n l c small h =
    let size = chain_size-Seg t n c.ends c.bound small l (t.maxslots + 1) 0 idx 0 c.seg in
    let content =
      chain_data-Seg t n c.ends c.bound small l (t.maxslots + 1) 0 idx
        (length (text t l ++ part t n)) [] c.seg in
    ground (arith, size, content)
