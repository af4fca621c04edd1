-- ===== src/MsgQueue/Ring.antt =====
-- Positions in the ring. A position lies in 0 .. `block_size`, both ends included: the code leaves
-- `*head_` and `*tail_` at `block_size` where a message ends exactly there.
use shmutil.Base.{ℕ, ◌+◌, ◌-◌, ◌≤◌, ◌<◌, ◌≡◌, ltb, leb, if◌then◌else◌, arith}

-- the address of the byte `i` behind position `p`
unfoldable pub ring_pos : ℕ → ℕ → ℕ → ℕ
ring_pos block_size p i = if ltb (p + i) block_size then p + i else p + i - block_size

-- the position `n` bytes behind position `p`
unfoldable pub advance : ℕ → ℕ → ℕ → ℕ
advance block_size p n = if leb (p + n) block_size then p + n else p + n - block_size

pub ring_pos-advance :
    (size p n i : ℕ)
    → p ≤ size
    → n + i < size
    → ring_pos size (advance size p n) i ≡ ring_pos size p (n + i)
unfolding ring_pos advance
ring_pos-advance size p n i h l = ground arith

pub advance-advance :
    (size p n k : ℕ)
    → p ≤ size
    → n + k < size
    → advance size (advance size p n) k ≡ advance size p (n + k)
unfolding advance
advance-advance size p n k h l = ground arith

pub advance-le : (size p n : ℕ) → p ≤ size → n ≤ size → advance size p n ≤ size
unfolding advance
advance-le size p n h l = ground arith
