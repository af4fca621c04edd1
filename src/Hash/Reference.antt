-- ===== src/Hash/Reference.antt =====
-- `qhashmurmur3_32` of shmutil/qhash.c against MurmurHash3 for 32 bits on a list of bytes.
use Prim.Native.Nat.{bit_xor}
use shmutil.Base.{ℕ, ◌+◌, ◌*◌, ◌/◌, ◌%◌, ◌^◌, List, [], ◌∷◌, ◌==◌, if◌then◌else◌, length}
use shmutil.Hash.{shifts, hash_blocks, hash_tail}

-- a word of the key, mixed before it goes into the hash; the published function has `left` 15
abbrev pub mixed : ℕ → ℕ → ℕ
mixed left k = shifts left 17 (k * 0xcc9e2d51 % 2 ^ 32) * 0x1b873593 % 2 ^ 32

abbrev pub into_hash : ℕ → ℕ → ℕ
into_hash h k = (shifts 13 19 (bit_xor h k) * 5 + 0xe6546b64) % 2 ^ 32

-- The bytes in groups of four, the lowest first, and the one to three that are left; `left` is for these.
abbrev pub murmur3_from : ℕ → ℕ → List ℕ → ℕ
murmur3_from left h [] = h
murmur3_from left h (a ∷ []) = bit_xor h (mixed left a)
murmur3_from left h (a ∷ b ∷ []) = bit_xor h (mixed left (bit_xor (b * 2 ^ 8) a))
murmur3_from left h (a ∷ b ∷ c ∷ []) =
    bit_xor h (mixed left (bit_xor (bit_xor (c * 2 ^ 16) (b * 2 ^ 8)) a))
murmur3_from left h (a ∷ b ∷ c ∷ d ∷ key) =
    murmur3_from left (into_hash h (mixed 15 (a + b * 256 + c * 65536 + d * 16777216))) key

abbrev pub avalanche : ℕ → ℕ
avalanche h =
    let h₁ = bit_xor h (h / 2 ^ 16) * 0x85ebca6b % 2 ^ 32 in
    let h₂ = bit_xor h₁ (h₁ / 2 ^ 13) * 0xc2b2ae35 % 2 ^ 32 in bit_xor h₂ (h₂ / 2 ^ 16)

abbrev pub murmur3 : ℕ → List ℕ → ℕ
murmur3 left key = avalanche (bit_xor (murmur3_from left 0 key) (length key) % 2 ^ 32)

module _ (a b c d : ℕ) (key : List ℕ) where
  abbrev longer : List ℕ
  longer = a ∷ b ∷ c ∷ d ∷ key

abbrev code_from : ℕ → List ℕ → ℕ
code_from h key = hash_tail key (length key / 4 * 4) (hash_blocks (length key / 4) key 0 h)

-- the rotation of the last bytes, where there are any
abbrev pub last_shift : List ℕ → ℕ
last_shift key = if length key % 4 == 0 then 15 else 13
